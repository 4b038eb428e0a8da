-- ===== src/Queue/Middle.antt =====
-- `Queue_middle`: one pointer goes two nodes for each node of the other.
use lingx.Base.{
  ℕ, zero, suc, ◌+◌, ◌/◌, ◌≤◌, ◌<◌, ◌≡◌, refl, sym, ap, ◌∙◌, ◌≢◌, inl, inr, true, false, some, List,
  [], ◌∷◌, arith, ◌==◌, if◌then◌else◌, ==_iff, Bool-cases, length, get_or,
}
use lingx.Queue.{Links, head, last, middle_loop, middle}
use lingx.Queue.Chain.{has, Distinct, Chain, end_of, ne_of_mem}
use lingx.Queue.Ring.{IsRing, prev_of_end}

-- The node after the one at the index `i`, and the sentinel after the last.
next_at :
    (m : Links) (a : ℕ) (xs : List ℕ) (b i : ℕ)
    → Chain m a xs b
    → i < length xs
    → m.next (get_or xs i b) ≡ get_or xs (suc i) b
next_at m a [] b i c l = absurd (omega arith)
next_at m a (x ∷ []) b zero c l = c.2.0
next_at m a (x ∷ y ∷ xs) b zero c l = c.2.0
next_at m a (x ∷ xs) b (suc i) c l = next_at m x xs b i c.2 (omega arith)

last_at : (a x : ℕ) (xs : List ℕ) (d : ℕ) → end_of a (x ∷ xs) ≡ get_or (x ∷ xs) (length xs) d
last_at a x [] d = refl
last_at a x (y ∷ xs) d = last_at x y xs d

has-get_or : (xs : List ℕ) (i d : ℕ) → i < length xs → has (get_or xs i d) xs ≡ true
unfolding has
has-get_or [] i d l = absurd (omega arith)
has-get_or (x ∷ xs) zero d l = ground arith
has-get_or (x ∷ xs) (suc i) d l = ground (arith, has-get_or xs i d)

-- Different indices hold different nodes.
get_or-apart :
    (xs : List ℕ) (i j d : ℕ) → Distinct xs → i < j → j < length xs → get_or xs i d ≢ get_or xs j d
get_or-apart [] i j d dn l k e = absurd (omega arith)
get_or-apart (x ∷ xs) i zero d dn l k e = absurd (omega arith)
get_or-apart (x ∷ xs) zero (suc j) d dn l k e =
    ne_of_mem _ x xs (has-get_or xs j d (omega arith)) dn.0 (sym e)
get_or-apart (x ∷ xs) (suc i) (suc j) d dn l k e =
    get_or-apart xs i j d dn.1 (omega arith) (omega arith) e

eq_false : (a b : ℕ) → (a == b) ≡ false → a ≢ b
eq_false a b k e = ground arith

-- A turn of the loop, which stops at either of two nodes or goes on.
module _ (m : Links) (h fuel a b c d e s : ℕ) (slow : m.next a ≡ c) (fast : m.next b ≡ d)
    (faster : m.next d ≡ e) (end : last m h ≡ s) where
  turn :
      middle_loop m h (suc fuel) a b
      ≡ (if d == s then some c else if e == s then some c else middle_loop m h fuel c e)
  unfolding middle_loop last
  turn = rw (slow, fast, faster, end) refl

  turn-first : d ≡ s → middle_loop m h (suc fuel) a b ≡ some c
  turn-first k = turn ∙ ground arith

  turn-second : (d == s) ≡ false → e ≡ s → middle_loop m h (suc fuel) a b ≡ some c
  turn-second n k = turn ∙ rw n (ground arith)

  turn-on :
      (d == s) ≡ false
      → (e == s) ≡ false
      → middle_loop m h (suc fuel) a b ≡ middle_loop m h fuel c e
  turn-on n k = turn ∙ rw (n, k) refl

middle-stop :
    (m : Links) (h fuel x s : ℕ) → m.next h ≡ x → last m h ≡ s → s ≡ x → middle m h fuel ≡ some x
unfolding middle head last
middle-stop m h fuel x s e k z = ground arith

middle-go :
    (m : Links) (h fuel x s : ℕ)
    → m.next h ≡ x
    → last m h ≡ s
    → (x == s) ≡ false
    → middle m h fuel ≡ middle_loop m h fuel x x
unfolding middle head last
middle-go m h fuel x s e k z = rw (e, k, z) refl

module _ (m : Links) (h x : ℕ) (xs : List ℕ) (ring : IsRing m h (x ∷ xs)) where
  node : ℕ → ℕ
  node i = get_or (x ∷ xs) i h

  node-next : (i : ℕ) → i < suc (length xs) → m.next (node i) ≡ node (suc i)
  unfolding node
  node-next i l = next_at m h (x ∷ xs) h i ring.chain l

  node-last : last m h ≡ node (length xs)
  unfolding node last
  node-last = prev_of_end m h (x ∷ xs) h ring.chain ∙ last_at h x xs h

  node-apart : (i j : ℕ) → i < j → j < suc (length xs) → (node i == node j) ≡ false
  unfolding node
  node-apart i j l k = elim (Bool-cases (node i == node j)) [
    | inl e ↦ absurd (get_or-apart (x ∷ xs) i j h ring.distinct.1 l k ((==_iff _ _).0 e))
    | inr e ↦ e
  ]

  half : (i : ℕ) → i ≡ suc (length xs) / 2 → some (node i) ≡ some (node (suc (length xs) / 2))
  half i k = ap (λ z. some (node z)) k

  -- The loop at the index `i`, with the fast pointer at twice that.
  middle_loop_lem :
      (fuel i : ℕ)
      → i + i + 1 < suc (length xs)
      → suc (length xs) ≤ i + i + fuel
      → middle_loop m h fuel (node i) (node (i + i)) ≡ some (node (suc (length xs) / 2))
  middle_loop_lem zero i l f = absurd (omega arith)
  middle_loop_lem (suc fuel) i l f = elim (Bool-cases (suc (i + i) == length xs)) [
    | inl k ↦
        turn-first m h fuel _ _ _ _ _ _ slow fast faster node-last (ap node ((==_iff _ _).0 k))
        ∙ half (suc i) (omega (arith, (==_iff _ _).0 k))
    | inr k ↦ elim (Bool-cases (suc (suc (i + i)) == length xs)) [
      | inl k' ↦
          turn-second m h fuel _ _ _ _ _ _ slow fast faster node-last
            (node-apart _ _ (first k) (omega arith)) (ap node ((==_iff _ _).0 k'))
          ∙ half (suc i) (omega (arith, (==_iff _ _).0 k'))
      | inr k' ↦
          turn-on m h fuel _ _ _ _ _ _ slow fast faster node-last
            (node-apart _ _ (first k) (omega arith)) (node-apart _ _ (second k k') (omega arith))
          ∙ rw twice at (middle_loop_lem fuel (suc i) (omega (arith, second k k')) (omega arith))
    ]
  ]
    where
      slow : m.next (node i) ≡ node (suc i)
      slow = node-next i (omega arith)

      fast : m.next (node (i + i)) ≡ node (suc (i + i))
      fast = node-next (i + i) (omega arith)

      faster : m.next (node (suc (i + i))) ≡ node (suc (suc (i + i)))
      faster = node-next (suc (i + i)) (omega arith)

      first : (suc (i + i) == length xs) ≡ false → suc (i + i) < length xs
      first k = omega (arith, eq_false (suc (i + i)) (length xs) k)

      second :
          (suc (i + i) == length xs) ≡ false
          → (suc (suc (i + i)) == length xs) ≡ false
          → suc (suc (i + i)) < length xs
      second k k' =
          omega (
            arith,
            eq_false (suc (i + i)) (length xs) k,
            eq_false (suc (suc (i + i))) (length xs) k',
          )

      twice : suc i + suc i ≡ suc (suc (i + i))
      twice = omega arith

  -- `Queue_middle` returns the node at half the number of nodes, counted from 0: the middle one of an
  -- odd number, and the first one of the second half of an even number.
  pub middle_lem :
      (fuel : ℕ)
      → length xs < fuel
      → middle m h fuel ≡ some (get_or (x ∷ xs) (suc (length xs) / 2) h)
  unfolding node
  middle_lem fuel l = elim (Bool-cases (length xs == 0)) [
    | inl e ↦
        middle-stop m h fuel x _ ring.chain.0 node-last (ap node ((==_iff _ _).0 e))
        ∙ half 0 (omega (arith, (==_iff _ _).0 e))
    | inr e ↦
        middle-go m h fuel x _ ring.chain.0 node-last
          (node-apart 0 (length xs) (omega (arith, eq_false _ _ e)) (omega arith))
        ∙ middle_loop_lem fuel 0 (omega (arith, eq_false _ _ e)) (omega arith)
  ]
