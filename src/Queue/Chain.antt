-- ===== src/Queue/Chain.antt =====
-- Runs of linked nodes, which need not be closed to a ring, and what insertion and removal do to them.
use lingx.Base.{
  ℕ, ◌≡◌, refl, sym, ◌∙◌, ◌≢◌, Bool, true, false, ◌||◌, List, [], ◌∷◌, ◌++◌, arith, ◌==◌,
}
use mathlib.Core.List.{append_assoc}
use lingx.Queue.{Links}

unfoldable pub has : ℕ → List ℕ → Bool
has a [] = false
has a (x ∷ xs) = (a == x) || has a xs

infix 40 ◌∉◌
abbrev pub ◌∉◌ : ℕ → List ℕ → Type 0
a ∉ xs = has a xs ≡ false

abbrev pub Distinct : List ℕ → Type 0
Distinct [] = Unit {0}
Distinct (x ∷ xs) = (x ∉ xs) × Distinct xs

-- From `a` the pointers lead through the nodes `xs` to `b`, and back.
abbrev pub Chain : Links → ℕ → List ℕ → ℕ → Type 0
Chain m a [] b = (m.next a ≡ b) × (m.prev b ≡ a)
Chain m a (x ∷ xs) b = (m.next a ≡ x) × (m.prev x ≡ a) × Chain m x xs b

-- The last node of `a` and `xs`, and the first of `xs` and `b`.
abbrev pub end_of : ℕ → List ℕ → ℕ
end_of a [] = a
end_of a (x ∷ xs) = end_of x xs

abbrev pub start_of : List ℕ → ℕ → ℕ
start_of [] b = b
start_of (x ∷ xs) b = x

pub ne_of_not_mem : (a x : ℕ) (xs : List ℕ) → a ∉ x ∷ xs → (a ≢ x) × (a ∉ xs)
unfolding has
ne_of_not_mem a x xs h = (ground arith, ground arith)

pub not_mem-append : (a : ℕ) (xs ys : List ℕ) → a ∉ xs ++ ys → (a ∉ xs) × (a ∉ ys)
unfolding has
not_mem-append a [] ys h = (refl, h)
not_mem-append a (x ∷ xs) ys h = ground (arith, not_mem-append a xs ys)

-- A chain survives any change that spares its pointers.
pub Chain-frame :
    {m g : Links} (a : ℕ) (xs : List ℕ) (b : ℕ)
    → Chain m a xs b
    → ((c : ℕ) → has c (a ∷ xs) ≡ true → g.next c ≡ m.next c)
    → ((c : ℕ) → has c (xs ++ b ∷ []) ≡ true → g.prev c ≡ m.prev c)
    → Chain g a xs b
unfolding has
Chain-frame a [] b (n, p) sn sp = (sn a (ground arith) ∙ n, sp b (ground arith) ∙ p)
Chain-frame a (x ∷ xs) b (n, p, c) sn sp = (
  sn a (ground arith) ∙ n,
  sp x (ground arith) ∙ p,
  Chain-frame x xs b c (λ d h. sn d (ground arith)) (λ d h. sp d (ground arith)),
)

-- `x` is linked in between the adjacent nodes `p` and `q`, and nothing else changes.
pub record LinkedIn (m g : Links) (p x q : ℕ) : Type 0 where
  pub next_p : g.next p ≡ x
  pub prev_x : g.prev x ≡ p
  pub next_x : g.next x ≡ q
  pub prev_q : g.prev q ≡ x
  pub next_same : (c : ℕ) → c ≢ p → c ≢ x → g.next c ≡ m.next c
  pub prev_same : (c : ℕ) → c ≢ q → c ≢ x → g.prev c ≡ m.prev c

-- `p` and `q` are adjacent, and nothing else changes.
pub record Joined (m g : Links) (p q : ℕ) : Type 0 where
  pub next_p : g.next p ≡ q
  pub prev_q : g.prev q ≡ p
  pub next_same : (c : ℕ) → c ≢ p → g.next c ≡ m.next c
  pub prev_same : (c : ℕ) → c ≢ q → g.prev c ≡ m.prev c

pub ne_of_mem : (c a : ℕ) (xs : List ℕ) → has c xs ≡ true → a ∉ xs → c ≢ a
unfolding has
ne_of_mem c a [] h k = cc
ne_of_mem c a (x ∷ xs) h k = ground (arith, ne_of_mem c a xs)

pub end_of-mem : (a : ℕ) (us ys : List ℕ) → has (end_of a us) (a ∷ us ++ ys) ≡ true
unfolding has
end_of-mem a [] ys = ground arith
end_of-mem a (u ∷ us) ys = ground (arith, end_of-mem u us ys)

pub start_of-mem : (us ys : List ℕ) (b : ℕ) → has (start_of ys b) ((us ++ ys) ++ b ∷ []) ≡ true
unfolding has
start_of-mem [] [] b = ground arith
start_of-mem [] (y ∷ ys) b = ground arith
start_of-mem (u ∷ us) ys b = ground (arith, start_of-mem us ys b)

pub ne_sym : {a b : ℕ} → a ≢ b → b ≢ a
ne_sym h e = h (sym e)

pub Chain-LinkedIn :
    {m g : Links} (a : ℕ) (us ys : List ℕ) (b x : ℕ)
    → Chain m a (us ++ ys) b
    → LinkedIn m g (end_of a us) x (start_of ys b)
    → Distinct (a ∷ us ++ ys)
    → Distinct ((us ++ ys) ++ b ∷ [])
    → x ∉ a ∷ us ++ ys
    → x ∉ (us ++ ys) ++ b ∷ []
    → Chain g a (us ++ x ∷ ys) b
unfolding has
Chain-LinkedIn a [] [] b x c l dn dp xn xp = (l.next_p, l.prev_x, (l.next_x, l.prev_q))
Chain-LinkedIn a [] (y ∷ ys) b x c l dn dp xn xp = (
  l.next_p,
  l.prev_x,
  (
    l.next_x,
    l.prev_q,
    Chain-frame y ys b c.2
        (λ d h.
          l.next_same d (ne_of_mem d a (y ∷ ys) h dn.0) (ne_of_mem d x (y ∷ ys) h (ground arith)))
        (λ d h.
          l.prev_same d (ne_of_mem d y (ys ++ b ∷ []) h dp.0)
            (ne_of_mem d x (ys ++ b ∷ []) h (ground arith))),
  ),
)
Chain-LinkedIn a (u ∷ us) ys b x c l dn dp xn xp =
    let ends = end_of-mem u us ys in
    let starts = start_of-mem us ys b in
    (
      l.next_same a (ne_sym (ne_of_mem _ a (u ∷ us ++ ys) ends dn.0)) (ground arith) ∙ c.0,
      l.prev_same u (ne_sym (ne_of_mem _ u ((us ++ ys) ++ b ∷ []) starts dp.0)) (ground arith)
          ∙ c.1,
      Chain-LinkedIn u us ys b x c.2 l dn.1 dp.1 (ground arith) (ground arith),
    )

pub Chain-Joined :
    {m g : Links} (a : ℕ) (us ys : List ℕ) (b x : ℕ)
    → Chain m a (us ++ x ∷ ys) b
    → Joined m g (end_of a us) (start_of ys b)
    → Distinct (a ∷ us ++ x ∷ ys)
    → Distinct ((us ++ x ∷ ys) ++ b ∷ [])
    → Chain g a (us ++ ys) b
unfolding has
Chain-Joined a [] [] b x c l dn dp = (l.next_p, l.prev_q)
Chain-Joined a [] (y ∷ ys) b x c l dn dp = (
  l.next_p,
  l.prev_q,
  Chain-frame y ys b c.2.2 (λ d h. l.next_same d (ne_of_mem d a (y ∷ ys) h (ground arith)))
      (λ d h. l.prev_same d (ne_of_mem d y (ys ++ b ∷ []) h dp.1.0)),
)
Chain-Joined a (u ∷ us) ys b x c l dn dp =
    let ends = end_of-mem u us (x ∷ ys) in
    let starts = start_of-mem (us ++ x ∷ []) ys b in
    (
      l.next_same a (ne_sym (ne_of_mem _ a (u ∷ us ++ x ∷ ys) ends dn.0)) ∙ c.0,
      l.prev_same u (
            ne_sym (
              ne_of_mem _ u ((us ++ x ∷ ys) ++ b ∷ []) (rw (append_assoc us (x ∷ []) ys) at starts)
                dp.0))
          ∙ c.1,
      Chain-Joined u us ys b x c.2 l dn.1 dp.1,
    )
