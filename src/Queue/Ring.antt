-- ===== src/Queue/Ring.antt =====
-- The contract of the queue: the links from the sentinel and back spell a list, and each macro does
-- to that list what its name says.
use lingx.Base.{ℕ, ◌≡◌, refl, sym, ◌≢◌, ◌↔◌, true, List, [], ◌∷◌, ◌++◌, arith}
use mathlib.Core.List.{append-nil}
use lingx.Queue.{empty, Links, insert_head, insert_tail, head, last, remove}
use lingx.Queue.Chain.{
  has, ◌∉◌, Distinct, Chain, end_of, start_of, ne_of_not_mem, LinkedIn, Joined, Chain-LinkedIn,
  Chain-Joined,
}

-- The queue with the sentinel `h` holds the nodes `xs`, from the head to the last.
pub record IsRing (m : Links) (h : ℕ) (xs : List ℕ) : Type 0 where
  pub chain : Chain m h xs h
  pub distinct : Distinct (h ∷ xs)

pub not_mem-snoc : (a : ℕ) (xs : List ℕ) (h : ℕ) → a ∉ xs → a ≢ h → a ∉ xs ++ h ∷ []
unfolding has
not_mem-snoc a [] h n ne = ground arith
not_mem-snoc a (x ∷ xs) h n ne = ground (arith, not_mem-snoc a xs h)

pub Distinct-snoc : (xs : List ℕ) (h : ℕ) → h ∉ xs → Distinct xs → Distinct (xs ++ h ∷ [])
unfolding has
Distinct-snoc [] h n d = (refl, tt)
Distinct-snoc (x ∷ xs) h n d =
    (not_mem-snoc x xs h d.0 (λ e. ground arith), Distinct-snoc xs h (ground arith) d.1)

not_mem-middle :
    (a : ℕ) (us : List ℕ) (x : ℕ) (ys : List ℕ) → a ≢ x → a ∉ us ++ ys → a ∉ us ++ x ∷ ys
unfolding has
not_mem-middle a [] x ys ne n = ground arith
not_mem-middle a (u ∷ us) x ys ne n = ground (arith, not_mem-middle a us x ys)

pub not_mem-drop :
    (a : ℕ) (us : List ℕ) (x : ℕ) (ys : List ℕ) → a ∉ us ++ x ∷ ys → (a ∉ us ++ ys) × (a ≢ x)
unfolding has
not_mem-drop a [] x ys n = ground arith
not_mem-drop a (u ∷ us) x ys n = ground (arith, not_mem-drop a us x ys)

Distinct-insert :
    (us : List ℕ) (x : ℕ) (ys : List ℕ)
    → x ∉ us ++ ys
    → Distinct (us ++ ys)
    → Distinct (us ++ x ∷ ys)
unfolding has
Distinct-insert [] x ys n d = (n, d)
Distinct-insert (u ∷ us) x ys n d =
    (not_mem-middle u us x ys (λ e. ground arith) d.0, Distinct-insert us x ys (ground arith) d.1)

pub Distinct-delete :
    (us : List ℕ) (x : ℕ) (ys : List ℕ)
    → Distinct (us ++ x ∷ ys)
    → Distinct (us ++ ys) × (x ∉ us ++ ys)
unfolding has
Distinct-delete [] x ys d = (d.1, d.0)
Distinct-delete (u ∷ us) x ys d =
    let rest = Distinct-delete us x ys d.1 in
    let k = not_mem-drop u us x ys d.0 in ((k.0, rest.0), ground arith)

pub links_around :
    (m : Links) (a : ℕ) (us ys : List ℕ) (b x : ℕ)
    → Chain m a (us ++ x ∷ ys) b
    → (m.prev x ≡ end_of a us) × (m.next x ≡ start_of ys b)
links_around m a [] [] b x c = (c.1, c.2.0)
links_around m a [] (y ∷ ys) b x c = (c.1, c.2.0)
links_around m a (u ∷ us) ys b x c = links_around m u us ys b x c.2

pub prev_of_end :
    (m : Links) (a : ℕ) (xs : List ℕ) (b : ℕ) → Chain m a xs b → m.prev b ≡ end_of a xs
prev_of_end m a [] b c = c.1
prev_of_end m a (x ∷ xs) b c = prev_of_end m x xs b c.2

pub next_of_start :
    (m : Links) (a : ℕ) (xs : List ℕ) (b : ℕ) → Chain m a xs b → m.next a ≡ start_of xs b
next_of_start m a [] b c = c.0
next_of_start m a (x ∷ xs) b c = c.0

pub next_of_end :
    (m : Links) (a : ℕ) (us ys : List ℕ) (b : ℕ)
    → Chain m a (us ++ ys) b
    → m.next (end_of a us) ≡ start_of ys b
next_of_end m a [] ys b c = next_of_start m a ys b c
next_of_end m a (u ∷ us) ys b c = next_of_end m u us ys b c.2

pub not_mem-cons : (a x : ℕ) (xs : List ℕ) → a ≢ x → a ∉ xs → a ∉ x ∷ xs
unfolding has
not_mem-cons a x xs ne n = ground arith

pub ne_end_of_cons : (h x : ℕ) (xs : List ℕ) → h ∉ x ∷ xs → h ≢ end_of x xs
unfolding has
ne_end_of_cons h x [] n = ground arith
ne_end_of_cons h x (y ∷ xs) n = ne_end_of_cons h y xs (ground arith)

-- One insertion, at any place of the queue.
pub IsRing-LinkedIn :
    {m g : Links} (h : ℕ) (us ys : List ℕ) (x : ℕ)
    → IsRing m h (us ++ ys)
    → x ∉ h ∷ us ++ ys
    → LinkedIn m g (end_of h us) x (start_of ys h)
    → IsRing g h (us ++ x ∷ ys)
unfolding has
IsRing-LinkedIn h us ys x r n l =
    let dn = r.distinct in
    let apart = ne_of_not_mem x h (us ++ ys) n in
    record {
      chain =
          Chain-LinkedIn h us ys h x r.chain l dn (Distinct-snoc (us ++ ys) h dn.0 dn.1) n
            (not_mem-snoc x (us ++ ys) h apart.1 apart.0);
      distinct = (
        not_mem-middle h us x ys (λ e. apart.0 (sym e)) dn.0,
        Distinct-insert us x ys apart.1 dn.1,
      );
    }

pub insert_tail-LinkedIn :
    (m : Links) (h x p : ℕ) → m.prev h ≡ p → x ≢ p → x ≢ h → LinkedIn m (insert_tail m h x) p x h
unfolding insert_tail
insert_tail-LinkedIn m h x p e ne ne' = record {
  next_p = ground arith;
  prev_x = ground arith;
  next_x = ground arith;
  prev_q = ground arith;
  next_same = λ c k k'. ground arith;
  prev_same = λ c k k'. ground arith;
}

insert_head-LinkedIn :
    (m : Links) (h x q : ℕ) → m.next h ≡ q → x ≢ q → x ≢ h → LinkedIn m (insert_head m h x) h x q
unfolding insert_head
insert_head-LinkedIn m h x q e ne ne' = record {
  next_p = ground arith;
  prev_x = ground arith;
  next_x = ground arith;
  prev_q = ground arith;
  next_same = λ c k k'. ground arith;
  prev_same = λ c k k'. ground arith;
}

remove-Joined :
    (m : Links) (x p q : ℕ) → m.prev x ≡ p → m.next x ≡ q → x ≢ q → Joined m (remove m x) p q
unfolding remove
remove-Joined m x p q e e' ne = record {
  next_p = ground arith;
  prev_q = ground arith;
  next_same = λ c k. ground arith;
  prev_same = λ c k. ground arith;
}

ne_end : (h x : ℕ) (us ys : List ℕ) → x ∉ h ∷ us ++ ys → (x ≢ end_of h us) × (x ≢ start_of ys h)
unfolding has
ne_end h x [] [] n = (ground arith, ground arith)
ne_end h x [] (y ∷ ys) n = (ground arith, ground arith)
ne_end h x (u ∷ us) ys n =
    ((ne_end u x us ys (ground arith)).0, (ne_end h x us ys (ground arith)).1)

-- `Queue_insert_tail` puts a new node at the end of the queue.
pub insert_tail-IsRing :
    (m : Links) (h x : ℕ) (xs : List ℕ)
    → IsRing m h xs
    → x ∉ h ∷ xs
    → IsRing (insert_tail m h x) h (xs ++ x ∷ [])
insert_tail-IsRing m h x xs r n =
    let e = append-nil xs in
    let n' : x ∉ h ∷ xs ++ [] = rw e n in
    IsRing-LinkedIn h xs [] x (rw e r) n' (
      insert_tail-LinkedIn m h x _ (prev_of_end m h xs h r.chain) (ne_end h x xs [] n').0
        (ne_end h x xs [] n').1)

-- `Queue_insert_head`, at the sentinel, puts a new node at the head; as `Queue_insert_after`, at
-- any node of the queue, it puts the new node behind that one.
pub insert_after-IsRing :
    (m : Links) (h x : ℕ) (us ys : List ℕ)
    → IsRing m h (us ++ ys)
    → x ∉ h ∷ us ++ ys
    → IsRing (insert_head m (end_of h us) x) h (us ++ x ∷ ys)
insert_after-IsRing m h x us ys r n =
    let k = ne_end h x us ys n in
    IsRing-LinkedIn h us ys x r n
      (insert_head-LinkedIn m (end_of h us) x _ (next_of_end m h us ys h r.chain) k.1 k.0)

-- A node of the queue stands there once, and is not the sentinel.
pub taken_out :
    (m : Links) (h x : ℕ) (us ys : List ℕ) → IsRing m h (us ++ x ∷ ys) → x ∉ h ∷ us ++ ys
taken_out m h x us ys r =
    let out = not_mem-drop h us x ys r.distinct.0 in
    not_mem-cons x h (us ++ ys) (λ e. out.1 (sym e)) (Distinct-delete us x ys r.distinct.1).1

-- `Queue_remove` takes a node out, wherever it stands.
pub remove-IsRing :
    (m : Links) (h x : ℕ) (us ys : List ℕ)
    → IsRing m h (us ++ x ∷ ys)
    → IsRing (remove m x) h (us ++ ys)
remove-IsRing m h x us ys r =
    let around = links_around m h us ys h x r.chain in
    let dn = r.distinct in
    let left = Distinct-delete us x ys dn.1 in
    let out = not_mem-drop h us x ys dn.0 in
    let n = taken_out m h x us ys r in
    record {
      chain =
          Chain-Joined h us ys h x r.chain
            (remove-Joined m x _ _ around.0 around.1 (ne_end h x us ys n).1) dn
            (Distinct-snoc (us ++ x ∷ ys) h dn.0 dn.1);
      distinct = (out.0, left.0);
    }

-- `Queue_empty` says whether the queue holds no node, and `Queue_head` and `Queue_last` give its
-- first and last node, the sentinel if there is none.
pub empty-head-last :
    (m : Links) (h : ℕ) (xs : List ℕ)
    → IsRing m h xs
    → ((empty m h ≡ true) ↔ (xs ≡ [])) × (head m h ≡ start_of xs h) × (last m h ≡ end_of h xs)
unfolding empty head last
empty-head-last m h [] r = ((λ e. refl, λ e. ground (arith, r.chain.1)), r.chain.0, r.chain.1)
empty-head-last m h (x ∷ xs) r =
    let p = prev_of_end m h (x ∷ xs) h r.chain in
    let ne = ne_end_of_cons h x xs r.distinct.0 in
    ((λ e. absurd (ne (ground arith)), λ e. cc), r.chain.0, p)
