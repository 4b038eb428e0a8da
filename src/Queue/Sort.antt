-- ===== src/Queue/Sort.antt =====
-- src/lingx/core/queue.cc: `Queue_sort`, the insertion sort in place. The comparison is a parameter:
-- the source calls it on two nodes, and once on the sentinel and the first node.
mod Seek
mod Steps
pub mod Order
pub mod Endless
-- The test `cmp(a, b) <= 0`.
use lingx.Base.{
  ℕ, zero, suc, Bool, false, ◌||◌, Option, none, some, List, [], ◌∷◌, ◌==◌, if◌then◌else◌, ◌>>=◌, ℤ,
  nonpos,
}
use lingx.Queue.{Links, insert_head, head, last, remove}

unfoldable pub at_most : (ℕ → ℕ → ℤ) → ℕ → ℕ → Bool
at_most cmp a b = nonpos (cmp a b)

-- The inner loop: from `prev` back to the node behind which `q` goes. `none` means that the fuel ran
-- out, here and below.
unfoldable pub seek : (ℕ → ℕ → ℤ) → Links → ℕ → ℕ → ℕ → ℕ → Option ℕ
seek cmp m h zero prev q = none
seek cmp m h (suc fuel) prev q =
    let rest = seek cmp m h fuel (m.prev prev) q in
    if at_most cmp prev q then some prev else if m.prev prev == h then some h else rest

unfoldable pub sort_loop : (ℕ → ℕ → ℤ) → ℕ → ℕ → ℕ → Links → ℕ → Option Links
sort_loop cmp h size zero m q = none
sort_loop cmp h size (suc fuel) m q =
    let prev = m.prev q in
    let next = m.next q in
    let m1 = remove m q in
    let rest =
      seek cmp m1 h size prev q >>= λ p. sort_loop cmp h size fuel (insert_head m1 p q) next in
    if q == h then some m else rest

unfoldable pub sort : (ℕ → ℕ → ℤ) → Links → ℕ → ℕ → Option Links
sort cmp m h fuel = if head m h == last m h then some m else sort_loop cmp h fuel fuel m (m.next h)

-- The same on lists: each node in turn goes behind the last one that is not greater.
abbrev pub some_at_most : (ℕ → ℕ → ℤ) → ℕ → List ℕ → Bool
some_at_most cmp q [] = false
some_at_most cmp q (u ∷ us) = at_most cmp u q || some_at_most cmp q us

unfoldable pub place : (ℕ → ℕ → ℤ) → ℕ → List ℕ → List ℕ
place cmp q [] = q ∷ []
place cmp q (u ∷ us) =
    let rest = place cmp q us in if some_at_most cmp q (u ∷ us) then u ∷ rest else q ∷ u ∷ us

abbrev pub place_all : (ℕ → ℕ → ℤ) → List ℕ → List ℕ → List ℕ
place_all cmp us [] = us
place_all cmp us (q ∷ qs) = place_all cmp (place cmp q us) qs

abbrev pub sorted : (ℕ → ℕ → ℤ) → List ℕ → List ℕ
sorted cmp xs = place_all cmp [] xs
