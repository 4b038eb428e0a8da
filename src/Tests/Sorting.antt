-- ===== src/Tests/Sorting.antt =====
-- A queue of three nodes: its order, its middle, its parts.
use lingx.Base.{
  ℕ, ◌≡◌, refl, true, false, ◌||◌, none, some, List, [], ◌∷◌, arith, leb, ◌==◌, if◌then◌else◌, ℤ,
  pos, minus_one, nonpos,
}
use mathlib.Core.List.{Perm}
use lingx.Queue.{Links, update, split, add, middle}
use lingx.Queue.Chain.{has}
use lingx.Queue.Middle.{middle_lem}
use lingx.Queue.Parts.{add-split}
use lingx.Queue.Ring.{IsRing}
use lingx.Queue.Sort.{at_most, sort, place, sorted}
use lingx.Queue.Sort.Endless.{sort-endless}
use lingx.Queue.Sort.Order.{IsOrder, IsOrdered, equals, sort-IsOrdered}
use lingx.Queue.Unique.{IsRing-unique}

-- The queue 0 with the nodes 2, 3 and 4.
abbrev three_nodes : Links
three_nodes = record {
  prev = update (update (update (update (λ a. 99) 0 4) 2 0) 3 2) 4 3;
  next = update (update (update (update (λ a. 99) 0 2) 2 3) 3 4) 4 0;
}

three_nodes-IsRing : IsRing three_nodes 0 (2 ∷ 3 ∷ 4 ∷ [])
unfolding has
three_nodes-IsRing = record {
  chain = (refl, refl, (refl, refl, (refl, refl, (refl, refl))));
  distinct = (refl, (refl, (refl, (refl, tt))));
}

-- The nodes 2 and 4 have the key 7, the others the key 5.
abbrev key : ℕ → ℕ
key a = if a == 2 || a == 4 then 7 else 5

abbrev by_key : ℕ → ℕ → ℤ
by_key a b = if leb (key a) (key b) then (if key a == key b then pos 0 else minus_one) else pos 1

at_most_key : (a b : ℕ) → at_most by_key a b ≡ leb (key a) (key b)
unfolding at_most
at_most_key a b = signs (key a) (key b)
  where
    signs :
        (x y : ℕ)
        → nonpos (if leb x y then (if x == y then pos 0 else minus_one) else pos 1) ≡ leb x y
    signs x y = ground arith

by_key-IsOrder : IsOrder by_key
by_key-IsOrder = record {
  total = λ a b e. rw at_most_key (leb_total (key a) (key b) (rw at_most_key at e));
  trans = λ a b c e k.
      rw at_most_key
        (leb_trans (key a) (key b) (key c) (rw at_most_key at e) (rw at_most_key at k));
}
  where
    leb_total : (x y : ℕ) → leb x y ≡ false → leb y x ≡ true
    leb_total x y e = ground arith

    leb_trans : (x y z : ℕ) → leb x y ≡ true → leb y z ≡ true → leb x z ≡ true
    leb_trans x y z e k = ground arith

sorted_run : sorted by_key (2 ∷ 3 ∷ 4 ∷ []) ≡ 3 ∷ 2 ∷ 4 ∷ []
unfolding place at_most
sorted_run = refl

sort-IsOrdered_example :
    (g : Links) × (ys : List ℕ) × (sort by_key three_nodes 0 4 ≡ some g)
    × IsRing g 0 ys
    × IsOrdered by_key ys
    × Perm ys (2 ∷ 3 ∷ 4 ∷ [])
    × ((c : ℕ) → equals by_key c ys ≡ equals by_key c (2 ∷ 3 ∷ 4 ∷ []))
unfolding at_most
sort-IsOrdered_example =
    sort-IsOrdered by_key by_key-IsOrder three_nodes 0 4 (2 ∷ 3 ∷ 4 ∷ []) three_nodes-IsRing refl
      (omega arith)

-- A comparison that puts the sentinel after the nodes, which compare equal.
abbrev sentinel_last : ℕ → ℕ → ℤ
sentinel_last a b = if a == 0 then pos 1 else pos 0

abbrev two_nodes : Links
two_nodes = record {
  prev = update (update (update (λ a. 99) 0 3) 2 0) 3 2;
  next = update (update (update (λ a. 99) 0 2) 2 3) 3 0;
}

sort-endless_example : sort sentinel_last two_nodes 0 1000 ≡ none
unfolding at_most has
sort-endless_example =
    sort-endless sentinel_last 0 1000 2 3 two_nodes
      (record {
        chain = (refl, refl, (refl, refl, (refl, refl)));
        distinct = (refl, (refl, (refl, tt)));
      })
      refl refl refl refl

middle_lem_example : middle three_nodes 0 3 ≡ some 3
middle_lem_example = middle_lem three_nodes 0 2 (3 ∷ 4 ∷ []) three_nodes-IsRing 3 (omega arith)

add-split_example :
    IsRing (split three_nodes 0 3 9) 0 (2 ∷ [])
    × IsRing (split three_nodes 0 3 9) 9 (3 ∷ 4 ∷ [])
    × IsRing (add (split three_nodes 0 3 9) 0 9) 0 (2 ∷ 3 ∷ 4 ∷ [])
unfolding has
add-split_example = add-split three_nodes 0 3 9 (2 ∷ []) (4 ∷ []) three_nodes-IsRing refl

IsRing-unique_run : IsProp ((xs : List ℕ) × IsRing three_nodes 0 xs)
IsRing-unique_run = IsRing-unique three_nodes 0
