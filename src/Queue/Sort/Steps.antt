-- ===== src/Queue/Sort/Steps.antt =====
-- `Queue_sort` on a ring of nodes is the insertion sort on their list.
use lingx.Base.{
  ℕ, zero, suc, ◌+◌, ◌≤◌, ◌<◌, ◌≡◌, refl, sym, ap, ◌∙◌, ◌≢◌, true, some, List, [], ◌∷◌, ◌++◌, arith,
  ◌==◌, if_cases, length, ℤ,
}
use mathlib.Core.List.{append-nil, append_assoc}
use mathlib.Core.Path.{subst}
use lingx.Queue.{Links, insert_head, head, last, remove}
use lingx.Queue.Chain.{◌∉◌, start_of, ne_of_not_mem}
use lingx.Queue.Ring.{
  IsRing, links_around, prev_of_end, ne_end_of_cons, insert_after-IsRing, taken_out, remove-IsRing,
}
use lingx.Queue.Sort.{at_most, seek, sort_loop, sort, place, place_all, sorted}
use lingx.Queue.Sort.Seek.{place-append, Found, StartsWell, seek_from_end}

length-place : (cmp : ℕ → ℕ → ℤ) (q : ℕ) (us : List ℕ) → length (place cmp q us) ≡ suc (length us)
unfolding place
length-place cmp q [] = refl
length-place cmp q (u ∷ us) = ground (arith, length-place cmp q us)

StartsWell-place :
    (cmp : ℕ → ℕ → ℤ) (h q : ℕ) (us ys : List ℕ) → StartsWell cmp h (place cmp q us) ys
StartsWell-place cmp h q us ys = nonempty (place cmp q us) (length-place cmp q us)
  where
    nonempty : (vs : List ℕ) → length vs ≡ suc (length us) → StartsWell cmp h vs ys
    nonempty [] e = absurd (omega arith)
    nonempty (v ∷ vs) e = tt

Found-IsRing :
    (cmp : ℕ → ℕ → ℤ) (m : Links) (h q : ℕ) (us ys : List ℕ) (p : ℕ)
    → Found cmp h q us p
    → IsRing m h (us ++ ys)
    → q ∉ h ∷ us ++ ys
    → IsRing (insert_head m p q) h (place cmp q us ++ ys)
Found-IsRing cmp m h q us ys p f r n =
    let cs = f.before in
    let ds = f.behind in
    let split = ap (λ vs. vs ++ ys) f.whole ∙ append_assoc cs ds ys in
    let placed = ap (place cmp q) f.whole ∙ place-append cmp q cs ds f.stops f.greater in
    let done =
      insert_after-IsRing m h q cs (ds ++ ys) (rw split at r) (subst (λ vs. q ∉ h ∷ vs) split n) in
    rw (f.here, placed, append_assoc) done

-- One turn of the outer loop: the node `q` moves to its place in the part before it.
turn-IsRing :
    (cmp : ℕ → ℕ → ℤ) (m : Links) (h q fuel : ℕ) (us ys : List ℕ)
    → IsRing m h (us ++ q ∷ ys)
    → StartsWell cmp h us (q ∷ ys)
    → length us < fuel
    → (p : ℕ) × (seek cmp (remove m q) h fuel (m.prev q) q ≡ some p)
      × IsRing (insert_head (remove m q) p q) h (place cmp q us ++ ys)
turn-IsRing cmp m h q fuel us ys r w l =
    let r1 = remove-IsRing m h q us ys r in
    let (p, e, f) = seek_from_end cmp (remove m q) h q fuel us ys r1 w l in
    (
      p,
      rw (links_around m h us ys h q r.chain).0 e,
      Found-IsRing cmp (remove m q) h q us ys p f r1 (taken_out m h q us ys r),
    )

sort_loop-end :
    (cmp : ℕ → ℕ → ℤ) (h size fuel : ℕ) (m : Links) → sort_loop cmp h size (suc fuel) m h ≡ some m
unfolding sort_loop
sort_loop-end cmp h size fuel m = ground arith

pub sort_loop-turn :
    (cmp : ℕ → ℕ → ℤ) (h size fuel : ℕ) (m : Links) (q p next : ℕ)
    → q ≢ h
    → seek cmp (remove m q) h size (m.prev q) q ≡ some p
    → m.next q ≡ next
    → sort_loop cmp h size (suc fuel) m q
      ≡ sort_loop cmp h size fuel (insert_head (remove m q) p q) next
unfolding sort_loop
sort_loop-turn cmp h size fuel m q p next ne e k =
    rw (e, k)
      (if_cases (λ x. x ≡ sort_loop cmp h size fuel (insert_head (remove m q) p q) next) (q == h)
        (λ t. ground arith) (λ t. refl))

sort_loop-IsRing :
    (cmp : ℕ → ℕ → ℤ) (h size fuel : ℕ) (m : Links) (us ys : List ℕ)
    → IsRing m h (us ++ ys)
    → StartsWell cmp h us ys
    → length us + length ys ≤ size
    → length ys < fuel
    → (g : Links) × (sort_loop cmp h size fuel m (start_of ys h) ≡ some g)
      × IsRing g h (place_all cmp us ys)
sort_loop-IsRing cmp h size zero m us ys r w s l = absurd (omega arith)
sort_loop-IsRing cmp h size (suc fuel) m us [] r w s l =
    (m, sort_loop-end cmp h size fuel m, rw append-nil at r)
sort_loop-IsRing cmp h size (suc fuel) m us (q ∷ ys) r w s l =
    let (p, e, t) = turn-IsRing cmp m h q size us ys r w (omega arith) in
    let rest =
      sort_loop-IsRing cmp h size fuel (insert_head (remove m q) p q) (place cmp q us) ys t
        (StartsWell-place cmp h q us ys) (rw length-place (omega arith)) (omega arith) in
    (
      rest.0,
      sort_loop-turn cmp h size fuel m q p _
            (λ k. (ne_of_not_mem q h (us ++ ys) (taken_out m h q us ys r)).0 k) e
            (links_around m h us ys h q r.chain).1
          ∙ rest.1,
      rest.2,
    )

-- With two nodes or more, the comparison of the sentinel with the first one is at most 0.
abbrev pub FirstStays : (ℕ → ℕ → ℤ) → ℕ → List ℕ → Type 0
FirstStays cmp h (x ∷ y ∷ ys) = at_most cmp h x ≡ true
FirstStays cmp h xs = Unit {0}

sort-short :
    (cmp : ℕ → ℕ → ℤ) (m : Links) (h fuel x : ℕ)
    → m.next h ≡ x
    → m.prev h ≡ x
    → sort cmp m h fuel ≡ some m
unfolding sort head last
sort-short cmp m h fuel x e k = ground arith

pub sort-long :
    (cmp : ℕ → ℕ → ℤ) (m : Links) (h fuel x : ℕ)
    → m.next h ≡ x
    → m.next h ≢ m.prev h
    → sort cmp m h fuel ≡ sort_loop cmp h fuel fuel m x
unfolding sort head last
sort-long cmp m h fuel x e ne = ground arith

-- `Queue_sort` on the nodes `xs` ends, and the queue then holds them in the order of the insertion
-- sort on lists, provided that, with two nodes or more, the comparison of the sentinel with the first
-- node is at most 0.
pub sort-IsRing :
    (cmp : ℕ → ℕ → ℤ) (m : Links) (h fuel : ℕ) (xs : List ℕ)
    → IsRing m h xs
    → FirstStays cmp h xs
    → length xs < fuel
    → (g : Links) × (sort cmp m h fuel ≡ some g) × IsRing g h (sorted cmp xs)
unfolding place
sort-IsRing cmp m h fuel [] r w l = (m, sort-short cmp m h fuel h r.chain.0 r.chain.1, r)
sort-IsRing cmp m h fuel (x ∷ []) r w l = (m, sort-short cmp m h fuel x r.chain.0 r.chain.2.1, r)
sort-IsRing cmp m h fuel (x ∷ y ∷ ys) r w l =
    let (g, e, k) = sort_loop-IsRing cmp h fuel fuel m [] (x ∷ y ∷ ys) r w (omega arith) l in
    let apart = ne_end_of_cons x y ys r.distinct.1.0 in
    let back = prev_of_end m h (x ∷ y ∷ ys) h r.chain in
    (g, sort-long cmp m h fuel x r.chain.0 (λ z. apart (sym r.chain.0 ∙ z ∙ back)) ∙ e, k)
