-- ===== src/Queue/Sort/Seek.antt =====
-- The inner loop of `Queue_sort` walks back from a node to the place of the node to insert.
use lingx.Base.{
  ℕ, zero, suc, ◌<◌, ◌≡◌, refl, sym, ap, ◌∙◌, ◌≢◌, ◌⊎◌, inl, inr, true, false, some, List, [], ◌∷◌,
  ◌++◌, arith, ◌==◌, Bool-cases, if_cases, length, length-append, ℤ,
}
use mathlib.Core.List.{append-nil, append_assoc, cons-ne-nil}
use mathlib.Core.Path.{subst}
use lingx.Queue.{Links}
use lingx.Queue.Chain.{has, ◌∉◌, end_of}
use lingx.Queue.Ring.{IsRing, links_around}
use lingx.Queue.Sort.{at_most, seek, some_at_most, place}

-- A list is empty or has a last element.
Snoc-cases : (xs : List ℕ) → (xs ≡ []) ⊎ ((ys : List ℕ) × (y : ℕ) × (xs ≡ ys ++ y ∷ []))
Snoc-cases [] = inl refl
Snoc-cases (x ∷ xs) = elim (Snoc-cases xs) [
  | inl e ↦ inr ([], x, ap (◌∷◌ x) e)
  | inr (ys, y, e) ↦ inr (x ∷ ys, y, ap (◌∷◌ x) e)
]

end_of-snoc : (h : ℕ) (us : List ℕ) (u : ℕ) → end_of h (us ++ u ∷ []) ≡ u
end_of-snoc h [] u = refl
end_of-snoc h (x ∷ us) u = end_of-snoc x us u

-- Nothing stands before the node to insert, or the last node before it is not greater.
abbrev pub StopsAt : (ℕ → ℕ → ℤ) → ℕ → List ℕ → Type 0
StopsAt cmp q [] = Unit {0}
StopsAt cmp q (c ∷ cs) = at_most cmp (end_of c cs) q ≡ true

StopsAt-snoc :
    (cmp : ℕ → ℕ → ℤ) (q : ℕ) (cs : List ℕ) (c : ℕ)
    → at_most cmp c q ≡ true
    → StopsAt cmp q (cs ++ c ∷ [])
StopsAt-snoc cmp q [] c e = e
StopsAt-snoc cmp q (d ∷ cs) c e = rw (end_of-snoc d cs c) e

StopsAt-some :
    (cmp : ℕ → ℕ → ℤ) (q c : ℕ) (cs ds : List ℕ)
    → at_most cmp (end_of c cs) q ≡ true
    → some_at_most cmp q (c ∷ cs ++ ds) ≡ true
StopsAt-some cmp q c [] ds e = ground arith
StopsAt-some cmp q c (d ∷ cs) ds e = ground (arith, StopsAt-some cmp q d cs ds e)

place-end :
    (cmp : ℕ → ℕ → ℤ) (q : ℕ) (ds : List ℕ)
    → some_at_most cmp q ds ≡ false
    → place cmp q ds ≡ q ∷ ds
unfolding place
place-end cmp q [] e = refl
place-end cmp q (d ∷ ds) e = ground arith

pub place-append :
    (cmp : ℕ → ℕ → ℤ) (q : ℕ) (cs ds : List ℕ)
    → StopsAt cmp q cs
    → some_at_most cmp q ds ≡ false
    → place cmp q (cs ++ ds) ≡ cs ++ q ∷ ds
unfolding place
place-append cmp q [] ds s n = place-end cmp q ds n
place-append cmp q (c ∷ []) ds s n = rw (StopsAt-some cmp q c [] ds s, place-end cmp q ds n) refl
place-append cmp q (c ∷ d ∷ cs) ds s n =
    rw (StopsAt-some cmp q c (d ∷ cs) ds s, place-append cmp q (d ∷ cs) ds s n) refl

-- Where the inner loop stops.
pub record Found (cmp : ℕ → ℕ → ℤ) (h q : ℕ) (us : List ℕ) (p : ℕ) : Type 0 where
  pub before : List ℕ
  pub behind : List ℕ
  pub whole : us ≡ before ++ behind
  pub here : p ≡ end_of h before
  pub stops : StopsAt cmp q before
  pub greater : some_at_most cmp q behind ≡ false

Found-at :
    (cmp : ℕ → ℕ → ℤ) (h q : ℕ) (us : List ℕ) (a : ℕ) (ds : List ℕ)
    → at_most cmp a q ≡ true
    → some_at_most cmp q ds ≡ false
    → Found cmp h q ((us ++ a ∷ []) ++ ds) a
Found-at cmp h q us a ds e n = record {
  before = us ++ a ∷ [];
  behind = ds;
  whole = refl;
  here = sym (end_of-snoc h us a);
  stops = StopsAt-snoc cmp q us a e;
  greater = n;
}

Found-start :
    (cmp : ℕ → ℕ → ℤ) (h q : ℕ) (ds : List ℕ) → some_at_most cmp q ds ≡ false → Found cmp h q ds h
Found-start cmp h q ds n = record {
  before = [];
  behind = ds;
  whole = refl;
  here = refl;
  stops = tt;
  greater = n;
}

end_of_ne : (h : ℕ) (us : List ℕ) (a : ℕ) (ds : List ℕ) → h ∉ (us ++ a ∷ []) ++ ds → a ≢ h
unfolding has
end_of_ne h [] a ds n = ground arith
end_of_ne h (u ∷ us) a ds n = end_of_ne h us a ds (ground arith)

pub seek-here :
    (cmp : ℕ → ℕ → ℤ) (m : Links) (h q fuel a : ℕ)
    → at_most cmp a q ≡ true
    → seek cmp m h (suc fuel) a q ≡ some a
unfolding seek
seek-here cmp m h q fuel a e = rw e refl

seek-start :
    (cmp : ℕ → ℕ → ℤ) (m : Links) (h q fuel a : ℕ)
    → at_most cmp a q ≡ false
    → m.prev a ≡ h
    → seek cmp m h (suc fuel) a q ≡ some h
unfolding seek
seek-start cmp m h q fuel a e k = ground arith

pub seek-back :
    (cmp : ℕ → ℕ → ℤ) (m : Links) (h q fuel a v : ℕ)
    → at_most cmp a q ≡ false
    → m.prev a ≡ v
    → v ≢ h
    → seek cmp m h (suc fuel) a q ≡ seek cmp m h fuel v q
unfolding seek
seek-back cmp m h q fuel a v e k ne =
    rw (e, k) (if_cases (λ x. x ≡ seek cmp m h fuel v q) (v == h) (λ t. ground arith) (λ t. refl))

-- From the last node of `us`, where no node of `ds` behind it is at most `q`.
abbrev Seeks : (ℕ → ℕ → ℤ) → Links → ℕ → ℕ → ℕ → List ℕ → ℕ → List ℕ → Type 0
Seeks cmp m h q fuel us a ds =
    (p : ℕ) × (seek cmp m h fuel a q ≡ some p) × Found cmp h q ((us ++ a ∷ []) ++ ds) p

seek-further :
    (cmp : ℕ → ℕ → ℤ) (m : Links) (h q fuel : ℕ) (vs : List ℕ) (v a : ℕ) (ds ys : List ℕ)
    → IsRing m h ((vs ++ v ∷ []) ++ a ∷ (ds ++ ys))
    → at_most cmp a q ≡ false
    → Seeks cmp m h q fuel vs v (a ∷ ds)
    → Seeks cmp m h q (suc fuel) (vs ++ v ∷ []) a ds
seek-further cmp m h q fuel vs v a ds ys r e rest =
    let whole = append_assoc (vs ++ v ∷ []) (a ∷ []) ds in
    let back = (links_around m h (vs ++ v ∷ []) (ds ++ ys) h a r.chain).0 ∙ end_of-snoc h vs v in
    let ne = end_of_ne h vs v (a ∷ ds ++ ys) r.distinct.0 in
    (rest.0, seek-back cmp m h q fuel a v e back ne ∙ rest.1, rw whole rest.2)

-- The inner loop finds the place, with as much fuel as there are nodes.
seek-Found :
    (cmp : ℕ → ℕ → ℤ) (m : Links) (h q : ℕ) (fuel : ℕ) (us : List ℕ) (a : ℕ) (ds ys : List ℕ)
    → IsRing m h (us ++ a ∷ (ds ++ ys))
    → some_at_most cmp q ds ≡ false
    → length us < fuel
    → Seeks cmp m h q fuel us a ds
seek-Found cmp m h q zero us a ds ys r n l = absurd (omega arith)
seek-Found cmp m h q (suc fuel) us a ds ys r n l = elim (Bool-cases (at_most cmp a q)) [
  | inl e ↦ (a, seek-here cmp m h q fuel a e, Found-at cmp h q us a ds e n)
  | inr e ↦ elim (Snoc-cases us) [
    | inl k ↦
        subst (λ vs. Seeks cmp m h q (suc fuel) vs a ds) (sym k)
          (h, seek-start cmp m h q fuel a e (rw k at prev_a), Found-start cmp h q (a ∷ ds) (rw e n))
    | inr (vs, v, k) ↦
        subst (λ ws. Seeks cmp m h q (suc fuel) ws a ds) (sym k)
          (seek-further cmp m h q fuel vs v a ds ys (rw k at r) e (
            seek-Found cmp m h q fuel vs v (a ∷ ds) ys (rw append_assoc at (rw k at r)) (rw e n)
              (shorter vs v k)))
  ]
]
  where
    prev_a : m.prev a ≡ end_of h us
    prev_a = (links_around m h us (ds ++ ys) h a r.chain).0

    shorter : (vs : List ℕ) (v : ℕ) → us ≡ vs ++ v ∷ [] → length vs < fuel
    shorter vs v k = omega (arith, rw (k, length-append vs (v ∷ [])) at l)

-- From the end of the part before `q`, which may be empty if the sentinel compares as at most `q`.
abbrev pub StartsWell : (ℕ → ℕ → ℤ) → ℕ → List ℕ → List ℕ → Type 0
StartsWell cmp h [] [] = Unit {0}
StartsWell cmp h [] (y ∷ ys) = at_most cmp h y ≡ true
StartsWell cmp h (u ∷ us) ys = Unit {0}

pub seek_from_end :
    (cmp : ℕ → ℕ → ℤ) (m : Links) (h q fuel : ℕ) (us ys : List ℕ)
    → IsRing m h (us ++ ys)
    → StartsWell cmp h us (q ∷ ys)
    → length us < fuel
    → (p : ℕ) × (seek cmp m h fuel (end_of h us) q ≡ some p) × Found cmp h q us p
seek_from_end cmp m h q zero us ys r w l = absurd (omega arith)
seek_from_end cmp m h q (suc fuel) us ys r w l = elim (Snoc-cases us) [
  | inl k ↦
      subst (λ us. P us) (sym k)
        (h, seek-here cmp m h q fuel h (start_of_empty us k w), Found-start cmp h q [] refl)
  | inr (vs, v, k) ↦ subst P (sym k) (last_node vs v k)
]
  where
    P : List ℕ → Type 0
    P us = (p : ℕ) × (seek cmp m h (suc fuel) (end_of h us) q ≡ some p) × Found cmp h q us p

    start_of_empty : (us : List ℕ) → us ≡ [] → StartsWell cmp h us (q ∷ ys) → at_most cmp h q ≡ true
    start_of_empty [] k w = w
    start_of_empty (u ∷ us) k w = absurd (cons-ne-nil u us k)

    shorter : (vs : List ℕ) (v : ℕ) → us ≡ vs ++ v ∷ [] → length vs < suc fuel
    shorter vs v k = omega (arith, rw (k, length-append vs (v ∷ [])) at l)

    last_node : (vs : List ℕ) (v : ℕ) → us ≡ vs ++ v ∷ [] → P (vs ++ v ∷ [])
    last_node vs v k =
        let (p, e, f) =
          seek-Found cmp m h q (suc fuel) vs v [] ys (rw append_assoc at (rw k at r)) refl
            (shorter vs v k) in
        (p, rw (end_of-snoc h vs v) e, rw append-nil at f)
