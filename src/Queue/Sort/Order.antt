-- ===== src/Queue/Sort/Order.antt =====
-- What `Queue_sort` promises: the nodes in order, none lost, equal ones in the order they had.
use lingx.Base.{
  ℕ, ◌<◌, ◌≡◌, refl, sym, ap, ◌∙◌, ◌⊎◌, inl, inr, Bool, true, false, ◌&&◌, some, List, [], ◌∷◌,
  ◌++◌, arith, if◌then◌else◌, Bool-cases, if_cases, length, ℤ,
}
use mathlib.Core.List.{append-nil, append_assoc, Perm, perm_middle}
use lingx.Queue.{Links}
use lingx.Queue.Ring.{IsRing}
use lingx.Queue.Sort.{at_most, sort, some_at_most, place, place_all, sorted}
use lingx.Queue.Sort.Steps.{FirstStays, sort-IsRing}
use mathlib.Core.List.Perm

-- The comparison orders the nodes: any two of them, and chains of them.
pub record IsOrder (cmp : ℕ → ℕ → ℤ) : Type 0 where
  pub total : (a b : ℕ) → at_most cmp a b ≡ false → at_most cmp b a ≡ true
  pub trans : (a b c : ℕ) → at_most cmp a b ≡ true → at_most cmp b c ≡ true → at_most cmp a c ≡ true

abbrev AllAfter : (ℕ → ℕ → ℤ) → ℕ → List ℕ → Type 0
AllAfter cmp a [] = Unit {0}
AllAfter cmp a (x ∷ xs) = (at_most cmp a x ≡ true) × AllAfter cmp a xs

abbrev pub IsOrdered : (ℕ → ℕ → ℤ) → List ℕ → Type 0
IsOrdered cmp [] = Unit {0}
IsOrdered cmp (x ∷ xs) = AllAfter cmp x xs × IsOrdered cmp xs

-- The nodes that compare equal to `c`, in their order.
abbrev pub equals : (ℕ → ℕ → ℤ) → ℕ → List ℕ → List ℕ
equals cmp c [] = []
equals cmp c (x ∷ xs) =
    if at_most cmp x c && at_most cmp c x then x ∷ equals cmp c xs else equals cmp c xs

keep-append :
    (b : Bool) (x : ℕ) (xs ys : List ℕ)
    → (if b then x ∷ xs else xs) ++ ys ≡ (if b then x ∷ xs ++ ys else xs ++ ys)
keep-append true x xs ys = refl
keep-append false x xs ys = refl

keep-none :
    (b : Bool) (x : ℕ) (xs : List ℕ)
    → (xs ≡ []) ⊎ (b ≡ false)
    → (if b then x ∷ xs else xs) ≡ xs ++ (if b then x ∷ [] else [])
keep-none true x xs (inl e) = rw e refl
keep-none true x xs (inr e) = absurd (cc)
keep-none false x xs e = sym (append-nil xs)

place-cases {κ} :
    (cmp : ℕ → ℕ → ℤ) (q u : ℕ) (us : List ℕ) (P : List ℕ → Type κ)
    → (some_at_most cmp q (u ∷ us) ≡ true → P (u ∷ place cmp q us))
    → (some_at_most cmp q (u ∷ us) ≡ false → P (q ∷ u ∷ us))
    → P (place cmp q (u ∷ us))
unfolding place
place-cases cmp q u us P f g = if_cases P (some_at_most cmp q (u ∷ us)) f g

place-perm : (cmp : ℕ → ℕ → ℤ) (q : ℕ) (us : List ℕ) → Perm (place cmp q us) (q ∷ us)
unfolding place
place-perm cmp q [] = Perm.refl (q ∷ [])
place-perm cmp q (u ∷ us) =
    place-cases cmp q u us (λ xs. Perm xs (q ∷ u ∷ us))
      (λ e. Perm.trans (Perm.cons u (place-perm cmp q us)) (Perm.swap q u us)) (λ e. Perm.refl _)

place_all-perm : (cmp : ℕ → ℕ → ℤ) (us qs : List ℕ) → Perm (place_all cmp us qs) (us ++ qs)
place_all-perm cmp us [] = rw append-nil (Perm.refl us)
place_all-perm cmp us (q ∷ qs) =
    Perm.trans (place_all-perm cmp (place cmp q us) qs)
      (Perm.trans (Perm.append_right qs (place-perm cmp q us)) (Perm.symm (perm_middle us qs)))

module _ (cmp : ℕ → ℕ → ℤ) (order : IsOrder cmp) where
  after_some :
      (a q : ℕ) (us : List ℕ)
      → AllAfter cmp a us
      → some_at_most cmp q us ≡ true
      → at_most cmp a q ≡ true
  after_some a q [] h e = absurd (cc)
  after_some a q (u ∷ us) h e = elim (Bool-cases (at_most cmp u q)) [
    | inl k ↦ order.trans a u q h.0 k
    | inr k ↦ after_some a q us h.1 (ground arith)
  ]

  AllAfter-trans :
      (a b : ℕ) (us : List ℕ) → at_most cmp a b ≡ true → AllAfter cmp b us → AllAfter cmp a us
  AllAfter-trans a b [] e h = tt
  AllAfter-trans a b (u ∷ us) e h = (order.trans a b u e h.0, AllAfter-trans a b us e h.1)

  AllAfter-none : (q : ℕ) (us : List ℕ) → some_at_most cmp q us ≡ false → AllAfter cmp q us
  AllAfter-none q [] e = tt
  AllAfter-none q (u ∷ us) e = (order.total u q (ground arith), AllAfter-none q us (ground arith))

  AllAfter-place :
      (a q : ℕ) (us : List ℕ)
      → at_most cmp a q ≡ true
      → AllAfter cmp a us
      → AllAfter cmp a (place cmp q us)
  unfolding place
  AllAfter-place a q [] e h = (e, tt)
  AllAfter-place a q (u ∷ us) e h =
      place-cases cmp q u us (AllAfter cmp a) (λ k. (h.0, AllAfter-place a q us e h.1))
        (λ k. (e, h))

  IsOrdered-place : (q : ℕ) (us : List ℕ) → IsOrdered cmp us → IsOrdered cmp (place cmp q us)
  unfolding place
  IsOrdered-place q [] o = (tt, tt)
  IsOrdered-place q (u ∷ us) o =
      place-cases cmp q u us (IsOrdered cmp)
        (λ e. (
          AllAfter-place u q us
              (elim (Bool-cases (at_most cmp u q)) [
                | inl k ↦ k
                | inr k ↦ after_some u q us o.0 (ground arith)
              ])
              o.0,
          IsOrdered-place q us o.1,
        ))
        (λ e. (AllAfter-none q (u ∷ us) e, o))

  IsOrdered-place_all : (us qs : List ℕ) → IsOrdered cmp us → IsOrdered cmp (place_all cmp us qs)
  IsOrdered-place_all us [] o = o
  IsOrdered-place_all us (q ∷ qs) o =
      IsOrdered-place_all (place cmp q us) qs (IsOrdered-place q us o)

  equals-none :
      (c q : ℕ) (us : List ℕ)
      → at_most cmp c q ≡ true
      → some_at_most cmp q us ≡ false
      → equals cmp c us ≡ []
  equals-none c q [] k e = refl
  equals-none c q (u ∷ us) k e = elim (Bool-cases (at_most cmp u c)) [
    | inl h ↦ absurd (apart h (order.trans u c q h k))
    | inr h ↦ rw h (equals-none c q us k (ground arith))
  ]
    where
      apart : at_most cmp u c ≡ true → at_most cmp u q ≡ true → ⊥
      apart h t = ground arith

  equals-place :
      (c q : ℕ) (us : List ℕ)
      → equals cmp c (place cmp q us) ≡ equals cmp c us ++ equals cmp c (q ∷ [])
  unfolding place
  equals-place c q [] = refl
  equals-place c q (u ∷ us) =
      place-cases cmp q u us
        (λ xs. equals cmp c xs ≡ equals cmp c (u ∷ us) ++ equals cmp c (q ∷ []))
        (λ e. rw (equals-place c q us) (
          sym (
            keep-append (at_most cmp u c && at_most cmp c u) u (equals cmp c us)
              (equals cmp c (q ∷ [])))))
        (λ e.
          keep-none (at_most cmp q c && at_most cmp c q) q (equals cmp c (u ∷ us))
            (elim (Bool-cases (at_most cmp c q)) [
              | inl k ↦ inl (equals-none c q (u ∷ us) k e)
              | inr k ↦ inr (ground arith)
            ]))

  equals-place_all :
      (c : ℕ) (us qs : List ℕ)
      → equals cmp c (place_all cmp us qs) ≡ equals cmp c us ++ equals cmp c qs
  equals-place_all c us [] = sym (append-nil (equals cmp c us))
  equals-place_all c us (q ∷ qs) =
      equals-place_all c (place cmp q us) qs
      ∙ ap (λ es. es ++ equals cmp c qs) (equals-place c q us)
      ∙ append_assoc (equals cmp c us) _ _
      ∙ ap (◌++◌ (equals cmp c us))
          (keep-append (at_most cmp q c && at_most cmp c q) q [] (equals cmp c qs))

  -- If the comparison is a total and transitive order of the addresses, and that of the sentinel with
  -- the first node, where there are two nodes or more, is at most 0, then `Queue_sort` ends, on fuel
  -- above the number of nodes, and leaves the same nodes in the queue, in the order of the comparison,
  -- and those that compare equal in the order they had.
  pub sort-IsOrdered :
      (m : Links) (h fuel : ℕ) (xs : List ℕ)
      → IsRing m h xs
      → FirstStays cmp h xs
      → length xs < fuel
      → (g : Links) × (ys : List ℕ) × (sort cmp m h fuel ≡ some g)
        × IsRing g h ys
        × IsOrdered cmp ys
        × Perm ys xs
        × ((c : ℕ) → equals cmp c ys ≡ equals cmp c xs)
  sort-IsOrdered m h fuel xs r w l =
      let (g, e, k) = sort-IsRing cmp m h fuel xs r w l in
      (
        g,
        sorted cmp xs,
        e,
        k,
        IsOrdered-place_all [] xs tt,
        place_all-perm cmp [] xs,
        λ c. equals-place_all c [] xs,
      )
