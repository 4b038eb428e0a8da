-- ===== src/Queue/Sort/Endless.antt =====
-- `Queue_sort` compares the sentinel with the first node, so a comparison that puts the sentinel
-- after the nodes can move the first node behind nodes that still wait for their turn.
use lingx.Base.{
  ℕ, zero, suc, ◌≡◌, refl, sym, ◌∙◌, ◌≢◌, ◌⊎◌, inl, inr, true, false, none, some, [], ◌∷◌, ◌==◌,
  ==_iff, if_cases, ℤ,
}
use lingx.Queue.{Links, insert_head, remove}
use lingx.Queue.Chain.{ne_of_not_mem}
use lingx.Queue.Ring.{
  IsRing, prev_of_end, ne_end_of_cons, insert_after-IsRing, taken_out, remove-IsRing,
}
use lingx.Queue.Sort.{at_most, seek, sort_loop, sort}
use lingx.Queue.Sort.Seek.{seek-here, seek-back}
use lingx.Queue.Sort.Steps.{sort_loop-turn, sort-long}

seek-endless :
    (cmp : ℕ → ℕ → ℤ) (m : Links) (h a b size : ℕ)
    → IsRing m h (b ∷ [])
    → at_most cmp h a ≡ false
    → at_most cmp b a ≡ true
    → b ≢ h
    → (seek cmp m h size h a ≡ none) ⊎ (seek cmp m h size h a ≡ some b)
unfolding seek
seek-endless cmp m h a b zero r e k ne = inl refl
seek-endless cmp m h a b (suc zero) r e k ne = inl (seek-back cmp m h a zero h b e r.chain.2.1 ne)
seek-endless cmp m h a b (suc (suc size)) r e k ne =
    inr (seek-back cmp m h a (suc size) h b e r.chain.2.1 ne ∙ seek-here cmp m h a size b k)

sort_loop-none :
    (cmp : ℕ → ℕ → ℤ) (h size fuel : ℕ) (m : Links) (q : ℕ)
    → q ≢ h
    → seek cmp (remove m q) h size (m.prev q) q ≡ none
    → sort_loop cmp h size (suc fuel) m q ≡ none
unfolding sort_loop
sort_loop-none cmp h size fuel m q ne e =
    rw e (if_cases (λ x. x ≡ none) (q == h) (λ t. absurd (ne ((==_iff q h).0 t))) (λ t. refl))

module _ (cmp : ℕ → ℕ → ℤ) (h : ℕ) where
  sort_loop-endless :
      (size fuel a b : ℕ) (m : Links)
      → IsRing m h (a ∷ b ∷ [])
      → at_most cmp h a ≡ false
      → at_most cmp h b ≡ false
      → at_most cmp a b ≡ true
      → at_most cmp b a ≡ true
      → sort_loop cmp h size fuel m a ≡ none
  unfolding sort_loop
  sort_loop-endless size zero a b m r ha hb ab ba = refl
  sort_loop-endless size (suc fuel) a b m r ha hb ab ba =
      let r1 = remove-IsRing m h a [] (b ∷ []) r in
      let apart = taken_out m h a [] (b ∷ []) r in
      let ne = (ne_of_not_mem a h (b ∷ []) apart).0 in
      let turned = insert_after-IsRing (remove m a) h a (b ∷ []) [] r1 apart in
      elim (seek-endless cmp (remove m a) h a b size r1 ha ba
        (ne_of_not_mem b h (a ∷ []) (taken_out m h b (a ∷ []) [] r)).0) [
          | inl e ↦ sort_loop-none cmp h size fuel m a ne (rw r.chain.1 e)
          | inr e ↦
              sort_loop-turn cmp h size fuel m a b b ne (rw r.chain.1 e) r.chain.2.0
              ∙ sort_loop-endless size fuel b a (insert_head (remove m a) b a) turned hb ha ba ab
        ]

  -- On two nodes that compare equal, if the comparison puts the sentinel after both, `Queue_sort`
  -- never ends: no amount of fuel gives a result.
  pub sort-endless :
      (fuel a b : ℕ) (m : Links)
      → IsRing m h (a ∷ b ∷ [])
      → at_most cmp h a ≡ false
      → at_most cmp h b ≡ false
      → at_most cmp a b ≡ true
      → at_most cmp b a ≡ true
      → sort cmp m h fuel ≡ none
  sort-endless fuel a b m r ha hb ab ba =
      let back = prev_of_end m h (a ∷ b ∷ []) h r.chain in
      let apart = ne_end_of_cons a b [] r.distinct.1.0 in
      sort-long cmp m h fuel a r.chain.0 (λ z. apart (sym r.chain.0 ∙ z ∙ back))
      ∙ sort_loop-endless fuel fuel a b m r ha hb ab ba
