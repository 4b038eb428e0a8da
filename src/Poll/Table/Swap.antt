-- ===== src/Poll/Table/Swap.antt =====
-- The last entry of the table takes the place of one that is dropped.
use lingx.Base.{
  ℕ, ◌+◌, ◌<◌, ◌≡◌, refl, ap, ◌∙◌, ◌≢◌, inl, inr, true, Option, some, arith, ◌==◌, if◌then◌else◌,
  Bool-cases,
}
use lingx.Poll.{Direction, other, PollFd, invalid_index}
use lingx.Poll.Table.{Consistent, one_owner}
use lingx.Poll.Directions.{is_event, event_elim, same_self, other_differs}

module _ (fd : ℕ → Option ℕ) (files : ℕ → ℕ) (wired : (c f : ℕ) → fd c ≡ some f → files f ≡ c)
    (idx : ℕ → Direction → ℕ) (entries : ℕ → PollFd) (n : ℕ)
    (k : Consistent fd files idx entries n) where
  -- An event that is alone leaves its entry, and the last entry takes the place of that.
  module _ (c : ℕ) (d : Direction) (idx' : ℕ → Direction → ℕ) (entries' : ℕ → PollFd) (m : ℕ)
      (some_ : idx c d ≢ invalid_index) (none_other : idx c (other d) ≡ invalid_index)
      (m_last : m + 1 ≡ n)
      (new_idx : (c' : ℕ) (d' : Direction)
        → idx' c' d' ≡ (
            if is_event c d c' d'
            then invalid_index
            else if idx c' d' == m
            then idx c d
            else idx c' d'))
      (new_entries : (i : ℕ) → i < m → entries' i ≡ entries (if i == idx c d then m else i)) where
    gone : idx' c d ≡ invalid_index
    gone = rw (new_idx c d, same_self d) (ground arith)

    gone_other : idx' c (other d) ≡ invalid_index
    gone_other = rw (new_idx c (other d), other_differs d, none_other) (ground (arith, k.small))

    moved :
        (c' : ℕ) (d' : Direction)
        → c' ≢ c
        → idx' c' d' ≡ (if idx c' d' == m then idx c d else idx c' d')
    moved c' d' ne = rw (new_idx c' d') (ground arith)

    -- Of another connection, an index is valid before if it is afterwards, and is not this one's.
    elsewhere :
        (c' : ℕ) (d' : Direction)
        → c' ≢ c
        → idx' c' d' ≢ invalid_index
        → (idx c' d' ≢ invalid_index) × (idx c' d' ≢ idx c d)
    elsewhere c' d' ne h =
        let v : idx c' d' ≢ invalid_index =
          λ z. h (moved c' d' ne ∙ rw z (ground (arith, k.small))) in
        (v, λ z. ne (one_owner fd files wired idx entries n k c' c d' d v some_ z))

    lands :
        (i : ℕ)
        → i < m
        → (c' : ℕ) (d' : Direction) → idx c' d' ≡ (if i == idx c d then m else i)
        → idx' c' d' ≡ i
    lands i lt =
        let below : (if i == idx c d then m else i) < n = ground arith in
        event_elim (λ c' d'. idx c' d' ≡ (if i == idx c d then m else i) → idx' c' d' ≡ i) c d
          (λ e. absurd (ground arith)) (λ e. absurd (omega (arith, below, k.small, none_other)))
          (λ c' d' ne e. moved c' d' ne ∙ ground arith)

    placed_elsewhere :
        (c' : ℕ) (d' : Direction)
        → c' ≢ c
        → idx' c' d' ≢ invalid_index
        → (idx' c' d' < m) × (entries' (idx' c' d') ≡ entries (idx c' d'))
    placed_elsewhere c' d' ne h =
        let (v, apart) = elsewhere c' d' ne h in
        let below = (k.placed c' d' v).0 in
        let here = (k.placed c d some_).0 in
        elim (Bool-cases (idx c' d' == m)) [
          | inl e ↦
              let last : idx c' d' ≡ m = ground arith in
              let to : idx' c' d' ≡ idx c d = moved c' d' ne ∙ rw e refl in
              let lt : idx c d < m = omega arith in
              rw to (lt, new_entries (idx c d) lt ∙ ap entries (ground arith))
          | inr e ↦
              let lt : idx c' d' < m = ground arith in
              let to : idx' c' d' ≡ idx c' d' = moved c' d' ne ∙ rw e refl in
              rw to (lt, new_entries (idx c' d') lt ∙ ap entries (ground arith))
        ]

    pub Consistent-swap : Consistent fd files idx' entries' m
    Consistent-swap = record {
      placed =
          event_elim
            (λ c' d'.
              idx' c' d' ≢ invalid_index
              → (idx' c' d' < m)
                × ((entries' (idx' c' d')).fd ≡ fd c')
                × ((entries' (idx' c' d')).asked d' ≡ true))
            c d (λ h. absurd (h gone)) (λ h. absurd (h gone_other))
            (λ c' d' ne h.
              let (below, from) = placed_elsewhere c' d' ne h in
              let p = k.placed c' d' (elsewhere c' d' ne h).0 in rw from (below, p.1, p.2));
      paired =
          event_elim
            (λ c' d'.
              idx' c' d' ≢ invalid_index
              → idx' c' (other d') ≢ invalid_index
              → idx' c' d' ≡ idx' c' (other d'))
            c d (λ h h'. absurd (h gone)) (λ h h'. absurd (h gone_other))
            (λ c' d' ne h h'.
              let pair =
                k.paired c' d' (elsewhere c' d' ne h).0 (elsewhere c' (other d') ne h').0 in
              rw (moved c' d' ne, moved c' (other d') ne, pair) refl);
      owned = λ i lt.
          let (f, q, r, b, own) = k.owned (if i == idx c d then m else i) (ground arith) in
          rw (new_entries i lt) (
            f,
            q,
            r,
            λ x a. lands i lt (files f) x (b x a),
            (own.0, lands i lt (files f) own.0 own.1),
          );
      small = omega (arith, k.small);
    }
