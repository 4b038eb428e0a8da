-- ===== src/Times/Slots.antt =====
-- The pointers to the cached time and its text stay good while others update them.
use lingx.Base.{
  ℕ, ◌+◌, ◌%◌, ◌<◌, ◌≡◌, refl, ◌∙◌, ◌≢◌, ◌⊎◌, inl, inr, Bool, List, [], ◌∷◌, arith, ◌==◌, if_cases,
  length,
}
use lingx.Times.{time_slots, TimeState, time_update, time_sigsafe_update}

-- A call of `Time_update` or of `Time_sigsafe_update`.
pub data Update : Type 0 where
  full : Bool → ℕ → ℕ → Update
  sigsafe : Bool → ℕ → Update

module _ {Offset : Type 0} (local_text : ℕ → List ℕ) (local_offset : ℕ → Offset)
    (shifted_text : ℕ → Offset → List ℕ) where
  unfoldable pub update_by : Update → TimeState Offset → TimeState Offset
  unfolding time_update time_sigsafe_update
  update_by (full locked sec usec) s =
      time_update local_text local_offset shifted_text locked sec usec s
  update_by (sigsafe locked sec) s =
      time_sigsafe_update local_text local_offset shifted_text locked sec s

  unfoldable pub run_updates : List Update → TimeState Offset → TimeState Offset
  unfolding update_by
  run_updates [] s = s
  run_updates (u ∷ us) s = run_updates us (update_by u s)

  -- The text points to the current slot, and so does the time, unless a signal handler made the slot.
  abbrev pub IsCurrent : TimeState Offset → Type 0
  IsCurrent s =
      (s.slot < time_slots)
      × (s.cached_err_log_time ≡ s.slot)
      × (((s.times s.slot).sec ≡ 0) ⊎ (s.cached_time ≡ s.slot))

  update_by-IsCurrent :
      (u : Update) (s : TimeState Offset) → IsCurrent s → IsCurrent (update_by u s)
  unfolding update_by time_update time_sigsafe_update
  update_by-IsCurrent (full locked sec usec) s c =
      if_cases IsCurrent locked (λ e. c)
        (λ e.
          if_cases IsCurrent ((s.times s.slot).sec == sec)
            (λ same. (c.0, c.1, elim c.2 [ inl z ↦ inl (ground arith) | inr q ↦ inr q ]))
            (λ other. (omega arith, refl, inr refl)))
  update_by-IsCurrent (sigsafe locked sec) s c =
      if_cases IsCurrent locked (λ e. c)
        (λ e.
          if_cases IsCurrent ((s.times s.slot).sec == sec) (λ same. c)
            (λ other. (omega arith, refl, inl (ground arith))))

  run_updates-IsCurrent :
      (us : List Update) (s : TimeState Offset) → IsCurrent s → IsCurrent (run_updates us s)
  unfolding run_updates
  run_updates-IsCurrent [] s c = c
  run_updates-IsCurrent (u ∷ us) s c =
      run_updates-IsCurrent us (update_by u s) (update_by-IsCurrent u s c)

  -- The text of slot `k` is as it was, or the state moved on by one slot and wrote there.
  abbrev Spares : ℕ → TimeState Offset → TimeState Offset → Type 0
  Spares k s s' =
      ((s'.slot ≡ s.slot) × (s'.texts k ≡ s.texts k))
      ⊎ ((s'.slot ≡ (s.slot + 1) % time_slots)
          × (k ≢ (s.slot + 1) % time_slots → s'.texts k ≡ s.texts k))

  update_by-Spares : (u : Update) (s : TimeState Offset) (k : ℕ) → Spares k s (update_by u s)
  unfolding update_by time_update time_sigsafe_update
  update_by-Spares (full locked sec usec) s k =
      if_cases (Spares k s) locked (λ e. inl (refl, refl))
        (λ e.
          if_cases (Spares k s) ((s.times s.slot).sec == sec) (λ same. inl (refl, refl))
            (λ other. inr (refl, λ ne. ground arith)))
  update_by-Spares (sigsafe locked sec) s k =
      if_cases (Spares k s) locked (λ e. inl (refl, refl))
        (λ e.
          if_cases (Spares k s) ((s.times s.slot).sec == sec) (λ same. inl (refl, refl))
            (λ other. inr (refl, λ ne. ground arith)))

  text-run_updates :
      (us : List Update) (s : TimeState Offset) (k j : ℕ)
      → k < time_slots
      → s.slot ≡ (k + j) % time_slots
      → j + length us < time_slots
      → (run_updates us s).texts k ≡ s.texts k
  unfolding run_updates
  text-run_updates [] s k j lt at_ room = refl
  text-run_updates (u ∷ us) s k j lt at_ room = elim (update_by-Spares u s k) [
    | inl (same, t) ↦ text-run_updates us (update_by u s) k j lt (same ∙ at_) (omega arith) ∙ t
    | inr (moved, t) ↦
        text-run_updates us (update_by u s) k (j + 1) lt (omega arith) (omega arith)
        ∙ t (omega arith)
  ]

  -- From a current state, up to 63 updates in any mixture leave the text unchanged that a reader
  -- took the pointer of, and the state after them is current again.
  pub run_updates-keeps :
      (us : List Update) (s : TimeState Offset)
      → IsCurrent s
      → length us < time_slots
      → ((run_updates us s).texts s.cached_err_log_time ≡ s.texts s.cached_err_log_time)
        × IsCurrent (run_updates us s)
  run_updates-keeps us s c room = (
    text-run_updates us s s.cached_err_log_time 0 (omega (arith, c.0, c.1))
        (omega (arith, c.0, c.1)) (omega arith),
    run_updates-IsCurrent us s c,
  )
