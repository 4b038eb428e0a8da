-- ===== src/Poll/Dispatch/Marks.antt =====
-- The loop over the entries marks every active event that is reported.
use lingx.Base.{
  ℕ, zero, suc, ◌+◌, ◌-◌, ◌≤◌, ◌<◌, ◌≡◌, refl, sym, ap, ◌∙◌, ◌⊎◌, inl, inr, Bool, true, false, ◌&&◌,
  ◌||◌, some, arith, ltb, ◌==◌, if◌then◌else◌, Bool-cases, if_cases,
}
use mathlib.Core.Option.{some-injective}
use mathlib.Core.Path.{subst}
use lingx.Events.{Event, Loop}
use lingx.Poll.{Direction, PollBits, PollFd, Poll, event_at, event_of}
use lingx.Poll.Changes.{idx_of, IsValid}
use lingx.Poll.Dispatch.{
  AllOpen, IsMarked, is_reported, count_reported, Pending, visit_open-Kept, visit_open-found,
  visit_open-IsMarked, visit-open, count_reported_pos, reported-is_reported,
}
use lingx.Poll.Process.{returned, reported, visit_open, dispatch, with_revents, poll_process_events}
use lingx.Poll.Registration.{IsRegistered}

abbrev Target : Poll → ℕ → ℕ → Type 0
Target s i ev =
    IsMarked s ev
    ⊎ (Pending s.entries s.n s.conns s.files i ev × ((s.loop.events ev).active ≡ true))

-- After the visit of an entry, what is still to be marked lies behind it.
visit_open-Target :
    (s : Poll) (i f ev : ℕ)
    → (s.entries i).fd ≡ some f
    → Target s i ev
    → Target (visit_open s (s.files f) (s.entries i).revents).0 (i + 1) ev
visit_open-Target s i f ev q (inl m) = inl ((visit_open-Kept s _ _).marks_kept ev m)
visit_open-Target s i f ev q (inr ((j, d, f', le, lt, q', e, h), a)) =
    let k = visit_open-Kept s (s.files f) (s.entries i).revents in
    elim (Bool-cases (i == j)) [
      | inl here ↦
          let at_i : j ≡ i = ground arith in
          let same : f' ≡ f = some-injective f' f (sym q' ∙ ap (λ x. (s.entries x).fd) at_i ∙ q) in
          let e' : ev ≡ event_of s (s.files f) d =
            e ∙ ap (λ x. event_at (s.conns (s.files x)) d) same in
          let h' : reported (s.entries i).revents d ≡ true =
            sym (ap (λ x. reported (s.entries x).revents d) at_i) ∙ h in
          let a' = sym (ap (λ x. (s.loop.events x).active) e') ∙ a in
          inl (
            subst (IsMarked (visit_open s (s.files f) (s.entries i).revents).0) (sym e')
              (visit_open-IsMarked s (s.files f) (s.entries i).revents d h' a'))
      | inr later ↦ inr (
        rw (k.entries_kept, k.n_kept, k.conns_kept, k.files_kept)
            (j, d, f', ground arith, lt, q', e, h),
        k.active_kept ev ∙ a,
      )
    ]

stopped :
    (fuel i ready : ℕ) (s : Poll) (ev : ℕ)
    → ltb i s.n && ltb 0 ready ≡ false
    → s.n ≤ i + suc fuel
    → count_reported s.entries i (suc fuel) ≤ ready
    → Target s i ev
    → IsMarked s ev
stopped fuel i ready s ev stop le room (inl m) = m
stopped fuel i ready s ev stop le room (inr ((j, d, f, le', lt, q, e, h), a)) =
    let some_ =
      count_reported_pos s.entries i (suc fuel) j le' (omega arith)
        (reported-is_reported (s.entries j).revents d h) in
    absurd (ground arith)

enough :
    (fuel i ready : ℕ) (es : ℕ → PollFd) (found : Bool)
    → (found ≡ true → is_reported (es i).revents ≡ true)
    → count_reported es i (suc fuel) ≤ ready
    → count_reported es (i + 1) fuel ≤ (if found then ready - 1 else ready)
unfolding count_reported
enough fuel i ready es found h le = ground (arith, h)

dispatch-marks :
    (fuel i ready : ℕ) (s : Poll) (ev : ℕ)
    → AllOpen s.entries s.n s.conns s.files
    → s.n ≤ i + fuel
    → count_reported s.entries i fuel ≤ ready
    → Target s i ev
    → IsMarked (dispatch fuel i ready s).0 ev
unfolding dispatch
dispatch-marks zero i ready s ev open_ le room (inl m) = m
dispatch-marks zero i ready s ev open_ le room (inr ((j, d, f', le', lt, q', e, h), a)) =
    absurd (omega arith)
dispatch-marks (suc fuel) i ready s ev open_ le room t =
    elim (Bool-cases (ltb i s.n && ltb 0 ready)) [
      | inr stop ↦ rw stop (stopped fuel i ready s ev stop le room t)
      | inl go ↦
          let (f, g, q, r) = open_ i (ground arith) in
          let b = (s.entries i).revents in
          let k = visit_open-Kept s (s.files f) b in
          let found = visit_open-found s (s.files f) b in
          let rest =
            dispatch-marks fuel (i + 1)
              (if (visit_open s (s.files f) b).1 then ready - 1 else ready)
              (visit_open s (s.files f) b).0 ev
              (rw (k.entries_kept, k.n_kept, k.conns_kept, k.files_kept) open_)
              (rw k.n_kept (omega arith))
              (rw k.entries_kept (enough fuel i ready s.entries _ found room))
              (visit_open-Target s i f ev q t) in
          rw (go, visit-open s i f g q r) rest
    ]

-- If poll() returns at least as many as the entries that it reports, and more than 0, then every
-- registered and active event of a valid table whose direction is reported for its entry, or whose
-- entry has an error, is marked ready and is in a posted queue afterwards; and the result is OK.
pub poll_process_events-IsMarked :
    (time_update : Loop → Loop)
    → ((l : Loop) → (time_update l).events ≡ l.events)
    → (ready : ℕ) (bits : ℕ → PollBits) (timer : ℕ) (update_time alarm : Bool) (s : Poll)
    → IsValid s
    → 0 < ready
    → count_reported (with_revents bits s).entries 0 s.n ≤ ready
    → (c : ℕ) (d : Direction) → IsRegistered s c d
    → (s.loop.events (event_of s c d)).active ≡ true
    → reported (bits (idx_of s c d)) d ≡ true
    → let done = poll_process_events time_update (returned ready bits) timer update_time alarm s in
      (done.is_ok ≡ true) × IsMarked done.state (event_of s c d)
unfolding poll_process_events
poll_process_events-IsMarked time_update keeps ready bits timer update_time alarm s v some_ room c d
      reg a h =
    let loop = if update_time || alarm then time_update s.loop else s.loop in
    let same : loop.events ≡ s.loop.events =
      if_cases (λ (l : Loop). l.events ≡ s.loop.events) (update_time || alarm) (λ e. keeps s.loop)
        (λ e. refl) in
    let p = v.fits.placed c d reg in
    let (f, q, _, _, _) = v.fits.owned (idx_of s c d) p.0 in
    let owner : s.files f ≡ c = v.wired.filed c f (sym p.1 ∙ q) in
    let more : ready == 0 ≡ false = ground arith in
    let s2 : Poll = with_revents bits (record s { loop = loop }) in
    rw more (
      refl,
      dispatch-marks s.n 0 ready s2 (event_of s c d)
          (λ i lt. let (g, y, z, _, _) = v.fits.owned i lt in (g, g, y, z)) (omega arith) room
          (inr (
            (
              idx_of s c d,
              d,
              f,
              omega arith,
              p.0,
              q,
              ap (λ x. event_at (s.conns x) d) (sym owner),
              h,
            ),
            ap (λ (e : ℕ → Event). (e (event_of s c d)).active) same ∙ a,
          )),
    )
