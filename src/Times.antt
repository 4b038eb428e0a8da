-- ===== src/Times.antt =====
-- src/lingx/core/times.cc: the cached time, kept in a ring of 64 slots so that a reader of the pointers
-- is not disturbed by an update. What the C library makes of a second is an argument: the text and
-- the offset of the local time, and the text of a time shifted by an offset. `locked` says that
-- `try_lock` failed.
pub mod Slots
use lingx.Base.{ℕ, ◌+◌, ◌*◌, ◌/◌, ◌%◌, ◌≡◌, ◌≢◌, Bool, false, List, arith, ◌==◌, if◌then◌else◌}

abbrev pub time_slots : ℕ
time_slots = 64

pub record Time (Offset : Type 0) : Type 0 where
  pub sec : ℕ
  pub msec : ℕ
  pub gmtoff : Offset

pub record TimeState (Offset : Type 0) : Type 0 where
  pub slot : ℕ
  pub times : ℕ → Time Offset
  pub texts : ℕ → List ℕ
  pub cached_time : ℕ
  pub cached_err_log_time : ℕ
  pub current_msec : ℕ
  pub cached_gmtoff : Offset

abbrev pub store {ℓ} : {A : Type ℓ} → (ℕ → A) → ℕ → A → ℕ → A
store f i v j = if j == i then v else f j

module _ {Offset : Type 0} (local_text : ℕ → List ℕ) (local_offset : ℕ → Offset)
    (shifted_text : ℕ → Offset → List ℕ) where
  unfoldable pub time_update : Bool → ℕ → ℕ → TimeState Offset → TimeState Offset
  time_update locked sec usec s =
      let msec = usec / 1000 in
      let s1 = record s { current_msec = sec * 1000 + msec } in
      let i = (s.slot + 1) % time_slots in
      let kept : Time Offset = record (s.times s.slot) { msec = msec } in
      let fresh : Time Offset = record { sec = sec; msec = msec; gmtoff = local_offset sec } in
      if locked
      then s
      else if (s.times s.slot).sec == sec
      then record s1 { times = store s.times s.slot kept }
      else record s1 {
        slot = i;
        times = store s.times i fresh;
        texts = store s.texts i (local_text sec);
        cached_time = i;
        cached_err_log_time = i;
        cached_gmtoff = local_offset sec;
      }

  -- What a signal handler may call.
  unfoldable pub time_sigsafe_update : Bool → ℕ → TimeState Offset → TimeState Offset
  time_sigsafe_update locked sec s =
      let i = (s.slot + 1) % time_slots in
      let marked : Time Offset = record (s.times i) { sec = 0 } in
      if locked then s else if (s.times s.slot).sec == sec then s else record s {
        slot = i;
        times = store s.times i marked;
        texts = store s.texts i (shifted_text sec s.cached_gmtoff);
        cached_err_log_time = i;
      }

  unfoldable pub time_init : Bool → ℕ → ℕ → TimeState Offset → TimeState Offset
  unfolding time_update
  time_init locked sec usec s = time_update locked sec usec (record s { cached_time = 0 })

  -- When the current slot holds another second and the lock is free, `Time_init` leaves a cached time
  -- and a text that are those of the second given, and the milliseconds of the clock.
  pub time_init-fresh :
      (sec usec : ℕ) (s : TimeState Offset)
      → (s.times s.slot).sec ≢ sec
      → let t = time_init false sec usec s in
        ((t.times t.cached_time).sec ≡ sec)
        × (t.texts t.cached_err_log_time ≡ local_text sec)
        × (t.current_msec ≡ sec * 1000 + usec / 1000)
  unfolding time_init time_update
  time_init-fresh sec usec s ne = (ground arith, ground arith, ground arith)
