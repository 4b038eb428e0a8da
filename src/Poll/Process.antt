-- ===== src/Poll/Process.antt =====
-- `Poll_process_events_` of src/lingx/core/event_poll_module.cc. What poll() returns is an argument, and
-- so is the effect of `Time_update`.
use lingx.Base.{
  ℕ, zero, suc, ◌+◌, ◌-◌, Bool, true, false, not, ◌&&◌, ◌||◌, Option, none, some, ltb, ◌==◌,
  if◌then◌else◌,
}
use lingx.Events.{Loop, accept_queue, posted_queue, set_event, post_event, timer_infinite}
use lingx.Poll.{Direction, pollin, pollout, PollBits, Poll, set_entry}

-- The errno of a failure, or the number of entries with events, and the events of each.
pub data PollResult : Type 0 where
  failed : ℕ → PollResult
  returned : ℕ → (ℕ → PollBits) → PollResult

abbrev pub eintr : ℕ
eintr = 4

-- With an error bit the direction is reported too, so that some handler sees the error.
unfoldable pub reported : PollBits → Direction → Bool
reported b pollin = b.in_bit || b.err_bit || b.hup_bit || b.nval_bit
reported b pollout = b.out_bit || b.err_bit || b.hup_bit || b.nval_bit

-- `ev->ready = 1; Post_event(ev, queue);` under a test.
unfoldable pub notify_if : Bool → Poll → ℕ → ℕ → Poll
notify_if b s ev q =
    let ready = set_event s.loop ev (record (s.loop.events ev) { ready = true }) in
    record s { loop = if b then post_event ready ev q else s.loop }

-- An entry of an open connection: the new state, and `found`.
unfoldable pub visit_open : Poll → ℕ → PollBits → Poll × Bool
visit_open s c b =
    let r = (s.conns c).read in
    let w = (s.conns c).write in
    let in_ = reported b pollin && (s.loop.events r).active in
    let queue = if (s.loop.events r).accept then accept_queue else posted_queue in
    let s1 = notify_if in_ s r queue in
    let out_ = reported b pollout && (s1.loop.events w).active in
    let s2 = notify_if out_ s1 w posted_queue in (s2, in_ || out_)

-- An entry whose connection is closed: it is dropped if it is the last one, or else disabled.
unfoldable pub disable_entry : Poll → ℕ → Poll
disable_entry s i =
    if i == s.n - 1
    then record s { n = s.n - 1 }
    else set_entry s i (record (s.entries i) { fd = none })

unfoldable pub visit_conn : Poll → ℕ → ℕ → Option ℕ → Poll × Bool
visit_conn s i c none = (disable_entry s i, false)
visit_conn s i c (some g) = visit_open s c (s.entries i).revents

unfoldable pub visit_fd : Poll → ℕ → Option ℕ → Poll × Bool
visit_fd s i none = (s, false)
visit_fd s i (some f) = visit_conn s i (s.files f) (s.conns (s.files f)).conn_fd

unfoldable pub visit : Poll → ℕ → Poll × Bool
visit s i = visit_fd s i (s.entries i).fd

-- The loop over the entries from `i` on, with `ready` still to be found, and the `ready` left.
unfoldable pub dispatch : ℕ → ℕ → ℕ → Poll → Poll × ℕ
dispatch zero i ready s = (s, ready)
dispatch (suc fuel) i ready s =
    let v = visit s i in
    let rest = dispatch fuel (i + 1) (if v.1 then ready - 1 else ready) v.0 in
    if ltb i s.n && ltb 0 ready then rest else (s, ready)

-- What poll() stored.
abbrev pub with_revents : (ℕ → PollBits) → Poll → Poll
with_revents bits s = record s { entries = λ i. record (s.entries i) { revents = bits i } }

-- The result: OK or ERROR, `Event_timer_alarm`, and the state.
pub record Processed : Type 0 where
  pub is_ok : Bool
  pub alarm : Bool
  pub state : Poll

-- Behind the call of poll() and the update of the time.
unfoldable pub after_poll : PollResult → ℕ → Bool → Poll → Processed
unfolding dispatch
after_poll (failed err) timer alarm s =
    if err == eintr && alarm
    then record { is_ok = true; alarm = false; state = s }
    else record { is_ok = false; alarm = alarm; state = s }
after_poll (returned ready bits) timer alarm s =
    let s1 = with_revents bits s in
    if ready == 0
    then record { is_ok = not (timer == timer_infinite); alarm = alarm; state = s1 }
    else record { is_ok = true; alarm = alarm; state = (dispatch s.n 0 ready s1).0 }

unfoldable pub poll_process_events : (Loop → Loop) → PollResult → ℕ → Bool → Bool → Poll → Processed
unfolding after_poll
poll_process_events time_update result timer update_time alarm s =
    let s1 = record s { loop = if update_time || alarm then time_update s.loop else s.loop } in
    after_poll result timer alarm s1
