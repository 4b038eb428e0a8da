-- ===== src/Events.antt =====
-- src/lingx/core/event.h, event_posted.cc, event_timer.cc and the loop body of event.cc. An event is
-- a number, the address of its structure; its `queue` node has the same number, and the sentinels of
-- the two posted queues are the numbers 0 and 1. `std::set` is the list of its elements in order.
-- A handler is any function of the event and the state.
pub mod Posted
pub mod Timers
pub mod Queues
pub mod Setup
use lingx.Base.{
  ℕ, zero, suc, ◌+◌, ◌-◌, ◌%◌, Bool, true, false, not, Option, none, some, List, [], ◌∷◌, ltb, ◌==◌,
  if◌then◌else◌, ◌>>=◌,
}
use lingx.Queue.{empty, Links, insert_tail, head, remove}

pub record Event : Type 0 where
  pub conn : ℕ
  pub write : Bool
  pub accept : Bool
  pub instance_bit : Bool
  pub active : Bool
  pub ready : Bool
  pub eof : Bool
  pub error : Bool
  pub timedout : Bool
  pub timer_set : Bool
  pub pending_eof : Bool
  pub posted : Bool
  pub closed : Bool
  pub available : Bool
  pub index : ℕ
  pub key : ℕ

pub record Loop : Type 0 where
  pub events : ℕ → Event
  pub links : Links
  pub timers : List ℕ
  pub current_msec : ℕ

abbrev pub accept_queue : ℕ
accept_queue = 0

abbrev pub posted_queue : ℕ
posted_queue = 1

abbrev pub Handler : Type 0
Handler = ℕ → Loop → Loop

abbrev pub set_event : Loop → ℕ → Event → Loop
set_event s ev e = record s { events = λ b. if b == ev then e else s.events b }

unfoldable pub enqueue : Loop → ℕ → ℕ → Loop
enqueue s ev q =
    let s1 = set_event s ev (record (s.events ev) { posted = true }) in
    record s1 { links = insert_tail s1.links q ev }

unfoldable pub post_event : Loop → ℕ → ℕ → Loop
unfolding enqueue
post_event s ev q = if not (s.events ev).posted then enqueue s ev q else s

unfoldable pub delete_posted_event : Loop → ℕ → Loop
delete_posted_event s ev =
    let s1 = set_event s ev (record (s.events ev) { posted = false }) in
    record s1 { links = remove s1.links ev }

-- The `while` of `Event_process_posted`; `none` means that the fuel ran out.
unfoldable pub process_posted : Handler → ℕ → Loop → ℕ → Option Loop
process_posted handler zero s posted = none
process_posted handler (suc fuel) s posted =
    let ev = head s.links posted in
    let rest = process_posted handler fuel (handler ev (delete_posted_event s ev)) posted in
    if not (empty s.links posted) then rest else some s

abbrev pub two_64 : ℕ
two_64 = 18446744073709551616

abbrev pub timer_infinite : ℕ
timer_infinite = 18446744073709551615

-- `(msec_t) (timer > 0 ? timer : 0)` of the difference as a signed number of 64 bits.
unfoldable pub clamp_signed : ℕ → ℕ
clamp_signed v = if ltb v 9223372036854775808 then v else 0

abbrev pub sub_64 : ℕ → ℕ → ℕ
sub_64 a b = (a + two_64 - b) % two_64

first_timer : Loop → List ℕ → ℕ
unfolding clamp_signed
first_timer s [] = timer_infinite
first_timer s (ev ∷ rest) = clamp_signed (sub_64 (s.events ev).key s.current_msec)

unfoldable pub find_timer : Loop → ℕ
unfolding first_timer
find_timer s = first_timer s s.timers

-- What an expired timer does to its event before the handler runs: `timers` is the set without it.
unfoldable pub fire : Loop → ℕ → List ℕ → Loop
fire s ev timers =
    let s1 = record s { timers = timers } in
    let s2 = set_event s1 ev (record (s1.events ev) { timer_set = false }) in
    set_event s2 ev (record (s2.events ev) { timedout = true })

-- The loop of `Event_expire_timers` at the timers it finds.
expire_step : (Loop → Option Loop) → Handler → Loop → List ℕ → Option Loop
unfolding fire
expire_step again handler s [] = some s
expire_step again handler s (ev ∷ rest) =
    if ltb s.current_msec (s.events ev).key then some s else again (handler ev (fire s ev rest))

unfoldable pub expire_timers : Handler → ℕ → Loop → Option Loop
unfolding expire_step
expire_timers handler zero s = none
expire_timers handler (suc fuel) s = expire_step (expire_timers handler fuel) handler s s.timers

-- One round: `process_events` is the entry of the event module's action table, called with the
-- timeout. The fuel bounds each of the three loops.
unfoldable pub process_events_and_timers : Handler → (Loop → ℕ → Loop) → ℕ → Loop → Option Loop
process_events_and_timers handler process_events fuel s =
    let s1 = process_events s (find_timer s) in
    let delta = sub_64 s1.current_msec s.current_msec in
    do
      s2 ← process_posted handler fuel s1 accept_queue
      s3 ← if delta == 0 then some s2 else expire_timers handler fuel s2
      process_posted handler fuel s3 posted_queue
