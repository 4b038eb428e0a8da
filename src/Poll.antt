-- ===== src/Poll.antt =====
-- src/lingx/core/event_poll_module.cc: the array of poll entries and the events that have one. An event
-- is a number, as in `Events`; its connection gives its two events and its descriptor, none for -1.
-- The events of a connection are never null here: `init_connections_events` sets both. Bits of
-- `revents` other than the five below are only logged. The functions return OK wherever they return.
use lingx.Base.{
  ℕ, ◌+◌, ◌-◌, Bool, true, false, not, ◌||◌, Option, none, some, ltb, leb, ◌==◌, if◌then◌else◌,
}
use lingx.Events.{Event, Loop, set_event}
use lingx.Queue.{last}
use mathlib.Core.Option as Opt
pub mod Setup
pub mod Table
pub mod Changes
pub mod Registration
pub mod Watch
pub mod Process
pub mod Directions
pub mod Dispatch

pub data Direction : Type 0 where
  pollin pollout : Direction

abbrev pub other : Direction → Direction
other pollin = pollout
other pollout = pollin

abbrev pub same_direction : Direction → Direction → Bool
same_direction pollin pollin = true
same_direction pollin pollout = false
same_direction pollout pollin = false
same_direction pollout pollout = true

pub record PollBits : Type 0 where
  pub in_bit : Bool
  pub out_bit : Bool
  pub err_bit : Bool
  pub hup_bit : Bool
  pub nval_bit : Bool

abbrev pub no_bits : PollBits
no_bits = record {
  in_bit = false;
  out_bit = false;
  err_bit = false;
  hup_bit = false;
  nval_bit = false;
}

pub record PollFd : Type 0 where
  pub fd : Option ℕ
  pub asked : Direction → Bool
  pub revents : PollBits

pub record Conn : Type 0 where
  pub read : ℕ
  pub write : ℕ
  pub conn_fd : Option ℕ

-- `size` is the length of the vector `Events_`, and `n` is `nEvents_`.
pub record Poll : Type 0 where
  pub loop : Loop
  pub entries : ℕ → PollFd
  pub n : ℕ
  pub size : ℕ
  pub conns : ℕ → Conn
  pub files : ℕ → ℕ

abbrev pub invalid_index : ℕ
invalid_index = 0xd0d0d0d0

abbrev pub store {ℓ} : {A : Type ℓ} → (ℕ → A) → ℕ → A → ℕ → A
store f i v j = if j == i then v else f j

-- `old` is the number of connections of the old cycle, if there is one. The assertion is none. The
-- functions that the event loop then calls are those of this module, which needs no state.
unfoldable pub poll_init : ℕ → Option ℕ → ℕ → Poll → Option Poll
poll_init process_type old connection_n s =
    let s1 = record s { n = if s.size == 0 then 0 else s.n } in
    let fewer = elim old as (λ _. Bool) [ none ↦ true | some k ↦ ltb k connection_n ] in
    if not (leb 3 process_type || fewer)
    then some s1
    else if leb s.size connection_n
    then some (record s1 { size = connection_n })
    else none

unfoldable pub poll_done : Poll → Poll
poll_done s = record s { size = 0; n = 0 }

abbrev pub event_at : Conn → Direction → ℕ
event_at c pollin = c.read
event_at c pollout = c.write

abbrev pub event_of : Poll → ℕ → Direction → ℕ
event_of s c d = event_at (s.conns c) d

abbrev pub set_poll_event : Poll → ℕ → Event → Poll
set_poll_event s ev e = record s { loop = set_event s.loop ev e }

abbrev pub with_index : Poll → ℕ → ℕ → Poll
with_index s ev i = set_poll_event s ev (record (s.loop.events ev) { index = i })

abbrev pub with_active : Poll → ℕ → Bool → Poll
with_active s ev b = set_poll_event s ev (record (s.loop.events ev) { active = b })

abbrev pub index_of : Poll → ℕ → ℕ
index_of s ev = (s.loop.events ev).index

abbrev pub ask : PollFd → Direction → Bool → PollFd
ask e d b = record e { asked = λ x. if same_direction x d then b else e.asked x }

abbrev pub set_entry : Poll → ℕ → PollFd → Poll
set_entry s i e = record s { entries = store s.entries i e }

-- A new entry at the end, where the array has room, for the event `ev` of the connection `c`.
unfoldable pub new_entry : Poll → ℕ → ℕ → Direction → Poll
new_entry s ev c d =
    let fresh : PollFd = record {
      fd = (s.conns c).conn_fd;
      asked = λ x. same_direction x d;
      revents = no_bits;
    } in
    let s1 = set_entry s s.n fresh in with_index (record s1 { n = s.n + 1 }) ev s.n

unfoldable pub join_entry : Poll → ℕ → ℕ → Direction → Poll
join_entry s ev j d = with_index (set_entry s j (ask (s.entries j) d true)) ev j

unfoldable pub leave_entry : Poll → ℕ → ℕ → Direction → Poll
leave_entry s ev j d = with_index (set_entry s j (ask (s.entries j) d false)) ev invalid_index

-- `Poll_add_event_` behind its first store; `c` is the event's connection. None is a store behind the
-- end of `Events_`.
unfoldable pub add_active : Poll → ℕ → ℕ → Direction → Option Poll
add_active s ev c d =
    let j = index_of s (event_of s c (other d)) in
    if not (index_of s ev == invalid_index)
    then some s
    else if j == invalid_index
    then (if ltb s.n s.size then some (new_entry s ev c d) else none)
    else some (join_entry s ev j d)

-- `Poll_add_event_` of the event `ev` for the direction `d`.
unfoldable pub poll_add_event : Poll → ℕ → Direction → Option Poll
poll_add_event s ev d = add_active (with_active s ev true) ev (s.loop.events ev).conn d

-- `if (e->index == m) e->index = i;`, a store of what is there if the test fails.
abbrev pub move_index : ℕ → ℕ → Poll → ℕ → Poll
move_index m i s ev = with_index s ev (if index_of s ev == m then i else index_of s ev)

abbrev pub move_both : ℕ → ℕ → Poll → ℕ → Poll
move_both m i s c = move_index m i (move_index m i s (s.conns c).read) (s.conns c).write

-- What is left of the entry `i` when no event has it any more: the last entry takes its place. None
-- is the read of `files()` at the descriptor -1.
unfoldable pub drop_entry : Poll → ℕ → Option Poll
drop_entry s i =
    let m = s.n - 1 in
    let s1 = record s { n = m } in
    let s2 = record s1 { entries = store s1.entries i (s1.entries m) } in
    let moved =
      λ (c : ℕ). move_index m i (move_index m i s2 (s2.conns c).read) (s2.conns c).write in
    let of_fd = λ (f : ℕ). elim (s2.conns (s2.files f)).conn_fd as (λ _. Option Poll) [
      | none ↦ some s2
      | some g ↦ some (move_both m i s2 (s2.files f))
    ] in
    let last = elim (s1.entries m).fd as (λ _. Option Poll) [ none ↦ none | some f ↦ of_fd f ] in
    if ltb i m then last else some s1

-- `Poll_del_event_` behind its first store.
unfoldable pub del_inactive : Poll → ℕ → ℕ → Direction → Option Poll
del_inactive s ev c d =
    let i = index_of s ev in
    let j = index_of s (event_of s c (other d)) in
    let alone = Opt.map (λ s2. with_index s2 ev invalid_index) (drop_entry s i) in
    if i == invalid_index
    then some s
    else if j == invalid_index
    then alone
    else some (leave_entry s ev j d)

unfoldable pub poll_del_event : Poll → ℕ → Direction → Option Poll
poll_del_event s ev d = del_inactive (with_active s ev false) ev (s.loop.events ev).conn d
