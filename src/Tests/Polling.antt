-- ===== src/Tests/Polling.antt =====
-- The table of poll entries.
use lingx.Base.{
  ℕ, ◌+◌, ◌-◌, ◌*◌, ◌/◌, ◌<◌, ◌≡◌, refl, sym, ◌∙◌, inl, inr, true, false, ◌&&◌, ◌||◌, Option, none,
  some, List, [], arith, ltb, if◌then◌else◌, ltb→lt, Bool-cases,
}
use mathlib.Core.Option.{some-injective, some-ne-none}
use mathlib.Core.Path.{subst}
use lingx.Events.{Event}
use lingx.Events.Queues.{Queued, IsQueued}
use lingx.Poll.{
  Direction, pollin, pollout, PollBits, no_bits, Poll, invalid_index, store, event_at, event_of,
  index_of, new_entry, join_entry, add_active, poll_add_event, drop_entry, del_inactive,
  poll_del_event,
}
use lingx.Poll.Changes.{fd_of, idx_of, IsValid}
use lingx.Poll.Dispatch.{IsMarked, is_reported, count_reported}
use lingx.Poll.Dispatch.Marks.{poll_process_events-IsMarked}
use lingx.Poll.Dispatch.Queues.{HasEvents, poll_process_events-Queued}
use lingx.Poll.Process.{returned, reported, poll_process_events}
use lingx.Poll.Registration.{
  IsRegistered, SameOthers, poll_add_event-IsValid, poll_del_event-IsValid,
}
use lingx.Poll.Watch.{Watches, WatchesOthers, poll_add_event-Watches, poll_del_event-Watches}
use lingx.Queue.Chain.{has}
use mathlib.Core.Option as Opt

abbrev idle : Event
idle = record {
  conn = 0;
  write = false;
  accept = false;
  instance_bit = false;
  active = false;
  ready = false;
  eof = false;
  error = false;
  timedout = false;
  timer_set = false;
  pending_eof = false;
  posted = false;
  closed = false;
  available = false;
  index = invalid_index;
  key = 0;
}

-- The connection `c` has the events 2c and 2c + 1, and 1 to 3 are open, with the descriptors 11 to 13.
abbrev fresh_table : Poll
fresh_table = record {
  loop = record {
    events = λ ev. record idle { conn = ev / 2 };
    links = record { prev = λ a. a; next = λ a. a };
    timers = [];
    current_msec = 0;
  };
  entries = λ i. record { fd = none; asked = λ d. false; revents = no_bits };
  n = 0;
  size = 8;
  conns = λ c. record {
    read = 2 * c;
    write = 2 * c + 1;
    conn_fd = if ltb 0 c && ltb c 4 then some (c + 10) else none;
  };
  files = λ f. f - 10;
}

fresh_filed : (c f : ℕ) → fd_of fresh_table c ≡ some f → f - 10 ≡ c
fresh_filed c f h = elim (Bool-cases (ltb 0 c && ltb c 4)) [
  | inl e ↦ let same : c + 10 ≡ f = some-injective (c + 10) f (sym (rw e refl) ∙ h) in omega arith
  | inr e ↦ absurd (some-ne-none f (sym h ∙ rw e refl))
]

fresh_table-IsValid : IsValid fresh_table
fresh_table-IsValid = record {
  wired = record {
    conn_of = λ c d. elim d as (λ d. event_at (fresh_table.conns c) d / 2 ≡ c) [
      | pollin ↦ omega arith
      | pollout ↦ omega arith
    ];
    apart = λ c. omega arith;
    filed = fresh_filed;
  };
  fits = record {
    placed = λ c d h. absurd (h refl);
    paired = λ c d h. absurd (h refl);
    owned = λ i lt. absurd (omega arith);
    small = omega arith;
  };
}

abbrev got : Poll → Option Poll → Poll
got s none = s
got s (some s') = s'

got-IsValid :
    (s : Poll) (r : Option Poll) (s' : Poll) → r ≡ some s' → IsValid s' → IsValid (got s r)
got-IsValid s r s' e v = subst (λ o. IsValid (got s o)) (sym e) v

abbrev one_event : Poll
one_event = got fresh_table (poll_add_event fresh_table (event_of fresh_table 1 pollin) pollin)

abbrev two_events : Poll
two_events = got one_event (poll_add_event one_event (event_of one_event 1 pollout) pollout)

abbrev three_events : Poll
three_events = got two_events (poll_add_event two_events (event_of two_events 2 pollin) pollin)

-- The read events of two connections.
abbrev one_of_each : Poll
one_of_each = got one_event (poll_add_event one_event (event_of one_event 2 pollin) pollin)

one_event-IsValid : IsValid one_event
unfolding poll_add_event add_active new_entry join_entry
one_event-IsValid =
    let (s', e, v, _, _) =
      poll_add_event-IsValid fresh_table 1 11 pollin fresh_table-IsValid refl (omega arith)
        (omega arith) in
    got-IsValid fresh_table _ s' e v

two_events-IsValid : IsValid two_events
unfolding poll_add_event add_active new_entry join_entry
two_events-IsValid =
    let (s', e, v, _, _) =
      poll_add_event-IsValid one_event 1 11 pollout one_event-IsValid refl (omega arith)
        (omega arith) in
    got-IsValid one_event _ s' e v

three_events-IsValid : IsValid three_events
unfolding poll_add_event add_active new_entry join_entry
three_events-IsValid =
    let (s', e, v, _, _) =
      poll_add_event-IsValid two_events 2 12 pollin two_events-IsValid refl (omega arith)
        (omega arith) in
    got-IsValid two_events _ s' e v

poll_add_event_runs :
    (three_events.n ≡ 2)
    × ((three_events.entries 0).fd ≡ some 11)
    × ((three_events.entries 0).asked pollout ≡ true)
    × (index_of three_events 3 ≡ 0)
    × (index_of three_events 4 ≡ 1)
unfolding poll_add_event add_active new_entry join_entry
poll_add_event_runs = (refl, refl, refl, refl, refl)

-- The second event of a connection joins the entry of the first.
poll_add_event-IsValid_example :
    (s' : Poll) × (poll_add_event one_event (event_of one_event 1 pollout) pollout ≡ some s')
    × IsValid s'
    × IsRegistered s' 1 pollout
    × SameOthers one_event s' 1 pollout
unfolding poll_add_event add_active new_entry join_entry
poll_add_event-IsValid_example =
    poll_add_event-IsValid one_event 1 11 pollout one_event-IsValid refl (omega arith) (omega arith)

-- A table without room.
poll_add_event_overflows :
    poll_add_event (record fresh_table { size = 0 }) (event_of fresh_table 1 pollin) pollin ≡ none
unfolding poll_add_event add_active
poll_add_event_overflows = refl

-- Both events of the first entry are deleted: the second entry takes its place.
poll_del_event-IsValid_example :
    (s' : Poll) × (poll_del_event three_events (event_of three_events 1 pollin) pollin ≡ some s')
    × IsValid s'
    × (idx_of s' 1 pollin ≡ invalid_index)
    × SameOthers three_events s' 1 pollin
poll_del_event-IsValid_example = poll_del_event-IsValid three_events 1 pollin three_events-IsValid

poll_del_event_runs :
    Opt.map {B = ℕ × Option ℕ × ℕ × ℕ}
      (λ s. (s.n, (s.entries 0).fd, index_of s 4, index_of s 2))
      (poll_del_event one_of_each 2 pollin)
    ≡ some (1, some 12, 0, invalid_index)
unfolding poll_add_event add_active new_entry poll_del_event del_inactive drop_entry
poll_del_event_runs = refl

poll_add_event-Watches_example :
    (s' : Poll) × (poll_add_event one_event (event_of one_event 1 pollout) pollout ≡ some s')
    × Watches s' 11 pollout
    × WatchesOthers one_event s' 11 pollout
unfolding poll_add_event add_active new_entry join_entry
poll_add_event-Watches_example =
    poll_add_event-Watches one_event 1 11 pollout one_event-IsValid refl (omega arith) (omega arith)

poll_del_event-Watches_example :
    (s' : Poll) × (poll_del_event three_events (event_of three_events 1 pollin) pollin ≡ some s')
    × (Watches s' 11 pollin → ⊥)
    × WatchesOthers three_events s' 11 pollin
unfolding poll_add_event add_active new_entry join_entry
poll_del_event-Watches_example =
    poll_del_event-Watches three_events 1 11 pollin three_events-IsValid refl

abbrev error_bits : ℕ → PollBits
error_bits i = record no_bits { err_bit = true }

-- An error of the descriptor wakes the writer.
poll_process_events-IsMarked_run :
    let done = poll_process_events (λ l. l) (returned 1 error_bits) 500 true false two_events in
    (done.is_ok ≡ true) × IsMarked done.state (event_of two_events 1 pollout)
unfolding poll_add_event add_active new_entry join_entry count_reported is_reported reported
poll_process_events-IsMarked_run =
    poll_process_events-IsMarked (λ l. l) (λ l. refl) 1 error_bits 500 true false two_events
      two_events-IsValid (omega arith) (omega arith) 1 pollout (λ z. absurd (omega (arith, z))) refl
      refl

two_events-HasEvents : HasEvents two_events
unfolding poll_add_event add_active new_entry join_entry
two_events-HasEvents c d g e = elim (Bool-cases (ltb 0 c)) [
  | inl k ↦ above d (ltb→lt 0 c k)
  | inr k ↦ absurd (some-ne-none g (sym e ∙ rw k refl))
]
  where
    above : (d : Direction) → 0 < c → 1 < event_at (fresh_table.conns c) d
    above pollin l = omega arith
    above pollout l = omega arith

two_events-IsQueued : IsQueued two_events.loop
unfolding poll_add_event add_active new_entry join_entry has
two_events-IsQueued = (
  [],
  [],
  record {
    accept_ring = record { chain = (refl, refl); distinct = (refl, tt) };
    posted_ring = record { chain = (refl, refl); distinct = (refl, tt) };
    separate = λ c i. ground arith;
    flags = λ ev. ground arith;
  },
)

poll_process_events-Queued_example :
    let done =
      (poll_process_events (λ l. l) (returned 1 error_bits) 500 true false two_events).state in
    ((done.loop.events (event_of two_events 1 pollout)).ready ≡ true)
    × (xs : List ℕ) × (ys : List ℕ) × Queued done.loop xs ys
    × ((has (event_of two_events 1 pollout) xs || has (event_of two_events 1 pollout) ys) ≡ true)
unfolding poll_add_event add_active new_entry join_entry count_reported is_reported reported
poll_process_events-Queued_example =
    poll_process_events-Queued (λ l. l) (λ l. refl) (λ l. refl) 1 error_bits 500 true false
      two_events two_events-IsValid two_events-HasEvents two_events-IsQueued (omega arith)
      (omega arith) 1 pollout (λ z. absurd (omega (arith, z))) refl refl

-- The last entry was disabled, and another one is dropped: the table of files is read at -1.
drop_entry_disabled :
    drop_entry
      (record one_of_each {
        entries = store one_of_each.entries 1 (record (one_of_each.entries 1) { fd = none });
      })
      0
    ≡ none
unfolding poll_add_event add_active new_entry drop_entry
drop_entry_disabled = refl
