-- ===== src/Tests/Queues.antt =====
-- The queue, posted events and timers.
use lingx.Base.{ℕ, ◌*◌, ◌≡◌, refl, ◌↔◌, true, false, ◌||◌, some, List, [], ◌∷◌, arith, ◌==◌}
use lingx.Events.{Event, Loop, Handler, post_event, process_posted, find_timer, expire_timers}
use lingx.Events.Posted.{post_event_lem, serve, process_posted-serve}
use lingx.Events.Timers.{
  AllAbove, find_timer_lem, run_expired, pending, Sees, expire_timers-pending,
}
use lingx.Queue.{empty, Links, update, init, insert_head, insert_tail, head, last, remove}
use lingx.Queue.Chain.{has}
use lingx.Queue.Ring.{
  IsRing, insert_tail-IsRing, insert_after-IsRing, remove-IsRing, empty-head-last,
}

-- The queue 0 with the nodes 2 and 3.
abbrev nowhere : Links
nowhere = record { prev = λ a. 99; next = λ a. 99 }

abbrev two_nodes : Links
two_nodes = record {
  prev = update (update (update (λ a. 99) 0 3) 2 0) 3 2;
  next = update (update (update (λ a. 99) 0 2) 2 3) 3 0;
}

two_nodes-IsRing : IsRing two_nodes 0 (2 ∷ 3 ∷ [])
unfolding has
two_nodes-IsRing = record {
  chain = (refl, refl, (refl, refl, (refl, refl)));
  distinct = (refl, (refl, (refl, tt)));
}

inserts_run :
    (last (insert_tail (insert_tail (init nowhere 0) 0 2) 0 3) 0 ≡ 3)
    × (empty (init nowhere 0) 0 ≡ true)
unfolding last insert_tail init empty
inserts_run = (refl, refl)

insert_tail-IsRing_run : IsRing (insert_tail two_nodes 0 4) 0 (2 ∷ 3 ∷ 4 ∷ [])
unfolding has
insert_tail-IsRing_run = insert_tail-IsRing two_nodes 0 4 (2 ∷ 3 ∷ []) two_nodes-IsRing refl

insert_after_run : IsRing (insert_head two_nodes 2 4) 0 (2 ∷ 4 ∷ 3 ∷ [])
unfolding has
insert_after_run = insert_after-IsRing two_nodes 0 4 (2 ∷ []) (3 ∷ []) two_nodes-IsRing refl

remove-IsRing_run : IsRing (remove two_nodes 2) 0 (3 ∷ [])
remove-IsRing_run = remove-IsRing two_nodes 0 2 [] (3 ∷ []) two_nodes-IsRing

two_nodes_run :
    ((empty two_nodes 0 ≡ true) ↔ (◌≡◌ {A = List ℕ} (2 ∷ 3 ∷ []) []))
    × (head two_nodes 0 ≡ 2)
    × (last two_nodes 0 ≡ 3)
two_nodes_run = empty-head-last two_nodes 0 (2 ∷ 3 ∷ []) two_nodes-IsRing

abbrev quiet : Event
quiet = record {
  conn = 0;
  write = false;
  accept = false;
  instance_bit = false;
  active = false;
  ready = false;
  eof = false;
  error = false;
  timedout = false;
  timer_set = true;
  pending_eof = false;
  posted = false;
  closed = false;
  available = false;
  index = 0;
  key = 0;
}

abbrev loop : Loop
loop = record {
  events = λ ev. record quiet { posted = ev == 2 || ev == 3; key = ev * 100 };
  links = two_nodes;
  timers = 2 ∷ 3 ∷ 5 ∷ [];
  current_msec = 350;
}

abbrev do_nothing : Handler
do_nothing ev s = s

post_event_run :
    IsRing (post_event loop 4 0).links 0 (2 ∷ 3 ∷ 4 ∷ [])
    × (((post_event loop 4 0).events 4).posted ≡ true)
    × (post_event (post_event loop 4 0) 4 0 ≡ post_event loop 4 0)
unfolding has
post_event_run = post_event_lem loop 4 0 (2 ∷ 3 ∷ []) two_nodes-IsRing (λ e. refl)

process_posted-serve_example :
    (process_posted do_nothing 3 loop 0 ≡ some (serve do_nothing loop (2 ∷ 3 ∷ [])))
    × IsRing (serve do_nothing loop (2 ∷ 3 ∷ [])).links 0 []
process_posted-serve_example =
    process_posted-serve do_nothing 0 (λ ev s xs r. r) 3 loop (2 ∷ 3 ∷ []) two_nodes-IsRing
      (omega arith)

find_timer_run : find_timer (record loop { current_msec = 150 }) ≡ 50
find_timer_run =
    find_timer_lem (record loop { current_msec = 150 }) 2 (3 ∷ 5 ∷ []) refl (omega arith)
      (omega arith) (omega arith) (omega arith)

expire_timers-pending_example :
    let key : ℕ → ℕ = λ ev. ev * 100 in
    (expire_timers do_nothing 4 loop ≡ some (run_expired do_nothing key 350 loop (2 ∷ 3 ∷ 5 ∷ [])))
    × Sees (run_expired do_nothing key 350 loop (2 ∷ 3 ∷ 5 ∷ [])) key 350 (5 ∷ [])
    × AllAbove key 350 (5 ∷ [])
unfolding pending
expire_timers-pending_example =
    expire_timers-pending do_nothing (λ ev. ev * 100) 350 4 loop (2 ∷ 3 ∷ 5 ∷ [])
      (λ ev s timers v. v) (record { keys = λ ev. refl; clock = refl; set = refl }) (omega arith)
      (omega arith)
