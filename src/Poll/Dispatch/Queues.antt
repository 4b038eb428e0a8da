-- ===== src/Poll/Dispatch/Queues.antt =====
-- `Poll_process_events_` keeps the posted queues: what it marks is in one of them.
use lingx.Base.{
  ℕ, zero, suc, ◌+◌, ◌-◌, ◌≤◌, ◌<◌, ◌≡◌, refl, sym, ◌∙◌, ◌⊎◌, inl, inr, Bool, true, ◌&&◌, ◌||◌,
  Option, none, some, List, arith, ltb, ◌==◌, if◌then◌else◌, if_cases,
}
use lingx.Events.{Loop, accept_queue, posted_queue, set_event}
use lingx.Events.Queues.{Queued, Queued-same, IsQueued, post_event-IsQueued}
use lingx.Poll.{Direction, pollin, pollout, PollBits, Poll, event_of}
use lingx.Poll.Changes.{idx_of, IsValid}
use lingx.Poll.Dispatch.{count_reported}
use lingx.Poll.Dispatch.Marks.{poll_process_events-IsMarked}
use lingx.Poll.Process.{
  failed, eintr, PollResult, returned, reported, notify_if, visit_open, disable_entry, visit_conn,
  visit_fd, visit, dispatch, with_revents, Processed, after_poll, poll_process_events,
}
use lingx.Poll.Registration.{IsRegistered}
use lingx.Queue.Chain.{has}

-- No event of an open connection has the number of a sentinel.
abbrev pub HasEvents : Poll → Type 0
HasEvents s = (c : ℕ) (d : Direction) (g : ℕ) → (s.conns c).conn_fd ≡ some g → 1 < event_of s c d

notify_if-IsQueued :
    (b : Bool) (s : Poll) (ev q : ℕ)
    → 1 < ev
    → (q ≡ accept_queue) ⊎ (q ≡ posted_queue)
    → IsQueued s.loop
    → IsQueued (notify_if b s ev q).loop
unfolding notify_if
notify_if-IsQueued b s ev q big at_ (xs, ys, k) =
    if_cases IsQueued b
      (λ e. post_event-IsQueued _ ev q big at_ (
        xs,
        ys,
        Queued-same s.loop (set_event s.loop ev (record (s.loop.events ev) { ready = true })) xs ys
            refl (λ d. ground arith) k,
      ))
      (λ e. (xs, ys, k))

record Steady (s t : Poll) : Type 0 where
  queued : IsQueued t.loop
  conns_kept : t.conns ≡ s.conns

visit_open-Steady :
    (s : Poll) (c : ℕ) (b : PollBits)
    → ((d : Direction) → 1 < event_of s c d)
    → IsQueued s.loop
    → Steady s (visit_open s c b).0
unfolding visit_open notify_if
visit_open-Steady s c b h k =
    let r = (s.conns c).read in
    let w = (s.conns c).write in
    let in_ = reported b pollin && (s.loop.events r).active in
    let queue = if (s.loop.events r).accept then accept_queue else posted_queue in
    let known : (queue ≡ accept_queue) ⊎ (queue ≡ posted_queue) =
      if_cases (λ q. (q ≡ accept_queue) ⊎ (q ≡ posted_queue)) (s.loop.events r).accept
        (λ e. inl refl) (λ e. inr refl) in
    let s1 = notify_if in_ s r queue in
    let out_ = reported b pollout && (s1.loop.events w).active in
    record {
      queued =
          notify_if-IsQueued out_ s1 w posted_queue (h pollout) (inr refl)
            (notify_if-IsQueued in_ s r queue (h pollin) known k);
      conns_kept = refl;
    }

module _ (s : Poll) (h : HasEvents s) (k : IsQueued s.loop) where
  still : Steady s s
  still = record { queued = k; conns_kept = refl }

  visit_fd-Steady : (i : ℕ) (o : Option ℕ) → Steady s (visit_fd s i o).0
  unfolding visit_fd visit_conn disable_entry
  visit_fd-Steady i none = still
  visit_fd-Steady i (some f) = at_conn (s.conns (s.files f)).conn_fd refl
    where
      at_conn :
          (o : Option ℕ)
          → (s.conns (s.files f)).conn_fd ≡ o
          → Steady s (visit_conn s i (s.files f) o).0
      at_conn none e =
          if_cases (Steady s) (i == s.n - 1) (λ z. record { queued = k; conns_kept = refl })
            (λ z. record { queued = k; conns_kept = refl })
      at_conn (some g) e =
          visit_open-Steady s (s.files f) (s.entries i).revents (λ d. h (s.files f) d g e) k

  visit-Steady : (i : ℕ) → Steady s (visit s i).0
  unfolding visit
  visit-Steady i = visit_fd-Steady i (s.entries i).fd

dispatch-Steady :
    (fuel i ready : ℕ) (s : Poll)
    → HasEvents s
    → IsQueued s.loop
    → Steady s (dispatch fuel i ready s).0
unfolding dispatch
dispatch-Steady zero i ready s h k = still s h k
dispatch-Steady (suc fuel) i ready s h k =
    let t = visit-Steady s h k i in
    let v = visit s i in
    let next = if v.1 then ready - 1 else ready in
    let h' : HasEvents v.0 = λ c d g. rw t.conns_kept (h c d g) in
    let rest = dispatch-Steady fuel (i + 1) next v.0 h' t.queued in
    if_cases (λ (r : Poll × ℕ). Steady s r.0) (ltb i s.n && ltb 0 ready)
      (λ e. record { queued = rest.queued; conns_kept = rest.conns_kept ∙ t.conns_kept })
      (λ e. still s h k)

-- `Poll_process_events_` with any result of poll() keeps the two posted queues: afterwards too they
-- are rings that share no event, and the flag of an event says whether it is in one of them. The
-- update of the time touches no event and no queue, and no event of an open
-- connection has the number of a sentinel.
pub poll_process_events-IsQueued :
    (time_update : Loop → Loop)
    → ((l : Loop) → (time_update l).events ≡ l.events)
    → ((l : Loop) → (time_update l).links ≡ l.links)
    → (result : PollResult) (timer : ℕ) (update_time alarm : Bool) (s : Poll) → HasEvents s
    → IsQueued s.loop
    → IsQueued (poll_process_events time_update result timer update_time alarm s).state.loop
unfolding poll_process_events
poll_process_events-IsQueued time_update keeps keeps' result timer update_time alarm s h
      (xs, ys, k) =
    after result
  where
    loop : Loop
    loop = if update_time || alarm then time_update s.loop else s.loop

    queued : IsQueued loop
    queued =
        if_cases IsQueued (update_time || alarm)
          (λ e. (
            xs,
            ys,
            Queued-same s.loop (time_update s.loop) xs ys (keeps' s.loop)
                (λ d. rw (keeps s.loop) refl) k,
          ))
          (λ e. (xs, ys, k))

    after :
        (r : PollResult) → IsQueued (after_poll r timer alarm (record s { loop = loop })).state.loop
    after (failed err) =
        if_cases (λ (p : Processed). IsQueued p.state.loop) (err == eintr && alarm) (λ e. queued)
          (λ e. queued)
    after (returned ready bits) =
        if_cases (λ (p : Processed). IsQueued p.state.loop) (ready == 0) (λ e. queued)
          (λ e.
            (dispatch-Steady s.n 0 ready (with_revents bits (record s { loop = loop })) h
              queued).queued)

-- If poll() returns at least as many as the entries that it reports, and more than 0, then every
-- registered and active event of a valid table whose direction is reported for its entry, or whose
-- entry has an error, is ready and stands in one of the two posted queues afterwards, which still
-- share no event. The update of the time touches no event and no queue, and no event of an
-- open connection has the number of a sentinel.
pub poll_process_events-Queued :
    (time_update : Loop → Loop)
    → ((l : Loop) → (time_update l).events ≡ l.events)
    → ((l : Loop) → (time_update l).links ≡ l.links)
    → (ready : ℕ) (bits : ℕ → PollBits) (timer : ℕ) (update_time alarm : Bool) (s : Poll)
    → IsValid s
    → HasEvents s
    → IsQueued s.loop
    → 0 < ready
    → count_reported (with_revents bits s).entries 0 s.n ≤ ready
    → (c : ℕ) (d : Direction) → IsRegistered s c d
    → (s.loop.events (event_of s c d)).active ≡ true
    → reported (bits (idx_of s c d)) d ≡ true
    → let done =
        (poll_process_events time_update (returned ready bits) timer update_time alarm s).state in
      ((done.loop.events (event_of s c d)).ready ≡ true)
      × (xs : List ℕ) × (ys : List ℕ) × Queued done.loop xs ys
      × ((has (event_of s c d) xs || has (event_of s c d) ys) ≡ true)
poll_process_events-Queued time_update keeps keeps' ready bits timer update_time alarm s v h k some_
      room c d reg a r =
    let marked =
      (poll_process_events-IsMarked time_update keeps ready bits timer update_time alarm s v some_
        room c d reg a r).1 in
    let (xs, ys, q) =
      poll_process_events-IsQueued time_update keeps keeps' (returned ready bits) timer update_time
        alarm s h k in
    (marked.0, xs, ys, q, sym (q.flags (event_of s c d)) ∙ marked.1)
