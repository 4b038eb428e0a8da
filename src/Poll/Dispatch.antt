-- ===== src/Poll/Dispatch.antt =====
-- No event that poll() reports is lost: the loop over the entries ends early only when all reported
-- entries are found, and what is found is marked ready and posted.
pub mod Marks
pub mod Queues
use lingx.Base.{
  ℕ, zero, suc, ◌+◌, ◌≤◌, ◌<◌, ◌≡◌, refl, ap, ◌∙◌, inl, inr, Bool, true, ◌&&◌, ◌||◌, some, arith,
  ◌==◌, if◌then◌else◌, Bool-cases,
}
use lingx.Events.{Loop, enqueue, post_event}
use lingx.Poll.{Direction, pollin, pollout, PollBits, PollFd, Conn, Poll, event_at, event_of}
use lingx.Poll.Process.{reported, notify_if, visit_open, visit_conn, visit_fd, visit}

-- The event is ready and in a posted queue.
abbrev pub IsMarked : Poll → ℕ → Type 0
IsMarked s ev = ((s.loop.events ev).ready ≡ true) × ((s.loop.events ev).posted ≡ true)

-- What the loop leaves as it is, and what it only adds to.
record Kept (s s' : Poll) : Type 0 where
  entries_kept : s'.entries ≡ s.entries
  n_kept : s'.n ≡ s.n
  conns_kept : s'.conns ≡ s.conns
  files_kept : s'.files ≡ s.files
  active_kept : (ev : ℕ) → (s'.loop.events ev).active ≡ (s.loop.events ev).active
  marks_kept : (ev : ℕ) → IsMarked s ev → IsMarked s' ev

active-post_event :
    (s : Loop) (ev q x : ℕ) → ((post_event s ev q).events x).active ≡ (s.events x).active
unfolding post_event enqueue
active-post_event s ev q x = ground arith

notify_if-Kept : (b : Bool) (s : Poll) (ev q : ℕ) → Kept s (notify_if b s ev q)
unfolding notify_if post_event enqueue
notify_if-Kept b s ev q = record {
  entries_kept = refl;
  n_kept = refl;
  conns_kept = refl;
  files_kept = refl;
  active_kept = λ x. ground arith;
  marks_kept = λ x m. ground arith;
}

notify_if-IsMarked : (b : Bool) (s : Poll) (ev q : ℕ) → b ≡ true → IsMarked (notify_if b s ev q) ev
unfolding notify_if post_event enqueue
notify_if-IsMarked b s ev q e = ground arith

Kept-trans : (s s' s'' : Poll) → Kept s s' → Kept s' s'' → Kept s s''
Kept-trans s s' s'' k l = record {
  entries_kept = l.entries_kept ∙ k.entries_kept;
  n_kept = l.n_kept ∙ k.n_kept;
  conns_kept = l.conns_kept ∙ k.conns_kept;
  files_kept = l.files_kept ∙ k.files_kept;
  active_kept = λ x. l.active_kept x ∙ k.active_kept x;
  marks_kept = λ x m. l.marks_kept x (k.marks_kept x m);
}

-- Some bit is reported.
unfoldable pub is_reported : PollBits → Bool
is_reported b = reported b pollin || reported b pollout

both : (a x : Bool) → a ≡ true → x ≡ true → a && x ≡ true
both a x h k = rw (h, k) refl

-- A visit of an open entry: both events that are active and reported are marked.
module _ (s : Poll) (c : ℕ) (b : PollBits) where
  visit_open-Kept : Kept s (visit_open s c b).0
  unfolding visit_open
  visit_open-Kept = Kept-trans s _ _ (notify_if-Kept _ s _ _) (notify_if-Kept _ _ _ _)

  visit_open-found : (visit_open s c b).1 ≡ true → is_reported b ≡ true
  unfolding visit_open is_reported
  visit_open-found h = ground (arith, h)

  visit_open-IsMarked :
      (d : Direction)
      → reported b d ≡ true
      → (s.loop.events (event_of s c d)).active ≡ true
      → IsMarked (visit_open s c b).0 (event_of s c d)
  unfolding visit_open
  visit_open-IsMarked pollin h a =
      (notify_if-Kept _ _ _ _).marks_kept (event_of s c pollin)
        (notify_if-IsMarked _ s (event_of s c pollin) _ (both _ _ h a))
  visit_open-IsMarked pollout h a =
      notify_if-IsMarked _ _ (event_of s c pollout) _
        (both _ _ h ((notify_if-Kept _ s _ _).active_kept (event_of s c pollout) ∙ a))

-- Each entry in use is that of an open connection.
abbrev pub AllOpen : (ℕ → PollFd) → ℕ → (ℕ → Conn) → (ℕ → ℕ) → Type 0
AllOpen es n conns files =
    (i : ℕ)
    → i < n
    → (f : ℕ) × (g : ℕ) × ((es i).fd ≡ some f) × ((conns (files f)).conn_fd ≡ some g)

visit-open :
    (s : Poll) (i f g : ℕ)
    → (s.entries i).fd ≡ some f
    → (s.conns (s.files f)).conn_fd ≡ some g
    → visit s i ≡ visit_open s (s.files f) (s.entries i).revents
unfolding visit visit_fd visit_conn
visit-open s i f g q r = ap (visit_fd s i) q ∙ ap (visit_conn s i (s.files f)) r

-- How many of `k` entries from `i` on are reported.
unfoldable pub count_reported : (ℕ → PollFd) → ℕ → ℕ → ℕ
count_reported es i zero = 0
count_reported es i (suc k) =
    (if is_reported (es i).revents then 1 else 0) + count_reported es (i + 1) k

count_reported_pos :
    (es : ℕ → PollFd) (i k j : ℕ)
    → i ≤ j
    → j < i + k
    → is_reported (es j).revents ≡ true
    → 0 < count_reported es i k
unfolding count_reported
count_reported_pos es i zero j le lt h = absurd (omega arith)
count_reported_pos es i (suc k) j le lt h = elim (Bool-cases (i == j)) [
  | inl e ↦ let same : i ≡ j = ground arith in rw (same, h) (omega arith)
  | inr e ↦
      let rest = count_reported_pos es (i + 1) k j (ground arith) (omega arith) h in omega arith
]

-- The event is that of an entry from `i` on that reports its direction.
abbrev pub Pending : (ℕ → PollFd) → ℕ → (ℕ → Conn) → (ℕ → ℕ) → ℕ → ℕ → Type 0
Pending es n conns files i ev =
    (j : ℕ) × (d : Direction) × (f : ℕ) × (i ≤ j)
    × (j < n)
    × ((es j).fd ≡ some f)
    × (ev ≡ event_at (conns (files f)) d)
    × (reported (es j).revents d ≡ true)

reported-is_reported : (b : PollBits) (d : Direction) → reported b d ≡ true → is_reported b ≡ true
unfolding is_reported
reported-is_reported b pollin h = rw h refl
reported-is_reported b pollout h = rw h (ground arith)
