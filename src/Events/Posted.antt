-- ===== src/Events/Posted.antt =====
-- The posted queues: a flag says that an event is in one, and they are served first in, first out.
use lingx.Base.{
  ℕ, zero, suc, ◌<◌, ◌≡◌, refl, inl, inr, true, false, some, List, [], ◌∷◌, ◌++◌, arith,
  if◌then◌else◌, Bool-cases, length,
}
use lingx.Events.{Loop, Handler, enqueue, post_event, delete_posted_event, process_posted}
use lingx.Queue.{empty, Links}
use lingx.Queue.Chain.{◌∉◌}
use lingx.Queue.Ring.{IsRing, insert_tail-IsRing, remove-IsRing, empty-head-last}

-- The queue `q` holds the events `xs`.
abbrev pub Holds : Loop → ℕ → List ℕ → Type 0
Holds s q xs = IsRing s.links q xs

post_event_set : (s : Loop) (ev q : ℕ) → (s.events ev).posted ≡ true → post_event s ev q ≡ s
unfolding post_event
post_event_set s ev q e = rw e

post_event_clear :
    (s : Loop) (ev q : ℕ) → (s.events ev).posted ≡ false → post_event s ev q ≡ enqueue s ev q
unfolding post_event
post_event_clear s ev q e = rw e

enqueue_flag : (s : Loop) (ev q : ℕ) → ((enqueue s ev q).events ev).posted ≡ true
unfolding enqueue
enqueue_flag s ev q = ground arith

-- Posting an event whose flag is clear, and that the queue does not hold, puts it at the end of the
-- queue; an event whose flag is set stays where it is. Afterwards the flag is set, and posting the
-- event again changes nothing.
pub post_event_lem :
    (s : Loop) (ev q : ℕ) (xs : List ℕ)
    → Holds s q xs
    → ((s.events ev).posted ≡ false → ev ∉ q ∷ xs)
    → Holds (post_event s ev q) q (if (s.events ev).posted then xs else xs ++ ev ∷ [])
      × (((post_event s ev q).events ev).posted ≡ true)
      × (post_event (post_event s ev q) ev q ≡ post_event s ev q)
unfolding enqueue
post_event_lem s ev q xs r out = elim (Bool-cases (s.events ev).posted) [
  | inl e ↦ let same = post_event_set s ev q e in rw (same, same) (rw e r, e, refl)
  | inr e ↦ rw (post_event_clear s ev q e) (
    rw e (insert_tail-IsRing s.links q ev xs r (out e)),
    enqueue_flag s ev q,
    post_event_set (enqueue s ev q) ev q (enqueue_flag s ev q),
  )
]

-- Serving the events of `xs` in this order: the flag is cleared and the event taken out of the
-- queue, and then its handler runs.
unfoldable pub serve : Handler → Loop → List ℕ → Loop
serve handler s [] = s
serve handler s (ev ∷ xs) = serve handler (handler ev (delete_posted_event s ev)) xs

not_empty : (m : Links) (q ev : ℕ) (xs : List ℕ) → IsRing m q (ev ∷ xs) → empty m q ≡ false
not_empty m q ev xs r = elim (Bool-cases (empty m q)) [
  | inl e ↦ absurd (cc ((empty-head-last m q (ev ∷ xs) r).0.0 e))
  | inr e ↦ e
]

taken :
    (s : Loop) (q ev : ℕ) (xs : List ℕ)
    → Holds s q (ev ∷ xs)
    → Holds (delete_posted_event s ev) q xs
unfolding delete_posted_event
taken s q ev xs r = remove-IsRing s.links q ev [] xs r

-- If handlers leave the queue alone, `Event_process_posted` ends, on fuel above the number of the
-- queued events, with an empty queue, and it has served the events in their order, each once.
pub process_posted-serve :
    (handler : Handler) (q : ℕ)
    → ((ev : ℕ) (s : Loop) (xs : List ℕ) → Holds s q xs → Holds (handler ev s) q xs)
    → (fuel : ℕ) (s : Loop) (xs : List ℕ) → Holds s q xs
    → length xs < fuel
    → (process_posted handler fuel s q ≡ some (serve handler s xs))
      × Holds (serve handler s xs) q []
unfolding process_posted serve
process_posted-serve handler q keep zero s xs r h = absurd (omega arith)
process_posted-serve handler q keep (suc fuel) s [] r h =
    (rw ((empty-head-last s.links q [] r).0.1 refl), r)
process_posted-serve handler q keep (suc fuel) s (ev ∷ xs) r h =
    let facts = empty-head-last s.links q (ev ∷ xs) r in
    let more : empty s.links q ≡ false = not_empty s.links q ev xs r in
    rw (more, facts.1)
      (process_posted-serve handler q keep fuel _ xs (keep ev _ xs (taken s q ev xs r))
        (omega arith))
