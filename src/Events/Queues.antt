-- ===== src/Events/Queues.antt =====
-- The two posted queues in one memory: each is a ring, they share no node, and the flag of an event
-- says whether it is in one of them.
use lingx.Base.{
  ℕ, ◌<◌, ◌≡◌, refl, sym, ◌∙◌, ◌⊎◌, inl, inr, Bool, true, false, not, ◌||◌, List, [], ◌∷◌, ◌++◌,
  arith, ◌==◌, ==_iff, Bool-cases, if_cases,
}
use mathlib.Core.Path.{subst}
use lingx.Events.{Loop, accept_queue, posted_queue, enqueue, post_event}
use lingx.Queue.{Links, insert_tail}
use lingx.Queue.Chain.{has, ◌∉◌, end_of, ne_of_not_mem, Chain-frame, LinkedIn, ne_of_mem, ne_sym}
use lingx.Queue.Ring.{IsRing, prev_of_end, insert_tail-LinkedIn, insert_tail-IsRing}
use lingx.Queue.Runs.{end_of-has, has-head}

-- No node of `xs` is one of `ys`.
abbrev pub Apart : List ℕ → List ℕ → Type 0
Apart xs ys = (c : ℕ) → has c xs ≡ true → c ∉ ys

Apart-sym : (xs ys : List ℕ) → Apart xs ys → Apart ys xs
Apart-sym xs ys a c h = elim (Bool-cases (has c xs)) [ inl e ↦ absurd (cc (a c e, h)) | inr e ↦ e ]

has-snoc : (c : ℕ) (xs : List ℕ) (x : ℕ) → has c (xs ++ x ∷ []) ≡ (has c xs || (c == x))
unfolding has
has-snoc c [] x = ground arith
has-snoc c (y ∷ xs) x = rw (has-snoc c xs x) (ground arith)

turn : (c h : ℕ) (xs : List ℕ) → has c (xs ++ h ∷ []) ≡ true → has c (h ∷ xs) ≡ true
unfolding has
turn c h xs i = ground (arith, has-snoc c xs h)

-- A ring survives an insertion into another one.
IsRing-beside :
    {m g : Links} {p x q : ℕ} (h : ℕ) (xs : List ℕ)
    → LinkedIn m g p x q
    → IsRing m h xs
    → p ∉ h ∷ xs
    → x ∉ h ∷ xs
    → q ∉ h ∷ xs
    → IsRing g h xs
unfolding has
IsRing-beside h xs l r np nx nq = record {
  chain =
      Chain-frame h xs h r.chain
        (λ c i. l.next_same c (ne_of_mem c _ (h ∷ xs) i np) (ne_of_mem c _ (h ∷ xs) i nx))
        (λ c i.
          l.prev_same c (ne_of_mem c _ (h ∷ xs) (turn c h xs i) nq)
            (ne_of_mem c _ (h ∷ xs) (turn c h xs i) nx));
  distinct = r.distinct;
}

-- The two queues, the one that gets an event first.
record Pair (m : Links) (h : ℕ) (xs : List ℕ) (k : ℕ) (ys : List ℕ) : Type 0 where
  first : IsRing m h xs
  second : IsRing m k ys
  apart : Apart (h ∷ xs) (k ∷ ys)

insert_tail-Pair :
    (m : Links) (h : ℕ) (xs : List ℕ) (k : ℕ) (ys : List ℕ) (x : ℕ)
    → Pair m h xs k ys
    → x ∉ h ∷ xs
    → x ∉ k ∷ ys
    → Pair (insert_tail m h x) h (xs ++ x ∷ []) k ys
unfolding has
insert_tail-Pair m h xs k ys x p nx ny =
    let r = p.first in
    let ends = end_of-has h xs in
    let linked =
      insert_tail-LinkedIn m h x (end_of h xs) (prev_of_end m h xs h r.chain)
        (ne_sym (ne_of_mem _ x (h ∷ xs) ends nx)) (ne_of_not_mem x h xs nx).0 in
    record {
      first = insert_tail-IsRing m h x xs r nx;
      second =
          IsRing-beside k ys linked p.second (p.apart (end_of h xs) ends) ny
            (p.apart h (has-head h xs));
      apart = λ c i. elim (Bool-cases (c == x)) [
        | inl e ↦ subst (λ z. z ∉ k ∷ ys) (sym ((==_iff c x).0 e)) ny
        | inr e ↦ p.apart c (ground (arith, has-snoc c xs x))
      ];
    }

Pair-swap : {m : Links} {h k : ℕ} {xs ys : List ℕ} → Pair m h xs k ys → Pair m k ys h xs
Pair-swap p = record { first = p.second; second = p.first; apart = Apart-sym _ _ p.apart }

-- The queues hold the events `xs` and `ys`, and the flags are those of these events.
pub record Queued (s : Loop) (xs ys : List ℕ) : Type 0 where
  pub accept_ring : IsRing s.links accept_queue xs
  pub posted_ring : IsRing s.links posted_queue ys
  pub separate : Apart (accept_queue ∷ xs) (posted_queue ∷ ys)
  pub flags : (ev : ℕ) → (s.events ev).posted ≡ (has ev xs || has ev ys)

-- `posted` is the only flag that matters.
pub Queued-same :
    (s t : Loop) (xs ys : List ℕ)
    → t.links ≡ s.links
    → ((ev : ℕ) → (t.events ev).posted ≡ (s.events ev).posted)
    → Queued s xs ys
    → Queued t xs ys
Queued-same s t xs ys l f q = record {
  accept_ring = rw l q.accept_ring;
  posted_ring = rw l q.posted_ring;
  separate = q.separate;
  flags = λ ev. f ev ∙ q.flags ev;
}

abbrev pub IsQueued : Loop → Type 0
IsQueued s = (xs : List ℕ) × (ys : List ℕ) × Queued s xs ys

outside :
    (s : Loop) (ev : ℕ) (xs ys : List ℕ)
    → 1 < ev
    → (s.events ev).posted ≡ false
    → Queued s xs ys
    → (ev ∉ accept_queue ∷ xs) × (ev ∉ posted_queue ∷ ys)
unfolding has
outside s ev xs ys big clear k =
    let none_ : (has ev xs || has ev ys) ≡ false = sym (k.flags ev) ∙ clear in
    (ground arith, ground arith)

module _ (s : Loop) (ev : ℕ) (xs ys : List ℕ) (big : 1 < ev) (clear : (s.events ev).posted ≡ false)
    (k : Queued s xs ys) where
  enqueue_accept : Queued (enqueue s ev accept_queue) (xs ++ ev ∷ []) ys
  unfolding enqueue
  enqueue_accept =
      let (nx, ny) = outside s ev xs ys big clear k in
      let p =
        insert_tail-Pair s.links accept_queue xs posted_queue ys ev
          (record { first = k.accept_ring; second = k.posted_ring; apart = k.separate }) nx ny in
      record {
        accept_ring = p.first;
        posted_ring = p.second;
        separate = p.apart;
        flags = λ d. ground (arith, has-snoc d xs ev, k.flags d);
      }

  enqueue_posted : Queued (enqueue s ev posted_queue) xs (ys ++ ev ∷ [])
  unfolding enqueue
  enqueue_posted =
      let (nx, ny) = outside s ev xs ys big clear k in
      let p =
        insert_tail-Pair s.links posted_queue ys accept_queue xs ev
          (Pair-swap (record { first = k.accept_ring; second = k.posted_ring; apart = k.separate }))
          ny nx in
      record {
        accept_ring = p.second;
        posted_ring = p.first;
        separate = Apart-sym _ _ p.apart;
        flags = λ d. ground (arith, has-snoc d ys ev, k.flags d);
      }

-- Posting an event, in a queue or not, to either of the queues keeps them.
pub post_event-IsQueued :
    (s : Loop) (ev q : ℕ)
    → 1 < ev
    → (q ≡ accept_queue) ⊎ (q ≡ posted_queue)
    → IsQueued s
    → IsQueued (post_event s ev q)
unfolding post_event
post_event-IsQueued s ev q big at_ (xs, ys, k) =
    if_cases IsQueued (not (s.events ev).posted)
      (λ e. enqueued (not_true (s.events ev).posted e) at_) (λ e. (xs, ys, k))
  where
    enqueued :
        (s.events ev).posted ≡ false
        → (q ≡ accept_queue) ⊎ (q ≡ posted_queue)
        → IsQueued (enqueue s ev q)
    enqueued clear (inl e) = rw e (xs ++ ev ∷ [], ys, enqueue_accept s ev xs ys big clear k)
    enqueued clear (inr e) = rw e (xs, ys ++ ev ∷ [], enqueue_posted s ev xs ys big clear k)

    not_true : (b : Bool) → not b ≡ true → b ≡ false
    not_true true e = sym e
    not_true false e = refl
