-- ===== src/Events/Timers.antt =====
-- The timers: how long to wait, and which handlers run when the time has come.
use lingx.Base.{
  ℕ, zero, suc, ◌+◌, ◌-◌, ◌^◌, ◌<◌, ◌≡◌, refl, ap, ◌∙◌, inl, inr, Option, some, List, [], ◌∷◌,
  arith, ltb, if◌then◌else◌, ltb→lt, Bool-cases, length,
}
use lingx.Events.{
  Loop, Handler, two_64, clamp_signed, sub_64, find_timer, fire, expire_timers, first_timer,
  expire_step,
}

-- The set is ordered by its keys, which are distinct.
abbrev pub Ordered : (ℕ → ℕ) → List ℕ → Type 0
Ordered key [] = Unit {0}
Ordered key (ev ∷ []) = Unit {0}
Ordered key (ev ∷ ev' ∷ rest) = (key ev < key ev') × Ordered key (ev' ∷ rest)

abbrev pub AllAbove : (ℕ → ℕ) → ℕ → List ℕ → Type 0
AllAbove key now [] = Unit {0}
AllAbove key now (ev ∷ rest) = (now < key ev) × AllAbove key now rest

clamp_near :
    (k now : ℕ)
    → k < now + 9223372036854775808
    → now < k + 9223372036854775808
    → now < two_64
    → k < two_64
    → clamp_signed (sub_64 k now) ≡ k - now
unfolding clamp_signed
clamp_near k now h h' b b' = ground arith

-- Within 2^63 milliseconds of the clock, the timeout is the time that is left for the timer with
-- the least key, and 0 if that has passed; without a timer it is infinite.
pub find_timer_lem :
    (s : Loop) (ev : ℕ) (rest : List ℕ)
    → s.timers ≡ ev ∷ rest
    → (s.events ev).key < s.current_msec + 2 ^ 63
    → s.current_msec < (s.events ev).key + 2 ^ 63
    → s.current_msec < two_64
    → (s.events ev).key < two_64
    → find_timer s ≡ (s.events ev).key - s.current_msec
unfolding find_timer
find_timer_lem s ev rest e near near' b b' =
    ap (first_timer s) e ∙ clamp_near _ _ (omega arith) (omega arith) b b'

-- The handlers of the expired timers, in the order of their keys.
unfoldable pub run_expired : Handler → (ℕ → ℕ) → ℕ → Loop → List ℕ → Loop
run_expired handler key now s [] = s
run_expired handler key now s (ev ∷ rest) =
    if ltb now (key ev) then s else run_expired handler key now (handler ev (fire s ev rest)) rest

unfoldable pub pending : (ℕ → ℕ) → ℕ → List ℕ → List ℕ
pending key now [] = []
pending key now (ev ∷ rest) = if ltb now (key ev) then ev ∷ rest else pending key now rest

-- What the loop looks at.
pub record Sees (s : Loop) (key : ℕ → ℕ) (now : ℕ) (timers : List ℕ) : Type 0 where
  pub keys : (ev : ℕ) → (s.events ev).key ≡ key ev
  pub clock : s.current_msec ≡ now
  pub set : s.timers ≡ timers

fire-Sees :
    (s : Loop) (key : ℕ → ℕ) (now ev : ℕ) (rest : List ℕ)
    → Sees s key now (ev ∷ rest)
    → Sees (fire s ev rest) key now rest
unfolding fire
fire-Sees s key now ev rest v = record {
  keys = λ e. ground (arith, v.keys e, v.keys ev);
  clock = v.clock;
  set = refl;
}

Ordered-AllAbove :
    (key : ℕ → ℕ) (now ev : ℕ) (rest : List ℕ)
    → now < key ev
    → Ordered key (ev ∷ rest)
    → AllAbove key now (ev ∷ rest)
Ordered-AllAbove key now ev [] h o = (h, tt)
Ordered-AllAbove key now ev (ev' ∷ rest) h o =
    (h, Ordered-AllAbove key now ev' rest (omega arith) o.1)

Ordered-tail : (key : ℕ → ℕ) (ev : ℕ) (rest : List ℕ) → Ordered key (ev ∷ rest) → Ordered key rest
Ordered-tail key ev [] o = tt
Ordered-tail key ev (ev' ∷ rest) o = o.1

-- What is left of an ordered set of timers lies above the clock, all of it.
pending-AllAbove :
    (key : ℕ → ℕ) (now : ℕ) (timers : List ℕ)
    → Ordered key timers
    → AllAbove key now (pending key now timers)
unfolding pending
pending-AllAbove key now [] o = tt
pending-AllAbove key now (ev ∷ rest) o = elim (Bool-cases (ltb now (key ev))) [
  | inl e ↦ rw e (Ordered-AllAbove key now ev rest (ltb→lt _ _ e) o)
  | inr e ↦ rw e (pending-AllAbove key now rest (Ordered-tail key ev rest o))
]

expire_timers-step :
    (handler : Handler) (fuel : ℕ) (s : Loop) (timers : List ℕ)
    → s.timers ≡ timers
    → expire_timers handler (suc fuel) s ≡ expire_step (expire_timers handler fuel) handler s timers
unfolding expire_timers
expire_timers-step handler fuel s timers e =
    ap (expire_step (expire_timers handler fuel) handler s) e

expire_step-nil :
    (again : Loop → Option Loop) (handler : Handler) (s : Loop)
    → expire_step again handler s [] ≡ some s
unfolding expire_step
expire_step-nil again handler s = refl

expire_step-test :
    (again : Loop → Option Loop) (handler : Handler) (s : Loop) (key : ℕ → ℕ) (now ev : ℕ)
    (rest : List ℕ)
    → Sees s key now (ev ∷ rest)
    → expire_step again handler s (ev ∷ rest)
      ≡ (if ltb now (key ev) then some s else again (handler ev (fire s ev rest)))
unfolding expire_step
expire_step-test again handler s key now ev rest v =
    λ i. if ltb (v.clock i) (v.keys ev i) then some s else again (handler ev (fire s ev rest))

expire_timers_lem :
    (handler : Handler) (key : ℕ → ℕ) (now : ℕ)
    → ((ev : ℕ) (s : Loop) (timers : List ℕ)
        → Sees s key now timers
        → Sees (handler ev s) key now timers)
    → (fuel : ℕ) (s : Loop) (timers : List ℕ) → Sees s key now timers
    → length timers < fuel
    → (expire_timers handler fuel s ≡ some (run_expired handler key now s timers))
      × Sees (run_expired handler key now s timers) key now (pending key now timers)
unfolding run_expired pending
expire_timers_lem handler key now keep zero s timers v h = absurd (omega arith)
expire_timers_lem handler key now keep (suc fuel) s [] v h =
    (expire_timers-step handler fuel s [] v.set ∙ expire_step-nil _ handler s, v)
expire_timers_lem handler key now keep (suc fuel) s (ev ∷ rest) v h =
    let step =
      expire_timers-step handler fuel s (ev ∷ rest) v.set
      ∙ expire_step-test (expire_timers handler fuel) handler s key now ev rest v in
    let again =
      expire_timers_lem handler key now keep fuel (handler ev (fire s ev rest)) rest
        (keep ev _ rest (fire-Sees s key now ev rest v)) (omega arith) in
    rw step (elim (Bool-cases (ltb now (key ev))) [ inl e ↦ rw e (refl, v) | inr e ↦ rw e again ])

-- If handlers leave the timers, their keys and the clock alone, `Event_expire_timers` ends, on fuel
-- above the number of timers: it has run the handlers of the timers from the least key on up to the
-- first key above the clock, and all the timers that are left have keys above the clock.
pub expire_timers-pending :
    (handler : Handler) (key : ℕ → ℕ) (now fuel : ℕ) (s : Loop) (timers : List ℕ)
    → ((ev : ℕ) (s : Loop) (timers : List ℕ)
        → Sees s key now timers
        → Sees (handler ev s) key now timers)
    → Sees s key now timers
    → Ordered key timers
    → length timers < fuel
    → (expire_timers handler fuel s ≡ some (run_expired handler key now s timers))
      × Sees (run_expired handler key now s timers) key now (pending key now timers)
      × AllAbove key now (pending key now timers)
expire_timers-pending handler key now fuel s timers keep v o small =
    let r = expire_timers_lem handler key now keep fuel s timers v small in
    (r.0, r.1, pending-AllAbove key now timers o)
