-- ===== src/Events/Setup/Choice.antt =====
-- The configurations of the event modules have places of their own, and the module that is chosen is
-- the one that is started.
use lingx.Base.{
  ℕ, ◌≤◌, ◌<◌, ◌≡◌, refl, sym, ap, ◌∙◌, ◌≢◌, inl, inr, Bool, true, false, not, ◌&&◌, ◌||◌, Option,
  none, some, List, [], ◌∷◌, arith, ◌==◌, if◌then◌else◌, lt→ltb, Bool-cases, if_cases, ◌>>=◌,
  length, replicate, length-replicate, length-set,
}
use mathlib.Core.Option.{some-injective, some-ne-none}
use mathlib.Core.Path.{subst}
use lingx.Conf.Directives.{Module, SetResult}
use lingx.Conf.Values.{off}
use lingx.Cycle.Connections.{Connection, Pool}
use lingx.Cycle.Modules.{unassigned, taken, count_modules}
use lingx.Cycle.Modules.Indices.{Unique, Below, count_modules_indices}
use lingx.Events.Setup.{
  create_confs, block_done, parse_block, event_module, EventConf, EventHooks, BlockResult,
  out_of_bounds, is_conf_ok, created, events_block, default_connections, event_core_create_conf,
  choose, event_core_init_conf, used_module, exit_two, init_ok_of, init_files,
  event_core_process_init,
}
use lingx.Queue.{Links}

module _ {C : Type 0} (hooks : EventHooks C) where
  -- The loop ends without a store out of bounds, and keeps the length.
  abbrev InBounds : ℕ → Option (List (Option C) × Bool) → Type 0
  InBounds n none = ⊥
  InBounds n (some r) = length r.0 ≡ n

  created-InBounds :
      (o : Option (Option C)) (m : Module) (slots : List (Option C))
      → m.ctx_index < length slots
      → InBounds (length slots) (created hooks o m slots)
  created-InBounds none m slots lt = refl
  created-InBounds (some none) m slots lt =
      rw (lt→ltb m.ctx_index (length slots) lt) (length-set slots m.ctx_index none)
  created-InBounds (some (some c)) m slots lt =
      rw (lt→ltb m.ctx_index (length slots) lt) (length-set slots m.ctx_index (some c))

  then-InBounds :
      (n : ℕ) (ms : List Module) (o : Option (List (Option C) × Bool))
      → InBounds n o
      → ((s : List (Option C)) → length s ≡ n → InBounds n (create_confs hooks ms s))
      → InBounds n (o >>= λ r. if r.1 then some r else create_confs hooks ms r.0)
  then-InBounds n ms none b rest = absurd b
  then-InBounds n ms (some r) b rest = if_cases (InBounds n) r.1 (λ e. b) (λ e. rest r.0 b)

  create_confs-InBounds :
      (n : ℕ) (ms : List Module) (slots : List (Option C))
      → Below event_module n ms
      → length slots ≡ n
      → InBounds n (create_confs hooks ms slots)
  unfolding create_confs
  create_confs-InBounds n [] slots b e = e
  create_confs-InBounds n (m ∷ ms) slots b e =
      then-InBounds n ms _
        (if_cases (InBounds n) (m.type == event_module)
          (λ g.
            subst (λ k. InBounds k (created hooks (hooks.create_conf m) m slots)) e
              (created-InBounds (hooks.create_conf m) m slots (ground (arith, b.0))))
          (λ g. e))
        (λ s q. create_confs-InBounds n ms s b.1 q)

  abbrev is_done : BlockResult C → Bool
  is_done out_of_bounds = false
  is_done (block_done r ms slots) = true

  parse_block-done :
      (parse : List (Option C) → SetResult × List (Option C)) (n : ℕ) (ms : List Module)
      (o : Option (List (Option C) × Bool))
      → InBounds n o
      → is_done (parse_block hooks parse ms o) ≡ true
  parse_block-done parse n ms none b = absurd b
  parse_block-done parse n ms (some (slots, is_null)) b =
      if_cases (λ r. is_done r ≡ true) is_null (λ e. refl)
        (λ e.
          if_cases (λ r. is_done r ≡ true) (not (is_conf_ok (parse slots).0)) (λ g. refl)
            (λ g. refl))

-- If the modules that have an index have distinct ones, the `events` block never stores a
-- configuration out of the bounds of its array, whatever the hooks and the parser give.
pub events_block-InBounds :
    {C : Type 0} (hooks : EventHooks C) (parse : List (Option C) → SetResult × List (Option C))
    (present shared : Bool) (ms : List Module) (old : List (Option C))
    → Unique event_module ms
    → events_block hooks parse present shared ms old ≢ out_of_bounds
unfolding events_block
events_block-InBounds hooks parse present shared ms old u z =
    let n = (count_modules event_module shared ms).1 in
    let indices = count_modules_indices event_module shared ms u in
    let in_bounds : is_done hooks (events_block hooks parse present shared ms old) ≡ true =
      if_cases (λ r. is_done hooks r ≡ true) present (λ e. refl)
        (λ e. parse_block-done hooks parse n _ _ (
          create_confs-InBounds hooks n _ (replicate n none) indices.1
            (length-replicate n none))) in
    absurd (cc (sym in_bounds ∙ ap (is_done hooks) z))

choose-taken :
    (is_core : Module → Bool) (ms : List Module) (m : Module)
    → choose is_core ms ≡ some m
    → (m.type ≡ event_module) × (taken event_module m.ctx_index ms ≡ true)
unfolding choose taken
choose-taken is_core [] m h = absurd (some-ne-none m (sym h))
choose-taken is_core (x ∷ ms) m h = elim (Bool-cases (not (x.type == event_module) || is_core x)) [
  | inl e ↦ let (t, k) = choose-taken is_core ms m (sym (rw e refl) ∙ h) in (t, ground (arith, k))
  | inr e ↦
      let same : x ≡ m = some-injective x m (sym (rw e refl) ∙ h) in
      subst
        (λ (m : Module). (m.type ≡ event_module) × (taken event_module m.ctx_index (x ∷ ms) ≡ true))
        same (ground arith, ground arith)
]

other_index :
    (x m : Module) (ms : List Module)
    → (not (x.type == event_module)
        || x.ctx_index == unassigned
        || not (taken event_module x.ctx_index ms))
      ≡ true
    → taken event_module m.ctx_index ms ≡ true
    → m.ctx_index ≢ unassigned
    → (x.type == event_module) && (x.ctx_index == m.ctx_index) ≡ false
other_index x m ms u k ne = elim (Bool-cases (x.ctx_index == m.ctx_index)) [
  | inl e ↦
      let same : x.ctx_index ≡ m.ctx_index = ground arith in
      let k' : taken event_module x.ctx_index ms ≡ true = rw same k in ground (arith, u, k', ne)
  | inr e ↦ ground arith
]

used_module-choose :
    (is_core : Module → Bool) (ms : List Module) (m : Module)
    → Unique event_module ms
    → choose is_core ms ≡ some m
    → m.ctx_index ≢ unassigned
    → used_module m.ctx_index ms ≡ some m
unfolding used_module choose
used_module-choose is_core [] m u h ne = absurd (some-ne-none m (sym h))
used_module-choose is_core (x ∷ ms) m u h ne =
    elim (Bool-cases (not (x.type == event_module) || is_core x)) [
      | inl e ↦
          let h1 : choose is_core ms ≡ some m = sym (rw e refl) ∙ h in
          let k = (choose-taken is_core ms m h1).1 in
          rw (other_index x m ms u.0 k ne) (used_module-choose is_core ms m u.1 h1 ne)
      | inr e ↦
          let same : x ≡ m = some-injective x m (sym (rw e refl) ∙ h) in
          subst (λ (m : Module). used_module m.ctx_index (x ∷ ms) ≡ some m) same (ground arith)
    ]

taken-Below :
    (i n : ℕ) (ms : List Module) → taken event_module i ms ≡ true → Below event_module n ms → i < n
unfolding taken
taken-Below i n [] h b = cc
taken-Below i n (m ∷ ms) h b =
    let rest = λ (k : taken event_module i ms ≡ true). taken-Below i n ms k b.1 in
    ground (arith, h, b.0, rest)

init-used_module :
    (o : Option Module) (m : Module) (actions_init : Module → Bool) (fd_event : Bool)
    (rlimit : Option ℕ) (links : Links) (pool : Pool)
    → o ≡ some m
    → actions_init m ≡ false
    → (if not (init_ok_of actions_init o) then exit_two else init_files fd_event rlimit links pool)
      ≡ exit_two
init-used_module o m actions_init fd_event rlimit links pool e h = rw (e, h) refl

-- Of modules with indices from `count_modules`, fewer than 2^32 - 1 of them, the event core accepts its
-- configuration if there is an event module other than it. Then the number of connections is the
-- default, and at the start of a process the module that is used is the one that was chosen: its
-- action is called, and a failure of it ends the process.
pub event_core_init_conf-choose :
    (is_core : Module → Bool) (shared : Bool) (ms : List Module)
    → Unique event_module ms
    → (count_modules event_module shared ms).1 ≤ unassigned
    → let counted = (count_modules event_module shared ms).0 in
      (m : Module)
      → choose is_core counted ≡ some m
      → (ecf : EventConf) × (event_core_init_conf is_core counted event_core_create_conf ≡ some ecf)
        × (ecf.connections ≡ default_connections)
        × (used_module ecf.use_ counted ≡ some m)
        × ((actions_init : Module → Bool) (fd_event : Bool) (rlimit : Option ℕ) (links : Links)
              (cs : ℕ → Connection)
            → actions_init m ≡ false
            → event_core_process_init actions_init fd_event rlimit counted ecf links cs ≡ exit_two)
unfolding event_core_init_conf event_core_create_conf event_core_process_init
event_core_init_conf-choose is_core shared ms u le m h =
    let (unique, below) = count_modules_indices event_module shared ms u in
    let counted = (count_modules event_module shared ms).0 in
    let n = (count_modules event_module shared ms).1 in
    let small = taken-Below m.ctx_index n counted (choose-taken is_core counted m h).1 below in
    let used = used_module-choose is_core counted m unique h (λ z. absurd (omega (arith, small))) in
    (
      record {
        connections = default_connections;
        use_ = m.ctx_index;
        multi_accept = off;
        name = some m;
      },
      rw h refl,
      refl,
      used,
      λ actions_init fd_event rlimit links cs failed_.
          init-used_module _ m actions_init fd_event rlimit _ _ used failed_,
    )
