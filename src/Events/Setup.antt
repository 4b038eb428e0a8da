-- ===== src/Events/Setup.antt =====
-- The setup of the event modules, src/lingx/core/event.cc: the `events` block, the configuration of the
-- event core and the start of a process. The hooks of a module are functions of the module, and
-- `is_core` says that a module is the event core; the parsing of the block, the start of an event
-- module, `Event_flags` after it and getrlimit() are arguments. An array of configurations is a list,
-- and a store behind its end is a result of its own.
pub mod Choice
use lingx.Base.{
  ℕ, Bool, true, false, not, ◌&&◌, ◌||◌, Option, none, some, List, [], ◌∷◌, ltb, ◌==◌,
  if◌then◌else◌, ◌>>=◌, length, set, replicate,
}
use lingx.Conf.Directives.{conf_ok, conf_error, Module, SetResult}
use lingx.Conf.Values.{unset, off, init_value, is_duplicate}
use lingx.Cycle.Connections.{Connection, Pool, init_connections_events}
use lingx.Cycle.Modules.{count_modules}
use lingx.Events.{accept_queue, posted_queue}
use lingx.Queue.{Links, init}

abbrev pub event_module : ℕ
event_module = 0x544e5645

-- `EventConf`; the name is that of a module.
pub record EventConf : Type 0 where
  pub connections : ℕ
  pub use_ : ℕ
  pub multi_accept : ℕ
  pub name : Option Module

-- What a hook that makes a configuration gives: null, or a configuration.
pub record EventHooks (C : Type 0) : Type 0 where
  pub create_conf : Module → Option (Option C)
  pub init_conf : Module → Option (List (Option C) → SetResult × List (Option C))

pub data BlockResult (C : Type 0) : Type 0 where
  block_done : SetResult → List Module → List (Option C) → BlockResult C
  out_of_bounds : BlockResult C

abbrev pub is_conf_ok : SetResult → Bool
is_conf_ok conf_ok = true
is_conf_ok _ = false

module _ {C : Type 0} (hooks : EventHooks C) where
  abbrev pub store_conf : List (Option C) → ℕ → Option C → Option (List (Option C))
  store_conf slots i cf = if ltb i (length slots) then some (set slots i cf) else none

  -- The loop over `create_conf`: none for a store out of bounds, or the array and whether a
  -- configuration was null, which ends the loop.
  abbrev pub created :
      Option (Option C) → Module → List (Option C) → Option (List (Option C) × Bool)
  created none m slots = some (slots, false)
  created (some none) m slots = do s ← store_conf slots m.ctx_index none; some (s, true)
  created (some (some c)) m slots = do s ← store_conf slots m.ctx_index (some c); some (s, false)

  unfoldable pub create_confs : List Module → List (Option C) → Option (List (Option C) × Bool)
  create_confs [] slots = some (slots, false)
  create_confs (m ∷ ms) slots = do
    r ←
        if m.type == event_module
        then created (hooks.create_conf m) m slots
        else some (slots, false)
    if r.1 then some r else create_confs ms r.0

  abbrev pub call_init :
      Option (List (Option C) → SetResult × List (Option C))
      → List (Option C)
      → SetResult × List (Option C)
  call_init none slots = (conf_ok, slots)
  call_init (some hook) slots = hook slots

  -- The loop over `init_conf`.
  unfoldable pub init_confs : List Module → List (Option C) → SetResult × List (Option C)
  init_confs [] slots = (conf_ok, slots)
  init_confs (m ∷ ms) slots =
      let r =
        if m.type == event_module then call_init (hooks.init_conf m) slots else (conf_ok, slots) in
      let rest = init_confs ms r.1 in if is_conf_ok r.0 then rest else r

  -- Behind the loop over `create_conf`: the block is parsed.
  abbrev pub parse_block :
      (List (Option C) → SetResult × List (Option C))
      → List Module
      → Option (List (Option C) × Bool)
      → BlockResult C
  parse_block parse ms none = out_of_bounds
  parse_block parse ms (some (slots, is_null)) =
      let parsed = parse slots in
      let inited = init_confs ms parsed.1 in
      if is_null
      then block_done conf_error ms slots
      else if not (is_conf_ok parsed.0)
      then block_done parsed.0 ms parsed.1
      else block_done inited.0 ms inited.1

  -- `Events_block_`: `present` says that there is a configuration already, and `shared` that the old
  -- cycle has the modules too.
  unfoldable pub events_block :
      (List (Option C) → SetResult × List (Option C))
      → Bool
      → Bool
      → List Module
      → List (Option C)
      → BlockResult C
  unfolding create_confs init_confs count_modules
  events_block parse present shared ms old =
      let counted = count_modules event_module shared ms in
      if present
      then block_done is_duplicate ms old
      else parse_block parse counted.0 (create_confs counted.0 (replicate counted.1 none))

-- `Events_init_conf_`: whether there is an `events` block.
unfoldable pub events_init_conf : Bool → SetResult
events_init_conf present = if present then conf_ok else conf_error

abbrev pub default_connections : ℕ
default_connections = 512

unfoldable pub event_core_create_conf : EventConf
event_core_create_conf = record {
  connections = unset;
  use_ = unset;
  multi_accept = unset;
  name = none;
}

-- The first event module but the event core.
unfoldable pub choose : (Module → Bool) → List Module → Option Module
choose is_core [] = none
choose is_core (m ∷ ms) =
    if not (m.type == event_module) || is_core m then choose is_core ms else some m

abbrev pub name_or : Option Module → Module → Option Module
name_or none m = some m
name_or (some n) m = some n

-- `Event_core_init_conf_`: none for CONF_ERROR, or the configuration. The number of connections of
-- the cycle is that of the configuration.
unfoldable pub event_core_init_conf : (Module → Bool) → List Module → EventConf → Option EventConf
unfolding choose init_value
event_core_init_conf is_core ms ecf = do
  m ← choose is_core ms
  some (record {
    connections = init_value ecf.connections default_connections;
    use_ = init_value ecf.use_ m.ctx_index;
    multi_accept = init_value ecf.multi_accept off;
    name = name_or ecf.name m;
  })

-- The module whose `init` action `Event_core_process_init_` calls.
unfoldable pub used_module : ℕ → List Module → Option Module
used_module use_ [] = none
used_module use_ (m ∷ ms) =
    if (m.type == event_module) && (m.ctx_index == use_) then some m else used_module use_ ms

-- The end of the process, ERROR, or the queues, the size of `files_`, if it was set, and the pool.
pub data InitResult : Type 0 where
  exit_two : InitResult
  init_error : InitResult
  initialised : Links → Option ℕ → Pool → InitResult

abbrev pub init_ok_of : (Module → Bool) → Option Module → Bool
init_ok_of actions_init none = true
init_ok_of actions_init (some m) = actions_init m

-- Behind the loop: `fd_event` says that `Event_flags` has USE_FD_EVENT, and `rlimit` is that of the
-- number of files, none if getrlimit() fails.
abbrev pub init_files : Bool → Option ℕ → Links → Pool → InitResult
init_files true none links pool = init_error
init_files true (some n) links pool = initialised links (some n) pool
init_files false rlimit links pool = initialised links none pool

unfoldable pub event_core_process_init :
    (Module → Bool)
    → Bool
    → Option ℕ
    → List Module
    → EventConf
    → Links
    → (ℕ → Connection)
    → InitResult
unfolding used_module init init_connections_events
event_core_process_init actions_init fd_event rlimit ms ecf links cs =
    let queues = init (init links accept_queue) posted_queue in
    if not (init_ok_of actions_init (used_module ecf.use_ ms))
    then exit_two
    else init_files fd_event rlimit queues (init_connections_events ecf.connections cs)
