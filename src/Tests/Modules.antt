-- ===== src/Tests/Modules.antt =====
-- The setup of the event and http modules.
use lingx.Base.{
  ℕ, ◌≡◌, refl, ◌≢◌, Bool, false, Option, none, some, List, [], ◌∷◌, arith, ◌==◌, if◌then◌else◌,
}
use lingx.Conf.Directives.{conf_ok, conf_error, Module}
use lingx.Cycle.Connections.{Connection}
use lingx.Cycle.Modules.{unassigned, taken, free_index, count_loop, count_modules}
use lingx.Cycle.Modules.Indices.{Unique}
use lingx.Events.Setup.{
  create_confs, init_confs, block_done, event_module, EventConf, EventHooks, out_of_bounds,
  events_block, default_connections, event_core_create_conf, choose, event_core_init_conf,
  used_module, exit_two, event_core_process_init,
}
use lingx.Events.Setup.Choice.{events_block-InBounds, event_core_init_conf-choose}
use lingx.Http.{
  http_module, HttpCtx, HttpHooks, http_done, http_wild, Parser, preconfigure, http_block,
}
use lingx.Http.Core.{core_hooks, http_core_server}
use lingx.Http.Core.Rejected.{has_http, http_block-conf_error}
use lingx.Queue.{Links}
use lingx.Http as Http

abbrev core_event : Module
core_event = record { type = event_module; index = 5; ctx_index = unassigned; commands = [] }

abbrev poll_event : Module
poll_event = record { type = event_module; index = 6; ctx_index = unassigned; commands = [] }

abbrev two_events : List Module
two_events = core_event ∷ poll_event ∷ []

abbrev is_core_event : Module → Bool
is_core_event m = m.index == 5

abbrev indexed : List Module
indexed = record core_event { ctx_index = 0 } ∷ record poll_event { ctx_index = 1 } ∷ []

two_events-indexed : count_modules event_module false two_events ≡ (indexed, 2)
unfolding count_modules count_loop free_index taken
two_events-indexed = refl

two_events-Unique : Unique event_module two_events
unfolding taken
two_events-Unique = (refl, (refl, tt))

abbrev event_hooks : EventHooks ℕ
event_hooks = record {
  create_conf = λ m. if m.index == 5 then some (some 1) else none;
  init_conf = λ m. none;
}

events_block-InBounds_example :
    events_block event_hooks (λ slots. (conf_ok, slots)) false false two_events [] ≢ out_of_bounds
events_block-InBounds_example =
    events_block-InBounds event_hooks (λ slots. (conf_ok, slots)) false false two_events []
      two_events-Unique

events_block_runs :
    events_block event_hooks (λ slots. (conf_ok, slots)) false false two_events []
    ≡ block_done conf_ok indexed (some 1 ∷ none ∷ [])
unfolding events_block create_confs init_confs count_modules count_loop free_index taken
events_block_runs = refl

abbrev counted : List Module
counted = (count_modules event_module false two_events).0

event_core_init_conf-choose_example :
    (ecf : EventConf) × (event_core_init_conf is_core_event counted event_core_create_conf
      ≡ some ecf)
    × (ecf.connections ≡ default_connections)
    × (used_module ecf.use_ counted ≡ some (record poll_event { ctx_index = 1 }))
    × ((actions_init : Module → Bool) (fd_event : Bool) (rlimit : Option ℕ) (links : Links)
          (cs : ℕ → Connection)
        → actions_init (record poll_event { ctx_index = 1 }) ≡ false
        → event_core_process_init actions_init fd_event rlimit counted ecf links cs ≡ exit_two)
unfolding count_modules count_loop free_index taken choose
event_core_init_conf-choose_example =
    event_core_init_conf-choose is_core_event false two_events two_events-Unique (omega arith)
      (record poll_event { ctx_index = 1 }) refl

abbrev http_core : Module
http_core = record { type = http_module; index = 9; ctx_index = unassigned; commands = [] }

abbrev no_ctx : HttpCtx ℕ
no_ctx = record { main_conf = none; srv_conf = none; loc_conf = none }

abbrev accept_block : Parser ℕ
accept_block ctx = (conf_ok, ctx)

http_block-conf_error_example :
    (ctx : HttpCtx ℕ) × (http_block core_hooks accept_block false false
        (core_event ∷ http_core ∷ [])
        no_ctx
      ≡ http_done conf_error ctx)
unfolding count_modules count_loop free_index taken has_http
http_block-conf_error_example =
    http_block-conf_error accept_block false (core_event ∷ http_core ∷ []) no_ctx (refl, (refl, tt))
      refl

-- Hooks that give configurations.
abbrev full_hooks : HttpHooks ℕ
full_hooks = record core_hooks {
  create_main_conf = λ m. some (some 1);
  create_srv_conf = λ m. some (some 2);
  create_loc_conf = λ m. some (some 3);
}

abbrev server_ctx : HttpCtx ℕ
server_ctx = record {
  main_conf = some (some 1 ∷ []);
  srv_conf = some (some 2 ∷ []);
  loc_conf = some (some 3 ∷ []);
}

-- Without a location configuration the block is accepted; with one, the array that is not there is
-- used. The server block makes that array.
http_block_runs :
    (http_block
        (record full_hooks { create_loc_conf = λ m. none })
        accept_block
        false
        false
        (http_core ∷ [])
        no_ctx
      ≡ http_done conf_ok (record {
        main_conf = some (some 1 ∷ []);
        srv_conf = some (some 2 ∷ []);
        loc_conf = none;
      }))
    × (http_block full_hooks accept_block false false (http_core ∷ []) no_ctx ≡ http_wild)
    × (http_core_server full_hooks accept_block 1 0
          (record http_core { ctx_index = 0 } ∷ [])
          (record no_ctx { main_conf = some (some 1 ∷ []) })
          []
        ≡ record { result = http_done conf_ok server_ctx; servers = server_ctx ∷ [] })
unfolding http_block http_core_server Http.create_confs Http.init_confs Http.store_conf preconfigure
    count_modules count_loop free_index taken
http_block_runs = (refl, refl, refl)
