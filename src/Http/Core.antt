-- ===== src/Http/Core.antt =====
-- The http core module and the server block, src/lingx/http/http_core_module.cc.
pub mod Rejected
use lingx.Base.{ℕ, true, Option, none, some, List, [], ◌∷◌, ◌++◌, get_or, replicate}
use lingx.Conf.Directives.{conf_ok, conf_error, main_conf, Module}
use lingx.Http.{
  HttpCtx, HttpHooks, Stored, stored, null_conf, wild, HttpResult, http_done, http_wild, Parser,
  create_confs, server_confs,
}

-- The result of the block, and the contexts of the servers that the main configuration has.
pub record Served (C : Type 0) : Type 0 where
  pub result : HttpResult C
  pub servers : List (HttpCtx C)

module _ {C : Type 0} where
  -- The hooks of the core module: its configurations are null.
  abbrev pub core_hooks : HttpHooks C
  core_hooks = record {
    preconfiguration = λ m. some true;
    create_main_conf = λ m. some none;
    init_main_conf = λ m. some conf_ok;
    create_srv_conf = λ m. some none;
    create_loc_conf = λ m. some none;
  }

  -- An element of an array, null or behind the end as none.
  abbrev pub conf_at : Option (List (Option C)) → ℕ → Option C
  conf_at none i = none
  conf_at (some slots) i = get_or slots i none

  -- The configurations of the core module are dereferenced, the server is added, with the context that
  -- the block then fills, and the block is parsed.
  abbrev pub with_server : Parser C → List (HttpCtx C) → HttpCtx C → Option C → Option C → Served C
  with_server parse servers ctx none cmcf = record { result = http_wild; servers = servers }
  with_server parse servers ctx (some cscf) none = record { result = http_wild; servers = servers }
  with_server parse servers ctx (some cscf) (some cmcf) =
      let parsed = parse ctx in
      record { result = http_done parsed.0 parsed.1; servers = servers ++ parsed.1 ∷ [] }

  abbrev pub after_confs : Parser C → ℕ → List (HttpCtx C) → Stored C → Served C
  after_confs parse core_index servers wild = record { result = http_wild; servers = servers }
  after_confs parse core_index servers (null_conf ctx) = record {
    result = http_done conf_error ctx;
    servers = servers;
  }
  after_confs parse core_index servers (stored ctx) =
      with_server parse servers ctx (conf_at ctx.srv_conf core_index)
        (conf_at ctx.main_conf core_index)

  -- `Http_core_server_`: `max_module` is `Http_max_module`, and `outer` the context of the http block.
  unfoldable pub http_core_server :
      HttpHooks C → Parser C → ℕ → ℕ → List Module → HttpCtx C → List (HttpCtx C) → Served C
  unfolding create_confs
  http_core_server hooks parse max_module core_index ms outer servers =
      let ctx : HttpCtx C = record {
        main_conf = outer.main_conf;
        srv_conf = some (replicate max_module none);
        loc_conf = some (replicate max_module none);
      } in
      after_confs parse core_index servers (create_confs (server_confs hooks) ms ctx)
