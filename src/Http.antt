-- ===== src/Http.antt =====
-- The http and server blocks: src/lingx/http/http.cc and http_core_module.cc. The hooks of a module are
-- functions of the module, and the parsing of a block is an argument. An array of configurations is a
-- list, none a null pointer to one; a store through a null pointer or behind the end of an array, and
-- a null configuration that is dereferenced, are a result of their own.
pub mod Core
use lingx.Base.{
  ℕ, Bool, true, not, ◌&&◌, ◌||◌, Option, none, some, List, [], ◌∷◌, ltb, ◌==◌, if◌then◌else◌,
  length, set, replicate,
}
use lingx.Conf.Directives.{conf_ok, conf_error, Module, SetResult}
use lingx.Conf.Values.{is_duplicate}
use lingx.Cycle.Modules.{count_modules}
use lingx.Events.Setup.{is_conf_ok}
use mathlib.Core.Option as Opt

abbrev pub http_module : ℕ
http_module = 0x50545448

-- `HttpConfCtx`.
pub record HttpCtx (C : Type 0) : Type 0 where
  pub main_conf : Option (List (Option C))
  pub srv_conf : Option (List (Option C))
  pub loc_conf : Option (List (Option C))

-- Each hook none where it is null; one that makes a configuration may give a null one.
pub record HttpHooks (C : Type 0) : Type 0 where
  pub preconfiguration : Module → Option Bool
  pub create_main_conf : Module → Option (Option C)
  pub init_main_conf : Module → Option SetResult
  pub create_srv_conf : Module → Option (Option C)
  pub create_loc_conf : Module → Option (Option C)

-- A hook's configuration was stored, or a null one was, or it could not be stored.
pub data Stored (C : Type 0) : Type 0 where
  stored : HttpCtx C → Stored C
  null_conf : HttpCtx C → Stored C
  wild : Stored C

pub data HttpResult (C : Type 0) : Type 0 where
  http_done : SetResult → HttpCtx C → HttpResult C
  http_wild : HttpResult C

abbrev pub Parser : Type 0 → Type 0
Parser C = HttpCtx C → SetResult × HttpCtx C

abbrev pub is_not_false : Option Bool → Bool
is_not_false none = true
is_not_false (some b) = b

abbrev pub or_ok : Option SetResult → SetResult
or_ok none = conf_ok
or_ok (some r) = r

module _ {C : Type 0} where
  unfoldable pub store_conf : Option (List (Option C)) → ℕ → Option C → Option (List (Option C))
  store_conf none i cf = none
  store_conf (some slots) i cf = if ltb i (length slots) then some (set slots i cf) else none

  -- Behind the store: `if (... == nullptr) return CONF_ERROR;`
  abbrev pub checked : Option C → Option (HttpCtx C) → Stored C
  checked cf none = wild
  checked none (some ctx) = null_conf ctx
  checked (some c) (some ctx) = stored ctx

  abbrev pub put : Option (Option C) → HttpCtx C → (Option C → Option (HttpCtx C)) → Stored C
  put none ctx store = stored ctx
  put (some cf) ctx store = checked cf (store cf)

  abbrev pub then_store : Stored C → (HttpCtx C → Stored C) → Stored C
  then_store (stored ctx) next = next ctx
  then_store (null_conf ctx) next = null_conf ctx
  then_store wild next = wild

  abbrev pub put_main : HttpHooks C → Module → HttpCtx C → Stored C
  put_main hooks m ctx = put (hooks.create_main_conf m) ctx (λ cf.
      Opt.map (λ s. record ctx { main_conf = some s }) (store_conf ctx.main_conf m.ctx_index cf))

  abbrev pub put_srv : HttpHooks C → Module → HttpCtx C → Stored C
  put_srv hooks m ctx = put (hooks.create_srv_conf m) ctx (λ cf.
      Opt.map (λ s. record ctx { srv_conf = some s }) (store_conf ctx.srv_conf m.ctx_index cf))

  abbrev pub put_loc : HttpHooks C → Module → HttpCtx C → Stored C
  put_loc hooks m ctx = put (hooks.create_loc_conf m) ctx (λ cf.
      Opt.map (λ s. record ctx { loc_conf = some s }) (store_conf ctx.loc_conf m.ctx_index cf))

  -- The loop that makes the configurations: the first two, or all three, of each module.
  unfoldable pub create_confs : (Module → HttpCtx C → Stored C) → List Module → HttpCtx C → Stored C
  unfolding store_conf
  create_confs create [] ctx = stored ctx
  create_confs create (m ∷ ms) ctx =
      then_store (if m.type == http_module then create m ctx else stored ctx)
        (create_confs create ms)

  abbrev pub http_confs : HttpHooks C → Module → HttpCtx C → Stored C
  http_confs hooks m ctx =
      then_store (then_store (put_main hooks m ctx) (put_srv hooks m)) (put_loc hooks m)

  abbrev pub server_confs : HttpHooks C → Module → HttpCtx C → Stored C
  server_confs hooks m ctx = then_store (put_srv hooks m ctx) (put_loc hooks m)

  unfoldable pub preconfigure : HttpHooks C → List Module → Bool
  preconfigure hooks [] = true
  preconfigure hooks (m ∷ ms) =
      (not (m.type == http_module) || is_not_false (hooks.preconfiguration m))
      && preconfigure hooks ms

  -- The loop over `init_main_conf`; `Http_merge_servers_` returns CONF_OK.
  unfoldable pub init_confs : HttpHooks C → List Module → SetResult
  init_confs hooks [] = conf_ok
  init_confs hooks (m ∷ ms) =
      let r = if m.type == http_module then or_ok (hooks.init_main_conf m) else conf_ok in
      let rest = init_confs hooks ms in if is_conf_ok r then rest else r

  -- Behind the loop that makes the configurations.
  abbrev pub configured : HttpHooks C → Parser C → List Module → Stored C → HttpResult C
  configured hooks parse ms wild = http_wild
  configured hooks parse ms (null_conf ctx) = http_done conf_error ctx
  configured hooks parse ms (stored ctx) =
      let parsed = parse ctx in
      if not (preconfigure hooks ms)
      then http_done conf_error ctx
      else if not (is_conf_ok parsed.0)
      then http_done parsed.0 parsed.1
      else http_done (init_confs hooks ms) parsed.1

  -- The arrays of the block: that for the locations is not made, that for the servers twice.
  abbrev pub block_ctx : ℕ → HttpCtx C
  block_ctx n = record {
    main_conf = some (replicate n none);
    srv_conf = some (replicate n none);
    loc_conf = none;
  }

  -- `Http_block_`: `present` says that there is a configuration already, and `shared` that the old
  -- cycle has the modules too.
  unfoldable pub http_block :
      HttpHooks C → Parser C → Bool → Bool → List Module → HttpCtx C → HttpResult C
  unfolding create_confs preconfigure init_confs count_modules
  http_block hooks parse present shared ms old =
      let counted = count_modules http_module shared ms in
      if present
      then http_done is_duplicate old
      else configured hooks parse counted.0
          (create_confs (http_confs hooks) counted.0 (block_ctx counted.1))
