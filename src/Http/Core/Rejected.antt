-- ===== src/Http/Core/Rejected.antt =====
-- No http block is accepted while the configurations of the core module are null.
use lingx.Base.{
  ℕ, ◌≡◌, refl, inl, inr, Bool, true, false, ◌||◌, Option, none, some, List, [], ◌∷◌, arith, ltb,
  ◌==◌, Bool-cases, length, set, replicate, length-replicate,
}
use lingx.Conf.Directives.{conf_error, Module}
use lingx.Cycle.Modules.{count_modules}
use lingx.Cycle.Modules.Indices.{Unique, Below, count_modules_indices}
use lingx.Http.{
  http_module, HttpCtx, Stored, stored, null_conf, wild, http_done, Parser, store_conf, put_main,
  create_confs, http_confs, configured, block_ctx, http_block,
}
use lingx.Http.Core.{core_hooks}

-- Some module of the list is an http module.
unfoldable pub has_http : List Module → Bool
has_http [] = false
has_http (m ∷ ms) = (m.type == http_module) || has_http ms

-- The outcome is a null configuration.
abbrev IsNull : {C : Type 0} → Stored C → Type 0
IsNull (stored ctx) = ⊥
IsNull (null_conf ctx) = Unit {0}
IsNull wild = ⊥

put_main-null :
    {C : Type 0} (m : Module) (ctx : HttpCtx C) (slots : List (Option C))
    → ctx.main_conf ≡ some slots
    → ltb m.ctx_index (length slots) ≡ true
    → put_main core_hooks m ctx
      ≡ null_conf (record ctx { main_conf = some (set slots m.ctx_index none) })
unfolding store_conf
put_main-null m ctx slots e lt = simp (e, lt)

create_confs-IsNull :
    {C : Type 0} (ms : List Module) (ctx : HttpCtx C) (slots : List (Option C)) (n : ℕ)
    → ctx.main_conf ≡ some slots
    → length slots ≡ n
    → Below http_module n ms
    → has_http ms ≡ true
    → IsNull (create_confs (http_confs core_hooks) ms ctx)
unfolding create_confs has_http store_conf
create_confs-IsNull [] ctx slots n e l b h = cc
create_confs-IsNull (m ∷ ms) ctx slots n e l b h = elim (Bool-cases (m.type == http_module)) [
  | inl g ↦
      let lt : ltb m.ctx_index (length slots) ≡ true = ground (arith, b.0, l) in
      rw (g, put_main-null m ctx slots e lt) tt
  | inr g ↦ rw g (create_confs-IsNull ms ctx slots n e l b.1 (ground (arith, h)))
]

IsNull-configured :
    {C : Type 0} (parse : Parser C) (ms : List Module) (o : Stored C)
    → IsNull o
    → (ctx : HttpCtx C) × (configured core_hooks parse ms o ≡ http_done conf_error ctx)
IsNull-configured parse ms (stored ctx) n = absurd n
IsNull-configured parse ms (null_conf ctx) n = (ctx, refl)
IsNull-configured parse ms wild n = absurd n

-- With the hooks of the core module, the first http block of a configuration fails, whatever stands
-- in it, and it fails before the block is parsed and before an array that is not there is used: the
-- main configuration of the first http module is null. The http modules that have an index have
-- distinct ones, and there is one.
pub http_block-conf_error :
    {C : Type 0} (parse : Parser C) (shared : Bool) (ms : List Module) (old : HttpCtx C)
    → Unique http_module ms
    → has_http (count_modules http_module shared ms).0 ≡ true
    → (ctx : HttpCtx C) × (http_block core_hooks parse false shared ms old
        ≡ http_done conf_error ctx)
unfolding http_block
http_block-conf_error parse shared ms old u h =
    let n = (count_modules http_module shared ms).1 in
    let indices = count_modules_indices http_module shared ms u in
    IsNull-configured parse (count_modules http_module shared ms).0 _ (
      create_confs-IsNull (count_modules http_module shared ms).0 (block_ctx n) (replicate n none) n
        refl (length-replicate n none) indices.1 h)
