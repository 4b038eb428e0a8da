-- ===== src/Cycle/Modules.antt =====
-- `Cycle::count_modules` and `count_module_ctx_index_` of src/lingx/core/cycle.cc. The modules are
-- shared objects, so what the loop assigns is seen by its own search: `passed` are the modules before
-- the current one. A later cycle refers to the same modules as the one before it: `shared` says that
-- the old cycle has them (the initial cycle has none).
pub mod Indices
use lingx.Base.{
  ℕ, zero, suc, ◌+◌, Bool, false, not, ◌&&◌, ◌||◌, List, [], ◌∷◌, ◌++◌, ltb, ◌==◌, if◌then◌else◌,
  length,
}
use lingx.Conf.Directives.{Module}

-- `(uint) -1`: no index was assigned.
abbrev pub unassigned : ℕ
unassigned = 4294967295

unfoldable pub taken : ℕ → ℕ → List Module → Bool
taken type i [] = false
taken type i (m ∷ ms) = ((m.type == type) && (m.ctx_index == i)) || taken type i ms

-- `again:`, with fuel; the search of the old cycle's modules is that of the same list.
unfoldable pub free_index : ℕ → ℕ → Bool → List Module → ℕ → ℕ
unfolding taken
free_index zero type shared ms i = i
free_index (suc fuel) type shared ms i =
    let again = free_index fuel type shared ms (i + 1) in
    if taken type i ms || (shared && taken type i ms) then again else i

abbrev pub max_of : ℕ → ℕ → ℕ
max_of max i = if ltb max i then i else max

pub record Counted : Type 0 where
  pub modules : List Module
  pub max : ℕ

-- The loop over `modules_`.
unfoldable pub count_loop : ℕ → Bool → ℕ → ℕ → List Module → List Module → Counted
unfolding free_index
count_loop type shared next max passed [] = record { modules = passed; max = max }
count_loop type shared next max passed (m ∷ todo) =
    let all = passed ++ m ∷ todo in
    let i = free_index (suc (length all)) type shared all next in
    let m' = record m { ctx_index = i } in
    let assigned =
      count_loop type shared (if m.ctx_index == next then next + 1 else next)
        (max_of max m.ctx_index) (passed ++ m ∷ []) todo in
    let fresh = count_loop type shared (i + 1) (max_of max i) (passed ++ m' ∷ []) todo in
    let other = count_loop type shared next max (passed ++ m ∷ []) todo in
    if not (m.type == type)
    then other
    else if not (m.ctx_index == unassigned)
    then assigned
    else fresh

unfoldable pub max_index : ℕ → ℕ → List Module → ℕ
max_index type max [] = max
max_index type max (m ∷ ms) =
    max_index type (if m.type == type then max_of max m.ctx_index else max) ms

-- The modules afterwards, and the number returned.
unfoldable pub count_modules : ℕ → Bool → List Module → List Module × ℕ
unfolding count_loop max_index
count_modules type shared ms =
    let c = count_loop type shared 0 0 [] ms in
    (c.modules, (if shared then max_index type c.max c.modules else c.max) + 1)
