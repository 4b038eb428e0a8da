-- ===== src/Start/Preinit.antt =====
-- `Preinit_modules` of src/lingx/core/module.cc: the index of each module and their number.
use lingx.Base.{
  ℕ, zero, suc, ◌+◌, ◌≡◌, refl, ap, ◌∙◌, some, List, [], ◌∷◌, arith, length, get_elem?,
}
use lingx.Conf.Directives.{Module}
use mathlib.Core.Option as Opt

unfoldable pub preinit_loop : ℕ → List Module → List Module
preinit_loop idx [] = []
preinit_loop idx (m ∷ ms) = record m { index = idx } ∷ preinit_loop (idx + 1) ms

-- The modules afterwards, and `Max_modules_n`.
unfoldable pub preinit_modules : List Module → List Module × ℕ
preinit_modules ms = (preinit_loop 0 ms, length ms)

abbrev at_index : ℕ → Module → Module
at_index i m = record m { index = i }

get_elem?-preinit_loop :
    (ms : List Module) (idx i : ℕ)
    → get_elem? (preinit_loop idx ms) i ≡ Opt.map (at_index (idx + i)) (get_elem? ms i)
unfolding preinit_loop
get_elem?-preinit_loop [] idx i = refl
get_elem?-preinit_loop (m ∷ ms) idx zero = ap (λ k. some (at_index k m)) (omega arith)
get_elem?-preinit_loop (m ∷ ms) idx (suc i) =
    get_elem?-preinit_loop ms (idx + 1) i
    ∙ ap (λ k. Opt.map (at_index k) (get_elem? ms i)) (omega arith)

-- Each module has its place in the list as its index and is else as it was, and the number of the
-- modules is that of the list.
pub preinit_modules-at_index :
    (ms : List Module) (i : ℕ)
    → (get_elem? (preinit_modules ms).0 i ≡ Opt.map (at_index i) (get_elem? ms i))
      × ((preinit_modules ms).1 ≡ length ms)
unfolding preinit_modules
preinit_modules-at_index ms i = (
  get_elem?-preinit_loop ms 0 i ∙ ap (λ k. Opt.map (at_index k) (get_elem? ms i)) (omega arith),
  refl,
)
