-- ===== src/Tests/Texts.antt =====
-- Strings, error messages and paths.
use Prim.Native.Char.{code}
use Prim.Native.String.{String}
use lingx.Base.{
  ℕ, ◌≤◌, ◌≡◌, refl, ◌⊎◌, true, some, List, [], ◌∷◌, ◌++◌, arith, get_or, replicate, pos, minus_one,
}
use lingx.Errors.{strerrno}
use lingx.Errors.Bounds.{strerrno_bounds}
use lingx.Path.{separator, back, tail_separator, is_absolute, get_full_name, rfind, parent_path}
use lingx.Path.Names.{tail_separator_lem, get_full_name-is_absolute, parent_path_of_file}
use lingx.Strings.{atoi, strncpy, vslprintf}
use lingx.Strings.Number.{all_digits, decimal, atoi-decimal}
use lingx.Strings.Writes.{WritesFrom, strncpy-copied, vslprintf-WritesFrom}

abbrev codes : String → List ℕ
codes String.[] = []
codes (String.◌∷◌ c s) = code c ∷ codes s

atoi_runs : atoi (codes "012x") 3 ≡ pos 12
unfolding atoi
atoi_runs = refl

atoi_too_large : atoi (codes "2147483648") 10 ≡ minus_one
unfolding atoi
atoi_too_large = refl

atoi-decimal_example : atoi (codes "2147483647") 10 ≡ pos 2147483647
unfolding decimal all_digits
atoi-decimal_example = atoi-decimal (codes "2147483647") 10

strncpy_runs :
    strncpy (replicate 8 120) 0 (codes "Hello") 4 ≡ (codes "Hel" ++ 0 ∷ replicate 4 120, 3)
unfolding strncpy
strncpy_runs = refl

strncpy-copied_run :
    strncpy (codes "ab" ++ replicate 5 120) 2 (codes "Hello") 4 ≡ (codes "abHel" ++ 0 ∷ 120 ∷ [], 5)
strncpy-copied_run =
    strncpy-copied (codes "ab") (codes "Hello") 4 (replicate 5 120) (omega arith) (omega arith)
      (omega arith)

vslprintf-WritesFrom_run :
    WritesFrom (replicate 6 120) 1 (vslprintf (replicate 6 120) 1 5 (some (codes "Hi Chris")))
vslprintf-WritesFrom_run =
    (vslprintf-WritesFrom (replicate 6 120) 1 5 (some (codes "Hi Chris")) (omega arith)).0

abbrev garbage : List ℕ
garbage = replicate 64 120

strerrno_runs : (strerrno garbage 0 63 (codes " (2: ") (codes "No entry)")).1 ≡ 15
unfolding strerrno
strerrno_runs = refl

strerrno_bounds_example :
    (15 ≤ 63) × (get_or (strerrno garbage 0 63 (codes " (2: ") (codes "No entry)")).0 15 0 ≡ 120)
unfolding strerrno
strerrno_bounds_example =
    strerrno_bounds garbage 0 63 (codes " (2: ") (codes "No entry)") 15 (omega arith) (omega arith)

tail_separator_run :
    ((tail_separator (codes "etc") ≡ []) ⊎ (back (tail_separator (codes "etc")) ≡ separator))
    × (tail_separator (tail_separator (codes "etc")) ≡ tail_separator (codes "etc"))
    × ((tail_separator (codes "etc") ≡ codes "etc")
        ⊎ (tail_separator (codes "etc") ≡ codes "etc" ++ separator ∷ []))
tail_separator_run = tail_separator_lem (codes "etc")

get_full_name_run : is_absolute (get_full_name (codes "/etc") (codes "lingx.conf")) ≡ true
unfolding is_absolute
get_full_name_run = get_full_name-is_absolute (codes "/etc") (codes "lingx.conf") refl

parent_path_run : parent_path (codes "/etc/lingx.conf") ≡ codes "/etc"
unfolding rfind
parent_path_run =
    parent_path_of_file (codes "/et") (codes "lingx.conf") b'c' (λ e. absurd (omega arith)) refl
