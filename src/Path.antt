-- ===== src/Path.antt =====
-- src/lingx/core/path.h and path.cc: file names as strings of bytes.
pub mod Names
use lingx.Base.{
  ℕ, zero, suc, ◌+◌, Bool, true, false, not, ◌&&◌, Option, none, some, List, [], ◌∷◌, ◌++◌, ◌==◌,
  if◌then◌else◌, get_or, take,
}

abbrev pub separator : ℕ
separator = b'/'

-- `path[i]`, the terminator at the end.
abbrev pub char_at : List ℕ → ℕ → ℕ
char_at s i = get_or s i 0

-- `back()`, of a string that is not empty.
unfoldable pub back : List ℕ → ℕ
back [] = 0
back (c ∷ []) = c
back (c ∷ d ∷ s) = back (d ∷ s)

unfoldable pub empty : List ℕ → Bool
empty [] = true
empty (c ∷ s) = false

unfoldable pub tail_separator : List ℕ → List ℕ
unfolding empty back
tail_separator path =
    if not (empty path) && not (back path == separator) then path ++ separator ∷ [] else path

unfoldable pub is_absolute : List ℕ → Bool
unfolding empty
is_absolute path = not (empty path) && char_at path 0 == separator

unfoldable pub is_relative : List ℕ → Bool
unfolding is_absolute
is_relative path = not (is_absolute path)

unfoldable pub get_full_name : List ℕ → List ℕ → List ℕ
unfolding tail_separator
get_full_name prefix name =
    if char_at name 0 == separator then name else tail_separator prefix ++ name

-- `rfind`: the last position that holds `c`.
unfoldable pub rfind : ℕ → List ℕ → Option ℕ
rfind c [] = none
rfind c (d ∷ s) = elim (rfind c s) [
  | some i ↦ some (suc i)
  | none ↦ if d == c then some 0 else none
]

-- `while (pos != 0 && path_[pos] == Separator) --pos;`
unfoldable pub skip_back : List ℕ → ℕ → ℕ
skip_back path zero = zero
skip_back path (suc i) = if char_at path (suc i) == separator then skip_back path i else suc i

parent_from : List ℕ → Option ℕ → List ℕ
unfolding skip_back
parent_from path none = []
parent_from path (some i) = take (skip_back path i + 1) path

unfoldable pub parent_path : List ℕ → List ℕ
unfolding rfind parent_from
parent_path path = parent_from path (rfind separator path)
