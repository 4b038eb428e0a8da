-- ===== src/Io/Open.antt =====
-- `File::open` and `File::close` of src/lingx/core/file.cc, and `OpenFile::open` and
-- `OpenFile::close` of src/lingx/core/open_file.cc. What the system calls return is an argument, a
-- descriptor of -1 is none; `held` are the descriptors that an object has opened and not closed.
use lingx.Base.{
  ℕ, ◌≡◌, refl, sym, ap, ◌∙◌, Bool, true, not, ◌&&◌, Option, none, some, List, [], ◌∷◌, arith, ◌==◌,
  if◌then◌else◌, if_cases, is_empty,
}
use mathlib.Core.Path.{subst}

pub record File : Type 0 where
  pub fd : Option ℕ
  pub name : List ℕ

-- The file, and the result.
unfoldable pub file_open : Option ℕ → List ℕ → File → File × Option ℕ
file_open none name f = (record f { fd = none }, none)
file_open (some d) name f = (record f { fd = some d; name = name }, some d)

-- The file, and whether the result is 0; `is_ok` is what close() returns.
unfoldable pub file_close : Bool → Option ℕ → File → File × Bool
file_close is_ok none f = (f, true)
file_close is_ok (some d) f = (if is_ok then record f { fd = none } else f, is_ok)

-- An `OpenFile`, which is shared and outlives the calls.
pub record Shared : Type 0 where
  pub file : File
  pub held : List ℕ

abbrev pub stderr_fd : ℕ
stderr_fd = 2

unfoldable pub keep_open : Option ℕ → Shared → Shared
keep_open none s = s
keep_open (some d) s = record s { file = record s.file { fd = some d }; held = d ∷ s.held }

unfoldable pub open_file_open : Option ℕ → Option ℕ → Shared → Shared
open_file_open got none s = if is_empty s.file.name then s else keep_open got s
open_file_open got (some d) s = s

abbrev pub without : ℕ → List ℕ → List ℕ
without d [] = []
without d (x ∷ xs) = if x == d then xs else x ∷ without d xs

unfoldable pub open_file_close : Bool → Option ℕ → Shared → Shared
open_file_close is_ok none s = s
open_file_close is_ok (some d) s =
    if not (d == stderr_fd) && is_ok
    then record s { file = record s.file { fd = none }; held = without d s.held }
    else s

-- Calls in any order, with what open() and close() return.
pub data Call : Type 0 where
  opens : Option ℕ → Call
  closes : Bool → Call

unfoldable pub call : Call → Shared → Shared
call (opens got) s = open_file_open got s.file.fd s
call (closes is_ok) s = open_file_close is_ok s.file.fd s

unfoldable pub calls : List Call → Shared → Shared
calls [] s = s
calls (c ∷ cs) s = calls cs (call c s)

-- What is held is the descriptor of the object, if it has one.
abbrev pub Holds : Option ℕ → Shared → Type 0
Holds none s = (s.file.fd ≡ none) × (s.held ≡ [])
Holds (some d) s = (s.file.fd ≡ some d) × (s.held ≡ d ∷ [])

abbrev pub IsTight : Shared → Type 0
IsTight s = (o : Option ℕ) × Holds o s

without_self : (d : ℕ) → without d (d ∷ []) ≡ []
without_self d = ground arith

open_file_open-IsTight :
    (got o : Option ℕ) (s : Shared) → Holds o s → IsTight (open_file_open got o s)
unfolding open_file_open keep_open
open_file_open-IsTight none none s t =
    if_cases IsTight (is_empty s.file.name) (λ e. (none, t)) (λ e. (none, t))
open_file_open-IsTight (some d) none s t =
    if_cases IsTight (is_empty s.file.name) (λ e. (none, t)) (λ e. (some d, (refl, ap (◌∷◌ d) t.1)))
open_file_open-IsTight got (some d) s t = (some d, t)

open_file_close-IsTight :
    (is_ok : Bool) (o : Option ℕ) (s : Shared) → Holds o s → IsTight (open_file_close is_ok o s)
unfolding open_file_close
open_file_close-IsTight is_ok none s t = (none, t)
open_file_close-IsTight is_ok (some d) s t =
    if_cases IsTight (not (d == stderr_fd) && is_ok)
      (λ e. (none, (refl, ap (without d) t.1 ∙ without_self d))) (λ e. (some d, t))

Holds-fd : (o : Option ℕ) (s : Shared) → Holds o s → s.file.fd ≡ o
Holds-fd none s t = t.0
Holds-fd (some d) s t = t.0

call-IsTight : (c : Call) (s : Shared) (o : Option ℕ) → Holds o s → IsTight (call c s)
unfolding call
call-IsTight (opens got) s o t =
    subst (λ p. IsTight (open_file_open got p s)) (sym (Holds-fd o s t))
      (open_file_open-IsTight got o s t)
call-IsTight (closes is_ok) s o t =
    subst (λ p. IsTight (open_file_close is_ok p s)) (sym (Holds-fd o s t))
      (open_file_close-IsTight is_ok o s t)

-- After any calls of `open` and `close`, what an `OpenFile` has opened and not closed is the one
-- descriptor that it stores, or nothing: none is lost by a second `open`, closed twice or closed by a
-- failure.
pub calls-IsTight : (cs : List Call) (s : Shared) → IsTight s → IsTight (calls cs s)
unfolding calls
calls-IsTight [] s t = t
calls-IsTight (c ∷ cs) s t = calls-IsTight cs (call c s) (call-IsTight c s t.0 t.1)
