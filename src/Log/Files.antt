-- ===== src/Log/Files.antt =====
-- The open files of a cycle: `Cycle::log_open_file` of src/lingx/core/cycle.cc and the class of
-- src/lingx/core/open_file.h. What open() returns for a name is an argument, none for a failure.
use lingx.Base.{ℕ, Option, none, some, List, [], ◌∷◌, ◌++◌, ◌==◌, if◌then◌else◌}
use lingx.Conf.Directives.{bytes_eq}
use lingx.Path.{empty, get_full_name}
use mathlib.Core.Option as Opt
pub mod Once
pub mod Total

pub record OpenFile : Type 0 where
  pub fd : ℕ
  pub name : List ℕ

-- A file, or none for a null pointer, and the list `open_files_` afterwards.
pub record Opened : Type 0 where
  pub file : Option OpenFile
  pub files : List OpenFile

unfoldable pub find_name : List ℕ → List OpenFile → Option OpenFile
unfolding bytes_eq
find_name fname [] = none
find_name fname (f ∷ fs) = if bytes_eq f.name fname then some f else find_name fname fs

unfoldable pub find_fd : ℕ → List OpenFile → Option OpenFile
find_fd fd [] = none
find_fd fd (f ∷ fs) = if f.fd == fd then some f else find_fd fd fs

-- `return f;` in a loop, and what stands behind the loop.
abbrev pub found_or : List OpenFile → Option OpenFile → Opened → Opened
found_or files (some f) rest = record { file = some f; files = files }
found_or files none rest = rest

abbrev pub with_file : ℕ → List ℕ → List OpenFile → Opened
with_file fd fname files =
    let f : OpenFile = record { fd = fd; name = fname } in
    record { file = some f; files = files ++ f ∷ [] }

-- Behind the test of the name.
unfoldable pub file_of_fd : ℕ → List ℕ → List OpenFile → Opened
unfolding find_fd
file_of_fd fd fname files = found_or files (find_fd fd files) (with_file fd fname files)

abbrev pub file_opened : Option ℕ → List ℕ → List OpenFile → Opened
file_opened (some fd) fname files = file_of_fd fd fname files
file_opened none fname files = record { file = none; files = files }

-- For a name that is not empty: `fd` is what open() returns.
unfoldable pub file_of_name : Option ℕ → List ℕ → List OpenFile → Opened
unfolding find_name file_of_fd
file_of_name fd fname files = found_or files (find_name fname files) (file_opened fd fname files)

unfoldable pub log_open_file : List ℕ → (List ℕ → Option ℕ) → List ℕ → List OpenFile → Opened
unfolding file_of_fd file_of_name
log_open_file prefix opens name files =
    let fname = get_full_name prefix name in
    if empty name then file_of_fd 2 [] files else file_of_name (opens fname) fname files
