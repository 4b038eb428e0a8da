-- ===== src/Log/Setup.antt =====
-- How a cycle gets its logs: `Log_set_log`, `Error_log` and `Init_new_log` of src/lingx/core/log.cc,
-- `Cycle::log_open_default_` and `Cycle::log_redirect_stderr` of src/lingx/core/cycle.cc. What open()
-- returns for a name is an argument, and so is the path of the default log, which the build sets.
use lingx.Base.{
  ℕ, Bool, true, false, not, ◌||◌, Option, none, some, List, [], ◌∷◌, ◌++◌, ◌==◌, if◌then◌else◌,
  ◌>>=◌, take,
}
use lingx.Conf.Directives.{bytes_eq}
use lingx.Log.{Log, insert, get_file_log}
use lingx.Log.Files.{OpenFile, log_open_file}
use lingx.Log.Levels.{bytes, set_levels}
use lingx.Path.{empty, tail_separator, is_relative}
use mathlib.Core.Option as Opt
pub mod Complete

-- Of a cycle: `new_log_`, the logs behind it, `log_use_stderr_` and `open_files_`.
pub record LogState : Type 0 where
  pub head : Log
  pub rest : List Log
  pub use_stderr : Bool
  pub files : List OpenFile

abbrev pub no_logs : LogState
no_logs = record {
  head = record { level = 0; file = none };
  rest = [];
  use_stderr = false;
  files = [];
}

-- The head and what hangs behind it, from the chain that `Log_insert` leaves, which is not empty.
abbrev pub with_chain : List Log → LogState → LogState
with_chain [] s = s
with_chain (log ∷ logs) s = record s { head = log; rest = logs }

abbrev pub fd_of_file : Option OpenFile → Option ℕ
fd_of_file none = none
fd_of_file (some f) = some f.fd

-- The call of `log_open_file` in `set_file`: the descriptor of the log, and the open files.
unfoldable pub open_log : List ℕ → (List ℕ → Option ℕ) → List ℕ → LogState → Option ℕ × LogState
open_log prefix opens name s =
    let o = log_open_file prefix opens name s.files in
    (fd_of_file o.file, record s { files = o.files })

-- The tests of the first word: none for an error.
unfoldable pub set_log_file :
    List ℕ → (List ℕ → Option ℕ) → List ℕ → LogState → Option (Option ℕ × LogState)
unfolding open_log
set_log_file prefix opens value s =
    let before = take 7 value in
    if bytes_eq value (bytes "stderr")
    then some (open_log prefix opens [] (record s { use_stderr = true }))
    else if bytes_eq before (bytes "memory:") || bytes_eq before (bytes "syslog:")
    then none
    else some (open_log prefix opens value s)

-- The new log is the head if that has no level yet, or else it is inserted.
unfoldable pub place_log : Log → LogState → LogState
place_log new s =
    if s.head.level == 0 then record s { head = new } else with_chain (insert new s.head s.rest) s

-- `Log_set_log` for the head `new_log_`, as `Error_log` calls it: none is CONF_ERROR, with which the
-- cycle is dropped.
unfoldable pub log_set_log :
    List ℕ → (List ℕ → Option ℕ) → List ℕ → List (List ℕ) → LogState → Option LogState
unfolding set_log_file place_log
log_set_log prefix opens value words s = do
  opened ← set_log_file prefix opens value s
  level ← set_levels words
  some (place_log (record { level = level; file = opened.0 }) opened.1)

abbrev pub log_error_level : ℕ
log_error_level = 4

-- Something is built only if there is no file log.
abbrev pub if_no_file : Option Log → LogState → LogState → LogState
if_no_file (some log) s built = s
if_no_file none s built = built

unfoldable pub log_open_default : List ℕ → List ℕ → (List ℕ → Option ℕ) → LogState → LogState
unfolding open_log place_log
log_open_default error_log_path prefix opens s =
    let opened = open_log prefix opens error_log_path s in
    let new : Log = record { level = log_error_level; file = opened.0 } in
    if_no_file (get_file_log (s.head ∷ s.rest)) s (place_log new opened.1)

-- `dup2_ok` says whether dup2() succeeds. None is the null pointer of a head without a file.
unfoldable pub log_redirect_stderr : Bool → LogState → Option Bool
log_redirect_stderr dup2_ok s =
    if s.use_stderr
    then some true
    else Opt.map (λ fd. if not (fd == 2) then dup2_ok else true) s.head.file

-- The log of the start, before there is a cycle.
unfoldable pub init_new_log : List ℕ → List ℕ → (List ℕ → Option ℕ) → Log × List ℕ
init_new_log error_log_path prefix opens =
    let path =
      (if is_relative error_log_path then tail_separator prefix else []) ++ error_log_path in
    if empty error_log_path then (record { level = 6; file = some 2 }, []) else elim (opens path) [
      | some fd ↦ (record { level = 6; file = some fd }, path)
      | none ↦ (record { level = 6; file = some 2 }, [])
    ]
