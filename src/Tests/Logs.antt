-- ===== src/Tests/Logs.antt =====
-- The logs of a cycle and their files.
use lingx.Base.{ℕ, ◌≡◌, refl, ◌≢◌, Bool, true, false, Option, none, some, List, [], ◌∷◌}
use mathlib.Core.Option.{some-ne-none}
use lingx.Conf.Directives.{bytes_eq}
use lingx.Log.{get_file_log, write_loop, log_writes}
use lingx.Log.Chain.{Sorted, AllOpen}
use lingx.Log.Files.{find_name, find_fd, file_of_fd, file_of_name, log_open_file}
use lingx.Log.Files.Once.{stop, call, log_open_file-Found}
use lingx.Log.Levels.{index_of, bytes, set_level_word, set_level_words, set_levels}
use lingx.Log.Setup.{
  LogState, no_logs, open_log, set_log_file, place_log, log_set_log, log_open_default,
  log_redirect_stderr, init_new_log,
}
use lingx.Log.Setup.Complete.{Configured, nothing_read, error_log, log_open_default-AllOpen}
use lingx.Path.{back, empty, tail_separator, is_absolute, is_relative, get_full_name}

abbrev prefix : List ℕ
prefix = bytes "/srv/"

-- Every name opens as the descriptor 7.
abbrev opens_seven : List ℕ → Option ℕ
opens_seven name = some 7

abbrev opens_nothing : List ℕ → Option ℕ
opens_nothing name = none

never_none : (name : List ℕ) → opens_seven name ≢ none
never_none name = some-ne-none 7

-- A second name opens as 8, between two calls for the first.
log_open_file-Found_example :
    log_open_file prefix opens_nothing
      (bytes "a.log")
      (log_open_file prefix
        (λ name. some 8)
        (bytes "b.log")
        (log_open_file prefix opens_seven (bytes "a.log") []).files).files
    ≡ record {
      file = some (record { fd = 7; name = bytes "/srv/a.log" });
      files =
          (log_open_file prefix
            (λ name. some 8)
            (bytes "b.log")
            (log_open_file prefix opens_seven (bytes "a.log") []).files).files;
    }
unfolding log_open_file file_of_name file_of_fd get_full_name tail_separator empty back find_name
    find_fd bytes_eq
log_open_file-Found_example =
    log_open_file-Found prefix opens_seven (bytes "a.log") [] _
      (record { fd = 7; name = bytes "/srv/a.log" }) (λ k h. refl) refl
      (call (λ name. some 8) (bytes "b.log") _ stop) opens_nothing

abbrev one_log : LogState
one_log = record {
  head = record { level = 7; file = some 7 };
  rest = [];
  use_stderr = false;
  files = record { fd = 7; name = bytes "/srv/a.log" } ∷ [];
}

one_log-Configured : Configured prefix one_log
unfolding log_set_log set_log_file open_log place_log log_open_file file_of_name file_of_fd
    get_full_name tail_separator empty back find_name find_fd bytes_eq set_levels set_level_words
    set_level_word index_of
one_log-Configured =
    error_log opens_seven (bytes "a.log") (bytes "info" ∷ []) no_logs one_log never_none
      nothing_read refl

log_open_default-AllOpen_example :
    let t = log_open_default (bytes "error.log") prefix opens_seven one_log in
    Sorted (t.head ∷ t.rest)
    × AllOpen (t.head ∷ t.rest)
    × ((use_stderr : Bool) (lvl : ℕ) → log_writes use_stderr lvl (t.head ∷ t.rest) ≢ none)
    × ((dup2_ok : Bool) → log_redirect_stderr dup2_ok t ≢ none)
log_open_default-AllOpen_example =
    log_open_default-AllOpen (bytes "error.log") prefix opens_seven never_none one_log
      one_log-Configured

-- With a default log that cannot be opened, both the redirection and the first message meet a null
-- pointer.
log_open_default_fails :
    let t = log_open_default (bytes "error.log") prefix opens_nothing no_logs in
    (log_writes true 4 (t.head ∷ t.rest) ≡ none) × (log_redirect_stderr true t ≡ none)
unfolding log_open_default log_redirect_stderr open_log place_log log_open_file file_of_name
    file_of_fd get_full_name tail_separator empty back find_name find_fd bytes_eq get_file_log
    log_writes write_loop
log_open_default_fails = (refl, refl)

init_new_log_runs :
    (init_new_log (bytes "error.log") (bytes "/srv") opens_seven
      ≡ (record { level = 6; file = some 7 }, bytes "/srv/error.log"))
    × (init_new_log (bytes "error.log") (bytes "/srv") opens_nothing
        ≡ (record { level = 6; file = some 2 }, []))
unfolding init_new_log tail_separator empty back is_relative is_absolute
init_new_log_runs = (refl, refl)
