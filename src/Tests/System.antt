-- ===== src/Tests/System.antt =====
-- Modules and connections of a cycle, logs, and the loops around system calls.
use lingx.Base.{
  ℕ, ◌+◌, ◌≡◌, refl, inr, true, false, not, ◌&&◌, none, some, List, [], ◌∷◌, ◌++◌, arith, leb,
  if◌then◌else◌,
}
use lingx.Conf.Directives.{Module, bytes_eq}
use lingx.Cycle.Connections.{
  Connection, init_connections_events, FreeList, init_connections_events_lem,
}
use lingx.Cycle.Modules.{unassigned, taken, free_index, count_loop, max_index, count_modules}
use lingx.Cycle.Modules.Indices.{Unique, Below, count_modules_indices}
use lingx.Io.{
  Outcome, moved, failed, eintr, error_info, size, EventState, Flags, Done, received, recv_loop,
  unix_recv, Sent, unix_send, FileWritten, file_write,
}
use lingx.Io.Retries.{first_answer, is_data, Agrees, unix_recv-Agrees, data_size, unix_send-total}
use lingx.Io.Writes.{moves, WholeWritten, file_write-WholeWritten}
use lingx.Log.{Log, insert_walk, insert, get_file_log, warn, log_writes}
use lingx.Log.Chain.{Sorted, Inserted, insert-Sorted, reached, has_stderr, log_writes-reached}
use lingx.Log.Levels.{
  index_of, bytes, set_bit, outside_debug, set_level_word, set_level_words, set_levels,
  IsPlainOrDebug, set_levels-IsPlainOrDebug,
}
use lingx.Options.{
  Options, prefix_field, invalid_signal, parsed, refused, set_flag, field_of, word_eq, is_signal,
  set_field, on_letter, scan_letters, scan_argument, and_then, after_scan, get_options,
}
use lingx.Options.Core.{
  CycleNames, process_options, core_create_conf, core_init_conf, process_options-is_absolute,
}
use lingx.Options.Words.{get_options-append, get_options_glued}
use lingx.Path.{separator, back, empty, is_absolute}
use lingx.Times.{TimeState, time_update}
use lingx.Times.Slots.{Update, full, sigsafe, run_updates, IsCurrent, run_updates-keeps}

abbrev module_at : ℕ → Module
module_at i = record { type = 7; index = 0; ctx_index = i; commands = [] }

-- The first has the index 0 from a cycle before, the other two have none yet.
abbrev three_modules : List Module
three_modules = module_at 0 ∷ module_at unassigned ∷ module_at unassigned ∷ []

count_modules_runs :
    count_modules 7 true three_modules ≡ (module_at 0 ∷ module_at 1 ∷ module_at 2 ∷ [], 3)
unfolding count_modules count_loop free_index max_index taken
count_modules_runs = refl

three_modules-Unique : Unique 7 three_modules
unfolding taken
three_modules-Unique = (refl, (refl, (refl, tt)))

count_modules_indices_example :
    Unique 7 (count_modules 7 true three_modules).0
    × Below 7 (count_modules 7 true three_modules).1 (count_modules 7 true three_modules).0
count_modules_indices_example = count_modules_indices 7 true three_modules three_modules-Unique

abbrev no_connections : ℕ → Connection
no_connections i = record { data_ = none; read = 0; write = 0; fd = none }

init_connections_events_lem_example :
    FreeList
      (init_connections_events 3 no_connections).connections
      (init_connections_events 3 no_connections).free_connections
      (0 ∷ 1 ∷ 2 ∷ [])
    × ((i : ℕ)
        → (((init_connections_events 3 no_connections).read_events i).closed ≡ true)
          × (((init_connections_events 3 no_connections).write_events i).closed ≡ true))
init_connections_events_lem_example = init_connections_events_lem 3 no_connections

abbrev debug_log : Log
debug_log = record { level = 2147483632; file = some 4 }

abbrev error_log : Log
error_log = record { level = 4; file = some 2 }

abbrev info_log : Log
info_log = record { level = 7; file = some 5 }

insert_runs : insert info_log debug_log (error_log ∷ []) ≡ debug_log ∷ info_log ∷ error_log ∷ []
unfolding insert insert_walk
insert_runs = refl

insert_head_runs :
    insert debug_log info_log (error_log ∷ []) ≡ debug_log ∷ info_log ∷ error_log ∷ []
unfolding insert insert_walk
insert_head_runs = refl

abbrev two_logs-Sorted : Sorted (debug_log ∷ error_log ∷ [])
two_logs-Sorted = ((omega arith, tt), (tt, tt))

insert-Sorted_example :
    Sorted (insert info_log debug_log (error_log ∷ []))
    × Inserted info_log (debug_log ∷ error_log ∷ []) (insert info_log debug_log (error_log ∷ []))
insert-Sorted_example = insert-Sorted info_log debug_log (error_log ∷ []) two_logs-Sorted

log_writes-reached_example :
    log_writes true 5 (debug_log ∷ error_log ∷ [])
    ≡ some (
        reached 5 (debug_log ∷ error_log ∷ [])
        ++ (if true && leb 5 warn && not (has_stderr (reached 5 (debug_log ∷ error_log ∷ [])))
            then 2 ∷ []
            else []))
log_writes-reached_example =
    log_writes-reached true 5 (debug_log ∷ error_log ∷ []) two_logs-Sorted (refl, (refl, tt))

get_file_log_runs :
    get_file_log (record { level = 0; file = none } ∷ error_log ∷ []) ≡ some error_log
unfolding get_file_log
get_file_log_runs = refl

set_levels_runs : set_levels (bytes "debug_core" ∷ bytes "debug_http" ∷ []) ≡ some 272
unfolding set_levels set_level_words set_level_word index_of bytes_eq set_bit outside_debug
set_levels_runs = refl

set_levels_mixed : set_levels (bytes "info" ∷ bytes "debug_http" ∷ []) ≡ none
unfolding set_levels set_level_words set_level_word index_of bytes_eq set_bit outside_debug
set_levels_mixed = refl

set_levels-IsPlainOrDebug_run : IsPlainOrDebug 7 272
set_levels-IsPlainOrDebug_run =
    set_levels-IsPlainOrDebug (bytes "debug_core" ∷ bytes "debug_http" ∷ []) 272 set_levels_runs

abbrev two_writes : List Outcome
two_writes = moved 2 ∷ failed eintr ∷ moved 9 ∷ moved 1 ∷ []

abbrev three_bytes : List ℕ
three_bytes = 65 ∷ 66 ∷ 67 ∷ []

file_write-WholeWritten_example :
    (w : FileWritten) × (file_write two_writes three_bytes 10 0 0 ≡ some w)
    × WholeWritten three_bytes 10 0 0 w
unfolding moves
file_write-WholeWritten_example =
    file_write-WholeWritten two_writes three_bytes 10 0 0
      (omega arith, (refl, (omega arith, (omega arith, tt)))) (omega arith) (omega arith)

abbrev idle : EventState
idle = record { ready = true; eof = false; error_ = false; available = true; pending_eof = false }

abbrev poll_flags : Flags
poll_flags = record { use_epoll = false; use_greedy = false; use_epoll_rdhup = false }

unix_recv_runs :
    unix_recv poll_flags error_info 100 (failed eintr ∷ moved 20 ∷ []) idle
    ≡ some (record { rc = size 20; event = record idle { ready = false } })
unfolding unix_recv recv_loop received
unix_recv_runs = refl

unix_recv-Agrees_example :
    (d : Done) × (unix_recv poll_flags error_info 100 (failed eintr ∷ moved 20 ∷ []) idle ≡ some d)
    × Agrees error_info 100 (moved 20) idle d
unfolding first_answer
unix_recv-Agrees_example =
    unix_recv-Agrees poll_flags error_info 100 (failed eintr ∷ moved 20 ∷ []) idle (moved 20) refl

unix_send-total_run :
    (s : Sent) × (unix_send error_info 100 (failed eintr ∷ moved 20 ∷ []) idle 5 ≡ some s)
    × (s.total ≡ 5 + data_size s.rc)
    × (s.event.ready ≡ true → s.event.error_ ≡ false → is_data s.rc ≡ true)
unfolding first_answer
unix_send-total_run =
    unix_send-total error_info 100 (failed eintr ∷ moved 20 ∷ []) idle 5 (moved 20) refl

abbrev first_second : TimeState ℕ
first_second = record {
  slot = 63;
  times = λ i. record { sec = 10; msec = 0; gmtoff = 0 };
  texts = λ i. i ∷ [];
  cached_time = 63;
  cached_err_log_time = 63;
  current_msec = 10000;
  cached_gmtoff = 0;
}

abbrev local_of : ℕ → List ℕ
local_of sec = sec ∷ []

abbrev shifted_of : ℕ → ℕ → List ℕ
shifted_of sec offset = (sec + offset) ∷ []

abbrev updates : List Update
updates = full false 10 5000 ∷ full false 11 0 ∷ sigsafe false 12 ∷ full true 13 0 ∷ []

time_update_wraps :
    (time_update local_of (λ sec. 0) shifted_of false 11 7000 first_second).cached_time ≡ 0
unfolding time_update
time_update_wraps = refl

run_updates-keeps_example :
    ((run_updates local_of (λ sec. 0) shifted_of updates first_second).texts 63 ≡ 63 ∷ [])
    × IsCurrent local_of
        (λ sec. 0)
        shifted_of
        (run_updates local_of (λ sec. 0) shifted_of updates first_second)
run_updates-keeps_example =
    run_updates-keeps local_of (λ sec. 0) shifted_of updates first_second
      (omega arith, refl, inr refl) (omega arith)

abbrev no_options : Options
no_options = record {
  show_help = false;
  show_version = false;
  show_configure = false;
  test_config = false;
  quiet_mode = false;
  prefix = [];
  conf_file = [];
  conf_param = [];
  signal = [];
  signaller = false;
}

abbrev quiet_options : Options
quiet_options = record no_options { test_config = true; quiet_mode = true }

get_options_runs : get_options (bytes "-tq" ∷ []) no_options ≡ parsed quiet_options
unfolding get_options scan_argument scan_letters on_letter set_flag after_scan
get_options_runs = refl

get_options_signal :
    get_options (bytes "-s" ∷ bytes "halt" ∷ []) no_options ≡ refused invalid_signal
unfolding get_options scan_argument scan_letters on_letter set_flag field_of after_scan set_field
    is_signal word_eq and_then
get_options_signal = refl

get_options-append_run :
    get_options (bytes "-tq" ∷ bytes "-p" ∷ bytes "/srv" ∷ []) no_options
    ≡ get_options (bytes "-p" ∷ bytes "/srv" ∷ []) quiet_options
get_options-append_run =
    get_options-append (bytes "-tq" ∷ []) (bytes "-p" ∷ bytes "/srv" ∷ []) no_options quiet_options
      get_options_runs

get_options_glued_run :
    get_options (bytes "-tqp/srv" ∷ bytes "-v" ∷ []) no_options
    ≡ get_options (bytes "-tqp" ∷ bytes "/srv" ∷ bytes "-v" ∷ []) no_options
unfolding scan_letters on_letter set_flag field_of
get_options_glued_run =
    get_options_glued (bytes "tq") 112 47 (bytes "srv") (bytes "-v" ∷ []) prefix_field no_options
      quiet_options refl refl refl

abbrev srv_options : Options
srv_options = record no_options { prefix = bytes "/srv"; conf_file = bytes "conf/lingx.conf" }

abbrev no_names : CycleNames
no_names = record { cycle_prefix = []; file = []; conf_prefix = []; param = []; log_level = 6 }

process_options-is_absolute_example :
    (is_absolute (process_options srv_options no_names).cycle_prefix ≡ true)
    × (is_absolute (process_options srv_options no_names).file ≡ true)
    × (empty (process_options srv_options no_names).conf_prefix ≡ false)
    × (back (process_options srv_options no_names).conf_prefix ≡ separator)
    × ((rest : List ℕ) × ((process_options srv_options no_names).file
          ≡ (process_options srv_options no_names).conf_prefix ++ rest))
    × (is_absolute
          (core_init_conf
            (bytes "logs/lingx.pid")
            (process_options srv_options no_names)
            core_create_conf).pid_path
        ≡ true)
unfolding is_absolute
process_options-is_absolute_example =
    process_options-is_absolute srv_options no_names (bytes "logs/lingx.pid") core_create_conf refl
