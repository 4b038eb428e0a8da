-- ===== src/Tests/Processes.antt =====
-- Signals and the pid file.
use lingx.Base.{
  ℕ, ◌+◌, ◌≡◌, refl, Bool, true, false, not, none, some, List, [], ◌∷◌, ◌++◌, arith, ◌==◌, take,
}
use lingx.Conf.Directives.{bytes_eq}
use lingx.Io.{Outcome, moved, failed, eintr}
use lingx.Io.Writes.{moves}
use lingx.Log.Levels.{bytes}
use lingx.Process.{
  Flags, process_single, process_master, sigint, sigterm, signals, signal_handler, init_signals,
  os_signal_process,
}
use lingx.Process.Cycle.{init_processes, single_process_cycle}
use lingx.Process.Cycle.Stop.{stops, iterate, single_process_cycle-stops}
use lingx.Process.Pidfile.{
  digits, print_pid, Settings, opened_content, create_pidfile, signal_process,
}
use lingx.Process.Pidfile.Roundtrip.{signal_process-create_pidfile}

abbrev ten_writes : List Outcome
ten_writes =
    failed eintr
    ∷ moved 1
    ∷ moved 1
    ∷ moved 1
    ∷ moved 1
    ∷ moved 1
    ∷ moved 1
    ∷ moved 1
    ∷ moved 1
    ∷ moved 1
    ∷ moved 1
    ∷ moved 1
    ∷ moved 1
    ∷ []

abbrev daemon : Settings
daemon = record { process_type = process_master; test_config = false; pid = 4321 }

print_pid_runs : print_pid 4321 ≡ bytes "4321" ++ 10 ∷ []
unfolding print_pid digits
print_pid_runs = refl

signal_process-create_pidfile_example :
    (c : List ℕ) × (create_pidfile daemon true ten_writes (some (bytes "999999"))
      ≡ some (record { is_ok = true; content = some c }))
    × ((kill : ℕ → ℕ → Bool) (sig : List ℕ)
        → signal_process kill sig (some (take 13 c)) ≡ os_signal_process kill sig 4321 signals)
unfolding moves
signal_process-create_pidfile_example =
    signal_process-create_pidfile daemon ten_writes (some (bytes "999999")) (omega arith) refl
      (omega arith)
      (
        refl,
        (
          omega arith,
          (
            omega arith,
            (
              omega arith,
              (
                omega arith,
                (
                  omega arith,
                  (
                    omega arith,
                    (
                      omega arith,
                      (omega arith, (omega arith, (omega arith, (omega arith, (omega arith, tt))))),
                    ),
                  ),
                ),
              ),
            ),
          ),
        ),
      )
      (omega arith)

-- `-s stop` sends SIGTERM, and `-s reload`, which the command line accepts, nothing.
os_signal_process_runs :
    (os_signal_process (λ pid signo. true) (bytes "stop") 4321 signals
      ≡ record { rc = 0; kills = (4321, 15) ∷ [] })
    × (os_signal_process (λ pid signo. true) (bytes "reload") 4321 signals
        ≡ record { rc = 1; kills = [] })
unfolding os_signal_process bytes_eq
os_signal_process_runs = (refl, refl)

-- A test of the configuration leaves the file as it is, and an empty file if there was none.
create_pidfile_test :
    (create_pidfile (record daemon { test_config = true }) true [] (some (bytes "17"))
      ≡ some (record { is_ok = true; content = some (bytes "17") }))
    × (create_pidfile (record daemon { test_config = true }) true [] none
        ≡ some (record { is_ok = true; content = some [] }))
unfolding create_pidfile opened_content
create_pidfile_test = (refl, refl)

signal_handler_runs :
    (signal_handler process_single sigint (record { terminate = false; quit = false })
      ≡ record { terminate = true; quit = false })
    × (signal_handler 2 sigterm (record { terminate = false; quit = false })
        ≡ record { terminate = false; quit = false })
unfolding signal_handler
signal_handler_runs = (refl, refl)

init_signals_fails :
    init_signals (λ signo. not (signo == 3)) signals ≡ record { is_ok = false; handled = 15 ∷ [] }
unfolding init_signals
init_signals_fails = refl

abbrev no_flags : Flags
no_flags = record { terminate = false; quit = false }

-- A SIGCHLD (17) comes in the first round, and a SIGQUIT in the third.
single_process_cycle-stops_example :
    (single_process_cycle process_single true
        (none ∷ some true ∷ [])
        (λ n. n + 1)
        ((17 ∷ []) ∷ [] ∷ [])
        no_flags
        0
      ≡ none)
    × ((after : List (List ℕ)) (signos : List ℕ)
        → stops signos ≡ true
        → single_process_cycle process_single true
            (none ∷ some true ∷ [])
            (λ n. n + 1)
            ((17 ∷ []) ∷ [] ∷ signos ∷ after)
            no_flags
            0
          ≡ some (record { code = 0; pid_file_deleted = true; state = 3 }))
unfolding stops init_processes iterate
single_process_cycle-stops_example =
    single_process_cycle-stops true (none ∷ some true ∷ []) (λ n. n + 1) no_flags 0 refl refl
      ((17 ∷ []) ∷ [] ∷ []) (refl, (refl, tt))
