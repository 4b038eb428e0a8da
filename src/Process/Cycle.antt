-- ===== src/Process/Cycle.antt =====
-- `Single_process_cycle` and `Master_process_exit_` of src/lingx/core/process_cycle.cc. One round of the
-- events, `Process_events_and_timers`, is an argument, a function of a state, and so are the signals
-- that arrive in each round, in their order; rounds without end are a list that is used up.
pub mod Stop
use lingx.Base.{ℕ, Bool, true, false, ◌&&◌, ◌||◌, Option, none, some, List, [], ◌∷◌, if◌then◌else◌}
use lingx.Process.{Flags, signal_handler}

-- The loop over `init_process`, each hook's result, none where there is none: false is exit(2).
unfoldable pub init_processes : List (Option Bool) → Bool
init_processes [] = true
init_processes (none ∷ hooks) = init_processes hooks
init_processes (some is_ok ∷ hooks) = is_ok && init_processes hooks

-- The signals of a round.
unfoldable pub receive : ℕ → List ℕ → Flags → Flags
unfolding signal_handler
receive process_type [] s = s
receive process_type (signo ∷ rest) s =
    receive process_type rest (signal_handler process_type signo s)

-- The end of the process with a code, whether the pid file was removed, and the state.
pub record Ended (S : Type 0) : Type 0 where
  pub code : ℕ
  pub pid_file_deleted : Bool
  pub state : S

-- `Delete_pidfile`: whether unlink() succeeds is an argument, and a failure is only logged.
abbrev pub delete_pidfile : Bool → Bool
delete_pidfile unlink_ok = unlink_ok

unfoldable pub master_process_exit : {S : Type 0} → Bool → S → Ended S
master_process_exit unlink_ok s = record {
  code = 0;
  pid_file_deleted = delete_pidfile unlink_ok;
  state = s;
}

-- None: the process still runs when the rounds are used up.
unfoldable pub single_loop :
    {S : Type 0} → ℕ → Bool → (S → S) → List (List ℕ) → Flags → S → Option (Ended S)
unfolding receive master_process_exit
single_loop process_type unlink_ok events [] flags s = none
single_loop process_type unlink_ok events (signos ∷ rounds) flags s =
    let s1 = events s in
    let flags1 = receive process_type signos flags in
    let rest = single_loop process_type unlink_ok events rounds flags1 s1 in
    if flags1.terminate || flags1.quit then some (master_process_exit unlink_ok s1) else rest

unfoldable pub single_process_cycle :
    {S : Type 0}
    → ℕ
    → Bool
    → List (Option Bool)
    → (S → S)
    → List (List ℕ)
    → Flags
    → S
    → Option (Ended S)
unfolding init_processes single_loop
single_process_cycle process_type unlink_ok hooks events rounds flags s =
    if init_processes hooks
    then single_loop process_type unlink_ok events rounds flags s
    else some (record { code = 2; pid_file_deleted = false; state = s })
