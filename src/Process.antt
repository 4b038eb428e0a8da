-- ===== src/Process.antt =====
-- src/lingx/core/process.cc and the process types of src/lingx/core/process_cycle.h. What sigaction()
-- and kill() return is an argument. The handler updates the cached time first, as `Times` has it, and
-- logs the signal last; neither reads or changes the flags.
pub mod Pidfile
pub mod Cycle
use lingx.Base.{ℕ, Bool, true, false, not, ◌||◌, List, [], ◌∷◌, ◌==◌, if◌then◌else◌}
use lingx.Conf.Directives.{bytes_eq}
use lingx.Conf.Lexer.{more}
use lingx.Log.Levels.{bytes}

abbrev pub process_single : ℕ
process_single = 0

abbrev pub process_master : ℕ
process_master = 1

pub record Signal : Type 0 where
  pub signo : ℕ
  pub name : List ℕ

abbrev pub sigint : ℕ
sigint = 2

abbrev pub sigquit : ℕ
sigquit = 3

abbrev pub sigterm : ℕ
sigterm = 15

-- `Signals_`, without the names that are only logged.
abbrev pub signals : List Signal
signals =
    record { signo = sigterm; name = bytes "stop" }
    ∷ record { signo = sigquit; name = bytes "quit" }
    ∷ record { signo = sigint; name = [] }
    ∷ []

-- `Terminate` and `Quit`.
pub record Flags : Type 0 where
  pub terminate : Bool
  pub quit : Bool

unfoldable pub signal_handler : ℕ → ℕ → Flags → Flags
signal_handler process_type signo s =
    if not (process_type == process_master || process_type == process_single)
    then s
    else if signo == sigquit
    then record s { quit = true }
    else if signo == sigterm || signo == sigint
    then record s { terminate = true }
    else s

-- The result, and the signals that have the handler afterwards.
pub record Installed : Type 0 where
  pub is_ok : Bool
  pub handled : List ℕ

unfoldable pub init_signals : (ℕ → Bool) → List Signal → Installed
init_signals sigaction [] = record { is_ok = true; handled = [] }
init_signals sigaction (sig ∷ rest) =
    let more = init_signals sigaction rest in
    if sigaction sig.signo
    then record more { handled = sig.signo ∷ more.handled }
    else record { is_ok = false; handled = [] }

-- The result, and the process and signal of each kill().
pub record Killed : Type 0 where
  pub rc : ℕ
  pub kills : List (ℕ × ℕ)

-- The loop of `Os_signal_process`.
unfoldable pub os_signal_process : (ℕ → ℕ → Bool) → List ℕ → ℕ → List Signal → Killed
unfolding bytes_eq
os_signal_process kill name pid [] = record { rc = 1; kills = [] }
os_signal_process kill name pid (sig ∷ rest) =
    let more = os_signal_process kill name pid rest in
    let sent : ℕ × ℕ = (pid, sig.signo) in
    if not (bytes_eq name sig.name)
    then more
    else if kill pid sig.signo
    then record { rc = 0; kills = sent ∷ [] }
    else record more { kills = sent ∷ more.kills }
