-- ===== src/Start.antt =====
-- `main` of src/lingx/lingx.cc, over the models of the functions that it calls. What the system gives
-- to a start, and what `Init_new_cycle` and `Signal_process` return, are the fields of `World`; what
-- a start leaves behind are those of `State`. The text of the version and of the messages is left
-- out.
pub mod Modules
pub mod Preinit
pub mod Served
pub mod Serving
use lingx.Base.{
  ℕ, Bool, true, false, not, ◌&&◌, Option, none, some, List, [], ◌∷◌, ◌==◌, if◌then◌else◌,
}
use lingx.Cycle.Init.{created, process_signaller}
use lingx.Io.{Outcome}
use lingx.Log.Setup.{LogState, log_redirect_stderr}
use lingx.Options.{Options, Result, parsed, refused, get_options}
use lingx.Options.Core.{CycleNames, process_options, CoreConf}
use lingx.Os.{OsState, os_init}
use lingx.Os.Daemon.{SystemCalls, Proc, Daemon, is_daemon, daemon_error, parent_exit, daemonize}
use lingx.Path.{empty}
use lingx.Process.{Flags, process_single, process_master, signals, init_signals}
use lingx.Process.Cycle.{Ended, single_process_cycle}
use lingx.Process.Pidfile.{Created, Settings, create_pidfile}
use mathlib.Core.Option as Opt

-- What `main` takes from a new cycle: the configuration of the core module, and the logs.
pub record NewCycle : Type 0 where
  pub conf : CoreConf
  pub logs : LogState

pub record World : Type 0 where
  pub self : ℕ
  pub uname : Option (List ℕ × List ℕ)
  pub init_new_cycle : CycleNames → Option NewCycle
  pub signal_process : List ℕ → ℕ
  pub sigaction : ℕ → Bool
  pub calls : SystemCalls
  pub null : ℕ
  pub pid_open : Bool
  pub pid_calls : List Outcome
  pub pid_old : Option (List ℕ)
  pub dup2_ok : Bool
  pub log_fd : ℕ
  pub init_process : List (Option Bool)
  pub rounds : List (List ℕ)
  pub unlink_ok : Bool

-- Which calls a start made that leave no other trace.
pub data Step : Type 0 where
  show_version init_time preinit new_cycle report_test signal_master log_status : Step

-- `cycle` is the process cycle that was entered: a single process, or a master.
pub data Loop : Type 0 where
  single_loop master_loop : Loop

pub record State : Type 0 where
  pub proc : Proc
  pub os : OsState
  pub process_type : ℕ
  pub steps : List Step
  pub handled : List ℕ
  pub daemonized : Bool
  pub pid_file : Option (List ℕ)
  pub use_stderr : Bool
  pub log_closed : Bool
  pub loop : Option Loop

-- A code of none: the process is still in its loop when the rounds are used up. The state is the one
-- with which the loop was entered, or `main` returned.
pub record Exit : Type 0 where
  pub code : Option ℕ
  pub state : State

abbrev pub exit : ℕ → State → Option Exit
exit code s = some (record { code = some code; state = s })

abbrev pub did : Step → State → State
did x s = record s { steps = x ∷ s.steps }

unfoldable pub enter_loop : State → State
enter_loop s = record s {
  loop = some (if s.process_type == process_single then single_loop else master_loop);
}

abbrev pub no_flags : Flags
no_flags = record { terminate = false; quit = false }

-- The end of the loop: `Master_process_cycle` returns at once, and `main` returns 0 behind it. What
-- a round of the events does to the rest of the program is left out.
unfoldable pub loop_code : World → ℕ → Option ℕ
loop_code w process_type =
    if process_type == process_single
    then Opt.map (λ (d : Ended (Unit {0})). d.code)
        (single_process_cycle process_type w.unlink_ok w.init_process (λ s. s) w.rounds no_flags tt)
    else some 0

-- Behind `log_redirect_stderr`; a built-in log that is not stderr is closed. None is a null pointer.
unfoldable pub redirected : World → State → Option Bool → Option Exit
redirected w s none = none
redirected w s (some is_ok) =
    let s1 = record s { log_closed = not (w.log_fd == 2); use_stderr = false } in
    if not is_ok
    then exit 1 s
    else some (record { code = loop_code w s1.process_type; state = enter_loop s1 })

-- Behind `Create_pidfile`. None is a pwrite() that has not returned.
unfoldable pub pid_written : World → NewCycle → State → Option Created → Option Exit
pid_written w cycle s none = none
pid_written w cycle s (some created) =
    let s1 = record s { pid_file = created.content } in
    if not created.is_ok
    then exit 1 s1
    else redirected w s1 (log_redirect_stderr w.dup2_ok cycle.logs)

unfoldable pub write_pidfile : World → NewCycle → State → Option Exit
write_pidfile w cycle s =
    let settings : Settings = record {
      process_type = s.process_type;
      test_config = false;
      pid = s.proc.pid;
    } in
    pid_written w cycle s (create_pidfile settings w.pid_open w.pid_calls w.pid_old)

-- Behind `Daemonize`, of which the parent exits.
unfoldable pub forked : World → NewCycle → State → Daemon → Option Exit
forked w cycle s (is_daemon p) = write_pidfile w cycle (record s { proc = p; daemonized = true })
forked w cycle s (daemon_error p) = exit 1 (record s { proc = p })
forked w cycle s parent_exit = exit 0 s

-- From the test of `ccf->master` on.
unfoldable pub serve : World → NewCycle → State → Option Exit
serve w cycle s =
    let is_master = not (cycle.conf.master == 0) && (s.process_type == process_single) in
    let s1 = record s { process_type = if is_master then process_master else s.process_type } in
    let installed = init_signals w.sigaction signals in
    let s2 = record s1 { handled = installed.handled } in
    if not installed.is_ok
    then exit 1 s2
    else if not (cycle.conf.daemon == 0)
    then forked w cycle s2 (daemonize w.calls w.null s2.proc)
    else write_pidfile w cycle s2

-- Behind `Init_new_cycle`.
unfoldable pub on_cycle : World → Options → State → Option NewCycle → Option Exit
on_cycle w o s none = exit 1 s
on_cycle w o s (some cycle) =
    if o.test_config
    then exit 0 (if o.quiet_mode then s else did report_test s)
    else if not (empty o.signal)
    then exit (w.signal_process o.signal) (did signal_master s)
    else serve w cycle (did log_status s)

-- Behind `Os_init`.
unfoldable pub on_os : World → Options → CycleNames → State → Bool × OsState → Option Exit
on_os w o names s (is_ok, os) =
    let s1 = record s { os = os } in
    if not is_ok
    then exit 1 s1
    else on_cycle w o (did new_cycle (did preinit s1)) (w.init_new_cycle names)

-- The cycle of the start has no names, and a log of the level `Log::NOTICE`, which is 6.
abbrev pub no_names : CycleNames
no_names = record { cycle_prefix = []; file = []; conf_prefix = []; param = []; log_level = 6 }

unfoldable pub start : World → Options → State → Option Exit
start w o s =
    let s1 = did init_time s in
    let s2 = record s1 { proc = record s1.proc { self = w.self; pid = w.self } } in
    on_os w o (process_options o no_names) s2 (os_init w.uname s2.os)

unfoldable pub on_options : World → State → Result → Option Exit
on_options w s (refused e) = exit 1 s
on_options w s (parsed o) =
    let typed = record s {
      process_type = if o.signaller then process_signaller else s.process_type;
    } in
    let shown = did show_version typed in
    if not o.show_version
    then start w o typed
    else if o.test_config
    then start w o shown
    else exit 0 shown

-- `args` are the arguments behind the name of the program.
unfoldable pub main : World → List (List ℕ) → Options → State → Option Exit
main w args o s = on_options w s (get_options args o)
