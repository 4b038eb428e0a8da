-- ===== src/Tests/Starts.antt =====
-- A start of the program as a daemon, and the parts of it.
use lingx.Base.{
  ℕ, ◌+◌, ◌≡◌, refl, sym, ◌∙◌, true, false, none, some, [], ◌∷◌, ◌++◌, arith, leb, if◌then◌else◌,
  get_elem?, replicate,
}
use mathlib.Core.Option.{some-injective, some-ne-none}
use lingx.Conf.Directives.{
  conf_ok, Command, Module, not_allowed, SetResult, Slot, Place, commands_of, all_commands, error,
  in_place, handle,
}
use lingx.Io.{moved, accepted, file_write}
use lingx.Log.Levels.{bytes}
use lingx.Log.Setup.{no_logs, log_redirect_stderr}
use lingx.Options.{
  Options, set_flag, on_letter, scan_letters, scan_argument, after_scan, get_options,
}
use lingx.Os.{posix_io, OsState, os_specific_init, os_init, os_status, os_status-os_init}
use lingx.Os.Daemon.{
  in_child, SystemCalls, Proc, redirect, set_file, redirect_to_null, in_session, after_fork,
  daemonize, IsDaemonOf, daemonize-IsDetached,
}
use lingx.Path.{empty}
use lingx.Process.{init_signals}
use lingx.Process.Pidfile.{
  digits, print_pid, put_chunk, put_chunks, opened_content, write_pid, create_pidfile,
}
use lingx.Start.{
  World, init_time, preinit, new_cycle, report_test, log_status, master_loop, State, Exit,
  enter_loop, loop_code, redirected, pid_written, write_pidfile, forked, serve, on_cycle, on_os,
  start, on_options, main,
}
use lingx.Start.Modules.{
  http_module, event_type, new_module, command, core_commands, errlog_commands, events_commands,
  event_core_commands, http_commands, http_core_commands, core_module, errlog_module, events_module,
  event_core_module, event_poll_module, http_core_module, modules, indexed_modules, handle-declared,
}
use lingx.Start.Preinit.{preinit_loop, preinit_modules, preinit_modules-at_index}
use lingx.Start.Served.{Serves, main-Serves}

abbrev sockets : SystemCalls
sockets = record {
  fork = in_child 77;
  setsid = true;
  open_null = some 5;
  dup_stdin = true;
  dup_stdout = true;
  close = true;
}

abbrev shell_child : Proc
shell_child = record { self = 70; pid = 70; files = λ d. if leb d 2 then some 900 else none }

-- What the child has made of its descriptors.
abbrev child : Proc
child =
    set_file 5 none (
      redirect 5 1
        (redirect 5 0 (set_file 5 (some 4) (record shell_child { self = 77; pid = 77 }))))

daemonize-IsDetached_example : IsDaemonOf sockets 4 shell_child (in_child 77) child
unfolding daemonize after_fork in_session redirect_to_null
daemonize-IsDetached_example =
    daemonize-IsDetached sockets 4 shell_child child (λ fd e. rw (sym (some-injective _ _ e)) refl)
      refl

abbrev os_zero : OsState
os_zero = record { ostype = replicate 50 0; osrelease = replicate 50 0; os_io = posix_io }

os_status-os_init_example :
    ((os_init (some (bytes "Linux", bytes "6.1")) os_zero).0 ≡ true)
    × (os_status
          (bytes "lingx/0.1")
          (bytes "gcc")
          (os_init (some (bytes "Linux", bytes "6.1")) os_zero).1
        ≡ bytes "lingx/0.1" ∷ bytes "built by gcc" ∷ bytes "OS: Linux 6.1" ∷ [])
os_status-os_init_example =
    os_status-os_init (bytes "lingx/0.1") (bytes "gcc") (bytes "Linux") (bytes "6.1") os_zero
      (omega arith, (omega arith, (omega arith, (omega arith, (omega arith, tt)))))
      (omega arith, (omega arith, (omega arith, tt))) refl refl

abbrev world : World
world = record {
  self = 70;
  uname = some (bytes "Linux", bytes "6.1");
  init_new_cycle = λ names. some (record {
    conf = record { daemon = 1; master = 1; pid_path = bytes "/run/pid" };
    logs = record no_logs { head = record { level = 4; file = some 6 } };
  });
  signal_process = λ sig. 0;
  sigaction = λ n. true;
  calls = sockets;
  null = 4;
  pid_open = true;
  pid_calls = moved 12 ∷ [];
  pid_old = none;
  dup2_ok = true;
  log_fd = 3;
  init_process = some true ∷ [];
  rounds = [];
  unlink_ok = true;
}

abbrev no_options : Options
no_options = record {
  show_help = false;
  show_version = false;
  show_configure = false;
  test_config = false;
  quiet_mode = false;
  prefix = bytes "/srv";
  conf_file = bytes "c";
  conf_param = [];
  signal = [];
  signaller = false;
}

abbrev fresh : State
fresh = record {
  proc = record shell_child { pid = 0 };
  os = os_zero;
  process_type = 0;
  steps = [];
  handled = [];
  daemonized = false;
  pid_file = none;
  use_stderr = true;
  log_closed = false;
  loop = none;
}

-- The end of a start with the default configuration.
abbrev ended : Exit
ended = record {
  code = some 0;
  state = record {
    proc = child;
    os = (os_init (some (bytes "Linux", bytes "6.1")) os_zero).1;
    process_type = 1;
    steps = log_status ∷ new_cycle ∷ preinit ∷ init_time ∷ [];
    handled = 15 ∷ 3 ∷ 2 ∷ [];
    daemonized = true;
    pid_file = some (bytes "77" ++ b'\n' ∷ []);
    use_stderr = false;
    log_closed = true;
    loop = some master_loop;
  };
}

-- With `master` on, as by default, the start ends in the loop of the master, which is empty: the
-- file with the number of the daemon stays.
main_run : main world [] no_options fresh ≡ some ended
unfolding main on_options get_options start on_os os_init os_specific_init on_cycle empty serve
    init_signals forked daemonize after_fork in_session redirect_to_null write_pidfile pid_written
    accepted file_write log_redirect_stderr create_pidfile digits opened_content print_pid put_chunk
    put_chunks write_pid enter_loop redirected loop_code
main_run = refl

main-Serves_example : Serves world [] no_options ended
main-Serves_example =
    main-Serves world [] no_options fresh ended refl refl main_run (some-ne-none master_loop)

abbrev tested : State
tested = record fresh {
  proc = record shell_child { self = 70; pid = 70 };
  os = (os_init (some (bytes "Linux", bytes "6.1")) os_zero).1;
  steps = report_test ∷ new_cycle ∷ preinit ∷ init_time ∷ [];
}

test_run :
    main world (bytes "-t" ∷ []) no_options fresh ≡ some (record { code = some 0; state = tested })
unfolding main on_options get_options after_scan scan_argument scan_letters on_letter set_flag start
    on_os os_init os_specific_init on_cycle
test_run = refl

preinit_modules_run :
    let m : Module = record { type = 1; index = 9; ctx_index = 9; commands = [] } in
    get_elem? (preinit_modules (m ∷ m ∷ [])).0 1 ≡ some (record m { index = 1 })
preinit_modules_run =
    (preinit_modules-at_index
      (record { type = 1; index = 9; ctx_index = 9; commands = [] }
        ∷ record { type = 1; index = 9; ctx_index = 9; commands = [] }
        ∷ [])
      1).0

abbrev accept_all : Command → Slot → ℕ → SetResult × ℕ
accept_all cmd at n = (conf_ok, n + 1)

-- Commands of the events block and of the http block have the same bit for their place, so that the
-- types of their modules tell them apart.
server_in_events :
    (p : Place)
    → p.module_type ≡ event_type
    → handle accept_all p (bytes "server" ∷ []) true indexed_modules 0 ≡ (error not_allowed, 0)
unfolding in_place indexed_modules modules http_core_module new_module http_core_commands command
    preinit_modules preinit_loop all_commands commands_of core_module errlog_module events_module
    event_core_module event_poll_module http_module core_commands errlog_commands events_commands
    event_core_commands http_commands
server_in_events p h = handle-declared accept_all p [] true 0 6 _ refl ∙ rw h refl
