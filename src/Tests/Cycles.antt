-- ===== src/Tests/Cycles.antt =====
-- The making of a new cycle.
use lingx.Base.{ℕ, ◌≡◌, refl, true, false, none, some, List, [], ◌∷◌, ◌==◌, if◌then◌else◌}
use lingx.Conf.Directives.{bytes_eq}
use lingx.Cycle.Init.{
  create_confs, init_confs, Result, NewCycle, new_cycle, write_pidfile, create_pidfile, Hooks,
  Effect, pid_file_opened, pid_file_deleted, stderr_redirected, old_files_closed, no_cycle,
  exit_one, crashed, Env, set_slot, init_modules, configure, init_new_cycle,
}
use lingx.Log.{get_file_log}
use lingx.Log.Files.{find_name, find_fd, file_of_fd, file_of_name, log_open_file}
use lingx.Log.Levels.{bytes}
use lingx.Log.Setup.{no_logs, open_log, place_log, log_open_default, log_redirect_stderr}
use lingx.Path.{back, empty, tail_separator, get_full_name}

abbrev core_hooks : Hooks ℕ
core_hooks = record {
  is_core = true;
  index = 3;
  create_conf = some (λ s. some 10);
  init_conf = some (λ s. some (set_slot s 3 (some 11)));
  init_module = none;
}

-- A module that does not start.
abbrev broken_hooks : Hooks ℕ
broken_hooks = record core_hooks { is_core = false; index = 4; init_module = some (λ s. none) }

abbrev first_start : Env ℕ
first_start = record {
  process_type = 0;
  test_config = false;
  use_stderr = false;
  old_is_init = true;
  old_pid_path = [];
  modules = core_hooks ∷ [];
  conf_param = λ s. some s;
  conf_parse = λ s. some s;
  pid_path = λ s. bytes "/run/lingx.pid";
  pid_open = λ path. true;
  pid_write = λ path. true;
  prefix = bytes "/srv/";
  error_log_path = bytes "error.log";
  opens = λ name. some 7;
  dup2_ok = true;
}

abbrev started : NewCycle ℕ
started = record {
  slots = λ i. if i == 3 then some 11 else if i == 3 then some 10 else none;
  logs = no_logs;
  keeps_old = true;
}

abbrev effects : Result ℕ → List Effect
effects (no_cycle es) = es
effects (exit_one es) = es
effects crashed = []
effects (new_cycle s es) = es

-- A new pid file replaces that of the old cycle, whose files stay open when a module does not start.
init_new_cycle_runs :
    (effects (init_new_cycle first_start) ≡ stderr_redirected ∷ old_files_closed ∷ [])
    × (effects (
          init_new_cycle
            (record first_start { old_is_init = false; modules = core_hooks ∷ broken_hooks ∷ [] }))
        ≡ pid_file_opened (bytes "/run/lingx.pid") ∷ pid_file_deleted [] ∷ stderr_redirected ∷ [])
unfolding init_new_cycle configure create_confs init_confs write_pidfile create_pidfile init_modules
    log_open_default log_redirect_stderr open_log place_log log_open_file file_of_name file_of_fd
    get_full_name tail_separator empty back find_name find_fd bytes_eq get_file_log
init_new_cycle_runs = (refl, refl)

-- A write that fails leaves the new file behind.
unwritten_pid_file :
    let env = record first_start { old_is_init = false; pid_write = λ path. false } in
    init_new_cycle env ≡ no_cycle (pid_file_opened (bytes "/run/lingx.pid") ∷ [])
unfolding init_new_cycle configure create_confs init_confs write_pidfile create_pidfile bytes_eq
unwritten_pid_file = refl
