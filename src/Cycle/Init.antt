-- ===== src/Cycle/Init.antt =====
-- `Init_new_cycle` of src/lingx/core/cycle.cc, with `Cycle::init_modules_`. The hooks of the modules,
-- the parsing of the parameter and of the file (`Conf.Parse` has it), the path of the pid file in a
-- configuration and the outcomes of the system calls are arguments. What happens outside the new
-- cycle is a list of effects in their order. The update of the time is in `Times`.
pub mod Commit
use lingx.Base.{
  ℕ, Bool, true, false, not, ◌&&◌, ◌||◌, Option, none, some, List, [], ◌∷◌, ◌++◌, ltb, ◌==◌,
  if◌then◌else◌, ◌>>=◌,
}
use lingx.Conf.Directives.{bytes_eq}
use lingx.Conf.Parse.Open.{opened}
use lingx.Log.Setup.{LogState, no_logs, log_open_default, log_redirect_stderr}

-- A new cycle, with configurations in `C`: `conf_ctx_`, the logs, and whether `old_cycle_` is kept.
pub record NewCycle (C : Type 0) : Type 0 where
  pub slots : ℕ → Option C
  pub logs : LogState
  pub keeps_old : Bool

-- A module with its hooks, each none where it is null. A hook that fails gives none.
pub record Hooks (C : Type 0) : Type 0 where
  pub is_core : Bool
  pub index : ℕ
  pub create_conf : Option (NewCycle C → Option C)
  pub init_conf : Option (NewCycle C → Option (NewCycle C))
  pub init_module : Option (NewCycle C → Option (NewCycle C))

-- `pid_file_opened` is the open() of `Create_pidfile`, which creates the file or, unless the
-- configuration is tested, empties it; `pid_file_deleted` a call of `Delete_pidfile`, whose unlink()
-- may fail with a message; `stderr_redirected` a call of `log_redirect_stderr` that returned OK.
pub data Effect : Type 0 where
  pid_file_opened : List ℕ → Effect
  pid_file_deleted : List ℕ → Effect
  stderr_redirected : Effect
  old_files_closed : Effect

-- A null pointer, the end of the process, a null pointer that is dereferenced, or the new cycle.
pub data Result (C : Type 0) : Type 0 where
  no_cycle : List Effect → Result C
  exit_one : List Effect → Result C
  crashed : Result C
  new_cycle : NewCycle C → List Effect → Result C

pub record Env (C : Type 0) : Type 0 where
  pub process_type : ℕ
  pub test_config : Bool
  pub use_stderr : Bool
  pub old_is_init : Bool
  pub old_pid_path : List ℕ
  pub modules : List (Hooks C)
  pub conf_param : NewCycle C → Option (NewCycle C)
  pub conf_parse : NewCycle C → Option (NewCycle C)
  pub pid_path : NewCycle C → List ℕ
  pub pid_open : List ℕ → Bool
  pub pid_write : List ℕ → Bool
  pub prefix : List ℕ
  pub error_log_path : List ℕ
  pub opens : List ℕ → Option ℕ
  pub dup2_ok : Bool

abbrev pub process_signaller : ℕ
process_signaller = 2

-- `Delete_pidfile` of the old cycle, where the new file was created.
abbrev pub and_delete : List ℕ → Bool × List Effect → Bool × List Effect
and_delete old (true, es) = (true, es ++ pid_file_deleted old ∷ [])
and_delete old (false, es) = (false, es)

module _ {C : Type 0} where
  abbrev pub set_slot : NewCycle C → ℕ → Option C → NewCycle C
  set_slot s i cf = record s { slots = λ j. if j == i then cf else s.slots j }

  abbrev pub created : Option (NewCycle C → Option C) → ℕ → NewCycle C → NewCycle C
  created none i s = s
  created (some hook) i s = set_slot s i (hook s)

  -- The loop over `create_conf`.
  unfoldable pub create_confs : List (Hooks C) → NewCycle C → NewCycle C
  create_confs [] s = s
  create_confs (m ∷ ms) s =
      create_confs ms (if m.is_core then created m.create_conf m.index s else s)

  abbrev pub call : Option (NewCycle C → Option (NewCycle C)) → NewCycle C → Option (NewCycle C)
  call none s = some s
  call (some hook) s = hook s

  -- The loop over `init_conf`.
  unfoldable pub init_confs : List (Hooks C) → NewCycle C → Option (NewCycle C)
  init_confs [] s = some s
  init_confs (m ∷ ms) s = do s1 ← if m.is_core then call m.init_conf s else some s; init_confs ms s1

  unfoldable pub init_modules : List (Hooks C) → NewCycle C → Option (NewCycle C)
  init_modules [] s = some s
  init_modules (m ∷ ms) s = do s1 ← call m.init_module s; init_modules ms s1

  -- Up to the configuration of the core modules.
  unfoldable pub configure : Env C → NewCycle C → Option (NewCycle C)
  unfolding create_confs init_confs
  configure env s = do
    s1 ← env.conf_param (create_confs env.modules s)
    s2 ← env.conf_parse s1
    init_confs env.modules s2

  -- `Create_pidfile`: whether it returns OK, and what it did. The write is that of the number.
  unfoldable pub create_pidfile : Env C → List ℕ → Bool × List Effect
  create_pidfile env path =
      let opened = pid_file_opened path ∷ [] in
      if ltb 1 env.process_type
      then (true, [])
      else if not (env.pid_open path)
      then (false, [])
      else if env.test_config
      then (true, opened)
      else (env.pid_write path, opened)

  -- The pid file of the new cycle: whether `Init_new_cycle` goes on, and what was done.
  unfoldable pub write_pidfile : Env C → List ℕ → Bool × List Effect
  unfolding bytes_eq create_pidfile
  write_pidfile env path =
      if env.test_config
      then create_pidfile env path
      else if env.old_is_init || bytes_eq path env.old_pid_path
      then (true, [])
      else and_delete env.old_pid_path (create_pidfile env path)

  -- Behind `commit the new cycle configuration`, with the effects so far.
  abbrev pub start : Env C → List Effect → Option (NewCycle C) → Result C
  start env es none = exit_one es
  start env es (some s) =
      new_cycle (record s { keeps_old = not (env.process_type == 1 || env.old_is_init) })
        (es ++ old_files_closed ∷ [])

  abbrev pub redirected : Env C → List Effect → NewCycle C → Option Bool → Result C
  redirected env es s none = crashed
  redirected env es s (some b) =
      start env (es ++ (if b && not env.use_stderr then stderr_redirected ∷ [] else []))
        (init_modules env.modules s)

  abbrev pub commit : Env C → NewCycle C → Bool × List Effect → Result C
  commit env s (false, es) = no_cycle es
  commit env s (true, es) =
      let s1 : NewCycle C = record s {
        logs = log_open_default env.error_log_path env.prefix env.opens s.logs;
      } in
      redirected env es s1
        (if env.use_stderr then some true else log_redirect_stderr env.dup2_ok s1.logs)

  abbrev pub after_configure : Env C → Option (NewCycle C) → Result C
  after_configure env none = no_cycle []
  after_configure env (some s) =
      if env.process_type == process_signaller
      then new_cycle s []
      else commit env s (write_pidfile env (env.pid_path s))

  abbrev pub empty_cycle : NewCycle C
  empty_cycle = record { slots = λ i. none; logs = no_logs; keeps_old = true }

  unfoldable pub init_new_cycle : Env C → Result C
  unfolding configure write_pidfile init_modules log_open_default log_redirect_stderr
  init_new_cycle env = after_configure env (configure env empty_cycle)
