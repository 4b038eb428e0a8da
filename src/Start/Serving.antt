-- ===== src/Start/Serving.antt =====
-- The steps from the new cycle to the loop of the process, in `main` of src/lingx/lingx.cc.
use lingx.Base.{
  ℕ, ◌≡◌, refl, sym, ap, ◌∙◌, ◌≢◌, ◌⊎◌, inl, inr, Bool, true, false, not, ◌&&◌, Option, none, some,
  List, [], ◌∷◌, ◌==◌, if◌then◌else◌, Bool-cases, if_cases,
}
use lingx.Cycle.Init.{created}
use lingx.Log.Setup.{log_redirect_stderr}
use lingx.Os.Daemon.{
  Proc, Daemon, is_daemon, daemon_error, parent_exit, daemonize, daemonize-HasOwnPid,
}
use lingx.Process.{
  process_single, process_master, Signal, sigint, sigquit, sigterm, signals, init_signals,
}
use lingx.Process.Cycle.{init_processes}
use lingx.Process.Cycle.Stop.{single_process_cycle-code}
use lingx.Process.Pidfile.{Created, Settings, create_pidfile}
use lingx.Start.{
  NewCycle, World, single_loop, master_loop, State, Exit, exit, enter_loop, no_flags, loop_code,
  redirected, pid_written, write_pidfile, forked, serve,
}

-- An exit that comes from the loop of the process has a property.
abbrev pub FromLoop : (Exit → Type 0) → Option Exit → Type 0
FromLoop P none = Unit {0}
FromLoop P (some e) = e.state.loop ≢ none → P e

-- How the loop ends: a master's at once with 0, and a single process's with 2 if a module does not
-- start, and else with 0, unless it still runs.
abbrev pub Ends : World → Exit → Type 0
Ends w e =
    ((e.state.loop ≡ some master_loop) × (e.code ≡ some 0))
    ⊎ ((e.state.loop ≡ some single_loop)
        × (((init_processes w.init_process ≡ false) × (e.code ≡ some 2))
            ⊎ ((init_processes w.init_process ≡ true) × ((e.code ≡ none) ⊎ (e.code ≡ some 0)))))

-- Of a state from which a process serves: it has handlers for all signals, its pid file is the one
-- that `Create_pidfile` makes of its own number, it writes to its logs only, and if the cycle is
-- configured so it is a daemon.
pub record IsServing (w : World) (cycle : NewCycle) (e : Exit) : Type 0 where
  pub ends : Ends w e
  pub handled : e.state.handled ≡ sigterm ∷ sigquit ∷ sigint ∷ []
  pub own : e.state.proc.pid ≡ e.state.proc.self
  pub pid_file :
      create_pidfile
        (record {
          process_type = e.state.process_type;
          test_config = false;
          pid = e.state.proc.self;
        })
        w.pid_open
        w.pid_calls
        w.pid_old
      ≡ some (record { is_ok = true; content = e.state.pid_file })
  pub logs_only : e.state.use_stderr ≡ false
  pub daemonized : e.state.daemonized ≡ not (cycle.conf.daemon == 0)

-- What holds of the state before the pid file is written.
record IsReady (w : World) (cycle : NewCycle) (s : State) : Type 0 where
  outside : s.loop ≡ none
  installed : (init_signals w.sigaction signals).is_ok ≡ true
  handled : s.handled ≡ (init_signals w.sigaction signals).handled
  own : s.proc.pid ≡ s.proc.self
  daemonized : s.daemonized ≡ not (cycle.conf.daemon == 0)

pub not-false : (b : Bool) → not b ≡ false → b ≡ true
not-false true e = refl
not-false false e = sym e

pub exit_before :
    (P : Exit → Type 0) (code : ℕ) (s : State) → s.loop ≡ none → FromLoop P (exit code s)
exit_before P code s l ne = absurd (ne l)

signos : List Signal → List ℕ
signos [] = []
signos (sig ∷ rest) = sig.signo ∷ signos rest

-- If all handlers could be installed, then every signal has one.
init_signals-handled :
    (sigaction : ℕ → Bool) (sigs : List Signal)
    → (init_signals sigaction sigs).is_ok ≡ true
    → (init_signals sigaction sigs).handled ≡ signos sigs
unfolding init_signals signos
init_signals-handled sigaction [] h = refl
init_signals-handled sigaction (sig ∷ rest) h = elim (Bool-cases (sigaction sig.signo)) [
  | inl e ↦ rw e (ap (λ l. sig.signo ∷ l) (init_signals-handled sigaction rest (rw e at h)))
  | inr e ↦ cc (rw e at h)
]

module _ (w : World) (cycle : NewCycle) where
  settings_of : State → Settings
  settings_of s = record { process_type = s.process_type; test_config = false; pid = s.proc.pid }

  -- What `Create_pidfile` has made of the number of the process.
  HasPidFile : State → Option (List ℕ) → Type 0
  HasPidFile s content =
      create_pidfile (settings_of s) w.pid_open w.pid_calls w.pid_old
      ≡ some (record { is_ok = true; content = content })

  loop-Ends :
      (s : State) → Ends w (record { code = loop_code w s.process_type; state = enter_loop s })
  unfolding loop_code enter_loop
  loop-Ends s = elim (Bool-cases (s.process_type == process_single)) [
    | inl e ↦ rw e (
        inr (
          refl,
          single_process_cycle-code s.process_type w.unlink_ok w.init_process (λ (u : Unit {0}). u)
              w.rounds no_flags tt,
        ))
    | inr e ↦ rw e (inl (refl, refl))
  ]

  redirected-IsServing :
      (s : State) (o : Option Bool)
      → IsReady w cycle s
      → HasPidFile s s.pid_file
      → FromLoop (IsServing w cycle) (redirected w s o)
  unfolding redirected settings_of HasPidFile enter_loop signos
  redirected-IsServing s none r k = tt
  redirected-IsServing s (some is_ok) r k =
      if_cases (FromLoop (IsServing w cycle)) (not is_ok)
        (λ e. exit_before (IsServing w cycle) 1 s r.outside)
        (λ e ne. record {
          ends = loop-Ends s;
          handled = r.handled ∙ init_signals-handled w.sigaction signals r.installed;
          own = r.own;
          pid_file = rw (sym r.own) k;
          logs_only = refl;
          daemonized = r.daemonized;
        })

  pid_written-IsServing :
      (s : State) (o : Option Created)
      → IsReady w cycle s
      → create_pidfile (settings_of s) w.pid_open w.pid_calls w.pid_old ≡ o
      → FromLoop (IsServing w cycle) (pid_written w cycle s o)
  unfolding pid_written settings_of HasPidFile
  pid_written-IsServing s none r k = tt
  pid_written-IsServing s (some created) r k =
      let s1 = record s { pid_file = created.content } in
      if_cases (FromLoop (IsServing w cycle)) (not created.is_ok)
        (λ e. exit_before (IsServing w cycle) 1 s1 r.outside)
        (λ e.
          redirected-IsServing s1 (log_redirect_stderr w.dup2_ok cycle.logs)
            (record {
              outside = r.outside;
              installed = r.installed;
              handled = r.handled;
              own = r.own;
              daemonized = r.daemonized;
            })
            (k
              ∙ ap (λ b. some (record { is_ok = b; content = created.content }))
                  (not-false created.is_ok e)))

  write_pidfile-IsServing :
      (s : State) → IsReady w cycle s → FromLoop (IsServing w cycle) (write_pidfile w cycle s)
  unfolding write_pidfile settings_of
  write_pidfile-IsServing s r = pid_written-IsServing s _ r refl

  forked-IsServing :
      (s : State) (d : Daemon)
      → s.loop ≡ none
      → ((p : Proc) → d ≡ is_daemon p → IsReady w cycle (record s { proc = p; daemonized = true }))
      → FromLoop (IsServing w cycle) (forked w cycle s d)
  unfolding forked
  forked-IsServing s (is_daemon p) l r = write_pidfile-IsServing _ (r p refl)
  forked-IsServing s (daemon_error p) l r =
      exit_before (IsServing w cycle) 1 (record s { proc = p }) l
  forked-IsServing s parent_exit l r = exit_before (IsServing w cycle) 0 s l

  installed-IsServing :
      (s : State)
      → s.loop ≡ none
      → s.proc.pid ≡ s.proc.self
      → s.daemonized ≡ false
      → (init_signals w.sigaction signals).is_ok ≡ true
      → s.handled ≡ (init_signals w.sigaction signals).handled
      → FromLoop (IsServing w cycle) (
          if not (cycle.conf.daemon == 0)
          then forked w cycle s (daemonize w.calls w.null s.proc)
          else write_pidfile w cycle s)
  installed-IsServing s l own d ok_ h =
      if_cases (FromLoop (IsServing w cycle)) (not (cycle.conf.daemon == 0))
        (λ e. forked-IsServing s (daemonize w.calls w.null s.proc) l (λ p k. record {
          outside = l;
          installed = ok_;
          handled = h;
          own = rw k at (daemonize-HasOwnPid w.calls w.null s.proc);
          daemonized = sym e;
        }))
        (λ e.
          write_pidfile-IsServing s (record {
            outside = l;
            installed = ok_;
            handled = h;
            own = own;
            daemonized = d ∙ sym e;
          }))

  pub serve-IsServing :
      (s : State)
      → s.loop ≡ none
      → s.proc.pid ≡ s.proc.self
      → s.daemonized ≡ false
      → FromLoop (IsServing w cycle) (serve w cycle s)
  unfolding serve
  serve-IsServing s l own d =
      let installed = init_signals w.sigaction signals in
      let is_master = not (cycle.conf.master == 0) && (s.process_type == process_single) in
      let s2 = record s {
        process_type = if is_master then process_master else s.process_type;
        handled = installed.handled;
      } in
      if_cases (FromLoop (IsServing w cycle)) (not installed.is_ok)
        (λ e. exit_before (IsServing w cycle) 1 s2 l)
        (λ e. installed-IsServing s2 l own d (not-false installed.is_ok e) refl)
