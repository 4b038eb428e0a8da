-- ===== src/Start/Served.antt =====
-- What holds when `main` enters the loop of the process.
use lingx.Base.{
  ℕ, ◌≡◌, refl, ◌≢◌, inl, inr, Bool, true, false, not, Option, none, some, List, if◌then◌else◌,
  Bool-cases, if_cases,
}
use mathlib.Core.Path.{subst}
use lingx.Cycle.Init.{process_signaller}
use lingx.Options.{Options, Result, parsed, refused, get_options}
use lingx.Options.Core.{process_options}
use lingx.Os.{OsState, os_init}
use lingx.Path.{empty}
use lingx.Start.{
  NewCycle, World, show_version, preinit, new_cycle, report_test, signal_master, log_status, State,
  Exit, did, serve, on_cycle, on_os, no_names, start, on_options, main,
}
use lingx.Start.Serving.{FromLoop, IsServing, not-false, exit_before, serve-IsServing}

-- Why a start serves: the options ask for no test and no signal, and there is a new cycle.
pub record Serves (w : World) (args : List (List ℕ)) (o : Options) (e : Exit) : Type 0 where
  pub chosen : Options
  pub cycle : NewCycle
  pub read : get_options args o ≡ parsed chosen
  pub no_test : chosen.test_config ≡ false
  pub no_signal : empty chosen.signal ≡ true
  pub no_version : chosen.show_version ≡ false
  pub made : w.init_new_cycle (process_options chosen no_names) ≡ some cycle
  pub serving : IsServing w cycle e

module _ (w : World) (args : List (List ℕ)) (o p : Options) (read : get_options args o ≡ parsed p)
    (no_version : p.show_version ≡ true → p.test_config ≡ true) where
  on_cycle-Serves :
      (s : State) (c : Option NewCycle)
      → s.loop ≡ none
      → s.proc.pid ≡ s.proc.self
      → s.daemonized ≡ false
      → w.init_new_cycle (process_options p no_names) ≡ c
      → FromLoop (Serves w args o) (on_cycle w p s c)
  unfolding on_cycle
  on_cycle-Serves s none l own d k = exit_before (Serves w args o) 1 s l
  on_cycle-Serves s (some cycle) l own d k =
      if_cases (FromLoop (Serves w args o)) p.test_config
        (λ e.
          exit_before (Serves w args o) 0 (if p.quiet_mode then s else did report_test s)
            (if_cases (λ (t : State). t.loop ≡ none) p.quiet_mode (λ k'. l) (λ k'. l)))
        (λ e.
          if_cases (FromLoop (Serves w args o)) (not (empty p.signal))
            (λ e'. exit_before (Serves w args o) _ (did signal_master s) l)
            (λ e'.
              from_loop (serve w cycle (did log_status s))
                (serve-IsServing w cycle (did log_status s) l own d) e e'))
    where
      from_loop :
          (r : Option Exit)
          → FromLoop (IsServing w cycle) r
          → p.test_config ≡ false
          → not (empty p.signal) ≡ false
          → FromLoop (Serves w args o) r
      from_loop none f e e' = tt
      from_loop (some x) f e e' = λ ne. record {
        chosen = p;
        cycle = cycle;
        read = read;
        no_test = e;
        no_signal = not-false (empty p.signal) e';
        no_version = elim (Bool-cases p.show_version) [
          | inl v ↦ absurd (cc (no_version v, e))
          | inr v ↦ v
        ];
        made = k;
        serving = f ne;
      }

  on_os-Serves :
      (s : State) (r : Bool × OsState)
      → s.loop ≡ none
      → s.proc.pid ≡ s.proc.self
      → s.daemonized ≡ false
      → FromLoop (Serves w args o) (on_os w p (process_options p no_names) s r)
  unfolding on_os
  on_os-Serves s (is_ok, os) l own d =
      if_cases (FromLoop (Serves w args o)) (not is_ok)
        (λ e. exit_before (Serves w args o) 1 (record s { os = os }) l)
        (λ e. on_cycle-Serves (did new_cycle (did preinit (record s { os = os }))) _ l own d refl)

  start-Serves :
      (s : State) → s.loop ≡ none → s.daemonized ≡ false → FromLoop (Serves w args o) (start w p s)
  unfolding start
  start-Serves s l d = on_os-Serves _ (os_init w.uname s.os) l refl d

on_options-Serves :
    (w : World) (args : List (List ℕ)) (o : Options) (s : State) (r : Result)
    → s.loop ≡ none
    → s.daemonized ≡ false
    → get_options args o ≡ r
    → FromLoop (Serves w args o) (on_options w s r)
unfolding on_options
on_options-Serves w args o s (refused e) l d k = exit_before (Serves w args o) 1 s l
on_options-Serves w args o s (parsed p) l d k =
    let typed = record s {
      process_type = if p.signaller then process_signaller else s.process_type;
    } in
    let shown = did show_version typed in
    if_cases (FromLoop (Serves w args o)) (not p.show_version)
      (λ e. start-Serves w args o p k (λ v. absurd (shows p e v)) typed l d)
      (λ e.
        if_cases (FromLoop (Serves w args o)) p.test_config
          (λ t. start-Serves w args o p k (λ v. t) shown l d)
          (λ t. exit_before (Serves w args o) 0 shown l))
  where
    shows : (p : Options) → not p.show_version ≡ true → p.show_version ≡ true → ⊥
    shows p e v = cc

-- A start that enters the loop of the process, master or single, has read options that ask for no
-- version, no test and no signal, and has a new cycle. The process then has handlers for SIGTERM,
-- SIGQUIT and SIGINT, is a daemon if and only if the cycle is configured so, has as its pid file what
-- `Create_pidfile` made of its own number, which after `Daemonize` is that of the child, and does
-- not write to stderr besides its logs. A master ends with 0 at once; a single process ends with 2 if
-- a module does not start, and else with 0 or not at all. The state before is that of a new process,
-- outside the loop and no daemon.
pub main-Serves :
    (w : World) (args : List (List ℕ)) (o : Options) (s : State) (e : Exit)
    → s.loop ≡ none
    → s.daemonized ≡ false
    → main w args o s ≡ some e
    → e.state.loop ≢ none
    → Serves w args o e
unfolding main
main-Serves w args o s e l d k ne =
    subst (FromLoop (Serves w args o)) k
      (on_options-Serves w args o s (get_options args o) l d refl) ne
