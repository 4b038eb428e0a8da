-- ===== src/Process/Cycle/Stop.antt =====
-- A process stops after the round in which a signal to stop arrives, and not before.
use lingx.Base.{
  ℕ, zero, suc, ◌≤◌, ◌≡◌, refl, ap, ◌∙◌, ◌⊎◌, inl, inr, Bool, true, false, ◌||◌, Option, none, some,
  List, [], ◌∷◌, ◌++◌, arith, ◌==◌, Bool-cases, length,
}
use lingx.Process.{Flags, process_single, process_master, sigint, sigquit, sigterm, signal_handler}
use lingx.Process.Cycle.{
  single_loop, init_processes, receive, Ended, master_process_exit, single_process_cycle,
}
use lingx.Strings.Filled.{after}
use mathlib.Core.Option as Opt

unfoldable pub stops : List ℕ → Bool
stops [] = false
stops (signo ∷ signos) = (signo == sigterm || signo == sigquit || signo == sigint) || stops signos

-- No signal of these rounds is one to stop.
abbrev pub Runs : List (List ℕ) → Type 0
Runs [] = Unit {0}
Runs (signos ∷ rounds) = (stops signos ≡ false) × Runs rounds

unfoldable pub iterate : {S : Type 0} → ℕ → (S → S) → S → S
iterate zero f s = s
iterate (suc n) f s = iterate n f (f s)

abbrev is_set : Flags → Bool
is_set s = s.terminate || s.quit

signal_handler-stops :
    (process_type signo : ℕ) (s : Flags)
    → process_type ≤ process_master
    → is_set (signal_handler process_type signo s)
      ≡ is_set s || (signo == sigterm || signo == sigquit || signo == sigint)
unfolding signal_handler
signal_handler-stops process_type signo s le = elim (Bool-cases (s.terminate)) [
  | inl e ↦ ground (arith, e)
  | inr e ↦ ground (arith, e)
]

or_assoc : (a b c : Bool) → (a || b) || c ≡ a || (b || c)
or_assoc true b c = refl
or_assoc false b c = refl

receive-stops :
    (process_type : ℕ) (signos : List ℕ) (s : Flags)
    → process_type ≤ process_master
    → is_set (receive process_type signos s) ≡ is_set s || stops signos
unfolding receive stops
receive-stops process_type [] s le = ground arith
receive-stops process_type (signo ∷ signos) s le =
    let stop_ = signo == sigterm || signo == sigquit || signo == sigint in
    receive-stops process_type signos (signal_handler process_type signo s) le
    ∙ ap (λ b. b || stops signos) (signal_handler-stops process_type signo s le)
    ∙ or_assoc (is_set s) stop_ (stops signos)

single_loop-stops :
    {S : Type 0} (process_type : ℕ) (unlink_ok : Bool) (events : S → S)
    (before after : List (List ℕ)) (signos : List ℕ) (flags : Flags) (s : S)
    → process_type ≤ process_master
    → flags.terminate || flags.quit ≡ false
    → Runs before
    → stops signos ≡ true
    → single_loop process_type unlink_ok events (before ++ signos ∷ after) flags s
      ≡ some (record {
        code = 0;
        pid_file_deleted = unlink_ok;
        state = iterate (suc (length before)) events s;
      })
unfolding single_loop iterate master_process_exit
single_loop-stops process_type unlink_ok events [] after signos flags s le clear runs stop_ =
    rw (receive-stops process_type signos flags le, clear, stop_) refl
single_loop-stops process_type unlink_ok events (first ∷ before) after signos flags s le clear runs
      stop_ =
    let still : (receive process_type first flags).terminate
          || (receive process_type first flags).quit
        ≡ false =
      receive-stops process_type first flags le ∙ rw (clear, runs.0) refl in
    rw still (
      single_loop-stops process_type unlink_ok events before after signos _ (events s) le still
        runs.1 stop_)

single_loop-Runs :
    {S : Type 0} (process_type : ℕ) (unlink_ok : Bool) (events : S → S) (rounds : List (List ℕ))
    (flags : Flags) (s : S)
    → process_type ≤ process_master
    → is_set flags ≡ false
    → Runs rounds
    → single_loop process_type unlink_ok events rounds flags s ≡ none
unfolding single_loop
single_loop-Runs process_type unlink_ok events [] flags s le clear runs = refl
single_loop-Runs process_type unlink_ok events (first ∷ rounds) flags s le clear runs =
    let still : is_set (receive process_type first flags) ≡ false =
      receive-stops process_type first flags le ∙ rw (clear, runs.0) refl in
    rw still (
      single_loop-Runs process_type unlink_ok events rounds (receive process_type first flags)
        (events s) le still runs.1)

single_loop-code :
    {S : Type 0} (process_type : ℕ) (unlink_ok : Bool) (events : S → S) (rounds : List (List ℕ))
    (flags : Flags) (s : S)
    → let code =
        Opt.map
          (λ (d : Ended S). d.code)
          (single_loop process_type unlink_ok events rounds flags s) in
      (code ≡ none) ⊎ (code ≡ some 0)
unfolding single_loop master_process_exit
single_loop-code process_type unlink_ok events [] flags s = inl refl
single_loop-code process_type unlink_ok events (signos ∷ rounds) flags s =
    let flags1 = receive process_type signos flags in
    elim (Bool-cases (flags1.terminate || flags1.quit)) [
      | inl e ↦ rw e (inr refl)
      | inr e ↦ rw e (single_loop-code process_type unlink_ok events rounds flags1 (events s))
    ]

-- A single process whose modules start runs as long as no SIGTERM, SIGQUIT or SIGINT arrives, whatever
-- other signals do. After the round in which the first of these arrives it ends with the code 0, and
-- its pid file is removed if unlink() succeeds: no further round is begun.
pub single_process_cycle-stops :
    {S : Type 0} (unlink_ok : Bool) (hooks : List (Option Bool)) (events : S → S) (flags : Flags)
    (s : S)
    → init_processes hooks ≡ true
    → flags.terminate || flags.quit ≡ false
    → (before : List (List ℕ)) → Runs before
    → (single_process_cycle process_single unlink_ok hooks events before flags s ≡ none)
      × ((after : List (List ℕ)) (signos : List ℕ)
          → stops signos ≡ true
          → single_process_cycle process_single unlink_ok hooks events
              (before ++ signos ∷ after)
              flags
              s
            ≡ some (record {
              code = 0;
              pid_file_deleted = unlink_ok;
              state = iterate (suc (length before)) events s;
            }))
unfolding single_process_cycle
single_process_cycle-stops unlink_ok hooks events flags s started clear before runs = rw started (
  single_loop-Runs process_single unlink_ok events before flags s (omega arith) clear runs,
  λ after signos stop_.
      single_loop-stops process_single unlink_ok events before after signos flags s (omega arith)
        clear runs stop_,
)

-- What `exit` a single process comes to: 2 if a module does not start, and else 0, unless it runs.
pub single_process_cycle-code :
    {S : Type 0} (process_type : ℕ) (unlink_ok : Bool) (hooks : List (Option Bool)) (events : S → S)
    (rounds : List (List ℕ)) (flags : Flags) (s : S)
    → let code =
        Opt.map
          (λ (d : Ended S). d.code)
          (single_process_cycle process_type unlink_ok hooks events rounds flags s) in
      ((init_processes hooks ≡ false) × (code ≡ some 2))
      ⊎ ((init_processes hooks ≡ true) × ((code ≡ none) ⊎ (code ≡ some 0)))
unfolding single_process_cycle
single_process_cycle-code process_type unlink_ok hooks events rounds flags s =
    elim (Bool-cases (init_processes hooks)) [
      | inl e ↦ rw e (inr (refl, single_loop-code process_type unlink_ok events rounds flags s))
      | inr e ↦ rw e (inl (refl, refl))
    ]
