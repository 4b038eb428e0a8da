-- ===== src/Cycle/Init/Commit.antt =====
-- A new cycle is committed as a whole, or nothing of the old one is touched.
use lingx.Base.{ℕ, ◌≡◌, ◌≢◌, ◌⊎◌, Bool, true, false, Option, some, List, [], ◌∷◌, ◌++◌}
use lingx.Cycle.Init.{
  Result, NewCycle, new_cycle, Effect, pid_file_opened, old_files_closed, no_cycle, exit_one,
  crashed, Env, process_signaller, init_modules, configure, empty_cycle,
}
use lingx.Log.Chain.{AllOpen}

unfoldable pub closes : List Effect → Bool
closes [] = false
closes (old_files_closed ∷ es) = true
closes (_ ∷ es) = closes es

-- What the pid file of a new cycle comes to. Where the cycle goes on, no effect closes the old files.
-- Where it does not, nothing was done, or the file was opened and its write failed.
abbrev HasEffects : {C : Type 0} → Env C → List ℕ → Bool × List Effect → Type 0
HasEffects env path (true, es) = closes es ≡ false
HasEffects env path (false, es) =
    (es ≡ []) ⊎ ((env.pid_write path ≡ false) × (es ≡ pid_file_opened path ∷ []))

module _ {C : Type 0} (env : Env C) where
  -- Every module was started, on the configuration that was read and with a file for each log; and
  -- the old files were closed at the end, not before.
  abbrev pub Committed : NewCycle C → List Effect → Type 0
  Committed s es =
      (s0 : NewCycle C) × (s1 : NewCycle C) × (s2 : NewCycle C) × (before : List Effect)
      × (configure env empty_cycle ≡ some s0)
      × (s1.slots ≡ s0.slots)
      × AllOpen (s1.logs.head ∷ s1.logs.rest)
      × (init_modules env.modules s1 ≡ some s2)
      × (s.slots ≡ s2.slots)
      × (es ≡ before ++ old_files_closed ∷ [])
      × (closes before ≡ false)

  -- What the result says of the effects.
  abbrev pub IsAtomic : Result C → Type 0
  IsAtomic (no_cycle es) =
      (es ≡ [])
      ⊎ ((s : NewCycle C) × (configure env empty_cycle ≡ some s)
          × (env.pid_write (env.pid_path s) ≡ false)
          × (es ≡ pid_file_opened (env.pid_path s) ∷ []))
  IsAtomic (exit_one es) = closes es ≡ false
  IsAtomic crashed = ⊥
  IsAtomic (new_cycle s es) =
      ((env.process_type ≡ process_signaller) × (configure env empty_cycle ≡ some s) × (es ≡ []))
      ⊎ ((env.process_type ≢ process_signaller) × Committed s es)
