-- ===== src/Log.antt =====
-- src/lingx/core/log.cc: the chain of logs, sorted by level, and what `Log::log` writes to it. The
-- chain from a log on is a list, its head the object that the cycle refers to; what `std::swap`
-- exchanges is the content of two objects, so that the list has the new content first. `file` is the
-- descriptor, none where no file is set.
pub mod Chain
pub mod Levels
pub mod Files
pub mod Setup
pub mod Message
use lingx.Base.{
  ℕ, Bool, false, not, ◌||◌, Option, none, some, List, [], ◌∷◌, ◌++◌, ltb, ◌==◌, if◌then◌else◌,
}
use mathlib.Core.Option as Opt

pub record Log : Type 0 where
  pub level : ℕ
  pub file : Option ℕ

-- The walk of `Log_insert` behind the head.
unfoldable pub insert_walk : Log → List Log → List Log
insert_walk new [] = new ∷ []
insert_walk new (log ∷ logs) =
    if ltb log.level new.level then new ∷ log ∷ logs else log ∷ insert_walk new logs

unfoldable pub insert : Log → Log → List Log → List Log
unfolding insert_walk
insert new head logs =
    if ltb head.level new.level then new ∷ head ∷ logs else head ∷ insert_walk new logs

-- `Get_file_log`.
unfoldable pub get_file_log : List Log → Option Log
get_file_log [] = none
get_file_log (log ∷ logs) = elim log.file [ some fd ↦ some log | none ↦ get_file_log logs ]

pub record Written : Type 0 where
  pub fds : List ℕ
  pub stderr : Bool

-- The loop of `Log::log`: the descriptors it writes to, and `wrote_stderr`. A log of the chain that
-- has no file is a null pointer that is dereferenced: none.
unfoldable pub write_loop : ℕ → List Log → Bool → Option Written
write_loop lvl [] wrote = some (record { fds = []; stderr = wrote })
write_loop lvl (log ∷ logs) wrote =
    if ltb log.level lvl then some (record { fds = []; stderr = wrote }) else elim log.file [
      | none ↦ none
      | some fd ↦
          Opt.map (λ (w : Written). record w { fds = fd ∷ w.fds })
            (write_loop lvl logs (wrote || fd == 2))
    ]

abbrev pub warn : ℕ
warn = 5

-- The writes of `Log::log`: descriptors in order, the message to stderr last.
unfoldable pub log_writes : Bool → ℕ → List Log → Option (List ℕ)
unfolding write_loop
log_writes use_stderr lvl logs =
    Opt.map
      (λ (w : Written).
        if not use_stderr || ltb warn lvl || w.stderr then w.fds else w.fds ++ 2 ∷ [])
      (write_loop lvl logs false)
