-- ===== src/Log/Chain.antt =====
-- The chain stays sorted under insertion, which is what the loop of `Log::log` relies on.
use lingx.Base.{
  ℕ, ◌≤◌, ◌<◌, ◌≡◌, refl, ap, inl, inr, Bool, false, not, ◌&&◌, ◌||◌, none, some, List, [], ◌∷◌,
  ◌++◌, arith, ltb, leb, ◌==◌, if◌then◌else◌, Bool-cases, if_cases,
}
use mathlib.Core.List.{append-nil}
use lingx.Log.{Log, insert_walk, insert, write_loop, warn, log_writes}

abbrev pub AtMost : ℕ → List Log → Type 0
AtMost n [] = Unit {0}
AtMost n (log ∷ logs) = (log.level ≤ n) × AtMost n logs

-- From the highest level down.
abbrev pub Sorted : List Log → Type 0
Sorted [] = Unit {0}
Sorted (log ∷ logs) = AtMost log.level logs × Sorted logs

pub AtMost-mono : (n k : ℕ) (logs : List Log) → n ≤ k → AtMost n logs → AtMost k logs
AtMost-mono n k [] le a = tt
AtMost-mono n k (log ∷ logs) le a = (omega (arith, a.0), AtMost-mono n k logs le a.1)

AtMost-insert_walk :
    (n : ℕ) (new : Log) (logs : List Log)
    → new.level ≤ n
    → AtMost n logs
    → AtMost n (insert_walk new logs)
unfolding insert_walk
AtMost-insert_walk n new [] le a = (le, tt)
AtMost-insert_walk n new (log ∷ logs) le a =
    let rest = AtMost-insert_walk n new logs le a.1 in
    if_cases (AtMost n) (ltb log.level new.level) (λ e. (le, a)) (λ e. (a.0, rest))

insert_walk-Sorted : (new : Log) (logs : List Log) → Sorted logs → Sorted (insert_walk new logs)
unfolding insert_walk
insert_walk-Sorted new [] s = (tt, tt)
insert_walk-Sorted new (log ∷ logs) s =
    let rest = insert_walk-Sorted new logs s.1 in
    if_cases Sorted (ltb log.level new.level)
      (λ e. (((ground arith), AtMost-mono log.level new.level logs (ground arith) s.0), s))
      (λ e. (AtMost-insert_walk log.level new logs (ground arith) s.0, rest))

-- `new` stands in `after` between two parts of `before`.
abbrev pub Inserted : Log → List Log → List Log → Type 0
Inserted new before after =
    (xs : List Log) × (ys : List Log) × (before ≡ xs ++ ys) × (after ≡ xs ++ new ∷ ys)

insert_walk-Inserted : (new : Log) (logs : List Log) → Inserted new logs (insert_walk new logs)
unfolding insert_walk
insert_walk-Inserted new [] = ([], [], refl, refl)
insert_walk-Inserted new (log ∷ logs) =
    let (xs, ys, p, q) = insert_walk-Inserted new logs in
    if_cases (Inserted new (log ∷ logs)) (ltb log.level new.level)
      (λ e. ([], log ∷ logs, refl, refl))
      (λ e. (log ∷ xs, ys, ap (λ r. log ∷ r) p, ap (λ r. log ∷ r) q))

-- Inserting into a sorted chain gives a sorted chain, that has the new log in one place and the old
-- ones in their order around it, whether the new log becomes the head or not.
pub insert-Sorted :
    (new head : Log) (logs : List Log)
    → Sorted (head ∷ logs)
    → Sorted (insert new head logs) × Inserted new (head ∷ logs) (insert new head logs)
unfolding insert insert_walk
insert-Sorted new head logs s =
    (insert_walk-Sorted new (head ∷ logs) s, insert_walk-Inserted new (head ∷ logs))

-- The descriptor of a log that has one.
abbrev pub fd_of : Log → ℕ
fd_of log = elim log.file [ some fd ↦ fd | none ↦ 0 ]

abbrev pub AllOpen : List Log → Type 0
AllOpen [] = Unit {0}
AllOpen (log ∷ logs) = (log.file ≡ some (fd_of log)) × AllOpen logs

-- The descriptors of all the logs that take a message of this level, wherever they stand.
unfoldable pub reached : ℕ → List Log → List ℕ
reached lvl [] = []
reached lvl (log ∷ logs) =
    if leb lvl log.level then fd_of log ∷ reached lvl logs else reached lvl logs

unfoldable pub has_stderr : List ℕ → Bool
has_stderr [] = false
has_stderr (fd ∷ fds) = fd == 2 || has_stderr fds

reached_below : (lvl n : ℕ) (logs : List Log) → n < lvl → AtMost n logs → reached lvl logs ≡ []
unfolding reached
reached_below lvl n [] lt a = refl
reached_below lvl n (log ∷ logs) lt a =
    let low = a.0 in ground (arith, low, reached_below lvl n logs lt a.1)

write_loop-reached :
    (lvl : ℕ) (logs : List Log) (wrote : Bool)
    → Sorted logs
    → AllOpen logs
    → write_loop lvl logs wrote
      ≡ some (record { fds = reached lvl logs; stderr = wrote || has_stderr (reached lvl logs) })
unfolding write_loop reached has_stderr
write_loop-reached lvl [] wrote s o = ground arith
write_loop-reached lvl (log ∷ logs) wrote s o =
    let fd = fd_of log in
    let rest = write_loop-reached lvl logs (wrote || fd == 2) s.1 o.1 in
    elim (Bool-cases (ltb log.level lvl)) [
      | inl e ↦
          rw (reached_below lvl log.level (log ∷ logs) (ground arith) (omega arith, s.0))
            (ground arith)
      | inr e ↦ rw o.0 (rw rest (ground arith))
    ]

-- In a sorted chain of open logs, a message is written to every log whose level takes it, in the
-- order of the chain; and to stderr in addition if that is in use, the level is at most `warn`, and
-- no log of them was stderr already.
pub log_writes-reached :
    (use_stderr : Bool) (lvl : ℕ) (logs : List Log)
    → Sorted logs
    → AllOpen logs
    → log_writes use_stderr lvl logs
      ≡ some (
          reached lvl logs
          ++ (if use_stderr && leb lvl warn && not (has_stderr (reached lvl logs))
              then 2 ∷ []
              else []))
unfolding log_writes
log_writes-reached use_stderr lvl logs s o =
    rw (write_loop-reached lvl logs false s o) (ground (arith, append-nil (reached lvl logs)))
