-- ===== src/Log/Setup/Complete.antt =====
-- After the configuration is read, every log of a cycle has a file.
use lingx.Base.{
  ℕ, ◌≡◌, refl, sym, ap, ◌∙◌, ◌≢◌, ◌⊎◌, inl, inr, Bool, true, not, ◌||◌, Option, none, some, List,
  [], ◌∷◌, ◌++◌, arith, ltb, ◌==◌, if◌then◌else◌, Bool-cases, if_cases, bind_inv, take,
}
use mathlib.Core.List.{cons-ne-nil}
use mathlib.Core.Option.{some-injective, some-ne-none}
use mathlib.Core.Path.{subst}
use lingx.Conf.Directives.{bytes_eq}
use lingx.Log.{Log, insert, get_file_log, log_writes}
use lingx.Log.Chain.{
  Sorted, AtMost-mono, Inserted, insert-Sorted, fd_of, AllOpen, log_writes-reached,
}
use lingx.Log.Files.{OpenFile}
use lingx.Log.Files.Total.{log_open_file-some}
use lingx.Log.Levels.{bytes, set_levels}
use lingx.Log.Setup.{
  LogState, no_logs, with_chain, fd_of_file, open_log, set_log_file, place_log, log_set_log,
  log_error_level, if_no_file, log_open_default, log_redirect_stderr,
}
use mathlib.Core.Option as Opt

-- The logs while a configuration is read: any number of `error_log` directives that were accepted,
-- with files that could all be opened.
pub data Configured (prefix : List ℕ) : LogState → Type 0 where
  nothing_read : Configured prefix no_logs
  error_log :
      (opens : List ℕ → Option ℕ) (value : List ℕ) (words : List (List ℕ)) (s s' : LogState)
      → ((name : List ℕ) → opens name ≢ none)
      → Configured prefix s
      → log_set_log prefix opens value words s ≡ some s'
      → Configured prefix s'

-- Sorted, with a file for each log, but for the head while it is not in use.
abbrev Filled : LogState → Type 0
Filled s =
    Sorted (s.head ∷ s.rest)
    × AllOpen s.rest
    × ((s.head.file ≡ some (fd_of s.head))
        ⊎ ((s.head.level ≡ 0) × (s.head.file ≡ none) × (s.rest ≡ [])))

-- Sorted, with a file for each log.
abbrev Complete : LogState → Type 0
Complete s = Sorted (s.head ∷ s.rest) × AllOpen (s.head ∷ s.rest)

Complete-Filled : (s : LogState) → Complete s → Filled s
Complete-Filled s c = (c.0, c.1.1, inl c.1.0)

AllOpen-append : (xs ys : List Log) → AllOpen (xs ++ ys) → AllOpen xs × AllOpen ys
AllOpen-append [] ys o = (tt, o)
AllOpen-append (x ∷ xs) ys o = let r = AllOpen-append xs ys o.1 in ((o.0, r.0), r.1)

append-AllOpen : (xs ys : List Log) → AllOpen xs → AllOpen ys → AllOpen (xs ++ ys)
append-AllOpen [] ys o o' = o'
append-AllOpen (x ∷ xs) ys o o' = (o.0, append-AllOpen xs ys o.1 o')

insert-AllOpen :
    (new : Log) (before after : List Log)
    → Inserted new before after
    → new.file ≡ some (fd_of new)
    → AllOpen before
    → AllOpen after
insert-AllOpen new before after (xs, ys, p, q) n o =
    let parts = AllOpen-append xs ys (subst AllOpen p o) in
    rw q (append-AllOpen xs (new ∷ ys) parts.0 (n, parts.1))

with_chain-Complete :
    (chain : List Log) (s : LogState)
    → Sorted chain
    → AllOpen chain
    → chain ≢ []
    → Complete (with_chain chain s)
with_chain-Complete [] s so o ne = absurd (ne refl)
with_chain-Complete (log ∷ logs) s so o ne = (so, o)

insert-ne-nil : (new head : Log) (rest : List Log) → insert new head rest ≢ []
unfolding insert
insert-ne-nil new head rest =
    if_cases (λ (l : List Log). l ≢ []) (ltb head.level new.level) (λ e z. cons-ne-nil _ _ z)
      (λ e z. cons-ne-nil _ _ z)

place_log-Complete :
    (new : Log) (s : LogState) → Filled s → new.file ≡ some (fd_of new) → Complete (place_log new s)
unfolding place_log
place_log-Complete new s f n = elim (Bool-cases (s.head.level == 0)) [
  | inl e ↦ rw e ((AtMost-mono s.head.level new.level s.rest (ground arith) f.0.0, f.0.1), (n, f.1))
  | inr e ↦
      let r = insert-Sorted new s.head s.rest f.0 in
      let open_ : AllOpen (s.head ∷ s.rest) = elim f.2 [
        | inl h ↦ (h, f.1)
        | inr h ↦ absurd (ground (arith, h.0))
      ] in
      rw e (
        with_chain-Complete (insert new s.head s.rest) s r.0 (insert-AllOpen new _ _ r.1 n open_)
          (insert-ne-nil new s.head s.rest))
]

fd_of-some :
    (o : Option OpenFile) (f : OpenFile) (l : ℕ)
    → o ≡ some f
    → fd_of_file o ≡ some (fd_of (record { level = l; file = fd_of_file o }))
fd_of-some none f l h = absurd (some-ne-none f (sym h))
fd_of-some (some g) f l h = refl

module _ (prefix : List ℕ) (opens : List ℕ → Option ℕ)
    (never : (name : List ℕ) → opens name ≢ none) where
  -- What is opened for a log is a file, and the logs stay as they are.
  abbrev Opens : LogState → Option ℕ × LogState → Type 0
  Opens s o =
      ((l : ℕ) → o.0 ≡ some (fd_of (record { level = l; file = o.0 })))
      × (o.1.head ≡ s.head)
      × (o.1.rest ≡ s.rest)

  open_log-Opens : (name : List ℕ) (s : LogState) → Opens s (open_log prefix opens name s)
  unfolding open_log
  open_log-Opens name s =
      let (f, q) = log_open_file-some prefix opens name s.files never in
      (λ l. fd_of-some _ f l q, refl, refl)

  set_log_file-Opens :
      (value : List ℕ) (s : LogState) (o : Option ℕ × LogState)
      → set_log_file prefix opens value s ≡ some o
      → Opens s o
  unfolding set_log_file
  set_log_file-Opens value s o h =
      let before = take 7 value in
      elim (Bool-cases (bytes_eq value (bytes "stderr"))) [
        | inl e ↦
            subst (Opens s)
              (some-injective (open_log prefix opens [] (record s { use_stderr = true })) o
                (sym (rw e refl) ∙ h))
              (open_log-Opens [] (record s { use_stderr = true }))
        | inr e ↦
            elim (Bool-cases
              (bytes_eq before (bytes "memory:") || bytes_eq before (bytes "syslog:"))) [
                | inl g ↦ absurd (some-ne-none o (sym h ∙ rw (e, g) refl))
                | inr g ↦
                    subst (Opens s)
                      (some-injective (open_log prefix opens value s) o (sym (rw (e, g) refl) ∙ h))
                      (open_log-Opens value s)
              ]
      ]

  log_set_log-Complete :
      (value : List ℕ) (words : List (List ℕ)) (s s' : LogState)
      → Filled s
      → log_set_log prefix opens value words s ≡ some s'
      → Complete s'
  unfolding log_set_log
  log_set_log-Complete value words s s' f h =
      let (o, p, h1) = bind_inv (set_log_file prefix opens value s) _ s' h in
      let (level, q, h2) = bind_inv (set_levels words) _ s' h1 in
      let (file_, same_head, same_rest) = set_log_file-Opens value s o p in
      let new : Log = record { level = level; file = o.0 } in
      let f1 : Filled o.1 = rw (same_head, same_rest) f in
      subst Complete (some-injective (place_log new o.1) s' h2)
        (place_log-Complete new o.1 f1 (file_ level))

Configured-Filled : (prefix : List ℕ) (s : LogState) → Configured prefix s → Filled s
Configured-Filled prefix s nothing_read = ((tt, tt), tt, inr (refl, refl, refl))
Configured-Filled prefix s' (error_log opens value words s s1 never before h) =
    Complete-Filled s' (
      log_set_log-Complete prefix opens never value words s s' (Configured-Filled prefix s before)
        h)

get_file_log-open :
    (log : Log) (rest : List Log) (fd : ℕ)
    → log.file ≡ some fd
    → get_file_log (log ∷ rest) ≡ some log
unfolding get_file_log
get_file_log-open log rest fd h = simp h

get_file_log-none :
    (log : Log) (rest : List Log) → log.file ≡ none → rest ≡ [] → get_file_log (log ∷ rest) ≡ none
unfolding get_file_log
get_file_log-none log rest h r = simp (h, r)

log_open_default-Complete :
    (path prefix : List ℕ) (opens : List ℕ → Option ℕ)
    → ((name : List ℕ) → opens name ≢ none)
    → (s : LogState) → Filled s
    → Complete (log_open_default path prefix opens s)
unfolding log_open_default
log_open_default-Complete path prefix opens never s f =
    let opened = open_log prefix opens path s in
    let new : Log = record { level = log_error_level; file = opened.0 } in
    let built : LogState = place_log new opened.1 in
    elim f.2 [
      | inl open_ ↦
          subst (λ o. Complete (if_no_file o s built))
            (sym (get_file_log-open s.head s.rest (fd_of s.head) open_)) (f.0, (open_, f.1))
      | inr (e, none_, r) ↦
          let (file_, same_head, same_rest) = open_log-Opens prefix opens never path s in
          let f1 : Filled opened.1 = rw (same_head, same_rest) f in
          subst (λ o. Complete (if_no_file o s built))
            (sym (get_file_log-none s.head s.rest none_ r))
            (place_log-Complete new opened.1 f1 (file_ log_error_level))
    ]

-- After a configuration whose `error_log` directives are accepted, and the default log if none names
-- a file, every log of the chain has a file and the chain is sorted, if every file could be opened.
-- Then no message of any level meets a null pointer, and neither does the redirection of stderr.
pub log_open_default-AllOpen :
    (path prefix : List ℕ) (opens : List ℕ → Option ℕ)
    → ((name : List ℕ) → opens name ≢ none)
    → (s : LogState) → Configured prefix s
    → let t = log_open_default path prefix opens s in
      Sorted (t.head ∷ t.rest)
      × AllOpen (t.head ∷ t.rest)
      × ((use_stderr : Bool) (lvl : ℕ) → log_writes use_stderr lvl (t.head ∷ t.rest) ≢ none)
      × ((dup2_ok : Bool) → log_redirect_stderr dup2_ok t ≢ none)
unfolding log_redirect_stderr
log_open_default-AllOpen path prefix opens never s c =
    let t = log_open_default path prefix opens s in
    let (so, o) =
      log_open_default-Complete path prefix opens never s (Configured-Filled prefix s c) in
    (
      so,
      o,
      λ u lvl z. some-ne-none _ (sym (log_writes-reached u lvl (t.head ∷ t.rest) so o) ∙ z),
      λ dup2_ok.
          if_cases (λ r. r ≢ none) t.use_stderr (λ e z. some-ne-none true z)
            (λ e z.
              some-ne-none _
                (sym (ap (Opt.map (λ fd. if not (fd == 2) then dup2_ok else true)) o.0) ∙ z)),
    )
