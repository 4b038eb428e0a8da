-- ===== src/Log/Files/Once.antt =====
-- A cycle opens a file once, whatever else it opens in between.
use lingx.Base.{
  ℕ, ◌≡◌, refl, sym, ap, ◌∙◌, inl, inr, true, false, Option, none, some, List, [], ◌∷◌, ◌++◌, arith,
  ◌==◌, Bool-cases, Option-cases, if_cases,
}
use mathlib.Core.List.{append-nil}
use mathlib.Core.Option.{some-ne-none}
use mathlib.Core.Path.{subst}
use lingx.Conf.Directives.{bytes_eq}
use lingx.Conf.Directives.First.{bytes_eq_refl}
use lingx.Log.Files.{
  OpenFile, Opened, find_name, find_fd, found_or, with_file, file_of_fd, file_opened, file_of_name,
  log_open_file,
}
use lingx.Path.{empty, get_full_name}

find_name-append :
    (n : List ℕ) (fs gs : List OpenFile) (f : OpenFile)
    → find_name n fs ≡ some f
    → find_name n (fs ++ gs) ≡ some f
unfolding find_name
find_name-append n [] gs f h = absurd (some-ne-none f (sym h))
find_name-append n (g ∷ fs) gs f h = elim (Bool-cases (bytes_eq g.name n)) [
  | inl e ↦ rw e (sym (rw e refl) ∙ h)
  | inr e ↦ rw e (find_name-append n fs gs f (sym (rw e refl) ∙ h))
]

find_name-new :
    (fs : List OpenFile) (f : OpenFile)
    → find_name f.name fs ≡ none
    → find_name f.name (fs ++ f ∷ []) ≡ some f
unfolding find_name
find_name-new [] f h = rw (bytes_eq_refl f.name) refl
find_name-new (g ∷ fs) f h = elim (Bool-cases (bytes_eq g.name f.name)) [
  | inl e ↦ absurd (some-ne-none g (sym (rw e refl) ∙ h))
  | inr e ↦ rw e (find_name-new fs f (sym (rw e refl) ∙ h))
]

find_fd-append :
    (n : ℕ) (fs gs : List OpenFile) (f : OpenFile)
    → find_fd n fs ≡ some f
    → find_fd n (fs ++ gs) ≡ some f
unfolding find_fd
find_fd-append n [] gs f h = absurd (some-ne-none f (sym h))
find_fd-append n (g ∷ fs) gs f h = elim (Bool-cases (g.fd == n)) [
  | inl e ↦ rw e (sym (rw e refl) ∙ h)
  | inr e ↦ rw e (find_fd-append n fs gs f (sym (rw e refl) ∙ h))
]

find_fd-new :
    (fs : List OpenFile) (f : OpenFile)
    → find_fd f.fd fs ≡ none
    → find_fd f.fd (fs ++ f ∷ []) ≡ some f
unfolding find_fd
find_fd-new [] f h = ground arith
find_fd-new (g ∷ fs) f h = elim (Bool-cases (g.fd == f.fd)) [
  | inl e ↦ absurd (some-ne-none g (sym (rw e refl) ∙ h))
  | inr e ↦ rw e (find_fd-new fs f (sym (rw e refl) ∙ h))
]

-- The list after any number of further calls, each with its own outcomes of open().
pub data Calls (prefix : List ℕ) (files : List OpenFile) : List OpenFile → Type 0 where
  stop : Calls prefix files files
  call :
      (opens : List ℕ → Option ℕ) (name : List ℕ) (later : List OpenFile)
      → Calls prefix files later
      → Calls prefix files (log_open_file prefix opens name later).files

-- The list only grows.
abbrev Grows : List OpenFile → List OpenFile → Type 0
Grows files later = (added : List OpenFile) × (later ≡ files ++ added)

file_of_fd-new :
    (fd : ℕ) (n : List ℕ) (files : List OpenFile)
    → find_fd fd files ≡ none
    → file_of_fd fd n files ≡ with_file fd n files
unfolding file_of_fd
file_of_fd-new fd n files e = ap (λ o. found_or files o (with_file fd n files)) e

found_or-Grows :
    (files : List OpenFile) (o : Option OpenFile) (rest : Opened)
    → Grows files rest.files
    → Grows files (found_or files o rest).files
found_or-Grows files (some f) rest g = ([], sym (append-nil files))
found_or-Grows files none rest g = g

file_of_fd-Grows :
    (fd : ℕ) (n : List ℕ) (files : List OpenFile) → Grows files (file_of_fd fd n files).files
unfolding file_of_fd
file_of_fd-Grows fd n files =
    found_or-Grows files (find_fd fd files) _ (record { fd = fd; name = n } ∷ [], refl)

file_of_name-Grows :
    (fd : Option ℕ) (n : List ℕ) (files : List OpenFile)
    → Grows files (file_of_name fd n files).files
unfolding file_of_name
file_of_name-Grows none n files =
    found_or-Grows files (find_name n files) _ ([], sym (append-nil files))
file_of_name-Grows (some fd) n files =
    found_or-Grows files (find_name n files) _ (file_of_fd-Grows fd n files)

-- A file that was found is found again; one that was not is added so that it is found.
found_or-finds :
    (find : List OpenFile → Option OpenFile) (files : List OpenFile) (rest : Opened) (f : OpenFile)
    → (find files ≡ none → rest.file ≡ some f → find rest.files ≡ some f)
    → (found_or files (find files) rest).file ≡ some f
    → find (found_or files (find files) rest).files ≡ some f
found_or-finds find files rest f new h = elim (Option-cases (find files)) [
  | inl e ↦
      subst (λ o. find (found_or files o rest).files ≡ some f) (sym e)
        (new e (sym (ap (λ o. (found_or files o rest).file) e) ∙ h))
  | inr (g, e) ↦
      subst (λ o. find (found_or files o rest).files ≡ some f) (sym e)
        (e ∙ sym (ap (λ o. (found_or files o rest).file) e) ∙ h)
]

module _ (prefix : List ℕ) where
  log_open_file-Grows :
      (opens : List ℕ → Option ℕ) (name : List ℕ) (files : List OpenFile)
      → Grows files (log_open_file prefix opens name files).files
  unfolding log_open_file
  log_open_file-Grows opens name files =
      if_cases (λ (o : Opened). Grows files o.files) (empty name) (λ e. file_of_fd-Grows 2 [] files)
        (λ e. file_of_name-Grows _ _ files)

  -- The search that a call begins with finds this file.
  abbrev Found : List ℕ → OpenFile → List OpenFile → Type 0
  Found name f files =
      (empty name ≡ true → find_fd 2 files ≡ some f)
      × (empty name ≡ false → find_name (get_full_name prefix name) files ≡ some f)

  Found-Grows :
      (name : List ℕ) (f : OpenFile) (files later : List OpenFile)
      → Grows files later
      → Found name f files
      → Found name f later
  Found-Grows name f files later (added, e) found = rw e (
    λ h. find_fd-append 2 files added f (found.0 h),
    λ h. find_name-append _ files added f (found.1 h),
  )

  Found-Calls :
      (name : List ℕ) (f : OpenFile) (files later : List OpenFile)
      → Calls prefix files later
      → Found name f files
      → Found name f later
  Found-Calls name f files later stop found = found
  Found-Calls name f files later (call opens n before calls) found =
      Found-Grows name f before _ (log_open_file-Grows opens n before)
        (Found-Calls name f files before calls found)

  Found-again :
      (opens : List ℕ → Option ℕ) (name : List ℕ) (f : OpenFile) (files : List OpenFile)
      → Found name f files
      → log_open_file prefix opens name files ≡ record { file = some f; files = files }
  unfolding log_open_file file_of_name file_of_fd
  Found-again opens name f files found = elim (Bool-cases (empty name)) [
    | inl e ↦ rw e (ap (λ o. found_or files o (with_file 2 [] files)) (found.0 e))
    | inr e ↦ rw e (
        ap
          (λ o.
            found_or files o
              (file_opened (opens (get_full_name prefix name)) (get_full_name prefix name) files))
          (found.1 e))
  ]

  file_of_fd-found :
      (fd : ℕ) (n : List ℕ) (files : List OpenFile) (f : OpenFile)
      → (file_of_fd fd n files).file ≡ some f
      → find_fd fd (file_of_fd fd n files).files ≡ some f
  unfolding file_of_fd
  file_of_fd-found fd n files f =
      found_or-finds (find_fd fd) files (with_file fd n files) f
        (λ none_ h. find_fd-new files (record { fd = fd; name = n }) none_ ∙ h)

  file_of_name-found :
      (fd : Option ℕ) (n : List ℕ) (files : List OpenFile) (f : OpenFile)
      → ((k : ℕ) → fd ≡ some k → find_fd k files ≡ none)
      → (file_of_name fd n files).file ≡ some f
      → find_name n (file_of_name fd n files).files ≡ some f
  unfolding file_of_name
  file_of_name-found none n files f fresh =
      found_or-finds (find_name n) files (record { file = none; files = files }) f
        (λ _ h. absurd (some-ne-none f (sym h)))
  file_of_name-found (some k) n files f fresh =
      found_or-finds (find_name n) files (file_of_fd k n files) f (λ none_.
        subst (λ (o : Opened). o.file ≡ some f → find_name n o.files ≡ some f)
          (sym (file_of_fd-new k n files (fresh k refl)))
          (λ h. find_name-new files (record { fd = k; name = n }) none_ ∙ h))

  -- A file that was opened for a name is the one that every later call for that name gets, whatever
  -- other calls come between and whatever open() would return: it is not opened a second time and
  -- the list of open files stays as it is. The first open() has to return a descriptor that none of
  -- the open files has. An empty name stands for stderr.
  pub log_open_file-Found :
      (opens : List ℕ → Option ℕ) (name : List ℕ) (files later : List OpenFile) (f : OpenFile)
      → ((k : ℕ) → opens (get_full_name prefix name) ≡ some k → find_fd k files ≡ none)
      → (log_open_file prefix opens name files).file ≡ some f
      → Calls prefix (log_open_file prefix opens name files).files later
      → (opens' : List ℕ → Option ℕ)
      → log_open_file prefix opens' name later ≡ record { file = some f; files = later }
  unfolding log_open_file
  log_open_file-Found opens name files later f fresh h calls opens' =
      let first : Found name f (log_open_file prefix opens name files).files =
        elim (Bool-cases (empty name)) [
          | inl e ↦ (
            λ _. rw e (file_of_fd-found 2 [] files f (sym (rw e refl) ∙ h)),
            λ e'. absurd (cc (sym e ∙ e')),
          )
          | inr e ↦ (
            λ e'. absurd (cc (sym e ∙ e')),
            λ _. rw e (file_of_name-found _ _ files f fresh (sym (rw e refl) ∙ h)),
          )
        ] in
      Found-again opens' name f later (Found-Calls name f _ later calls first)
