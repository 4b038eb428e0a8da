-- ===== src/Log/Files/Total.antt =====
-- Opening a log gives a file.
use lingx.Base.{
  ℕ, ◌≡◌, refl, ap, ◌∙◌, ◌≢◌, inl, inr, Option, none, some, List, [], Bool-cases, Option-cases,
}
use lingx.Log.Files.{
  OpenFile, find_name, find_fd, found_or, with_file, file_of_fd, file_of_name, log_open_file,
}
use lingx.Path.{empty, get_full_name}

file_of_fd-some :
    (fd : ℕ) (n : List ℕ) (files : List OpenFile)
    → (f : OpenFile) × ((file_of_fd fd n files).file ≡ some f)
unfolding file_of_fd
file_of_fd-some fd n files = elim (Option-cases (find_fd fd files)) [
  | inl e ↦ (_, ap (λ o. (found_or files o (with_file fd n files)).file) e)
  | inr (f, e) ↦ (f, ap (λ o. (found_or files o (with_file fd n files)).file) e)
]

file_of_name-some :
    (fd : Option ℕ) (n : List ℕ) (files : List OpenFile)
    → fd ≢ none
    → (f : OpenFile) × ((file_of_name fd n files).file ≡ some f)
unfolding file_of_name
file_of_name-some none n files ne = absurd (ne refl)
file_of_name-some (some k) n files ne = elim (Option-cases (find_name n files)) [
  | inl e ↦
      let (f, q) = file_of_fd-some k n files in
      (f, ap (λ o. (found_or files o (file_of_fd k n files)).file) e ∙ q)
  | inr (f, e) ↦ (f, ap (λ o. (found_or files o (file_of_fd k n files)).file) e)
]

-- If every file can be opened, a call gives a file.
pub log_open_file-some :
    (prefix : List ℕ) (opens : List ℕ → Option ℕ) (name : List ℕ) (files : List OpenFile)
    → ((n : List ℕ) → opens n ≢ none)
    → (f : OpenFile) × ((log_open_file prefix opens name files).file ≡ some f)
unfolding log_open_file
log_open_file-some prefix opens name files never = elim (Bool-cases (empty name)) [
  | inl e ↦ rw e (file_of_fd-some 2 [] files)
  | inr e ↦ rw e (file_of_name-some _ _ files (never (get_full_name prefix name)))
]
