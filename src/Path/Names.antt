-- ===== src/Path/Names.antt =====
-- What the names that `Path` builds look like.
use lingx.Base.{
  ℕ, zero, suc, ◌+◌, ◌≡◌, refl, sym, ap, ◌∙◌, ◌≢◌, ◌⊎◌, inl, inr, true, false, none, some, List, [],
  ◌∷◌, ◌++◌, arith, ◌==◌, if◌then◌else◌, Bool-cases, Option-cases, length, take, drop,
  length-append, get_or-append, take-append, take-append-drop,
}
use mathlib.Core.List.{append_assoc}
use mathlib.Core.Option.{some-injective}
use lingx.Path.{
  separator, char_at, back, empty, tail_separator, is_absolute, get_full_name, rfind, skip_back,
  parent_path,
}

back-append : (s : List ℕ) (c : ℕ) → back (s ++ c ∷ []) ≡ c
unfolding back
back-append [] c = refl
back-append (d ∷ []) c = refl
back-append (d ∷ e ∷ s) c = back-append (e ∷ s) c

-- `Tail_separator` leaves a path that is empty or ends in a separator, changes nothing the second
-- time, and adds nothing but at most one separator at the end.
pub tail_separator_lem :
    (s : List ℕ)
    → ((tail_separator s ≡ []) ⊎ (back (tail_separator s) ≡ separator))
      × (tail_separator (tail_separator s) ≡ tail_separator s)
      × ((tail_separator s ≡ s) ⊎ (tail_separator s ≡ s ++ separator ∷ []))
unfolding tail_separator empty
tail_separator_lem [] = (inl refl, refl, inl refl)
tail_separator_lem (c ∷ s) = elim (Bool-cases (back (c ∷ s) == separator)) [
  | inl e ↦ rw e (rw e (inr (ground arith), refl, inl refl))
  | inr e ↦ rw e (rw (back-append (c ∷ s) separator) (inr refl, refl, inr refl))
]

-- A full name is absolute if its prefix is, or if the name is; an absolute name is kept as it is,
-- and any other is the prefix, a separator if the prefix does not end in one, and the name.
pub get_full_name-is_absolute :
    (prefix name : List ℕ)
    → is_absolute prefix ≡ true
    → is_absolute (get_full_name prefix name) ≡ true
unfolding is_absolute get_full_name tail_separator empty
get_full_name-is_absolute [] name h = cc
get_full_name-is_absolute (c ∷ prefix) name h = ground arith

rfind-append :
    (c : ℕ) (xs name : List ℕ) → rfind c name ≡ none → rfind c (xs ++ c ∷ name) ≡ some (length xs)
unfolding rfind
rfind-append c [] name h = ground (arith, h)
rfind-append c (x ∷ xs) name h = rw (rfind-append c xs name h)

skip_back-separator :
    (path : List ℕ) (i : ℕ)
    → char_at path (suc i) ≡ separator
    → char_at path i ≢ separator
    → skip_back path (suc i) ≡ i
unfolding skip_back
skip_back-separator path zero h k = ground arith
skip_back-separator path (suc i) h k = ground arith

skip_back_of_dir :
    (xs rest : List ℕ) (d : ℕ)
    → d ≢ separator
    → skip_back ((xs ++ d ∷ []) ++ separator ∷ rest) (length (xs ++ d ∷ [])) ≡ length xs
skip_back_of_dir xs rest d ne =
    let e : length (xs ++ d ∷ []) ≡ suc (length xs) = omega (arith, length-append xs (d ∷ [])) in
    let found = get_or-append (xs ++ d ∷ []) rest separator 0 in
    rw e (
      skip_back-separator _ (length xs) (rw e at found) (
        rw (append_assoc xs (d ∷ []) (separator ∷ rest), get_or-append xs (separator ∷ rest) d 0)
          ne))

-- The parent of a file is its directory: `dir/name` has the parent `dir`, if the name has no
-- separator and `dir` is not empty and does not end in one.
pub parent_path_of_file :
    (xs name : List ℕ) (d : ℕ)
    → d ≢ separator
    → rfind separator name ≡ none
    → parent_path ((xs ++ d ∷ []) ++ separator ∷ name) ≡ xs ++ d ∷ []
unfolding parent_path
parent_path_of_file xs name d ne none_in =
    let e : length xs + 1 ≡ length (xs ++ d ∷ []) = omega (arith, length-append xs (d ∷ [])) in
    rw (rfind-append separator (xs ++ d ∷ []) name none_in, skip_back_of_dir xs name d ne, e)
      (take-append (xs ++ d ∷ []) (separator ∷ name))

rfind_of_head : (c d : ℕ) (s : List ℕ) → d ≡ c → (i : ℕ) × (rfind c (d ∷ s) ≡ some i)
unfolding rfind
rfind_of_head c d s h = elim (Option-cases (rfind c s)) [
  | inl e ↦ (0, ground (arith, e, h))
  | inr (i, e) ↦ (suc i, rw e refl)
]

tail_separator_of_dir :
    (c : ℕ) (s : List ℕ)
    → (empty (tail_separator (c ∷ s)) ≡ false) × (back (tail_separator (c ∷ s)) ≡ separator)
unfolding tail_separator empty
tail_separator_of_dir c s = elim (Bool-cases (back (c ∷ s) == separator)) [
  | inl e ↦ rw e (refl, ground arith)
  | inr e ↦ rw e (refl, back-append (c ∷ s) separator)
]

take_one_more : (k c : ℕ) (s : List ℕ) → take (k + 1) (c ∷ s) ≡ c ∷ take k s
take_one_more k c s = let e : k + 1 ≡ suc k = omega arith in ap (λ (m : ℕ). take m (c ∷ s)) e

-- A string is cut before a character that is not its terminator.
take_char :
    (k : ℕ) (s : List ℕ) (c : ℕ)
    → char_at s k ≡ c
    → c ≢ 0
    → (rest : List ℕ) × (s ≡ take k s ++ c ∷ rest) × (take (suc k) s ≡ take k s ++ c ∷ [])
take_char k [] c h ne = absurd (ne (sym h))
take_char zero (d ∷ s) c h ne = (s, ap (λ x. x ∷ s) h, ap (λ x. x ∷ []) h)
take_char (suc k) (d ∷ s) c h ne =
    let (rest, e, cut) = take_char k s c h ne in (rest, ap (◌∷◌ d) e, ap (◌∷◌ d) cut)

rfind_char : (c : ℕ) (s : List ℕ) (i : ℕ) → rfind c s ≡ some i → char_at s i ≡ c
unfolding rfind
rfind_char c [] i h = cc h
rfind_char c (d ∷ s) i h = elim (Option-cases (rfind c s)) [
  | inl e ↦ rfind_head c d s i (rw e at h)
  | inr (j, e) ↦
      let same : suc j ≡ i = some-injective (suc j) i (rw e at h) in
      rw (← same) (rfind_char c s j e)
]
  where
    rfind_head :
        (c d : ℕ) (s : List ℕ) (i : ℕ)
        → (if d == c then some 0 else none) ≡ some i
        → char_at (d ∷ s) i ≡ c
    rfind_head c d s i h = elim (Bool-cases (d == c)) [
      | inl e ↦ let same : 0 ≡ i = some-injective 0 i (rw e at h) in rw (← same) (ground (arith, e))
      | inr e ↦ cc (rw e at h)
    ]

skip_back_lem :
    (path : List ℕ) (i : ℕ)
    → (skip_back path i ≡ i) ⊎ (char_at path (suc (skip_back path i)) ≡ separator)
unfolding skip_back
skip_back_lem path zero = inl refl
skip_back_lem path (suc i) = elim (Bool-cases (char_at path (suc i) == separator)) [
  | inl h ↦ elim (skip_back_lem path i) [
    | inl e ↦ rw h (inr (rw e (ground (arith, h))))
    | inr q ↦ rw h (inr q)
  ]
  | inr h ↦ rw h (inl refl)
]

-- The directory of an absolute name, with a separator at its end.
pub parent_path-is_dir :
    (s : List ℕ)
    → is_absolute s ≡ true
    → (empty (tail_separator (parent_path s)) ≡ false)
      × (back (tail_separator (parent_path s)) ≡ separator)
unfolding parent_path is_absolute empty
parent_path-is_dir [] h = cc
parent_path-is_dir (c ∷ s) h =
    let (i, e) = rfind_of_head separator c s (ground (arith, h)) in
    rw (e, take_one_more (skip_back (c ∷ s) i) c s) (tail_separator_of_dir c _)

-- An absolute name begins with its directory and the separator.
pub parent_path-is_prefix :
    (s : List ℕ)
    → is_absolute s ≡ true
    → (rest : List ℕ) × (s ≡ tail_separator (parent_path s) ++ rest)
unfolding parent_path is_absolute empty tail_separator
parent_path-is_prefix [] h = cc
parent_path-is_prefix (c ∷ s) h =
    let path = c ∷ s in
    let (i, e) = rfind_of_head separator c s (ground (arith, h)) in
    let k = skip_back path i in
    let (_, _, last) = take_char i path separator (rfind_char separator path i e) (omega arith) in
    rw (e, take_one_more k c s)
      (elim (Bool-cases (back (c ∷ take k s) == separator)) [
        | inl b ↦ rw b (drop (suc k) path, sym (take-append-drop (suc k) path))
        | inr b ↦ elim (skip_back_lem path i) [
          | inl same ↦
              let ends : back (take (suc i) path) ≡ separator =
                ap back last ∙ back-append (take i path) separator in
              absurd (ground (arith, b, same, ends))
          | inr q ↦
              let (rest, cut, _) = take_char (suc k) path separator q (omega arith) in
              rw b (rest, cut ∙ sym (append_assoc (take (suc k) path) (separator ∷ []) rest))
        ]
      ])
