-- ===== src/Log/Levels.antt =====
-- `Log_set_levels_` of src/lingx/core/log.cc: the level that the words of an `error_log` directive
-- set. The names of the levels, in their order, are the two tables of the source.
use Prim.Native.Char.{code}
use Prim.Native.String.{String}
use lingx.Base.{
  ℕ, ◌+◌, ◌*◌, ◌/◌, ◌%◌, ◌^◌, ◌≤◌, ◌<◌, ◌≡◌, refl, ◌⊎◌, inl, inr, Bool, true, false, not, ◌&&◌,
  Option, none, some, List, [], ◌∷◌, arith, ltb, ◌==◌, if◌then◌else◌, Bool-cases, if_cases, length,
}
use mathlib.Core.Option.{some-injective}
use lingx.Conf.Directives.{bytes_eq}

abbrev pub bytes : String → List ℕ
bytes String.[] = []
bytes (String.◌∷◌ c s) = code c ∷ bytes s

abbrev pub level_names : List (List ℕ)
level_names =
    bytes "emerg"
    ∷ bytes "alert"
    ∷ bytes "crit"
    ∷ bytes "error"
    ∷ bytes "warn"
    ∷ bytes "notice"
    ∷ bytes "info"
    ∷ bytes "debug"
    ∷ []

abbrev pub debug_names : List (List ℕ)
debug_names =
    bytes "debug_core"
    ∷ bytes "debug_alloc"
    ∷ bytes "debug_mutex"
    ∷ bytes "debug_event"
    ∷ bytes "debug_http"
    ∷ bytes "debug_mail"
    ∷ bytes "debug_stream"
    ∷ []

-- The place of a word in a table, from `n` on.
unfoldable pub index_of : List ℕ → List (List ℕ) → ℕ → Option ℕ
unfolding bytes_eq
index_of w [] n = none
index_of w (x ∷ xs) n = if bytes_eq w x then some n else index_of w xs (n + 1)

-- `level | d` for a power of two.
unfoldable pub set_bit : ℕ → ℕ → ℕ
set_bit level d = if (level / d) % 2 == 1 then level else level + d

-- `level & ~DEBUG_ALL`: bits 0 to 3 and 31 upwards.
unfoldable pub outside_debug : ℕ → Bool
outside_debug level = not (level % 16 == 0 && ltb level (2 ^ 31))

-- One word: the new level, or none for an error.
unfoldable pub set_level_word : ℕ → List ℕ → Option ℕ
set_level_word level w = elim (index_of w level_names 1) [
  | some n ↦ if level == 0 then some n else none
  | none ↦ elim (index_of w debug_names 0) [
    | some k ↦ if outside_debug level then none else some (set_bit level (16 * 2 ^ k))
    | none ↦ none
  ]
]

unfoldable pub set_level_words : ℕ → List (List ℕ) → Option ℕ
set_level_words level [] = some level
set_level_words level (w ∷ ws) = elim (set_level_word level w) [
  | some l ↦ set_level_words l ws
  | none ↦ none
]

abbrev pub debug_all : ℕ
debug_all = 2147483632

-- `values` without the directive's name and the file: no words stand for `error`. The log is new,
-- or has the level `STDERR`, so that its level is 0.
unfoldable pub set_levels : List (List ℕ) → Option ℕ
set_levels [] = some 4
set_levels (w ∷ ws) = elim (set_level_words 0 (w ∷ ws)) [
  | some l ↦ some (if l == 8 then debug_all else l)
  | none ↦ none
]

index_of-bound :
    (w : List ℕ) (xs : List (List ℕ)) (n k : ℕ) → index_of w xs n ≡ some k → k < n + length xs
unfolding index_of
index_of-bound w [] n k h = absurd (cc)
index_of-bound w (x ∷ xs) n k h = elim (Bool-cases (bytes_eq w x)) [
  | inl e ↦ let found : n ≡ k = some-injective n k (rw e at h) in omega arith
  | inr e ↦ omega (arith, index_of-bound w xs (n + 1) k (rw e at h))
]

-- One level, or a set of debug levels.
abbrev pub IsPlainOrDebug : ℕ → ℕ → Type 0
IsPlainOrDebug top l = (l ≤ top) ⊎ (l % 16 ≡ 0)

none≢some : {A : Type 0} (a : A) → Path (Option A) none (some a) → ⊥
none≢some a h = cc

match_inv :
    {A B : Type 0} (o : Option A) (f : A → Option B) (z : Option B) (b : B)
    → Path (Option B) (elim o [ some a ↦ f a | none ↦ z ]) (some b)
    → ((a : A) × (o ≡ some a) × (f a ≡ some b)) ⊎ ((o ≡ none) × (z ≡ some b))
match_inv none f z b h = inr (refl, h)
match_inv (some a) f z b h = inl (a, refl, h)

accepted_inv :
    {A : Type 0} (t : Bool) (x : Option A) (y : A)
    → (if t then x else none) ≡ some y
    → (t ≡ true) × (x ≡ some y)
accepted_inv true x y h = (refl, h)
accepted_inv false x y h = absurd (none≢some y h)

refused_inv :
    {A : Type 0} (t : Bool) (x : Option A) (y : A)
    → (if t then none else x) ≡ some y
    → (t ≡ false) × (x ≡ some y)
refused_inv true x y h = absurd (none≢some y h)
refused_inv false x y h = (refl, h)

inside : (level : ℕ) → outside_debug level ≡ false → level % 16 ≡ 0
unfolding outside_debug
inside level e = ground arith

set_bit_multiple : (level m : ℕ) → level % 16 ≡ 0 → set_bit level (16 * m) % 16 ≡ 0
unfolding set_bit
set_bit_multiple level m e =
    if_cases (λ l. l % 16 ≡ 0) ((level / (16 * m)) % 2 == 1) (λ b. e) (λ b. omega arith)

set_level_word-IsPlainOrDebug :
    (level : ℕ) (w : List ℕ) (l : ℕ) → set_level_word level w ≡ some l → IsPlainOrDebug 8 l
unfolding set_level_word
set_level_word-IsPlainOrDebug level w l h =
    let debug = λ (k : Option ℕ). elim k as (λ _. Option ℕ) [
      | some n ↦ if outside_debug level then none else some (set_bit level (16 * 2 ^ n))
      | none ↦ none
    ] in
    elim (match_inv (index_of w level_names 1) (λ n. if level == 0 then some n else none)
      (debug (index_of w debug_names 0)) l h) [
        | inl (n, e, k) ↦
            let bound = index_of-bound w level_names 1 n e in
            let same = some-injective n l (accepted_inv (level == 0) (some n) l k).1 in
            inl (omega (arith, bound, same))
        | inr (e, k) ↦
            elim (match_inv (index_of w debug_names 0)
              (λ n. if outside_debug level then none else some (set_bit level (16 * 2 ^ n))) none l
              k) [
                | inl (n, f, g) ↦
                    let (z, q) =
                      refused_inv (outside_debug level) (some (set_bit level (16 * 2 ^ n))) l g in
                    let same = some-injective (set_bit level (16 * 2 ^ n)) l q in
                    inr (rw (← same) (set_bit_multiple level (2 ^ n) (inside level z)))
                | inr (f, g) ↦ absurd (none≢some l g)
              ]
      ]

set_level_words-IsPlainOrDebug :
    (level : ℕ) (ws : List (List ℕ)) (l : ℕ)
    → IsPlainOrDebug 8 level
    → set_level_words level ws ≡ some l
    → IsPlainOrDebug 8 l
unfolding set_level_words
set_level_words-IsPlainOrDebug level [] l v h =
    let same : level ≡ l = some-injective level l h in rw (← same) v
set_level_words-IsPlainOrDebug level (w ∷ ws) l v h =
    elim (match_inv (set_level_word level w) (λ k. set_level_words k ws) none l h) [
      | inl (k, e, q) ↦
          set_level_words-IsPlainOrDebug k ws l (set_level_word-IsPlainOrDebug level w k e) q
      | inr (e, q) ↦ absurd (none≢some l q)
    ]

-- The level that an `error_log` directive sets, if its words are accepted, is one of the plain
-- levels below `debug`, or a set of debug levels; the words never mix the two, and `debug` alone
-- stands for all debug levels.
pub set_levels-IsPlainOrDebug :
    (ws : List (List ℕ)) (l : ℕ) → set_levels ws ≡ some l → IsPlainOrDebug 7 l
unfolding set_levels
set_levels-IsPlainOrDebug [] l h = let same : 4 ≡ l = some-injective 4 l h in inl (omega arith)
set_levels-IsPlainOrDebug (w ∷ ws) l h =
    let top = λ (k : ℕ). if k == 8 then debug_all else k in
    elim (match_inv (set_level_words 0 (w ∷ ws)) (λ k. some (top k)) none l h) [
      | inl (k, e, q) ↦
          let valid = set_level_words-IsPlainOrDebug 0 (w ∷ ws) k (inl (omega arith)) e in
          let same = some-injective (top k) l q in
          rw (← same) (if_cases (IsPlainOrDebug 7) (k == 8) (λ b. inr refl) (λ b. ground arith))
      | inr (e, q) ↦ absurd (none≢some l q)
    ]
