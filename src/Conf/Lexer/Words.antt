-- ===== src/Conf/Lexer/Words.antt =====
-- What becomes of the escape sequences of a word.
use lingx.Base.{
  ℕ, suc, ◌-◌, ◌≤◌, ◌≡◌, refl, ◌≢◌, some, List, [], ◌∷◌, ◌++◌, arith, length, replicate,
  length-append, length-replicate,
}
use mathlib.Core.List.{append-nil}
use lingx.Conf.Lexer.{backslash, escape, unescape, word}

length-unescape : (after : ℕ) (raw : List ℕ) → length (unescape after raw) ≤ length raw
unfolding unescape
length-unescape after [] = omega arith
length-unescape after (c ∷ []) = ground arith
length-unescape after (c ∷ d ∷ raw) =
    ground (arith, length-unescape after raw, length-unescape after (d ∷ raw))

-- The length of a word of `args_` is the length of its text in the file, escapes included.
pub length-word : (after : ℕ) (raw : List ℕ) → length (word after raw) ≡ length raw
unfolding word
length-word after raw = omega (
  arith,
  length-unescape after raw,
  length-append (unescape after raw) (replicate (length raw - length (unescape after raw)) 0),
  length-replicate {A = ℕ} (length raw - length (unescape after raw)) 0,
)

unescape-escape :
    (after c d v : ℕ) (raw : List ℕ)
    → escape c d ≡ some v
    → unescape after (c ∷ d ∷ raw) ≡ v ∷ unescape after raw
unfolding unescape
unescape-escape after c d v raw e = ground arith

-- An escape sequence at the front of a word is replaced by its one character, and then the word ends
-- in at least one NUL byte that is not in the file: it differs from the same word written plainly.
pub word_with_escape :
    (after c d v : ℕ) (raw : List ℕ)
    → escape c d ≡ some v
    → (k : ℕ) × (word after (c ∷ d ∷ raw) ≡ (v ∷ unescape after raw) ++ replicate (suc k) 0)
unfolding word
word_with_escape after c d v raw e =
    let n = length raw - length (unescape after raw) in
    let k : suc (suc (length raw)) - suc (length (unescape after raw)) ≡ suc n =
      omega (arith, length-unescape after raw) in
    (n, rw (unescape-escape after c d v raw e, k) refl)

abbrev pub NoBackslash : List ℕ → Type 0
NoBackslash [] = Unit {0}
NoBackslash (c ∷ cs) = (c ≢ backslash) × NoBackslash cs

unescape_plain : (after : ℕ) (raw : List ℕ) → NoBackslash raw → unescape after raw ≡ raw
unfolding unescape
unescape_plain after [] h = refl
unescape_plain after (c ∷ []) h = ground arith
unescape_plain after (c ∷ d ∷ raw) h = ground (arith, unescape_plain after (d ∷ raw) h.1)

-- A word without a backslash is taken as it stands in the file.
pub word_plain : (after : ℕ) (raw : List ℕ) → NoBackslash raw → word after raw ≡ raw
unfolding word
word_plain after raw h =
    let k : length raw - length raw ≡ 0 = omega arith in
    rw (unescape_plain after raw h, k) (append-nil raw)
