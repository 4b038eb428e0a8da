-- ===== src/Strings/Filled.antt =====
-- A buffer that is filled from its start: what stands before the pointer, and what was there.
use lingx.Base.{
  ℕ, zero, suc, ◌+◌, ◌-◌, ◌≤◌, ◌<◌, ◌≡◌, refl, some, List, [], ◌∷◌, ◌++◌, arith, lt→ltb, length,
  take, drop, length-append, length-take, set_length-append,
}
use mathlib.Core.List.{append-nil, append_assoc}
use lingx.Strings.{memcpy, vslprintf}
use lingx.Strings.Writes.{clamped-length}

-- What is left of the old content behind a text and its terminator.
abbrev pub after : List ℕ → List ℕ → List ℕ
after text rest = 0 ∷ drop (suc (length text)) rest

pub memcpy-filled :
    (pre src rest : List ℕ)
    → length src ≤ length rest
    → memcpy (pre ++ rest) (length pre) src
      ≡ ((pre ++ src) ++ drop (length src) rest, length (pre ++ src))
unfolding memcpy
memcpy-filled pre [] rest l = rw append-nil refl
memcpy-filled pre (c ∷ src) [] l = absurd (omega arith)
memcpy-filled pre (c ∷ src) (r ∷ rest) l =
    let k : length pre + 1 ≡ length (pre ++ c ∷ []) = omega (arith, length-append pre (c ∷ [])) in
    rw
      (
        set_length-append pre rest r c,
        ← append_assoc pre (c ∷ []) rest,
        k,
        memcpy-filled (pre ++ c ∷ []) src rest (omega arith),
        append_assoc pre (c ∷ []) src,
      )
      refl

drop-suc : (n : ℕ) (xs : List ℕ) → n < length xs → (x : ℕ) × (drop n xs ≡ x ∷ drop (suc n) xs)
drop-suc n [] l = absurd (omega arith)
drop-suc zero (x ∷ xs) l = (x, refl)
drop-suc (suc n) (x ∷ xs) l = drop-suc n xs (omega arith)

pub vslprintf-filled :
    (pre rest text : List ℕ) (last : ℕ)
    → length pre < last
    → last ≤ length pre + length rest
    → let fits = take (last - length pre - 1) text in
      vslprintf (pre ++ rest) (length pre) last (some text)
      ≡ ((pre ++ fits) ++ after fits rest, length (pre ++ fits))
unfolding vslprintf
vslprintf-filled pre rest text last l k =
    let fits = take (last - length pre - 1) text in
    let short : length fits < length rest =
      omega (arith, length-take (last - length pre - 1) text) in
    let (r, e) = drop-suc (length fits) rest short in
    rw
      (
        lt→ltb (length pre) last l,
        clamped-length (last - length pre) text (omega arith),
        memcpy-filled pre fits rest (omega arith),
        ← length-append pre fits,
        e,
        set_length-append (pre ++ fits) (drop (suc (length fits)) rest) r 0,
      )
      refl
