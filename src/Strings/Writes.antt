-- ===== src/Strings/Writes.antt =====
-- Which bytes the functions that write into a buffer touch, and what they leave there.
use lingx.Base.{
  ℕ, zero, suc, ◌+◌, ◌-◌, ◌≤◌, ◌<◌, ◌≡◌, refl, sym, ap, ◌∙◌, ◌≢◌, inl, inr, false, Option, none,
  some, List, [], ◌∷◌, ◌++◌, arith, ltb, leb, ◌==◌, if◌then◌else◌, ltb→lt, Bool-cases, length,
  get_or, set, take, drop, length-append, length-take, set_length-append, get_or-set_ne, length-set,
}
use mathlib.Core.List.{append_assoc}
use lingx.Strings.{strncpy_loop, strncpy, memcpy, vslprintf}

-- From `buf` a call wrote up to its returned pointer, and nothing outside.
pub record WritesFrom (mem : List ℕ) (buf : ℕ) (r : List ℕ × ℕ) : Type 0 where
  pub forward : buf ≤ r.1
  pub below : (i : ℕ) → i < buf → get_or r.0 i 0 ≡ get_or mem i 0
  pub above : (i : ℕ) → r.1 < i → get_or r.0 i 0 ≡ get_or mem i 0

set-ne : (mem : List ℕ) (j v i : ℕ) → i ≢ j → get_or (set mem j v) i 0 ≡ get_or mem i 0
set-ne mem j v i h = get_or-set_ne mem v 0 (λ e. h (sym e))

terminated : (mem : List ℕ) (dst v : ℕ) → WritesFrom mem dst (set mem dst v, dst)
terminated mem dst v = record {
  forward = omega arith;
  below = λ i h. set-ne mem dst v i (omega arith);
  above = λ i h. set-ne mem dst v i (omega arith);
}

-- One more byte in front.
WritesFrom-set :
    (mem : List ℕ) (dst c : ℕ) (r : List ℕ × ℕ)
    → WritesFrom (set mem dst c) (dst + 1) r
    → WritesFrom mem dst r
WritesFrom-set mem dst c r w = record {
  forward = omega (arith, w.forward);
  below = λ i h. w.below i (omega arith) ∙ set-ne mem dst c i (omega arith);
  above = λ i h. w.above i h ∙ set-ne mem dst c i (omega (arith, w.forward));
}

strncpy_loop-WritesFrom :
    (mem : List ℕ) (dst : ℕ) (src : List ℕ) (n : ℕ)
    → WritesFrom mem dst (strncpy_loop mem dst src n) × ((strncpy_loop mem dst src n).1 ≤ dst + n)
unfolding strncpy_loop
strncpy_loop-WritesFrom mem dst src zero = (terminated mem dst 0, omega arith)
strncpy_loop-WritesFrom mem dst [] (suc n) = (terminated mem dst 0, omega arith)
strncpy_loop-WritesFrom mem dst (c ∷ src) (suc n) = elim (Bool-cases (c == 0)) [
  | inl e ↦ rw e (terminated mem dst c, omega arith)
  | inr e ↦
      let rest = strncpy_loop-WritesFrom (set mem dst c) (dst + 1) src n in
      rw e (WritesFrom-set mem dst c _ rest.0, omega (arith, rest.1))
]

-- With a count above 0, `Strncpy` writes from `dst` up to the pointer that it returns, which is
-- less than `dst + n`, and no other byte.
pub strncpy-WritesFrom :
    (mem : List ℕ) (dst : ℕ) (src : List ℕ) (n : ℕ)
    → 0 < n
    → WritesFrom mem dst (strncpy mem dst src n) × ((strncpy mem dst src n).1 < dst + n)
unfolding strncpy
strncpy-WritesFrom mem dst src zero h = absurd (omega arith)
strncpy-WritesFrom mem dst src (suc n) h =
    let w = strncpy_loop-WritesFrom mem dst src n in (w.0, omega (arith, w.1))

abbrev pub NonZero : List ℕ → Type 0
NonZero [] = Unit {0}
NonZero (c ∷ cs) = (0 < c) × NonZero cs

-- What a copy of at most `n` bytes of `src` over `old` leaves.
abbrev pub copied : List ℕ → ℕ → List ℕ → List ℕ
copied src n old = take n src ++ 0 ∷ drop (suc (length (take n src))) old

strncpy_loop-copied :
    (pre src : List ℕ) (n : ℕ) (old : List ℕ)
    → NonZero src
    → n < length old
    → strncpy_loop (pre ++ old) (length pre) src n
      ≡ (pre ++ copied src n old, length pre + length (take n src))
unfolding strncpy_loop
strncpy_loop-copied pre src n [] nz h = absurd (omega arith)
strncpy_loop-copied pre src zero (o ∷ old) nz h =
    rw (set_length-append pre old o 0) (ap (λ m. (pre ++ 0 ∷ old, m)) (omega arith))
strncpy_loop-copied pre [] (suc n) (o ∷ old) nz h =
    rw (set_length-append pre old o 0) (ap (λ m. (pre ++ 0 ∷ old, m)) (omega arith))
strncpy_loop-copied pre (c ∷ src) (suc n) (o ∷ old) nz h =
    let live : (c == 0) ≡ false = ground arith in
    let e : length pre + 1 ≡ length (pre ++ c ∷ []) = omega (arith, length-append pre (c ∷ [])) in
    rw (live, set_length-append pre old o c, ← append_assoc pre (c ∷ []) old, e)
      (rw (strncpy_loop-copied (pre ++ c ∷ []) src n old nz.1 (omega arith)) (
        rw (append_assoc pre (c ∷ []) (copied src n old))
          (ap (λ m. (pre ++ c ∷ copied src n old, m)) (omega arith))))

-- `Strncpy` with a count `n` above 0 replaces the buffer's bytes from `dst` on by the first
-- `n - 1` bytes of the C string `src`, or all if there are fewer, and a terminator; the rest stays,
-- and the pointer returned is that of the terminator. The buffer has `n` bytes behind `dst`.
pub strncpy-copied :
    (pre src : List ℕ) (n : ℕ) (old : List ℕ)
    → NonZero src
    → 0 < n
    → n ≤ length old
    → strncpy (pre ++ old) (length pre) src n
      ≡ (pre ++ copied src (n - 1) old, length pre + length (take (n - 1) src))
unfolding strncpy
strncpy-copied pre src zero old nz h k = absurd (omega arith)
strncpy-copied pre src (suc n) old nz h k =
    let e : suc n - 1 ≡ n = omega arith in rw (e, strncpy_loop-copied pre src n old nz k)

pub memcpy-WritesFrom :
    (mem : List ℕ) (dst : ℕ) (src : List ℕ)
    → ((memcpy mem dst src).1 ≡ dst + length src)
      × ((i : ℕ) → i < dst → get_or (memcpy mem dst src).0 i 0 ≡ get_or mem i 0)
      × ((i : ℕ) → dst + length src ≤ i → get_or (memcpy mem dst src).0 i 0 ≡ get_or mem i 0)
unfolding memcpy
memcpy-WritesFrom mem dst [] = (omega arith, λ i h. refl, λ i h. refl)
memcpy-WritesFrom mem dst (c ∷ src) =
    let rest = memcpy-WritesFrom (set mem dst c) (dst + 1) src in
    (
      omega (arith, rest.0),
      λ i h. rest.1 i (omega arith) ∙ set-ne mem dst c i (omega arith),
      λ i h. rest.2 i (omega arith) ∙ set-ne mem dst c i (omega arith),
    )

pub length-memcpy :
    (mem : List ℕ) (dst : ℕ) (src : List ℕ) → length (memcpy mem dst src).0 ≡ length mem
unfolding memcpy
length-memcpy mem dst [] = refl
length-memcpy mem dst (c ∷ src) = length-memcpy (set mem dst c) (dst + 1) src ∙ length-set mem dst c

copy-WritesFrom :
    (mem : List ℕ) (buf : ℕ) (fits : List ℕ)
    → WritesFrom mem buf (set (memcpy mem buf fits).0 (buf + length fits) 0, buf + length fits)
copy-WritesFrom mem buf fits =
    let w = memcpy-WritesFrom mem buf fits in
    record {
      forward = omega arith;
      below = λ i h. set-ne _ (buf + length fits) 0 i (omega arith) ∙ w.1 i h;
      above = λ i h. set-ne _ (buf + length fits) 0 i (omega arith) ∙ w.2 i (omega arith);
    }

-- The clamped length that `Vslprintf` returns is that of the text which fits.
pub clamped-length :
    (size : ℕ) (text : List ℕ)
    → 0 < size
    → (if leb size (length text) then size - 1 else length text) ≡ length (take (size - 1) text)
clamped-length size text h = ground (arith, length-take (size - 1) text)

vslprintf_cases :
    (mem : List ℕ) (buf last : ℕ) (text : Option (List ℕ))
    → WritesFrom mem buf (vslprintf mem buf last text)
      × (buf < last → (vslprintf mem buf last text).1 < last)
      × (last ≤ buf → vslprintf mem buf last text ≡ (mem, buf))
unfolding vslprintf
vslprintf_cases mem buf last none =
    (record { forward = omega arith; below = λ i h. refl; above = λ i h. refl }, λ h. h, λ h. refl)
vslprintf_cases mem buf last (some text) = elim (Bool-cases (ltb buf last)) [
  | inl room ↦
      let lt : buf < last = ltb→lt buf last room in
      rw (room, clamped-length (last - buf) text (omega arith))
        (
          copy-WritesFrom mem buf (take (last - buf - 1) text),
          λ h. omega (arith, length-take (last - buf - 1) text),
          λ h. absurd (omega arith),
        )
  | inr full ↦ rw full (
    record { forward = omega arith; below = λ i h. refl; above = λ i h. refl },
    λ h. absurd (ground arith),
    λ h. refl,
  )
]

-- If there is room between `buf` and `last`, `Vslprintf` returns a pointer from `buf` on and before
-- `last`, and writes no byte before `buf` nor behind the returned pointer.
pub vslprintf-WritesFrom :
    (mem : List ℕ) (buf last : ℕ) (text : Option (List ℕ))
    → buf < last
    → WritesFrom mem buf (vslprintf mem buf last text) × ((vslprintf mem buf last text).1 < last)
vslprintf-WritesFrom mem buf last text h = let w = vslprintf_cases mem buf last text in (w.0, w.1 h)
