-- ===== src/Log/Message/Text.antt =====
-- What stands in the buffer of a message: each text, cut where the buffer ends.
use lingx.Base.{
  ℕ, suc, ◌+◌, ◌-◌, ◌≤◌, ◌<◌, ◌≡◌, refl, sym, ap, ◌∙◌, inl, inr, Option, none, some, List, [], ◌∷◌,
  ◌++◌, arith, ltb, if◌then◌else◌, ltb→lt, lt→ltb, Bool-cases, length, set, take, drop,
  length-append, length-take, length-drop, set_length-append, take-append-drop,
}
use mathlib.Core.List.{append_assoc}
use lingx.Errors.{max_error_str, dots, make_room, close_paren, strerror, strerrno}
use lingx.Log.Message.{message_last, add_error}
use lingx.Strings.{memcpy, vslprintf}
use lingx.Strings.Filled.{after, memcpy-filled, vslprintf-filled}
use lingx.Strings.Writes.{NonZero, strncpy-copied}

-- The buffer holds `pre` up to the pointer, and has the size of the source's.
pub record Filled (r : List ℕ × ℕ) (pre : List ℕ) : Type 0 where
  pub rest : List ℕ
  pub whole : r ≡ (pre ++ rest, length pre)
  pub size : length pre + length rest ≡ max_error_str

-- A text behind `pre`, cut so that a terminator stands before the last byte.
abbrev pub fitted : List ℕ → List ℕ → List ℕ
fitted pre words = pre ++ take (message_last - length pre - 1) words

-- An error behind `pre`, of which the last 50 bytes of the buffer are left to the error.
abbrev pub room_for_error : List ℕ → List ℕ
room_for_error pre =
    if ltb message_last (length pre + 50) then take (message_last - 50) pre ++ dots else pre

abbrev pub with_error : List ℕ → Option (List ℕ × List ℕ) → List ℕ
with_error pre none = pre
with_error pre (some (prefix, msg)) = fitted (fitted (room_for_error pre) prefix) msg ++ b')' ∷ []

-- The message of an error is a C string.
abbrev pub IsText : Option (List ℕ × List ℕ) → Type 0
IsText none = Unit {0}
IsText (some (prefix, msg)) = NonZero msg

pub length-fitted :
    (pre words : List ℕ) → length pre < message_last → length (fitted pre words) < message_last
length-fitted pre words l = omega (
  arith,
  length-append pre (take (message_last - length pre - 1) words),
  length-take (message_last - length pre - 1) words,
)

pub Filled-take :
    (r : List ℕ × ℕ) (pre src : List ℕ)
    → Filled r pre
    → length pre + length src ≤ max_error_str
    → Filled (memcpy r.0 r.1 src) (pre ++ src)
Filled-take r pre src f l = rw f.whole (record {
  rest = drop (length src) f.rest;
  whole = memcpy-filled pre src f.rest (omega (arith, f.size));
  size = omega (arith, f.size, length-append pre src, length-drop (length src) f.rest);
})

fitted-size :
    (pre words rest : List ℕ)
    → length pre < message_last
    → length pre + length rest ≡ max_error_str
    → length (fitted pre words) + length (after (take (message_last - length pre - 1) words) rest)
      ≡ max_error_str
fitted-size pre words rest l e =
    let fits = take (message_last - length pre - 1) words in
    omega (
      arith,
      length-append pre fits,
      length-take (message_last - length pre - 1) words,
      length-drop (suc (length fits)) rest,
    )

pub Filled-vslprintf :
    (r : List ℕ × ℕ) (pre words : List ℕ)
    → Filled r pre
    → length pre < message_last
    → Filled (vslprintf r.0 r.1 message_last (some words)) (fitted pre words)
Filled-vslprintf r pre words f l = rw f.whole (record {
  rest = after (take (message_last - length pre - 1) words) f.rest;
  whole = vslprintf-filled pre f.rest words message_last l (omega (arith, f.size));
  size = fitted-size pre words f.rest l f.size;
})

pub Filled-set :
    (r : List ℕ × ℕ) (pre : List ℕ) (c : ℕ)
    → Filled r pre
    → length pre < max_error_str
    → Filled (set r.0 r.1 c, r.1 + 1) (pre ++ c ∷ [])
Filled-set r pre c f l = rw f.whole (put f.rest f.size)
  where
    put :
        (rest : List ℕ)
        → length pre + length rest ≡ max_error_str
        → Filled (set (pre ++ rest) (length pre) c, length pre + 1) (pre ++ c ∷ [])
    put [] e = absurd (omega arith)
    put (x ∷ rest) e = record {
      rest = rest;
      whole =
          rw
            (
              set_length-append pre rest x c,
              length-append pre (c ∷ []),
              append_assoc pre (c ∷ []) rest,
            )
            refl;
      size = omega (arith, length-append pre (c ∷ []));
    }

Filled-strerror :
    (r : List ℕ × ℕ) (pre msg : List ℕ)
    → Filled r pre
    → NonZero msg
    → length pre < message_last
    → Filled (strerror r.0 r.1 msg (message_last - r.1)) (fitted pre msg)
unfolding strerror
Filled-strerror r pre msg f nz l = rw f.whole (record {
  rest = after (take (message_last - length pre - 1) msg) f.rest;
  whole =
      strncpy-copied pre msg (message_last - length pre) f.rest nz (omega arith)
        (omega (arith, f.size))
      ∙ rw
          (
            length-append pre (take (message_last - length pre - 1) msg),
            append_assoc pre (take (message_last - length pre - 1) msg)
                (after (take (message_last - length pre - 1) msg) f.rest),
          )
          refl;
  size = fitted-size pre msg f.rest l f.size;
})

make_room_near :
    (pre rest : List ℕ)
    → length pre + length rest ≡ max_error_str
    → message_last < length pre + 50
    → Filled (memcpy (pre ++ rest) (message_last - 50) dots) (take (message_last - 50) pre ++ dots)
make_room_near pre rest e l =
    let a = take (message_last - 50) pre in
    let b = drop (message_last - 50) pre in
    let whole : pre ++ rest ≡ a ++ (b ++ rest) =
      ap (λ xs. xs ++ rest) (sym (take-append-drop (message_last - 50) pre))
      ∙ append_assoc a b rest in
    let size : length a ≡ message_last - 50 = omega (arith, length-take (message_last - 50) pre) in
    rw (whole, sym size)
      (Filled-take (a ++ (b ++ rest), length a) a dots
        (record {
          rest = b ++ rest;
          whole = refl;
          size = omega (arith, length-append b rest, length-drop (message_last - 50) pre);
        })
        (omega arith))

Filled-room :
    (r : List ℕ × ℕ) (pre : List ℕ)
    → Filled r pre
    → Filled (make_room r.0 r.1 message_last) (room_for_error pre)
unfolding make_room
Filled-room r pre f = rw f.whole (elim (Bool-cases (ltb message_last (length pre + 50))) [
  | inl e ↦ rw e (make_room_near pre f.rest f.size (ltb→lt message_last (length pre + 50) e))
  | inr e ↦ rw e (record { rest = f.rest; whole = refl; size = f.size })
])

length-room : (pre : List ℕ) → length (room_for_error pre) < message_last
length-room pre = elim (Bool-cases (ltb message_last (length pre + 50))) [
  | inl e ↦ rw e (
      omega (
        arith,
        length-append (take (message_last - 50) pre) dots,
        length-take (message_last - 50) pre,
      ))
  | inr e ↦ rw e (ground arith)
]

Filled-paren :
    (r : List ℕ × ℕ) (pre : List ℕ)
    → Filled r pre
    → length pre < message_last
    → Filled (close_paren message_last r) (pre ++ b')' ∷ [])
unfolding close_paren
Filled-paren r pre f l =
    let at_ : r.1 ≡ length pre = ap (λ x. x.1) f.whole in
    rw (at_, lt→ltb (length pre) message_last l) (rw at_ at (Filled-set r pre b')' f (omega arith)))

pub Filled-error :
    (r : List ℕ × ℕ) (pre : List ℕ) (err : Option (List ℕ × List ℕ))
    → Filled r pre
    → length pre < message_last
    → IsText err
    → Filled (add_error r err) (with_error pre err) × (length (with_error pre err) < max_error_str)
unfolding add_error strerrno
Filled-error r pre none f l nz = (f, omega arith)
Filled-error r pre (some (prefix, msg)) f l nz =
    let f1 = Filled-room r pre f in
    let l1 = length-room pre in
    let f2 = Filled-vslprintf _ (room_for_error pre) prefix f1 l1 in
    let l2 = length-fitted (room_for_error pre) prefix l1 in
    let f3 = Filled-strerror _ (fitted (room_for_error pre) prefix) msg f2 nz l2 in
    (
      Filled-paren _ _ f3 (length-fitted _ msg l2),
      omega (
        arith,
        length-append (fitted (fitted (room_for_error pre) prefix) msg) (b')' ∷ []),
        length-fitted (fitted (room_for_error pre) prefix) msg l2,
      ),
    )
