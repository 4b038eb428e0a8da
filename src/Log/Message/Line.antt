-- ===== src/Log/Message/Line.antt =====
-- The lines that a message writes: to the logs, and to stderr.
use lingx.Base.{
  ℕ, zero, suc, ◌+◌, ◌-◌, ◌≤◌, ◌<◌, ◌≡◌, refl, ap, Option, none, some, List, [], ◌∷◌, ◌++◌, arith,
  length, get_or, take, drop, length-append, take-append,
}
use lingx.Errors.{max_error_str}
use lingx.Log.Levels.{bytes, level_names}
use lingx.Log.Message.{
  message_last, level_name, level_text, pid_text, message_head, end_line, message_tail,
}
use lingx.Log.Message.Text.{
  Filled, fitted, with_error, IsText, length-fitted, Filled-take, Filled-vslprintf, Filled-set,
  Filled-error,
}
use lingx.Strings.{vslprintf}

pub take_all : (n : ℕ) (xs : List ℕ) → length xs ≤ n → take n xs ≡ xs
take_all zero [] l = refl
take_all zero (x ∷ xs) l = absurd (omega arith)
take_all (suc n) [] l = refl
take_all (suc n) (x ∷ xs) l = ap (◌∷◌ x) (take_all n xs (omega arith))

pub drop_inside : (n : ℕ) (xs ys : List ℕ) → n ≤ length xs → drop n (xs ++ ys) ≡ drop n xs ++ ys
drop_inside zero xs ys l = refl
drop_inside (suc n) [] ys l = absurd (omega arith)
drop_inside (suc n) (x ∷ xs) ys l = drop_inside n xs ys (omega arith)

fitted_all :
    (pre words : List ℕ)
    → length pre + length words < message_last
    → fitted pre words ≡ pre ++ words
fitted_all pre words l =
    ap (λ xs. pre ++ xs) (take_all (message_last - length pre - 1) words (omega arith))

AllShort : List (List ℕ) → Type 0
AllShort [] = Unit {0}
AllShort (x ∷ xs) = (length x ≤ 6) × AllShort xs

get_or-short : (xs : List (List ℕ)) (i : ℕ) → AllShort xs → length (get_or xs i []) ≤ 6
unfolding AllShort
get_or-short [] i a = omega arith
get_or-short (x ∷ xs) zero a = a.0
get_or-short (x ∷ xs) (suc i) a = get_or-short xs i a.1

pub level_name-short : (lvl : ℕ) → length (level_name lvl) ≤ 6
unfolding level_name AllShort
level_name-short lvl = get_or-short ([] ∷ level_names) lvl (
  omega arith,
  (
    omega arith,
    (
      omega arith,
      (omega arith, (omega arith, (omega arith, (omega arith, (omega arith, (omega arith, tt)))))),
    ),
  ),
)

-- What a message starts with.
abbrev pub head_text : List ℕ → ℕ → List ℕ → List ℕ
head_text time lvl pid = (time ++ level_text lvl) ++ pid_text pid

length-level_text : (lvl : ℕ) → length (level_text lvl) ≡ length (level_name lvl) + 4
length-level_text lvl = omega (
  arith,
  length-append (bytes " [") (level_name lvl ++ bytes "] "),
  length-append (level_name lvl) (bytes "] "),
)

pub length-head_text :
    (time : List ℕ) (lvl : ℕ) (pid : List ℕ)
    → length (head_text time lvl pid) ≡ length time + length (level_name lvl) + length pid + 8
length-head_text time lvl pid = omega (
  arith,
  length-append (time ++ level_text lvl) (pid_text pid),
  length-append time (level_text lvl),
  length-level_text lvl,
  length-append pid (bytes "#0: "),
)

pub Filled-head :
    (mem time : List ℕ) (lvl : ℕ) (pid : List ℕ)
    → length mem ≡ max_error_str
    → length time ≡ 19
    → length pid ≤ 10
    → Filled (message_head mem time lvl pid) (head_text time lvl pid)
unfolding message_head
Filled-head mem time lvl pid e t p =
    let f0 : Filled (mem, 0) [] = record { rest = mem; whole = refl; size = omega arith } in
    let f1 = Filled-take (mem, 0) [] time f0 (omega arith) in
    let f2 = Filled-vslprintf _ time (level_text lvl) f1 (omega arith) in
    let n = level_name-short lvl in
    let k = fitted_all time (level_text lvl) (omega (arith, length-level_text lvl)) in
    let l = length-append time (level_text lvl) in
    let f3 =
      Filled-vslprintf _ (time ++ level_text lvl) (pid_text pid) (rw k at f2)
        (omega (arith, length-level_text lvl)) in
    rw
      (fitted_all (time ++ level_text lvl) (pid_text pid)
        (omega (arith, length-level_text lvl, length-append pid (bytes "#0: "))))
      at f3

-- What the text and the error leave behind `pre`.
abbrev pub written : List ℕ → Option (List ℕ) → List ℕ
written pre none = pre
written pre (some words) = fitted pre words

Filled-written :
    (r : List ℕ × ℕ) (pre : List ℕ) (body : Option (List ℕ))
    → Filled r pre
    → length pre < message_last
    → Filled (vslprintf r.0 r.1 message_last body) (written pre body)
      × (length (written pre body) < message_last)
unfolding vslprintf
Filled-written r pre none f l = (f, l)
Filled-written r pre (some words) f l =
    (Filled-vslprintf r pre words f l, length-fitted pre words l)

abbrev pub line_text : List ℕ → Option (List ℕ) → Option (List ℕ × List ℕ) → List ℕ
line_text pre body err = with_error (written pre body) err ++ b'\n' ∷ []

pub Filled-tail :
    (r : List ℕ × ℕ) (pre : List ℕ) (body : Option (List ℕ)) (err : Option (List ℕ × List ℕ))
    → Filled r pre
    → length pre < message_last
    → IsText err
    → Filled (message_tail r body err) (line_text pre body err)
unfolding message_tail end_line
Filled-tail r pre body err f l nz =
    let (f1, l1) = Filled-written r pre body f l in
    let (f2, l2) = Filled-error _ (written pre body) err f1 l1 nz in
    Filled-set _ (with_error (written pre body) err) b'\n' f2 l2

pub Filled-line : (r : List ℕ × ℕ) (pre : List ℕ) → Filled r pre → take r.1 r.0 ≡ pre
Filled-line r pre f = rw f.whole (take-append pre f.rest)
