-- ===== src/Log/Message/Stderr.antt =====
-- The line that goes to stderr, and all the writes of a message.
use lingx.Base.{
  ℕ, suc, ◌+◌, ◌-◌, ◌≤◌, ◌<◌, ◌≡◌, refl, sym, ap, ◌∙◌, inl, inr, Bool, false, not, ◌||◌, Option,
  none, some, List, [], ◌∷◌, ◌++◌, map, arith, ltb, if◌then◌else◌, ltb→lt, Bool-cases, length, set,
  take, drop, length-append, length-take, length-drop, drop-drop, take-append, drop-append,
  set_length-append, take-append-drop,
}
use mathlib.Core.List.{append_assoc}
use lingx.Errors.{max_error_str, dots}
use lingx.Log.{Log, Written, write_loop, warn}
use lingx.Log.Levels.{bytes}
use lingx.Log.Message.{
  message_last, level_name, stderr_text, message_head, message_tail, stderr_line, log_message,
  printf,
}
use lingx.Log.Message.Line.{
  drop_inside, level_name-short, head_text, length-head_text, Filled-head, written, line_text,
  Filled-tail, Filled-line,
}
use lingx.Log.Message.Text.{Filled, fitted, room_for_error, with_error, IsText, Filled-take}
use lingx.Strings.{vslprintf}
use lingx.Strings.Filled.{vslprintf-filled}
use mathlib.Core.Option as Opt

take_more : (xs ys : List ℕ) (n : ℕ) → take (length xs + n) (xs ++ ys) ≡ xs ++ take n ys
take_more [] ys n = ap (λ n. take n ys) (omega arith)
take_more (x ∷ xs) ys n =
    let e : suc (length xs) + n ≡ suc (length xs + n) = omega arith in
    rw e (ap (◌∷◌ x) (take_more xs ys n))

-- A text whose last character is a space, which is put over its terminator again, takes the place of
-- as many bytes behind `a`.
printed_lem :
    (a words rest : List ℕ)
    → suc (length words) ≤ length rest
    → set
        (vslprintf
          (a ++ rest)
          (length a)
          (length a + suc (length words))
          (some (words ++ b' ' ∷ []))).0
        (length a + suc (length words) - 1)
        b' '
      ≡ a ++ ((words ++ b' ' ∷ []) ++ drop (suc (length words)) rest)
printed_lem a words rest l =
    let last = length a + suc (length words) in
    let count : last - length a - 1 ≡ length words = omega arith in
    let place : last - 1 ≡ length (a ++ words) = omega (arith, length-append a words) in
    let cut : take (last - length a - 1) (words ++ b' ' ∷ []) ≡ words =
      rw count (take-append words (b' ' ∷ [])) in
    let filled =
      rw cut at (vslprintf-filled a rest (words ++ b' ' ∷ []) last (omega arith) (omega arith)) in
    rw (filled, place, set_length-append (a ++ words) (drop (suc (length words)) rest) 0 b' ')
      (rw
        (
          append_assoc a words (b' ' ∷ drop (suc (length words)) rest),
          append_assoc words (b' ' ∷ []) (drop (suc (length words)) rest),
        )
        refl)

written_behind :
    (a words c rest : List ℕ)
    → suc (length words) ≤ length c
    → take
        (length (a ++ c) - length a)
        (drop (length a) (a ++ ((words ++ b' ' ∷ []) ++ drop (suc (length words)) (c ++ rest))))
      ≡ (words ++ b' ' ∷ []) ++ drop (suc (length words)) c
written_behind a words c rest l =
    let n = suc (length words) in
    let m = length (drop n c) in
    let count : length (a ++ c) - length a ≡ length (words ++ b' ' ∷ []) + m =
      omega (arith, length-append a c, length-append words (b' ' ∷ []), length-drop n c) in
    rw
      (
        drop-append a ((words ++ b' ' ∷ []) ++ drop n (c ++ rest)),
        count,
        take_more (words ++ b' ' ∷ []) (drop n (c ++ rest)) m,
        drop_inside n c rest l,
        take-append (drop n c) rest,
      )
      refl

abbrev before_space : ℕ → List ℕ
before_space lvl = bytes "lingx: [" ++ level_name lvl ++ bytes "]"

stderr_space : (lvl : ℕ) → stderr_text lvl ≡ before_space lvl ++ b' ' ∷ []
stderr_space lvl = rw (append_assoc (level_name lvl) (bytes "]") (b' ' ∷ [])) refl

length-before_space : (lvl : ℕ) → suc (length (before_space lvl)) ≡ 8 + length (level_name lvl) + 2
length-before_space lvl = omega (arith, length-append (level_name lvl) (bytes "]"))

stderr_line_at :
    (lvl : ℕ) (a c rest : List ℕ) (msg : ℕ)
    → msg ≡ length a + suc (length (before_space lvl))
    → suc (length (before_space lvl)) ≤ length c
    → stderr_line lvl ((a ++ c) ++ rest) msg (length (a ++ c))
      ≡ stderr_text lvl ++ drop (suc (length (before_space lvl))) c
unfolding stderr_line
stderr_line_at lvl a c rest msg e l =
    let w = before_space lvl in
    let start : msg - (8 + length (level_name lvl) + 2) ≡ length a =
      omega (arith, length-before_space lvl) in
    rw
      (
        start,
        ← length-before_space lvl,
        stderr_space lvl,
        append_assoc a c rest,
        printed_lem a w (c ++ rest) (omega (arith, length-append c rest)),
      )
      (written_behind a w c rest l
        ∙ ap (λ xs. xs ++ drop (suc (length w)) c) (sym (stderr_space lvl)))

stderr_line_lem :
    (lvl : ℕ) (head line : List ℕ) (r : List ℕ × ℕ)
    → Filled r line
    → 8 + length (level_name lvl) + 2 ≤ length head
    → length head ≤ length line
    → stderr_line lvl r.0 (length head) r.1 ≡ stderr_text lvl ++ drop (length head) line
stderr_line_lem lvl head line r f l k =
    let len = suc (length (before_space lvl)) in
    let size = length-before_space lvl in
    let start = length head - len in
    let a = take start line in
    let c = drop start line in
    let whole : a ++ c ≡ line = take-append-drop start line in
    let behind : drop len c ≡ drop (length head) line =
      drop-drop start len line ∙ ap (λ n. drop n line) (omega arith) in
    let at_a : length head ≡ length a + len = omega (arith, length-take start line) in
    rw f.whole (
      rw (whole, behind) at
        (stderr_line_at lvl a c f.rest (length head) at_a (omega (arith, length-drop start line))))

length-room_for_error :
    (pre : List ℕ) (n : ℕ) → n ≤ length pre → n ≤ 900 → n ≤ length (room_for_error pre)
length-room_for_error pre n l k = elim (Bool-cases (ltb message_last (length pre + 50))) [
  | inl e ↦ rw e (
      omega (
        arith,
        ltb→lt message_last (length pre + 50) e,
        length-append (take (message_last - 50) pre) dots,
        length-take (message_last - 50) pre,
      ))
  | inr e ↦ rw e l
]

length-with_error :
    (pre : List ℕ) (err : Option (List ℕ × List ℕ)) (n : ℕ)
    → n ≤ length pre
    → n ≤ 900
    → n ≤ length (with_error pre err)
length-with_error pre none n l k = l
length-with_error pre (some (prefix, msg)) n l k =
    let room = room_for_error pre in
    omega (
      arith,
      length-room_for_error pre n l k,
      length-append (fitted (fitted room prefix) msg) (b')' ∷ []),
      length-append (fitted room prefix)
          (take (message_last - length (fitted room prefix) - 1) msg),
      length-append room (take (message_last - length room - 1) prefix),
    )

length-written : (pre : List ℕ) (body : Option (List ℕ)) → length pre ≤ length (written pre body)
length-written pre none = omega arith
length-written pre (some words) =
    omega (arith, length-append pre (take (message_last - length pre - 1) words))

-- The writes of a message: the line, and its part behind the head after the prefix for stderr.
abbrev pub writes_of : Bool → ℕ → List ℕ → List ℕ → Written → List (ℕ × List ℕ)
writes_of use_stderr lvl line to_stderr w =
    let lines = map (λ fd. (fd, line)) w.fds in
    if not use_stderr || ltb warn lvl || w.stderr then lines else lines ++ (2, to_stderr) ∷ []

-- `Log::log` writes one line to the logs that take it: the time, the level, the process number, the
-- text and the error, each cut so that all of it, with the line end, fits the buffer, the last 50
-- bytes of which are left to an error. A line that goes to stderr as well has `"lingx: "` and the
-- level in place of what stands before the text. Of a time of 19 bytes, a process number of at most
-- 10, and a level of the table.
pub log_message-writes_of :
    (use_stderr : Bool) (lvl : ℕ) (logs : List Log) (mem time pid : List ℕ) (body : Option (List ℕ))
    (err : Option (List ℕ × List ℕ))
    → length mem ≡ max_error_str
    → lvl < 9
    → length time ≡ 19
    → length pid ≤ 10
    → IsText err
    → let head = head_text time lvl pid in
      let line = line_text head body err in
      (length line ≤ max_error_str)
      × (log_message use_stderr lvl logs mem time pid body err
          ≡ Opt.map
              (writes_of use_stderr lvl line (stderr_text lvl ++ drop (length head) line))
              (write_loop lvl logs false))
unfolding log_message
log_message-writes_of use_stderr lvl logs mem time pid body err m n t p nz =
    let head = head_text time lvl pid in
    let short = level_name-short lvl in
    let long = length-head_text time lvl pid in
    let f1 = Filled-head mem time lvl pid m t p in
    let f2 = Filled-tail _ head body err f1 (omega arith) nz in
    let line = line_text head body err in
    let r = message_tail (message_head mem time lvl pid) body err in
    let longer =
      length-with_error (written head body) err (length head) (length-written head body)
        (omega arith) in
    let more : length head ≤ length line =
      omega (arith, longer, length-append (with_error (written head body) err) (b'\n' ∷ [])) in
    let at_ : (message_head mem time lvl pid).1 ≡ length head = ap (λ x. x.1) f1.whole in
    let result = λ (a : List ℕ) (b : List ℕ).
      Opt.map (writes_of use_stderr lvl a b) (write_loop lvl logs false) in
    (
      omega (arith, f2.size),
      ap (λ a. result a (stderr_line lvl r.0 (message_head mem time lvl pid).1 r.1))
            (Filled-line r line f2)
          ∙ ap (λ z. result line (stderr_line lvl r.0 z r.1)) at_
          ∙ ap (result line) (stderr_line_lem lvl head line r f2 (omega arith) more),
    )

-- `Log::Printf` writes the text and the error behind `"lingx: "`, cut in the same way.
pub printf-line_text :
    (mem : List ℕ) (body : Option (List ℕ)) (err : Option (List ℕ × List ℕ))
    → length mem ≡ max_error_str
    → IsText err
    → printf mem body err ≡ line_text (bytes "lingx: ") body err
unfolding printf
printf-line_text mem body err m nz =
    let f0 : Filled (mem, 0) [] = record { rest = mem; whole = refl; size = omega arith } in
    let f1 = Filled-take (mem, 0) [] (bytes "lingx: ") f0 (omega arith) in
    Filled-line _ (line_text (bytes "lingx: ") body err)
      (Filled-tail _ (bytes "lingx: ") body err f1 (omega arith) nz)
