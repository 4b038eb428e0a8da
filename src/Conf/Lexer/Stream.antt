-- ===== src/Conf/Lexer/Stream.antt =====
-- The buffer is invisible: reading the file piece by piece gives the tokens of its whole text.
use lingx.Base.{
  ℕ, zero, suc, ◌+◌, ◌≤◌, ◌<◌, ◌≡◌, refl, sym, ap, ◌∙◌, ◌⊎◌, inl, inr, Bool, true, false, Option,
  none, some, List, [], ◌∷◌, ◌++◌, arith, leb, ◌==◌, leb→le, if_cases, length, take, drop,
  length-take, length-drop, drop_all, drop-drop, take-append-drop,
}
use lingx.Conf.Lexer.{
  Outcome, failed, Step, start, stop, too_long, missing_quote, Token, Lex, Reader, Source,
  max_conf_buffer, quote, double_quote, is_space, more, done, lex_char, Fill, char, end_token,
  refill, read_loop, read_token, inside, first_char, push_word, word_char, after_quote, new_line,
  too_long_token, take_read, read_size, fill, after_step, after_fill,
}

-- The text that is still to come: the rest of the buffer, and of the file.
abbrev pub stream : List ℕ → Reader → List ℕ
stream contents r = r.ahead ++ drop r.offset contents

-- The tokenizer on the whole text: the token, the state, and the text behind the token.
unfoldable pub lex_text : Bool → Lex → List ℕ → Token × Lex × List ℕ
lex_text is_file l [] = (end_token is_file l, l, [])
lex_text is_file l (c ∷ cs) = elim (lex_char l c) [
  | more l' ↦ lex_text is_file l' cs
  | done t l' ↦ (t, l', cs)
]

-- `fstat` tells the file's length, and `pread` never fails and returns what is asked for.
pub record IsReadable (src : Source) (contents : List ℕ) : Type 0 where
  pub size : src.file_size ≡ length contents
  pub reads : (offset n : ℕ) → src.pread offset n ≡ some (take n (drop offset contents))

-- The bytes between `start` and `last` are in the buffer.
abbrev pub Fits : Lex → Reader → Type 0
Fits l r = length l.held + length r.ahead ≤ max_conf_buffer

-- The errors that are reported for a token, comment or run of spaces that fills the buffer.
abbrev pub IsTooLong : Token → Type 0
IsTooLong t =
    (t ≡ failed too_long)
    ⊎ (t ≡ failed (missing_quote double_quote))
    ⊎ (t ≡ failed (missing_quote quote))

too_long_token-IsTooLong : (l : Lex) → IsTooLong (too_long_token l)
unfolding too_long_token
too_long_token-IsTooLong l = ground arith

-- The three ways in which the buffer yields the next character.
data Filled (src : Source) (contents : List ℕ) (l : Lex) (r : Reader) (f : Fill) : Type 0 where
  at_end : stream contents r ≡ [] → f ≡ stop (end_token src.is_file l) l → Filled src contents l r f
  long :
      (t : Token) (l' : Lex)
      → f ≡ stop t l'
      → IsTooLong t
      → length l'.held ≡ max_conf_buffer
      → Filled src contents l r f
  next :
      (c : ℕ) (r' : Reader)
      → f ≡ char c r'
      → stream contents r ≡ c ∷ stream contents r'
      → length l.held + length r'.ahead < max_conf_buffer
      → Filled src contents l r f

take_read-char :
    (offset size : ℕ) (l : Lex) (c : ℕ) (bytes : List ℕ)
    → length (c ∷ bytes) ≡ size
    → take_read offset size l (some (c ∷ bytes))
      ≡ char c (record { ahead = bytes; offset = offset + size })
unfolding take_read
take_read-char offset size l c bytes e = ground arith

module _ (src : Source) (contents : List ℕ) (readable : IsReadable src contents) (l : Lex) where
  read_size_bounds :
      (offset len : ℕ)
      → offset < length contents
      → len < max_conf_buffer
      → (0 < read_size src offset len)
        × (len + read_size src offset len ≤ max_conf_buffer)
        × (offset + read_size src offset len ≤ length contents)
  unfolding read_size
  read_size_bounds offset len h k = ground (arith, readable.size)

  read-Filled :
      (offset size : ℕ) (bytes : List ℕ)
      → bytes ≡ take size (drop offset contents)
      → length bytes ≡ size
      → 0 < size
      → length l.held + size ≤ max_conf_buffer
      → Filled src contents l
          (record { ahead = []; offset = offset })
          (take_read offset size l (some bytes))
  read-Filled offset size [] e len some_left room = absurd (omega arith)
  read-Filled offset size (c ∷ bytes) e len some_left room =
      next c (record { ahead = bytes; offset = offset + size })
        (take_read-char offset size l c bytes len)
        (sym (take-append-drop size (drop offset contents))
          ∙ rw (← e, drop-drop offset size contents) refl)
        (omega arith)

  fill-Filled :
      (ahead : List ℕ) (offset : ℕ)
      → length l.held + length ahead ≤ max_conf_buffer
      → Filled src contents l (record { ahead = ahead; offset = offset }) (fill src l ahead offset)
  unfolding fill refill
  fill-Filled (c ∷ ahead) offset fits =
      next c (record { ahead = ahead; offset = offset }) refl refl (omega arith)
  fill-Filled [] offset fits =
      if_cases (Filled src contents l (record { ahead = []; offset = offset }))
        (leb src.file_size offset)
        (λ e. at_end (drop_all offset contents (omega (arith, leb→le _ _ e, readable.size))) refl)
        λ e.
          if_cases (Filled src contents l (record { ahead = []; offset = offset }))
            (length l.held == max_conf_buffer)
            (λ e'. long _ _ refl (too_long_token-IsTooLong l) (ground (arith, e')))
            λ ne.
              let size = read_size src offset (length l.held) in
              let b =
                read_size_bounds offset (length l.held) (ground (arith, readable.size))
                  (ground arith) in
              rw (readable.reads offset size) (
                read-Filled offset size (take size (drop offset contents)) refl
                  (omega (
                    arith,
                    length-take size (drop offset contents),
                    length-drop offset contents,
                    b.2,
                  ))
                  b.0 b.1)

-- A character adds at most itself to what is held.
abbrev HeldBelow : ℕ → Step → Type 0
HeldBelow n (more l) = length l.held ≤ n
HeldBelow n (done t l) = Unit {0}

push_word-HeldBelow : (l : Lex) (ch : ℕ) → HeldBelow (length l.held) (push_word l ch)
unfolding push_word
push_word-HeldBelow l ch = ground arith

first_char-HeldBelow :
    (l : Lex) (ch : ℕ) → 0 < length l.held → HeldBelow (length l.held) (first_char l ch)
unfolding first_char
first_char-HeldBelow l ch h = ground arith

word_char-HeldBelow : (l : Lex) (ch : ℕ) → HeldBelow (length l.held) (word_char l ch)
unfolding word_char push_word
word_char-HeldBelow l ch = ground arith

inside-HeldBelow : (l : Lex) (ch : ℕ) → 0 < length l.held → HeldBelow (length l.held) (inside l ch)
unfolding inside
inside-HeldBelow l ch h =
    if_cases (HeldBelow (length l.held)) l.last_space (λ _. first_char-HeldBelow l ch h)
      (λ _. word_char-HeldBelow l ch)

after_quote-HeldBelow :
    (l : Lex) (ch : ℕ) → 0 < length l.held → HeldBelow (length l.held) (after_quote l ch)
unfolding after_quote
after_quote-HeldBelow l ch h =
    let P = HeldBelow (length l.held) in
    if_cases P (is_space ch) (λ _. omega arith)
      λ _.
        if_cases P (ch == b';') (λ _. tt)
          λ _.
            if_cases P (ch == b'{') (λ _. tt)
              λ _.
                if_cases P (ch == b')')
                  (λ _. inside-HeldBelow (record l { last_space = true; need_space = false }) ch h)
                  λ _. tt

lex_char-HeldBelow : (l : Lex) (ch : ℕ) → HeldBelow (suc (length l.held)) (lex_char l ch)
unfolding lex_char
lex_char-HeldBelow l ch =
    let l1 = new_line (record l { held = ch ∷ l.held }) ch in
    let e : length l1.held ≡ suc (length l.held) = ground arith in
    let P = HeldBelow (suc (length l.held)) in
    if_cases P l1.sharp_comment (λ _. omega arith)
      λ _.
        if_cases P l1.quoted (λ _. omega arith)
          λ _.
            if_cases P l1.need_space (λ _. rw (← e) (after_quote-HeldBelow l1 ch (omega arith)))
              (λ _. rw (← e) (inside-HeldBelow l1 ch (omega arith)))

-- What the loop returned, seen without the buffer.
abbrev pub view : List ℕ → Outcome → Token × Lex × List ℕ
view contents o = (o.token, o.lex, stream contents o.reader)

abbrev pub Reads : List ℕ → Token × Lex × List ℕ → Option Outcome → Type 0
Reads contents expected none = ⊥
Reads contents expected (some o) =
    (length o.reader.ahead ≤ max_conf_buffer)
    × ((IsTooLong o.token × (length o.lex.held ≡ max_conf_buffer)) ⊎ (view contents o ≡ expected))

module _ (src : Source) (contents : List ℕ) (readable : IsReadable src contents) (fuel : ℕ)
    (loop : (l : Lex) (r : Reader)
      → Fits l r
      → length (stream contents r) < fuel
      → Reads contents (lex_text src.is_file l (stream contents r)) (read_loop src fuel l r)) where
  after_step-Reads :
      (r : Reader) (c n : ℕ) (st : Step) (l : Lex)
      → lex_char l c ≡ st
      → HeldBelow n st
      → n + length r.ahead ≤ max_conf_buffer
      → length (stream contents r) < fuel
      → Reads contents
          (lex_text src.is_file l (c ∷ stream contents r))
          (after_step (read_loop src fuel) r st)
  unfolding after_step lex_text
  after_step-Reads r c n (more l') l e h fits small =
      rw (e, lex_text) (loop l' r (omega arith) small)
  after_step-Reads r c n (done t l') l e h fits small = rw (e, lex_text) (omega arith, inr refl)

  after_fill-Reads :
      (l : Lex) (r : Reader) (f : Fill)
      → Filled src contents l r f
      → Fits l r
      → length (stream contents r) < suc fuel
      → Reads contents
          (lex_text src.is_file l (stream contents r))
          (after_fill (read_loop src fuel) l r f)
  unfolding after_fill lex_text
  after_fill-Reads l r f (at_end e k) fits small = rw (k, e) (omega arith, inr refl)
  after_fill-Reads l r f (long t l' k h full) fits small = rw k (omega arith, inl (h, full))
  after_fill-Reads l r f (next c r' k e room) fits small =
      rw (k, e)
        (after_step-Reads r' c (suc (length l.held)) (lex_char l c) l refl (lex_char-HeldBelow l c)
          (omega arith) (omega (arith, ap length e)))

read_loop-Reads :
    (src : Source) (contents : List ℕ)
    → IsReadable src contents
    → (fuel : ℕ) (l : Lex) (r : Reader) → Fits l r
    → length (stream contents r) < fuel
    → Reads contents (lex_text src.is_file l (stream contents r)) (read_loop src fuel l r)
unfolding read_loop
read_loop-Reads src contents readable zero l r fits small = absurd (omega arith)
read_loop-Reads src contents readable (suc fuel) l r fits small =
    after_fill-Reads src contents readable fuel (read_loop-Reads src contents readable fuel) l r _
      (fill-Filled src contents readable l r.ahead r.offset fits) fits small

-- On a readable file, with fuel above the number of bytes to come, `read_token_` returns: either it
-- holds as many bytes as the buffer has, and reports that the token is too long or misses its closing
-- quote, or its token, its arguments, its line and the text left are those of the tokenizer run on
-- the whole text, wherever the parts read begin and end.
pub read_token-lex_text :
    (src : Source) (contents : List ℕ) (fuel line : ℕ) (r : Reader)
    → IsReadable src contents
    → length r.ahead ≤ max_conf_buffer
    → length (stream contents r) < fuel
    → Reads contents
        (lex_text src.is_file (start line) (stream contents r))
        (read_token src fuel line r)
unfolding read_token
read_token-lex_text src contents fuel line r readable fits small =
    read_loop-Reads src contents readable fuel (start line) r (omega arith) small
