-- ===== src/Conf/Parse/Total.antt =====
-- Parsing a readable file ends.
use lingx.Base.{
  ℕ, zero, suc, ◌≤◌, ◌<◌, ◌≡◌, refl, ◌⊎◌, inl, inr, Bool, true, false, Option, none, some, List, [],
  ◌∷◌, arith, length,
}
use lingx.Conf.Lexer.{
  Outcome, Step, start, Token, block_start, Lex, Source, max_conf_buffer, more, done, lex_char,
  end_token, read_token,
}
use lingx.Conf.Lexer.Stream.{stream, lex_text, IsReadable, IsTooLong, Reads, read_token-lex_text}
use lingx.Conf.Parse.{
  Parser, ParseType, directive_failed, ParseResult, conf_error, Handle, Next, finish, directive,
  on_token, read, Rounds, after_handle, after_next, after_read, parse_loop,
}

-- The tokens that are handed over to `handle_`.
unfoldable pub is_directive : Token → Bool
is_directive Token.ok = true
is_directive block_start = true
is_directive t = false

abbrev Shorter : Token → List ℕ → List ℕ → Type 0
Shorter t rest cs = (is_directive t ≡ false) ⊎ (length rest < length cs)

Shorter-cons : (t : Token) (rest cs : List ℕ) (c : ℕ) → Shorter t rest cs → Shorter t rest (c ∷ cs)
Shorter-cons t rest cs c (inl e) = inl e
Shorter-cons t rest cs c (inr h) = inr (omega arith)

module _ (is_file : Bool) where
  end_token-Shorter : (l : Lex) → is_directive (end_token is_file l) ≡ false
  unfolding end_token is_directive
  end_token-Shorter l = ground arith

  lex_step-Shorter :
      (l : Lex) (c : ℕ) (cs : List ℕ) (st : Step)
      → lex_char l c ≡ st
      → ((l' : Lex) → let r = lex_text is_file l' cs in Shorter r.0 r.2 cs)
      → let r = lex_text is_file l (c ∷ cs) in Shorter r.0 r.2 (c ∷ cs)
  unfolding lex_text
  lex_step-Shorter l c cs (more l') e h = rw (e, lex_text) (Shorter-cons _ _ cs c (h l'))
  lex_step-Shorter l c cs (done t l') e h = rw (e, lex_text) (inr (omega arith))

  lex_text-Shorter : (l : Lex) (cs : List ℕ) → let r = lex_text is_file l cs in Shorter r.0 r.2 cs
  unfolding lex_text
  lex_text-Shorter l [] = inl (end_token-Shorter l)
  lex_text-Shorter l (c ∷ cs) =
      lex_step-Shorter l c cs (lex_char l c) refl (λ l'. lex_text-Shorter l' cs)

not_directive : (t : Token) → IsTooLong t → is_directive t ≡ false
unfolding is_directive
not_directive t (inl e) = rw e
not_directive t (inr (inl e)) = rw e
not_directive t (inr (inr e)) = rw e

directive-is_directive :
    (type : ParseType) (t : Token) (block : Bool)
    → on_token type t ≡ directive block
    → is_directive t ≡ true
unfolding on_token is_directive
directive-is_directive type t block e = ground arith

-- What is left of the text, and that the buffer is no larger than it is.
abbrev pub left : List ℕ → Parser → ℕ
left contents p = length (stream contents p.reader)

abbrev pub Buffered : Parser → Type 0
Buffered p = length p.reader.ahead ≤ max_conf_buffer

-- A token was read; if it is a directive's, there is less left.
abbrev Progress : List ℕ → Parser → Option (Token × Parser) → Type 0
Progress contents p none = ⊥
Progress contents p (some (t, p')) =
    Buffered p' × ((is_directive t ≡ false) ⊎ (left contents p' < left contents p))

module _ (src : Source) (contents : List ℕ) (readable : IsReadable src contents) where
  outcome-Progress :
      (fuel : ℕ) (p : Parser) (o : Option Outcome)
      → read_token src fuel p.line p.reader ≡ o
      → Reads contents (lex_text src.is_file (start p.line) (stream contents p.reader)) o
      → Progress contents p (read src fuel p)
  unfolding read
  outcome-Progress fuel p none e h = absurd h
  outcome-Progress fuel p (some o) e (fits, inl (long, full)) =
      rw (e, read) (fits, inl (not_directive o.token long))
  outcome-Progress fuel p (some o) e (fits, inr same) =
      let s = lex_text-Shorter src.is_file (start p.line) (stream contents p.reader) in
      rw (e, read) (fits, rw (← same) at s)

  read-Progress :
      (fuel : ℕ) (p : Parser)
      → Buffered p
      → left contents p < fuel
      → Progress contents p (read src fuel p)
  read-Progress fuel p fits small =
      outcome-Progress fuel p _ refl
        (read_token-lex_text src contents fuel p.line p.reader readable fits small)

  -- A handler returns, and does not read backwards.
  abbrev pub Returns : Parser → Option (Bool × Parser) → Type 0
  Returns p none = ⊥
  Returns p (some (taken, p')) = Buffered p' × (left contents p' ≤ left contents p)

abbrev Ends : Option (ParseResult × Parser) → Type 0
Ends r = (q : ParseResult × Parser) × (r ≡ some q)

module _ (src : Source) (contents : List ℕ) (readable : IsReadable src contents) (type : ParseType)
    (handle : Handle)
    (handle-Returns : (block : Bool) (p : Parser)
      → Buffered p
      → Returns src contents readable p (handle block p)) where
  module _ (next : Rounds) (fuel : ℕ)
      (next-Ends : (p : Parser) → Buffered p → left contents p < fuel → Ends (next p)) where
    after_handle-Ends :
        (p : Parser) (h : Option (Bool × Parser))
        → Returns src contents readable p h
        → left contents p < fuel
        → Ends (after_handle next h)
    unfolding after_handle
    after_handle-Ends p none k small = absurd k
    after_handle-Ends p (some (false, p')) k small = ((conf_error directive_failed, p'), refl)
    after_handle-Ends p (some (true, p')) k small = next-Ends p' k.0 (omega (arith, k.1))

    after_next-Ends :
        (p : Parser) (n : Next)
        → Buffered p
        → ((block : Bool) → n ≡ directive block → left contents p < fuel)
        → Ends (after_next next handle p n)
    unfolding after_next
    after_next-Ends p (finish r) fits small = ((r, p), refl)
    after_next-Ends p (directive block) fits small =
        after_handle-Ends p (handle block p) (handle-Returns block p fits) (small block refl)

    after_read-Ends :
        (p : Parser) (r : Option (Token × Parser))
        → Progress contents p r
        → left contents p < suc fuel
        → Ends (after_read type next handle r)
    unfolding after_read
    after_read-Ends p none k small = absurd k
    after_read-Ends p (some (t, p')) (fits, k) small =
        after_next-Ends p' (on_token type t) fits
          λ block e. ground (arith, directive-is_directive type t block e)

  -- On a readable file, with handlers that return and do not read backwards, `parse` returns, if the
  -- fuel exceeds the number of bytes that are left.
  pub parse_loop_returns :
      (fuel : ℕ) (p : Parser)
      → length p.reader.ahead ≤ max_conf_buffer
      → length (stream contents p.reader) < fuel
      → (q : ParseResult × Parser) × (parse_loop src type handle fuel p ≡ some q)
  unfolding parse_loop
  parse_loop_returns zero p fits small = absurd (omega arith)
  parse_loop_returns (suc fuel) p fits small =
      after_read-Ends (parse_loop src type handle fuel) fuel (parse_loop_returns fuel) p _
        (read-Progress src contents readable (suc fuel) p fits small) small
