-- ===== src/Conf/Lexer/Args.antt =====
-- When the function returns which token, and what `args_` holds then.
use lingx.Base.{
  ℕ, zero, suc, ◌≡◌, refl, Bool, true, false, not, ◌||◌, Option, none, some, List, [], ◌∷◌, ◌++◌,
  arith, leb, ◌==◌, if_cases, length, is_empty,
}
use mathlib.Core.List.{reverse}
use mathlib.Core.Path.{subst}
use lingx.Conf.Lexer.{
  Token, failed, ok, block_start, block_done, file_done, Lex, Reader, Source, max_conf_buffer,
  is_space, word, Step, more, done, lex_char, Fill, stop, char, end_token, refill, Outcome,
  read_loop, start, read_token, first_char, tail_of, push_word, word_char, inside, after_quote,
  new_line, too_long_token, take_read, read_size, fill, after_step, after_fill,
}

-- `need_space` is only set when a word has been read.
abbrev pub IsLive : Lex → Type 0
IsLive l = (not l.need_space || not (is_empty l.args)) ≡ true

-- A directive has at least its name, and the end of a block or file stands between directives.
abbrev pub HasArgs : Token → Lex → Type 0
HasArgs (failed e) l = Unit {0}
HasArgs ok l = is_empty l.args ≡ false
HasArgs block_start l = is_empty l.args ≡ false
HasArgs block_done l = is_empty l.args ≡ true
HasArgs file_done l = is_empty l.args ≡ true

abbrev pub StepHasArgs : Step → Type 0
StepHasArgs (more l) = IsLive l
StepHasArgs (done t l) = HasArgs t l

is_empty-snoc {ℓ} : {A : Type ℓ} (xs : List A) (x : A) → is_empty (xs ++ x ∷ []) ≡ false
is_empty-snoc [] x = refl
is_empty-snoc (y ∷ xs) x = refl

first_char-HasArgs : (l : Lex) (ch : ℕ) → IsLive l → StepHasArgs (first_char l ch)
unfolding first_char
first_char-HasArgs l ch v = ground arith

push_word-HasArgs : (l : Lex) (ch : ℕ) → StepHasArgs (push_word l ch)
unfolding push_word
push_word-HasArgs l ch = ground (arith, is_empty-snoc l.args (word ch (reverse (tail_of l.held))))

word_char-HasArgs : (l : Lex) (ch : ℕ) → IsLive l → StepHasArgs (word_char l ch)
unfolding word_char push_word
word_char-HasArgs l ch v = ground (arith, is_empty-snoc l.args (word ch (reverse (tail_of l.held))))

inside-HasArgs : (l : Lex) (ch : ℕ) → IsLive l → StepHasArgs (inside l ch)
unfolding inside
inside-HasArgs l ch v =
    if_cases StepHasArgs l.last_space (λ e. first_char-HasArgs l ch v)
      (λ e. word_char-HasArgs l ch v)

after_quote-HasArgs : (l : Lex) (ch : ℕ) → is_empty l.args ≡ false → StepHasArgs (after_quote l ch)
unfolding after_quote
after_quote-HasArgs l ch e =
    if_cases StepHasArgs (is_space ch) (λ _. refl)
      λ _.
        if_cases StepHasArgs (ch == b';') (λ _. e)
          λ _.
            if_cases StepHasArgs (ch == b'{') (λ _. e)
              λ _.
                if_cases StepHasArgs (ch == b')')
                  (λ _. inside-HasArgs (record l { last_space = true; need_space = false }) ch refl)
                  λ _. tt

lex_char-HasArgs : (l : Lex) (ch : ℕ) → IsLive l → StepHasArgs (lex_char l ch)
unfolding lex_char
lex_char-HasArgs l ch v =
    let l1 = new_line (record l { held = ch ∷ l.held }) ch in
    let v1 : IsLive l1 = ground arith in
    if_cases StepHasArgs l1.sharp_comment (λ _. v1)
      λ _.
        if_cases StepHasArgs l1.quoted (λ _. v1)
          λ _.
            if_cases StepHasArgs l1.need_space (λ e. after_quote-HasArgs l1 ch (ground arith))
              (λ _. inside-HasArgs l1 ch v1)

end_token-HasArgs : (is_file : Bool) (l : Lex) → HasArgs (end_token is_file l) l
unfolding end_token
end_token-HasArgs is_file l = ground arith

abbrev pub FillHasArgs : Fill → Type 0
FillHasArgs (stop t l) = HasArgs t l
FillHasArgs (char c r) = Unit {0}

too_long-HasArgs : (l l' : Lex) → HasArgs (too_long_token l) l'
unfolding too_long_token
too_long-HasArgs l l' = ground arith

take_read-HasArgs :
    (offset size : ℕ) (l : Lex) (r : Option (List ℕ)) → FillHasArgs (take_read offset size l r)
unfolding take_read
take_read-HasArgs offset size l none = tt
take_read-HasArgs offset size l (some []) = tt
take_read-HasArgs offset size l (some (c ∷ bytes)) =
    if_cases FillHasArgs (length (c ∷ bytes) == size) (λ _. tt) (λ _. tt)

refill-HasArgs : (src : Source) (l : Lex) (offset : ℕ) → FillHasArgs (refill src l offset)
unfolding refill
refill-HasArgs src l offset =
    if_cases FillHasArgs (leb src.file_size offset) (λ _. end_token-HasArgs src.is_file l)
      λ _.
        if_cases FillHasArgs (length l.held == max_conf_buffer) (λ _. too_long-HasArgs l _)
          λ _. take_read-HasArgs offset (read_size src offset (length l.held)) l _

fill-HasArgs :
    (src : Source) (l : Lex) (ahead : List ℕ) (offset : ℕ) → FillHasArgs (fill src l ahead offset)
unfolding fill
fill-HasArgs src l [] offset = refill-HasArgs src l offset
fill-HasArgs src l (c ∷ ahead) offset = tt

abbrev pub OutcomeHasArgs : Option Outcome → Type 0
OutcomeHasArgs none = Unit {0}
OutcomeHasArgs (some o) = HasArgs o.token o.lex

module _ (next : Lex → Reader → Option Outcome)
    (next-HasArgs : (l : Lex) (r : Reader) → IsLive l → OutcomeHasArgs (next l r)) where
  after_step-HasArgs :
      (r : Reader) (st : Step) → StepHasArgs st → OutcomeHasArgs (after_step next r st)
  unfolding after_step
  after_step-HasArgs r (more l) h = next-HasArgs l r h
  after_step-HasArgs r (done t l) h = h

  after_fill-HasArgs :
      (l : Lex) (r : Reader) (f : Fill)
      → IsLive l
      → FillHasArgs f
      → OutcomeHasArgs (after_fill next l r f)
  unfolding after_fill
  after_fill-HasArgs l r (stop t l') v h = h
  after_fill-HasArgs l r (char c r') v h =
      after_step-HasArgs r' (lex_char l c) (lex_char-HasArgs l c v)

read_loop-HasArgs :
    (src : Source) (fuel : ℕ) (l : Lex) (r : Reader)
    → IsLive l
    → OutcomeHasArgs (read_loop src fuel l r)
unfolding read_loop
read_loop-HasArgs src zero l r v = tt
read_loop-HasArgs src (suc fuel) l r v =
    after_fill-HasArgs (read_loop src fuel) (read_loop-HasArgs src fuel) l r _ v
      (fill-HasArgs src l r.ahead r.offset)

-- A token that ends a directive or opens a block comes with at least one argument, the name that
-- `handle_` looks up, and the end of a block or of the file comes with none.
pub read_token-HasArgs :
    (src : Source) (fuel line : ℕ) (r : Reader) (o : Outcome)
    → read_token src fuel line r ≡ some o
    → HasArgs o.token o.lex
unfolding read_token
read_token-HasArgs src fuel line r o e =
    subst OutcomeHasArgs e (read_loop-HasArgs src fuel (start line) r refl)
