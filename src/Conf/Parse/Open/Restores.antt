-- ===== src/Conf/Parse/Open/Restores.antt =====
-- A parse leaves the parser in the file that it was called in.
use lingx.Base.{
  ℕ, ◌<◌, ◌≡◌, refl, sym, ap, ◌∙◌, ◌≢◌, inl, inr, Option, none, some, List, [], ◌∷◌, arith, ◌==◌,
  Bool-cases,
}
use mathlib.Core.Path.{subst}
use lingx.Conf.Lexer.{Source}
use lingx.Conf.Parse.{Parser, ParseType, parse_file, ParseResult, Handle}
use lingx.Conf.Parse.Open.{
  ConfFile, ConfState, Opening, open_failed, stat_failed, opened, Outcome_, start_parser, put_file,
  point_to, allocate, cleanup, after_loop, loop_in, parse_opened, parse_current, parse_body,
  conf_parse,
}

-- Of the objects that there are, those that the call may not change: all, if it opens a file, and
-- else all but the one that is read.
abbrev pub Untouched : List ℕ → ConfState → ℕ → Type 0
Untouched [] s a = s.conf_file ≢ some a
Untouched (c ∷ name) s a = Unit {0}

-- What holds of a return: `conf_file_` and the objects are those of the call.
pub record Keeps (name : List ℕ) (s s' : ConfState) : Type 0 where
  pub pointer : s'.conf_file ≡ s.conf_file
  pub objects : s'.next ≡ s.next
  pub same : (a : ℕ) → a < s.next → Untouched name s a → s'.files a ≡ s.files a
  pub sources : (a : ℕ) → a < s.next → (s'.files a).source ≡ (s.files a).source

-- Only the file at `a` differs, and it only in its parser.
record Only (a : ℕ) (s s' : ConfState) : Type 0 where
  same : (b : ℕ) → b ≢ a → s'.files b ≡ s.files b
  source : (s'.files a).source ≡ (s.files a).source

abbrev Returns : (ConfState → Type 0) → Option (Outcome_ × ConfState) → Type 0
Returns P none = Unit {0}
Returns P (some (o, s)) = P s

module _ (handle : Source → Handle) (fuel : ℕ) where
  after_loop-Only :
      (a : ℕ) (s : ConfState) (r : Option (ParseResult × Parser))
      → Returns (Only a s) (after_loop a s r)
  after_loop-Only a s none = tt
  after_loop-Only a s (some (r, p)) = record { same = λ b ne. ground arith; source = ground arith }

  loop_in-Only :
      (a : ℕ) (type : ParseType) (s : ConfState) → Returns (Only a s) (loop_in handle fuel a type s)
  unfolding loop_in
  loop_in-Only a type s = after_loop-Only a s _

  -- The file that is opened is a new object.
  Fresh : ℕ → ConfState → ConfState → Type 0
  Fresh a s s' = (b : ℕ) → b < a → s'.files b ≡ s.files b

  Only-Fresh :
      (a : ℕ) (f : ConfFile) (s : ConfState) (r : Option (Outcome_ × ConfState))
      → Returns (Only a (put_file a f (point_to (some a) s))) r
      → Returns (Fresh a s) r
  unfolding Fresh
  Only-Fresh a f s none h = tt
  Only-Fresh a f s (some (o, s')) h = λ b l. h.same b (omega arith) ∙ ground arith

  parse_opened-Fresh :
      (a : ℕ) (o : Opening) (s : ConfState) → Returns (Fresh a s) (parse_opened handle fuel a o s)
  unfolding parse_opened Fresh
  parse_opened-Fresh a open_failed s = λ b l. refl
  parse_opened-Fresh a stat_failed s = λ b l. refl
  parse_opened-Fresh a (opened src) s =
      Only-Fresh a (record { source = src; parser = start_parser [] 1 }) s _
        (loop_in-Only a parse_file _)

  Fresh-Keeps :
      (c : ℕ) (name : List ℕ) (s : ConfState) (r : Option (Outcome_ × ConfState))
      → Returns (Fresh s.next (allocate s)) r
      → Returns (Keeps (c ∷ name) s) (cleanup s.conf_file s.next r)
  unfolding cleanup Fresh
  Fresh-Keeps c name s none h = tt
  Fresh-Keeps c name s (some (o, s')) h = record {
    pointer = refl;
    objects = refl;
    same = λ a l u. h a l;
    sources = λ a l. ap (λ (f : ConfFile). f.source) (h a l);
  }

  Only-Keeps :
      (a : ℕ) (s : ConfState) (r : Option (Outcome_ × ConfState))
      → s.conf_file ≡ some a
      → Returns (Only a (allocate s)) r
      → Returns (Keeps [] s) (cleanup s.conf_file s.next r)
  unfolding cleanup
  Only-Keeps a s none e h = tt
  Only-Keeps a s (some (o, s')) e h = record {
    pointer = refl;
    objects = refl;
    same = λ b l u. h.same b (λ z. u (e ∙ ap (λ x. some x) (sym z)));
    sources = λ b l. elim (Bool-cases (b == a)) [
      | inl q ↦ let k : b ≡ a = ground arith in rw k h.source
      | inr q ↦ ap (λ (f : ConfFile). f.source) (h.same b (ground arith))
    ];
  }

  current-Keeps :
      (s : ConfState) (p : Option ℕ)
      → s.conf_file ≡ p
      → Returns (Keeps [] s) (cleanup s.conf_file s.next (parse_current handle fuel p (allocate s)))
  unfolding parse_current cleanup
  current-Keeps s none e = record {
    pointer = refl;
    objects = refl;
    same = λ a l u. refl;
    sources = λ a l. refl;
  }
  current-Keeps s (some a) e = Only-Keeps a s _ e (loop_in-Only a _ (allocate s))

  conf_parse-Returns :
      (opens : List ℕ → Opening) (name : List ℕ) (s : ConfState)
      → Returns (Keeps name s) (conf_parse handle fuel opens name s)
  unfolding conf_parse parse_body
  conf_parse-Returns opens [] s = current-Keeps s s.conf_file refl
  conf_parse-Returns opens (c ∷ name) s =
      Fresh-Keeps c name s _ (parse_opened-Fresh s.next (opens (c ∷ name)) (allocate s))

  -- However `Conf::parse` returns, also where the file cannot be opened or its size not be read,
  -- `conf_file_` is the pointer that it was at the call. If it opened a file, then every object that
  -- there was is as it was; a block or a parameter changes only the object that is read, and of this
  -- the buffer and the line and not the file.
  pub conf_parse-Keeps :
      (opens : List ℕ → Opening) (name : List ℕ) (s s' : ConfState) (o : Outcome_)
      → conf_parse handle fuel opens name s ≡ some (o, s')
      → Keeps name s s'
  conf_parse-Keeps opens name s s' o e =
      subst (Returns (Keeps name s)) e (conf_parse-Returns opens name s)
