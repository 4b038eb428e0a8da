-- ===== src/Conf/Parse/Runs.antt =====
-- What a successful parse has read.
use lingx.Base.{ℕ, zero, suc, ◌≡◌, refl, ap, Bool, true, false, Option, none, some}
use mathlib.Core.Option.{some-injective}
use lingx.Conf.Directives.{handle}
use lingx.Conf.Lexer.{failed, Token, block_start, block_done, file_done, Source}
use lingx.Conf.Parse.{
  ParseType, parse_file, parse_block, parse_param, Parser, ParseResult, conf_ok, conf_error, Handle,
  Next, finish, directive, on_token, read, Rounds, after_handle, after_next, after_read, parse_loop,
}

-- The token that a block, a file or a parameter ends with.
pub data Ends : ParseType → Token → Type 0 where
  block_ends : Ends parse_block block_done
  file_ends : Ends parse_file file_done
  param_ends : Ends parse_param file_done

-- The tokens that name a directive: without a block, and with one, which no parameter has.
pub data Names : ParseType → Bool → Token → Type 0 where
  plain : (type : ParseType) → Names type false Token.ok
  with_block_in_file : Names parse_file true block_start
  with_block_in_block : Names parse_block true block_start

on_token-Ends : (type : ParseType) (t : Token) → on_token type t ≡ finish conf_ok → Ends type t
unfolding on_token
on_token-Ends type (failed e) h = cc h
on_token-Ends parse_file block_done h = cc h
on_token-Ends parse_block block_done h = block_ends
on_token-Ends parse_param block_done h = cc h
on_token-Ends parse_file file_done h = file_ends
on_token-Ends parse_block file_done h = cc h
on_token-Ends parse_param file_done h = param_ends
on_token-Ends parse_file block_start h = cc h
on_token-Ends parse_block block_start h = cc h
on_token-Ends parse_param block_start h = cc h
on_token-Ends type Token.ok h = cc h

on_token-Names :
    (type : ParseType) (block : Bool) (t : Token)
    → on_token type t ≡ directive block
    → Names type block t
unfolding on_token
on_token-Names type block (failed e) h = cc h
on_token-Names parse_file block block_done h = cc h
on_token-Names parse_block block block_done h = cc h
on_token-Names parse_param block block_done h = cc h
on_token-Names parse_file block file_done h = cc h
on_token-Names parse_block block file_done h = cc h
on_token-Names parse_param block file_done h = cc h
on_token-Names parse_file false block_start h = cc h
on_token-Names parse_file true block_start h = with_block_in_file
on_token-Names parse_block false block_start h = cc h
on_token-Names parse_block true block_start h = with_block_in_block
on_token-Names parse_param block block_start h = cc h
on_token-Names type false Token.ok h = plain type
on_token-Names type true Token.ok h = cc h

-- Directives that were read and handled, one after the other, up to the token that ends the block,
-- the file or the parameter.
pub data Runs (src : Source) (type : ParseType) (handle : Handle) (q : Parser)
    : Parser → Type 0 where
  ends :
      (fuel : ℕ) (t : Token) (p : Parser)
      → read src fuel p ≡ some (t, q)
      → Ends type t
      → Runs src type handle q p
  handles :
      (fuel : ℕ) (t : Token) (block : Bool) (p p' p'' : Parser)
      → read src fuel p ≡ some (t, p')
      → Names type block t
      → handle block p' ≡ some (true, p'')
      → Runs src type handle q p''
      → Runs src type handle q p

returns_ok :
    (r : ParseResult) (p q : Parser)
    → ◌≡◌ {A = Option (ParseResult × Parser)} (some (r, p)) (some (conf_ok, q))
    → (r ≡ conf_ok) × (p ≡ q)
returns_ok r p q e =
    let i = some-injective _ _ e in
    (ap (λ (x : ParseResult × Parser). x.0) i, ap (λ (x : ParseResult × Parser). x.1) i)

module _ (src : Source) (type : ParseType) (handle : Handle) (q : Parser) (next : Rounds)
    (next-Runs : (p : Parser) → next p ≡ some (conf_ok, q) → Runs src type handle q p) (fuel : ℕ)
    (t : Token) (p p' : Parser) (was_read : read src fuel p ≡ some (t, p')) where
  after_handle-Runs :
      (block : Bool) (h : Option (Bool × Parser))
      → handle block p' ≡ h
      → on_token type t ≡ directive block
      → after_handle next h ≡ some (conf_ok, q)
      → Runs src type handle q p
  unfolding after_handle
  after_handle-Runs block none h k e = cc e
  after_handle-Runs block (some (false, p'')) h k e = cc ((returns_ok _ p'' q e).0)
  after_handle-Runs block (some (true, p'')) h k e =
      handles fuel t block p p' p'' was_read (on_token-Names type block t k) h (next-Runs p'' e)

  after_next-Runs :
      (n : Next)
      → on_token type t ≡ n
      → after_next next handle p' n ≡ some (conf_ok, q)
      → Runs src type handle q p
  unfolding after_next
  after_next-Runs (finish conf_ok) k e =
      ends fuel t p (rw (← (returns_ok conf_ok p' q e).1) was_read) (on_token-Ends type t k)
  after_next-Runs (finish (conf_error r)) k e = cc ((returns_ok (conf_error r) p' q e).0)
  after_next-Runs (directive block) k e = after_handle-Runs block (handle block p') refl k e

after_read-Runs :
    (src : Source) (type : ParseType) (handle : Handle) (q : Parser) (next : Rounds)
    → ((p : Parser) → next p ≡ some (conf_ok, q) → Runs src type handle q p)
    → (fuel : ℕ) (p : Parser) (r : Option (Token × Parser)) → read src fuel p ≡ r
    → after_read type next handle r ≡ some (conf_ok, q)
    → Runs src type handle q p
unfolding after_read
after_read-Runs src type handle q next h fuel p none was_read e = cc e
after_read-Runs src type handle q next h fuel p (some (t, p')) was_read e =
    after_next-Runs src type handle q next h fuel t p p' was_read (on_token type t) refl e

-- If `parse` returns CONF_OK, then all that was read are directives, each of which `handle_` took,
-- and a closing brace if a block was parsed, or the end of the text if a file or a parameter was:
-- no error, no stray brace, no early end of the file, and no block in a parameter.
pub parse_loop-Runs :
    (src : Source) (type : ParseType) (handle : Handle) (fuel : ℕ) (p q : Parser)
    → parse_loop src type handle fuel p ≡ some (conf_ok, q)
    → Runs src type handle q p
unfolding parse_loop
parse_loop-Runs src type handle zero p q e = cc e
parse_loop-Runs src type handle (suc fuel) p q e =
    after_read-Runs src type handle q (parse_loop src type handle fuel)
      (λ p' e'. parse_loop-Runs src type handle fuel p' q e') (suc fuel) p _ refl e
