-- ===== src/Conf/Parse.antt =====
-- The loop of `Conf::parse` of src/lingx/core/conf_file.cc. `handle` is `handle_`, told whether the
-- token opened a block; through the setter it calls it may parse a nested block, so it changes the
-- parser's state, and `none` says that it ran out of fuel. `Conf.Parse.Open` opens the file and gives
-- the loop its `Source`.
pub mod Total
pub mod Runs
pub mod Open
use lingx.Base.{ℕ, zero, suc, Bool, true, false, Option, none, some, List}
use lingx.Conf.Directives.{handle}
use lingx.Conf.Lexer.{
  LexError, Token, failed, block_start, block_done, file_done, Reader, Source, read_token,
}

pub data ParseType : Type 0 where
  parse_file parse_block parse_param : ParseType

pub record Parser : Type 0 where
  pub reader : Reader
  pub line : ℕ
  pub args : List (List ℕ)

-- The message logged before CONF_ERROR is returned.
pub data ParseError : Type 0 where
  lexical : LexError → ParseError
  unexpected_brace unexpected_end block_in_param directive_failed : ParseError

pub data ParseResult : Type 0 where
  conf_ok : ParseResult
  conf_error : ParseError → ParseResult

abbrev pub Handle : Type 0
Handle = Bool → Parser → Option (Bool × Parser)

-- What the loop does after a token: it returns, or hands the directive over.
pub data Next : Type 0 where
  finish : ParseResult → Next
  directive : Bool → Next

unfoldable pub on_token : ParseType → Token → Next
on_token type (failed e) = finish (conf_error (lexical e))
on_token parse_block block_done = finish conf_ok
on_token type block_done = finish (conf_error unexpected_brace)
on_token parse_block file_done = finish (conf_error unexpected_end)
on_token type file_done = finish conf_ok
on_token parse_param block_start = finish (conf_error block_in_param)
on_token type block_start = directive true
on_token type Token.ok = directive false

-- `read_token_` on the parser's state.
unfoldable pub read : Source → ℕ → Parser → Option (Token × Parser)
unfolding read_token
read src fuel p = elim (read_token src fuel p.line p.reader) [
  | none ↦ none
  | some o ↦ some (o.token, record { reader = o.reader; line = o.lex.line; args = o.lex.args })
]

abbrev pub Rounds : Type 0
Rounds = Parser → Option (ParseResult × Parser)

unfoldable pub after_handle : Rounds → Option (Bool × Parser) → Option (ParseResult × Parser)
after_handle next none = none
after_handle next (some (false, p)) = some (conf_error directive_failed, p)
after_handle next (some (true, p)) = next p

unfoldable pub after_next : Rounds → Handle → Parser → Next → Option (ParseResult × Parser)
unfolding after_handle
after_next next handle p (finish r) = some (r, p)
after_next next handle p (directive block) = after_handle next (handle block p)

unfoldable pub after_read :
    ParseType → Rounds → Handle → Option (Token × Parser) → Option (ParseResult × Parser)
unfolding on_token after_next
after_read type next handle none = none
after_read type next handle (some (t, p)) = after_next next handle p (on_token type t)

-- The `for (;;)` of `parse`; `none` means that the fuel ran out, of this loop or of a callee.
unfoldable pub parse_loop : Source → ParseType → Handle → ℕ → Rounds
unfolding read after_read
parse_loop src type handle zero p = none
parse_loop src type handle (suc fuel) p =
    after_read type (parse_loop src type handle fuel) handle (read src (suc fuel) p)
