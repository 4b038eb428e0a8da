-- ===== src/Conf/Lexer.antt =====
-- `Conf::read_token_` of src/lingx/core/conf_file.cc. `Lex` holds the variables of the function that a
-- character changes, `Reader` the buffer and the file position. Of the buffer's bytes only those from
-- `start` on are ever read: `held` are those before `pos`, the last one first, and `ahead` those from
-- `pos` to `last`.
pub mod Words
pub mod Stream
pub mod Args
use lingx.Base.{
  ℕ, zero, suc, ◌+◌, ◌-◌, Bool, true, false, not, ◌&&◌, ◌||◌, Option, none, some, List, [], ◌∷◌,
  ◌++◌, ltb, leb, ◌==◌, if◌then◌else◌, length, replicate, is_empty,
}
use mathlib.Core.List.{reverse}

-- What the function logs before it returns ERROR.
pub data LexError : Type 0 where
  end_of_param end_of_file too_long read_failed : LexError
  missing_quote unexpected : ℕ → LexError
  short_read : ℕ → ℕ → LexError

pub data Token : Type 0 where
  failed : LexError → Token
  ok block_start block_done file_done : Token

pub record Lex : Type 0 where
  pub need_space : Bool
  pub last_space : Bool
  pub sharp_comment : Bool
  pub variable : Bool
  pub quoted : Bool
  pub s_quoted : Bool
  pub d_quoted : Bool
  pub start_line : ℕ
  pub line : ℕ
  pub args : List (List ℕ)
  pub held : List ℕ

pub record Reader : Type 0 where
  pub ahead : List ℕ
  pub offset : ℕ

-- The open file: `is_file` is `fd() != -1`, and `pread` the system call, `none` if it fails.
pub record Source : Type 0 where
  pub is_file : Bool
  pub file_size : ℕ
  pub pread : ℕ → ℕ → Option (List ℕ)

abbrev pub max_conf_buffer : ℕ
max_conf_buffer = 4096

abbrev pub backslash : ℕ
backslash = 92

abbrev pub quote : ℕ
quote = 39

abbrev pub double_quote : ℕ
double_quote = 34

unfoldable pub is_space : ℕ → Bool
is_space ch = ch == 32 || ch == 9 || ch == 13 || ch == 10

-- The two characters of an escape sequence, as the character that replaces them.
unfoldable pub escape : ℕ → ℕ → Option ℕ
escape c d =
    if c == backslash
    then (if d == double_quote || d == quote || d == backslash
        then some d
        else if d == b't'
        then some 9
        else if d == b'r'
        then some 13
        else if d == b'n'
        then some 10
        else none)
    else none

-- The loop that copies a word: `after` is the byte behind it.
unfoldable pub unescape : ℕ → List ℕ → List ℕ
unfolding escape
unescape after [] = []
unescape after (c ∷ []) = elim (escape c after) [ some v ↦ v ∷ [] | none ↦ c ∷ [] ]
unescape after (c ∷ d ∷ raw) = elim (escape c d) [
  | some v ↦ v ∷ unescape after raw
  | none ↦ c ∷ unescape after (d ∷ raw)
]

-- The string is made with the length of the raw word, of NUL bytes, and overwritten from the front.
unfoldable pub word : ℕ → List ℕ → List ℕ
unfolding unescape
word after raw = let text = unescape after raw in text ++ replicate (length raw - length text) 0

-- What one character does: the loop goes on, or the function returns.
pub data Step : Type 0 where
  more : Lex → Step
  done : Token → Lex → Step

-- The character at which a word starts, or that stands between words.
first_char : Lex → ℕ → Step
unfolding is_space
first_char l ch =
    if is_space ch
    then more l
    else (let s = record l { start_line = l.line; held = ch ∷ [] } in
        if ch == b';' || ch == b'{'
        then (if is_empty s.args
            then done (failed (unexpected ch)) s
            else if ch == b'{'
            then done block_start s
            else done ok s)
        else if ch == b'}'
        then (if is_empty s.args then done block_done s else done (failed (unexpected ch)) s)
        else if ch == b'#'
        then more (record s { sharp_comment = true })
        else if ch == backslash
        then more (record s { quoted = true; last_space = false })
        else if ch == double_quote
        then more (record s { held = []; d_quoted = true; last_space = false })
        else if ch == quote
        then more (record s { held = []; s_quoted = true; last_space = false })
        else more (record s { last_space = false }))

tail_of : List ℕ → List ℕ
tail_of [] = []
tail_of (x ∷ xs) = xs

-- `if (found)`: the word from `start` to the character before `ch` is the next argument.
push_word : Lex → ℕ → Step
unfolding tail_of
push_word l ch =
    let s = record l { args = l.args ++ word ch (reverse (tail_of l.held)) ∷ [] } in
    if ch == b';' then done ok s else if ch == b'{' then done block_start s else more s

-- A character inside a word.
word_char : Lex → ℕ → Step
unfolding is_space push_word
word_char l ch =
    if ch == b'{' && l.variable
    then more l
    else (let s = record l { variable = false } in
        if ch == backslash
        then more (record s { quoted = true })
        else if ch == b'$'
        then more (record s { variable = true })
        else if s.d_quoted
        then (if ch == double_quote
            then push_word (record s { d_quoted = false; need_space = true }) ch
            else more s)
        else if s.s_quoted
        then (if ch == quote
            then push_word (record s { s_quoted = false; need_space = true }) ch
            else more s)
        else if is_space ch || ch == b';' || ch == b'{'
        then push_word (record s { last_space = true }) ch
        else more s)

inside : Lex → ℕ → Step
unfolding first_char word_char
inside l ch = if l.last_space then first_char l ch else word_char l ch

-- After a closing quote.
after_quote : Lex → ℕ → Step
unfolding inside is_space
after_quote l ch =
    if is_space ch
    then more (record l { last_space = true; need_space = false })
    else if ch == b';'
    then done ok l
    else if ch == b'{'
    then done block_start l
    else if ch == b')'
    then inside (record l { last_space = true; need_space = false }) ch
    else done (failed (unexpected ch)) l

-- The line count and the end of a comment.
new_line : Lex → ℕ → Lex
new_line l ch = if ch == 10 then record l { line = l.line + 1; sharp_comment = false } else l

-- The body of the loop at the character `ch`, from `ch = *b->pos++` on.
unfoldable pub lex_char : Lex → ℕ → Step
unfolding new_line after_quote inside
lex_char l0 ch =
    let l = new_line (record l0 { held = ch ∷ l0.held }) ch in
    if l.sharp_comment
    then more l
    else if l.quoted
    then more (record l { quoted = false })
    else if l.need_space
    then after_quote l ch
    else inside l ch

-- The buffer is used up: the end of the file, an error, or the next part of the file.
pub data Fill : Type 0 where
  stop : Token → Lex → Fill
  char : ℕ → Reader → Fill

unfoldable pub end_token : Bool → Lex → Token
end_token is_file l =
    if not (is_empty l.args) || not l.last_space
    then (if not is_file then failed end_of_param else failed end_of_file)
    else file_done

too_long_token : Lex → Token
too_long_token l =
    if l.d_quoted
    then failed (missing_quote double_quote)
    else if l.s_quoted
    then failed (missing_quote quote)
    else failed too_long

-- What `read` returned for `size` bytes at `offset`.
take_read : ℕ → ℕ → Lex → Option (List ℕ) → Fill
take_read offset size l none = stop (failed read_failed) l
take_read offset size l (some []) = stop (failed (short_read 0 size)) l
take_read offset size l (some (c ∷ bytes)) =
    if length (c ∷ bytes) == size
    then char c (record { ahead = bytes; offset = offset + size })
    else stop (failed (short_read (length (c ∷ bytes)) size)) l

-- `size`: the rest of the file, as far as there is room behind the `len` bytes held.
read_size : Source → ℕ → ℕ → ℕ
read_size src offset len =
    if ltb (max_conf_buffer - len) (src.file_size - offset)
    then max_conf_buffer - len
    else src.file_size - offset

unfoldable pub refill : Source → Lex → ℕ → Fill
unfolding end_token too_long_token take_read read_size
refill src l offset =
    if leb src.file_size offset
    then stop (end_token src.is_file l) l
    else if length l.held == max_conf_buffer
    then stop (too_long_token l) (record l { line = l.start_line })
    else (let size = read_size src offset (length l.held) in
        take_read offset size l (src.pread offset size))

fill : Source → Lex → List ℕ → ℕ → Fill
unfolding refill
fill src l [] offset = refill src l offset
fill src l (c ∷ ahead) offset = char c (record { ahead = ahead; offset = offset })

pub record Outcome : Type 0 where
  pub token : Token
  pub lex : Lex
  pub reader : Reader

-- Return, or go round the loop, which is `next`.
after_step : (Lex → Reader → Option Outcome) → Reader → Step → Option Outcome
after_step next r (more l) = next l r
after_step next r (done t l) = some (record { token = t; lex = l; reader = r })

after_fill : (Lex → Reader → Option Outcome) → Lex → Reader → Fill → Option Outcome
unfolding after_step lex_char
after_fill next l r (stop t l') = some (record { token = t; lex = l'; reader = r })
after_fill next l r (char c r') = after_step next r' (lex_char l c)

-- The `for (;;)`; `none` means that the fuel ran out.
unfoldable pub read_loop : Source → ℕ → Lex → Reader → Option Outcome
unfolding fill after_fill
read_loop src zero l r = none
read_loop src (suc fuel) l r = after_fill (read_loop src fuel) l r (fill src l r.ahead r.offset)

unfoldable pub start : ℕ → Lex
start line = record {
  need_space = false;
  last_space = true;
  sharp_comment = false;
  variable = false;
  quoted = false;
  s_quoted = false;
  d_quoted = false;
  start_line = line;
  line = line;
  args = [];
  held = [];
}

unfoldable pub read_token : Source → ℕ → ℕ → Reader → Option Outcome
unfolding start read_loop
read_token src fuel line r = read_loop src fuel (start line) r
