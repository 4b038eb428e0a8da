-- ===== src/Conf/Parse/Open.antt =====
-- `Conf::param` and the opening of a file in `Conf::parse`, src/lingx/core/conf_file.cc. What open() and
-- fstat() give for a name is an argument, and so is `handle_`, told the file that it reads. The
-- vector `args_` is cleared by `read_token_`, so it begins empty here.
pub mod Restores
use lingx.Base.{ℕ, ◌+◌, false, Option, none, some, List, [], ◌∷◌, ◌==◌, if◌then◌else◌}
use lingx.Conf.Directives.{handle}
use lingx.Conf.Lexer.{Source}
use lingx.Conf.Parse.{
  Parser, ParseType, parse_file, parse_block, parse_param, ParseResult, conf_ok, Handle, parse_loop,
}

-- A `ConfFile`: the file with its buffer and line, and the buffer of the parameter.
pub record ConfFile : Type 0 where
  pub source : Source
  pub parser : Parser

-- The objects by their addresses, `conf_file_`, which is one of them or null, and the address of the
-- next local object.
pub record ConfState : Type 0 where
  pub files : ℕ → ConfFile
  pub conf_file : Option ℕ
  pub next : ℕ

pub data Opening : Type 0 where
  open_failed stat_failed : Opening
  opened : Source → Opening

-- What a call returns: an error of the file, the result of the loop, or a null `conf_file_` that is
-- dereferenced.
pub data Outcome_ : Type 0 where
  not_opened not_stated null_file : Outcome_
  parsed : ParseResult → Outcome_

abbrev pub start_parser : List ℕ → ℕ → Parser
start_parser ahead line = record {
  reader = record { ahead = ahead; offset = 0 };
  line = line;
  args = [];
}

abbrev pub put_file : ℕ → ConfFile → ConfState → ConfState
put_file a f s = record s { files = λ b. if b == a then f else s.files b }

abbrev pub point_to : Option ℕ → ConfState → ConfState
point_to p s = record s { conf_file = p }

-- A local `ConfFile`, at `s.next`.
abbrev pub allocate : ConfState → ConfState
allocate s = record s { next = s.next + 1 }

-- The return of `parse`: the destructor of `cleanup` stores `prev` in `conf_file_`, and the local
-- object at `local_` is gone.
unfoldable pub cleanup :
    Option ℕ → ℕ → Option (Outcome_ × ConfState) → Option (Outcome_ × ConfState)
cleanup prev local_ none = none
cleanup prev local_ (some (o, s)) = some (o, record s { conf_file = prev; next = local_ })

abbrev pub after_loop :
    ℕ → ConfState → Option (ParseResult × Parser) → Option (Outcome_ × ConfState)
after_loop a s none = none
after_loop a s (some (r, p)) = some (parsed r, put_file a (record (s.files a) { parser = p }) s)

module _ (handle : Source → Handle) (fuel : ℕ) where
  -- The loop, in the file at `a`.
  unfoldable pub loop_in : ℕ → ParseType → ConfState → Option (Outcome_ × ConfState)
  loop_in a type s =
      let f = s.files a in after_loop a s (parse_loop f.source type (handle f.source) fuel f.parser)

  -- With a name, up to the return; the local object is at `a`.
  unfoldable pub parse_opened : ℕ → Opening → ConfState → Option (Outcome_ × ConfState)
  unfolding loop_in
  parse_opened a open_failed s = some (not_opened, s)
  parse_opened a stat_failed s = some (not_stated, point_to (some a) s)
  parse_opened a (opened src) s =
      let file : ConfFile = record { source = src; parser = start_parser [] 1 } in
      loop_in a parse_file (put_file a file (point_to (some a) s))

  -- With no name: a block of the file that is read, or the parameter.
  unfoldable pub parse_current : Option ℕ → ConfState → Option (Outcome_ × ConfState)
  unfolding loop_in
  parse_current none s = some (null_file, s)
  parse_current (some a) s =
      loop_in a (if (s.files a).source.is_file then parse_block else parse_param) s

  unfoldable pub parse_body :
      (List ℕ → Opening) → ℕ → List ℕ → ConfState → Option (Outcome_ × ConfState)
  unfolding parse_opened parse_current
  parse_body opens a [] s = parse_current s.conf_file s
  parse_body opens a (c ∷ name) s = parse_opened a (opens (c ∷ name)) s

  unfoldable pub conf_parse :
      (List ℕ → Opening) → List ℕ → ConfState → Option (Outcome_ × ConfState)
  unfolding cleanup parse_body
  conf_parse opens name s = cleanup s.conf_file s.next (parse_body opens s.next name (allocate s))

  -- The parameter is a buffer without a file, so that nothing more is read.
  abbrev pub param_source : Source
  param_source = record { is_file = false; file_size = 0; pread = λ n offset. none }

  -- `conf_file_ = nullptr`, and the local object of `param` is gone.
  abbrev pub forget_file : ℕ → Option (Outcome_ × ConfState) → Option (Outcome_ × ConfState)
  forget_file a none = none
  forget_file a (some (o, s)) = some (o, record s { conf_file = none; next = a })

  unfoldable pub conf_param :
      (List ℕ → Opening) → List ℕ → ConfState → Option (Outcome_ × ConfState)
  unfolding conf_parse
  conf_param opens [] s = some (parsed conf_ok, s)
  conf_param opens (c ∷ text_) s =
      let file : ConfFile = record { source = param_source; parser = start_parser (c ∷ text_) 0 } in
      forget_file s.next
        (conf_parse opens [] (put_file s.next file (point_to (some s.next) (allocate s))))
