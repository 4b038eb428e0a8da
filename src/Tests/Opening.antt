-- ===== src/Tests/Opening.antt =====
-- The opening of configuration files.
use lingx.Base.{ℕ, ◌≡◌, refl, true, none, some, List, [], if◌then◌else◌, length, take, drop}
use lingx.Conf.Directives.{bytes_eq}
use lingx.Conf.Lexer.{Source}
use lingx.Conf.Parse.{conf_ok, Handle}
use lingx.Conf.Parse.Open.{
  parsed, ConfFile, ConfState, Opening, stat_failed, opened, not_stated, null_file, start_parser,
  cleanup, parse_opened, parse_current, parse_body, conf_parse, conf_param,
}
use lingx.Conf.Parse.Open.Restores.{Keeps, conf_parse-Keeps}
use lingx.Log.Levels.{bytes}

abbrev file : List ℕ → Source
file contents = record {
  is_file = true;
  file_size = length contents;
  pread = λ offset n. some (take n (drop offset contents));
}

-- One file can be opened.
abbrev opens_main : List ℕ → Opening
opens_main name = if bytes_eq name (bytes "main") then opened (file (bytes "a b;")) else stat_failed

abbrev accept_all : Source → Handle
accept_all src block p = some (true, p)

abbrev outer : ConfFile
outer = record { source = file (bytes "include x;"); parser = start_parser [] 3 }

-- The parser is in a file, which is the only object.
abbrev reading : ConfState
reading = record { files = λ a. outer; conf_file = some 0; next = 1 }

no_state : ConfState
no_state = record { files = λ a. outer; conf_file = none; next = 0 }

conf_parse-Keeps_example : Keeps (bytes "none") reading reading
unfolding conf_parse parse_body parse_opened cleanup bytes_eq
conf_parse-Keeps_example =
    conf_parse-Keeps accept_all 40 opens_main (bytes "none") reading reading not_stated refl

conf_parse_runs :
    (conf_parse accept_all 40 opens_main [] no_state ≡ some (null_file, no_state))
    × (conf_param accept_all 40 opens_main [] no_state ≡ some (parsed conf_ok, no_state))
unfolding conf_parse conf_param parse_body parse_current cleanup no_state
conf_parse_runs = (refl, refl)
