-- ===== src/Tests/Parsing.antt =====
-- The configuration language.
use Prim.Native.Char.{code}
use Prim.Native.String.{String}
use lingx.Base.{
  ℕ, suc, ◌+◌, ◌≡◌, refl, ◌⊎◌, true, false, Option, none, some, List, [], ◌∷◌, ◌++◌, arith, length,
  take, drop, replicate,
}
use lingx.Conf.Directives.{
  has_flag, conf_block, main_conf, Command, Module, not_terminated, not_allowed, unknown, SetResult,
  Slot, Place, bytes_eq, count_fits, check, slot, name_of, commands_of, all_commands, error,
  in_place, run_command, handle, conf_ok as set_ok, ok as handled_ok,
}
use lingx.Conf.Directives.First.{find_command, handle-ok, IsNamed, handle-first, handle-missing}
use lingx.Conf.Lexer.{
  Outcome, start, Token, Lex, Reader, Source, is_space, escape, unescape, word, lex_char,
  read_token,
}
use lingx.Conf.Lexer.Args.{HasArgs, read_token-HasArgs}
use lingx.Conf.Lexer.Stream.{lex_text, IsReadable, Reads, read_token-lex_text}
use lingx.Conf.Lexer.Words.{length-word, word_with_escape, word_plain}
use lingx.Conf.Parse.{Parser, parse_file, ParseResult, conf_ok, Handle, parse_loop}
use lingx.Conf.Parse.Runs.{Runs, parse_loop-Runs}
use lingx.Conf.Parse.Total.{parse_loop_returns}
use lingx.Conf.Values.{
  unset, off, on, init_value, merge_value, c_str, is_duplicate, on_text, off_text, parse_flag_arg,
}
use lingx.Conf.Values.Flags.{parse_flag_arg-ok}
use lingx.Io.Open.{calls}

abbrev codes : String → List ℕ
codes String.[] = []
codes (String.◌∷◌ c s) = code c ∷ codes s

abbrev config : List ℕ
config = codes "daemon off;"

-- A file whose reads succeed.
abbrev file : List ℕ → Source
file contents = record {
  is_file = true;
  file_size = length contents;
  pread = λ offset n. some (take n (drop offset contents));
}

file-IsReadable : (contents : List ℕ) → IsReadable (file contents) contents
file-IsReadable contents = record { size = refl; reads = λ offset n. refl }

abbrev at_start : Reader
at_start = record { ahead = []; offset = 0 }

abbrev begin : Parser
begin = record { reader = at_start; line = 1; args = [] }

abbrev take_all : Handle
take_all block p = some (true, p)

args_of : Option Outcome → List (List ℕ)
args_of none = []
args_of (some o) = o.lex.args

tokens_run :
    args_of (read_token (file (codes "a 'b c' \"d\" ;")) 20 1 at_start)
    ≡ codes "a" ∷ codes "b c" ∷ codes "d" ∷ []
unfolding args_of read_token lex_char is_space word
tokens_run = refl

-- An escaped letter costs the word a NUL byte at its end.
escape_runs :
    args_of (read_token (file (codes "a\\\"b;")) 20 1 at_start) ≡ (codes "a\"b" ++ 0 ∷ []) ∷ []
unfolding args_of read_token lex_char is_space word
escape_runs = refl

parse_runs :
    parse_loop (file config) parse_file take_all 40 begin
    ≡ some (conf_ok, record { reader = record { ahead = []; offset = 11 }; line = 1; args = [] })
unfolding parse_loop lex_char is_space word
parse_runs = refl

length-word_example : length (word b';' (codes "a\\\"b")) ≡ 4
length-word_example = length-word b';' (codes "a\\\"b")

word_with_escape_example :
    (k : ℕ) × (word b';' (codes "\\\"b") ≡ (34 ∷ unescape b';' (codes "b")) ++ replicate (suc k) 0)
unfolding escape
word_with_escape_example = word_with_escape b';' 92 34 34 (codes "b") refl

word_plain_run : word b';' (codes "on") ≡ codes "on"
word_plain_run =
    word_plain b';' (codes "on") (λ e. absurd (omega arith), (λ e. absurd (omega arith), tt))

-- The token `daemon off;`.
abbrev after_config : Lex
after_config = record (start 1) {
  last_space = true;
  args = codes "daemon" ∷ codes "off" ∷ [];
  held = b';' ∷ b'f' ∷ b'f' ∷ b'o' ∷ [];
}

abbrev config_outcome : Outcome
config_outcome = record {
  token = Token.ok;
  lex = after_config;
  reader = record { ahead = []; offset = 11 };
}

read_token-HasArgs_example : HasArgs Token.ok after_config
unfolding start read_token lex_char is_space word
read_token-HasArgs_example = read_token-HasArgs (file config) 20 1 at_start config_outcome refl

read_token-lex_text_example :
    Reads config (lex_text true (start 1) config) (read_token (file config) 12 1 at_start)
read_token-lex_text_example =
    read_token-lex_text (file config) config 12 1 at_start (file-IsReadable config) (omega arith)
      (omega arith)

parse_loop-Runs_example :
    Runs
      (file config)
      parse_file
      take_all
      (record { reader = record { ahead = []; offset = 11 }; line = 1; args = [] })
      begin
parse_loop-Runs_example = parse_loop-Runs (file config) parse_file take_all 40 begin _ parse_runs

parse_loop_returns_example :
    (q : ParseResult × Parser) × (parse_loop (file config) parse_file take_all 12 begin ≡ some q)
parse_loop_returns_example =
    parse_loop_returns (file config) config (file-IsReadable config) parse_file take_all
      (λ block p fits. (fits, omega arith)) 12 begin (omega arith) (omega arith)

-- The directive `daemon` of the core module, which sets a flag.
abbrev daemon_command : Command
daemon_command = record {
  name = codes "daemon";
  type = 0x1000200;
  conf = 0;
  offset = 0;
  setter = 0;
}

abbrev core_module : Module
core_module = record { type = 1; index = 0; ctx_index = 0; commands = daemon_command ∷ [] }

abbrev at_top : Place
at_top = record { module_type = 1; cmd_type = main_conf; ctx = some (λ k. true) }

-- The setter counts its calls.
abbrev count_call : Command → Slot → ℕ → SetResult × ℕ
count_call cmd conf calls = (set_ok, calls + 1)

abbrev config_args : List (List ℕ)
config_args = codes "daemon" ∷ codes "off" ∷ []

handle_runs : handle count_call at_top config_args false (core_module ∷ []) 4 ≡ (handled_ok, 5)
unfolding handle bytes_eq in_place check slot name_of
handle_runs = refl

handle_not_a_block :
    handle count_call at_top config_args true (core_module ∷ []) 4 ≡ (error not_terminated, 4)
unfolding handle bytes_eq in_place check slot name_of
handle_not_a_block = refl

handle-first_example :
    handle count_call at_top config_args false (core_module ∷ []) 4
    ≡ run_command count_call at_top config_args false core_module daemon_command 4
unfolding all_commands commands_of name_of
handle-first_example =
    handle-first count_call at_top config_args false (core_module ∷ []) 4 [] [] core_module
      daemon_command refl tt (refl, refl, λ z. absurd (cc z))

-- The same command where another type of module is configured.
abbrev in_events : Place
in_events = record { module_type = 2; cmd_type = main_conf; ctx = none }

handle-missing_example :
    (IsNamed count_call in_events config_args false (all_commands (core_module ∷ []))
      × (handle count_call in_events config_args false (core_module ∷ []) 4
          ≡ (error not_allowed, 4)))
    ⊎ ((IsNamed count_call in_events config_args false (all_commands (core_module ∷ [])) → ⊥)
        × (handle count_call in_events config_args false (core_module ∷ []) 4 ≡ (error unknown, 4)))
unfolding all_commands commands_of name_of
handle-missing_example =
    handle-missing count_call in_events config_args false (core_module ∷ []) 4
      (λ f. absurd (cc f.1), tt)

handle-ok_run :
    (mod_ : Module) × (cmd : Command) × (find_command at_top
        (name_of config_args)
        (all_commands (core_module ∷ []))
      ≡ some (mod_, cmd))
    × ((has_flag cmd.type conf_block ≡ false) × (count_fits cmd.type 2 ≡ true))
    × (count_call cmd (slot at_top mod_ cmd) 4 ≡ (set_ok, 5))
handle-ok_run = handle-ok count_call at_top config_args false (core_module ∷ []) 4 5 handle_runs

parse_flag_arg-ok_run :
    (unset ≡ unset)
    × (((off ≡ on) × (bytes_eq (c_str (codes "off")) on_text ≡ true))
        ⊎ ((off ≡ off) × (bytes_eq (c_str (codes "off")) off_text ≡ true)))
    × (parse_flag_arg (codes "on") off ≡ (is_duplicate, off))
    × (init_value off on ≡ off)
    × (merge_value off unset on ≡ off)
unfolding parse_flag_arg
parse_flag_arg-ok_run = parse_flag_arg-ok (codes "off") (codes "on") unset unset on refl
