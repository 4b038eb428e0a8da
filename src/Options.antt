-- ===== src/Options.antt =====
-- `Get_options_` of src/lingx/lingx.cc: the command line. An argument is the list of its bytes; the
-- global variables that the function sets are the fields of `Options`.
pub mod Words
pub mod Core
use lingx.Base.{
  ℕ, Bool, true, false, ◌&&◌, ◌||◌, Option, none, some, List, [], ◌∷◌, ◌==◌, if◌then◌else◌,
}

pub record Options : Type 0 where
  pub show_help : Bool
  pub show_version : Bool
  pub show_configure : Bool
  pub test_config : Bool
  pub quiet_mode : Bool
  pub prefix : List ℕ
  pub conf_file : List ℕ
  pub conf_param : List ℕ
  pub signal : List ℕ
  pub signaller : Bool

pub data Field : Type 0 where
  prefix_field conf_file_field conf_param_field signal_field : Field

-- The message printed before ERROR is returned.
pub data OptionError : Type 0 where
  invalid_argument : OptionError
  invalid_letter : ℕ → OptionError
  requires_value : Field → OptionError
  invalid_signal : OptionError

pub data Result : Type 0 where
  parsed : Options → Result
  refused : OptionError → Result

-- The cases `?`, `h`, `v`, `V`, `t` and `q`.
unfoldable pub set_flag : ℕ → Options → Option Options
set_flag c o =
    if c == 63 || c == 104
    then some (record o { show_version = true; show_help = true })
    else if c == 118
    then some (record o { show_version = true })
    else if c == 86
    then some (record o { show_version = true; show_configure = true })
    else if c == 116
    then some (record o { test_config = true })
    else if c == 113
    then some (record o { quiet_mode = true })
    else none

-- The cases `p`, `c`, `g` and `s`.
unfoldable pub field_of : ℕ → Option Field
field_of c =
    if c == 112
    then some prefix_field
    else if c == 99
    then some conf_file_field
    else if c == 103
    then some conf_param_field
    else if c == 115
    then some signal_field
    else none

unfoldable pub word_eq : List ℕ → List ℕ → Bool
word_eq [] [] = true
word_eq [] (d ∷ ds) = false
word_eq (c ∷ cs) [] = false
word_eq (c ∷ cs) (d ∷ ds) = (c == d) && word_eq cs ds

-- `stop`, `quit`, `reopen` or `reload`.
unfoldable pub is_signal : List ℕ → Bool
unfolding word_eq
is_signal v =
    word_eq v (115 ∷ 116 ∷ 111 ∷ 112 ∷ [])
    || word_eq v (113 ∷ 117 ∷ 105 ∷ 116 ∷ [])
    || word_eq v (114 ∷ 101 ∷ 111 ∷ 112 ∷ 101 ∷ 110 ∷ [])
    || word_eq v (114 ∷ 101 ∷ 108 ∷ 111 ∷ 97 ∷ 100 ∷ [])

unfoldable pub set_field : Field → List ℕ → Options → Result
unfolding is_signal
set_field prefix_field v o = parsed (record o { prefix = v })
set_field conf_file_field v o = parsed (record o { conf_file = v })
set_field conf_param_field v o = parsed (record o { conf_param = v })
set_field signal_field v o =
    if is_signal v
    then parsed (record o { signal = v; signaller = true })
    else refused invalid_signal

-- Where the `while` over the letters of an argument leaves it: at the end, at a letter with a value,
-- of which the rest of the argument is given, or at an error.
pub data Scan : Type 0 where
  ended : Options → Scan
  at_field : Field → List ℕ → Options → Scan
  at_error : OptionError → Scan

-- The `switch`: a flag, after which the letters go on, or a letter with a value.
unfoldable pub on_letter :
    ℕ → List ℕ → Options → (Options → Scan) → Option Options → Option Field → Scan
on_letter c p o next (some q) field = next q
on_letter c p o next none (some f) = at_field f p o
on_letter c p o next none none = at_error (invalid_letter c)

unfoldable pub scan_letters : List ℕ → Options → Scan
scan_letters [] o = ended o
scan_letters (c ∷ p) o = on_letter c p o (scan_letters p) (set_flag c o) (field_of c)

unfoldable pub scan_argument : List ℕ → Options → Scan
scan_argument [] o = at_error invalid_argument
scan_argument (c ∷ p) o = if c == 45 then scan_letters p o else at_error invalid_argument

abbrev pub Rest : Type 0
Rest = Options → Result

unfoldable pub and_then : Rest → Result → Result
and_then next (parsed o) = next o
and_then next (refused e) = refused e

-- What follows an argument: `next` goes on with the one after it, and `value` is that one, if there
-- is one, with what goes on behind it.
unfoldable pub after_scan : Rest → Option (List ℕ × Rest) → Scan → Result
after_scan next value (ended o) = next o
after_scan next value (at_error e) = refused e
after_scan next value (at_field f (c ∷ p) o) = and_then next (set_field f (c ∷ p) o)
after_scan next none (at_field f [] o) = refused (requires_value f)
after_scan next (some (v, behind)) (at_field f [] o) = and_then behind (set_field f v o)

unfoldable pub get_options : List (List ℕ) → Rest
get_options [] o = parsed o
get_options (a ∷ []) o = after_scan parsed none (scan_argument a o)
get_options (a ∷ v ∷ args) o =
    after_scan (get_options (v ∷ args)) (some (v, get_options args)) (scan_argument a o)
