-- ===== src/Conf/Values.antt =====
-- Values of the configuration: `Conf_init_value`, `Conf_merge_value` of src/lingx/core/conf_file.h and
-- `Conf::parse_flag_arg`, `Set_flag_slot` of conf_file.cc. A `flag_t` or `uint` is a number below 2^32.
pub mod Flags
use lingx.Base.{ℕ, not, List, [], ◌∷◌, ◌==◌, if◌then◌else◌}
use lingx.Conf.Directives.{conf_ok, conf_error, Command, SetResult, text, bytes_eq}

-- `(T) UNSET`.
abbrev pub unset : ℕ
unset = 4294967295

abbrev pub off : ℕ
off = 0

abbrev pub on : ℕ
on = 1

unfoldable pub init_value : ℕ → ℕ → ℕ
init_value conf val = if conf == unset then val else conf

unfoldable pub merge_value : ℕ → ℕ → ℕ → ℕ
merge_value conf prev val = if conf == unset then (if prev == unset then val else prev) else conf

-- `c_str()`: what a C function sees of a string.
unfoldable pub c_str : List ℕ → List ℕ
c_str [] = []
c_str (c ∷ s) = if c == 0 then [] else c ∷ c_str s

abbrev pub is_duplicate : SetResult
is_duplicate =
    text (b'i' ∷ b's' ∷ 32 ∷ b'd' ∷ b'u' ∷ b'p' ∷ b'l' ∷ b'i' ∷ b'c' ∷ b'a' ∷ b't' ∷ b'e' ∷ [])

abbrev pub on_text : List ℕ
on_text = b'o' ∷ b'n' ∷ []

abbrev pub off_text : List ℕ
off_text = b'o' ∷ b'f' ∷ b'f' ∷ []

-- `args_` has two elements, the name and `arg`. The result, and `*fp` afterwards.
unfoldable pub parse_flag_arg : List ℕ → ℕ → SetResult × ℕ
unfolding bytes_eq c_str
parse_flag_arg arg fp =
    if not (fp == unset)
    then (is_duplicate, fp)
    else if bytes_eq (c_str arg) on_text
    then (conf_ok, on)
    else if bytes_eq (c_str arg) off_text
    then (conf_ok, off)
    else (conf_error, fp)

-- The structure that `conf` points to is the function from offsets to its fields.
unfoldable pub set_flag_slot : List ℕ → Command → (ℕ → ℕ) → SetResult × (ℕ → ℕ)
unfolding parse_flag_arg
set_flag_slot arg cmd conf =
    let (rv, v) = parse_flag_arg arg (conf cmd.offset) in
    (rv, λ o. if o == cmd.offset then v else conf o)
