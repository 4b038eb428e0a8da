-- ===== src/Conf/Directives.antt =====
-- `Conf::handle_` of src/lingx/core/conf_file.cc: the directive of `args_` among the modules' commands.
pub mod First
use Prim.Native.Nat.{bit_and}
use lingx.Base.{
  ℕ, ◌-◌, Bool, true, false, not, ◌&&◌, Option, none, some, List, [], ◌∷◌, ◌++◌, ltb, ◌==◌,
  if◌then◌else◌, length, get_or,
}

abbrev pub conf_block : ℕ
conf_block = 0x100

abbrev pub conf_flag : ℕ
conf_flag = 0x200

abbrev pub conf_any : ℕ
conf_any = 0x400

abbrev pub conf_1more : ℕ
conf_1more = 0x800

abbrev pub conf_2more : ℕ
conf_2more = 0x1000

abbrev pub main_conf : ℕ
main_conf = 0x1000000

abbrev pub event_conf : ℕ
event_conf = 0x2000000

abbrev pub http_main_conf : ℕ
http_main_conf = 0x2000000

abbrev pub http_srv_conf : ℕ
http_srv_conf = 0x4000000

abbrev pub conf_max_args : ℕ
conf_max_args = 8

-- `Argument_number_`: CONF_NOARGS, CONF_TAKE1, ..., CONF_TAKE7.
abbrev pub argument_number : List ℕ
argument_number = 1 ∷ 2 ∷ 4 ∷ 8 ∷ 16 ∷ 32 ∷ 64 ∷ 128 ∷ []

-- `setter` stands for the function pointer.
pub record Command : Type 0 where
  pub name : List ℕ
  pub type : ℕ
  pub conf : ℕ
  pub offset : ℕ
  pub setter : ℕ

pub record Module : Type 0 where
  pub type : ℕ
  pub index : ℕ
  pub ctx_index : ℕ
  pub commands : List Command

pub data DirectiveError : Type 0 where
  not_terminated no_opening invalid_arguments not_allowed unknown set_failed : DirectiveError
  message : List ℕ → DirectiveError

-- What a setter returns: CONF_OK, CONF_ERROR, or a text for the log.
pub data SetResult : Type 0 where
  conf_ok conf_error : SetResult
  text : List ℕ → SetResult

-- The `MConfPtr` that a setter is given: entry `index` of the array that the context pointer
-- number `ctx` points to, or a dummy.
pub data Slot : Type 0 where
  dummy : Slot
  entry : ℕ → ℕ → Slot

-- `ctx` says, unless `ctx_` is null, which of the pointers from `ctx_` on are not.
pub record Place : Type 0 where
  pub module_type : ℕ
  pub cmd_type : ℕ
  pub ctx : Option (ℕ → Bool)

unfoldable pub has_flag : ℕ → ℕ → Bool
has_flag flags flag = not (bit_and flags flag == 0)

unfoldable pub bytes_eq : List ℕ → List ℕ → Bool
bytes_eq [] [] = true
bytes_eq [] (d ∷ ds) = false
bytes_eq (c ∷ cs) [] = false
bytes_eq (c ∷ cs) (d ∷ ds) = (c == d) && bytes_eq cs ds

-- Is the argument count right? The directive's name is counted.
unfoldable pub count_fits : ℕ → ℕ → Bool
unfolding has_flag
count_fits type n =
    if has_flag type conf_any
    then true
    else if has_flag type conf_flag
    then n == 2
    else if has_flag type conf_1more
    then not (ltb n 2)
    else if has_flag type conf_2more
    then not (ltb n 3)
    else if ltb conf_max_args n
    then false
    else has_flag type (get_or argument_number (n - 1) 0)

-- The checks of a command in its right place: `block` says that the token ended in an opening brace.
unfoldable pub check : Command → Bool → ℕ → Option DirectiveError
unfolding has_flag count_fits
check cmd block n =
    if not (has_flag cmd.type conf_block) && block
    then some not_terminated
    else if has_flag cmd.type conf_block && not block
    then some no_opening
    else if not (count_fits cmd.type n)
    then some invalid_arguments
    else none

place_entry : Option (ℕ → Bool) → ℕ → ℕ → Slot
place_entry none k index = dummy
place_entry (some live) k index = if live k then entry k index else dummy

unfoldable pub slot : Place → Module → Command → Slot
unfolding has_flag place_entry
slot p mod_ cmd =
    if has_flag cmd.type main_conf
    then place_entry p.ctx 0 mod_.index
    else place_entry p.ctx cmd.conf mod_.ctx_index

unfoldable pub name_of : List (List ℕ) → List ℕ
name_of [] = []
name_of (name ∷ args) = name

-- `for (mod : modules) for (cmd : mod.commands())`.
unfoldable pub commands_of : Module → List Command → List (Module × Command)
commands_of mod_ [] = []
commands_of mod_ (cmd ∷ cmds) = (mod_, cmd) ∷ commands_of mod_ cmds

unfoldable pub all_commands : List Module → List (Module × Command)
unfolding commands_of
all_commands [] = []
all_commands (mod_ ∷ mods) = commands_of mod_ mod_.commands ++ all_commands mods

-- OK, or the error that is logged before ERROR is returned.
pub data Handled : Type 0 where
  ok : Handled
  error : DirectiveError → Handled

unfoldable pub in_place : Place → Module → Command → Bool
unfolding has_flag
in_place p mod_ cmd = (mod_.type == p.module_type) && has_flag cmd.type p.cmd_type

-- `set_` is the command's function pointer, called with the command, the place of its configuration
-- and the state `S` of the program.
module _ {S : Type 0} (set_ : Command → Slot → S → SetResult × S) (p : Place) (args : List (List ℕ))
    (block : Bool) where
  unfoldable pub returned : SetResult × S → Handled × S
  returned (conf_ok, s) = (ok, s)
  returned (conf_error, s) = (error set_failed, s)
  returned (text m, s) = (error (message m), s)

  unfoldable pub checked : Option DirectiveError → Module → Command → S → Handled × S
  unfolding returned
  checked (some e) mod_ cmd s = (error e, s)
  checked none mod_ cmd s = returned (set_ cmd (slot p mod_ cmd) s)

  unfoldable pub run_command : Module → Command → S → Handled × S
  unfolding checked
  run_command mod_ cmd s = checked (check cmd block (length args)) mod_ cmd s

  unfoldable pub handle_loop : Bool → List (Module × Command) → S → Handled × S
  unfolding run_command
  handle_loop found [] s = (error (if found then not_allowed else unknown), s)
  handle_loop found ((mod_, cmd) ∷ rest) s =
      if not (bytes_eq (name_of args) cmd.name)
      then handle_loop found rest s
      else (let skip = handle_loop true rest s in
          if not (in_place p mod_ cmd) then skip else run_command mod_ cmd s)

  unfoldable pub handle : List Module → S → Handled × S
  unfolding handle_loop all_commands
  handle modules s = handle_loop false (all_commands modules) s
