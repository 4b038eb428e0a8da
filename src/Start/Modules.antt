-- ===== src/Start/Modules.antt =====
-- `Modules` of src/lingx/core/modules.cc: the modules of the program, which src/lingx/lingx.cc and the
-- files of core/ and http/ define, with the tables of their commands. A command's offset is here the
-- number of its field in the configuration, and its setter one of the numbers below.
use Prim.Native.Nat.{bit_or}
use lingx.Base.{
  ℕ, zero, suc, ◌-◌, ◌^◌, ◌≡◌, refl, ◌∙◌, inl, inr, Bool, true, none, some, List, [], ◌∷◌,
  if◌then◌else◌, Bool-cases, get_elem?,
}
use mathlib.Core.Option.{some-injective}
use mathlib.Core.Path.{subst}
use lingx.Conf.Directives.{
  conf_block, conf_flag, conf_1more, main_conf, event_conf, http_main_conf, Command, Module,
  not_allowed, SetResult, Slot, Place, bytes_eq, name_of, commands_of, all_commands, error,
  in_place, run_command, handle,
}
use lingx.Conf.Directives.First.{find_command, known, run_first, handle-run_first}
use lingx.Log.Levels.{bytes}
use lingx.Start.Preinit.{preinit_loop, preinit_modules}

abbrev pub core_type : ℕ
core_type = 0x45524F43

abbrev pub event_type : ℕ
event_type = 0x544E5645

abbrev pub http_type : ℕ
http_type = 0x50545448

abbrev pub conf_noargs : ℕ
conf_noargs = 1

abbrev pub set_flag_slot : ℕ
set_flag_slot = 0

abbrev pub error_log_setter : ℕ
error_log_setter = 1

abbrev pub events_block_setter : ℕ
events_block_setter = 2

abbrev pub http_block_setter : ℕ
http_block_setter = 3

abbrev pub http_core_server_setter : ℕ
http_core_server_setter = 4

-- `index_` and `ctx_index_` are the unsigned -1 until they are set.
unfoldable pub new_module : ℕ → List Command → Module
new_module type commands = record {
  type = type;
  index = 2 ^ 32 - 1;
  ctx_index = 2 ^ 32 - 1;
  commands = commands;
}

unfoldable pub command : List ℕ → ℕ → ℕ → ℕ → Command
command name type setter offset = record {
  name = name;
  type = type;
  conf = 0;
  offset = offset;
  setter = setter;
}

unfoldable pub core_commands : List Command
unfolding command
core_commands =
    command (bytes "daemon") (bit_or main_conf conf_flag) set_flag_slot 0
    ∷ command (bytes "master_process") (bit_or main_conf conf_flag) set_flag_slot 1
    ∷ []

unfoldable pub errlog_commands : List Command
unfolding command
errlog_commands = command (bytes "error_log") (bit_or main_conf conf_1more) error_log_setter 0 ∷ []

unfoldable pub events_commands : List Command
unfolding command
events_commands =
    command (bytes "events") (bit_or (bit_or main_conf conf_block) conf_noargs) events_block_setter
      0
    ∷ []

unfoldable pub event_core_commands : List Command
unfolding command
event_core_commands =
    command (bytes "multi_accept") (bit_or event_conf conf_flag) set_flag_slot 2 ∷ []

unfoldable pub http_commands : List Command
unfolding command
http_commands =
    command (bytes "http") (bit_or (bit_or main_conf conf_block) conf_noargs) http_block_setter 0
    ∷ []

unfoldable pub http_core_commands : List Command
unfolding command
http_core_commands =
    command (bytes "server") (bit_or (bit_or http_main_conf conf_block) conf_noargs)
      http_core_server_setter 0
    ∷ []

unfoldable pub core_module : Module
unfolding new_module core_commands
core_module = new_module core_type core_commands

unfoldable pub errlog_module : Module
unfolding new_module errlog_commands
errlog_module = new_module core_type errlog_commands

unfoldable pub events_module : Module
unfolding new_module events_commands
events_module = new_module core_type events_commands

unfoldable pub event_core_module : Module
unfolding new_module event_core_commands
event_core_module = new_module event_type event_core_commands

-- The module for poll() has no commands.
unfoldable pub event_poll_module : Module
unfolding new_module
event_poll_module = new_module event_type []

unfoldable pub http_module : Module
unfolding new_module http_commands
http_module = new_module core_type http_commands

unfoldable pub http_core_module : Module
unfolding new_module http_core_commands
http_core_module = new_module http_type http_core_commands

unfoldable pub modules : List Module
unfolding core_module errlog_module events_module event_core_module event_poll_module http_module
    http_core_module
modules =
    core_module ∷ errlog_module ∷ events_module ∷ event_core_module ∷ event_poll_module
    ∷ http_module ∷ http_core_module ∷ []

-- The modules when the configuration is parsed.
unfoldable pub indexed_modules : List Module
unfolding modules preinit_modules preinit_loop
indexed_modules = (preinit_modules modules).0

module _ {S : Type 0} (set_ : Command → Slot → S → SetResult × S) (p : Place) (rest : List (List ℕ))
    (block : Bool) (s : S) where
  abbrev Runs : Module × Command → Type 0
  Runs (m, c) = handle set_ p (c.name ∷ rest) block indexed_modules s ≡ (
      if in_place p m c
      then run_command set_ p (c.name ∷ rest) block m c s
      else (error not_allowed, s))

  Runs-declared :
      (x mc : Module × Command)
      → some x ≡ some mc
      → find_command p x.1.name (all_commands indexed_modules)
        ≡ (if in_place p x.0 x.1 then some x else none)
      → known x.1.name (all_commands indexed_modules) ≡ true
      → Runs mc
  unfolding run_first name_of
  Runs-declared x mc h e k = subst Runs (some-injective x mc h) (
      handle-run_first set_ p (x.1.name ∷ rest) block indexed_modules s
      ∙ (rw (e, k)
          (elim (Bool-cases (in_place p x.0 x.1)) [ inl b ↦ rw b refl | inr b ↦ rw b refl ])))

  -- A directive of the program runs its own command where the block being parsed is the command's
  -- place, and is not allowed anywhere else: no other command has its name.
  pub handle-declared :
      (i : ℕ) (mc : Module × Command)
      → get_elem? (all_commands indexed_modules) i ≡ some mc
      → Runs mc
  unfolding find_command known all_commands commands_of indexed_modules modules preinit_modules
      preinit_loop new_module core_commands errlog_commands events_commands event_core_commands
      http_commands http_core_commands command bytes_eq in_place
  handle-declared zero mc h = Runs-declared _ mc h refl refl
  handle-declared (suc zero) mc h = Runs-declared _ mc h refl refl
  handle-declared (suc (suc zero)) mc h = Runs-declared _ mc h refl refl
  handle-declared (suc (suc (suc zero))) mc h = Runs-declared _ mc h refl refl
  handle-declared (suc (suc (suc (suc zero)))) mc h = Runs-declared _ mc h refl refl
  handle-declared (suc (suc (suc (suc (suc zero))))) mc h = Runs-declared _ mc h refl refl
  handle-declared (suc (suc (suc (suc (suc (suc zero)))))) mc h = Runs-declared _ mc h refl refl
  handle-declared (suc (suc (suc (suc (suc (suc (suc i))))))) mc h = cc h
