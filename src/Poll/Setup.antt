-- ===== src/Poll/Setup.antt =====
-- What `Poll_init_` and `Event_poll_init_conf_` of src/lingx/core/event_poll_module.cc do besides the
-- table: the globals through which the event loop finds the module.
use lingx.Base.{
  ℕ, ◌+◌, ◌/◌, ◌%◌, ◌≡◌, refl, sym, ap, Bool, true, not, Option, none, some, ◌==◌, if◌then◌else◌,
}
use mathlib.Core.Option.{some-injective, some-ne-none}
use lingx.Conf.Directives.{conf_ok, SetResult}
use lingx.Os.{IoTable}
use lingx.Poll.{Poll, poll_init}
use mathlib.Core.Option as Opt

-- `Event_actions`: those of no module yet, or those of this one.
pub data Actions : Type 0 where
  no_actions poll_actions : Actions

pub record EventGlobals : Type 0 where
  pub io : IoTable
  pub actions : Actions
  pub flags : ℕ

abbrev pub use_level_event : ℕ
use_level_event = 0x00000001

abbrev pub use_fd_event : ℕ
use_fd_event = 0x00000400

-- `Event_flags & flag`, of a flag of one bit.
unfoldable pub has_flag : ℕ → ℕ → Bool
has_flag flags flag = (flags / flag) % 2 == 1

-- The whole of `Poll_init_`; `os_io` is `Os_io`. The assertion is none.
unfoldable pub poll_init_module :
    IoTable → ℕ → Option ℕ → ℕ → Poll → EventGlobals → Option (Poll × EventGlobals)
poll_init_module os_io process_type old connection_n s g =
    Opt.map
      (λ (t : Poll).
        (t, record { io = os_io; actions = poll_actions; flags = use_level_event + use_fd_event }))
      (poll_init process_type old connection_n s)

-- Both branches return CONF_OK.
unfoldable pub event_poll_init_conf : ℕ → ℕ → SetResult
event_poll_init_conf use_ ctx_index = if not (use_ == ctx_index) then conf_ok else conf_ok

-- A `Poll_init_` that returns leaves the actions of this module, the flags that make the event core
-- ask for the limit of open files, and a table with room for every connection if one is made.
pub poll_init_module-installs :
    (os_io : IoTable) (process_type : ℕ) (old : Option ℕ) (connection_n : ℕ) (s t : Poll)
    (g h : EventGlobals)
    → poll_init_module os_io process_type old connection_n s g ≡ some (t, h)
    → (h.actions ≡ poll_actions)
      × (has_flag h.flags use_fd_event ≡ true)
      × (poll_init process_type old connection_n s ≡ some t)
unfolding poll_init_module has_flag
poll_init_module-installs os_io process_type old connection_n s t g h e =
    installs (poll_init process_type old connection_n s) e
  where
    made : Poll → Poll × EventGlobals
    made u =
        (u, record { io = os_io; actions = poll_actions; flags = use_level_event + use_fd_event })

    installs :
        (o : Option Poll)
        → Opt.map made o ≡ some (t, h)
        → (h.actions ≡ poll_actions) × (has_flag h.flags use_fd_event ≡ true) × (o ≡ some t)
    installs none e = absurd (some-ne-none (t, h) (sym e))
    installs (some u) e =
        let same = some-injective (made u) (t, h) e in
        (
          sym (ap (λ p. (p.1).actions) same),
          rw (sym (ap (λ p. (p.1).flags) same)) refl,
          ap (λ p. some (p.0)) same,
        )
