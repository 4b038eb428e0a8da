-- ===== src/Errors.antt =====
-- src/lingx/core/error.cc. The text that `std::error_category` gives for an error number and the
-- number in decimal are arguments; the buffer is that of `Strings`.
pub mod Bounds
use lingx.Base.{ℕ, ◌+◌, ◌-◌, Option, none, some, List, [], ◌∷◌, ltb, if◌then◌else◌, set}
use lingx.Strings.{strncpy, memcpy, vslprintf}

abbrev pub max_error_str : ℕ
max_error_str = 1024

abbrev pub dots : List ℕ
dots = b'.' ∷ b'.' ∷ b'.' ∷ []

-- Near the end of the buffer the message gives way to dots and the error.
unfoldable pub make_room : List ℕ → ℕ → ℕ → List ℕ × ℕ
unfolding memcpy
make_room mem buf last = if ltb last (buf + 50) then memcpy mem (last - 50) dots else (mem, buf)

unfoldable pub close_paren : ℕ → List ℕ × ℕ → List ℕ × ℕ
close_paren last (mem, buf) = if ltb buf last then (set mem buf b')', buf + 1) else (mem, buf)

unfoldable pub strerror : List ℕ → ℕ → List ℕ → ℕ → List ℕ × ℕ
unfolding strncpy
strerror mem estr msg size = strncpy mem estr msg size

-- `prefix` is `" (%d: "` at the error number, `msg` the text of the error.
unfoldable pub strerrno : List ℕ → ℕ → ℕ → List ℕ → List ℕ → List ℕ × ℕ
unfolding make_room vslprintf strerror close_paren
strerrno mem buf last prefix msg =
    let (mem1, p1) = make_room mem buf last in
    let (mem2, p2) = vslprintf mem1 p1 last (some prefix) in
    close_paren last (strerror mem2 p2 msg (last - p2))

-- `Error::Error`: `errstr` is the buffer as it was before, `text` the formatted message, and `err`, if
-- the error number is not 0, its `prefix` and `msg`.
unfoldable pub error_init : List ℕ → Option (List ℕ) → Option (List ℕ × List ℕ) → List ℕ × ℕ
unfolding vslprintf strerrno
error_init errstr text none = vslprintf errstr 0 max_error_str text
error_init errstr text (some (prefix, msg)) =
    let (mem, p) = vslprintf errstr 0 max_error_str text in strerrno mem p max_error_str prefix msg
