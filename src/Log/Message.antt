-- ===== src/Log/Message.antt =====
-- `Log::log` and `Log::Printf` of src/lingx/core/log.cc: the bytes of a message, in a buffer on the
-- stack with any content at first. The cached time, the process number in decimal and what
-- vsnprintf makes of the format are arguments, as are the two texts of an error; `Strings` and
-- `Errors` have the functions that write into the buffer.
pub mod Text
pub mod Line
pub mod Stderr
use lingx.Base.{
  ℕ, ◌+◌, ◌-◌, Bool, false, not, ◌||◌, Option, none, some, List, [], ◌∷◌, ◌++◌, map, ltb, leb,
  if◌then◌else◌, length, get_or, set, take, drop,
}
use lingx.Conf.Lexer.{start}
use lingx.Errors.{max_error_str, strerrno}
use lingx.Log.{Log, Written, write_loop, warn}
use lingx.Log.Levels.{bytes, level_names}
use lingx.Strings.{memcpy, vslprintf}
use mathlib.Core.Option as Opt

-- `last`: the place of the line end at the latest.
abbrev pub message_last : ℕ
message_last = max_error_str - 1

unfoldable pub level_name : ℕ → List ℕ
level_name lvl = get_or ([] ∷ level_names) lvl []

-- `" [%s] "`, `"%d#%d: "` and `"lingx: [%s] "`.
abbrev pub level_text : ℕ → List ℕ
level_text lvl = bytes " [" ++ level_name lvl ++ bytes "] "

abbrev pub pid_text : List ℕ → List ℕ
pid_text pid = pid ++ bytes "#0: "

abbrev pub stderr_text : ℕ → List ℕ
stderr_text lvl = bytes "lingx: [" ++ level_name lvl ++ bytes "] "

-- What comes before the message proper, and `msg`.
unfoldable pub message_head : List ℕ → List ℕ → ℕ → List ℕ → List ℕ × ℕ
message_head mem time lvl pid =
    let (mem1, p1) = memcpy mem 0 time in
    let (mem2, p2) = vslprintf mem1 p1 message_last (some (level_text lvl)) in
    vslprintf mem2 p2 message_last (some (pid_text pid))

-- `if (err) p = Strerrno(p, last, err)`.
unfoldable pub add_error : List ℕ × ℕ → Option (List ℕ × List ℕ) → List ℕ × ℕ
add_error (mem, p) none = (mem, p)
add_error (mem, p) (some (prefix, msg)) = strerrno mem p message_last prefix msg

unfoldable pub end_line : List ℕ × ℕ → List ℕ × ℕ
end_line (mem, p) = (set mem p b'\n', p + 1)

-- From `msg` on: the formatted text, the error and the line end.
unfoldable pub message_tail : List ℕ × ℕ → Option (List ℕ) → Option (List ℕ × List ℕ) → List ℕ × ℕ
message_tail (mem, p) body err = end_line (add_error (vslprintf mem p message_last body) err)

-- The write to stderr: the prefix goes into the room before `msg`, with a space for the terminator
-- that snprintf writes. Of the buffer with the message up to `p`, the bytes that are written.
unfoldable pub stderr_line : ℕ → List ℕ → ℕ → ℕ → List ℕ
stderr_line lvl mem msg p =
    let len = 8 + length (level_name lvl) + 2 in
    let start = msg - len in
    let printed = (vslprintf mem start (start + len) (some (stderr_text lvl))).0 in
    take (p - start) (drop start (set printed (start + len - 1) b' '))

-- The descriptors and bytes that are written, in order; none if a log has no file.
unfoldable pub log_message :
    Bool
    → ℕ
    → List Log
    → List ℕ
    → List ℕ
    → List ℕ
    → Option (List ℕ)
    → Option (List ℕ × List ℕ)
    → Option (List (ℕ × List ℕ))
log_message use_stderr lvl logs mem time pid body err =
    let head = message_head mem time lvl pid in
    let (mem1, p) = message_tail head body err in
    let line = take p mem1 in
    Opt.map
      (λ (w : Written).
        let lines = map (λ fd. (fd, line)) w.fds in
        if not use_stderr || ltb warn lvl || w.stderr
        then lines
        else lines ++ (2, stderr_line lvl mem1 head.1 p) ∷ [])
      (write_loop lvl logs false)

-- The macro `Log_error`: a null pointer or a level that is too low writes nothing.
unfoldable pub log_error :
    Bool
    → ℕ
    → List Log
    → List ℕ
    → List ℕ
    → List ℕ
    → Option (List ℕ)
    → Option (List ℕ × List ℕ)
    → Option (List (ℕ × List ℕ))
log_error use_stderr lvl [] mem time pid body err = some []
log_error use_stderr lvl (log ∷ logs) mem time pid body err =
    if leb lvl log.level
    then log_message use_stderr lvl (log ∷ logs) mem time pid body err
    else some []

-- `Log::Printf`: the bytes that go to stderr.
unfoldable pub printf : List ℕ → Option (List ℕ) → Option (List ℕ × List ℕ) → List ℕ
printf mem body err =
    let (mem1, p) = message_tail (memcpy mem 0 (bytes "lingx: ")) body err in take p mem1
