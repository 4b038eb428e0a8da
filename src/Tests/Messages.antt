-- ===== src/Tests/Messages.antt =====
-- The bytes of a log message.
use lingx.Base.{
  ℕ, ◌≤◌, ◌≡◌, refl, true, false, Option, none, some, List, [], ◌∷◌, ◌++◌, arith, length, drop,
  replicate, length-replicate,
}
use lingx.Errors.{max_error_str, make_room, close_paren, strerror, strerrno}
use lingx.Log.{Log, write_loop}
use lingx.Log.Levels.{bytes}
use lingx.Log.Message.{
  level_name, stderr_text, message_head, add_error, end_line, message_tail, stderr_line,
  log_message, log_error, printf,
}
use lingx.Log.Message.Line.{head_text, line_text}
use lingx.Log.Message.Stderr.{writes_of, log_message-writes_of, printf-line_text}
use lingx.Strings.{strncpy_loop, strncpy, memcpy, vslprintf}
use mathlib.Core.Option as Opt

abbrev stack : List ℕ
stack = replicate max_error_str 7

abbrev time : List ℕ
time = bytes "2026/01/02 03:04:05"

abbrev file_log : Log
file_log = record { level = 4; file = some 5 }

abbrev not_found : Option (List ℕ × List ℕ)
not_found = some (bytes " (2: ", bytes "No such file")

log_message_run :
    log_message true 1
      (file_log ∷ [])
      stack
      time
      (bytes "42")
      (some (bytes "open failed"))
      not_found
    ≡ some (
        (5, bytes "2026/01/02 03:04:05 [emerg] 42#0: open failed (2: No such file)" ++ b'\n' ∷ [])
        ∷ (2, bytes "lingx: [emerg] open failed (2: No such file)" ++ b'\n' ∷ [])
        ∷ [])
unfolding log_message message_head message_tail stderr_line end_line add_error level_name memcpy
    vslprintf strerrno make_room close_paren strerror strncpy strncpy_loop write_loop
log_message_run = refl

log_error_run :
    log_error true 5 (file_log ∷ []) stack time (bytes "42") (some (bytes "no")) none ≡ some []
unfolding log_error
log_error_run = refl

log_message-writes_of_example :
    let head = head_text time 1 (bytes "42") in
    let line = line_text head (some (bytes "open failed")) not_found in
    (length line ≤ max_error_str)
    × (log_message true 1
          (file_log ∷ [])
          stack
          time
          (bytes "42")
          (some (bytes "open failed"))
          not_found
        ≡ Opt.map
            (writes_of true 1 line (stderr_text 1 ++ drop (length head) line))
            (write_loop 1 (file_log ∷ []) false))
log_message-writes_of_example =
    log_message-writes_of true 1 (file_log ∷ []) stack time (bytes "42")
      (some (bytes "open failed")) not_found (length-replicate {A = ℕ} max_error_str 7)
      (omega arith) refl (omega arith)
      (
        omega arith,
        (
          omega arith,
          (
            omega arith,
            (
              omega arith,
              (
                omega arith,
                (
                  omega arith,
                  (
                    omega arith,
                    (omega arith, (omega arith, (omega arith, (omega arith, (omega arith, tt))))),
                  ),
                ),
              ),
            ),
          ),
        ),
      )

printf_run : printf stack (some (bytes "bad option")) none ≡ bytes "lingx: bad option" ++ b'\n' ∷ []
printf_run =
    printf-line_text stack (some (bytes "bad option")) none
      (length-replicate {A = ℕ} max_error_str 7) tt
