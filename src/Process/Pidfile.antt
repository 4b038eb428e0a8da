-- ===== src/Process/Pidfile.antt =====
-- The pid file: `Create_pidfile` and `Signal_process` of src/lingx/core/cycle.cc. What open() and the
-- calls of pwrite() and pread() return is an argument.
pub mod Roundtrip
use lingx.Base.{
  ℕ, zero, suc, ◌+◌, ◌/◌, ◌%◌, Bool, true, false, not, ◌||◌, Option, none, some, List, [], ◌∷◌,
  ◌++◌, ltb, leb, ◌==◌, if◌then◌else◌, ◌>>=◌, length, get_or, take, drop, replicate, ℤ, pos, negsuc,
}
use lingx.Conf.Directives.{text}
use lingx.Io.{Outcome, Chunk, file_write}
use lingx.Process.{process_master, signals, Killed, os_signal_process}
use lingx.Strings.{atoi}

abbrev pub max_int_len : ℕ
max_int_len = 11

-- The digits of a number before those of `acc`, with fuel for one digit more than it has.
unfoldable pub digits : ℕ → ℕ → List ℕ → List ℕ
digits zero n acc = acc
digits (suc fuel) n acc =
    let rest = digits fuel (n / 10) ((b'0' + n % 10) ∷ acc) in
    if ltb n 10 then (b'0' + n) ∷ acc else rest

-- "%d\n" of a process number, which is not negative.
unfoldable pub print_pid : ℕ → List ℕ
unfolding digits
print_pid pid = digits max_int_len pid [] ++ b'\n' ∷ []

-- What a pwrite() makes of the file: a gap before it is filled with zeros.
unfoldable pub put_chunk : List ℕ → Chunk → List ℕ
put_chunk content c =
    take c.at_ (content ++ replicate c.at_ 0) ++ c.bytes ++ drop (c.at_ + length c.bytes) content

unfoldable pub put_chunks : List ℕ → List Chunk → List ℕ
unfolding put_chunk
put_chunks content [] = content
put_chunks content (c ∷ cs) = put_chunks (put_chunk content c) cs

-- OK or ERROR, and the content of the file, none if there is no file.
pub record Created : Type 0 where
  pub is_ok : Bool
  pub content : Option (List ℕ)

pub record Settings : Type 0 where
  pub process_type : ℕ
  pub test_config : Bool
  pub pid : ℕ

-- The content behind an open() with O_CREAT, and O_TRUNC or not.
unfoldable pub opened_content : Bool → Option (List ℕ) → List ℕ
opened_content truncate none = []
opened_content truncate (some old) = if truncate then [] else old

unfoldable pub write_pid : List Outcome → ℕ → List ℕ → Option Created
unfolding print_pid file_write put_chunks
write_pid calls pid content =
    let text = print_pid pid in
    if leb (max_int_len + 2) (length text)
    then some (record { is_ok = false; content = some content })
    else do
      w ← file_write calls text 0 0 0
      some (record {
        is_ok = elim w.rc [ some n ↦ true | none ↦ false ];
        content = some (put_chunks content w.chunks);
      })

-- None is a pwrite() that has not returned.
unfoldable pub create_pidfile : Settings → Bool → List Outcome → Option (List ℕ) → Option Created
unfolding write_pid opened_content
create_pidfile s open_ok calls old =
    let content = opened_content (not s.test_config) old in
    if ltb process_master s.process_type
    then some (record { is_ok = true; content = old })
    else if not open_ok
    then some (record { is_ok = false; content = old })
    else if s.test_config
    then some (record { is_ok = true; content = some content })
    else write_pid calls s.pid content

-- `while (n > 0 && (buf[n-1] == '\r' || buf[n-1] == '\n')) --n;`
unfoldable pub strip_end : List ℕ → ℕ → ℕ
strip_end buf zero = zero
strip_end buf (suc n) =
    let c = get_or buf n 0 in
    let rest = strip_end buf n in if c == b'\r' || c == b'\n' then rest else suc n

abbrev pub not_negative : ℤ → Option ℕ
not_negative (pos n) = some n
not_negative (negsuc n) = none

-- The number of the file, none for -1.
unfoldable pub read_pid : List ℕ → Option ℕ
unfolding strip_end
read_pid buf = not_negative (atoi buf (strip_end buf (length buf)))

abbrev pub no_kill : Killed
no_kill = record { rc = 1; kills = [] }

-- Behind the test of the number.
abbrev pub kill_pid : (ℕ → ℕ → Bool) → List ℕ → Option ℕ → Killed
kill_pid kill sig (some pid) = os_signal_process kill sig pid signals
kill_pid kill sig none = no_kill

-- `got` is what the pread() of the pid file puts into the buffer of 13 bytes, none if the file cannot
-- be opened or read.
unfoldable pub signal_process : (ℕ → ℕ → Bool) → List ℕ → Option (List ℕ) → Killed
unfolding read_pid os_signal_process
signal_process kill sig none = no_kill
signal_process kill sig (some got) =
    if length got == 0 then no_kill else kill_pid kill sig (read_pid got)
