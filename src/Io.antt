-- ===== src/Io.antt =====
-- src/lingx/core/recv.cc, send.cc, connection.cc and file.cc: the loops around the system calls, which
-- retry after EINTR. What the successive calls of the system return is an argument, a list: a loop
-- that has used it up is still in the system call, and has no result.
use lingx.Base.{
  ℕ, ◌+◌, Bool, true, false, not, ◌&&◌, ◌||◌, Option, none, some, List, [], ◌∷◌, ltb, ◌==◌,
  if◌then◌else◌, length, take, drop,
}
use mathlib.Core.Option as Opt
pub mod Writes
pub mod Open
pub mod Retries

-- What one call of recv(), send() or pwrite() returns: a size, or the errno of a failure.
pub data Outcome : Type 0 where
  moved : ℕ → Outcome
  failed : ℕ → Outcome

abbrev pub eintr : ℕ
eintr = 4

abbrev pub eagain : ℕ
eagain = 11

abbrev pub econnreset : ℕ
econnreset = 104

pub data LogErrorMode : Type 0 where
  error_alert error_err error_info error_ignore_econnreset error_ignore_einval : LogErrorMode

pub data Level : Type 0 where
  at_alert at_error at_info : Level

-- `ERROR`, `AGAIN` or a size.
pub data Rc : Type 0 where
  size : ℕ → Rc
  again : Rc
  io_error : Rc

unfoldable pub ignores_reset : LogErrorMode → Bool
ignores_reset error_ignore_econnreset = true
ignores_reset _ = false

-- ECONNRESET, EPIPE, ENOTCONN, ETIMEDOUT, ECONNREFUSED, ENETDOWN, ENETUNREACH, EHOSTDOWN,
-- EHOSTUNREACH, of Linux.
unfoldable pub is_peer_error : ℕ → Bool
is_peer_error err =
    err == 0
    || err == econnreset
    || err == 32
    || err == 107
    || err == 110
    || err == 111
    || err == 100
    || err == 101
    || err == 112
    || err == 113

unfoldable pub peer_level : LogErrorMode → Level
peer_level error_ignore_einval = at_info
peer_level error_ignore_econnreset = at_info
peer_level error_info = at_info
peer_level _ = at_error

-- The code returned, and the level of the message, if one is logged.
unfoldable pub connection_log_error : LogErrorMode → ℕ → Rc × Option Level
unfolding ignores_reset is_peer_error peer_level
connection_log_error mode err =
    if err == econnreset && ignores_reset mode
    then (size 0, none)
    else (io_error, some (if is_peer_error err then peer_level mode else at_alert))

pub record EventState : Type 0 where
  pub ready : Bool
  pub eof : Bool
  pub error_ : Bool
  pub available : Bool
  pub pending_eof : Bool

-- `Event_flags` and `Use_epoll_rdhup`.
pub record Flags : Type 0 where
  pub use_epoll : Bool
  pub use_greedy : Bool
  pub use_epoll_rdhup : Bool

-- A result and what the call left in the event.
pub record Done : Type 0 where
  pub rc : Rc
  pub event : EventState

unfoldable pub received : Flags → ℕ → ℕ → EventState → Done
received fl len n ev =
    if n == 0
    then record { rc = size 0; event = record ev { ready = false; eof = true } }
    else if fl.use_epoll && fl.use_epoll_rdhup
    then (if ltb n len
        then record {
          rc = size n;
          event = record ev { ready = ev.pending_eof && ev.ready; available = false };
        }
        else record { rc = size n; event = ev })
    else if ltb n len && not fl.use_greedy
    then record { rc = size n; event = record ev { ready = false } }
    else record { rc = size n; event = ev }

unfoldable pub is_io_error : Rc → Bool
is_io_error io_error = true
is_io_error _ = false

-- After the loop of `Unix_recv`.
unfoldable pub gave_up : Rc → EventState → Done
unfolding is_io_error
gave_up n ev = record {
  rc = n;
  event = record ev { ready = false; error_ = is_io_error n || ev.error_ };
}

unfoldable pub recv_loop : Flags → LogErrorMode → ℕ → List Outcome → EventState → Option Done
unfolding received gave_up connection_log_error
recv_loop fl mode len [] ev = none
recv_loop fl mode len (moved n ∷ calls) ev = some (received fl len n ev)
recv_loop fl mode len (failed err ∷ calls) ev =
    if err == eintr
    then recv_loop fl mode len calls ev
    else if err == eagain
    then some (gave_up again ev)
    else some (gave_up (connection_log_error mode err).0 ev)

unfoldable pub unix_recv : Flags → LogErrorMode → ℕ → List Outcome → EventState → Option Done
unfolding recv_loop
unix_recv fl mode len calls ev =
    if fl.use_epoll && not ev.available && not ev.pending_eof
    then some (record { rc = again; event = record ev { ready = false } })
    else recv_loop fl mode len calls ev

-- A result of `Unix_send`, with the total that the connection has sent.
pub record Sent : Type 0 where
  pub rc : Rc
  pub event : EventState
  pub total : ℕ

unfoldable pub unix_send : LogErrorMode → ℕ → List Outcome → EventState → ℕ → Option Sent
unix_send mode len [] ev total = none
unix_send mode len (moved n ∷ calls) ev total = some (
    if ltb 0 n
    then record {
      rc = size n;
      event = record ev { ready = not (ltb n len) && ev.ready };
      total = total + n;
    }
    else record { rc = size 0; event = record ev { ready = false }; total = total })
unix_send mode len (failed err ∷ calls) ev total =
    if err == eagain
    then some (record { rc = again; event = record ev { ready = false }; total = total })
    else if err == eintr
    then unix_send mode len calls (record ev { ready = false }) total
    else some (record { rc = io_error; event = record ev { error_ = true }; total = total })

-- A `pwrite()` of the bytes at this offset of the file.
pub record Chunk : Type 0 where
  pub at_ : ℕ
  pub bytes : List ℕ

pub record FileWritten : Type 0 where
  pub rc : Option ℕ
  pub offset : ℕ
  pub chunks : List Chunk

abbrev pub with_chunk : Chunk → FileWritten → FileWritten
with_chunk c w = record w { chunks = c ∷ w.chunks }

-- What a pwrite() of the buffer takes of it: no more than it is given.
unfoldable pub accepted : ℕ → List ℕ → ℕ
accepted k buf = if ltb k (length buf) then k else length buf

-- `File::write`: `offset` is the file's `offset_`, and `off` where the rest of the buffer goes.
unfoldable pub file_write : List Outcome → List ℕ → ℕ → ℕ → ℕ → Option FileWritten
unfolding accepted
file_write [] buf off offset written = none
file_write (failed err ∷ calls) buf off offset written =
    if err == eintr
    then file_write calls buf off offset written
    else some (record { rc = none; offset = offset; chunks = [] })
file_write (moved k ∷ calls) buf off offset written =
    let n = accepted k buf in
    let chunk : Chunk = record { at_ = off; bytes = take n buf } in
    let rest = file_write calls (drop n buf) (off + n) (offset + n) (written + n) in
    if n == length buf
    then some (record { rc = some (written + n); offset = offset + n; chunks = chunk ∷ [] })
    else Opt.map (with_chunk chunk) rest

-- `File::read`: one pread().
unfoldable pub file_read : Outcome → ℕ → Option ℕ × ℕ
file_read (moved n) offset = (some n, offset + n)
file_read (failed err) offset = (none, offset)
