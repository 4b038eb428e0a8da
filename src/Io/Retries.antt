-- ===== src/Io/Retries.antt =====
-- What `Unix_recv` and `Unix_send` leave in the event, however often they are interrupted.
use lingx.Base.{
  ℕ, ◌+◌, ◌≤◌, ◌<◌, ◌≡◌, refl, inl, inr, Bool, true, false, not, ◌&&◌, ◌||◌, Option, none, some,
  List, [], ◌∷◌, arith, ltb, ◌==◌, if◌then◌else◌, Bool-cases, if_cases,
}
use lingx.Io.{
  Outcome, moved, failed, eintr, eagain, LogErrorMode, Rc, size, again, io_error,
  connection_log_error, EventState, Flags, Done, received, is_io_error, gave_up, recv_loop,
  unix_recv, Sent, unix_send,
}
use lingx.Io.Open.{calls}
use mathlib.Core.Option as Opt

-- The calls up to the first that is not an interrupt.
unfoldable pub first_answer : List Outcome → Option Outcome
first_answer [] = none
first_answer (moved n ∷ calls) = some (moved n)
first_answer (failed err ∷ calls) = if err == eintr then first_answer calls else some (failed err)

-- What one answer other than an interrupt makes of the event.
unfoldable pub settle : Flags → LogErrorMode → ℕ → Outcome → EventState → Done
unfolding received gave_up connection_log_error
settle fl mode len (moved n) ev = received fl len n ev
settle fl mode len (failed err) ev =
    if err == eagain then gave_up again ev else gave_up (connection_log_error mode err).0 ev

recv_loop-settle :
    (fl : Flags) (mode : LogErrorMode) (len : ℕ) (calls : List Outcome) (ev : EventState)
    → recv_loop fl mode len calls ev ≡ Opt.map (λ o. settle fl mode len o ev) (first_answer calls)
unfolding recv_loop first_answer settle
recv_loop-settle fl mode len [] ev = refl
recv_loop-settle fl mode len (moved n ∷ calls) ev = refl
recv_loop-settle fl mode len (failed err ∷ calls) ev =
    let rest = recv_loop-settle fl mode len calls ev in ground arith

unfoldable pub is_data : Rc → Bool
is_data (size n) = ltb 0 n
is_data _ = false

unfoldable pub is_error : Rc → Bool
is_error io_error = true
is_error _ = false

unfoldable pub is_end : Outcome → Bool
is_end (moved n) = n == 0
is_end (failed err) = false

-- The result that an answer of recv() has: its size, AGAIN, or that of `Connection_log_error`.
unfoldable pub result_of : LogErrorMode → Outcome → Rc
result_of mode (moved n) = size n
result_of mode (failed err) = if err == eagain then again else (connection_log_error mode err).0

-- A receipt that fills the buffer of `len` bytes.
abbrev pub FillsBuffer : ℕ → Outcome → Type 0
FillsBuffer len (moved n) = (0 < n) × (len ≤ n)
FillsBuffer len (failed err) = ⊥

-- The flags of the event after the answer `o` are what its result says.
abbrev pub Agrees : LogErrorMode → ℕ → Outcome → EventState → Done → Type 0
Agrees mode len o ev d =
    (d.rc ≡ result_of mode o)
    × (d.event.eof ≡ is_end o || ev.eof)
    × (d.event.error_ ≡ is_error d.rc || ev.error_)
    × (d.event.ready ≡ true → (is_data d.rc ≡ true) × (ev.ready ≡ true))
    × (FillsBuffer len o → d.event.ready ≡ ev.ready)

received-Agrees :
    (fl : Flags) (mode : LogErrorMode) (len n : ℕ) (ev : EventState)
    → Agrees mode len (moved n) ev (received fl len n ev)
unfolding received is_data is_error is_end result_of
received-Agrees fl mode len n ev =
    (ground arith, ground arith, ground arith, λ h. ground arith, λ h. ground arith)

gave_up-Agrees :
    (mode : LogErrorMode) (len err : ℕ) (rc : Rc) (ev : EventState)
    → rc ≡ result_of mode (failed err)
    → Agrees mode len (failed err) ev (gave_up rc ev)
unfolding gave_up is_io_error is_error is_end
gave_up-Agrees mode len err (size n) ev e = (e, refl, refl, λ h. ground arith, λ h. absurd h)
gave_up-Agrees mode len err again ev e = (e, refl, refl, λ h. ground arith, λ h. absurd h)
gave_up-Agrees mode len err io_error ev e = (e, refl, refl, λ h. ground arith, λ h. absurd h)

settle-Agrees :
    (fl : Flags) (mode : LogErrorMode) (len : ℕ) (o : Outcome) (ev : EventState)
    → Agrees mode len o ev (settle fl mode len o ev)
unfolding settle result_of
settle-Agrees fl mode len (moved n) ev = received-Agrees fl mode len n ev
settle-Agrees fl mode len (failed err) ev =
    if_cases (Agrees mode len (failed err) ev) (err == eagain)
      (λ e. gave_up-Agrees mode len err again ev (ground (arith, e)))
      (λ e. gave_up-Agrees mode len err (connection_log_error mode err).0 ev (ground (arith, e)))

-- What `Unix_recv` does without a call of recv(), where epoll has reported nothing.
abbrev pub IsIdle : EventState → Done → Type 0
IsIdle ev d = (d.rc ≡ again) × (d.event ≡ record ev { ready = false })

-- If some call is not interrupted, `Unix_recv` returns. Where epoll has reported nothing it returns
-- AGAIN and clears `ready`, and does nothing else. Otherwise the first call that is not interrupted
-- decides: the result is its size, AGAIN, or what `Connection_log_error` makes of its errno; `eof`
-- is set if and only if it received 0, `error` if and only if the result is ERROR, and else both are
-- as they were; `ready` is left only where it was set and data were received, and is kept where they
-- fill the buffer.
pub unix_recv-Agrees :
    (fl : Flags) (mode : LogErrorMode) (len : ℕ) (calls : List Outcome) (ev : EventState)
    (o : Outcome)
    → first_answer calls ≡ some o
    → (d : Done) × (unix_recv fl mode len calls ev ≡ some d)
      × (if fl.use_epoll && not ev.available && not ev.pending_eof
          then IsIdle ev d
          else Agrees mode len o ev d)
unfolding unix_recv
unix_recv-Agrees fl mode len calls ev o h =
    let gone : Done = record { rc = again; event = record ev { ready = false } } in
    elim (Bool-cases (fl.use_epoll && not ev.available && not ev.pending_eof)) [
      | inl e ↦ rw e (gone, refl, (refl, refl))
      | inr e ↦
          rw (e, recv_loop-settle fl mode len calls ev, h)
            (settle fl mode len o ev, refl, settle-Agrees fl mode len o ev)
    ]

unfoldable pub data_size : Rc → ℕ
data_size (size n) = n
data_size _ = 0

-- If some call is not interrupted, `Unix_send` returns; the connection's count of bytes sent has
-- grown by what the result says was sent, and the event is ready only if something was sent.
pub unix_send-total :
    (mode : LogErrorMode) (len : ℕ) (calls : List Outcome) (ev : EventState) (total : ℕ)
    (o : Outcome)
    → first_answer calls ≡ some o
    → (s : Sent) × (unix_send mode len calls ev total ≡ some s)
      × (s.total ≡ total + data_size s.rc)
      × (s.event.ready ≡ true → s.event.error_ ≡ false → is_data s.rc ≡ true)
unfolding unix_send first_answer data_size is_data
unix_send-total mode len [] ev total o h = absurd (cc)
unix_send-total mode len (moved n ∷ calls) ev total o h = elim (Bool-cases (ltb 0 n)) [
  | inl e ↦ rw e (_, refl, refl, λ r c. e)
  | inr e ↦ rw e (_, refl, omega arith, λ r c. ground arith)
]
unix_send-total mode len (failed err ∷ calls) ev total o h = elim (Bool-cases (err == eagain)) [
  | inl e ↦ rw e (_, refl, omega arith, λ r c. absurd (cc))
  | inr e ↦ elim (Bool-cases (err == eintr)) [
    | inl i ↦
        rw (e, i) (unix_send-total mode len calls (record ev { ready = false }) total o (rw i at h))
    | inr i ↦ rw (e, i) (_, refl, omega arith, λ r c. absurd (cc))
  ]
]
