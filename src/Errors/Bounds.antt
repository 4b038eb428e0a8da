-- ===== src/Errors/Bounds.antt =====
-- What `Strerrno` leaves in the buffer, and where it stops.
use lingx.Base.{
  ℕ, ◌+◌, ◌-◌, ◌≤◌, ◌<◌, ◌≡◌, refl, ◌∙◌, inl, inr, some, List, arith, ltb, lt→ltb, Bool-cases,
  length, get_or, get_or-set_ne,
}
use lingx.Errors.{max_error_str, dots, make_room, close_paren, strerrno, error_init}
use lingx.Strings.{strncpy, vslprintf}
use lingx.Strings.Writes.{strncpy-WritesFrom, memcpy-WritesFrom, vslprintf-WritesFrom}

make_room_bounds :
    (mem : List ℕ) (buf last : ℕ)
    → 50 ≤ last
    → ((make_room mem buf last).1 < last)
      × ((i : ℕ)
          → (make_room mem buf last).1 ≤ i
          → get_or (make_room mem buf last).0 i 0 ≡ get_or mem i 0)
unfolding make_room
make_room_bounds mem buf last h = elim (Bool-cases (ltb last (buf + 50))) [
  | inl near ↦
      let w = memcpy-WritesFrom mem (last - 50) dots in
      rw near (omega (arith, w.0), λ i k. w.2 i (omega (arith, w.0)))
  | inr far ↦ rw far (ground arith, λ i k. refl)
]

make_room_far : (mem : List ℕ) (buf last : ℕ) → buf + 50 ≤ last → (make_room mem buf last).1 ≡ buf
unfolding make_room
make_room_far mem buf last h = ground arith

close_paren_bounds :
    (last : ℕ) (r : List ℕ × ℕ)
    → r.1 < last
    → ((close_paren last r).1 ≤ last)
      × ((i : ℕ)
          → (close_paren last r).1 ≤ i
          → (get_or (close_paren last r).0 i 0 ≡ get_or r.0 i 0) × (r.1 < i))
unfolding close_paren
close_paren_bounds last (mem, buf) h =
    rw (lt→ltb buf last h)
      (omega arith, λ i k. (get_or-set_ne mem b')' 0 (λ e. absurd (omega arith)), omega arith))

strerrno_writes :
    (mem : List ℕ) (buf last : ℕ) (prefix msg : List ℕ)
    → 50 ≤ last
    → ((strerrno mem buf last prefix msg).1 ≤ last)
      × ((i : ℕ)
          → (strerrno mem buf last prefix msg).1 ≤ i
          → (get_or (strerrno mem buf last prefix msg).0 i 0 ≡ get_or mem i 0)
            × (buf + 50 ≤ last → buf < i))
unfolding strerrno
strerrno_writes mem buf last prefix msg h =
    let a = make_room mem buf last in
    let b = vslprintf a.0 a.1 last (some prefix) in
    let ha = make_room_bounds mem buf last h in
    let hb = vslprintf-WritesFrom a.0 a.1 last (some prefix) ha.0 in
    let lt : b.1 < last = hb.1 in
    let hc = strncpy-WritesFrom b.0 b.1 msg (last - b.1) (omega arith) in
    let hd = close_paren_bounds last (strncpy b.0 b.1 msg (last - b.1)) (omega (arith, hc.1)) in
    (
      hd.0,
      λ i k.
          let hd' = hd.1 i k in
          let up : b.1 < i = omega (arith, hc.0.forward, hd'.1) in
          (
            hd'.0 ∙ hc.0.above i hd'.1 ∙ hb.0.above i up ∙ ha.1 i (omega (arith, hb.0.forward)),
            λ room. omega (arith, make_room_far mem buf last room, hb.0.forward),
          ),
    )

-- In a buffer with room for 50 bytes before `last`, `Strerrno` returns a pointer that is at most
-- `last`, and every byte at the pointer or behind it is as it was: the call stays inside the buffer,
-- and it leaves no terminator behind the closing parenthesis.
pub strerrno_bounds :
    (mem : List ℕ) (buf last : ℕ) (prefix msg : List ℕ) (i : ℕ)
    → 50 ≤ last
    → (strerrno mem buf last prefix msg).1 ≤ i
    → ((strerrno mem buf last prefix msg).1 ≤ last)
      × (get_or (strerrno mem buf last prefix msg).0 i 0 ≡ get_or mem i 0)
strerrno_bounds mem buf last prefix msg i h k =
    let w = strerrno_writes mem buf last prefix msg h in (w.0, (w.1 i k).0)

vslprintf_end :
    (errstr text : List ℕ)
    → length text + 50 ≤ max_error_str
    → (vslprintf errstr 0 max_error_str (some text)).1 ≡ length text
unfolding vslprintf
vslprintf_end errstr text h = ground arith

-- If 50 bytes are left behind the message, then an `Error` with an error number does not end its
-- text: every byte of the buffer at the end of the text or behind it is as it was before.
pub error_init_unended :
    (errstr text prefix msg : List ℕ) (i : ℕ)
    → length text + 50 ≤ max_error_str
    → (error_init errstr (some text) (some (prefix, msg))).1 ≤ i
    → get_or (error_init errstr (some text) (some (prefix, msg))).0 i 0 ≡ get_or errstr i 0
unfolding error_init
error_init_unended errstr text prefix msg i h k =
    let a = vslprintf errstr 0 max_error_str (some text) in
    let ha = vslprintf-WritesFrom errstr 0 max_error_str (some text) (omega arith) in
    let w = strerrno_writes a.0 a.1 max_error_str prefix msg (omega arith) in
    let len : a.1 ≡ length text = vslprintf_end errstr text h in
    let r = w.1 i k in r.0 ∙ ha.0.above i (r.1 (omega (arith, len)))
