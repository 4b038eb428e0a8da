-- ===== src/Strings.antt =====
-- src/lingx/core/strings.cc. A byte is a number, a C string the list of its bytes before the
-- terminator, a buffer the list of its bytes, and a pointer into it an offset.
pub mod Number
pub mod Writes
pub mod Filled
use lingx.Base.{
  ℕ, zero, suc, ◌+◌, ◌-◌, ◌*◌, ◌/◌, ◌%◌, ◌&&◌, ◌||◌, Option, none, some, List, [], ◌∷◌, ltb, leb,
  ◌==◌, if◌then◌else◌, length, set, take, ℤ, pos, minus_one,
}

abbrev pub int_max : ℕ
int_max = 2147483647

-- One round of the loop of `Atoi`, and the rounds after it.
unfoldable pub atoi_loop : ℕ → List ℕ → ℤ
atoi_loop val [] = pos val
atoi_loop val (c ∷ cs) =
    if ltb c b'0' || ltb b'9' c
    then minus_one
    else if leb (int_max / 10) val && (ltb (int_max / 10) val || ltb (int_max % 10) (c - b'0'))
    then minus_one
    else atoi_loop (val * 10 + (c - b'0')) cs

-- `n` bytes are read from `str`, which has at least so many.
unfoldable pub atoi : List ℕ → ℕ → ℤ
unfolding atoi_loop
atoi str n = if n == 0 then minus_one else atoi_loop 0 (take n str)

-- The loop of `Strncpy`, with the count already decremented: at most so many bytes, then the
-- terminator. The end of `src` reads as its terminator.
unfoldable pub strncpy_loop : List ℕ → ℕ → List ℕ → ℕ → List ℕ × ℕ
strncpy_loop mem dst src zero = (set mem dst 0, dst)
strncpy_loop mem dst [] (suc n) = (set mem dst 0, dst)
strncpy_loop mem dst (c ∷ src) (suc n) =
    if c == 0 then (set mem dst c, dst) else strncpy_loop (set mem dst c) (dst + 1) src n

-- The memory after the call, and the pointer that it returns.
unfoldable pub strncpy : List ℕ → ℕ → List ℕ → ℕ → List ℕ × ℕ
unfolding strncpy_loop
strncpy mem dst src zero = (mem, dst)
strncpy mem dst src (suc n) = strncpy_loop mem dst src n

-- `memcpy`: the bytes `src` from `dst` on.
unfoldable pub memcpy : List ℕ → ℕ → List ℕ → List ℕ × ℕ
memcpy mem dst [] = (mem, dst)
memcpy mem dst (c ∷ src) = memcpy (set mem dst c) (dst + 1) src

-- `vsnprintf` writes as much of the formatted text as fits before a terminator, and returns the
-- length of the whole text. `none` stands for an output error, after which nothing is used.
unfoldable pub vslprintf : List ℕ → ℕ → ℕ → Option (List ℕ) → List ℕ × ℕ
unfolding memcpy
vslprintf mem buf last none = (mem, buf)
vslprintf mem buf last (some text) =
    let size = last - buf in
    let fits = take (size - 1) text in
    let len = if leb size (length text) then size - 1 else length text in
    if ltb buf last
    then (set (memcpy mem buf fits).0 (buf + length fits) 0, buf + len)
    else (mem, buf)
