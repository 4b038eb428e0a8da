-- ===== src/Strings/Number.antt =====
-- What `Atoi` computes: the decimal number that the bytes spell, if it is an `int`.
use lingx.Base.{
  ℕ, ◌+◌, ◌-◌, ◌*◌, ◌≤◌, ◌≡◌, Bool, true, ◌&&◌, List, [], ◌∷◌, arith, ltb, leb, if◌then◌else◌, take,
  pos, minus_one,
}
use lingx.Strings.{int_max, atoi_loop, atoi}

unfoldable pub all_digits : List ℕ → Bool
all_digits [] = true
all_digits (c ∷ cs) = leb b'0' c && leb c b'9' && all_digits cs

-- The number spelled by digits behind the digits of `acc`.
unfoldable pub decimal : ℕ → List ℕ → ℕ
decimal acc [] = acc
decimal acc (c ∷ cs) = decimal (acc * 10 + (c - b'0')) cs

decimal_grows : (acc : ℕ) (cs : List ℕ) → acc ≤ decimal acc cs
unfolding decimal
decimal_grows acc [] = omega arith
decimal_grows acc (c ∷ cs) = omega (arith, decimal_grows (acc * 10 + (c - b'0')) cs)

atoi_loop-decimal :
    (val : ℕ) (cs : List ℕ)
    → val ≤ int_max
    → atoi_loop val cs
      ≡ (if all_digits cs && leb (decimal val cs) int_max then pos (decimal val cs) else minus_one)
unfolding atoi_loop all_digits decimal
atoi_loop-decimal val [] h = ground arith
atoi_loop-decimal val (c ∷ cs) h =
    ground (
      arith,
      atoi_loop-decimal (val * 10 + (c - b'0')) cs,
      decimal_grows (val * 10 + (c - b'0')) cs,
    )

-- `Atoi` returns the number that the first `n` bytes spell in decimal, if `n` is not 0, all of them
-- are digits and the number is at most INT_MAX, and -1 in every other case.
pub atoi-decimal :
    (str : List ℕ) (n : ℕ)
    → atoi str n ≡ (
        if ltb 0 n && all_digits (take n str) && leb (decimal 0 (take n str)) int_max
        then pos (decimal 0 (take n str))
        else minus_one)
unfolding atoi
atoi-decimal str n = ground (arith, atoi_loop-decimal 0 (take n str))
