-- ===== src/Vm/Words.antt =====
-- int64_t on 64-bit patterns. Where C++ leaves a sum or product undefined, the pattern wraps
-- around, as compilers' code does; a shift by less than 0 or more than 63 has no result.
use loxis_programming_langua.Prelude.{
  ℕ, ◌+◌, ◌-◌, ◌*◌, ◌/◌, ◌%◌, ◌^◌, Bool, true, false, Option, none, some, ltb, leb, ◌==◌, ◌&&◌,
  if◌then◌else◌, sub64,
}

abbrev pub is_negative : ℕ → Bool
is_negative a = leb (2 ^ 63) a

abbrev pub signed_lt : ℕ → ℕ → Bool
signed_lt a b = ltb ((a + 2 ^ 63) % 2 ^ 64) ((b + 2 ^ 63) % 2 ^ 64)

abbrev pub negate : ℕ → ℕ
negate a = sub64 0 a

abbrev pub magnitude : ℕ → ℕ
magnitude a = if is_negative a then negate a else a

unfoldable pub signed_add : ℕ → ℕ → ℕ
signed_add a b = (a + b) % 2 ^ 64

unfoldable pub signed_sub : ℕ → ℕ → ℕ
signed_sub a b = sub64 a b

unfoldable pub signed_mul : ℕ → ℕ → ℕ
signed_mul a b = a * b % 2 ^ 64

abbrev same_sign : Bool → Bool → Bool
same_sign true b = b
same_sign false true = false
same_sign false false = true

-- The quotient of the smallest integer by -1 is out of range.
abbrev pub quotient_overflows : ℕ → ℕ → Bool
quotient_overflows a b = a == 2 ^ 63 && b == 2 ^ 64 - 1

-- Division rounds to zero, and a remainder has the dividend's sign.
unfoldable pub signed_div : ℕ → ℕ → ℕ
signed_div a b =
    let q = magnitude a / magnitude b in
    if same_sign (is_negative a) (is_negative b) then q % 2 ^ 64 else negate q

unfoldable pub signed_rem : ℕ → ℕ → ℕ
signed_rem a b = let r = magnitude a % magnitude b in if is_negative a then negate r else r

unfoldable pub shift_left : ℕ → ℕ → Option ℕ
shift_left a n = if ltb n 64 then some (a * 2 ^ n % 2 ^ 64) else none

-- An arithmetic shift.
unfoldable pub shift_right : ℕ → ℕ → Option ℕ
shift_right a n =
    if ltb n 64
    then some (if is_negative a then 2 ^ 64 - 1 - (2 ^ 64 - 1 - a) / 2 ^ n else a / 2 ^ n)
    else none
