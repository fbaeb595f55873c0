-- ===== src/Ppc64/Floats.antt =====
-- risu_reginfo_ppc64.c: the classes of floating-point numbers of 64 bits. The mask `~(1LL<<63)`
-- clears the sign, and a shift to the right by 52 bits leaves the exponent.
use risu.Prelude.{
  ℕ, zero, suc, ◌+◌, ◌-◌, ◌*◌, ◌/◌, ◌%◌, ◌^◌, Bool, true, false, not, ◌&&◌, Option, none, some,
  if◌then◌else◌, ◌==◌, ltb, leb,
}
use risu.Prelude.Int.{ℤ, pos, minus, ◌-ℤ◌}
use mathlib.Core.Option

abbrev pub magnitude : ℕ → ℕ
magnitude n = n % 2 ^ 63

abbrev pub field : ℕ → ℕ
field n = n / 2 ^ 52 % 2048

unfoldable pub denormalized : ℕ → Bool
denormalized n = field n == 0 && not (magnitude n == 0)

-- `zero`
unfoldable pub is_zero : ℕ → Bool
is_zero n = magnitude n == 0

unfoldable pub signz : ℕ → ℕ
signz n = n / 2 ^ 63 % 2 * 2 ^ 63

unfoldable pub signinf : ℕ → ℕ
signinf n = n / 2 ^ 63 % 2 * 2 ^ 63 + 0x7ff0000000000000

unfoldable pub negative : ℕ → Bool
negative n = not (n / 2 ^ 63 == 0)

unfoldable pub infinite : ℕ → Bool
infinite n = magnitude n == 0x7ff0000000000000

unfoldable pub is_nan : ℕ → Bool
is_nan n = ltb 0x7ff0000000000000 (magnitude n)

unfoldable pub isqnan : ℕ → Bool
isqnan n = magnitude n == 0x7ff8000000000000

unfoldable pub anyqnan : ℕ → Bool
anyqnan n = not (ltb (magnitude n) 0x7ff8000000000000)

unfoldable pub neganyqnan : ℕ → Bool
neganyqnan n = not (ltb n 0xfff8000000000000)

unfoldable pub snan : ℕ → Bool
unfolding is_nan anyqnan
snan n = is_nan n && not (anyqnan n)

unfoldable pub qsnan : ℕ → Bool
qsnan n = ltb 0x7ff8000000000000 (magnitude n)

unfoldable pub mantissa : ℕ → ℕ
mantissa n = n % 2 ^ 52 + (if field n == 0 then 2 ^ 52 else 0)

-- `for (...; x < (1LL << 52); x <<= 1, exp--) {}`, with a bound on its rounds.
unfoldable pub shift_up : ℕ → ℕ → ℕ → Option (ℕ × ℕ)
shift_up zero x e = if ltb x (2 ^ 52) then none else some (x, e)
shift_up (suc fuel) x e =
    let rest = shift_up fuel (x * 2 % 2 ^ 64) (e - 1) in
    if ltb x (2 ^ 52) then rest else some (x, e)

-- The three parts that are joined by `|` have no bit in common.
unfoldable pub join : ℕ → ℕ × ℕ → ℕ
join n (x, e) = n / 2 ^ 63 % 2 * 2 ^ 63 + e * 2 ^ 52 % 2 ^ 64 + x % 2 ^ 52

unfoldable pub normalize : ℕ → ℕ → Option ℕ
normalize fuel n =
    if not (denormalized n)
    then some n
    else Option.map (join n) (shift_up fuel (n % 2 ^ 52) (1536 + 1))

-- The loop in `exponent`, with a bound on its rounds: how often it shifts.
unfoldable pub shifts : ℕ → ℕ → ℕ
shifts zero x = 0
shifts (suc fuel) x =
    let rest = shifts fuel (x * 2 % 2 ^ 64) in if ltb x (2 ^ 52) then suc rest else 0

-- The loop starts with a zero exponent, on at least one bit of 52, so that 52 rounds are enough.
unfoldable pub exponent : ℕ → ℤ
exponent n =
    if is_zero n
    then minus 4096
    else if field n == 0x7ff
    then pos 4096
    else (if field n == 0 then minus (shifts 52 (n % 2 ^ 52)) else pos (field n)) -ℤ pos 1023

-- `normalize`, whose loop ends within 52 rounds.
unfoldable pub normalized : ℕ → ℕ
normalized n = Option.get_or (normalize 52 n) n

-- `ABS((int64_t)(x - y))`. Where the difference is 2^63, the negation in the code overflows.
unfoldable pub abs_difference : ℕ → ℕ → ℕ
abs_difference x y = let d = (x + 2 ^ 64 - y) % 2 ^ 64 in if leb d (2 ^ 63) then d else 2 ^ 64 - d

-- `fabs(x) < FLT_MIN`, which no NaN is.
unfoldable pub below_flt_min : ℕ → Bool
below_flt_min n = ltb (magnitude n) 0x3810000000000000

-- `fabs(x) >= FLT_MAX`, which no NaN is.
unfoldable pub from_flt_max : ℕ → Bool
from_flt_max n = leb 0x47efffffe0000000 (magnitude n) && not (is_nan n)

-- `==` on truth values.
unfoldable pub same : Bool → Bool → Bool
same true b = b
same false b = not b
