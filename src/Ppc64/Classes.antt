-- ===== src/Ppc64/Classes.antt =====
-- risu_reginfo_ppc64.c: what the classes of floating-point numbers have to do with each other.
use risu.Prelude.{ℕ, ◌+◌, ◌^◌, ◌<◌, ◌≡◌, Bool, not, ◌&&◌, if◌then◌else◌, ◌==◌, arith}
use risu.Ppc64.Floats.{field, denormalized, is_zero, infinite, is_nan, anyqnan, snan}

abbrev pub count : Bool → ℕ
count b = if b then 1 else 0

-- A number with a hidden bit.
abbrev pub normal : ℕ → Bool
normal n = not (field n == 0) && not (field n == 2047)

-- Every number of 64 bits is exactly one of zero, denormalized, normal, infinite, signalling NaN
-- and quiet NaN, as the predicates of the PowerPC code class it.
pub classes_partition :
    (n : ℕ)
    → n < 2 ^ 64
    → count (is_zero n)
        + count (denormalized n)
        + count (normal n)
        + count (infinite n)
        + count (snan n)
        + count (anyqnan n)
      ≡ 1
unfolding is_zero denormalized infinite is_nan snan anyqnan
classes_partition n lt = ground arith
