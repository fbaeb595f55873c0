-- ===== src/Endian/Laws.antt =====
-- endianswap.h: what the byte swaps do to the bytes of a word.
use risu.Prelude.{
  ℕ, zero, suc, ◌*◌, ◌^◌, ◌<◌, ◌≡◌, ◌≢◌, refl, Bool, true, false, if◌then◌else◌, ◌==◌, arith,
}
use mathlib.Core.List.{reverse}
use risu.Endian.{byteswap_16, byteswap_32, byteswap_64, byte, byteswap_sized, le_bytes_32}

pub byteswap_32-lt : (x : ℕ) → x < 2 ^ 32 → byteswap_32 x < 2 ^ 32
unfolding byteswap_32
byteswap_32-lt x h = omega arith

-- BYTESWAP_32 turns the bytes of a 32-bit word round.
pub le_bytes_32-byteswap_32 :
    (x : ℕ) → x < 2 ^ 32 → le_bytes_32 (byteswap_32 x) ≡ reverse (le_bytes_32 x)
unfolding byteswap_32 le_bytes_32
le_bytes_32-byteswap_32 x h = ground arith

-- Swapping twice gives the word back.
pub byteswap_32-byteswap_32 : (x : ℕ) → x < 2 ^ 32 → byteswap_32 (byteswap_32 x) ≡ x
unfolding byteswap_32
byteswap_32-byteswap_32 x h = omega arith

pub byteswap_16-byteswap_16 : (x : ℕ) → x < 2 ^ 16 → byteswap_16 (byteswap_16 x) ≡ x
unfolding byteswap_16
byteswap_16-byteswap_16 x h = omega arith

-- BYTESWAP_SIZED is its own inverse on a value of the given size, for 2 and 4 bytes, and at any
-- other size it changes nothing.
pub byteswap_sized_twice :
    (val size : ℕ)
    → (size ≡ 2 → val < 2 ^ 16)
    → (size ≡ 4 → val < 2 ^ 32)
    → byteswap_sized (byteswap_sized val size) size ≡ val
unfolding byteswap_sized
byteswap_sized_twice val size h k =
    ground (arith, byteswap_16-byteswap_16 val, byteswap_32-byteswap_32 val)

-- The top byte but one goes to the bottom, for each of its values below `limit`.
lands_low : ℕ → Bool
lands_low zero = true
lands_low (suc limit) = if byteswap_64 (limit * 2 ^ 48) == limit then lands_low limit else false

lands_low_lem : (limit b : ℕ) → b < limit → lands_low limit ≡ true → byteswap_64 (b * 2 ^ 48) ≡ b
unfolding lands_low
lands_low_lem zero b lt h = absurd (omega arith)
lands_low_lem (suc limit) b lt h = ground (arith, lands_low_lem limit b)

-- A word of which only byte 6 is not zero: its swap must have that byte as byte 1, but the
-- fallback BYTESWAP_64 shifts it down by 48 bits instead of 40, so it arrives as byte 0.
pub byteswap_64_misplaced :
    (b : ℕ)
    → 0 < b
    → b < 256
    → (byteswap_64 (b * 2 ^ 48) ≡ b) × (byteswap_64 (b * 2 ^ 48) ≢ b * 2 ^ 8)
unfolding byteswap_64 byte lands_low
byteswap_64_misplaced b pos lt =
    let e : byteswap_64 (b * 2 ^ 48) ≡ b = lands_low_lem 256 b lt refl in (e, λ h. omega arith)
