-- ===== src/Endian.antt =====
-- endianswap.h: the byte swaps that are used where the compiler brings none.
pub mod Laws
use risu.Prelude.{ℕ, ◌+◌, ◌*◌, ◌/◌, ◌%◌, ◌^◌, List, [], ◌∷◌, if◌then◌else◌, ◌==◌, bit_or}

-- `((x) >> 8) | (((x) & 0xFFUL) << 8)`. The two operands have no bit in common, so `|` is a sum;
-- a mask over whole bytes is written as the byte in its place.
unfoldable pub byteswap_16 : ℕ → ℕ
byteswap_16 x = x / 2 ^ 8 + x % 2 ^ 8 * 2 ^ 8

-- `((x) >> 24) | (((x) >> 8) & 0xFF00UL) | (((x) & 0xFF00UL) << 8) | ((x) << 24)`, the last
-- operand of which wraps in 32 bits.
unfoldable pub byteswap_32 : ℕ → ℕ
byteswap_32 x =
    x / 2 ^ 24 + x / 2 ^ 16 % 2 ^ 8 * 2 ^ 8 + x / 2 ^ 8 % 2 ^ 8 * 2 ^ 16 + x * 2 ^ 24 % 2 ^ 32

-- Byte number `i` of a word, the lowest being number 0.
unfoldable pub byte : ℕ → ℕ → ℕ
byte x i = x / 2 ^ (8 * i) % 256

-- The eight operands of BYTESWAP_64, as they are shifted there. They overlap, so `|` stays.
unfoldable pub byteswap_64 : ℕ → ℕ
unfolding byte
byteswap_64 x = bit_or (x / 2 ^ 56) (
    bit_or (byte x 6 * 2 ^ 48 / 2 ^ 48) (
      bit_or (byte x 5 * 2 ^ 40 / 2 ^ 40) (
        bit_or (byte x 4 * 2 ^ 32 / 2 ^ 32) (
          bit_or (byte x 3 * 2 ^ 24 * 2 ^ 32 % 2 ^ 64) (
            bit_or (byte x 2 * 2 ^ 16 * 2 ^ 40 % 2 ^ 64)
              (bit_or (byte x 1 * 2 ^ 8 * 2 ^ 48 % 2 ^ 64) (byte x 0 * 2 ^ 56 % 2 ^ 64)))))))

-- `BYTESWAP_SIZED`
unfoldable pub byteswap_sized : ℕ → ℕ → ℕ
byteswap_sized val size =
    if size == 2 then byteswap_16 val else if size == 4 then byteswap_32 val else val

-- The bytes of a 32-bit and of a 64-bit word in memory, lowest first.
unfoldable pub le_bytes_32 : ℕ → List ℕ
le_bytes_32 x = x % 256 ∷ x / 2 ^ 8 % 256 ∷ x / 2 ^ 16 % 256 ∷ x / 2 ^ 24 % 256 ∷ []
