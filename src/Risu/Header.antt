-- ===== src/Risu/Header.antt =====
-- risu.h and risu.c: the header in front of each record of a trace, and its byte order.
pub mod Laws
use risu.Prelude.{
  ℕ, ◌+◌, ◌*◌, ◌/◌, ◌%◌, ◌^◌, Bool, true, false, not, ◌&&◌, List, [], ◌∷◌, ◌++◌, Option, none, some,
  if◌then◌else◌, ◌==◌,
}
use mathlib.Core.List.{reverse}
use risu.Endian.{byteswap_32, le_bytes_32}

-- `arch_ptr_t` is 32 bits wide (every build but the native one on a 64-bit PowerPC).
pub record TraceHeader : Type 0 where
  pub magic : ℕ
  pub size : ℕ
  pub risu_op : ℕ
  pub pc : ℕ

-- What the build says of the machine that risu runs on and of the one that it tests: whether the
-- macro __LITTLE_ENDIAN__ is defined, how the host stores words, and `get_arch_big_endian()`.
pub record Platform : Type 0 where
  pub macro_little_endian : Bool
  pub host_little_endian : Bool
  pub arch_big_endian : Bool

-- ('R' << 24) | ('I' << 16) | ('S' << 8) | 'U'
abbrev pub risu_magic : ℕ
risu_magic = b'R' * 2 ^ 24 + b'I' * 2 ^ 16 + b'S' * 2 ^ 8 + b'U'

-- sizeof(trace_header_t)
abbrev pub sizeof_header : ℕ
sizeof_header = 16

unfoldable pub byte_swap_header : TraceHeader → TraceHeader
byte_swap_header h = record h {
  magic = byteswap_32 h.magic;
  size = byteswap_32 h.size;
  risu_op = byteswap_32 h.risu_op;
  pc = byteswap_32 h.pc;
}

unfoldable pub header_host_to_arch : Platform → TraceHeader → TraceHeader
header_host_to_arch p h =
    if (if p.macro_little_endian then not (not p.arch_big_endian) else not p.arch_big_endian)
    then (if h.magic == byteswap_32 risu_magic then h else byte_swap_header h)
    else h

unfoldable pub header_arch_to_host : TraceHeader → TraceHeader
header_arch_to_host h = if h.magic == byteswap_32 risu_magic then byte_swap_header h else h

-- How the host stores a word in memory, and reads it back.
unfoldable pub word_bytes : Bool → ℕ → List ℕ
unfolding le_bytes_32
word_bytes true x = le_bytes_32 x
word_bytes false x = reverse (le_bytes_32 x)

unfoldable pub word_of : Bool → ℕ → ℕ → ℕ → ℕ → ℕ
word_of true a b c d = a + b * 2 ^ 8 + c * 2 ^ 16 + d * 2 ^ 24
word_of false a b c d = d + c * 2 ^ 8 + b * 2 ^ 16 + a * 2 ^ 24

-- The header as the bytes of its object, and the object that holds such bytes.
unfoldable pub header_bytes : Bool → TraceHeader → List ℕ
unfolding word_bytes
header_bytes e h =
    word_bytes e h.magic ++ (word_bytes e h.size ++ (word_bytes e h.risu_op ++ word_bytes e h.pc))

unfoldable pub header_of_bytes : Bool → List ℕ → Option TraceHeader
unfolding word_of
header_of_bytes e
      (m0 ∷ m1 ∷ m2 ∷ m3 ∷ s0 ∷ s1 ∷ s2 ∷ s3 ∷ o0 ∷ o1 ∷ o2 ∷ o3 ∷ p0 ∷ p1 ∷ p2 ∷ p3 ∷ []) =
    some (record {
      magic = word_of e m0 m1 m2 m3;
      size = word_of e s0 s1 s2 s3;
      risu_op = word_of e o0 o1 o2 o3;
      pc = word_of e p0 p1 p2 p3;
    })
header_of_bytes e _ = none
