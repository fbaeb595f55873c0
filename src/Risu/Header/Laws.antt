-- ===== src/Risu/Header/Laws.antt =====
-- risu.c: a header is read back as it was written, also on a machine of the other byte order.
use risu.Prelude.{
  ℕ, ◌^◌, ◌<◌, ◌≡◌, refl, ap, ◌∙◌, ◌≢◌, ◌⊎◌, inl, inr, Bool, true, false, not, some, arith, ◌==◌,
  ==_refl, if◌then◌else◌, if_false,
}
use mathlib.Core.Option
use mathlib.Core.List.{reverse}
use risu.Prelude.{Bool-discrete}
use risu.Endian.{byteswap_32, le_bytes_32}
use risu.Endian.Laws.{byteswap_32-lt, le_bytes_32-byteswap_32, byteswap_32-byteswap_32}
use risu.Risu.Header.{
  TraceHeader, Platform, risu_magic, byte_swap_header, header_host_to_arch, header_arch_to_host,
  word_bytes, header_bytes, header_of_bytes,
}

pub record IsHeader (h : TraceHeader) : Type 0 where
  pub magic_eq : h.magic ≡ risu_magic
  pub size_lt : h.size < 2 ^ 32
  pub risu_op_lt : h.risu_op < 2 ^ 32
  pub pc_lt : h.pc < 2 ^ 32

-- Every field is a 32-bit word.
record AreWords (h : TraceHeader) : Type 0 where
  magic_lt : h.magic < 2 ^ 32
  size_lt : h.size < 2 ^ 32
  risu_op_lt : h.risu_op < 2 ^ 32
  pc_lt : h.pc < 2 ^ 32

IsHeader-AreWords : (h : TraceHeader) → IsHeader h → AreWords h
IsHeader-AreWords h v = record {
  magic_lt = rw v.magic_eq (omega arith);
  size_lt = v.size_lt;
  risu_op_lt = v.risu_op_lt;
  pc_lt = v.pc_lt;
}

byte_swap_header-AreWords : (h : TraceHeader) → AreWords h → AreWords (byte_swap_header h)
unfolding byte_swap_header
byte_swap_header-AreWords h w = record {
  magic_lt = byteswap_32-lt h.magic w.magic_lt;
  size_lt = byteswap_32-lt h.size w.size_lt;
  risu_op_lt = byteswap_32-lt h.risu_op w.risu_op_lt;
  pc_lt = byteswap_32-lt h.pc w.pc_lt;
}

header_path :
    {h k : TraceHeader}
    → h.magic ≡ k.magic
    → h.size ≡ k.size
    → h.risu_op ≡ k.risu_op
    → h.pc ≡ k.pc
    → h ≡ k
header_path a b c e = λ i. record { magic = a i; size = b i; risu_op = c i; pc = e i }

-- The two forms of a header that are written: as it is, and with every word turned round.
pub header_host_to_arch-cases :
    (p : Platform) (h : TraceHeader)
    → (header_host_to_arch p h ≡ h) ⊎ (header_host_to_arch p h ≡ byte_swap_header h)
unfolding header_host_to_arch
header_host_to_arch-cases p h = ground arith

byte_swap_header-byte_swap_header :
    (h : TraceHeader) → IsHeader h → byte_swap_header (byte_swap_header h) ≡ h
unfolding byte_swap_header
byte_swap_header-byte_swap_header h v =
    header_path (byteswap_32-byteswap_32 h.magic (rw v.magic_eq (omega arith)))
      (byteswap_32-byteswap_32 h.size v.size_lt) (byteswap_32-byteswap_32 h.risu_op v.risu_op_lt)
      (byteswap_32-byteswap_32 h.pc v.pc_lt)

header_arch_to_host_swapped :
    (h : TraceHeader) → IsHeader h → header_arch_to_host (byte_swap_header h) ≡ h
unfolding header_arch_to_host byte_swap_header
header_arch_to_host_swapped h v =
    ap (λ b. if b then byte_swap_header (byte_swap_header h) else byte_swap_header h)
      (ap (λ m. byteswap_32 m == byteswap_32 risu_magic) v.magic_eq
        ∙ ==_refl (byteswap_32 risu_magic))
    ∙ byte_swap_header-byte_swap_header h v

header_arch_to_host_same : (h : TraceHeader) → h.magic ≡ risu_magic → header_arch_to_host h ≡ h
unfolding header_arch_to_host byteswap_32
header_arch_to_host_same h e =
    ap (λ m. if m == byteswap_32 risu_magic then byte_swap_header h else h) e

-- An object is read back as it was written by a host that stores words in the same order,
-- and with every word turned round by one of the other order.
header_of_bytes_same :
    (e : Bool) (h : TraceHeader) → AreWords h → header_of_bytes e (header_bytes e h) ≡ some h
unfolding header_of_bytes header_bytes le_bytes_32
header_of_bytes_same true h w =
    ap some (header_path (omega arith) (omega arith) (omega arith) (omega arith))
header_of_bytes_same false h w =
    ap some (header_path (omega arith) (omega arith) (omega arith) (omega arith))

header_of_bytes_other :
    (e f : Bool) (h : TraceHeader)
    → e ≢ f
    → AreWords h
    → header_of_bytes e (header_bytes f h) ≡ some (byte_swap_header h)
unfolding header_of_bytes header_bytes le_bytes_32 byte_swap_header byteswap_32
header_of_bytes_other true true h ne w = absurd (ne refl)
header_of_bytes_other false false h ne w = absurd (ne refl)
header_of_bytes_other true false h ne w =
    ap some (header_path (omega arith) (omega arith) (omega arith) (omega arith))
header_of_bytes_other false true h ne w =
    ap some (header_path (omega arith) (omega arith) (omega arith) (omega arith))

-- What is in the file is `h`, as it is or turned round, in the byte order of either host.
read_stored :
    (e f : Bool) (h k : TraceHeader)
    → IsHeader h
    → (k ≡ h) ⊎ (k ≡ byte_swap_header h)
    → Option.map header_arch_to_host (header_of_bytes e (header_bytes f k)) ≡ some h
read_stored e f h k v c = elim (Bool-discrete e f) [
  | yes same ↦ elim c [
    | inl p ↦
        rw (p, same, header_of_bytes_same f h w) (ap some (header_arch_to_host_same h v.magic_eq))
    | inr p ↦ rw (p, same, header_of_bytes_same f _ sw) (ap some (header_arch_to_host_swapped h v))
  ]
  | no ne ↦ elim c [
    | inl p ↦ rw (p, header_of_bytes_other e f h ne w) (ap some (header_arch_to_host_swapped h v))
    | inr p ↦
        rw (p, header_of_bytes_other e f _ ne sw, byte_swap_header-byte_swap_header h v)
          (ap some (header_arch_to_host_same h v.magic_eq))
  ]
]
  where
    w : AreWords h
    w = IsHeader-AreWords h v

    sw : AreWords (byte_swap_header h)
    sw = byte_swap_header-AreWords h w

-- A header with the right magic number and words of 32 bits, written on a machine of any byte
-- order for a tested machine of any byte order, is read on a machine of any byte order as it was.
pub header_round_trip :
    (writer reader : Platform) (h : TraceHeader)
    → IsHeader h
    → Option.map header_arch_to_host (
        header_of_bytes reader.host_little_endian
          (header_bytes writer.host_little_endian (header_host_to_arch writer h)))
      ≡ some h
header_round_trip writer reader h v =
    read_stored reader.host_little_endian writer.host_little_endian h (header_host_to_arch writer h)
      v (header_host_to_arch-cases writer h)

-- Whether a header that has not been swapped yet is swapped.
abbrev pub swaps : Bool → Bool → Bool
swaps macro_little_endian arch_big_endian =
    if macro_little_endian then not (not arch_big_endian) else not arch_big_endian

pub header_host_to_arch-swaps :
    (p : Platform) (h : TraceHeader)
    → h.magic ≡ risu_magic
    → header_host_to_arch p h
      ≡ (if swaps p.macro_little_endian p.arch_big_endian then byte_swap_header h else h)
unfolding header_host_to_arch byteswap_32
header_host_to_arch-swaps p h e =
    ap
      (λ m.
        if swaps p.macro_little_endian p.arch_big_endian
        then (if m == byteswap_32 risu_magic then h else byte_swap_header h)
        else h)
      e

word_bytes_swapped :
    (e : Bool) (x : ℕ) → x < 2 ^ 32 → word_bytes e (byteswap_32 x) ≡ word_bytes (not e) x
unfolding word_bytes le_bytes_32
word_bytes_swapped true x h = le_bytes_32-byteswap_32 x h
word_bytes_swapped false x h = ap reverse (le_bytes_32-byteswap_32 x h)

header_bytes_swapped :
    (e : Bool) (h : TraceHeader)
    → AreWords h
    → header_bytes e (byte_swap_header h) ≡ header_bytes (not e) h
unfolding header_bytes byte_swap_header
header_bytes_swapped e h w = cc (
  word_bytes_swapped e h.magic w.magic_lt,
  word_bytes_swapped e h.size w.size_lt,
  word_bytes_swapped e h.risu_op w.risu_op_lt,
  word_bytes_swapped e h.pc w.pc_lt,
)

header_bytes_arch :
    (host big : Bool) (h : TraceHeader)
    → AreWords h
    → header_bytes host (if swaps host big then byte_swap_header h else h)
      ≡ header_bytes (not big) h
header_bytes_arch true true h w = header_bytes_swapped true h w
header_bytes_arch true false h w = refl
header_bytes_arch false true h w = refl
header_bytes_arch false false h w = header_bytes_swapped false h w

-- Where the macro __LITTLE_ENDIAN__ tells the byte order of the host, the bytes of a written
-- header are those of the header in the byte order of the tested machine, on every host.
pub header_bytes_portable :
    (p : Platform) (h : TraceHeader)
    → IsHeader h
    → p.macro_little_endian ≡ p.host_little_endian
    → header_bytes p.host_little_endian (header_host_to_arch p h)
      ≡ header_bytes (not p.arch_big_endian) h
header_bytes_portable p h v e =
    ap (header_bytes p.host_little_endian) (header_host_to_arch-swaps p h v.magic_eq)
    ∙ ap
        (λ m.
          header_bytes p.host_little_endian
            (if swaps m p.arch_big_endian then byte_swap_header h else h))
        e
    ∙ header_bytes_arch p.host_little_endian p.arch_big_endian h (IsHeader-AreWords h v)

pub header_host_to_arch_keeps :
    (p : Platform) (h : TraceHeader)
    → swaps p.macro_little_endian p.arch_big_endian ≡ false
    → header_host_to_arch p h ≡ h
unfolding header_host_to_arch
header_host_to_arch_keeps p h e = if_false _ _ _ e

-- What is stored into the header object is the header that is read from it.
pub header_loaded :
    (e f : Bool) (h k : TraceHeader)
    → IsHeader h
    → (k ≡ h) ⊎ (k ≡ byte_swap_header h)
    → (old : TraceHeader)
    → header_arch_to_host (Option.get_or (header_of_bytes e (header_bytes f k)) old) ≡ h
header_loaded e f h k v c old =
    loaded (header_of_bytes e (header_bytes f k)) (read_stored e f h k v c)
  where
    loaded :
        (o : Option.Option TraceHeader)
        → Option.map header_arch_to_host o ≡ some h
        → header_arch_to_host (Option.get_or o old) ≡ h
    loaded Option.none q = cc
    loaded (some x) q = cc
