-- ===== src/Tests/Wire.antt =====
-- The packets, the header and the byte swaps at concrete inputs.
use risu.Prelude.{
  ◌+◌, ◌^◌, ◌*◌, ◌≡◌, ◌≢◌, refl, true, false, not, List, [], ◌∷◌, ◌++◌, none, some, arith, length,
}
use mathlib.Core.Option
use risu.Prelude.Outcome.{done, hangs}
use risu.Comms.{
  Descriptor, short, interrupted, Iovec, gather, recv_bytes, net_bytes, recv_data_pkt, safe_writev,
}
use risu.Comms.Packets.{recv_data_pkt_receives, recv_data_pkt_rejects}
use risu.Comms.Sending.{safe_writev-Unbroken, safe_writev_short}
use risu.Comms.Closing.{recv_bytes_stale_errno}
use risu.Endian.{byteswap_64}
use risu.Endian.Laws.{byteswap_64_misplaced}
use risu.Risu.Header.{
  TraceHeader, Platform, risu_magic, header_bytes, header_of_bytes, header_host_to_arch,
  header_arch_to_host,
}
use risu.Risu.Header.Laws.{IsHeader, header_round_trip, header_bytes_portable}

-- Five bytes of which the reads are disturbed.
abbrev noisy : Descriptor
noisy = record {
  incoming = 1 ∷ 2 ∷ 3 ∷ 4 ∷ 5 ∷ [];
  reads = short 1 ∷ interrupted ∷ [];
  sent = [];
  writes = [];
  eintr = false;
}

-- A packet of two bytes, with one byte behind it.
abbrev packet : Descriptor
packet = record noisy { incoming = net_bytes 2 ++ (7 ∷ 8 ∷ 9 ∷ []) }

recv_data_pkt_receives_example :
    (e : Descriptor) × (recv_data_pkt 8 2 packet ≡ done (some (7 ∷ 8 ∷ []), e))
    × (e.incoming ≡ 9 ∷ [])
    × (e.sent ≡ [])
recv_data_pkt_receives_example =
    recv_data_pkt_receives 8 (7 ∷ 8 ∷ []) (9 ∷ []) packet (omega arith) tt refl (omega arith)

recv_data_pkt_rejects_example :
    (e : Descriptor) × (recv_data_pkt 8 3 packet ≡ done (none, e))
    × (e.incoming ≡ 9 ∷ [])
    × (e.sent ≡ [])
recv_data_pkt_rejects_example =
    recv_data_pkt_rejects 8 3 (7 ∷ 8 ∷ []) (9 ∷ []) packet (omega arith) (λ h. omega arith) tt refl
      (omega arith)

abbrev blocks : List Iovec
blocks = record { base = 1 ∷ 2 ∷ []; len = 2 } ∷ record { base = 3 ∷ 4 ∷ 5 ∷ []; len = 3 } ∷ []

abbrev resumed : Descriptor
resumed = record noisy { writes = interrupted ∷ [] }

safe_writev-Unbroken_example :
    (e : Descriptor) × (safe_writev 2 blocks 0 resumed
      ≡ done (some (0 + length (gather blocks)), e))
    × (e.sent ≡ [] ++ gather blocks)
    × (e.incoming ≡ noisy.incoming)
    × (e.reads ≡ noisy.reads)
safe_writev-Unbroken_example =
    safe_writev-Unbroken 2 blocks 0 resumed (omega arith, (omega arith, tt)) tt (omega arith)

-- The kernel takes three of the five bytes: byte 3 goes out twice and byte 5 never.
abbrev cut : Descriptor
cut = record noisy { writes = short 2 ∷ [] }

safe_writev_short_example :
    (e : Descriptor) × (safe_writev 2 blocks 0 cut ≡ done (some 5, e))
    × (e.sent ≡ [] ++ (1 ∷ 2 ∷ 3 ∷ 3 ∷ 4 ∷ []))
safe_writev_short_example =
    safe_writev_short 0 1 (1 ∷ 2 ∷ []) (3 ∷ 4 ∷ 5 ∷ []) cut refl (omega arith) (omega arith)

abbrev closed : Descriptor
closed = record noisy { incoming = 1 ∷ []; reads = []; eintr = true }

recv_bytes_stale_errno_example : recv_bytes 100 4 closed ≡ hangs
recv_bytes_stale_errno_example = recv_bytes_stale_errno 100 4 closed refl (omega arith) refl

byteswap_64_misplaced_example :
    (byteswap_64 (5 * 2 ^ 48) ≡ 5) × (byteswap_64 (5 * 2 ^ 48) ≢ 5 * 2 ^ 8)
byteswap_64_misplaced_example = byteswap_64_misplaced 5 (omega arith) (omega arith)

-- A big-endian machine that is tested on a little-endian host, and the other way round.
abbrev from_little : Platform
from_little = record {
  macro_little_endian = true;
  host_little_endian = true;
  arch_big_endian = true;
}

abbrev from_big : Platform
from_big = record {
  macro_little_endian = false;
  host_little_endian = false;
  arch_big_endian = false;
}

abbrev sample : TraceHeader
sample = record { magic = risu_magic; size = 320; risu_op = 1; pc = 4096 }

sample-IsHeader : IsHeader sample
sample-IsHeader = record {
  magic_eq = refl;
  size_lt = omega arith;
  risu_op_lt = omega arith;
  pc_lt = omega arith;
}

header_round_trip_example :
    Option.map header_arch_to_host (
      header_of_bytes from_big.host_little_endian
        (header_bytes from_little.host_little_endian (header_host_to_arch from_little sample)))
    ≡ some sample
header_round_trip_example = header_round_trip from_little from_big sample sample-IsHeader

header_bytes_portable_example :
    header_bytes from_little.host_little_endian (header_host_to_arch from_little sample)
    ≡ header_bytes (not from_little.arch_big_endian) sample
header_bytes_portable_example = header_bytes_portable from_little sample sample-IsHeader refl
