-- ===== src/Comms.antt =====
-- comms.c: the descriptor that master and apprentice talk through, and the packets on it.
pub mod Reads
pub mod Discarding
pub mod Packets
pub mod Sending
pub mod Closing
pub mod Bounds
pub mod Silent
pub mod Asking
use risu.Prelude.{
  ℕ, zero, suc, ◌+◌, ◌-◌, ◌*◌, ◌/◌, ◌%◌, ◌^◌, Bool, true, false, List, [], ◌∷◌, ◌++◌, Option, none,
  some, leb, ltb, if◌then◌else◌, length, take, drop, min, ◌==◌,
}
use risu.Prelude.Outcome.{Outcome, done, exits, overruns, hangs, ◌>>=◌}

-- How the kernel answers one read or write: it moves everything that fits, at most `k + 1` bytes,
-- or returns -1 with errno EINTR or another errno.
pub data IoEvent : Type 0 where
  whole : IoEvent
  short : ℕ → IoEvent
  interrupted failed : IoEvent

-- A descriptor, with what the other end will still deliver and what has been sent to it. The
-- events disturb the calls in turn; once they are used up, calls move everything that fits.
-- `eintr` is `errno == EINTR`, which a call that succeeds leaves as it was.
pub record Descriptor : Type 0 where
  pub incoming : List ℕ
  pub reads : List IoEvent
  pub sent : List ℕ
  pub writes : List IoEvent
  pub eintr : Bool

abbrev next_event : List IoEvent → IoEvent
next_event [] = whole
next_event (e ∷ es) = e

abbrev later_events : List IoEvent → List IoEvent
later_events [] = []
later_events (e ∷ es) = es

-- `read(fd, p, n)`; `none` is -1, and `some []` the end of the input (or n = 0).
read_by : IoEvent → ℕ → Descriptor → Option (List ℕ) × Descriptor
read_by whole n d = (some (take n d.incoming), record d { incoming = drop n d.incoming })
read_by (short k) n d = (
  some (take (min n (suc k)) d.incoming),
  record d { incoming = drop (min n (suc k)) d.incoming },
)
read_by interrupted n d = (none, record d { eintr = true })
read_by failed n d = (none, record d { eintr = false })

unfoldable pub sys_read : ℕ → Descriptor → Option (List ℕ) × Descriptor
unfolding read_by
sys_read n d = read_by (next_event d.reads) n (record d { reads = later_events d.reads })

-- `write(fd, p, n)` of the bytes at p; the number of bytes moved, or `none` for -1.
write_by : IoEvent → List ℕ → Descriptor → Option ℕ × Descriptor
write_by whole bytes d = (some (length bytes), record d { sent = d.sent ++ bytes })
write_by (short k) bytes d =
    (some (min (length bytes) (suc k)), record d { sent = d.sent ++ take (suc k) bytes })
write_by interrupted bytes d = (none, record d { eintr = true })
write_by failed bytes d = (none, record d { eintr = false })

unfoldable pub sys_write : List ℕ → Descriptor → Option ℕ × Descriptor
unfolding write_by
sys_write bytes d =
    write_by (next_event d.writes) bytes (record d { writes = later_events d.writes })

-- `if (i <= 0) { if (errno == EINTR) continue; perror(...); exit(EXIT_FAILURE); }`
abbrev retry {ℓ} : {A : Type ℓ} → Bool → Outcome A → Outcome A
retry true again = again
retry false again = exits

-- One round of the loop of `recv_bytes`, on what `read` returned; the rest of the loop is `again`.
recv_round :
    (ℕ → Descriptor → Outcome (List ℕ × Descriptor))
    → ℕ
    → Option (List ℕ) × Descriptor
    → Outcome (List ℕ × Descriptor)
recv_round again n (none, d) = retry d.eintr (again (suc n) d)
recv_round again n (some [], d) = retry d.eintr (again (suc n) d)
recv_round again n (some (b ∷ bs), d) = do
  (rest, e) ← again (n - length bs) d
  done ((b ∷ bs) ++ rest, e)

-- `recv_bytes`, with a bound on its rounds: the bytes stored at `pkt`.
unfoldable pub recv_bytes : ℕ → ℕ → Descriptor → Outcome (List ℕ × Descriptor)
unfolding recv_round
recv_bytes fuel zero d = done ([], d)
recv_bytes zero (suc n) d = hangs
recv_bytes (suc fuel) (suc n) d = recv_round (recv_bytes fuel) n (sys_read (suc n) d)

discard_round :
    (ℕ → Descriptor → Outcome Descriptor) → ℕ → Option (List ℕ) × Descriptor → Outcome Descriptor
discard_round again n (none, d) = retry d.eintr (again (suc n) d)
discard_round again n (some [], d) = retry d.eintr (again (suc n) d)
discard_round again n (some (b ∷ bs), d) = again (n - length bs) d

-- The same loop through a buffer of 64 bytes, whose contents are dropped.
unfoldable pub recv_and_discard_bytes : ℕ → ℕ → Descriptor → Outcome Descriptor
unfolding discard_round
recv_and_discard_bytes fuel zero d = done d
recv_and_discard_bytes zero (suc n) d = hangs
recv_and_discard_bytes (suc fuel) (suc n) d =
    discard_round (recv_and_discard_bytes fuel) n (sys_read (min 64 (suc n)) d)

-- `struct iovec`: the object that iov_base points into, from that address on, and iov_len.
pub record Iovec : Type 0 where
  pub base : List ℕ
  pub len : ℕ

unfoldable pub gather : List Iovec → List ℕ
gather [] = []
gather (v ∷ vs) = take v.len v.base ++ gather vs

-- The inner loop of `safe_writev` and the line behind it; [] once iovcnt is 0. Only iov_len
-- changes in a block that was written in part.
unfoldable pub advance : ℕ → List Iovec → List Iovec
advance i [] = []
advance i (v ∷ vs) =
    let rest = advance (i - v.len) vs in
    if leb v.len i then rest else record v { len = v.len - i } ∷ vs

-- One round of `safe_writev`, on what `writev` returned.
writev_round :
    (List Iovec → ℕ → Descriptor → Outcome (Option ℕ × Descriptor))
    → List Iovec
    → ℕ
    → Option ℕ × Descriptor
    → Outcome (Option ℕ × Descriptor)
writev_round again iov r (none, d) = if d.eintr then again iov r d else done (none, d)
writev_round again iov r (some i, d) = elim (advance i iov) [
  | [] ↦ done (some (r + i), d)
  | v ∷ vs ↦ again (v ∷ vs) (r + i) d
]

-- `safe_writev`: the bytes that it counted, or `none` for -1.
unfoldable pub safe_writev : ℕ → List Iovec → ℕ → Descriptor → Outcome (Option ℕ × Descriptor)
unfolding writev_round
safe_writev zero iov r d = hangs
safe_writev (suc fuel) iov r d = writev_round (safe_writev fuel) iov r (sys_write (gather iov) d)

-- `htonl` and `ntohl`, as the four bytes on the wire.
unfoldable pub net_bytes : ℕ → List ℕ
net_bytes n = n / 2 ^ 24 % 256 ∷ n / 2 ^ 16 % 256 ∷ n / 2 ^ 8 % 256 ∷ n % 256 ∷ []

unfoldable pub net_value : List ℕ → ℕ
net_value (a ∷ b ∷ c ∷ e ∷ _) = a * 2 ^ 24 + b * 2 ^ 16 + c * 2 ^ 8 + e
net_value _ = 0

-- The response is read without a retry.
read_response : Descriptor → Outcome (ℕ × Descriptor)
unfolding sys_read
read_response d =
    let (got, d') = sys_read 1 d in
    elim got [ none ↦ exits | some [] ↦ exits | some (b ∷ _) ↦ done (b, d') ]

-- `send_data_pkt`: the response byte of the other end.
unfoldable pub send_data_pkt : ℕ → List ℕ → ℕ → Descriptor → Outcome (ℕ × Descriptor)
unfolding net_bytes read_response
send_data_pkt fuel pkt pktlen d = do
  (res, e) ← safe_writev fuel (length_block ∷ record { base = pkt; len = pktlen } ∷ []) 0 d
  elim res [ none ↦ exits | some _ ↦ read_response e ]
  where
    length_block : Iovec
    length_block = record { base = net_bytes pktlen; len = 4 }

-- `if (pktlen != net_pktlen)`, the packet being dropped in that case. A length from 2 ^ 31 on is a
-- negative int for recv_and_discard_bytes, where it is the smaller one and goes to read as a huge
-- size, behind the 64 bytes of the buffer.
recv_payload : ℕ → ℕ → ℕ → Descriptor → Outcome (Option (List ℕ) × Descriptor)
recv_payload fuel pktlen net_pktlen d =
    if pktlen == net_pktlen
    then recv_bytes fuel pktlen d >>= (λ r. done (some r.0, r.1))
    else if ltb net_pktlen (2 ^ 31)
    then recv_and_discard_bytes fuel net_pktlen d >>= (λ e. done (none, e))
    else overruns

-- `recv_data_pkt`: `none` is RES_BAD_IO, with nothing stored at `pkt`.
unfoldable pub recv_data_pkt : ℕ → ℕ → Descriptor → Outcome (Option (List ℕ) × Descriptor)
unfolding recv_payload
recv_data_pkt fuel pktlen d =
    recv_bytes fuel 4 d >>= (λ r. recv_payload fuel pktlen (net_value r.0) r.1)

-- `send_response_byte`: `unsigned char r = resp`, and one write of it.
unfoldable pub send_response_byte : ℕ → Descriptor → Outcome Descriptor
unfolding sys_write
send_response_byte resp d =
    let (res, d') = sys_write (resp % 256 ∷ []) d in
    elim res [ none ↦ exits | some n ↦ if n == 1 then done d' else exits ]
