-- ===== src/Comms/Packets.antt =====
-- comms.c: receiving is exact whatever the kernel does to the single reads.
use risu.Prelude.{
  ℕ, zero, suc, ◌+◌, ◌-◌, ◌^◌, ◌≤◌, ◌<◌, ◌≡◌, ◌≢◌, refl, ap, ◌∙◌, inl, inr, true, List, [], ◌∷◌,
  ◌++◌, none, some, length, take, drop, arith, length-take, length-drop, take-split,
  take-append_left, drop-append_left, length-append, ==_refl, ==_ne, ltb, true,
}
use risu.Prelude.Outcome.{Outcome, done, ◌>>=◌}
use risu.Comms.{
  Descriptor, retry, recv_round, recv_bytes, recv_and_discard_bytes, net_bytes, net_value,
  recv_payload, recv_data_pkt,
}
use risu.Comms.Reads.{Quiet, Took, Took-trans, read_by_events}
use risu.Comms.Discarding.{recv_and_discard_bytes_exact}

-- The bytes of one read, and those of the rest of the loop.
recv_round_more :
    (again : ℕ → Descriptor → Outcome (List ℕ × Descriptor)) (n m : ℕ) (e f : Descriptor)
    (xs : List ℕ) (rest : List ℕ)
    → m ≤ n
    → suc n ≤ length xs
    → again (n - m) e ≡ done (rest, f)
    → recv_round again n (some (take (suc m) xs), e) ≡ done (take (suc m) xs ++ rest, f)
unfolding recv_round
recv_round_more again n m e f [] rest h room k = absurd (omega arith)
recv_round_more again n m e f (x ∷ xs) rest h room k =
    let l : length (take m xs) ≡ m = omega (arith, length-take m xs) in rw l (rw k refl)

recv_round_again :
    (again : ℕ → Descriptor → Outcome (List ℕ × Descriptor)) (n : ℕ) (e : Descriptor)
    → e.eintr ≡ true
    → recv_round again n (none, e) ≡ again (suc n) e
unfolding recv_round
recv_round_again again n e k = ap (λ b. retry b (again (suc n) e)) k

-- Whatever reads are short or interrupted, recv_bytes stores the next `n` bytes of the stream and
-- takes no more of it, if no read fails, the stream holds so many bytes and as many rounds are
-- given as there are bytes and events.
recv_bytes_exact :
    (fuel n : ℕ) (d : Descriptor)
    → Quiet d.reads
    → n ≤ length d.incoming
    → n + length d.reads ≤ fuel
    → (e : Descriptor) × (recv_bytes fuel n d ≡ done (take n d.incoming, e)) × Took n d e
unfolding recv_bytes
recv_bytes_exact fuel zero d q room enough = (
  d,
  refl,
  record { incoming_eq = refl; sent_eq = refl; writes_eq = refl; quiet = q; fewer = omega arith },
)
recv_bytes_exact zero (suc n) d q room enough = absurd (omega arith)
recv_bytes_exact (suc fuel) (suc n) d q room enough = elim (read_by_events n d d.reads refl q) [
  | inl (m, e, h, s, t) ↦
      let l : length e.incoming ≡ length d.incoming - suc m =
        ap length t.incoming_eq ∙ length-drop (suc m) d.incoming in
      let (f, r, u) =
        recv_bytes_exact fuel (n - m) e t.quiet (omega arith) (omega (arith, t.fewer)) in
      (
        f,
        rw s (
            recv_round_more (recv_bytes fuel) n m e f d.incoming _ h room r
            ∙ ap (λ xs. done (xs, f))
                (rw t.incoming_eq (
                  ap (λ (i : ℕ). take (suc m) d.incoming ++ take i (drop (suc m) d.incoming))
                    {x = n - m} {y = suc n - suc m} (omega arith)
                  ∙ take-split (suc m) (suc n) d.incoming (omega arith)))),
        Took-trans (suc m) (n - m) d e f t u (suc n) (omega arith),
      )
  | inr (e, s, k, t, l) ↦
      let (f, r, u) =
        recv_bytes_exact fuel (suc n) e t.quiet (omega (arith, ap length t.incoming_eq))
          (omega arith) in
      (
        f,
        rw s (
            recv_round_again (recv_bytes fuel) n e k
            ∙ r
            ∙ ap (λ xs. done (take (suc n) xs, f)) t.incoming_eq),
        Took-trans 0 (suc n) d e f t u (suc n) (omega arith),
      )
]

-- The length of a packet, of 32 bits, is read from the wire as it was put there.
net_value-net_bytes : (n : ℕ) → n < 2 ^ 32 → net_value (net_bytes n) ≡ n
unfolding net_value net_bytes
net_value-net_bytes n h = omega arith

length-net_bytes : (n : ℕ) → length (net_bytes n) ≡ 4
unfolding net_bytes
length-net_bytes n = refl

recv_payload_equal :
    (fuel pktlen : ℕ) (d e : Descriptor) (pkt : List ℕ)
    → recv_bytes fuel pktlen d ≡ done (pkt, e)
    → recv_payload fuel pktlen pktlen d ≡ done (some pkt, e)
unfolding recv_payload
recv_payload_equal fuel pktlen d e pkt h =
    rw (==_refl pktlen) (ap (λ m. m >>= (λ r. done (some r.0, r.1))) h)

recv_payload_other :
    (fuel pktlen net_pktlen : ℕ) (d e : Descriptor)
    → pktlen ≢ net_pktlen
    → ltb net_pktlen (2 ^ 31) ≡ true
    → recv_and_discard_bytes fuel net_pktlen d ≡ done e
    → recv_payload fuel pktlen net_pktlen d ≡ done (none, e)
unfolding recv_payload
recv_payload_other fuel pktlen net_pktlen d e ne small h =
    rw (==_ne pktlen net_pktlen ne) (rw small (ap (λ m. m >>= (λ e'. done (none, e'))) h))

-- The four bytes of the length, and what stands behind them.
recv_length :
    (fuel n : ℕ) (more : List ℕ) (d : Descriptor)
    → n < 2 ^ 32
    → Quiet d.reads
    → d.incoming ≡ net_bytes n ++ more
    → 4 + length d.reads ≤ fuel
    → (e : Descriptor) × (recv_bytes fuel 4 d ≡ done (net_bytes n, e))
      × (e.incoming ≡ more)
      × Took 4 d e
unfolding net_bytes
recv_length fuel n more d small q h enough =
    let l : length d.incoming ≡ 4 + length more = rw h (omega arith) in
    let (e, r, t) = recv_bytes_exact fuel 4 d q (omega arith) enough in
    (e, r ∙ ap (λ xs. done (take 4 xs, e)) h, t.incoming_eq ∙ ap (drop 4) h, t)

-- A packet whose length is the expected one arrives whole, through short and interrupted reads,
-- and what follows it in the stream stays there; the length is below 2 ^ 31 and enough rounds are
-- given.
pub recv_data_pkt_receives :
    (fuel : ℕ) (pkt rest : List ℕ) (d : Descriptor)
    → length pkt < 2 ^ 31
    → Quiet d.reads
    → d.incoming ≡ net_bytes (length pkt) ++ (pkt ++ rest)
    → 4 + length pkt + length d.reads ≤ fuel
    → (e : Descriptor) × (recv_data_pkt fuel (length pkt) d ≡ done (some pkt, e))
      × (e.incoming ≡ rest)
      × (e.sent ≡ d.sent)
unfolding recv_data_pkt
recv_data_pkt_receives fuel pkt rest d small q h enough =
    let (e, r, i, t) =
      recv_length fuel (length pkt) (pkt ++ rest) d (omega arith) q h (omega arith) in
    let room : length pkt ≤ length e.incoming = rw i (omega (arith, length-append pkt rest)) in
    let (f, s, u) = recv_bytes_exact fuel (length pkt) e t.quiet room (omega (arith, t.fewer)) in
    (
      f,
      ap (λ m. m >>= (λ x. recv_payload fuel (length pkt) (net_value x.0) x.1)) r
          ∙ ap (λ n. recv_payload fuel (length pkt) n e)
              (net_value-net_bytes (length pkt) (omega arith))
          ∙ recv_payload_equal fuel (length pkt) e f pkt
              (s ∙ ap (λ xs. done (xs, f)) (rw i (take-append_left pkt rest))),
      u.incoming_eq ∙ rw i (drop-append_left pkt rest),
      u.sent_eq ∙ t.sent_eq,
    )

-- A packet of another length than the expected one is reported as RES_BAD_IO, and is taken out of
-- the stream whole, so that the two ends stay in step; the length is below 2 ^ 31, no read fails
-- and enough rounds are given.
pub recv_data_pkt_rejects :
    (fuel pktlen : ℕ) (pkt rest : List ℕ) (d : Descriptor)
    → length pkt < 2 ^ 31
    → pktlen ≢ length pkt
    → Quiet d.reads
    → d.incoming ≡ net_bytes (length pkt) ++ (pkt ++ rest)
    → 4 + length pkt + length d.reads ≤ fuel
    → (e : Descriptor) × (recv_data_pkt fuel pktlen d ≡ done (none, e))
      × (e.incoming ≡ rest)
      × (e.sent ≡ d.sent)
unfolding recv_data_pkt
recv_data_pkt_rejects fuel pktlen pkt rest d small ne q h enough =
    let (e, r, i, t) =
      recv_length fuel (length pkt) (pkt ++ rest) d (omega arith) q h (omega arith) in
    let room : length pkt ≤ length e.incoming = rw i (omega (arith, length-append pkt rest)) in
    let (f, s, u) =
      recv_and_discard_bytes_exact fuel (length pkt) e t.quiet room (omega (arith, t.fewer)) in
    (
      f,
      ap (λ m. m >>= (λ x. recv_payload fuel pktlen (net_value x.0) x.1)) r
          ∙ ap (λ n. recv_payload fuel pktlen n e) (net_value-net_bytes (length pkt) (omega arith))
          ∙ recv_payload_other fuel pktlen (length pkt) e f ne (ground arith) s,
      u.incoming_eq ∙ rw i (drop-append_left pkt rest),
      u.sent_eq ∙ t.sent_eq,
    )
