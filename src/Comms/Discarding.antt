-- ===== src/Comms/Discarding.antt =====
-- comms.c: what recv_and_discard_bytes takes out of the stream.
use risu.Prelude.{
  ℕ, zero, suc, ◌+◌, ◌-◌, ◌≤◌, ◌≡◌, refl, ap, ◌∙◌, inl, inr, true, List, [], ◌∷◌, none, some,
  length, take, min, arith, length-take, length-drop,
}
use risu.Prelude.Outcome.{Outcome, done}
use risu.Comms.{Descriptor, sys_read, retry, discard_round, recv_and_discard_bytes}
use risu.Comms.Reads.{Quiet, Took, Took-trans, read_by_events}

discard_round_more :
    (again : ℕ → Descriptor → Outcome Descriptor) (n m : ℕ) (e f : Descriptor) (xs : List ℕ)
    → suc m ≤ length xs
    → again (n - m) e ≡ done f
    → discard_round again n (some (take (suc m) xs), e) ≡ done f
unfolding discard_round
discard_round_more again n m e f [] room k = absurd (omega arith)
discard_round_more again n m e f (x ∷ xs) room k =
    let l : length (take m xs) ≡ m = omega (arith, length-take m xs) in rw l k

discard_round_again :
    (again : ℕ → Descriptor → Outcome Descriptor) (n : ℕ) (e : Descriptor)
    → e.eintr ≡ true
    → discard_round again n (none, e) ≡ again (suc n) e
unfolding discard_round
discard_round_again again n e k = ap (λ b. retry b (again (suc n) e)) k

-- recv_and_discard_bytes takes exactly the next `n` bytes of the stream through short and
-- interrupted reads, if no read fails, the stream holds so many bytes and enough rounds are given.
pub recv_and_discard_bytes_exact :
    (fuel n : ℕ) (d : Descriptor)
    → Quiet d.reads
    → n ≤ length d.incoming
    → n + length d.reads ≤ fuel
    → (e : Descriptor) × (recv_and_discard_bytes fuel n d ≡ done e) × Took n d e
unfolding recv_and_discard_bytes
recv_and_discard_bytes_exact fuel zero d q room enough = (
  d,
  refl,
  record { incoming_eq = refl; sent_eq = refl; writes_eq = refl; quiet = q; fewer = omega arith },
)
recv_and_discard_bytes_exact zero (suc n) d q room enough = absurd (omega arith)
recv_and_discard_bytes_exact (suc fuel) (suc n) d q room enough =
    let len : min 64 (suc n) ≡ suc (min 63 n) = omega arith in
    elim (read_by_events (min 63 n) d d.reads refl q) [
      | inl (m, e, h, s, t) ↦
          let l : length e.incoming ≡ length d.incoming - suc m =
            ap length t.incoming_eq ∙ length-drop (suc m) d.incoming in
          let (f, r, u) =
            recv_and_discard_bytes_exact fuel (n - m) e t.quiet (omega arith)
              (omega (arith, t.fewer)) in
          (
            f,
            ap (λ k. discard_round (recv_and_discard_bytes fuel) n (sys_read k d)) len
                ∙ rw s (
                    discard_round_more (recv_and_discard_bytes fuel) n m e f d.incoming
                      (omega arith) r),
            Took-trans (suc m) (n - m) d e f t u (suc n) (omega arith),
          )
      | inr (e, s, k, t, l) ↦
          let (f, r, u) =
            recv_and_discard_bytes_exact fuel (suc n) e t.quiet
              (omega (arith, ap length t.incoming_eq)) (omega arith) in
          (
            f,
            ap (λ k. discard_round (recv_and_discard_bytes fuel) n (sys_read k d)) len
                ∙ rw s (discard_round_again (recv_and_discard_bytes fuel) n e k ∙ r),
            Took-trans 0 (suc n) d e f t u (suc n) (omega arith),
          )
    ]
