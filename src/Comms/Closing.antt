-- ===== src/Comms/Closing.antt =====
-- comms.c: what `recv_bytes` does when the other end closes the connection too early.
use risu.Prelude.{
  ℕ, zero, suc, ◌-◌, ◌<◌, ◌≡◌, refl, ap, ◌∙◌, true, List, [], ◌∷◌, ◌++◌, some, length, take, drop,
  arith, length-take, length-drop,
}
use risu.Prelude.Outcome.{Outcome, done, hangs, ◌>>=◌}
use risu.Comms.{Descriptor, sys_read, retry, recv_round, recv_bytes}

sys_read_undisturbed :
    (n : ℕ) (d : Descriptor)
    → d.reads ≡ []
    → sys_read n d
      ≡ (some (take n d.incoming), record d { incoming = drop n d.incoming; reads = [] })
unfolding sys_read
sys_read_undisturbed n d h = rw (h, sys_read)

-- One round at a stream that ends too early: all that is left arrives, or nothing.
stale_round :
    (again : ℕ → Descriptor → Outcome (List ℕ × Descriptor)) (n : ℕ) (xs : List ℕ) (e : Descriptor)
    → length xs < suc n
    → e.eintr ≡ true
    → ((m : ℕ) → 0 < m → again m e ≡ hangs)
    → recv_round again n (some (take (suc n) xs), e) ≡ hangs
unfolding recv_round
stale_round again n [] e h k loop =
    ap (λ b. retry b (again (suc n) e)) k ∙ loop (suc n) (omega arith)
stale_round again n (x ∷ xs) e h k loop =
    ap (λ m. m >>= (λ r. done ((x ∷ take n xs) ++ r.0, r.1)))
      (loop (n - length (take n xs)) (omega (arith, length-take n xs)))

-- If errno is EINTR from an earlier call and the stream ends too early, with no more disturbed
-- reads, recv_bytes takes the end of the stream for an interrupted call and does not return within
-- any number of rounds.
pub recv_bytes_stale_errno :
    (fuel n : ℕ) (d : Descriptor)
    → d.reads ≡ []
    → length d.incoming < n
    → d.eintr ≡ true
    → recv_bytes fuel n d ≡ hangs
unfolding recv_bytes
recv_bytes_stale_errno fuel zero d h lt e = absurd (omega arith)
recv_bytes_stale_errno zero (suc n) d h lt e = refl
recv_bytes_stale_errno (suc fuel) (suc n) d h lt e =
    let d' : Descriptor = record d { incoming = drop (suc n) d.incoming; reads = [] } in
    rw (sys_read_undisturbed (suc n) d h) (
      stale_round (recv_bytes fuel) n d.incoming d' lt e λ m pos.
        recv_bytes_stale_errno fuel m d' refl (omega (arith, length-drop (suc n) d.incoming)) e)
