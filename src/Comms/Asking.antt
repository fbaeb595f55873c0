-- ===== src/Comms/Asking.antt =====
-- comms.c: sending a packet takes one response, whatever the calls on the descriptor do.
use risu.Prelude.{
  ℕ, zero, suc, ◌+◌, ◌≡◌, refl, subst, ◌∙◌, List, [], ◌∷◌, Option, none, some, drop, take, min,
  arith,
}
use risu.Prelude.Outcome.{Outcome, done, exits, Always, Always-bind, Always-if}
use risu.Comms.{
  IoEvent, whole, short, interrupted, failed, Descriptor, next_event, later_events, read_by,
  write_by, sys_read, sys_write, read_response, send_data_pkt, safe_writev, writev_round, advance,
  gather, Iovec,
}

incoming-write_by :
    (e : IoEvent) (bytes : List ℕ) (d : Descriptor) → (write_by e bytes d).1.incoming ≡ d.incoming
unfolding write_by
incoming-write_by whole bytes d = refl
incoming-write_by (short k) bytes d = refl
incoming-write_by interrupted bytes d = refl
incoming-write_by failed bytes d = refl

module _ (s : List ℕ) where
  abbrev Waiting : Descriptor → Type 0
  Waiting d = d.incoming ≡ s

  abbrev WaitingAfter : Option ℕ × Descriptor → Type 0
  WaitingAfter (x, d) = Waiting d

  writev_round-Waiting :
      (again : List Iovec → ℕ → Descriptor → Outcome (Option ℕ × Descriptor)) (iov : List Iovec)
      (r : ℕ) (q : Option ℕ × Descriptor)
      → Waiting q.1
      → ((v : List Iovec) (k : ℕ) (d : Descriptor) → Waiting d → Always WaitingAfter (again v k d))
      → Always WaitingAfter (writev_round again iov r q)
  unfolding writev_round
  writev_round-Waiting again iov r (none, d) e h =
      Always-if WaitingAfter d.eintr _ _ (λ c. h iov r d e) (λ c. e)
  writev_round-Waiting again iov r (some i, d) e h = by_rest (advance i iov)
    where
      by_rest :
          (vs : List Iovec)
          → Always WaitingAfter
              (elim vs [ [] ↦ done (some (r + i), d) | v ∷ ws ↦ again (v ∷ ws) (r + i) d ])
      by_rest [] = e
      by_rest (v ∷ ws) = h (v ∷ ws) (r + i) d e

  safe_writev-Waiting :
      (fuel : ℕ) (iov : List Iovec) (r : ℕ) (d : Descriptor)
      → Waiting d
      → Always WaitingAfter (safe_writev fuel iov r d)
  unfolding safe_writev sys_write
  safe_writev-Waiting zero iov r d e = tt
  safe_writev-Waiting (suc fuel) iov r d e =
      writev_round-Waiting (safe_writev fuel) iov r (sys_write (gather iov) d)
        (incoming-write_by (next_event d.writes) (gather iov)
            (record d { writes = later_events d.writes })
          ∙ e)
        (safe_writev-Waiting fuel)

-- The response is the next byte.
abbrev pub TookOne : List ℕ → ℕ × Descriptor → Type 0
TookOne s (b, d) = s ≡ b ∷ d.incoming

read_response-TookOne : (d : Descriptor) → Always (TookOne d.incoming) (read_response d)
unfolding read_response sys_read read_by
read_response-TookOne d = by_event (next_event d.reads) d.incoming
  where
    one : (k : ℕ) → 1 ≡ min 1 (suc k)
    one k = omega arith

    first :
        (l : List ℕ)
        → Always (TookOne l) (elim (take 1 l) [
          | [] ↦ exits
          | b ∷ _ ↦ done (b, record d { incoming = drop 1 l; reads = later_events d.reads })
        ])
    first [] = tt
    first (b ∷ l) = refl

    by_event :
        (e : IoEvent) (l : List ℕ)
        → Always (TookOne l) (
            let r = read_by e 1 (record d { incoming = l; reads = later_events d.reads }) in
            elim r.0 [ none ↦ exits | some [] ↦ exits | some (b ∷ _) ↦ done (b, r.1) ])
    by_event whole [] = tt
    by_event whole (b ∷ l) = refl
    by_event (short k) l =
        subst
          (λ m. Always (TookOne l) (elim (take m l) [
            | [] ↦ exits
            | b ∷ _ ↦ done (b, record d { incoming = drop m l; reads = later_events d.reads })
          ]))
          (one k) (first l)
    by_event interrupted l = tt
    by_event failed l = tt

pub send_data_pkt-TookOne :
    (fuel : ℕ) (pkt : List ℕ) (n : ℕ) (d : Descriptor)
    → Always (TookOne d.incoming) (send_data_pkt fuel pkt n d)
unfolding send_data_pkt
send_data_pkt-TookOne fuel pkt n d =
    Always-bind (λ x. x.1.incoming ≡ d.incoming) (TookOne d.incoming) _ _
      (safe_writev-Waiting d.incoming fuel _ 0 d refl) answered
  where
    answered :
        (x : Option ℕ × Descriptor)
        → x.1.incoming ≡ d.incoming
        → Always (TookOne d.incoming) (elim x.0 [ none ↦ exits | some _ ↦ read_response x.1 ])
    answered (none, e) h = tt
    answered (some k, e) h =
        subst (λ l. Always (TookOne l) (read_response e)) h (read_response-TookOne e)
