-- ===== src/Comms/Silent.antt =====
-- comms.c: receiving sends nothing, and a response is one byte.
use risu.Prelude.{
  ◌^◌, ltb, ℕ, zero, suc, ◌-◌, ◌%◌, ◌≡◌, refl, ◌∙◌, Bool, true, false, List, [], ◌∷◌, ◌++◌, Option,
  none, some, ◌==◌, length, min, if◌then◌else◌,
}
use risu.Prelude.Outcome.{Outcome, done, exits, Always, Always-bind, Always-if}
use risu.Comms.{
  IoEvent, whole, short, interrupted, failed, Descriptor, next_event, later_events, read_by,
  write_by, sys_read, sys_write, retry, recv_round, discard_round, recv_bytes, net_value,
  recv_payload, recv_and_discard_bytes, recv_data_pkt, send_response_byte,
}

sent-read_by : (e : IoEvent) (n : ℕ) (d : Descriptor) → (read_by e n d).1.sent ≡ d.sent
unfolding read_by
sent-read_by whole n d = refl
sent-read_by (short k) n d = refl
sent-read_by interrupted n d = refl
sent-read_by failed n d = refl

sent-sys_read : (n : ℕ) (d : Descriptor) → (sys_read n d).1.sent ≡ d.sent
unfolding sys_read
sent-sys_read n d = sent-read_by (next_event d.reads) n (record d { reads = later_events d.reads })

module _ (s : List ℕ) where
  -- The bytes that were sent are those of `s`.
  abbrev Sent : Descriptor → Type 0
  Sent d = d.sent ≡ s

  retry-Sent :
      {A : Type 0} (P : A → Type 0) (b : Bool) (again : Outcome A)
      → Always P again
      → Always P (retry b again)
  retry-Sent P true again h = h
  retry-Sent P false again h = tt

  recv_round-Sent :
      (again : ℕ → Descriptor → Outcome (List ℕ × Descriptor)) (n : ℕ)
      (r : Option (List ℕ) × Descriptor)
      → Sent r.1
      → ((k : ℕ) (d : Descriptor) → Sent d → Always (λ q. Sent q.1) (again k d))
      → Always (λ q. Sent q.1) (recv_round again n r)
  unfolding recv_round
  recv_round-Sent again n (none, d) e h = retry-Sent (λ q. Sent q.1) d.eintr _ (h (suc n) d e)
  recv_round-Sent again n (some [], d) e h = retry-Sent (λ q. Sent q.1) d.eintr _ (h (suc n) d e)
  recv_round-Sent again n (some (b ∷ bs), d) e h =
      Always-bind (λ q. Sent q.1) (λ q. Sent q.1) (again (n - length bs) d) _
        (h (n - length bs) d e) (λ r k. k)

  recv_bytes-Sent :
      (fuel n : ℕ) (d : Descriptor) → Sent d → Always (λ q. Sent q.1) (recv_bytes fuel n d)
  unfolding recv_bytes
  recv_bytes-Sent fuel zero d e = e
  recv_bytes-Sent zero (suc n) d e = tt
  recv_bytes-Sent (suc fuel) (suc n) d e =
      recv_round-Sent (recv_bytes fuel) n (sys_read (suc n) d) (sent-sys_read (suc n) d ∙ e)
        (recv_bytes-Sent fuel)

  discard_round-Sent :
      (again : ℕ → Descriptor → Outcome Descriptor) (n : ℕ) (r : Option (List ℕ) × Descriptor)
      → Sent r.1
      → ((k : ℕ) (d : Descriptor) → Sent d → Always Sent (again k d))
      → Always Sent (discard_round again n r)
  unfolding discard_round
  discard_round-Sent again n (none, d) e h = retry-Sent Sent d.eintr _ (h (suc n) d e)
  discard_round-Sent again n (some [], d) e h = retry-Sent Sent d.eintr _ (h (suc n) d e)
  discard_round-Sent again n (some (b ∷ bs), d) e h = h (n - length bs) d e

  discard-Sent :
      (fuel n : ℕ) (d : Descriptor) → Sent d → Always Sent (recv_and_discard_bytes fuel n d)
  unfolding recv_and_discard_bytes
  discard-Sent fuel zero d e = e
  discard-Sent zero (suc n) d e = tt
  discard-Sent (suc fuel) (suc n) d e =
      discard_round-Sent (recv_and_discard_bytes fuel) n (sys_read (min 64 (suc n)) d)
        (sent-sys_read (min 64 (suc n)) d ∙ e) (discard-Sent fuel)

  pub recv_data_pkt-Sent :
      (fuel n : ℕ) (d : Descriptor) → Sent d → Always (λ q. Sent q.1) (recv_data_pkt fuel n d)
  unfolding recv_data_pkt recv_payload
  recv_data_pkt-Sent fuel n d e =
      Always-bind (λ q. Sent q.1) (λ q. Sent q.1) (recv_bytes fuel 4 d) _
        (recv_bytes-Sent fuel 4 d e)
        (λ r k.
          Always-if (λ q. Sent q.1) (n == net_value r.0) _ _
            (λ c.
              Always-bind (λ q. Sent q.1) (λ q. Sent q.1) (recv_bytes fuel n r.1) _
                (recv_bytes-Sent fuel n r.1 k) (λ q h. h))
            (λ c.
              Always-if (λ q. Sent q.1) (ltb (net_value r.0) (2 ^ 31)) _ _
                (λ c.
                  Always-bind Sent (λ q. Sent q.1) (recv_and_discard_bytes fuel (net_value r.0) r.1)
                    _ (discard-Sent fuel (net_value r.0) r.1 k) (λ q h. h))
                (λ c. tt)))

-- A response that is sent at all is sent as one byte.
pub send_response_byte-one :
    (resp : ℕ) (d : Descriptor)
    → Always (λ e. e.sent ≡ d.sent ++ resp % 256 ∷ []) (send_response_byte resp d)
unfolding send_response_byte sys_write write_by
send_response_byte-one resp d = by_event (next_event d.writes)
  where
    by_event :
        (e : IoEvent)
        → Always
            (λ q. q.sent ≡ d.sent ++ resp % 256 ∷ [])
            (let r = write_by e (resp % 256 ∷ []) (record d { writes = later_events d.writes }) in
              elim r.0 [ none ↦ exits | some n ↦ if n == 1 then done r.1 else exits ])
    by_event whole = refl
    by_event (short zero) = refl
    by_event (short (suc k)) = Always-if _ (min 1 (suc (suc k)) == 1) _ _ (λ c. refl) (λ c. tt)
    by_event interrupted = tt
    by_event failed = tt
