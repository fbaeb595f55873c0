-- ===== src/Comms/Bounds.antt =====
-- comms.c: reading never stores more bytes than were asked for.
use risu.Prelude.{
  ◌^◌, ltb, inl, inr, subst, sym, if_true, if_false, ℕ, zero, suc, ◌-◌, ◌≤◌, ◌≡◌, refl, Bool, true,
  false, List, [], ◌∷◌, Option, none, some, ◌==◌, length, length-take, length-append, arith, min,
  Bool-cases,
}
use risu.Prelude.Outcome.{Outcome, Always, Always-bind, Always-if, Always-any}
use risu.Comms.{
  IoEvent, whole, short, interrupted, failed, Descriptor, next_event, later_events, read_by,
  sys_read, retry, recv_round, recv_bytes, net_value, recv_payload, recv_and_discard_bytes,
  recv_data_pkt,
}

-- At most n bytes.
unfoldable pub AtMost : ℕ → Option (List ℕ) → Type 0
AtMost n none = Unit {0}
AtMost n (some got) = length got ≤ n

read_by-AtMost : (e : IoEvent) (n : ℕ) (d : Descriptor) → AtMost n (read_by e n d).0
unfolding AtMost read_by
read_by-AtMost whole n d = omega (arith, length-take n d.incoming)
read_by-AtMost (short k) n d = omega (arith, length-take (min n (suc k)) d.incoming)
read_by-AtMost interrupted n d = tt
read_by-AtMost failed n d = tt

pub sys_read-AtMost : (n : ℕ) (d : Descriptor) → AtMost n (sys_read n d).0
unfolding sys_read
sys_read-AtMost n d =
    read_by-AtMost (next_event d.reads) n (record d { reads = later_events d.reads })

-- So many bytes.
pub Exactly : ℕ → List ℕ × Descriptor → Type 0
Exactly n (got, d) = length got ≡ n

retry-Always :
    (P : List ℕ × Descriptor → Type 0) (b : Bool) (again : Outcome (List ℕ × Descriptor))
    → Always P again
    → Always P (retry b again)
retry-Always P true again h = h
retry-Always P false again h = tt

recv_round-Exactly :
    (again : ℕ → Descriptor → Outcome (List ℕ × Descriptor)) (n : ℕ)
    (r : Option (List ℕ) × Descriptor)
    → AtMost (suc n) r.0
    → ((k : ℕ) (d : Descriptor) → Always (Exactly k) (again k d))
    → Always (Exactly (suc n)) (recv_round again n r)
unfolding recv_round AtMost Exactly
recv_round-Exactly again n (none, d) le h = retry-Always (Exactly (suc n)) d.eintr _ (h (suc n) d)
recv_round-Exactly again n (some [], d) le h =
    retry-Always (Exactly (suc n)) d.eintr _ (h (suc n) d)
recv_round-Exactly again n (some (b ∷ bs), d) le h =
    Always-bind (Exactly (n - length bs)) (Exactly (suc n)) (again (n - length bs) d) _
      (h (n - length bs) d) (λ r e. omega (arith, length-append bs r.0))

pub recv_bytes-Exactly : (fuel n : ℕ) (d : Descriptor) → Always (Exactly n) (recv_bytes fuel n d)
unfolding recv_bytes Exactly
recv_bytes-Exactly fuel zero d = refl
recv_bytes-Exactly zero (suc n) d = tt
recv_bytes-Exactly (suc fuel) (suc n) d =
    recv_round-Exactly (recv_bytes fuel) n (sys_read (suc n) d) (sys_read-AtMost (suc n) d)
      (recv_bytes-Exactly fuel)

recv_payload-AtMost :
    (fuel n k : ℕ) (d : Descriptor) → Always (λ r. AtMost n r.0) (recv_payload fuel n k d)
unfolding recv_payload AtMost Exactly
recv_payload-AtMost fuel n k d = elim (Bool-cases (n == k)) [
  | inl e ↦ subst (Always (λ r. AtMost n r.0)) (sym (if_true (n == k) _ _ e)) (
      Always-bind (Exactly n) (λ r. AtMost n r.0) (recv_bytes fuel n d) _
        (recv_bytes-Exactly fuel n d) (λ r e. omega (arith, e)))
  | inr e ↦ subst (Always (λ r. AtMost n r.0)) (sym (if_false (n == k) _ _ e)) (
      Always-if (λ r. AtMost n r.0) (ltb k (2 ^ 31)) _ _
        (λ c.
          Always-bind (λ x. Unit {0}) (λ r. AtMost n r.0) (recv_and_discard_bytes fuel k d) _
            (Always-any (recv_and_discard_bytes fuel k d)) (λ r e. tt))
        (λ c. tt))
]

pub recv_data_pkt-AtMost :
    (fuel n : ℕ) (d : Descriptor) → Always (λ r. AtMost n r.0) (recv_data_pkt fuel n d)
unfolding recv_data_pkt
recv_data_pkt-AtMost fuel n d =
    Always-bind (Exactly 4) (λ r. AtMost n r.0) (recv_bytes fuel 4 d) _
      (recv_bytes-Exactly fuel 4 d) (λ r e. recv_payload-AtMost fuel n (net_value r.0) r.1)
