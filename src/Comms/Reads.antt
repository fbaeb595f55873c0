-- ===== src/Comms/Reads.antt =====
-- comms.c: one call of read, whatever of it the kernel serves, and what a descriptor has lost by it.
use native.Mathlib.Nat.{le_refl}
use risu.Prelude.{
  ℕ, suc, ◌+◌, ◌-◌, ◌≤◌, ◌≡◌, refl, ap, ◌∙◌, ◌⊎◌, inl, inr, true, List, [], ◌∷◌, none, some, length,
  take, drop, min, arith, drop-split,
}
use risu.Comms.{IoEvent, whole, short, interrupted, failed, Descriptor, sys_read}

-- Reads that are short or interrupted, but never fail.
abbrev pub Quiet : List IoEvent → Type 0
Quiet [] = Unit {0}
Quiet (failed ∷ es) = ⊥
Quiet (whole ∷ es) = Quiet es
Quiet (short k ∷ es) = Quiet es
Quiet (interrupted ∷ es) = Quiet es

-- `e` is `d` after `n` bytes were taken in.
pub record Took (n : ℕ) (d e : Descriptor) : Type 0 where
  pub incoming_eq : e.incoming ≡ drop n d.incoming
  pub sent_eq : e.sent ≡ d.sent
  pub writes_eq : e.writes ≡ d.writes
  pub quiet : Quiet e.reads
  pub fewer : length e.reads ≤ length d.reads

-- One read by the events that are left: a positive number of bytes arrives, or an event is spent.
abbrev pub Arrives : ℕ → Descriptor → Type 0
Arrives n d =
    (m : ℕ) × (e : Descriptor) × (m ≤ n)
    × (sys_read (suc n) d ≡ (some (take (suc m) d.incoming), e))
    × Took (suc m) d e

abbrev pub Interrupted : ℕ → Descriptor → Type 0
Interrupted n d =
    (e : Descriptor) × (sys_read (suc n) d ≡ (none, e))
    × (e.eintr ≡ true)
    × Took 0 d e
    × (length e.reads + 1 ≤ length d.reads)

pub read_by_events :
    (n : ℕ) (d : Descriptor) (es : List IoEvent)
    → d.reads ≡ es
    → Quiet es
    → Arrives n d ⊎ Interrupted n d
unfolding sys_read
read_by_events n d [] h q = inl (
  n,
  record d { reads = []; incoming = drop (suc n) d.incoming },
  le_refl n,
  rw (h, sys_read),
  record { incoming_eq = refl; sent_eq = refl; writes_eq = refl; quiet = tt; fewer = omega arith },
)
read_by_events n d (whole ∷ es) h q = inl (
  n,
  record d { reads = es; incoming = drop (suc n) d.incoming },
  le_refl n,
  rw (h, sys_read),
  record {
    incoming_eq = refl;
    sent_eq = refl;
    writes_eq = refl;
    quiet = q;
    fewer = rw h (omega arith);
  },
)
read_by_events n d (short k ∷ es) h q =
    let e : min (suc n) (suc k) ≡ suc (min n k) = omega arith in
    inl (
      min n k,
      record d { reads = es; incoming = drop (suc (min n k)) d.incoming },
      omega arith,
      rw (h, sys_read) (rw e refl),
      record {
        incoming_eq = refl;
        sent_eq = refl;
        writes_eq = refl;
        quiet = q;
        fewer = rw h (omega arith);
      },
    )
read_by_events n d (interrupted ∷ es) h q = inr (
  record d { reads = es; eintr = true },
  rw (h, sys_read),
  refl,
  record {
    incoming_eq = refl;
    sent_eq = refl;
    writes_eq = refl;
    quiet = q;
    fewer = rw h (omega arith);
  },
  rw h (omega arith),
)
read_by_events n d (failed ∷ es) h q = absurd q

pub Took-trans :
    (m n : ℕ) (d e f : Descriptor) → Took m d e → Took n e f → (k : ℕ) → m + n ≡ k → Took k d f
Took-trans m n d e f p q k h = record {
  incoming_eq =
      q.incoming_eq
      ∙ ap (drop n) p.incoming_eq
      ∙ ap (λ (i : ℕ). drop i (drop m d.incoming)) {x = n} {y = k - m} (omega arith)
      ∙ drop-split m k d.incoming (omega arith);
  sent_eq = q.sent_eq ∙ p.sent_eq;
  writes_eq = q.writes_eq ∙ p.writes_eq;
  quiet = q.quiet;
  fewer = omega (arith, p.fewer, q.fewer);
}
