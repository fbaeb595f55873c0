-- ===== src/Comms/Sending.antt =====
-- comms.c: what `safe_writev` puts on the wire, with and without short writes.
use native.Mathlib.Nat.{le_refl}
use mathlib.Core.Path.{ap₂}
use mathlib.Core.List.{append-nil, append_assoc}
use risu.Prelude.{
  ℕ, zero, suc, ◌+◌, ◌-◌, ◌≤◌, ◌<◌, ◌≡◌, refl, ap, ◌∙◌, ◌⊎◌, inl, inr, true, List, [], ◌∷◌, ◌++◌,
  none, some, length, take, min, arith, if◌then◌else◌, length-take, length-append, take-append_add,
  take_all, le→leb, lt→not_leb,
}
use risu.Prelude.Outcome.{Outcome, done}
use risu.Comms.{
  IoEvent, whole, short, interrupted, failed, Descriptor, Iovec, next_event, later_events, write_by,
  gather, advance, sys_write, writev_round, safe_writev,
}

-- Writes that are interrupted at most.
abbrev pub Unbroken : List IoEvent → Type 0
Unbroken [] = Unit {0}
Unbroken (whole ∷ es) = Unbroken es
Unbroken (interrupted ∷ es) = Unbroken es
Unbroken (short k ∷ es) = ⊥
Unbroken (failed ∷ es) = ⊥

-- Each block lies in its object.
abbrev pub InBounds : List Iovec → Type 0
InBounds [] = Unit {0}
InBounds (v ∷ vs) = (v.len ≤ length v.base) × InBounds vs

advance_all : (iov : List Iovec) → InBounds iov → advance (length (gather iov)) iov ≡ []
unfolding gather advance
advance_all [] h = refl
advance_all (v ∷ vs) (h, hs) =
    let e : length (take v.len v.base ++ gather vs) ≡ v.len + length (gather vs) =
      omega (arith, length-append (take v.len v.base) (gather vs), length-take v.len v.base) in
    rw (e, le→leb v.len (v.len + length (gather vs)) (omega arith))
      (ap (λ (i : ℕ). advance i vs) (omega arith) ∙ advance_all vs hs)

writev_round_all :
    (again : List Iovec → ℕ → Descriptor → Outcome _) (iov : List Iovec) (r : ℕ) (e : Descriptor)
    → InBounds iov
    → writev_round again iov r (some (length (gather iov)), e)
      ≡ done (some (r + length (gather iov)), e)
unfolding writev_round
writev_round_all again iov r e h = rw (advance_all iov h, writev_round)

writev_round_again :
    (again : List Iovec → ℕ → Descriptor → Outcome _) (iov : List Iovec) (r : ℕ) (e : Descriptor)
    → e.eintr ≡ true
    → writev_round again iov r (none, e) ≡ again iov r e
unfolding writev_round
writev_round_again again iov r e h = ap (λ b. if b then again iov r e else done (none, e)) h

sys_write_by :
    (e : IoEvent) (bytes : List ℕ) (d : Descriptor)
    → next_event d.writes ≡ e
    → sys_write bytes d ≡ write_by e bytes (record d { writes = later_events d.writes })
unfolding sys_write
sys_write_by e bytes d h =
    ap (λ x. write_by x bytes (record d { writes = later_events d.writes })) h

Unbroken-cases :
    (es : List IoEvent)
    → Unbroken es
    → (next_event es ≡ whole)
      ⊎ ((next_event es ≡ interrupted)
          × Unbroken (later_events es)
          × (length (later_events es) < length es))
Unbroken-cases [] u = inl refl
Unbroken-cases (whole ∷ es) u = inl refl
Unbroken-cases (interrupted ∷ es) u = inr (refl, u, omega arith)
Unbroken-cases (short k ∷ es) u = absurd u
Unbroken-cases (failed ∷ es) u = absurd u

-- If no write is short and none fails, safe_writev sends the blocks one behind the other, once,
-- and counts their bytes; interrupted writes are made again, as long as there are more rounds than
-- events. The blocks lie in their objects.
pub safe_writev-Unbroken :
    (fuel : ℕ) (iov : List Iovec) (r : ℕ) (d : Descriptor)
    → InBounds iov
    → Unbroken d.writes
    → length d.writes < fuel
    → (e : Descriptor) × (safe_writev fuel iov r d ≡ done (some (r + length (gather iov)), e))
      × (e.sent ≡ d.sent ++ gather iov)
      × (e.incoming ≡ d.incoming)
      × (e.reads ≡ d.reads)
unfolding safe_writev write_by
safe_writev-Unbroken zero iov r d b u enough = absurd (omega arith)
safe_writev-Unbroken (suc fuel) iov r d b u enough = elim (Unbroken-cases d.writes u) [
  | inl h ↦ (
    record d { sent = d.sent ++ gather iov; writes = later_events d.writes },
    rw (sys_write_by whole (gather iov) d h) (writev_round_all (safe_writev fuel) iov r _ b),
    refl,
    refl,
    refl,
  )
  | inr (h, v, l) ↦
      let d' : Descriptor = record d { writes = later_events d.writes; eintr = true } in
      let (e, x, s, i, t) = safe_writev-Unbroken fuel iov r d' b v (omega arith) in
      (
        e,
        rw (sys_write_by interrupted (gather iov) d h)
            (writev_round_again (safe_writev fuel) iov r d' refl ∙ x),
        s,
        i,
        t,
      )
]

abbrev block : List ℕ → Iovec
block xs = record { base = xs; len = length xs }

gather_pair : (front pkt : List ℕ) → gather (block front ∷ block pkt ∷ []) ≡ front ++ pkt
unfolding gather
gather_pair front pkt =
    ap₂ ◌++◌ (take_all (length front) front (le_refl _))
      (append-nil _ ∙ take_all (length pkt) pkt (le_refl _))

advance_pair :
    (j : ℕ) (front pkt : List ℕ)
    → j < length pkt
    → advance (length front + j) (block front ∷ block pkt ∷ [])
      ≡ record { base = pkt; len = length pkt - j } ∷ []
unfolding advance
advance_pair j front pkt lt =
    let e : length front + j - length front ≡ j = omega arith in
    rw (le→leb (length front) (length front + j) (omega arith), e, lt→not_leb (length pkt) j lt)
      refl

writev_round_rest :
    (again : List Iovec → ℕ → Descriptor → Outcome _) (iov : List Iovec) (i : ℕ) (e : Descriptor)
    (v : Iovec)
    → advance i iov ≡ v ∷ []
    → writev_round again iov 0 (some i, e) ≡ again (v ∷ []) (0 + i) e
unfolding writev_round
writev_round_rest again iov i e v h = rw (h, writev_round)

sys_write_short :
    (k : ℕ) (bytes : List ℕ) (d : Descriptor)
    → d.writes ≡ short k ∷ []
    → sys_write bytes d ≡ (
      some (min (length bytes) (suc k)),
      record d { sent = d.sent ++ take (suc k) bytes; writes = [] },
    )
unfolding sys_write
sys_write_short k bytes d h = rw (h, sys_write)

-- A write that stops inside the second of two blocks, `j` bytes into it: the rest of that block is
-- then sent from its first byte on, not from byte `j`, since only iov_len is moved forward. All
-- bytes are counted, so the caller sees no error.
pub safe_writev_short :
    (fuel j : ℕ) (front pkt : List ℕ) (d : Descriptor)
    → d.writes ≡ short (length front + j - 1) ∷ []
    → 0 < j
    → j < length pkt
    → (e : Descriptor) × (safe_writev (suc (suc fuel)) (block front ∷ block pkt ∷ []) 0 d
        ≡ done (some (length front + length pkt), e))
      × (e.sent ≡ d.sent ++ (front ++ (take j pkt ++ take (length pkt - j) pkt)))
unfolding safe_writev write_by gather
safe_writev_short fuel j front pkt d h pos lt = (
  d2,
  ap (λ x. writev_round (safe_writev (suc fuel)) iov 0 x) first
      ∙ writev_round_rest (safe_writev (suc fuel)) iov (length front + j) d1 v
          (advance_pair j front pkt lt)
      ∙ ap (λ x. writev_round (safe_writev fuel) (v ∷ []) (0 + (length front + j)) x) second
      ∙ writev_round_all (safe_writev fuel) (v ∷ []) (0 + (length front + j)) d2 (omega arith)
      ∙ ap (λ n. done (some n, d2)) (omega (arith, counted)),
  append_assoc d.sent _ _
      ∙ ap (◌++◌ d.sent)
          (append_assoc front _ _ ∙ ap (λ ys. front ++ (take j pkt ++ ys)) (append-nil _)),
)
  where
    iov : List Iovec
    iov = block front ∷ block pkt ∷ []

    v : Iovec
    v = record { base = pkt; len = length pkt - j }

    d1 : Descriptor
    d1 = record d { sent = d.sent ++ (front ++ take j pkt); writes = [] }

    d2 : Descriptor
    d2 = record d1 { sent = d1.sent ++ gather (v ∷ []) }

    first : sys_write (gather iov) d ≡ (some (length front + j), d1)
    first =
        ap (λ bytes. sys_write bytes d) (gather_pair front pkt)
        ∙ sys_write_short (length front + j - 1) (front ++ pkt) d h
        ∙ ap₂ (λ n xs. (some n, record d { sent = d.sent ++ xs; writes = [] }))
            (omega (arith, length-append front pkt))
            (take-append_add front pkt (suc (length front + j - 1)) j (omega arith))

    second : sys_write (gather (v ∷ [])) d1 ≡ (some (length (gather (v ∷ []))), d2)
    second = sys_write_by whole (gather (v ∷ [])) d1 refl

    counted : length (gather (v ∷ [])) ≡ length pkt - j
    counted =
        ap length (append-nil (take (length pkt - j) pkt))
        ∙ omega (arith, length-take (length pkt - j) pkt)
