-- ===== src/Ppc64/Agreement.antt =====
-- risu_reginfo_ppc64.c: how reginfo_is_eq and reginfo_dump_mismatch agree.
use risu.Prelude.{
  ap, sym, subst, ◌∙◌, inl, inr, Bool-cases, if_true, ℕ, ◌-◌, ◌^◌, ◌≤◌, ◌<◌, ◌≡◌, ◌↔◌, refl, true,
  false, ◌&&◌, ◌||◌, not, if◌then◌else◌, ◌==◌, ltb, arith, [],
}
use risu.Risu.Op.{op_code}
use risu.Ppc64.{Reginfo, Masks, get_risuop}
use risu.Ppc64.Rules.{selected}
use risu.Ppc64.Compare.{
  Checked, minus_32, local_gregs_mask, check_greg, check_xer, check_branches, check_ccr, check_mq,
  check_fpscr, check_fpreg, reginfo_is_eq,
}
use risu.Ppc64.Chain.{and_then-unchanged, check_from-unchanged}
use risu.Ppc64.Dump.{reginfo_dump_mismatch}
use risu.Ppc64.Silent.{Silent, reginfo_dump_mismatch-Silent, Silent-reginfo_dump_mismatch}
use risu.Ppc64.Passed.{Passed, reginfo_is_eq-Passed}
use risu.Ppc64.Matched.{
  last, general, passed-greg, passed-fpreg, passed-fpscr, passed-mq, passed-ccr, passed-xer,
  passed-branches,
}
use risu.Ppc64.Verdict.{
  Difference, in_greg, in_ctr, in_xer, in_ccr, in_mq, in_lnk, in_fpreg, in_fpscr,
  reginfo_is_eq-Difference,
}

-- `b` is what becomes of `a`: all that is compared, register i included, is as in `m`.
pub Matches : ℕ → Reginfo → Reginfo → ℕ → Reginfo → Type 0
Matches mask m a i b =
    (b.gregs i ≡ (if selected mask i then m.gregs i else a.gregs i))
    × (b.fpregs i ≡ m.fpregs i)
    × (b.fpscr ≡ m.fpscr)
    × (b.gregs 34 ≡ m.gregs 34)
    × (minus_32 (b.gregs 35) (b.gregs 32) ≡ minus_32 (m.gregs 35) (m.gregs 32))
    × (b.gregs 36 ≡ m.gregs 36)
    × (b.gregs 37 ≡ m.gregs 37)
    × (b.gregs 38 ≡ m.gregs 38)

module _ (k : Masks) (signal_count : ℕ) (m a : Reginfo) where
  last-Matches :
      (i : ℕ)
      → i < 32
      → Passed k signal_count m a
      → Matches (local_gregs_mask k a) m a i (last k signal_count m a)
  unfolding Matches
  last-Matches i lt p =
      let b = last k signal_count m a in
      let low : (j : ℕ)
          → (j == 36) ≡ false
          → (j == 37) ≡ false
          → (j == 38) ≡ false
          → b.gregs j
            ≡ (if ltb j 32 && selected (local_gregs_mask k a) j then m.gregs j else a.gregs j) =
        λ j x y z. general k signal_count m a j x y z ∙ passed-greg k signal_count m a p j in
      let (lnk, ctr) = passed-branches k signal_count m a p in
      (
        low i (ground arith) (ground arith) (ground arith) ∙ ground arith,
        passed-fpreg k signal_count m a p i lt,
        passed-fpscr k signal_count m a p,
        low 34 refl refl refl ∙ sym ctr,
        ap (λ x. minus_32 x (b.gregs 32)) (low 35 refl refl refl)
            ∙ ap (λ x. minus_32 (a.gregs 35) x) (low 32 refl refl refl)
            ∙ sym lnk,
        passed-xer k signal_count m a p,
        passed-ccr k signal_count m a p,
        passed-mq k signal_count m a p,
      )

  -- On PowerPC, when the comparison succeeds, whatever masks, options and tolerances are in force,
  -- it leaves a second structure that is as the first: each general register that is compared, and
  -- the others as they were; every floating-point register, FPSCR, CTR, XER, CCR and MQ; and LNK
  -- relative to NIP.
  pub reginfo_is_eq-Matches :
      (i : ℕ)
      → i < 32
      → (reginfo_is_eq k signal_count m a).0 ≡ true
      → Matches (local_gregs_mask k a) m a i (reginfo_is_eq k signal_count m a).1
  reginfo_is_eq-Matches i lt h =
      let p = reginfo_is_eq-Passed k signal_count m a h in
      subst (λ (c : Checked). Matches (local_gregs_mask k a) m a i c.1) (sym p.result)
        (last-Matches i lt p)

  -- Whatever makes the comparison fail is in the report.
  Silent-Difference : (b : Reginfo) → Silent k m b → Difference k.gregs_mask m b → ⊥
  Silent-Difference b s (in_greg j lt x y) = ground (arith, s.gregs_same j lt)
  Silent-Difference b s (in_ctr x) = ground (arith, s.ctr_same)
  Silent-Difference b s (in_xer x) = ground (arith, s.xer_same)
  Silent-Difference b s (in_ccr x) = ground (arith, s.ccr_same)
  Silent-Difference b s (in_mq x) = ground (arith, s.mq_same)
  Silent-Difference b s (in_lnk x) = ground (arith, s.lnk_same)
  Silent-Difference b s (in_fpreg j lt x) = ground (arith, s.fpregs_same j lt)
  Silent-Difference b s (in_fpscr x) = ground (arith, s.fpscr_same)

  plain_mask : (op_code (get_risuop a) == 2 ^ 32 - 1) ≡ false → local_gregs_mask k a ≡ k.gregs_mask
  unfolding local_gregs_mask
  plain_mask h = ground arith

  unchanged_greg :
      Silent k m a
      → local_gregs_mask k a ≡ k.gregs_mask
      → (j : ℕ) → 0 ≤ j
      → j < 32
      → check_greg (local_gregs_mask k a) m j a ≡ (true, a)
  unfolding check_greg
  unchanged_greg s e j ge lt =
      if_true _ _ _ (
        ap (λ x. m.gregs j == a.gregs j || not (selected x j)) e
        ∙ ground (arith, s.gregs_same j lt))

  unchanged_fpreg : Silent k m a → (j : ℕ) → 0 ≤ j → j < 32 → check_fpreg k m j a ≡ (true, a)
  unfolding check_fpreg
  unchanged_fpreg s j ge lt = if_true _ _ _ (s.fpregs_same j lt)

  unchanged_xer : Silent k m a → check_xer k m a ≡ (true, a)
  unfolding check_xer
  unchanged_xer s = if_true _ _ _ s.xer_same

  unchanged_ccr : Silent k m a → check_ccr k m a ≡ (true, a)
  unfolding check_ccr
  unchanged_ccr s = if_true _ _ _ s.ccr_same

  unchanged_mq : Silent k m a → check_mq k signal_count m a ≡ (true, a)
  unfolding check_mq
  unchanged_mq s = if_true _ _ _ s.mq_same

  unchanged_fpscr : Silent k m a → check_fpscr k m a ≡ (true, a)
  unfolding check_fpscr
  unchanged_fpscr s = if_true _ _ _ s.fpscr_same

  unchanged_branches : Silent k m a → check_branches m a ≡ (true, a)
  unfolding check_branches
  unchanged_branches s =
      let both : (minus_32 (m.gregs 35) (m.gregs 32) == minus_32 (a.gregs 35) (a.gregs 32)
            && m.gregs 34 == a.gregs 34)
          ≡ true =
        ground (arith, s.lnk_same, s.ctr_same) in
      ap (λ x. (x, a)) both

  -- With nothing to report, every part leaves the structure as it is.
  Silent-unchanged :
      Silent k m a
      → local_gregs_mask k a ≡ k.gregs_mask
      → reginfo_is_eq k signal_count m a ≡ (true, a)
  unfolding reginfo_is_eq
  Silent-unchanged s e =
      and_then-unchanged _ _ a
        (check_from-unchanged (check_greg (local_gregs_mask k a) m) 32 0 a (unchanged_greg s e))
      ∙ and_then-unchanged _ _ a (unchanged_xer s)
      ∙ and_then-unchanged _ _ a (unchanged_branches s)
      ∙ and_then-unchanged _ _ a (unchanged_ccr s)
      ∙ and_then-unchanged _ _ a (unchanged_mq s)
      ∙ and_then-unchanged _ _ a (unchanged_fpscr s)
      ∙ check_from-unchanged (check_fpreg k m) 32 0 a (unchanged_fpreg s)

  -- On PowerPC, at a stop that is not OP_SIGILL, two structures of which the report names no
  -- difference are found equal, and the comparison leaves the second as it is.
  pub reginfo_dump_mismatch-reginfo_is_eq :
      (op_code (get_risuop a) == 2 ^ 32 - 1) ≡ false
      → reginfo_dump_mismatch k m a ≡ []
      → reginfo_is_eq k signal_count m a ≡ (true, a)
  reginfo_dump_mismatch-reginfo_is_eq h x =
      Silent-unchanged (reginfo_dump_mismatch-Silent k m a x) (plain_mask h)

  last-Silent :
      local_gregs_mask k a ≡ k.gregs_mask
      → Passed k signal_count m a
      → Silent k m (last k signal_count m a)
  unfolding Matches
  last-Silent e p =
      let at = last-Matches 0 (omega arith) p in
      record {
        gregs_same = λ j lt.
            let low = (last-Matches j lt p).0 in ground (arith, low, ap (λ x. selected x j) e);
        ctr_same = ground (arith, at.3);
        lnk_same = ground (arith, at.4);
        xer_same = ground (arith, at.5);
        ccr_same = ground (arith, at.6);
        mq_same = ground (arith, at.7);
        fpregs_same = λ j lt. ground (arith, (last-Matches j lt p).1);
        fpscr_same = ground (arith, at.2);
      }

  -- On PowerPC, at a stop that is not OP_SIGILL, the comparison succeeds exactly when the report,
  -- on the second structure as the comparison leaves it, names no difference: a failed comparison
  -- is always explained, and nothing is reported of a difference that was let pass.
  pub reginfo_is_eq-reginfo_dump_mismatch :
      (op_code (get_risuop a) == 2 ^ 32 - 1) ≡ false
      → ((reginfo_is_eq k signal_count m a).0 ≡ true)
        ↔ (reginfo_dump_mismatch k m (reginfo_is_eq k signal_count m a).1 ≡ [])
  reginfo_is_eq-reginfo_dump_mismatch h = (
    λ x.
        let p = reginfo_is_eq-Passed k signal_count m a x in
        subst (λ (c : Checked). reginfo_dump_mismatch k m c.1 ≡ []) (sym p.result)
          (Silent-reginfo_dump_mismatch k m (last k signal_count m a)
            (last-Silent (plain_mask h) p)),
    λ x. elim (Bool-cases (reginfo_is_eq k signal_count m a).0) [
      | inl e ↦ e
      | inr e ↦
          elim (Silent-Difference _ (reginfo_dump_mismatch-Silent k m _ x) (
            subst (λ mask. Difference mask m (reginfo_is_eq k signal_count m a).1) (plain_mask h)
              (reginfo_is_eq-Difference k signal_count m a e))) [ ]
    ],
  )
