-- ===== src/Ppc64/Matched.antt =====
-- risu_reginfo_ppc64.c: after a comparison that succeeds, the second structure equals the first.
use risu.Prelude.{
  ap, sym, ◌∙◌, ==_iff, ℕ, ◌≤◌, ◌<◌, ◌≡◌, refl, inl, inr, ltb, true, false, ◌&&◌, if◌then◌else◌,
  ◌==◌, arith,
}
use risu.Ppc64.{Reginfo, Masks}
use risu.Ppc64.Rules.{selected}
use risu.Ppc64.Compare.{
  set_fpscr, xer_passes, ccr_passes, mq_passes, fpscr_passes, minus_32, local_gregs_mask,
  check_greg, check_xer, check_branches, check_ccr, check_mq, check_fpscr, check_fpreg,
}
use risu.Ppc64.Chain.{settle-kept, settle-passed, check_from-passed, check_from-kept}
use risu.Ppc64.Equal.{check_greg-Settles, check_fpreg-Settles, special-here, special-other}
use risu.Ppc64.Passed.{
  check_fpreg-kept, after_gregs, after_xer, after_ccr, after_mq, after_fpscr, after_fpregs, Passed,
}

module _ (k : Masks) (signal_count : ℕ) (m a : Reginfo) where
  -- The structure after each of the parts.
  abbrev b1 : Reginfo
  b1 = (after_gregs k signal_count m a).1

  abbrev b2 : Reginfo
  b2 = (after_xer k signal_count m a).1

  abbrev b3 : Reginfo
  b3 = (after_ccr k signal_count m a).1

  abbrev b4 : Reginfo
  b4 = (after_mq k signal_count m a).1

  abbrev b5 : Reginfo
  b5 = (after_fpscr k signal_count m a).1

  abbrev pub last : Reginfo
  last = (after_fpregs k signal_count m a).1

  last-gregs : last.gregs ≡ b4.gregs
  unfolding check_fpscr
  last-gregs =
      check_from-kept (λ x. x.gregs) (check_fpreg k m) (λ i b. (check_fpreg-kept k m i b).0) 32 0 b5
      ∙ settle-kept (λ x. x.gregs) (m.fpscr == b4.fpscr) (fpscr_passes k m b4) b4 (set_fpscr m b4)
          refl

  mq-other : (j : ℕ) → (j == 38) ≡ false → b4.gregs j ≡ b3.gregs j
  unfolding check_mq
  mq-other j h = special-other 38 (mq_passes k signal_count m b3) m b3 j h

  ccr-other : (j : ℕ) → (j == 37) ≡ false → b3.gregs j ≡ b2.gregs j
  unfolding check_ccr
  ccr-other j h = special-other 37 (ccr_passes k m b2) m b2 j h

  xer-other : (j : ℕ) → (j == 36) ≡ false → b2.gregs j ≡ b1.gregs j
  unfolding check_xer
  xer-other j h = special-other 36 (xer_passes k m b1) m b1 j h

  -- A register other than XER, CCR and MQ is as the first loop leaves it.
  pub general :
      (j : ℕ)
      → (j == 36) ≡ false
      → (j == 37) ≡ false
      → (j == 38) ≡ false
      → last.gregs j ≡ b1.gregs j
  general j x y z = ap (λ g. g j) last-gregs ∙ mq-other j z ∙ ccr-other j y ∙ xer-other j x

  module _ (p : Passed k signal_count m a) where
    pub passed-greg :
        (j : ℕ)
        → b1.gregs j
          ≡ (if ltb j 32 && selected (local_gregs_mask k a) j then m.gregs j else a.gregs j)
    passed-greg j =
        check_from-passed (λ b. b.gregs) m.gregs (selected (local_gregs_mask k a))
          (check_greg (local_gregs_mask k a) m) 32 0 a (check_greg-Settles (local_gregs_mask k a) m)
          p.gregs_ok j
        ∙ ground arith

    pub passed-fpreg : (i : ℕ) → i < 32 → last.fpregs i ≡ m.fpregs i
    passed-fpreg i lt =
        check_from-passed (λ b. b.fpregs) m.fpregs (λ i. true) (check_fpreg k m) 32 0 b5
          (check_fpreg-Settles k m) p.fpregs_ok i
        ∙ ground arith

    pub passed-fpscr : last.fpscr ≡ m.fpscr
    unfolding check_fpscr
    passed-fpscr =
        check_from-kept (λ x. x.fpscr) (check_fpreg k m) (λ i b. (check_fpreg-kept k m i b).1) 32 0
          b5
        ∙ elim (settle-passed (m.fpscr == b4.fpscr) (fpscr_passes k m b4) b4 (set_fpscr m b4)
            p.fpscr_ok) [
              | inl (e, q) ↦ ap (λ x. x.fpscr) q ∙ sym ((==_iff m.fpscr b4.fpscr).0 e)
              | inr (e, q) ↦ ap (λ x. x.fpscr) q
            ]

    pub passed-mq : last.gregs 38 ≡ m.gregs 38
    unfolding check_mq
    passed-mq =
        ap (λ g. g 38) last-gregs ∙ special-here 38 (mq_passes k signal_count m b3) m b3 p.mq_ok

    pub passed-ccr : last.gregs 37 ≡ m.gregs 37
    unfolding check_ccr
    passed-ccr =
        ap (λ g. g 37) last-gregs
        ∙ mq-other 37 refl
        ∙ special-here 37 (ccr_passes k m b2) m b2 p.ccr_ok

    pub passed-xer : last.gregs 36 ≡ m.gregs 36
    unfolding check_xer
    passed-xer =
        ap (λ g. g 36) last-gregs
        ∙ mq-other 36 refl
        ∙ ccr-other 36 refl
        ∙ special-here 36 (xer_passes k m b1) m b1 p.xer_ok

    pub passed-branches :
        (minus_32 (m.gregs 35) (m.gregs 32) ≡ minus_32 (a.gregs 35) (a.gregs 32))
        × (m.gregs 34 ≡ a.gregs 34)
    unfolding check_branches
    passed-branches =
        let at : (j : ℕ) → 32 ≤ j → b1.gregs j ≡ a.gregs j = λ j ge. passed-greg j ∙ ground arith in
        ground (
          arith,
          p.branches_ok,
          xer-other 32 refl,
          xer-other 34 refl,
          xer-other 35 refl,
          at 32 (omega arith),
          at 34 (omega arith),
          at 35 (omega arith),
        )
