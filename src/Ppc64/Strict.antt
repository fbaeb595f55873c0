-- ===== src/Ppc64/Strict.antt =====
-- risu_reginfo_ppc64.c: without an option for floating-point numbers, reginfo_is_eq lets no difference
-- of a compared floating-point register pass; and a compared general register may only differ after a
-- few instructions.
use risu.Prelude.{
  Bool-cases, inl, inr, ap, sym, ◌∙◌, ==_iff, ℕ, ◌<◌, ◌≡◌, refl, Bool, true, false, ◌||◌, not, ◌==◌,
  arith,
}
use risu.Ppc64.{Reginfo, Masks, store}
use risu.Ppc64.FpOpts.{is_set}
use risu.Ppc64.Target.{any_register, tolerated_other}
use risu.Ppc64.Insns.{rt, is_mflr, is_div, is_divs, is_lscbx}
use risu.Ppc64.Rules.{
  selected, forgiven, ignore_underflow, ignore_overflow, tolerated_operands, tolerated_results,
  tolerated,
}
use risu.Ppc64.Rules.Nan.{
  ignore_qnan_signs, ignore_qnan_values, ignore_qnan_diffs, ignore_qnan_load_float,
  ignore_nan_operand_ab, ignore_nan_operand_b, ignore_nan_operand_abc, ignore_nan_operand_ac,
}
use risu.Ppc64.Rules.Infinite.{
  ignore_opposite_inf_add, ignore_opposite_inf_sub, ignore_opposite_inf_multiply, ignore_inf_x_0,
  ignore_div_zero,
}
use risu.Ppc64.Rules.Round.{
  ignore_round, ignore_round_estimate, ignore_round_s, ignore_round_s_tiny,
  ignore_round_s_tiny_operands,
}
use risu.Ppc64.Rules.Special.{
  ignore_rsqrt_negative, ignore_rsqrt_negative_zero, ignore_rsqrt_zero, ignore_qnan_from_inf,
  ignore_qnan_from_unknown, ignore_inf_from_unknown_b, ignore_inf_from_unknown_div,
  ignore_inf_from_unknown_multiply, ignore_zero_signs, ignore_inf_div_inf, ignore_qnan_snan,
  ignore_nan_unknown_operands,
}
use risu.Ppc64.Compare.{
  local_gregs_mask, set_greg, set_fpreg, set_fpscr, fpscr_passes, greg_forgiven, lscbx_rest,
  check_greg, check_fpreg, check_fpscr, check_xer, check_ccr, check_mq, xer_passes, ccr_passes,
  mq_passes, reginfo_is_eq,
}
use risu.Ppc64.Chain.{Settles, check_from-passed, check_from-kept, settle-kept}
use risu.Ppc64.Equal.{settle-stores}
use risu.Ppc64.Passed.{
  after_gregs, after_xer, after_ccr, after_mq, after_fpscr, reginfo_is_eq-Passed, check_greg-kept,
}
use risu.Ppc64.Matched.{passed-greg, passed-fpreg}

-- Every alternative of the condition asks for an option.
tolerated_none : (m a : Reginfo) (i : ℕ) → tolerated 0 m a i ≡ false
unfolding is_set ignore_underflow ignore_overflow tolerated_operands tolerated_results tolerated
    ignore_qnan_signs ignore_qnan_values ignore_qnan_diffs ignore_qnan_load_float
    ignore_nan_operand_ab ignore_nan_operand_b ignore_nan_operand_abc ignore_nan_operand_ac
    ignore_opposite_inf_add ignore_opposite_inf_sub ignore_opposite_inf_multiply ignore_inf_x_0
    ignore_div_zero ignore_round ignore_round_estimate ignore_round_s ignore_round_s_tiny
    ignore_round_s_tiny_operands ignore_rsqrt_negative ignore_rsqrt_negative_zero ignore_rsqrt_zero
    ignore_qnan_from_inf ignore_qnan_from_unknown ignore_inf_from_unknown_b
    ignore_inf_from_unknown_div ignore_inf_from_unknown_multiply ignore_zero_signs
    ignore_inf_div_inf ignore_qnan_snan ignore_nan_unknown_operands
tolerated_none m a i = refl

forgiven_none :
    (k : Masks) (m a : Reginfo) (i : ℕ)
    → k.fp_opts ≡ 0
    → forgiven k m a i ≡ not (selected k.fpregs_mask i)
unfolding forgiven
forgiven_none k m a i e =
    ap (λ x. not (selected k.fpregs_mask i) || tolerated x m a i) e
    ∙ ground (arith, tolerated_none m a i)

forgiven_target :
    (k : Masks) (m a : Reginfo) (i : ℕ)
    → any_register k.fp_opts ≡ false
    → forgiven k m a i ≡ true
    → (not (selected k.fpregs_mask i) || rt m == i) ≡ true
unfolding forgiven
forgiven_target k m a i none h = elim (Bool-cases (rt m == i)) [
  | inl e ↦ ground arith
  | inr e ↦ ground (arith, tolerated_other k.fp_opts m a i e none)
]

-- Only registers in `sel` are let pass.
strict_fpreg :
    (k : Masks) (m : Reginfo) (sel : ℕ → Bool)
    → ((a : Reginfo) (i : ℕ) → forgiven k m a i ≡ true → sel i ≡ true)
    → Settles (λ a. a.fpregs) m.fpregs sel (check_fpreg k m)
unfolding Settles check_fpreg store
strict_fpreg k m sel only i a h j =
    settle-stores (λ x. x.fpregs) (m.fpregs i == a.fpregs i) (forgiven k m a i) (sel i) i
      (m.fpregs i) a (set_fpreg i m a) (λ s t. (==_iff (m.fpregs i) (a.fpregs i)).0 s)
      (λ s t. only a i t) (λ j. refl) h j

-- The instructions after which a general register may differ.
unfoldable pub may_differ : Reginfo → Bool
may_differ m =
    is_mflr m.prev_insn || is_div m.prev_insn || is_divs m.prev_insn || is_lscbx m.second_prev_insn

greg_forgiven_none : (m a : Reginfo) (i : ℕ) → may_differ m ≡ false → greg_forgiven m a i ≡ false
unfolding greg_forgiven lscbx_rest may_differ
greg_forgiven_none m a i e = ground arith

strict_greg :
    (mask : ℕ) (m : Reginfo)
    → may_differ m ≡ false
    → Settles (λ a. a.gregs) m.gregs (λ i. false) (check_greg mask m)
unfolding Settles check_greg store may_differ
strict_greg mask m e i a h j =
    settle-stores (λ x. x.gregs) (m.gregs i == a.gregs i || not (selected mask i))
      (greg_forgiven m a i) false i (m.gregs i) a (set_greg i m a) (λ s t. cc)
      (λ s t. sym (greg_forgiven_none m a i e) ∙ t) (λ j. refl) h j

module _ (k : Masks) (signal_count : ℕ) (m a : Reginfo) where
  early-fpregs : (after_fpscr k signal_count m a).1.fpregs ≡ a.fpregs
  unfolding check_xer check_ccr check_mq check_fpscr
  early-fpregs =
      let b1 = (after_gregs k signal_count m a).1 in
      let b2 = (after_xer k signal_count m a).1 in
      let b3 = (after_ccr k signal_count m a).1 in
      let b4 = (after_mq k signal_count m a).1 in
      settle-kept (λ x. x.fpregs) (m.fpscr == b4.fpscr) (fpscr_passes k m b4) b4 (set_fpscr m b4)
        refl
      ∙ settle-kept (λ x. x.fpregs) (m.gregs 38 == b3.gregs 38) (mq_passes k signal_count m b3) b3
          (set_greg 38 m b3) refl
      ∙ settle-kept (λ x. x.fpregs) (m.gregs 37 == b2.gregs 37) (ccr_passes k m b2) b2
          (set_greg 37 m b2) refl
      ∙ settle-kept (λ x. x.fpregs) (m.gregs 36 == b1.gregs 36) (xer_passes k m b1) b1
          (set_greg 36 m b1) refl
      ∙ check_from-kept (λ x. x.fpregs) (check_greg (local_gregs_mask k a) m)
          (check_greg-kept (local_gregs_mask k a) m) 32 0 a

  only_selected :
      (sel : ℕ → Bool) (i : ℕ)
      → i < 32
      → ((b : Reginfo) (j : ℕ) → forgiven k m b j ≡ true → sel j ≡ true)
      → sel i ≡ false
      → (reginfo_is_eq k signal_count m a).0 ≡ true
      → a.fpregs i ≡ m.fpregs i
  only_selected sel i lt only s h =
      let p = reginfo_is_eq-Passed k signal_count m a h in
      let kept =
        check_from-passed (λ b. b.fpregs) m.fpregs sel (check_fpreg k m) 32 0
          (after_fpscr k signal_count m a).1 (strict_fpreg k m sel only) p.fpregs_ok i in
      ap (λ f. f i) (sym early-fpregs)
      ∙ ground (arith, kept, passed-fpreg k signal_count m a p i lt)

  -- On PowerPC, with no option for floating-point numbers set, a comparison that succeeds means
  -- that each floating-point register that the mask selects was equal before the comparison: none
  -- of the tolerances applies without its option.
  pub reginfo_is_eq_strict :
      (i : ℕ)
      → i < 32
      → k.fp_opts ≡ 0
      → selected k.fpregs_mask i ≡ true
      → (reginfo_is_eq k signal_count m a).0 ≡ true
      → a.fpregs i ≡ m.fpregs i
  reginfo_is_eq_strict i lt e s h =
      only_selected (λ j. not (selected k.fpregs_mask j)) i lt
        (λ b j t. sym (forgiven_none k m b j e) ∙ t) (ap not s) h

  -- On PowerPC, unless one of the options for signs, values or differences of QNaNs, for QNaNs
  -- that a load gives, or for the signs of zeros is set, a comparison that succeeds means that
  -- each selected floating-point register was equal before it, but for the one that the previous
  -- instruction names as its target.
  pub reginfo_is_eq-rt :
      (i : ℕ)
      → i < 32
      → any_register k.fp_opts ≡ false
      → selected k.fpregs_mask i ≡ true
      → (rt m == i) ≡ false
      → (reginfo_is_eq k signal_count m a).0 ≡ true
      → a.fpregs i ≡ m.fpregs i
  reginfo_is_eq-rt i lt none s other h =
      only_selected (λ j. not (selected k.fpregs_mask j) || rt m == j) i lt
        (λ b j t. forgiven_target k m b j none t) (ground arith) h

  -- On PowerPC, unless the previous instruction is mflr, div or divs or the one before it is
  -- lscbx, a comparison that succeeds means that each compared general register was equal before
  -- the comparison.
  pub reginfo_is_eq-may_differ :
      (i : ℕ)
      → i < 32
      → may_differ m ≡ false
      → selected (local_gregs_mask k a) i ≡ true
      → (reginfo_is_eq k signal_count m a).0 ≡ true
      → a.gregs i ≡ m.gregs i
  reginfo_is_eq-may_differ i lt e s h =
      let p = reginfo_is_eq-Passed k signal_count m a h in
      let mask = local_gregs_mask k a in
      let kept =
        check_from-passed (λ b. b.gregs) m.gregs (λ i. false) (check_greg mask m) 32 0 a
          (strict_greg mask m e) p.gregs_ok i in
      ground (arith, kept, passed-greg k signal_count m a p i)
