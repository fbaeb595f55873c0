-- ===== src/Ppc64/Passed.antt =====
-- risu_reginfo_ppc64.c: what a comparison that succeeds leaves in the second structure.
use risu.Prelude.{ap, sym, ◌∙◌, ℕ, ◌≡◌, refl, true}
use risu.Ppc64.{Reginfo, Masks}
use risu.Ppc64.Compare.{
  Checked, set_fpreg, set_greg, local_gregs_mask, check_greg, check_from, check_xer, check_branches,
  check_ccr, check_mq, check_fpscr, check_fpreg, greg_forgiven, reginfo_is_eq,
}
use risu.Ppc64.Rules.{forgiven}
use risu.Ppc64.Chain.{and_then-passed, settle-kept}

-- A loop over the general registers, and one over the floating-point registers, change no other part.
pub check_greg-kept :
    (mask : ℕ) (m : Reginfo) (i : ℕ) (a : Reginfo) → (check_greg mask m i a).1.fpregs ≡ a.fpregs
unfolding check_greg
check_greg-kept mask m i a =
    settle-kept (λ x. x.fpregs) _ (greg_forgiven m a i) a (set_greg i m a) refl

pub check_fpreg-kept :
    (k : Masks) (m : Reginfo) (i : ℕ) (a : Reginfo)
    → ((check_fpreg k m i a).1.gregs ≡ a.gregs) × ((check_fpreg k m i a).1.fpscr ≡ a.fpscr)
unfolding check_fpreg
check_fpreg-kept k m i a = (
  settle-kept (λ x. x.gregs) _ (forgiven k m a i) a (set_fpreg i m a) refl,
  settle-kept (λ x. x.fpscr) _ (forgiven k m a i) a (set_fpreg i m a) refl,
)

module _ (k : Masks) (signal_count : ℕ) (m a : Reginfo) where
  -- The structure after each of the parts.
  abbrev pub after_gregs : Checked
  after_gregs = check_from (check_greg (local_gregs_mask k a) m) 32 0 a

  abbrev pub after_xer : Checked
  after_xer = check_xer k m after_gregs.1

  abbrev pub after_ccr : Checked
  after_ccr = check_ccr k m after_xer.1

  abbrev pub after_mq : Checked
  after_mq = check_mq k signal_count m after_ccr.1

  abbrev pub after_fpscr : Checked
  after_fpscr = check_fpscr k m after_mq.1

  abbrev pub after_fpregs : Checked
  after_fpregs = check_from (check_fpreg k m) 32 0 after_fpscr.1

  -- Every part has passed.
  pub record Passed : Type 0 where
    pub gregs_ok : after_gregs.0 ≡ true
    pub xer_ok : after_xer.0 ≡ true
    pub branches_ok : (check_branches m after_xer.1).0 ≡ true
    pub ccr_ok : after_ccr.0 ≡ true
    pub mq_ok : after_mq.0 ≡ true
    pub fpscr_ok : after_fpscr.0 ≡ true
    pub fpregs_ok : after_fpregs.0 ≡ true
    pub result : reginfo_is_eq k signal_count m a ≡ after_fpregs

  pub reginfo_is_eq-Passed : (reginfo_is_eq k signal_count m a).0 ≡ true → Passed
  unfolding reginfo_is_eq check_branches
  reginfo_is_eq-Passed h =
      let (o1, e1) = and_then-passed after_gregs _ h in
      let h1 = ap (λ x. x.0) (sym e1) ∙ h in
      let (o2, e2) = and_then-passed after_xer _ h1 in
      let h2 = ap (λ x. x.0) (sym e2) ∙ h1 in
      let (o3, e3) = and_then-passed (check_branches m after_xer.1) _ h2 in
      let h3 = ap (λ x. x.0) (sym e3) ∙ h2 in
      let (o4, e4) = and_then-passed after_ccr _ h3 in
      let h4 = ap (λ x. x.0) (sym e4) ∙ h3 in
      let (o5, e5) = and_then-passed after_mq _ h4 in
      let h5 = ap (λ x. x.0) (sym e5) ∙ h4 in
      let (o6, e6) = and_then-passed after_fpscr _ h5 in
      let h6 = ap (λ x. x.0) (sym e6) ∙ h5 in
      record {
        gregs_ok = o1;
        xer_ok = o2;
        branches_ok = o3;
        ccr_ok = o4;
        mq_ok = o5;
        fpscr_ok = o6;
        fpregs_ok = h6;
        result = e1 ∙ e2 ∙ e3 ∙ e4 ∙ e5 ∙ e6;
      }
