-- ===== src/Ppc64/Verdict.antt =====
-- risu_reginfo_ppc64.c: the verdict of reginfo_is_eq and the report of reginfo_dump_mismatch.
use risu.Prelude.{ap, ◌∙◌, ℕ, ◌<◌, ◌≡◌, true, false, inl, inr, ◌==◌, arith, Bool-cases}
use risu.Ppc64.{Reginfo, Masks}
use risu.Ppc64.Rules.{selected}
use risu.Ppc64.Compare.{
  minus_32, local_gregs_mask, check_greg, check_from, check_xer, check_branches, check_ccr,
  check_mq, check_fpscr, check_fpreg, reginfo_is_eq, xer_passes, ccr_passes, mq_passes,
  fpscr_passes, set_fpscr,
}
use risu.Ppc64.Chain.{settle-failed, Differs, and_then-blames, check_from-failed}
use risu.Ppc64.Equal.{check_greg-Blames, check_fpreg-Blames, special-blames}

-- A difference that makes two structures unequal.
pub data Difference (mask : ℕ) (m b : Reginfo) : Type 0 where
  in_greg :
      (j : ℕ)
      → j < 32
      → selected mask j ≡ true
      → (m.gregs j == b.gregs j) ≡ false
      → Difference mask m b
  in_ctr : (m.gregs 34 == b.gregs 34) ≡ false → Difference mask m b
  in_xer : (m.gregs 36 == b.gregs 36) ≡ false → Difference mask m b
  in_ccr : (m.gregs 37 == b.gregs 37) ≡ false → Difference mask m b
  in_mq : (m.gregs 38 == b.gregs 38) ≡ false → Difference mask m b
  in_lnk :
      (minus_32 (m.gregs 35) (m.gregs 32) == minus_32 (b.gregs 35) (b.gregs 32)) ≡ false
      → Difference mask m b
  in_fpreg : (j : ℕ) → j < 32 → (m.fpregs j == b.fpregs j) ≡ false → Difference mask m b
  in_fpscr : (m.fpscr == b.fpscr) ≡ false → Difference mask m b

branches-Difference :
    (mask : ℕ) (m a : Reginfo)
    → (check_branches m a).0 ≡ false
    → Difference mask m (check_branches m a).1
unfolding check_branches
branches-Difference mask m a h = elim (Bool-cases (m.gregs 34 == a.gregs 34)) [
  | inl e ↦ in_lnk (ground (arith, h, e))
  | inr e ↦ in_ctr e
]

fpscr-Difference :
    (mask : ℕ) (k : Masks) (m a : Reginfo)
    → (check_fpscr k m a).0 ≡ false
    → Difference mask m (check_fpscr k m a).1
unfolding check_fpscr
fpscr-Difference mask k m a h =
    let (e, q) = settle-failed (m.fpscr == a.fpscr) (fpscr_passes k m a) a (set_fpscr m a) h in
    in_fpscr (ap (λ x. m.fpscr == x.fpscr) q ∙ e)

gregs-Difference :
    (mask : ℕ) (m a : Reginfo)
    → (check_from (check_greg mask m) 32 0 a).0 ≡ false
    → Difference mask m (check_from (check_greg mask m) 32 0 a).1
unfolding Differs
gregs-Difference mask m a h =
    let (j, ge, lt, s, d) =
      check_from-failed (λ b. b.gregs) m.gregs (selected mask) (check_greg mask m) 32 0 a
        (check_greg-Blames mask m) h in
    in_greg j lt s d

fpregs-Difference :
    (mask : ℕ) (k : Masks) (m a : Reginfo)
    → (check_from (check_fpreg k m) 32 0 a).0 ≡ false
    → Difference mask m (check_from (check_fpreg k m) 32 0 a).1
unfolding Differs
fpregs-Difference mask k m a h =
    let (j, ge, lt, s, d) =
      check_from-failed (λ b. b.fpregs) m.fpregs (λ i. true) (check_fpreg k m) 32 0 a
        (check_fpreg-Blames k m) h in
    in_fpreg j lt d

module _ (mask : ℕ) (k : Masks) (m a : Reginfo) where
  xer-Difference : (check_xer k m a).0 ≡ false → Difference mask m (check_xer k m a).1
  unfolding check_xer
  xer-Difference h = in_xer (special-blames 36 (xer_passes k m a) m a h)

  ccr-Difference : (check_ccr k m a).0 ≡ false → Difference mask m (check_ccr k m a).1
  unfolding check_ccr
  ccr-Difference h = in_ccr (special-blames 37 (ccr_passes k m a) m a h)

  mq-Difference :
      (signal_count : ℕ)
      → (check_mq k signal_count m a).0 ≡ false
      → Difference mask m (check_mq k signal_count m a).1
  unfolding check_mq
  mq-Difference signal_count h = in_mq (special-blames 38 (mq_passes k signal_count m a) m a h)

pub reginfo_is_eq-Difference :
    (k : Masks) (signal_count : ℕ) (m a : Reginfo)
    → (reginfo_is_eq k signal_count m a).0 ≡ false
    → Difference (local_gregs_mask k a) m (reginfo_is_eq k signal_count m a).1
unfolding reginfo_is_eq
reginfo_is_eq-Difference k signal_count m a h =
    let mask = local_gregs_mask k a in
    let D : Reginfo → Type 0 = Difference mask m in
    and_then-blames D _ _ h (gregs-Difference mask m a) (λ h1.
      and_then-blames D _ _ h1 (xer-Difference mask k m _) (λ h2.
        and_then-blames D _ _ h2 (branches-Difference mask m _) (λ h3.
          and_then-blames D _ _ h3 (ccr-Difference mask k m _) (λ h4.
            and_then-blames D _ _ h4 (mq-Difference mask k m _ signal_count) (λ h5.
              and_then-blames D _ _ h5 (fpscr-Difference mask k m _)
                (fpregs-Difference mask k m _))))))
