-- ===== src/I386/Features.antt =====
-- risu_reginfo_i386.c: which components of the extended state xsave_feature_buf asks for.
use risu.Prelude.{
  ℕ, ◌≡◌, refl, ap, Option, none, some, ◌&&◌, not, ◌==◌, if◌then◌else◌, leb, ◌%◌, ◌+◌, ◌^◌,
}
use risu.Prelude.Outcome.{Outcome, done, aborts, ◌>>=◌}
use risu.I386.Machine.{X86, greg_limit, is_plain}
use risu.I386.{
  Context, Reginfo, Xstate, has_feature, xsave_feature_buf, nvecregs, greg, base_regs, take_xmm,
  take_feature, take_features, take_fpregs, reginfo_init, store_ymm_hi128, store_opmask,
  store_zmm_hi256, store_hi16_zmm, xfeat_avx, xfeat_avx512_opmask, xfeat_avx512_zmm_hi256,
  xfeat_avx512_hi16_zmm,
}

module _ (p : X86) (cpuid : ℕ → Option (ℕ × ℕ)) where
  -- The same platform with another processor.
  abbrev pub on : X86
  on = record p { cpuid = cpuid }

  module _ (xf : ℕ) (xs : Xstate) where
    take_feature_same :
        (mask : ℕ) (store : ℕ → Reginfo → Reginfo) (ri : Reginfo)
        → cpuid mask ≡ p.cpuid mask
        → take_feature on xf xs mask store ri ≡ take_feature p xf xs mask store ri
    unfolding take_feature xsave_feature_buf
    take_feature_same mask store ri h =
        ap
          (λ (c : Option (ℕ × ℕ)).
            let buf : Outcome ℕ = elim c [
              | none ↦ aborts
              | some (eax, ebx) ↦
                  if leb ((eax + ebx) % 2 ^ 32) xs.extended_size then done ebx else aborts
            ] in
            if has_feature xf mask && has_feature xs.xfeatures mask
            then buf >>= (λ b. done (store b ri))
            else done ri)
          h

    take_features_same :
        (ri : Reginfo)
        → cpuid 4 ≡ p.cpuid 4
        → cpuid 32 ≡ p.cpuid 32
        → cpuid 64 ≡ p.cpuid 64
        → cpuid 128 ≡ p.cpuid 128
        → take_features on xf xs ri ≡ take_features p xf xs ri
    unfolding take_features store_ymm_hi128 store_opmask store_zmm_hi256 store_hi16_zmm nvecregs
    take_features_same ri a o z h = λ i.
        take_feature_same xfeat_avx (store_ymm_hi128 p xs) ri a i
        >>= (λ r. take_feature_same xfeat_avx512_opmask (store_opmask p xs) r o i)
        >>= (λ r. take_feature_same xfeat_avx512_zmm_hi256 (store_zmm_hi256 p xs) r z i)
        >>= (λ r.
            if p.x86_64
            then take_feature_same xfeat_avx512_hi16_zmm (store_hi16_zmm p xs) r h i
            else done r)

  take_fpregs_same :
      (xf : ℕ) (fpregs : Option Xstate) (ri : Reginfo)
      → cpuid 4 ≡ p.cpuid 4
      → cpuid 32 ≡ p.cpuid 32
      → cpuid 64 ≡ p.cpuid 64
      → cpuid 128 ≡ p.cpuid 128
      → take_fpregs on xf fpregs ri ≡ take_fpregs p xf fpregs ri
  unfolding take_fpregs take_xmm nvecregs
  take_fpregs_same xf none ri a o z h = refl
  take_fpregs_same xf (some fp) ri a o z h = λ i.
      if not p.x86_64 && not (fp.magic == p.fxsr_magic)
      then done ri
      else if not (fp.magic1 == p.xstate_magic1)
      then done (take_xmm p fp ri)
      else take_features_same xf fp (take_xmm p fp ri) a o z h i

-- On x86, what reginfo_init takes from a context depends on what cpuid says of the components 4,
-- 32, 64 and 128 of the extended state alone: two processors that agree on these give the same
-- structure, wherever they have the components 2, 5, 6 and 7, which are those of AVX and AVX-512.
pub reginfo_init-cpuid :
    (p : X86) (cpuid : ℕ → Option (ℕ × ℕ)) (xfeatures image_start_address : ℕ) (uc : Context)
    → cpuid 4 ≡ p.cpuid 4
    → cpuid 32 ≡ p.cpuid 32
    → cpuid 64 ≡ p.cpuid 64
    → cpuid 128 ≡ p.cpuid 128
    → reginfo_init (on p cpuid) xfeatures image_start_address uc
      ≡ reginfo_init p xfeatures image_start_address uc
unfolding reginfo_init base_regs greg is_plain greg_limit
reginfo_init-cpuid p cpuid xf n uc a o z h =
    take_fpregs_same p cpuid xf uc.fpregs (base_regs p xf n uc) a o z h
