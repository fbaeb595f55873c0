-- ===== src/I386/Shape.antt =====
-- risu_reginfo_i386.c: what is zero in a structure that reginfo_init fills.
use risu.Prelude.{
  ℕ, ◌+◌, ◌-◌, ◌*◌, ◌≤◌, ◌≡◌, refl, ap, subst, ◌∙◌, true, false, not, ◌&&◌, Option, none, some,
  if◌then◌else◌, ◌==◌, ltb, leb, if_false, arith,
}
use risu.Prelude.Bytes.{copy_bytes}
use risu.Prelude.Outcome.{done, Always, Always-bind, Always-if, Always-any, if_both}
use risu.I386.Machine.{X86, is_named}
use risu.I386.{
  Context, Reginfo, Xstate, has_feature, xfeat_avx, xfeat_avx512_opmask, xfeat_avx512_zmm_hi256,
  xfeat_avx512_hi16_zmm, nvecregs, greg, base_regs, take_xmm, take_feature, take_features,
  take_fpregs, reginfo_init, store_ymm_hi128, store_opmask, store_zmm_hi256, store_hi16_zmm,
  xsave_feature_buf,
}
use risu.I386.Dump.{get_nvecregs, get_nvecquads}

-- The mask that a structure was taken with, the general registers without a name, the vector
-- registers that there are not, and the bytes of the others that the mask leaves out.
pub record HasShape (p : X86) (xfeatures : ℕ) (ri : Reginfo) : Type 0 where
  pub features : ri.xfeatures ≡ xfeatures
  pub unnamed : (i : ℕ) → is_named p i ≡ false → ri.gregs i ≡ 0
  pub outside : (i j : ℕ) → get_nvecregs p xfeatures ≤ i → ri.vregs i j ≡ 0
  pub upper : (i j : ℕ) → get_nvecquads xfeatures * 8 ≤ j → ri.vregs i j ≡ 0

-- The masks of which the report shows all vector bytes: the registers from 16 on come only with
-- the whole width.
abbrev pub IsWide : ℕ → Type 0
IsWide xfeatures =
    has_feature xfeatures xfeat_avx512_hi16_zmm ≡ true
    → has_feature xfeatures xfeat_avx512_zmm_hi256 ≡ true

copy_behind :
    (to from size : ℕ) (source object : ℕ → ℕ) (j : ℕ)
    → to + size ≤ j
    → copy_bytes to source from size object j ≡ object j
unfolding copy_bytes
copy_behind to from size source object j h =
    let out : (leb to j && ltb j (to + size)) ≡ false = ground arith in if_false _ _ _ out

base_regs-HasShape : (p : X86) (xf n : ℕ) (uc : Context) → HasShape p xf (base_regs p xf n uc)
unfolding base_regs
base_regs-HasShape p xf n uc = record {
  features = refl;
  unnamed = λ i h. unnamed_zero i h;
  outside = λ i j h. refl;
  upper = λ i j h. refl;
}
  where
    unnamed_zero : (i : ℕ) → is_named p i ≡ false → greg p n uc i ≡ 0
    unnamed_zero i h = unfold greg is_named in ground arith

module _ (p : X86) (xf : ℕ) where
  -- A copy into the lower registers that stays below the width.
  lower_copy :
      (to step size buf : ℕ) (xs : Xstate) (ri : Reginfo)
      → to + size ≤ get_nvecquads xf * 8
      → HasShape p xf ri
      → HasShape p xf (record ri {
        vregs = λ i.
            if ltb i (nvecregs p)
            then copy_bytes to xs.bytes (buf + step * i) size (ri.vregs i)
            else ri.vregs i;
      })
  lower_copy to step size buf xs ri fits s = record {
    features = s.features;
    unnamed = s.unnamed;
    outside = λ i j h. ap (λ (f : ℕ → ℕ). f j) (if_false _ _ _ (above i h)) ∙ s.outside i j h;
    upper = λ i j h.
        if_both (λ (f : ℕ → ℕ). f j ≡ 0) (ltb i (nvecregs p)) _ (ri.vregs i)
          (copy_behind to (buf + step * i) size xs.bytes (ri.vregs i) j (omega arith)
            ∙ s.upper i j h)
          (s.upper i j h);
  }
    where
      above : (i : ℕ) → get_nvecregs p xf ≤ i → ltb i (nvecregs p) ≡ false
      above i h = unfold get_nvecregs nvecregs in ground arith

  -- The copies of reginfo_init, each under the bits of the mask that it is made for.
  take_xmm-HasShape :
      (fp : Xstate) (ri : Reginfo) → HasShape p xf ri → HasShape p xf (take_xmm p fp ri)
  unfolding take_xmm
  take_xmm-HasShape fp ri s =
      let l = lower_copy 0 16 16 p.xmm_offset fp ri two_quads s in
      record { features = l.features; unnamed = l.unnamed; outside = l.outside; upper = l.upper }
    where
      two_quads : 0 + 16 ≤ get_nvecquads xf * 8
      two_quads = unfold get_nvecquads in ground arith

  store_ymm_hi128-HasShape :
      (xs : Xstate) (buf : ℕ) (ri : Reginfo)
      → has_feature xf xfeat_avx ≡ true
      → HasShape p xf ri
      → HasShape p xf (store_ymm_hi128 p xs buf ri)
  unfolding store_ymm_hi128
  store_ymm_hi128-HasShape xs buf ri h s = lower_copy 16 16 16 buf xs ri four_quads s
    where
      four_quads : 16 + 16 ≤ get_nvecquads xf * 8
      four_quads = unfold get_nvecquads in ground arith

  store_zmm_hi256-HasShape :
      (xs : Xstate) (buf : ℕ) (ri : Reginfo)
      → has_feature xf xfeat_avx512_zmm_hi256 ≡ true
      → HasShape p xf ri
      → HasShape p xf (store_zmm_hi256 p xs buf ri)
  unfolding store_zmm_hi256
  store_zmm_hi256-HasShape xs buf ri h s = lower_copy 32 32 32 buf xs ri eight_quads s
    where
      eight_quads : 32 + 32 ≤ get_nvecquads xf * 8
      eight_quads = unfold get_nvecquads in ground arith

  store_opmask-HasShape :
      (xs : Xstate) (buf : ℕ) (ri : Reginfo)
      → HasShape p xf ri
      → HasShape p xf (store_opmask p xs buf ri)
  unfolding store_opmask
  store_opmask-HasShape xs buf ri s = record {
    features = s.features;
    unnamed = s.unnamed;
    outside = s.outside;
    upper = s.upper;
  }

  store_hi16_zmm-HasShape :
      (xs : Xstate) (buf : ℕ) (ri : Reginfo)
      → p.x86_64 ≡ true
      → has_feature xf xfeat_avx512_hi16_zmm ≡ true
      → has_feature xf xfeat_avx512_zmm_hi256 ≡ true
      → HasShape p xf ri
      → HasShape p xf (store_hi16_zmm p xs buf ri)
  unfolding store_hi16_zmm
  store_hi16_zmm-HasShape xs buf ri x h w s = record {
    features = s.features;
    unnamed = s.unnamed;
    outside = λ i j le. ap (λ (f : ℕ → ℕ). f j) (if_false _ _ _ (above i le)) ∙ s.outside i j le;
    upper = λ i j le.
        if_both (λ (f : ℕ → ℕ). f j ≡ 0) (leb 16 i && ltb i (16 + 16)) _ (ri.vregs i)
          (copy_behind 0 (buf + 64 * (i - 16)) 64 xs.bytes (ri.vregs i) j (wide j le)
            ∙ s.upper i j le)
          (s.upper i j le);
  }
    where
      above : (i : ℕ) → get_nvecregs p xf ≤ i → (leb 16 i && ltb i (16 + 16)) ≡ false
      above i le = unfold get_nvecregs in ground arith

      wide : (j : ℕ) → get_nvecquads xf * 8 ≤ j → 0 + 64 ≤ j
      wide j le = unfold get_nvecquads in ground arith

  take_feature-HasShape :
      (xs : Xstate) (mask : ℕ) (store : ℕ → Reginfo → Reginfo) (ri : Reginfo)
      → ((buf : ℕ) → has_feature xf mask ≡ true → HasShape p xf (store buf ri))
      → HasShape p xf ri
      → Always (HasShape p xf) (take_feature p xf xs mask store ri)
  unfolding take_feature
  take_feature-HasShape xs mask store ri keep s =
      Always-if (HasShape p xf) (has_feature xf mask && has_feature xs.xfeatures mask) _ _
        (λ c.
          Always-bind (λ _. Unit {0}) (HasShape p xf) (xsave_feature_buf p xs mask)
            (λ buf. done (store buf ri)) (Always-any _) (λ buf _. keep buf (left c)))
        (λ _. s)
    where
      left :
          (has_feature xf mask && has_feature xs.xfeatures mask) ≡ true → has_feature xf mask ≡ true
      left c = ground arith

  take_features-HasShape :
      (xs : Xstate) (ri : Reginfo)
      → (p.x86_64 ≡ true → IsWide xf)
      → HasShape p xf ri
      → Always (HasShape p xf) (take_features p xf xs ri)
  unfolding take_features
  take_features-HasShape xs ri wide s =
      Always-bind (HasShape p xf) (HasShape p xf) _ _
        (Always-bind (HasShape p xf) (HasShape p xf) _ _
          (Always-bind (HasShape p xf) (HasShape p xf) _ _
            (take_feature-HasShape xs xfeat_avx (store_ymm_hi128 p xs) ri
              (λ buf h. store_ymm_hi128-HasShape xs buf ri h s) s)
            (λ r t.
              take_feature-HasShape xs xfeat_avx512_opmask (store_opmask p xs) r
                (λ buf h. store_opmask-HasShape xs buf r t) t))
          (λ r t.
            take_feature-HasShape xs xfeat_avx512_zmm_hi256 (store_zmm_hi256 p xs) r
              (λ buf h. store_zmm_hi256-HasShape xs buf r h t) t))
        (λ r t.
          Always-if (HasShape p xf) p.x86_64 _ _
            (λ x.
              take_feature-HasShape xs xfeat_avx512_hi16_zmm (store_hi16_zmm p xs) r
                (λ buf h. store_hi16_zmm-HasShape xs buf r x h (wide x h) t) t)
            (λ _. t))

  take_fpregs-HasShape :
      (fpregs : Option Xstate) (ri : Reginfo)
      → (p.x86_64 ≡ true → IsWide xf)
      → HasShape p xf ri
      → Always (HasShape p xf) (take_fpregs p xf fpregs ri)
  unfolding take_fpregs
  take_fpregs-HasShape none ri wide s = s
  take_fpregs-HasShape (some fp) ri wide s =
      let t = take_xmm-HasShape fp ri s in
      Always-if (HasShape p xf) (not p.x86_64 && not (fp.magic == p.fxsr_magic)) _ _ (λ _. s)
        (λ _.
          Always-if (HasShape p xf) (not (fp.magic1 == p.xstate_magic1)) _ _ (λ _. t)
            (λ _. take_features-HasShape fp _ wide t))

-- A structure that is taken from a context has the shape that its mask gives it.
pub reginfo_init-HasShape :
    (p : X86) (xf image_start_address : ℕ) (uc : Context) (ri : Reginfo)
    → (p.x86_64 ≡ true → IsWide xf)
    → reginfo_init p xf image_start_address uc ≡ done ri
    → HasShape p xf ri
unfolding reginfo_init
reginfo_init-HasShape p xf n uc ri wide h =
    subst (Always (HasShape p xf)) h
      (take_fpregs-HasShape p xf uc.fpregs _ wide (base_regs-HasShape p xf n uc))
