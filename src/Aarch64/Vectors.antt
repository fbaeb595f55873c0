-- ===== src/Aarch64/Vectors.antt =====
-- risu_reginfo_aarch64.c: the bytes of `extra` that are compared and those that are reported.
use risu.Prelude.{
  ℕ, ◌+◌, ◌-◌, ◌*◌, ◌≤◌, ◌≡◌, refl, sym, ap, ◌∙◌, ◌↔◌, ◌⊎◌, inl, inr, Bool, true, false, not, ◌&&◌,
  [], ◌==◌, Bool-cases, if_true, if_false, subst, Option, none, some, arith, ltb, leb,
}
use risu.Prelude.Outcome.{if_both, if_cases}
use risu.Prelude.Bytes.{
  same_bytes, same_bytes-add, same_bytes_front, copy_bytes, all_from-add, all_from_blocks,
  all_from_cong,
}
use risu.Prelude.Rows.{all_from, append_iff, iff_eq, rows_as, row_unless_iff, each_iff}
use risu.Aarch64.Layout.{
  Sigcontext, IsLaidOut, round_up, risu_sve_regs_size, reginfo_zreg, reginfo_preg, reginfo_vreg,
}
use risu.Aarch64.{
  Context, Reginfo, FpsimdContext, SveContext, base_regs, take_simd, take_sve, take_vectors,
  reginfo_init, reginfo_size, offsetof_extra,
}
use risu.Aarch64.Dump.{
  sve_zreg_is_eq, sve_preg_is_eq, sve_dump_zreg_diff, v_row, z_row, p_row, vector_rows,
}

module _ (x y : ℕ → ℕ) where
  -- Two halves of eight bytes are sixteen bytes.
  halves : (at : ℕ) → (same_bytes x y 8 at && same_bytes x y 8 (at + 8)) ≡ same_bytes x y 16 at
  unfolding same_bytes
  halves at = sym (all_from-add (λ j. x j == y j) 8 8 at)

  -- Blocks of one size, one behind the other.
  blocks :
      (base size n : ℕ)
      → all_from (λ i. same_bytes x y size (base + i * size)) n 0 ≡ same_bytes x y (n * size) base
  unfolding same_bytes
  blocks base size n =
      all_from_blocks (λ j. x j == y j) base size n 0
      ∙ ap (all_from (λ j. x j == y j) (n * size)) (omega arith)

  -- Two halves for each of so many quadwords.
  quads :
      (base n : ℕ)
      → all_from (λ q. same_bytes x y 8 (base + q * 16) && same_bytes x y 8 (base + q * 16 + 8)) n 0
        ≡ same_bytes x y (n * 16) base
  quads base n = all_from_cong _ _ n 0 (λ q le lt. halves (base + q * 16)) ∙ blocks base 16 n

  vregs_test :
      all_from
        (λ i. same_bytes x y 8 (reginfo_vreg i) && same_bytes x y 8 (reginfo_vreg i + 8))
        32
        0
      ≡ same_bytes x y 512 0
  unfolding reginfo_vreg
  vregs_test =
      all_from_cong _ _ 32 0
        (λ i le lt. ap (λ at. same_bytes x y 8 at && same_bytes x y 8 (at + 8)) (omega arith))
      ∙ quads 0 32

  module _ (k : Sigcontext) (laid : IsLaidOut k) (vq : ℕ) where
    zregs_test :
        all_from (λ i. sve_zreg_is_eq vq x y (reginfo_zreg k vq i)) 32 0
        ≡ same_bytes x y (32 * (vq * 16)) 0
    unfolding sve_zreg_is_eq reginfo_zreg
    zregs_test =
        all_from_cong _ _ 32 0
          (λ i le lt. ap (same_bytes x y (vq * 16)) (omega (arith, laid.zregs vq i)))
        ∙ blocks 0 (vq * 16) 32

    pregs_test :
        all_from (λ i. sve_preg_is_eq vq x y (reginfo_preg k vq i)) 17 0
        ≡ same_bytes x y (17 * (vq * 2)) (0 + 32 * (vq * 16))
    unfolding sve_preg_is_eq reginfo_preg
    pregs_test =
        all_from_cong _ _ 17 0
          (λ i le lt. ap (same_bytes x y (vq * 2)) (omega (arith, laid.pregs vq i)))
        ∙ blocks (0 + 32 * (vq * 16)) (vq * 2) 17

    regs_test :
        (all_from (λ i. sve_zreg_is_eq vq x y (reginfo_zreg k vq i)) 32 0
          && all_from (λ i. sve_preg_is_eq vq x y (reginfo_preg k vq i)) 17 0)
        ≡ same_bytes x y (k.regs_size vq) 0
    regs_test =
        (λ l. zregs_test l && pregs_test l)
        ∙ sym (same_bytes-add x y (32 * (vq * 16)) (17 * (vq * 2)) 0)
        ∙ ap (λ n. same_bytes x y n 0) (sym (laid.size vq))

  -- The bytes behind the registers are zero on both sides.
  padding_test :
      (n : ℕ) → ((j : ℕ) → n ≤ j → x j ≡ y j) → same_bytes x y n 0 ≡ same_bytes x y (round_up n) 0
  padding_test n h =
      same_bytes_front x y n (round_up n - n) h ∙ ap (λ s. same_bytes x y s 0) (whole n)
    where
      whole : (n : ℕ) → n + (round_up n - n) ≡ round_up n
      whole n = omega arith

-- A quadword is printed for a Z register exactly when the register differs.
pub sve_dump_zreg_diff_iff :
    (vq : ℕ) (x y : ℕ → ℕ) (at : ℕ)
    → (sve_dump_zreg_diff vq x y at ≡ []) ↔ (sve_zreg_is_eq vq x y at ≡ true)
unfolding sve_dump_zreg_diff sve_zreg_is_eq
sve_dump_zreg_diff_iff vq x y at =
    iff_eq (each_iff _ _ vq 0 (λ q. row_unless_iff _ _)) (quads x y at vq)

-- What the length of the vectors says of the bytes behind the registers.
pub record IsPadded (k : Sigcontext) (ri : Reginfo) : Type 0 where
  pub zeros :
      (j : ℕ) → k.regs_size (k.vq_from_vl ri.sve_vl) ≤ j → (ri.sve_vl ≡ 0) ⊎ (ri.extra j ≡ 0)

off-IsPadded : (k : Sigcontext) (ri : Reginfo) → ri.sve_vl ≡ 0 → IsPadded k ri
off-IsPadded k ri h = record { zeros = λ j le. inl h }

module _ (k : Sigcontext) (ri : Reginfo) where
  simd_size : (ri.sve_vl == 0) ≡ true → reginfo_size k ri - offsetof_extra ≡ 512
  unfolding reginfo_size
  simd_size h = ap (λ s. 304 + s - 304) (if_true _ _ _ h)

  sve_size :
      (ri.sve_vl == 0) ≡ false
      → reginfo_size k ri - offsetof_extra ≡ round_up (k.regs_size (k.vq_from_vl ri.sve_vl))
  unfolding reginfo_size risu_sve_regs_size
  sve_size h = ap (λ s. 304 + s - 304) (if_false _ _ _ h) ∙ omega arith

pub vector_rows_iff :
    (k : Sigcontext)
    → IsLaidOut k
    → (m a : Reginfo) → IsPadded k m
    → IsPadded k a
    → m.sve_vl ≡ a.sve_vl
    → (vector_rows k m a ≡ [])
      ↔ (same_bytes m.extra a.extra (reginfo_size k m - offsetof_extra) 0 ≡ true)
unfolding vector_rows z_row p_row v_row
vector_rows_iff k laid m a pm pa e = elim (Bool-cases (m.sve_vl == 0)) [
  | inl h ↦
      rows_as (if_false _ _ _ (ap not h))
        (iff_eq (each_iff _ _ 32 0 (λ i. row_unless_iff _ _)) (vregs_test m.extra a.extra))
        (ap (λ s. same_bytes m.extra a.extra s 0) (sym (simd_size k m h)))
  | inr h ↦
      let vq = k.vq_from_vl m.sve_vl in
      rows_as (if_true _ _ _ (ap not h))
        (append_iff _ _ _ _ (each_iff _ _ 32 0 (λ i. row_unless_iff _ _))
          (λ b. each_iff _ _ 17 0 (λ i. row_unless_iff _ _)))
        (regs_test m.extra a.extra k laid vq
          ∙ padding_test m.extra a.extra (k.regs_size vq) (λ j le.
            tails j (pm.zeros j le)
              (pa.zeros j (subst (λ v. k.regs_size (k.vq_from_vl v) ≤ j) e le)) h)
          ∙ ap (λ s. same_bytes m.extra a.extra s 0) (sym (sve_size k m h)))
]
  where
    tails :
        (j : ℕ)
        → (m.sve_vl ≡ 0) ⊎ (m.extra j ≡ 0)
        → (a.sve_vl ≡ 0) ⊎ (a.extra j ≡ 0)
        → (m.sve_vl == 0) ≡ false
        → m.extra j ≡ a.extra j
    tails j p q h = ground arith

copied :
    (k : Sigcontext)
    → IsLaidOut k
    → (vq : ℕ) (source object : ℕ → ℕ) (j : ℕ) → k.regs_size vq ≤ j
    → copy_bytes (reginfo_zreg k vq 0) source k.regs_offset (k.regs_size vq) object j ≡ object j
unfolding copy_bytes reginfo_zreg
copied k laid vq source object j le =
    let start = laid.zregs vq 0 in
    let none_to : k.zreg_offset vq 0 - k.regs_offset ≡ 0 = omega arith in
    let out : ltb j (k.zreg_offset vq 0 - k.regs_offset + k.regs_size vq) ≡ false = ground arith in
    if_false _ _ _ (ap (λ b. leb (k.zreg_offset vq 0 - k.regs_offset) j && b) out ∙ no_right _)
  where
    no_right : (b : Bool) → (b && false) ≡ false
    no_right true = refl
    no_right false = refl

-- What holds of the structures without registers of SVE, and of those with just these, holds
-- of every one that is taken from a context.
module _ (k : Sigcontext) (laid : IsLaidOut k) (P : Reginfo → Type 0) (vq : ℕ)
    (off : (r : Reginfo) → r.sve_vl ≡ 0 → P r)
    (on : (r : Reginfo)
      → r.sve_vl ≡ k.vl_from_vq vq
      → ((j : ℕ) → k.regs_size vq ≤ j → r.extra j ≡ 0)
      → P r) where
  take_sve_cases :
      (fp : FpsimdContext) (sve : Option SveContext) (r : Reginfo)
      → r.sve_vl ≡ 0
      → ((j : ℕ) → r.extra j ≡ 0)
      → P (take_sve k vq fp sve r)
  unfolding take_sve take_simd
  take_sve_cases fp none r zero_vl empty = off r zero_vl
  take_sve_cases fp (some sve) r zero_vl empty =
      if_cases P _ _ _ (λ c. off r zero_vl)
        λ c.
          if_both P (leb sve.size (k.context_size 0)) (take_simd fp r) _
            (off (take_simd fp r) zero_vl)
            (if_both P (ltb sve.size (k.context_size vq)) r _ (off r zero_vl)
              (on _ (same c) (λ j le. copied k laid vq sve.bytes r.extra j le ∙ empty j)))
    where
      same : not (sve.vl == k.vl_from_vq vq) ≡ false → sve.vl ≡ k.vl_from_vq vq
      same c = ground arith

  pub reginfo_init_cases : (n : ℕ) (uc : Context) → P (reginfo_init k vq n uc)
  unfolding reginfo_init
  reginfo_init_cases n uc = go _ _
    where
      go :
          (fp : Option FpsimdContext) (sve : Option SveContext)
          → P (take_vectors k vq fp sve (base_regs n uc))
      go none sve = unfold take_vectors base_regs in off _ refl
      go (some fp) sve =
          unfold take_vectors base_regs take_simd in
          let base = base_regs n uc in
          let r = record base { fpsr = fp.fpsr; fpcr = fp.fpcr } in
          if_both P (not (fp.size == k.fpsimd_size)) base _ (off base refl) (
            if_both P (not (vq == 0)) (take_sve k vq fp sve r) (take_simd fp r)
              (take_sve_cases fp sve r refl (λ j. refl)) (off (take_simd fp r) refl))

-- In a structure that is taken from a context, what lies behind the registers of SVE is zero.
pub reginfo_init-IsPadded :
    (k : Sigcontext)
    → IsLaidOut k
    → (test_sve image_start_address : ℕ) (uc : Context)
    → IsPadded k (reginfo_init k test_sve image_start_address uc)
reginfo_init-IsPadded k laid t n uc =
    reginfo_init_cases k laid (IsPadded k) t (off-IsPadded k)
      (λ r e h. record {
        zeros = λ j le.
            inr (h j (subst (λ v. k.regs_size v ≤ j) (ap k.vq_from_vl e ∙ laid.vq_of_vl t) le));
      })
      n uc
