-- ===== src/Aarch64/Layout.antt =====
-- <asm/sigcontext.h> of the kernel, as far as risu_reginfo_aarch64.c and risu_reginfo_aarch64.h
-- use it, and what they make of it.
use risu.Prelude.{ℕ, ◌+◌, ◌-◌, ◌*◌, ◌/◌, ◌≡◌}

-- The macros, each with its value: `sizeof(struct fpsimd_context)`, sve_vl_from_vq,
-- sve_vq_from_vl, SVE_SIG_CONTEXT_SIZE, SVE_SIG_REGS_OFFSET, SVE_SIG_REGS_SIZE,
-- SVE_SIG_ZREG_OFFSET and SVE_SIG_PREG_OFFSET.
pub record Sigcontext : Type 0 where
  pub fpsimd_size : ℕ
  pub vl_from_vq : ℕ → ℕ
  pub vq_from_vl : ℕ → ℕ
  pub context_size : ℕ → ℕ
  pub regs_offset : ℕ
  pub regs_size : ℕ → ℕ
  pub zreg_offset : ℕ → ℕ → ℕ
  pub preg_offset : ℕ → ℕ → ℕ

-- What the header's comments say of them: a vector has `vq` times 16 bytes, and the 32 vectors
-- are followed by the 16 predicates and FFR, of an eighth of that size.
pub record IsLaidOut (k : Sigcontext) : Type 0 where
  pub vq_of_vl : (vq : ℕ) → k.vq_from_vl (k.vl_from_vq vq) ≡ vq
  pub zregs : (vq i : ℕ) → k.zreg_offset vq i ≡ k.regs_offset + i * (vq * 16)
  pub pregs : (vq i : ℕ) → k.preg_offset vq i ≡ k.regs_offset + 32 * (vq * 16) + i * (vq * 2)
  pub size : (vq : ℕ) → k.regs_size vq ≡ 32 * (vq * 16) + 17 * (vq * 2)

-- `ROUND_UP(SIZE, 16)`
abbrev pub round_up : ℕ → ℕ
round_up size = (size + 15) / 16 * 16

abbrev pub risu_simd_regs_size : ℕ
risu_simd_regs_size = 32 * 16

module _ (k : Sigcontext) where
  unfoldable pub risu_sve_regs_size : ℕ → ℕ
  risu_sve_regs_size vq = round_up (k.regs_size vq)

  -- The offsets of registers in `extra`.
  unfoldable pub reginfo_zreg : ℕ → ℕ → ℕ
  reginfo_zreg vq i = k.zreg_offset vq i - k.regs_offset

  unfoldable pub reginfo_preg : ℕ → ℕ → ℕ
  reginfo_preg vq i = k.preg_offset vq i - k.regs_offset

unfoldable pub reginfo_vreg : ℕ → ℕ
reginfo_vreg i = i * 16
