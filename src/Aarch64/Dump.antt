-- ===== src/Aarch64/Dump.antt =====
-- risu_reginfo_aarch64.c: sve_zreg_is_eq, sve_preg_is_eq, sve_dump_preg, sve_dump_zreg_diff and
-- reginfo_dump_mismatch, as the lists of what they print.
use risu.Prelude.{ℕ, zero, suc, ◌+◌, ◌*◌, Bool, not, ◌&&◌, List, [], ◌∷◌, ◌++◌, if◌then◌else◌, ◌==◌}
use risu.Prelude.Bytes.{same_bytes, bytes_at}
use risu.Prelude.Rows.{row_unless, each_from}
use risu.Aarch64.Layout.{Sigcontext, reginfo_zreg, reginfo_preg, reginfo_vreg}
use risu.Aarch64.{Reginfo}

unfoldable pub sve_zreg_is_eq : ℕ → (ℕ → ℕ) → (ℕ → ℕ) → ℕ → Bool
sve_zreg_is_eq vq x y at = same_bytes x y (vq * 16) at

unfoldable pub sve_preg_is_eq : ℕ → (ℕ → ℕ) → (ℕ → ℕ) → ℕ → Bool
sve_preg_is_eq vq x y at = same_bytes x y (vq * 2) at

-- The numbers of 16 bits, the last one first.
unfoldable pub sve_dump_preg : ℕ → (ℕ → ℕ) → ℕ → List (List ℕ)
sve_dump_preg zero x at = []
sve_dump_preg (suc q) x at = bytes_at x 2 (at + q * 2) ∷ sve_dump_preg q x at

-- A line of sve_dump_zreg_diff: the number of the quadword, the high and the low half of the
-- first register, and those of the second.
pub data Quad : Type 0 where
  quad : ℕ → List ℕ → List ℕ → List ℕ → List ℕ → Quad

-- `za` and `zb` lie at one offset of two objects.
unfoldable pub sve_dump_zreg_diff : ℕ → (ℕ → ℕ) → (ℕ → ℕ) → ℕ → List Quad
sve_dump_zreg_diff vq x y at =
    each_from
      (λ q.
        row_unless
          (quad q (bytes_at x 8 (at + q * 16 + 8)) (bytes_at x 8 (at + q * 16))
            (bytes_at y 8 (at + q * 16 + 8)) (bytes_at y 8 (at + q * 16)))
          (same_bytes x y 8 (at + q * 16) && same_bytes x y 8 (at + q * 16 + 8)))
      vq 0

-- The lines behind the first one, with the values that they print.
pub data Line : Type 0 where
  insn_line sp_line pc_line flags_line fpsr_line fpcr_line vl_line : ℕ → ℕ → Line
  x_line : ℕ → ℕ → ℕ → Line
  z_line : ℕ → List Quad → Line
  p_line : ℕ → List (List ℕ) → List (List ℕ) → Line
  ffr_line : List (List ℕ) → List (List ℕ) → Line
  v_line : ℕ → List ℕ → List ℕ → List ℕ → List ℕ → Line

unfoldable pub v_row : Reginfo → Reginfo → ℕ → List Line
v_row m a i =
    let at = reginfo_vreg i in
    row_unless
      (v_line i (bytes_at m.extra 8 (at + 8)) (bytes_at m.extra 8 at) (bytes_at a.extra 8 (at + 8))
        (bytes_at a.extra 8 at))
      (same_bytes m.extra a.extra 8 at && same_bytes m.extra a.extra 8 (at + 8))

module _ (k : Sigcontext) where
  unfoldable pub z_row : Reginfo → Reginfo → ℕ → ℕ → List Line
  z_row m a vq i =
      let at = reginfo_zreg k vq i in
      row_unless (z_line i (sve_dump_zreg_diff vq m.extra a.extra at))
        (sve_zreg_is_eq vq m.extra a.extra at)

  unfoldable pub p_row : Reginfo → Reginfo → ℕ → ℕ → List Line
  p_row m a vq i =
      let at = reginfo_preg k vq i in
      let pm = sve_dump_preg vq m.extra at in
      let pa = sve_dump_preg vq a.extra at in
      row_unless (if i == 16 then ffr_line pm pa else p_line i pm pa)
        (sve_preg_is_eq vq m.extra a.extra at)

  -- The rows of the vector registers, SVE or SIMD. SVE_NUM_ZREGS is 32 and SVE_NUM_PREGS is 16.
  unfoldable pub vector_rows : Reginfo → Reginfo → List Line
  vector_rows m a =
      if not (m.sve_vl == 0)
      then (let vq = k.vq_from_vl m.sve_vl in
          each_from (z_row m a vq) 32 0 ++ each_from (p_row m a vq) (16 + 1) 0)
      else each_from (v_row m a) 32 0

  unfoldable pub reginfo_dump_mismatch : Reginfo → Reginfo → List Line
  reginfo_dump_mismatch m a =
      row_unless (insn_line m.faulting_insn a.faulting_insn) (m.faulting_insn == a.faulting_insn)
      ++ (each_from (λ i. row_unless (x_line i (m.regs i) (a.regs i)) (m.regs i == a.regs i)) 31 0
          ++ (row_unless (sp_line m.sp a.sp) (m.sp == a.sp)
              ++ (row_unless (pc_line m.pc a.pc) (m.pc == a.pc)
                  ++ (row_unless (flags_line m.flags a.flags) (m.flags == a.flags)
                      ++ (row_unless (fpsr_line m.fpsr a.fpsr) (m.fpsr == a.fpsr)
                          ++ (row_unless (fpcr_line m.fpcr a.fpcr) (m.fpcr == a.fpcr)
                              ++ (row_unless (vl_line m.sve_vl a.sve_vl) (m.sve_vl == a.sve_vl)
                                  ++ vector_rows m a)))))))
