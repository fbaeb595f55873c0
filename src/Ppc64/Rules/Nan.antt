-- ===== src/Ppc64/Rules/Nan.antt =====
-- risu_reginfo_ppc64.c, reginfo_is_eq: the differences of NaNs that are let pass.
use risu.Prelude.{ℕ, ◌==◌, ◌&&◌, ◌||◌, not, bit_and, Bool}
use risu.Ppc64.{Reginfo}
use risu.Ppc64.Floats.{magnitude, is_nan, anyqnan, neganyqnan}
use risu.Ppc64.Insns.{
  is_fadd, is_fadds, is_fdiv, is_fdivs, is_fmadd, is_fmadds, is_fmsub, is_fmsubs, is_fmul, is_fmuls,
  is_fnmadd, is_fnmadds, is_fnmsub, is_fnmsubs, is_frsp, is_frsqrte, is_fsub, is_fsubs, is_lfs,
  is_lfsu, is_lfsux, is_lfsx, ra, rb, rc, rt, target,
}
use risu.Ppc64.FpOpts.{
  fp_opt_ignore_nan_operand, fp_opt_ignore_qnan_diffs, fp_opt_ignore_qnan_load_float,
  fp_opt_ignore_qnan_signs, fp_opt_ignore_qnan_values, is_set,
}

module _ (opts : ℕ) (m a : Reginfo) (i : ℕ) where
  unfoldable pub ignore_qnan_signs : Bool
  ignore_qnan_signs =
      is_set opts fp_opt_ignore_qnan_signs
      && anyqnan (a.fpregs i)
      && anyqnan (m.fpregs i)
      && magnitude (a.fpregs i) == magnitude (m.fpregs i)

  unfoldable pub ignore_qnan_values : Bool
  ignore_qnan_values =
      is_set opts fp_opt_ignore_qnan_values && neganyqnan (a.fpregs i) && neganyqnan (m.fpregs i)

  unfoldable pub ignore_qnan_diffs : Bool
  ignore_qnan_diffs =
      is_set opts fp_opt_ignore_qnan_diffs && anyqnan (a.fpregs i) && anyqnan (m.fpregs i)

  unfoldable pub ignore_qnan_load_float : Bool
  ignore_qnan_load_float =
      is_set opts fp_opt_ignore_qnan_load_float
      && (is_lfsux m.second_prev_insn
          || is_lfsu m.second_prev_insn
          || is_lfsx m.second_prev_insn
          || is_lfs m.second_prev_insn)
      && target m.second_prev_insn == i
      && bit_and (m.fpregs i) 0xfff7ffffffffffff == bit_and (a.fpregs i) 0xfff7ffffffffffff
      && bit_and (m.fpregs i) 0x0008000000000000 == 0

  unfoldable pub ignore_nan_operand_ab : Bool
  ignore_nan_operand_ab =
      is_set opts fp_opt_ignore_nan_operand
      && (is_fadd m.prev_insn
          || is_fadds m.prev_insn
          || is_fdiv m.prev_insn
          || is_fdivs m.prev_insn
          || is_fsub m.prev_insn
          || is_fsubs m.prev_insn)
      && rt m == i
      && not (ra m == i)
      && not (rb m == i)
      && (is_nan (m.fpregs (ra m)) || is_nan (m.fpregs (rb m)))

  unfoldable pub ignore_nan_operand_b : Bool
  ignore_nan_operand_b =
      is_set opts fp_opt_ignore_nan_operand
      && (is_frsqrte m.prev_insn || is_frsp m.prev_insn)
      && rt m == i
      && not (rb m == i)
      && is_nan (m.fpregs (rb m))

  unfoldable pub ignore_nan_operand_abc : Bool
  ignore_nan_operand_abc =
      is_set opts fp_opt_ignore_nan_operand
      && (is_fmul m.prev_insn || is_fmuls m.prev_insn)
      && rt m == i
      && not (ra m == i)
      && not (rc m == i)
      && (is_nan (m.fpregs (ra m)) || is_nan (m.fpregs (rc m)))

  unfoldable pub ignore_nan_operand_ac : Bool
  ignore_nan_operand_ac =
      is_set opts fp_opt_ignore_nan_operand
      && (is_fmadd m.prev_insn
          || is_fmsub m.prev_insn
          || is_fnmadd m.prev_insn
          || is_fnmsub m.prev_insn
          || is_fmadds m.prev_insn
          || is_fmsubs m.prev_insn
          || is_fnmadds m.prev_insn
          || is_fnmsubs m.prev_insn)
      && rt m == i
      && not (ra m == i)
      && not (rb m == i)
      && not (rc m == i)
      && (is_nan (m.fpregs (ra m)) || is_nan (m.fpregs (rb m)) || is_nan (m.fpregs (rc m)))
