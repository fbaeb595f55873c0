-- ===== src/Ppc64/Rules/Special.antt =====
-- risu_reginfo_ppc64.c, reginfo_is_eq: the results of estimates, and of unknown operands, that are let pass.
use risu.Prelude.{ℕ, ◌==◌, ◌&&◌, ◌||◌, not, Bool}
use risu.Ppc64.{Reginfo}
use risu.Ppc64.Floats.{magnitude, is_zero, negative, infinite, is_nan, isqnan}
use risu.Ppc64.Insns.{
  is_fdiv, is_fdivs, is_fmadd, is_fmadds, is_fmsub, is_fmsubs, is_fmul, is_fmuls, is_fnmadd,
  is_fnmadds, is_fnmsub, is_fnmsubs, is_fres, is_frsqrte, ra, rb, rc, rt,
}
use risu.Ppc64.FpOpts.{
  fp_opt_ignore_inf_div_inf, fp_opt_ignore_inf_from_unknown, fp_opt_ignore_nan_unknown_operands,
  fp_opt_ignore_qnan_from_inf, fp_opt_ignore_qnan_from_unknown, fp_opt_ignore_qnan_snan,
  fp_opt_ignore_rsqrt_negative, fp_opt_ignore_rsqrt_negative_zero, fp_opt_ignore_rsqrt_zero,
  fp_opt_ignore_zero_signs, is_set,
}

module _ (opts : ℕ) (m a : Reginfo) (i : ℕ) where
  unfoldable pub ignore_rsqrt_negative : Bool
  ignore_rsqrt_negative =
      is_set opts fp_opt_ignore_rsqrt_negative
      && is_frsqrte m.prev_insn
      && rt m == i
      && isqnan (a.fpregs i)
      && (rb m == i || negative (m.fpregs (rb m)))

  unfoldable pub ignore_rsqrt_negative_zero : Bool
  ignore_rsqrt_negative_zero =
      is_set opts fp_opt_ignore_rsqrt_negative_zero
      && is_frsqrte m.prev_insn
      && rt m == i
      && not (rb m == i)
      && m.fpregs (rb m) == 0x8000000000000000
      && a.fpregs i == 0xfff0000000000000

  unfoldable pub ignore_rsqrt_zero : Bool
  ignore_rsqrt_zero =
      is_set opts fp_opt_ignore_rsqrt_zero
      && is_frsqrte m.prev_insn
      && rt m == i
      && not (rb m == i)
      && m.fpregs (rb m) == 0
      && a.fpregs i == 0x7ff0000000000000

  unfoldable pub ignore_qnan_from_inf : Bool
  ignore_qnan_from_inf =
      is_set opts fp_opt_ignore_qnan_from_inf
      && (is_fmul m.prev_insn
          || is_fmadd m.prev_insn
          || is_fmsub m.prev_insn
          || is_fnmadd m.prev_insn
          || is_fnmsub m.prev_insn
          || is_fnmadds m.prev_insn)
      && rt m == i
      && isqnan (a.fpregs i)
      && ((not (ra m == i) && infinite (a.fpregs (ra m)))
          || (not (rc m == i) && infinite (a.fpregs (rc m))))

  unfoldable pub ignore_qnan_from_unknown : Bool
  ignore_qnan_from_unknown =
      is_set opts fp_opt_ignore_qnan_from_unknown
      && is_fdiv m.prev_insn
      && rt m == i
      && isqnan (a.fpregs i)
      && (ra m == i || rb m == i)

  unfoldable pub ignore_inf_from_unknown_b : Bool
  ignore_inf_from_unknown_b =
      is_set opts fp_opt_ignore_inf_from_unknown
      && (is_frsqrte m.prev_insn || is_fres m.prev_insn)
      && rt m == i
      && infinite (a.fpregs i)
      && rb m == i

  unfoldable pub ignore_inf_from_unknown_div : Bool
  ignore_inf_from_unknown_div =
      is_set opts fp_opt_ignore_inf_from_unknown
      && is_fdivs m.prev_insn
      && rt m == i
      && infinite (a.fpregs i)
      && (ra m == i || rb m == i)

  unfoldable pub ignore_inf_from_unknown_multiply : Bool
  ignore_inf_from_unknown_multiply =
      is_set opts fp_opt_ignore_inf_from_unknown
      && (is_fmul m.prev_insn
          || is_fmadd m.prev_insn
          || is_fmsub m.prev_insn
          || is_fnmadd m.prev_insn
          || is_fnmsub m.prev_insn
          || is_fmuls m.prev_insn
          || is_fmadds m.prev_insn
          || is_fmsubs m.prev_insn
          || is_fnmadds m.prev_insn
          || is_fnmsubs m.prev_insn)
      && rt m == i
      && infinite (a.fpregs i)
      && (ra m == i || rc m == i)

  unfoldable pub ignore_zero_signs : Bool
  ignore_zero_signs =
      is_set opts fp_opt_ignore_zero_signs
      && is_zero (a.fpregs i)
      && is_zero (m.fpregs i)
      && magnitude (a.fpregs i) == magnitude (m.fpregs i)

  unfoldable pub ignore_inf_div_inf : Bool
  ignore_inf_div_inf =
      is_set opts fp_opt_ignore_inf_div_inf
      && (is_fdiv m.prev_insn || is_fdivs m.prev_insn)
      && rt m == i
      && infinite (a.fpregs (ra m))
      && infinite (a.fpregs (rb m))

  unfoldable pub ignore_qnan_snan : Bool
  ignore_qnan_snan =
      is_set opts fp_opt_ignore_qnan_snan
      && is_fdiv m.prev_insn
      && rt m == i
      && is_nan (a.fpregs i)
      && is_nan (m.fpregs i)

  unfoldable pub ignore_nan_unknown_operands : Bool
  ignore_nan_unknown_operands =
      is_set opts fp_opt_ignore_nan_unknown_operands
      && (is_fmadd m.prev_insn
          || is_fmsub m.prev_insn
          || is_fnmadd m.prev_insn
          || is_fnmsub m.prev_insn
          || is_fmadds m.prev_insn
          || is_fmsubs m.prev_insn
          || is_fnmadds m.prev_insn
          || is_fnmsubs m.prev_insn)
      && rt m == i
      && is_nan (a.fpregs i)
      && (ra m == i || rb m == i || rc m == i)
