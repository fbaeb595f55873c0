-- ===== src/Ppc64/Rules/Infinite.antt =====
-- risu_reginfo_ppc64.c, reginfo_is_eq: the results of infinite operands and of divisions by zero that are let pass.
use risu.Prelude.{ℕ, ◌==◌, ◌&&◌, ◌||◌, not, Bool}
use risu.Prelude.Int.{pos, ◌+ℤ◌, leb_ℤ}
use risu.Ppc64.{Reginfo}
use risu.Ppc64.Floats.{is_zero, negative, infinite, exponent, same}
use risu.Ppc64.Insns.{
  is_fadd, is_fadds, is_fdiv, is_fdivs, is_fmadd, is_fmadds, is_fmsub, is_fmsubs, is_fmul, is_fmuls,
  is_fnmadd, is_fnmadds, is_fnmsub, is_fnmsubs, is_fres, is_fsub, is_fsubs, ra, rb, rc, rt,
}
use risu.Ppc64.FpOpts.{
  fp_opt_ignore_div_zero, fp_opt_ignore_inf_x_0_operands, fp_opt_ignore_opposite_inf_operands,
  is_set,
}

module _ (opts : ℕ) (m a : Reginfo) (i : ℕ) where
  unfoldable pub ignore_opposite_inf_add : Bool
  ignore_opposite_inf_add =
      is_set opts fp_opt_ignore_opposite_inf_operands
      && (is_fadd m.prev_insn || is_fadds m.prev_insn)
      && rt m == i
      && not (ra m == i)
      && not (rb m == i)
      && infinite (m.fpregs (ra m))
      && infinite (m.fpregs (rb m))
      && not (same (negative (m.fpregs (ra m))) (negative (m.fpregs (rb m))))

  unfoldable pub ignore_opposite_inf_sub : Bool
  ignore_opposite_inf_sub =
      is_set opts fp_opt_ignore_opposite_inf_operands
      && (is_fsub m.prev_insn || is_fsubs m.prev_insn)
      && rt m == i
      && not (ra m == i)
      && not (rb m == i)
      && infinite (m.fpregs (ra m))
      && infinite (m.fpregs (rb m))
      && same (negative (m.fpregs (ra m))) (negative (m.fpregs (rb m)))

  unfoldable pub ignore_opposite_inf_multiply : Bool
  ignore_opposite_inf_multiply =
      is_set opts fp_opt_ignore_opposite_inf_operands
      && rt m == i
      && not (ra m == i)
      && not (rb m == i)
      && not (rc m == i)
      && leb_ℤ (pos 2048) (exponent (m.fpregs (ra m)) +ℤ exponent (m.fpregs (rc m)))
      && infinite (m.fpregs (rb m))
      && (((is_fmsub m.prev_insn
              || is_fmsubs m.prev_insn
              || is_fnmsub m.prev_insn
              || is_fnmsubs m.prev_insn)
            && same (not (same (negative (m.fpregs (ra m))) (negative (m.fpregs (rc m)))))
                (negative (m.fpregs (rb m))))
          || ((is_fmadd m.prev_insn
                || is_fnmadd m.prev_insn
                || is_fmadds m.prev_insn
                || is_fnmadds m.prev_insn)
              && not (
                  same (not (same (negative (m.fpregs (ra m))) (negative (m.fpregs (rc m)))))
                    (negative (m.fpregs (rb m))))))

  unfoldable pub ignore_inf_x_0 : Bool
  ignore_inf_x_0 =
      is_set opts fp_opt_ignore_inf_x_0_operands
      && (is_fmul m.prev_insn
          || is_fmadd m.prev_insn
          || is_fmsub m.prev_insn
          || is_fnmadd m.prev_insn
          || is_fnmsub m.prev_insn
          || is_fmuls m.prev_insn
          || is_fmadds m.prev_insn
          || is_fmsubs m.prev_insn
          || is_fnmadds m.prev_insn
          || is_fnmsubs m.prev_insn)
      && rt m == i
      && not (ra m == i)
      && not (rc m == i)
      && ((infinite (m.fpregs (ra m)) && is_zero (m.fpregs (rc m)))
          || (is_zero (m.fpregs (ra m)) && infinite (m.fpregs (rc m))))

  unfoldable pub ignore_div_zero : Bool
  ignore_div_zero =
      is_set opts fp_opt_ignore_div_zero
      && (is_fdivs m.prev_insn || is_fdiv m.prev_insn || is_fres m.prev_insn)
      && rt m == i
      && not (rb m == i)
      && is_zero (m.fpregs (rb m))
