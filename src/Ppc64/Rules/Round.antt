-- ===== src/Ppc64/Rules/Round.antt =====
-- risu_reginfo_ppc64.c, reginfo_is_eq: the differences by rounding that are let pass.
use risu.Prelude.{ℕ, ◌==◌, ◌&&◌, ◌||◌, not, leb, Bool}
use risu.Prelude.Int.{ltb_ℤ, minus}
use risu.Ppc64.{Reginfo}
use risu.Ppc64.Floats.{anyqnan, exponent, abs_difference}
use risu.Ppc64.Insns.{
  is_fadd, is_fadds, is_fdiv, is_fdivs, is_fmadd, is_fmadds, is_fmsub, is_fmsubs, is_fmul, is_fmuls,
  is_fnmadd, is_fnmadds, is_fnmsub, is_fnmsubs, is_fres, is_frsp, is_frsqrte, is_fsub, is_fsubs, ra,
  rb, rt,
}
use risu.Ppc64.FpOpts.{fp_opt_ignore_round, fp_opt_ignore_round_s, is_set}

module _ (opts : ℕ) (m a : Reginfo) (i : ℕ) where
  unfoldable pub ignore_round : Bool
  ignore_round =
      is_set opts fp_opt_ignore_round
      && (is_fnmadd m.prev_insn
          || is_fmadd m.prev_insn
          || is_fsub m.prev_insn
          || is_fmul m.prev_insn
          || is_fnmsub m.prev_insn
          || is_fmsub m.prev_insn
          || is_fdiv m.prev_insn
          || is_fadd m.prev_insn)
      && rt m == i
      && not (anyqnan (a.fpregs i))
      && not (anyqnan (m.fpregs i))
      && leb (abs_difference (a.fpregs i) (m.fpregs i)) 1

  unfoldable pub ignore_round_estimate : Bool
  ignore_round_estimate =
      is_set opts fp_opt_ignore_round
      && (is_frsqrte m.prev_insn || is_fres m.prev_insn)
      && rt m == i
      && not (anyqnan (a.fpregs i))
      && not (anyqnan (m.fpregs i))
      && leb (abs_difference (a.fpregs i) (m.fpregs i)) 0x800000000000

  unfoldable pub ignore_round_s : Bool
  ignore_round_s =
      is_set opts fp_opt_ignore_round_s
      && (is_fmuls m.prev_insn
          || is_fnmsubs m.prev_insn
          || is_fdivs m.prev_insn
          || is_fmadds m.prev_insn
          || is_fadds m.prev_insn
          || is_fnmadds m.prev_insn
          || is_frsp m.prev_insn
          || is_fmsubs m.prev_insn
          || is_fsubs m.prev_insn)
      && rt m == i
      && not (anyqnan (a.fpregs i))
      && not (anyqnan (m.fpregs i))
      && leb (abs_difference (a.fpregs i) (m.fpregs i)) 0x800000000

  unfoldable pub ignore_round_s_tiny : Bool
  ignore_round_s_tiny =
      is_set opts fp_opt_ignore_round_s
      && (is_fmuls m.prev_insn
          || is_fnmsubs m.prev_insn
          || is_fdivs m.prev_insn
          || is_fmadds m.prev_insn
          || is_fadds m.prev_insn
          || is_fnmadds m.prev_insn
          || is_frsp m.prev_insn
          || is_fmsubs m.prev_insn
          || is_fsubs m.prev_insn)
      && rt m == i
      && not (anyqnan (a.fpregs i))
      && not (anyqnan (m.fpregs i))
      && ltb_ℤ (exponent (a.fpregs i)) (minus 126)
      && ltb_ℤ (exponent (m.fpregs i)) (minus 126)
      && leb (abs_difference (a.fpregs i) (m.fpregs i)) 0x800000000000

  unfoldable pub ignore_round_s_tiny_operands : Bool
  ignore_round_s_tiny_operands =
      is_set opts fp_opt_ignore_round_s
      && (is_fadds m.prev_insn || is_fsubs m.prev_insn)
      && rt m == i
      && not (ra m == i)
      && not (rb m == i)
      && not (anyqnan (a.fpregs i))
      && not (anyqnan (m.fpregs i))
      && ltb_ℤ (exponent (m.fpregs i)) (minus 126)
      && ltb_ℤ (exponent (a.fpregs i)) (minus 126)
      && ltb_ℤ (exponent (a.fpregs (ra m))) (minus 126)
      && ltb_ℤ (exponent (m.fpregs (rb m))) (minus 126)
