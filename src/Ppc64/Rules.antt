-- ===== src/Ppc64/Rules.antt =====
-- risu_reginfo_ppc64.c, reginfo_is_eq: whether a difference between two floating-point registers is
-- let pass.
pub mod Nan
pub mod Infinite
pub mod UnderflowSingle
pub mod UnderflowDouble
pub mod Overflow
pub mod Round
pub mod Special
use risu.Prelude.{ℕ, ◌&&◌, ◌||◌, ◌==◌, ◌/◌, ◌%◌, ◌-◌, ◌^◌, not, Bool}
use risu.Ppc64.{Reginfo, Masks}
use risu.Ppc64.FpOpts.{is_set, fp_opt_ignore_underflow, fp_opt_ignore_overflow}
use risu.Ppc64.Rules.Nan.{
  ignore_qnan_signs, ignore_qnan_values, ignore_qnan_diffs, ignore_qnan_load_float,
  ignore_nan_operand_ab, ignore_nan_operand_b, ignore_nan_operand_abc, ignore_nan_operand_ac,
}
use risu.Ppc64.Rules.Infinite.{
  ignore_opposite_inf_add, ignore_opposite_inf_sub, ignore_opposite_inf_multiply, ignore_inf_x_0,
  ignore_div_zero,
}
use risu.Ppc64.Rules.UnderflowSingle.{
  underflow_float_result, underflow_muls, underflow_divs, underflow_frsp, underflow_frsp_in_place,
  underflow_zero_master_s, underflow_tiny_operands_s, underflow_adds_scaled, underflow_fdivs_zero,
  underflow_fdivs_zero_master, underflow_fdivs_in_b, underflow_fdivs_in_a, underflow_fres,
  underflow_fres_in_place, underflow_scaled_s, underflow_fmadds_zero, underflow_all_tiny_s,
}
use risu.Ppc64.Rules.UnderflowDouble.{
  underflow_zero_master, underflow_mul_tiny, underflow_mul_zero_master, underflow_fmul_in_place,
  underflow_fdiv_denormalized, underflow_fdiv_zero, underflow_fdiv_in_b, underflow_fdiv_in_a,
  underflow_fdiv_in_place, underflow_normalized, underflow_fmsub, underflow_fadd_in_place,
}
use risu.Ppc64.Rules.Overflow.{
  overflow_to_qnan, overflow_float_result, overflow_to_infinity_s, overflow_muls, overflow_madds,
  overflow_mul, overflow_madd_in_place, overflow_fnmadd, overflow_fdiv, overflow_fdiv_in_place,
  overflow_fdivs, overflow_fres, overflow_frsp, overflow_frsp_in_place,
}
use risu.Ppc64.Rules.Round.{
  ignore_round, ignore_round_estimate, ignore_round_s, ignore_round_s_tiny,
  ignore_round_s_tiny_operands,
}
use risu.Ppc64.Rules.Special.{
  ignore_rsqrt_negative, ignore_rsqrt_negative_zero, ignore_rsqrt_zero, ignore_qnan_from_inf,
  ignore_qnan_from_unknown, ignore_inf_from_unknown_b, ignore_inf_from_unknown_div,
  ignore_inf_from_unknown_multiply, ignore_zero_signs, ignore_inf_div_inf, ignore_qnan_snan,
  ignore_nan_unknown_operands,
}

-- `(1 << (31-i)) & mask`
unfoldable pub selected : ℕ → ℕ → Bool
selected mask i = mask / 2 ^ (31 - i) % 2 == 1

module _ (opts : ℕ) (m a : Reginfo) (i : ℕ) where
  unfoldable pub ignore_underflow : Bool
  ignore_underflow =
      is_set opts fp_opt_ignore_underflow
      && (underflow_float_result m a i
          || underflow_muls m a i
          || underflow_divs m a i
          || underflow_frsp m a i
          || underflow_frsp_in_place m a i
          || underflow_zero_master m a i
          || underflow_zero_master_s m a i
          || underflow_tiny_operands_s m a i
          || underflow_adds_scaled m a i
          || underflow_mul_tiny m a i
          || underflow_mul_zero_master m a i
          || underflow_fmul_in_place m a i
          || underflow_fdiv_denormalized m a i
          || underflow_fdiv_zero m a i
          || underflow_fdiv_in_b m a i
          || underflow_fdiv_in_a m a i
          || underflow_fdiv_in_place m a i
          || underflow_fdivs_zero m a i
          || underflow_fdivs_zero_master m a i
          || underflow_fdivs_in_b m a i
          || underflow_fdivs_in_a m a i
          || underflow_fres m a i
          || underflow_fres_in_place m a i
          || underflow_normalized m a i
          || underflow_fmsub m a i
          || underflow_fadd_in_place m a i
          || underflow_scaled_s m a i
          || underflow_fmadds_zero m a i
          || underflow_all_tiny_s m a i)

  unfoldable pub ignore_overflow : Bool
  ignore_overflow =
      is_set opts fp_opt_ignore_overflow
      && (overflow_to_qnan m a i
          || overflow_float_result m a i
          || overflow_to_infinity_s m a i
          || overflow_muls m a i
          || overflow_madds m a i
          || overflow_mul m a i
          || overflow_madd_in_place m a i
          || overflow_fnmadd m a i
          || overflow_fdiv m a i
          || overflow_fdiv_in_place m a i
          || overflow_fdivs m a i
          || overflow_fres m a i
          || overflow_frsp m a i
          || overflow_frsp_in_place m a i)

  -- The first of the alternatives, up to the divisions by zero.
  unfoldable pub tolerated_operands : Bool
  tolerated_operands =
      ignore_qnan_signs opts m a i
      || ignore_qnan_values opts m a i
      || ignore_qnan_diffs opts m a i
      || ignore_qnan_load_float opts m a i
      || ignore_nan_operand_ab opts m a i
      || ignore_nan_operand_b opts m a i
      || ignore_nan_operand_abc opts m a i
      || ignore_nan_operand_ac opts m a i
      || ignore_opposite_inf_add opts m a i
      || ignore_opposite_inf_sub opts m a i
      || ignore_opposite_inf_multiply opts m a i
      || ignore_inf_x_0 opts m a i
      || ignore_div_zero opts m a i

  -- The last of the alternatives, from the rounding on.
  unfoldable pub tolerated_results : Bool
  tolerated_results =
      ignore_round opts m a i
      || ignore_round_estimate opts m a i
      || ignore_round_s opts m a i
      || ignore_round_s_tiny opts m a i
      || ignore_round_s_tiny_operands opts m a i
      || ignore_rsqrt_negative opts m a i
      || ignore_rsqrt_negative_zero opts m a i
      || ignore_rsqrt_zero opts m a i
      || ignore_qnan_from_inf opts m a i
      || ignore_qnan_from_unknown opts m a i
      || ignore_inf_from_unknown_b opts m a i
      || ignore_inf_from_unknown_div opts m a i
      || ignore_inf_from_unknown_multiply opts m a i
      || ignore_zero_signs opts m a i
      || ignore_inf_div_inf opts m a i
      || ignore_qnan_snan opts m a i
      || ignore_nan_unknown_operands opts m a i

  -- The alternatives that an option asks for.
  unfoldable pub tolerated : Bool
  tolerated = tolerated_operands || ignore_underflow || ignore_overflow || tolerated_results

-- The whole condition.
unfoldable pub forgiven : Masks → Reginfo → Reginfo → ℕ → Bool
forgiven k m a i = not (selected k.fpregs_mask i) || tolerated k.fp_opts m a i
