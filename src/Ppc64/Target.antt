-- ===== src/Ppc64/Target.antt =====
-- risu_reginfo_ppc64.c: but for five options, the condition of reginfo_is_eq lets only the register pass
-- that the previous instruction names as its target.
use risu.Prelude.{ℕ, ◌≡◌, ◌==◌, ◌&&◌, ◌||◌, Bool, false, arith}
use risu.Ppc64.{Reginfo}
use risu.Ppc64.Insns.{rt}
use risu.Ppc64.FpOpts.{
  is_set, fp_opt_ignore_qnan_signs, fp_opt_ignore_qnan_values, fp_opt_ignore_qnan_diffs,
  fp_opt_ignore_qnan_load_float, fp_opt_ignore_zero_signs,
}
use risu.Ppc64.Rules.Nan.{
  ignore_qnan_signs, ignore_qnan_values, ignore_qnan_diffs, ignore_qnan_load_float,
  ignore_nan_operand_ab, ignore_nan_operand_b, ignore_nan_operand_abc, ignore_nan_operand_ac,
}
use risu.Ppc64.Rules.Infinite.{
  ignore_opposite_inf_add, ignore_opposite_inf_sub, ignore_opposite_inf_multiply, ignore_inf_x_0,
  ignore_div_zero,
}
use risu.Ppc64.Rules.UnderflowSingle.{
  underflow_float_result, underflow_muls, underflow_divs, underflow_frsp, underflow_frsp_in_place,
  underflow_zero_master_s, underflow_tiny_operands_s, underflow_adds_scaled, underflow_fdivs_zero,
  underflow_fdivs_zero_master, underflow_fdivs_in_b, underflow_fdivs_in_a, underflow_fres,
  underflow_fres_in_place, underflow_scaled_s, underflow_fmadds_zero, underflow_all_tiny_s,
}
use risu.Ppc64.Rules.UnderflowDouble.{
  underflow_zero_master, underflow_mul_tiny, underflow_mul_zero_master, underflow_fmul_in_place,
  underflow_fdiv_denormalized, underflow_fdiv_zero, underflow_fdiv_in_b, underflow_fdiv_in_a,
  underflow_fdiv_in_place, underflow_normalized, underflow_fmsub, underflow_fadd_in_place,
}
use risu.Ppc64.Rules.Overflow.{
  overflow_to_qnan, overflow_float_result, overflow_to_infinity_s, overflow_muls, overflow_madds,
  overflow_mul, overflow_madd_in_place, overflow_fnmadd, overflow_fdiv, overflow_fdiv_in_place,
  overflow_fdivs, overflow_fres, overflow_frsp, overflow_frsp_in_place,
}
use risu.Ppc64.Rules.Round.{
  ignore_round, ignore_round_estimate, ignore_round_s, ignore_round_s_tiny,
  ignore_round_s_tiny_operands,
}
use risu.Ppc64.Rules.Special.{
  ignore_rsqrt_negative, ignore_rsqrt_negative_zero, ignore_rsqrt_zero, ignore_qnan_from_inf,
  ignore_qnan_from_unknown, ignore_inf_from_unknown_b, ignore_inf_from_unknown_div,
  ignore_inf_from_unknown_multiply, ignore_zero_signs, ignore_inf_div_inf, ignore_qnan_snan,
  ignore_nan_unknown_operands,
}
use risu.Ppc64.Rules.{
  ignore_underflow, ignore_overflow, tolerated_operands, tolerated_results, tolerated,
}

-- The options that let any register pass.
unfoldable pub any_register : ℕ → Bool
any_register opts =
    is_set opts fp_opt_ignore_qnan_signs
    || is_set opts fp_opt_ignore_qnan_values
    || is_set opts fp_opt_ignore_qnan_diffs
    || is_set opts fp_opt_ignore_qnan_load_float
    || is_set opts fp_opt_ignore_zero_signs

or_none : (x y : Bool) → x ≡ false → y ≡ false → (x || y) ≡ false
or_none x y h k = ground arith

and_rest : (x y : Bool) → y ≡ false → (x && y) ≡ false
and_rest x y h = ground arith

and_first : (x y : Bool) → x ≡ false → (x && y) ≡ false
and_first x y h = ground arith

five :
    {u v w x y : Bool}
    → (u || v || w || x || y) ≡ false
    → (u ≡ false) × (v ≡ false) × (w ≡ false) × (x ≡ false) × (y ≡ false)
five h = (ground arith, ground arith, ground arith, ground arith, ground arith)

module _ (opts : ℕ) (m a : Reginfo) (i : ℕ) (other : (rt m == i) ≡ false) where
  ignore_underflow_other : ignore_underflow opts m a i ≡ false
  unfolding ignore_underflow underflow_float_result underflow_muls underflow_divs underflow_frsp
      underflow_frsp_in_place underflow_zero_master_s underflow_tiny_operands_s
      underflow_adds_scaled underflow_fdivs_zero underflow_fdivs_zero_master underflow_fdivs_in_b
      underflow_fdivs_in_a underflow_fres underflow_fres_in_place underflow_scaled_s
      underflow_fmadds_zero underflow_all_tiny_s underflow_zero_master underflow_mul_tiny
      underflow_mul_zero_master underflow_fmul_in_place underflow_fdiv_denormalized
      underflow_fdiv_zero underflow_fdiv_in_b underflow_fdiv_in_a underflow_fdiv_in_place
      underflow_normalized underflow_fmsub underflow_fadd_in_place
  ignore_underflow_other = search (or_none, and_first, and_rest, other) depth 60 fits 3000

  ignore_overflow_other : ignore_overflow opts m a i ≡ false
  unfolding ignore_overflow overflow_to_qnan overflow_float_result overflow_to_infinity_s
      overflow_muls overflow_madds overflow_mul overflow_madd_in_place overflow_fnmadd overflow_fdiv
      overflow_fdiv_in_place overflow_fdivs overflow_fres overflow_frsp overflow_frsp_in_place
  ignore_overflow_other = search (or_none, and_first, and_rest, other) depth 60 fits 3000

  module _ (signs : is_set opts fp_opt_ignore_qnan_signs ≡ false)
      (vals : is_set opts fp_opt_ignore_qnan_values ≡ false)
      (diffs : is_set opts fp_opt_ignore_qnan_diffs ≡ false)
      (load : is_set opts fp_opt_ignore_qnan_load_float ≡ false)
      (zeros : is_set opts fp_opt_ignore_zero_signs ≡ false) where
    tolerated_operands_other : tolerated_operands opts m a i ≡ false
    unfolding tolerated_operands ignore_qnan_signs ignore_qnan_values ignore_qnan_diffs
        ignore_qnan_load_float ignore_nan_operand_ab ignore_nan_operand_b ignore_nan_operand_abc
        ignore_nan_operand_ac ignore_opposite_inf_add ignore_opposite_inf_sub
        ignore_opposite_inf_multiply ignore_inf_x_0 ignore_div_zero
    tolerated_operands_other =
        search (or_none, and_first, and_rest, other, signs, vals, diffs, load) depth 60 fits 3000

    tolerated_results_other : tolerated_results opts m a i ≡ false
    unfolding tolerated_results ignore_round ignore_round_estimate ignore_round_s
        ignore_round_s_tiny ignore_round_s_tiny_operands ignore_rsqrt_negative
        ignore_rsqrt_negative_zero ignore_rsqrt_zero ignore_qnan_from_inf ignore_qnan_from_unknown
        ignore_inf_from_unknown_b ignore_inf_from_unknown_div ignore_inf_from_unknown_multiply
        ignore_zero_signs ignore_inf_div_inf ignore_qnan_snan ignore_nan_unknown_operands
    tolerated_results_other = search (or_none, and_first, and_rest, other, zeros) depth 60 fits 3000

  pub tolerated_other : any_register opts ≡ false → tolerated opts m a i ≡ false
  unfolding tolerated any_register
  tolerated_other h =
      let (signs, vals, diffs, load, zeros) = five h in
      or_none _ _
        (or_none _ _
          (or_none _ _ (tolerated_operands_other signs vals diffs load zeros)
            ignore_underflow_other)
          ignore_overflow_other)
        (tolerated_results_other signs vals diffs load zeros)
