-- ===== src/Ppc64/Rules/UnderflowSingle.antt =====
-- risu_reginfo_ppc64.c, reginfo_is_eq: the underflows of single precision that are let pass.
use risu.Prelude.{ℕ, ◌==◌, ◌&&◌, ◌||◌, not, leb, Bool}
use risu.Prelude.Int.{pos, ◌+ℤ◌, ◌-ℤ◌, ltb_ℤ, leb_ℤ, eqb_ℤ, abs, minus}
use risu.Ppc64.{Reginfo}
use risu.Ppc64.Floats.{
  denormalized, is_zero, signz, negative, mantissa, exponent, below_flt_min, abs_difference, same,
}
use risu.Ppc64.Insns.{
  is_fadds, is_fdivs, is_fmadds, is_fmsubs, is_fmuls, is_fnmadds, is_fnmsubs, is_fres, is_frsp,
  is_fsubs, ra, rb, rc, rt,
}

module _ (m a : Reginfo) (i : ℕ) where
  unfoldable pub underflow_float_result : Bool
  underflow_float_result =
      (is_frsp m.prev_insn
        || is_fmuls m.prev_insn
        || is_fnmsubs m.prev_insn
        || is_fmadds m.prev_insn
        || is_fdivs m.prev_insn
        || is_fmsubs m.prev_insn
        || is_fnmadds m.prev_insn
        || is_fadds m.prev_insn
        || is_fsubs m.prev_insn
        || is_fres m.prev_insn)
      && rt m == i
      && below_flt_min (m.fpregs i)
      && same (negative (a.fpregs i)) (negative (m.fpregs i))
      && ltb_ℤ (exponent (a.fpregs i)) (minus 126)

  unfoldable pub underflow_muls : Bool
  underflow_muls =
      (is_fmsubs m.prev_insn
        || is_fnmadds m.prev_insn
        || is_fnmsubs m.prev_insn
        || is_fmuls m.prev_insn
        || is_fmadds m.prev_insn)
      && rt m == i
      && same (negative (a.fpregs i)) (negative (m.fpregs i))
      && ltb_ℤ (exponent (a.fpregs i)) (minus 126)
      && ((not (ra m == i)
            && not (rc m == i)
            && ltb_ℤ (exponent (m.fpregs (ra m)) +ℤ exponent (m.fpregs (rc m))) (minus 126))
          || ra m == i
          || rc m == i)

  unfoldable pub underflow_divs : Bool
  underflow_divs =
      is_fdivs m.prev_insn
      && rt m == i
      && same (negative (a.fpregs i)) (negative (m.fpregs i))
      && ltb_ℤ (exponent (a.fpregs i)) (minus 126)
      && ((not (ra m == i)
            && not (rb m == i)
            && leb_ℤ (exponent (m.fpregs (ra m)) -ℤ exponent (m.fpregs (rb m))) (minus 126))
          || ra m == i
          || rb m == i)

  unfoldable pub underflow_frsp : Bool
  underflow_frsp =
      is_frsp m.prev_insn
      && rt m == i
      && not (rb m == i)
      && same (negative (a.fpregs i)) (negative (m.fpregs i))
      && ltb_ℤ (exponent (a.fpregs i)) (minus 126)
      && ltb_ℤ (exponent (m.fpregs (rb m))) (minus 126)

  unfoldable pub underflow_frsp_in_place : Bool
  underflow_frsp_in_place =
      is_frsp m.prev_insn
      && rt m == i
      && rb m == i
      && same (negative (a.fpregs i)) (negative (m.fpregs i))
      && ltb_ℤ (exponent (a.fpregs i)) (minus 126)
      && ltb_ℤ (exponent (m.fpregs i)) (minus 126 +ℤ pos 192)

  unfoldable pub underflow_zero_master_s : Bool
  underflow_zero_master_s =
      (is_fadds m.prev_insn || is_fsubs m.prev_insn)
      && rt m == i
      && m.fpregs i == signz (a.fpregs i)
      && ltb_ℤ (exponent (a.fpregs i)) (minus 126)

  unfoldable pub underflow_tiny_operands_s : Bool
  underflow_tiny_operands_s =
      (is_fadds m.prev_insn || is_fsubs m.prev_insn)
      && rt m == i
      && same (negative (a.fpregs i)) (negative (m.fpregs i))
      && ltb_ℤ (exponent (a.fpregs i)) (minus 126)
      && (ra m == i || ltb_ℤ (exponent (m.fpregs (ra m))) (minus 126))
      && (rb m == i || ltb_ℤ (exponent (m.fpregs (rb m))) (minus 126))

  unfoldable pub underflow_adds_scaled : Bool
  underflow_adds_scaled =
      (is_fadds m.prev_insn || is_fsubs m.prev_insn)
      && rt m == i
      && same (negative (a.fpregs i)) (negative (m.fpregs i))
      && ltb_ℤ (exponent (a.fpregs i)) (minus 126)
      && leb (abs (exponent (m.fpregs i) -ℤ exponent (a.fpregs i) -ℤ pos 192)) 1

  unfoldable pub underflow_fdivs_zero : Bool
  underflow_fdivs_zero =
      is_fdivs m.prev_insn
      && rt m == i
      && not (ra m == i)
      && not (rb m == i)
      && a.fpregs i == signz (m.fpregs i)
      && ltb_ℤ (exponent (m.fpregs (ra m)) -ℤ exponent (m.fpregs (rb m))) (minus 126)

  unfoldable pub underflow_fdivs_zero_master : Bool
  underflow_fdivs_zero_master =
      is_fdivs m.prev_insn
      && rt m == i
      && not (ra m == i)
      && not (rb m == i)
      && m.fpregs i == signz (a.fpregs i)
      && ltb_ℤ (exponent (m.fpregs (ra m)) -ℤ exponent (m.fpregs (rb m))) (minus 126)

  unfoldable pub underflow_fdivs_in_b : Bool
  underflow_fdivs_in_b =
      is_fdivs m.prev_insn
      && rt m == i
      && not (ra m == i)
      && rb m == i
      && a.fpregs i == signz (m.fpregs i)
      && denormalized (a.fpregs (ra m))

  unfoldable pub underflow_fdivs_in_a : Bool
  underflow_fdivs_in_a =
      is_fdivs m.prev_insn
      && rt m == i
      && not (rb m == i)
      && ra m == i
      && a.fpregs i == signz (m.fpregs i)

  unfoldable pub underflow_fres : Bool
  underflow_fres =
      is_fres m.prev_insn
      && rt m == i
      && ltb_ℤ (exponent (a.fpregs i)) (minus 126)
      && (rb m == i || leb_ℤ (pos 126) (exponent (m.fpregs (rb m))))

  unfoldable pub underflow_fres_in_place : Bool
  underflow_fres_in_place =
      is_fres m.prev_insn
      && rt m == i
      && rb m == i
      && ltb_ℤ (exponent (a.fpregs i)) (minus 126)
      && eqb_ℤ (exponent (m.fpregs i)) (exponent (a.fpregs i) +ℤ pos 192)

  unfoldable pub underflow_scaled_s : Bool
  underflow_scaled_s =
      (is_fnmsubs m.prev_insn || is_fsubs m.prev_insn || is_fadds m.prev_insn)
      && rt m == i
      && ltb_ℤ (exponent (a.fpregs i)) (minus 126)
      && eqb_ℤ (exponent (m.fpregs i)) (exponent (a.fpregs i) +ℤ pos 192)
      && leb (abs_difference (mantissa (a.fpregs i)) (mantissa (m.fpregs i))) 0x20000000

  unfoldable pub underflow_fmadds_zero : Bool
  underflow_fmadds_zero =
      is_fmadds m.prev_insn
      && rt m == i
      && not (ra m == i)
      && not (rc m == i)
      && not (rb m == i)
      && ((is_zero (m.fpregs (ra m)) && denormalized (m.fpregs (rc m)))
          || (is_zero (m.fpregs (rc m)) && denormalized (m.fpregs (ra m))))
      && is_zero (m.fpregs i)
      && a.fpregs i == m.fpregs (rb m)

  unfoldable pub underflow_all_tiny_s : Bool
  underflow_all_tiny_s =
      (is_fnmsubs m.prev_insn
        || is_fmadds m.prev_insn
        || is_fmsubs m.prev_insn
        || is_fnmadds m.prev_insn)
      && rt m == i
      && (ra m == i || ltb_ℤ (exponent (a.fpregs (ra m))) (minus 126))
      && (rb m == i || ltb_ℤ (exponent (a.fpregs (rb m))) (minus 126))
      && (rc m == i || ltb_ℤ (exponent (a.fpregs (rc m))) (minus 126))
