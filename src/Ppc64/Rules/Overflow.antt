-- ===== src/Ppc64/Rules/Overflow.antt =====
-- risu_reginfo_ppc64.c, reginfo_is_eq: the overflows that are let pass.
use risu.Prelude.{ℕ, ◌==◌, ◌&&◌, ◌||◌, not, leb, Bool}
use risu.Prelude.Int.{pos, ◌+ℤ◌, ◌-ℤ◌, ltb_ℤ, leb_ℤ, eqb_ℤ}
use risu.Ppc64.{Reginfo}
use risu.Ppc64.Floats.{
  denormalized, signinf, negative, infinite, isqnan, mantissa, exponent, from_flt_max,
  abs_difference, same,
}
use risu.Ppc64.Insns.{
  is_fadds, is_fdiv, is_fdivs, is_fmadd, is_fmadds, is_fmsub, is_fmsubs, is_fmul, is_fmuls,
  is_fnmadd, is_fnmadds, is_fnmsub, is_fnmsubs, is_fres, is_frsp, is_fsubs, ra, rb, rc, rt,
}

module _ (m a : Reginfo) (i : ℕ) where
  unfoldable pub overflow_to_qnan : Bool
  overflow_to_qnan =
      (is_fmadds m.prev_insn
        || is_fmsubs m.prev_insn
        || is_fnmadds m.prev_insn
        || is_fnmsubs m.prev_insn
        || is_fmadd m.prev_insn
        || is_fmsub m.prev_insn
        || is_fnmadd m.prev_insn
        || is_fnmsub m.prev_insn)
      && rt m == i
      && infinite (m.fpregs i)
      && isqnan (a.fpregs i)
      && (ra m == i || rb m == i || rc m == i)

  unfoldable pub overflow_float_result : Bool
  overflow_float_result =
      (is_fnmadds m.prev_insn
        || is_fnmsubs m.prev_insn
        || is_fmsubs m.prev_insn
        || is_fmadds m.prev_insn
        || is_fdivs m.prev_insn
        || is_fadds m.prev_insn
        || is_fmuls m.prev_insn
        || is_fres m.prev_insn
        || is_fsubs m.prev_insn)
      && rt m == i
      && (infinite (m.fpregs i) || from_flt_max (m.fpregs i))
      && ltb_ℤ (pos 126) (exponent (a.fpregs i))

  unfoldable pub overflow_to_infinity_s : Bool
  overflow_to_infinity_s =
      (is_fsubs m.prev_insn
        || is_fadds m.prev_insn
        || is_fmuls m.prev_insn
        || is_fmadds m.prev_insn
        || is_fmsubs m.prev_insn
        || is_fnmadds m.prev_insn
        || is_fnmsubs m.prev_insn)
      && rt m == i
      && a.fpregs i == signinf (m.fpregs i)
      && ((not (ra m == i)
            && not (rb m == i)
            && denormalized (a.fpregs (rb m))
            && ltb_ℤ (pos 126) (exponent (m.fpregs (ra m)))
            && eqb_ℤ (exponent (m.fpregs i)) (exponent (a.fpregs (ra m)) -ℤ pos 192)
            && leb (abs_difference (mantissa (a.fpregs (ra m))) (mantissa (m.fpregs i))) 0x20000000)
          || (not (ra m == i) && ltb_ℤ (pos 126) (exponent (m.fpregs (ra m))))
          || (not (rb m == i) && ltb_ℤ (pos 126) (exponent (m.fpregs (rb m))))
          || (infinite (a.fpregs i) && (ra m == i || rb m == i)))

  unfoldable pub overflow_muls : Bool
  overflow_muls =
      (is_fmuls m.prev_insn
        || is_fmadds m.prev_insn
        || is_fmsubs m.prev_insn
        || is_fnmadds m.prev_insn
        || is_fnmsubs m.prev_insn)
      && rt m == i
      && not (ra m == i)
      && not (rc m == i)
      && a.fpregs i == signinf (m.fpregs i)
      && leb_ℤ (pos 126) (exponent (m.fpregs (ra m)) +ℤ exponent (m.fpregs (rc m)))

  unfoldable pub overflow_madds : Bool
  overflow_madds =
      (is_fmadds m.prev_insn
        || is_fmsubs m.prev_insn
        || is_fnmadds m.prev_insn
        || is_fnmsubs m.prev_insn)
      && rt m == i
      && not (rb m == i)
      && same (negative (a.fpregs i)) (negative (m.fpregs i))
      && leb_ℤ (pos 126) (exponent (a.fpregs i))
      && leb_ℤ (pos 126) (exponent (m.fpregs (rb m)))

  unfoldable pub overflow_mul : Bool
  overflow_mul =
      (is_fmul m.prev_insn
        || is_fmadd m.prev_insn
        || is_fmsub m.prev_insn
        || is_fnmadd m.prev_insn
        || is_fnmsub m.prev_insn)
      && rt m == i
      && not (ra m == i)
      && not (rc m == i)
      && a.fpregs i == signinf (m.fpregs i)
      && leb_ℤ (pos 1023) (exponent (m.fpregs (ra m)) +ℤ exponent (m.fpregs (rc m)))

  unfoldable pub overflow_madd_in_place : Bool
  overflow_madd_in_place =
      (is_fmadd m.prev_insn
        || is_fmsub m.prev_insn
        || is_fnmadd m.prev_insn
        || is_fnmsub m.prev_insn)
      && a.fpregs i == signinf (m.fpregs i)
      && rt m == i
      && (rb m == i || ra m == i)

  unfoldable pub overflow_fnmadd : Bool
  overflow_fnmadd =
      is_fnmadd m.prev_insn
      && rt m == i
      && not (ra m == i)
      && rc m == i
      && a.fpregs i == signinf (m.fpregs i)
      && ltb_ℤ (pos 0) (exponent (m.fpregs (ra m)))

  unfoldable pub overflow_fdiv : Bool
  overflow_fdiv =
      is_fdiv m.prev_insn
      && rt m == i
      && not (ra m == i)
      && not (rb m == i)
      && a.fpregs i == signinf (m.fpregs i)
      && leb_ℤ (pos 1023) (exponent (m.fpregs (ra m)) -ℤ exponent (m.fpregs (rb m)))

  unfoldable pub overflow_fdiv_in_place : Bool
  overflow_fdiv_in_place =
      is_fdiv m.prev_insn
      && rt m == i
      && (rb m == i || ra m == i)
      && a.fpregs i == signinf (m.fpregs i)

  unfoldable pub overflow_fdivs : Bool
  overflow_fdivs =
      is_fdivs m.prev_insn
      && rt m == i
      && not (ra m == i)
      && not (rb m == i)
      && a.fpregs i == signinf (m.fpregs i)
      && leb_ℤ (pos 126) (exponent (m.fpregs (ra m)) -ℤ exponent (m.fpregs (rb m)))

  unfoldable pub overflow_fres : Bool
  overflow_fres =
      is_fres m.prev_insn
      && rt m == i
      && a.fpregs i == signinf (m.fpregs i)
      && (rb m == i || leb_ℤ (pos 126) (pos 0 -ℤ exponent (m.fpregs (rb m))))

  unfoldable pub overflow_frsp : Bool
  overflow_frsp =
      is_frsp m.prev_insn
      && rt m == i
      && not (rb m == i)
      && a.fpregs i == signinf (m.fpregs i)
      && leb_ℤ (pos 126) (exponent (m.fpregs (rb m)))

  unfoldable pub overflow_frsp_in_place : Bool
  overflow_frsp_in_place =
      is_frsp m.prev_insn
      && rt m == i
      && rb m == i
      && a.fpregs i == signinf (m.fpregs i)
      && infinite (a.fpregs i)
