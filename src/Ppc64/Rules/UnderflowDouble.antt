-- ===== src/Ppc64/Rules/UnderflowDouble.antt =====
-- risu_reginfo_ppc64.c, reginfo_is_eq: the underflows of double precision that are let pass.
use risu.Prelude.{ℕ, ◌==◌, ◌&&◌, ◌||◌, not, leb, Bool}
use risu.Prelude.Int.{pos, ◌+ℤ◌, ◌-ℤ◌, ltb_ℤ, minus}
use risu.Ppc64.{Reginfo}
use risu.Ppc64.Floats.{denormalized, signz, negative, exponent, normalized, abs_difference, same}
use risu.Ppc64.Insns.{
  is_fadd, is_fdiv, is_fmadd, is_fmsub, is_fmul, is_fnmadd, is_fnmsub, is_fsub, ra, rb, rc, rt,
}

module _ (m a : Reginfo) (i : ℕ) where
  unfoldable pub underflow_zero_master : Bool
  underflow_zero_master =
      (is_fmadd m.prev_insn
        || is_fnmadd m.prev_insn
        || is_fnmsub m.prev_insn
        || is_fsub m.prev_insn
        || is_fadd m.prev_insn)
      && rt m == i
      && m.fpregs i == signz (a.fpregs i)
      && ltb_ℤ (exponent (a.fpregs i)) (minus 1022)

  unfoldable pub underflow_mul_tiny : Bool
  underflow_mul_tiny =
      (is_fmul m.prev_insn
        || is_fmadd m.prev_insn
        || is_fmsub m.prev_insn
        || is_fnmadd m.prev_insn
        || is_fnmsub m.prev_insn)
      && rt m == i
      && not (ra m == i)
      && not (rc m == i)
      && ltb_ℤ (exponent (a.fpregs i)) (minus 126)
      && ltb_ℤ (exponent (m.fpregs (ra m)) +ℤ exponent (m.fpregs (rc m))) (minus 1022)

  unfoldable pub underflow_mul_zero_master : Bool
  underflow_mul_zero_master =
      (is_fmul m.prev_insn
        || is_fmadd m.prev_insn
        || is_fmsub m.prev_insn
        || is_fnmadd m.prev_insn
        || is_fnmsub m.prev_insn)
      && rt m == i
      && not (ra m == i)
      && not (rc m == i)
      && m.fpregs i == signz (a.fpregs i)
      && denormalized (a.fpregs i)
      && ltb_ℤ (exponent (m.fpregs (ra m)) +ℤ exponent (m.fpregs (rc m))) (minus 1022)

  unfoldable pub underflow_fmul_in_place : Bool
  underflow_fmul_in_place =
      is_fmul m.prev_insn
      && rt m == i
      && (ra m == i || rc m == i)
      && ltb_ℤ (exponent (a.fpregs i)) (minus 126)
      && ltb_ℤ (exponent (m.fpregs (ra m))) (pos 0x200)

  unfoldable pub underflow_fdiv_denormalized : Bool
  underflow_fdiv_denormalized =
      is_fdiv m.prev_insn
      && rt m == i
      && not (ra m == i)
      && not (rb m == i)
      && same (negative (a.fpregs i)) (negative (m.fpregs i))
      && denormalized (a.fpregs i)
      && ltb_ℤ (exponent (m.fpregs (ra m)) -ℤ exponent (m.fpregs (rb m))) (minus 1022)

  unfoldable pub underflow_fdiv_zero : Bool
  underflow_fdiv_zero =
      is_fdiv m.prev_insn
      && rt m == i
      && not (ra m == i)
      && not (rb m == i)
      && a.fpregs i == signz (m.fpregs i)
      && ltb_ℤ (exponent (m.fpregs (ra m)) -ℤ exponent (m.fpregs (rb m))) (minus 1022)

  unfoldable pub underflow_fdiv_in_b : Bool
  underflow_fdiv_in_b =
      is_fdiv m.prev_insn
      && rt m == i
      && not (ra m == i)
      && rb m == i
      && a.fpregs i == signz (m.fpregs i)
      && ltb_ℤ (exponent (a.fpregs (ra m))) (minus 126)

  unfoldable pub underflow_fdiv_in_a : Bool
  underflow_fdiv_in_a =
      is_fdiv m.prev_insn
      && rt m == i
      && ra m == i
      && not (rb m == i)
      && a.fpregs i == signz (m.fpregs i)

  unfoldable pub underflow_fdiv_in_place : Bool
  underflow_fdiv_in_place =
      is_fdiv m.prev_insn
      && rt m == i
      && (ra m == i || rb m == i)
      && ltb_ℤ (exponent (a.fpregs i)) (minus 1022)
      && ltb_ℤ (exponent (m.fpregs i)) (minus 1022 +ℤ pos 1536)

  unfoldable pub underflow_normalized : Bool
  underflow_normalized =
      (is_fsub m.prev_insn
        || is_fmsub m.prev_insn
        || is_fnmadd m.prev_insn
        || is_fnmsub m.prev_insn
        || is_fmadd m.prev_insn
        || is_fmul m.prev_insn
        || is_fadd m.prev_insn
        || is_fdiv m.prev_insn)
      && rt m == i
      && same (negative (a.fpregs i)) (negative (m.fpregs i))
      && denormalized (a.fpregs i)
      && leb (abs_difference (normalized (a.fpregs i)) (m.fpregs i)) 0x20000

  unfoldable pub underflow_fmsub : Bool
  underflow_fmsub =
      is_fmsub m.prev_insn
      && rt m == i
      && m.fpregs i == signz (a.fpregs i)
      && denormalized (a.fpregs i)

  unfoldable pub underflow_fadd_in_place : Bool
  underflow_fadd_in_place =
      is_fadd m.prev_insn
      && rt m == i
      && (ra m == i || rb m == i)
      && m.fpregs i == signz (a.fpregs i)
      && denormalized (a.fpregs i)
