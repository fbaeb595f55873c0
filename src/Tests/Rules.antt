-- ===== src/Tests/Rules.antt =====
-- Numbers and single rules of the comparison on a PowerPC.
use risu.Prelude.{ℕ, ◌+◌, ◌-◌, ◌*◌, ◌^◌, ◌==◌, ◌/◌, ◌≡◌, refl, true, false, if◌then◌else◌}
use risu.Prelude.Int.{pos, minus, ◌-ℤ◌, signed, quot}
use risu.Ppc64.{Reginfo}
use risu.Ppc64.Floats.{
  is_zero, exponent, shifts, signinf, anyqnan, abs_difference, is_nan, below_flt_min, from_flt_max,
}
use risu.Ppc64.FpOpts.{is_set, fp_opt_ignore_div_zero, fp_opt_ignore_round}
use risu.Ppc64.Insns.{
  rt, ra, rb, is_fadd, is_fdiv, is_fdivs, is_fres, is_fnmadd, is_fmadd, is_fsub, is_fmul, is_fnmsub,
  is_fmsub,
}
use risu.Ppc64.Rules.Infinite.{ignore_div_zero}
use risu.Ppc64.Rules.Overflow.{overflow_fdivs}
use risu.Ppc64.Rules.Round.{ignore_round}
use risu.Ppc64.Compare.{too_large, put_field}

-- 2^-1074, the largest denormalized number, 2^-1022, 1 and infinity.
exponents :
    (exponent 1 ≡ minus 1075)
    × (exponent (2 ^ 52 - 1) ≡ minus 1024)
    × (exponent (2 ^ 52) ≡ minus 1022)
    × (exponent 0x3ff0000000000000 ≡ pos 0)
    × (exponent 0x7ff0000000000000 ≡ pos 4096)
unfolding exponent shifts is_zero ◌-ℤ◌
exponents = (refl, refl, refl, refl, refl)

quotients :
    (quot (signed 32 (2 ^ 32 - 7)) (pos 2) ≡ minus 3)
    × (too_large (quot (signed 64 (2 ^ 63)) (signed 32 (2 ^ 32 - 1))) ≡ true)
    × (too_large (pos (2 ^ 31 - 1)) ≡ false)
    × (too_large (minus (2 ^ 31)) ≡ false)
unfolding quot signed too_large
quotients = (refl, refl, refl, refl)

distances :
    (abs_difference 5 7 ≡ 2) × (abs_difference 7 5 ≡ 2) × (abs_difference 0 (2 ^ 64 - 1) ≡ 1)
unfolding abs_difference
distances = (refl, refl, refl)

-- The limits of single precision, which infinity reaches and a NaN does not.
limits :
    (below_flt_min 0x380fffffffffffff ≡ true)
    × (below_flt_min 0x3810000000000000 ≡ false)
    × (from_flt_max 0x7ff0000000000000 ≡ true)
    × (from_flt_max 0x7ff0000000000001 ≡ false)
unfolding below_flt_min from_flt_max is_nan
limits = (refl, refl, refl, refl)

-- The mask of condition field 1 in the place of field 2.
fields : put_field 0xf5ffffff (0xf5ffffff / 2 ^ 24) 8 ≡ 0xf55fffff
unfolding put_field
fields = refl

-- `insn f3, f1, f2` with the numbers of f1, f2 and f3.
abbrev after : ℕ → ℕ → ℕ → ℕ → Reginfo
after insn x y z = record {
  second_prev_insn = 0;
  prev_insn = insn + 3 * 2 ^ 21 + 1 * 2 ^ 16 + 2 * 2 ^ 11;
  faulting_insn = 0x5af0;
  next_insn = 0;
  nip = 4;
  gregs = λ i. 0;
  fpregs = λ i. if i == 1 then x else if i == 2 then y else if i == 3 then z else 0;
  fpscr = 0;
}

-- 1 / 0 by fdiv, where the results are infinite and not; and the same with another divisor.
divisions :
    (ignore_div_zero fp_opt_ignore_div_zero
        (after 0xfc000024 0x3ff0000000000000 0 0x7ff0000000000000)
        (after 0xfc000024 0x3ff0000000000000 0 7)
        3
      ≡ true)
    × (ignore_div_zero fp_opt_ignore_div_zero
          (after 0xfc000024 0x3ff0000000000000 1 0x7ff0000000000000)
          (after 0xfc000024 0x3ff0000000000000 1 7)
          3
        ≡ false)
unfolding ignore_div_zero is_set is_fdiv is_fdivs is_fres rt rb is_zero
divisions = (refl, refl)

-- The last bit of a sum, and the bit before it.
roundings :
    (ignore_round fp_opt_ignore_round (after 0xfc00002a 1 2 8) (after 0xfc00002a 1 2 9) 3 ≡ true)
    × (ignore_round fp_opt_ignore_round (after 0xfc00002a 1 2 8) (after 0xfc00002a 1 2 10) 3
        ≡ false)
unfolding ignore_round is_set is_fnmadd is_fmadd is_fsub is_fmul is_fnmsub is_fmsub is_fdiv is_fadd
    rt anyqnan abs_difference
roundings = (refl, refl)

-- 2^100 / 2^-100 by fdivs, which is infinite for one of the two.
overflows :
    overflow_fdivs
      (after 0xec000024 0x4630000000000000 0x39b0000000000000 0x47f0000000000000)
      (after 0xec000024 0x4630000000000000 0x39b0000000000000 0x7ff0000000000000)
      3
    ≡ true
unfolding overflow_fdivs is_fdivs rt ra rb signinf exponent shifts is_zero ◌-ℤ◌
overflows = refl
