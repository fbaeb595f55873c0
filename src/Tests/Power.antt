-- ===== src/Tests/Power.antt =====
-- Comparisons of the registers of a PowerPC.
use risu.Prelude.{
  ℕ, ◌+◌, ◌-◌, ◌*◌, ◌/◌, ◌%◌, ◌^◌, ◌<◌, ◌≡◌, ◌==◌, ◌↔◌, refl, true, false, [], if◌then◌else◌, arith,
}
use risu.Prelude.Rows.{row_unless, each_from, all_from}
use risu.Endian.{byteswap_32}
use risu.Endian.Laws.{byteswap_32-lt, byteswap_32-byteswap_32}
use risu.Risu.Op.{op_of, op_code}
use risu.Ppc64.{Reginfo, Masks, store, get_risuop}
use risu.Ppc64.Floats.{anyqnan, is_nan}
use risu.Ppc64.FpOpts.{is_set, fp_opt_ignore_qnan_diffs, fp_opt_ignore_nan_operand}
use risu.Ppc64.Insns.{rt, ra, rb, is_fadd, is_mflr, is_div, is_divs, is_lscbx}
use risu.Ppc64.Rules.{selected, forgiven, tolerated, tolerated_operands}
use risu.Ppc64.Rules.Nan.{
  ignore_qnan_signs, ignore_qnan_values, ignore_qnan_diffs, ignore_qnan_load_float,
  ignore_nan_operand_ab,
}
use risu.Ppc64.Compare.{
  local_gregs_mask, check_greg, check_from, check_xer, xer_passes, check_branches, check_ccr,
  check_mq, check_fpscr, check_fpreg, reginfo_is_eq,
}
use risu.Ppc64.Dump.{greg_rows, fpreg_rows, special_rows, reginfo_dump_mismatch}
use risu.Ppc64.Agreement.{Matches, reginfo_is_eq-Matches, reginfo_is_eq-reginfo_dump_mismatch}
use risu.Ppc64.Vectors.{
  VrRegs, same_vreg, copy_vreg, settle_vreg, check_vregs, vreg_rows, passes, check_vregs-vreg_rows,
}
use risu.Ppc64.Swap.{
  reginfo_host_to_arch, reginfo_arch_to_host, IsTyped, Turned, reginfo_host_to_arch-Turned,
}
use risu.Ppc64.Target.{any_register}
use risu.Ppc64.Strict.{may_differ, reginfo_is_eq_strict, reginfo_is_eq-rt, reginfo_is_eq-may_differ}

-- After `fadd f3, f1, f2`.
abbrev master_regs : Reginfo
master_regs = record {
  second_prev_insn = 0;
  prev_insn = 0xfc61102a;
  faulting_insn = 0x5af0;
  next_insn = 0;
  nip = 4;
  gregs = λ i. i;
  fpregs = λ i. if i == 3 then 0x7ff8000000000001 else 0;
  fpscr = 0;
}

-- Another NaN in f3, and another bit of XER that the mask leaves out.
abbrev apprentice_regs : Reginfo
apprentice_regs = record master_regs {
  gregs = store 36 (36 + 2 ^ 20) master_regs.gregs;
  fpregs = store 3 0xfff8000000000000 master_regs.fpregs;
}

abbrev masks : ℕ → Masks
masks opts = record {
  gregs_mask = 0xbfffffff;
  ccr_mask = 2 ^ 32 - 1;
  xer_mask = 0xff;
  mq_mask = 2 ^ 32 - 1;
  fpscr_mask = 2 ^ 32 - 1;
  fpregs_mask = 2 ^ 32 - 1;
  vrregs_mask = 2 ^ 32 - 1;
  fp_opts = opts;
  cpu_opts = 0;
}

equal_under_diffs :
    (reginfo_is_eq (masks fp_opt_ignore_qnan_diffs) 5 master_regs apprentice_regs).0 ≡ true
unfolding reginfo_is_eq local_gregs_mask get_risuop op_of check_from check_greg check_xer xer_passes
    check_branches check_ccr check_mq check_fpscr check_fpreg store selected forgiven tolerated
    tolerated_operands ignore_qnan_signs ignore_qnan_values ignore_qnan_diffs is_set anyqnan
equal_under_diffs = refl

reginfo_is_eq-Matches_example :
    Matches 0xbfffffff master_regs apprentice_regs 3
      (reginfo_is_eq (masks fp_opt_ignore_qnan_diffs) 5 master_regs apprentice_regs).1
unfolding local_gregs_mask get_risuop op_of
reginfo_is_eq-Matches_example =
    reginfo_is_eq-Matches (masks fp_opt_ignore_qnan_diffs) 5 master_regs apprentice_regs 3
      (omega arith) equal_under_diffs

no_sigill : (op_code (get_risuop apprentice_regs) == 2 ^ 32 - 1) ≡ false
unfolding get_risuop op_of
no_sigill = refl

reginfo_is_eq-reginfo_dump_mismatch_example :
    ((reginfo_is_eq (masks 0) 5 master_regs apprentice_regs).0 ≡ true) ↔ (
      reginfo_dump_mismatch
        (masks 0)
        master_regs
        (reginfo_is_eq (masks 0) 5 master_regs apprentice_regs).1
      ≡ [])
reginfo_is_eq-reginfo_dump_mismatch_example =
    reginfo_is_eq-reginfo_dump_mismatch (masks 0) 5 master_regs apprentice_regs no_sigill

-- Another stack pointer, which is not compared, and another address with the same distance to LNK.
abbrev moved_regs : Reginfo
moved_regs = record master_regs {
  gregs = store 1 77 (store 32 1032 (store 35 1035 master_regs.gregs));
}

moved_silent : reginfo_dump_mismatch (masks 0) master_regs moved_regs ≡ []
unfolding reginfo_dump_mismatch each_from row_unless greg_rows fpreg_rows special_rows selected
    store
moved_silent = refl

moved_no_sigill : (op_code (get_risuop moved_regs) == 2 ^ 32 - 1) ≡ false
unfolding get_risuop op_of
moved_no_sigill = refl

moved_equal : (reginfo_is_eq (masks 0) 5 master_regs moved_regs).0 ≡ true
unfolding reginfo_is_eq local_gregs_mask get_risuop op_of check_from check_greg check_xer xer_passes
    check_branches check_ccr check_mq check_fpscr check_fpreg store selected
moved_equal = refl

reginfo_is_eq_strict_example : moved_regs.fpregs 3 ≡ 0x7ff8000000000001
unfolding selected
reginfo_is_eq_strict_example =
    reginfo_is_eq_strict (masks 0) 5 master_regs moved_regs 3 (omega arith) refl refl moved_equal

-- Register f1 is no number, so that f3 may differ after `fadd f3, f1, f2`.
abbrev nan_operand_regs : Reginfo
nan_operand_regs = record master_regs { fpregs = store 1 0x7ff0000000000001 master_regs.fpregs }

abbrev other_result_regs : Reginfo
other_result_regs = record nan_operand_regs { fpregs = store 3 5 nan_operand_regs.fpregs }

nan_operand_equal :
    (reginfo_is_eq (masks fp_opt_ignore_nan_operand) 5 nan_operand_regs other_result_regs).0 ≡ true
unfolding reginfo_is_eq local_gregs_mask get_risuop op_of check_from check_greg check_xer xer_passes
    check_branches check_ccr check_mq check_fpscr check_fpreg store selected forgiven tolerated
    tolerated_operands ignore_qnan_signs ignore_qnan_values ignore_qnan_diffs is_set anyqnan
    ignore_qnan_load_float ignore_nan_operand_ab is_fadd is_nan rt ra rb
nan_operand_equal = refl

reginfo_is_eq-rt_example : other_result_regs.fpregs 1 ≡ 0x7ff0000000000001
unfolding selected any_register is_set rt store
reginfo_is_eq-rt_example =
    reginfo_is_eq-rt (masks fp_opt_ignore_nan_operand) 5 nan_operand_regs other_result_regs 1
      (omega arith) refl refl refl nan_operand_equal

reginfo_is_eq-may_differ_example : apprentice_regs.gregs 4 ≡ 4
unfolding may_differ is_mflr is_div is_divs is_lscbx selected local_gregs_mask get_risuop op_of
reginfo_is_eq-may_differ_example =
    reginfo_is_eq-may_differ (masks fp_opt_ignore_qnan_diffs) 5 master_regs apprentice_regs 4
      (omega arith) refl refl equal_under_diffs

-- Register 1 differs, and the mask selects it or does not.
abbrev master_vectors : VrRegs
master_vectors = record {
  vrregs = λ i w. i + w;
  vscr = λ w. 0;
  vrsave = 0;
  vrsave2 = 0;
  save_vrvalid = 0;
}

abbrev apprentice_vectors : VrRegs
apprentice_vectors = record master_vectors { vrregs = λ i w. if i == 1 then 7 else i + w }

vectors_differ : (check_vregs (2 ^ 32 - 1) master_vectors 32 0 apprentice_vectors).0 ≡ false
unfolding check_vregs settle_vreg same_vreg selected
vectors_differ = refl

vectors_equal : (check_vregs (2 ^ 30 - 1) master_vectors 32 0 apprentice_vectors).0 ≡ true
unfolding check_vregs settle_vreg same_vreg copy_vreg selected
vectors_equal = refl

check_vregs-vreg_rows_example :
    let r = check_vregs (2 ^ 30 - 1) master_vectors 32 0 apprentice_vectors in
    (r.0 ≡ all_from (passes (2 ^ 30 - 1) master_vectors apprentice_vectors) 32 0)
    × ((each_from (vreg_rows master_vectors r.1) 32 0 ≡ []) ↔ (r.0 ≡ true))
check_vregs-vreg_rows_example = check_vregs-vreg_rows (2 ^ 30 - 1) master_vectors apprentice_vectors

-- A byte swap of 64 bits by two of 32.
abbrev swap_64 : ℕ → ℕ
swap_64 x = byteswap_32 (x % 2 ^ 32) * 2 ^ 32 + byteswap_32 (x / 2 ^ 32)

swap_64_twice : (x : ℕ) → x < 2 ^ 64 → swap_64 (swap_64 x) ≡ x
swap_64_twice x h =
    let l = byteswap_32-lt (x % 2 ^ 32) (omega arith) in
    let r = byteswap_32-lt (x / 2 ^ 32) (omega arith) in
    let low : swap_64 x % 2 ^ 32 ≡ byteswap_32 (x / 2 ^ 32) = omega arith in
    let high : swap_64 x / 2 ^ 32 ≡ byteswap_32 (x % 2 ^ 32) = omega arith in
    rw low (
      rw high (
        rw (byteswap_32-byteswap_32 (x / 2 ^ 32) (omega arith))
          (rw (byteswap_32-byteswap_32 (x % 2 ^ 32) (omega arith)) (omega arith))))

small_regs : IsTyped (record master_regs { gregs = λ i. 5 })
small_regs = record {
  second_prev_insn_lt = omega arith;
  prev_insn_lt = omega arith;
  faulting_insn_lt = omega arith;
  next_insn_lt = omega arith;
  nip_lt = omega arith;
  gregs_lt = λ i. omega arith;
  fpregs_lt = λ i. ground arith;
  fpscr_lt = omega arith;
}

abbrev five_regs : Reginfo
five_regs = record master_regs { gregs = λ i. 5 }

reginfo_host_to_arch-Turned_example :
    let swapped = reginfo_host_to_arch swap_64 five_regs in
    Turned 0 swapped.second_prev_insn
    × Turned 0xfc61102a swapped.prev_insn
    × Turned 0x5af0 swapped.faulting_insn
    × Turned 0 swapped.next_insn
    × Turned 4 swapped.nip
    × Turned 5 (swapped.gregs 7)
    × Turned 0 swapped.fpscr
    × (swapped.fpregs 3 ≡ swap_64 (five_regs.fpregs 3))
    × (reginfo_arch_to_host swap_64 swapped ≡ five_regs)
reginfo_host_to_arch-Turned_example =
    reginfo_host_to_arch-Turned swap_64 swap_64_twice five_regs 7 3 small_regs (omega arith)
      (omega arith)
