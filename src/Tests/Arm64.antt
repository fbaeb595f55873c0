-- ===== src/Tests/Arm64.antt =====
-- Two contexts of an AArch64 with vectors of 256 bits.
use risu.Prelude.{
  ℕ, ◌+◌, ◌*◌, ◌/◌, ◌^◌, ◌≤◌, ◌≡◌, ◌↔◌, refl, true, [], ◌∷◌, ◌==◌, if◌then◌else◌, arith,
}
use risu.Prelude.Bytes.{same_bytes, copy_bytes, bytes_at}
use risu.Prelude.Int.{pos}
use risu.Prelude.Outcome.{done}
use risu.Prelude.Rows.{row_unless, each_from, all_from}
use risu.Aarch64.Layout.{Sigcontext, IsLaidOut, risu_sve_regs_size, reginfo_zreg, reginfo_preg}
use risu.Aarch64.{
  end, fpsimd_record, sve_record, extra_record, unknown_record, Context, offsetof_extra,
  find_contexts, base_regs, take_simd, take_sve, take_vectors, process_arch_opt, reginfo_init,
  reginfo_is_eq, reginfo_size,
}
use risu.Aarch64.Dump.{
  quad, z_line, sve_zreg_is_eq, sve_preg_is_eq, sve_dump_preg, sve_dump_zreg_diff, z_row, p_row,
  vector_rows, reginfo_dump_mismatch,
}
use risu.Aarch64.Report.{reginfo_is_eq-reginfo_init_iff}
use risu.Aarch64.Sizes.{reginfo_size-process_arch_opt}

abbrev kernel : Sigcontext
kernel = record {
  fpsimd_size = 528;
  vl_from_vq = λ vq. vq * 16;
  vq_from_vl = λ vl. vl / 16;
  context_size = λ vq. 16 + (32 * (vq * 16) + 17 * (vq * 2));
  regs_offset = 16;
  regs_size = λ vq. 32 * (vq * 16) + 17 * (vq * 2);
  zreg_offset = λ vq i. 16 + i * (vq * 16);
  preg_offset = λ vq i. 16 + 32 * (vq * 16) + i * (vq * 2);
}

kernel-IsLaidOut : IsLaidOut kernel
kernel-IsLaidOut = record {
  vq_of_vl = λ vq. omega arith;
  zregs = λ vq i. refl;
  pregs = λ vq i. refl;
  size = λ vq. refl;
}

-- Byte 100 of the context of SVE is `x`, and the context stands in the extra space.
abbrev stopped : ℕ → ℕ → Context
stopped x fault = record {
  regs = λ i. i;
  pc = 8192;
  pstate = 2 ^ 31 + 5;
  fault_address = fault;
  reserved =
      fpsimd_record (record { size = 528; fpsr = 1; fpcr = 2; vregs = λ j. 7 })
        (extra_record
          (sve_record (record { size = 1124; vl = 32; bytes = λ j. if j == 100 then x else 0 }) end)
          (unknown_record end));
  load = λ at. 0x5af0;
}

-- The byte belongs to Z2, which has the bytes from 16 + 64 on, and there to its quadword 1.
z2_line :
    reginfo_dump_mismatch kernel
      (reginfo_init kernel 2 4096 (stopped 9 0))
      (reginfo_init kernel 2 4096 (stopped 8 5))
    ≡ z_line 2 (
        quad 1
          (0 ∷ 0 ∷ 0 ∷ 0 ∷ 0 ∷ 0 ∷ 0 ∷ 0 ∷ [])
          (0 ∷ 0 ∷ 0 ∷ 0 ∷ 9 ∷ 0 ∷ 0 ∷ 0 ∷ [])
          (0 ∷ 0 ∷ 0 ∷ 0 ∷ 0 ∷ 0 ∷ 0 ∷ 0 ∷ [])
          (0 ∷ 0 ∷ 0 ∷ 0 ∷ 8 ∷ 0 ∷ 0 ∷ 0 ∷ [])
        ∷ [])
      ∷ []
unfolding reginfo_dump_mismatch vector_rows z_row p_row sve_zreg_is_eq sve_preg_is_eq
    sve_dump_zreg_diff same_bytes copy_bytes bytes_at row_unless each_from all_from reginfo_init
    base_regs take_vectors take_sve take_simd find_contexts reginfo_zreg reginfo_preg sve_dump_preg
z2_line = refl

-- Only the fault addresses differ: nothing is reported, and the structures are not equal.
reginfo_is_eq-reginfo_init_iff_example :
    (reginfo_is_eq kernel
        (reginfo_init kernel 2 4096 (stopped 9 0))
        (reginfo_init kernel 2 4096 (stopped 9 5))
      ≡ true)
    ↔ ((reginfo_dump_mismatch kernel
            (reginfo_init kernel 2 4096 (stopped 9 0))
            (reginfo_init kernel 2 4096 (stopped 9 5))
          ≡ [])
        × ((reginfo_init kernel 2 4096 (stopped 9 0)).fault_address
            ≡ (reginfo_init kernel 2 4096 (stopped 9 5)).fault_address))
reginfo_is_eq-reginfo_init_iff_example =
    reginfo_is_eq-reginfo_init_iff kernel kernel-IsLaidOut 2 4096 (stopped 9 0) (stopped 9 5)

two_accepted : process_arch_opt 0 (pos 2) ≡ done 2
unfolding process_arch_opt
two_accepted = refl

reginfo_size-process_arch_opt_example :
    reginfo_size kernel (reginfo_init kernel 2 4096 (stopped 9 0))
    ≤ offsetof_extra + risu_sve_regs_size kernel 16
reginfo_size-process_arch_opt_example =
    reginfo_size-process_arch_opt kernel kernel-IsLaidOut 0 (pos 2) 2 two_accepted 4096
      (stopped 9 0)
