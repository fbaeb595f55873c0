-- ===== src/Tests/Loong.antt =====
-- Two contexts of a LoongArch with vectors of 128 bits.
use risu.Prelude.{ℕ, ◌≡◌, ◌↔◌, refl, true, [], ◌∷◌, ◌==◌, if◌then◌else◌}
use risu.Prelude.Rows.{row_unless, each_from}
use risu.Loongarch64.{
  VectorContext, fpu_info, lsx_info, Context, vreg_2, parse_extcontext, take_vectors, take_lsx,
  base_regs, reginfo_init, vreg_row, reginfo_is_eq, reginfo_dump_mismatch,
}
use risu.Loongarch64.Report.{reginfo_dump_mismatch-reginfo_init_iff}

-- The element 13 of the register file is `x`.
abbrev vectors : ℕ → VectorContext
vectors x = record { regs = λ k. if k == 13 then x else k; fcc = 1; fcsr = 2 }

abbrev stopped : ℕ → Context
stopped x = record {
  sc_pc = 4096;
  sc_regs = λ i. i;
  sc_flags = 0;
  sc_extcontext = fpu_info true (vectors 0) ∷ lsx_info true (vectors x) ∷ [];
  load = λ at. 0x1f0;
}

-- Register 3 is the one that differs; the code prints the word of the master twice.
vector_line :
    reginfo_dump_mismatch (reginfo_init 4096 (stopped 13)) (reginfo_init 4096 (stopped 99))
    ≡ vreg_2 3 13 13 99 13 ∷ []
unfolding reginfo_dump_mismatch row_unless each_from vreg_row reginfo_init parse_extcontext
    take_vectors take_lsx base_regs
vector_line = refl

reginfo_dump_mismatch-reginfo_init_iff_example :
    (reginfo_dump_mismatch (reginfo_init 4096 (stopped 13)) (reginfo_init 4096 (stopped 99)) ≡ [])
    ↔ (reginfo_is_eq (reginfo_init 4096 (stopped 13)) (reginfo_init 4096 (stopped 99)) ≡ true)
reginfo_dump_mismatch-reginfo_init_iff_example =
    reginfo_dump_mismatch-reginfo_init_iff 4096 (stopped 13) (stopped 99)
