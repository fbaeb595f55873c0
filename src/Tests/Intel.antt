-- ===== src/Tests/Intel.antt =====
-- Contexts of an x86 of 64 bits with AVX.
use risu.Prelude.{ℕ, ◌+◌, ◌≡◌, ◌↔◌, refl, true, List, [], ◌∷◌, Option, some, ◌==◌, if◌then◌else◌}
use risu.Prelude.Bytes.{same_bytes, copy_bytes, bytes_at}
use risu.Prelude.Outcome.{Outcome, done}
use risu.Prelude.Rows.{row_unless, each_from, all_from}
use risu.I386.Machine.{X86, greg_limit, is_plain, is_named}
use risu.I386.{
  Context, Reginfo, has_feature, xsave_feature_buf, nvecregs, greg, base_regs, take_xmm,
  take_feature, store_ymm_hi128, take_features, take_fpregs, reginfo_init, reginfo_is_eq,
}
use risu.I386.Dump.{
  get_nvecregs, get_nvecquads, get_vecletter, quads_down, greg_line, vreg_line, greg_lines,
  vreg_row, kreg_row, other_lines, reginfo_dump_mismatch,
}
use risu.I386.Shape.{IsWide}
use risu.I386.Report.{reginfo_is_eq-reginfo_dump_mismatch_iff}
use risu.I386.Features.{on, reginfo_init-cpuid}

-- Component 2 stands at 576, and there is no component 4.
abbrev no_bound_registers : ℕ → Option (ℕ × ℕ)
no_bound_registers n = if n == 2 then some (256, 576) else some (0, 0)

-- Component 2 stands elsewhere.
abbrev moved : ℕ → Option (ℕ × ℕ)
moved n = if n == 2 then some (256, 1024) else some (0, 0)

abbrev linux : X86
linux = record {
  x86_64 = true;
  ngreg = 23;
  reg_ip = 16;
  reg_efl = 17;
  reg_sp = 15;
  reg_ax = 13;
  reg_bx = 11;
  reg_cx = 14;
  reg_dx = 12;
  reg_di = 8;
  reg_si = 9;
  reg_bp = 10;
  reg_r = λ i. if i == 8 then 0 else if i == 9 then 1 else i + 100;
  xmm_offset = 160;
  fxsr_magic = 0;
  xstate_magic1 = 0x46505853;
  cpuid = no_bound_registers;
}

-- Register 13 is `ax`, and byte `at` of the frame is 1.
abbrev stopped : ℕ → ℕ → Context
stopped ax at = record {
  gregs = λ i. if i == 13 then ax else if i == 16 then 5000 else 3;
  fpregs = some (record {
    magic = 0;
    mxcsr = 0x1f80;
    magic1 = 0x46505853;
    extended_size = 836;
    xfeatures = 7;
    bytes = λ j. if j == at then 1 else 0;
  });
  load = λ a. 0xc0b90f;
}

abbrev or_zero : Outcome Reginfo → Reginfo
or_zero o = elim o [
  | done ri ↦ ri
  | _ ↦ record {
    faulting_insn = 0;
    mxcsr = 0;
    xfeatures = 0;
    gregs = λ i. 0;
    vregs = λ i j. 0;
    kregs = λ i j. 0;
  }
]

abbrev zeros : List ℕ
zeros = 0 ∷ 0 ∷ 0 ∷ 0 ∷ 0 ∷ 0 ∷ 0 ∷ 0 ∷ []

abbrev one : List ℕ
one = 1 ∷ 0 ∷ 0 ∷ 0 ∷ 0 ∷ 0 ∷ 0 ∷ 0 ∷ []

abbrev taken : ℕ → ℕ → Reginfo
taken ax at = or_zero (reginfo_init linux 7 4096 (stopped ax at))

taken_done : (ax at : ℕ) → reginfo_init linux 7 4096 (stopped ax at) ≡ done (taken ax at)
unfolding reginfo_init take_fpregs take_features take_feature xsave_feature_buf has_feature
taken_done ax at = refl

-- Byte 168 is byte 8 of XMM0. It is also stored as the upper half of YMM10, since what
-- cpuid says of component 4 is taken for the place of that half.
lines :
    reginfo_dump_mismatch linux (taken 1 168) (taken 0 4000)
    ≡ done (
        greg_line 13 1 0
        ∷ vreg_line b'y' 0 (zeros ∷ zeros ∷ one ∷ zeros ∷ []) (zeros ∷ zeros ∷ zeros ∷ zeros ∷ [])
        ∷ vreg_line b'y' 10 (one ∷ zeros ∷ zeros ∷ zeros ∷ []) (zeros ∷ zeros ∷ zeros ∷ zeros ∷ [])
        ∷ [])
unfolding reginfo_dump_mismatch greg_lines other_lines vreg_row kreg_row row_unless each_from
    get_nvecregs get_nvecquads get_vecletter quads_down bytes_at reginfo_init take_fpregs
    take_features take_feature xsave_feature_buf has_feature base_regs greg take_xmm store_ymm_hi128
    nvecregs copy_bytes same_bytes all_from is_plain is_named greg_limit
lines = refl

-- The upper half of YMM0 stands at 576, and is not seen.
upper_half_unseen : reginfo_is_eq linux (taken 0 576) (taken 0 577) ≡ true
unfolding reginfo_is_eq reginfo_init take_fpregs take_features take_feature xsave_feature_buf
    has_feature base_regs greg take_xmm store_ymm_hi128 nvecregs copy_bytes same_bytes all_from
    is_plain greg_limit
upper_half_unseen = refl

narrow : IsWide 7
unfolding has_feature
narrow h = cc

reginfo_is_eq-reginfo_dump_mismatch_iff_example :
    (reginfo_is_eq linux (taken 1 168) (taken 0 4000) ≡ true) ↔ (
      (reginfo_dump_mismatch linux (taken 1 168) (taken 0 4000) ≡ done [])
      × ((taken 1 168).faulting_insn ≡ (taken 0 4000).faulting_insn))
reginfo_is_eq-reginfo_dump_mismatch_iff_example =
    reginfo_is_eq-reginfo_dump_mismatch_iff linux 7 4096 (stopped 1 168) (stopped 0 4000)
      (taken 1 168) (taken 0 4000) (λ x. narrow) (taken_done 1 168) (taken_done 0 4000)

reginfo_init-cpuid_example :
    reginfo_init (on linux moved) 7 4096 (stopped 1 168) ≡ reginfo_init linux 7 4096 (stopped 1 168)
reginfo_init-cpuid_example =
    reginfo_init-cpuid linux moved 7 4096 (stopped 1 168) refl refl refl refl
