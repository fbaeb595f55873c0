-- ===== src/Tests/Machines.antt =====
-- The architectures and the command line at concrete inputs.
use risu.Prelude.{
  ◌<◌, ◌++◌, none, ℕ, ◌%◌, ◌+◌, ◌^◌, ◌≤◌, ◌≡◌, ◌↔◌, refl, true, List, [], ◌∷◌, ◌==◌, if◌then◌else◌,
  arith, length, some, false,
}
use risu.Prelude.Outcome.{done, hangs, ◌>>=◌}
use risu.Arm.{get_risuop, find_vfp}
use risu.Arm.Vfp.{find_vfp_stuck}
use risu.Arm.Report.{reginfo_dump_mismatch_iff}
use risu.M68k.{Indices}
use risu.M68k.Report.{reginfo_is_eq_iff}
use risu.Arm
use risu.M68k
use risu.Ppc64
use risu.Ppc64.Floats.{is_zero, denormalized, infinite, snan, anyqnan, normalize, signz}
use risu.Ppc64.Classes.{count, normal, classes_partition}
use risu.Ppc64.Normal.{normalize_ends}
use risu.Ppc64.Update.{reginfo_init-reginfo_update}
use risu.Options.{LongOption, null_option, option_of, default_longopts, setup_options}
use risu.Options.Table.{seen, seen-setup_options}
use risu.Args.{argcargv}
use risu.Args.Passes.{argcargv_fits}
use risu.Args.Quoting.{offsets, terminated, quoted, argcargv-quoted}

-- Two stops of an ARM that differ in register 3.
abbrev arm_one : Arm.Reginfo
arm_one = record {
  fpregs = λ i. 0;
  faulting_insn = 0xe7fe5af1;
  faulting_insn_size = 4;
  gpreg = λ i. i;
  cpsr = 0;
  fpscr = 0;
}

abbrev arm_two : Arm.Reginfo
arm_two = record arm_one { gpreg = λ i. if i == 3 then 7 else i }

reginfo_dump_mismatch_iff_example :
    (Arm.reginfo_dump_mismatch arm_one arm_two ≡ []) ↔ (Arm.reginfo_is_eq arm_one arm_two ≡ true)
reginfo_dump_mismatch_iff_example = reginfo_dump_mismatch_iff arm_one arm_two

-- A block of another kind, with the size 0.
find_vfp_stuck_example : find_vfp 6 true (5 ∷ 0 ∷ 1 ∷ 0 ∷ 0 ∷ []) 0 ≡ hangs
find_vfp_stuck_example =
    find_vfp_stuck 6 true (5 ∷ 0 ∷ 1 ∷ 0 ∷ 0 ∷ []) 0 5 0 (1 ∷ 0 ∷ 0 ∷ []) (omega arith) refl
      (λ h. omega arith) (λ h. omega arith) (omega arith)

abbrev glibc : Indices
glibc = record { r_a0 = 8; r_a6 = 14; r_sp = 15; r_pc = 16; r_ps = 17; ngreg = 18 }

abbrev m68k_one : M68k.Reginfo
m68k_one = record {
  faulting_insn = 0;
  pc = 0;
  gregs = λ i. i;
  fpregs = record { f_pcr = 0; f_psr = 0; f_fpiaddr = 0; f_fpregs = λ i j. 0 };
}

-- Another stack pointer, which is not compared.
abbrev m68k_two : M68k.Reginfo
m68k_two = record m68k_one { gregs = λ i. if i == 15 then 7 else i }

reginfo_is_eq_iff_example :
    (M68k.reginfo_dump_mismatch glibc m68k_one m68k_two ≡ [])
    ↔ (M68k.reginfo_is_eq glibc m68k_one m68k_two ≡ true)
reginfo_is_eq_iff_example = reginfo_is_eq_iff glibc m68k_one m68k_two

-- Two words, a quoted blank, and a quote that is not closed.
abbrev line : List ℕ
line = b'a' ∷ 32 ∷ b'"' ∷ b'b' ∷ 32 ∷ b'c' ∷ []

argcargv_fits_example :
    let (argc, second, rest) = argcargv line in
    (second.argc ≡ argc) × (length second.argv ≡ argc) × (length second.written ≤ length line + 1)
argcargv_fits_example = argcargv_fits line

abbrev two_words : List (List ℕ)
two_words = (b'a' ∷ 32 ∷ []) ∷ (b'b' ∷ []) ∷ []

argcargv-quoted_example :
    let (argc, second, rest) = argcargv (quoted two_words) in
    (second.argc ≡ length two_words)
    × (second.argv ≡ offsets 0 two_words)
    × (second.written ≡ terminated two_words)
    × (rest ≡ [])
argcargv-quoted_example =
    argcargv-quoted two_words
      ((λ h. omega arith, (λ h. omega arith, tt)), ((λ h. omega arith, tt), tt))

-- NaN, with the sign set.
classes_partition_example :
    count (is_zero 0xfff8000000000000)
      + count (denormalized 0xfff8000000000000)
      + count (normal 0xfff8000000000000)
      + count (infinite 0xfff8000000000000)
      + count (snan 0xfff8000000000000)
      + count (anyqnan 0xfff8000000000000)
    ≡ 1
classes_partition_example = classes_partition 0xfff8000000000000 (omega arith)

-- The number 1.
-- Register 1 is left out.
abbrev masks : Ppc64.Masks
masks = record {
  gregs_mask = 0xbfffffff;
  ccr_mask = 0xffffffff;
  xer_mask = 0xffffffff;
  mq_mask = 0xffffffff;
  fpscr_mask = 0xffffffff;
  fpregs_mask = 0xffffffff;
  vrregs_mask = 0xffffffff;
  fp_opts = 0;
  cpu_opts = 0;
}

abbrev stopped : Ppc64.Context
stopped = record {
  srr0 = 4096;
  srr1 = 0;
  ctr = 1;
  lr = 2;
  xer = 3;
  cr = 4;
  mq = 5;
  dar = 6;
  dsisr = 7;
  r0 = λ i. i;
  fpregs = λ i. 0;
  fpscr = 8;
  memory = λ p. if p % 4 == 3 then 0xf0 else if p % 4 == 2 then 0x5a else 0;
}

abbrev ours : Ppc64.Reginfo
ours = record {
  second_prev_insn = 0;
  prev_insn = 0;
  faulting_insn = 0x5af0;
  next_insn = 0;
  nip = 0;
  gregs = λ i. i + 7;
  fpregs = λ i. i + 9;
  fpscr = 5;
}

reginfo_init-reginfo_update_example :
    let after = Ppc64.reginfo_init 4096 64 (Ppc64.reginfo_update masks ours stopped) in
    (after.gregs 3 ≡ (if Ppc64.compared masks 3 then 10 else 3))
    × (after.gregs 37 ≡ 44)
    × (after.gregs 36 ≡ 43)
    × (after.gregs 38 ≡ 45)
    × (after.fpregs 3 ≡ 12)
    × (after.fpscr ≡ 5)
unfolding Ppc64.compared
reginfo_init-reginfo_update_example =
    reginfo_init-reginfo_update masks ours stopped 4096 64 3 (omega arith)

-- The smallest positive number.
normalize_ends_example :
    (r : ℕ) × (normalize 52 1 ≡ some r)
    × (denormalized r ≡ false)
    × (signz r ≡ signz 1)
    × (r < 2 ^ 64)
normalize_ends_example = normalize_ends 1 (omega arith)

-- One option of an architecture, its end, and what stands behind it.
abbrev own : List LongOption
own = option_of (b'x' ∷ []) 1 none 1000 ∷ null_option ∷ option_of (b'y' ∷ []) 1 none 1001 ∷ []

seen-setup_options_example :
    ((setup_options 7 (some own) >>= seen) ≡ (seen own >>= (λ os. done (default_longopts 7 ++ os))))
    × ((setup_options 7 none >>= seen) ≡ done (default_longopts 7))
seen-setup_options_example = seen-setup_options 7 own
