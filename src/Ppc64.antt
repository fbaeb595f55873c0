-- ===== src/Ppc64.antt =====
-- risu_ppc64.c and risu_reginfo_ppc64.c: the registers of a PowerPC, in the build for a Mac OS X of
-- 32 bits.
pub mod Floats
pub mod Classes
pub mod Normal
pub mod Update
pub mod Insns
pub mod FpOpts
pub mod Rules
pub mod Compare
pub mod Chain
pub mod Equal
pub mod Dump
pub mod Passed
pub mod Matched
pub mod Verdict
pub mod Silent
pub mod Agreement
pub mod Strict
pub mod Target
pub mod Vectors
pub mod Swap
pub mod Object
pub mod Machine
use risu.Prelude.{
  ℕ, zero, suc, ◌+◌, ◌-◌, ◌*◌, ◌/◌, ◌%◌, ◌^◌, Bool, true, false, not, ◌&&◌, if◌then◌else◌, ◌==◌,
  ltb,
}
use risu.Prelude.Outcome.{Outcome, done, aborts}
use risu.Risu.Op.{RisuOp, op_sigill, op_of}

-- The parts of the context that are used on Mac OS X, of 32 bits: the thread state, with the general
-- registers from `r0` on, two registers of the exception state, the floating-point state, and the
-- bytes of the memory.
pub record Context : Type 0 where
  pub srr0 : ℕ
  pub srr1 : ℕ
  pub ctr : ℕ
  pub lr : ℕ
  pub xer : ℕ
  pub cr : ℕ
  pub mq : ℕ
  pub dar : ℕ
  pub dsisr : ℕ
  pub r0 : ℕ → ℕ
  pub fpregs : ℕ → ℕ
  pub fpscr : ℕ
  pub memory : ℕ → ℕ

-- `struct reginfo`
pub record Reginfo : Type 0 where
  pub second_prev_insn : ℕ
  pub prev_insn : ℕ
  pub faulting_insn : ℕ
  pub next_insn : ℕ
  pub nip : ℕ
  pub gregs : ℕ → ℕ
  pub fpregs : ℕ → ℕ
  pub fpscr : ℕ

-- The masks and options.
pub record Masks : Type 0 where
  pub gregs_mask : ℕ
  pub ccr_mask : ℕ
  pub xer_mask : ℕ
  pub mq_mask : ℕ
  pub fpscr_mask : ℕ
  pub fpregs_mask : ℕ
  pub vrregs_mask : ℕ
  pub fp_opts : ℕ
  pub cpu_opts : ℕ

-- `process_arch_opt`, with `opt - FIRST_ARCH_OPT`, which the assertion bounds, and the value of
-- the argument.
unfoldable pub process_arch_opt : ℕ → ℕ → Masks → Outcome Masks
process_arch_opt opt val m =
    if opt == 0
    then done (record m { ccr_mask = val })
    else if opt == 1
    then done (record m { fpscr_mask = val })
    else if opt == 2
    then done (record m { fpregs_mask = val })
    else if opt == 3
    then done (record m { vrregs_mask = val })
    else if opt == 4
    then done (record m { fp_opts = val })
    else if opt == 5
    then done (record m { gregs_mask = val })
    else if opt == 6
    then done (record m { xer_mask = val })
    else if opt == 7
    then done (record m { mq_mask = val })
    else if opt == 8
    then done (record m { cpu_opts = val })
    else aborts

-- An array with another element at one index.
unfoldable pub store : ℕ → ℕ → (ℕ → ℕ) → ℕ → ℕ
store at x f i = if i == at then x else f i

unfoldable pub advance_pc : Context → Context
advance_pc uc = record uc { srr0 = (uc.srr0 + 4) % 2 ^ 32 }

unfoldable pub get_uc_pc : Context → ℕ → ℕ
get_uc_pc uc siaddr = uc.srr0

unfoldable pub set_ucontext_paramreg : Context → ℕ → Context
unfolding store
set_ucontext_paramreg uc value = record uc { r0 = store 0 (value % 2 ^ 32) uc.r0 }

unfoldable pub get_reginfo_paramreg : Reginfo → ℕ
get_reginfo_paramreg ri = ri.gregs 0

unfoldable pub get_risuop : Reginfo → RisuOp
get_risuop ri =
    if ri.faulting_insn / 16 * 16 == 0x5af0 then op_of (ri.faulting_insn % 16) else op_sigill

unfoldable pub get_pc : Reginfo → ℕ
get_pc ri = ri.nip

-- The tested machine is the host, so no word is swapped.
unfoldable pub arch_to_host_32 : ℕ → ℕ
arch_to_host_32 val = val

-- The elements of `gregs`, by the enum of risu_NIP and the others.
unfoldable pub gregs_of : Context → ℕ → ℕ
gregs_of uc i =
    if ltb i 32
    then uc.r0 i
    else if i == 32
    then uc.srr0
    else if i == 33
    then uc.srr1
    else if i == 34
    then uc.ctr
    else if i == 35
    then uc.lr
    else if i == 36
    then uc.xer
    else if i == 37
    then uc.cr
    else if i == 38
    then uc.mq
    else if i == 39
    then uc.dar
    else if i == 40
    then uc.dsisr
    else 0

-- `*((uint32_t *) p)` on a machine that stores the highest byte first.
unfoldable pub word_at : (ℕ → ℕ) → ℕ → ℕ
word_at memory p =
    ((memory p * 2 ^ 8 + memory ((p + 1) % 2 ^ 32)) * 2 ^ 8 + memory ((p + 2) % 2 ^ 32)) * 2 ^ 8
    + memory ((p + 3) % 2 ^ 32)

-- An instruction of the image, or 0 outside of it.
unfoldable pub insn_at : ℕ → ℕ → Context → ℕ → ℕ
unfolding arch_to_host_32 word_at
insn_at ibegin image_size uc pc =
    let iend = (ibegin + image_size) % 2 ^ 32 in
    arch_to_host_32 (if not (ltb pc ibegin) && ltb pc iend then word_at uc.memory pc else 0)

unfoldable pub reginfo_init : ℕ → ℕ → Context → Reginfo
unfolding insn_at gregs_of
reginfo_init ibegin image_size uc =
    let pc = uc.srr0 in
    record {
      second_prev_insn = insn_at ibegin image_size uc ((pc + 2 ^ 32 - 8) % 2 ^ 32);
      prev_insn = insn_at ibegin image_size uc ((pc + 2 ^ 32 - 4) % 2 ^ 32);
      faulting_insn = insn_at ibegin image_size uc pc;
      next_insn = insn_at ibegin image_size uc ((pc + 4) % 2 ^ 32);
      nip = (pc + 2 ^ 32 - ibegin) % 2 ^ 32;
      gregs = gregs_of uc;
      fpregs = λ i. if ltb i 32 then uc.fpregs i else 0;
      fpscr = uc.fpscr;
    }

-- Not `(1 << (31-i)) & ~gregs_mask`.
unfoldable pub compared : Masks → ℕ → Bool
compared m i = m.gregs_mask / 2 ^ (31 - i) % 2 == 1

-- The loop over the general registers, `count` of them from `i` on.
unfoldable pub put_gregs : Masks → (ℕ → ℕ) → ℕ → ℕ → (ℕ → ℕ) → ℕ → ℕ
unfolding store
put_gregs m gregs zero i f = f
put_gregs m gregs (suc count) i f =
    put_gregs m gregs count (suc i) (if compared m i then store i (gregs i) f else f)

unfoldable pub reginfo_update : Masks → Reginfo → Context → Context
reginfo_update m ri uc = record uc {
  cr = ri.gregs 37;
  xer = ri.gregs 36;
  mq = ri.gregs 38;
  r0 = put_gregs m ri.gregs 32 0 uc.r0;
  fpregs = λ i. if ltb i 32 then ri.fpregs i else uc.fpregs i;
  fpscr = ri.fpscr;
}
