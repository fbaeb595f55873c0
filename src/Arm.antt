-- ===== src/Arm.antt =====
-- risu_arm.c and risu_reginfo_arm.c: the registers of a 32-bit ARM, as risu takes and compares them.
pub mod Report
pub mod Vfp
use risu.Prelude.{
  ℕ, zero, suc, ◌+◌, ◌-◌, ◌*◌, ◌/◌, ◌%◌, ◌^◌, bit_and, Bool, true, false, not, ◌&&◌, ◌||◌, List, [],
  ◌∷◌, ◌++◌, if◌then◌else◌, ◌==◌, ltb, take, drop,
}
use risu.Prelude.Outcome.{Outcome, done, overruns, hangs, ◌>>=◌}
use risu.Risu.Op.{RisuOp, op_sigill, op_of}

-- The parts of `ucontext_t` that are used: arm_r0 to arm_r10, the other registers, and the words
-- of uc_regspace; and the halfwords of the memory that the code stands in.
pub record Context : Type 0 where
  pub arm_r : ℕ → ℕ
  pub arm_fp : ℕ
  pub arm_ip : ℕ
  pub arm_lr : ℕ
  pub arm_pc : ℕ
  pub arm_cpsr : ℕ
  pub uc_regspace : List ℕ
  pub halfword : ℕ → ℕ

-- `struct reginfo`, with an array as the function of its index.
pub record Reginfo : Type 0 where
  pub fpregs : ℕ → ℕ
  pub faulting_insn : ℕ
  pub faulting_insn_size : ℕ
  pub gpreg : ℕ → ℕ
  pub cpsr : ℕ
  pub fpscr : ℕ

thumb_size : ℕ → ℕ
thumb_size key = if key == 0xE800 || key == 0xF000 || key == 0xF800 then 4 else 2

unfoldable pub insnsize : Context → ℕ
unfolding thumb_size
insnsize uc =
    if bit_and uc.arm_cpsr 0x20 == 0 then 4 else thumb_size (bit_and (uc.halfword uc.arm_pc) 0xF800)

unfoldable pub advance_pc : Context → Context
unfolding insnsize
advance_pc uc = record uc { arm_pc = (uc.arm_pc + insnsize uc) % 2 ^ 32 }

unfoldable pub get_uc_pc : Context → ℕ → ℕ
get_uc_pc uc siaddr = uc.arm_pc

unfoldable pub set_ucontext_paramreg : Context → ℕ → Context
set_ucontext_paramreg uc value = record uc {
  arm_r = λ i. if i == 0 then value % 2 ^ 32 else uc.arm_r i;
}

unfoldable pub get_reginfo_paramreg : Reginfo → ℕ
get_reginfo_paramreg ri = ri.gpreg 0

-- The low four bits of the instruction choose the operation; the mask `& ~0xf` clears them.
unfoldable pub get_risuop : Reginfo → RisuOp
get_risuop ri =
    let risukey = if ri.faulting_insn_size == 2 then 0xdee0 else 0xe7fe5af0 in
    if ri.faulting_insn / 16 * 16 == risukey then op_of (ri.faulting_insn % 16) else op_sigill

unfoldable pub get_pc : Reginfo → ℕ
get_pc ri = ri.gpreg 15

-- The mask `~0x9f` on 32 bits.
abbrev keep_9f : ℕ
keep_9f = 2 ^ 32 - 1 - 0x9f

-- `*rs` as the 32 words of a register pair each.
abbrev pub pair : List ℕ → ℕ → ℕ
pair [] i = 0
pair (lo ∷ []) i = 0
pair (lo ∷ hi ∷ rest) zero = lo + hi * 2 ^ 32
pair (lo ∷ hi ∷ rest) (suc i) = pair rest i

-- What the search in uc_regspace found: the registers, fpscr, and the words with the cumulative
-- flags cleared.
pub record VfpState : Type 0 where
  pub registers : ℕ → ℕ
  pub status : ℕ
  pub space : List ℕ

-- At the fpscr behind the registers.
unfoldable pub vfp_status : Bool → (ℕ → ℕ) → List ℕ → List ℕ → Outcome VfpState
vfp_status test_fp_exc registers front [] = overruns
vfp_status test_fp_exc registers front (w ∷ rest) =
    let status = bit_and w 0xffff9f9f in
    done (record {
      registers = registers;
      status = if test_fp_exc then status else bit_and status keep_9f;
      space = front ++ (bit_and w keep_9f ∷ rest);
    })

-- VFP_MAGIC, on a block that is not too small for the registers.
abbrev pub is_vfp : ℕ → ℕ → Bool
is_vfp magic left = magic == 0x56465001 && not (ltb left (((32 * 2) + 1) * 4))

-- Where the next block begins, by `size -= 8` and `rs += size / 4`, both of which wrap: a pointer to
-- words of 32 bits has 2 ^ 30 places.
abbrev pub left_of : ℕ → ℕ
left_of size = (size + 2 ^ 32 - 8) % 2 ^ 32

unfoldable pub next_block : ℕ → ℕ → ℕ
next_block at size = (at + 2 + left_of size / 4) % 2 ^ 30

-- One block, with the words in front of it and those from it on.
unfoldable pub vfp_block : (ℕ → Outcome VfpState) → Bool → ℕ → List ℕ → List ℕ → Outcome VfpState
unfolding vfp_status next_block
vfp_block again test_fp_exc at front [] = overruns
vfp_block again test_fp_exc at front (magic ∷ []) = overruns
vfp_block again test_fp_exc at front (magic ∷ size ∷ rest) =
    if magic == 0
    then done (record { registers = λ i. 0; status = 0; space = front ++ (magic ∷ size ∷ rest) })
    else if is_vfp magic (left_of size)
    then vfp_status test_fp_exc (pair rest) (front ++ (magic ∷ size ∷ take 64 rest)) (drop 64 rest)
    else again (next_block at size)

-- The loop over the blocks of uc_regspace from the word number `at` on, with a bound on its rounds.
unfoldable pub find_vfp : ℕ → Bool → List ℕ → ℕ → Outcome VfpState
unfolding vfp_block
find_vfp zero test_fp_exc space at = hangs
find_vfp (suc fuel) test_fp_exc space at =
    vfp_block (find_vfp fuel test_fp_exc space) test_fp_exc at (take at space) (drop at space)

-- gpreg[13] is a constant, since the stack pointer is not compared.
gpregs : ℕ → Context → ℕ → ℕ
gpregs image_start uc i =
    if ltb i 11
    then uc.arm_r i
    else if i == 11
    then uc.arm_fp
    else if i == 12
    then uc.arm_ip
    else if i == 13
    then 0xdeadbeef
    else if i == 14
    then uc.arm_lr
    else (uc.arm_pc + 2 ^ 32 - image_start) % 2 ^ 32

faulting : Context → ℕ
unfolding insnsize
faulting uc =
    if insnsize uc == 2
    then uc.halfword uc.arm_pc
    else uc.halfword uc.arm_pc + uc.halfword (uc.arm_pc + 2) * 2 ^ 16

-- `reginfo_init`, which also clears flags in the context.
unfoldable pub reginfo_init : ℕ → Bool → ℕ → Context → Outcome (Reginfo × Context)
unfolding gpregs faulting find_vfp
reginfo_init fuel test_fp_exc image_start uc = do
  v ← find_vfp fuel test_fp_exc uc.uc_regspace 0
  done (
    record {
      fpregs = v.registers;
      faulting_insn = faulting uc;
      faulting_insn_size = insnsize uc;
      gpreg = gpregs image_start uc;
      cpsr = bit_and uc.arm_cpsr 0xF80F0000;
      fpscr = v.status;
    },
    record uc { uc_regspace = v.space },
  )

-- Whether the `count` elements from `i` on are equal.
unfoldable pub same_from : ℕ → ℕ → (ℕ → ℕ) → (ℕ → ℕ) → Bool
same_from zero i f g = true
same_from (suc count) i f g = f i == g i && same_from count (suc i) f g

-- The structure has no padding, so `memcmp` compares the members.
unfoldable pub reginfo_is_eq : Reginfo → Reginfo → Bool
unfolding same_from
reginfo_is_eq r1 r2 =
    same_from 32 0 r1.fpregs r2.fpregs
    && r1.faulting_insn == r2.faulting_insn
    && r1.faulting_insn_size == r2.faulting_insn_size
    && same_from 16 0 r1.gpreg r2.gpreg
    && r1.cpsr == r2.cpsr
    && r1.fpscr == r2.fpscr

-- The lines of `reginfo_dump_mismatch`, with the values that they print.
pub data Line : Type 0 where
  insn_size : ℕ → ℕ → Line
  insn_4 insn_8 : ℕ → ℕ → Line
  r d : ℕ → ℕ → ℕ → Line
  cpsr_line fpscr_line : ℕ → ℕ → Line

unfoldable pub row : Line → ℕ → ℕ → List Line
row line x y = if x == y then [] else line ∷ []

unfoldable pub rows_from : (ℕ → ℕ → ℕ → Line) → ℕ → ℕ → (ℕ → ℕ) → (ℕ → ℕ) → List Line
unfolding row
rows_from line zero i f g = []
rows_from line (suc count) i f g =
    row (line i (f i) (g i)) (f i) (g i) ++ rows_from line count (suc i) f g

unfoldable pub insn_rows : Reginfo → Reginfo → List Line
unfolding row
insn_rows m a =
    if m.faulting_insn_size == a.faulting_insn_size
    then row
        (if m.faulting_insn_size == 2
          then insn_4 m.faulting_insn a.faulting_insn
          else insn_8 m.faulting_insn a.faulting_insn)
        m.faulting_insn a.faulting_insn
    else insn_size m.faulting_insn_size a.faulting_insn_size ∷ []

unfoldable pub reginfo_dump_mismatch : Reginfo → Reginfo → List Line
unfolding insn_rows rows_from row
reginfo_dump_mismatch m a =
    insn_rows m a
    ++ (rows_from r 16 0 m.gpreg a.gpreg
        ++ (row (cpsr_line m.cpsr a.cpsr) m.cpsr a.cpsr
            ++ (rows_from d 32 0 m.fpregs a.fpregs
                ++ row (fpscr_line m.fpscr a.fpscr) m.fpscr a.fpscr)))
