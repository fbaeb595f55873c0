-- ===== src/Aarch64.antt =====
-- risu_aarch64.c and risu_reginfo_aarch64.c: the registers of an AArch64.
pub mod Layout
pub mod Dump
pub mod Vectors
pub mod Report
pub mod Sizes
use risu.Prelude.{
  ℕ, zero, suc, ◌+◌, ◌-◌, ◌*◌, ◌/◌, ◌%◌, ◌^◌, Bool, true, false, not, ◌&&◌, ◌||◌, List, [], ◌∷◌,
  ◌++◌, Option, none, some, if◌then◌else◌, ◌==◌, ltb, leb,
}
use risu.Prelude.Bytes.{same_bytes, copy_bytes, bytes_at}
use risu.Prelude.Int.{ℤ, pos, eqb_ℤ, leb_ℤ, ltb_ℤ, pos_part}
use risu.Prelude.Outcome.{Outcome, done, exits, aborts}
use risu.Prelude.Rows.{row_unless, each_from, all_from}
use risu.Risu.Op.{RisuOp, op_sigill, op_of}
use risu.Aarch64.Layout.{
  Sigcontext, risu_simd_regs_size, risu_sve_regs_size, reginfo_zreg, reginfo_preg, reginfo_vreg,
}

-- `struct fpsimd_context`, with the size in its head and the bytes of `vregs`.
pub record FpsimdContext : Type 0 where
  pub size : ℕ
  pub fpsr : ℕ
  pub fpcr : ℕ
  pub vregs : ℕ → ℕ

-- `struct sve_context`, with the size in its head and its bytes from its own start on.
pub record SveContext : Type 0 where
  pub size : ℕ
  pub vl : ℕ
  pub bytes : ℕ → ℕ

-- The records of `__reserved`, up to the one with magic number 0. The record for more space has
-- the records that stand there.
pub data Records : Type 0 where
  end : Records
  fpsimd_record : FpsimdContext → Records → Records
  sve_record : SveContext → Records → Records
  extra_record : Records → Records → Records
  unknown_record : Records → Records

-- The parts of `ucontext_t` that are used, and the words of the image.
pub record Context : Type 0 where
  pub regs : ℕ → ℕ
  pub pc : ℕ
  pub pstate : ℕ
  pub fault_address : ℕ
  pub reserved : Records
  pub load : ℕ → ℕ

-- `struct reginfo`, with the bytes of `extra`. A register of several bytes in it is given by
-- these bytes, in the order in which they lie there.
pub record Reginfo : Type 0 where
  pub fault_address : ℕ
  pub regs : ℕ → ℕ
  pub sp : ℕ
  pub pc : ℕ
  pub flags : ℕ
  pub faulting_insn : ℕ
  pub fpsr : ℕ
  pub fpcr : ℕ
  pub sve_vl : ℕ
  pub extra : ℕ → ℕ

-- `offsetof(struct reginfo, extra)`
abbrev pub offsetof_extra : ℕ
offsetof_extra = 304

unfoldable pub advance_pc : Context → Context
advance_pc uc = record uc { pc = (uc.pc + 4) % 2 ^ 64 }

unfoldable pub get_uc_pc : Context → ℕ → ℕ
get_uc_pc uc siaddr = uc.pc

unfoldable pub set_ucontext_paramreg : Context → ℕ → Context
set_ucontext_paramreg uc value = record uc { regs = λ i. if i == 0 then value else uc.regs i }

unfoldable pub get_reginfo_paramreg : Reginfo → ℕ
get_reginfo_paramreg ri = ri.regs 0

unfoldable pub get_risuop : Reginfo → RisuOp
get_risuop ri =
    if ri.faulting_insn / 16 * 16 == 0x00005af0 then op_of (ri.faulting_insn % 16) else op_sigill

unfoldable pub get_pc : Reginfo → ℕ
get_pc ri = ri.pc

-- `process_arch_opt`, with `opt - FIRST_ARCH_OPT` and the value of the argument: the new value of
-- `test_sve`. SVE_VQ_MAX is 16.
unfoldable pub process_arch_opt : ℕ → ℤ → Outcome ℕ
process_arch_opt opt val =
    if opt == 0
    then (if leb_ℤ val (pos 0) || ltb_ℤ (pos 16) val then exits else done (pos_part val))
    else aborts

-- What the search through the records has found.
pub record Found : Type 0 where
  pub fp : Option FpsimdContext
  pub sve : Option SveContext

-- The loop over the records. The second argument is what the records at `extra` do, once the
-- end of the list is met; it is the identity where `extra` is NULL.
unfoldable pub find_contexts : Records → (Found → Found) → Found → Found
find_contexts end extra f = extra f
find_contexts (fpsimd_record c r) extra f = find_contexts r extra (record f { fp = some c })
find_contexts (sve_record c r) extra f = find_contexts r extra (record f { sve = some c })
find_contexts (extra_record datap r) extra f = find_contexts r (find_contexts datap (λ g. g)) f
find_contexts (unknown_record r) extra f = find_contexts r extra f

-- Up to `ri->faulting_insn`, on a structure that is zero.
unfoldable pub base_regs : ℕ → Context → Reginfo
base_regs image_start_address uc = record {
  fault_address = uc.fault_address;
  regs = λ i. if ltb i 31 then uc.regs i else 0;
  sp = 0xdeadbeefdeadbeef;
  pc = (uc.pc + 2 ^ 64 - image_start_address) % 2 ^ 64;
  flags = uc.pstate / 2 ^ 28 % 16 * 2 ^ 28;
  faulting_insn = uc.load uc.pc;
  fpsr = 0;
  fpcr = 0;
  sve_vl = 0;
  extra = λ j. 0;
}

-- The copy of `fp->vregs` at the end.
unfoldable pub take_simd : FpsimdContext → Reginfo → Reginfo
take_simd fp ri = record ri {
  extra = copy_bytes (reginfo_vreg 0) fp.vregs 0 risu_simd_regs_size ri.extra;
}

module _ (k : Sigcontext) where
  -- `arch_init`, where `prctl` gives the length that it has set, or a negative number.
  unfoldable pub arch_init : (ℕ → ℤ) → ℕ → Outcome (Unit {0})
  arch_init prctl test_sve =
      if test_sve == 0
      then done tt
      else let want = k.vl_from_vq test_sve in
        if eqb_ℤ (pos want) (prctl want) then done tt else exits

  unfoldable pub reginfo_size : Reginfo → ℕ
  reginfo_size ri =
      offsetof_extra
      + (if ri.sve_vl == 0
          then risu_simd_regs_size
          else risu_sve_regs_size k (k.vq_from_vl ri.sve_vl))

  -- The branch of SVE, with the value of `test_sve`.
  unfoldable pub take_sve : ℕ → FpsimdContext → Option SveContext → Reginfo → Reginfo
  take_sve vq fp none ri = ri
  take_sve vq fp (some sve) ri =
      if not (sve.vl == k.vl_from_vq vq)
      then ri
      else if leb sve.size (k.context_size 0)
      then take_simd fp ri
      else if ltb sve.size (k.context_size vq)
      then ri
      else record ri {
        sve_vl = sve.vl;
        extra = copy_bytes (reginfo_zreg k vq 0) sve.bytes k.regs_offset (k.regs_size vq) ri.extra;
      }

  -- Behind the search, with what it has found.
  unfoldable pub take_vectors : ℕ → Option FpsimdContext → Option SveContext → Reginfo → Reginfo
  take_vectors test_sve none sve ri = ri
  take_vectors test_sve (some fp) sve ri =
      if not (fp.size == k.fpsimd_size)
      then ri
      else let r = record ri { fpsr = fp.fpsr; fpcr = fp.fpcr } in
        if not (test_sve == 0) then take_sve test_sve fp sve r else take_simd fp r

  unfoldable pub reginfo_init : ℕ → ℕ → Context → Reginfo
  reginfo_init test_sve image_start_address uc =
      let f = find_contexts uc.reserved (λ g. g) (record { fp = none; sve = none }) in
      take_vectors test_sve f.fp f.sve (base_regs image_start_address uc)

  -- `memcmp` of as many bytes as the first structure has; `reserved` and the padding are zero.
  unfoldable pub reginfo_is_eq : Reginfo → Reginfo → Bool
  reginfo_is_eq r1 r2 =
      r1.fault_address == r2.fault_address
      && (r1.faulting_insn == r2.faulting_insn
          && (all_from (λ i. r1.regs i == r2.regs i) 31 0
              && (r1.sp == r2.sp
                  && (r1.pc == r2.pc
                      && (r1.flags == r2.flags
                          && (r1.fpsr == r2.fpsr
                              && (r1.fpcr == r2.fpcr
                                  && (r1.sve_vl == r2.sve_vl
                                      && same_bytes r1.extra r2.extra
                                          (reginfo_size r1 - offsetof_extra) 0))))))))

unfoldable pub reginfo_update : Reginfo → Context → Context
reginfo_update ri uc = uc
