-- ===== src/S390x.antt =====
-- risu_s390x.c and risu_reginfo_s390x.c: the registers of an s390x.
pub mod Report
use risu.Prelude.{ℕ, ◌+◌, ◌-◌, ◌*◌, ◌/◌, ◌%◌, ◌^◌, Bool, ◌&&◌, List, ◌++◌, if◌then◌else◌, ◌==◌}
use risu.Prelude.Rows.{row_unless, each_from, all_from}
use risu.Risu.Op.{RisuOp, op_sigill, op_of}

-- The parts of `ucontext_t` that are used, and the bytes of the image.
pub record Context : Type 0 where
  pub psw_mask : ℕ
  pub gregs : ℕ → ℕ
  pub fpc : ℕ
  pub fprs : ℕ → ℕ
  pub mem : ℕ → ℕ

-- `struct reginfo`
pub record Reginfo : Type 0 where
  pub psw_mask : ℕ
  pub pc_offset : ℕ
  pub faulting_insn : ℕ
  pub faulting_insn_len : ℕ
  pub fpc : ℕ
  pub gprs : ℕ → ℕ
  pub fprs : ℕ → ℕ

-- The PSW address is behind the instruction already.
unfoldable pub advance_pc : Context → Context
advance_pc uc = uc

unfoldable pub get_uc_pc : Context → ℕ → ℕ
get_uc_pc uc siaddr = siaddr

unfoldable pub set_ucontext_paramreg : Context → ℕ → Context
set_ucontext_paramreg uc value = record uc { gregs = λ i. if i == 0 then value else uc.gregs i }

unfoldable pub get_reginfo_paramreg : Reginfo → ℕ
get_reginfo_paramreg ri = ri.gprs 0

unfoldable pub get_risuop : Reginfo → RisuOp
get_risuop ri =
    let insn = ri.faulting_insn % 2 ^ 32 in
    if ri.faulting_insn_len == 4 && insn / 256 * 256 == 0x835a0f00
    then op_of (insn % 256)
    else op_sigill

unfoldable pub get_pc : Reginfo → ℕ
get_pc ri = ri.pc_offset

-- Loads of two and four bytes on this machine, which is big-endian.
abbrev pub load_16 : Context → ℕ → ℕ
load_16 uc at = uc.mem at * 256 + uc.mem (at + 1)

abbrev pub load_32 : Context → ℕ → ℕ
load_32 uc at = load_16 uc at * 2 ^ 16 + load_16 uc (at + 2)

-- The instruction and its length, by its first two bits. The shift is one of 32 bits.
unfoldable pub fetch : Context → ℕ → ℕ × ℕ
fetch uc siaddr =
    if uc.mem siaddr / 64 == 0
    then (load_16 uc siaddr, 2)
    else if uc.mem siaddr / 64 == 3
    then (load_32 uc siaddr * 2 ^ 16 % 2 ^ 32 + load_16 uc (siaddr + 4), 6)
    else (load_32 uc siaddr, 4)

unfoldable pub reginfo_init : ℕ → Context → ℕ → Reginfo
reginfo_init image_start_address uc siaddr = record {
  psw_mask = uc.psw_mask;
  pc_offset = (siaddr + 2 ^ 64 - image_start_address) % 2 ^ 64;
  faulting_insn = (fetch uc siaddr).0;
  faulting_insn_len = (fetch uc siaddr).1;
  fpc = uc.fpc;
  gprs = uc.gregs;
  fprs = uc.fprs;
}

unfoldable pub reginfo_update : Reginfo → Context → Context
reginfo_update ri uc = uc

unfoldable pub reginfo_is_eq : Reginfo → Reginfo → Bool
reginfo_is_eq m a =
    m.pc_offset == a.pc_offset
    && m.fpc == a.fpc
    && all_from (λ i. m.gprs i == a.gprs i) 16 0
    && all_from (λ i. m.fprs i == a.fprs i) 16 0

-- The lines of `reginfo_dump_mismatch`, with the values that they print.
pub data Line : Type 0 where
  pc_line fpc_line : ℕ → ℕ → Line
  r f : ℕ → ℕ → ℕ → Line

unfoldable pub reginfo_dump_mismatch : Reginfo → Reginfo → List Line
reginfo_dump_mismatch m a =
    row_unless (pc_line m.pc_offset a.pc_offset) (m.pc_offset == a.pc_offset)
    ++ (each_from (λ i. row_unless (r i (m.gprs i) (a.gprs i)) (m.gprs i == a.gprs i)) 16 0
        ++ (each_from (λ i. row_unless (f i (m.fprs i) (a.fprs i)) (m.fprs i == a.fprs i)) 16 0
            ++ row_unless (fpc_line m.fpc a.fpc) (m.fpc == a.fpc)))
