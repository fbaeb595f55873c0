-- ===== src/Loongarch64.antt =====
-- risu_loongarch64.c and risu_reginfo_loongarch64.c: the registers of a LoongArch.
pub mod Vectors
pub mod Report
use risu.Prelude.{
  ℕ, ◌+◌, ◌-◌, ◌*◌, ◌/◌, ◌%◌, ◌^◌, Bool, true, false, ◌&&◌, List, [], ◌∷◌, ◌++◌, Option, none, some,
  if◌then◌else◌, ◌==◌,
}
use risu.Prelude.Rows.{row_unless, each_from, all_from}
use risu.Risu.Op.{RisuOp, op_sigill, op_of}

-- A context of one of the vector units, `struct fpu_context` and the two others.
pub record VectorContext : Type 0 where
  pub regs : ℕ → ℕ
  pub fcc : ℕ
  pub fcsr : ℕ

-- A record of sc_extcontext: its magic number, whether its size is enough for its context, and the
-- context. The list ends at the record with magic number 0.
pub data Info : Type 0 where
  fpu_info lsx_info lasx_info : Bool → VectorContext → Info
  other_info : Info

-- The parts of `struct ucontext` that are used, and the words of the image.
pub record Context : Type 0 where
  pub sc_pc : ℕ
  pub sc_regs : ℕ → ℕ
  pub sc_flags : ℕ
  pub sc_extcontext : List Info
  pub load : ℕ → ℕ

-- `struct reginfo`, where `vregs i j` is element 4 * i + j of the array.
pub record Reginfo : Type 0 where
  pub regs : ℕ → ℕ
  pub pc : ℕ
  pub fcc : ℕ
  pub flags : ℕ
  pub fcsr : ℕ
  pub faulting_insn : ℕ
  pub vregs : ℕ → ℕ → ℕ
  pub vl : ℕ

unfoldable pub advance_pc : Context → Context
advance_pc uc = record uc { sc_pc = (uc.sc_pc + 4) % 2 ^ 64 }

unfoldable pub get_uc_pc : Context → ℕ → ℕ
get_uc_pc uc siaddr = uc.sc_pc

unfoldable pub set_ucontext_paramreg : Context → ℕ → Context
set_ucontext_paramreg uc value = record uc { sc_regs = λ i. if i == 4 then value else uc.sc_regs i }

unfoldable pub get_reginfo_paramreg : Reginfo → ℕ
get_reginfo_paramreg ri = ri.regs 4

unfoldable pub get_risuop : Reginfo → RisuOp
get_risuop ri =
    if ri.faulting_insn / 16 * 16 == 0x000001f0 then op_of (ri.faulting_insn % 16) else op_sigill

unfoldable pub get_pc : Reginfo → ℕ
get_pc ri = ri.pc

-- `struct extctx_layout`, as far as it is used.
pub record Layout : Type 0 where
  pub fpu : Option VectorContext
  pub lsx : Option VectorContext
  pub lasx : Option VectorContext

-- `parse_extcontext`, whose result is not looked at: what it has found when it returns.
unfoldable pub parse_extcontext : List Info → Layout → Layout
parse_extcontext [] l = l
parse_extcontext (fpu_info true c ∷ infos) l = parse_extcontext infos (record l { fpu = some c })
parse_extcontext (lsx_info true c ∷ infos) l = parse_extcontext infos (record l { lsx = some c })
parse_extcontext (lasx_info true c ∷ infos) l = parse_extcontext infos (record l { lasx = some c })
parse_extcontext (_ ∷ infos) l = l

-- The three branches, and none of them, on a structure that is zero.
unfoldable pub take_lasx : VectorContext → Reginfo → Reginfo
take_lasx c ri = record ri {
  vregs = λ i j. c.regs (4 * i + j);
  fcsr = c.fcsr;
  fcc = c.fcc;
  vl = 256;
}

unfoldable pub take_lsx : VectorContext → Reginfo → Reginfo
take_lsx c ri = record ri {
  vregs = λ i j. if j == 0 then c.regs (4 * i + 1) else if j == 1 then c.regs (4 * i + 1) else 0;
  fcsr = c.fcsr;
  fcc = c.fcc;
  vl = 128;
}

unfoldable pub take_fpu : VectorContext → Reginfo → Reginfo
take_fpu c ri = record ri {
  vregs = λ i j. if j == 0 then c.regs (4 * i) else 0;
  fcsr = c.fcsr;
  fcc = c.fcc;
  vl = 64;
}

unfoldable pub take_vectors : Layout → Reginfo → Reginfo
take_vectors l ri = elim l.lasx [
  | some c ↦ take_lasx c ri
  | none ↦ elim l.lsx [
    | some c ↦ take_lsx c ri
    | none ↦ elim l.fpu [ some c ↦ take_fpu c ri | none ↦ ri ]
  ]
]

unfoldable pub base_regs : ℕ → Context → Reginfo
base_regs image_start_address uc = record {
  regs = λ i. if i == 0 then 0 else if i == 2 then 0xdeadbeefdeadbeef else uc.sc_regs i;
  pc = (uc.sc_pc + 2 ^ 64 - image_start_address) % 2 ^ 64;
  fcc = 0;
  flags = uc.sc_flags;
  fcsr = 0;
  faulting_insn = uc.load uc.sc_pc;
  vregs = λ i j. 0;
  vl = 0;
}

unfoldable pub reginfo_init : ℕ → Context → Reginfo
reginfo_init image_start_address uc =
    take_vectors
      (parse_extcontext uc.sc_extcontext (record { fpu = none; lsx = none; lasx = none }))
      (base_regs image_start_address uc)

unfoldable pub reginfo_update : Reginfo → Context → Context
reginfo_update ri uc = uc

-- The four words of a vector register.
unfoldable pub same_vreg : Reginfo → Reginfo → ℕ → Bool
same_vreg m a i =
    m.vregs i 3 == a.vregs i 3
    && m.vregs i 2 == a.vregs i 2
    && m.vregs i 1 == a.vregs i 1
    && m.vregs i 0 == a.vregs i 0

-- `memcmp` of the whole structures, whose padding is zero.
unfoldable pub reginfo_is_eq : Reginfo → Reginfo → Bool
reginfo_is_eq m a =
    m.vl == a.vl
    && (m.faulting_insn == a.faulting_insn
        && (all_from (λ i. m.regs i == a.regs i) 32 0
            && (m.pc == a.pc
                && (m.flags == a.flags
                    && (m.fcc == a.fcc && (m.fcsr == a.fcsr && all_from (same_vreg m a) 32 0))))))

-- The lines of `reginfo_dump_mismatch` behind the first, with the values that they print.
pub data Line : Type 0 where
  vl_line insn_line pc_line flags_line fcc_line fcsr_line : ℕ → ℕ → Line
  r vreg_1 : ℕ → ℕ → ℕ → Line
  vreg_2 : ℕ → ℕ → ℕ → ℕ → ℕ → Line
  vreg_4 : ℕ → (ℕ → ℕ) → (ℕ → ℕ) → Line

-- The last number of the second branch is the master's, as in the code.
unfoldable pub vreg_row : Reginfo → Reginfo → ℕ → List Line
vreg_row m a i =
    if m.vl == 256
    then row_unless (vreg_4 i (m.vregs i) (a.vregs i)) (same_vreg m a i)
    else if m.vl == 128
    then row_unless (vreg_2 i (m.vregs i 1) (m.vregs i 0) (a.vregs i 1) (m.vregs i 0))
        (m.vregs i 1 == a.vregs i 1 && m.vregs i 0 == a.vregs i 0)
    else if m.vl == 64
    then row_unless (vreg_1 i (m.vregs i 0) (a.vregs i 0)) (m.vregs i 0 == a.vregs i 0)
    else []

unfoldable pub reginfo_dump_mismatch : Reginfo → Reginfo → List Line
reginfo_dump_mismatch m a =
    row_unless (vl_line m.vl a.vl) (m.vl == a.vl)
    ++ (row_unless (insn_line m.faulting_insn a.faulting_insn) (m.faulting_insn == a.faulting_insn)
        ++ (each_from (λ i. row_unless (r i (m.regs i) (a.regs i)) (m.regs i == a.regs i)) 32 0
            ++ (row_unless (pc_line m.pc a.pc) (m.pc == a.pc)
                ++ (row_unless (flags_line m.flags a.flags) (m.flags == a.flags)
                    ++ (row_unless (fcc_line m.fcc a.fcc) (m.fcc == a.fcc)
                        ++ (row_unless (fcsr_line m.fcsr a.fcsr) (m.fcsr == a.fcsr)
                            ++ each_from (vreg_row m a) 32 0))))))
