-- ===== src/M68k.antt =====
-- risu_m68k.c and risu_reginfo_m68k.c: the registers of an m68k, as risu takes and compares them.
pub mod Report
use risu.Prelude.{
  ℕ, zero, suc, ◌+◌, ◌-◌, ◌*◌, ◌/◌, ◌%◌, ◌^◌, Bool, true, false, not, ◌&&◌, ◌||◌, List, [], ◌∷◌,
  ◌++◌, if◌then◌else◌, ◌==◌, ltb,
}
use risu.Risu.Op.{RisuOp, op_sigill, op_of}

-- `fpregset_t`: the control registers, and the three words of each register.
pub record Fpregset : Type 0 where
  pub f_pcr : ℕ
  pub f_psr : ℕ
  pub f_fpiaddr : ℕ
  pub f_fpregs : ℕ → ℕ → ℕ

-- The parts of `ucontext_t` that are used, and the words of the memory that the code stands in.
pub record Context : Type 0 where
  pub gregs : ℕ → ℕ
  pub fpregs : Fpregset
  pub word : ℕ → ℕ

-- `struct reginfo`
pub record Reginfo : Type 0 where
  pub faulting_insn : ℕ
  pub pc : ℕ
  pub gregs : ℕ → ℕ
  pub fpregs : Fpregset

-- The indices of `gregs` are those of <sys/ucontext.h>.
pub record Indices : Type 0 where
  pub r_a0 : ℕ
  pub r_a6 : ℕ
  pub r_sp : ℕ
  pub r_pc : ℕ
  pub r_ps : ℕ
  pub ngreg : ℕ

-- An array with another element at one index.
store : ℕ → ℕ → (ℕ → ℕ) → ℕ → ℕ
store at x f i = if i == at then x else f i

module _ (n : Indices) where
  unfoldable pub advance_pc : Context → Context
  unfolding store
  advance_pc uc = record uc { gregs = store n.r_pc ((uc.gregs n.r_pc + 4) % 2 ^ 32) uc.gregs }

  unfoldable pub get_uc_pc : Context → ℕ → ℕ
  get_uc_pc uc siaddr = uc.gregs n.r_pc

  unfoldable pub set_ucontext_paramreg : Context → ℕ → Context
  unfolding store
  set_ucontext_paramreg uc value = record uc { gregs = store n.r_a0 (value % 2 ^ 32) uc.gregs }

  unfoldable pub get_reginfo_paramreg : Reginfo → ℕ
  get_reginfo_paramreg ri = ri.gregs n.r_a0

  unfoldable pub get_pc : Reginfo → ℕ
  get_pc ri = ri.gregs n.r_pc

  -- `reginfo_init`, where the elements behind an array are those that memset left.
  unfoldable pub reginfo_init : ℕ → Context → Reginfo
  reginfo_init image_start uc = record {
    faulting_insn = uc.word (uc.gregs n.r_pc);
    pc = (uc.gregs n.r_pc + 2 ^ 32 - image_start) % 2 ^ 32;
    gregs = λ i. if ltb i n.ngreg then uc.gregs i else 0;
    fpregs = record {
      f_pcr = uc.fpregs.f_pcr;
      f_psr = uc.fpregs.f_psr;
      f_fpiaddr = uc.fpregs.f_fpiaddr;
      f_fpregs = λ i j. if ltb i 8 && ltb j 3 then uc.fpregs.f_fpregs i j else 0;
    };
  }

unfoldable pub get_risuop : Reginfo → RisuOp
get_risuop ri =
    if ri.faulting_insn / 16 * 16 == 0x4afc7000 then op_of (ri.faulting_insn % 16) else op_sigill

-- The three words of a floating-point register.
unfoldable pub same_fpreg : (ℕ → ℕ) → (ℕ → ℕ) → Bool
same_fpreg x y = not (not (x 0 == y 0) || not (x 1 == y 1) || not (x 2 == y 2))

unfoldable pub same_fpregs : ℕ → ℕ → (ℕ → ℕ → ℕ) → (ℕ → ℕ → ℕ) → Bool
same_fpregs zero i f g = true
same_fpregs (suc count) i f g =
    let rest = same_fpregs count (suc i) f g in if not (same_fpreg (f i) (g i)) then false else rest

-- The lines of `reginfo_dump_mismatch`, with the values that they print.
pub data Line : Type 0 where
  register_ps : ℕ → ℕ → Line
  data_register address_register : ℕ → ℕ → ℕ → Line
  register_fpcr register_fpsr : ℕ → ℕ → Line
  register_fp : ℕ → (ℕ → ℕ) → (ℕ → ℕ) → Line

unfoldable pub line_if : Bool → Line → List Line
line_if differs line = if differs then line ∷ [] else []

unfoldable pub register : ℕ → ℕ → ℕ → Line
register i x y = if ltb i 8 then data_register (i % 8) x y else address_register (i % 8) x y

unfoldable pub fpreg_lines : ℕ → ℕ → (ℕ → ℕ → ℕ) → (ℕ → ℕ → ℕ) → List Line
unfolding line_if same_fpreg
fpreg_lines zero i f g = []
fpreg_lines (suc count) i f g =
    line_if (not (same_fpreg (f i) (g i))) (register_fp i (f i) (g i))
    ++ fpreg_lines count (suc i) f g

module _ (n : Indices) where
  -- `if (i == R_SP || i == R_A6) continue;`
  abbrev pub left_out : ℕ → Bool
  left_out i = i == n.r_sp || i == n.r_a6

  unfoldable pub same_gregs : ℕ → ℕ → (ℕ → ℕ) → (ℕ → ℕ) → Bool
  same_gregs zero i f g = true
  same_gregs (suc count) i f g =
      let rest = same_gregs count (suc i) f g in
      if left_out i then rest else if not (f i == g i) then false else rest

  unfoldable pub reginfo_is_eq : Reginfo → Reginfo → Bool
  unfolding same_fpregs
  reginfo_is_eq m a =
      if not (m.gregs n.r_ps == a.gregs n.r_ps)
      then false
      else if not (same_gregs 16 0 m.gregs a.gregs)
      then false
      else if not (m.fpregs.f_pcr == a.fpregs.f_pcr)
      then false
      else if not (m.fpregs.f_psr == a.fpregs.f_psr)
      then false
      else same_fpregs 8 0 m.fpregs.f_fpregs a.fpregs.f_fpregs

  unfoldable pub greg_lines : ℕ → ℕ → (ℕ → ℕ) → (ℕ → ℕ) → List Line
  unfolding line_if register
  greg_lines zero i f g = []
  greg_lines (suc count) i f g =
      line_if (not (left_out i) && not (f i == g i)) (register i (f i) (g i))
      ++ greg_lines count (suc i) f g

  unfoldable pub reginfo_dump_mismatch : Reginfo → Reginfo → List Line
  unfolding line_if greg_lines fpreg_lines
  reginfo_dump_mismatch m a =
      line_if (not (m.gregs n.r_ps == a.gregs n.r_ps))
        (register_ps (m.gregs n.r_ps) (a.gregs n.r_ps))
      ++ (greg_lines 16 0 m.gregs a.gregs
          ++ (line_if (not (m.fpregs.f_pcr == a.fpregs.f_pcr))
                (register_fpcr m.fpregs.f_pcr a.fpregs.f_pcr)
              ++ (line_if (not (m.fpregs.f_psr == a.fpregs.f_psr))
                    (register_fpsr m.fpregs.f_psr a.fpregs.f_psr)
                  ++ fpreg_lines 8 0 m.fpregs.f_fpregs a.fpregs.f_fpregs)))
