-- ===== src/Arm/Report.antt =====
-- risu_arm.c and risu_reginfo_arm.c: the report of a mismatch, and the instructions that ask for
-- an operation.
use risu.Prelude.{
  ℕ, zero, suc, ◌+◌, ◌<◌, ◌≡◌, ◌↔◌, refl, Bool, true, ◌&&◌, [], arith, if◌then◌else◌, ◌==◌,
}
use risu.Prelude.Rows.{append_empty}
use risu.Risu.Op.{op_of}
use risu.Arm.{
  Reginfo, Line, r, d, cpsr_line, fpscr_line, get_risuop, same_from, reginfo_is_eq, row, rows_from,
  insn_rows, reginfo_dump_mismatch,
}

row_iff : (line : Line) (x y : ℕ) → (row line x y ≡ []) ↔ (x == y ≡ true)
unfolding row
row_iff line x y = (λ h. ground arith, λ h. ground arith)

rows_from_iff :
    (line : ℕ → ℕ → ℕ → Line) (count i : ℕ) (f g : ℕ → ℕ)
    → (rows_from line count i f g ≡ []) ↔ (same_from count i f g ≡ true)
unfolding rows_from same_from
rows_from_iff line zero i f g = (λ h. refl, λ h. refl)
rows_from_iff line (suc count) i f g =
    let rest = rows_from_iff line count (suc i) f g in
    let here = row_iff (line i (f i) (g i)) (f i) (g i) in
    let both =
      append_empty (row (line i (f i) (g i)) (f i) (g i)) (rows_from line count (suc i) f g) in
    (
      λ h. ground (arith, here.0 (both.0 h).0, rest.0 (both.0 h).1),
      λ h. both.1 (here.1 (ground arith), rest.1 (ground arith)),
    )

insn_rows_iff :
    (m a : Reginfo)
    → (insn_rows m a ≡ []) ↔ (
        (m.faulting_insn == a.faulting_insn ≡ true)
        × (m.faulting_insn_size == a.faulting_insn_size ≡ true))
unfolding insn_rows row
insn_rows_iff m a = (λ h. (ground arith, ground arith), λ h. ground (arith, h.0, h.1))

all_six :
    (u v w x y z : Bool)
    → (u && v && w && x && y && z) ≡ true
    → (u ≡ true) × (v ≡ true) × (w ≡ true) × (x ≡ true) × (y ≡ true) × (z ≡ true)
all_six u v w x y z h =
    (ground arith, ground arith, ground arith, ground arith, ground arith, ground arith)

-- On ARM, the report of a mismatch names no difference exactly when the two structures are found
-- equal, for any two structures.
pub reginfo_dump_mismatch_iff :
    (m a : Reginfo) → (reginfo_dump_mismatch m a ≡ []) ↔ (reginfo_is_eq m a ≡ true)
unfolding reginfo_dump_mismatch reginfo_is_eq
reginfo_dump_mismatch_iff m a =
    let insn = insn_rows_iff m a in
    let gp = rows_from_iff r 16 0 m.gpreg a.gpreg in
    let fp = rows_from_iff d 32 0 m.fpregs a.fpregs in
    let c = row_iff (cpsr_line m.cpsr a.cpsr) m.cpsr a.cpsr in
    let s = row_iff (fpscr_line m.fpscr a.fpscr) m.fpscr a.fpscr in
    (
      λ h.
          let (x, h1) = (append_empty (insn_rows m a) _).0 h in
          let (y, h2) = (append_empty (rows_from r 16 0 m.gpreg a.gpreg) _).0 h1 in
          let (z, h3) = (append_empty (row (cpsr_line m.cpsr a.cpsr) m.cpsr a.cpsr) _).0 h2 in
          let (u, v) = (append_empty (rows_from d 32 0 m.fpregs a.fpregs) _).0 h3 in
          ground (arith, insn.0 x, gp.0 y, c.0 z, fp.0 u, s.0 v),
      λ h.
          let (u, v, w, x, y, z) = all_six _ _ _ _ _ _ h in
          (append_empty (insn_rows m a) _).1 (
            insn.1 (v, w),
            (append_empty (rows_from r 16 0 m.gpreg a.gpreg) _).1 (
              gp.1 x,
              (append_empty (row (cpsr_line m.cpsr a.cpsr) m.cpsr a.cpsr) _).1
                  (c.1 y, (append_empty (rows_from d 32 0 m.fpregs a.fpregs) _).1 (fp.1 u, s.1 z)),
            ),
          ),
    )

-- On ARM, an instruction of 16 or of 32 bits that risu makes up for an operation below 16 is read
-- as that operation.
pub get_risuop-insn :
    (ri : Reginfo) (op : ℕ)
    → op < 16
    → (ri.faulting_insn ≡ (if ri.faulting_insn_size == 2 then 0xdee0 else 0xe7fe5af0) + op)
    → get_risuop ri ≡ op_of op
unfolding get_risuop
get_risuop-insn ri op lt h = ground arith
