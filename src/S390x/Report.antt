-- ===== src/S390x/Report.antt =====
-- risu_reginfo_s390x.c: the report of a mismatch says as much as the comparison.
use risu.Prelude.{◌≡◌, ◌↔◌, Bool, true, ◌&&◌, [], ◌==◌, arith}
use risu.Prelude.Rows.{row_unless, append_empty, row_unless_iff, each_iff}
use risu.S390x.{Reginfo, pc_line, fpc_line, r, f, reginfo_is_eq, reginfo_dump_mismatch}

all_true : (u v w x : Bool) → u ≡ true → v ≡ true → w ≡ true → x ≡ true → (u && v && w && x) ≡ true
all_true u v w x h k l q = ground arith

all_four :
    (u v w x : Bool) → (u && v && w && x) ≡ true → (u ≡ true) × (v ≡ true) × (w ≡ true) × (x ≡ true)
all_four u v w x h = (ground arith, ground arith, ground arith, ground arith)

-- On s390x, the report of a mismatch names no difference exactly when the two structures are found
-- equal, for any two structures.
pub reginfo_dump_mismatch_iff_equal :
    (m a : Reginfo) → (reginfo_dump_mismatch m a ≡ []) ↔ (reginfo_is_eq m a ≡ true)
unfolding reginfo_dump_mismatch reginfo_is_eq
reginfo_dump_mismatch_iff_equal m a =
    let pc = row_unless_iff (pc_line m.pc_offset a.pc_offset) (m.pc_offset == a.pc_offset) in
    let gp =
      each_iff (λ i. row_unless (r i (m.gprs i) (a.gprs i)) (m.gprs i == a.gprs i))
        (λ i. m.gprs i == a.gprs i) 16 0
        (λ i. row_unless_iff (r i (m.gprs i) (a.gprs i)) (m.gprs i == a.gprs i)) in
    let fp =
      each_iff (λ i. row_unless (f i (m.fprs i) (a.fprs i)) (m.fprs i == a.fprs i))
        (λ i. m.fprs i == a.fprs i) 16 0
        (λ i. row_unless_iff (f i (m.fprs i) (a.fprs i)) (m.fprs i == a.fprs i)) in
    let c = row_unless_iff (fpc_line m.fpc a.fpc) (m.fpc == a.fpc) in
    (
      λ h.
          let (x, h1) = (append_empty _ _).0 h in
          let (y, h2) = (append_empty _ _).0 h1 in
          let (z, w) = (append_empty _ _).0 h2 in
          all_true _ _ _ _ (pc.0 x) (c.0 w) (gp.0 y) (fp.0 z),
      λ h.
          let (x, y, z, w) = all_four _ _ _ _ h in
          (append_empty _ _).1
            (pc.1 x, (append_empty _ _).1 (gp.1 z, (append_empty _ _).1 (fp.1 w, c.1 y))),
    )
