-- ===== src/Loongarch64/Report.antt =====
-- risu_reginfo_loongarch64.c: the report of a mismatch says as much as the comparison.
use risu.Prelude.{ℕ, ◌≡◌, ◌↔◌, true, [], ==_iff}
use risu.Prelude.Rows.{append_iff, row_unless_iff, each_iff}
use risu.Loongarch64.{
  Context, Reginfo, reginfo_init, same_vreg, reginfo_is_eq, vreg_row, reginfo_dump_mismatch,
}
use risu.Loongarch64.Vectors.{Shape, take_vectors-Shape, vreg_row_iff}

Shape-report :
    (m a : Reginfo)
    → Shape m
    → Shape a
    → (reginfo_dump_mismatch m a ≡ []) ↔ (reginfo_is_eq m a ≡ true)
unfolding reginfo_dump_mismatch reginfo_is_eq
Shape-report m a sm sa = append_iff _ _ _ _ (row_unless_iff _ _) λ v.
    append_iff _ _ _ _ (row_unless_iff _ _) λ _.
      append_iff _ _ _ _ (each_iff _ _ 32 0 (λ i. row_unless_iff _ _)) λ _.
        append_iff _ _ _ _ (row_unless_iff _ _) λ _. append_iff _ _ _ _ (row_unless_iff _ _) λ _.
          append_iff _ _ _ _ (row_unless_iff _ _) λ _. append_iff _ _ _ _ (row_unless_iff _ _) λ _.
            each_iff (vreg_row m a) (same_vreg m a) 32 0
              (vreg_row_iff m a sm sa ((==_iff m.vl a.vl).0 v))

-- On LoongArch, for two structures that are taken from any two contexts of the same image, the
-- report of a mismatch names no difference exactly when the structures are found equal, although
-- the comparison looks at all words of the vector registers and the report only at those of the
-- vector length.
pub reginfo_dump_mismatch-reginfo_init_iff :
    (image_start_address : ℕ) (uc vc : Context)
    → let m = reginfo_init image_start_address uc in
      let a = reginfo_init image_start_address vc in
      (reginfo_dump_mismatch m a ≡ []) ↔ (reginfo_is_eq m a ≡ true)
unfolding reginfo_init
reginfo_dump_mismatch-reginfo_init_iff image_start_address uc vc =
    Shape-report _ _ (take_vectors-Shape _ image_start_address uc)
      (take_vectors-Shape _ image_start_address vc)
