-- ===== src/Aarch64/Report.antt =====
-- risu_reginfo_aarch64.c: what the report of a mismatch says of the comparison.
use risu.Prelude.{ℕ, ◌-◌, ◌≡◌, ◌↔◌, Bool, true, ◌&&◌, [], ◌==◌, ==_iff}
use risu.Prelude.Bytes.{same_bytes}
use risu.Prelude.Rows.{all_from, append_iff, &&_iff, row_unless_iff, each_iff}
use risu.Aarch64.Layout.{Sigcontext, IsLaidOut}
use risu.Aarch64.{Context, Reginfo, reginfo_init, reginfo_is_eq, reginfo_size, offsetof_extra}
use risu.Aarch64.Dump.{reginfo_dump_mismatch}
use risu.Aarch64.Vectors.{IsPadded, reginfo_init-IsPadded, vector_rows_iff}

module _ (k : Sigcontext) (laid : IsLaidOut k) (m a : Reginfo) where
  -- What the report looks at, in its order.
  explained : Bool
  explained =
      m.faulting_insn == a.faulting_insn
      && (all_from (λ i. m.regs i == a.regs i) 31 0
          && (m.sp == a.sp
              && (m.pc == a.pc
                  && (m.flags == a.flags
                      && (m.fpsr == a.fpsr
                          && (m.fpcr == a.fpcr
                              && (m.sve_vl == a.sve_vl
                                  && same_bytes m.extra a.extra (reginfo_size k m - offsetof_extra)
                                      0)))))))

  rows_iff : IsPadded k m → IsPadded k a → (reginfo_dump_mismatch k m a ≡ []) ↔ (explained ≡ true)
  unfolding reginfo_dump_mismatch explained
  rows_iff pm pa = append_iff _ _ _ _ (row_unless_iff _ _) λ _.
      append_iff _ _ _ _ (each_iff _ _ 31 0 (λ i. row_unless_iff _ _)) λ _.
        append_iff _ _ _ _ (row_unless_iff _ _) λ _. append_iff _ _ _ _ (row_unless_iff _ _) λ _.
          append_iff _ _ _ _ (row_unless_iff _ _) λ _. append_iff _ _ _ _ (row_unless_iff _ _) λ _.
            append_iff _ _ _ _ (row_unless_iff _ _) λ _.
              append_iff _ _ _ _ (row_unless_iff _ _)
                (λ e. vector_rows_iff k laid m a pm pa ((==_iff m.sve_vl a.sve_vl).0 e))

  fault_iff :
      IsPadded k m
      → IsPadded k a
      → (reginfo_is_eq k m a ≡ true)
        ↔ ((reginfo_dump_mismatch k m a ≡ []) × (m.fault_address ≡ a.fault_address))
  unfolding reginfo_is_eq explained
  fault_iff pm pa =
      let both = &&_iff (m.fault_address == a.fault_address) explained in
      let same = ==_iff m.fault_address a.fault_address in
      (
        λ h. ((rows_iff pm pa).1 ((both.0 h).1), same.0 (both.0 h).0),
        λ h. both.1 (same.1 h.1, (rows_iff pm pa).0 h.0),
      )

-- On AArch64, two structures that are taken from any two contexts of the same image, with or
-- without SVE, are found equal exactly when the report of a mismatch names no difference and the
-- fault addresses are the same: the report covers every byte that is compared but those of the
-- fault address. The registers of SVE lie as the kernel lays them out.
pub reginfo_is_eq-reginfo_init_iff :
    (k : Sigcontext)
    → IsLaidOut k
    → (test_sve image_start_address : ℕ) (uc vc : Context)
    → let m = reginfo_init k test_sve image_start_address uc in
      let a = reginfo_init k test_sve image_start_address vc in
      (reginfo_is_eq k m a ≡ true)
      ↔ ((reginfo_dump_mismatch k m a ≡ []) × (m.fault_address ≡ a.fault_address))
reginfo_is_eq-reginfo_init_iff k laid t n uc vc =
    fault_iff k laid _ _ (reginfo_init-IsPadded k laid t n uc) (reginfo_init-IsPadded k laid t n vc)
