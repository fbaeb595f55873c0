-- ===== src/I386/Report.antt =====
-- risu_reginfo_i386.c: what the report of a mismatch says of the comparison.
use risu.Prelude.{
  ℕ, ◌+◌, ◌-◌, ◌*◌, ◌≡◌, refl, ap, sym, subst, ◌∙◌, ◌↔◌, true, false, ◌&&◌, List, [], ◌∷◌, ◌++◌,
  zero, suc, if◌then◌else◌, ◌==◌, ==_iff, Bool-cases, if_true, if_false, inl, inr, arith,
}
use risu.Prelude.Bytes.{same_bytes, same_bytes_front, same_bytes_all, all_from_cong, all_from_front}
use risu.Prelude.Outcome.{done, ◌>>=◌}
use risu.Prelude.Rows.{all_from, append_iff, iff_eq, &&_iff, row_unless_iff, each_iff}
use risu.I386.Machine.{X86, is_named}
use risu.I386.{Context, Reginfo, reginfo_init, reginfo_is_eq}
use risu.I386.Dump.{
  Line, greg_line, greg_lines, vreg_row, kreg_row, other_lines, reginfo_dump_mismatch, get_nvecregs,
  get_nvecquads,
}
use risu.I386.Shape.{HasShape, IsWide, reginfo_init-HasShape}

-- What the rows are that the loop over the general registers prints: no assertion fails.
pub record Printed (p : X86) (m a : Reginfo) (count i : ℕ) : Type 0 where
  pub lines : List Line
  pub are : greg_lines p m a count i ≡ done lines
  pub say : (lines ≡ []) ↔ (all_from (λ j. m.gregs j == a.gregs j) count i ≡ true)

module _ (p : X86) (m a : Reginfo) (sm : HasShape p m.xfeatures m)
    (sa : HasShape p m.xfeatures a) where
  named : (i : ℕ) → (m.gregs i == a.gregs i) ≡ false → is_named p i ≡ true
  named i h = elim (Bool-cases (is_named p i)) [
    | inl y ↦ y
    | inr n ↦ let x = sm.unnamed i n in let z = sa.unnamed i n in ground arith
  ]

  greg_lines-Printed : (count i : ℕ) → Printed p m a count i
  unfolding greg_lines all_from
  greg_lines-Printed zero i = record { lines = []; are = refl; say = (λ h. refl, λ h. refl) }
  greg_lines-Printed (suc count) i =
      let r = greg_lines-Printed count (suc i) in
      elim (Bool-cases (m.gregs i == a.gregs i)) [
        | inl h ↦ record {
          lines = r.lines;
          are = if_true _ _ _ h ∙ r.are;
          say = (λ e. ground (arith, r.say.0 e), λ e. r.say.1 (ground arith));
        }
        | inr h ↦ record {
          lines = greg_line i (m.gregs i) (a.gregs i) ∷ r.lines;
          are =
              if_false _ _ _ h
              ∙ if_true _ _ _ (named i h)
              ∙ ap (λ o. o >>= (λ l. done (greg_line i (m.gregs i) (a.gregs i) ∷ l))) r.are;
          say = (λ e. cc, λ e. absurd (ground arith));
        }
      ]

  -- The vector registers that are reported are all that there are.
  vregs_test :
      all_from
        (λ i. same_bytes (m.vregs i) (a.vregs i) (get_nvecquads m.xfeatures * 8) 0)
        (get_nvecregs p m.xfeatures)
        0
      ≡ all_from (λ i. same_bytes (m.vregs i) (a.vregs i) 64 0) (if p.x86_64 then 32 else 8) 0
  vregs_test =
      all_from_cong _ _ _ 0 (λ i le lt.
        same_bytes_front (m.vregs i) (a.vregs i) (get_nvecquads m.xfeatures * 8)
          (64 - get_nvecquads m.xfeatures * 8) (λ j h. sm.upper i j h ∙ sym (sa.upper i j h))
        ∙ ap (λ n. same_bytes (m.vregs i) (a.vregs i) n 0) width)
      ∙ all_from_front _ (get_nvecregs p m.xfeatures)
          ((if p.x86_64 then 32 else 8) - get_nvecregs p m.xfeatures)
          (λ i le.
            same_bytes_all (m.vregs i) (a.vregs i) 64 0
              (λ j. sm.outside i j le ∙ sym (sa.outside i j le)))
      ∙ ap (λ n. all_from (λ i. same_bytes (m.vregs i) (a.vregs i) 64 0) n 0) count
    where
      width : get_nvecquads m.xfeatures * 8 + (64 - get_nvecquads m.xfeatures * 8) ≡ 64
      width = unfold get_nvecquads in ground arith

      count :
          get_nvecregs p m.xfeatures + ((if p.x86_64 then 32 else 8) - get_nvecregs p m.xfeatures)
          ≡ (if p.x86_64 then 32 else 8)
      count = unfold get_nvecregs in ground arith

  others_iff : (other_lines p m a ≡ []) ↔ (
      (m.mxcsr == a.mxcsr
        && (m.xfeatures == a.xfeatures
            && (all_from
                  (λ i. same_bytes (m.vregs i) (a.vregs i) 64 0)
                  (if p.x86_64 then 32 else 8)
                  0
                && all_from (λ i. same_bytes (m.kregs i) (a.kregs i) 8 0) 8 0)))
      ≡ true)
  unfolding other_lines vreg_row kreg_row
  others_iff = append_iff _ _ _ _ (row_unless_iff _ _) λ _.
      append_iff _ _ _ _ (row_unless_iff _ _) λ _.
        append_iff _ _ _ _ (iff_eq (each_iff _ _ _ 0 (λ i. row_unless_iff _ _)) vregs_test)
          λ _. each_iff _ _ 8 0 (λ i. row_unless_iff _ _)

  explained_iff :
      (reginfo_is_eq p m a ≡ true)
      ↔ ((reginfo_dump_mismatch p m a ≡ done []) × (m.faulting_insn ≡ a.faulting_insn))
  unfolding reginfo_dump_mismatch reginfo_is_eq
  explained_iff =
      let g = greg_lines-Printed p.ngreg 0 in
      let rows = append_iff g.lines (other_lines p m a) _ _ g.say (λ _. others_iff) in
      let whole = ap (λ o. o >>= (λ l. done (l ++ other_lines p m a))) g.are in
      let both = &&_iff (m.faulting_insn == a.faulting_insn) _ in
      let same = ==_iff m.faulting_insn a.faulting_insn in
      (
        λ h. (whole ∙ ap done (rows.1 ((both.0 h).1)), same.0 (both.0 h).0),
        λ h. both.1 (same.1 h.1, rows.0 (done_injective (sym whole ∙ h.0))),
      )
    where
      done_injective : {x y : List Line} → done x ≡ done y → x ≡ y
      done_injective h = cc

-- On x86, of 32 or 64 bits, two structures that reginfo_init takes from any two contexts of the
-- same image with the same mask of features are found equal exactly when the report ends without a
-- failed assertion and names no difference, and the faulting instructions are the same, which the
-- report leaves out. On x86-64 the mask must have ZMM_Hi256 if it has Hi16_ZMM.
pub reginfo_is_eq-reginfo_dump_mismatch_iff :
    (p : X86) (xfeatures image_start_address : ℕ) (uc vc : Context) (m a : Reginfo)
    → (p.x86_64 ≡ true → IsWide xfeatures)
    → reginfo_init p xfeatures image_start_address uc ≡ done m
    → reginfo_init p xfeatures image_start_address vc ≡ done a
    → (reginfo_is_eq p m a ≡ true)
      ↔ ((reginfo_dump_mismatch p m a ≡ done []) × (m.faulting_insn ≡ a.faulting_insn))
reginfo_is_eq-reginfo_dump_mismatch_iff p xf n uc vc m a wide h k =
    let sm = reginfo_init-HasShape p xf n uc m wide h in
    let sa = reginfo_init-HasShape p xf n vc a wide k in
    explained_iff p m a (subst (λ x. HasShape p x m) (sym sm.features) sm)
      (subst (λ x. HasShape p x a) (sym sm.features) sa)
