-- ===== src/Ppc64/Vectors.antt =====
-- risu_reginfo_ppc64.c: the vector registers, where the build has VRREGS: how they are taken on
-- Mac OS X, put back, compared and reported.
use risu.Prelude.{
  ℕ, zero, suc, ◌≤◌, ◌<◌, ◌≡◌, ◌↔◌, refl, sym, ap, ◌∙◌, Bool, true, false, not, ◌&&◌, ◌||◌, List,
  [], ◌==◌, if◌then◌else◌, if_true, if_false, Bool-cases, subst, inl, inr, arith, ==_refl, leb,
}
use risu.Prelude.Rows.{row_unless, row_unless_iff, each_from, each_iff, all_from, rows_as}
use risu.Ppc64.Rules.{selected}

-- `risu_vrregset_t`, each vector register as its four words.
pub record VrRegs : Type 0 where
  pub vrregs : ℕ → ℕ → ℕ
  pub vscr : ℕ → ℕ
  pub vrsave : ℕ
  pub vrsave2 : ℕ
  pub save_vrvalid : ℕ

-- What savevec, which is written in assembly, stores of the processor's registers.
pub record Saved : Type 0 where
  pub saved_vrregs : ℕ → ℕ → ℕ
  pub saved_vscr : ℕ → ℕ
  pub saved_vrsave2 : ℕ

-- The parts of the context on Mac OS X.
pub record VectorContext : Type 0 where
  pub uc_mcsize : ℕ
  pub save_vr : ℕ → ℕ → ℕ
  pub save_vscr : ℕ → ℕ
  pub vs_save_vrvalid : ℕ
  pub ss_vrsave : ℕ

abbrev zero_vrregs : VrRegs
zero_vrregs = record { vrregs = λ i w. 0; vscr = λ w. 0; vrsave = 0; vrsave2 = 0; save_vrvalid = 0 }

-- reginfo_init for the vector registers, with `sizeof(struct mcontext)`.
unfoldable pub take_vrregs : ℕ → ℕ → Saved → VectorContext → VrRegs
take_vrregs vrregs_mask sizeof_mcontext saved uc =
    let taken =
      if leb sizeof_mcontext uc.uc_mcsize
      then record zero_vrregs {
        vrregs = uc.save_vr;
        vscr = uc.save_vscr;
        save_vrvalid = uc.vs_save_vrvalid;
        vrsave2 = 0;
      }
      else if not (vrregs_mask == 0)
      then record zero_vrregs {
        vrregs = saved.saved_vrregs;
        vscr = saved.saved_vscr;
        vrsave2 = saved.saved_vrsave2;
        save_vrvalid = 0;
      }
      else zero_vrregs in
    record taken { vrsave = uc.ss_vrsave }

-- reginfo_update for the vector registers.
unfoldable pub put_vrregs : VrRegs → VectorContext → VectorContext
put_vrregs r uc = record uc { save_vscr = r.vscr }

unfoldable pub same_vreg : VrRegs → VrRegs → ℕ → Bool
same_vreg m a i =
    (m.vrregs i 0 == a.vrregs i 0)
    && ((m.vrregs i 1 == a.vrregs i 1)
        && ((m.vrregs i 2 == a.vrregs i 2) && (m.vrregs i 3 == a.vrregs i 3)))

-- Register i of the apprentice becomes that of the master.
unfoldable pub copy_vreg : VrRegs → VrRegs → ℕ → VrRegs
copy_vreg m a i = record a { vrregs = λ j. if j == i then m.vrregs i else a.vrregs j }

-- One register: whether the loop goes on, and what has become of the apprentice's.
unfoldable pub settle_vreg : ℕ → VrRegs → ℕ → VrRegs → Bool × VrRegs
settle_vreg vrregs_mask m i a =
    if same_vreg m a i
    then (true, a)
    else if selected vrregs_mask i
    then (false, a)
    else (true, copy_vreg m a i)

-- The loop over `count` registers from `i` on.
unfoldable pub check_vregs : ℕ → VrRegs → ℕ → ℕ → VrRegs → Bool × VrRegs
check_vregs vrregs_mask m zero i a = (true, a)
check_vregs vrregs_mask m (suc count) i a =
    let s = settle_vreg vrregs_mask m i a in
    let rest = check_vregs vrregs_mask m count (suc i) s.1 in if s.0 then rest else (false, s.1)

-- A line of the report, with the words of both registers.
pub data VregLine : Type 0 where
  vr : ℕ → (ℕ → ℕ) → (ℕ → ℕ) → VregLine

unfoldable pub vreg_rows : VrRegs → VrRegs → ℕ → List VregLine
vreg_rows m a i = row_unless (vr i (m.vrregs i) (a.vrregs i)) (same_vreg m a i)

same_vreg_as :
    (m a b : VrRegs) (i : ℕ) → b.vrregs i ≡ a.vrregs i → same_vreg m b i ≡ same_vreg m a i
unfolding same_vreg
same_vreg_as m a b i e =
    ap
      (λ f.
        (m.vrregs i 0 == f 0)
        && ((m.vrregs i 1 == f 1) && ((m.vrregs i 2 == f 2) && (m.vrregs i 3 == f 3))))
      e

same_vreg_self : (m : VrRegs) (i : ℕ) → same_vreg m m i ≡ true
unfolding same_vreg
same_vreg_self m i = ground arith

module _ (vrregs_mask : ℕ) (m : VrRegs) where
  -- The three ways that a register goes.
  data Settled (i : ℕ) (a : VrRegs) : Bool × VrRegs → Type 0 where
    is_same : same_vreg m a i ≡ true → Settled i a (true, a)
    is_wrong : same_vreg m a i ≡ false → selected vrregs_mask i ≡ true → Settled i a (false, a)
    is_copied :
        same_vreg m a i ≡ false
        → selected vrregs_mask i ≡ false
        → Settled i a (true, copy_vreg m a i)

  settle_vreg-Settled : (i : ℕ) (a : VrRegs) → Settled i a (settle_vreg vrregs_mask m i a)
  unfolding settle_vreg
  settle_vreg-Settled i a = elim (Bool-cases (same_vreg m a i)) [
    | inl e ↦ subst (Settled i a) (sym (if_true _ _ _ e)) (is_same e)
    | inr e ↦ elim (Bool-cases (selected vrregs_mask i)) [
      | inl k ↦ subst (Settled i a) (sym (if_false _ _ _ e ∙ if_true _ _ _ k)) (is_wrong e k)
      | inr k ↦ subst (Settled i a) (sym (if_false _ _ _ e ∙ if_false _ _ _ k)) (is_copied e k)
    ]
  ]

  Settled-here : (i : ℕ) (a : VrRegs) (s : Bool × VrRegs) → Settled i a s → same_vreg m s.1 i ≡ s.0
  unfolding copy_vreg
  Settled-here i a _ (is_same e) = e
  Settled-here i a _ (is_wrong e k) = e
  Settled-here i a _ (is_copied e k) =
      same_vreg_as m m (copy_vreg m a i) i (if_true _ _ _ (==_refl i)) ∙ same_vreg_self m i

  Settled-there :
      (i j : ℕ) (a : VrRegs) (s : Bool × VrRegs)
      → (j == i) ≡ false
      → Settled i a s
      → s.1.vrregs j ≡ a.vrregs j
  unfolding copy_vreg
  Settled-there i j a _ ne (is_same e) = refl
  Settled-there i j a _ ne (is_wrong e k) = refl
  Settled-there i j a _ ne (is_copied e k) = if_false _ _ _ ne

  -- Whether a register lets the loop go on.
  unfoldable pub passes : VrRegs → ℕ → Bool
  passes a i = same_vreg m a i || not (selected vrregs_mask i)

  Settled-passes : (i : ℕ) (a : VrRegs) (s : Bool × VrRegs) → Settled i a s → s.0 ≡ passes a i
  unfolding passes
  Settled-passes i a _ (is_same e) = rw e refl
  Settled-passes i a _ (is_wrong e k) = rw e (rw k refl)
  Settled-passes i a _ (is_copied e k) = rw e (rw k refl)

  -- What stands before register i is left alone.
  check_vregs-before :
      (count i j : ℕ) (a : VrRegs)
      → j < i
      → (check_vregs vrregs_mask m count i a).1.vrregs j ≡ a.vrregs j
  unfolding check_vregs
  check_vregs-before zero i j a lt = refl
  check_vregs-before (suc count) i j a lt =
      let s = settle_vreg vrregs_mask m i a in
      let there = Settled-there i j a s (ground arith) (settle_vreg-Settled i a) in
      elim (Bool-cases s.0) [
        | inl e ↦ rw e (check_vregs-before count (suc i) j s.1 (omega arith) ∙ there)
        | inr e ↦ rw e there
      ]

  check_vregs-step :
      (count i : ℕ) (a : VrRegs) (b : Bool)
      → let s = settle_vreg vrregs_mask m i a in
        s.0 ≡ b
        → check_vregs vrregs_mask m (suc count) i a
          ≡ (if b then check_vregs vrregs_mask m count (suc i) s.1 else (false, s.1))
  unfolding check_vregs
  check_vregs-step count i a b e =
      let s = settle_vreg vrregs_mask m i a in
      ap (λ c. if c then check_vregs vrregs_mask m count (suc i) s.1 else (false, s.1)) e

  check_vregs-none : (i : ℕ) (a : VrRegs) → true ≡ (check_vregs vrregs_mask m 0 i a).0
  unfolding check_vregs
  check_vregs-none i a = refl

  check_vregs-same :
      (count i : ℕ) (a : VrRegs)
      → let r = check_vregs vrregs_mask m count i a in all_from (same_vreg m r.1) count i ≡ r.0
  unfolding all_from
  check_vregs-same zero i a = check_vregs-none i a
  check_vregs-same (suc count) i a =
      let s = settle_vreg vrregs_mask m i a in
      let here = Settled-here i a s (settle_vreg-Settled i a) in
      let goes : Bool × VrRegs → Type 0 = λ r. all_from (same_vreg m r.1) (suc count) i ≡ r.0 in
      elim (Bool-cases s.0) [
        | inl e ↦
            let r = check_vregs vrregs_mask m count (suc i) s.1 in
            let first : same_vreg m r.1 i ≡ true =
              same_vreg_as m s.1 r.1 i (check_vregs-before count (suc i) i s.1 (omega arith))
              ∙ here
              ∙ e in
            subst goes (sym (check_vregs-step count i a true e))
              (rw first (check_vregs-same count (suc i) s.1))
        | inr e ↦ subst goes (sym (check_vregs-step count i a false e)) (rw (here ∙ e) refl)
      ]

  all_from-passes :
      (count i : ℕ) (a b : VrRegs)
      → ((j : ℕ) → i ≤ j → b.vrregs j ≡ a.vrregs j)
      → all_from (passes b) count i ≡ all_from (passes a) count i
  unfolding all_from passes
  all_from-passes zero i a b h = refl
  all_from-passes (suc count) i a b h =
      rw (same_vreg_as m a b i (h i (omega arith)))
        (ap (λ c. passes a i && c) (all_from-passes count (suc i) a b (λ j le. h j (omega arith))))

  check_vregs-passes :
      (count i : ℕ) (a : VrRegs)
      → (check_vregs vrregs_mask m count i a).0 ≡ all_from (passes a) count i
  unfolding check_vregs all_from
  check_vregs-passes zero i a = refl
  check_vregs-passes (suc count) i a =
      let s = settle_vreg vrregs_mask m i a in
      let l = settle_vreg-Settled i a in
      let first = Settled-passes i a s l in
      elim (Bool-cases s.0) [
        | inl e ↦ rw e (
            rw (sym first ∙ e) (
              check_vregs-passes count (suc i) s.1
              ∙ all_from-passes count (suc i) a s.1
                  (λ j le. Settled-there i j a s (ground arith) l)))
        | inr e ↦ rw e (rw (sym first ∙ e) refl)
      ]

-- On PowerPC with vector registers, whatever the mask and both sets of them are, the comparison
-- finds the vector registers equal exactly when each one that the mask selects is the same on both
-- sides, and exactly then the report, written from what the comparison has left of the
-- apprentice's registers, names none of them.
pub check_vregs-vreg_rows :
    (vrregs_mask : ℕ) (m a : VrRegs)
    → let r = check_vregs vrregs_mask m 32 0 a in
      (r.0 ≡ all_from (passes vrregs_mask m a) 32 0)
      × ((each_from (vreg_rows m r.1) 32 0 ≡ []) ↔ (r.0 ≡ true))
unfolding vreg_rows
check_vregs-vreg_rows vrregs_mask m a =
    let r = check_vregs vrregs_mask m 32 0 a in
    (
      check_vregs-passes vrregs_mask m 32 0 a,
      rows_as refl (each_iff (vreg_rows m r.1) (same_vreg m r.1) 32 0 (λ j. row_unless_iff _ _))
          (check_vregs-same vrregs_mask m 32 0 a),
    )
