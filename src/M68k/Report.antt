-- ===== src/M68k/Report.antt =====
-- risu_reginfo_m68k.c: the report of a mismatch says as much as the comparison.
use risu.Prelude.{
  ℕ, zero, suc, ◌≡◌, ◌↔◌, refl, Bool, true, false, not, ◌&&◌, List, [], ◌++◌, arith, if◌then◌else◌,
  ◌==◌,
}
use risu.Prelude.Rows.{append_empty}
use risu.M68k.{
  Indices, Reginfo, Line, register, register_ps, register_fpcr, register_fpsr, register_fp,
  same_fpreg, same_fpregs, line_if, fpreg_lines, left_out, same_gregs, reginfo_is_eq, greg_lines,
  reginfo_dump_mismatch,
}

no_line :
    (b : Bool) (line : Line) (xs : List Line)
    → (line_if b line ++ xs ≡ []) ↔ ((b ≡ false) × (xs ≡ []))
unfolding line_if
no_line true line xs = (λ h. cc, λ h. cc)
no_line false line xs = (λ h. (refl, h), λ h. h.1)

fpreg_lines_iff :
    (count i : ℕ) (f g : ℕ → ℕ → ℕ)
    → (fpreg_lines count i f g ≡ []) ↔ (same_fpregs count i f g ≡ true)
unfolding fpreg_lines same_fpregs
fpreg_lines_iff zero i f g = (λ h. refl, λ h. refl)
fpreg_lines_iff (suc count) i f g =
    let rest = fpreg_lines_iff count (suc i) f g in
    let here =
      no_line (not (same_fpreg (f i) (g i))) (register_fp i (f i) (g i))
        (fpreg_lines count (suc i) f g) in
    (
      λ h. ground (arith, (here.0 h).0, rest.0 (here.0 h).1),
      λ h. here.1 (ground arith, rest.1 (ground arith)),
    )

module _ (n : Indices) where
  greg_lines_iff :
      (count i : ℕ) (f g : ℕ → ℕ)
      → (greg_lines n count i f g ≡ []) ↔ (same_gregs n count i f g ≡ true)
  unfolding greg_lines same_gregs
  greg_lines_iff zero i f g = (λ h. refl, λ h. refl)
  greg_lines_iff (suc count) i f g =
      let rest = greg_lines_iff count (suc i) f g in
      let here =
        no_line (not (left_out n i) && not (f i == g i)) (register i (f i) (g i))
          (greg_lines n count (suc i) f g) in
      (
        λ h. ground (arith, (here.0 h).0, rest.0 (here.0 h).1),
        λ h. here.1 (ground arith, rest.1 (ground arith)),
      )

  all_five :
      (u v w x y : Bool)
      → (if not u
          then false
          else if not v
          then false
          else if not w
          then false
          else if not x
          then false
          else y)
        ≡ true
      → (u ≡ true) × (v ≡ true) × (w ≡ true) × (x ≡ true) × (y ≡ true)
  all_five u v w x y h = (ground arith, ground arith, ground arith, ground arith, ground arith)

  five :
      (u v w x y : Bool)
      → not u ≡ false
      → v ≡ true
      → not w ≡ false
      → not x ≡ false
      → y ≡ true
      → (if not u
          then false
          else if not v
          then false
          else if not w
          then false
          else if not x
          then false
          else y)
        ≡ true
  five u v w x y a b c d e = ground arith

  flipped : (b : Bool) → b ≡ true → not b ≡ false
  flipped b h = ground arith

  -- On m68k, the report of a mismatch names no difference exactly when the two structures are
  -- found equal: both leave out the stack pointer and A6, whatever the indices of the registers
  -- are.
  pub reginfo_is_eq_iff :
      (m a : Reginfo) → (reginfo_dump_mismatch n m a ≡ []) ↔ (reginfo_is_eq n m a ≡ true)
  unfolding reginfo_dump_mismatch reginfo_is_eq
  reginfo_is_eq_iff m a =
      let gp = greg_lines_iff 16 0 m.gregs a.gregs in
      let fp = fpreg_lines_iff 8 0 m.fpregs.f_fpregs a.fpregs.f_fpregs in
      (
        λ h.
            let (x, h1) = (no_line _ (register_ps (m.gregs n.r_ps) (a.gregs n.r_ps)) _).0 h in
            let (y, h2) = (append_empty (greg_lines n 16 0 m.gregs a.gregs) _).0 h1 in
            let (z, h3) = (no_line _ (register_fpcr m.fpregs.f_pcr a.fpregs.f_pcr) _).0 h2 in
            let (u, v) = (no_line _ (register_fpsr m.fpregs.f_psr a.fpregs.f_psr) _).0 h3 in
            five _ _ _ _ _ x (gp.0 y) z u (fp.0 v),
        λ h.
            let (u, v, w, x, y) = all_five _ _ _ _ _ h in
            (no_line _ (register_ps (m.gregs n.r_ps) (a.gregs n.r_ps)) _).1 (
              flipped _ u,
              (append_empty (greg_lines n 16 0 m.gregs a.gregs) _).1 (
                gp.1 v,
                (no_line _ (register_fpcr m.fpregs.f_pcr a.fpregs.f_pcr) _).1 (
                  flipped _ w,
                  (no_line _ (register_fpsr m.fpregs.f_psr a.fpregs.f_psr) _).1
                      (flipped _ x, fp.1 y),
                ),
              ),
            ),
      )
