-- ===== src/Loongarch64/Vectors.antt =====
-- risu_reginfo_loongarch64.c: the words of the vector registers that are compared and
-- reported.
use risu.Prelude.{
  ℕ, ◌≡◌, ◌↔◌, refl, Bool, true, false, ◌&&◌, List, [], ◌==◌, none, some, if_true, if_false, arith,
  sym, ◌∙◌,
}
use risu.Prelude.Rows.{row_unless, row_unless_iff}
use risu.Loongarch64.{
  Context, Reginfo, Layout, take_lasx, take_lsx, take_fpu, take_vectors, base_regs, same_vreg, Line,
  vreg_1, vreg_2, vreg_4, vreg_row,
}

-- The words of the vector registers that a structure has for its length, the others being zero.
pub data Shape (ri : Reginfo) : Type 0 where
  has_four : ri.vl ≡ 256 → Shape ri
  has_two : ri.vl ≡ 128 → ((i : ℕ) → (ri.vregs i 2 ≡ 0) × (ri.vregs i 3 ≡ 0)) → Shape ri
  has_one :
      ri.vl ≡ 64
      → ((i : ℕ) → (ri.vregs i 1 ≡ 0) × (ri.vregs i 2 ≡ 0) × (ri.vregs i 3 ≡ 0))
      → Shape ri
  has_none :
      ri.vl ≡ 0
      → ((i : ℕ)
          → (ri.vregs i 0 ≡ 0) × (ri.vregs i 1 ≡ 0) × (ri.vregs i 2 ≡ 0) × (ri.vregs i 3 ≡ 0))
      → Shape ri

pub take_vectors-Shape :
    (l : Layout) (n : ℕ) (uc : Context) → Shape (take_vectors l (base_regs n uc))
unfolding take_vectors take_lasx take_lsx take_fpu base_regs
take_vectors-Shape l n uc =
    elim l.lasx
      as (λ x. Shape (elim x [
        | some c ↦ take_lasx c (base_regs n uc)
        | none ↦ elim l.lsx [
          | some c ↦ take_lsx c (base_regs n uc)
          | none ↦ elim l.fpu [ some c ↦ take_fpu c (base_regs n uc) | none ↦ base_regs n uc ]
        ]
      ])) [
        | some c ↦ has_four refl
        | none ↦
            elim l.lsx
              as (λ x. Shape (elim x [
                | some c ↦ take_lsx c (base_regs n uc)
                | none ↦ elim l.fpu [ some c ↦ take_fpu c (base_regs n uc) | none ↦ base_regs n uc ]
              ])) [
                | some c ↦ has_two refl (λ i. (refl, refl))
                | none ↦
                    elim l.fpu
                      as (λ x.
                        Shape (elim x [
                          | some c ↦ take_fpu c (base_regs n uc)
                          | none ↦ base_regs n uc
                        ])) [
                          | some c ↦ has_one refl (λ i. (refl, refl, refl))
                          | none ↦ has_none refl (λ i. (refl, refl, refl, refl))
                        ]
              ]
      ]

-- What is zero by the length alone.
two_zero :
    (ri : Reginfo) → Shape ri → ri.vl ≡ 128 → (i : ℕ) → (ri.vregs i 2 ≡ 0) × (ri.vregs i 3 ≡ 0)
two_zero ri (has_four e) v i = (omega arith, omega arith)
two_zero ri (has_two e f) v i = f i
two_zero ri (has_one e f) v i = (omega arith, omega arith)
two_zero ri (has_none e f) v i = (omega arith, omega arith)

one_zero :
    (ri : Reginfo)
    → Shape ri
    → ri.vl ≡ 64
    → (i : ℕ) → (ri.vregs i 1 ≡ 0) × (ri.vregs i 2 ≡ 0) × (ri.vregs i 3 ≡ 0)
one_zero ri (has_four e) v i = (omega arith, omega arith, omega arith)
one_zero ri (has_two e f) v i = (omega arith, omega arith, omega arith)
one_zero ri (has_one e f) v i = f i
one_zero ri (has_none e f) v i = (omega arith, omega arith, omega arith)

all_zero :
    (ri : Reginfo)
    → Shape ri
    → ri.vl ≡ 0
    → (i : ℕ) → (ri.vregs i 0 ≡ 0) × (ri.vregs i 1 ≡ 0) × (ri.vregs i 2 ≡ 0) × (ri.vregs i 3 ≡ 0)
all_zero ri (has_four e) v i = (omega arith, omega arith, omega arith, omega arith)
all_zero ri (has_two e f) v i = (omega arith, omega arith, omega arith, omega arith)
all_zero ri (has_one e f) v i = (omega arith, omega arith, omega arith, omega arith)
all_zero ri (has_none e f) v i = f i

row_as :
    (xs : List Line) (line : Line) (t s : Bool)
    → xs ≡ row_unless line t
    → t ≡ s
    → (xs ≡ []) ↔ (s ≡ true)
row_as xs line t s p q =
    (λ h. sym q ∙ (row_unless_iff line t).0 (sym p ∙ h), λ h. p ∙ (row_unless_iff line t).1 (q ∙ h))

module _ (m a : Reginfo) (i : ℕ) where
  row_256 :
      m.vl ≡ 256 → vreg_row m a i ≡ row_unless (vreg_4 i (m.vregs i) (a.vregs i)) (same_vreg m a i)
  unfolding vreg_row
  row_256 e = let c : (m.vl == 256) ≡ true = ground arith in if_true _ _ _ c

  row_128 :
      m.vl ≡ 128
      → vreg_row m a i
        ≡ row_unless
            (vreg_2 i (m.vregs i 1) (m.vregs i 0) (a.vregs i 1) (m.vregs i 0))
            (m.vregs i 1 == a.vregs i 1 && m.vregs i 0 == a.vregs i 0)
  unfolding vreg_row
  row_128 e =
      let b : (m.vl == 256) ≡ false = ground arith in
      let c : (m.vl == 128) ≡ true = ground arith in if_false _ _ _ b ∙ if_true _ _ _ c

  row_64 :
      m.vl ≡ 64
      → vreg_row m a i
        ≡ row_unless (vreg_1 i (m.vregs i 0) (a.vregs i 0)) (m.vregs i 0 == a.vregs i 0)
  unfolding vreg_row
  row_64 e =
      let b : (m.vl == 256) ≡ false = ground arith in
      let c : (m.vl == 128) ≡ false = ground arith in
      let d : (m.vl == 64) ≡ true = ground arith in
      if_false _ _ _ b ∙ if_false _ _ _ c ∙ if_true _ _ _ d

  row_0 : m.vl ≡ 0 → vreg_row m a i ≡ []
  unfolding vreg_row
  row_0 e =
      let b : (m.vl == 256) ≡ false = ground arith in
      let c : (m.vl == 128) ≡ false = ground arith in
      let d : (m.vl == 64) ≡ false = ground arith in
      if_false _ _ _ b ∙ if_false _ _ _ c ∙ if_false _ _ _ d

-- A row is left out exactly when the whole register is the same.
pub vreg_row_iff :
    (m a : Reginfo)
    → Shape m
    → Shape a
    → m.vl ≡ a.vl
    → (i : ℕ) → (vreg_row m a i ≡ []) ↔ (same_vreg m a i ≡ true)
unfolding same_vreg
vreg_row_iff m a (has_four e) sa q i =
    row_as (vreg_row m a i) (vreg_4 i (m.vregs i) (a.vregs i)) (same_vreg m a i) (same_vreg m a i)
      (row_256 m a i e) refl
vreg_row_iff m a (has_two e f) sa q i =
    let (m2, m3) = f i in
    let (a2, a3) = two_zero a sa (sym q ∙ e) i in
    row_as (vreg_row m a i) (vreg_2 i (m.vregs i 1) (m.vregs i 0) (a.vregs i 1) (m.vregs i 0))
      (m.vregs i 1 == a.vregs i 1 && m.vregs i 0 == a.vregs i 0) (same_vreg m a i) (row_128 m a i e)
      (ground arith)
vreg_row_iff m a (has_one e f) sa q i =
    let (m1, m2, m3) = f i in
    let (a1, a2, a3) = one_zero a sa (sym q ∙ e) i in
    row_as (vreg_row m a i) (vreg_1 i (m.vregs i 0) (a.vregs i 0)) (m.vregs i 0 == a.vregs i 0)
      (same_vreg m a i) (row_64 m a i e) (ground arith)
vreg_row_iff m a (has_none e f) sa q i =
    let (m0, m1, m2, m3) = f i in
    let (a0, a1, a2, a3) = all_zero a sa (sym q ∙ e) i in (λ h. ground arith, λ h. row_0 m a i e)
