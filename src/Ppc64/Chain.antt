-- ===== src/Ppc64/Chain.antt =====
-- risu_reginfo_ppc64.c: what the parts and the loops of reginfo_is_eq do, for any part.
use risu.Prelude.{
  ap, sym, ◌∙◌, inl, inr, ◌⊎◌, Bool-cases, ==_iff, ℕ, zero, suc, ◌+◌, ◌≤◌, ◌<◌, ◌≡◌, refl, Bool,
  true, false, ◌&&◌, not, if◌then◌else◌, ◌==◌, ltb, arith,
}
use risu.Ppc64.{Reginfo}
use risu.Ppc64.Compare.{Checked, and_then, settle, check_from}

pub and_then-passed :
    (x : Checked) (next : Reginfo → Checked)
    → (and_then x next).0 ≡ true
    → (x.0 ≡ true) × (and_then x next ≡ next x.1)
and_then-passed (true, a) next h = (refl, refl)
and_then-passed (false, a) next h = cc

pub and_then-failed :
    (x : Checked) (next : Reginfo → Checked)
    → (and_then x next).0 ≡ false
    → ((x.0 ≡ false) × (and_then x next ≡ x))
      ⊎ ((x.0 ≡ true) × ((next x.1).0 ≡ false) × (and_then x next ≡ next x.1))
and_then-failed (true, a) next h = inr (refl, h, refl)
and_then-failed (false, a) next h = inl (refl, refl)

pub settle-passed :
    (equal let_pass : Bool) (a b : Reginfo)
    → (settle equal let_pass a b).0 ≡ true
    → ((equal ≡ true) × ((settle equal let_pass a b).1 ≡ a))
      ⊎ ((let_pass ≡ true) × ((settle equal let_pass a b).1 ≡ b))
settle-passed true let_pass a b h = inl (refl, refl)
settle-passed false true a b h = inr (refl, refl)
settle-passed false false a b h = cc

pub settle-failed :
    (equal let_pass : Bool) (a b : Reginfo)
    → (settle equal let_pass a b).0 ≡ false
    → (equal ≡ false) × ((settle equal let_pass a b).1 ≡ a)
settle-failed true let_pass a b h = cc
settle-failed false true a b h = cc
settle-failed false false a b h = (refl, refl)

-- A view that is the same on both structures is kept.
pub settle-kept {ℓ} :
    {B : Type ℓ} (view : Reginfo → B) (equal let_pass : Bool) (a b : Reginfo)
    → view b ≡ view a
    → view (settle equal let_pass a b).1 ≡ view a
settle-kept view true let_pass a b h = refl
settle-kept view false true a b h = h
settle-kept view false false a b h = refl

-- Whether register j is one of `count` from i on.
abbrev pub inside : ℕ → ℕ → ℕ → Bool
inside count i j = not (ltb j i) && ltb j (i + count)

inside-next :
    (count i j : ℕ) (sel : ℕ → Bool) (t f : ℕ → ℕ)
    → (if inside count (suc i) j && sel j then t j else if j == i && sel i then t i else f j)
      ≡ (if inside (suc count) i j && sel j then t j else f j)
inside-next count i j sel t f = elim (Bool-cases (j == i)) [
  | inl e ↦ let k : j ≡ i = (==_iff j i).0 e in ground (arith, ap sel k, ap t k)
  | inr e ↦ ground arith
]

module _ (view : Reginfo → ℕ → ℕ) (t : ℕ → ℕ) (sel : ℕ → Bool) (check : ℕ → Reginfo → Checked) where
  -- A part that passes makes its register, if selected, equal, and no other.
  unfoldable pub Settles : Type 0
  Settles =
      (i : ℕ) (a : Reginfo)
      → (check i a).0 ≡ true
      → (j : ℕ) → view (check i a).1 j ≡ (if j == i && sel i then t i else view a j)

  -- A part that fails leaves a selected register that differs.
  unfoldable pub Blames : Type 0
  Blames =
      (i : ℕ) (a : Reginfo)
      → (check i a).0 ≡ false
      → (sel i ≡ true) × (t i == view (check i a).1 i ≡ false)

  -- A selected register in the range differs.
  unfoldable pub Differs : ℕ → ℕ → Reginfo → Type 0
  Differs count i a =
      (j : ℕ) × (i ≤ j) × (j < i + count) × (sel j ≡ true) × (t j == view a j ≡ false)

  pub check_from-passed :
      (count i : ℕ) (a : Reginfo)
      → Settles
      → (check_from check count i a).0 ≡ true
      → (j : ℕ)
      → view (check_from check count i a).1 j
        ≡ (if inside count i j && sel j then t j else view a j)
  unfolding check_from Settles
  check_from-passed zero i a s h j = ground arith
  check_from-passed (suc count) i a s h j =
      let next : Reginfo → Checked = λ b. check_from check count (suc i) b in
      let (ok, eq) = and_then-passed (check i a) next h in
      ap (λ x. view x.1 j) eq
      ∙ check_from-passed count (suc i) (check i a).1 s (ap (λ x. x.0) (sym eq) ∙ h) j
      ∙ ap (λ x. if inside count (suc i) j && sel j then t j else x) (s i a ok j)
      ∙ inside-next count i j sel t (view a)

  pub check_from-failed :
      (count i : ℕ) (a : Reginfo)
      → Blames
      → (check_from check count i a).0 ≡ false
      → Differs count i (check_from check count i a).1
  unfolding check_from Blames Differs
  check_from-failed zero i a s h = cc
  check_from-failed (suc count) i a s h =
      let next : Reginfo → Checked = λ b. check_from check count (suc i) b in
      elim (and_then-failed (check i a) next h) [
        | inl (bad, eq) ↦
            let (x, y) = s i a bad in
            (i, omega arith, omega arith, x, ap (λ z. t i == view z.1 i) eq ∙ y)
        | inr (ok, bad, eq) ↦
            let (j, p, q, x, y) = check_from-failed count (suc i) (check i a).1 s bad in
            (j, omega arith, omega arith, x, ap (λ z. t j == view z.1 j) eq ∙ y)
      ]

pub and_then-kept {ℓ} :
    {B : Type ℓ} (view : Reginfo → B) (x : Checked) (next : Reginfo → Checked)
    → view (next x.1).1 ≡ view x.1
    → view (and_then x next).1 ≡ view x.1
and_then-kept view (true, a) next h = h
and_then-kept view (false, a) next h = refl

-- A view that no part changes is kept.
pub check_from-kept {ℓ} :
    {B : Type ℓ} (view : Reginfo → B) (check : ℕ → Reginfo → Checked)
    → ((i : ℕ) (a : Reginfo) → view (check i a).1 ≡ view a)
    → (count i : ℕ) (a : Reginfo) → view (check_from check count i a).1 ≡ view a
unfolding check_from
check_from-kept view check s zero i a = refl
check_from-kept view check s (suc count) i a =
    and_then-kept view (check i a) (λ b. check_from check count (suc i) b)
      (check_from-kept view check s count (suc i) (check i a).1)
    ∙ s i a

-- What holds of a part that fails, and of what follows it when that fails, holds of the two.
pub and_then-blames :
    (P : Reginfo → Type 0) (x : Checked) (next : Reginfo → Checked)
    → (and_then x next).0 ≡ false
    → (x.0 ≡ false → P x.1)
    → ((next x.1).0 ≡ false → P (next x.1).1)
    → P (and_then x next).1
and_then-blames P (true, a) next h f g = g h
and_then-blames P (false, a) next h f g = f refl

pub and_then-unchanged :
    (x : Checked) (next : Reginfo → Checked) (a : Reginfo)
    → x ≡ (true, a)
    → and_then x next ≡ next a
and_then-unchanged x next a h = ap (λ y. and_then y next) h

pub check_from-unchanged :
    (check : ℕ → Reginfo → Checked) (count i : ℕ) (a : Reginfo)
    → ((j : ℕ) → i ≤ j → j < i + count → check j a ≡ (true, a))
    → check_from check count i a ≡ (true, a)
unfolding check_from
check_from-unchanged check zero i a h = refl
check_from-unchanged check (suc count) i a h =
    and_then-unchanged (check i a) (λ b. check_from check count (suc i) b) a
      (h i (omega arith) (omega arith))
    ∙ check_from-unchanged check count (suc i) a (λ j ge lt. h j (omega arith) (omega arith))
