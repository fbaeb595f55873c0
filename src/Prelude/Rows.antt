-- ===== src/Prelude/Rows.antt =====
-- Reports of differences, as lists of rows, whatever a row is.
use Prim.Native.Nat.{ℕ, zero, suc, ◌+◌, ◌≤◌, ◌<◌}
use mathlib.Core.Path.{◌≡◌, refl, sym, ap, ◌∙◌}
use mathlib.Core.Logic.{◌↔◌, inl, inr}
use mathlib.Core.Bool.{Bool, true, false, ◌&&◌}
use mathlib.Core.List.{List, [], ◌∷◌, ◌++◌}
use native.Mathlib.Omega.{arith}
use risu.Prelude.Tests.{◌==◌, if◌then◌else◌, Bool-cases, ==_iff}

pub &&_iff : (b c : Bool) → ((b && c) ≡ true) ↔ ((b ≡ true) × (c ≡ true))
&&_iff true c = (λ h. (refl, h), λ h. h.1)
&&_iff false c = (λ h. cc, λ h. cc)

pub iff_eq : {P : Type 0} {b c : Bool} → P ↔ (b ≡ true) → b ≡ c → P ↔ (c ≡ true)
iff_eq h e = (λ p. sym e ∙ h.0 p, λ q. h.1 (e ∙ q))

module _ {A : Type 0} where
  unfoldable pub row_unless : A → Bool → List A
  row_unless line equal = if equal then [] else line ∷ []

  -- The rows of `count` registers from `i` on.
  unfoldable pub each_from : (ℕ → List A) → ℕ → ℕ → List A
  each_from rows zero i = []
  each_from rows (suc count) i = rows i ++ each_from rows count (suc i)

  pub append_empty : (xs ys : List A) → (xs ++ ys ≡ []) ↔ ((xs ≡ []) × (ys ≡ []))
  append_empty [] ys = (λ h. (refl, h), λ h. h.1)
  append_empty (x ∷ xs) ys = (λ h. cc, λ h. cc)

  pub row_unless_iff : (line : A) (equal : Bool) → (row_unless line equal ≡ []) ↔ (equal ≡ true)
  unfolding row_unless
  row_unless_iff line true = (λ h. refl, λ h. refl)
  row_unless_iff line false = (λ h. cc, λ h. cc)

  -- Rows one behind the other, where what the first say may be used for the others.
  pub append_iff :
      (xs ys : List A) (b c : Bool)
      → (xs ≡ []) ↔ (b ≡ true)
      → (b ≡ true → (ys ≡ []) ↔ (c ≡ true))
      → (xs ++ ys ≡ []) ↔ ((b && c) ≡ true)
  append_iff xs ys true c h k = (
    λ e. (k refl).0 ((append_empty xs ys).0 e).1,
    λ e. (append_empty xs ys).1 (h.1 refl, (k refl).1 e),
  )
  append_iff xs ys false c h k = (λ e. h.0 ((append_empty xs ys).0 e).0, λ e. cc)

  pub rows_as :
      {xs ys : List A} {b c : Bool}
      → xs ≡ ys
      → (ys ≡ []) ↔ (b ≡ true)
      → b ≡ c
      → (xs ≡ []) ↔ (c ≡ true)
  rows_as p h e = (λ q. sym e ∙ h.0 (sym p ∙ q), λ q. p ∙ h.1 (e ∙ q))

  pub each_from_empty :
      (rows : ℕ → List A) (count i : ℕ)
      → each_from rows count i ≡ []
      → (j : ℕ) → i ≤ j
      → j < i + count
      → rows j ≡ []
  unfolding each_from
  each_from_empty rows zero i h j ge lt = ground arith
  each_from_empty rows (suc count) i h j ge lt =
      let (here, rest) = (append_empty (rows i) (each_from rows count (suc i))).0 h in
      elim (Bool-cases (j == i)) [
        | inl e ↦ ap rows ((==_iff j i).0 e) ∙ here
        | inr e ↦
            let next : suc i ≤ j = ground arith in
            each_from_empty rows count (suc i) rest j next (omega arith)
      ]

  pub empty_each_from :
      (rows : ℕ → List A) (count i : ℕ)
      → ((j : ℕ) → i ≤ j → j < i + count → rows j ≡ [])
      → each_from rows count i ≡ []
  unfolding each_from
  empty_each_from rows zero i h = refl
  empty_each_from rows (suc count) i h = (append_empty (rows i) (each_from rows count (suc i))).1 (
    h i (omega arith) (omega arith),
    empty_each_from rows count (suc i) (λ j ge lt. h j (omega arith) (omega arith)),
  )

-- A test of `count` registers from `i` on.
unfoldable pub all_from : (ℕ → Bool) → ℕ → ℕ → Bool
all_from test zero i = true
all_from test (suc count) i = test i && all_from test count (suc i)

-- Rows that are left out exactly when a test says so.
pub each_iff :
    {A : Type 0} (rows : ℕ → List A) (test : ℕ → Bool) (count i : ℕ)
    → ((j : ℕ) → (rows j ≡ []) ↔ (test j ≡ true))
    → (each_from rows count i ≡ []) ↔ (all_from test count i ≡ true)
unfolding each_from all_from
each_iff rows test zero i h = (λ x. refl, λ x. refl)
each_iff rows test (suc count) i h =
    let rest = each_iff rows test count (suc i) h in
    let both = append_empty (rows i) (each_from rows count (suc i)) in
    (
      λ x. ground (arith, (h i).0 (both.0 x).0, rest.0 (both.0 x).1),
      λ x. both.1 ((h i).1 (ground arith), rest.1 (ground arith)),
    )
