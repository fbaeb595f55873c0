-- ===== src/Ppc64/Update.antt =====
-- risu_reginfo_ppc64.c: what `reginfo_update` puts into a context is what is taken from it next.
use risu.Prelude.{
  ap, ◌∙◌, inl, inr, Bool-cases, ==_iff, if_true, if_false, ℕ, zero, suc, ◌+◌, ◌<◌, ◌≡◌, refl, Bool,
  true, false, ◌&&◌, not, if◌then◌else◌, ◌==◌, ltb, arith,
}
use risu.Ppc64.{
  Context, Reginfo, Masks, store, compared, put_gregs, gregs_of, reginfo_init, reginfo_update,
}

store-if :
    (b : Bool) (i x : ℕ) (f : ℕ → ℕ) (j : ℕ)
    → (if b then store i x f else f) j ≡ (if b && (j == i) then x else f j)
unfolding store
store-if true i x f j = refl
store-if false i x f j = refl

-- Whether the loop from `i` on stores element `j`.
abbrev reached : Masks → ℕ → ℕ → ℕ → Bool
reached m count i j = not (ltb j i) && (ltb j (i + count) && compared m j)

next-reached :
    (m : Masks) (gregs : ℕ → ℕ) (count i : ℕ) (f : ℕ → ℕ) (j : ℕ)
    → (if reached m count (suc i) j
        then gregs j
        else if compared m i && (j == i)
        then gregs i
        else f j)
      ≡ (if reached m (suc count) i j then gregs j else f j)
next-reached m gregs count i f j = elim (Bool-cases (j == i)) [
  | inl e ↦ let k : j ≡ i = (==_iff j i).0 e in ground (arith, ap gregs k, ap (compared m) k)
  | inr e ↦ ground arith
]

put_gregs-at :
    (m : Masks) (gregs : ℕ → ℕ) (count i : ℕ) (f : ℕ → ℕ) (j : ℕ)
    → put_gregs m gregs count i f j ≡ (if reached m count i j then gregs j else f j)
unfolding put_gregs
put_gregs-at m gregs zero i f j = ground arith
put_gregs-at m gregs (suc count) i f j =
    put_gregs-at m gregs count (suc i) (if compared m i then store i (gregs i) f else f) j
    ∙ ap (λ x. if reached m count (suc i) j then gregs j else x)
        (store-if (compared m i) i (gregs i) f j)
    ∙ next-reached m gregs count i f j

module _ (m : Masks) (ri : Reginfo) (uc : Context) where
  -- On PowerPC under Mac OS X, what is taken from a context after an update is what the update put
  -- there: each general register that the mask compares, and the others as they were; CCR, XER and
  -- MQ; the floating-point registers and FPSCR.
  pub reginfo_init-reginfo_update :
      (ibegin image_size i : ℕ)
      → i < 32
      → let after = reginfo_init ibegin image_size (reginfo_update m ri uc) in
        (after.gregs i ≡ (if compared m i then ri.gregs i else uc.r0 i))
        × (after.gregs 37 ≡ ri.gregs 37)
        × (after.gregs 36 ≡ ri.gregs 36)
        × (after.gregs 38 ≡ ri.gregs 38)
        × (after.fpregs i ≡ ri.fpregs i)
        × (after.fpscr ≡ ri.fpscr)
  unfolding reginfo_init gregs_of reginfo_update
  reginfo_init-reginfo_update ibegin image_size i lt =
      let small : ltb i 32 ≡ true = ground arith in
      (
        if_true _ _ _ small ∙ put_gregs-at m ri.gregs 32 0 uc.r0 i ∙ ground arith,
        refl,
        refl,
        refl,
        if_true _ _ _ small ∙ if_true _ _ _ small,
        refl,
      )

-- Putting back the general registers that are there changes none of them.
pub put_gregs_same :
    (m : Masks) (gregs f : ℕ → ℕ)
    → ((j : ℕ) → j < 32 → gregs j ≡ f j)
    → (j : ℕ) → put_gregs m gregs 32 0 f j ≡ f j
put_gregs_same m gregs f h j =
    put_gregs-at m gregs 32 0 f j ∙ elim (Bool-cases (reached m 32 0 j)) [
      | inl e ↦ if_true _ _ _ e ∙ h j (ground arith)
      | inr e ↦ if_false _ _ _ e
    ]
