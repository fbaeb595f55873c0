-- ===== src/Ppc64/Normal.antt =====
-- risu_reginfo_ppc64.c: the shifting loops of `normalize` and `exponent`.
use risu.Prelude.{
  ℕ, zero, suc, ◌+◌, ◌-◌, ◌*◌, ◌%◌, ◌^◌, ◌≤◌, ◌<◌, ◌≡◌, refl, ap, sym, ◌∙◌, true, false, not, some,
  ltb, arith, inl, inr, Bool-cases, if_true, if_false,
}
use mathlib.Core.Option
use risu.Ppc64.Floats.{denormalized, signz, join, shift_up, normalize, shifts}

-- Doubled so often.
grown : ℕ → ℕ → ℕ
grown zero x = x
grown (suc k) x = grown k (x * 2)

-- The loop ends with the highest bit in its place, and has counted down at most once a round.
Shifted : ℕ → ℕ → ℕ → Type 0
Shifted fuel x e =
    (y : ℕ) × (d : ℕ) × (shift_up fuel x e ≡ some (y, d))
    × (2 ^ 52 ≤ y)
    × (y < 2 ^ 53)
    × (e ≤ d + fuel)
    × (d ≤ e)

not_small : (x : ℕ) → 2 ^ 52 ≤ x → ltb x (2 ^ 52) ≡ false
not_small x h = ground arith

shift_up_ends : (fuel x e : ℕ) → 2 ^ 52 ≤ grown fuel x → x < 2 ^ 53 → fuel ≤ e → Shifted fuel x e
unfolding shift_up Shifted grown
shift_up_ends zero x e big small le =
    (x, e, if_false _ _ _ (not_small x big), big, small, omega arith, omega arith)
shift_up_ends (suc fuel) x e big small le = elim (Bool-cases (ltb x (2 ^ 52))) [
  | inl h ↦
      let lt : x < 2 ^ 52 = ground arith in
      let (y, d, q, r, s, t, u) =
        shift_up_ends fuel (x * 2) (e - 1) big (omega arith) (omega arith) in
      (
        y,
        d,
        if_true _ _ _ h ∙ ap (λ z. shift_up fuel z (e - 1)) (below x lt) ∙ q,
        r,
        s,
        omega arith,
        omega arith,
      )
  | inr h ↦
      let ge : 2 ^ 52 ≤ x = ground arith in
      (x, e, if_false _ _ _ h, ge, small, omega arith, omega arith)
]
  where
    below : (z : ℕ) → z < 2 ^ 52 → z * 2 % 2 ^ 64 ≡ z * 2
    below z lt = omega arith

grown_52 : (x : ℕ) → 0 < x → 2 ^ 52 ≤ grown 52 x
unfolding grown
grown_52 x h = omega arith

joined :
    (n y d : ℕ)
    → n < 2 ^ 64
    → 2 ^ 52 ≤ y
    → y < 2 ^ 53
    → 0 < d
    → d < 2047
    → (denormalized (join n (y, d)) ≡ false)
      × (signz (join n (y, d)) ≡ signz n)
      × (join n (y, d) < 2 ^ 64)
unfolding denormalized signz join
joined n y d lt r s t u = (ground arith, omega arith, omega arith)

denormal-positive : (n : ℕ) → n < 2 ^ 64 → denormalized n ≡ true → 0 < n % 2 ^ 52
unfolding denormalized
denormal-positive n lt h = ground arith

-- The loop of normalize ends within 52 rounds on any number of 64 bits, and the result is a number
-- of 64 bits that is not denormalized and has the same sign.
pub normalize_ends :
    (n : ℕ)
    → n < 2 ^ 64
    → (r : ℕ) × (normalize 52 n ≡ some r)
      × (denormalized r ≡ false)
      × (signz r ≡ signz n)
      × (r < 2 ^ 64)
unfolding normalize Shifted
normalize_ends n lt = elim (Bool-cases (denormalized n)) [
  | inl h ↦
      let (y, d, q, r, s, t, u) =
        shift_up_ends 52 (n % 2 ^ 52) 1537 (grown_52 (n % 2 ^ 52) (denormal-positive n lt h))
          (omega arith) (omega arith) in
      let (x, z, w) = joined n y d lt r s (omega arith) (omega arith) in
      (join n (y, d), if_false _ _ _ (ap not h) ∙ ap (Option.map (join n)) q, x, z, w)
  | inr h ↦ (n, if_true _ _ _ (ap not h), h, refl, lt)
]

no_shift : (fuel x : ℕ) → 2 ^ 52 ≤ x → shifts fuel x ≡ 0
unfolding shifts
no_shift zero x h = refl
no_shift (suc fuel) x h = if_false _ _ _ (not_small x h)

more_shifts :
    (fuel k x : ℕ) → 2 ^ 52 ≤ grown fuel x → x < 2 ^ 53 → shifts (k + fuel) x ≡ shifts fuel x
unfolding shifts grown
more_shifts zero k x big small = no_shift (k + 0) x big
more_shifts (suc fuel) k x big small = elim (Bool-cases (ltb x (2 ^ 52))) [
  | inl h ↦
      let lt : x < 2 ^ 52 = ground arith in
      let same =
        ap (λ z. shifts (k + fuel) z) (below x lt)
        ∙ more_shifts fuel k (x * 2) big (omega arith)
        ∙ sym (ap (λ z. shifts fuel z) (below x lt)) in
      ap (λ n. shifts n x) (moved k fuel) ∙ if_true _ _ _ h ∙ ap suc same ∙ sym (if_true _ _ _ h)
  | inr h ↦
      let ge : 2 ^ 52 ≤ x = ground arith in
      no_shift (k + suc fuel) x ge ∙ sym (no_shift (suc fuel) x ge)
]
  where
    below : (z : ℕ) → z < 2 ^ 52 → z * 2 % 2 ^ 64 ≡ z * 2
    below z lt = omega arith

    moved : (k fuel : ℕ) → k + suc fuel ≡ suc (k + fuel)
    moved k fuel = omega arith

-- The loop of exponent ends within 52 rounds: more rounds change nothing.
pub shifts_enough : (k x : ℕ) → 0 < x → x < 2 ^ 52 → shifts (k + 52) x ≡ shifts 52 x
shifts_enough k x pos small = more_shifts 52 k x (grown_52 x pos) (omega arith)
