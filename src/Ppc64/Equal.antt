-- ===== src/Ppc64/Equal.antt =====
-- risu_reginfo_ppc64.c: what the parts of reginfo_is_eq leave in the second structure.
use risu.Prelude.{
  ap, sym, ◌∙◌, inl, inr, Bool-cases, ==_iff, if_true, if_false, ℕ, ◌≡◌, refl, Bool, true, false,
  ◌&&◌, if◌then◌else◌, ◌==◌, arith,
}
use risu.Ppc64.{Reginfo, Masks, store}
use risu.Ppc64.Rules.{selected, forgiven}
use risu.Ppc64.Compare.{
  Checked, settle, set_greg, set_fpreg, check_greg, check_fpreg, greg_forgiven,
}
use risu.Ppc64.Chain.{settle-failed, settle-kept, Settles, Blames}

-- A part that makes element n equal, if it is selected, and no other.
pub settle-stores :
    (view : Reginfo → ℕ → ℕ) (equal let_pass sel : Bool) (n x : ℕ) (a b : Reginfo)
    → (equal ≡ true → sel ≡ true → x ≡ view a n)
    → (equal ≡ false → let_pass ≡ true → sel ≡ true)
    → ((j : ℕ) → view b j ≡ (if j == n then x else view a j))
    → (settle equal let_pass a b).0 ≡ true
    → (j : ℕ) → view (settle equal let_pass a b).1 j ≡ (if j == n && sel then x else view a j)
settle-stores view true let_pass sel n x a b e f s h j = elim (Bool-cases (j == n && sel)) [
  | inl q ↦
      let same : j ≡ n = (==_iff j n).0 (ground arith) in
      ap (view a) same ∙ sym (e refl (ground arith)) ∙ sym (if_true _ _ _ q)
  | inr q ↦ sym (if_false _ _ _ q)
]
settle-stores view false true sel n x a b e f s h j = s j ∙ ground (arith, f refl refl)
settle-stores view false false sel n x a b e f s h j = cc

-- What a part has that fails.
settle-blames :
    (view : Reginfo → ℕ → ℕ) (equal let_pass : Bool) (n x : ℕ) (a b : Reginfo)
    → (equal ≡ false → x == view a n ≡ false)
    → (settle equal let_pass a b).0 ≡ false
    → x == view (settle equal let_pass a b).1 n ≡ false
settle-blames view true let_pass n x a b e h = cc
settle-blames view false true n x a b e h = cc
settle-blames view false false n x a b e h = e refl

pub check_greg-Settles :
    (mask : ℕ) (m : Reginfo) → Settles (λ a. a.gregs) m.gregs (selected mask) (check_greg mask m)
unfolding Settles check_greg store
check_greg-Settles mask m i a h j =
    settle-stores (λ x. x.gregs) _ _ (selected mask i) i (m.gregs i) a (set_greg i m a)
      (λ e s. (==_iff (m.gregs i) (a.gregs i)).0 (ground arith)) (λ e l. ground arith) (λ j. refl) h
      j

pub check_greg-Blames :
    (mask : ℕ) (m : Reginfo) → Blames (λ a. a.gregs) m.gregs (selected mask) (check_greg mask m)
unfolding Blames check_greg
check_greg-Blames mask m i a h =
    let (e, q) = settle-failed _ (greg_forgiven m a i) a (set_greg i m a) h in
    (ground arith, ap (λ x. m.gregs i == x.gregs i) q ∙ ground arith)

pub check_fpreg-Settles :
    (k : Masks) (m : Reginfo) → Settles (λ a. a.fpregs) m.fpregs (λ i. true) (check_fpreg k m)
unfolding Settles check_fpreg store
check_fpreg-Settles k m i a h j =
    settle-stores (λ x. x.fpregs) _ _ true i (m.fpregs i) a (set_fpreg i m a)
      (λ e s. (==_iff (m.fpregs i) (a.fpregs i)).0 e) (λ e l. refl) (λ j. refl) h j

pub check_fpreg-Blames :
    (k : Masks) (m : Reginfo) → Blames (λ a. a.fpregs) m.fpregs (λ i. true) (check_fpreg k m)
unfolding Blames check_fpreg
check_fpreg-Blames k m i a h =
    let (e, q) = settle-failed _ (forgiven k m a i) a (set_fpreg i m a) h in
    (refl, ap (λ x. m.fpregs i == x.fpregs i) q ∙ e)

-- A part that is about one special register.
module _ (n : ℕ) (let_pass : Bool) (m a : Reginfo) where
  abbrev special : Checked
  special = settle (m.gregs n == a.gregs n) let_pass a (set_greg n m a)

  pub special-here : special.0 ≡ true → special.1.gregs n ≡ m.gregs n
  unfolding store
  special-here h =
      settle-stores (λ x. x.gregs) _ _ true n (m.gregs n) a (set_greg n m a)
        (λ e s. (==_iff (m.gregs n) (a.gregs n)).0 e) (λ e l. refl) (λ j. refl) h n
      ∙ ground arith

  pub special-other : (j : ℕ) → (j == n) ≡ false → special.1.gregs j ≡ a.gregs j
  unfolding store
  special-other j h =
      settle-kept (λ x. x.gregs j) (m.gregs n == a.gregs n) let_pass a (set_greg n m a)
        (if_false _ _ _ h)

  pub special-blames : special.0 ≡ false → (m.gregs n == special.1.gregs n) ≡ false
  special-blames h =
      let (e, q) = settle-failed _ let_pass a (set_greg n m a) h in
      ap (λ x. m.gregs n == x.gregs n) q ∙ e
