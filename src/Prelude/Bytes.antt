-- ===== src/Prelude/Bytes.antt =====
-- Objects in memory as functions from the offset of a byte to the byte.
use Prim.Native.Nat.{ℕ, zero, suc, ◌+◌, ◌-◌, ◌*◌, ◌≤◌, ◌<◌}
use mathlib.Core.Path.{◌≡◌, refl, sym, ap, ◌∙◌}
use mathlib.Core.Bool.{Bool, true, false, ◌&&◌}
use mathlib.Core.List.{List, [], ◌∷◌}
use native.Mathlib.Omega.{arith}
use risu.Prelude.Tests.{ltb, leb, ◌==◌, if◌then◌else◌, ==_iff}
use risu.Prelude.Rows.{all_from}

-- `memcmp` of `size` bytes at the same offset of two objects says that they are the same.
unfoldable pub same_bytes : (ℕ → ℕ) → (ℕ → ℕ) → ℕ → ℕ → Bool
same_bytes x y size at = all_from (λ j. x j == y j) size at

-- `memcpy` of `size` bytes of another object, from an offset of it on, to an offset.
unfoldable pub copy_bytes : ℕ → (ℕ → ℕ) → ℕ → ℕ → (ℕ → ℕ) → ℕ → ℕ
copy_bytes to source from size object j =
    if leb to j && ltb j (to + size) then source (from + (j - to)) else object j

-- The bytes of a value that lies at an offset.
unfoldable pub bytes_at : (ℕ → ℕ) → ℕ → ℕ → List ℕ
bytes_at x zero at = []
bytes_at x (suc size) at = x at ∷ bytes_at x size (suc at)

&&_assoc : (a b c : Bool) → (a && (b && c)) ≡ ((a && b) && c)
&&_assoc true b c = refl
&&_assoc false b c = refl

-- A test of two runs, one behind the other.
pub all_from-add :
    (test : ℕ → Bool) (n k i : ℕ)
    → all_from test (n + k) i ≡ (all_from test n i && all_from test k (i + n))
unfolding all_from
all_from-add test zero k i = ap2 test k (omega arith) (omega arith)
  where
    ap2 : (t : ℕ → Bool) (a : ℕ) {b c d : ℕ} → b ≡ a → c ≡ d → all_from t b c ≡ all_from t a d
    ap2 t a p q = λ l. all_from t (p l) (q l)
all_from-add test (suc n) k i =
    ap (λ m. all_from test m i) (moved n k)
    ∙ ap (λ b. test i && b)
        (all_from-add test n k (suc i)
          ∙ ap (λ m. all_from test n (suc i) && all_from test k m) (moved_index i n))
    ∙ &&_assoc (test i) (all_from test n (suc i)) (all_from test k (i + suc n))
  where
    moved : (n k : ℕ) → suc n + k ≡ suc (n + k)
    moved n k = omega arith

    moved_index : (i n : ℕ) → suc i + n ≡ i + suc n
    moved_index i n = omega arith

-- Tests of blocks of equal size that lie one behind the other make a test of the whole.
pub all_from_blocks :
    (test : ℕ → Bool) (base size n i : ℕ)
    → all_from (λ q. all_from test size (base + q * size)) n i
      ≡ all_from test (n * size) (base + i * size)
unfolding all_from
all_from_blocks test base size zero i = ap (λ m. all_from test m (base + i * size)) (nothing size)
  where
    nothing : (k : ℕ) → 0 ≡ 0 * k
    nothing k = grind arith
all_from_blocks test base size (suc n) i =
    ap (λ b. all_from test size (base + i * size) && b)
      (all_from_blocks test base size n (suc i)
        ∙ ap (all_from test (n * size)) (behind base i size))
    ∙ sym (all_from-add test size (n * size) (base + i * size))
    ∙ ap (λ m. all_from test m (base + i * size)) (more size n)
  where
    behind : (b i k : ℕ) → b + suc i * k ≡ b + i * k + k
    behind b i k = grind arith

    more : (k n : ℕ) → k + n * k ≡ suc n * k
    more k n = grind arith

-- A test that holds wherever it is made.
pub all_from-true :
    (test : ℕ → Bool) (n i : ℕ) → ((j : ℕ) → i ≤ j → test j ≡ true) → all_from test n i ≡ true
unfolding all_from
all_from-true test zero i h = refl
all_from-true test (suc n) i h =
    ground (arith, h i (omega arith), all_from-true test n (suc i) (λ j le. h j (omega arith)))

pub all_from_cong :
    (s t : ℕ → Bool) (n i : ℕ)
    → ((j : ℕ) → i ≤ j → j < i + n → s j ≡ t j)
    → all_from s n i ≡ all_from t n i
unfolding all_from
all_from_cong s t zero i h = refl
all_from_cong s t (suc n) i h =
    let here = h i (omega arith) (omega arith) in
    let rest = all_from_cong s t n (suc i) (λ j le lt. h j (omega arith) (omega arith)) in
    λ l. here l && rest l

pub same_bytes-add :
    (x y : ℕ → ℕ) (n k at : ℕ)
    → same_bytes x y (n + k) at ≡ (same_bytes x y n at && same_bytes x y k (at + n))
unfolding same_bytes
same_bytes-add x y n k at = all_from-add (λ j. x j == y j) n k at

-- Tests behind that hold may be left out.
pub all_from_front :
    (test : ℕ → Bool) (n k : ℕ)
    → ((j : ℕ) → n ≤ j → test j ≡ true)
    → all_from test n 0 ≡ all_from test (n + k) 0
all_from_front test n k h = sym (
    all_from-add test n k 0
    ∙ ap (λ b. all_from test n 0 && b) (all_from-true test k (0 + n) (λ j le. h j (omega arith)))
    ∙ drop_true _)
  where
    drop_true : (b : Bool) → (b && true) ≡ b
    drop_true true = refl
    drop_true false = refl

-- Bytes behind that are the same on both sides may be left out.
pub same_bytes_front :
    (x y : ℕ → ℕ) (n k : ℕ)
    → ((j : ℕ) → n ≤ j → x j ≡ y j)
    → same_bytes x y n 0 ≡ same_bytes x y (n + k) 0
unfolding same_bytes
same_bytes_front x y n k h = all_from_front _ n k (λ j le. (==_iff _ _).1 (h j le))

pub same_bytes_all : (x y : ℕ → ℕ) (n at : ℕ) → ((j : ℕ) → x j ≡ y j) → same_bytes x y n at ≡ true
unfolding same_bytes
same_bytes_all x y n at h = all_from-true _ n at (λ j le. (==_iff _ _).1 (h j))
