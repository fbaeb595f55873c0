-- ===== src/Ppc64/Object.antt =====
-- risu_reginfo_ppc64.h: `struct reginfo` as an object, whose fields have the widths of their types
-- and whose bytes lie one behind the other, the highest of each field first.
use std.HLevel.{Σ_prop_path}
use risu.Prelude.{
  ℕ, zero, suc, ◌+◌, ◌-◌, ◌*◌, ◌/◌, ◌%◌, ◌^◌, ◌<◌, ◌≡◌, refl, ap, sym, ◌∙◌, List, [], ◌∷◌,
  if◌then◌else◌, ◌==◌, ltb, length, arith, Bool-cases, inl, inr, if_true, if_false,
}
use risu.Ppc64.{Reginfo}

-- The values that the types of the fields have, and arrays that end.
abbrev pub Fits : Reginfo → Type 0
Fits r =
    (r.second_prev_insn % 2 ^ 32 ≡ r.second_prev_insn)
    × (r.prev_insn % 2 ^ 32 ≡ r.prev_insn)
    × (r.faulting_insn % 2 ^ 32 ≡ r.faulting_insn)
    × (r.next_insn % 2 ^ 32 ≡ r.next_insn)
    × (r.nip % 2 ^ 32 ≡ r.nip)
    × ((i : ℕ) → (if ltb i 41 then r.gregs i % 2 ^ 32 else 0) ≡ r.gregs i)
    × ((i : ℕ) → (if ltb i 32 then r.fpregs i % 2 ^ 64 else 0) ≡ r.fpregs i)
    × (r.fpscr % 2 ^ 32 ≡ r.fpscr)

-- `struct reginfo` with fields of their types.
abbrev pub Object : Type 0
Object = (r : Reginfo) × Fits r

Fits-prop : (r : Reginfo) → IsProp (Fits r)
Fits-prop r = hlevel

pub same_object : (x y : Object) → x.0 ≡ y.0 → x ≡ y
same_object x y e = Σ_prop_path Fits-prop e

-- What is left of values that are stored in the fields.
abbrev pub fit : Reginfo → Reginfo
fit r = record {
  second_prev_insn = r.second_prev_insn % 2 ^ 32;
  prev_insn = r.prev_insn % 2 ^ 32;
  faulting_insn = r.faulting_insn % 2 ^ 32;
  next_insn = r.next_insn % 2 ^ 32;
  nip = r.nip % 2 ^ 32;
  gregs = λ i. if ltb i 41 then r.gregs i % 2 ^ 32 else 0;
  fpregs = λ i. if ltb i 32 then r.fpregs i % 2 ^ 64 else 0;
  fpscr = r.fpscr % 2 ^ 32;
}

pub fit-Fits : (r : Reginfo) → Fits (fit r)
fit-Fits r = (
  omega arith,
  omega arith,
  omega arith,
  omega arith,
  omega arith,
  λ i. ground arith,
  λ i. ground arith,
  omega arith,
)

unfoldable pub stored : Reginfo → Object
stored r = (fit r, fit-Fits r)

fit_same : (r : Reginfo) → Fits r → fit r ≡ r
fit_same r (a, b, c, d, e, f, g, h) = λ at. record {
  second_prev_insn = a at;
  prev_insn = b at;
  faulting_insn = c at;
  next_insn = d at;
  nip = e at;
  gregs = λ i. f i at;
  fpregs = λ i. g i at;
  fpscr = h at;
}

pub stored_same : (x : Object) → stored x.0 ≡ x
unfolding stored
stored_same x = same_object _ _ (fit_same x.0 x.1)

-- The `i`th byte of a word, from the highest on.
unfoldable pub byte_in : ℕ → ℕ → ℕ
byte_in w i =
    if i == 0
    then w / 2 ^ 24 % 256
    else if i == 1
    then w / 2 ^ 16 % 256
    else if i == 2
    then w / 2 ^ 8 % 256
    else w % 256

-- The words of the object, and its bytes.
unfoldable pub object_word : Reginfo → ℕ → ℕ
object_word r k =
    if k == 0
    then r.second_prev_insn
    else if k == 1
    then r.prev_insn
    else if k == 2
    then r.faulting_insn
    else if k == 3
    then r.next_insn
    else if k == 4
    then r.nip
    else if ltb k 46
    then r.gregs (k - 5)
    else if ltb k 110
    then (if (k - 46) % 2 == 0
        then r.fpregs ((k - 46) / 2) / 2 ^ 32
        else r.fpregs ((k - 46) / 2) % 2 ^ 32)
    else r.fpscr

abbrev pub sizeof_reginfo : ℕ
sizeof_reginfo = 444

-- `count` values from the `i`th on.
unfoldable pub listed : (ℕ → ℕ) → ℕ → ℕ → List ℕ
listed f zero i = []
listed f (suc count) i = f i ∷ listed f count (suc i)

unfoldable pub object_byte : Reginfo → ℕ → ℕ
unfolding byte_in object_word
object_byte r i = byte_in (object_word r (i / 4)) (i % 4)

unfoldable pub reginfo_bytes : Object → List ℕ
unfolding listed object_byte
reginfo_bytes x = listed (object_byte x.0) sizeof_reginfo 0

-- A byte of some bytes, and a word of them.
unfoldable pub byte_at : List ℕ → ℕ → ℕ
byte_at [] i = 0
byte_at (x ∷ xs) zero = x
byte_at (x ∷ xs) (suc i) = byte_at xs i

unfoldable pub loaded_word : List ℕ → ℕ → ℕ
unfolding byte_at
loaded_word bs k =
    ((byte_at bs (4 * k) * 2 ^ 8 + byte_at bs (4 * k + 1)) * 2 ^ 8 + byte_at bs (4 * k + 2)) * 2 ^ 8
    + byte_at bs (4 * k + 3)

unfoldable pub loaded : List ℕ → Reginfo
unfolding loaded_word
loaded bs = record {
  second_prev_insn = loaded_word bs 0;
  prev_insn = loaded_word bs 1;
  faulting_insn = loaded_word bs 2;
  next_insn = loaded_word bs 3;
  nip = loaded_word bs 4;
  gregs = λ i. loaded_word bs (5 + i);
  fpregs = λ i. loaded_word bs (46 + 2 * i) * 2 ^ 32 + loaded_word bs (47 + 2 * i);
  fpscr = loaded_word bs 110;
}

unfoldable pub reginfo_of_bytes : List ℕ → Object
unfolding stored loaded
reginfo_of_bytes bs = stored (loaded bs)

pub length-listed : (f : ℕ → ℕ) (count i : ℕ) → length (listed f count i) ≡ count
unfolding listed
length-listed f zero i = refl
length-listed f (suc count) i = ap suc (length-listed f count (suc i))

pub length-reginfo_bytes : (x : Object) → length (reginfo_bytes x) ≡ sizeof_reginfo
unfolding reginfo_bytes
length-reginfo_bytes x = length-listed (object_byte x.0) sizeof_reginfo 0

byte_at-listed : (f : ℕ → ℕ) (count i k : ℕ) → k < count → byte_at (listed f count i) k ≡ f (i + k)
unfolding byte_at listed
byte_at-listed f zero i k lt = absurd (omega arith)
byte_at-listed f (suc count) i zero lt = ap f {x = i} {y = i + 0} (omega arith)
byte_at-listed f (suc count) i (suc k) lt =
    byte_at-listed f count (suc i) k (omega arith) ∙ ap f {x = suc i + k} (omega arith)

byte_at-reginfo_bytes :
    (x : Object) (k j : ℕ)
    → k < 111
    → j < 4
    → byte_at (reginfo_bytes x) (4 * k + j) ≡ byte_in (object_word x.0 k) j
unfolding reginfo_bytes object_byte
byte_at-reginfo_bytes x k j small lt =
    byte_at-listed (object_byte x.0) sizeof_reginfo 0 (4 * k + j) (omega arith)
    ∙ (λ at. byte_in (object_word x.0 (word at)) (place at))
  where
    word : (0 + (4 * k + j)) / 4 ≡ k
    word = omega arith

    place : (0 + (4 * k + j)) % 4 ≡ j
    place = omega arith

joined :
    (w : ℕ)
    → w < 2 ^ 32
    → ((w / 2 ^ 24 % 256 * 2 ^ 8 + w / 2 ^ 16 % 256) * 2 ^ 8 + w / 2 ^ 8 % 256) * 2 ^ 8 + w % 256
      ≡ w
joined w h = omega arith

loaded_word-reginfo_bytes :
    (x : Object) (k : ℕ)
    → k < 111
    → object_word x.0 k < 2 ^ 32
    → loaded_word (reginfo_bytes x) k ≡ object_word x.0 k
unfolding loaded_word byte_in
loaded_word-reginfo_bytes x k small lt =
    (λ at. ((first at * 2 ^ 8 + second at) * 2 ^ 8 + third at) * 2 ^ 8 + fourth at)
    ∙ joined (object_word x.0 k) lt
  where
    first : byte_at (reginfo_bytes x) (4 * k) ≡ object_word x.0 k / 2 ^ 24 % 256
    first =
        ap (byte_at (reginfo_bytes x)) {x = 4 * k} {y = 4 * k + 0} (omega arith)
        ∙ byte_at-reginfo_bytes x k 0 small (omega arith)

    second : byte_at (reginfo_bytes x) (4 * k + 1) ≡ object_word x.0 k / 2 ^ 16 % 256
    second = byte_at-reginfo_bytes x k 1 small (omega arith)

    third : byte_at (reginfo_bytes x) (4 * k + 2) ≡ object_word x.0 k / 2 ^ 8 % 256
    third = byte_at-reginfo_bytes x k 2 small (omega arith)

    fourth : byte_at (reginfo_bytes x) (4 * k + 3) ≡ object_word x.0 k % 256
    fourth = byte_at-reginfo_bytes x k 3 small (omega arith)

-- The words that a field of the structure is made of.
object_word-greg : (r : Reginfo) (i : ℕ) → i < 41 → object_word r (5 + i) ≡ r.gregs i
unfolding object_word
object_word-greg r i lt = let same : 5 + i - 5 ≡ i = omega arith in ground (arith, ap r.gregs same)

object_word-high : (r : Reginfo) (i : ℕ) → i < 32 → object_word r (46 + 2 * i) ≡ r.fpregs i / 2 ^ 32
unfolding object_word
object_word-high r i lt =
    let same : (46 + 2 * i - 46) / 2 ≡ i = omega arith in
    let even : (46 + 2 * i - 46) % 2 ≡ 0 = omega arith in ground (arith, ap r.fpregs same)

object_word-low : (r : Reginfo) (i : ℕ) → i < 32 → object_word r (47 + 2 * i) ≡ r.fpregs i % 2 ^ 32
unfolding object_word
object_word-low r i lt =
    let same : (47 + 2 * i - 46) / 2 ≡ i = omega arith in
    let odd : (47 + 2 * i - 46) % 2 ≡ 1 = omega arith in ground (arith, ap r.fpregs same)

module _ (x : Object) where
  word_at_place :
      (k w : ℕ) → k < 111 → object_word x.0 k ≡ w → w < 2 ^ 32 → loaded_word (reginfo_bytes x) k ≡ w
  word_at_place k w small e lt = loaded_word-reginfo_bytes x k small (omega arith) ∙ e

  loaded_field :
      (k w : ℕ)
      → k < 111
      → object_word x.0 k ≡ w
      → w % 2 ^ 32 ≡ w
      → loaded_word (reginfo_bytes x) k % 2 ^ 32 ≡ w
  loaded_field k w small e h = ap (λ y. y % 2 ^ 32) (word_at_place k w small e (omega arith)) ∙ h

  loaded_greg :
      (i : ℕ)
      → (if ltb i 41 then x.0.gregs i % 2 ^ 32 else 0) ≡ x.0.gregs i
      → (if ltb i 41 then loaded_word (reginfo_bytes x) (5 + i) % 2 ^ 32 else 0) ≡ x.0.gregs i
  loaded_greg i h = elim (Bool-cases (ltb i 41)) [
    | inl e ↦
        let fits = sym (if_true _ _ _ e) ∙ h in
        if_true _ _ _ e
        ∙ loaded_field (5 + i) (x.0.gregs i) (ground arith) (object_word-greg x.0 i (ground arith))
            fits
    | inr e ↦ if_false _ _ _ e ∙ sym (if_false _ _ _ e) ∙ h
  ]

  loaded_fpreg :
      (i : ℕ)
      → (if ltb i 32 then x.0.fpregs i % 2 ^ 64 else 0) ≡ x.0.fpregs i
      → (if ltb i 32
          then (loaded_word (reginfo_bytes x) (46 + 2 * i) * 2 ^ 32
              + loaded_word (reginfo_bytes x) (47 + 2 * i))
            % 2 ^ 64
          else 0)
        ≡ x.0.fpregs i
  loaded_fpreg i h = elim (Bool-cases (ltb i 32)) [
    | inl e ↦
        let fits : x.0.fpregs i % 2 ^ 64 ≡ x.0.fpregs i = sym (if_true _ _ _ e) ∙ h in
        let lt : i < 32 = ground arith in
        let high =
          word_at_place (46 + 2 * i) (x.0.fpregs i / 2 ^ 32) (omega arith)
            (object_word-high x.0 i lt) (omega arith) in
        let low =
          word_at_place (47 + 2 * i) (x.0.fpregs i % 2 ^ 32) (omega arith)
            (object_word-low x.0 i lt) (omega arith) in
        if_true _ _ _ e ∙ (λ at. (high at * 2 ^ 32 + low at) % 2 ^ 64) ∙ omega (arith, fits)
    | inr e ↦ if_false _ _ _ e ∙ sym (if_false _ _ _ e) ∙ h
  ]

  -- What is stored of a structure is loaded again.
  pub reginfo_of_bytes-reginfo_bytes : reginfo_of_bytes (reginfo_bytes x) ≡ x
  unfolding reginfo_of_bytes stored loaded object_word
  reginfo_of_bytes-reginfo_bytes =
      let (a, b, c, d, e, f, g, h) = x.1 in
      same_object (reginfo_of_bytes (reginfo_bytes x)) x (λ at. record {
        second_prev_insn = loaded_field 0 x.0.second_prev_insn (omega arith) refl a at;
        prev_insn = loaded_field 1 x.0.prev_insn (omega arith) refl b at;
        faulting_insn = loaded_field 2 x.0.faulting_insn (omega arith) refl c at;
        next_insn = loaded_field 3 x.0.next_insn (omega arith) refl d at;
        nip = loaded_field 4 x.0.nip (omega arith) refl e at;
        gregs = λ i. loaded_greg i (f i) at;
        fpregs = λ i. loaded_fpreg i (g i) at;
        fpscr = loaded_field 110 x.0.fpscr (omega arith) refl h at;
      })
