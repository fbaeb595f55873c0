-- ===== src/I386/Dump.antt =====
-- risu_reginfo_i386.c: get_nvecregs, get_nvecquads, get_vecletter, and reginfo_dump_mismatch as the
-- list of what it prints.
use risu.Prelude.{ℕ, zero, suc, ◌*◌, ◌||◌, List, [], ◌∷◌, ◌++◌, if◌then◌else◌, ◌==◌}
use risu.Prelude.Bytes.{same_bytes, bytes_at}
use risu.Prelude.Outcome.{Outcome, done, aborts, ◌>>=◌}
use risu.Prelude.Rows.{row_unless, each_from}
use risu.I386.Machine.{X86, is_named}
use risu.I386.{Reginfo, has_feature, xfeat_avx, xfeat_avx512_zmm_hi256, xfeat_avx512_hi16_zmm}

unfoldable pub get_nvecregs : X86 → ℕ → ℕ
get_nvecregs p features =
    if p.x86_64 then (if has_feature features xfeat_avx512_hi16_zmm then 32 else 16) else 8

unfoldable pub get_nvecquads : ℕ → ℕ
get_nvecquads features =
    if has_feature features xfeat_avx512_zmm_hi256
    then 8
    else if has_feature features xfeat_avx
    then 4
    else 2

unfoldable pub get_vecletter : ℕ → ℕ
get_vecletter features =
    if has_feature features xfeat_avx512_zmm_hi256 || has_feature features xfeat_avx512_hi16_zmm
    then b'z'
    else if has_feature features xfeat_avx
    then b'y'
    else b'x'

-- The numbers of 64 bits of a vector register, the last one first, each by its bytes.
unfoldable pub quads_down : ℕ → (ℕ → ℕ) → List (List ℕ)
quads_down zero x = []
quads_down (suc j) x = bytes_at x 8 (8 * j) ∷ quads_down j x

-- The lines behind the first one, with the values that they print.
pub data Line : Type 0 where
  greg_line : ℕ → ℕ → ℕ → Line
  mxcsr_line xfeat_line : ℕ → ℕ → Line
  vreg_line : ℕ → ℕ → List (List ℕ) → List (List ℕ) → Line
  kreg_line : ℕ → List ℕ → List ℕ → Line

-- The loop over the general registers, with the assertion that each that differs has a name.
unfoldable pub greg_lines : X86 → Reginfo → Reginfo → ℕ → ℕ → Outcome (List Line)
greg_lines p m a zero i = done []
greg_lines p m a (suc count) i =
    let rest = greg_lines p m a count (suc i) in
    if m.gregs i == a.gregs i
    then rest
    else if is_named p i
    then rest >>= (λ l. done (greg_line i (m.gregs i) (a.gregs i) ∷ l))
    else aborts

unfoldable pub vreg_row : Reginfo → Reginfo → ℕ → List Line
vreg_row m a i =
    let w = get_nvecquads m.xfeatures in
    row_unless
      (vreg_line (get_vecletter m.xfeatures) i (quads_down w (m.vregs i))
        (quads_down w (a.vregs i)))
      (same_bytes (m.vregs i) (a.vregs i) (w * 8) 0)

unfoldable pub kreg_row : Reginfo → Reginfo → ℕ → List Line
kreg_row m a i =
    row_unless (kreg_line i (bytes_at (m.kregs i) 8 0) (bytes_at (a.kregs i) 8 0))
      (same_bytes (m.kregs i) (a.kregs i) 8 0)

-- What is printed behind the general registers.
unfoldable pub other_lines : X86 → Reginfo → Reginfo → List Line
other_lines p m a =
    row_unless (mxcsr_line m.mxcsr a.mxcsr) (m.mxcsr == a.mxcsr)
    ++ (row_unless (xfeat_line m.xfeatures a.xfeatures) (m.xfeatures == a.xfeatures)
        ++ (each_from (vreg_row m a) (get_nvecregs p m.xfeatures) 0
            ++ each_from (kreg_row m a) 8 0))

unfoldable pub reginfo_dump_mismatch : X86 → Reginfo → Reginfo → Outcome (List Line)
reginfo_dump_mismatch p m a = greg_lines p m a p.ngreg 0 >>= (λ l. done (l ++ other_lines p m a))
