-- ===== src/Arm/Vfp.antt =====
-- risu_reginfo_arm.c: what becomes of the search for the floating-point registers.
use risu.Prelude.{
  ℕ, zero, suc, ◌^◌, ◌<◌, ◌≡◌, ◌≢◌, refl, ap, ◌∙◌, Bool, List, ◌∷◌, if_false, ==_ne, arith, take,
  drop,
}
use risu.Prelude.Outcome.{Outcome, hangs}
use risu.Arm.{VfpState, is_vfp, left_of, next_block, vfp_block, find_vfp}

-- A block that is neither the end nor the one with the registers is passed.
vfp_block-passes :
    (again : ℕ → Outcome VfpState) (exc : Bool) (at : ℕ) (front : List ℕ) (magic size : ℕ)
    (rest : List ℕ)
    → magic ≢ 0
    → magic ≢ 0x56465001
    → vfp_block again exc at front (magic ∷ size ∷ rest) ≡ again (next_block at size)
unfolding vfp_block
vfp_block-passes again exc at front magic size rest n v =
    if_false _ _ _ (==_ne magic 0 n)
    ∙ if_false (is_vfp magic (left_of size)) _ _ (rw (==_ne magic 0x56465001 v) refl)

-- A block whose size is below 4 is followed by itself.
next_block-same : (at size : ℕ) → at < 2 ^ 30 → size < 4 → next_block at size ≡ at
unfolding next_block
next_block-same at size small lt = omega arith

-- The search for the floating-point registers never ends once it has come to a block of another
-- kind whose size is given as less than 4: the size without its header wraps, and so does the
-- pointer, which is set back to the same block, so that no number of rounds is enough. The block
-- is neither the end nor that of the VFP registers, and has its two words.
pub find_vfp_stuck :
    (fuel : ℕ) (exc : Bool) (space : List ℕ) (at magic size : ℕ) (rest : List ℕ)
    → at < 2 ^ 30
    → drop at space ≡ magic ∷ size ∷ rest
    → magic ≢ 0
    → magic ≢ 0x56465001
    → size < 4
    → find_vfp fuel exc space at ≡ hangs
unfolding find_vfp
find_vfp_stuck zero exc space at magic size rest small here n v lt = refl
find_vfp_stuck (suc fuel) exc space at magic size rest small here n v lt =
    ap (vfp_block (find_vfp fuel exc space) exc at (take at space)) here
    ∙ vfp_block-passes (find_vfp fuel exc space) exc at (take at space) magic size rest n v
    ∙ ap (find_vfp fuel exc space) (next_block-same at size small lt)
    ∙ find_vfp_stuck fuel exc space at magic size rest small here n v lt
