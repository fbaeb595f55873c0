-- ===== src/Aarch64/Sizes.antt =====
-- risu_reginfo_aarch64.c: the structure has room for the registers that are stored in it.
use risu.Prelude.{ℕ, ◌+◌, ◌≤◌, ◌≡◌, false, ◌==◌, arith}
use risu.Prelude.Int.{ℤ}
use risu.Prelude.Outcome.{done, if_cases}
use risu.Aarch64.Layout.{Sigcontext, IsLaidOut, risu_sve_regs_size}
use risu.Aarch64.{Context, Reginfo, offsetof_extra, process_arch_opt, reginfo_init, reginfo_size}
use risu.Aarch64.Vectors.{reginfo_init_cases}

-- What the option sets is a length that the array `extra` is made for.
accepted_bounds :
    (opt : ℕ) (val : ℤ) (test_sve : ℕ)
    → process_arch_opt opt val ≡ done test_sve
    → (1 ≤ test_sve) × (test_sve ≤ 16)
unfolding process_arch_opt
accepted_bounds opt val test_sve h =
    let both : (1 ≤ test_sve) × (test_sve ≤ 16) = ground arith in both

module _ (k : Sigcontext) (laid : IsLaidOut k) where
  sve_room : (vq : ℕ) → vq ≤ 16 → risu_sve_regs_size k vq ≤ risu_sve_regs_size k 16
  unfolding risu_sve_regs_size
  sve_room vq le = omega (arith, laid.size vq, laid.size 16)

  simd_room : 512 ≤ risu_sve_regs_size k 16
  unfolding risu_sve_regs_size
  simd_room = omega (arith, laid.size 16)

  reginfo_size-le :
      (vq : ℕ)
      → vq ≤ 16
      → (n : ℕ) (uc : Context)
      → reginfo_size k (reginfo_init k vq n uc) ≤ offsetof_extra + risu_sve_regs_size k 16
  reginfo_size-le vq le n uc =
      reginfo_init_cases k laid (λ r. reginfo_size k r ≤ offsetof_extra + risu_sve_regs_size k 16)
        vq (λ r e. either r (λ ne. absurd (ground arith)))
        (λ r e h. either r (λ ne. rw (e, laid.vq_of_vl vq) (sve_room vq le))) n uc
    where
      either :
          (r : Reginfo)
          → ((r.sve_vl == 0) ≡ false
              → risu_sve_regs_size k (k.vq_from_vl r.sve_vl) ≤ risu_sve_regs_size k 16)
          → reginfo_size k r ≤ offsetof_extra + risu_sve_regs_size k 16
      either r h =
          let small = simd_room in
          unfold reginfo_size in
          if_cases (λ s. 304 + s ≤ 304 + risu_sve_regs_size k 16) (r.sve_vl == 0) 512
            (risu_sve_regs_size k (k.vq_from_vl r.sve_vl)) (λ z. omega arith)
            (λ z. let fits = h z in omega arith)

-- On AArch64, whatever length of the vectors the option accepts and whatever the context is, the
-- size that is sent of the structure that is taken from it is at most that of the structure, whose
-- array is made for vectors of 16 quadwords. The registers of SVE lie as the kernel lays them out.
pub reginfo_size-process_arch_opt :
    (k : Sigcontext)
    → IsLaidOut k
    → (opt : ℕ) (val : ℤ) (test_sve : ℕ) → process_arch_opt opt val ≡ done test_sve
    → (image_start_address : ℕ) (uc : Context)
    → reginfo_size k (reginfo_init k test_sve image_start_address uc)
      ≤ offsetof_extra + risu_sve_regs_size k 16
reginfo_size-process_arch_opt k laid opt val t h n uc =
    reginfo_size-le k laid t (accepted_bounds opt val t h).1 n uc
