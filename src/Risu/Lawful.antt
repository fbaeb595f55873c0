-- ===== src/Risu/Lawful.antt =====
-- What the tool relies on in the architecture's code.
use risu.Prelude.{ℕ, ◌^◌, ◌<◌, ◌≡◌, true, length}
use risu.Risu.Arch.{Arch}
use risu.Risu.State.{memblocklen}

-- The structure has one size, is stored and loaded without loss, and holds 32-bit values.
pub record IsLawful (a : Arch) : Type 0 where
  pub bytes_load : (r : a.Reginfo) → a.reginfo_of_bytes (a.reginfo_bytes r) ≡ r
  pub bytes_length : (r : a.Reginfo) → length (a.reginfo_bytes r) ≡ a.sizeof_reginfo
  pub size_eq : (r : a.Reginfo) → a.reginfo_size r ≡ a.sizeof_reginfo
  pub sizeof_lt : a.sizeof_reginfo < 2 ^ 32
  pub swap_back : (r : a.Reginfo) → a.reginfo_arch_to_host (a.reginfo_host_to_arch r) ≡ r
  pub pc_lt : (r : a.Reginfo) → a.get_pc r < 2 ^ 32
  pub memory_length : (uc : a.Ucontext) (m : ℕ) → length (a.memory uc m) ≡ memblocklen

-- A structure equals itself, and putting back what was just taken from a context changes nothing.
pub record IsRepeatable (a : Arch) : Type 0 where
  pub eq_self : (count : ℕ) (r : a.Reginfo) → a.reginfo_is_eq count r r ≡ (true, r)
  pub update_self :
      (uc : a.Ucontext) (siaddr : ℕ) → a.reginfo_update (a.reginfo_init uc siaddr) uc ≡ uc
