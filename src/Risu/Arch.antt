-- ===== src/Risu/Arch.antt =====
-- risu.h, "Interface provided by CPU-specific code": what the tool takes from an architecture.
use risu.Prelude.{ℕ, Bool, List, Option}
use risu.Risu.Op.{RisuOp}

-- `Ucontext` is what a signal handler is given of the machine: the registers of the interrupted
-- code, and the memory that it runs in. `Reginfo` is `struct reginfo`.
pub record Arch : Type 1 where
  pub Ucontext : Type 0
  pub Reginfo : Type 0
  pub advance_pc : Ucontext → Ucontext
  pub get_uc_pc : Ucontext → ℕ → ℕ
  pub set_ucontext_paramreg : Ucontext → ℕ → Ucontext
  pub get_reginfo_paramreg : Reginfo → ℕ
  pub get_risuop : Reginfo → RisuOp
  pub get_pc : Reginfo → ℕ
  pub reginfo_init : Ucontext → ℕ → Reginfo
  pub reginfo_update : Reginfo → Ucontext → Ucontext
  -- The comparison may read `signal_count`, and may change the second structure.
  pub reginfo_is_eq : ℕ → Reginfo → Reginfo → Bool × Reginfo
  pub reginfo_size : Reginfo → ℕ
  -- A pointer of the tested machine as one of risu's own, which may be NULL.
  pub get_arch_memory : ℕ → Option ℕ
  pub reginfo_host_to_arch : Reginfo → Reginfo
  pub reginfo_arch_to_host : Reginfo → Reginfo
  -- The structure as the bytes of its object, and the other way round.
  pub sizeof_reginfo : ℕ
  pub reginfo_bytes : Reginfo → List ℕ
  pub reginfo_of_bytes : List ℕ → Reginfo
  -- The MEMBLOCKLEN bytes at such a pointer.
  pub memory : Ucontext → ℕ → List ℕ
