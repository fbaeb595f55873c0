-- ===== src/Tests/Toy.antt =====
-- A small machine to run the tool on: one register, whose value is also the operation that the
-- code asks for, and which the next instruction raises by one.
use risu.Prelude.{
  ℕ, zero, suc, ◌+◌, ◌≡◌, refl, ap, true, false, List, [], ◌∷◌, none, some, ◌==◌, length, replicate,
}
use risu.Risu.Op.{op_of}
use risu.Risu.Header.{Platform}
use risu.Risu.Arch.{Arch}
use risu.Risu.State.{State, memblocklen}
use risu.Comms.{Descriptor}

-- The first of some bytes.
abbrev first : List ℕ → ℕ
first [] = 0
first (x ∷ xs) = x

abbrev pub toy : Arch
toy = record {
  Ucontext = ℕ;
  Reginfo = ℕ;
  advance_pc = λ uc. uc + 1;
  get_uc_pc = λ uc siaddr. siaddr;
  set_ucontext_paramreg = λ uc x. x;
  get_reginfo_paramreg = λ r. r;
  get_risuop = λ r. op_of r;
  get_pc = λ r. 0;
  reginfo_init = λ uc siaddr. uc;
  reginfo_update = λ r uc. r;
  reginfo_is_eq = λ count r q. (r == q, q);
  reginfo_size = λ r. 1;
  get_arch_memory = λ x. some x;
  reginfo_host_to_arch = λ r. r;
  reginfo_arch_to_host = λ r. r;
  sizeof_reginfo = 1;
  reginfo_bytes = λ r. r ∷ [];
  reginfo_of_bytes = first;
  memory = λ uc x. replicate memblocklen 0;
}

length-replicate : (n x : ℕ) → length (replicate n x) ≡ n
length-replicate zero x = refl
length-replicate (suc n) x = ap suc (length-replicate n x)

-- A little-endian host that tests a little-endian machine.
abbrev pub little : Platform
little = record { macro_little_endian = true; host_little_endian = true; arch_big_endian = false }

abbrev pub file_of : List ℕ → Descriptor
file_of bytes = record { incoming = bytes; reads = []; sent = []; writes = []; eintr = false }

abbrev pub start_state : List ℕ → State toy
start_state bytes = record {
  ri_master = 0;
  ri_apprentice = 0;
  other_memblock = replicate memblocklen 0;
  header = record { magic = 0; size = 0; risu_op = 0; pc = 0 };
  memblock = none;
  arch_memblock = 0;
  comm = file_of bytes;
  trace = true;
  signal_count = 0;
  illegal_instructions = 0;
  signal_pc = 0;
  is_setup = false;
}

pub length-zeros : length {A = ℕ} (replicate memblocklen 0) ≡ memblocklen
length-zeros = length-replicate memblocklen 0
