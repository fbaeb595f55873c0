-- ===== src/Risu/Trace/Synced.antt =====
-- risu.c: what the two ends of a trace share between two records, and what keeps it so.
use risu.Prelude.{ℕ, ◌≡◌, refl, ap, Bool, List, length}
use risu.Risu.Op.{RisuOp, op_comparemem}
use risu.Risu.Header.{Platform}
use risu.Risu.Arch.{Arch}
use risu.Risu.State.{State, memblocklen}
use risu.Risu.Lawful.{IsLawful}
use risu.Risu.Trace.{IsTracing}
use risu.Risu.Trace.Transfer.{IsReady, written, received, received_memory}

-- What master and apprentice have in common between two records.
pub record Synced {a : Arch} (m n : State a) : Type 0 where
  pub master_tracing : IsTracing m
  pub apprentice_tracing : IsTracing n
  pub setup_eq : m.is_setup ≡ n.is_setup
  pub arch_memblock_eq : m.arch_memblock ≡ n.arch_memblock
  pub memblock_eq : m.memblock ≡ n.memblock
  pub block_length : length n.other_memblock ≡ memblocklen

pub Synced-setup :
    {a : Arch} {m n : State a} (b : Bool)
    → Synced m n
    → Synced (record m { is_setup = b }) (record n { is_setup = b })
Synced-setup b s = record {
  master_tracing = record {
    trace_eq = s.master_tracing.trace_eq;
    reads_eq = s.master_tracing.reads_eq;
    writes_eq = s.master_tracing.writes_eq;
  };
  apprentice_tracing = record {
    trace_eq = s.apprentice_tracing.trace_eq;
    reads_eq = s.apprentice_tracing.reads_eq;
    writes_eq = s.apprentice_tracing.writes_eq;
  };
  setup_eq = refl;
  arch_memblock_eq = s.arch_memblock_eq;
  memblock_eq = s.memblock_eq;
  block_length = s.block_length;
}

pub Synced-memblock :
    {a : Arch} {m n : State a} {x y : ℕ}
    → x ≡ y
    → Synced m n
    → Synced
        (record m { arch_memblock = x; memblock = a.get_arch_memory x })
        (record n { arch_memblock = y; memblock = a.get_arch_memory y })
Synced-memblock {a} e s = record {
  master_tracing = record {
    trace_eq = s.master_tracing.trace_eq;
    reads_eq = s.master_tracing.reads_eq;
    writes_eq = s.master_tracing.writes_eq;
  };
  apprentice_tracing = record {
    trace_eq = s.apprentice_tracing.trace_eq;
    reads_eq = s.apprentice_tracing.reads_eq;
    writes_eq = s.apprentice_tracing.writes_eq;
  };
  setup_eq = s.setup_eq;
  arch_memblock_eq = e;
  memblock_eq = ap a.get_arch_memory e;
  block_length = s.block_length;
}

module _ (a : Arch) (p : Platform) where
  received_memory-length :
      IsLawful a
      → (op : RisuOp) (uc : a.Ucontext) (m n : State a) → IsReady a op m
      → length n.other_memblock ≡ memblocklen
      → length (received_memory a op uc m n) ≡ memblocklen
  received_memory-length w op_comparemem uc m n (k, h) l = rw h (w.memory_length uc k)
  received_memory-length w _ uc m n r l = l

  -- The exchange of a record by itself keeps the two ends together.
  pub Synced-exchanged :
      IsLawful a
      → (op : RisuOp) (uc : a.Ucontext) (m n : State a) (rest : List ℕ) → IsReady a op m
      → Synced m n
      → Synced (written a p op uc m) (received a op uc m rest n)
  Synced-exchanged w op uc m n rest r s = record {
    master_tracing = record {
      trace_eq = s.master_tracing.trace_eq;
      reads_eq = s.master_tracing.reads_eq;
      writes_eq = refl;
    };
    apprentice_tracing = record {
      trace_eq = s.apprentice_tracing.trace_eq;
      reads_eq = refl;
      writes_eq = s.apprentice_tracing.writes_eq;
    };
    setup_eq = s.setup_eq;
    arch_memblock_eq = s.arch_memblock_eq;
    memblock_eq = s.memblock_eq;
    block_length = received_memory-length w op uc m n r s.block_length;
  }
