-- ===== src/Risu/Trace/Stops.antt =====
-- risu.c: where the two handlers stand at one stop of the tested code, before and behind it.
use risu.Prelude.{ℕ, ◌≡◌, refl, List, [], ◌++◌, if◌then◌else◌}
use risu.Risu.Op.{RisuOp, op_sigill, RisuResult}
use risu.Risu.Header.{Platform}
use risu.Risu.Arch.{Arch}
use risu.Risu.State.{State, increment, count_illegal, skips}
use risu.Risu.Master.{Signal, sigill, sigbus, Handled, resumes, jumps}
use risu.Risu.Trace.Transfer.{IsReady, record_of}
use risu.Risu.Trace.Synced.{Synced}

-- Both handlers end alike, and the states behind them stay together.
pub data Paired {a : Arch} (sent rest : List ℕ) (m n : State a)
    : Handled a → Handled a → Type 0 where
  both_resume :
      (uc : a.Ucontext) (m' n' : State a)
      → Synced m' n'
      → m'.comm.sent ≡ m.comm.sent ++ sent
      → n'.comm.incoming ≡ rest
      → Paired sent rest m n (resumes uc m') (resumes uc n')
  both_jump :
      (r : RisuResult) (m' n' : State a)
      → Synced m' n'
      → m'.comm.sent ≡ m.comm.sent ++ sent
      → n'.comm.incoming ≡ rest
      → Paired sent rest m n (jumps r m') (jumps r n')

module _ (a : Arch) where
  -- The operation that the stopped code asks for.
  abbrev pub asked : ℕ → a.Ucontext → RisuOp
  asked siaddr uc = a.get_risuop (a.reginfo_init uc siaddr)

  -- The two states once the handler has taken the registers and counted.
  abbrev pub master_begun : ℕ → a.Ucontext → State a → State a
  master_begun siaddr uc m =
      count_illegal (asked siaddr uc)
        (record m { signal_count = increment m.signal_count; ri_master = a.reginfo_init uc siaddr })

  abbrev pub apprentice_begun : ℕ → a.Ucontext → State a → State a
  apprentice_begun siaddr uc n = count_illegal (asked siaddr uc) (record n {
    signal_count = increment n.signal_count;
    ri_apprentice = a.reginfo_init uc siaddr;
  })

  -- Ready for the record that the stop asks for.
  abbrev pub ReadyAt : Signal → ℕ → a.Ucontext → State a → Type 0
  ReadyAt sigbus siaddr uc m = Unit {0}
  ReadyAt sigill siaddr uc m = IsReady a (asked siaddr uc) (master_begun siaddr uc m)

  -- The bytes of the stop: none for a bus error or for what is skipped in the setup.
  abbrev pub record_at : Platform → Signal → ℕ → a.Ucontext → State a → List ℕ
  record_at p sigbus siaddr uc m = []
  record_at p sigill siaddr uc m =
      if skips (asked siaddr uc) m
      then []
      else record_of a p (asked siaddr uc) uc (master_begun siaddr uc m)

  pub Synced-counted :
      (m n : State a) (i j k l : ℕ) (r q : a.Reginfo)
      → Synced m n
      → Synced
          (record m { signal_count = i; ri_master = r; illegal_instructions = j })
          (record n { signal_count = k; ri_apprentice = q; illegal_instructions = l })
  Synced-counted m n i j k l r q s = record {
    master_tracing = record {
      trace_eq = s.master_tracing.trace_eq;
      reads_eq = s.master_tracing.reads_eq;
      writes_eq = s.master_tracing.writes_eq;
    };
    apprentice_tracing = record {
      trace_eq = s.apprentice_tracing.trace_eq;
      reads_eq = s.apprentice_tracing.reads_eq;
      writes_eq = s.apprentice_tracing.writes_eq;
    };
    setup_eq = s.setup_eq;
    arch_memblock_eq = s.arch_memblock_eq;
    memblock_eq = s.memblock_eq;
    block_length = s.block_length;
  }

  pub Synced-signal_pc :
      (m n : State a) (i j : ℕ)
      → Synced m n
      → Synced (record m { signal_pc = i }) (record n { signal_pc = j })
  Synced-signal_pc m n i j s = record {
    master_tracing = record {
      trace_eq = s.master_tracing.trace_eq;
      reads_eq = s.master_tracing.reads_eq;
      writes_eq = s.master_tracing.writes_eq;
    };
    apprentice_tracing = record {
      trace_eq = s.apprentice_tracing.trace_eq;
      reads_eq = s.apprentice_tracing.reads_eq;
      writes_eq = s.apprentice_tracing.writes_eq;
    };
    setup_eq = s.setup_eq;
    arch_memblock_eq = s.arch_memblock_eq;
    memblock_eq = s.memblock_eq;
    block_length = s.block_length;
  }

  pub skips_eq : (op : RisuOp) (m n : State a) → m.is_setup ≡ n.is_setup → skips op m ≡ skips op n
  unfolding skips
  skips_eq op_sigill m n h = h
  skips_eq _ m n h = refl
