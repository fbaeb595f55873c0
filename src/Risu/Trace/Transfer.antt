-- ===== src/Risu/Trace/Transfer.antt =====
-- risu.c: what the master writes for an operation is what the apprentice holds after reading it.
use mathlib.Core.Option
use mathlib.Core.List.{append_assoc}
use risu.Prelude.{
  ℕ, ◌^◌, ◌<◌, ◌≡◌, refl, sym, ◌∙◌, Bool, true, false, List, ◌++◌, Option, none, some, arith,
  length,
}
use risu.Prelude.Outcome.{done, bind_done}
use risu.Risu.Op.{
  RisuOp, op_sigill, op_compare, op_testend, op_setmemblock, op_getmemblock, op_comparemem,
  op_setupbegin, op_setupend, op_other, op_code, op_of, res_ok,
}
use risu.Risu.Header.{TraceHeader, Platform, risu_magic, header_bytes}
use risu.Risu.Header.Laws.{IsHeader, swaps}
use risu.Risu.Arch.{Arch}
use risu.Risu.State.{State, memblocklen}
use risu.Risu.Master.{prepare_record, master_effect, send_record}
use risu.Risu.Apprentice.{recv_register_info, recv_payload, recv_nothing}
use risu.Risu.Lawful.{IsLawful}
use risu.Risu.Trace.{IsTracing, wrote, left}
use risu.Risu.Trace.Records.{
  extra_bytes, FitsSize, write_record_trace, recv_header_trace, recv_registers_trace,
  recv_memory_trace,
}

-- The operations whose records hold registers.
abbrev pub with_registers : RisuOp → Bool
with_registers op_compare = true
with_registers op_testend = true
with_registers op_sigill = true
with_registers _ = false

-- Only the two schedules and the mode matter.
same_file :
    {a : Arch} {st : State a} {xs : List ℕ} {h : TraceHeader}
    → IsTracing st
    → IsTracing (record st { comm = left xs st.comm; header = h })
same_file t = record { trace_eq = t.trace_eq; reads_eq = refl; writes_eq = t.writes_eq }

module _ (a : Arch) where
  -- The operation is one of the enum, and memory is compared only once `memblock` is set.
  abbrev pub IsReady : RisuOp → State a → Type 0
  IsReady (op_other w) st = ⊥
  IsReady op_comparemem st = (k : ℕ) × (st.memblock ≡ some k)
  IsReady _ st = Unit {0}

  abbrev extra_of : RisuOp → a.Ucontext → State a → Option (List ℕ)
  extra_of op_compare uc st = some (a.reginfo_bytes (a.reginfo_host_to_arch st.ri_master))
  extra_of op_testend uc st = some (a.reginfo_bytes (a.reginfo_host_to_arch st.ri_master))
  extra_of op_sigill uc st = some (a.reginfo_bytes (a.reginfo_host_to_arch st.ri_master))
  extra_of op_comparemem uc st = Option.map (a.memory uc) st.memblock
  extra_of _ uc st = none

  abbrev size_of : RisuOp → State a → ℕ
  size_of op_compare st = a.reginfo_size st.ri_master
  size_of op_testend st = a.reginfo_size st.ri_master
  size_of op_sigill st = a.reginfo_size st.ri_master
  size_of op_comparemem st = memblocklen
  size_of _ st = 0

  abbrev header_of : RisuOp → State a → TraceHeader
  header_of op st = record {
    magic = risu_magic;
    size = size_of op st;
    risu_op = op_code op;
    pc = a.get_pc st.ri_master;
  }

  -- The registers that the master keeps: those of a record are left in the tested machine's order.
  abbrev kept : RisuOp → State a → a.Reginfo
  kept op_compare st = a.reginfo_host_to_arch st.ri_master
  kept op_testend st = a.reginfo_host_to_arch st.ri_master
  kept op_sigill st = a.reginfo_host_to_arch st.ri_master
  kept _ st = st.ri_master

  -- What the apprentice holds of the master, and of the memory.
  abbrev pub received_registers : RisuOp → State a → State a → a.Reginfo
  received_registers op_compare m n = m.ri_master
  received_registers op_testend m n = m.ri_master
  received_registers op_sigill m n = m.ri_master
  received_registers _ m n = n.ri_master

  abbrev pub received_memory : RisuOp → a.Ucontext → State a → State a → List ℕ
  received_memory op_comparemem uc m n = extra_bytes (Option.map (a.memory uc) m.memblock)
  received_memory _ uc m n = n.other_memblock

  module _ (p : Platform) where
    abbrev pub record_of : RisuOp → a.Ucontext → State a → List ℕ
    record_of op uc st =
        header_bytes p.host_little_endian (header_of op st) ++ extra_bytes (extra_of op uc st)

    -- The master once it has written the record.
    abbrev pub written : RisuOp → a.Ucontext → State a → State a
    written op uc st = record st {
      header = header_of op st;
      ri_master = kept op st;
      comm = wrote (record_of op uc st) st.comm;
    }

  -- The apprentice once it has read a record that `m` wrote, with `rest` still to come.
  abbrev pub received : RisuOp → a.Ucontext → State a → List ℕ → State a → State a
  received op uc m rest n = record n {
    header = header_of op m;
    ri_master = received_registers op m n;
    other_memblock = received_memory op uc m n;
    comm = left rest n.comm;
  }

  extra_fits :
      IsLawful a
      → (op : RisuOp) (uc : a.Ucontext) (st : State a) → IsReady op st
      → FitsSize (extra_of op uc st) (size_of op st)
  extra_fits w op_compare uc st r = w.bytes_length _ ∙ sym (w.size_eq _)
  extra_fits w op_testend uc st r = w.bytes_length _ ∙ sym (w.size_eq _)
  extra_fits w op_sigill uc st r = w.bytes_length _ ∙ sym (w.size_eq _)
  extra_fits w op_comparemem uc st (k, e) = rw e (w.memory_length uc k)
  extra_fits w op_setmemblock uc st r = tt
  extra_fits w op_getmemblock uc st r = tt
  extra_fits w op_setupbegin uc st r = tt
  extra_fits w op_setupend uc st r = tt
  extra_fits w (op_other x) uc st r = absurd r

  prepare_record_lem :
      (p : Platform) (fuel : ℕ) (op : RisuOp) (uc : a.Ucontext) (st : State a)
      → IsReady op st
      → prepare_record a p fuel op uc st
        ≡ done (extra_of op uc st, record st { header = header_of op st; ri_master = kept op st })
  unfolding prepare_record
  prepare_record_lem p fuel op_compare uc st r = refl
  prepare_record_lem p fuel op_testend uc st r = refl
  prepare_record_lem p fuel op_sigill uc st r = refl
  prepare_record_lem p fuel op_comparemem uc st r = refl
  prepare_record_lem p fuel op_setmemblock uc st r = refl
  prepare_record_lem p fuel op_getmemblock uc st r = refl
  prepare_record_lem p fuel op_setupbegin uc st r = refl
  prepare_record_lem p fuel op_setupend uc st r = refl
  prepare_record_lem p fuel (op_other x) uc st r = absurd r

  -- On an undisturbed trace file, in the host's byte order and ready for the operation, the master
  -- writes exactly the header and the payload of the record, keeps the header, leaves the
  -- registers as they were written, and goes on with the effect of the operation.
  pub send_record_trace :
      IsLawful a
      → (p : Platform) (fuel : ℕ) (op : RisuOp) (uc : a.Ucontext) (st : State a)
      → swaps p.macro_little_endian p.arch_big_endian ≡ false
      → IsTracing st
      → IsReady op st
      → send_record a p fuel op uc st ≡ master_effect a p fuel op uc (written p op uc st)
  unfolding send_record
  send_record_trace w p fuel op uc st keeps t r =
      bind_done _ _ _ (prepare_record_lem p fuel op uc st r)
      ∙ bind_done _ _ _ (
          write_record_trace a p fuel (extra_of op uc st) _ keeps
            (record { trace_eq = t.trace_eq; reads_eq = t.reads_eq; writes_eq = t.writes_eq })
            (extra_fits w op uc st r))

  size_of-lt : IsLawful a → (op : RisuOp) (st : State a) → size_of op st < 2 ^ 32
  size_of-lt w op_compare st = rw w.size_eq w.sizeof_lt
  size_of-lt w op_testend st = rw w.size_eq w.sizeof_lt
  size_of-lt w op_sigill st = rw w.size_eq w.sizeof_lt
  size_of-lt w _ st = omega arith

  op_code-lt : (op : RisuOp) (st : State a) → IsReady op st → op_code op < 2 ^ 32
  op_code-lt (op_other x) st r = absurd r
  op_code-lt _ st r = omega arith

  header_of-IsHeader :
      IsLawful a → (op : RisuOp) (st : State a) → IsReady op st → IsHeader (header_of op st)
  header_of-IsHeader w op st r = record {
    magic_eq = refl;
    size_lt = size_of-lt w op st;
    risu_op_lt = op_code-lt op st r;
    pc_lt = w.pc_lt st.ri_master;
  }

  -- Behind the header, by the operation that it names.
  recv_payload_trace :
      IsLawful a
      → (p : Platform) (fuel : ℕ) (op : RisuOp) (uc : a.Ucontext) (m n : State a) (rest : List ℕ)
      → IsReady op m
      → IsTracing n
      → length n.other_memblock ≡ memblocklen
      → recv_payload a p fuel (op_of (op_code op)) (record n {
        comm = left (extra_bytes (extra_of op uc m) ++ rest) n.comm;
        header = header_of op m;
      })
        ≡ done (res_ok, received op uc m rest n)
  unfolding recv_payload recv_nothing op_of
  recv_payload_trace w p fuel op_compare uc m n rest r t o =
      recv_registers_trace a p fuel w m.ri_master rest _ (same_file t) (w.size_eq _) refl
  recv_payload_trace w p fuel op_testend uc m n rest r t o =
      recv_registers_trace a p fuel w m.ri_master rest _ (same_file t) (w.size_eq _) refl
  recv_payload_trace w p fuel op_sigill uc m n rest r t o =
      recv_registers_trace a p fuel w m.ri_master rest _ (same_file t) (w.size_eq _) refl
  recv_payload_trace w p fuel op_comparemem uc m n rest (k, e) t o =
      recv_memory_trace a p fuel (extra_bytes (Option.map (a.memory uc) m.memblock)) rest _
        (same_file t) refl (rw e (w.memory_length uc k)) o refl
  recv_payload_trace w p fuel op_setmemblock uc m n rest r t o = refl
  recv_payload_trace w p fuel op_getmemblock uc m n rest r t o = refl
  recv_payload_trace w p fuel op_setupbegin uc m n rest r t o = refl
  recv_payload_trace w p fuel op_setupend uc m n rest r t o = refl
  recv_payload_trace w p fuel (op_other x) uc m n rest r t o = absurd r

  pub recv_record_trace :
      IsLawful a
      → (p : Platform) (fuel : ℕ) (op : RisuOp) (uc : a.Ucontext) (m n : State a) (rest : List ℕ)
      → IsReady op m
      → IsTracing n
      → length n.other_memblock ≡ memblocklen
      → n.comm.incoming ≡ record_of p op uc m ++ rest
      → recv_register_info a p fuel n ≡ done (res_ok, received op uc m rest n)
  recv_record_trace w p fuel op uc m n rest r t o e =
      recv_header_trace a p fuel (header_of op m) (extra_bytes (extra_of op uc m) ++ rest) n
        (header_of-IsHeader w op m r) t (e ∙ append_assoc _ _ rest)
      ∙ recv_payload_trace w p fuel op uc m n rest r t o
