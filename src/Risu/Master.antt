-- ===== src/Risu/Master.antt =====
-- risu.c: the handler of the master, which writes a record for each stop of the tested code.
use mathlib.Core.Option
use risu.Prelude.{ℕ, ◌+◌, ◌%◌, ◌^◌, true, false, List, Option, none, some, if◌then◌else◌}
use risu.Prelude.Outcome.{Outcome, done, aborts, ◌>>=◌}
use risu.Risu.Op.{
  RisuOp, op_sigill, op_compare, op_testend, op_setmemblock, op_getmemblock, op_comparemem,
  op_setupbegin, op_setupend, op_other, op_code, RisuResult, res_ok, res_end, res_sigbus, is_ok,
}
use risu.Risu.Header.{
  TraceHeader, Platform, risu_magic, sizeof_header, header_host_to_arch, header_bytes,
}
use risu.Risu.Arch.{Arch}
use risu.Risu.State.{State, memblocklen, increment, count_illegal, skips, write_buffer}

-- The two signals that the handlers are installed for.
pub data Signal : Type 0 where
  sigill sigbus : Signal

-- How a handler ends: it returns to the tested code, or jumps to `master` or `apprentice`.
pub data Handled (a : Arch) : Type 0 where
  resumes : a.Ucontext → State a → Handled a
  jumps : RisuResult → State a → Handled a

module _ (a : Arch) (p : Platform) (fuel : ℕ) where
  header_for : RisuOp → ℕ → State a → TraceHeader
  header_for op size st = record {
    magic = risu_magic;
    size = size;
    risu_op = op_code op;
    pc = a.get_pc st.ri_master;
  }

  extra_registers : RisuOp → State a → Option (List ℕ) × State a
  unfolding header_for
  extra_registers op st =
      let swapped = a.reginfo_host_to_arch st.ri_master in
      (
        some (a.reginfo_bytes swapped),
        record st { header = header_for op (a.reginfo_size st.ri_master) st; ri_master = swapped },
      )

  extra_memory : a.Ucontext → State a → Option (List ℕ) × State a
  unfolding header_for
  extra_memory uc st = (
    Option.map (a.memory uc) st.memblock,
    record st { header = header_for op_comparemem memblocklen st },
  )

  no_extra : RisuOp → State a → Option (List ℕ) × State a
  unfolding header_for
  no_extra op st = (none, record st { header = header_for op 0 st })

  -- The first `switch`: the header, and the object that `extra` points to.
  unfoldable pub prepare_record :
      RisuOp → a.Ucontext → State a → Outcome (Option (List ℕ) × State a)
  unfolding extra_registers extra_memory no_extra
  prepare_record op_testend uc st = done (extra_registers op_testend st)
  prepare_record op_compare uc st = done (extra_registers op_compare st)
  prepare_record op_sigill uc st = done (extra_registers op_sigill st)
  prepare_record op_comparemem uc st = done (extra_memory uc st)
  prepare_record op_setmemblock uc st = done (no_extra op_setmemblock st)
  prepare_record op_getmemblock uc st = done (no_extra op_getmemblock st)
  prepare_record op_setupbegin uc st = done (no_extra op_setupbegin st)
  prepare_record op_setupend uc st = done (no_extra op_setupend st)
  prepare_record (op_other w) uc st = aborts

  -- `if (extra)`, with the size that the header has by now.
  unfoldable pub write_extra : Option (List ℕ) → State a → Outcome (RisuResult × State a)
  write_extra none st = done (res_ok, st)
  write_extra (some extra) st = write_buffer a p fuel extra st.header.size st

  unfoldable pub write_header : Option (List ℕ) → State a → Outcome (RisuResult × State a)
  write_header extra st =
      write_buffer a p fuel (header_bytes p.host_little_endian st.header) sizeof_header st
      >>= (λ r. if is_ok r.0 then write_extra extra r.1 else done r)

  unfoldable pub write_record : Option (List ℕ) → State a → Outcome (RisuResult × State a)
  write_record extra st =
      write_header extra (record st { header = header_host_to_arch p st.header })

  -- The second `switch`.
  unfoldable pub master_effect :
      RisuOp → a.Ucontext → State a → Outcome (RisuResult × a.Ucontext × State a)
  master_effect op_compare uc st = done (res_ok, uc, st)
  master_effect op_sigill uc st = done (res_ok, uc, st)
  master_effect op_comparemem uc st = done (res_ok, uc, st)
  master_effect op_testend uc st = done (res_end, uc, st)
  master_effect op_setmemblock uc st =
      let m = a.get_reginfo_paramreg st.ri_master in
      done (res_ok, uc, record st { arch_memblock = m; memblock = a.get_arch_memory m })
  master_effect op_getmemblock uc st =
      let paramreg = a.get_reginfo_paramreg st.ri_master in
      done (res_ok, a.set_ucontext_paramreg uc ((paramreg + st.arch_memblock) % 2 ^ 32), st)
  master_effect op_setupbegin uc st = done (res_ok, uc, record st { is_setup = true })
  master_effect op_setupend uc st = done (res_ok, uc, record st { is_setup = false })
  master_effect (op_other w) uc st = aborts

  -- What follows the count of illegal instructions.
  unfoldable pub send_record :
      RisuOp → a.Ucontext → State a → Outcome (RisuResult × a.Ucontext × State a)
  send_record op uc st = do
    (extra, st1) ← prepare_record op uc st
    (res, st2) ← write_record extra st1
    if is_ok res then master_effect op uc st2 else done (res, uc, st2)

  unfoldable pub send_register_info :
      a.Ucontext → ℕ → State a → Outcome (RisuResult × a.Ucontext × State a)
  send_register_info uc siaddr st0 =
      let ri = a.reginfo_init uc siaddr in
      let op = a.get_risuop ri in
      let st = count_illegal op (record st0 { ri_master = ri }) in
      if skips op st then done (res_ok, uc, st) else send_record op uc st

  -- `if (r == RES_OK) advance_pc(uc); else { signal_pc = ...; siglongjmp(jmpbuf, r); }`
  unfoldable pub leave_handler : ℕ → RisuResult × a.Ucontext × State a → Outcome (Handled a)
  leave_handler siaddr (res_ok, uc, st) = done (resumes (a.advance_pc uc) st)
  leave_handler siaddr (r, uc, st) =
      done (jumps r (record st { signal_pc = a.get_uc_pc uc siaddr }))

  unfoldable pub master_sigill : Signal → ℕ → a.Ucontext → State a → Outcome (Handled a)
  master_sigill sig siaddr uc st0 =
      let st = record st0 { signal_count = increment st0.signal_count } in
      elim sig [
        | sigbus ↦ leave_handler siaddr (res_sigbus, uc, st)
        | sigill ↦ send_register_info uc siaddr st >>= leave_handler siaddr
      ]
