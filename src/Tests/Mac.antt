-- ===== src/Tests/Mac.antt =====
-- A run on PowerPC under Mac OS X, whose image ends at once.
use risu.Prelude.{
  ℕ, ◌%◌, ◌≡◌, refl, List, [], ◌∷◌, ◌++◌, none, some, true, false, if◌then◌else◌, ◌==◌, replicate,
}
use risu.Prelude.Outcome.{done}
use risu.Risu.Op.{op_testend, op_setupbegin, op_of, res_mismatch_op}
use risu.Risu.Header.{Platform, header_bytes, header_host_to_arch}
use risu.Risu.Arch.{Arch}
use risu.Risu.State.{State, memblocklen, write_buffer, skips}
use risu.Risu.Master.{
  sigill, master_effect, send_record, master_sigill, send_register_info, prepare_record,
  write_record, write_header, write_extra, leave_handler,
}
use risu.Risu.Apprentice.{apprentice_sigill, compare_record}
use risu.Risu.Run.{Machine, do_image}
use risu.Risu.Lawful.{IsRepeatable}
use risu.Risu.Trace.{left}
use risu.Risu.Trace.Synced.{Synced}
use risu.Risu.Trace.Transfer.{record_of}
use risu.Risu.Trace.Verdict.{compare_record-verdict}
use risu.Risu.Trace.Stops.{ReadyAt, record_at}
use risu.Risu.Trace.Handlers.{Alike, handlers-Alike}
use risu.Risu.Trace.Runs.{EndAlike, AllReady, ThenReady, trace_of, replay}
use risu.Comms.{sys_write}
use risu.Ppc64.{Context, Masks, get_risuop, reginfo_init, insn_at, word_at, arch_to_host_32}
use risu.Ppc64.Object.{stored, reginfo_bytes, listed}
use risu.Ppc64.Machine.{Ucontext, kept, mac_os_x, mac_os_x-IsLawful, mac_os_x-IsRepeatable}
use risu.Tests.Toy.{file_of, length-zeros}

abbrev pub masks : Masks
masks = record {
  gregs_mask = 0xbfffffff;
  ccr_mask = 0xffffffff;
  xer_mask = 0xffffffff;
  mq_mask = 0xffffffff;
  fpscr_mask = 0xffffffff;
  fpregs_mask = 0xffffffff;
  vrregs_mask = 0xffffffff;
  fp_opts = 0;
  cpu_opts = 0;
}

abbrev pub mac : Arch
mac = mac_os_x masks 4096 64

mac_os_x-IsRepeatable_example : IsRepeatable (mac_os_x masks 4096 64)
mac_os_x-IsRepeatable_example = mac_os_x-IsRepeatable masks 4096 64

-- A big-endian host that is the tested machine.
abbrev pub big : Platform
big = record { macro_little_endian = false; host_little_endian = false; arch_big_endian = true }

-- At the instruction 0x5af1, OP_TESTEND.
abbrev pub at_end : Context
at_end = record {
  srr0 = 4096;
  srr1 = 0;
  ctr = 1;
  lr = 2;
  xer = 3;
  cr = 4;
  mq = 5;
  dar = 6;
  dsisr = 7;
  r0 = λ i. i;
  fpregs = λ i. 0;
  fpscr = 8;
  memory = λ p. if p % 4 == 3 then 0xf1 else if p % 4 == 2 then 0x5a else 0;
}

abbrev pub next_stop : Machine mac
next_stop uc = some (record { signal = sigill; siaddr = 0; context = kept at_end })

abbrev pub start_of : List ℕ → State mac
start_of bytes = record {
  ri_master = stored (reginfo_init 4096 64 at_end);
  ri_apprentice = stored (reginfo_init 4096 64 at_end);
  other_memblock = replicate memblocklen 0;
  header = record { magic = 0; size = 0; risu_op = 0; pc = 0 };
  memblock = none;
  arch_memblock = 0;
  comm = file_of bytes;
  trace = true;
  signal_count = 0;
  illegal_instructions = 0;
  signal_pc = 0;
  is_setup = false;
}

abbrev writer : State mac
writer = start_of []

abbrev whole_trace : List ℕ
whole_trace = trace_of mac big 0 2 next_stop (next_stop (kept at_end)) writer

abbrev follower : State mac
follower = start_of (whole_trace ++ (9 ∷ []))

follower-Synced : Synced writer follower
follower-Synced = record {
  master_tracing = record { trace_eq = refl; reads_eq = refl; writes_eq = refl };
  apprentice_tracing = record { trace_eq = refl; reads_eq = refl; writes_eq = refl };
  setup_eq = refl;
  arch_memblock_eq = refl;
  memblock_eq = refl;
  block_length = length-zeros;
}

asks_to_end : get_risuop (stored (reginfo_init 4096 64 (kept at_end).0)).0 ≡ op_testend
unfolding get_risuop stored kept reginfo_init insn_at word_at arch_to_host_32 op_of
asks_to_end = refl

pub steps-AllReady : AllReady mac big 0 2 next_stop (next_stop (kept at_end)) writer
unfolding AllReady ThenReady master_sigill send_register_info send_record prepare_record
    write_record write_header write_extra write_buffer master_effect leave_handler
    header_host_to_arch header_bytes op_of sys_write skips get_risuop stored kept reginfo_init
    insn_at word_at arch_to_host_32 reginfo_bytes listed
steps-AllReady = (tt, tt)

replay_example :
    EndAlike whole_trace
      (9 ∷ [])
      writer
      follower
      (do_image mac 2 (master_sigill mac big 0) next_stop (next_stop (kept at_end)) writer)
      (do_image mac 2 (apprentice_sigill mac big 0) next_stop (next_stop (kept at_end)) follower)
replay_example =
    replay mac big 0 (mac_os_x-IsLawful masks 4096 64) (mac_os_x-IsRepeatable masks 4096 64) refl 2
      next_stop (next_stop (kept at_end)) writer follower (9 ∷ []) follower-Synced steps-AllReady
      refl

abbrev reader : State mac
reader = start_of (record_of mac big op_testend (kept at_end) writer ++ (9 ∷ []))

-- The apprentice's code begins its setup there.
compare_record-verdict_example :
    (uc : Ucontext) × (n : State mac) × (compare_record mac big 0 op_setupbegin (kept at_end) reader
      ≡ done (res_mismatch_op, uc, n))
    × (n.comm ≡ left (9 ∷ []) reader.comm)
compare_record-verdict_example =
    compare_record-verdict mac big 0 (mac_os_x-IsLawful masks 4096 64) op_testend op_setupbegin
      (kept at_end) (kept at_end) writer reader (9 ∷ []) tt tt
      (record { trace_eq = refl; reads_eq = refl; writes_eq = refl }) length-zeros refl

abbrev one_record : State mac
one_record = start_of (record_at mac big sigill 0 (kept at_end) writer ++ (9 ∷ []))

one_record-Synced : Synced writer one_record
one_record-Synced = record {
  master_tracing = record { trace_eq = refl; reads_eq = refl; writes_eq = refl };
  apprentice_tracing = record { trace_eq = refl; reads_eq = refl; writes_eq = refl };
  setup_eq = refl;
  arch_memblock_eq = refl;
  memblock_eq = refl;
  block_length = length-zeros;
}

one_stop-ReadyAt : ReadyAt mac sigill 0 (kept at_end) writer
unfolding get_risuop stored kept reginfo_init insn_at word_at arch_to_host_32 op_of
one_stop-ReadyAt = tt

handlers-Alike_example :
    Alike mac big 0
      (record_at mac big sigill 0 (kept at_end) writer)
      (9 ∷ [])
      writer
      one_record
      (master_sigill mac big 0 sigill 0 (kept at_end) writer)
      (apprentice_sigill mac big 0 sigill 0 (kept at_end) one_record)
handlers-Alike_example =
    handlers-Alike mac big 0 (mac_os_x-IsLawful masks 4096 64) (mac_os_x-IsRepeatable masks 4096 64)
      refl sigill 0 (kept at_end) writer one_record (9 ∷ []) one_record-Synced one_stop-ReadyAt refl
