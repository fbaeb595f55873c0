-- ===== src/Tests/Runs.antt =====
-- Whole runs of the small machine, which stops twice, on a trace file.
use risu.Prelude.{ℕ, ◌≡◌, refl, Bool, true, false, [], ◌∷◌, ◌++◌, List, Option, some, arith}
use risu.Prelude.Outcome.{Outcome, done, Always}
use risu.Endian.{byteswap_32}
use risu.Comms.{sys_write, sys_read, recv_bytes}
use risu.Risu.Apprentice.{
  apprentice_sigill, recv_and_compare_register_info, compare_record, recv_register_info,
  check_header, recv_payload, recv_registers, compare_registers, match_op, after_compare,
  after_match, has_registers, finish_compare, apprentice_effect, same_op,
}
use risu.Risu.Op.{op_of}
use risu.Risu.Header.{header_host_to_arch, header_bytes, header_of_bytes, header_arch_to_host}
use risu.Risu.Master.{
  sigill, master_effect, send_record, master_sigill, send_register_info, prepare_record,
  write_record, write_header, write_extra, leave_handler,
}
use risu.Risu.State.{State, write_buffer, read_buffer, read_trace, respond, skips}
use risu.Risu.Run.{Stop, master, apprentice, do_image, after_handler, report_ended}
use risu.Risu.Sound.{Sound}
use risu.Risu.Sound.Running.{EndedAll, apprentice-Sound, master-Sound}
use risu.Risu.Trace.Runs.{trace_of}
use risu.Tests.Toy.{toy, little, start_state, length-zeros}

-- The code under test stops at each instruction: it compares its registers and ends.
abbrev stops : toy.Ucontext → Option (Stop toy)
stops uc = some (record { signal = sigill; siaddr = 0; context = uc })

abbrev writer : State toy
writer = start_state []

abbrev written : List ℕ
written = trace_of toy little 9 3 stops (stops 0) writer

abbrev reader : State toy
reader = start_state (written ++ (9 ∷ []))

writer-Sound : Sound {a = toy} 0 writer
unfolding Sound
writer-Sound = (length-zeros, omega arith, omega arith)

reader-Sound : Sound {a = toy} 0 reader
unfolding Sound
reader-Sound = (length-zeros, omega arith, omega arith)

apprentice-Sound_example :
    Always
      (λ r. EndedAll toy little 9 (Sound {a = toy} 3) r.1)
      (apprentice toy little 9 3 stops (stops 0) reader)
apprentice-Sound_example =
    apprentice-Sound toy little 9 3 0 stops (stops 0) reader (omega arith) reader-Sound

master-Sound_example :
    Always
      (λ r. EndedAll toy little 9 (Sound {a = toy} 3) r.1)
      (master toy little 9 3 stops (stops 0) writer)
master-Sound_example =
    master-Sound toy little 9 3 0 stops (stops 0) writer (omega arith) writer-Sound

-- Both runs come to their end, by OP_TESTEND.
abbrev is_done {ℓ} : {A : Type ℓ} → Outcome A → Bool
is_done (done x) = true
is_done _ = false

master_ends : is_done (master toy little 9 3 stops (stops 0) writer) ≡ true
unfolding master do_image after_handler master_sigill send_register_info send_record prepare_record
    write_record write_header write_extra write_buffer master_effect leave_handler
    header_host_to_arch header_bytes op_of sys_write skips report_ended
master_ends = refl

apprentice_ends : is_done (apprentice toy little 9 3 stops (stops 0) reader) ≡ true
unfolding apprentice do_image after_handler apprentice_sigill recv_and_compare_register_info
    compare_record recv_register_info check_header recv_payload recv_registers read_buffer
    read_trace compare_registers match_op after_compare after_match has_registers finish_compare
    respond apprentice_effect same_op header_of_bytes header_arch_to_host header_bytes
    header_host_to_arch leave_handler op_of sys_read recv_bytes skips report_ended trace_of
    byteswap_32 master_sigill send_register_info send_record prepare_record write_record
    write_header write_buffer sys_write write_extra master_effect
apprentice_ends = refl
