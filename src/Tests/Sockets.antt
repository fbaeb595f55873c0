-- ===== src/Tests/Sockets.antt =====
-- One record through a socket, on which the registers differ.
use risu.Prelude.{ℕ, ◌≡◌, refl, sym, ◌⊎◌, [], ◌∷◌, false, if◌then◌else◌}
use risu.Prelude.Outcome.{Outcome, done}
use risu.Comms.{
  short, interrupted, sys_read, sys_write, recv_bytes, recv_data_pkt, net_bytes, net_value, gather,
  advance, safe_writev, send_data_pkt, send_response_byte,
}
use risu.Endian.{byteswap_32}
use risu.Risu.Op.{op_of, op_compare, RisuResult, res_ok, res_end, res_mismatch_reg, res_of, is_ok}
use risu.Risu.Header.{header_bytes, header_of_bytes, header_host_to_arch, header_arch_to_host}
use risu.Risu.State.{State, read_buffer, recv_result, write_buffer, respond}
use risu.Risu.Master.{prepare_record, write_extra, write_header, write_record, send_record}
use risu.Risu.Apprentice.{
  recv_registers, recv_payload, check_header, recv_register_info, has_registers, after_compare,
  compare_registers, apprentice_effect, finish_compare, compare_record,
}
use risu.Risu.Socket.{HasSent}
use risu.Risu.Socket.Sending.{HasToRead}
use risu.Risu.Socket.Lockstep.{compare_record-send_record}
use risu.Tests.Toy.{toy, little, start_state}

-- The master is told to go on, and then to stop.
abbrev asking : State toy
asking = record (start_state (0 ∷ 1 ∷ [])) { trace = false; ri_master = 5 }

abbrev left_by : Outcome (RisuResult × ℕ × State toy) → State toy
left_by o = elim o [ done r ↦ r.2 | _ ↦ asking ]

abbrev asked : State toy
asked = left_by (send_record toy little 9 op_compare 0 asking)

-- Its packets come in pieces.
abbrev answering : State toy
answering = record (start_state []) {
  trace = false;
  ri_apprentice = 6;
  comm = record {
    incoming = asked.comm.sent;
    reads = interrupted ∷ short 2 ∷ short 0 ∷ [];
    sent = [];
    writes = [];
    eintr = false;
  };
}

abbrev answered : State toy
answered = left_by (compare_record toy little 9 op_compare 0 answering)

asks : send_record toy little 9 op_compare 0 asking ≡ done (res_end, 0, asked)
unfolding send_record prepare_record write_record write_header write_extra write_buffer
    send_data_pkt safe_writev gather advance sys_write sys_read net_bytes header_bytes
    header_host_to_arch res_of
asks = refl

answers : compare_record toy little 9 op_compare 0 answering ≡ done (res_mismatch_reg, 0, answered)
unfolding compare_record recv_register_info check_header recv_payload recv_registers read_buffer
    recv_result recv_data_pkt recv_bytes net_value respond send_response_byte apprentice_effect
    compare_registers after_compare has_registers finish_compare header_of_bytes header_arch_to_host
    op_of send_record prepare_record write_record write_header write_extra write_buffer
    send_data_pkt safe_writev gather advance sys_write sys_read net_bytes header_bytes
    header_host_to_arch res_of byteswap_32
answers = refl

-- The two answers.
answered_bytes : answered.comm.sent ≡ 0 ∷ 1 ∷ []
unfolding compare_record recv_register_info check_header recv_payload recv_registers read_buffer
    recv_result recv_data_pkt recv_bytes net_value respond send_response_byte apprentice_effect
    compare_registers after_compare has_registers finish_compare header_of_bytes header_arch_to_host
    op_of send_record prepare_record write_record write_header write_extra write_buffer
    send_data_pkt safe_writev gather advance sys_write sys_read net_bytes header_bytes
    header_host_to_arch res_of byteswap_32
answered_bytes = refl

nothing_left : asked.comm.incoming ≡ []
unfolding send_record prepare_record write_record write_header write_extra write_buffer
    send_data_pkt safe_writev gather advance sys_write sys_read net_bytes header_bytes
    header_host_to_arch res_of
nothing_left = refl

answering-HasSent : HasSent [] answering
answering-HasSent = record { socket = refl; sent = refl }

asking-HasToRead : HasToRead answered.comm.sent asking
asking-HasToRead = record { socket = refl; incoming = sym answered_bytes }

compare_record-send_record_example :
    if is_ok res_mismatch_reg then (res_end ≡ res_ok) ⊎ (res_end ≡ res_end) else res_end ≡ res_end
compare_record-send_record_example =
    compare_record-send_record toy little little 9 9 asking answering asked answered op_compare
      op_compare 0 0 0 0 res_end res_mismatch_reg answering-HasSent answers asking-HasToRead asks
      nothing_left
