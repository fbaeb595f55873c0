-- ===== src/Risu/Sound/Sending.antt =====
-- risu.c: what the master does at a stop keeps the static variables sound.
use risu.Prelude.{ℕ, ◌+◌, ◌^◌, ◌<◌, List, Option, none, some}
use risu.Prelude.Outcome.{Always, Always-bind, Always-if}
use risu.Risu.Op.{
  RisuOp, op_sigill, op_compare, op_testend, op_setmemblock, op_getmemblock, op_comparemem,
  op_setupbegin, op_setupend, op_other, RisuResult, is_ok,
}
use risu.Risu.Header.{Platform, header_bytes, sizeof_header, header_host_to_arch}
use risu.Risu.Arch.{Arch}
use risu.Risu.State.{State, count_illegal, increment, skips, write_buffer}
use risu.Risu.Master.{
  prepare_record, write_extra, write_header, write_record, master_effect, send_record,
  send_register_info,
}
use risu.Risu.Sound.{Sound, Sound-counted, write_buffer-Sound}
use risu.Risu.Sound.Receiving.{KeptContext}

module _ (a : Arch) (p : Platform) (fuel : ℕ) where
  prepare_record-Sound :
      (n : ℕ) (op : RisuOp) (uc : a.Ucontext) (st : State a)
      → Sound n st
      → Always (λ r. Sound n r.1) (prepare_record a p fuel op uc st)
  unfolding prepare_record Sound
  prepare_record-Sound n op_compare uc st h = h
  prepare_record-Sound n op_testend uc st h = h
  prepare_record-Sound n op_sigill uc st h = h
  prepare_record-Sound n op_comparemem uc st h = h
  prepare_record-Sound n op_setmemblock uc st h = h
  prepare_record-Sound n op_getmemblock uc st h = h
  prepare_record-Sound n op_setupbegin uc st h = h
  prepare_record-Sound n op_setupend uc st h = h
  prepare_record-Sound n (op_other w) uc st h = tt

  write_extra-Sound :
      (n : ℕ) (extra : Option (List ℕ)) (st : State a)
      → Sound n st
      → Always (λ r. Sound n r.1) (write_extra a p fuel extra st)
  unfolding write_extra
  write_extra-Sound n none st h = h
  write_extra-Sound n (some extra) st h = write_buffer-Sound a p fuel n extra st.header.size st h

  write_record-Sound :
      (n : ℕ) (extra : Option (List ℕ)) (st : State a)
      → Sound n st
      → Always (λ r. Sound n r.1) (write_record a p fuel extra st)
  unfolding write_record write_header Sound
  write_record-Sound n extra st h =
      let P : RisuResult × State a → Type 0 = λ r. Sound n r.1 in
      let st1 = record st { header = header_host_to_arch p st.header } in
      let bytes = header_bytes p.host_little_endian st1.header in
      Always-bind P P (write_buffer a p fuel bytes sizeof_header st1) _
        (write_buffer-Sound a p fuel n bytes sizeof_header st1 h)
        (λ r k. Always-if P (is_ok r.0) _ _ (λ e. write_extra-Sound n extra r.1 k) (λ e. k))

  master_effect-Sound :
      (n : ℕ) (op : RisuOp) (uc : a.Ucontext) (st : State a)
      → Sound n st
      → Always (KeptContext a p fuel n) (master_effect a p fuel op uc st)
  unfolding master_effect Sound
  master_effect-Sound n op_compare uc st h = h
  master_effect-Sound n op_testend uc st h = h
  master_effect-Sound n op_sigill uc st h = h
  master_effect-Sound n op_comparemem uc st h = h
  master_effect-Sound n op_setmemblock uc st h = h
  master_effect-Sound n op_getmemblock uc st h = h
  master_effect-Sound n op_setupbegin uc st h = h
  master_effect-Sound n op_setupend uc st h = h
  master_effect-Sound n (op_other w) uc st h = tt

  send_record-Sound :
      (n : ℕ) (op : RisuOp) (uc : a.Ucontext) (st : State a)
      → Sound n st
      → Always (KeptContext a p fuel n) (send_record a p fuel op uc st)
  unfolding send_record
  send_record-Sound n op uc st h =
      Always-bind (λ r. Sound n r.1) (KeptContext a p fuel n) _ _
        (prepare_record-Sound n op uc st h)
        (λ r k.
          Always-bind (λ r. Sound n r.1) (KeptContext a p fuel n) _ _
            (write_record-Sound n r.0 r.1 k)
            (λ s l.
              Always-if (KeptContext a p fuel n) (is_ok s.0) _ _
                (λ e. master_effect-Sound n op uc s.1 l) (λ e. l)))

  pub send_register_info-Sound :
      (n siaddr : ℕ) (uc : a.Ucontext) (st : State a)
      → n + 1 < 2 ^ 64
      → Sound n st
      → Always (KeptContext a p fuel (n + 1)) (
          send_register_info a p fuel uc siaddr
            (record st { signal_count = increment st.signal_count }))
  unfolding send_register_info Sound
  send_register_info-Sound n siaddr uc st lt h =
      let ri = a.reginfo_init uc siaddr in
      let op = a.get_risuop ri in
      let st1 = record st { ri_master = ri } in
      let k = Sound-counted op n st1 h lt in
      Always-if (KeptContext a p fuel (n + 1))
        (skips op (count_illegal op (record st1 { signal_count = increment st1.signal_count }))) _ _
        (λ e. k) (λ e. send_record-Sound (n + 1) op uc _ k)
