-- ===== src/Risu/Sound/Receiving.antt =====
-- risu.c: the handler of the apprentice keeps the static variables sound, on any bytes that it
-- receives.
use risu.Prelude.{ℕ, ◌∙◌, Bool, if◌then◌else◌, ◌==◌, ltb, arith}
use risu.Prelude.Outcome.{Always, Always-bind, Always-if}
use risu.Risu.Op.{
  RisuOp, op_sigill, op_compare, op_testend, op_setmemblock, op_getmemblock, op_comparemem,
  op_setupbegin, op_setupend, op_other, op_of, RisuResult, res_ok, res_end, is_ok,
}
use risu.Risu.Header.{Platform, sizeof_header, risu_magic}
use risu.Risu.Arch.{Arch}
use risu.Risu.State.{State, memblocklen, read_buffer, respond}
use risu.Risu.Apprentice.{
  recv_registers, recv_memory, recv_nothing, recv_payload, check_header, recv_register_info,
  finish_compare, compare_record,
}
use risu.Risu.Sound.Effects.{apprentice_effect-Kept}
use risu.Risu.Sound.{Sound, Read, read_buffer-Read, respond-Sound, length-overwrite}

module _ (a : Arch) (p : Platform) (fuel n : ℕ) where
  -- A result with variables that are sound, and one with a context besides.
  abbrev Kept : RisuResult × State a → Type 0
  Kept (r, st) = Sound n st

  abbrev pub KeptContext : RisuResult × a.Ucontext × State a → Type 0
  KeptContext (r, uc, st) = Sound n st

  recv_registers-Sound : (st : State a) → Sound n st → Always Kept (recv_registers a p fuel st)
  unfolding recv_registers Sound Read
  recv_registers-Sound st h =
      Always-if Kept (ltb a.sizeof_reginfo st.header.size) _ _ (λ e. h)
        (λ e.
          Always-bind (Sound n) Kept (respond a p fuel res_ok st) _
            (respond-Sound a p fuel n res_ok st h)
            (λ st1 h1.
              Always-bind (Read a p fuel n st.header.size) Kept
                (read_buffer a p fuel st.header.size st1) _
                (read_buffer-Read a p fuel n st.header.size st1 h1) (λ r k. k.1)))

  recv_memory-Sound : (st : State a) → Sound n st → Always Kept (recv_memory a p fuel st)
  unfolding recv_memory Sound Read
  recv_memory-Sound st h =
      Always-if Kept (st.header.size == memblocklen) _ _
        (λ e.
          Always-bind (Sound n) Kept (respond a p fuel res_ok st) _
            (respond-Sound a p fuel n res_ok st h)
            (λ st1 h1.
              Always-bind (Read a p fuel n memblocklen) Kept (read_buffer a p fuel memblocklen st1)
                _ (read_buffer-Read a p fuel n memblocklen st1 h1)
                (λ r k.
                  (length-overwrite r.1 r.2.other_memblock (omega arith) ∙ k.1.0, k.1.1, k.1.2))))
        (λ e. h)

  recv_payload-Sound :
      (op : RisuOp) (st : State a) → Sound n st → Always Kept (recv_payload a p fuel op st)
  unfolding recv_payload recv_nothing
  recv_payload-Sound op_compare st h = recv_registers-Sound st h
  recv_payload-Sound op_testend st h = recv_registers-Sound st h
  recv_payload-Sound op_sigill st h = recv_registers-Sound st h
  recv_payload-Sound op_comparemem st h = recv_memory-Sound st h
  recv_payload-Sound op_setmemblock st h = h
  recv_payload-Sound op_getmemblock st h = h
  recv_payload-Sound op_setupbegin st h = h
  recv_payload-Sound op_setupend st h = h
  recv_payload-Sound (op_other w) st h = h

  check_header-Sound : (st : State a) → Sound n st → Always Kept (check_header a p fuel st)
  unfolding check_header
  check_header-Sound st h =
      Always-if Kept (st.header.magic == risu_magic) _ _
        (λ e. recv_payload-Sound (op_of st.header.risu_op) st h) (λ e. h)

  recv_register_info-Sound :
      (st : State a) → Sound n st → Always Kept (recv_register_info a p fuel st)
  unfolding recv_register_info Sound Read
  recv_register_info-Sound st h =
      Always-bind (Read a p fuel n sizeof_header) Kept (read_buffer a p fuel sizeof_header st) _
        (read_buffer-Read a p fuel n sizeof_header st h)
        (λ r k. Always-if Kept (is_ok r.0) _ _ (λ e. check_header-Sound _ k.1) (λ e. k.1))

  keep_ri :
      (st : State a) (ri : a.Reginfo) → Sound n st → Sound n (record st { ri_apprentice = ri })
  unfolding Sound
  keep_ri st ri h = h

  keep_block :
      (st : State a) (m : ℕ)
      → Sound n st
      → Sound n (record st { arch_memblock = m; memblock = a.get_arch_memory m })
  unfolding Sound
  keep_block st m h = h

  keep_setup : (st : State a) (b : Bool) → Sound n st → Sound n (record st { is_setup = b })
  unfolding Sound
  keep_setup st b h = h

  finish_compare-Sound :
      (r : RisuResult × a.Ucontext × State a)
      → KeptContext r
      → Always KeptContext (finish_compare a p fuel r)
  unfolding finish_compare
  finish_compare-Sound (res, uc, st) h =
      Always-bind (Sound n) KeptContext
        (respond a p fuel (if is_ok res then res_ok else res_end) st) _
        (respond-Sound a p fuel n (if is_ok res then res_ok else res_end) st h) (λ st1 k. k)

  pub compare_record-Sound :
      (op : RisuOp) (uc : a.Ucontext) (st : State a)
      → Sound n st
      → Always KeptContext (compare_record a p fuel op uc st)
  unfolding compare_record
  compare_record-Sound op uc st h =
      Always-bind Kept KeptContext (recv_register_info a p fuel st) _
        (recv_register_info-Sound st h)
        (λ r k.
          Always-bind KeptContext KeptContext _ _
            (Always-if KeptContext (is_ok r.0) _ _
              (λ e.
                apprentice_effect-Kept a p fuel (Sound n) keep_ri keep_block keep_setup op uc r.1 k)
              (λ e. k))
            finish_compare-Sound)
