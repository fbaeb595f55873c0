-- ===== src/Risu/Apprentice.antt =====
-- risu.c: the handler of the apprentice, which compares each stop with the master's record.
use risu.Prelude.{
  ℕ, ◌+◌, ◌%◌, ◌^◌, Bool, true, false, not, ◌&&◌, ◌||◌, List, [], ◌∷◌, Option, none, some,
  if◌then◌else◌, ◌==◌, ltb,
}
use risu.Prelude.Outcome.{Outcome, done, aborts, overruns, ◌>>=◌}
use risu.Risu.Op.{
  RisuOp, op_sigill, op_compare, op_testend, op_setmemblock, op_getmemblock, op_comparemem,
  op_setupbegin, op_setupend, op_other, op_code, op_of, RisuResult, res_ok, res_end,
  res_mismatch_reg, res_mismatch_mem, res_mismatch_op, res_bad_magic, res_bad_size_header,
  res_bad_size_reginfo, res_bad_size_memblock, res_bad_size_zero, res_bad_op, res_sigbus, is_ok,
}
use risu.Risu.Header.{Platform, risu_magic, sizeof_header, header_arch_to_host}
use risu.Risu.Arch.{Arch}
use risu.Risu.State.{
  State, memblocklen, increment, overwrite, count_illegal, skips, store_header, store_reginfo,
  read_buffer, respond,
}
use risu.Risu.Master.{Signal, sigill, sigbus, Handled, leave_handler}

-- `memcmp(x, y, n) != 0`, on objects of n bytes.
unfoldable pub differ : List ℕ → List ℕ → Bool
differ [] [] = false
differ (x ∷ xs) (y ∷ ys) = not (x == y) || differ xs ys
differ _ _ = true

module _ (a : Arch) (p : Platform) (fuel : ℕ) where
  unfoldable pub recv_registers : State a → Outcome (RisuResult × State a)
  recv_registers st0 =
      let size = st0.header.size in
      if ltb a.sizeof_reginfo size then done (res_bad_size_header, st0) else do
        st1 ← respond a p fuel res_ok st0
        (res, bytes, st2) ← read_buffer a p fuel size st1
        let ri = a.reginfo_arch_to_host (store_reginfo a p fuel bytes st2.ri_master)
        let st3 = record st2 { ri_master = ri }
        done (
          if is_ok res && not (size == a.reginfo_size ri) then res_bad_size_reginfo else res,
          st3,
        )

  unfoldable pub recv_memory : State a → Outcome (RisuResult × State a)
  recv_memory st0 =
      if st0.header.size == memblocklen
      then (do
        st1 ← respond a p fuel res_ok st0
        (res, bytes, st2) ← read_buffer a p fuel memblocklen st1
        done (res, record st2 { other_memblock = overwrite bytes st2.other_memblock }))
      else done (res_bad_size_memblock, st0)

  unfoldable pub recv_nothing : State a → Outcome (RisuResult × State a)
  recv_nothing st = done (if st.header.size == 0 then res_ok else res_bad_size_zero, st)

  -- The `switch` on the operation in the header.
  unfoldable pub recv_payload : RisuOp → State a → Outcome (RisuResult × State a)
  recv_payload op_compare st = recv_registers st
  recv_payload op_testend st = recv_registers st
  recv_payload op_sigill st = recv_registers st
  recv_payload op_comparemem st = recv_memory st
  recv_payload op_setmemblock st = recv_nothing st
  recv_payload op_getmemblock st = recv_nothing st
  recv_payload op_setupbegin st = recv_nothing st
  recv_payload op_setupend st = recv_nothing st
  recv_payload (op_other w) st = done (res_bad_op, st)

  -- The header is trusted if its magic number is right.
  unfoldable pub check_header : State a → Outcome (RisuResult × State a)
  check_header st =
      if st.header.magic == risu_magic
      then recv_payload (op_of st.header.risu_op) st
      else done (res_bad_magic, st)

  unfoldable pub recv_register_info : State a → Outcome (RisuResult × State a)
  recv_register_info st0 = do
    (res, bytes, st1) ← read_buffer a p fuel sizeof_header st0
    let raw = store_header a p fuel bytes st1.header
    if is_ok res
        then check_header (record st1 { header = header_arch_to_host raw })
        else done (res, record st1 { header = raw })

  -- The operations that come with registers.
  unfoldable pub has_registers : ℕ → Bool
  has_registers w = w == op_code op_compare || w == op_code op_testend || w == op_code op_sigill

  -- The last two branches: the operations agree, and so do the registers.
  unfoldable pub after_match : RisuOp → a.Ucontext → State a → RisuResult × a.Ucontext × State a
  after_match op_testend uc st = (res_end, uc, st)
  after_match op_sigill uc st = (res_ok, uc, st)
  after_match _ uc st = (res_ok, a.reginfo_update st.ri_master uc, st)

  unfoldable pub match_op : RisuOp → a.Ucontext → State a → RisuResult × a.Ucontext × State a
  unfolding after_match
  match_op op uc st =
      if op_code op == st.header.risu_op then after_match op uc st else (res_mismatch_op, uc, st)

  -- What `reginfo_is_eq` said, with the structure that it left.
  unfoldable pub after_compare :
      RisuOp → a.Ucontext → State a → Bool × a.Reginfo → RisuResult × a.Ucontext × State a
  unfolding match_op
  after_compare op uc st (true, ri) = match_op op uc (record st { ri_apprentice = ri })
  after_compare op uc st (false, ri) = (res_mismatch_reg, uc, record st { ri_apprentice = ri })

  -- The registers are only compared outside the setup.
  unfoldable pub compare_registers :
      RisuOp → a.Ucontext → State a → RisuResult × a.Ucontext × State a
  unfolding after_compare match_op
  compare_registers op uc st =
      if not (has_registers st.header.risu_op)
      then (res_mismatch_op, uc, st)
      else if st.is_setup
      then match_op op uc st
      else after_compare op uc st (a.reginfo_is_eq st.signal_count st.ri_master st.ri_apprentice)

  -- `if (op != header.risu_op) { res = RES_MISMATCH_OP; break; }`
  unfoldable pub same_op :
      RisuOp
      → a.Ucontext
      → State a
      → Outcome (RisuResult × a.Ucontext × State a)
      → Outcome (RisuResult × a.Ucontext × State a)
  same_op op uc st next =
      if op_code op == st.header.risu_op then next else done (res_mismatch_op, uc, st)

  unfoldable pub compare_memory :
      Option ℕ → a.Ucontext → State a → Outcome (RisuResult × a.Ucontext × State a)
  compare_memory none uc st = overruns
  compare_memory (some m) uc st =
      done (if differ (a.memory uc m) st.other_memblock then res_mismatch_mem else res_ok, uc, st)

  -- The `switch` on the apprentice's own operation.
  unfoldable pub apprentice_effect :
      RisuOp → a.Ucontext → State a → Outcome (RisuResult × a.Ucontext × State a)
  unfolding same_op compare_memory
  apprentice_effect op_compare uc st = done (compare_registers op_compare uc st)
  apprentice_effect op_testend uc st = done (compare_registers op_testend uc st)
  apprentice_effect op_sigill uc st = done (compare_registers op_sigill uc st)
  apprentice_effect op_setmemblock uc st =
      let m = a.get_reginfo_paramreg st.ri_apprentice in
      same_op op_setmemblock uc st
        (done (res_ok, uc, record st { arch_memblock = m; memblock = a.get_arch_memory m }))
  apprentice_effect op_getmemblock uc st =
      let paramreg = a.get_reginfo_paramreg st.ri_apprentice in
      same_op op_getmemblock uc st
        (done (res_ok, a.set_ucontext_paramreg uc ((paramreg + st.arch_memblock) % 2 ^ 32), st))
  apprentice_effect op_comparemem uc st =
      same_op op_comparemem uc st (compare_memory st.memblock uc st)
  apprentice_effect op_setupbegin uc st =
      same_op op_setupbegin uc st (done (res_ok, uc, record st { is_setup = true }))
  apprentice_effect op_setupend uc st =
      same_op op_setupend uc st (done (res_ok, uc, record st { is_setup = false }))
  apprentice_effect (op_other w) uc st = aborts

  -- `done:`, which answers the master, and tells it to exit on any result but RES_OK.
  unfoldable pub finish_compare :
      RisuResult × a.Ucontext × State a → Outcome (RisuResult × a.Ucontext × State a)
  finish_compare (res, uc, st) =
      respond a p fuel (if is_ok res then res_ok else res_end) st >>= (λ st'. done (res, uc, st'))

  -- What follows the count of illegal instructions.
  unfoldable pub compare_record :
      RisuOp → a.Ucontext → State a → Outcome (RisuResult × a.Ucontext × State a)
  compare_record op uc st = do
    (res, st1) ← recv_register_info st
    r ← if is_ok res then apprentice_effect op uc st1 else done (res, uc, st1)
    finish_compare r

  unfoldable pub recv_and_compare_register_info :
      a.Ucontext → ℕ → State a → Outcome (RisuResult × a.Ucontext × State a)
  recv_and_compare_register_info uc siaddr st0 =
      let ri = a.reginfo_init uc siaddr in
      let op = a.get_risuop ri in
      let st = count_illegal op (record st0 { ri_apprentice = ri }) in
      if skips op st then done (res_ok, uc, st) else compare_record op uc st

  unfoldable pub apprentice_sigill : Signal → ℕ → a.Ucontext → State a → Outcome (Handled a)
  apprentice_sigill sig siaddr uc st0 =
      let st = record st0 { signal_count = increment st0.signal_count } in
      elim sig [
        | sigbus ↦ leave_handler a p fuel siaddr (res_sigbus, uc, st)
        | sigill ↦ recv_and_compare_register_info uc siaddr st >>= leave_handler a p fuel siaddr
      ]
