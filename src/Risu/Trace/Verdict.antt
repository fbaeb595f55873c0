-- ===== src/Risu/Trace/Verdict.antt =====
-- risu.c: what the apprentice answers to the record of the master's operation, on every branch.
use risu.Prelude.{
  ℕ, ◌≡◌, refl, ap, ◌∙◌, Bool, true, false, not, ◌&&◌, inl, inr, List, ◌++◌, Option, none, some,
  arith, if◌then◌else◌, ◌==◌, length, ◌+◌, ◌%◌, ◌^◌, Bool-cases,
}
use risu.Prelude.Outcome.{Outcome, done, bind_done}
use risu.Risu.Op.{
  RisuOp, op_sigill, op_compare, op_testend, op_setmemblock, op_getmemblock, op_comparemem,
  op_setupbegin, op_setupend, op_other, op_code, RisuResult, res_ok, res_end, res_mismatch_reg,
  res_mismatch_mem, res_mismatch_op,
}
use risu.Risu.Header.{Platform}
use risu.Risu.Arch.{Arch}
use risu.Risu.State.{State, memblocklen}
use risu.Risu.Apprentice.{
  differ, has_registers, compare_registers, same_op, compare_memory, apprentice_effect,
  finish_compare, compare_record,
}
use risu.Risu.Lawful.{IsLawful}
use risu.Risu.Trace.{IsTracing, left, respond_trace}
use mathlib.Core.Option
use risu.Risu.Trace.Records.{extra_bytes}
use risu.Risu.Trace.Transfer.{
  with_registers, IsReady, record_of, received, received_registers, recv_record_trace,
}

abbrev pub expected : RisuOp → RisuResult
expected op_testend = res_end
expected _ = res_ok

-- What the two ends have in common, as the apprentice should report it: outside the setup first
-- the registers count, then the operation; the memory only when both ask to compare it.
abbrev pub verdict : Bool → RisuOp → RisuOp → Bool → Bool → RisuResult
verdict setup master apprentice same_registers same_memory =
    if with_registers apprentice
    then (if not (with_registers master)
        then res_mismatch_op
        else if not setup && not same_registers
        then res_mismatch_reg
        else if op_code apprentice == op_code master
        then expected apprentice
        else res_mismatch_op)
    else (if not (op_code apprentice == op_code master)
        then res_mismatch_op
        else if op_code apprentice == op_code op_comparemem && not same_memory
        then res_mismatch_mem
        else res_ok)

module _ (a : Arch) (p : Platform) (fuel : ℕ) where
  abbrev same_registers : State a → State a → Bool
  same_registers m n = (a.reginfo_is_eq n.signal_count m.ri_master n.ri_apprentice).0

  -- The memory block at `memblock`.
  abbrev block_of : a.Ucontext → State a → List ℕ
  block_of uc st = extra_bytes (Option.map (a.memory uc) st.memblock)

  abbrev same_memory : State a → a.Ucontext → a.Ucontext → State a → Bool
  same_memory m ucm uc n = not (differ (block_of uc n) (block_of ucm m))

  -- The result of a comparison, and that nothing more is read or written.
  abbrev Answers : RisuResult → State a → Outcome (RisuResult × a.Ucontext × State a) → Type 0
  Answers r st o =
      (uc : a.Ucontext) × (st' : State a) × (o ≡ done (r, uc, st'))
      × (st'.comm ≡ st.comm)
      × (st'.trace ≡ st.trace)

  compare_registers_result :
      (op : RisuOp) (uc : a.Ucontext) (st : State a) (master : RisuOp)
      → with_registers op ≡ true
      → st.header.risu_op ≡ op_code master
      → has_registers a p fuel (op_code master) ≡ with_registers master
      → ((compare_registers a p fuel op uc st).0
          ≡ verdict st.is_setup master op
              (a.reginfo_is_eq st.signal_count st.ri_master st.ri_apprentice).0
              true)
        × ((compare_registers a p fuel op uc st).2.comm ≡ st.comm)
        × ((compare_registers a p fuel op uc st).2.trace ≡ st.trace)
  unfolding compare_registers
  compare_registers_result op_compare uc st master k e h = ground arith
  compare_registers_result op_testend uc st master k e h = ground arith
  compare_registers_result op_sigill uc st master k e h = ground arith
  compare_registers_result _ uc st master k e h = cc

  known-has_registers :
      (op : RisuOp) (st : State a)
      → IsReady a op st
      → has_registers a p fuel (op_code op) ≡ with_registers op
  unfolding has_registers
  known-has_registers (op_other w) st r = absurd r
  known-has_registers _ st r = refl

  -- Registers that were not received do not count.
  verdict_registers :
      (op master : RisuOp) (m n : State a)
      → with_registers op ≡ true
      → verdict n.is_setup master op
          (a.reginfo_is_eq n.signal_count (received_registers a master m n) n.ri_apprentice).0
          true
        ≡ verdict n.is_setup master op (same_registers m n) true
  verdict_registers op op_compare m n h = refl
  verdict_registers op op_testend m n h = refl
  verdict_registers op op_sigill m n h = refl
  verdict_registers op _ m n h = rw h refl

  registers_result :
      (op master : RisuOp) (ucm uc : a.Ucontext) (m n : State a) (rest : List ℕ)
      → IsReady a master m
      → with_registers op ≡ true
      → let st = received a master ucm m rest n in
        Answers
          (verdict n.is_setup master op (same_registers m n) true)
          st
          (done (compare_registers a p fuel op uc st))
  registers_result op master ucm uc m n rest k h =
      let st = received a master ucm m rest n in
      let (x, y, z) =
        compare_registers_result op uc st master h refl (known-has_registers master m k) in
      let c = compare_registers a p fuel op uc st in
      (c.1, c.2, ap (λ r. done (r, c.1, c.2)) (x ∙ verdict_registers op master m n h), y, z)

  compare_memory_result :
      (o : Option ℕ) (x : ℕ) (uc : a.Ucontext) (st : State a)
      → o ≡ some x
      → compare_memory a p fuel o uc st
        ≡ done (
          if not (not (differ (extra_bytes (Option.map (a.memory uc) o)) st.other_memblock))
              then res_mismatch_mem
              else res_ok,
          uc,
          st,
        )
  unfolding compare_memory
  compare_memory_result none x uc st h = cc
  compare_memory_result (some k) x uc st h = ground arith

  memory_result :
      (master : RisuOp) (ucm uc : a.Ucontext) (m n : State a) (rest : List ℕ)
      → IsReady a op_comparemem n
      → IsReady a master m
      → let st = received a master ucm m rest n in
        Answers
          (verdict n.is_setup master op_comparemem true (same_memory m ucm uc n))
          st
          (apprentice_effect a p fuel op_comparemem uc st)
  unfolding apprentice_effect
  memory_result op_comparemem ucm uc m n rest (x, h) k = (
    uc,
    received a op_comparemem ucm m rest n,
    compare_memory_result n.memblock x uc _ h,
    refl,
    refl,
  )
  memory_result (op_other w) ucm uc m n rest r k = absurd k
  memory_result master ucm uc m n rest r k = (uc, received a master ucm m rest n, refl, refl, refl)

  -- On the state that holds what was received from the master `m`.
  effect_result :
      (op master : RisuOp) (ucm uc : a.Ucontext) (m n : State a) (rest : List ℕ)
      → IsReady a op n
      → IsReady a master m
      → let st = received a master ucm m rest n in
        Answers
          (verdict n.is_setup master op (same_registers m n) (same_memory m ucm uc n))
          st
          (apprentice_effect a p fuel op uc st)
  unfolding apprentice_effect same_op compare_memory
  effect_result op_compare master ucm uc m n rest r k =
      registers_result op_compare master ucm uc m n rest k refl
  effect_result op_testend master ucm uc m n rest r k =
      registers_result op_testend master ucm uc m n rest k refl
  effect_result op_sigill master ucm uc m n rest r k =
      registers_result op_sigill master ucm uc m n rest k refl
  effect_result op_setmemblock master ucm uc m n rest r k =
      let st = received a master ucm m rest n in
      let q = a.get_reginfo_paramreg st.ri_apprentice in
      elim (Bool-cases (2 == op_code master)) [
        | inl e ↦ (
          uc,
          record st { arch_memblock = q; memblock = a.get_arch_memory q },
          ground arith,
          refl,
          refl,
        )
        | inr e ↦ (uc, st, ground arith, refl, refl)
      ]
  effect_result op_getmemblock master ucm uc m n rest r k =
      let st = received a master ucm m rest n in
      elim (Bool-cases (3 == op_code master)) [
        | inl e ↦ (
          a.set_ucontext_paramreg uc
              ((a.get_reginfo_paramreg n.ri_apprentice + n.arch_memblock) % 2 ^ 32),
          st,
          ground arith,
          refl,
          refl,
        )
        | inr e ↦ (uc, st, ground arith, refl, refl)
      ]
  effect_result op_comparemem master ucm uc m n rest r k = memory_result master ucm uc m n rest r k
  effect_result op_setupbegin master ucm uc m n rest r k =
      let st = received a master ucm m rest n in
      elim (Bool-cases (5 == op_code master)) [
        | inl e ↦ (uc, record st { is_setup = true }, ground arith, refl, refl)
        | inr e ↦ (uc, st, ground arith, refl, refl)
      ]
  effect_result op_setupend master ucm uc m n rest r k =
      let st = received a master ucm m rest n in
      elim (Bool-cases (6 == op_code master)) [
        | inl e ↦ (uc, record st { is_setup = false }, ground arith, refl, refl)
        | inr e ↦ (uc, st, ground arith, refl, refl)
      ]
  effect_result (op_other w) master ucm uc m n rest r k = absurd r

  -- What the apprentice answers, on every branch, to a record that the master wrote for any
  -- operation, when its own code asks for any operation: it takes the record from the trace and
  -- nothing behind it, and its result is the one that the table `verdict` gives for the two
  -- operations, the setup flag and the equality of registers and memory. Both ends must be ready,
  -- and the apprentice reads an undisturbed trace file of a lawful architecture.
  pub compare_record-verdict :
      IsLawful a
      → (master op : RisuOp) (ucm uc : a.Ucontext) (m n : State a) (rest : List ℕ)
      → IsReady a master m
      → IsReady a op n
      → IsTracing n
      → length n.other_memblock ≡ memblocklen
      → n.comm.incoming ≡ record_of a p master ucm m ++ rest
      → (uc' : a.Ucontext) × (n' : State a) × (compare_record a p fuel op uc n
          ≡ done
              (verdict n.is_setup master op (same_registers m n) (same_memory m ucm uc n), uc', n'))
        × (n'.comm ≡ left rest n.comm)
  unfolding compare_record finish_compare
  compare_record-verdict w master op ucm uc m n rest rm ra t o e =
      let (uc', n', x, y, z) = effect_result op master ucm uc m n rest ra rm in
      let t' : IsTracing n' = record {
        trace_eq = z ∙ t.trace_eq;
        reads_eq = ap (λ d. d.reads) y;
        writes_eq = ap (λ d. d.writes) y ∙ t.writes_eq;
      } in
      (
        uc',
        n',
        bind_done _ _ _ (recv_record_trace a w p fuel master ucm m n rest rm t o e)
            ∙ bind_done _ _ _ x
            ∙ bind_done _ _ _ (respond_trace a p fuel _ n' t'),
        y,
      )
