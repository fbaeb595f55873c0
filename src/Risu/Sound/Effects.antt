-- ===== src/Risu/Sound/Effects.antt =====
-- risu.c: what the apprentice does once it has a record keeps all that does not depend on its own
-- registers, its memory block and the setup flag.
use risu.Prelude.{ℕ, Bool, true, false, Option, none, some, ◌==◌}
use risu.Prelude.Outcome.{Outcome, Always, Always-if, if_both}
use risu.Risu.Op.{
  RisuOp, op_sigill, op_compare, op_testend, op_setmemblock, op_getmemblock, op_comparemem,
  op_setupbegin, op_setupend, op_other, op_code, RisuResult,
}
use risu.Risu.Header.{Platform}
use risu.Risu.Arch.{Arch}
use risu.Risu.State.{State}
use risu.Risu.Apprentice.{
  after_match, match_op, after_compare, compare_registers, same_op, compare_memory,
  apprentice_effect,
}

module _ (a : Arch) (p : Platform) (fuel : ℕ) (Q : State a → Type 0)
    (keep_ri : (st : State a) (ri : a.Reginfo) → Q st → Q (record st { ri_apprentice = ri }))
    (keep_block : (st : State a) (m : ℕ)
      → Q st
      → Q (record st { arch_memblock = m; memblock = a.get_arch_memory m }))
    (keep_setup : (st : State a) (b : Bool) → Q st → Q (record st { is_setup = b })) where
  abbrev pub KeptContext : RisuResult × a.Ucontext × State a → Type 0
  KeptContext (r, uc, st) = Q st

  after_match-Kept :
      (op : RisuOp) (uc : a.Ucontext) (st : State a)
      → Q st
      → KeptContext (after_match a p fuel op uc st)
  unfolding after_match
  after_match-Kept op_testend uc st h = h
  after_match-Kept op_sigill uc st h = h
  after_match-Kept op_compare uc st h = h
  after_match-Kept op_setmemblock uc st h = h
  after_match-Kept op_getmemblock uc st h = h
  after_match-Kept op_comparemem uc st h = h
  after_match-Kept op_setupbegin uc st h = h
  after_match-Kept op_setupend uc st h = h
  after_match-Kept (op_other w) uc st h = h

  match_op-Kept :
      (op : RisuOp) (uc : a.Ucontext) (st : State a)
      → Q st
      → KeptContext (match_op a p fuel op uc st)
  unfolding match_op
  match_op-Kept op uc st h =
      if_both KeptContext (op_code op == st.header.risu_op) _ _ (after_match-Kept op uc st h) h

  after_compare-Kept :
      (op : RisuOp) (uc : a.Ucontext) (st : State a) (r : Bool × a.Reginfo)
      → Q st
      → KeptContext (after_compare a p fuel op uc st r)
  unfolding after_compare
  after_compare-Kept op uc st (true, ri) h =
      match_op-Kept op uc (record st { ri_apprentice = ri }) (keep_ri st ri h)
  after_compare-Kept op uc st (false, ri) h = keep_ri st ri h

  compare_registers-Kept :
      (op : RisuOp) (uc : a.Ucontext) (st : State a)
      → Q st
      → KeptContext (compare_registers a p fuel op uc st)
  unfolding compare_registers
  compare_registers-Kept op uc st h = if_both KeptContext _ _ _ h (
      if_both KeptContext st.is_setup _ _ (match_op-Kept op uc st h) (
        after_compare-Kept op uc st (a.reginfo_is_eq st.signal_count st.ri_master st.ri_apprentice)
          h))

  same_op-Kept :
      (op : RisuOp) (uc : a.Ucontext) (st : State a)
      (next : Outcome (RisuResult × a.Ucontext × State a))
      → Q st
      → Always KeptContext next
      → Always KeptContext (same_op a p fuel op uc st next)
  unfolding same_op
  same_op-Kept op uc st next h k =
      Always-if KeptContext (op_code op == st.header.risu_op) _ _ (λ e. k) (λ e. h)

  compare_memory-Kept :
      (m : Option ℕ) (uc : a.Ucontext) (st : State a)
      → Q st
      → Always KeptContext (compare_memory a p fuel m uc st)
  unfolding compare_memory
  compare_memory-Kept none uc st h = tt
  compare_memory-Kept (some m) uc st h = h

  pub apprentice_effect-Kept :
      (op : RisuOp) (uc : a.Ucontext) (st : State a)
      → Q st
      → Always KeptContext (apprentice_effect a p fuel op uc st)
  unfolding apprentice_effect
  apprentice_effect-Kept op_compare uc st h = compare_registers-Kept op_compare uc st h
  apprentice_effect-Kept op_testend uc st h = compare_registers-Kept op_testend uc st h
  apprentice_effect-Kept op_sigill uc st h = compare_registers-Kept op_sigill uc st h
  apprentice_effect-Kept op_setmemblock uc st h =
      same_op-Kept op_setmemblock uc st _ h
        (keep_block st (a.get_reginfo_paramreg st.ri_apprentice) h)
  apprentice_effect-Kept op_getmemblock uc st h = same_op-Kept op_getmemblock uc st _ h h
  apprentice_effect-Kept op_comparemem uc st h =
      same_op-Kept op_comparemem uc st _ h (compare_memory-Kept st.memblock uc st h)
  apprentice_effect-Kept op_setupbegin uc st h =
      same_op-Kept op_setupbegin uc st _ h (keep_setup st true h)
  apprentice_effect-Kept op_setupend uc st h =
      same_op-Kept op_setupend uc st _ h (keep_setup st false h)
  apprentice_effect-Kept (op_other w) uc st h = tt
