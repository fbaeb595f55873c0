-- ===== src/Risu/Trace/Matching.antt =====
-- risu.c: a comparison of what both ends took from the same context finds no difference.
use mathlib.Core.Option
use risu.Prelude.{
  ℕ, ◌≡◌, refl, sym, ap, ◌∙◌, true, false, List, [], ◌∷◌, Option, none, some, arith, if_true,
  if_false, ==_iff, Bool-cases, inl, inr, not, if◌then◌else◌,
}
use risu.Prelude.Outcome.{done}
use risu.Risu.Op.{RisuOp, op_sigill, op_compare, op_testend, op_code, res_ok, res_mismatch_mem}
use risu.Risu.Header.{Platform}
use risu.Risu.Arch.{Arch}
use risu.Risu.State.{State}
use risu.Risu.Apprentice.{
  differ, has_registers, after_match, match_op, after_compare, compare_registers, compare_memory,
}
use risu.Risu.Lawful.{IsRepeatable}
use risu.Risu.Trace.Records.{extra_bytes}
use risu.Risu.Trace.Transfer.{with_registers}
use risu.Risu.Trace.Verdict.{expected}

differ_self : (xs : List ℕ) → differ xs xs ≡ false
unfolding differ
differ_self [] = refl
differ_self (x ∷ xs) = ground (arith, differ_self xs)

module _ (a : Arch) (p : Platform) (fuel : ℕ) where
  known_operation :
      (op : RisuOp) → with_registers op ≡ true → has_registers a p fuel (op_code op) ≡ true
  unfolding has_registers
  known_operation op_compare h = refl
  known_operation op_testend h = refl
  known_operation op_sigill h = refl
  known_operation _ h = cc

  after_match_self :
      IsRepeatable a
      → (op : RisuOp) (uc : a.Ucontext) (siaddr : ℕ) (st : State a) → with_registers op ≡ true
      → st.ri_master ≡ a.reginfo_init uc siaddr
      → after_match a p fuel op uc st ≡ (expected op, uc, st)
  unfolding after_match
  after_match_self rep op_compare uc siaddr st h e =
      ap (λ u. (res_ok, u, st)) (ap (λ r. a.reginfo_update r uc) e ∙ rep.update_self uc siaddr)
  after_match_self rep op_testend uc siaddr st h e = refl
  after_match_self rep op_sigill uc siaddr st h e = refl
  after_match_self rep _ uc siaddr st h e = cc

  -- Registers that both ends took from the same context are found equal.
  pub compare_registers_self :
      IsRepeatable a
      → (op : RisuOp) (uc : a.Ucontext) (siaddr : ℕ) (st : State a) → st.header.risu_op ≡ op_code op
      → with_registers op ≡ true
      → st.ri_master ≡ a.reginfo_init uc siaddr
      → st.ri_apprentice ≡ a.reginfo_init uc siaddr
      → compare_registers a p fuel op uc st ≡ (expected op, uc, st)
  unfolding compare_registers match_op
  compare_registers_self rep op uc siaddr st k h e f =
      if_false _ _ _ (ap not (ap (has_registers a p fuel) k ∙ known_operation op h))
      ∙ elim (Bool-cases st.is_setup) [
        | inl x ↦ if_true _ _ _ x
        | inr x ↦ if_false _ _ _ x ∙ ap (after_compare a p fuel op uc st) same
      ]
      ∙ if_true _ _ _ ((==_iff _ _).1 (sym k))
      ∙ after_match_self rep op uc siaddr st h e
    where
      same :
          a.reginfo_is_eq st.signal_count st.ri_master st.ri_apprentice ≡ (true, st.ri_apprentice)
      same =
          ap (λ r. a.reginfo_is_eq st.signal_count r st.ri_apprentice) (e ∙ sym f) ∙ rep.eq_self _ _

  pub compare_memory_self :
      (o : Option ℕ) (k : ℕ) (uc : a.Ucontext) (st : State a)
      → o ≡ some k
      → st.other_memblock ≡ extra_bytes (Option.map (a.memory uc) o)
      → compare_memory a p fuel o uc st ≡ done (res_ok, uc, st)
  unfolding compare_memory
  compare_memory_self none k uc st h e = cc
  compare_memory_self (some x) k uc st h e =
      ap (λ b. done (if b then res_mismatch_mem else res_ok, uc, st))
        (ap (differ (a.memory uc x)) e ∙ differ_self (a.memory uc x))
