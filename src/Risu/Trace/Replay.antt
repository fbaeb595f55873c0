-- ===== src/Risu/Trace/Replay.antt =====
-- risu.c: an apprentice that runs the code of the master's trace on an equal machine follows it.
use mathlib.Core.Option
use risu.Prelude.{ℕ, ◌≡◌, refl, sym, ap, ◌∙◌, Bool, true, false, List, ◌+◌, ◌%◌, ◌^◌}
use risu.Prelude.Outcome.{done}
use risu.Risu.Op.{
  RisuOp, op_sigill, op_compare, op_testend, op_setmemblock, op_getmemblock, op_comparemem,
  op_setupbegin, op_setupend, op_other, RisuResult, res_ok, res_end,
}
use risu.Risu.Header.{Platform}
use risu.Risu.Arch.{Arch}
use risu.Risu.State.{State}
use risu.Risu.Master.{master_effect}
use risu.Risu.Apprentice.{same_op, compare_memory, apprentice_effect}
use risu.Risu.Lawful.{IsLawful, IsRepeatable}
use risu.Risu.Trace.Records.{extra_bytes}
use risu.Risu.Trace.{wrote, left}
use risu.Risu.Trace.Transfer.{IsReady, record_of, written, received, with_registers}
use risu.Risu.Trace.Synced.{Synced, Synced-setup, Synced-memblock, Synced-exchanged}
use risu.Risu.Trace.Matching.{compare_registers_self, compare_memory_self}

module _ (a : Arch) (p : Platform) (fuel : ℕ) (w : IsLawful a) where
  -- Both ends take the effect of one operation alike.
  pub record Agree (op : RisuOp) (uc : a.Ucontext) (m n : State a) (rest : List ℕ) : Type 0 where
    pub result : RisuResult
    pub context : a.Ucontext
    pub m' : State a
    pub n' : State a
    pub master_eq : master_effect a p fuel op uc (written a p op uc m) ≡ done (result, context, m')
    pub apprentice_eq :
        apprentice_effect a p fuel op uc (received a op uc m rest n) ≡ done (result, context, n')
    pub synced : Synced m' n'
    pub sent_eq : m'.comm ≡ wrote (record_of a p op uc m) m.comm
    pub left_eq : n'.comm ≡ left rest n.comm

  -- An operation that changes no more than the exchange of its record does.
  Agree-unchanged :
      (op : RisuOp) (uc : a.Ucontext) (m n : State a) (rest : List ℕ) (result : RisuResult)
      (context : a.Ucontext)
      → Synced m n
      → IsReady a op m
      → master_effect a p fuel op uc (written a p op uc m)
        ≡ done (result, context, written a p op uc m)
      → apprentice_effect a p fuel op uc (received a op uc m rest n)
        ≡ done (result, context, received a op uc m rest n)
      → Agree op uc m n rest
  Agree-unchanged op uc m n rest result context s r e f = record {
    result = result;
    context = context;
    m' = written a p op uc m;
    n' = received a op uc m rest n;
    master_eq = e;
    apprentice_eq = f;
    synced = Synced-exchanged a p w op uc m n rest r s;
    sent_eq = refl;
    left_eq = refl;
  }

  -- An operation after which the registers are compared.
  Agree-registers :
      IsRepeatable a
      → (op : RisuOp) (uc : a.Ucontext) (siaddr : ℕ) (m n : State a) (rest : List ℕ)
      → with_registers op ≡ true
      → Synced m n
      → IsReady a op m
      → m.ri_master ≡ a.reginfo_init uc siaddr
      → n.ri_apprentice ≡ a.reginfo_init uc siaddr
      → Agree op uc m n rest
  unfolding master_effect apprentice_effect same_op
  Agree-registers rep op_compare uc siaddr m n rest h s r e f =
      Agree-unchanged op_compare uc m n rest res_ok uc s r refl
        (ap done (compare_registers_self a p fuel rep op_compare uc siaddr _ refl refl e f))
  Agree-registers rep op_testend uc siaddr m n rest h s r e f =
      Agree-unchanged op_testend uc m n rest res_end uc s r refl
        (ap done (compare_registers_self a p fuel rep op_testend uc siaddr _ refl refl e f))
  Agree-registers rep op_sigill uc siaddr m n rest h s r e f =
      Agree-unchanged op_sigill uc m n rest res_ok uc s r refl
        (ap done (compare_registers_self a p fuel rep op_sigill uc siaddr _ refl refl e f))
  Agree-registers rep _ uc siaddr m n rest h s r e f = cc

  -- OP_SETMEMBLOCK: both ends find the block by the same parameter.
  Agree-setmemblock :
      (uc : a.Ucontext) (m n : State a) (rest : List ℕ)
      → Synced m n
      → IsReady a op_setmemblock m
      → m.ri_master ≡ n.ri_apprentice
      → Agree op_setmemblock uc m n rest
  unfolding master_effect apprentice_effect same_op
  Agree-setmemblock uc m n rest s r e =
      let block : ℕ → State a → State a =
        λ x st. record st { arch_memblock = x; memblock = a.get_arch_memory x } in
      record {
        result = res_ok;
        context = uc;
        m' = block (a.get_reginfo_paramreg m.ri_master) (written a p op_setmemblock uc m);
        n' = block (a.get_reginfo_paramreg n.ri_apprentice) (received a op_setmemblock uc m rest n);
        master_eq = refl;
        apprentice_eq = refl;
        synced =
            Synced-memblock (ap a.get_reginfo_paramreg e)
              (Synced-exchanged a p w op_setmemblock uc m n rest r s);
        sent_eq = refl;
        left_eq = refl;
      }

  -- OP_GETMEMBLOCK: both ends write the same address to the parameter.
  Agree-getmemblock :
      (uc : a.Ucontext) (m n : State a) (rest : List ℕ)
      → Synced m n
      → IsReady a op_getmemblock m
      → m.ri_master ≡ n.ri_apprentice
      → Agree op_getmemblock uc m n rest
  unfolding master_effect apprentice_effect same_op
  Agree-getmemblock uc m n rest s r e =
      let addressed : a.Reginfo → ℕ → a.Ucontext =
        λ x k. a.set_ucontext_paramreg uc ((a.get_reginfo_paramreg x + k) % 2 ^ 32) in
      let n' : State a = received a op_getmemblock uc m rest n in
      Agree-unchanged op_getmemblock uc m n rest res_ok (addressed m.ri_master m.arch_memblock) s r
        refl
        (ap (λ x. done (res_ok, addressed x n.arch_memblock, n')) (sym e)
          ∙ ap (λ k. done (res_ok, addressed m.ri_master k, n')) (sym s.arch_memblock_eq))

  -- OP_SETUPBEGIN and OP_SETUPEND: both ends enter or leave the setup.
  Agree-setup :
      (op : RisuOp) (b : Bool) (uc : a.Ucontext) (m n : State a) (rest : List ℕ)
      → Synced m n
      → IsReady a op m
      → master_effect a p fuel op uc (written a p op uc m)
        ≡ done (res_ok, uc, record (written a p op uc m) { is_setup = b })
      → apprentice_effect a p fuel op uc (received a op uc m rest n)
        ≡ done (res_ok, uc, record (received a op uc m rest n) { is_setup = b })
      → Agree op uc m n rest
  Agree-setup op b uc m n rest s r e f = record {
    result = res_ok;
    context = uc;
    m' = record (written a p op uc m) { is_setup = b };
    n' = record (received a op uc m rest n) { is_setup = b };
    master_eq = e;
    apprentice_eq = f;
    synced = Synced-setup b (Synced-exchanged a p w op uc m n rest r s);
    sent_eq = refl;
    left_eq = refl;
  }

  -- One operation, on a context that both ends have stopped at.
  pub agree :
      IsRepeatable a
      → (op : RisuOp) (uc : a.Ucontext) (siaddr : ℕ) (m n : State a) (rest : List ℕ)
      → IsReady a op m
      → Synced m n
      → m.ri_master ≡ a.reginfo_init uc siaddr
      → n.ri_apprentice ≡ a.reginfo_init uc siaddr
      → Agree op uc m n rest
  unfolding master_effect apprentice_effect same_op compare_memory
  agree rep op_compare uc siaddr m n rest r s e f =
      Agree-registers rep op_compare uc siaddr m n rest refl s r e f
  agree rep op_testend uc siaddr m n rest r s e f =
      Agree-registers rep op_testend uc siaddr m n rest refl s r e f
  agree rep op_sigill uc siaddr m n rest r s e f =
      Agree-registers rep op_sigill uc siaddr m n rest refl s r e f
  agree rep op_comparemem uc siaddr m n rest (k, h) s e f =
      Agree-unchanged op_comparemem uc m n rest res_ok uc s (k, h) refl
        (compare_memory_self a p fuel n.memblock k uc _ (sym s.memblock_eq ∙ h)
          (ap (λ o. extra_bytes (Option.map (a.memory uc) o)) s.memblock_eq))
  agree rep op_setmemblock uc siaddr m n rest r s e f =
      Agree-setmemblock uc m n rest s r (e ∙ sym f)
  agree rep op_getmemblock uc siaddr m n rest r s e f =
      Agree-getmemblock uc m n rest s r (e ∙ sym f)
  agree rep op_setupbegin uc siaddr m n rest r s e f =
      Agree-setup op_setupbegin true uc m n rest s r refl refl
  agree rep op_setupend uc siaddr m n rest r s e f =
      Agree-setup op_setupend false uc m n rest s r refl refl
  agree rep (op_other x) uc siaddr m n rest r s e f = absurd r
