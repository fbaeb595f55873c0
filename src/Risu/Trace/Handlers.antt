-- ===== src/Risu/Trace/Handlers.antt =====
-- risu.c: one stop of the tested code, in the master's handler and in the apprentice's.
use risu.Prelude.{ℕ, ◌≡◌, refl, sym, ap, ◌∙◌, Bool, true, false, List, [], ◌++◌, if◌then◌else◌}
use mathlib.Core.List.{append-nil}
use risu.Prelude.Outcome.{Outcome, done, ◌>>=◌, bind_done}
use risu.Risu.Op.{RisuOp, RisuResult, res_ok, res_sigbus}
use risu.Risu.Header.{Platform}
use risu.Risu.Header.Laws.{swaps}
use risu.Risu.Arch.{Arch}
use risu.Risu.State.{State, skips}
use risu.Risu.Master.{
  Signal, sigill, sigbus, Handled, resumes, send_record, send_register_info, leave_handler,
  master_sigill,
}
use risu.Risu.Apprentice.{
  compare_record, finish_compare, recv_and_compare_register_info, apprentice_sigill,
}
use risu.Risu.Lawful.{IsLawful, IsRepeatable}
use risu.Risu.Trace.{respond_trace}
use risu.Risu.Trace.Transfer.{IsReady, record_of, send_record_trace, recv_record_trace}
use risu.Risu.Trace.Synced.{Synced}
use risu.Risu.Trace.Replay.{Agree, agree}
use risu.Risu.Trace.Stops.{
  Paired, both_resume, both_jump, asked, master_begun, apprentice_begun, ReadyAt, record_at,
  Synced-counted, Synced-signal_pc, skips_eq,
}

module _ (a : Arch) (p : Platform) (fuel : ℕ) where
  -- Both outcomes are those of handlers that end alike.
  abbrev pub Alike :
      List ℕ → List ℕ → State a → State a → Outcome (Handled a) → Outcome (Handled a) → Type 0
  Alike sent rest m n o q =
      (h : Handled a) × (k : Handled a) × (o ≡ done h) × (q ≡ done k) × Paired sent rest m n h k

  leave_both :
      (sent rest : List ℕ) (m n : State a) (siaddr : ℕ) (r : RisuResult) (uc : a.Ucontext)
      (m' n' : State a)
      → Synced m' n'
      → m'.comm.sent ≡ m.comm.sent ++ sent
      → n'.comm.incoming ≡ rest
      → Alike sent rest m n
          (leave_handler a p fuel siaddr (r, uc, m'))
          (leave_handler a p fuel siaddr (r, uc, n'))
  unfolding leave_handler
  leave_both sent rest m n siaddr res_ok uc m' n' s x y =
      (_, _, refl, refl, both_resume (a.advance_pc uc) m' n' s x y)
  leave_both sent rest m n siaddr r uc m' n' s x y =
      (_, _, refl, refl, both_jump r _ _ (Synced-signal_pc a m' n' _ _ s) x y)

  compare_record_agrees :
      (w : IsLawful a)
      → (op : RisuOp) (uc : a.Ucontext) (m n : State a) (rest : List ℕ) → IsReady a op m
      → Synced m n
      → (g : Agree a p fuel w op uc m n rest) → n.comm.incoming ≡ record_of a p op uc m ++ rest
      → compare_record a p fuel op uc n ≡ done (g.result, g.context, g.n')
  unfolding compare_record finish_compare
  compare_record_agrees w op uc m n rest r s g i =
      bind_done _ _ _
        (recv_record_trace a w p fuel op uc m n rest r s.apprentice_tracing s.block_length i)
      ∙ bind_done _ _ _ g.apprentice_eq
      ∙ bind_done _ _ _ (respond_trace a p fuel _ g.n' g.synced.apprentice_tracing)

  -- A stop at an illegal instruction of an operation that is not skipped.
  exchange :
      IsLawful a
      → IsRepeatable a
      → swaps p.macro_little_endian p.arch_big_endian ≡ false
      → (siaddr : ℕ) (uc : a.Ucontext) (m n : State a) (rest : List ℕ) → (s : Synced m n)
      → IsReady a (asked a siaddr uc) (master_begun a siaddr uc m)
      → n.comm.incoming ≡ record_of a p (asked a siaddr uc) uc (master_begun a siaddr uc m) ++ rest
      → Alike
          (record_of a p (asked a siaddr uc) uc (master_begun a siaddr uc m))
          rest
          m
          n
          (send_record a p fuel (asked a siaddr uc) uc (master_begun a siaddr uc m)
            >>= leave_handler a p fuel siaddr)
          (compare_record a p fuel (asked a siaddr uc) uc (apprentice_begun a siaddr uc n)
            >>= leave_handler a p fuel siaddr)
  exchange w rep keeps siaddr uc m n rest s r i =
      let op = asked a siaddr uc in
      let mb = master_begun a siaddr uc m in
      let nb = apprentice_begun a siaddr uc n in
      let sb = Synced-counted a m n _ _ _ _ _ _ s in
      let g = agree a p fuel w rep op uc siaddr mb nb rest r sb refl refl in
      let (h, k, x, y, z) =
        leave_both (record_of a p op uc mb) rest m n siaddr g.result g.context g.m' g.n' g.synced
          (ap (λ d. d.sent) g.sent_eq) (ap (λ d. d.incoming) g.left_eq) in
      (
        h,
        k,
        bind_done _ _ _
              (send_record_trace a w p fuel op uc mb keeps sb.master_tracing r ∙ g.master_eq)
            ∙ x,
        bind_done _ _ _ (compare_record_agrees w op uc mb nb rest r sb g i) ∙ y,
        z,
      )

  skip_both :
      (siaddr : ℕ) (uc : a.Ucontext) (m n : State a) (rest : List ℕ)
      → Synced m n
      → n.comm.incoming ≡ rest
      → Alike [] rest m n
          (done (resumes (a.advance_pc uc) (master_begun a siaddr uc m)))
          (done (resumes (a.advance_pc uc) (apprentice_begun a siaddr uc n)))
  skip_both siaddr uc m n rest s i = (
    _,
    _,
    refl,
    refl,
    both_resume _ _ _ (Synced-counted a m n _ _ _ _ _ _ s) (sym (append-nil m.comm.sent)) i,
  )

  sigill-Alike :
      IsLawful a
      → IsRepeatable a
      → swaps p.macro_little_endian p.arch_big_endian ≡ false
      → (skip skip_m skip_n : Bool) → skip_m ≡ skip
      → skip_n ≡ skip
      → (siaddr : ℕ) (uc : a.Ucontext) (m n : State a) (rest : List ℕ) → Synced m n
      → IsReady a (asked a siaddr uc) (master_begun a siaddr uc m)
      → let op = asked a siaddr uc in
        let mb = master_begun a siaddr uc m in
        let nb = apprentice_begun a siaddr uc n in
        let bytes = if skip then [] else record_of a p op uc mb in
        n.comm.incoming ≡ bytes ++ rest
        → Alike bytes rest m n
            ((if skip_m then done (res_ok, uc, mb) else send_record a p fuel op uc mb)
              >>= leave_handler a p fuel siaddr)
            ((if skip_n then done (res_ok, uc, nb) else compare_record a p fuel op uc nb)
              >>= leave_handler a p fuel siaddr)
  unfolding leave_handler
  sigill-Alike w rep keeps true true true e f siaddr uc m n rest s r i =
      skip_both siaddr uc m n rest s i
  sigill-Alike w rep keeps false false false e f siaddr uc m n rest s r i =
      exchange w rep keeps siaddr uc m n rest s r i
  sigill-Alike w rep keeps true true false e f siaddr uc m n rest s r i = cc
  sigill-Alike w rep keeps true false _ e f siaddr uc m n rest s r i = cc
  sigill-Alike w rep keeps false false true e f siaddr uc m n rest s r i = cc
  sigill-Alike w rep keeps false true _ e f siaddr uc m n rest s r i = cc

  -- One stop on a trace file, a bus error or an operation that is skipped in the setup included:
  -- from states that are together, on a lawful and repeatable architecture in the host's byte
  -- order and ready for the stop, both handlers resume at the same context or both jump with the
  -- same result, and leave states that are together; the master has written the record of the
  -- stop, and the apprentice has taken just that record.
  pub handlers-Alike :
      IsLawful a
      → IsRepeatable a
      → swaps p.macro_little_endian p.arch_big_endian ≡ false
      → (sig : Signal) (siaddr : ℕ) (uc : a.Ucontext) (m n : State a) (rest : List ℕ) → Synced m n
      → ReadyAt a sig siaddr uc m
      → n.comm.incoming ≡ record_at a p sig siaddr uc m ++ rest
      → Alike
          (record_at a p sig siaddr uc m)
          rest
          m
          n
          (master_sigill a p fuel sig siaddr uc m)
          (apprentice_sigill a p fuel sig siaddr uc n)
  unfolding master_sigill apprentice_sigill send_register_info recv_and_compare_register_info
  handlers-Alike w rep keeps sigbus siaddr uc m n rest s r i =
      leave_both [] rest m n siaddr res_sigbus uc _ _ (Synced-counted a m n _ _ _ _ _ _ s)
        (sym (append-nil m.comm.sent)) i
  handlers-Alike w rep keeps sigill siaddr uc m n rest s r i =
      let op = asked a siaddr uc in
      sigill-Alike w rep keeps (skips op m) _ _ (skips_eq a op _ m refl)
        (skips_eq a op _ m (sym s.setup_eq)) siaddr uc m n rest s r i
