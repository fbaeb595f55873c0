-- ===== src/Risu/Trace/Runs.antt =====
-- risu.c: a whole run of the image by the master, and the apprentice's run on its trace.
use mathlib.Core.List.{append-nil, append_assoc}
use risu.Prelude.{
  ℕ, zero, suc, ◌≡◌, refl, sym, ap, subst, ◌∙◌, Bool, false, List, [], ◌++◌, Option, none, some,
}
use risu.Prelude.Outcome.{Outcome, done, hangs, ◌>>=◌}
use risu.Risu.Op.{
  RisuResult, res_ok, res_end, res_mismatch_reg, res_mismatch_mem, res_mismatch_op, res_bad_io,
  res_bad_magic, res_bad_size_header, res_bad_size_reginfo, res_bad_size_memblock,
  res_bad_size_zero, res_bad_op, res_sigbus, res_other,
}
use risu.Risu.Header.{Platform}
use risu.Risu.Header.Laws.{swaps}
use risu.Risu.Arch.{Arch}
use risu.Risu.State.{State}
use risu.Risu.Master.{Handled, resumes, master_sigill}
use risu.Risu.Apprentice.{apprentice_sigill}
use risu.Risu.Lawful.{IsLawful, IsRepeatable}
use risu.Risu.Run.{
  Stop, Ended, returned, jumped, Machine, after_handler, do_image, Report, master_report,
  apprentice_report, report_ended, master, apprentice,
}
use risu.Risu.Trace.Synced.{Synced}
use risu.Risu.Trace.Stops.{Paired, both_resume, both_jump, ReadyAt, record_at}
use risu.Risu.Trace.Handlers.{handlers-Alike}

-- Both runs end alike: what the master wrote, and what the apprentice has left to read.
pub data EndAlike {a : Arch} (sent rest : List ℕ) (m n : State a)
    : Outcome (Ended a) → Outcome (Ended a) → Type 0 where
  both_return :
      (m' n' : State a)
      → m'.comm.sent ≡ m.comm.sent ++ sent
      → n'.comm.incoming ≡ rest
      → EndAlike sent rest m n (done (returned m')) (done (returned n'))
  both_end :
      (r : RisuResult) (m' n' : State a)
      → m'.comm.sent ≡ m.comm.sent ++ sent
      → n'.comm.incoming ≡ rest
      → EndAlike sent rest m n (done (jumped r m')) (done (jumped r n'))
  both_go_on : EndAlike sent rest m n hangs hangs

module _ (a : Arch) (p : Platform) (fuel : ℕ) where
  -- What is asked of the rest of a run once a handler has come back.
  unfoldable pub ThenReady :
      (Option (Stop a) → State a → Type 0) → Machine a → Outcome (Handled a) → Type 0
  ThenReady ready machine (done (resumes uc st)) = ready (machine uc) st
  ThenReady ready machine _ = Unit {0}

  -- Every stop of the run asks for an operation of the enum, and for memory only once it is set.
  unfoldable pub AllReady : ℕ → Machine a → Option (Stop a) → State a → Type 0
  unfolding ThenReady
  AllReady rounds machine none st = Unit {0}
  AllReady zero machine (some stop) st = Unit {0}
  AllReady (suc rounds) machine (some stop) st =
      ReadyAt a stop.signal stop.siaddr stop.context st
      × ThenReady (AllReady rounds machine) machine
          (master_sigill a p fuel stop.signal stop.siaddr stop.context st)

  unfoldable pub then_trace :
      (Option (Stop a) → State a → List ℕ) → Machine a → Outcome (Handled a) → List ℕ
  then_trace trace machine (done (resumes uc st)) = trace (machine uc) st
  then_trace trace machine _ = []

  -- The trace of a run: the records of its stops.
  unfoldable pub trace_of : ℕ → Machine a → Option (Stop a) → State a → List ℕ
  unfolding then_trace
  trace_of rounds machine none st = []
  trace_of zero machine (some stop) st = []
  trace_of (suc rounds) machine (some stop) st =
      record_at a p stop.signal stop.siaddr stop.context st
      ++ then_trace (trace_of rounds machine) machine
          (master_sigill a p fuel stop.signal stop.siaddr stop.context st)

  EndAlike-append :
      (xs ys rest : List ℕ) (m n m' n' : State a) (o q : Outcome (Ended a))
      → m'.comm.sent ≡ m.comm.sent ++ xs
      → EndAlike ys rest m' n' o q
      → EndAlike (xs ++ ys) rest m n o q
  EndAlike-append xs ys rest m n m' n' _ _ e (both_return m2 n2 x y) =
      both_return m2 n2 (x ∙ ap (λ s. s ++ ys) e ∙ append_assoc m.comm.sent xs ys) y
  EndAlike-append xs ys rest m n m' n' _ _ e (both_end r m2 n2 x y) =
      both_end r m2 n2 (x ∙ ap (λ s. s ++ ys) e ∙ append_assoc m.comm.sent xs ys) y
  EndAlike-append xs ys rest m n m' n' _ _ e both_go_on = both_go_on

  -- The outcomes of two handlers that end alike, as the index of a family.
  data Both (sent rest : List ℕ) (m n : State a)
      : Outcome (Handled a) → Outcome (Handled a) → Type 0 where
    both_done : (h k : Handled a) → Paired sent rest m n h k → Both sent rest m n (done h) (done k)

  Both-of :
      (sent rest : List ℕ) (m n : State a) (o q : Outcome (Handled a)) (h k : Handled a)
      → o ≡ done h
      → q ≡ done k
      → Paired sent rest m n h k
      → Both sent rest m n o q
  Both-of sent rest m n o q h k e f z =
      subst (λ x. Both sent rest m n x q) (sym e)
        (subst (λ y. Both sent rest m n (done h) y) (sym f) (both_done h k z))

  -- The rest of the two runs, whose ends are known for any states that are together.
  module _ (machine : Machine a) (ready : Option (Stop a) → State a → Type 0)
      (trace : Option (Stop a) → State a → List ℕ)
      (f g : Option (Stop a) → State a → Outcome (Ended a))
      (follow : (start : Option (Stop a)) (m n : State a) (rest : List ℕ)
        → Synced m n
        → ready start m
        → n.comm.incoming ≡ trace start m ++ rest
        → EndAlike (trace start m) rest m n (f start m) (g start n)) where
    go_on_Paired :
        (sent rest : List ℕ) (m n : State a) (h k : Handled a)
        → Paired sent (then_trace trace machine (done h) ++ rest) m n h k
        → ThenReady ready machine (done h)
        → EndAlike
            (sent ++ then_trace trace machine (done h))
            rest
            m
            n
            (after_handler a f machine h)
            (after_handler a g machine k)
    unfolding then_trace ThenReady after_handler
    go_on_Paired sent rest m n _ _ (both_resume uc m' n' s x y) r =
        EndAlike-append sent _ rest m n m' n' _ _ x (follow (machine uc) m' n' rest s r y)
    go_on_Paired sent rest m n _ _ (both_jump res m' n' s x y) r =
        both_end res m' n' (x ∙ ap (λ t. m.comm.sent ++ t) (sym (append-nil sent))) y

    go_on :
        (sent rest : List ℕ) (m n : State a) (o q : Outcome (Handled a)) (ys : List ℕ)
        → ys ≡ then_trace trace machine o
        → Both sent (ys ++ rest) m n o q
        → ThenReady ready machine o
        → EndAlike
            (sent ++ ys)
            rest
            m
            n
            (o >>= after_handler a f machine)
            (q >>= after_handler a g machine)
    go_on sent rest m n _ _ ys e (both_done h k z) r =
        subst
          (λ t.
            EndAlike (sent ++ t) rest m n (after_handler a f machine h)
              (after_handler a g machine k))
          (sym e)
          (go_on_Paired sent rest m n h k (subst (λ t. Paired sent (t ++ rest) m n h k) e z) r)

  -- A whole run of the image on a trace file: if the machine's code is deterministic, the
  -- architecture is lawful and repeatable, its byte order needs no swap, the two states are
  -- together and every stop of the run is ready (asks for an operation of the enum, and for memory
  -- only once the block is set), then the apprentice that reads the bytes of the master's run ends
  -- as the master does: both return, both jump out with the same result, or both are still running
  -- at the bound of rounds. If they return or jump out, the master has written just those bytes,
  -- and the apprentice has left just what follows them.
  pub replay :
      IsLawful a
      → IsRepeatable a
      → swaps p.macro_little_endian p.arch_big_endian ≡ false
      → (rounds : ℕ) (machine : Machine a) (start : Option (Stop a)) (m n : State a) (rest : List ℕ)
      → Synced m n
      → AllReady rounds machine start m
      → n.comm.incoming ≡ trace_of rounds machine start m ++ rest
      → EndAlike
          (trace_of rounds machine start m)
          rest
          m
          n
          (do_image a rounds (master_sigill a p fuel) machine start m)
          (do_image a rounds (apprentice_sigill a p fuel) machine start n)
  unfolding AllReady trace_of do_image
  replay w rep keeps zero machine none m n rest s r i = both_return m n (sym (append-nil _)) i
  replay w rep keeps (suc rounds) machine none m n rest s r i =
      both_return m n (sym (append-nil _)) i
  replay w rep keeps zero machine (some stop) m n rest s r i = both_go_on
  replay w rep keeps (suc rounds) machine (some stop) m n rest s (r, t) i =
      let (h, k, x, y, z) =
        handlers-Alike a p fuel w rep keeps stop.signal stop.siaddr stop.context m n _ s r
          (i ∙ append_assoc _ _ rest) in
      go_on machine (AllReady rounds machine) (trace_of rounds machine)
        (do_image a rounds (master_sigill a p fuel) machine)
        (do_image a rounds (apprentice_sigill a p fuel) machine) (replay w rep keeps rounds machine)
        _ rest m n _ _ _ refl (Both-of _ _ m n _ _ h k x y z) t

  -- How a run ends, with its exit status if it came to its end.
  abbrev pub status : Outcome (Report × Ended a) → Outcome Bool
  status o = o >>= (λ r. done r.0.exit_success)

  reports_agree :
      (r : RisuResult) → (master_report r).exit_success ≡ (apprentice_report r).exit_success
  unfolding master_report apprentice_report
  reports_agree res_ok = refl
  reports_agree res_end = refl
  reports_agree res_mismatch_reg = refl
  reports_agree res_mismatch_mem = refl
  reports_agree res_mismatch_op = refl
  reports_agree res_bad_io = refl
  reports_agree res_bad_magic = refl
  reports_agree res_bad_size_header = refl
  reports_agree res_bad_size_reginfo = refl
  reports_agree res_bad_size_memblock = refl
  reports_agree res_bad_size_zero = refl
  reports_agree res_bad_op = refl
  reports_agree res_sigbus = refl
  reports_agree (res_other w) = refl

  status_alike :
      (sent rest : List ℕ) (m n : State a) (o q : Outcome (Ended a))
      → EndAlike sent rest m n o q
      → status (o >>= (λ e. done (report_ended a p fuel master_report e, e)))
        ≡ status (q >>= (λ e. done (report_ended a p fuel apprentice_report e, e)))
  unfolding report_ended
  status_alike sent rest m n _ _ (both_return m' n' x y) = refl
  status_alike sent rest m n _ _ (both_end r m' n' x y) = ap done (reports_agree r)
  status_alike sent rest m n _ _ both_go_on = refl

  -- Under the same conditions as for a whole run, the two programs end alike, with the same exit status.
  pub replay_status :
      IsLawful a
      → IsRepeatable a
      → swaps p.macro_little_endian p.arch_big_endian ≡ false
      → (rounds : ℕ) (machine : Machine a) (start : Option (Stop a)) (m n : State a) (rest : List ℕ)
      → Synced m n
      → AllReady rounds machine start m
      → n.comm.incoming ≡ trace_of rounds machine start m ++ rest
      → status (master a p fuel rounds machine start m)
        ≡ status (apprentice a p fuel rounds machine start n)
  unfolding master apprentice
  replay_status w rep keeps rounds machine start m n rest s r i =
      status_alike _ _ _ _ _ _ (replay w rep keeps rounds machine start m n rest s r i)
