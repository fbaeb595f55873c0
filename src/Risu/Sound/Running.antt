-- ===== src/Risu/Sound/Running.antt =====
-- risu.c: a run of the image, by either program, keeps the static variables sound.
use risu.Prelude.{ℕ, zero, suc, ◌+◌, ◌^◌, ◌<◌, Option, none, some, subst, ◌≡◌, arith}
use risu.Prelude.Outcome.{Outcome, Always, Always-bind, Always-if}
use risu.Risu.Op.{RisuResult, res_ok, res_sigbus}
use risu.Risu.Header.{Platform}
use risu.Risu.Arch.{Arch}
use risu.Risu.State.{State, count_illegal, increment, skips}
use risu.Risu.Master.{Signal, sigill, sigbus, Handled, resumes, jumps, leave_handler, master_sigill}
use risu.Risu.Apprentice.{recv_and_compare_register_info, apprentice_sigill}
use risu.Risu.Run.{Stop, Ended, returned, jumped, after_handler, do_image, master, apprentice}
use risu.Risu.Sound.{Sound, Sound-mono, Sound-signal, Sound-counted}
use risu.Risu.Sound.Receiving.{KeptContext, compare_record-Sound}
use risu.Risu.Sound.Sending.{send_register_info-Sound}

module _ (a : Arch) (p : Platform) (fuel : ℕ) where
  -- What holds of the variables after a handler, and after a run.
  abbrev HandledAll : (State a → Type 0) → Handled a → Type 0
  HandledAll P (resumes uc st) = P st
  HandledAll P (jumps r st) = P st

  unfoldable pub EndedAll : (State a → Type 0) → Ended a → Type 0
  EndedAll P (returned st) = P st
  EndedAll P (jumped r st) = P st

  leave_handler-Sound :
      (n siaddr : ℕ) (r : RisuResult × a.Ucontext × State a)
      → KeptContext a p fuel n r
      → Always (HandledAll (Sound n)) (leave_handler a p fuel siaddr r)
  unfolding leave_handler Sound
  leave_handler-Sound n siaddr (res_ok, uc, st) h = h
  leave_handler-Sound n siaddr (_, uc, st) h = h

  recv_and_compare_register_info-Sound :
      (n siaddr : ℕ) (uc : a.Ucontext) (st : State a)
      → n + 1 < 2 ^ 64
      → Sound n st
      → Always (KeptContext a p fuel (n + 1)) (
          recv_and_compare_register_info a p fuel uc siaddr
            (record st { signal_count = increment st.signal_count }))
  unfolding recv_and_compare_register_info Sound
  recv_and_compare_register_info-Sound n siaddr uc st lt h =
      let ri = a.reginfo_init uc siaddr in
      let st1 = record st { ri_apprentice = ri } in
      let k = Sound-counted (a.get_risuop ri) n st1 h lt in
      Always-if (KeptContext a p fuel (n + 1))
        (skips (a.get_risuop ri) (
          count_illegal (a.get_risuop ri)
            (record st1 { signal_count = increment st1.signal_count })))
        _ _ (λ e. k) (λ e. compare_record-Sound a p fuel (n + 1) (a.get_risuop ri) uc _ k)

  apprentice_sigill-Sound :
      (n : ℕ) (sig : Signal) (siaddr : ℕ) (uc : a.Ucontext) (st : State a)
      → n + 1 < 2 ^ 64
      → Sound n st
      → Always (HandledAll (Sound (n + 1))) (apprentice_sigill a p fuel sig siaddr uc st)
  unfolding apprentice_sigill
  apprentice_sigill-Sound n sigbus siaddr uc st lt h =
      leave_handler-Sound (n + 1) siaddr
        (res_sigbus, uc, record st { signal_count = increment st.signal_count })
        (Sound-signal n st h lt)
  apprentice_sigill-Sound n sigill siaddr uc st lt h =
      Always-bind (KeptContext a p fuel (n + 1)) (HandledAll (Sound (n + 1))) _
        (leave_handler a p fuel siaddr) (recv_and_compare_register_info-Sound n siaddr uc st lt h)
        (leave_handler-Sound (n + 1) siaddr)

  master_sigill-Sound :
      (n : ℕ) (sig : Signal) (siaddr : ℕ) (uc : a.Ucontext) (st : State a)
      → n + 1 < 2 ^ 64
      → Sound n st
      → Always (HandledAll (Sound (n + 1))) (master_sigill a p fuel sig siaddr uc st)
  unfolding master_sigill
  master_sigill-Sound n sigbus siaddr uc st lt h =
      leave_handler-Sound (n + 1) siaddr
        (res_sigbus, uc, record st { signal_count = increment st.signal_count })
        (Sound-signal n st h lt)
  master_sigill-Sound n sigill siaddr uc st lt h =
      Always-bind (KeptContext a p fuel (n + 1)) (HandledAll (Sound (n + 1))) _
        (leave_handler a p fuel siaddr) (send_register_info-Sound a p fuel n siaddr uc st lt h)
        (leave_handler-Sound (n + 1) siaddr)

  after_handler-EndedAll :
      (again : Option (Stop a) → State a → Outcome (Ended a))
      (machine : a.Ucontext → Option (Stop a)) (P Q : State a → Type 0)
      → ((start : Option (Stop a)) (st : State a) → P st → Always (EndedAll Q) (again start st))
      → ((st : State a) → P st → Q st)
      → (r : Handled a) → HandledAll P r
      → Always (EndedAll Q) (after_handler a again machine r)
  unfolding after_handler EndedAll
  after_handler-EndedAll again machine P Q h k (resumes uc st) x = h (machine uc) st x
  after_handler-EndedAll again machine P Q h k (jumps r st) x = k st x

  -- A handler that keeps the variables sound does so in a whole run.
  do_image-Sound :
      (handler : Signal → ℕ → a.Ucontext → State a → Outcome (Handled a))
      → ((n : ℕ) (sig : Signal) (siaddr : ℕ) (uc : a.Ucontext) (st : State a)
          → n + 1 < 2 ^ 64
          → Sound n st
          → Always (HandledAll (Sound (n + 1))) (handler sig siaddr uc st))
      → (rounds n : ℕ) (machine : a.Ucontext → Option (Stop a)) (start : Option (Stop a))
        (st : State a)
      → n + rounds < 2 ^ 64
      → Sound n st
      → Always (EndedAll (Sound (n + rounds))) (do_image a rounds handler machine start st)
  unfolding do_image EndedAll
  do_image-Sound handler keeps rounds n machine none st lt h =
      Sound-mono n (n + rounds) st (omega arith) h
  do_image-Sound handler keeps zero n machine (some stop) st lt h = tt
  do_image-Sound handler keeps (suc rounds) n machine (some stop) st lt h =
      let same : n + 1 + rounds ≡ n + suc rounds = omega arith in
      Always-bind (HandledAll (Sound (n + 1))) (EndedAll (Sound (n + suc rounds))) _ _
        (keeps n stop.signal stop.siaddr stop.context st (omega arith) h)
        (after_handler-EndedAll (do_image a rounds handler machine) machine (Sound (n + 1))
          (Sound (n + suc rounds))
          (λ start st1 k.
            subst (λ m. Always (EndedAll (Sound m)) (do_image a rounds handler machine start st1))
              same (do_image-Sound handler keeps rounds (n + 1) machine start st1 (omega arith) k))
          (λ st1 k. Sound-mono (n + 1) (n + suc rounds) st1 (omega arith) k))

  -- The static variables stay sound through a whole run of the apprentice, on any architecture, in
  -- either byte order, whatever the other end sends and however the calls on the descriptor are
  -- cut, interrupted or failed: if the run ends, the buffer for the other end's memory still has
  -- its MEMBLOCKLEN bytes, so that nothing was stored behind it; at most as many illegal
  -- instructions are counted as signals; and at most one signal is counted for each that was
  -- handled. It is required that this held at the start, and that the count of signals stays below
  -- 2 ^ 64.
  pub apprentice-Sound :
      (rounds n : ℕ) (machine : a.Ucontext → Option (Stop a)) (start : Option (Stop a))
      (st : State a)
      → n + rounds < 2 ^ 64
      → Sound n st
      → Always
          (λ r. EndedAll (Sound (n + rounds)) r.1)
          (apprentice a p fuel rounds machine start st)
  unfolding apprentice
  apprentice-Sound rounds n machine start st lt h =
      Always-bind (EndedAll (Sound (n + rounds))) (λ r. EndedAll (Sound (n + rounds)) r.1) _ _
        (do_image-Sound (apprentice_sigill a p fuel) apprentice_sigill-Sound rounds n machine start
          st lt h)
        (λ e k. k)

  -- The same invariant through a whole run of the master, on any architecture and any disturbance
  -- of its descriptor: the buffer for the other end's memory keeps its size, illegal instructions
  -- are at most the signals, and signals at most those that were handled, if this held at the
  -- start and the count of signals stays below 2 ^ 64.
  pub master-Sound :
      (rounds n : ℕ) (machine : a.Ucontext → Option (Stop a)) (start : Option (Stop a))
      (st : State a)
      → n + rounds < 2 ^ 64
      → Sound n st
      → Always (λ r. EndedAll (Sound (n + rounds)) r.1) (master a p fuel rounds machine start st)
  unfolding master
  master-Sound rounds n machine start st lt h =
      Always-bind (EndedAll (Sound (n + rounds))) (λ r. EndedAll (Sound (n + rounds)) r.1) _ _
        (do_image-Sound (master_sigill a p fuel) master_sigill-Sound rounds n machine start st lt h)
        (λ e k. k)
