-- ===== src/Risu/Trace.antt =====
-- risu.c: `read_buffer` and `write_buffer` on a trace file, which takes and delivers all bytes.
pub mod Records
pub mod Transfer
pub mod Verdict
pub mod Synced
pub mod Matching
pub mod Replay
pub mod Stops
pub mod Handlers
pub mod Runs
pub mod Swapped
use mathlib.Core.Path.{ap₂}
use risu.Prelude.{
  ℕ, ◌≡◌, sym, ap, ◌∙◌, true, List, [], ◌++◌, some, arith, if◌then◌else◌, ==_iff, if_true, if_false,
  not_ltb_self, length, take, drop, take_all, take-append_left, drop-append_left,
}
use risu.Prelude.Outcome.{done}
use risu.Comms.{Descriptor, sys_read, sys_write}
use risu.Risu.Op.{RisuResult, res_ok, res_bad_io}
use risu.Risu.Header.{Platform}
use risu.Risu.Arch.{Arch}
use risu.Risu.State.{State, read_trace, write_trace, read_buffer, write_buffer, respond}

-- The program reads and writes a trace file, and no call is disturbed.
pub record IsTracing {a : Arch} (st : State a) : Type 0 where
  pub trace_eq : st.trace ≡ true
  pub reads_eq : st.comm.reads ≡ []
  pub writes_eq : st.comm.writes ≡ []

-- The descriptor after `bytes` were written, and with `rest` left to read.
abbrev pub wrote : List ℕ → Descriptor → Descriptor
wrote bytes d = record d { sent = d.sent ++ bytes; writes = [] }

abbrev pub left : List ℕ → Descriptor → Descriptor
left rest d = record d { incoming = rest; reads = [] }

sys_write_trace :
    (bytes : List ℕ) (d : Descriptor)
    → d.writes ≡ []
    → sys_write bytes d ≡ (some (length bytes), wrote bytes d)
unfolding sys_write
sys_write_trace bytes d h = rw (h, sys_write)

sys_read_trace :
    (bytes rest : List ℕ) (d : Descriptor)
    → d.reads ≡ []
    → d.incoming ≡ bytes ++ rest
    → sys_read (length bytes) d ≡ (some bytes, left rest d)
unfolding sys_read
sys_read_trace bytes rest d h e =
    rw (h, sys_read)
      (ap (λ xs. (some (take (length bytes) xs), left (drop (length bytes) xs) d)) e
        ∙ ap₂ (λ xs ys. (some xs, left ys d)) (take-append_left bytes rest)
            (drop-append_left bytes rest))

module _ (a : Arch) (p : Platform) (fuel : ℕ) where
  pub write_buffer_trace :
      (bytes : List ℕ) (n : ℕ) (st : State a)
      → IsTracing st
      → length bytes ≡ n
      → write_buffer a p fuel bytes n st ≡ done (res_ok, record st { comm = wrote bytes st.comm })
  unfolding write_buffer
  write_buffer_trace bytes n st t e =
      if_false _ _ _ (not_ltb_self (length bytes) n e)
      ∙ if_true _ _ _ t.trace_eq
      ∙ ap (λ xs. done (write_trace a p fuel n (sys_write xs st.comm) st))
          (take_all n bytes (omega arith))
      ∙ ap (λ r. done (write_trace a p fuel n r st)) (sys_write_trace bytes st.comm t.writes_eq)
      ∙ ap (λ b. done (if b then res_ok else res_bad_io, record st { comm = wrote bytes st.comm }))
          ((==_iff (length bytes) n).1 e)

  pub read_buffer_trace :
      (bytes rest : List ℕ) (n : ℕ) (st : State a)
      → IsTracing st
      → length bytes ≡ n
      → st.comm.incoming ≡ bytes ++ rest
      → read_buffer a p fuel n st ≡ done (res_ok, bytes, record st { comm = left rest st.comm })
  unfolding read_buffer
  read_buffer_trace bytes rest n st t e h =
      if_true _ _ _ t.trace_eq
      ∙ ap (λ k. done (read_trace a p fuel n (sys_read k st.comm) st)) (sym e)
      ∙ ap (λ r. done (read_trace a p fuel n r st)) (sys_read_trace bytes rest st.comm t.reads_eq h)
      ∙ ap
          (λ b.
            done (if b then res_ok else res_bad_io, bytes, record st { comm = left rest st.comm }))
          ((==_iff (length bytes) n).1 e)

  pub respond_trace :
      (r : RisuResult) (st : State a) → IsTracing st → respond a p fuel r st ≡ done st
  unfolding respond
  respond_trace r st t = if_true _ _ _ t.trace_eq
