-- ===== src/Risu/Sound.antt =====
-- risu.c: what the static variables keep to, whatever the other end sends and however the
-- descriptor behaves.
pub mod Effects
pub mod Receiving
pub mod Sending
pub mod Running
use risu.Prelude.{
  ℕ, ◌+◌, ◌-◌, ◌%◌, ◌^◌, ◌≤◌, ◌<◌, ◌≡◌, refl, sym, subst, Bool, true, false, not, ◌&&◌, List, [],
  ◌++◌, Option, none, some, if◌then◌else◌, ◌==◌, ==_iff, ltb, length, take, drop, length-append,
  length-drop, arith,
}
use risu.Prelude.Outcome.{Outcome, done, ◌>>=◌, Always, Always-bind, Always-any, Always-if}
use risu.Comms.{Descriptor, sys_read, sys_write, send_data_pkt, recv_data_pkt, send_response_byte}
use risu.Comms.Bounds.{AtMost, sys_read-AtMost, recv_data_pkt-AtMost}
use risu.Risu.Op.{
  RisuOp, op_sigill, op_compare, op_testend, op_setmemblock, op_getmemblock, op_comparemem,
  op_setupbegin, op_setupend, op_other, RisuResult, res_ok, is_ok,
}
use risu.Risu.Header.{Platform, header_bytes, sizeof_header}
use risu.Risu.Arch.{Arch}
use risu.Risu.State.{
  State, memblocklen, increment, overwrite, counted, count_illegal, read_trace, recv_result,
  read_buffer, write_trace, write_buffer, respond,
}

module _ {a : Arch} where
  -- The buffer for the other end's memory has its size, and of at most n signals so far at most all
  -- were illegal instructions.
  unfoldable pub Sound : ℕ → State a → Type 0
  Sound n st =
      (length st.other_memblock ≡ memblocklen)
      × (st.illegal_instructions ≤ st.signal_count)
      × (st.signal_count ≤ n)

  pub Sound-mono : (m n : ℕ) (st : State a) → m ≤ n → Sound m st → Sound n st
  unfolding Sound
  Sound-mono m n st le (b, i, s) = (b, i, omega arith)

  pub Sound-comm :
      (n : ℕ) (d : Descriptor) (st : State a) → Sound n st → Sound n (record st { comm = d })
  unfolding Sound
  Sound-comm n d st h = h

  -- One more signal, and perhaps one more illegal instruction.
  pub Sound-signal :
      (n : ℕ) (st : State a)
      → Sound n st
      → n + 1 < 2 ^ 64
      → Sound (n + 1) (record st { signal_count = increment st.signal_count })
  unfolding Sound
  Sound-signal n st (b, i, s) lt = (b, omega arith, omega arith)

  pub Sound-counted :
      (op : RisuOp) (n : ℕ) (st : State a)
      → Sound n st
      → n + 1 < 2 ^ 64
      → Sound (n + 1) (count_illegal op (record st { signal_count = increment st.signal_count }))
  unfolding Sound counted
  Sound-counted op_sigill n st (b, i, s) lt = (b, omega arith, omega arith)
  Sound-counted op_compare n st h lt = Sound-signal n st h lt
  Sound-counted op_testend n st h lt = Sound-signal n st h lt
  Sound-counted op_setmemblock n st h lt = Sound-signal n st h lt
  Sound-counted op_getmemblock n st h lt = Sound-signal n st h lt
  Sound-counted op_comparemem n st h lt = Sound-signal n st h lt
  Sound-counted op_setupbegin n st h lt = Sound-signal n st h lt
  Sound-counted op_setupend n st h lt = Sound-signal n st h lt
  Sound-counted (op_other w) n st h lt = Sound-signal n st h lt

-- Overwriting no more bytes than an object has leaves it its size.
pub length-overwrite :
    (xs old : List ℕ) → length xs ≤ length old → length (overwrite xs old) ≡ length old
length-overwrite xs old le =
    omega (arith, length-append xs (drop (length xs) old), length-drop (length xs) old)

module _ (a : Arch) (p : Platform) (fuel n : ℕ) where
  pub respond-Sound :
      (r : RisuResult) (st : State a) → Sound n st → Always (Sound n) (respond a p fuel r st)
  unfolding respond Sound
  respond-Sound r st h =
      Always-if (Sound n) st.trace _ _ (λ e. h)
        (λ e.
          Always-bind (λ x. Unit {0}) (Sound n) (send_response_byte _ st.comm) _ (Always-any _)
            (λ d x. h))

  -- What was read fits, and the variables keep to it.
  unfoldable pub Read : ℕ → RisuResult × List ℕ × State a → Type 0
  Read bytes (res, got, st) = (length got ≤ bytes) × Sound n st

  read_trace-Read :
      (bytes : ℕ) (r : Option (List ℕ) × Descriptor) (st : State a)
      → AtMost bytes r.0
      → Sound n st
      → Read bytes (read_trace a p fuel bytes r st)
  unfolding read_trace Read AtMost Sound
  read_trace-Read bytes (none, d) st le h = (omega arith, h)
  read_trace-Read bytes (some got, d) st le h = (le, h)

  recv_result-Read :
      (bytes : ℕ) (r : Option (List ℕ) × Descriptor) (st : State a)
      → AtMost bytes r.0
      → Sound n st
      → Read bytes (recv_result a p fuel r st)
  unfolding recv_result Read AtMost Sound
  recv_result-Read bytes (none, d) st le h = (omega arith, h)
  recv_result-Read bytes (some got, d) st le h = (le, h)

  pub read_buffer-Read :
      (bytes : ℕ) (st : State a) → Sound n st → Always (Read bytes) (read_buffer a p fuel bytes st)
  unfolding read_buffer
  read_buffer-Read bytes st h =
      Always-if (Read bytes) st.trace _ _
        (λ e. read_trace-Read bytes (sys_read bytes st.comm) st (sys_read-AtMost bytes st.comm) h)
        (λ e.
          Always-bind (λ r. AtMost bytes r.0) (Read bytes) (recv_data_pkt fuel bytes st.comm) _
            (recv_data_pkt-AtMost fuel bytes st.comm) (λ r le. recv_result-Read bytes r st le h))

  write_trace-Sound :
      (bytes : ℕ) (r : Option ℕ × Descriptor) (st : State a)
      → Sound n st
      → Sound n (write_trace a p fuel bytes r st).1
  unfolding write_trace Sound
  write_trace-Sound bytes (res, d) st h = h

  pub write_buffer-Sound :
      (ptr : List ℕ) (bytes : ℕ) (st : State a)
      → Sound n st
      → Always (λ r. Sound n r.1) (write_buffer a p fuel ptr bytes st)
  unfolding write_buffer
  write_buffer-Sound ptr bytes st h =
      let P : RisuResult × State a → Type 0 = λ r. Sound n r.1 in
      Always-if P (ltb (length ptr) bytes) _ _ (λ e. tt)
        (λ e.
          Always-if P st.trace _ _
            (λ e. write_trace-Sound bytes (sys_write (take bytes ptr) st.comm) st h)
            (λ e.
              Always-bind (λ x. Unit {0}) P (send_data_pkt fuel (take bytes ptr) bytes st.comm) _
                (Always-any (send_data_pkt fuel (take bytes ptr) bytes st.comm))
                (λ r x. Sound-comm n r.1 st h)))
