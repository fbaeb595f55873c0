-- ===== src/Risu/State.antt =====
-- risu.c: the static variables, and reading and writing through `comm_fd`.
use mathlib.Core.Option
use risu.Prelude.{
  ℕ, ◌+◌, ◌%◌, ◌^◌, Bool, false, List, [], ◌++◌, Option, none, some, if◌then◌else◌, ◌==◌, ltb,
  length, take, drop,
}
use risu.Prelude.Outcome.{Outcome, done, overruns, ◌>>=◌}
use risu.Comms.{Descriptor, sys_read, sys_write, send_data_pkt, recv_data_pkt, send_response_byte}
use risu.Risu.Op.{RisuOp, op_sigill, RisuResult, res_ok, res_bad_io, res_code, res_of}
use risu.Risu.Header.{TraceHeader, Platform, header_bytes, header_of_bytes}
use risu.Risu.Arch.{Arch}

-- MEMBLOCKLEN
abbrev pub memblocklen : ℕ
memblocklen = 8192

-- `ri[MASTER]` and `ri[APPRENTICE]` are two fields, and `memblock` is NULL or a pointer.
pub record State (a : Arch) : Type 0 where
  pub ri_master : a.Reginfo
  pub ri_apprentice : a.Reginfo
  pub other_memblock : List ℕ
  pub header : TraceHeader
  pub memblock : Option ℕ
  pub arch_memblock : ℕ
  pub comm : Descriptor
  pub trace : Bool
  pub signal_count : ℕ
  pub illegal_instructions : ℕ
  pub signal_pc : ℕ
  pub is_setup : Bool

-- `n++` on a size_t of 64 bits.
abbrev pub increment : ℕ → ℕ
increment n = (n + 1) % 2 ^ 64

-- The object at `old` after its first bytes were overwritten.
abbrev pub overwrite : List ℕ → List ℕ → List ℕ
overwrite new old = new ++ drop (length new) old

-- `if (op == OP_SIGILL) { illegal_instructions++; if (is_setup) return RES_OK; }`, which both
-- handlers begin with: the count, and whether the handler returns.
unfoldable pub counted : RisuOp → ℕ → ℕ
counted op_sigill n = increment n
counted _ n = n

module _ {a : Arch} where
  abbrev pub count_illegal : RisuOp → State a → State a
  count_illegal op st = record st { illegal_instructions = counted op st.illegal_instructions }

  unfoldable pub skips : RisuOp → State a → Bool
  skips op_sigill st = st.is_setup
  skips _ st = false

-- Every function takes the architecture, the build and the rounds that a loop of comms.c is given.
module _ (a : Arch) (p : Platform) (fuel : ℕ) where
  abbrev pub store_header : List ℕ → TraceHeader → TraceHeader
  store_header bytes h =
      Option.get_or
        (header_of_bytes p.host_little_endian
          (overwrite bytes (header_bytes p.host_little_endian h)))
        h

  abbrev pub store_reginfo : List ℕ → a.Reginfo → a.Reginfo
  store_reginfo bytes ri = a.reginfo_of_bytes (overwrite bytes (a.reginfo_bytes ri))

  -- `res == bytes ? RES_OK : RES_BAD_IO`, where -1 is no number of bytes.
  unfoldable pub trace_result : Option ℕ → ℕ → RisuResult
  trace_result none bytes = res_bad_io
  trace_result (some res) bytes = if res == bytes then res_ok else res_bad_io

  unfoldable pub read_trace :
      ℕ → Option (List ℕ) × Descriptor → State a → (RisuResult × List ℕ × State a)
  unfolding trace_result
  read_trace bytes (none, d) st = (trace_result none bytes, [], record st { comm = d })
  read_trace bytes (some got, d) st =
      (trace_result (some (length got)) bytes, got, record st { comm = d })

  unfoldable pub recv_result :
      Option (List ℕ) × Descriptor → State a → (RisuResult × List ℕ × State a)
  recv_result (none, d) st = (res_bad_io, [], record st { comm = d })
  recv_result (some got, d) st = (res_ok, got, record st { comm = d })

  -- `read_buffer` of a build without zlib: its result and the bytes stored at `ptr`.
  unfoldable pub read_buffer : ℕ → State a → Outcome (RisuResult × List ℕ × State a)
  unfolding read_trace recv_result
  read_buffer bytes st =
      if st.trace
      then done (read_trace bytes (sys_read bytes st.comm) st)
      else recv_data_pkt fuel bytes st.comm >>= (λ r. done (recv_result r st))

  unfoldable pub write_trace : ℕ → Option ℕ × Descriptor → State a → (RisuResult × State a)
  unfolding trace_result
  write_trace bytes (res, d) st = (trace_result res bytes, record st { comm = d })

  -- `write_buffer`, on the object that `ptr` points to. The C code does not check that the
  -- object has so many bytes.
  unfoldable pub write_buffer : List ℕ → ℕ → State a → Outcome (RisuResult × State a)
  unfolding write_trace
  write_buffer ptr bytes st =
      if ltb (length ptr) bytes
      then overruns
      else (if st.trace
          then done (write_trace bytes (sys_write (take bytes ptr) st.comm) st)
          else send_data_pkt fuel (take bytes ptr) bytes st.comm
            >>= (λ r. done (res_of r.0, record st { comm = r.1 })))

  unfoldable pub respond : RisuResult → State a → Outcome (State a)
  respond r st =
      if st.trace
      then done st
      else send_response_byte (res_code r) st.comm >>= (λ d. done (record st { comm = d }))
