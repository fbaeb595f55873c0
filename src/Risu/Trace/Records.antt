-- ===== src/Risu/Trace/Records.antt =====
-- risu.c: one record of a trace file, as the master writes it and the apprentice reads it.
use mathlib.Core.List.{append_assoc, append-nil}
use mathlib.Core.Option
use risu.Prelude.{
  ℕ, ◌≡◌, refl, sym, ap, ◌∙◌, Bool, true, false, inl, List, [], ◌++◌, Option, none, some, arith,
  if◌then◌else◌, ◌==◌, ==_iff, if_true, if_false, not_ltb_self, length, drop_all, not,
}
use risu.Prelude.Outcome.{done, bind_done}
use risu.Risu.Op.{op_of, res_ok, res_bad_size_reginfo}
use risu.Risu.Header.{
  TraceHeader, Platform, risu_magic, sizeof_header, header_bytes, header_of_bytes,
  header_arch_to_host,
}
use risu.Risu.Header.Laws.{IsHeader, swaps, header_host_to_arch_keeps, header_loaded}
use risu.Risu.Arch.{Arch}
use risu.Risu.State.{State, memblocklen, overwrite, store_header, store_reginfo}
use risu.Risu.Master.{write_extra, write_header, write_record}
use risu.Risu.Apprentice.{
  recv_register_info, check_header, recv_registers, recv_memory, recv_payload,
}
use risu.Risu.Lawful.{IsLawful}
use risu.Risu.Trace.{IsTracing, wrote, left, write_buffer_trace, read_buffer_trace, respond_trace}

-- What `extra` points to, and that the header gives its size.
abbrev pub extra_bytes : Option (List ℕ) → List ℕ
extra_bytes none = []
extra_bytes (some xs) = xs

abbrev pub FitsSize : Option (List ℕ) → ℕ → Type 0
FitsSize none n = Unit {0}
FitsSize (some xs) n = length xs ≡ n

pub length-header_bytes : (e : Bool) (h : TraceHeader) → length (header_bytes e h) ≡ sizeof_header
unfolding header_bytes
length-header_bytes true h = refl
length-header_bytes false h = refl

overwrite_all : (new old : List ℕ) → length old ≡ length new → overwrite new old ≡ new
overwrite_all new old e = ap (◌++◌ new) (drop_all (length new) old (omega arith)) ∙ append-nil new

module _ (a : Arch) (p : Platform) (fuel : ℕ) where
  -- The state after a record was written.
  abbrev pub after_write : Option (List ℕ) → State a → State a
  after_write extra st = record st {
    comm = wrote (header_bytes p.host_little_endian st.header ++ extra_bytes extra) st.comm;
  }

  write_extra_trace :
      (extra : Option (List ℕ)) (st : State a)
      → IsTracing st
      → FitsSize extra st.header.size
      → write_extra a p fuel extra
          (record st { comm = wrote (header_bytes p.host_little_endian st.header) st.comm })
        ≡ done (res_ok, after_write extra st)
  unfolding write_extra
  write_extra_trace none st t f =
      ap (λ xs. done (res_ok, record st { comm = wrote xs st.comm })) (sym (append-nil _))
  write_extra_trace (some xs) st t f =
      write_buffer_trace a p fuel xs st.header.size _
        (record { trace_eq = t.trace_eq; reads_eq = t.reads_eq; writes_eq = refl }) f
      ∙ ap (λ ys. done (res_ok, record st { comm = record st.comm { sent = ys; writes = [] } }))
          (append_assoc st.comm.sent _ xs)

  pub write_record_trace :
      (extra : Option (List ℕ)) (st : State a)
      → swaps p.macro_little_endian p.arch_big_endian ≡ false
      → IsTracing st
      → FitsSize extra st.header.size
      → write_record a p fuel extra st ≡ done (res_ok, after_write extra st)
  unfolding write_record write_header
  write_record_trace extra st keeps t f =
      ap (λ h. write_header a p fuel extra (record st { header = h }))
        (header_host_to_arch_keeps p st.header keeps)
      ∙ bind_done _ _ _
          (write_buffer_trace a p fuel _ sizeof_header st t (length-header_bytes _ st.header))
      ∙ write_extra_trace extra st t f

  header_stored :
      (h : TraceHeader) (st : State a)
      → IsHeader h
      → header_arch_to_host (store_header a p fuel (header_bytes p.host_little_endian h) st.header)
        ≡ h
  header_stored h st v =
      let e = p.host_little_endian in
      ap (λ xs. header_arch_to_host (Option.get_or (header_of_bytes e xs) st.header))
        (overwrite_all (header_bytes e h) (header_bytes e st.header)
          (length-header_bytes e st.header ∙ sym (length-header_bytes e h)))
      ∙ header_loaded e e h h v (inl refl) st.header

  -- The header of a record is read back, whatever stands behind it.
  pub recv_header_trace :
      (h : TraceHeader) (rest : List ℕ) (st : State a)
      → IsHeader h
      → IsTracing st
      → st.comm.incoming ≡ header_bytes p.host_little_endian h ++ rest
      → recv_register_info a p fuel st
        ≡ recv_payload a p fuel
            (op_of h.risu_op)
            (record st { comm = left rest st.comm; header = h })
  unfolding recv_register_info check_header
  recv_header_trace h rest st v t e =
      bind_done _ _ _ (
        read_buffer_trace a p fuel (header_bytes p.host_little_endian h) rest sizeof_header st t
          (length-header_bytes _ h) e)
      ∙ ap (λ k. check_header a p fuel (record st { comm = left rest st.comm; header = k }))
          (header_stored h st v)
      ∙ if_true _ _ _ ((==_iff h.magic risu_magic).1 v.magic_eq)

  reginfo_stored :
      IsLawful a
      → (ri old : a.Reginfo)
      → a.reginfo_arch_to_host
          (store_reginfo a p fuel (a.reginfo_bytes (a.reginfo_host_to_arch ri)) old)
        ≡ ri
  reginfo_stored w ri old =
      ap (λ xs. a.reginfo_arch_to_host (a.reginfo_of_bytes xs))
        (overwrite_all _ (a.reginfo_bytes old) (w.bytes_length old ∙ sym (w.bytes_length _)))
      ∙ ap a.reginfo_arch_to_host (w.bytes_load _)
      ∙ w.swap_back ri

  pub recv_registers_trace :
      IsLawful a
      → (ri : a.Reginfo) (rest : List ℕ) (st : State a) → IsTracing st
      → st.header.size ≡ a.sizeof_reginfo
      → st.comm.incoming ≡ a.reginfo_bytes (a.reginfo_host_to_arch ri) ++ rest
      → recv_registers a p fuel st
        ≡ done (res_ok, record st { comm = left rest st.comm; ri_master = ri })
  unfolding recv_registers
  recv_registers_trace w ri rest st t e h =
      if_false _ _ _ (not_ltb_self a.sizeof_reginfo st.header.size (sym e))
      ∙ bind_done _ _ _ (respond_trace a p fuel res_ok st t)
      ∙ bind_done _ _ _
          (read_buffer_trace a p fuel _ rest st.header.size st t (w.bytes_length _ ∙ sym e) h)
      ∙ ap
          (λ r. done (
            if not (st.header.size == a.reginfo_size r) then res_bad_size_reginfo else res_ok,
            record st { comm = left rest st.comm; ri_master = r },
          ))
          (reginfo_stored w ri st.ri_master)
      ∙ ap
          (λ b. done (
            if not b then res_bad_size_reginfo else res_ok,
            record st { comm = left rest st.comm; ri_master = ri },
          ))
          ((==_iff _ _).1 (e ∙ sym (w.size_eq ri)))

  pub recv_memory_trace :
      (bytes rest : List ℕ) (st : State a)
      → IsTracing st
      → st.header.size ≡ memblocklen
      → length bytes ≡ memblocklen
      → length st.other_memblock ≡ memblocklen
      → st.comm.incoming ≡ bytes ++ rest
      → recv_memory a p fuel st
        ≡ done (res_ok, record st { comm = left rest st.comm; other_memblock = bytes })
  unfolding recv_memory
  recv_memory_trace bytes rest st t e l o h =
      if_true _ _ _ ((==_iff st.header.size memblocklen).1 e)
      ∙ bind_done _ _ _ (respond_trace a p fuel res_ok st t)
      ∙ bind_done _ _ _ (read_buffer_trace a p fuel bytes rest memblocklen st t l h)
      ∙ ap (λ xs. done (res_ok, record st { comm = left rest st.comm; other_memblock = xs }))
          (overwrite_all bytes st.other_memblock (o ∙ sym l))
