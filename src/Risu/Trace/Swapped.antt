-- ===== src/Risu/Trace/Swapped.antt =====
-- risu.c: the master's record where the tested machine has another byte order than the host.
use risu.Prelude.{ℕ, ◌<◌, ◌≡◌, ap, ◌∙◌, true, List, some, arith, if_true, ltb, length}
use risu.Prelude.Outcome.{overruns, bind_done}
use risu.Endian.{byteswap_32}
use risu.Risu.Header.{Platform, risu_magic, sizeof_header, byte_swap_header}
use risu.Risu.Header.Laws.{swaps, header_host_to_arch-swaps}
use risu.Risu.Arch.{Arch}
use risu.Risu.State.{State, write_buffer}
use risu.Risu.Master.{write_extra, write_header, write_record}
use risu.Risu.Trace.{IsTracing, write_buffer_trace}
use risu.Risu.Trace.Records.{length-header_bytes}

module _ (a : Arch) (p : Platform) (fuel : ℕ) where
  too_long :
      (extra : List ℕ) (st : State a)
      → length extra < st.header.size
      → write_extra a p fuel (some extra) st ≡ overruns
  unfolding write_extra write_buffer
  too_long extra st lt =
      let long : ltb (length extra) st.header.size ≡ true = ground arith in if_true _ _ _ long

  -- On an undisturbed trace file, where the header is swapped because the tested machine has the
  -- other byte order than the host, the master writes the payload with the swapped size: if that
  -- is more than the payload has, bytes behind the object are read.
  pub write_record-swapped :
      (extra : List ℕ) (st : State a)
      → swaps p.macro_little_endian p.arch_big_endian ≡ true
      → IsTracing st
      → st.header.magic ≡ risu_magic
      → length extra < byteswap_32 st.header.size
      → write_record a p fuel (some extra) st ≡ overruns
  unfolding write_record write_header byte_swap_header
  write_record-swapped extra st other t e lt =
      ap (λ h. write_header a p fuel (some extra) (record st { header = h }))
        (header_host_to_arch-swaps p st.header e ∙ if_true _ _ _ other)
      ∙ bind_done _ _ _ (
          write_buffer_trace a p fuel _ sizeof_header _
            (record { trace_eq = t.trace_eq; reads_eq = t.reads_eq; writes_eq = t.writes_eq })
            (length-header_bytes _ (byte_swap_header st.header)))
      ∙ too_long extra _ lt
