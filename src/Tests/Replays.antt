-- ===== src/Tests/Replays.antt =====
-- A record of the small machine in the other byte order.
use risu.Prelude.{◌≡◌, refl, [], ◌∷◌, some, true, arith}
use risu.Prelude.Outcome.{overruns}
use risu.Risu.State.{State}
use risu.Risu.Header.{Platform, risu_magic}
use risu.Risu.Master.{write_record}
use risu.Risu.Trace.{IsTracing}
use risu.Endian.{byteswap_32}
use risu.Risu.Trace.Swapped.{write_record-swapped}
use risu.Tests.Toy.{toy, little, start_state}

abbrev fresh : State toy
fresh = start_state []

-- A payload of one byte, on a little-endian host that tests a big-endian machine.
abbrev abroad : Platform
abroad = record little { arch_big_endian = true }

abbrev ready : State toy
ready = record fresh { header = record { magic = risu_magic; size = 1; risu_op = 0; pc = 0 } }

ready-IsTracing : IsTracing ready
ready-IsTracing = record { trace_eq = refl; reads_eq = refl; writes_eq = refl }

write_record-swapped_example : write_record toy abroad 0 (some (5 ∷ [])) ready ≡ overruns
unfolding byteswap_32
write_record-swapped_example =
    write_record-swapped toy abroad 0 (5 ∷ []) ready refl ready-IsTracing refl (omega arith)
