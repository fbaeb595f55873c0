-- ===== src/Tests/Mainframe.antt =====
-- Two structures of an s390x that differ in one register.
use risu.Prelude.{◌≡◌, ◌↔◌, refl, true, [], ◌∷◌, ◌==◌, ◌*◌, if◌then◌else◌}
use risu.Prelude.Rows.{row_unless, each_from}
use risu.S390x.{Context, Reginfo, r, fetch, reginfo_init, reginfo_is_eq, reginfo_dump_mismatch}
use risu.S390x.Report.{reginfo_dump_mismatch_iff_equal}

-- A context at the instruction 0x835a0f00, which asks for a comparison.
abbrev stopped : Context
stopped = record {
  psw_mask = 0;
  gregs = λ i. i;
  fpc = 3;
  fprs = λ i. i * i;
  mem = λ at. if at == 64 then 0x83 else if at == 65 then 0x5a else if at == 66 then 0x0f else 0;
}

abbrev ours : Reginfo
ours = reginfo_init 64 stopped 64

abbrev theirs : Reginfo
theirs = record ours { gprs = λ i. if i == 5 then 99 else i }

one_line : reginfo_dump_mismatch ours theirs ≡ r 5 5 99 ∷ []
unfolding reginfo_dump_mismatch row_unless each_from reginfo_init fetch
one_line = refl

reginfo_dump_mismatch_iff_equal_example :
    (reginfo_dump_mismatch ours theirs ≡ []) ↔ (reginfo_is_eq ours theirs ≡ true)
reginfo_dump_mismatch_iff_equal_example = reginfo_dump_mismatch_iff_equal ours theirs
