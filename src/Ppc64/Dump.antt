-- ===== src/Ppc64/Dump.antt =====
-- risu_reginfo_ppc64.c: reginfo_dump_mismatch.
use risu.Prelude.{ℕ, not, ◌||◌, List, ◌++◌, ◌==◌}
use risu.Prelude.Rows.{row_unless, each_from}
use risu.Ppc64.{Reginfo, Masks}
use risu.Ppc64.Rules.{selected}
use risu.Ppc64.Compare.{minus_32}

-- The lines of the report, with the values that they print.
pub data Line : Type 0 where
  r f : ℕ → ℕ → ℕ → Line
  ctr lr xer ccr mq fpscr : ℕ → ℕ → Line

unfoldable pub greg_rows : Masks → Reginfo → Reginfo → ℕ → List Line
greg_rows k m a i =
    row_unless (r i (m.gregs i) (a.gregs i))
      (not (selected k.gregs_mask i) || m.gregs i == a.gregs i)

unfoldable pub fpreg_rows : Reginfo → Reginfo → ℕ → List Line
fpreg_rows m a i = row_unless (f i (m.fpregs i) (a.fpregs i)) (m.fpregs i == a.fpregs i)

unfoldable pub special_rows : (ℕ → ℕ → Line) → ℕ → ℕ → List Line
special_rows line x y = row_unless (line x y) (x == y)

unfoldable pub reginfo_dump_mismatch : Masks → Reginfo → Reginfo → List Line
reginfo_dump_mismatch k m a =
    each_from (greg_rows k m a) 32 0
    ++ (special_rows ctr (m.gregs 34) (a.gregs 34)
        ++ (special_rows lr (minus_32 (m.gregs 35) (m.gregs 32))
              (minus_32 (a.gregs 35) (a.gregs 32))
            ++ (special_rows xer (m.gregs 36) (a.gregs 36)
                ++ (special_rows ccr (m.gregs 37) (a.gregs 37)
                    ++ (special_rows mq (m.gregs 38) (a.gregs 38)
                        ++ (each_from (fpreg_rows m a) 32 0
                            ++ special_rows fpscr m.fpscr a.fpscr))))))
