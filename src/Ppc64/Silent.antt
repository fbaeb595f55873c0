-- ===== src/Ppc64/Silent.antt =====
-- risu_reginfo_ppc64.c: what it says that reginfo_dump_mismatch prints nothing.
use risu.Prelude.{ℕ, ◌<◌, ◌≡◌, ◌↔◌, true, ◌||◌, not, ◌==◌, arith, []}
use risu.Prelude.Rows.{append_empty, row_unless_iff, each_from_empty, empty_each_from}
use risu.Ppc64.{Reginfo, Masks}
use risu.Ppc64.Rules.{selected}
use risu.Ppc64.Compare.{minus_32}
use risu.Ppc64.Dump.{
  Line, ctr, lr, xer, ccr, mq, fpscr, greg_rows, fpreg_rows, special_rows, reginfo_dump_mismatch,
}

-- Nothing that the report covers differs.
pub record Silent (k : Masks) (m a : Reginfo) : Type 0 where
  pub gregs_same :
      (j : ℕ) → j < 32 → (not (selected k.gregs_mask j) || m.gregs j == a.gregs j) ≡ true
  pub ctr_same : (m.gregs 34 == a.gregs 34) ≡ true
  pub lnk_same : (minus_32 (m.gregs 35) (m.gregs 32) == minus_32 (a.gregs 35) (a.gregs 32)) ≡ true
  pub xer_same : (m.gregs 36 == a.gregs 36) ≡ true
  pub ccr_same : (m.gregs 37 == a.gregs 37) ≡ true
  pub mq_same : (m.gregs 38 == a.gregs 38) ≡ true
  pub fpregs_same : (j : ℕ) → j < 32 → (m.fpregs j == a.fpregs j) ≡ true
  pub fpscr_same : (m.fpscr == a.fpscr) ≡ true

special_rows_iff :
    (line : ℕ → ℕ → Line) (x y : ℕ) → (special_rows line x y ≡ []) ↔ ((x == y) ≡ true)
unfolding special_rows
special_rows_iff line x y = row_unless_iff (line x y) (x == y)

module _ (k : Masks) (m a : Reginfo) where
  greg_rows_iff :
      (j : ℕ)
      → (greg_rows k m a j ≡ [])
        ↔ ((not (selected k.gregs_mask j) || m.gregs j == a.gregs j) ≡ true)
  unfolding greg_rows
  greg_rows_iff j = row_unless_iff _ _

  fpreg_rows_iff : (j : ℕ) → (fpreg_rows m a j ≡ []) ↔ ((m.fpregs j == a.fpregs j) ≡ true)
  unfolding fpreg_rows
  fpreg_rows_iff j = row_unless_iff _ _

  pub reginfo_dump_mismatch-Silent : reginfo_dump_mismatch k m a ≡ [] → Silent k m a
  unfolding reginfo_dump_mismatch
  reginfo_dump_mismatch-Silent h =
      let (g, h1) = (append_empty _ _).0 h in
      let (c, h2) = (append_empty _ _).0 h1 in
      let (l, h3) = (append_empty _ _).0 h2 in
      let (x, h4) = (append_empty _ _).0 h3 in
      let (cc, h5) = (append_empty _ _).0 h4 in
      let (q, h6) = (append_empty _ _).0 h5 in
      let (p, s) = (append_empty _ _).0 h6 in
      record {
        gregs_same = λ j lt.
            (greg_rows_iff j).0 (each_from_empty (greg_rows k m a) 32 0 g j (omega arith) lt);
        ctr_same = (special_rows_iff ctr _ _).0 c;
        lnk_same = (special_rows_iff lr _ _).0 l;
        xer_same = (special_rows_iff xer _ _).0 x;
        ccr_same = (special_rows_iff ccr _ _).0 cc;
        mq_same = (special_rows_iff mq _ _).0 q;
        fpregs_same = λ j lt.
            (fpreg_rows_iff j).0 (each_from_empty (fpreg_rows m a) 32 0 p j (omega arith) lt);
        fpscr_same = (special_rows_iff fpscr _ _).0 s;
      }

  pub Silent-reginfo_dump_mismatch : Silent k m a → reginfo_dump_mismatch k m a ≡ []
  unfolding reginfo_dump_mismatch
  Silent-reginfo_dump_mismatch s = (append_empty _ _).1 (
    empty_each_from (greg_rows k m a) 32 0 (λ j ge lt. (greg_rows_iff j).1 (s.gregs_same j lt)),
    (append_empty _ _).1 (
      (special_rows_iff ctr _ _).1 s.ctr_same,
      (append_empty _ _).1 (
        (special_rows_iff lr _ _).1 s.lnk_same,
        (append_empty _ _).1 (
          (special_rows_iff xer _ _).1 s.xer_same,
          (append_empty _ _).1 (
            (special_rows_iff ccr _ _).1 s.ccr_same,
            (append_empty _ _).1 (
              (special_rows_iff mq _ _).1 s.mq_same,
              (append_empty _ _).1 (
                empty_each_from (fpreg_rows m a) 32 0
                    (λ j ge lt. (fpreg_rows_iff j).1 (s.fpregs_same j lt)),
                (special_rows_iff fpscr _ _).1 s.fpscr_same,
              ),
            ),
          ),
        ),
      ),
    ),
  )
