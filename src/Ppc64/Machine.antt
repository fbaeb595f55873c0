-- ===== src/Ppc64/Machine.antt =====
-- risu_ppc64.c, risu_reginfo_ppc64.c: PowerPC under Mac OS X as an architecture of risu, with the
-- contexts and structures whose fields have the widths of their types.
use std.HLevel.{Σ_prop_path}
use risu.Prelude.{
  ℕ, zero, suc, ◌+◌, ◌%◌, ◌^◌, ◌<◌, ◌≡◌, refl, ap, sym, ◌∙◌, true, false, none, some, if◌then◌else◌,
  ◌==◌, ltb, arith, Bool, if_true, ◌||◌, not, ==_refl,
}
use risu.Risu.Arch.{Arch}
use risu.Risu.State.{memblocklen}
use risu.Risu.Lawful.{IsLawful, IsRepeatable}
use risu.Ppc64.{
  Context, Reginfo, Masks, advance_pc, get_uc_pc, set_ucontext_paramreg, get_reginfo_paramreg,
  get_risuop, get_pc, gregs_of, put_gregs, reginfo_init, reginfo_update,
}
use risu.Ppc64.Rules.{selected}
use risu.Ppc64.Update.{put_gregs_same}
use risu.Ppc64.Compare.{
  Checked, settle, and_then, check_from, check_greg, check_xer, check_branches, check_ccr, check_mq,
  check_fpscr, check_fpreg, minus_32, local_gregs_mask, reginfo_is_eq,
}
use risu.Ppc64.Object.{
  Object, stored, stored_same, listed, length-listed, sizeof_reginfo, reginfo_bytes,
  reginfo_of_bytes, length-reginfo_bytes, reginfo_of_bytes-reginfo_bytes,
}

-- The values that the types of a context's fields have.
abbrev FitsContext : Context → Type 0
FitsContext c =
    (c.srr0 % 2 ^ 32 ≡ c.srr0)
    × (c.srr1 % 2 ^ 32 ≡ c.srr1)
    × (c.ctr % 2 ^ 32 ≡ c.ctr)
    × (c.lr % 2 ^ 32 ≡ c.lr)
    × (c.xer % 2 ^ 32 ≡ c.xer)
    × (c.cr % 2 ^ 32 ≡ c.cr)
    × (c.mq % 2 ^ 32 ≡ c.mq)
    × (c.dar % 2 ^ 32 ≡ c.dar)
    × (c.dsisr % 2 ^ 32 ≡ c.dsisr)
    × ((i : ℕ) → (if ltb i 32 then c.r0 i % 2 ^ 32 else 0) ≡ c.r0 i)
    × ((i : ℕ) → (if ltb i 32 then c.fpregs i % 2 ^ 64 else 0) ≡ c.fpregs i)
    × (c.fpscr % 2 ^ 32 ≡ c.fpscr)
    × ((i : ℕ) → c.memory i % 256 ≡ c.memory i)

abbrev pub Ucontext : Type 0
Ucontext = (c : Context) × FitsContext c

FitsContext-prop : (c : Context) → IsProp (FitsContext c)
FitsContext-prop c = hlevel

same_context : (x y : Ucontext) → x.0 ≡ y.0 → x ≡ y
same_context x y e = Σ_prop_path FitsContext-prop e

abbrev fit_context : Context → Context
fit_context c = record {
  srr0 = c.srr0 % 2 ^ 32;
  srr1 = c.srr1 % 2 ^ 32;
  ctr = c.ctr % 2 ^ 32;
  lr = c.lr % 2 ^ 32;
  xer = c.xer % 2 ^ 32;
  cr = c.cr % 2 ^ 32;
  mq = c.mq % 2 ^ 32;
  dar = c.dar % 2 ^ 32;
  dsisr = c.dsisr % 2 ^ 32;
  r0 = λ i. if ltb i 32 then c.r0 i % 2 ^ 32 else 0;
  fpregs = λ i. if ltb i 32 then c.fpregs i % 2 ^ 64 else 0;
  fpscr = c.fpscr % 2 ^ 32;
  memory = λ i. c.memory i % 256;
}

fit_context-FitsContext : (c : Context) → FitsContext (fit_context c)
fit_context-FitsContext c = (
  omega arith,
  omega arith,
  omega arith,
  omega arith,
  omega arith,
  omega arith,
  omega arith,
  omega arith,
  omega arith,
  λ i. ground arith,
  λ i. ground arith,
  omega arith,
  λ i. omega arith,
)

unfoldable pub kept : Context → Ucontext
unfolding fit_context-FitsContext
kept c = (fit_context c, fit_context-FitsContext c)

-- The architecture, for the masks and the place and size of the image.
abbrev pub mac_os_x : Masks → ℕ → ℕ → Arch
mac_os_x k ibegin image_size = record {
  Ucontext = Ucontext;
  Reginfo = Object;
  advance_pc = λ uc. kept (advance_pc uc.0);
  get_uc_pc = λ uc siaddr. get_uc_pc uc.0 siaddr;
  set_ucontext_paramreg = λ uc x. kept (set_ucontext_paramreg uc.0 x);
  get_reginfo_paramreg = λ r. get_reginfo_paramreg r.0;
  get_risuop = λ r. get_risuop r.0;
  get_pc = λ r. get_pc r.0;
  reginfo_init = λ uc siaddr. stored (reginfo_init ibegin image_size uc.0);
  reginfo_update = λ r uc. kept (reginfo_update k r.0 uc.0);
  reginfo_is_eq = λ signal_count r q.
      let checked = reginfo_is_eq k signal_count r.0 q.0 in (checked.0, stored checked.1);
  reginfo_size = λ r. sizeof_reginfo;
  get_arch_memory = λ x. if x == 0 then none else some x;
  reginfo_host_to_arch = λ r. r;
  reginfo_arch_to_host = λ r. r;
  sizeof_reginfo = sizeof_reginfo;
  reginfo_bytes = reginfo_bytes;
  reginfo_of_bytes = reginfo_of_bytes;
  memory = λ uc m. listed (λ i. uc.0.memory ((m + i) % 2 ^ 32)) memblocklen 0;
}

pub mac_os_x-IsLawful :
    (k : Masks) (ibegin image_size : ℕ) → IsLawful (mac_os_x k ibegin image_size)
unfolding get_pc
mac_os_x-IsLawful k ibegin image_size = record {
  bytes_load = λ r. reginfo_of_bytes-reginfo_bytes r;
  bytes_length = λ r. length-reginfo_bytes r;
  size_eq = λ r. refl;
  sizeof_lt = omega arith;
  swap_back = λ r. refl;
  pc_lt = λ r. let (a, b, c, d, e, f, g, h) = r.1 in omega arith;
  memory_length = λ uc m. length-listed (λ i. uc.0.memory ((m + i) % 2 ^ 32)) memblocklen 0;
}

settle_same : (b c : Bool) (x y : Reginfo) → b ≡ true → settle b c x y ≡ (true, x)
settle_same true c x y e = refl
settle_same false c x y e = cc

check_from_same :
    (check : ℕ → Reginfo → Checked) (r : Reginfo)
    → ((i : ℕ) → check i r ≡ (true, r))
    → (count i : ℕ) → check_from check count i r ≡ (true, r)
unfolding check_from
check_from_same check r h zero i = refl
check_from_same check r h (suc count) i =
    ap (λ x. and_then x (λ b. check_from check count (suc i) b)) (h i)
    ∙ check_from_same check r h count (suc i)

and_then_same :
    (x : Checked) (next : Reginfo → Checked) (r : Reginfo)
    → x ≡ (true, r)
    → next r ≡ (true, r)
    → and_then x next ≡ (true, r)
and_then_same x next r e h = ap (λ y. and_then y next) e ∙ h

-- The parts of the comparison of a structure with itself.
module _ (k : Masks) (signal_count : ℕ) (r : Reginfo) where
  greg_same : (mask i : ℕ) → check_greg mask r i r ≡ (true, r)
  unfolding check_greg
  greg_same mask i =
      settle_same (r.gregs i == r.gregs i || not (selected mask i)) _ r _
        (rw (==_refl (r.gregs i)) refl)

  fpreg_same : (i : ℕ) → check_fpreg k r i r ≡ (true, r)
  unfolding check_fpreg
  fpreg_same i = settle_same _ _ r _ (==_refl (r.fpregs i))

  xer_same : check_xer k r r ≡ (true, r)
  unfolding check_xer
  xer_same = settle_same _ _ r _ (==_refl (r.gregs 36))

  branches_same : check_branches r r ≡ (true, r)
  unfolding check_branches
  branches_same =
      rw (==_refl (minus_32 (r.gregs 35) (r.gregs 32))) (ap (λ b. (b, r)) (==_refl (r.gregs 34)))

  ccr_same : check_ccr k r r ≡ (true, r)
  unfolding check_ccr
  ccr_same = settle_same _ _ r _ (==_refl (r.gregs 37))

  mq_same : check_mq k signal_count r r ≡ (true, r)
  unfolding check_mq
  mq_same = settle_same _ _ r _ (==_refl (r.gregs 38))

  fpscr_same : check_fpscr k r r ≡ (true, r)
  unfolding check_fpscr
  fpscr_same = settle_same _ _ r _ (==_refl r.fpscr)

-- The comparison of a structure with itself finds no difference and changes nothing.
reginfo_is_eq_self :
    (k : Masks) (signal_count : ℕ) (r : Reginfo) → reginfo_is_eq k signal_count r r ≡ (true, r)
unfolding reginfo_is_eq
reginfo_is_eq_self k signal_count r =
    let mask = local_gregs_mask k r in
    and_then_same _ _ r
      (check_from_same (check_greg mask r) r (greg_same k signal_count r mask) 32 0)
      (and_then_same _ _ r (xer_same k signal_count r) (
        and_then_same _ _ r (branches_same k signal_count r) (
          and_then_same _ _ r (ccr_same k signal_count r) (
            and_then_same _ _ r (mq_same k signal_count r) (
              and_then_same _ _ r (fpscr_same k signal_count r)
                (check_from_same (check_fpreg k r) r (fpreg_same k signal_count r) 32 0))))))

-- What is taken of a context and put back into it.
module _ (k : Masks) (ibegin image_size : ℕ) (uc : Ucontext) where
  abbrev taken : Reginfo
  taken = (stored (reginfo_init ibegin image_size uc.0)).0

  taken_greg : (j : ℕ) → j < 32 → taken.gregs j ≡ uc.0.r0 j
  unfolding stored reginfo_init gregs_of
  taken_greg j lt =
      let (a, b, c, d, e, f, g, h, i, r, l, m, n) = uc.1 in
      let small : ltb j 32 ≡ true = ground arith in
      let smaller : ltb j 41 ≡ true = ground arith in
      if_true _ _ _ smaller
      ∙ ap (λ x. x % 2 ^ 32) (if_true _ _ _ small)
      ∙ sym (if_true _ _ _ small)
      ∙ r j

  put_back : kept (reginfo_update k taken uc.0) ≡ uc
  unfolding kept stored reginfo_init gregs_of reginfo_update
  put_back =
      let (a, b, c, d, e, f, g, h, i, r, l, m, n) = uc.1 in
      let xer : uc.0.xer % 2 ^ 32 % 2 ^ 32 ≡ uc.0.xer = omega (arith, e) in
      let cr : uc.0.cr % 2 ^ 32 % 2 ^ 32 ≡ uc.0.cr = omega (arith, f) in
      let mq : uc.0.mq % 2 ^ 32 % 2 ^ 32 ≡ uc.0.mq = omega (arith, g) in
      let fpscr : uc.0.fpscr % 2 ^ 32 % 2 ^ 32 ≡ uc.0.fpscr = omega (arith, m) in
      same_context (kept (reginfo_update k taken uc.0)) uc (λ at. record {
        srr0 = a at;
        srr1 = b at;
        ctr = c at;
        lr = d at;
        xer = xer at;
        cr = cr at;
        mq = mq at;
        dar = h at;
        dsisr = i at;
        r0 = λ j. greg j (r j) at;
        fpregs = λ j. fpreg j (l j) at;
        fpscr = fpscr at;
        memory = λ j. n j at;
      })
    where
      greg :
          (j : ℕ)
          → (if ltb j 32 then uc.0.r0 j % 2 ^ 32 else 0) ≡ uc.0.r0 j
          → (if ltb j 32 then put_gregs k taken.gregs 32 0 uc.0.r0 j % 2 ^ 32 else 0) ≡ uc.0.r0 j
      greg j h =
          ap (λ x. if ltb j 32 then x % 2 ^ 32 else 0)
            (put_gregs_same k taken.gregs uc.0.r0 taken_greg j)
          ∙ h

      fpreg :
          (j : ℕ)
          → (if ltb j 32 then uc.0.fpregs j % 2 ^ 64 else 0) ≡ uc.0.fpregs j
          → (if ltb j 32
              then (if ltb j 32
                  then (if ltb j 32 then (if ltb j 32 then uc.0.fpregs j else 0) % 2 ^ 64 else 0)
                  else uc.0.fpregs j)
                % 2 ^ 64
              else 0)
            ≡ uc.0.fpregs j
      fpreg j h = ground (arith, h)

-- PowerPC under Mac OS X, with fields of the widths of their types, is repeatable, for any masks
-- and any image: a structure is found equal to itself and not changed by the comparison, and a
-- context that gets back what was just taken from it is as it was.
pub mac_os_x-IsRepeatable :
    (k : Masks) (ibegin image_size : ℕ) → IsRepeatable (mac_os_x k ibegin image_size)
mac_os_x-IsRepeatable k ibegin image_size = record {
  eq_self = λ signal_count r.
      ap (λ x. (x.0, stored x.1)) (reginfo_is_eq_self k signal_count r.0)
      ∙ ap (λ x. (true, x)) (stored_same r);
  update_self = λ uc siaddr. put_back k ibegin image_size uc;
}
