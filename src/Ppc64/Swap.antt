-- ===== src/Ppc64/Swap.antt =====
-- risu_reginfo_ppc64.c: reginfo_swap, of a build with RISU_DPPC on a host of the other byte order.
use mathlib.Core.Path.{fun_ext}
use risu.Prelude.{
  arith, ap, ◌∙◌, if_true, ℕ, ◌^◌, ◌<◌, ◌≡◌, refl, if◌then◌else◌, ltb, Bool-cases, inl, inr,
}
use mathlib.Core.List.{reverse}
use risu.Endian.{byteswap_32, le_bytes_32}
use risu.Endian.Laws.{byteswap_32-byteswap_32, le_bytes_32-byteswap_32}
use risu.Ppc64.{Reginfo}

-- The elements of an array of `count` elements, changed one by one.
unfoldable pub swap_each : (ℕ → ℕ) → ℕ → (ℕ → ℕ) → ℕ → ℕ
swap_each swap count f i = if ltb i count then swap (f i) else f i

-- `reg_t` is of 32 bits. BYTESWAP_64 is what the compiler brings.
unfoldable pub reginfo_swap : (ℕ → ℕ) → Reginfo → Reginfo
reginfo_swap byteswap_64 ri = record {
  second_prev_insn = byteswap_32 ri.second_prev_insn;
  prev_insn = byteswap_32 ri.prev_insn;
  faulting_insn = byteswap_32 ri.faulting_insn;
  next_insn = byteswap_32 ri.next_insn;
  nip = byteswap_32 ri.nip;
  gregs = swap_each byteswap_32 41 ri.gregs;
  fpregs = swap_each byteswap_64 32 ri.fpregs;
  fpscr = byteswap_32 ri.fpscr;
}

unfoldable pub reginfo_host_to_arch : (ℕ → ℕ) → Reginfo → Reginfo
unfolding reginfo_swap
reginfo_host_to_arch = reginfo_swap

unfoldable pub reginfo_arch_to_host : (ℕ → ℕ) → Reginfo → Reginfo
unfolding reginfo_swap
reginfo_arch_to_host = reginfo_swap

-- The fields have the values of their types.
pub record IsTyped (ri : Reginfo) : Type 0 where
  pub second_prev_insn_lt : ri.second_prev_insn < 2 ^ 32
  pub prev_insn_lt : ri.prev_insn < 2 ^ 32
  pub faulting_insn_lt : ri.faulting_insn < 2 ^ 32
  pub next_insn_lt : ri.next_insn < 2 ^ 32
  pub nip_lt : ri.nip < 2 ^ 32
  pub gregs_lt : (i : ℕ) → ri.gregs i < 2 ^ 32
  pub fpregs_lt : (i : ℕ) → ri.fpregs i < 2 ^ 64
  pub fpscr_lt : ri.fpscr < 2 ^ 32

swap_each_twice :
    (swap : ℕ → ℕ) (count limit : ℕ) (f : ℕ → ℕ)
    → ((x : ℕ) → x < limit → swap (swap x) ≡ x)
    → ((i : ℕ) → f i < limit)
    → swap_each swap count (swap_each swap count f) ≡ f
unfolding swap_each
swap_each_twice swap count limit f h k =
    fun_ext
      (λ i. elim (Bool-cases (ltb i count)) [ inl e ↦ rw e (h (f i) (k i)) | inr e ↦ rw e refl ])

arch_to_host_back :
    (byteswap_64 : ℕ → ℕ)
    → ((x : ℕ) → x < 2 ^ 64 → byteswap_64 (byteswap_64 x) ≡ x)
    → (ri : Reginfo) → IsTyped ri
    → reginfo_arch_to_host byteswap_64 (reginfo_host_to_arch byteswap_64 ri) ≡ ri
unfolding reginfo_swap reginfo_host_to_arch reginfo_arch_to_host
arch_to_host_back byteswap_64 h ri t =
    let word : (x : ℕ) → x < 2 ^ 32 → byteswap_32 (byteswap_32 x) ≡ x = byteswap_32-byteswap_32 in
    λ at. record {
      second_prev_insn = word ri.second_prev_insn t.second_prev_insn_lt at;
      prev_insn = word ri.prev_insn t.prev_insn_lt at;
      faulting_insn = word ri.faulting_insn t.faulting_insn_lt at;
      next_insn = word ri.next_insn t.next_insn_lt at;
      nip = word ri.nip t.nip_lt at;
      gregs = swap_each_twice byteswap_32 41 (2 ^ 32) ri.gregs word t.gregs_lt at;
      fpregs = swap_each_twice byteswap_64 32 (2 ^ 64) ri.fpregs h t.fpregs_lt at;
      fpscr = word ri.fpscr t.fpscr_lt at;
    }

-- The bytes of a word are turned round.
abbrev pub Turned : ℕ → ℕ → Type 0
Turned x y = le_bytes_32 y ≡ reverse (le_bytes_32 x)

swap_each-Turned :
    (f : ℕ → ℕ) (count i : ℕ)
    → ((i : ℕ) → f i < 2 ^ 32)
    → i < count
    → Turned (f i) (swap_each byteswap_32 count f i)
unfolding swap_each
swap_each-Turned f count i h lt =
    ap le_bytes_32 (if_true (ltb i count) _ _ (ground arith)) ∙ le_bytes_32-byteswap_32 (f i) (h i)

swap_each-inside :
    (swap : ℕ → ℕ) (f : ℕ → ℕ) (count i : ℕ) → i < count → swap_each swap count f i ≡ swap (f i)
unfolding swap_each
swap_each-inside swap f count i lt = if_true (ltb i count) _ _ (ground arith)

-- On PowerPC in the build for an emulator, without vector registers, a structure whose fields have
-- the values of their types is brought to the byte order of the architecture field by field: the
-- bytes of the four instructions, of nip, of each of the 41 general registers and of fpscr are
-- turned round, each of the 32 floating-point registers is what BYTESWAP_64 makes of it; and back
-- in the byte order of the host it is as it was. The compiler's BYTESWAP_64 undoes itself.
pub reginfo_host_to_arch-Turned :
    (byteswap_64 : ℕ → ℕ)
    → ((x : ℕ) → x < 2 ^ 64 → byteswap_64 (byteswap_64 x) ≡ x)
    → (ri : Reginfo) (i j : ℕ) → IsTyped ri
    → i < 41
    → j < 32
    → let swapped = reginfo_host_to_arch byteswap_64 ri in
      Turned ri.second_prev_insn swapped.second_prev_insn
      × Turned ri.prev_insn swapped.prev_insn
      × Turned ri.faulting_insn swapped.faulting_insn
      × Turned ri.next_insn swapped.next_insn
      × Turned ri.nip swapped.nip
      × Turned (ri.gregs i) (swapped.gregs i)
      × Turned ri.fpscr swapped.fpscr
      × (swapped.fpregs j ≡ byteswap_64 (ri.fpregs j))
      × (reginfo_arch_to_host byteswap_64 swapped ≡ ri)
unfolding reginfo_swap reginfo_host_to_arch
reginfo_host_to_arch-Turned byteswap_64 h ri i j t lt kt = (
  le_bytes_32-byteswap_32 ri.second_prev_insn t.second_prev_insn_lt,
  le_bytes_32-byteswap_32 ri.prev_insn t.prev_insn_lt,
  le_bytes_32-byteswap_32 ri.faulting_insn t.faulting_insn_lt,
  le_bytes_32-byteswap_32 ri.next_insn t.next_insn_lt,
  le_bytes_32-byteswap_32 ri.nip t.nip_lt,
  swap_each-Turned ri.gregs 41 i t.gregs_lt lt,
  le_bytes_32-byteswap_32 ri.fpscr t.fpscr_lt,
  swap_each-inside byteswap_64 ri.fpregs 32 j kt,
  arch_to_host_back byteswap_64 h ri t,
)
