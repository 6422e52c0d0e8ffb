-- ===== src/Phys/Ranges.antt =====
-- Runs of pages in newland/arch/x86/src/mem.c: `phys_isused`, `phys_setused`, `phys_setfree`.
use stardustos.Prelude.{
  Bool, Bool-cases, arith, false, inl, inr, leb, ltb, not, refl, suc, true, zero, ℕ, ◌%◌, ◌&&◌, ◌*◌,
  ◌+◌, ◌-◌, ◌/◌, ◌<◌, ◌==◌, ◌^◌, ◌||◌, ◌≡◌, ◌≤◌,
}
use stardustos.Phys.{
  Phys, free_page, isused_from, page_addr, page_size, setfree_from, setused_from, use_page,
}
use stardustos.Phys.Pages.{
  AreBytes, free_page-AreBytes, page_used, page_used-free_page, page_used-use_page,
  physical_is_used-eq, use_page-AreBytes,
}

-- Whether page `q` is one of the `n` pages from `first` on.
abbrev pub in_range : ℕ → ℕ → ℕ → Bool
in_range first n q = leb first q && ltb q (first + n)

page_addr_page :
    (addr i n : ℕ)
    → addr + (i + suc n) * page_size ≤ 2 ^ 32
    → page_addr addr i / page_size ≡ addr / page_size + i
page_addr_page addr i n h = omega arith

-- Marking a run of pages marks those and no others, wherever the run ends by the top of memory.
pub setused_from-page :
    (s : Phys) (addr i n q : ℕ)
    → AreBytes s.mem
    → addr + (i + n) * page_size ≤ 2 ^ 32
    → page_used (setused_from s addr i n).mem q
      ≡ (in_range (addr / page_size + i) n q || page_used s.mem q)
unfolding setused_from
setused_from-page s addr i zero q b h = ground arith
setused_from-page s addr i (suc n) q b h = ground (
  arith,
  page_addr_page addr i n,
  page_used-use_page s (page_addr addr i) b q,
  setused_from-page (use_page s (page_addr addr i)) addr (i + 1) n q
      (use_page-AreBytes s (page_addr addr i) b) (omega arith),
)

pub setfree_from-page :
    (s : Phys) (addr i n q : ℕ)
    → AreBytes s.mem
    → addr + (i + n) * page_size ≤ 2 ^ 32
    → page_used (setfree_from s addr i n).mem q
      ≡ (not (in_range (addr / page_size + i) n q) && page_used s.mem q)
unfolding setfree_from
setfree_from-page s addr i zero q b h = ground arith
setfree_from-page s addr i (suc n) q b h = ground (
  arith,
  page_addr_page addr i n,
  page_used-free_page s (page_addr addr i) b q,
  setfree_from-page (free_page s (page_addr addr i)) addr (i + 1) n q
      (free_page-AreBytes s (page_addr addr i) b) (omega arith),
)

pub setused_from-AreBytes :
    (s : Phys) (addr i n : ℕ) → AreBytes s.mem → AreBytes (setused_from s addr i n).mem
unfolding setused_from
setused_from-AreBytes s addr i zero b = b
setused_from-AreBytes s addr i (suc n) b =
    setused_from-AreBytes (use_page s (page_addr addr i)) addr (i + 1) n
      (use_page-AreBytes s (page_addr addr i) b)

-- The scan finds a used page exactly if there is one.
pub isused_from-free :
    (s : Phys) (addr i n : ℕ)
    → addr + (i + n) * page_size ≤ 2 ^ 32
    → isused_from s addr i n ≡ false
    → (q : ℕ) → in_range (addr / page_size + i) n q ≡ true
    → page_used s.mem q ≡ false
unfolding isused_from
isused_from-free s addr i zero h free q r = ground arith
isused_from-free s addr i (suc n) h free q r = elim (Bool-cases (addr / page_size + i == q)) [
  | inl same ↦ ground (arith, page_addr_page addr i n, physical_is_used-eq s.mem (page_addr addr i))
  | inr other ↦
      ground
        (arith, isused_from-free s addr (i + 1) n (omega arith) (ground arith) q (ground arith))
]

pub isused_from-all_free :
    (s : Phys) (addr i n : ℕ)
    → addr + (i + n) * page_size ≤ 2 ^ 32
    → ((q : ℕ) → in_range (addr / page_size + i) n q ≡ true → page_used s.mem q ≡ false)
    → isused_from s addr i n ≡ false
unfolding isused_from
isused_from-all_free s addr i zero h free = refl
isused_from-all_free s addr i (suc n) h free = ground (
  arith,
  page_addr_page addr i n,
  physical_is_used-eq s.mem (page_addr addr i),
  free (addr / page_size + i) (ground arith),
  isused_from-all_free s addr (i + 1) n (omega arith) (λ q r. free q (ground arith)),
)

-- A run of free pages adds its bytes to `used_mem`, which wraps at 32 bits.
pub setused_from-used_mem :
    (s : Phys) (addr i n : ℕ)
    → AreBytes s.mem
    → s.used_mem < 2 ^ 32
    → addr + (i + n) * page_size ≤ 2 ^ 32
    → ((q : ℕ) → in_range (addr / page_size + i) n q ≡ true → page_used s.mem q ≡ false)
    → (setused_from s addr i n).used_mem ≡ (s.used_mem + n * page_size) % 2 ^ 32
unfolding setused_from
setused_from-used_mem s addr i zero b small h free = omega arith
setused_from-used_mem s addr i (suc n) b small h free =
    let t = use_page s (page_addr addr i) in
    let page = page_addr_page addr i n h in
    let first : page_used s.mem (addr / page_size + i) ≡ false =
      free (addr / page_size + i) (ground arith) in
    let grown : t.used_mem ≡ (s.used_mem + page_size) % 2 ^ 32 =
      unfold use_page in
      ground (arith, physical_is_used-eq s.mem (page_addr addr i), page, first) in
    omega (
      arith,
      grown,
      setused_from-used_mem t addr (i + 1) n (use_page-AreBytes s (page_addr addr i) b)
          (omega (arith, grown)) (omega arith)
          (λ q r.
            ground
              (arith, page_used-use_page s (page_addr addr i) b q, page, free q (ground arith))),
    )

-- Giving back a run of used pages takes its bytes off again.
pub setfree_from-used_mem :
    (s : Phys) (addr i n : ℕ)
    → AreBytes s.mem
    → s.used_mem < 2 ^ 32
    → addr + (i + n) * page_size ≤ 2 ^ 32
    → ((q : ℕ) → in_range (addr / page_size + i) n q ≡ true → page_used s.mem q ≡ true)
    → ((setfree_from s addr i n).used_mem + n * page_size) % 2 ^ 32 ≡ s.used_mem
unfolding setfree_from
setfree_from-used_mem s addr i zero b small h used = omega arith
setfree_from-used_mem s addr i (suc n) b small h used =
    let t = free_page s (page_addr addr i) in
    let page = page_addr_page addr i n h in
    let first : page_used s.mem (addr / page_size + i) ≡ true =
      used (addr / page_size + i) (ground arith) in
    let shrunk : t.used_mem ≡ (s.used_mem + 2 ^ 32 - page_size) % 2 ^ 32 =
      unfold free_page in
      ground (arith, physical_is_used-eq s.mem (page_addr addr i), page, first) in
    omega (
      arith,
      shrunk,
      setfree_from-used_mem t addr (i + 1) n (free_page-AreBytes s (page_addr addr i) b)
          (omega (arith, shrunk)) (omega arith)
          (λ q r.
            ground
              (arith, page_used-free_page s (page_addr addr i) b q, page, used q (ground arith))),
    )

pub used_mem-lt :
    (s : Phys) (addr i n : ℕ) → s.used_mem < 2 ^ 32 → (setfree_from s addr i n).used_mem < 2 ^ 32
unfolding setfree_from
used_mem-lt s addr i zero small = small
used_mem-lt s addr i (suc n) small =
    used_mem-lt (free_page s (page_addr addr i)) addr (i + 1) n (unfold free_page in ground arith)
