-- ===== src/Paging/Boot/Reserved.antt =====
-- What mem_loadmmap of newland/arch/x86/src/mem.c makes of the boot loader's memory map.
use stardustos.Prelude.{
  Bool-cases, arith, false, inl, inr, is_some, ltb, ltb→lt, refl, some, suc, true, zero, ℕ, ◌%◌,
  ◌*◌, ◌+◌, ◌-◌, ◌<◌, ◌==◌, ◌^◌, ◌≡◌, ◌≤◌,
}
use stardustos.Phys.{Phys, page_size, physical_set_used}
use stardustos.Paging.Boot.{load_entry, load_from, map_addr, map_len, map_type, reserve_from}

-- A reserved region that starts at or behind its own length is not marked: its start is compared
-- with its length, not with its end.
pub load_entry_misses :
    (rounds : ℕ) (words : ℕ → ℕ) (p : ℕ) (s : Phys)
    → (map_type words p == 1) ≡ false
    → map_len words p ≤ map_addr words p
    → load_entry (suc rounds) words p s ≡ some s
unfolding load_entry reserve_from
load_entry_misses rounds words p s reserved behind =
    let past : ltb (map_addr words p) (map_len words p) ≡ false = ground arith in
    rw (reserved, past) refl

-- The addresses that the loop over the map comes to from `mmap` on.
pub data IsEntry (words : ℕ → ℕ) (mmap stop : ℕ) : ℕ → Type 0 where
  first_entry : IsEntry words mmap stop mmap
  next_entry :
      {p : ℕ}
      → IsEntry words mmap stop p
      → p < stop
      → IsEntry words mmap stop ((p + words p + 4) % 2 ^ 32)

-- The loop over a region ends where no page of it runs past 2 ^ 64, within a round for each page and
-- one more.
reserve_from_ends :
    (rounds : ℕ) (mem : ℕ → ℕ) (addr len : ℕ)
    → len + page_size < 2 ^ 64 + 1
    → len < addr + rounds * page_size
    → (mem' : ℕ → ℕ) × (reserve_from (suc rounds) mem addr len ≡ some mem')
unfolding reserve_from
reserve_from_ends zero mem addr len inside enough =
    let past : ltb addr len ≡ false = ground arith in (mem, rw past refl)
reserve_from_ends (suc rounds) mem addr len inside enough = elim (Bool-cases (ltb addr len)) [
  | inr e ↦ (mem, rw e refl)
  | inl e ↦
      let next : (addr + page_size) % 2 ^ 64 ≡ addr + page_size =
        omega (arith, ltb→lt addr len e) in
      let (mem', more) =
        reserve_from_ends rounds (physical_set_used mem (addr % 2 ^ 32))
          ((addr + page_size) % 2 ^ 64) len inside (omega (arith, next, enough)) in
      (mem', rw e more)
]

-- What is come to from the second entry is come to from the first one.
IsEntry-later :
    (words : ℕ → ℕ) (mmap stop p : ℕ)
    → mmap < stop
    → IsEntry words ((mmap + words mmap + 4) % 2 ^ 32) stop p
    → IsEntry words mmap stop p
IsEntry-later words mmap stop _ below first_entry = next_entry first_entry below
IsEntry-later words mmap stop _ below (next_entry {p} e under) =
    next_entry (IsEntry-later words mmap stop p below e) under

-- The round for one entry ends.
load_entry_ends :
    (rounds : ℕ) (words : ℕ → ℕ) (p : ℕ) (s : Phys)
    → ((map_type words p == 1) ≡ false → map_len words p + page_size < 2 ^ 64 + 1)
    → ((map_type words p == 1) ≡ false → map_len words p < rounds * page_size)
    → (s' : Phys) × (load_entry (suc rounds) words p s ≡ some s')
unfolding load_entry
load_entry_ends rounds words p s inside enough = elim (Bool-cases (map_type words p == 1)) [
  | inl e ↦ (record s { total_mem = (s.total_mem + map_len words p) % 2 ^ 32 }, rw e refl)
  | inr e ↦
      let (mem, ends) =
        reserve_from_ends rounds s.mem (map_addr words p) (map_len words p) (inside e)
          (omega (arith, enough e)) in
      (record s { mem = mem }, rw (e, ends) refl)
]

-- Where no entry that the loop over the map comes to runs past the end of the address space, and
-- every reserved one of them has a length of at most 2 ^ 64 less a page, and of less than `rounds`
-- pages, the loop ends, with its fuel for regions one more than `rounds` and that for entries more
-- than the bytes of the map.
pub load_from_ends :
    (rounds fuel : ℕ) (words : ℕ → ℕ) (mmap stop : ℕ) (s : Phys)
    → ((p : ℕ) → IsEntry words mmap stop p → p < stop → p + words p + 4 < 2 ^ 32)
    → ((p : ℕ)
        → IsEntry words mmap stop p
        → p < stop
        → (map_type words p == 1) ≡ false
        → map_len words p + page_size < 2 ^ 64 + 1)
    → ((p : ℕ)
        → IsEntry words mmap stop p
        → p < stop
        → (map_type words p == 1) ≡ false
        → map_len words p < rounds * page_size)
    → stop - mmap < fuel
    → is_some (load_from (suc rounds) fuel words mmap stop s) ≡ true
unfolding load_from
load_from_ends rounds zero words mmap stop s ends_at region paged enough = absurd (omega arith)
load_from_ends rounds (suc fuel) words mmap stop s ends_at region paged enough =
    elim (Bool-cases (ltb mmap stop)) [
      | inr e ↦ rw e refl
      | inl e ↦
          let under = ltb→lt mmap stop e in
          let here = ends_at mmap first_entry under in
          let next : (mmap + words mmap + 4) % 2 ^ 32 ≡ mmap + words mmap + 4 =
            omega (arith, here) in
          let (s', loaded) =
            load_entry_ends rounds words mmap s (region mmap first_entry under)
              (paged mmap first_entry under) in
          rw (e, loaded)
            (load_from_ends rounds fuel words ((mmap + words mmap + 4) % 2 ^ 32) stop s'
              (λ p q. ends_at p (IsEntry-later words mmap stop p under q))
              (λ p q. region p (IsEntry-later words mmap stop p under q))
              (λ p q. paged p (IsEntry-later words mmap stop p under q))
              (omega (arith, next, enough, under)))
    ]
