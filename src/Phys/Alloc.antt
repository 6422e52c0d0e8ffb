-- ===== src/Phys/Alloc.antt =====
-- `phys_alloc` of newland/arch/x86/src/mem.c: first fit over the page map.
use stardustos.Prelude.{
  ==_iff, Bool-cases, arith, as_size, false, inl, inr, refl, suc, true, zero, ℕ, ◌%◌, ◌*◌, ◌+◌, ◌-◌,
  ◌/◌, ◌<◌, ◌==◌, ◌^◌, ◌||◌, ◌≡◌, ◌≤◌, ◌⊎◌,
}
use stardustos.Phys.{
  Phys, alloc_from, page_size, phys_alloc, phys_isused, phys_setfree, phys_setused, setused_from,
}
use stardustos.Phys.Pages.{AreBytes, page_used}
use stardustos.Phys.Ranges.{
  in_range, isused_from-all_free, isused_from-free, setfree_from-page, setfree_from-used_mem,
  setused_from-AreBytes, setused_from-page, setused_from-used_mem, used_mem-lt,
}

-- The run that the loop over the pages from `i` on, `n` of them, settles on.
pub record IsFirstFit (s : Phys) (count i n r : ℕ) (s' : Phys) : Type 0 where
  pub page : ℕ
  pub lower : i ≤ page
  pub upper : page < i + n
  pub start : r ≡ page * page_size
  pub free : phys_isused s (page * page_size) count ≡ false
  pub earlier : (k : ℕ) → i ≤ k → k < page → phys_isused s (k * page_size) count ≡ true
  pub marked : s' ≡ phys_setused s (page * page_size) count

pub record IsExhausted (s : Phys) (count i n r : ℕ) (s' : Phys) : Type 0 where
  pub code : r ≡ 2 ^ 32 - 1
  pub same : s' ≡ s
  pub taken : (k : ℕ) → i ≤ k → k < i + n → phys_isused s (k * page_size) count ≡ true

pub alloc_from-cases :
    (s : Phys) (count i n : ℕ)
    → (i + n) * page_size ≤ 2 ^ 32
    → IsFirstFit s count i n (alloc_from s count i n).0 (alloc_from s count i n).1
      ⊎ IsExhausted s count i n (alloc_from s count i n).0 (alloc_from s count i n).1
unfolding alloc_from as_size
alloc_from-cases s count i zero h =
    inr (record { code = refl; same = refl; taken = λ k lo hi. absurd (omega arith) })
alloc_from-cases s count i (suc n) h =
    let small : i * page_size % 2 ^ 32 ≡ i * page_size = omega arith in
    rw small (elim (Bool-cases (phys_isused s (i * page_size) count)) [
      | inr free ↦ rw free (
          inl (record {
            page = i;
            lower = omega arith;
            upper = omega arith;
            start = refl;
            free = free;
            earlier = λ k lo hi. absurd (omega arith);
            marked = refl;
          }))
      | inl used ↦ rw used (elim (alloc_from-cases s count (i + 1) n (omega arith)) [
        | inl f ↦ inl (record {
          page = f.page;
          lower = omega (arith, f.lower);
          upper = omega (arith, f.upper);
          start = f.start;
          free = f.free;
          earlier = λ k lo hi. elim (Bool-cases (i == k)) [
            | inl e ↦ rw (← (==_iff i k).0 e) used
            | inr ne ↦ f.earlier k (ground arith) hi
          ];
          marked = f.marked;
        })
        | inr x ↦ inr (record {
          code = x.code;
          same = x.same;
          taken = λ k lo hi. elim (Bool-cases (i == k)) [
            | inl e ↦ rw (← (==_iff i k).0 e) used
            | inr ne ↦ x.taken k (ground arith) (omega arith)
          ];
        })
      ])
    ])

module _ (s : Phys) (count : ℕ) (b : AreBytes s.mem)
    (room : s.total_mem + count * page_size ≤ 2 ^ 32) where
  -- Where no run from a page below `total_mem` passes the top of the address space: either the
  -- pages that `phys_alloc` returns were all free, and it marks those and no others, or it returns
  -- -NEWLAND_ENOMEM, changes nothing, and no run of free pages starts below `total_mem`.
  pub phys_alloc_lem :
      ((page : ℕ) × (page < s.total_mem / page_size)
        × ((phys_alloc s count).0 ≡ page * page_size)
        × ((q : ℕ) → in_range page count q ≡ true → page_used s.mem q ≡ false)
        × ((q : ℕ)
            → page_used (phys_alloc s count).1.mem q
              ≡ (in_range page count q || page_used s.mem q)))
      ⊎ ((phys_alloc s count ≡ (2 ^ 32 - 1, s))
          × ((page : ℕ)
              → page < s.total_mem / page_size
              → ¬ ((q : ℕ) → in_range page count q ≡ true → page_used s.mem q ≡ false)))
  unfolding phys_alloc phys_isused phys_setused
  phys_alloc_lem = elim (alloc_from-cases s count 0 (s.total_mem / page_size) (omega arith)) [
    | inl f ↦
        let first : f.page * page_size / page_size + 0 ≡ f.page = omega arith in
        let bound : f.page * page_size + (0 + count) * page_size ≤ 2 ^ 32 =
          omega (arith, f.upper, room) in
        inl (
          f.page,
          omega (arith, f.upper),
          f.start,
          λ q r. isused_from-free s (f.page * page_size) 0 count bound f.free q (rw first r),
          λ q.
              rw (f.marked, phys_setused)
                (rw first at (setused_from-page s (f.page * page_size) 0 count q b bound)),
        )
    | inr x ↦ inr (
      (λ i. (x.code i, x.same i)),
      λ page lt free. cc (
        x.taken page (omega arith) (omega arith),
        isused_from-all_free s (page * page_size) 0 count (omega (arith, room))
            (λ q r. free q (ground arith)),
      ),
    )
  ]

module _ (s : Phys) (addr count : ℕ) (b : AreBytes s.mem) (small : s.used_mem < 2 ^ 32)
    (bound : addr + count * page_size ≤ 2 ^ 32) (free : phys_isused s addr count ≡ false) where
  -- Giving back a run that was free before it was marked, and that ends within the address space,
  -- restores every bit and `used_mem`.
  pub phys_setfree-phys_setused :
      ((q : ℕ)
        → page_used (phys_setfree (phys_setused s addr count) addr count).mem q ≡ page_used s.mem q)
      × ((phys_setfree (phys_setused s addr count) addr count).used_mem ≡ s.used_mem)
  unfolding phys_isused phys_setused phys_setfree
  phys_setfree-phys_setused =
      let within : addr + (0 + count) * page_size ≤ 2 ^ 32 = omega (arith, bound) in
      let t = setused_from s addr 0 count in
      let bt = setused_from-AreBytes s addr 0 count b in
      let was_free = isused_from-free s addr 0 count within free in
      let grown = setused_from-used_mem s addr 0 count b small within was_free in
      let now_used : (q : ℕ)
          → in_range (addr / page_size + 0) count q ≡ true
          → page_used t.mem q ≡ true =
        λ q r. ground (arith, setused_from-page s addr 0 count q b within) in
      (
        λ q. ground (
          arith,
          setfree_from-page t addr 0 count q bt within,
          setused_from-page s addr 0 count q b within,
          was_free q,
        ),
        omega (
          arith,
          grown,
          setfree_from-used_mem t addr 0 count bt (omega (arith, grown)) within now_used,
          used_mem-lt t addr 0 count (omega (arith, grown)),
        ),
      )

-- Where the last page of memory and the page after it are free and no page before them is, a
-- request for two pages is met by a run that ends past `total_mem`.
pub phys_alloc_past_end :
    (s : Phys) (last : ℕ)
    → AreBytes s.mem
    → s.total_mem ≡ (last + 1) * page_size
    → s.total_mem + 2 * page_size ≤ 2 ^ 32
    → ((q : ℕ) → q < last → page_used s.mem q ≡ true)
    → page_used s.mem last ≡ false
    → page_used s.mem (last + 1) ≡ false
    → (phys_alloc s 2).0 + 2 * page_size ≡ s.total_mem + page_size
phys_alloc_past_end s last b total room used free beyond = elim (phys_alloc_lem s 2 b room) [
  | inl (page, lt, start, was_free, after) ↦
      let lo : ¬ (page < last) = λ h. cc (used page h, was_free page (ground arith)) in
      omega (arith, start, total, lt, lo)
  | inr (exhausted, none_fits) ↦ absurd (
      none_fits last (omega (arith, total)) (λ q r. elim (Bool-cases (last == q)) [
        | inl e ↦ rw (← (==_iff last q).0 e) free
        | inr ne ↦ let e : q ≡ last + 1 = ground arith in rw e beyond
      ]))
]
