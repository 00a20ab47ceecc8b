-- ===== src/Vma/Map/Overlap.antt =====
-- What `vma_map` of kernel/memory/vma.c promises of the ranges.
use kernel_smp.Base.{
  ℕ, zero, suc, ◌+◌, ◌≤◌, ◌≡◌, ◌≢◌, ◌⊎◌, inl, inr, true, false, ◌&&◌, some, ltb, ◌==◌, arith,
  Bool-cases, Option-cases, u64, page_align_up, ◌%◌, ◌<◌, ◌^◌, subst, update, ◌∙◌, ap,
}
use kernel_smp.Vmm.{flags_of, bit}
use kernel_smp.Vma.{Areas, set}
use kernel_smp.Vma.Tree.Ranges.{range, ranges}
use kernel_smp.Vma.Map.{Space, ok, overlaps, find_neighbour, vma_map, vmm_opts, expand_area, create}
use kernel_smp.Vma.Map.Result.{expand_area-areas, create-areas, ranges-link, grown_end}

-- `p` is among the first `n` areas of the list from `curr` on.
unfoldable pub Listed : Areas → ℕ → ℕ → ℕ → Type 0
Listed s p zero curr = ⊥
Listed s p (suc n) curr = (curr ≢ 0) × ((p ≡ curr) ⊎ Listed s p n (s.area curr).next)

-- `addr … end` and the area have no address in common.
abbrev pub Apart : Areas → ℕ → ℕ → ℕ → Type 0
Apart s p addr end = ((s.area p).vm_end ≤ addr) ⊎ (end ≤ (s.area p).vm_start)

overlaps_rest :
    (s : Areas) (addr size n curr : ℕ)
    → curr ≢ 0
    → overlaps (suc n) s addr size curr ≡ some false
    → overlaps n s addr size (s.area curr).next ≡ some false
unfolding overlaps
overlaps_rest s addr size n curr ne e = ground arith

overlaps_none :
    (s : Areas) (addr size n curr p : ℕ)
    → overlaps n s addr size curr ≡ some false
    → Listed s p n curr
    → Apart s p addr (u64 (addr + size))
unfolding overlaps Listed
overlaps_none s addr size zero curr p e l = absurd l
overlaps_none s addr size (suc n) curr p e (ne, inl here) =
    elim (Bool-cases (ltb addr (s.area curr).vm_end)) [
      | inl a ↦ elim (Bool-cases (ltb (s.area curr).vm_start (u64 (addr + size)))) [
        | inl b ↦ ground arith
        | inr b ↦ inr (rw here (starts_after b))
      ]
      | inr a ↦ inl (rw here (ends_before a))
    ]
  where
    starts_after : {a b : ℕ} → ltb a b ≡ false → b ≤ a
    starts_after h = ground arith

    ends_before : {a b : ℕ} → ltb a b ≡ false → b ≤ a
    ends_before h = ground arith
overlaps_none s addr size (suc n) curr p e (ne, inr later) =
    overlaps_none s addr size n (s.area curr).next p (overlaps_rest s addr size n curr ne e) later

-- The neighbour found is an area that ends where the new range starts, with the same flags.
neighbour_lem :
    (s : Areas) (addr flags n curr p : ℕ)
    → find_neighbour n s addr flags curr ≡ some p
    → (p ≡ 0) ⊎ (Listed s p n curr × ((s.area p).vm_end ≡ addr) × ((s.area p).vm_flags ≡ flags))
unfolding find_neighbour Listed
neighbour_lem s addr flags zero curr p e = ground arith
neighbour_lem s addr flags (suc n) curr p e = elim (Bool-cases (curr == 0)) [
  | inl null ↦ ground arith
  | inr some_area ↦
      elim (Bool-cases ((s.area curr).vm_end == addr && (s.area curr).vm_flags == flags)) [
        | inl here ↦ inr (ground arith, ground arith, ground arith)
        | inr other ↦ elim (neighbour_lem s addr flags n (s.area curr).next p (ground arith)) [
          | inl z ↦ inl z
          | inr (l, a, b) ↦ inr ((ground arith, inr l), a, b)
        ]
      ]
]

-- The flags of the mapping never forbid execution: bit 63 does not fit in 32 bits.
pub vmm_opts-nx :
    (flags : ℕ)
    → ((flags_of (vmm_opts flags)).nx ≡ false)
      × ((flags_of (vmm_opts flags)).writable ≡ bit flags 1)
unfolding vmm_opts flags_of
vmm_opts-nx flags = (ground arith, ground arith)

-- A success is a neighbour that grows, or a new area where none overlaps.
vma_map_ok :
    (n new addr size flags : ℕ) (s s' : Space)
    → vma_map n new addr size flags s ≡ some (s', ok)
    → (size ≢ 0)
      × (addr % 4096 ≡ 0)
      × (p : ℕ) × (find_neighbour n s.areas addr flags s.areas.list_head ≡ some p)
      × (((p ≢ 0) × (expand_area p addr (page_align_up size) flags s ≡ some (s', ok)))
          ⊎ ((overlaps n s.areas addr (page_align_up size) s.areas.list_head ≡ some false)
              × (create n new addr (page_align_up size) flags s ≡ some (s', ok))))
unfolding vma_map
vma_map_ok n new addr size flags s s' e = elim (Bool-cases (size == 0)) [
  | inl z ↦ ground arith
  | inr nz ↦ elim (Bool-cases (addr % 4096 == 0)) [
    | inr a ↦ ground arith
    | inl a ↦ elim (Option-cases (find_neighbour n s.areas addr flags s.areas.list_head)) [
      | inl f ↦ ground arith
      | inr (p, f) ↦ elim (Bool-cases (p == 0)) [
        | inr near ↦ (ground arith, ground arith, p, f, inl (ground arith, ground arith))
        | inl far ↦
            elim (Option-cases (overlaps n s.areas addr (page_align_up size) s.areas.list_head)) [
              | inl g ↦ ground arith
              | inr (true, g) ↦ ground arith
              | inr (false, g) ↦ (ground arith, ground arith, p, f, inr (g, ground arith))
            ]
      ]
    ]
  ]
]

-- A mapping of a range that does not wrap succeeds only for a size that is not 0 and an address at a
-- page, and then in one of two ways. An area of the list that ended at the address, with the same
-- flags, now ends where the range ends, its size rounded up to pages, and no other area is changed.
-- Or no area of the list has an address of the range, the list has a new area at its head, with the
-- range and the flags, and the ranges, flags and links of the others are as before.
pub vma_map_lem :
    (n new addr size flags : ℕ) (s s' : Space)
    → addr + page_align_up size < 2 ^ 64
    → vma_map n new addr size flags s ≡ some (s', ok)
    → let end = addr + page_align_up size in
      (size ≢ 0)
      × (addr % 4096 ≡ 0)
      × (((p : ℕ) × Listed s.areas p n s.areas.list_head
            × ((s.areas.area p).vm_end ≡ addr)
            × ((s.areas.area p).vm_flags ≡ flags)
            × (s'.areas ≡ set s.areas p (λ v. record v { vm_end = end })))
          ⊎ (((p : ℕ) → Listed s.areas p n s.areas.list_head → Apart s.areas p addr end)
              × (new ≢ 0)
              × (ranges s'.areas ≡ (
                new,
                update (λ p. range (s.areas.area p)) new (addr, end, flags, s.areas.list_head),
              ))))
vma_map_lem n new addr size flags s s' low e =
    let (nz, aligned, p, f, how) = vma_map_ok n new addr size flags s s' e in
    let end = addr + page_align_up size in
    let exact : u64 (addr + page_align_up size) ≡ end = omega arith in
    (
      nz,
      aligned,
      elim how [
        | inl (found, grows) ↦ elim (neighbour_lem s.areas addr flags n s.areas.list_head p f) [
          | inl z ↦ absurd (found z)
          | inr (listed, near, same) ↦ inl (
            p,
            listed,
            near,
            same,
            expand_area-areas p addr (page_align_up size) flags s s' grows
                ∙ grown_end p addr (page_align_up size) s.areas near low,
          )
        ]
        | inr (free, makes) ↦
            let (real, areas) = create-areas n new addr (page_align_up size) flags s s' makes in
            inr (
              λ q l.
                  subst (Apart s.areas q addr) exact
                    (overlaps_none s.areas addr (page_align_up size) n s.areas.list_head q free l),
              real,
              areas
                  ∙ ranges-link new addr (page_align_up size) flags s.areas
                  ∙ ap
                      (λ (x : ℕ). (
                        new,
                        update (λ p. range (s.areas.area p)) new
                            (addr, x, flags, s.areas.list_head),
                      ))
                      exact,
            )
      ],
    )
