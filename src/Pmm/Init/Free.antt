-- ===== src/Pmm/Init/Free.antt =====
-- Which frames `pmm_init` leaves free.
use kernel_smp.Base.{
  ℕ, zero, suc, ◌+◌, ◌-◌, ◌*◌, ◌/◌, ◌%◌, ◌^◌, ◌≤◌, ◌<◌, ◌≡◌, ◌≢◌, ◌∙◌, ◌⊎◌, inl, inr, Bool, true,
  false, arith, ℕ_discrete, dec_lt, ◌==◌, ==_refl, ne→==, leb, ltb, leb→le, Bool-cases, page_size,
  u64, if◌then◌else◌, List, [], ◌∷◌,
}
use kernel_smp.Base.Bytes.{bit_on_full}
use kernel_smp.Pmm.{Pmm, used, pmm_set_frame, pmm_unset_frame}
use kernel_smp.Pmm.Frames.{used-set_frame, used-unset_frame, mark-byte, unmark-byte}
use kernel_smp.Pmm.Init.{
  Descriptor, BootInfo, highest_addr, find_bitmap, fill_ff, unlock_pages, is_usable, unlock_regions,
  lock_range, pmm_init,
}

abbrev Bytes : Pmm → Type 0
Bytes s = (j : ℕ) → s.bytes j < 256

set-Bytes : (s : Pmm) (a : ℕ) → Bytes s → Bytes (pmm_set_frame s a)
unfolding pmm_set_frame
set-Bytes s a byte j = mark-byte s.bytes _ _ j byte (omega arith)

unset-Bytes : (s : Pmm) (a : ℕ) → Bytes s → Bytes (pmm_unset_frame s a)
unfolding pmm_unset_frame
unset-Bytes s a byte j = unmark-byte s.bytes _ _ j byte (omega arith)

-- Locking keeps what is used, and marks its own range.
lock_range-used :
    (n a m : ℕ) (s : Pmm) → Bytes s → used s m ≡ true → used (lock_range n a s) m ≡ true
unfolding lock_range
lock_range-used zero a m s byte u = u
lock_range-used (suc n) a m s byte u =
    lock_range-used n (u64 (a + page_size)) m _ (set-Bytes s a byte)
      (used-set_frame s a m byte ∙ rw u (ground arith))

lock_range-marks :
    (n a m : ℕ) (s : Pmm)
    → Bytes s
    → a + n * page_size < 2 ^ 64
    → a / page_size ≤ m
    → m < a / page_size + n
    → used (lock_range n a s) m ≡ true
unfolding lock_range
lock_range-marks zero a m s byte fits lo hi = absurd (omega arith)
lock_range-marks (suc n) a m s byte fits lo hi = elim (ℕ_discrete m (a / page_size)) [
  | yes here ↦
      lock_range-used n _ m _ (set-Bytes s a byte)
        (used-set_frame s a m byte ∙ rw (here, ==_refl (a / page_size)))
  | no later ↦
      let next : u64 (a + page_size) ≡ a + page_size = omega arith in
      lock_range-marks n _ m _ (set-Bytes s a byte) (rw next (omega arith)) (rw next (omega arith))
        (rw next (omega arith))
]

lock_range-Bytes : (n a : ℕ) (s : Pmm) → Bytes s → Bytes (lock_range n a s)
unfolding lock_range
lock_range-Bytes zero a s byte = byte
lock_range-Bytes (suc n) a s byte = lock_range-Bytes n _ _ (set-Bytes s a byte)

-- Frame `m` is page `j` of a region that the kernel may use, above the first megabyte.
abbrev pub Page : Descriptor → ℕ → Type 0
Page d m =
    (is_usable d ≡ true)
    × ((j : ℕ) × (j < d.num_pages) × (m ≡ u64 (d.physical_start + j * page_size) / page_size))
    × (256 ≤ m)

abbrev pub Usable : List Descriptor → ℕ → Type 0
Usable [] m = ⊥
Usable (d ∷ ds) m = Page d m ⊎ Usable ds m

-- Clearing frames frees none but those of the pages that are cleared.
unlock_pages-free :
    (n j : ℕ) (d : Descriptor) (m : ℕ) (s : Pmm)
    → Bytes s
    → is_usable d ≡ true
    → j + n ≤ d.num_pages
    → used (unlock_pages n j d.physical_start s) m ≡ false
    → (used s m ≡ false) ⊎ Page d m
unfolding unlock_pages
unlock_pages-free zero j d m s byte u h f = inl f
unlock_pages-free (suc n) j d m s byte u h f =
    elim (Bool-cases (leb 0x100000 (u64 (d.physical_start + j * page_size)))) [
      | inr low ↦ unlock_pages-free n (suc j) d m s byte u (omega arith) (rw low at f)
      | inl high ↦
          elim (unlock_pages-free n (suc j) d m _ (unset-Bytes s _ byte) u (omega arith)
            (rw high at f)) [
              | inr page ↦ inr page
              | inl off ↦ elim (ℕ_discrete m (u64 (d.physical_start + j * page_size) / page_size)) [
                | yes here ↦ inr (u, (j, omega arith, here), ground (arith, leb→le _ _ high))
                | no other ↦ inl (
                    ground
                      (arith, used-unset_frame s (u64 (d.physical_start + j * page_size)) m byte))
              ]
            ]
    ]

unlock_pages-Bytes : (n j start : ℕ) (s : Pmm) → Bytes s → Bytes (unlock_pages n j start s)
unfolding unlock_pages
unlock_pages-Bytes zero j start s byte = byte
unlock_pages-Bytes (suc n) j start s byte =
    elim (Bool-cases (leb 0x100000 (u64 (start + j * page_size)))) [
      | inr low ↦ rw (low, unlock_pages) (unlock_pages-Bytes n (suc j) start s byte)
      | inl high ↦
          rw (high, unlock_pages) (unlock_pages-Bytes n (suc j) start _ (unset-Bytes s _ byte))
    ]

unlock_regions-free :
    (ds : List Descriptor) (m : ℕ) (s : Pmm)
    → Bytes s
    → used (unlock_regions ds s) m ≡ false
    → (used s m ≡ false) ⊎ Usable ds m
unfolding unlock_regions
unlock_regions-free [] m s byte f = inl f
unlock_regions-free (d ∷ ds) m s byte f = elim (Bool-cases (is_usable d)) [
  | inr no_use ↦ elim (unlock_regions-free ds m s byte (rw no_use at f)) [
    | inl off ↦ inl off
    | inr rest ↦ inr (inr rest)
  ]
  | inl usable ↦
      elim (unlock_regions-free ds m _ (unlock_pages-Bytes d.num_pages 0 d.physical_start s byte)
        (rw usable at f)) [
          | inr rest ↦ inr (inr rest)
          | inl off ↦ elim (unlock_pages-free d.num_pages 0 d m s byte usable (omega arith) off) [
            | inl before ↦ inl before
            | inr page ↦ inr (inl page)
          ]
        ]
]

unlock_regions-Bytes : (ds : List Descriptor) (s : Pmm) → Bytes s → Bytes (unlock_regions ds s)
unfolding unlock_regions
unlock_regions-Bytes [] s byte = byte
unlock_regions-Bytes (d ∷ ds) s byte = elim (Bool-cases (is_usable d)) [
  | inr no_use ↦ rw (no_use, unlock_regions) (unlock_regions-Bytes ds s byte)
  | inl usable ↦
      rw (usable, unlock_regions)
        (unlock_regions-Bytes ds _ (unlock_pages-Bytes d.num_pages 0 d.physical_start s byte))
]

fill_ff-lem : (n : ℕ) (f : ℕ → ℕ) (j : ℕ) → fill_ff n f j ≡ (if ltb j n then 0xFF else f j)
unfolding fill_ff
fill_ff-lem zero f j = ground arith
fill_ff-lem (suc n) f j = ground (arith, fill_ff-lem n f j)

abbrev pub bitmap_bytes : BootInfo → ℕ
bitmap_bytes bi = highest_addr 0 bi.memory_map / page_size / 8

abbrev pub kernel_pages : BootInfo → ℕ
kernel_pages bi = (bi.kernel_size + page_size + page_size - 1) / page_size

abbrev pub Outside : ℕ → ℕ → ℕ → Type 0
Outside m start n = (m < start / page_size) ⊎ (start / page_size + n ≤ m)

outside :
    (m start n : ℕ) (b : Bool)
    → b ≡ false
    → (start / page_size ≤ m → m < start / page_size + n → b ≡ true)
    → Outside m start n
outside m start n b off inside = elim (dec_lt m (start / page_size)) [
  | yes below ↦ inl below
  | no above ↦ elim (dec_lt m (start / page_size + n)) [
    | no over ↦ inr (omega arith)
    | yes within ↦ cc (inside (omega arith) within, off)
  ]
]

still_free : (n a m : ℕ) (s : Pmm) → Bytes s → used (lock_range n a s) m ≡ false → used s m ≡ false
still_free n a m s byte off = elim (Bool-cases (used s m)) [
  | inr free ↦ free
  | inl u ↦ cc (lock_range-used n a m s byte u, off)
]

-- The empty bitmap has every frame marked.
filled : (size m : ℕ) (memory : ℕ → ℕ) → m < size * 8 → fill_ff size memory (m / 8) ≡ 0xFF
filled size m memory lt = ground (arith, fill_ff-lem size memory (m / 8))

filled-used :
    (s : Pmm) (size m : ℕ) (memory : ℕ → ℕ)
    → s.bytes ≡ fill_ff size memory
    → m < size * 8
    → used s m ≡ true
unfolding used
filled-used s size m memory e lt =
    rw (e, filled size m memory lt) (bit_on_full (m % 8) (omega arith))

filled-byte :
    (size j : ℕ) (memory : ℕ → ℕ) → ((i : ℕ) → memory i < 256) → fill_ff size memory j < 256
filled-byte size j memory byte = ground (arith, fill_ff-lem size memory j, byte j)

-- After `pmm_init` found a place for the bitmap, every frame of the bitmap that is free is a page
-- of a region of conventional memory or boot services data, lies above the first megabyte, outside
-- the kernel and the page behind it, and outside the bitmap.
pub pmm_init-free :
    (bi : BootInfo) (memory : ℕ → ℕ) (m : ℕ)
    → ((j : ℕ) → memory j < 256)
    → let bitmap = find_bitmap (bitmap_bytes bi) bi.memory_map in
      bitmap ≢ 0
      → bi.kernel_base + kernel_pages bi * page_size < 2 ^ 64
      → bitmap + (bitmap_bytes bi + page_size - 1) / page_size * page_size < 2 ^ 64
      → m < bitmap_bytes bi * 8
      → used (pmm_init bi memory) m ≡ false
      → Usable bi.memory_map m
        × (256 ≤ m)
        × Outside m bi.kernel_base (kernel_pages bi)
        × Outside m bitmap ((bitmap_bytes bi + page_size - 1) / page_size)
unfolding pmm_init
pmm_init-free bi memory m byte found fits_kernel fits_bitmap lt off = (
  elim (unlock_regions-free bi.memory_map m empty empty_byte
      (still_free _ _ m unlocked byte₁ off₂)) [
        | inr page ↦ page
        | inl free ↦
            cc (filled-used empty (bitmap_bytes bi) m memory (rw (ne→== bitmap 0 found)) lt, free)
      ],
  above,
  outside m _ _ _ off₃ (lock_range-marks _ _ m low byte₂ fits_kernel),
  outside m _ _ _ off (lock_range-marks _ _ m kernel byte₃ fits_bitmap),
)
  where
    bitmap : ℕ
    bitmap = find_bitmap (bitmap_bytes bi) bi.memory_map

    empty : Pmm
    empty = record {
      bitmap = bitmap;
      bitmap_size = bitmap_bytes bi;
      bytes = if bitmap == 0 then memory else fill_ff (bitmap_bytes bi) memory;
    }

    unlocked : Pmm
    unlocked = unlock_regions bi.memory_map empty

    low : Pmm
    low = lock_range (0x100000 / page_size) 0 unlocked

    kernel : Pmm
    kernel = lock_range (kernel_pages bi) bi.kernel_base low

    empty_byte : Bytes empty
    empty_byte j = rw (ne→== bitmap 0 found) (filled-byte (bitmap_bytes bi) j memory byte)

    byte₁ : Bytes unlocked
    byte₁ = unlock_regions-Bytes bi.memory_map empty empty_byte

    byte₂ : Bytes low
    byte₂ = lock_range-Bytes (0x100000 / page_size) 0 unlocked byte₁

    byte₃ : Bytes kernel
    byte₃ = lock_range-Bytes (kernel_pages bi) bi.kernel_base low byte₂

    off₃ : used kernel m ≡ false
    off₃ = still_free _ bitmap m kernel byte₃ off

    off₂ : used low m ≡ false
    off₂ = still_free _ bi.kernel_base m low byte₂ off₃

    above : 256 ≤ m
    above = elim (outside m 0 256 _ off₂ (lock_range-marks 256 0 m unlocked byte₁ (omega arith))) [
      | inl below ↦ absurd (omega arith)
      | inr over ↦ over
    ]
