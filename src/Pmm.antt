-- ===== src/Pmm.antt =====
-- kernel/memory/pmm.c: the allocator of physical frames over a bitmap. `bytes` is the memory from
-- the bitmap on, so that a write behind its end is a write to that memory. The hint is the field
-- `pmm_last_index` of the calling CPU, `none` while `get_cpu()` is NULL.
pub mod Frames
pub mod Alloc
pub mod Full
pub mod Runs
pub mod Init
use kernel_smp.Base.{
  ℕ, zero, suc, ◌+◌, ◌-◌, ◌*◌, ◌/◌, ◌%◌, ◌^◌, ◌≤◌, ◌<◌, ◌≡◌, Bool, true, false, not, Option, none,
  some, ltb, leb, ◌==◌, if◌then◌else◌, update, u64, page_size, hhdm_offset, phys_to_virt, ◌&&◌,
  ◌||◌,
}
use kernel_smp.Base.Bytes.{bit_on, set_bit, clear_bit, ctz, every_below}

pub record Pmm : Type 0 where
  pub bitmap : ℕ
  pub bitmap_size : ℕ
  pub bytes : ℕ → ℕ

unfoldable pub pmm_set_frame : Pmm → ℕ → Pmm
pmm_set_frame s frame_addr =
    let i = frame_addr / page_size in
    record s { bytes = update s.bytes (i / 8) (set_bit (s.bytes (i / 8)) (i % 8)) }

pub pmm_unset_frame : Pmm → ℕ → Pmm
pmm_unset_frame s frame_addr =
    let i = frame_addr / page_size in
    record s { bytes = update s.bytes (i / 8) (clear_bit (s.bytes (i / 8)) (i % 8)) }

pub pmm_is_frame_set : Pmm → ℕ → Bool
pmm_is_frame_set s frame_addr = let i = frame_addr / page_size in bit_on (s.bytes (i / 8)) (i % 8)

pub record Allocated : Type 0 where
  pub pmm : Pmm
  pub hint : Option ℕ
  pub addr : ℕ  -- 0 is NULL

-- `if (cpu) cpu->pmm_last_index = i`
abbrev pub set_hint : Option ℕ → ℕ → Option ℕ
set_hint none i = none
set_hint (some h) i = some i

abbrev pub start_index : Option ℕ → ℕ
start_index none = 0
start_index (some h) = h

-- The address of bit `b` of byte `i`, and the tests of a round that go on to the next byte.
abbrev pub frame_addr : ℕ → ℕ → ℕ
frame_addr i b = u64 ((i * 8 + b) * page_size)

abbrev pub skips : ℕ → ℕ → Bool
skips byte i =
    let free_bits = 255 - byte in
    let b = ctz 8 free_bits in byte == 0xFF || (free_bits == 0 || leb 8 b || frame_addr i b == 0)

-- The loop of `pmm_alloc_frame` from byte `i`, with `n` rounds left.
unfoldable pub alloc_scan : ℕ → ℕ → Option ℕ → Pmm → Allocated
alloc_scan zero i hint s = record { pmm = s; hint = hint; addr = 0 }
alloc_scan (suc n) i hint s =
    let rest = alloc_scan n (suc i) hint s in
    let byte = s.bytes i in
    let b = ctz 8 (255 - byte) in
    if skips byte i then rest else record {
      pmm = record s { bytes = update s.bytes i (set_bit byte b) };
      hint = set_hint hint i;
      addr = frame_addr i b;
    }

unfoldable pub pmm_alloc_frame : Option ℕ → Pmm → Allocated
pmm_alloc_frame hint s =
    let start = start_index hint in
    if s.bitmap == 0
    then record { pmm = s; hint = hint; addr = 0 }
    else alloc_scan (s.bitmap_size - start) start hint s

-- How many frames from `bit` on are free, at most `n`: the loop over `j` of `pmm_alloc_frames`.
unfoldable pub free_run : ℕ → ℕ → Pmm → ℕ
free_run zero bit s = 0
free_run (suc n) bit s =
    if leb (s.bitmap_size * 8) bit || bit_on (s.bytes (bit / 8)) (bit % 8)
    then 0
    else suc (free_run n (suc bit) s)

-- The loop that marks `n` frames from `bit` on as used.
unfoldable pub mark_run : ℕ → ℕ → Pmm → Pmm
mark_run zero bit s = s
mark_run (suc n) bit s =
    mark_run n (suc bit)
      (record s { bytes = update s.bytes (bit / 8) (set_bit (s.bytes (bit / 8)) (bit % 8)) })

-- `bitmap64[i] == 0xFFFFFFFFFFFFFFFF`
unfoldable pub qword_full : Pmm → ℕ → Bool
qword_full s i = every_below 8 (λ k. s.bytes (i * 8 + k) == 0xFF)

-- The loop over `b` inside a qword, with `n` rounds left: the first bit that starts a run.
unfoldable pub scan_bits : ℕ → ℕ → ℕ → Pmm → Option ℕ
scan_bits zero bit count s = none
scan_bits (suc n) bit count s =
    if free_run count bit s == count then some bit else scan_bits n (suc bit) count s

-- The loop over the qwords.
unfoldable pub scan_qwords : ℕ → ℕ → ℕ → Pmm → Option ℕ
scan_qwords zero i count s = none
scan_qwords (suc n) i count s =
    let rest = scan_qwords n (suc i) count s in
    let here = scan_bits 64 (i * 64) count s in
    if qword_full s i then rest else elim here [ some bit ↦ some bit | none ↦ rest ]

unfoldable pub pmm_alloc_frames : ℕ → Pmm → Pmm × ℕ
pmm_alloc_frames count s =
    if s.bitmap == 0 || count == 0
    then (s, 0)
    else elim (scan_qwords (s.bitmap_size / 8) 0 count s) [
      | some bit ↦ (mark_run count bit s, u64 (bit * page_size))
      | none ↦ (s, 0)
    ]

-- `if (cpu && frame_index < cpu->pmm_last_index) cpu->pmm_last_index = frame_index`
abbrev pub lower_hint : Option ℕ → ℕ → Option ℕ
lower_hint none i = none
lower_hint (some h) i = if ltb i h then some i else some h

pub pmm_free_frame : ℕ → Option ℕ → Pmm → Pmm × Option ℕ
pmm_free_frame frame hint s =
    if frame == 0
    then (s, hint)
    else (pmm_unset_frame s frame, lower_hint hint (frame / page_size / 8))

pub pmm_move_to_high_half : Pmm → Pmm
pmm_move_to_high_half s =
    if not (s.bitmap == 0) && ltb s.bitmap hhdm_offset
    then record s { bitmap = phys_to_virt s.bitmap }
    else s

-- The bytes are bytes, and the bitmap covers a physical memory of at most `2 ^ 64` bytes.
pub record IsValid (s : Pmm) : Type 0 where
  pub present : (s.bitmap == 0) ≡ false
  pub small : s.bitmap_size ≤ 2 ^ 49
  pub byte : (i : ℕ) → s.bytes i < 256

-- Frame `n` is marked as used.
unfoldable pub used : Pmm → ℕ → Bool
used s n = bit_on (s.bytes (n / 8)) (n % 8)
