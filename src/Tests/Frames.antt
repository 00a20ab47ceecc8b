-- ===== src/Tests/Frames.antt =====
-- The theorems of the frames at a bitmap of four bytes, the first of them in use in part.
use kernel_smp.Base.{
  ℕ, ◌+◌, ◌*◌, ◌/◌, ◌%◌, ◌≤◌, ◌<◌, ◌≡◌, ◌≢◌, ◌⊎◌, refl, ◌&&◌, ◌||◌, false, some, ltb, leb, ◌==◌,
  if◌then◌else◌, page_size, arith,
}
use kernel_smp.Base.Bytes.{bit_on, set_bit, ctz}
use kernel_smp.Pmm.{
  Pmm, IsValid, used, start_index, pmm_alloc_frame, pmm_set_frame, alloc_scan, pmm_alloc_frames,
  pmm_free_frame,
}
use kernel_smp.Pmm.Alloc.{
  Fresh, Exhausted, pmm_alloc_frame_lem, pmm_free_frame-alloc, pmm_alloc_frame_hint,
}
use kernel_smp.Pmm.Runs.{AllFree, pmm_alloc_frames_lem}

abbrev few : Pmm
few = record { bitmap = 4096; bitmap_size = 16; bytes = λ i. if i == 0 then 3 else 0 }

few-IsValid : IsValid few
few-IsValid = record { present = refl; small = omega arith; byte = λ i. ground arith }

-- The byte 0 is in use in part, and the rest is full.
abbrev nearly_full : Pmm
nearly_full = record { bitmap = 4096; bitmap_size = 16; bytes = λ i. if i == 0 then 3 else 255 }

nearly_full-IsValid : IsValid nearly_full
nearly_full-IsValid = record { present = refl; small = omega arith; byte = λ i. ground arith }

pmm_alloc_frame_lem_example :
    (Fresh few (pmm_alloc_frame (some 0) few) × (pmm_alloc_frame (some 0) few).addr ≢ 0)
    ⊎ Exhausted 0 16 few (pmm_alloc_frame (some 0) few)
unfolding used bit_on
pmm_alloc_frame_lem_example = pmm_alloc_frame_lem (some 0) few few-IsValid refl (omega arith)

pmm_free_frame-alloc_example :
    let a = pmm_alloc_frame (some 0) few in
    let freed = pmm_free_frame a.addr (some 1) a.pmm in
    ((n : ℕ) → used freed.0 n ≡ used few n)
    × (start_index freed.1 ≤ 1)
    × (start_index freed.1 ≤ a.addr / page_size / 8)
unfolding pmm_alloc_frame alloc_scan pmm_set_frame used bit_on set_bit ctz
pmm_free_frame-alloc_example =
    pmm_free_frame-alloc (some 0) 1 few few-IsValid refl (omega arith)
      (λ e. absurd (omega (arith, e)))

pmm_alloc_frame_hint_example :
    let freed = (pmm_free_frame 4096 (some 0) nearly_full).0 in
    (used freed 1 ≡ false) × ((pmm_alloc_frame (some 1) freed).addr ≡ 0)
pmm_alloc_frame_hint_example =
    pmm_alloc_frame_hint 1 0 4096 nearly_full nearly_full-IsValid (omega arith) (omega arith)
      (λ i lo hi. ground arith)

pmm_alloc_frames_lem_example :
    let (s', a) = pmm_alloc_frames 3 few in
    ((a % page_size ≡ 0)
      × AllFree few (a / page_size) 3
      × ((m : ℕ)
          → used s' m ≡ ((leb (a / page_size) m && ltb m (a / page_size + 3)) || used few m)))
    ⊎ ((a ≡ 0) × (s' ≡ few) × ((b : ℕ) → b < 16 / 8 * 64 → ¬ AllFree few b 3))
pmm_alloc_frames_lem_example = pmm_alloc_frames_lem 2 few few-IsValid
