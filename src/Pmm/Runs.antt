-- ===== src/Pmm/Runs.antt =====
-- `pmm_alloc_frames`: a contiguous run of frames.
use kernel_smp.Base.{
  ℕ, zero, suc, ◌+◌, ◌-◌, ◌*◌, ◌/◌, ◌%◌, ◌≤◌, ◌<◌, ◌≡◌, ◌≢◌, ◌∙◌, ◌⊎◌, inl, inr, refl, true, false,
  ◌&&◌, ◌||◌, arith, ℕ_discrete, dec_lt, ◌==◌, ==→eq, ==_refl, leb, ltb, Option-cases, page_size,
  u64, none, some,
}
use kernel_smp.Base.Bytes.{bit_on_full, every_below-at}
use kernel_smp.Pmm.{
  Pmm, IsValid, used, free_run, mark_run, scan_bits, scan_qwords, qword_full, pmm_alloc_frames,
}
use kernel_smp.Pmm.Frames.{used-mark, mark-byte}

-- Frames `[bit, bit + n)` lie in the bitmap and are free.
abbrev pub AllFree : Pmm → ℕ → ℕ → Type 0
AllFree s bit n = (m : ℕ) → bit ≤ m → m < bit + n → (m < s.bitmap_size * 8) × (used s m ≡ false)

free_run-le : (n bit : ℕ) (s : Pmm) → free_run n bit s ≤ n
unfolding free_run
free_run-le zero bit s = omega arith
free_run-le (suc n) bit s = ground (arith, free_run-le n (suc bit) s)

free_run-suc :
    (n bit : ℕ) (s : Pmm)
    → free_run (suc n) bit s ≡ suc n
    → (bit < s.bitmap_size * 8) × (used s bit ≡ false) × (free_run n (suc bit) s ≡ n)
unfolding free_run used
free_run-suc n bit s e = ground arith

free_run-AllFree : (n bit : ℕ) (s : Pmm) → free_run n bit s ≡ n → AllFree s bit n
free_run-AllFree zero bit s e m lo hi = absurd (omega arith)
free_run-AllFree (suc n) bit s e m lo hi =
    let (inside, free, rest) = free_run-suc n bit s e in
    elim (ℕ_discrete m bit) [
      | yes here ↦ (omega arith, rw here free)
      | no later ↦ free_run-AllFree n (suc bit) s rest m (omega arith) (omega arith)
    ]

AllFree-free_run : (n bit : ℕ) (s : Pmm) → AllFree s bit n → free_run n bit s ≡ n
unfolding free_run used
AllFree-free_run zero bit s free = refl
AllFree-free_run (suc n) bit s free = ground (
  arith,
  free bit (omega arith) (omega arith),
  AllFree-free_run n (suc bit) s (λ m lo hi. free m (omega arith) (omega arith)),
)

-- Marking a run marks its frames and no other.
used-mark_run :
    (n bit m : ℕ) (s : Pmm)
    → ((j : ℕ) → s.bytes j < 256)
    → used (mark_run n bit s) m ≡ ((leb bit m && ltb m (bit + n)) || used s m)
unfolding mark_run
used-mark_run zero bit m s byte = ground arith
used-mark_run (suc n) bit m s byte =
    used-mark_run n (suc bit) m _ (λ j. mark-byte s.bytes (bit / 8) (bit % 8) j byte (omega arith))
    ∙ rw (used-mark s bit m byte) (ground arith)

scan_bits-found :
    (n bit count : ℕ) (s : Pmm) {b : ℕ}
    → scan_bits n bit count s ≡ some b
    → (bit ≤ b) × (b < bit + n) × (free_run count b s ≡ count)
unfolding scan_bits
scan_bits-found zero bit count s e = cc
scan_bits-found (suc n) bit count s {b} e =
    ground (arith, ==→eq (free_run count bit s) count, scan_bits-found n (suc bit) count s {b = b})

scan_bits-none :
    (n bit count : ℕ) (s : Pmm)
    → scan_bits (suc n) bit count s ≡ none
    → (free_run count bit s ≢ count) × (scan_bits n (suc bit) count s ≡ none)
unfolding scan_bits
scan_bits-none n bit count s e = (λ same. ground (arith, ==_refl count), ground arith)

scan_bits-missed :
    (n bit count : ℕ) (s : Pmm)
    → scan_bits n bit count s ≡ none
    → (b : ℕ) → bit ≤ b
    → b < bit + n
    → free_run count b s ≢ count
scan_bits-missed zero bit count s e b lo hi = absurd (omega arith)
scan_bits-missed (suc n) bit count s e b lo hi =
    let (first, rest) = scan_bits-none n bit count s e in
    elim (ℕ_discrete b bit) [
      | yes here ↦ rw here first
      | no later ↦ scan_bits-missed n (suc bit) count s rest b (omega arith) (omega arith)
    ]

scan_qwords-found :
    (n i count : ℕ) (s : Pmm) {b : ℕ}
    → scan_qwords n i count s ≡ some b
    → (b < (i + n) * 64) × (free_run count b s ≡ count)
unfolding scan_qwords
scan_qwords-found zero i count s e = cc
scan_qwords-found (suc n) i count s {b} e = ground (
  arith,
  scan_bits-found 64 (i * 64) count s {b = b},
  scan_qwords-found n (suc i) count s {b = b},
)

-- No run starts in a full qword.
qword_full-used :
    (s : Pmm) (i b : ℕ) → qword_full s i ≡ true → i * 64 ≤ b → b < i * 64 + 64 → used s b ≡ true
unfolding qword_full used
qword_full-used s i b full lo hi =
    let byte : s.bytes (i * 8 + (b / 8 - i * 8)) ≡ 255 =
      ==→eq _ _
        (every_below-at 8 (λ k. s.bytes (i * 8 + k) == 0xFF) (b / 8 - i * 8) (omega arith) full) in
    let at : i * 8 + (b / 8 - i * 8) ≡ b / 8 = omega arith in
    rw (rw at at byte) (bit_on_full (b % 8) (omega arith))

free_run-used : (n b : ℕ) (s : Pmm) → used s b ≡ true → free_run (suc n) b s ≢ suc n
unfolding free_run used
free_run-used n b s u = ground arith

scan_qwords-none :
    (n i count : ℕ) (s : Pmm)
    → scan_qwords (suc n) i count s ≡ none
    → ((qword_full s i ≡ true) ⊎ (scan_bits 64 (i * 64) count s ≡ none))
      × (scan_qwords n (suc i) count s ≡ none)
unfolding scan_qwords
scan_qwords-none n i count s e = ground arith

scan_qwords-missed :
    (n i count : ℕ) (s : Pmm)
    → scan_qwords n i (suc count) s ≡ none
    → (b : ℕ) → i * 64 ≤ b
    → b < (i + n) * 64
    → free_run (suc count) b s ≢ suc count
scan_qwords-missed zero i count s e b lo hi = absurd (omega arith)
scan_qwords-missed (suc n) i count s e b lo hi =
    let (first, rest) = scan_qwords-none n i (suc count) s e in
    elim (dec_lt b (i * 64 + 64)) [
      | no later ↦ scan_qwords-missed n (suc i) count s rest b (omega arith) (omega arith)
      | yes here ↦ elim first [
        | inl full ↦ free_run-used count b s (qword_full-used s i b full lo here)
        | inr gone ↦ scan_bits-missed 64 (i * 64) (suc count) s gone b lo here
      ]
    ]

-- A request for `count > 0` frames either returns the address of `count` frames in a row that lie in
-- the bitmap and were free, and marks those and no other; or it returns NULL, leaves the bitmap as
-- it was, and then no run of `count` free frames starts in a whole qword of the bitmap.
pub pmm_alloc_frames_lem :
    (count : ℕ) (s : Pmm)
    → IsValid s
    → let (s', a) = pmm_alloc_frames (suc count) s in
      ((a % page_size ≡ 0)
        × AllFree s (a / page_size) (suc count)
        × ((m : ℕ)
            → used s' m
              ≡ ((leb (a / page_size) m && ltb m (a / page_size + suc count)) || used s m)))
      ⊎ ((a ≡ 0) × (s' ≡ s) × ((b : ℕ) → b < s.bitmap_size / 8 * 64 → ¬ AllFree s b (suc count)))
unfolding pmm_alloc_frames
pmm_alloc_frames_lem count s v =
    elim (Option-cases (scan_qwords (s.bitmap_size / 8) 0 (suc count) s)) [
      | inl e ↦
          rw (v.present, positive, e)
            (inr (
              refl,
              refl,
              λ b hi free.
                  scan_qwords-missed (s.bitmap_size / 8) 0 count s e b (omega arith) (omega arith)
                    (AllFree-free_run (suc count) b s free),
            ))
      | inr (b, e) ↦
          let (inside, run) = scan_qwords-found (s.bitmap_size / 8) 0 (suc count) s e in
          let frame : u64 (b * page_size) / page_size ≡ b = omega (arith, v.small) in
          rw (v.present, positive, e)
            (inl (
              omega arith,
              rw frame (free_run-AllFree (suc count) b s run),
              λ m. rw frame (used-mark_run (suc count) b m s v.byte),
            ))
    ]
  where
    positive : (suc count == 0) ≡ false
    positive = ground arith
