-- ===== src/Pmm/Alloc.antt =====
-- `pmm_alloc_frame` and `pmm_free_frame`: what a successful and a failed allocation say of every
-- frame, and that freeing undoes an allocation.
use kernel_smp.Base.{
  ℕ, zero, suc, ◌+◌, ◌-◌, ◌*◌, ◌/◌, ◌%◌, ◌≤◌, ◌<◌, ◌≡◌, ◌≢◌, ◌∙◌, sym, ==_refl, ne→==, ◌⊎◌, inl,
  inr, refl, Bool, true, false, not, ◌&&◌, ◌||◌, arith, ◌==◌, update, Bool-cases, ==→eq, page_size,
  Option, none, some,
}
use kernel_smp.Base.Bytes.{bit_on, set_bit, ctz, ctz-lt, ctz-clear}
use kernel_smp.Pmm.{
  Pmm, Allocated, IsValid, used, pmm_unset_frame, alloc_scan, frame_addr, skips, set_hint,
  start_index, pmm_alloc_frame, pmm_free_frame,
}
use kernel_smp.Pmm.Frames.{used-mark, mark-byte, used-unset_frame}

-- What a call reports: a fresh frame below the end of the bitmap, marked, and nothing else changed;
-- or no frame, the state as it was, and every byte that was searched is full.
pub record Fresh (s : Pmm) (r : Allocated) : Type 0 where
  pub aligned : r.addr % page_size ≡ 0
  pub inside : r.addr / page_size < s.bitmap_size * 8
  pub free_before : used s (r.addr / page_size) ≡ false
  pub marked : (n : ℕ) → used r.pmm n ≡ (n == r.addr / page_size || used s n)
  pub valid : IsValid r.pmm
  pub sized : r.pmm.bitmap_size ≡ s.bitmap_size
  pub hinted : start_index r.hint ≤ s.bitmap_size

pub record Exhausted (lo hi : ℕ) (s : Pmm) (r : Allocated) : Type 0 where
  pub null : r.addr ≡ 0
  pub same : r.pmm ≡ s
  pub full : (i : ℕ) → lo ≤ i → i < hi → s.bytes i ≡ 255

-- The state after the free bit `b` of byte `i` is taken.
abbrev taken : Pmm → Option ℕ → ℕ → ℕ → Allocated
taken s hint i b = record {
  pmm = record s { bytes = update s.bytes i (set_bit (s.bytes i) b) };
  hint = hint;
  addr = frame_addr i b;
}

set_hint-le : (hint : Option ℕ) (i n : ℕ) → i < n → start_index (set_hint hint i) ≤ n
set_hint-le none i n h = omega arith
set_hint-le (some k) i n h = omega arith

taken-Fresh :
    (s : Pmm) (hint : Option ℕ) (i b : ℕ)
    → IsValid s
    → start_index hint ≤ s.bitmap_size
    → i < s.bitmap_size
    → b < 8
    → bit_on (s.bytes i) b ≡ false
    → Fresh s (taken s hint i b)
unfolding used
taken-Fresh s hint i b v hinted h hb off = record {
  aligned = omega arith;
  inside = omega (arith, v.small);
  free_before = rw (frame, byte, bit) off;
  marked = λ n. rw frame (rw (byte, bit) at (used-mark s (i * 8 + b) n v.byte));
  valid = record {
    present = v.present;
    small = v.small;
    byte = λ j. mark-byte s.bytes i b j v.byte hb;
  };
  sized = refl;
  hinted = hinted;
}
  where
    frame : frame_addr i b / page_size ≡ i * 8 + b
    frame = omega (arith, v.small)

    byte : (i * 8 + b) / 8 ≡ i
    byte = omega arith

    bit : (i * 8 + b) % 8 ≡ b
    bit = omega arith

-- Frame 0 is never free, so no round skips a byte for its sake.
nonzero :
    (s : Pmm) (i b : ℕ)
    → IsValid s
    → used s 0 ≡ true
    → i < s.bitmap_size
    → b < 8
    → bit_on (s.bytes i) b ≡ false
    → frame_addr i b ≢ 0
unfolding used
nonzero s i b v zero_used h hb off e =
    let i0 : i ≡ 0 = omega (arith, v.small) in
    let b0 : b ≡ 0 = omega (arith, v.small) in cc (rw (i0, b0) at off, zero_used)

alloc_scan_lem :
    (n i : ℕ) (hint : Option ℕ) (s : Pmm)
    → IsValid s
    → used s 0 ≡ true
    → i + n ≤ s.bitmap_size
    → Fresh s (alloc_scan n i hint s) × (alloc_scan n i hint s).addr ≢ 0
      ⊎ Exhausted i (i + n) s (alloc_scan n i hint s)
unfolding alloc_scan
alloc_scan_lem zero i hint s v z h =
    inr (record { null = refl; same = refl; full = λ j lo hi. absurd (omega arith) })
alloc_scan_lem (suc n) i hint s v z h = elim (Bool-cases (s.bytes i == 255)) [
  | inl full ↦
      rw (skips_full full)
        (next (==→eq _ _ full) (alloc_scan_lem n (suc i) hint s v z (omega arith)))
  | inr more ↦
      let ne : s.bytes i ≢ 255 = ground arith in
      let lt = ctz-lt (s.bytes i) (v.byte i) ne in
      let off = ctz-clear (s.bytes i) (v.byte i) ne in
      let pos = nonzero s i _ v z (omega arith) lt off in
      rw (skips_free ne lt pos) (
        inl (
          taken-Fresh s (set_hint hint i) i _ v (set_hint-le hint i _ (omega arith)) (omega arith)
              lt off,
          pos,
        ))
]
  where
    skips_full : (s.bytes i == 255) ≡ true → skips (s.bytes i) i ≡ true
    skips_full e = rw e

    skips_free :
        s.bytes i ≢ 255
        → ctz 8 (255 - s.bytes i) < 8
        → frame_addr i (ctz 8 (255 - s.bytes i)) ≢ 0
        → skips (s.bytes i) i ≡ false
    skips_free ne lt pos = ground (arith, v.byte i)

    next :
        {r : Allocated}
        → s.bytes i ≡ 255
        → (Fresh s r × r.addr ≢ 0) ⊎ Exhausted (suc i) (suc i + n) s r
        → (Fresh s r × r.addr ≢ 0) ⊎ Exhausted i (i + suc n) s r
    next full (inl found) = inl found
    next full (inr x) =
        inr (record { null = x.null; same = x.same; full = λ j lo hi. ground (arith, x.full j) })

-- With a bitmap, and frame 0 marked as used, an allocation returns the address of a frame that was
-- free, now marked, with no other frame changed, and keeps the allocator valid; or it returns NULL,
-- leaves the bitmap as it was, and then every byte from the hint on is full.
pub pmm_alloc_frame_lem :
    (hint : Option ℕ) (s : Pmm)
    → IsValid s
    → used s 0 ≡ true
    → start_index hint ≤ s.bitmap_size
    → (Fresh s (pmm_alloc_frame hint s) × (pmm_alloc_frame hint s).addr ≢ 0)
      ⊎ Exhausted (start_index hint) s.bitmap_size s (pmm_alloc_frame hint s)
unfolding pmm_alloc_frame
pmm_alloc_frame_lem hint s v z h =
    let end : start_index hint + (s.bitmap_size - start_index hint) ≡ s.bitmap_size = omega arith in
    rw v.present (
      rw end at (
        alloc_scan_lem (s.bitmap_size - start_index hint) (start_index hint) hint s v z
          (omega arith)))

-- A frame that is handed out is not handed out again while it is marked: two allocations in a row,
-- by any two CPUs, never return the same frame.
pub pmm_alloc_frame_twice :
    (h h' : Option ℕ) (s : Pmm)
    → IsValid s
    → used s 0 ≡ true
    → start_index h ≤ s.bitmap_size
    → start_index h' ≤ (pmm_alloc_frame h s).pmm.bitmap_size
    → (pmm_alloc_frame h s).addr ≢ 0
    → (pmm_alloc_frame h' (pmm_alloc_frame h s).pmm).addr ≢ (pmm_alloc_frame h s).addr
pmm_alloc_frame_twice h h' s v z lo lo' ok same = elim (pmm_alloc_frame_lem h s v z lo) [
  | inr x ↦ ok x.null
  | inl (a, _) ↦
      let s' = (pmm_alloc_frame h s).pmm in
      let frame = (pmm_alloc_frame h s).addr / page_size in
      let held : used s' frame ≡ true = a.marked frame ∙ rw (==_refl frame) in
      let z' : used s' 0 ≡ true = a.marked 0 ∙ rw z (||-true _) in
      elim (pmm_alloc_frame_lem h' s' a.valid z' lo') [
        | inl (b, _) ↦ cc (held, rw same at b.free_before)
        | inr x ↦ ok (sym same ∙ x.null)
      ]
]
  where
    ||-true : (b : Bool) → (b || true) ≡ true
    ||-true b = ground arith

-- Freeing the frame that an allocation returned restores the mark of every frame, and lowers the
-- hint of the freeing CPU to the byte of the frame or leaves it lower.
pub pmm_free_frame-alloc :
    (hint : Option ℕ) (k : ℕ) (s : Pmm)
    → IsValid s
    → used s 0 ≡ true
    → start_index hint ≤ s.bitmap_size
    → (pmm_alloc_frame hint s).addr ≢ 0
    → let a = pmm_alloc_frame hint s in
      let freed = pmm_free_frame a.addr (some k) a.pmm in
      ((n : ℕ) → used freed.0 n ≡ used s n)
      × (start_index freed.1 ≤ k)
      × (start_index freed.1 ≤ a.addr / page_size / 8)
unfolding pmm_free_frame
pmm_free_frame-alloc hint k s v z lo ok = elim (pmm_alloc_frame_lem hint s v z lo) [
  | inr x ↦ absurd (ok x.null)
  | inl (a, _) ↦ rw (ne→== _ _ ok) (
    λ n.
        used-unset_frame _ (pmm_alloc_frame hint s).addr n a.valid.byte
        ∙ rw (a.marked n) (restored n _ a.free_before),
    ground arith,
    ground arith,
  )
]
  where
    restored : (n f : ℕ) → used s f ≡ false → (not (n == f) && (n == f || used s n)) ≡ used s n
    restored n f off = ground (arith, ==→eq n f)

alloc_scan_full :
    (n i : ℕ) (hint : Option ℕ) (s : Pmm)
    → ((j : ℕ) → i ≤ j → j < i + n → s.bytes j ≡ 255)
    → (alloc_scan n i hint s).addr ≡ 0
unfolding alloc_scan
alloc_scan_full zero i hint s full = refl
alloc_scan_full (suc n) i hint s full =
    rw (full i (omega arith) (omega arith))
      (alloc_scan_full n (suc i) hint s (λ j lo hi. full j (omega arith) (omega arith)))

-- The search never goes back below the hint of its own CPU: after another CPU frees a frame below
-- it, the frame is free, and yet the allocation fails when every byte from the hint on is full.
pub pmm_alloc_frame_hint :
    (h k a : ℕ) (s : Pmm)
    → IsValid s
    → a ≢ 0
    → a / page_size / 8 < h
    → ((i : ℕ) → h ≤ i → i < s.bitmap_size → s.bytes i ≡ 255)
    → let freed = (pmm_free_frame a (some k) s).0 in
      (used freed (a / page_size) ≡ false) × ((pmm_alloc_frame (some h) freed).addr ≡ 0)
unfolding pmm_alloc_frame pmm_free_frame pmm_unset_frame
pmm_alloc_frame_hint h k a s v ne below full = rw (ne→== _ _ ne) (
  used-unset_frame s a (a / page_size) v.byte ∙ rw (==_refl (a / page_size)),
  rw v.present
      (alloc_scan_full (s.bitmap_size - h) h (some h) _ (λ j lo hi. ground (arith, full j))),
)
