-- ===== src/Pmm/Full.antt =====
-- An allocation that finds every byte full leaves the state as it is.
use kernel_smp.Base.{ℕ, zero, suc, ◌+◌, ◌-◌, ◌≤◌, ◌<◌, ◌≡◌, refl, Option, arith}
use kernel_smp.Pmm.{Pmm, Allocated, IsValid, alloc_scan, pmm_alloc_frame, start_index}
use kernel_smp.Pmm.Alloc.{Exhausted}

abbrev pub nothing : Option ℕ → Pmm → Allocated
nothing hint s = record { pmm = s; hint = hint; addr = 0 }

alloc_scan-full :
    (n i : ℕ) (hint : Option ℕ) (s : Pmm)
    → ((j : ℕ) → i ≤ j → j < i + n → s.bytes j ≡ 255)
    → alloc_scan n i hint s ≡ nothing hint s
unfolding alloc_scan
alloc_scan-full zero i hint s full = refl
alloc_scan-full (suc n) i hint s full =
    let here : s.bytes i ≡ 255 = full i (omega arith) (omega arith) in
    let rest = alloc_scan-full n (suc i) hint s (λ j lo hi. full j (omega arith) (omega arith)) in
    rw (here, rest) refl

pub pmm_alloc_frame-full :
    (hint : Option ℕ) (s : Pmm)
    → IsValid s
    → start_index hint ≤ s.bitmap_size
    → Exhausted (start_index hint) s.bitmap_size s (pmm_alloc_frame hint s)
    → pmm_alloc_frame hint s ≡ nothing hint s
unfolding pmm_alloc_frame
pmm_alloc_frame-full hint s v low x =
    let start = start_index hint in
    rw v.present
      (alloc_scan-full (s.bitmap_size - start) start hint s (λ j lo hi. x.full j lo (omega arith)))
