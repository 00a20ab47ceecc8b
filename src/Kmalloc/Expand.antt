-- ===== src/Kmalloc/Expand.antt =====
-- `kmalloc` of kernel/memory/kmalloc.c where no block of the list serves the request: new frames become
-- a block at the end of the list.
use kernel_smp.Base.{
  ℕ, ◌+◌, ◌-◌, ◌*◌, ◌/◌, ◌<◌, ◌^◌, ◌≡◌, ◌≢◌, sym, subst, ◌∙◌, ap, fun_ext, true, false, inl, inr,
  some, List, [], ◌∷◌, ◌++◌, All, length, arith, u64, sub64, align_16, phys_to_virt, ◌==◌, ne→==,
  if◌then◌else◌, update, update_ne, update_self, Bool-cases,
}
use mathlib.Core.List.{append-nil}
use kernel_smp.Pmm.{Pmm, pmm_alloc_frames}
use kernel_smp.Kmalloc.{
  find_fit, Header, KernelHeap, header_size, take_block, split, wide, set, expand_heap,
  kmalloc_large,
}
use kernel_smp.Kmalloc.Segments.{
  Block, first, last_of, header_of, Seg, Avoids, Seg-append, Seg-update,
}
use kernel_smp.Kmalloc.Separated.{
  Separated, Clear, Separated-parts, Separated-Avoids, Clear-Avoids_within,
}
use kernel_smp.Kmalloc.Allocate.{carve, Seg-take, Separated-take}
use kernel_smp.Kmalloc.Fit.{Holds, first-carve, NoneFits, find_fit-none}

last_of_ne : (b c : Block) (cs : List Block) → Clear b (c ∷ cs) → last_of c.addr cs ≢ b.addr
last_of_ne b c [] (d, _) e = ground (arith, d)
last_of_ne b c (x ∷ xs) (d, ds) e = last_of_ne b x xs ds e

-- The last block gets a block behind it.
Seg-set_next :
    (m : ℕ → Header) (before x : ℕ) (b : Block) (bs : List Block)
    → Separated (b ∷ bs)
    → Seg m before (b ∷ bs) 0
    → Seg (set m (last_of b.addr bs) (λ v. record v { next = x })) before (b ∷ bs) x
Seg-set_next m before x b [] apart (nz, here, rest) =
    (nz, update_self m b.addr (record (m b.addr) { next = x }) ∙ rw here, tt)
Seg-set_next m before x b (c ∷ cs) (e, d, apart) (nz, here, rest) = (
  nz,
  update_ne m (last_of c.addr cs) b.addr _ (last_of_ne b c cs d) ∙ here,
  Seg-set_next m b.addr x c cs apart rest,
)

-- `take_block` on the last block of the list writes at that block and the one behind it.
take_elsewhere :
    (m : ℕ → Header) (p size r : ℕ)
    → (m p).next ≡ 0
    → p ≢ r
    → (wide size (m p).size ≡ true → u64 (p + header_size + size) ≢ r)
    → take_block p size m r ≡ m r
unfolding take_block split
take_elsewhere m p size r e h far = elim (Bool-cases (wide size (m p).size)) [
  | inl room ↦ let k = far room in ground arith
  | inr narrow ↦ ground arith
]

-- A block that is in use already stays so.
take-used :
    (m : ℕ → Header) (p size room : ℕ)
    → (m p).next ≡ 0
    → (m p).is_free ≡ false
    → (m p).size ≡ room
    → u64 (p + header_size + size) ≢ p
    → take_block p size m ≡ (if wide size room then split p size m else m)
unfolding take_block split
take-used m p size room e f s k = fun_ext (λ r. ground arith)

Seg-take_apart :
    (m : ℕ → Header) (p size before : ℕ) (bs : List Block) (after : ℕ)
    → (m p).next ≡ 0
    → Avoids p bs
    → (wide size (m p).size ≡ true → Avoids (u64 (p + header_size + size)) bs)
    → Seg m before bs after
    → Seg (take_block p size m) before bs after
Seg-take_apart m p size before [] after e out far s = tt
Seg-take_apart m p size before (b ∷ bs) after e (ne, out) far (nz, here, rest) = (
  nz,
  take_elsewhere m p size b.addr e ne (λ w. (far w).0) ∙ here,
  Seg-take_apart m p size b.addr bs after e out (λ w. (far w).1) rest,
)

-- The number of frames that a request of `size` bytes takes.
abbrev pub frames_for : ℕ → ℕ
frames_for size = (size + header_size + 4095) / 4096

-- The block that these frames make, when the first of them is `frames`.
abbrev pub frames_block : ℕ → ℕ → Block
frames_block size frames = record {
  addr = phys_to_virt frames;
  size = frames_for size * 4096 - header_size;
  is_free = false;
}

-- The last block is at no address of blocks that are clear of the list.
last_of-Avoids :
    (c : Block) (cs zs : List Block)
    → All (λ x. Clear x zs) (c ∷ cs)
    → Avoids (last_of c.addr cs) zs
last_of-Avoids c [] zs (k, _) = Clear-Avoids_within c c.addr zs (omega arith) (omega arith) k
last_of-Avoids c (x ∷ xs) zs (_, ks) = last_of-Avoids x xs zs ks

-- The header of the new block, before the list leads to it.
abbrev made : (ℕ → Header) → Block → ℕ → ℕ → Header
made m b last = update m b.addr (header_of last b 0)

module _ (m : ℕ → Header) (size : ℕ) (b : Block) (lt : size < 2 ^ 62) (nz : b.addr ≢ 0) where
  Seg-made :
      (last : ℕ)
      → Separated (b ∷ [])
      → Seg (take_block b.addr size (made m b last)) last (carve size b) 0
  Seg-made last alone =
      let header = update_self m b.addr (header_of last b 0) in
      subst (λ l. Seg (take_block b.addr size (made m b last)) last l 0) (append-nil (carve size b))
        (Seg-take (made m b last) last size [] b [] (nz, header, tt) alone (omega arith))

  far_away :
      (c : Block) (cs : List Block)
      → Separated ((c ∷ cs) ++ b ∷ [])
      → wide size b.size ≡ true
      → Avoids (u64 (b.addr + header_size + size)) (c ∷ cs)
  far_away c cs apart w =
      let q = b.addr + header_size + size in
      let (_, (fits, _, _), _) = Separated-parts (c ∷ cs) (b ∷ []) apart in
      let word : u64 q ≡ q = ground (arith, fits) in
      subst (λ r. Avoids r (c ∷ cs)) (sym word)
        (Separated-Avoids (c ∷ cs) b [] q apart (omega arith) (ground arith)).0

  Separated-grown : (bs : List Block) → Separated (bs ++ b ∷ []) → Separated (bs ++ carve size b)
  Separated-grown bs apart =
      subst (λ l. Separated (bs ++ l)) (append-nil (carve size b))
        (Separated-take size bs b [] (omega arith) apart)

  -- The new block behind a list that is not empty.
  Seg-link :
      (c : Block) (cs : List Block)
      → Seg m 0 (c ∷ cs) 0
      → Separated ((c ∷ cs) ++ b ∷ [])
      → Seg
          (set
            (take_block b.addr size (made m b (last_of c.addr cs)))
            (last_of c.addr cs)
            (λ v. record v { next = b.addr }))
          0
          ((c ∷ cs) ++ carve size b)
          0
  Seg-link c cs seg apart =
      let last = last_of c.addr cs in
      let n : ℕ → Header = take_block b.addr size (made m b last) in
      let header : made m b last b.addr ≡ header_of last b 0 = update_self m b.addr _ in
      let (sep, alone, clear) = Separated-parts (c ∷ cs) (b ∷ []) apart in
      let (out, _) = Separated-Avoids (c ∷ cs) b [] b.addr apart (omega arith) (omega arith) in
      let far : wide size (made m b last b.addr).size ≡ true
          → Avoids (u64 (b.addr + header_size + size)) (c ∷ cs) =
        λ w. far_away c cs apart (subst (λ (h : Header). wide size h.size ≡ true) header w) in
      let old : Seg n 0 (c ∷ cs) 0 =
        Seg-take_apart (made m b last) b.addr size 0 (c ∷ cs) 0 (ap (λ (h : Header). h.next) header)
          out far (Seg-update m b.addr (header_of last b 0) 0 (c ∷ cs) 0 out seg) in
      let (_, _, clear') =
        Separated-parts (c ∷ cs) (carve size b) (Separated-grown (c ∷ cs) apart) in
      Seg-append (set n last (λ v. record v { next = b.addr })) 0 (c ∷ cs) (carve size b) 0
        (rw (first-carve size b) (Seg-set_next n 0 b.addr c cs sep old))
        (Seg-update n last _ last (carve size b) 0 (last_of-Avoids c cs (carve size b) clear')
          (Seg-made last alone))

last_of-ne-zero :
    (m : ℕ → Header) (before : ℕ) (c : Block) (cs : List Block)
    → Seg m before (c ∷ cs) 0
    → last_of c.addr cs ≢ 0
last_of-ne-zero m before c [] (nz, _, _) = nz
last_of-ne-zero m before c (x ∷ xs) (_, _, rest) = last_of-ne-zero m c.addr x xs rest

-- The first block has no block before it already.
Seg-set_prev_same :
    (m : ℕ → Header) (bs : List Block) (p : ℕ)
    → first bs 0 ≡ p
    → Seg m 0 bs 0
    → Seg (set m p (λ v. record v { prev = 0 })) 0 bs 0
Seg-set_prev_same m [] p e s = tt
Seg-set_prev_same m (b ∷ bs) p e (nz, here, rest) =
    let none_before : (m p).prev ≡ 0 =
      ap (λ q. (m q).prev) (sym e) ∙ ap (λ (h : Header). h.prev) here in
    let same : m ≡ set m p (λ v. record v { prev = 0 }) =
      fun_ext (λ r. ground (arith, none_before)) in
    subst (λ n. Seg n 0 (b ∷ bs) 0) same (nz, here, rest)

-- What the growth of the heap by these frames leaves.
grown : ℕ → ℕ → ℕ → KernelHeap → KernelHeap
grown last size frames h =
    let b = frames_block size frames in
    let n = take_block b.addr size (made h.header b last) in
    if last == 0
    then record { header = set n b.addr (λ v. record v { prev = 0 }); heap_start = b.addr }
    else record h { header = set n last (λ v. record v { next = b.addr }) }

grown-linked :
    (last size frames : ℕ) (h : KernelHeap)
    → last ≢ 0
    → grown last size frames h ≡ record h {
      header =
          set
            (take_block (phys_to_virt frames) size (made h.header (frames_block size frames) last))
            last
            (λ v. record v { next = phys_to_virt frames });
    }
unfolding grown
grown-linked last size frames h nz = rw (ne→== last 0 nz)

expand_heap_lem :
    (last size frames : ℕ) (h : KernelHeap) (pmm pmm' : Pmm)
    → size < 2 ^ 62
    → pmm_alloc_frames (frames_for size) pmm ≡ (pmm', frames)
    → frames ≢ 0
    → frames < 2 ^ 46
    → expand_heap last size h pmm ≡ (grown last size frames h, pmm', phys_to_virt frames)
unfolding expand_heap grown
expand_heap_lem last size frames h pmm pmm' lt alloc nz small =
    let b = frames_block size frames in
    let header : made h.header b last b.addr ≡ header_of last b 0 = update_self h.header b.addr _ in
    let number : u64 (u64 (size + header_size) + 4095) / 4096 ≡ frames_for size = omega arith in
    let room : sub64 (u64 (frames_for size * 4096)) header_size ≡ b.size = omega arith in
    let shape =
      take-used (made h.header b last) b.addr size b.size (ap (λ (v : Header). v.next) header)
        (ap (λ (v : Header). v.is_free) header) (ap (λ (v : Header). v.size) header)
        (λ e. omega arith) in
    rw (number, alloc, room, ne→== frames 0 nz, shape)

grown-Holds :
    (size frames : ℕ) (h : KernelHeap) (bs : List Block)
    → size < 2 ^ 62
    → frames < 2 ^ 46
    → Holds h bs
    → Separated (bs ++ frames_block size frames ∷ [])
    → Holds (grown (last_of 0 bs) size frames h) (bs ++ carve size (frames_block size frames))
unfolding grown
grown-Holds size frames h [] lt small (start, seg, _) apart =
    let b = frames_block size frames in
    let n : ℕ → Header = take_block b.addr size (made h.header b 0) in
    let held = Seg-made h.header size b lt (omega arith) 0 apart in
    (
      sym (first-carve size b),
      Seg-set_prev_same n (carve size b) b.addr (first-carve size b) held,
      Separated-grown h.header size b lt (omega arith) [] apart,
    )
grown-Holds size frames h (c ∷ cs) lt small (start, seg, _) apart =
    let b = frames_block size frames in
    let last = last_of c.addr cs in
    subst (λ g. Holds g ((c ∷ cs) ++ carve size b))
      (sym (grown-linked last size frames h (last_of-ne-zero h.header 0 c cs seg)))
      (
        start,
        Seg-link h.header size b lt (omega arith) c cs seg apart,
        Separated-grown h.header size b lt (omega arith) (c ∷ cs) apart,
      )

-- Where no block fits and the frames are there, `kmalloc` puts one block made of them at the end of the
-- list, cuts it to the size asked for where that leaves a block behind, and returns its data. The list
-- is linked in order and apart as before, if the frames are outside its blocks.
pub kmalloc_large-grow :
    (fuel size₀ frames : ℕ) (h : KernelHeap) (pmm pmm' : Pmm) (bs : List Block)
    → Holds h bs
    → NoneFits (align_16 size₀) bs
    → size₀ < 2 ^ 61
    → length bs < fuel
    → pmm_alloc_frames (frames_for (align_16 size₀)) pmm ≡ (pmm', frames)
    → frames ≢ 0
    → frames < 2 ^ 46
    → Separated (bs ++ frames_block (align_16 size₀) frames ∷ [])
    → (h' : KernelHeap) × (kmalloc_large fuel size₀ h pmm
        ≡ some (h', pmm', phys_to_virt frames + header_size))
      × Holds h' (bs ++ carve (align_16 size₀) (frames_block (align_16 size₀) frames))
unfolding kmalloc_large
kmalloc_large-grow fuel size₀ frames h pmm pmm' bs (start, seg, sep) none_fits small enough alloc nz
      low apart =
    let size = align_16 size₀ in
    let found =
      ap (λ p. find_fit fuel h.header size p 0) start
      ∙ find_fit-none fuel h.header size bs seg none_fits enough in
    let fresh = expand_heap_lem (last_of 0 bs) size frames h pmm pmm' (omega arith) alloc nz low in
    let word : u64 (phys_to_virt frames + header_size) ≡ phys_to_virt frames + header_size =
      omega arith in
    (
      grown (last_of 0 bs) size frames h,
      rw (kmalloc_large, found, fresh, ne→== (phys_to_virt frames) 0 (omega arith), word),
      grown-Holds size frames h bs (omega arith) low (start, seg, sep) apart,
    )
