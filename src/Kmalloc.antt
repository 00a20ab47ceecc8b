-- ===== src/Kmalloc.antt =====
-- kernel/memory/kmalloc.c, the part of the kernel heap above 2048 bytes: blocks behind headers of 40
-- bytes, in a doubly linked list. A header is known by its address, and 0 is NULL. `heap_lock_` is
-- held throughout, but for the call of the frame allocator. `memset` is an effect on contents only.
pub mod Segments
pub mod Separated
pub mod Allocate
pub mod Fit
pub mod Expand
pub mod Release
pub mod Coalesced
pub mod Entry
mod Tests
use kernel_smp.Base.{
  ℕ, zero, suc, ◌+◌, ◌-◌, ◌*◌, ◌/◌, Bool, true, false, not, ◌&&◌, Option, none, some, leb, ◌==◌,
  if◌then◌else◌, update, u64, sub64, align_16, phys_to_virt,
}
use kernel_smp.Pmm.{Pmm, pmm_alloc_frame, pmm_alloc_frames, Allocated}

abbrev pub kmalloc_magic : ℕ
kmalloc_magic = 0xCAFEBABE

-- `sizeof(m_header_t)`
abbrev pub header_size : ℕ
header_size = 40

abbrev pub heap_min_block_size : ℕ
heap_min_block_size = 16

pub record Header : Type 0 where
  pub magic : ℕ
  pub size : ℕ
  pub is_free : Bool
  pub next : ℕ
  pub prev : ℕ

pub record KernelHeap : Type 0 where
  pub header : ℕ → Header
  pub heap_start : ℕ

abbrev pub set : (ℕ → Header) → ℕ → (Header → Header) → ℕ → Header
set m p f = update m p (f (m p))

-- `if (p) p->prev = q`
abbrev pub set_prev : ℕ → ℕ → (ℕ → Header) → ℕ → Header
set_prev p q m = if p == 0 then m else set m p (λ v. record v { prev = q })

-- The first block of `kmalloc_init`: `none` is a panic.
pub heap_init : Option ℕ → Pmm → KernelHeap → Option (KernelHeap × Allocated)
heap_init hint pmm h =
    let r = pmm_alloc_frame hint pmm in
    let virt = phys_to_virt r.addr in
    let first : Header = record {
      magic = kmalloc_magic;
      size = 4096 - header_size;
      is_free = true;
      next = 0;
      prev = 0;
    } in
    if r.addr == 0
    then none
    else some (record { header = update h.header virt first; heap_start = virt }, r)

-- The first block from `curr` on that is free and large enough, 0 if there is none, and the block
-- that the loop left last.
pub find_fit : ℕ → (ℕ → Header) → ℕ → ℕ → ℕ → Option (ℕ × ℕ)
find_fit zero m size curr last = none
find_fit (suc fuel) m size curr last =
    let v = m curr in
    let rest = find_fit fuel m size v.next curr in
    if curr == 0
    then some (0, last)
    else if v.is_free && leb size v.size
    then some (curr, last)
    else rest

-- The rest of block `p` behind its first `size` bytes becomes a block of its own.
pub split : ℕ → ℕ → (ℕ → Header) → ℕ → Header
split p size m =
    let v = m p in
    let next_block = u64 (p + header_size + size) in
    let rest : Header = record {
      magic = kmalloc_magic;
      size = sub64 (sub64 v.size size) header_size;
      is_free = true;
      next = v.next;
      prev = p;
    } in
    set (set_prev v.next next_block (update m next_block rest)) p
      (λ w. record w { size = size; next = next_block })

-- `if (size_of_block >= size + sizeof(m_header_t) + HEAP_MIN_BLOCK_SIZE)`
abbrev pub wide : ℕ → ℕ → Bool
wide size room = leb (u64 (size + header_size + heap_min_block_size)) room

pub take_block : ℕ → ℕ → (ℕ → Header) → ℕ → Header
take_block p size m =
    set (if wide size (m p).size then split p size m else m) p (λ v. record v { is_free = false })

-- A new block behind `last`: the heap, the frames, and the block, 0 for none.
pub expand_heap : ℕ → ℕ → KernelHeap → Pmm → KernelHeap × Pmm × ℕ
expand_heap last size h pmm =
    let num_frames = u64 (u64 (size + header_size) + 4095) / 4096 in
    let (pmm', frames) = pmm_alloc_frames num_frames pmm in
    let new_block = phys_to_virt frames in
    let room = sub64 (u64 (num_frames * 4096)) header_size in
    let fresh : Header = record {
      magic = kmalloc_magic;
      size = room;
      is_free = false;
      next = 0;
      prev = last;
    } in
    let made = update h.header new_block fresh in
    let shaped = if wide size room then split new_block size made else made in
    let linked : KernelHeap =
      if last == 0
      then record {
        header = set shaped new_block (λ v. record v { prev = 0 });
        heap_start = new_block;
      }
      else record h { header = set shaped last (λ v. record v { next = new_block }) } in
    if frames == 0 then (h, pmm', 0) else (linked, pmm', new_block)

-- `kmalloc` of a size that the slabs do not serve. The result is the address of the data.
pub kmalloc_large : ℕ → ℕ → KernelHeap → Pmm → Option (KernelHeap × Pmm × ℕ)
kmalloc_large fuel size₀ h pmm =
    let size = align_16 size₀ in
    let grown : ℕ → KernelHeap × Pmm × ℕ = λ last.
      let (h', pmm', new_block) = expand_heap last size h pmm in
      if new_block == 0 then (h, pmm', 0) else (h', pmm', u64 (new_block + header_size)) in
    elim (find_fit fuel h.header size h.heap_start 0) [
      | none ↦ none
      | some (curr, last) ↦
          if curr == 0
          then some (grown last)
          else some
              (record h { header = take_block curr size h.header }, pmm, u64 (curr + header_size))
    ]

abbrev pub end_of : (ℕ → Header) → ℕ → ℕ
end_of m p = u64 (p + header_size + (m p).size)

-- Block `p` takes in the block `q` behind it.
pub absorb : ℕ → ℕ → (ℕ → Header) → ℕ → Header
absorb p q m =
    let w = m q in
    set_prev w.next p
      (set m p (λ v. record v { size = u64 (v.size + u64 (w.size + header_size)); next = w.next }))

-- Block `p` takes in the block behind it, if that is free and right behind.
pub merge_next : ℕ → (ℕ → Header) → ℕ → Header
merge_next p m =
    let n = (m p).next in
    if not (n == 0) && (m n).is_free && end_of m p == n then absorb p n m else m

-- The block before `p` takes it in, if that is free and right before.
pub merge_prev : ℕ → (ℕ → Header) → ℕ → Header
merge_prev p m =
    let b = (m p).prev in
    if not (b == 0) && (m b).is_free && end_of m b == p then absorb b p m else m

-- `kfree` of a block that is no slab's. `none` is a panic: no header, or a block that is free already.
pub kfree_large : ℕ → KernelHeap → Option KernelHeap
kfree_large ptr h =
    let p = sub64 ptr header_size in
    let m = h.header in
    let freed = set m p (λ v. record v { is_free = true }) in
    if not ((m p).magic == kmalloc_magic)
    then none
    else if (m p).is_free
    then none
    else some (record h { header = merge_prev p (merge_next p freed) })
