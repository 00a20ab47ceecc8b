-- ===== src/Slab.antt =====
-- kernel/memory/slab.c: pages that are cut into objects of one size, in three lists for each of eight
-- caches. A cache is known by its number, and its lock is held throughout an operation. Each field of a
-- `slab_t` is a function from its address; `object` is the first word of a free object. `name` and
-- `data` are not used by the code.
pub mod Apart
pub mod Linked
pub mod Remove
pub mod Push
pub mod Cache
pub mod Take
pub mod Alloc
pub mod Given
pub mod Free
pub mod Return
pub mod Grow
pub mod Refill
pub mod Classes
mod Tests
use kernel_smp.Base.{
  ℕ, zero, suc, ◌+◌, ◌-◌, ◌*◌, ◌/◌, Bool, true, false, not, Option, none, some, leb, ◌==◌,
  if◌then◌else◌, update, u64, sub64, page_align_down, phys_to_virt,
}
use kernel_smp.Pmm.{Pmm, pmm_alloc_frame, Allocated}

abbrev pub slab_magic : ℕ
slab_magic = 0x51AB51AB

-- `sizeof(slab_t)`
abbrev pub slab_size : ℕ
slab_size = 56

pub record SlabCache : Type 0 where
  pub obj_size : ℕ
  pub partial_slabs : ℕ
  pub full_slabs : ℕ
  pub empty_slabs : ℕ

pub record Slabs : Type 0 where
  pub magic : ℕ → ℕ
  pub parent_cache : ℕ → ℕ
  pub free_list : ℕ → ℕ
  pub free_count : ℕ → ℕ
  pub next : ℕ → ℕ
  pub prev : ℕ → ℕ
  pub object : ℕ → ℕ
  pub caches : ℕ → SlabCache

-- The head of the list is passed in, and returned as the list's new head.
pub slab_list_remove : ℕ → ℕ → Slabs → Slabs × ℕ
slab_list_remove list slab s =
    let p = s.prev slab in
    let linked = if p == 0 then s.next else update s.next p (s.next slab) in
    let n = linked slab in
    let back = if n == 0 then s.prev else update s.prev n p in
    (
      record s { next = update linked slab 0; prev = update back slab 0 },
      if list == slab then n else list,
    )

pub slab_list_push : ℕ → ℕ → Slabs → Slabs × ℕ
slab_list_push list slab s =
    let back = update s.prev slab 0 in
    (
      record s {
        next = update s.next slab list;
        prev = if list == 0 then back else update back list slab;
      },
      slab,
    )

-- The loop of `slab_grow` from `curr` on: each object leads to the next one, and the last to NULL.
pub carve_objects : ℕ → ℕ → ℕ → (ℕ → ℕ) → ℕ → ℕ
carve_objects zero obj_size curr object = update object curr 0
carve_objects (suc more) obj_size curr object =
    carve_objects more obj_size (u64 (curr + obj_size)) (update object curr (u64 (curr + obj_size)))

-- `start` of `slab_grow`
abbrev pub first_object : ℕ → ℕ
first_object virt = u64 (u64 (virt + slab_size) + 15) / 16 * 16

-- A page of objects for cache `i`. The frame is not tested for NULL.
pub slab_grow : Option ℕ → ℕ → Slabs → Pmm → Slabs × Allocated
slab_grow hint i s pmm =
    let r = pmm_alloc_frame hint pmm in
    let c = s.caches i in
    let virt = phys_to_virt r.addr in
    let start = first_object virt in
    let max_objs = sub64 (u64 (virt + 4096)) start / c.obj_size in
    let made : Slabs = record s {
      magic = update s.magic virt slab_magic;
      parent_cache = update s.parent_cache virt i;
      free_list = update s.free_list virt start;
      free_count = update s.free_count virt max_objs;
      object = carve_objects (sub64 max_objs 1) c.obj_size start s.object;
    } in
    let (pushed, list) = slab_list_push c.empty_slabs virt made in
    (record pushed { caches = update s.caches i (record c { empty_slabs = list }) }, r)

-- `cache_sizes[i]`
abbrev pub cache_size : ℕ → ℕ
cache_size zero = 16
cache_size (suc i) = 2 * cache_size i

-- The frames and the hint of the CPU, which an allocation may change.
abbrev pub Frames : Type 0
Frames = Pmm × Option ℕ

-- The caches from `i` on, of `n` that are left.
pub init_caches : ℕ → ℕ → Slabs → Frames → Slabs × Frames
init_caches zero i s frames = (s, frames)
init_caches (suc n) i s (pmm, hint) =
    let fresh : SlabCache = record {
      obj_size = cache_size i;
      partial_slabs = 0;
      full_slabs = 0;
      empty_slabs = 0;
    } in
    let (s', r) = slab_grow hint i (record s { caches = update s.caches i fresh }) pmm in
    init_caches n (suc i) s' (r.pmm, r.hint)

pub slab_init : Slabs → Frames → Slabs × Frames
slab_init s frames = init_caches 8 0 s frames

-- `slab_grow` where no page is empty.
abbrev pub refill : ℕ → Slabs → Frames → Slabs × Frames
refill i s (pmm, hint) =
    let (s', r) = slab_grow hint i s pmm in
    if (s.caches i).empty_slabs == 0 then (s', (r.pmm, r.hint)) else (s, (pmm, hint))

-- The first empty page becomes a partial one.
pub use_empty : ℕ → Slabs → Slabs × ℕ
use_empty i s =
    let c = s.caches i in
    let slab = c.empty_slabs in
    let (removed, empty) = slab_list_remove c.empty_slabs slab s in
    let (pushed, partial) = slab_list_push c.partial_slabs slab removed in
    let moved : SlabCache = record c { empty_slabs = empty; partial_slabs = partial } in
    (record pushed { caches = update s.caches i moved }, slab)

-- The page that `slab_cache_alloc` takes an object from, now in the list of the partial ones.
pub partial_slab : ℕ → Slabs → Frames → Slabs × Frames × ℕ
partial_slab i s frames =
    let partial = (s.caches i).partial_slabs in
    let (refilled, frames') = refill i s frames in
    let (moved, slab) = use_empty i refilled in
    if partial == 0 then (moved, frames', slab) else (s, frames, partial)

-- Its first free object, and its move to the list of the full ones with the last.
pub take_object : ℕ → ℕ → Slabs → Slabs × ℕ
take_object i slab s =
    let obj = s.free_list slab in
    let taken : Slabs = record s {
      free_list = update s.free_list slab (s.object obj);
      free_count = update s.free_count slab (sub64 (s.free_count slab) 1);
    } in
    let c = s.caches i in
    let (removed, partial) = slab_list_remove c.partial_slabs slab taken in
    let (pushed, full) = slab_list_push c.full_slabs slab removed in
    let moved : SlabCache = record c { partial_slabs = partial; full_slabs = full } in
    if taken.free_count slab == 0
    then (record pushed { caches = update s.caches i moved }, obj)
    else (taken, obj)

pub slab_cache_alloc : ℕ → Slabs → Frames → Slabs × Frames × ℕ
slab_cache_alloc i s frames =
    let (ready, frames', slab) = partial_slab i s frames in
    let (s', obj) = take_object i slab ready in (s', frames', obj)

-- The first of the caches from `i` on whose objects are large enough, of `n` that are left.
pub alloc_from : ℕ → ℕ → ℕ → Slabs → Frames → Slabs × Frames × ℕ
alloc_from zero i size s frames = (s, frames, 0)
alloc_from (suc n) i size s frames =
    let later = alloc_from n (suc i) size s frames in
    if leb size (cache_size i) then slab_cache_alloc i s frames else later

pub slab_alloc : ℕ → Slabs → Frames → Slabs × Frames × ℕ
slab_alloc size s frames = alloc_from 8 0 size s frames

pub slab_cache_free : ℕ → ℕ → Slabs → Slabs
slab_cache_free i ptr s =
    let slab = page_align_down ptr in
    let given : Slabs = record s {
      object = update s.object ptr (s.free_list slab);
      free_list = update s.free_list slab ptr;
      free_count = update s.free_count slab (u64 (s.free_count slab + 1));
    } in
    let c = s.caches i in
    let max_objs = (4096 - slab_size) / c.obj_size in
    let partly : Slabs =
      (let (removed, full) = slab_list_remove c.full_slabs slab given in
        let (pushed, partial) = slab_list_push c.partial_slabs slab removed in
        record pushed {
          caches = update s.caches i (record c { full_slabs = full; partial_slabs = partial });
        }) in
    let unused : Slabs =
      (let (removed, partial) = slab_list_remove c.partial_slabs slab given in
        let (pushed, empty) = slab_list_push c.empty_slabs slab removed in
        record pushed {
          caches = update s.caches i (record c { partial_slabs = partial; empty_slabs = empty });
        }) in
    if given.free_count slab == 1
    then partly
    else if given.free_count slab == max_objs
    then unused
    else given

-- `none` is a panic: the page of the pointer is no slab. NULL is let through.
pub slab_free : ℕ → Slabs → Option Slabs
slab_free ptr s =
    let slab = page_align_down ptr in
    if ptr == 0
    then some s
    else if s.magic slab == slab_magic
    then some (slab_cache_free (s.parent_cache slab) ptr s)
    else none
