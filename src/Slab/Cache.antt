-- ===== src/Slab/Cache.antt =====
-- What a cache of kernel/memory/slab.c keeps: three lists of pages, and the free objects of each page.
use kernel_smp.Base.{
  ℕ, ◌<◌, ◌≡◌, ◌≢◌, ◌⊎◌, sym, subst, ◌∙◌, List, [], ◌∷◌, ◌++◌, All, length, update, update_ne,
  page_align_down,
}
use kernel_smp.RunQueue.Chain.{NotIn, Distinct, Apart, Chain, NotIn-append}
use kernel_smp.Slab.{Slabs, SlabCache, slab_list_remove, slab_list_push, slab_magic}
use kernel_smp.Slab.Apart.{Distinct-parts, Apart-sym, Apart-parts, Apart-drop, Apart-cons}
use kernel_smp.Slab.Linked.{IsList, first}
use kernel_smp.Slab.Remove.{first-NotIn, slab_list_remove_lem, slab_list_remove-others}
use kernel_smp.Slab.Push.{slab_list_push_lem, slab_list_push-others}

-- A page of cache `i` with these free objects: they lie in the page, and are counted.
abbrev pub PageHas : Slabs → ℕ → ℕ → List ℕ → Type 0
PageHas s i pg objs =
    Chain s.object (s.free_list pg) objs
    × Distinct objs
    × All (λ o. page_align_down o ≡ pg) objs
    × (s.free_count pg ≡ length objs)
    × (length objs < 4096)
    × (s.magic pg ≡ slab_magic)
    × (s.parent_cache pg ≡ i)

abbrev pub IsPage : Slabs → ℕ → (ℕ → List ℕ) → ℕ → Type 0
IsPage s i free pg = PageHas s i pg (free pg)

abbrev pub HasFree : Slabs → ℕ → (ℕ → List ℕ) → ℕ → Type 0
HasFree s i free pg = IsPage s i free pg × (0 < length (free pg))

abbrev pub NoneFree : Slabs → ℕ → (ℕ → List ℕ) → ℕ → Type 0
NoneFree s i free pg = IsPage s i free pg × (length (free pg) ≡ 0)

-- The three lists, from their heads.
abbrev pub Lists : Slabs → ℕ → ℕ → ℕ → List ℕ → List ℕ → List ℕ → Type 0
Lists s p f e partial full empty =
    IsList s p partial
    × IsList s f full
    × IsList s e empty
    × Apart partial full
    × Apart partial empty
    × Apart full empty

-- The cache with these heads keeps these pages.
abbrev pub KeepsAt : Slabs → SlabCache → ℕ → List ℕ → List ℕ → List ℕ → (ℕ → List ℕ) → Type 0
KeepsAt s c i partial full empty free =
    Lists s c.partial_slabs c.full_slabs c.empty_slabs partial full empty
    × All (HasFree s i free) partial
    × All (NoneFree s i free) full
    × All (HasFree s i free) empty

-- Cache `i` keeps these partial, full and empty pages, and these free objects of each.
abbrev pub Keeps : Slabs → ℕ → List ℕ → List ℕ → List ℕ → (ℕ → List ℕ) → Type 0
Keeps s i partial full empty free = KeepsAt s (s.caches i) i partial full empty free

-- The page stands among the partial or the full ones.
abbrev pub InUse : ℕ → List ℕ → List ℕ → Type 0
InUse pg partial full =
    ((xs : List ℕ) × (ys : List ℕ) × (partial ≡ xs ++ pg ∷ ys))
    ⊎ ((xs : List ℕ) × (ys : List ℕ) × (full ≡ xs ++ pg ∷ ys))

pub head-Apart : (b : ℕ) (bs zs : List ℕ) → b ≡ first bs 0 → Apart bs zs → b ≢ 0 → NotIn b zs
head-Apart b bs zs e apart nz =
    subst (λ q. NotIn q zs) (sym e) (first-NotIn bs zs apart (λ z. nz (e ∙ z)))

-- A page moves from one of the lists to the front of the second.
pub move_lem :
    (s : Slabs) (a b c slab : ℕ) (xs ys bs cs : List ℕ)
    → slab ≢ 0
    → IsList s a (xs ++ slab ∷ ys)
    → IsList s b bs
    → IsList s c cs
    → Apart (xs ++ slab ∷ ys) bs
    → Apart (xs ++ slab ∷ ys) cs
    → Apart bs cs
    → let (r, a') = slab_list_remove a slab s in
      let (q, b') = slab_list_push b slab r in
      IsList q a' (xs ++ ys)
      × IsList q b' (slab ∷ bs)
      × IsList q c cs
      × Apart (xs ++ ys) (slab ∷ bs)
      × Apart (xs ++ ys) cs
      × Apart (slab ∷ bs) cs
move_lem s a b c slab xs ys bs cs nz la lb lc ab ac bc =
    let (r, a') = slab_list_remove a slab s in
    let ra = slab_list_remove_lem s a slab xs ys la in
    let rb = slab_list_remove-others s a slab xs ys la b bs ab lb in
    let rc = slab_list_remove-others s a slab xs ys la c cs ac lc in
    let (_, (out_b, _)) = Apart-parts xs (slab ∷ ys) bs ab in
    let (_, (out_c, _)) = Apart-parts xs (slab ∷ ys) cs ac in
    let (_, (out_ys, _), dis) = Distinct-parts xs (slab ∷ ys) la.2 in
    let out : NotIn slab (xs ++ ys) =
      NotIn-append slab xs ys (Apart-sym xs (slab ∷ ys) dis).0 out_ys in
    let rest_b = Apart-drop xs slab ys bs ab in
    let rest_c = Apart-drop xs slab ys cs ac in
    (
      slab_list_push-others r b slab a' (xs ++ ys) out
          (head-Apart b bs (xs ++ ys) lb.0 (Apart-sym (xs ++ ys) bs rest_b)) ra,
      slab_list_push_lem r b slab bs nz out_b rb,
      slab_list_push-others r b slab c cs out_c (head-Apart b bs cs lb.0 bc) rc,
      Apart-cons (xs ++ ys) bs slab out rest_b,
      rest_c,
      (out_c, bc),
    )

-- The pages of a list of which `slab` is none, when the objects of `slab` become `objs`.
pub pages-others :
    (Q : ℕ → Type 0) (s s' : Slabs) (i slab : ℕ) (free : ℕ → List ℕ) (objs : List ℕ)
    (pages : List ℕ)
    → ((pg : ℕ) → slab ≢ pg → IsPage s i free pg → IsPage s' i (update free slab objs) pg)
    → NotIn slab pages
    → All (λ pg. IsPage s i free pg × Q (length (free pg))) pages
    → All
        (λ pg. IsPage s' i (update free slab objs) pg × Q (length (update free slab objs pg)))
        pages
pages-others Q s s' i slab free objs [] keep out all = tt
pages-others Q s s' i slab free objs (pg ∷ pages) keep (ne, out) ((page, count), all) = (
  (keep pg ne page, rw (update_ne free slab pg objs ne) count),
  pages-others Q s s' i slab free objs pages keep out all,
)
