-- ===== src/Kmalloc/Coalesced.antt =====
-- `kmalloc` and `kfree` of kernel/memory/kmalloc.c together, on a list where no free block is followed
-- by a free block that starts at its end: a block given back is what it was.
use kernel_smp.Base.{
  ℕ, ◌+◌, ◌<◌, ◌^◌, ◌≡◌, refl, subst, ◌∙◌, ap, Bool, true, false, ◌&&◌, inl, inr, some, List, [],
  ◌∷◌, ◌++◌, length, arith, align_16, ◌==◌, ==→eq, ==_refl, Bool-cases,
}
use kernel_smp.Pmm.{Pmm}
use kernel_smp.Kmalloc.{KernelHeap, header_size, wide, kmalloc_large, kfree_large}
use kernel_smp.Kmalloc.Segments.{Block}
use kernel_smp.Kmalloc.Separated.{end_at}
use kernel_smp.Kmalloc.Allocate.{carve, used_part, free_part}
use kernel_smp.Kmalloc.Fit.{Holds, NoneFits, fits, kmalloc_large-fit}
use kernel_smp.Kmalloc.Release.{union, merge, attach, released, kfree_large_lem}

-- The two blocks are free, and one ends where the other starts.
abbrev pub touching : Block → Block → Bool
touching a c = a.is_free && c.is_free && end_at a == c.addr

-- No free block is followed in the list by a free block that starts at its end.
abbrev pub IsCoalesced : List Block → Type 0
IsCoalesced [] = Unit
IsCoalesced (b ∷ []) = Unit
IsCoalesced (b ∷ c ∷ cs) = (touching b c ≡ false) × IsCoalesced (c ∷ cs)

IsCoalesced-drop : (xs ys : List Block) → IsCoalesced (xs ++ ys) → IsCoalesced ys
IsCoalesced-drop [] ys k = k
IsCoalesced-drop (x ∷ []) [] k = tt
IsCoalesced-drop (x ∷ []) (y ∷ ys) k = k.1
IsCoalesced-drop (x ∷ x' ∷ xs) ys k = IsCoalesced-drop (x' ∷ xs) ys k.1

merge-apart : (b : Block) (ys : List Block) → IsCoalesced (b ∷ ys) → merge b ys ≡ b ∷ ys
merge-apart b [] k = refl
merge-apart b (c ∷ cs) (ne, k) = rw ne

attach-apart : (xs zs : List Block) → IsCoalesced (xs ++ zs) → attach xs zs ≡ xs ++ zs
attach-apart [] zs k = refl
attach-apart (a ∷ []) zs k = merge-apart a zs k
attach-apart (a ∷ x ∷ xs) zs (ne, k) = ap (λ l. a ∷ l) (attach-apart (x ∷ xs) zs k)

&&-left : (a b : Bool) → (a && b) ≡ true → a ≡ true
&&-left a b h = ground arith

touching-union :
    (b c d : Block) → touching b c ≡ true → touching c d ≡ false → touching (union b c) d ≡ false
touching-union b c d joined apart = ground (arith, ==→eq (end_at b) c.addr)

IsCoalesced-merge : (b : Block) (ys : List Block) → IsCoalesced ys → IsCoalesced (merge b ys)
IsCoalesced-merge b [] k = tt
IsCoalesced-merge b (c ∷ []) k = elim (Bool-cases (touching b c)) [
  | inl joined ↦ rw joined tt
  | inr apart ↦ rw apart (apart, tt)
]
IsCoalesced-merge b (c ∷ d ∷ ds) (ne, k) = elim (Bool-cases (touching b c)) [
  | inl joined ↦ rw joined (touching-union b c d joined ne, k)
  | inr apart ↦ rw apart (apart, (ne, k))
]

-- The list starts with a block of the same address and state.
abbrev Starts : Block → List Block → Type 0
Starts b [] = ⊥
Starts b (c ∷ cs) = (c.addr ≡ b.addr) × (c.is_free ≡ b.is_free)

Starts-merge : (b : Block) (zs : List Block) → Starts b (merge b zs)
Starts-merge b [] = (refl, refl)
Starts-merge b (c ∷ cs) = elim (Bool-cases (touching b c)) [
  | inl joined ↦ rw joined (refl, refl)
  | inr apart ↦ rw apart (refl, refl)
]

Starts-attach : (x : Block) (xs zs : List Block) → Starts x (attach (x ∷ xs) zs)
Starts-attach x [] zs = Starts-merge x zs
Starts-attach x (y ∷ ys) zs = (refl, refl)

IsCoalesced-cons :
    (a x : Block) (zs : List Block)
    → touching a x ≡ false
    → Starts x zs
    → IsCoalesced zs
    → IsCoalesced (a ∷ zs)
IsCoalesced-cons a x [] ne s k = tt
IsCoalesced-cons a x (c ∷ cs) ne (at, free) k = (rw (at, free) ne, k)

IsCoalesced-attach :
    (xs zs : List Block) → IsCoalesced xs → IsCoalesced zs → IsCoalesced (attach xs zs)
IsCoalesced-attach [] zs k l = l
IsCoalesced-attach (a ∷ []) zs k l = IsCoalesced-merge a zs l
IsCoalesced-attach (a ∷ x ∷ xs) zs (ne, k) l =
    IsCoalesced-cons a x (attach (x ∷ xs) zs) ne (Starts-attach x xs zs)
      (IsCoalesced-attach (x ∷ xs) zs k l)

IsCoalesced-front : (xs ys : List Block) → IsCoalesced (xs ++ ys) → IsCoalesced xs
IsCoalesced-front [] ys k = tt
IsCoalesced-front (x ∷ []) ys k = tt
IsCoalesced-front (x ∷ x' ∷ xs) ys (ne, k) = (ne, IsCoalesced-front (x' ∷ xs) ys k)

IsCoalesced-tail : (b : Block) (ys : List Block) → IsCoalesced (b ∷ ys) → IsCoalesced ys
IsCoalesced-tail b ys k = IsCoalesced-drop (b ∷ []) ys k

-- If in the list of a heap no free block is followed by a free block that starts at its end, then
-- freeing a used block succeeds and leaves a heap whose list is like that too.
pub kfree_large-IsCoalesced :
    (h : KernelHeap) (xs : List Block) (b : Block) (ys : List Block)
    → Holds h (xs ++ b ∷ ys)
    → b.is_free ≡ false
    → IsCoalesced (xs ++ b ∷ ys)
    → (h' : KernelHeap) × (kfree_large (b.addr + header_size) h ≡ some h')
      × Holds h' (released xs b ys)
      × IsCoalesced (released xs b ys)
kfree_large-IsCoalesced h xs b ys held used k =
    let (h', e, held') = kfree_large_lem h xs b ys held used in
    let tail = IsCoalesced-tail b ys (IsCoalesced-drop xs (b ∷ ys) k) in
    let b' : Block = record b { is_free = true } in
    (
      h',
      e,
      held',
      IsCoalesced-attach xs (merge b' ys) (IsCoalesced-front xs (b ∷ ys) k)
          (IsCoalesced-merge b' ys tail),
    )

freed-part : (b : Block) → b.is_free ≡ true → record b { is_free = true } ≡ b
freed-part b free = ground arith

-- The two parts of a cut block make the block again.
merge-parts :
    (size : ℕ) (b : Block) (ys : List Block)
    → size < 2 ^ 62
    → b.is_free ≡ true
    → wide size b.size ≡ true
    → merge (record (used_part size b) { is_free = true }) (free_part size b ∷ ys) ≡ b ∷ ys
merge-parts size b ys small free room =
    let whole : union (record (used_part size b) { is_free = true }) (free_part size b) ≡ b =
      ground arith in
    rw ==_refl (ap (λ c. c ∷ ys) whole)

-- The blocks that a free block is cut into, as the used one and those behind it: freeing it puts the
-- block back.
release-carve :
    (size : ℕ) (xs : List Block) (b : Block) (ys : List Block)
    → size < 2 ^ 62
    → b.is_free ≡ true
    → IsCoalesced (xs ++ b ∷ ys)
    → (c : Block) × (cs : List Block) × (carve size b ++ ys ≡ c ∷ cs)
      × (c.addr ≡ b.addr)
      × (c.is_free ≡ false)
      × (released xs c cs ≡ xs ++ b ∷ ys)
release-carve size xs b ys small free k = elim (Bool-cases (wide size b.size)) [
  | inl room ↦ (
    used_part size b,
    free_part size b ∷ ys,
    rw room,
    refl,
    refl,
    ap (attach xs) (merge-parts size b ys small free room) ∙ attach-apart xs (b ∷ ys) k,
  )
  | inr narrow ↦ (
    record b { is_free = false },
    ys,
    rw narrow,
    refl,
    refl,
    ap (λ c. attach xs (merge c ys)) (freed-part b free)
        ∙ ap (attach xs) (merge-apart b ys (IsCoalesced-drop xs (b ∷ ys) k))
        ∙ attach-apart xs (b ∷ ys) k,
  )
]

-- A request below `2 ^ 61` for which a block of the list fits, in a list where no free block is followed
-- by a free block that starts at its end: what `kmalloc` takes, `kfree` gives back. After both, the
-- heap keeps exactly the blocks that it kept before.
pub kfree_large-kmalloc_large :
    (fuel size₀ : ℕ) (h : KernelHeap) (pmm : Pmm) (xs : List Block) (b : Block) (ys : List Block)
    → Holds h (xs ++ b ∷ ys)
    → IsCoalesced (xs ++ b ∷ ys)
    → NoneFits (align_16 size₀) xs
    → fits (align_16 size₀) b ≡ true
    → size₀ < 2 ^ 61
    → length (xs ++ b ∷ ys) < fuel
    → (h' h'' : KernelHeap) × (ptr : ℕ) × (kmalloc_large fuel size₀ h pmm ≡ some (h', pmm, ptr))
      × (kfree_large ptr h' ≡ some h'')
      × Holds h'' (xs ++ b ∷ ys)
kfree_large-kmalloc_large fuel size₀ h pmm xs b ys held k none_fits fit small enough =
    let (h', e, held') =
      kmalloc_large-fit fuel size₀ h pmm xs b ys held none_fits fit (omega arith) enough in
    let (c, cs, parts, at, used, rear) =
      release-carve (align_16 size₀) xs b ys (omega arith) (&&-left b.is_free _ fit) k in
    let (h'', e', held'') =
      kfree_large_lem h' xs c cs (subst (λ l. Holds h' (xs ++ l)) parts held') used in
    (
      h',
      h'',
      b.addr + header_size,
      e,
      subst (λ p. kfree_large (p + header_size) h' ≡ some h'') at e',
      subst (Holds h'') rear held'',
    )
