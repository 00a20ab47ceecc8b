-- ===== src/Kmalloc/Fit.antt =====
-- `kmalloc` of kernel/memory/kmalloc.c where a block of the list serves the request.
use kernel_smp.Base.{
  ℕ, zero, suc, ◌+◌, ◌<◌, ◌^◌, ◌≡◌, refl, sym, subst, ◌∙◌, ap, Bool, true, false, ◌&&◌, some, List,
  [], ◌∷◌, ◌++◌, All, length, length-append, arith, leb, u64, align_16, ne→==,
}
use mathlib.Core.List.{append-nil}
use kernel_smp.Pmm.{Pmm}
use kernel_smp.Kmalloc.{Header, KernelHeap, header_size, find_fit, take_block, kmalloc_large}
use kernel_smp.Kmalloc.Segments.{Block, first, last_of, Seg, Seg-parts}
use kernel_smp.Kmalloc.Separated.{Separated, Separated-parts}
use kernel_smp.Kmalloc.Allocate.{carve, Seg-take, Separated-take}

-- The heap keeps exactly these blocks, in this order.
abbrev pub Holds : KernelHeap → List Block → Type 0
Holds h bs = (h.heap_start ≡ first bs 0) × Seg h.header 0 bs 0 × Separated bs

abbrev pub fits : ℕ → Block → Bool
fits size b = b.is_free && leb size b.size

abbrev pub NoneFits : ℕ → List Block → Type 0
NoneFits size = All (λ b. fits size b ≡ false)

-- The scan skips the blocks that do not fit.
find_fit-skip :
    (fuel : ℕ) (m : ℕ → Header) (size before : ℕ) (xs ys : List Block)
    → Seg m before (xs ++ ys) 0
    → NoneFits size xs
    → length xs < fuel
    → (left : ℕ) × (0 < left)
      × (find_fit fuel m size (first (xs ++ ys) 0) before
          ≡ find_fit left m size (first ys 0) (last_of before xs))
unfolding find_fit
find_fit-skip fuel m size before [] ys s none_fits enough = (fuel, omega arith, refl)
find_fit-skip zero m size before (x ∷ xs) ys s none_fits enough = absurd (omega arith)
find_fit-skip (suc fuel) m size before (x ∷ xs) ys (nz, here, rest) (unfit, none_fits) enough =
    let (left, more, e) = find_fit-skip fuel m size x.addr xs ys rest none_fits (omega arith) in
    (left, more, rw (here, ne→== x.addr 0 nz, unfit) e)

find_fit-here :
    (fuel : ℕ) (m : ℕ → Header) (size before : ℕ) (b : Block) (ys : List Block)
    → 0 < fuel
    → Seg m before (b ∷ ys) 0
    → fits size b ≡ true
    → find_fit fuel m size b.addr before ≡ some (b.addr, before)
unfolding find_fit
find_fit-here zero m size before b ys more s fit = absurd (omega arith)
find_fit-here (suc fuel) m size before b ys more (nz, here, rest) fit =
    rw (here, ne→== b.addr 0 nz, fit)

find_fit-nil :
    (fuel : ℕ) (m : ℕ → Header) (size before : ℕ)
    → 0 < fuel
    → find_fit fuel m size 0 before ≡ some (0, before)
unfolding find_fit
find_fit-nil zero m size before more = absurd (omega arith)
find_fit-nil (suc fuel) m size before more = refl

find_fit-first :
    (fuel : ℕ) (m : ℕ → Header) (size : ℕ) (xs : List Block) (b : Block) (ys : List Block)
    → Seg m 0 (xs ++ b ∷ ys) 0
    → NoneFits size xs
    → fits size b ≡ true
    → length (xs ++ b ∷ ys) < fuel
    → find_fit fuel m size (first (xs ++ b ∷ ys) 0) 0 ≡ some (b.addr, last_of 0 xs)
find_fit-first fuel m size xs b ys s none_fits fit enough =
    let short : length xs < fuel = omega (arith, length-append xs (b ∷ ys)) in
    let (left, more, e) = find_fit-skip fuel m size 0 xs (b ∷ ys) s none_fits short in
    e ∙ find_fit-here left m size _ b ys more (Seg-parts m 0 xs (b ∷ ys) 0 s).1 fit

pub find_fit-none :
    (fuel : ℕ) (m : ℕ → Header) (size : ℕ) (bs : List Block)
    → Seg m 0 bs 0
    → NoneFits size bs
    → length bs < fuel
    → find_fit fuel m size (first bs 0) 0 ≡ some (0, last_of 0 bs)
find_fit-none fuel m size bs s none_fits enough =
    let whole : bs ++ [] ≡ bs = append-nil bs in
    let (left, more, e) =
      find_fit-skip fuel m size 0 bs [] (subst (λ l. Seg m 0 l 0) (sym whole) s) none_fits enough in
    subst (λ l. find_fit fuel m size (first l 0) 0 ≡ some (0, last_of 0 bs)) whole
      (e ∙ find_fit-nil left m size (last_of 0 bs) more)

pub first-carve : (size : ℕ) (b : Block) → first (carve size b) 0 ≡ b.addr
first-carve size b = ground arith

first-replace :
    (size : ℕ) (xs : List Block) (b : Block) (ys : List Block)
    → first (xs ++ (carve size b ++ ys)) 0 ≡ first (xs ++ b ∷ ys) 0
first-replace size [] b ys = ground arith
first-replace size (x ∷ xs) b ys = refl

-- Where a free block is large enough, `kmalloc` hands out the first such block: the data behind its
-- header, cut to the size asked for where that leaves a block behind. The heap then keeps the same
-- blocks but for this one, still linked in order and apart, and no frame is taken.
pub kmalloc_large-fit :
    (fuel size₀ : ℕ) (h : KernelHeap) (pmm : Pmm) (xs : List Block) (b : Block) (ys : List Block)
    → Holds h (xs ++ b ∷ ys)
    → NoneFits (align_16 size₀) xs
    → fits (align_16 size₀) b ≡ true
    → size₀ < 2 ^ 62
    → length (xs ++ b ∷ ys) < fuel
    → (h' : KernelHeap) × (kmalloc_large fuel size₀ h pmm ≡ some (h', pmm, b.addr + header_size))
      × Holds h' (xs ++ (carve (align_16 size₀) b ++ ys))
unfolding kmalloc_large
kmalloc_large-fit fuel size₀ h pmm xs b ys (start, seg, apart) none_fits fit small enough =
    let size = align_16 size₀ in
    let (_, (nz, _, _)) = Seg-parts h.header 0 xs (b ∷ ys) 0 seg in
    let (_, (room, _, _), _) = Separated-parts xs (b ∷ ys) apart in
    let word : u64 (b.addr + header_size) ≡ b.addr + header_size = omega (arith, room) in
    let found =
      ap (λ p. find_fit fuel h.header size p 0) start
      ∙ find_fit-first fuel h.header size xs b ys seg none_fits fit enough in
    (
      record h { header = take_block b.addr size h.header },
      rw (kmalloc_large, found, ne→== b.addr 0 nz, word),
      (
        start ∙ sym (first-replace size xs b ys),
        Seg-take h.header 0 size xs b ys seg apart (omega arith),
        Separated-take size xs b ys (omega arith) apart,
      ),
    )
