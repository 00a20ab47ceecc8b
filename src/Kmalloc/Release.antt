-- ===== src/Kmalloc/Release.antt =====
-- `kfree` of kernel/memory/kmalloc.c on the list of blocks: the block becomes free, and takes in the
-- free block right behind it; the free block right before takes in the result.
use kernel_smp.Base.{
  ℕ, ◌+◌, ◌≡◌, refl, sym, subst, ◌∙◌, ap, Bool, true, false, not, ◌&&◌, inl, inr, ◌⊎◌, some, none,
  List, [], ◌∷◌, ◌++◌, arith, u64, sub64, ◌==◌, ==→eq, ne→==, if◌then◌else◌, update, update_self,
  Bool-cases,
}
use mathlib.Core.List.{append_assoc}
use kernel_smp.Kmalloc.{
  Header, KernelHeap, header_size, set, set_prev, absorb, end_of, merge_next, merge_prev,
  kfree_large,
}
use kernel_smp.Kmalloc.Segments.{
  Block, first, last_of, header_of, Seg, Seg-append, Seg-parts, Seg-update, Seg-set_prev,
  Seg-set_prev_apart, set_prev_ne, first_ne, Seg-set_flag,
}
use kernel_smp.Kmalloc.Separated.{
  Separated, end_at, Separated-parts, Separated-replace, Separated-Avoids, Separated-first,
  Separated-rest,
}
use kernel_smp.Kmalloc.Fit.{Holds}

-- Two neighbours as one block.
abbrev pub union : Block → Block → Block
union b c = record b { size = b.size + header_size + c.size }

-- A block before a list: one with the first block of the list, where both are free neighbours.
abbrev pub merge : Block → List Block → List Block
merge b [] = b ∷ []
merge b (c ∷ cs) =
    if b.is_free && c.is_free && end_at b == c.addr then union b c ∷ cs else b ∷ c ∷ cs

-- The same for the last block of a list before another list.
abbrev pub attach : List Block → List Block → List Block
attach [] zs = zs
attach (a ∷ []) zs = merge a zs
attach (a ∷ x ∷ xs) zs = a ∷ attach (x ∷ xs) zs

-- The blocks after block `b` between `xs` and `ys` was freed.
abbrev pub released : List Block → Block → List Block → List Block
released xs b ys = attach xs (merge (record b { is_free = true }) ys)

&&-right : (a b : Bool) → (a && b) ≡ true → b ≡ true
&&-right a b h = ground arith

Separated-union :
    (xs : List Block) (p q : Block) (ys : List Block)
    → end_at p ≡ q.addr
    → Separated (xs ++ p ∷ q ∷ ys)
    → Separated (xs ++ union p q ∷ ys)
Separated-union xs p q ys e s =
    let (_, (_, _, (fits, _, _)), _) = Separated-parts xs (p ∷ q ∷ ys) s in
    Separated-replace xs (p ∷ q ∷ []) (union p q ∷ []) ys
      (λ d (h, (k, _)). (ground (arith, h, k), tt)) (omega (arith, fits), tt, tt) s

Seg-absorb :
    (m : ℕ → Header) (xs : List Block) (p q : Block) (ys : List Block)
    → end_at p ≡ q.addr
    → Separated (xs ++ p ∷ q ∷ ys)
    → Seg m 0 (xs ++ p ∷ q ∷ ys) 0
    → Seg (absorb p.addr q.addr m) 0 (xs ++ union p q ∷ ys) 0
unfolding absorb
Seg-absorb m xs p q ys e apart seg =
    let (s, (nz, here, (_, there, tail))) = Seg-parts m 0 xs (p ∷ q ∷ ys) 0 seg in
    let one = Separated-union xs p q ys e apart in
    let (_, (fits, _, rest), _) = Separated-parts xs (union p q ∷ ys) one in
    let (out_xs, out_ys) =
      Separated-Avoids xs (union p q) ys p.addr one (omega arith) (omega arith) in
    let next = first ys 0 in
    let v : Header = header_of (last_of 0 xs) (union p q) next in
    let m₁ : ℕ → Header = update m p.addr v in
    let total : u64 (p.size + u64 (q.size + header_size)) ≡ p.size + header_size + q.size =
      omega (arith, fits) in
    let eq : absorb p.addr q.addr m ≡ set_prev next p.addr m₁ = rw (here, there, total) in
    subst (λ n. Seg n 0 (xs ++ union p q ∷ ys) 0) (sym eq)
      (Seg-append (set_prev next p.addr m₁) 0 xs (union p q ∷ ys) 0
        (Seg-set_prev_apart m₁ next p.addr 0 xs p.addr
          (λ n. (Separated-first xs (union p q) ys one n).0)
          (Seg-update m p.addr v 0 xs p.addr out_xs s))
        (
          nz,
          set_prev_ne next p.addr p.addr m₁ (first_ne p.addr ys nz out_ys) ∙ update_self m p.addr v,
          Seg-set_prev m₁ p.addr q.addr ys (Separated-rest ys rest)
              (Seg-update m p.addr v q.addr ys 0 out_ys tail),
        ))

-- The memory and its list after a merge of two neighbours, if the code's test is the list's.
Seg-merge :
    (m : ℕ → Header) (xs : List Block) (a c : Block) (ys : List Block) (test : Bool)
    → test ≡ (a.is_free && c.is_free && end_at a == c.addr)
    → Separated (xs ++ a ∷ c ∷ ys)
    → Seg m 0 (xs ++ a ∷ c ∷ ys) 0
    → Seg (if test then absorb a.addr c.addr m else m) 0 (xs ++ merge a (c ∷ ys)) 0
      × Separated (xs ++ merge a (c ∷ ys))
Seg-merge m xs a c ys test e apart seg =
    elim (Bool-cases (a.is_free && c.is_free && end_at a == c.addr)) [
      | inl yes_ ↦
          let touch : end_at a ≡ c.addr =
            ==→eq (end_at a) c.addr (&&-right (a.is_free && c.is_free) (end_at a == c.addr) yes_) in
          rw (e, yes_)
            (Seg-absorb m xs a c ys touch apart seg, Separated-union xs a c ys touch apart)
      | inr no_ ↦ rw (e, no_) (seg, apart)
    ]

Seg-merge_next :
    (m : ℕ → Header) (xs : List Block) (b : Block) (ys : List Block)
    → b.is_free ≡ true
    → Separated (xs ++ b ∷ ys)
    → Seg m 0 (xs ++ b ∷ ys) 0
    → Seg (merge_next b.addr m) 0 (xs ++ merge b ys) 0 × Separated (xs ++ merge b ys)
unfolding merge_next
Seg-merge_next m xs b [] free apart seg =
    let (_, (_, here, _)) = Seg-parts m 0 xs (b ∷ []) 0 seg in rw here (seg, apart)
Seg-merge_next m xs b (c ∷ cs) free apart seg =
    let (_, (_, here, (nz, there, _))) = Seg-parts m 0 xs (b ∷ c ∷ cs) 0 seg in
    let (_, (fits, _, _), _) = Separated-parts xs (b ∷ c ∷ cs) apart in
    let word : u64 (b.addr + header_size + b.size) ≡ end_at b = omega (arith, fits) in
    let test : Bool = not (c.addr == 0) && (m c.addr).is_free && end_of m b.addr == c.addr in
    let same : test ≡ (b.is_free && c.is_free && end_at b == c.addr) =
      rw (here, there, word, free, ne→== c.addr 0 nz) in
    let e : merge_next b.addr m ≡ (if test then absorb b.addr c.addr m else m) = rw here in
    subst (λ n. Seg n 0 (xs ++ merge b (c ∷ cs)) 0 × Separated (xs ++ merge b (c ∷ cs))) (sym e)
      (Seg-merge m xs b c cs test same apart seg)

Seg-merge_prev :
    (m : ℕ → Header) (xs : List Block) (a c : Block) (ys : List Block)
    → c.is_free ≡ true
    → Separated (xs ++ a ∷ c ∷ ys)
    → Seg m 0 (xs ++ a ∷ c ∷ ys) 0
    → Seg (merge_prev c.addr m) 0 (xs ++ merge a (c ∷ ys)) 0 × Separated (xs ++ merge a (c ∷ ys))
unfolding merge_prev
Seg-merge_prev m xs a c ys free apart seg =
    let (_, (nz, here, (_, there, _))) = Seg-parts m 0 xs (a ∷ c ∷ ys) 0 seg in
    let (_, (fits, _, _), _) = Separated-parts xs (a ∷ c ∷ ys) apart in
    let word : u64 (a.addr + header_size + a.size) ≡ end_at a = omega (arith, fits) in
    let test : Bool = not (a.addr == 0) && (m a.addr).is_free && end_of m a.addr == c.addr in
    let same : test ≡ (a.is_free && c.is_free && end_at a == c.addr) =
      rw (here, word, free, ne→== a.addr 0 nz) (ground arith) in
    let e : merge_prev c.addr m ≡ (if test then absorb a.addr c.addr m else m) = rw there in
    subst (λ n. Seg n 0 (xs ++ merge a (c ∷ ys)) 0 × Separated (xs ++ merge a (c ∷ ys))) (sym e)
      (Seg-merge m xs a c ys test same apart seg)

-- A list is empty or has a last block.
snoc-cases : (xs : List Block) → (xs ≡ []) ⊎ ((ws : List Block) × (a : Block) × (xs ≡ ws ++ a ∷ []))
snoc-cases [] = inl refl
snoc-cases (x ∷ xs) = elim (snoc-cases xs) [
  | inl e ↦ inr ([], x, ap (λ l. x ∷ l) e)
  | inr (ws, a, e) ↦ inr (x ∷ ws, a, ap (λ l. x ∷ l) e)
]

attach-snoc :
    (ws : List Block) (a : Block) (zs : List Block) → attach (ws ++ a ∷ []) zs ≡ ws ++ merge a zs
attach-snoc [] a zs = refl
attach-snoc (w ∷ []) a zs = refl
attach-snoc (w ∷ x ∷ ws) a zs = ap (λ l. w ∷ l) (attach-snoc (x ∷ ws) a zs)

-- The first block has none before it.
Seg-alone :
    (m : ℕ → Header) (c : Block) (ys : List Block)
    → Seg m 0 (c ∷ ys) 0
    → Separated (c ∷ ys)
    → Seg (merge_prev c.addr m) 0 (c ∷ ys) 0 × Separated (c ∷ ys)
unfolding merge_prev
Seg-alone m c ys seg apart =
    let e : merge_prev c.addr m ≡ m = rw seg.1 in
    subst (λ n. Seg n 0 (c ∷ ys) 0 × Separated (c ∷ ys)) (sym e) (seg, apart)

Seg-attach :
    (m : ℕ → Header) (xs : List Block) (c : Block) (ys : List Block)
    → c.is_free ≡ true
    → Separated (xs ++ c ∷ ys)
    → Seg m 0 (xs ++ c ∷ ys) 0
    → Seg (merge_prev c.addr m) 0 (attach xs (c ∷ ys)) 0 × Separated (attach xs (c ∷ ys))
Seg-attach m xs c ys free apart seg =
    let zs = c ∷ ys in
    let n : ℕ → Header = merge_prev c.addr m in
    elim (snoc-cases xs) [
      | inl e ↦
          let p : xs ++ zs ≡ zs = ap (λ l. l ++ zs) e in
          let q : attach xs zs ≡ zs = ap (λ l. attach l zs) e in
          subst (λ l. Seg n 0 l 0 × Separated l) (sym q)
            (Seg-alone m c ys (subst (λ l. Seg m 0 l 0) p seg) (subst Separated p apart))
      | inr (ws, a, e) ↦
          let p : xs ++ zs ≡ ws ++ a ∷ zs = ap (λ l. l ++ zs) e ∙ append_assoc ws (a ∷ []) zs in
          let q : attach xs zs ≡ ws ++ merge a zs = ap (λ l. attach l zs) e ∙ attach-snoc ws a zs in
          subst (λ l. Seg n 0 l 0 × Separated l) (sym q)
            (Seg-merge_prev m ws a c ys free (subst Separated p apart)
              (subst (λ l. Seg m 0 l 0) p seg))
    ]

first-merge : (b : Block) (ys : List Block) → first (merge b ys) 0 ≡ b.addr
first-merge b [] = refl
first-merge b (c ∷ cs) = ground arith

first-attach : (xs zs : List Block) → first (attach xs zs) 0 ≡ first (xs ++ zs) 0
first-attach [] zs = refl
first-attach (a ∷ []) zs = first-merge a zs
first-attach (a ∷ x ∷ xs) zs = refl

first-release :
    (xs : List Block) (b : Block) (ys : List Block)
    → first (released xs b ys) 0 ≡ first (xs ++ b ∷ ys) 0
first-release [] b ys = first-merge (record b { is_free = true }) ys
first-release (x ∷ xs) b ys = first-attach (x ∷ xs) (merge (record b { is_free = true }) ys)

-- A merged block is still there, and free as before.
merge-cons :
    (b : Block) (ys : List Block)
    → (c : Block) × (cs : List Block) × (merge b ys ≡ c ∷ cs)
      × (c.addr ≡ b.addr)
      × (c.is_free ≡ b.is_free)
merge-cons b [] = (b, [], refl, refl, refl)
merge-cons b (c ∷ cs) = elim (Bool-cases (b.is_free && c.is_free && end_at b == c.addr)) [
  | inl yes_ ↦ (union b c, cs, rw yes_, refl, refl)
  | inr no_ ↦ (b, c ∷ cs, rw no_, refl, refl)
]

-- Freeing the data of a used block of the heap succeeds, and the heap then keeps the blocks as before,
-- linked in order and apart, but for the freed block: it is free, and one block with the free blocks
-- that are right behind and right before it in the list and touch it in memory.
pub kfree_large_lem :
    (h : KernelHeap) (xs : List Block) (b : Block) (ys : List Block)
    → Holds h (xs ++ b ∷ ys)
    → b.is_free ≡ false
    → (h' : KernelHeap) × (kfree_large (b.addr + header_size) h ≡ some h')
      × Holds h' (released xs b ys)
unfolding kfree_large
kfree_large_lem h xs b ys (start, seg, apart) used =
    let p = b.addr in
    let b' : Block = record b { is_free = true } in
    let (_, (_, here, _)) = Seg-parts h.header 0 xs (b ∷ ys) 0 seg in
    let (_, (fits, _, _), _) = Separated-parts xs (b ∷ ys) apart in
    let (out_xs, out_ys) = Separated-Avoids xs b ys p apart (omega arith) (omega arith) in
    let header : sub64 (p + header_size) header_size ≡ p = omega (arith, fits) in
    let freed : ℕ → Header = set h.header p (λ v. record v { is_free = true }) in
    let (seg₂, apart₂) =
      Seg-merge_next freed xs b' ys refl
        (Separated-replace xs (b ∷ []) (b' ∷ []) ys (λ d k. k) (fits, tt, tt) apart)
        (Seg-set_flag h.header 0 true xs b ys out_xs out_ys seg) in
    let (c, cs, e, at_p, free) = merge-cons b' ys in
    let (seg₃, apart₃) =
      Seg-attach (merge_next p freed) xs c cs free (subst (λ l. Separated (xs ++ l)) e apart₂)
        (subst (λ l. Seg (merge_next p freed) 0 (xs ++ l) 0) e seg₂) in
    (
      record h { header = merge_prev p (merge_next p freed) },
      rw (header, here, used),
      (
        start ∙ sym (first-release xs b ys),
        subst (λ l. Seg (merge_prev p (merge_next p freed)) 0 (attach xs l) 0) (sym e)
            (subst (λ q. Seg (merge_prev q (merge_next p freed)) 0 (attach xs (c ∷ cs)) 0) at_p
              seg₃),
        subst (λ l. Separated (attach xs l)) (sym e) apart₃,
      ),
    )

-- A merge leaves the state of every header alone.
absorb-is_free : (p q : ℕ) (m : ℕ → Header) (r : ℕ) → (absorb p q m r).is_free ≡ (m r).is_free
unfolding absorb
absorb-is_free p q m r = ground arith

merge_next-is_free : (p : ℕ) (m : ℕ → Header) (r : ℕ) → (merge_next p m r).is_free ≡ (m r).is_free
unfolding merge_next
merge_next-is_free p m r = ground (arith, absorb-is_free p (m p).next m r)

merge_prev-is_free : (p : ℕ) (m : ℕ → Header) (r : ℕ) → (merge_prev p m r).is_free ≡ (m r).is_free
unfolding merge_prev
merge_prev-is_free p m r = ground (arith, absorb-is_free (m p).prev p m r)

kfree_large-frees :
    (ptr : ℕ) (h h' : KernelHeap)
    → kfree_large ptr h ≡ some h'
    → (h'.header (sub64 ptr header_size)).is_free ≡ true
unfolding kfree_large
kfree_large-frees ptr h h' e =
    let p = sub64 ptr header_size in
    let freed : ℕ → Header = set h.header p (λ v. record v { is_free = true }) in
    let now : (freed p).is_free ≡ true =
      ap (λ (v : Header). v.is_free) (update_self h.header p _) in
    ground (arith, now, merge_next-is_free p freed p, merge_prev-is_free p (merge_next p freed) p)

-- Of two frees of one address in a row, the second one panics.
pub kfree_large-kfree_large :
    (ptr : ℕ) (h h' : KernelHeap) → kfree_large ptr h ≡ some h' → kfree_large ptr h' ≡ none
unfolding kfree_large
kfree_large-kfree_large ptr h h' e = let freed = kfree_large-frees ptr h h' e in ground arith
