-- ===== src/Kmalloc/Separated.antt =====
-- The blocks of the kernel heap of kernel/memory/kmalloc.c do not overlap, and neither do the blocks
-- that replace some of them within the same bytes.
use kernel_smp.Base.{
  ℕ, ◌+◌, ◌≤◌, ◌<◌, ◌≢◌, refl, ◌⊎◌, inl, inr, List, [], ◌∷◌, ◌++◌, All, All-append, All-parts,
  arith, ◌^◌,
}
use kernel_smp.Kmalloc.{header_size}
use kernel_smp.Kmalloc.Segments.{Block, Avoids, Avoids-rest, first}

-- The address behind a block, its header included.
abbrev pub end_at : Block → ℕ
end_at b = b.addr + header_size + b.size

abbrev pub Disjoint : Block → Block → Type 0
Disjoint b c = (end_at b ≤ c.addr) ⊎ (end_at c ≤ b.addr)

abbrev pub Clear : Block → List Block → Type 0
Clear b = All (Disjoint b)

-- No two blocks overlap, and none reaches the end of the address space.
abbrev pub Separated : List Block → Type 0
Separated [] = Unit
Separated (b ∷ bs) = (end_at b < 2 ^ 64) × Clear b bs × Separated bs

Disjoint-sym : (b c : Block) → Disjoint b c → Disjoint c b
Disjoint-sym b c (inl h) = inr h
Disjoint-sym b c (inr h) = inl h

-- What is clear of the blocks `bs` is clear of the blocks `cs`.
abbrev pub Within : List Block → List Block → Type 0
Within bs cs = (d : Block) → Clear d bs → Clear d cs

Clear-replace :
    (d : Block) (xs bs cs ys : List Block)
    → Within bs cs
    → Clear d (xs ++ (bs ++ ys))
    → Clear d (xs ++ (cs ++ ys))
Clear-replace d xs bs cs ys inside h =
    let (hx, hr) = All-parts (Disjoint d) xs (bs ++ ys) h in
    let (hb, hy) = All-parts (Disjoint d) bs ys hr in
    All-append (Disjoint d) xs (cs ++ ys) hx (All-append (Disjoint d) cs ys (inside d hb) hy)

Separated-append :
    (xs ys : List Block)
    → Separated xs
    → Separated ys
    → All (λ x. Clear x ys) xs
    → Separated (xs ++ ys)
Separated-append [] ys s t c = t
Separated-append (x ∷ xs) ys (e, d, s) t (c, cs) =
    (e, All-append (Disjoint x) xs ys d c, Separated-append xs ys s t cs)

pub Separated-parts :
    (xs ys : List Block)
    → Separated (xs ++ ys)
    → Separated xs × Separated ys × All (λ x. Clear x ys) xs
Separated-parts [] ys s = (tt, s, tt)
Separated-parts (x ∷ xs) ys (e, d, s) =
    let (a, b, c) = Separated-parts xs ys s in
    let (f, g) = All-parts (Disjoint x) xs ys d in ((e, f, a), b, (g, c))

-- Of two lists, each block of one is clear of the other.
abbrev Apart : List Block → List Block → Type 0
Apart xs ys = All (λ x. Clear x ys) xs

Apart-nil : (xs : List Block) → Apart xs []
Apart-nil [] = tt
Apart-nil (x ∷ xs) = (tt, Apart-nil xs)

Apart-cons : (xs ys : List Block) (y : Block) → Clear y xs → Apart xs ys → Apart xs (y ∷ ys)
Apart-cons [] ys y h k = tt
Apart-cons (x ∷ xs) ys y (d, h) (c, k) = ((Disjoint-sym y x d, c), Apart-cons xs ys y h k)

Apart-sym : (xs ys : List Block) → Apart xs ys → Apart ys xs
Apart-sym [] ys h = Apart-nil ys
Apart-sym (x ∷ xs) ys (c, h) = Apart-cons ys xs x c (Apart-sym xs ys h)

Apart-Within : (bs cs ys : List Block) → Within bs cs → Apart ys bs → Apart ys cs
Apart-Within bs cs [] inside h = tt
Apart-Within bs cs (y ∷ ys) inside (c, h) = (inside y c, Apart-Within bs cs ys inside h)

-- Blocks give way to blocks within the same bytes.
pub Separated-replace :
    (xs bs cs ys : List Block)
    → Within bs cs
    → Separated cs
    → Separated (xs ++ (bs ++ ys))
    → Separated (xs ++ (cs ++ ys))
Separated-replace [] bs cs ys inside new s =
    let (a, b, c) = Separated-parts bs ys s in
    Separated-append cs ys new b
      (Apart-sym ys cs (Apart-Within bs cs ys inside (Apart-sym bs ys c)))
Separated-replace (x ∷ xs) bs cs ys inside new (e, d, s) =
    (e, Clear-replace x xs bs cs ys inside d, Separated-replace xs bs cs ys inside new s)

-- A block apart from the others shares no address with them.
pub Clear-Avoids_within :
    (b : Block) (q : ℕ) (bs : List Block) → b.addr ≤ q → q < end_at b → Clear b bs → Avoids q bs
Clear-Avoids_within b q [] lo hi h = tt
Clear-Avoids_within b q (c ∷ cs) lo hi (d, h) =
    (λ e. ground (arith, d), Clear-Avoids_within b q cs lo hi h)

-- Around a block, no other is at an address within it.
pub Separated-Avoids :
    (xs : List Block) (b : Block) (ys : List Block) (q : ℕ)
    → Separated (xs ++ b ∷ ys)
    → b.addr ≤ q
    → q < end_at b
    → Avoids q xs × Avoids q ys
Separated-Avoids [] b ys q (e, c, s) lo hi = (tt, Clear-Avoids_within b q ys lo hi c)
Separated-Avoids (x ∷ xs) b ys q (e, c, s) lo hi =
    let (out_xs, out_ys) = Separated-Avoids xs b ys q s lo hi in
    let (cx, (cb, cy)) = All-parts (Disjoint x) xs (b ∷ ys) c in
    ((λ z. ground (arith, cb), out_xs), out_ys)

-- The block behind another one is at an address that no block before has.
pub Separated-first :
    (xs : List Block) (b : Block) (ys : List Block)
    → Separated (xs ++ b ∷ ys)
    → first ys 0 ≢ 0
    → Avoids (first ys 0) xs × (first ys 0 ≢ b.addr) × Avoids-rest ys
Separated-first xs b [] s nz = absurd (nz refl)
Separated-first [] b (c ∷ cs) (e, (d, _), (_, k, _)) nz =
    (tt, λ z. ground (arith, d), Clear-Avoids_within c c.addr cs (omega arith) (omega arith) k)
Separated-first (x ∷ xs) b (c ∷ cs) (e, d, s) nz =
    let (out_xs, ne, out) = Separated-first xs b (c ∷ cs) s nz in
    let (_, (_, (dc, _))) = All-parts (Disjoint x) xs (b ∷ c ∷ cs) d in
    ((λ z. ground (arith, dc), out_xs), ne, out)

pub Separated-rest : (ys : List Block) → Separated ys → Avoids-rest ys
Separated-rest [] s = tt
Separated-rest (y ∷ ys) (e, d, s) = Clear-Avoids_within y y.addr ys (omega arith) (omega arith) d
