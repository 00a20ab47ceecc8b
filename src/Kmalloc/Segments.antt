-- ===== src/Kmalloc/Segments.antt =====
-- A stretch of the list of blocks of kernel/memory/kmalloc.c as a list of blocks, and what a write to
-- a header does to it.
use kernel_smp.Base.{
  ℕ, ◌≡◌, ◌≢◌, refl, sym, subst, fun_ext, ◌∙◌, ap, Bool, List, [], ◌∷◌, ◌++◌, All, update,
  update_ne, update_self, arith, ne→==, ℕ_discrete,
}
use kernel_smp.Kmalloc.{Header, set, set_prev, kmalloc_magic}

-- A block without its links.
pub record Block : Type 0 where
  pub addr : ℕ
  pub size : ℕ
  pub is_free : Bool

-- The header of a block between two others.
abbrev pub header_of : ℕ → Block → ℕ → Header
header_of before b after = record {
  magic = kmalloc_magic;
  size = b.size;
  is_free = b.is_free;
  next = after;
  prev = before;
}

-- The block that a list starts with, when `after` comes behind it.
abbrev pub first : List Block → ℕ → ℕ
first [] after = after
first (b ∷ bs) after = b.addr

-- The block that a list ends with, when `before` comes before it.
abbrev pub last_of : ℕ → List Block → ℕ
last_of before [] = before
last_of before (b ∷ bs) = last_of b.addr bs

-- The headers link the blocks in order, between the blocks `before` and `after`.
abbrev pub Seg : (ℕ → Header) → ℕ → List Block → ℕ → Type 0
Seg m before [] after = Unit
Seg m before (b ∷ bs) after =
    (b.addr ≢ 0) × (m b.addr ≡ header_of before b (first bs after)) × Seg m b.addr bs after

-- No block of the list is at `q`.
abbrev pub Avoids : ℕ → List Block → Type 0
Avoids q = All (λ b. q ≢ b.addr)

-- The first block is at none of the other addresses.
abbrev pub Avoids-rest : List Block → Type 0
Avoids-rest [] = Unit
Avoids-rest (b ∷ bs) = Avoids b.addr bs

pub Seg-update :
    (m : ℕ → Header) (q : ℕ) (v : Header) (before : ℕ) (bs : List Block) (after : ℕ)
    → Avoids q bs
    → Seg m before bs after
    → Seg (update m q v) before bs after
Seg-update m q v before [] after out s = s
Seg-update m q v before (b ∷ bs) after out (nz, here, rest) =
    (nz, update_ne m q b.addr v out.0 ∙ here, Seg-update m q v b.addr bs after out.1 rest)

first-append : (xs ys : List Block) (after : ℕ) → first (xs ++ ys) after ≡ first xs (first ys after)
first-append [] ys after = refl
first-append (x ∷ xs) ys after = refl

last_of-append :
    (before : ℕ) (xs ys : List Block) → last_of before (xs ++ ys) ≡ last_of (last_of before xs) ys
last_of-append before [] ys = refl
last_of-append before (x ∷ xs) ys = last_of-append x.addr xs ys

pub Seg-append :
    (m : ℕ → Header) (before : ℕ) (xs ys : List Block) (after : ℕ)
    → Seg m before xs (first ys after)
    → Seg m (last_of before xs) ys after
    → Seg m before (xs ++ ys) after
Seg-append m before [] ys after s t = t
Seg-append m before (x ∷ xs) ys after (nz, here, rest) t = (
  nz,
  here ∙ ap (header_of before x) (sym (first-append xs ys after)),
  Seg-append m x.addr xs ys after rest t,
)

pub Seg-parts :
    (m : ℕ → Header) (before : ℕ) (xs ys : List Block) (after : ℕ)
    → Seg m before (xs ++ ys) after
    → Seg m before xs (first ys after) × Seg m (last_of before xs) ys after
Seg-parts m before [] ys after s = (tt, s)
Seg-parts m before (x ∷ xs) ys after (nz, here, rest) =
    let (s, t) = Seg-parts m x.addr xs ys after rest in
    ((nz, here ∙ ap (header_of before x) (first-append xs ys after), s), t)

-- `if (p) p->prev = x` is the write, unless `p` is NULL.
set_prev-update :
    (p x : ℕ) (m : ℕ → Header) → p ≢ 0 → set_prev p x m ≡ update m p (record (m p) { prev = x })
set_prev-update p x m nz = rw (ne→== p 0 nz)

-- Two changes of one header.
pub set-set :
    (m : ℕ → Header) (p : ℕ) (f g : Header → Header)
    → set (set m p f) p g ≡ update m p (g (f (m p)))
set-set m p f g = fun_ext (λ q. ground (arith, update_self m p (f (m p))))

pub first_ne : (q : ℕ) (bs : List Block) → q ≢ 0 → Avoids q bs → first bs 0 ≢ q
first_ne q [] nz out e = nz (sym e)
first_ne q (b ∷ bs) nz out e = out.0 (sym e)

pub set_prev_ne : (p x q : ℕ) (m : ℕ → Header) → p ≢ q → set_prev p x m q ≡ m q
set_prev_ne p x q m ne = ground (arith, update_ne m p q (record (m p) { prev = x }))

-- `if (p) p->prev = x` for the first block of the stretch that ends the list.
pub Seg-set_prev :
    (m : ℕ → Header) (x before : ℕ) (bs : List Block)
    → Avoids-rest bs
    → Seg m before bs 0
    → Seg (set_prev (first bs 0) x m) x bs 0
Seg-set_prev m x before [] out s = tt
Seg-set_prev m x before (c ∷ cs) out (nz, here, rest) =
    let v : Header = record (m c.addr) { prev = x } in
    subst (λ n. Seg n x (c ∷ cs) 0) (sym (set_prev-update c.addr x m nz))
      (nz, update_self m c.addr v ∙ rw here, Seg-update m c.addr v c.addr cs 0 out rest)

-- A write elsewhere is not seen through `if (p) p->prev = x`.
pub Seg-set_prev_apart :
    (m : ℕ → Header) (p x before : ℕ) (bs : List Block) (after : ℕ)
    → (p ≢ 0 → Avoids p bs)
    → Seg m before bs after
    → Seg (set_prev p x m) before bs after
Seg-set_prev_apart m p x before bs after out s = elim (ℕ_discrete p 0) [
  | yes z ↦ subst (λ n. Seg n before bs after) (sym (rw z)) s
  | no nz ↦
      subst (λ n. Seg n before bs after) (sym (set_prev-update p x m nz))
        (Seg-update m p (record (m p) { prev = x }) before bs after (out nz) s)
]

-- `p->is_free = flag` for a block of the list.
pub Seg-set_flag :
    (m : ℕ → Header) (before : ℕ) (flag : Bool) (xs : List Block) (b : Block) (ys : List Block)
    → Avoids b.addr xs
    → Avoids b.addr ys
    → Seg m before (xs ++ b ∷ ys) 0
    → Seg
        (set m b.addr (λ v. record v { is_free = flag }))
        before
        (xs ++ record b { is_free = flag } ∷ ys)
        0
Seg-set_flag m before flag xs b ys out_xs out_ys seg =
    let (s, (nz, here, rest)) = Seg-parts m before xs (b ∷ ys) 0 seg in
    let b' : Block = record b { is_free = flag } in
    let v : Header = record (m b.addr) { is_free = flag } in
    Seg-append (update m b.addr v) before xs (b' ∷ ys) 0
      (Seg-update m b.addr v before xs b.addr out_xs s)
      (nz, update_self m b.addr v ∙ rw here, Seg-update m b.addr v b.addr ys 0 out_ys rest)
