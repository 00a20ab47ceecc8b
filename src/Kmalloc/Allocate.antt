-- ===== src/Kmalloc/Allocate.antt =====
-- `take_block`, the part of `kmalloc` of kernel/memory/kmalloc.c that hands out a block of the list and
-- makes a free block of what it does not need.
use kernel_smp.Base.{
  ℕ, ◌+◌, ◌-◌, ◌<◌, ◌^◌, ◌≡◌, sym, subst, ◌∙◌, ap, true, false, inl, inr, List, [], ◌∷◌, ◌++◌,
  if◌then◌else◌, update, update_ne, update_self, arith, Bool-cases, u64, sub64,
}
use kernel_smp.Kmalloc.{Header, set, set_prev, kmalloc_magic, header_size, take_block, split, wide}
use kernel_smp.Kmalloc.Segments.{
  Block, header_of, first, last_of, Seg, Seg-update, Seg-append, Seg-parts, Seg-set_prev,
  Seg-set_prev_apart, set_prev_ne, first_ne, set-set, Seg-set_flag,
}
use kernel_smp.Kmalloc.Separated.{
  end_at, Separated, Within, Separated-replace, Separated-parts, Separated-Avoids, Separated-first,
  Separated-rest,
}

-- The two blocks that a block is cut into, the used one and the free one behind it.
abbrev pub used_part : ℕ → Block → Block
used_part size b = record { addr = b.addr; size = size; is_free = false }

abbrev pub free_part : ℕ → Block → Block
free_part size b = record {
  addr = b.addr + header_size + size;
  size = b.size - size - header_size;
  is_free = true;
}

-- A block is cut in two where it is large enough, and is used whole otherwise.
abbrev pub carve : ℕ → Block → List Block
carve size b =
    if wide size b.size
    then used_part size b ∷ free_part size b ∷ []
    else record b { is_free = false } ∷ []

Within-carve : (size : ℕ) (b : Block) → size < 2 ^ 63 → Within (b ∷ []) (carve size b)
Within-carve size b lt d (h, _) = ground (arith, h)

Separated-carve :
    (size : ℕ) (b : Block) → size < 2 ^ 63 → end_at b < 2 ^ 64 → Separated (carve size b)
Separated-carve size b lt e = ground arith

pub Separated-take :
    (size : ℕ) (xs : List Block) (b : Block) (ys : List Block)
    → size < 2 ^ 63
    → Separated (xs ++ b ∷ ys)
    → Separated (xs ++ (carve size b ++ ys))
Separated-take size xs b ys lt s =
    let (_, (e, _, _), _) = Separated-parts xs (b ∷ ys) s in
    Separated-replace xs (b ∷ []) (carve size b) ys (Within-carve size b lt)
      (Separated-carve size b lt e) s

take-split :
    (m : ℕ → Header) (p size room : ℕ)
    → (m p).size ≡ room
    → wide size room ≡ true
    → take_block p size m ≡ set (split p size m) p (λ w. record w { is_free = false })
unfolding take_block
take-split m p size room e h = rw (e, h)

split_lem :
    (m : ℕ → Header) (p size q room : ℕ) (v : Header)
    → m p ≡ v
    → u64 (p + header_size + size) ≡ q
    → sub64 (sub64 v.size size) header_size ≡ room
    → split p size m
      ≡ set
          (set_prev v.next q (
            update m q (record {
              magic = kmalloc_magic;
              size = room;
              is_free = true;
              next = v.next;
              prev = p;
            })))
          p
          (λ w. record w { size = size; next = q })
unfolding split
split_lem m p size q room v here word room' = rw (here, word, room')

module _ (m : ℕ → Header) (before size : ℕ) (xs : List Block) (b : Block) (ys : List Block)
    (seg : Seg m before (xs ++ b ∷ ys) 0) (apart : Separated (xs ++ b ∷ ys))
    (lt : size < 2 ^ 63) where
  -- The block is used whole.
  Seg-take_whole :
      wide size b.size ≡ false
      → Seg (take_block b.addr size m) before (xs ++ record b { is_free = false } ∷ ys) 0
  unfolding take_block
  Seg-take_whole narrow =
      let (_, (_, here, _)) = Seg-parts m before xs (b ∷ ys) 0 seg in
      let (out_xs, out_ys) = Separated-Avoids xs b ys b.addr apart (omega arith) (omega arith) in
      let room : wide size (m b.addr).size ≡ false = rw here narrow in
      let e : take_block b.addr size m ≡ set m b.addr (λ v. record v { is_free = false }) =
        rw room in
      subst (λ n. Seg n before (xs ++ record b { is_free = false } ∷ ys) 0) (sym e)
        (Seg-set_flag m before false xs b ys out_xs out_ys seg)

  -- The block is cut in two.
  Seg-take_cut :
      wide size b.size ≡ true
      → Seg (take_block b.addr size m) before (xs ++ (used_part size b ∷ free_part size b ∷ ys)) 0
  unfolding take_block split
  Seg-take_cut room =
      let (s, (nz, here, tail)) = Seg-parts m before xs (b ∷ ys) 0 seg in
      let (_, (fits, _, sep_ys), _) = Separated-parts xs (b ∷ ys) apart in
      let q = b.addr + header_size + size in
      let next = first ys 0 in
      let (out_xs, out_ys) = Separated-Avoids xs b ys b.addr apart (omega arith) (omega arith) in
      let (far_xs, far_ys) = Separated-Avoids xs b ys q apart (omega arith) (ground arith) in
      let cut : Header = header_of b.addr (free_part size b) next in
      let m₁ : ℕ → Header = update m q cut in
      let m₂ : ℕ → Header = set_prev next q m₁ in
      let v : Header = header_of (last_of before xs) (used_part size b) q in
      let at_p : m₂ b.addr ≡ header_of (last_of before xs) b next =
        set_prev_ne next q b.addr m₁ (first_ne b.addr ys nz out_ys)
        ∙ update_ne m q b.addr cut (omega arith)
        ∙ here in
      let at_q : m₂ q ≡ cut =
        set_prev_ne next q q m₁ (first_ne q ys (omega arith) far_ys) ∙ update_self m q cut in
      let word : u64 q ≡ q = ground (arith, fits) in
      let room' : sub64 (sub64 b.size size) header_size ≡ b.size - size - header_size =
        ground (arith, fits) in
      let e : take_block b.addr size m ≡ update m₂ b.addr v =
        take-split m b.addr size b.size (ap (λ (h : Header). h.size) here) room
        ∙ ap (λ n. set n b.addr (λ w. record w { is_free = false }))
            (split_lem m b.addr size q (b.size - size - header_size) _ here word room')
        ∙ set-set m₂ b.addr (λ w. record w { size = size; next = q })
            (λ w. record w { is_free = false })
        ∙ ap (λ h. update m₂ b.addr (record h { size = size; next = q; is_free = false })) at_p in
      let front =
        Seg-set_prev_apart m₁ next q before xs b.addr (λ n. (Separated-first xs b ys apart n).0)
          (Seg-update m q cut before xs b.addr far_xs s) in
      let rear =
        Seg-set_prev m₁ q b.addr ys (Separated-rest ys sep_ys)
          (Seg-update m q cut b.addr ys 0 far_ys tail) in
      subst (λ n. Seg n before (xs ++ (used_part size b ∷ free_part size b ∷ ys)) 0) (sym e)
        (Seg-append (update m₂ b.addr v) before xs (used_part size b ∷ free_part size b ∷ ys) 0
          (Seg-update m₂ b.addr v before xs b.addr out_xs front)
          (
            nz,
            update_self m₂ b.addr v,
            (
              omega arith,
              update_ne m₂ b.addr q v (omega arith) ∙ at_q,
              Seg-update m₂ b.addr v q ys 0 out_ys rear,
            ),
          ))

  pub Seg-take : Seg (take_block b.addr size m) before (xs ++ (carve size b ++ ys)) 0
  Seg-take = elim (Bool-cases (wide size b.size)) [
    | inl room ↦ rw room (Seg-take_cut room)
    | inr narrow ↦ rw narrow (Seg-take_whole narrow)
  ]
