-- ===== src/Vma/Find.antt =====
-- What `vma_find` of kernel/memory/vma.c promises on a search tree.
use kernel_smp.Base.{
  ℕ, zero, suc, ◌≤◌, ◌<◌, ◌≡◌, ◌≢◌, ◌⊎◌, inl, inr, true, false, ◌&&◌, some, ltb, leb, refl, arith,
  Bool-cases,
}
use kernel_smp.Vma.{Areas, find_from, vma_find}

abbrev pub Holds : Areas → ℕ → ℕ → Type 0
Holds s p addr = ((s.area p).vm_start ≤ addr) × (addr < (s.area p).vm_end)

-- The nodes below `curr`, at most `n` deep, are areas between `lo` and `hi` in order, none of which
-- overlaps another.
unfoldable pub Ordered : Areas → ℕ → ℕ → ℕ → ℕ → Type 0
Ordered s zero lo hi curr = curr ≡ 0
Ordered s (suc n) lo hi curr =
    let v = s.area curr in
    (curr ≡ 0)
    ⊎ ((curr ≢ 0)
        × (lo ≤ v.vm_start)
        × (v.vm_start ≤ v.vm_end)
        × (v.vm_end ≤ hi)
        × Ordered s n lo v.vm_start v.left
        × Ordered s n v.vm_end hi v.right)

-- `p` is a node below `curr`, at most `n` deep.
unfoldable pub Below : Areas → ℕ → ℕ → ℕ → Type 0
Below s p zero curr = ⊥
Below s p (suc n) curr =
    let v = s.area curr in (curr ≢ 0) × ((p ≡ curr) ⊎ (Below s p n v.left ⊎ Below s p n v.right))

-- What a search can answer: a node that holds the address, or 0, and then no node does.
abbrev pub Answer : Areas → ℕ → ℕ → ℕ → ℕ → Type 0
Answer s addr n curr p =
    ((p ≢ 0) × Below s p n curr × Holds s p addr)
    ⊎ ((p ≡ 0) × ((q : ℕ) → Below s q n curr → Holds s q addr → ⊥))

-- Every node lies within the bounds.
within :
    (s : Areas) (n lo hi curr q : ℕ)
    → Ordered s n lo hi curr
    → Below s q n curr
    → (lo ≤ (s.area q).vm_start) × ((s.area q).vm_end ≤ hi)
unfolding Ordered Below
within s zero lo hi curr q o b = absurd b
within s (suc n) lo hi curr q (inl e) (ne, b) = absurd (ne e)
within s (suc n) lo hi curr q (inr (ne, l, m, h, ol, or)) (_, inl e) = rw e (l, h)
within s (suc n) lo hi curr q (inr (ne, l, m, h, ol, or)) (_, inr (inl b)) =
    let (x, y) = within s n lo _ _ q ol b in (x, omega (arith, m, h, y))
within s (suc n) lo hi curr q (inr (ne, l, m, h, ol, or)) (_, inr (inr b)) =
    let (x, y) = within s n _ hi _ q or b in (omega (arith, l, m, x), y)

lower_lt :
    (s : Areas) (addr curr : ℕ)
    → ltb addr (s.area curr).vm_start ≡ true
    → addr < (s.area curr).vm_start
lower_lt s addr curr h = ground arith

higher_le :
    (s : Areas) (addr curr : ℕ)
    → ltb addr (s.area curr).vm_start ≡ false
    → (s.area curr).vm_start ≤ addr
higher_le s addr curr h = ground arith

not_both :
    (s : Areas) (addr curr : ℕ)
    → (leb (s.area curr).vm_start addr && ltb addr (s.area curr).vm_end) ≡ false
    → Holds s curr addr
    → ⊥
not_both s addr curr e (a, b) = ground arith

-- The search has a round for each level and one for NULL.
find_from_lem :
    (s : Areas) (addr n lo hi curr : ℕ)
    → Ordered s n lo hi curr
    → (p : ℕ) × (find_from (suc n) s addr curr ≡ some p) × Answer s addr n curr p
unfolding Ordered Below find_from
find_from_lem s addr zero lo hi curr o = (0, ground arith, inr (refl, λ q b h. b))
find_from_lem s addr (suc n) lo hi curr (inl e) = (0, ground arith, inr (refl, λ q (ne, b) h. ne e))
find_from_lem s addr (suc n) lo hi curr (inr (ne, l, m, h, ol, or)) =
    let v = s.area curr in
    elim (Bool-cases (leb v.vm_start addr && ltb addr v.vm_end)) [
      | inl yes_here ↦ (curr, ground arith, inl (ne, (ne, inl refl), ground arith))
      | inr not_here ↦ elim (Bool-cases (ltb addr v.vm_start)) [
        | inl lower ↦
            let (p, e, a) = find_from_lem s addr n lo _ _ ol in
            (
              p,
              ground arith,
              elim a [
                | inl (nz, b, h) ↦ inl (nz, (ne, inr (inl b)), h)
                | inr (z, none_left) ↦ inr (
                  z,
                  λ q (_, b) h. elim b [
                    | inl e' ↦ omega (arith, lower_lt s addr curr lower, (rw e' at h).0)
                    | inr (inl b') ↦ none_left q b' h
                    | inr (inr b') ↦
                        omega
                          (arith, lower_lt s addr curr lower, m, (within s n _ hi _ q or b').0, h.0)
                  ],
                )
              ],
            )
        | inr higher ↦
            let (p, e, a) = find_from_lem s addr n _ hi _ or in
            (
              p,
              ground arith,
              elim a [
                | inl (nz, b, h) ↦ inl (nz, (ne, inr (inr b)), h)
                | inr (z, none_right) ↦ inr (
                  z,
                  λ q (_, b) h. elim b [
                    | inl e' ↦ not_both s addr curr not_here (rw e' at h)
                    | inr (inl b') ↦
                        omega
                          (arith, higher_le s addr curr higher, (within s n lo _ _ q ol b').1, h.1)
                    | inr (inr b') ↦ none_right q b' h
                  ],
                )
              ],
            )
      ]
    ]

-- On a search tree of areas at most `n` deep, `vma_find` ends after `n + 1` rounds. It answers with
-- an area of the tree that holds the address, or with NULL, and then no area of the tree does.
pub vma_find_lem :
    (s : Areas) (addr n lo hi : ℕ)
    → Ordered s n lo hi s.tree_root
    → (p : ℕ) × (vma_find (suc n) s addr ≡ some p) × Answer s addr n s.tree_root p
unfolding vma_find
vma_find_lem s addr n lo hi o = find_from_lem s addr n lo hi s.tree_root o
