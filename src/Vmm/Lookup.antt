-- ===== src/Vmm/Lookup.antt =====
-- A walk through the tables along a list of indices, and what one level of a mapping does to it.
use kernel_smp.Base.{
  ℕ, ◌+◌, ◌%◌, ◌<◌, ◌≡◌, ◌≢◌, ap, refl, ◌⊎◌, inl, inr, true, false, List, [], ◌∷◌, length, Option,
  none, some, arith, ℕ_discrete, if◌then◌else◌, Bool-cases, u64,
}
use kernel_smp.Vmm.{
  Vmm, Entry, TableMemory, address, write_entry, vmm_virtual_to_physical, pml4_idx, pdpt_idx,
  pd_idx, pt_idx,
}
use kernel_smp.Vmm.Tree.{Place, Tree}
use kernel_smp.Vmm.Descend.{Down}

unfoldable pub lookup : TableMemory → ℕ → ℕ → List ℕ → Option Entry
lookup m t i [] = if (m t i).flags.present then some (m t i) else none
lookup m t i (j ∷ is) =
    let rest = lookup m (address (m t i)) j is in if (m t i).flags.present then rest else none

-- What an address is translated to when its walk ends at an entry.
abbrev pub resolved : ℕ → Option Entry → ℕ
resolved virt none = 0
resolved virt (some e) = u64 (address e + virt % 4096)

abbrev pub walk : TableMemory → ℕ → ℕ → Option Entry
walk m root virt = lookup m root (pml4_idx virt) (pdpt_idx virt ∷ pd_idx virt ∷ pt_idx virt ∷ [])

-- In a tree, `vmm_virtual_to_physical` is the walk.
pub virtual_to_physical-walk :
    {root : ℕ} {place : Place} {s : Vmm} (virt : ℕ)
    → Tree root place s
    → vmm_virtual_to_physical s.tables root virt ≡ resolved virt (walk s.tables root virt)
unfolding vmm_virtual_to_physical lookup
virtual_to_physical-walk {root = root} {place = place} {s = s} virt tree =
    let e₁ = s.tables root (pml4_idx virt) in
    let e₂ = s.tables (address e₁) (pdpt_idx virt) in
    elim (Bool-cases e₁.flags.present) [
      | inr absent ↦ ground arith
      | inl p₁ ↦ elim (Bool-cases e₂.flags.present) [
        | inr absent ↦ ground arith
        | inl p₂ ↦
            let at₁ = tree.down root (pml4_idx virt) [] tree.at_root (omega arith) p₁ in
            let at₂ =
              tree.down (address e₁) (pdpt_idx virt) (pml4_idx virt ∷ []) at₁ (omega arith) p₂ in
            ground (
              arith,
              tree.small (address e₂) (pd_idx virt) (pdpt_idx virt ∷ pml4_idx virt ∷ []) at₂ refl,
            )
      ]
    ]

module _ {root : ℕ} {place : Place} {s r : Vmm} {t i u : ℕ} {is : List ℕ} (tree : Tree root place s)
    (here : place t ≡ some is) (high : length is < 3) (d : Down root place s t i is r u) where
  same_length : (x : ℕ) (js : List ℕ) → place x ≡ some js → x ≡ t → length js ≡ length is
  same_length x js at e = let same : js ≡ is = cc in ap length same

  entry_cases : (x j : ℕ) → ((x ≡ t) × (j ≡ i)) ⊎ ((x ≢ t) ⊎ (j ≢ i))
  entry_cases x j = elim (ℕ_discrete x t) [
    | no a ↦ inr (inl a)
    | yes a ↦ elim (ℕ_discrete j i) [ no b ↦ inr (inr b) | yes b ↦ inl (a, b) ]
  ]

  -- A walk that enters the new table ends there.
  lookup_blank :
      (j : ℕ) (rest : List ℕ)
      → (r.tables u j).flags.present ≡ false
      → lookup r.tables u j rest ≡ none
  unfolding lookup
  lookup_blank j [] absent = rw absent
  lookup_blank j (k ∷ rest) absent = rw absent

  -- Adding a level changes no walk from a table of the tree to a leaf.
  pub lookup-descend :
      (x j : ℕ) (js rest : List ℕ)
      → place x ≡ some js
      → length js + length rest ≡ 3
      → lookup r.tables x j rest ≡ lookup s.tables x j rest
  unfolding lookup
  lookup-descend x j js [] at l = rw (d.same x j js at (inl lower)) refl
    where
      lower : x ≢ t
      lower e = absurd (omega (arith, same_length x js at e))
  lookup-descend x j js (k ∷ rest) at l = elim (Bool-cases (s.tables x j).flags.present) [
    | inl p ↦
        let (p', e) = d.stable x j js at p in
        rw (p, p', e)
          (lookup-descend (address (s.tables x j)) k (j ∷ js) rest
            (tree.down x j js at (omega arith) p) (omega arith))
    | inr absent ↦ elim (entry_cases x j) [
      | inr other ↦ rw (d.same x j js at other, absent)
      | inl (a, b) ↦
          let shown : (r.tables x j).flags.present ≡ true = rw (a, b) d.shown in
          let leads : address (r.tables x j) ≡ u = rw (a, b) d.leads in
          rw (shown, absent, leads) (lookup_blank k rest (d.blank (rw (a, b) at absent) k))
    ]
  ]

-- The indices of a walk from the place `js` on, from the leaf up.
abbrev pub path : List ℕ → ℕ → List ℕ → List ℕ
path js j [] = j ∷ js
path js j (k ∷ rest) = path (j ∷ js) k rest

module _ {root : ℕ} {place : Place} {s : Vmm} (tree : Tree root place s) (pt i : ℕ) (is : List ℕ)
    (at_pt : place pt ≡ some is) (low : length is ≡ 3) (e : Entry) where
  -- Writing an entry of a leaf table changes no walk but the one to that entry.
  pub lookup-write :
      (x j : ℕ) (js rest : List ℕ)
      → place x ≡ some js
      → length js + length rest ≡ 3
      → path js j rest ≢ i ∷ is
      → lookup (write_entry s.tables pt i e) x j rest ≡ lookup s.tables x j rest
  unfolding lookup
  lookup-write x j js [] at l other =
      rw
        (kept (elim (ℕ_discrete x pt) [
          | no a ↦ inl a
          | yes a ↦ inr (λ b. other (let same : js ≡ is = cc in cc))
        ]))
        refl
    where
      kept : (x ≢ pt) ⊎ (j ≢ i) → write_entry s.tables pt i e x j ≡ s.tables x j
      kept h = ground arith
  lookup-write x j js (k ∷ rest) at l other =
      rw (write_ne x j (λ a. absurd (omega (arith, same_length x js at a))))
        (elim (Bool-cases (s.tables x j).flags.present) [
          | inr absent ↦ rw absent
          | inl p ↦ rw p (
              lookup-write (address (s.tables x j)) k (j ∷ js) rest
                (tree.down x j js at (omega arith) p) (omega arith) other)
        ])
    where
      write_ne : (x j : ℕ) → x ≢ pt → write_entry s.tables pt i e x j ≡ s.tables x j
      write_ne x j h = ground arith

      same_length : (x : ℕ) (js : List ℕ) → place x ≡ some js → x ≡ pt → length js ≡ length is
      same_length x js at a = let same : js ≡ is = cc in ap length same
