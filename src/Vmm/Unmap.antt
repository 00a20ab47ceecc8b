-- ===== src/Vmm/Unmap.antt =====
-- What `_vmm_unmap_unlocked` promises.
use kernel_smp.Base.{
  ℕ, ◌<◌, ◌≡◌, ◌≢◌, ◌∙◌, ap, sym, refl, ◌⊎◌, inl, inr, false, List, [], ◌∷◌, length, none, some,
  arith, Bool-cases,
}
use kernel_smp.Vmm.{
  Vmm, TableMemory, address, write_entry, zero_entry, vmm_virtual_to_physical, vmm_unmap_unlocked,
  find_table, pml4_idx, pdpt_idx, pd_idx, pt_idx,
}
use kernel_smp.Vmm.Tree.{Place, Tree}
use kernel_smp.Vmm.Lookup.{lookup, walk, resolved, lookup-write, virtual_to_physical-walk}
use kernel_smp.Vmm.Translate.{OtherPage, write-Tree}

unmap_none :
    (root virt : ℕ) (s : Vmm)
    → find_table s.tables root virt ≡ none
    → vmm_unmap_unlocked root virt s ≡ s
unfolding vmm_unmap_unlocked
unmap_none root virt s e = rw (vmm_unmap_unlocked, e) refl

unmap_some :
    (root virt : ℕ) (s : Vmm) (pt : ℕ)
    → find_table s.tables root virt ≡ some pt
    → vmm_unmap_unlocked root virt s
      ≡ record s { tables = write_entry s.tables pt (pt_idx virt) zero_entry }
unfolding vmm_unmap_unlocked
unmap_some root virt s pt e = rw (vmm_unmap_unlocked, e) refl

-- The table that `find_table` finds is the one at the place of the address.
find_table-place :
    {root : ℕ} {place : Place} {s : Vmm} (virt : ℕ)
    → Tree root place s
    → ((find_table s.tables root virt ≡ none) × (walk s.tables root virt ≡ none))
      ⊎ ((pt : ℕ) × (find_table s.tables root virt ≡ some pt)
          × (place pt ≡ some (pd_idx virt ∷ pdpt_idx virt ∷ pml4_idx virt ∷ []))
          × ((m : TableMemory)
              → ((x j : ℕ) → x ≢ pt → m x j ≡ s.tables x j)
              → (m pt (pt_idx virt)).flags.present ≡ false
              → walk m root virt ≡ none))
unfolding lookup
find_table-place {root = root} {place = place} {s = s} virt tree =
    let e₁ = s.tables root (pml4_idx virt) in
    let e₂ = s.tables (address e₁) (pdpt_idx virt) in
    let e₃ = s.tables (address e₂) (pd_idx virt) in
    elim (Bool-cases e₁.flags.present) [
      | inr absent ↦ inl (ground arith, ground arith)
      | inl p₁ ↦ elim (Bool-cases e₂.flags.present) [
        | inr absent ↦ inl (ground arith, ground arith)
        | inl p₂ ↦ elim (Bool-cases e₃.flags.present) [
          | inr absent ↦ inl (ground arith, ground arith)
          | inl p₃ ↦
              let at₁ = tree.down root (pml4_idx virt) [] tree.at_root (omega arith) p₁ in
              let at₂ =
                tree.down (address e₁) (pdpt_idx virt) (pml4_idx virt ∷ []) at₁ (omega arith) p₂ in
              let at₃ =
                tree.down (address e₂) (pd_idx virt) (pdpt_idx virt ∷ pml4_idx virt ∷ []) at₂
                  (omega arith) p₃ in
              inr (
                address e₃,
                ground arith,
                at₃,
                λ m same absent.
                    rw
                      (
                        same root (pml4_idx virt)
                            (apart tree at₃ root [] tree.at_root (omega arith)),
                        p₁,
                        same (address e₁) (pdpt_idx virt) (apart tree at₃ _ _ at₁ (omega arith)),
                        p₂,
                        same (address e₂) (pd_idx virt) (apart tree at₃ _ _ at₂ (omega arith)),
                        p₃,
                        absent,
                      )
                      refl,
              )
        ]
      ]
    ]
  where
    apart :
        {root : ℕ} {place : Place} {s : Vmm} {pt : ℕ}
        → Tree root place s
        → place pt ≡ some (pd_idx virt ∷ pdpt_idx virt ∷ pml4_idx virt ∷ [])
        → (x : ℕ) (js : List ℕ) → place x ≡ some js
        → length js < 3
        → x ≢ pt
    apart tree at₃ x js at lt e =
        let same : js ≡ pd_idx virt ∷ pdpt_idx virt ∷ pml4_idx virt ∷ [] = cc in
        absurd (omega (arith, ap length same))

-- In a tree of page tables, an address that is unmapped is not translated, and every address of
-- another page translates as before.
pub vmm_unmap_unlocked_lem :
    {root : ℕ} {place : Place} {s : Vmm} (virt : ℕ)
    → Tree root place s
    → (vmm_virtual_to_physical (vmm_unmap_unlocked root virt s).tables root virt ≡ 0)
      × ((v : ℕ)
          → OtherPage v virt
          → vmm_virtual_to_physical (vmm_unmap_unlocked root virt s).tables root v
            ≡ vmm_virtual_to_physical s.tables root v)
vmm_unmap_unlocked_lem {root = root} {s = s} virt tree = elim (find_table-place virt tree) [
  | inl (e, gone) ↦
      rw (unmap_none root virt s e)
        (virtual_to_physical-walk virt tree ∙ ap (resolved virt) gone, λ v other. refl)
  | inr (pt, e, at, gone) ↦
      let final = write-Tree pt (pt_idx virt) _ zero_entry tree at refl in
      rw (unmap_some root virt s pt e) (
        virtual_to_physical-walk virt final
            ∙ ap (resolved virt) (gone _ (λ x j ne. ground arith) (ground arith)),
        λ v other.
            virtual_to_physical-walk v final
            ∙ ap (resolved v) (
                lookup-write tree pt (pt_idx virt) _ at refl zero_entry root (pml4_idx v) [] _
                  tree.at_root refl other)
            ∙ sym (virtual_to_physical-walk v tree),
      )
]
