-- ===== src/Vmm/Translate.antt =====
-- What `_vmm_map_unlocked` and `vmm_virtual_to_physical` promise each other.
use kernel_smp.Base.{
  ℕ, ◌+◌, ◌*◌, ◌%◌, ◌<◌, ◌≡◌, ◌≢◌, ◌∙◌, ap, sym, refl, ◌⊎◌, inl, inr, true, false, List, [], ◌∷◌,
  length, none, some, arith, page_size, u64,
}
use kernel_smp.Pmm.{pmm_alloc_frame}
use kernel_smp.Vmm.{
  Vmm, Entry, Flags, write_entry, vmm_virtual_to_physical, vmm_map_unlocked, leaf_table, leaf,
  frame_of, pml4_idx, pdpt_idx, pd_idx, pt_idx,
}
use kernel_smp.Vmm.Tree.{Place, Tree}
use kernel_smp.Vmm.Lookup.{resolved, path, lookup-write, virtual_to_physical-walk}
use kernel_smp.Vmm.Levels.{some_eq, leaf_table-Reached}

-- The indices of two addresses differ at some level: they lie in different pages of the 48 bits
-- that are translated.
abbrev pub OtherPage : ℕ → ℕ → Type 0
OtherPage v w =
    path [] (pml4_idx v) (pdpt_idx v ∷ pd_idx v ∷ pt_idx v ∷ [])
    ≢ pt_idx w ∷ pd_idx w ∷ pdpt_idx w ∷ pml4_idx w ∷ []

map_none :
    (root virt phys : ℕ) (flags : Flags) (s : Vmm)
    → (leaf_table root virt flags s).below ≡ none
    → vmm_map_unlocked root virt phys flags s ≡ ((leaf_table root virt flags s).state, false)
unfolding vmm_map_unlocked
map_none root virt phys flags s e = rw (vmm_map_unlocked, e) refl

abbrev mapped : ℕ → ℕ → ℕ → Flags → Vmm → Vmm
mapped pt virt phys flags r = record r {
  tables = write_entry r.tables pt (pt_idx virt) (leaf phys flags);
}

map_some :
    (root virt phys : ℕ) (flags : Flags) (s : Vmm) (pt : ℕ)
    → (leaf_table root virt flags s).below ≡ some pt
    → vmm_map_unlocked root virt phys flags s
      ≡ (mapped pt virt phys flags (leaf_table root virt flags s).state, true)
unfolding vmm_map_unlocked
map_some root virt phys flags s pt e = rw (vmm_map_unlocked, e) refl

-- An entry of a leaf table is no part of the tree.
pub write-Tree :
    {root : ℕ} {place : Place} {r : Vmm} (pt i : ℕ) (is : List ℕ) (e : Entry)
    → Tree root place r
    → place pt ≡ some is
    → length is ≡ 3
    → Tree root place (record r { tables = write_entry r.tables pt i e })
write-Tree {place = place} {r = r} pt i is e tree at_pt low = record {
  at_root = tree.at_root;
  down = λ x j js at lt p.
      rw (kept x j js at lt) (tree.down x j js at lt (rw (← kept x j js at lt) p));
  up = λ x j js at.
      let (y, at', p, e') = tree.up x j js at in
      (y, at', rw (kept y j js at' (short x j js at)) p, rw (kept y j js at' (short x j js at)) e');
  only = tree.only;
  deep = tree.deep;
  small = λ x j js at l. rw (kept x j js at (omega (arith, l))) (tree.small x j js at l);
  in_use = tree.in_use;
  valid = tree.valid;
  fits = tree.fits;
  hinted = tree.hinted;
  zero_used = tree.zero_used;
}
  where
    kept :
        (x j : ℕ) (js : List ℕ)
        → place x ≡ some js
        → length js < 3
        → write_entry r.tables pt i e x j ≡ r.tables x j
    kept x j js at lt =
        let ne : x ≢ pt = λ a. absurd (omega (arith, ap length (some_eq (rw a at at) at_pt))) in
        ground arith

    short : (x j : ℕ) (js : List ℕ) → place x ≡ some (j ∷ js) → length js < 3
    short x j js at = tree.deep x (j ∷ js) at

small_sum :
    (phys virt : ℕ)
    → u64 (frame_of phys * page_size + virt % 4096) ≡ frame_of phys * page_size + virt % page_size
small_sum phys virt = omega arith

-- In a tree of page tables, a mapping reports one of two things. It reports false, the allocator of
-- the state that it leaves has no frame for this CPU, and every address translates as before. Or it
-- reports true, the address translates to the frame and the offset in the page, and every address
-- of another page translates as before.
pub vmm_map_unlocked_lem :
    {root : ℕ} {place : Place} {s : Vmm} (virt phys : ℕ) (flags : Flags)
    → Tree root place s
    → let (s', done) = vmm_map_unlocked root virt phys flags s in
      ((done ≡ false)
        × ((pmm_alloc_frame s'.hint s'.pmm).addr ≡ 0)
        × ((v : ℕ)
            → vmm_virtual_to_physical s'.tables root v ≡ vmm_virtual_to_physical s.tables root v))
      ⊎ ((done ≡ true)
          × (vmm_virtual_to_physical s'.tables root virt
              ≡ frame_of phys * page_size + virt % page_size)
          × ((v : ℕ)
              → OtherPage v virt
              → vmm_virtual_to_physical s'.tables root v ≡ vmm_virtual_to_physical s.tables root v))
vmm_map_unlocked_lem {root = root} {s = s} virt phys flags tree =
    elim (leaf_table-Reached virt flags tree) [
      | inl (e, missing_one) ↦ rw (map_none root virt phys flags s e) (
          inl (
            refl,
            missing_one.null,
            λ v.
                virtual_to_physical-walk v missing_one.tree
                ∙ ap (resolved v) (missing_one.walks v)
                ∙ sym (virtual_to_physical-walk v tree),
          ))
      | inr (pt, e, r) ↦
          let final = write-Tree pt (pt_idx virt) _ (leaf phys flags) r.tree r.leaf_at refl in
          let ends =
            r.ends
              (write_entry (leaf_table root virt flags s).state.tables pt (pt_idx virt)
                (leaf phys flags))
              (λ x j ne. ground arith) (leaf phys flags) (ground arith) refl in
          rw (map_some root virt phys flags s pt e) (
            inr (
              refl,
              virtual_to_physical-walk virt final ∙ ap (resolved virt) ends ∙ small_sum phys virt,
              λ v other.
                  virtual_to_physical-walk v final
                  ∙ ap (resolved v) (
                      lookup-write r.tree pt (pt_idx virt) _ r.leaf_at refl (leaf phys flags) root
                        (pml4_idx v) [] _ r.tree.at_root refl other
                      ∙ r.walks v)
                  ∙ sym (virtual_to_physical-walk v tree),
            ))
    ]
