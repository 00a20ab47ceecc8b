-- ===== src/Vmm/Tree.antt =====
-- The page tables below a root as a tree: each table has one place, the indices that lead to it.
use kernel_smp.Base.{
  ℕ, ◌/◌, ◌^◌, ◌≤◌, ◌<◌, ◌≡◌, true, false, List, [], ◌∷◌, length, Option, some, page_size,
}
use kernel_smp.Pmm.{IsValid, used, start_index}
use kernel_smp.Vmm.{Vmm, address}

-- Indices are listed from the leaf up, so that a table one level down has one index more in front.
abbrev pub Place : Type 0
Place = ℕ → Option (List ℕ)

pub record Tree (root : ℕ) (place : Place) (s : Vmm) : Type 0 where
  pub at_root : place root ≡ some []
  -- An entry that is present, above the lowest level, leads to the table at the next place.
  pub down :
      (t i : ℕ) (is : List ℕ)
      → place t ≡ some is
      → length is < 3
      → (s.tables t i).flags.present ≡ true
      → place (address (s.tables t i)) ≡ some (i ∷ is)
  -- A table below the root has an entry that leads to it.
  pub up :
      (x i : ℕ) (is : List ℕ)
      → place x ≡ some (i ∷ is)
      → (t : ℕ) × (place t ≡ some is)
        × ((s.tables t i).flags.present ≡ true)
        × (address (s.tables t i) ≡ x)
  pub only : (t u : ℕ) (is : List ℕ) → place t ≡ some is → place u ≡ some is → t ≡ u
  pub deep : (x : ℕ) (is : List ℕ) → place x ≡ some is → length is ≤ 3
  -- No directory maps a large page.
  pub small :
      (t i : ℕ) (is : List ℕ)
      → place t ≡ some is
      → length is ≡ 2
      → (s.tables t i).flags.huge ≡ false
  -- The tables are frames in use.
  pub in_use : (t : ℕ) (is : List ℕ) → place t ≡ some is → used s.pmm (t / page_size) ≡ true
  pub valid : IsValid s.pmm
  -- The physical memory lies below `2 ^ 40`, the addresses that an entry can hold.
  pub fits : s.pmm.bitmap_size ≤ 2 ^ 25
  pub hinted : start_index s.hint ≤ s.pmm.bitmap_size
  pub zero_used : used s.pmm 0 ≡ true
