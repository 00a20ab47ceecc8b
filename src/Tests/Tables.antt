-- ===== src/Tests/Tables.antt =====
-- The theorems of the page tables at an empty tree.
use kernel_smp.Base.{
  ℕ, ◌+◌, ◌*◌, ◌%◌, ◌≡◌, ◌⊎◌, refl, true, false, none, some, List, [], ◌==◌, if◌then◌else◌, update,
  page_size, arith,
}
use kernel_smp.Base.Bytes.{bit_on}
use kernel_smp.Pmm.{used}
use kernel_smp.Pmm.{pmm_alloc_frame}
use kernel_smp.Vmm.{
  Vmm, zero_entry, flags_of, frame_of, vmm_map_unlocked, vmm_unmap_unlocked,
  vmm_virtual_to_physical,
}
use kernel_smp.Vmm.Tree.{Place, Tree}
use kernel_smp.Vmm.Translate.{OtherPage, vmm_map_unlocked_lem}
use kernel_smp.Vmm.Unmap.{vmm_unmap_unlocked_lem}

-- Frames 0 and 1 are in use, and the root is frame 1.
abbrev blank : Vmm
blank = record {
  tables = λ t i. zero_entry;
  pmm = record { bitmap = 4096; bitmap_size = 16; bytes = λ i. if i == 0 then 3 else 0 };
  hint = some 0;
}

abbrev root_only : Place
root_only = update (λ x. none) 4096 (some [])

only_root : (t : ℕ) (is : List ℕ) → root_only t ≡ some is → (4096 ≡ t) × (is ≡ [])
only_root t is e = (ground arith, ground arith)

blank-Tree : Tree 4096 root_only blank
unfolding used bit_on
blank-Tree = record {
  at_root = refl;
  down = λ t i is at lt p. ground arith;
  up = λ x i is at. absurd (ground arith);
  only = λ t u is a b. ground (arith, only_root t is a, only_root u is b);
  deep = λ x is at. ground (arith, only_root x is at);
  small = λ t i is at l. refl;
  in_use = λ t is at. rw (← (only_root t is at).0) refl;
  valid = record { present = refl; small = omega arith; byte = λ i. ground arith };
  fits = omega arith;
  hinted = omega arith;
  zero_used = refl;
}

vmm_map_unlocked_lem_example :
    let (s', done) = vmm_map_unlocked 4096 0x400123 0x9000 (flags_of 7) blank in
    ((done ≡ false)
      × ((pmm_alloc_frame s'.hint s'.pmm).addr ≡ 0)
      × ((v : ℕ)
          → vmm_virtual_to_physical s'.tables 4096 v ≡ vmm_virtual_to_physical blank.tables 4096 v))
    ⊎ ((done ≡ true)
        × (vmm_virtual_to_physical s'.tables 4096 0x400123
            ≡ frame_of 0x9000 * page_size + 0x400123 % page_size)
        × ((v : ℕ)
            → OtherPage v 0x400123
            → vmm_virtual_to_physical s'.tables 4096 v
              ≡ vmm_virtual_to_physical blank.tables 4096 v))
vmm_map_unlocked_lem_example = vmm_map_unlocked_lem 0x400123 0x9000 (flags_of 7) blank-Tree

vmm_unmap_unlocked_lem_example :
    (vmm_virtual_to_physical (vmm_unmap_unlocked 4096 0x400123 blank).tables 4096 0x400123 ≡ 0)
    × ((v : ℕ)
        → OtherPage v 0x400123
        → vmm_virtual_to_physical (vmm_unmap_unlocked 4096 0x400123 blank).tables 4096 v
          ≡ vmm_virtual_to_physical blank.tables 4096 v)
vmm_unmap_unlocked_lem_example = vmm_unmap_unlocked_lem 0x400123 blank-Tree
