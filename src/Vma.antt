-- ===== src/Vma.antt =====
-- kernel/memory/vma.c and kernel/include/memory/vma.h: the areas of a task, as a red-black tree and
-- a doubly linked list over one heap of descriptors. A pointer is an address, and 0 is NULL. A
-- result `none` is a dereference of NULL, or fuel that is used up. The mutex is held throughout.
pub mod Tree
pub mod Map
pub mod Unmap
pub mod Find
use kernel_smp.Base.{
  ℕ, zero, suc, ◌≡◌, Bool, true, false, not, ◌&&◌, Option, none, some, ltb, leb, ◌==◌,
  if◌then◌else◌, update,
}

pub data Color : Type 0 where
  red : Color
  black : Color

pub record Area : Type 0 where
  pub vm_start : ℕ
  pub vm_end : ℕ
  pub vm_flags : ℕ
  pub left : ℕ
  pub right : ℕ
  pub parent : ℕ
  pub color : Color
  pub next : ℕ
  pub prev : ℕ

-- The heap of descriptors, and the fields of the task.
pub record Areas : Type 0 where
  pub area : ℕ → Area
  pub tree_root : ℕ
  pub list_head : ℕ
  pub count : ℕ

abbrev pub set : Areas → ℕ → (Area → Area) → Areas
set s p f = record s { area = update s.area p (f (s.area p)) }

unfoldable pub vma_init_task : Areas → Areas
vma_init_task s = record s { tree_root = 0; list_head = 0; count = 0 }

-- `vma_find` from the node `curr` on; 0 when no area holds the address.
pub find_from : ℕ → Areas → ℕ → ℕ → Option ℕ
find_from zero s addr curr = none
find_from (suc n) s addr curr =
    let v = s.area curr in
    let at_left = find_from n s addr v.left in
    let at_right = find_from n s addr v.right in
    if curr == 0
    then some 0
    else if leb v.vm_start addr && ltb addr v.vm_end
    then some curr
    else if ltb addr v.vm_start
    then at_left
    else at_right

pub vma_find : ℕ → Areas → ℕ → Option ℕ
vma_find n s addr = find_from n s addr s.tree_root
