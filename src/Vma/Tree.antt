-- ===== src/Vma/Tree.antt =====
-- The rotations of kernel/memory/vma.c, and the colours after an insertion.
pub mod Ranges
use kernel_smp.Base.{
  ℕ, zero, suc, Bool, true, false, not, ◌&&◌, Option, none, some, ltb, ◌==◌, if◌then◌else◌,
}
use kernel_smp.Vma.{Areas, Color, red, black, set}

-- `if (p) p->parent = q`
abbrev set_parent : ℕ → ℕ → Areas → Areas
set_parent p q s = if p == 0 then s else set s p (λ v. record v { parent = q })

-- The pointer that led to `x` leads to `y`: the root's, or one of the parent's.
abbrev pub replace_child : Bool → ℕ → ℕ → ℕ → Areas → Areas
replace_child left_first parent x y s =
    let put_left = set s parent (λ v. record v { left = y }) in
    let put_right = set s parent (λ v. record v { right = y }) in
    if parent == 0
    then record s { tree_root = y }
    else if left_first
    then (if x == (s.area parent).left then put_left else put_right)
    else (if x == (s.area parent).right then put_right else put_left)

pub vma_rotate_left : ℕ → Areas → Areas
vma_rotate_left x s =
    let y = (s.area x).right in
    let inner = (s.area y).left in
    let s₁ = set s x (λ v. record v { right = inner }) in
    let s₂ = set_parent inner x s₁ in
    let above = (s₂.area x).parent in
    let s₃ = set s₂ y (λ v. record v { parent = above }) in
    let s₄ = replace_child true above x y s₃ in
    let s₅ = set s₄ y (λ v. record v { left = x }) in set s₅ x (λ v. record v { parent = y })

pub vma_rotate_right : ℕ → Areas → Areas
vma_rotate_right y s =
    let x = (s.area y).left in
    let inner = (s.area x).right in
    let s₁ = set s y (λ v. record v { left = inner }) in
    let s₂ = set_parent inner y s₁ in
    let above = (s₂.area y).parent in
    let s₃ = set s₂ x (λ v. record v { parent = above }) in
    let s₄ = replace_child false above y x s₃ in
    let s₅ = set s₄ x (λ v. record v { right = y }) in set s₅ y (λ v. record v { parent = x })

abbrev pub is_red : Color → Bool
is_red red = true
is_red black = false

abbrev set_color : ℕ → Color → Areas → Areas
set_color p c s = set s p (λ v. record v { color = c })

-- The round of `vma_insert_fixup` for a parent that is its own parent's left child, or, with
-- `on_left` false, its right child: the state and the next `z`.
pub fixup_round : Bool → ℕ → Areas → Areas × ℕ
fixup_round on_left z s =
    let parent = (s.area z).parent in
    let grand = (s.area parent).parent in
    let uncle = if on_left then (s.area grand).right else (s.area grand).left in
    let painted = set_color grand red (set_color uncle black (set_color parent black s)) in
    let inner = if on_left then (s.area parent).right else (s.area parent).left in
    let turned = if on_left then vma_rotate_left parent s else vma_rotate_right parent s in
    let s₁ = if z == inner then turned else s in
    let z₁ = if z == inner then parent else z in
    let p₁ = (s₁.area z₁).parent in
    let s₂ = set_color p₁ black s₁ in
    let g₁ = (s₂.area p₁).parent in
    let s₃ = set_color g₁ red s₂ in
    let g₂ = (s₃.area (s₃.area z₁).parent).parent in
    let s₄ = if on_left then vma_rotate_right g₂ s₃ else vma_rotate_left g₂ s₃ in
    if not (uncle == 0) && is_red (s.area uncle).color then (painted, grand) else (s₄, z₁)

-- `none` also where the parent is red and has no parent: the code reads through NULL there.
pub vma_insert_fixup : ℕ → ℕ → Areas → Option Areas
vma_insert_fixup zero z s = none
vma_insert_fixup (suc n) z s =
    let parent = (s.area z).parent in
    let grand = (s.area parent).parent in
    let (s', z') = fixup_round (parent == (s.area grand).left) z s in
    let rest = vma_insert_fixup n z' s' in
    if not (parent == 0) && is_red (s.area parent).color
    then (if grand == 0 then none else rest)
    else some (set_color s.tree_root black s)

-- The descent of an insertion below `node`.
pub tree_insert : ℕ → ℕ → ℕ → Areas → Option Areas
tree_insert zero new node s = none
tree_insert (suc n) new node s =
    let v = s.area node in
    let before = ltb (s.area new).vm_start v.vm_start in
    let at_left =
      set (set s node (λ w. record w { left = new })) new (λ w. record w { parent = node }) in
    let at_right =
      set (set s node (λ w. record w { right = new })) new (λ w. record w { parent = node }) in
    let go_left = tree_insert n new v.left s in
    let go_right = tree_insert n new v.right s in
    if before
    then (if v.left == 0 then some at_left else go_left)
    else (if v.right == 0 then some at_right else go_right)

-- The rightmost node below `node`.
pub rightmost : ℕ → ℕ → Areas → Option ℕ
rightmost zero node s = none
rightmost (suc n) node s =
    let below = rightmost n (s.area node).right s in
    if (s.area node).right == 0 then some node else below

-- The node `v` leaves the tree: its left child takes the place, with its right child below the
-- rightmost node there. No node is painted.
pub tree_remove : ℕ → ℕ → Areas → Option Areas
tree_remove n p s =
    let v = s.area p in
    let replacement = if v.left == 0 then v.right else v.left in
    let joined : Option Areas = elim (rightmost n v.left s) [
      | none ↦ none
      | some last ↦ some (
          set (set s last (λ w. record w { right = v.right })) v.right
            (λ w. record w { parent = last }))
    ] in
    let s₁ = if not (v.left == 0) && not (v.right == 0) then joined else some s in
    elim s₁ [
      | none ↦ none
      | some s₂ ↦
          let s₃ = replace_child true (s₂.area p).parent p replacement s₂ in
          some (set_parent replacement (s₃.area p).parent s₃)
    ]
