-- ===== src/Vma/Tree/Ranges.antt =====
-- The tree of the areas is rearranged without a change of their ranges or of the list.
use kernel_smp.Base.{
  ℕ, zero, suc, ◌≡◌, refl, ◌∙◌, ap, fun_ext, Bool, true, false, not, ◌&&◌, Bool-cases, inl, inr,
  Option, none, some, ltb, ◌==◌, if◌then◌else◌, ==→eq, subst,
}
use kernel_smp.Vma.{Area, Areas, Color, red, black, set}
use kernel_smp.Vma.Tree.{
  set_parent, set_color, replace_child, vma_rotate_left, vma_rotate_right, is_red, fixup_round,
  vma_insert_fixup, tree_insert,
}

-- What an area is but for its place in the tree and its back link.
abbrev pub range : Area → ℕ × ℕ × ℕ × ℕ
range v = (v.vm_start, v.vm_end, v.vm_flags, v.next)

abbrev pub ranges : Areas → ℕ × (ℕ → ℕ × ℕ × ℕ × ℕ)
ranges s = (s.list_head, λ p. range (s.area p))

pub ranges-set :
    (s : Areas) (p : ℕ) (f : Area → Area)
    → ((v : Area) → range (f v) ≡ range v)
    → ranges (set s p f) ≡ ranges s
ranges-set s p f same = ap (λ r. (s.list_head, r)) (fun_ext λ y. here y)
  where
    here : (y : ℕ) → range ((set s p f).area y) ≡ range (s.area y)
    here y = elim (Bool-cases (p == y)) [
      | inl e ↦ rw e (same (s.area p) ∙ ap (λ q. range (s.area q)) (==→eq p y e))
      | inr e ↦ rw e refl
    ]

pub ranges-if :
    (b : Bool) (x y : Areas) (s : Areas)
    → ranges x ≡ ranges s
    → ranges y ≡ ranges s
    → ranges (if b then x else y) ≡ ranges s
ranges-if true x y s e e' = e
ranges-if false x y s e e' = e'

ranges-left : (s : Areas) (p q : ℕ) → ranges (set s p (λ v. record v { left = q })) ≡ ranges s
ranges-left s p q = ranges-set s p (λ v. record v { left = q }) (λ v. refl)

ranges-right : (s : Areas) (p q : ℕ) → ranges (set s p (λ v. record v { right = q })) ≡ ranges s
ranges-right s p q = ranges-set s p (λ v. record v { right = q }) (λ v. refl)

ranges-parent : (s : Areas) (p q : ℕ) → ranges (set s p (λ v. record v { parent = q })) ≡ ranges s
ranges-parent s p q = ranges-set s p (λ v. record v { parent = q }) (λ v. refl)

ranges-color :
    (s : Areas) (p : ℕ) (c : Color) → ranges (set s p (λ v. record v { color = c })) ≡ ranges s
ranges-color s p c = ranges-set s p (λ v. record v { color = c }) (λ v. refl)

ranges-set_parent : (p q : ℕ) (s : Areas) → ranges (set_parent p q s) ≡ ranges s
ranges-set_parent p q s =
    ranges-if (p == 0) s (set s p (λ v. record v { parent = q })) s refl (ranges-parent s p q)

ranges-replace_child :
    (b : Bool) (parent x y : ℕ) (s : Areas) → ranges (replace_child b parent x y s) ≡ ranges s
ranges-replace_child b parent x y s =
    let put_left = set s parent (λ v. record v { left = y }) in
    let put_right = set s parent (λ v. record v { right = y }) in
    let at_left : ranges put_left ≡ ranges s = ranges-left s parent y in
    let at_right : ranges put_right ≡ ranges s = ranges-right s parent y in
    ranges-if (parent == 0) _ _ s refl (
      ranges-if b _ _ s
        (ranges-if (x == (s.area parent).left) put_left put_right s at_left at_right)
        (ranges-if (x == (s.area parent).right) put_right put_left s at_right at_left))

ranges-rotate_left : (x : ℕ) (s : Areas) → ranges (vma_rotate_left x s) ≡ ranges s
unfolding vma_rotate_left
ranges-rotate_left x s =
    let y = (s.area x).right in
    let inner = (s.area y).left in
    let s₁ = set s x (λ v. record v { right = inner }) in
    let s₂ = set_parent inner x s₁ in
    let above = (s₂.area x).parent in
    let s₃ = set s₂ y (λ v. record v { parent = above }) in
    let s₄ = replace_child true above x y s₃ in
    ranges-parent (set s₄ y (λ v. record v { left = x })) x y
    ∙ ranges-left s₄ y x
    ∙ ranges-replace_child true above x y s₃
    ∙ ranges-parent s₂ y above
    ∙ ranges-set_parent inner x s₁
    ∙ ranges-right s x inner

ranges-rotate_right : (y : ℕ) (s : Areas) → ranges (vma_rotate_right y s) ≡ ranges s
unfolding vma_rotate_right
ranges-rotate_right y s =
    let x = (s.area y).left in
    let inner = (s.area x).right in
    let s₁ = set s y (λ v. record v { left = inner }) in
    let s₂ = set_parent inner y s₁ in
    let above = (s₂.area y).parent in
    let s₃ = set s₂ x (λ v. record v { parent = above }) in
    let s₄ = replace_child false above y x s₃ in
    ranges-parent (set s₄ x (λ v. record v { right = y })) y x
    ∙ ranges-right s₄ x y
    ∙ ranges-replace_child false above y x s₃
    ∙ ranges-parent s₂ x above
    ∙ ranges-set_parent inner y s₁
    ∙ ranges-left s y inner

ranges-rotate :
    (b : Bool) (p q : ℕ) (s : Areas)
    → ranges (if b then vma_rotate_left p s else vma_rotate_right q s) ≡ ranges s
ranges-rotate b p q s = ranges-if b _ _ s (ranges-rotate_left p s) (ranges-rotate_right q s)

ranges-either :
    (c : Bool) (x y : Areas × ℕ) (s : Areas)
    → ranges x.0 ≡ ranges s
    → ranges y.0 ≡ ranges s
    → ranges (if c then x else y).0 ≡ ranges s
ranges-either true x y s e e' = e
ranges-either false x y s e e' = e'

ranges-fixup_round : (b : Bool) (z : ℕ) (s : Areas) → ranges (fixup_round b z s).0 ≡ ranges s
unfolding fixup_round
ranges-fixup_round b z s =
    let parent = (s.area z).parent in
    let grand = (s.area parent).parent in
    let uncle = if b then (s.area grand).right else (s.area grand).left in
    let upper = set_color parent black s in
    let lower = set_color uncle black upper in
    let inner = if b then (s.area parent).right else (s.area parent).left in
    let turned = if b then vma_rotate_left parent s else vma_rotate_right parent s in
    let s₁ = if z == inner then turned else s in
    let z₁ = if z == inner then parent else z in
    let p₁ = (s₁.area z₁).parent in
    let s₂ = set_color p₁ black s₁ in
    let g₁ = (s₂.area p₁).parent in
    let s₃ = set_color g₁ red s₂ in
    let g₂ = (s₃.area (s₃.area z₁).parent).parent in
    let s₄ = if b then vma_rotate_right g₂ s₃ else vma_rotate_left g₂ s₃ in
    let painted : ranges (set_color grand red lower) ≡ ranges s =
      ranges-color lower grand red ∙ ranges-color upper uncle black ∙ ranges-color s parent black in
    let rotated : ranges s₄ ≡ ranges s =
      ranges-if b (vma_rotate_right g₂ s₃) (vma_rotate_left g₂ s₃) s₃ (ranges-rotate_right g₂ s₃)
        (ranges-rotate_left g₂ s₃)
      ∙ ranges-color s₂ g₁ red
      ∙ ranges-color s₁ p₁ black
      ∙ ranges-if (z == inner) turned s s (ranges-rotate b parent parent s) refl in
    ranges-either (not (uncle == 0) && is_red (s.area uncle).color)
      (set_color grand red lower, grand) (s₄, z₁) s painted rotated

-- The areas of a result, if there is one, have the ranges of `s`.
pub Keeps : Areas → Option Areas → Type 0
Keeps s none = Unit
Keeps s (some s') = ranges s' ≡ ranges s

Keeps-if :
    (s : Areas) (c : Bool) (x y : Option Areas)
    → Keeps s x
    → Keeps s y
    → Keeps s (if c then x else y)
Keeps-if s true x y a b = a
Keeps-if s false x y a b = b

Keeps-from : (s s₁ : Areas) (x : Option Areas) → Keeps s₁ x → ranges s₁ ≡ ranges s → Keeps s x
unfolding Keeps
Keeps-from s s₁ none a e = tt
Keeps-from s s₁ (some s') a e = a ∙ e

Keeps-fixup : (n z : ℕ) (s : Areas) → Keeps s (vma_insert_fixup n z s)
unfolding vma_insert_fixup Keeps
Keeps-fixup zero z s = tt
Keeps-fixup (suc n) z s =
    let parent = (s.area z).parent in
    let grand = (s.area parent).parent in
    let r = fixup_round (parent == (s.area grand).left) z s in
    let rest = vma_insert_fixup n r.1 r.0 in
    Keeps-if s (not (parent == 0) && is_red (s.area parent).color)
      (if grand == 0 then none else rest) (some (set_color s.tree_root black s))
      (Keeps-if s (grand == 0) none rest tt (
        Keeps-from s r.0 rest (Keeps-fixup n r.1 r.0)
          (ranges-fixup_round (parent == (s.area grand).left) z s)))
      (ranges-color s s.tree_root black)

Keeps-tree_insert : (n new node : ℕ) (s : Areas) → Keeps s (tree_insert n new node s)
unfolding tree_insert Keeps
Keeps-tree_insert zero new node s = tt
Keeps-tree_insert (suc n) new node s =
    let v = s.area node in
    let s₁ = set s node (λ w. record w { left = new }) in
    let s₂ = set s node (λ w. record w { right = new }) in
    let at_left = set s₁ new (λ w. record w { parent = node }) in
    let at_right = set s₂ new (λ w. record w { parent = node }) in
    let go_left = tree_insert n new v.left s in
    let go_right = tree_insert n new v.right s in
    Keeps-if s (ltb (s.area new).vm_start v.vm_start)
      (if v.left == 0 then some at_left else go_left)
      (if v.right == 0 then some at_right else go_right)
      (Keeps-if s (v.left == 0) (some at_left) go_left
        (ranges-parent s₁ new node ∙ ranges-left s node new) (Keeps-tree_insert n new v.left s))
      (Keeps-if s (v.right == 0) (some at_right) go_right
        (ranges-parent s₂ new node ∙ ranges-right s node new) (Keeps-tree_insert n new v.right s))

pub ranges-fixup :
    (n z : ℕ) (s s' : Areas) → vma_insert_fixup n z s ≡ some s' → ranges s' ≡ ranges s
unfolding Keeps
ranges-fixup n z s s' e = subst (Keeps s) e (Keeps-fixup n z s)

pub ranges-tree_insert :
    (n new node : ℕ) (s s' : Areas) → tree_insert n new node s ≡ some s' → ranges s' ≡ ranges s
unfolding Keeps
ranges-tree_insert n new node s s' e = subst (Keeps s) e (Keeps-tree_insert n new node s)
