-- ===== src/Vma/Map/Result.antt =====
-- What the two ways of `vma_map` leave of the areas.
use kernel_smp.Base.{
  ℕ, suc, ◌+◌, ◌≡◌, ◌≢◌, inl, inr, Bool, true, false, some, ◌==◌, arith, Bool-cases, Option-cases,
  u64, ◌/◌, ◌<◌, ◌^◌, update, sym, ◌∙◌, ap, fun_ext, refl, if◌then◌else◌,
}
use mathlib.Core.Option.{some-injective, none-ne-some}
use kernel_smp.Pmm.{pmm_alloc_frames}
use kernel_smp.Vmm.Space.{vmm_map_range}
use kernel_smp.Vma.Tree.{tree_insert, vma_insert_fixup}
use kernel_smp.Vma.{Area, Areas, red, set}
use kernel_smp.Vma.Tree.Ranges.{
  range, ranges, ranges-set, ranges-if, ranges-fixup, ranges-tree_insert,
}
use kernel_smp.Vma.Map.{Space, ok, vmm_opts, back, expand_area, grow, insert, create, link}

-- Frames are taken and mapped without a change of the areas.
back-areas :
    (addr size flags : ℕ) (s s' : Space) (b : Bool)
    → back addr size flags s ≡ some (s', b)
    → s'.areas ≡ s.areas
unfolding back
back-areas addr size flags s s' b e =
    let r = pmm_alloc_frames (size / 4096) s.vmm.pmm in
    let vmm = record (s.vmm) { pmm = r.0 } in
    elim (Bool-cases (r.1 == 0)) [
      | inl null ↦ ground arith
      | inr got ↦ elim (Option-cases (vmm_map_range s.cr3 addr r.1 size (vmm_opts flags) vmm)) [
        | inl panic ↦ ground arith
        | inr (v, m) ↦ ground arith
      ]
    ]

pub expand_area-areas :
    (p addr size flags : ℕ) (s s' : Space)
    → expand_area p addr size flags s ≡ some (s', ok)
    → s'.areas ≡ grow p size s.areas
unfolding expand_area
expand_area-areas p addr size flags s s' e = elim (Option-cases (back addr size flags s)) [
  | inl panic ↦ ground arith
  | inr ((t, false), m) ↦ ground arith
  | inr ((t, true), m) ↦
      let done : record t { areas = grow p size t.areas } ≡ s' = ground arith in
      sym (ap (λ (x : Space). x.areas) done)
      ∙ ap (grow p size) (back-areas addr size flags s t true m)
]

placed-ranges :
    (n new : ℕ) (s t : Areas)
    → (if s.tree_root == 0
        then some (record s { tree_root = new })
        else tree_insert n new s.tree_root s)
      ≡ some t
    → ranges t ≡ ranges s
placed-ranges n new s t m = elim (Bool-cases (s.tree_root == 0)) [
  | inl empty ↦
      let same : record s { tree_root = new } ≡ t = some-injective _ _ (rw empty at m) in
      sym (ap ranges same)
  | inr full ↦ ranges-tree_insert n new s.tree_root s t (rw full at m)
]

insert-ranges : (n new : ℕ) (s s' : Areas) → insert n new s ≡ some s' → ranges s' ≡ ranges s
unfolding insert
insert-ranges n new s s' e =
    let placed =
      if s.tree_root == 0
      then some (record s { tree_root = new })
      else tree_insert n new s.tree_root s in
    elim (Option-cases placed) [
      | inl stuck ↦ absurd (none-ne-some s' (rw (insert, stuck) at e))
      | inr (t, m) ↦ elim (Option-cases (vma_insert_fixup n new t)) [
        | inl stuck ↦ absurd (none-ne-some s' (rw (insert, m, stuck) at e))
        | inr (u, f) ↦
            let done : record u { count = suc u.count } ≡ s' =
              some-injective _ _ (rw (insert, m, f) at e) in
            sym (ap ranges done) ∙ ranges-fixup n new t u f ∙ placed-ranges n new s t m
      ]
    ]

pub create-areas :
    (n new addr size flags : ℕ) (s s' : Space)
    → create n new addr size flags s ≡ some (s', ok)
    → (new ≢ 0) × (ranges s'.areas ≡ ranges (link new addr size flags s.areas))
unfolding create
create-areas n new addr size flags s s' e = elim (Bool-cases (new == 0)) [
  | inl null ↦ ground arith
  | inr got ↦ elim (Option-cases (back addr size flags s)) [
    | inl panic ↦ ground arith
    | inr ((t, false), m) ↦ ground arith
    | inr ((t, true), m) ↦ elim (Option-cases (insert n new (link new addr size flags t.areas))) [
      | inl stuck ↦ ground arith
      | inr (areas, i) ↦
          let done : record t { areas = areas } ≡ s' = ground arith in
          (
            ground arith,
            sym (ap (λ (x : Space). ranges x.areas) done)
                ∙ insert-ranges n new (link new addr size flags t.areas) areas i
                ∙ ap (λ a. ranges (link new addr size flags a))
                    (back-areas addr size flags s t true m),
          )
    ]
  ]
]

pub ranges-link :
    (new addr size flags : ℕ) (s : Areas)
    → ranges (link new addr size flags s)
      ≡ (new, update (λ p. range (s.area p)) new (addr, u64 (addr + size), flags, s.list_head))
unfolding link
ranges-link new addr size flags s =
    let blank : Area = record {
      vm_start = addr;
      vm_end = u64 (addr + size);
      vm_flags = flags;
      left = 0;
      right = 0;
      parent = 0;
      color = red;
      next = s.list_head;
      prev = 0;
    } in
    let s₁ = set s new (λ _. blank) in
    let s₂ = if s.list_head == 0 then s₁ else set s₁ s.list_head (λ v. record v { prev = new }) in
    let same : ranges s₂ ≡ ranges s₁ =
      ranges-if (s.list_head == 0) s₁ (set s₁ s.list_head (λ v. record v { prev = new })) s₁ refl
        (ranges-set s₁ s.list_head (λ v. record v { prev = new }) (λ v. refl)) in
    ap (λ (r : ℕ × (ℕ → ℕ × ℕ × ℕ × ℕ)). (new, r.1)) same
    ∙ ap (λ (r : ℕ → ℕ × ℕ × ℕ × ℕ). (new, r)) (fun_ext λ y. here y)
  where
    here :
        (y : ℕ)
        → range (
            update s.area new
              (record {
                vm_start = addr;
                vm_end = u64 (addr + size);
                vm_flags = flags;
                left = 0;
                right = 0;
                parent = 0;
                color = red;
                next = s.list_head;
                prev = 0;
              })
              y)
          ≡ update (λ p. range (s.area p)) new (addr, u64 (addr + size), flags, s.list_head) y
    here y = elim (Bool-cases (new == y)) [ inl e ↦ rw e refl | inr e ↦ rw e refl ]

-- The end of the area that grows is where the new range ends.
pub grown_end :
    (p addr size : ℕ) (s : Areas)
    → (s.area p).vm_end ≡ addr
    → addr + size < 2 ^ 64
    → grow p size s ≡ set s p (λ v. record v { vm_end = addr + size })
grown_end p addr size s near low =
    let e : u64 ((s.area p).vm_end + size) ≡ addr + size = omega (arith, near) in
    ap (λ (x : ℕ). set s p (λ v. record v { vm_end = x })) e
