-- ===== src/Vmm/Levels.antt =====
-- The three levels of `_vmm_map_unlocked` above the leaf.
use kernel_smp.Base.{
  ℕ, ◌<◌, ◌≡◌, ◌≢◌, ◌∙◌, ap, sym, refl, ◌⊎◌, inl, inr, true, List, [], ◌∷◌, length, Option, none,
  some, arith, subst,
}
use mathlib.Core.Option.{none-ne-some}
use kernel_smp.Pmm.{pmm_alloc_frame}
use kernel_smp.Vmm.{
  Vmm, Entry, Flags, TableMemory, address, descend, Descent, leaf_table, pml4_idx, pdpt_idx, pd_idx,
  pt_idx, ◌>>=◌,
}
use kernel_smp.Vmm.Tree.{Place, Tree}
use kernel_smp.Vmm.Descend.{Down, Stuck, descend-Down}
use kernel_smp.Vmm.Lookup.{lookup, walk, lookup-descend}

-- The tables on the way to the leaf of an address, after the three levels.
pub record Reached (root : ℕ) (s : Vmm) (virt : ℕ) (r : Vmm) (pt : ℕ) : Type 0 where
  pub place' : Place
  pub tree : Tree root place' r
  pub leaf_at : place' pt ≡ some (pd_idx virt ∷ pdpt_idx virt ∷ pml4_idx virt ∷ [])
  pub walks : (virt' : ℕ) → walk r.tables root virt' ≡ walk s.tables root virt'
  pub ends :
      (m : TableMemory)
      → ((x j : ℕ) → x ≢ pt → m x j ≡ r.tables x j)
      → (e : Entry) → m pt (pt_idx virt) ≡ e
      → e.flags.present ≡ true
      → walk m root virt ≡ some e

-- No frame is left for a level below: the tables lead where they led.
pub record Missing (root : ℕ) (s : Vmm) (r : Vmm) : Type 0 where
  pub place' : Place
  pub tree : Tree root place' r
  pub walks : (virt : ℕ) → walk r.tables root virt ≡ walk s.tables root virt
  pub null : (pmm_alloc_frame r.hint r.pmm).addr ≡ 0

missing :
    {root : ℕ} {s s₁ r : Vmm} (place : Place)
    → Tree root place s₁
    → ((virt : ℕ) → walk s₁.tables root virt ≡ walk s.tables root virt)
    → Stuck s₁ r
    → Missing root s r
missing {root = root} {s = s} place tree walks (kept, null) =
    subst (Missing root s) (sym kept)
      (record { place' = place; tree = tree; walks = walks; null = null })

pub some_eq : {o : Option (List ℕ)} {a b : List ℕ} → o ≡ some a → o ≡ some b → a ≡ b
some_eq p q = cc

step_through :
    (m : TableMemory) (t₁ t₂ t₃ t₄ virt : ℕ) (e : Entry)
    → ((m t₁ (pml4_idx virt)).flags.present ≡ true) × (address (m t₁ (pml4_idx virt)) ≡ t₂)
    → ((m t₂ (pdpt_idx virt)).flags.present ≡ true) × (address (m t₂ (pdpt_idx virt)) ≡ t₃)
    → ((m t₃ (pd_idx virt)).flags.present ≡ true) × (address (m t₃ (pd_idx virt)) ≡ t₄)
    → m t₄ (pt_idx virt) ≡ e
    → e.flags.present ≡ true
    → walk m t₁ virt ≡ some e
unfolding lookup
step_through m t₁ t₂ t₃ t₄ virt e (p₁, a₁) (p₂, a₂) (p₃, a₃) at p =
    rw (p₁, a₁, p₂, a₂, p₃, a₃, at, p) refl

-- One level, and two, leave every translation as it was.
walk_same :
    {root : ℕ} {place : Place} {s s₁ : Vmm} {u₁ i₁ : ℕ}
    → Tree root place s
    → Down root place s root i₁ [] s₁ u₁
    → (v : ℕ) → walk s₁.tables root v ≡ walk s.tables root v
walk_same {root = root} tree d₁ v =
    lookup-descend tree tree.at_root (omega arith) d₁ root _ [] _ tree.at_root refl

walk_same_below :
    {root : ℕ} {place : Place} {s s₁ s₂ : Vmm} {u₁ u₂ i₁ i₂ : ℕ}
    → Tree root place s
    → (d₁ : Down root place s root i₁ [] s₁ u₁) → Down root d₁.place' s₁ u₁ i₂ (i₁ ∷ []) s₂ u₂
    → (v : ℕ) → walk s₂.tables root v ≡ walk s.tables root v
walk_same_below {root = root} tree d₁ d₂ v =
    lookup-descend d₁.tree d₁.next (omega arith) d₂ root _ [] _ d₁.tree.at_root refl
    ∙ walk_same tree d₁ v

-- Three levels, one below the other.
reached :
    {root : ℕ} {place : Place} {s s₁ s₂ s₃ : Vmm} {u₁ u₂ u₃ : ℕ} (virt : ℕ)
    → Tree root place s
    → (d₁ : Down root place s root (pml4_idx virt) [] s₁ u₁)
    → (d₂ : Down root d₁.place' s₁ u₁ (pdpt_idx virt) (pml4_idx virt ∷ []) s₂ u₂)
    → Down root d₂.place' s₂ u₂ (pd_idx virt) (pdpt_idx virt ∷ pml4_idx virt ∷ []) s₃ u₃
    → Reached root s virt s₃ u₃
reached {root = root} {s₃ = s₃} {u₁ = u₁} {u₂ = u₂} {u₃ = u₃} virt tree d₁ d₂ d₃ = record {
  place' = d₃.place';
  tree = d₃.tree;
  leaf_at = d₃.next;
  walks = λ virt'.
      lookup-descend d₂.tree d₂.next (omega arith) d₃ root _ [] _ d₂.tree.at_root refl
      ∙ walk_same_below tree d₁ d₂ virt';
  ends = λ m same e at p.
      let kept₁ = d₂.stable root (pml4_idx virt) [] d₁.tree.at_root d₁.shown in
      let (shown₁, leads₁) = d₃.stable root (pml4_idx virt) [] d₂.tree.at_root kept₁.0 in
      let at₁ = d₂.old u₁ _ d₁.next in
      let (shown₂, leads₂) = d₃.stable u₁ (pdpt_idx virt) _ at₁ d₂.shown in
      step_through m root u₁ u₂ u₃ virt e
        (rw (same root (pml4_idx virt) (apart root [] d₃.tree.at_root (omega arith)))
          (shown₁, leads₁ ∙ kept₁.1 ∙ d₁.leads))
        (rw (same u₁ (pdpt_idx virt) (apart u₁ _ (d₃.old u₁ _ at₁) (omega arith)))
          (shown₂, leads₂ ∙ d₂.leads))
        (rw (same u₂ (pd_idx virt) (apart u₂ _ (d₃.old u₂ _ d₂.next) (omega arith)))
          (d₃.shown, d₃.leads))
        at p;
}
  where
    apart : (x : ℕ) (js : List ℕ) → d₃.place' x ≡ some js → length js < 3 → x ≢ u₃
    apart x js at lt e =
        let same : js ≡ pd_idx virt ∷ pdpt_idx virt ∷ pml4_idx virt ∷ [] =
          some_eq (rw e at at) d₃.next in
        absurd (omega (arith, ap length same))

>>=-some :
    (d : Descent) (f : ℕ → Vmm → Descent) (t : ℕ) → d.below ≡ some t → (d >>= f) ≡ f t d.state
>>=-some d f t e = rw (e, ◌>>=◌)

>>=-none : (d : Descent) (f : ℕ → Vmm → Descent) → d.below ≡ none → (d >>= f) ≡ d
>>=-none d f e = go d.state d.below e
  where
    go :
        (r : Vmm) (o : Option ℕ)
        → o ≡ none
        → (record { state = r; below = o } >>= f) ≡ record { state = r; below = o }
    go r none e = refl
    go r (some t) e = absurd (none-ne-some t (sym e))

first_level :
    (flags : Flags) (root virt : ℕ) (s : Vmm)
    → (descend flags root (pml4_idx virt) s).below ≡ none
    → leaf_table root virt flags s ≡ descend flags root (pml4_idx virt) s
unfolding leaf_table
first_level flags root virt s e =
    let d = descend flags root (pml4_idx virt) s in
    ap (λ (x : Descent). x >>= (λ pd. descend flags pd (pd_idx virt)))
      (>>=-none d (λ pdpt. descend flags pdpt (pdpt_idx virt)) e)
    ∙ >>=-none d (λ pd. descend flags pd (pd_idx virt)) e

second_level :
    (flags : Flags) (root virt : ℕ) (s : Vmm) {u₁ : ℕ}
    → (descend flags root (pml4_idx virt) s).below ≡ some u₁
    → (descend flags u₁ (pdpt_idx virt) (descend flags root (pml4_idx virt) s).state).below ≡ none
    → leaf_table root virt flags s
      ≡ descend flags u₁ (pdpt_idx virt) (descend flags root (pml4_idx virt) s).state
unfolding leaf_table
second_level flags root virt s {u₁ = u₁} e₁ e =
    let d = descend flags root (pml4_idx virt) s in
    ap (λ (x : Descent). x >>= (λ pd. descend flags pd (pd_idx virt)))
      (>>=-some d (λ pdpt. descend flags pdpt (pdpt_idx virt)) u₁ e₁)
    ∙ >>=-none (descend flags u₁ (pdpt_idx virt) d.state) (λ pd. descend flags pd (pd_idx virt)) e

levels :
    (flags : Flags) (root virt : ℕ) (s : Vmm) {u₁ u₂ : ℕ}
    → (descend flags root (pml4_idx virt) s).below ≡ some u₁
    → (descend flags u₁ (pdpt_idx virt) (descend flags root (pml4_idx virt) s).state).below
      ≡ some u₂
    → leaf_table root virt flags s
      ≡ descend flags u₂
          (pd_idx virt)
          (descend flags u₁ (pdpt_idx virt) (descend flags root (pml4_idx virt) s).state).state
unfolding leaf_table
levels flags root virt s {u₁ = u₁} {u₂ = u₂} e₁ e₂ =
    rw
      (>>=-some (descend flags root (pml4_idx virt) s) (λ pdpt. descend flags pdpt (pdpt_idx virt))
        u₁ e₁)
      (>>=-some _ (λ pd. descend flags pd (pd_idx virt)) u₂ e₂)

pub leaf_table-Reached :
    {root : ℕ} {place : Place} {s : Vmm} (virt : ℕ) (flags : Flags)
    → Tree root place s
    → (((leaf_table root virt flags s).below ≡ none)
        × Missing root s (leaf_table root virt flags s).state)
      ⊎ ((pt : ℕ) × ((leaf_table root virt flags s).below ≡ some pt)
          × Reached root s virt (leaf_table root virt flags s).state pt)
unfolding leaf_table
leaf_table-Reached {root = root} {place = place} {s = s} virt flags tree =
    elim (descend-Down tree flags root (pml4_idx virt) [] tree.at_root (omega arith)) [
      | inl (e, stuck) ↦
          rw (first_level flags root virt s e) (inl (e, missing place tree (λ v. refl) stuck))
      | inr (u₁, e₁, d₁) ↦
          elim (descend-Down d₁.tree flags u₁ (pdpt_idx virt) (pml4_idx virt ∷ []) d₁.next
            (omega arith)) [
              | inl (e, stuck) ↦
                  rw (second_level flags root virt s e₁ e)
                    (inl (e, missing d₁.place' d₁.tree (walk_same tree d₁) stuck))
              | inr (u₂, e₂, d₂) ↦
                  elim (descend-Down d₂.tree flags u₂ (pd_idx virt)
                    (pdpt_idx virt ∷ pml4_idx virt ∷ []) d₂.next (omega arith)) [
                      | inl (e, stuck) ↦
                          rw (levels flags root virt s e₁ e₂)
                            (inl (e, missing d₂.place' d₂.tree (walk_same_below tree d₁ d₂) stuck))
                      | inr (u₃, e₃, d₃) ↦ inr (
                        u₃,
                        rw (levels flags root virt s e₁ e₂) e₃,
                        rw (levels flags root virt s e₁ e₂) (reached virt tree d₁ d₂ d₃),
                      )
                    ]
            ]
    ]
