-- ===== src/Vmm/Descend.antt =====
-- One level of `_vmm_map_unlocked` keeps the tree, and leads to the table at the next place.
use kernel_smp.Base.{
  ℕ, ◌*◌, ◌/◌, ◌<◌, ◌≡◌, ◌≢◌, ◌∙◌, ap, sym, ◌⊎◌, inl, inr, Bool, true, false, List, [], ◌∷◌, length,
  none, some, arith, ℕ_discrete, ◌==◌, update, update_ne, update_self, page_size, Bool-cases,
  ==_refl, ◌||◌, refl,
}
use kernel_smp.Pmm.{used, pmm_alloc_frame}
use kernel_smp.Pmm.Alloc.{pmm_alloc_frame_lem, Fresh}
use kernel_smp.Pmm.Full.{nothing, pmm_alloc_frame-full}
use kernel_smp.Vmm.{Vmm, Flags, address, descend, frame_of, table_flags, zero_flags}
use kernel_smp.Vmm.Tree.{Place, Tree}

-- What a level has done: the tree is kept, with a place for each old table, and the table below is
-- at the next place. Only entry `i` of `t` and a table that is new have changed.
pub record Down (root : ℕ) (place : Place) (s : Vmm) (t i : ℕ) (is : List ℕ) (r : Vmm) (u : ℕ)
    : Type 0 where
  pub place' : Place
  pub tree : Tree root place' r
  pub old : (x : ℕ) (js : List ℕ) → place x ≡ some js → place' x ≡ some js
  pub next : place' u ≡ some (i ∷ is)
  pub leads : address (r.tables t i) ≡ u
  pub shown : (r.tables t i).flags.present ≡ true
  pub same :
      (x j : ℕ) (js : List ℕ) → place x ≡ some js → (x ≢ t) ⊎ (j ≢ i) → r.tables x j ≡ s.tables x j
  -- An entry that was present leads where it led.
  pub stable :
      (x j : ℕ) (js : List ℕ)
      → place x ≡ some js
      → (s.tables x j).flags.present ≡ true
      → ((r.tables x j).flags.present ≡ true) × (address (r.tables x j) ≡ address (s.tables x j))
  -- A table that is new has no entry that is present.
  pub blank : (s.tables t i).flags.present ≡ false → (j : ℕ) → (r.tables u j).flags.present ≡ false

kept_below :
    (flags : Flags) (t i : ℕ) (s : Vmm)
    → (s.tables t i).flags.present ≡ true
    → (descend flags t i s).below ≡ some (address (s.tables t i))
unfolding descend
kept_below flags t i s p = ground arith

-- No frame is left: the level reports it and changes nothing.
abbrev pub Stuck : Vmm → Vmm → Type 0
Stuck s r = (r ≡ s) × ((pmm_alloc_frame s.hint s.pmm).addr ≡ 0)

exhausted :
    (flags : Flags) (t i : ℕ) (s : Vmm)
    → (s.tables t i).flags.present ≡ false
    → pmm_alloc_frame s.hint s.pmm ≡ nothing s.hint s.pmm
    → ((descend flags t i s).below ≡ none) × ((descend flags t i s).state ≡ s)
unfolding descend
exhausted flags t i s m e = (rw (m, e) refl, rw (m, e) refl)

||-true : (b : Bool) → (b || true) ≡ true
||-true b = ground arith

module _ {root : ℕ} {place : Place} {s : Vmm} (tree : Tree root place s) (flags : Flags) (t i : ℕ)
    (is : List ℕ) (here : place t ≡ some is) (high : length is < 3) where
  -- The entry is present.
  descend_kept :
      (s.tables t i).flags.present ≡ true
      → Down root place s t i is (descend flags t i s).state (address (s.tables t i))
  unfolding descend
  descend_kept p = rw p (record {
    place' = place;
    tree = record {
      at_root = tree.at_root;
      down = λ x j js at lt q. ground (arith, tree.down x j js at lt);
      up = λ x j js at.
          let (y, at', p', e) = tree.up x j js at in (y, at', ground arith, ground arith);
      only = tree.only;
      deep = tree.deep;
      small = λ x j js at l. ground (arith, tree.small x j js at l);
      in_use = tree.in_use;
      valid = tree.valid;
      fits = tree.fits;
      hinted = tree.hinted;
      zero_used = tree.zero_used;
    };
    old = λ x js e. e;
    next = tree.down t i is here high p;
    leads = ground arith;
    shown = ground arith;
    same = λ x j js at ne. ground arith;
    stable = λ x j js at q. (ground arith, ground arith);
    blank = λ m. cc;
  })

  abbrev new : ℕ
  new = (pmm_alloc_frame s.hint s.pmm).addr

  -- No table has the address of a frame that was free.
  new_ne :
      Fresh s.pmm (pmm_alloc_frame s.hint s.pmm)
      → (x : ℕ) (js : List ℕ) → place x ≡ some js
      → new ≢ x
  new_ne f x js at e = cc (tree.in_use x js at, rw e at f.free_before)

  exact : Fresh s.pmm (pmm_alloc_frame s.hint s.pmm) → frame_of new * page_size ≡ new
  exact f = omega (arith, f.aligned, f.inside, tree.fits)

  abbrev grown : Place
  grown = update place new (some (i ∷ is))

  abbrev after : Vmm
  after = (descend flags t i s).state

  abbrev Missing : Type 0
  Missing = (s.tables t i).flags.present ≡ false

  module _ (f : Fresh s.pmm (pmm_alloc_frame s.hint s.pmm)) (ne : new ≢ 0) (m : Missing) where
    entry_new : after.tables t i ≡ record { frame = frame_of new; flags = table_flags }
    unfolding descend
    entry_new = ground arith

    entry_old : (x j : ℕ) → new ≢ x → (x ≢ t) ⊎ (j ≢ i) → after.tables x j ≡ s.tables x j
    unfolding descend
    entry_old x j ne' other = ground arith

    entry_zero : (j : ℕ) → (after.tables new j).flags ≡ zero_flags
    unfolding descend
    entry_zero j = ground (arith, new_ne f t is here)

    pmm_after : after.pmm ≡ (pmm_alloc_frame s.hint s.pmm).pmm
    unfolding descend
    pmm_after = ground arith

    hint_after : after.hint ≡ (pmm_alloc_frame s.hint s.pmm).hint
    unfolding descend
    hint_after = ground arith

    below_after : (descend flags t i s).below ≡ some new
    unfolding descend
    below_after = ground (arith, exact f)

    entry_cases :
        (x j : ℕ) (js : List ℕ) → place x ≡ some js → ((x ≡ t) × (j ≡ i)) ⊎ ((x ≢ t) ⊎ (j ≢ i))
    entry_cases x j js at = elim (ℕ_discrete x t) [
      | no a ↦ inr (inl a)
      | yes a ↦ elim (ℕ_discrete j i) [ no b ↦ inr (inr b) | yes b ↦ inl (a, b) ]
    ]

    -- An entry of an old table: it is the new one, or as it was.
    entry_of :
        (x j : ℕ) (js : List ℕ)
        → place x ≡ some js
        → ((x ≡ t)
            × (j ≡ i)
            × (after.tables x j ≡ record { frame = frame_of new; flags = table_flags }))
          ⊎ (after.tables x j ≡ s.tables x j)
    entry_of x j js at = elim (entry_cases x j js at) [
      | inl (a, b) ↦ inl (a, b, rw (a, b) entry_new)
      | inr other ↦ inr (entry_old x j (new_ne f x js at) other)
    ]

    grown_old : (x : ℕ) (js : List ℕ) → place x ≡ some js → grown x ≡ some js
    grown_old x js at = update_ne place new x _ (new_ne f x js at) ∙ at

    grown_cases :
        (x : ℕ) (js : List ℕ)
        → grown x ≡ some js
        → ((new ≡ x) × (js ≡ i ∷ is)) ⊎ (place x ≡ some js)
    grown_cases x js at = elim (ℕ_discrete new x) [
      | yes e ↦ inl (e, ground arith)
      | no ne' ↦ inr (sym (update_ne place new x (some (i ∷ is)) ne') ∙ at)
    ]

    down_old :
        (x j : ℕ) (js : List ℕ)
        → place x ≡ some js
        → length js < 3
        → (after.tables x j).flags.present ≡ true
        → grown (address (after.tables x j)) ≡ some (j ∷ js)
    down_old x j js at lt p = elim (entry_of x j js at) [
      | inr e ↦ rw e (grown_old _ (j ∷ js) (tree.down x j js at lt (rw e at p)))
      | inl (a, b, e) ↦
          let same : js ≡ is = cc in
          rw (e, exact f, b, same) (update_self place new (some (i ∷ is)))
    ]

    no_place : (x : ℕ) → place x ≢ some (i ∷ is)
    no_place x at =
        let (y, at', p, e) = tree.up x i is at in
        let same : y ≡ t = tree.only y t is at' here in cc (rw same at p, m)

    up_old :
        (x j : ℕ) (js : List ℕ)
        → place x ≡ some (j ∷ js)
        → (y : ℕ) × (grown y ≡ some js)
          × ((after.tables y j).flags.present ≡ true)
          × (address (after.tables y j) ≡ x)
    up_old x j js at =
        let (y, at', p, e) = tree.up x j js at in
        elim (entry_of y j js at') [
          | inr old ↦ (y, grown_old y js at', rw old p, rw old e)
          | inl (a, b, new_one) ↦ cc (rw (a, b) at p, m)
        ]

    marked_or_old :
        (x : ℕ) (js : List ℕ)
        → grown x ≡ some js
        → (x / page_size == new / page_size || used s.pmm (x / page_size)) ≡ true
    marked_or_old x js at = elim (grown_cases x js at) [
      | inl (e, _) ↦ rw (← e, ==_refl (new / page_size))
      | inr old ↦ rw (tree.in_use x js old) (||-true _)
    ]

    grown-Tree : Tree root grown after
    grown-Tree = record {
      at_root = grown_old root [] tree.at_root;
      down = λ x j js at lt p. elim (grown_cases x js at) [
        | inr old ↦ down_old x j js old lt p
        | inl (e, _) ↦ cc (ap (λ (g : Flags). g.present) (rw e at (entry_zero j)), p)
      ];
      up = λ x j js at. elim (grown_cases x (j ∷ js) at) [
        | inr old ↦ up_old x j js old
        | inl (e, same) ↦
            let a : j ≡ i = cc in
            let b : js ≡ is = cc in
            (t, rw b (grown_old t is here), rw (a, entry_new), rw (a, entry_new) (exact f ∙ e))
      ];
      only = λ x y js at at'. elim (grown_cases x js at) [
        | inl (e, same) ↦ elim (grown_cases y js at') [
          | inl (e', _) ↦ sym e ∙ e'
          | inr old ↦ absurd (no_place y (old ∙ rw same))
        ]
        | inr old ↦ elim (grown_cases y js at') [
          | inl (e', same) ↦ absurd (no_place x (old ∙ rw same))
          | inr old' ↦ tree.only x y js old old'
        ]
      ];
      deep = λ x js at. elim (grown_cases x js at) [
        | inl (e, same) ↦ omega (arith, ap length same)
        | inr old ↦ tree.deep x js old
      ];
      small = λ x j js at l. elim (grown_cases x js at) [
        | inl (e, _) ↦ ap (λ (g : Flags). g.huge) (rw e at (entry_zero j))
        | inr old ↦ elim (entry_of x j js old) [
          | inr kept ↦ rw kept (tree.small x j js old l)
          | inl (_, _, new_one) ↦ rw new_one
        ]
      ];
      in_use = λ x js at. rw pmm_after (f.marked (x / page_size) ∙ marked_or_old x js at);
      valid = rw pmm_after f.valid;
      fits = rw (pmm_after, f.sized) tree.fits;
      hinted = rw (pmm_after, hint_after, f.sized) f.hinted;
      zero_used = rw pmm_after (f.marked 0 ∙ rw tree.zero_used (||-true _));
    }

    descend_new : Down root place s t i is after new
    descend_new = record {
      place' = grown;
      tree = grown-Tree;
      old = grown_old;
      next = update_self place new (some (i ∷ is));
      leads = rw entry_new (exact f);
      shown = rw entry_new;
      same = λ x j js at other. entry_old x j (new_ne f x js at) other;
      stable = λ x j js at p. elim (entry_of x j js at) [
        | inr kept ↦ (rw kept p, rw kept)
        | inl (a, b, _) ↦ cc (rw (a, b) at p, m)
      ];
      blank = λ _ j. ap (λ (g : Flags). g.present) (entry_zero j);
    }

  -- A level keeps the tree and leads on, or it reports that no frame is left.
  pub descend-Down :
      (((descend flags t i s).below ≡ none) × Stuck s (descend flags t i s).state)
      ⊎ ((u : ℕ) × ((descend flags t i s).below ≡ some u) × Down root place s t i is after u)
  descend-Down = elim (Bool-cases (s.tables t i).flags.present) [
    | inl p ↦ inr (address (s.tables t i), kept_below flags t i s p, descend_kept p)
    | inr m ↦ elim (pmm_alloc_frame_lem s.hint s.pmm tree.valid tree.zero_used tree.hinted) [
      | inl (f, ne) ↦ inr (new, below_after f ne m, descend_new f ne m)
      | inr x ↦
          let full = pmm_alloc_frame-full s.hint s.pmm tree.valid tree.hinted x in
          let (e, kept) = exhausted flags t i s m full in inl (e, (kept, x.null))
    ]
  ]
