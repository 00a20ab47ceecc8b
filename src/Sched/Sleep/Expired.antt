-- ===== src/Sched/Sleep/Expired.antt =====
-- What the first loop of `sched_update_sleepers` of kernel/sched/sched.c takes from the list.
use kernel_smp.Base.{
  ℕ, zero, suc, ◌≤◌, ◌<◌, ◌≡◌, ◌≢◌, refl, sym, ◌∙◌, inl, inr, true, false, List, [], ◌∷◌, length,
  All, arith, leb, if◌then◌else◌, update, update_self, Bool-cases,
}
use kernel_smp.Task.{Tasks}
use kernel_smp.RunQueue.Chain.{Chain, Distinct, NotIn, Apart, Chain-frame}
use kernel_smp.Sched.Sleep.{collect_expired}

abbrev pub next_of : Tasks → ℕ → ℕ
next_of tasks t = (tasks t).sched_next

-- The list is in the order of the times.
abbrev pub Sorted : (ℕ → ℕ) → List ℕ → Type 0
Sorted time [] = Unit {0}
Sorted time (x ∷ xs) = All (λ y. time x ≤ time y) xs × Sorted time xs

-- The tasks whose time has not come, in their order.
abbrev pub waiting : (ℕ → ℕ) → ℕ → List ℕ → List ℕ
waiting time now [] = []
waiting time now (x ∷ xs) =
    let rest = waiting time now xs in if leb (time x) now then rest else x ∷ rest

-- The others, each in front of the one before.
abbrev pub woken : (ℕ → ℕ) → ℕ → List ℕ → List ℕ → List ℕ
woken time now [] ys = ys
woken time now (x ∷ xs) ys =
    let taken = woken time now xs (x ∷ ys) in
    let rest = woken time now xs ys in if leb (time x) now then taken else rest

-- After a task whose time has not come, no time has come.
waiting-All :
    (time : ℕ → ℕ) (now t : ℕ) (xs : List ℕ)
    → now < t
    → All (λ y. t ≤ time y) xs
    → waiting time now xs ≡ xs
waiting-All time now t [] lt h = refl
waiting-All time now t (x ∷ xs) lt h =
    let rest = waiting-All time now t xs lt h.1 in ground (arith, h.0)

woken_none :
    (time : ℕ → ℕ) (now t : ℕ) (xs ys : List ℕ)
    → now < t
    → All (λ y. t ≤ time y) xs
    → woken time now xs ys ≡ ys
woken_none time now t [] ys lt h = refl
woken_none time now t (x ∷ xs) ys lt h =
    let rest = woken_none time now t xs ys lt h.1 in ground (arith, h.0)

-- What the loop is to leave and to collect.
record Split (time : ℕ → ℕ) (now : ℕ) (xs ys : List ℕ) (r : ℕ × ℕ × Tasks) : Type 0 where
  stays : Chain (next_of r.2) r.0 (waiting time now xs)
  ready : Chain (next_of r.2) r.1 (woken time now xs ys)

Apart-cons : (x : ℕ) (xs ys : List ℕ) → NotIn x xs → Apart xs ys → Apart xs (x ∷ ys)
Apart-cons x [] ys out apart = tt
Apart-cons x (z ∷ xs) ys out apart =
    ((λ e. out.0 (sym e), apart.0), Apart-cons x xs ys out.1 apart.1)

abbrev moved : ℕ → ℕ → Tasks → Tasks
moved x ready tasks = update tasks x (record (tasks x) { sched_next = ready })

moved-next :
    (x ready : ℕ) (tasks : Tasks) (t : ℕ)
    → next_of (moved x ready tasks) t ≡ update (next_of tasks) x ready t
moved-next x ready tasks t = ground arith

moved-time :
    (x ready : ℕ) (tasks : Tasks) (t : ℕ)
    → (moved x ready tasks t).sleep_until ≡ (tasks t).sleep_until
moved-time x ready tasks t = ground arith

moved-Chain :
    (x ready p : ℕ) (tasks : Tasks) (xs : List ℕ)
    → NotIn x xs
    → Chain (next_of tasks) p xs
    → Chain (next_of (moved x ready tasks)) p xs
moved-Chain x ready p tasks xs out c =
    Chain-frame (next_of tasks) (next_of (moved x ready tasks)) p xs (same xs out) c
  where
    same :
        (zs : List ℕ) → NotIn x zs → All (λ y. next_of (moved x ready tasks) y ≡ next_of tasks y) zs
    same [] o = tt
    same (z ∷ zs) o = (ground (arith, o.0), same zs o.1)

stop_null :
    (fuel now ready : ℕ) (tasks : Tasks)
    → collect_expired fuel now 0 ready tasks ≡ (0, ready, tasks)
unfolding collect_expired
stop_null zero now ready tasks = refl
stop_null (suc fuel) now ready tasks = refl

stop_later :
    (fuel now x ready : ℕ) (tasks : Tasks)
    → leb (tasks x).sleep_until now ≡ false
    → collect_expired (suc fuel) now x ready tasks ≡ (x, ready, tasks)
unfolding collect_expired
stop_later fuel now x ready tasks e = ground arith

take_one :
    (fuel now x ready : ℕ) (tasks : Tasks)
    → x ≢ 0
    → leb (tasks x).sleep_until now ≡ true
    → collect_expired (suc fuel) now x ready tasks
      ≡ collect_expired fuel now (next_of tasks x) x (moved x ready tasks)
unfolding collect_expired
take_one fuel now x ready tasks nz e = ground arith

collect :
    (time : ℕ → ℕ) (now fuel list ready : ℕ) (tasks : Tasks) (xs ys : List ℕ)
    → ((t : ℕ) → (tasks t).sleep_until ≡ time t)
    → Chain (next_of tasks) list xs
    → Chain (next_of tasks) ready ys
    → Distinct xs
    → Apart xs ys
    → Sorted time xs
    → length xs ≤ fuel
    → Split time now xs ys (collect_expired fuel now list ready tasks)
collect time now fuel list ready tasks [] ys same c r d apart sorted enough =
    rw (c, stop_null fuel now ready tasks) (record { stays = refl; ready = r })
collect time now zero list ready tasks (x ∷ xs) ys same c r d apart sorted enough =
    absurd (omega (arith, enough))
collect time now (suc fuel) list ready tasks (x ∷ xs) ys same c r d apart sorted enough =
    elim (Bool-cases (leb (time x) now)) [
      | inl come ↦
          rw (c.0, take_one fuel now x ready tasks c.1 (rw (same x) come))
            (let rest =
                collect time now fuel (next_of tasks x) x (moved x ready tasks) xs (x ∷ ys)
                  (λ t. moved-time x ready tasks t ∙ same t)
                  (moved-Chain x ready (next_of tasks x) tasks xs d.0 c.2)
                  (
                    refl,
                    c.1,
                    rw (moved-next x ready tasks x, update_self (next_of tasks) x ready)
                        (moved-Chain x ready ready tasks ys apart.0 r),
                  )
                  d.1 (Apart-cons x xs ys d.0 apart.1) sorted.1 (omega (arith, enough)) in
              record { stays = rw come rest.stays; ready = rw come rest.ready })
      | inr later ↦
          rw (c.0, stop_later fuel now x ready tasks (rw (same x) later))
            (record {
              stays =
                  rw (later, waiting-All time now (time x) xs (after later) sorted.0)
                    (refl, c.1, c.2);
              ready = rw (later, woken_none time now (time x) xs ys (after later) sorted.0) r;
            })
    ]
  where
    after : {a b : ℕ} → leb a b ≡ false → b < a
    after h = ground arith

Apart-nil : (xs : List ℕ) → Apart xs []
Apart-nil [] = tt
Apart-nil (x ∷ xs) = (tt, Apart-nil xs)

-- From a list of distinct tasks in the order of their times, with fuel for each of them, the loop
-- collects exactly the tasks whose time has come, each in front of the one before, and leaves the
-- others in their order.
pub collect_expired-Chain :
    (now fuel list : ℕ) (tasks : Tasks) (xs : List ℕ)
    → Chain (next_of tasks) list xs
    → Distinct xs
    → Sorted (λ t. (tasks t).sleep_until) xs
    → length xs ≤ fuel
    → let time : ℕ → ℕ = λ t. (tasks t).sleep_until in
      let (stays, ready, tasks') = collect_expired fuel now list 0 tasks in
      Chain (next_of tasks') stays (waiting time now xs)
      × Chain (next_of tasks') ready (woken time now xs [])
collect_expired-Chain now fuel list tasks xs c d sorted enough =
    let r =
      collect (λ t. (tasks t).sleep_until) now fuel list 0 tasks xs [] (λ t. refl) c refl d
        (Apart-nil xs) sorted enough in
    (r.stays, r.ready)
