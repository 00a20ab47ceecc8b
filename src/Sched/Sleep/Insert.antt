-- ===== src/Sched/Sleep/Insert.antt =====
-- Where `sched_make_task_sleep` of kernel/sched/sched.c puts a task.
use kernel_smp.Base.{
  ℕ, zero, suc, ◌+◌, ◌≤◌, ◌≡◌, ◌≢◌, ◌⊎◌, refl, sym, ◌∙◌, inl, inr, true, false, List, [], ◌∷◌,
  length, All, arith, ltb, ◌==◌, if◌then◌else◌, update, subst, Bool-cases, u64,
}
use kernel_smp.Task.{TaskState, Tasks, Cpu}
use kernel_smp.RunQueue.Chain.{Chain, Distinct, NotIn, Chain-frame, Chain-nonzero}
use kernel_smp.RunQueue.Queues.{All-intro}
use kernel_smp.Sched.Sleep.{find_slot, make_task_sleep}
use kernel_smp.Sched.Sleep.Expired.{next_of, Sorted}

-- A task goes before the first one that sleeps as long or longer.
abbrev pub insert_sorted : (ℕ → ℕ) → ℕ → ℕ → List ℕ → List ℕ
insert_sorted time until t [] = t ∷ []
insert_sorted time until t (x ∷ xs) =
    let rest = insert_sorted time until t xs in if ltb (time x) until then x ∷ rest else t ∷ x ∷ xs

-- The links after task `t` is put between the two tasks of a slot.
abbrev linked : ℕ → ℕ × ℕ → (ℕ → ℕ) → ℕ → ℕ
linked t (a, b) next = if a == 0 then update next t b else update (update next t b) a t

linked_new : (t a b : ℕ) (next : ℕ → ℕ) → a ≢ t → linked t (a, b) next t ≡ b
linked_new t a b next ne = ground arith

linked_before : (t a b : ℕ) (next : ℕ → ℕ) → a ≢ 0 → linked t (a, b) next a ≡ t
linked_before t a b next nz = ground arith

linked_other : (t a b y : ℕ) (next : ℕ → ℕ) → t ≢ y → a ≢ y → linked t (a, b) next y ≡ next y
linked_other t a b y next n₁ n₂ = ground arith

linked-Chain :
    (t a b p : ℕ) (next : ℕ → ℕ) (xs : List ℕ)
    → NotIn t xs
    → NotIn a xs
    → Chain next p xs
    → Chain (linked t (a, b) next) p xs
linked-Chain t a b p next xs n₁ n₂ c =
    Chain-frame next (linked t (a, b) next) p xs (same xs n₁ n₂) c
  where
    same : (zs : List ℕ) → NotIn t zs → NotIn a zs → All (λ y. linked t (a, b) next y ≡ next y) zs
    same [] u v = tt
    same (z ∷ zs) u v = (linked_other t a b z next u.0 v.0, same zs u.1 v.1)

stop_null : (fuel prev until : ℕ) (tasks : Tasks) → find_slot fuel prev 0 until tasks ≡ (prev, 0)
unfolding find_slot
stop_null zero prev until tasks = refl
stop_null (suc fuel) prev until tasks = refl

stop_here :
    (fuel prev x until : ℕ) (tasks : Tasks)
    → ltb (tasks x).sleep_until until ≡ false
    → find_slot (suc fuel) prev x until tasks ≡ (prev, x)
unfolding find_slot
stop_here fuel prev x until tasks e = ground arith

go_on :
    (fuel prev x until : ℕ) (tasks : Tasks)
    → x ≢ 0
    → ltb (tasks x).sleep_until until ≡ true
    → find_slot (suc fuel) prev x until tasks ≡ find_slot fuel x (next_of tasks x) until tasks
unfolding find_slot
go_on fuel prev x until tasks nz e = ground arith

-- The slot is behind `prev`, or behind a task of the list; the links then make the list.
abbrev Slotted : ℕ → ℕ → List ℕ → List ℕ → (ℕ → ℕ) → ℕ → ℕ × ℕ → Type 0
Slotted prev p xs result next t r =
    ((r.0 ≡ prev) × Chain (linked t r next) t result)
    ⊎ (((q : ℕ) → NotIn q xs → q ≢ r.0) × Chain (linked t r next) p result)

slot :
    (t until fuel prev p : ℕ) (tasks : Tasks) (xs : List ℕ)
    → t ≢ 0
    → Chain (next_of tasks) p xs
    → Distinct xs
    → NotIn t xs
    → NotIn prev xs
    → prev ≢ t
    → length xs ≤ fuel
    → Slotted prev p xs
        (insert_sorted (λ y. (tasks y).sleep_until) until t xs)
        (next_of tasks)
        t
        (find_slot fuel prev p until tasks)
slot t until fuel prev p tasks [] nz c d out out' ne enough =
    rw (c, stop_null fuel prev until tasks)
      (inl (refl, (refl, nz, linked_new t prev 0 (next_of tasks) ne)))
slot t until zero prev p tasks (x ∷ xs) nz c d out out' ne enough = absurd (omega (arith, enough))
slot t until (suc fuel) prev p tasks (x ∷ xs) nz c d out out' ne enough =
    elim (Bool-cases (ltb (tasks x).sleep_until until)) [
      | inr here ↦
          rw (c.0, stop_here fuel prev x until tasks here, here)
            (inl (
              refl,
              (
                refl,
                nz,
                rw (linked_new t prev x (next_of tasks) ne)
                    (linked-Chain t prev x x (next_of tasks) (x ∷ xs) out out' (refl, c.1, c.2)),
              ),
            ))
      | inl further ↦
          rw (c.0, go_on fuel prev x until tasks c.1 further, further)
            (inr (
              behind x (find_slot fuel x (next_of tasks x) until tasks) _ c.1 (λ e. out.0 (sym e))
                (slot t until fuel x (next_of tasks x) tasks xs nz c.2 d.1 out.1 d.0
                  (λ e. out.0 (sym e)) (omega (arith, enough)))
                d.0))
    ]
  where
    behind :
        (x : ℕ) (r : ℕ × ℕ) (zs : List ℕ)
        → x ≢ 0
        → x ≢ t
        → Slotted x (next_of tasks x) xs zs (next_of tasks) t r
        → NotIn x xs
        → ((q : ℕ) → NotIn q (x ∷ xs) → q ≢ r.0) × Chain (linked t r (next_of tasks)) x (x ∷ zs)
    behind x (a, b) zs xnz xt (inl (e, ch)) out = (
      λ q n e'. n.0 (e' ∙ e),
      (refl, xnz, rw (← e, linked_before t a b (next_of tasks) (λ z. xnz (sym e ∙ z))) ch),
    )
    behind x (a, b) zs xnz xt (inr (far, ch)) out = (
      λ q n. far q n.1,
      (
        refl,
        xnz,
        rw (linked_other t a b x (next_of tasks) (λ e. xt (sym e)) (λ e. far x out (sym e))) ch,
      ),
    )

-- The entries of the longer list are the new task and the old ones.
All-insert_sorted :
    (P : ℕ → Type 0) (time : ℕ → ℕ) (until t : ℕ) (xs : List ℕ)
    → P t
    → All P xs
    → All P (insert_sorted time until t xs)
All-insert_sorted P time until t [] h hs = (h, tt)
All-insert_sorted P time until t (x ∷ xs) h hs = elim (Bool-cases (ltb (time x) until)) [
  | inl e ↦ rw e (hs.0, All-insert_sorted P time until t xs h hs.1)
  | inr e ↦ rw e (h, (hs.0, hs.1))
]

insert_sorted-Sorted :
    (time time' : ℕ → ℕ) (until t : ℕ) (xs : List ℕ)
    → NotIn t xs
    → time' t ≡ until
    → ((y : ℕ) → t ≢ y → time' y ≡ time y)
    → Sorted time xs
    → Sorted time' (insert_sorted time until t xs)
insert_sorted-Sorted time time' until t [] out at same s = (tt, tt)
insert_sorted-Sorted time time' until t (x ∷ xs) out at same s =
    elim (Bool-cases (ltb (time x) until)) [
      | inl e ↦ rw e (
        All-insert_sorted (λ y. time' x ≤ time' y) time until t xs (rw (same x out.0, at) (less e))
            (moved x xs out.0 out.1 s.0),
        insert_sorted-Sorted time time' until t xs out.1 at same s.1,
      )
      | inr e ↦ rw e (
        (rw (at, same x out.0) (more e), later x xs (more e) out.1 s.0),
        (moved x xs out.0 out.1 s.0, kept xs out.1 s.1),
      )
    ]
  where
    less : {a b : ℕ} → ltb a b ≡ true → a ≤ b
    less h = ground arith

    more : {a b : ℕ} → ltb a b ≡ false → b ≤ a
    more h = ground arith

    moved :
        (x : ℕ) (zs : List ℕ)
        → t ≢ x
        → NotIn t zs
        → All (λ y. time x ≤ time y) zs
        → All (λ y. time' x ≤ time' y) zs
    moved x [] n o a = tt
    moved x (z ∷ zs) n o a = (rw (same x n, same z o.0) a.0, moved x zs n o.1 a.1)

    later :
        (x : ℕ) (zs : List ℕ)
        → until ≤ time x
        → NotIn t zs
        → All (λ y. time x ≤ time y) zs
        → All (λ y. time' t ≤ time' y) zs
    later x [] le o a = tt
    later x (z ∷ zs) le o a = (rw (at, same z o.0) (omega (arith, le, a.0)), later x zs le o.1 a.1)

    kept : (zs : List ℕ) → NotIn t zs → Sorted time zs → Sorted time' zs
    kept [] o a = tt
    kept (z ∷ zs) o a = (moved z zs o.0 o.1 a.0, kept zs o.1 a.1)

insert_sorted-same :
    (time time' : ℕ → ℕ) (until t : ℕ) (xs : List ℕ)
    → NotIn t xs
    → ((y : ℕ) → t ≢ y → time' y ≡ time y)
    → insert_sorted time' until t xs ≡ insert_sorted time until t xs
insert_sorted-same time time' until t [] out same = refl
insert_sorted-same time time' until t (x ∷ xs) out same =
    rw (same x out.0, insert_sorted-same time time' until t xs out.1 same) refl

abbrev marked : ℕ → ℕ → Tasks → Tasks
marked current until tasks =
    update tasks current
      (record (tasks current) { state = TaskState.sleeping; sleep_until = until })

module _ (fuel ms now current : ℕ) (cpu : Cpu) (tasks : Tasks) (real : current ≢ 0) where
  abbrev found : ℕ × ℕ
  found =
      find_slot fuel 0 cpu.sleeping_list (u64 (now + ms)) (marked current (u64 (now + ms)) tasks)

  abbrev after : Cpu × Tasks
  after = make_task_sleep fuel ms now current cpu tasks

  head_after : after.0.sleeping_list ≡ (if found.0 == 0 then current else cpu.sleeping_list)
  unfolding make_task_sleep
  head_after = ground arith

  next_after : (y : ℕ) → next_of after.1 y ≡ linked current found (next_of tasks) y
  unfolding make_task_sleep
  next_after y = ground arith

  time_self : (after.1 current).sleep_until ≡ u64 (now + ms)
  unfolding make_task_sleep
  time_self = ground arith

  time_other : (y : ℕ) → current ≢ y → (after.1 y).sleep_until ≡ (tasks y).sleep_until
  unfolding make_task_sleep
  time_other y ne = ground arith

  next_marked : (y : ℕ) → next_of (marked current (u64 (now + ms)) tasks) y ≡ next_of tasks y
  next_marked y = ground arith

-- From a list of distinct tasks in the order of their times, with fuel for each of them, a task
-- that is not in the list and goes to sleep is put before the first one that sleeps as long or
-- longer. The list stays in the order of the times.
pub make_task_sleep-Sorted :
    (fuel ms now current : ℕ) (cpu : Cpu) (tasks : Tasks) (xs : List ℕ)
    → current ≢ 0
    → Chain (next_of tasks) cpu.sleeping_list xs
    → Distinct xs
    → NotIn current xs
    → Sorted (λ y. (tasks y).sleep_until) xs
    → length xs ≤ fuel
    → let (cpu', tasks') = make_task_sleep fuel ms now current cpu tasks in
      let result = insert_sorted (λ y. (tasks y).sleep_until) (u64 (now + ms)) current xs in
      Chain (next_of tasks') cpu'.sleeping_list result × Sorted (λ y. (tasks' y).sleep_until) result
make_task_sleep-Sorted fuel ms now current cpu tasks xs real c d out sorted enough = (
  chain,
  insert_sorted-Sorted (λ y. (tasks y).sleep_until) _ (u64 (now + ms)) current xs out
      (time_self fuel ms now current cpu tasks real) (time_other fuel ms now current cpu tasks real)
      sorted,
)
  where
    until : ℕ
    until = u64 (now + ms)

    r : ℕ × ℕ
    r = find_slot fuel 0 cpu.sleeping_list until (marked current until tasks)

    result : List ℕ
    result = insert_sorted (λ y. (tasks y).sleep_until) until current xs

    before :
        (p : ℕ)
        → Chain (linked current r (next_of (marked current until tasks))) p result
        → Chain (next_of (make_task_sleep fuel ms now current cpu tasks).1) p result
    before p h =
        Chain-frame _ _ p result
          (All-intro _ result (λ y. next_after fuel ms now current cpu tasks real y ∙ same y)) h
      where
        same :
            (y : ℕ)
            → linked current r (next_of tasks) y
              ≡ linked current r (next_of (marked current until tasks)) y
        same y = ground (arith, next_marked fuel ms now current cpu tasks real y)

    nonzero : NotIn 0 xs
    nonzero = Chain-nonzero (next_of tasks) cpu.sleeping_list xs c

    spot : Slotted 0 cpu.sleeping_list xs result (next_of (marked current until tasks)) current r
    spot =
        subst
          (λ zs. Slotted 0 cpu.sleeping_list xs zs (next_of (marked current until tasks)) current r)
          (insert_sorted-same (λ y. (tasks y).sleep_until)
            (λ y. (marked current until tasks y).sleep_until) until current xs out
            (λ y ne. ground arith))
          (slot current until fuel 0 cpu.sleeping_list (marked current until tasks) xs real
            (Chain-frame _ _ cpu.sleeping_list xs
              (All-intro _ xs (next_marked fuel ms now current cpu tasks real)) c)
            d out nonzero (λ e. real (sym e)) enough)

    first : (a : ℕ) → a ≡ 0 → (if a == 0 then current else cpu.sleeping_list) ≡ current
    first a e = ground arith

    second : (a : ℕ) → 0 ≢ a → (if a == 0 then current else cpu.sleeping_list) ≡ cpu.sleeping_list
    second a e = ground arith

    chain :
        Chain
          (next_of (make_task_sleep fuel ms now current cpu tasks).1)
          (make_task_sleep fuel ms now current cpu tasks).0.sleeping_list
          result
    chain = elim spot [
      | inl (e, ch) ↦
          rw (head_after fuel ms now current cpu tasks real ∙ first r.0 e) (before current ch)
      | inr (far, ch) ↦
          rw (head_after fuel ms now current cpu tasks real ∙ second r.0 (far 0 nonzero))
            (before cpu.sleeping_list ch)
    ]
