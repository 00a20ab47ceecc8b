-- ===== src/RunQueue/Levels.antt =====
-- Which level `dequeue_task` serves.
use kernel_smp.Base.{
  ℕ, zero, suc, ◌+◌, ◌≤◌, ◌<◌, ◌≡◌, ◌≢◌, ◌∙◌, ◌⊎◌, inl, inr, refl, sym, true, false, Bool-cases,
  List, [], ◌∷◌, ◌++◌, arith, ℕ_discrete, update, update_self, ◌==◌, leb, ne→==, ==→eq,
}
use kernel_smp.Task.{Tasks, Cpu}
use kernel_smp.RunQueue.{
  take_head, dequeue_from, dequeue_task, work_below, priority_quanta, enqueue_task, level,
}
use kernel_smp.RunQueue.Chain.{Chain, NotIn}
use kernel_smp.RunQueue.Queues.{Queues}
use kernel_smp.RunQueue.Dequeue.{take_head-Queues, take_head-head, reset_quanta-Queues}
use kernel_smp.RunQueue.Enqueue.{enqueue_task-Queues}

-- The head of level `l` was taken.
pub record Took (tasks : Tasks) (q : ℕ → List ℕ) (r : Cpu × ℕ) (l : ℕ) : Type 0 where
  pub rest : List ℕ
  pub was : q l ≡ r.1 ∷ rest
  pub real : r.1 ≢ 0
  pub after : Queues r.0 tasks (update q l rest)

-- Levels `p` to `p + n - 1` are empty.
abbrev pub Empty : (ℕ → List ℕ) → ℕ → ℕ → Type 0
Empty q p n = (l : ℕ) → p ≤ l → l < p + n → q l ≡ []

abbrev Outcome : ℕ → ℕ → Tasks → (ℕ → List ℕ) → Cpu × ℕ → Type 0
Outcome n p tasks q r =
    ((r.1 ≡ 0) × Empty q p n × Queues r.0 tasks q)
    ⊎ ((l : ℕ) × (p ≤ l) × (l < p + n) × Took tasks q r l)

-- A level is empty exactly if its head is NULL.
empty_of_head : (next : ℕ → ℕ) (h : ℕ) (xs : List ℕ) → Chain next h xs → h ≡ 0 → xs ≡ []
empty_of_head next h [] c e = refl
empty_of_head next h (x ∷ xs) c e = absurd (c.1 (sym c.0 ∙ e))

cons_of_head :
    (next : ℕ → ℕ) (h : ℕ) (xs : List ℕ)
    → Chain next h xs
    → h ≢ 0
    → (t : ℕ) × (rest : List ℕ) × (xs ≡ t ∷ rest) × (t ≢ 0)
cons_of_head next h [] c ne = absurd (ne c)
cons_of_head next h (x ∷ xs) c ne = (x, xs, refl, c.1)

Took-head :
    {cpu : Cpu} {tasks : Tasks} {q : ℕ → List ℕ} (p : ℕ)
    → Queues cpu tasks q
    → cpu.rq_head p ≢ 0
    → Took tasks q (take_head p cpu tasks) p
Took-head {q = q} p inv ne =
    let (t, rest, e, pos) = cons_of_head _ _ (q p) (inv.chain p) ne in
    let same = take_head-head inv p t rest e in
    record {
      rest = rest;
      was = rw same e;
      real = rw same pos;
      after = take_head-Queues inv p t rest e;
    }

work_below_sound :
    (n low : ℕ) {cpu : Cpu} {tasks : Tasks} {q : ℕ → List ℕ}
    → Queues cpu tasks q
    → work_below n low cpu ≡ true
    → ¬ Empty q low n
unfolding work_below
work_below_sound zero low inv w empty = cc
work_below_sound (suc n) low {cpu = cpu} {q = q} inv w empty =
    elim (Bool-cases (cpu.rq_head low == 0)) [
      | inl null ↦
          work_below_sound n (suc low) inv (rw null at w)
            (λ l lo hi. empty l (omega arith) (omega arith))
      | inr some_task ↦
          let (t, rest, e, _) = cons_of_head _ _ (q low) (inv.chain low) (ground arith) in
          cc (e, empty low (omega arith) (omega arith))
    ]

-- One level further down.
weaken :
    (n p : ℕ) (tasks : Tasks) (q : ℕ → List ℕ) (r : Cpu × ℕ)
    → (Empty q (suc p) n → q p ≡ [])
    → Outcome n (suc p) tasks q r
    → Outcome (suc n) p tasks q r
weaken n p tasks q r here (inl (null, empty, inv)) = inl (null, all, inv)
  where
    all : Empty q p (suc n)
    all l lo hi = elim (ℕ_discrete l p) [
      | yes e ↦ rw e (here empty)
      | no ne ↦ empty l (omega arith) (omega arith)
    ]
weaken n p tasks q r here (inr (l, lo, hi, took)) = inr (l, omega arith, omega arith, took)

dequeue_from-Outcome :
    (n p : ℕ) {cpu : Cpu} {tasks : Tasks} {q : ℕ → List ℕ}
    → Queues cpu tasks q
    → Outcome n p tasks q (dequeue_from n p cpu tasks)
unfolding dequeue_from
dequeue_from-Outcome zero p inv = inl (refl, (λ l lo hi. absurd (omega arith)), inv)
dequeue_from-Outcome (suc n) p {cpu = cpu} {tasks = tasks} {q = q} inv =
    let fresh = reset_quanta-Queues p inv in
    let down = dequeue_from-Outcome n (suc p) fresh in
    elim (Bool-cases (cpu.rq_head p == 0)) [
      | inl null ↦
          rw null (
            weaken n p tasks q _ (λ _. empty_of_head _ _ (q p) (inv.chain p) (==→eq _ _ null)) down)
      | inr found ↦
          let ne : cpu.rq_head p ≢ 0 = ground arith in
          elim (Bool-cases (leb (priority_quanta p) (cpu.current_quanta p))) [
            | inr left ↦ rw (found, left) (inr (p, omega arith, omega arith, Took-head p inv ne))
            | inl spent ↦ elim (Bool-cases (work_below n (suc p) cpu)) [
              | inr alone ↦
                  rw (found, spent, alone) (inr (p, omega arith, omega arith, Took-head p fresh ne))
              | inl work ↦
                  rw (found, spent, work)
                    (weaken n p tasks q _
                      (λ none. absurd (work_below_sound n (suc p) inv work none)) down)
            ]
          ]
    ]

-- If the queues of a CPU are the lists `q`, `dequeue_task` returns NULL only if the three levels
-- that it serves are empty, and then moves nothing; otherwise it returns the head of the list of one
-- of these levels, which is no longer in the queues, and everything else stays in place.
pub dequeue_task-Queues :
    {cpu : Cpu} {tasks : Tasks} {q : ℕ → List ℕ}
    → Queues cpu tasks q
    → ((dequeue_task cpu tasks).1 ≡ 0) × Empty q 0 3 × Queues (dequeue_task cpu tasks).0 tasks q
      ⊎ ((l : ℕ) × (l < 3) × Took tasks q (dequeue_task cpu tasks) l)
unfolding dequeue_task
dequeue_task-Queues inv = elim (dequeue_from-Outcome 3 0 inv) [
  | inl none ↦ inl none
  | inr (l, _, lt, took) ↦ inr (l, lt, took)
]

-- A level whose quantum is not used up is served, or one above it.
dequeue_from-level :
    (n p k : ℕ) {cpu : Cpu} {tasks : Tasks} {q : ℕ → List ℕ}
    → Queues cpu tasks q
    → p ≤ k
    → k < p + n
    → cpu.rq_head k ≢ 0
    → cpu.current_quanta k ≡ 0
    → (l : ℕ) × (l ≤ k) × Took tasks q (dequeue_from n p cpu tasks) l
unfolding dequeue_from
dequeue_from-level zero p k inv lo hi ne quanta = absurd (omega arith)
dequeue_from-level (suc n) p k {cpu = cpu} {tasks = tasks} {q = q} inv lo hi ne quanta =
    elim (ℕ_discrete p k) [
      | yes here ↦
          let found : (cpu.rq_head p == 0) ≡ false = ne→== _ _ (rw here ne) in
          let left : leb (priority_quanta p) (cpu.current_quanta p) ≡ false =
            not_spent p _ (rw here quanta) in
          rw (found, left) (p, lo, Took-head p inv (rw here ne))
      | no above ↦
          let fresh = reset_quanta-Queues p inv in
          let kept : update cpu.current_quanta p 0 k ≡ 0 = ground arith in
          let down = dequeue_from-level n (suc p) k fresh (omega arith) (omega arith) ne kept in
          elim (Bool-cases (cpu.rq_head p == 0)) [
            | inl null ↦ rw null down
            | inr found ↦
                let some_task : cpu.rq_head p ≢ 0 = ground arith in
                elim (Bool-cases (leb (priority_quanta p) (cpu.current_quanta p))) [
                  | inr left ↦ rw (found, left) (p, lo, Took-head p inv some_task)
                  | inl spent ↦ elim (Bool-cases (work_below n (suc p) cpu)) [
                    | inr alone ↦ rw (found, spent, alone) (p, lo, Took-head p fresh some_task)
                    | inl work ↦ rw (found, spent, work) down
                  ]
                ]
          ]
    ]
  where
    not_spent : (p c : ℕ) → c ≡ 0 → leb (priority_quanta p) c ≡ false
    not_spent zero c e = rw e
    not_spent (suc zero) c e = rw e
    not_spent (suc (suc zero)) c e = rw e
    not_spent (suc (suc (suc p))) c e = rw e

quanta_reset :
    (cpu : Cpu) (tasks : Tasks) (t : ℕ)
    → (enqueue_task cpu tasks t).0.current_quanta (level (tasks t).base_priority) ≡ 0
unfolding enqueue_task
quanta_reset cpu tasks t = update_self cpu.current_quanta (level (tasks t).base_priority) 0

-- A task is queued and then the next one is taken. Queueing resets the quantum of the level, so a task of that level or of one above it is
-- taken, never one of a level below: the quanta do not hand the CPU down while a task stays ready.
pub dequeue_task-enqueue :
    {cpu : Cpu} {tasks : Tasks} {q : ℕ → List ℕ}
    → Queues cpu tasks q
    → (t : ℕ) → t ≢ 0
    → ((p : ℕ) → NotIn t (q p))
    → level (tasks t).base_priority < 3
    → let k = level (tasks t).base_priority in
      let (cpu', tasks') = enqueue_task cpu tasks t in
      (l : ℕ) × (l ≤ k) × Took tasks' (update q k (q k ++ t ∷ [])) (dequeue_task cpu' tasks') l
unfolding dequeue_task
dequeue_task-enqueue {cpu = cpu} {tasks = tasks} {q = q} inv t real new lt =
    let k = level (tasks t).base_priority in
    let after = enqueue_task-Queues inv t real new in
    dequeue_from-level 3 0 k after (omega arith) lt
      (head_of_append _ _ t (q k) (rw (update_self q k (q k ++ t ∷ [])) at (after.chain k)))
      (quanta_reset cpu tasks t)
  where
    head_of_append : (next : ℕ → ℕ) (h t : ℕ) (xs : List ℕ) → Chain next h (xs ++ t ∷ []) → h ≢ 0
    head_of_append next h t [] c = λ e. c.1 (sym c.0 ∙ e)
    head_of_append next h t (x ∷ xs) c = λ e. c.1 (sym c.0 ∙ e)
