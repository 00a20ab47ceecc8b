-- ===== src/RunQueue/Enqueue.antt =====
-- `enqueue_task` appends the task to the queue of its level.
use kernel_smp.Base.{
  ℕ, ◌≡◌, ◌≢◌, ◌∙◌, refl, sym, List, [], ◌∷◌, ◌++◌, length, length-append, arith, update,
  update_self, update_ne, u32, ◌==◌, if◌then◌else◌,
}
use kernel_smp.Task.{Tasks, Cpu, no_cpu}
use kernel_smp.RunQueue.{enqueue_task, level}
use kernel_smp.RunQueue.Chain.{
  Chain, NotIn, Distinct, Apart, last, Chain-frame, All-update, Chain-append, last-pos, last-ne,
  Distinct-append, last-snoc, Chain-nonzero, All-others, last-NotIn, Apart-singleton, Apart-append,
  Apart-append_right,
}
use kernel_smp.RunQueue.Queues.{next_of, Queues, All-intro, by_level}

module _ {cpu : Cpu} {tasks : Tasks} {q : ℕ → List ℕ} (inv : Queues cpu tasks q) (t : ℕ)
    (real : t ≢ 0) (new : (p : ℕ) → NotIn t (q p)) where
  open inv use {chain, tail, count, distinct, apart}

  abbrev p : ℕ
  p = level (tasks t).base_priority

  abbrev cpu' : Cpu
  cpu' = (enqueue_task cpu tasks t).0

  abbrev tasks' : Tasks
  tasks' = (enqueue_task cpu tasks t).1

  -- The links after the call: NULL behind the task, and the task behind the old tail.
  links :
      (y : ℕ)
      → cpu.rq_tail p ≢ 0
      → next_of tasks' y ≡ update (update (next_of tasks) t 0) (cpu.rq_tail p) t y
  unfolding enqueue_task
  links y ne = ground arith

  links_empty : (y : ℕ) → cpu.rq_tail p ≡ 0 → next_of tasks' y ≡ update (next_of tasks) t 0 y
  unfolding enqueue_task
  links_empty y e = ground arith

  links_other : (y : ℕ) → t ≢ y → cpu.rq_tail p ≢ y → next_of tasks' y ≡ next_of tasks y
  unfolding enqueue_task
  links_other y ne ne' = ground arith

  head_other : (r : ℕ) → p ≢ r → cpu'.rq_head r ≡ cpu.rq_head r
  unfolding enqueue_task
  head_other r ne = ground arith

  head_same : cpu.rq_tail p ≢ 0 → cpu'.rq_head p ≡ cpu.rq_head p
  unfolding enqueue_task
  head_same ne = ground arith

  head_new : cpu.rq_tail p ≡ 0 → cpu'.rq_head p ≡ t
  unfolding enqueue_task
  head_new e = ground arith

  -- The queue of the task's own level, whether it was empty or not.
  Chain-here : (xs : List ℕ) → q p ≡ xs → Chain (next_of tasks') (cpu'.rq_head p) (xs ++ t ∷ [])
  Chain-here [] e =
      let none : cpu.rq_tail p ≡ 0 = rw e at (tail p) in
      (head_new none, real, links_empty t none ∙ update_self (next_of tasks) t 0)
  Chain-here (x ∷ xs) e =
      let old = rw e at (chain p) in
      let d = rw e at (distinct p) in
      let out = rw e at (new p) in
      let end : cpu.rq_tail p ≡ last (x ∷ xs) = rw e at (tail p) in
      let ne : cpu.rq_tail p ≢ 0 = rw end (last-pos _ _ x xs old) in
      let base = update (next_of tasks) t 0 in
      let apart_t : last (x ∷ xs) ≢ t = λ h. last-ne t x xs out (sym h) in
      rw (head_same ne) (
        Chain-frame _ (next_of tasks') (cpu.rq_head p) ((x ∷ xs) ++ t ∷ [])
          (All-intro _ ((x ∷ xs) ++ t ∷ []) (λ y. rw end at (links y ne)))
          (Chain-append base (cpu.rq_head p) t x xs (t ∷ [])
            (Chain-frame _ base _ (x ∷ xs) (All-update (next_of tasks) t 0 (x ∷ xs) out) old) d
            (
              refl,
              real,
              update_ne base (last (x ∷ xs)) t t apart_t ∙ update_self (next_of tasks) t 0,
            )))

  Chain-there : (r : ℕ) → p ≢ r → Chain (next_of tasks') (cpu'.rq_head r) (q r)
  Chain-there r ne = rw (head_other r ne) (
      Chain-frame _ (next_of tasks') (cpu.rq_head r) (q r)
        (All-others _ t (cpu.rq_tail p) (q r) links_other (new r)
          (rw (tail p) (last-NotIn (q p) (q r) (apart p r ne) (Chain-nonzero _ _ _ (chain r)))))
        (chain r))

  tail_here : cpu'.rq_tail p ≡ t
  unfolding enqueue_task
  tail_here = ground arith

  tail_there : (r : ℕ) → p ≢ r → cpu'.rq_tail r ≡ cpu.rq_tail r
  unfolding enqueue_task
  tail_there r ne = ground arith

  count_here : cpu'.rq_count p ≡ u32 (length (q p ++ t ∷ []))
  unfolding enqueue_task
  count_here = rw update_self (omega (arith, count p, length-append {0} (q p) (t ∷ [])))

  count_there : (r : ℕ) → p ≢ r → cpu'.rq_count r ≡ cpu.rq_count r
  unfolding enqueue_task
  count_there r ne = ground arith

  -- If the queues of a CPU are the lists `q`, and the task is in none of them, then after
  -- `enqueue_task` they are `q` with the task behind the list of its level.
  pub enqueue_task-Queues :
      Queues
        (enqueue_task cpu tasks t).0
        (enqueue_task cpu tasks t).1
        (update q (level (tasks t).base_priority) (q (level (tasks t).base_priority) ++ t ∷ []))
  enqueue_task-Queues = record {
    chain =
        by_level (λ r xs. Chain (next_of tasks') (cpu'.rq_head r) xs) q p (q p ++ t ∷ [])
          (Chain-here (q p) refl) Chain-there;
    tail =
        by_level (λ r xs. cpu'.rq_tail r ≡ last xs) q p (q p ++ t ∷ [])
          (tail_here ∙ sym (last-snoc t (q p))) (λ r ne. tail_there r ne ∙ tail r);
    count =
        by_level (λ r xs. cpu'.rq_count r ≡ u32 (length xs)) q p (q p ++ t ∷ []) count_here
          (λ r ne. count_there r ne ∙ count r);
    distinct =
        by_level (λ r xs. Distinct xs) q p (q p ++ t ∷ [])
          (Distinct-append (q p) (t ∷ []) (distinct p) (tt, tt) (Apart-singleton t (q p) (new p)))
          (λ r ne. distinct r);
    apart =
        by_level (λ a xs. (b : ℕ) → a ≢ b → Apart xs (update q p (q p ++ t ∷ []) b)) q p
          (q p ++ t ∷ [])
          (λ b ne.
            rw (update_ne q p b (q p ++ t ∷ []) ne)
              (Apart-append (q p) (t ∷ []) (q b) (apart p b ne) (new b, tt)))
          (λ a ne.
            by_level (λ b ys. a ≢ b → Apart (q a) ys) q p (q p ++ t ∷ [])
              (λ d.
                Apart-append_right (q a) (q p) (t ∷ []) (apart a p d)
                  (Apart-singleton t (q a) (new a)))
              (λ b _ d. apart a b d));
  }

  t-ne-tail : t ≢ cpu.rq_tail p
  t-ne-tail e = ne_last (q p) (new p) (e ∙ tail p)
    where
      ne_last : (xs : List ℕ) → NotIn t xs → t ≢ last xs
      ne_last [] out = real
      ne_last (x ∷ xs) out = last-ne t x xs out

  -- If the queues of a CPU are the lists `q`, and the task is in none of them, then after
  -- `enqueue_task` they are `q` with the task behind the list of its level. The quantum of that level
  -- is 0, and of the CPU nothing else is changed but the heads, tails and counts of the queues. The
  -- task has its base priority, and the number of the CPU if it had none; the old tail is linked
  -- to it, and no other task is changed.
  pub enqueue_task_lem :
      Queues cpu' tasks' (update q p (q p ++ t ∷ []))
      × (cpu' ≡ record cpu {
        rq_head = cpu'.rq_head;
        rq_tail = cpu'.rq_tail;
        rq_count = cpu'.rq_count;
        current_quanta = update cpu.current_quanta p 0;
      })
      × (tasks' t ≡ record (tasks t) {
        priority = (tasks t).base_priority;
        sched_next = 0;
        cpu_id = if (tasks t).cpu_id == no_cpu then cpu.id else (tasks t).cpu_id;
      })
      × (cpu.rq_tail p ≢ 0
          → tasks' (cpu.rq_tail p) ≡ record (tasks (cpu.rq_tail p)) { sched_next = t })
      × ((y : ℕ) → t ≢ y → cpu.rq_tail p ≢ y → tasks' y ≡ tasks y)
  unfolding enqueue_task
  enqueue_task_lem =
      let ne : t ≢ cpu.rq_tail p = t-ne-tail in
      (
        enqueue_task-Queues,
        refl,
        ground arith,
        λ full. ground arith,
        λ y other behind. ground arith,
      )
