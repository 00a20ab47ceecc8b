-- ===== src/Sched/Schedule/Steps.antt =====
-- The parts of `schedule` in the terms of the queues: the interrupted task, the reading of a
-- queue, and the switch.
use kernel_smp.Base.{
  ℕ, zero, suc, ◌+◌, ◌≡◌, ◌≢◌, refl, ap, fun_ext, List, true, ◌==◌, ne→==, if◌then◌else◌, update,
  update_self, some, arith, u64,
}
use kernel_smp.Task.{TaskState, Tasks, Cpu}
use kernel_smp.RunQueue.{enqueue_task, dequeue_from, take_head, reset_quanta}
use kernel_smp.RunQueue.Queues.{next_of, Queues}
use kernel_smp.Sched.{Kernel}
use kernel_smp.Sched.Schedule.{put_back, goes_on, queue_again, leave_cpu, switch_to}

pub Queues-same :
    {cpu : Cpu} {tasks tasks' : Tasks} {q : ℕ → List ℕ}
    → next_of tasks' ≡ next_of tasks
    → Queues cpu tasks q
    → Queues cpu tasks' q
Queues-same same inv = record {
  chain = λ p. rw same (inv.chain p);
  tail = inv.tail;
  count = inv.count;
  distinct = inv.distinct;
  apart = inv.apart;
}

module _ (frame : ℕ) (cpu : Cpu) (tasks : Tasks) where
  abbrev current : ℕ
  current = cpu.current_task

  abbrev pub saved : Tasks
  saved = update tasks current (record (tasks current) { rsp = frame })

  -- The interrupted task as it is queued.
  abbrev pub readied : Tasks
  readied = update saved current (record (saved current) { state = TaskState.ready })

  abbrev pub queued : Cpu × Tasks
  queued = enqueue_task cpu readied current

  pub put_back_eq :
      current ≢ 0
      → goes_on (saved current) ≡ true
      → put_back frame cpu tasks ≡ (queued.0, leave_cpu current queued.1)
  unfolding put_back queue_again
  put_back_eq real on = rw (ne→== current 0 real, on)

  pub next_of-readied : next_of readied ≡ next_of tasks
  next_of-readied = fun_ext λ y. ground arith

  pub base-readied : (readied current).base_priority ≡ (tasks current).base_priority
  base-readied = ground arith

  pub rsp-queued : (y : ℕ) → (queued.1 y).rsp ≡ (if current == y then frame else (tasks y).rsp)
  unfolding enqueue_task
  rsp-queued y = ground arith

pub next_of-leave : (c : ℕ) (tasks : Tasks) → next_of (leave_cpu c tasks) ≡ next_of tasks
unfolding leave_cpu
next_of-leave c tasks = fun_ext λ y. ground arith

pub rsp-leave : (c : ℕ) (tasks : Tasks) (y : ℕ) → (leave_cpu c tasks y).rsp ≡ (tasks y).rsp
unfolding leave_cpu
rsp-leave c tasks y = ground arith

take_head-links :
    (p : ℕ) (cpu : Cpu) (tasks tasks' : Tasks)
    → next_of tasks' ≡ next_of tasks
    → take_head p cpu tasks' ≡ take_head p cpu tasks
unfolding take_head
take_head-links p cpu tasks tasks' same =
    let after : (tasks' (cpu.rq_head p)).sched_next ≡ (tasks (cpu.rq_head p)).sched_next =
      ap (λ (f : ℕ → ℕ). f (cpu.rq_head p)) same in
    rw after refl

-- A queue is read through the links alone.
pub dequeue_from-links :
    (n p : ℕ) (cpu : Cpu) (tasks tasks' : Tasks)
    → next_of tasks' ≡ next_of tasks
    → dequeue_from n p cpu tasks' ≡ dequeue_from n p cpu tasks
unfolding dequeue_from
dequeue_from-links zero p cpu tasks tasks' same = refl
dequeue_from-links (suc n) p cpu tasks tasks' same =
    rw
      (
        dequeue_from-links n (suc p) (reset_quanta p cpu) tasks tasks' same,
        take_head-links p (reset_quanta p cpu) tasks tasks' same,
        take_head-links p cpu tasks tasks' same,
      )
      refl

pub id-dequeue : (n p : ℕ) (cpu : Cpu) (tasks : Tasks) → (dequeue_from n p cpu tasks).0.id ≡ cpu.id
unfolding dequeue_from take_head
id-dequeue zero p cpu tasks = refl
id-dequeue (suc n) p cpu tasks =
    let rest = id-dequeue n (suc p) (reset_quanta p cpu) tasks in ground arith

-- The state of the CPU after a switch to `t`.
pub switch_to-cpu :
    (t : ℕ) (cpu : Cpu) (k : Kernel) (q : ℕ → List ℕ)
    → Queues cpu k.tasks q
    → (cpu' : Cpu) × ((switch_to t cpu k).0.cpu_table cpu.id ≡ some cpu')
      × (cpu'.current_task ≡ t)
      × Queues cpu' (switch_to t cpu k).0.tasks q
unfolding switch_to
switch_to-cpu t cpu k q inv =
    let task = record (k.tasks t) { state = TaskState.running; cpu_id = cpu.id } in
    let top = u64 (task.stack_base + task.stack_size) in
    let cpu' = record cpu { current_task = t; rsp0 = top; kernel_stack = top } in
    let same : next_of (update k.tasks t task) ≡ next_of k.tasks = fun_ext λ y. ground arith in
    (
      cpu',
      update_self k.cpu_table cpu.id (some cpu'),
      refl,
      Queues-same {tasks = k.tasks} same (record {
        chain = inv.chain;
        tail = inv.tail;
        count = inv.count;
        distinct = inv.distinct;
        apart = inv.apart;
      }),
    )

pub switch_to-rsp : (t : ℕ) (cpu : Cpu) (k : Kernel) → (switch_to t cpu k).1 ≡ (k.tasks t).rsp
unfolding switch_to
switch_to-rsp t cpu k = refl

pub switch_to-state :
    (t : ℕ) (cpu : Cpu) (k : Kernel) → ((switch_to t cpu k).0.tasks t).state ≡ TaskState.running
unfolding switch_to
switch_to-state t cpu k = ground arith
