-- ===== src/Tests/Queues.antt =====
-- The theorems of the run queues at a CPU with no task, and of the sleepers at two tasks.
use kernel_smp.Base.{
  ℕ, zero, suc, ne→==, ◌<◌, ◌≡◌, ◌≢◌, ◌⊎◌, inl, inr, none, true, refl, ◌==◌, if◌then◌else◌, List,
  [], ◌∷◌, update, arith,
}
use kernel_smp.Task.{Task, TaskState, Reason, Tasks, Cpu, no_cpu}
use kernel_smp.RunQueue.{level, enqueue_task, dequeue_task}
use kernel_smp.RunQueue.Queues.{Queues}
use kernel_smp.RunQueue.Enqueue.{enqueue_task-Queues, enqueue_task_lem}
use kernel_smp.RunQueue.Levels.{Empty, Took, dequeue_task-Queues}
use kernel_smp.RunQueue.Chain.{Chain, NotIn}
use kernel_smp.Sched.{Kernel}
use kernel_smp.Sched.Schedule.{goes_on, schedule}
use kernel_smp.Sched.Schedule.Pick.{Runs, schedule_lem}
use kernel_smp.Sched.Members.{IsRing}
use kernel_smp.Sched.Reap.{sched_reap, vma_destroy_all, kfree}
use kernel_smp.Sched.Reap.Drain.{sched_reap_lem}
use kernel_smp.Sched.Sleep.{collect_expired, make_task_sleep}
use kernel_smp.Sched.Sleep.Insert.{make_task_sleep-Sorted}
use kernel_smp.Sched.Sleep.Expired.{Sorted, next_of, collect_expired-Chain}

abbrev task : Task
task = record {
  tid = 1;
  rsp = 0;
  stack_base = 0;
  stack_size = 0;
  state = TaskState.ready;
  wait_reason = Reason.mutex;
  cr3 = 0;
  next = 0;
  prev = 0;
  sched_next = 0;
  priority = 1;
  base_priority = 1;
  cpu_id = 0;
  sleep_until = 0;
}

abbrev cpu : Cpu
cpu = record {
  id = 0;
  kernel_stack = 0;
  rsp0 = 0;
  current_task = 0;
  idle_task = 0;
  rq_head = λ p. 0;
  rq_tail = λ p. 0;
  rq_count = λ p. 0;
  current_quanta = λ p. 0;
  next_priority_boost = 0;
  sleeping_list = 0;
}

cpu_empty : Queues cpu (λ t. task) (λ p. [])
cpu_empty = record {
  chain = λ p. refl;
  tail = λ p. refl;
  count = λ p. refl;
  distinct = λ p. tt;
  apart = λ p r ne. tt;
}

eight_queued :
    Queues
      (enqueue_task cpu (λ t. task) 8).0
      (enqueue_task cpu (λ t. task) 8).1
      (update (λ p. []) (level 1) (8 ∷ []))
eight_queued = enqueue_task-Queues cpu_empty 8 (λ e. absurd (omega (arith, e))) (λ p. tt)

dequeue_task-Queues_example :
    let (cpu', tasks') = enqueue_task cpu (λ t. task) 8 in
    let q : ℕ → List ℕ = update (λ p. []) (level 1) (8 ∷ []) in
    ((dequeue_task cpu' tasks').1 ≡ 0) × Empty q 0 3 × Queues (dequeue_task cpu' tasks').0 tasks' q
    ⊎ ((l : ℕ) × (l < 3) × Took tasks' q (dequeue_task cpu' tasks') l)
dequeue_task-Queues_example = dequeue_task-Queues eight_queued

-- Task 16 runs on the CPU.
abbrev busy : Cpu
busy = record cpu { current_task = 16; next_priority_boost = 1000 }

abbrev running_16 : Tasks
running_16 t = if t == 16 then record task { state = TaskState.running } else task

busy_empty : Queues busy running_16 (λ p. [])
busy_empty = record {
  chain = λ p. refl;
  tail = λ p. refl;
  count = λ p. refl;
  distinct = λ p. tt;
  apart = λ p r ne. tt;
}

enqueue_task_lem_example :
    let (cpu', tasks') = enqueue_task busy running_16 8 in
    Queues cpu' tasks' (update (λ p. []) (level 1) (8 ∷ []))
    × (cpu' ≡ record busy {
      rq_head = cpu'.rq_head;
      rq_tail = cpu'.rq_tail;
      rq_count = cpu'.rq_count;
      current_quanta = update busy.current_quanta 1 0;
    })
    × (tasks' 8 ≡ record (running_16 8) {
      priority = 1;
      sched_next = 0;
      cpu_id = if (running_16 8).cpu_id == no_cpu then 0 else (running_16 8).cpu_id;
    })
    × (busy.rq_tail 1 ≢ 0
        → tasks' (busy.rq_tail 1) ≡ record (running_16 (busy.rq_tail 1)) { sched_next = 8 })
    × ((y : ℕ) → 8 ≢ y → busy.rq_tail 1 ≢ y → tasks' y ≡ running_16 y)
enqueue_task_lem_example = enqueue_task_lem busy_empty 8 (λ e. absurd (omega (arith, e))) (λ p. tt)

abbrev one_queued : Kernel
one_queued = record {
  tasks = (enqueue_task busy running_16 8).1;
  cpu_table = λ i. none;
  root_task = 8;
  dead_task_list = 0;
  blocked_task_list = 0;
  uptime_ms = 7;
  cr3 = 0;
}

not_queued : (p : ℕ) → NotIn 16 (update (λ l. []) (level 1) (8 ∷ []) p)
not_queued zero = tt
not_queued (suc zero) = ((λ e. absurd (omega (arith, e))), tt)
not_queued (suc (suc p)) = rw (ne→== 1 (suc (suc p)) (λ e. absurd (omega (arith, e)))) tt

schedule_lem_example :
    let cpu' = (enqueue_task busy running_16 8).0 in
    let q : ℕ → List ℕ = update (λ p. []) (level 1) (8 ∷ []) in
    Runs 0 4096 16
      (level 1)
      one_queued
      (update q (level 1) (8 ∷ 16 ∷ []))
      (schedule 2 (λ i. true) 4096 cpu' one_queued)
unfolding enqueue_task goes_on
schedule_lem_example =
    schedule_lem 2 (λ i. true) 4096 (enqueue_task busy running_16 8).0 one_queued
      (update (λ p. []) (level 1) (8 ∷ []))
      (enqueue_task-Queues busy_empty 8 (λ e. absurd (omega (arith, e))) (λ p. tt))
      (λ e. absurd (omega (arith, e))) refl not_queued (omega arith) (omega arith)

-- Task 8 sleeps until 50, and task 16 behind it until 90.
abbrev sleepers : Tasks
sleepers t =
    if t == 8
    then record task { sleep_until = 50; sched_next = 16 }
    else record task { sleep_until = 90 }

collect_expired-Chain_example :
    let (stays, ready, tasks') = collect_expired 2 60 8 0 sleepers in
    Chain (next_of tasks') stays (16 ∷ []) × Chain (next_of tasks') ready (8 ∷ [])
collect_expired-Chain_example =
    collect_expired-Chain 60 2 8 sleepers (8 ∷ 16 ∷ [])
      (refl, (λ e. absurd (omega (arith, e))), (refl, (λ e. absurd (omega (arith, e))), refl))
      (((λ e. absurd (omega (arith, e))), tt), (tt, tt)) ((omega arith, tt), (tt, tt)) (omega arith)

abbrev sleepy : Cpu
sleepy = record cpu { sleeping_list = 8 }

make_task_sleep-Sorted_example :
    let (cpu', tasks') = make_task_sleep 2 40 20 24 sleepy sleepers in
    Chain (next_of tasks') cpu'.sleeping_list (8 ∷ 24 ∷ 16 ∷ [])
    × Sorted (λ y. (tasks' y).sleep_until) (8 ∷ 24 ∷ 16 ∷ [])
make_task_sleep-Sorted_example =
    make_task_sleep-Sorted 2 40 20 24 sleepy sleepers (8 ∷ 16 ∷ []) (λ e. absurd (omega (arith, e)))
      (refl, (λ e. absurd (omega (arith, e))), (refl, (λ e. absurd (omega (arith, e))), refl))
      (((λ e. absurd (omega (arith, e))), tt), (tt, tt))
      ((λ e. absurd (omega (arith, e))), ((λ e. absurd (omega (arith, e))), tt))
      ((omega arith, tt), (tt, tt)) (omega arith)

-- The ring of tasks 8, 16 and 24, of which 16 is dead.
abbrev three : Tasks
three t =
    if t == 8
    then record task { next = 16; prev = 24 }
    else if t == 16
    then record task { tid = 12; stack_base = 4096; next = 24; prev = 8 }
    else record task { next = 8; prev = 16 }

abbrev one_dead : Kernel
one_dead = record {
  tasks = three;
  cpu_table = λ i. none;
  root_task = 8;
  dead_task_list = 16;
  blocked_task_list = 0;
  uptime_ms = 0;
  cr3 = 0;
}

sched_reap_lem_example :
    let (k', calls) = sched_reap 1 one_dead in
    (k'.dead_task_list ≡ 0)
    × IsRing k' (8 ∷ 24 ∷ [])
    × (calls ≡ vma_destroy_all 16 ∷ kfree 4096 ∷ kfree 16 ∷ [])
sched_reap_lem_example =
    sched_reap_lem 1 one_dead (16 ∷ []) (8 ∷ 16 ∷ 24 ∷ []) (refl, omega arith, refl) (tt, tt)
      (inr (inl refl), tt) ((omega arith, (omega arith, tt)), ((omega arith, tt), (tt, tt)))
      (refl, (refl, refl, (refl, refl, (refl, refl)))) (omega arith)
