-- ===== src/RunQueue.antt =====
-- The run queues of a CPU in kernel/sched/sched.c: a singly linked list of tasks with head and tail
-- for each priority level.
pub mod Chain
pub mod Queues
pub mod Enqueue
pub mod Dequeue
pub mod Levels
use kernel_smp.Base.{
  ℕ, zero, suc, ◌+◌, ◌-◌, ◌≡◌, Bool, true, false, not, ◌&&◌, ◌||◌, ltb, leb, ◌==◌, if◌then◌else◌,
  update, u32, sub64,
}
use kernel_smp.Task.{Task, Tasks, Cpu, prio_normal, priority_levels, no_cpu}

-- `priority_quanta`
abbrev pub priority_quanta : ℕ → ℕ
priority_quanta zero = 10
priority_quanta (suc zero) = 5
priority_quanta (suc (suc zero)) = 2
priority_quanta (suc (suc (suc p))) = 1

-- The level that a task of base priority `b` is queued at.
abbrev pub level : ℕ → ℕ
level b = if leb priority_levels b then prio_normal else b

-- The task itself, as `enqueue_task` leaves it.
abbrev pub enqueued : Cpu → Task → Task
enqueued cpu t = record t {
  priority = t.base_priority;
  sched_next = 0;
  cpu_id = if t.cpu_id == no_cpu then cpu.id else t.cpu_id;
}

-- `if (rq_tail[p]) rq_tail[p]->sched_next = task`
abbrev pub link_after : Tasks → ℕ → ℕ → Tasks
link_after tasks tail t =
    if tail == 0 then tasks else update tasks tail (record (tasks tail) { sched_next = t })

unfoldable pub enqueue_task : Cpu → Tasks → ℕ → Cpu × Tasks
enqueue_task cpu tasks t =
    let p = level (tasks t).base_priority in
    let tail = cpu.rq_tail p in
    (
      record cpu {
        current_quanta = update cpu.current_quanta p 0;
        rq_head = if tail == 0 then update cpu.rq_head p t else cpu.rq_head;
        rq_tail = update cpu.rq_tail p t;
        rq_count = update cpu.rq_count p (u32 (cpu.rq_count p + 1));
      },
      link_after (update tasks t (enqueued cpu (tasks t))) tail t,
    )

-- The loop over the levels below `p`, with `n` of them left: is any of them not empty?
pub work_below : ℕ → ℕ → Cpu → Bool
work_below zero low cpu = false
work_below (suc n) low cpu = not (cpu.rq_head low == 0) || work_below n (suc low) cpu

-- The head of level `p` is taken off its queue.
unfoldable pub take_head : ℕ → Cpu → Tasks → Cpu × ℕ
take_head p cpu tasks =
    let t = cpu.rq_head p in
    let rest = (tasks t).sched_next in
    (
      record cpu {
        rq_head = update cpu.rq_head p rest;
        rq_tail = if rest == 0 then update cpu.rq_tail p 0 else cpu.rq_tail;
        rq_count = update cpu.rq_count p (u32 (cpu.rq_count p + 0xFFFFFFFF));
        current_quanta = update cpu.current_quanta p (u32 (cpu.current_quanta p + 1));
      },
      t,
    )

abbrev pub reset_quanta : ℕ → Cpu → Cpu
reset_quanta p cpu = record cpu { current_quanta = update cpu.current_quanta p 0 }

-- The loop of `dequeue_task` from level `p`, with `n` levels left.
unfoldable pub dequeue_from : ℕ → ℕ → Cpu → Tasks → Cpu × ℕ
dequeue_from zero p cpu tasks = (cpu, 0)
dequeue_from (suc n) p cpu tasks =
    let fresh = reset_quanta p cpu in
    let next_level = dequeue_from n (suc p) fresh tasks in
    if cpu.rq_head p == 0
    then next_level
    else if leb (priority_quanta p) (cpu.current_quanta p)
    then (if work_below n (suc p) cpu then next_level else take_head p fresh tasks)
    else take_head p cpu tasks

unfoldable pub dequeue_task : Cpu → Tasks → Cpu × ℕ
dequeue_task cpu tasks = dequeue_from (priority_levels - 1) 0 cpu tasks

-- What `steal_task_from_cpu` finds: a task that may migrate, and the one before it, or 0.
-- The fuel bounds the length of the list.
pub find_stealable : ℕ → ℕ → ℕ → Tasks → ℕ × ℕ
find_stealable zero prev curr tasks = (prev, 0)
find_stealable (suc fuel) prev curr tasks =
    let rest = find_stealable fuel curr (tasks curr).sched_next tasks in
    if curr == 0 then (prev, 0) else if leb 10 (tasks curr).tid then (prev, curr) else rest

-- The task `curr` of level `p`, behind `prev`, is unlinked.
pub unlink_stolen : ℕ → ℕ → ℕ → Cpu → Tasks → Cpu × Tasks
unlink_stolen p prev curr cpu tasks =
    let after = (tasks curr).sched_next in
    let linked =
      if prev == 0 then tasks else update tasks prev (record (tasks prev) { sched_next = after }) in
    (
      record cpu {
        rq_head = if prev == 0 then update cpu.rq_head p after else cpu.rq_head;
        rq_tail = if cpu.rq_tail p == curr then update cpu.rq_tail p prev else cpu.rq_tail;
        rq_count = update cpu.rq_count p (u32 (cpu.rq_count p + 0xFFFFFFFF));
      },
      update linked curr (record (linked curr) { sched_next = 0 }),
    )

-- The loop over the levels of the other CPU, whose lock was taken by `spin_trylock`.
pub steal_from : ℕ → ℕ → ℕ → Cpu → Tasks → Cpu × Tasks × ℕ
steal_from fuel zero p other tasks = (other, tasks, 0)
steal_from fuel (suc n) p other tasks =
    let rest = steal_from fuel n (suc p) other tasks in
    let (prev, curr) = find_stealable fuel 0 (other.rq_head p) tasks in
    let (cpu', tasks') = unlink_stolen p prev curr other tasks in
    if curr == 0 then rest else (cpu', tasks', curr)

-- `locked` is the answer of `spin_trylock(&other->rq_lock)`.
pub steal_task_from_cpu : Bool → ℕ → Cpu → Tasks → Cpu × Tasks × ℕ
steal_task_from_cpu locked fuel other tasks =
    if locked then steal_from fuel (priority_levels - 1) 0 other tasks else (other, tasks, 0)

-- Level `p + 1` is moved behind level `p`.
pub boost_level : ℕ → Cpu × Tasks → Cpu × Tasks
boost_level p (cpu, tasks) =
    let head = cpu.rq_head (suc p) in
    let tail = cpu.rq_tail p in
    if head == 0 then (cpu, tasks) else (
      record cpu {
        rq_head = update (if tail == 0 then update cpu.rq_head p head else cpu.rq_head) (suc p) 0;
        rq_tail = update (update cpu.rq_tail p (cpu.rq_tail (suc p))) (suc p) 0;
        rq_count =
            update (update cpu.rq_count p (u32 (cpu.rq_count p + cpu.rq_count (suc p)))) (suc p) 0;
      },
      link_after tasks tail head,
    )

pub prio_boost : Cpu → Tasks → Cpu × Tasks
prio_boost cpu tasks = boost_level 1 (boost_level 0 (cpu, tasks))
