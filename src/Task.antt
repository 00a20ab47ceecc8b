-- ===== src/Task.antt =====
-- The task of kernel/include/sched/sched.h, the enumerations of kernel/include/sched/sched_utils.h
-- and the scheduler's part of the CPU context of kernel/include/cpu/cpu.h. A pointer to a task is a
-- number, 0 for NULL, and the tasks themselves are a memory.
use kernel_smp.Base.{ℕ, ◌^◌, ◌-◌, Option, none, leb, if◌then◌else◌}

pub data TaskState : Type 0 where
  ready running sleeping zombie finished blocked : TaskState

pub data Reason : Type 0 where
  keyboard mutex : Reason

-- The values of `task_prio_t`; the scheduler serves the levels below `prio_idle`.
abbrev pub prio_high : ℕ
prio_high = 0

abbrev pub prio_normal : ℕ
prio_normal = 1

abbrev pub prio_low : ℕ
prio_low = 2

abbrev pub prio_idle : ℕ
prio_idle = 3

abbrev pub priority_levels : ℕ
priority_levels = 4

abbrev pub priority_boost : ℕ
priority_boost = 100

-- `(uint64_t)-1`, the `cpu_id` of a task with no home
abbrev pub no_cpu : ℕ
no_cpu = 2 ^ 64 - 1

pub record Task : Type 0 where
  pub tid : ℕ
  pub rsp : ℕ
  pub stack_base : ℕ
  pub stack_size : ℕ
  pub state : TaskState
  pub wait_reason : Reason
  pub cr3 : ℕ
  pub next : ℕ
  pub prev : ℕ
  pub sched_next : ℕ
  pub priority : ℕ
  pub base_priority : ℕ
  pub cpu_id : ℕ
  pub sleep_until : ℕ

pub record Cpu : Type 0 where
  pub id : ℕ
  pub kernel_stack : ℕ
  pub rsp0 : ℕ
  pub current_task : ℕ
  pub idle_task : ℕ
  pub rq_head : ℕ → ℕ
  pub rq_tail : ℕ → ℕ
  pub rq_count : ℕ → ℕ
  pub current_quanta : ℕ → ℕ
  pub next_priority_boost : ℕ
  pub sleeping_list : ℕ

abbrev pub Tasks : Type 0
Tasks = ℕ → Task

-- The table of the CPUs holds at most 32 entries, NULL where no CPU has registered.
unfoldable pub get_cpu_by_id : (ℕ → Option Cpu) → ℕ → Option Cpu
get_cpu_by_id cpu_table id = if leb 32 id then none else cpu_table id
