-- ===== src/Sched.antt =====
-- The scheduler of kernel/sched/sched.c: its global lists, and the record of the whole state that
-- its operations share. The time and the register CR3 of the executing CPU are part of the state.
pub mod Sleep
pub mod Wake
pub mod Schedule
pub mod Circle
pub mod Members
pub mod Reap
use kernel_smp.Base.{ℕ, Option, none, some, update}
use kernel_smp.Task.{Tasks, Cpu}

pub record Kernel : Type 0 where
  pub tasks : Tasks
  pub cpu_table : ℕ → Option Cpu
  pub root_task : ℕ
  pub dead_task_list : ℕ
  pub blocked_task_list : ℕ
  pub uptime_ms : ℕ
  pub cr3 : ℕ

-- The context of a CPU is one object: its entry of the table shows every change.
abbrev pub put_cpu : Kernel → Cpu → Kernel
put_cpu k cpu = record k { cpu_table = update k.cpu_table cpu.id (some cpu) }
