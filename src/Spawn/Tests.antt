-- ===== src/Spawn/Tests.antt =====
-- The creation of tasks where the main task, at address 8, is the only one.
use kernel_smp.Base.{◌≡◌, refl, false, [], ◌∷◌, some, none, update, if◌then◌else◌, ◌==◌, arith}
use kernel_smp.Task.{TaskState, Cpu, prio_high}
use kernel_smp.RunQueue.Queues.{Queues}
use kernel_smp.Sched.{Kernel}
use kernel_smp.Sched.Members.{IsRing}
use kernel_smp.Vmm.{zero_entry}
use kernel_smp.Vma.{Areas, red}
use kernel_smp.Spawn.{Spawner, arch_task_create, no_heap, zero_task, Frame}
use kernel_smp.Spawn.Create.{Starts, arch_task_create_lem}

abbrev cpu : Cpu
cpu = record {
  id = 0;
  kernel_stack = 0;
  rsp0 = 0;
  current_task = 8;
  idle_task = 0;
  rq_head = λ p. 0;
  rq_tail = λ p. 0;
  rq_count = λ p. 0;
  current_quanta = λ p. 0;
  next_priority_boost = 0;
  sleeping_list = 0;
}

abbrev kernel : Kernel
kernel = record {
  tasks = λ t. record zero_task { state = TaskState.running; next = 8; prev = 8 };
  cpu_table = λ i. if i == 0 then some cpu else none;
  root_task = 8;
  dead_task_list = 0;
  blocked_task_list = 0;
  uptime_ms = 0;
  cr3 = 4096;
}

abbrev no_areas : Areas
no_areas = record {
  area = λ p. record {
    vm_start = 0;
    vm_end = 0;
    vm_flags = 0;
    left = 0;
    right = 0;
    parent = 0;
    color = red;
    next = 0;
    prev = 0;
  };
  tree_root = 0;
  list_head = 0;
  count = 0;
}

abbrev empty_frame : Frame
empty_frame = record { rbp = 0; rip = 0; cs = 0; rflags = 0; rsp = 0; ss = 0 }

abbrev spawner : Spawner
spawner = record {
  kernel = kernel;
  next_tid = 10;
  frames = λ p. empty_frame;
  is_user = λ t. false;
  areas = λ t. no_areas;
  heaps = λ t. no_heap;
  vmm = record {
    tables = λ t i. zero_entry;
    pmm = record { bitmap = 4096; bitmap_size = 16; bytes = λ i. if i == 0 then 3 else 0 };
    hint = some 0;
  };
}

no_queues : Queues cpu kernel.tasks (λ p. [])
no_queues = record {
  chain = λ p. refl;
  tail = λ p. refl;
  count = λ p. refl;
  distinct = λ p. tt;
  apart = λ p r ne. tt;
}

arch_task_create_lem_example :
    let (w', created, freed) = arch_task_create 16 0x8000 0x1000 cpu spawner in
    (created ≡ 16)
    × (freed ≡ [])
    × IsRing w'.kernel (8 ∷ 16 ∷ [])
    × ((cpu' : Cpu) × (w'.kernel.cpu_table 0 ≡ some cpu')
        × Queues cpu' w'.kernel.tasks (update (λ p. []) prio_high (16 ∷ [])))
    × Starts w' 16 0x8000 0x1000 spawner
arch_task_create_lem_example =
    arch_task_create_lem 16 0x8000 0x1000 cpu spawner 8 [] (λ p. []) (omega arith) (omega arith)
      (omega arith) (tt, tt) (omega arith, tt) (refl, (refl, refl)) no_queues (λ p. tt)
