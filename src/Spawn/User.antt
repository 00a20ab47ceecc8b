-- ===== src/Spawn/User.antt =====
-- `arch_task_create_user` and `arch_task_spawn_elf` of kernel/arch/x86_64/sched/context.c. The copy
-- of the program's code is a call of `memcpy`.
pub mod Failed
use kernel_smp.Base.{
  ℕ, zero, suc, ◌+◌, ◌-◌, ◌*◌, ◌/◌, Bool, true, false, not, List, [], ◌∷◌, Option, none, some, ◌==◌,
  if◌then◌else◌, update, u64, phys_to_virt,
}
use kernel_smp.Task.{Cpu}
use kernel_smp.Vmm.{vmm_virtual_to_physical}
use kernel_smp.Vmm.Space.{vmm_create_user_pml4}
use kernel_smp.Vma.Map.{Space, Status, ok, vma_map}
use kernel_smp.Syscall.{Heap, heap_flags}
use kernel_smp.Elf.{Image, Copy, elf_load}
use kernel_smp.Spawn.{Frame, Spawner, set_task, task_alloc_base, prepare, task_register}

abbrev pub code_virt : ℕ
code_virt = 0x400000

-- `0x00007FFFFFFFF000 - (4 * PAGE_SIZE)`
abbrev pub u_stack_virt : ℕ
u_stack_virt = 0x00007FFFFFFFF000 - 4 * 4096

-- What a creation leaves: the state, the task or NULL, what was freed, and what was copied.
pub record Created : Type 0 where
  pub state : Spawner
  pub task : ℕ
  pub freed : List ℕ
  pub copied : List Copy

-- The address space of task `t`, and the state with another one.
abbrev pub space_of : ℕ → Spawner → Space
space_of t w = record { areas = w.areas t; vmm = w.vmm; cr3 = (w.kernel.tasks t).cr3 }

abbrev pub put_space : ℕ → Space → Spawner → Spawner
put_space t s w = record w { areas = update w.areas t s.areas; vmm = s.vmm }

-- `vma_map` for task `t`: the state, and whether the result is 0.
pub map_for : ℕ → ℕ → ℕ → ℕ → ℕ → ℕ → Spawner → Option (Spawner × Bool)
map_for fuel new t addr size flags w = elim (vma_map fuel new addr size flags (space_of t w)) [
  | none ↦ none
  | some (s, ok) ↦ some (put_space t s w, true)
  | some (s, _) ↦ some (put_space t s w, false)
]

-- An early return after `vmm_create_user_pml4`: nothing is freed.
abbrev pub abandoned : Spawner → List Copy → Option Created
abandoned w copied = some (record { state = w; task = 0; freed = []; copied = copied })

-- The frame of ring 3, and the registration.
pub enter_user : Cpu → ℕ → ℕ → List Copy → Spawner → Option Created
enter_user cpu t entry copied w =
    let sp = u_stack_virt + 4 * 4096 - 8 in
    let f : Frame = record {
      rbp = sp;
      rip = entry;
      cs = 0x1B;
      rflags = 0x202;
      rsp = sp;
      ss = 0x23;
    } in
    let w' = prepare t f w in
    some (record {
      state = record w' { kernel = task_register cpu t w'.kernel };
      task = t;
      freed = [];
      copied = copied;
    })

-- `VMA_READ | VMA_WRITE | VMA_USER | VMA_STACK`
abbrev pub map_stack : ℕ → ℕ → ℕ → Spawner → Option (Spawner × Bool)
map_stack fuel new t w = map_for fuel new t u_stack_virt (4 * 4096) (1 + 2 + 8 + 16) w

-- The heap of a process that is made from a function.
abbrev pub user_heap : Heap
user_heap = record { heap_start = 0x406000; heap_curr = 0x406000; heap_end = 0x406000 + 4 * 4096 }

-- The three areas of the process `t`; `new` is the memory of their descriptors.
pub map_user : ℕ → (ℕ → ℕ) → Cpu → ℕ → ℕ → Spawner → Option Created
map_user fuel new cpu t entry_point w =
    elim (map_for fuel (new 0) t code_virt (4 * 4096) (1 + 4 + 8) w) [
      | none ↦ none
      | some (w₁, false) ↦ abandoned w₁ []
      | some (w₁, true) ↦
          let code_phys = vmm_virtual_to_physical w₁.vmm.tables (w₁.kernel.tasks t).cr3 code_virt in
          let code : Copy = record {
            dest = phys_to_virt code_phys;
            src = entry_point;
            size = 4 * 4096;
          } in
          elim (map_stack fuel (new 1) t w₁) [
            | none ↦ none
            | some (w₂, false) ↦ abandoned w₂ (code ∷ [])
            | some (w₂, true) ↦
                let w₃ = record w₂ { heaps = update w₂.heaps t user_heap } in
                elim (map_for fuel (new 2) t user_heap.heap_start (4 * 4096) heap_flags w₃) [
                  | none ↦ none
                  | some (w₄, false) ↦ abandoned w₄ (code ∷ [])
                  | some (w₄, true) ↦ enter_user cpu t code_virt (code ∷ []) w₄
                ]
          ]
    ]

-- What both do first: a task of its own, with tables of its own. `make` is what is done with it.
pub with_space : ℕ → ℕ → ℕ → (ℕ → Spawner → Option Created) → Spawner → Option Created
with_space t₀ stack kernel_pml4 make w =
    let (w₁, t, freed) = task_alloc_base t₀ stack w in
    let (vmm, cr3) = vmm_create_user_pml4 kernel_pml4 w₁.vmm in
    let w₂ = record w₁ { vmm = vmm } in
    let w₃ =
      set_task t (λ v. record v { cr3 = cr3 }) (record w₂ { is_user = update w₂.is_user t true }) in
    if t == 0
    then some (record { state = w₁; task = 0; freed = freed; copied = [] })
    else if cr3 == 0
    then some (record {
      state = w₂;
      task = 0;
      freed = (w₂.kernel.tasks t).stack_base ∷ t ∷ [];
      copied = [];
    })
    else make t w₃

pub arch_task_create_user : ℕ → (ℕ → ℕ) → ℕ → ℕ → ℕ → ℕ → Cpu → Spawner → Option Created
arch_task_create_user fuel new t₀ stack kernel_pml4 entry_point cpu w =
    with_space t₀ stack kernel_pml4 (λ t. map_user fuel new cpu t entry_point) w

-- The image in the space of the process `t`, and its stack.
pub load_user : ℕ → (ℕ → ℕ) → ℕ → ℕ → Cpu → ℕ → Image → Spawner → Option Created
load_user fuel new new_heap new_stack cpu t image w =
    elim (elf_load fuel new new_heap image (w.heaps t) (space_of t w)) [
      | none ↦ none
      | some r ↦
          let w₁ = put_space t r.state.space (record w { heaps = update w.heaps t r.heap }) in
          let stacked : Option Created = elim (map_stack fuel new_stack t w₁) [
            | none ↦ none
            | some (w₂, false) ↦ abandoned w₂ r.state.copies
            | some (w₂, true) ↦ enter_user cpu t r.entry r.state.copies w₂
          ] in
          if r.entry == 0 then abandoned w₁ r.state.copies else stacked
    ]

pub arch_task_spawn_elf : ℕ → (ℕ → ℕ) → ℕ → ℕ → ℕ → ℕ → ℕ → Image → Cpu → Spawner → Option Created
arch_task_spawn_elf fuel new new_heap new_stack t₀ stack kernel_pml4 image cpu w =
    with_space t₀ stack kernel_pml4 (λ t. load_user fuel new new_heap new_stack cpu t image) w
