-- ===== src/Spawn/User/Failed.antt =====
-- What the creation of a process leaves behind when it fails.
use kernel_smp.Base.{
  ℕ, ◌≡◌, List, [], ◌∷◌, Option, some, if◌then◌else◌, ◌==◌, Bool-cases, arith, inl, inr,
}
use kernel_smp.Task.{Cpu}
use kernel_smp.Vmm.Space.{vmm_create_user_pml4}
use kernel_smp.Spawn.{Spawner, task_alloc_base, set_task, cleared}
use kernel_smp.Spawn.User.{
  Created, map_user, enter_user, with_space, arch_task_create_user, load_user, arch_task_spawn_elf,
}
use kernel_smp.Elf.{Image}

-- Whatever becomes of the areas of a process, nothing is freed.
map_user-freed :
    (fuel : ℕ) (new : ℕ → ℕ) (cpu : Cpu) (t entry : ℕ) (w : Spawner) (r : Created)
    → map_user fuel new cpu t entry w ≡ some r
    → r.freed ≡ []
unfolding map_user enter_user
map_user-freed fuel new cpu t entry w r e = ground arith

load_user-freed :
    (fuel : ℕ) (new : ℕ → ℕ) (new_heap new_stack : ℕ) (cpu : Cpu) (t : ℕ) (image : Image)
    (w : Spawner) (r : Created)
    → load_user fuel new new_heap new_stack cpu t image w ≡ some r
    → r.freed ≡ []
unfolding load_user enter_user
load_user-freed fuel new new_heap new_stack cpu t image w r e = ground arith

-- What is freed, by the first of the three allocations that fails.
abbrev pub freed_by : ℕ → ℕ → ℕ → List ℕ
freed_by t stack cr3 =
    if t == 0 then [] else if stack == 0 then t ∷ [] else if cr3 == 0 then stack ∷ t ∷ [] else []

-- The tables of the new process, or 0.
abbrev pub new_cr3 : ℕ → Spawner → ℕ
new_cr3 kernel_pml4 w = (vmm_create_user_pml4 kernel_pml4 w.vmm).1

with_space-freed :
    (t stack kernel_pml4 : ℕ) (make : ℕ → Spawner → Option Created) (w : Spawner) (r : Created)
    → ((w' : Spawner) (r' : Created) → make t w' ≡ some r' → r'.freed ≡ [])
    → with_space t stack kernel_pml4 make w ≡ some r
    → r.freed ≡ freed_by t stack (new_cr3 kernel_pml4 w)
unfolding with_space task_alloc_base set_task cleared
with_space-freed t stack kernel_pml4 make w r none_freed e = elim (Bool-cases (t == 0)) [
  | inl z ↦ ground arith
  | inr n ↦ elim (Bool-cases (stack == 0)) [
    | inl z ↦ ground arith
    | inr m ↦ elim (Bool-cases (new_cr3 kernel_pml4 w == 0)) [
      | inl z ↦ ground arith
      | inr l ↦ rw (n, m, l) (none_freed _ r (rw (n, m, n, l) at e))
    ]
  ]
]

-- A creation of a process that returns frees a task for which there is no stack, and a task and its
-- stack for which there are no tables. Once it has tables it frees nothing, also where it returns
-- NULL since an area could not be mapped.
pub arch_task_create_user-freed :
    (fuel : ℕ) (new : ℕ → ℕ) (t stack kernel_pml4 entry_point : ℕ) (cpu : Cpu) (w : Spawner)
    (r : Created)
    → arch_task_create_user fuel new t stack kernel_pml4 entry_point cpu w ≡ some r
    → r.freed ≡ freed_by t stack (new_cr3 kernel_pml4 w)
unfolding arch_task_create_user
arch_task_create_user-freed fuel new t stack kernel_pml4 entry_point cpu w r e =
    with_space-freed t stack kernel_pml4 (λ t. map_user fuel new cpu t entry_point) w r
      (λ w' r' e'. map_user-freed fuel new cpu t entry_point w' r' e') e

arch_task_spawn_elf-freed :
    (fuel : ℕ) (new : ℕ → ℕ) (new_heap new_stack t stack kernel_pml4 : ℕ) (image : Image)
    (cpu : Cpu) (w : Spawner) (r : Created)
    → arch_task_spawn_elf fuel new new_heap new_stack t stack kernel_pml4 image cpu w ≡ some r
    → r.freed ≡ freed_by t stack (new_cr3 kernel_pml4 w)
unfolding arch_task_spawn_elf
arch_task_spawn_elf-freed fuel new new_heap new_stack t stack kernel_pml4 image cpu w r e =
    with_space-freed t stack kernel_pml4 (λ t. load_user fuel new new_heap new_stack cpu t image) w
      r (λ w' r' e'. load_user-freed fuel new new_heap new_stack cpu t image w' r' e') e
