-- ===== src/Syscall.antt =====
-- kernel/syscall/syscall.c and syscall_funcs.c: the checks of the pointers of a program, its heap,
-- and the dispatch. `sched_yield` and the switch to another task are parts of the scheduler.
pub mod Range
pub mod Break
mod Tests
use kernel_smp.Base.{
  ℕ, zero, suc, ◌+◌, ◌-◌, ◌*◌, ◌^◌, ◌/◌, Bool, true, false, not, ◌&&◌, ◌||◌, List, [], ◌∷◌, get_or,
  Option, none, some, ltb, leb, ◌==◌, if◌then◌else◌, u64, sub64, page_size, page_align_down,
  page_align_up, align_16,
}
use kernel_smp.Vma.Map.{Space, Status, ok, vma_map}
use kernel_smp.Vma.Unmap.{vma_unmap}

abbrev pub kernel_space_start : ℕ
kernel_space_start = 0xFFFF800000000000

abbrev pub user_space_end : ℕ
user_space_end = 0x00007FFFFFFFFFFF

pub is_user_range : ℕ → ℕ → Bool
is_user_range addr size =
    let end = u64 (addr + size) in
    if ltb user_space_end addr || ltb user_space_end end || ltb end addr then false else true

-- What `sys_kprint` reports, and whether the string is printed.
pub data Printed : Type 0 where
  printed : Printed
  refused : Printed  -- -1
  too_long : Printed  -- -2

-- The loop for the length, from `len` on; `none` when the string has more than 4096 characters.
-- The fuel is the number of characters that may follow.
pub length_from : ℕ → (ℕ → ℕ) → ℕ → ℕ → Option ℕ
length_from zero mem str len = if mem (u64 (str + len)) == 0 then some len else none
length_from (suc n) mem str len =
    let rest = length_from n mem str (suc len) in
    if mem (u64 (str + len)) == 0 then some len else rest

pub sys_kprint : (ℕ → ℕ) → ℕ → Printed
sys_kprint mem str =
    let checked : Printed = elim (length_from 4096 mem str 0) [
      | none ↦ too_long
      | some len ↦ if is_user_range str (len + 1) then printed else refused
    ] in
    if str == 0 then refused else if leb kernel_space_start str then refused else checked

-- The heap of a task.
pub record Heap : Type 0 where
  pub heap_start : ℕ
  pub heap_curr : ℕ
  pub heap_end : ℕ

-- `VMA_READ | VMA_WRITE | VMA_USER | VMA_HEAP`
abbrev pub heap_flags : ℕ
heap_flags = 1 + 2 + 8 + 32

-- The state, and the address that is returned, 0 for a failure. `fuel` and `new` go to `vma_map`.
pub sys_malloc : ℕ → ℕ → ℕ → Heap → Space → Option (Heap × Space × ℕ)
sys_malloc fuel new size h s =
    let aligned_size = align_16 size in
    let needed = sub64 (u64 (h.heap_curr + size)) h.heap_end in
    let aligned_needed = page_align_up needed in
    let extended : Option (Heap × Space × ℕ) =
      elim (vma_map fuel new h.heap_end aligned_needed heap_flags s) [
        | none ↦ none
        | some (s', ok) ↦ some (
          record h {
            heap_curr = u64 (h.heap_curr + aligned_size);
            heap_end = u64 (h.heap_end + aligned_needed);
          },
          s',
          h.heap_curr,
        )
        | some (s', _) ↦ some (h, s', 0)
      ] in
    if size == 0
    then some (h, s, 0)
    else if leb (u64 (h.heap_curr + aligned_size)) h.heap_end
    then some (record h { heap_curr = u64 (h.heap_curr + aligned_size) }, s, h.heap_curr)
    else extended

-- The heap after `sys_free` has lowered the top: what is released to the pages, and the result.
pub shrink : ℕ → Heap → Space → Option (Heap × Space)
shrink fuel h s =
    let gap = sub64 h.heap_end h.heap_curr in
    let to_release = page_align_down (sub64 gap page_size) in
    let start = sub64 h.heap_end to_release in
    let unmap_start = if ltb start h.heap_curr then page_align_up h.heap_curr else start in
    let released : Option (Heap × Space) = elim (vma_unmap fuel unmap_start to_release s) [
      | none ↦ none
      | some (s', ok) ↦ some (record h { heap_end = unmap_start }, s')
      | some (s', _) ↦ some (h, s')
    ] in
    if leb (4 * page_size) gap then released else some (h, s)

pub sys_free : ℕ → ℕ → ℕ → Heap → Space → Option (Heap × Space)
sys_free fuel addr size h s =
    let lowered = shrink fuel (record h { heap_curr = addr }) s in
    if addr == 0 || size == 0
    then some (h, s)
    else if u64 (addr + align_16 size) == h.heap_curr
    then lowered
    else some (h, s)

-- The registers of a frame that the dispatch reads and writes.
pub record Frame : Type 0 where
  pub rax : ℕ
  pub rdi : ℕ
  pub rsi : ℕ

pub data Call : Type 0 where
  kprint : Call
  exit : Call
  get_uptime : Call
  sleep : Call
  yield_cpu : Call
  kbd_ps2 : Call
  kprint_hex : Call
  cpu_id : Call
  malloc : Call
  free : Call
  get_tid : Call
  cpu_count : Call

-- `init_sys_table`
abbrev pub table : List (Option Call)
table =
    none
    ∷ some kprint
    ∷ some exit
    ∷ some get_uptime
    ∷ some sleep
    ∷ some yield_cpu
    ∷ some kbd_ps2
    ∷ some kprint_hex
    ∷ some cpu_id
    ∷ some malloc
    ∷ some free
    ∷ some get_tid
    ∷ some cpu_count
    ∷ none
    ∷ none
    ∷ none
    ∷ none
    ∷ none
    ∷ none
    ∷ none
    ∷ []

-- `beyond` is what lies behind the 20 entries, which no test excludes.
pub sys_table : (ℕ → Option Call) → ℕ → Option Call
sys_table beyond n = if ltb n 20 then get_or table n none else beyond n

-- The state, the frame at `at`, and the frame to return to. A handler gives the state and its
-- result; the result of `sleep` and `exit` is the frame that `schedule` chose.
syscall_handler {ℓ} :
    {S : Type ℓ} → (ℕ → Option Call) → (Call → Frame → S → S × ℕ) → ℕ → Frame → S → S × Frame × ℕ
syscall_handler beyond handle at frame s = elim (sys_table beyond frame.rax) [
  | none ↦ (s, record frame { rax = 2 ^ 64 - 1 }, at)
  | some call ↦
      let (s', res) = handle call frame s in
      if frame.rax == 4 || frame.rax == 2
      then (s', frame, res)
      else (s', record frame { rax = res }, at)
]
