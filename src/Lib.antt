-- ===== src/Lib.antt =====
-- Kernel-SMP: a kernel for x86-64 with several CPUs. This library models the parts of it that decide
-- who gets memory, who runs and what a program may touch, and proves what they promise.
--
-- The parts, and the files of the kernel they model:
--   Base        numbers, words of 64 and 32 bits, bytes, and the Boolean tests; no file of the kernel.
--   Pmm         kernel/memory/pmm.c: the bitmap of the frames. A call runs under `pmm_lock_`, so it is
--               one function from the bitmap, and the hint of the calling CPU, to both.
--   Spinlock    kernel/atomic/atomic.c, `spin_lock`, `spin_trylock`, `spin_unlock`: a step for every
--               access to the shared words, by any CPU, in any order.
--   Mutex       kernel/atomic/atomic.c, `mutex_lock` and `mutex_unlock`: an operation under
--               `wait_lock` is a function.
--   Task        kernel/include/sched, kernel/include/cpu/cpu.h: tasks and the context of a CPU.
--   RunQueue    kernel/sched/sched.c: the queues of a CPU, stealing, and the boost of priorities.
--   Sched       kernel/sched/sched.c: sleeping, blocking and waking, `schedule`, exit and the reaper,
--               and the ring of all tasks.
--   Spawn       kernel/arch/x86_64/sched/context.c: new tasks and processes. A task is entered in the
--               ring of Sched and in a queue of RunQueue; a process has tables of Vmm and areas of Vma.
--   Vmm         kernel/memory/vmm.c: the four levels of page tables. Vmm takes frames from Pmm.
--   Vma         kernel/memory/vma.c: the areas of a task, a red-black tree and a list. A mapping takes
--               frames from Pmm and is entered by Vmm.
--   Keyboard    kernel/arch/x86_64/drivers/ps2/ps2_kbd.c: the machine of the scancodes, and the buffer.
--   Log         kernel/arch/x86_64/serial.c: the log. Ring is the view that both buffers share.
--   Slab        kernel/memory/slab.c: pages of objects of one size, in three lists for each cache. A new
--               page is a frame of Pmm.
--   Kmalloc     kernel/memory/kmalloc.c: the list of blocks, and the choice between it and Slab. The
--               list grows by frames of Pmm.
--   Strings     common/std_funcs.c, over a memory of bytes.
--   Tar         kernel/fs/initrd.c: the lookup of a file.
--   Syscall     kernel/syscall/syscall.c and syscall_funcs.c: checks, the heap of a task, and dispatch.
--   Elf         kernel/fs/elf.c: the loader of programs, over the areas of Vma.
--   Vfs         kernel/fs/vfs.c: paths, mounts, and the locks of the nodes.
--   Io          common/io.c: numbers and formats as lists of characters.
--   Desc        kernel/arch/x86_64/idt.c and gdt.c: the descriptors, and the dispatch of interrupts to
--               Sched and Keyboard.
--   Acpi        kernel/arch/x86_64/acpi.c, and the loop of kernel/smp/smp.c over the MADT.
--   Tests       concrete states; other tests stand beside their component.
--
-- A name of the kernel is kept, with a leading underscore dropped. An operation that changes state
-- takes the state and returns the new one. A pointer is a number, 0 is NULL, and what it points to is
-- a function from numbers. A failure that the kernel reports is a value of the result; a panic, or a
-- read through NULL, is `none`.
--
-- A loop over a linked structure runs on fuel, and `none` is fuel that is used up. `vma_find` is given
-- a round for each level of the tree and one more, `tar_lookup` a round for each 512 bytes and one
-- more, `strcmp` a round for each character, and the search for a free block a round for each block and
-- one more; with these they end. Loops over a range count down.
-- The fuel of the wake-up, of the sleepers and of the reaper bounds the length of their lists. The copy
-- of a segment has a round for each byte, `tmp` of the formatted output one for each of its 65 bytes,
-- and the walk over the MADT a round for each entry and one more; with these they end.
--
-- The steps of the spinlock are counted, and below `2 ^ 32` of them, so that no ticket wraps. The
-- physical memory lies below `2 ^ 40`, the addresses that the kernel keeps in an entry.
--
-- An operation of the heap and of a cache is one step, though `kmalloc` lets go of its lock while it
-- takes frames. A freed object is known by its first word, the link to the next free one.
--
-- What the code calls outside of a component is an argument or a result: what `kmalloc` returns to the
-- creation of a task, the functions of a driver and `strtok_r` in Vfs, the calls of `kfree` and of
-- `memcpy`, the locks that Vfs takes.
--
-- Not modelled: the dump of the heap, the boot loader, the set-up of the tables at boot, and what only
-- writes to a device: the interrupt controllers, the timers, the start of the other CPUs, and the
-- caches of the translations.
pub mod Base
pub mod Pmm
pub mod Spinlock
pub mod Task
pub mod RunQueue
pub mod Sched
pub mod Mutex
pub mod Vmm
pub mod Vma
pub mod Ring
pub mod Keyboard
pub mod Syscall
pub mod Log
pub mod Strings
pub mod Tar
pub mod Kmalloc
pub mod Slab
pub mod Elf
pub mod Acpi
pub mod Io
pub mod Vfs
pub mod Desc
pub mod Spawn
pub mod Tests
