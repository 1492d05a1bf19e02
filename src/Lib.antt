-- ===== src/Lib.antt =====
-- Verification of the Lume kernel (the new architecture under na/).
--
-- Common: the names shared by all files. Word and Word/Bits: `uint64` arithmetic as natural numbers
-- below 2 ^ 64 with every wrap written out, and the rounding idiom `x & ~(align - 1)`.
-- Addr (na/include/lume/addr.h): page rounding and address conversions.
-- Memblock (na/mm/memblock.cc): the boot-time allocator. Its global `g_mb` is the record `Memblock`,
-- with the array `reserved` and its count as a list; `kernel_panic`, which does not return, is the
-- outcome `panic`. Loops that search for a slot take fuel: `memblock_alloc_top` starts with more
-- than the first address, which falls by the alignment, and `memblock_alloc` with more than the end
-- of RAM, below which its growing start stays; the theorems show that neither runs out.
-- Bitops (na/include/lume/bitops.h): counts of zeros, first and last bits, logarithms,
-- whose shifts of a running value and its count are single steps.
-- Sched (na/kernel/sched_internal.h, sched_class_o1.cc and sched_core.cc): one CPU's run queue with
-- its two scheduling classes. A task is a number into a store; the intrusive lists are lists of
-- their members. Critical sections are single steps, and a null dereference is `none`.
-- Sched/Core has `schedule` and its callers; Sched/Queue and Sched/Pick are about the run queue,
-- Sched/PutBack, Sched/Switch and Sched/Schedule about `schedule`, Sched/Ticks about time slices,
-- Sched/Wake about tasks that are woken and taken out.
-- Pid (na/kernel/pid.cc): the PID allocator, its bitmap a function of the index; Pid/Scan is about
-- the first zero bit of a word, Pid/Alloc and Pid/Free about the two operations. The inner loop has
-- fuel 64, the width of a word, and the outer one as many passes as there are words.
-- Vma (na/mm/vma.cc): the areas of an address space, the red-black tree as the list of its areas in
-- order. Vma/Areas reads such a list as a map from addresses to permissions; Vma/Map, Vma/Walk and
-- Vma/Unmap, Vma/Find, Vma/Covered and Vma/Protect are about the operations, Vma/Release about the
-- page loops. The pages under Vma/Protect have laws of their own, `ProtectionLaws`
-- (Vma/Protect/Laws), on which Vma/Protect/Walk rests; Vma/Protect/Flags is about the flags,
-- Vma/Protect/Permitted about the pages, Vma/Protect/Areas about the areas, and Vma/Protect/Outcome
-- about the whole. The page tables and the pages' counts are a record of operations, `Pages`, with
-- laws, `PagesLaws`, that stand for na/arch/riscv/mm/pmap.cc and hold for Pmap and Pmm (Pmap/Pages,
-- Pmap/Protects) among the first 2 ^ 39 addresses. Null spaces, which every operation refuses, are left out.
-- SysMm (na/kernel/sys_mm.cc): brk, mmap, munmap and mprotect on top of Vma; SysMm/Brk and
-- SysMm/Mmap are about the first two.
-- Pmm (na/mm/pmm.cc): the buddy allocator and the page cache of the processor that runs. A page is its
-- number, a free list the list of its members (Common/Queues), and the buddy's number is computed by
-- `bit_xor` (Word/Xor). Pmm/Blocks is about aligned blocks, Pmm/Buddy says when lists, page descriptors
-- and the blocks that are handed out fit together, Pmm/Split, Pmm/Alloc and Pmm/Take are about
-- `buddy_alloc`, Pmm/Join, Pmm/Merge and Pmm/Release about `buddy_free`, Pmm/Cache, Pmm/Refill and
-- Pmm/Drain about the cache, Pmm/Serve, Pmm/Calls, Pmm/Runs and Pmm/Counts about the calls, and
-- Pmm/Feed, Pmm/Init and Pmm/Boot about the start from Memblock. The loops run over the 11 orders, over
-- the batch or the cache, or over at most the pages of a region.
-- Pmap (na/arch/riscv/mm/pmap.cc): the page tables as a store from a table's address and an index to an
-- entry; new tables come from Memblock or Pmm. Pmap/Bits is about the fields of an entry, Pmap/Shape says
-- when the tables are a tree, Pmap/Leaf and Pmap/Edit are about the operations that read or write a leaf,
-- Pmap/Grow, Pmap/Fresh, Pmap/Map and Pmap/Install about `map`, Pmap/Perm about permissions and Pmap/Wrap
-- about addresses beyond the 39 bits, Pmap/Shared about copy-on-write marks under Vma/Protect. Flushes
-- of the TLB and the activation of a table are left out.
-- Not modelled: console output, and the parts of the kernel that the manifest lists as such.
pub mod Common
pub mod Word
pub mod Addr
pub mod Bitops
pub mod Memblock
pub mod Sched
pub mod Pid
pub mod Vma
pub mod SysMm
pub mod Pmm
pub mod Pmap
