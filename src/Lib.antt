-- ===== src/Lib.antt =====
-- A verification library for the Tiny Virtual Machine Monitor.
--
-- The monitor is started by a Multiboot boot loader. It reads the BIOS's memory map
-- (kernel/e820.c), stashes the guest's image behind its own heap (kernel/setup.c) and builds a
-- bitmap of free page frames (kernel/alloc.c). It identifies the processor and enables its SVM
-- extension (kernel/cpu.c, kernel/svm.c). From the bitmap come the pages of page tables
-- (kernel/page.c) and of the guest's control block (kernel/vmcb.c), which is checked before the
-- guest runs.
--
-- Files and code:
--   Base, Base/*      tests on numbers, words of C, binary digits and masks
--   Memory, Memory/*  bytes at virtual addresses, little-endian words (all of kernel/*.c)
--   CString, CString/*  kernel/string.c: memset, memmove, strcmp, strncmp, strcpy
--   Console, Console/*  kernel/printf.c: putstr, number, vsnprintf, printf
--   Failure           kernel/failure.c: fatal_failure, one constructor for each message
--   Kernel, Kernel/*  the static state of kernel/alloc.c with memory, and commands over it: those
--                     that end, with a failure or not, and those that return
--   Page, Page/*      include/page.h: PAGE_UP, PFN_UP, VIRT and the like
--   Multiboot         include/multiboot.h
--   E820, E820/*      kernel/e820.c: setup_memory_region, get_nr_pages, get_max_pfn, e820_print_map
--   Alloc, Alloc/*    kernel/alloc.c: map_alloc, map_free, naive_allocator_init, alloc_pages
--   Setup, Setup/*    kernel/setup.c up to the processor's identification
--   Bitops, Bitops/*  include/bitops.h: set_bit, clear_bit, test_bit
--   Svm, Svm/*        kernel/svm.c: enable_svm
--   Cpu, Cpu/*        kernel/cpu.c: identify_cpu
--   Start, Start/*    kernel/setup.c: setup_arch, start_vmm, which compose the others
--   Paging, Paging/*  kernel/page.c: mmap, vaddr_to_paddr, print_pg_table, and include/page.h: union pgt_entry
--   Elf, Elf/*        kernel/elf.c: load_elf_image
--   Vm, Vm/*          kernel/vm.c: vm_create, vm_boot
--   VmExit, VmExit/*  include/vmexit.h, kernel/vmexit.c and handle_vmexit of kernel/vm.c
--   Vmcb, Vmcb/*      include/vmcb.h and kernel/vmcb.c: vmcb_check_consistency, vmcb_dump
--
-- State and numbers. Memory is a function from virtual addresses to bytes, as the C code sees it;
-- pointers and `unsigned long` are natural numbers, and arithmetic on them is written modulo 2^64.
-- The allocator's bitmap is in that memory, so a write elsewhere has to be shown to miss it. A
-- command takes the state to a result and a state, to a failure (a call of fatal_failure, after
-- which the machine stops), or to out_of_fuel. A control block is a record beside the memory: its
-- page is cleared and stays allocated, and that a write by some other path changes it is not
-- modelled. Constants are spelled in small letters: PAGE_SIZE is page_size.
--
-- Loops. Counted loops recur on the rounds left. The search of alloc_boot_pages has max_page + 1
-- rounds of fuel, that of setup_memory_region mmap_length + 1, and that of load_elf_image 2^16, as
-- e_phnum has 16 bits; all are shown to be enough. The loops over strings in Console take their fuel
-- as an argument; more than the strings' and the text's lengths is shown to be enough. mmap,
-- vaddr_to_paddr and print_pg_table recur on the level.
--
-- Bounds. Physical addresses are below 2^52, the limit of the processor, and so are page numbers
-- below 2^40, where a theorem says so.
--
-- Mapped memory. boot.S (from line 190 on) maps the first 1 GB of physical memory, to itself and
-- from 0xffff830000000000 on, as the comment at kernel/setup.c:100 says. An access outside it
-- faults in the program; in the model memory is total, and the access just happens. So the
-- theorems on the set-up and on the whole run (Setup, Start) are about machines whose map, module
-- records and module lie below 1 GB, with the kernel before the heap's end; Start/Writes is about
-- where the run writes. Those on a single component say what it does when the accesses that it
-- makes are mapped. The kernel's own code, stack and static data, and the page tables of boot.S,
-- are not modelled, nor is what a write into them would do.
--
-- Parameters: svm_launch, the world switch in assembly; the words that va_arg takes;
-- cpuid.
--
-- Not modelled: what setup.c, cpu.c and vm_boot print beside the reports named above, the inline
-- assembly other than that of memcpy, the hardware.
pub mod Base
pub mod Memory
pub mod CString
pub mod Console
pub mod Bitops
pub mod Failure
pub mod Kernel
pub mod Page
pub mod Multiboot
pub mod E820
pub mod Alloc
pub mod Paging
pub mod Elf
pub mod Vmcb
pub mod Vm
pub mod VmExit
pub mod Svm
pub mod Cpu
pub mod Setup
pub mod Start
