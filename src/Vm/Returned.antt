-- ===== src/Vm/Returned.antt =====
-- `vm_create` returns when a long enough run of pages is free.
use tvmm.Base.{ℕ, zero, suc, ◌+◌, ◌*◌, ◌/◌, ◌%◌, ◌^◌, ◌≤◌, ◌<◌, ◌≡◌, sym, subst, arith, true}
use tvmm.Base.Word.{shr}
use tvmm.Page.{virt, phys, page_shift, pfn_up_2mb, pfn_down_2mb}
use tvmm.Kernel.{NaiveAllocator, State, Kernel, and_then}
use tvmm.Kernel.Laws.{Ends-map}
use tvmm.Kernel.Success.{Succeeds, Succeeds-map, both-Succeeds, and_then-Succeeds}
use tvmm.Alloc.{alloc_pages}
use tvmm.Alloc.Supply.{HasFree, HasFree-later, Supplied, alloc_pages-Supplied}
use tvmm.Paging.{mmap, pml4_table_create}
use tvmm.Paging.Tables.{page_addr, IsAddressable, IsMapped}
use tvmm.Paging.Translate.{IsMmapped, mmap_lem}
use tvmm.Paging.Root.{IsRooted, pml4_table_create-IsRooted}
use tvmm.Paging.Supply.{filled-HasFree, pg_table_create-HasFree, mmap-HasFree}
use tvmm.Vmcb.{Vmcb}
use tvmm.Elf.Bounds.{load_elf_image-ends}
use tvmm.Vm.Block.{alloc_vmcb, create_intercept_table, set_control_area}
use tvmm.Vm.{
  Vm, vm_paddr, pm_paddr, map_pages, alloc_vm_pmem, create_vm_pmem_mapping_table, vm_create,
}
use tvmm.Vm.Nested.{pm_paddr_low}
use tvmm.Vm.Runnable.{IsRunnable, vm_create-IsRunnable}
use tvmm.Elf.Loadable.{IsLoadable}
use tvmm.Paging.Aside.{IsIdle}
use tvmm.Vm.Prepared.{
  IsAfter, HasMemory, alloc_vmcb-IsAfter, create_intercept_table-IsAfter, set_control_area-IsAfter,
  alloc_vm_pmem-HasMemory, pages_fit,
}

module _ (n : NaiveAllocator) (fits : IsAddressable n) (e : ℕ) (inside : e < n.max_page) where
  module _ (role : ℕ → ℕ) (s : State) (ok : IsMapped n role s) (b : ℕ)
      (free : HasFree n b e s) where
    alloc_vmcb-HasFree : b + 1 ≤ e → Succeeds (λ block s'. HasFree n (b + 1) e s') (alloc_vmcb s)
    unfolding alloc_vmcb
    alloc_vmcb-HasFree le =
        and_then-Succeeds
          (Supplied n e inside s ok.same b free 1 1 b (omega arith) (omega arith) le)
          (λ block s'. HasFree n (b + 1) e s') (alloc_pages 1 1 s) _
          (alloc_pages-Supplied n e inside s ok.same b free 1 1 b (omega arith) (omega arith) le
            (omega arith) (omega (arith, fits)))
          (λ pfn s1 (fit, left).
            filled-HasFree n fits e inside role s ok 1 1 pfn 0 4096 (b + 1) s1 (omega arith) fit
              left)

    create_intercept_table-HasFree :
        (nr : ℕ)
        → 0 < nr
        → nr < 2 ^ 20
        → b + nr ≤ e
        → Succeeds (λ p s'. HasFree n (b + nr) e s') (create_intercept_table (nr * 4096) s)
    unfolding create_intercept_table
    create_intercept_table-HasFree nr some few le =
        let pages : shr (nr * 4096) page_shift ≡ nr = omega arith in
        rw pages (
          and_then-Succeeds
            (Supplied n e inside s ok.same b free nr 1 b (omega arith) (omega arith) le)
            (λ p s'. HasFree n (b + nr) e s') (alloc_pages nr 1 s) _
            (alloc_pages-Supplied n e inside s ok.same b free nr 1 b (omega arith) (omega arith) le
              (omega arith) (omega (arith, fits)))
            (λ pfn s1 (fit, left).
              filled-HasFree n fits e inside role s ok nr 1 pfn 0xff (nr * 4096) (b + nr) s1 some
                fit left))

    alloc_vm_pmem-HasFree :
        (size c : ℕ)
        → size < 2 ^ 62
        → c % 2 ^ 9 ≡ 0
        → b ≤ c
        → c + size / 4096 ≤ e
        → Succeeds (λ a s'. HasFree n (c + size / 4096) e s') (alloc_vm_pmem size s)
    unfolding alloc_vm_pmem
    alloc_vm_pmem-HasFree size c short aligned from to =
        and_then-Succeeds
          (Supplied n e inside s ok.same b free (size / 4096) (2 ^ 9) c aligned from to)
          (λ a s'. HasFree n (c + size / 4096) e s') (alloc_pages (shr size 12) (2 ^ 9) s) _
          (alloc_pages-Supplied n e inside s ok.same b free (size / 4096) (2 ^ 9) c aligned from to
            (omega arith) (omega (arith, fits)))
          (λ pfn s1 (fit, left). left)

  set_control_area-HasFree :
      (role : ℕ → ℕ) (s : State) (v : Vmcb) (b : ℕ)
      → IsMapped n role s
      → HasFree n b e s
      → b + 5 ≤ e
      → Succeeds (λ v' s'. HasFree n (b + 5) e s') (set_control_area v s)
  unfolding set_control_area
  set_control_area-HasFree role s v b ok free le =
      and_then-Succeeds (λ p s1. IsAfter n role s s1 × HasFree n (b + 3) e s1)
        (λ v' s'. HasFree n (b + 5) e s') (create_intercept_table (12 * 2 ^ 10) s) _
        (both-Succeeds (λ p s1. IsAfter n role s s1) (λ p s1. HasFree n (b + 3) e s1)
          (create_intercept_table (12 * 2 ^ 10) s)
          (create_intercept_table-IsAfter n fits role s ok 3 (omega arith))
          (create_intercept_table-HasFree role s ok b free 3 (omega arith) (omega arith)
            (omega arith)))
        (λ iopm s1 (first, left).
          and_then-Succeeds (λ p s2. HasFree n (b + 3 + 2) e s2) (λ v' s'. HasFree n (b + 5) e s')
            (create_intercept_table (8 * 2 ^ 10) s1) _
            (create_intercept_table-HasFree first.role s1 first.mapped (b + 3) left 2 (omega arith)
              (omega arith) (omega arith))
            (λ msrpm s2 rest. HasFree-later n e inside (b + 3 + 2) (b + 5) s2 (omega arith) rest))

  module _ (small : n.max_page < 2 ^ 40) (first f : ℕ) where
    -- The forest with the root `f`.
    abbrev HasRoot : State → Type 0
    HasRoot s = (role : ℕ → ℕ) × IsMapped n role s × (role f ≡ 4)

    map_pages-HasFree :
        (left i b : ℕ) (s : State)
        → i + left + first ≤ 1024
        → b + 2 * left ≤ e
        → HasRoot s
        → HasFree n b e s
        → Succeeds (λ u s'. HasFree n (b + 2 * left) e s') (map_pages (page_addr f) first left i s)
    unfolding map_pages
    map_pages-HasFree zero i b s below le rooted free =
        HasFree-later n e inside b (b + 2 * zero) s (omega arith) free
    map_pages-HasFree (suc left) i b s below le (role, ok, level) free =
        let here = mmap (page_addr f) (vm_paddr i) (pm_paddr first i) true s in
        and_then-Succeeds (λ u s1. HasRoot s1 × HasFree n (b + 2) e s1)
          (λ u s'. HasFree n (b + 2 * suc left) e s') here _
          (both-Succeeds (λ u s1. HasRoot s1) (λ u s1. HasFree n (b + 2) e s1) here
            (Ends-map (λ u s1. IsMmapped n (vm_paddr i) (pm_paddr first i) f role s s1)
              (λ u s1. HasRoot s1) here
              (mmap_lem n fits small (vm_paddr i) (pm_paddr first i) true
                (pm_paddr_low first i (omega arith)) role s f ok level)
              (λ u s1 after. (after.role', after.mapped, after.root_level)))
            (mmap-HasFree n fits e inside small (vm_paddr i) (pm_paddr first i) true role s f b ok
              level (omega arith) free))
          (λ u s1 (rooted, rest).
            Succeeds-map (λ u s'. HasFree n (b + 2 + 2 * left) e s')
              (λ u s'. HasFree n (b + 2 * suc left) e s') _
              (map_pages-HasFree left (i + 1) (b + 2) s1 (omega arith) (omega arith) rooted rest)
              (λ u s' last.
                HasFree-later n e inside (b + 2 + 2 * left) (b + 2 * suc left) s' (omega arith)
                  last))

  root-HasFree :
      (role : ℕ → ℕ) (s : State) (b : ℕ)
      → IsMapped n role s
      → b + 1 ≤ e
      → HasFree n b e s
      → Succeeds (λ cr3 s'. HasFree n (b + 1) e s') (pml4_table_create s)
  unfolding pml4_table_create
  root-HasFree role s b ok = pg_table_create-HasFree n fits e inside role s ok b

  module _ (small : n.max_page < 2 ^ 40) where
    create_vm_pmem_mapping_table-HasFree :
        (role : ℕ → ℕ) (s : State) (start size b : ℕ)
        → IsMapped n role s
        → pfn_down_2mb (phys start) + pfn_up_2mb size ≤ 1024
        → b + 1 + 2 * pfn_up_2mb size ≤ e
        → HasFree n b e s
        → Succeeds (λ cr3 s'. Unit {0}) (create_vm_pmem_mapping_table start size s)
    unfolding create_vm_pmem_mapping_table
    create_vm_pmem_mapping_table-HasFree role s start size b ok below le free =
        let first = pfn_down_2mb (phys start) in
        let count = pfn_up_2mb size in
        and_then-Succeeds (λ cr3 s1. IsRooted n role s ok cr3 s1 × HasFree n (b + 1) e s1)
          (λ cr3 s'. Unit {0}) (pml4_table_create s) _
          (both-Succeeds (IsRooted n role s ok) (λ cr3 s1. HasFree n (b + 1) e s1)
            (pml4_table_create s) (pml4_table_create-IsRooted n role s ok fits small)
            (root-HasFree role s b ok (omega arith) free))
          (λ cr3 s1 (new, left).
            let at : virt cr3 ≡ page_addr new.root = omega (arith, new.address, fits, new.below) in
            let Rest = λ (u : Unit {0}) (s' : State). HasFree n (b + 1 + 2 * count) e s' in
            and_then-Succeeds Rest (λ cr3 s'. Unit {0}) (map_pages (virt cr3) first count 0 s1) _
              (subst (λ t. Succeeds Rest (map_pages t first count 0 s1)) (sym at)
                (map_pages-HasFree small first new.root count 0 (b + 1) s1 (omega arith)
                  (omega arith) (new.role', new.mapped, new.root_level) left))
              (λ u s2 rest. tt))

module _ (n : NaiveAllocator) (low : n.max_page ≤ 2 ^ 19) (role0 : ℕ → ℕ) (s0 : State)
    (image image_size size : ℕ) (short : size < 2 ^ 62) (ok : IsMapped n role0 s0) (b c e : ℕ)
    (inside : e < n.max_page) (aligned : c % 2 ^ 9 ≡ 0) (first_pages : b + 6 ≤ c)
    (last_pages : c + size / 4096 + 1 + 2 * pfn_up_2mb size ≤ e) (free : HasFree n b e s0) where
  fits : IsAddressable n
  fits = omega arith

  -- The guest's memory begins at `start`, and enough pages are left for its page table.
  rest-Succeeds :
      (role : ℕ → ℕ) (s2 : State) (start : ℕ) (s3 : State)
      → HasMemory n role s2 size start s3
      → HasFree n (c + size / 4096) e s3
      → {A : Type 0} (k : ℕ → Kernel A)
      → ((cr3 : ℕ) (s4 : State) → Succeeds (λ a s. Unit {0}) (k cr3 s4))
      → Succeeds (λ a s. Unit {0}) (and_then (create_vm_pmem_mapping_table start size s3) k)
  rest-Succeeds role s2 start s3 memory left k next =
      and_then-Succeeds (λ cr3 s. Unit {0}) (λ a s. Unit {0})
        (create_vm_pmem_mapping_table start size s3) k
        (create_vm_pmem_mapping_table-HasFree n fits e inside (omega arith) memory.after.role s3
          start size (c + size / 4096) memory.after.mapped (pages_fit n low size start s3 memory)
          last_pages left)
        (λ cr3 s4 any. next cr3 s4)

  vm_create-HasFree : Succeeds (λ vm s. Unit {0}) (vm_create image image_size size s0)
  unfolding vm_create
  vm_create-HasFree =
      let Result = λ (vm : Vm) (s : State). Unit {0} in
      and_then-Succeeds (λ block s1. IsAfter n role0 s0 s1 × HasFree n (b + 1) e s1) Result
        (alloc_vmcb s0) _
        (both-Succeeds (λ block s1. IsAfter n role0 s0 s1) (λ block s1. HasFree n (b + 1) e s1)
          (alloc_vmcb s0) (alloc_vmcb-IsAfter n fits role0 s0 ok)
          (alloc_vmcb-HasFree n fits e inside role0 s0 ok b free (omega arith)))
        (λ block s1 (first, left1).
          and_then-Succeeds (λ v s2. IsAfter n first.role s1 s2 × HasFree n (b + 1 + 5) e s2) Result
            (set_control_area block.1 s1) _
            (both-Succeeds (λ v s2. IsAfter n first.role s1 s2) (λ v s2. HasFree n (b + 1 + 5) e s2)
              (set_control_area block.1 s1)
              (set_control_area-IsAfter n fits first.role s1 block.1 first.mapped)
              (set_control_area-HasFree n fits e inside first.role s1 block.1 (b + 1) first.mapped
                left1 (omega arith)))
            (λ vmcb s2 (second, left2).
              and_then-Succeeds
                (λ start s3.
                  HasMemory n second.role s2 size start s3 × HasFree n (c + size / 4096) e s3)
                Result (alloc_vm_pmem size s2) _
                (both-Succeeds (HasMemory n second.role s2 size)
                  (λ start s3. HasFree n (c + size / 4096) e s3) (alloc_vm_pmem size s2)
                  (alloc_vm_pmem-HasMemory n fits second.role s2 second.mapped size short)
                  (alloc_vm_pmem-HasFree n fits e inside second.role s2 second.mapped (b + 1 + 5)
                    left2 size c short aligned (omega arith) (omega arith)))
                (λ start s3 (memory, left3).
                  rest-Succeeds second.role s2 start s3 memory left3 _ (λ cr3 s4.
                    let (s5, run, same) = load_elf_image-ends image image_size start s4 in
                    rw run tt))))

-- If the page tables are well formed, there are at most 2^19 frames, the guest is given 0x206000
-- bytes or more and fewer than 2^62, its image, whose headers and segments lie in it and in that
-- memory, lies behind the bitmap in frames that are neither in use nor free, and the pages from `b`
-- to `e`, below the allocator's limit, are free, six of them before a multiple `c` of 512, and from
-- there on those of the guest's memory, one more, and two for each 2 Mbytes of it: `vm_create`
-- returns. Through the machine's page table each address of its memory is one of the host's, the
-- guest's own page table maps its first 4 Mbytes to themselves, the bytes of the image are at their
-- addresses from 2 Mbytes on, outside the three frames from 0x203000 on, and execution begins at
-- the image's entry point.
pub vm_create-Succeeds :
    (n : NaiveAllocator) (low : n.max_page ≤ 2 ^ 19) (role0 : ℕ → ℕ) (s0 : State)
    (image image_size size : ℕ)
    → 0x20_6000 ≤ size
    → size < 2 ^ 62
    → IsLoadable s0.mem image image_size (size / 4096 * 4096)
    → IsIdle n role0 s0 image (image + image_size)
    → IsMapped n role0 s0
    → (b c e : ℕ) → e < n.max_page
    → c % 2 ^ 9 ≡ 0
    → b + 6 ≤ c
    → c + size / 4096 + 1 + 2 * pfn_up_2mb size ≤ e
    → HasFree n b e s0
    → Succeeds (IsRunnable s0.mem image size) (vm_create image image_size size s0)
vm_create-Succeeds n low role0 s0 image image_size size large short loadable idle ok b c e inside
      aligned first_pages last_pages free =
    let run = vm_create image image_size size s0 in
    Succeeds-map (λ vm s. IsRunnable s0.mem image size vm s × Unit {0})
      (IsRunnable s0.mem image size) run
      (both-Succeeds (IsRunnable s0.mem image size) (λ vm s. Unit {0}) run
        (vm_create-IsRunnable n low role0 s0 image image_size size large short loadable idle ok)
        (vm_create-HasFree n low role0 s0 image image_size size short ok b c e inside aligned
          first_pages last_pages free))
      (λ vm s both. both.0)
