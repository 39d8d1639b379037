-- ===== src/Vm/Nested.antt =====
-- kernel/vm.c: the page table that maps the guest's memory to the host's.
use tvmm.Base.{
  ℕ, zero, suc, ◌+◌, ◌*◌, ◌/◌, ◌^◌, ◌≤◌, ◌<◌, ◌≡◌, ◌≢◌, sym, ap, subst, ◌∙◌, arith, true, ◌==◌,
  if◌then◌else◌, Bool-cases, inl, inr,
}
use tvmm.Page.{virt, phys, pfn_up_2mb, pfn_down_2mb}
use tvmm.Kernel.{NaiveAllocator, State, done}
use tvmm.Kernel.Laws.{EndsOr, Ends-EndsOr, Ends, Ends-map, and_then-Ends}
use tvmm.Failure.{out_of_pages}
use tvmm.Paging.Bounds.{Allocates, and_then-Allocates, pg_table_create-Allocates, mmap-Allocates}
use tvmm.Paging.{pg_table_create, mmap, pml4_table_create, vaddr_to_paddr}
use tvmm.Paging.Tables.{page_addr, IsAddressable, IsMapped}
use tvmm.Paging.Protect.{Protects, Protects-trans}
use tvmm.Paging.Translate.{IsMmapped, mmap_lem}
use tvmm.Paging.Root.{IsRooted, pml4_table_create-IsRooted}
use tvmm.Vm.{vm_paddr, pm_paddr, map_pages, create_vm_pmem_mapping_table}

-- Where the host keeps the guest's address `a`: the first 2 Mbytes are the host's own, the others
-- lie behind the frame `first`.
abbrev pub host_addr : ℕ → ℕ → ℕ
host_addr first a = if a / 2 ^ 21 == 0 then a else first * 2 ^ 21 + a

vm_paddr-lem : (i : ℕ) → i < 1024 → vm_paddr i ≡ i * 2 ^ 21
unfolding vm_paddr
vm_paddr-lem i lt = ground arith

pm_paddr-lem :
    (first i : ℕ) → i + first < 1024 → pm_paddr first i ≡ (if i == 0 then 0 else first + i) * 2 ^ 21
unfolding pm_paddr
pm_paddr-lem first i lt = ground arith

pub pm_paddr_low : (first i : ℕ) → i + first < 1024 → pm_paddr first i < 2 ^ 31
unfolding pm_paddr
pm_paddr_low first i lt = ground arith

module _ (n : NaiveAllocator) (fits : IsAddressable n) (small : n.max_page < 2 ^ 40) (first f : ℕ)
    (role0 : ℕ → ℕ) (s0 : State) where
  -- The guest's addresses below page `i` are translated at the root `f`.
  record IsMappedTo (i : ℕ) (s : State) : Type 0 where
    role : ℕ → ℕ
    mapped : IsMapped n role s
    protects : Protects n role0 s0 role s
    root_level : role f ≡ 4
    translates :
        (a : ℕ) → a < i * 2 ^ 21 → vaddr_to_paddr (page_addr f) a s ≡ done (host_addr first a) s

  next-IsMappedTo :
      (i : ℕ) (s s' : State)
      → i + first < 1024
      → (before : IsMappedTo i s) → IsMmapped n (vm_paddr i) (pm_paddr first i) f before.role s s'
      → IsMappedTo (i + 1) s'
  next-IsMappedTo i s s' lt before after =
      let from = vm_paddr-lem i (omega arith) in
      let to = pm_paddr-lem first i lt in
      record {
        role = after.role';
        mapped = after.mapped;
        protects = Protects-trans n role0 s0 before.protects after.protects;
        root_level = after.root_level;
        translates = λ a below. elim (Bool-cases (a / 2 ^ 21 == i)) [
          | inl here ↦
              let page : a / 2 ^ 21 ≡ i = ground arith in
              after.translates a (omega arith) ∙ ap (λ t. done t s') (ground arith)
          | inr there ↦
              let page : a / 2 ^ 21 ≢ i = ground arith in
              after.others a (host_addr first a) (omega arith) (before.translates a (omega arith))
        ];
      }

  map_pages-IsMappedTo :
      (last left i : ℕ) (s : State)
      → i + left ≡ last
      → last + first ≤ 1024
      → IsMappedTo i s
      → Ends (λ u s'. IsMappedTo last s') (map_pages (page_addr f) first left i s)
  unfolding map_pages
  map_pages-IsMappedTo last zero i s sum le before =
      subst (λ t. IsMappedTo t s) (omega (arith, sum)) before
  map_pages-IsMappedTo last (suc left) i s sum le before =
      and_then-Ends (λ u s'. IsMmapped n (vm_paddr i) (pm_paddr first i) f before.role s s')
        (λ u s'. IsMappedTo last s') (mmap (page_addr f) (vm_paddr i) (pm_paddr first i) true s) _
        (mmap_lem n fits small (vm_paddr i) (pm_paddr first i) true
          (pm_paddr_low first i (omega arith)) before.role s f before.mapped before.root_level)
        (λ u s1 after.
          map_pages-IsMappedTo last left (i + 1) s1 (omega arith) le
            (next-IsMappedTo i s s1 (omega arith) before after))

-- The tables are made, unless no page is left.
module _ (n : NaiveAllocator) (small : n.max_page < 2 ^ 52) where
  map_pages-Allocates :
      (left pml4 first i : ℕ) (s : State)
      → s.nalloc ≡ n
      → Allocates n (map_pages pml4 first left i s)
  unfolding map_pages
  map_pages-Allocates zero pml4 first i s same = same
  map_pages-Allocates (suc left) pml4 first i s same =
      and_then-Allocates n (mmap pml4 (vm_paddr i) (pm_paddr first i) true s) _
        (mmap-Allocates n small pml4 (vm_paddr i) (pm_paddr first i) true s same)
        (λ u s1 same1. map_pages-Allocates left pml4 first (i + 1) s1 same1)

  pub create_vm_pmem_mapping_table-Allocates :
      (s : State) (start size : ℕ)
      → s.nalloc ≡ n
      → Allocates n (create_vm_pmem_mapping_table start size s)
  unfolding create_vm_pmem_mapping_table pml4_table_create
  create_vm_pmem_mapping_table-Allocates s start size same =
      let first = pfn_down_2mb (phys start) in
      and_then-Allocates n (pg_table_create s) _ (pg_table_create-Allocates n small s same)
        (λ cr3 s1 same1.
          and_then-Allocates n (map_pages (virt cr3) first (pfn_up_2mb size) 0 s1) _
            (map_pages-Allocates (pfn_up_2mb size) (virt cr3) first 0 s1 same1)
            (λ u s2 same2. same2))

-- `cr3` maps the guest's memory of `size` bytes at `start`: every address below it, rounded up to 2
-- Mbytes, is translated to the host address that the guest is given for it.
abbrev pub IsNested : ℕ → ℕ → ℕ → State → Type 0
IsNested start size cr3 s =
    (a : ℕ)
    → a < pfn_up_2mb size * 2 ^ 21
    → vaddr_to_paddr (virt cr3) a s ≡ done (host_addr (pfn_down_2mb (phys start)) a) s

-- The machine's page table, in the forest that has grown from the tables `role0` of `s0`.
pub record HasNested (n : NaiveAllocator) (role0 : ℕ → ℕ) (s0 : State) (start size cr3 : ℕ)
    (s : State) : Type 0 where
  pub role : ℕ → ℕ
  pub mapped : IsMapped n role s
  pub protects : Protects n role0 s0 role s
  pub root : ℕ
  pub address : virt cr3 ≡ page_addr root
  pub root_level : role root ≡ 4
  pub nested : IsNested start size cr3 s

module _ (n : NaiveAllocator) (fits : IsAddressable n) (small : n.max_page < 2 ^ 40) where
  pub create_vm_pmem_mapping_table-HasNested :
      (role : ℕ → ℕ) (s : State) (start size : ℕ)
      → IsMapped n role s
      → pfn_down_2mb (phys start) + pfn_up_2mb size ≤ 1024
      → Ends (HasNested n role s start size) (create_vm_pmem_mapping_table start size s)
  unfolding create_vm_pmem_mapping_table
  create_vm_pmem_mapping_table-HasNested role s start size ok le =
      let first = pfn_down_2mb (phys start) in
      let count = pfn_up_2mb size in
      let Found = HasNested n role s start size in
      and_then-Ends (IsRooted n role s ok) Found (pml4_table_create s) _
        (pml4_table_create-IsRooted n role s ok fits small)
        (λ cr3 s1 new.
          let at : virt cr3 ≡ page_addr new.root = omega (arith, new.address) in
          let Done = IsMappedTo n fits small first new.root role s count in
          and_then-Ends (λ u s'. Done s') Found (map_pages (virt cr3) first count 0 s1) _
            (subst (λ t. Ends (λ u s'. Done s') (map_pages t first count 0 s1)) (sym at)
              (map_pages-IsMappedTo n fits small first new.root role s count count 0 s1
                (omega arith) (omega arith)
                (record {
                  role = new.role';
                  mapped = new.mapped;
                  protects = new.protects;
                  root_level = new.root_level;
                  translates = λ a below. absurd (omega arith);
                })))
            (λ u s2 all. record {
              role = all.role;
              mapped = all.mapped;
              protects = all.protects;
              root = new.root;
              address = at;
              root_level = all.root_level;
              nested = λ a below. ap (λ t. vaddr_to_paddr t a s2) at ∙ all.translates a below;
            }))

  -- In a state whose page tables are well-formed, with addressable frames and less than 2^40 of
  -- them, and where the frames of 2 Mbytes below the guest's memory and those of it are 1024 at
  -- most: `create_vm_pmem_mapping_table` ends. It stops with the allocator's failure
  -- `alloc_boot_pages`, with no other, or returns a table in which each guest address below the memory's size, rounded up to 2 Mbytes, is
  -- translated: an address of the first 2 Mbytes to itself, any other to the same offset behind
  -- the 2-Mbyte frame where the guest's memory begins.
  pub create_vm_pmem_mapping_table-IsNested :
      (role : ℕ → ℕ) (s : State) (start size : ℕ)
      → IsMapped n role s
      → pfn_down_2mb (phys start) + pfn_up_2mb size ≤ 1024
      → EndsOr out_of_pages (IsNested start size) (create_vm_pmem_mapping_table start size s)
  create_vm_pmem_mapping_table-IsNested role s start size ok le =
      let run = create_vm_pmem_mapping_table start size s in
      Ends-EndsOr out_of_pages (IsNested start size) (λ cr3 s'. s'.nalloc ≡ n) run
        (Ends-map (HasNested n role s start size) (IsNested start size) run
          (create_vm_pmem_mapping_table-HasNested role s start size ok le)
          (λ cr3 s' has. has.nested))
        (create_vm_pmem_mapping_table-Allocates n (omega (arith, small)) s start size ok.same)
