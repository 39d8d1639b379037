-- ===== src/Vm/Prepared.antt =====
-- What the allocations of `vm_create` leave: page tables as before, and memory for the guest.
use tvmm.Base.{ℕ, ◌+◌, ◌*◌, ◌/◌, ◌%◌, ◌^◌, ◌≤◌, ◌<◌, ◌≡◌, ap, ◌∙◌, arith}
use tvmm.Base.Word.{shl64, shr}
use tvmm.CString.{memset}
use tvmm.CString.Laws.{memset_lem}
use tvmm.Page.{virt, phys, page_shift, pfn_up_2mb, pfn_down_2mb}
use tvmm.Kernel.{NaiveAllocator, State}
use tvmm.Kernel.Laws.{Ends, and_then-Ends}
use tvmm.Alloc.{alloc_pages}
use tvmm.Paging.Tables.{page_addr, IsAddressable, IsMapped}
use tvmm.Paging.Protect.{Protects, Protects-trans}
use tvmm.Paging.Aside.{range-IsAside, Aside-IsMapped, Aside-Protects}
use tvmm.Paging.Given.{IsGiven, alloc_pages-IsGiven}
use tvmm.Vmcb.{Vmcb}
use tvmm.Vm.Block.{alloc_vmcb, create_intercept_table, set_control_area}
use tvmm.Vm.{alloc_vm_pmem}

-- Well-formed page tables, grown from those of `role0` in `s0`.
pub record IsAfter (n : NaiveAllocator) (role0 : ℕ → ℕ) (s0 s : State) : Type 0 where
  pub role : ℕ → ℕ
  pub mapped : IsMapped n role s
  pub protects : Protects n role0 s0 role s

pub IsAfter-trans :
    (n : NaiveAllocator) {role0 : ℕ → ℕ} {s0 s1 s2 : State} (first : IsAfter n role0 s0 s1)
    → IsAfter n first.role s1 s2
    → IsAfter n role0 s0 s2
IsAfter-trans n {role0} {s0} first second = record {
  role = second.role;
  mapped = second.mapped;
  protects = Protects-trans n role0 s0 first.protects second.protects;
}

-- The guest's memory of `size` bytes begins at `start`.
pub record HasMemory (n : NaiveAllocator) (role0 : ℕ → ℕ) (s0 : State) (size start : ℕ) (s : State)
    : Type 0 where
  pub after : IsAfter n role0 s0 s
  pub pfn : ℕ
  pub at : start ≡ page_addr pfn
  pub aligned : pfn % 2 ^ 9 ≡ 0
  pub within : pfn + size / 4096 < n.max_page
  pub given : (f : ℕ) → pfn ≤ f → f < pfn + size / 4096 → after.role f ≡ 1

pub HasMemory-after :
    (n : NaiveAllocator) {role0 : ℕ → ℕ} {s0 s1 s2 : State} (size start : ℕ)
    (first : IsAfter n role0 s0 s1)
    → HasMemory n first.role s1 size start s2
    → HasMemory n role0 s0 size start s2
HasMemory-after n {role0} {s0} size start first memory = record {
  after = record {
    role = memory.after.role;
    mapped = memory.after.mapped;
    protects = Protects-trans n role0 s0 first.protects memory.after.protects;
  };
  pfn = memory.pfn;
  at = memory.at;
  aligned = memory.aligned;
  within = memory.within;
  given = memory.given;
}

-- With at most 2^19 frames, the memory lies below 2 GB.
module _ (n : NaiveAllocator) (low : n.max_page ≤ 2 ^ 19) {role0 : ℕ → ℕ} {s0 : State}
    (size start : ℕ) (s : State) (memory : HasMemory n role0 s0 size start s) where
  pub start_page : pfn_down_2mb (phys start) ≡ memory.pfn / 2 ^ 9
  unfolding pfn_down_2mb
  start_page = omega (arith, memory.at, memory.aligned, memory.within)

  pub pages_fit : pfn_down_2mb (phys start) + pfn_up_2mb size ≤ 1024
  unfolding pfn_down_2mb pfn_up_2mb
  pages_fit = omega (arith, start_page, memory.aligned, memory.within)

module _ (n : NaiveAllocator) (fits : IsAddressable n) where
  module _ (role : ℕ → ℕ) (s : State) (ok : IsMapped n role s) where
    -- Frames are given to data, and filled.
    pub fill-IsAfter :
        (nr align pfn c : ℕ) (s1 : State)
        → IsGiven n role s nr align pfn s1
        → IsAfter n role s
            (record s1 { mem = memset s1.mem (virt (shl64 pfn page_shift)) c (nr * 4096) })
    fill-IsAfter nr align pfn c s1 new =
        let at : virt (shl64 pfn page_shift) ≡ page_addr pfn = omega (arith, fits, new.within) in
        let s2 : State = record s1 {
          mem = memset s1.mem (virt (shl64 pfn page_shift)) c (nr * 4096);
        } in
        let aside = range-IsAside n new.role' s1 s2 pfn nr new.mapped.same new.given (λ x out.
          ap (λ v. v % 256)
            (memset_lem (nr * 4096) s1.mem (virt (shl64 pfn page_shift)) c x
              ∙ ground (arith, at, out))) in
        record {
          role = new.role';
          mapped = Aside-IsMapped n new.role' s1 s2 new.mapped aside;
          protects =
              Protects-trans n role s new.protects
                (Aside-Protects n new.role' s1 s2 new.mapped aside);
        }

    pub alloc_vmcb-IsAfter : Ends (λ block s'. IsAfter n role s s') (alloc_vmcb s)
    unfolding alloc_vmcb
    alloc_vmcb-IsAfter =
        and_then-Ends (IsGiven n role s 1 1) (λ block s'. IsAfter n role s s') (alloc_pages 1 1 s) _
          (alloc_pages-IsGiven n role s ok 1 1 (omega arith) (omega (arith, fits)))
          (λ pfn s1 new. fill-IsAfter 1 1 pfn 0 s1 new)

    pub create_intercept_table-IsAfter :
        (nr : ℕ)
        → nr < 2 ^ 20
        → Ends (λ p s'. IsAfter n role s s') (create_intercept_table (nr * 4096) s)
    unfolding create_intercept_table
    create_intercept_table-IsAfter nr few =
        let pages : shr (nr * 4096) page_shift ≡ nr = omega arith in
        rw pages (
          and_then-Ends (IsGiven n role s nr 1) (λ p s'. IsAfter n role s s') (alloc_pages nr 1 s) _
            (alloc_pages-IsGiven n role s ok nr 1 (omega arith) (omega (arith, fits)))
            (λ pfn s1 new. fill-IsAfter nr 1 pfn 0xff s1 new))

    pub alloc_vm_pmem-HasMemory :
        (size : ℕ) → size < 2 ^ 62 → Ends (HasMemory n role s size) (alloc_vm_pmem size s)
    unfolding alloc_vm_pmem
    alloc_vm_pmem-HasMemory size short =
        and_then-Ends (IsGiven n role s (size / 2 ^ 12) (2 ^ 9)) (HasMemory n role s size)
          (alloc_pages (shr size 12) (2 ^ 9) s) _
          (alloc_pages-IsGiven n role s ok (size / 2 ^ 12) (2 ^ 9) (omega arith)
            (omega (arith, fits)))
          (λ pfn s1 new. record {
            after = record { role = new.role'; mapped = new.mapped; protects = new.protects };
            pfn = pfn;
            at = omega (arith, fits, new.within);
            aligned = new.aligned;
            within = new.within;
            given = new.given;
          })

  pub set_control_area-IsAfter :
      (role : ℕ → ℕ) (s : State) (v : Vmcb)
      → IsMapped n role s
      → Ends (λ v' s'. IsAfter n role s s') (set_control_area v s)
  unfolding set_control_area
  set_control_area-IsAfter role s v ok =
      and_then-Ends (λ p s'. IsAfter n role s s') (λ v' s'. IsAfter n role s s')
        (create_intercept_table (12 * 2 ^ 10) s) _
        (create_intercept_table-IsAfter role s ok 3 (omega arith))
        (λ iopm s1 first.
          and_then-Ends (λ p s'. IsAfter n first.role s1 s') (λ v' s'. IsAfter n role s s')
            (create_intercept_table (8 * 2 ^ 10) s1) _
            (create_intercept_table-IsAfter first.role s1 first.mapped 2 (omega arith))
            (λ msrpm s2 second. IsAfter-trans n first second))
