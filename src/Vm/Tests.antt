-- ===== src/Vm/Tests.antt =====
-- A machine of 4 MB on 4096 free page frames.
use tvmm.Base.{ℕ, ◌+◌, ◌^◌, refl, arith}
use tvmm.Page.{vmm_offset, pfn_down_2mb, pfn_up_2mb}
use tvmm.Kernel.{NaiveAllocator, State, Kernel, pure}
use tvmm.Failure.{out_of_pages}
use tvmm.Kernel.Laws.{Ends, EndsOr}
use tvmm.Paging.Tables.{IsMapped}
use tvmm.Paging.Booted.{no_tables}
use tvmm.Memory.{Mem}
use tvmm.Vm.GuestWalk.{IsIdentity, create_temp_page_table-IsIdentity}
use tvmm.Vm.Started.{IsStarted, vm_create-IsStarted}
use tvmm.Vm.Nested.{IsNested, create_vm_pmem_mapping_table-IsNested}
use tvmm.Vmcb.{Vmcb}
use tvmm.Vm.{Vm, vm_create, finish_vm, create_vm_pmem_mapping_table, create_temp_page_table}
use tvmm.Vm.Block.{zero_vmcb, with_tables, set_state_save_area}
use tvmm.Vm.Created.{IsCreated, finish_vm-IsCreated, vm_create-IsCreated}

abbrev frames : NaiveAllocator
frames = record { alloc_bitmap = 0x1000; max_page = 4096 }

abbrev state : State
state = record { mem = λ a. 0; nalloc = frames }

state-IsMapped : IsMapped frames no_tables state
state-IsMapped = record {
  same = refl;
  tables = λ f some. absurd (omega arith);
  tables_above = λ f some. absurd (omega arith);
  free_above = λ f below free. omega arith;
  entries = λ f i high lt present. absurd (omega arith);
  parents = λ f i f' i' b leads. absurd (omega (arith, leads.0));
}

create_vm_pmem_mapping_table-IsNested_example :
    EndsOr out_of_pages
      (IsNested (vmm_offset + 2 ^ 22) (2 ^ 22))
      (create_vm_pmem_mapping_table (vmm_offset + 2 ^ 22) (2 ^ 22) state)
unfolding pfn_down_2mb pfn_up_2mb
create_vm_pmem_mapping_table-IsNested_example =
    create_vm_pmem_mapping_table-IsNested frames (omega arith) (omega arith) no_tables state
      (vmm_offset + 2 ^ 22) (2 ^ 22) state-IsMapped (omega arith)

vm_create-IsCreated_example : Ends (IsCreated frames) (vm_create 0x8000 0x1000 (2 ^ 22) state)
vm_create-IsCreated_example =
    vm_create-IsCreated frames (omega arith) 0x8000 0x1000 (2 ^ 22) state (omega arith) refl

abbrev machine : Vm
machine =
    finish_vm 0xFFFF_8300_0000_3000 (set_state_save_area (with_tables 0x4000 0x7000 zero_vmcb))
      0xFFFF_8300_0020_0000 0x9000 0x0010_0000

machine-IsCreated : IsCreated frames machine state
machine-IsCreated =
    finish_vm-IsCreated frames 0xFFFF_8300_0000_3000 0xFFFF_8300_0020_0000 0x9000 0x0010_0000 0x4000
      0x7000 refl refl

-- A processor that exits at once, with exit code 0x400.
abbrev exits : ℕ → Vmcb → Kernel Vmcb
exits p_vmcb v = pure (record v { control = record v.control { exitcode = 0x400 } })

abbrev filled : Mem
filled x = 0xff

create_temp_page_table-IsIdentity_example :
    IsIdentity 0xFFFF_8300_0040_0000 0x20_3000 filled
      (create_temp_page_table 0xFFFF_8300_0040_0000 0x20_3000 filled)
create_temp_page_table-IsIdentity_example =
    create_temp_page_table-IsIdentity 0xFFFF_8300_0040_0000 0x20_3000 (omega arith) (omega arith)
      (omega arith) filled

vm_create-IsStarted_example : Ends IsStarted (vm_create 0x8000 0x1000 (2 ^ 22) state)
vm_create-IsStarted_example =
    vm_create-IsStarted frames (omega arith) 0x8000 0x1000 (2 ^ 22) state (omega arith)
      (omega arith) refl
