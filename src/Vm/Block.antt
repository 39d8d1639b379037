-- ===== src/Vm/Block.antt =====
-- kernel/vm.c: how a new control block is filled in.
use tvmm.Base.{ℕ, ◌*◌, ◌+◌, ◌^◌, bit_or}
use tvmm.Base.Word.{shl64, shr}
use tvmm.CString.{memset}
use tvmm.Page.{page_shift, page_size, virt}
use tvmm.Kernel.{Kernel, pure, update_mem, ◌>>=◌, ◌>>◌}
use tvmm.Alloc.{alloc_pages}
use tvmm.Vmcb.{
  Vmcb, ControlArea, SaveArea, SegSelector, SegAttrs, cr0_pe, cr0_pg, cr4_pae, efer_lme, efer_lma,
  efer_svme, intrcpt_vmrun,
}

-- A block of zeros.
abbrev zero_attrs : SegAttrs
zero_attrs = record { type = 0; s = 0; dpl = 0; p = 0; avl = 0; l = 0; db = 0; g = 0; upper = 0 }

abbrev zero_selector : SegSelector
zero_selector = record { sel = 0; attrs = zero_attrs; limit = 0; base = 0 }

abbrev zero_control : ControlArea
zero_control = record {
  cr_intercepts = 0;
  dr_intercepts = 0;
  exception_intercepts = 0;
  general1_intercepts = 0;
  general2_intercepts = 0;
  iopm_base_pa = 0;
  msrpm_base_pa = 0;
  tsc_offset = 0;
  guest_asid = 0;
  tlb_control = 0;
  vintr = 0;
  interrupt_shadow = 0;
  exitcode = 0;
  exitinfo1 = 0;
  exitinfo2 = 0;
  exitintinfo = 0;
  np_enable = 0;
  eventinj = 0;
  h_cr3 = 0;
}

abbrev zero_save : SaveArea
zero_save = record {
  es = zero_selector;
  cs = zero_selector;
  ss = zero_selector;
  ds = zero_selector;
  fs = zero_selector;
  gs = zero_selector;
  gdtr = zero_selector;
  ldtr = zero_selector;
  idtr = zero_selector;
  tr = zero_selector;
  cpl = 0;
  efer = 0;
  cr4 = 0;
  cr3 = 0;
  cr0 = 0;
  dr7 = 0;
  dr6 = 0;
  rflags = 0;
  rip = 0;
  rsp = 0;
  rax = 0;
  star = 0;
  lstar = 0;
  cstar = 0;
  sfmask = 0;
  kerngsbase = 0;
  sysenter_cs = 0;
  sysenter_esp = 0;
  sysenter_eip = 0;
  cr2 = 0;
  g_pat = 0;
}

abbrev pub zero_vmcb : Vmcb
zero_vmcb = record { control = zero_control; save = zero_save }

-- The block's address and its contents.
unfoldable pub alloc_vmcb : Kernel (ℕ × Vmcb)
alloc_vmcb = do
  pfn ← alloc_pages 1 1
  let vmcb = virt (shl64 pfn page_shift)
  update_mem (λ m. memset m vmcb 0 4096)
  pure (vmcb, zero_vmcb)

unfoldable pub create_intercept_table : ℕ → Kernel ℕ
create_intercept_table size = do
  pfn ← alloc_pages (shr size page_shift) 1
  update_mem (λ m. memset m (virt (shl64 pfn page_shift)) 0xff size)
  pure (shl64 pfn page_shift)

-- The fields of the control area that are set.
abbrev pub with_tables : ℕ → ℕ → Vmcb → Vmcb
with_tables iopm msrpm vmcb = record vmcb {
  control = record vmcb.control {
    np_enable = 1;
    tlb_control = 1;
    tsc_offset = 0;
    guest_asid = 1;
    general2_intercepts = intrcpt_vmrun;
    iopm_base_pa = iopm;
    msrpm_base_pa = msrpm;
  };
}

unfoldable pub set_control_area : Vmcb → Kernel Vmcb
set_control_area vmcb = do
  iopm ← create_intercept_table (12 * 2 ^ 10)
  msrpm ← create_intercept_table (8 * 2 ^ 10)
  pure (with_tables iopm msrpm vmcb)

unfoldable pub code_descriptor : SegSelector → SegSelector
code_descriptor x = record x {
  sel = 0;
  attrs = record x.attrs { type = 0xa; s = 1; p = 1; l = 1 };
  limit = 0xfffff;
  base = 0;
}

unfoldable pub data_descriptor : SegSelector → SegSelector
data_descriptor x = record x {
  sel = 0;
  attrs = record x.attrs { type = 0x2; s = 1; p = 1 };
  limit = 0xfffff;
  base = 0;
}

unfoldable pub set_descriptors : SaveArea → SaveArea
set_descriptors a = record a {
  cs = code_descriptor a.cs;
  ss = data_descriptor a.ss;
  ds = data_descriptor a.ds;
  es = data_descriptor a.es;
  fs = data_descriptor a.fs;
  gs = data_descriptor a.gs;
}

abbrev multiboot_bootloader_magic : ℕ
multiboot_bootloader_magic = 0x2BADB002

unfoldable pub set_state_save_area : Vmcb → Vmcb
set_state_save_area vmcb = record vmcb {
  save = set_descriptors (record vmcb.save {
    cpl = 0;
    rax = multiboot_bootloader_magic;
    rsp = 0;
    cr0 = bit_or cr0_pe cr0_pg;
    cr3 = 0x200000 + page_size * 3;
    cr4 = cr4_pae;
    rflags = 2;
    g_pat = 0x7040600070406;
    efer = bit_or (bit_or efer_lme efer_lma) efer_svme;
  });
}
