-- ===== src/Vmcb/Dump.antt =====
-- kernel/vmcb.c: `vmcb_dump`, which prints a control block.
use Prim.Native.String.{String}
use tvmm.Base.{ℕ, List, [], ◌∷◌}
use tvmm.Console.{Console, Printed, ok, and_next, nth, printf}
use tvmm.Console.Printer.{print_calls}
use tvmm.Vmcb.{SegSelector, Vmcb}
use tvmm.VmExit.{codes, attrs_bytes}

-- The string literals: the formats in their order, and the names of the segments.
pub data DumpLiteral : Type 0 where
  dump_head size_line intercepts_line general_line tables_line control_line exit_line : DumpLiteral
  info_line asid_line efer_line cr0_line cr3_line rsp_line rax_line dr_line : DumpLiteral
  cstar_line gs_base_line seg_line : DumpLiteral
  cs_name ds_name ss_name es_name fs_name gs_name : DumpLiteral
  gdtr_name ldtr_name idtr_name tr_name : DumpLiteral

abbrev pub dump_string : DumpLiteral → String
dump_string dump_head = "Dumping guest's current state\n"
dump_string size_line = "Size of VMCB = %x, address = %x\n"
dump_string intercepts_line = "cr_intercepts = %x dr_intercepts = %x exception_intercepts = %x\n"
dump_string general_line = "general1_intercepts = %x general2_intercepts = %x\n"
dump_string tables_line = "iopm_base_pa = %x msrpm_base_pa = %x tsc_offset = %x\n"
dump_string control_line = "tlb_control = %x vintr = %x interrupt_shadow = %x\n"
dump_string exit_line = "exitcode = %x exitintinfo = %x\n"
dump_string info_line = "exitinfo1 = %x exitinfo2 = %x \n"
dump_string asid_line = "np_enable = %x guest_asid = %x\n"
dump_string efer_line = "cpl = %x efer = %x star = %x lstar = %x\n"
dump_string cr0_line = "CR0 = %x CR2 = %x\n"
dump_string cr3_line = "CR3 = %x CR4 = %x\n"
dump_string rsp_line = "RSP = %x  RIP = %x\n"
dump_string rax_line = "RAX = %x  RFLAGS=%x\n"
dump_string dr_line = "DR6 = %x, DR7 = %x\n"
dump_string cstar_line = "CSTAR = %x SFMask = %x\n"
dump_string gs_base_line = "KernGSBase = %x PAT = %x \n"
dump_string seg_line = "%s: sel=%x, attr=%x, limit=%x, base=%x\n"
dump_string cs_name = "CS"
dump_string ds_name = "DS"
dump_string ss_name = "SS"
dump_string es_name = "ES"
dump_string fs_name = "FS"
dump_string gs_name = "GS"
dump_string gdtr_name = "GDTR"
dump_string ldtr_name = "LDTR"
dump_string idtr_name = "IDTR"
dump_string tr_name = "TR"

unfoldable pub dump_literal : DumpLiteral → List ℕ
dump_literal l = codes (dump_string l)

-- `sizeof ( struct vmcb )`.
abbrev pub sizeof_vmcb : ℕ
sizeof_vmcb = 4096

-- The calls of `printf` before the selectors, at a block that lies at `vmcb`.
unfoldable pub dump_calls : ℕ → Vmcb → List (DumpLiteral × List ℕ)
dump_calls vmcb v =
    (dump_head, [])
    ∷ (size_line, sizeof_vmcb ∷ vmcb ∷ [])
    ∷ (intercepts_line, v.cr_intercepts ∷ v.dr_intercepts ∷ v.exception_intercepts ∷ [])
    ∷ (general_line, v.general1_intercepts ∷ v.general2_intercepts ∷ [])
    ∷ (tables_line, v.iopm_base_pa ∷ v.msrpm_base_pa ∷ v.tsc_offset ∷ [])
    ∷ (control_line, v.tlb_control ∷ v.vintr ∷ v.interrupt_shadow ∷ [])
    ∷ (exit_line, v.exitcode ∷ v.exitintinfo ∷ [])
    ∷ (info_line, v.exitinfo1 ∷ v.exitinfo2 ∷ [])
    ∷ (asid_line, v.np_enable ∷ v.guest_asid ∷ [])
    ∷ (efer_line, v.cpl ∷ v.efer ∷ v.star ∷ v.lstar ∷ [])
    ∷ (cr0_line, v.cr0 ∷ v.cr2 ∷ [])
    ∷ (cr3_line, v.cr3 ∷ v.cr4 ∷ [])
    ∷ (rsp_line, v.rsp ∷ v.rip ∷ [])
    ∷ (rax_line, v.rax ∷ v.rflags ∷ [])
    ∷ (dr_line, v.dr6 ∷ v.dr7 ∷ [])
    ∷ (cstar_line, v.cstar ∷ v.sfmask ∷ [])
    ∷ (gs_base_line, v.kerngsbase ∷ v.g_pat ∷ [])
    ∷ []

-- The selectors in the order of the calls of `seg_selector_dump`.
unfoldable pub dump_selectors : Vmcb → List (DumpLiteral × SegSelector)
dump_selectors v =
    (cs_name, v.cs)
    ∷ (ds_name, v.ds)
    ∷ (ss_name, v.ss)
    ∷ (es_name, v.es)
    ∷ (fs_name, v.fs)
    ∷ (gs_name, v.gs)
    ∷ (gdtr_name, v.gdtr)
    ∷ (ldtr_name, v.ldtr)
    ∷ (idtr_name, v.idtr)
    ∷ (tr_name, v.tr)
    ∷ []

abbrev pub selector_words : SegSelector → List ℕ
selector_words s = s.sel ∷ attrs_bytes s.attrs ∷ s.limit ∷ s.base ∷ []

-- `at` says where the literals lie; `buf` is the buffer of `printf`.
module _ (at : DumpLiteral → ℕ) (fuel buf : ℕ) where
  unfoldable pub seg_selector_dump : DumpLiteral → SegSelector → Console → Printed Console
  seg_selector_dump name s = printf fuel buf (at seg_line) (nth (at name ∷ selector_words s))

  unfoldable pub selectors_dump : List (DumpLiteral × SegSelector) → Console → Printed Console
  selectors_dump [] c = ok c
  selectors_dump ((name, s) ∷ rest) c = and_next (seg_selector_dump name s c) (selectors_dump rest)

  unfoldable pub vmcb_dump : ℕ → Vmcb → Console → Printed Console
  vmcb_dump vmcb v c =
      and_next (print_calls dump_literal at fuel buf (dump_calls vmcb v) c)
        (selectors_dump (dump_selectors v))
