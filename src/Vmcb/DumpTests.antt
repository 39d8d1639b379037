-- ===== src/Vmcb/DumpTests.antt =====
-- The dump of a new control block.
use tvmm.Base.{ℕ, refl, arith, List, [], ◌∷◌}
use tvmm.Console.Sample.{
  IsNumbered, place, literal_mem, literal_mem-HoldsLiterals, place-Placed, console, screen,
  console-Shows,
}
use tvmm.Console.Printer.{Leaves}
use tvmm.Console.Terminal.{type_text}
use tvmm.Vm.Block.{zero_vmcb}
use tvmm.Vmcb.Dump.{
  DumpLiteral, dump_head, size_line, intercepts_line, general_line, tables_line, control_line,
  exit_line, info_line, asid_line, efer_line, cr0_line, cr3_line, rsp_line, rax_line, dr_line,
  cstar_line, gs_base_line, seg_line, cs_name, ds_name, ss_name, es_name, fs_name, gs_name,
  gdtr_name, ldtr_name, idtr_name, tr_name, dump_literal, vmcb_dump,
}
use tvmm.Vmcb.Dumped.{dump_text, vmcb_dump-Leaves}

abbrev texts : List DumpLiteral
texts =
    dump_head ∷ size_line ∷ intercepts_line ∷ general_line ∷ tables_line ∷ control_line ∷ exit_line
    ∷ info_line ∷ asid_line ∷ efer_line ∷ cr0_line ∷ cr3_line ∷ rsp_line ∷ rax_line ∷ dr_line
    ∷ cstar_line ∷ gs_base_line ∷ seg_line ∷ cs_name ∷ ds_name ∷ ss_name ∷ es_name ∷ fs_name
    ∷ gs_name ∷ gdtr_name ∷ ldtr_name ∷ idtr_name ∷ tr_name ∷ []

abbrev slot : DumpLiteral → ℕ
slot dump_head = 0
slot size_line = 1
slot intercepts_line = 2
slot general_line = 3
slot tables_line = 4
slot control_line = 5
slot exit_line = 6
slot info_line = 7
slot asid_line = 8
slot efer_line = 9
slot cr0_line = 10
slot cr3_line = 11
slot rsp_line = 12
slot rax_line = 13
slot dr_line = 14
slot cstar_line = 15
slot gs_base_line = 16
slot seg_line = 17
slot cs_name = 18
slot ds_name = 19
slot ss_name = 20
slot es_name = 21
slot fs_name = 22
slot gs_name = 23
slot gdtr_name = 24
slot ldtr_name = 25
slot idtr_name = 26
slot tr_name = 27

slot-IsNumbered : IsNumbered dump_literal texts slot
unfolding dump_literal
slot-IsNumbered dump_head = (refl, refl)
slot-IsNumbered size_line = (refl, refl)
slot-IsNumbered intercepts_line = (refl, refl)
slot-IsNumbered general_line = (refl, refl)
slot-IsNumbered tables_line = (refl, refl)
slot-IsNumbered control_line = (refl, refl)
slot-IsNumbered exit_line = (refl, refl)
slot-IsNumbered info_line = (refl, refl)
slot-IsNumbered asid_line = (refl, refl)
slot-IsNumbered efer_line = (refl, refl)
slot-IsNumbered cr0_line = (refl, refl)
slot-IsNumbered cr3_line = (refl, refl)
slot-IsNumbered rsp_line = (refl, refl)
slot-IsNumbered rax_line = (refl, refl)
slot-IsNumbered dr_line = (refl, refl)
slot-IsNumbered cstar_line = (refl, refl)
slot-IsNumbered gs_base_line = (refl, refl)
slot-IsNumbered seg_line = (refl, refl)
slot-IsNumbered cs_name = (refl, refl)
slot-IsNumbered ds_name = (refl, refl)
slot-IsNumbered ss_name = (refl, refl)
slot-IsNumbered es_name = (refl, refl)
slot-IsNumbered fs_name = (refl, refl)
slot-IsNumbered gs_name = (refl, refl)
slot-IsNumbered gdtr_name = (refl, refl)
slot-IsNumbered ldtr_name = (refl, refl)
slot-IsNumbered idtr_name = (refl, refl)
slot-IsNumbered tr_name = (refl, refl)

vmcb_dump-Leaves_example :
    Leaves dump_literal
      (place dump_literal texts slot)
      2048
      0x2000
      (literal_mem dump_literal texts slot)
      (type_text (dump_text 0xFFFF_8300_0040_0000 zero_vmcb) (screen dump_literal texts slot))
      (vmcb_dump
        (place dump_literal texts slot)
        2048
        0x2000
        0xFFFF_8300_0040_0000
        zero_vmcb
        (console dump_literal texts slot))
vmcb_dump-Leaves_example =
    vmcb_dump-Leaves (place dump_literal texts slot) 2048 0x2000
      (place-Placed dump_literal texts slot) (omega arith) 0xFFFF_8300_0040_0000 zero_vmcb
      (console dump_literal texts slot) (screen dump_literal texts slot)
      (literal_mem-HoldsLiterals dump_literal texts slot slot-IsNumbered)
      (console-Shows dump_literal texts slot)
