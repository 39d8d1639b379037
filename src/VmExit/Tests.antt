-- ===== src/VmExit/Tests.antt =====
-- The report of a nested page fault.
use tvmm.Base.{ℕ, ◌≡◌, refl, arith, List, [], ◌∷◌, some}
use tvmm.Console.Sample.{
  IsNumbered, place, literal_mem, literal_mem-HoldsLiterals, place-Placed, console, screen,
  console-Shows,
}
use tvmm.Console.Printer.{Leaves, calls_text}
use tvmm.Console.Terminal.{type_text}
use tvmm.Vmcb.{Vmcb}
use tvmm.Vm.Block.{zero_vmcb}
use tvmm.VmExit.{
  Literal, vmexit_head, excp_page_fault_text, npf_text, invalid_text, exit_number, line_feed, stars,
  vmcb_rip_text, cpl_line, cr_line, rflags_line, attrs_line, error_line, protection_text,
  not_present_text, write_text, read_text, user_text, supervisor_text, literal, vmexit_calls,
  handle_vmexit,
}
use tvmm.VmExit.Report.{report, handle_vmexit-Leaves}
use tvmm.VmExit.Reading.{read_exit, vmexit_calls-reads_back}

abbrev texts : List Literal
texts =
    vmexit_head ∷ excp_page_fault_text ∷ npf_text ∷ invalid_text ∷ exit_number ∷ line_feed ∷ stars
    ∷ vmcb_rip_text ∷ cpl_line ∷ cr_line ∷ rflags_line ∷ attrs_line ∷ error_line ∷ protection_text
    ∷ not_present_text ∷ write_text ∷ read_text ∷ user_text ∷ supervisor_text ∷ []

abbrev slot : Literal → ℕ
slot vmexit_head = 0
slot excp_page_fault_text = 1
slot npf_text = 2
slot invalid_text = 3
slot exit_number = 4
slot line_feed = 5
slot stars = 6
slot vmcb_rip_text = 7
slot cpl_line = 8
slot cr_line = 9
slot rflags_line = 10
slot attrs_line = 11
slot error_line = 12
slot protection_text = 13
slot not_present_text = 14
slot write_text = 15
slot read_text = 16
slot user_text = 17
slot supervisor_text = 18

slot-IsNumbered : IsNumbered literal texts slot
unfolding literal
slot-IsNumbered vmexit_head = (refl, refl)
slot-IsNumbered excp_page_fault_text = (refl, refl)
slot-IsNumbered npf_text = (refl, refl)
slot-IsNumbered invalid_text = (refl, refl)
slot-IsNumbered exit_number = (refl, refl)
slot-IsNumbered line_feed = (refl, refl)
slot-IsNumbered stars = (refl, refl)
slot-IsNumbered vmcb_rip_text = (refl, refl)
slot-IsNumbered cpl_line = (refl, refl)
slot-IsNumbered cr_line = (refl, refl)
slot-IsNumbered rflags_line = (refl, refl)
slot-IsNumbered attrs_line = (refl, refl)
slot-IsNumbered error_line = (refl, refl)
slot-IsNumbered protection_text = (refl, refl)
slot-IsNumbered not_present_text = (refl, refl)
slot-IsNumbered write_text = (refl, refl)
slot-IsNumbered read_text = (refl, refl)
slot-IsNumbered user_text = (refl, refl)
slot-IsNumbered supervisor_text = (refl, refl)

abbrev faulted : Vmcb
faulted = record zero_vmcb {
  control = record zero_vmcb.control { exitcode = 0x400; exitinfo1 = 6 };
}

handle_vmexit-Leaves_example :
    Leaves literal
      (place literal texts slot)
      2048
      0x2000
      (literal_mem literal texts slot)
      (type_text (report faulted) (screen literal texts slot))
      (handle_vmexit (place literal texts slot) 2048 0x2000 faulted (console literal texts slot))
handle_vmexit-Leaves_example =
    handle_vmexit-Leaves (place literal texts slot) 2048 0x2000 (place-Placed literal texts slot)
      (omega arith) faulted (console literal texts slot) (screen literal texts slot)
      (literal_mem-HoldsLiterals literal texts slot slot-IsNumbered)
      (console-Shows literal texts slot)

vmexit_calls-reads_back_example : read_exit (calls_text literal (vmexit_calls 0x5e)) ≡ some 0x5e
vmexit_calls-reads_back_example = vmexit_calls-reads_back 0x5e (omega arith)
