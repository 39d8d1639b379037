-- ===== src/VmExit.antt =====
-- kernel/vmexit.c, and `handle_vmexit` of kernel/vm.c: the report, on the console, of why the guest
-- was left.
pub mod Code
pub mod Report
pub mod Reading
mod Tests
use Prim.Native.Char.{code}
use Prim.Native.String.{String}
use tvmm.Base.{ℕ, ◌+◌, ◌*◌, ◌^◌, bit_and, List, [], ◌∷◌, ◌==◌, ◌!=◌, if◌then◌else◌}
use tvmm.Base.Word.{w32, sign_extend}
use tvmm.Console.{Console, Printed, and_next}
use tvmm.Console.Printer.{print_calls}
use tvmm.Vmcb.{SegAttrs, Vmcb}
use tvmm.VmExit.Code.{vmexit_exception_pf, vmexit_npf, vmexit_invalid, exitcode_value}

-- The string literals of the two functions.
pub data Literal : Type 0 where
  vmexit_head excp_page_fault_text npf_text invalid_text exit_number line_feed stars : Literal
  vmcb_rip_text cpl_line cr_line rflags_line attrs_line error_line protection_text : Literal
  not_present_text write_text read_text user_text supervisor_text : Literal

abbrev pub codes : String → List ℕ
codes String.[] = []
codes (String.◌∷◌ c s) = code c ∷ codes s

unfoldable pub literal : Literal → List ℕ
literal vmexit_head = codes "#VMEXIT: "
literal excp_page_fault_text = codes "EXCP (page fault)"
literal npf_text = codes "NPF (nested-paging: host-level page fault)"
literal invalid_text = codes "INVALID"
literal exit_number = codes "%x"
literal line_feed = codes "\n"
literal stars = codes "********************\n"
literal vmcb_rip_text = codes "VMCB: rip=%x\n"
literal cpl_line = codes "cpl=%x\n"
literal cr_line = codes "cr0=%x, cr3=%x, cr4=%x\n"
literal rflags_line = codes "rflags=%x, efer=%x\n"
literal attrs_line = codes "cs.attrs=%x, ds.attrs=%x\n"
literal error_line = codes "error_code=%x, fault address=%x\n"
literal protection_text = codes "page fault was caused by a page-protection violation\n"
literal not_present_text = codes "page fault was caused by a not-present page\n"
literal write_text = codes "memory access was write\n"
literal read_text = codes "memory access was read\n"
literal user_text = codes "an access in user mode caused the page fault\n"
literal supervisor_text = codes "an access in supervisor mode caused the page fault\n"

-- The `switch`, at an `int`.
unfoldable pub exit_call : ℕ → Literal × List ℕ
exit_call x =
    if x == exitcode_value vmexit_exception_pf
    then (excp_page_fault_text, [])
    else (if x == exitcode_value vmexit_npf
        then (npf_text, [])
        else (if x == exitcode_value vmexit_invalid
            then (invalid_text, [])
            else (exit_number, sign_extend x ∷ [])))

unfoldable pub vmexit_calls : ℕ → List (Literal × List ℕ)
vmexit_calls x = (vmexit_head, []) ∷ exit_call x ∷ (line_feed, []) ∷ []

-- `bytes` of `union seg_attrs`.
unfoldable pub attrs_bytes : SegAttrs → ℕ
attrs_bytes a =
    a.type
    + 2 ^ 4 * a.s
    + 2 ^ 5 * a.dpl
    + 2 ^ 7 * a.p
    + 2 ^ 8 * a.avl
    + 2 ^ 9 * a.l
    + 2 ^ 10 * a.db
    + 2 ^ 11 * a.g
    + 2 ^ 12 * a.upper

-- What follows the call of `print_vmexit_exitcode`.
unfoldable pub state_calls : Vmcb → List (Literal × List ℕ)
state_calls v =
    (vmcb_rip_text, v.rip ∷ [])
    ∷ (cpl_line, v.cpl ∷ [])
    ∷ (cr_line, v.cr0 ∷ v.cr3 ∷ v.cr4 ∷ [])
    ∷ (rflags_line, v.rflags ∷ v.efer ∷ [])
    ∷ (attrs_line, attrs_bytes v.cs.attrs ∷ attrs_bytes v.ds.attrs ∷ [])
    ∷ (error_line, v.exitinfo1 ∷ v.exitinfo2 ∷ [])
    ∷ (if bit_and v.exitinfo1 1 != 0 then protection_text else not_present_text, [])
    ∷ (if bit_and v.exitinfo1 2 != 0 then write_text else read_text, [])
    ∷ (if bit_and v.exitinfo1 4 != 0 then user_text else supervisor_text, [])
    ∷ []

-- `at` says where the literals lie; `buf` is the buffer of `printf`.
module _ (at : Literal → ℕ) (fuel buf : ℕ) where
  unfoldable pub print_vmexit_exitcode : ℕ → Console → Printed Console
  print_vmexit_exitcode x = print_calls literal at fuel buf (vmexit_calls x)

  unfoldable pub handle_vmexit : Vmcb → Console → Printed Console
  handle_vmexit v c = and_next (print_calls literal at fuel buf ((stars, []) ∷ []) c) (λ c1.
      and_next (print_vmexit_exitcode (w32 v.exitcode) c1)
        (print_calls literal at fuel buf (state_calls v)))
