-- ===== src/VmExit/Report.antt =====
-- What the report of an exit says.
use tvmm.Base.{
  ℕ, ◌-◌, Bool, ◌^◌, ◌≤◌, ◌≡◌, refl, sym, inl, inr, ap, bit_and, List, [], ◌∷◌, ◌++◌, ◌==◌, ◌!=◌,
  if◌then◌else◌, Bool-cases, true, false,
}
use tvmm.Base.Word.{w32, sign_extend}
use tvmm.Console.{Console, nth}
use tvmm.Console.Hex.{hex}
use tvmm.Console.Render.{is_literal}
use tvmm.Console.Printer.{
  Placed, HoldsLiterals, Leaves, calls_text, all-are_literals, print_calls-Leaves, and_next-Leaves,
}
use tvmm.Console.Terminal.{Terminal, type_text}
use tvmm.Console.Screen.{Shows}
use tvmm.Vmcb.{Vmcb}
use tvmm.VmExit.{
  Literal, vmexit_head, excp_page_fault_text, npf_text, invalid_text, exit_number, line_feed, stars,
  vmcb_rip_text, cpl_line, cr_line, rflags_line, attrs_line, error_line, protection_text,
  not_present_text, write_text, read_text, user_text, supervisor_text, codes, literal, exit_call,
  vmexit_calls, attrs_bytes, state_calls, print_vmexit_exitcode, handle_vmexit,
}
use tvmm.VmExit.Code.{exitcode_value}

-- The name of an exit code, or its number in 64 bits.
abbrev pub exit_name : ℕ → List ℕ
exit_name x =
    if x == 78
    then codes "EXCP (page fault)"
    else (if x == 1024
        then codes "NPF (nested-paging: host-level page fault)"
        else (if x == 2 ^ 32 - 1 then codes "INVALID" else hex (sign_extend x)))

abbrev pub exit_text : ℕ → List ℕ
exit_text x = codes "#VMEXIT: " ++ (exit_name x ++ codes "\n")

-- Whether the page was present, whether it was written, and whether in user mode.
abbrev flags_text : Bool → Bool → Bool → List ℕ
flags_text present written user =
    (if present
      then codes "page fault was caused by a page-protection violation\n"
      else codes "page fault was caused by a not-present page\n")
    ++ ((if written then codes "memory access was write\n" else codes "memory access was read\n")
        ++ (if user
            then codes "an access in user mode caused the page fault\n"
            else codes "an access in supervisor mode caused the page fault\n"))

-- The lines on the guest's state, and three on the error code.
abbrev pub state_text : Vmcb → List ℕ
state_text v =
    let eol = codes "\n" in
    (codes "VMCB: rip=" ++ (hex v.rip ++ eol))
    ++ ((codes "cpl=" ++ (hex v.cpl ++ eol))
        ++ ((codes "cr0="
              ++ (hex v.cr0
                  ++ (codes ", cr3=" ++ (hex v.cr3 ++ (codes ", cr4=" ++ (hex v.cr4 ++ eol))))))
            ++ ((codes "rflags=" ++ (hex v.rflags ++ (codes ", efer=" ++ (hex v.efer ++ eol))))
                ++ ((codes "cs.attrs="
                      ++ (hex (attrs_bytes v.cs.attrs)
                          ++ (codes ", ds.attrs=" ++ (hex (attrs_bytes v.ds.attrs) ++ eol))))
                    ++ ((codes "error_code="
                          ++ (hex v.exitinfo1
                              ++ (codes ", fault address=" ++ (hex v.exitinfo2 ++ eol))))
                        ++ flags_text (bit_and v.exitinfo1 1 != 0) (bit_and v.exitinfo1 2 != 0)
                            (bit_and v.exitinfo1 4 != 0))))))

abbrev pub report : Vmcb → List ℕ
report v = codes "********************\n" ++ (exit_text (w32 v.exitcode) ++ state_text v)

literal-formats : (l : Literal) → is_literal (literal l) ≡ true
unfolding literal
literal-formats vmexit_head = refl
literal-formats excp_page_fault_text = refl
literal-formats npf_text = refl
literal-formats invalid_text = refl
literal-formats exit_number = refl
literal-formats line_feed = refl
literal-formats stars = refl
literal-formats vmcb_rip_text = refl
literal-formats cpl_line = refl
literal-formats cr_line = refl
literal-formats rflags_line = refl
literal-formats attrs_line = refl
literal-formats error_line = refl
literal-formats protection_text = refl
literal-formats not_present_text = refl
literal-formats write_text = refl
literal-formats read_text = refl
literal-formats user_text = refl
literal-formats supervisor_text = refl

append_nil : (t : List ℕ) → t ++ [] ≡ t
append_nil [] = refl
append_nil (c ∷ t) = ap (λ r. c ∷ r) (append_nil t)

pub exit_lem : (x : ℕ) → calls_text literal (vmexit_calls x) ≡ exit_text x
unfolding vmexit_calls exit_call literal exitcode_value nth
exit_lem x = elim (Bool-cases (x == 78)) [
  | inl pf ↦ rw pf refl
  | inr a ↦ elim (Bool-cases (x == 1024)) [
    | inl npf ↦ rw (a, npf) refl
    | inr b ↦ elim (Bool-cases (x == 2 ^ 32 - 1)) [
      | inl inv ↦ rw (a, b, inv) refl
      | inr c ↦
          rw (a, b, c)
            (ap (λ t. codes "#VMEXIT: " ++ (t ++ codes "\n")) (append_nil (hex (sign_extend x))))
    ]
  ]
]

flags_lem :
    (present written user : Bool)
    → calls_text literal (
        (if present then protection_text else not_present_text, [])
        ∷ (if written then write_text else read_text, [])
        ∷ (if user then user_text else supervisor_text, [])
        ∷ [])
      ≡ flags_text present written user
unfolding literal
flags_lem true true true = refl
flags_lem true true false = refl
flags_lem true false true = refl
flags_lem true false false = refl
flags_lem false true true = refl
flags_lem false true false = refl
flags_lem false false true = refl
flags_lem false false false = refl

state_lem : (v : Vmcb) → calls_text literal (state_calls v) ≡ state_text v
unfolding state_calls literal nth
state_lem v =
    rw
      (sym (
        flags_lem (bit_and v.exitinfo1 1 != 0) (bit_and v.exitinfo1 2 != 0)
          (bit_and v.exitinfo1 4 != 0)))
      refl

-- `at` says where the literals lie; `buf` is the buffer of `printf`.
module _ (at : Literal → ℕ) (fuel buf : ℕ) (placed : Placed literal at fuel buf)
    (enough : 2048 ≤ fuel) where
  print_vmexit_exitcode-Leaves :
      (x : ℕ) (c : Console) (screen : Terminal)
      → HoldsLiterals literal at fuel buf c.mem
      → Shows c.mem c screen
      → Leaves literal at fuel buf c.mem
          (type_text (exit_text x) screen)
          (print_vmexit_exitcode at fuel buf x c)
  unfolding print_vmexit_exitcode
  print_vmexit_exitcode-Leaves x c screen holds shows = rw (sym (exit_lem x)) (
      print_calls-Leaves literal at fuel buf placed enough (vmexit_calls x) c screen
        (all-are_literals literal literal-formats (vmexit_calls x)) holds shows)

  -- If the screen shows a terminal with the cursor on it, memory holds the literals of
  -- kernel/vmexit.c and kernel/vm.c at places outside the video memory and the buffer of `printf`,
  -- these two lie apart, and the fuel is 2048 or more: `handle_vmexit` returns. The screen shows
  -- the terminal on which the report was typed: a line of stars, the name or the number of the exit
  -- code, the registers' values in hexadecimal, and the three sentences that the bits of exitinfo1
  -- choose. No other byte has changed.
  pub handle_vmexit-Leaves :
      (v : Vmcb) (c : Console) (screen : Terminal)
      → HoldsLiterals literal at fuel buf c.mem
      → Shows c.mem c screen
      → Leaves literal at fuel buf c.mem
          (type_text (report v) screen)
          (handle_vmexit at fuel buf v c)
  unfolding handle_vmexit literal
  handle_vmexit-Leaves v c screen holds shows =
      and_next-Leaves literal at fuel buf placed enough c.mem screen
        (codes "********************\n") (exit_text (w32 v.exitcode) ++ state_text v) _ _
        (print_calls-Leaves literal at fuel buf placed enough ((stars, []) ∷ []) c screen
          (all-are_literals literal literal-formats ((stars, []) ∷ [])) holds shows)
        (λ c1 holds1 shows1 kept1.
          and_next-Leaves literal at fuel buf placed enough c1.mem
            (type_text (codes "********************\n") screen) (exit_text (w32 v.exitcode))
            (state_text v) _ _ (print_vmexit_exitcode-Leaves (w32 v.exitcode) c1 _ holds1 shows1)
            (λ c2 holds2 shows2 kept2. rw (sym (state_lem v)) (
              print_calls-Leaves literal at fuel buf placed enough (state_calls v) c2
                (type_text (exit_text (w32 v.exitcode))
                  (type_text (codes "********************\n") screen))
                (all-are_literals literal literal-formats (state_calls v)) holds2 shows2)))
