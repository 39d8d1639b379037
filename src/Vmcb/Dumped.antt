-- ===== src/Vmcb/Dumped.antt =====
-- What the dump of a control block says.
use Prim.Native.String.{String}
use tvmm.Base.{ℕ, ◌≤◌, ◌≡◌, refl, sym, arith, Bool, true, false, ◌&&◌, List, [], ◌∷◌, ◌++◌}
use tvmm.Console.{Console, nth}
use tvmm.Console.Hex.{hex}
use tvmm.Console.Render.{is_name, render}
use tvmm.Console.Printer.{
  Placed, HoldsLiterals, Leaves, calls_text, are_literals, print_calls-Leaves, named-Leaves,
  and_next-Leaves,
}
use tvmm.Console.Terminal.{Terminal, type_text}
use tvmm.Console.Screen.{Shows}
use tvmm.Vmcb.{SegSelector, Vmcb}
use tvmm.Vmcb.Dump.{
  DumpLiteral, seg_line, dump_string, dump_literal, dump_calls, dump_selectors, selector_words,
  seg_selector_dump, selectors_dump, vmcb_dump,
}
use tvmm.VmExit.{codes, attrs_bytes}

-- Names, each with a number in hexadecimal behind it, and what ends the line.
abbrev pub line : List (String × ℕ) → String → List ℕ
line [] eol = codes eol
line ((name, w) ∷ fields) eol = codes name ++ (hex w ++ line fields eol)

abbrev pub lines : List (List (String × ℕ) × String) → List ℕ
lines [] = []
lines ((fields, eol) ∷ rest) = line fields eol ++ lines rest

abbrev pub fields_text : ℕ → Vmcb → List ℕ
fields_text vmcb v = lines (
    ([], "Dumping guest's current state\n")
    ∷ (("Size of VMCB = ", 4096) ∷ (", address = ", vmcb) ∷ [], "\n")
    ∷ (
      ("cr_intercepts = ", v.cr_intercepts)
          ∷ (" dr_intercepts = ", v.dr_intercepts)
          ∷ (" exception_intercepts = ", v.exception_intercepts)
          ∷ [],
      "\n",
    )
    ∷ (
      ("general1_intercepts = ", v.general1_intercepts)
          ∷ (" general2_intercepts = ", v.general2_intercepts)
          ∷ [],
      "\n",
    )
    ∷ (
      ("iopm_base_pa = ", v.iopm_base_pa)
          ∷ (" msrpm_base_pa = ", v.msrpm_base_pa)
          ∷ (" tsc_offset = ", v.tsc_offset)
          ∷ [],
      "\n",
    )
    ∷ (
      ("tlb_control = ", v.tlb_control)
          ∷ (" vintr = ", v.vintr)
          ∷ (" interrupt_shadow = ", v.interrupt_shadow)
          ∷ [],
      "\n",
    )
    ∷ (("exitcode = ", v.exitcode) ∷ (" exitintinfo = ", v.exitintinfo) ∷ [], "\n")
    ∷ (("exitinfo1 = ", v.exitinfo1) ∷ (" exitinfo2 = ", v.exitinfo2) ∷ [], " \n")
    ∷ (("np_enable = ", v.np_enable) ∷ (" guest_asid = ", v.guest_asid) ∷ [], "\n")
    ∷ (
      ("cpl = ", v.cpl) ∷ (" efer = ", v.efer) ∷ (" star = ", v.star) ∷ (" lstar = ", v.lstar) ∷ [],
      "\n",
    )
    ∷ (("CR0 = ", v.cr0) ∷ (" CR2 = ", v.cr2) ∷ [], "\n")
    ∷ (("CR3 = ", v.cr3) ∷ (" CR4 = ", v.cr4) ∷ [], "\n")
    ∷ (("RSP = ", v.rsp) ∷ ("  RIP = ", v.rip) ∷ [], "\n")
    ∷ (("RAX = ", v.rax) ∷ ("  RFLAGS=", v.rflags) ∷ [], "\n")
    ∷ (("DR6 = ", v.dr6) ∷ (", DR7 = ", v.dr7) ∷ [], "\n")
    ∷ (("CSTAR = ", v.cstar) ∷ (" SFMask = ", v.sfmask) ∷ [], "\n")
    ∷ (("KernGSBase = ", v.kerngsbase) ∷ (" PAT = ", v.g_pat) ∷ [], " \n")
    ∷ [])

abbrev pub selector_text : String → SegSelector → List ℕ
selector_text name s =
    codes name
    ++ line
        ((": sel=", s.sel)
          ∷ (", attr=", attrs_bytes s.attrs)
          ∷ (", limit=", s.limit)
          ∷ (", base=", s.base)
          ∷ [])
        "\n"

abbrev pub selectors_text : List (String × SegSelector) → List ℕ
selectors_text [] = []
selectors_text ((name, s) ∷ rest) = selector_text name s ++ selectors_text rest

-- The whole dump: the fields by their names, then the ten selectors.
abbrev pub dump_text : ℕ → Vmcb → List ℕ
dump_text vmcb v =
    fields_text vmcb v
    ++ selectors_text (
        ("CS", v.cs)
        ∷ ("DS", v.ds)
        ∷ ("SS", v.ss)
        ∷ ("ES", v.es)
        ∷ ("FS", v.fs)
        ∷ ("GS", v.gs)
        ∷ ("GDTR", v.gdtr)
        ∷ ("LDTR", v.ldtr)
        ∷ ("IDTR", v.idtr)
        ∷ ("TR", v.tr)
        ∷ [])

fields_lem :
    (vmcb : ℕ) (v : Vmcb) → calls_text dump_literal (dump_calls vmcb v) ≡ fields_text vmcb v
unfolding dump_calls dump_literal nth
fields_lem vmcb v = refl

abbrev are_names : List (DumpLiteral × SegSelector) → Bool
are_names [] = true
are_names ((name, s) ∷ rest) = is_name (dump_literal name) && are_names rest

abbrev named : List (DumpLiteral × SegSelector) → List (String × SegSelector)
named [] = []
named ((name, s) ∷ rest) = (dump_string name, s) ∷ named rest

abbrev seg_format : List ℕ
seg_format = codes ": sel=%x, attr=%x, limit=%x, base=%x\n"

seg_line_lem : dump_literal seg_line ≡ 37 ∷ 115 ∷ seg_format
unfolding dump_literal
seg_line_lem = refl

selector_lem :
    (pointer : ℕ) (name : DumpLiteral) (s : SegSelector)
    → dump_literal name ++ render (pointer ∷ selector_words s) false seg_format 1
      ≡ selector_text (dump_string name) s
unfolding dump_literal nth
selector_lem pointer name s = refl

dump_calls-are_literals :
    (vmcb : ℕ) (v : Vmcb) → are_literals dump_literal (dump_calls vmcb v) ≡ true
unfolding dump_calls dump_literal
dump_calls-are_literals vmcb v = refl

selectors-are_names : (v : Vmcb) → are_names (dump_selectors v) ≡ true
unfolding dump_selectors dump_literal
selectors-are_names v = refl

-- `at` says where the literals lie; `buf` is the buffer of `printf`.
module _ (at : DumpLiteral → ℕ) (fuel buf : ℕ) (placed : Placed dump_literal at fuel buf)
    (enough : 2048 ≤ fuel) where
  seg_selector_dump-Leaves :
      (name : DumpLiteral) (s : SegSelector) (c : Console) (screen : Terminal)
      → is_name (dump_literal name) ≡ true
      → HoldsLiterals dump_literal at fuel buf c.mem
      → Shows c.mem c screen
      → Leaves dump_literal at fuel buf c.mem
          (type_text (selector_text (dump_string name) s) screen)
          (seg_selector_dump at fuel buf name s c)
  unfolding seg_selector_dump
  seg_selector_dump-Leaves name s c screen short holds shows =
      rw (sym (selector_lem (at name) name s)) (
        named-Leaves dump_literal at fuel buf placed enough seg_line name seg_format
          (selector_words s) c screen seg_line_lem refl short holds shows)

  selectors_dump-Leaves :
      (l : List (DumpLiteral × SegSelector)) (c : Console) (screen : Terminal)
      → are_names l ≡ true
      → HoldsLiterals dump_literal at fuel buf c.mem
      → Shows c.mem c screen
      → Leaves dump_literal at fuel buf c.mem
          (type_text (selectors_text (named l)) screen)
          (selectors_dump at fuel buf l c)
  unfolding selectors_dump
  selectors_dump-Leaves [] c screen short holds shows = (holds, (shows, λ x off out. refl))
  selectors_dump-Leaves ((name, s) ∷ rest) c screen short holds shows =
      and_next-Leaves dump_literal at fuel buf placed enough c.mem screen
        (selector_text (dump_string name) s) (selectors_text (named rest)) _ _
        (seg_selector_dump-Leaves name s c screen (ground (arith, short)) holds shows)
        (λ c1 holds1 shows1 kept1.
          selectors_dump-Leaves rest c1 _ (ground (arith, short)) holds1 shows1)

  -- If the screen shows a terminal with the cursor on it, memory holds the literals of the dump at
  -- places outside the video memory and the buffer of `printf`, these two lie apart, and the fuel
  -- is 2048 or more: `vmcb_dump` returns. The screen shows the terminal on which the dump was
  -- typed: the fields of the control block with their names and values in hexadecimal, and a line
  -- for each of its ten selectors. No other byte has changed.
  pub vmcb_dump-Leaves :
      (vmcb : ℕ) (v : Vmcb) (c : Console) (screen : Terminal)
      → HoldsLiterals dump_literal at fuel buf c.mem
      → Shows c.mem c screen
      → Leaves dump_literal at fuel buf c.mem
          (type_text (dump_text vmcb v) screen)
          (vmcb_dump at fuel buf vmcb v c)
  unfolding vmcb_dump dump_selectors
  vmcb_dump-Leaves vmcb v c screen holds shows =
      and_next-Leaves dump_literal at fuel buf placed enough c.mem screen (fields_text vmcb v)
        (selectors_text (named (dump_selectors v))) _ _
        (rw (sym (fields_lem vmcb v)) (
          print_calls-Leaves dump_literal at fuel buf placed enough (dump_calls vmcb v) c screen
            (dump_calls-are_literals vmcb v) holds shows))
        (λ c1 holds1 shows1 kept1.
          selectors_dump-Leaves (dump_selectors v) c1 _ (selectors-are_names v) holds1 shows1)
