-- ===== src/E820/PrintMap.antt =====
-- kernel/e820.c: `e820_print_map`, and what it prints.
use tvmm.Base.{
  ℕ, ◌+◌, ◌≤◌, ◌≡◌, refl, sym, ap, ◌∙◌, true, ◌==◌, if◌then◌else◌, Bool-cases, inl, inr, List, [],
  ◌∷◌, ◌++◌,
}
use tvmm.Base.Word.{w64}
use tvmm.Console.{Console, Printed, nth}
use tvmm.Console.Hex.{hex}
use tvmm.Console.Render.{is_literal}
use tvmm.Console.Printer.{
  Placed, HoldsLiterals, Leaves, calls_text, print_calls, all-are_literals, print_calls-Leaves,
}
use tvmm.Console.Terminal.{Terminal, type_text}
use tvmm.Console.Screen.{Shows}
use tvmm.E820.{E820Map, ram, reserved, acpi, nvs}
use tvmm.VmExit.{codes}

pub data MapLiteral : Type 0 where
  map_head range_text usable reserved_text acpi_text nvs_text type_line : MapLiteral

unfoldable pub map_literal : MapLiteral → List ℕ
map_literal map_head = codes "BIOS-provided physical RAM map:\n"
map_literal range_text = codes " %x - %x "
map_literal usable = codes "(usable)\n"
map_literal reserved_text = codes "(reserved)\n"
map_literal acpi_text = codes "(ACPI data)\n"
map_literal nvs_text = codes "(ACPI NVS)\n"
map_literal type_line = codes "type %x\n"

-- The `switch`.
unfoldable pub type_call : ℕ → MapLiteral × List ℕ
type_call type =
    if type == ram
    then (usable, [])
    else (if type == reserved
        then (reserved_text, [])
        else (if type == acpi
            then (acpi_text, [])
            else (if type == nvs then (nvs_text, []) else (type_line, type ∷ []))))

-- The loop's calls of `printf`.
unfoldable pub entry_calls : E820Map → List (MapLiteral × List ℕ)
entry_calls [] = []
entry_calls (p ∷ rest) =
    (range_text, p.addr ∷ w64 (p.addr + p.size) ∷ []) ∷ type_call p.type ∷ entry_calls rest

-- `at` says where the literals lie; `buf` is the buffer of `printf`.
module _ (at : MapLiteral → ℕ) (fuel buf : ℕ) where
  unfoldable pub e820_print_map : E820Map → Console → Printed Console
  e820_print_map e820 = print_calls map_literal at fuel buf ((map_head, []) ∷ entry_calls e820)

abbrev type_text_of : ℕ → List ℕ
type_text_of type =
    if type == 1
    then codes "(usable)\n"
    else (if type == 2
        then codes "(reserved)\n"
        else (if type == 3
            then codes "(ACPI data)\n"
            else (if type == 4
                then codes "(ACPI NVS)\n"
                else codes "type " ++ (hex type ++ codes "\n"))))

-- One line for each entry: where it begins and ends, and what it is.
abbrev entries_text : E820Map → List ℕ
entries_text [] = []
entries_text (p ∷ rest) =
    (codes " " ++ (hex p.addr ++ (codes " - " ++ (hex (w64 (p.addr + p.size)) ++ codes " "))))
    ++ (type_text_of p.type ++ entries_text rest)

abbrev pub map_text : E820Map → List ℕ
map_text e820 = codes "BIOS-provided physical RAM map:\n" ++ entries_text e820

map_literal-formats : (l : MapLiteral) → is_literal (map_literal l) ≡ true
unfolding map_literal
map_literal-formats map_head = refl
map_literal-formats range_text = refl
map_literal-formats usable = refl
map_literal-formats reserved_text = refl
map_literal-formats acpi_text = refl
map_literal-formats nvs_text = refl
map_literal-formats type_line = refl

type_lem :
    (type : ℕ) (rest : List (MapLiteral × List ℕ))
    → calls_text map_literal (type_call type ∷ rest)
      ≡ type_text_of type ++ calls_text map_literal rest
unfolding type_call map_literal nth
type_lem type rest = elim (Bool-cases (type == 1)) [
  | inl a ↦ rw a refl
  | inr a ↦ elim (Bool-cases (type == 2)) [
    | inl b ↦ rw (a, b) refl
    | inr b ↦ elim (Bool-cases (type == 3)) [
      | inl c ↦ rw (a, b, c) refl
      | inr c ↦ elim (Bool-cases (type == 4)) [
        | inl d ↦ rw (a, b, c, d) refl
        | inr d ↦ rw (a, b, c, d) refl
      ]
    ]
  ]
]

entries_lem : (e820 : E820Map) → calls_text map_literal (entry_calls e820) ≡ entries_text e820
unfolding entry_calls map_literal nth
entries_lem [] = refl
entries_lem (p ∷ rest) =
    let begin =
      codes " " ++ (hex p.addr ++ (codes " - " ++ (hex (w64 (p.addr + p.size)) ++ codes " "))) in
    ap (λ t. begin ++ t)
      (type_lem p.type (entry_calls rest) ∙ ap (λ t. type_text_of p.type ++ t) (entries_lem rest))

map_lem :
    (e820 : E820Map) → calls_text map_literal ((map_head, []) ∷ entry_calls e820) ≡ map_text e820
unfolding map_literal
map_lem e820 = ap (λ t. codes "BIOS-provided physical RAM map:\n" ++ t) (entries_lem e820)

-- If the screen shows a terminal with the cursor on it, memory holds the literals of the function
-- at places outside the video memory and the buffer of `printf`, these two lie apart, and the fuel
-- is 2048 or more: `e820_print_map` returns, whatever the map. The screen shows the terminal on
-- which a head was typed and a line for each entry of the map in its order, with its two ends, of
-- 64 bits, in hexadecimal and the name or the number of its type. No other byte has changed.
pub e820_print_map-Leaves :
    (at : MapLiteral → ℕ) (fuel buf : ℕ)
    → Placed map_literal at fuel buf
    → 2048 ≤ fuel
    → (e820 : E820Map) (c : Console) (screen : Terminal)
    → HoldsLiterals map_literal at fuel buf c.mem
    → Shows c.mem c screen
    → Leaves map_literal at fuel buf c.mem
        (type_text (map_text e820) screen)
        (e820_print_map at fuel buf e820 c)
unfolding e820_print_map
e820_print_map-Leaves at fuel buf placed enough e820 c screen holds shows =
    let calls : List (MapLiteral × List ℕ) = (map_head, []) ∷ entry_calls e820 in
    rw (sym (map_lem e820)) (
      print_calls-Leaves map_literal at fuel buf placed enough calls c screen
        (all-are_literals map_literal map_literal-formats calls) holds shows)
