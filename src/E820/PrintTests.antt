-- ===== src/E820/PrintTests.antt =====
-- A map with an entry that wraps around.
use tvmm.Base.{ℕ, ◌^◌, ◌-◌, refl, arith, List, [], ◌∷◌}
use tvmm.Console.Sample.{
  IsNumbered, place, literal_mem, literal_mem-HoldsLiterals, place-Placed, console, screen,
  console-Shows,
}
use tvmm.Console.Printer.{Leaves}
use tvmm.Console.Terminal.{type_text}
use tvmm.E820.{E820Map}
use tvmm.E820.PrintMap.{
  MapLiteral, map_head, range_text, usable, reserved_text, acpi_text, nvs_text, type_line,
  map_literal, e820_print_map, map_text, e820_print_map-Leaves,
}

abbrev texts : List MapLiteral
texts = map_head ∷ range_text ∷ usable ∷ reserved_text ∷ acpi_text ∷ nvs_text ∷ type_line ∷ []

abbrev slot : MapLiteral → ℕ
slot map_head = 0
slot range_text = 1
slot usable = 2
slot reserved_text = 3
slot acpi_text = 4
slot nvs_text = 5
slot type_line = 6

slot-IsNumbered : IsNumbered map_literal texts slot
unfolding map_literal
slot-IsNumbered map_head = (refl, refl)
slot-IsNumbered range_text = (refl, refl)
slot-IsNumbered usable = (refl, refl)
slot-IsNumbered reserved_text = (refl, refl)
slot-IsNumbered acpi_text = (refl, refl)
slot-IsNumbered nvs_text = (refl, refl)
slot-IsNumbered type_line = (refl, refl)

abbrev pc_map : E820Map
pc_map =
    record { addr = 0; size = 0x9fc00; type = 1 }
    ∷ record { addr = 0xf_0000; size = 2 ^ 64 - 1; type = 5 }
    ∷ []

e820_print_map-Leaves_example :
    Leaves map_literal
      (place map_literal texts slot)
      2048
      0x2000
      (literal_mem map_literal texts slot)
      (type_text (map_text pc_map) (screen map_literal texts slot))
      (e820_print_map
        (place map_literal texts slot)
        2048
        0x2000
        pc_map
        (console map_literal texts slot))
e820_print_map-Leaves_example =
    e820_print_map-Leaves (place map_literal texts slot) 2048 0x2000
      (place-Placed map_literal texts slot) (omega arith) pc_map (console map_literal texts slot)
      (screen map_literal texts slot)
      (literal_mem-HoldsLiterals map_literal texts slot slot-IsNumbered)
      (console-Shows map_literal texts slot)
