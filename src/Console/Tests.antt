-- ===== src/Console/Tests.antt =====
-- The format "%x" and a line feed, on a screen of zeros with the cursor in the last line.
use tvmm.Base.{
  ℕ, ◌+◌, ◌≡◌, inl, refl, arith, ◌==◌, if◌then◌else◌, List, [], ◌∷◌, ◌++◌, some, length,
}
use tvmm.Memory.{Mem}
use tvmm.CString.Strings.{HoldsString}
use tvmm.Console.{Console, VaList, number, tmp_digits, hex_digit, nth, printf, vsnprintf}
use tvmm.Console.Buffer.{Written}
use tvmm.Console.Hex.{hex, read_hex, number-reads_back, number-past_end}
use tvmm.Console.Format.{Renders, plain, hexadecimal, end, Formats, vsnprintf-Formats}
use tvmm.Console.Terminal.{Terminal, type_text}
use tvmm.Console.Screen.{Shows}
use tvmm.Console.Print.{ShowsBesides, printf-Shows}

abbrev format_mem : Mem
format_mem a =
    if a == 0x1000 then 37 else (if a == 0x1001 then 120 else (if a == 0x1002 then 10 else 0))

abbrev words : VaList
words k = 42

abbrev format : List ℕ
format = 37 ∷ 120 ∷ 10 ∷ []

abbrev rendered : List ℕ
rendered = hex 42 ++ (10 ∷ [])

abbrev console : Console
console = record { mem = format_mem; orig_x = 0; orig_y = 24 }

abbrev screen : Terminal
screen = record { cell = λ y x. 0; x = 0; y = 24 }

format-HoldsString : HoldsString format_mem 0x1000 format
format-HoldsString = (refl, omega arith, (refl, omega arith, (refl, omega arith, refl)))

format-Renders : Renders 0x2000 1024 words format_mem format 0 rendered
format-Renders = hexadecimal (plain (omega arith) end)

console-Shows : Shows format_mem console screen
console-Shows = record {
  at_x = refl;
  at_y = refl;
  on_screen = (omega arith, omega arith);
  cells = λ y x below left. ground arith;
  outside = λ x out. refl;
}

rendered_text : rendered ≡ 48 ∷ 120 ∷ 50 ∷ 97 ∷ 10 ∷ []
unfolding tmp_digits hex_digit nth
rendered_text = refl

vsnprintf-Formats_example :
    Formats 0x2000 1024 1024 format_mem rendered (vsnprintf 64 0x2000 1024 0x1000 words format_mem)
unfolding tmp_digits
vsnprintf-Formats_example =
    vsnprintf-Formats 0x2000 1024 1024 (omega arith) words format_mem 0x1000 64 format rendered
      (omega arith) format-Renders (omega arith) (omega arith) (inl (omega arith))
      format-HoldsString

printf-Shows_example :
    ShowsBesides 0x2000 format_mem
      (type_text rendered screen)
      (printf 64 0x2000 0x1000 words console)
unfolding tmp_digits hex_digit nth
printf-Shows_example =
    printf-Shows 0x2000 64 0x1000 words console format rendered screen format-Renders (omega arith)
      (omega arith) (omega arith, (omega arith, (omega arith, (omega arith, (omega arith, tt)))))
      (inl (omega arith)) (inl (omega arith)) format-HoldsString console-Shows

number-reads_back_example :
    (t : List ℕ) × ((number 0x2000 1024 3 42 format_mem).0 ≡ length t)
    × Written 0x2000 1024 1024 format_mem 3 t (number 0x2000 1024 3 42 format_mem).1
    × (read_hex t ≡ some 42)
number-reads_back_example =
    number-reads_back 0x2000 1024 3 42 format_mem (omega arith) (omega arith)

number-past_end_example :
    ((number 0x2000 4 9 42 format_mem).1 (0x2000 + 9) ≡ 48)
    × ((number 0x2000 4 9 42 format_mem).1 (0x2000 + (9 + 1)) ≡ 120)
number-past_end_example = number-past_end 0x2000 4 9 42 format_mem (omega arith)
