-- ===== src/Console.antt =====
-- kernel/printf.c: the screen, and text in the formats of `printf`. Memory holds the strings, the
-- buffers and the screen's cells alike. The `int` variables stay below 2^31.
pub mod Buffer
pub mod Hex
pub mod Format
pub mod Terminal
pub mod Screen
pub mod Print
pub mod Render
pub mod Printer
pub mod Sample
mod Tests
use tvmm.Base.{
  ℕ, zero, suc, ◌+◌, ◌-◌, ◌*◌, ◌/◌, ◌%◌, ◌^◌, Bool, true, false, ltb, leb, ◌==◌, ◌!=◌, bit_and,
  if◌then◌else◌, List, [], ◌∷◌, length,
}
use tvmm.Base.Word.{shr}
use tvmm.Memory.{Mem, byte, store8}
use tvmm.CString.{memmove}
use tvmm.Failure.{Failure, bad_format}

abbrev pub video_mem : ℕ
video_mem = 0xb8000

abbrev pub cols : ℕ
cols = 80

abbrev pub lines : ℕ
lines = 25

-- Memory, and the static variable `scr_info`.
pub record Console : Type 0 where
  pub mem : Mem
  pub orig_x : ℕ
  pub orig_y : ℕ

-- What a call comes to. `stop` is a call of `fatal_failure`.
pub data Printed (A : Type 0) : Type 0 where
  ok : A → Printed A
  stop : Failure → Printed A
  no_fuel : Printed A

abbrev pub and_next : {A B : Type 0} → Printed A → (A → Printed B) → Printed B
and_next (ok a) k = k a
and_next (stop f) k = stop f
and_next no_fuel k = no_fuel

-- `for ( i = ...; i < LINES * COLS * 2; i += 2 )`, with the rounds left.
unfoldable pub blank_loop : ℕ → ℕ → Mem → Mem
blank_loop zero i m = m
blank_loop (suc left) i m = blank_loop left (i + 2) (store8 m (video_mem + i) 32)

unfoldable pub scroll : Mem → Mem
scroll m =
    blank_loop cols ((lines - 1) * cols * 2)
      (memmove m video_mem (video_mem + cols * 2) ((lines - 1) * cols * 2))

-- `x = 0; if ( ++y >= LINES ) { scroll ( ); y--; }`.
unfoldable pub next_line : Console → Console
next_line c =
    let y = c.orig_y + 1 in
    if leb lines y
    then record { mem = scroll c.mem; orig_x = 0; orig_y = y - 1 }
    else record { mem = c.mem; orig_x = 0; orig_y = y }

-- One round of the loop of `putstr`.
unfoldable pub put_char : ℕ → Console → Console
put_char ch c =
    let cell = video_mem + (c.orig_x + cols * c.orig_y) * 2 in
    let shown : Console = record c { mem = store8 c.mem cell ch } in
    if ch == 10
    then next_line c
    else (if leb cols (c.orig_x + 1)
        then next_line shown
        else record shown { orig_x = c.orig_x + 1 })

unfoldable pub putstr : ℕ → ℕ → Console → Printed Console
putstr zero s c = no_fuel
putstr (suc fuel) s c =
    let ch = byte c.mem s in
    let rest = putstr fuel (s + 1) (put_char ch c) in if ch == 0 then ok c else rest

-- `DIGITS [ d ]`.
unfoldable pub hex_digit : ℕ → ℕ
hex_digit d = if ltb d 10 then 48 + d else 87 + d

-- The `do` loop of `number`: what it puts into `tmp`. A number of 64 bits has 16 digits at most.
unfoldable pub tmp_digits : ℕ → ℕ → List ℕ
tmp_digits zero n = []
tmp_digits (suc fuel) n =
    let rest = tmp_digits fuel (shr n 4) in
    hex_digit (bit_and n 0xf) ∷ (if shr n 4 == 0 then [] else rest)

unfoldable pub nth : List ℕ → ℕ → ℕ
nth [] i = 0
nth (x ∷ xs) zero = x
nth (x ∷ xs) (suc i) = nth xs i

-- The second loop of `number`, from `i` on; `left` is `len - i`.
unfoldable pub copy_digits : List ℕ → ℕ → ℕ → ℕ → ℕ → ℕ → Mem → Mem
copy_digits tmp buf size j zero i m = m
copy_digits tmp buf size j (suc left) i m =
    copy_digits tmp buf size j left (i + 1)
      (if ltb (j + i) size then store8 m (buf + (j + 2 + i)) (nth tmp left) else m)

-- The memory after it, and the result.
unfoldable pub number : ℕ → ℕ → ℕ → ℕ → Mem → ℕ × Mem
number buf size j num m =
    let tmp = tmp_digits 16 num in
    let m1 = store8 m (buf + j) 48 in
    let m2 = store8 m1 (buf + (j + 1)) 120 in
    (length tmp + 2, copy_digits tmp buf size j (length tmp) 0 m2)

-- `PUT_CHAR`, less the increment.
unfoldable pub put_to : ℕ → ℕ → ℕ → ℕ → Mem → Mem
put_to buf size index c m = if ltb index size then store8 m (buf + index) c else m

-- The loop of `%s`, from `s` and index `j` on.
unfoldable pub put_text : ℕ → ℕ → ℕ → ℕ → ℕ → Mem → Printed (ℕ × Mem)
put_text zero buf size s j m = no_fuel
put_text (suc fuel) buf size s j m =
    let c = byte m s in
    let rest = put_text fuel buf size (s + 1) (j + 1) (put_to buf size j c m) in
    if c == 0 then ok (j, m) else rest

-- The words that `va_arg` takes, one after the other.
abbrev pub VaList : Type 0
VaList = ℕ → ℕ

-- The `switch`, at index `j` of the buffer and argument `k`.
unfoldable pub directive : ℕ → ℕ → ℕ → VaList → ℕ → ℕ → ℕ → Mem → Printed (ℕ × ℕ × Mem)
directive fuel buf size args c j k m =
    if c == 99
    then ok (j + 1, k + 1, put_to buf size j (args k) m)
    else (if c == 115
        then and_next (put_text fuel buf size (args k) j m) (λ (j', m'). ok (j', k + 1, m'))
        else (if c == 120
            then (let (len, m') = number buf size j (args k) m in ok (j + len, k + 1, m'))
            else (if c == 37 then ok (j + 1, k, put_to buf size j 37 m) else stop bad_format)))

-- The loop of `vsnprintf`, where `fmt` is the address of the next character.
unfoldable pub format_loop : ℕ → ℕ → ℕ → VaList → ℕ → ℕ → ℕ → Mem → Printed (ℕ × Mem)
format_loop zero buf size args fmt j k m = no_fuel
format_loop (suc fuel) buf size args fmt j k m =
    let c = byte m fmt in
    let plain = format_loop fuel buf size args (fmt + 1) (j + 1) k (put_to buf size j c m) in
    let special =
      and_next (directive fuel buf size args (byte m (fmt + 1)) j k m)
        (λ (j', k', m'). format_loop fuel buf size args (fmt + 2) j' k' m') in
    if c == 0 then ok (j, m) else (if c != 37 then plain else special)

unfoldable pub vsnprintf : ℕ → ℕ → ℕ → ℕ → VaList → Mem → Printed (ℕ × Mem)
vsnprintf fuel buf size fmt args m =
    if leb size 0
    then ok (0, m)
    else and_next (format_loop fuel buf size args fmt 0 0 m)
        (λ (j, m'). ok (j, if ltb j size then store8 m' (buf + j) 0 else m'))

-- `buf` is the address of the static buffer.
unfoldable pub printf : ℕ → ℕ → ℕ → VaList → Console → Printed Console
printf fuel buf fmt args c =
    and_next (vsnprintf fuel buf 1024 fmt args c.mem)
      (λ (j, m). putstr fuel buf (record c { mem = m }))
