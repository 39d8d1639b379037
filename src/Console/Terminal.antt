-- ===== src/Console/Terminal.antt =====
-- What a text console promises: a grid of characters and a cursor, on which text is typed.
use tvmm.Base.{ℕ, ◌+◌, ◌<◌, ltb, ◌==◌, ◌&&◌, if◌then◌else◌, List, [], ◌∷◌}
use tvmm.Console.{cols, lines}

-- `cell y x` is the character in line `y` and column `x`.
pub record Terminal : Type 0 where
  pub cell : ℕ → ℕ → ℕ
  pub x : ℕ
  pub y : ℕ

-- The cursor goes to the start of the next line; below the last line the text moves up, and the
-- last line is blank.
abbrev pub feed : Terminal → Terminal
feed t =
    if ltb (t.y + 1) lines
    then record t { x = 0; y = t.y + 1 }
    else record { cell = λ y x. if ltb (y + 1) lines then t.cell (y + 1) x else 32; x = 0; y = t.y }

abbrev pub show_at_cursor : ℕ → Terminal → Terminal
show_at_cursor c t = record t { cell = λ y x. if y == t.y && x == t.x then c else t.cell y x }

-- A line feed, or a character and the step to the place behind it.
abbrev pub type_char : ℕ → Terminal → Terminal
type_char c t =
    if c == 10
    then feed t
    else (if ltb (t.x + 1) cols
        then record (show_at_cursor c t) { x = t.x + 1 }
        else feed (show_at_cursor c t))

abbrev pub type_text : List ℕ → Terminal → Terminal
type_text [] t = t
type_text (c ∷ cs) t = type_text cs (type_char c t)

abbrev pub IsOnScreen : Terminal → Type 0
IsOnScreen t = (t.x < cols) × (t.y < lines)
