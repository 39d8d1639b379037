-- ===== src/Console/Screen.antt =====
-- `putstr` and `scroll`: the video memory shows what a text console promises.
use tvmm.Base.{
  ℕ, zero, suc, ◌+◌, ◌*◌, ◌%◌, ◌≤◌, ◌<◌, ◌≡◌, ◌≢◌, ◌⊎◌, inl, inr, refl, ap, ◌∙◌, arith, true, false,
  ltb, leb, ◌==◌, ◌&&◌, Bool-cases, length, List, [], ◌∷◌,
}
use tvmm.Memory.{Mem, byte, store8}
use tvmm.Memory.Laws.{store8_ne}
use tvmm.CString.{memmove}
use tvmm.CString.Laws.{memmove_lem}
use tvmm.CString.Strings.{HoldsString}
use tvmm.Console.{
  Console, Printed, ok, stop, no_fuel, video_mem, cols, lines, blank_loop, scroll, next_line,
  put_char, putstr,
}
use tvmm.Console.Terminal.{Terminal, feed, type_char, type_text, IsOnScreen, show_at_cursor}

abbrev pub video_size : ℕ
video_size = 4000

abbrev pub IsOutside : ℕ → Type 0
IsOutside x = (x < video_mem) ⊎ (video_mem + video_size ≤ x)

blank_loop_outside :
    (left i : ℕ) (m : Mem) (x : ℕ)
    → (x < video_mem + i) ⊎ (video_mem + i + 2 * left ≤ x)
    → blank_loop left i m x ≡ m x
unfolding blank_loop
blank_loop_outside zero i m x out = refl
blank_loop_outside (suc left) i m x out =
    blank_loop_outside left (i + 2) (store8 m (video_mem + i) 32) x (omega arith)
    ∙ store8_ne m (video_mem + i) 32 x (omega arith)

blank_loop_cells :
    (left i : ℕ) (m : Mem) (k : ℕ)
    → k < left
    → byte (blank_loop left i m) (video_mem + i + 2 * k) ≡ 32
unfolding blank_loop store8
blank_loop_cells zero i m k lt = absurd (omega arith)
blank_loop_cells (suc left) i m zero lt =
    ap (λ v. v % 256)
      (blank_loop_outside left (i + 2) (store8 m (video_mem + i) 32) (video_mem + i + 2 * 0)
        (omega arith))
    ∙ ground arith
blank_loop_cells (suc left) i m (suc k) lt =
    ap (λ a. byte (blank_loop left (i + 2) (store8 m (video_mem + i) 32)) a) (omega arith)
    ∙ blank_loop_cells left (i + 2) (store8 m (video_mem + i) 32) k (omega arith)

-- The lines move up, attributes included; the characters of the last one are blank.
scroll_up :
    (m : Mem) (i : ℕ) → i < 3840 → byte (scroll m) (video_mem + i) ≡ byte m (video_mem + 160 + i)
unfolding scroll
scroll_up m i lt =
    let moved = memmove m video_mem (video_mem + 160) 3840 in
    ap (λ v. v % 256) (blank_loop_outside 80 3840 moved (video_mem + i) (omega arith))
    ∙ memmove_lem m video_mem (video_mem + 160) 3840 (video_mem + i)
    ∙ ground arith

scroll_blank : (m : Mem) (x : ℕ) → x < 80 → byte (scroll m) (video_mem + 3840 + 2 * x) ≡ 32
unfolding scroll
scroll_blank m x lt = blank_loop_cells 80 3840 (memmove m video_mem (video_mem + 160) 3840) x lt

scroll_outside : (m : Mem) (x : ℕ) → IsOutside x → byte (scroll m) x ≡ byte m x
unfolding scroll
scroll_outside m x out =
    let moved = memmove m video_mem (video_mem + 160) 3840 in
    ap (λ v. v % 256) (blank_loop_outside 80 3840 moved x (omega arith))
    ∙ memmove_lem m video_mem (video_mem + 160) 3840 x
    ∙ ground arith

-- The video memory shows the terminal, and outside it the bytes are those of `m`.
pub record Shows (m : Mem) (c : Console) (t : Terminal) : Type 0 where
  pub at_x : c.orig_x ≡ t.x
  pub at_y : c.orig_y ≡ t.y
  pub on_screen : IsOnScreen t
  pub cells :
      (y x : ℕ) → y < lines → x < cols → byte c.mem (video_mem + (x + cols * y) * 2) ≡ t.cell y x
  pub outside : (x : ℕ) → IsOutside x → byte c.mem x ≡ byte m x

-- The cells of two places are not one.
different_cells :
    (x y x' y' : ℕ) → x < 80 → x' < 80 → (y == y' && x == x') ≡ false → x + 80 * y ≢ x' + 80 * y'
different_cells x y x' y' lt lt' apart same =
    let one : y ≡ y' = omega (arith, same) in ground (arith, same)

module _ (m : Mem) where
  next_line-Shows : (c : Console) (t : Terminal) → Shows m c t → Shows m (next_line c) (feed t)
  unfolding next_line
  next_line-Shows c t s = elim (Bool-cases (ltb (t.y + 1) 25)) [
    | inl room ↦
        let stays : leb 25 (c.orig_y + 1) ≡ false = ground (arith, s.at_y) in
        rw (room, stays)
          (record {
            at_x = refl;
            at_y = ap (λ y. y + 1) s.at_y;
            on_screen = (omega arith, ground arith);
            cells = s.cells;
            outside = s.outside;
          })
    | inr last ↦
        let scrolls : leb 25 (c.orig_y + 1) ≡ true = ground (arith, s.at_y) in
        rw (last, scrolls)
          (record {
            at_x = refl;
            at_y = omega (arith, s.at_y);
            on_screen = (omega arith, s.on_screen.1);
            cells = λ y x below left. elim (Bool-cases (ltb (y + 1) 25)) [
              | inl moved ↦ rw moved (
                  scroll_up c.mem ((x + 80 * y) * 2) (ground arith)
                  ∙ ap (byte c.mem) (omega arith)
                  ∙ s.cells (y + 1) x (ground arith) left)
              | inr blank ↦
                  rw blank (ap (byte (scroll c.mem)) (ground arith) ∙ scroll_blank c.mem x left)
            ];
            outside = λ x out. scroll_outside c.mem x out ∙ s.outside x out;
          })
  ]

  place-Shows :
      (c : Console) (t : Terminal) (ch : ℕ)
      → ch < 256
      → Shows m c t
      → Shows m
          (record c { mem = store8 c.mem (video_mem + (c.orig_x + cols * c.orig_y) * 2) ch })
          (show_at_cursor ch t)
  unfolding store8
  place-Shows c t ch lt s = record {
    at_x = s.at_x;
    at_y = s.at_y;
    on_screen = s.on_screen;
    cells = λ y x below left. elim (Bool-cases (y == t.y && x == t.x)) [
      | inl here ↦ rw here (
          let same : (x + 80 * y) ≡ c.orig_x + 80 * c.orig_y = ground (arith, s.at_x, s.at_y) in
          ground (arith, same))
      | inr other ↦ rw other (
          let apart : (x + 80 * y) ≢ c.orig_x + 80 * c.orig_y = λ same.
            different_cells x y t.x t.y left s.on_screen.0 other
              (omega (arith, s.at_x, s.at_y, same)) in
          ap (λ v. v % 256)
            (store8_ne c.mem (video_mem + (c.orig_x + cols * c.orig_y) * 2) ch
              (video_mem + (x + cols * y) * 2) (λ same. apart (omega (arith, same))))
          ∙ s.cells y x below left)
    ];
    outside = λ x out.
        ap (λ v. v % 256)
          (store8_ne c.mem (video_mem + (c.orig_x + cols * c.orig_y) * 2) ch x
            (omega (arith, s.at_x, s.at_y, s.on_screen, out)))
        ∙ s.outside x out;
  }

  put_char-Shows :
      (c : Console) (t : Terminal) (ch : ℕ)
      → ch < 256
      → Shows m c t
      → Shows m (put_char ch c) (type_char ch t)
  unfolding put_char
  put_char-Shows c t ch lt s =
      let placed = place-Shows c t ch lt s in
      elim (Bool-cases (ch == 10)) [
        | inl feeds ↦ rw feeds (next_line-Shows c t s)
        | inr shown ↦ rw shown (elim (Bool-cases (ltb (t.x + 1) 80)) [
          | inl room ↦
              let stays : leb 80 (c.orig_x + 1) ≡ false = ground (arith, s.at_x) in
              rw (room, stays)
                (record {
                  at_x = ap (λ x. x + 1) s.at_x;
                  at_y = s.at_y;
                  on_screen = (ground arith, s.on_screen.1);
                  cells = placed.cells;
                  outside = placed.outside;
                })
          | inr last ↦
              let wraps : leb 80 (c.orig_x + 1) ≡ true = ground (arith, s.at_x) in
              rw (last, wraps) (next_line-Shows _ _ placed)
        ])
      ]

  -- The run returns, and the screen shows the terminal.
  abbrev pub ShowsAfter : Terminal → Printed Console → Type 0
  ShowsAfter t (ok c) = Shows m c t
  ShowsAfter t (stop f) = ⊥
  ShowsAfter t no_fuel = ⊥

  -- If the screen shows a terminal with the cursor on it, and the string lies outside the video
  -- memory, then with more fuel than characters `putstr` returns, and the screen shows the terminal
  -- on which the string was typed: line feeds, wrapping and scrolling included. The cursor is on
  -- the screen, and no byte outside the video memory has changed.
  pub putstr-Shows :
      (str : List ℕ) (fuel s : ℕ) (c : Console) (t : Terminal)
      → length str < fuel
      → (s + length str < video_mem) ⊎ (video_mem + video_size ≤ s)
      → HoldsString m s str
      → Shows m c t
      → ShowsAfter (type_text str t) (putstr fuel s c)
  unfolding putstr
  putstr-Shows str zero s c t lt away h shows = absurd (omega arith)
  putstr-Shows [] (suc fuel) s c t lt away h shows = rw (shows.outside s (omega arith) ∙ h) shows
  putstr-Shows (ch ∷ str) (suc fuel) s c t lt away (here, some, rest) shows =
      let goes_on : (ch == 0) ≡ false = ground arith in
      rw (shows.outside s (omega arith) ∙ here, goes_on)
        (putstr-Shows str fuel (s + 1) (put_char ch c) (type_char ch t) (omega arith) (omega arith)
          rest (put_char-Shows c t ch (omega arith) shows))
