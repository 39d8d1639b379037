-- ===== src/Console/Printer.antt =====
-- Calls of `printf` one after the other, where the formats are string literals of the program.
use tvmm.Base.{
  ℕ, ◌+◌, ◌%◌, ◌≤◌, ◌<◌, ◌≡◌, ◌⊎◌, refl, sym, ap, ◌∙◌, subst, arith, Bool, true, false, ◌&&◌,
  length, List, [], ◌∷◌, ◌++◌,
}
use tvmm.Memory.{Mem, byte}
use tvmm.CString.Strings.{HoldsString, HoldsString-ext}
use tvmm.Console.{Console, Printed, ok, stop, no_fuel, and_next, nth, video_mem, printf}
use tvmm.Console.Buffer.{IsAway, length-++}
use tvmm.Console.Format.{Renders, string}
use tvmm.Console.Render.{
  is_hex_format, is_literal, is_short_literal, is_name, name-IsVisible, IsVisible-++, render,
  render-Renders, render-IsVisible, length-render,
}
use tvmm.Console.Terminal.{Terminal, type_char, type_text}
use tvmm.Console.Screen.{Shows, ShowsAfter, IsOutside, video_size}
use tvmm.Console.Print.{IsVisible, printf-Shows}

module _ {L : Type 0} (literal : L → List ℕ) where
  -- The text of statements in their order.
  abbrev pub calls_text : List (L × List ℕ) → List ℕ
  calls_text [] = []
  calls_text ((l, args) ∷ calls) = render args false (literal l) 0 ++ calls_text calls

  abbrev pub are_literals : List (L × List ℕ) → Bool
  are_literals [] = true
  are_literals ((l, args) ∷ calls) = is_literal (literal l) && are_literals calls

  pub all-are_literals :
      ((l : L) → is_literal (literal l) ≡ true)
      → (calls : List (L × List ℕ)) → are_literals calls ≡ true
  all-are_literals formats [] = refl
  all-are_literals formats ((l, args) ∷ calls) =
      ground (arith, formats l, all-are_literals formats calls)

-- A format, and the words behind it.
module _ {L : Type 0} (literal : L → List ℕ) (at : L → ℕ) (fuel buf : ℕ) where
  -- Statements `printf ( l, args );` in their order.
  abbrev pub print_calls : List (L × List ℕ) → Console → Printed Console
  print_calls [] c = ok c
  print_calls ((l, args) ∷ calls) c =
      and_next (printf fuel buf (at l) (nth args) c) (print_calls calls)

type_text-++ :
    (t u : List ℕ) (screen : Terminal)
    → type_text (t ++ u) screen ≡ type_text u (type_text t screen)
type_text-++ [] u screen = refl
type_text-++ (c ∷ t) u screen = type_text-++ t u (type_char c screen)

module _ {L : Type 0} (literal : L → List ℕ) (at : L → ℕ) (fuel buf : ℕ) where
  -- Memory holds the program's literals.
  abbrev pub HoldsLiterals : Mem → Type 0
  HoldsLiterals m = (l : L) → HoldsString m (at l) (literal l)

  -- They lie outside the buffer of `printf` and the video memory.
  pub record Placed : Type 0 where
    pub off_buffer : (l : L) → IsAway buf 1024 (at l) (literal l)
    pub off_screen : (l : L) → IsAway video_mem video_size (at l) (literal l)
    pub buffer : (buf + 1024 ≤ video_mem) ⊎ (video_mem + video_size ≤ buf)

  -- No byte outside the buffer and the video memory has changed.
  abbrev pub IsKept : Mem → Mem → Type 0
  IsKept m m' = (x : ℕ) → (x < buf) ⊎ (buf + 1024 ≤ x) → IsOutside x → byte m' x ≡ byte m x

  -- The calls have returned, the screen shows the terminal, and the rest of memory, the literals
  -- among it, is as it was in `m`.
  abbrev pub Leaves : Mem → Terminal → Printed Console → Type 0
  Leaves m screen (ok c) = HoldsLiterals c.mem × (Shows c.mem c screen × IsKept m c.mem)
  Leaves m screen (stop f) = ⊥
  Leaves m screen no_fuel = ⊥

  module _ (placed : Placed) (enough : 2048 ≤ fuel) where
    kept-Leaves :
        (m m1 : Mem) (screen : Terminal) (r : Printed Console)
        → HoldsLiterals m
        → ((x : ℕ) → (x < buf) ⊎ (buf + 1024 ≤ x) → m1 x ≡ m x)
        → ShowsAfter m1 screen r
        → Leaves m screen r
    kept-Leaves m m1 screen (ok c) holds same shows =
        let kept : IsKept m c.mem =
          λ x off out. shows.outside x out ∙ ap (λ v. v % 256) (same x off) in
        (
          (λ l.
              HoldsString-ext m c.mem (at l) (literal l)
                (λ x lo hi.
                  kept x (omega (arith, lo, hi, placed.off_buffer l))
                    (omega (arith, lo, hi, placed.off_screen l)))
                (holds l)),
          (
            record {
              at_x = shows.at_x;
              at_y = shows.at_y;
              on_screen = shows.on_screen;
              cells = shows.cells;
              outside = λ x out. refl;
            },
            kept,
          ),
        )
    kept-Leaves m m1 screen (stop f) holds same h = h
    kept-Leaves m m1 screen no_fuel holds same h = h

    again-IsKept :
        (m m1 : Mem) (screen : Terminal) (r : Printed Console)
        → IsKept m m1
        → Leaves m1 screen r
        → Leaves m screen r
    again-IsKept m m1 screen (ok c) first (holds, (shows, second)) =
        (holds, (shows, λ x off out. second x off out ∙ first x off out))
    again-IsKept m m1 screen (stop f) first h = h
    again-IsKept m m1 screen no_fuel first h = h

    visible-Leaves :
        (l : L) (args t : List ℕ) (c : Console) (screen : Terminal)
        → Renders buf 1024 (nth args) c.mem (literal l) 0 t
        → IsVisible t
        → length (literal l) ≤ 1023
        → length t ≤ 1023
        → HoldsLiterals c.mem
        → Shows c.mem c screen
        → Leaves c.mem (type_text t screen) (printf fuel buf (at l) (nth args) c)
    visible-Leaves l args t c screen renders seen long text holds shows =
        let (m1, same, after) =
          printf-Shows buf fuel (at l) (nth args) c (literal l) t screen renders (omega arith)
            (omega arith) seen placed.buffer (placed.off_buffer l) (holds l) shows in
        kept-Leaves c.mem m1 _ _ holds same after

    pub printf-Leaves :
        (l : L) (args : List ℕ) (c : Console) (screen : Terminal)
        → is_literal (literal l) ≡ true
        → HoldsLiterals c.mem
        → Shows c.mem c screen
        → Leaves c.mem
            (type_text (render args false (literal l) 0) screen)
            (printf fuel buf (at l) (nth args) c)
    printf-Leaves l args c screen form =
        let hex_format : is_hex_format false (literal l) ≡ true = ground (arith, form) in
        let text : length (render args false (literal l) 0) ≤ 1023 =
          ground (arith, form, length-render args false (literal l) 0) in
        visible-Leaves l args _ c screen
          (render-Renders buf args c.mem false (literal l) 0 hex_format)
          (render-IsVisible args false (literal l) 0 hex_format) (ground (arith, form)) text

    -- A format that begins with `%s`, whose argument is a literal of few characters.
    pub named-Leaves :
        (l name : L) (cs args : List ℕ) (c : Console) (screen : Terminal)
        → literal l ≡ 37 ∷ 115 ∷ cs
        → is_short_literal cs ≡ true
        → is_name (literal name) ≡ true
        → HoldsLiterals c.mem
        → Shows c.mem c screen
        → Leaves c.mem
            (type_text (literal name ++ render (at name ∷ args) false cs 1) screen)
            (printf fuel buf (at l) (nth (at name ∷ args)) c)
    unfolding nth
    named-Leaves l name cs args c screen is form short holds shows =
        let words = at name ∷ args in
        let hex_format : is_hex_format false cs ≡ true = ground (arith, form) in
        let rest = render words false cs 1 in
        let renders : Renders buf 1024 (nth words) c.mem (37 ∷ 115 ∷ cs) 0 (literal name ++ rest) =
          string (literal name) (holds name) (placed.off_buffer name)
            (render-Renders buf words c.mem false cs 1 hex_format) in
        visible-Leaves l words (literal name ++ rest) c screen
          (subst (λ f. Renders buf 1024 (nth words) c.mem f 0 (literal name ++ rest)) (sym is)
            renders)
          (IsVisible-++ (literal name) rest (name-IsVisible (literal name) (ground (arith, short)))
            (render-IsVisible words false cs 1 hex_format))
          (rw is (ground (arith, form)))
          (ground
            (arith, form, short, length-render words false cs 1, length-++ (literal name) rest))
          holds shows

    pub and_next-Leaves :
        (m : Mem) (screen : Terminal) (t u : List ℕ) (r : Printed Console)
        (k : Console → Printed Console)
        → Leaves m (type_text t screen) r
        → ((c : Console)
            → HoldsLiterals c.mem
            → Shows c.mem c (type_text t screen)
            → IsKept m c.mem
            → Leaves c.mem (type_text u (type_text t screen)) (k c))
        → Leaves m (type_text (t ++ u) screen) (and_next r k)
    and_next-Leaves m screen t u (ok c) k (holds, (shows, kept)) rest =
        rw (type_text-++ t u screen) (again-IsKept m c.mem _ (k c) kept (rest c holds shows kept))
    and_next-Leaves m screen t u (stop f) k h rest = absurd h
    and_next-Leaves m screen t u no_fuel k h rest = absurd h

    -- Calls whose formats have no directive but `%x`.
    pub print_calls-Leaves :
        (calls : List (L × List ℕ)) (c : Console) (screen : Terminal)
        → are_literals literal calls ≡ true
        → HoldsLiterals c.mem
        → Shows c.mem c screen
        → Leaves c.mem
            (type_text (calls_text literal calls) screen)
            (print_calls literal at fuel buf calls c)
    print_calls-Leaves [] c screen forms holds shows = (holds, (shows, λ x off out. refl))
    print_calls-Leaves ((l, args) ∷ calls) c screen forms holds shows =
        and_next-Leaves c.mem screen (render args false (literal l) 0) (calls_text literal calls) _
          _ (printf-Leaves l args c screen (ground (arith, forms)) holds shows)
          (λ c1 holds1 shows1 kept1.
            print_calls-Leaves calls c1 _ (ground (arith, forms)) holds1 shows1)
