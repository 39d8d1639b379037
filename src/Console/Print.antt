-- ===== src/Console/Print.antt =====
-- `printf`: from the format to the screen.
use tvmm.Base.{
  ℕ, ◌+◌, ◌*◌, ◌%◌, ◌≤◌, ◌<◌, ◌≡◌, ◌≢◌, refl, ◌⊎◌, ap, ◌∙◌, subst, arith, length, List, [], ◌∷◌,
}
use tvmm.Memory.{Mem, byte}
use tvmm.CString.Strings.{HoldsString}
use tvmm.Console.{
  Console, VaList, Printed, ok, stop, no_fuel, and_next, video_mem, vsnprintf, putstr, printf,
}
use tvmm.Console.Buffer.{TextAt, IsAway}
use tvmm.Console.Format.{Renders, Formats, vsnprintf-Formats}
use tvmm.Console.Terminal.{Terminal, type_text}
use tvmm.Console.Screen.{Shows, ShowsAfter, video_size, putstr-Shows}

-- No character of the text is 0.
abbrev pub IsVisible : List ℕ → Type 0
IsVisible [] = Unit {0}
IsVisible (c ∷ t) = (c ≢ 0) × IsVisible t

-- A text that fits, with its 0, is a string in the buffer.
TextAt-HoldsString :
    (buf size limit : ℕ) (m : Mem) (j : ℕ) (t : List ℕ)
    → j + length t < size
    → IsVisible t
    → TextAt buf size limit m j t
    → byte m (buf + (j + length t)) ≡ 0
    → HoldsString m (buf + j) t
TextAt-HoldsString buf size limit m j [] lt seen h ends = ap (byte m) (omega arith) ∙ ends
TextAt-HoldsString buf size limit m j (c ∷ t) lt (some, seen) (here, rest) ends = (
  here (omega arith),
  some,
  subst (λ a. HoldsString m a t) (omega arith)
      (TextAt-HoldsString buf size limit m (j + 1) t (omega arith) seen rest
        (ap (byte m) (omega arith) ∙ ends)),
)

module _ (buf : ℕ) where
  -- The screen shows the terminal, and outside the video memory and the buffer of `printf` memory
  -- is `m`.
  abbrev pub ShowsBesides : Mem → Terminal → Printed Console → Type 0
  ShowsBesides m t r =
      (m1 : Mem) × ((x : ℕ) → (x < buf) ⊎ (buf + 1024 ≤ x) → m1 x ≡ m x) × ShowsAfter m1 t r

  print-Shows :
      (fuel : ℕ) (c : Console) (t : List ℕ) (screen : Terminal) (r : Printed (ℕ × Mem))
      → Formats buf 1024 1024 c.mem t r
      → length t < fuel
      → length t < 1024
      → IsVisible t
      → (buf + 1024 ≤ video_mem) ⊎ (video_mem + video_size ≤ buf)
      → Shows c.mem c screen
      → ShowsBesides c.mem
          (type_text t screen)
          (and_next r (λ (j, m). putstr fuel buf (record c { mem = m })))
  print-Shows fuel c t screen (ok (j, m1)) (at, f) lt fits seen away shows =
      let same : (x : ℕ) → (video_mem ≤ x) × (x < video_mem + video_size) → m1 x ≡ c.mem x =
        λ x inside. f.rest x (omega arith) in
      (
        m1,
        f.rest,
        putstr-Shows m1 t fuel buf (record c { mem = m1 }) screen lt (omega arith)
            (subst (λ a. HoldsString m1 a t) (omega arith)
              (TextAt-HoldsString buf 1024 1024 m1 0 t (omega arith) seen f.text
                (ap (byte m1) (omega arith) ∙ f.ending fits)))
            (record {
              at_x = shows.at_x;
              at_y = shows.at_y;
              on_screen = shows.on_screen;
              cells = λ y x below left.
                  ap (λ v. v % 256) (same (video_mem + (x + 80 * y) * 2) (omega arith))
                  ∙ shows.cells y x below left;
              outside = λ x out. refl;
            }),
      )
  print-Shows fuel c t screen (stop f) h lt fits seen away shows = absurd h
  print-Shows fuel c t screen no_fuel h lt fits seen away shows = absurd h

  -- If the screen shows a terminal with the cursor on it, and the format with its arguments stands
  -- for a text of less than 1024 characters, none of them 0, where the buffer lies outside the
  -- video memory, and the format and the strings among the arguments outside the buffer: with more
  -- fuel than the format and the text have characters, `printf` returns, and the screen shows the
  -- terminal on which the text was typed. No byte outside the buffer and the video memory has
  -- changed.
  pub printf-Shows :
      (fuel fmt : ℕ) (args : VaList) (c : Console) (cs t : List ℕ) (screen : Terminal)
      → Renders buf 1024 args c.mem cs 0 t
      → length cs + length t < fuel
      → length t < 1024
      → IsVisible t
      → (buf + 1024 ≤ video_mem) ⊎ (video_mem + video_size ≤ buf)
      → IsAway buf 1024 fmt cs
      → HoldsString c.mem fmt cs
      → Shows c.mem c screen
      → ShowsBesides c.mem (type_text t screen) (printf fuel buf fmt args c)
  unfolding printf
  printf-Shows fuel fmt args c cs t screen r lt fits seen away far h shows =
      print-Shows fuel c t screen (vsnprintf fuel buf 1024 fmt args c.mem)
        (vsnprintf-Formats buf 1024 1024 (omega arith) args c.mem fmt fuel cs t (omega arith) r lt
          (omega arith) far h)
        (omega arith) fits seen away shows
