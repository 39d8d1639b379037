-- ===== src/Console/Sample.antt =====
-- A memory for tests that holds a program's literals, 128 bytes apart, and a screen with the cursor
-- in its first cell.
use tvmm.Base.{
  ℕ, zero, suc, ◌+◌, ◌-◌, ◌*◌, ◌/◌, ◌%◌, ◌≤◌, ◌<◌, ◌≡◌, refl, ap, ◌∙◌, arith, inl, inr, Bool, true,
  ltb, ◌&&◌, ◌!=◌, List, [], ◌∷◌, length,
}
use tvmm.Memory.{Mem, byte}
use tvmm.CString.Strings.{HoldsString}
use tvmm.Console.{Console, nth, cols, video_mem}
use tvmm.Console.Printer.{Placed, HoldsLiterals}
use tvmm.Console.Terminal.{Terminal}
use tvmm.Console.Screen.{Shows}

abbrev are_chars : List ℕ → Bool
are_chars [] = true
are_chars (c ∷ cs) = c != 0 && ltb c 256 && are_chars cs

abbrev pub is_short : List ℕ → Bool
is_short t = are_chars t && ltb (length t) 128

nth-HoldsString :
    (m : Mem) (s : ℕ) (t : List ℕ)
    → ((i : ℕ) → i ≤ length t → m (s + i) ≡ nth t i)
    → are_chars t ≡ true
    → HoldsString m s t
unfolding nth
nth-HoldsString m s [] at h = ap (λ v. v % 256) (ap m (omega arith) ∙ at 0 (omega arith))
nth-HoldsString m s (c ∷ t) at h = (
  (let here : m s ≡ c = ap m (omega arith) ∙ at 0 (omega arith) in ground (arith, h, here)),
  ground (arith, h),
  nth-HoldsString m (s + 1) t (λ i le. ap m (omega arith) ∙ at (suc i) (omega (arith, le)))
      (ground (arith, h)),
)

-- The literals of the list, one of which is at the place `slot`.
module _ {L : Type 0} (literal : L → List ℕ) (texts : List L) (slot : L → ℕ) where
  abbrev text_at : List L → ℕ → List ℕ
  text_at [] k = []
  text_at (l ∷ ls) zero = literal l
  text_at (l ∷ ls) (suc k) = text_at ls k

  abbrev start : ℕ
  start = 0x10_0000

  abbrev pub place : L → ℕ
  place l = start + 128 * slot l

  abbrev pub literal_mem : Mem
  literal_mem x = nth (text_at texts ((x - start) / 128)) ((x - start) % 128)

  -- Each literal has its number.
  abbrev pub IsNumbered : Type 0
  IsNumbered = (l : L) → (text_at texts (slot l) ≡ literal l) × (is_short (literal l) ≡ true)

  pub literal_mem-HoldsLiterals : IsNumbered → HoldsLiterals literal place 2048 0x2000 literal_mem
  literal_mem-HoldsLiterals numbered l =
      let (text, short) = numbered l in
      nth-HoldsString literal_mem (place l) (literal l)
        (λ i le.
          let low : i < 128 = ground (arith, le, short) in
          let which : (place l + i - start) / 128 ≡ slot l = omega (arith, low) in
          let offset : (place l + i - start) % 128 ≡ i = omega (arith, low) in
          ap (λ k. nth (text_at texts k) ((place l + i - start) % 128)) which
          ∙ ap (λ t. nth t ((place l + i - start) % 128)) text
          ∙ ap (nth (literal l)) offset)
        (ground (arith, short))

  pub place-Placed : Placed literal place 2048 0x2000
  place-Placed = record {
    off_buffer = λ l. inr (omega arith);
    off_screen = λ l. inr (omega arith);
    buffer = inl (omega arith);
  }

  abbrev pub console : Console
  console = record { mem = literal_mem; orig_x = 0; orig_y = 0 }

  abbrev pub screen : Terminal
  screen = record { cell = λ y x. byte literal_mem (video_mem + (x + cols * y) * 2); x = 0; y = 0 }

  pub console-Shows : Shows literal_mem console screen
  console-Shows = record {
    at_x = refl;
    at_y = refl;
    on_screen = (omega arith, omega arith);
    cells = λ y x below left. refl;
    outside = λ x out. refl;
  }
