-- ===== src/Console/Render.antt =====
-- The text of a format in which every directive is `%x`.
use tvmm.Base.{
  ℕ, zero, suc, bit_and, ◌+◌, ◌≤◌, ◌<◌, ◌≡◌, ◌≢◌, inl, inr, subst, arith, Bool, true, false, not,
  leb, ◌==◌, ◌!=◌, ◌&&◌, if◌then◌else◌, Bool-cases, length, List, [], ◌∷◌, ◌++◌,
}
use tvmm.Base.Word.{shr}
use tvmm.Memory.{Mem}
use tvmm.Console.{nth, hex_digit, tmp_digits}
use tvmm.Console.Buffer.{length-++}
use tvmm.Console.Hex.{hex, from_end, length-from_end, length-tmp_digits}
use tvmm.Console.Format.{Renders, end, plain, hexadecimal}
use tvmm.Console.Print.{IsVisible}

-- The text; the flag says that a '%' was read.
abbrev pub render : List ℕ → Bool → List ℕ → ℕ → List ℕ
render args pct [] k = []
render args true (c ∷ cs) k = hex (nth args k) ++ render args false cs (k + 1)
render args false (c ∷ cs) k =
    let rest = render args (c == 37) cs k in if c == 37 then rest else c ∷ rest

-- The format has no other directive, and no 0.
abbrev pub is_hex_format : Bool → List ℕ → Bool
is_hex_format pct [] = not pct
is_hex_format true (c ∷ cs) = c == 120 && is_hex_format false cs
is_hex_format false (c ∷ cs) = c != 0 && is_hex_format (c == 37) cs

-- The text has no more characters than this.
abbrev pub room : Bool → List ℕ → ℕ
room pct [] = 0
room true (c ∷ cs) = 18 + room false cs
room false (c ∷ cs) = 1 + room (c == 37) cs

abbrev pub is_literal : List ℕ → Bool
is_literal cs = is_hex_format false cs && leb (length cs) 1023 && leb (room false cs) 1023

-- The format leaves room for a name of 64 characters.
abbrev pub is_short_literal : List ℕ → Bool
is_short_literal cs = is_hex_format false cs && leb (length cs) 900 && leb (room false cs) 900

abbrev has_no_zero : List ℕ → Bool
has_no_zero [] = true
has_no_zero (c ∷ cs) = c != 0 && has_no_zero cs

abbrev pub is_name : List ℕ → Bool
is_name t = has_no_zero t && leb (length t) 64

-- What a '%' that was read leaves of the format.
abbrev behind : Bool → List ℕ → List ℕ
behind true cs = 37 ∷ cs
behind false cs = cs

pub render-Renders :
    (buf : ℕ) (args : List ℕ) (m : Mem) (pct : Bool) (cs : List ℕ) (k : ℕ)
    → is_hex_format pct cs ≡ true
    → Renders buf 1024 (nth args) m (behind pct cs) k (render args pct cs k)
render-Renders buf args m true [] k h = absurd (ground (arith, h))
render-Renders buf args m false [] k h = end
render-Renders buf args m true (c ∷ cs) k h =
    subst (λ x. Renders buf 1024 (nth args) m (37 ∷ x ∷ cs) k (render args true (c ∷ cs) k))
      (ground (arith, h))
      (hexadecimal (render-Renders buf args m false cs (k + 1) (ground (arith, h))))
render-Renders buf args m false (c ∷ cs) k h = elim (Bool-cases (c == 37)) [
  | inl is ↦
      let left : is_hex_format true cs ≡ true = ground (arith, h, is) in
      rw is (
        subst (λ x. Renders buf 1024 (nth args) m (x ∷ cs) k (render args true cs k))
          (ground (arith, is)) (render-Renders buf args m true cs k left))
  | inr other ↦
      let left : is_hex_format false cs ≡ true = ground (arith, h, other) in
      rw other (plain (ground (arith, other)) (render-Renders buf args m false cs k left))
]

hex_digit-some : (d : ℕ) → hex_digit d ≢ 0
unfolding hex_digit
hex_digit-some d = ground arith

tmp_digits-some : (n i fuel : ℕ) → i < length (tmp_digits fuel n) → nth (tmp_digits fuel n) i ≢ 0
unfolding tmp_digits nth
tmp_digits-some n i zero lt = absurd (omega arith)
tmp_digits-some n zero (suc fuel) lt = hex_digit-some (bit_and n 0xf)
tmp_digits-some n (suc i) (suc fuel) lt = elim (Bool-cases (shr n 4 == 0)) [
  | inl last ↦ absurd (
      ground (
        arith,
        last,
        subst
            (λ b.
              suc i
              < length (hex_digit (bit_and n 0xf) ∷ (if b then [] else tmp_digits fuel (shr n 4))))
            last lt,
      ))
  | inr more ↦ rw more (
      tmp_digits-some (shr n 4) i fuel (
        subst (λ b. i < length (if b then [] else tmp_digits fuel (shr n 4))) more
          (omega (arith, lt))))
]

pub IsVisible-++ : (t u : List ℕ) → IsVisible t → IsVisible u → IsVisible (t ++ u)
IsVisible-++ [] u seen rest = rest
IsVisible-++ (c ∷ t) u (some, seen) rest = (some, IsVisible-++ t u seen rest)

pub name-IsVisible : (t : List ℕ) → is_name t ≡ true → IsVisible t
name-IsVisible [] h = tt
name-IsVisible (c ∷ t) h = (ground (arith, h), name-IsVisible t (ground (arith, h)))

from_end-IsVisible :
    (tmp : List ℕ) (l : ℕ) → ((i : ℕ) → i < l → nth tmp i ≢ 0) → IsVisible (from_end tmp l)
from_end-IsVisible tmp zero some = tt
from_end-IsVisible tmp (suc l) some =
    (some l (omega arith), from_end-IsVisible tmp l (λ i lt. some i (omega arith)))

hex-IsVisible : (w : ℕ) → IsVisible (hex w)
hex-IsVisible w = (
  omega arith,
  (
    omega arith,
    from_end-IsVisible (tmp_digits 16 w) (length (tmp_digits 16 w))
        (λ i lt. tmp_digits-some w i 16 lt),
  ),
)

length-hex : (w : ℕ) → length (hex w) ≤ 18
length-hex w =
    omega
      (arith, length-from_end (tmp_digits 16 w) (length (tmp_digits 16 w)), length-tmp_digits 16 w)

pub render-IsVisible :
    (args : List ℕ) (pct : Bool) (cs : List ℕ) (k : ℕ)
    → is_hex_format pct cs ≡ true
    → IsVisible (render args pct cs k)
render-IsVisible args pct [] k h = tt
render-IsVisible args true (c ∷ cs) k h =
    IsVisible-++ (hex (nth args k)) (render args false cs (k + 1)) (hex-IsVisible (nth args k))
      (render-IsVisible args false cs (k + 1) (ground (arith, h)))
render-IsVisible args false (c ∷ cs) k h =
    let left : is_hex_format (c == 37) cs ≡ true = ground (arith, h) in
    let rest = render-IsVisible args (c == 37) cs k left in
    elim (Bool-cases (c == 37)) [
      | inl is ↦ rw is (subst (λ b. IsVisible (render args b cs k)) is rest)
      | inr other ↦
          rw other (ground (arith, h), subst (λ b. IsVisible (render args b cs k)) other rest)
    ]

pub length-render :
    (args : List ℕ) (pct : Bool) (cs : List ℕ) (k : ℕ) → length (render args pct cs k) ≤ room pct cs
length-render args pct [] k = omega arith
length-render args true (c ∷ cs) k = omega (
  arith,
  length-hex (nth args k),
  length-render args false cs (k + 1),
  length-++ (hex (nth args k)) (render args false cs (k + 1)),
)
length-render args false (c ∷ cs) k =
    let rest = length-render args (c == 37) cs k in
    elim (Bool-cases (c == 37)) [
      | inl is ↦ rw is (omega (arith, subst (λ b. length (render args b cs k) ≤ room b cs) is rest))
      | inr other ↦
          rw other (omega (arith, subst (λ b. length (render args b cs k) ≤ room b cs) other rest))
    ]
