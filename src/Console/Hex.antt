-- ===== src/Console/Hex.antt =====
-- `number`: the text of a number, and the number that a text stands for.
use tvmm.Base.{
  ℕ, zero, suc, ◌+◌, ◌-◌, ◌*◌, ◌^◌, ◌≤◌, ◌<◌, ◌≡◌, inl, inr, refl, ap, ◌∙◌, arith, ltb, ◌==◌, ◌&&◌,
  if◌then◌else◌, Bool-cases, length, List, [], ◌∷◌, ◌++◌, Option, none, some, bit_and,
}
use native.Mathlib.Nat.{pow-suc}
use tvmm.Base.Bits.Mask.{bit_and-low}
use tvmm.Base.Word.{shr}
use tvmm.Memory.{Mem, store8}
use tvmm.Console.{hex_digit, tmp_digits, nth, copy_digits, number}
use tvmm.Console.Buffer.{Written, Written-none, Written-++}

-- The first `l` elements, the last one first.
abbrev pub from_end : List ℕ → ℕ → List ℕ
from_end tmp zero = []
from_end tmp (suc l) = nth tmp l ∷ from_end tmp l

abbrev pub hex : ℕ → List ℕ
hex w = let tmp = tmp_digits 16 w in 48 ∷ 120 ∷ from_end tmp (length tmp)

-- How a text is read: "0x" and digits, the most significant first.
abbrev digit_value : ℕ → ℕ
digit_value c = if ltb c 58 then c - 48 else c - 87

abbrev hex_value : ℕ → List ℕ → ℕ
hex_value acc [] = acc
hex_value acc (c ∷ cs) = hex_value (acc * 16 + digit_value c) cs

abbrev pub read_hex : List ℕ → Option ℕ
read_hex [] = none
read_hex (z ∷ []) = none
read_hex (z ∷ x ∷ cs) = if z == 48 && x == 120 then some (hex_value 0 cs) else none

digit_value-hex_digit : (d : ℕ) → d < 16 → digit_value (hex_digit d) ≡ d
unfolding hex_digit
digit_value-hex_digit d lt = ground arith

hex_digit-lt : (d : ℕ) → d < 16 → hex_digit d < 103
unfolding hex_digit
hex_digit-lt d lt = ground arith

pub tmp_digits-lt : (fuel n l : ℕ) → nth (tmp_digits fuel n) l < 103
unfolding tmp_digits nth
tmp_digits-lt zero n l = omega arith
tmp_digits-lt (suc fuel) n zero = hex_digit-lt (bit_and n 0xf) (omega (arith, bit_and-low 4 n))
tmp_digits-lt (suc fuel) n (suc l) = elim (Bool-cases (shr n 4 == 0)) [
  | inl last ↦ rw last (omega arith)
  | inr more ↦ rw more (tmp_digits-lt fuel (shr n 4) l)
]

-- The digits in `tmp`, the least significant first.
abbrev tmp_value : List ℕ → ℕ
tmp_value [] = 0
tmp_value (c ∷ cs) = digit_value c + 16 * tmp_value cs

tmp_value-tmp_digits : (fuel n : ℕ) → n < 16 ^ fuel → tmp_value (tmp_digits fuel n) ≡ n
unfolding tmp_digits
tmp_value-tmp_digits zero n lt = omega arith
tmp_value-tmp_digits (suc fuel) n lt =
    let low = bit_and-low 4 n in
    let digit = digit_value-hex_digit (bit_and n 0xf) (omega (arith, low)) in
    elim (Bool-cases (shr n 4 == 0)) [
      | inl last ↦ rw last (ground (arith, digit, low))
      | inr more ↦
          let rest = tmp_value-tmp_digits fuel (shr n 4) (omega (arith, pow-suc 16 fuel)) in
          rw more (omega (arith, digit, low, rest))
    ]

from_end-cons :
    (c : ℕ) (cs : List ℕ) (l : ℕ) → from_end (c ∷ cs) (suc l) ≡ from_end cs l ++ (c ∷ [])
unfolding nth
from_end-cons c cs zero = refl
from_end-cons c cs (suc l) = ap (λ t. nth cs l ∷ t) (from_end-cons c cs l)

hex_value-snoc :
    (acc : ℕ) (t : List ℕ) (c : ℕ)
    → hex_value acc (t ++ (c ∷ [])) ≡ hex_value acc t * 16 + digit_value c
hex_value-snoc acc [] c = refl
hex_value-snoc acc (d ∷ t) c = hex_value-snoc (acc * 16 + digit_value d) t c

hex_value-from_end : (tmp : List ℕ) → hex_value 0 (from_end tmp (length tmp)) ≡ tmp_value tmp
hex_value-from_end [] = refl
hex_value-from_end (c ∷ cs) =
    ap (hex_value 0) (from_end-cons c cs (length cs))
    ∙ hex_value-snoc 0 (from_end cs (length cs)) c
    ∙ omega (arith, hex_value-from_end cs)

pub read_hex-hex : (w : ℕ) → w < 2 ^ 64 → read_hex (hex w) ≡ some w
read_hex-hex w lt = ap some (hex_value-from_end (tmp_digits 16 w) ∙ tmp_value-tmp_digits 16 w lt)

pub length-from_end : (tmp : List ℕ) (l : ℕ) → length (from_end tmp l) ≡ l
length-from_end tmp zero = refl
length-from_end tmp (suc l) = ap suc (length-from_end tmp l)

pub length-tmp_digits : (fuel n : ℕ) → length (tmp_digits fuel n) ≤ fuel
unfolding tmp_digits
length-tmp_digits zero n = omega arith
length-tmp_digits (suc fuel) n = elim (Bool-cases (shr n 4 == 0)) [
  | inl last ↦ rw last (omega arith)
  | inr more ↦ rw more (omega (arith, length-tmp_digits fuel (shr n 4)))
]

module _ (buf size limit : ℕ) (room : size ≤ limit) where
  -- One byte in the buffer.
  store8-Written :
      (m : Mem) (j c : ℕ)
      → j + 1 ≤ limit
      → c < 256
      → Written buf size limit m j (c ∷ []) (store8 m (buf + j) c)
  unfolding store8
  store8-Written m j c le lt = record {
    text = (λ inside. ground arith, tt);
    rest = λ x out. ground arith;
  }

  digit-Written :
      (m : Mem) (j c i : ℕ)
      → j + 2 + i + 1 ≤ limit
      → c < 256
      → Written buf size limit m
          (j + 2 + i)
          (c ∷ [])
          (if ltb (j + i) size then store8 m (buf + (j + 2 + i)) c else m)
  unfolding store8
  digit-Written m j c i le lt = elim (Bool-cases (ltb (j + i) size)) [
    | inl inside ↦ rw inside (store8-Written m (j + 2 + i) c le lt)
    | inr outside ↦
        rw outside (record { text = (λ inside. absurd (ground arith), tt); rest = λ x out. refl })
  ]

  copy_digits-Written :
      (tmp : List ℕ) (j left i : ℕ) (m : Mem)
      → ((l : ℕ) → nth tmp l < 256)
      → j + 2 + i + left ≤ limit
      → Written buf size limit m
          (j + 2 + i)
          (from_end tmp left)
          (copy_digits tmp buf size j left i m)
  unfolding copy_digits
  copy_digits-Written tmp j zero i m bytes le = Written-none buf size limit m (j + 2 + i)
  copy_digits-Written tmp j (suc left) i m bytes le =
      Written-++ buf size limit (nth tmp left ∷ []) (from_end tmp left) (omega arith) (omega arith)
        (digit-Written m j (nth tmp left) i (omega arith) (bytes left))
        (copy_digits-Written tmp j left (i + 1) _ bytes (omega arith))

  pub number-Written :
      (j w : ℕ) (m : Mem)
      → j + length (hex w) ≤ limit
      → ((number buf size j w m).0 ≡ length (hex w))
        × Written buf size limit m j (hex w) (number buf size j w m).1
  unfolding number
  number-Written j w m le =
      let tmp = tmp_digits 16 w in
      let len = length-from_end tmp (length tmp) in
      (
        omega (arith, len),
        Written-++ buf size limit (48 ∷ []) (120 ∷ from_end tmp (length tmp)) refl (omega arith)
            (store8-Written m j 48 (omega arith) (omega arith))
            (Written-++ buf size limit (120 ∷ []) (from_end tmp (length tmp)) (omega arith)
              (omega arith)
              (store8-Written (store8 m (buf + j) 48) (j + 1) 120 (omega arith) (omega arith))
              (copy_digits-Written tmp j (length tmp) 0 _ (λ l. omega (arith, tmp_digits-lt 16 w l))
                (omega (arith, len)))),
      )

-- What `number` writes of a 64-bit number, with room for 18 characters left in the buffer: a text
-- of as many characters as it returns, from index `j` on and nothing else, from which the number is
-- read back.
pub number-reads_back :
    (buf size j w : ℕ) (m : Mem)
    → w < 2 ^ 64
    → j + 18 ≤ size
    → (t : List ℕ) × ((number buf size j w m).0 ≡ length t)
      × Written buf size size m j t (number buf size j w m).1
      × (read_hex t ≡ some w)
number-reads_back buf size j w m lt room =
    let tmp = tmp_digits 16 w in
    let short : length (hex w) ≤ 18 =
      omega (arith, length-from_end tmp (length tmp), length-tmp_digits 16 w) in
    let (len, written) = number-Written buf size size (omega arith) j w m (omega arith) in
    (hex w, len, written, read_hex-hex w lt)

-- `number` does not heed the size for its first two characters: at an index past the end of the
-- buffer it writes them all the same.
pub number-past_end :
    (buf size j w : ℕ) (m : Mem)
    → size ≤ j
    → ((number buf size j w m).1 (buf + j) ≡ 48) × ((number buf size j w m).1 (buf + (j + 1)) ≡ 120)
unfolding number store8
number-past_end buf size j w m past =
    let tmp = tmp_digits 16 w in
    let digits =
      copy_digits-Written buf size (size + j + 18) (omega arith) tmp j (length tmp) 0
        (store8 (store8 m (buf + j) 48) (buf + (j + 1)) 120)
        (λ l. omega (arith, tmp_digits-lt 16 w l)) (omega (arith, length-tmp_digits 16 w)) in
    (
      digits.rest (buf + j) (inl (omega arith)) ∙ ground arith,
      digits.rest (buf + (j + 1)) (inl (omega arith)) ∙ ground arith,
    )
