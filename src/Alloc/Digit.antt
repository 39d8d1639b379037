-- ===== src/Alloc/Digit.antt =====
-- The digits of the bitmap under the assignments that `map_alloc` and `map_free` make.
use tvmm.Base.{
  ℕ, ◌+◌, ◌<◌, ◌≡◌, ◌∙◌, arith, Bool, ◌&&◌, ◌||◌, bit_and, bit_or, ltb, leb, ◌==◌, ◌!=◌,
  if◌then◌else◌, Bool-cases, inl, inr,
}
use tvmm.Base.Bits.{testbit, testbit-or, testbit-and}
use tvmm.Base.Bits.Masks64.{testbit-w64}
use tvmm.Memory.{Mem}
use tvmm.Alloc.{word, set_word, fill_words}
use tvmm.Alloc.Bitmap.{word-set_word, word-fill_words}

-- Digit `b` of word `k`.
abbrev pub digit : ℕ → Mem → ℕ → ℕ → Bool
digit tbl m k b = testbit (word tbl m k) b

digit-set_word :
    (tbl j v : ℕ) (m : Mem) (k b : ℕ)
    → b < 64
    → digit tbl (set_word tbl j v m) k b ≡ (if j == k then testbit v b else digit tbl m k b)
digit-set_word tbl j v m k b h = elim (Bool-cases (j == k)) [
  | inl same ↦ rw (word-set_word tbl j v m k, same) (testbit-w64 v b h)
  | inr other ↦ rw (word-set_word tbl j v m k, other)
]

pub digit-fill_words :
    (tbl v left i : ℕ) (m : Mem) (k b : ℕ)
    → b < 64
    → digit tbl (fill_words tbl v left i m) k b
      ≡ (if leb i k && ltb k (i + left) then testbit v b else digit tbl m k b)
digit-fill_words tbl v left i m k b h = elim (Bool-cases (leb i k && ltb k (i + left))) [
  | inl inside ↦ rw (word-fill_words tbl v left i m k, inside) (testbit-w64 v b h)
  | inr outside ↦ rw (word-fill_words tbl v left i m k, outside)
]

-- Whether `first ≤ p < first + nr`.
abbrev pub in_range : ℕ → ℕ → ℕ → Bool
in_range first nr p = leb first p && ltb p (first + nr)

pub digit-set_or :
    (tbl j mask : ℕ) (m : Mem) (k b : ℕ)
    → b < 64
    → digit tbl (set_word tbl j (bit_or (word tbl m j) mask) m) k b
      ≡ (digit tbl m k b || (j == k && testbit mask b))
digit-set_or tbl j mask m k b h = elim (Bool-cases (j == k)) [
  | inl same ↦
      let e : j ≡ k = ground arith in
      rw (digit-set_word tbl j (bit_or (word tbl m j) mask) m k b h, same, e)
        (testbit-or b (word tbl m k) mask)
  | inr other ↦ rw (digit-set_word tbl j (bit_or (word tbl m j) mask) m k b h, other) (ground arith)
]

pub digit-set_and :
    (tbl j mask : ℕ) (m : Mem) (k b : ℕ)
    → b < 64
    → digit tbl (set_word tbl j (bit_and (word tbl m j) mask) m) k b
      ≡ (digit tbl m k b && (j != k || testbit mask b))
digit-set_and tbl j mask m k b h = elim (Bool-cases (j == k)) [
  | inl same ↦
      let e : j ≡ k = ground arith in
      rw (digit-set_word tbl j (bit_and (word tbl m j) mask) m k b h, same, e)
        (testbit-and b (word tbl m k) mask ∙ ground arith)
  | inr other ↦
      rw (digit-set_word tbl j (bit_and (word tbl m j) mask) m k b h, other) (ground arith)
]
