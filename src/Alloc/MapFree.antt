-- ===== src/Alloc/MapFree.antt =====
-- `map_free`: one word, or a first word, whole words and a last word.
use tvmm.Base.{
  ℕ, ◌+◌, ◌-◌, ◌*◌, ◌/◌, ◌%◌, ◌^◌, ◌≤◌, ◌<◌, ◌≡◌, refl, ap, ◌∙◌, arith, Bool, true, false, ◌&&◌,
  ◌||◌, not, bit_and, bit_or, ltb, leb, ◌==◌, ◌!=◌, if◌then◌else◌, Bool-cases, inl, inr, ◌⊎◌,
}
use native.Mathlib.Nat.{mod-eq_of_lt}
use tvmm.Base.Word.{sub64, neg64, shl64}
use tvmm.Base.Bits.{testbit-or, testbit-zero}
use tvmm.Base.Bits.Masks64.{testbit-below, testbit-from}
use tvmm.Memory.{Mem}
use tvmm.Kernel.{NaiveAllocator}
use tvmm.Alloc.{word, set_word, fill_words, map_free, allocated_in_map}
use tvmm.Alloc.Bitmap.{idx_lem, offset_lem, allocated-testbit, set_word_outside, fill_words_outside}
use tvmm.Alloc.Digit.{digit, in_range, digit-set_and, digit-fill_words}

-- The masks of the ranges' ends, put together, are the range.
one_word_range :
    (first nr k b : ℕ) (old : Bool)
    → b < 64
    → first / 64 ≡ (first + nr) / 64
    → (old && (first / 64 != k || ((leb ((first + nr) % 64) b && ltb b 64) || ltb b (first % 64))))
      ≡ (old && not (in_range first nr (64 * k + b)))
one_word_range first nr k b true h e = ground arith
one_word_range first nr k b false h e = refl

many_words_range :
    (first nr k b rounds : ℕ) (old m1 m2 m3 : Bool)
    → b < 64
    → first / 64 < (first + nr) / 64
    → rounds ≡ (first + nr) / 64 - (first / 64 + 1)
    → m1 ≡ (old && (first / 64 != k || ltb b (first % 64)))
    → m2 ≡ (if leb (first / 64 + 1) k && ltb k (first / 64 + 1 + rounds) then false else m1)
    → m3 ≡ (m2 && (first / 64 + 1 + rounds != k || (leb ((first + nr) % 64) b && ltb b 64)))
    → m3 ≡ (old && not (in_range first nr (64 * k + b)))
many_words_range first nr k b rounds true m1 m2 m3 h lt e p q r = ground arith
many_words_range first nr k b rounds false m1 m2 m3 h lt e p q r = ground arith

module _ (nalloc : NaiveAllocator) (first nr : ℕ) (m : Mem) (fits : first + nr < 2 ^ 64) where
  pub map_free-digit :
      (k b : ℕ)
      → b < 64
      → digit nalloc.alloc_bitmap (map_free nalloc first nr m) k b
        ≡ (digit nalloc.alloc_bitmap m k b && not (in_range first nr (64 * k + b)))
  unfolding map_free
  map_free-digit k b h =
      let tbl = nalloc.alloc_bitmap in
      let s = first % 64 in
      let e = (first + nr) % 64 in
      let from_end = neg64 (shl64 1 e) in
      let below_start = sub64 (shl64 1 s) 1 in
      let c = first / 64 in
      let rounds = (first + nr) / 64 - (c + 1) in
      let m1 = set_word tbl c (bit_and (word tbl m c) below_start) m in
      let m2 = fill_words tbl 0 rounds (c + 1) m1 in
      rw
        (
          mod-eq_of_lt fits,
          idx_lem first,
          idx_lem (first + nr),
          offset_lem first,
          offset_lem (first + nr),
        )
        (elim (Bool-cases (first / 64 == (first + nr) / 64)) [
          | inl one_word ↦ rw one_word (
              digit-set_and tbl c (bit_or from_end below_start) m k b h
              ∙ rw
                  (
                    testbit-or b from_end below_start,
                    testbit-below s b (omega arith),
                    testbit-from e b (omega arith),
                  )
                  (one_word_range first nr k b (digit tbl m k b) h (ground arith)))
          | inr several ↦ rw several (
              many_words_range first nr k b rounds (digit tbl m k b) (digit tbl m1 k b)
                (digit tbl m2 k b) _ h (ground arith) refl
                (digit-set_and tbl c below_start m k b h
                  ∙ rw (testbit-below s b (omega arith)) refl)
                (digit-fill_words tbl 0 rounds (c + 1) m1 k b h ∙ rw (testbit-zero b) refl)
                (digit-set_and tbl (c + 1 + rounds) from_end m2 k b h
                  ∙ rw (testbit-from e b (omega arith)) refl))
        ])

  -- Freeing a range of pages clears the marks of the pages of the range, and leaves the mark of
  -- every other page as it was.
  pub map_free_lem :
      (p : ℕ)
      → allocated_in_map nalloc (map_free nalloc first nr m) p
        ≡ (allocated_in_map nalloc m p && not (in_range first nr p))
  map_free_lem p =
      let whole : 64 * (p / 64) + p % 64 ≡ p = omega arith in
      rw (allocated-testbit nalloc (map_free nalloc first nr m) p, allocated-testbit nalloc m p)
        (map_free-digit (p / 64) (p % 64) (omega arith)
          ∙ ap
              (λ (t : ℕ).
                digit nalloc.alloc_bitmap m (p / 64) (p % 64) && not (in_range first nr t))
              whole)

  pub map_free_outside :
      (x : ℕ)
      → (x < nalloc.alloc_bitmap + 8 * (first / 64))
        ⊎ (nalloc.alloc_bitmap + 8 * ((first + nr) / 64) + 8 ≤ x)
      → map_free nalloc first nr m x ≡ m x
  unfolding map_free
  map_free_outside x h =
      let tbl = nalloc.alloc_bitmap in
      let c = first / 64 in
      rw (mod-eq_of_lt fits, idx_lem first, idx_lem (first + nr))
        (elim (Bool-cases (first / 64 == (first + nr) / 64)) [
          | inl one_word ↦ rw one_word (set_word_outside tbl c _ m x (ground arith))
          | inr several ↦ rw several (
              set_word_outside tbl _ _ _ x (ground arith)
              ∙ fill_words_outside tbl _ _ (c + 1) _ x (ground arith)
              ∙ set_word_outside tbl c _ m x (ground arith))
        ])
