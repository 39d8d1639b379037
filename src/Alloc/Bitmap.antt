-- ===== src/Alloc/Bitmap.antt =====
-- The bitmap word by word and bit by bit.
use tvmm.Base.{
  ℕ, zero, suc, ◌+◌, ◌*◌, ◌/◌, ◌%◌, ◌≤◌, ◌<◌, ◌≡◌, refl, ◌∙◌, arith, ◌&&◌, ltb, leb, ◌==◌,
  if◌then◌else◌, Bool-cases, inl, inr, ◌⊎◌,
}
use tvmm.Base.Word.{w64}
use tvmm.Base.Bits.{testbit, bit_and-pow}
use tvmm.Base.Bits.Mask.{bit_and-low}
use tvmm.Base.Bits.Masks64.{pow-lt64, shl64-one}
use tvmm.Memory.{Mem}
use tvmm.Memory.Laws.{load64-store64_self, load64-store64_ne, store64_outside}
use tvmm.Kernel.{NaiveAllocator}
use tvmm.Alloc.{
  word, set_word, fill_words, allocated_in_map, get_alloc_bitmap_idx, get_alloc_bitmap_offset,
}

pub idx_lem : (p : ℕ) → get_alloc_bitmap_idx p ≡ p / 64
unfolding get_alloc_bitmap_idx
idx_lem p = refl

pub offset_lem : (p : ℕ) → get_alloc_bitmap_offset p ≡ p % 64
unfolding get_alloc_bitmap_offset
offset_lem p = bit_and-low 6 p

pub word-set_word :
    (tbl j v : ℕ) (m : Mem) (k : ℕ)
    → word tbl (set_word tbl j v m) k ≡ (if j == k then w64 v else word tbl m k)
unfolding word set_word
word-set_word tbl j v m k = elim (Bool-cases (j == k)) [
  | inl same ↦ let e : j ≡ k = ground arith in rw (same, e) (load64-store64_self m (tbl + 8 * k) v)
  | inr other ↦
      let ne : (j < k) ⊎ (k < j) = ground arith in
      rw other (load64-store64_ne m (tbl + 8 * j) v (tbl + 8 * k) (omega arith))
]

pub word-fill_words :
    (tbl v left i : ℕ) (m : Mem) (k : ℕ)
    → word tbl (fill_words tbl v left i m) k
      ≡ (if leb i k && ltb k (i + left) then w64 v else word tbl m k)
unfolding fill_words
word-fill_words tbl v zero i m k = ground arith
word-fill_words tbl v (suc left) i m k =
    word-fill_words tbl v left (i + 1) (set_word tbl i v m) k
    ∙ ground (arith, word-set_word tbl i v m k)

pub set_word_outside :
    (tbl j v : ℕ) (m : Mem) (x : ℕ)
    → (x < tbl + 8 * j) ⊎ (tbl + 8 * j + 8 ≤ x)
    → set_word tbl j v m x ≡ m x
unfolding set_word
set_word_outside tbl j v m x h = store64_outside m (tbl + 8 * j) v x h

pub fill_words_outside :
    (tbl v left i : ℕ) (m : Mem) (x : ℕ)
    → (x < tbl + 8 * i) ⊎ (tbl + 8 * (i + left) ≤ x)
    → fill_words tbl v left i m x ≡ m x
unfolding fill_words
fill_words_outside tbl v zero i m x h = refl
fill_words_outside tbl v (suc left) i m x h =
    fill_words_outside tbl v left (i + 1) (set_word tbl i v m) x (omega arith)
    ∙ set_word_outside tbl i v m x (omega arith)

-- A page's mark is one digit of one word.
pub allocated-testbit :
    (nalloc : NaiveAllocator) (m : Mem) (p : ℕ)
    → allocated_in_map nalloc m p ≡ testbit (word nalloc.alloc_bitmap m (p / 64)) (p % 64)
unfolding allocated_in_map
allocated-testbit nalloc m p =
    let w = word nalloc.alloc_bitmap m (p / 64) in
    rw (idx_lem p, offset_lem p, shl64-one (p % 64) (omega arith), bit_and-pow (p % 64) w)
      (elim (Bool-cases (testbit w (p % 64))) [
        | inl set ↦ rw set (ground (arith, pow-lt64 (p % 64)))
        | inr clear ↦ rw clear
      ])
