-- ===== src/Paging/Fields.antt =====
-- The bit fields of an entry, and what the stores of `mmap` leave in them.
use tvmm.Base.{
  ◌≢◌, ◌≤◌, ℕ, ◌+◌, ◌*◌, ◌/◌, ◌%◌, ◌^◌, ◌<◌, ◌≡◌, refl, ap, ◌∙◌, arith, Bool, true, false, ◌==◌,
  ◌!=◌, bit_and, if◌then◌else◌,
}
use tvmm.Base.Bits.Mask.{bit_and-low}
use tvmm.Base.Bits.{testbit}
use tvmm.Base.Word.{w64, shr}
use tvmm.Page.{page_size_flag}
use tvmm.Paging.{
  get_field, set_field, entry_is_present, term_entry, non_term_entry, non_term_base, term_base,
  term_flags, page_paddr,
}

-- The entries as numbers: the high digits stay, the fields are replaced.
non_term_entry-lem :
    (paddr e : ℕ)
    → non_term_entry paddr e ≡ e / 2 ^ 52 * 2 ^ 52 + paddr / 2 ^ 12 % 2 ^ 40 * 2 ^ 12 + 7
unfolding non_term_entry set_field
non_term_entry-lem paddr e = omega arith

term_entry-lem :
    (p : ℕ) (user : Bool) (e : ℕ)
    → term_entry p user e
      ≡ e / 2 ^ 52 * 2 ^ 52 + p / 2 ^ 21 % 2 ^ 31 * 2 ^ 21 + (if user then 135 else 131)
unfolding term_entry set_field get_field
term_entry-lem p true e =
    let flags : term_flags (set_field 0 21 131 (set_field 21 31 (shr p 21) e)) ≡ 131 =
      omega arith in
    rw flags (omega arith)
term_entry-lem p false e = omega arith

pub present-lem : (e : ℕ) → entry_is_present e ≡ (e % 2 == 1)
unfolding entry_is_present get_field testbit
present-lem e = ap (λ t. t != 0) (bit_and-low 1 (term_flags e)) ∙ ground arith

-- The entry of a new table.
pub non_term_entry-present : (paddr e : ℕ) → entry_is_present (w64 (non_term_entry paddr e)) ≡ true
non_term_entry-present paddr e =
    present-lem (w64 (non_term_entry paddr e)) ∙ ground (arith, non_term_entry-lem paddr e)

pub non_term_entry-base :
    (g e : ℕ) → g < 2 ^ 40 → non_term_base (w64 (non_term_entry (g * 2 ^ 12) e)) ≡ g
unfolding get_field
non_term_entry-base g e small = omega (arith, non_term_entry-lem (g * 2 ^ 12) e)

-- The entry of a page.
pub term_entry-present :
    (p : ℕ) (user : Bool) (e : ℕ) → entry_is_present (w64 (term_entry p user e)) ≡ true
term_entry-present p true e =
    present-lem (w64 (term_entry p true e)) ∙ ground (arith, term_entry-lem p true e)
term_entry-present p false e =
    present-lem (w64 (term_entry p false e)) ∙ ground (arith, term_entry-lem p false e)

flags_lem :
    (p : ℕ) (user : Bool) (e : ℕ)
    → term_flags (w64 (term_entry p user e)) ≡ (if user then 135 else 131)
unfolding get_field
flags_lem p true e = omega (arith, term_entry-lem p true e)
flags_lem p false e = omega (arith, term_entry-lem p false e)

pub term_entry-2mb :
    (p : ℕ) (user : Bool) (e : ℕ)
    → (bit_and (term_flags (w64 (term_entry p user e))) page_size_flag == 0) ≡ false
term_entry-2mb p true e = rw (flags_lem p true e) refl
term_entry-2mb p false e = rw (flags_lem p false e) refl

term_entry-base :
    (p : ℕ) (user : Bool) (e : ℕ) → p < 2 ^ 52 → term_base (w64 (term_entry p user e)) ≡ p / 2 ^ 21
unfolding get_field
term_entry-base p true e small = omega (arith, term_entry-lem p true e)
term_entry-base p false e small = omega (arith, term_entry-lem p false e)

-- A page below 2 GB is where its entry says.
pub page_paddr-lem :
    (p v : ℕ) (user : Bool) (e : ℕ)
    → p < 2 ^ 31
    → page_paddr (w64 (term_entry p user e)) v ≡ p / 2 ^ 21 * 2 ^ 21 + v % 2 ^ 21
unfolding page_paddr get_field
page_paddr-lem p v user e small =
    rw (term_entry-base p user e (omega arith), bit_and-low 21 v) (omega arith)

-- A page from 2 GB on is not where its entry says: the address is cut to 32 digits and widened
-- with its sign.
pub page_paddr_above_2gb :
    (p v : ℕ) (user : Bool) (e : ℕ)
    → 2 ^ 31 ≤ p
    → p < 2 ^ 52
    → page_paddr (w64 (term_entry p user e)) v ≢ p / 2 ^ 21 * 2 ^ 21 + v % 2 ^ 21
unfolding page_paddr get_field
page_paddr_above_2gb p v user e high small same =
    let base : term_base (w64 (term_entry p user e)) ≡ p / 2 ^ 21 =
      term_entry-base p user e small in
    let cut = rw (base, bit_and-low 21 v) at same in omega (arith, cut)
