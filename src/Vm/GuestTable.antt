-- ===== src/Vm/GuestTable.antt =====
-- `create_temp_page_table`: the page table that the guest starts with.
use tvmm.Base.{
  ℕ, ◌+◌, ◌*◌, ◌%◌, ◌^◌, ◌≤◌, ◌<◌, ◌≡◌, ◌⊎◌, refl, ap, ◌∙◌, arith, inl, inr, ◌==◌, if◌then◌else◌,
  Bool-cases,
}
use tvmm.Base.Word.{w64, shr}
use tvmm.Page.{page_size}
use tvmm.Memory.{Mem, load64, store64}
use tvmm.Memory.Laws.{load64-store64_self, load64-store64_ne, store64_outside}
use tvmm.CString.{memset}
use tvmm.CString.Laws.{memset_lem}
use tvmm.Paging.{set_field}
use tvmm.Paging.Tables.{load_bytes-zeros}
use tvmm.Vm.{create_temp_page_table}

-- From `base` on, the memory holds the 64-bit words of `words`, and outside it is `m0`.
pub record Holds (m0 : Mem) (base : ℕ) (words : ℕ → ℕ) (m : Mem) : Type 0 where
  pub word : (k : ℕ) → k < 1536 → load64 m (base + 8 * k) ≡ words k
  pub rest : (x : ℕ) → (x < base) ⊎ (base + 3 * 4096 ≤ x) → m x ≡ m0 x

abbrev with_word : ℕ → ℕ → (ℕ → ℕ) → ℕ → ℕ
with_word j w words k = if k == j then w else words k

-- The three pages are cleared.
abbrev cleared : Mem → ℕ → Mem
cleared m base = memset (memset (memset m base 0 4096) (base + 4096) 0 4096) (base + 8192) 0 4096

cleared_lem : (m : Mem) (base x : ℕ) → base ≤ x → x < base + 3 * 4096 → cleared m base x ≡ 0
cleared_lem m base x lo hi =
    memset_lem 4096 (memset (memset m base 0 4096) (base + 4096) 0 4096) (base + 8192) 0 x
    ∙ ground (
      arith,
      memset_lem 4096 (memset m base 0 4096) (base + 4096) 0 x,
      memset_lem 4096 m base 0 x,
    )

cleared-Holds : (m : Mem) (base : ℕ) → Holds m base (λ k. 0) (cleared m base)
unfolding load64
cleared-Holds m base = record {
  word = λ k lt.
      load_bytes-zeros 8 (cleared m base) (base + 8 * k)
        (λ x lo hi. cleared_lem m base x (omega arith) (omega arith));
  rest = λ x out.
      memset_lem 4096 (memset (memset m base 0 4096) (base + 4096) 0 4096) (base + 8192) 0 x
      ∙ ground (
        arith,
        memset_lem 4096 (memset m base 0 4096) (base + 4096) 0 x,
        memset_lem 4096 m base 0 x,
      );
}

-- An assignment to a word that is still 0.
store-Holds :
    {m0 : Mem} {base : ℕ} {words : ℕ → ℕ} {m : Mem} (a j w : ℕ) (g : ℕ → ℕ)
    → a ≡ base + 8 * j
    → j < 1536
    → words j ≡ 0
    → w64 (g 0) ≡ w
    → Holds m0 base words m
    → Holds m0 base (with_word j w words) (store64 m a (g (load64 m a)))
store-Holds {m0} {base} {words} {m} a j w g at lt blank value h =
    let v = g (load64 m a) in
    let self : load64 (store64 m a v) a ≡ w =
      load64-store64_self m a v
      ∙ ap (λ e. w64 (g e)) (ap (load64 m) at ∙ h.word j lt ∙ blank)
      ∙ value in
    record {
      word = λ k small. elim (Bool-cases (k == j)) [
        | inl is ↦ rw is (ap (load64 (store64 m a v)) (ground (arith, is, at)) ∙ self)
        | inr other ↦
            rw other
              (load64-store64_ne m a v (base + 8 * k) (ground (arith, other, at)) ∙ h.word k small)
      ];
      rest = λ x out. store64_outside m a v x (omega (arith, out, lt, at)) ∙ h.rest x out;
    }

abbrev pub guest_words : ℕ → ℕ → ℕ
guest_words cr3 =
    with_word 1025 (2 ^ 21 + 131) (
      with_word 1024 131 (with_word 512 (cr3 + 0x2003) (with_word 0 (cr3 + 0x1003) (λ (k : ℕ). 0))))

non_term_word :
    (p : ℕ)
    → p % 4096 ≡ 0
    → p < 2 ^ 52
    → w64 (set_field 0 12 3 (set_field 12 40 (shr p 12) 0)) ≡ p + 3
unfolding set_field
non_term_word p whole lt = omega arith

term_word : (b : ℕ) → b < 2 → w64 (set_field 0 21 131 (set_field 21 31 b 0)) ≡ b * 2 ^ 21 + 131
unfolding set_field
term_word b lt = omega arith

module _ (start cr3 : ℕ) (whole : cr3 % 4096 ≡ 0) (low : cr3 + 3 * 4096 ≤ 2 ^ 52)
    (inside : start + cr3 + 3 * 4096 ≤ 2 ^ 64) where
  pub create_temp_page_table-Holds :
      (m : Mem) → Holds m (start + cr3) (guest_words cr3) (create_temp_page_table start cr3 m)
  unfolding create_temp_page_table
  create_temp_page_table-Holds m =
      let base : w64 (start + cr3) ≡ start + cr3 = omega arith in
      let second : w64 (w64 (start + cr3) + page_size) ≡ start + cr3 + 8 * 512 = omega arith in
      let third : w64 (w64 (start + cr3) + page_size * 2) ≡ start + cr3 + 8 * 1024 = omega arith in
      let fourth : w64 (w64 (start + cr3) + (page_size * 2 + 8)) ≡ start + cr3 + 8 * 1025 =
        omega arith in
      rw (second, third, fourth, base)
        (store-Holds (start + cr3 + 8 * 1025) 1025 (2 ^ 21 + 131)
          (λ e. set_field 0 21 131 (set_field 21 31 1 e)) (omega arith) (omega arith) refl
          (term_word 1 (omega arith))
          (store-Holds (start + cr3 + 8 * 1024) 1024 131
            (λ e. set_field 0 21 131 (set_field 21 31 0 e)) (omega arith) (omega arith) refl
            (term_word 0 (omega arith))
            (store-Holds (start + cr3 + 8 * 512) 512 (cr3 + 0x2003)
              (λ e. set_field 0 12 3 (set_field 12 40 (shr (cr3 + 8192) 12) e)) (omega arith)
              (omega arith) refl
              (non_term_word (cr3 + 8192) (omega arith) (omega arith) ∙ omega arith)
              (store-Holds (start + cr3) 0 (cr3 + 0x1003)
                (λ e. set_field 0 12 3 (set_field 12 40 (shr (cr3 + 4096) 12) e)) (omega arith)
                (omega arith) refl
                (non_term_word (cr3 + 4096) (omega arith) (omega arith) ∙ omega arith)
                (cleared-Holds m (start + cr3))))))
