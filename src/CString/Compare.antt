-- ===== src/CString/Compare.antt =====
-- `strcmp`, `strncmp` and `strcpy` on strings.
use tvmm.Base.{
  ℕ, zero, suc, ◌+◌, ◌-◌, ◌%◌, ◌<◌, ◌≡◌, ◌≢◌, ◌↔◌, ◌⊎◌, inl, inr, refl, ap, ap₂, ◌∙◌, arith, true,
  false, ◌==◌, ◌!=◌, ◌||◌, Bool-cases, length, List, [], ◌∷◌, some,
}
use tvmm.Memory.{Mem, byte, store8}
use tvmm.Memory.Laws.{store8_ne}
use tvmm.CString.{strncmp, strcmp, strcpy}
use tvmm.CString.Strings.{HoldsString}

-- The bytes from `s` on are the characters of the list, whatever follows.
abbrev pub BytesAre : Mem → ℕ → List ℕ → Type 0
BytesAre m s [] = Unit {0}
BytesAre m s (c ∷ cs) = (byte m s ≡ c) × BytesAre m (s + 1) cs

-- Two bytes are one if their difference is 0.
same_byte : (a b : ℕ) → a < 256 → b < 256 → (a + 256 - b) % 256 ≡ 0 → a ≡ b
same_byte a b lt lt' h = omega arith

-- Compared with a string in as many bytes as it has characters, the result is 0 exactly if the
-- bytes are those characters.
pub strncmp-BytesAre :
    (t : List ℕ) (m : Mem) (cs : ℕ) (m' : Mem) (ct : ℕ)
    → HoldsString m' ct t
    → (strncmp m cs m' ct (length t) ≡ 0) ↔ BytesAre m cs t
unfolding strncmp
strncmp-BytesAre [] m cs m' ct h = (λ e. tt, λ e. refl)
strncmp-BytesAre (c ∷ t) m cs m' ct (here, nonzero, rest) =
    let (there, back) = strncmp-BytesAre t m (cs + 1) m' (ct + 1) rest in
    rw here (elim (Bool-cases (byte m cs == c)) [
      | inl same ↦
          let equal : byte m cs ≡ c = ground arith in
          let goes_on : ((byte m cs + 256 - c) % 256 != 0 || byte m cs == 0) ≡ false =
            ground arith in
          rw goes_on ((λ e. (equal, there e)), (λ b. back b.1))
      | inr other ↦
          let differs : byte m cs ≢ c = ground arith in
          let stops : ((byte m cs + 256 - c) % 256 != 0 || byte m cs == 0) ≡ true = ground arith in
          rw stops (
            (λ e. absurd (differs (same_byte (byte m cs) c (omega arith) (omega arith) e))),
            (λ b. absurd (differs b.0)),
          )
    ])

-- Two strings, and more fuel than the first has characters: `strcmp` returns, 0 exactly if they are
-- the same.
pub strcmp_lem :
    (us vs : List ℕ) (fuel : ℕ) (m : Mem) (cs : ℕ) (m' : Mem) (ct : ℕ)
    → length us < fuel
    → HoldsString m cs us
    → HoldsString m' ct vs
    → (r : ℕ) × (strcmp fuel m cs m' ct ≡ some r) × ((r ≡ 0) ↔ (us ≡ vs))
unfolding strcmp
strcmp_lem us vs zero m cs m' ct lt h k = absurd (omega arith)
strcmp_lem [] [] (suc fuel) m cs m' ct lt h k = rw (h, k) (0, refl, (λ e. refl, λ e. refl))
strcmp_lem [] (v ∷ vs) (suc fuel) m cs m' ct lt h (here', nonzero', rest') =
    let stops : ((0 + 256 - v) % 256 != 0 || 0 == 0) ≡ true = ground arith in
    rw (h, here', stops) ((256 - v) % 256, refl, (λ e. absurd (omega arith), λ e. cc))
strcmp_lem (u ∷ us) [] (suc fuel) m cs m' ct lt (here, nonzero, rest) k =
    let stops : ((u + 256 - 0) % 256 != 0 || u == 0) ≡ true = ground arith in
    rw (here, k, stops) ((u + 256 - 0) % 256, refl, (λ e. absurd (omega arith), λ e. cc))
strcmp_lem (u ∷ us) (v ∷ vs) (suc fuel) m cs m' ct lt (here, nonzero, rest)
      (here', nonzero', rest') =
    rw (here, here')
      (elim (Bool-cases (u == v)) [
        | inl same ↦
            let equal : u ≡ v = ground arith in
            let goes_on : ((u + 256 - v) % 256 != 0 || u == 0) ≡ false = ground arith in
            let (r, e, (there, back)) =
              strcmp_lem us vs fuel m (cs + 1) m' (ct + 1) (omega arith) rest rest' in
            rw goes_on (r, e, ((λ z. ap₂ (λ c t. c ∷ t) equal (there z)), (λ z. back cc)))
        | inr other ↦
            let differs : u ≢ v = ground arith in
            let stops : ((u + 256 - v) % 256 != 0 || u == 0) ≡ true = ground arith in
            rw stops (
              (u + 256 - v) % 256,
              refl,
              (
                (λ z. absurd (differs (same_byte u v (omega arith) (omega arith) z))),
                (λ z. absurd (differs cc)),
              ),
            )
      ])

-- With more fuel than the source string has characters, `strcpy` returns a memory in which the
-- destination is the same string and no other byte has changed.
pub strcpy_lem :
    (t : List ℕ) (fuel : ℕ) (m : Mem) (dest : ℕ) (m' : Mem) (src : ℕ)
    → length t < fuel
    → HoldsString m' src t
    → (m2 : Mem) × (strcpy fuel m dest m' src ≡ some m2)
      × HoldsString m2 dest t
      × ((x : ℕ) → (x < dest) ⊎ (dest + length t < x) → m2 x ≡ m x)
unfolding strcpy store8
strcpy_lem t zero m dest m' src lt h = absurd (omega arith)
strcpy_lem [] (suc fuel) m dest m' src lt h =
    rw h (store8 m dest 0, refl, ground arith, λ x out. store8_ne m dest 0 x (omega arith))
strcpy_lem (c ∷ t) (suc fuel) m dest m' src lt (here, nonzero, rest) =
    let goes_on : (c == 0) ≡ false = ground arith in
    let (m2, e, held, outside) =
      strcpy_lem t fuel (store8 m dest c) (dest + 1) m' (src + 1) (omega arith) rest in
    rw (here, goes_on)
      (
        m2,
        e,
        (ap (λ v. v % 256) (outside dest (inl (omega arith))) ∙ ground arith, nonzero, held),
        λ x out. outside x (omega arith) ∙ store8_ne m dest c x (omega arith),
      )
