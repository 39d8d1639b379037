-- ===== src/Console/Buffer.antt =====
-- What a step of `vsnprintf` leaves in the buffer.
use tvmm.Base.{
  ℕ, ◌+◌, ◌%◌, ◌≤◌, ◌<◌, ◌≡◌, ◌⊎◌, inl, inr, refl, sym, ap, ◌∙◌, subst, arith, ltb, Bool-cases,
  length, List, [], ◌∷◌, ◌++◌,
}
use tvmm.Memory.{Mem, byte, store8}
use tvmm.CString.Strings.{HoldsString, HoldsString-ext}
use tvmm.Console.{put_to}

pub length-++ : (t u : List ℕ) → length (t ++ u) ≡ length t + length u
length-++ [] u = omega arith
length-++ (c ∷ t) u = omega (arith, length-++ t u)

-- A string that lies outside what may be written: the `limit` bytes from `buf` on.
abbrev pub IsAway : ℕ → ℕ → ℕ → List ℕ → Type 0
IsAway buf limit s cs = (s + length cs < buf) ⊎ (buf + limit ≤ s)

module _ (buf size limit : ℕ) where
  -- As far as the buffer's size goes, the text lies in it from index `j` on.
  abbrev pub TextAt : Mem → ℕ → List ℕ → Type 0
  TextAt m j [] = Unit {0}
  TextAt m j (c ∷ cs) = (j < size → byte m (buf + j) ≡ c) × TextAt m (j + 1) cs

  pub TextAt-ext :
      (m m' : Mem) (j : ℕ) (t : List ℕ)
      → ((x : ℕ) → buf + j ≤ x → x < buf + j + length t → m' x ≡ m x)
      → TextAt m j t
      → TextAt m' j t
  TextAt-ext m m' j [] same h = tt
  TextAt-ext m m' j (c ∷ t) same (here, rest) = (
    λ lt. ap (λ v. v % 256) (same (buf + j) (omega arith) (omega arith)) ∙ here lt,
    TextAt-ext m m' (j + 1) t (λ x lo hi. same x (omega arith) (omega arith)) rest,
  )

  pub TextAt-++ :
      (m : Mem) (j : ℕ) (t u : List ℕ)
      → TextAt m j t
      → TextAt m (j + length t) u
      → TextAt m j (t ++ u)
  TextAt-++ m j [] u h k = subst (λ i. TextAt m i u) (omega arith) k
  TextAt-++ m j (c ∷ t) u (here, rest) k =
      (here, TextAt-++ m (j + 1) t u rest (subst (λ i. TextAt m i u) (omega arith) k))

  -- From `m` to `m'` the text was put into the buffer at index `j`, and no other byte was written.
  pub record Written (m : Mem) (j : ℕ) (t : List ℕ) (m' : Mem) : Type 0 where
    pub text : TextAt m' j t
    pub rest : (x : ℕ) → (x < buf + j) ⊎ (buf + limit ≤ x) → m' x ≡ m x

  pub Written-none : (m : Mem) (j : ℕ) → Written m j [] m
  Written-none m j = record { text = tt; rest = λ x out. refl }

  pub Written-++ :
      {m m1 m2 : Mem} {j j' : ℕ} (t u : List ℕ)
      → j + length t ≡ j'
      → j' ≤ limit
      → Written m j t m1
      → Written m1 j' u m2
      → Written m j (t ++ u) m2
  Written-++ {m} {m1} {m2} {j} {j'} t u next le first second = record {
    text =
        TextAt-++ m2 j t u
          (TextAt-ext m1 m2 j t (λ x lo hi. second.rest x (inl (omega arith))) first.text)
          (subst (λ i. TextAt m2 i u) (sym next) second.text);
    rest = λ x out. second.rest x (omega arith) ∙ first.rest x out;
  }

  -- One character, written if there is room.
  pub put_to-Written :
      (m : Mem) (j c : ℕ) → size ≤ limit → Written m j (c % 256 ∷ []) (put_to buf size j c m)
  unfolding put_to store8
  put_to-Written m j c le = elim (Bool-cases (ltb j size)) [
    | inl room ↦ rw room (record { text = (λ lt. ground arith, tt); rest = λ x out. ground arith })
    | inr full ↦ rw full (record { text = (λ lt. absurd (ground arith), tt); rest = λ x out. refl })
  ]

  pub Written-HoldsString :
      {m m' : Mem} {j : ℕ} {t : List ℕ} (s : ℕ) (cs : List ℕ)
      → Written m j t m'
      → IsAway buf limit s cs
      → HoldsString m s cs
      → HoldsString m' s cs
  Written-HoldsString {m} {m'} s cs w away h =
      HoldsString-ext m m' s cs (λ x lo hi. ap (λ v. v % 256) (w.rest x (ground arith))) h

  pub put_byte-Written :
      (m : Mem) (j c : ℕ) → size ≤ limit → c < 256 → Written m j (c ∷ []) (put_to buf size j c m)
  put_byte-Written m j c le lt =
      subst (λ b. Written m j (b ∷ []) (put_to buf size j c m)) (omega arith)
        (put_to-Written m j c le)
