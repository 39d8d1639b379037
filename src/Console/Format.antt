-- ===== src/Console/Format.antt =====
-- `vsnprintf`: what a format and its arguments stand for, and that it is what the buffer holds.
use tvmm.Base.{
  ℕ, zero, suc, ◌+◌, ◌%◌, ◌≤◌, ◌<◌, ◌≡◌, ◌≢◌, ◌⊎◌, inl, inr, refl, sym, ap, ◌∙◌, subst, arith, ltb,
  leb, if◌then◌else◌, ◌==◌, ◌!=◌, true, false, Bool-cases, length, List, [], ◌∷◌, ◌++◌,
}
use tvmm.Memory.{Mem, byte, store8}
use tvmm.Memory.Laws.{store8_ne}
use tvmm.CString.Strings.{HoldsString, HoldsString-ext}
use tvmm.Console.{
  VaList, Printed, ok, stop, no_fuel, and_next, put_to, put_text, directive, format_loop, vsnprintf,
  number,
}
use tvmm.Console.Buffer.{
  length-++, TextAt, TextAt-ext, Written, Written-none, Written-++, IsAway, Written-HoldsString,
  put_to-Written, put_byte-Written,
}
use tvmm.Console.Hex.{hex, number-Written}

module _ (buf limit : ℕ) (args : VaList) (m0 : Mem) where
  -- The format, with the arguments from the `k`th on, stands for the text. A string that is an
  -- argument lies outside the buffer.
  pub data Renders : List ℕ → ℕ → List ℕ → Type 0 where
    end : {k : ℕ} → Renders [] k []
    plain : {c k : ℕ} {cs t : List ℕ} → c ≢ 37 → Renders cs k t → Renders (c ∷ cs) k (c ∷ t)
    character :
        {k : ℕ} {cs t : List ℕ} → Renders cs (k + 1) t → Renders (37 ∷ 99 ∷ cs) k (args k % 256 ∷ t)
    string :
        {k : ℕ} {cs t : List ℕ} (str : List ℕ)
        → HoldsString m0 (args k) str
        → IsAway buf limit (args k) str
        → Renders cs (k + 1) t
        → Renders (37 ∷ 115 ∷ cs) k (str ++ t)
    hexadecimal :
        {k : ℕ} {cs t : List ℕ}
        → Renders cs (k + 1) t
        → Renders (37 ∷ 120 ∷ cs) k (hex (args k) ++ t)
    percent : {k : ℕ} {cs t : List ℕ} → Renders cs k t → Renders (37 ∷ 37 ∷ cs) k (37 ∷ t)

module _ (buf size limit : ℕ) where
  -- What `vsnprintf` leaves: the text as far as the size goes, a 0 behind it if there is room, and
  -- every other byte as it was.
  pub record Formatted (m : Mem) (t : List ℕ) (m' : Mem) : Type 0 where
    pub text : TextAt buf size limit m' 0 t
    pub ending : length t < size → byte m' (buf + length t) ≡ 0
    pub rest : (x : ℕ) → (x < buf) ⊎ (buf + limit ≤ x) → m' x ≡ m x

  -- The run returns the text's length, and the text has been put into the buffer.
  abbrev pub Formats : Mem → List ℕ → Printed (ℕ × Mem) → Type 0
  Formats m t (ok (j, m')) = (j ≡ length t) × Formatted m t m'
  Formats m t (stop f) = ⊥
  Formats m t no_fuel = ⊥

module _ (buf size limit : ℕ) (room : size ≤ limit) where
  -- The run returns the next index, and has written the text.
  abbrev pub Puts : ℕ → List ℕ → Mem → Printed (ℕ × Mem) → Type 0
  Puts j t m (ok (j', m')) = (j' ≡ j + length t) × Written buf size limit m j t m'
  Puts j t m (stop f) = ⊥
  Puts j t m no_fuel = ⊥

  Puts-++ :
      {m m1 : Mem} {j j' : ℕ} (t u : List ℕ) (r : Printed (ℕ × Mem))
      → j + length t ≡ j'
      → j' ≤ limit
      → Written buf size limit m j t m1
      → Puts j' u m1 r
      → Puts j (t ++ u) m r
  Puts-++ t u (ok (j2, m2)) next le first (at, second) =
      (omega (arith, length-++ t u), Written-++ buf size limit t u next le first second)
  Puts-++ t u (stop f) next le first h = h
  Puts-++ t u no_fuel next le first h = h

  put_text-Puts :
      (str : List ℕ) (fuel s j : ℕ) (m : Mem)
      → length str < fuel
      → j + length str ≤ limit
      → IsAway buf limit s str
      → HoldsString m s str
      → Puts j str m (put_text fuel buf size s j m)
  unfolding put_text
  put_text-Puts str zero s j m lt le away h = absurd (omega arith)
  put_text-Puts [] (suc fuel) s j m lt le away h =
      rw h (omega arith, Written-none buf size limit m j)
  put_text-Puts (c ∷ str) (suc fuel) s j m lt le away (here, some, rest) =
      let first = put_byte-Written buf size limit m j c room (omega arith) in
      rw here (elim (Bool-cases (c == 0)) [
        | inl ends ↦ absurd (some (ground arith))
        | inr more ↦ rw more (
            Puts-++ (c ∷ []) str _ refl (omega arith) first (
              put_text-Puts str fuel (s + 1) (j + 1) (put_to buf size j c m) (omega arith)
                (omega arith) (omega arith)
                (Written-HoldsString buf size limit (s + 1) str first (omega arith) rest)))
      ])

  string-Puts :
      {m : Mem} {j : ℕ} (k : ℕ) (t u : List ℕ) (r : Printed (ℕ × Mem))
      (rest : ℕ × ℕ × Mem → Printed (ℕ × Mem))
      → j + length t ≤ limit
      → Puts j t m r
      → ((m' : Mem) (j' : ℕ)
          → j + length t ≡ j'
          → Written buf size limit m j t m'
          → Puts j' u m' (rest (j', k, m')))
      → Puts j (t ++ u) m (and_next (and_next r (λ (j', m'). ok (j', k, m'))) rest)
  string-Puts k t u (ok (j', m')) rest le (at, written) next =
      Puts-++ t u (rest (j', k, m')) (sym at) (omega arith) written (next m' j' (sym at) written)
  string-Puts k t u (stop f) rest le h next = h
  string-Puts k t u no_fuel rest le h next = h

  module _ (args : VaList) (m0 : Mem) where
    -- Outside the buffer nothing has changed.
    abbrev Agrees : Mem → Type 0
    Agrees m = (x : ℕ) → (x < buf) ⊎ (buf + limit ≤ x) → m x ≡ m0 x

    -- The rest of the format, where the loop stands.
    abbrev Stands : Mem → ℕ → List ℕ → Type 0
    Stands m fmt cs = Agrees m × IsAway buf limit fmt cs × HoldsString m fmt cs

    Stands-after :
        {m m' : Mem} {j fmt : ℕ} {t : List ℕ} (cs : List ℕ)
        → Written buf size limit m j t m'
        → Stands m fmt cs
        → Stands m' fmt cs
    Stands-after {fmt = fmt} cs w (agrees, away, h) = (
      λ x out. w.rest x (omega arith) ∙ agrees x out,
      away,
      Written-HoldsString buf size limit fmt cs w away h,
    )

    Stands-tail :
        {m : Mem} {fmt c : ℕ} (cs : List ℕ) → Stands m fmt (c ∷ cs) → Stands m (fmt + 1) cs
    Stands-tail cs (agrees, away, (here, some, rest)) = (agrees, omega arith, rest)

    Stands-tail2 :
        {m : Mem} {fmt c d : ℕ} (cs : List ℕ) → Stands m fmt (c ∷ d ∷ cs) → Stands m (fmt + 2) cs
    Stands-tail2 {m} cs (agrees, away, (here, some, (next, some', rest))) =
        (agrees, omega arith, subst (λ s. HoldsString m s cs) (omega arith) rest)

    format_loop-Puts :
        (fuel : ℕ) {k : ℕ} {cs t : List ℕ}
        → Renders buf limit args m0 cs k t
        → (fmt j : ℕ) (m : Mem) → length cs + length t < fuel
        → j + length t ≤ limit
        → Stands m fmt cs
        → Puts j t m (format_loop fuel buf size args fmt j k m)
    unfolding format_loop directive
    format_loop-Puts zero r fmt j m lt le at = absurd (omega arith)
    format_loop-Puts (suc fuel) end fmt j m lt le (agrees, away, h) =
        rw h (omega arith, Written-none buf size limit m j)
    format_loop-Puts (suc fuel) (plain {c} {t = t} other r) fmt j m lt le at =
        let (here, some, rest) = at.2 in
        let first = put_byte-Written buf size limit m j c room (omega arith) in
        let goes_on : (c == 0) ≡ false = ground arith in
        let is_plain : (c != 37) ≡ true = ground arith in
        rw (here, goes_on, is_plain)
          (Puts-++ (c ∷ []) t _ refl (omega arith) first (
            format_loop-Puts fuel r (fmt + 1) (j + 1) _ (omega arith) (omega arith)
              (Stands-after _ first (Stands-tail _ at))))
    format_loop-Puts (suc fuel) {k} (character {t = t} r) fmt j m lt le at =
        let (here, some, (next, some', rest)) = at.2 in
        let first = put_to-Written buf size limit m j (args k) room in
        rw (here, next)
          (Puts-++ (args k % 256 ∷ []) t _ refl (omega arith) first (
            format_loop-Puts fuel r (fmt + 2) (j + 1) _ (omega arith) (omega arith)
              (Stands-after _ first (Stands-tail2 _ at))))
    format_loop-Puts (suc fuel) {k} (string {t = t} str held far r) fmt j m lt le at =
        let (here, some, (next, some', rest)) = at.2 in
        let sum = length-++ str t in
        let held' =
          HoldsString-ext m0 m (args k) str (λ x lo hi. ap (λ v. v % 256) (at.0 x (ground arith)))
            held in
        rw (here, next)
          (string-Puts (k + 1) str t (put_text fuel buf size (args k) j m) _ (omega arith)
            (put_text-Puts str fuel (args k) j m (omega arith) (omega arith) far held')
            (λ m' j' e first.
              format_loop-Puts fuel r (fmt + 2) j' m' (omega arith) (omega arith)
                (Stands-after _ first (Stands-tail2 _ at))))
    format_loop-Puts (suc fuel) {k} (hexadecimal {t = t} r) fmt j m lt le at =
        let (here, some, (next, some', rest)) = at.2 in
        let sum = length-++ (hex (args k)) t in
        let (len, first) = number-Written buf size limit room j (args k) m (omega arith) in
        rw (here, next)
          (Puts-++ {j' = j + (number buf size j (args k) m).0} (hex (args k)) t _
            (omega (arith, len)) (omega (arith, len)) first
            (format_loop-Puts fuel r (fmt + 2) (j + (number buf size j (args k) m).0)
              (number buf size j (args k) m).1 (omega arith) (omega (arith, len))
              (Stands-after _ first (Stands-tail2 _ at))))
    format_loop-Puts (suc fuel) (percent {t = t} r) fmt j m lt le at =
        let (here, some, (next, some', rest)) = at.2 in
        let first = put_byte-Written buf size limit m j 37 room (omega arith) in
        rw (here, next)
          (Puts-++ (37 ∷ []) t _ refl (omega arith) first (
            format_loop-Puts fuel r (fmt + 2) (j + 1) _ (omega arith) (omega arith)
              (Stands-after _ first (Stands-tail2 _ at))))

  terminated :
      (m : Mem) (t : List ℕ) (r : Printed (ℕ × Mem))
      → Puts 0 t m r
      → length t ≤ limit
      → Formats buf size limit m t
          (and_next r (λ (j, m'). ok (j, if ltb j size then store8 m' (buf + j) 0 else m')))
  unfolding store8
  terminated m t (ok (j, m')) (at, w) le = elim (Bool-cases (ltb j size)) [
    | inl fits ↦ rw fits (
      omega arith,
      record {
        text =
            TextAt-ext buf size limit m' (store8 m' (buf + j) 0) 0 t
              (λ x lo hi. store8_ne m' (buf + j) 0 x (omega arith)) w.text;
        ending = λ lt. ground arith;
        rest = λ x out. store8_ne m' (buf + j) 0 x (ground arith) ∙ w.rest x (omega arith);
      },
    )
    | inr full ↦ rw full (
      omega arith,
      record {
        text = w.text;
        ending = λ lt. absurd (ground arith);
        rest = λ x out. w.rest x (omega arith);
      },
    )
  ]
  terminated m t (stop f) h le = h
  terminated m t no_fuel h le = h

  -- With a format that stands for a text, a buffer of the given size, not 0, and more fuel than the
  -- format and the text have characters, where the format and the strings among the arguments lie
  -- outside the bytes that may be written (as many as the size, and as the text is long): `vsnprintf`
  -- returns the text's length; the buffer holds the text as far as the size goes, and a 0 behind it
  -- if there is room; no byte outside is written.
  pub vsnprintf-Formats :
      (args : VaList) (m : Mem) (fmt fuel : ℕ) (cs t : List ℕ)
      → 0 < size
      → Renders buf limit args m cs 0 t
      → length cs + length t < fuel
      → length t ≤ limit
      → IsAway buf limit fmt cs
      → HoldsString m fmt cs
      → Formats buf size limit m t (vsnprintf fuel buf size fmt args m)
  unfolding vsnprintf
  vsnprintf-Formats args m fmt fuel cs t pos r lt le away h =
      let some : leb size 0 ≡ false = ground arith in
      rw some (
        terminated m t (format_loop fuel buf size args fmt 0 0 m)
          (format_loop-Puts args m fuel r fmt 0 m lt (omega arith) (λ x out. refl, away, h)) le)
