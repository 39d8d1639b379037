-- ===== src/Elf/Moved.antt =====
-- An ELF image that lies elsewhere says the same.
use tvmm.Base.{
  ℕ, zero, suc, ◌+◌, ◌-◌, ◌*◌, ◌^◌, ◌≤◌, ◌<◌, ◌≡◌, refl, ap, ◌∙◌, arith, leb, ltb, ◌&&◌, Bool-cases,
  inl, inr, some,
}
use tvmm.Base.Word.{w64, w32, sign_extend}
use tvmm.Memory.{Mem, byte, load_bytes, load16, load32}
use tvmm.Elf.{phdr_at, e_entry, e_phoff, e_phentsize, e_phnum, get_elf_phdr, is_loadable_phdr}
use tvmm.Elf.Loadable.{IsLoadable, image_byte}

-- The `size` bytes from `a` on in one memory are those from `a'` on in the other.
abbrev pub SameBytes : Mem → ℕ → Mem → ℕ → ℕ → Type 0
SameBytes m a m' a' size = (i : ℕ) → i < size → byte m' (a' + i) ≡ byte m (a + i)

bytes_moved :
    (k : ℕ) (m m' : Mem) (a a' : ℕ) → SameBytes m a m' a' k → load_bytes m' a' k ≡ load_bytes m a k
unfolding load_bytes
bytes_moved zero m m' a a' same = refl
bytes_moved (suc k) m m' a a' same =
    let here : byte m' a' ≡ byte m a =
      ap (byte m') (omega arith) ∙ same 0 (omega arith) ∙ ap (byte m) (omega arith) in
    let rest = bytes_moved k m m' (a + 1) (a' + 1) (λ i lt.
      ap (byte m') (omega arith) ∙ same (i + 1) (omega arith) ∙ ap (byte m) (omega arith)) in
    omega (arith, here, rest)

-- An offset from the image's start, with the wrap-around of an address.
offset_moved :
    (e e' k size : ℕ)
    → e + size < 2 ^ 64
    → e' + size < 2 ^ 64
    → e ≤ w64 (e + k)
    → w64 (e + k) + 32 ≤ e + size
    → w64 (e' + k) ≡ e' + (w64 (e + k) - e)
offset_moved e e' k size fits fits' lo hi = omega arith

module _ (m m' : Mem) (e e' size : ℕ) (same : SameBytes m e m' e' size) where
  word_moved : (k o : ℕ) → o + k ≤ size → load_bytes m' (e' + o) k ≡ load_bytes m (e + o) k
  word_moved k o le =
      bytes_moved k m m' (e + o) (e' + o) (λ i lt.
        ap (byte m') (omega arith) ∙ same (o + i) (omega arith) ∙ ap (byte m) (omega arith))

  module _ (room : ℕ) (ok : IsLoadable m e size room) (fits : e' + size < 2 ^ 64) where
    pub phnum_moved : e_phnum m' e' ≡ e_phnum m e
    unfolding load16
    phnum_moved = word_moved 2 44 (omega (arith, ok.header))

    pub entry_moved : e_entry m' e' ≡ e_entry m e
    unfolding load32
    entry_moved = word_moved 4 24 (omega (arith, ok.header))

    place_moved : (i : ℕ) → i < e_phnum m e → get_elf_phdr m' e' i ≡ e' + (get_elf_phdr m e i - e)
    unfolding get_elf_phdr load16 load32
    place_moved i lt =
        let off : e_phoff m' e' ≡ e_phoff m e = word_moved 4 28 (omega (arith, ok.header)) in
        let ent : e_phentsize m' e' ≡ e_phentsize m e =
          word_moved 2 42 (omega (arith, ok.header)) in
        let k : ℕ = e_phoff m e + sign_extend (w32 (i * e_phentsize m e)) in
        let here = ok.phdrs i lt in
        let sum : w64 (e + k) ≡ get_elf_phdr m e i = ap w64 (omega arith) in
        rw (off, ent)
          (ap w64 (
              let t : e' + e_phoff m e + sign_extend (w32 (i * e_phentsize m e)) ≡ e' + k =
                omega arith in
              t)
            ∙ offset_moved e e' k size ok.fits fits (omega (arith, here, sum))
                (omega (arith, here, sum))
            ∙ ap (λ p. e' + (p - e)) sum)

    field_moved :
        (p f : ℕ)
        → e ≤ p
        → p + 32 ≤ e + size
        → f + 4 ≤ 32
        → load32 m' (e' + (p - e) + f) ≡ load32 m (p + f)
    unfolding load32
    field_moved p f lo hi le =
        ap (λ a. load_bytes m' a 4) (omega arith)
        ∙ word_moved 4 (p - e + f) (omega arith)
        ∙ ap (λ a. load_bytes m a 4) (omega arith)

    first_moved : (p : ℕ) → e ≤ p → p + 32 ≤ e + size → load32 m' (e' + (p - e)) ≡ load32 m p
    unfolding load32
    first_moved p lo hi =
        word_moved 4 (p - e) (omega arith) ∙ ap (λ a. load_bytes m a 4) (omega arith)

    phdr_moved :
        (i : ℕ)
        → i < e_phnum m e
        → phdr_at m' (get_elf_phdr m' e' i) ≡ phdr_at m (get_elf_phdr m e i)
    unfolding phdr_at
    phdr_moved i lt =
        let p = get_elf_phdr m e i in
        let (lo, hi) = ok.phdrs i lt in
        rw
          (
            place_moved i lt,
            first_moved p lo hi,
            field_moved p 4 lo hi (omega arith),
            field_moved p 8 lo hi (omega arith),
            field_moved p 12 lo hi (omega arith),
            field_moved p 16 lo hi (omega arith),
            field_moved p 20 lo hi (omega arith),
            field_moved p 24 lo hi (omega arith),
            field_moved p 28 lo hi (omega arith),
          )
          refl

    pub IsLoadable-moved : IsLoadable m' e' size room
    IsLoadable-moved = record {
      header = ok.header;
      fits = fits;
      phdrs = λ i lt.
          let lt' : i < e_phnum m e = omega (arith, lt, phnum_moved) in
          let here = ok.phdrs i lt' in rw (place_moved i lt') (omega (arith, here));
      segments = λ i lt.
          let lt' : i < e_phnum m e = omega (arith, lt, phnum_moved) in
          rw (phdr_moved i lt') (ok.segments i lt');
    }

    pub image_byte-moved : (k a : ℕ) → k ≤ e_phnum m e → image_byte m' e' k a ≡ image_byte m e k a
    unfolding image_byte
    image_byte-moved zero a le = refl
    image_byte-moved (suc k) a le =
        let ph = phdr_at m (get_elf_phdr m e k) in
        rw (phdr_moved k (omega arith), image_byte-moved k a (omega arith))
          (elim (Bool-cases (is_loadable_phdr ph)) [
            | inr skipped ↦ rw skipped refl
            | inl loadable ↦
                let (file_part, inside, placed) = ok.segments k (omega arith) loadable in
                rw loadable
                  (elim (Bool-cases (leb ph.p_paddr a && ltb a (ph.p_paddr + ph.p_filesz))) [
                    | inr off ↦ rw off refl
                    | inl on ↦ rw on (
                        ap some (
                          ap (byte m') (omega arith)
                          ∙ same (ph.p_offset + (a - ph.p_paddr)) (ground (arith, on, inside))
                          ∙ ap (byte m) (omega arith)))
                  ])
          ])
