-- ===== src/Elf/Image.antt =====
-- What the loading of a whole image leaves in memory.
use tvmm.Base.{
  ℕ, zero, suc, ◌+◌, ◌-◌, ◌^◌, ◌≤◌, ◌<◌, ◌≡◌, refl, ap, ◌∙◌, arith, true, not, ltb, leb, ltb→lt,
  ◌&&◌, Bool-cases, inl, inr, ◌⊎◌, if◌then◌else◌,
}
use tvmm.Memory.{Mem, byte, load16, load32}
use tvmm.Memory.Laws.{bytes_ext}
use tvmm.Kernel.{State, done}
use tvmm.Elf.{
  Phdr, phdr_at, e_entry, e_phnum, get_elf_phdr, is_loadable_phdr, load_one, load_loop,
  load_elf_image,
}
use tvmm.Elf.Bounds.{load16-lt}
use tvmm.Elf.Segment.{IsWellFormed, segment_byte, load_segment_lem}

module _ (m : Mem) (ehdr size start : ℕ) where
  -- Memory in which the image is as it was.
  abbrev pub HasImage : Mem → Type 0
  HasImage m' = (x : ℕ) → ehdr ≤ x → x < ehdr + size → byte m' x ≡ byte m x

  -- The `i`-th program header.
  abbrev pub phdr_of : ℕ → Phdr
  phdr_of i = phdr_at m (get_elf_phdr m ehdr i)

  -- The headers lie in the image, and no loadable segment is loaded over the image.
  pub record IsSafeImage : Type 0 where
    pub header : 52 ≤ size
    pub phdrs :
        (i : ℕ)
        → i < e_phnum m ehdr
        → (ehdr ≤ get_elf_phdr m ehdr i) × (get_elf_phdr m ehdr i + 32 ≤ ehdr + size)
    pub segments :
        (i : ℕ)
        → i < e_phnum m ehdr
        → is_loadable_phdr (phdr_of i) ≡ true
        → IsWellFormed ehdr start (phdr_of i)
          × ((phdr_of i).p_offset + (phdr_of i).p_filesz ≤ size)
          × ((start + (phdr_of i).p_paddr + (phdr_of i).p_memsz ≤ ehdr)
              ⊎ (ehdr + size ≤ start + (phdr_of i).p_paddr))

  -- The byte at `x` after the first `k` segments: that of the last one that covers `x`.
  unfoldable pub loaded_byte : ℕ → ℕ → ℕ
  loaded_byte zero x = byte m x
  loaded_byte (suc k) x =
      let earlier = loaded_byte k x in
      let dest = start + (phdr_of k).p_paddr in
      let file_end = dest + (phdr_of k).p_filesz in
      if not (is_loadable_phdr (phdr_of k))
      then earlier
      else (if leb dest x && ltb x file_end
          then byte m (ehdr + (phdr_of k).p_offset + (x - dest))
          else (if leb file_end x && ltb x (dest + (phdr_of k).p_memsz) then 0 else earlier))

  module _ (safe : IsSafeImage) (m' : Mem) (same : HasImage m') where
    pub phnum-same : e_phnum m' ehdr ≡ e_phnum m ehdr
    unfolding load16
    phnum-same =
        bytes_ext 2 m m' (ehdr + 44) (λ x lo hi. same x (omega arith) (omega (arith, safe.header)))

    pub entry-same : e_entry m' ehdr ≡ e_entry m ehdr
    unfolding load32
    entry-same =
        bytes_ext 4 m m' (ehdr + 24) (λ x lo hi. same x (omega arith) (omega (arith, safe.header)))

    pub place-same : (i : ℕ) → get_elf_phdr m' ehdr i ≡ get_elf_phdr m ehdr i
    unfolding get_elf_phdr load16 load32
    place-same i =
        let off =
          bytes_ext 4 m m' (ehdr + 28)
            (λ x lo hi. same x (omega arith) (omega (arith, safe.header))) in
        let ent =
          bytes_ext 2 m m' (ehdr + 42)
            (λ x lo hi. same x (omega arith) (omega (arith, safe.header))) in
        rw (off, ent) refl

    field-same :
        (a k : ℕ) → ehdr ≤ a → a + 32 ≤ ehdr + size → k ≤ 28 → load32 m' (a + k) ≡ load32 m (a + k)
    unfolding load32
    field-same a k lo hi le =
        bytes_ext 4 m m' (a + k) (λ x lo' hi'. same x (omega arith) (omega arith))

    first-same : (a : ℕ) → ehdr ≤ a → a + 32 ≤ ehdr + size → load32 m' a ≡ load32 m a
    unfolding load32
    first-same a lo hi = bytes_ext 4 m m' a (λ x lo' hi'. same x (omega arith) (omega arith))

    pub phdr-same : (i : ℕ) → i < e_phnum m ehdr → phdr_at m' (get_elf_phdr m' ehdr i) ≡ phdr_of i
    unfolding phdr_at
    phdr-same i lt =
        let a = get_elf_phdr m ehdr i in
        let (lo, hi) = safe.phdrs i lt in
        rw
          (
            place-same i,
            first-same a lo hi,
            field-same a 4 lo hi (omega arith),
            field-same a 8 lo hi (omega arith),
            field-same a 12 lo hi (omega arith),
            field-same a 16 lo hi (omega arith),
            field-same a 20 lo hi (omega arith),
            field-same a 24 lo hi (omega arith),
            field-same a 28 lo hi (omega arith),
          )
          refl

    -- A segment that lies in the image, over what was loaded before.
    overlay :
        (ph : Phdr) (x e : ℕ)
        → byte m' x ≡ e
        → ph.p_offset + ph.p_filesz ≤ size
        → segment_byte ehdr start ph m' x ≡ (
            if leb (start + ph.p_paddr) x && ltb x (start + ph.p_paddr + ph.p_filesz)
            then byte m (ehdr + ph.p_offset + (x - (start + ph.p_paddr)))
            else (if leb (start + ph.p_paddr + ph.p_filesz) x
                  && ltb x (start + ph.p_paddr + ph.p_memsz)
                then 0
                else e))
    overlay ph x e before inside =
        elim (Bool-cases (leb (start + ph.p_paddr) x && ltb x (start + ph.p_paddr + ph.p_filesz))) [
          | inl covered ↦
              let image : ℕ = ehdr + ph.p_offset + (x - (start + ph.p_paddr)) in
              let within : image < ehdr + size = ground arith in
              rw covered (same image (omega arith) within)
          | inr out ↦ rw (out, before) refl
        ]

    -- A segment that is not loaded over the image leaves it.
    spared :
        (ph : Phdr) (x : ℕ)
        → ehdr ≤ x
        → x < ehdr + size
        → ph.p_filesz ≤ ph.p_memsz
        → (start + ph.p_paddr + ph.p_memsz ≤ ehdr) ⊎ (ehdr + size ≤ start + ph.p_paddr)
        → segment_byte ehdr start ph m' x ≡ byte m x
    spared ph x lo hi file_part apart = ground (arith, same x lo hi)

    module _ (k : ℕ) (so_far : (x : ℕ) → byte m' x ≡ loaded_byte k x)
        (lt : k < e_phnum m ehdr) where
      one-loaded : (x : ℕ) → byte (load_one ehdr start k m') x ≡ loaded_byte (suc k) x
      unfolding load_one loaded_byte
      one-loaded x = elim (Bool-cases (is_loadable_phdr (phdr_of k))) [
        | inr skipped ↦ rw (phdr-same k lt, skipped) (so_far x)
        | inl loadable ↦
            let (formed, inside, apart) = safe.segments k lt loadable in
            rw (phdr-same k lt, loadable)
              (load_segment_lem ehdr start (phdr_of k) m' formed x
                ∙ overlay (phdr_of k) x (loaded_byte k x) (so_far x) inside)
      ]

      one-HasImage : HasImage (load_one ehdr start k m')
      unfolding load_one
      one-HasImage x lo hi = elim (Bool-cases (is_loadable_phdr (phdr_of k))) [
        | inr skipped ↦ rw (phdr-same k lt, skipped) (same x lo hi)
        | inl loadable ↦
            let (formed, inside, apart) = safe.segments k lt loadable in
            rw (phdr-same k lt, loadable)
              (load_segment_lem ehdr start (phdr_of k) m' formed x
                ∙ spared (phdr_of k) x lo hi formed.file_part apart)
      ]

  -- The loop from segment `k` on.
  loop-loaded :
      IsSafeImage
      → (fuel k : ℕ) (s : State) → HasImage s.mem
      → ((x : ℕ) → byte s.mem x ≡ loaded_byte k x)
      → k ≤ e_phnum m ehdr
      → e_phnum m ehdr < k + fuel
      → (s' : State) × (load_loop fuel ehdr start k s ≡ done tt s')
        × HasImage s'.mem
        × ((x : ℕ) → byte s'.mem x ≡ loaded_byte (e_phnum m ehdr) x)
  unfolding load_loop
  loop-loaded safe zero k s same so_far le enough = absurd (omega arith)
  loop-loaded safe (suc fuel) k s same so_far le enough =
      elim (Bool-cases (ltb k (e_phnum m ehdr))) [
        | inl more ↦
            let lt : k < e_phnum m ehdr = ltb→lt k (e_phnum m ehdr) more in
            rw (phnum-same safe s.mem same, more)
              (loop-loaded safe fuel (k + 1) (record s { mem = load_one ehdr start k s.mem })
                (one-HasImage safe s.mem same k so_far lt)
                (λ x.
                  one-loaded safe s.mem same k so_far lt x
                  ∙ ap (λ t. loaded_byte t x) (omega arith))
                (omega arith) (omega arith))
        | inr last ↦
            let end : k ≡ e_phnum m ehdr = ground arith in
            rw (phnum-same safe s.mem same, last)
              (s, refl, same, λ x. so_far x ∙ ap (λ t. loaded_byte t x) end)
      ]

-- If the headers lie in the image, its loadable segments are well-formed and lie in it, and none
-- is loaded over it, then `load_elf_image` returns the entry point, and each byte of memory is
-- that of the last segment which covers it, or else is as it was.
pub load_elf_image_lem :
    (image size start : ℕ) (s : State)
    → IsSafeImage s.mem image size start
    → (s' : State) × (load_elf_image image size start s ≡ done (e_entry s.mem image) s')
      × ((x : ℕ) → byte s'.mem x ≡ loaded_byte s.mem image size start (e_phnum s.mem image) x)
unfolding load_elf_image loaded_byte
load_elf_image_lem image size start s safe =
    let (s', e, same, loaded) =
      loop-loaded s.mem image size start safe (2 ^ 16) 0 s (λ x lo hi. refl) (λ x. refl)
        (omega arith) (load16-lt s.mem (image + 44)) in
    (s', rw e (ap (λ t. done t s') (entry-same s.mem image size start safe s'.mem same)), loaded)
