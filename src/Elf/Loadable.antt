-- ===== src/Elf/Loadable.antt =====
-- What a guest finds in its memory after `load_elf_image`, wherever that memory begins.
use tvmm.Base.{
  ℕ, zero, suc, ◌+◌, ◌-◌, ◌^◌, ◌≤◌, ◌<◌, ◌≡◌, refl, subst, ap, ◌∙◌, arith, Bool, true, false, not,
  ltb, leb, ◌&&◌, Bool-cases, inl, inr, ◌⊎◌, if◌then◌else◌, Option, some, none,
}
use tvmm.Memory.{Mem, byte, load32}
use tvmm.Memory.Laws.{load_bytes-lt}
use tvmm.Kernel.{State}
use tvmm.Elf.{phdr_at, e_entry, e_phnum, get_elf_phdr, is_loadable_phdr, load_elf_image}
use tvmm.Kernel.Laws.{Ends}
use tvmm.Elf.Bounds.{load_elf_image-ends}
use tvmm.Elf.Image.{
  HasImage, phdr_of, IsSafeImage, loaded_byte, phnum-same, entry-same, place-same, phdr-same,
  load_elf_image_lem,
}

-- The same choice among the parts of a segment and what is below it.
chosen :
    (skip file zeros : Bool) (w w' r b : ℕ) (earlier : Option ℕ)
    → (skip ≡ false → file ≡ true → w' ≡ w)
    → (earlier ≡ some b → r ≡ b)
    → (if skip then earlier else (if file then some w else (if zeros then some 0 else earlier)))
      ≡ some b
    → (if skip then r else (if file then w' else (if zeros then 0 else r))) ≡ b
chosen true file zeros w w' r b earlier copied below e = below e
chosen false true zeros w w' r b earlier copied below e = let same = copied refl refl in cc
chosen false false true w w' r b earlier copied below e = cc
chosen false false false w w' r b earlier copied below e = below e

module _ (m : Mem) (ehdr : ℕ) where
  -- The byte that the first `k` segments have for the guest's address `a`: that of the last one
  -- which covers it.
  unfoldable pub image_byte : ℕ → ℕ → Option ℕ
  image_byte zero a = none
  image_byte (suc k) a =
      let earlier = image_byte k a in
      let ph = phdr_at m (get_elf_phdr m ehdr k) in
      if not (is_loadable_phdr ph)
      then earlier
      else (if leb ph.p_paddr a && ltb a (ph.p_paddr + ph.p_filesz)
          then some (byte m (ehdr + ph.p_offset + (a - ph.p_paddr)))
          else (if leb (ph.p_paddr + ph.p_filesz) a && ltb a (ph.p_paddr + ph.p_memsz)
              then some 0
              else earlier))

module _ (m : Mem) (ehdr size : ℕ) where
  -- The headers lie in the image, and its loadable segments in the image and in a memory of `room`
  -- bytes.
  pub record IsLoadable (room : ℕ) : Type 0 where
    pub header : 52 ≤ size
    pub fits : ehdr + size < 2 ^ 64
    pub phdrs :
        (i : ℕ)
        → i < e_phnum m ehdr
        → (ehdr ≤ get_elf_phdr m ehdr i) × (get_elf_phdr m ehdr i + 32 ≤ ehdr + size)
    pub segments :
        (i : ℕ)
        → i < e_phnum m ehdr
        → is_loadable_phdr (phdr_at m (get_elf_phdr m ehdr i)) ≡ true
        → let ph = phdr_at m (get_elf_phdr m ehdr i) in
          (ph.p_filesz ≤ ph.p_memsz)
          × (ph.p_offset + ph.p_filesz ≤ size)
          × (ph.p_paddr + ph.p_memsz ≤ room)

  memsz-lt : (i : ℕ) → (phdr_at m (get_elf_phdr m ehdr i)).p_memsz < 2 ^ 32
  unfolding phdr_at load32
  memsz-lt i = load_bytes-lt 4 m (get_elf_phdr m ehdr i + 20)

  module _ (start room : ℕ) (ok : IsLoadable room) (below : start + room < 2 ^ 64)
      (apart : (start + room ≤ ehdr) ⊎ (ehdr + size ≤ start)) where
    IsLoadable-IsSafeImage : IsSafeImage m ehdr size start
    IsLoadable-IsSafeImage = record {
      header = ok.header;
      phdrs = ok.phdrs;
      segments = λ i lt loadable.
          let (file_part, inside, placed) = ok.segments i lt loadable in
          (
            record {
              file_part = file_part;
              word = memsz-lt i;
              dest_fits = omega (arith, placed, below);
              source_fits = omega (arith, inside, ok.fits);
            },
            inside,
            omega (arith, placed, apart),
          );
    }

    module _ (m' : Mem) (same : HasImage m ehdr size start m') where
      abbrev safe : IsSafeImage m ehdr size start
      safe = IsLoadable-IsSafeImage

      kept_phdr :
          (i : ℕ) → i < e_phnum m ehdr → phdr_of m' ehdr size start i ≡ phdr_of m ehdr size start i
      kept_phdr i lt = phdr-same m ehdr size start safe m' same i lt

      few : (i : ℕ) → i < e_phnum m' ehdr → i < e_phnum m ehdr
      few i lt = omega (arith, lt, phnum-same m ehdr size start safe m' same)

      kept-IsSafeImage : IsSafeImage m' ehdr size start
      kept-IsSafeImage = record {
        header = ok.header;
        phdrs = λ i lt. rw (place-same m ehdr size start safe m' same i) (ok.phdrs i (few i lt));
        segments = λ i lt. rw (kept_phdr i (few i lt)) (safe.segments i (few i lt));
      }

      loaded-image :
          (k a b : ℕ)
          → k ≤ e_phnum m ehdr
          → image_byte m ehdr k a ≡ some b
          → loaded_byte m' ehdr size start k (start + a) ≡ b
      unfolding image_byte loaded_byte
      loaded-image zero a b le e = absurd (cc)
      loaded-image (suc k) a b le e =
          let ph = phdr_of m ehdr size start k in
          let file : (leb (start + ph.p_paddr) (start + a)
                && ltb (start + a) (start + ph.p_paddr + ph.p_filesz))
              ≡ (leb ph.p_paddr a && ltb a (ph.p_paddr + ph.p_filesz)) =
            ground arith in
          let zeros : (leb (start + ph.p_paddr + ph.p_filesz) (start + a)
                && ltb (start + a) (start + ph.p_paddr + ph.p_memsz))
              ≡ (leb (ph.p_paddr + ph.p_filesz) a && ltb a (ph.p_paddr + ph.p_memsz)) =
            ground arith in
          rw (kept_phdr k (omega arith), file, zeros)
            (chosen (not (is_loadable_phdr ph))
              (leb ph.p_paddr a && ltb a (ph.p_paddr + ph.p_filesz))
              (leb (ph.p_paddr + ph.p_filesz) a && ltb a (ph.p_paddr + ph.p_memsz)) _ _ _ b
              (image_byte m ehdr k a)
              (λ taken inside.
                let (file_part, within, placed) =
                  ok.segments k (omega arith) (ground (arith, taken)) in
                let from : ehdr + ph.p_offset + (start + a - (start + ph.p_paddr))
                    ≡ ehdr + ph.p_offset + (a - ph.p_paddr) =
                  omega arith in
                ap (byte m') from ∙ same _ (omega arith) (ground (arith, inside, within)))
              (λ h. loaded-image k a b (omega arith) h) e)

      loaded_outside :
          (k x : ℕ)
          → k ≤ e_phnum m ehdr
          → (x < start) ⊎ (start + room ≤ x)
          → loaded_byte m' ehdr size start k x ≡ byte m' x
      unfolding loaded_byte
      loaded_outside zero x le out = refl
      loaded_outside (suc k) x le out =
          let ph = phdr_of m ehdr size start k in
          rw (kept_phdr k (omega arith)) (elim (Bool-cases (is_loadable_phdr ph)) [
            | inr skipped ↦ rw skipped (loaded_outside k x (omega arith) out)
            | inl loadable ↦
                let (file_part, inside, placed) = ok.segments k (omega arith) loadable in
                let earlier = loaded_outside k x (omega arith) out in
                let file : (leb (start + ph.p_paddr) x && ltb x (start + ph.p_paddr + ph.p_filesz))
                    ≡ false =
                  ground (arith, out, file_part, placed) in
                let zeros : (leb (start + ph.p_paddr + ph.p_filesz) x
                      && ltb x (start + ph.p_paddr + ph.p_memsz))
                    ≡ false =
                  ground (arith, out, file_part, placed) in
                rw (loadable, file, zeros) earlier
          ])

  -- What `load_elf_image` leaves: the bytes of the image's segments in the guest's memory, and all
  -- else as it was.
  pub record IsFilled (start room : ℕ) (s s' : State) : Type 0 where
    pub same_allocator : s'.nalloc ≡ s.nalloc
    pub contents :
        (a b : ℕ) → image_byte m ehdr (e_phnum m ehdr) a ≡ some b → byte s'.mem (start + a) ≡ b
    pub outside : (x : ℕ) → (x < start) ⊎ (start + room ≤ x) → byte s'.mem x ≡ byte s.mem x

  pub load_elf_image-IsFilled :
      (start room : ℕ) (s : State)
      → IsLoadable room
      → start + room < 2 ^ 64
      → (start + room ≤ ehdr) ⊎ (ehdr + size ≤ start)
      → HasImage m ehdr size start s.mem
      → Ends
          (λ rip s'. (rip ≡ e_entry m ehdr) × IsFilled start room s s')
          (load_elf_image ehdr size start s)
  load_elf_image-IsFilled start room s ok below apart same =
      let safe = IsLoadable-IsSafeImage start room ok below apart in
      let few = phnum-same m ehdr size start safe s.mem same in
      let (s2, e2, kept) = load_elf_image-ends ehdr size start s in
      let (s1, e1, loaded) =
        load_elf_image_lem ehdr size start s
          (kept-IsSafeImage start room ok below apart s.mem same) in
      let one : s2 ≡ s1 = cc in
      rw e1 (
        entry-same m ehdr size start safe s.mem same,
        record {
          same_allocator = subst (λ t. t.nalloc ≡ s.nalloc) one kept;
          contents = λ a b e.
              loaded (start + a)
              ∙ ap (λ k. loaded_byte s.mem ehdr size start k (start + a)) few
              ∙ loaded-image start room ok below apart s.mem same (e_phnum m ehdr) a b (omega arith)
                  e;
          outside = λ x out.
              loaded x
              ∙ ap (λ k. loaded_byte s.mem ehdr size start k x) few
              ∙ loaded_outside start room ok below apart s.mem same (e_phnum m ehdr) x (omega arith)
                  out;
        },
      )
