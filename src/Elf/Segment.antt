-- ===== src/Elf/Segment.antt =====
-- What the loading of one segment leaves in memory.
use tvmm.Base.{
  ℕ, ◌+◌, ◌-◌, ◌^◌, ◌≤◌, ◌<◌, ◌≡◌, ◌∙◌, arith, ltb, leb, ◌&&◌, Bool-cases, inl, inr, if◌then◌else◌,
}
use tvmm.Base.Word.{w64, w32}
use tvmm.Memory.{Mem, byte}
use tvmm.CString.{memset, memmove}
use tvmm.CString.Laws.{memset_lem, memmove_lem}
use tvmm.Elf.{Phdr, load_segment}

-- The segment's parts do not wrap, and its part in the file is not longer than the whole.
pub record IsWellFormed (ehdr vm_pmem_start : ℕ) (phdr : Phdr) : Type 0 where
  pub file_part : phdr.p_filesz ≤ phdr.p_memsz
  pub word : phdr.p_memsz < 2 ^ 32
  pub dest_fits : vm_pmem_start + phdr.p_paddr + phdr.p_memsz < 2 ^ 64
  pub source_fits : ehdr + phdr.p_offset + phdr.p_filesz < 2 ^ 64

copied_lem :
    (m : Mem) (d a k x : ℕ)
    → byte (if ltb 0 k then memmove m d a k else m) x
      ≡ (if leb d x && ltb x (d + k) then byte m (a + (x - d)) else byte m x)
copied_lem m d a k x = elim (Bool-cases (ltb 0 k)) [
  | inl some ↦ rw some (memmove_lem m d a k x)
  | inr none_left ↦ rw none_left (ground (arith, none_left))
]

zeroed_lem :
    (m : Mem) (d k x : ℕ)
    → byte (if ltb 0 k then memset m d 0 k else m) x
      ≡ (if leb d x && ltb x (d + k) then 0 else byte m x)
zeroed_lem m d k x = elim (Bool-cases (ltb 0 k)) [
  | inl some ↦ rw some (ground (arith, memset_lem k m d 0 x))
  | inr none_left ↦ rw none_left (ground (arith, none_left))
]

module _ (ehdr vm_pmem_start : ℕ) (phdr : Phdr) (m : Mem) where
  -- The image's bytes, then zeros, then what was there.
  abbrev pub segment_byte : ℕ → ℕ
  segment_byte x =
      let dest = vm_pmem_start + phdr.p_paddr in
      if leb dest x && ltb x (dest + phdr.p_filesz)
      then byte m (ehdr + phdr.p_offset + (x - dest))
      else (if leb (dest + phdr.p_filesz) x && ltb x (dest + phdr.p_memsz) then 0 else byte m x)

  -- A well-formed segment is at its place: the bytes of the file, also where the image and the
  -- guest's memory overlap, then zeros up to its size in memory. No other byte changes.
  pub load_segment_lem :
      IsWellFormed ehdr vm_pmem_start phdr
      → (x : ℕ) → byte (load_segment ehdr vm_pmem_start phdr m) x ≡ segment_byte x
  unfolding load_segment
  load_segment_lem ok x =
      let dest : ℕ = vm_pmem_start + phdr.p_paddr in
      let at : w64 (vm_pmem_start + phdr.p_paddr) ≡ vm_pmem_start + phdr.p_paddr =
        omega (arith, ok.dest_fits) in
      let from : w64 (ehdr + phdr.p_offset) ≡ ehdr + phdr.p_offset =
        omega (arith, ok.source_fits) in
      let len : w32 (phdr.p_memsz + 2 ^ 32 - phdr.p_filesz) ≡ phdr.p_memsz - phdr.p_filesz =
        omega (arith, ok.file_part, ok.word) in
      let rest_at : w64 (vm_pmem_start + phdr.p_paddr + phdr.p_filesz)
          ≡ vm_pmem_start + phdr.p_paddr + phdr.p_filesz =
        omega (arith, ok.dest_fits, ok.file_part) in
      let image : ℕ = ehdr + phdr.p_offset in
      let copied : Mem = if ltb 0 phdr.p_filesz then memmove m dest image phdr.p_filesz else m in
      let size : ℕ = phdr.p_memsz - phdr.p_filesz in
      let end : dest + phdr.p_filesz + size ≡ dest + phdr.p_memsz = omega (arith, ok.file_part) in
      rw (at, from, len, rest_at)
        (zeroed_lem copied (dest + phdr.p_filesz) size x
          ∙ rw end (ground (arith, ok.file_part, copied_lem m dest image phdr.p_filesz x)))
