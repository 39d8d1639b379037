-- ===== src/Elf/Sample.antt =====
-- An ELF image for tests, of 128 bytes at its start, with one segment of 12 bytes for the guest's
-- address 2 MB.
use tvmm.Base.{ℕ, ◌+◌, ◌-◌, ◌*◌, ◌/◌, ◌^◌, ◌≡◌, refl, arith, ltb, ◌==◌, if◌then◌else◌}
use tvmm.Memory.{Mem, load_bytes, load16, load32}
use tvmm.Elf.{Phdr, phdr_at, get_elf_phdr, e_phnum}
use tvmm.Elf.Loadable.{IsLoadable}

abbrev file_byte : ℕ → ℕ
file_byte o =
    if o == 0x1C
    then 52
    else (if o == 0x2A
        then 32
        else (if o == 0x2C
            then 1
            else (if o == 0x34
                then 1
                else (if o == 0x38
                    then 96
                    else (if o == 0x42
                        then 0x20
                        else (if o == 0x44
                            then 8
                            else (if o == 0x48
                                then 12
                                else (if o == 0x4C then 5 else (if ltb o 96 then 0 else o)))))))))

abbrev pub place : ℕ
place = 0xFFFF_8300_003E_8000

abbrev pub memory : Mem
memory a = if ltb a place then 0 else file_byte (a - place)

abbrev segment : Phdr
segment = record {
  p_type = 1;
  p_offset = 96;
  p_vaddr = 0;
  p_paddr = 0x20_0000;
  p_filesz = 8;
  p_memsz = 12;
  p_flags = 5;
  p_align = 0;
}

one_segment : e_phnum memory place ≡ 1
unfolding load16 load_bytes
one_segment = refl

place_of_segment : get_elf_phdr memory place 0 ≡ place + 0x34
unfolding get_elf_phdr load16 load32 load_bytes
place_of_segment = refl

segment_read : phdr_at memory (get_elf_phdr memory place 0) ≡ segment
unfolding phdr_at get_elf_phdr load16 load32 load_bytes
segment_read = refl

pub memory-IsLoadable : IsLoadable memory place 128 (2 ^ 22 / 4096 * 4096)
memory-IsLoadable = record {
  header = omega arith;
  fits = omega arith;
  phdrs = λ i lt.
      let first : i ≡ 0 = omega (arith, one_segment) in rw (first, place_of_segment) (omega arith);
  segments = λ i lt loadable.
      let first : i ≡ 0 = omega (arith, one_segment) in rw (first, segment_read) (omega arith);
}
