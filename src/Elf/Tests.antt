-- ===== src/Elf/Tests.antt =====
-- A header with one segment of 12 bytes, 8 of them in the image.
use tvmm.Base.{ltb, ℕ, arith, inr, refl, ◌≡◌, ◌==◌, if◌then◌else◌}
use tvmm.Memory.{Mem, byte, load_bytes, load16, load32}
use tvmm.Kernel.{State, done}
use tvmm.Elf.{Phdr, phdr_at, get_elf_phdr, e_phnum, e_entry, load_elf_image}
use tvmm.Elf.Segment.{IsWellFormed}
use tvmm.Elf.Image.{IsSafeImage, phdr_of, loaded_byte, load_elf_image_lem}

abbrev image : Mem
image a =
    if a == 0x1018
    then 0x99
    else (if a == 0x101C
        then 52
        else (if a == 0x102A
            then 32
            else (if a == 0x102C
                then 1
                else (if a == 0x1034
                    then 1
                    else (if a == 0x1038
                        then 96
                        else (if a == 0x1040
                            then 16
                            else (if a == 0x1044
                                then 8
                                else (if a == 0x1048
                                    then 12
                                    else (if a == 0x104C
                                        then 5
                                        else (if ltb a 0x1060 then 0 else a))))))))))

abbrev state : State
state = record { mem = image; nalloc = record { alloc_bitmap = 0; max_page = 0 } }

abbrev segment : Phdr
segment = record {
  p_type = 1;
  p_offset = 96;
  p_vaddr = 0;
  p_paddr = 16;
  p_filesz = 8;
  p_memsz = 12;
  p_flags = 5;
  p_align = 0;
}

segments_of_image : e_phnum image 0x1000 ≡ 1
unfolding load16 load_bytes
segments_of_image = refl

place_of_segment : get_elf_phdr image 0x1000 0 ≡ 0x1034
unfolding get_elf_phdr load16 load32 load_bytes
place_of_segment = refl

segment_of_image : phdr_of image 0x1000 128 0x20_0000 0 ≡ segment
unfolding phdr_at get_elf_phdr load16 load32 load_bytes
segment_of_image = refl

segment-IsWellFormed : IsWellFormed 0x1000 0x20_0000 segment
segment-IsWellFormed = record {
  file_part = omega arith;
  word = omega arith;
  dest_fits = omega arith;
  source_fits = omega arith;
}

image-IsSafeImage : IsSafeImage image 0x1000 128 0x20_0000
image-IsSafeImage = record {
  header = omega arith;
  phdrs = λ i lt.
      let first : i ≡ 0 = omega (arith, segments_of_image) in
      rw (first, place_of_segment) (omega arith);
  segments = λ i lt loadable.
      let first : i ≡ 0 = omega (arith, segments_of_image) in
      rw (first, segment_of_image) (segment-IsWellFormed, omega arith, inr (omega arith));
}

load_elf_image_lem_example :
    (s' : State) × (load_elf_image 0x1000 128 0x20_0000 state ≡ done (e_entry image 0x1000) s')
    × ((x : ℕ) → byte s'.mem x ≡ loaded_byte image 0x1000 128 0x20_0000 (e_phnum image 0x1000) x)
load_elf_image_lem_example = load_elf_image_lem 0x1000 128 0x20_0000 state image-IsSafeImage
