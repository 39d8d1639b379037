-- ===== src/Cpu.antt =====
-- include/cpu.h and kernel/cpu.c: what is found out about the processor. `cpuid` is the
-- processor's. The fields of `struct cpuinfo_x86` that no code assigns are left out.
pub mod Vendor
pub mod Identify
mod Tests
use tvmm.Base.{
  ℕ, ◌+◌, ◌-◌, ◌*◌, ◌/◌, ◌%◌, ◌^◌, Bool, not, ◌&&◌, ◌||◌, leb, ltb, ◌==◌, ◌!=◌, bit_and,
  if◌then◌else◌, List, [], ◌∷◌, Option, none, some,
}
use tvmm.Base.Word.{w32, shr}
use tvmm.Memory.{Mem, store8, store_bytes}
use tvmm.CString.{strncmp, strcpy}
use tvmm.Failure.{bad_family, no_nested_paging, unknown_vendor}
use tvmm.Kernel.{Run, Kernel, done, pure, fail, out_of_fuel, ◌>>=◌, ◌>>◌}
use tvmm.Bitops.{Words, set_word, set_bit, clear_bit}
use tvmm.Svm.{Registers, Cpuid, Msrs, Svm, enable_svm}

abbrev pub x86_vendor_amd : ℕ
x86_vendor_amd = 2

abbrev pub x86_vendor_unknown : ℕ
x86_vendor_unknown = 0xff

abbrev x86_feature_rep_good : ℕ
x86_feature_rep_good = 3 * 32 + 4

abbrev x86_feature_fxsave_leak : ℕ
x86_feature_fxsave_leak = 3 * 32 + 7

-- The arrays of characters lie in memories of their own, from address 0 on.
pub record CpuInfo : Type 0 where
  pub x86 : ℕ
  pub x86_vendor : ℕ
  pub x86_model : ℕ
  pub x86_mask : ℕ
  pub cpuid_level : ℕ
  pub x86_capability : Words
  pub x86_vendor_id : Mem
  pub x86_model_id : Mem
  pub x86_cache_size : ℕ
  pub x86_clflush_size : ℕ
  pub x86_cache_alignment : ℕ
  pub x86_tlbsize : ℕ
  pub x86_virt_bits : ℕ
  pub x86_phys_bits : ℕ
  pub x86_max_cores : ℕ
  pub x86_power : ℕ
  pub extended_cpuid_level : ℕ

-- A constant string.
unfoldable pub constant : List ℕ → Mem
constant [] a = 0
constant (c ∷ cs) a = if a == 0 then c else constant cs (a - 1)

-- "AuthenticAMD".
abbrev pub authentic_amd : List ℕ
authentic_amd = 65 ∷ 117 ∷ 116 ∷ 104 ∷ 101 ∷ 110 ∷ 116 ∷ 105 ∷ 99 ∷ 65 ∷ 77 ∷ 68 ∷ []

-- "Hammer".
abbrev pub hammer : List ℕ
hammer = 72 ∷ 97 ∷ 109 ∷ 109 ∷ 101 ∷ 114 ∷ []

unfoldable pub display_cacheinfo : Cpuid → CpuInfo → CpuInfo
display_cacheinfo cpuid c =
    let n = c.extended_cpuid_level in
    let l1 = cpuid 0x8000_0005 in
    let l2 = cpuid 0x8000_0006 in
    let sizes = (cpuid 0x8000_0008).eax in
    let tlbsize = if leb 0x8000_0005 n then 0 else c.x86_tlbsize in
    record c {
      x86_cache_size =
          if leb 0x8000_0006 n
          then shr l2.ecx 16
          else (if leb 0x8000_0005 n
              then w32 (shr l1.ecx 24 + shr l1.edx 24)
              else c.x86_cache_size);
      x86_tlbsize =
          if leb 0x8000_0006 n
          then w32 (tlbsize + (bit_and (shr l2.ebx 16) 0xfff + bit_and l2.ebx 0xfff))
          else tlbsize;
      x86_power = if leb 0x8000_0007 n then (cpuid 0x8000_0007).edx else c.x86_power;
      x86_virt_bits = if leb 0x8000_0008 n then bit_and (shr sizes 8) 0xff else c.x86_virt_bits;
      x86_phys_bits = if leb 0x8000_0008 n then bit_and sizes 0xff else c.x86_phys_bits;
    }

-- The registers of one leaf, at word `i` of the array.
unfoldable pub store_leaf : ℕ → Registers → Mem → Mem
store_leaf i r m =
    let m1 = store_bytes m (i * 4) 4 r.eax in
    let m2 = store_bytes m1 (i * 4 + 4) 4 r.ebx in
    let m3 = store_bytes m2 (i * 4 + 8) 4 r.ecx in store_bytes m3 (i * 4 + 12) 4 r.edx

unfoldable pub get_model_name : Cpuid → Mem → Mem
get_model_name cpuid m =
    let m1 = store_leaf 0 (cpuid 0x8000_0002) m in
    let m2 = store_leaf 4 (cpuid 0x8000_0003) m1 in
    let m3 = store_leaf 8 (cpuid 0x8000_0004) m2 in store8 m3 48 0

-- The vendor.
unfoldable pub get_cpu_vendor : Mem → ℕ
get_cpu_vendor x86_vendor_id =
    if strncmp x86_vendor_id 0 (constant authentic_amd) 0 12 == 0
    then x86_vendor_amd
    else x86_vendor_unknown

-- The assignments before the first `cpuid`.
unfoldable pub reset : CpuInfo → CpuInfo
reset c = record c {
  x86_cache_size = 2 ^ 32 - 1;
  x86_vendor = x86_vendor_unknown;
  x86_model = 0;
  x86_mask = 0;
  x86_vendor_id = store8 c.x86_vendor_id 0 0;
  x86_model_id = store8 c.x86_model_id 0 0;
  x86_clflush_size = 64;
  x86_cache_alignment = 64;
  x86_max_cores = 1;
  extended_cpuid_level = 0;
  x86_capability = λ i. 0;
}

-- The vendor's name, and what it is.
unfoldable pub read_vendor : Registers → CpuInfo → CpuInfo
read_vendor r c =
    let m1 = store_bytes c.x86_vendor_id 0 4 r.ebx in
    let m2 = store_bytes m1 8 4 r.ecx in
    let m3 = store_bytes m2 4 4 r.edx in
    record c { cpuid_level = r.eax; x86_vendor_id = m3; x86_vendor = get_cpu_vendor m3 }

-- `c->x86`, an `u8`, of the word `tfms`.
unfoldable pub family : ℕ → ℕ
family tfms =
    let base = bit_and (shr tfms 8) 0xf in
    if base == 0xf then (base + bit_and (shr tfms 20) 0xff) % 256 else base

-- `c->cpuid_level >= 0x00000001` compares two `int`s.
abbrev pub has_leaf1 : ℕ → Bool
has_leaf1 cpuid_level = leb 1 cpuid_level && ltb cpuid_level (2 ^ 31)

-- Level 1.
unfoldable pub standard_features : Registers → CpuInfo → CpuInfo
standard_features r c =
    let tfms = r.eax in
    let low_model = bit_and (shr tfms 4) 0xf in
    let has = has_leaf1 c.cpuid_level in
    record c {
      x86 = if has then family tfms else 4;
      x86_model =
          if not has
          then c.x86_model
          else (if leb 6 (family tfms)
              then (low_model + bit_and (shr tfms 16) 0xf * 2 ^ 4) % 256
              else low_model);
      x86_mask = if has then bit_and tfms 0xf else c.x86_mask;
      x86_clflush_size =
          if has && bit_and r.edx (2 ^ 19) != 0
          then bit_and (shr r.ebx 8) 0xff * 8
          else c.x86_clflush_size;
      x86_capability =
          if has then set_word 0 r.edx (set_word 4 r.ecx c.x86_capability) else c.x86_capability;
    }

-- `( xlvl & 0xffff0000 ) == base`, and `xlvl >= leaf`.
abbrev pub has_leaf : ℕ → ℕ → ℕ → Bool
has_leaf base leaf xlvl = bit_and xlvl 0xffff_0000 == base && leb leaf xlvl

-- Level 0x80000001.
unfoldable pub extended_features : Cpuid → CpuInfo → CpuInfo
extended_features cpuid c =
    let xlvl = (cpuid 0x8000_0000).eax in
    let r = cpuid 0x8000_0001 in
    record c {
      extended_cpuid_level = xlvl;
      x86_capability =
          if has_leaf 0x8000_0000 0x8000_0001 xlvl
          then set_word 6 r.ecx (set_word 1 r.edx c.x86_capability)
          else c.x86_capability;
      x86_model_id =
          if has_leaf 0x8000_0000 0x8000_0004 xlvl
          then get_model_name cpuid c.x86_model_id
          else c.x86_model_id;
    }

-- Level 0x80860001.
unfoldable pub transmeta_features : Cpuid → CpuInfo → CpuInfo
transmeta_features cpuid c = record c {
  x86_capability =
      if has_leaf 0x8086_0000 0x8086_0001 (cpuid 0x8086_0000).eax
      then set_word 2 (cpuid 0x8086_0001).edx c.x86_capability
      else c.x86_capability;
}

unfoldable pub early_identify_cpu : Cpuid → CpuInfo → CpuInfo
early_identify_cpu cpuid c =
    transmeta_features cpuid
      (extended_features cpuid (standard_features (cpuid 1) (read_vendor (cpuid 0) (reset c))))

-- `__init_amd` after `strcpy`, which has returned the name.
unfoldable pub check_nested_paging : Cpuid → CpuInfo → Option Mem → Kernel CpuInfo
check_nested_paging cpuid c none s = out_of_fuel
check_nested_paging cpuid c (some model_id) s =
    if bit_and (cpuid 0x8000_0000).ebx 1 == 0
    then fail no_nested_paging s
    else done (record c { x86_model_id = model_id }) s

-- The name has 6 characters.
unfoldable pub init_amd_model : Cpuid → CpuInfo → Kernel CpuInfo
init_amd_model cpuid c = check_nested_paging cpuid c (strcpy 7 c.x86_model_id 0 (constant hammer) 0)

-- `level` of `init_amd`.
abbrev pub is_rep_good : ℕ → Bool
is_rep_good level = leb 0x0f48 level && ltb level 0x0f50 || leb 0x0f58 level

-- The capability words after the bits that `init_amd` sets and clears.
unfoldable pub amd_capability : Cpuid → Words → Words
amd_capability cpuid words =
    let w1 = clear_bit (0 * 32 + 31) words in
    let w2 = if is_rep_good (cpuid 1).eax then set_bit x86_feature_rep_good w1 else w1 in
    set_bit x86_feature_fxsave_leak w2

unfoldable pub init_amd : Cpuid → CpuInfo → Msrs → Kernel (CpuInfo × Svm)
init_amd cpuid c msrs =
    if c.x86 != 0xf
    then fail bad_family
    else init_amd_model cpuid (record c { x86_capability = amd_capability cpuid c.x86_capability })
      >>= λ c1.
          let c2 = display_cacheinfo cpuid c1 in
          enable_svm cpuid c2.x86_capability msrs >>= λ svm.
          pure (record c2 { x86_capability = svm.x86_capability }, svm)

-- The variable `c` holds anything at first.
unfoldable pub identify_cpu : Cpuid → CpuInfo → Msrs → Kernel (CpuInfo × Svm)
identify_cpu cpuid c msrs =
    let c1 = early_identify_cpu cpuid c in
    if c1.x86_vendor == x86_vendor_amd then init_amd cpuid c1 msrs else fail unknown_vendor
