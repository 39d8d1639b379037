-- ===== src/Cpu/Vendor.antt =====
-- `get_cpu_vendor`: which registers of `cpuid` spell the vendor's name.
use tvmm.Base.{◌^◌, ◌<◌, ◌≡◌, ◌↔◌, refl, arith}
use tvmm.Memory.{Mem, store8, store_bytes}
use tvmm.CString.Strings.{HoldsString}
use tvmm.CString.Compare.{BytesAre, strncmp-BytesAre}
use tvmm.Svm.{Registers}
use tvmm.Cpu.{authentic_amd, constant, get_cpu_vendor, CpuInfo, read_vendor, x86_vendor_amd}

-- The registers are of 32 bits.
abbrev pub AreWords : Registers → Type 0
AreWords r = (r.eax < 2 ^ 32) × (r.ebx < 2 ^ 32) × (r.ecx < 2 ^ 32) × (r.edx < 2 ^ 32)

-- "Auth", "enti" and "cAMD".
abbrev pub IsAmd : Registers → Type 0
IsAmd r = (r.ebx ≡ 0x6874_7541) × (r.edx ≡ 0x6974_6e65) × (r.ecx ≡ 0x444d_4163)

constant-HoldsString : HoldsString (constant authentic_amd) 0 authentic_amd
unfolding constant
constant-HoldsString = omega arith

-- The twelve bytes.
abbrev vendor_bytes : Registers → Mem → Mem
vendor_bytes r m = store_bytes (store_bytes (store_bytes m 0 4 r.ebx) 8 4 r.ecx) 4 4 r.edx

vendor_bytes_lem :
    (r : Registers) (m : Mem) → AreWords r → BytesAre (vendor_bytes r m) 0 authentic_amd ↔ IsAmd r
unfolding store_bytes store8
vendor_bytes_lem r m words = (λ b. omega arith, λ a. omega arith)

-- With registers of 32 bits, the vendor is AMD exactly if they spell its name: "Auth" in EBX,
-- "enti" in EDX and "cAMD" in ECX.
pub get_cpu_vendor-IsAmd :
    (r : Registers) (c : CpuInfo)
    → AreWords r
    → ((read_vendor r c).x86_vendor ≡ x86_vendor_amd) ↔ IsAmd r
unfolding read_vendor get_cpu_vendor
get_cpu_vendor-IsAmd r c words =
    let (there, back) =
      strncmp-BytesAre authentic_amd (vendor_bytes r c.x86_vendor_id) 0 (constant authentic_amd) 0
        constant-HoldsString in
    let (decode, encode) = vendor_bytes_lem r c.x86_vendor_id words in
    ((λ e. decode (there (ground arith))), (λ a. rw (back (encode a)) refl))
