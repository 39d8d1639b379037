-- ===== src/Vmcb.antt =====
-- include/vmcb.h and kernel/vmcb.c: the virtual machine control block and the checks that the
-- hardware would make of it. Reserved fields are left out.
pub mod Digits
pub mod Check
pub mod Legal
pub mod Dump
pub mod Dumped
mod DumpTests
mod Tests
use tvmm.Base.{
  ℕ, zero, suc, ◌+◌, ◌-◌, ◌*◌, ◌/◌, ◌%◌, ◌^◌, bit_and, Bool, true, false, not, ◌&&◌, ◌!=◌, ◌==◌,
  List, [], ◌∷◌, if◌then◌else◌,
}
use tvmm.Base.Word.{w32, w64, sub64, shl64, shr}
use Prim.Native.String.{String}

-- The fields of `union seg_attrs`; `upper` is the four digits of `bytes` that no field names.
pub record SegAttrs : Type 0 where
  pub type : ℕ
  pub s : ℕ
  pub dpl : ℕ
  pub p : ℕ
  pub avl : ℕ
  pub l : ℕ
  pub db : ℕ
  pub g : ℕ
  pub upper : ℕ

pub record SegSelector : Type 0 where
  pub sel : ℕ
  pub attrs : SegAttrs
  pub limit : ℕ
  pub base : ℕ

pub record ControlArea : Type 0 where
  pub cr_intercepts : ℕ
  pub dr_intercepts : ℕ
  pub exception_intercepts : ℕ
  pub general1_intercepts : ℕ
  pub general2_intercepts : ℕ
  pub iopm_base_pa : ℕ
  pub msrpm_base_pa : ℕ
  pub tsc_offset : ℕ
  pub guest_asid : ℕ
  pub tlb_control : ℕ
  pub vintr : ℕ
  pub interrupt_shadow : ℕ
  pub exitcode : ℕ
  pub exitinfo1 : ℕ
  pub exitinfo2 : ℕ
  pub exitintinfo : ℕ
  pub np_enable : ℕ
  pub eventinj : ℕ
  pub h_cr3 : ℕ

pub record SaveArea : Type 0 where
  pub es : SegSelector
  pub cs : SegSelector
  pub ss : SegSelector
  pub ds : SegSelector
  pub fs : SegSelector
  pub gs : SegSelector
  pub gdtr : SegSelector
  pub ldtr : SegSelector
  pub idtr : SegSelector
  pub tr : SegSelector
  pub cpl : ℕ
  pub efer : ℕ
  pub cr4 : ℕ
  pub cr3 : ℕ
  pub cr0 : ℕ
  pub dr7 : ℕ
  pub dr6 : ℕ
  pub rflags : ℕ
  pub rip : ℕ
  pub rsp : ℕ
  pub rax : ℕ
  pub star : ℕ
  pub lstar : ℕ
  pub cstar : ℕ
  pub sfmask : ℕ
  pub kerngsbase : ℕ
  pub sysenter_cs : ℕ
  pub sysenter_esp : ℕ
  pub sysenter_eip : ℕ
  pub cr2 : ℕ
  pub g_pat : ℕ

-- `struct vmcb`: the control area, then the state save area.
pub record Vmcb : Type 0 where
  pub control : ControlArea
  pub open control use *
  pub save : SaveArea
  pub open save use *

-- include/system.h, include/msr.h and INTRCPT_VMRUN. X86_CR4_PAE is `5UL << 5`, as written there.
abbrev pub cr0_pe : ℕ
cr0_pe = 1 * 2 ^ 0

abbrev pub cr0_nw : ℕ
cr0_nw = 1 * 2 ^ 29

abbrev pub cr0_cd : ℕ
cr0_cd = 1 * 2 ^ 30

abbrev pub cr0_pg : ℕ
cr0_pg = 1 * 2 ^ 31

abbrev pub cr4_pae : ℕ
cr4_pae = 5 * 2 ^ 5

abbrev pub efer_lme : ℕ
efer_lme = 2 ^ 8

abbrev pub efer_lma : ℕ
efer_lma = 2 ^ 10

abbrev pub efer_svme : ℕ
efer_svme = 2 ^ 12

abbrev pub intrcpt_vmrun : ℕ
intrcpt_vmrun = 2 ^ 0

-- `x & m` as a condition.
abbrev pub has : ℕ → ℕ → Bool
has x m = bit_and x m != 0

-- `~ ( ~0UL << n )`.
unfoldable pub bit_mask : ℕ → ℕ
bit_mask n = 2 ^ 64 - 1 - shl64 (2 ^ 64 - 1) n

unfoldable pub sub_bit : ℕ → ℕ → ℕ → ℕ
unfolding bit_mask
sub_bit x start len = bit_and (shr x start) (bit_mask len)

-- The `int` that a check returns, as a condition: only its low 32 bits are left.
abbrev pub as_int : ℕ → Bool
as_int x = w32 x != 0

unfoldable pub check_efer_svme : Vmcb → Bool
check_efer_svme v = not (has v.efer efer_svme)

unfoldable pub check_cr0cd_cr0nw : Vmcb → Bool
check_cr0cd_cr0nw v = not (has v.cr0 cr0_cd) && has v.cr0 cr0_nw

unfoldable pub check_cr0_32_63 : Vmcb → Bool
unfolding sub_bit
check_cr0_32_63 v = as_int (sub_bit v.cr0 32 32)

unfoldable pub check_cr4_11_63 : Vmcb → Bool
unfolding sub_bit
check_cr4_11_63 v = as_int (sub_bit v.cr4 11 53)

unfoldable pub check_dr6_32_63 : Vmcb → Bool
unfolding sub_bit
check_dr6_32_63 v = as_int (sub_bit v.dr6 32 32)

unfoldable pub check_dr7_32_63 : Vmcb → Bool
unfolding sub_bit
check_dr7_32_63 v = as_int (sub_bit v.dr7 32 32)

unfoldable pub check_efer_15_63 : Vmcb → Bool
unfolding sub_bit
check_efer_15_63 v = as_int (sub_bit v.efer 15 49)

unfoldable pub check_eferlme_cr0pg_cr4pae : Vmcb → Bool
check_eferlme_cr0pg_cr4pae v = has v.efer efer_lme && has v.cr0 cr0_pg && not (has v.cr4 cr4_pae)

unfoldable pub check_eferlme_cr0pg_cr0pe : Vmcb → Bool
check_eferlme_cr0pg_cr0pe v = has v.efer efer_lme && has v.cr0 cr0_pg && not (has v.cr0 cr0_pe)

unfoldable pub check_eferlme_cr0pg_cr4pae_csl_csd : Vmcb → Bool
check_eferlme_cr0pg_cr4pae_csl_csd v =
    has v.efer efer_lme
    && has v.cr0 cr0_pg
    && has v.cr4 cr4_pae
    && v.cs.attrs.l != 0
    && v.cs.attrs.db != 0

unfoldable pub check_vmrun_intercept : Vmcb → Bool
check_vmrun_intercept v = not (has v.general2_intercepts intrcpt_vmrun)

unfoldable pub check_msr_ioio_intercept_tables : Vmcb → Bool
check_msr_ioio_intercept_tables v = false

-- The rows of the table `tbl` of `vmcb_check_consistency`.
pub data ConsistencyCheck : Type 0 where
  efer_svme_set cr0_cd_nw cr0_high cr4_high dr6_high dr7_high efer_high : ConsistencyCheck
  lme_pg_pae lme_pg_pe lme_pg_pae_l_d vmrun_intercept intercept_tables : ConsistencyCheck

-- `tbl [ i ].func`.
unfoldable pub func : ConsistencyCheck → Vmcb → Bool
func efer_svme_set = check_efer_svme
func cr0_cd_nw = check_cr0cd_cr0nw
func cr0_high = check_cr0_32_63
func cr4_high = check_cr4_11_63
func dr6_high = check_dr6_32_63
func dr7_high = check_dr7_32_63
func efer_high = check_efer_15_63
func lme_pg_pae = check_eferlme_cr0pg_cr4pae
func lme_pg_pe = check_eferlme_cr0pg_cr0pe
func lme_pg_pae_l_d = check_eferlme_cr0pg_cr4pae_csl_csd
func vmrun_intercept = check_vmrun_intercept
func intercept_tables = check_msr_ioio_intercept_tables

-- `tbl [ i ].error_msg`, less its line feed.
unfoldable pub error_msg : ConsistencyCheck → String
error_msg efer_svme_set = "EFER.SVME is not set."
error_msg cr0_cd_nw = "CR0.CD is not set, and CR0.NW is set."
error_msg cr0_high = "CR0[32:63] are not zero."
error_msg cr4_high = "CR4[11:63] are not zero."
error_msg dr6_high = "DR6[32:63] are not zero."
error_msg dr7_high = "DR7[32:63] are not zero."
error_msg efer_high = "EFER[15:63] are not zero."
error_msg lme_pg_pae = "EFER.LME is set, CR0.PG is set, and CR4.PAE is not set."
error_msg lme_pg_pe = "EFER.LME is set, CR0.PG is set, and CR4.PE is not set."
error_msg lme_pg_pae_l_d = "EFER.LME, CR0.PG, CR4.PAE, CS.L, and CS.D are set."
error_msg vmrun_intercept = "The VMRUN intercept bit is clear."
error_msg intercept_tables = "Wrong The MSR or IOIO intercept tables address."

abbrev pub check_table : List ConsistencyCheck
check_table =
    efer_svme_set ∷ cr0_cd_nw ∷ cr0_high ∷ cr4_high ∷ dr6_high ∷ dr7_high ∷ efer_high ∷ lme_pg_pae
    ∷ lme_pg_pe ∷ lme_pg_pae_l_d ∷ vmrun_intercept ∷ intercept_tables ∷ []

-- What the loop does: it returns, or it prints the message of a row and stops the machine.
pub data Verdict : Type 0 where
  consistent : Verdict
  failed : ConsistencyCheck → Verdict

unfoldable pub check_loop : Vmcb → List ConsistencyCheck → Verdict
check_loop v [] = consistent
check_loop v (c ∷ rest) = if func c v then failed c else check_loop v rest

unfoldable pub vmcb_check_consistency : Vmcb → Verdict
unfolding check_loop
vmcb_check_consistency v = check_loop v check_table
