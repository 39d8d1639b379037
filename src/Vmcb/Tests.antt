-- ===== src/Vmcb/Tests.antt =====
-- Control blocks that pass the checks, and one that does not.
use tvmm.Base.{◌+◌, ◌*◌, ◌^◌, ◌≡◌, ◌↔◌, true, refl, arith}
use tvmm.Base.Bits.{testbit}
use tvmm.Vmcb.{
  Vmcb, SegAttrs, SegSelector, ControlArea, SaveArea, consistent, failed, lme_pg_pae,
  vmcb_check_consistency, func, check_efer_svme, check_cr0cd_cr0nw, check_cr0_32_63,
  check_cr4_11_63, check_dr6_32_63, check_dr7_32_63, check_efer_15_63, check_eferlme_cr0pg_cr4pae,
}
use tvmm.Vmcb.Check.{IsAccepted, is_long_paging, consistent_iff}
use tvmm.Vmcb.Legal.{IsLegal, with_cr4, legal-consistent, high_cr4_missed, pge_taken_for_pae}

abbrev attrs : SegAttrs
attrs = record { type = 0xa; s = 1; dpl = 0; p = 1; avl = 0; l = 1; db = 0; g = 0; upper = 0 }

abbrev segment : SegSelector
segment = record { sel = 0; attrs = attrs; limit = 0xfffff; base = 0 }

abbrev control : ControlArea
control = record {
  cr_intercepts = 0;
  dr_intercepts = 0;
  exception_intercepts = 0;
  general1_intercepts = 0;
  general2_intercepts = 1;
  iopm_base_pa = 0;
  msrpm_base_pa = 0;
  tsc_offset = 0;
  guest_asid = 1;
  tlb_control = 1;
  vintr = 0;
  interrupt_shadow = 0;
  exitcode = 0;
  exitinfo1 = 0;
  exitinfo2 = 0;
  exitintinfo = 0;
  np_enable = 1;
  eventinj = 0;
  h_cr3 = 0;
}

abbrev save : SaveArea
save = record {
  es = segment;
  cs = segment;
  ss = segment;
  ds = segment;
  fs = segment;
  gs = segment;
  gdtr = segment;
  ldtr = segment;
  idtr = segment;
  tr = segment;
  cpl = 0;
  efer = 2 ^ 8 + 2 ^ 10 + 2 ^ 12;
  cr4 = 2 ^ 5;
  cr3 = 0;
  cr0 = 2 ^ 31 + 1;
  dr7 = 0;
  dr6 = 0;
  rflags = 2;
  rip = 0;
  rsp = 0;
  rax = 0;
  star = 0;
  lstar = 0;
  cstar = 0;
  sfmask = 0;
  kerngsbase = 0;
  sysenter_cs = 0;
  sysenter_esp = 0;
  sysenter_eip = 0;
  cr2 = 0;
  g_pat = 0;
}

abbrev long_mode : Vmcb
long_mode = record { control = control; save = save }

long_mode-IsLegal : IsLegal long_mode
unfolding testbit
long_mode-IsLegal = record {
  svme = refl;
  caching = refl;
  cr0_high = omega arith;
  cr4_high = omega arith;
  dr6_high = omega arith;
  dr7_high = omega arith;
  efer_high = omega arith;
  pae = refl;
  pe = refl;
  code_segment = refl;
  vmrun = refl;
}

consistent_iff_example : (vmcb_check_consistency long_mode ≡ consistent) ↔ IsAccepted long_mode
consistent_iff_example = consistent_iff long_mode

long_mode_passes : vmcb_check_consistency long_mode ≡ consistent
long_mode_passes = legal-consistent long_mode long_mode-IsLegal

high_cr4_missed_example :
    (vmcb_check_consistency (with_cr4 long_mode (2 ^ 5 + 2 ^ 43 * 3)) ≡ consistent)
    × ¬ IsLegal (with_cr4 long_mode (2 ^ 5 + 2 ^ 43 * 3))
high_cr4_missed_example = high_cr4_missed long_mode 3 long_mode_passes (omega arith)

-- The same block with CR4.PGE in place of CR4.PAE.
abbrev pge_block : Vmcb
pge_block = with_cr4 long_mode (2 ^ 7)

pge_block-is_long : is_long_paging pge_block ≡ true
unfolding testbit
pge_block-is_long = refl

pge_taken_for_pae_example : (vmcb_check_consistency pge_block ≡ consistent) × ¬ IsLegal pge_block
pge_taken_for_pae_example =
    pge_taken_for_pae pge_block long_mode-IsLegal refl pge_block-is_long refl

-- Without either digit the block is refused.
refused : vmcb_check_consistency (with_cr4 long_mode 0) ≡ failed lme_pg_pae
unfolding vmcb_check_consistency func check_efer_svme check_cr0cd_cr0nw check_cr0_32_63
    check_cr4_11_63 check_dr6_32_63 check_dr7_32_63 check_efer_15_63 check_eferlme_cr0pg_cr4pae
refused = refl
