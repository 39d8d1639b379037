-- ===== src/VmExit/Code.antt =====
-- include/vmexit.h: the codes that say why the guest was left.
use tvmm.Base.{ℕ, ◌-◌, ◌^◌}

-- `enum vmexit_exitcode`.
pub data VmexitExitcode : Type 0 where
  vmexit_cr0_read vmexit_cr1_read vmexit_cr2_read vmexit_cr3_read vmexit_cr4_read : VmexitExitcode
  vmexit_cr5_read vmexit_cr6_read vmexit_cr7_read vmexit_cr8_read vmexit_cr9_read : VmexitExitcode
  vmexit_cr10_read vmexit_cr11_read vmexit_cr12_read vmexit_cr13_read vmexit_cr14_read :
      VmexitExitcode
  vmexit_cr15_read vmexit_cr0_write vmexit_cr1_write vmexit_cr2_write vmexit_cr3_write :
      VmexitExitcode
  vmexit_cr4_write vmexit_cr5_write vmexit_cr6_write vmexit_cr7_write vmexit_cr8_write :
      VmexitExitcode
  vmexit_cr9_write vmexit_cr10_write vmexit_cr11_write vmexit_cr12_write vmexit_cr13_write :
      VmexitExitcode
  vmexit_cr14_write vmexit_cr15_write vmexit_dr0_read vmexit_dr1_read vmexit_dr2_read :
      VmexitExitcode
  vmexit_dr3_read vmexit_dr4_read vmexit_dr5_read vmexit_dr6_read vmexit_dr7_read : VmexitExitcode
  vmexit_dr8_read vmexit_dr9_read vmexit_dr10_read vmexit_dr11_read vmexit_dr12_read :
      VmexitExitcode
  vmexit_dr13_read vmexit_dr14_read vmexit_dr15_read vmexit_dr0_write vmexit_dr1_write :
      VmexitExitcode
  vmexit_dr2_write vmexit_dr3_write vmexit_dr4_write vmexit_dr5_write vmexit_dr6_write :
      VmexitExitcode
  vmexit_dr7_write vmexit_dr8_write vmexit_dr9_write vmexit_dr10_write vmexit_dr11_write :
      VmexitExitcode
  vmexit_dr12_write vmexit_dr13_write vmexit_dr14_write vmexit_dr15_write vmexit_exception_de :
      VmexitExitcode
  vmexit_exception_db vmexit_exception_nmi vmexit_exception_bp vmexit_exception_of : VmexitExitcode
  vmexit_exception_br vmexit_exception_ud vmexit_exception_nm vmexit_exception_df : VmexitExitcode
  vmexit_exception_09 vmexit_exception_ts vmexit_exception_np vmexit_exception_ss : VmexitExitcode
  vmexit_exception_gp vmexit_exception_pf vmexit_exception_15 vmexit_exception_mf : VmexitExitcode
  vmexit_exception_ac vmexit_exception_mc vmexit_exception_xf vmexit_intr vmexit_nmi :
      VmexitExitcode
  vmexit_smi vmexit_init vmexit_vintr vmexit_cr0_sel_write vmexit_idtr_read vmexit_gdtr_read :
      VmexitExitcode
  vmexit_ldtr_read vmexit_tr_read vmexit_idtr_write vmexit_gdtr_write vmexit_ldtr_write :
      VmexitExitcode
  vmexit_tr_write vmexit_rdtsc vmexit_rdpmc vmexit_pushf vmexit_popf vmexit_cpuid vmexit_rsm :
      VmexitExitcode
  vmexit_iret vmexit_swint vmexit_invd vmexit_pause vmexit_hlt vmexit_invlpg vmexit_invlpga :
      VmexitExitcode
  vmexit_ioio vmexit_msr vmexit_task_switch vmexit_ferr_freeze vmexit_shutdown vmexit_vmrun :
      VmexitExitcode
  vmexit_vmmcall vmexit_vmload vmexit_vmsave vmexit_stgi vmexit_clgi vmexit_skinit : VmexitExitcode
  vmexit_rdtscp vmexit_icebp vmexit_npf vmexit_invalid : VmexitExitcode

-- The value of an enumerator, an `int`; -1 is written in two's complement.
unfoldable pub exitcode_value : VmexitExitcode → ℕ
exitcode_value vmexit_cr0_read = 0
exitcode_value vmexit_cr1_read = 1
exitcode_value vmexit_cr2_read = 2
exitcode_value vmexit_cr3_read = 3
exitcode_value vmexit_cr4_read = 4
exitcode_value vmexit_cr5_read = 5
exitcode_value vmexit_cr6_read = 6
exitcode_value vmexit_cr7_read = 7
exitcode_value vmexit_cr8_read = 8
exitcode_value vmexit_cr9_read = 9
exitcode_value vmexit_cr10_read = 10
exitcode_value vmexit_cr11_read = 11
exitcode_value vmexit_cr12_read = 12
exitcode_value vmexit_cr13_read = 13
exitcode_value vmexit_cr14_read = 14
exitcode_value vmexit_cr15_read = 15
exitcode_value vmexit_cr0_write = 16
exitcode_value vmexit_cr1_write = 17
exitcode_value vmexit_cr2_write = 18
exitcode_value vmexit_cr3_write = 19
exitcode_value vmexit_cr4_write = 20
exitcode_value vmexit_cr5_write = 21
exitcode_value vmexit_cr6_write = 22
exitcode_value vmexit_cr7_write = 23
exitcode_value vmexit_cr8_write = 24
exitcode_value vmexit_cr9_write = 25
exitcode_value vmexit_cr10_write = 26
exitcode_value vmexit_cr11_write = 27
exitcode_value vmexit_cr12_write = 28
exitcode_value vmexit_cr13_write = 29
exitcode_value vmexit_cr14_write = 30
exitcode_value vmexit_cr15_write = 31
exitcode_value vmexit_dr0_read = 32
exitcode_value vmexit_dr1_read = 33
exitcode_value vmexit_dr2_read = 34
exitcode_value vmexit_dr3_read = 35
exitcode_value vmexit_dr4_read = 36
exitcode_value vmexit_dr5_read = 37
exitcode_value vmexit_dr6_read = 38
exitcode_value vmexit_dr7_read = 39
exitcode_value vmexit_dr8_read = 40
exitcode_value vmexit_dr9_read = 41
exitcode_value vmexit_dr10_read = 42
exitcode_value vmexit_dr11_read = 43
exitcode_value vmexit_dr12_read = 44
exitcode_value vmexit_dr13_read = 45
exitcode_value vmexit_dr14_read = 46
exitcode_value vmexit_dr15_read = 47
exitcode_value vmexit_dr0_write = 48
exitcode_value vmexit_dr1_write = 49
exitcode_value vmexit_dr2_write = 50
exitcode_value vmexit_dr3_write = 51
exitcode_value vmexit_dr4_write = 52
exitcode_value vmexit_dr5_write = 53
exitcode_value vmexit_dr6_write = 54
exitcode_value vmexit_dr7_write = 55
exitcode_value vmexit_dr8_write = 56
exitcode_value vmexit_dr9_write = 57
exitcode_value vmexit_dr10_write = 58
exitcode_value vmexit_dr11_write = 59
exitcode_value vmexit_dr12_write = 60
exitcode_value vmexit_dr13_write = 61
exitcode_value vmexit_dr14_write = 62
exitcode_value vmexit_dr15_write = 63
exitcode_value vmexit_exception_de = 64
exitcode_value vmexit_exception_db = 65
exitcode_value vmexit_exception_nmi = 66
exitcode_value vmexit_exception_bp = 67
exitcode_value vmexit_exception_of = 68
exitcode_value vmexit_exception_br = 69
exitcode_value vmexit_exception_ud = 70
exitcode_value vmexit_exception_nm = 71
exitcode_value vmexit_exception_df = 72
exitcode_value vmexit_exception_09 = 73
exitcode_value vmexit_exception_ts = 74
exitcode_value vmexit_exception_np = 75
exitcode_value vmexit_exception_ss = 76
exitcode_value vmexit_exception_gp = 77
exitcode_value vmexit_exception_pf = 78
exitcode_value vmexit_exception_15 = 79
exitcode_value vmexit_exception_mf = 80
exitcode_value vmexit_exception_ac = 81
exitcode_value vmexit_exception_mc = 82
exitcode_value vmexit_exception_xf = 83
exitcode_value vmexit_intr = 96
exitcode_value vmexit_nmi = 97
exitcode_value vmexit_smi = 98
exitcode_value vmexit_init = 99
exitcode_value vmexit_vintr = 100
exitcode_value vmexit_cr0_sel_write = 101
exitcode_value vmexit_idtr_read = 102
exitcode_value vmexit_gdtr_read = 103
exitcode_value vmexit_ldtr_read = 104
exitcode_value vmexit_tr_read = 105
exitcode_value vmexit_idtr_write = 106
exitcode_value vmexit_gdtr_write = 107
exitcode_value vmexit_ldtr_write = 108
exitcode_value vmexit_tr_write = 109
exitcode_value vmexit_rdtsc = 110
exitcode_value vmexit_rdpmc = 111
exitcode_value vmexit_pushf = 112
exitcode_value vmexit_popf = 113
exitcode_value vmexit_cpuid = 114
exitcode_value vmexit_rsm = 115
exitcode_value vmexit_iret = 116
exitcode_value vmexit_swint = 117
exitcode_value vmexit_invd = 118
exitcode_value vmexit_pause = 119
exitcode_value vmexit_hlt = 120
exitcode_value vmexit_invlpg = 121
exitcode_value vmexit_invlpga = 122
exitcode_value vmexit_ioio = 123
exitcode_value vmexit_msr = 124
exitcode_value vmexit_task_switch = 125
exitcode_value vmexit_ferr_freeze = 126
exitcode_value vmexit_shutdown = 127
exitcode_value vmexit_vmrun = 128
exitcode_value vmexit_vmmcall = 129
exitcode_value vmexit_vmload = 130
exitcode_value vmexit_vmsave = 131
exitcode_value vmexit_stgi = 132
exitcode_value vmexit_clgi = 133
exitcode_value vmexit_skinit = 134
exitcode_value vmexit_rdtscp = 135
exitcode_value vmexit_icebp = 136
exitcode_value vmexit_npf = 1024
exitcode_value vmexit_invalid = 2 ^ 32 - 1
