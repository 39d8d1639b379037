-- ===== src/Vmcb/Check.antt =====
-- Which control blocks `vmcb_check_consistency` lets pass.
use tvmm.Base.{
  ◌/◌, ◌%◌, ◌^◌, ◌≡◌, ◌↔◌, refl, ap, arith, Bool, true, false, ◌&&◌, ◌||◌, not, ◌!=◌, Bool-cases,
  inl, inr, List, [], ◌∷◌,
}
use tvmm.Base.Bits.{testbit}
use tvmm.Vmcb.{
  Vmcb, check_efer_svme, check_cr0cd_cr0nw, check_cr0_32_63, check_cr4_11_63, check_dr6_32_63,
  check_dr7_32_63, check_efer_15_63, check_eferlme_cr0pg_cr4pae, check_eferlme_cr0pg_cr0pe,
  check_eferlme_cr0pg_cr4pae_csl_csd, check_vmrun_intercept, check_msr_ioio_intercept_tables, func,
  check_loop, check_table, ConsistencyCheck, consistent, vmcb_check_consistency,
}
use tvmm.Vmcb.Digits.{has-testbit, has-pae, field_53, field_49, field_32}

-- Long mode is enabled and so is paging.
abbrev pub is_long_paging : Vmcb → Bool
is_long_paging v = testbit v.efer 8 && testbit v.cr0 31

-- The conditions, in digits of the registers.
pub record IsAccepted (v : Vmcb) : Type 0 where
  pub svme : testbit v.efer 12 ≡ true
  pub caching : (testbit v.cr0 30 || not (testbit v.cr0 29)) ≡ true
  pub cr0_high : v.cr0 / 2 ^ 32 % 2 ^ 32 ≡ 0
  pub cr4_high : v.cr4 / 2 ^ 11 % 2 ^ 32 ≡ 0
  pub dr6_high : v.dr6 / 2 ^ 32 % 2 ^ 32 ≡ 0
  pub dr7_high : v.dr7 / 2 ^ 32 % 2 ^ 32 ≡ 0
  pub efer_high : v.efer / 2 ^ 15 % 2 ^ 32 ≡ 0
  pub pae : (not (is_long_paging v) || (testbit v.cr4 5 || testbit v.cr4 7)) ≡ true
  pub pe : (not (is_long_paging v) || testbit v.cr0 0) ≡ true
  pub code_segment :
      (is_long_paging v
        && (testbit v.cr4 5 || testbit v.cr4 7)
        && v.cs.attrs.l != 0
        && v.cs.attrs.db != 0)
      ≡ false
  pub vmrun : testbit v.general2_intercepts 0 ≡ true

abbrev pub NonePass : Vmcb → List ConsistencyCheck → Type 0
NonePass v [] = Unit {0}
NonePass v (c ∷ rest) = (func c v ≡ false) × NonePass v rest

check_loop_iff :
    (v : Vmcb) (cs : List ConsistencyCheck) → (check_loop v cs ≡ consistent) ↔ NonePass v cs
unfolding check_loop
check_loop_iff v [] = (λ h. tt, λ h. refl)
check_loop_iff v (c ∷ rest) = elim (Bool-cases (func c v)) [
  | inl hit ↦ rw hit (λ h. cc, λ h. cc)
  | inr miss ↦
      rw miss (λ h. (refl, (check_loop_iff v rest).0 h), λ h. (check_loop_iff v rest).1 h.1)
]

module _ (v : Vmcb) where
  svme_lem : check_efer_svme v ≡ not (testbit v.efer 12)
  unfolding check_efer_svme
  svme_lem = ap not (has-testbit 12 v.efer)

  caching_lem : check_cr0cd_cr0nw v ≡ (not (testbit v.cr0 30) && testbit v.cr0 29)
  unfolding check_cr0cd_cr0nw
  caching_lem = rw (has-testbit 30 v.cr0, has-testbit 29 v.cr0) refl

  pae_lem :
      check_eferlme_cr0pg_cr4pae v
      ≡ (testbit v.efer 8 && testbit v.cr0 31 && not (testbit v.cr4 5 || testbit v.cr4 7))
  unfolding check_eferlme_cr0pg_cr4pae
  pae_lem = rw (has-testbit 8 v.efer, has-testbit 31 v.cr0, has-pae v.cr4) refl

  pe_lem :
      check_eferlme_cr0pg_cr0pe v ≡ (testbit v.efer 8 && testbit v.cr0 31 && not (testbit v.cr0 0))
  unfolding check_eferlme_cr0pg_cr0pe
  pe_lem = rw (has-testbit 8 v.efer, has-testbit 31 v.cr0, has-testbit 0 v.cr0) refl

  code_segment_lem : check_eferlme_cr0pg_cr4pae_csl_csd v ≡ (
      testbit v.efer 8
      && testbit v.cr0 31
      && (testbit v.cr4 5 || testbit v.cr4 7)
      && v.cs.attrs.l != 0
      && v.cs.attrs.db != 0)
  unfolding check_eferlme_cr0pg_cr4pae_csl_csd
  code_segment_lem = rw (has-testbit 8 v.efer, has-testbit 31 v.cr0, has-pae v.cr4) refl

  vmrun_lem : check_vmrun_intercept v ≡ not (testbit v.general2_intercepts 0)
  unfolding check_vmrun_intercept
  vmrun_lem = ap not (has-testbit 0 v.general2_intercepts)

  high_fields :
      (check_cr0_32_63 v ≡ (v.cr0 / 2 ^ 32 % 2 ^ 32 != 0))
      × (check_cr4_11_63 v ≡ (v.cr4 / 2 ^ 11 % 2 ^ 32 != 0))
      × (check_dr6_32_63 v ≡ (v.dr6 / 2 ^ 32 % 2 ^ 32 != 0))
      × (check_dr7_32_63 v ≡ (v.dr7 / 2 ^ 32 % 2 ^ 32 != 0))
      × (check_efer_15_63 v ≡ (v.efer / 2 ^ 15 % 2 ^ 32 != 0))
  unfolding check_cr0_32_63 check_cr4_11_63 check_dr6_32_63 check_dr7_32_63 check_efer_15_63
  high_fields = (
    field_32 v.cr0 32,
    field_53 v.cr4 11,
    field_32 v.dr6 32,
    field_32 v.dr7 32,
    field_49 v.efer 15,
  )

  -- The rows' conditions, as equations on digits.
  accept : NonePass v check_table → IsAccepted v
  unfolding func
  accept p =
      let hf = high_fields in
      record {
        svme = ground (arith, svme_lem);
        caching = ground (arith, caching_lem);
        cr0_high = ground arith;
        cr4_high = ground arith;
        dr6_high = ground arith;
        dr7_high = ground arith;
        efer_high = ground arith;
        pae = ground (arith, pae_lem);
        pe = ground (arith, pe_lem);
        code_segment = ground (arith, code_segment_lem);
        vmrun = ground (arith, vmrun_lem);
      }

  none_pass : IsAccepted v → NonePass v check_table
  unfolding func check_msr_ioio_intercept_tables
  none_pass a =
      let hf = high_fields in
      (
        ground (arith, svme_lem),
        (
          ground (arith, caching_lem),
          (
            ground arith,
            (
              ground arith,
              (
                ground arith,
                (
                  ground arith,
                  (
                    ground arith,
                    (
                      ground (arith, pae_lem),
                      (
                        ground (arith, pe_lem),
                        (ground (arith, code_segment_lem), (ground (arith, vmrun_lem), (refl, tt))),
                      ),
                    ),
                  ),
                ),
              ),
            ),
          ),
        ),
      )

  -- The check returns exactly when the conditions of all its rows hold. A reserved field of more
  -- than 32 digits is looked at in its low 32 digits only, and either of the digits 5 and 7 of
  -- CR4 counts as PAE.
  pub consistent_iff : (vmcb_check_consistency v ≡ consistent) ↔ IsAccepted v
  unfolding vmcb_check_consistency
  consistent_iff = (
    λ h. accept ((check_loop_iff v check_table).0 h),
    λ a. (check_loop_iff v check_table).1 (none_pass a),
  )
