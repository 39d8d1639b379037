-- ===== src/Vmcb/Legal.antt =====
-- The conditions on a control block over the whole of each register, as the processor's manual
-- names them, against the checks.
use tvmm.Base.{
  ℕ, ◌+◌, ◌*◌, ◌/◌, ◌%◌, ◌^◌, ◌<◌, ◌≡◌, refl, ap, ◌∙◌, arith, true, false, ◌&&◌, ◌||◌, not, ◌==◌,
  ◌!=◌, and-false,
}
use mathlib.Core.Bool.{false≢true}
use tvmm.Base.Bits.{testbit}
use tvmm.Vmcb.{Vmcb, consistent, vmcb_check_consistency}
use tvmm.Vmcb.Check.{is_long_paging, IsAccepted, consistent_iff}

-- CR0[32:63], CR4[11:63], DR6[32:63], DR7[32:63] and EFER[15:63] are zero, CR4.PAE is digit 5, and
-- PE is digit 0 of CR0, as in the check (its message at vmcb.c:129 names it CR4.PE).
pub record IsLegal (v : Vmcb) : Type 0 where
  pub svme : testbit v.efer 12 ≡ true
  pub caching : (testbit v.cr0 30 || not (testbit v.cr0 29)) ≡ true
  pub cr0_high : v.cr0 < 2 ^ 32
  pub cr4_high : v.cr4 < 2 ^ 11
  pub dr6_high : v.dr6 < 2 ^ 32
  pub dr7_high : v.dr7 < 2 ^ 32
  pub efer_high : v.efer < 2 ^ 15
  pub pae : (not (is_long_paging v) || testbit v.cr4 5) ≡ true
  pub pe : (not (is_long_paging v) || testbit v.cr0 0) ≡ true
  pub code_segment :
      (is_long_paging v && testbit v.cr4 5 && v.cs.attrs.l != 0 && v.cs.attrs.db != 0) ≡ false
  pub vmrun : testbit v.general2_intercepts 0 ≡ true

legal-IsAccepted : (v : Vmcb) → IsLegal v → IsAccepted v
legal-IsAccepted v h = record {
  svme = h.svme;
  caching = h.caching;
  cr0_high = omega (arith, h.cr0_high);
  cr4_high = omega (arith, h.cr4_high);
  dr6_high = omega (arith, h.dr6_high);
  dr7_high = omega (arith, h.dr7_high);
  efer_high = omega (arith, h.efer_high);
  pae = ground (arith, h.pae);
  pe = h.pe;
  code_segment = ground (arith, h.pae, h.code_segment);
  vmrun = h.vmrun;
}

-- A legal control block passes.
pub legal-consistent : (v : Vmcb) → IsLegal v → vmcb_check_consistency v ≡ consistent
legal-consistent v h = (consistent_iff v).1 (legal-IsAccepted v h)

-- The control block with more digits set in CR4.
abbrev pub with_cr4 : Vmcb → ℕ → Vmcb
with_cr4 v x = record v { save = record v.save { cr4 = x } }

high_digits :
    (x k : ℕ)
    → ((x + 2 ^ 43 * k) / 2 ^ 11 % 2 ^ 32 ≡ x / 2 ^ 11 % 2 ^ 32)
      × (testbit (x + 2 ^ 43 * k) 5 ≡ testbit x 5)
      × (testbit (x + 2 ^ 43 * k) 7 ≡ testbit x 7)
unfolding testbit
high_digits x k =
    (omega arith, ap (λ (t : ℕ). t == 1) (omega arith), ap (λ (t : ℕ). t == 1) (omega arith))

-- Digits 43 to 63 of CR4 escape the check that CR4[11:63] is zero: a control block that passes
-- still passes when any of them are set, and is then not legal.
pub high_cr4_missed :
    (v : Vmcb) (k : ℕ)
    → vmcb_check_consistency v ≡ consistent
    → 0 < k
    → (vmcb_check_consistency (with_cr4 v (v.cr4 + 2 ^ 43 * k)) ≡ consistent)
      × ¬ IsLegal (with_cr4 v (v.cr4 + 2 ^ 43 * k))
high_cr4_missed v k pass pos =
    let a = (consistent_iff v).0 pass in
    let (field, five, seven) = high_digits v.cr4 k in
    let v' : Vmcb = with_cr4 v (v.cr4 + 2 ^ 43 * k) in
    let accepted : IsAccepted v' = record {
      svme = a.svme;
      caching = a.caching;
      cr0_high = a.cr0_high;
      cr4_high = field ∙ a.cr4_high;
      dr6_high = a.dr6_high;
      dr7_high = a.dr7_high;
      efer_high = a.efer_high;
      pae = rw (five, seven) a.pae;
      pe = a.pe;
      code_segment = rw (five, seven) a.code_segment;
      vmrun = a.vmrun;
    } in
    ((consistent_iff v').1 accepted, λ h. omega (arith, h.cr4_high))

-- CR4.PGE (digit 7) is taken for CR4.PAE (digit 5): in long mode with paging and without PAE, a
-- control block whose other conditions hold passes when PGE is set, and is not legal.
pub pge_taken_for_pae :
    (v : Vmcb)
    → IsLegal (with_cr4 v (2 ^ 5))
    → v.cr4 ≡ 2 ^ 7
    → is_long_paging v ≡ true
    → v.cs.attrs.db ≡ 0
    → (vmcb_check_consistency v ≡ consistent) × ¬ IsLegal v
unfolding testbit
pge_taken_for_pae v legal pge long d =
    let accepted : IsAccepted v = record {
      svme = legal.svme;
      caching = legal.caching;
      cr0_high = omega (arith, legal.cr0_high);
      cr4_high = rw pge refl;
      dr6_high = omega (arith, legal.dr6_high);
      dr7_high = omega (arith, legal.dr7_high);
      efer_high = omega (arith, legal.efer_high);
      pae = rw (pge, long) refl;
      pe = legal.pe;
      code_segment = rw (pge, long, d) (and-false (v.cs.attrs.l != 0));
      vmrun = legal.vmrun;
    } in
    ((consistent_iff v).1 accepted, λ h. false≢true (rw (pge, long) at h.pae))
