-- ===== src/Vm/GuestWalk.antt =====
-- How the guest's first addresses are translated.
use tvmm.Base.{
  ℕ, ◌+◌, ◌*◌, ◌/◌, ◌%◌, ◌^◌, ◌≤◌, ◌<◌, ◌≡◌, ◌⊎◌, refl, ap, ◌∙◌, arith, inl, inr, Bool, true, false,
  ◌==◌, ◌&&◌, if◌then◌else◌, Bool-cases, Option, some, none,
}
use tvmm.Memory.{Mem, load64}
use tvmm.Vm.GuestTable.{Holds, guest_words, create_temp_page_table-Holds}
use tvmm.Vm.{create_temp_page_table}

-- The entry with index `i` in the guest's table at guest address `table`.
abbrev guest_entry : ℕ → Mem → ℕ → ℕ → ℕ
guest_entry start m table i = load64 m (start + table + 8 * i)

abbrev is_table : ℕ → Bool
is_table e = e % 2 == 1 && e / 2 ^ 7 % 2 == 0

abbrev is_page : ℕ → Bool
is_page e = e % 2 == 1 && e / 2 ^ 7 % 2 == 1

abbrev next : ℕ → ℕ
next e = e / 2 ^ 12 % 2 ^ 40 * 2 ^ 12

abbrev through : ℕ → ℕ → ℕ → ℕ → Option ℕ
through e4 e3 e2 v =
    if is_table e4 && is_table e3 && is_page e2
    then some (e2 / 2 ^ 21 % 2 ^ 31 * 2 ^ 21 + v % 2 ^ 21)
    else none

-- How the processor translates an address in long mode, with pages of 2 Mbytes; guest memory
-- begins at `start`.
abbrev pub guest_walk : ℕ → Mem → ℕ → ℕ → Option ℕ
guest_walk start m cr3 v =
    let e4 = guest_entry start m cr3 (v / 2 ^ 39 % 512) in
    let e3 = guest_entry start m (next e4) (v / 2 ^ 30 % 512) in
    through e4 e3 (guest_entry start m (next e3) (v / 2 ^ 21 % 512)) v

module _ (start cr3 : ℕ) where
  -- The first 4 Mbytes are mapped to themselves.
  pub record IsIdentity (m m' : Mem) : Type 0 where
    pub low_addrs : (v : ℕ) → v < 2 ^ 22 → guest_walk start m' cr3 v ≡ some v
    pub high_addrs : (v : ℕ) → 2 ^ 22 ≤ v → v < 2 ^ 48 → guest_walk start m' cr3 v ≡ none
    pub rest : (x : ℕ) → (x < start + cr3) ⊎ (start + cr3 + 3 * 4096 ≤ x) → m' x ≡ m x

module _ (start cr3 : ℕ) (whole : cr3 % 4096 ≡ 0) (low : cr3 + 3 * 4096 ≤ 2 ^ 52)
    (inside : start + cr3 + 3 * 4096 ≤ 2 ^ 64) where
  module _ (m m' : Mem) (h : Holds m (start + cr3) (guest_words cr3) m') where
    level4 : (i : ℕ) → i < 512 → guest_entry start m' cr3 i ≡ (if i == 0 then cr3 + 0x1003 else 0)
    level4 i lt = h.word i (omega arith) ∙ ground arith

    level3 :
        (i : ℕ)
        → i < 512
        → guest_entry start m' (next (cr3 + 0x1003)) i ≡ (if i == 0 then cr3 + 0x2003 else 0)
    level3 i lt =
        let at : start + next (cr3 + 0x1003) + 8 * i ≡ start + cr3 + 8 * (512 + i) = omega arith in
        ap (load64 m') at ∙ h.word (512 + i) (omega arith) ∙ ground arith

    level2 :
        (i : ℕ)
        → i < 512
        → guest_entry start m' (next (cr3 + 0x2003)) i
          ≡ (if i == 0 then 131 else (if i == 1 then 2 ^ 21 + 131 else 0))
    level2 i lt =
        let at : start + next (cr3 + 0x2003) + 8 * i ≡ start + cr3 + 8 * (1024 + i) = omega arith in
        ap (load64 m') at ∙ h.word (1024 + i) (omega arith) ∙ ground arith

    is_table4 : is_table (cr3 + 0x1003) ≡ true
    is_table4 = ground arith

    is_table3 : is_table (cr3 + 0x2003) ≡ true
    is_table3 = ground arith

    -- The way through the first two tables.
    walk3 :
        (v : ℕ)
        → v / 2 ^ 39 % 512 ≡ 0
        → guest_walk start m' cr3 v ≡ (
            let e3 = if v / 2 ^ 30 % 512 == 0 then cr3 + 0x2003 else 0 in
            through (cr3 + 0x1003) e3 (guest_entry start m' (next e3) (v / 2 ^ 21 % 512)) v)
    walk3 v first =
        let e3 = λ (e4 : ℕ). guest_entry start m' (next e4) (v / 2 ^ 30 % 512) in
        let e2 = λ (e : ℕ). guest_entry start m' (next e) (v / 2 ^ 21 % 512) in
        let entry4 : guest_entry start m' cr3 (v / 2 ^ 39 % 512) ≡ cr3 + 0x1003 =
          level4 (v / 2 ^ 39 % 512) (omega arith) ∙ ground (arith, first) in
        ap (λ e4. through e4 (e3 e4) (e2 (e3 e4)) v) entry4
        ∙ ap (λ e. through (cr3 + 0x1003) e (e2 e) v) (level3 (v / 2 ^ 30 % 512) (omega arith))

    walk2 :
        (v : ℕ)
        → v / 2 ^ 39 % 512 ≡ 0
        → v / 2 ^ 30 % 512 ≡ 0
        → guest_walk start m' cr3 v ≡ (
            let i = v / 2 ^ 21 % 512 in
            let e2 = if i == 0 then 131 else (if i == 1 then 2 ^ 21 + 131 else 0) in
            if is_page e2 then some (e2 / 2 ^ 21 % 2 ^ 31 * 2 ^ 21 + v % 2 ^ 21) else none)
    walk2 v first second =
        let entry3 : (if v / 2 ^ 30 % 512 == 0 then cr3 + 0x2003 else 0) ≡ cr3 + 0x2003 =
          ground (arith, second) in
        walk3 v first
        ∙ ap (λ e. through (cr3 + 0x1003) e (guest_entry start m' (next e) (v / 2 ^ 21 % 512)) v)
            entry3
        ∙ ap (λ e. through (cr3 + 0x1003) (cr3 + 0x2003) e v)
            (level2 (v / 2 ^ 21 % 512) (omega arith))
        ∙ rw (is_table4, is_table3) refl

    low_addrs_lem : (v : ℕ) → v < 2 ^ 22 → guest_walk start m' cr3 v ≡ some v
    low_addrs_lem v lt =
        walk2 v (omega arith) (omega arith) ∙ elim (Bool-cases (v / 2 ^ 21 % 512 == 0)) [
          | inl a ↦ rw a (ap some (ground (arith, a)))
          | inr a ↦
              let one : (v / 2 ^ 21 % 512 == 1) ≡ true = ground (arith, a) in
              rw (a, one) (ap some (ground (arith, one)))
        ]

    high_addrs_lem : (v : ℕ) → 2 ^ 22 ≤ v → v < 2 ^ 48 → guest_walk start m' cr3 v ≡ none
    high_addrs_lem v lo hi = elim (Bool-cases (v / 2 ^ 39 % 512 == 0)) [
      | inl a ↦ elim (Bool-cases (v / 2 ^ 30 % 512 == 0)) [
        | inl b ↦
            let zeroth : (v / 2 ^ 21 % 512 == 0) ≡ false = ground (arith, a, b) in
            let first : (v / 2 ^ 21 % 512 == 1) ≡ false = ground (arith, a, b) in
            walk2 v (ground (arith, a)) (ground (arith, b)) ∙ rw (zeroth, first) refl
        | inr b ↦ walk3 v (ground (arith, a)) ∙ rw (b, is_table4) refl
      ]
      | inr a ↦
          let entry4 : guest_entry start m' cr3 (v / 2 ^ 39 % 512) ≡ 0 =
            level4 (v / 2 ^ 39 % 512) (omega arith) ∙ ground (arith, a) in
          let e3 = λ (e4 : ℕ). guest_entry start m' (next e4) (v / 2 ^ 30 % 512) in
          ap (λ e4. through e4 (e3 e4) (guest_entry start m' (next (e3 e4)) (v / 2 ^ 21 % 512)) v)
            entry4
    ]

  -- For a table's address in the guest that is a multiple of 4096, with its three pages below 2^52
  -- and at host addresses below 2^64: as the processor walks the table that `create_temp_page_table`
  -- leaves, the guest's addresses below 4 Mbytes are translated to themselves, those above, of 48
  -- bits, are not mapped, and no byte outside the three pages has changed.
  pub create_temp_page_table-IsIdentity :
      (m : Mem) → IsIdentity start cr3 m (create_temp_page_table start cr3 m)
  create_temp_page_table-IsIdentity m =
      let h = create_temp_page_table-Holds start cr3 whole low inside m in
      record {
        low_addrs = low_addrs_lem m (create_temp_page_table start cr3 m) h;
        high_addrs = high_addrs_lem m (create_temp_page_table start cr3 m) h;
        rest = h.rest;
      }
