-- ===== src/E820/MaxPfn.antt =====
-- `get_max_pfn` and `get_nr_pages`.
use tvmm.Base.{
  ℕ, ◌+◌, ◌-◌, ◌/◌, ◌^◌, ◌≤◌, ◌<◌, ◌≡◌, refl, arith, Bool, true, false, ◌&&◌, ltb, ◌==◌, ◌!=◌,
  Bool-cases, inl, inr, ◌⊎◌, [], ◌∷◌, or-true,
}
use tvmm.Base.Word.{w64}
use tvmm.E820.{E820Entry, E820Map, ram, max_pfn_step, max_pfn_loop, get_max_pfn}
use tvmm.E820.Region.{within_addrs, IsPhysEntry, ArePhysEntries, in_ram}
use tvmm.Page.{pfn_up, pfn_down}

-- Whether the page lies whole in this entry, and the entry is RAM.
abbrev pub in_entry : E820Entry → ℕ → Bool
in_entry e p = e.type == ram && within_addrs e.addr (e.addr + e.size) p

-- One round takes the maximum with the entry's last whole page.
step_bounds :
    (n : ℕ) (e : E820Entry) (p : ℕ)
    → IsPhysEntry e
    → (n ≤ max_pfn_step n e) × (in_entry e p ≡ true → p < max_pfn_step n e)
unfolding max_pfn_step pfn_up pfn_down
step_bounds n e p h = (ground arith, ground arith)

step_attained :
    (n : ℕ) (e : E820Entry)
    → IsPhysEntry e
    → (max_pfn_step n e ≡ n) ⊎ ((0 < max_pfn_step n e) × (in_entry e (max_pfn_step n e - 1) ≡ true))
unfolding max_pfn_step pfn_up pfn_down
step_attained n e h = elim (Bool-cases (e.type == ram)) [
  | inr other ↦ inl (ground arith)
  | inl is_ram ↦
      let here : (e.type != ram) ≡ false = ground arith in
      let start = w64 (e.addr + 4095) / 4096 in
      let end = w64 (e.addr + e.size) / 4096 in
      elim (Bool-cases (ltb start end && ltb n end)) [
        | inr smaller ↦ inl (rw (here, smaller) refl)
        | inl larger ↦ rw (here, larger, is_ram) (inr (ground arith, ground arith))
      ]
]

max_pfn_loop_bounds :
    (n : ℕ) (e820 : E820Map) (p : ℕ)
    → ArePhysEntries e820
    → (n ≤ max_pfn_loop n e820) × (in_ram e820 p ≡ true → p < max_pfn_loop n e820)
unfolding max_pfn_loop
max_pfn_loop_bounds n [] p h = (omega arith, λ r. cc)
max_pfn_loop_bounds n (e ∷ rest) p h =
    let (keeps, covers) = step_bounds n e p h.0 in
    let (more, later) = max_pfn_loop_bounds (max_pfn_step n e) rest p h.1 in
    (
      omega arith,
      λ r. elim (Bool-cases (in_entry e p)) [
        | inl here ↦ omega (arith, covers here)
        | inr elsewhere ↦ later (rw elsewhere at r)
      ],
    )

max_pfn_loop_attained :
    (n : ℕ) (e820 : E820Map)
    → ArePhysEntries e820
    → (max_pfn_loop n e820 ≡ n)
      ⊎ ((0 < max_pfn_loop n e820) × (in_ram e820 (max_pfn_loop n e820 - 1) ≡ true))
unfolding max_pfn_loop
max_pfn_loop_attained n [] h = inl refl
max_pfn_loop_attained n (e ∷ rest) h = elim (max_pfn_loop_attained (max_pfn_step n e) rest h.1) [
  | inr (pos, whole) ↦ inr (pos, rw whole (or-true _))
  | inl same ↦ rw same (elim (step_attained n e h.0) [
    | inl unchanged ↦ inl unchanged
    | inr (pos, whole) ↦ inr (pos, rw whole refl)
  ])
]

-- With entries of physical addresses, `get_max_pfn` is one more than the number of the highest page
-- that lies whole in one RAM entry, and 0 if there is no such page.
pub get_max_pfn_lem :
    (e820 : E820Map)
    → ArePhysEntries e820
    → ((p : ℕ) → in_ram e820 p ≡ true → p < get_max_pfn e820)
      × ((get_max_pfn e820 ≡ 0)
          ⊎ ((0 < get_max_pfn e820) × (in_ram e820 (get_max_pfn e820 - 1) ≡ true)))
unfolding get_max_pfn
get_max_pfn_lem e820 h = (λ p. (max_pfn_loop_bounds 0 e820 p h).1, max_pfn_loop_attained 0 e820 h)

in_ram-lt : (e820 : E820Map) (p : ℕ) → ArePhysEntries e820 → in_ram e820 p ≡ true → p < 2 ^ 40
in_ram-lt [] p h r = cc
in_ram-lt (e ∷ rest) p h r = elim (Bool-cases (in_entry e p)) [
  | inl here ↦ ground arith
  | inr elsewhere ↦ in_ram-lt rest p h.1 (rw elsewhere at r)
]

pub get_max_pfn-le : (e820 : E820Map) → ArePhysEntries e820 → get_max_pfn e820 ≤ 2 ^ 40
get_max_pfn-le e820 h = elim ((get_max_pfn_lem e820 h).1) [
  | inl none ↦ omega arith
  | inr (pos, whole) ↦ omega (arith, in_ram-lt e820 (get_max_pfn e820 - 1) h whole)
]
