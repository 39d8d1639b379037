-- ===== src/Setup/Stash.antt =====
-- Where the guest image is put.
use tvmm.Base.{
  ℕ, ◌+◌, ◌-◌, ◌^◌, ◌≤◌, ◌<◌, ◌≡◌, arith, ◌&&◌, ◌||◌, ltb, leb, ◌!=◌, Bool-cases, inl, inr, ◌⊎◌, [],
  ◌∷◌,
}
use tvmm.Base.Word.{w64}
use tvmm.Failure.{no_room_for_guest}
use tvmm.Kernel.{State, Run, done, fatal}
use tvmm.E820.{E820Entry, E820Map, ram}
use tvmm.E820.Region.{phys_limit, ArePhysEntries}
use tvmm.Alloc.{PmemLayout}
use tvmm.Setup.{find_memory_region_for_saving_guest_image, through_int}

-- The bytes from `r` on, `len` of them, lie in one RAM entry.
abbrev pub LiesInRam : E820Map → ℕ → ℕ → Type 0
LiesInRam [] r len = ⊥
LiesInRam (e ∷ rest) r len =
    ((e.type ≡ ram) × (e.addr ≤ r) × (r + len ≤ e.addr + e.size)) ⊎ LiesInRam rest r len

module _ (pml : PmemLayout) (len : ℕ) (s : State) where
  -- A place in RAM behind the VMM's heap was found, and returned through an `int`; or no RAM entry
  -- has the room.
  pub data Found (e820 : E820Map) : Run ℕ → Type 0 where
    found :
        (r : ℕ) → pml.vmm_heap_end ≤ r → LiesInRam e820 r len → Found e820 (done (through_int r) s)
    none_found :
        ((r : ℕ) → pml.vmm_heap_end ≤ r → ¬ LiesInRam e820 r (len + 1))
        → Found e820 (fatal no_room_for_guest)

  Found-skip :
      {e : E820Entry} {rest : E820Map} {r : Run ℕ}
      → ((r : ℕ)
          → pml.vmm_heap_end ≤ r
          → e.type ≡ ram
          → e.addr ≤ r
          → ¬ (r + (len + 1) ≤ e.addr + e.size))
      → Found rest r
      → Found (e ∷ rest) r
  Found-skip no_room (found r above lies) = found r above (inr lies)
  Found-skip no_room (none_found none) = none_found λ r above lies. elim lies [
    | inl (is_ram, low, high) ↦ no_room r above is_ram low high
    | inr later ↦ none r above later
  ]

  module _ (heap : pml.vmm_heap_end ≤ phys_limit) (word : len < 2 ^ 32) where
    -- The search for a place for the guest image ends with a place in one RAM entry and not below
    -- the VMM's heap, returned through an `int`; or it stops the machine, and then no RAM entry
    -- has a place for one byte more.
    pub find-Found :
        (e820 : E820Map)
        → ArePhysEntries e820
        → Found e820 (find_memory_region_for_saving_guest_image e820 pml len s)
    unfolding find_memory_region_for_saving_guest_image
    find-Found [] h = none_found (λ r above lies. lies)
    find-Found (e ∷ rest) h =
        let next = find-Found rest h.1 in
        let heap_sum : w64 (pml.vmm_heap_end + len) ≡ pml.vmm_heap_end + len = omega arith in
        let entry_end : w64 (e.addr + e.size) ≡ e.addr + e.size = omega (arith, h.0) in
        rw (heap_sum, entry_end)
          (elim (Bool-cases (e.type != ram || ltb e.size len)) [
            | inl skip ↦ rw skip (Found-skip (λ r above is_ram low high. ground arith) next)
            | inr fits ↦
                rw fits
                  (elim (Bool-cases (
                    ltb e.addr pml.vmm_heap_end
                    && ltb (pml.vmm_heap_end + len) (e.addr + e.size))) [
                      | inl behind_heap ↦ rw behind_heap (
                          found pml.vmm_heap_end (omega arith)
                            (inl (ground arith, ground arith, ground arith)))
                      | inr not_behind ↦
                          rw not_behind (elim (Bool-cases (leb pml.vmm_heap_end e.addr)) [
                            | inl above_heap ↦ rw above_heap (
                                found e.addr (ground arith)
                                  (inl (ground arith, omega arith, ground arith)))
                            | inr below ↦
                                rw below (Found-skip (λ r above is_ram low high. ground arith) next)
                          ])
                    ])
          ])

-- An address below 2 GB passes through the `int` unchanged.
pub through_int-small : (r : ℕ) → r < 2 ^ 31 → through_int r ≡ r
unfolding through_int
through_int-small r h = ground arith

-- One from 2 GB to 4 GB does not: the result is an address of the top 2 GB of the address space.
pub through_int-large : (r : ℕ) → 2 ^ 31 ≤ r → r < 2 ^ 32 → through_int r ≡ r + (2 ^ 64 - 2 ^ 32)
unfolding through_int
through_int-large r h k = ground arith

-- If the first RAM entry with the room begins from 2 GB to 4 GB and behind the heap, the search
-- returns an address outside the physical memory.
pub find_above_2gb :
    (pml : PmemLayout) (len : ℕ) (s : State) (e : E820Entry) (rest : E820Map)
    → e.type ≡ ram
    → len ≤ e.size
    → pml.vmm_heap_end ≤ e.addr
    → 2 ^ 31 ≤ e.addr
    → e.addr < 2 ^ 32
    → (a : ℕ) × (find_memory_region_for_saving_guest_image (e ∷ rest) pml len s ≡ done a s)
      × (phys_limit < a)
unfolding find_memory_region_for_saving_guest_image
find_above_2gb pml len s e rest is_ram room above h k =
    (e.addr + (2 ^ 64 - 2 ^ 32), ground (arith, through_int-large e.addr h k), omega arith)
