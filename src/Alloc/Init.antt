-- ===== src/Alloc/Init.antt =====
-- What `init_alloc_bitmap` frees: the whole pages of RAM that lie above the VMM's heap and, in an
-- entry that meets the guest image, above the guest image.
use tvmm.Base.{
  ℕ, ◌+◌, ◌-◌, ◌*◌, ◌/◌, ◌^◌, ◌≤◌, ◌≡◌, refl, sym, ap, ◌∙◌, arith, Bool, true, false, ◌&&◌, ◌||◌,
  not, leb, ◌==◌, ◌!=◌, Bool-cases, and-true, or-true, or-false, and-split, clear_twice, inl, inr,
  ◌⊎◌, [], ◌∷◌,
}
use native.Mathlib.Nat.{mod-eq_of_lt}
use tvmm.Base.Word.{sub64}
use tvmm.Memory.{Mem}
use tvmm.Kernel.{NaiveAllocator}
use tvmm.E820.Region.{phys_limit, within_addrs, IsPhysEntry, ArePhysEntries, in_ram}
use tvmm.E820.{E820Entry, E820Map, ram}
use tvmm.Page.Laws.{page_up_lem, page_down_lem}
use tvmm.Alloc.{PmemLayout, allocated_in_map, init_region, usable_start, init_alloc_bitmap}
use tvmm.Alloc.MapFree.{map_free_lem}

pub init_region_lem :
    (nalloc : NaiveAllocator) (s e : ℕ) (m : Mem) (p : ℕ)
    → s ≤ phys_limit
    → e ≤ phys_limit
    → allocated_in_map nalloc (init_region nalloc s e m) p
      ≡ (allocated_in_map nalloc m p && not (within_addrs s e p))
unfolding init_region
init_region_lem nalloc s e m p hs he =
    let up = (s + 4095) / 4096 in
    let dn = e / 4096 in
    let u = page_up_lem s (omega arith) in
    let d = page_down_lem e (omega arith) in
    rw (u, d)
      (elim (Bool-cases (leb (dn * 4096) (up * 4096))) [
        | inl empty ↦ rw empty (elim (Bool-cases (allocated_in_map nalloc m p)) [
          | inl marked ↦ rw marked (ground arith)
          | inr free ↦ rw free refl
        ])
        | inr some_pages ↦
            let first : up * 4096 / 4096 ≡ up = omega arith in
            let count : sub64 (dn * 4096) (up * 4096) / 4096 ≡ dn - up = ground arith in
            rw (some_pages, first, count)
              (map_free_lem nalloc up (dn - up) m (omega arith) p
                ∙ (elim (Bool-cases (allocated_in_map nalloc m p)) [
                  | inl marked ↦ rw marked (ground arith)
                  | inr free ↦ rw free refl
                ]))
      ])

-- The layout's addresses are physical addresses.
abbrev pub IsPhysLayout : PmemLayout → Type 0
IsPhysLayout pml =
    (pml.vmm_heap_end ≤ phys_limit) × (pml.guest_image_start + pml.guest_image_size ≤ phys_limit)

-- Whether some RAM entry has the page in its usable part.
abbrev pub usable : PmemLayout → E820Map → ℕ → Bool
usable pml [] p = false
usable pml (e ∷ rest) p =
    (e.type == ram && within_addrs (usable_start pml e) (e.addr + e.size) p) || usable pml rest p

pub usable_start-le :
    (pml : PmemLayout) (e : E820Entry)
    → IsPhysLayout pml
    → IsPhysEntry e
    → usable_start pml e ≤ phys_limit
unfolding usable_start
usable_start-le pml e h k = ground arith

-- Exactly the usable pages lose their marks.
pub init_alloc_bitmap_lem :
    (nalloc : NaiveAllocator) (pml : PmemLayout) (e820 : E820Map) (m : Mem) (p : ℕ)
    → IsPhysLayout pml
    → ArePhysEntries e820
    → allocated_in_map nalloc (init_alloc_bitmap nalloc pml e820 m) p
      ≡ (allocated_in_map nalloc m p && not (usable pml e820 p))
unfolding init_alloc_bitmap
init_alloc_bitmap_lem nalloc pml [] m p h k = sym (and-true (allocated_in_map nalloc m p))
init_alloc_bitmap_lem nalloc pml (e ∷ rest) m p h k = elim (Bool-cases (e.type == ram)) [
  | inl is_ram ↦
      let here : (e.type != ram) ≡ false = ground arith in
      let s = usable_start pml e in
      let freed = init_region nalloc s (e.addr + e.size) m in
      rw (here, is_ram, mod-eq_of_lt {n = e.addr + e.size} {m = 2 ^ 64} (omega arith))
        (init_alloc_bitmap_lem nalloc pml rest freed p h k.1
          ∙ ap (λ (b : Bool). b && not (usable pml rest p))
              (init_region_lem nalloc s (e.addr + e.size) m p (usable_start-le pml e h k.0) k.0)
          ∙ clear_twice (allocated_in_map nalloc m p) _ _)
  | inr other ↦
      let here : (e.type != ram) ≡ true = ground arith in
      rw (here, other) (init_alloc_bitmap_lem nalloc pml rest m p h k.1)
]

-- The page is outside the VMM's part of memory and outside the guest image.
abbrev pub IsSpare : PmemLayout → ℕ → Type 0
IsSpare pml p =
    (pml.vmm_heap_end ≤ p * 4096)
    × ((p * 4096 + 4096 ≤ pml.guest_image_start)
        ⊎ (pml.guest_image_start + pml.guest_image_size ≤ p * 4096))

pub usable_entry :
    (pml : PmemLayout) (e : E820Entry) (p : ℕ)
    → IsPhysLayout pml
    → IsPhysEntry e
    → within_addrs (usable_start pml e) (e.addr + e.size) p ≡ true
    → (within_addrs e.addr (e.addr + e.size) p ≡ true) × IsSpare pml p
unfolding usable_start
usable_entry pml e p h k u = ground arith

pub usable-IsSpare :
    (pml : PmemLayout) (e820 : E820Map) (p : ℕ)
    → IsPhysLayout pml
    → ArePhysEntries e820
    → usable pml e820 p ≡ true
    → (in_ram e820 p ≡ true) × IsSpare pml p
usable-IsSpare pml [] p h k u = cc
usable-IsSpare pml (e ∷ rest) p h k u = elim (Bool-cases (usable pml rest p)) [
  | inl later ↦ let (r, spare) = usable-IsSpare pml rest p h k.1 later in (rw r (or-true _), spare)
  | inr now ↦
      let here : (e.type == ram && within_addrs (usable_start pml e) (e.addr + e.size) p) ≡ true =
        sym (or-false _) ∙ (rw now at u) in
      let (t, w) = and-split (e.type == ram) _ here in
      let (r, spare) = usable_entry pml e p h k.0 w in (rw (t, r) refl, spare)
]
