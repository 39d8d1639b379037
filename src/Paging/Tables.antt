-- ===== src/Paging/Tables.antt =====
-- A forest of page tables in memory, and the page that `pg_table_create` adds to it.
use tvmm.Base.{
  ℕ, zero, suc, ◌+◌, ◌*◌, ◌/◌, ◌%◌, ◌^◌, ◌≤◌, ◌<◌, ◌≡◌, ◌≢◌, refl, sym, ap, ◌∙◌, subst, arith, true,
  false, ◌||◌, ◌⊎◌,
}
use tvmm.Base.Bits.{testbit}
use tvmm.Base.Word.{shl64}
use tvmm.Memory.{Mem, byte, load_bytes, load64}
use tvmm.Memory.Laws.{load64_ext, load64-bytes_ext}
use tvmm.CString.{memset}
use tvmm.CString.Laws.{memset_lem}
use tvmm.Page.{virt, vmm_offset}
use tvmm.Kernel.{NaiveAllocator, State, Run}
use tvmm.Kernel.Laws.{Ends, and_then-Ends}
use tvmm.Alloc.{allocated_in_map, alloc_pages, word}
use tvmm.Alloc.Bitmap.{allocated-testbit}
use tvmm.Alloc.Digit.{in_range}
use tvmm.Alloc.FirstFit.{IsFirstFit, Outcome, allocated, exhausted, alloc_pages-Outcome}
use tvmm.Paging.{entry_is_present, non_term_base, pg_table_create}

-- Where a frame is, and an entry of the table in it.
abbrev pub page_addr : ℕ → ℕ
page_addr f = f * 4096 + vmm_offset

abbrev pub slot : ℕ → ℕ → ℕ
slot f i = page_addr f + i * 8

abbrev pub entry : Mem → ℕ → ℕ → ℕ
entry m f i = load64 m (slot f i)

abbrev pub bitmap_end : NaiveAllocator → ℕ
bitmap_end n = n.alloc_bitmap + 8 * (n.max_page / 64 + 1)

-- A byte outside the bitmap.
abbrev pub IsOffBitmap : NaiveAllocator → ℕ → Type 0
IsOffBitmap n x = (x < n.alloc_bitmap) ⊎ (bitmap_end n ≤ x)

-- A byte before the bitmap, or behind it and behind all frames.
abbrev pub IsFar : NaiveAllocator → ℕ → Type 0
IsFar n x = (x < n.alloc_bitmap) ⊎ ((bitmap_end n ≤ x) × (page_addr n.max_page ≤ x))

-- All frames have a virtual address.
abbrev pub IsAddressable : NaiveAllocator → Type 0
IsAddressable n = n.max_page * 4096 + vmm_offset ≤ 2 ^ 64

-- Entry `i` of the table `f`, above the last level, is present and leads to frame `b`.
abbrev pub Leads : (ℕ → ℕ) → Mem → ℕ → ℕ → ℕ → Type 0
Leads role m f i b =
    (2 < role f)
    × (i < 512)
    × (entry_is_present (entry m f i) ≡ true)
    × (non_term_base (entry m f i) ≡ b)

-- `role f` is the level of the table in frame `f`, and 0 where there is none. Tables are in
-- allocated frames; tables and free frames lie above the bitmap; a present entry of a table
-- refers to a table one level below, which no other entry refers to.
pub record IsMapped (n : NaiveAllocator) (role : ℕ → ℕ) (s : State) : Type 0 where
  pub same : s.nalloc ≡ n
  pub tables : (f : ℕ) → 0 < role f → (f < n.max_page) × (allocated_in_map n s.mem f ≡ true)
  pub tables_above : (f : ℕ) → 0 < role f → bitmap_end n ≤ page_addr f
  pub free_above :
      (f : ℕ) → f < n.max_page → allocated_in_map n s.mem f ≡ false → bitmap_end n ≤ page_addr f
  pub entries :
      (f i : ℕ)
      → 2 < role f
      → i < 512
      → entry_is_present (entry s.mem f i) ≡ true
      → role (non_term_base (entry s.mem f i)) + 1 ≡ role f
  pub parents :
      (f i f' i' b : ℕ) → Leads role s.mem f i b → Leads role s.mem f' i' b → (f ≡ f') × (i ≡ i')

-- Marks depend on the bitmap alone.
pub allocated_ext :
    (n : NaiveAllocator) (m m' : Mem) (p : ℕ)
    → p < n.max_page
    → ((x : ℕ) → x < bitmap_end n → m x ≡ m' x)
    → allocated_in_map n m p ≡ allocated_in_map n m' p
unfolding word
allocated_ext n m m' p lt h =
    allocated-testbit n m p
    ∙ ap (λ w. testbit w (p % 64))
        (load64_ext m m' (n.alloc_bitmap + 8 * (p / 64)) (λ x lo hi. h x (omega arith)))
    ∙ sym (allocated-testbit n m' p)

pub allocated-bytes_ext :
    (n : NaiveAllocator) (m m' : Mem) (p : ℕ)
    → p < n.max_page
    → ((x : ℕ) → x < bitmap_end n → byte m' x ≡ byte m x)
    → allocated_in_map n m' p ≡ allocated_in_map n m p
unfolding word
allocated-bytes_ext n m m' p lt h =
    allocated-testbit n m' p
    ∙ ap (λ w. testbit w (p % 64))
        (load64-bytes_ext m m' (n.alloc_bitmap + 8 * (p / 64)) (λ x lo hi. h x (omega arith)))
    ∙ sym (allocated-testbit n m p)

pub load_bytes-zeros :
    (k : ℕ) (m : Mem) (a : ℕ) → ((x : ℕ) → a ≤ x → x < a + k → m x ≡ 0) → load_bytes m a k ≡ 0
unfolding load_bytes
load_bytes-zeros zero m a h = refl
load_bytes-zeros (suc k) m a h =
    let here = h a (omega arith) (omega arith) in
    let rest = load_bytes-zeros k m (a + 1) (λ x p q. h x (omega arith) (omega arith)) in
    omega arith

-- What `pg_table_create` leaves: the address of a page of zeros that was free.
pub record IsFresh (n : NaiveAllocator) (s : State) (paddr : ℕ) (s' : State) : Type 0 where
  pub frame : ℕ
  pub address : paddr ≡ frame * 2 ^ 12
  pub below : frame < n.max_page
  pub was_free : allocated_in_map n s.mem frame ≡ false
  pub marks :
      (p : ℕ)
      → p < n.max_page
      → allocated_in_map n s'.mem p ≡ (allocated_in_map n s.mem p || in_range frame 1 p)
  pub zeros : (i : ℕ) → i < 512 → entry s'.mem frame i ≡ 0
  pub outside :
      (x : ℕ)
      → IsOffBitmap n x
      → (x < page_addr frame) ⊎ (page_addr frame + 4096 ≤ x)
      → s'.mem x ≡ s.mem x
  pub same_allocator : s'.nalloc ≡ n

-- The frame is neither in use nor free.
abbrev pub IsUnused : NaiveAllocator → (ℕ → ℕ) → State → ℕ → Type 0
IsUnused n role s f = (role f ≡ 0) × (f < n.max_page → allocated_in_map n s.mem f ≡ true)

-- A frame that is not free is another one.
pub idle_ne :
    {n : NaiveAllocator} {s s1 : State} {paddr : ℕ} (new : IsFresh n s paddr s1) (h : ℕ)
    → (h < n.max_page → allocated_in_map n s.mem h ≡ true)
    → h ≢ new.frame
idle_ne {n} {s} new h marked same =
    let both : true ≡ false =
      sym (marked (omega (arith, new.below))) ∙ ap (allocated_in_map n s.mem) same ∙ new.was_free in
    cc

module _ {n : NaiveAllocator} {role : ℕ → ℕ} {s : State} (ok : IsMapped n role s) {paddr : ℕ}
    {s1 : State} (new : IsFresh n s paddr s1) where
  -- A table is in another frame.
  pub fresh_ne : (h : ℕ) → 0 < role h → h ≢ new.frame
  fresh_ne h some = idle_ne new h (λ below. (ok.tables h some).1)

  -- Its entries are as before.
  pub entry-fresh : (h j : ℕ) → 0 < role h → j < 512 → entry s1.mem h j ≡ entry s.mem h j
  entry-fresh h j some below =
      let ne = fresh_ne h some in
      let above = ok.tables_above h some in
      load64_ext s1.mem s.mem (slot h j) (λ x lo hi. new.outside x (omega arith) (ground arith))

pub Outcome-Ends :
    {s : State} {nr align : ℕ} {r : Run ℕ} → Outcome s nr align r → Ends (IsFirstFit s nr align) r
Outcome-Ends (allocated fit) = fit
Outcome-Ends (exhausted full) = tt

module _ (n : NaiveAllocator) (fits : IsAddressable n) (role : ℕ → ℕ) where
  cleared-IsFresh :
      (s : State) (pfn : ℕ) (s1 : State)
      → IsMapped n role s
      → IsFirstFit s 1 1 pfn s1
      → IsFresh n s (shl64 pfn 12) (record s1 { mem = memset s1.mem (virt (shl64 pfn 12)) 0 4096 })
  unfolding load64
  cleared-IsFresh s pfn s1 ok fit =
      let max : s.nalloc.max_page ≡ n.max_page = ap (λ x. x.max_page) ok.same in
      let below : pfn < n.max_page = omega (arith, fit.within) in
      let at : virt (shl64 pfn 12) ≡ page_addr pfn = omega arith in
      let free : allocated_in_map n s.mem pfn ≡ false =
        subst (λ t. allocated_in_map t s.mem pfn ≡ false) ok.same
          (fit.was_free pfn (omega arith) (omega arith)) in
      let above = ok.free_above pfn below free in
      rw at (record {
        frame = pfn;
        address = omega arith;
        below = below;
        was_free = free;
        marks = λ p lt.
            allocated_ext n (memset s1.mem (page_addr pfn) 0 4096) s1.mem p lt
              (λ x hi. memset_lem 4096 s1.mem (page_addr pfn) 0 x ∙ ground (arith, above))
            ∙ subst
                (λ t.
                  allocated_in_map t s1.mem p ≡ (allocated_in_map t s.mem p || in_range pfn 1 p))
                ok.same (fit.marks p);
        zeros = λ i lt.
            load_bytes-zeros 8 (memset s1.mem (page_addr pfn) 0 4096) (slot pfn i)
              (λ x lo hi. memset_lem 4096 s1.mem (page_addr pfn) 0 x ∙ ground arith);
        outside = λ x hi out.
            memset_lem 4096 s1.mem (page_addr pfn) 0 x
            ∙ ground arith
            ∙ fit.frame x (subst (λ t. IsOffBitmap t x) (sym ok.same) hi);
        same_allocator = fit.same_allocator ∙ ok.same;
      })

  -- A new table.
  pub pg_table_create-IsFresh :
      (s : State) → n.max_page < 2 ^ 52 → IsMapped n role s → Ends (IsFresh n s) (pg_table_create s)
  unfolding pg_table_create
  pg_table_create-IsFresh s small ok =
      and_then-Ends (IsFirstFit s 1 1) (IsFresh n s) (alloc_pages 1 1 s) _
        (Outcome-Ends
          (alloc_pages-Outcome s 1 1 (omega arith) (omega (arith, ap (λ x. x.max_page) ok.same))))
        (λ pfn s1 fit. cleared-IsFresh s pfn s1 ok fit)
