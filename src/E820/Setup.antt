-- ===== src/E820/Setup.antt =====
-- `setup_memory_region` against the boot loader's memory map.
use tvmm.Base.{
  ℕ, zero, suc, ◌+◌, ◌*◌, ◌^◌, ◌≤◌, ◌<◌, ◌≡◌, ◌≢◌, refl, ap, ◌∙◌, arith, true, false, ltb, leb,
  ◌==◌, if◌then◌else◌, Bool-cases, subst, ltb→lt, inl, inr, List, [], ◌∷◌, ◌++◌, length, bit_and,
}
use mathlib.Core.List.{append_assoc, append-nil}
use tvmm.Base.Word.{w64, shl64}
use tvmm.Base.Bits.Join.{bit_or-join}
use tvmm.Memory.{Mem, load32}
use tvmm.Memory.Laws.{load_bytes-lt}
use tvmm.Multiboot.{MultibootInfo, read_memory_map, mbi_memmap}
use tvmm.Failure.{too_many_entries, no_memory_information}
use tvmm.Kernel.{State, Run, done, fatal, out_of_fuel}
use tvmm.E820.{
  E820Entry, E820Map, add_memory_region, join_words, setup_loop, setup_memory_region, max_entries,
}

load32-lt : (m : Mem) (a : ℕ) → load32 m a < 2 ^ 32
unfolding load32
load32-lt m a = load_bytes-lt 4 m a

pub join_words_lem :
    (high low : ℕ) → high < 2 ^ 32 → low < 2 ^ 32 → join_words high low ≡ high * 2 ^ 32 + low
unfolding join_words
join_words_lem high low h k =
    let shifted : shl64 high 32 ≡ high * 2 ^ 32 = omega arith in
    rw shifted (bit_or-join 32 high low k)

-- The entry that the Multiboot specification puts at `a`: its size, the two halves of the address,
-- those of the length, and the type.
pub data HasEntry (m : Mem) (a sz : ℕ) (e : E820Entry) : Type 0 where
  entry :
      load32 m a ≡ sz
      → load32 m (a + 8) * 2 ^ 32 + load32 m (a + 4) ≡ e.addr
      → load32 m (a + 16) * 2 ^ 32 + load32 m (a + 12) ≡ e.size
      → load32 m (a + 20) ≡ e.type
      → HasEntry m a sz e

-- The `n` bytes from `a` are the entries `es`. The size field of an entry does not count itself.
pub data Layout (m : Mem) : ℕ → ℕ → E820Map → Type 0 where
  none : {a n : ℕ} → n ≡ 0 → Layout m a n []
  more :
      {a n : ℕ} {e : E820Entry} {es : E820Map} (sz rest : ℕ)
      → HasEntry m a sz e
      → n ≡ sz + 4 + rest
      → Layout m (a + (sz + 4)) rest es
      → Layout m a n (e ∷ es)

module _ {m : Mem} {a sz : ℕ} {e : E820Entry} where
  HasEntry-size : HasEntry m a sz e → (read_memory_map m a).size ≡ sz
  unfolding read_memory_map
  HasEntry-size (entry s b l t) = s

  HasEntry-start :
      HasEntry m a sz e
      → join_words (read_memory_map m a).base_addr_high (read_memory_map m a).base_addr_low ≡ e.addr
  unfolding read_memory_map
  HasEntry-start (entry s b l t) =
      join_words_lem (load32 m (a + 8)) (load32 m (a + 4)) (load32-lt m _) (load32-lt m _) ∙ b

  HasEntry-length :
      HasEntry m a sz e
      → join_words (read_memory_map m a).length_high (read_memory_map m a).length_low ≡ e.size
  unfolding read_memory_map
  HasEntry-length (entry s b l t) =
      join_words_lem (load32 m (a + 16)) (load32 m (a + 12)) (load32-lt m _) (load32-lt m _) ∙ l

  HasEntry-type : HasEntry m a sz e → (read_memory_map m a).type ≡ e.type
  unfolding read_memory_map
  HasEntry-type (entry s b l t) = t

length-append : {A : Type 0} (xs ys : List A) → length (xs ++ ys) ≡ length xs + length ys
length-append [] ys = omega arith
length-append (x ∷ xs) ys = omega (arith, length-append xs ys)

length-snoc : {A : Type 0} (xs : List A) (x : A) → length (xs ++ x ∷ []) ≡ length xs + 1
length-snoc [] x = omega arith
length-snoc (y ∷ xs) x = omega (arith, length-snoc xs x)

-- The outcome for a map with the entries `es`.
abbrev pub parsed : E820Map → State → Run E820Map
parsed es s = if leb (length es) max_entries then done es s else fatal too_many_entries

module _ (mbi : MultibootInfo) (s : State) (word : mbi.mmap_length < 2 ^ 32) where
  setup_loop_lem :
      (fuel p rest : ℕ) (seen : E820Map) {es : E820Map}
      → Layout s.mem (mbi.mmap_addr + p) rest es
      → p + rest ≡ mbi.mmap_length
      → rest < fuel
      → length seen ≤ max_entries
      → setup_loop fuel mbi p seen s ≡ parsed (seen ++ es) s
  unfolding setup_loop add_memory_region
  setup_loop_lem zero p rest seen l e f k = absurd (omega arith)
  setup_loop_lem (suc fuel) p rest seen (none z) e f k =
      let stop : ltb p mbi.mmap_length ≡ false = ground arith in
      let fits : leb (length seen) max_entries ≡ true = ground arith in
      rw (stop, append-nil seen, fits) refl
  setup_loop_lem (suc fuel) p rest seen (more {e = x} {es} sz left h n l) e f k =
      let go : ltb p mbi.mmap_length ≡ true = ground arith in
      let next : w64 (p + (sz + 4)) ≡ p + (sz + 4) = omega arith in
      let place : mbi.mmap_addr + p + (sz + 4) ≡ mbi.mmap_addr + (p + (sz + 4)) = omega arith in
      rw (go, HasEntry-start h, HasEntry-length h, HasEntry-type h, HasEntry-size h, next)
        (elim (Bool-cases (leb max_entries (length seen))) [
          | inl full ↦
              let over : leb (length (seen ++ x ∷ es)) max_entries ≡ false =
                ground (arith, length-append seen (x ∷ es)) in
              rw (full, over) refl
          | inr room ↦ rw room (
              setup_loop_lem fuel (p + (sz + 4)) left (seen ++ x ∷ [])
                (subst (λ a. Layout s.mem a left es) place l) (omega arith) (omega arith)
                (ground (arith, length-snoc seen x))
              ∙ ap (λ l. parsed l s) (append_assoc seen (x ∷ []) es))
        ])

  setup_loop-ends :
      (fuel p : ℕ) (seen : E820Map)
      → mbi.mmap_length < p + fuel
      → p ≤ mbi.mmap_length + 2 ^ 33
      → 0 < fuel
      → setup_loop fuel mbi p seen s ≢ out_of_fuel
  unfolding setup_loop add_memory_region
  setup_loop-ends zero p seen h b pos = absurd (omega arith)
  setup_loop-ends (suc fuel) p seen h b pos = elim (Bool-cases (ltb p mbi.mmap_length)) [
    | inr stop ↦ rw stop (λ e. cc)
    | inl go ↦ elim (Bool-cases (leb max_entries (length seen))) [
      | inl full ↦ rw (go, full) (λ e. cc)
      | inr room ↦
          let sz = (read_memory_map s.mem (mbi.mmap_addr + p)).size in
          let small : sz < 2 ^ 32 = unfold read_memory_map in load32-lt s.mem (mbi.mmap_addr + p) in
          let before = ltb→lt p mbi.mmap_length go in
          let next : w64 (p + (sz + 4)) ≡ p + (sz + 4) = omega arith in
          rw (go, room, next)
            (setup_loop-ends fuel (p + (sz + 4)) _ (omega arith) (omega arith) (omega arith))
    ]
  ]

  -- A boot loader that gives no memory map stops the machine. One that gives the map in the
  -- Multiboot format has its entries read in order, unless there are more than 128.
  pub setup_memory_region_lem :
      (es : E820Map)
      → Layout s.mem mbi.mmap_addr mbi.mmap_length es
      → setup_memory_region mbi s
        ≡ (if bit_and mbi.flags mbi_memmap == 0 then fatal no_memory_information else parsed es s)
  unfolding setup_memory_region
  setup_memory_region_lem es l = elim (Bool-cases (bit_and mbi.flags mbi_memmap == 0)) [
    | inl missing ↦ rw missing refl
    | inr given ↦
        let place : mbi.mmap_addr ≡ mbi.mmap_addr + 0 = omega arith in
        rw given (
          setup_loop_lem (mbi.mmap_length + 1) 0 mbi.mmap_length []
            (subst (λ a. Layout s.mem a mbi.mmap_length es) place l) (omega arith) (omega arith)
            (omega arith))
  ]

  -- Whatever the map holds, the loop over it ends.
  pub setup_memory_region-ends : setup_memory_region mbi s ≢ out_of_fuel
  unfolding setup_memory_region
  setup_memory_region-ends = elim (Bool-cases (bit_and mbi.flags mbi_memmap == 0)) [
    | inl missing ↦ rw missing (λ e. cc)
    | inr given ↦
        rw given
          (setup_loop-ends (mbi.mmap_length + 1) 0 [] (omega arith) (omega arith) (omega arith))
  ]
