-- ===== src/Elf/Bounds.antt =====
-- The loader ends: the index stays below the 16-bit `e_phnum`.
use tvmm.Base.{
  ℕ, zero, suc, ◌+◌, ◌^◌, ◌≤◌, ◌<◌, ◌≡◌, refl, arith, ltb, ltb→lt, Bool-cases, inl, inr,
}
use tvmm.Memory.{Mem, load16}
use tvmm.Memory.Laws.{load_bytes-lt}
use tvmm.Kernel.{State, Run, done}
use tvmm.Elf.{e_entry, e_phnum, load_one, load_loop, load_elf_image}

pub load16-lt : (m : Mem) (a : ℕ) → load16 m a < 2 ^ 16
unfolding load16
load16-lt m a = load_bytes-lt 2 m a

-- The run returns, and the allocator's variables are as before.
abbrev pub Returns : {A : Type 0} → State → Run A → Type 0
Returns {A} s r = (a : A) × (s' : State) × (r ≡ done a s') × (s'.nalloc ≡ s.nalloc)

load_loop-Returns :
    (fuel ehdr start i : ℕ) (s : State)
    → 2 ^ 16 ≤ i + fuel
    → i ≤ 2 ^ 16
    → 0 < fuel
    → Returns s (load_loop fuel ehdr start i s)
unfolding load_loop
load_loop-Returns zero ehdr start i s enough below some_fuel = absurd (omega arith)
load_loop-Returns (suc fuel) ehdr start i s enough below some_fuel =
    elim (Bool-cases (ltb i (e_phnum s.mem ehdr))) [
      | inr stop ↦ rw stop (tt, s, refl, refl)
      | inl go ↦
          let more : i < e_phnum s.mem ehdr = ltb→lt i (e_phnum s.mem ehdr) go in
          let few : e_phnum s.mem ehdr < 2 ^ 16 = load16-lt s.mem (ehdr + 44) in
          let s' : State = record s { mem = load_one ehdr start i s.mem } in
          rw go
            (load_loop-Returns fuel ehdr start (i + 1) s' (omega arith) (omega arith) (omega arith))
    ]

-- The loop over the program headers ends, and so `load_elf_image` returns. The entry point is read from the header as
-- it is after the segments are loaded, and the allocator's variables are as before.
pub load_elf_image-ends :
    (image size start : ℕ) (s : State)
    → (s' : State) × (load_elf_image image size start s ≡ done (e_entry s'.mem image) s')
      × (s'.nalloc ≡ s.nalloc)
unfolding load_elf_image
load_elf_image-ends image size start s =
    let (u, s', e, same) =
      load_loop-Returns (2 ^ 16) image start 0 s (omega arith) (omega arith) (omega arith) in
    (s', rw e refl, same)
