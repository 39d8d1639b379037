-- ===== src/Kernel.antt =====
-- The kernel's global state, and commands that read and change it.
pub mod Laws
pub mod Success
use tvmm.Base.{ℕ}
use tvmm.Memory.{Mem}
use tvmm.Failure.{Failure}

-- `struct naive_allocator` of kernel/alloc.c: the bitmap's address and the number of pages.
pub record NaiveAllocator : Type 0 where
  pub alloc_bitmap : ℕ
  pub max_page : ℕ

-- Memory, and the static variable `naive_allocator`.
pub record State : Type 0 where
  pub mem : Mem
  pub nalloc : NaiveAllocator

-- `fatal` is a call of `fatal_failure`, after which the machine stops.
pub data Run (A : Type 0) : Type 0 where
  done : A → State → Run A
  fatal : Failure → Run A
  out_of_fuel : Run A

abbrev pub Kernel : Type 0 → Type 0
Kernel A = State → Run A

abbrev pub pure : {A : Type 0} → A → Kernel A
pure = done

abbrev pub fail : {A : Type 0} → Failure → Kernel A
fail f s = fatal f

module _ {A B : Type 0} where
  abbrev pub and_then : Run A → (A → Kernel B) → Run B
  and_then (done a s) k = k a s
  and_then (fatal f) k = fatal f
  and_then out_of_fuel k = out_of_fuel

  infixl 5 ◌>>=◌ ◌>>◌
  abbrev pub ◌>>=◌ : Kernel A → (A → Kernel B) → Kernel B
  m >>= k = λ s. and_then (m s) k

  abbrev pub ◌>>◌ : Kernel A → Kernel B → Kernel B
  m >> k = m >>= λ _. k

-- A command that changes memory only.
abbrev pub update_mem : (Mem → Mem) → Kernel (Unit {0})
update_mem f s = done tt (record s { mem = f s.mem })
