-- ===== src/Paging/Protect.antt =====
-- What the operations on page tables leave alone: a frame that holds nothing of theirs and is not
-- free, as those of the guest's image.
use tvmm.Base.{ℕ, ◌+◌, ◌≤◌, ◌<◌, ◌≡◌, refl, ◌∙◌, arith}
use tvmm.Memory.{byte}
use tvmm.Kernel.{NaiveAllocator, State}
use tvmm.Paging.Tables.{page_addr, bitmap_end, IsFar, IsUnused}

-- Frames in use keep their role. Frames that are neither in use nor free stay so, and keep their
-- bytes behind the bitmap. So do the bytes that are in no frame and not in the bitmap.
pub record Protects (n : NaiveAllocator) (role : ℕ → ℕ) (s : State) (role' : ℕ → ℕ) (s' : State)
    : Type 0 where
  pub levels : (f : ℕ) → 0 < role f → role' f ≡ role f
  pub idle : (f : ℕ) → IsUnused n role s f → IsUnused n role' s' f
  pub bytes :
      (f x : ℕ)
      → IsUnused n role s f
      → bitmap_end n ≤ x
      → page_addr f ≤ x
      → x < page_addr f + 4096
      → byte s'.mem x ≡ byte s.mem x
  pub far : (x : ℕ) → IsFar n x → byte s'.mem x ≡ byte s.mem x

module _ (n : NaiveAllocator) (role : ℕ → ℕ) (s : State) where
  pub Protects-refl : Protects n role s role s
  Protects-refl = record {
    levels = λ f some. refl;
    idle = λ f unused. unused;
    bytes = λ f x unused above lo hi. refl;
    far = λ x off. refl;
  }

  pub Protects-trans :
      {role1 role2 : ℕ → ℕ} {s1 s2 : State}
      → Protects n role s role1 s1
      → Protects n role1 s1 role2 s2
      → Protects n role s role2 s2
  Protects-trans p q = record {
    levels = λ f some. let first = p.levels f some in q.levels f (omega (arith, first)) ∙ first;
    idle = λ f unused. q.idle f (p.idle f unused);
    bytes = λ f x unused above lo hi.
        q.bytes f x (p.idle f unused) above lo hi ∙ p.bytes f x unused above lo hi;
    far = λ x off. q.far x off ∙ p.far x off;
  }
