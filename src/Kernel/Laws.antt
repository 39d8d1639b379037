-- ===== src/Kernel/Laws.antt =====
-- Commands that end: they return or stop with a failure, and do not run out of fuel.
use tvmm.Base.{◌≡◌, Bool, true, false, if◌then◌else◌}
use tvmm.Failure.{Failure}
use tvmm.Kernel.{State, Run, Kernel, done, fatal, out_of_fuel, and_then, NaiveAllocator}

module _ {A : Type 0} where
  -- The run ends, and what it returns is as `P` says.
  abbrev pub Ends : (A → State → Type 0) → Run A → Type 0
  Ends P (done a s) = P a s
  Ends P (fatal f) = Unit {0}
  Ends P out_of_fuel = ⊥

  -- The run returns, as `P` says, or it stops with the failure `f` and no other.
  abbrev pub EndsOr : Failure → (A → State → Type 0) → Run A → Type 0
  EndsOr f P (done a s) = P a s
  EndsOr f P (fatal g) = g ≡ f
  EndsOr f P out_of_fuel = ⊥

module _ {A : Type 0} (P : A → State → Type 0) where
  -- Both ways of a test end.
  pub either-Ends : (b : Bool) (r r' : Run A) → Ends P r → Ends P r' → Ends P (if b then r else r')
  either-Ends true r r' h k = h
  either-Ends false r r' h k = k

  pub either_command-Ends :
      (b : Bool) (k k' : Kernel A) (s : State)
      → Ends P (k s)
      → Ends P (k' s)
      → Ends P ((if b then k else k') s)
  either_command-Ends true k k' s h h' = h
  either_command-Ends false k k' s h h' = h'

-- Two things are known of one run.
pub both-Ends :
    {A : Type 0} (P Q : A → State → Type 0) (r : Run A)
    → Ends P r
    → Ends Q r
    → Ends (λ a s. P a s × Q a s) r
both-Ends P Q (done a s) p q = (p, q)
both-Ends P Q (fatal f) p q = tt
both-Ends P Q out_of_fuel p q = p

module _ {A : Type 0} (P Q : A → State → Type 0) where
  -- What holds of a result may be weakened.
  pub Ends-map : (r : Run A) → Ends P r → ((a : A) (s : State) → P a s → Q a s) → Ends Q r
  Ends-map (done a s) h weaken = weaken a s h
  Ends-map (fatal f) h weaken = tt
  Ends-map out_of_fuel h weaken = absurd h

module _ {A B : Type 0} (P : A → State → Type 0) (Q : B → State → Type 0) where
  pub and_then-Ends :
      (r : Run A) (k : A → Kernel B)
      → Ends P r
      → ((a : A) (s : State) → P a s → Ends Q (k a s))
      → Ends Q (and_then r k)
  and_then-Ends (done a s) k first rest = rest a s first
  and_then-Ends (fatal f) k first rest = tt
  and_then-Ends out_of_fuel k first rest = absurd first

-- What is known of the result, and which failure there can be.
pub Ends-EndsOr :
    {A : Type 0} (f : Failure) (P Q : A → State → Type 0) (r : Run A)
    → Ends P r
    → EndsOr f Q r
    → EndsOr f P r
Ends-EndsOr f P Q (done a s) p q = p
Ends-EndsOr f P Q (fatal g) p q = q
Ends-EndsOr f P Q out_of_fuel p q = p

pub EndsOr-Ends :
    {A : Type 0} (f : Failure) (P : A → State → Type 0) (r : Run A) → EndsOr f P r → Ends P r
EndsOr-Ends f P (done a s) h = h
EndsOr-Ends f P (fatal g) h = tt
EndsOr-Ends f P out_of_fuel h = h

pub and_then-EndsOr :
    {A B : Type 0} (f : Failure) (P : A → State → Type 0) (Q : B → State → Type 0) (r : Run A)
    (k : A → Kernel B)
    → EndsOr f P r
    → ((a : A) (s : State) → P a s → EndsOr f Q (k a s))
    → EndsOr f Q (and_then r k)
and_then-EndsOr f P Q (done a s) k first rest = rest a s first
and_then-EndsOr f P Q (fatal g) k first rest = first
and_then-EndsOr f P Q out_of_fuel k first rest = absurd first

module _ (n : NaiveAllocator) where
  -- The run ends with the allocator's variables as they are in `n`.
  abbrev pub Keeps : {A : Type 0} → Run A → Type 0
  Keeps r = Ends (λ a s. s.nalloc ≡ n) r

  pub and_then-Keeps :
      {A B : Type 0} (r : Run A) (k : A → Kernel B)
      → Keeps r
      → ((a : A) (s : State) → s.nalloc ≡ n → Keeps (k a s))
      → Keeps (and_then r k)
  and_then-Keeps r k first rest =
      and_then-Ends (λ a s. s.nalloc ≡ n) (λ b s. s.nalloc ≡ n) r k first rest
