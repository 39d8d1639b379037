-- ===== src/Kernel/Success.antt =====
-- Commands that return.
use tvmm.Kernel.{State, Run, Kernel, done, fatal, out_of_fuel, and_then}
use tvmm.Kernel.Laws.{Ends}

module _ {A : Type 0} where
  -- The run returns, without a failure, and what it returns is as `P` says.
  abbrev pub Succeeds : (A → State → Type 0) → Run A → Type 0
  Succeeds P (done a s) = P a s
  Succeeds P (fatal f) = ⊥
  Succeeds P out_of_fuel = ⊥

  pub Succeeds-Ends : (P : A → State → Type 0) (r : Run A) → Succeeds P r → Ends P r
  Succeeds-Ends P (done a s) h = h
  Succeeds-Ends P (fatal f) h = tt
  Succeeds-Ends P out_of_fuel h = h

  -- What is known of the run if it returns, and that it does.
  pub both-Succeeds :
      (P Q : A → State → Type 0) (r : Run A)
      → Ends P r
      → Succeeds Q r
      → Succeeds (λ a s. P a s × Q a s) r
  both-Succeeds P Q (done a s) p q = (p, q)
  both-Succeeds P Q (fatal f) p q = q
  both-Succeeds P Q out_of_fuel p q = q

  pub Succeeds-map :
      (P Q : A → State → Type 0) (r : Run A)
      → Succeeds P r
      → ((a : A) (s : State) → P a s → Q a s)
      → Succeeds Q r
  Succeeds-map P Q (done a s) h weaken = weaken a s h
  Succeeds-map P Q (fatal f) h weaken = h
  Succeeds-map P Q out_of_fuel h weaken = h

module _ {A B : Type 0} (P : A → State → Type 0) (Q : B → State → Type 0) where
  pub and_then-Succeeds :
      (r : Run A) (k : A → Kernel B)
      → Succeeds P r
      → ((a : A) (s : State) → P a s → Succeeds Q (k a s))
      → Succeeds Q (and_then r k)
  and_then-Succeeds (done a s) k first rest = rest a s first
  and_then-Succeeds (fatal f) k first rest = absurd first
  and_then-Succeeds out_of_fuel k first rest = absurd first
