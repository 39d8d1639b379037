-- ===== src/CString/Strings.antt =====
-- The strings of C: bytes other than 0, and a 0 behind them.
use tvmm.Base.{ℕ, ◌+◌, ◌≤◌, ◌≡◌, ◌≢◌, ◌∙◌, arith, length, List, [], ◌∷◌}
use tvmm.Memory.{Mem, byte}

-- The string at `s` consists of the characters of the list.
abbrev pub HoldsString : Mem → ℕ → List ℕ → Type 0
HoldsString m s [] = byte m s ≡ 0
HoldsString m s (c ∷ cs) = (byte m s ≡ c) × (c ≢ 0) × HoldsString m (s + 1) cs

-- A string is what its bytes make it.
pub HoldsString-ext :
    (m m' : Mem) (s : ℕ) (cs : List ℕ)
    → ((x : ℕ) → s ≤ x → x ≤ s + length cs → byte m' x ≡ byte m x)
    → HoldsString m s cs
    → HoldsString m' s cs
HoldsString-ext m m' s [] same h = same s (omega arith) (omega arith) ∙ h
HoldsString-ext m m' s (c ∷ cs) same (here, some, rest) = (
  same s (omega arith) (omega arith) ∙ here,
  some,
  HoldsString-ext m m' (s + 1) cs (λ x lo hi. same x (omega arith) (omega arith)) rest,
)
