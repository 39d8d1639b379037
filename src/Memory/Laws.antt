-- ===== src/Memory/Laws.antt =====
-- Reading back what was written, and what a write leaves alone.
use tvmm.Base.{ℕ, zero, suc, ◌+◌, ◌/◌, ◌%◌, ◌^◌, ◌≤◌, ◌<◌, ◌≡◌, refl, ◌∙◌, ◌⊎◌, ◌≢◌, arith}
use tvmm.Base.Word.{w64}
use tvmm.Memory.{Mem, byte, store8, load_bytes, store_bytes, load64, store64}
use native.Mathlib.Nat.{pow-suc}

pub store8_self : (m : Mem) (a v : ℕ) → byte (store8 m a v) a ≡ v % 256
unfolding store8
store8_self m a v = ground arith

pub store8_ne : (m : Mem) (a v x : ℕ) → x ≢ a → store8 m a v x ≡ m x
unfolding store8
store8_ne m a v x h = ground arith

pub store_bytes_outside :
    (n : ℕ) (m : Mem) (a v x : ℕ) → (x < a) ⊎ (a + n ≤ x) → store_bytes m a n v x ≡ m x
unfolding store_bytes
store_bytes_outside zero m a v x h = refl
store_bytes_outside (suc n) m a v x h =
    store_bytes_outside n (store8 m a v) (a + 1) (v / 256) x (omega arith)
    ∙ store8_ne m a v x (omega arith)

pub load_bytes_ext :
    (n : ℕ) (m m' : Mem) (a : ℕ)
    → ((x : ℕ) → a ≤ x → x < a + n → m x ≡ m' x)
    → load_bytes m a n ≡ load_bytes m' a n
unfolding load_bytes
load_bytes_ext zero m m' a h = refl
load_bytes_ext (suc n) m m' a h =
    let here = h a (omega arith) (omega arith) in
    let rest = load_bytes_ext n m m' (a + 1) (λ x p q. h x (omega arith) (omega arith)) in
    ground arith

pub load_bytes-store_bytes :
    (n : ℕ) (m : Mem) (a v : ℕ) → v < 256 ^ n → load_bytes (store_bytes m a n v) a n ≡ v
unfolding load_bytes store_bytes
load_bytes-store_bytes zero m a v h = omega arith
load_bytes-store_bytes (suc n) m a v h =
    let low = store_bytes_outside n (store8 m a v) (a + 1) (v / 256) a (omega arith) in
    let rest =
      load_bytes-store_bytes n (store8 m a v) (a + 1) (v / 256) (omega (arith, pow-suc 256 n)) in
    ground (arith, store8_self m a v)

pub load_bytes-lt : (n : ℕ) (m : Mem) (a : ℕ) → load_bytes m a n < 256 ^ n
unfolding load_bytes
load_bytes-lt zero m a = omega arith
load_bytes-lt (suc n) m a = omega (arith, pow-suc 256 n, load_bytes-lt n m (a + 1))

-- A word depends on its bytes alone.
pub bytes_ext :
    (k : ℕ) (m m' : Mem) (a : ℕ)
    → ((x : ℕ) → a ≤ x → x < a + k → byte m' x ≡ byte m x)
    → load_bytes m' a k ≡ load_bytes m a k
unfolding load_bytes
bytes_ext zero m m' a h = refl
bytes_ext (suc k) m m' a h =
    let here = h a (omega arith) (omega arith) in
    let rest = bytes_ext k m m' (a + 1) (λ x p q. h x (omega arith) (omega arith)) in
    omega (arith, here, rest)

pub load64-bytes_ext :
    (m m' : Mem) (a : ℕ)
    → ((x : ℕ) → a ≤ x → x < a + 8 → byte m' x ≡ byte m x)
    → load64 m' a ≡ load64 m a
unfolding load64
load64-bytes_ext m m' a h = bytes_ext 8 m m' a h

pub load64-lt : (m : Mem) (a : ℕ) → load64 m a < 2 ^ 64
unfolding load64
load64-lt m a = load_bytes-lt 8 m a

pub load64-store64_self : (m : Mem) (a v : ℕ) → load64 (store64 m a v) a ≡ w64 v
unfolding load64 store64
load64-store64_self m a v = load_bytes-store_bytes 8 m a (w64 v) (omega arith)

pub store64_outside : (m : Mem) (a v x : ℕ) → (x < a) ⊎ (a + 8 ≤ x) → store64 m a v x ≡ m x
unfolding store64
store64_outside m a v x h = store_bytes_outside 8 m a (w64 v) x h

pub load64_ext :
    (m m' : Mem) (a : ℕ) → ((x : ℕ) → a ≤ x → x < a + 8 → m x ≡ m' x) → load64 m a ≡ load64 m' a
unfolding load64
load64_ext m m' a h = load_bytes_ext 8 m m' a h

pub load64-store64_ne :
    (m : Mem) (a v b : ℕ) → (b + 8 ≤ a) ⊎ (a + 8 ≤ b) → load64 (store64 m a v) b ≡ load64 m b
load64-store64_ne m a v b h =
    load64_ext (store64 m a v) m b (λ x p q. store64_outside m a v x (omega arith))

-- A word all of whose bytes are 255 has all its digits set.
pub load_bytes-ones :
    (n : ℕ) (m : Mem) (a : ℕ)
    → ((x : ℕ) → a ≤ x → x < a + n → byte m x ≡ 255)
    → load_bytes m a n + 1 ≡ 256 ^ n
unfolding load_bytes
load_bytes-ones zero m a h = refl
load_bytes-ones (suc n) m a h = omega (
  arith,
  pow-suc 256 n,
  h a (omega arith) (omega arith),
  load_bytes-ones n m (a + 1) (λ x p q. h x (omega arith) (omega arith)),
)
