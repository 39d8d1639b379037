-- ===== src/CString/Laws.antt =====
-- `memset` fills exactly its range, and `memmove` copies also where the ranges overlap.
use tvmm.Base.{
  ℕ, zero, suc, ◌+◌, ◌-◌, ◌*◌, ◌/◌, ◌%◌, ◌≤◌, ◌<◌, ◌≡◌, refl, sym, subst, ◌∙◌, inl, inr, arith,
  bit_and, leb, ltb, ◌==◌, if◌then◌else◌, ◌&&◌, Bool-cases,
}
use tvmm.Base.Bits.{testbit, bit_and-pow}
use tvmm.Memory.{Mem, byte, store8, load_bytes, store_bytes}
use tvmm.Memory.Laws.{store_bytes_outside, store8_self}
use tvmm.CString.{memset, movs, rep_movsl, movs_if, inline_memcpy, copy_down, memmove}

-- After a memset, each byte of the range is the low byte of `c`, and no other byte has changed.
pub memset_lem :
    (n : ℕ) (m : Mem) (s c x : ℕ)
    → memset m s c n x ≡ (if leb s x && ltb x (s + n) then c % 256 else m x)
unfolding memset store8
memset_lem zero m s c x = ground arith
memset_lem (suc n) m s c x = memset_lem n (store8 m s c) (s + 1) c x ∙ ground arith

-- `m'` is `m` with the `n` bytes from `s` copied to `d`.
abbrev pub Moved : Mem → ℕ → ℕ → ℕ → Mem → Type 0
Moved m d s n m' =
    (x : ℕ) → byte m' x ≡ (if leb d x && ltb x (d + n) then byte m (s + (x - d)) else byte m x)

Moved-zero : (m : Mem) (d s : ℕ) → Moved m d s 0 m
Moved-zero m d s x = ground arith

-- Upwards, with the destination below the source, the parts of a copy join.
Moved-join :
    (m m' m'' : Mem) (d s k n : ℕ)
    → d ≤ s
    → Moved m d s k m'
    → Moved m' (d + k) (s + k) n m''
    → Moved m d s (k + n) m''
Moved-join m m' m'' d s k n below first rest x =
    ground (arith, rest x, first x, first (s + k + (x - (d + k))))

store_bytes_inside :
    (n : ℕ) (m m' : Mem) (d s x : ℕ)
    → d ≤ x
    → x < d + n
    → byte (store_bytes m d n (load_bytes m' s n)) x ≡ byte m' (s + (x - d))
unfolding store_bytes load_bytes
store_bytes_inside zero m m' d s x p q = absurd (omega arith)
store_bytes_inside (suc n) m m' d s x p q =
    let rest = load_bytes m' (s + 1) n in
    let first = store8 m d (byte m' s + 256 * rest) in
    let quotient : (byte m' s + 256 * rest) / 256 ≡ rest = omega arith in
    rw quotient (
      ground (
        arith,
        store_bytes_outside n first (d + 1) rest x,
        store8_self m d (byte m' s + 256 * rest),
        store_bytes_inside n first m' (d + 1) (s + 1) x,
      ))

movs-Moved : (n : ℕ) (m : Mem) (d s : ℕ) → Moved m d s n (movs n m d s)
unfolding movs
movs-Moved n m d s x =
    ground (arith, store_bytes_inside n m m d s x, store_bytes_outside n m d (load_bytes m s n) x)

rep_movsl-Moved : (n : ℕ) (m : Mem) (d s : ℕ) → d ≤ s → Moved m d s (4 * n) (rep_movsl n m d s)
unfolding rep_movsl
rep_movsl-Moved zero m d s h = Moved-zero m d s
rep_movsl-Moved (suc n) m d s h =
    let e : 4 * suc n ≡ 4 + 4 * n = omega arith in
    rw e (
      Moved-join m (movs 4 m d s) _ d s 4 (4 * n) h (movs-Moved 4 m d s)
        (rep_movsl-Moved n (movs 4 m d s) (d + 4) (s + 4) (omega arith)))

copy_down-Moved : (n : ℕ) (m : Mem) (d s : ℕ) → s ≤ d → Moved m d s n (copy_down n m d s)
unfolding copy_down store8
copy_down-Moved zero m d s h x = Moved-zero m d s x
copy_down-Moved (suc n) m d s h x =
    copy_down-Moved n (store8 m (d + n) (byte m (s + n))) d s h x ∙ ground arith

-- One conditional instruction copies `k` bytes and moves both pointers on by `k`.
movs_if-Moved :
    (b width n k : ℕ) (m : Mem) (d s : ℕ)
    → k ≡ (if bit_and n b == 0 then 0 else width)
    → let r = movs_if b width n m d s in Moved m d s k r.0 × (r.1 ≡ d + k) × (r.2 ≡ s + k)
unfolding movs_if
movs_if-Moved b width n k m d s e = elim (Bool-cases (bit_and n b == 0)) [
  | inl clear ↦
      let none_moved : k ≡ 0 = ground arith in
      rw (clear, none_moved) (Moved-zero m d s, omega arith, omega arith)
  | inr set ↦
      let all_moved : k ≡ width = ground arith in
      rw (set, all_moved) (movs-Moved width m d s, refl, refl)
]

low_parts :
    (n : ℕ)
    → n ≡ 4 * (n / 4) + (if bit_and n 2 == 0 then 0 else 2) + (if bit_and n 1 == 0 then 0 else 1)
unfolding testbit
low_parts n = ground (arith, bit_and-pow 1 n, bit_and-pow 0 n)

inline_memcpy-Moved : (n : ℕ) (m : Mem) (d s : ℕ) → d ≤ s → Moved m d s n (inline_memcpy m d s n)
unfolding inline_memcpy
inline_memcpy-Moved n m d s h =
    let q = 4 * (n / 4) in
    let k2 : ℕ = if bit_and n 2 == 0 then 0 else 2 in
    let k1 : ℕ = if bit_and n 1 == 0 then 0 else 1 in
    let whole = rep_movsl (n / 4) m d s in
    let half = movs_if 2 2 n whole (d + q) (s + q) in
    let last = (movs_if 1 1 n half.0 half.1 half.2).0 in
    let second = movs_if-Moved 2 2 n k2 whole (d + q) (s + q) refl in
    let third = movs_if-Moved 1 1 n k1 half.0 half.1 half.2 refl in
    let to : half.1 ≡ d + (q + k2) = omega arith in
    let from : half.2 ≡ s + (q + k2) = omega arith in
    let joined = Moved-join m whole half.0 d s q k2 h (rep_movsl-Moved (n / 4) m d s h) second.0 in
    let rest =
      subst (λ t. Moved half.0 (d + (q + k2)) t k1 last) from
        (subst (λ t. Moved half.0 t half.2 k1 last) to third.0) in
    subst (λ t. Moved m d s t last) (sym (low_parts n))
      (Moved-join m half.0 last d s (q + k2) k1 h joined rest)

-- Whichever way the ranges overlap, `memmove` leaves at each destination byte the byte that its
-- source held before the call, and changes no byte outside the destination.
pub memmove_lem : (m : Mem) (d s n : ℕ) → Moved m d s n (memmove m d s n)
unfolding memmove
memmove_lem m d s n = elim (Bool-cases (ltb d s)) [
  | inl below ↦ rw below (inline_memcpy-Moved n m d s (ground arith))
  | inr above ↦ rw above (copy_down-Moved n m d s (ground arith))
]
