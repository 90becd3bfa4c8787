-- ===== src/Memory/Laws.antt =====
-- Bytes and words in memory, for the helpers of bootstrap/quarantine/c/object.c.
use native.Mathlib.Decide.{ℕ_discrete}
use nexoragenesis_toolchain.Base.{
  ℕ, zero, suc, ◌+◌, ◌-◌, ◌/◌, ◌%◌, ◌^◌, ◌≤◌, ◌<◌, ◌≡◌, ◌↔◌, ◌∙◌, refl, ap, true, List, [], ◌∷◌,
  length, get_or, arith,
}
use nexoragenesis_toolchain.Memory.{
  Mem, store, load, le_bytes, w32, w64, r32, r64, aligned, zero_bytes,
}

-- Two memories hold the same bytes from `lo` up to `hi`.
abbrev pub Agree : Mem → Mem → ℕ → ℕ → Type 0
Agree m m' lo hi = (i : ℕ) → lo ≤ i → i < hi → m i ≡ m' i

pub store_in :
    (m : Mem) (at : ℕ) (xs : List ℕ) (k : ℕ)
    → k < length xs
    → store m at xs (at + k) ≡ get_or xs k 0
unfolding store
store_in m at xs k h = let e : at + k - at ≡ k = omega arith in rw e (ground arith)

pub store_below : (m : Mem) (at : ℕ) (xs : List ℕ) (i : ℕ) → i < at → store m at xs i ≡ m i
unfolding store
store_below m at xs i h = ground arith

pub store_above :
    (m : Mem) (at : ℕ) (xs : List ℕ) (i : ℕ) → at + length xs ≤ i → store m at xs i ≡ m i
unfolding store
store_above m at xs i h = ground arith

pub length-le_bytes : (k x : ℕ) → length (le_bytes k x) ≡ k
unfolding le_bytes
length-le_bytes zero x = refl
length-le_bytes (suc k) x = ap suc (length-le_bytes k (x / 256))

pub length-load : (m : Mem) (at n : ℕ) → length (load m at n) ≡ n
unfolding load
length-load m at zero = refl
length-load m at (suc n) = ap suc (length-load m (at + 1) n)

pub get_or-load : (m : Mem) (at n k : ℕ) → k < n → get_or (load m at n) k 0 ≡ m (at + k)
unfolding load
get_or-load m at zero k h = elim h [ ]
get_or-load m at (suc n) zero h = ap m (omega arith)
get_or-load m at (suc n) (suc k) h = get_or-load m (at + 1) n k (omega arith) ∙ ap m (omega arith)

pub load-cong : (m m' : Mem) (at n : ℕ) → Agree m m' at (at + n) → load m at n ≡ load m' at n
unfolding load
load-cong m m' at zero h = refl
load-cong m m' at (suc n) h =
    let e = h at (omega arith) (omega arith) in
    let rest = load-cong m m' (at + 1) n (λ i lo hi. h i (omega arith) (omega arith)) in
    rw (e, rest)

pub load-eq :
    (m : Mem) (at : ℕ) (xs : List ℕ)
    → ((k : ℕ) → k < length xs → m (at + k) ≡ get_or xs k 0)
    → load m at (length xs) ≡ xs
unfolding load
load-eq m at [] h = refl
load-eq m at (x ∷ xs) h =
    let first : m at ≡ x = ap m (omega arith) ∙ h 0 (omega arith) in
    let rest = load-eq m (at + 1) xs (λ k lt. ap m (omega arith) ∙ h (suc k) (omega arith)) in
    rw (first, rest)

pub load-store_self : (m : Mem) (at : ℕ) (xs : List ℕ) → load (store m at xs) at (length xs) ≡ xs
load-store_self m at xs = load-eq (store m at xs) at xs (store_in m at xs)

pub r32-cong : (m m' : Mem) (at : ℕ) → Agree m m' at (at + 4) → r32 m at ≡ r32 m' at
unfolding r32
r32-cong m m' at h = omega (
  arith,
  h at (omega arith) (omega arith),
  h (at + 1) (omega arith) (omega arith),
  h (at + 2) (omega arith) (omega arith),
  h (at + 3) (omega arith) (omega arith),
)

pub r64-cong : (m m' : Mem) (at : ℕ) → Agree m m' at (at + 8) → r64 m at ≡ r64 m' at
unfolding r64
r64-cong m m' at h = omega (
  arith,
  r32-cong m m' at (λ i lo hi. h i lo (omega arith)),
  r32-cong m m' (at + 4) (λ i lo hi. h i (omega arith) (omega arith)),
)

le_bytes_four :
    (x : ℕ)
    → (get_or (le_bytes 4 x) 0 0 ≡ x % 256)
      × (get_or (le_bytes 4 x) 1 0 ≡ x / 256 % 256)
      × (get_or (le_bytes 4 x) 2 0 ≡ x / 256 / 256 % 256)
      × (get_or (le_bytes 4 x) 3 0 ≡ x / 256 / 256 / 256 % 256)
unfolding le_bytes
le_bytes_four x = (refl, refl, refl, refl)

-- What `w32` puts, `r32` finds.
pub r32-w32 : (m : Mem) (at x : ℕ) → r32 (w32 m at x) at ≡ x % 2 ^ 32
unfolding r32 w32
r32-w32 m at x =
    let b0 : store m at (le_bytes 4 x) at ≡ x % 256 =
      ap (store m at (le_bytes 4 x)) (omega arith)
      ∙ store_in m at (le_bytes 4 x) 0 (rw length-le_bytes (omega arith))
      ∙ (le_bytes_four x).0 in
    omega (
      arith,
      b0,
      store_in m at (le_bytes 4 x) 1 (rw length-le_bytes (omega arith)),
      store_in m at (le_bytes 4 x) 2 (rw length-le_bytes (omega arith)),
      store_in m at (le_bytes 4 x) 3 (rw length-le_bytes (omega arith)),
      le_bytes_four x,
    )

pub w32_below : (m : Mem) (at x i : ℕ) → i < at → w32 m at x i ≡ m i
unfolding w32
w32_below m at x i h = store_below m at (le_bytes 4 x) i h

pub w32_above : (m : Mem) (at x i : ℕ) → at + 4 ≤ i → w32 m at x i ≡ m i
unfolding w32
w32_above m at x i h = store_above m at (le_bytes 4 x) i (rw length-le_bytes h)

pub w64_below : (m : Mem) (at x i : ℕ) → i < at → w64 m at x i ≡ m i
unfolding w64
w64_below m at x i h = store_below m at (le_bytes 8 x) i h

pub w64_above : (m : Mem) (at x i : ℕ) → at + 8 ≤ i → w64 m at x i ≡ m i
unfolding w64
w64_above m at x i h = store_above m at (le_bytes 8 x) i (rw length-le_bytes h)

-- What `w64` puts, `r64` finds, modulo 2^64.
pub r64-w64 : (m : Mem) (at x : ℕ) → r64 (w64 m at x) at ≡ x % 2 ^ 64
unfolding r64 w64 r32 le_bytes
r64-w64 m at x = omega (arith, byte 0, byte 1, byte 2, byte 3, byte 4, byte 5, byte 6, byte 7, at4)
  where
    xs : List ℕ
    xs = le_bytes 8 x

    p : Mem
    p = store m at xs

    byte : (k : ℕ) → k < 8 → p (at + k) ≡ get_or xs k 0
    byte k h = store_in m at xs k h

    at4 :
        (p at ≡ p (at + 0))
        × (p (at + 4 + 1) ≡ p (at + 5))
        × (p (at + 4 + 2) ≡ p (at + 6))
        × (p (at + 4 + 3) ≡ p (at + 7))
    at4 = (ap p (omega arith), ap p (omega arith), ap p (omega arith), ap p (omega arith))

pub aligned_bounds : (n : ℕ) → (n ≤ aligned n) × (aligned n < n + 16) × (aligned n % 16 ≡ 0)
unfolding aligned
aligned_bounds n = omega arith

-- `zero_bytes` decides that the bytes are all zero.
pub zero_bytes_iff :
    (p : Mem) (at size : ℕ)
    → (zero_bytes p at size ≡ true) ↔ ((i : ℕ) → at ≤ i → i < at + size → p i ≡ 0)
unfolding zero_bytes
zero_bytes_iff p at zero = (λ h i lo hi. absurd (omega arith), λ h. refl)
zero_bytes_iff p at (suc size) = (
  λ h i lo hi. elim (ℕ_discrete i at) [
    | yes e ↦ rw e (ground arith)
    | no ne ↦ (zero_bytes_iff p (at + 1) size).0 (ground arith) i (omega arith) (omega arith)
  ],
  λ h.
      let first = h at (omega arith) (omega arith) in
      let rest = (zero_bytes_iff p (at + 1) size).1 (λ i lo hi. h i (omega arith) (omega arith)) in
      ground arith,
)
