-- ===== src/Memory.antt =====
-- Little-endian bytes in memory: `r32`, `r64`, `w32`, `w64`, `aligned`, `span` and `zero_bytes` of
-- bootstrap/quarantine/c/object.c. A pointer to bytes is a function from offsets, so that an access
-- at any offset has a value; which offsets a routine reads is a theorem about it.
pub mod Laws
use nexoragenesis_toolchain.Base.{
  ℕ, zero, suc, ◌+◌, ◌-◌, ◌*◌, ◌/◌, ◌%◌, ◌^◌, Bool, true, ◌&&◌, List, [], ◌∷◌, length, get_or, ltb,
  leb, ◌==◌, if◌then◌else◌,
}

abbrev pub Mem : Type 0
Mem = ℕ → ℕ

-- What `calloc` returns.
abbrev pub zeroed : Mem
zeroed i = 0

-- A pointer to the elements of a list of bytes.
abbrev pub bytes_of : List ℕ → Mem
bytes_of xs i = get_or xs i 0

-- memcpy(m + at, xs, length xs)
unfoldable pub store : Mem → ℕ → List ℕ → Mem
store m at xs i = if leb at i && ltb (i - at) (length xs) then get_or xs (i - at) 0 else m i

-- The `n` bytes at `m + at`, as memcpy reads them.
unfoldable pub load : Mem → ℕ → ℕ → List ℕ
load m at zero = []
load m at (suc n) = m at ∷ load m (at + 1) n

-- `(uint8_t)(x >> 8 * k)` for k below the width.
unfoldable pub le_bytes : ℕ → ℕ → List ℕ
le_bytes zero x = []
le_bytes (suc k) x = x % 256 ∷ le_bytes k (x / 256)

unfoldable pub w32 : Mem → ℕ → ℕ → Mem
w32 m at x = store m at (le_bytes 4 x)

unfoldable pub w64 : Mem → ℕ → ℕ → Mem
w64 m at x = store m at (le_bytes 8 x)

-- The shifted bytes share no bit, so `|` is a sum.
unfoldable pub r32 : Mem → ℕ → ℕ
r32 p at = p at + p (at + 1) * 2 ^ 8 + p (at + 2) * 2 ^ 16 + p (at + 3) * 2 ^ 24

unfoldable pub r64 : Mem → ℕ → ℕ
r64 p at = r32 p at + r32 p (at + 4) * 2 ^ 32

-- `(n + 15) & ~15`
unfoldable pub aligned : ℕ → ℕ
aligned n = (n + 15) / 16 * 16

abbrev pub span : ℕ → ℕ → ℕ → Bool
span at size bound = leb at bound && leb size (bound - at)

unfoldable pub zero_bytes : Mem → ℕ → ℕ → Bool
zero_bytes p at zero = true
zero_bytes p at (suc size) = (p at == 0) && zero_bytes p (at + 1) size
