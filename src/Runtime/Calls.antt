-- ===== src/Runtime/Calls.antt =====
-- The calls of the runtime as steps of a machine, in any order.
use nexoragenesis_toolchain.Base.{ℕ, Bool, List, [], ◌∷◌}
use nexoragenesis_toolchain.Runtime.{
  Context, borrow, allocate, release, resolve_call, slice, buffer_length, literal, copy_bytes,
  error_clear,
}
use nexoragenesis_toolchain.Runtime.Files.{open_file, read_file, write_file, close_file, diagnose}

-- The calls that a compiled program or its host makes; an allocation and a literal carry what
-- `calloc` returns, and the calls on files what stdio answers.
pub data Call : Type 0 where
  borrows : ℕ → ℕ → Bool → Call
  allocates : ℕ → ℕ → Call
  releases : ℕ → ℕ → Call
  resolves : ℕ → ℕ → ℕ → Call
  slices : ℕ → ℕ → ℕ → Call
  lengths : ℕ → Call
  literals : ℕ → ℕ → ℕ → ℕ → Call
  copies : ℕ → ℕ → ℕ → Call
  clears : Call
  opens : Bool → (List ℕ → Bool → ℕ) → ℕ → ℕ → Bool → Call
  reads : List ℕ → Bool → ℕ → ℕ → ℕ → Call
  writes : ℕ → Bool → ℕ → ℕ → ℕ → Call
  closes : Bool → ℕ → Call
  diagnoses : ℕ → ℕ → ℕ → Call

unfoldable pub step : Context → Call → Context
step c (borrows p n writable) = (borrow c p n writable).1
step c (allocates p n) = (allocate p c n).1
step c (releases h n) = release c h n
step c (resolves h i spec) = (resolve_call c h i spec).1
step c (slices h i n) = (slice c h i n).1
step c (lengths h) = (buffer_length c h).1
step c (literals p source n writable) = (literal p c source n writable).1
step c (copies destination source n) = (copy_bytes c destination source n).1
step c clears = error_clear c
step c (opens alloc fopen h n writable) = (open_file alloc fopen c h n writable).1
step c (reads bytes ferror h buf n) = (read_file bytes ferror c h buf n).1
step c (writes size ferror h buf n) = (write_file size ferror c h buf n).1
step c (closes failed h) = close_file failed c h
step c (diagnoses size h n) = diagnose size c h n

unfoldable pub run : Context → List Call → Context
run c [] = c
run c (call ∷ calls) = run (step c call) calls
