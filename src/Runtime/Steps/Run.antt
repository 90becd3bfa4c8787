-- ===== src/Runtime/Steps/Run.antt =====
-- What the changes of the state of bootstrap/quarantine/c/nova/runtime_v2.c keep, any calls keep.
use nexoragenesis_toolchain.Base.{true, List, [], ◌∷◌}
use nexoragenesis_toolchain.Runtime.{State, Context, resolve, resolve_call, copy_bytes, error_clear}
use nexoragenesis_toolchain.Runtime.Calls.{
  Call, borrows, allocates, releases, resolves, slices, lengths, literals, copies, clears, opens,
  reads, writes, closes, diagnoses, step, run,
}
use nexoragenesis_toolchain.Runtime.Steps.{
  IsKept, leaves, if-Leaves, borrow-Leaves, allocate-Leaves, resolve-Leaves, slice-Leaves,
  buffer_length-Leaves, literal-Leaves, copy_destination-Leaves, release-kept,
}
use nexoragenesis_toolchain.Runtime.Steps.Files.{
  open_file-Leaves, read_file-Leaves, write_file-Leaves, close_file-kept, diagnose-kept,
}

module _ (P : State → Type 0) (k : IsKept P) where
  step-kept : (c : Context) (call : Call) → P c.state → P (step c call).state
  unfolding step resolve_call copy_bytes error_clear
  step-kept c (borrows p n writable) st = (borrow-Leaves P k c p n writable st).kept
  step-kept c (allocates p n) st = (allocate-Leaves P k p c n st).kept
  step-kept c (releases h n) st = release-kept P k c h n st
  step-kept c (resolves h i spec) st =
      (if-Leaves P k _ _ _ (leaves P k 0 c st) (resolve-Leaves P k c h i _ _ st)).kept
  step-kept c (slices h i n) st = (slice-Leaves P k c h i n st).kept
  step-kept c (lengths h) st = (buffer_length-Leaves P k c h st).kept
  step-kept c (literals p source n writable) st = (literal-Leaves P k p c source n writable st).kept
  step-kept c (copies destination source n) st =
      (if-Leaves P k _ _ _ (leaves P k 0 c st) (
        copy_destination-Leaves P k source n (resolve c destination 0 n true)
          (resolve-Leaves P k c destination 0 n true st))).kept
  step-kept c clears st = st
  step-kept c (opens alloc fopen h n writable) st =
      (open_file-Leaves P k alloc fopen c h n writable st).kept
  step-kept c (reads bytes ferror h buf n) st =
      (read_file-Leaves P k bytes ferror c h buf n st).kept
  step-kept c (writes size ferror h buf n) st =
      (write_file-Leaves P k size ferror c h buf n st).kept
  step-kept c (closes failed h) st = close_file-kept P k failed c h st
  step-kept c (diagnoses size h n) st = diagnose-kept P k size c h n st

  pub run-kept : (c : Context) (calls : List Call) → P c.state → P (run c calls).state
  unfolding run
  run-kept c [] st = st
  run-kept c (call ∷ calls) st = run-kept (step c call) calls (step-kept c call st)
