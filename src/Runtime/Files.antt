-- ===== src/Runtime/Files.antt =====
-- The file calls and the diagnostic of bootstrap/quarantine/c/nova/runtime_v2.c. What stdio answers is an
-- argument of each: the stream of fopen, 0 for null; the bytes that fread gives; the count of fwrite;
-- ferror; and whether fclose fails.
pub mod Closed
use nexoragenesis_toolchain.Base.{
  ℕ, zero, suc, ◌+◌, ◌-◌, ◌/◌, ◌%◌, ◌^◌, Bool, true, false, ◌||◌, ◌&&◌, not, List, [], ◌∷◌, Option,
  none, some, ◌==◌, ◌!=◌, ltb, if◌then◌else◌, length,
}
use nexoragenesis_toolchain.Memory.{Mem, store, load}
use nexoragenesis_toolchain.Runtime.{
  File, State, Context, update, raise, handle, resolve, file_max, uint32_max, nv2_runtime,
  nv2_lifetime, nv2_io, nv2_argument,
}

-- memchr(p, 0, n) finds a byte.
unfoldable pub has_null : List ℕ → Bool
has_null [] = false
has_null (x ∷ xs) = (x == 0) || has_null xs

unfoldable pub path_at : Bool → ℕ → ℕ × Context → Option (List ℕ) × Context
path_at alloc n (p, c) =
    if p == 0
    then (none, c)
    else if has_null (load c.memory p n)
    then (none, raise c nv2_argument)
    else if not alloc
    then (none, raise c nv2_runtime)
    else (some (load c.memory p n), c)

-- `path`: the name, or null; `alloc` is the outcome of its malloc.
unfoldable pub path : Bool → Context → ℕ → ℕ → Option (List ℕ) × Context
path alloc c h n =
    if n == 0 || ltb 4096 n
    then (none, raise c nv2_argument)
    else path_at alloc n (resolve c h 0 n false)

-- The slot of a handle that names an open file of its generation; `none` is a null pointer, for which
-- `file` raises the error.
unfoldable pub find_file : State → ℕ → Option ℕ
find_file s h =
    let slot = h % 2 ^ 32 in
    if slot == 0 || ltb file_max slot
    then none
    else if (s.files (slot - 1)).file == 0 || (s.files (slot - 1)).generation != h / 2 ^ 32
    then none
    else some (slot - 1)

-- The first slot without a file; the slots left are the first argument.
unfoldable pub find_closed : ℕ → (ℕ → File) → ℕ → Option ℕ
find_closed zero files i = none
find_closed (suc left) files i =
    let rest = find_closed left files (i + 1) in if (files i).file == 0 then some i else rest

unfoldable pub put_file : State → ℕ → ℕ → Bool → State
put_file s slot f writable = record s {
  files =
      update s.files slot (record { file = f; generation = s.generation + 1; writable = writable });
  generation = s.generation + 1;
}

-- `open_file` after `path`.
unfoldable pub open_named : (List ℕ → Bool → ℕ) → ℕ → Bool → Option (List ℕ) × Context → ℕ × Context
open_named fopen slot writable (none, c) = (0, c)
open_named fopen slot writable (some name, c) =
    if fopen name writable == 0 then (0, raise c nv2_io) else (
      handle slot (c.state.generation + 1),
      record c { state = put_file c.state slot (fopen name writable) writable },
    )

-- `open_read_v2` and `open_new_v2` are this with `writable` false and true.
unfoldable pub open_file : Bool → (List ℕ → Bool → ℕ) → Context → ℕ → ℕ → Bool → ℕ × Context
open_file alloc fopen c h n writable =
    if c.error != 0
    then (0, c)
    else if c.state.generation == uint32_max
    then (0, raise c nv2_runtime)
    else elim (find_closed file_max c.state.files 0) [
      | none ↦ (0, raise c nv2_runtime)
      | some slot ↦ open_named fopen slot writable (path alloc c h n)
    ]

unfoldable pub read_into : List ℕ → Bool → ℕ → ℕ × Context → ℕ × Context
read_into bytes ferror n (p, c) =
    if p == 0 && n != 0
    then (0, c)
    else (let c' = record c { memory = store c.memory p bytes } in
        if ferror then (0, raise c' nv2_io) else (length bytes, c'))

-- `read_v2`; fread gives at most n bytes.
unfoldable pub read_file : List ℕ → Bool → Context → ℕ → ℕ → ℕ → ℕ × Context
read_file bytes ferror c h buf n = if c.error != 0 then (0, c) else elim (find_file c.state h) [
  | none ↦ (0, raise c nv2_lifetime)
  | some slot ↦
      if (c.state.files slot).writable
      then (0, raise c nv2_io)
      else read_into bytes ferror n (resolve c buf 0 n true)
]

unfoldable pub write_from : ℕ → Bool → ℕ → ℕ × Context → ℕ × Context
write_from size ferror n (p, c) =
    if p == 0 && n != 0
    then (0, c)
    else if size != n || ferror
    then (0, raise c nv2_io)
    else (size, c)

-- `write_v2`; fwrite gives `size`.
unfoldable pub write_file : ℕ → Bool → Context → ℕ → ℕ → ℕ → ℕ × Context
write_file size ferror c h buf n = if c.error != 0 then (0, c) else elim (find_file c.state h) [
  | none ↦ (0, raise c nv2_lifetime)
  | some slot ↦
      if not (c.state.files slot).writable
      then (0, raise c nv2_io)
      else write_from size ferror n (resolve c buf 0 n false)
]

unfoldable pub drop_file : State → ℕ → State
drop_file s slot = record s { files = update s.files slot (record (s.files slot) { file = 0 }) }

-- `close_v2`, which returns 0 in every case; `failed` is whether fclose fails.
unfoldable pub close_file : Bool → Context → ℕ → Context
close_file failed c h = if c.error != 0 then c else elim (find_file c.state h) [
  | none ↦ raise c nv2_lifetime
  | some slot ↦
      let c' = record c { state = drop_file c.state slot } in if failed then raise c' nv2_io else c'
]

unfoldable pub diagnose_at : ℕ → ℕ → ℕ × Context → Context
diagnose_at size n (p, c) = if p == 0 && n != 0 then c else if size != n then raise c nv2_io else c

-- `diag_v2`, which returns 0 in every case; fwrite gives `size`.
unfoldable pub diagnose : ℕ → Context → ℕ → ℕ → Context
diagnose size c h n = if c.error != 0 then c else diagnose_at size n (resolve c h 0 n false)
