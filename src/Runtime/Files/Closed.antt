-- ===== src/Runtime/Files/Closed.antt =====
-- File handles of bootstrap/quarantine/c/nova/runtime_v2.c after they are closed.
use nexoragenesis_toolchain.Base.{
  ℕ, ◌-◌, ◌/◌, ◌%◌, ◌^◌, ◌≤◌, ◌≡◌, refl, inl, inr, Bool, true, false, none, some, ◌==◌, ◌!=◌, arith,
  Bool-cases, Option-cases, List,
}
use nexoragenesis_toolchain.Runtime.{
  Buffer, State, Context, find_free, buffer_max, new_buffer, count_allocation, add_buffer,
  put_buffer, drop_buffer, uint32_max, nv2_runtime, nv2_io,
}
use nexoragenesis_toolchain.Runtime.Files.{find_file, put_file, drop_file, close_file}
use nexoragenesis_toolchain.Runtime.Stale.{raise_state}
use nexoragenesis_toolchain.Runtime.Steps.{IsKept, set_writable}
use nexoragenesis_toolchain.Runtime.Steps.Run.{run-kept}
use nexoragenesis_toolchain.Runtime.Calls.{Call, run}

-- A handle that has been given out and names no open file.
record IsShut (s : State) (h : ℕ) : Type 0 where
  issued : h / 2 ^ 32 ≤ s.generation
  unnamed : find_file s h ≡ none

-- States with the same files, the second not older.
later-IsShut :
    (s t : State) (h : ℕ)
    → t.files ≡ s.files
    → s.generation ≤ t.generation
    → IsShut s h
    → IsShut t h
unfolding find_file
later-IsShut s t h files later st = record {
  issued = omega (arith, st.issued);
  unnamed = rw files st.unnamed;
}

add_buffer-later :
    (c : Context) (value : Buffer)
    → ((add_buffer c value).1.state.files ≡ c.state.files)
      × (c.state.generation ≤ (add_buffer c value).1.state.generation)
unfolding add_buffer put_buffer
add_buffer-later c value = elim (Bool-cases (c.state.generation == uint32_max)) [
  | inl e ↦ rw (e, raise_state c nv2_runtime) (refl, omega arith)
  | inr e ↦ elim (Option-cases (find_free buffer_max c.state.buffers c.state.next_buffer)) [
    | inl f ↦ rw (e, f, add_buffer) (rw (raise_state c nv2_runtime) (refl, omega arith))
    | inr (i, f) ↦ rw (e, f, add_buffer) (refl, omega arith)
  ]
]

count_allocation-later :
    (n : ℕ) (r : ℕ × Context) (h : ℕ) → IsShut r.1.state h → IsShut (count_allocation n r).1.state h
unfolding count_allocation find_file
count_allocation-later n (k, c) h st = elim (Bool-cases (k == 0)) [
  | inl e ↦ rw (e, count_allocation) st
  | inr e ↦ rw (e, count_allocation) (record { issued = st.issued; unnamed = st.unnamed })
]

put_file-IsShut :
    (s : State) (slot f : ℕ) (writable : Bool) (h : ℕ)
    → IsShut s h
    → IsShut (put_file s slot f writable) h
unfolding put_file find_file
put_file-IsShut s slot f writable h st = record {
  issued = omega (arith, st.issued);
  unnamed = let a = st.issued in let b = st.unnamed in ground arith;
}

drop_file-IsShut : (s : State) (slot h : ℕ) → IsShut s h → IsShut (drop_file s slot) h
unfolding drop_file find_file
drop_file-IsShut s slot h st = record {
  issued = st.issued;
  unnamed = let b = st.unnamed in ground arith;
}

IsShut-kept : (h : ℕ) → IsKept (λ s. IsShut s h)
unfolding find_file drop_buffer
IsShut-kept h = record {
  adds = λ c value borrowed st.
      let (files, later) = add_buffer-later c value in
      later-IsShut c.state (add_buffer c value).1.state h files later st;
  counts = λ c p n fits st.
      let value = new_buffer p n 0 0 true true in
      let (files, later) = add_buffer-later c value in
      count_allocation-later n (add_buffer c value) h
        (later-IsShut c.state (add_buffer c value).1.state h files later st);
  drops = λ s k slot found st. later-IsShut s (drop_buffer s slot) h refl (omega arith) st;
  rewrites = λ s k slot writable found st.
      later-IsShut s (set_writable s slot writable) h refl (omega arith) st;
  opens = λ s slot f writable room st. put_file-IsShut s slot f writable h st;
  closes = λ s slot st. drop_file-IsShut s slot h st;
}

-- A handle that `find_file` finds names no file in the state without the file.
dropped_file :
    (s : State) (h slot : ℕ)
    → find_file s h ≡ some slot
    → (s.files slot).generation ≤ s.generation
    → IsShut (drop_file s slot) h
unfolding drop_file find_file
dropped_file s h slot found le =
    let same : h % 2 ^ 32 - 1 ≡ slot = ground arith in
    let tag : (s.files (h % 2 ^ 32 - 1)).generation ≡ h / 2 ^ 32 = ground arith in
    let old : (s.files (h % 2 ^ 32 - 1)).generation ≤ s.generation = rw same le in
    record { issued = omega arith; unnamed = rw (← same) (ground arith) }

close_file-IsShut :
    (failed : Bool) (c : Context) (h slot : ℕ)
    → c.error ≡ 0
    → find_file c.state h ≡ some slot
    → (c.state.files slot).generation ≤ c.state.generation
    → IsShut (close_file failed c h).state h
unfolding close_file
close_file-IsShut failed c h slot e found le =
    let plain : (c.error != 0) ≡ false = ground arith in
    let shut = dropped_file c.state h slot found le in
    elim (Bool-cases failed) [
      | inl g ↦
          rw
            (
              plain,
              found,
              g,
              close_file,
              raise_state (record c { state = drop_file c.state slot }) nv2_io,
            )
            shut
      | inr g ↦ rw (plain, found, g, close_file) shut
    ]

-- Once a handle of a file has been closed, whether fclose fails or not, in a context without an error and
-- with a file whose generation is not past the state's, no sequence of the calls of Runtime/Calls makes
-- it name a file again.
pub closed_forever :
    (failed : Bool) (c : Context) (h slot : ℕ) (calls : List Call)
    → c.error ≡ 0
    → find_file c.state h ≡ some slot
    → (c.state.files slot).generation ≤ c.state.generation
    → find_file (run (close_file failed c h) calls).state h ≡ none
closed_forever failed c h slot calls e found le =
    let shut = close_file-IsShut failed c h slot e found le in
    (run-kept (λ s. IsShut s h) (IsShut-kept h) (close_file failed c h) calls shut).unnamed
