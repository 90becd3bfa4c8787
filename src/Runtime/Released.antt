-- ===== src/Runtime/Released.antt =====
-- Handles of bootstrap/quarantine/c/nova/runtime_v2.c after their release.
use nexoragenesis_toolchain.Base.{
  ℕ, ◌-◌, ◌%◌, ◌^◌, ◌≤◌, ◌≡◌, inl, inr, Bool, true, false, none, some, ◌==◌, arith, Bool-cases,
  ◌!=◌, List,
}
use nexoragenesis_toolchain.Runtime.{
  State, Context, find_buffer, drop_buffer, new_buffer, count_allocation, add_buffer, release,
}
use nexoragenesis_toolchain.Runtime.Files.{put_file, drop_file}
use nexoragenesis_toolchain.Runtime.Lookup.{Names, find_buffer-Names}
use nexoragenesis_toolchain.Runtime.Stale.{IsStale, add_buffer-IsStale, drop_buffer-IsStale}
use nexoragenesis_toolchain.Runtime.Steps.{IsKept, set_writable}
use nexoragenesis_toolchain.Runtime.Steps.Run.{run-kept}
use nexoragenesis_toolchain.Runtime.Calls.{Call, run}

-- Only whether it may be written changes in the buffer of a literal.
set_writable-IsStale :
    (s : State) (slot : ℕ) (writable : Bool) (h : ℕ)
    → IsStale s h
    → IsStale (set_writable s slot writable) h
unfolding find_buffer
set_writable-IsStale s slot writable h st = record {
  issued = st.issued;
  unnamed = let b = st.unnamed in ground arith;
}

count_allocation-IsStale :
    (n : ℕ) (r : ℕ × Context) (h : ℕ)
    → IsStale r.1.state h
    → IsStale (count_allocation n r).1.state h
unfolding count_allocation find_buffer
count_allocation-IsStale n (k, c) h st = elim (Bool-cases (k == 0)) [
  | inl e ↦ rw (e, count_allocation) st
  | inr e ↦ rw (e, count_allocation) (record { issued = st.issued; unnamed = st.unnamed })
]

-- A file takes a new generation, and a buffer's handle looks at buffers.
put_file-IsStale :
    (s : State) (slot f : ℕ) (writable : Bool) (h : ℕ)
    → IsStale s h
    → IsStale (put_file s slot f writable) h
unfolding find_buffer put_file
put_file-IsStale s slot f writable h st = record {
  issued = omega (arith, st.issued);
  unnamed = st.unnamed;
}

drop_file-IsStale : (s : State) (slot h : ℕ) → IsStale s h → IsStale (drop_file s slot) h
unfolding find_buffer drop_file
drop_file-IsStale s slot h st = record { issued = st.issued; unnamed = st.unnamed }

IsStale-kept : (h : ℕ) → IsKept (λ s. IsStale s h)
IsStale-kept h = record {
  adds = λ c value borrowed st. add_buffer-IsStale c value h st;
  counts = λ c p n fits st.
      let value = new_buffer p n 0 0 true true in
      count_allocation-IsStale n (add_buffer c value) h (add_buffer-IsStale c value h st);
  drops = λ s k slot found st. drop_buffer-IsStale s slot h st;
  rewrites = λ s k slot writable found st. set_writable-IsStale s slot writable h st;
  opens = λ s slot f writable room st. put_file-IsStale s slot f writable h st;
  closes = λ s slot st. drop_file-IsStale s slot h st;
}

dropped : (s : State) (h slot : ℕ) → Names s h slot → find_buffer (drop_buffer s slot) h ≡ none
unfolding drop_buffer find_buffer
dropped s h slot names =
    let back : h % 2 ^ 32 - 1 ≡ slot = omega (arith, names.slot_of) in rw back (ground arith)

-- A release that succeeds leaves its handle stale.
release-IsStale :
    (c : Context) (h n : ℕ) (slot : ℕ)
    → c.error ≡ 0
    → find_buffer c.state h ≡ some slot
    → (c.state.buffers slot).length_ ≡ n
    → (c.state.buffers slot).generation ≤ c.state.generation
    → IsStale (release c h n).state h
unfolding release drop_buffer
release-IsStale c h n slot e f g le =
    let names = find_buffer-Names c.state h slot f in
    let plain : (c.error != 0) ≡ false = ground arith in
    let sized : (n != (c.state.buffers slot).length_) ≡ false = ground arith in
    rw (plain, f, sized, release)
      (record {
        issued = omega (arith, names.same_generation);
        unnamed = dropped c.state h slot names;
      })

-- Once a handle has been released, in a context without an error, with the length of its buffer, and
-- with a buffer whose generation is not past the state's, no sequence of the calls of Runtime/Calls,
-- whatever the allocator returns, makes it name a buffer again.
pub released_forever :
    (c : Context) (h n : ℕ) (slot : ℕ) (calls : List Call)
    → c.error ≡ 0
    → find_buffer c.state h ≡ some slot
    → (c.state.buffers slot).length_ ≡ n
    → (c.state.buffers slot).generation ≤ c.state.generation
    → find_buffer (run (release c h n) calls).state h ≡ none
released_forever c h n slot calls e f g le =
    let stale = release-IsStale c h n slot e f g le in
    (run-kept (λ s. IsStale s h) (IsStale-kept h) (release c h n) calls stale).unnamed
