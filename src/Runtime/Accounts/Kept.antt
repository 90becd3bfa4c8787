-- ===== src/Runtime/Accounts/Kept.antt =====
-- Any calls of bootstrap/quarantine/c/nova/runtime_v2.c keep its books.
use mathlib.Core.Option.{some-injective}
use nexoragenesis_toolchain.Base.{
  ℕ, zero, suc, ◌+◌, ◌-◌, ◌*◌, ◌<◌, ◌≡◌, inl, inr, refl, sym, subst, Bool, true, false, some, ◌==◌,
  arith, Bool-cases, Option-cases, List, ltb, ◌||◌,
}
use nexoragenesis_toolchain.Runtime.{
  Buffer, State, Context, find_buffer, find_free, drop_buffer, put_buffer, new_buffer,
  count_allocation, add_buffer, buffer_max, bytes_max, uint32_max, nv2_runtime, handle,
  context_init, empty_buffer,
}
use nexoragenesis_toolchain.Memory.{Mem}
use nexoragenesis_toolchain.Runtime.Files.{put_file, drop_file}
use nexoragenesis_toolchain.Runtime.Lookup.{find_buffer-Names, find_free_free}
use nexoragenesis_toolchain.Runtime.Stale.{raise_state}
use nexoragenesis_toolchain.Runtime.Steps.{IsKept, set_writable}
use nexoragenesis_toolchain.Runtime.Steps.Run.{run-kept}
use nexoragenesis_toolchain.Runtime.Calls.{Call, run}
use nexoragenesis_toolchain.Runtime.Accounts.{
  total_bytes, IsSound, total_bytes-update, put_buffer-total, put_buffer-IsTagged,
  drop_buffer-IsTagged,
}

-- A fresh buffer that is borrowed, or that is owned and counted.
put_buffer-IsSound :
    (s : State) (i : ℕ) (value : Buffer)
    → i < buffer_max
    → (s.buffers i).live ≡ false
    → (s.generation == uint32_max) ≡ false
    → value.owned ≡ false
    → IsSound s
    → IsSound (put_buffer s i value)
unfolding put_buffer
put_buffer-IsSound s i value lt free room borrowed st = record {
  tagged = put_buffer-IsTagged s i value lt room st.tagged;
  counted =
      let total = put_buffer-total s i value lt free in
      let counted = st.counted in
      let same : (put_buffer s i value).allocated ≡ s.allocated = refl in ground arith;
  limited = st.limited;
}

allocated-IsSound :
    (s : State) (i p n : ℕ)
    → i < buffer_max
    → (s.buffers i).live ≡ false
    → (s.generation == uint32_max) ≡ false
    → (ltb bytes_max n || ltb (4 * bytes_max - n) s.allocated) ≡ false
    → IsSound s
    → IsSound
        (record (put_buffer s i (new_buffer p n 0 0 true true)) { allocated = s.allocated + n })
unfolding put_buffer
allocated-IsSound s i p n lt free room fits st =
    let value = new_buffer p n 0 0 true true in
    record {
      tagged =
          let t = put_buffer-IsTagged s i value lt room st.tagged in
          record { bounded = t.bounded; issued = t.issued; distinct = t.distinct };
      counted =
          let total = put_buffer-total s i value lt free in
          let counted = st.counted in ground arith;
      limited = ground arith;
    }

add_buffer-IsSound :
    (c : Context) (value : Buffer)
    → value.owned ≡ false
    → IsSound c.state
    → IsSound (add_buffer c value).1.state
unfolding add_buffer
add_buffer-IsSound c value borrowed st = elim (Bool-cases (c.state.generation == uint32_max)) [
  | inl e ↦ rw (e, raise_state c nv2_runtime) st
  | inr e ↦ elim (Option-cases (find_free buffer_max c.state.buffers c.state.next_buffer)) [
    | inl f ↦ rw (e, f, add_buffer) (rw (raise_state c nv2_runtime) st)
    | inr (i, f) ↦
        let (free, lt) = find_free_free buffer_max c.state.buffers c.state.next_buffer i f in
        rw (e, f, add_buffer) (put_buffer-IsSound c.state i value lt free e borrowed st)
  ]
]

handle-ne : (i generation : ℕ) → (handle i generation == 0) ≡ false
unfolding handle
handle-ne i generation = ground arith

count_allocation-IsSound :
    (c : Context) (p n : ℕ)
    → (ltb bytes_max n || ltb (4 * bytes_max - n) c.state.allocated) ≡ false
    → IsSound c.state
    → IsSound (count_allocation n (add_buffer c (new_buffer p n 0 0 true true))).1.state
unfolding add_buffer count_allocation put_buffer
count_allocation-IsSound c p n fits st = elim (Bool-cases (c.state.generation == uint32_max)) [
  | inl e ↦ rw (e, raise_state c nv2_runtime) st
  | inr e ↦ elim (Option-cases (find_free buffer_max c.state.buffers c.state.next_buffer)) [
    | inl f ↦ rw (e, f, add_buffer, count_allocation) (rw (raise_state c nv2_runtime) st)
    | inr (i, f) ↦
        let (free, lt) = find_free_free buffer_max c.state.buffers c.state.next_buffer i f in
        let some_handle = handle-ne i (c.state.generation + 1) in
        rw (e, f, add_buffer, count_allocation, some_handle)
          (allocated-IsSound c.state i p n lt free e fits st)
  ]
]

drop_buffer-IsSound :
    (s : State) (h slot : ℕ)
    → find_buffer s h ≡ some slot
    → IsSound s
    → IsSound (drop_buffer s slot)
unfolding drop_buffer
drop_buffer-IsSound s h slot found st =
    let names = find_buffer-Names s h slot found in
    let b = s.buffers slot in
    let change =
      total_bytes-update buffer_max s.buffers slot (record b { live = false; base = 0 })
        names.in_table in
    record {
      tagged = drop_buffer-IsTagged s slot st.tagged;
      counted = ground (arith, change, st.counted, st.limited, names.is_live);
      limited = ground (arith, change, st.counted, st.limited, names.is_live);
    }

set_writable-IsSound :
    (s : State) (h slot : ℕ) (writable : Bool)
    → find_buffer s h ≡ some slot
    → IsSound s
    → IsSound (set_writable s slot writable)
set_writable-IsSound s h slot writable found st =
    let names = find_buffer-Names s h slot found in
    let b = s.buffers slot in
    let change =
      total_bytes-update buffer_max s.buffers slot (record b { writable = writable })
        names.in_table in
    record {
      tagged = record {
        bounded = st.tagged.bounded;
        issued = λ j lt live. let old = st.tagged.issued j lt in ground arith;
        distinct = λ j k ltj ltk livej livek same.
            let old = st.tagged.distinct j k ltj ltk in ground arith;
      };
      counted = let counted = st.counted in omega arith;
      limited = st.limited;
    }

put_file-IsSound :
    (s : State) (slot f : ℕ) (writable : Bool)
    → (s.generation == uint32_max) ≡ false
    → IsSound s
    → IsSound (put_file s slot f writable)
unfolding put_file
put_file-IsSound s slot f writable room st = record {
  tagged = record {
    bounded = ground (arith, st.tagged.bounded);
    issued = λ i lt live. let old = st.tagged.issued i lt live in omega arith;
    distinct = st.tagged.distinct;
  };
  counted = st.counted;
  limited = st.limited;
}

drop_file-IsSound : (s : State) (slot : ℕ) → IsSound s → IsSound (drop_file s slot)
unfolding drop_file
drop_file-IsSound s slot st = record {
  tagged = record {
    bounded = st.tagged.bounded;
    issued = st.tagged.issued;
    distinct = st.tagged.distinct;
  };
  counted = st.counted;
  limited = st.limited;
}

IsSound-kept : IsKept IsSound
IsSound-kept = record {
  adds = add_buffer-IsSound;
  counts = count_allocation-IsSound;
  drops = drop_buffer-IsSound;
  rewrites = set_writable-IsSound;
  opens = put_file-IsSound;
  closes = drop_file-IsSound;
}

total_bytes-empty : (k : ℕ) → total_bytes k (λ i. empty_buffer) ≡ 0
unfolding total_bytes
total_bytes-empty zero = refl
total_bytes-empty (suc k) = omega (arith, total_bytes-empty k)

context_init-IsSound :
    (r s : Bool) (memory : Mem) (c : Context) → context_init r s memory ≡ some c → IsSound c.state
unfolding context_init
context_init-IsSound true true memory c h =
    subst (λ c. IsSound c.state) (some-injective _ _ h)
      (record {
        tagged = record {
          bounded = omega arith;
          issued = λ i lt live. cc;
          distinct = λ i j lti ltj livei livej same. absurd (cc);
        };
        counted = sym (total_bytes-empty buffer_max);
        limited = omega arith;
      })
context_init-IsSound true false memory c h = cc
context_init-IsSound false s memory c h = cc

-- After any of the calls of Runtime/Calls on a fresh context, whatever the allocator returns, live
-- buffers have different generations, none past the state's, which fits 32 bits; and what is counted
-- as allocated is the bytes of the live buffers that are owned, 256 MiB at most.
pub run-IsSound :
    (r s : Bool) (memory : Mem) (c : Context) (calls : List Call)
    → context_init r s memory ≡ some c
    → IsSound (run c calls).state
run-IsSound r s memory c calls h =
    run-kept IsSound IsSound-kept c calls (context_init-IsSound r s memory c h)
