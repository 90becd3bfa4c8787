-- ===== src/Runtime/Accounts.antt =====
-- The books of bootstrap/quarantine/c/nova/runtime_v2.c: the generations of its buffers, and the bytes
-- that it counts as allocated.
pub mod Kept
use mathlib.Core.Option.{some-injective}
use nexoragenesis_toolchain.Base.{
  ℕ, zero, suc, ◌+◌, ◌-◌, ◌*◌, ◌≤◌, ◌<◌, ◌≡◌, inl, inr, refl, sym, subst, Bool, true, false, some,
  ◌==◌, arith, Bool-cases, Option-cases, List, ltb, ◌&&◌, ◌||◌, if◌then◌else◌,
}
use nexoragenesis_toolchain.Runtime.{
  Buffer, State, Context, find_buffer, find_free, drop_buffer, put_buffer, new_buffer,
  count_allocation, add_buffer, buffer_max, bytes_max, uint32_max, update, nv2_runtime, handle,
  context_init, empty_buffer,
}
use nexoragenesis_toolchain.Memory.{Mem}
use nexoragenesis_toolchain.Runtime.Files.{put_file, drop_file}
use nexoragenesis_toolchain.Runtime.Lookup.{find_buffer-Names, find_free_free}
use nexoragenesis_toolchain.Runtime.Stale.{raise_state}
use nexoragenesis_toolchain.Runtime.Steps.{IsKept, set_writable}
use nexoragenesis_toolchain.Runtime.Steps.Run.{run-kept}
use nexoragenesis_toolchain.Runtime.Calls.{Call, run}

-- The bytes of a live buffer that the runtime owns.
abbrev pub owned_bytes : Buffer → ℕ
owned_bytes b = if b.live && b.owned then b.length_ else 0

-- The bytes of the first `k` slots.
unfoldable pub total_bytes : ℕ → (ℕ → Buffer) → ℕ
total_bytes zero buffers = 0
total_bytes (suc k) buffers = total_bytes k buffers + owned_bytes (buffers k)

-- No generation is past the state's, and the live buffers of the table have different ones.
pub record IsTagged (s : State) : Type 0 where
  pub bounded : s.generation ≤ uint32_max
  pub issued :
      (i : ℕ) → i < buffer_max → (s.buffers i).live ≡ true → (s.buffers i).generation ≤ s.generation
  pub distinct :
      (i j : ℕ)
      → i < buffer_max
      → j < buffer_max
      → (s.buffers i).live ≡ true
      → (s.buffers j).live ≡ true
      → (s.buffers i).generation ≡ (s.buffers j).generation
      → i ≡ j

-- What is counted as allocated is the bytes of the live buffers that are owned, 256 MiB at most.
pub record IsSound (s : State) : Type 0 where
  pub tagged : IsTagged s
  pub counted : s.allocated ≡ total_bytes buffer_max s.buffers
  pub limited : s.allocated ≤ 4 * bytes_max

total_bytes-update_out :
    (k : ℕ) (buffers : ℕ → Buffer) (i : ℕ) (b : Buffer)
    → k ≤ i
    → total_bytes k (update buffers i b) ≡ total_bytes k buffers
unfolding total_bytes
total_bytes-update_out zero buffers i b h = refl
total_bytes-update_out (suc k) buffers i b h =
    let other : (k == i) ≡ false = ground arith in
    rw (other, total_bytes-update_out k buffers i b (omega arith)) refl

pub total_bytes-update :
    (k : ℕ) (buffers : ℕ → Buffer) (i : ℕ) (b : Buffer)
    → i < k
    → total_bytes k (update buffers i b) + owned_bytes (buffers i)
      ≡ total_bytes k buffers + owned_bytes b
unfolding total_bytes
total_bytes-update zero buffers i b h = absurd (omega arith)
total_bytes-update (suc k) buffers i b h = elim (Bool-cases (k == i)) [
  | inl e ↦
      let same : k ≡ i = ground arith in
      let before = total_bytes-update_out k buffers i b (omega arith) in
      rw (e, before, same) (omega arith)
  | inr e ↦ let before = total_bytes-update k buffers i b (ground arith) in rw e (omega arith)
]

pub put_buffer-total :
    (s : State) (i : ℕ) (value : Buffer)
    → i < buffer_max
    → (s.buffers i).live ≡ false
    → total_bytes buffer_max (put_buffer s i value).buffers
      ≡ total_bytes buffer_max s.buffers + (if value.owned then value.length_ else 0)
unfolding put_buffer
put_buffer-total s i value lt free =
    let new = record value { live = true; generation = s.generation + 1 } in
    let change = total_bytes-update buffer_max s.buffers i new lt in
    let old : owned_bytes (s.buffers i) ≡ 0 = rw free refl in omega (arith, change, old)

pub put_buffer-IsTagged :
    (s : State) (i : ℕ) (value : Buffer)
    → i < buffer_max
    → (s.generation == uint32_max) ≡ false
    → IsTagged s
    → IsTagged (put_buffer s i value)
unfolding put_buffer
put_buffer-IsTagged s i value lt room t = record {
  bounded = let b = t.bounded in ground arith;
  issued = λ j lt' live. let old = t.issued j lt' in ground arith;
  distinct = λ j k ltj ltk livej livek same.
      let old = t.distinct j k ltj ltk in
      let oldj = t.issued j ltj in let oldk = t.issued k ltk in ground arith;
}

pub drop_buffer-IsTagged : (s : State) (i : ℕ) → IsTagged s → IsTagged (drop_buffer s i)
unfolding drop_buffer
drop_buffer-IsTagged s i t = record {
  bounded = t.bounded;
  issued = λ j lt live. let old = t.issued j lt in ground arith;
  distinct = λ j k ltj ltk livej livek same. let old = t.distinct j k ltj ltk in ground arith;
}
