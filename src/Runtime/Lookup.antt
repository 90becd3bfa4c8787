-- ===== src/Runtime/Lookup.antt =====
-- Lookups of handles, and the search for a free slot.
use nexoragenesis_toolchain.Base.{
  ℕ, zero, suc, ◌+◌, ◌-◌, ◌/◌, ◌%◌, ◌^◌, ◌<◌, ◌≡◌, ◌≢◌, ◌⊎◌, inl, inr, refl, true, false, some,
  arith, Bool-cases,
}
use nexoragenesis_toolchain.Runtime.{
  Round, done, onward, Buffer, State, Context, buffer_max, find_buffer, find_free, handle,
}

-- What a lookup that succeeds says.
pub record Names (s : State) (id slot : ℕ) : Type 0 where
  pub slot_of : id % 2 ^ 32 ≡ slot + 1
  pub in_table : slot < buffer_max
  pub is_live : (s.buffers slot).live ≡ true
  pub same_generation : (s.buffers slot).generation ≡ id / 2 ^ 32

pub find_buffer-Names : (s : State) (id slot : ℕ) → find_buffer s id ≡ some slot → Names s id slot
unfolding find_buffer
find_buffer-Names s id slot h =
    let same : id % 2 ^ 32 - 1 ≡ slot = ground arith in
    let at_slot : id % 2 ^ 32 ≡ slot + 1 = ground arith in
    record {
      slot_of = at_slot;
      in_table = ground arith;
      is_live = rw (← same) (ground arith);
      same_generation = rw (← same) (ground arith);
    }

pub Names-find_buffer : (s : State) (id slot : ℕ) → Names s id slot → find_buffer s id ≡ some slot
unfolding find_buffer
Names-find_buffer s id slot n =
    let back : id % 2 ^ 32 - 1 ≡ slot = omega (arith, n.slot_of) in
    let some_slot : id % 2 ^ 32 ≢ 0 = omega (arith, n.slot_of) in
    rw back (ground (arith, n.slot_of, n.in_table, n.is_live, n.same_generation))

pub find_free_free :
    (left : ℕ) (buffers : ℕ → Buffer) (i slot : ℕ)
    → find_free left buffers i ≡ some slot
    → ((buffers slot).live ≡ false) × (slot < buffer_max)
unfolding find_free
find_free_free zero buffers i slot h = cc
find_free_free (suc left) buffers i slot h = elim (Bool-cases (buffers (i % buffer_max)).live) [
  | inl e ↦ find_free_free left buffers (i + 1) slot (ground (arith, e))
  | inr e ↦ let same : i % buffer_max ≡ slot = ground (arith, e) in rw (← same) (e, omega arith)
]

-- A handle gives back its slot and its generation.
pub handle_parts :
    (slot generation : ℕ)
    → slot < buffer_max
    → (handle slot generation % 2 ^ 32 ≡ slot + 1) × (handle slot generation / 2 ^ 32 ≡ generation)
unfolding handle
handle_parts slot generation h = omega arith

pub Round-cases :
    (r : Round)
    → ((p : ℕ) × (c : Context) × (r ≡ done p c)) ⊎ ((id : ℕ) × (i : ℕ) × (r ≡ onward id i))
Round-cases (done p c) = inl (p, c, refl)
Round-cases (onward id i) = inr (id, i, refl)
