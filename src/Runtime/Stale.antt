-- ===== src/Runtime/Stale.antt =====
-- A handle that has been released never names a buffer again.
use nexoragenesis_toolchain.Base.{
  ℕ, zero, suc, ◌/◌, ◌^◌, ◌≤◌, ◌<◌, ◌≡◌, inl, inr, Bool, none, ◌==◌, arith, Bool-cases,
  Option-cases,
}
use nexoragenesis_toolchain.Runtime.{
  Buffer, State, Context, buffer_max, find_buffer, find_free, put_buffer, drop_buffer, raise,
  uint32_max, add_buffer, done, resolve_round, resolve_loop, nv2_runtime, nv2_lifetime, nv2_bounds,
  nv2_readonly, resolve,
}
use nexoragenesis_toolchain.Runtime.Lookup.{Round-cases, find_free_free}

-- A handle that has been given out and names no live buffer.
pub record IsStale (s : State) (h : ℕ) : Type 0 where
  pub issued : h / 2 ^ 32 ≤ s.generation
  pub unnamed : find_buffer s h ≡ none

-- A new buffer has a new generation, so it is none that a stale handle names.
put_buffer-IsStale :
    (s : State) (i h : ℕ) (value : Buffer)
    → i < buffer_max
    → IsStale s h
    → IsStale (put_buffer s i value) h
unfolding put_buffer find_buffer
put_buffer-IsStale s i h value lt st = record {
  issued = omega (arith, st.issued);
  unnamed = let a = st.issued in let b = st.unnamed in ground arith;
}

pub drop_buffer-IsStale : (s : State) (i h : ℕ) → IsStale s h → IsStale (drop_buffer s i) h
unfolding drop_buffer find_buffer
drop_buffer-IsStale s i h st = record {
  issued = st.issued;
  unnamed = let b = st.unnamed in ground arith;
}

pub raise_state : (c : Context) (code : ℕ) → (raise c code).state ≡ c.state
unfolding raise
raise_state c code = elim (Bool-cases (c.error == 0)) [ inl e ↦ rw e | inr e ↦ rw e ]

pub add_buffer-IsStale :
    (c : Context) (value : Buffer) (h : ℕ)
    → IsStale c.state h
    → IsStale (add_buffer c value).1.state h
unfolding add_buffer
add_buffer-IsStale c value h st = elim (Bool-cases (c.state.generation == uint32_max)) [
  | inl e ↦ rw (e, raise_state c nv2_runtime) st
  | inr e ↦ elim (Option-cases (find_free buffer_max c.state.buffers c.state.next_buffer)) [
    | inl f ↦ rw (e, f, add_buffer) (rw (raise_state c nv2_runtime) st)
    | inr (i, f) ↦
        rw (e, f, add_buffer)
          (put_buffer-IsStale c.state i h value
            (find_free_free buffer_max c.state.buffers c.state.next_buffer i f).1 st)
  ]
]

resolve_round_state :
    (c : Context) (b : Buffer) (i n : ℕ) (write : Bool) (p : ℕ) (c' : Context)
    → resolve_round c b i n write ≡ done p c'
    → c'.state ≡ c.state
unfolding resolve_round
resolve_round_state c b i n write p c' h =
    ground (arith, raise_state c nv2_bounds, raise_state c nv2_readonly)

resolve_loop_state :
    (left : ℕ) (c : Context) (id i n : ℕ) (write : Bool)
    → (resolve_loop left c id i n write).1.state ≡ c.state
unfolding resolve_loop
resolve_loop_state zero c id i n write = raise_state c nv2_lifetime
resolve_loop_state (suc left) c id i n write = elim (Option-cases (find_buffer c.state id)) [
  | inl e ↦ rw (e, resolve_loop) (raise_state c nv2_lifetime)
  | inr (slot, e) ↦ elim (Round-cases (resolve_round c (c.state.buffers slot) i n write)) [
    | inl (p, c', f) ↦
        rw (e, f, resolve_loop) (resolve_round_state c (c.state.buffers slot) i n write p c' f)
    | inr (parent, i', f) ↦ rw (e, f, resolve_loop) (resolve_loop_state left c parent i' n write)
  ]
]

pub resolve_state :
    (c : Context) (id i n : ℕ) (write : Bool) → (resolve c id i n write).1.state ≡ c.state
unfolding resolve
resolve_state c id i n write = resolve_loop_state buffer_max c id i n write
