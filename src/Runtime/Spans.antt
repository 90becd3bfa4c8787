-- ===== src/Runtime/Spans.antt =====
-- Pointers into buffers, for `resolve` of bootstrap/quarantine/c/nova/runtime_v2.c.
use nexoragenesis_toolchain.Base.{
  ℕ, zero, suc, ◌+◌, ◌≤◌, ◌≡◌, ◌≢◌, inl, inr, refl, sym, Bool, true, arith, Option-cases,
}
use nexoragenesis_toolchain.Runtime.{
  State, Context, buffer_max, find_buffer, resolve_round, resolve_loop, resolve, done,
}
use nexoragenesis_toolchain.Runtime.Lookup.{find_buffer-Names, Round-cases}

-- The n bytes at p lie in a live buffer that has no parent, which may be written if the caller asked.
pub record IsWithin (s : State) (p n : ℕ) (write : Bool) : Type 0 where
  pub slot : ℕ
  pub is_live : (s.buffers slot).live ≡ true
  pub is_root : (s.buffers slot).parent ≡ 0
  pub from_base : (s.buffers slot).base ≤ p
  pub to_end : p + n ≤ (s.buffers slot).base + (s.buffers slot).length_
  pub may_write : write ≡ true → (s.buffers slot).writable ≡ true

module _ (c : Context) (n : ℕ) (write : Bool) where
  round-IsWithin :
      (slot i p : ℕ) (c' : Context)
      → (c.state.buffers slot).live ≡ true
      → resolve_round c (c.state.buffers slot) i n write ≡ done p c'
      → p ≢ 0
      → IsWithin c.state p n write
  unfolding resolve_round
  round-IsWithin slot i p c' live h ne = record {
    slot = slot;
    is_live = live;
    is_root = ground arith;
    from_base = ground arith;
    to_end = ground arith;
    may_write = λ w. ground arith;
  }

  loop-IsWithin :
      (left id i p : ℕ)
      → (resolve_loop left c id i n write).0 ≡ p
      → p ≢ 0
      → IsWithin c.state p n write
  unfolding resolve_loop
  loop-IsWithin zero id i p h ne = absurd (ne (sym h))
  loop-IsWithin (suc left) id i p h ne = elim (Option-cases (find_buffer c.state id)) [
    | inl e ↦ absurd (ne (sym (rw (e, resolve_loop) at h)))
    | inr (slot, e) ↦ elim (Round-cases (resolve_round c (c.state.buffers slot) i n write)) [
      | inl (q, c', f) ↦
          let same : q ≡ p = rw (e, f, resolve_loop) at h in
          round-IsWithin slot i p c' (find_buffer-Names c.state id slot e).is_live (rw (← same) f)
            ne
      | inr (parent, i', f) ↦ loop-IsWithin left parent i' p (rw (e, f, resolve_loop) at h) ne
    ]
  ]

-- If `resolve` gives a pointer that is not null for n bytes, those bytes lie in the memory of one live
-- buffer without a parent, which is writable if the pointer is for writing; this holds through any
-- chain of slices.
pub resolve-IsWithin :
    (c : Context) (id i n : ℕ) (write : Bool)
    → (resolve c id i n write).0 ≢ 0
    → IsWithin c.state (resolve c id i n write).0 n write
unfolding resolve
resolve-IsWithin c id i n write ne = loop-IsWithin c n write buffer_max id i _ refl ne
