-- ===== src/Runtime/Steps.antt =====
-- Properties of the state of bootstrap/quarantine/c/nova/runtime_v2.c that its four changes keep: a new
-- buffer, an allocation, a buffer that goes, and a literal that is made read-only.
pub mod Files
pub mod Run
use nexoragenesis_toolchain.Base.{
  ◌+◌, ◌∙◌, Option, not, length, ℕ, ◌-◌, ◌*◌, ◌≡◌, inl, inr, Bool, true, false, some, ◌==◌,
  Bool-cases, refl, Option-cases, ltb, ◌||◌, ◌&&◌, ◌!=◌, List, [], ◌∷◌, if◌then◌else◌,
}
use nexoragenesis_toolchain.Memory.{store}
use nexoragenesis_toolchain.Runtime.Files.{
  path_at, path, find_file, find_closed, put_file, drop_file, open_named, open_file, read_into,
  read_file, write_from, write_file, close_file, diagnose_at, diagnose,
}
use nexoragenesis_toolchain.Runtime.{
  handle, file_max, uint32_max, nv2_io, Buffer, State, Context, find_buffer, update, drop_buffer,
  raise, new_buffer, bytes_max, fill_zero, add_buffer, borrow, nv2_runtime, nv2_lifetime,
  nv2_bounds, nv2_argument, count_allocation, allocate, release, resolve, resolve_call, add_slice,
  slice, length_of, buffer_length, set_literal, literal, copy_source, copy_destination, copy_bytes,
  error_clear,
}
use nexoragenesis_toolchain.Runtime.Stale.{raise_state, resolve_state}
use nexoragenesis_toolchain.Runtime.Calls.{
  Call, borrows, allocates, releases, resolves, slices, lengths, literals, copies, clears, opens,
  reads, writes, closes, diagnoses, step, run,
}

-- The buffer of a slot, with another word on whether it may be written.
abbrev pub set_writable : State → ℕ → Bool → State
set_writable s slot writable = record s {
  buffers = update s.buffers slot (record (s.buffers slot) { writable = writable });
}

-- P is kept by each change of the state.
pub record IsKept (P : State → Type 0) : Type 0 where
  pub adds :
      (c : Context) (value : Buffer)
      → value.owned ≡ false
      → P c.state
      → P (add_buffer c value).1.state
  pub counts :
      (c : Context) (p n : ℕ)
      → (ltb bytes_max n || ltb (4 * bytes_max - n) c.state.allocated) ≡ false
      → P c.state
      → P (count_allocation n (add_buffer c (new_buffer p n 0 0 true true))).1.state
  pub drops : (s : State) (h slot : ℕ) → find_buffer s h ≡ some slot → P s → P (drop_buffer s slot)
  pub rewrites :
      (s : State) (h slot : ℕ) (writable : Bool)
      → find_buffer s h ≡ some slot
      → P s
      → P (set_writable s slot writable)
  pub opens :
      (s : State) (slot f : ℕ) (writable : Bool)
      → (s.generation == uint32_max) ≡ false
      → P s
      → P (put_file s slot f writable)
  pub closes : (s : State) (slot : ℕ) → P s → P (drop_file s slot)

module _ (P : State → Type 0) (k : IsKept P) where
  -- The context of a result has the property.
  pub record Leaves (r : ℕ × Context) : Type 0 where
    pub kept : P r.1.state

  pub leaves : (p : ℕ) (c : Context) → P c.state → Leaves (p, c)
  leaves p c st = record { kept = st }

  pub after_raise : (c : Context) (code : ℕ) → P c.state → P (raise c code).state
  after_raise c code st = rw (raise_state c code) st

  pub raised : (c : Context) (code : ℕ) → P c.state → Leaves (0, raise c code)
  raised c code st = record { kept = after_raise c code st }

  pub if-Leaves : (b : Bool) (r s : ℕ × Context) → Leaves r → Leaves s → Leaves (if b then r else s)
  if-Leaves true r s p q = p
  if-Leaves false r s p q = q

  pub if_false-Leaves :
      (b : Bool) (r s : ℕ × Context)
      → Leaves r
      → (b ≡ false → Leaves s)
      → Leaves (if b then r else s)
  if_false-Leaves true r s p q = p
  if_false-Leaves false r s p q = q refl

  pub borrow-Leaves :
      (c : Context) (p n : ℕ) (writable : Bool) → P c.state → Leaves (borrow c p n writable)
  unfolding borrow
  borrow-Leaves c p n writable st =
      let value = new_buffer p n 0 0 false writable in
      if-Leaves (c.error != 0) _ _ (leaves 0 c st) (
        if-Leaves (p == 0 && n != 0) _ _ (raised c nv2_argument st) (
          if-Leaves (ltb bytes_max n) (0, raise c nv2_bounds) (add_buffer c value)
            (raised c nv2_bounds st) (record { kept = k.adds c value refl st })))

  pub allocate-Leaves : (p : ℕ) (c : Context) (n : ℕ) → P c.state → Leaves (allocate p c n)
  unfolding allocate
  allocate-Leaves p c n st =
      let c' = record c { memory = fill_zero c.memory p n } in
      let value = new_buffer p n 0 0 true true in
      if-Leaves (c.error != 0) _ _ (leaves 0 c st) (
        if_false-Leaves (ltb bytes_max n || ltb (4 * bytes_max - n) c.state.allocated) _ _
          (raised c nv2_bounds st)
          (λ fits.
            if-Leaves (p == 0) (0, raise c nv2_runtime) (count_allocation n (add_buffer c' value))
              (raised c nv2_runtime st) (record { kept = k.counts c' p n fits st })))

  pub resolve-Leaves :
      (c : Context) (id i n : ℕ) (write : Bool) → P c.state → Leaves (resolve c id i n write)
  resolve-Leaves c id i n write st = record { kept = rw (resolve_state c id i n write) st }

  add_slice-Leaves :
      (h i n : ℕ) (writable : Bool) (r : ℕ × Context)
      → Leaves r
      → Leaves (add_slice h i n writable r)
  unfolding add_slice
  add_slice-Leaves h i n writable (p, c) r =
      if-Leaves (p == 0 && n != 0) (0, c) (add_buffer c (new_buffer 0 n i h false writable))
        (leaves 0 c r.kept)
        (record { kept = k.adds c (new_buffer 0 n i h false writable) refl r.kept })

  pub slice-Leaves : (c : Context) (h i n : ℕ) → P c.state → Leaves (slice c h i n)
  unfolding slice
  slice-Leaves c h i n st = elim (Bool-cases (c.error != 0)) [
    | inl e ↦ rw e (leaves 0 c st)
    | inr e ↦ elim (Option-cases (find_buffer c.state h)) [
      | inl f ↦ rw (e, f, slice) (raised c nv2_lifetime st)
      | inr (slot, f) ↦
          rw (e, f, slice)
            (if-Leaves _ _ _ (raised c nv2_bounds st)
              (add_slice-Leaves h i n _ _ (resolve-Leaves c h i n false st)))
    ]
  ]

  length_of-Leaves : (n : ℕ) (r : ℕ × Context) → Leaves r → Leaves (length_of n r)
  unfolding length_of
  length_of-Leaves n (p, c) r = if-Leaves _ _ _ (leaves 0 c r.kept) (leaves n c r.kept)

  pub buffer_length-Leaves : (c : Context) (h : ℕ) → P c.state → Leaves (buffer_length c h)
  unfolding buffer_length
  buffer_length-Leaves c h st = elim (Bool-cases (c.error != 0)) [
    | inl e ↦ rw e (leaves 0 c st)
    | inr e ↦ elim (Option-cases (find_buffer c.state h)) [
      | inl f ↦ rw (e, f, buffer_length) (raised c nv2_lifetime st)
      | inr (slot, f) ↦
          rw (e, f, buffer_length)
            (length_of-Leaves _ (resolve c h 0 0 false) (resolve-Leaves c h 0 0 false st))
    ]
  ]

  set_literal-Leaves :
      (p n : ℕ) (writable : Bool) (r : ℕ × Context) → Leaves r → Leaves (set_literal p n writable r)
  unfolding set_literal
  set_literal-Leaves p n writable (h, c) r = elim (Bool-cases (h == 0)) [
    | inl e ↦ rw (e, set_literal) r
    | inr e ↦ elim (Option-cases (find_buffer c.state h)) [
      | inl f ↦ rw (e, f, set_literal) (record { kept = after_raise c nv2_lifetime r.kept })
      | inr (slot, f) ↦
          rw (e, f, set_literal) (record { kept = k.rewrites c.state h slot writable f r.kept })
    ]
  ]

  pub literal-Leaves :
      (p : ℕ) (c : Context) (source n writable : ℕ)
      → P c.state
      → Leaves (literal p c source n writable)
  unfolding literal
  literal-Leaves p c source n writable st = if-Leaves _ _ _ (leaves 0 c st) (
      if-Leaves _ _ _ (raised c nv2_argument st)
        (set_literal-Leaves source n (writable != 0) (allocate p c n) (allocate-Leaves p c n st)))

  copy_source-Leaves : (d n : ℕ) (r : ℕ × Context) → Leaves r → Leaves (copy_source d n r)
  unfolding copy_source
  copy_source-Leaves d n (s, c) r = elim (Bool-cases (c.error != 0)) [
    | inl e ↦ rw (e, copy_source) (leaves 0 c r.kept)
    | inr e ↦ rw (e, copy_source) (record { kept = r.kept })
  ]

  pub copy_destination-Leaves :
      (source n : ℕ) (r : ℕ × Context) → Leaves r → Leaves (copy_destination source n r)
  unfolding copy_destination
  copy_destination-Leaves source n (d, c) r = if-Leaves _ _ _ (leaves 0 c r.kept) (
      copy_source-Leaves d n (resolve c source 0 n false)
        (resolve-Leaves c source 0 n false r.kept))

  pub release-kept : (c : Context) (h n : ℕ) → P c.state → P (release c h n).state
  unfolding release
  release-kept c h n st = elim (Bool-cases (c.error != 0)) [
    | inl e ↦ rw e st
    | inr e ↦ elim (Option-cases (find_buffer c.state h)) [
      | inl f ↦ rw (e, f, release) (after_raise c nv2_lifetime st)
      | inr (slot, f) ↦ elim (Bool-cases (n != (c.state.buffers slot).length_)) [
        | inl g ↦ rw (e, f, g, release) (after_raise c nv2_bounds st)
        | inr g ↦ rw (e, f, g, release) (k.drops c.state h slot f st)
      ]
    ]
  ]
