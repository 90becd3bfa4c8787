-- ===== src/Runtime/Steps/Files.antt =====
-- The calls on files of bootstrap/quarantine/c/nova/runtime_v2.c keep what the changes of the state keep.
use nexoragenesis_toolchain.Base.{
  ◌+◌, ◌∙◌, Option, none, some, arith, not, length, ℕ, ◌≡◌, inl, inr, Bool, true, false, some, ◌==◌,
  Bool-cases, Option-cases, ltb, ◌||◌, ◌&&◌, ◌!=◌, List,
}
use nexoragenesis_toolchain.Memory.{store}
use nexoragenesis_toolchain.Runtime.Files.{
  path_at, path, find_file, find_closed, put_file, drop_file, open_named, open_file, read_into,
  read_file, write_from, write_file, close_file, diagnose_at, diagnose,
}
use nexoragenesis_toolchain.Runtime.{
  handle, file_max, uint32_max, nv2_io, State, Context, raise, nv2_runtime, nv2_lifetime,
  nv2_argument, resolve,
}
use nexoragenesis_toolchain.Runtime.Stale.{raise_state, resolve_state}
use nexoragenesis_toolchain.Runtime.Steps.{
  IsKept, Leaves, leaves, raised, if-Leaves, if_false-Leaves, after_raise, resolve-Leaves,
}

-- Looking a path up changes no state.
path_at_state : (alloc : Bool) (n : ℕ) (r : ℕ × Context) → (path_at alloc n r).1.state ≡ r.1.state
unfolding path_at
path_at_state alloc n (p, c) = ground (arith, raise_state c nv2_argument, raise_state c nv2_runtime)

path_state : (alloc : Bool) (c : Context) (h n : ℕ) → (path alloc c h n).1.state ≡ c.state
unfolding path
path_state alloc c h n = elim (Bool-cases (n == 0 || ltb 4096 n)) [
  | inl e ↦ rw (e, path) (raise_state c nv2_argument)
  | inr e ↦
      rw (e, path) (path_at_state alloc n (resolve c h 0 n false) ∙ resolve_state c h 0 n false)
]

module _ (P : State → Type 0) (k : IsKept P) where
  open_named-Leaves :
      (fopen : List ℕ → Bool → ℕ) (slot : ℕ) (writable : Bool) (r : Option (List ℕ) × Context)
      → (r.1.state.generation == uint32_max) ≡ false
      → P r.1.state
      → Leaves P k (open_named fopen slot writable r)
  unfolding open_named
  open_named-Leaves fopen slot writable (none, c) room st = leaves P k 0 c st
  open_named-Leaves fopen slot writable (some name, c) room st =
      if-Leaves P k (fopen name writable == 0) _
        (
          handle slot (c.state.generation + 1),
          record c { state = put_file c.state slot (fopen name writable) writable },
        )
        (raised P k c nv2_io st)
        (record { kept = k.opens c.state slot (fopen name writable) writable room st })

  pub open_file-Leaves :
      (alloc : Bool) (fopen : List ℕ → Bool → ℕ) (c : Context) (h n : ℕ) (writable : Bool)
      → P c.state
      → Leaves P k (open_file alloc fopen c h n writable)
  unfolding open_file
  open_file-Leaves alloc fopen c h n writable st =
      if-Leaves P k (c.error != 0) _ _ (leaves P k 0 c st) (
        if_false-Leaves P k (c.state.generation == uint32_max) _ _ (raised P k c nv2_runtime st)
          (λ room.
            let same = path_state alloc c h n in
            elim (Option-cases (find_closed file_max c.state.files 0)) [
              | inl e ↦ rw e (raised P k c nv2_runtime st)
              | inr (slot, e) ↦ rw e (
                  open_named-Leaves fopen slot writable (path alloc c h n) (rw same room)
                    (rw same st))
            ]))

  read_into-Leaves :
      (bytes : List ℕ) (ferror : Bool) (n : ℕ) (r : ℕ × Context)
      → Leaves P k r
      → Leaves P k (read_into bytes ferror n r)
  unfolding read_into
  read_into-Leaves bytes ferror n (p, c) r =
      let c' = record c { memory = store c.memory p bytes } in
      if-Leaves P k (p == 0 && n != 0) _ _ (leaves P k 0 c r.kept) (
        if-Leaves P k ferror (0, raise c' nv2_io) (length bytes, c') (raised P k c' nv2_io r.kept)
          (leaves P k (length bytes) c' r.kept))

  pub read_file-Leaves :
      (bytes : List ℕ) (ferror : Bool) (c : Context) (h buf n : ℕ)
      → P c.state
      → Leaves P k (read_file bytes ferror c h buf n)
  unfolding read_file
  read_file-Leaves bytes ferror c h buf n st =
      if-Leaves P k (c.error != 0) _ _ (leaves P k 0 c st)
        (elim (Option-cases (find_file c.state h)) [
          | inl e ↦ rw e (raised P k c nv2_lifetime st)
          | inr (slot, e) ↦ rw e (
              if-Leaves P k (c.state.files slot).writable _ _ (raised P k c nv2_io st) (
                read_into-Leaves bytes ferror n (resolve c buf 0 n true)
                  (resolve-Leaves P k c buf 0 n true st)))
        ])

  write_from-Leaves :
      (size : ℕ) (ferror : Bool) (n : ℕ) (r : ℕ × Context)
      → Leaves P k r
      → Leaves P k (write_from size ferror n r)
  unfolding write_from
  write_from-Leaves size ferror n (p, c) r =
      if-Leaves P k (p == 0 && n != 0) _ _ (leaves P k 0 c r.kept) (
        if-Leaves P k (size != n || ferror) _ _ (raised P k c nv2_io r.kept)
          (leaves P k size c r.kept))

  pub write_file-Leaves :
      (size : ℕ) (ferror : Bool) (c : Context) (h buf n : ℕ)
      → P c.state
      → Leaves P k (write_file size ferror c h buf n)
  unfolding write_file
  write_file-Leaves size ferror c h buf n st =
      if-Leaves P k (c.error != 0) _ _ (leaves P k 0 c st)
        (elim (Option-cases (find_file c.state h)) [
          | inl e ↦ rw e (raised P k c nv2_lifetime st)
          | inr (slot, e) ↦ rw e (
              if-Leaves P k (not (c.state.files slot).writable) _ _ (raised P k c nv2_io st) (
                write_from-Leaves size ferror n (resolve c buf 0 n false)
                  (resolve-Leaves P k c buf 0 n false st)))
        ])

  pub close_file-kept :
      (failed : Bool) (c : Context) (h : ℕ) → P c.state → P (close_file failed c h).state
  unfolding close_file
  close_file-kept failed c h st = elim (Bool-cases (c.error != 0)) [
    | inl e ↦ rw e st
    | inr e ↦ elim (Option-cases (find_file c.state h)) [
      | inl f ↦ rw (e, f, close_file) (after_raise P k c nv2_lifetime st)
      | inr (slot, f) ↦
          let c' = record c { state = drop_file c.state slot } in
          let shut = k.closes c.state slot st in
          elim (Bool-cases failed) [
            | inl g ↦ rw (e, f, g, close_file) (after_raise P k c' nv2_io shut)
            | inr g ↦ rw (e, f, g, close_file) shut
          ]
    ]
  ]

  diagnose_at-kept : (size n : ℕ) (r : ℕ × Context) → Leaves P k r → P (diagnose_at size n r).state
  unfolding diagnose_at
  diagnose_at-kept size n (p, c) r = elim (Bool-cases (p == 0 && n != 0)) [
    | inl e ↦ rw (e, diagnose_at) r.kept
    | inr e ↦ elim (Bool-cases (size != n)) [
      | inl f ↦ rw (e, f, diagnose_at) (after_raise P k c nv2_io r.kept)
      | inr f ↦ rw (e, f, diagnose_at) r.kept
    ]
  ]

  pub diagnose-kept : (size : ℕ) (c : Context) (h n : ℕ) → P c.state → P (diagnose size c h n).state
  unfolding diagnose
  diagnose-kept size c h n st = elim (Bool-cases (c.error != 0)) [
    | inl e ↦ rw e st
    | inr e ↦
        rw (e, diagnose)
          (diagnose_at-kept size n (resolve c h 0 n false) (resolve-Leaves P k c h 0 n false st))
  ]
