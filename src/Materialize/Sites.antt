-- ===== src/Materialize/Sites.antt =====
-- What one relocation changes.
use nexoragenesis_toolchain.Base.{
  ℕ, zero, suc, ◌+◌, ◌-◌, ◌≤◌, ◌<◌, ◌≡◌, ◌≢◌, ◌∙◌, ◌⊎◌, inl, inr, refl, ap, sym, List, [], ◌∷◌,
  ◌++◌, some, ◌==◌, if◌then◌else◌, length, get_or, arith, Bool-cases, Option-cases, get_elem?,
  ==_refl,
}
use native.Mathlib.Decide.{dec_lt}
use nexoragenesis_toolchain.Outcome.{ok}
use nexoragenesis_toolchain.Memory.{bytes_of, load, store, le_bytes}
use nexoragenesis_toolchain.Memory.Laws.{
  length-load, get_or-load, store_in, store_below, store_above, length-le_bytes,
}
use nexoragenesis_toolchain.Object.{
  NtObject, NtObjectReloc, NtObjectSymbol, NtBuffer, null, at, items, dir64,
}
use nexoragenesis_toolchain.PeLayout.{NtPeLayout, relocation_store}
use nexoragenesis_toolchain.Materialize.{
  NtArtifact, patch, patch_buffer, patch_section, note_base, store_width, resolved, apply_reloc,
}

get_or_past : (xs : List ℕ) (i : ℕ) → length xs ≤ i → get_or xs i 0 ≡ 0
get_or_past [] i h = refl
get_or_past (x ∷ xs) zero h = absurd (omega arith)
get_or_past (x ∷ xs) (suc i) h = get_or_past xs i (omega arith)

length-patch :
    (xs : List ℕ) (offset width value : ℕ) → length (patch xs offset width value) ≡ length xs
unfolding patch
length-patch xs offset width value = length-load _ 0 (length xs)

patch_at :
    (xs : List ℕ) (offset width value i : ℕ)
    → i < length xs
    → get_or (patch xs offset width value) i 0 ≡ store (bytes_of xs) offset (le_bytes width value) i
unfolding patch relocation_store
patch_at xs offset width value i h =
    get_or-load (store (bytes_of xs) offset (le_bytes width value)) 0 (length xs) i h
    ∙ ap (store (bytes_of xs) offset (le_bytes width value)) (omega arith)

-- Outside the site nothing changes.
patch_out :
    (xs : List ℕ) (offset width value i : ℕ)
    → (i < offset) ⊎ (offset + width ≤ i)
    → get_or (patch xs offset width value) i 0 ≡ get_or xs i 0
patch_out xs offset width value i h = elim (dec_lt i (length xs)) [
  | yes lt ↦ patch_at xs offset width value i lt ∙ elsewhere h
  | no ge ↦
      let len = length-patch xs offset width value in
      get_or_past (patch xs offset width value) i (omega arith)
      ∙ sym (get_or_past xs i (omega arith))
]
  where
    elsewhere :
        (i < offset) ⊎ (offset + width ≤ i)
        → store (bytes_of xs) offset (le_bytes width value) i ≡ get_or xs i 0
    elsewhere (inl lt) = store_below (bytes_of xs) offset (le_bytes width value) i lt
    elsewhere (inr ge) =
        store_above (bytes_of xs) offset (le_bytes width value) i (rw length-le_bytes ge)

patch_in :
    (xs : List ℕ) (offset width value k : ℕ)
    → k < width
    → offset + width ≤ length xs
    → get_or (patch xs offset width value) (offset + k) 0 ≡ get_or (le_bytes width value) k 0
patch_in xs offset width value k lt fit =
    patch_at xs offset width value (offset + k) (omega arith)
    ∙ store_in (bytes_of xs) offset (le_bytes width value) k (rw length-le_bytes lt)

-- The bytes of section 1, 2 or 3.
abbrev pub bytes : NtArtifact → ℕ → List ℕ
bytes a section =
    if section == 1 then items a.text else if section == 2 then items a.rdata else items a.data_

items-patch_buffer :
    (b : NtBuffer) (offset width value : ℕ)
    → (items (patch_buffer b offset width value) ≡ patch (items b) offset width value)
unfolding patch_buffer patch load
items-patch_buffer (null n) offset width value = refl
items-patch_buffer (at xs) offset width value = refl

bytes-note_base :
    (a : NtArtifact) (r : NtObjectReloc) (section : ℕ)
    → bytes (note_base a r) section ≡ bytes a section
unfolding note_base
bytes-note_base a r section = elim (Bool-cases (r.kind == dir64)) [ inl e ↦ rw e | inr e ↦ rw e ]

bytes-patch_section :
    (a : NtArtifact) (r : NtObjectReloc) (value : ℕ)
    → 1 ≤ r.section
    → r.section ≤ 3
    → (section : ℕ) → 1 ≤ section
    → section ≤ 3
    → bytes (patch_section a r value) section ≡ (
        if section == r.section
        then patch (bytes a section) r.offset (store_width r) value
        else bytes a section)
unfolding patch_section
bytes-patch_section a r value lo hi section lo' hi' = ground (
  arith,
  items-patch_buffer a.text r.offset (store_width r) value,
  items-patch_buffer a.rdata r.offset (store_width r) value,
  items-patch_buffer a.data_ r.offset (store_width r) value,
)

-- The sites of `r` are bytes of its section.
abbrev pub SiteFits : NtArtifact → NtObjectReloc → Type 0
SiteFits a r =
    (1 ≤ r.section) × (r.section ≤ 3) × (r.offset + store_width r ≤ length (bytes a r.section))

-- Not a byte of the site of `r`.
abbrev pub Off : NtObjectReloc → ℕ → ℕ → Type 0
Off r section i = (section ≢ r.section) ⊎ ((i < r.offset) ⊎ (r.offset + store_width r ≤ i))

-- A step that succeeds stores the resolved value at its site and changes no other byte.
pub record Applied (l : NtPeLayout) (o : NtObject) (r : NtObjectReloc) (a a' : NtArtifact)
    : Type 0 where
  pub symbol : NtObjectSymbol
  pub symbol_named : get_elem? (items o.symbols) (r.target - 1) ≡ some symbol
  pub value : ℕ
  pub value_resolved : resolved l r symbol ≡ some value
  pub stored : a' ≡ note_base (patch_section a r value) r

pub apply_reloc-Applied :
    (o : NtObject) (l : NtPeLayout) (r : NtObjectReloc) (a a' : NtArtifact)
    → apply_reloc o l r a ≡ ok a'
    → Applied l o r a a'
unfolding apply_reloc
apply_reloc-Applied o l r a a' h =
    elim (Option-cases (get_elem? (items o.symbols) (r.target - 1))) [
      | inl e ↦ absurd (ground (arith, e))
      | inr (s, e) ↦ elim (Option-cases (resolved l r s)) [
        | inl f ↦ absurd (ground (arith, e, f))
        | inr (v, f) ↦ record {
          symbol = s;
          symbol_named = e;
          value = v;
          value_resolved = f;
          stored = ground (arith, e, f);
        }
      ]
    ]

module _ (l : NtPeLayout) (o : NtObject) (r : NtObjectReloc) (a a' : NtArtifact)
    (p : Applied l o r a a') where
  step_bytes :
      1 ≤ r.section
      → r.section ≤ 3
      → (section : ℕ) → 1 ≤ section
      → section ≤ 3
      → bytes a' section ≡ (
          if section == r.section
          then patch (bytes a section) r.offset (store_width r) p.value
          else bytes a section)
  step_bytes lo hi section lo' hi' = rw p.stored (
      bytes-note_base (patch_section a r p.value) r section
      ∙ bytes-patch_section a r p.value lo hi section lo' hi')

  pub step_length :
      1 ≤ r.section
      → r.section ≤ 3
      → (section : ℕ) → 1 ≤ section
      → section ≤ 3
      → length (bytes a' section) ≡ length (bytes a section)
  step_length lo hi section lo' hi' =
      rw (step_bytes lo hi section lo' hi') (elim (Bool-cases (section == r.section)) [
        | inl e ↦ rw e (length-patch (bytes a section) r.offset (store_width r) p.value)
        | inr e ↦ rw e
      ])

  pub step-Off :
      1 ≤ r.section
      → r.section ≤ 3
      → (section i : ℕ) → 1 ≤ section
      → section ≤ 3
      → Off r section i
      → get_or (bytes a' section) i 0 ≡ get_or (bytes a section) i 0
  step-Off lo hi section i lo' hi' off =
      rw (step_bytes lo hi section lo' hi') (elim (Bool-cases (section == r.section)) [
        | inl e ↦
            rw e (patch_out (bytes a section) r.offset (store_width r) p.value i (ground arith))
        | inr e ↦ rw e
      ])

  pub step_site :
      SiteFits a r
      → (k : ℕ) → k < store_width r
      → get_or (bytes a' r.section) (r.offset + k) 0 ≡ get_or (le_bytes (store_width r) p.value) k 0
  step_site fit k lt =
      rw (step_bytes fit.0 fit.1 r.section fit.0 fit.1, ==_refl r.section)
        (patch_in (bytes a r.section) r.offset (store_width r) p.value k lt fit.2)

  -- A DIR64 site is noted as a base relocation.
  pub step_bases : items a'.base_relocations ≡ (
      if r.kind == dir64
      then items a.base_relocations ++ (record { section = r.section; offset = r.offset } ∷ [])
      else items a.base_relocations)
  unfolding note_base patch_section
  step_bases = rw p.stored (ground arith)
