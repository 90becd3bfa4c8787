-- ===== src/Materialize.antt =====
-- `nt_object_materialize` of bootstrap/quarantine/c/object_materialize.c: from a linked object to the
-- sections of an image, with each relocation resolved. NtArtifact and NtBaseReloc are of ntasm.h.
pub mod Sites
pub mod Loop
pub mod Values
pub mod Result
use nexoragenesis_toolchain.Base.{
  ℕ, zero, suc, ◌+◌, ◌-◌, Bool, true, false, ◌||◌, ◌&&◌, not, List, [], ◌∷◌, ◌++◌, Option, none,
  some, ◌==◌, ◌!=◌, if◌then◌else◌, length, get_elem?, get_or, replicate,
}
use nexoragenesis_toolchain.Outcome.{Outcome, ok, err, fail, fail_if, ◌>>=◌, ◌>>◌}
use nexoragenesis_toolchain.Memory.{Mem, bytes_of, load}
use nexoragenesis_toolchain.Object.{
  NtObject, NtObjectSymbol, NtObjectReloc, NtBuffer, Table, null, at, count, items, is_null,
  sections, has, import_flag, dir64,
}
use nexoragenesis_toolchain.Object.Validate.{validate}
use nexoragenesis_toolchain.PeLayout.{
  NtPeLayout, pe_layout, logical_rva, relocation_value, relocation_store,
}

pub record NtBaseReloc : Type 0 where
  pub section : ℕ
  pub offset : ℕ

-- NtArtifact, less its diagnostic, which is not set here.
pub record NtArtifact : Type 0 where
  pub text : NtBuffer
  pub pe : NtBuffer
  pub rdata : NtBuffer
  pub data_ : NtBuffer
  pub entry : ℕ
  pub base_relocations : Table NtBaseReloc

-- What nt_artifact_free leaves.
abbrev pub empty_artifact : NtArtifact
empty_artifact = record {
  text = null 0;
  pe = null 0;
  rdata = null 0;
  data_ = null 0;
  entry = 0;
  base_relocations = null 0;
}

unfoldable pub free_artifact : NtArtifact → NtArtifact
free_artifact a = empty_artifact

pub data Site : Type 0 where
  text_copy rdata_copy data_copy base_table : Site

unfoldable pub clone : Bool → NtBuffer → Outcome NtBuffer
clone alloc source =
    if count source == 0
    then ok (null 0)
    else if alloc
    then ok (at (items source))
    else err (fail 0 "artifact allocation failed")

-- absolute_count
unfoldable pub absolute_count : List NtObjectReloc → ℕ
absolute_count [] = 0
absolute_count (r ∷ rs) = (if r.kind == dir64 then 1 else 0) + absolute_count rs

unfoldable pub imports_left : List NtObjectSymbol → Bool
imports_left [] = false
imports_left (s ∷ ss) = has s.flags import_flag || imports_left ss

-- The bytes of a section after a store into them.
unfoldable pub patch : List ℕ → ℕ → ℕ → ℕ → List ℕ
patch xs offset width value = load (relocation_store (bytes_of xs) offset width value) 0 (length xs)

unfoldable pub patch_buffer : NtBuffer → ℕ → ℕ → ℕ → NtBuffer
unfolding patch
patch_buffer (null n) offset width value = null n
patch_buffer (at xs) offset width value = at (patch xs offset width value)

abbrev pub store_width : NtObjectReloc → ℕ
store_width r = if r.kind == dir64 then 8 else 4

-- The store at the site of `r`, and its base relocation.
unfoldable pub patch_section : NtArtifact → NtObjectReloc → ℕ → NtArtifact
patch_section a r value =
    if r.section == 1
    then record a { text = patch_buffer a.text r.offset (store_width r) value }
    else if r.section == 2
    then record a { rdata = patch_buffer a.rdata r.offset (store_width r) value }
    else record a { data_ = patch_buffer a.data_ r.offset (store_width r) value }

unfoldable pub note_base : NtArtifact → NtObjectReloc → NtArtifact
note_base a r =
    if r.kind == dir64
    then record a {
      base_relocations =
          at (items a.base_relocations ++ (record { section = r.section; offset = r.offset } ∷ []));
    }
    else a

-- The value of `r` against the symbol s.
unfoldable pub resolved : NtPeLayout → NtObjectReloc → NtObjectSymbol → Option ℕ
resolved l r s =
    relocation_value r.kind (logical_rva l r.section + r.offset)
      (logical_rva l s.section + s.offset) r.addend

-- The body of the loop over the relocations. A validated object has the symbol that `r` names.
unfoldable pub apply_reloc : NtObject → NtPeLayout → NtObjectReloc → NtArtifact → Outcome NtArtifact
apply_reloc o l r a = elim (get_elem? (items o.symbols) (r.target - 1)) [
  | none ↦ err (fail 0 "relocation arithmetic or displacement out of range")
  | some s ↦ elim (resolved l r s) [
    | none ↦ err (fail 0 "relocation arithmetic or displacement out of range")
    | some value ↦ ok (note_base (patch_section a r value) r)
  ]
]

unfoldable pub apply_relocs :
    NtObject → NtPeLayout → List NtObjectReloc → NtArtifact → Outcome NtArtifact
apply_relocs o l [] a = ok a
apply_relocs o l (r ∷ rs) a = do a' ← apply_reloc o l r a; apply_relocs o l rs a'

-- The offset of the entry, which a validated object has.
unfoldable pub entry_offset : NtObject → ℕ
entry_offset o = elim (get_elem? (items o.symbols) (o.entry_symbol - 1)) [
  | none ↦ 0
  | some s ↦ s.offset
]

-- The tests that come before the artifact is touched.
unfoldable pub materialize_prologue : NtObject → NtArtifact → Outcome NtPeLayout
materialize_prologue o a = do
  fail_if
      (not (is_null a.text)
        || not (is_null a.pe)
        || not (is_null a.rdata)
        || not (is_null a.data_)
        || not (is_null a.base_relocations))
      0 "artifact output must be empty"
  validate o
  fail_if (o.target != 1) 0 "PE materialization currently requires the UEFI target"
  fail_if (o.entry_symbol == 0) 0 "object library has no executable entry"
  fail_if (imports_left (items o.symbols)) 0 "unresolved object import"
  elim (pe_layout (count o.text) (count o.rdata) (count o.data_)) [
    | none ↦ err (fail 0 "section size exceeds PE profile")
    | some l ↦ ok l
  ]

-- The table of base relocations as `calloc` gives it, up to the count that the artifact has, which is
-- not reset: the loop appends behind it. Where that count is not 0 the source stores past the end of
-- what it allocates, which this list does not show.
unfoldable pub allocate_bases : ℕ → Table NtBaseReloc → Table NtBaseReloc
allocate_bases absolute old =
    if absolute == 0 then old else at (replicate (count old) (record { section = 0; offset = 0 }))

-- The copies, the table of base relocations and the loop; `pe` stays as it was.
unfoldable pub materialize_sections :
    (Site → Bool) → NtObject → NtArtifact → NtPeLayout → Outcome NtArtifact
materialize_sections alloc o a l = do
  text ← clone (alloc text_copy) o.text
  rdata ← clone (alloc rdata_copy) o.rdata
  data_ ← clone (alloc data_copy) o.data_
  fail_if (absolute_count (items o.relocations) != 0 && not (alloc base_table)) 0
      "base relocation allocation failed"
  apply_relocs o l (items o.relocations) (record {
    text = text;
    pe = a.pe;
    rdata = rdata;
    data_ = data_;
    entry = entry_offset o;
    base_relocations = allocate_bases (absolute_count (items o.relocations)) a.base_relocations;
  })

-- The outcome, and the artifact as the routine leaves it.
unfoldable pub materialize : (Site → Bool) → NtObject → NtArtifact → Outcome (Unit {0}) × NtArtifact
materialize alloc o a = elim (materialize_prologue o a) [
  | err e ↦ (err e, a)
  | ok l ↦ elim (materialize_sections alloc o a l) [
    | err e ↦ (err e, free_artifact a)
    | ok a' ↦ (ok tt, a')
  ]
]
