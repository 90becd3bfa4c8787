-- ===== src/Object/Spec.antt =====
-- Well-formed NXO objects: what `nt_object_validate` of object.c is to establish, without its loops.
use nexoragenesis_toolchain.Base.{
  ℕ, ◌+◌, ◌-◌, ◌≤◌, ◌<◌, ◌≡◌, ◌≢◌, ◌⊎◌, false, some, bit_and, get_elem?,
}
use nexoragenesis_toolchain.Object.Text.{IsText, IsAscii, Before}
use nexoragenesis_toolchain.Object.Validate.{width}
use nexoragenesis_toolchain.Object.{
  NtObject, NtObjectSymbol, NtObjectReloc, NtBuffer, count, items, is_null, chars, sections,
  max_file, max_symbols, max_relocs,
}

-- The names and contracts are C strings: texts with no 0 inside.
abbrev pub HasTexts : NtObjectSymbol → Type 0
HasTexts s = IsText (chars s.name) × IsText (chars s.contract)

-- An undefined symbol has no place and is not exported.
abbrev pub IsImport : NtObjectSymbol → Type 0
IsImport s =
    (bit_and s.flags 8 ≢ 0)
    × (s.section ≡ 0)
    × (s.offset ≡ 0)
    × (s.size ≡ 0)
    × (bit_and s.flags 1 ≡ 0)

-- A defined symbol lies in a section; a function has code.
abbrev pub IsDefined : NtObject → NtObjectSymbol → Type 0
IsDefined o s =
    (bit_and s.flags 8 ≡ 0)
    × (1 ≤ s.section)
    × (s.section ≤ 3)
    × (s.offset + s.size ≤ count (sections o (s.section - 1)))
    × (bit_and s.flags 6 ≡ 2 → (s.section ≡ 1) × (0 < s.size))

pub record IsSymbol (o : NtObject) (s : NtObjectSymbol) : Type 0 where
  pub named : IsAscii 512 s.name
  pub contracted : IsAscii 65536 s.contract
  pub flags_known : bit_and s.flags 0xfffffff0 ≡ 0
  pub role : (bit_and s.flags 6 ≡ 2) ⊎ (bit_and s.flags 6 ≡ 4)
  pub placed : IsImport s ⊎ IsDefined o s

pub record IsReloc (o : NtObject) (r : NtObjectReloc) : Type 0 where
  pub kind_known : (r.kind ≡ 1) ⊎ (r.kind ≡ 2)
  pub in_section : (1 ≤ r.section) × (r.section ≤ 3)
  pub has_target : (1 ≤ r.target) × (r.target ≤ count o.symbols)
  pub site : r.offset + width r.kind ≤ count (sections o (r.section - 1))

-- The site of `p` ends before that of `r` begins, or is in an earlier section.
abbrev pub Precedes : NtObjectReloc → NtObjectReloc → Type 0
Precedes p r =
    (p.section < r.section) ⊎ ((p.section ≡ r.section) × (p.offset + width p.kind ≤ r.offset))

abbrev pub IsPayload : NtBuffer → Type 0
IsPayload b = (count b ≤ max_file) × ((count b ≡ 0) ⊎ (is_null b ≡ false))

abbrev pub IsEntry : NtObject → Type 0
IsEntry o =
    (o.entry_symbol ≡ 0)
    ⊎ ((k : ℕ) × (s : NtObjectSymbol) × (o.entry_symbol ≡ k + 1)
        × (get_elem? (items o.symbols) k ≡ some s)
        × (s.section ≡ 1)
        × (bit_and s.flags 2 ≢ 0))

pub record WellFormed (o : NtObject) : Type 0 where
  pub target_known : (1 ≤ o.target) × (o.target ≤ 2)
  pub symbol_bound : count o.symbols ≤ max_symbols
  pub reloc_bound : count o.relocations ≤ max_relocs
  pub tables :
      ((count o.symbols ≡ 0) ⊎ (is_null o.symbols ≡ false))
      × ((count o.relocations ≡ 0) ⊎ (is_null o.relocations ≡ false))
  pub payloads : IsPayload o.text × IsPayload o.rdata × IsPayload o.data_
  pub each_symbol :
      (j : ℕ) (s : NtObjectSymbol) → get_elem? (items o.symbols) j ≡ some s → IsSymbol o s
  pub sorted :
      (i j : ℕ) (s t : NtObjectSymbol)
      → i < j
      → get_elem? (items o.symbols) i ≡ some s
      → get_elem? (items o.symbols) j ≡ some t
      → Before s.name t.name
  pub entry : IsEntry o
  pub each_reloc :
      (j : ℕ) (r : NtObjectReloc) → get_elem? (items o.relocations) j ≡ some r → IsReloc o r
  pub disjoint :
      (i j : ℕ) (p r : NtObjectReloc)
      → i < j
      → get_elem? (items o.relocations) i ≡ some p
      → get_elem? (items o.relocations) j ≡ some r
      → Precedes p r
