-- ===== src/Object/Validate.antt =====
-- `nt_object_validate` of object.c, loop by loop. A null object pointer is no value of `NtObject`.
use Prim.Native.Nat.{Ordering}
use nexoragenesis_toolchain.Base.{
  ℕ, ◌+◌, ◌-◌, Bool, true, false, ◌&&◌, ◌||◌, not, List, [], ◌∷◌, Option, none, some, ◌==◌, ◌!=◌,
  ltb, if◌then◌else◌, bit_and, get_elem?,
}
use nexoragenesis_toolchain.Outcome.{Outcome, ok, fail_if, ◌>>◌}
use nexoragenesis_toolchain.Memory.{span}
use nexoragenesis_toolchain.Object.Text.{text_length, strcmp}
use nexoragenesis_toolchain.Object.{
  NtObject, NtObjectSymbol, NtObjectReloc, NtBuffer, count, items, is_null, chars, sections,
  export_flag, function_flag, variable_flag, import_flag, rel32, dir64, has, max_file, max_symbols,
  max_relocs,
}

abbrev pub is_none {ℓ} : {A : Type ℓ} → Option A → Bool
is_none none = true
is_none (some a) = false

-- strcmp(previous, name) >= 0
abbrev pub not_before : List ℕ → List ℕ → Bool
not_before a b = elim (strcmp a b) [ Ordering.lt ↦ false | _ ↦ true ]

-- for (unsigned j = 0; j < 3; j++) over the section payloads
unfoldable pub validate_sections : List NtBuffer → Outcome (Unit {0})
validate_sections [] = ok tt
validate_sections (s ∷ ss) = do
  fail_if (ltb max_file (count s) || (count s != 0 && is_null s)) 0 "invalid section payload"
  validate_sections ss

-- The body of the loop over the symbols; `previous` is `o->symbols[j - 1]`.
unfoldable pub validate_symbol :
    NtObject → ℕ → Option NtObjectSymbol → NtObjectSymbol → Outcome (Unit {0})
validate_symbol o j previous s = do
  fail_if
      (is_none (text_length s.name 512)
        || is_none (text_length s.contract 65536)
        || elim previous [ none ↦ false | some p ↦ not_before (chars p.name) (chars s.name) ])
      j "invalid, duplicated or unsorted symbol name/contract"
  let role = bit_and s.flags 6
  fail_if
      (bit_and s.flags 0xfffffff0 != 0
        || (role != function_flag && role != variable_flag)
        || ltb 3 s.section)
      j "invalid symbol kind"
  if has s.flags import_flag
      then fail_if (s.section != 0 || s.offset != 0 || s.size != 0 || has s.flags export_flag) j
          "invalid import symbol"
      else fail_if
          (s.section == 0
            || not (span s.offset s.size (count (sections o (s.section - 1))))
            || (role == function_flag && (s.section != 1 || s.size == 0)))
          j "symbol outside its section"

unfoldable pub validate_symbols :
    NtObject → ℕ → Option NtObjectSymbol → List NtObjectSymbol → Outcome (Unit {0})
validate_symbols o j previous [] = ok tt
validate_symbols o j previous (s ∷ ss) = do
  validate_symbol o j previous s
  validate_symbols o (j + 1) (some s) ss

-- The entry, one-based; it is in range once its bound has been tested.
unfoldable pub validate_entry : NtObject → Outcome (Unit {0})
validate_entry o =
    if o.entry_symbol == 0
    then ok tt
    else if ltb (count o.symbols) o.entry_symbol
    then fail_if true 88 "invalid entry symbol"
    else elim (get_elem? (items o.symbols) (o.entry_symbol - 1)) [
      | none ↦ fail_if true 88 "invalid entry symbol"
      | some s ↦
          fail_if (s.section != 1 || not (has s.flags function_flag)) 88
            "entry is not a defined function"
    ]

unfoldable pub width : ℕ → ℕ
width kind = if kind == rel32 then 4 else if kind == dir64 then 8 else 0

-- The body of the loop over the relocations; `previous` is `r - 1`.
unfoldable pub validate_reloc :
    NtObject → ℕ → Option NtObjectReloc → NtObjectReloc → Outcome (Unit {0})
unfolding width
validate_reloc o j previous r = do
  fail_if
      (width r.kind == 0
        || ltb r.section 1
        || ltb 3 r.section
        || r.target == 0
        || ltb (count o.symbols) r.target
        || not (span r.offset (width r.kind) (count (sections o (r.section - 1)))))
      j "invalid relocation kind, site or target"
  elim previous [
    | none ↦ ok tt
    | some p ↦
        fail_if
          (ltb r.section p.section
            || (r.section == p.section
                && ltb r.offset (p.offset + (if p.kind == rel32 then 4 else 8))))
          j "relocations overlap or are not canonical"
  ]

unfoldable pub validate_relocs :
    NtObject → ℕ → Option NtObjectReloc → List NtObjectReloc → Outcome (Unit {0})
validate_relocs o j previous [] = ok tt
validate_relocs o j previous (r ∷ rs) = do
  validate_reloc o j previous r
  validate_relocs o (j + 1) (some r) rs

-- The two tests before the loops.
unfoldable pub validate_counts : NtObject → Outcome (Unit {0})
validate_counts o = do
  fail_if
      (ltb o.target 1
        || ltb 2 o.target
        || ltb max_symbols (count o.symbols)
        || ltb max_relocs (count o.relocations))
      0 "invalid target or object counts"
  fail_if
      ((count o.symbols != 0 && is_null o.symbols)
        || (count o.relocations != 0 && is_null o.relocations))
      0 "missing object tables"

unfoldable pub validate : NtObject → Outcome (Unit {0})
validate o = do
  validate_counts o
  validate_sections (o.text ∷ o.rdata ∷ o.data_ ∷ [])
  validate_symbols o 0 none (items o.symbols)
  validate_entry o
  validate_relocs o 0 none (items o.relocations)
