-- ===== src/Link.antt =====
-- `nt_object_link` of bootstrap/quarantine/c/object_link.c: the units are laid one after another, the
-- definitions are sorted by name, imports are looked up among them, and relocations are moved.
-- `failure(error, text)` there is `fail e 0 text`.
pub mod Find
pub mod Sort
pub mod Closed
use Prim.Native.Nat.{Ordering}
use nexoragenesis_toolchain.Base.{
  ℕ, zero, suc, ◌+◌, ◌-◌, ◌/◌, Bool, true, false, ◌||◌, ◌&&◌, not, List, [], ◌∷◌, ◌++◌, Option,
  none, some, ◌==◌, ◌!=◌, ltb, leb, if◌then◌else◌, length, get_elem?, get_or, set, bit_and,
}
use nexoragenesis_toolchain.Outcome.{Outcome, ok, err, fail, fail_if, ◌>>=◌, ◌>>◌}
use nexoragenesis_toolchain.Memory.{Mem, zeroed, store, load, aligned}
use nexoragenesis_toolchain.Object.{
  NtObject, NtObjectSymbol, NtObjectReloc, NtBuffer, Table, null, at, count, items, is_null, chars,
  sections, has, import_flag, export_flag,
}
use nexoragenesis_toolchain.Object.Text.{strcmp}
use nexoragenesis_toolchain.Object.Validate.{validate}
use Sort.{Definition, qsort_definitions, qsort_relocs}
use Find.{find, same_text}

abbrev pub link_bytes : ℕ
link_bytes = 67108864

-- bases[i][0..2]
pub record Bases : Type 0 where
  pub base0 : ℕ
  pub base1 : ℕ
  pub base2 : ℕ

abbrev pub base_at : Bases → ℕ → ℕ
base_at b zero = b.base0
base_at b (suc zero) = b.base1
base_at b (suc (suc k)) = b.base2

-- The counters of the first loop: totals[3], prefixes[i], relocations, entries and definitions.
pub record Scan : Type 0 where
  pub total0 : ℕ
  pub total1 : ℕ
  pub total2 : ℕ
  pub prefix : ℕ
  pub relocations : ℕ
  pub entries : ℕ
  pub definitions : ℕ

abbrev pub start : Scan
start = record {
  total0 = 0;
  total1 = 0;
  total2 = 0;
  prefix = 0;
  relocations = 0;
  entries = 0;
  definitions = 0;
}

unfoldable pub count_definitions : List NtObjectSymbol → ℕ
count_definitions [] = 0
count_definitions (s ∷ ss) = (if has s.flags import_flag then 0 else 1) + count_definitions ss

-- The base of a section after `total` bytes, if the section fits.
unfoldable pub section_base : ℕ → NtBuffer → Outcome ℕ
section_base total section = do
  fail_if (ltb link_bytes (aligned total) || ltb (link_bytes - aligned total) (count section)) 0
      "linked section size limit"
  ok (aligned total)

-- The body of the first loop: the bases of a unit, and the counters after it.
unfoldable pub scan_unit : ℕ → NtObject → Scan → Outcome (Bases × Scan)
scan_unit target o s = do
  validate o
  fail_if (o.target != target) 0 "mixed object targets"
  let entries = (if o.entry_symbol != 0 then s.entries + 1 else s.entries)
  fail_if (o.entry_symbol != 0 && ltb 1 entries) 0 "multiple executable entries"
  fail_if
      (ltb (65536 - s.prefix) (count o.symbols)
        || ltb (1048576 - s.relocations) (count o.relocations))
      0 "link metadata limit"
  base0 ← section_base s.total0 o.text
  base1 ← section_base s.total1 o.rdata
  base2 ← section_base s.total2 o.data_
  ok (
    record { base0 = base0; base1 = base1; base2 = base2 },
    record {
      total0 = base0 + count o.text;
      total1 = base1 + count o.rdata;
      total2 = base2 + count o.data_;
      prefix = s.prefix + count o.symbols;
      relocations = s.relocations + count o.relocations;
      entries = entries;
      definitions = s.definitions + count_definitions (items o.symbols);
    },
  )

-- A unit with its bases and its prefix.
pub record Placed : Type 0 where
  pub unit : NtObject
  pub bases : Bases
  pub prefix : ℕ

unfoldable pub scan_units : ℕ → List NtObject → Scan → Outcome (List Placed × Scan)
scan_units target [] s = ok ([], s)
scan_units target (o ∷ os) s = do
  (b, s') ← scan_unit target o s
  (ps, end) ← scan_units target os s'
  ok (record { unit = o; bases = b; prefix = s.prefix } ∷ ps, end)

-- memcpy of section k of each unit to its base.
unfoldable pub copy_sections : List Placed → ℕ → Mem → Mem
copy_sections [] k m = m
copy_sections (p ∷ ps) k m =
    copy_sections ps k (store m (base_at p.bases k) (items (sections p.unit k)))

unfoldable pub linked_section : List Placed → ℕ → ℕ → NtBuffer
linked_section ps k total =
    if total == 0 then null 0 else at (load (copy_sections ps k zeroed) 0 total)

-- order[]: the definitions of a unit from its symbol j, with the base of the section they lie in and
-- their place in `map`.
unfoldable pub unit_definitions : Placed → ℕ → List NtObjectSymbol → List Definition
unit_definitions p j [] = []
unit_definitions p j (s ∷ ss) =
    let rest = unit_definitions p (j + 1) ss in
    if has s.flags import_flag
    then rest
    else record { symbol = s; base = base_at p.bases (s.section - 1); slot = p.prefix + j } ∷ rest

unfoldable pub all_definitions : List Placed → List Definition
all_definitions [] = []
all_definitions (p ∷ ps) = unit_definitions p 0 (items p.unit.symbols) ++ all_definitions ps

pub data Site : Type 0 where
  order_table map_table symbol_table reloc_table : Site
  section_copy name_copy contract_copy : ℕ → Site

abbrev pub moved : NtObjectSymbol → ℕ → NtObjectSymbol
moved s base = record s { offset = s.offset + base }

-- The loop over the sorted definitions, from the one of index j: result.symbols, and map[].
unfoldable pub place_definitions :
    (Site → Bool)
    → ℕ
    → Option Definition
    → List Definition
    → List ℕ
    → Outcome (List NtObjectSymbol × List ℕ)
place_definitions alloc j previous [] slots = ok ([], slots)
place_definitions alloc j previous (d ∷ ds) slots = do
  fail_if
      (elim previous [
        | none ↦ false
        | some p ↦ same_text (chars p.symbol.name) (chars d.symbol.name)
      ])
      0 "duplicate symbol definition"
  fail_if (not (alloc (name_copy j)) || not (alloc (contract_copy j))) 0 "link allocation failed"
  (rest, slots') ← place_definitions alloc (j + 1) (some d) ds (set slots d.slot (j + 1))
  ok (moved d.symbol d.base ∷ rest, slots')

-- An import must name an exported definition of the same kind and contract; its one-based index.
unfoldable pub resolve : List NtObjectSymbol → NtObjectSymbol → Outcome ℕ
resolve symbols s =
    let target = find symbols (chars s.name) in
    let found = get_elem? symbols (target - 1) in
    do
      fail_if (target == 0 || elim found [ none ↦ true | some d ↦ not (has d.flags export_flag) ]) 0
          "unresolved import or definition not exported"
      fail_if
          (elim found [
            | none ↦ true
            | some d ↦
                bit_and s.flags 6 != bit_and d.flags 6
                || not (same_text (chars s.contract) (chars d.contract))
          ])
          0 "import kind or canonical contract mismatch"
      ok target

unfoldable pub resolve_imports :
    List NtObjectSymbol → ℕ → List NtObjectSymbol → List ℕ → Outcome (List ℕ)
resolve_imports symbols slot [] slots = ok slots
resolve_imports symbols slot (s ∷ ss) slots = do
  slots' ←
      (if has s.flags import_flag
        then (do target ← resolve symbols s; ok (set slots slot target))
        else ok slots)
  resolve_imports symbols (slot + 1) ss slots'

-- The loop over the units: map[] for their imports, and the entry.
unfoldable pub resolve_units : List NtObjectSymbol → List Placed → List ℕ → ℕ → Outcome (List ℕ × ℕ)
resolve_units symbols [] slots entry = ok (slots, entry)
resolve_units symbols (p ∷ ps) slots entry = do
  slots' ← resolve_imports symbols p.prefix (items p.unit.symbols) slots
  resolve_units symbols ps slots' (
      if p.unit.entry_symbol != 0
      then get_or slots' (p.prefix + p.unit.entry_symbol - 1) 0
      else entry)

-- A relocation of a unit, moved to the linked section and to the linked symbol.
unfoldable pub moved_reloc : List ℕ → Placed → NtObjectReloc → NtObjectReloc
moved_reloc slots p r = record r {
  offset = r.offset + base_at p.bases (r.section - 1);
  target = get_or slots (p.prefix + r.target - 1) 0;
}

unfoldable pub unit_relocs : List ℕ → Placed → List NtObjectReloc → List NtObjectReloc
unfolding moved_reloc
unit_relocs slots p [] = []
unit_relocs slots p (r ∷ rs) = moved_reloc slots p r ∷ unit_relocs slots p rs

unfoldable pub all_relocs : List ℕ → List Placed → List NtObjectReloc
all_relocs slots [] = []
all_relocs slots (p ∷ ps) = unit_relocs slots p (items p.unit.relocations) ++ all_relocs slots ps

unfoldable pub zeros : ℕ → List ℕ
zeros zero = []
zeros (suc n) = 0 ∷ zeros n

-- The output must be zeroed.
unfoldable pub output_in_use : NtObject → Bool
output_in_use o =
    o.owned
    || not (is_null o.symbols)
    || not (is_null o.relocations)
    || count o.symbols != 0
    || count o.relocations != 0

unfoldable pub section_in_use : NtBuffer → Bool
section_in_use b = not (is_null b) || count b != 0

unfoldable pub sections_in_use : NtObject → Bool
unfolding section_in_use
sections_in_use o = section_in_use o.text || section_in_use o.rdata || section_in_use o.data_

-- The allocations before the copies; those of the sections are made where there are bytes.
unfoldable pub link_allocations : (Site → Bool) → Scan → Outcome (Unit {0})
link_allocations alloc s =
    fail_if
      (not (alloc order_table)
        || not (alloc map_table)
        || not (alloc symbol_table)
        || not (alloc reloc_table)
        || (s.total0 != 0 && not (alloc (section_copy 0)))
        || (s.total1 != 0 && not (alloc (section_copy 1)))
        || (s.total2 != 0 && not (alloc (section_copy 2))))
      0 "link allocation failed"

-- The linked object from the placed units.
unfoldable pub link_placed : (Site → Bool) → ℕ → List Placed → Scan → Outcome NtObject
link_placed alloc target ps s = do
  fail_if (ltb link_bytes (s.total0 + s.total1 + s.total2)) 0 "linked payload limit"
  link_allocations alloc s
  (symbols, slots) ←
      place_definitions alloc 0 none (qsort_definitions (all_definitions ps)) (zeros s.prefix)
  (slots', entry) ← resolve_units symbols ps slots 0
  let result : NtObject = record {
    target = target;
    entry_symbol = entry;
    text = linked_section ps 0 s.total0;
    rdata = linked_section ps 1 s.total1;
    data_ = linked_section ps 2 s.total2;
    symbols = at symbols;
    relocations = at (qsort_relocs (all_relocs slots' ps));
    owned = true;
  }
  validate result
  ok result

-- The result is what `*output` becomes; on failure `*output` is left alone.
unfoldable pub link : (Site → Bool) → List NtObject → NtObject → Outcome NtObject
link alloc [] output = err (fail 0 "invalid link unit count")
link alloc (o ∷ os) output = do
  fail_if (ltb 64 (length (o ∷ os))) 0 "invalid link unit count"
  fail_if (output_in_use output) 0 "link output must be empty"
  fail_if (sections_in_use output) 0 "link output must be empty"
  (ps, s) ← scan_units o.target (o ∷ os) start
  link_placed alloc o.target ps s
