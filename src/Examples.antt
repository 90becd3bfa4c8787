-- ===== src/Examples.antt =====
-- Two small units, what the routines do with them, and the theorems at them.
mod Handles
mod Images
mod Instructions
mod Sources
use nexoragenesis_toolchain.X64.{NtX64Operand, x64_mem}
use nexoragenesis_toolchain.X64.Modrm.{modrm}
use nexoragenesis_toolchain.X64.Encode.{no_bytes}
use nexoragenesis_toolchain.X64.Length.{modrm-Within, Within}
use nexoragenesis_toolchain.Base.{
  ℕ, zero, suc, ◌+◌, ◌≤◌, ◌<◌, ◌≡◌, ◌≢◌, ◌↔◌, ◌⊎◌, ◌^◌, ◌%◌, refl, Bool, true, false, List, [], ◌∷◌,
  Option, none, some, length, All, arith, get_or, ltb, if◌then◌else◌,
}
use nexoragenesis_toolchain.Outcome.{fail, Outcome, ok, err, NtDiagnostic}
use nexoragenesis_toolchain.Memory.Laws.{r64-w64, zero_bytes_iff}
use nexoragenesis_toolchain.Object.{
  free_object, NtObject, NtObjectSymbol, NtObjectReloc, Table, null, at, items, empty_object,
}
use nexoragenesis_toolchain.Object.Spec.{HasTexts, WellFormed}
use nexoragenesis_toolchain.Object.Validity.{validate_iff}
use nexoragenesis_toolchain.Object.Read.Local.{read_local}
use nexoragenesis_toolchain.Object.Read.Result.{read_result, IsRead}
use nexoragenesis_toolchain.PeLayout.Order.{pe_layout-IsLayout, IsLayout, SizesFit}
use nexoragenesis_toolchain.PeLayout.Value.{rel32_iff, dir64_iff, sign_extend}
use nexoragenesis_toolchain.Link.Closed.{link-IsLinked, IsLinked, UnitTexts}
use nexoragenesis_toolchain.Materialize.Result.{materialize-IsMaterialized, IsMaterialized}
use nexoragenesis_toolchain.Object.Text.{
  text_loop, text_length, strcmp, text_length_iff, IsText, IsAscii,
}
use nexoragenesis_toolchain.Object.Validate.{
  validate_sections, validate_symbol, validate_symbols, validate_entry, width, validate_reloc,
  validate_relocs, validate_counts, validate,
}
use nexoragenesis_toolchain.Object.Read.{
  Site, payload, symbol_table, reloc_table, name_text, contract_text, magic_differs, has_zero,
  header, bad_version, bad_tables, read_tables, read_layout, bad_section, read_section,
  read_sections, symbol_at, bad_texts, bad_reserved, bad_symbol, read_symbol, read_symbols,
  reloc_at, read_reloc, read_relocs, read_payload, copy_text, more_symbols, more_relocs,
  begin_object, allocate_symbols, allocate_relocs, end_symbols, fill_symbols, fill_relocs,
  fill_text, fill_rdata, fill_data, check_object, clean_up, fill, read_prologue, read,
}
use nexoragenesis_toolchain.Object.Write.Stored.{Found}
use nexoragenesis_toolchain.Object.Write.Separate.{puts-Found}
use nexoragenesis_toolchain.Object.Write.{
  text_size, string_total, place, plan, run_put, run_puts, header_puts, section_puts, sections_puts,
  symbol_puts, symbols_puts, reloc_puts, relocs_puts, puts, write,
}
use nexoragenesis_toolchain.Link.{
  count_definitions, section_base, scan_unit, scan_units, copy_sections, linked_section,
  unit_definitions, all_definitions, place_definitions, resolve, resolve_imports, resolve_units,
  moved_reloc, unit_relocs, all_relocs, zeros, output_in_use, section_in_use, sections_in_use,
  link_allocations, link_placed, link, start,
}
use nexoragenesis_toolchain.Link.Find.{
  same_text, name_below, find_loop, find, find-IsFound, IsFound, IsSorted,
}
use nexoragenesis_toolchain.Link.Sort.{
  compare_le, reloc_compare_le, insert_sorted, qsort, qsort_definitions, qsort_relocs,
}
use nexoragenesis_toolchain.PeLayout.{
  align_u32, layout_of, pe_layout, logical_rva, rel32_value, dir64_value, relocation_value,
  relocation_store, image_base, NtPeLayout,
}
use nexoragenesis_toolchain.Materialize.{
  free_artifact, allocate_bases, clone, absolute_count, imports_left, patch, patch_buffer,
  patch_section, note_base, resolved, apply_reloc, apply_relocs, entry_offset, materialize_prologue,
  materialize_sections, materialize, NtArtifact, empty_artifact,
}
use nexoragenesis_toolchain.Memory.{
  zeroed, store, load, le_bytes, w32, w64, r32, r64, aligned, zero_bytes, Mem, bytes_of,
}
use nexoragenesis_toolchain.Object.Write.{Plan}
use nexoragenesis_toolchain.Object.Write.Bounds.{InBlock, puts-InBlock}
use nexoragenesis_toolchain.Base.Int.{ℤ, pos, negsuc, pos_part, ◌+ℤ◌, ◌-ℤ◌, to_u64, of_u64}

-- "a", which the other unit defines, and "m", which calls it.
abbrev callee_import : NtObjectSymbol
callee_import = record {
  name = some (97 ∷ []);
  contract = some (99 ∷ []);
  section = 0;
  flags = 10;
  offset = 0;
  size = 0;
}

abbrev caller : NtObjectSymbol
caller = record {
  name = some (109 ∷ []);
  contract = some (99 ∷ []);
  section = 1;
  flags = 3;
  offset = 0;
  size = 6;
}

abbrev call_site : NtObjectReloc
call_site = record { section = 1; kind = 1; target = 1; offset = 1; addend = pos 0 }

abbrev main_unit : NtObject
main_unit = record {
  target = 1;
  entry_symbol = 2;
  text = at (232 ∷ 0 ∷ 0 ∷ 0 ∷ 0 ∷ 195 ∷ []);
  rdata = null 0;
  data_ = null 0;
  symbols = at (callee_import ∷ caller ∷ []);
  relocations = at (call_site ∷ []);
  owned = true;
}

abbrev callee : NtObjectSymbol
callee = record {
  name = some (97 ∷ []);
  contract = some (99 ∷ []);
  section = 1;
  flags = 3;
  offset = 0;
  size = 1;
}

abbrev callee_unit : NtObject
callee_unit = record {
  target = 1;
  entry_symbol = 0;
  text = at (195 ∷ []);
  rdata = null 0;
  data_ = null 0;
  symbols = at (callee ∷ []);
  relocations = at [];
  owned = true;
}

abbrev always {ℓ} : {A : Type ℓ} → A → Bool
always site = true

abbrev units : List NtObject
units = main_unit ∷ callee_unit ∷ []

abbrev result_or {ℓ} : {A : Type ℓ} → A → Outcome A → A
result_or d (ok a) = a
result_or d (err e) = d

abbrev linked : NtObject
linked = record {
  target = 1;
  entry_symbol = 2;
  text = at (232 ∷ 0 ∷ 0 ∷ 0 ∷ 0 ∷ 195 ∷ 0 ∷ 0 ∷ 0 ∷ 0 ∷ 0 ∷ 0 ∷ 0 ∷ 0 ∷ 0 ∷ 0 ∷ 195 ∷ []);
  rdata = null 0;
  data_ = null 0;
  symbols = at (record callee { offset = 16 } ∷ caller ∷ []);
  relocations = at (call_site ∷ []);
  owned = true;
}

-- What `nt_object_materialize` makes of it: the call leads 11 bytes past its end.
abbrev image : NtArtifact
image = record empty_artifact {
  text = at (232 ∷ 11 ∷ 0 ∷ 0 ∷ 0 ∷ 195 ∷ 0 ∷ 0 ∷ 0 ∷ 0 ∷ 0 ∷ 0 ∷ 0 ∷ 0 ∷ 0 ∷ 0 ∷ 195 ∷ []);
}

-- The file of `main_unit`, of 432 bytes.
abbrev written : Outcome (Table ℕ) → Mem
written (ok (at xs)) = bytes_of xs
written (ok (null n)) = λ i. 0
written (err e) = λ i. 0

abbrev object_bytes : Mem
object_bytes = written (write true main_unit (null 0))

-- The same file with other bytes behind it.
abbrev longer_bytes : Mem
longer_bytes i = if ltb i 432 then object_bytes i else 7

main_unit_valid : validate main_unit ≡ ok tt
unfolding validate_sections validate_symbol validate_symbols validate_entry width validate_reloc
    validate_relocs validate_counts validate text_loop text_length strcmp
main_unit_valid = refl

linked_ok : link always units empty_object ≡ ok linked
unfolding count_definitions section_base scan_unit scan_units copy_sections linked_section
    unit_definitions all_definitions place_definitions resolve resolve_imports resolve_units
    moved_reloc unit_relocs all_relocs zeros output_in_use section_in_use sections_in_use
    link_allocations link_placed link compare_le reloc_compare_le insert_sorted qsort
    qsort_definitions qsort_relocs same_text name_below find_loop find validate_sections
    validate_symbol validate_symbols validate_entry width validate_reloc validate_relocs
    validate_counts validate text_loop text_length strcmp aligned load store fail
linked_ok = refl

image_ok : materialize always linked empty_artifact ≡ (ok tt, image)
unfolding free_artifact allocate_bases clone absolute_count imports_left patch patch_buffer
    patch_section note_base resolved apply_reloc apply_relocs entry_offset materialize_prologue
    materialize_sections materialize align_u32 layout_of pe_layout logical_rva rel32_value
    dir64_value relocation_value relocation_store validate_sections validate_symbol validate_symbols
    validate_entry width validate_reloc validate_relocs validate_counts validate text_loop
    text_length strcmp load store le_bytes
image_ok = refl

reads_back : read always object_bytes 432 empty_object ≡ (ok tt, main_unit)
unfolding magic_differs has_zero header bad_version bad_tables read_tables read_layout bad_section
    read_section read_sections symbol_at bad_texts bad_reserved bad_symbol read_symbol read_symbols
    reloc_at read_reloc read_relocs read_payload copy_text more_symbols more_relocs begin_object
    allocate_symbols allocate_relocs end_symbols fill_symbols fill_relocs fill_text fill_rdata
    fill_data check_object clean_up fill read_prologue read text_size string_total place plan
    run_put run_puts header_puts section_puts sections_puts symbol_puts symbols_puts reloc_puts
    relocs_puts puts write validate_sections validate_symbol validate_symbols validate_entry width
    validate_reloc validate_relocs validate_counts validate text_loop text_length strcmp store load
    le_bytes w32 w64 r32 r64 aligned zero_bytes to_u64 of_u64
reads_back = refl

-- A payload that is not allocated: by then the texts and the two tables are.
abbrev no_payload : Site → Bool
no_payload (payload j) = false
no_payload symbol_table = true
no_payload reloc_table = true
no_payload (name_text j) = true
no_payload (contract_text j) = true

out_of_memory :
    read no_payload object_bytes 432 empty_object
    ≡ (err (fail 0 "NXO allocation failed"), empty_object)
unfolding magic_differs has_zero header bad_version bad_tables read_tables read_layout bad_section
    read_section read_sections symbol_at bad_texts bad_reserved bad_symbol read_symbol read_symbols
    reloc_at read_reloc read_relocs read_payload copy_text more_symbols more_relocs begin_object
    allocate_symbols allocate_relocs end_symbols fill_symbols fill_relocs fill_text fill_rdata
    fill_data check_object clean_up free_object fill read_prologue read text_size string_total place
    plan run_put run_puts header_puts section_puts sections_puts symbol_puts symbols_puts reloc_puts
    relocs_puts puts write validate_sections validate_symbol validate_symbols validate_entry width
    validate_reloc validate_relocs validate_counts validate text_loop text_length strcmp store load
    le_bytes w32 w64 r32 r64 aligned zero_bytes to_u64 of_u64 fail
out_of_memory = refl

linked_valid : validate linked ≡ ok tt
unfolding validate_sections validate_symbol validate_symbols validate_entry width validate_reloc
    validate_relocs validate_counts validate text_loop text_length strcmp
linked_valid = refl

-- A call four bytes into a page, to a symbol on the next.
near_call : relocation_value 1 4097 8192 (pos 3) ≡ some 4094
unfolding relocation_value rel32_value ◌+ℤ◌ ◌-ℤ◌ to_u64
near_call = refl

units_texts : All UnitTexts units
units_texts = ground arith

main_valid : validate main_unit ≡ ok tt
unfolding validate_sections validate_symbol validate_symbols validate_entry width validate_reloc
    validate_relocs validate_counts validate text_loop text_length strcmp
main_valid = refl

abbrev main_plan : Plan
main_plan = record {
  sym_at = 240;
  rel_at = 368;
  str_at = 408;
  strings = 4;
  payload = 416;
  offset0 = 416;
  offset1 = 432;
  offset2 = 432;
  size = 432;
}

main_plan_ok : plan main_unit ≡ ok main_plan
unfolding plan place string_total text_size text_loop text_length aligned
main_plan_ok = refl

puts-InBlock_example : All (InBlock 432) (puts main_unit main_plan)
puts-InBlock_example = puts-InBlock main_unit main_plan units_texts.0 main_valid main_plan_ok

puts-Found_example :
    All (Found (run_puts zeroed (puts main_unit main_plan))) (puts main_unit main_plan)
puts-Found_example = puts-Found main_unit main_plan units_texts.0 main_valid main_plan_ok

validate_iff_example : (validate main_unit ≡ ok tt) ↔ WellFormed main_unit
validate_iff_example = validate_iff main_unit units_texts.0

link-IsLinked_example : IsLinked units linked
link-IsLinked_example = link-IsLinked always units empty_object linked units_texts linked_ok

materialize-IsMaterialized_example : IsMaterialized linked image
materialize-IsMaterialized_example =
    materialize-IsMaterialized always linked empty_artifact image (ground arith)
      ((omega arith, omega arith), tt) refl image_ok

read_result_example :
    (((read always object_bytes 432 empty_object).0 ≡ ok tt)
      × IsRead (read always object_bytes 432 empty_object).1)
    ⊎ ((e : NtDiagnostic) × ((read always object_bytes 432 empty_object).0 ≡ err e)
        × ((read always object_bytes 432 empty_object).1 ≡ empty_object))
read_result_example = read_result always object_bytes 432

read_local_example :
    read always object_bytes 432 empty_object ≡ read always longer_bytes 432 empty_object
read_local_example =
    read_local always object_bytes longer_bytes 432 empty_object (λ i lo hi. ground arith)

linked_sorted : IsSorted (items linked.symbols)
linked_sorted = ((validate_iff linked (ground arith)).0 linked_valid).sorted

find-IsFound_example :
    IsFound (items linked.symbols) (109 ∷ []) linked_sorted (find (items linked.symbols) (109 ∷ []))
find-IsFound_example = find-IsFound (items linked.symbols) (109 ∷ []) linked_sorted

rel32_iff_example : (relocation_value 1 4097 8192 (pos 3) ≡ some 4094) ↔ (
    (4094 < 2 ^ 32)
    × (pos_part (pos 3) + 8192 < 2 ^ 63)
    × (pos (4097 + 4) +ℤ sign_extend 4094 ≡ pos 8192 +ℤ pos 3))
rel32_iff_example =
    rel32_iff 4097 8192 (pos 3) 4094 (omega arith, omega arith) (omega arith) (omega arith)

dir64_iff_example :
    (relocation_value 2 4096 8192 (negsuc 1) ≡ some 0x140001ffe)
    ↔ ((0x140001ffe < 2 ^ 64) × (pos 0x140001ffe ≡ pos (image_base + 8192) +ℤ negsuc 1))
dir64_iff_example =
    dir64_iff 4096 8192 (negsuc 1) 0x140001ffe (omega arith, omega arith) (omega arith)
      (omega arith)

pe_layout-IsLayout_example :
    (SizesFit 17 5 0
      × (pe_layout 17 5 0 ≡ some (layout_of 17 5 0))
      × IsLayout 17 5 0 (layout_of 17 5 0))
    ⊎ ((¬ SizesFit 17 5 0) × (pe_layout 17 5 0 ≡ none))
pe_layout-IsLayout_example = pe_layout-IsLayout 17 5 0

text_length_iff_example :
    (text_length (some (109 ∷ [])) 512 ≡ some 1)
    ↔ ((1 ≡ length {A = ℕ} (109 ∷ [])) × IsAscii 512 (some (109 ∷ [])))
text_length_iff_example = text_length_iff (109 ∷ []) 512 1 (ground arith)

r64-w64_example : r64 (w64 object_bytes 8 70000) 8 ≡ 70000 % 2 ^ 64
r64-w64_example = r64-w64 object_bytes 8 70000

zero_bytes_iff_example :
    (zero_bytes (bytes_of (1 ∷ 0 ∷ 0 ∷ [])) 1 2 ≡ true)
    ↔ ((i : ℕ) → 1 ≤ i → i < 1 + 2 → bytes_of (1 ∷ 0 ∷ 0 ∷ []) i ≡ 0)
zero_bytes_iff_example = zero_bytes_iff (bytes_of (1 ∷ 0 ∷ 0 ∷ [])) 1 2

-- qword fs:[r12 + 8 * r9 + 127]
abbrev memory_operand : NtX64Operand
memory_operand = record {
  kind = x64_mem;
  width = 64;
  reg = 0;
  high8 = 0;
  imm = 0;
  is_signed = 0;
  base = pos 12;
  index = pos 9;
  scale = 8;
  disp = pos 127;
  segment = 1;
}

modrm-Within_example : Within 11 (modrm no_bytes 0x8b 1 64 none 2 memory_operand)
modrm-Within_example =
    modrm-Within no_bytes 0x8b 1 64 none 2 memory_operand
      (record { short = omega arith; displaced = omega arith }) (omega arith)
