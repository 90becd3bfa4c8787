-- ===== src/Examples/Images.antt =====
-- An image of one instruction, written and inspected, and the theorems at it.
use nexoragenesis_toolchain.Base.{
  ◌≡◌, refl, true, false, [], ◌∷◌, none, some, ◌==◌, if◌then◌else◌, arith, All,
}
use nexoragenesis_toolchain.Outcome.{ok}
use nexoragenesis_toolchain.Memory.{Mem, zeroed, bytes_of, load, store, le_bytes, w32, w64}
use nexoragenesis_toolchain.Object.{at, items, count}
use nexoragenesis_toolchain.Object.Write.{run_put, run_puts}
use nexoragenesis_toolchain.PeLayout.{pe_layout, layout_of, align_u32}
use nexoragenesis_toolchain.Materialize.{NtArtifact, empty_artifact}
use nexoragenesis_toolchain.Link.Sort.{qsort, insert_sorted}
use nexoragenesis_toolchain.PeInspect.{
  NtPeInfo, Section, r16, r32, r64, within, holds, map_rva, dos_header, file_header, section_table,
  bad_alignment, directories, optional_header, section_at, bad_section, holds_entry, scan_section,
  scan_sections, sections, bad_site, scan_entries, bad_block, scan_blocks, relocation_table,
  base_relocations, inspect,
}
use nexoragenesis_toolchain.PeInspect.Local.{inspect_local}
use nexoragenesis_toolchain.PeInspect.Image.{inspect-IsImage, IsImage}
use nexoragenesis_toolchain.PeInspect.Fuel.{scan_blocks_enough}
use nexoragenesis_toolchain.PeWriter.{
  ImagePlan, align32, refused_artifact, site_limit, site_base, site_rvas, overlapping, split_page,
  reloc_size, entry_puts, block_puts, sized_plan, image_plan, image_bytes, pe_header_puts,
  section_header_puts, content_puts, image_puts, make_pe,
}
use nexoragenesis_toolchain.PeWriter.Accepted.{make_pe-accepted, info_of}
use nexoragenesis_toolchain.PeWriter.Stores.{image_puts-InBlock}
use nexoragenesis_toolchain.Object.Write.Bounds.{InBlock}

-- ret, and one byte of constant data.
abbrev small_artifact : NtArtifact
small_artifact = record empty_artifact { text = at (0xc3 ∷ []); rdata = at (7 ∷ []) }

abbrev small_plan : ImagePlan
small_plan = record {
  layout = record { text = 4096; rdata = 8192; data_ = 12288; reloc = 16384 };
  rvas = 8192 ∷ [];
  relocs = 12;
  text_raw = 512;
  rdata_size = 9;
  data_size = 8;
  rdata_raw_size = 512;
  data_raw_size = 512;
  reloc_raw_size = 512;
}

small_plan_ok : image_plan true 0 small_artifact ≡ some small_plan
unfolding align32 refused_artifact site_limit site_base site_rvas overlapping split_page reloc_size
    sized_plan image_plan align_u32 layout_of pe_layout insert_sorted qsort
small_plan_ok = refl

-- What the writer stores.
abbrev small_image : Mem
small_image = run_puts zeroed (image_puts small_artifact small_plan)

abbrev small_info : NtPeInfo
small_info = record {
  entry_rva = 4096;
  image_size = 20480;
  header_size = 1024;
  section_count = 4;
  image_base = 0x140000000;
  relocation_count = 1;
}

small_image_ok : inspect small_image 3072 ≡ ok small_info
unfolding r16 r32 r64 within holds map_rva dos_header file_header section_table bad_alignment
    directories optional_header section_at bad_section holds_entry scan_section scan_sections
    sections bad_site scan_entries bad_block scan_blocks relocation_table base_relocations inspect
    run_put run_puts store le_bytes w32 w64 split_page entry_puts block_puts align32 pe_header_puts
    section_header_puts content_puts image_puts
small_image_ok = refl

image_puts-InBlock_example :
    All (InBlock (image_bytes small_plan)) (image_puts small_artifact small_plan)
image_puts-InBlock_example = image_puts-InBlock true 0 small_artifact small_plan small_plan_ok

inspect-IsImage_example : IsImage small_image 3072 small_info
inspect-IsImage_example = inspect-IsImage small_image 3072 small_info small_image_ok

-- Bytes past the end of the image differ.
abbrev longer_image : Mem
longer_image i = if i == 5000 then 1 else small_image i

inspect_local_example : inspect small_image 3072 ≡ inspect longer_image 3072
inspect_local_example =
    inspect_local small_image longer_image 3072
      (λ i lo hi. let other : (i == 5000) ≡ false = ground arith in rw other refl)

abbrev reloc_section : Section
reloc_section = record { va = 8192; vs = 9; raw = 1536; rs = 512; flags = 0x40000040 }

scan_blocks_enough_example :
    scan_blocks 12 small_image (reloc_section ∷ []) 2560 12 0 none 0
    ≡ scan_blocks 30 small_image (reloc_section ∷ []) 2560 12 0 none 0
scan_blocks_enough_example =
    scan_blocks_enough 12 30 small_image (reloc_section ∷ []) 2560 12 0 none 0 (omega arith)
      (omega arith)

abbrev small_result : NtArtifact
small_result = record small_artifact { pe = at (load small_image 0 3072) }

small_result_ok : make_pe true true 0 small_artifact ≡ (true, small_result)
unfolding make_pe
small_result_ok = rw (small_plan_ok, make_pe) refl

make_pe-accepted_example :
    (p : ImagePlan) × (image_plan true 0 small_artifact ≡ some p)
    × (inspect (bytes_of (items small_result.pe)) (count small_result.pe)
        ≡ ok (info_of small_artifact p))
make_pe-accepted_example = make_pe-accepted true true 0 small_artifact small_result small_result_ok
