-- ===== src/PeWriter/Stages.antt =====
-- The checks of `nt_pe_inspect` of bootstrap/quarantine/c/pe.c, one after another, on the headers that
-- `nt_make_pe` stores.
use nexoragenesis_toolchain.Base.{
  ℕ, suc, ◌+◌, ◌%◌, ◌≤◌, ◌<◌, ◌≡◌, ◌∙◌, refl, Bool, true, false, ◌||◌, List, [], ◌∷◌, ltb, ◌==◌,
  ◌!=◌, arith, bit_and,
}
use nexoragenesis_toolchain.Outcome.{ok}
use nexoragenesis_toolchain.Memory.{Mem}
use nexoragenesis_toolchain.Materialize.{NtArtifact}
use nexoragenesis_toolchain.PeInspect.{
  Section, Scan, r32, within, dos_header, file_header, section_table, bad_alignment,
  optional_header, section_at, bad_section, holds_entry, scan_section, scan_sections, sections,
  page_up,
}
use nexoragenesis_toolchain.PeWriter.{ImagePlan, image_bytes, align32, ro_raw, data_raw, reloc_raw}
use nexoragenesis_toolchain.PeWriter.Planned.{IsSized, pages_ordered}
use nexoragenesis_toolchain.PeWriter.Headers.{
  HasHeaders, text_section, rdata_section, data_section, reloc_section, image_size,
}

abbrev pub all_sections : NtArtifact → ImagePlan → List Section
all_sections a p = text_section a p ∷ rdata_section p ∷ data_section p ∷ reloc_section p ∷ []

within-ok : (at size n : ℕ) → at + size ≤ n → within at size n ≡ true
unfolding within
within-ok at size n h = ground arith

aligned-ok :
    (n image : ℕ)
    → 1024 ≤ n
    → 0 < image
    → image % 4096 ≡ 0
    → bad_alignment n 128 4 4096 512 image 1024 ≡ false
unfolding bad_alignment within
aligned-ok n image h some_page whole = ground arith

image_size-pages : (p : ImagePlan) → 10 ≤ p.relocs → (0 < image_size p) × (image_size p % 4096 ≡ 0)
unfolding align32
image_size-pages p h = omega arith

-- A section where the loop over the sections expects it.
bad_section-ok :
    (n image : ℕ) (st : Scan) (s : Section)
    → st.next_virtual ≡ s.va
    → st.next_raw ≡ s.raw
    → s.rs % 512 ≡ 0
    → s.vs ≤ s.rs
    → s.raw + s.rs ≤ n
    → s.va + s.vs ≤ image
    → bad_section n image st s ≡ false
unfolding bad_section within
bad_section-ok n image st s e f whole stored inside mapped = ground arith

scan_section-ok :
    (m : Mem) (n image entry at : ℕ) (st : Scan) (s : Section)
    → section_at m at ≡ s
    → bad_section n image st s ≡ false
    → (bit_and s.flags 0xa0000000 == 0xa0000000) ≡ false
    → r32 m (at + 24) ≡ 0
    → r32 m (at + 28) ≡ 0
    → r32 m (at + 32) ≡ 0
    → scan_section m n image entry at st
      ≡ ok (record {
        next_virtual = page_up (s.va + s.vs);
        next_raw = st.next_raw + s.rs;
        executable_entry = holds_entry entry s || st.executable_entry;
      })
unfolding scan_section
scan_section-ok m n image entry at st s e good protected z0 z1 z2 =
    rw (e, good, protected, z0, z1, z2) refl

ne_refl : (n : ℕ) → (n != n) ≡ false
ne_refl n = ground arith

or_true : (b : Bool) → (b || true) ≡ true
or_true b = ground arith

module _ (m : Mem) (a : NtArtifact) (p : ImagePlan) (sized : IsSized a p)
    (h : HasHeaders m a p) where
  pub dos_header_ok : dos_header m (image_bytes p) ≡ ok 128
  unfolding dos_header
  dos_header_ok =
      let long : ltb (image_bytes p) 64 ≡ false = ground arith in
      rw (long, h.words16.0, h.words32.0) refl

  pub file_header_ok : file_header m (image_bytes p) 128 ≡ ok tt
  unfolding file_header
  file_header_ok =
      let inside = within-ok 128 264 (image_bytes p) (omega arith) in
      rw (inside, h.words32.1.0, h.words16.1.0, h.words16.1.1.1.0, h.words16.1.1.1.1.0) refl

  pub section_table_ok : section_table m (image_bytes p) 128 ≡ ok tt
  unfolding section_table
  section_table_ok =
      let (x, (y, (z, (u, (v, rest))))) = h.words32 in
      let inside = within-ok 392 160 (image_bytes p) (omega arith) in
      rw (h.words16.1.1.0, z, u, v, inside) refl

  pub optional_header_ok : optional_header m (image_bytes p) 128 ≡ ok tt
  unfolding optional_header
  optional_header_ok =
      let (
        x0,
        (
          x1,
          (
            x2,
            (
              x3,
              (
                x4,
                (
                  x5,
                  (x6, (x7, (sections_at, (file_at, (image, (headers, (sum, (count_, rest)))))))),
                ),
              ),
            ),
          ),
        ),
      ) =
        h.words32 in
      let (y0, (y1, (y2, (y3, (y4, (subsystem, y5)))))) = h.words16 in
      let relocs = sized.relocs in
      let (some_page, whole) = image_size-pages p relocs.0 in
      let good = aligned-ok (image_bytes p) (image_size p) (omega arith) some_page whole in
      rw (y2, sections_at, file_at, image, headers, good, subsystem, sum, count_, h.none_else) refl

  abbrev state : ℕ → ℕ → Scan
  state next_virtual next_raw = record {
    next_virtual = next_virtual;
    next_raw = next_raw;
    executable_entry = true;
  }

  entry_held : holds_entry (4096 + a.entry) (text_section a p) ≡ true
  unfolding holds_entry
  entry_held = let inside = sized.entry in ground arith

  image_holds : p.layout.reloc + p.relocs ≤ image_size p
  unfolding align32
  image_holds = omega arith

  -- A round of the loop over the sections, behind the code.
  later_section :
      (at : ℕ) (s : Section)
      → section_at m at ≡ s
      → s.rs % 512 ≡ 0
      → s.vs ≤ s.rs
      → s.raw + s.rs ≤ image_bytes p
      → s.va + s.vs ≤ image_size p
      → (bit_and s.flags 0xa0000000 == 0xa0000000) ≡ false
      → r32 m (at + 24) ≡ 0
      → r32 m (at + 28) ≡ 0
      → r32 m (at + 32) ≡ 0
      → scan_section m (image_bytes p) (image_size p) (4096 + a.entry) at (state s.va s.raw)
        ≡ ok (state (page_up (s.va + s.vs)) (s.raw + s.rs))
  later_section at s e whole stored inside mapped protected z0 z1 z2 =
      scan_section-ok m (image_bytes p) (image_size p) (4096 + a.entry) at (state s.va s.raw) s e
        (bad_section-ok (image_bytes p) (image_size p) (state s.va s.raw) s refl refl whole stored
          inside mapped)
        protected z0 z1 z2
      ∙ rw (or_true (holds_entry (4096 + a.entry) s)) refl

  scan_step :
      (left at : ℕ) (st st' end : Scan) (s : Section) (ss : List Section)
      → section_at m at ≡ s
      → scan_section m (image_bytes p) (image_size p) (4096 + a.entry) at st ≡ ok st'
      → scan_sections left m (image_bytes p) (image_size p) (4096 + a.entry) (at + 40) st'
        ≡ ok (ss, end)
      → scan_sections (suc left) m (image_bytes p) (image_size p) (4096 + a.entry) at st
        ≡ ok (s ∷ ss, end)
  unfolding scan_sections
  scan_step left at st st' end s ss e one rest = rw (one, rest, e) refl

  text_ok :
      scan_section m
        (image_bytes p)
        (image_size p)
        (4096 + a.entry)
        392
        (record { next_virtual = 4096; next_raw = 1024; executable_entry = false })
      ≡ ok (state p.layout.rdata (ro_raw p))
  text_ok =
      let text = sized.text in
      let ordered = pages_ordered a p sized in
      let (z0, (z1, (z2, rest))) = h.section_words in
      scan_section-ok m (image_bytes p) (image_size p) (4096 + a.entry) 392 _ (text_section a p)
        h.text
        (bad_section-ok (image_bytes p) (image_size p) _ (text_section a p) refl refl text.2 text.1
          (omega arith) (let mapped = image_holds in omega arith))
        refl z0 z1 z2
      ∙ rw (entry_held, sized.pages.0) refl

  rdata_ok :
      scan_section m
        (image_bytes p)
        (image_size p)
        (4096 + a.entry)
        432
        (state p.layout.rdata (ro_raw p))
      ≡ ok (state p.layout.data_ (data_raw p))
  rdata_ok =
      let rdata = sized.rdata in
      let ordered = pages_ordered a p sized in
      let mapped = image_holds in
      let (x0, (x1, (x2, (z0, (z1, (z2, rest)))))) = h.section_words in
      later_section 432 (rdata_section p) h.rdata rdata.2 rdata.1 (omega arith) (omega arith) refl
        z0 z1 z2
      ∙ rw (sized.pages.1) refl

  data_ok :
      scan_section m
        (image_bytes p)
        (image_size p)
        (4096 + a.entry)
        472
        (state p.layout.data_ (data_raw p))
      ≡ ok (state p.layout.reloc (reloc_raw p))
  data_ok =
      let data_ = sized.data_ in
      let mapped = image_holds in
      let ordered = pages_ordered a p sized in
      let (x0, (x1, (x2, (x3, (x4, (x5, (z0, (z1, (z2, rest))))))))) = h.section_words in
      later_section 472 (data_section p) h.data_ data_.3 data_.2 (omega arith) (omega arith) refl z0
        z1 z2
      ∙ rw (sized.pages.2) refl

  reloc_ok :
      scan_section m
        (image_bytes p)
        (image_size p)
        (4096 + a.entry)
        512
        (state p.layout.reloc (reloc_raw p))
      ≡ ok (state (page_up (p.layout.reloc + p.relocs)) (image_bytes p))
  reloc_ok =
      let relocs = sized.relocs in
      let (x0, (x1, (x2, (x3, (x4, (x5, (x6, (x7, (x8, (z0, (z1, (z2, rest)))))))))))) =
        h.section_words in
      later_section 512 (reloc_section p) h.reloc relocs.2 relocs.1 (omega arith) image_holds refl
        z0 z1 z2

  scan_sections_ok :
      scan_sections 4 m
        (image_bytes p)
        (image_size p)
        (4096 + a.entry)
        392
        (record { next_virtual = 4096; next_raw = 1024; executable_entry = false })
      ≡ ok (all_sections a p, state (page_up (p.layout.reloc + p.relocs)) (image_bytes p))
  unfolding scan_sections
  scan_sections_ok = scan_step 3 392 _ _ _ _ _ h.text text_ok (
      scan_step 2 432 _ _ _ _ _ h.rdata rdata_ok (
        scan_step 1 472 _ _ _ _ _ h.data_ data_ok
          (scan_step 0 512 _ _ _ _ _ h.reloc reloc_ok refl)))

  image_size-page_up : page_up (p.layout.reloc + p.relocs) ≡ image_size p
  unfolding align32
  image_size-page_up = omega arith

  pub sections_ok : sections m (image_bytes p) 128 ≡ ok (all_sections a p)
  unfolding sections
  sections_ok =
      let (x0, (x1, (x2, (x3, (x4, (entry, (x6, (x7, (x8, (x9, (image, (headers, rest)))))))))))) =
        h.words32 in
      rw
        (
          h.words16.1.1.0,
          image,
          entry,
          headers,
          scan_sections_ok,
          image_size-page_up,
          ne_refl (image_bytes p),
          ne_refl (image_size p),
        )
        refl
