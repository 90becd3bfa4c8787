-- ===== src/PeWriter/Headers.antt =====
-- The headers that `nt_make_pe` of bootstrap/quarantine/c/ntasm.c stores, as pe.c reads them.
use nexoragenesis_toolchain.Base.{
  ℕ, ◌+◌, ◌*◌, ◌/◌, ◌%◌, ◌^◌, ◌≤◌, ◌<◌, ◌≡◌, ◌∙◌, refl, Bool, true, ◌&&◌, List, [], ◌∷◌, leb, arith,
  All, subst,
}
use nexoragenesis_toolchain.Outcome.{ok}
use nexoragenesis_toolchain.Memory.{Mem, zeroed, store, le_bytes, w32, w64}
use nexoragenesis_toolchain.Memory.Laws.{Agree}
use nexoragenesis_toolchain.Object.{count}
use nexoragenesis_toolchain.Object.Write.{run_put, run_puts}
use nexoragenesis_toolchain.Materialize.{NtArtifact}
use nexoragenesis_toolchain.PeInspect.{Section, r16, r32, section_at, directories}
use nexoragenesis_toolchain.PeInspect.Cong.{same16, same32, same-section_at}
use nexoragenesis_toolchain.PeInspect.Local.{same-directories}
use nexoragenesis_toolchain.PeWriter.Planned.{IsSized, pages_ordered}
use nexoragenesis_toolchain.PeWriter.{
  ImagePlan, ro_raw, data_raw, reloc_raw, align32, pe_header_puts, section_header_puts,
}

-- The memory with the headers.
abbrev pub header_memory : NtArtifact → ImagePlan → Mem
header_memory a p = run_puts (run_puts zeroed (pe_header_puts a p)) (section_header_puts a p)

-- What r32 reads of a number that was stored.
abbrev word : ℕ → ℕ
word x =
    x % 256
    + x / 256 % 256 * 2 ^ 8
    + (x / 256 / 256 % 256 + x / 256 / 256 / 256 % 256 * 2 ^ 8) * 2 ^ 16

word-small : (x : ℕ) → x < 2 ^ 32 → word x ≡ x
word-small x h = omega arith

-- Words at literal offsets.
abbrev pub Words16 : Mem → List (ℕ × ℕ) → Type 0
Words16 m ws = All (λ w. r16 m w.0 ≡ w.1) ws

abbrev pub Words32 : Mem → List (ℕ × ℕ) → Type 0
Words32 m ws = All (λ w. r32 m w.0 ≡ w.1) ws

abbrev all_below : ℕ → List (ℕ × ℕ) → Bool
all_below limit [] = true
all_below limit (w ∷ ws) = leb (w.0 + 4) limit && all_below limit ws

module _ (m m' : Mem) (same : Agree m m' 0 1024) where
  Words16-cong : (ws : List (ℕ × ℕ)) → all_below 1024 ws ≡ true → Words16 m' ws → Words16 m ws
  Words16-cong [] below h = tt
  Words16-cong (w ∷ ws) below h =
      let inside : w.0 + 4 ≤ 1024 = ground arith in
      (same16 m m' 1024 same w.0 (omega arith) ∙ h.0, Words16-cong ws (ground arith) h.1)

  Words32-cong : (ws : List (ℕ × ℕ)) → all_below 1024 ws ≡ true → Words32 m' ws → Words32 m ws
  Words32-cong [] below h = tt
  Words32-cong (w ∷ ws) below h =
      let inside : w.0 + 4 ≤ 1024 = ground arith in
      (same32 m m' 1024 same w.0 (omega arith) ∙ h.0, Words32-cong ws (ground arith) h.1)

-- The words of the file header and the optional header.
abbrev pub header_words16 : List (ℕ × ℕ)
header_words16 = (0, 0x5a4d) ∷ (132, 0x8664) ∷ (134, 4) ∷ (148, 240) ∷ (152, 0x20b) ∷ (220, 10) ∷ []

abbrev pub header_words32 : ℕ → ℕ → ℕ → ℕ → List (ℕ × ℕ)
header_words32 entry image reloc relocs =
    (60, 128)
    ∷ (128, 0x4550)
    ∷ (136, 0)
    ∷ (140, 0)
    ∷ (144, 0)
    ∷ (168, entry)
    ∷ (176, 0x40000000)
    ∷ (180, 1)
    ∷ (184, 4096)
    ∷ (188, 512)
    ∷ (208, image)
    ∷ (212, 1024)
    ∷ (216, 0)
    ∷ (260, 16)
    ∷ (304, reloc)
    ∷ (308, relocs)
    ∷ []

-- The relocation fields of the section headers.
abbrev pub section_words32 : List (ℕ × ℕ)
section_words32 =
    (416, 0)
    ∷ (420, 0)
    ∷ (424, 0)
    ∷ (456, 0)
    ∷ (460, 0)
    ∷ (464, 0)
    ∷ (496, 0)
    ∷ (500, 0)
    ∷ (504, 0)
    ∷ (536, 0)
    ∷ (540, 0)
    ∷ (544, 0)
    ∷ []

-- The sections that the headers name.
abbrev section_of : ℕ → ℕ → ℕ → ℕ → ℕ → Section
section_of vs va rs raw flags = record { va = va; vs = vs; raw = raw; rs = rs; flags = flags }

abbrev pub text_section : NtArtifact → ImagePlan → Section
text_section a p = section_of (count a.text) 4096 p.text_raw 1024 0x60000020

abbrev pub rdata_section : ImagePlan → Section
rdata_section p = section_of p.rdata_size p.layout.rdata p.rdata_raw_size (ro_raw p) 0x40000040

abbrev pub data_section : ImagePlan → Section
data_section p = section_of p.data_size p.layout.data_ p.data_raw_size (data_raw p) 0xc0000040

abbrev pub reloc_section : ImagePlan → Section
reloc_section p = section_of p.relocs p.layout.reloc p.reloc_raw_size (reloc_raw p) 0x42000040

abbrev pub image_size : ImagePlan → ℕ
image_size p = align32 (p.layout.reloc + p.relocs) 4096

-- Memory that begins with the headers of a plan.
pub record HasHeaders (m : Mem) (a : NtArtifact) (p : ImagePlan) : Type 0 where
  pub words16 : Words16 m header_words16
  pub words32 : Words32 m (header_words32 (4096 + a.entry) (image_size p) p.layout.reloc p.relocs)
  pub section_words : Words32 m section_words32
  pub text : section_at m 392 ≡ text_section a p
  pub rdata : section_at m 432 ≡ rdata_section p
  pub data_ : section_at m 472 ≡ data_section p
  pub reloc : section_at m 512 ≡ reloc_section p
  pub none_else : directories 16 m 128 0 ≡ ok tt

module _ (a : NtArtifact) (p : ImagePlan) where
  stored16 : Words16 (header_memory a p) header_words16
  unfolding run_puts run_put pe_header_puts section_header_puts store le_bytes w32 w64 r16 r32
  stored16 = (refl, (refl, (refl, (refl, (refl, (refl, tt))))))

  stored32 : Words32 (header_memory a p) (
      header_words32
        (word (4096 + a.entry))
        (word (image_size p))
        (word p.layout.reloc)
        (word p.relocs))
  unfolding run_puts run_put pe_header_puts section_header_puts store le_bytes w32 w64 r16 r32
  stored32 = (
    refl,
    (
      refl,
      (
        refl,
        (
          refl,
          (
            refl,
            (
              refl,
              (refl, (refl, (refl, (refl, (refl, (refl, (refl, (refl, (refl, (refl, tt)))))))))),
            ),
          ),
        ),
      ),
    ),
  )

  stored_zeros : Words32 (header_memory a p) section_words32
  unfolding run_puts run_put pe_header_puts section_header_puts store le_bytes w32 w64 r16 r32
  stored_zeros = (
    refl,
    (refl, (refl, (refl, (refl, (refl, (refl, (refl, (refl, (refl, (refl, (refl, tt))))))))))),
  )

  stored_sections :
      (section_at (header_memory a p) 392
        ≡ section_of (word (count a.text)) 4096 (word p.text_raw) 1024 0x60000020)
      × (section_at (header_memory a p) 432
          ≡ section_of
              (word p.rdata_size)
              (word p.layout.rdata)
              (word p.rdata_raw_size)
              (word (ro_raw p))
              0x40000040)
      × (section_at (header_memory a p) 472
          ≡ section_of
              (word p.data_size)
              (word p.layout.data_)
              (word p.data_raw_size)
              (word (data_raw p))
              0xc0000040)
      × (section_at (header_memory a p) 512
          ≡ section_of
              (word p.relocs)
              (word p.layout.reloc)
              (word p.reloc_raw_size)
              (word (reloc_raw p))
              0x42000040)
  unfolding run_puts run_put pe_header_puts section_header_puts store le_bytes w32 w64 r16 r32
      section_at
  stored_sections = (refl, refl, refl, refl)

  stored_directories : directories 16 (header_memory a p) 128 0 ≡ ok tt
  unfolding run_puts run_put pe_header_puts section_header_puts store le_bytes w32 w64 r16 r32
      directories
  stored_directories = refl

section-small :
    (vs va rs raw flags : ℕ)
    → vs < 2 ^ 32
    → va < 2 ^ 32
    → rs < 2 ^ 32
    → raw < 2 ^ 32
    → section_of (word vs) (word va) (word rs) (word raw) flags ≡ section_of vs va rs raw flags
section-small vs va rs raw flags h1 h2 h3 h4 =
    rw (word-small vs h1, word-small va h2, word-small rs h3, word-small raw h4) refl

words-small :
    (entry image reloc relocs : ℕ)
    → entry < 2 ^ 32
    → image < 2 ^ 32
    → reloc < 2 ^ 32
    → relocs < 2 ^ 32
    → header_words32 (word entry) (word image) (word reloc) (word relocs)
      ≡ header_words32 entry image reloc relocs
words-small entry image reloc relocs h1 h2 h3 h4 =
    rw (word-small entry h1, word-small image h2, word-small reloc h3, word-small relocs h4) refl

image_size-small :
    (reloc relocs : ℕ) → reloc < 2 ^ 26 → relocs < 2 ^ 26 → align32 (reloc + relocs) 4096 < 2 ^ 32
unfolding align32
image_size-small reloc relocs h k = omega arith

-- The headers are read as they are stored, since each number that they hold is below 2 ^ 32.
pub headers_stored :
    (m : Mem) (a : NtArtifact) (p : ImagePlan)
    → Agree m (header_memory a p) 0 1024
    → IsSized a p
    → HasHeaders m a p
headers_stored m a p same sized =
    let entry = sized.entry in
    let text = sized.text in
    let rdata = sized.rdata in
    let data_ = sized.data_ in
    let relocs = sized.relocs in
    let small = sized.small in
    let ordered = pages_ordered a p sized in
    let h = header_memory a p in
    let (s0, s1, s2, s3) = stored_sections a p in
    record {
      words16 = Words16-cong m h same header_words16 refl (stored16 a p);
      words32 =
          Words32-cong m h same
            (header_words32 (4096 + a.entry) (image_size p) p.layout.reloc p.relocs) refl
            (subst (Words32 h)
              (words-small (4096 + a.entry) (image_size p) p.layout.reloc p.relocs (omega arith)
                (image_size-small p.layout.reloc p.relocs small.0 (omega arith)) (omega arith)
                (omega arith))
              (stored32 a p));
      section_words = Words32-cong m h same section_words32 refl (stored_zeros a p);
      text =
          same-section_at m h 1024 same 392 (omega arith)
          ∙ s0
          ∙ section-small (count a.text) 4096 p.text_raw 1024 0x60000020 (omega arith) (omega arith)
              (omega arith) (omega arith);
      rdata =
          same-section_at m h 1024 same 432 (omega arith)
          ∙ s1
          ∙ section-small p.rdata_size p.layout.rdata p.rdata_raw_size (ro_raw p) 0x40000040
              (omega arith) (omega arith) (omega arith) (omega arith);
      data_ =
          same-section_at m h 1024 same 472 (omega arith)
          ∙ s2
          ∙ section-small p.data_size p.layout.data_ p.data_raw_size (data_raw p) 0xc0000040
              (omega arith) (omega arith) (omega arith) (omega arith);
      reloc =
          same-section_at m h 1024 same 512 (omega arith)
          ∙ s3
          ∙ section-small p.relocs p.layout.reloc p.reloc_raw_size (reloc_raw p) 0x42000040
              (omega arith) (omega arith) (omega arith) (omega arith);
      none_else =
          same-directories m h 1024 same 128 (omega arith) 16 0 (omega arith)
          ∙ stored_directories a p;
    }
