-- ===== src/PeInspect.antt =====
-- The inspector of PE images, bootstrap/quarantine/c/pe.h and pe.c. The pointers `info`, `error` and
-- `bytes` are taken not to be null.
pub mod Cong
pub mod Local
pub mod Tiles
pub mod Image
pub mod Fuel
use nexoragenesis_toolchain.Base.{
  ℕ, zero, suc, ◌+◌, ◌-◌, ◌*◌, ◌/◌, ◌%◌, ◌^◌, Bool, true, false, ◌||◌, ◌&&◌, not, List, [], ◌∷◌,
  ◌++◌, Option, none, some, ◌==◌, ◌!=◌, ltb, leb, if◌then◌else◌, bit_and, String,
}
use nexoragenesis_toolchain.Memory.{Mem}
use nexoragenesis_toolchain.Outcome.{NtDiagnostic, Outcome, ok, err, ◌>>=◌, ◌>>◌}

pub record NtPeInfo : Type 0 where
  pub entry_rva : ℕ
  pub image_size : ℕ
  pub header_size : ℕ
  pub section_count : ℕ
  pub image_base : ℕ
  pub relocation_count : ℕ

unfoldable pub r16 : Mem → ℕ → ℕ
r16 p at = p at + p (at + 1) * 2 ^ 8

unfoldable pub r32 : Mem → ℕ → ℕ
r32 p at = r16 p at + r16 p (at + 2) * 2 ^ 16

unfoldable pub r64 : Mem → ℕ → ℕ
r64 p at = r32 p at + r32 p (at + 4) * 2 ^ 32

unfoldable pub within : ℕ → ℕ → ℕ → Bool
within at count n = leb at n && leb count (n - at)

-- `if (test) return bad(e, at, message);`
abbrev pub bad_if : Bool → ℕ → String → Outcome (Unit {0})
bad_if true at message = err (record { code = 601; offset = at; message = message })
bad_if false at message = ok tt

pub record Section : Type 0 where
  pub va : ℕ
  pub vs : ℕ
  pub raw : ℕ
  pub rs : ℕ
  pub flags : ℕ

-- The test of `map` on a section.
unfoldable pub holds : Section → ℕ → ℕ → Bool
holds s rva size = leb s.va rva && within (rva - s.va) size s.vs && within (rva - s.va) size s.rs

-- `map`: the offset in the file of the bytes at an address.
unfoldable pub map_rva : List Section → ℕ → ℕ → Option ℕ
unfolding holds
map_rva [] rva size = none
map_rva (s ∷ ss) rva size =
    let rest = map_rva ss rva size in if holds s rva size then some (s.raw + rva - s.va) else rest

-- `nt`, the offset of the PE header.
unfoldable pub dos_header : Mem → ℕ → Outcome ℕ
dos_header b n = do
  bad_if (ltb n 64) 0 "truncated DOS header"
  bad_if (r16 b 0 != 0x5a4d) 0 "invalid DOS signature"
  ok (r32 b 60)

unfoldable pub file_header : Mem → ℕ → ℕ → Outcome (Unit {0})
file_header b n nt = do
  bad_if (ltb nt 64 || not (within nt 264 n)) 60 "invalid PE header offset"
  bad_if (r32 b nt != 0x4550) nt "invalid PE signature"
  bad_if ((r16 b (nt + 4) != 0x8664) || (r16 b (nt + 20) != 240) || (r16 b (nt + 24) != 0x20b))
      (nt + 4) "expected AMD64 PE32+ header"

unfoldable pub section_table : Mem → ℕ → ℕ → Outcome (Unit {0})
section_table b n nt = do
  bad_if
      ((r16 b (nt + 6) == 0)
        || ltb 96 (r16 b (nt + 6))
        || not (within (nt + 264) (40 * r16 b (nt + 6)) n))
      (nt + 6) "invalid section table"
  bad_if ((r32 b (nt + 8) != 0) || (r32 b (nt + 12) != 0) || (r32 b (nt + 16) != 0)) (nt + 8)
      "timestamp and COFF symbols must be zero"

-- The test of the alignments, with `o` at nt + 24.
unfoldable pub bad_alignment : ℕ → ℕ → ℕ → ℕ → ℕ → ℕ → ℕ → Bool
bad_alignment n nt count section_align file_align image headers =
    (section_align != 4096)
    || (file_align != 512)
    || (image == 0)
    || (image % 4096 != 0)
    || (headers % 512 != 0)
    || not (within (nt + 264) (40 * count) headers)
    || ltb n headers

-- The directories from `d` on.
unfoldable pub directories : ℕ → Mem → ℕ → ℕ → Outcome (Unit {0})
directories zero b nt d = ok tt
directories (suc left) b nt d = do
  bad_if ((d != 5) && ((r32 b (nt + 136 + 8 * d) != 0) || (r32 b (nt + 140 + 8 * d) != 0)))
      (nt + 136 + 8 * d) "unsupported external directory"
  directories left b nt (d + 1)

unfoldable pub optional_header : Mem → ℕ → ℕ → Outcome (Unit {0})
optional_header b n nt = do
  bad_if
      (bad_alignment n nt (r16 b (nt + 6)) (r32 b (nt + 56)) (r32 b (nt + 60)) (r32 b (nt + 80))
        (r32 b (nt + 84)))
      (nt + 56) "invalid canonical alignment or image size"
  bad_if ((r16 b (nt + 92) != 10) || (r32 b (nt + 88) != 0) || (r32 b (nt + 132) != 16)) (nt + 88)
      "invalid EFI subsystem, checksum or directories"
  directories 16 b nt 0

-- `s[j]`, from the header at `h`.
unfoldable pub section_at : Mem → ℕ → Section
section_at b h = record {
  va = r32 b (h + 12);
  vs = r32 b (h + 8);
  raw = r32 b (h + 20);
  rs = r32 b (h + 16);
  flags = r32 b (h + 36);
}

-- What the loop over the sections keeps.
pub record Scan : Type 0 where
  pub next_virtual : ℕ
  pub next_raw : ℕ
  pub executable_entry : Bool

-- `(end + 4095) & ~4095`
abbrev pub page_up : ℕ → ℕ
page_up end = (end + 4095) / 4096 * 4096

unfoldable pub bad_section : ℕ → ℕ → Scan → Section → Bool
bad_section n image st s =
    (s.va != st.next_virtual)
    || (s.raw != st.next_raw)
    || (s.rs % 512 != 0)
    || ltb s.rs s.vs
    || not (within s.raw s.rs n)
    || ltb image (s.va + s.vs)

-- The entry lies in the section, which is executable, readable and not writable.
unfoldable pub holds_entry : ℕ → Section → Bool
holds_entry entry s =
    leb s.va entry && ltb entry (s.va + s.vs) && (bit_and s.flags 0xe0000000 == 0x60000000)

unfoldable pub scan_section : Mem → ℕ → ℕ → ℕ → ℕ → Scan → Outcome Scan
scan_section b n image entry h st = do
  let s = section_at b h
  bad_if (bad_section n image st s) h "noncanonical or overlapping section layout"
  bad_if (bit_and s.flags 0xa0000000 == 0xa0000000) (h + 36) "writable executable section"
  bad_if ((r32 b (h + 24) != 0) || (r32 b (h + 28) != 0) || (r32 b (h + 32) != 0)) (h + 24)
      "COFF relocation metadata in image"
  ok (record {
    next_virtual = page_up (s.va + s.vs);
    next_raw = st.next_raw + s.rs;
    executable_entry = holds_entry entry s || st.executable_entry;
  })

-- The sections from the header at `h` on, with their headers.
unfoldable pub scan_sections : ℕ → Mem → ℕ → ℕ → ℕ → ℕ → Scan → Outcome (List Section × Scan)
scan_sections zero b n image entry h st = ok ([], st)
scan_sections (suc left) b n image entry h st = do
  st' ← scan_section b n image entry h st
  (ss, end) ← scan_sections left b n image entry (h + 40) st'
  ok (section_at b h ∷ ss, end)

unfoldable pub sections : Mem → ℕ → ℕ → Outcome (List Section)
sections b n nt = do
  let image = r32 b (nt + 80)
  (ss, end) ←
      scan_sections (r16 b (nt + 6)) b n image (r32 b (nt + 40)) (nt + 264)
        (record { next_virtual = 4096; next_raw = r32 b (nt + 84); executable_entry = false })
  bad_if ((end.next_raw != n) || (end.next_virtual != image)) n "overlay or incorrect image size"
  bad_if (not end.executable_entry) (nt + 40) "entry is not within executable read-only code"
  ok ss

-- The test of an entry of a block that is not padding: the type, the site, and the order.
unfoldable pub bad_site : List Section → ℕ → Option ℕ → ℕ → Bool
bad_site ss page previous r =
    (r / 4096 != 10)
    || ltb (2 ^ 32 - 1 - r % 4096) page
    || elim (map_rva ss (page + r % 4096) 8) [ none ↦ true | some site ↦ false ]
    || elim previous [ none ↦ false | some offset ↦ leb (r % 4096) offset ]

-- The entries of a block, `left` of them from `at`; the count goes up by each that is not padding.
unfoldable pub scan_entries : ℕ → Mem → List Section → ℕ → ℕ → Option ℕ → ℕ → Outcome ℕ
scan_entries zero b ss page at previous relocations = ok relocations
scan_entries (suc left) b ss page at previous relocations =
    let r = r16 b at in
    let padding : Outcome ℕ = (do
      bad_if (r != 0) at "nonzero relocation padding"
      scan_entries left b ss page (at + 2) previous relocations) in
    let site : Outcome ℕ = (do
      bad_if (bad_site ss page previous r) at "invalid DIR64 relocation site"
      scan_entries left b ss page (at + 2) (some (r % 4096)) (relocations + 1)) in
    if r / 4096 == 0 then padding else site

-- The test of a block's header.
unfoldable pub bad_block : ℕ → ℕ → Option ℕ → ℕ → ℕ → Bool
bad_block reloc_size consumed previous page block =
    (page % 4096 != 0)
    || ltb block 8
    || (block % 4 != 0)
    || not (within consumed block reloc_size)
    || elim previous [ none ↦ false | some before ↦ leb page before ]

-- The blocks. Each takes 8 bytes at least, so that `reloc_size` rounds are enough, and with no round
-- left the loop has ended.
unfoldable pub scan_blocks : ℕ → Mem → List Section → ℕ → ℕ → ℕ → Option ℕ → ℕ → Outcome ℕ
scan_blocks zero b ss at reloc_size consumed previous relocations = ok relocations
scan_blocks (suc fuel) b ss at reloc_size consumed previous relocations =
    let page = r32 b (at + consumed) in
    let block = r32 b (at + consumed + 4) in
    let round : Outcome ℕ = (do
      bad_if (not (within consumed 8 reloc_size)) (at + consumed) "truncated relocation header"
      bad_if (bad_block reloc_size consumed previous page block) (at + consumed)
          "invalid relocation block"
      relocations' ← scan_entries ((block - 8) / 2) b ss page (at + consumed + 8) none relocations
      scan_blocks fuel b ss at reloc_size (consumed + block) (some page) relocations') in
    if ltb consumed reloc_size then round else ok relocations

-- `at`, where the relocations begin in the file.
unfoldable pub relocation_table : Mem → ℕ → List Section → Outcome ℕ
relocation_table b nt ss =
    let missing : NtDiagnostic = record {
      code = 601;
      offset = nt + 176;
      message = "missing or invalid base relocations";
    } in
    if r32 b (nt + 180) == 0
    then err missing
    else elim (map_rva ss (r32 b (nt + 176)) (r32 b (nt + 180))) [
      | none ↦ err missing
      | some at ↦ ok at
    ]

unfoldable pub base_relocations : Mem → ℕ → List Section → Outcome ℕ
base_relocations b nt ss = do
  at ← relocation_table b nt ss
  relocations ← scan_blocks (r32 b (nt + 180)) b ss at (r32 b (nt + 180)) 0 none 0
  bad_if (relocations == 0) at "no actual DIR64 relocation"
  ok relocations

-- nt_pe_inspect: on failure `*info` is zeroed.
unfoldable pub inspect : Mem → ℕ → Outcome NtPeInfo
inspect b n = do
  nt ← dos_header b n
  file_header b n nt
  section_table b n nt
  optional_header b n nt
  ss ← sections b n nt
  relocations ← base_relocations b nt ss
  ok (record {
    entry_rva = r32 b (nt + 40);
    image_size = r32 b (nt + 80);
    header_size = r32 b (nt + 84);
    section_count = r16 b (nt + 6);
    image_base = r64 b (nt + 48);
    relocation_count = relocations;
  })
