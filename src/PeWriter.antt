-- ===== src/PeWriter.antt =====
-- The writer of PE images, `nt_make_pe` of bootstrap/quarantine/c/ntasm.c: the tests on the artifact, the
-- plan of the image with its base relocations by page, and the stores into the block that it allocates.
-- The pointer `artifact` is taken not to be null. The artifact's diagnostic is its `code`.
pub mod Accepted
pub mod Blocks
pub mod Headers
pub mod Made
pub mod Pages
pub mod Planned
pub mod Puts
pub mod Relocations
pub mod Sites
pub mod Stages
pub mod Stores
use nexoragenesis_toolchain.Base.{
  ℕ, zero, suc, ◌+◌, ◌-◌, ◌*◌, ◌/◌, ◌%◌, ◌^◌, Bool, true, false, ◌||◌, ◌&&◌, not, List, [], ◌∷◌,
  ◌++◌, Option, none, some, ◌==◌, ◌!=◌, ltb, leb, if◌then◌else◌, length, bit_or,
}
use nexoragenesis_toolchain.Memory.{Mem, zeroed, load, le_bytes}
use nexoragenesis_toolchain.Object.{NtBuffer, Table, at, count, items, is_null}
use nexoragenesis_toolchain.Object.Write.{Put, u32, u64, raw, run_puts}
use nexoragenesis_toolchain.PeLayout.{NtPeLayout, pe_layout, section_limit}
use nexoragenesis_toolchain.Link.Sort.{qsort}
use nexoragenesis_toolchain.Materialize.{NtArtifact, NtBaseReloc}

-- put16(bytes + i, value)
abbrev pub put16 : ℕ → ℕ → Put
put16 i value = raw i (le_bytes 2 value)

-- The sum does not wrap for the sizes that the tests leave.
unfoldable pub align32 : ℕ → ℕ → ℕ
align32 value alignment = (value + alignment - 1) / alignment * alignment

-- The tests on the artifact alone; `code` is artifact->error.code.
unfoldable pub refused_artifact : ℕ → NtArtifact → Bool
refused_artifact code a =
    (code != 0)
    || (count a.text == 0)
    || leb (count a.text) a.entry
    || ltb section_limit (count a.text)
    || is_null a.text
    || ltb section_limit (count a.rdata)
    || ltb section_limit (count a.data_)
    || ((count a.rdata != 0) && is_null a.rdata)
    || ((count a.data_ != 0) && is_null a.data_)
    || ltb 1048576 (count a.base_relocations)
    || ((count a.base_relocations != 0) && is_null a.base_relocations)
    || ltb (2 ^ 32 - 1 - 8) (count a.rdata)
    || ltb (2 ^ 32 - 1) (count a.data_)

-- `limit` and `base` of a relocation's section.
unfoldable pub site_limit : NtArtifact → NtBaseReloc → ℕ
site_limit a r =
    if r.section == 1
    then count a.text
    else if r.section == 2
    then count a.rdata
    else if r.section == 3
    then count a.data_
    else 0

unfoldable pub site_base : NtPeLayout → NtBaseReloc → ℕ
site_base l r = if r.section == 1 then 4096 else if r.section == 2 then l.rdata + 8 else l.data_

-- `rvas` after its first element, unless a site is not in its section.
unfoldable pub site_rvas : NtArtifact → NtPeLayout → List NtBaseReloc → Option (List ℕ)
site_rvas a l [] = some []
site_rvas a l (r ∷ rs) =
    let rest = site_rvas a l rs in
    if ltb r.section 1
      || ltb 3 r.section
      || ltb (site_limit a r) r.offset
      || ltb (site_limit a r - r.offset) 8
    then none
    else elim rest [ none ↦ none | some rvas ↦ some ((site_base l r + r.offset) % 2 ^ 32 ∷ rvas) ]

-- Two sorted sites share a byte.
unfoldable pub overlapping : List ℕ → Bool
overlapping [] = false
overlapping (a ∷ []) = false
overlapping (a ∷ b ∷ rvas) = ltb (b - a) 8 || overlapping (b ∷ rvas)

-- `rva & ~4095`
abbrev pub page_of : ℕ → ℕ
page_of rva = rva / 4096 * 4096

-- The inner loop: the sites in front that lie on the page, and the others.
unfoldable pub split_page : ℕ → List ℕ → List ℕ × List ℕ
split_page page [] = ([], [])
split_page page (r ∷ rvas) =
    let (block, rest) = split_page page rvas in
    if page_of r == page then (r ∷ block, rest) else ([], r ∷ rvas)

-- align32(8 + 2 * (end - i), 4), with `more` sites after the one at i.
abbrev pub block_size : ℕ → ℕ
block_size more = align32 (8 + 2 * (1 + more)) 4

-- `reloc_size`; a round takes one site at least, so that as many rounds as sites are enough.
unfoldable pub reloc_size : ℕ → List ℕ → ℕ → ℕ
reloc_size zero rvas size = size
reloc_size (suc fuel) [] size = size
reloc_size (suc fuel) (r ∷ rvas) size =
    let (block, rest) = split_page (page_of r) rvas in
    reloc_size fuel rest (size + block_size (length block))

-- The entries of a block. The two parts share no bit, so `|` is a sum.
unfoldable pub entry_puts : ℕ → List ℕ → List Put
entry_puts i [] = []
entry_puts i (r ∷ rvas) = put16 i (0xa000 + r % 4096) ∷ entry_puts (i + 2) rvas

-- The loop that stores the blocks.
unfoldable pub block_puts : ℕ → List ℕ → ℕ → List Put
block_puts zero rvas write_at = []
block_puts (suc fuel) [] write_at = []
block_puts (suc fuel) (r ∷ rvas) write_at =
    let (block, rest) = split_page (page_of r) rvas in
    (u32 write_at (page_of r)
      ∷ u32 (write_at + 4) (block_size (length block))
      ∷ entry_puts (write_at + 8) (r ∷ block))
    ++ block_puts fuel rest (write_at + block_size (length block))

-- What is computed before the block is allocated.
pub record ImagePlan : Type 0 where
  pub layout : NtPeLayout
  pub rvas : List ℕ
  pub relocs : ℕ
  pub text_raw : ℕ
  pub rdata_size : ℕ
  pub data_size : ℕ
  pub rdata_raw_size : ℕ
  pub data_raw_size : ℕ
  pub reloc_raw_size : ℕ

abbrev pub ro_raw : ImagePlan → ℕ
ro_raw p = 1024 + p.text_raw

abbrev pub data_raw : ImagePlan → ℕ
data_raw p = ro_raw p + p.rdata_raw_size

abbrev pub reloc_raw : ImagePlan → ℕ
reloc_raw p = data_raw p + p.data_raw_size

abbrev pub image_bytes : ImagePlan → ℕ
image_bytes p = reloc_raw p + p.reloc_raw_size

unfoldable pub sized_plan : NtArtifact → NtPeLayout → List ℕ → ImagePlan
sized_plan a l rvas =
    let relocs = reloc_size (length rvas) rvas 0 in
    let data_size = if count a.data_ != 0 then count a.data_ else 8 in
    record {
      layout = l;
      rvas = rvas;
      relocs = relocs;
      text_raw = align32 (count a.text) 512;
      rdata_size = 8 + count a.rdata;
      data_size = data_size;
      rdata_raw_size = align32 (8 + count a.rdata) 512;
      data_raw_size = align32 data_size 512;
      reloc_raw_size = align32 relocs 512;
    }

-- `alloc` is the outcome of `malloc` for the table of sites.
unfoldable pub image_plan : Bool → ℕ → NtArtifact → Option ImagePlan
image_plan alloc code a =
    if refused_artifact code a
    then none
    else elim (pe_layout (count a.text) (count a.rdata) (count a.data_)) [
      | none ↦ none
      | some l ↦ if not alloc then none else elim (site_rvas a l (items a.base_relocations)) [
        | none ↦ none
        | some sites ↦
            let rvas = qsort leb (l.rdata ∷ sites) in
            if overlapping rvas then none else some (sized_plan a l rvas)
      ]
    ]

-- pe_section(bytes + i, ...)
abbrev pub pe_section : ℕ → List ℕ → ℕ → ℕ → ℕ → ℕ → ℕ → List Put
pe_section i name virtual_size rva raw_size raw_at flags =
    raw i name
    ∷ u32 (i + 8) virtual_size
    ∷ u32 (i + 12) rva
    ∷ u32 (i + 16) raw_size
    ∷ u32 (i + 20) raw_at
    ∷ u32 (i + 36) flags
    ∷ []

unfoldable pub pe_header_puts : NtArtifact → ImagePlan → List Put
pe_header_puts a p =
    raw 0 (b'M' ∷ b'Z' ∷ [])
    ∷ u32 60 128
    ∷ u32 128 0x4550
    ∷ put16 132 0x8664
    ∷ put16 134 4
    ∷ put16 148 240
    ∷ put16 150 0x2022
    ∷ put16 152 0x20b
    ∷ u32 156 p.text_raw
    ∷ u32 160 (p.rdata_raw_size + p.data_raw_size + p.reloc_raw_size)
    ∷ u32 168 (4096 + a.entry)
    ∷ u32 172 4096
    ∷ u64 176 0x140000000
    ∷ u32 184 4096
    ∷ u32 188 512
    ∷ put16 192 6
    ∷ put16 200 6
    ∷ u32 208 (align32 (p.layout.reloc + p.relocs) 4096)
    ∷ u32 212 1024
    ∷ put16 220 10
    ∷ put16 222 0x160
    ∷ u64 224 0x100000
    ∷ u64 232 0x1000
    ∷ u64 240 0x100000
    ∷ u64 248 0x1000
    ∷ u32 260 16
    ∷ u32 304 p.layout.reloc
    ∷ u32 308 p.relocs
    ∷ []

-- ".text", ".rdata", ".data" and ".reloc"
unfoldable pub section_header_puts : NtArtifact → ImagePlan → List Put
section_header_puts a p =
    pe_section 392 (b'.' ∷ b't' ∷ b'e' ∷ b'x' ∷ b't' ∷ []) (count a.text) 4096 p.text_raw 1024
      0x60000020
    ++ (pe_section 432 (b'.' ∷ b'r' ∷ b'd' ∷ b'a' ∷ b't' ∷ b'a' ∷ []) p.rdata_size p.layout.rdata
          p.rdata_raw_size (ro_raw p) 0x40000040
        ++ (pe_section 472 (b'.' ∷ b'd' ∷ b'a' ∷ b't' ∷ b'a' ∷ []) p.data_size p.layout.data_
              p.data_raw_size (data_raw p) 0xc0000040
            ++ pe_section 512 (b'.' ∷ b'r' ∷ b'e' ∷ b'l' ∷ b'o' ∷ b'c' ∷ []) p.relocs p.layout.reloc
                p.reloc_raw_size (reloc_raw p) 0x42000040))

-- The bytes of the sections, and before those of .rdata the anchor that points to the entry.
unfoldable pub content_puts : NtArtifact → ImagePlan → List Put
content_puts a p =
    raw 1024 (items a.text)
      ∷ u64 (ro_raw p) (0x140001000 + a.entry)
      ∷ (if count a.rdata != 0 then raw (ro_raw p + 8) (items a.rdata) ∷ [] else [])
    ++ (if count a.data_ != 0 then raw (data_raw p) (items a.data_) ∷ [] else [])

-- All the stores, in the order of the code.
unfoldable pub image_puts : NtArtifact → ImagePlan → List Put
image_puts a p =
    pe_header_puts a p
    ++ (section_header_puts a p
        ++ (content_puts a p ++ block_puts (length p.rvas) p.rvas (reloc_raw p)))

-- nt_make_pe: whether it returns 1, and the artifact as it leaves it. The two outcomes are those of
-- `malloc` and `calloc`.
unfoldable pub make_pe : Bool → Bool → ℕ → NtArtifact → Bool × NtArtifact
make_pe table_alloc alloc code a = elim (image_plan table_alloc code a) [
  | none ↦ (false, a)
  | some p ↦
      if not alloc
      then (false, a)
      else (true, record a { pe = at (load (run_puts zeroed (image_puts a p)) 0 (image_bytes p)) })
]
