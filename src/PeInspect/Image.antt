-- ===== src/PeInspect/Image.antt =====
-- What an image that `nt_pe_inspect` of bootstrap/quarantine/c/pe.c accepts looks like.
use nexoragenesis_toolchain.Base.{
  All-append, ℕ, zero, suc, ◌+◌, ◌-◌, ◌*◌, ◌/◌, ◌%◌, ◌≤◌, ◌<◌, ◌≡◌, ◌≢◌, inl, inr, subst, true,
  false, ◌||◌, not, ◌==◌, ◌!=◌, ltb, if◌then◌else◌, arith, Bool-cases, List, [], ◌∷◌, ◌++◌, Option,
  none, some, get_elem?, All, length, length-append,
}
use nexoragenesis_toolchain.Outcome.{ok, >>=-eq-ok, >>-eq-ok}
use nexoragenesis_toolchain.Memory.{Mem}
use nexoragenesis_toolchain.PeInspect
use nexoragenesis_toolchain.PeInspect.{
  NtPeInfo, r16, r32, r64, Section, section_at, Scan, scan_sections, map_rva, bad_if, bad_site,
  scan_entries, bad_block, scan_blocks, relocation_table, base_relocations, inspect, dos_header,
  file_header, section_table, optional_header, within,
}
use nexoragenesis_toolchain.PeInspect.Tiles.{
  IsSection, HoldsEntry, total, Tiled, Tiled-apart, Tiled-each, scan_sections-Scanned,
}

-- The addresses that the entries of a block name, `left` of them from `at`: those of type 0 are
-- padding.
abbrev pub entry_sites : ℕ → Mem → ℕ → ℕ → List ℕ
entry_sites zero b page at = []
entry_sites (suc left) b page at =
    let rest = entry_sites left b page (at + 2) in
    if r16 b at / 4096 == 0 then rest else (page + r16 b at % 4096) ∷ rest

-- The addresses that the blocks name.
abbrev pub block_sites : ℕ → Mem → ℕ → ℕ → ℕ → List ℕ
block_sites zero b at reloc_size consumed = []
block_sites (suc fuel) b at reloc_size consumed =
    let page = r32 b (at + consumed) in
    let block = r32 b (at + consumed + 4) in
    let rest = block_sites fuel b at reloc_size (consumed + block) in
    if ltb consumed reloc_size
    then entry_sites ((block - 8) / 2) b page (at + consumed + 8) ++ rest
    else []

-- Eight bytes at the address are in one section, and in the file.
abbrev pub IsMapped : List Section → ℕ → Type 0
IsMapped ss rva = map_rva ss rva 8 ≢ none

scan_entries-lem :
    (left : ℕ) (b : Mem) (ss : List Section) (page at : ℕ) (previous : Option ℕ) (relocations r : ℕ)
    → scan_entries left b ss page at previous relocations ≡ ok r
    → All (IsMapped ss) (entry_sites left b page at)
      × (r ≡ relocations + length (entry_sites left b page at))
unfolding scan_entries bad_site
scan_entries-lem zero b ss page at previous relocations r h = (tt, ground arith)
scan_entries-lem (suc left) b ss page at previous relocations r h =
    elim (Bool-cases (r16 b at / 4096 == 0)) [
      | inl padding ↦
          let (e, f) =
            >>-eq-ok (bad_if (r16 b at != 0) at "nonzero relocation padding") _ (rw padding at h) in
          rw padding (scan_entries-lem left b ss page (at + 2) previous relocations r f)
      | inr site ↦
          let (e, f) =
            >>-eq-ok
              (bad_if (bad_site ss page previous (r16 b at)) at "invalid DIR64 relocation site") _
              (rw site at h) in
          let (all, count) =
            scan_entries-lem left b ss page (at + 2) (some (r16 b at % 4096)) (relocations + 1) r
              f in
          rw site ((ground arith, all), omega (arith, count))
    ]

scan_blocks-lem :
    (fuel : ℕ) (b : Mem) (ss : List Section) (at reloc_size consumed : ℕ) (previous : Option ℕ)
    (relocations r : ℕ)
    → scan_blocks fuel b ss at reloc_size consumed previous relocations ≡ ok r
    → All (IsMapped ss) (block_sites fuel b at reloc_size consumed)
      × (r ≡ relocations + length (block_sites fuel b at reloc_size consumed))
unfolding scan_blocks
scan_blocks-lem zero b ss at reloc_size consumed previous relocations r h = (tt, ground arith)
scan_blocks-lem (suc fuel) b ss at reloc_size consumed previous relocations r h =
    elim (Bool-cases (ltb consumed reloc_size)) [
      | inr done ↦ rw done (tt, ground arith)
      | inl more ↦
          let page = r32 b (at + consumed) in
          let block = r32 b (at + consumed + 4) in
          let sites = entry_sites ((block - 8) / 2) b page (at + consumed + 8) in
          let rest = block_sites fuel b at reloc_size (consumed + block) in
          let (e1, f1) =
            >>-eq-ok
              (bad_if (not (within consumed 8 reloc_size)) (at + consumed)
                "truncated relocation header")
              _ (rw more at h) in
          let (e2, f2) =
            >>-eq-ok
              (bad_if (bad_block reloc_size consumed previous page block) (at + consumed)
                "invalid relocation block")
              _ f1 in
          let (k, e3, f3) =
            >>=-eq-ok
              (scan_entries ((block - 8) / 2) b ss page (at + consumed + 8) none relocations) _
              f2 in
          let (all, count) =
            scan_entries-lem ((block - 8) / 2) b ss page (at + consumed + 8) none relocations k
              e3 in
          let (all', count') =
            scan_blocks-lem fuel b ss at reloc_size (consumed + block) (some page) k r f3 in
          rw more (
            All-append (IsMapped ss) sites rest all all',
            omega (arith, count, count', length-append sites rest),
          )
    ]

-- An accepted image. Its sections are as their headers say, in the file one after another behind the
-- headers and up to its end, and share no byte; one of them has the entry; and the relocations name
-- addresses of eight bytes in a section, `relocation_count` of them.
pub record ImageAt (b : Mem) (n nt : ℕ) (info : NtPeInfo) : Type 0 where
  pub sections : List Section
  pub as_many : length sections ≡ info.section_count
  pub from_headers :
      (j : ℕ) (s : Section) → get_elem? sections j ≡ some s → s ≡ section_at b (nt + 264 + 40 * j)
  pub each : All (IsSection n info.image_size) sections
  pub apart :
      (i j : ℕ) (s t : Section)
      → i < j
      → get_elem? sections i ≡ some s
      → get_elem? sections j ≡ some t
      → (s.raw + s.rs ≤ t.raw) × (s.va + s.vs ≤ t.va)
  pub covers : info.header_size + total sections ≡ n
  pub has_entry :
      (j : ℕ) × (s : Section) × (get_elem? sections j ≡ some s) × HoldsEntry info.entry_rva s
  pub at : ℕ
  pub found_at : map_rva sections (r32 b (nt + 176)) (r32 b (nt + 180)) ≡ some at
  pub mapped : All (IsMapped sections) (block_sites (r32 b (nt + 180)) b at (r32 b (nt + 180)) 0)
  pub counted :
      info.relocation_count ≡ length (block_sites (r32 b (nt + 180)) b at (r32 b (nt + 180)) 0)
  pub relocated : 0 < info.relocation_count

-- With the PE header where the DOS header says.
abbrev pub IsImage : Mem → ℕ → NtPeInfo → Type 0
IsImage b n info = ImageAt b n (r32 b 60) info

record AcceptedSections (b : Mem) (n nt : ℕ) (ss : List Section) : Type 0 where
  as_many : length ss ≡ r16 b (nt + 6)
  tiled : Tiled n (r32 b (nt + 80)) (r32 b (nt + 84)) 4096 ss
  listed : (j : ℕ) (s : Section) → get_elem? ss j ≡ some s → s ≡ section_at b (nt + 264 + 40 * j)
  covers : r32 b (nt + 84) + total ss ≡ n
  has_entry : (j : ℕ) × (s : Section) × (get_elem? ss j ≡ some s) × HoldsEntry (r32 b (nt + 40)) s

sections-AcceptedSections :
    (b : Mem) (n nt : ℕ) (ss : List Section)
    → PeInspect.sections b n nt ≡ ok ss
    → AcceptedSections b n nt ss
unfolding PeInspect.sections
sections-AcceptedSections b n nt ss h =
    let st : Scan = record {
      next_virtual = 4096;
      next_raw = r32 b (nt + 84);
      executable_entry = false;
    } in
    let ((ss', end), e, f) =
      >>=-eq-ok
        (scan_sections (r16 b (nt + 6)) b n (r32 b (nt + 80)) (r32 b (nt + 40)) (nt + 264) st) _
        h in
    let (sc, count) =
      scan_sections-Scanned (r16 b (nt + 6)) b n (r32 b (nt + 80)) (r32 b (nt + 40)) (nt + 264) st
        (ss', end) e in
    let (g, f') =
      >>-eq-ok
        (bad_if ((end.next_raw != n) || (end.next_virtual != r32 b (nt + 80))) n
          "overlay or incorrect image size")
        _ f in
    let (k, f'') =
      >>-eq-ok
        (bad_if (not end.executable_entry) (nt + 40)
          "entry is not within executable read-only code")
        _ f' in
    let ended : end.next_raw ≡ n = ground arith in
    let entered : end.executable_entry ≡ true = ground arith in
    let same : ss' ≡ ss = ground arith in
    let found : (j : ℕ) × (s : Section) × (get_elem? ss' j ≡ some s)
        × HoldsEntry (r32 b (nt + 40)) s =
      elim (sc.entered entered) [ inl x ↦ absurd (cc) | inr x ↦ x ] in
    subst (AcceptedSections b n nt) same (record {
      as_many = count;
      tiled = sc.tiled;
      listed = sc.listed;
      covers = omega (arith, sc.covered, ended);
      has_entry = found;
    })

record AcceptedRelocations (b : Mem) (nt : ℕ) (ss : List Section) (count : ℕ) : Type 0 where
  start : ℕ
  found_at : map_rva ss (r32 b (nt + 176)) (r32 b (nt + 180)) ≡ some start
  mapped : All (IsMapped ss) (block_sites (r32 b (nt + 180)) b start (r32 b (nt + 180)) 0)
  counted : count ≡ length (block_sites (r32 b (nt + 180)) b start (r32 b (nt + 180)) 0)
  relocated : 0 < count

base_relocations-AcceptedRelocations :
    (b : Mem) (nt : ℕ) (ss : List Section) (count : ℕ)
    → base_relocations b nt ss ≡ ok count
    → AcceptedRelocations b nt ss count
unfolding base_relocations relocation_table
base_relocations-AcceptedRelocations b nt ss count h =
    let (start, e, f) = >>=-eq-ok (relocation_table b nt ss) _ h in
    let size = r32 b (nt + 180) in
    let (k, e', f') = >>=-eq-ok (scan_blocks size b ss start size 0 none 0) _ f in
    let (all, counted) = scan_blocks-lem size b ss start size 0 none 0 k e' in
    let same : k ≡ count = ground arith in
    let some_left : 0 < k = ground arith in
    record {
      start = start;
      found_at = ground (arith, e);
      mapped = all;
      counted = omega (arith, counted, same);
      relocated = omega arith;
    }

-- What `*i` becomes.
abbrev report : Mem → ℕ → ℕ → NtPeInfo
report b nt count = record {
  entry_rva = r32 b (nt + 40);
  image_size = r32 b (nt + 80);
  header_size = r32 b (nt + 84);
  section_count = r16 b (nt + 6);
  image_base = r64 b (nt + 48);
  relocation_count = count;
}

ImageAt-intro :
    (b : Mem) (n nt : ℕ) (ss : List Section) (count : ℕ)
    → AcceptedSections b n nt ss
    → AcceptedRelocations b nt ss count
    → ImageAt b n nt (report b nt count)
ImageAt-intro b n nt ss count a r = record {
  sections = ss;
  as_many = a.as_many;
  from_headers = a.listed;
  each = Tiled-each n (r32 b (nt + 80)) (r32 b (nt + 84)) 4096 ss a.tiled;
  apart = λ i j s t lt e f.
      Tiled-apart n (r32 b (nt + 80)) (r32 b (nt + 84)) 4096 ss i j s t a.tiled lt e f;
  covers = a.covers;
  has_entry = a.has_entry;
  at = r.start;
  found_at = r.found_at;
  mapped = r.mapped;
  counted = r.counted;
  relocated = r.relocated;
}

-- An image that `nt_pe_inspect` accepts has sections as their headers say, which follow one another in
-- the file from the end of the headers to the end of the file, share no byte there or in memory, and are
-- not both writable and executable; the entry lies in one that is executable and not writable; and its
-- base relocations, of which there is one at least and as many as reported, each name eight bytes in a
-- section.
pub inspect-IsImage : (b : Mem) (n : ℕ) (info : NtPeInfo) → inspect b n ≡ ok info → IsImage b n info
unfolding inspect dos_header
inspect-IsImage b n info h =
    let (nt, e0, h0) = >>=-eq-ok (dos_header b n) _ h in
    let (e1, h1) = >>-eq-ok (file_header b n nt) _ h0 in
    let (e2, h2) = >>-eq-ok (section_table b n nt) _ h1 in
    let (e3, h3) = >>-eq-ok (optional_header b n nt) _ h2 in
    let (ss, e4, h4) = >>=-eq-ok (PeInspect.sections b n nt) _ h3 in
    let (count, e5, h5) = >>=-eq-ok (base_relocations b nt ss) _ h4 in
    let here : nt ≡ r32 b 60 = ground arith in
    let reported : report b nt count ≡ info = cc in
    subst (λ (k : ℕ). ImageAt b n k info) here
      (subst (ImageAt b n nt) reported (
        ImageAt-intro b n nt ss count (sections-AcceptedSections b n nt ss e4)
          (base_relocations-AcceptedRelocations b nt ss count e5)))
