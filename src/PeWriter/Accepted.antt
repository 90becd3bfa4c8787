-- ===== src/PeWriter/Accepted.antt =====
-- `nt_pe_inspect` (bootstrap/quarantine/c/pe.c) on the images of `nt_make_pe` (ntasm.c).
use nexoragenesis_toolchain.Base.{
  ℕ, ◌+◌, ◌≤◌, ◌≡◌, ◌∙◌, refl, ap, Bool, true, false, [], ◌∷◌, ◌==◌, ◌!=◌, length, arith, All,
  All-append, if◌then◌else◌, some, none, Option-cases, Bool-cases, inl, inr, subst, leb,
}
use nexoragenesis_toolchain.Outcome.{ok}
use nexoragenesis_toolchain.Memory.{Mem, zeroed, bytes_of, load}
use nexoragenesis_toolchain.Memory.Laws.{Agree, length-load, get_or-load}
use nexoragenesis_toolchain.Object.{at, count, items}
use nexoragenesis_toolchain.Object.Write.{Put, raw, run_puts}
use nexoragenesis_toolchain.Materialize.{NtArtifact}
use nexoragenesis_toolchain.Link.Sort.{qsort}
use nexoragenesis_toolchain.PeInspect.{NtPeInfo, r64, scan_blocks, base_relocations, inspect}
use nexoragenesis_toolchain.PeInspect.Local.{inspect_local}
use nexoragenesis_toolchain.PeWriter.{
  ImagePlan, sized_plan, image_plan, image_bytes, ro_raw, data_raw, reloc_raw, reloc_size,
  pe_header_puts, section_header_puts, content_puts, block_puts, image_puts, make_pe,
}
use nexoragenesis_toolchain.PeWriter.Stores.{
  Sized, image_plan-Sized, pe_header_puts-InBlock, section_header_puts-InBlock,
  content_puts-InBlock,
}
use nexoragenesis_toolchain.PeWriter.Pages.{Spread, sorted-Spread, length-qsort}
use nexoragenesis_toolchain.PeWriter.Made.{IsMade, image_plan-IsMade}
use nexoragenesis_toolchain.PeWriter.Planned.{IsSized, made-IsSized}
use nexoragenesis_toolchain.PeWriter.Puts.{From, run_puts_below, run_puts_above, run_puts-append}
use nexoragenesis_toolchain.PeWriter.Headers.{HasHeaders, header_memory, headers_stored, image_size}
use nexoragenesis_toolchain.PeWriter.Relocations.{block_puts-From, blocks_stored}
use nexoragenesis_toolchain.PeWriter.Stages.{
  all_sections, dos_header_ok, file_header_ok, section_table_ok, optional_header_ok, sections_ok,
}
use nexoragenesis_toolchain.PeWriter.Sites.{relocation_table_ok, rvas-IsSite}

-- What the inspector reports of an image.
abbrev pub info_of : NtArtifact → ImagePlan → NtPeInfo
info_of a p = record {
  entry_rva = 4096 + a.entry;
  image_size = image_size p;
  header_size = 1024;
  section_count = 4;
  image_base = 0x140000000;
  relocation_count = length p.rvas;
}

-- The memory before the relocation blocks are stored, and after.
abbrev content_memory : NtArtifact → ImagePlan → Mem
content_memory a p = run_puts (header_memory a p) (content_puts a p)

abbrev whole_memory : NtArtifact → ImagePlan → Mem
whole_memory a p = run_puts (content_memory a p) (block_puts (length p.rvas) p.rvas (reloc_raw p))

image_puts-whole_memory :
    (a : NtArtifact) (p : ImagePlan) → run_puts zeroed (image_puts a p) ≡ whole_memory a p
unfolding image_puts
image_puts-whole_memory a p =
    run_puts-append zeroed (pe_header_puts a p) _
    ∙ run_puts-append (run_puts zeroed (pe_header_puts a p)) (section_header_puts a p) _
    ∙ run_puts-append (header_memory a p) (content_puts a p) _

if-From : (b : Bool) (lo : ℕ) (p : Put) → From lo p → All (From lo) (if b then p ∷ [] else [])
if-From true lo p h = (h, tt)
if-From false lo p h = tt

content_puts-From : (a : NtArtifact) (p : ImagePlan) → All (From 1024) (content_puts a p)
unfolding content_puts
content_puts-From a p = (
  omega arith,
  (
    omega arith,
    All-append (From 1024) _ _
        (if-From (count a.rdata != 0) 1024 (raw (ro_raw p + 8) (items a.rdata)) (omega arith))
        (if-From (count a.data_ != 0) 1024 (raw (data_raw p) (items a.data_)) (omega arith)),
  ),
)

-- Neither contents nor relocations reach the headers.
headers_kept :
    (a : NtArtifact) (p : ImagePlan) → Agree (whole_memory a p) (header_memory a p) 0 1024
headers_kept a p i lo lt =
    run_puts_below (content_memory a p) _ 1024 i
      (block_puts-From 1024 (length p.rvas) p.rvas (reloc_raw p) (omega arith)) lt
    ∙ run_puts_below (header_memory a p) (content_puts a p) 1024 i (content_puts-From a p) lt

-- The block is zero where the relocations go.
zero_behind :
    (a : NtArtifact) (p : ImagePlan)
    → Sized a p
    → (i : ℕ) → reloc_raw p ≤ i
    → content_memory a p i ≡ 0
zero_behind a p s i le =
    run_puts_above (header_memory a p) (content_puts a p) (reloc_raw p) i
      (content_puts-InBlock a p (reloc_raw p) (omega arith) s) le
    ∙ run_puts_above (run_puts zeroed (pe_header_puts a p)) (section_header_puts a p) (reloc_raw p)
        i (section_header_puts-InBlock a p (reloc_raw p) (omega arith)) le
    ∙ run_puts_above zeroed (pe_header_puts a p) (reloc_raw p) i
        (pe_header_puts-InBlock a p (reloc_raw p) (omega arith)) le

made-Spread : (code : ℕ) (a : NtArtifact) (p : ImagePlan) → IsMade code a p → Spread 0 p.rvas
unfolding sized_plan
made-Spread code a p h =
    subst (Spread 0) (ap (λ (q : ImagePlan). q.rvas) h.made)
      (sorted-Spread (h.l.rdata ∷ h.sites) h.apart)

made-relocs :
    (code : ℕ) (a : NtArtifact) (p : ImagePlan)
    → IsMade code a p
    → reloc_size (length p.rvas) p.rvas 0 ≡ p.relocs
unfolding sized_plan
made-relocs code a p h =
    subst (λ (q : ImagePlan). reloc_size (length q.rvas) q.rvas 0 ≡ q.relocs) h.made refl

made-some :
    (code : ℕ) (a : NtArtifact) (p : ImagePlan) → IsMade code a p → (length p.rvas == 0) ≡ false
unfolding sized_plan
made-some code a p h =
    let rvas : qsort leb (h.l.rdata ∷ h.sites) ≡ p.rvas = ap (λ (q : ImagePlan). q.rvas) h.made in
    let sizes = length-qsort (h.l.rdata ∷ h.sites) in
    subst (λ xs. (length xs == 0) ≡ false) rvas (ground arith)

module _ (code : ℕ) (a : NtArtifact) (p : ImagePlan) (made : IsMade code a p) (s : Sized a p) where
  abbrev sized : IsSized a p
  sized = made-IsSized code a p made

  abbrev headers : HasHeaders (whole_memory a p) a p
  headers = headers_stored (whole_memory a p) a p (headers_kept a p) sized

  relocations_ok :
      scan_blocks p.relocs (whole_memory a p) (all_sections a p) (reloc_raw p) p.relocs 0 none 0
      ≡ ok (length p.rvas)
  relocations_ok =
      let small = sized.small in
      let relocs = sized.relocs in
      blocks_stored (length p.rvas) p.relocs (content_memory a p) (all_sections a p) (reloc_raw p)
        (reloc_raw p) p.relocs 0 none 0 0 p.rvas (omega arith) (omega arith) (omega arith)
        (omega arith) (made-relocs code a p made) (zero_behind a p s)
        (rvas-IsSite a p sized code made) (made-Spread code a p made) tt
      ∙ ap ok (omega arith)

  base_relocations_ok :
      base_relocations (whole_memory a p) 128 (all_sections a p) ≡ ok (length p.rvas)
  unfolding base_relocations
  base_relocations_ok =
      let (
        x0,
        (
          x1,
          (
            x2,
            (
              x3,
              (x4, (x5, (x6, (x7, (x8, (x9, (x10, (x11, (x12, (x13, (x14, (size, rest)))))))))))),
            ),
          ),
        ),
      ) =
        headers.words32 in
      rw
        (
          relocation_table_ok a p sized (whole_memory a p) headers,
          size,
          relocations_ok,
          made-some code a p made,
        )
        refl

  inspect_ok : inspect (whole_memory a p) (image_bytes p) ≡ ok (info_of a p)
  unfolding inspect r64
  inspect_ok =
      let (
        x0,
        (x1, (x2, (x3, (x4, (entry, (low, (high, (x8, (x9, (image, (header, rest))))))))))),
      ) =
        headers.words32 in
      rw
        (
          dos_header_ok (whole_memory a p) a p sized headers,
          file_header_ok (whole_memory a p) a p sized headers,
          section_table_ok (whole_memory a p) a p sized headers,
          optional_header_ok (whole_memory a p) a p sized headers,
          sections_ok (whole_memory a p) a p sized headers,
          base_relocations_ok,
          entry,
          image,
          header,
          low,
          high,
          headers.words16.1.1.0,
        )
        refl

inspect_accepts :
    (alloc : Bool) (code : ℕ) (a : NtArtifact) (p : ImagePlan)
    → image_plan alloc code a ≡ some p
    → inspect (run_puts zeroed (image_puts a p)) (image_bytes p) ≡ ok (info_of a p)
inspect_accepts alloc code a p h =
    ap (λ (m : Mem). inspect m (image_bytes p)) (image_puts-whole_memory a p)
    ∙ inspect_ok code a p (image_plan-IsMade alloc code a p h) (image_plan-Sized alloc code a p h)

-- The bytes of the image are those in memory.
loaded : (m : Mem) (n : ℕ) → inspect (bytes_of (load m 0 n)) (length (load m 0 n)) ≡ inspect m n
loaded m n =
    ap (inspect (bytes_of (load m 0 n))) (length-load m 0 n)
    ∙ inspect_local (bytes_of (load m 0 n)) m n
        (λ i lo lt. get_or-load m 0 n i lt ∙ ap m (omega arith))

-- The artifact with its image, of a plan.
with_image : NtArtifact → ImagePlan → NtArtifact
with_image a p = record a { pe = at (load (run_puts zeroed (image_puts a p)) 0 (image_bytes p)) }

make_pe-plan :
    (table_alloc alloc : Bool) (code : ℕ) (a a' : NtArtifact)
    → make_pe table_alloc alloc code a ≡ (true, a')
    → (p : ImagePlan) × (image_plan table_alloc code a ≡ some p) × (with_image a p ≡ a')
unfolding make_pe with_image
make_pe-plan table_alloc alloc code a a' h = elim (Option-cases (image_plan table_alloc code a)) [
  | inl e ↦ absurd (cc)
  | inr (p, e) ↦ elim (Bool-cases alloc) [ inl f ↦ (p, e, cc) | inr f ↦ absurd (cc) ]
]

-- When `nt_make_pe` returns 1, `nt_pe_inspect` accepts the image that it leaves in the artifact, and reports
-- what the plan of that image says: the artifact's entry in the code section, the size of the image,
-- headers of 1024 bytes, four sections, and as many base relocations as the plan has sites.
pub make_pe-accepted :
    (table_alloc alloc : Bool) (code : ℕ) (a a' : NtArtifact)
    → make_pe table_alloc alloc code a ≡ (true, a')
    → (p : ImagePlan) × (image_plan table_alloc code a ≡ some p)
      × (inspect (bytes_of (items a'.pe)) (count a'.pe) ≡ ok (info_of a p))
unfolding with_image
make_pe-accepted table_alloc alloc code a a' h =
    let (p, planned, e) = make_pe-plan table_alloc alloc code a a' h in
    (
      p,
      planned,
      subst (λ (b : NtArtifact). inspect (bytes_of (items b.pe)) (count b.pe) ≡ ok (info_of a p)) e
          (loaded (run_puts zeroed (image_puts a p)) (image_bytes p)
            ∙ inspect_accepts table_alloc code a p planned),
    )
