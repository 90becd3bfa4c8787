-- ===== src/PeWriter/Sites.antt =====
-- The addresses of an image of `nt_make_pe` (bootstrap/quarantine/c/ntasm.c) in `map` of pe.c.
use nexoragenesis_toolchain.Base.{
  ℕ, ◌+◌, ◌-◌, ◌%◌, ◌^◌, ◌≤◌, ◌<◌, ◌≡◌, ◌⊎◌, ◌∙◌, refl, ap, true, false, List, [], ◌∷◌, leb, ◌==◌,
  arith, All, inl, inr, some, subst, sym,
}
use nexoragenesis_toolchain.Outcome.{ok}
use nexoragenesis_toolchain.Memory.{Mem}
use nexoragenesis_toolchain.Object.{count, items}
use nexoragenesis_toolchain.Materialize.{NtArtifact, NtBaseReloc}
use nexoragenesis_toolchain.Link.Sort.{qsort, All-qsort}
use nexoragenesis_toolchain.PeLayout.{NtPeLayout}
use nexoragenesis_toolchain.PeInspect.{Section, within, holds, map_rva, relocation_table}
use nexoragenesis_toolchain.PeWriter.{ImagePlan, sized_plan, site_base, site_limit, reloc_raw}
use nexoragenesis_toolchain.PeWriter.Made.{IsMade}
use nexoragenesis_toolchain.PeWriter.Planned.{IsSized, IsInside, pages_ordered, All-site_rvas}
use nexoragenesis_toolchain.PeWriter.Headers.{
  HasHeaders, text_section, rdata_section, data_section, reloc_section,
}
use nexoragenesis_toolchain.PeWriter.Blocks.{IsSite}
use nexoragenesis_toolchain.PeWriter.Stages.{all_sections}

holds-no : (s : Section) (rva size : ℕ) → s.va + s.vs < rva + size → holds s rva size ≡ false
unfolding holds within
holds-no s rva size h = ground arith

holds-yes :
    (s : Section) (rva size : ℕ)
    → s.va ≤ rva
    → rva + size ≤ s.va + s.vs
    → s.vs ≤ s.rs
    → holds s rva size ≡ true
unfolding holds within
holds-yes s rva size le fits stored = ground arith

map_rva-here :
    (s : Section) (ss : List Section) (rva size : ℕ)
    → holds s rva size ≡ true
    → map_rva (s ∷ ss) rva size ≡ some (s.raw + rva - s.va)
unfolding map_rva
map_rva-here s ss rva size h = rw h refl

map_rva-behind :
    (s : Section) (ss : List Section) (rva size : ℕ)
    → holds s rva size ≡ false
    → map_rva (s ∷ ss) rva size ≡ map_rva ss rva size
unfolding map_rva
map_rva-behind s ss rva size h = rw h refl

section_cases :
    (a : NtArtifact) (r : NtBaseReloc)
    → IsInside a r
    → (r.section ≡ 1) ⊎ ((r.section ≡ 2) ⊎ (r.section ≡ 3))
section_cases a r (low, high, fits) = omega arith

module _ (a : NtArtifact) (p : ImagePlan) (sized : IsSized a p) where
  map_table : map_rva (all_sections a p) p.layout.reloc p.relocs ≡ some (reloc_raw p)
  map_table =
      let ordered = pages_ordered a p sized in
      let relocs = sized.relocs in
      map_rva-behind (text_section a p) _ p.layout.reloc p.relocs (holds-no _ _ _ (omega arith))
      ∙ map_rva-behind (rdata_section p) _ p.layout.reloc p.relocs (holds-no _ _ _ (omega arith))
      ∙ map_rva-behind (data_section p) _ p.layout.reloc p.relocs (holds-no _ _ _ (omega arith))
      ∙ map_rva-here (reloc_section p) [] p.layout.reloc p.relocs
          (holds-yes (reloc_section p) _ _ (omega arith) (omega arith) relocs.1)
      ∙ ap some (omega arith)

  pub relocation_table_ok :
      (m : Mem) → HasHeaders m a p → relocation_table m 128 (all_sections a p) ≡ ok (reloc_raw p)
  unfolding relocation_table
  relocation_table_ok m h =
      let (
        x0,
        (
          x1,
          (
            x2,
            (
              x3,
              (x4, (x5, (x6, (x7, (x8, (x9, (x10, (x11, (x12, (x13, (table, (size, rest)))))))))))),
            ),
          ),
        ),
      ) =
        h.words32 in
      let relocs = sized.relocs in
      let some_table : (p.relocs == 0) ≡ false = ground arith in
      rw (table, size, some_table, map_table) refl

  text-IsSite :
      (offset : ℕ)
      → offset + 8 ≤ count a.text
      → IsSite (all_sections a p) ((4096 + offset) % 2 ^ 32)
  text-IsSite offset h =
      let text = sized.text in
      let small = sized.small in
      let there : (4096 + offset) % 2 ^ 32 ≡ 4096 + offset = omega arith in
      subst (IsSite (all_sections a p)) (sym there) (
        omega arith,
        _,
        map_rva-here (text_section a p) _ (4096 + offset) 8
            (holds-yes (text_section a p) _ _ (omega arith) (omega arith) text.1),
      )

  rdata-IsSite :
      (r : ℕ)
      → p.layout.rdata ≤ r
      → r + 8 ≤ p.layout.rdata + p.rdata_size
      → IsSite (all_sections a p) r
  rdata-IsSite r le h =
      let rdata = sized.rdata in
      let small = sized.small in
      let ordered = pages_ordered a p sized in
      (
        omega arith,
        _,
        map_rva-behind (text_section a p) _ r 8 (holds-no (text_section a p) _ _ (omega arith))
            ∙ map_rva-here (rdata_section p) _ r 8
                (holds-yes (rdata_section p) _ _ (omega arith) (omega arith) rdata.1),
      )

  data-IsSite :
      (r : ℕ)
      → p.layout.data_ ≤ r
      → r + 8 ≤ p.layout.data_ + p.data_size
      → IsSite (all_sections a p) r
  data-IsSite r le h =
      let data_ = sized.data_ in
      let small = sized.small in
      let ordered = pages_ordered a p sized in
      (
        omega arith,
        _,
        map_rva-behind (text_section a p) _ r 8 (holds-no (text_section a p) _ _ (omega arith))
            ∙ map_rva-behind (rdata_section p) _ r 8 (holds-no (rdata_section p) _ _ (omega arith))
            ∙ map_rva-here (data_section p) _ r 8
                (holds-yes (data_section p) _ _ (omega arith) (omega arith) data_.2),
      )

  -- Each relocation of the artifact lies in a section of the image.
  inside-IsSite :
      (r : NtBaseReloc)
      → IsInside a r
      → IsSite (all_sections a p) ((site_base p.layout r + r.offset) % 2 ^ 32)
  unfolding site_base site_limit
  inside-IsSite r h =
      let small = sized.small in
      let ordered = pages_ordered a p sized in
      let fits = h.2 in
      let rdata = sized.rdata in
      let data_ = sized.data_ in
      elim (section_cases a r h) [
        | inl e ↦
            let base : site_base p.layout r ≡ 4096 = ground arith in
            rw base (text-IsSite r.offset (ground arith))
        | inr (inl e) ↦
            let there : (site_base p.layout r + r.offset) % 2 ^ 32 ≡ p.layout.rdata + 8 + r.offset =
              ground arith in
            rw there (rdata-IsSite (p.layout.rdata + 8 + r.offset) (omega arith) (ground arith))
        | inr (inr e) ↦
            let there : (site_base p.layout r + r.offset) % 2 ^ 32 ≡ p.layout.data_ + r.offset =
              ground arith in
            rw there (data-IsSite (p.layout.data_ + r.offset) (omega arith) (ground arith))
      ]

  -- So do all that the writer sorts.
  pub rvas-IsSite : (code : ℕ) → IsMade code a p → All (IsSite (all_sections a p)) p.rvas
  unfolding sized_plan
  rvas-IsSite code h =
      let layout : h.l ≡ p.layout = ap (λ (q : ImagePlan). q.layout) h.made in
      let rvas : qsort leb (h.l.rdata ∷ h.sites) ≡ p.rvas = ap (λ (q : ImagePlan). q.rvas) h.made in
      let rdata = sized.rdata in
      subst (All (IsSite (all_sections a p))) rvas (
        All-qsort leb (IsSite (all_sections a p)) (h.l.rdata ∷ h.sites) (
          subst (λ (l : NtPeLayout). IsSite (all_sections a p) l.rdata) (sym layout)
              (rdata-IsSite p.layout.rdata (omega arith) (omega arith)),
          All-site_rvas (IsSite (all_sections a p)) a h.l (items a.base_relocations) h.sites
              (subst
                (λ (l : NtPeLayout).
                  (r : NtBaseReloc)
                  → IsInside a r
                  → IsSite (all_sections a p) ((site_base l r + r.offset) % 2 ^ 32))
                (sym layout) inside-IsSite)
              h.in_sections,
        ))
