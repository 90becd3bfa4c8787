-- ===== src/PeWriter/Planned.antt =====
-- The plans that `nt_make_pe` of bootstrap/quarantine/c/ntasm.c makes.
use nexoragenesis_toolchain.Base.{
  ℕ, zero, suc, ◌+◌, ◌-◌, ◌*◌, ◌%◌, ◌^◌, ◌≤◌, ◌<◌, ◌≡◌, refl, ap, inl, inr, false, ◌||◌, List, [],
  ◌∷◌, some, ◌==◌, ◌!=◌, ltb, leb, if◌then◌else◌, length, arith, subst, All, Bool-cases,
  Option-cases, ◌∙◌,
}
use nexoragenesis_toolchain.Object.{count, items}
use nexoragenesis_toolchain.PeLayout.{NtPeLayout, align_u32, pe_layout, layout_of, section_limit}
use nexoragenesis_toolchain.PeLayout.Order.{pe_layout-IsLayout, SizesFit}
use nexoragenesis_toolchain.Link.Sort.{qsort}
use nexoragenesis_toolchain.Materialize.{NtArtifact, NtBaseReloc}
use nexoragenesis_toolchain.PeInspect.{page_up}
use nexoragenesis_toolchain.PeWriter.{
  align32, site_limit, site_base, refused_artifact, site_rvas, split_page, page_of, block_size,
  reloc_size, ImagePlan, sized_plan,
}
use nexoragenesis_toolchain.Object.Write.Bounds.{length-items}
use nexoragenesis_toolchain.PeWriter.Made.{IsMade}
use nexoragenesis_toolchain.PeWriter.Stores.{reloc_size-le}
use nexoragenesis_toolchain.PeWriter.Pages.{length-qsort}

-- A relocation names eight bytes of one of the three sections.
abbrev pub IsInside : NtArtifact → NtBaseReloc → Type 0
IsInside a r = (1 ≤ r.section) × (r.section ≤ 3) × (r.offset + 8 ≤ site_limit a r)

site_rvas-cons :
    (a : NtArtifact) (l : NtPeLayout) (r : NtBaseReloc) (rs : List NtBaseReloc) (sites : List ℕ)
    → site_rvas a l (r ∷ rs) ≡ some sites
    → (rest : List ℕ) × IsInside a r
      × (site_rvas a l rs ≡ some rest)
      × ((site_base l r + r.offset) % 2 ^ 32 ∷ rest ≡ sites)
unfolding site_rvas
site_rvas-cons a l r rs sites h =
    elim (Bool-cases (
      ltb r.section 1
      || ltb 3 r.section
      || ltb (site_limit a r) r.offset
      || ltb (site_limit a r - r.offset) 8)) [
        | inl e ↦ absurd (cc)
        | inr e ↦ elim (Option-cases (site_rvas a l rs)) [
          | inl f ↦ absurd (cc)
          | inr (rest, f) ↦ (rest, ground arith, f, cc)
        ]
      ]

length-site_rvas :
    (a : NtArtifact) (l : NtPeLayout) (rs : List NtBaseReloc) (sites : List ℕ)
    → site_rvas a l rs ≡ some sites
    → length sites ≡ length rs
unfolding site_rvas
length-site_rvas a l [] sites h = let e : [] ≡ sites = cc in rw (← e) refl
length-site_rvas a l (r ∷ rs) sites h =
    let (rest, inside, f, e) = site_rvas-cons a l r rs sites h in
    let later = length-site_rvas a l rs rest f in rw (← e) (omega arith)

-- A property of the sites in the sections is one of all sites.
pub All-site_rvas :
    (P : ℕ → Type 0) (a : NtArtifact) (l : NtPeLayout) (rs : List NtBaseReloc) (sites : List ℕ)
    → ((r : NtBaseReloc) → IsInside a r → P ((site_base l r + r.offset) % 2 ^ 32))
    → site_rvas a l rs ≡ some sites
    → All P sites
unfolding site_rvas
All-site_rvas P a l [] sites each h = let e : [] ≡ sites = cc in subst (All P) e tt
All-site_rvas P a l (r ∷ rs) sites each h =
    let (rest, inside, f, e) = site_rvas-cons a l r rs sites h in
    subst (All P) e (each r inside, All-site_rvas P a l rs rest each f)

length-split_page :
    (page : ℕ) (rs : List ℕ)
    → length (split_page page rs).0 + length (split_page page rs).1 ≡ length rs
unfolding split_page
length-split_page page [] = refl
length-split_page page (r ∷ rs) = elim (Bool-cases (page_of r == page)) [
  | inl e ↦ let rest = length-split_page page rs in rw (e, split_page) (omega arith)
  | inr e ↦ rw (e, split_page) (omega arith)
]

-- A block takes at most twelve bytes for each of its sites.
pub reloc_size_bound :
    (fuel : ℕ) (rvas : List ℕ) (size : ℕ) → reloc_size fuel rvas size ≤ size + 12 * length rvas
unfolding reloc_size align32
reloc_size_bound zero rvas size = omega arith
reloc_size_bound (suc fuel) [] size = omega arith
reloc_size_bound (suc fuel) (r ∷ rvas) size =
    let (block, rest) = split_page (page_of r) rvas in
    let all = length-split_page (page_of r) rvas in
    let later = reloc_size_bound fuel rest (size + block_size (length block)) in omega arith

-- The sizes and the addresses of a plan.
pub record IsSized (a : NtArtifact) (p : ImagePlan) : Type 0 where
  pub entry : a.entry < count a.text
  pub text : (0 < count a.text) × (count a.text ≤ p.text_raw) × (p.text_raw % 512 ≡ 0)
  pub rdata :
      (p.rdata_size ≡ 8 + count a.rdata)
      × (p.rdata_size ≤ p.rdata_raw_size)
      × (p.rdata_raw_size % 512 ≡ 0)
  pub data_ :
      (count a.data_ ≤ p.data_size)
      × (0 < p.data_size)
      × (p.data_size ≤ p.data_raw_size)
      × (p.data_raw_size % 512 ≡ 0)
  pub relocs : (10 ≤ p.relocs) × (p.relocs ≤ p.reloc_raw_size) × (p.reloc_raw_size % 512 ≡ 0)
  pub pages :
      (page_up (4096 + count a.text) ≡ p.layout.rdata)
      × (page_up (p.layout.rdata + p.rdata_size) ≡ p.layout.data_)
      × (page_up (p.layout.data_ + p.data_size) ≡ p.layout.reloc)
  pub small :
      (p.layout.reloc < 2 ^ 26)
      × (p.text_raw < 2 ^ 26)
      × (p.rdata_raw_size < 2 ^ 26)
      × (p.data_raw_size < 2 ^ 26)
      × (p.reloc_raw_size < 2 ^ 26)

first_block : (rvas : List ℕ) → 0 < length rvas → 10 ≤ reloc_size (length rvas) rvas 0
unfolding reloc_size align32
first_block [] h = absurd (omega arith)
first_block (r ∷ rvas) h =
    let (block, rest) = split_page (page_of r) rvas in
    let later = reloc_size-le (length rvas) rest (0 + block_size (length block)) in omega arith

align32_512 : (v : ℕ) → (v ≤ align32 v 512) × (align32 v 512 < v + 512) × (align32 v 512 % 512 ≡ 0)
unfolding align32
align32_512 v = omega arith

-- What the tests on the artifact leave.
pub accepted_sizes :
    (code : ℕ) (a : NtArtifact)
    → refused_artifact code a ≡ false
    → SizesFit (count a.text) (count a.rdata) (count a.data_)
      × (a.entry < count a.text)
      × (count a.base_relocations ≤ 1048576)
unfolding refused_artifact
accepted_sizes code a h = ground arith

-- The data section of an artifact without data has eight bytes.
abbrev some_data : ℕ → ℕ
some_data n = if n != 0 then n else 8

some_data_bounds :
    (n : ℕ)
    → n ≤ section_limit
    → (n ≤ some_data n) × (0 < some_data n) × (some_data n ≤ section_limit)
some_data_bounds n h = ground arith

layout_of-pages :
    (text rdata data_size : ℕ)
    → SizesFit text rdata data_size
    → (page_up (4096 + text) ≡ (layout_of text rdata data_size).rdata)
      × (page_up ((layout_of text rdata data_size).rdata + (8 + rdata))
          ≡ (layout_of text rdata data_size).data_)
      × (page_up ((layout_of text rdata data_size).data_ + some_data data_size)
          ≡ (layout_of text rdata data_size).reloc)
      × ((layout_of text rdata data_size).reloc < 2 ^ 26)
unfolding layout_of align_u32
layout_of-pages text rdata data_size h = elim (Bool-cases (data_size == 0)) [
  | inl e ↦ ground arith
  | inr e ↦ ground arith
]

sized_plan-IsSized :
    (code : ℕ) (a : NtArtifact) (rvas : List ℕ)
    → refused_artifact code a ≡ false
    → 0 < length rvas
    → length rvas ≤ 1048577
    → IsSized a (sized_plan a (layout_of (count a.text) (count a.rdata) (count a.data_)) rvas)
unfolding sized_plan
sized_plan-IsSized code a rvas accepted some_site few =
    let bound = reloc_size_bound (length rvas) rvas 0 in
    let first = first_block rvas some_site in
    let (fit, entry, relocs) = accepted_sizes code a accepted in
    let pages = layout_of-pages (count a.text) (count a.rdata) (count a.data_) fit in
    let data_size = some_data_bounds (count a.data_) fit.3 in
    let t = align32_512 (count a.text) in
    let r = align32_512 (8 + count a.rdata) in
    let d = align32_512 (some_data (count a.data_)) in
    let b = align32_512 (reloc_size (length rvas) rvas 0) in
    record {
      entry = entry;
      text = (fit.0, t.0, t.2);
      rdata = (refl, r.0, r.2);
      data_ = (data_size.0, data_size.1, d.0, d.2);
      relocs = (first, b.0, b.2);
      pages = (pages.0, pages.1, pages.2);
      small = (pages.3, omega arith, omega arith, omega arith, omega arith);
    }

layout_ok-layout_of :
    (a : NtArtifact) (l : NtPeLayout)
    → pe_layout (count a.text) (count a.rdata) (count a.data_) ≡ some l
    → layout_of (count a.text) (count a.rdata) (count a.data_) ≡ l
layout_ok-layout_of a l h =
    elim (pe_layout-IsLayout (count a.text) (count a.rdata) (count a.data_)) [
      | inl (fit, e, layout) ↦ cc
      | inr (no_fit, e) ↦ absurd (cc)
    ]

pub made-IsSized : (code : ℕ) (a : NtArtifact) (p : ImagePlan) → IsMade code a p → IsSized a p
made-IsSized code a p h =
    let (fit, entry, few) = accepted_sizes code a h.accepted in
    let rvas = qsort leb (h.l.rdata ∷ h.sites) in
    let lengths = length-qsort (h.l.rdata ∷ h.sites) in
    let each = length-site_rvas a h.l (items a.base_relocations) h.sites h.in_sections in
    let all = length-items a.base_relocations in
    let sized = sized_plan-IsSized code a rvas h.accepted (omega arith) (omega arith) in
    subst (IsSized a)
      (ap (λ l. sized_plan a l rvas) (layout_ok-layout_of a h.l h.layout_ok) ∙ h.made) sized

-- The sections of a plan lie one behind another in memory.
pub pages_ordered :
    (a : NtArtifact) (p : ImagePlan)
    → IsSized a p
    → (4096 + count a.text ≤ p.layout.rdata)
      × (p.layout.rdata + p.rdata_size ≤ p.layout.data_)
      × (p.layout.data_ + p.data_size ≤ p.layout.reloc)
pages_ordered a p h = let pages = h.pages in omega arith
