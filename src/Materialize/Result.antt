-- ===== src/Materialize/Result.antt =====
-- The image sections that `nt_object_materialize` of object_materialize.c makes.
use nexoragenesis_toolchain.Base.{
  ℕ, zero, suc, ◌+◌, ◌-◌, ◌≤◌, ◌<◌, ◌≡◌, ◌∙◌, ◌⊎◌, inl, inr, refl, ap, subst, List, [], ◌∷◌, ◌++◌,
  ◌!=◌, ◌&&◌, not, false, All-of_get, some, ◌==◌, if◌then◌else◌, length, get_or, arith, Bool,
  get_elem?, All, All-get, true,
}
use nexoragenesis_toolchain.Outcome.{ok, >>=-eq-ok, >>-eq-ok, Outcome-cases, fail_if}
use nexoragenesis_toolchain.Object.{
  NtObject, NtObjectReloc, NtBuffer, Table, null, at, count, items, is_null, sections,
}
use nexoragenesis_toolchain.Object.Spec.{HasTexts, WellFormed, IsReloc}
use nexoragenesis_toolchain.Object.Validate.{validate, width}
use nexoragenesis_toolchain.Object.Validity.{validate_iff}
use nexoragenesis_toolchain.PeLayout.{NtPeLayout, pe_layout, layout_of}
use nexoragenesis_toolchain.PeLayout.Order.{IsLayout, SizesFit, pe_layout-IsLayout}
use nexoragenesis_toolchain.Base.Int.{IsI64}
use nexoragenesis_toolchain.Materialize.Values.{Leads, Resolved-Leads}
use nexoragenesis_toolchain.Materialize.{
  NtArtifact, NtBaseReloc, store_width, materialize_prologue, materialize_sections, materialize,
  allocate_bases, imports_left, Site, text_copy, rdata_copy, data_copy, base_table, clone,
  absolute_count, entry_offset,
}
use nexoragenesis_toolchain.Materialize.Sites.{bytes, Off, SiteFits}
use nexoragenesis_toolchain.Materialize.Loop.{
  bases, loop_length, loop-Off, loop_sites, loop_bases, fits_in,
}

-- The sections of the object before the relocations.
abbrev source : NtObject → ℕ → List ℕ
source o section =
    if section == 1 then items o.text else if section == 2 then items o.rdata else items o.data_

-- The artifact of a linked object: its three sections keep their sizes; each relocation leads from
-- its site to the symbol that it names, plus its addend; every other byte is the object's; and the base
-- relocations are the DIR64 sites in order.
pub record IsMaterialized (o : NtObject) (a : NtArtifact) : Type 0 where
  pub layout : NtPeLayout
  pub laid_out : pe_layout (count o.text) (count o.rdata) (count o.data_) ≡ some layout
  pub sizes :
      (section : ℕ)
      → 1 ≤ section
      → section ≤ 3
      → length (bytes a section) ≡ length (source o section)
  pub sites :
      (j : ℕ) (r : NtObjectReloc) → get_elem? (items o.relocations) j ≡ some r → Leads layout o r a
  pub others :
      (section i : ℕ)
      → 1 ≤ section
      → section ≤ 3
      → ((j : ℕ) (r : NtObjectReloc) → get_elem? (items o.relocations) j ≡ some r → Off r section i)
      → get_or (bytes a section) i 0 ≡ get_or (source o section) i 0
  pub base_sites : items a.base_relocations ≡ bases (items o.relocations)

items-clone : (alloc : Bool) (b c : NtBuffer) → clone alloc b ≡ ok c → items c ≡ items b
unfolding clone
items-clone alloc (null zero) c h = let e : null 0 ≡ c = cc in rw (← e)
items-clone alloc (null (suc n)) c h = ground arith
items-clone alloc (at []) c h = let e : null 0 ≡ c = cc in rw (← e)
items-clone alloc (at (x ∷ xs)) c h = ground arith

prologue_layout :
    (o : NtObject) (a : NtArtifact) (l : NtPeLayout)
    → materialize_prologue o a ≡ ok l
    → (validate o ≡ ok tt)
      × (pe_layout (count o.text) (count o.rdata) (count o.data_) ≡ some l)
      × (imports_left (items o.symbols) ≡ false)
unfolding materialize_prologue
prologue_layout o a l h = (ground arith, ground arith, ground arith)

prologue_bases :
    (o : NtObject) (a : NtArtifact) (l : NtPeLayout)
    → materialize_prologue o a ≡ ok l
    → is_null a.base_relocations ≡ true
unfolding materialize_prologue
prologue_bases o a l h = ground arith

-- The table begins empty.
no_bases :
    (absolute : ℕ) (old : Table NtBaseReloc)
    → is_null old ≡ true
    → count old ≡ 0
    → items (allocate_bases absolute old) ≡ []
unfolding allocate_bases
no_bases absolute (null zero) h e = ground arith
no_bases absolute (null (suc n)) h e = absurd (omega arith)
no_bases absolute (at xs) h e = cc

laid_out-IsLayout :
    (o : NtObject) (l : NtPeLayout)
    → pe_layout (count o.text) (count o.rdata) (count o.data_) ≡ some l
    → SizesFit (count o.text) (count o.rdata) (count o.data_)
      × IsLayout (count o.text) (count o.rdata) (count o.data_) l
laid_out-IsLayout o l h = elim (pe_layout-IsLayout (count o.text) (count o.rdata) (count o.data_)) [
  | inr (unfit, e) ↦ absurd (cc)
  | inl (fit, e, p) ↦
      let same : layout_of (count o.text) (count o.rdata) (count o.data_) ≡ l = cc in
      (fit, subst (IsLayout (count o.text) (count o.rdata) (count o.data_)) same p)
]

width-store_width : (r : NtObjectReloc) → (r.kind ≡ 1) ⊎ (r.kind ≡ 2) → width r.kind ≡ store_width r
unfolding width
width-store_width r h = ground arith

count-length :
    {A : Type 0} (t : Table A) → (count t ≡ 0) ⊎ (is_null t ≡ false) → count t ≡ length (items t)
count-length (null n) h = ground arith
count-length (at xs) h = refl

module _ (o : NtObject) (w : WellFormed o) where
  source-length : (k : ℕ) → k < 3 → count (sections o k) ≡ length (source o (k + 1))
  source-length zero h = count-length o.text w.payloads.0.1
  source-length (suc zero) h = count-length o.rdata w.payloads.1.1
  source-length (suc (suc k)) h = ground (arith, count-length o.data_ w.payloads.2.1)

  -- Every site of a well-formed object lies in its section.
  sites_fit :
      (a : NtArtifact)
      → ((section : ℕ) → 1 ≤ section → section ≤ 3 → bytes a section ≡ source o section)
      → (r : NtObjectReloc) → IsReloc o r
      → SiteFits a r
  sites_fit a same r i =
      let len = source-length (r.section - 1) (omega arith) in
      let one : r.section - 1 + 1 ≡ r.section = omega arith in
      let wid = width-store_width r i.kind_known in
      let here = ap length (same r.section i.in_section.0 i.in_section.1) in
      let moved = ap (λ k. length (source o k)) one in
      let site = i.site in (i.in_section.0, i.in_section.1, omega arith)

sections-IsMaterialized :
    (alloc : Site → Bool) (o : NtObject) (a a' : NtArtifact) (l : NtPeLayout)
    → All HasTexts (items o.symbols)
    → All (λ r. IsI64 r.addend) (items o.relocations)
    → count a.base_relocations ≡ 0
    → materialize_prologue o a ≡ ok l
    → materialize_sections alloc o a l ≡ ok a'
    → IsMaterialized o a'
unfolding materialize_sections
sections-IsMaterialized alloc o a a' l texts bounded zeroed pro h =
    let (valid, laid, closed) = prologue_layout o a l pro in
    let w = (validate_iff o texts).0 valid in
    let (text, e1, h1) = >>=-eq-ok (clone (alloc text_copy) o.text) _ h in
    let (rdata, e2, h2) = >>=-eq-ok (clone (alloc rdata_copy) o.rdata) _ h1 in
    let (data_, e3, h3) = >>=-eq-ok (clone (alloc data_copy) o.data_) _ h2 in
    let (e4, run) =
      >>-eq-ok
        (fail_if (absolute_count (items o.relocations) != 0 && not (alloc base_table)) 0
          "base relocation allocation failed")
        _ h3 in
    let start : NtArtifact = record {
      text = text;
      pe = a.pe;
      rdata = rdata;
      data_ = data_;
      entry = entry_offset o;
      base_relocations = allocate_bases (absolute_count (items o.relocations)) a.base_relocations;
    } in
    let copies : (section : ℕ)
        → 1 ≤ section
        → section ≤ 3
        → bytes start section ≡ source o section =
      λ section lo hi. ground (
        arith,
        items-clone _ o.text text e1,
        items-clone _ o.rdata rdata e2,
        items-clone _ o.data_ data_ e3,
      ) in
    let fits : All (SiteFits start) (items o.relocations) =
      All-of_get (SiteFits start) _ (λ j r g. sites_fit o w start copies r (w.each_reloc j r g)) in
    record {
      layout = l;
      laid_out = laid;
      sizes = λ section lo hi.
          loop_length o l _ start a' (fits_in o l start _ fits) run section lo hi
          ∙ ap length (copies section lo hi);
      sites = λ j r g.
          let (sizes, is_layout) = laid_out-IsLayout o l laid in
          Resolved-Leads o l w sizes is_layout closed r (w.each_reloc j r g)
            (All-get (λ (q : NtObjectReloc). IsI64 q.addend) (items o.relocations) j bounded g) a'
            (loop_sites o l _ start a' fits
              (λ i k p q lt g1 g2.
                let d = w.disjoint i k p q lt g1 g2 in
                let e = width-store_width p (w.each_reloc i p g1).kind_known in rw e at d)
              run j r g);
      others = λ section i lo hi off.
          loop-Off o l _ start a' section i (fits_in o l start _ fits) run lo hi off
          ∙ ap (λ xs. get_or xs i 0) (copies section lo hi);
      base_sites =
          loop_bases o l _ start a' run
          ∙ ap (λ xs. xs ++ bases (items o.relocations))
              (no_bases (absolute_count (items o.relocations)) a.base_relocations
                (prologue_bases o a l pro) zeroed);
    }

-- `nt_object_materialize`, when it succeeds on an object whose names and contracts are C strings and
-- whose addends are int64_t, into an artifact that counts no base relocations, leaves the artifact of
-- that object: at the site of each REL32 relocation stands the signed displacement from its end to the
-- symbol that it names plus its addend, at the site of each DIR64 relocation the address of that symbol
-- plus its addend at the preferred image base, no other byte changes, and the base relocations are the
-- DIR64 sites in order.
pub materialize-IsMaterialized :
    (alloc : Site → Bool) (o : NtObject) (a a' : NtArtifact)
    → All HasTexts (items o.symbols)
    → All (λ r. IsI64 r.addend) (items o.relocations)
    → count a.base_relocations ≡ 0
    → materialize alloc o a ≡ (ok tt, a')
    → IsMaterialized o a'
unfolding materialize
materialize-IsMaterialized alloc o a a' texts bounded zeroed h =
    elim (Outcome-cases (materialize_prologue o a)) [
      | inr (e, eq) ↦ absurd (ground (arith, eq))
      | inl (l, eq) ↦ elim (Outcome-cases (materialize_sections alloc o a l)) [
        | inr (e, eq2) ↦ absurd (ground (arith, eq, eq2))
        | inl (b, eq2) ↦
            let same : b ≡ a' = ground (arith, eq, eq2) in
            subst (IsMaterialized o) same
              (sections-IsMaterialized alloc o a b l texts bounded zeroed eq eq2)
      ]
    ]
