-- ===== src/Materialize/Loop.antt =====
-- The loop of `nt_object_materialize` over the relocations.
use nexoragenesis_toolchain.Base.{
  ℕ, zero, suc, ◌+◌, ◌-◌, ◌≤◌, ◌<◌, ◌≡◌, ◌∙◌, ◌⊎◌, inl, inr, refl, subst, List, [], ◌∷◌, ◌++◌, some,
  ◌==◌, if◌then◌else◌, length, get_or, arith, Bool-cases, get_elem?, All,
}
use mathlib.Core.Option.{some-injective}
use mathlib.Core.List.{append_assoc, append-nil}
use nexoragenesis_toolchain.Outcome.{ok, >>=-eq-ok}
use nexoragenesis_toolchain.Memory.{le_bytes}
use nexoragenesis_toolchain.Object.{NtObject, NtObjectReloc, NtObjectSymbol, items, dir64}
use nexoragenesis_toolchain.PeLayout.{NtPeLayout}
use nexoragenesis_toolchain.Materialize.{
  NtArtifact, NtBaseReloc, store_width, resolved, apply_reloc, apply_relocs,
}
use nexoragenesis_toolchain.Materialize.Sites.{
  bytes, Off, SiteFits, Applied, apply_reloc-Applied, step_length, step-Off, step_site, step_bases,
}

-- The base relocations of a list of relocations: the sites of its DIR64 entries, in order.
unfoldable pub bases : List NtObjectReloc → List NtBaseReloc
bases [] = []
bases (r ∷ rs) =
    let rest = bases rs in
    if r.kind == dir64 then record { section = r.section; offset = r.offset } ∷ rest else rest

abbrev pub InSection : NtObjectReloc → Type 0
InSection r = (1 ≤ r.section) × (r.section ≤ 3)

-- The value of `r` stands at its site in the artifact.
pub record Resolved (l : NtPeLayout) (o : NtObject) (r : NtObjectReloc) (a : NtArtifact)
    : Type 0 where
  pub symbol : NtObjectSymbol
  pub symbol_named : get_elem? (items o.symbols) (r.target - 1) ≡ some symbol
  pub value : ℕ
  pub value_resolved : resolved l r symbol ≡ some value
  pub bytes_stored :
      (k : ℕ)
      → k < store_width r
      → get_or (bytes a r.section) (r.offset + k) 0 ≡ get_or (le_bytes (store_width r) value) k 0

module _ (o : NtObject) (l : NtPeLayout) where
  pub loop_length :
      (rs : List NtObjectReloc) (a a' : NtArtifact)
      → All InSection rs
      → apply_relocs o l rs a ≡ ok a'
      → (section : ℕ) → 1 ≤ section
      → section ≤ 3
      → length (bytes a' section) ≡ length (bytes a section)
  unfolding apply_relocs
  loop_length [] a a' w h section lo hi = let e : a ≡ a' = cc in rw e
  loop_length (r ∷ rs) a a' w h section lo hi =
      let (b, e, f) = >>=-eq-ok (apply_reloc o l r a) _ h in
      loop_length rs b a' w.1 f section lo hi
      ∙ step_length l o r a b (apply_reloc-Applied o l r a b e) w.0.0 w.0.1 section lo hi

  -- A byte off every site keeps its value.
  pub loop-Off :
      (rs : List NtObjectReloc) (a a' : NtArtifact) (section i : ℕ)
      → All InSection rs
      → apply_relocs o l rs a ≡ ok a'
      → 1 ≤ section
      → section ≤ 3
      → ((j : ℕ) (r : NtObjectReloc) → get_elem? rs j ≡ some r → Off r section i)
      → get_or (bytes a' section) i 0 ≡ get_or (bytes a section) i 0
  unfolding apply_relocs
  loop-Off [] a a' section i w h lo hi off = let e : a ≡ a' = cc in rw e
  loop-Off (r ∷ rs) a a' section i w h lo hi off =
      let (b, e, f) = >>=-eq-ok (apply_reloc o l r a) _ h in
      loop-Off rs b a' section i w.1 f lo hi (λ j p g. off (suc j) p g)
      ∙ step-Off l o r a b (apply_reloc-Applied o l r a b e) w.0.0 w.0.1 section i lo hi
          (off 0 r refl)

  fits_step :
      (x : NtObjectReloc) (a b : NtArtifact)
      → Applied l o x a b
      → InSection x
      → (rs : List NtObjectReloc) → All (SiteFits a) rs
      → All (SiteFits b) rs
  fits_step x a b p w [] h = tt
  fits_step x a b p w (r ∷ rs) h =
      let len = step_length l o x a b p w.0 w.1 r.section h.0.0 h.0.1 in
      ((h.0.0, h.0.1, omega arith), fits_step x a b p w rs h.1)

  pub fits_in : (a : NtArtifact) (rs : List NtObjectReloc) → All (SiteFits a) rs → All InSection rs
  fits_in a [] h = tt
  fits_in a (r ∷ rs) h = ((h.0.0, h.0.1), fits_in a rs h.1)

  -- The site of `p` ends before that of `r` begins, or is in an earlier section.
  abbrev pub Apart : NtObjectReloc → NtObjectReloc → Type 0
  Apart p r =
      (p.section < r.section) ⊎ ((p.section ≡ r.section) × (p.offset + store_width p ≤ r.offset))

  -- A value once stored stays, since the later sites lie apart.
  site_kept :
      (x : NtObjectReloc) (rs : List NtObjectReloc) (a b a' : NtArtifact)
      → SiteFits a x
      → All InSection rs
      → ((j : ℕ) (r : NtObjectReloc) → get_elem? rs j ≡ some r → Apart x r)
      → Applied l o x a b
      → apply_relocs o l rs b ≡ ok a'
      → Resolved l o x a'
  site_kept x rs a b a' fit w apart p f = record {
    symbol = p.symbol;
    symbol_named = p.symbol_named;
    value = p.value;
    value_resolved = p.value_resolved;
    bytes_stored = λ k lt.
        loop-Off rs b a' x.section (x.offset + k) w f fit.0 fit.1
          (λ j r g. let d = apart j r g in ground arith)
        ∙ step_site l o x a b p fit k lt;
  }

  pub loop_sites :
      (rs : List NtObjectReloc) (a a' : NtArtifact)
      → All (SiteFits a) rs
      → ((i j : ℕ) (p r : NtObjectReloc)
          → i < j
          → get_elem? rs i ≡ some p
          → get_elem? rs j ≡ some r
          → Apart p r)
      → apply_relocs o l rs a ≡ ok a'
      → (j : ℕ) (r : NtObjectReloc) → get_elem? rs j ≡ some r
      → Resolved l o r a'
  unfolding apply_relocs
  loop_sites [] a a' fits apart h j r g = cc
  loop_sites (x ∷ rs) a a' fits apart h zero r g =
      let (b, e, f) = >>=-eq-ok (apply_reloc o l x a) _ h in
      subst (λ (y : NtObjectReloc). Resolved l o y a') (some-injective _ _ g)
        (site_kept x rs a b a' fits.0 (fits_in a rs fits.1)
          (λ j' r' g'. apart 0 (suc j') x r' (omega arith) refl g')
          (apply_reloc-Applied o l x a b e) f)
  loop_sites (x ∷ rs) a a' fits apart h (suc j) r g =
      let (b, e, f) = >>=-eq-ok (apply_reloc o l x a) _ h in
      let p = apply_reloc-Applied o l x a b e in
      loop_sites rs b a' (fits_step x a b p (fits.0.0, fits.0.1) rs fits.1)
        (λ i k y z lt g1 g2. apart (suc i) (suc k) y z (omega arith) g1 g2) f j r g

  pub loop_bases :
      (rs : List NtObjectReloc) (a a' : NtArtifact)
      → apply_relocs o l rs a ≡ ok a'
      → items a'.base_relocations ≡ items a.base_relocations ++ bases rs
  unfolding apply_relocs bases
  loop_bases [] a a' h = let e : a ≡ a' = cc in rw (← e, append-nil)
  loop_bases (x ∷ rs) a a' h =
      let (b, e, f) = >>=-eq-ok (apply_reloc o l x a) _ h in
      let p = apply_reloc-Applied o l x a b e in
      loop_bases rs b a' f
      ∙ rw (step_bases l o x a b p) (elim (Bool-cases (x.kind == dir64)) [
        | inl d ↦ rw d (append_assoc (items a.base_relocations) _ (bases rs))
        | inr d ↦ rw d
      ])
