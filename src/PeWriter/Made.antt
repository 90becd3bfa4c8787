-- ===== src/PeWriter/Made.antt =====
-- What `nt_make_pe` of bootstrap/quarantine/c/ntasm.c has tested when it has a plan.
use nexoragenesis_toolchain.Base.{
  ℕ, ◌≡◌, inl, inr, Bool, false, List, ◌∷◌, some, leb, Bool-cases, Option-cases,
}
use nexoragenesis_toolchain.Object.{count, items}
use nexoragenesis_toolchain.PeLayout.{NtPeLayout, pe_layout}
use nexoragenesis_toolchain.Link.Sort.{qsort}
use nexoragenesis_toolchain.Materialize.{NtArtifact}
use nexoragenesis_toolchain.PeWriter.{
  refused_artifact, site_rvas, overlapping, ImagePlan, sized_plan, image_plan,
}

-- What has passed the tests, and the plan that it gives.
pub record IsMade (code : ℕ) (a : NtArtifact) (p : ImagePlan) : Type 0 where
  pub l : NtPeLayout
  pub sites : List ℕ
  pub accepted : refused_artifact code a ≡ false
  pub layout_ok : pe_layout (count a.text) (count a.rdata) (count a.data_) ≡ some l
  pub in_sections : site_rvas a l (items a.base_relocations) ≡ some sites
  pub apart : overlapping (qsort leb (l.rdata ∷ sites)) ≡ false
  pub made : sized_plan a l (qsort leb (l.rdata ∷ sites)) ≡ p

pub image_plan-IsMade :
    (alloc : Bool) (code : ℕ) (a : NtArtifact) (p : ImagePlan)
    → image_plan alloc code a ≡ some p
    → IsMade code a p
unfolding image_plan
image_plan-IsMade alloc code a p h = elim (Bool-cases (refused_artifact code a)) [
  | inl e ↦ absurd (cc)
  | inr e ↦ elim (Option-cases (pe_layout (count a.text) (count a.rdata) (count a.data_))) [
    | inl f ↦ absurd (cc)
    | inr (l, f) ↦ elim (Bool-cases alloc) [
      | inr g ↦ absurd (cc)
      | inl g ↦ elim (Option-cases (site_rvas a l (items a.base_relocations))) [
        | inl k ↦ absurd (cc)
        | inr (sites, k) ↦ elim (Bool-cases (overlapping (qsort leb (l.rdata ∷ sites)))) [
          | inl o ↦ absurd (cc)
          | inr o ↦ record {
            l = l;
            sites = sites;
            accepted = e;
            layout_ok = f;
            in_sections = k;
            apart = o;
            made = cc;
          }
        ]
      ]
    ]
  ]
]
