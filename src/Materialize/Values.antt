-- ===== src/Materialize/Values.antt =====
-- The addresses and values that `nt_object_materialize` of bootstrap/quarantine/c/object_materialize.c
-- computes for the relocations.
use nexoragenesis_toolchain.Base.{
  ℕ, zero, suc, ◌+◌, ◌-◌, ◌^◌, ◌≤◌, ◌<◌, ◌≡◌, ◌⊎◌, inl, inr, subst, false, List, [], ◌∷◌, some,
  ◌==◌, if◌then◌else◌, get_or, arith, get_elem?, bit_and,
}
use nexoragenesis_toolchain.Base.Int.{pos, ◌+ℤ◌, IsI64}
use nexoragenesis_toolchain.Memory.{le_bytes}
use nexoragenesis_toolchain.Object.{NtObject, NtObjectReloc, NtObjectSymbol, count, items, sections}
use nexoragenesis_toolchain.Object.Spec.{IsSymbol, WellFormed, IsReloc}
use nexoragenesis_toolchain.PeLayout.{
  NtPeLayout, logical_rva, image_base, relocation_value, section_limit,
}
use nexoragenesis_toolchain.PeLayout.Order.{IsLayout, SizesFit}
use nexoragenesis_toolchain.PeLayout.Value.{rel32_iff, dir64_iff, sign_extend}
use nexoragenesis_toolchain.Materialize.{NtArtifact, imports_left, resolved}
use nexoragenesis_toolchain.Materialize.Sites.{bytes}
use nexoragenesis_toolchain.Materialize.Loop.{Resolved}

-- Where the object's section 1, 2 or 3 begins in the image.
abbrev pub address : NtPeLayout → ℕ → ℕ
address l section = if section == 1 then l.text else if section == 2 then l.rdata + 8 else l.data_

-- The value of width bytes stands at the site of `r`.
abbrev pub Stands : NtObjectReloc → NtArtifact → ℕ → ℕ → Type 0
Stands r a width value =
    (k : ℕ)
    → k < width
    → get_or (bytes a r.section) (r.offset + k) 0 ≡ get_or (le_bytes width value) k 0

-- The four bytes of a REL32 relocation, read as a signed displacement, lead from their end to the
-- symbol plus the addend.
abbrev pub IsRel32 : NtPeLayout → NtObjectReloc → NtObjectSymbol → NtArtifact → ℕ → Type 0
IsRel32 l r s a value =
    (r.kind ≡ 1)
    × (value < 2 ^ 32)
    × (pos (address l r.section + r.offset + 4) +ℤ sign_extend value
        ≡ pos (address l s.section + s.offset) +ℤ r.addend)
    × Stands r a 4 value

-- The eight bytes of a DIR64 relocation are the address of the symbol plus the addend, in an image at
-- its preferred base.
abbrev pub IsDir64 : NtPeLayout → NtObjectReloc → NtObjectSymbol → NtArtifact → ℕ → Type 0
IsDir64 l r s a value =
    (r.kind ≡ 2)
    × (value < 2 ^ 64)
    × (pos value ≡ pos (image_base + (address l s.section + s.offset)) +ℤ r.addend)
    × Stands r a 8 value

-- `r` leads to the symbol that it names.
pub record Leads (l : NtPeLayout) (o : NtObject) (r : NtObjectReloc) (a : NtArtifact) : Type 0 where
  pub symbol : NtObjectSymbol
  pub symbol_named : get_elem? (items o.symbols) (r.target - 1) ≡ some symbol
  pub value : ℕ
  pub reads : IsRel32 l r symbol a value ⊎ IsDir64 l r symbol a value

no_import :
    (ss : List NtObjectSymbol) (j : ℕ) (s : NtObjectSymbol)
    → imports_left ss ≡ false
    → get_elem? ss j ≡ some s
    → bit_and s.flags 8 ≡ 0
unfolding imports_left
no_import [] j s h g = cc
no_import (x ∷ ss) zero s h g = let e : x ≡ s = cc in ground arith
no_import (x ∷ ss) (suc j) s h g = no_import ss j s (ground arith) g

module _ (o : NtObject) (l : NtPeLayout) (w : WellFormed o)
    (sizes : SizesFit (count o.text) (count o.rdata) (count o.data_))
    (p : IsLayout (count o.text) (count o.rdata) (count o.data_) l)
    (closed : imports_left (items o.symbols) ≡ false) where
  held_by :
      (section offset : ℕ)
      → 1 ≤ section
      → section ≤ 3
      → offset ≤ count (sections o (section - 1))
      → offset ≤ section_limit
  held_by zero offset lo hi h = absurd (omega arith)
  held_by (suc zero) offset lo hi h = omega (arith, sizes.1)
  held_by (suc (suc zero)) offset lo hi h = omega (arith, sizes.2)
  held_by (suc (suc (suc zero))) offset lo hi h = omega (arith, sizes.3)
  held_by (suc (suc (suc (suc k)))) offset lo hi h = absurd (omega arith)

  address_small :
      (section offset : ℕ)
      → 1 ≤ section
      → section ≤ 3
      → offset ≤ count (sections o (section - 1))
      → (logical_rva l section ≡ address l section) × (address l section + offset < 2 ^ 27)
  unfolding logical_rva
  address_small section offset lo hi h =
      let first = p.first_page in
      let small = p.small in
      let (code_size, code, constants, variables) = sizes in
      let order0 = p.text_before in
      let order1 = p.rdata_before in
      let order2 = p.data_before in
      let held : offset ≤ section_limit = held_by section offset lo hi h in
      (ground arith, ground arith)

  module _ (r : NtObjectReloc) (i : IsReloc o r) (bounded : IsI64 r.addend) where
    source_small :
        (logical_rva l r.section ≡ address l r.section) × (address l r.section + r.offset < 2 ^ 27)
    source_small =
        let site = i.site in
        address_small r.section r.offset i.in_section.0 i.in_section.1 (omega arith)

    target_small :
        (s : NtObjectSymbol)
        → IsSymbol o s
        → bit_and s.flags 8 ≡ 0
        → (logical_rva l s.section ≡ address l s.section)
          × (address l s.section + s.offset < 2 ^ 27)
    target_small s is here = elim is.placed [
      | inl import ↦ absurd (import.0 here)
      | inr (defined, lo, hi, inside, code) ↦ address_small s.section s.offset lo hi (omega arith)
    ]

    -- The value that the code computes for `r` and stores at its site.
    pub Resolved-Leads : (a : NtArtifact) → Resolved l o r a → Leads l o r a
    unfolding resolved
    Resolved-Leads a v =
        let s = v.symbol in
        let found = v.symbol_named in
        let here = no_import (items o.symbols) (r.target - 1) s closed found in
        let (from, near) = source_small in
        let (to, close) = target_small s (w.each_symbol (r.target - 1) s found) here in
        let e : relocation_value r.kind (address l r.section + r.offset)
              (address l s.section + s.offset) r.addend
            ≡ some v.value =
          rw (← from, ← to) v.value_resolved in
        elim i.kind_known [
          | inl k ↦ record {
            symbol = s;
            symbol_named = found;
            value = v.value;
            reads = inl (
                let (fits, room, leads) =
                  (rel32_iff (address l r.section + r.offset) (address l s.section + s.offset)
                      r.addend v.value bounded (omega arith) (omega arith)).0
                    (rw k at e) in
                (k, fits, leads, subst (λ n. Stands r a n v.value) (ground arith) v.bytes_stored));
          }
          | inr k ↦ record {
            symbol = s;
            symbol_named = found;
            value = v.value;
            reads = inr (
                let (fits, leads) =
                  (dir64_iff (address l r.section + r.offset) (address l s.section + s.offset)
                      r.addend v.value bounded (omega arith) (omega arith)).0
                    (rw k at e) in
                (k, fits, leads, subst (λ n. Stands r a n v.value) (ground arith) v.bytes_stored));
          }
        ]
