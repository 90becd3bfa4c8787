-- ===== src/Object/Validity.antt =====
-- `nt_object_validate` of bootstrap/quarantine/c/object.c against the well-formed objects.
use native.Mathlib.Decide.{ℕ_discrete}
use nexoragenesis_toolchain.Base.{
  get_elem?-lt, ◌-◌, ◌≤◌, ◌≡◌, ◌⊎◌, inl, inr, ◌↔◌, false, [], ◌∷◌, none, some, length, get_elem?,
  All, arith, Option-cases,
}
use nexoragenesis_toolchain.Outcome.{ok, >>-eq-ok}
use nexoragenesis_toolchain.Object.Validate.{
  validate_sections, validate_symbols, validate_entry, validate_relocs, validate, validate_counts,
}
use nexoragenesis_toolchain.Object.{
  NtObject, NtBuffer, Table, null, at, count, items, is_null, max_symbols, max_relocs,
}
use nexoragenesis_toolchain.Object.Spec.{HasTexts, IsPayload, IsEntry, WellFormed}
use nexoragenesis_toolchain.Object.Symbols.{
  Chain, validate_symbols_iff, Chain-each, Chain-sorted, Chain-intro,
}
use nexoragenesis_toolchain.Object.Relocs.{
  RelocChain, validate_relocs_iff, RelocChain-each, RelocChain-disjoint, RelocChain-intro,
}

validate_counts_iff :
    (o : NtObject)
    → (validate_counts o ≡ ok tt) ↔ (
        ((1 ≤ o.target) × (o.target ≤ 2))
        × (count o.symbols ≤ max_symbols)
        × (count o.relocations ≤ max_relocs)
        × (((count o.symbols ≡ 0) ⊎ (is_null o.symbols ≡ false))
            × ((count o.relocations ≡ 0) ⊎ (is_null o.relocations ≡ false))))
unfolding validate_counts
validate_counts_iff o = (λ h. ground arith, λ h. ground arith)

validate_sections_iff :
    (a b c : NtBuffer)
    → (validate_sections (a ∷ b ∷ c ∷ []) ≡ ok tt) ↔ (IsPayload a × IsPayload b × IsPayload c)
unfolding validate_sections
validate_sections_iff a b c = (λ h. ground arith, λ h. ground arith)

length-items-le : {A : Type 0} (t : Table A) → length (items t) ≤ count t
length-items-le (null n) = omega arith
length-items-le (at xs) = omega arith

validate_entry_iff : (o : NtObject) → (validate_entry o ≡ ok tt) ↔ IsEntry o
unfolding validate_entry
validate_entry_iff o = (entry_found, entry_accepted)
  where
    entry_found : validate_entry o ≡ ok tt → IsEntry o
    entry_found h = elim (ℕ_discrete o.entry_symbol 0) [
      | yes z ↦ inl z
      | no ne ↦ elim (Option-cases (get_elem? (items o.symbols) (o.entry_symbol - 1))) [
        | inl e ↦ absurd (ground (arith, e))
        | inr (s, e) ↦
            inr (o.entry_symbol - 1, s, omega arith, e, ground (arith, e), ground (arith, e))
      ]
    ]

    entry_accepted : IsEntry o → validate_entry o ≡ ok tt
    entry_accepted (inl z) = ground arith
    entry_accepted (inr (k, s, e, g, sec, fn)) =
        let back : o.entry_symbol - 1 ≡ k = omega arith in
        let g' : get_elem? (items o.symbols) (o.entry_symbol - 1) ≡ some s = rw back g in
        let lt = get_elem?-lt (items o.symbols) k g in
        let le = length-items-le o.symbols in rw (g', validate_entry) (ground arith)

-- `nt_object_validate` accepts exactly the well-formed objects, for objects whose names and
-- contracts are C strings. Well-formed speaks of any two symbols and any two relocations, where
-- the code compares neighbours.
pub validate_iff :
    (o : NtObject) → All HasTexts (items o.symbols) → (validate o ≡ ok tt) ↔ WellFormed o
unfolding validate
validate_iff o t = (accepted, complete)
  where
    symbols_iff :
        (validate_symbols o 0 none (items o.symbols) ≡ ok tt) ↔ Chain o none (items o.symbols)
    symbols_iff = validate_symbols_iff o 0 none (items o.symbols) t

    relocs_iff :
        (validate_relocs o 0 none (items o.relocations) ≡ ok tt)
        ↔ RelocChain o none (items o.relocations)
    relocs_iff = validate_relocs_iff o 0 none (items o.relocations) tt

    accepted : validate o ≡ ok tt → WellFormed o
    accepted h =
        let (h1, k1) = >>-eq-ok (validate_counts o) _ h in
        let (h3, k3) = >>-eq-ok (validate_sections (o.text ∷ o.rdata ∷ o.data_ ∷ [])) _ k1 in
        let (h4, k4) = >>-eq-ok (validate_symbols o 0 none (items o.symbols)) _ k3 in
        let (h5, h6) = >>-eq-ok (validate_entry o) _ k4 in
        let chain = symbols_iff.0 h4 in
        let relocs = relocs_iff.0 h6 in
        let counts = (validate_counts_iff o).0 h1 in
        record {
          target_known = counts.0;
          symbol_bound = counts.1;
          reloc_bound = counts.2;
          tables = counts.3;
          payloads = (validate_sections_iff o.text o.rdata o.data_).0 h3;
          each_symbol = λ j s e. Chain-each o none _ j s chain e;
          sorted = λ i j s u lt e f. Chain-sorted o none _ i j s u chain lt e f;
          entry = (validate_entry_iff o).0 h5;
          each_reloc = λ j r e. RelocChain-each o none _ j r relocs e;
          disjoint = λ i j p r lt e f. RelocChain-disjoint o none _ i j p r relocs lt e f;
        }

    complete : WellFormed o → validate o ≡ ok tt
    complete w =
        let counts =
          (validate_counts_iff o).1 (w.target_known, w.symbol_bound, w.reloc_bound, w.tables) in
        let payloads = (validate_sections_iff o.text o.rdata o.data_).1 w.payloads in
        let symbols = symbols_iff.1 (Chain-intro o none _ w.each_symbol (λ j s e. tt) w.sorted) in
        let entry = (validate_entry_iff o).1 w.entry in
        let relocs =
          relocs_iff.1 (RelocChain-intro o none _ w.each_reloc (λ j r e. tt) w.disjoint) in
        rw (counts, payloads, symbols, entry) relocs
