-- ===== src/Link/Closed.antt =====
-- Linked objects, for `nt_object_link` of bootstrap/quarantine/c/object_link.c.
use nexoragenesis_toolchain.Base.{
  All-append, ℕ, ◌+◌, ◌-◌, ◌≡◌, ◌≢◌, ◌↔◌, inl, inr, refl, sym, subst, Bool, true, false, ◌||◌, not,
  List, [], ◌∷◌, map, Option, none, some, ltb, set, length, get_elem?, bit_and, arith, Bool-cases,
  All,
}
use nexoragenesis_toolchain.Outcome.{ok, >>=-eq-ok, >>-eq-ok, fail_if, ◌>>=◌}
use nexoragenesis_toolchain.Object.{NtObject, NtObjectSymbol, chars, items, at, has, import_flag}
use nexoragenesis_toolchain.Object.Spec.{HasTexts, WellFormed}
use nexoragenesis_toolchain.Object.Validate.{validate}
use nexoragenesis_toolchain.Object.Validity.{validate_iff}
use nexoragenesis_toolchain.Link.Sort.{
  Definition, qsort_definitions, compare_le, All-qsort, qsort_relocs,
}
use nexoragenesis_toolchain.Link.Find.{find, find-IsFound, IsSorted, same_text, same_text-true}
use nexoragenesis_toolchain.Link.{
  Placed, Scan, Site, start, scan_unit, scan_units, unit_definitions, all_definitions, moved,
  place_definitions, resolve, resolve_imports, resolve_units, zeros, link_allocations, link_placed,
  link, link_bytes, output_in_use, sections_in_use, name_copy, contract_copy, linked_section,
  all_relocs,
}

-- A defined symbol whose texts are C strings.
abbrev IsClosed : NtObjectSymbol → Type 0
IsClosed s = HasTexts s × (bit_and s.flags 8 ≡ 0)

abbrev ClosedDefinition : Definition → Type 0
ClosedDefinition d = IsClosed d.symbol

unit_definitions-closed :
    (p : Placed) (j : ℕ) (ss : List NtObjectSymbol)
    → All HasTexts ss
    → All ClosedDefinition (unit_definitions p j ss)
unfolding unit_definitions
unit_definitions-closed p j [] h = tt
unit_definitions-closed p j (s ∷ ss) h = elim (Bool-cases (has s.flags import_flag)) [
  | inl e ↦ rw e (unit_definitions-closed p (j + 1) ss h.1)
  | inr e ↦ rw e ((h.0, ground arith), unit_definitions-closed p (j + 1) ss h.1)
]

abbrev pub UnitTexts : NtObject → Type 0
UnitTexts o = All HasTexts (items o.symbols)

all_definitions-closed :
    (ps : List Placed) → All (λ p. UnitTexts p.unit) ps → All ClosedDefinition (all_definitions ps)
unfolding all_definitions
all_definitions-closed [] h = tt
all_definitions-closed (p ∷ ps) h =
    All-append ClosedDefinition (unit_definitions p 0 (items p.unit.symbols)) (all_definitions ps)
      (unit_definitions-closed p 0 (items p.unit.symbols) h.0) (all_definitions-closed ps h.1)

-- The placed units are the units, in order.
scan_units-units :
    (target : ℕ) (os : List NtObject) (s : Scan) (r : List Placed × Scan)
    → scan_units target os s ≡ ok r
    → map (λ p. p.unit) r.0 ≡ os
unfolding scan_units
scan_units-units target [] s r h = ground arith
scan_units-units target (o ∷ os) s r h =
    let ((b, s'), e1, f1) = >>=-eq-ok (scan_unit target o s) _ h in
    let ((ps, end), e2, f2) = >>=-eq-ok (scan_units target os s') _ f1 in
    let ih = scan_units-units target os s' (ps, end) e2 in ground arith

place_definitions-IsClosed :
    (alloc : Site → Bool) (j : ℕ) (previous : Option Definition) (ds : List Definition)
    (slots : List ℕ) (r : List NtObjectSymbol × List ℕ)
    → All ClosedDefinition ds
    → place_definitions alloc j previous ds slots ≡ ok r
    → All IsClosed r.0
unfolding place_definitions
place_definitions-IsClosed alloc j previous [] slots r c h =
    let e : ◌≡◌ {A = List NtObjectSymbol × List ℕ} ([], slots) r = cc in
    subst (λ (q : List NtObjectSymbol × List ℕ). All IsClosed q.0) e tt
place_definitions-IsClosed alloc j previous (d ∷ ds) slots r c h =
    let (e0, f0) =
      >>-eq-ok
        (fail_if
          (elim previous [
            | none ↦ false
            | some p ↦ same_text (chars p.symbol.name) (chars d.symbol.name)
          ])
          0 "duplicate symbol definition")
        _ h in
    let (e1, f1) =
      >>-eq-ok
        (fail_if (not (alloc (name_copy j)) || not (alloc (contract_copy j))) 0
          "link allocation failed")
        _ f0 in
    let ((rest, slots'), e2, f2) =
      >>=-eq-ok (place_definitions alloc (j + 1) (some d) ds (set slots d.slot (j + 1))) _ f1 in
    let e : ◌≡◌ {A = List NtObjectSymbol × List ℕ} (moved d.symbol d.base ∷ rest, slots') r = cc in
    subst (λ (q : List NtObjectSymbol × List ℕ). All IsClosed q.0) e
      (c.0, place_definitions-IsClosed alloc (j + 1) (some d) ds _ (rest, slots') c.1 e2)

-- A linked symbol that provides an import: an exported definition with its name, kind and contract.
pub record Provides (symbols : List NtObjectSymbol) (s : NtObjectSymbol) : Type 0 where
  pub index : ℕ
  pub definition : NtObjectSymbol
  pub found : get_elem? symbols index ≡ some definition
  pub same_name : chars definition.name ≡ chars s.name
  pub exported : bit_and definition.flags 1 ≢ 0
  pub same_kind : bit_and s.flags 6 ≡ bit_and definition.flags 6
  pub same_contract : chars s.contract ≡ chars definition.contract

resolve-Provides :
    (symbols : List NtObjectSymbol) (s : NtObjectSymbol) (target : ℕ)
    → IsSorted symbols
    → resolve symbols s ≡ ok target
    → Provides symbols s
unfolding resolve
resolve-Provides symbols s target sorted h = elim (find-IsFound symbols (chars s.name) sorted) [
  | inl (z, missing) ↦ absurd (ground (arith, z))
  | inr (k, d, e, g, same) ↦
      let back : find symbols (chars s.name) - 1 ≡ k = omega arith in
      let g' : get_elem? symbols (find symbols (chars s.name) - 1) ≡ some d = rw back g in
      record {
        index = k;
        definition = d;
        found = g;
        same_name = same;
        exported = ground (arith, g');
        same_kind = ground (arith, g');
        same_contract = same_text-true (chars s.contract) (chars d.contract) (ground (arith, g'));
      }
]

-- Each import among some symbols has its definition.
abbrev pub Provided : List NtObjectSymbol → NtObjectSymbol → Type 0
Provided symbols s = has s.flags import_flag ≡ true → Provides symbols s

resolve_imports-Provided :
    (symbols : List NtObjectSymbol) (slot : ℕ) (ss : List NtObjectSymbol) (slots slots' : List ℕ)
    → IsSorted symbols
    → resolve_imports symbols slot ss slots ≡ ok slots'
    → All (Provided symbols) ss
unfolding resolve_imports
resolve_imports-Provided symbols slot [] slots slots' sorted h = tt
resolve_imports-Provided symbols slot (s ∷ ss) slots slots' sorted h =
    elim (Bool-cases (has s.flags import_flag)) [
      | inr e ↦
          let h' = rw e at h in
          (λ i. cc, resolve_imports-Provided symbols (slot + 1) ss slots slots' sorted h')
      | inl e ↦
          let h' : (resolve symbols s
                >>= (λ target. ok (set slots slot target))
                >>= (λ next. resolve_imports symbols (slot + 1) ss next))
              ≡ ok slots' =
            rw e at h in
          let (next, e1, f1) =
            >>=-eq-ok (resolve symbols s >>= (λ target. ok (set slots slot target))) _ h' in
          let (target, e2, f2) = >>=-eq-ok (resolve symbols s) _ e1 in
          (
            λ i. resolve-Provides symbols s target sorted e2,
            resolve_imports-Provided symbols (slot + 1) ss next slots' sorted f1,
          )
    ]

resolve_units-Provided :
    (symbols : List NtObjectSymbol) (ps : List Placed) (slots : List ℕ) (entry : ℕ) (r : List ℕ × ℕ)
    → IsSorted symbols
    → resolve_units symbols ps slots entry ≡ ok r
    → All (λ p. All (Provided symbols) (items p.unit.symbols)) ps
unfolding resolve_units
resolve_units-Provided symbols [] slots entry r sorted h = tt
resolve_units-Provided symbols (p ∷ ps) slots entry r sorted h =
    let (next, e, f) =
      >>=-eq-ok (resolve_imports symbols p.prefix (items p.unit.symbols) slots) _ h in
    (
      resolve_imports-Provided symbols p.prefix (items p.unit.symbols) slots next sorted e,
      resolve_units-Provided symbols ps next _ r sorted f,
    )

All-unit {ℓ} :
    (P : NtObject → Type ℓ) (ps : List Placed)
    → All P (map (λ p. p.unit) ps) ↔ All (λ p. P p.unit) ps
All-unit P [] = (λ h. h, λ h. h)
All-unit P (p ∷ ps) = (λ h. (h.0, (All-unit P ps).0 h.1), λ h. (h.0, (All-unit P ps).1 h.1))

All-mono :
    (P Q : NtObjectSymbol → Type 0) (ss : List NtObjectSymbol)
    → ((s : NtObjectSymbol) → P s → Q s)
    → All P ss
    → All Q ss
All-mono P Q [] f h = tt
All-mono P Q (s ∷ ss) f h = (f s h.0, All-mono P Q ss f h.1)

-- The object that a link of `units` gives: well formed, owned, with no import left and with a
-- definition for each import of each unit.
pub record IsLinked (units : List NtObject) (r : NtObject) : Type 0 where
  pub well_formed : WellFormed r
  pub is_owned : r.owned ≡ true
  pub closed : All (λ s. bit_and s.flags 8 ≡ 0) (items r.symbols)
  pub provided : All (λ o. All (Provided (items r.symbols)) (items o.symbols)) units

link_placed-IsLinked :
    (alloc : Site → Bool) (target : ℕ) (ps : List Placed) (c : Scan) (r : NtObject)
    → All (λ p. UnitTexts p.unit) ps
    → link_placed alloc target ps c ≡ ok r
    → IsLinked (map (λ p. p.unit) ps) r
unfolding link_placed qsort_definitions
link_placed-IsLinked alloc target ps c r texts h =
    let (e0, h0) =
      >>-eq-ok (fail_if (ltb link_bytes (c.total0 + c.total1 + c.total2)) 0 "linked payload limit")
        _ h in
    let (e1, h1) = >>-eq-ok (link_allocations alloc c) _ h0 in
    let ((symbols, slots), e2, h2) =
      >>=-eq-ok
        (place_definitions alloc 0 none (qsort_definitions (all_definitions ps)) (zeros c.prefix)) _
        h1 in
    let ((slots', entry), e3, h3) = >>=-eq-ok (resolve_units symbols ps slots 0) _ h2 in
    let result : NtObject = record {
      target = target;
      entry_symbol = entry;
      text = linked_section ps 0 c.total0;
      rdata = linked_section ps 1 c.total1;
      data_ = linked_section ps 2 c.total2;
      symbols = at symbols;
      relocations = at (qsort_relocs (all_relocs slots' ps));
      owned = true;
    } in
    let (valid, h4) = >>-eq-ok (validate result) _ h3 in
    let same : result ≡ r = cc in
    let closed : All IsClosed symbols =
      place_definitions-IsClosed alloc 0 none (qsort_definitions (all_definitions ps)) _
        (symbols, slots)
        (All-qsort compare_le ClosedDefinition (all_definitions ps)
          (all_definitions-closed ps texts))
        e2 in
    let w =
      (validate_iff result (All-mono IsClosed HasTexts symbols (λ s p. p.0) closed)).0 valid in
    subst (IsLinked (map (λ p. p.unit) ps)) same (record {
      well_formed = w;
      is_owned = refl;
      closed = All-mono IsClosed (λ s. bit_and s.flags 8 ≡ 0) symbols (λ s p. p.1) closed;
      provided =
          (All-unit (λ o. All (Provided symbols) (items o.symbols)) ps).1
            (resolve_units-Provided symbols ps slots 0 (slots', entry) w.sorted e3);
    })

-- What `nt_object_link` gives, when it succeeds on units whose names and contracts are C strings, is
-- a linked object: `nt_object_validate` would accept it, no import is left in it, and for each import
-- of each unit it has an exported definition of the same name, kind and contract.
pub link-IsLinked :
    (alloc : Site → Bool) (units : List NtObject) (output r : NtObject)
    → All UnitTexts units
    → link alloc units output ≡ ok r
    → IsLinked units r
unfolding link
link-IsLinked alloc [] output r texts h = cc
link-IsLinked alloc (o ∷ os) output r texts h =
    let (e0, h0) = >>-eq-ok (fail_if (ltb 64 (length (o ∷ os))) 0 "invalid link unit count") _ h in
    let (e1, h1) = >>-eq-ok (fail_if (output_in_use output) 0 "link output must be empty") _ h0 in
    let (e2, h2) = >>-eq-ok (fail_if (sections_in_use output) 0 "link output must be empty") _ h1 in
    let ((ps, c), e3, h3) = >>=-eq-ok (scan_units o.target (o ∷ os) start) _ h2 in
    let same = scan_units-units o.target (o ∷ os) start (ps, c) e3 in
    let placed = (All-unit UnitTexts ps).0 (subst (All UnitTexts) (sym same) texts) in
    subst (λ (us : List NtObject). IsLinked us r) same
      (link_placed-IsLinked alloc o.target ps c r placed h3)
