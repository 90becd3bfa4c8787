-- ===== src/Object/Read/Result.antt =====
-- What `nt_object_read` leaves in its output.
use nexoragenesis_toolchain.Base.{
  ℕ, zero, suc, ◌+◌, ◌*◌, ◌≡◌, refl, sym, subst, Bool, true, false, List, arith, Bool-cases, inl,
  inr, ◌⊎◌, ◌==◌, All,
}
use nexoragenesis_toolchain.Outcome.{Outcome, ok, err, Outcome-cases, NtDiagnostic}
use nexoragenesis_toolchain.Memory.{Mem, r32, load}
use nexoragenesis_toolchain.Object.{NtObject, NtObjectSymbol, items, empty_object, free_object}
use nexoragenesis_toolchain.Object.Text.{IsText}
use nexoragenesis_toolchain.Object.Spec.{HasTexts, WellFormed}
use nexoragenesis_toolchain.Object.Validity.{validate_iff}
use nexoragenesis_toolchain.Object.Read.{
  Layout, has_zero, Site, symbol_at, bad_symbol, read_symbol, more_symbols, read_symbols,
  begin_object, allocate_symbols, allocate_relocs, end_symbols, fill_symbols, fill_relocs,
  fill_text, fill_rdata, fill_data, check_object, fill, clean_up, read_prologue, read, table_of,
  ◌>>>◌,
}

has_zero-IsText : (b : Mem) (i k : ℕ) → has_zero b i k ≡ false → IsText (load b i k)
unfolding has_zero load
has_zero-IsText b i zero h = tt
has_zero-IsText b i (suc k) h = (ground arith, has_zero-IsText b (i + 1) k (ground arith))

symbol_at-HasTexts :
    (b : Mem) (l : Layout) (r : ℕ)
    → has_zero b (l.ta + r32 b r) (r32 b (r + 4)) ≡ false
    → has_zero b (l.ta + r32 b (r + 32)) (r32 b (r + 36)) ≡ false
    → HasTexts (symbol_at b l r)
unfolding symbol_at
symbol_at-HasTexts b l r name contract =
    (has_zero-IsText b _ _ name, has_zero-IsText b _ _ contract)

read_symbol-HasTexts :
    (alloc : Site → Bool) (b : Mem) (l : Layout) (j cursor next : ℕ)
    → (read_symbol alloc b l j cursor).0 ≡ ok next
    → HasTexts (read_symbol alloc b l j cursor).1
unfolding read_symbol bad_symbol
read_symbol-HasTexts alloc b l j cursor next h =
    let r = l.sa + j * 64 in
    let found : (read_symbol alloc b l j cursor).1 ≡ symbol_at b l r = ground arith in
    let clean : (has_zero b (l.ta + r32 b r) (r32 b (r + 4)) ≡ false)
        × (has_zero b (l.ta + r32 b (r + 32)) (r32 b (r + 36)) ≡ false) =
      (ground arith, ground arith) in
    subst HasTexts (sym found) (symbol_at-HasTexts b l r clean.0 clean.1)

more_symbols-HasTexts :
    (m : Outcome ℕ × NtObjectSymbol) (left : ℕ) (next : ℕ → Outcome ℕ × List NtObjectSymbol)
    (end : ℕ)
    → ((cursor : ℕ) → m.0 ≡ ok cursor → HasTexts m.1)
    → ((cursor : ℕ) → (next cursor).0 ≡ ok end → All HasTexts (next cursor).1)
    → (more_symbols m left next).0 ≡ ok end
    → All HasTexts (more_symbols m left next).1
unfolding more_symbols
more_symbols-HasTexts (err e, s) left next end p q h = cc
more_symbols-HasTexts (ok cursor, s) left next end p q h = (p cursor refl, q cursor h)

read_symbols-HasTexts :
    (left : ℕ) (alloc : Site → Bool) (b : Mem) (l : Layout) (j cursor end : ℕ)
    → (read_symbols left alloc b l j cursor).0 ≡ ok end
    → All HasTexts (read_symbols left alloc b l j cursor).1
unfolding read_symbols
read_symbols-HasTexts zero alloc b l j cursor end h = tt
read_symbols-HasTexts (suc left) alloc b l j cursor end h =
    more_symbols-HasTexts (read_symbol alloc b l j cursor) left _ end
      (read_symbol-HasTexts alloc b l j cursor)
      (λ c. read_symbols-HasTexts left alloc b l (j + 1) c end) h

table_of-items :
    {A : Type 0} (P : A → Type 0) (n : ℕ) (xs : List A) → All P xs → All P (items (table_of n xs))
table_of-items P n xs h = elim (Bool-cases (n == 0)) [ inl e ↦ rw e tt | inr e ↦ rw e h ]

abbrev pub IsRead : NtObject → Type 0
IsRead o = WellFormed o × All HasTexts (items o.symbols) × (o.owned ≡ true)

abbrev IsOwned : NtObject → Type 0
IsOwned o = o.owned ≡ true

-- What the object holds once its symbols are read, and what a step must keep.
abbrev IsFilled : NtObject → Type 0
IsFilled o = All HasTexts (items o.symbols) × (o.owned ≡ true)

-- A step that gives Q from P, behind steps that give P.
>>>-then :
    (P Q : NtObject → Type 0) (m : Outcome (Unit {0}) × NtObject)
    (f : NtObject → Outcome (Unit {0}) × NtObject)
    → (m.0 ≡ ok tt → P m.1)
    → ((o : NtObject) → P o → (f o).0 ≡ ok tt → Q (f o).1)
    → (m >>> f).0 ≡ ok tt
    → Q (m >>> f).1
>>>-then P Q (err e, o) f p q h = cc
>>>-then P Q (ok u, o) f p q h = q o (p refl) h

end_symbols-eq-ok :
    (l : Layout) (m : Outcome ℕ) → end_symbols l m ≡ ok tt → (cursor : ℕ) × (m ≡ ok cursor)
unfolding end_symbols
end_symbols-eq-ok l (err e) h = cc
end_symbols-eq-ok l (ok cursor) h = (cursor, refl)

module _ (alloc : Site → Bool) (b : Mem) (l : Layout) where
  allocate_symbols-owned :
      (o : NtObject) → o.owned ≡ true → (allocate_symbols alloc l o).1.owned ≡ true
  unfolding allocate_symbols
  allocate_symbols-owned o h = ground arith

  allocate_relocs-owned :
      (o : NtObject) → o.owned ≡ true → (allocate_relocs alloc l o).1.owned ≡ true
  unfolding allocate_relocs
  allocate_relocs-owned o h = ground arith

  fill_symbols-IsFilled :
      (o : NtObject)
      → o.owned ≡ true
      → (fill_symbols alloc b l o).0 ≡ ok tt
      → IsFilled (fill_symbols alloc b l o).1
  unfolding fill_symbols
  fill_symbols-IsFilled o owned h =
      let (cursor, e) = end_symbols-eq-ok l (read_symbols l.ns alloc b l 0 0).0 h in
      (table_of-items HasTexts l.ns _ (read_symbols-HasTexts l.ns alloc b l 0 0 cursor e), owned)

  fill-IsRead : (o : NtObject) → (fill alloc b l o).0 ≡ ok tt → IsRead (fill alloc b l o).1
  unfolding fill begin_object fill_relocs fill_text fill_rdata fill_data check_object
  fill-IsRead o =
      >>>-then IsFilled IsRead _ check_object
        (>>>-then IsFilled IsFilled _ (fill_data alloc b)
          (>>>-then IsFilled IsFilled _ (fill_rdata alloc b)
            (>>>-then IsFilled IsFilled _ (fill_text alloc b)
              (>>>-then IsFilled IsFilled _ (fill_relocs b l)
                (>>>-then IsOwned IsFilled _ (fill_symbols alloc b l)
                  (>>>-then IsOwned IsOwned _ (allocate_relocs alloc l)
                    (λ h. allocate_symbols-owned (begin_object b l o) refl)
                    (λ p h e. allocate_relocs-owned p h))
                  fill_symbols-IsFilled)
                (λ p h e. h))
              (λ p h e. h))
            (λ p h e. h))
          (λ p h e. h))
        (λ p h e. ((validate_iff p h.0).0 e, h.0, h.1))

-- What `invalid` makes of an object that is half filled.
clean_up-result :
    (m : Outcome (Unit {0}) × NtObject)
    → (m.0 ≡ ok tt → IsRead m.1)
    → (((clean_up m).0 ≡ ok tt) × IsRead (clean_up m).1)
      ⊎ ((e : NtDiagnostic) × ((clean_up m).0 ≡ err e) × ((clean_up m).1 ≡ empty_object))
unfolding clean_up free_object
clean_up-result (ok u, o) h = inl (refl, h refl)
clean_up-result (err e, o) h = inr (e, refl, refl)

-- On a zeroed output `nt_object_read` either succeeds and leaves a well-formed object that it owns,
-- whose names and contracts have no 0 inside, or fails and leaves the output zeroed, also when it had
-- filled a part of it: whatever the bytes are, and whichever allocations fail.
pub read_result :
    (alloc : Site → Bool) (b : Mem) (n : ℕ)
    → (((read alloc b n empty_object).0 ≡ ok tt) × IsRead (read alloc b n empty_object).1)
      ⊎ ((e : NtDiagnostic) × ((read alloc b n empty_object).0 ≡ err e)
          × ((read alloc b n empty_object).1 ≡ empty_object))
unfolding read
read_result alloc b n = elim (Outcome-cases (read_prologue b n empty_object)) [
  | inr (e, eq) ↦ inr (e, rw (eq, read), rw (eq, read))
  | inl (l, eq) ↦
      rw (eq, read)
        (clean_up-result (fill alloc b l empty_object) (fill-IsRead alloc b l empty_object))
]
