-- ===== src/Object/Read/Local.antt =====
-- Which bytes of the file `nt_object_read` of bootstrap/quarantine/c/object.c reads.
use nexoragenesis_toolchain.Base.{
  ℕ, zero, suc, ◌+◌, ◌*◌, ◌≤◌, ◌<◌, ◌≡◌, ◌∙◌, refl, ap, sym, subst, Bool, false, List, ◌||◌, not,
  arith, Bool-cases, inl, inr,
}
use nexoragenesis_toolchain.Outcome.{Outcome, ok, err, fail_if, >>-eq-ok, >>=-eq-ok, Outcome-cases}
use nexoragenesis_toolchain.Memory.{Mem, r32, r64}
use nexoragenesis_toolchain.Memory.Laws.{Agree}
use nexoragenesis_toolchain.Object.{NtObject, NtObjectSymbol, NtBuffer, is_null}
use nexoragenesis_toolchain.Object.Read.{
  Layout, name_text, contract_text, header, bad_tables, read_tables, read_layout, read_sections,
  Site, symbol_at, bad_symbol, read_symbol, more_symbols, read_symbols, reloc_at, read_reloc,
  read_relocs, read_payload, fill, fill_symbols, fill_relocs, fill_text, fill_rdata, fill_data,
  begin_object, allocate_symbols, allocate_relocs, check_object, copy_text, read_prologue, read,
  ◌>>>◌,
}
use nexoragenesis_toolchain.Object.Read.Bounds.{
  Fits, same32, same64, same-load, same-read_layout, same-read_sections, PayloadFits,
  read_sections_fit, texts_fit, same-bad_symbol, Fits-of_tables,
}

-- What an accepted prologue says of the layout.
pub Fits-of_layout : (b : Mem) (n : ℕ) (l : Layout) → read_layout b n ≡ ok l → Fits l n
unfolding read_layout read_tables
Fits-of_layout b n l e =
    let h : 240 ≤ n = ground arith in
    let found : header b ≡ l = ground arith in
    let good : bad_tables b n (header b) ≡ false = ground arith in
    subst (λ (k : Layout). Fits k n) found
      (Fits-of_tables b b n (λ i lo hi. refl) (header b) h good)

-- A prologue that succeeds is an accepted layout with accepted section headers.
pub read_prologue-eq-ok :
    (b : Mem) (n : ℕ) (o : NtObject) (l : Layout)
    → read_prologue b n o ≡ ok l
    → (read_layout b n ≡ ok l) × (read_sections b n l.pa ≡ ok tt)
unfolding read_prologue
read_prologue-eq-ok b n o l e =
    let (empty_output, e1) =
      >>-eq-ok
        (fail_if (o.owned || not (is_null o.symbols) || not (is_null o.relocations)) 0
          "read output must be empty")
        _ e in
    let (k, e2, e3) = >>=-eq-ok (read_layout b n) _ e1 in
    let (e4, e5) = >>-eq-ok (read_sections b n k.pa) _ e3 in
    let same_layout : k ≡ l = cc in
    (e2 ∙ ap ok same_layout, subst (λ (x : Layout). read_sections b n x.pa ≡ ok tt) same_layout e4)

>>>-cong :
    (m m' : Outcome (Unit {0}) × NtObject) (f f' : NtObject → Outcome (Unit {0}) × NtObject)
    → m ≡ m'
    → ((o : NtObject) → f o ≡ f' o)
    → (m >>> f) ≡ (m' >>> f')
>>>-cong (ok u, o) m' f f' e h = rw (← e) (h o)
>>>-cong (err why, o) m' f f' e h = rw (← e) refl

more_symbols-cong :
    (m : Outcome ℕ × NtObjectSymbol) (left : ℕ) (next next' : ℕ → Outcome ℕ × List NtObjectSymbol)
    → ((cursor : ℕ) → next cursor ≡ next' cursor)
    → more_symbols m left next ≡ more_symbols m left next'
unfolding more_symbols
more_symbols-cong (ok cursor, s) left next next' h = rw (h cursor) refl
more_symbols-cong (err e, s) left next next' h = refl

module _ (b b' : Mem) (n : ℕ) (same : Agree b b' 0 n) (l : Layout) (f : Fits l n) where
  same-symbol_at :
      (r cursor : ℕ)
      → r + 64 ≤ n
      → bad_symbol b l r cursor ≡ false
      → symbol_at b l r ≡ symbol_at b' l r
  unfolding symbol_at bad_symbol
  same-symbol_at r cursor h e =
      let t =
        texts_fit b b' n same l f cursor (r32 b r) (r32 b (r + 4)) (r32 b (r + 32)) (r32 b (r + 36))
          (ground arith) in
      rw (
        ← same32 b b' n same r (omega arith),
        ← same32 b b' n same (r + 4) (omega arith),
        ← same32 b b' n same (r + 32) (omega arith),
        ← same32 b b' n same (r + 36) (omega arith),
        ← same32 b b' n same (r + 8) (omega arith),
        ← same32 b b' n same (r + 12) (omega arith),
        ← same64 b b' n same (r + 16) (omega arith),
        ← same64 b b' n same (r + 24) (omega arith),
        same-load b b' n same (l.ta + r32 b r) (r32 b (r + 4)) t.0,
        same-load b b' n same (l.ta + r32 b (r + 32)) (r32 b (r + 36)) t.1,
      )

  -- The copies of the two texts of a record that is taken.
  same-texts :
      (r cursor : ℕ)
      → bad_symbol b l r cursor ≡ false
      → ((alloc : Bool)
          → copy_text alloc b (l.ta + r32 b r) (r32 b (r + 4))
            ≡ copy_text alloc b' (l.ta + r32 b r) (r32 b (r + 4)))
        × ((alloc : Bool)
            → copy_text alloc b (l.ta + r32 b (r + 32)) (r32 b (r + 36))
              ≡ copy_text alloc b' (l.ta + r32 b (r + 32)) (r32 b (r + 36)))
  unfolding copy_text bad_symbol
  same-texts r cursor e =
      let t =
        texts_fit b b' n same l f cursor (r32 b r) (r32 b (r + 4)) (r32 b (r + 32)) (r32 b (r + 36))
          (ground arith) in
      (
        λ alloc. rw (same-load b b' n same (l.ta + r32 b r) (r32 b (r + 4)) t.0),
        λ alloc. rw (same-load b b' n same (l.ta + r32 b (r + 32)) (r32 b (r + 36)) t.1),
      )

  same-read_symbol :
      (alloc : Site → Bool) (j cursor : ℕ)
      → j < l.ns
      → read_symbol alloc b l j cursor ≡ read_symbol alloc b' l j cursor
  unfolding read_symbol
  same-read_symbol alloc j cursor lt =
      let r = l.sa + j * 64 in
      let h : r + 64 ≤ n =
        (let a = f.symbols_fit in
          let c = f.relocs_fit in let d = f.texts_fit in let e = f.payload_fits in grind arith) in
      let e = same-bad_symbol b b' n same l f r cursor h in
      elim (Bool-cases (bad_symbol b l r cursor)) [
        | inl bad ↦ rw (← e, bad)
        | inr good ↦
            let (name, contract) = same-texts r cursor good in
            rw (
              ← e,
              same-symbol_at r cursor h good,
              ← same32 b b' n same r (omega arith),
              ← same32 b b' n same (r + 4) (omega arith),
              ← same32 b b' n same (r + 32) (omega arith),
              ← same32 b b' n same (r + 36) (omega arith),
              name (alloc (name_text j)),
              contract (alloc (contract_text j)),
            )
      ]

  same-read_symbols :
      (left : ℕ) (alloc : Site → Bool) (j cursor : ℕ)
      → j + left ≤ l.ns
      → read_symbols left alloc b l j cursor ≡ read_symbols left alloc b' l j cursor
  unfolding read_symbols
  same-read_symbols zero alloc j cursor h = refl
  same-read_symbols (suc left) alloc j cursor h =
      rw (same-read_symbol alloc j cursor (omega arith)) (
        more_symbols-cong (read_symbol alloc b' l j cursor) left _ _
          (λ c. same-read_symbols left alloc (j + 1) c (omega arith)))

  same-read_reloc : (j : ℕ) → j < l.nr → read_reloc b l j ≡ read_reloc b' l j
  unfolding read_reloc reloc_at
  same-read_reloc j lt =
      let r = l.ra + j * 40 in
      let h : r + 40 ≤ n =
        (let c = f.relocs_fit in let d = f.texts_fit in let e = f.payload_fits in grind arith) in
      rw (
        same32 b b' n same (r + 20) (omega arith),
        same64 b b' n same (r + 32) (omega arith),
        same32 b b' n same r (omega arith),
        same32 b b' n same (r + 4) (omega arith),
        same32 b b' n same (r + 16) (omega arith),
        same64 b b' n same (r + 8) (omega arith),
        same64 b b' n same (r + 24) (omega arith),
      )

  same-read_relocs :
      (left j : ℕ) → j + left ≤ l.nr → read_relocs left b l j ≡ read_relocs left b' l j
  unfolding read_relocs
  same-read_relocs zero j h = refl
  same-read_relocs (suc left) j h =
      rw (same-read_reloc j (omega arith), same-read_relocs left (j + 1) (omega arith))

  same-read_payload :
      (alloc : Site → Bool) (j : ℕ) (old : NtBuffer)
      → j < 3
      → PayloadFits b b' n same j
      → read_payload alloc b j old ≡ read_payload alloc b' j old
  unfolding read_payload
  same-read_payload alloc j old lt p =
      let h = f.header_fits in
      rw (
        ← same64 b b' n same (96 + j * 48 + 16) (omega arith),
        ← same64 b b' n same (96 + j * 48 + 24) (omega arith),
        same-load b b' n same (r64 b (96 + j * 48 + 24)) (r64 b (96 + j * 48 + 16)) p,
      )

  same-fill_symbols :
      (alloc : Site → Bool) (o : NtObject) → fill_symbols alloc b l o ≡ fill_symbols alloc b' l o
  unfolding fill_symbols
  same-fill_symbols alloc o = rw (same-read_symbols l.ns alloc 0 0 (omega arith))

  same-fill_relocs : (o : NtObject) → fill_relocs b l o ≡ fill_relocs b' l o
  unfolding fill_relocs
  same-fill_relocs o = rw (same-read_relocs l.nr 0 (omega arith))

  same-begin_object : (o : NtObject) → begin_object b l o ≡ begin_object b' l o
  unfolding begin_object
  same-begin_object o =
      let h = f.header_fits in
      rw (same32 b b' n same 12 (omega arith), same32 b b' n same 88 (omega arith))

  pub same-fill :
      (alloc : Site → Bool) (o : NtObject)
      → PayloadFits b b' n same 0
      → PayloadFits b b' n same 1
      → PayloadFits b b' n same 2
      → fill alloc b l o ≡ fill alloc b' l o
  unfolding fill fill_text fill_rdata fill_data
  same-fill alloc o p0 p1 p2 =
      ap (λ m. m >>> check_object)
        (>>>-cong _ _ (fill_data alloc b) (fill_data alloc b')
          (>>>-cong _ _ (fill_rdata alloc b) (fill_rdata alloc b')
            (>>>-cong _ _ (fill_text alloc b) (fill_text alloc b')
              (>>>-cong _ _ (fill_relocs b l) (fill_relocs b' l)
                (>>>-cong _ _ (fill_symbols alloc b l) (fill_symbols alloc b' l)
                  (ap (λ p. allocate_symbols alloc l p >>> allocate_relocs alloc l)
                    (same-begin_object o))
                  (same-fill_symbols alloc))
                same-fill_relocs)
              (λ q. rw (same-read_payload alloc 0 q.text (omega arith) p0)))
            (λ q. rw (same-read_payload alloc 1 q.rdata (omega arith) p1)))
          (λ q. rw (same-read_payload alloc 2 q.data_ (omega arith) p2)))

same-read_prologue :
    (b b' : Mem) (n : ℕ) (o : NtObject)
    → Agree b b' 0 n
    → read_prologue b n o ≡ read_prologue b' n o
unfolding read_prologue
same-read_prologue b b' n o same = elim (Outcome-cases (read_layout b n)) [
  | inr (e, eq) ↦ rw (← same-read_layout b b' n same, eq)
  | inl (l, eq) ↦
      let f = Fits-of_layout b n l eq in
      rw (← same-read_layout b b' n same, eq)
        (rw (same-read_sections b b' n same l.pa f.header_fits))
]

-- If two buffers hold the same first n bytes, `nt_object_read` of n bytes does the same with both:
-- the same outcome and the same output object.
pub read_local :
    (alloc : Site → Bool) (b b' : Mem) (n : ℕ) (o : NtObject)
    → Agree b b' 0 n
    → read alloc b n o ≡ read alloc b' n o
unfolding read
read_local alloc b b' n o same = elim (Outcome-cases (read_prologue b n o)) [
  | inr (e, eq) ↦
      let eq' : read_prologue b' n o ≡ err e = sym (same-read_prologue b b' n o same) ∙ eq in
      rw (eq, eq', read)
  | inl (l, eq) ↦
      let eq' : read_prologue b' n o ≡ ok l = sym (same-read_prologue b b' n o same) ∙ eq in
      let (layout, sections) = read_prologue-eq-ok b n o l eq in
      let (p0, p1, p2) = read_sections_fit b b' n same l.pa sections in
      let filled = same-fill b b' n same l (Fits-of_layout b n l layout) alloc o p0 p1 p2 in
      rw (eq, eq', read) (rw (filled, read))
]
