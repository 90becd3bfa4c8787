-- ===== src/Object/Write/Separate.antt =====
-- The stores of `nt_object_write` (bootstrap/quarantine/c/object.c) by the regions of the file that they go to.
use nexoragenesis_toolchain.Base.{
  ℕ, ◌+◌, ◌*◌, ◌≤◌, ◌≡◌, ◌⊎◌, inl, inr, List, [], ◌∷◌, ◌++◌, length, arith, All, All-append, ◌!=◌,
  Bool-cases,
}
use nexoragenesis_toolchain.Outcome.{ok}
use nexoragenesis_toolchain.Memory.{zeroed}
use nexoragenesis_toolchain.Object.{NtObject, NtObjectSymbol, NtObjectReloc, NtBuffer, count, items}
use nexoragenesis_toolchain.Object.Spec.{HasTexts}
use nexoragenesis_toolchain.Object.Validate.{validate}
use nexoragenesis_toolchain.Object.Validity.{validate_iff}
use nexoragenesis_toolchain.Object.Write.{
  Put, run_puts, Plan, name_size, contract_size, plan, header_puts, section_puts, sections_puts,
  symbol_puts, symbols_puts, reloc_puts, relocs_puts, puts,
}
use nexoragenesis_toolchain.Object.Write.Bounds.{
  put_end, length-items, Measured, WellFormed-Measured, texts_size, IsPlan, plan-IsPlan,
}
use nexoragenesis_toolchain.Object.Write.Stored.{put_start, Avoids, Separate, Found, run_puts-Found}

-- A store into one of two regions.
abbrev InEither : ℕ → ℕ → ℕ → ℕ → Put → Type 0
InEither a b c d p = ((a ≤ put_start p) × (put_end p ≤ b)) ⊎ ((c ≤ put_start p) × (put_end p ≤ d))

abbrev Disjoint : ℕ → ℕ → ℕ → ℕ → Type 0
Disjoint a b c d = (b ≤ c) ⊎ (d ≤ a)

module _ (a b c d e f g h : ℕ) (ae : Disjoint a b e f) (ag : Disjoint a b g h)
    (ce : Disjoint c d e f) (cg : Disjoint c d g h) where
  InEither-Avoids :
      (p q : Put) → InEither a b c d p → InEither e f g h q → Avoids (put_start p) (put_end p) q
  InEither-Avoids p q in_p in_q = ground arith

  InEither-All :
      (p : Put) (qs : List Put)
      → InEither a b c d p
      → All (InEither e f g h) qs
      → All (Avoids (put_start p) (put_end p)) qs
  InEither-All p [] in_p in_qs = tt
  InEither-All p (q ∷ qs) in_p in_qs =
      (InEither-Avoids p q in_p in_qs.0, InEither-All p qs in_p in_qs.1)

  Separate-append :
      (ps qs : List Put)
      → All (InEither a b c d) ps
      → All (InEither e f g h) qs
      → Separate ps
      → Separate qs
      → Separate (ps ++ qs)
  Separate-append [] qs in_ps in_qs s t = t
  Separate-append (p ∷ ps) qs in_ps in_qs s t = (
    All-append (Avoids (put_start p) (put_end p)) ps qs s.0 (InEither-All p qs in_ps.0 in_qs),
    Separate-append ps qs in_ps.1 in_qs s.1 t,
  )

InEither-wider :
    (a b c d a' b' c' d' : ℕ) (ps : List Put)
    → a' ≤ a
    → b ≤ b'
    → c' ≤ c
    → d ≤ d'
    → All (InEither a b c d) ps
    → All (InEither a' b' c' d') ps
InEither-wider a b c d a' b' c' d' [] h1 h2 h3 h4 h = tt
InEither-wider a b c d a' b' c' d' (p ∷ ps) h1 h2 h3 h4 h =
    (ground arith, InEither-wider a b c d a' b' c' d' ps h1 h2 h3 h4 h.1)

InEither-left :
    (a b a' b' c d : ℕ) (ps : List Put)
    → a' ≤ a
    → b ≤ b'
    → All (InEither a b a b) ps
    → All (InEither a' b' c d) ps
InEither-left a b a' b' c d [] h1 h2 h = tt
InEither-left a b a' b' c d (p ∷ ps) h1 h2 h =
    (ground arith, InEither-left a b a' b' c d ps h1 h2 h.1)

-- The symbols: records from r on, and texts from an offset in the text table on.
symbol_puts-Separate :
    (s : NtObjectSymbol) (r str_at text_at : ℕ)
    → Measured s
    → r + 64 ≤ str_at
    → Separate (symbol_puts s r str_at text_at)
unfolding symbol_puts
symbol_puts-Separate s r str_at text_at m h = ground arith

symbol_puts-InEither :
    (s : NtObjectSymbol) (r str_at text_at : ℕ)
    → Measured s
    → All
        (InEither r (r + 64) (str_at + text_at) (str_at + text_at + name_size s + contract_size s))
        (symbol_puts s r str_at text_at)
unfolding symbol_puts
symbol_puts-InEither s r str_at text_at m = ground arith

symbols_puts-InEither :
    (ss : List NtObjectSymbol) (r str_at text_at : ℕ)
    → All Measured ss
    → All
        (InEither r (r + length ss * 64) (str_at + text_at) (str_at + text_at + texts_size ss))
        (symbols_puts ss r str_at text_at)
unfolding symbols_puts
symbols_puts-InEither [] r str_at text_at m = tt
symbols_puts-InEither (s ∷ ss) r str_at text_at m =
    All-append _ (symbol_puts s r str_at text_at) _
      (InEither-wider r (r + 64) (str_at + text_at)
        (str_at + text_at + name_size s + contract_size s) _ _ _ _ (symbol_puts s r str_at text_at)
        (omega arith) (omega arith) (omega arith) (omega arith)
        (symbol_puts-InEither s r str_at text_at m.0))
      (InEither-wider (r + 64) (r + 64 + length ss * 64)
        (str_at + (text_at + name_size s + contract_size s))
        (str_at + (text_at + name_size s + contract_size s) + texts_size ss) _ _ _ _
        (symbols_puts ss (r + 64) str_at (text_at + name_size s + contract_size s)) (omega arith)
        (omega arith) (omega arith) (omega arith)
        (symbols_puts-InEither ss (r + 64) str_at (text_at + name_size s + contract_size s) m.1))

symbols_puts-Separate :
    (ss : List NtObjectSymbol) (r str_at text_at : ℕ)
    → All Measured ss
    → r + length ss * 64 ≤ str_at
    → Separate (symbols_puts ss r str_at text_at)
unfolding symbols_puts
symbols_puts-Separate [] r str_at text_at m h = tt
symbols_puts-Separate (s ∷ ss) r str_at text_at m h =
    let next_text = text_at + name_size s + contract_size s in
    Separate-append r (r + 64) (str_at + text_at) (str_at + text_at + name_size s + contract_size s)
      (r + 64) (r + 64 + length ss * 64) (str_at + next_text) (str_at + next_text + texts_size ss)
      (omega arith) (omega arith) (omega arith) (omega arith) (symbol_puts s r str_at text_at)
      (symbols_puts ss (r + 64) str_at next_text) (symbol_puts-InEither s r str_at text_at m.0)
      (symbols_puts-InEither ss (r + 64) str_at next_text m.1)
      (symbol_puts-Separate s r str_at text_at m.0 (omega arith))
      (symbols_puts-Separate ss (r + 64) str_at next_text m.1 (omega arith))

-- The relocations from d on.
relocs_puts-InEither :
    (rs : List NtObjectReloc) (d : ℕ)
    → All (InEither d (d + length rs * 40) d (d + length rs * 40)) (relocs_puts rs d)
unfolding relocs_puts reloc_puts
relocs_puts-InEither [] d = tt
relocs_puts-InEither (r ∷ rs) d = All-append _ (reloc_puts r d) _ (ground arith) (
    InEither-wider (d + 40) (d + 40 + length rs * 40) (d + 40) (d + 40 + length rs * 40) _ _ _ _
      (relocs_puts rs (d + 40)) (omega arith) (omega arith) (omega arith) (omega arith)
      (relocs_puts-InEither rs (d + 40)))

reloc_puts-InEither :
    (r : NtObjectReloc) (d : ℕ) → All (InEither d (d + 40) d (d + 40)) (reloc_puts r d)
unfolding reloc_puts
reloc_puts-InEither r d = ground arith

reloc_puts-Separate : (r : NtObjectReloc) (d : ℕ) → Separate (reloc_puts r d)
unfolding reloc_puts
reloc_puts-Separate r d = ground arith

relocs_puts-Separate : (rs : List NtObjectReloc) (d : ℕ) → Separate (relocs_puts rs d)
unfolding relocs_puts
relocs_puts-Separate [] d = tt
relocs_puts-Separate (r ∷ rs) d =
    Separate-append d (d + 40) d (d + 40) (d + 40) (d + 40 + length rs * 40) (d + 40)
      (d + 40 + length rs * 40) (omega arith) (omega arith) (omega arith) (omega arith)
      (reloc_puts r d) (relocs_puts rs (d + 40)) (reloc_puts-InEither r d)
      (relocs_puts-InEither rs (d + 40)) (reloc_puts-Separate r d)
      (relocs_puts-Separate rs (d + 40))

-- A section: its header, and its bytes from `offset` on.
section_puts-InEither :
    (j permission alignment : ℕ) (section : NtBuffer) (offset : ℕ)
    → All
        (InEither (96 + j * 48) (96 + j * 48 + 48) offset (offset + count section))
        (section_puts j permission alignment section offset)
unfolding section_puts
section_puts-InEither j permission alignment section offset =
    let read = length-items section in
    elim (Bool-cases (count section != 0)) [
      | inl e ↦ rw e (ground arith)
      | inr e ↦ rw e (ground arith)
    ]

section_puts-Separate :
    (j permission alignment : ℕ) (section : NtBuffer) (offset : ℕ)
    → 96 + j * 48 + 48 ≤ offset
    → Separate (section_puts j permission alignment section offset)
unfolding section_puts
section_puts-Separate j permission alignment section offset h =
    elim (Bool-cases (count section != 0)) [
      | inl e ↦ rw e (ground arith)
      | inr e ↦ rw e (ground arith)
    ]

header_puts-InEither : (o : NtObject) (p : Plan) → All (InEither 0 96 0 96) (header_puts o p)
unfolding header_puts
header_puts-InEither o p = ground arith

header_puts-Separate : (o : NtObject) (p : Plan) → Separate (header_puts o p)
unfolding header_puts
header_puts-Separate o p = ground arith

module _ (o : NtObject) (p : Plan) (i : IsPlan o p) where
  last_sections-InEither :
      All
        (InEither 144 240 p.offset1 p.size)
        (section_puts 1 1 8 o.rdata p.offset1 ++ section_puts 2 3 8 o.data_ p.offset2)
  last_sections-InEither =
      let data_ = i.data_ in
      let whole = i.whole in
      All-append _ (section_puts 1 1 8 o.rdata p.offset1) _
        (InEither-wider 144 192 p.offset1 (p.offset1 + count o.rdata) _ _ _ _
          (section_puts 1 1 8 o.rdata p.offset1) (omega arith) (omega arith) (omega arith)
          (omega arith) (section_puts-InEither 1 1 8 o.rdata p.offset1))
        (InEither-wider 192 240 p.offset2 (p.offset2 + count o.data_) _ _ _ _
          (section_puts 2 3 8 o.data_ p.offset2) (omega arith) (omega arith) (omega arith)
          (omega arith) (section_puts-InEither 2 3 8 o.data_ p.offset2))

  sections_puts-InEither : All (InEither 96 240 p.offset0 p.size) (sections_puts o p)
  unfolding sections_puts
  sections_puts-InEither =
      let rdata = i.rdata in
      let data_ = i.data_ in
      let whole = i.whole in
      All-append _ (section_puts 0 5 16 o.text p.offset0) _
        (InEither-wider 96 144 p.offset0 (p.offset0 + count o.text) _ _ _ _
          (section_puts 0 5 16 o.text p.offset0) (omega arith) (omega arith) (omega arith)
          (omega arith) (section_puts-InEither 0 5 16 o.text p.offset0))
        (InEither-wider 144 240 p.offset1 p.size 96 240 p.offset0 p.size
          (section_puts 1 1 8 o.rdata p.offset1 ++ section_puts 2 3 8 o.data_ p.offset2)
          (omega arith) (omega arith) (omega arith) (omega arith) last_sections-InEither)

  sections_puts-Separate : Separate (sections_puts o p)
  unfolding sections_puts
  sections_puts-Separate =
      let texts = i.texts in
      let rdata = i.rdata in
      let data_ = i.data_ in
      let whole = i.whole in
      let sym_at = i.sym_at in
      let rel_at = i.rel_at in
      let str_at = i.str_at in
      Separate-append 96 144 p.offset0 (p.offset0 + count o.text) 144 240 p.offset1 p.size
        (omega arith) (omega arith) (omega arith) (omega arith)
        (section_puts 0 5 16 o.text p.offset0) _ (section_puts-InEither 0 5 16 o.text p.offset0)
        last_sections-InEither (section_puts-Separate 0 5 16 o.text p.offset0 (omega arith))
        (Separate-append 144 192 p.offset1 (p.offset1 + count o.rdata) 192 240 p.offset2
          (p.offset2 + count o.data_) (omega arith) (omega arith) (omega arith) (omega arith)
          (section_puts 1 1 8 o.rdata p.offset1) _ (section_puts-InEither 1 1 8 o.rdata p.offset1)
          (section_puts-InEither 2 3 8 o.data_ p.offset2)
          (section_puts-Separate 1 1 8 o.rdata p.offset1 (omega arith))
          (section_puts-Separate 2 3 8 o.data_ p.offset2 (omega arith)))

  module _ (m : All Measured (items o.symbols)) where
    abbrev symbols_end : ℕ
    symbols_end = p.str_at + texts_size (items o.symbols)

    -- The symbols and the relocations: records from 240 up to the texts, and the texts.
    tables_puts-InEither : All (InEither 240 p.str_at p.str_at symbols_end) (
        symbols_puts (items o.symbols) p.sym_at p.str_at 0
        ++ relocs_puts (items o.relocations) p.rel_at)
    tables_puts-InEither =
        let sym_at = i.sym_at in
        let rel_at = i.rel_at in
        let str_at = i.str_at in
        let symbols = length-items o.symbols in
        let relocs = length-items o.relocations in
        All-append _ (symbols_puts (items o.symbols) p.sym_at p.str_at 0) _
          (InEither-wider p.sym_at (p.sym_at + length (items o.symbols) * 64) (p.str_at + 0)
            (p.str_at + 0 + texts_size (items o.symbols)) _ _ _ _ _ (omega arith) (omega arith)
            (omega arith) (omega arith)
            (symbols_puts-InEither (items o.symbols) p.sym_at p.str_at 0 m))
          (InEither-left p.rel_at (p.rel_at + length (items o.relocations) * 40) 240 p.str_at
            p.str_at symbols_end _ (omega arith) (omega arith)
            (relocs_puts-InEither (items o.relocations) p.rel_at))

    tables_puts-Separate : Separate (
        symbols_puts (items o.symbols) p.sym_at p.str_at 0
        ++ relocs_puts (items o.relocations) p.rel_at)
    tables_puts-Separate =
        let sym_at = i.sym_at in
        let rel_at = i.rel_at in
        let str_at = i.str_at in
        let symbols = length-items o.symbols in
        let relocs = length-items o.relocations in
        Separate-append p.sym_at (p.sym_at + length (items o.symbols) * 64) (p.str_at + 0)
          (p.str_at + 0 + texts_size (items o.symbols)) p.rel_at
          (p.rel_at + length (items o.relocations) * 40) p.rel_at
          (p.rel_at + length (items o.relocations) * 40) (omega arith) (omega arith) (omega arith)
          (omega arith) (symbols_puts (items o.symbols) p.sym_at p.str_at 0)
          (relocs_puts (items o.relocations) p.rel_at)
          (symbols_puts-InEither (items o.symbols) p.sym_at p.str_at 0 m)
          (relocs_puts-InEither (items o.relocations) p.rel_at)
          (symbols_puts-Separate (items o.symbols) p.sym_at p.str_at 0 m (omega arith))
          (relocs_puts-Separate (items o.relocations) p.rel_at)

    puts-Separate : Separate (puts o p)
    unfolding puts
    puts-Separate =
        let sym_at = i.sym_at in
        let rel_at = i.rel_at in
        let str_at = i.str_at in
        let texts = i.texts in
        let rdata = i.rdata in
        let data_ = i.data_ in
        let whole = i.whole in
        Separate-append 0 96 0 96 96 p.size 96 p.size (omega arith) (omega arith) (omega arith)
          (omega arith) (header_puts o p) _ (header_puts-InEither o p)
          (All-append _ (sections_puts o p) _
            (InEither-wider 96 240 p.offset0 p.size 96 p.size 96 p.size (sections_puts o p)
              (omega arith) (omega arith) (omega arith) (omega arith) sections_puts-InEither)
            (InEither-wider 240 p.str_at p.str_at symbols_end 96 p.size 96 p.size
              (symbols_puts (items o.symbols) p.sym_at p.str_at 0
                ++ relocs_puts (items o.relocations) p.rel_at)
              (omega arith) (omega arith) (omega arith) (omega arith) tables_puts-InEither))
          (header_puts-Separate o p)
          (Separate-append 96 240 p.offset0 p.size 240 p.str_at p.str_at symbols_end (omega arith)
            (omega arith) (omega arith) (omega arith) (sections_puts o p) _ sections_puts-InEither
            tables_puts-InEither sections_puts-Separate tables_puts-Separate)

-- The stores of `nt_object_write`, on an object that it accepts whose texts are C strings, do not
-- overlap: after all of them each number is read back, modulo the width of its field, and each text and
-- each section is there.
pub puts-Found :
    (o : NtObject) (p : Plan)
    → All HasTexts (items o.symbols)
    → validate o ≡ ok tt
    → plan o ≡ ok p
    → All (Found (run_puts zeroed (puts o p))) (puts o p)
puts-Found o p texts valid planned = run_puts-Found zeroed (puts o p) (
    puts-Separate o p (plan-IsPlan o p planned)
      (WellFormed-Measured o texts ((validate_iff o texts).0 valid)))
