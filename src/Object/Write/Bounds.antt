-- ===== src/Object/Write/Bounds.antt =====
-- Where the writer of objects, `nt_object_write` of bootstrap/quarantine/c/object.c, stores.
use nexoragenesis_toolchain.Base.{
  ℕ, ◌+◌, ◌-◌, ◌*◌, ◌≤◌, ◌≡◌, refl, inl, inr, Bool, true, false, ◌||◌, ◌&&◌, List, [], ◌∷◌, none,
  some, ◌!=◌, ltb, leb, if◌then◌else◌, length, arith, subst, Bool-cases, All, All-append,
  All-of_get, All-get,
}
use nexoragenesis_toolchain.Outcome.{ok, fail_if, >>=-eq-ok, >>-eq-ok, ok-injective}
use nexoragenesis_toolchain.Memory.{aligned}
use nexoragenesis_toolchain.Object.{
  NtObject, NtObjectSymbol, NtObjectReloc, NtBuffer, Table, null, at, CString, count, items, chars,
  max_file,
}
use nexoragenesis_toolchain.Object.Text.{text_length_iff, IsText, IsAscii}
use nexoragenesis_toolchain.Object.Spec.{HasTexts, WellFormed}
use nexoragenesis_toolchain.Object.Validate.{validate}
use nexoragenesis_toolchain.Object.Validity.{validate_iff}
use nexoragenesis_toolchain.Object.Write.{
  Put, u32, u64, raw, Plan, text_size, name_size, contract_size, string_total, place, plan,
  header_puts, section_puts, sections_puts, symbol_puts, symbols_puts, reloc_puts, relocs_puts,
  puts,
}

-- One past the last byte of a store.
abbrev pub put_end : Put → ℕ
put_end (u32 i x) = i + 4
put_end (u64 i x) = i + 8
put_end (raw i bytes) = i + length bytes

-- A store into a block of n bytes.
abbrev pub InBlock : ℕ → Put → Type 0
InBlock n p = put_end p ≤ n

-- A test that all stores end by `limit`.
abbrev pub all_end_by : ℕ → List Put → Bool
all_end_by limit [] = true
all_end_by limit (p ∷ ps) = leb (put_end p) limit && all_end_by limit ps

pub all_end_by-InBlock :
    (limit n : ℕ) (ps : List Put) → limit ≤ n → all_end_by limit ps ≡ true → All (InBlock n) ps
all_end_by-InBlock limit n [] le h = tt
all_end_by-InBlock limit n (p ∷ ps) le h = elim (Bool-cases (leb (put_end p) limit)) [
  | inl e ↦ (ground arith, all_end_by-InBlock limit n ps le (rw (← h, e) refl))
  | inr e ↦ ground arith
]

pub length-items {ℓ} : {A : Type ℓ} (t : Table A) → length (items t) ≤ count t
length-items (null n) = omega arith
length-items (at xs) = omega arith

pub if-InBlock :
    (b : Bool) (n : ℕ) (p : Put) → InBlock n p → All (InBlock n) (if b then p ∷ [] else [])
if-InBlock true n p h = (h, tt)
if-InBlock false n p h = tt

text_size-length :
    (s : CString) (maximum : ℕ)
    → IsText (chars s)
    → IsAscii maximum s
    → text_size s maximum ≡ length (chars s)
unfolding text_size
text_size-length none maximum t h = absurd h
text_size-length (some s) maximum t h =
    let found = (text_length_iff s maximum (length s) t).1 (refl, h) in rw (text_size, found) refl

-- The texts of a symbol have the lengths that are stored.
abbrev pub Measured : NtObjectSymbol → Type 0
Measured s = (name_size s ≡ length (chars s.name)) × (contract_size s ≡ length (chars s.contract))

pub WellFormed-Measured :
    (o : NtObject) → All HasTexts (items o.symbols) → WellFormed o → All Measured (items o.symbols)
WellFormed-Measured o texts w = All-of_get Measured (items o.symbols) (λ j s e.
    let t = All-get HasTexts (items o.symbols) j texts e in
    let symbol = w.each_symbol j s e in
    (
      text_size-length s.name 512 t.0 symbol.named,
      text_size-length s.contract 65536 t.1 symbol.contracted,
    ))

abbrev pub texts_size : List NtObjectSymbol → ℕ
texts_size [] = 0
texts_size (s ∷ ss) = name_size s + contract_size s + texts_size ss

string_total-sum :
    (ss : List NtObjectSymbol) (strings total : ℕ)
    → string_total ss strings ≡ ok total
    → total ≡ strings + texts_size ss
unfolding string_total
string_total-sum [] strings total h = ground arith
string_total-sum (s ∷ ss) strings total h =
    let (fits, rest) =
      >>-eq-ok
        (fail_if (ltb (max_file - strings) (name_size s + contract_size s)) 0 "string table limit")
        _ h in
    let sum = string_total-sum ss (strings + (name_size s + contract_size s)) total rest in
    omega arith

place-le : (section : NtBuffer) (size offset : ℕ) → place section size ≡ ok offset → size ≤ offset
unfolding place aligned
place-le section size offset h = ground arith

-- The parts of a plan follow one another.
pub record IsPlan (o : NtObject) (p : Plan) : Type 0 where
  pub sym_at : p.sym_at ≡ 240
  pub rel_at : p.rel_at ≡ 240 + count o.symbols * 64
  pub str_at : p.str_at ≡ p.rel_at + count o.relocations * 40
  pub texts : p.str_at + texts_size (items o.symbols) ≤ p.offset0
  pub rdata : p.offset0 + count o.text ≤ p.offset1
  pub data_ : p.offset1 + count o.rdata ≤ p.offset2
  pub whole : p.size ≡ p.offset2 + count o.data_

aligned-le : (n : ℕ) → n ≤ aligned n
unfolding aligned
aligned-le n = omega arith

abbrev tables_end : NtObject → ℕ
tables_end o = 240 + count o.symbols * 64 + count o.relocations * 40

abbrev plan_of : NtObject → ℕ → ℕ → ℕ → ℕ → Plan
plan_of o strings offset0 offset1 offset2 = record {
  sym_at = 240;
  rel_at = 240 + count o.symbols * 64;
  str_at = tables_end o;
  strings = strings;
  payload = aligned (tables_end o + strings);
  offset0 = offset0;
  offset1 = offset1;
  offset2 = offset2;
  size = offset2 + count o.data_;
}

plan_of-IsPlan :
    (o : NtObject) (strings offset0 offset1 offset2 : ℕ)
    → strings ≡ 0 + texts_size (items o.symbols)
    → aligned (tables_end o + strings) ≤ offset0
    → offset0 + count o.text ≤ offset1
    → offset1 + count o.rdata ≤ offset2
    → IsPlan o (plan_of o strings offset0 offset1 offset2)
plan_of-IsPlan o strings offset0 offset1 offset2 sum h0 h1 h2 =
    let up = aligned-le (tables_end o + strings) in
    record {
      sym_at = refl;
      rel_at = refl;
      str_at = refl;
      texts = omega arith;
      rdata = h1;
      data_ = h2;
      whole = refl;
    }

pub plan-IsPlan : (o : NtObject) (p : Plan) → plan o ≡ ok p → IsPlan o p
unfolding plan
plan-IsPlan o p h =
    let (strings, e0, h0) = >>=-eq-ok (string_total (items o.symbols) 0) _ h in
    let (e1, h1) =
      >>-eq-ok
        (fail_if (ltb max_file (tables_end o) || ltb (max_file - tables_end o) strings) 0
          "object table limit")
        _ h0 in
    let (offset0, e2, h2) = >>=-eq-ok (place o.text (aligned (tables_end o + strings))) _ h1 in
    let (offset1, e3, h3) = >>=-eq-ok (place o.rdata (offset0 + count o.text)) _ h2 in
    let (offset2, e4, h4) = >>=-eq-ok (place o.data_ (offset1 + count o.rdata)) _ h3 in
    subst (IsPlan o) (ok-injective (plan_of o strings offset0 offset1 offset2) p h4) (
      plan_of-IsPlan o strings offset0 offset1 offset2 (string_total-sum _ 0 strings e0)
        (place-le o.text _ offset0 e2) (place-le o.rdata _ offset1 e3)
        (place-le o.data_ _ offset2 e4))

header_puts-InBlock :
    (o : NtObject) (p : Plan) (n : ℕ) → 240 ≤ n → All (InBlock n) (header_puts o p)
unfolding header_puts
header_puts-InBlock o p n h = all_end_by-InBlock 240 n (header_puts o p) h refl

section_puts-InBlock :
    (j permission alignment : ℕ) (section : NtBuffer) (offset n : ℕ)
    → j ≤ 2
    → 240 ≤ n
    → offset + count section ≤ n
    → All (InBlock n) (section_puts j permission alignment section offset)
unfolding section_puts
section_puts-InBlock j permission alignment section offset n small h fits =
    let read = length-items section in
    (
      omega arith,
      (
        omega arith,
        (
          omega arith,
          (
            omega arith,
            (
              omega arith,
              if-InBlock (count section != 0) n (raw offset (items section)) (omega arith),
            ),
          ),
        ),
      ),
    )

reloc_puts-InBlock :
    (rs : List NtObjectReloc) (d n : ℕ)
    → d + length rs * 40 ≤ n
    → All (InBlock n) (relocs_puts rs d)
unfolding relocs_puts reloc_puts
reloc_puts-InBlock [] d n h = tt
reloc_puts-InBlock (r ∷ rs) d n h =
    All-append (InBlock n) (reloc_puts r d) _
      (omega arith, (omega arith, (omega arith, (omega arith, (omega arith, tt)))))
      (reloc_puts-InBlock rs (d + 40) n (omega arith))

symbol_puts-InBlock :
    (s : NtObjectSymbol) (r str_at text_at n : ℕ)
    → Measured s
    → r + 64 ≤ n
    → str_at + text_at + name_size s + contract_size s ≤ n
    → All (InBlock n) (symbol_puts s r str_at text_at)
unfolding symbol_puts
symbol_puts-InBlock s r str_at text_at n m h fits =
    let (named, contracted) = m in
    (
      omega arith,
      (
        omega arith,
        (
          omega arith,
          (
            omega arith,
            (
              omega arith,
              (
                omega arith,
                (omega arith, (omega arith, (omega arith, (omega arith, (omega arith, tt))))),
              ),
            ),
          ),
        ),
      ),
    )

symbols_puts-InBlock :
    (ss : List NtObjectSymbol) (r str_at text_at n : ℕ)
    → All Measured ss
    → r + length ss * 64 ≤ n
    → str_at + text_at + texts_size ss ≤ n
    → All (InBlock n) (symbols_puts ss r str_at text_at)
unfolding symbols_puts
symbols_puts-InBlock [] r str_at text_at n m h fits = tt
symbols_puts-InBlock (s ∷ ss) r str_at text_at n m h fits =
    All-append (InBlock n) (symbol_puts s r str_at text_at) _
      (symbol_puts-InBlock s r str_at text_at n m.0 (omega arith) (omega arith))
      (symbols_puts-InBlock ss (r + 64) str_at (text_at + name_size s + contract_size s) n m.1
        (omega arith) (omega arith))

-- Every store of `nt_object_write` lies in the block of `p.size` bytes that it allocates for the plan p,
-- for an object that it accepts, whose names and contracts are C strings.
pub puts-InBlock :
    (o : NtObject) (p : Plan)
    → All HasTexts (items o.symbols)
    → validate o ≡ ok tt
    → plan o ≡ ok p
    → All (InBlock p.size) (puts o p)
unfolding puts sections_puts
puts-InBlock o p texts valid planned =
    let w = (validate_iff o texts).0 valid in
    let i = plan-IsPlan o p planned in
    let symbols = length-items o.symbols in
    let relocs = length-items o.relocations in
    let start : 240 ≤ p.size =
      omega (arith, i.sym_at, i.rel_at, i.str_at, i.texts, i.rdata, i.data_, i.whole) in
    let sym_at = i.sym_at in
    let rel_at = i.rel_at in
    let str_at = i.str_at in
    let in_texts = i.texts in
    let in_rdata = i.rdata in
    let in_data = i.data_ in
    let whole = i.whole in
    All-append (InBlock p.size) (header_puts o p) _ (header_puts-InBlock o p p.size start) (
      All-append (InBlock p.size) (sections_puts o p) _
        (All-append (InBlock p.size) (section_puts 0 5 16 o.text p.offset0) _
          (section_puts-InBlock 0 5 16 o.text p.offset0 p.size (omega arith) start (omega arith))
          (All-append (InBlock p.size) (section_puts 1 1 8 o.rdata p.offset1) _
            (section_puts-InBlock 1 1 8 o.rdata p.offset1 p.size (omega arith) start (omega arith))
            (section_puts-InBlock 2 3 8 o.data_ p.offset2 p.size (omega arith) start
              (omega arith))))
        (All-append (InBlock p.size) (symbols_puts (items o.symbols) p.sym_at p.str_at 0) _
          (symbols_puts-InBlock (items o.symbols) p.sym_at p.str_at 0 p.size
            (WellFormed-Measured o texts w) (omega arith) (omega arith))
          (reloc_puts-InBlock (items o.relocations) p.rel_at p.size (omega arith))))
