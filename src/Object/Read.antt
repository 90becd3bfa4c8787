-- ===== src/Object/Read.antt =====
-- `nt_object_read` of object.c, from the bytes at a pointer to an object. The three pointers that it
-- takes are not null: the tests !b, !o and !e are left out. Sums of 64-bit fields are only formed after
-- a test that keeps them far below 2^64, so they are written as plain sums. The object is passed from
-- step to step as the routine fills it, and a step that fails leaves it half filled.
pub mod Bounds
pub mod Local
pub mod Result
use nexoragenesis_toolchain.Base.{
  ℕ, zero, suc, ◌+◌, ◌-◌, ◌*◌, Bool, true, false, ◌&&◌, ◌||◌, not, List, [], ◌∷◌, Option, none,
  some, ◌==◌, ◌!=◌, ltb, leb, if◌then◌else◌, replicate,
}
use nexoragenesis_toolchain.Base.Int.{of_u64, pos}
use nexoragenesis_toolchain.Outcome.{Outcome, ok, err, fail, fail_if, ◌>>=◌, ◌>>◌, NtDiagnostic}
use nexoragenesis_toolchain.Memory.{Mem, r32, r64, aligned, span, zero_bytes, load}
use nexoragenesis_toolchain.Object.Validate.{validate}
use nexoragenesis_toolchain.Object.{
  NtObject, NtObjectSymbol, NtObjectReloc, NtBuffer, CString, Table, null, at, is_null, free_object,
  max_file, max_symbols, max_relocs, sections,
}

-- memcmp(b, "NXOV0001", 8)
unfoldable pub magic_differs : Mem → Bool
magic_differs b =
    b 0 != b'N'
    || b 1 != b'X'
    || b 2 != b'O'
    || b 3 != b'V'
    || b 4 != b'0'
    || b 5 != b'0'
    || b 6 != b'0'
    || b 7 != b'1'

-- memchr(p + at, 0, n)
unfoldable pub has_zero : Mem → ℕ → ℕ → Bool
has_zero p i zero = false
has_zero p i (suc n) = (p i == 0) || has_zero p (i + 1) n

-- The counts and table positions of the header: ns, nr, sa, ra, ta, ts, pa.
pub record Layout : Type 0 where
  pub ns : ℕ
  pub nr : ℕ
  pub sa : ℕ
  pub ra : ℕ
  pub ta : ℕ
  pub ts : ℕ
  pub pa : ℕ

unfoldable pub header : Mem → Layout
header b = record {
  ns = r32 b 24;
  nr = r32 b 28;
  sa = r64 b 40;
  ra = r64 b 48;
  ta = r64 b 56;
  ts = r64 b 64;
  pa = r64 b 72;
}

unfoldable pub bad_version : Mem → Bool
unfolding magic_differs
bad_version b = magic_differs b || r32 b 8 != 1 || r32 b 16 != 1 || r32 b 20 != 3 || r32 b 92 != 0

unfoldable pub bad_tables : Mem → ℕ → Layout → Bool
bad_tables b n l =
    ltb max_symbols l.ns
    || ltb max_relocs l.nr
    || r64 b 32 != 96
    || l.sa != 240
    || l.ra != l.sa + l.ns * 64
    || l.ta != l.ra + l.nr * 40
    || not (span l.ta l.ts n)
    || l.pa != aligned (l.ta + l.ts)
    || ltb n l.pa
    || r64 b 80 != n

unfoldable pub read_tables : Mem → ℕ → Layout → Outcome Layout
read_tables b n l = do
  fail_if (bad_tables b n l) 24 "invalid NXO table layout"
  fail_if (not (zero_bytes b (l.ta + l.ts) (l.pa - l.ta - l.ts))) (l.ta + l.ts)
      "nonzero table padding"
  ok l

unfoldable pub read_layout : Mem → ℕ → Outcome Layout
read_layout b n = do
  fail_if (ltb n 240 || ltb max_file n) 0 "invalid NXO file size"
  fail_if (bad_version b) 0 "unknown NXO contract version or reserved field"
  read_tables b n (header b)

-- permissions[j]
abbrev pub permission : ℕ → ℕ
permission zero = 5
permission (suc zero) = 1
permission (suc (suc j)) = 3

-- The tests on a section header, but for the zero bytes before its payload.
unfoldable pub bad_section : Mem → ℕ → ℕ → ℕ → Bool
bad_section b n j raw =
    let s = 96 + j * 48 in
    r32 b s != j + 1
    || r32 b (s + 4) != permission j
    || r64 b (s + 8) != (if j == 0 then 16 else 8)
    || r64 b (s + 32) != 0
    || r64 b (s + 40) != 0
    || r64 b (s + 24) != aligned raw
    || not (span (r64 b (s + 24)) (r64 b (s + 16)) n)

-- The body of the loop over the section headers: from the end of one payload to the end of the next.
unfoldable pub read_section : Mem → ℕ → ℕ → ℕ → Outcome ℕ
read_section b n j raw =
    let len = r64 b (96 + j * 48 + 16) in
    let start = r64 b (96 + j * 48 + 24) in
    do
      fail_if (bad_section b n j raw || not (zero_bytes b raw (start - raw))) (96 + j * 48)
          "invalid NXO section layout or permissions"
      ok (start + len)

unfoldable pub read_sections : Mem → ℕ → ℕ → Outcome (Unit {0})
unfolding read_section
read_sections b n pa = do
  raw0 ← read_section b n 0 pa
  raw1 ← read_section b n 1 raw0
  raw2 ← read_section b n 2 raw1
  fail_if (raw2 != n) raw2 "NXO overlay or truncated payload"

-- Where the routine allocates; each allocation succeeds or fails on its own.
pub data Site : Type 0 where
  symbol_table reloc_table : Site
  name_text contract_text payload : ℕ → Site

-- The object as a step leaves it, and the outcome of the step; the next one follows a success only.
infixl 5 ◌>>>◌
abbrev pub ◌>>>◌ :
    (step : Outcome (Unit {0}) × NtObject) (next : NtObject → Outcome (Unit {0}) × NtObject)
    → Outcome (Unit {0}) × NtObject
(err e, o) >>> next = (err e, o)
(ok u, o) >>> next = next o

-- A record of the two tables as `calloc` gives it.
abbrev pub no_symbol : NtObjectSymbol
no_symbol = record { name = none; contract = none; section = 0; flags = 0; offset = 0; size = 0 }

abbrev pub no_reloc : NtObjectReloc
no_reloc = record { section = 0; kind = 0; target = 0; offset = 0; addend = pos 0 }

-- copy_text
unfoldable pub copy_text : Bool → Mem → ℕ → ℕ → CString
copy_text alloc p i length = if alloc then some (load p i length) else none

-- The fields of the symbol record at `r`, with copies of its two texts.
unfoldable pub symbol_at : Mem → Layout → ℕ → NtObjectSymbol
symbol_at b l r = record {
  name = some (load b (l.ta + r32 b r) (r32 b (r + 4)));
  contract = some (load b (l.ta + r32 b (r + 32)) (r32 b (r + 36)));
  section = r32 b (r + 8);
  flags = r32 b (r + 12);
  offset = r64 b (r + 16);
  size = r64 b (r + 24);
}

-- The tests on the places of the two texts: `no` (here `n_at`), `nl`, `co` and `cl` of the code.
unfoldable pub bad_texts : Layout → ℕ → ℕ → ℕ → ℕ → ℕ → Bool
bad_texts l cursor n_at nl co cl =
    n_at != cursor
    || nl == 0
    || ltb 512 nl
    || cl == 0
    || ltb 65536 cl
    || co != n_at + nl
    || not (span n_at nl l.ts)
    || not (span co cl l.ts)

unfoldable pub bad_reserved : Mem → ℕ → Bool
bad_reserved b r =
    r32 b (r + 40) != 1 || r32 b (r + 44) != 0 || r64 b (r + 48) != 0 || r64 b (r + 56) != 0

unfoldable pub bad_symbol : Mem → Layout → ℕ → ℕ → Bool
bad_symbol b l r cursor =
    bad_texts l cursor (r32 b r) (r32 b (r + 4)) (r32 b (r + 32)) (r32 b (r + 36))
    || (has_zero b (l.ta + r32 b r) (r32 b (r + 4))
        || has_zero b (l.ta + r32 b (r + 32)) (r32 b (r + 36))
        || bad_reserved b r)

-- The body of the loop over the symbols, which leaves a record of the table. `cursor` is the end of
-- the texts read so far; the new one is the value.
unfoldable pub read_symbol : (Site → Bool) → Mem → Layout → ℕ → ℕ → Outcome ℕ × NtObjectSymbol
read_symbol alloc b l j cursor =
    let r = l.sa + j * 64 in
    let name = copy_text (alloc (name_text j)) b (l.ta + r32 b r) (r32 b (r + 4)) in
    let contract = copy_text (alloc (contract_text j)) b (l.ta + r32 b (r + 32)) (r32 b (r + 36)) in
    if bad_symbol b l r cursor
    then (err (fail r "invalid NXO symbol record"), no_symbol)
    else if not (alloc (name_text j)) || not (alloc (contract_text j))
    then (
      err (fail 0 "NXO allocation failed"),
      record no_symbol { name = name; contract = contract },
    )
    else (ok (r32 b (r + 32) + r32 b (r + 36)), symbol_at b l r)

-- A record of the table and those behind it, which a failure leaves zeroed.
unfoldable pub more_symbols :
    Outcome ℕ × NtObjectSymbol
    → ℕ
    → (ℕ → Outcome ℕ × List NtObjectSymbol)
    → Outcome ℕ × List NtObjectSymbol
more_symbols (err e, s) left next = (err e, s ∷ replicate left no_symbol)
more_symbols (ok cursor, s) left next = let rest = next cursor in (rest.0, s ∷ rest.1)

-- The records j, j + 1, ...; the first argument counts those left.
unfoldable pub read_symbols :
    ℕ → (Site → Bool) → Mem → Layout → ℕ → ℕ → Outcome ℕ × List NtObjectSymbol
read_symbols zero alloc b l j cursor = (ok cursor, [])
read_symbols (suc left) alloc b l j cursor =
    more_symbols (read_symbol alloc b l j cursor) left (read_symbols left alloc b l (j + 1))

unfoldable pub reloc_at : Mem → ℕ → NtObjectReloc
reloc_at b r = record {
  section = r32 b r;
  kind = r32 b (r + 4);
  target = r32 b (r + 16);
  offset = r64 b (r + 8);
  addend = of_u64 (r64 b (r + 24));
}

unfoldable pub read_reloc : Mem → Layout → ℕ → Outcome NtObjectReloc
read_reloc b l j =
    let r = l.ra + j * 40 in
    do
      fail_if (r32 b (r + 20) != 0 || r64 b (r + 32) != 0) r "nonzero relocation reserved field"
      ok (reloc_at b r)

unfoldable pub more_relocs :
    Outcome NtObjectReloc
    → ℕ
    → Outcome (Unit {0}) × List NtObjectReloc
    → Outcome (Unit {0}) × List NtObjectReloc
more_relocs (err e) left rest = (err e, no_reloc ∷ replicate left no_reloc)
more_relocs (ok r) left rest = (rest.0, r ∷ rest.1)

unfoldable pub read_relocs : ℕ → Mem → Layout → ℕ → Outcome (Unit {0}) × List NtObjectReloc
read_relocs zero b l j = (ok tt, [])
read_relocs (suc left) b l j = more_relocs (read_reloc b l j) left (read_relocs left b l (j + 1))

-- A section of the output: a length of 0 leaves its pointer alone.
unfoldable pub read_payload : (Site → Bool) → Mem → ℕ → NtBuffer → Outcome (Unit {0}) × NtBuffer
read_payload alloc b j old =
    let s = 96 + j * 48 in
    let len = r64 b (s + 16) in
    let start = r64 b (s + 24) in
    if len == 0
    then (ok tt, if is_null old then null 0 else at [])
    else if alloc (payload j)
    then (ok tt, at (load b start len))
    else (err (fail 0 "NXO allocation failed"), null len)

abbrev pub table_of {ℓ} : {A : Type ℓ} → ℕ → List A → Table A
table_of n xs = if n == 0 then null 0 else at xs

-- The output as `o->_owned = 1` and the four lines behind it leave it.
unfoldable pub begin_object : Mem → Layout → NtObject → NtObject
begin_object b l o = record o {
  owned = true;
  target = r32 b 12;
  entry_symbol = r32 b 88;
  symbols = null l.ns;
  relocations = null l.nr;
}

unfoldable pub allocate_symbols : (Site → Bool) → Layout → NtObject → Outcome (Unit {0}) × NtObject
allocate_symbols alloc l o =
    if l.ns == 0
    then (ok tt, o)
    else if alloc symbol_table
    then (ok tt, record o { symbols = at (replicate l.ns no_symbol) })
    else (err (fail 0 "NXO allocation failed"), o)

unfoldable pub allocate_relocs : (Site → Bool) → Layout → NtObject → Outcome (Unit {0}) × NtObject
allocate_relocs alloc l o =
    if l.nr == 0
    then (ok tt, o)
    else if alloc reloc_table
    then (ok tt, record o { relocations = at (replicate l.nr no_reloc) })
    else (err (fail 0 "NXO allocation failed"), o)

-- The symbols must use up the texts.
unfoldable pub end_symbols : Layout → Outcome ℕ → Outcome (Unit {0})
end_symbols l (err e) = err e
end_symbols l (ok cursor) = fail_if (cursor != l.ts) (l.ta + cursor) "unused NXO string bytes"

unfoldable pub fill_symbols :
    (Site → Bool) → Mem → Layout → NtObject → Outcome (Unit {0}) × NtObject
fill_symbols alloc b l o =
    let p = read_symbols l.ns alloc b l 0 0 in
    (end_symbols l p.0, record o { symbols = table_of l.ns p.1 })

unfoldable pub fill_relocs : Mem → Layout → NtObject → Outcome (Unit {0}) × NtObject
fill_relocs b l o =
    let p = read_relocs l.nr b l 0 in (p.0, record o { relocations = table_of l.nr p.1 })

-- The loop over the sections.
unfoldable pub fill_text : (Site → Bool) → Mem → NtObject → Outcome (Unit {0}) × NtObject
fill_text alloc b o = let p = read_payload alloc b 0 o.text in (p.0, record o { text = p.1 })

unfoldable pub fill_rdata : (Site → Bool) → Mem → NtObject → Outcome (Unit {0}) × NtObject
fill_rdata alloc b o = let p = read_payload alloc b 1 o.rdata in (p.0, record o { rdata = p.1 })

unfoldable pub fill_data : (Site → Bool) → Mem → NtObject → Outcome (Unit {0}) × NtObject
fill_data alloc b o = let p = read_payload alloc b 2 o.data_ in (p.0, record o { data_ = p.1 })

unfoldable pub check_object : NtObject → Outcome (Unit {0}) × NtObject
check_object o = (validate o, o)

-- What follows the tests: the outcome, and the object as it is then, half filled on a failure.
unfoldable pub fill : (Site → Bool) → Mem → Layout → NtObject → Outcome (Unit {0}) × NtObject
fill alloc b l o =
    allocate_symbols alloc l (begin_object b l o)
    >>> allocate_relocs alloc l
    >>> fill_symbols alloc b l
    >>> fill_relocs b l
    >>> fill_text alloc b
    >>> fill_rdata alloc b
    >>> fill_data alloc b
    >>> check_object

-- The label `invalid`, which a failure goes to.
unfoldable pub clean_up : Outcome (Unit {0}) × NtObject → Outcome (Unit {0}) × NtObject
clean_up (ok u, o) = (ok u, o)
clean_up (err e, o) = (err e, free_object o)

-- The tests that come before the output is touched.
unfoldable pub read_prologue : Mem → ℕ → NtObject → Outcome Layout
read_prologue b n o = do
  fail_if (o.owned || not (is_null o.symbols) || not (is_null o.relocations)) 0
      "read output must be empty"
  l ← read_layout b n
  read_sections b n l.pa
  ok l

-- The outcome, and the output object as the routine leaves it.
unfoldable pub read : (Site → Bool) → Mem → ℕ → NtObject → Outcome (Unit {0}) × NtObject
read alloc b n o = elim (read_prologue b n o) [
  | err e ↦ (err e, o)
  | ok l ↦ clean_up (fill alloc b l o)
]
