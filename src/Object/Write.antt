-- ===== src/Object/Write.antt =====
-- `nt_object_write` of object.c: the sizes that it tests, the place of each part, and the stores
-- that it makes into the block that it allocates, in their order.
pub mod Bounds
pub mod Stored
pub mod Separate
use nexoragenesis_toolchain.Base.{
  ℕ, zero, suc, ◌+◌, ◌-◌, ◌*◌, Bool, ◌||◌, not, List, [], ◌∷◌, ◌++◌, none, some, ◌!=◌, ltb,
  if◌then◌else◌,
}
use nexoragenesis_toolchain.Base.Int.{to_u64}
use nexoragenesis_toolchain.Outcome.{Outcome, ok, fail_if, ◌>>=◌, ◌>>◌}
use nexoragenesis_toolchain.Memory.{Mem, zeroed, store, load, w32, w64, aligned}
use nexoragenesis_toolchain.Object.Text.{text_length}
use nexoragenesis_toolchain.Object.Validate.{validate}
use nexoragenesis_toolchain.Object.{
  NtObject, NtObjectSymbol, NtObjectReloc, NtBuffer, at, CString, count, items, is_null, chars,
  max_file,
}

-- The length that `text_length` stores; the object has been validated, so it does store one.
unfoldable pub text_size : CString → ℕ → ℕ
text_size s maximum = elim (text_length s maximum) [ none ↦ 0 | some n ↦ n ]

abbrev pub name_size : NtObjectSymbol → ℕ
name_size s = text_size s.name 512

abbrev pub contract_size : NtObjectSymbol → ℕ
contract_size s = text_size s.contract 65536

-- The loop that adds the texts up.
unfoldable pub string_total : List NtObjectSymbol → ℕ → Outcome ℕ
string_total [] strings = ok strings
string_total (s ∷ ss) strings = do
  fail_if (ltb (max_file - strings) (name_size s + contract_size s)) 0 "string table limit"
  string_total ss (strings + (name_size s + contract_size s))

-- sym_at, rel_at, str_at, strings, payload, offsets[3] and size.
pub record Plan : Type 0 where
  pub sym_at : ℕ
  pub rel_at : ℕ
  pub str_at : ℕ
  pub strings : ℕ
  pub payload : ℕ
  pub offset0 : ℕ
  pub offset1 : ℕ
  pub offset2 : ℕ
  pub size : ℕ

abbrev pub offsets : Plan → ℕ → ℕ
offsets p zero = p.offset0
offsets p (suc zero) = p.offset1
offsets p (suc (suc k)) = p.offset2

-- The body of the loop that places a payload after `size` bytes: its offset, if it fits.
unfoldable pub place : NtBuffer → ℕ → Outcome ℕ
place section size = do
  fail_if (ltb max_file (aligned size) || ltb (max_file - aligned size) (count section)) 0
      "object payload limit"
  ok (aligned size)

unfoldable pub plan : NtObject → Outcome Plan
plan o = do
  strings ← string_total (items o.symbols) 0
  let rel_at = 240 + count o.symbols * 64
  let str_at = rel_at + count o.relocations * 40
  fail_if (ltb max_file str_at || ltb (max_file - str_at) strings) 0 "object table limit"
  let payload = aligned (str_at + strings)
  offset0 ← place o.text payload
  offset1 ← place o.rdata (offset0 + count o.text)
  offset2 ← place o.data_ (offset1 + count o.rdata)
  ok (record {
    sym_at = 240;
    rel_at = rel_at;
    str_at = str_at;
    strings = strings;
    payload = payload;
    offset0 = offset0;
    offset1 = offset1;
    offset2 = offset2;
    size = offset2 + count o.data_;
  })

-- A store of the routine: w32(b + i, x), w64(b + i, x) or memcpy(b + i, bytes, length).
pub data Put : Type 0 where
  u32 u64 : ℕ → ℕ → Put
  raw : ℕ → List ℕ → Put

unfoldable pub run_put : Mem → Put → Mem
run_put m (u32 i x) = w32 m i x
run_put m (u64 i x) = w64 m i x
run_put m (raw i bytes) = store m i bytes

unfoldable pub run_puts : Mem → List Put → Mem
run_puts m [] = m
run_puts m (p ∷ ps) = run_puts (run_put m p) ps

-- "NXOV0001"
abbrev pub magic : List ℕ
magic = b'N' ∷ b'X' ∷ b'O' ∷ b'V' ∷ b'0' ∷ b'0' ∷ b'0' ∷ b'1' ∷ []

unfoldable pub header_puts : NtObject → Plan → List Put
header_puts o p =
    raw 0 magic
    ∷ u32 8 1
    ∷ u32 12 o.target
    ∷ u32 16 1
    ∷ u32 20 3
    ∷ u32 24 (count o.symbols)
    ∷ u32 28 (count o.relocations)
    ∷ u64 32 96
    ∷ u64 40 p.sym_at
    ∷ u64 48 p.rel_at
    ∷ u64 56 p.str_at
    ∷ u64 64 p.strings
    ∷ u64 72 p.payload
    ∷ u64 80 p.size
    ∷ u32 88 o.entry_symbol
    ∷ []

-- permissions[j], the permission, alignment, size and place of section j, and its bytes.
unfoldable pub section_puts : ℕ → ℕ → ℕ → NtBuffer → ℕ → List Put
section_puts j permission alignment section offset =
    let s = 96 + j * 48 in
    u32 s (j + 1)
    ∷ u32 (s + 4) permission
    ∷ u64 (s + 8) alignment
    ∷ u64 (s + 16) (count section)
    ∷ u64 (s + 24) offset
    ∷ (if count section != 0 then raw offset (items section) ∷ [] else [])

unfoldable pub sections_puts : NtObject → Plan → List Put
unfolding section_puts
sections_puts o p =
    section_puts 0 5 16 o.text p.offset0
    ++ (section_puts 1 1 8 o.rdata p.offset1 ++ section_puts 2 3 8 o.data_ p.offset2)

-- The record of symbol j at `r`, and its texts from `text_at` in the table at `str_at`.
unfoldable pub symbol_puts : NtObjectSymbol → ℕ → ℕ → ℕ → List Put
symbol_puts s r str_at text_at =
    let contract_at = text_at + name_size s in
    u32 r text_at
    ∷ u32 (r + 4) (name_size s)
    ∷ raw (str_at + text_at) (chars s.name)
    ∷ u32 (r + 8) s.section
    ∷ u32 (r + 12) s.flags
    ∷ u64 (r + 16) s.offset
    ∷ u64 (r + 24) s.size
    ∷ u32 (r + 32) contract_at
    ∷ u32 (r + 36) (contract_size s)
    ∷ raw (str_at + contract_at) (chars s.contract)
    ∷ u32 (r + 40) 1
    ∷ []

unfoldable pub symbols_puts : List NtObjectSymbol → ℕ → ℕ → ℕ → List Put
unfolding symbol_puts
symbols_puts [] r str_at text_at = []
symbols_puts (s ∷ ss) r str_at text_at =
    symbol_puts s r str_at text_at
    ++ symbols_puts ss (r + 64) str_at (text_at + name_size s + contract_size s)

unfoldable pub reloc_puts : NtObjectReloc → ℕ → List Put
reloc_puts r d =
    u32 d r.section
    ∷ u32 (d + 4) r.kind
    ∷ u64 (d + 8) r.offset
    ∷ u32 (d + 16) r.target
    ∷ u64 (d + 24) (to_u64 r.addend)
    ∷ []

unfoldable pub relocs_puts : List NtObjectReloc → ℕ → List Put
unfolding reloc_puts
relocs_puts [] d = []
relocs_puts (r ∷ rs) d = reloc_puts r d ++ relocs_puts rs (d + 40)

-- All the stores, in the order of the code.
unfoldable pub puts : NtObject → Plan → List Put
puts o p =
    header_puts o p
    ++ (sections_puts o p
        ++ (symbols_puts (items o.symbols) p.sym_at p.str_at 0
            ++ relocs_puts (items o.relocations) p.rel_at))

-- `alloc` is the outcome of the one `calloc`. The result is what `out` holds on success; on failure
-- `out` is left alone.
unfoldable pub write : Bool → NtObject → NtBuffer → Outcome NtBuffer
write alloc o out = do
  fail_if (not (is_null out) || count out != 0) 0 "output must be empty"
  validate o
  p ← plan o
  fail_if (not alloc) 0 "object allocation failed"
  ok (at (load (run_puts zeroed (puts o p)) 0 p.size))
