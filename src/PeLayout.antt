-- ===== src/PeLayout.antt =====
-- bootstrap/quarantine/c/pe_layout.h: where the sections of an image go, and what a relocation
-- stores.
pub mod Order
pub mod Value
use nexoragenesis_toolchain.Base.{
  ℕ, zero, suc, ◌+◌, ◌-◌, ◌*◌, ◌/◌, ◌%◌, ◌^◌, Bool, ◌||◌, ◌&&◌, Option, none, some, ◌==◌, ltb, leb,
  if◌then◌else◌,
}
use nexoragenesis_toolchain.Base.Int.{ℤ, pos, negsuc, pos_part, neg_part, ◌+ℤ◌, ◌-ℤ◌, ltb_ℤ, to_u64}
use nexoragenesis_toolchain.Memory.{Mem, store, le_bytes}

-- NT_PE_IMAGE_BASE
abbrev pub image_base : ℕ
image_base = 0x140000000

pub record NtPeLayout : Type 0 where
  pub text : ℕ
  pub rdata : ℕ
  pub data_ : ℕ
  pub reloc : ℕ

-- `(n + a - 1) & ~(a - 1)` on uint32_t, for an alignment a that is a power of two.
unfoldable pub align_u32 : ℕ → ℕ → ℕ
align_u32 n a = (n + a - 1) % 2 ^ 32 / a * a

-- 16 * 1024 * 1024
abbrev pub section_limit : ℕ
section_limit = 16777216

-- What nt_pe_layout stores through `l`.
unfoldable pub layout_of : ℕ → ℕ → ℕ → NtPeLayout
unfolding align_u32
layout_of text rdata data_size =
    let rdata_at = align_u32 (4096 + text) 4096 in
    let data_at = align_u32 (rdata_at + 8 + rdata) 4096 in
    let reloc_at = align_u32 (data_at + (if data_size == 0 then 8 else data_size)) 4096 in
    record { text = 4096; rdata = rdata_at; data_ = data_at; reloc = reloc_at }

-- nt_pe_layout; `none` is the return value 0.
unfoldable pub pe_layout : ℕ → ℕ → ℕ → Option NtPeLayout
unfolding layout_of
pe_layout text rdata data_size =
    if text == 0 || ltb section_limit text || ltb section_limit rdata || ltb section_limit data_size
    then none
    else some (layout_of text rdata data_size)

-- nt_pe_logical_rva
unfoldable pub logical_rva : NtPeLayout → ℕ → ℕ
logical_rva l section =
    if section == 1
    then l.text
    else if section == 2
    then l.rdata + 8
    else if section == 3
    then l.data_
    else 2 ^ 64 - 1

-- INT64_MAX, INT64_MIN, INT32_MAX, INT32_MIN
abbrev pub int64_max : ℤ
int64_max = pos (2 ^ 63 - 1)

abbrev pub int64_min : ℤ
int64_min = negsuc (2 ^ 63 - 1)

abbrev pub int32_max : ℤ
int32_max = pos (2 ^ 31 - 1)

abbrev pub int32_min : ℤ
int32_min = negsuc (2 ^ 31 - 1)

-- `t = (int64_t)target + addend - ((int64_t)source + 4)`, where each step is tested before it is made.
unfoldable pub rel32_value : ℕ → ℕ → ℤ → Option ℕ
unfolding ◌+ℤ◌ ◌-ℤ◌ to_u64
rel32_value source target addend =
    let t = pos target in
    let p = pos (source + 4) in
    if (ltb_ℤ (pos 0) addend && ltb_ℤ (int64_max -ℤ addend) t)
      || (ltb_ℤ addend (pos 0) && ltb_ℤ t (int64_min -ℤ addend))
    then none
    else if ltb_ℤ (t +ℤ addend) (int64_min +ℤ p)
    then none
    else if ltb_ℤ (t +ℤ addend -ℤ p) int32_min || ltb_ℤ int32_max (t +ℤ addend -ℤ p)
    then none
    else some (to_u64 (t +ℤ addend -ℤ p) % 2 ^ 32)

-- `-(addend + 1)` as uint64_t, plus 1.
abbrev pub magnitude : ℤ → ℕ
magnitude addend = neg_part addend

unfoldable pub dir64_value : ℕ → ℤ → Option ℕ
dir64_value target addend =
    if ltb (2 ^ 64 - 1 - image_base) target
    then none
    else let t = image_base + target in
      if ltb_ℤ addend (pos 0)
      then (if ltb t (magnitude addend) then none else some (t - magnitude addend))
      else if ltb (2 ^ 64 - 1 - t) (pos_part addend)
      then none
      else some (t + pos_part addend)

-- nt_relocation_value
unfoldable pub relocation_value : ℕ → ℕ → ℕ → ℤ → Option ℕ
unfolding rel32_value dir64_value
relocation_value kind source target addend =
    if ltb (2 ^ 63 - 1 - 4) source || ltb (2 ^ 63 - 1) target
    then none
    else if kind == 1
    then rel32_value source target addend
    else if kind == 2
    then dir64_value target addend
    else none

-- nt_relocation_store
unfoldable pub relocation_store : Mem → ℕ → ℕ → ℕ → Mem
relocation_store m destination width value = store m destination (le_bytes width value)
