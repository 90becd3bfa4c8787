-- ===== src/PeLayout/Order.antt =====
-- The order of the sections in the layout of bootstrap/quarantine/c/pe_layout.h.
use nexoragenesis_toolchain.Base.{
  ℕ, ◌+◌, ◌%◌, ◌^◌, ◌==◌, ◌≤◌, ◌<◌, ◌≡◌, none, some, arith, ◌⊎◌, inl, inr, Bool-cases, ltb, ◌||◌,
}
use nexoragenesis_toolchain.PeLayout.{NtPeLayout, pe_layout, layout_of, section_limit}

-- A layout for the given section sizes: each section begins on a page, at or after the end of the one
-- before it, less than a page later, and all lie far below 2^32. The user's read-only data begins 8
-- bytes into its section; the data section is never empty.
pub record IsLayout (text rdata data_size : ℕ) (l : NtPeLayout) : Type 0 where
  pub first_page : l.text ≡ 4096
  pub pages : (l.rdata % 4096 ≡ 0) × (l.data_ % 4096 ≡ 0) × (l.reloc % 4096 ≡ 0)
  pub text_before : (l.text + text ≤ l.rdata) × (l.rdata < l.text + text + 4096)
  pub rdata_before : (l.rdata + 8 + rdata ≤ l.data_) × (l.data_ < l.rdata + 8 + rdata + 4096)
  pub data_before : (l.data_ + data_size ≤ l.reloc) × (l.data_ < l.reloc)
  pub small : l.reloc < 2 ^ 26

-- The sizes that the profile takes.
abbrev pub SizesFit : ℕ → ℕ → ℕ → Type 0
SizesFit text rdata data_size =
    (0 < text) × (text ≤ section_limit) × (rdata ≤ section_limit) × (data_size ≤ section_limit)

layout_of-IsLayout :
    (text rdata data_size : ℕ)
    → SizesFit text rdata data_size
    → IsLayout text rdata data_size (layout_of text rdata data_size)
unfolding layout_of
layout_of-IsLayout text rdata data_size h = ground arith

-- `nt_pe_layout` fails exactly when the code is empty or a section is over 16 MiB; otherwise the
-- layout is page aligned, and its sections are in order, close together and disjoint.
pub pe_layout-IsLayout :
    (text rdata data_size : ℕ)
    → (SizesFit text rdata data_size
        × (pe_layout text rdata data_size ≡ some (layout_of text rdata data_size))
        × IsLayout text rdata data_size (layout_of text rdata data_size))
      ⊎ ((¬ SizesFit text rdata data_size) × (pe_layout text rdata data_size ≡ none))
unfolding pe_layout
pe_layout-IsLayout text rdata data_size =
    elim (Bool-cases (
      text == 0
      || ltb section_limit text
      || ltb section_limit rdata
      || ltb section_limit data_size)) [
        | inl bad ↦ inr (λ h. ground arith, rw bad)
        | inr good ↦
            let h : SizesFit text rdata data_size = ground arith in
            inl (h, rw good, layout_of-IsLayout text rdata data_size h)
      ]
