-- ===== src/Link/Sort.antt =====
-- The two orders that object_link.c hands to `qsort`, and a sort by each. C leaves the order of equal
-- elements open; equal names are refused, and so are two relocations of one site.
use Prim.Native.Nat.{Ordering}
use nexoragenesis_toolchain.Base.{
  ℕ, Bool, true, false, List, [], ◌∷◌, All, ltb, ◌!=◌, ◌==◌, if◌then◌else◌, Bool-cases, inl, inr,
}
use nexoragenesis_toolchain.Object.{NtObjectSymbol, NtObjectReloc, chars}
use nexoragenesis_toolchain.Object.Text.{strcmp}

-- `Definition`: the symbol, and of its unit what the loop over the order reads.
pub record Definition : Type 0 where
  pub symbol : NtObjectSymbol
  pub base : ℕ
  pub slot : ℕ

-- compare(a, b) <= 0
unfoldable pub compare_le : Definition → Definition → Bool
compare_le a b = elim (strcmp (chars a.symbol.name) (chars b.symbol.name)) [
  | Ordering.gt ↦ false
  | _ ↦ true
]

-- reloc_compare(x, y) <= 0
unfoldable pub reloc_compare_le : NtObjectReloc → NtObjectReloc → Bool
reloc_compare_le x y =
    if x.section != y.section
    then ltb x.section y.section
    else if ltb x.offset y.offset
    then true
    else x.offset == y.offset

module _ {ℓ} {A : Type ℓ} (le : A → A → Bool) where
  unfoldable pub insert_sorted : A → List A → List A
  insert_sorted a [] = a ∷ []
  insert_sorted a (x ∷ xs) =
      let rest = insert_sorted a xs in if le a x then a ∷ x ∷ xs else x ∷ rest

  unfoldable pub qsort : List A → List A
  unfolding insert_sorted
  qsort [] = []
  qsort (x ∷ xs) = insert_sorted x (qsort xs)

module _ {ℓ κ} {A : Type ℓ} (le : A → A → Bool) (P : A → Type κ) where
  All-insert_sorted : (a : A) (xs : List A) → P a → All P xs → All P (insert_sorted le a xs)
  unfolding insert_sorted
  All-insert_sorted a [] p h = (p, tt)
  All-insert_sorted a (x ∷ xs) p h = elim (Bool-cases (le a x)) [
    | inl e ↦ rw e (p, h)
    | inr e ↦ rw e (h.0, All-insert_sorted a xs p h.1)
  ]

  pub All-qsort : (xs : List A) → All P xs → All P (qsort le xs)
  unfolding qsort
  All-qsort [] h = h
  All-qsort (x ∷ xs) h = All-insert_sorted x (qsort le xs) h.0 (All-qsort xs h.1)

unfoldable pub qsort_definitions : List Definition → List Definition
qsort_definitions = qsort compare_le

unfoldable pub qsort_relocs : List NtObjectReloc → List NtObjectReloc
qsort_relocs = qsort reloc_compare_le
