-- ===== src/PeWriter/Pages.antt =====
-- The sites of the relocation blocks of `nt_make_pe` in bootstrap/quarantine/c/ntasm.c, page by page.
use nexoragenesis_toolchain.Base.{
  ℕ, suc, ◌+◌, ◌%◌, ◌≤◌, ◌≡◌, refl, inl, inr, false, List, [], ◌∷◌, ◌==◌, length, arith, All,
  Bool-cases, leb,
}
use nexoragenesis_toolchain.Link.Sort.{qsort, insert_sorted}
use nexoragenesis_toolchain.PeWriter.{split_page, page_of, overlapping}

-- Sites of eight bytes from `lo` on, one behind another.
abbrev pub Spread : ℕ → List ℕ → Type 0
Spread lo [] = Unit
Spread lo (r ∷ rs) = (lo ≤ r) × Spread (r + 8) rs

-- What `split_page` makes of sites at or behind `lo` on the given page: those in front that lie on the page, and
-- the others, on later pages.
pub record IsSplit (lo page : ℕ) (P : ℕ → Type 0) (rs block rest : List ℕ) : Type 0 where
  pub on_page : All (λ r. page_of r ≡ page) block
  pub block_spread : Spread lo block
  pub rest_spread : Spread (page + 4096) rest
  pub sizes : length block + length rest ≡ length rs
  pub block_all : All P block
  pub rest_all : All P rest

pub split_page-lem :
    (lo page : ℕ) (P : ℕ → Type 0) (rs : List ℕ)
    → page % 4096 ≡ 0
    → page ≤ lo
    → Spread lo rs
    → All P rs
    → IsSplit lo page P rs (split_page page rs).0 (split_page page rs).1
unfolding split_page
split_page-lem lo page P [] aligned le s h = record {
  on_page = tt;
  block_spread = tt;
  rest_spread = tt;
  sizes = refl;
  block_all = tt;
  rest_all = tt;
}
split_page-lem lo page P (r ∷ rs) aligned le s h =
    let first = s.0 in
    elim (Bool-cases (page_of r == page)) [
      | inl e ↦
          let k = split_page-lem (r + 8) page P rs aligned (omega arith) s.1 h.1 in
          let sizes = k.sizes in
          rw (e, split_page)
            (record {
              on_page = (ground arith, k.on_page);
              block_spread = (first, k.block_spread);
              rest_spread = k.rest_spread;
              sizes = omega arith;
              block_all = (h.0, k.block_all);
              rest_all = k.rest_all;
            })
      | inr e ↦
          rw (e, split_page)
            (record {
              on_page = tt;
              block_spread = tt;
              rest_spread = (ground arith, s.1);
              sizes = omega arith;
              block_all = tt;
              rest_all = h;
            })
    ]

-- Sites in order.
abbrev Sorted : ℕ → List ℕ → Type 0
Sorted lo [] = Unit
Sorted lo (r ∷ rs) = (lo ≤ r) × Sorted r rs

insert_sorted-Sorted :
    (lo a : ℕ) (rs : List ℕ) → lo ≤ a → Sorted lo rs → Sorted lo (insert_sorted leb a rs)
unfolding insert_sorted
insert_sorted-Sorted lo a [] le h = (le, tt)
insert_sorted-Sorted lo a (r ∷ rs) le h = elim (Bool-cases (leb a r)) [
  | inl e ↦ rw (e, insert_sorted) (le, (ground arith, h.1))
  | inr e ↦ rw (e, insert_sorted) (h.0, insert_sorted-Sorted r a rs (ground arith) h.1)
]

qsort-Sorted : (rs : List ℕ) → Sorted 0 (qsort leb rs)
unfolding qsort
qsort-Sorted [] = tt
qsort-Sorted (r ∷ rs) = insert_sorted-Sorted 0 r (qsort leb rs) (omega arith) (qsort-Sorted rs)

Spread-of_Sorted : (lo : ℕ) (rs : List ℕ) → Sorted lo rs → overlapping rs ≡ false → Spread lo rs
unfolding overlapping
Spread-of_Sorted lo [] s h = tt
Spread-of_Sorted lo (a ∷ []) s h = (s.0, tt)
Spread-of_Sorted lo (a ∷ b ∷ rs) s h =
    let ordered = s.1.0 in
    (s.0, Spread-of_Sorted (a + 8) (b ∷ rs) (ground arith, s.1.1) (ground arith))

-- The sites that the writer sorts and tests.
pub sorted-Spread : (rs : List ℕ) → overlapping (qsort leb rs) ≡ false → Spread 0 (qsort leb rs)
sorted-Spread rs h = Spread-of_Sorted 0 (qsort leb rs) (qsort-Sorted rs) h

length-insert_sorted : (a : ℕ) (rs : List ℕ) → length (insert_sorted leb a rs) ≡ suc (length rs)
unfolding insert_sorted
length-insert_sorted a [] = refl
length-insert_sorted a (r ∷ rs) = elim (Bool-cases (leb a r)) [
  | inl e ↦ rw (e, insert_sorted) refl
  | inr e ↦ let rest = length-insert_sorted a rs in rw (e, insert_sorted) (omega arith)
]

pub length-qsort : (rs : List ℕ) → length (qsort leb rs) ≡ length rs
unfolding qsort
length-qsort [] = refl
length-qsort (r ∷ rs) = omega (arith, length-insert_sorted r (qsort leb rs), length-qsort rs)
