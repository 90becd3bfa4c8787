-- ===== src/PeWriter/Stores.antt =====
-- Where `nt_make_pe` of bootstrap/quarantine/c/ntasm.c stores.
use nexoragenesis_toolchain.Base.{
  ℕ, zero, suc, ◌+◌, ◌*◌, ◌≤◌, ◌≡◌, refl, Bool, List, [], ◌∷◌, some, ◌!=◌, leb, if◌then◌else◌,
  length, arith, subst, All, All-append,
}
use nexoragenesis_toolchain.Memory.{le_bytes}
use nexoragenesis_toolchain.Object.{count, items}
use nexoragenesis_toolchain.Object.Write.{raw}
use nexoragenesis_toolchain.PeLayout.{NtPeLayout}
use nexoragenesis_toolchain.Link.Sort.{qsort}
use nexoragenesis_toolchain.Materialize.{NtArtifact}
use nexoragenesis_toolchain.Object.Write.Bounds.{
  InBlock, all_end_by-InBlock, length-items, if-InBlock,
}
use nexoragenesis_toolchain.PeWriter.Made.{image_plan-IsMade}
use nexoragenesis_toolchain.PeWriter.{
  align32, split_page, page_of, block_size, reloc_size, entry_puts, block_puts, ImagePlan, ro_raw,
  data_raw, reloc_raw, image_bytes, sized_plan, image_plan, pe_header_puts, section_header_puts,
  content_puts, image_puts,
}

align_512 : (value : ℕ) → value ≤ align32 value 512
unfolding align32
align_512 value = omega arith

align_4 : (value : ℕ) → value ≤ align32 value 4
unfolding align32
align_4 value = omega arith

-- The sizes that the stores rely on.
pub record Sized (a : NtArtifact) (p : ImagePlan) : Type 0 where
  pub text : count a.text ≤ p.text_raw
  pub rdata : 8 + count a.rdata ≤ p.rdata_raw_size
  pub data_ : count a.data_ ≤ p.data_raw_size
  pub relocs : reloc_size (length p.rvas) p.rvas 0 ≤ p.reloc_raw_size

at_least : (n : ℕ) {m : ℕ} → (if n != 0 then n else 8) ≤ m → n ≤ m
at_least n h = ground arith

sized_plan-Sized : (a : NtArtifact) (l : NtPeLayout) (rvas : List ℕ) → Sized a (sized_plan a l rvas)
unfolding sized_plan
sized_plan-Sized a l rvas = record {
  text = align_512 (count a.text);
  rdata = align_512 (8 + count a.rdata);
  data_ =
      let h = align_512 (if count a.data_ != 0 then count a.data_ else 8) in
      at_least (count a.data_) h;
  relocs = align_512 (reloc_size (length rvas) rvas 0);
}

pub image_plan-Sized :
    (alloc : Bool) (code : ℕ) (a : NtArtifact) (p : ImagePlan)
    → image_plan alloc code a ≡ some p
    → Sized a p
image_plan-Sized alloc code a p h =
    let made = image_plan-IsMade alloc code a p h in
    subst (Sized a) made.made (sized_plan-Sized a made.l (qsort leb (made.l.rdata ∷ made.sites)))

pub pe_header_puts-InBlock :
    (a : NtArtifact) (p : ImagePlan) (n : ℕ) → 1024 ≤ n → All (InBlock n) (pe_header_puts a p)
unfolding pe_header_puts le_bytes
pe_header_puts-InBlock a p n le = all_end_by-InBlock 1024 n (pe_header_puts a p) le refl

pub section_header_puts-InBlock :
    (a : NtArtifact) (p : ImagePlan) (n : ℕ) → 1024 ≤ n → All (InBlock n) (section_header_puts a p)
unfolding section_header_puts
section_header_puts-InBlock a p n le = all_end_by-InBlock 1024 n (section_header_puts a p) le refl

pub content_puts-InBlock :
    (a : NtArtifact) (p : ImagePlan) (n : ℕ)
    → reloc_raw p ≤ n
    → Sized a p
    → All (InBlock n) (content_puts a p)
unfolding content_puts
content_puts-InBlock a p n le s =
    let text = length-items a.text in
    let rdata = length-items a.rdata in
    let data_ = length-items a.data_ in
    let fits_text = s.text in
    let fits_rdata = s.rdata in
    let fits_data = s.data_ in
    (
      omega arith,
      (
        omega arith,
        All-append (InBlock n) _ _
            (if-InBlock (count a.rdata != 0) n (raw (ro_raw p + 8) (items a.rdata)) (omega arith))
            (if-InBlock (count a.data_ != 0) n (raw (data_raw p) (items a.data_)) (omega arith)),
      ),
    )

pub entry_puts-InBlock :
    (n i : ℕ) (rvas : List ℕ) → i + 2 * length rvas ≤ n → All (InBlock n) (entry_puts i rvas)
unfolding entry_puts le_bytes
entry_puts-InBlock n i [] h = tt
entry_puts-InBlock n i (r ∷ rvas) h = (omega arith, entry_puts-InBlock n (i + 2) rvas (omega arith))

-- The blocks of `reloc_size` are those that are stored.
pub reloc_size-le : (fuel : ℕ) (rvas : List ℕ) (size : ℕ) → size ≤ reloc_size fuel rvas size
unfolding reloc_size align32
reloc_size-le zero rvas size = omega arith
reloc_size-le (suc fuel) [] size = omega arith
reloc_size-le (suc fuel) (r ∷ rvas) size =
    let (block, rest) = split_page (page_of r) rvas in
    let after = reloc_size-le fuel rest (size + block_size (length block)) in omega arith

block_puts-InBlock :
    (n fuel : ℕ) (rvas : List ℕ) (write_at size : ℕ)
    → write_at + reloc_size fuel rvas size ≤ n + size
    → All (InBlock n) (block_puts fuel rvas write_at)
unfolding block_puts reloc_size
block_puts-InBlock n zero rvas write_at size h = tt
block_puts-InBlock n (suc fuel) [] write_at size h = tt
block_puts-InBlock n (suc fuel) (r ∷ rvas) write_at size h =
    let (block, rest) = split_page (page_of r) rvas in
    let later = reloc_size-le fuel rest (size + block_size (length block)) in
    let fits = align_4 (8 + 2 * (1 + length block)) in
    (
      omega arith,
      (
        omega arith,
        All-append (InBlock n) _ _ (entry_puts-InBlock n (write_at + 8) (r ∷ block) (omega arith)) (
            block_puts-InBlock n fuel rest (write_at + block_size (length block))
              (size + block_size (length block)) (omega arith)),
      ),
    )

-- Every store of `nt_make_pe` lies in the block of `image_bytes p` bytes that it allocates for the plan p.
pub image_puts-InBlock :
    (alloc : Bool) (code : ℕ) (a : NtArtifact) (p : ImagePlan)
    → image_plan alloc code a ≡ some p
    → All (InBlock (image_bytes p)) (image_puts a p)
unfolding image_puts
image_puts-InBlock alloc code a p h =
    let s = image_plan-Sized alloc code a p h in
    let relocs = s.relocs in
    let blocks =
      block_puts-InBlock (image_bytes p) (length p.rvas) p.rvas (reloc_raw p) 0 (omega arith) in
    All-append (InBlock (image_bytes p)) _ _
      (pe_header_puts-InBlock a p (image_bytes p) (omega arith))
      (All-append (InBlock (image_bytes p)) _ _
        (section_header_puts-InBlock a p (image_bytes p) (omega arith))
        (All-append (InBlock (image_bytes p)) _ _
          (content_puts-InBlock a p (image_bytes p) (omega arith) s) blocks))
