-- ===== src/PeWriter/Relocations.antt =====
-- The relocation table that `nt_make_pe` of bootstrap/quarantine/c/ntasm.c stores, read by `nt_pe_inspect`.
use nexoragenesis_toolchain.Base.{
  ℕ, zero, suc, ◌+◌, ◌-◌, ◌*◌, ◌/◌, ◌%◌, ◌^◌, ◌≤◌, ◌<◌, ◌≡◌, ◌∙◌, sym, refl, ap, true, false, not,
  List, [], ◌∷◌, ltb, length, arith, All, All-append, Option, none, some, subst,
}
use nexoragenesis_toolchain.Outcome.{ok}
use nexoragenesis_toolchain.Memory.{Mem}
use nexoragenesis_toolchain.Memory.Laws.{Agree}
use nexoragenesis_toolchain.Object.Write.{Put, u32, run_put, run_puts}
use nexoragenesis_toolchain.PeInspect.{Section, r16, r32, within, bad_block, scan_blocks}
use nexoragenesis_toolchain.PeWriter.{
  align32, split_page, page_of, block_size, reloc_size, entry_puts, block_puts,
}
use nexoragenesis_toolchain.PeWriter.Stores.{entry_puts-InBlock, reloc_size-le}
use nexoragenesis_toolchain.PeWriter.Pages.{Spread, split_page-lem}
use nexoragenesis_toolchain.PeWriter.Puts.{
  From, run_puts_below, run_puts_above, run_puts-append, r32-u32,
}
use nexoragenesis_toolchain.PeWriter.Blocks.{
  Entries, entry_puts-Entries, Entries-cong, entry_puts-From, IsSite, scan_entries_stored,
}

r16-cong : (m m' : Mem) (at : ℕ) → Agree m m' at (at + 2) → r16 m at ≡ r16 m' at
unfolding r16
r16-cong m m' at same =
    omega (arith, same at (omega arith) (omega arith), same (at + 1) (omega arith) (omega arith))

pub r32-cong : (m m' : Mem) (at : ℕ) → Agree m m' at (at + 4) → r32 m at ≡ r32 m' at
unfolding r32
r32-cong m m' at same = omega (
  arith,
  r16-cong m m' at (λ i lo lt. same i lo (omega arith)),
  r16-cong m m' (at + 2) (λ i lo lt. same i (omega arith) (omega arith)),
)

pub block_puts-From :
    (lo fuel : ℕ) (rvas : List ℕ) (write_at : ℕ)
    → lo ≤ write_at
    → All (From lo) (block_puts fuel rvas write_at)
unfolding block_puts
block_puts-From lo zero rvas write_at h = tt
block_puts-From lo (suc fuel) [] write_at h = tt
block_puts-From lo (suc fuel) (r ∷ rvas) write_at h =
    let (block, rest) = split_page (page_of r) rvas in
    (
      h,
      (
        omega arith,
        All-append (From lo) _ _ (entry_puts-From lo (write_at + 8) (r ∷ block) (omega arith))
            (block_puts-From lo fuel rest (write_at + block_size (length block)) (omega arith)),
      ),
    )

-- The stores of one block.
abbrev one_block : ℕ → ℕ → List ℕ → List Put
one_block w r block =
    u32 w (page_of r) ∷ u32 (w + 4) (block_size (length block)) ∷ entry_puts (w + 8) (r ∷ block)

-- A block at w, before stores that begin behind it.
record IsBlock (m : Mem) (w r : ℕ) (block : List ℕ) : Type 0 where
  page : r32 m w ≡ page_of r
  size : r32 m (w + 4) ≡ block_size (length block)
  entries : Entries m (w + 8) (r ∷ block)
  padding :
      (i : ℕ) → w + 8 + 2 * length (r ∷ block) ≤ i → i < w + block_size (length block) → m i ≡ 0

block_size_bounds :
    (k : ℕ) → (10 + 2 * k ≤ block_size k) × (block_size k ≤ 12 + 2 * k) × (block_size k % 4 ≡ 0)
unfolding align32
block_size_bounds k = omega arith

one_block-IsBlock :
    (m : Mem) (w r : ℕ) (block : List ℕ) (later : List Put)
    → page_of r < 2 ^ 32
    → block_size (length block) < 2 ^ 32
    → ((i : ℕ) → w ≤ i → m i ≡ 0)
    → All (From (w + block_size (length block))) later
    → IsBlock (run_puts (run_puts m (one_block w r block)) later) w r block
unfolding run_puts
one_block-IsBlock m w r block later page_fits size_fits zeros behind =
    let sizes = block_size_bounds (length block) in
    let m1 = run_put m (u32 w (page_of r)) in
    let m2 = run_put m1 (u32 (w + 4) (block_size (length block))) in
    let m3 = run_puts m2 (entry_puts (w + 8) (r ∷ block)) in
    let end : Mem = run_puts m3 later in
    let after3 : (i : ℕ) → i < w + block_size (length block) → end i ≡ m3 i =
      λ i lt. run_puts_below m3 later (w + block_size (length block)) i behind lt in
    let after2 : (i : ℕ) → i < w + 8 → m3 i ≡ m2 i = λ i lt.
      run_puts_below m2 (entry_puts (w + 8) (r ∷ block)) (w + 8) i
        (entry_puts-From (w + 8) (w + 8) (r ∷ block) (omega arith)) lt in
    let after1 : (i : ℕ) → i < w + 4 → m2 i ≡ m1 i = λ i lt.
      run_puts_below m1 (u32 (w + 4) (block_size (length block)) ∷ []) (w + 4) i (omega arith, tt)
        lt in
    record {
      page =
          r32-cong end m1 w
            (λ i lo lt. after3 i (omega arith) ∙ after2 i (omega arith) ∙ after1 i (omega arith))
          ∙ r32-u32 m w (page_of r) page_fits;
      size =
          r32-cong end m2 (w + 4) (λ i lo lt. after3 i (omega arith) ∙ after2 i (omega arith))
          ∙ r32-u32 m1 (w + 4) (block_size (length block)) size_fits;
      entries =
          Entries-cong m3 end (w + 8) (w + block_size (length block)) (r ∷ block)
            (λ i lo lt. sym (after3 i lt)) (omega arith)
            (entry_puts-Entries m2 (w + 8) (r ∷ block));
      padding = λ i lo lt.
          after3 i lt
          ∙ run_puts_above m (one_block w r block) (w + 8 + 2 * length (r ∷ block)) i
              (
                omega arith,
                (
                  omega arith,
                  entry_puts-InBlock (w + 8 + 2 * length (r ∷ block)) (w + 8) (r ∷ block)
                      (omega arith),
                ),
              )
              lo
          ∙ zeros i (omega arith);
    }

r16-zero : (m : Mem) (at : ℕ) → m at ≡ 0 → m (at + 1) ≡ 0 → r16 m at ≡ 0
unfolding r16
r16-zero m at e f = omega (arith, e, f)

-- A page behind the page of the block before.
abbrev Behind : Option ℕ → ℕ → Type 0
Behind none lo = Unit
Behind (some page) lo = page + 4096 ≤ lo

good_block :
    (size consumed : ℕ) (previous : Option ℕ) (page block lo r : ℕ)
    → page ≡ page_of r
    → lo ≤ r
    → Behind previous lo
    → (10 ≤ block) × (block % 4 ≡ 0)
    → consumed + block ≤ size
    → bad_block size consumed previous page block ≡ false
unfolding bad_block within
good_block size consumed none page block lo r e le behind h fits = ground arith
good_block size consumed (some before) page block lo r e le behind h fits = ground arith

-- What is left of the table behind a block.
after_block :
    (m : Mem) (w r : ℕ) (block : List ℕ)
    → ((i : ℕ) → w ≤ i → m i ≡ 0)
    → (i : ℕ) → w + block_size (length block) ≤ i
    → run_puts m (one_block w r block) i ≡ 0
after_block m w r block zeros i le =
    let sizes = block_size_bounds (length block) in
    run_puts_above m (one_block w r block) (w + block_size (length block)) i
      (
        omega arith,
        (
          omega arith,
          entry_puts-InBlock (w + block_size (length block)) (w + 8) (r ∷ block) (omega arith),
        ),
      )
      le
    ∙ zeros i (omega arith)

-- One round of the loop over the blocks.
block_round :
    (g : ℕ) (m : Mem) (ss : List Section) (at size consumed : ℕ) (previous : Option ℕ)
    (count lo r : ℕ) (block : List ℕ)
    → IsBlock m (at + consumed) r block
    → consumed + block_size (length block) ≤ size
    → All (λ r'. page_of r' ≡ page_of r) block
    → All (IsSite ss) (r ∷ block)
    → Spread lo (r ∷ block)
    → Behind previous lo
    → scan_blocks (suc g) m ss at size consumed previous count
      ≡ scan_blocks g m ss at size
          (consumed + block_size (length block))
          (some (page_of r))
          (count + length (r ∷ block))
unfolding scan_blocks within
block_round g m ss at size consumed previous count lo r block b fits on sites spread behind =
    let bounds = block_size_bounds (length block) in
    let more : ltb consumed size ≡ true = ground arith in
    let room : not (within consumed 8 size) ≡ false = ground arith in
    let good =
      good_block size consumed previous (page_of r) (block_size (length block)) lo r refl spread.0
        behind (omega arith) fits in
    let pad = (block_size (length block) - 8) / 2 - length (r ∷ block) in
    let zeros : pad ≡ 1 → r16 m (at + consumed + 8 + 2 * length (r ∷ block)) ≡ 0 = λ one.
      r16-zero m (at + consumed + 8 + 2 * length (r ∷ block))
        (b.padding _ (omega arith) (omega arith)) (b.padding _ (omega arith) (omega arith)) in
    let entries =
      scan_entries_stored ((block_size (length block) - 8) / 2) pad m ss (page_of r)
        (at + consumed + 8) none count lo (r ∷ block) (omega arith) (omega arith) zeros b.entries
        (refl, on) sites spread tt in
    rw (more, b.page, b.size, room, good, entries) refl

reloc_size-none : (fuel size : ℕ) → reloc_size fuel [] size ≡ size
unfolding reloc_size
reloc_size-none zero size = refl
reloc_size-none (suc fuel) size = refl

scan_blocks_done :
    (g : ℕ) (m : Mem) (ss : List Section) (at size consumed : ℕ) (previous : Option ℕ) (count : ℕ)
    → size ≤ consumed
    → scan_blocks g m ss at size consumed previous count ≡ ok count
unfolding scan_blocks
scan_blocks_done zero m ss at size consumed previous count h = refl
scan_blocks_done (suc g) m ss at size consumed previous count h =
    let none_left : ltb consumed size ≡ false = ground arith in rw none_left refl

-- The table that the writer stores, sites in order that the inspector takes, is read to its end.
pub blocks_stored :
    (fuel g : ℕ) (m : Mem) (ss : List Section) (at w size consumed : ℕ) (previous : Option ℕ)
    (count lo : ℕ) (rvas : List ℕ)
    → length rvas ≤ fuel
    → size ≤ consumed + g
    → size < 2 ^ 32
    → w ≡ at + consumed
    → reloc_size fuel rvas consumed ≡ size
    → ((i : ℕ) → w ≤ i → m i ≡ 0)
    → All (IsSite ss) rvas
    → Spread lo rvas
    → Behind previous lo
    → scan_blocks g (run_puts m (block_puts fuel rvas w)) ss at size consumed previous count
      ≡ ok (count + length rvas)
unfolding block_puts reloc_size
blocks_stored fuel g m ss at w size consumed previous count lo [] enough rounds small there whole
      zeros sites spread behind =
    scan_blocks_done g _ ss at size consumed previous count
      (omega (arith, reloc_size-none fuel consumed))
    ∙ ap ok (omega arith)
blocks_stored zero g m ss at w size consumed previous count lo (r ∷ rvas) enough rounds small there
      whole zeros sites spread behind =
    absurd (omega arith)
blocks_stored (suc fuel) zero m ss at w size consumed previous count lo (r ∷ rvas) enough rounds
      small there whole zeros sites spread behind =
    let (block, rest) = split_page (page_of r) rvas in
    let after = reloc_size-le fuel rest (consumed + block_size (length block)) in
    let bounds = block_size_bounds (length block) in absurd (omega arith)
blocks_stored (suc fuel) (suc g) m ss at w size consumed previous count lo (r ∷ rvas) enough rounds
      small there whole zeros sites spread behind =
    let block = (split_page (page_of r) rvas).0 in
    let rest = (split_page (page_of r) rvas).1 in
    let s =
      split_page-lem (r + 8) (page_of r) (IsSite ss) rvas (omega arith) (omega arith) spread.1
        sites.1 in
    let lengths = s.sizes in
    let bounds = block_size_bounds (length block) in
    let after = reloc_size-le fuel rest (consumed + block_size (length block)) in
    let fits : consumed + block_size (length block) ≤ size = omega arith in
    let page_fits : page_of r < 2 ^ 32 = let r_fits = sites.0.0 in omega arith in
    let behind_it = w + block_size (length block) in
    let later = block_puts fuel rest behind_it in
    let m1 = run_puts m (one_block w r block) in
    let b =
      one_block-IsBlock m w r block later page_fits (omega arith) zeros
        (block_puts-From behind_it fuel rest behind_it (omega arith)) in
    ap (λ (m' : Mem). scan_blocks (suc g) m' ss at size consumed previous count)
      (run_puts-append m (one_block w r block) later)
    ∙ block_round g (run_puts m1 later) ss at size consumed previous count lo r block
        (subst (λ v. IsBlock (run_puts m1 later) v r block) there b) fits s.on_page
        (sites.0, s.block_all) (spread.0, s.block_spread) behind
    ∙ blocks_stored fuel g m1 ss at behind_it size (consumed + block_size (length block))
        (some (page_of r)) (count + length (r ∷ block)) (page_of r + 4096) rest (omega arith)
        (omega arith) small (omega arith) whole (after_block m w r block zeros) s.rest_all
        s.rest_spread (omega arith)
    ∙ ap ok (omega arith)
