-- ===== src/PeWriter/Blocks.antt =====
-- The relocation blocks that `nt_make_pe` of bootstrap/quarantine/c/ntasm.c stores, read by the loops of pe.c.
use nexoragenesis_toolchain.Base.{
  ℕ, zero, suc, ◌+◌, ◌*◌, ◌/◌, ◌%◌, ◌^◌, ◌≤◌, ◌<◌, ◌≡◌, ◌∙◌, sym, refl, ap, false, List, [], ◌∷◌,
  ◌==◌, length, arith, All, Option, none, some,
}
use nexoragenesis_toolchain.Outcome.{ok}
use nexoragenesis_toolchain.Memory.{Mem}
use nexoragenesis_toolchain.Memory.Laws.{Agree}
use nexoragenesis_toolchain.Object.Write.{run_put, run_puts}
use nexoragenesis_toolchain.PeInspect.{Section, r16, map_rva, bad_site, scan_entries}
use nexoragenesis_toolchain.PeWriter.{put16, page_of, entry_puts}
use nexoragenesis_toolchain.PeWriter.Pages.{Spread}
use nexoragenesis_toolchain.PeWriter.Puts.{From, run_puts_below, r16-put16}

-- The entries of a block at the given offset.
abbrev pub Entries : Mem → ℕ → List ℕ → Type 0
Entries m at [] = Unit
Entries m at (r ∷ rs) = (r16 m at ≡ 0xa000 + r % 4096) × Entries m (at + 2) rs

pub entry_puts-From : (lo i : ℕ) (rs : List ℕ) → lo ≤ i → All (From lo) (entry_puts i rs)
unfolding entry_puts
entry_puts-From lo i [] h = tt
entry_puts-From lo i (r ∷ rs) h = (h, entry_puts-From lo (i + 2) rs (omega arith))

r16-cong : (m m' : Mem) (at : ℕ) → m at ≡ m' at → m (at + 1) ≡ m' (at + 1) → r16 m at ≡ r16 m' at
unfolding r16
r16-cong m m' at e f = rw (e, f) refl

pub entry_puts-Entries :
    (m : Mem) (i : ℕ) (rs : List ℕ) → Entries (run_puts m (entry_puts i rs)) i rs
unfolding entry_puts run_puts
entry_puts-Entries m i [] = tt
entry_puts-Entries m i (r ∷ rs) =
    let m' = run_put m (put16 i (0xa000 + r % 4096)) in
    let later = entry_puts-From (i + 2) (i + 2) rs (omega arith) in
    let same =
      r16-cong (run_puts m' (entry_puts (i + 2) rs)) m' i
        (run_puts_below m' (entry_puts (i + 2) rs) (i + 2) i later (omega arith))
        (run_puts_below m' (entry_puts (i + 2) rs) (i + 2) (i + 1) later (omega arith)) in
    (same ∙ r16-put16 m i (0xa000 + r % 4096) (omega arith), entry_puts-Entries m' (i + 2) rs)

pub Entries-cong :
    (m m' : Mem) (at hi : ℕ) (rs : List ℕ)
    → Agree m m' at hi
    → at + 2 * length rs ≤ hi
    → Entries m at rs
    → Entries m' at rs
Entries-cong m m' at hi [] same h e = tt
Entries-cong m m' at hi (r ∷ rs) same h e =
    let first =
      r16-cong m m' at (same at (omega arith) (omega arith))
        (same (at + 1) (omega arith) (omega arith)) in
    (
      sym first ∙ e.0,
      Entries-cong m m' (at + 2) hi rs (λ i lo lt. same i (omega arith) lt) (omega arith) e.1,
    )

-- A site that the inspector takes.
abbrev pub IsSite : List Section → ℕ → Type 0
IsSite ss r = (r < 2 ^ 32) × (site : ℕ) × (map_rva ss r 8 ≡ some site)

-- What is left of a page begins behind the entry before.
abbrev pub Earlier : Option ℕ → List ℕ → Type 0
Earlier none rs = Unit
Earlier (some o) [] = Unit
Earlier (some o) (r ∷ rs) = o < r % 4096

site-good :
    (ss : List Section) (page : ℕ) (previous : Option ℕ) (r : ℕ) (rs : List ℕ)
    → page_of r ≡ page
    → IsSite ss r
    → Earlier previous (r ∷ rs)
    → bad_site ss page previous (0xa000 + r % 4096) ≡ false
unfolding bad_site
site-good ss page none r rs on (small, site, found) earlier =
    let there : page + (0xa000 + r % 4096) % 4096 ≡ r = omega arith in
    rw (there, found) (ground arith)
site-good ss page (some o) r rs on (small, site, found) earlier =
    let there : page + (0xa000 + r % 4096) % 4096 ≡ r = omega arith in
    rw (there, found) (ground arith)

next-Earlier :
    (page r o : ℕ) (rs : List ℕ)
    → o ≡ r % 4096
    → page_of r ≡ page
    → All (λ r'. page_of r' ≡ page) rs
    → Spread (r + 8) rs
    → Earlier (some o) rs
next-Earlier page r o [] e on others spread = tt
next-Earlier page r o (r' ∷ rs) e on others spread =
    let same_page = others.0 in let behind = spread.0 in omega arith

-- The loop over the entries counts them, with one of padding at most.
pub scan_entries_stored :
    (left pad : ℕ) (m : Mem) (ss : List Section) (page at : ℕ) (previous : Option ℕ) (count lo : ℕ)
    (rs : List ℕ)
    → left ≡ length rs + pad
    → pad ≤ 1
    → ((pad ≡ 1) → r16 m (at + 2 * length rs) ≡ 0)
    → Entries m at rs
    → All (λ r. page_of r ≡ page) rs
    → All (IsSite ss) rs
    → Spread lo rs
    → Earlier previous rs
    → scan_entries left m ss page at previous count ≡ ok (count + length rs)
unfolding scan_entries
scan_entries_stored zero pad m ss page at previous count lo [] size small zeros e on sites spread
      earlier =
    ap ok (omega arith)
scan_entries_stored zero pad m ss page at previous count lo (r ∷ rs) size small zeros e on sites
      spread earlier =
    absurd (omega arith)
scan_entries_stored (suc zero) pad m ss page at previous count lo [] size small zeros e on sites
      spread earlier =
    let none_left : r16 m at ≡ 0 = ap (r16 m) (omega arith) ∙ zeros (omega arith) in
    rw none_left (ap ok (omega arith))
scan_entries_stored (suc (suc left)) pad m ss page at previous count lo [] size small zeros e on
      sites spread earlier =
    absurd (omega arith)
scan_entries_stored (suc left) pad m ss page at previous count lo (r ∷ rs) size small zeros e on
      sites spread earlier =
    let good = site-good ss page previous r rs on.0 sites.0 earlier in
    let type_ : ((0xa000 + r % 4096) / 4096 == 0) ≡ false = ground arith in
    let rest =
      scan_entries_stored left pad m ss page (at + 2) (some ((0xa000 + r % 4096) % 4096))
        (count + 1) (r + 8) rs (omega arith) small (λ p. ap (r16 m) (omega arith) ∙ zeros p) e.1
        on.1 sites.1 spread.1 (next-Earlier page r _ rs (omega arith) on.0 on.1 spread.1) in
    rw (e.0, type_, good) (rest ∙ ap ok (omega arith))
