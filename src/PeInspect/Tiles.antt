-- ===== src/PeInspect/Tiles.antt =====
-- The sections that the loop of `nt_pe_inspect` of bootstrap/quarantine/c/pe.c accepts.
use nexoragenesis_toolchain.Base.{
  ℕ, zero, suc, ◌+◌, ◌*◌, ◌≤◌, ◌<◌, ◌≡◌, ◌≢◌, ◌⊎◌, inl, inr, refl, subst, true, arith, List, [],
  ◌∷◌, some, get_elem?, All, bit_and, length,
}
use nexoragenesis_toolchain.Outcome.{ok, >>=-eq-ok}
use nexoragenesis_toolchain.Memory.{Mem}
use nexoragenesis_toolchain.PeInspect.{
  Section, section_at, Scan, bad_section, holds_entry, scan_section, scan_sections, within, page_up,
}

-- A section that lies in the file and in the image, and that is not both writable and executable.
pub record IsSection (n image : ℕ) (s : Section) : Type 0 where
  pub stored : s.vs ≤ s.rs
  pub in_file : s.raw + s.rs ≤ n
  pub in_image : s.va + s.vs ≤ image
  pub protected : bit_and s.flags 0xa0000000 ≢ 0xa0000000

-- The entry lies in a section that is executable and readable, and not writable.
abbrev pub HoldsEntry : ℕ → Section → Type 0
HoldsEntry entry s =
    (s.va ≤ entry) × (entry < s.va + s.vs) × (bit_and s.flags 0xe0000000 ≡ 0x60000000)

-- The bytes of the sections in the file.
abbrev pub total : List Section → ℕ
total [] = 0
total (s ∷ ss) = s.rs + total ss

-- Sections that follow one another, in the file from `raw` and in memory from `va`.
abbrev pub Tiled : ℕ → ℕ → ℕ → ℕ → List Section → Type 0
Tiled n image raw va [] = Unit
Tiled n image raw va (s ∷ ss) =
    (s.raw ≡ raw)
    × (s.va ≡ va)
    × IsSection n image s
    × Tiled n image (raw + s.rs) (page_up (va + s.vs)) ss

pub Tiled-after :
    (n image raw va : ℕ) (ss : List Section) (j : ℕ) (t : Section)
    → Tiled n image raw va ss
    → get_elem? ss j ≡ some t
    → (raw ≤ t.raw) × (va ≤ t.va)
Tiled-after n image raw va [] j t h e = cc
Tiled-after n image raw va (s ∷ ss) zero t h e = ground arith
Tiled-after n image raw va (s ∷ ss) (suc j) t h e =
    let later = Tiled-after n image (raw + s.rs) (page_up (va + s.vs)) ss j t h.3 e in omega arith

-- Two sections share no byte, in the file or in memory.
pub Tiled-apart :
    (n image raw va : ℕ) (ss : List Section) (i j : ℕ) (s t : Section)
    → Tiled n image raw va ss
    → i < j
    → get_elem? ss i ≡ some s
    → get_elem? ss j ≡ some t
    → (s.raw + s.rs ≤ t.raw) × (s.va + s.vs ≤ t.va)
Tiled-apart n image raw va [] i j s t h lt e f = cc
Tiled-apart n image raw va (r ∷ ss) i zero s t h lt e f = absurd (omega arith)
Tiled-apart n image raw va (r ∷ ss) zero (suc j) s t h lt e f =
    let later = Tiled-after n image (raw + r.rs) (page_up (va + r.vs)) ss j t h.3 f in ground arith
Tiled-apart n image raw va (r ∷ ss) (suc i) (suc j) s t h lt e f =
    Tiled-apart n image (raw + r.rs) (page_up (va + r.vs)) ss i j s t h.3 (omega arith) e f

pub Tiled-each :
    (n image raw va : ℕ) (ss : List Section) → Tiled n image raw va ss → All (IsSection n image) ss
Tiled-each n image raw va [] h = tt
Tiled-each n image raw va (s ∷ ss) h =
    (h.2, Tiled-each n image (raw + s.rs) (page_up (va + s.vs)) ss h.3)

-- What an accepted round says of its section.
scan_section-lem :
    (b : Mem) (n image entry h : ℕ) (st st' : Scan)
    → scan_section b n image entry h st ≡ ok st'
    → IsSection n image (section_at b h)
      × ((section_at b h).raw ≡ st.next_raw)
      × ((section_at b h).va ≡ st.next_virtual)
      × (st'.next_raw ≡ st.next_raw + (section_at b h).rs)
      × (st'.next_virtual ≡ page_up (st.next_virtual + (section_at b h).vs))
      × (st'.executable_entry ≡ true
          → HoldsEntry entry (section_at b h) ⊎ (st.executable_entry ≡ true))
unfolding scan_section bad_section within holds_entry
scan_section-lem b n image entry h st st' e = (
  record {
    stored = ground arith;
    in_file = ground arith;
    in_image = ground arith;
    protected = ground arith;
  },
  ground arith,
  ground arith,
  ground arith,
  ground arith,
  λ x. ground arith,
)

-- What an accepted loop says of its sections.
pub record Scanned (b : Mem) (n image entry h : ℕ) (st : Scan) (ss : List Section) (end : Scan)
    : Type 0 where
  pub tiled : Tiled n image st.next_raw st.next_virtual ss
  pub covered : end.next_raw ≡ st.next_raw + total ss
  pub entered :
      end.executable_entry ≡ true
      → (st.executable_entry ≡ true)
        ⊎ ((j : ℕ) × (s : Section) × (get_elem? ss j ≡ some s) × HoldsEntry entry s)
  pub listed : (j : ℕ) (s : Section) → get_elem? ss j ≡ some s → s ≡ section_at b (h + 40 * j)

listed_cons :
    (b : Mem) (h : ℕ) (ss : List Section)
    → ((j : ℕ) (s : Section) → get_elem? ss j ≡ some s → s ≡ section_at b (h + 40 + 40 * j))
    → (j : ℕ) (s : Section) → get_elem? (section_at b h ∷ ss) j ≡ some s
    → s ≡ section_at b (h + 40 * j)
listed_cons b h ss rest zero s e = let here : h + 40 * 0 ≡ h = omega arith in rw here (cc)
listed_cons b h ss rest (suc j) s e =
    let there : h + 40 + 40 * j ≡ h + 40 * suc j = omega arith in rw there at (rest j s e)

Scanned-cons :
    (b : Mem) (n image entry h : ℕ) (st st' end : Scan) (ss : List Section)
    → scan_section b n image entry h st ≡ ok st'
    → Scanned b n image entry (h + 40) st' ss end
    → Scanned b n image entry h st (section_at b h ∷ ss) end
Scanned-cons b n image entry h st st' end ss e rest =
    let step = scan_section-lem b n image entry h st st' e in
    record {
      tiled = (step.1, step.2, step.0, rw (← step.3, ← step.4) rest.tiled);
      covered = omega (arith, rest.covered, step.3);
      entered = λ x. elim (rest.entered x) [
        | inl y ↦ elim (step.5 y) [ inl z ↦ inr (0, section_at b h, refl, z) | inr z ↦ inl z ]
        | inr (j, s, f, g) ↦ inr (suc j, s, f, g)
      ];
      listed = listed_cons b h ss rest.listed;
    }

pub scan_sections-Scanned :
    (left : ℕ) (b : Mem) (n image entry h : ℕ) (st : Scan) (r : List Section × Scan)
    → scan_sections left b n image entry h st ≡ ok r
    → Scanned b n image entry h st r.0 r.1 × (length r.0 ≡ left)
unfolding scan_sections
scan_sections-Scanned zero b n image entry h st r e =
    let same : ◌≡◌ {A = List Section × Scan} ([], st) r = cc in
    subst (λ (q : List Section × Scan). Scanned b n image entry h st q.0 q.1 × (length q.0 ≡ 0))
      same
      (
        record { tiled = tt; covered = omega arith; entered = λ x. inl x; listed = λ j s f. cc },
        refl,
      )
scan_sections-Scanned (suc left) b n image entry h st r e =
    let (st', e1, f1) = >>=-eq-ok (scan_section b n image entry h st) _ e in
    let ((ss, end), e2, f2) = >>=-eq-ok (scan_sections left b n image entry (h + 40) st') _ f1 in
    let (rest, count) = scan_sections-Scanned left b n image entry (h + 40) st' (ss, end) e2 in
    let same : ◌≡◌ {A = List Section × Scan} (section_at b h ∷ ss, end) r = cc in
    subst
      (λ (q : List Section × Scan). Scanned b n image entry h st q.0 q.1 × (length q.0 ≡ suc left))
      same (Scanned-cons b n image entry h st st' end ss e1 rest, omega (arith, count))
