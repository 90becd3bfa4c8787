-- ===== src/PeInspect/Local.antt =====
-- Which bytes `nt_pe_inspect` of bootstrap/quarantine/c/pe.c reads.
use nexoragenesis_toolchain.Base.{
  ℕ, zero, suc, ◌+◌, ◌-◌, ◌*◌, ◌/◌, ◌%◌, ◌≤◌, ◌≡◌, refl, subst, false, ◌||◌, not, ltb, arith,
  Bool-cases, inl, inr, List, [], ◌∷◌, Option, none, some, All,
}
use nexoragenesis_toolchain.Outcome.{ok, >>=-cong, >>=-eq-ok}
use nexoragenesis_toolchain.Memory.{Mem}
use nexoragenesis_toolchain.Memory.Laws.{Agree}
use nexoragenesis_toolchain.PeInspect.{
  r16, r32, within, Section, holds, map_rva, dos_header, file_header, section_table, directories,
  optional_header, section_at, Scan, bad_section, scan_section, scan_sections, sections,
  scan_entries, bad_block, scan_blocks, relocation_table, base_relocations, inspect,
}
use nexoragenesis_toolchain.PeInspect.Cong.{bad_if-cong, same16, same32, same64, same-section_at}

-- The bytes of a section lie in the file.
abbrev InFile : ℕ → Section → Type 0
InFile n s = s.raw + s.rs ≤ n

pub bad_block-le :
    (reloc_size consumed : ℕ) (previous : Option ℕ) (page block : ℕ)
    → bad_block reloc_size consumed previous page block ≡ false
    → (8 ≤ block) × (consumed + block ≤ reloc_size)
unfolding bad_block within
bad_block-le reloc_size consumed previous page block h = ground arith

module _ (b b' : Mem) (n : ℕ) (same : Agree b b' 0 n) where
  same-dos_header : dos_header b n ≡ dos_header b' n
  unfolding dos_header
  same-dos_header = bad_if-cong (ltb n 64) _ 0 _ _ _ refl (λ long.
      let le : 64 ≤ n = ground arith in
      rw (same16 b b' n same 0 (omega arith), same32 b b' n same 60 (omega arith)))

  module _ (nt : ℕ) (room : nt + 264 ≤ n) where
    same-section_table : section_table b n nt ≡ section_table b' n nt
    unfolding section_table
    same-section_table = rw (
      same16 b b' n same (nt + 6) (omega arith),
      same32 b b' n same (nt + 8) (omega arith),
      same32 b b' n same (nt + 12) (omega arith),
      same32 b b' n same (nt + 16) (omega arith),
    )

    pub same-directories :
        (left d : ℕ) → d + left ≤ 16 → directories left b nt d ≡ directories left b' nt d
    unfolding directories
    same-directories zero d h = refl
    same-directories (suc left) d h = rw (
      same32 b b' n same (nt + 136 + 8 * d) (omega arith),
      same32 b b' n same (nt + 140 + 8 * d) (omega arith),
      same-directories left (d + 1) (omega arith),
    )

    same-optional_header : optional_header b n nt ≡ optional_header b' n nt
    unfolding optional_header
    same-optional_header = rw (
      same16 b b' n same (nt + 6) (omega arith),
      same32 b b' n same (nt + 56) (omega arith),
      same32 b b' n same (nt + 60) (omega arith),
      same32 b b' n same (nt + 80) (omega arith),
      same32 b b' n same (nt + 84) (omega arith),
      same16 b b' n same (nt + 92) (omega arith),
      same32 b b' n same (nt + 88) (omega arith),
      same32 b b' n same (nt + 132) (omega arith),
      same-directories 16 0 (omega arith),
    )

  same-file_header : (nt : ℕ) → 64 ≤ n → file_header b n nt ≡ file_header b' n nt
  unfolding file_header within
  same-file_header nt h =
      bad_if-cong (ltb nt 64 || not (within nt 264 n)) _ 60 _ _ _ refl (λ inside.
        let room : nt + 264 ≤ n = ground arith in
        rw (
          same32 b b' n same nt (omega arith),
          same16 b b' n same (nt + 4) (omega arith),
          same16 b b' n same (nt + 20) (omega arith),
          same16 b b' n same (nt + 24) (omega arith),
        ))

  same-scan_section :
      (image entry h : ℕ) (st : Scan)
      → h + 40 ≤ n
      → scan_section b n image entry h st ≡ scan_section b' n image entry h st
  unfolding scan_section
  same-scan_section image entry h st le = rw (
    same-section_at b b' n same h le,
    same32 b b' n same (h + 24) (omega arith),
    same32 b b' n same (h + 28) (omega arith),
    same32 b b' n same (h + 32) (omega arith),
  )

  same-scan_sections :
      (left image entry h : ℕ) (st : Scan)
      → h + 40 * left ≤ n
      → scan_sections left b n image entry h st ≡ scan_sections left b' n image entry h st
  unfolding scan_sections
  same-scan_sections zero image entry h st le = refl
  same-scan_sections (suc left) image entry h st le =
      >>=-cong _ _ _ _ (same-scan_section image entry h st (omega arith)) (λ st' e. rw (
        same-scan_sections left image entry (h + 40) st' (omega arith),
        same-section_at b b' n same h (omega arith),
      ))

  same-sections :
      (nt : ℕ)
      → nt + 264 ≤ n
      → nt + 264 + 40 * r16 b (nt + 6) ≤ n
      → sections b n nt ≡ sections b' n nt
  unfolding sections
  same-sections nt h table =
      let all =
        same-scan_sections (r16 b (nt + 6)) (r32 b (nt + 80)) (r32 b (nt + 40)) (nt + 264)
          (record { next_virtual = 4096; next_raw = r32 b (nt + 84); executable_entry = false })
          table in
      rw (
        all,
        same16 b b' n same (nt + 6) (omega arith),
        same32 b b' n same (nt + 80) (omega arith),
        same32 b b' n same (nt + 40) (omega arith),
        same32 b b' n same (nt + 84) (omega arith),
      )

  same-scan_entries :
      (left : ℕ) (ss : List Section) (page at : ℕ) (previous : Option ℕ) (relocations : ℕ)
      → at + 2 * left ≤ n
      → scan_entries left b ss page at previous relocations
        ≡ scan_entries left b' ss page at previous relocations
  unfolding scan_entries
  same-scan_entries zero ss page at previous relocations h = refl
  same-scan_entries (suc left) ss page at previous relocations h = rw (
    same16 b b' n same at (omega arith),
    same-scan_entries left ss page (at + 2) previous relocations (omega arith),
    same-scan_entries left ss page (at + 2) (some (r16 b' at % 4096)) (relocations + 1)
        (omega arith),
  )

  same-scan_blocks :
      (fuel : ℕ) (ss : List Section) (at reloc_size consumed : ℕ) (previous : Option ℕ)
      (relocations : ℕ)
      → at + reloc_size ≤ n
      → scan_blocks fuel b ss at reloc_size consumed previous relocations
        ≡ scan_blocks fuel b' ss at reloc_size consumed previous relocations
  unfolding scan_blocks within
  same-scan_blocks zero ss at reloc_size consumed previous relocations h = refl
  same-scan_blocks (suc fuel) ss at reloc_size consumed previous relocations h =
      elim (Bool-cases (ltb consumed reloc_size)) [
        | inr done ↦ rw done
        | inl more ↦
            let page = r32 b (at + consumed) in
            let block = r32 b (at + consumed + 4) in
            rw more (
              bad_if-cong (not (within consumed 8 reloc_size)) _ (at + consumed) _ _ _ refl (λ room.
                let fits : consumed + 8 ≤ reloc_size = ground arith in
                rw
                  (
                    ← same32 b b' n same (at + consumed) (omega arith),
                    ← same32 b b' n same (at + consumed + 4) (omega arith),
                  )
                  (bad_if-cong (bad_block reloc_size consumed previous page block) _ (at + consumed)
                    _ _ _ refl
                    (λ good.
                      let inside = bad_block-le reloc_size consumed previous page block good in
                      >>=-cong _ _ _ _
                        (same-scan_entries ((block - 8) / 2) ss page (at + consumed + 8) none
                          relocations (omega arith))
                        (λ relocations' e.
                          same-scan_blocks fuel ss at reloc_size (consumed + block) (some page)
                            relocations' h)))))
      ]

map_rva-le :
    (ss : List Section) (n rva size at : ℕ)
    → All (InFile n) ss
    → map_rva ss rva size ≡ some at
    → at + size ≤ n
unfolding map_rva holds within
map_rva-le [] n rva size at h e = cc
map_rva-le (s ∷ ss) n rva size at h e = ground (arith, map_rva-le ss n rva size at h.1)

-- The sections that a scan accepts lie in the file.
pub scan_sections-InFile :
    (left : ℕ) (b : Mem) (n image entry h : ℕ) (st end : Scan) (ss : List Section)
    → scan_sections left b n image entry h st ≡ ok (ss, end)
    → All (InFile n) ss
unfolding scan_sections scan_section bad_section within
scan_sections-InFile zero b n image entry h st end ss e =
    let empty : ◌≡◌ {A = List Section × Scan} ([], st) (ss, end) = cc in
    subst (λ (q : List Section × Scan). All (InFile n) q.0) empty tt
scan_sections-InFile (suc left) b n image entry h st end ss e =
    let (st', e1, f1) = >>=-eq-ok (scan_section b n image entry h st) _ e in
    let ((rest, last), e2, f2) = >>=-eq-ok (scan_sections left b n image entry (h + 40) st') _ f1 in
    let fits : InFile n (section_at b h) = ground arith in
    let all = scan_sections-InFile left b n image entry (h + 40) st' last rest e2 in
    let split : ◌≡◌ {A = List Section × Scan} (section_at b h ∷ rest, last) (ss, end) = cc in
    subst (λ (q : List Section × Scan). All (InFile n) q.0) split (fits, all)

sections-InFile :
    (b : Mem) (n nt : ℕ) (ss : List Section) → sections b n nt ≡ ok ss → All (InFile n) ss
unfolding sections
sections-InFile b n nt ss h =
    let ((ss', end), e, f) =
      >>=-eq-ok
        (scan_sections (r16 b (nt + 6)) b n (r32 b (nt + 80)) (r32 b (nt + 40)) (nt + 264)
          (record { next_virtual = 4096; next_raw = r32 b (nt + 84); executable_entry = false }))
        _ h in
    let same : ss' ≡ ss = ground arith in
    subst (All (InFile n)) same (scan_sections-InFile _ b n _ _ _ _ end ss' e)

-- What the two header checks leave.
pub file_header-le : (b : Mem) (n nt : ℕ) → file_header b n nt ≡ ok tt → nt + 264 ≤ n
unfolding file_header within
file_header-le b n nt h = ground arith

pub section_table-le :
    (b : Mem) (n nt : ℕ) → section_table b n nt ≡ ok tt → nt + 264 + 40 * r16 b (nt + 6) ≤ n
unfolding section_table within
section_table-le b n nt h = ground arith

pub dos_header-le : (b : Mem) (n nt : ℕ) → dos_header b n ≡ ok nt → 64 ≤ n
unfolding dos_header
dos_header-le b n nt h = ground arith

relocation_table-le :
    (b : Mem) (nt : ℕ) (ss : List Section) (n at : ℕ)
    → All (InFile n) ss
    → relocation_table b nt ss ≡ ok at
    → at + r32 b (nt + 180) ≤ n
unfolding relocation_table
relocation_table-le b nt ss n at all h =
    ground (arith, map_rva-le ss n (r32 b (nt + 176)) (r32 b (nt + 180)) at all)

module _ (b b' : Mem) (n : ℕ) (same : Agree b b' 0 n) where
  same-relocation_table :
      (nt : ℕ) (ss : List Section)
      → nt + 264 ≤ n
      → relocation_table b nt ss ≡ relocation_table b' nt ss
  unfolding relocation_table
  same-relocation_table nt ss room =
      rw (same32 b b' n same (nt + 180) (omega arith), same32 b b' n same (nt + 176) (omega arith))

  same-base_relocations :
      (nt : ℕ) (ss : List Section)
      → nt + 264 ≤ n
      → All (InFile n) ss
      → base_relocations b nt ss ≡ base_relocations b' nt ss
  unfolding base_relocations
  same-base_relocations nt ss room all =
      >>=-cong _ _ _ _ (same-relocation_table nt ss room) (λ at e.
        let inside = relocation_table-le b nt ss n at all e in
        >>=-cong (scan_blocks (r32 b (nt + 180)) b ss at (r32 b (nt + 180)) 0 none 0)
          (scan_blocks (r32 b' (nt + 180)) b' ss at (r32 b' (nt + 180)) 0 none 0) _ _
          (rw (← same32 b b' n same (nt + 180) (omega arith)) (
            same-scan_blocks b b' n same (r32 b (nt + 180)) ss at (r32 b (nt + 180)) 0 none 0
              inside))
          (λ relocations f. refl))

  -- If two buffers hold the same first n bytes, `nt_pe_inspect` of n bytes does the same with both.
  pub inspect_local : inspect b n ≡ inspect b' n
  unfolding inspect
  inspect_local = >>=-cong _ _ _ _ (same-dos_header b b' n same) (λ nt e0.
      let long = dos_header-le b n nt e0 in
      >>=-cong _ _ _ _ (same-file_header b b' n same nt long) (λ u1 e1.
        let room = file_header-le b n nt e1 in
        >>=-cong _ _ _ _ (same-section_table b b' n same nt room) (λ u2 e2.
          let table = section_table-le b n nt e2 in
          >>=-cong _ _ _ _ (same-optional_header b b' n same nt room) (λ u3 e3.
            >>=-cong _ _ _ _ (same-sections b b' n same nt room table) (λ ss e4.
              >>=-cong _ _ _ _ (same-base_relocations nt ss room (sections-InFile b n nt ss e4))
                (λ relocations e5. rw (
                  same32 b b' n same (nt + 40) (omega arith),
                  same32 b b' n same (nt + 80) (omega arith),
                  same32 b b' n same (nt + 84) (omega arith),
                  same16 b b' n same (nt + 6) (omega arith),
                  same64 b b' n same (nt + 48) (omega arith),
                )))))))
