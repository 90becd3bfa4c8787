-- ===== src/Object/Read/Bounds.antt =====
-- The header, section and text tests of `nt_object_read` look at bytes below the length only.
use native.Mathlib.Decide.{dec_le}
use nexoragenesis_toolchain.Base.{
  ℕ, zero, suc, ◌+◌, ◌-◌, ◌*◌, ◌≤◌, ◌<◌, ◌≡◌, refl, false, arith, Bool-cases, inl, inr,
}
use nexoragenesis_toolchain.Outcome.{ok, >>=-eq-ok}
use nexoragenesis_toolchain.Memory.{Mem, r32, r64, zero_bytes, load}
use nexoragenesis_toolchain.Memory.Laws.{Agree, r32-cong, r64-cong, load-cong, aligned_bounds}
use nexoragenesis_toolchain.Object.Read.{
  Layout, header, bad_version, bad_tables, has_zero, read_tables, read_layout, bad_section,
  read_section, read_sections, bad_texts, bad_reserved, bad_symbol,
}

-- The places that a layout names lie below `n`.
pub record Fits (l : Layout) (n : ℕ) : Type 0 where
  pub header_fits : 240 ≤ n
  pub symbols_fit : l.sa + l.ns * 64 ≤ l.ra
  pub relocs_fit : l.ra + l.nr * 40 ≤ l.ta
  pub texts_fit : l.ta + l.ts ≤ l.pa
  pub payload_fits : l.pa ≤ n

module _ (b b' : Mem) (n : ℕ) (same : Agree b b' 0 n) where
  pub same32 : (i : ℕ) → i + 4 ≤ n → r32 b i ≡ r32 b' i
  same32 i h = r32-cong b b' i (λ k lo hi. same k (omega arith) (omega arith))

  pub same64 : (i : ℕ) → i + 8 ≤ n → r64 b i ≡ r64 b' i
  same64 i h = r64-cong b b' i (λ k lo hi. same k (omega arith) (omega arith))

  same-zero_bytes : (i k : ℕ) → i + k ≤ n → zero_bytes b i k ≡ zero_bytes b' i k
  unfolding zero_bytes
  same-zero_bytes i zero h = refl
  same-zero_bytes i (suc k) h =
      rw (same i (omega arith) (omega arith), same-zero_bytes (i + 1) k (omega arith))

  same-has_zero : (i k : ℕ) → i + k ≤ n → has_zero b i k ≡ has_zero b' i k
  unfolding has_zero
  same-has_zero i zero h = refl
  same-has_zero i (suc k) h =
      rw (same i (omega arith) (omega arith), same-has_zero (i + 1) k (omega arith))

  pub same-load : (i k : ℕ) → i + k ≤ n → load b i k ≡ load b' i k
  same-load i k h = load-cong b b' i k (λ j lo hi. same j (omega arith) (omega arith))

  same-header : 240 ≤ n → header b ≡ header b'
  unfolding header
  same-header h = rw (
    same32 24 (omega arith),
    same32 28 (omega arith),
    same64 40 (omega arith),
    same64 48 (omega arith),
    same64 56 (omega arith),
    same64 64 (omega arith),
    same64 72 (omega arith),
  )

  same-bad_version : 240 ≤ n → bad_version b ≡ bad_version b'
  unfolding bad_version
  same-bad_version h = rw (
    same32 8 (omega arith),
    same32 16 (omega arith),
    same32 20 (omega arith),
    same32 92 (omega arith),
    same 0 (omega arith) (omega arith),
    same 1 (omega arith) (omega arith),
    same 2 (omega arith) (omega arith),
    same 3 (omega arith) (omega arith),
    same 4 (omega arith) (omega arith),
    same 5 (omega arith) (omega arith),
    same 6 (omega arith) (omega arith),
    same 7 (omega arith) (omega arith),
  )

  same-bad_tables : (l : Layout) → 240 ≤ n → bad_tables b n l ≡ bad_tables b' n l
  unfolding bad_tables
  same-bad_tables l h = rw (same64 32 (omega arith), same64 80 (omega arith))

  pub Fits-of_tables : (l : Layout) → 240 ≤ n → bad_tables b n l ≡ false → Fits l n
  unfolding bad_tables
  Fits-of_tables l h e = ground (arith, aligned_bounds (l.ta + l.ts))

  same-read_tables : (l : Layout) → 240 ≤ n → read_tables b n l ≡ read_tables b' n l
  unfolding read_tables
  same-read_tables l h = elim (Bool-cases (bad_tables b n l)) [
    | inl bad ↦ rw (← same-bad_tables l h, bad)
    | inr good ↦
        let f = Fits-of_tables l h good in
        let z = same-zero_bytes (l.ta + l.ts) (l.pa - l.ta - l.ts) (omega arith) in
        rw (← same-bad_tables l h, z)
  ]

  pub same-read_layout : read_layout b n ≡ read_layout b' n
  unfolding read_layout
  same-read_layout = elim (dec_le 240 n) [
    | yes h ↦ rw (same-bad_version h, same-header h, same-read_tables (header b') h)
    | no h ↦ ground arith
  ]

  same-bad_section : (j raw : ℕ) → 240 ≤ n → j < 3 → bad_section b n j raw ≡ bad_section b' n j raw
  unfolding bad_section
  same-bad_section j raw h lt = rw (
    same32 (96 + j * 48) (omega arith),
    same32 (96 + j * 48 + 4) (omega arith),
    same64 (96 + j * 48 + 8) (omega arith),
    same64 (96 + j * 48 + 32) (omega arith),
    same64 (96 + j * 48 + 40) (omega arith),
    same64 (96 + j * 48 + 24) (omega arith),
    same64 (96 + j * 48 + 16) (omega arith),
  )

  section_fits :
      (j raw : ℕ)
      → bad_section b n j raw ≡ false
      → (raw ≤ r64 b (96 + j * 48 + 24)) × (r64 b (96 + j * 48 + 24) + r64 b (96 + j * 48 + 16) ≤ n)
  unfolding bad_section
  section_fits j raw e = ground (arith, aligned_bounds raw)

  same-read_section :
      (j raw : ℕ) → 240 ≤ n → j < 3 → read_section b n j raw ≡ read_section b' n j raw
  unfolding read_section
  same-read_section j raw h lt = elim (Bool-cases (bad_section b n j raw)) [
    | inl bad ↦ rw (← same-bad_section j raw h lt, bad)
    | inr good ↦
        let f = section_fits j raw good in
        let z = same-zero_bytes raw (r64 b (96 + j * 48 + 24) - raw) (omega arith) in
        rw (
          ← same-bad_section j raw h lt,
          ← same64 (96 + j * 48 + 24) (omega arith),
          ← same64 (96 + j * 48 + 16) (omega arith),
          z,
        )
  ]

  pub same-read_sections : (pa : ℕ) → 240 ≤ n → read_sections b n pa ≡ read_sections b' n pa
  unfolding read_sections
  same-read_sections pa h =
      let s0 : (raw : ℕ) → read_section b n 0 raw ≡ read_section b' n 0 raw =
        λ raw. same-read_section 0 raw h (omega arith) in
      let s1 : (raw : ℕ) → read_section b n 1 raw ≡ read_section b' n 1 raw =
        λ raw. same-read_section 1 raw h (omega arith) in
      let s2 : (raw : ℕ) → read_section b n 2 raw ≡ read_section b' n 2 raw =
        λ raw. same-read_section 2 raw h (omega arith) in
      simp (s0, s1, s2)

  -- The payloads of an accepted header lie below `n`.
  abbrev pub PayloadFits : ℕ → Type 0
  PayloadFits j = r64 b (96 + j * 48 + 24) + r64 b (96 + j * 48 + 16) ≤ n

  read_section_fits : (j raw : ℕ) {end : ℕ} → read_section b n j raw ≡ ok end → PayloadFits j
  unfolding read_section
  read_section_fits j raw e = (section_fits j raw (ground arith)).1

  pub read_sections_fit :
      (pa : ℕ) → read_sections b n pa ≡ ok tt → PayloadFits 0 × PayloadFits 1 × PayloadFits 2
  unfolding read_sections
  read_sections_fit pa e =
      let (raw0, e0, f0) = >>=-eq-ok (read_section b n 0 pa) _ e in
      let (raw1, e1, f1) = >>=-eq-ok (read_section b n 1 raw0) _ f0 in
      let (raw2, e2, f2) = >>=-eq-ok (read_section b n 2 raw1) _ f1 in
      (read_section_fits 0 pa e0, read_section_fits 1 raw0 e1, read_section_fits 2 raw1 e2)

  same-bad_reserved : (r : ℕ) → r + 64 ≤ n → bad_reserved b r ≡ bad_reserved b' r
  unfolding bad_reserved
  same-bad_reserved r h = rw (
    same32 (r + 40) (omega arith),
    same32 (r + 44) (omega arith),
    same64 (r + 48) (omega arith),
    same64 (r + 56) (omega arith),
  )

  module _ (l : Layout) (f : Fits l n) where
    -- A record whose text places pass the test has both texts below `n`.
    pub texts_fit :
        (cursor n_at nl co cl : ℕ)
        → bad_texts l cursor n_at nl co cl ≡ false
        → (l.ta + n_at + nl ≤ n) × (l.ta + co + cl ≤ n)
    unfolding bad_texts
    texts_fit cursor n_at nl co cl e = let g = f.texts_fit in let p = f.payload_fits in ground arith

    pub same-bad_symbol :
        (r cursor : ℕ) → r + 64 ≤ n → bad_symbol b l r cursor ≡ bad_symbol b' l r cursor
    unfolding bad_symbol
    same-bad_symbol r cursor h =
        let e0 = same32 r (omega arith) in
        let e1 = same32 (r + 4) (omega arith) in
        let e2 = same32 (r + 32) (omega arith) in
        let e3 = same32 (r + 36) (omega arith) in
        elim (Bool-cases
          (bad_texts l cursor (r32 b r) (r32 b (r + 4)) (r32 b (r + 32)) (r32 b (r + 36)))) [
            | inl bad ↦ rw (← e0, ← e1, ← e2, ← e3, bad)
            | inr good ↦
                let t = texts_fit cursor _ _ _ _ good in
                rw (
                  ← e0,
                  ← e1,
                  ← e2,
                  ← e3,
                  same-has_zero (l.ta + r32 b r) (r32 b (r + 4)) t.0,
                  same-has_zero (l.ta + r32 b (r + 32)) (r32 b (r + 36)) t.1,
                  same-bad_reserved r h,
                )
          ]
