-- ===== src/PeInspect/Fuel.antt =====
-- The rounds of the loop over the relocation blocks of bootstrap/quarantine/c/pe.c.
use nexoragenesis_toolchain.Base.{
  ℕ, zero, suc, ◌+◌, ◌≤◌, ◌≡◌, refl, false, not, ltb, arith, Bool-cases, inl, inr, List, Option,
  some,
}
use nexoragenesis_toolchain.Outcome.{>>=-cong}
use nexoragenesis_toolchain.Memory.{Mem}
use nexoragenesis_toolchain.PeInspect.{Section, r32, within, bad_block, scan_blocks}
use nexoragenesis_toolchain.PeInspect.Cong.{bad_if-cong}
use nexoragenesis_toolchain.PeInspect.Local.{bad_block-le}

-- Any two numbers of rounds that are not below the bytes left give the same result: the loop has ended
-- by its own test. `base_relocations` gives it as many rounds as there are bytes.
pub scan_blocks_enough :
    (f g : ℕ) (b : Mem) (ss : List Section) (at reloc_size consumed : ℕ) (previous : Option ℕ)
    (relocations : ℕ)
    → reloc_size ≤ consumed + f
    → reloc_size ≤ consumed + g
    → scan_blocks f b ss at reloc_size consumed previous relocations
      ≡ scan_blocks g b ss at reloc_size consumed previous relocations
unfolding scan_blocks
scan_blocks_enough zero zero b ss at reloc_size consumed previous relocations p q = refl
scan_blocks_enough zero (suc g) b ss at reloc_size consumed previous relocations p q =
    let done : ltb consumed reloc_size ≡ false = ground arith in rw done
scan_blocks_enough (suc f) zero b ss at reloc_size consumed previous relocations p q =
    let done : ltb consumed reloc_size ≡ false = ground arith in rw done
scan_blocks_enough (suc f) (suc g) b ss at reloc_size consumed previous relocations p q =
    elim (Bool-cases (ltb consumed reloc_size)) [
      | inr done ↦ rw done
      | inl more ↦
          let page = r32 b (at + consumed) in
          let block = r32 b (at + consumed + 4) in
          rw more (
            bad_if-cong (not (within consumed 8 reloc_size)) _ (at + consumed) _ _ _ refl (λ room.
              bad_if-cong (bad_block reloc_size consumed previous page block) _ (at + consumed) _ _
                _ refl
                (λ good.
                  let inside = bad_block-le reloc_size consumed previous page block good in
                  >>=-cong _ _ _ _ refl (λ relocations' e.
                    scan_blocks_enough f g b ss at reloc_size (consumed + block) (some page)
                      relocations' (omega arith) (omega arith)))))
    ]
