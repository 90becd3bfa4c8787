-- ===== src/PeInspect/Cong.antt =====
-- The words that the inspector of bootstrap/quarantine/c/pe.c reads, in two buffers with the same bytes.
use nexoragenesis_toolchain.Base.{ℕ, ◌+◌, ◌≤◌, ◌≡◌, refl, Bool, true, false, arith, String}
use nexoragenesis_toolchain.Memory.{Mem}
use nexoragenesis_toolchain.Memory.Laws.{Agree}
use nexoragenesis_toolchain.Outcome.{Outcome, ◌>>◌}
use nexoragenesis_toolchain.PeInspect.{r16, r32, r64, bad_if, section_at}

-- A test that reads the same leads on alike.
pub bad_if-cong {ℓ} :
    {B : Type ℓ} (t t' : Bool) (at : ℕ) (message : String) (k k' : Outcome B)
    → t ≡ t'
    → (t ≡ false → k ≡ k')
    → (bad_if t at message >> k) ≡ (bad_if t' at message >> k')
bad_if-cong true t' at message k k' e h = rw (← e) refl
bad_if-cong false t' at message k k' e h = rw (← e) (h refl)

module _ (b b' : Mem) (n : ℕ) (same : Agree b b' 0 n) where
  pub same16 : (at : ℕ) → at + 2 ≤ n → r16 b at ≡ r16 b' at
  unfolding r16
  same16 at h =
      omega (arith, same at (omega arith) (omega arith), same (at + 1) (omega arith) (omega arith))

  pub same32 : (at : ℕ) → at + 4 ≤ n → r32 b at ≡ r32 b' at
  unfolding r32
  same32 at h = omega (arith, same16 at (omega arith), same16 (at + 2) (omega arith))

  pub same64 : (at : ℕ) → at + 8 ≤ n → r64 b at ≡ r64 b' at
  unfolding r64
  same64 at h = omega (arith, same32 at (omega arith), same32 (at + 4) (omega arith))

  pub same-section_at : (h : ℕ) → h + 40 ≤ n → section_at b h ≡ section_at b' h
  unfolding section_at
  same-section_at h le = rw (
    same32 (h + 12) (omega arith),
    same32 (h + 8) (omega arith),
    same32 (h + 20) (omega arith),
    same32 (h + 16) (omega arith),
    same32 (h + 36) (omega arith),
  )
