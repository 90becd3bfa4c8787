-- ===== src/PeLayout/Value.antt =====
-- The values that relocations store.
use nexoragenesis_toolchain.Base.{ℕ, ◌+◌, ◌-◌, ◌^◌, ◌<◌, ◌≡◌, ◌↔◌, some, arith, ltb, if◌then◌else◌}
use nexoragenesis_toolchain.Base.Int.{ℤ, pos, negsuc, pos_part, ◌+ℤ◌, IsI64}
use nexoragenesis_toolchain.PeLayout.{relocation_value, image_base}

-- A 32-bit word read as a signed displacement, which is how the processor reads it.
abbrev pub sign_extend : ℕ → ℤ
sign_extend v = if ltb v (2 ^ 31) then pos v else negsuc (2 ^ 32 - 1 - v)

-- A REL32 relocation stores v exactly when v has 32 bits, S + A does not pass the largest int64_t, and
-- v, read as a signed displacement, leads from the end of the four bytes at P to S + A; for an addend
-- that is an int64_t and addresses below 2^63.
pub rel32_iff :
    (source target : ℕ) (addend : ℤ) (v : ℕ)
    → IsI64 addend
    → source + 4 < 2 ^ 63
    → target < 2 ^ 63
    → (relocation_value 1 source target addend ≡ some v) ↔ (
        (v < 2 ^ 32)
        × (pos_part addend + target < 2 ^ 63)
        × (pos (source + 4) +ℤ sign_extend v ≡ pos target +ℤ addend))
unfolding relocation_value ◌+ℤ◌
rel32_iff source target (pos k) v i a b = (λ h. ground arith, λ h. ground arith)
rel32_iff source target (negsuc k) v i a b = (λ h. ground arith, λ h. ground arith)

-- A DIR64 relocation stores v, in 64 bits, exactly when v is the image base plus S + A, for an
-- addend that is an int64_t and addresses below 2^63.
pub dir64_iff :
    (source target : ℕ) (addend : ℤ) (v : ℕ)
    → IsI64 addend
    → source + 4 < 2 ^ 63
    → target < 2 ^ 63
    → (relocation_value 2 source target addend ≡ some v)
      ↔ ((v < 2 ^ 64) × (pos v ≡ pos (image_base + target) +ℤ addend))
unfolding relocation_value ◌+ℤ◌
dir64_iff source target addend v i a b = (λ h. ground arith, λ h. ground arith)
