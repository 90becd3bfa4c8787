-- ===== src/Outcome.antt =====
-- How the routines of bootstrap/quarantine/c report failure: `NtDiagnostic` of ntasm.h, with 0
-- returned, through the `fail` of object.c and the `failure` of object_link.c.
use nexoragenesis_toolchain.Base.{ℕ, ◌⊎◌, inl, inr, Bool, true, false, ◌≡◌, refl, String}

-- The members that these routines set; `memset` zeroes source_index, line and column.
pub record NtDiagnostic : Type 0 where
  pub code : ℕ
  pub offset : ℕ
  pub message : String

pub data Outcome {ℓ} (A : Type ℓ) : Type ℓ where
  ok : A → Outcome A
  err : NtDiagnostic → Outcome A

unfoldable pub fail : ℕ → String → NtDiagnostic
fail at text = record { code = 800; offset = at; message = text }

-- What comes after a routine that may fail.
infixl 5 ◌>>=◌
abbrev pub ◌>>=◌ {ℓ κ} :
    {A : Type ℓ} {B : Type κ} (first : Outcome A) (next : A → Outcome B) → Outcome B
err e >>= next = err e
ok a >>= next = next a

-- `if (test) return fail(e, at, text);`
abbrev pub fail_if : Bool → ℕ → String → Outcome (Unit {0})
fail_if true at text = err (fail at text)
fail_if false at text = ok tt

infixl 5 ◌>>◌
abbrev pub ◌>>◌ {ℓ} : {B : Type ℓ} (first : Outcome (Unit {0})) (next : Outcome B) → Outcome B
first >> next = first >>= λ u. next

pub Outcome-cases {ℓ} :
    {A : Type ℓ} (m : Outcome A) → ((a : A) × (m ≡ ok a)) ⊎ ((e : NtDiagnostic) × (m ≡ err e))
Outcome-cases (ok a) = inl (a, refl)
Outcome-cases (err e) = inr (e, refl)

pub >>-eq-ok {ℓ} :
    {B : Type ℓ} (first : Outcome (Unit {0})) (next : Outcome B) {value : B}
    → (first >> next) ≡ ok value
    → (first ≡ ok tt) × (next ≡ ok value)
>>-eq-ok (err why) next h = cc
>>-eq-ok (ok tt) next h = (refl, h)

pub fail_if-eq-ok : (b : Bool) (at : ℕ) (text : String) → fail_if b at text ≡ ok tt → b ≡ false
fail_if-eq-ok true at text h = cc
fail_if-eq-ok false at text h = refl

pub >>=-eq-ok {ℓ κ} :
    {A : Type ℓ} {B : Type κ} (first : Outcome A) (next : A → Outcome B) {value : B}
    → (first >>= next) ≡ ok value
    → (between : A) × (first ≡ ok between) × (next between ≡ ok value)
>>=-eq-ok (err why) next h = cc
>>=-eq-ok (ok between) next h = (between, refl, h)

-- Two chains are equal if they are equal up to where they fail.
pub >>=-cong {ℓ κ} :
    {A : Type ℓ} {B : Type κ} (m m' : Outcome A) (f f' : A → Outcome B)
    → m ≡ m'
    → ((a : A) → m ≡ ok a → f a ≡ f' a)
    → (m >>= f) ≡ (m' >>= f')
>>=-cong (ok a) m' f f' e h = rw (← e) (h a refl)
>>=-cong (err why) m' f f' e h = rw (← e) refl

pub ok-injective {ℓ} : {A : Type ℓ} (a b : A) → ok a ≡ ok b → a ≡ b
ok-injective a b h = cc
