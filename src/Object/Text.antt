-- ===== src/Object/Text.antt =====
-- C strings: `text_length` of object.c and the `strcmp` that it and object_link.c call.
use Prim.Native.Nat.{compare, Ordering}
use nexoragenesis_toolchain.Base.{
  ℕ, ◌+◌, ◌≤◌, ◌<◌, ◌≡◌, refl, List, [], ◌∷◌, Option, none, some, ◌==◌, leb, if◌then◌else◌, length,
  All, arith, ◌↔◌,
}
use nexoragenesis_toolchain.Object.{CString, chars}

-- The loop of `text_length` from `n`; the end of the list is the terminating 0.
unfoldable pub text_loop : List ℕ → ℕ → ℕ → Option ℕ
text_loop [] maximum n = if leb n maximum then (if n == 0 then none else some n) else none
text_loop (c ∷ s) maximum n =
    let rest = text_loop s maximum (n + 1) in
    if leb n maximum
    then (if c == 0 then (if n == 0 then none else some n) else if leb 128 c then none else rest)
    else none

-- `none` is the return value 0, and `some n` stores n through `length` and returns 1.
unfoldable pub text_length : CString → ℕ → Option ℕ
unfolding text_loop
text_length none maximum = none
text_length (some s) maximum = text_loop s maximum 0

-- The bytes of a C string: none of them is the terminating 0.
abbrev pub IsText : List ℕ → Type 0
IsText = All (λ c. 0 < c)

-- What `text_length` accepts: 1 to `maximum` bytes, ASCII.
abbrev pub IsAscii : ℕ → CString → Type 0
IsAscii maximum none = ⊥
IsAscii maximum (some s) = (0 < length s) × (length s ≤ maximum) × All (λ c. c < 128) s

text_loop_iff :
    (s : List ℕ) (maximum n l : ℕ)
    → IsText s
    → (text_loop s maximum n ≡ some l)
      ↔ ((l ≡ n + length s) × (0 < l) × (l ≤ maximum) × All (λ c. c < 128) s)
unfolding text_loop
text_loop_iff [] maximum n l t = (λ h. ground arith, λ h. ground arith)
text_loop_iff (c ∷ s) maximum n l t = (
  λ h. let ih = (text_loop_iff s maximum (n + 1) l t.1).0 in ground arith,
  λ h. let ih = (text_loop_iff s maximum (n + 1) l t.1).1 in ground arith,
)

-- The unsigned order of `strcmp`.
unfoldable pub strcmp : List ℕ → List ℕ → Ordering
strcmp [] [] = Ordering.eq
strcmp [] (y ∷ ys) = Ordering.lt
strcmp (x ∷ xs) [] = Ordering.gt
strcmp (x ∷ xs) (y ∷ ys) = elim (compare x y) [
  | Ordering.lt ↦ Ordering.lt
  | Ordering.eq ↦ strcmp xs ys
  | Ordering.gt ↦ Ordering.gt
]

-- strcmp(a, b) < 0
abbrev pub Before : CString → CString → Type 0
Before a b = strcmp (chars a) (chars b) ≡ Ordering.lt

pub strcmp-eq : (xs ys : List ℕ) → strcmp xs ys ≡ Ordering.eq → xs ≡ ys
unfolding strcmp
strcmp-eq [] [] h = refl
strcmp-eq [] (y ∷ ys) h = cc
strcmp-eq (x ∷ xs) [] h = cc
strcmp-eq (x ∷ xs) (y ∷ ys) h = let ih = strcmp-eq xs ys in ground arith

pub strcmp_refl : (xs : List ℕ) → strcmp xs xs ≡ Ordering.eq
unfolding strcmp
strcmp_refl [] = refl
strcmp_refl (x ∷ xs) = ground (arith, strcmp_refl xs)

pub strcmp_trans :
    (xs ys zs : List ℕ)
    → strcmp xs ys ≡ Ordering.lt
    → strcmp ys zs ≡ Ordering.lt
    → strcmp xs zs ≡ Ordering.lt
unfolding strcmp
strcmp_trans [] [] zs h k = cc
strcmp_trans [] (y ∷ ys) [] h k = cc
strcmp_trans [] (y ∷ ys) (z ∷ zs) h k = refl
strcmp_trans (x ∷ xs) [] zs h k = cc
strcmp_trans (x ∷ xs) (y ∷ ys) [] h k = cc
strcmp_trans (x ∷ xs) (y ∷ ys) (z ∷ zs) h k = let ih = strcmp_trans xs ys zs in ground arith

pub strcmp_swap : (xs ys : List ℕ) → strcmp xs ys ≡ Ordering.gt → strcmp ys xs ≡ Ordering.lt
unfolding strcmp
strcmp_swap [] [] h = cc
strcmp_swap [] (y ∷ ys) h = cc
strcmp_swap (x ∷ xs) [] h = refl
strcmp_swap (x ∷ xs) (y ∷ ys) h = let ih = strcmp_swap xs ys in ground arith

-- `text_length` accepts exactly the ASCII texts of 1 to `maximum` bytes, and stores their length.
pub text_length_iff :
    (s : List ℕ) (maximum l : ℕ)
    → IsText s
    → (text_length (some s) maximum ≡ some l) ↔ ((l ≡ length s) × IsAscii maximum (some s))
unfolding text_length
text_length_iff s maximum l t = (
  λ h.
      let f = (text_loop_iff s maximum 0 l t).0 h in (omega arith, (omega arith, omega arith, f.3)),
  λ h. (text_loop_iff s maximum 0 l t).1 (omega arith, omega arith, omega arith, h.1.2),
)
