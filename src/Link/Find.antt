-- ===== src/Link/Find.antt =====
-- `find` of object_link.c: a binary search in the sorted symbols of an object.
use Prim.Native.Nat.{Ordering}
use nexoragenesis_toolchain.Base.{
  ℕ, zero, suc, ◌+◌, ◌-◌, ◌/◌, ◌≤◌, ◌<◌, ◌≡◌, ◌≢◌, ◌∙◌, ◌⊎◌, inl, inr, refl, ap, sym, subst, Bool,
  true, false, List, none, some, ltb, lt→ltb, if◌then◌else◌, length, get_elem?, get_elem?-lt,
  get_elem?-some, arith, Bool-cases, Option-cases,
}
use native.Mathlib.Decide.{ℕ_discrete, dec_lt}
use mathlib.Core.Option.{some-injective}
use nexoragenesis_toolchain.Object.{NtObjectSymbol, chars}
use nexoragenesis_toolchain.Object.Text.{strcmp, strcmp-eq, strcmp_refl, strcmp_trans, Before}

-- !strcmp(a, b)
unfoldable pub same_text : List ℕ → List ℕ → Bool
same_text a b = elim (strcmp a b) [ Ordering.eq ↦ true | _ ↦ false ]

-- strcmp(o->symbols[mid].name, name) < 0
unfoldable pub name_below : List NtObjectSymbol → ℕ → List ℕ → Bool
name_below symbols mid name = elim (get_elem? symbols mid) [
  | none ↦ false
  | some s ↦ elim (strcmp (chars s.name) name) [ Ordering.lt ↦ true | _ ↦ false ]
]

-- The loop; each round at least halves `hi - lo`, so `hi - lo` rounds are enough.
unfoldable pub find_loop : ℕ → List NtObjectSymbol → List ℕ → ℕ → ℕ → ℕ
find_loop zero symbols name lo hi = lo
find_loop (suc fuel) symbols name lo hi =
    let mid = lo + (hi - lo) / 2 in
    let right = find_loop fuel symbols name (mid + 1) hi in
    let left = find_loop fuel symbols name lo mid in
    if ltb lo hi then (if name_below symbols mid name then right else left) else lo

-- The one-based index of a name, or 0.
unfoldable pub find : List NtObjectSymbol → List ℕ → ℕ
unfolding find_loop same_text
find symbols name =
    let lo = find_loop (length symbols) symbols name 0 (length symbols) in
    elim (get_elem? symbols lo) [
      | none ↦ 0
      | some s ↦ if same_text (chars s.name) name then lo + 1 else 0
    ]

-- Any two symbols are in the order of their names.
abbrev pub IsSorted : List NtObjectSymbol → Type 0
IsSorted symbols =
    (i j : ℕ) (s t : NtObjectSymbol)
    → i < j
    → get_elem? symbols i ≡ some s
    → get_elem? symbols j ≡ some t
    → Before s.name t.name

-- Below `lo` every name comes before `name`; from `hi` on none does.
record Bracket (symbols : List NtObjectSymbol) (name : List ℕ) (lo hi : ℕ) : Type 0 where
  below :
      (i : ℕ) (s : NtObjectSymbol)
      → i < lo
      → get_elem? symbols i ≡ some s
      → strcmp (chars s.name) name ≡ Ordering.lt
  above :
      (i : ℕ) (s : NtObjectSymbol)
      → hi ≤ i
      → get_elem? symbols i ≡ some s
      → strcmp (chars s.name) name ≢ Ordering.lt

Ordering-cases : (o : Ordering) → (o ≡ Ordering.lt) ⊎ ((o ≡ Ordering.eq) ⊎ (o ≡ Ordering.gt))
Ordering-cases Ordering.lt = inl refl
Ordering-cases Ordering.eq = inr (inl refl)
Ordering-cases Ordering.gt = inr (inr refl)

same_text-eq : (a b : List ℕ) → strcmp a b ≡ Ordering.eq → same_text a b ≡ true
unfolding same_text
same_text-eq a b h = ground (arith, h)

pub same_text-true : (a b : List ℕ) → same_text a b ≡ true → a ≡ b
unfolding same_text
same_text-true a b h = strcmp-eq a b (ground arith)

same_text-gt : (a b : List ℕ) → strcmp a b ≡ Ordering.gt → same_text a b ≡ false
unfolding same_text
same_text-gt a b h = ground (arith, h)

ltb_irrefl : (a : ℕ) → ltb a a ≡ false
ltb_irrefl a = ground arith

-- The outcome of the test of the middle symbol.
name_below-true :
    (symbols : List NtObjectSymbol) (mid : ℕ) (name : List ℕ)
    → name_below symbols mid name ≡ true
    → (m : NtObjectSymbol) × (get_elem? symbols mid ≡ some m)
      × (strcmp (chars m.name) name ≡ Ordering.lt)
unfolding name_below
name_below-true symbols mid name e = ground arith

name_below-false :
    (symbols : List NtObjectSymbol) (mid : ℕ) (name : List ℕ)
    → mid < length symbols
    → name_below symbols mid name ≡ false
    → (m : NtObjectSymbol) × (get_elem? symbols mid ≡ some m)
      × (strcmp (chars m.name) name ≢ Ordering.lt)
unfolding name_below
name_below-false symbols mid name fit e =
    let (m, g) = get_elem?-some symbols mid fit in (m, g, ground arith)

module _ (symbols : List NtObjectSymbol) (name : List ℕ) (sorted : IsSorted symbols) where
  Bracket-right :
      (lo hi mid : ℕ)
      → Bracket symbols name lo hi
      → name_below symbols mid name ≡ true
      → Bracket symbols name (mid + 1) hi
  Bracket-right lo hi mid b e = record { below = left_of_mid; above = b.above }
    where
      left_of_mid :
          (i : ℕ) (s : NtObjectSymbol)
          → i < mid + 1
          → get_elem? symbols i ≡ some s
          → strcmp (chars s.name) name ≡ Ordering.lt
      left_of_mid i s lt g =
          let (m, gm, less) = name_below-true symbols mid name e in
          elim (ℕ_discrete i mid) [
            | yes same ↦
                let one : some m ≡ some s = sym gm ∙ ap (get_elem? symbols) (sym same) ∙ g in
                subst (λ (x : NtObjectSymbol). strcmp (chars x.name) name ≡ Ordering.lt)
                  (some-injective _ _ one) less
            | no differ ↦
                strcmp_trans (chars s.name) (chars m.name) name
                  (sorted i mid s m (omega arith) g gm) less
          ]

  Bracket-left :
      (lo hi mid : ℕ)
      → mid < length symbols
      → Bracket symbols name lo hi
      → name_below symbols mid name ≡ false
      → Bracket symbols name lo mid
  Bracket-left lo hi mid fit b e = record { below = b.below; above = right_of_mid }
    where
      right_of_mid :
          (i : ℕ) (s : NtObjectSymbol)
          → mid ≤ i
          → get_elem? symbols i ≡ some s
          → strcmp (chars s.name) name ≢ Ordering.lt
      right_of_mid i s le g less =
          let (m, gm, more) = name_below-false symbols mid name fit e in
          elim (ℕ_discrete i mid) [
            | yes same ↦
                let one : some s ≡ some m = sym g ∙ ap (get_elem? symbols) same ∙ gm in
                more (
                  subst (λ (x : NtObjectSymbol). strcmp (chars x.name) name ≡ Ordering.lt)
                    (some-injective _ _ one) less)
            | no differ ↦ more (
                strcmp_trans (chars m.name) (chars s.name) name
                  (sorted mid i m s (omega arith) gm g) less)
          ]

  -- The loop ends with an empty bracket, within the rounds given.
  loop-Bracket :
      (fuel lo hi : ℕ)
      → hi - lo ≤ fuel
      → lo ≤ hi
      → hi ≤ length symbols
      → Bracket symbols name lo hi
      → Bracket symbols name (find_loop fuel symbols name lo hi) (find_loop fuel symbols name lo hi)
  unfolding find_loop
  loop-Bracket zero lo hi f le fit b = let e : hi ≡ lo = omega arith in rw e at b
  loop-Bracket (suc fuel) lo hi f le fit b =
      let mid = lo + (hi - lo) / 2 in
      elim (dec_lt lo hi) [
        | no ge ↦ let e : hi ≡ lo = omega arith in rw e (rw (ltb_irrefl lo) (rw e at b))
        | yes lt ↦ elim (Bool-cases (name_below symbols mid name)) [
          | inl e ↦
              rw (lt→ltb _ _ lt, e)
                (loop-Bracket fuel (mid + 1) hi (omega arith) (omega arith) fit
                  (Bracket-right lo hi mid b e))
          | inr e ↦
              rw (lt→ltb _ _ lt, e)
                (loop-Bracket fuel lo mid (omega arith) (omega arith) (omega arith)
                  (Bracket-left lo hi mid (omega arith) b e))
        ]
      ]

  abbrev pub IsFound : ℕ → Type 0
  IsFound r =
      ((r ≡ 0)
        × ((k : ℕ) (s : NtObjectSymbol) → get_elem? symbols k ≡ some s → chars s.name ≢ name))
      ⊎ ((k : ℕ) × (s : NtObjectSymbol) × (r ≡ k + 1)
          × (get_elem? symbols k ≡ some s)
          × (chars s.name ≡ name))

  lt-ne : (s : NtObjectSymbol) → strcmp (chars s.name) name ≡ Ordering.lt → chars s.name ≢ name
  lt-ne s less same =
      let eq : strcmp (chars s.name) name ≡ Ordering.eq = rw same (strcmp_refl name) in cc

  whole : Bracket symbols name 0 (length symbols)
  whole = record {
    below = λ i s lt g. absurd (omega arith);
    above = λ i s le g less. absurd (omega (arith, get_elem?-lt symbols i g));
  }

  last : ℕ
  last = find_loop (length symbols) symbols name 0 (length symbols)

  last-Bracket : Bracket symbols name last last
  unfolding last
  last-Bracket =
      loop-Bracket (length symbols) 0 (length symbols) (omega arith) (omega arith) (omega arith)
        whole

  -- Nothing has the name if the symbol where the loop ends, if any, has another.
  absent :
      ((s : NtObjectSymbol) → get_elem? symbols last ≡ some s → chars s.name ≢ name)
      → (k : ℕ) (s : NtObjectSymbol) → get_elem? symbols k ≡ some s
      → chars s.name ≢ name
  absent other k s g same = elim (dec_lt k last) [
    | yes lt ↦ lt-ne s (last-Bracket.below k s lt g) same
    | no ge ↦
        let (t, gt) = get_elem?-some symbols last (omega (arith, get_elem?-lt symbols k g)) in
        elim (ℕ_discrete k last) [
          | yes here ↦ other s (sym (ap (get_elem? symbols) here) ∙ g) same
          | no past ↦
              let before = sorted last k t s (omega arith) gt g in
              last-Bracket.above last t (omega arith) gt (rw same at before)
        ]
  ]

  -- In a table sorted by name `find` is 0 exactly when no symbol has the name, and is otherwise one more than
  -- the index of the symbol that has it.
  pub find-IsFound : IsFound (find symbols name)
  unfolding find last
  find-IsFound = elim (Option-cases (get_elem? symbols last)) [
    | inl e ↦ inl (rw (e, find), absent (λ s g. ground (arith, e, g)))
    | inr (t, e) ↦ elim (Ordering-cases (strcmp (chars t.name) name)) [
      | inl lt ↦ absurd (last-Bracket.above last t (omega arith) e lt)
      | inr (inl eq) ↦
          inr (last, t, rw (e, same_text-eq _ _ eq, find), e, strcmp-eq (chars t.name) name eq)
      | inr (inr gt) ↦ inl (
        rw (e, same_text-gt _ _ gt, find),
        absent (λ s g same.
            let one : t ≡ s = some-injective _ _ (sym e ∙ g) in
            let eq : strcmp (chars t.name) name ≡ Ordering.eq = rw (one, same) (strcmp_refl name) in
            cc),
      )
    ]
  ]
