-- ===== src/Runtime/Destroy.antt =====
-- `nova_context_destroy_v2` of bootstrap/quarantine/c/nova/runtime_v2.c: what it hands to `free` and to
-- `fclose`. The context has a state; `memset` leaves nothing of it.
use nexoragenesis_toolchain.Base.{
  ℕ, zero, suc, ◌+◌, ◌≤◌, ◌<◌, ◌≡◌, ◌↔◌, ◌⊎◌, inl, inr, refl, Bool, true, false, ◌&&◌, ◌||◌, not,
  List, [], ◌∷◌, ◌!=◌, if◌then◌else◌, ◌==◌, ◌∙◌, ap, subst, arith, Bool-cases,
}
use nexoragenesis_toolchain.Runtime.{Buffer, File, Context, buffer_max, file_max}

-- The buffers from slot i on whose memory is freed, `left` slots; the addresses in their order.
unfoldable pub freed : ℕ → (ℕ → Buffer) → ℕ → List ℕ
freed zero buffers i = []
freed (suc left) buffers i =
    let rest = freed left buffers (i + 1) in
    if (buffers i).live && (buffers i).owned then (buffers i).base ∷ rest else rest

-- The files from slot i on that are closed.
unfoldable pub closed_files : ℕ → (ℕ → File) → ℕ → List ℕ
closed_files zero files i = []
closed_files (suc left) files i =
    let rest = closed_files left files (i + 1) in
    if (files i).file != 0 then (files i).file ∷ rest else rest

-- Whether `fclose` fails for one of them.
unfoldable pub any_failed : (ℕ → Bool) → List ℕ → Bool
any_failed fclose [] = false
any_failed fclose (f ∷ fs) = fclose f || any_failed fclose fs

-- What the call returns, and what it has freed and closed_files of the state.
pub record Destroyed : Type 0 where
  pub result : Bool
  pub buffers : List ℕ
  pub files : List ℕ

unfoldable pub destroy : (ℕ → Bool) → Context → Destroyed
destroy fclose c =
    let files = closed_files file_max c.state.files 0 in
    record {
      result = not (any_failed fclose files);
      buffers = freed buffer_max c.state.buffers 0;
      files = files;
    }

-- An element of a list.
abbrev pub IsIn : ℕ → List ℕ → Type 0
IsIn x [] = ⊥
IsIn x (y ∷ ys) = (x ≡ y) ⊎ IsIn x ys

-- A slot from i on, of `left` slots, with a live buffer whose memory the runtime owns.
pub record OwnsAt (left : ℕ) (buffers : ℕ → Buffer) (i x : ℕ) : Type 0 where
  pub slot : ℕ
  pub from : i ≤ slot
  pub below : slot < i + left
  pub live : (buffers slot).live ≡ true
  pub owned : (buffers slot).owned ≡ true
  pub base : x ≡ (buffers slot).base

OwnsAt-up :
    (left : ℕ) (buffers : ℕ → Buffer) (i x : ℕ)
    → OwnsAt left buffers (i + 1) x
    → OwnsAt (suc left) buffers i x
OwnsAt-up left buffers i x h =
    let from = h.from in
    let below = h.below in
    record {
      slot = h.slot;
      from = omega arith;
      below = omega arith;
      live = h.live;
      owned = h.owned;
      base = h.base;
    }

freed-OwnsAt :
    (left : ℕ) (buffers : ℕ → Buffer) (i x : ℕ)
    → IsIn x (freed left buffers i)
    → OwnsAt left buffers i x
unfolding freed
freed-OwnsAt zero buffers i x h = absurd h
freed-OwnsAt (suc left) buffers i x h =
    by_first left buffers i x ((buffers i).live && (buffers i).owned) refl h
      (freed-OwnsAt left buffers (i + 1) x)
  where
    by_first :
        (left : ℕ) (buffers : ℕ → Buffer) (i x : ℕ) (b : Bool)
        → ((buffers i).live && (buffers i).owned) ≡ b
        → IsIn x (
            if b then (buffers i).base ∷ freed left buffers (i + 1) else freed left buffers (i + 1))
        → (IsIn x (freed left buffers (i + 1)) → OwnsAt left buffers (i + 1) x)
        → OwnsAt (suc left) buffers i x
    by_first left buffers i x true e (inl same) rest = record {
      slot = i;
      from = omega arith;
      below = omega arith;
      live = ground arith;
      owned = ground arith;
      base = same;
    }
    by_first left buffers i x true e (inr later) rest = OwnsAt-up left buffers i x (rest later)
    by_first left buffers i x false e later rest = OwnsAt-up left buffers i x (rest later)

OwnsAt-freed :
    (left : ℕ) (buffers : ℕ → Buffer) (i x : ℕ)
    → OwnsAt left buffers i x
    → IsIn x (freed left buffers i)
unfolding freed
OwnsAt-freed zero buffers i x h = absurd (let from = h.from in let below = h.below in omega arith)
OwnsAt-freed (suc left) buffers i x h =
    let from = h.from in
    let below = h.below in
    let live = h.live in
    let owned = h.owned in
    elim (Bool-cases (h.slot == i)) [
      | inl here ↦
          let same : h.slot ≡ i = ground arith in
          let kept : ((buffers i).live && (buffers i).owned) ≡ true =
            subst (λ j. ((buffers j).live && (buffers j).owned) ≡ true) same (ground arith) in
          rw (kept, freed) (inl (h.base ∙ ap (λ j. (buffers j).base) same))
      | inr there ↦
          let rest = OwnsAt-freed left buffers (i + 1) x (record {
            slot = h.slot;
            from = ground arith;
            below = omega arith;
            live = h.live;
            owned = h.owned;
            base = h.base;
          }) in
          elim (Bool-cases ((buffers i).live && (buffers i).owned)) [
            | inl e ↦ rw (e, freed) (inr rest)
            | inr e ↦ rw (e, freed) rest
          ]
    ]

-- `nova_context_destroy_v2` frees exactly the memory of the live buffers that the runtime owns: an address
-- is freed if and only if it is the base of one of these.
pub destroy_iff :
    (fclose : ℕ → Bool) (c : Context) (x : ℕ)
    → IsIn x (destroy fclose c).buffers ↔ OwnsAt buffer_max c.state.buffers 0 x
unfolding destroy
destroy_iff fclose c x =
    (freed-OwnsAt buffer_max c.state.buffers 0 x, OwnsAt-freed buffer_max c.state.buffers 0 x)
