-- ===== src/Object/Write/Stored.antt =====
-- Stores of `nt_object_write` (bootstrap/quarantine/c/object.c) that do not overlap, and what is read after them.
use nexoragenesis_toolchain.Base.{
  ℕ, ◌%◌, ◌^◌, ◌≤◌, ◌<◌, ◌≡◌, ◌⊎◌, inl, inr, ◌∙◌, refl, List, [], ◌∷◌, length, arith, All,
}
use nexoragenesis_toolchain.Memory.{Mem, load, r32, r64}
use nexoragenesis_toolchain.Memory.Laws.{
  Agree, store_below, store_above, w32_below, w32_above, w64_below, w64_above, r32-w32, r64-w64,
  r32-cong, r64-cong, load-cong, load-store_self,
}
use nexoragenesis_toolchain.Object.Write.{Put, u32, u64, raw, run_put, run_puts}
use nexoragenesis_toolchain.Object.Write.Bounds.{put_end}

abbrev pub put_start : Put → ℕ
put_start (u32 i x) = i
put_start (u64 i x) = i
put_start (raw i bytes) = i

-- A store that leaves a range of bytes alone.
abbrev pub Avoids : ℕ → ℕ → Put → Type 0
Avoids lo hi p = (put_end p ≤ lo) ⊎ (hi ≤ put_start p)

run_put_outside :
    (m : Mem) (p : Put) (i : ℕ) → (put_end p ≤ i) ⊎ (i < put_start p) → run_put m p i ≡ m i
unfolding run_put
run_put_outside m (u32 at x) i (inl h) = w32_above m at x i h
run_put_outside m (u32 at x) i (inr h) = w32_below m at x i h
run_put_outside m (u64 at x) i (inl h) = w64_above m at x i h
run_put_outside m (u64 at x) i (inr h) = w64_below m at x i h
run_put_outside m (raw at bytes) i (inl h) = store_above m at bytes i h
run_put_outside m (raw at bytes) i (inr h) = store_below m at bytes i h

outside :
    (lo hi i : ℕ) (p : Put) → lo ≤ i → i < hi → Avoids lo hi p → (put_end p ≤ i) ⊎ (i < put_start p)
outside lo hi i p le lt (inl h) = inl (omega arith)
outside lo hi i p le lt (inr h) = inr (omega arith)

pub run_puts_avoid :
    (m : Mem) (ps : List Put) (lo hi : ℕ) → All (Avoids lo hi) ps → Agree (run_puts m ps) m lo hi
unfolding run_puts
run_puts_avoid m [] lo hi h i le lt = refl
run_puts_avoid m (p ∷ ps) lo hi h i le lt =
    run_puts_avoid (run_put m p) ps lo hi h.1 i le lt
    ∙ run_put_outside m p i (outside lo hi i p le lt h.0)

-- What is found where a store was made.
abbrev pub Found : Mem → Put → Type 0
Found m (u32 i x) = r32 m i ≡ x % 2 ^ 32
Found m (u64 i x) = r64 m i ≡ x % 2 ^ 64
Found m (raw i bytes) = load m i (length bytes) ≡ bytes

-- Stores none of which touches the bytes of one before.
abbrev pub Separate : List Put → Type 0
Separate [] = Unit
Separate (p ∷ ps) = All (Avoids (put_start p) (put_end p)) ps × Separate ps

Found-cong : (m m' : Mem) (p : Put) → Agree m m' (put_start p) (put_end p) → Found m' p → Found m p
Found-cong m m' (u32 i x) same h = r32-cong m m' i same ∙ h
Found-cong m m' (u64 i x) same h = r64-cong m m' i same ∙ h
Found-cong m m' (raw i bytes) same h = load-cong m m' i (length bytes) same ∙ h

run_put-Found : (m : Mem) (p : Put) → Found (run_put m p) p
unfolding run_put
run_put-Found m (u32 i x) = r32-w32 m i x
run_put-Found m (u64 i x) = r64-w64 m i x
run_put-Found m (raw i bytes) = load-store_self m i bytes

-- After stores that are separate, each is found.
pub run_puts-Found : (m : Mem) (ps : List Put) → Separate ps → All (Found (run_puts m ps)) ps
unfolding run_puts
run_puts-Found m [] s = tt
run_puts-Found m (p ∷ ps) s = (
  Found-cong (run_puts (run_put m p) ps) (run_put m p) p
      (run_puts_avoid (run_put m p) ps (put_start p) (put_end p) s.0) (run_put-Found m p),
  run_puts-Found (run_put m p) ps s.1,
)
