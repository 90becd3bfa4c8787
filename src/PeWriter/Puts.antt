-- ===== src/PeWriter/Puts.antt =====
-- What is read after the stores of `nt_make_pe` of bootstrap/quarantine/c/ntasm.c, with the words of pe.c.
use nexoragenesis_toolchain.Base.{
  ℕ, ◌+◌, ◌^◌, ◌≤◌, ◌<◌, ◌≡◌, ◌∙◌, refl, ap, List, [], ◌∷◌, ◌++◌, arith, All,
}
use nexoragenesis_toolchain.Memory.{Mem, store, le_bytes, w32, w64}
use nexoragenesis_toolchain.Memory.Laws.{
  store_in, store_below, store_above, w32_below, w32_above, w64_below, w64_above, r32-w32,
}
use nexoragenesis_toolchain.Memory as Words
use nexoragenesis_toolchain.Object.Write.{Put, u32, u64, raw, run_put, run_puts}
use nexoragenesis_toolchain.Object.Write.Bounds.{InBlock}
use nexoragenesis_toolchain.Object.Write.Stored.{put_start}
use nexoragenesis_toolchain.PeInspect.{r16, r32}
use nexoragenesis_toolchain.PeWriter.{put16}

-- A store that leaves the bytes below `lo` alone.
abbrev pub From : ℕ → Put → Type 0
From lo p = lo ≤ put_start p

run_put_below : (m : Mem) (p : Put) (lo i : ℕ) → From lo p → i < lo → run_put m p i ≡ m i
unfolding run_put
run_put_below m (u32 at x) lo i h lt = w32_below m at x i (omega arith)
run_put_below m (u64 at x) lo i h lt = w64_below m at x i (omega arith)
run_put_below m (raw at bytes) lo i h lt = store_below m at bytes i (omega arith)

pub run_puts_below :
    (m : Mem) (ps : List Put) (lo i : ℕ) → All (From lo) ps → i < lo → run_puts m ps i ≡ m i
unfolding run_puts
run_puts_below m [] lo i h lt = refl
run_puts_below m (p ∷ ps) lo i h lt =
    run_puts_below (run_put m p) ps lo i h.1 lt ∙ run_put_below m p lo i h.0 lt

run_put_above : (m : Mem) (p : Put) (hi i : ℕ) → InBlock hi p → hi ≤ i → run_put m p i ≡ m i
unfolding run_put
run_put_above m (u32 at x) hi i h le = w32_above m at x i (omega arith)
run_put_above m (u64 at x) hi i h le = w64_above m at x i (omega arith)
run_put_above m (raw at bytes) hi i h le = store_above m at bytes i (omega arith)

pub run_puts_above :
    (m : Mem) (ps : List Put) (hi i : ℕ) → All (InBlock hi) ps → hi ≤ i → run_puts m ps i ≡ m i
unfolding run_puts
run_puts_above m [] hi i h le = refl
run_puts_above m (p ∷ ps) hi i h le =
    run_puts_above (run_put m p) ps hi i h.1 le ∙ run_put_above m p hi i h.0 le

pub run_puts-append :
    (m : Mem) (ps qs : List Put) → run_puts m (ps ++ qs) ≡ run_puts (run_puts m ps) qs
unfolding run_puts
run_puts-append m [] qs = refl
run_puts-append m (p ∷ ps) qs = run_puts-append (run_put m p) ps qs

r32-same : (m : Mem) (at : ℕ) → r32 m at ≡ Words.r32 m at
unfolding r32 r16 Words.r32
r32-same m at = let e : m (at + 2 + 1) ≡ m (at + 3) = ap m (omega arith) in omega (arith, e)

-- What `u32` puts, r32 of pe.c finds.
pub r32-u32 : (m : Mem) (at x : ℕ) → x < 2 ^ 32 → r32 (run_put m (u32 at x)) at ≡ x
unfolding run_put
r32-u32 m at x lt = omega (arith, r32-same (w32 m at x) at, r32-w32 m at x)

-- What `put16` puts, r16 finds.
pub r16-put16 : (m : Mem) (at x : ℕ) → x < 2 ^ 16 → r16 (run_put m (put16 at x)) at ≡ x
unfolding run_put r16 le_bytes
r16-put16 m at x lt =
    let first = store_in m at (le_bytes 2 x) 0 (omega arith) in
    let second = store_in m at (le_bytes 2 x) 1 (omega arith) in
    let zeroth : store m at (le_bytes 2 x) at ≡ store m at (le_bytes 2 x) (at + 0) =
      ap (store m at (le_bytes 2 x)) (omega arith) in
    omega arith
