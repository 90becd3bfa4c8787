-- ===== src/Examples/Handles.antt =====
-- A runtime with one buffer of 16 bytes, and the theorems at it.
use nexoragenesis_toolchain.Base.{
  ℕ, ◌↔◌, ◌≡◌, refl, true, false, List, [], ◌∷◌, none, some, ◌==◌, if◌then◌else◌, arith,
}
use nexoragenesis_toolchain.Memory.{zeroed}
use nexoragenesis_toolchain.Runtime.{
  Buffer, Context, buffer_max, find_buffer, release, resolve, context_init, empty_buffer,
  resolve_loop, resolve_round,
}
use nexoragenesis_toolchain.Runtime.Files.{find_file, close_file}
use nexoragenesis_toolchain.Runtime.Files.Closed.{closed_forever}
use nexoragenesis_toolchain.Runtime.Calls.{
  Call, allocates, releases, lengths, clears, opens, closes, run,
}
use nexoragenesis_toolchain.Runtime.Accounts.{IsSound}
use nexoragenesis_toolchain.Runtime.Accounts.Kept.{run-IsSound}
use nexoragenesis_toolchain.Runtime.Released.{released_forever}
use nexoragenesis_toolchain.Runtime.Destroy.{destroy, freed, IsIn, OwnsAt, destroy_iff}
use nexoragenesis_toolchain.Runtime.Spans.{resolve-IsWithin, IsWithin}

abbrev empty_slot : Buffer
empty_slot = record {
  base = 0;
  length_ = 0;
  offset = 0;
  generation = 0;
  parent = 0;
  live = false;
  owned = false;
  writable = false;
}

abbrev one_buffer : Context
one_buffer = record {
  error = 0;
  error_source = 0;
  error_offset = 0;
  state = record {
    buffers = λ i.
        if i == 0
        then (record empty_slot {
          base = 4096;
          length_ = 16;
          generation = 1;
          live = true;
          owned = true;
          writable = true;
        })
        else empty_slot;
    files = λ i. record { file = 0; generation = 0; writable = false };
    generation = 1;
    allocated = 16;
    next_buffer = 1;
  };
  memory = zeroed;
}

-- The handle of the buffer.
abbrev its_handle : ℕ
its_handle = 4294967297

its_handle_found : find_buffer one_buffer.state its_handle ≡ some 0
unfolding find_buffer
its_handle_found = refl

-- Another buffer comes and goes, the length of the old one is asked for, the error is cleared.
abbrev later_calls : List Call
later_calls = allocates 8192 16 ∷ lengths 4294967297 ∷ clears ∷ releases 8589934594 16 ∷ []

released_forever_example :
    find_buffer (run (release one_buffer its_handle 16) later_calls).state its_handle ≡ none
released_forever_example =
    released_forever one_buffer its_handle 16 0 later_calls refl its_handle_found refl (omega arith)

four_bytes : (resolve one_buffer its_handle 12 4 true).0 ≡ 4108
unfolding resolve resolve_loop resolve_round find_buffer
four_bytes = refl

resolve-IsWithin_example :
    IsWithin one_buffer.state (resolve one_buffer its_handle 12 4 true).0 4 true
resolve-IsWithin_example =
    resolve-IsWithin one_buffer its_handle 12 4 true (λ z. ground (arith, four_bytes, z))

abbrev fresh : Context
fresh = record {
  error = 0;
  error_source = 0;
  error_offset = 0;
  state = record {
    buffers = λ i. empty_buffer;
    files = λ i. record { file = 0; generation = 0; writable = false };
    generation = 0;
    allocated = 0;
    next_buffer = 0;
  };
  memory = zeroed;
}

fresh_ok : context_init true true zeroed ≡ some fresh
unfolding context_init
fresh_ok = refl

run-IsSound_example : IsSound (run fresh (allocates 4096 16 ∷ releases 4294967297 16 ∷ [])).state
run-IsSound_example =
    run-IsSound true true zeroed fresh (allocates 4096 16 ∷ releases 4294967297 16 ∷ []) fresh_ok

-- One file, open for reading in the second slot.
abbrev one_file : Context
one_file = record fresh {
  state = record (fresh.state) {
    files = λ i. record { file = if i == 1 then 8192 else 0; generation = 5; writable = false };
    generation = 5;
  };
}

file_found : find_file one_file.state 21474836482 ≡ some 1
unfolding find_file
file_found = refl

abbrev calls_after : List Call
calls_after =
    clears ∷ opens true (λ name writable. 4096) 21474836482 3 true ∷ closes false 21474836482 ∷ []

closed_forever_example :
    find_file (run (close_file true one_file 21474836482) calls_after).state 21474836482 ≡ none
closed_forever_example =
    closed_forever true one_file 21474836482 1 calls_after refl file_found (omega arith)

-- The first slots of the table.
first_freed : freed 4 one_buffer.state.buffers 0 ≡ 4096 ∷ []
unfolding freed
first_freed = refl

destroy_iff_example :
    IsIn 4096 (destroy (λ file. false) one_buffer).buffers
    ↔ OwnsAt buffer_max one_buffer.state.buffers 0 4096
destroy_iff_example = destroy_iff (λ file. false) one_buffer 4096
