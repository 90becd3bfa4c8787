-- ===== src/Lib.antt =====
-- The C toolchain of Nexora Genesis: relocatable objects, their linker, the image layout, the x64
-- encoder, and the runtime of compiled Nova programs. Paths are from the repository's root.
--
-- A compiler makes an NXO object (bootstrap/quarantine/c/object.h); `nt_object_write` and
-- `nt_object_read` (object.c) move it to and from bytes; `nt_object_link` (object_link.c) joins up to 64
-- of them; `nt_object_materialize` (object_materialize.c) resolves the relocations of a linked object
-- with the arithmetic of pe_layout.h and leaves the sections of an image. Each of these calls
-- `nt_object_validate`. `nt_make_pe` (ntasm.c) writes the sections as a PE image, and `nt_pe_inspect`
-- (pe.c) checks such an image. The encoder (x64.c) makes the bytes of instructions, and
-- `nt_x64_effects` says what they read and write. The runtime (nova/runtime_v2.c) gives programs
-- handles of buffers. One of the compilers takes NTASM; the lexer of its frontend (frontend.c) makes the
-- tokens, one for each call of `next`.
--
-- The files, with the code that each is about:
--   Base         numbers, lists, integers: shared names, no code
--   Memory       the byte helpers of object.c: r32, r64, w32, w64, aligned, span, zero_bytes
--   Outcome      NtDiagnostic of ntasm.h, with `fail` and `failure`
--   Object       NtObject and its parts; Text (text_length), Validate (nt_object_validate), Read
--                (nt_object_read), Write (nt_object_write); Spec has the well-formed objects
--   PeLayout     pe_layout.h, function by function
--   Materialize  nt_object_materialize; `clone` and nt_artifact_free; Values about what it computes
--   Link         nt_object_link; Link/Sort its qsort calls, Link/Find its `find`
--   X64          x64.h and x64.c: X64 has the helpers, X64/Modrm `modrm`, X64/Moves, Arithmetic, Control,
--                Bits and System the groups of `variable`, X64/Encode nt_x64_encode, X64/Effects
--                nt_x64_effects; X64/Length has the lengths of the instructions, group by group
--   PeInspect    pe.c, nt_pe_inspect: Local about what it reads, Tiles and Image about what it accepts,
--                Fuel about its loop
--   PeWriter     nt_make_pe of ntasm.c: Made and Planned about its plans, Stores and Puts about its stores,
--                Pages, Blocks and Relocations about the relocation table, Headers, Stages, Sites and
--                Accepted about its images under nt_pe_inspect
--   Lexer        `next` of frontend.c: Text, Literals and Tokens have its parts, Loops, Fuel and Places are
--                about its loops and positions, Progress, Stream, Digits and Numbers about what it makes
--   Runtime      runtime_v2.c: Files the calls on files, Calls the calls in any order, Steps what they keep,
--                Accounts the generations and the bytes counted, Destroy the end of a context
--   Examples     runs at concrete inputs
--
-- A pointer with its count is a `Table`: null, or a list. Memory is a function from addresses to bytes.
-- Each call of malloc or calloc is a question to an argument, `alloc`, that answers whether it
-- succeeds, or the address that it returns. The diagnostics, `o` and `e`, and the bytes `b` of a read are taken not to be null.
-- What stdio answers to a call of the runtime is an argument too, and so is `answer`, which the range
-- test of the instruction `test` gives where C leaves its shift undefined.
-- A C integer is a natural number, with its wrap-around written where a test does not exclude it.
--
-- Loops over a count are recursion on the list. Fuel: `find_loop` has as many rounds as the table has
-- symbols, and each round shortens the interval; `resolve_loop` has the 65536 rounds of the code;
-- `halvings` has 32, for an unsigned; `scan_blocks` has one for each byte of the table; `reloc_size` and
-- `block_puts` have one for each site, and each round takes one at least. The loops of `next` have one for
-- each byte of the source.
--
-- Not modelled: frontend.c behind its lexer (parser, macros, checks), codegen.c, object_build.c,
-- conformance.c and nova.c (compilers), the compiler driver of ntasm.c, runtime.c, which version 2
-- replaces, and the command lines and firmware hosts, which are input and output. `qsort` is a sort; C leaves open the
-- order of equal elements, which the code refuses afterwards.
pub mod Base
pub mod Memory
pub mod Outcome
pub mod Object
pub mod PeLayout
pub mod Materialize
pub mod Link
pub mod X64
pub mod PeInspect
pub mod PeWriter
pub mod Lexer
pub mod Runtime
pub mod Examples
