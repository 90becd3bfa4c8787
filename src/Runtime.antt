-- ===== src/Runtime.antt =====
-- The second Nova runtime, bootstrap/quarantine/c/nova/runtime_v2.c: generation-tagged handles for
-- buffers and files, slices that point to their parent, and a sticky error in the context.
-- `uint64_t` values that cannot wrap under the tests above them are written as plain sums.
pub mod Lookup
pub mod Files
pub mod Calls
pub mod Stale
pub mod Steps
pub mod Accounts
pub mod Released
pub mod Spans
pub mod Destroy
use nexoragenesis_toolchain.Base.{
  ℕ, zero, suc, ◌+◌, ◌-◌, ◌*◌, ◌/◌, ◌%◌, ◌^◌, Bool, true, false, ◌||◌, ◌&&◌, not, List, [], ◌∷◌,
  Option, none, some, ◌==◌, ◌!=◌, ltb, leb, if◌then◌else◌, length,
}
use nexoragenesis_toolchain.Memory.{Mem, store, load}

-- NV2_BOUNDS and so on.
abbrev pub nv2_bounds : ℕ
nv2_bounds = 4

abbrev pub nv2_runtime : ℕ
nv2_runtime = 6

abbrev pub nv2_lifetime : ℕ
nv2_lifetime = 7

abbrev pub nv2_io : ℕ
nv2_io = 8

abbrev pub nv2_readonly : ℕ
nv2_readonly = 9

abbrev pub nv2_argument : ℕ
nv2_argument = 10

abbrev pub buffer_max : ℕ
buffer_max = 65536

abbrev pub file_max : ℕ
file_max = 128

abbrev pub bytes_max : ℕ
bytes_max = 67108864

abbrev pub uint32_max : ℕ
uint32_max = 4294967295

-- A pointer is its address; 0 is the null pointer.
pub record Buffer : Type 0 where
  pub base : ℕ
  pub length_ : ℕ
  pub offset : ℕ
  pub generation : ℕ
  pub parent : ℕ
  pub live : Bool
  pub owned : Bool
  pub writable : Bool

pub record File : Type 0 where
  pub file : ℕ
  pub generation : ℕ
  pub writable : Bool

pub record State : Type 0 where
  pub buffers : ℕ → Buffer
  pub files : ℕ → File
  pub generation : ℕ
  pub allocated : ℕ
  pub next_buffer : ℕ

-- NovaContextV2 with the state of its runtime, and the memory that its pointers address.
pub record Context : Type 0 where
  pub error : ℕ
  pub error_source : ℕ
  pub error_offset : ℕ
  pub state : State
  pub memory : Mem

abbrev pub update {ℓ} : {A : Type ℓ} → (ℕ → A) → ℕ → A → ℕ → A
update f i v j = if j == i then v else f j

-- `error(c, code)`: the first error stays.
unfoldable pub raise : Context → ℕ → Context
raise c code = if c.error == 0 then record c { error = code } else c

-- `(generation << 32) | (slot + 1)`: the slot is below 2^32, so the halves share no bit.
unfoldable pub handle : ℕ → ℕ → ℕ
handle slot generation = generation * 2 ^ 32 + (slot + 1)

-- The slot of a handle that names a live buffer of its generation.
unfoldable pub find_buffer : State → ℕ → Option ℕ
find_buffer s id =
    let slot = id % 2 ^ 32 in
    if slot == 0 || ltb buffer_max slot
    then none
    else if not (s.buffers (slot - 1)).live || (s.buffers (slot - 1)).generation != id / 2 ^ 32
    then none
    else some (slot - 1)

-- `buffer(c, id)`: `none` is the null pointer, with the error raised.
unfoldable pub buffer : Context → ℕ → Option ℕ × Context
buffer c id = elim (find_buffer c.state id) [
  | none ↦ (none, raise c nv2_lifetime)
  | some slot ↦ (some slot, c)
]

-- One round of the loop of `resolve`: it ends with a pointer and a context, or goes on at a parent.
pub data Round : Type 0 where
  done : ℕ → Context → Round
  onward : ℕ → ℕ → Round

unfoldable pub resolve_round : Context → Buffer → ℕ → ℕ → Bool → Round
resolve_round c b i n write =
    if ltb b.length_ i || ltb (b.length_ - i) n
    then done 0 (raise c nv2_bounds)
    else if write && not b.writable
    then done 0 (raise c nv2_readonly)
    else if b.parent == 0
    then done (if b.base == 0 then 0 else b.base + i) c
    else if ltb (2 ^ 64 - 1 - b.offset) i
    then done 0 (raise c nv2_bounds)
    else onward b.parent (i + b.offset)

-- The loop over `depth`; the rounds left are the first argument.
unfoldable pub resolve_loop : ℕ → Context → ℕ → ℕ → ℕ → Bool → ℕ × Context
resolve_loop zero c id i n write = (0, raise c nv2_lifetime)
resolve_loop (suc left) c id i n write = elim (find_buffer c.state id) [
  | none ↦ (0, raise c nv2_lifetime)
  | some slot ↦ elim (resolve_round c (c.state.buffers slot) i n write) [
    | done p c' ↦ (p, c')
    | onward parent i' ↦ resolve_loop left c parent i' n write
  ]
]

unfoldable pub resolve : Context → ℕ → ℕ → ℕ → Bool → ℕ × Context
resolve c id i n write = resolve_loop buffer_max c id i n write

-- The first slot that is not live, from `next_buffer` round the table; the rounds left come first.
unfoldable pub find_free : ℕ → (ℕ → Buffer) → ℕ → Option ℕ
find_free zero buffers i = none
find_free (suc left) buffers i = elim (buffers (i % buffer_max)).live [
  | false ↦ some (i % buffer_max)
  | true ↦ find_free left buffers (i + 1)
]

unfoldable pub put_buffer : State → ℕ → Buffer → State
put_buffer s i value = record s {
  buffers = update s.buffers i (record value { live = true; generation = s.generation + 1 });
  generation = s.generation + 1;
  next_buffer = (i + 1) % buffer_max;
}

-- `add_buffer`: the handle of the new buffer, or 0.
unfoldable pub add_buffer : Context → Buffer → ℕ × Context
add_buffer c value =
    if c.state.generation == uint32_max
    then (0, raise c nv2_runtime)
    else elim (find_free buffer_max c.state.buffers c.state.next_buffer) [
      | none ↦ (0, raise c nv2_runtime)
      | some i ↦
          (handle i (c.state.generation + 1), record c { state = put_buffer c.state i value })
    ]

-- A compound literal with the members that it does not name zeroed.
abbrev pub new_buffer : ℕ → ℕ → ℕ → ℕ → Bool → Bool → Buffer
new_buffer base n offset parent owned writable = record {
  base = base;
  length_ = n;
  offset = offset;
  generation = 0;
  parent = parent;
  live = false;
  owned = owned;
  writable = writable;
}

unfoldable pub borrow : Context → ℕ → ℕ → Bool → ℕ × Context
borrow c p n writable =
    if c.error != 0
    then (0, c)
    else if p == 0 && n != 0
    then (0, raise c nv2_argument)
    else if ltb bytes_max n
    then (0, raise c nv2_bounds)
    else add_buffer c (new_buffer p n 0 0 false writable)

abbrev pub fill_zero : Mem → ℕ → ℕ → Mem
fill_zero m p n a = if leb p a && ltb a (p + n) then 0 else m a

-- After `add_buffer`, `allocate_v2` counts the bytes if there is a handle, and else frees them.
unfoldable pub count_allocation : ℕ → ℕ × Context → ℕ × Context
count_allocation n (h, c) =
    if h == 0
    then (h, c)
    else (h, record c { state = record (c.state) { allocated = c.state.allocated + n } })

-- `p` is what `calloc` returns: zeroed bytes, or null.
unfoldable pub allocate : ℕ → Context → ℕ → ℕ × Context
allocate p c n =
    if c.error != 0
    then (0, c)
    else if ltb bytes_max n || ltb (4 * bytes_max - n) c.state.allocated
    then (0, raise c nv2_bounds)
    else if p == 0
    then (0, raise c nv2_runtime)
    else count_allocation n
        (add_buffer (record c { memory = fill_zero c.memory p n }) (new_buffer p n 0 0 true true))

unfoldable pub drop_buffer : State → ℕ → State
drop_buffer s slot = record s {
  buffers = update s.buffers slot (record (s.buffers slot) { live = false; base = 0 });
  allocated =
      if (s.buffers slot).owned
      then (2 ^ 64 + s.allocated - (s.buffers slot).length_) % 2 ^ 64
      else s.allocated;
}

-- `release_v2`, which returns 0 in every case.
unfoldable pub release : Context → ℕ → ℕ → Context
release c h n = if c.error != 0 then c else elim (find_buffer c.state h) [
  | none ↦ raise c nv2_lifetime
  | some slot ↦
      if n != (c.state.buffers slot).length_
      then raise c nv2_bounds
      else record c { state = drop_buffer c.state slot }
]

-- `resolve_v2`: bit 63 of `spec` asks to write.
unfoldable pub resolve_call : Context → ℕ → ℕ → ℕ → ℕ × Context
resolve_call c h i spec =
    if c.error != 0 then (0, c) else resolve c h i (spec % 2 ^ 63) (spec / 2 ^ 63 != 0)

-- After the check of the bytes: the slice itself, unless they cannot be reached.
unfoldable pub add_slice : ℕ → ℕ → ℕ → Bool → ℕ × Context → ℕ × Context
add_slice h i n writable (p, c) =
    if p == 0 && n != 0 then (0, c) else add_buffer c (new_buffer 0 n i h false writable)

unfoldable pub slice : Context → ℕ → ℕ → ℕ → ℕ × Context
slice c h i n = if c.error != 0 then (0, c) else elim (find_buffer c.state h) [
  | none ↦ (0, raise c nv2_lifetime)
  | some slot ↦
      if ltb (c.state.buffers slot).length_ i || ltb ((c.state.buffers slot).length_ - i) n
      then (0, raise c nv2_bounds)
      else add_slice h i n (c.state.buffers slot).writable (resolve c h i n false)
]

unfoldable pub length_of : ℕ → ℕ × Context → ℕ × Context
length_of n (p, c) = if p == 0 && n != 0 then (0, c) else (n, c)

-- `length_v2`
unfoldable pub buffer_length : Context → ℕ → ℕ × Context
buffer_length c h = if c.error != 0 then (0, c) else elim (find_buffer c.state h) [
  | none ↦ (0, raise c nv2_lifetime)
  | some slot ↦ length_of (c.state.buffers slot).length_ (resolve c h 0 0 false)
]

-- What `literal_v2` does to the buffer of a fresh handle: the bytes, and whether it may be written.
unfoldable pub set_literal : ℕ → ℕ → Bool → ℕ × Context → ℕ × Context
set_literal p n writable (h, c) = if h == 0 then (h, c) else elim (find_buffer c.state h) [
  | none ↦ (h, raise c nv2_lifetime)
  | some slot ↦
      let b = c.state.buffers slot in
      (
        h,
        record c {
          memory = store c.memory b.base (load c.memory p n);
          state = record (c.state) {
            buffers = update c.state.buffers slot (record b { writable = writable });
          };
        },
      )
]

-- `literal_v2`: the bytes at `source`, copied to a new buffer.
unfoldable pub literal : ℕ → Context → ℕ → ℕ → ℕ → ℕ × Context
literal p c source n writable =
    if c.error != 0
    then (0, c)
    else if source == 0 && n != 0
    then (0, raise c nv2_argument)
    else set_literal source n (writable != 0) (allocate p c n)

-- The copy, in the direction that suits an overlap.
unfoldable pub copy_down : ℕ → Mem → ℕ → ℕ → Mem
copy_down zero m d s = m
copy_down (suc i) m d s = copy_down i (update m (d + i) (m (s + i))) d s

unfoldable pub copy_up : ℕ → Mem → ℕ → ℕ → Mem
copy_up zero m d s = m
copy_up (suc left) m d s = copy_up left (update m d (m s)) (d + 1) (s + 1)

unfoldable pub move_bytes : Mem → ℕ → ℕ → ℕ → Mem
unfolding copy_down copy_up
move_bytes m d s n = if ltb s d && ltb (d - s) n then copy_down n m d s else copy_up n m d s

unfoldable pub copy_source : ℕ → ℕ → ℕ × Context → ℕ × Context
unfolding move_bytes
copy_source d n (s, c) =
    if c.error != 0 then (0, c) else (n, record c { memory = move_bytes c.memory d s n })

unfoldable pub copy_destination : ℕ → ℕ → ℕ × Context → ℕ × Context
copy_destination source n (d, c) =
    if c.error != 0 then (0, c) else copy_source d n (resolve c source 0 n false)

-- `copy_bytes_v2`
unfoldable pub copy_bytes : Context → ℕ → ℕ → ℕ → ℕ × Context
copy_bytes c destination source n =
    if c.error != 0 then (0, c) else copy_destination source n (resolve c destination 0 n true)

unfoldable pub error_clear : Context → Context
error_clear c = record c { error = 0; error_source = 0; error_offset = 0 }

abbrev pub empty_buffer : Buffer
empty_buffer = new_buffer 0 0 0 0 false false

-- nova_context_init_v2: what `*c` becomes, unless one of the two allocations fails, whose outcomes are
-- the arguments. The version, the sizes and the pointers to the functions have no counterpart here.
unfoldable pub context_init : Bool → Bool → Mem → Option Context
context_init runtime_alloc state_alloc memory =
    if not runtime_alloc || not state_alloc
    then none
    else some (record {
      error = 0;
      error_source = 0;
      error_offset = 0;
      state = record {
        buffers = λ i. empty_buffer;
        files = λ i. record { file = 0; generation = 0; writable = false };
        generation = 0;
        allocated = 0;
        next_buffer = 0;
      };
      memory = memory;
    })
