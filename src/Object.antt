-- ===== src/Object.antt =====
-- The NXO relocatable object of bootstrap/quarantine/c/object.h and object.c: the structures, C
-- strings, and `nt_object_validate`.
pub mod Text
pub mod Validate
pub mod Spec
pub mod Symbols
pub mod Relocs
pub mod Validity
pub mod Read
pub mod Write
use nexoragenesis_toolchain.Base.{
  ℕ, suc, zero, ◌<◌, Bool, true, false, List, [], ◌∷◌, Option, none, some, length, bit_and, ◌!=◌,
}
use nexoragenesis_toolchain.Base.Int.{ℤ}

-- A pointer with its count of elements. `null n` is a null pointer beside the count n; at `at xs`
-- the pointer has exactly the elements xs.
pub data Table {ℓ} (A : Type ℓ) : Type ℓ where
  null : ℕ → Table A
  at : List A → Table A

module _ {ℓ} {A : Type ℓ} where
  abbrev pub count : Table A → ℕ
  count (null n) = n
  count (at xs) = length xs

  -- What a loop below the count visits, once the null pointer with a count is refused.
  abbrev pub items : Table A → List A
  items (null n) = []
  items (at xs) = xs

  abbrev pub is_null : Table A → Bool
  is_null (null n) = true
  is_null (at xs) = false

-- `char *`: null, or the bytes of a text before its terminating 0.
abbrev pub CString : Type 0
CString = Option (List ℕ)

abbrev pub chars : CString → List ℕ
chars none = []
chars (some s) = s

-- `NtBuffer`, less its capacity, which nothing reads.
abbrev pub NtBuffer : Type 0
NtBuffer = Table ℕ

pub record NtObjectSymbol : Type 0 where
  pub name : CString
  pub contract : CString
  pub section : ℕ
  pub flags : ℕ
  pub offset : ℕ
  pub size : ℕ

pub record NtObjectReloc : Type 0 where
  pub section : ℕ
  pub kind : ℕ
  pub target : ℕ
  pub offset : ℕ
  pub addend : ℤ

-- `sections[3]` are the three buffers; `owned` is `_owned`.
pub record NtObject : Type 0 where
  pub target : ℕ
  pub entry_symbol : ℕ
  pub text : NtBuffer
  pub rdata : NtBuffer
  pub data_ : NtBuffer
  pub symbols : Table NtObjectSymbol
  pub relocations : Table NtObjectReloc
  pub owned : Bool

-- `o->sections[k]`
abbrev pub sections : NtObject → ℕ → NtBuffer
sections o zero = o.text
sections o (suc zero) = o.rdata
sections o (suc (suc k)) = o.data_

-- NT_OBJECT_EXPORT, NT_OBJECT_FUNCTION, NT_OBJECT_VARIABLE, NT_OBJECT_IMPORT
abbrev pub export_flag : ℕ
export_flag = 1

abbrev pub function_flag : ℕ
function_flag = 2

abbrev pub variable_flag : ℕ
variable_flag = 4

abbrev pub import_flag : ℕ
import_flag = 8

-- NT_OBJECT_REL32, NT_OBJECT_DIR64
abbrev pub rel32 : ℕ
rel32 = 1

abbrev pub dir64 : ℕ
dir64 = 2

-- `flags & flag`, as a condition.
abbrev pub has : ℕ → ℕ → Bool
has flags flag = bit_and flags flag != 0

-- MAX_FILE, MAX_SYMBOLS, MAX_RELOCS
abbrev pub max_file : ℕ
max_file = 67108864

abbrev pub max_symbols : ℕ
max_symbols = 65536

abbrev pub max_relocs : ℕ
max_relocs = 1048576

-- The object after `memset(o, 0, sizeof(*o))`, which is what `nt_object_free` leaves.
abbrev pub empty_object : NtObject
empty_object = record {
  target = 0;
  entry_symbol = 0;
  text = null 0;
  rdata = null 0;
  data_ = null 0;
  symbols = null 0;
  relocations = null 0;
  owned = false;
}

unfoldable pub free_object : NtObject → NtObject
free_object o = empty_object
