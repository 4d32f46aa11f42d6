-- ===== src/Base/Word.antt =====
-- Casts to the fixed widths and shifts; arrays of bytes as functions of the index.
use Prim.Native.Nat.{ℕ, ◌-◌, ◌*◌, ◌/◌, ◌%◌, ◌^◌}
use rust_gb_emulator.Base.Tests.{◌==◌, ltb, if◌then◌else◌}

abbrev pub u8 : ℕ → ℕ
u8 n = n % 2 ^ 8

abbrev pub u16 : ℕ → ℕ
u16 n = n % 2 ^ 16

infixl 75 ◌<<<◌ ◌>>>◌
abbrev pub ◌<<<◌ : ℕ → ℕ → ℕ
x <<< k = x * 2 ^ k

abbrev pub ◌>>>◌ : ℕ → ℕ → ℕ
x >>> k = x / 2 ^ k

-- `!x` of a byte.
abbrev pub inverted : ℕ → ℕ
inverted x = 255 - x

-- An array of bytes by its index. Accesses that may be past its end go through `index_at` and
-- `store_at`; any other index is taken to be within the array's length.
abbrev pub Bytes : Type 0
Bytes = ℕ → ℕ

-- What stands for the panic of a read past the end of an array: no byte.
abbrev pub out_of_bounds : ℕ
out_of_bounds = 0x100

-- A read of an array of that size.
abbrev pub index_at : ℕ → Bytes → ℕ → ℕ
index_at size bytes i = if ltb i size then bytes i else out_of_bounds

abbrev pub set_at : Bytes → ℕ → ℕ → Bytes
set_at bytes i v j = if j == i then v else bytes j

abbrev pub filled : ℕ → Bytes
filled v i = v

-- A write of an array of that size; past its end nothing of the array is a byte any more.
abbrev pub store_at : ℕ → Bytes → ℕ → ℕ → Bytes
store_at size bytes i v = if ltb i size then set_at bytes i v else filled out_of_bounds
