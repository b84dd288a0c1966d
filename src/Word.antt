-- ===== src/Word.antt =====
-- Go's `int` on a 64-bit machine: a number stands for its bit pattern, so that additions wrap. Also
-- the byte encodings of encoding/binary that the storage uses.
pub mod Bytes
pub mod Bits
use davinci_node.Common.{ℕ, ◌+◌, ◌-◌, ◌%◌, ◌^◌, Bool, List, leb, ltb, length}

abbrev pub int_mod : ℕ
int_mod = 2 ^ 64

abbrev pub add_int : ℕ → ℕ → ℕ
add_int a b = (a + b) % int_mod

abbrev pub sub_int : ℕ → ℕ → ℕ
sub_int a b = (a + (int_mod - b % int_mod)) % int_mod

abbrev pub neg_int : ℕ → ℕ
neg_int a = sub_int 0 a

-- `a < 0`: the sign bit is set.
abbrev pub is_neg : ℕ → Bool
is_neg a = leb (2 ^ 63) a

abbrev pub int_of_length {ℓ} : {A : Type ℓ} → List A → ℕ
int_of_length xs = length xs % int_mod

-- `a < b` on ints: the patterns shifted by half the range.
abbrev pub lt_int : ℕ → ℕ → Bool
lt_int a b = ltb ((a + 2 ^ 63) % int_mod) ((b + 2 ^ 63) % int_mod)
