-- ===== src/Word/Bytes.antt =====
-- binary.LittleEndian (intToBytes and bytesToInt of storage/vote_id_status.go) and
-- binary.BigEndian (StateKey.Bytes of types/state.go).
use native.Mathlib.Nat.{pow-suc}
use mathlib.Core.List.{foldl, foldl-append}
use davinci_node.Common.{
  ℕ, zero, suc, ◌+◌, ◌*◌, ◌/◌, ◌%◌, ◌^◌, ◌<◌, ◌≡◌, refl, ap, Option, none, some, List, [], ◌∷◌,
  ◌++◌, arith, ◌==◌, if◌then◌else◌, length, length-append,
}

-- The `k` low bytes of a number, the lowest first.
unfoldable pub le_bytes : ℕ → ℕ → List ℕ
le_bytes zero n = []
le_bytes (suc k) n = (n % 256) ∷ le_bytes k (n / 256)

unfoldable pub le_value : List ℕ → ℕ
le_value [] = 0
le_value (b ∷ bs) = b + 256 * le_value bs

unfoldable pub int_to_bytes : ℕ → List ℕ
unfolding le_bytes
int_to_bytes i = le_bytes 8 i

unfoldable pub bytes_to_int : List ℕ → Option ℕ
unfolding le_value
bytes_to_int b = if length b == 8 then some (le_value b) else none

-- The `k` low bytes of a number, the highest first.
unfoldable pub be_bytes : ℕ → ℕ → List ℕ
be_bytes zero n = []
be_bytes (suc k) n = be_bytes k (n / 256) ++ (n % 256) ∷ []

abbrev push_byte : ℕ → ℕ → ℕ
push_byte acc b = acc * 256 + b

be_value : List ℕ → ℕ
be_value = foldl push_byte 0

length-le_bytes : (k n : ℕ) → length (le_bytes k n) ≡ k
unfolding le_bytes
length-le_bytes zero n = refl
length-le_bytes (suc k) n = ap suc (length-le_bytes k (n / 256))

le_value-le_bytes : (k n : ℕ) → n < 256 ^ k → le_value (le_bytes k n) ≡ n
unfolding le_bytes le_value
le_value-le_bytes zero n h = omega arith
le_value-le_bytes (suc k) n h =
    omega (arith, le_value-le_bytes k (n / 256) (omega (arith, pow-suc 256 k)))

-- A status below 2 ^ 64, written by intToBytes, is read back by bytesToInt.
pub bytes_to_int-int_to_bytes : (i : ℕ) → i < 2 ^ 64 → bytes_to_int (int_to_bytes i) ≡ some i
unfolding bytes_to_int int_to_bytes
bytes_to_int-int_to_bytes i h = ground (arith, length-le_bytes 8 i, le_value-le_bytes 8 i)

pub length-be_bytes : (k n : ℕ) → length (be_bytes k n) ≡ k
unfolding be_bytes
length-be_bytes zero n = refl
length-be_bytes (suc k) n =
    omega
      (arith, length-be_bytes k (n / 256), length-append (be_bytes k (n / 256)) ((n % 256) ∷ []))

be_value-be_bytes : (k n : ℕ) → n < 256 ^ k → be_value (be_bytes k n) ≡ n
unfolding be_bytes be_value
be_value-be_bytes zero n h = omega arith
be_value-be_bytes (suc k) n h =
    rw foldl-append (omega (arith, be_value-be_bytes k (n / 256) (omega (arith, pow-suc 256 k))))

-- Different words have different bytes.
pub be_bytes_injective :
    (k a b : ℕ) → a < 256 ^ k → b < 256 ^ k → be_bytes k a ≡ be_bytes k b → a ≡ b
be_bytes_injective k a b ha hb e =
    cc (be_value-be_bytes k a ha, be_value-be_bytes k b hb, ap be_value e)
