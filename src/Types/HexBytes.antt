-- ===== src/Types/HexBytes.antt =====
-- HexBytes (types/hexbytes.go) with encoding/hex as it uses it. A byte is a number below 256; none is an
-- error.
pub mod Trips
use davinci_node.Common.{
  ℕ, zero, suc, ◌+◌, ◌-◌, ◌*◌, ◌/◌, ◌%◌, ◌≡◌, Bool, true, false, ◌&&◌, ◌||◌, Option, none, some,
  List, [], ◌∷◌, ◌++◌, ltb, leb, ◌==◌, length, if◌then◌else◌,
}

abbrev pub Bytes : Type 0
Bytes = List ℕ

-- The lower-case digit of hex.Encode.
unfoldable pub hex_digit : ℕ → ℕ
hex_digit n = if ltb n 10 then b'0' + n else b'a' + (n - 10)

-- hex.EncodeToString
unfoldable pub hex_encode : Bytes → Bytes
hex_encode [] = []
hex_encode (b ∷ bs) = hex_digit (b / 16) ∷ hex_digit (b % 16) ∷ hex_encode bs

-- The value of a digit of either case.
unfoldable pub digit_value : ℕ → Option ℕ
digit_value c =
    if leb b'0' c && leb c b'9'
    then some (c - b'0')
    else if leb b'a' c && leb c b'f'
    then some (c - b'a' + 10)
    else if leb b'A' c && leb c b'F'
    then some (c - b'A' + 10)
    else none

-- hex.Decode and hex.DecodeString
unfoldable pub hex_decode : Bytes → Option Bytes
hex_decode [] = some []
hex_decode (c ∷ []) = none
hex_decode (c ∷ d ∷ cs) =
    let rest = hex_decode cs in
    elim (digit_value c) [
      | none ↦ none
      | some high ↦ elim (digit_value d) [
        | none ↦ none
        | some low ↦ elim rest [ none ↦ none | some bs ↦ some ((high * 16 + low) ∷ bs) ]
      ]
    ]

-- The text without a leading 0x or 0X.
unfoldable pub strip_prefix : Bytes → Bytes
strip_prefix [] = []
strip_prefix (c ∷ []) = c ∷ []
strip_prefix (c ∷ d ∷ cs) = if c == b'0' && (d == b'x' || d == b'X') then cs else c ∷ d ∷ cs

-- HexStringToHexBytes
unfoldable pub hex_string_to_hex_bytes : Bytes → Option Bytes
unfolding strip_prefix hex_decode
hex_string_to_hex_bytes s = hex_decode (strip_prefix s)

-- String
unfoldable pub hex_string : Bytes → Bytes
unfolding hex_encode
hex_string b = b'0' ∷ b'x' ∷ hex_encode b

-- MarshalJSON
unfoldable pub marshal_json : Bytes → Bytes
unfolding hex_encode
marshal_json b = b'"' ∷ b'0' ∷ b'x' ∷ (hex_encode b ++ b'"' ∷ [])

-- All but the last element, if that is a quote.
unfoldable pub before_quote : Bytes → Option Bytes
before_quote [] = none
before_quote (c ∷ []) = if c == b'"' then some [] else none
before_quote (c ∷ d ∷ cs) =
    let rest = before_quote (d ∷ cs) in elim rest [ none ↦ none | some bs ↦ some (c ∷ bs) ]

-- UnmarshalJSON
unfoldable pub unmarshal_json : Bytes → Option Bytes
unfolding before_quote strip_prefix hex_decode
unmarshal_json [] = none
unmarshal_json (c ∷ cs) =
    if c == b'"'
    then elim (before_quote cs) [ none ↦ none | some s ↦ hex_decode (strip_prefix s) ]
    else none

unfoldable pub zeros : ℕ → Bytes
zeros zero = []
zeros (suc n) = 0 ∷ zeros n

-- LeftPad
unfoldable pub left_pad : ℕ → Bytes → Bytes
unfolding zeros
left_pad n b = if leb n (length b) then b else zeros (n - length b) ++ b

-- LeftTrim
unfoldable pub left_trim : Bytes → Bytes
left_trim [] = []
left_trim (c ∷ cs) = let rest = left_trim cs in if c == 0 then rest else c ∷ cs

-- RightTrim
unfoldable pub right_trim : Bytes → Bytes
right_trim [] = []
right_trim (c ∷ cs) =
    let rest = right_trim cs in
    elim rest [ [] ↦ if c == 0 then [] else c ∷ [] | d ∷ ds ↦ c ∷ d ∷ ds ]

-- Equal
unfoldable pub equal_bytes : Bytes → Bytes → Bool
equal_bytes [] [] = true
equal_bytes [] (d ∷ ds) = false
equal_bytes (c ∷ cs) [] = false
equal_bytes (c ∷ cs) (d ∷ ds) = (c == d) && equal_bytes cs ds
