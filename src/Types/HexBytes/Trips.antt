-- ===== src/Types/HexBytes/Trips.antt =====
-- What is written as hexadecimal is read back, and padding is undone by trimming.
use davinci_node.Common.{
  ℕ, zero, suc, ◌+◌, ◌-◌, ◌*◌, ◌/◌, ◌%◌, ◌<◌, ◌≤◌, ◌≡◌, refl, ap, ◌∙◌, none, some, [], ◌∷◌, ◌++◌,
  arith, leb, All, length, length-append, Bool-cases, inl, inr,
}
use davinci_node.Types.HexBytes.{
  Bytes, hex_digit, hex_encode, digit_value, hex_decode, strip_prefix, hex_string_to_hex_bytes,
  hex_string, marshal_json, before_quote, unmarshal_json, zeros, left_pad, left_trim,
}

digit_value-hex_digit : (n : ℕ) → n < 16 → digit_value (hex_digit n) ≡ some n
unfolding digit_value hex_digit
digit_value-hex_digit n h = ground arith

hex_decode-encode : (b : Bytes) → All (λ c. c < 256) b → hex_decode (hex_encode b) ≡ some b
unfolding hex_decode hex_encode
hex_decode-encode [] h = refl
hex_decode-encode (c ∷ cs) h =
    let whole : c / 16 * 16 + c % 16 ≡ c = omega arith in
    rw
      (
        hex_decode,
        digit_value-hex_digit (c / 16) (omega arith),
        digit_value-hex_digit (c % 16) (omega arith),
        hex_decode-encode cs h.1,
        whole,
      )
      refl

before_quote-append : (s : Bytes) → before_quote (s ++ b'"' ∷ []) ≡ some s
unfolding before_quote
before_quote-append [] = refl
before_quote-append (c ∷ []) = refl
before_quote-append (c ∷ d ∷ s) = rw (before_quote-append (d ∷ s)) refl

-- Bytes that are written as a string or as JSON are read back.
pub hex_bytes-read :
    (b : Bytes)
    → All (λ c. c < 256) b
    → (hex_string_to_hex_bytes (hex_string b) ≡ some b) × (unmarshal_json (marshal_json b) ≡ some b)
unfolding hex_string_to_hex_bytes hex_string unmarshal_json marshal_json
hex_bytes-read b h = (
  hex_decode-encode b h,
  ap (λ o. elim o [ none ↦ none | some s ↦ hex_decode (strip_prefix s) ])
        (before_quote-append (b'0' ∷ b'x' ∷ hex_encode b))
      ∙ hex_decode-encode b h,
)

left_trim-zeros : (n : ℕ) (b : Bytes) → left_trim (zeros n ++ b) ≡ left_trim b
unfolding left_trim zeros
left_trim-zeros zero b = refl
left_trim-zeros (suc n) b = left_trim-zeros n b

length-zeros : (n : ℕ) → length (zeros n) ≡ n
unfolding zeros
length-zeros zero = refl
length-zeros (suc n) = omega (arith, length-zeros n)

-- Padding on the left is undone by trimming there, and reaches the length that is asked for.
pub left_trim-left_pad :
    (n : ℕ) (b : Bytes) → (left_trim (left_pad n b) ≡ left_trim b) × (n ≤ length (left_pad n b))
unfolding left_pad
left_trim-left_pad n b = elim (Bool-cases (leb n (length b))) [
  | inl long ↦ rw (left_pad, long) (refl, ground (arith, long))
  | inr short ↦
      rw (left_pad, short)
        (
          left_trim-zeros (n - length b) b,
          ground
              (arith, short, length-append (zeros (n - length b)) b, length-zeros (n - length b)),
        )
]
