-- ===== src/Spec/Ballots/Fields.antt =====
-- The packed ballot mode can be read back.
use Prim.Native.Nat.{bit_or}
use davinci_node.Common.{
  ℕ, ◌+◌, ◌*◌, ◌/◌, ◌%◌, ◌^◌, ◌<◌, ◌≤◌, ◌≡◌, refl, ap, ◌∙◌, ◌↔◌, Bool, true, false, arith, ◌==◌,
  if◌then◌else◌,
}
use davinci_node.Word.Bits.{bit_or_above}
use davinci_node.Spec.Ballots.{BallotMode, packed, pack, pack_fields}

-- The values that a uint8 can hold, in the three fields of that type.
pub record HasBytes (bm : BallotMode) : Type 0 where
  pub fields_byte : bm.num_fields < 256
  pub group_byte : bm.group_size < 256
  pub cost_byte : bm.cost_exponent < 256

-- The ballot mode that the bits of a number stand for, each field in its place.
unfoldable pub unpack : ℕ → BallotMode
unpack n = record {
  num_fields = n % 2 ^ 8;
  group_size = n / 2 ^ 8 % 2 ^ 8;
  unique_values = n / 2 ^ 16 % 2 == 1;
  cost_exponent = n / 2 ^ 17 % 2 ^ 8;
  max_value = n / 2 ^ 25 % 2 ^ 48;
  min_value = n / 2 ^ 73 % 2 ^ 48;
  max_value_sum = n / 2 ^ 121 % 2 ^ 63;
  min_value_sum = n / 2 ^ 184 % 2 ^ 63;
}

abbrev bit_of : Bool → ℕ
bit_of true = 1
bit_of false = 0

bit_of-le : (b : Bool) → bit_of b ≤ 1
bit_of-le true = omega arith
bit_of-le false = omega arith

-- The sum that Pack computes when every field fits its place.
abbrev field_sum : BallotMode → ℕ
field_sum bm =
    bm.num_fields
    + bm.group_size * 2 ^ 8
    + bit_of bm.unique_values * 2 ^ 16
    + bm.cost_exponent * 2 ^ 17
    + bm.max_value * 2 ^ 25
    + bm.min_value * 2 ^ 73
    + bm.max_value_sum * 2 ^ 121
    + bm.min_value_sum * 2 ^ 184

-- One more field by Or, on a number that is known as a sum.
or_field : (k acc s x : ℕ) → acc ≡ s → s < 2 ^ k → bit_or acc (x * 2 ^ k) ≡ s + x * 2 ^ k
or_field k acc s x e fits = ap (λ a. bit_or a (x * 2 ^ k)) e ∙ bit_or_above k s x fits

or_flag :
    (b : Bool) (acc s : ℕ)
    → acc ≡ s
    → s < 2 ^ 16
    → (if b then bit_or acc (1 * 2 ^ 16) else acc) ≡ s + bit_of b * 2 ^ 16
or_flag true acc s e fits = or_field 16 acc s 1 e fits
or_flag false acc s e fits = omega (arith, e)

pack_fields-sum :
    (bm : BallotMode)
    → HasBytes bm
    → bm.max_value < 2 ^ 48
    → bm.min_value < 2 ^ 48
    → bm.max_value_sum < 2 ^ 63
    → pack_fields bm ≡ field_sum bm
unfolding pack_fields
pack_fields-sum bm h p q r =
    let s1 = bm.num_fields + bm.group_size * 2 ^ 8 in
    let s2 = s1 + bit_of bm.unique_values * 2 ^ 16 in
    let s3 = s2 + bm.cost_exponent * 2 ^ 17 in
    let s4 = s3 + bm.max_value * 2 ^ 25 in
    let s5 = s4 + bm.min_value * 2 ^ 73 in
    let s6 = s5 + bm.max_value_sum * 2 ^ 121 in
    let flag : bit_of bm.unique_values ≤ 1 = bit_of-le bm.unique_values in
    let groups = or_field 8 bm.num_fields bm.num_fields bm.group_size refl (omega arith) in
    let unique =
      or_flag bm.unique_values (bit_or bm.num_fields (bm.group_size * 2 ^ 8)) s1 groups
        (omega arith) in
    let cost = or_field 17 _ s2 bm.cost_exponent unique (omega arith) in
    let most = or_field 25 _ s3 bm.max_value cost (omega arith) in
    let least = or_field 73 _ s4 bm.min_value most (omega arith) in
    let most_sum = or_field 121 _ s5 bm.max_value_sum least (omega arith) in
    or_field 184 _ s6 bm.min_value_sum most_sum (omega arith)

bit_is_one : (b : Bool) → (bit_of b == 1) ≡ b
bit_is_one true = refl
bit_is_one false = refl

-- The sum gives the fields back.
unpack-sum :
    (bm : BallotMode)
    → HasBytes bm
    → bm.max_value < 2 ^ 48
    → bm.min_value < 2 ^ 48
    → bm.max_value_sum < 2 ^ 63
    → bm.min_value_sum < 2 ^ 63
    → unpack (field_sum bm) ≡ bm
unfolding unpack
unpack-sum bm h p q r t =
    let n = field_sum bm in
    let flag = bit_of-le bm.unique_values in
    let e1 : n % 2 ^ 8 ≡ bm.num_fields = omega arith in
    let e2 : n / 2 ^ 8 % 2 ^ 8 ≡ bm.group_size = omega arith in
    let e3 : n / 2 ^ 16 % 2 ≡ bit_of bm.unique_values = omega arith in
    let e4 : n / 2 ^ 17 % 2 ^ 8 ≡ bm.cost_exponent = omega arith in
    let e5 : n / 2 ^ 25 % 2 ^ 48 ≡ bm.max_value = omega arith in
    let e6 : n / 2 ^ 73 % 2 ^ 48 ≡ bm.min_value = omega arith in
    let e7 : n / 2 ^ 121 % 2 ^ 63 ≡ bm.max_value_sum = omega arith in
    let e8 : n / 2 ^ 184 % 2 ^ 63 ≡ bm.min_value_sum = omega arith in
    λ i. record {
      num_fields = e1 i;
      group_size = e2 i;
      unique_values = (ap (λ v. v == 1) e3 ∙ bit_is_one bm.unique_values) i;
      cost_exponent = e4 i;
      max_value = e5 i;
      min_value = e6 i;
      max_value_sum = e7 i;
      min_value_sum = e8 i;
    }

pack-packed :
    (bm : BallotMode)
    → bm.group_size ≤ bm.num_fields
    → bm.max_value < 2 ^ 48
    → bm.min_value < 2 ^ 48
    → bm.max_value_sum < 2 ^ 63
    → bm.min_value_sum < 2 ^ 63
    → pack bm ≡ packed (pack_fields bm)
unfolding pack
pack-packed bm g p q r t = ground arith

pack-fits :
    (bm : BallotMode) (n : ℕ)
    → pack bm ≡ packed n
    → (bm.group_size ≤ bm.num_fields)
      × (bm.max_value < 2 ^ 48)
      × (bm.min_value < 2 ^ 48)
      × (bm.max_value_sum < 2 ^ 63)
      × (bm.min_value_sum < 2 ^ 63)
unfolding pack
pack-fits bm n made = ground arith

-- Pack accepts a ballot mode exactly when the group size is within the fields, both values are below
-- 2^48 and both sums are below 2^63. What it returns is then below 2^247, and the ballot mode is what
-- its bits stand for.
pub unpack-pack :
    (bm : BallotMode)
    → HasBytes bm
    → (bm.group_size ≤ bm.num_fields)
        × (bm.max_value < 2 ^ 48)
        × (bm.min_value < 2 ^ 48)
        × (bm.max_value_sum < 2 ^ 63)
        × (bm.min_value_sum < 2 ^ 63)
      ↔ ((n : ℕ) × (pack bm ≡ packed n) × (n < 2 ^ 247) × (unpack n ≡ bm))
unpack-pack bm h = (
  λ fits.
      let total = pack_fields-sum bm h fits.1 fits.2 fits.3 in
      let flag = bit_of-le bm.unique_values in
      (
        field_sum bm,
        pack-packed bm fits.0 fits.1 fits.2 fits.3 fits.4 ∙ ap packed total,
        omega arith,
        unpack-sum bm h fits.1 fits.2 fits.3 fits.4,
      ),
  λ made. pack-fits bm made.0 made.1,
)
