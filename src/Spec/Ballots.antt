-- ===== src/Spec/Ballots.antt =====
-- BallotMode (spec/ballotmode.go). The numbers are of the source's widths: uint8 and uint64.
pub mod Fields
use Prim.Native.Nat.{bit_or}
use davinci_node.Common.{
  ℕ, ◌*◌, ◌^◌, ◌≡◌, Bool, true, false, Option, none, some, ltb, leb, if◌then◌else◌,
}
use davinci_node.Spec.Params.{fields_per_ballot}

pub record BallotMode : Type 0 where
  pub num_fields : ℕ
  pub group_size : ℕ
  pub unique_values : Bool
  pub cost_exponent : ℕ
  pub max_value : ℕ
  pub min_value : ℕ
  pub max_value_sum : ℕ
  pub min_value_sum : ℕ

pub data ModeError : Type 0 where
  group_size_exceeds max_value_exceeds min_value_exceeds : ModeError
  max_value_sum_exceeds min_value_sum_exceeds num_fields_exceeds : ModeError
  values_crossed value_sums_crossed : ModeError

pub data Packed : Type 0 where
  packed : (value : ℕ) → Packed
  refused : ModeError → Packed

-- The fields in their places.
unfoldable pub pack_fields : BallotMode → ℕ
pack_fields bm =
    let groups = bit_or bm.num_fields (bm.group_size * 2 ^ 8) in
    let unique = if bm.unique_values then bit_or groups (1 * 2 ^ 16) else groups in
    let cost = bit_or unique (bm.cost_exponent * 2 ^ 17) in
    let most = bit_or cost (bm.max_value * 2 ^ 25) in
    let least = bit_or most (bm.min_value * 2 ^ 73) in
    let most_sum = bit_or least (bm.max_value_sum * 2 ^ 121) in
    bit_or most_sum (bm.min_value_sum * 2 ^ 184)

-- Pack
unfoldable pub pack : BallotMode → Packed
unfolding pack_fields
pack bm =
    if ltb bm.num_fields bm.group_size
    then refused group_size_exceeds
    else if leb (2 ^ 48) bm.max_value
    then refused max_value_exceeds
    else if leb (2 ^ 48) bm.min_value
    then refused min_value_exceeds
    else if leb (2 ^ 63) bm.max_value_sum
    then refused max_value_sum_exceeds
    else if leb (2 ^ 63) bm.min_value_sum
    then refused min_value_sum_exceeds
    else packed (pack_fields bm)

-- Validate; none is no error.
unfoldable pub validate_mode : BallotMode → Option ModeError
validate_mode bm =
    if ltb fields_per_ballot bm.num_fields
    then some num_fields_exceeds
    else if ltb bm.num_fields bm.group_size
    then some group_size_exceeds
    else if ltb bm.max_value bm.min_value
    then some values_crossed
    else if ltb bm.max_value_sum bm.min_value_sum
    then some value_sums_crossed
    else none
