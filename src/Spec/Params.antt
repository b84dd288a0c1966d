-- ===== src/Spec/Params.antt =====
-- Sizes and namespaces (spec/params/params.go), and math/big's integers as the package takes them.
use davinci_node.Common.{ℕ, ◌+◌, ◌-◌, ◌^◌, Option, none, some, List, [], ◌∷◌, ltb, if◌then◌else◌}

abbrev pub fields_per_ballot : ℕ
fields_per_ballot = 8

abbrev pub max_uint64 : ℕ
max_uint64 = 2 ^ 64 - 1

abbrev pub state_key_process_id : ℕ
state_key_process_id = 0

abbrev pub state_key_census_origin : ℕ
state_key_census_origin = 6

abbrev pub state_key_ballot_mode : ℕ
state_key_ballot_mode = 2

abbrev pub state_key_encryption_key : ℕ
state_key_encryption_key = 3

abbrev pub state_key_results : ℕ
state_key_results = 4

abbrev pub config_max : ℕ
config_max = 2 ^ 4 - 1

abbrev pub vote_id_hash_bits : ℕ
vote_id_hash_bits = 63

abbrev pub vote_id_min : ℕ
vote_id_min = max_uint64 - 2 ^ vote_id_hash_bits + 1

abbrev pub vote_id_max : ℕ
vote_id_max = max_uint64

abbrev pub ballot_min : ℕ
ballot_min = config_max + 1

abbrev pub ballot_max : ℕ
ballot_max = vote_id_min - 1

abbrev pub voter_index_max : ℕ
voter_index_max = ballot_max - ballot_min

-- A *big.Int.
pub data BigInt : Type 0 where
  nil_int : BigInt
  negative : (n : ℕ) → BigInt
  natural : (n : ℕ) → BigInt

-- The values of inputs that are all in the field, or none.
unfoldable pub in_field : ℕ → List BigInt → Option (List ℕ)
in_field field [] = some []
in_field field (nil_int ∷ rest) = none
in_field field (negative n ∷ rest) = none
in_field field (natural n ∷ rest) =
    let others = in_field field rest in
    if ltb n field then elim others [ none ↦ none | some ns ↦ some (n ∷ ns) ] else none
