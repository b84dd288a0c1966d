-- ===== src/Spec/Keys.antt =====
-- The keys of the state (spec/ballotindex.go, spec/voteid.go, spec/hash/voteid.go, types/state.go). The
-- Poseidon hash and the order of the field are parameters.
pub mod Namespaces
use Prim.Native.Nat.{bit_and}
use davinci_node.Common.{
  ℕ, ◌+◌, ◌-◌, ◌*◌, ◌^◌, ◌≡◌, Bool, true, false, ◌&&◌, Option, none, some, List, [], ◌∷◌, ltb, leb,
  if◌then◌else◌,
}
use davinci_node.Spec.Params.{
  ballot_min, ballot_max, vote_id_min, vote_id_max, vote_id_hash_bits, voter_index_max, max_uint64,
  BigInt, nil_int, negative, natural, in_field,
}

-- BallotIndex
unfoldable pub ballot_index : ℕ → Option ℕ
ballot_index voter = if ltb voter_index_max voter then none else some (ballot_min + voter)

-- TruncateToLowerBits
unfoldable pub truncate_to_lower_bits : ℕ → ℕ → ℕ
truncate_to_lower_bits input bits = bit_and input (1 * 2 ^ bits - 1)

module _ (field : ℕ) (poseidon : List ℕ → Option ℕ) where
  -- hash.VoteID
  unfoldable pub hash_vote_id : BigInt → BigInt → BigInt → Option ℕ
  unfolding in_field truncate_to_lower_bits
  hash_vote_id process_id address k = elim (in_field field (process_id ∷ address ∷ k ∷ [])) [
    | none ↦ none
    | some inputs ↦ elim (poseidon inputs) [
      | none ↦ none
      | some h ↦ some (vote_id_min + truncate_to_lower_bits h vote_id_hash_bits)
    ]
  ]

  -- VoteID
  unfoldable pub vote_id_of : BigInt → BigInt → BigInt → Option ℕ
  unfolding hash_vote_id
  vote_id_of process_id address k = elim (hash_vote_id process_id address k) [
    | none ↦ none
    | some id ↦ if leb id max_uint64 then some id else none
  ]

-- VoteID.Valid and BallotIndex.Valid
unfoldable pub is_vote_id : ℕ → Bool
is_vote_id v = leb vote_id_min v && leb v vote_id_max

unfoldable pub is_ballot_index : ℕ → Bool
is_ballot_index b = leb ballot_min b && leb b ballot_max

-- bigIntToStateKey
unfoldable pub big_int_to_state_key : BigInt → Option ℕ
big_int_to_state_key nil_int = none
big_int_to_state_key (negative n) = none
big_int_to_state_key (natural n) = if leb n max_uint64 then some n else none

-- BigIntToVoteID and BigIntToBallotIndex
unfoldable pub big_int_to_vote_id : BigInt → Option ℕ
unfolding big_int_to_state_key is_vote_id
big_int_to_vote_id x = elim (big_int_to_state_key x) [
  | none ↦ none
  | some k ↦ if is_vote_id k then some k else none
]

unfoldable pub big_int_to_ballot_index : BigInt → Option ℕ
unfolding big_int_to_state_key is_ballot_index
big_int_to_ballot_index x = elim (big_int_to_state_key x) [
  | none ↦ none
  | some k ↦ if is_ballot_index k then some k else none
]
