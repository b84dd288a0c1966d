-- ===== src/Tests/Specification.antt =====
-- A ballot mode, the keys of a voter, and the root of a state under a toy hash.
use davinci_node.Common.{
  ℕ, ◌+◌, ◌^◌, ◌≡◌, ◌<◌, ◌≤◌, ◌↔◌, refl, true, Option, some, none, List, [], ◌∷◌, arith, ◌==◌,
  if◌then◌else◌,
}
use davinci_node.Spec.Params.{
  config_max, state_key_process_id, state_key_census_origin, state_key_ballot_mode,
  state_key_encryption_key, state_key_results, natural, in_field,
}
use davinci_node.Spec.Ballots.{BallotMode, pack, packed}
use davinci_node.Spec.Ballots.Fields.{HasBytes, unpack, unpack-pack}
use davinci_node.Spec.Keys.{ballot_index, vote_id_of, big_int_to_ballot_index, big_int_to_vote_id}
use davinci_node.Spec.Keys.Namespaces.{state_keys-apart}
use davinci_node.Spec.Root.{◌>>=◌, zero_ballot_hash, leaf_results, state_root_of}
use davinci_node.Spec.Root.Tree.{leaf, tree_root, state_root_of-tree_root}

abbrev quadratic : BallotMode
quadratic = record {
  num_fields = 5;
  group_size = 1;
  unique_values = true;
  cost_exponent = 2;
  max_value = 16;
  min_value = 0;
  max_value_sum = 1280;
  min_value_sum = 5;
}

quadratic_bytes : HasBytes quadratic
quadratic_bytes = omega arith

unpack-pack_example :
    (quadratic.group_size ≤ quadratic.num_fields)
      × (quadratic.max_value < 2 ^ 48)
      × (quadratic.min_value < 2 ^ 48)
      × (quadratic.max_value_sum < 2 ^ 63)
      × (quadratic.min_value_sum < 2 ^ 63)
    ↔ ((n : ℕ) × (pack quadratic ≡ packed n) × (n < 2 ^ 247) × (unpack n ≡ quadratic))
unpack-pack_example = unpack-pack quadratic quadratic_bytes

-- A hash that knows one leaf.
abbrev toy_hash : List ℕ → Option ℕ
toy_hash [] = none
toy_hash (n ∷ ns) = some (if n == 4 then leaf_results else n)

index_of_seven : ballot_index 7 ≡ some 23
unfolding ballot_index
index_of_seven = refl

id_of_voter : vote_id_of 1000 toy_hash (natural 3) (natural 5) (natural 6) ≡ some (2 ^ 63 + 3)
unfolding vote_id_of
id_of_voter = refl

state_keys-apart_example :
    (config_max < 23)
    × (23 < 2 ^ 63 + 3)
    × (big_int_to_ballot_index (natural 23) ≡ some 23)
    × (big_int_to_vote_id (natural 23) ≡ none)
    × (big_int_to_vote_id (natural (2 ^ 63 + 3)) ≡ some (2 ^ 63 + 3))
    × (big_int_to_ballot_index (natural (2 ^ 63 + 3)) ≡ none)
state_keys-apart_example =
    state_keys-apart 1000 toy_hash 7 23 (2 ^ 63 + 3) (natural 3) (natural 5) (natural 6)
      index_of_seven id_of_voter

inputs_fit :
    in_field 1000 (natural 1 ∷ natural 2 ∷ natural 3 ∷ natural 5 ∷ natural 6 ∷ [])
    ≡ some (1 ∷ 2 ∷ 3 ∷ 5 ∷ 6 ∷ [])
unfolding in_field
inputs_fit = refl

state_root_of-tree_root_example :
    state_root_of toy_hash 1000 (natural 1) (natural 2) (natural 3) (natural 5) (natural 6) ≡ (
      toy_hash (3 ∷ 5 ∷ []) >>= λ enc_key. tree_root toy_hash 64 (
        leaf state_key_process_id 1
        ∷ leaf state_key_census_origin 2
        ∷ leaf state_key_ballot_mode 6
        ∷ leaf state_key_encryption_key enc_key
        ∷ leaf state_key_results zero_ballot_hash
        ∷ []))
state_root_of-tree_root_example = state_root_of-tree_root toy_hash 1000 1 2 3 5 6 inputs_fit refl
