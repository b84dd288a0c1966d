-- ===== src/Spec/Keys/Namespaces.antt =====
-- The keys of the configuration, of ballots and of votes do not meet.
use Prim.Native.Nat.{bit_and}
use davinci_node.Common.{
  ℕ, ◌+◌, ◌-◌, ◌*◌, ◌/◌, ◌%◌, ◌^◌, ◌<◌, ◌≤◌, ◌≡◌, ap, Option, none, some, List, [], ◌∷◌, arith,
  Option-cases, inl, inr,
}
use davinci_node.Word.Bits.{bit_and_low}
use davinci_node.Spec.Params.{config_max, vote_id_min, BigInt, natural, in_field}
use davinci_node.Spec.Keys.{
  ballot_index, truncate_to_lower_bits, hash_vote_id, vote_id_of, big_int_to_vote_id,
  big_int_to_ballot_index,
}

truncate-lt : (h : ℕ) → truncate_to_lower_bits h 63 < 2 ^ 63
unfolding truncate_to_lower_bits
truncate-lt h =
    let low : h % 2 ^ 63 + h / 2 ^ 63 * 2 ^ 63 ≡ h = omega arith in
    omega (
      arith,
      bit_and_low 63 (h / 2 ^ 63) (h % 2 ^ 63) (omega arith),
      ap (λ n. bit_and n (2 ^ 63 - 1)) low,
    )

module _ (field : ℕ) (poseidon : List ℕ → Option ℕ) where
  hash_vote_id-upper :
      (p a k : BigInt) (v : ℕ)
      → hash_vote_id field poseidon p a k ≡ some v
      → (vote_id_min ≤ v) × (v < 2 ^ 64)
  unfolding hash_vote_id
  hash_vote_id-upper p a k v made = elim (Option-cases (in_field field (p ∷ a ∷ k ∷ []))) [
    | inl bad ↦ ground (arith, bad, made)
    | inr (inputs, good) ↦ elim (Option-cases (poseidon inputs)) [
      | inl failed ↦ ground (arith, good, failed, made)
      | inr (h, hashed) ↦ let range = truncate-lt h in ground (arith, good, hashed, made, range)
    ]
  ]

  vote_id_of-upper :
      (p a k : BigInt) (v : ℕ)
      → vote_id_of field poseidon p a k ≡ some v
      → (vote_id_min ≤ v) × (v < 2 ^ 64)
  unfolding vote_id_of
  vote_id_of-upper p a k v made = elim (Option-cases (hash_vote_id field poseidon p a k)) [
    | inl failed ↦ ground (arith, failed, made)
    | inr (h, hashed) ↦ ground (arith, hashed, made, hash_vote_id-upper p a k h hashed)
  ]

  -- The ballot index of a voter is above the keys of the configuration and below every vote ID, whatever
  -- the hash. Read from an integer, the one is a ballot index and no vote ID, the other a vote ID and no
  -- ballot index.
  pub state_keys-apart :
      (voter b v : ℕ) (p a k : BigInt)
      → ballot_index voter ≡ some b
      → vote_id_of field poseidon p a k ≡ some v
      → (config_max < b)
        × (b < v)
        × (big_int_to_ballot_index (natural b) ≡ some b)
        × (big_int_to_vote_id (natural b) ≡ none)
        × (big_int_to_vote_id (natural v) ≡ some v)
        × (big_int_to_ballot_index (natural v) ≡ none)
  unfolding ballot_index big_int_to_ballot_index big_int_to_vote_id
  state_keys-apart voter b v p a k index id =
      let range = vote_id_of-upper p a k v id in
      (
        ground (arith, index),
        ground (arith, index, range),
        ground (arith, index),
        ground (arith, index),
        ground (arith, range),
        ground (arith, range),
      )
