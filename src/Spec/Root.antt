-- ===== src/Spec/Root.antt =====
-- The root of a new process's state (spec/hash/stateroot.go) and the hash of a ballot's inputs
-- (spec/ballotinputs.go, spec/hash/poseidon.go). The Poseidon hash, none for an error, and the order of
-- the field are parameters.
pub mod Tree
use davinci_node.Common.{
  ℕ, zero, suc, ◌+◌, ◌-◌, ◌≤◌, ◌≡◌, Bool, true, false, Option, none, some, List, [], ◌∷◌, ◌++◌, map,
  leb, length, take, drop, is_empty, if◌then◌else◌,
}
use davinci_node.Spec.Params.{
  state_key_process_id, state_key_census_origin, state_key_ballot_mode, state_key_encryption_key,
  BigInt, nil_int, negative, natural, in_field,
}
use davinci_node.Spec.Ballots.{BallotMode, Packed, packed, refused, pack}

-- ZeroBallotHashHex and LeafResultsHex
abbrev pub zero_ballot_hash : ℕ
zero_ballot_hash = 0x2c66ee3d8ff0f86c2251e885d4c207e5162c05d0b458c773106cd5579c58bf36

abbrev pub leaf_results : ℕ
leaf_results = 0x1f72c52b6e5dedca4f99ecfa24f2776732431e8d544e14c6f78f5042727c4657

infixl 5 ◌>>=◌
abbrev pub ◌>>=◌ {ℓ κ} : {A : Type ℓ} {B : Type κ} → Option A → (A → Option B) → Option B
none >>= f = none
some a >>= f = f a

abbrev packed_value : Packed → Option ℕ
packed_value (packed n) = some n
packed_value (refused e) = none

module _ (poseidon : List ℕ → Option ℕ) where
  -- PoseidonHash, on inputs that are not nil.
  unfoldable pub poseidon_hash : List ℕ → Option ℕ
  poseidon_hash [] = none
  poseidon_hash (n ∷ ns) = poseidon (n ∷ ns)

  -- The hashes of the 16-wide chunks.
  unfoldable pub hash_chunks : ℕ → List ℕ → Option (List ℕ)
  unfolding poseidon_hash
  hash_chunks zero inputs = some []
  hash_chunks (suc left) inputs =
      let rest = hash_chunks left (drop 16 inputs) in
      if is_empty inputs
      then some []
      else do h ← poseidon_hash (take 16 inputs); hs ← rest; some (h ∷ hs)

  -- PoseidonMultiHash; there are no more chunks than inputs.
  unfoldable pub poseidon_multi_hash : List ℕ → Option ℕ
  unfolding hash_chunks poseidon_hash
  poseidon_multi_hash inputs =
      if leb (length inputs) 16
      then poseidon_hash inputs
      else hash_chunks (length inputs) inputs >>= poseidon_hash

  -- The hashes of StateRoot, on inputs that passed its checks.
  unfoldable pub root_of : (process_id census_origin x y ballot_mode : ℕ) → Option ℕ
  unfolding poseidon_hash
  root_of process_id census_origin x y ballot_mode = do
    leaf_process ← poseidon_hash (state_key_process_id ∷ process_id ∷ 1 ∷ [])
    leaf_ballot ← poseidon_hash (state_key_ballot_mode ∷ ballot_mode ∷ 1 ∷ [])
    enc_key ← poseidon_hash (x ∷ y ∷ [])
    leaf_enc_key ← poseidon_hash (state_key_encryption_key ∷ enc_key ∷ 1 ∷ [])
    leaf_census ← poseidon_hash (state_key_census_origin ∷ census_origin ∷ 1 ∷ [])
    node_a0 ← poseidon_hash (leaf_process ∷ leaf_results ∷ [])
    node_a1 ← poseidon_hash (leaf_ballot ∷ leaf_census ∷ [])
    node_a ← poseidon_hash (node_a0 ∷ node_a1 ∷ [])
    poseidon_hash (node_a ∷ leaf_enc_key ∷ [])

  unfoldable pub root_of_inputs : List ℕ → Option ℕ
  unfolding root_of
  root_of_inputs (p ∷ c ∷ x ∷ y ∷ b ∷ []) = root_of p c x y b
  root_of_inputs other = none

  -- StateRoot
  unfoldable pub state_root_of : ℕ → BigInt → BigInt → BigInt → BigInt → BigInt → Option ℕ
  unfolding in_field root_of_inputs
  state_root_of field process_id census_origin x y ballot_mode =
      in_field field (process_id ∷ census_origin ∷ x ∷ y ∷ ballot_mode ∷ []) >>= root_of_inputs

  -- BallotInputsHashRTE, for a ballot whose numbers are not negative; the nil pointers are the inputs that
  -- are none.
  unfoldable pub ballot_inputs_hash :
      (process_id : Option ℕ)
      → BallotMode
      → (x y address : Option ℕ) → ℕ
      → List ℕ
      → Option ℕ
      → Option ℕ
  unfolding poseidon_multi_hash
  ballot_inputs_hash process_id mode x y address vote_id ballot weight = do
    p ← process_id
    kx ← x
    ky ← y
    a ← address
    w ← weight
    packed_mode ← packed_value (pack mode)
    if is_empty ballot
        then none
        else poseidon_multi_hash
            ((p ∷ packed_mode ∷ kx ∷ ky ∷ a ∷ vote_id ∷ []) ++ (ballot ++ w ∷ []))
