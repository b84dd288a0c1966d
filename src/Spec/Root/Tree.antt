-- ===== src/Spec/Root/Tree.antt =====
-- The sparse Merkle tree of the state, as a definition of its own: a key's bits, the lowest first, are
-- its path, and a subtree with one leaf is that leaf.
use davinci_node.Common.{
  ℕ, zero, suc, ◌/◌, ◌%◌, ◌≡◌, refl, ap, ◌∙◌, Option, none, some, List, [], ◌∷◌, arith, ◌==◌,
  if◌then◌else◌,
}
use davinci_node.Spec.Params.{
  state_key_process_id, state_key_census_origin, state_key_ballot_mode, state_key_encryption_key,
  state_key_results, natural, in_field,
}
use davinci_node.Spec.Root.{
  zero_ballot_hash, leaf_results, root_of, root_of_inputs, state_root_of, ◌>>=◌,
}

-- A leaf, with what is left of its path.
pub record Leaf : Type 0 where
  pub path : ℕ
  pub key : ℕ
  pub value : ℕ

abbrev pub leaf : ℕ → ℕ → Leaf
leaf key value = record { path = key; key = key; value = value }

-- The leaves on one side, one step down.
unfoldable pub side : ℕ → List Leaf → List Leaf
side bit [] = []
side bit (l ∷ ls) =
    let rest = side bit ls in
    if l.path % 2 == bit then record l { path = l.path / 2 } ∷ rest else rest

-- The order in which the source hashes, and the order of the tree: an error anywhere is an error of
-- both.
hash_order_known :
    (process ballot enc census : Option ℕ) (key : ℕ → Option ℕ) (node : ℕ → ℕ → Option ℕ) (r : ℕ)
    → (process >>= λ p. ballot >>= λ b. enc >>= λ e. key e >>= λ k.
        census >>= λ c. node p r >>= λ a0. node b c >>= λ a1. node a0 a1 >>= λ a. node a k)
      ≡ (enc >>= λ e.
          ((process >>= λ p. node p r) >>= λ a0.
          (ballot >>= λ b. census >>= λ c. node b c) >>= λ a1. node a0 a1)
          >>= λ a. key e >>= λ k. node a k)
hash_order_known process ballot none census key node r = ground arith
hash_order_known none ballot (some e) census key node r = refl
hash_order_known (some p) none (some e) census key node r = ground arith
hash_order_known (some p) (some b) (some e) none key node r = ground arith
hash_order_known (some p) (some b) (some e) (some c) key node r = ground arith

hash_order :
    (process ballot enc census results : Option ℕ) (key : ℕ → Option ℕ) (node : ℕ → ℕ → Option ℕ)
    (r : ℕ)
    → results ≡ some r
    → (process >>= λ p. ballot >>= λ b. enc >>= λ e. key e >>= λ k.
        census >>= λ c. node p r >>= λ a0. node b c >>= λ a1. node a0 a1 >>= λ a. node a k)
      ≡ (enc >>= λ e.
          ((process >>= λ p. results >>= λ r'. node p r') >>= λ a0.
          (ballot >>= λ b. census >>= λ c. node b c) >>= λ a1. node a0 a1)
          >>= λ a. key e >>= λ k. node a k)
hash_order process ballot enc census results key node r e =
    rw e (hash_order_known process ballot enc census key node r)

module _ (poseidon : List ℕ → Option ℕ) where
  -- The root of the tree of the given depth over some leaves; an empty tree has the root 0.
  unfoldable pub tree_root : (depth : ℕ) → List Leaf → Option ℕ
  unfolding side
  tree_root depth [] = some 0
  tree_root depth (l ∷ []) = poseidon (l.key ∷ l.value ∷ 1 ∷ [])
  tree_root zero (l ∷ m ∷ ls) = none
  tree_root (suc depth) (l ∷ m ∷ ls) = do
    left ← tree_root depth (side 0 (l ∷ m ∷ ls))
    right ← tree_root depth (side 1 (l ∷ m ∷ ls))
    poseidon (left ∷ right ∷ [])

  root_of-tree_root :
      (p c x y b : ℕ)
      → poseidon (state_key_results ∷ zero_ballot_hash ∷ 1 ∷ []) ≡ some leaf_results
      → root_of poseidon p c x y b ≡ (
          poseidon (x ∷ y ∷ []) >>= λ enc_key. tree_root 64 (
            leaf state_key_process_id p
            ∷ leaf state_key_census_origin c
            ∷ leaf state_key_ballot_mode b
            ∷ leaf state_key_encryption_key enc_key
            ∷ leaf state_key_results zero_ballot_hash
            ∷ []))
  unfolding root_of tree_root
  root_of-tree_root p c x y b results =
      hash_order (poseidon (state_key_process_id ∷ p ∷ 1 ∷ []))
        (poseidon (state_key_ballot_mode ∷ b ∷ 1 ∷ [])) (poseidon (x ∷ y ∷ []))
        (poseidon (state_key_census_origin ∷ c ∷ 1 ∷ []))
        (poseidon (state_key_results ∷ zero_ballot_hash ∷ 1 ∷ []))
        (λ e. poseidon (state_key_encryption_key ∷ e ∷ 1 ∷ [])) (λ l r. poseidon (l ∷ r ∷ []))
        leaf_results results

  -- StateRoot, on inputs in the field, is the root of the state's tree with five leaves: the parameters
  -- under their keys, with the hash of the encryption key's coordinates, and the results as an empty
  -- ballot's hash. The constant that the code has for the leaf of the results is assumed to be its hash.
  pub state_root_of-tree_root :
      (field p c x y b : ℕ)
      → in_field field (natural p ∷ natural c ∷ natural x ∷ natural y ∷ natural b ∷ [])
        ≡ some (p ∷ c ∷ x ∷ y ∷ b ∷ [])
      → poseidon (state_key_results ∷ zero_ballot_hash ∷ 1 ∷ []) ≡ some leaf_results
      → state_root_of poseidon field (natural p) (natural c) (natural x) (natural y) (natural b) ≡ (
          poseidon (x ∷ y ∷ []) >>= λ enc_key. tree_root 64 (
            leaf state_key_process_id p
            ∷ leaf state_key_census_origin c
            ∷ leaf state_key_ballot_mode b
            ∷ leaf state_key_encryption_key enc_key
            ∷ leaf state_key_results zero_ballot_hash
            ∷ []))
  unfolding state_root_of
  state_root_of-tree_root field p c x y b fits results =
      ap (λ inputs. inputs >>= root_of_inputs poseidon) fits ∙ root_of-tree_root p c x y b results
