-- ===== src/Storage/Artifacts/Keys.antt =====
-- The keys of the artifacts tell processes and roots apart, so that pushing, reading and removing
-- meet at one key only.
use davinci_node.Common.{
  ℕ, zero, suc, ◌+◌, ◌*◌, ◌/◌, ◌%◌, ◌≤◌, ◌≡◌, refl, ap, false, some, [], ◌∷◌, ◌++◌, arith, length,
  Bool-cases, inl, inr,
}
use davinci_node.Db.{Key, key_eq, key_eq_refl, eq_of_key_eq, lookup-insert, lookup-delete}
use davinci_node.Storage.Types.{ProcessId, not_found, ok, err, encoded, TransitionArtifact}
use davinci_node.Storage.Store.{Store, get_artifact}
use davinci_node.Storage.Status.Reads.{take_prefix}
use davinci_node.Storage.Transitions.{big_bytes, artifact_key}
use davinci_node.Storage.Cleanup.{big_value}
use davinci_node.Storage.Artifacts.{
  push_state_transition_artifact, get_state_transition_artifact, remove_state_transition_artifact,
}

big_value-append :
    (acc : ℕ) (bs : Key) (b : ℕ) → big_value acc (bs ++ b ∷ []) ≡ big_value acc bs * 256 + b
unfolding big_value
big_value-append acc [] b = refl
big_value-append acc (c ∷ bs) b = big_value-append (acc * 256 + c) bs b

-- SetBytes reads back the root that Bytes wrote, on fuel that is no less than the root.
pub big_value-big_bytes : (fuel n : ℕ) → n ≤ fuel → big_value 0 (big_bytes fuel n) ≡ n
unfolding big_bytes big_value
big_value-big_bytes zero n h = ground arith
big_value-big_bytes (suc fuel) n h = ground (
  arith,
  big_value-append 0 (big_bytes fuel (n / 256)) (n % 256),
  big_value-big_bytes fuel (n / 256),
)

-- Two artifacts have one key only if they are of the same process and root, for processes with IDs of
-- one length.
pub artifact_key_injective :
    (p q : ProcessId) (a b : ℕ)
    → length p ≡ length q
    → artifact_key p a ≡ artifact_key q b
    → (p ≡ q) × (a ≡ b)
unfolding artifact_key
artifact_key_injective p q a b l h =
    let split = take_prefix p q (big_bytes a a) (big_bytes b b) l h in
    (
      split.0,
      ground (arith, big_value-big_bytes a a, big_value-big_bytes b b, ap (big_value 0) split.1),
    )

other_artifact :
    (p q : ProcessId) (a b : ℕ)
    → length p ≡ length q
    → ¬ ((p ≡ q) × (a ≡ b))
    → key_eq (artifact_key p a) (artifact_key q b) ≡ false
other_artifact p q a b l other = elim (Bool-cases (key_eq (artifact_key p a) (artifact_key q b))) [
  | inr differ ↦ differ
  | inl same ↦ absurd (
      other (
        artifact_key_injective p q a b l (eq_of_key_eq (artifact_key p a) (artifact_key q b) same)))
]

-- An artifact that is pushed without an error is the one read under its process and root, and every
-- other artifact, of a process with an ID of the same length, is read as before.
pub get_state_transition_artifact-push :
    (a : TransitionArtifact) (root other_root : ℕ) (q : ProcessId) (s s' : Store)
    → a.root_hash_after ≡ some root
    → length a.process_id ≡ length q
    → ¬ ((a.process_id ≡ q) × (root ≡ other_root))
    → push_state_transition_artifact (some a) s ≡ (s', ok tt)
    → (get_state_transition_artifact a.process_id (some root) s' ≡ ok a)
      × (get_state_transition_artifact q (some other_root) s'
          ≡ get_state_transition_artifact q (some other_root) s)
unfolding push_state_transition_artifact get_state_transition_artifact get_artifact
get_state_transition_artifact-push a root other_root q s s' known l other h =
    let k = artifact_key a.process_id root in
    let j = artifact_key q other_root in
    ground (
      arith,
      known,
      lookup-insert k k (encoded a) s.transition_artifacts,
      lookup-insert j k (encoded a) s.transition_artifacts,
      key_eq_refl k,
      other_artifact a.process_id q root other_root l other,
    )

-- After an artifact is removed it is not found, and every other artifact, of a process with an ID of
-- the same length, is read as before.
pub get_state_transition_artifact-remove :
    (p q : ProcessId) (root other_root : ℕ) (s : Store)
    → length p ≡ length q
    → ¬ ((p ≡ q) × (root ≡ other_root))
    → let s' = (remove_state_transition_artifact p (some root) s).0 in
      (get_state_transition_artifact p (some root) s' ≡ err not_found)
      × (get_state_transition_artifact q (some other_root) s'
          ≡ get_state_transition_artifact q (some other_root) s)
unfolding remove_state_transition_artifact get_state_transition_artifact get_artifact
get_state_transition_artifact-remove p q root other_root s l other =
    let k = artifact_key p root in
    let j = artifact_key q other_root in
    ground (
      arith,
      lookup-delete k k s.transition_artifacts,
      lookup-delete j k s.transition_artifacts,
      key_eq_refl k,
      other_artifact p q root other_root l other,
    )
