-- ===== src/Storage/Artifacts.antt =====
-- The artifacts of state transitions, kept by process and root (storage/state_transition_artifact.go).
pub mod Keys
use davinci_node.Common.{ℕ, Option, none, some, if◌then◌else◌}
use davinci_node.Db.{insert, delete}
use davinci_node.Storage.Types.{
  ProcessId, is_zero, nil_argument, no_root_after, invalid_process_id, Result, ok, err, encoded,
  TransitionArtifact,
}
use davinci_node.Storage.Store.{Store, get_artifact}
use davinci_node.Storage.Transitions.{artifact_key}

-- PushStateTransitionArtifact; the nil pointer is `none`.
unfoldable pub push_state_transition_artifact :
    Option TransitionArtifact → Store → Store × Result (Unit {0})
push_state_transition_artifact none s = (s, err nil_argument)
push_state_transition_artifact (some a) s = elim a.root_hash_after [
  | none ↦ (s, err no_root_after)
  | some root ↦ if is_zero a.process_id then (s, err invalid_process_id) else (
    record s {
      transition_artifacts =
          insert (artifact_key a.process_id root) (encoded a) s.transition_artifacts;
    },
    ok tt,
  )
]

-- GetStateTransitionArtifact
unfoldable pub get_state_transition_artifact :
    ProcessId → Option ℕ → Store → Result TransitionArtifact
get_state_transition_artifact p none s = err no_root_after
get_state_transition_artifact p (some root) s =
    get_artifact (artifact_key p root) s.transition_artifacts

-- removeStateTransitionArtifact
unfoldable pub remove_state_transition_artifact :
    ProcessId → Option ℕ → Store → Store × Result (Unit {0})
remove_state_transition_artifact p none s = (s, err no_root_after)
remove_state_transition_artifact p (some root) s =
    (record s { transition_artifacts = delete (artifact_key p root) s.transition_artifacts }, ok tt)
