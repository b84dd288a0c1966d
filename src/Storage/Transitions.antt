-- ===== src/Storage/Transitions.antt =====
-- The queue of state transition batches (storage/ballots_batches.go), the pending transactions
-- (storage/tx.go) and the transition artifacts (storage/state_transition_artifact.go).
use davinci_node.Common.{
  ℕ, zero, suc, ◌/◌, ◌%◌, Bool, true, false, not, none, some, List, [], ◌∷◌, ◌++◌, ◌==◌,
  if◌then◌else◌, length,
}
use davinci_node.Db.{Key, insert, delete}
use davinci_node.Storage.Types.{
  ProcessId, VoteId, is_valid_process_id, not_found, no_more_elements, decode_failed, Result, ok,
  err, encoded, garbage, StateTransitionBatch, ProcessStatsUpdate, TypeStats,
}
use davinci_node.Storage.Store.{Env, Store, get_artifact}
use davinci_node.Storage.Reservations.{
  transition_queue, batch_queue, queue_prefix, set_reservation, delete_reservation, release_vote_id,
}
use davinci_node.Storage.Stats.{update_process_stats}
use davinci_node.Storage.Status.{set_vote_id_statuses, mark_vote_ids_done}
use davinci_node.Storage.Status.Code
use davinci_node.Storage.Ballots.{first_free}
use davinci_node.Storage.Verified.{with_full_keys}
use davinci_node.Storage.Batches.{
  vote_ids_of, queue_keys, push_aggregator_batch, pending_aggregator_batch,
  release_pending_aggregator_batch,
}
use davinci_node.Db.{iterate}

-- MaxStateTransitionAttempts
abbrev pub max_state_transition_attempts : ℕ
max_state_transition_attempts = 5

-- "st/", the StateTransitionTx kind of a pending transaction.
abbrev pub state_transition_tx : Key
state_transition_tx = b's' ∷ b't' ∷ b'/' ∷ []

-- pendingTxs
unfoldable pub pending_txs : Key → ProcessId → Store → Result Bool
pending_txs kind p s = elim (get_artifact (kind ++ p) s.pending_txs) [
  | ok pending ↦ ok pending
  | err x ↦ elim x [ not_found ↦ ok false | y ↦ err y ]
]

-- SetPendingTx
unfoldable pub set_pending_tx : Key → ProcessId → Store → Store × Result (Unit {0})
unfolding pending_txs
set_pending_tx kind p s = elim (pending_txs kind p s) [
  | err x ↦ (s, err x)
  | ok pending ↦
      if pending
      then (s, ok tt)
      else (record s { pending_txs = insert (kind ++ p) (encoded true) s.pending_txs }, ok tt)
]

-- HasPendingTx
unfoldable pub has_pending_tx : Key → ProcessId → Store → Bool
unfolding pending_txs
has_pending_tx kind p s = elim (pending_txs kind p s) [ ok pending ↦ pending | err x ↦ false ]

-- prunePendingTx
unfoldable pub prune_pending_tx : Key → ProcessId → Store → Store
prune_pending_tx kind p s = record s { pending_txs = delete (kind ++ p) s.pending_txs }

-- big.Int.Bytes: the bytes of a number, the highest first, with no leading zero. The fuel is the
-- number itself, which has more units than bytes.
unfoldable pub big_bytes : ℕ → ℕ → Key
big_bytes zero n = []
big_bytes (suc fuel) n =
    let front = big_bytes fuel (n / 256) ++ (n % 256) ∷ [] in if n == 0 then [] else front

-- stateTransitionArtifactKey, at a root that is not nil.
unfoldable pub artifact_key : ProcessId → ℕ → Key
unfolding big_bytes
artifact_key p root = p ++ big_bytes root root

-- The guard `if stb.Inputs.RootHashAfter != nil` with removeStateTransitionArtifact.
unfoldable pub remove_artifact_of : StateTransitionBatch → Store → Store
remove_artifact_of b s = elim b.root_hash_after [
  | none ↦ s
  | some root ↦ record s {
    transition_artifacts = delete (artifact_key b.process_id root) s.transition_artifacts;
  }
]

abbrev pub state_transitions_by : ℕ → ProcessStatsUpdate
state_transitions_by n = record { type_stats = TypeStats.state_transitions; delta = n }

-- PushStateTransitionBatch
unfoldable pub push_state_transition_batch :
    Env → StateTransitionBatch → Store → Store × Result (Unit {0})
unfolding vote_ids_of
push_state_transition_batch e b s =
    let stored = record s {
      transitions = insert (b.process_id ++ e.transition_hash b) (encoded b) s.transitions;
    } in
    let (counted, outcome) =
      update_process_stats e b.process_id (state_transitions_by 1 ∷ []) stored in
    elim outcome [
      | err x ↦ (counted, err x)
      | ok u ↦
          (set_vote_id_statuses b.process_id (vote_ids_of b.ballots) Code.processed counted, ok tt)
    ]

-- NextStateTransitionBatch
unfoldable pub next_state_transition_batch :
    Env → ProcessId → Store → Store × Result (StateTransitionBatch × Key)
unfolding first_free with_full_keys queue_prefix
next_state_transition_batch e p s =
    elim (first_free transition_queue s
      (with_full_keys p (iterate e.strips (queue_prefix transition_queue) p s.transitions))) [
        | none ↦ (s, err no_more_elements)
        | some (k, value) ↦ elim value [
          | garbage ↦ (s, err decode_failed)
          | encoded b ↦
              let (s', reserved) = set_reservation e transition_queue k s in
              elim reserved [ err x ↦ (s, err no_more_elements) | ok u ↦ (s', ok (b, k)) ]
        ]
      ]

-- removeStateTransitionBatch
unfoldable pub remove_state_transition_batch : Key → Store → Store
unfolding delete_reservation
remove_state_transition_batch k s =
    let freed = delete_reservation transition_queue k s in
    record freed { transitions = delete k freed.transitions }

unfoldable pub release_vote_ids : List VoteId → Store → Store
unfolding release_vote_id
release_vote_ids [] s = s
release_vote_ids (v ∷ vs) s = release_vote_ids vs (release_vote_id v s)

abbrev pub settled_transitions_by : ℕ → ProcessStatsUpdate
settled_transitions_by n = record { type_stats = TypeStats.settled_state_transitions; delta = n }

abbrev pub last_transition_now : ProcessStatsUpdate
last_transition_now = record { type_stats = TypeStats.last_transition_date; delta = 0 }

-- MarkStateTransitionBatchDone: a batch that is missing or does not decode is cleaned up all the
-- same, and a failed update of the statistics is only logged.
unfoldable pub mark_state_transition_batch_done : Env → Key → ProcessId → Store → Store
unfolding remove_state_transition_batch
mark_state_transition_batch_done e k p s =
    let marked : Store = elim (get_artifact k s.transitions) [
      | err x ↦ s
      | ok b ↦
          mark_vote_ids_done p (vote_ids_of b.ballots) (release_vote_ids (vote_ids_of b.ballots) s)
    ] in
    let removed = release_pending_aggregator_batch p (remove_state_transition_batch k marked) in
    (update_process_stats e p (settled_transitions_by 1 ∷ last_transition_now ∷ []) removed).0

unfoldable pub drop_transitions : List Key → Store → Store
unfolding remove_state_transition_batch
drop_transitions [] s = s
drop_transitions (k ∷ ks) s = drop_transitions ks (remove_state_transition_batch k s)

-- RemoveStateTransitionBatchesByProcess
unfoldable pub remove_state_transition_batches_by_process : Env → ProcessId → Store → Store
unfolding queue_keys drop_transitions
remove_state_transition_batches_by_process e p s =
    drop_transitions (queue_keys e transition_queue p s.transitions) s

-- The part of MarkStateTransitionBatchOutdated that puts the pending batch back into its queue.
unfoldable pub requeue_pending : Env → ProcessId → Store → Store × Result (Unit {0})
requeue_pending e p s = elim (pending_aggregator_batch p s) [
  | ok b ↦ push_aggregator_batch e b (release_pending_aggregator_batch p s)
  | err x ↦ elim x [ not_found ↦ (s, ok tt) | y ↦ (s, err y) ]
]

-- What is left of MarkStateTransitionBatchOutdated once the batch `b` is removed: releasing the
-- reservation of the ballot batch that it came from.
unfoldable pub free_source_batch : StateTransitionBatch → Store → Store
unfolding delete_reservation
free_source_batch b s =
    if length b.batch_id == 0 then s else delete_reservation batch_queue b.batch_id s

-- MarkStateTransitionBatchOutdated. A batch that does not decode has the zero values of all its
-- fields, so that only the reservation and the entry go.
unfoldable pub mark_state_transition_batch_outdated : Env → Key → Store → Store × Result (Unit {0})
unfolding remove_state_transition_batch free_source_batch
mark_state_transition_batch_outdated e k s = elim (get_artifact k s.transitions) [
  | err x ↦ elim x [
    | not_found ↦ (delete_reservation transition_queue k s, ok tt)
    | y ↦ (remove_state_transition_batch k s, ok tt)
  ]
  | ok b ↦
      let removed = remove_state_transition_batch k (remove_artifact_of b s) in
      let requeued =
        requeue_pending e b.process_id
          (prune_pending_tx state_transition_tx b.process_id removed) in
      if not (is_valid_process_id b.process_id)
      then (free_source_batch b removed, ok tt)
      else elim requeued.1 [
        | err x ↦ (requeued.0, err x)
        | ok u ↦ (free_source_batch b requeued.0, ok tt)
      ]
]
