-- ===== src/Storage/Retry.antt =====
-- MarkStateTransitionBatchFailed (storage/ballots_batches.go): the ballots of a failed transition go back to
-- the aggregated batches, unless the attempts are used up.
pub mod Bounded
use davinci_node.Common.{
  ℕ, Bool, true, false, not, ◌&&◌, Option, none, some, List, [], ◌∷◌, leb, ◌==◌, if◌then◌else◌,
  length,
}
use davinci_node.Word.{add_int, is_neg}
use davinci_node.Db.{Key}
use davinci_node.Storage.Types.{
  ProcessId, VoteId, not_found, no_state_root, snapshot_failed, Error, Result, ok, err,
  AggregatorBallot, AggregatorBallotBatch, StateTransitionBatch,
}
use davinci_node.Storage.Store.{Env, Store, get_artifact}
use davinci_node.Storage.Processes.{process, process_is_accepting_votes}
use davinci_node.Storage.Status.{contains_vote_id, set_vote_id_status, set_vote_id_statuses}
use davinci_node.Storage.Status.Code
use davinci_node.Storage.Batches.{
  vote_ids_of, push_aggregator_batch, pending_aggregator_batch, release_pending_aggregator_batch,
}
use davinci_node.Storage.Transitions.{
  max_state_transition_attempts, state_transition_tx, prune_pending_tx, remove_artifact_of,
  remove_state_transition_batch,
}

-- pendingBatch.Attempts >= MaxStateTransitionAttempts, on ints.
unfoldable pub attempts_exhausted : ℕ → Bool
attempts_exhausted n = not (is_neg n) && leb max_state_transition_attempts n

-- The loop over the ballots: one that the state contains is marked as failed, the others are kept.
unfoldable pub keep_valid :
    ProcessId → (VoteId → Bool) → List AggregatorBallot → Store → Store × List AggregatorBallot
keep_valid p tree [] s = (s, [])
keep_valid p tree (b ∷ bs) s =
    let gone = keep_valid p tree bs (set_vote_id_status p b.vote_id Code.error s) in
    let kept = keep_valid p tree bs s in
    if contains_vote_id tree b.vote_id then gone else (kept.0, b ∷ kept.1)

-- From the loaded snapshot on.
unfoldable pub repush :
    Env
    → AggregatorBallotBatch
    → StateTransitionBatch
    → (VoteId → Bool)
    → Store
    → Store × Result (Unit {0})
repush e pending b tree s =
    let (s', valid) = keep_valid b.process_id tree b.ballots s in
    if length valid == 0
    then (s', ok tt)
    else push_aggregator_batch e
        (record pending {
          attempts = add_int pending.attempts 1;
          ballots = valid;
          last_attempt_time = some e.now;
        })
        s'

-- From the check of the process on.
unfoldable pub retry_if_accepting :
    Env → AggregatorBallotBatch → StateTransitionBatch → Store → Store × Result (Unit {0})
retry_if_accepting e pending b s = elim (process b.process_id s) [
  | err x ↦ (s, err x)
  | ok p ↦ elim (process_is_accepting_votes e.now p) [
    | err x ↦ (set_vote_id_statuses b.process_id (vote_ids_of b.ballots) Code.error s, ok tt)
    | ok accepting ↦ elim p.state_root [
      | none ↦ (s, err no_state_root)
      | some root ↦ elim (e.snapshot b.process_id (some root)) [
        | none ↦ (s, err snapshot_failed)
        | some tree ↦ repush e pending b tree s
      ]
    ]
  ]
]

-- The body of the method between the deferred clean-up and the return.
unfoldable pub retry_pending :
    Env → ProcessId → StateTransitionBatch → Store → Store × Result (Unit {0})
unfolding attempts_exhausted
retry_pending e p b s = elim (pending_aggregator_batch p s) [
  | err x ↦ elim x [
    | not_found ↦ (set_vote_id_statuses p (vote_ids_of b.ballots) Code.error s, ok tt)
    | y ↦ (s, err y)
  ]
  | ok pending ↦
      let released = release_pending_aggregator_batch p s in
      if attempts_exhausted (add_int pending.attempts 1)
      then (set_vote_id_statuses p (vote_ids_of b.ballots) Code.error released, ok tt)
      else retry_if_accepting e pending b released
]

-- The deferred clean-up.
unfoldable pub drop_failed : Key → ProcessId → Store → Store
unfolding remove_state_transition_batch
drop_failed k p s = prune_pending_tx state_transition_tx p (remove_state_transition_batch k s)

-- MarkStateTransitionBatchFailed
unfoldable pub mark_state_transition_batch_failed :
    Env → Key → ProcessId → Store → Store × Result (Unit {0})
unfolding drop_failed
mark_state_transition_batch_failed e k p s = elim (get_artifact k s.transitions) [
  | err x ↦ elim x [ not_found ↦ (s, ok tt) | y ↦ (s, err y) ]
  | ok b ↦
      let (s', outcome) = retry_pending e p b (remove_artifact_of b s) in
      (drop_failed k p s', outcome)
]
