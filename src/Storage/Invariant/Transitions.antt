-- ===== src/Storage/Invariant/Transitions.antt =====
-- The methods of the state transition batches keep what the three writes keep.
use davinci_node.Common.{Bool, List, [], ◌∷◌, arith}
use davinci_node.Db.{Key}
use davinci_node.Storage.Types.{
  ProcessId, VoteId, AggregatorBallot, AggregatorBallotBatch, StateTransitionBatch,
}
use davinci_node.Storage.Store.{Env, Store}
use davinci_node.Storage.Reservations.{set_reservation, release_vote_id}
use davinci_node.Storage.Invariant.{Test, Holds, Rule}
use davinci_node.Storage.Batches.{queue_keys, release_pending_aggregator_batch}
use davinci_node.Storage.Transitions.{
  push_state_transition_batch, next_state_transition_batch, remove_state_transition_batch,
  release_vote_ids, mark_state_transition_batch_done, drop_transitions, set_pending_tx,
  remove_state_transition_batches_by_process, requeue_pending, remove_artifact_of, prune_pending_tx,
  mark_state_transition_batch_outdated,
}
use davinci_node.Storage.Retry.{
  keep_valid, repush, retry_if_accepting, retry_pending, mark_state_transition_batch_failed,
}
use davinci_node.Storage.Reservations.{transition_queue}
use davinci_node.Storage.Invariant.Batches.{set_vote_id_statuses-Holds, push_aggregator_batch-Holds}

module _ (t : Test) (r : Rule t) where
  pub push_state_transition_batch-Holds :
      (e : Env) (b : StateTransitionBatch) (s : Store)
      → Holds t s
      → Holds t (push_state_transition_batch e b s).0
  unfolding push_state_transition_batch
  push_state_transition_batch-Holds e b s h = grind (arith, r.stats, set_vote_id_statuses-Holds t r)

  pub next_state_transition_batch-Holds :
      (e : Env) (p : ProcessId) (s : Store)
      → Holds t s
      → Holds t (next_state_transition_batch e p s).0
  unfolding next_state_transition_batch set_reservation
  next_state_transition_batch-Holds e p s h = ground arith

  release_vote_ids-Holds :
      (vs : List VoteId) (s : Store) → Holds t s → Holds t (release_vote_ids vs s)
  unfolding release_vote_ids
  release_vote_ids-Holds [] s h = h
  release_vote_ids-Holds (v ∷ vs) s h = release_vote_ids-Holds vs (release_vote_id v s) h

  pub mark_state_transition_batch_done-Holds :
      (e : Env) (k : Key) (p : ProcessId) (s : Store)
      → Holds t s
      → Holds t (mark_state_transition_batch_done e k p s)
  unfolding mark_state_transition_batch_done release_pending_aggregator_batch
  mark_state_transition_batch_done-Holds e k p s h =
      grind (arith, r.stats, r.done, release_vote_ids-Holds)

  drop_transitions-Holds : (ks : List Key) (s : Store) → Holds t s → Holds t (drop_transitions ks s)
  unfolding drop_transitions
  drop_transitions-Holds [] s h = h
  drop_transitions-Holds (k ∷ ks) s h =
      drop_transitions-Holds ks (remove_state_transition_batch k s) h

  pub remove_state_transition_batches_by_process-Holds :
      (e : Env) (p : ProcessId) (s : Store)
      → Holds t s
      → Holds t (remove_state_transition_batches_by_process e p s)
  unfolding remove_state_transition_batches_by_process
  remove_state_transition_batches_by_process-Holds e p s h =
      drop_transitions-Holds (queue_keys e transition_queue p s.transitions) s h

  pub set_pending_tx-Holds :
      (kind : Key) (p : ProcessId) (s : Store) → Holds t s → Holds t (set_pending_tx kind p s).0
  unfolding set_pending_tx
  set_pending_tx-Holds kind p s h = ground arith

  requeue_pending-Holds :
      (e : Env) (p : ProcessId) (s : Store) → Holds t s → Holds t (requeue_pending e p s).0
  unfolding requeue_pending release_pending_aggregator_batch
  requeue_pending-Holds e p s h = grind (arith, push_aggregator_batch-Holds t r)

  pub mark_state_transition_batch_outdated-Holds :
      (e : Env) (k : Key) (s : Store)
      → Holds t s
      → Holds t (mark_state_transition_batch_outdated e k s).0
  unfolding mark_state_transition_batch_outdated remove_artifact_of prune_pending_tx
  mark_state_transition_batch_outdated-Holds e k s h = grind (arith, requeue_pending-Holds)

  keep_valid-Holds :
      (p : ProcessId) (tree : VoteId → Bool) (bs : List AggregatorBallot) (s : Store)
      → Holds t s
      → Holds t (keep_valid p tree bs s).0
  unfolding keep_valid
  keep_valid-Holds p tree [] s h = h
  keep_valid-Holds p tree (b ∷ bs) s h = grind (arith, r.status, keep_valid-Holds p tree bs)

  repush-Holds :
      (e : Env) (pending : AggregatorBallotBatch) (b : StateTransitionBatch) (tree : VoteId → Bool)
      (s : Store)
      → Holds t s
      → Holds t (repush e pending b tree s).0
  unfolding repush
  repush-Holds e pending b tree s h =
      grind (arith, keep_valid-Holds, push_aggregator_batch-Holds t r)

  retry_if_accepting-Holds :
      (e : Env) (pending : AggregatorBallotBatch) (b : StateTransitionBatch) (s : Store)
      → Holds t s
      → Holds t (retry_if_accepting e pending b s).0
  unfolding retry_if_accepting
  retry_if_accepting-Holds e pending b s h =
      grind (arith, repush-Holds e pending b, set_vote_id_statuses-Holds t r)

  retry_pending-Holds :
      (e : Env) (p : ProcessId) (b : StateTransitionBatch) (s : Store)
      → Holds t s
      → Holds t (retry_pending e p b s).0
  unfolding retry_pending release_pending_aggregator_batch
  retry_pending-Holds e p b s h =
      grind (arith, retry_if_accepting-Holds, set_vote_id_statuses-Holds t r)

  pub mark_state_transition_batch_failed-Holds :
      (e : Env) (k : Key) (p : ProcessId) (s : Store)
      → Holds t s
      → Holds t (mark_state_transition_batch_failed e k p s).0
  unfolding mark_state_transition_batch_failed remove_artifact_of prune_pending_tx
  mark_state_transition_batch_failed-Holds e k p s h = grind (arith, retry_pending-Holds)
