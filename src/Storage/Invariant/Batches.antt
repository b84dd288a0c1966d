-- ===== src/Storage/Invariant/Batches.antt =====
-- The methods of the aggregated batches keep what the three writes keep.
use davinci_node.Common.{ℕ, ◌+◌, List, [], ◌∷◌, arith}
use davinci_node.Db.{Key}
use davinci_node.Storage.Types.{ProcessId, VoteId, AggregatorBallotBatch}
use davinci_node.Storage.Store.{Env, Store}
use davinci_node.Storage.Reservations.{set_reservation, release_vote_id}
use davinci_node.Storage.Status.{set_vote_id_status, set_vote_id_statuses}
use davinci_node.Storage.Status.Code
use davinci_node.Storage.Invariant.{Test, Holds, Rule}
use davinci_node.Storage.Batches.{
  push_aggregator_batch, mark_aggregator_batch_done, drop_batches,
  remove_aggregator_batches_by_process, fail_aggregated, mark_aggregator_batch_failed,
  next_aggregator_batch, mark_aggregator_batch_pending, queue_keys, counts_as,
}
use davinci_node.Storage.Status.{vote_id_status}
use davinci_node.Storage.Reservations.{batch_queue}

module _ (t : Test) (r : Rule t) where
  pub set_vote_id_statuses-Holds :
      (p : ProcessId) (vs : List VoteId) (code : ℕ) (s : Store)
      → Holds t s
      → Holds t (set_vote_id_statuses p vs code s)
  unfolding set_vote_id_statuses
  set_vote_id_statuses-Holds p [] code s h = h
  set_vote_id_statuses-Holds p (v ∷ vs) code s h =
      set_vote_id_statuses-Holds p vs code (set_vote_id_status p v code s) (r.status p v code s h)

  pub push_aggregator_batch-Holds :
      (e : Env) (b : AggregatorBallotBatch) (s : Store)
      → Holds t s
      → Holds t (push_aggregator_batch e b s).0
  unfolding push_aggregator_batch
  push_aggregator_batch-Holds e b s h = grind (arith, r.stats, set_vote_id_statuses-Holds)

  drop_batches-Holds : (ks : List Key) (s : Store) → Holds t s → Holds t (drop_batches ks s)
  unfolding drop_batches
  drop_batches-Holds [] s h = h
  drop_batches-Holds (k ∷ ks) s h = drop_batches-Holds ks (mark_aggregator_batch_done k s) h

  pub remove_aggregator_batches_by_process-Holds :
      (e : Env) (p : ProcessId) (s : Store)
      → Holds t s
      → Holds t (remove_aggregator_batches_by_process e p s)
  unfolding remove_aggregator_batches_by_process
  remove_aggregator_batches_by_process-Holds e p s h =
      drop_batches-Holds (queue_keys e batch_queue p s.batches) s h

  fail_aggregated-Holds :
      (e : Env) (p : ProcessId) (vs : List VoteId) (n : ℕ) (s : Store)
      → Holds t s
      → Holds t (fail_aggregated e p vs n s).0
  unfolding fail_aggregated
  fail_aggregated-Holds e p [] n s h = h
  fail_aggregated-Holds e p (v ∷ vs) n s h =
      fail_aggregated-Holds e p vs (n + counts_as Code.aggregated (vote_id_status e p v s))
        (set_vote_id_status p v Code.error (release_vote_id v s))
        (r.status p v Code.error (release_vote_id v s) h)

  pub mark_aggregator_batch_failed-Holds :
      (e : Env) (k : Key) (s : Store) → Holds t s → Holds t (mark_aggregator_batch_failed e k s).0
  unfolding mark_aggregator_batch_failed
  mark_aggregator_batch_failed-Holds e k s h = grind (arith, r.stats, fail_aggregated-Holds)

  pub next_aggregator_batch-Holds :
      (e : Env) (p : ProcessId) (s : Store) → Holds t s → Holds t (next_aggregator_batch e p s).0
  unfolding next_aggregator_batch set_reservation
  next_aggregator_batch-Holds e p s h = ground arith

  pub mark_aggregator_batch_pending-Holds :
      (b : AggregatorBallotBatch) (s : Store)
      → Holds t s
      → Holds t (mark_aggregator_batch_pending b s).0
  unfolding mark_aggregator_batch_pending
  mark_aggregator_batch_pending-Holds b s h = ground arith
