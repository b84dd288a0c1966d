-- ===== src/Storage/Operations/Preserve.antt =====
-- Every method keeps what the writes to the processes, the totals and the statuses keep.
use davinci_node.Common.{ℕ, none, some, List, [], ◌∷◌, arith}
use davinci_node.Db.{Key}
use davinci_node.Storage.Types.{
  ProcessId, Encoded, encoded, garbage, VerifiedBallot, AggregatorBallot, AggregatorBallotBatch,
}
use davinci_node.Storage.Store.{Env, Store}
use davinci_node.Storage.Reservations.{Queue, delete_reservation, reservation_queues}
use davinci_node.Storage.Ballots.{release_pending_ballot_reservation}
use davinci_node.Storage.Batches.{mark_aggregator_batch_done}
use davinci_node.Storage.Transitions.{prune_pending_tx}
use davinci_node.Storage.Cleanup.{clean_process_stale_votes}
use davinci_node.Storage.Results.{push_verified_results, mark_verified_results_done}
use davinci_node.Storage.Artifacts.{push_state_transition_artifact}
use davinci_node.Storage.Workers.{increase_worker_job_count, increase_worker_failed_job_count}
use davinci_node.Storage.Recovery.{
  reservations_of, delete_reservations, all_keys, clean_all_reservations, stale_keys,
  release_stale_in_queue, for_queues, release_stale_reservations, relock, relock_all,
  recover_verified, recover_batches, recover_nullifiers, recover,
}
use davinci_node.Storage.Invariant.{Test, Holds, Rule}
use davinci_node.Storage.Invariant.Ballots
use davinci_node.Storage.Invariant.Verified
use davinci_node.Storage.Invariant.Batches
use davinci_node.Storage.Invariant.Transitions
use davinci_node.Storage.Operations.{
  Operation, push, next, remove, remove_pending, release, verify, pull, release_pulled,
  remove_verified, verified_done, verified_failed, push_batch, next_batch, batch_pending,
  batch_done, batch_failed, remove_batches, push_transition, next_transition, transition_done,
  transition_outdated, transition_failed, remove_transitions, set_tx, prune_tx, release_stale,
  restart, update, vote_ids_done, clean_stale, push_results, results_done, push_artifact,
  worker_done, worker_failed, perform,
}

module _ (t : Test) where
  delete_reservations-Holds :
      (q : Queue) (ks : List Key) (s : Store) → Holds t s → Holds t (delete_reservations q ks s)
  unfolding delete_reservations
  delete_reservations-Holds q [] s h = h
  delete_reservations-Holds q (k ∷ ks) s h =
      delete_reservations-Holds q ks (delete_reservation q k s) h

  for_queues-Holds :
      (f : Queue → Store → Store)
      → ((q : Queue) (s : Store) → Holds t s → Holds t (f q s))
      → (qs : List Queue) (s : Store) → Holds t s
      → Holds t (for_queues f qs s)
  unfolding for_queues
  for_queues-Holds f keep [] s h = h
  for_queues-Holds f keep (q ∷ qs) s h = for_queues-Holds f keep qs (f q s) (keep q s h)

  release_stale_reservations-Holds :
      (e : Env) (age : ℕ) (s : Store) → Holds t s → Holds t (release_stale_reservations e age s)
  unfolding release_stale_reservations
  release_stale_reservations-Holds e age s h =
      for_queues-Holds (release_stale_in_queue e age)
        (λ q u k.
          delete_reservations-Holds q
            (stale_keys e.now age (reservations_of e.strips q u.reservations)) u k)
        reservation_queues s h

  relock_all-Holds :
      (p : ProcessId) (bs : List AggregatorBallot) (s : Store)
      → Holds t s
      → Holds t (relock_all p bs s)
  unfolding relock_all
  relock_all-Holds p [] s h = h
  relock_all-Holds p (b ∷ bs) s h =
      relock_all-Holds p bs (relock b.vote_id p b.address s) (ground arith)

  recover_verified-Holds :
      (l : List (Key × Encoded VerifiedBallot)) (s : Store)
      → Holds t s
      → Holds t (recover_verified l s).0
  unfolding recover_verified
  recover_verified-Holds [] s h = h
  recover_verified-Holds ((k, garbage) ∷ l) s h = h
  recover_verified-Holds ((k, encoded vb) ∷ l) s h =
      recover_verified-Holds l (relock vb.vote_id vb.process_id vb.address s) (ground arith)

  recover_batches-Holds :
      (l : List (Key × Encoded AggregatorBallotBatch)) (s : Store)
      → Holds t s
      → Holds t (recover_batches l s).0
  unfolding recover_batches
  recover_batches-Holds [] s h = h
  recover_batches-Holds ((k, garbage) ∷ l) s h = h
  recover_batches-Holds ((k, encoded b) ∷ l) s h =
      recover_batches-Holds l (relock_all b.process_id b.ballots s)
        (relock_all-Holds b.process_id b.ballots s h)

  recover_nullifiers-Holds : (e : Env) (s : Store) → Holds t s → Holds t (recover_nullifiers e s).0
  unfolding recover_nullifiers
  recover_nullifiers-Holds e s h = grind (arith, recover_verified-Holds, recover_batches-Holds)

  recover-Holds : (e : Env) (s : Store) → Holds t s → Holds t (recover e s).0
  unfolding recover
  recover-Holds e s h =
      recover_nullifiers-Holds e (for_queues (clean_all_reservations e) reservation_queues s) (
        for_queues-Holds (clean_all_reservations e)
          (λ q u k.
            delete_reservations-Holds q (all_keys (reservations_of e.strips q u.reservations)) u k)
          reservation_queues s h)

module _ (t : Test) (r : Rule t) where
  pub perform-Holds : (e : Env) (o : Operation) (s : Store) → Holds t s → Holds t (perform e o s)
  unfolding perform release_pending_ballot_reservation mark_aggregator_batch_done prune_pending_tx
      clean_process_stale_votes push_verified_results mark_verified_results_done
      push_state_transition_artifact increase_worker_job_count increase_worker_failed_job_count
  perform-Holds e (push b) s h = Ballots.push_pending_ballot-Holds t r e b s h
  perform-Holds e next s h = Ballots.next_pending_ballot-Holds t r e s h
  perform-Holds e (remove p v) s h = Ballots.remove_pending_ballot-Holds t r e p v s h
  perform-Holds e (remove_pending p) s h =
      Ballots.remove_pending_ballots_by_process-Holds t r e p s h
  perform-Holds e (release v) s h = h
  perform-Holds e (verify v vb) s h = Ballots.mark_ballot_verified-Holds t r e v vb s h
  perform-Holds e (pull p n) s h = Verified.pull_verified_ballots-Holds t r e p n s h
  perform-Holds e (release_pulled ks) s h =
      Verified.release_verified_ballot_reservations-Holds t r ks s h
  perform-Holds e (remove_verified p) s h =
      Verified.remove_verified_ballots_by_process-Holds t r e p s h
  perform-Holds e (verified_done ks) s h = Verified.mark_verified_ballots_done-Holds t r ks s h
  perform-Holds e (verified_failed ks) s h =
      Verified.mark_verified_ballots_failed-Holds t r e ks s h
  perform-Holds e (push_batch b) s h = Batches.push_aggregator_batch-Holds t r e b s h
  perform-Holds e (next_batch p) s h = Batches.next_aggregator_batch-Holds t r e p s h
  perform-Holds e (batch_pending b) s h = Batches.mark_aggregator_batch_pending-Holds t r b s h
  perform-Holds e (batch_done k) s h = h
  perform-Holds e (batch_failed k) s h = Batches.mark_aggregator_batch_failed-Holds t r e k s h
  perform-Holds e (remove_batches p) s h =
      Batches.remove_aggregator_batches_by_process-Holds t r e p s h
  perform-Holds e (push_transition b) s h =
      Transitions.push_state_transition_batch-Holds t r e b s h
  perform-Holds e (next_transition p) s h =
      Transitions.next_state_transition_batch-Holds t r e p s h
  perform-Holds e (transition_done k p) s h =
      Transitions.mark_state_transition_batch_done-Holds t r e k p s h
  perform-Holds e (transition_outdated k) s h =
      Transitions.mark_state_transition_batch_outdated-Holds t r e k s h
  perform-Holds e (transition_failed k p) s h =
      Transitions.mark_state_transition_batch_failed-Holds t r e k p s h
  perform-Holds e (remove_transitions p) s h =
      Transitions.remove_state_transition_batches_by_process-Holds t r e p s h
  perform-Holds e (set_tx kind p) s h = Transitions.set_pending_tx-Holds t r kind p s h
  perform-Holds e (prune_tx kind p) s h = h
  perform-Holds e (release_stale age) s h = release_stale_reservations-Holds t e age s h
  perform-Holds e restart s h = recover-Holds t e s h
  perform-Holds e (update p c) s h = r.update p c s h
  perform-Holds e (vote_ids_done p vs) s h = r.done p vs s h
  perform-Holds e (clean_stale p) s h =
      Transitions.remove_state_transition_batches_by_process-Holds t r e p _ (
        Batches.remove_aggregator_batches_by_process-Holds t r e p _ (
          Verified.remove_verified_ballots_by_process-Holds t r e p _
            (Ballots.remove_pending_ballots_by_process-Holds t r e p s h)))
  perform-Holds e (push_results x) s h = ground arith
  perform-Holds e (results_done p) s h = h
  perform-Holds e (push_artifact none) s h = h
  perform-Holds e (push_artifact (some a)) s h = ground arith
  perform-Holds e (worker_done a n) s h = h
  perform-Holds e (worker_failed a n) s h = h
