-- ===== src/Storage/Operations.antt =====
-- The methods of storage.Storage that a ballot meets on its way, as values, and runs of them. The
-- sequencer calls them in any order, each under globalLock, and each at a time of its own.
pub mod Preserve
pub mod Ended
pub mod Done
pub mod Balance
use davinci_node.Common.{ℕ, Option, List, [], ◌∷◌}
use davinci_node.Db.{Key}
use davinci_node.Storage.Types.{
  ProcessId, VoteId, Ballot, VerifiedBallot, AggregatorBallotBatch, StateTransitionBatch,
  VerifiedResults, TransitionArtifact,
}
use davinci_node.Storage.Store.{Env, Store}
use davinci_node.Storage.Ballots.{
  push_pending_ballot, next_pending_ballot, remove_pending_ballot,
  remove_pending_ballots_by_process, release_pending_ballot_reservation, mark_ballot_verified,
}
use davinci_node.Storage.Verified.{
  pull_verified_ballots, release_verified_ballot_reservations, remove_verified_ballots_by_process,
  mark_verified_ballots_done, mark_verified_ballots_failed,
}
use davinci_node.Storage.Batches.{
  push_aggregator_batch, remove_aggregator_batches_by_process, mark_aggregator_batch_failed,
  next_aggregator_batch, mark_aggregator_batch_pending, mark_aggregator_batch_done,
}
use davinci_node.Storage.Transitions.{
  push_state_transition_batch, next_state_transition_batch, mark_state_transition_batch_done,
  remove_state_transition_batches_by_process, mark_state_transition_batch_outdated, set_pending_tx,
  prune_pending_tx,
}
use davinci_node.Storage.Retry.{mark_state_transition_batch_failed}
use davinci_node.Storage.Processes.{Change, callback, update_process}
use davinci_node.Storage.Status.{mark_vote_ids_done, mark_process_vote_ids_timeout}
use davinci_node.Storage.Cleanup.{clean_process_stale_votes, check_and_update_ended_processes}
use davinci_node.Storage.Results.{push_verified_results, mark_verified_results_done}
use davinci_node.Storage.Artifacts.{push_state_transition_artifact}
use davinci_node.Storage.Workers.{increase_worker_job_count, increase_worker_failed_job_count}
use davinci_node.Storage.Recovery.{release_stale_reservations, recover}

pub data Operation : Type 0 where
  push : Ballot → Operation
  next : Operation
  remove : ProcessId → VoteId → Operation
  remove_pending : ProcessId → Operation
  release : VoteId → Operation
  verify : VoteId → Option VerifiedBallot → Operation
  pull : ProcessId → ℕ → Operation
  release_pulled : List Key → Operation
  remove_verified : ProcessId → Operation
  verified_done : List Key → Operation
  verified_failed : List Key → Operation
  push_batch : AggregatorBallotBatch → Operation
  next_batch : ProcessId → Operation
  batch_pending : AggregatorBallotBatch → Operation
  batch_done : Key → Operation
  batch_failed : Key → Operation
  remove_batches : ProcessId → Operation
  push_transition : StateTransitionBatch → Operation
  next_transition : ProcessId → Operation
  transition_done : Key → ProcessId → Operation
  transition_outdated : Key → Operation
  transition_failed : Key → ProcessId → Operation
  remove_transitions : ProcessId → Operation
  set_tx : Key → ProcessId → Operation
  prune_tx : Key → ProcessId → Operation
  release_stale : ℕ → Operation
  restart : Operation
  update : ProcessId → Change → Operation
  vote_ids_done : ProcessId → List VoteId → Operation
  clean_stale : ProcessId → Operation
  push_results : VerifiedResults → Operation
  results_done : ProcessId → Operation
  push_artifact : Option TransitionArtifact → Operation
  worker_done : Key → ℕ → Operation
  worker_failed : Key → ℕ → Operation

-- The store after a call, whatever it returned.
pub perform : Env → Operation → Store → Store
perform e (push b) s = (push_pending_ballot e b s).0
perform e next s = (next_pending_ballot e s).0
perform e (remove p v) s = remove_pending_ballot e p v s
perform e (remove_pending p) s = remove_pending_ballots_by_process e p s
perform e (release v) s = release_pending_ballot_reservation v s
perform e (verify v vb) s = (mark_ballot_verified e v vb s).0
perform e (pull p n) s = (pull_verified_ballots e p n s).0
perform e (release_pulled ks) s = release_verified_ballot_reservations ks s
perform e (remove_verified p) s = remove_verified_ballots_by_process e p s
perform e (verified_done ks) s = mark_verified_ballots_done ks s
perform e (verified_failed ks) s = (mark_verified_ballots_failed e ks s).0
perform e (push_batch b) s = (push_aggregator_batch e b s).0
perform e (next_batch p) s = (next_aggregator_batch e p s).0
perform e (batch_pending b) s = (mark_aggregator_batch_pending b s).0
perform e (batch_done k) s = mark_aggregator_batch_done k s
perform e (batch_failed k) s = (mark_aggregator_batch_failed e k s).0
perform e (remove_batches p) s = remove_aggregator_batches_by_process e p s
perform e (push_transition b) s = (push_state_transition_batch e b s).0
perform e (next_transition p) s = (next_state_transition_batch e p s).0
perform e (transition_done k p) s = mark_state_transition_batch_done e k p s
perform e (transition_outdated k) s = (mark_state_transition_batch_outdated e k s).0
perform e (transition_failed k p) s = (mark_state_transition_batch_failed e k p s).0
perform e (remove_transitions p) s = remove_state_transition_batches_by_process e p s
perform e (set_tx kind p) s = (set_pending_tx kind p s).0
perform e (prune_tx kind p) s = prune_pending_tx kind p s
perform e (release_stale age) s = release_stale_reservations e age s
perform e restart s = (recover e s).0
perform e (update p c) s = (update_process p (callback c ∷ []) s).0
perform e (vote_ids_done p vs) s = mark_vote_ids_done p vs s
perform e (clean_stale p) s = clean_process_stale_votes e p s
perform e (push_results r) s = (push_verified_results r s).0
perform e (results_done p) s = mark_verified_results_done p s
perform e (push_artifact a) s = (push_state_transition_artifact a s).0
perform e (worker_done a n) s = increase_worker_job_count a n s
perform e (worker_failed a n) s = increase_worker_failed_job_count a n s

-- What changes the store: a method, the time-out of a process's votes, or a round of the monitor of ended
-- processes.
pub data Event : Type 0 where
  call : Operation → Event
  time_out : ProcessId → Event
  monitor : Event

unfoldable pub react : Env → Event → Store → Store
react e (call o) s = perform e o s
react e (time_out p) s = (mark_process_vote_ids_timeout e p s).0
react e monitor s = check_and_update_ended_processes e s

pub run : List (Env × Event) → Store → Store
run [] s = s
run ((e, v) ∷ vs) s = run vs (react e v s)
