-- ===== src/Storage/Cleanup.antt =====
-- The clean-up of an ended process and of everything that is in flight (storage/cleanup.go), and the
-- monitor that ends processes (storage/process.go).
pub mod Monitor
use davinci_node.Common.{
  ℕ, ◌+◌, ◌*◌, Bool, true, false, not, ◌||◌, Option, none, some, List, [], ◌∷◌, ◌++◌, ◌==◌,
  if◌then◌else◌,
}
use davinci_node.Word.{neg_int}
use davinci_node.Db.{Key, Table, delete, iterate}
use davinci_node.Storage.Types.{
  TransitionArtifact, ProcessId, VoteId, vote_id_bytes, Result, ok, err, Encoded, encoded, garbage,
  Ballot, VerifiedBallot, AggregatorBallot, AggregatorBallotBatch, StateTransitionBatch, Process,
  ProcessStatus, ended, canceled, results, ProcessStatsUpdate,
}
use davinci_node.Storage.Store.{Env, Store}
use davinci_node.Storage.Reservations.{
  ballot_queue, verified_queue, batch_queue, transition_queue, queue_prefix, delete_reservation,
  release_vote_id, release_locks,
}
use davinci_node.Storage.Stats.{update_process_stats}
use davinci_node.Storage.Processes.{
  keys_of, process, update_process, list_processes, has_expired, set_status,
}
use davinci_node.Storage.Status.{vote_id_status, set_vote_id_status, mark_process_vote_ids_timeout}
use davinci_node.Storage.Status.Code
use davinci_node.Storage.Ballots.{
  remove_pending_ballots_by_process, ballots_of, verified_votes_by, batch_size_by,
}
use davinci_node.Storage.Verified.{
  remove_verified_ballots_by_process, verified_entries, remove_verified_entries, VerifiedEntries,
  Tally, add_to_tally, is_status, remove_verified_ballot, uncount_verified,
}
use davinci_node.Storage.Batches.{
  remove_aggregator_batches_by_process, queue_keys, drop_batches, vote_ids_of, counts_as,
  aggregated_votes_by,
}
use davinci_node.Storage.Transitions.{
  remove_state_transition_batches_by_process, artifact_key, drop_transitions, state_transitions_by,
}

unfoldable pub clean_ballots : List Ballot → Store → Store
unfolding delete_reservation release_locks
clean_ballots [] s = s
clean_ballots (b ∷ bs) s =
    let freed = delete_reservation ballot_queue (vote_id_bytes b.vote_id) s in
    let removed = record freed { ballots = delete (vote_id_bytes b.vote_id) freed.ballots } in
    clean_ballots bs (release_locks b.vote_id b.process_id b.address removed)

-- cleanPendingBallotsForProcess
unfoldable pub clean_pending_ballots_for_process : Env → ProcessId → Store → Store
unfolding ballots_of clean_ballots
clean_pending_ballots_for_process e p s =
    clean_ballots (ballots_of p (iterate e.strips (queue_prefix ballot_queue) [] s.ballots)) s

-- cleanVerifiedBallotsForProcess
unfoldable pub clean_verified_ballots_for_process : Env → ProcessId → Store → Store
unfolding verified_entries remove_verified_entries
clean_verified_ballots_for_process e p s = remove_verified_entries (verified_entries e p s) s

-- cleanAggregatorBatchesForProcess
unfoldable pub clean_aggregator_batches_for_process : Env → ProcessId → Store → Store
unfolding queue_keys drop_batches
clean_aggregator_batches_for_process e p s = drop_batches (queue_keys e batch_queue p s.batches) s

-- cleanStateTransitionsForProcess
unfoldable pub clean_state_transitions_for_process : Env → ProcessId → Store → Store
unfolding queue_keys drop_transitions
clean_state_transitions_for_process e p s =
    drop_transitions (queue_keys e transition_queue p s.transitions) s

-- "sta/"
abbrev pub artifact_prefix : Key
artifact_prefix = b's' ∷ b't' ∷ b'a' ∷ b'/' ∷ []

-- new(big.Int).SetBytes
unfoldable pub big_value : ℕ → Key → ℕ
big_value acc [] = acc
big_value acc (b ∷ bs) = big_value (acc * 256 + b) bs

unfoldable pub delete_artifacts :
    ProcessId → List Key → Table (Encoded TransitionArtifact) → Table (Encoded TransitionArtifact)
unfolding big_value
delete_artifacts p [] m = m
delete_artifacts p (k ∷ ks) m = delete_artifacts p ks (delete (artifact_key p (big_value 0 k)) m)

-- cleanStateTransitionArtifactsForProcess: the key handed out is read as the root.
unfoldable pub clean_state_transition_artifacts_for_process : Env → ProcessId → Store → Store
unfolding keys_of delete_artifacts
clean_state_transition_artifacts_for_process e p s = record s {
  transition_artifacts =
      delete_artifacts p (keys_of (iterate e.strips artifact_prefix p s.transition_artifacts))
        s.transition_artifacts;
}

-- CleanProcessStaleVotes; its steps fail only where the database does.
unfoldable pub clean_process_stale_votes : Env → ProcessId → Store → Store
clean_process_stale_votes e p s = remove_state_transition_batches_by_process e p (
    remove_aggregator_batches_by_process e p
      (remove_verified_ballots_by_process e p (remove_pending_ballots_by_process e p s)))

-- cleanupEndedProcess
unfoldable pub cleanup_ended_process : Env → ProcessId → Store → Store
unfolding clean_pending_ballots_for_process clean_verified_ballots_for_process
    clean_aggregator_batches_for_process clean_state_transitions_for_process
    clean_state_transition_artifacts_for_process mark_process_vote_ids_timeout
cleanup_ended_process e p s =
    (mark_process_vote_ids_timeout e p (
      clean_state_transition_artifacts_for_process e p (
        clean_state_transitions_for_process e p (
          clean_aggregator_batches_for_process e p
            (clean_verified_ballots_for_process e p (clean_pending_ballots_for_process e p s)))))).0

-- The statuses with which checkAndUpdateEndedProcesses leaves a process alone.
unfoldable pub is_closed : ProcessStatus → Bool
is_closed ended = true
is_closed results = true
is_closed canceled = true
is_closed _ = false

-- One round of the monitor.
unfoldable pub end_if_expired : Env → ProcessId → Store → Store
unfolding is_closed
end_if_expired e p s = elim (process p s) [
  | err x ↦ s
  | ok pr ↦
      if is_closed pr.status
      then s
      else if not (has_expired e.now pr)
      then s
      else let (s', outcome) = update_process p (set_status ended ∷ []) s in
        elim outcome [ err x ↦ s' | ok u ↦ cleanup_ended_process e p s' ]
]

unfoldable pub end_all_expired : Env → List ProcessId → Store → Store
unfolding end_if_expired
end_all_expired e [] s = s
end_all_expired e (p ∷ ps) s = end_all_expired e ps (end_if_expired e p s)

-- checkAndUpdateEndedProcesses
unfoldable pub check_and_update_ended_processes : Env → Store → Store
unfolding end_all_expired
check_and_update_ended_processes e s = elim (list_processes e s) [
  | err x ↦ s
  | ok ps ↦ end_all_expired e ps s
]
