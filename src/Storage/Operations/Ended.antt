-- ===== src/Storage/Operations/Ended.antt =====
-- The monitor of ended processes keeps what the end of a process and the time-out of its votes keep.
use davinci_node.Common.{◌≡◌, List, [], ◌∷◌, arith, length, ◌==◌, inl, inr, Bool-cases}
use davinci_node.Db.{Key, iterate}
use davinci_node.Storage.Types.{
  ProcessId, process_id_len, ok, Result-cases, Ballot, encoded, garbage, ended,
}
use davinci_node.Storage.Store.{Env, Store}
use davinci_node.Storage.Reservations.{queue_prefix, ballot_queue, batch_queue, transition_queue}
use davinci_node.Storage.Processes.{
  update_process, set_status, list_processes, to_process_ids, bytes_to_process_id, keys_of,
  process_prefix,
}
use davinci_node.Storage.Status.{mark_process_vote_ids_timeout}
use davinci_node.Storage.Ballots.{ballots_of}
use davinci_node.Storage.Verified.{VerifiedEntries, remove_verified_entries, verified_entries}
use davinci_node.Storage.Batches.{drop_batches, queue_keys, mark_aggregator_batch_done}
use davinci_node.Storage.Transitions.{drop_transitions, remove_state_transition_batch}
use davinci_node.Storage.Cleanup.{
  clean_ballots, clean_pending_ballots_for_process, clean_verified_ballots_for_process,
  clean_aggregator_batches_for_process, clean_state_transitions_for_process,
  clean_state_transition_artifacts_for_process, cleanup_ended_process, end_if_expired,
  end_all_expired, check_and_update_ended_processes,
}
use davinci_node.Storage.Invariant.{Test, Holds}

-- A test that the two writes of the monitor keep, at the time and on the database of `e`.
pub record EndRule (t : Test) (e : Env) : Type 0 where
  pub ends :
      (p : ProcessId) (s : Store)
      → Holds t s
      → Holds t (update_process p (set_status ended ∷ []) s).0
  pub timeouts :
      (p : ProcessId) (s : Store)
      → length p ≡ process_id_len
      → Holds t s
      → Holds t (mark_process_vote_ids_timeout e p s).0

abbrev AllSized : List ProcessId → Type 0
AllSized [] = Unit
AllSized (p ∷ ps) = (length p ≡ process_id_len) × AllSized ps

to_process_ids-sized :
    (ks : List Key) (ps : List ProcessId) → to_process_ids ks ≡ ok ps → AllSized ps
unfolding to_process_ids bytes_to_process_id
to_process_ids-sized [] [] h = tt
to_process_ids-sized [] (p ∷ ps) h = ground arith
to_process_ids-sized (k ∷ ks) ps h = elim (Result-cases (to_process_ids ks)) [
  | inr (x, failed) ↦ ground (arith, failed)
  | inl (qs, rest) ↦ elim (Bool-cases (length k == process_id_len)) [
    | inr differ ↦ ground (arith, differ)
    | inl sized ↦
        let same : k ∷ qs ≡ ps = ground (arith, rest, sized) in
        rw (← same) (ground arith, to_process_ids-sized ks qs rest)
  ]
]

module _ (t : Test) (e : Env) (r : EndRule t e) where
  clean_ballots-Holds : (bs : List Ballot) (s : Store) → Holds t s → Holds t (clean_ballots bs s)
  unfolding clean_ballots
  clean_ballots-Holds [] s h = h
  clean_ballots-Holds (b ∷ bs) s h = clean_ballots-Holds bs _ h

  remove_verified_entries-Holds :
      (l : VerifiedEntries) (s : Store) → Holds t s → Holds t (remove_verified_entries l s)
  unfolding remove_verified_entries
  remove_verified_entries-Holds [] s h = h
  remove_verified_entries-Holds ((k, garbage) ∷ l) s h = remove_verified_entries-Holds l _ h
  remove_verified_entries-Holds ((k, encoded vb) ∷ l) s h = remove_verified_entries-Holds l _ h

  drop_batches-Holds : (ks : List Key) (s : Store) → Holds t s → Holds t (drop_batches ks s)
  unfolding drop_batches
  drop_batches-Holds [] s h = h
  drop_batches-Holds (k ∷ ks) s h = drop_batches-Holds ks (mark_aggregator_batch_done k s) h

  drop_transitions-Holds : (ks : List Key) (s : Store) → Holds t s → Holds t (drop_transitions ks s)
  unfolding drop_transitions
  drop_transitions-Holds [] s h = h
  drop_transitions-Holds (k ∷ ks) s h =
      drop_transitions-Holds ks (remove_state_transition_batch k s) h

  cleanup_ended_process-Holds :
      (p : ProcessId) (s : Store)
      → length p ≡ process_id_len
      → Holds t s
      → Holds t (cleanup_ended_process e p s)
  unfolding cleanup_ended_process clean_pending_ballots_for_process
      clean_verified_ballots_for_process clean_aggregator_batches_for_process
      clean_state_transitions_for_process clean_state_transition_artifacts_for_process
  cleanup_ended_process-Holds p s sized h =
      let s1 = clean_pending_ballots_for_process e p s in
      let s2 = clean_verified_ballots_for_process e p s1 in
      let s3 = clean_aggregator_batches_for_process e p s2 in
      let s4 = clean_state_transitions_for_process e p s3 in
      let s5 = clean_state_transition_artifacts_for_process e p s4 in
      r.timeouts p s5 sized (
        drop_transitions-Holds (queue_keys e transition_queue p s3.transitions) s3 (
          drop_batches-Holds (queue_keys e batch_queue p s2.batches) s2 (
            remove_verified_entries-Holds (verified_entries e p s1) s1 (
              clean_ballots-Holds
                (ballots_of p (iterate e.strips (queue_prefix ballot_queue) [] s.ballots)) s h))))

  end_if_expired-Holds :
      (p : ProcessId) (s : Store)
      → length p ≡ process_id_len
      → Holds t s
      → Holds t (end_if_expired e p s)
  unfolding end_if_expired
  end_if_expired-Holds p s sized h =
      let ended_store = (update_process p (set_status ended ∷ []) s).0 in
      let kept = r.ends p s h in
      ground (arith, kept, cleanup_ended_process-Holds p ended_store sized kept)

  end_all_expired-Holds :
      (ps : List ProcessId) (s : Store) → AllSized ps → Holds t s → Holds t (end_all_expired e ps s)
  unfolding end_all_expired
  end_all_expired-Holds [] s sized h = h
  end_all_expired-Holds (p ∷ ps) s sized h =
      end_all_expired-Holds ps (end_if_expired e p s) sized.1 (end_if_expired-Holds p s sized.0 h)

  pub check_and_update_ended_processes-Holds :
      (s : Store) → Holds t s → Holds t (check_and_update_ended_processes e s)
  unfolding check_and_update_ended_processes list_processes
  check_and_update_ended_processes-Holds s h = elim (Result-cases (list_processes e s)) [
    | inr (x, failed) ↦ ground arith
    | inl (ps, listed) ↦
        let kept =
          end_all_expired-Holds ps s
            (to_process_ids-sized (keys_of (iterate e.strips process_prefix [] s.processes)) ps
              listed)
            h in
        ground (arith, kept)
  ]
