-- ===== src/Tests/Handouts.antt =====
-- What the queues hand out, and how a failed transition returns to them.
use davinci_node.Common.{
  All, List, [], false, length, refl, some, true, ◌++◌, ◌+◌, ◌^◌, ◌∷◌, ◌≡◌, ◌≢◌, ◌≤◌,
}
use davinci_node.Db.{
  Key, delete, has_prefix, insert, is_member, iterate, key_eq, key_lt, lookup, seen_key,
  trim_prefix,
}
use davinci_node.Db.Order.{IsOrdered}
use davinci_node.Storage.Ballots.{first_free, next_pending_ballot}
use davinci_node.Storage.Ballots.Reserved.{next_pending_ballot_twice}
use davinci_node.Storage.Batches.{
  cooldown_seconds, first_batch, in_cooldown, next_aggregator_batch, pending_aggregator_batch,
  push_aggregator_batch, release_pending_aggregator_batch, vote_ids_of,
}
use davinci_node.Storage.Batches.Handout.{next_aggregator_batch-held}
use davinci_node.Storage.Processes.{
  has_expired, is_ready, process, process_exists, process_is_accepting_votes,
  process_is_on_chain_alive,
}
use davinci_node.Storage.Reservations.{
  batch_queue, delete_reservation, is_reserved, queue_prefix, reservation_key, set_reservation,
  verified_queue,
}
use davinci_node.Storage.Retry.{
  attempts_exhausted, drop_failed, keep_valid, mark_state_transition_batch_failed, repush,
  retry_if_accepting, retry_pending,
}
use davinci_node.Storage.Retry.Bounded.{Requeued, mark_state_transition_batch_failed-Requeued}
use davinci_node.Storage.Stats.{
  add_pending_votes, apply_update, apply_updates, or_zero, total_pending_ballots, total_stats,
  update_process_stats,
}
use davinci_node.Storage.Status.{
  is_done_value, set_vote_id_status, set_vote_id_statuses, write_status,
}
use davinci_node.Storage.Store.{Store, get_artifact}
use davinci_node.Storage.Transitions.{
  artifact_key, big_bytes, pending_txs, prune_pending_tx, remove_artifact_of,
  remove_state_transition_batch,
}
use davinci_node.Storage.Types.{
  AggregatorBallotBatch, VerifiedBallot, encoded, is_valid_process_id, is_zero, ok, vote_id_bytes,
}
use davinci_node.Storage.Verified.{
  ballots_of_pulled, contains, full_key, keys_of_pulled, pull_entries, pull_verified_ballots,
  reserve_pulled, verified_entries, with_full_keys,
}
use davinci_node.Storage.Verified.Pull.{pull_verified_ballots-held}
use davinci_node.Storage.Verified.Pulled.{AddressesDiffer, AreFree, hands_out_whole}
use davinci_node.Tests.Data.{
  as_pair, ballot_of, batch, busy, election, env, first_vote, second_vote, verified_of, vote_key,
  waiting,
}
use davinci_node.Word.Bytes.{be_bytes, bytes_to_int, int_to_bytes, le_bytes, le_value}

abbrev handed_out : Store
handed_out = (next_pending_ballot env waiting).0

first_call :
    next_pending_ballot env waiting ≡ (handed_out, ok (ballot_of first_vote 900, first_vote))
unfolding be_bytes first_free get_artifact has_prefix insert is_member is_reserved iterate key_eq
    key_lt lookup next_pending_ballot process process_exists queue_prefix reservation_key seen_key
    set_reservation trim_prefix vote_id_bytes
first_call =
    as_pair (next_pending_ballot env waiting) (ok (ballot_of first_vote 900, first_vote)) refl

abbrev handed_out_twice : Store
handed_out_twice = (next_pending_ballot env handed_out).0

second_call :
    next_pending_ballot env handed_out
    ≡ (handed_out_twice, ok (ballot_of second_vote 901, second_vote))
unfolding be_bytes first_free get_artifact has_prefix insert is_member is_reserved iterate key_eq
    key_lt lookup next_pending_ballot process process_exists queue_prefix reservation_key seen_key
    set_reservation trim_prefix vote_id_bytes
second_call =
    as_pair (next_pending_ballot env handed_out) (ok (ballot_of second_vote 901, second_vote)) refl

next_pending_ballot_twice_example : second_vote ≢ first_vote
next_pending_ballot_twice_example =
    next_pending_ballot_twice env env waiting handed_out handed_out_twice (ballot_of first_vote 900)
      (ballot_of second_vote 901) first_vote second_vote first_call second_call

-- Two of the three verified ballots: the second is of the voter of the first.
abbrev pulled_keys : List Key
pulled_keys = (election ++ vote_key 1) ∷ (election ++ vote_key 3) ∷ []

abbrev pulled_ballots : List VerifiedBallot
pulled_ballots = verified_of first_vote 900 ∷ verified_of (2 ^ 63 + 3) 902 ∷ []

abbrev pulled : Store
pulled = (pull_verified_ballots env election 2 busy).0

pull_succeeds :
    pull_verified_ballots env election 2 busy ≡ (pulled, ok (pulled_ballots, pulled_keys))
unfolding ballots_of_pulled contains full_key has_prefix insert is_member is_reserved iterate key_eq
    key_lt keys_of_pulled lookup pull_entries pull_verified_ballots queue_prefix reservation_key
    reserve_pulled seen_key set_reservation trim_prefix verified_entries with_full_keys
pull_succeeds =
    as_pair (pull_verified_ballots env election 2 busy) (ok (pulled_ballots, pulled_keys)) refl

verified_whole :
    hands_out_whole env.strips (queue_prefix verified_queue) election busy.verified ≡ true
unfolding full_key hands_out_whole has_prefix key_eq queue_prefix seen_key trim_prefix
verified_whole = refl

verified-IsOrdered : IsOrdered busy.verified
unfolding key_lt
verified-IsOrdered = ((refl, (refl, tt)), ((refl, tt), (tt, tt)))

pull_verified_ballots-held_example :
    (length pulled_ballots ≤ 2)
    × AddressesDiffer [] pulled_ballots
    × AreFree busy pulled_keys pulled_ballots
    × All (λ k. is_reserved verified_queue k pulled ≡ true) pulled_keys
pull_verified_ballots-held_example =
    pull_verified_ballots-held env election 2 busy pulled pulled_ballots pulled_keys verified_whole
      verified-IsOrdered pull_succeeds

abbrev batch_key : Key
batch_key = election ++ 200 ∷ []

abbrev batch_taken : Store
batch_taken = (next_aggregator_batch env election busy).0

next_batch_succeeds : next_aggregator_batch env election busy ≡ (batch_taken, ok (batch, batch_key))
unfolding cooldown_seconds first_batch full_key has_prefix in_cooldown insert is_member is_reserved
    iterate key_eq key_lt lookup next_aggregator_batch queue_prefix reservation_key seen_key
    set_reservation trim_prefix with_full_keys
next_batch_succeeds = as_pair (next_aggregator_batch env election busy) (ok (batch, batch_key)) refl

batches_whole : hands_out_whole env.strips (queue_prefix batch_queue) election busy.batches ≡ true
unfolding full_key hands_out_whole has_prefix key_eq queue_prefix seen_key trim_prefix
batches_whole = refl

next_aggregator_batch-held_example :
    (get_artifact batch_key busy.batches ≡ ok batch)
    × (is_reserved batch_queue batch_key busy ≡ false)
    × (in_cooldown env.now batch ≡ false)
    × (is_reserved batch_queue batch_key batch_taken ≡ true)
next_aggregator_batch-held_example =
    next_aggregator_batch-held env election busy batch_taken batch batch_key batches_whole (tt, tt)
      next_batch_succeeds

-- The failed transition of the batch, which is tried again.
abbrev tried_again : AggregatorBallotBatch
tried_again = record batch { attempts = 2; last_attempt_time = some 5000 }

found_again :
    lookup batch_key
      (mark_state_transition_batch_failed env (election ++ 201 ∷ []) election busy).0.batches
    ≡ some (encoded tried_again)
unfolding add_pending_votes apply_update apply_updates artifact_key attempts_exhausted be_bytes
    big_bytes bytes_to_int delete delete_reservation drop_failed get_artifact has_expired insert
    int_to_bytes is_done_value is_ready is_valid_process_id is_zero keep_valid key_eq key_lt
    le_bytes le_value lookup mark_state_transition_batch_failed or_zero pending_aggregator_batch
    pending_txs process process_exists process_is_accepting_votes process_is_on_chain_alive
    prune_pending_tx push_aggregator_batch queue_prefix release_pending_aggregator_batch
    remove_artifact_of remove_state_transition_batch repush reservation_key retry_if_accepting
    retry_pending set_vote_id_status set_vote_id_statuses total_pending_ballots total_stats
    update_process_stats vote_id_bytes vote_ids_of write_status
found_again = refl

mark_state_transition_batch_failed-Requeued_example :
    Requeued env (election ++ 201 ∷ []) election batch_key tried_again busy
mark_state_transition_batch_failed-Requeued_example =
    mark_state_transition_batch_failed-Requeued env (election ++ 201 ∷ []) election busy batch_key
      tried_again found_again
