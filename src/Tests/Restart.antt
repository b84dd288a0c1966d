-- ===== src/Tests/Restart.antt =====
-- What a restart, the end of a process and the monitor do.
use davinci_node.Common.{All, [], false, if◌then◌else◌, refl, some, true, ◌&&◌, ◌++◌, ◌∷◌, ◌≡◌}
use davinci_node.Db.{
  delete, has_prefix, insert, is_member, iterate, key_eq, key_lt, lookup, seen_key, trim_prefix,
}
use davinci_node.Db.Order.{IsOrdered}
use davinci_node.Storage.Cleanup.{check_and_update_ended_processes}
use davinci_node.Storage.Cleanup.Monitor.{
  behind_process_prefix, hands_out_ids, list_processes-refused,
}
use davinci_node.Storage.Processes.{list_processes}
use davinci_node.Storage.Recovery.{
  all_keys, clean_all_reservations, delete_reservations, for_queues, recover, recover_batches,
  recover_nullifiers, recover_verified, relock, relock_all, reservations_of, seen_reservation,
}
use davinci_node.Storage.Recovery.Cleared.{hands_out_reservations, recover-unreserved}
use davinci_node.Storage.Recovery.Locked.{
  IsLocked, recover-IsLocked_batches, recover-IsLocked_verified,
}
use davinci_node.Storage.Reservations.{
  ballot_queue, delete_reservation, is_reserved, lock_address, lock_vote_id, queue_prefix,
  reservation_key, store_address_info,
}
use davinci_node.Storage.Status.Code
use davinci_node.Storage.Status.{mark_process_vote_ids_timeout, status_key}
use davinci_node.Storage.Status.Timeouts.{
  hands_out_suffixes, is_open_value, mark_process_vote_ids_timeout-lookup,
  mark_process_vote_ids_timeout-missed,
}
use davinci_node.Storage.Store.{Env, Store}
use davinci_node.Storage.Types.{bad_length, encoded, err, ok}
use davinci_node.Tests.Data.{
  as_pair, batch, busy, election, election_process, env, second_vote, unlucky, verified_of,
  vote_key,
}
use davinci_node.Word.Bytes.{int_to_bytes}

abbrev restarted : Store
restarted = (recover env busy).0

restart_succeeds : recover env busy ≡ (restarted, ok tt)
unfolding all_keys clean_all_reservations delete delete_reservation delete_reservations for_queues
    has_prefix insert is_member iterate key_eq key_lt lock_address lock_vote_id lookup queue_prefix
    recover recover_batches recover_nullifiers recover_verified relock relock_all reservation_key
    reservations_of seen_key seen_reservation store_address_info trim_prefix
restart_succeeds = as_pair (recover env busy) (ok tt) refl

verified_there :
    lookup (election ++ vote_key 2) busy.verified ≡ some (encoded (verified_of second_vote 900))
unfolding key_eq lookup
verified_there = refl

recover-IsLocked_verified_example : IsLocked second_vote election 900 restarted
recover-IsLocked_verified_example =
    recover-IsLocked_verified env (election ++ vote_key 2) (verified_of second_vote 900) busy
      restarted verified_there restart_succeeds

batch_there : lookup (election ++ 200 ∷ []) busy.batches ≡ some (encoded batch)
unfolding key_eq lookup
batch_there = refl

recover-IsLocked_batches_example :
    All (λ b. IsLocked b.vote_id election b.address restarted) batch.ballots
recover-IsLocked_batches_example =
    recover-IsLocked_batches env (election ++ 200 ∷ []) batch busy restarted batch_there
      restart_succeeds

reservations_whole : hands_out_reservations env.strips ballot_queue busy.reservations ≡ true
unfolding hands_out_reservations has_prefix key_eq queue_prefix reservation_key seen_reservation
    trim_prefix
reservations_whole = refl

recover-unreserved_example : is_reserved ballot_queue (vote_key 1) restarted ≡ false
recover-unreserved_example =
    recover-unreserved env ballot_queue (vote_key 1) busy reservations_whole

statuses-IsOrdered : IsOrdered busy.statuses
unfolding key_lt
statuses-IsOrdered = ((refl, tt), (tt, tt))

suffixes : hands_out_suffixes env.strips election busy.statuses ≡ true
unfolding hands_out_suffixes has_prefix key_eq seen_key trim_prefix
suffixes = refl

mark_process_vote_ids_timeout-lookup_example :
    lookup (election ++ vote_key 2) (mark_process_vote_ids_timeout env election busy).0.statuses ≡ (
      if has_prefix election (election ++ vote_key 2)
        && is_open_value (lookup (election ++ vote_key 2) busy.statuses)
      then some (int_to_bytes Code.timeout)
      else lookup (election ++ vote_key 2) busy.statuses)
mark_process_vote_ids_timeout-lookup_example =
    mark_process_vote_ids_timeout-lookup env election (election ++ vote_key 2) busy
      statuses-IsOrdered suffixes

-- A database that hands out whole keys.
abbrev whole_keys : Env
whole_keys = record env { strips = false }

mark_process_vote_ids_timeout-missed_example :
    lookup
      (status_key election second_vote)
      (mark_process_vote_ids_timeout whole_keys election busy).0.statuses
    ≡ lookup (status_key election second_vote) busy.statuses
mark_process_vote_ids_timeout-missed_example =
    mark_process_vote_ids_timeout-missed whole_keys election election second_vote busy refl refl
      refl

ids_whole : hands_out_ids env.strips busy.processes ≡ true
unfolding hands_out_ids has_prefix key_eq seen_key trim_prefix
ids_whole = refl

-- The storage with one more process.
abbrev with_unlucky : Store
with_unlucky = record busy {
  processes =
      (election, encoded election_process)
      ∷ (behind_process_prefix unlucky, encoded election_process)
      ∷ [];
}

unlucky_there :
    lookup (behind_process_prefix unlucky) with_unlucky.processes ≡ some (encoded election_process)
unfolding key_eq lookup
unlucky_there = refl

list_processes-refused_example :
    (list_processes env with_unlucky ≡ err bad_length)
    × (check_and_update_ended_processes env with_unlucky ≡ with_unlucky)
list_processes-refused_example =
    list_processes-refused env unlucky (encoded election_process) with_unlucky refl refl
      unlucky_there
