-- ===== src/Tests/Queues.antt =====
-- Ballots on their way: pushed, refused, verified, and the invariants over a run.
use davinci_node.Common.{
  ◌⊎◌, length, List, [], false, inr, refl, some, true, ◌++◌, ◌+◌, ◌^◌, ◌∷◌, ◌≡◌,
}
use davinci_node.Db.{
  delete, has_prefix, iterate, seen_key, trim_prefix, insert, is_member, key_eq, key_lt, lookup,
}
use davinci_node.Db.Order.{IsOrdered, is_above, is_ordered}
use davinci_node.Storage.Ballots.{
  after_push, ballot, mark_ballot_verified, push_pending_ballot, store_verified, write_ballot,
}
use davinci_node.Storage.Ballots.Exclusion.{
  IsInFlight, RefusedAsInFlight, push_pending_ballot-RefusedAsInFlight, push_pending_ballot-err,
}
use davinci_node.Storage.Ballots.Verifying.{mark_ballot_verified-moves}
use davinci_node.Storage.Operations.{
  Event, call, time_out, monitor, next, pull, push, react, restart, run, transition_done, update,
  verify,
}
use davinci_node.Storage.Operations.Balance.{balanced, pending_sum, run-balanced}
use davinci_node.Storage.Operations.Done.{fits, fits_run, run-done}
use davinci_node.Storage.Processes.{to_registered, process, process_exists}
use davinci_node.Storage.Reservations.{
  ballot_queue, delete_reservation, is_reserved, is_vote_id_processing, lock_address, lock_vote_id,
  queue_prefix, release_address, release_vote_id, reservation_key, store_address_info,
}
use davinci_node.Storage.Results.{push_verified_results}
use davinci_node.Storage.Results.Drained.{Publishes, entries_of, verified_results-drained}
use davinci_node.Storage.Stats.{
  add_pending_votes, apply_update, apply_updates, or_zero, total_pending_ballots, total_stats,
  update_process_stats,
}
use davinci_node.Storage.Status.Kept.{is_trimmed_again, is_trimmed_once}
use davinci_node.Storage.Status.{
  mark_process_vote_ids_timeout, status_key, write_timeouts, is_done_value, set_vote_id_status,
  write_status,
}
use davinci_node.Storage.Store.{Env, Store, get_artifact}
use davinci_node.Storage.Types.{
  ProcessId, VerifiedResults, ballot_already_exists, status_write_failed, err, is_valid_process_id,
  is_zero, not_found, ok, vote_id_bytes,
}
use davinci_node.Tests.Data.{
  as_pair, ballot_of, busy, election, unlucky, env, first_vote, quiet, second_vote, verified_of,
  waiting,
}
use davinci_node.Word.Bytes.{be_bytes, bytes_to_int, int_to_bytes, le_bytes, le_value}

abbrev pushed : Store
pushed = (push_pending_ballot env (ballot_of first_vote 900) quiet).0

push_succeeds : push_pending_ballot env (ballot_of first_vote 900) quiet ≡ (pushed, ok tt)
unfolding add_pending_votes after_push apply_update apply_updates be_bytes bytes_to_int delete
    get_artifact insert int_to_bytes is_done_value is_member is_valid_process_id
    is_vote_id_processing is_zero key_eq key_lt le_bytes le_value lock_address lock_vote_id lookup
    or_zero process process_exists push_pending_ballot release_address release_vote_id
    set_vote_id_status store_address_info total_pending_ballots total_stats update_process_stats
    vote_id_bytes write_ballot write_status
push_succeeds = as_pair (push_pending_ballot env (ballot_of first_vote 900) quiet) (ok tt) refl

-- A second ballot of the same voter.
push_pending_ballot-RefusedAsInFlight_example :
    RefusedAsInFlight env (ballot_of second_vote 900) pushed
push_pending_ballot-RefusedAsInFlight_example =
    push_pending_ballot-RefusedAsInFlight env env (ballot_of first_vote 900)
      (ballot_of second_vote 900) quiet pushed push_succeeds (inr (refl, refl))

-- The ballot of a vote that waits already.
abbrev pushed_again : Store
pushed_again = (push_pending_ballot env (ballot_of first_vote 903) waiting).0

push_fails :
    push_pending_ballot env (ballot_of first_vote 903) waiting
    ≡ (pushed_again, err ballot_already_exists)
unfolding add_pending_votes after_push apply_update apply_updates be_bytes bytes_to_int delete
    get_artifact insert int_to_bytes is_done_value is_member is_valid_process_id
    is_vote_id_processing is_zero key_eq key_lt le_bytes le_value lock_address lock_vote_id lookup
    or_zero process process_exists push_pending_ballot release_address release_vote_id
    set_vote_id_status store_address_info total_pending_ballots total_stats update_process_stats
    vote_id_bytes write_ballot write_status
push_fails =
    as_pair (push_pending_ballot env (ballot_of first_vote 903) waiting) (err ballot_already_exists)
      refl

push_pending_ballot-err_example :
    (pushed_again ≡ waiting)
    ⊎ ((ballot_already_exists ≡ status_write_failed)
        × IsInFlight (ballot_of first_vote 903) pushed_again
        × (pushed_again.statuses ≡ waiting.statuses))
push_pending_ballot-err_example =
    push_pending_ballot-err env (ballot_of first_vote 903) waiting pushed_again
      ballot_already_exists push_fails

abbrev verifying : Store
verifying = (mark_ballot_verified env first_vote (some (verified_of first_vote 900)) waiting).0

verify_succeeds :
    mark_ballot_verified env first_vote (some (verified_of first_vote 900)) waiting
    ≡ (verifying, ok tt)
unfolding add_pending_votes apply_update apply_updates ballot be_bytes bytes_to_int delete
    delete_reservation get_artifact insert int_to_bytes is_done_value is_valid_process_id is_zero
    key_eq key_lt le_bytes le_value lookup mark_ballot_verified or_zero process process_exists
    queue_prefix reservation_key set_vote_id_status store_verified total_pending_ballots total_stats
    update_process_stats vote_id_bytes write_status
verify_succeeds =
    as_pair (mark_ballot_verified env first_vote (some (verified_of first_vote 900)) waiting)
      (ok tt) refl

first_waits : ballot first_vote waiting ≡ ok (ballot_of first_vote 900)
unfolding ballot be_bytes get_artifact key_eq lookup process process_exists vote_id_bytes
first_waits = refl

mark_ballot_verified-moves_example :
    (get_artifact (election ++ vote_id_bytes first_vote) verifying.verified
      ≡ ok (verified_of first_vote 900))
    × (ballot first_vote verifying ≡ err not_found)
    × (is_reserved ballot_queue (vote_id_bytes first_vote) verifying ≡ false)
    × (verifying.processing_vote_ids ≡ waiting.processing_vote_ids)
    × (verifying.processing_addresses ≡ waiting.processing_addresses)
mark_ballot_verified-moves_example =
    mark_ballot_verified-moves env first_vote (ballot_of first_vote 900)
      (verified_of first_vote 900) waiting verifying first_waits verify_succeeds

-- Votes time out, a ballot is pushed, handed out, verified and pulled, and the node restarts.
abbrev day : List (Env × Event)
day =
    (env, time_out election)
    ∷ (env, monitor)
    ∷ (env, call (update election (to_registered true)))
    ∷ (env, call (push (ballot_of (2 ^ 63 + 4) 905)))
    ∷ (env, call next)
    ∷ (env, call (verify first_vote (some (verified_of first_vote 900))))
    ∷ (env, call (pull election 2))
    ∷ (env, call (transition_done (election ++ 201 ∷ []) election))
    ∷ (env, call restart)
    ∷ []

busy_balanced : balanced busy.processes busy.total_pending ≡ true
unfolding balanced is_above is_ordered key_lt or_zero pending_sum total_pending_ballots
busy_balanced = refl

run-balanced_example : balanced (run day busy).processes (run day busy).total_pending ≡ true
run-balanced_example = run-balanced day busy busy_balanced

busy_done : is_done_value (lookup (status_key election first_vote) busy.statuses) ≡ true
unfolding vote_id_bytes be_bytes bytes_to_int is_done_value key_eq le_value lookup
busy_done = refl

busy_statuses_ordered : is_ordered busy.statuses ≡ true
unfolding is_ordered is_above key_lt
busy_statuses_ordered = refl

day_fits : fits_run day busy ≡ true
unfolding fits_run fits react is_trimmed_once is_trimmed_again has_prefix
    mark_process_vote_ids_timeout write_timeouts iterate seen_key trim_prefix insert bytes_to_int
    int_to_bytes le_value le_bytes key_eq key_lt
day_fits = refl

election_sized : length election ≡ 31
election_sized = refl

run-done_example :
    is_done_value (lookup (status_key election first_vote) (run day busy).statuses) ≡ true
run-done_example =
    run-done election first_vote day busy election_sized busy_statuses_ordered day_fits busy_done

-- Two processes wait for their results to be published.
abbrev results_of : ProcessId → VerifiedResults
results_of p = record { process_id = p; content = 3 }

abbrev publishing : Store
publishing =
    (push_verified_results (results_of election)
      (push_verified_results (results_of (112 ∷ 47 ∷ unlucky)) quiet).0).0

both_held :
    publishing.verified_results
    ≡ entries_of (results_of election ∷ results_of (112 ∷ 47 ∷ unlucky) ∷ [])
unfolding push_verified_results lookup insert key_eq key_lt
both_held = refl

both-IsOrdered : IsOrdered (entries_of (results_of election ∷ results_of (112 ∷ 47 ∷ unlucky) ∷ []))
unfolding key_lt
both-IsOrdered = ((refl, tt), (tt, tt))

verified_results-drained_example :
    Publishes publishing
      (results_of election ∷ results_of (112 ∷ 47 ∷ unlucky) ∷ [])
      (record publishing { verified_results = [] })
verified_results-drained_example =
    verified_results-drained (results_of election ∷ results_of (112 ∷ 47 ∷ unlucky) ∷ []) publishing
      both_held both-IsOrdered
