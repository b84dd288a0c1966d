-- ===== src/Storage/Batches.antt =====
-- The queue of aggregated batches (storage/ballots_batches.go).
pub mod Handout
pub mod Cooldown
use davinci_node.Common.{
  ℕ, zero, suc, ◌+◌, ◌*◌, ◌%◌, ◌^◌, min, Bool, true, false, Option, none, some, List, [], ◌∷◌, ◌++◌,
  ltb, ◌==◌, if◌then◌else◌,
}
use davinci_node.Word.{int_mod, add_int, sub_int, neg_int, is_neg, int_of_length}
use davinci_node.Db.{Key, Table, insert, delete, is_member, iterate}
use davinci_node.Storage.Types.{
  ProcessId, VoteId, not_found, no_more_elements, key_already_exists, decode_failed, Error, Result,
  ok, err, Encoded, encoded, garbage, AggregatorBallot, AggregatorBallotBatch, ProcessStatsUpdate,
  TypeStats,
}
use davinci_node.Storage.Store.{Env, Store, get_artifact}
use davinci_node.Storage.Reservations.{
  Queue, batch_queue, queue_prefix, is_reserved, set_reservation, delete_reservation,
  release_vote_id,
}
use davinci_node.Storage.Stats.{update_process_stats}
use davinci_node.Storage.Status.{vote_id_status, set_vote_id_status, set_vote_id_statuses}
use davinci_node.Storage.Status.Code
use davinci_node.Storage.Ballots.{batch_size_by}
use davinci_node.Storage.Processes.{keys_of}
use davinci_node.Storage.Verified.{with_full_keys}

unfoldable pub vote_ids_of : List AggregatorBallot → List VoteId
vote_ids_of [] = []
vote_ids_of (b ∷ bs) = b.vote_id ∷ vote_ids_of bs

abbrev pub aggregated_votes_by : ℕ → ProcessStatsUpdate
aggregated_votes_by n = record { type_stats = TypeStats.aggregated_votes; delta = n }

abbrev pub last_batch_size_is : ℕ → ProcessStatsUpdate
last_batch_size_is n = record { type_stats = TypeStats.last_batch_size; delta = n }

-- pushAggregatorBatch
unfoldable pub push_aggregator_batch :
    Env → AggregatorBallotBatch → Store → Store × Result (Unit {0})
unfolding vote_ids_of
push_aggregator_batch e b s =
    let stored = record s {
      batches = insert (b.process_id ++ e.batch_hash b) (encoded b) s.batches;
    } in
    let size = int_of_length b.ballots in
    let (counted, outcome) =
      update_process_stats e b.process_id
        (aggregated_votes_by size ∷ last_batch_size_is size ∷ batch_size_by (neg_int size) ∷ [])
        stored in
    elim outcome [
      | err x ↦ (counted, err x)
      | ok u ↦
          (set_vote_id_statuses b.process_id (vote_ids_of b.ballots) Code.aggregated counted, ok tt)
    ]

-- The keys of a queue under a process, as they are handed out and completed.
unfoldable pub queue_keys {ℓ} : {V : Type ℓ} → Env → Queue → ProcessId → Table V → List Key
unfolding with_full_keys keys_of queue_prefix
queue_keys e q p m = keys_of (with_full_keys p (iterate e.strips (queue_prefix q) p m))

-- MarkAggregatorBatchDone, and the body of the loop of RemoveAggregatorBatchesByProcess.
unfoldable pub mark_aggregator_batch_done : Key → Store → Store
unfolding delete_reservation
mark_aggregator_batch_done k s =
    let freed = delete_reservation batch_queue k s in
    record freed { batches = delete k freed.batches }

unfoldable pub drop_batches : List Key → Store → Store
unfolding mark_aggregator_batch_done
drop_batches [] s = s
drop_batches (k ∷ ks) s = drop_batches ks (mark_aggregator_batch_done k s)

-- RemoveAggregatorBatchesByProcess
unfoldable pub remove_aggregator_batches_by_process : Env → ProcessId → Store → Store
unfolding queue_keys drop_batches
remove_aggregator_batches_by_process e p s = drop_batches (queue_keys e batch_queue p s.batches) s

-- Whether a vote counts as aggregated: its status reads so, or cannot be read.
abbrev pub counts_as : ℕ → Result ℕ → ℕ
counts_as code (ok status) = if status == code then 1 else 0
counts_as code (err x) = 1

-- The loop of MarkAggregatorBatchFailed, with the count of the votes that were aggregated.
unfoldable pub fail_aggregated : Env → ProcessId → List VoteId → ℕ → Store → Store × ℕ
unfolding release_vote_id
fail_aggregated e p [] count s = (s, count)
fail_aggregated e p (v ∷ vs) count s =
    fail_aggregated e p vs (count + counts_as Code.aggregated (vote_id_status e p v s))
      (set_vote_id_status p v Code.error (release_vote_id v s))

-- MarkAggregatorBatchFailed
unfoldable pub mark_aggregator_batch_failed : Env → Key → Store → Store × Result (Unit {0})
unfolding mark_aggregator_batch_done
mark_aggregator_batch_failed e k s = elim (get_artifact k s.batches) [
  | err x ↦ (s, err x)
  | ok b ↦
      let (failed, count) = fail_aggregated e b.process_id (vote_ids_of b.ballots) 0 s in
      let counted =
        (update_process_stats e b.process_id
          (aggregated_votes_by (neg_int count) ∷ batch_size_by count ∷ []) failed).0 in
      (mark_aggregator_batch_done k (if count == 0 then failed else counted), ok tt)
]

-- `1 << uint(n)` on an int: 0 from 64 on.
abbrev shift_one : ℕ → ℕ
shift_one n = if ltb n 64 then 2 ^ n else 0

-- min(30*(1<<uint(attempts-1)), 300), a signed minimum.
unfoldable pub cooldown_seconds : ℕ → ℕ
cooldown_seconds attempts =
    let backoff = 30 * shift_one (sub_int attempts 1) % int_mod in
    if is_neg backoff then backoff else min backoff 300

-- time.Since(last) < cooldown, in whole seconds; a negative cooldown is never longer.
unfoldable pub in_cooldown : ℕ → AggregatorBallotBatch → Bool
unfolding cooldown_seconds
in_cooldown now b = elim b.last_attempt_time [
  | none ↦ false
  | some last ↦
      let c = cooldown_seconds b.attempts in if is_neg c then false else ltb now (last + c)
]

-- The callback of NextAggregatorBatch: the first batch that is not reserved, decodes, and is not in
-- its cooldown.
unfoldable pub first_batch :
    ℕ → Store → List (Key × Encoded AggregatorBallotBatch) → Option (Key × AggregatorBallotBatch)
unfolding in_cooldown
first_batch now s [] = none
first_batch now s ((k, garbage) ∷ rest) = first_batch now s rest
first_batch now s ((k, encoded b) ∷ rest) =
    let next = first_batch now s rest in
    if is_reserved batch_queue k s then next else if in_cooldown now b then next else some (k, b)

-- NextAggregatorBatch
unfoldable pub next_aggregator_batch :
    Env → ProcessId → Store → Store × Result (AggregatorBallotBatch × Key)
unfolding first_batch with_full_keys queue_prefix
next_aggregator_batch e p s =
    elim (first_batch e.now s
      (with_full_keys p (iterate e.strips (queue_prefix batch_queue) p s.batches))) [
        | none ↦ (s, err no_more_elements)
        | some (k, b) ↦
            let (s', reserved) = set_reservation e batch_queue k s in
            elim reserved [ err x ↦ (s, err no_more_elements) | ok u ↦ (s', ok (b, k)) ]
      ]

-- MarkAggregatorBatchPending: one pending batch for a process.
unfoldable pub mark_aggregator_batch_pending :
    AggregatorBallotBatch → Store → Store × Result (Unit {0})
mark_aggregator_batch_pending b s =
    if is_member b.process_id s.pending_batches
    then (s, err key_already_exists)
    else (record s { pending_batches = insert b.process_id (encoded b) s.pending_batches }, ok tt)

-- pendingAggregatorBatch
unfoldable pub pending_aggregator_batch : ProcessId → Store → Result AggregatorBallotBatch
pending_aggregator_batch p s = get_artifact p s.pending_batches

-- releasePendingAggregatorBatch
unfoldable pub release_pending_aggregator_batch : ProcessId → Store → Store
release_pending_aggregator_batch p s = record s { pending_batches = delete p s.pending_batches }
