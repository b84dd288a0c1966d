-- ===== src/Storage/Ballots.antt =====
-- The queue of pending ballots (storage/ballots.go).
pub mod Exclusion
pub mod Reserved
pub mod Verifying
use davinci_node.Common.{
  ℕ, ◌+◌, ◌-◌, ◌^◌, Bool, true, false, not, Option, none, some, List, [], ◌∷◌, ◌++◌, if◌then◌else◌,
}
use davinci_node.Word.{neg_int}
use davinci_node.Db.{Key, Table, insert, delete, is_member, iterate, key_eq, lookup}
use davinci_node.Storage.Types.{
  ProcessId, VoteId, vote_id_bytes, is_valid_process_id, Error, not_found, no_more_elements,
  nullifier_processing, address_processing, ballot_already_exists, nil_argument, decode_failed,
  encode_failed, write_failed, status_write_failed, invalid_process_id, Result, ok, err, Encoded,
  encoded, garbage, Ballot, VerifiedBallot, ProcessStatsUpdate, TypeStats,
}
use davinci_node.Storage.Store.{
  Env, Store, get_artifact, encoding_fails, setting_fails, committing_fails, status_fails,
}
use davinci_node.Storage.Reservations.{
  Queue, ballot_queue, queue_prefix, is_reserved, set_reservation, delete_reservation,
  is_vote_id_processing, lock_vote_id, release_vote_id, lock_address, release_address,
  store_address_info, release_locks,
}
use davinci_node.Storage.Stats.{update_process_stats}
use davinci_node.Storage.Status.{set_vote_id_status, is_done_value, status_key}
use davinci_node.Storage.Status.Code

abbrev pub pending_votes_by : ℕ → ProcessStatsUpdate
pending_votes_by n = record { type_stats = TypeStats.pending_votes; delta = n }

-- Ballot
unfoldable pub ballot : VoteId → Store → Result Ballot
ballot v s = get_artifact (vote_id_bytes v) s.ballots

-- What PushPendingBallot does once the ballot is written, up to the status. A failed update of the
-- statistics is only logged.
unfoldable pub stored_ballot : Env → Ballot → Store → Store
unfolding store_address_info
stored_ballot e b s =
    let stored = record s { ballots = insert (vote_id_bytes b.vote_id) (encoded b) s.ballots } in
    let counted = (update_process_stats e b.process_id (pending_votes_by 1 ∷ []) stored).0 in
    store_address_info b.vote_id (record { process_id = b.process_id; address = b.address }) counted

-- The status at the end of PushPendingBallot. Its write may fail, unless the vote is done, when there is
-- none.
unfoldable pub after_push : Env → Ballot → Store → Store × Result (Unit {0})
unfolding stored_ballot
after_push e b s =
    let pushed = stored_ballot e b s in
    let is_done = is_done_value (lookup (status_key b.process_id b.vote_id) pushed.statuses) in
    let with_status = set_vote_id_status b.process_id b.vote_id Code.pending pushed in
    elim (e.ballot_write b) [
      | status_fails ↦ if is_done then (pushed, ok tt) else (pushed, err status_write_failed)
      | _ ↦ (with_status, ok tt)
    ]

-- From the encoding of the ballot on; each error up to the commit of the ballot releases both locks.
unfoldable pub write_ballot : Env → Ballot → Store → Store × Result (Unit {0})
unfolding after_push
write_ballot e b s =
    let released = release_address b.process_id b.address (release_vote_id b.vote_id s) in
    let present = is_member (vote_id_bytes b.vote_id) s.ballots in
    elim (e.ballot_write b) [
      | encoding_fails ↦ (released, err encode_failed)
      | setting_fails ↦
          if present then (released, err ballot_already_exists) else (released, err write_failed)
      | committing_fails ↦
          if present then (released, err ballot_already_exists) else (released, err write_failed)
      | _ ↦ if present then (released, err ballot_already_exists) else after_push e b s
    ]

-- PushPendingBallot
unfoldable pub push_pending_ballot : Env → Ballot → Store → Store × Result (Unit {0})
unfolding write_ballot lock_vote_id
push_pending_ballot e b s =
    if is_vote_id_processing b.vote_id s
    then (s, err nullifier_processing)
    else let (locked, acquired) = lock_address b.process_id b.address s in
      if not acquired
      then (s, err address_processing)
      else write_ballot e b (lock_vote_id b.vote_id locked)

-- The first entry that is not reserved.
unfoldable pub first_free {ℓ} : {V : Type ℓ} → Queue → Store → List (Key × V) → Option (Key × V)
first_free q s [] = none
first_free q s ((k, v) ∷ rest) = if is_reserved q k s then first_free q s rest else some (k, v)

-- NextPendingBallot
unfoldable pub next_pending_ballot : Env → Store → Store × Result (Ballot × VoteId)
unfolding first_free queue_prefix
next_pending_ballot e s =
    elim (first_free ballot_queue s (iterate e.strips (queue_prefix ballot_queue) [] s.ballots)) [
      | none ↦ (s, err no_more_elements)
      | some (k, value) ↦ elim value [
        | garbage ↦ (s, err decode_failed)
        | encoded b ↦
            let (s', reserved) = set_reservation e ballot_queue (vote_id_bytes b.vote_id) s in
            elim reserved [ err x ↦ (s, err no_more_elements) | ok u ↦ (s', ok (b, b.vote_id)) ]
      ]
    ]

-- removePendingBallot: a failed update of the statistics is only logged.
unfoldable pub drop_pending_ballot : Env → ProcessId → VoteId → Store → Store
unfolding delete_reservation
drop_pending_ballot e p v s =
    let freed = delete_reservation ballot_queue (vote_id_bytes v) s in
    let removed = record freed { ballots = delete (vote_id_bytes v) freed.ballots } in
    (update_process_stats e p (pending_votes_by (neg_int 1) ∷ []) removed).0

-- RemovePendingBallot
unfoldable pub remove_pending_ballot : Env → ProcessId → VoteId → Store → Store
unfolding drop_pending_ballot ballot
remove_pending_ballot e p v s =
    let dropped = drop_pending_ballot e p v s in
    let unlocked : Store = elim (ballot v s) [
      | err x ↦ dropped
      | ok b ↦ release_locks b.vote_id b.process_id b.address dropped
    ] in
    set_vote_id_status p v Code.error unlocked

-- The ballots of a process among the entries of the queue.
unfoldable pub ballots_of : ProcessId → List (Key × Encoded Ballot) → List Ballot
ballots_of p [] = []
ballots_of p ((k, garbage) ∷ rest) = ballots_of p rest
ballots_of p ((k, encoded b) ∷ rest) =
    if key_eq b.process_id p then b ∷ ballots_of p rest else ballots_of p rest

unfoldable pub drop_ballots : Env → ProcessId → List Ballot → Store → Store
unfolding drop_pending_ballot release_locks
drop_ballots e p [] s = s
drop_ballots e p (b ∷ bs) s =
    drop_ballots e p bs
      (release_locks b.vote_id b.process_id b.address (drop_pending_ballot e p b.vote_id s))

-- RemovePendingBallotsByProcess
unfoldable pub remove_pending_ballots_by_process : Env → ProcessId → Store → Store
unfolding ballots_of drop_ballots
remove_pending_ballots_by_process e p s =
    drop_ballots e p (ballots_of p (iterate e.strips (queue_prefix ballot_queue) [] s.ballots)) s

unfoldable pub count_free {ℓ} : {V : Type ℓ} → Queue → Store → List (Key × V) → ℕ
count_free q s [] = 0
count_free q s ((k, v) ∷ rest) =
    let n = count_free q s rest in if is_reserved q k s then n else n + 1

-- CountPendingBallots
unfoldable pub count_pending_ballots : Env → Store → ℕ
unfolding count_free
count_pending_ballots e s =
    count_free ballot_queue s (iterate e.strips (queue_prefix ballot_queue) [] s.ballots)

-- ReleasePendingBallotReservation
unfoldable pub release_pending_ballot_reservation : VoteId → Store → Store
unfolding delete_reservation
release_pending_ballot_reservation v s = delete_reservation ballot_queue (vote_id_bytes v) s

abbrev pub verified_votes_by : ℕ → ProcessStatsUpdate
verified_votes_by n = record { type_stats = TypeStats.verified_votes; delta = n }

abbrev pub batch_size_by : ℕ → ProcessStatsUpdate
batch_size_by n = record { type_stats = TypeStats.current_batch_size; delta = n }

-- MarkBallotVerified once the process is known: the ballot is stored among the verified ones and its
-- reservation removed; `found` tells whether there is a pending ballot to remove.
unfoldable pub store_verified :
    Env → VoteId → ProcessId → VerifiedBallot → Bool → Store → Store × Result (Unit {0})
unfolding delete_reservation
store_verified e v p vb found s =
    let moved = delete_reservation ballot_queue (vote_id_bytes v) (record s {
      verified = insert (p ++ vote_id_bytes v) (encoded (record vb { process_id = p })) s.verified;
    }) in
    let removed =
      if found then record moved { ballots = delete (vote_id_bytes v) moved.ballots } else moved in
    let updates =
      verified_votes_by 1
      ∷ batch_size_by 1
      ∷ (if found then pending_votes_by (neg_int 1) ∷ [] else []) in
    let (counted, outcome) = update_process_stats e p updates removed in
    elim outcome [
      | err x ↦ (counted, err x)
      | ok u ↦ (set_vote_id_status p v Code.verified counted, ok tt)
    ]

-- MarkBallotVerified; the nil pointer is `none`.
unfoldable pub mark_ballot_verified :
    Env → VoteId → Option VerifiedBallot → Store → Store × Result (Unit {0})
unfolding store_verified ballot
mark_ballot_verified e v none s = (s, err nil_argument)
mark_ballot_verified e v (some vb) s = elim (ballot v s) [
  | ok b ↦ store_verified e v b.process_id vb true s
  | err x ↦ elim x [
    | not_found ↦
        if not (is_valid_process_id vb.process_id)
        then (s, err invalid_process_id)
        else store_verified e v vb.process_id vb false s
    | y ↦ (s, err y)
  ]
]
