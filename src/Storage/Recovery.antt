-- ===== src/Storage/Recovery.antt =====
-- What happens to reservations and locks when the storage opens, and to reservations as they grow
-- old (storage/storage.go, cleanAllReservations of storage/cleanup.go).
pub mod Cleared
pub mod Locked
use davinci_node.Common.{
  ℕ, ◌+◌, Bool, true, false, List, [], ◌∷◌, ◌++◌, ltb, if◌then◌else◌, length, drop,
}
use davinci_node.Db.{Key, Table, insert, delete, iterate, has_prefix, trim_prefix}
use davinci_node.Storage.Types.{
  ProcessId, decode_failed, Result, ok, err, Encoded, encoded, garbage, VerifiedBallot,
  AggregatorBallot, AggregatorBallotBatch,
}
use davinci_node.Storage.Store.{Env, Store}
use davinci_node.Storage.Reservations.{
  Queue, queue_prefix, verified_queue, batch_queue, reservation_queues, reservation_key,
  delete_reservation, lock_vote_id, lock_address, store_address_info,
}

-- "r/"
abbrev pub reservation_root : Key
reservation_root = b'r' ∷ b'/' ∷ []

-- The key that an iteration over the reservations of a queue hands out for the entry `k`.
unfoldable pub seen_reservation : Bool → Queue → Key → Key
unfolding queue_prefix
seen_reservation strips q k =
    trim_prefix (reservation_root ++ queue_prefix q)
      (if strips then drop (length (queue_prefix q)) k else reservation_root ++ k)

-- reservationDB(prefix).WriteTx().Iterate
unfoldable pub reservations_of : Bool → Queue → Table (Encoded ℕ) → List (Key × Encoded ℕ)
unfolding seen_reservation queue_prefix
reservations_of strips q [] = []
reservations_of strips q ((k, t) ∷ m) =
    let rest = reservations_of strips q m in
    if has_prefix (queue_prefix q) k then (seen_reservation strips q k, t) ∷ rest else rest

-- One transaction that deletes each key.
unfoldable pub delete_reservations : Queue → List Key → Store → Store
unfolding delete_reservation
delete_reservations q [] s = s
delete_reservations q (k ∷ ks) s = delete_reservations q ks (delete_reservation q k s)

unfoldable pub all_keys : List (Key × Encoded ℕ) → List Key
all_keys [] = []
all_keys ((k, t) ∷ rest) = k ∷ all_keys rest

-- cleanAllReservations
unfoldable pub clean_all_reservations : Env → Queue → Store → Store
unfolding reservations_of all_keys delete_reservations
clean_all_reservations e q s =
    delete_reservations q (all_keys (reservations_of e.strips q s.reservations)) s

-- The stale keys: older than `max_age` seconds, or with a value that does not decode.
unfoldable pub stale_keys : ℕ → ℕ → List (Key × Encoded ℕ) → List Key
stale_keys now max_age [] = []
stale_keys now max_age ((k, garbage) ∷ rest) = k ∷ stale_keys now max_age rest
stale_keys now max_age ((k, encoded t) ∷ rest) =
    let others = stale_keys now max_age rest in if ltb (t + max_age) now then k ∷ others else others

-- releaseStaleInPrefix
unfoldable pub release_stale_in_queue : Env → ℕ → Queue → Store → Store
unfolding reservations_of stale_keys delete_reservations
release_stale_in_queue e max_age q s =
    delete_reservations q (stale_keys e.now max_age (reservations_of e.strips q s.reservations)) s

unfoldable pub for_queues : (Queue → Store → Store) → List Queue → Store → Store
for_queues f [] s = s
for_queues f (q ∷ qs) s = for_queues f qs (f q s)

-- releaseStaleReservations
unfoldable pub release_stale_reservations : Env → ℕ → Store → Store
unfolding release_stale_in_queue for_queues
release_stale_reservations e max_age s =
    for_queues (release_stale_in_queue e max_age) reservation_queues s

-- The three writes with which a ballot in flight is locked again; an address that is locked already
-- stays so.
unfoldable pub relock : ℕ → ProcessId → ℕ → Store → Store
unfolding lock_vote_id lock_address store_address_info
relock v p a s =
    store_address_info v (record { process_id = p; address = a })
      (lock_address p a (lock_vote_id v s)).0

unfoldable pub recover_verified :
    List (Key × Encoded VerifiedBallot) → Store → Store × Result (Unit {0})
unfolding relock
recover_verified [] s = (s, ok tt)
recover_verified ((k, garbage) ∷ rest) s = (s, err decode_failed)
recover_verified ((k, encoded vb) ∷ rest) s =
    recover_verified rest (relock vb.vote_id vb.process_id vb.address s)

unfoldable pub relock_all : ProcessId → List AggregatorBallot → Store → Store
unfolding relock
relock_all p [] s = s
relock_all p (b ∷ bs) s = relock_all p bs (relock b.vote_id p b.address s)

unfoldable pub recover_batches :
    List (Key × Encoded AggregatorBallotBatch) → Store → Store × Result (Unit {0})
unfolding relock_all
recover_batches [] s = (s, ok tt)
recover_batches ((k, garbage) ∷ rest) s = (s, err decode_failed)
recover_batches ((k, encoded b) ∷ rest) s =
    recover_batches rest (relock_all b.process_id b.ballots s)

-- recoverNullifiers
unfoldable pub recover_nullifiers : Env → Store → Store × Result (Unit {0})
unfolding recover_verified recover_batches queue_prefix
recover_nullifiers e s =
    let (s', outcome) =
      recover_verified (iterate e.strips (queue_prefix verified_queue) [] s.verified) s in
    elim outcome [
      | err x ↦ (s', err x)
      | ok u ↦ recover_batches (iterate e.strips (queue_prefix batch_queue) [] s'.batches) s'
    ]

-- recover
unfoldable pub recover : Env → Store → Store × Result (Unit {0})
unfolding clean_all_reservations for_queues recover_nullifiers
recover e s = recover_nullifiers e (for_queues (clean_all_reservations e) reservation_queues s)
