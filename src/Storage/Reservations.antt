-- ===== src/Storage/Reservations.antt =====
-- Reservations of queue entries (setReservation, isReserved, deleteReservation of
-- storage/storage.go) and the locks in memory on vote IDs and addresses.
use davinci_node.Common.{ℕ, Bool, true, false, List, [], ◌∷◌, ◌++◌, if◌then◌else◌}
use davinci_node.Db.{Key, insert, delete, is_member}
use davinci_node.Storage.Types.{
  ProcessId, VoteId, key_already_exists, Result, ok, err, encoded, AddressInfo,
}
use davinci_node.Storage.Store.{Env, Store}

-- "b/", "vb/", "ag/" and "st/": the queues whose entries are reserved.
pub data Queue : Type 0 where
  ballot_queue verified_queue batch_queue transition_queue : Queue

unfoldable pub queue_prefix : Queue → Key
queue_prefix ballot_queue = b'b' ∷ b'/' ∷ []
queue_prefix verified_queue = b'v' ∷ b'b' ∷ b'/' ∷ []
queue_prefix batch_queue = b'a' ∷ b'g' ∷ b'/' ∷ []
queue_prefix transition_queue = b's' ∷ b't' ∷ b'/' ∷ []

-- reservationBasePrefixes
abbrev pub reservation_queues : List Queue
reservation_queues = ballot_queue ∷ verified_queue ∷ batch_queue ∷ transition_queue ∷ []

unfoldable pub reservation_key : Queue → Key → Key
unfolding queue_prefix
reservation_key q k = queue_prefix q ++ k

unfoldable pub is_reserved : Queue → Key → Store → Bool
is_reserved q k s = is_member (reservation_key q k) s.reservations

unfoldable pub set_reservation : Env → Queue → Key → Store → Store × Result (Unit {0})
set_reservation e q k s =
    if is_member (reservation_key q k) s.reservations then (s, err key_already_exists) else (
      record s { reservations = insert (reservation_key q k) (encoded e.now) s.reservations },
      ok tt,
    )

-- Deleting a key that is not there is no error.
unfoldable pub delete_reservation : Queue → Key → Store → Store
delete_reservation q k s = record s { reservations = delete (reservation_key q k) s.reservations }

-- The keys of the maps in memory.
abbrev pub vote_id_key : VoteId → Key
vote_id_key v = v ∷ []

-- The text "processID:address", as the ID's bytes followed by the address.
abbrev pub address_key : ProcessId → ℕ → Key
address_key p a = a ∷ p

unfoldable pub is_vote_id_processing : VoteId → Store → Bool
is_vote_id_processing v s = is_member (vote_id_key v) s.processing_vote_ids

unfoldable pub lock_vote_id : VoteId → Store → Store
lock_vote_id v s = record s {
  processing_vote_ids = insert (vote_id_key v) tt s.processing_vote_ids;
}

unfoldable pub release_vote_id : VoteId → Store → Store
release_vote_id v s = record s {
  processing_vote_ids = delete (vote_id_key v) s.processing_vote_ids;
}

unfoldable pub is_address_processing : ProcessId → ℕ → Store → Bool
is_address_processing p a s = is_member (address_key p a) s.processing_addresses

-- LoadOrStore: the store with the address locked, and whether this call locked it.
unfoldable pub lock_address : ProcessId → ℕ → Store → Store × Bool
lock_address p a s = if is_member (address_key p a) s.processing_addresses then (s, false) else (
  record s { processing_addresses = insert (address_key p a) tt s.processing_addresses },
  true,
)

unfoldable pub release_address : ProcessId → ℕ → Store → Store
release_address p a s = record s {
  processing_addresses = delete (address_key p a) s.processing_addresses;
}

unfoldable pub store_address_info : VoteId → AddressInfo → Store → Store
store_address_info v info s = record s {
  vote_id_to_address = insert (vote_id_key v) info s.vote_id_to_address;
}

unfoldable pub delete_address_info : VoteId → Store → Store
delete_address_info v s = record s {
  vote_id_to_address = delete (vote_id_key v) s.vote_id_to_address;
}

-- The three calls that let a voter vote again.
unfoldable pub release_locks : VoteId → ProcessId → ℕ → Store → Store
unfolding release_vote_id release_address delete_address_info
release_locks v p a s = delete_address_info v (release_address p a (release_vote_id v s))
