-- ===== src/Storage/Recovery/Cleared.antt =====
-- No reservation outlives a restart.
use davinci_node.Common.{
  ℕ, ◌≡◌, refl, Bool, true, false, not, ◌&&◌, ◌||◌, List, [], ◌∷◌, ◌++◌, arith, Bool-cases, inl,
  inr,
}
use davinci_node.Db.{
  Key, Table, has_prefix, key_eq, eq_of_key_eq, lookup, delete, is_member, is_member-delete,
  has_prefix-append,
}
use davinci_node.Storage.Types.{
  ProcessId, Encoded, encoded, garbage, VerifiedBallot, AggregatorBallot, AggregatorBallotBatch,
}
use davinci_node.Storage.Store.{Env, Store}
use davinci_node.Storage.Reservations.{
  Queue, ballot_queue, queue_prefix, reservation_key, is_reserved, delete_reservation,
  reservation_queues, lock_vote_id, lock_address, store_address_info,
}
use davinci_node.Storage.Recovery.{
  seen_reservation, reservations_of, delete_reservations, all_keys, clean_all_reservations,
  for_queues, relock, relock_all, recover_verified, recover_batches, recover_nullifiers, recover,
}

-- Every reservation of the queue is handed out under its own key.
unfoldable pub hands_out_reservations : Bool → Queue → Table (Encoded ℕ) → Bool
unfolding seen_reservation
hands_out_reservations strips q [] = true
hands_out_reservations strips q ((k, t) ∷ m) =
    (not (has_prefix (queue_prefix q) k)
      || key_eq (reservation_key q (seen_reservation strips q k)) k)
    && hands_out_reservations strips q m

hands_out-delete :
    (strips : Bool) (q : Queue) (k : Key) (m : Table (Encoded ℕ))
    → hands_out_reservations strips q m ≡ true
    → hands_out_reservations strips q (delete k m) ≡ true
unfolding hands_out_reservations delete
hands_out-delete strips q k [] w = refl
hands_out-delete strips q k ((j, t) ∷ m) w = ground (arith, hands_out-delete strips q k m)

hands_out-delete_reservations :
    (strips : Bool) (r q : Queue) (ks : List Key) (s : Store)
    → hands_out_reservations strips r s.reservations ≡ true
    → hands_out_reservations strips r (delete_reservations q ks s).reservations ≡ true
unfolding delete_reservations delete_reservation
hands_out-delete_reservations strips r q [] s w = w
hands_out-delete_reservations strips r q (k ∷ ks) s w =
    hands_out-delete_reservations strips r q ks (delete_reservation q k s)
      (hands_out-delete strips r (reservation_key q k) s.reservations w)

is_reserved-delete_reservations :
    (r q : Queue) (j : Key) (ks : List Key) (s : Store)
    → is_reserved r j s ≡ false
    → is_reserved r j (delete_reservations q ks s) ≡ false
unfolding delete_reservations delete_reservation is_reserved
is_reserved-delete_reservations r q j [] s h = h
is_reserved-delete_reservations r q j (k ∷ ks) s h =
    is_reserved-delete_reservations r q j ks (delete_reservation q k s)
      (ground (arith, is_member-delete (reservation_key r j) (reservation_key q k) s.reservations))

-- Deleting the first entry of what is left.
freed :
    (q : Queue) (j k seen : Key) (t : Encoded ℕ) (m : Table (Encoded ℕ)) (s : Store)
    → reservation_key q seen ≡ k
    → (is_member (reservation_key q j) ((k, t) ∷ m) ≡ false → is_reserved q j s ≡ false)
    → is_member (reservation_key q j) m ≡ false
    → is_reserved q j (delete_reservation q seen s) ≡ false
unfolding is_member lookup is_reserved delete_reservation
freed q j k seen t m s same h absent = ground (
  arith,
  same,
  h,
  absent,
  is_member-delete (reservation_key q j) (reservation_key q seen) s.reservations,
)

-- An entry of another queue covers no reservation of this one.
skipped :
    (q : Queue) (j k : Key) (t : Encoded ℕ) (m : Table (Encoded ℕ))
    → has_prefix (queue_prefix q) k ≡ false
    → is_member (reservation_key q j) m ≡ false
    → is_member (reservation_key q j) ((k, t) ∷ m) ≡ false
unfolding is_member lookup reservation_key
skipped q j k t m apart absent = ground (
  arith,
  absent,
  apart,
  has_prefix-append (queue_prefix q) j,
  eq_of_key_eq k (queue_prefix q ++ j),
)

absent_in_empty : (k : Key) → is_member {V = Encoded ℕ} k [] ≡ false
unfolding is_member lookup
absent_in_empty k = refl

-- What is left to delete covers what is still reserved.
cleaned :
    (strips : Bool) (q : Queue) (j : Key) (m : Table (Encoded ℕ)) (s : Store)
    → hands_out_reservations strips q m ≡ true
    → (is_member (reservation_key q j) m ≡ false → is_reserved q j s ≡ false)
    → is_reserved q j (delete_reservations q (all_keys (reservations_of strips q m)) s) ≡ false
unfolding hands_out_reservations reservations_of all_keys delete_reservations
cleaned strips q j [] s w h = h (absent_in_empty (reservation_key q j))
cleaned strips q j ((k, t) ∷ m) s w h =
    let seen = seen_reservation strips q k in
    elim (Bool-cases (has_prefix (queue_prefix q) k)) [
      | inl below ↦ rw below (
          cleaned strips q j m (delete_reservation q seen s) (ground arith)
            (freed q j k seen t m s (eq_of_key_eq (reservation_key q seen) k (ground arith)) h))
      | inr apart ↦
          rw apart
            (cleaned strips q j m s (ground arith) (λ absent. h (skipped q j k t m apart absent)))
    ]

clean_all_reservations-cleared :
    (e : Env) (q : Queue) (j : Key) (s : Store)
    → hands_out_reservations e.strips q s.reservations ≡ true
    → is_reserved q j (clean_all_reservations e q s) ≡ false
unfolding clean_all_reservations is_reserved
clean_all_reservations-cleared e q j s w =
    cleaned e.strips q j s.reservations s w (λ absent. absent)

-- Cleaning another queue keeps both what is handed out and what is not reserved.
clean_all_reservations-hands_out :
    (e : Env) (r q : Queue) (s : Store)
    → hands_out_reservations e.strips r s.reservations ≡ true
    → hands_out_reservations e.strips r (clean_all_reservations e q s).reservations ≡ true
unfolding clean_all_reservations
clean_all_reservations-hands_out e r q s w =
    hands_out-delete_reservations e.strips r q
      (all_keys (reservations_of e.strips q s.reservations)) s w

clean_all_reservations-kept :
    (e : Env) (r q : Queue) (j : Key) (s : Store)
    → is_reserved r j s ≡ false
    → is_reserved r j (clean_all_reservations e q s) ≡ false
unfolding clean_all_reservations
clean_all_reservations-kept e r q j s h =
    is_reserved-delete_reservations r q j (all_keys (reservations_of e.strips q s.reservations)) s h

-- The loop over the four queues.
clean_queues :
    (e : Env) (q : Queue) (j : Key) (s : Store)
    → hands_out_reservations e.strips q s.reservations ≡ true
    → is_reserved q j (for_queues (clean_all_reservations e) reservation_queues s) ≡ false
unfolding for_queues
clean_queues e ballot_queue j s w = grind (
  arith, clean_all_reservations-cleared, clean_all_reservations-kept,
  clean_all_reservations-hands_out,
)
clean_queues e _ j s w = grind (
  arith, clean_all_reservations-cleared, clean_all_reservations-kept,
  clean_all_reservations-hands_out,
)

relock_all-reservations :
    (p : ProcessId) (bs : List AggregatorBallot) (s : Store)
    → (relock_all p bs s).reservations ≡ s.reservations
unfolding relock_all relock lock_vote_id lock_address store_address_info
relock_all-reservations p [] s = refl
relock_all-reservations p (b ∷ bs) s =
    ground (arith, relock_all-reservations p bs (relock b.vote_id p b.address s))

recover_verified-reservations :
    (es : List (Key × Encoded VerifiedBallot)) (s : Store)
    → (recover_verified es s).0.reservations ≡ s.reservations
unfolding recover_verified relock lock_vote_id lock_address store_address_info
recover_verified-reservations [] s = refl
recover_verified-reservations ((k, garbage) ∷ es) s = refl
recover_verified-reservations ((k, encoded vb) ∷ es) s =
    ground (arith, recover_verified-reservations es (relock vb.vote_id vb.process_id vb.address s))

recover_batches-reservations :
    (es : List (Key × Encoded AggregatorBallotBatch)) (s : Store)
    → (recover_batches es s).0.reservations ≡ s.reservations
unfolding recover_batches
recover_batches-reservations [] s = refl
recover_batches-reservations ((k, garbage) ∷ es) s = refl
recover_batches-reservations ((k, encoded b) ∷ es) s = ground (
  arith,
  recover_batches-reservations es (relock_all b.process_id b.ballots s),
  relock_all-reservations b.process_id b.ballots s,
)

recover_nullifiers-reservations :
    (e : Env) (s : Store) → (recover_nullifiers e s).0.reservations ≡ s.reservations
unfolding recover_nullifiers
recover_nullifiers-reservations e s =
    grind (arith, recover_verified-reservations, recover_batches-reservations)

-- After a restart, whether it succeeds or not, nothing in a queue is reserved, as long as the
-- iteration handed out every reservation of the queue under its own key.
pub recover-unreserved :
    (e : Env) (q : Queue) (j : Key) (s : Store)
    → hands_out_reservations e.strips q s.reservations ≡ true
    → is_reserved q j (recover e s).0 ≡ false
unfolding recover is_reserved
recover-unreserved e q j s w = ground (
  arith,
  clean_queues e q j s w,
  recover_nullifiers-reservations e (for_queues (clean_all_reservations e) reservation_queues s),
)
