-- ===== src/Storage/Recovery/Locked.antt =====
-- After a restart, the voters of the verified ballots and of the aggregated batches are locked again.
use davinci_node.Common.{
  ℕ, ◌≡◌, refl, sym, Bool, true, some, List, [], ◌∷◌, arith, All, Bool-cases, inl, inr,
}
use davinci_node.Db.{Key, Table, has_prefix, key_eq, key_eq_refl, lookup, iterate, is_member-insert}
use davinci_node.Storage.Types.{
  ProcessId, VoteId, ok, Encoded, encoded, garbage, VerifiedBallot, AggregatorBallot,
  AggregatorBallotBatch,
}
use davinci_node.Storage.Store.{Env, Store}
use davinci_node.Storage.Reservations.{
  Queue, queue_prefix, verified_queue, batch_queue, reservation_queues, vote_id_key, address_key,
  is_vote_id_processing, is_address_processing, lock_vote_id, lock_address, store_address_info,
  delete_reservation,
}
use davinci_node.Storage.Recovery.{
  delete_reservations, all_keys, reservations_of, clean_all_reservations, for_queues, relock,
  relock_all, recover_verified, recover_batches, recover_nullifiers, recover,
}

-- The voter can have no other ballot in flight.
abbrev pub IsLocked : VoteId → ProcessId → ℕ → Store → Type 0
IsLocked v p a s = (is_vote_id_processing v s ≡ true) × (is_address_processing p a s ≡ true)

relock-IsLocked : (v : VoteId) (p : ProcessId) (a : ℕ) (s : Store) → IsLocked v p a (relock v p a s)
unfolding relock lock_vote_id lock_address store_address_info is_vote_id_processing
    is_address_processing
relock-IsLocked v p a s = ground (
  arith,
  is_member-insert (vote_id_key v) (vote_id_key v) tt s.processing_vote_ids,
  is_member-insert (address_key p a) (address_key p a) tt s.processing_addresses,
  key_eq_refl (vote_id_key v),
  key_eq_refl (address_key p a),
)

relock-kept :
    (v w : VoteId) (p q : ProcessId) (a b : ℕ) (s : Store)
    → IsLocked v p a s
    → IsLocked v p a (relock w q b s)
unfolding relock lock_vote_id lock_address store_address_info is_vote_id_processing
    is_address_processing
relock-kept v w p q a b s h = ground (
  arith,
  h,
  is_member-insert (vote_id_key v) (vote_id_key w) tt s.processing_vote_ids,
  is_member-insert (address_key p a) (address_key q b) tt s.processing_addresses,
)

module _ (v : VoteId) (p : ProcessId) (a : ℕ) where
  relock_all-kept :
      (q : ProcessId) (bs : List AggregatorBallot) (s : Store)
      → IsLocked v p a s
      → IsLocked v p a (relock_all q bs s)
  unfolding relock_all
  relock_all-kept q [] s h = h
  relock_all-kept q (b ∷ bs) s h =
      relock_all-kept q bs (relock b.vote_id q b.address s)
        (relock-kept v b.vote_id p q a b.address s h)

  recover_verified-kept :
      (es : List (Key × Encoded VerifiedBallot)) (s : Store)
      → IsLocked v p a s
      → IsLocked v p a (recover_verified es s).0
  unfolding recover_verified
  recover_verified-kept [] s h = h
  recover_verified-kept ((k, garbage) ∷ es) s h = h
  recover_verified-kept ((k, encoded vb) ∷ es) s h =
      recover_verified-kept es (relock vb.vote_id vb.process_id vb.address s)
        (relock-kept v vb.vote_id p vb.process_id a vb.address s h)

  recover_batches-kept :
      (es : List (Key × Encoded AggregatorBallotBatch)) (s : Store)
      → IsLocked v p a s
      → IsLocked v p a (recover_batches es s).0
  unfolding recover_batches
  recover_batches-kept [] s h = h
  recover_batches-kept ((k, garbage) ∷ es) s h = h
  recover_batches-kept ((k, encoded b) ∷ es) s h =
      recover_batches-kept es (relock_all b.process_id b.ballots s)
        (relock_all-kept b.process_id b.ballots s h)

relock_all-IsLocked :
    (p : ProcessId) (bs : List AggregatorBallot) (s : Store)
    → All (λ b. IsLocked b.vote_id p b.address (relock_all p bs s)) bs
unfolding relock_all
relock_all-IsLocked p [] s = tt
relock_all-IsLocked p (b ∷ bs) s = (
  relock_all-kept b.vote_id p b.address p bs (relock b.vote_id p b.address s)
      (relock-IsLocked b.vote_id p b.address s),
  relock_all-IsLocked p bs (relock b.vote_id p b.address s),
)

recover_verified-IsLocked :
    (strips : Bool) (space k : Key) (vb : VerifiedBallot) (m : Table (Encoded VerifiedBallot))
    (s s' : Store)
    → recover_verified (iterate strips space [] m) s ≡ (s', ok tt)
    → lookup k m ≡ some (encoded vb)
    → IsLocked vb.vote_id vb.process_id vb.address s'
unfolding recover_verified iterate has_prefix lookup
recover_verified-IsLocked strips space k vb [] s s' h found = cc
recover_verified-IsLocked strips space k vb ((j, garbage) ∷ m) s s' h found = cc
recover_verified-IsLocked strips space k vb ((j, encoded w) ∷ m) s s' h found =
    let first = relock w.vote_id w.process_id w.address s in
    let later =
      recover_verified-kept w.vote_id w.process_id w.address (iterate strips space [] m) first
        (relock-IsLocked w.vote_id w.process_id w.address s) in
    elim (Bool-cases (key_eq j k)) [
      | inl here ↦ ground (arith, here, later)
      | inr there ↦ recover_verified-IsLocked strips space k vb m first s' h (ground arith)
    ]

All-kept :
    (p : ProcessId) (bs : List AggregatorBallot) (es : List (Key × Encoded AggregatorBallotBatch))
    (s : Store)
    → All (λ b. IsLocked b.vote_id p b.address s) bs
    → All (λ b. IsLocked b.vote_id p b.address (recover_batches es s).0) bs
All-kept p [] es s h = tt
All-kept p (b ∷ bs) es s h =
    (recover_batches-kept b.vote_id p b.address es s h.0, All-kept p bs es s h.1)

recover_batches-IsLocked :
    (strips : Bool) (space k : Key) (c : AggregatorBallotBatch)
    (m : Table (Encoded AggregatorBallotBatch)) (s s' : Store)
    → recover_batches (iterate strips space [] m) s ≡ (s', ok tt)
    → lookup k m ≡ some (encoded c)
    → All (λ b. IsLocked b.vote_id c.process_id b.address s') c.ballots
unfolding recover_batches iterate has_prefix lookup
recover_batches-IsLocked strips space k c [] s s' h found = cc
recover_batches-IsLocked strips space k c ((j, garbage) ∷ m) s s' h found = cc
recover_batches-IsLocked strips space k c ((j, encoded b) ∷ m) s s' h found =
    let first = relock_all b.process_id b.ballots s in
    let es = iterate strips space [] m in
    elim (Bool-cases (key_eq j k)) [
      | inl here ↦
          let same : b ≡ c = ground (arith, here) in
          let final : (recover_batches es first).0 ≡ s' = ground arith in
          rw (sym same, sym final)
            (All-kept b.process_id b.ballots es first
              (relock_all-IsLocked b.process_id b.ballots s))
      | inr there ↦ recover_batches-IsLocked strips space k c m first s' h (ground arith)
    ]

delete_reservations-tables :
    (q : Queue) (ks : List Key) (s : Store)
    → ((delete_reservations q ks s).verified ≡ s.verified)
      × ((delete_reservations q ks s).batches ≡ s.batches)
unfolding delete_reservations delete_reservation
delete_reservations-tables q [] s = (refl, refl)
delete_reservations-tables q (k ∷ ks) s = delete_reservations-tables q ks (delete_reservation q k s)

clean_queues-tables :
    (e : Env) (qs : List Queue) (s : Store)
    → let s' = for_queues (clean_all_reservations e) qs s in
      (s'.verified ≡ s.verified) × (s'.batches ≡ s.batches)
unfolding for_queues clean_all_reservations
clean_queues-tables e [] s = (refl, refl)
clean_queues-tables e (q ∷ qs) s = ground (
  arith,
  clean_queues-tables e qs (clean_all_reservations e q s),
  delete_reservations-tables q (all_keys (reservations_of e.strips q s.reservations)) s,
)

recover_verified-batches :
    (es : List (Key × Encoded VerifiedBallot)) (s : Store)
    → (recover_verified es s).0.batches ≡ s.batches
unfolding recover_verified relock lock_vote_id lock_address store_address_info
recover_verified-batches [] s = refl
recover_verified-batches ((k, garbage) ∷ es) s = refl
recover_verified-batches ((k, encoded vb) ∷ es) s =
    ground (arith, recover_verified-batches es (relock vb.vote_id vb.process_id vb.address s))

-- The two loops of a restart that succeeds.
recovered :
    (e : Env) (s s' : Store)
    → recover e s ≡ (s', ok tt)
    → let cleaned = for_queues (clean_all_reservations e) reservation_queues s in
      let verified_part =
        recover_verified (iterate e.strips (queue_prefix verified_queue) [] s.verified) cleaned in
      (verified_part.1 ≡ ok tt)
      × (recover_batches (iterate e.strips (queue_prefix batch_queue) [] s.batches) verified_part.0
          ≡ (s', ok tt))
unfolding recover recover_nullifiers
recovered e s s' h = ground (
  arith,
  clean_queues-tables e reservation_queues s,
  recover_verified-batches (iterate e.strips (queue_prefix verified_queue) [] s.verified)
      (for_queues (clean_all_reservations e) reservation_queues s),
)

-- A restart that succeeds locks the vote ID and the address of every verified ballot.
pub recover-IsLocked_verified :
    (e : Env) (k : Key) (vb : VerifiedBallot) (s s' : Store)
    → lookup k s.verified ≡ some (encoded vb)
    → recover e s ≡ (s', ok tt)
    → IsLocked vb.vote_id vb.process_id vb.address s'
recover-IsLocked_verified e k vb s s' found h =
    let cleaned = for_queues (clean_all_reservations e) reservation_queues s in
    let es = iterate e.strips (queue_prefix verified_queue) [] s.verified in
    let loops = recovered e s s' h in
    let before =
      recover_verified-IsLocked e.strips (queue_prefix verified_queue) k vb s.verified cleaned
        (recover_verified es cleaned).0 (ground (arith, loops.0)) found in
    let after =
      recover_batches-kept vb.vote_id vb.process_id vb.address
        (iterate e.strips (queue_prefix batch_queue) [] s.batches) (recover_verified es cleaned).0
        before in
    ground (arith, after, loops.1)

-- A restart that succeeds locks the vote ID and the address of every ballot of every aggregated batch
-- in its queue.
pub recover-IsLocked_batches :
    (e : Env) (k : Key) (c : AggregatorBallotBatch) (s s' : Store)
    → lookup k s.batches ≡ some (encoded c)
    → recover e s ≡ (s', ok tt)
    → All (λ b. IsLocked b.vote_id c.process_id b.address s') c.ballots
recover-IsLocked_batches e k c s s' found h =
    recover_batches-IsLocked e.strips (queue_prefix batch_queue) k c s.batches
      (recover_verified (iterate e.strips (queue_prefix verified_queue) [] s.verified)
        (for_queues (clean_all_reservations e) reservation_queues s)).0
      s' (recovered e s s' h).1 found
