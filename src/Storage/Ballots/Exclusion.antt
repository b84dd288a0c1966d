-- ===== src/Storage/Ballots/Exclusion.antt =====
-- PushPendingBallot: what a refusal leaves, and that one voter has one ballot in flight.
use davinci_node.Common.{◌≡◌, true, false, ◌⊎◌, inl, inr, [], ◌∷◌, arith, Bool-cases}
use davinci_node.Db.{
  key_eq_refl, insert, lookup-eq-none, delete-insert, is_member-insert, lookup-insert_self,
}
use davinci_node.Storage.Types.{
  Ballot, Error, nullifier_processing, address_processing, ok, err, vote_id_bytes, encoded,
  status_write_failed,
}
use davinci_node.Storage.Store.{Env, Store, get_artifact}
use davinci_node.Storage.Reservations.{
  is_vote_id_processing, is_address_processing, lock_vote_id, release_vote_id, lock_address,
  release_address, vote_id_key, address_key,
}
use davinci_node.Storage.Stats.Frame.{update_process_stats-frame}
use davinci_node.Storage.Status.{set_vote_id_status}
use davinci_node.Storage.Ballots.{
  stored_ballot, after_push, write_ballot, push_pending_ballot, ballot, pending_votes_by,
}

-- Releasing both locks undoes taking them.
release-lock :
    (b : Ballot) (s : Store)
    → is_vote_id_processing b.vote_id s ≡ false
    → is_address_processing b.process_id b.address s ≡ false
    → release_address b.process_id b.address (
        release_vote_id b.vote_id
          (lock_vote_id b.vote_id (lock_address b.process_id b.address s).0))
      ≡ s
unfolding is_vote_id_processing is_address_processing release_address release_vote_id lock_vote_id
    lock_address
release-lock b s hv ha = ground (
  arith,
  lookup-eq-none (vote_id_key b.vote_id) s.processing_vote_ids,
  lookup-eq-none (address_key b.process_id b.address) s.processing_addresses,
  delete-insert (vote_id_key b.vote_id) tt s.processing_vote_ids,
  delete-insert (address_key b.process_id b.address) tt s.processing_addresses,
)

-- A lock that is refused changes nothing.
refused :
    (b : Ballot) (s : Store)
    → ((lock_address b.process_id b.address s).1 ≡ true
        → is_address_processing b.process_id b.address s ≡ false)
      × ((lock_address b.process_id b.address s).1 ≡ false
          → (lock_address b.process_id b.address s).0 ≡ s)
unfolding lock_address is_address_processing
refused b s = ground arith

lock_statuses :
    (b : Ballot) (s : Store)
    → (lock_vote_id b.vote_id (lock_address b.process_id b.address s).0).statuses ≡ s.statuses
unfolding lock_vote_id lock_address
lock_statuses b s = ground arith

stored_ballot-locks :
    (e : Env) (b : Ballot) (s : Store)
    → ((stored_ballot e b s).processing_vote_ids ≡ s.processing_vote_ids)
      × ((stored_ballot e b s).processing_addresses ≡ s.processing_addresses)
      × ((stored_ballot e b s).ballots ≡ insert (vote_id_bytes b.vote_id) (encoded b) s.ballots)
unfolding stored_ballot
stored_ballot-locks e b s = ground (
  arith,
  update_process_stats-frame e b.process_id (pending_votes_by 1 ∷ [])
      (record s { ballots = insert (vote_id_bytes b.vote_id) (encoded b) s.ballots }),
)

after_push-locks :
    (e : Env) (b : Ballot) (s : Store)
    → ((after_push e b s).0.processing_vote_ids ≡ s.processing_vote_ids)
      × ((after_push e b s).0.processing_addresses ≡ s.processing_addresses)
      × ((after_push e b s).0.ballots ≡ insert (vote_id_bytes b.vote_id) (encoded b) s.ballots)
unfolding after_push set_vote_id_status
after_push-locks e b s = ground (arith, stored_ballot-locks e b s)

-- A ballot is in flight: both locks are held, and it is found under its vote ID.
abbrev pub IsInFlight : Ballot → Store → Type 0
IsInFlight b s =
    (is_vote_id_processing b.vote_id s ≡ true)
    × (is_address_processing b.process_id b.address s ≡ true)
    × (ballot b.vote_id s ≡ ok b)

after_push-IsInFlight :
    (e : Env) (b : Ballot) (s : Store)
    → IsInFlight b
        (after_push e b (lock_vote_id b.vote_id (lock_address b.process_id b.address s).0)).0
unfolding lock_address lock_vote_id is_vote_id_processing is_address_processing ballot get_artifact
after_push-IsInFlight e b s = ground (
  arith,
  after_push-locks e b (lock_vote_id b.vote_id (lock_address b.process_id b.address s).0),
  is_member-insert (vote_id_key b.vote_id) (vote_id_key b.vote_id) tt s.processing_vote_ids,
  is_member-insert (address_key b.process_id b.address) (address_key b.process_id b.address) tt
      s.processing_addresses,
  key_eq_refl (vote_id_key b.vote_id),
  key_eq_refl (address_key b.process_id b.address),
  lookup-insert_self (vote_id_bytes b.vote_id) (encoded b) s.ballots,
)

-- PushPendingBallot that succeeds holds the locks on the ballot's vote ID and on its address, and the
-- ballot is found under its vote ID.
pub push_pending_ballot-IsInFlight :
    (e : Env) (b : Ballot) (s s' : Store)
    → push_pending_ballot e b s ≡ (s', ok tt)
    → IsInFlight b s'
unfolding push_pending_ballot write_ballot
push_pending_ballot-IsInFlight e b s s' h = ground (arith, after_push-IsInFlight e b s)

after_push-err :
    (e : Env) (b : Ballot) (s s' : Store) (x : Error)
    → after_push e b s ≡ (s', err x)
    → (x ≡ status_write_failed) × (s' ≡ (after_push e b s).0) × (s'.statuses ≡ s.statuses)
unfolding after_push stored_ballot
after_push-err e b s s' x h = ground (
  arith,
  update_process_stats-frame e b.process_id (pending_votes_by 1 ∷ [])
      (record s { ballots = insert (vote_id_bytes b.vote_id) (encoded b) s.ballots }),
)

write_ballot-err :
    (e : Env) (b : Ballot) (s s' : Store) (x : Error)
    → write_ballot e b s ≡ (s', err x)
    → (s' ≡ release_address b.process_id b.address (release_vote_id b.vote_id s))
      ⊎ (after_push e b s ≡ (s', err x))
unfolding write_ballot
write_ballot-err e b s s' x h = ground arith

-- PushPendingBallot that returns an error: the whole storage is as it was, with no ballot and no lock on
-- the vote ID or the address; or the write of the vote's status at the end has failed, and then the ballot
-- is stored, both locks are held, and the statuses are as they were.
pub push_pending_ballot-err :
    (e : Env) (b : Ballot) (s s' : Store) (x : Error)
    → push_pending_ballot e b s ≡ (s', err x)
    → (s' ≡ s) ⊎ ((x ≡ status_write_failed) × IsInFlight b s' × (s'.statuses ≡ s.statuses))
unfolding push_pending_ballot
push_pending_ballot-err e b s s' x h = elim (Bool-cases (is_vote_id_processing b.vote_id s)) [
  | inl hv ↦ ground arith
  | inr hv ↦
      let locked = lock_vote_id b.vote_id (lock_address b.process_id b.address s).0 in
      ground (
        arith,
        release-lock b s hv,
        write_ballot-err e b locked s' x,
        after_push-err e b locked s' x,
        after_push-IsInFlight e b s,
        lock_statuses b s,
        refused b s,
      )
]

refuses_vote_id :
    (e : Env) (c : Ballot) (s : Store)
    → is_vote_id_processing c.vote_id s ≡ true
    → push_pending_ballot e c s ≡ (s, err nullifier_processing)
unfolding push_pending_ballot
refuses_vote_id e c s h = ground arith

refuses_address :
    (e : Env) (c : Ballot) (s : Store)
    → is_vote_id_processing c.vote_id s ≡ false
    → is_address_processing c.process_id c.address s ≡ true
    → push_pending_ballot e c s ≡ (s, err address_processing)
unfolding push_pending_ballot lock_address is_address_processing
refuses_address e c s h k = ground arith

-- Two ballots are of one voter: the same vote ID, or the same address in the same process.
abbrev pub OfOneVoter : Ballot → Ballot → Type 0
OfOneVoter b c = (c.vote_id ≡ b.vote_id) ⊎ ((c.process_id ≡ b.process_id) × (c.address ≡ b.address))

abbrev pub RefusedAsInFlight : Env → Ballot → Store → Type 0
RefusedAsInFlight e c s =
    (push_pending_ballot e c s ≡ (s, err nullifier_processing))
    ⊎ (push_pending_ballot e c s ≡ (s, err address_processing))

locked-RefusedAsInFlight :
    (e : Env) (c : Ballot) (s : Store)
    → (is_vote_id_processing c.vote_id s ≡ true)
      ⊎ (is_address_processing c.process_id c.address s ≡ true)
    → RefusedAsInFlight e c s
locked-RefusedAsInFlight e c s (inl v) = inl (refuses_vote_id e c s v)
locked-RefusedAsInFlight e c s (inr a) = elim (Bool-cases (is_vote_id_processing c.vote_id s)) [
  | inl v ↦ inl (refuses_vote_id e c s v)
  | inr free ↦ inr (refuses_address e c s free a)
]

-- Right after a ballot is pushed, every other push of the same vote ID, or of the same address in the
-- same process, is refused as in flight and leaves the storage as it was.
pub push_pending_ballot-RefusedAsInFlight :
    (e e' : Env) (b c : Ballot) (s s' : Store)
    → push_pending_ballot e b s ≡ (s', ok tt)
    → OfOneVoter b c
    → RefusedAsInFlight e' c s'
push_pending_ballot-RefusedAsInFlight e e' b c s s' h (inl same) =
    locked-RefusedAsInFlight e' c s' (inl (rw same (push_pending_ballot-IsInFlight e b s s' h).0))
push_pending_ballot-RefusedAsInFlight e e' b c s s' h (inr same) =
    locked-RefusedAsInFlight e' c s'
      (inr (rw (same.0, same.1) (push_pending_ballot-IsInFlight e b s s' h).1))
