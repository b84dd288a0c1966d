-- ===== src/Storage/Invariant/Ballots.antt =====
-- The methods of the pending ballots keep what the three writes keep.
use davinci_node.Common.{Bool, Option, none, some, List, [], ◌∷◌, arith}
use davinci_node.Storage.Types.{ProcessId, VoteId, Ballot, VerifiedBallot}
use davinci_node.Storage.Store.{Env, Store}
use davinci_node.Storage.Reservations.{
  set_reservation, lock_address, release_vote_id, release_address, release_locks,
}
use davinci_node.Storage.Invariant.{Test, Holds, Rule}
use davinci_node.Storage.Ballots.{
  stored_ballot, after_push, write_ballot, push_pending_ballot, next_pending_ballot,
  drop_pending_ballot, remove_pending_ballot, store_verified, mark_ballot_verified, drop_ballots,
  remove_pending_ballots_by_process,
}

module _ (t : Test) (r : Rule t) where
  stored_ballot-Holds :
      (e : Env) (b : Ballot) (s : Store) → Holds t s → Holds t (stored_ballot e b s)
  unfolding stored_ballot
  stored_ballot-Holds e b s h = grind (arith, r.stats)

  after_push-Holds : (e : Env) (b : Ballot) (s : Store) → Holds t s → Holds t (after_push e b s).0
  unfolding after_push
  after_push-Holds e b s h = grind (arith, stored_ballot-Holds, r.status)

  pub push_pending_ballot-Holds :
      (e : Env) (b : Ballot) (s : Store) → Holds t s → Holds t (push_pending_ballot e b s).0
  unfolding push_pending_ballot write_ballot lock_address release_address release_vote_id
  push_pending_ballot-Holds e b s h = grind (arith, after_push-Holds)

  pub next_pending_ballot-Holds :
      (e : Env) (s : Store) → Holds t s → Holds t (next_pending_ballot e s).0
  unfolding next_pending_ballot set_reservation
  next_pending_ballot-Holds e s h = ground arith

  drop_pending_ballot-Holds :
      (e : Env) (p : ProcessId) (v : VoteId) (s : Store)
      → Holds t s
      → Holds t (drop_pending_ballot e p v s)
  unfolding drop_pending_ballot
  drop_pending_ballot-Holds e p v s h = grind (arith, r.stats)

  pub remove_pending_ballot-Holds :
      (e : Env) (p : ProcessId) (v : VoteId) (s : Store)
      → Holds t s
      → Holds t (remove_pending_ballot e p v s)
  unfolding remove_pending_ballot release_locks
  remove_pending_ballot-Holds e p v s h = grind (arith, r.status, drop_pending_ballot-Holds)

  drop_ballots-Holds :
      (e : Env) (p : ProcessId) (bs : List Ballot) (s : Store)
      → Holds t s
      → Holds t (drop_ballots e p bs s)
  unfolding drop_ballots
  drop_ballots-Holds e p [] s h = h
  drop_ballots-Holds e p (b ∷ bs) s h =
      drop_ballots-Holds e p bs
        (release_locks b.vote_id b.process_id b.address (drop_pending_ballot e p b.vote_id s))
        (drop_pending_ballot-Holds e p b.vote_id s h)

  pub remove_pending_ballots_by_process-Holds :
      (e : Env) (p : ProcessId) (s : Store)
      → Holds t s
      → Holds t (remove_pending_ballots_by_process e p s)
  unfolding remove_pending_ballots_by_process
  remove_pending_ballots_by_process-Holds e p s h = search (drop_ballots-Holds)

  store_verified-Holds :
      (e : Env) (v : VoteId) (p : ProcessId) (vb : VerifiedBallot) (found : Bool) (s : Store)
      → Holds t s
      → Holds t (store_verified e v p vb found s).0
  unfolding store_verified
  store_verified-Holds e v p vb found s h = grind (arith, r.stats, r.status)

  pub mark_ballot_verified-Holds :
      (e : Env) (v : VoteId) (vb : Option VerifiedBallot) (s : Store)
      → Holds t s
      → Holds t (mark_ballot_verified e v vb s).0
  unfolding mark_ballot_verified
  mark_ballot_verified-Holds e v none s h = h
  mark_ballot_verified-Holds e v (some vb) s h = grind (arith, store_verified-Holds)
