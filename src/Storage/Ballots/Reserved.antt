-- ===== src/Storage/Ballots/Reserved.antt =====
-- NextPendingBallot hands out a ballot that nobody holds, and holds it for the caller.
use davinci_node.Common.{◌≡◌, ◌≢◌, ap, true, false, arith}
use davinci_node.Db.{Key, is_member-insert, key_eq_refl}
use davinci_node.Storage.Types.{VoteId, vote_id_bytes, ok, encoded, Ballot}
use davinci_node.Storage.Store.{Env, Store}
use davinci_node.Storage.Reservations.{
  Queue, ballot_queue, reservation_key, is_reserved, set_reservation,
}
use davinci_node.Storage.Ballots.{next_pending_ballot}

-- What a successful reservation shows.
pub set_reservation-ok :
    (e : Env) (q : Queue) (k : Key) (s : Store) (u : Unit {0})
    → (set_reservation e q k s).1 ≡ ok u
    → (is_reserved q k s ≡ false) × (is_reserved q k (set_reservation e q k s).0 ≡ true)
unfolding set_reservation is_reserved
set_reservation-ok e q k s u h = ground (
  arith,
  is_member-insert (reservation_key q k) (reservation_key q k) (encoded e.now) s.reservations,
  key_eq_refl (reservation_key q k),
)

-- NextPendingBallot that succeeds returns the vote ID of the ballot it returns, under which nothing was
-- reserved before and the ballot is reserved afterwards.
pub next_pending_ballot-ok :
    (e : Env) (s s' : Store) (b : Ballot) (v : VoteId)
    → next_pending_ballot e s ≡ (s', ok (b, v))
    → (v ≡ b.vote_id)
      × (is_reserved ballot_queue (vote_id_bytes v) s ≡ false)
      × (is_reserved ballot_queue (vote_id_bytes v) s' ≡ true)
unfolding next_pending_ballot
next_pending_ballot-ok e s s' b v h =
    ground (arith, set_reservation-ok e ballot_queue (vote_id_bytes b.vote_id) s tt)

-- Two calls of NextPendingBallot in a row never return the same vote ID.
pub next_pending_ballot_twice :
    (e e' : Env) (s s' t : Store) (b c : Ballot) (v w : VoteId)
    → next_pending_ballot e s ≡ (s', ok (b, v))
    → next_pending_ballot e' s' ≡ (t, ok (c, w))
    → w ≢ v
next_pending_ballot_twice e e' s s' t b c v w h k = λ same. cc (
  (next_pending_ballot-ok e s s' b v h).2,
  (next_pending_ballot-ok e' s' t c w k).1,
  ap (λ x. is_reserved ballot_queue (vote_id_bytes x) s') same,
)
