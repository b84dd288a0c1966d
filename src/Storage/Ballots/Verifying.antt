-- ===== src/Storage/Ballots/Verifying.antt =====
-- MarkBallotVerified moves a ballot from the pending ones to the verified ones.
use davinci_node.Common.{◌≡◌, true, false, some, [], ◌∷◌, ◌++◌, arith}
use davinci_node.Word.{neg_int}
use davinci_node.Db.{
  key_eq_refl, insert, delete, lookup-insert_self, lookup-delete, is_member-delete,
}
use davinci_node.Storage.Types.{
  VoteId, vote_id_bytes, not_found, ok, err, encoded, Ballot, VerifiedBallot, ProcessId,
}
use davinci_node.Storage.Store.{Env, Store, get_artifact}
use davinci_node.Storage.Reservations.{
  ballot_queue, reservation_key, is_reserved, delete_reservation,
}
use davinci_node.Storage.Stats.Frame.{update_process_stats-frame}
use davinci_node.Storage.Status.{set_vote_id_status}
use davinci_node.Storage.Ballots.{
  ballot, store_verified, mark_ballot_verified, pending_votes_by, verified_votes_by, batch_size_by,
}

-- The store before the statistics are updated.
abbrev moved_of : VoteId → ProcessId → VerifiedBallot → Store → Store
moved_of v p vb s =
    let freed = delete_reservation ballot_queue (vote_id_bytes v) (record s {
      verified = insert (p ++ vote_id_bytes v) (encoded (record vb { process_id = p })) s.verified;
    }) in
    record freed { ballots = delete (vote_id_bytes v) freed.ballots }

-- The statistics and the status leave the queues, the reservations and the locks alone.
store_verified-queues :
    (e : Env) (v : VoteId) (p : ProcessId) (vb : VerifiedBallot) (s : Store)
    → let s' = (store_verified e v p vb true s).0 in
      let moved = moved_of v p vb s in
      (s'.verified ≡ moved.verified)
      × (s'.ballots ≡ moved.ballots)
      × (s'.reservations ≡ moved.reservations)
      × (s'.processing_vote_ids ≡ s.processing_vote_ids)
      × (s'.processing_addresses ≡ s.processing_addresses)
unfolding store_verified set_vote_id_status delete_reservation
store_verified-queues e v p vb s = ground (
  arith,
  update_process_stats-frame e p
      (verified_votes_by 1 ∷ batch_size_by 1 ∷ pending_votes_by (neg_int 1) ∷ [])
      (moved_of v p vb s),
)

-- MarkBallotVerified of a ballot that is pending, when it succeeds: the verified ballot is stored
-- under the process of the pending one, whatever process it names itself, the pending ballot and its
-- reservation are gone, and the voter's locks are as before.
pub mark_ballot_verified-moves :
    (e : Env) (v : VoteId) (b : Ballot) (vb : VerifiedBallot) (s s' : Store)
    → ballot v s ≡ ok b
    → mark_ballot_verified e v (some vb) s ≡ (s', ok tt)
    → (get_artifact (b.process_id ++ vote_id_bytes v) s'.verified
        ≡ ok (record vb { process_id = b.process_id }))
      × (ballot v s' ≡ err not_found)
      × (is_reserved ballot_queue (vote_id_bytes v) s' ≡ false)
      × (s'.processing_vote_ids ≡ s.processing_vote_ids)
      × (s'.processing_addresses ≡ s.processing_addresses)
unfolding mark_ballot_verified ballot is_reserved get_artifact delete_reservation
mark_ballot_verified-moves e v b vb s s' pending h =
    let q = store_verified-queues e v b.process_id vb s in
    ground (
      arith,
      pending,
      q,
      lookup-insert_self (b.process_id ++ vote_id_bytes v)
          (encoded (record vb { process_id = b.process_id })) s.verified,
      lookup-delete (vote_id_bytes v) (vote_id_bytes v) s.ballots,
      is_member-delete (reservation_key ballot_queue (vote_id_bytes v))
          (reservation_key ballot_queue (vote_id_bytes v)) s.reservations,
      key_eq_refl (vote_id_bytes v),
      key_eq_refl (reservation_key ballot_queue (vote_id_bytes v)),
    )
