-- ===== src/Storage/Invariant/Verified.antt =====
-- The methods of the verified ballots keep what the three writes keep.
use davinci_node.Common.{ℕ, zero, suc, ◌+◌, List, [], ◌∷◌, arith}
use davinci_node.Db.{Key}
use davinci_node.Storage.Types.{ProcessId, encoded, garbage, VerifiedBallot}
use davinci_node.Storage.Store.{Env, Store}
use davinci_node.Storage.Reservations.{set_reservation}
use davinci_node.Storage.Status.Code
use davinci_node.Storage.Invariant.{Test, Holds, Rule}
use davinci_node.Storage.Verified.{
  verified_entries, reserve_pulled, pull_verified_ballots, release_verified_ballot_reservations,
  VerifiedEntries, remove_verified_entries, remove_verified_ballots_by_process,
  mark_verified_ballot_done, mark_verified_ballots_done, Tally, fail_verified_ballot,
  fail_verified_ballots, uncount_verified, mark_verified_ballots_failed,
}

module _ (t : Test) (r : Rule t) where
  reserve_pulled-Holds :
      (e : Env) (n i : ℕ) (keys : List Key) (res : List VerifiedBallot) (s : Store)
      → Holds t s
      → Holds t (reserve_pulled e n i keys res s).0
  unfolding reserve_pulled set_reservation
  reserve_pulled-Holds e zero i keys res s h = h
  reserve_pulled-Holds e (suc n) i keys res s h = grind (arith, reserve_pulled-Holds e n (i + 1))

  pub pull_verified_ballots-Holds :
      (e : Env) (p : ProcessId) (n : ℕ) (s : Store)
      → Holds t s
      → Holds t (pull_verified_ballots e p n s).0
  unfolding pull_verified_ballots
  pull_verified_ballots-Holds e p n s h = grind (arith, reserve_pulled-Holds)

  pub release_verified_ballot_reservations-Holds :
      (ks : List Key) (s : Store) → Holds t s → Holds t (release_verified_ballot_reservations ks s)
  unfolding release_verified_ballot_reservations
  release_verified_ballot_reservations-Holds [] s h = h
  release_verified_ballot_reservations-Holds (k ∷ ks) s h =
      release_verified_ballot_reservations-Holds ks _ h

  remove_verified_entries-Holds :
      (l : VerifiedEntries) (s : Store) → Holds t s → Holds t (remove_verified_entries l s)
  unfolding remove_verified_entries
  remove_verified_entries-Holds [] s h = h
  remove_verified_entries-Holds ((k, garbage) ∷ l) s h = remove_verified_entries-Holds l _ h
  remove_verified_entries-Holds ((k, encoded vb) ∷ l) s h = remove_verified_entries-Holds l _ h

  pub remove_verified_ballots_by_process-Holds :
      (e : Env) (p : ProcessId) (s : Store)
      → Holds t s
      → Holds t (remove_verified_ballots_by_process e p s)
  unfolding remove_verified_ballots_by_process
  remove_verified_ballots_by_process-Holds e p s h =
      remove_verified_entries-Holds (verified_entries e p s) s h

  pub mark_verified_ballots_done-Holds :
      (ks : List Key) (s : Store) → Holds t s → Holds t (mark_verified_ballots_done ks s)
  unfolding mark_verified_ballots_done
  mark_verified_ballots_done-Holds [] s h = h
  mark_verified_ballots_done-Holds (k ∷ ks) s h =
      mark_verified_ballots_done-Holds ks (mark_verified_ballot_done k s) (ground arith)

  fail_verified_ballot-Holds :
      (k : Key) (vb : VerifiedBallot) (s : Store)
      → Holds t s
      → Holds t (fail_verified_ballot k vb s)
  unfolding fail_verified_ballot
  fail_verified_ballot-Holds k vb s h = r.status vb.process_id vb.vote_id Code.error s h

  fail_verified_ballots-Holds :
      (e : Env) (ks : List Key) (tally : Tally) (s : Store)
      → Holds t s
      → Holds t (fail_verified_ballots e ks tally s).0
  unfolding fail_verified_ballots
  fail_verified_ballots-Holds e [] tally s h = h
  fail_verified_ballots-Holds e (k ∷ ks) tally s h =
      grind (arith, fail_verified_ballots-Holds e ks, fail_verified_ballot-Holds k)

  uncount_verified-Holds :
      (e : Env) (tally : Tally) (s : Store) → Holds t s → Holds t (uncount_verified e tally s)
  unfolding uncount_verified
  uncount_verified-Holds e [] s h = h
  uncount_verified-Holds e ((p, n) ∷ rest) s h =
      uncount_verified-Holds e rest _ (grind (arith, r.stats))

  pub mark_verified_ballots_failed-Holds :
      (e : Env) (ks : List Key) (s : Store)
      → Holds t s
      → Holds t (mark_verified_ballots_failed e ks s).0
  unfolding mark_verified_ballots_failed
  mark_verified_ballots_failed-Holds e ks s h =
      grind (arith, fail_verified_ballots-Holds, uncount_verified-Holds)
