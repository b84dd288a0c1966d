-- ===== src/Storage/Verified.antt =====
-- The queue of verified ballots (storage/ballots.go).
pub mod Pulled
pub mod Pull
use davinci_node.Common.{
  ℕ, zero, suc, ◌+◌, Bool, true, false, Option, none, some, List, [], ◌∷◌, ◌++◌, leb, ltb, ◌==◌,
  if◌then◌else◌, length, take, drop, get_or,
}
use davinci_node.Word.{neg_int, int_of_length}
use davinci_node.Db.{Key, Table, insert, delete, is_member, iterate, has_prefix, key_eq}
use davinci_node.Storage.Types.{
  ProcessId, not_found, decode_failed, Result, ok, err, Encoded, encoded, garbage, VerifiedBallot,
}
use davinci_node.Storage.Store.{Env, Store, get_artifact}
use davinci_node.Storage.Reservations.{
  verified_queue, queue_prefix, is_reserved, set_reservation, delete_reservation, release_locks,
}
use davinci_node.Storage.Stats.{update_process_stats}
use davinci_node.Storage.Status.{vote_id_status, set_vote_id_status}
use davinci_node.Storage.Status.Code
use davinci_node.Storage.Ballots.{count_free, verified_votes_by, batch_size_by}

-- The process ID is put in front of a key that lost it in the iteration.
unfoldable pub full_key : ProcessId → Key → Key
full_key p k = if has_prefix p k then k else p ++ k

unfoldable pub with_full_keys {ℓ} : {V : Type ℓ} → ProcessId → List (Key × V) → List (Key × V)
unfolding full_key
with_full_keys p [] = []
with_full_keys p ((k, v) ∷ rest) = (full_key p k, v) ∷ with_full_keys p rest

abbrev pub VerifiedEntries : Type 0
VerifiedEntries = List (Key × Encoded VerifiedBallot)

-- What the iteration over the verified ballots of a process sees, with full keys.
unfoldable pub verified_entries : Env → ProcessId → Store → VerifiedEntries
unfolding with_full_keys queue_prefix
verified_entries e p s =
    with_full_keys p (iterate e.strips (queue_prefix verified_queue) p s.verified)

unfoldable pub contains : ℕ → List ℕ → Bool
contains a [] = false
contains a (x ∷ xs) = let rest = contains a xs in if x == a then true else rest

-- The callback of PullVerifiedBallots: it stops at `n` ballots, and skips reserved entries, entries
-- that do not decode, and addresses that it has met.
unfoldable pub pull_entries : Store → ℕ → VerifiedEntries → ℕ → List ℕ → List (Key × VerifiedBallot)
unfolding contains
pull_entries s n [] count seen = []
pull_entries s n ((k, garbage) ∷ rest) count seen =
    let skip = pull_entries s n rest count seen in if leb n count then [] else skip
pull_entries s n ((k, encoded vb) ∷ rest) count seen =
    let skip = pull_entries s n rest count seen in
    let take_it = (k, vb) ∷ pull_entries s n rest (count + 1) (vb.address ∷ seen) in
    if leb n count
    then []
    else if is_reserved verified_queue k s
    then skip
    else if contains vb.address seen
    then skip
    else take_it

unfoldable pub keys_of_pulled : List (Key × VerifiedBallot) → List Key
keys_of_pulled [] = []
keys_of_pulled ((k, vb) ∷ rest) = k ∷ keys_of_pulled rest

unfoldable pub ballots_of_pulled : List (Key × VerifiedBallot) → List VerifiedBallot
ballots_of_pulled [] = []
ballots_of_pulled ((k, vb) ∷ rest) = vb ∷ ballots_of_pulled rest

-- slices.Delete(xs, i, i+1) on the array behind the slice, whose freed end is cleared.
abbrev pub delete_at {ℓ} : {A : Type ℓ} → ℕ → List A → List A
delete_at i xs = take i xs ++ drop (i + 1) xs

-- The loop that reserves what was pulled, at index `i` of the array `keys`; a key that cannot be
-- reserved is deleted, with its ballot, from the arrays that the loop goes on reading.
unfoldable pub reserve_pulled :
    Env → ℕ → ℕ → List Key → List VerifiedBallot → Store → Store × List Key × List VerifiedBallot
reserve_pulled e zero i keys res s = (s, keys, res)
reserve_pulled e (suc rounds) i keys res s =
    let (s', outcome) = set_reservation e verified_queue (get_or keys i []) s in
    let kept = reserve_pulled e rounds (i + 1) keys res s' in
    let dropped =
      reserve_pulled e rounds (i + 1) (delete_at i keys ++ [] ∷ []) (delete_at i res) s' in
    elim outcome [ ok u ↦ kept | err x ↦ if ltb i (length res) then dropped else kept ]

-- PullVerifiedBallots
unfoldable pub pull_verified_ballots :
    Env → ProcessId → ℕ → Store → Store × Result (List VerifiedBallot × List Key)
pull_verified_ballots e p n s =
    if n == 0
    then (s, ok ([], []))
    else let pulled = pull_entries s n (verified_entries e p s) 0 [] in
      let (s', keys, res) =
        reserve_pulled e (length pulled) 0 (keys_of_pulled pulled) (ballots_of_pulled pulled) s in
      if length res == 0 then (s', err not_found) else (s', ok (res, take (length res) keys))

-- ReleaseVerifiedBallotReservations
unfoldable pub release_verified_ballot_reservations : List Key → Store → Store
unfolding delete_reservation
release_verified_ballot_reservations [] s = s
release_verified_ballot_reservations (k ∷ ks) s =
    release_verified_ballot_reservations ks (delete_reservation verified_queue k s)

-- CountVerifiedBallots
unfoldable pub count_verified_ballots : Env → ProcessId → Store → ℕ
unfolding verified_entries
count_verified_ballots e p s = count_free verified_queue s (verified_entries e p s)

-- removeVerifiedBallot
unfoldable pub remove_verified_ballot : Key → Store → Store
unfolding delete_reservation
remove_verified_ballot k s =
    let freed = delete_reservation verified_queue k s in
    record freed { verified = delete k freed.verified }

abbrev unlock : Encoded VerifiedBallot → Store → Store
unlock garbage s = s
unlock (encoded vb) s = release_locks vb.vote_id vb.process_id vb.address s

unfoldable pub remove_verified_entries : VerifiedEntries → Store → Store
unfolding remove_verified_ballot release_locks
remove_verified_entries [] s = s
remove_verified_entries ((k, value) ∷ rest) s =
    remove_verified_entries rest (unlock value (remove_verified_ballot k s))

-- RemoveVerifiedBallotsByProcess
unfoldable pub remove_verified_ballots_by_process : Env → ProcessId → Store → Store
unfolding verified_entries remove_verified_entries
remove_verified_ballots_by_process e p s = remove_verified_entries (verified_entries e p s) s

-- One round of MarkVerifiedBallotsDone: a ballot that is not found, or does not decode, keeps its
-- locks and is removed all the same.
unfoldable pub mark_verified_ballot_done : Key → Store → Store
unfolding remove_verified_ballot release_locks
mark_verified_ballot_done k s = elim (get_artifact k s.verified) [
  | err x ↦ remove_verified_ballot k s
  | ok vb ↦ remove_verified_ballot k (release_locks vb.vote_id vb.process_id vb.address s)
]

-- MarkVerifiedBallotsDone
unfoldable pub mark_verified_ballots_done : List Key → Store → Store
unfolding mark_verified_ballot_done
mark_verified_ballots_done [] s = s
mark_verified_ballots_done (k ∷ ks) s =
    mark_verified_ballots_done ks (mark_verified_ballot_done k s)

-- The map from a process to how many of its ballots count, in the order in which they came.
abbrev pub Tally : Type 0
Tally = List (ProcessId × ℕ)

unfoldable pub add_to_tally : ProcessId → ℕ → Tally → Tally
add_to_tally p n [] = (p, n) ∷ []
add_to_tally p n ((q, m) ∷ rest) =
    if key_eq q p then (q, m + n) ∷ rest else (q, m) ∷ add_to_tally p n rest

abbrev pub is_status : ℕ → Result ℕ → Bool
is_status code (ok status) = status == code
is_status code (err x) = false

-- Whether MarkVerifiedBallotsFailed counts a ballot: its status reads as verified.
abbrev counts_as_verified : Env → VerifiedBallot → Store → ℕ
counts_as_verified e vb s =
    if is_status Code.verified (vote_id_status e vb.process_id vb.vote_id s) then 1 else 0

-- One round of MarkVerifiedBallotsFailed.
unfoldable pub fail_verified_ballot : Key → VerifiedBallot → Store → Store
unfolding remove_verified_ballot release_locks
fail_verified_ballot k vb s =
    release_locks vb.vote_id vb.process_id vb.address
      (remove_verified_ballot k (set_vote_id_status vb.process_id vb.vote_id Code.error s))

unfoldable pub fail_verified_ballots : Env → List Key → Tally → Store → Store × Result Tally
unfolding fail_verified_ballot
fail_verified_ballots e [] tally s = (s, ok tally)
fail_verified_ballots e (k ∷ ks) tally s =
    let skip = fail_verified_ballots e ks tally s in
    elim (get_artifact k s.verified) [
      | err x ↦ elim x [ not_found ↦ skip | y ↦ (s, err y) ]
      | ok vb ↦
          fail_verified_ballots e ks (add_to_tally vb.process_id (counts_as_verified e vb s) tally)
            (fail_verified_ballot k vb s)
    ]

-- The updates of the statistics, skipped for a process with no ballot that counts.
unfoldable pub uncount_verified : Env → Tally → Store → Store
uncount_verified e [] s = s
uncount_verified e ((p, n) ∷ rest) s =
    let counted =
      (update_process_stats e p (verified_votes_by (neg_int n) ∷ batch_size_by (neg_int n) ∷ [])
        s).0 in
    uncount_verified e rest (if n == 0 then s else counted)

-- MarkVerifiedBallotsFailed
unfoldable pub mark_verified_ballots_failed : Env → List Key → Store → Store × Result (Unit {0})
mark_verified_ballots_failed e ks s =
    let (s', outcome) = fail_verified_ballots e ks [] s in
    elim outcome [ err x ↦ (s', err x) | ok tally ↦ (uncount_verified e tally s', ok tt) ]
