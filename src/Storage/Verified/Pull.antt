-- ===== src/Storage/Verified/Pull.antt =====
-- PullVerifiedBallots: at most as many ballots as asked for, each of a voter of its own, held for the
-- caller.
use davinci_node.Common.{
  ℕ, zero, suc, ◌≤◌, ◌≡◌, refl, true, false, List, [], ◌∷◌, ◌++◌, arith, if◌then◌else◌, length,
  take, get_or, All, length-append,
}
use davinci_node.Db.{Key, key_eq, is_member-insert, key_eq_refl, eq_of_key_eq, key_eq-append}
use davinci_node.Db.Order.{IsAbove, IsOrdered, key_lt_irrefl}
use davinci_node.Storage.Types.{ProcessId, ok, encoded, VerifiedBallot}
use davinci_node.Storage.Store.{Env, Store}
use davinci_node.Storage.Reservations.{
  verified_queue, queue_prefix, is_reserved, reservation_key, set_reservation,
}
use davinci_node.Storage.Verified.{
  verified_entries, pull_entries, keys_of_pulled, ballots_of_pulled, reserve_pulled,
  pull_verified_ballots,
}
use davinci_node.Storage.Verified.Pulled.{
  hands_out_whole, entries-IsOrdered, entries-IsStored, AddressesDiffer, AreFree,
  pull_entries-length, pull_entries-AddressesDiffer, pull_entries-AreFree, pull_entries-IsOrdered,
}

length-keys_of_pulled : (ps : List (Key × VerifiedBallot)) → length (keys_of_pulled ps) ≡ length ps
unfolding keys_of_pulled
length-keys_of_pulled [] = refl
length-keys_of_pulled ((k, vb) ∷ ps) = ground (arith, length-keys_of_pulled ps)

length-ballots_of_pulled :
    (ps : List (Key × VerifiedBallot)) → length (ballots_of_pulled ps) ≡ length ps
unfolding ballots_of_pulled
length-ballots_of_pulled [] = refl
length-ballots_of_pulled ((k, vb) ∷ ps) = ground (arith, length-ballots_of_pulled ps)

take_all : (ks : List Key) → take (length ks) ks ≡ ks
take_all [] = refl
take_all (k ∷ ks) = ground (arith, take_all ks)

module _ (e : Env) where
  -- The keys can be reserved one after the other.
  abbrev Unclaimed : Store → List Key → Type 0
  Unclaimed s [] = Unit
  Unclaimed s (k ∷ ks) =
      (is_reserved verified_queue k s ≡ false)
      × Unclaimed (set_reservation e verified_queue k s).0 ks

  reserve_all : List Key → Store → Store
  reserve_all [] s = s
  reserve_all (k ∷ ks) s = reserve_all ks (set_reservation e verified_queue k s).0

  is_reserved-set_reservation :
      (j k : Key) (s : Store)
      → is_reserved verified_queue j (set_reservation e verified_queue k s).0
        ≡ (if key_eq k j then true else is_reserved verified_queue j s)
  unfolding is_reserved set_reservation reservation_key
  is_reserved-set_reservation j k s = ground (
    arith,
    is_member-insert (reservation_key verified_queue j) (reservation_key verified_queue k)
        (encoded e.now) s.reservations,
    key_eq-append (queue_prefix verified_queue) k j,
    eq_of_key_eq k j,
  )

  set_reservation-free :
      (k : Key) (s : Store)
      → is_reserved verified_queue k s ≡ false
      → (set_reservation e verified_queue k s).1 ≡ ok tt
  unfolding is_reserved set_reservation
  set_reservation-free k s h = ground arith

  get_or-append :
      (done : List Key) (k : Key) (ks : List Key) → get_or (done ++ k ∷ ks) (length done) [] ≡ k
  get_or-append [] k ks = refl
  get_or-append (j ∷ done) k ks = get_or-append done k ks

  append_assoc :
      (done : List Key) (k : Key) (ks : List Key) → (done ++ k ∷ []) ++ ks ≡ done ++ k ∷ ks
  append_assoc [] k ks = refl
  append_assoc (j ∷ done) k ks = ground (arith, append_assoc done k ks)

  -- The loop reserves every key that can be, and drops nothing.
  reserve_pulled-Unclaimed :
      (done todo : List Key) (res : List VerifiedBallot) (s : Store)
      → Unclaimed s todo
      → reserve_pulled e (length todo) (length done) (done ++ todo) res s
        ≡ (reserve_all todo s, done ++ todo, res)
  unfolding reserve_pulled reserve_all
  reserve_pulled-Unclaimed done [] res s h = refl
  reserve_pulled-Unclaimed done (k ∷ todo) res s h = ground (
    arith,
    get_or-append done k todo,
    append_assoc done k todo,
    length-append done (k ∷ []),
    set_reservation-free k s h.0,
    reserve_pulled-Unclaimed (done ++ k ∷ []) todo res (set_reservation e verified_queue k s).0 h.1,
  )

  reserve_all-kept :
      (j : Key) (ks : List Key) (s : Store)
      → is_reserved verified_queue j s ≡ true
      → is_reserved verified_queue j (reserve_all ks s) ≡ true
  unfolding reserve_all
  reserve_all-kept j [] s h = h
  reserve_all-kept j (k ∷ ks) s h =
      reserve_all-kept j ks (set_reservation e verified_queue k s).0
        (ground (arith, is_reserved-set_reservation j k s))

  reserve_all-All :
      (ks : List Key) (s : Store)
      → All (λ k. is_reserved verified_queue k (reserve_all ks s) ≡ true) ks
  unfolding reserve_all
  reserve_all-All [] s = tt
  reserve_all-All (k ∷ ks) s = (
    reserve_all-kept k ks (set_reservation e verified_queue k s).0
        (ground (arith, is_reserved-set_reservation k k s, key_eq_refl k)),
    reserve_all-All ks (set_reservation e verified_queue k s).0,
  )

  AllFree : Store → List (Key × VerifiedBallot) → Type 0
  AllFree s ps = All (λ k. is_reserved verified_queue k s ≡ false) (keys_of_pulled ps)

  AllFree-set_reservation :
      (k : Key) (ps : List (Key × VerifiedBallot)) (s : Store)
      → IsAbove k ps
      → AllFree s ps
      → AllFree (set_reservation e verified_queue k s).0 ps
  unfolding AllFree keys_of_pulled
  AllFree-set_reservation k [] s a h = tt
  AllFree-set_reservation k ((j, vb) ∷ ps) s a h = (
    ground (arith, is_reserved-set_reservation j k s, h.0, a.0, eq_of_key_eq k j, key_lt_irrefl k),
    AllFree-set_reservation k ps s a.1 h.1,
  )

  Unclaimed-of :
      (ps : List (Key × VerifiedBallot)) (s : Store)
      → IsOrdered ps
      → AllFree s ps
      → Unclaimed s (keys_of_pulled ps)
  unfolding AllFree keys_of_pulled
  Unclaimed-of [] s o h = tt
  Unclaimed-of ((k, vb) ∷ ps) s o h = (
    h.0,
    Unclaimed-of ps (set_reservation e verified_queue k s).0 o.1
        (AllFree-set_reservation k ps s o.0 h.1),
  )

  AllFree-of :
      (ps : List (Key × VerifiedBallot)) (s : Store)
      → AreFree s (keys_of_pulled ps) (ballots_of_pulled ps)
      → AllFree s ps
  unfolding AllFree keys_of_pulled ballots_of_pulled
  AllFree-of [] s h = tt
  AllFree-of ((k, vb) ∷ ps) s h = (h.1, AllFree-of ps s h.2)

  -- What a pull of more than no ballots comes to.
  abbrev pulled_of : ProcessId → ℕ → Store → List (Key × VerifiedBallot)
  pulled_of p n s = pull_entries s n (verified_entries e p s) 0 []

  pulled_of-IsOrdered :
      (p : ProcessId) (n : ℕ) (s : Store)
      → hands_out_whole e.strips (queue_prefix verified_queue) p s.verified ≡ true
      → IsOrdered s.verified
      → IsOrdered (pulled_of p n s)
  unfolding verified_entries
  pulled_of-IsOrdered p n s whole o =
      pull_entries-IsOrdered s n _ 0 []
        (entries-IsOrdered e.strips (queue_prefix verified_queue) p s.verified whole o)

  pulled_of-AreFree :
      (p : ProcessId) (n : ℕ) (s : Store)
      → hands_out_whole e.strips (queue_prefix verified_queue) p s.verified ≡ true
      → IsOrdered s.verified
      → AreFree s (keys_of_pulled (pulled_of p n s)) (ballots_of_pulled (pulled_of p n s))
  unfolding verified_entries
  pulled_of-AreFree p n s whole o =
      pull_entries-AreFree s n _ 0 []
        (entries-IsStored e.strips (queue_prefix verified_queue) p s.verified whole o)

  reserved_pull :
      (p : ProcessId) (n : ℕ) (s : Store)
      → hands_out_whole e.strips (queue_prefix verified_queue) p s.verified ≡ true
      → IsOrdered s.verified
      → reserve_pulled e
          (length (pulled_of p n s))
          0
          (keys_of_pulled (pulled_of p n s))
          (ballots_of_pulled (pulled_of p n s))
          s
        ≡ (
          reserve_all (keys_of_pulled (pulled_of p n s)) s,
          keys_of_pulled (pulled_of p n s),
          ballots_of_pulled (pulled_of p n s),
        )
  reserved_pull p n s whole o =
      let ps = pulled_of p n s in
      let claim = reserve_pulled-Unclaimed [] (keys_of_pulled ps) (ballots_of_pulled ps) s (
        Unclaimed-of ps s (pulled_of-IsOrdered p n s whole o)
          (AllFree-of ps s (pulled_of-AreFree p n s whole o))) in
      ground (arith, claim, length-keys_of_pulled ps)

pulled_result :
    (e : Env) (p : ProcessId) (n : ℕ) (s s' : Store) (res : List VerifiedBallot) (keys : List Key)
    → hands_out_whole e.strips (queue_prefix verified_queue) p s.verified ≡ true
    → IsOrdered s.verified
    → pull_verified_ballots e p (suc n) s ≡ (s', ok (res, keys))
    → (res ≡ ballots_of_pulled (pulled_of e p (suc n) s))
      × (keys ≡ keys_of_pulled (pulled_of e p (suc n) s))
      × (s' ≡ reserve_all e (keys_of_pulled (pulled_of e p (suc n) s)) s)
unfolding pull_verified_ballots
pulled_result e p n s s' res keys whole o h =
    let ps = pulled_of e p (suc n) s in
    ground (
      arith,
      reserved_pull e p (suc n) s whole o,
      length-keys_of_pulled ps,
      length-ballots_of_pulled ps,
      take_all (keys_of_pulled ps),
    )

-- PullVerifiedBallots, on verified ballots in the order of their keys, of which the iteration hands
-- out whole keys up to the process ID that is put back: when it succeeds, it hands out at most `n` ballots, no two of one
-- address, each of them stored under the key that is handed out beside it and reserved by nobody
-- before, and all of these keys are reserved afterwards.
pub pull_verified_ballots-held :
    (e : Env) (p : ProcessId) (n : ℕ) (s s' : Store) (res : List VerifiedBallot) (keys : List Key)
    → hands_out_whole e.strips (queue_prefix verified_queue) p s.verified ≡ true
    → IsOrdered s.verified
    → pull_verified_ballots e p n s ≡ (s', ok (res, keys))
    → (length res ≤ n)
      × AddressesDiffer [] res
      × AreFree s keys res
      × All (λ k. is_reserved verified_queue k s' ≡ true) keys
unfolding pull_verified_ballots
pull_verified_ballots-held e p zero s s' res keys whole o h = ground arith
pull_verified_ballots-held e p (suc n) s s' res keys whole o h =
    let ps = pulled_of e p (suc n) s in
    let result = pulled_result e p n s s' res keys whole o h in
    rw (result.0, result.1, result.2)
      (
        omega (
          arith,
          length-ballots_of_pulled ps,
          pull_entries-length s (suc n) (verified_entries e p s) 0 [] (omega arith),
        ),
        pull_entries-AddressesDiffer s (suc n) (verified_entries e p s) 0 [],
        pulled_of-AreFree e p (suc n) s whole o,
        reserve_all-All e (keys_of_pulled ps) s,
      )
