-- ===== src/Storage/Retry/Bounded.antt =====
-- What MarkStateTransitionBatchFailed puts back into the queue of aggregated batches.
use davinci_node.Common.{
  Option-cases, Bool-cases, ℕ, ◌≤◌, ◌<◌, ◌^◌, ◌≡◌, ◌⊎◌, if◌then◌else◌, inl, inr, refl, Bool, false,
  some, List, [], ◌∷◌, arith, ◌++◌,
}
use davinci_node.Word.{add_int, neg_int, int_of_length}
use davinci_node.Db.{Key, lookup, insert, lookup-insert, eq_of_key_eq}
use davinci_node.Storage.Types.{
  Result-cases, ProcessId, VoteId, ok, encoded, AggregatorBallot, AggregatorBallotBatch,
  StateTransitionBatch, Process,
}
use davinci_node.Storage.Store.{Env, Store, get_artifact}
use davinci_node.Storage.Stats.Frame.{update_process_stats-frame}
use davinci_node.Storage.Status.{set_vote_id_status, set_vote_id_statuses, contains_vote_id}
use davinci_node.Storage.Status.Code
use davinci_node.Storage.Processes.{process, process_is_accepting_votes}
use davinci_node.Storage.Batches.{
  push_aggregator_batch, pending_aggregator_batch, release_pending_aggregator_batch,
  aggregated_votes_by, last_batch_size_is, vote_ids_of,
}
use davinci_node.Storage.Ballots.{batch_size_by}
use davinci_node.Storage.Retry.{
  keep_valid, repush, retry_if_accepting, retry_pending, drop_failed, attempts_exhausted,
  mark_state_transition_batch_failed,
}
use davinci_node.Storage.Transitions.{
  max_state_transition_attempts, remove_artifact_of, prune_pending_tx,
  remove_state_transition_batch,
}
use davinci_node.Storage.Reservations.{delete_reservation}

set_vote_id_statuses-batches :
    (p : ProcessId) (vs : List VoteId) (code : ℕ) (s : Store)
    → ((set_vote_id_statuses p vs code s).batches ≡ s.batches)
unfolding set_vote_id_statuses set_vote_id_status
set_vote_id_statuses-batches p [] code s = refl
set_vote_id_statuses-batches p (v ∷ vs) code s =
    set_vote_id_statuses-batches p vs code (set_vote_id_status p v code s)

push_aggregator_batch-batches :
    (e : Env) (b : AggregatorBallotBatch) (s : Store)
    → (push_aggregator_batch e b s).0.batches
      ≡ insert (b.process_id ++ e.batch_hash b) (encoded b) s.batches
unfolding push_aggregator_batch
push_aggregator_batch-batches e b s =
    let size = int_of_length b.ballots in
    grind (
      arith,
      set_vote_id_statuses-batches,
      update_process_stats-frame e b.process_id
          (aggregated_votes_by size ∷ last_batch_size_is size ∷ batch_size_by (neg_int size) ∷ [])
          (record s { batches = insert (b.process_id ++ e.batch_hash b) (encoded b) s.batches }),
    )

keep_valid-batches :
    (p : ProcessId) (tree : VoteId → Bool) (bs : List AggregatorBallot) (s : Store)
    → (keep_valid p tree bs s).0.batches ≡ s.batches
unfolding keep_valid set_vote_id_status
keep_valid-batches p tree [] s = refl
keep_valid-batches p tree (b ∷ bs) s = ground (
  arith,
  keep_valid-batches p tree bs s,
  keep_valid-batches p tree bs (set_vote_id_status p b.vote_id Code.error s),
)

-- The ballots that the tree does not hold.
abbrev pub missing_from : (VoteId → Bool) → List AggregatorBallot → List AggregatorBallot
missing_from tree [] = []
missing_from tree (b ∷ bs) =
    if contains_vote_id tree b.vote_id then missing_from tree bs else b ∷ missing_from tree bs

keep_valid-ballots :
    (p : ProcessId) (tree : VoteId → Bool) (bs : List AggregatorBallot) (s : Store)
    → (keep_valid p tree bs s).1 ≡ missing_from tree bs
unfolding keep_valid
keep_valid-ballots p tree [] s = refl
keep_valid-ballots p tree (b ∷ bs) s = ground (
  arith,
  keep_valid-ballots p tree bs s,
  keep_valid-ballots p tree bs (set_vote_id_status p b.vote_id Code.error s),
)

-- The pending batch on its next attempt, with the transition's ballots that the tree does not hold.
abbrev pub next_attempt :
    ℕ → AggregatorBallotBatch → List AggregatorBallot → (VoteId → Bool) → AggregatorBallotBatch
next_attempt now pending ballots tree = record pending {
  attempts = add_int pending.attempts 1;
  ballots = missing_from tree ballots;
  last_attempt_time = some now;
}

-- The batch `c` under the key `j` is the pending batch on its next attempt, with the ballots of the
-- transition `b` that the state of its process does not hold.
abbrev pub IsNextAttempt :
    Env
    → StateTransitionBatch
    → AggregatorBallotBatch
    → Key
    → AggregatorBallotBatch
    → Store
    → Type 0
IsNextAttempt e b pending j c s =
    (pr : Process) × (root : ℕ) × (tree : VoteId → Bool) × (process b.process_id s ≡ ok pr)
    × (pr.state_root ≡ some root)
    × (e.snapshot b.process_id (some root) ≡ some tree)
    × (c ≡ next_attempt e.now pending b.ballots tree)
    × (j ≡ c.process_id ++ e.batch_hash c)

repush-batches :
    (e : Env) (pending : AggregatorBallotBatch) (b : StateTransitionBatch) (tree : VoteId → Bool)
    (s : Store) (j : Key) (c : AggregatorBallotBatch)
    → lookup j (repush e pending b tree s).0.batches ≡ some (encoded c)
    → (lookup j s.batches ≡ some (encoded c))
      ⊎ ((c ≡ next_attempt e.now pending b.ballots tree) × (j ≡ c.process_id ++ e.batch_hash c))
unfolding repush
repush-batches e pending b tree s j c h =
    let kept = keep_valid b.process_id tree b.ballots s in
    let next : AggregatorBallotBatch = record pending {
      attempts = add_int pending.attempts 1;
      ballots = kept.1;
      last_attempt_time = some e.now;
    } in
    let k = next.process_id ++ e.batch_hash next in
    ground (
      arith,
      keep_valid-batches b.process_id tree b.ballots s,
      keep_valid-ballots b.process_id tree b.ballots s,
      push_aggregator_batch-batches e next kept.0,
      lookup-insert j k (encoded next) kept.0.batches,
      eq_of_key_eq k j,
    )

retry_if_accepting-batches :
    (e : Env) (pending : AggregatorBallotBatch) (b : StateTransitionBatch) (s : Store) (j : Key)
    (c : AggregatorBallotBatch)
    → lookup j (retry_if_accepting e pending b s).0.batches ≡ some (encoded c)
    → (lookup j s.batches ≡ some (encoded c)) ⊎ IsNextAttempt e b pending j c s
unfolding retry_if_accepting
retry_if_accepting-batches e pending b s j c h = elim (Result-cases (process b.process_id s)) [
  | inr (x, missing) ↦ inl (ground arith)
  | inl (p, found) ↦ elim (Result-cases (process_is_accepting_votes e.now p)) [
    | inr (x, refused) ↦ inl (
        ground
          (arith, set_vote_id_statuses-batches b.process_id (vote_ids_of b.ballots) Code.error s))
    | inl (alive, accepting) ↦ elim (Option-cases p.state_root) [
      | inl missing ↦ inl (ground arith)
      | inr (root, rooted) ↦ elim (Option-cases (e.snapshot b.process_id (some root))) [
        | inl missing ↦ inl (ground arith)
        | inr (tree, loaded) ↦ elim (repush-batches e pending b tree s j c (ground arith)) [
          | inl kept ↦ inl kept
          | inr (next, key) ↦ inr (p, root, tree, found, rooted, loaded, next, key)
        ]
      ]
    ]
  ]
]

-- As an int of 64 bits, below MaxStateTransitionAttempts.
abbrev pub IsBelowLimit : ℕ → Type 0
IsBelowLimit attempts = (attempts < max_state_transition_attempts) ⊎ (2 ^ 63 ≤ attempts)

attempts_exhausted-IsBelowLimit : (n : ℕ) → attempts_exhausted n ≡ false → IsBelowLimit n
unfolding attempts_exhausted
attempts_exhausted-IsBelowLimit n h = ground arith

-- The batch `c` under the key `j` is the pending batch of the process on its next attempt after the
-- transition `b`, below the limit of attempts.
abbrev pub IsRetried :
    Env → StateTransitionBatch → ProcessId → Key → AggregatorBallotBatch → Store → Type 0
IsRetried e b p j c s =
    (pending : AggregatorBallotBatch) × (pending_aggregator_batch p s ≡ ok pending)
    × IsBelowLimit c.attempts
    × IsNextAttempt e b pending j c s

abbrev pub Requeued : Env → Key → ProcessId → Key → AggregatorBallotBatch → Store → Type 0
Requeued e k p j c s =
    (lookup j s.batches ≡ some (encoded c))
    ⊎ ((b : StateTransitionBatch) × (get_artifact k s.transitions ≡ ok b) × IsRetried e b p j c s)

release_pending-parts :
    (p : ProcessId) (s : Store)
    → ((release_pending_aggregator_batch p s).batches ≡ s.batches)
      × ((release_pending_aggregator_batch p s).processes ≡ s.processes)
unfolding release_pending_aggregator_batch
release_pending-parts p s = (refl, refl)

released-IsNextAttempt :
    (e : Env) (b : StateTransitionBatch) (p : ProcessId) (pending : AggregatorBallotBatch) (j : Key)
    (c : AggregatorBallotBatch) (s : Store)
    → IsNextAttempt e b pending j c (release_pending_aggregator_batch p s)
    → IsNextAttempt e b pending j c s
unfolding release_pending_aggregator_batch process
released-IsNextAttempt e b p pending j c s next = next

below-of :
    (e : Env) (pending : AggregatorBallotBatch) (b : StateTransitionBatch) (j : Key)
    (c : AggregatorBallotBatch) (s : Store)
    → IsNextAttempt e b pending j c s
    → IsBelowLimit (add_int pending.attempts 1)
    → IsBelowLimit c.attempts
below-of e pending b j c s (pr, root, tree, found, rooted, loaded, next, key) below = rw next below

retry_pending-batches :
    (e : Env) (p : ProcessId) (b : StateTransitionBatch) (s : Store) (j : Key)
    (c : AggregatorBallotBatch)
    → lookup j (retry_pending e p b s).0.batches ≡ some (encoded c)
    → (lookup j s.batches ≡ some (encoded c)) ⊎ IsRetried e b p j c s
unfolding retry_pending
retry_pending-batches e p b s j c h = elim (Result-cases (pending_aggregator_batch p s)) [
  | inr (x, missing) ↦
      inl (ground (arith, set_vote_id_statuses-batches p (vote_ids_of b.ballots) Code.error s))
  | inl (pending, found) ↦
      let released = release_pending_aggregator_batch p s in
      elim (Bool-cases (attempts_exhausted (add_int pending.attempts 1))) [
        | inl out ↦ inl (
            ground (
              arith,
              set_vote_id_statuses-batches p (vote_ids_of b.ballots) Code.error released,
              release_pending-parts p s,
            ))
        | inr more ↦ elim (retry_if_accepting-batches e pending b released j c (ground arith)) [
          | inl kept ↦ inl (ground (arith, kept, release_pending-parts p s))
          | inr next ↦ inr (
            pending,
            found,
            below-of e pending b j c released next
                (attempts_exhausted-IsBelowLimit (add_int pending.attempts 1) more),
            released-IsNextAttempt e b p pending j c s next,
          )
        ]
      ]
]

removed-parts :
    (b : StateTransitionBatch) (s : Store)
    → ((remove_artifact_of b s).batches ≡ s.batches)
      × ((remove_artifact_of b s).processes ≡ s.processes)
      × ((remove_artifact_of b s).pending_batches ≡ s.pending_batches)
unfolding remove_artifact_of
removed-parts b s = ground arith

removed-IsRetried :
    (e : Env) (b : StateTransitionBatch) (p : ProcessId) (j : Key) (c : AggregatorBallotBatch)
    (s : Store)
    → IsRetried e b p j c (remove_artifact_of b s)
    → IsRetried e b p j c s
unfolding pending_aggregator_batch process
removed-IsRetried e b p j c s
      (pending, held, below, (pr, root, tree, found, rooted, loaded, next, key)) =
    let same = removed-parts b s in
    (
      pending,
      rw (← same.2) held,
      below,
      (pr, root, tree, rw (← same.1) found, rooted, loaded, next, key),
    )

-- After MarkStateTransitionBatchFailed, every batch in the queue of aggregated batches was there
-- before; or it is the pending batch of the process, with one more attempt counted, which is below
-- MaxStateTransitionAttempts, with the time of this call as its last attempt, and with those ballots of
-- the failed transition that the state of its process does not hold.
pub mark_state_transition_batch_failed-Requeued :
    (e : Env) (k : Key) (p : ProcessId) (s : Store) (j : Key) (c : AggregatorBallotBatch)
    → lookup j (mark_state_transition_batch_failed e k p s).0.batches ≡ some (encoded c)
    → Requeued e k p j c s
unfolding mark_state_transition_batch_failed drop_failed prune_pending_tx
    remove_state_transition_batch delete_reservation
mark_state_transition_batch_failed-Requeued e k p s j c h =
    elim (Result-cases (get_artifact k s.transitions)) [
      | inr (x, missing) ↦ inl (ground arith)
      | inl (b, found) ↦
          elim (retry_pending-batches e p b (remove_artifact_of b s) j c (ground arith)) [
            | inl kept ↦ inl (ground (arith, kept, removed-parts b s))
            | inr retried ↦ inr (b, found, removed-IsRetried e b p j c s retried)
          ]
    ]
