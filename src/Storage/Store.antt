-- ===== src/Storage/Store.antt =====
-- The state of storage.Storage: its database, one table for each namespace, and its three maps in
-- memory. Each method runs under globalLock, so it is one function from a store to a store. A
-- transaction on the database succeeds, as in db/inmemory, where Set and Delete never fail and
-- Commit fails only on a concurrent write; PushPendingBallot alone is modelled with writes that may
-- fail. `Env` holds what a call takes from outside.
use davinci_node.Common.{ℕ, Bool, Option, none, some, List}
use davinci_node.Db.{Key, Table, lookup}
use davinci_node.Storage.Types.{
  ProcessId, VoteId, not_found, decode_failed, Result, ok, err, Encoded, encoded, garbage, Ballot,
  VerifiedBallot, AggregatorBallotBatch, StateTransitionBatch, TransitionArtifact, Process, Stats,
  StatsPendingBallots, AddressInfo, WorkerStats, VerifiedResults,
}

-- How the writes of PushPendingBallot end: all succeed, or the first that fails is the encoding, the
-- Set or the Commit of the ballot, or the Set or the Commit of the status.
pub data WriteOutcome : Type 0 where
  written encoding_fails setting_fails committing_fails status_fails : WriteOutcome

pub record Env : Type 0 where
  -- time.Now().Unix(), once for a call
  pub now : ℕ
  -- whether Iterate hands out keys without the prefix of the iteration (db/pebbledb does)
  pub strips : Bool
  -- hashKey(EncodeArtifact(batch))
  pub batch_hash : AggregatorBallotBatch → Key
  pub transition_hash : StateTransitionBatch → Key
  -- state.LoadSnapshotOnRoot, and whether the snapshot's tree holds the leaf of a vote ID
  pub snapshot : ProcessId → Option ℕ → Option (VoteId → Bool)
  pub ballot_write : Ballot → WriteOutcome

pub record Store : Type 0 where
  -- b/ vb/ ag/ pag/ st/ sta/
  pub ballots : Table (Encoded Ballot)
  pub verified : Table (Encoded VerifiedBallot)
  pub batches : Table (Encoded AggregatorBallotBatch)
  pub pending_batches : Table (Encoded AggregatorBallotBatch)
  pub transitions : Table (Encoded StateTransitionBatch)
  pub transition_artifacts : Table (Encoded TransitionArtifact)
  -- r/, keyed by the queue's prefix and the key; a value is a timestamp
  pub reservations : Table (Encoded ℕ)
  -- vs/, with raw bytes for values
  pub statuses : Table (List ℕ)
  -- p/ and the two entries of s/
  pub processes : Table (Encoded Process)
  pub total_stats : Option (Encoded Stats)
  pub total_pending : Option (Encoded StatsPendingBallots)
  -- ptx/, keyed by the kind of transaction and the process ID
  pub pending_txs : Table (Encoded Bool)
  -- ws/
  pub worker_stats : Table (Encoded WorkerStats)
  -- vr/
  pub verified_results : Table (Encoded VerifiedResults)
  -- the maps in memory: processingVoteIDs, processingAddresses, voteIDToAddress
  pub processing_vote_ids : Table (Unit {0})
  pub processing_addresses : Table (Unit {0})
  pub vote_id_to_address : Table AddressInfo

-- getArtifact at a key that is given.
unfoldable pub get_artifact {ℓ} : {A : Type ℓ} → Key → Table (Encoded A) → Result A
unfolding lookup
get_artifact key table = elim (lookup key table) [
  | none ↦ err not_found
  | some value ↦ elim value [ encoded a ↦ ok a | garbage ↦ err decode_failed ]
]
