-- ===== src/Tests/Data.antt =====
-- A process, its voters, and a storage that holds them.
use davinci_node.Common.{◌≡◌, ap, ℕ, ◌+◌, ◌^◌, true, none, some, [], ◌∷◌, ◌++◌, ◌==◌}
use davinci_node.Db.{Key}
use davinci_node.Storage.Types.{
  ProcessId, VoteId, Result, encoded, Ballot, VerifiedBallot, AggregatorBallotBatch,
  StateTransitionBatch, ProcessStats, ready, Process,
}
use davinci_node.Storage.Store.{Env, Store, written}

-- 31 bytes: a contract's address, a version and a counter.
abbrev pub election : ProcessId
election =
    10 ∷ 11 ∷ 12 ∷ 13 ∷ 14 ∷ 15 ∷ 16 ∷ 17 ∷ 18 ∷ 19 ∷ 20 ∷ 21 ∷ 22 ∷ 23 ∷ 24 ∷ 25 ∷ 26 ∷ 27 ∷ 28
    ∷ 29 ∷ 0 ∷ 0 ∷ 0 ∷ 1 ∷ 0 ∷ 0 ∷ 0 ∷ 0 ∷ 0 ∷ 0 ∷ 7 ∷ []

-- An election whose contract has an address that starts with the bytes of "p/".
abbrev pub unlucky : Key
unlucky =
    12 ∷ 13 ∷ 14 ∷ 15 ∷ 16 ∷ 17 ∷ 18 ∷ 19 ∷ 20 ∷ 21 ∷ 22 ∷ 23 ∷ 24 ∷ 25 ∷ 26 ∷ 27 ∷ 28 ∷ 29 ∷ 0 ∷ 0
    ∷ 0 ∷ 1 ∷ 0 ∷ 0 ∷ 0 ∷ 0 ∷ 0 ∷ 0 ∷ 7 ∷ []

abbrev pub first_vote : VoteId
first_vote = 2 ^ 63 + 1

abbrev pub second_vote : VoteId
second_vote = 2 ^ 63 + 2

-- A vote ID's eight bytes.
abbrev pub vote_key : ℕ → Key
vote_key n = 128 ∷ 0 ∷ 0 ∷ 0 ∷ 0 ∷ 0 ∷ 0 ∷ n ∷ []

-- PebbleDB, at the second 5000; the state holds no vote.
abbrev pub env : Env
env = record {
  now = 5000;
  strips = true;
  batch_hash = λ b. 200 ∷ [];
  transition_hash = λ b. 201 ∷ [];
  snapshot = λ p root. some (λ v. v == 0);
  ballot_write = λ b. written;
}

abbrev pub counts : ProcessStats
counts = record {
  state_transition_count = 0;
  last_state_transition_date = 0;
  settled_state_transition_count = 0;
  aggregated_votes_count = 0;
  verified_votes_count = 0;
  pending_votes_count = 2;
  current_batch_size = 0;
  last_batch_size = 0;
}

abbrev pub election_process : Process
election_process = record {
  id = election;
  status = ready;
  encryption_key = some (1, 2);
  state_root = some 77;
  result = [];
  start_time = 1000;
  duration = 9000;
  census = none;
  voters_count = none;
  overwritten_votes_count = none;
  max_voters = none;
  stats = counts;
  registered_for_sequencing = true;
  content = 0;
}

abbrev pub ballot_of : VoteId → ℕ → Ballot
ballot_of v a = record { process_id = election; address = a; vote_id = v; content = 0 }

abbrev pub verified_of : VoteId → ℕ → VerifiedBallot
verified_of v a = record { vote_id = v; process_id = election; address = a; content = 0 }

-- A batch of one ballot, which failed once at the second 4000.
abbrev pub batch : AggregatorBallotBatch
batch = record {
  process_id = election;
  ballots = record { vote_id = first_vote; address = 900; content = 0 } ∷ [];
  attempts = 1;
  last_attempt_time = some 4000;
  content = 0;
}

abbrev pub transition : StateTransitionBatch
transition = record {
  process_id = election;
  ballots = record { vote_id = first_vote; address = 900; content = 0 } ∷ [];
  root_hash_after = none;
  batch_id = [];
  content = 0;
}

-- A storage with the process and nothing in flight.
abbrev pub quiet : Store
quiet = record {
  ballots = [];
  verified = [];
  batches = [];
  pending_batches = [];
  transitions = [];
  transition_artifacts = [];
  reservations = [];
  statuses = [];
  processes = (election, encoded election_process) ∷ [];
  total_stats = none;
  total_pending = some (encoded (record { total_pending_ballots = 2; last_update_date = 0 }));
  pending_txs = [];
  worker_stats = [];
  verified_results = [];
  processing_vote_ids = [];
  processing_addresses = [];
  vote_id_to_address = [];
}

-- Two ballots that wait.
abbrev pub waiting : Store
waiting = record quiet {
  ballots =
      (vote_key 1, encoded (ballot_of first_vote 900))
      ∷ (vote_key 2, encoded (ballot_of second_vote 901))
      ∷ [];
}

-- Two verified ballots of one voter and one of another, a batch, a transition, and their statuses.
abbrev pub busy : Store
busy = record waiting {
  verified =
      (election ++ vote_key 1, encoded (verified_of first_vote 900))
      ∷ (election ++ vote_key 2, encoded (verified_of second_vote 900))
      ∷ (election ++ vote_key 3, encoded (verified_of (2 ^ 63 + 3) 902))
      ∷ [];
  batches = (election ++ 200 ∷ [], encoded batch) ∷ [];
  pending_batches = (election, encoded batch) ∷ [];
  transitions = (election ++ 201 ∷ [], encoded transition) ∷ [];
  statuses =
      (election ++ vote_key 1, 4 ∷ 0 ∷ 0 ∷ 0 ∷ 0 ∷ 0 ∷ 0 ∷ 0 ∷ [])
      ∷ (election ++ vote_key 2, 1 ∷ 0 ∷ 0 ∷ 0 ∷ 0 ∷ 0 ∷ 0 ∷ 0 ∷ [])
      ∷ [];
  reservations = (b'b' ∷ b'/' ∷ vote_key 1, encoded 4000) ∷ [];
}

-- What a call returns, with the store that it leaves.
pub as_pair {ℓ} : {A : Type ℓ} (x : Store × Result A) (r : Result A) → x.1 ≡ r → x ≡ (x.0, r)
as_pair x r h = ap (λ y. (x.0, y)) h
