-- ===== src/Storage/Types.antt =====
-- The artifacts of storage/types.go, the processes of types/process.go and the errors of the storage.
-- `content` stands for the fields that the storage carries along and never reads: proofs,
-- ciphertexts, signatures, weights.
use davinci_node.Common.{
  ℕ, ◌≡◌, refl, ◌⊎◌, inl, inr, Bool, not, ◌&&◌, Option, List, [], ◌∷◌, ◌==◌, take, drop,
}
use davinci_node.Db.{Key}
use davinci_node.Word.Bytes.{be_bytes}

-- types.ProcessID is an array of 31 bytes; Bytes() is that array.
abbrev pub ProcessId : Type 0
ProcessId = Key

abbrev pub process_id_len : ℕ
process_id_len = 31

unfoldable pub is_zero : Key → Bool
is_zero [] = Bool.true
is_zero (b ∷ bs) = b == 0 && is_zero bs

-- A non-zero address (20 bytes) and a non-zero version (4 bytes).
unfoldable pub is_valid_process_id : ProcessId → Bool
unfolding is_zero
is_valid_process_id p = not (is_zero (take 20 p)) && not (is_zero (take 4 (drop 20 p)))

-- types.VoteID is a uint64.
abbrev pub VoteId : Type 0
VoteId = ℕ

unfoldable pub vote_id_bytes : VoteId → Key
vote_id_bytes v = be_bytes 8 v

pub data Error : Type 0 where
  not_found key_already_exists no_more_elements nullifier_processing : Error
  address_processing ballot_already_exists invalid_process_id nil_argument : Error
  decode_failed encode_failed write_failed unknown_type_stats process_exists : Error
  no_encryption_keys no_census no_state_root expired wrong_status : Error
  not_registered snapshot_failed no_update_function no_root_after bad_length state_failed : Error
  status_write_failed : Error

pub data Result {ℓ} (A : Type ℓ) : Type ℓ where
  ok : A → Result A
  err : Error → Result A

infixl 5 ◌>>=◌
abbrev pub ◌>>=◌ {ℓ κ} : {A : Type ℓ} {B : Type κ} → Result A → (A → Result B) → Result B
ok a >>= f = f a
err e >>= f = err e

-- Inversion of a successful chain.
pub >>=-eq-ok {ℓ κ} :
    {A : Type ℓ} {B : Type κ} (r : Result A) (f : A → Result B) {b : B}
    → (r >>= f) ≡ ok b
    → (a : A) × (r ≡ ok a) × (f a ≡ ok b)
>>=-eq-ok (ok a) f h = (a, refl, h)
>>=-eq-ok (err e) f h = cc

-- A split on a result that keeps the equation.
pub Result-cases {ℓ} :
    {A : Type ℓ} (r : Result A) → ((a : A) × (r ≡ ok a)) ⊎ ((x : Error) × (r ≡ err x))
Result-cases (ok a) = inl (a, refl)
Result-cases (err x) = inr (x, refl)

-- What a value in the database decodes to: an artifact, or nothing that DecodeArtifact accepts.
pub data Encoded {ℓ} (A : Type ℓ) : Type ℓ where
  encoded : A → Encoded A
  garbage : Encoded A

pub record Ballot : Type 0 where
  pub process_id : ProcessId
  pub address : ℕ
  pub vote_id : VoteId
  pub content : ℕ

pub record VerifiedBallot : Type 0 where
  pub vote_id : VoteId
  pub process_id : ProcessId
  pub address : ℕ
  pub content : ℕ

pub record AggregatorBallot : Type 0 where
  pub vote_id : VoteId
  pub address : ℕ
  pub content : ℕ

-- `last_attempt_time` is the Unix time, with `none` for the zero time.
pub record AggregatorBallotBatch : Type 0 where
  pub process_id : ProcessId
  pub ballots : List AggregatorBallot
  pub attempts : ℕ
  pub last_attempt_time : Option ℕ
  pub content : ℕ

pub record StateTransitionBatch : Type 0 where
  pub process_id : ProcessId
  pub ballots : List AggregatorBallot
  pub root_hash_after : Option ℕ
  pub batch_id : Key
  pub content : ℕ

-- state.TransitionArtifact
pub record TransitionArtifact : Type 0 where
  pub process_id : ProcessId
  pub root_hash_after : Option ℕ
  pub content : ℕ

-- VerifiedResults; the proof and its inputs are carried as one field.
pub record VerifiedResults : Type 0 where
  pub process_id : ProcessId
  pub content : ℕ

-- types.SequencerProcessStats: ints, as bit patterns.
pub record ProcessStats : Type 0 where
  pub state_transition_count : ℕ
  pub last_state_transition_date : ℕ
  pub settled_state_transition_count : ℕ
  pub aggregated_votes_count : ℕ
  pub verified_votes_count : ℕ
  pub pending_votes_count : ℕ
  pub current_batch_size : ℕ
  pub last_batch_size : ℕ

pub data ProcessStatus : Type 0 where
  ready ended canceled paused results : ProcessStatus
  other_status : ℕ → ProcessStatus

pub record Census : Type 0 where
  pub origin : ℕ
  pub root : Key
  pub uri : Key

pub record Process : Type 0 where
  pub id : ProcessId
  pub status : ProcessStatus
  pub encryption_key : Option (ℕ × ℕ)
  pub state_root : Option ℕ
  pub result : List ℕ
  pub start_time : ℕ
  pub duration : ℕ
  pub census : Option Census
  pub voters_count : Option ℕ
  pub overwritten_votes_count : Option ℕ
  pub max_voters : Option ℕ
  pub stats : ProcessStats
  pub registered_for_sequencing : Bool
  pub content : ℕ

-- Stats and StatsPendingBallots.
pub record Stats : Type 0 where
  pub verified_votes_count : ℕ
  pub aggregated_votes_count : ℕ
  pub state_transition_count : ℕ
  pub settled_state_transition_count : ℕ
  pub last_state_transition_date : ℕ

pub record StatsPendingBallots : Type 0 where
  pub total_pending_ballots : ℕ
  pub last_update_date : ℕ

-- types.TypeStats: an int, of which eight values are named.
pub data TypeStats : Type 0 where
  state_transitions settled_state_transitions aggregated_votes verified_votes : TypeStats
  pending_votes current_batch_size last_batch_size last_transition_date : TypeStats
  other_stats : ℕ → TypeStats

pub record ProcessStatsUpdate : Type 0 where
  pub type_stats : TypeStats
  pub delta : ℕ

pub record AddressInfo : Type 0 where
  pub process_id : ProcessId
  pub address : ℕ

pub record WorkerStats : Type 0 where
  pub success_count : ℕ
  pub failed_count : ℕ
