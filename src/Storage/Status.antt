-- ===== src/Storage/Status.antt =====
-- Vote statuses (storage/vote_id_status.go).
pub mod Code
pub mod Reads
pub mod Steps
pub mod Timeouts
pub mod Kept
use davinci_node.Common.{
  ℕ, ◌+◌, ◌-◌, ◌^◌, Bool, true, false, ◌&&◌, ◌||◌, Option, none, some, List, [], ◌∷◌, ◌++◌, leb,
  ◌==◌, if◌then◌else◌,
}
use davinci_node.Word.Bytes.{int_to_bytes, bytes_to_int}
use davinci_node.Db.{Key, Table, lookup, insert, iterate}
use davinci_node.Storage.Types.{
  ProcessId, VoteId, vote_id_bytes, not_found, decode_failed, Result, ok, err,
}
use davinci_node.Storage.Store.{Env, Store}
use davinci_node.Storage.Processes.{process}
use Code

-- "vs/"
abbrev pub status_prefix : Key
status_prefix = b'v' ∷ b's' ∷ b'/' ∷ []

-- createVoteIDStatusKey
abbrev pub status_key : ProcessId → VoteId → Key
status_key p v = p ++ vote_id_bytes v

-- VoteIDMin ≤ v ≤ VoteIDMax (types/state.go)
abbrev pub is_valid_vote_id : VoteId → Bool
is_valid_vote_id v = leb (2 ^ 63) v && leb v (2 ^ 64 - 1)

-- state.ContainsVoteID, over the tree of a snapshot.
abbrev pub contains_vote_id : (VoteId → Bool) → VoteId → Bool
contains_vote_id tree v = is_valid_vote_id v && tree v

-- A done vote that the state contains reads as settled.
unfoldable pub settle : Env → ProcessId → VoteId → Store → Result ℕ
unfolding process
settle e p v s = elim (process p s) [
  | err x ↦ err x
  | ok pr ↦ elim (e.snapshot p pr.state_root) [
    | none ↦ ok Code.done
    | some tree ↦ if contains_vote_id tree v then ok Code.settled else ok Code.done
  ]
]

unfoldable pub vote_id_status : Env → ProcessId → VoteId → Store → Result ℕ
unfolding settle
vote_id_status e p v s = elim (lookup (status_key p v) s.statuses) [
  | none ↦ err not_found
  | some bytes ↦ elim (bytes_to_int bytes) [
    | none ↦ err decode_failed
    | some status ↦ if status == Code.done then settle e p v s else ok status
  ]
]

-- The Boolean that setVoteIDStatus only logs about.
unfoldable pub is_valid_status_transition : ℕ → ℕ → Bool
is_valid_status_transition from to =
    if from == Code.done
    then false
    else if to == Code.error || to == Code.timeout
    then true
    else if to == Code.done
    then from == Code.processed
    else if from == Code.pending
    then to == Code.verified
    else if from == Code.verified
    then to == Code.aggregated
    else if from == Code.aggregated
    then to == Code.processed
    else if from == Code.processed
    then to == Code.done || to == Code.aggregated
    else false

unfoldable pub is_done_value : Option (List ℕ) → Bool
is_done_value none = false
is_done_value (some bytes) = elim (bytes_to_int bytes) [
  | none ↦ false
  | some status ↦ status == Code.done
]

-- A done status is final; every other one is overwritten, an invalid transition only being logged.
unfoldable pub write_status : Key → ℕ → Table (List ℕ) → Table (List ℕ)
unfolding is_done_value
write_status k status m = if is_done_value (lookup k m) then m else insert k (int_to_bytes status) m

-- The errors of setVoteIDStatus are those of the database.
unfoldable pub set_vote_id_status : ProcessId → VoteId → ℕ → Store → Store
unfolding write_status
set_vote_id_status p v status s = record s {
  statuses = write_status (status_key p v) status s.statuses;
}

unfoldable pub set_vote_id_statuses : ProcessId → List VoteId → ℕ → Store → Store
set_vote_id_statuses p [] status s = s
set_vote_id_statuses p (v ∷ vs) status s =
    set_vote_id_statuses p vs status (set_vote_id_status p v status s)

-- The writes of markVoteIDsDone.
unfoldable pub write_done : ProcessId → List VoteId → Table (List ℕ) → Table (List ℕ)
write_done p [] m = m
write_done p (v ∷ vs) m = write_done p vs (insert (status_key p v) (int_to_bytes Code.done) m)

unfoldable pub mark_vote_ids_done : ProcessId → List VoteId → Store → Store
unfolding write_done
mark_vote_ids_done p vs s = record s { statuses = write_done p vs s.statuses }

-- The callback of markProcessVoteIDsTimeout over the entries as the iteration hands them out. The key
-- that is written is the process ID followed by the key that was handed out.
unfoldable pub write_timeouts :
    ProcessId → List (Key × List ℕ) → Table (List ℕ) → ℕ → Table (List ℕ) × ℕ
write_timeouts p [] m count = (m, count)
write_timeouts p ((k, bytes) ∷ rest) m count =
    let skip = write_timeouts p rest m count in
    let mark = write_timeouts p rest (insert (p ++ k) (int_to_bytes Code.timeout) m) (count + 1) in
    elim (bytes_to_int bytes) [
      | none ↦ skip
      | some status ↦ if status == Code.done then skip else mark
    ]

unfoldable pub mark_process_vote_ids_timeout : Env → ProcessId → Store → Store × ℕ
unfolding write_timeouts
mark_process_vote_ids_timeout e p s =
    let (m, count) = write_timeouts p (iterate e.strips status_prefix p s.statuses) s.statuses 0 in
    (record s { statuses = m }, count)
