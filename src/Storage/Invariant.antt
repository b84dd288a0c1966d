-- ===== src/Storage/Invariant.antt =====
-- The rule for invariants of the queues: a test on the processes, the pending total and the statuses
-- that the writes to them keep is kept by every method.
pub mod Ballots
pub mod Verified
pub mod Batches
pub mod Transitions
use davinci_node.Common.{
  ℕ, ◌≡◌, refl, Bool, true, false, not, Option, none, some, List, [], ◌∷◌, arith, Bool-cases, inl,
  inr,
}
use davinci_node.Word.{neg_int}
use davinci_node.Db.{Key, Table, insert, delete, iterate}
use davinci_node.Storage.Types.{
  ProcessId, VoteId, vote_id_bytes, Result, ok, err, Encoded, encoded, garbage, Ballot,
  VerifiedBallot, Process, StatsPendingBallots, ProcessStatsUpdate,
}
use davinci_node.Storage.Store.{Env, Store, get_artifact}
use davinci_node.Storage.Reservations.{
  Queue, set_reservation, delete_reservation, lock_vote_id, lock_address, release_vote_id,
  release_address, release_locks, store_address_info, delete_address_info,
}
use davinci_node.Storage.Stats.{update_process_stats}
use davinci_node.Storage.Processes.{Change, callback, update_process}
use davinci_node.Storage.Status.{set_vote_id_status, mark_vote_ids_done}
use davinci_node.Storage.Status.Code

-- A test on the parts of the store that carry the statistics and the statuses.
abbrev pub Test : Type 0
Test = Table (Encoded Process) → Option (Encoded StatsPendingBallots) → Table (List ℕ) → Bool

abbrev pub Holds : Test → Store → Type 0
Holds t s = t s.processes s.total_pending s.statuses ≡ true

pub record Rule (t : Test) : Type 0 where
  pub stats :
      (e : Env) (id : ProcessId) (us : List ProcessStatsUpdate) (s : Store)
      → Holds t s
      → Holds t (update_process_stats e id us s).0
  pub status :
      (p : ProcessId) (v : VoteId) (code : ℕ) (s : Store)
      → Holds t s
      → Holds t (set_vote_id_status p v code s)
  pub done :
      (p : ProcessId) (vs : List VoteId) (s : Store)
      → Holds t s
      → Holds t (mark_vote_ids_done p vs s)
  pub update :
      (id : ProcessId) (c : Change) (s : Store)
      → Holds t s
      → Holds t (update_process id (callback c ∷ []) s).0
