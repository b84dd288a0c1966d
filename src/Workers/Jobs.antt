-- ===== src/Workers/Jobs.antt =====
-- JobsManager (workers/jobs_manager.go). FailedJobs, an unbuffered channel, is the list of the jobs that
-- were sent on it: a call is modelled up to its return, which waits until each send is received. The map
-- `pending` is keyed by the vote ID; the order in which a loop meets its entries is an argument.
pub mod Timeouts
use davinci_node.Common.{
  ℕ, ◌+◌, ◌*◌, ◌≡◌, Bool, true, false, Option, none, some, List, [], ◌∷◌, ◌++◌, ltb, not,
  if◌then◌else◌,
}
use davinci_node.Db.{Key, Table, lookup, insert, delete, key_eq}
use davinci_node.Storage.Types.{VoteId}
use davinci_node.Storage.Store.{Store}
use davinci_node.Storage.Reservations.{vote_id_key}
use davinci_node.Workers.Manager.{
  Manager, BanRules, get_worker, is_banned, new_worker_manager, worker_result, stop_manager,
}

pub record WorkerJob : Type 0 where
  pub vote_id : VoteId
  pub address : Key
  pub timestamp : ℕ
  pub expiration : ℕ

pub record JobsManager : Type 0 where
  pub pending : Table WorkerJob
  pub failed_jobs : List WorkerJob
  pub job_timeout : ℕ
  pub worker_manager : Manager

pub data JobError : Type 0 where
  worker_not_found worker_banned worker_busy worker_job_mismatch job_not_found : JobError

pub data JobResult {ℓ} (A : Type ℓ) : Type ℓ where
  done : A → JobResult A
  failed : JobError → JobResult A

-- NewJobsManager
unfoldable pub new_jobs_manager : ℕ → Option BanRules → JobsManager
unfolding new_worker_manager
new_jobs_manager timeout rules = record {
  pending = [];
  failed_jobs = [];
  job_timeout = timeout;
  worker_manager = new_worker_manager rules;
}

-- One round of checkTimeouts, for a job that has expired.
unfoldable pub expire_job : Key → WorkerJob → JobsManager × Store → JobsManager × Store
expire_job k job (jm, s) =
    let (wm, s') = worker_result job.address false (jm.worker_manager, s) in
    (
      record jm {
        worker_manager = wm;
        failed_jobs = jm.failed_jobs ++ job ∷ [];
        pending = delete k jm.pending;
      },
      s',
    )

unfoldable pub expire_jobs : ℕ → List (Key × WorkerJob) → JobsManager × Store → JobsManager × Store
unfolding expire_job
expire_jobs now [] x = x
expire_jobs now ((k, job) ∷ rest) x =
    let skip = expire_jobs now rest x in
    let expired = expire_jobs now rest (expire_job k job x) in
    if ltb job.expiration now then expired else skip

-- checkTimeouts, whose loop meets the entries of the map in the order that is given, and where each send
-- on FailedJobs is received. Go's order is any order of the map's entries.
unfoldable pub check_timeouts :
    ℕ → List (Key × WorkerJob) → JobsManager × Store → JobsManager × Store
unfolding expire_jobs
check_timeouts now order x = expire_jobs now order x

-- Whether some job is of the worker.
unfoldable pub has_job : Key → List (Key × WorkerJob) → Bool
has_job a [] = false
has_job a ((k, job) ∷ rest) =
    let others = has_job a rest in if key_eq job.address a then true else others

-- IsWorkerAvailable
unfoldable pub is_worker_available : ℕ → Key → JobsManager → JobResult Bool
unfolding has_job
is_worker_available now a jm = elim (get_worker a jm.worker_manager) [
  | none ↦ done true
  | some w ↦
      if is_banned (some jm.worker_manager.rules) now w
      then failed worker_banned
      else if has_job w.address jm.pending
      then failed worker_busy
      else done true
]

-- RegisterJob
unfoldable pub register_job : ℕ → Key → VoteId → JobsManager → JobsManager × JobResult WorkerJob
register_job now a v jm = elim (get_worker a jm.worker_manager) [
  | none ↦ (jm, failed worker_not_found)
  | some w ↦
      let job : WorkerJob = record {
        vote_id = v;
        address = w.address;
        timestamp = now;
        expiration = now + jm.job_timeout;
      } in
      if is_banned (some jm.worker_manager.rules) now w
      then (jm, failed worker_banned)
      else (record jm { pending = insert (vote_id_key v) job jm.pending }, done job)
]

-- Job
unfoldable pub job_of : Key → VoteId → JobsManager → JobResult WorkerJob
job_of a v jm = elim (lookup (vote_id_key v) jm.pending) [
  | none ↦ failed job_not_found
  | some job ↦ if key_eq job.address a then done job else failed worker_job_mismatch
]

-- CompleteJob
unfoldable pub complete_job :
    VoteId → Bool → JobsManager × Store → (JobsManager × Store) × Option WorkerJob
complete_job v success (jm, s) = elim (lookup (vote_id_key v) jm.pending) [
  | none ↦ ((jm, s), none)
  | some job ↦
      let (wm, s') = worker_result job.address success (jm.worker_manager, s) in
      (
        (
          record jm {
            failed_jobs = if success then jm.failed_jobs else jm.failed_jobs ++ job ∷ [];
            worker_manager = wm;
            pending = delete (vote_id_key v) jm.pending;
          },
          s',
        ),
        some job,
      )
]

-- Stop: the channel is closed, and what was sent stays sent.
unfoldable pub stop_jobs : JobsManager → JobsManager
stop_jobs jm = record jm { pending = []; worker_manager = stop_manager jm.worker_manager }
