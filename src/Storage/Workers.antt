-- ===== src/Storage/Workers.antt =====
-- The counts of finished and failed jobs of each worker (storage/worker_stats.go). The address of a
-- worker is the text that is its key.
use davinci_node.Common.{ℕ, ◌≡◌, List, [], ◌∷◌, arith, if◌then◌else◌}
use davinci_node.Word.{add_int}
use davinci_node.Db.{Key, insert, iterate, lookup-insert, key_eq, key_eq_refl, eq_of_key_eq}
use davinci_node.Storage.Types.{ok, err, Encoded, encoded, garbage, WorkerStats}
use davinci_node.Storage.Store.{Env, Store, get_artifact}

-- "ws/"
abbrev pub worker_stats_prefix : Key
worker_stats_prefix = b'w' ∷ b's' ∷ b'/' ∷ []

-- WorkerStats: a worker that is not known, or whose record does not decode, has counted nothing.
unfoldable pub worker_stats : Key → Store → WorkerStats
worker_stats address s = elim (get_artifact address s.worker_stats) [
  | ok stats ↦ stats
  | err x ↦ record { success_count = 0; failed_count = 0 }
]

-- setWorkerStatsUnsafe
unfoldable pub set_worker_stats : Key → WorkerStats → Store → Store
set_worker_stats address stats s = record s {
  worker_stats = insert address (encoded stats) s.worker_stats;
}

-- IncreaseWorkerJobCount
unfoldable pub increase_worker_job_count : Key → ℕ → Store → Store
unfolding worker_stats set_worker_stats
increase_worker_job_count address delta s =
    let stats = worker_stats address s in
    set_worker_stats address (record stats { success_count = add_int stats.success_count delta }) s

-- IncreaseWorkerFailedJobCount
unfoldable pub increase_worker_failed_job_count : Key → ℕ → Store → Store
unfolding worker_stats set_worker_stats
increase_worker_failed_job_count address delta s =
    let stats = worker_stats address s in
    set_worker_stats address (record stats { failed_count = add_int stats.failed_count delta }) s

unfoldable pub decoded_stats : List (Key × Encoded WorkerStats) → List (Key × WorkerStats)
decoded_stats [] = []
decoded_stats ((k, garbage) ∷ rest) = decoded_stats rest
decoded_stats ((k, encoded stats) ∷ rest) = (k, stats) ∷ decoded_stats rest

-- ListWorkerJobCount
unfoldable pub list_worker_job_count : Env → Store → List (Key × WorkerStats)
unfolding decoded_stats
list_worker_job_count e s = decoded_stats (iterate e.strips worker_stats_prefix [] s.worker_stats)

set_worker_stats-read :
    (j k : Key) (stats : WorkerStats) (s : Store)
    → worker_stats j (set_worker_stats k stats s) ≡ (if key_eq k j then stats else worker_stats j s)
unfolding worker_stats set_worker_stats get_artifact
set_worker_stats-read j k stats s = ground (arith, lookup-insert j k (encoded stats) s.worker_stats)

-- A success and a failure of two workers, counted one after the other: the first has one more success
-- and the second one more failure, also where they are the same worker.
pub worker_stats-increase :
    (j k : Key) (delta : ℕ) (s : Store)
    → let s' = increase_worker_failed_job_count k delta (increase_worker_job_count j delta s) in
      ((worker_stats j s').success_count ≡ add_int (worker_stats j s).success_count delta)
      × ((worker_stats k s').failed_count ≡ add_int (worker_stats k s).failed_count delta)
unfolding increase_worker_job_count increase_worker_failed_job_count
worker_stats-increase j k delta s =
    let stats = worker_stats j s in
    let one =
      set_worker_stats j (record stats { success_count = add_int stats.success_count delta }) s in
    let second = worker_stats k one in
    let next = record second { failed_count = add_int second.failed_count delta } in
    ground (
      arith,
      set_worker_stats-read j j (record stats { success_count = add_int stats.success_count delta })
          s,
      set_worker_stats-read k j (record stats { success_count = add_int stats.success_count delta })
          s,
      set_worker_stats-read j k next one,
      set_worker_stats-read k k next one,
      key_eq_refl j,
      key_eq_refl k,
      eq_of_key_eq j k,
      eq_of_key_eq k j,
    )
