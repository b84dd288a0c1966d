-- ===== src/Workers/Manager.antt =====
-- WorkerManager (workers/worker_manager.go). A worker is stored by pointer under its address, so that
-- an update in place is an update of the map's entry. Times are Unix nanoseconds.
pub mod Bans
pub mod Lifted
use davinci_node.Common.{
  ℕ, ◌+◌, ◌*◌, ◌≡◌, Bool, true, false, Option, none, some, List, [], ◌∷◌, ◌&&◌, ltb, ◌==◌, not,
  is_empty, if◌then◌else◌,
}
use davinci_node.Word.{add_int, lt_int}
use davinci_node.Db.{Key, Table, lookup, insert}
use davinci_node.Storage.Types.{WorkerStats}
use davinci_node.Storage.Store.{Env, Store}
use davinci_node.Storage.Workers.{
  worker_stats, increase_worker_job_count, increase_worker_failed_job_count, list_worker_job_count,
}

-- `consecutive_fails` is an int64; `banned_until_nanos` is 0 for a worker without a ban.
pub record Worker : Type 0 where
  pub address : Key
  pub name : Key
  pub consecutive_fails : ℕ
  pub banned_until_nanos : ℕ

pub record BanRules : Type 0 where
  pub ban_timeout : ℕ
  pub failures_to_get_banned : ℕ

-- DefaultWorkerBanRules: 30 minutes, 3 failures.
abbrev pub default_ban_rules : BanRules
default_ban_rules = record { ban_timeout = 30 * 60 * 1000000000; failures_to_get_banned = 3 }

-- IsBanned; the nil rules are `none`.
unfoldable pub is_banned : Option BanRules → ℕ → Worker → Bool
is_banned none now w = false
is_banned (some rules) now w =
    if lt_int rules.failures_to_get_banned w.consecutive_fails
    then true
    else if w.banned_until_nanos == 0
    then false
    else ltb now w.banned_until_nanos

pub record Manager : Type 0 where
  pub workers : Table Worker
  pub rules : BanRules

-- NewWorkerManager
unfoldable pub new_worker_manager : Option BanRules → Manager
new_worker_manager none = record { workers = []; rules = default_ban_rules }
new_worker_manager (some rules) = record { workers = []; rules = rules }

-- GetWorker
unfoldable pub get_worker : Key → Manager → Option Worker
get_worker a m = lookup a m.workers

-- Store
unfoldable pub put_worker : Key → Worker → Manager → Manager
put_worker a w m = record m { workers = insert a w m.workers }

abbrev pub fresh_worker : Key → Key → Worker
fresh_worker a name = record {
  address = a;
  name = name;
  consecutive_fails = 0;
  banned_until_nanos = 0;
}

-- AddWorker, with the worker that it returns.
unfoldable pub add_worker : Key → Key → Manager → Manager × Worker
unfolding get_worker put_worker
add_worker a name m = elim (get_worker a m) [
  | none ↦ (put_worker a (fresh_worker a name) m, fresh_worker a name)
  | some w ↦
      let named = record w { name = name } in
      if not (is_empty name) && is_empty w.name then (put_worker a named m, named) else (m, w)
]

-- BannedWorkers, over the entries of the map.
unfoldable pub banned_among : BanRules → ℕ → List (Key × Worker) → List Worker
banned_among rules now [] = []
banned_among rules now ((a, w) ∷ rest) =
    let others = banned_among rules now rest in
    if is_banned (some rules) now w then w ∷ others else others

unfoldable pub banned_workers : ℕ → Manager → List Worker
unfolding banned_among
banned_workers now m = banned_among m.rules now m.workers

-- ResetWorker: a new worker, without the name.
unfoldable pub reset_worker : Key → Manager → Manager
unfolding get_worker put_worker
reset_worker a m = elim (get_worker a m) [ none ↦ m | some w ↦ put_worker a (fresh_worker a []) m ]

-- SetBanDuration
unfoldable pub set_ban_duration : ℕ → Key → Manager → Manager
unfolding get_worker put_worker
set_ban_duration now a m = elim (get_worker a m) [
  | none ↦ m
  | some w ↦ put_worker a (record w { banned_until_nanos = now + m.rules.ban_timeout }) m
]

-- What the ticker of Start does to one banned worker.
unfoldable pub ban_or_reset : ℕ → Worker → Manager → Manager
unfolding set_ban_duration reset_worker
ban_or_reset now w m =
    if w.banned_until_nanos == 0
    then set_ban_duration now w.address m
    else if ltb w.banned_until_nanos now
    then reset_worker w.address m
    else m

unfoldable pub ban_or_reset_all : ℕ → List Worker → Manager → Manager
unfolding ban_or_reset
ban_or_reset_all now [] m = m
ban_or_reset_all now (w ∷ ws) m = ban_or_reset_all now ws (ban_or_reset now w m)

-- One tick of Start.
unfoldable pub tick : ℕ → Manager → Manager
unfolding banned_workers ban_or_reset_all
tick now m = ban_or_reset_all now (banned_workers now m) m

-- Stop
unfoldable pub stop_manager : Manager → Manager
stop_manager m = record m { workers = [] }

-- WorkerResult: the manager, and the counts in the storage.
unfoldable pub worker_result : Key → Bool → Manager × Store → Manager × Store
unfolding get_worker put_worker
worker_result a success (m, s) =
    let w : Worker = elim (get_worker a m) [ none ↦ fresh_worker a [] | some w ↦ w ] in
    if success
    then (put_worker a (record w { consecutive_fails = 0 }) m, increase_worker_job_count a 1 s)
    else (
      put_worker a (record w { consecutive_fails = add_int w.consecutive_fails 1 }) m,
      increase_worker_failed_job_count a 1 s,
    )

pub record WorkerInfo : Type 0 where
  pub address : Key
  pub name : Key
  pub success_count : ℕ
  pub failed_count : ℕ

-- The name of a worker, or what WorkerNameFromAddress makes of its address, which is `hide`.
abbrev pub shown_name : (Key → Option Key) → Worker → Key
shown_name hide w =
    if is_empty w.name then elim (hide w.address) [ none ↦ w.name | some n ↦ n ] else w.name

-- WorkerStats
unfoldable pub worker_info : (Key → Option Key) → Key → Manager → Store → Option WorkerInfo
unfolding get_worker
worker_info hide a m s = elim (get_worker a m) [
  | none ↦ none
  | some w ↦ some (record {
    address = a;
    name = if is_empty w.name then elim (hide a) [ none ↦ w.name | some n ↦ n ] else w.name;
    success_count = (worker_stats a s).success_count;
    failed_count = (worker_stats a s).failed_count;
  })
]

-- The counts of one worker in the map that ListWorkerJobCount returns.
unfoldable pub listed_counts : Key → List (Key × WorkerStats) → WorkerStats
listed_counts a m = elim (lookup a m) [
  | none ↦ record { success_count = 0; failed_count = 0 }
  | some stats ↦ stats
]

unfoldable pub infos_of :
    (Key → Option Key) → List (Key × WorkerStats) → List (Key × Worker) → List WorkerInfo
unfolding listed_counts
infos_of hide counts [] = []
infos_of hide counts ((a, w) ∷ rest) =
    record {
      address = w.address;
      name = shown_name hide w;
      success_count = (listed_counts w.address counts).success_count;
      failed_count = (listed_counts w.address counts).failed_count;
    }
    ∷ infos_of hide counts rest

-- ListWorkerStats
unfoldable pub list_worker_infos : (Key → Option Key) → Env → Manager → Store → List WorkerInfo
unfolding infos_of
list_worker_infos hide e m s = infos_of hide (list_worker_job_count e s) m.workers
