-- ===== src/Tests/Workers.antt =====
-- A worker that fails too often, one that succeeds during its ban, and jobs that expire.
use mathlib.Core.List.{Perm}
use mathlib.Core.List.Perm
use davinci_node.Common.{List, ℕ, ◌+◌, ◌^◌, ◌≡◌, refl, true, false, some, [], ◌∷◌, ◌++◌, arith}
use davinci_node.Db.{Key, key_eq, key_lt, lookup}
use davinci_node.Db.Order.{IsOrdered}
use davinci_node.Storage.Reservations.{vote_id_key}
use davinci_node.Workers.Manager.{
  Worker, Manager, default_ban_rules, is_banned, get_worker, fresh_worker, tick, worker_result,
}
use davinci_node.Workers.Manager.Bans.{IsRegistry}
use davinci_node.Workers.Manager.Lifted.{tick-lifted, tick-cut_short, fail_times}
use davinci_node.Workers.Jobs.{WorkerJob, JobsManager, check_timeouts}
use davinci_node.Workers.Jobs.Timeouts.{check_timeouts-expired, expired_jobs, running}
use davinci_node.Tests.Data.{quiet}

abbrev seven : Key
seven = 7 ∷ []

abbrev failing : Worker
failing = record { address = seven; name = []; consecutive_fails = 5; banned_until_nanos = 0 }

abbrev serving : Worker
serving = record { address = seven; name = []; consecutive_fails = 5; banned_until_nanos = 2000 }

abbrev crew : Worker → Manager
crew w = record { workers = (seven, w) ∷ []; rules = default_ban_rules }

found : (w : Worker) → lookup seven (crew w).workers ≡ some w
unfolding lookup key_eq
found w = refl

failing-IsRegistry : IsRegistry (crew failing).workers
failing-IsRegistry = ((refl, tt), (tt, tt))

serving-IsRegistry : IsRegistry (crew serving).workers
serving-IsRegistry = ((refl, tt), (tt, tt))

abbrev banned : Worker
banned = record failing { banned_until_nanos = 1000 + default_ban_rules.ban_timeout }

tick-lifted_example :
    (get_worker seven (tick 1000 (crew failing)) ≡ some banned)
    × (is_banned (some default_ban_rules) 500 banned ≡ true)
    × (get_worker seven (tick (2 ^ 50) (tick 1000 (crew failing))) ≡ some (fresh_worker seven []))
    × (is_banned (some default_ban_rules) 500 (fresh_worker seven []) ≡ false)
tick-lifted_example =
    tick-lifted 1000 (2 ^ 50) 500 seven failing (crew failing) failing-IsRegistry (found failing)
      refl refl (omega arith) (omega arith) (omega arith)

tick-cut_short_example :
    let m = (fail_times 4 seven (worker_result seven true (crew serving, quiet))).0 in
    (get_worker seven m ≡ some (record serving { consecutive_fails = 4 }))
    × (is_banned (some m.rules) 3000 (record serving { consecutive_fails = 4 }) ≡ true)
    × (get_worker seven (tick 3000 m) ≡ some (fresh_worker seven []))
tick-cut_short_example =
    tick-cut_short 4 3000 seven serving (crew serving) quiet serving-IsRegistry (found serving)
      (omega arith) (omega arith) (omega arith) (omega arith)

abbrev job : ℕ → ℕ → WorkerJob
job v end = record { vote_id = v; address = seven; timestamp = 0; expiration = end }

abbrev two_jobs : JobsManager
two_jobs = record {
  pending = (vote_id_key 1, job 1 100) ∷ (vote_id_key 2, job 2 300) ∷ [];
  failed_jobs = [];
  job_timeout = 100;
  worker_manager = crew failing;
}

jobs-IsOrdered : IsOrdered two_jobs.pending
unfolding key_lt
jobs-IsOrdered = ((refl, tt), (tt, tt))

abbrev met_backwards : List (Key × WorkerJob)
met_backwards = (vote_id_key 2, job 2 300) ∷ (vote_id_key 1, job 1 100) ∷ []

backwards : Perm met_backwards two_jobs.pending
backwards = Perm.swap (vote_id_key 1, job 1 100) (vote_id_key 2, job 2 300) []

check_timeouts-expired_example :
    let jm = (check_timeouts 200 met_backwards (two_jobs, quiet)).0 in
    (jm.failed_jobs ≡ [] ++ expired_jobs 200 met_backwards)
    × Perm (expired_jobs 200 met_backwards) (expired_jobs 200 two_jobs.pending)
    × (lookup (vote_id_key 2) jm.pending ≡ running 200 (lookup (vote_id_key 2) two_jobs.pending))
check_timeouts-expired_example =
    check_timeouts-expired 200 2 met_backwards two_jobs quiet jobs-IsOrdered backwards
