-- ===== src/Workers/Jobs/Timeouts.antt =====
-- checkTimeouts: which jobs it sends to FailedJobs, and which it leaves, in whatever order the loop over
-- the map meets them.
use mathlib.Core.Bool.{Bool-set}
use mathlib.Core.List.{Perm, Perm-prop, Permᴰ}
use mathlib.Core.List.Perm
use mathlib.Core.Logic.{∥∥₁_elim}
use davinci_node.Common.{
  ℕ, ◌≡◌, refl, Bool, true, false, ◌&&◌, Option, none, some, List, [], ◌∷◌, ◌++◌, arith, append-nil,
  ltb, if◌then◌else◌,
}
use davinci_node.Db.{Key, Table, lookup, key_eq, key_eq_refl, eq_of_key_eq, lookup-delete}
use davinci_node.Db.Order.{IsOrdered, lookup_below}
use davinci_node.Storage.Types.{VoteId}
use davinci_node.Storage.Store.{Store}
use davinci_node.Storage.Reservations.{vote_id_key}
use davinci_node.Workers.Jobs.{WorkerJob, JobsManager, expire_job, expire_jobs, check_timeouts}

-- The jobs that have expired, in the order of the entries.
abbrev pub expired_jobs : ℕ → List (Key × WorkerJob) → List WorkerJob
expired_jobs now [] = []
expired_jobs now (e ∷ rest) =
    if ltb e.1.expiration now then e.1 ∷ expired_jobs now rest else expired_jobs now rest

-- A job that goes on.
abbrev pub running : ℕ → Option WorkerJob → Option WorkerJob
running now none = none
running now (some job) = if ltb job.expiration now then none else some job

-- Whether an expired job stands under the key.
unfoldable is_expired_at : ℕ → Key → List (Key × WorkerJob) → Bool
is_expired_at now j [] = false
is_expired_at now j (e ∷ rest) =
    if key_eq e.0 j && ltb e.1.expiration now then true else is_expired_at now j rest

expire_job-parts :
    (k j : Key) (job : WorkerJob) (x : JobsManager × Store)
    → ((expire_job k job x).0.failed_jobs ≡ x.0.failed_jobs ++ job ∷ [])
      × (lookup j (expire_job k job x).0.pending
          ≡ (if key_eq k j then none else lookup j x.0.pending))
unfolding expire_job
expire_job-parts k j job (jm, s) = (refl, lookup-delete j k jm.pending)

append-assoc_one :
    (xs ys : List WorkerJob) (job : WorkerJob) → (xs ++ job ∷ []) ++ ys ≡ xs ++ job ∷ ys
append-assoc_one [] ys job = refl
append-assoc_one (x ∷ xs) ys job = ground (arith, append-assoc_one xs ys job)

expire_jobs-failed :
    (now : ℕ) (es : List (Key × WorkerJob)) (x : JobsManager × Store)
    → (expire_jobs now es x).0.failed_jobs ≡ x.0.failed_jobs ++ expired_jobs now es
unfolding expire_jobs
expire_jobs-failed now [] x = ground (arith, append-nil x.0.failed_jobs)
expire_jobs-failed now ((k, job) ∷ es) x = ground (
  arith,
  expire_jobs-failed now es x,
  expire_jobs-failed now es (expire_job k job x),
  expire_job-parts k k job x,
  append-assoc_one x.0.failed_jobs (expired_jobs now es) job,
)

expire_jobs-pending :
    (now : ℕ) (j : Key) (es : List (Key × WorkerJob)) (x : JobsManager × Store)
    → lookup j (expire_jobs now es x).0.pending
      ≡ (if is_expired_at now j es then none else lookup j x.0.pending)
unfolding expire_jobs is_expired_at
expire_jobs-pending now j [] x = refl
expire_jobs-pending now j ((k, job) ∷ es) x = ground (
  arith,
  expire_jobs-pending now j es x,
  expire_jobs-pending now j es (expire_job k job x),
  expire_job-parts k j job x,
)

is_expired_at-absent :
    (now : ℕ) (j : Key) (es : Table WorkerJob) → lookup j es ≡ none → is_expired_at now j es ≡ false
unfolding is_expired_at lookup
is_expired_at-absent now j [] h = refl
is_expired_at-absent now j ((k, job) ∷ es) h = ground (arith, is_expired_at-absent now j es)

-- In a map, the key's own job is the one that counts.
is_expired_at-lookup :
    (now : ℕ) (j : Key) (es : Table WorkerJob)
    → IsOrdered es
    → (if is_expired_at now j es then none else lookup j es) ≡ running now (lookup j es)
unfolding is_expired_at lookup
is_expired_at-lookup now j [] o = refl
is_expired_at-lookup now j ((k, job) ∷ es) o = ground (
  arith,
  is_expired_at-lookup now j es o.1,
  is_expired_at-absent now j es,
  lookup_below k es o.0,
  eq_of_key_eq k j,
  key_eq_refl k,
)

is_expired_at-perm :
    (now : ℕ) (j : Key) {es fs : List (Key × WorkerJob)}
    → Permᴰ es fs
    → is_expired_at now j es ≡ is_expired_at now j fs
unfolding is_expired_at
is_expired_at-perm now j Permᴰ.nil = refl
is_expired_at-perm now j (Permᴰ.cons same d) = rw same (rw (is_expired_at-perm now j d) refl)
is_expired_at-perm now j (Permᴰ.swap e f) = rw (e, f) (ground arith)
is_expired_at-perm now j (Permᴰ.trans d d') =
    cc (is_expired_at-perm now j d, is_expired_at-perm now j d')

keep_one :
    (b : Bool) (x : WorkerJob) {xs ys : List WorkerJob}
    → Perm xs ys
    → Perm (if b then x ∷ xs else xs) (if b then x ∷ ys else ys)
keep_one true x p = Perm.cons x p
keep_one false x p = p

keep_two :
    (b c : Bool) (x y : WorkerJob) (xs : List WorkerJob)
    → let ys = if c then y ∷ xs else xs in
      let zs = if b then x ∷ xs else xs in
      Perm (if b then x ∷ ys else ys) (if c then y ∷ zs else zs)
keep_two true true x y xs = Perm.swap y x xs
keep_two true false x y xs = Perm.refl (x ∷ xs)
keep_two false true x y xs = Perm.refl (y ∷ xs)
keep_two false false x y xs = Perm.refl xs

expired_jobs-perm :
    (now : ℕ) {es fs : List (Key × WorkerJob)}
    → Permᴰ es fs
    → Perm (expired_jobs now es) (expired_jobs now fs)
expired_jobs-perm now Permᴰ.nil = Perm.nil
expired_jobs-perm now (Permᴰ.cons {a = a} {b = b} same d) =
    rw (← same) (keep_one (ltb a.1.expiration now) a.1 (expired_jobs-perm now d))
expired_jobs-perm now (Permᴰ.swap {a = a} {b = b} {l = l} e f) =
    rw (← e, ← f)
      (keep_two (ltb a.1.expiration now) (ltb b.1.expiration now) a.1 b.1 (expired_jobs now l))
expired_jobs-perm now (Permᴰ.trans d d') =
    Perm.trans (expired_jobs-perm now d) (expired_jobs-perm now d')

-- checkTimeouts, on jobs in a map, whatever the order in which its loop meets them: what it sends to
-- FailedJobs, after what was sent before, are the expired jobs, each once; and under every vote ID exactly
-- the expired job is gone.
pub check_timeouts-expired :
    (now : ℕ) (v : VoteId) (order : List (Key × WorkerJob)) (jm : JobsManager) (s : Store)
    → IsOrdered jm.pending
    → Perm order jm.pending
    → let jm' = (check_timeouts now order (jm, s)).0 in
      (jm'.failed_jobs ≡ jm.failed_jobs ++ expired_jobs now order)
      × Perm (expired_jobs now order) (expired_jobs now jm.pending)
      × (lookup (vote_id_key v) jm'.pending ≡ running now (lookup (vote_id_key v) jm.pending))
unfolding check_timeouts
check_timeouts-expired now v order jm s o p =
    let same =
      ∥∥₁_elim p
        (Bool-set (is_expired_at now (vote_id_key v) order)
          (is_expired_at now (vote_id_key v) jm.pending))
        (is_expired_at-perm now (vote_id_key v)) in
    (
      expire_jobs-failed now order (jm, s),
      ∥∥₁_elim p Perm-prop (expired_jobs-perm now),
      cc (
        expire_jobs-pending now (vote_id_key v) order (jm, s),
        same,
        is_expired_at-lookup now (vote_id_key v) jm.pending o,
      ),
    )
