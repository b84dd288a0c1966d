-- ===== src/Workers/Manager/Lifted.antt =====
-- A ban is served and then lifted; one that follows a ban which a success cut short is not served.
use davinci_node.Common.{
  ℕ, zero, suc, ◌+◌, ◌^◌, ◌<◌, ◌≡◌, refl, Bool, true, false, some, List, [], ◌∷◌, arith, ltb, ◌==◌,
  if◌then◌else◌, Bool-cases, Option-cases, inl, inr,
}
use davinci_node.Word.{lt_int, add_int}
use davinci_node.Db.{Key, Table, lookup, insert, eq_of_key_eq, lookup-insert_self}
use davinci_node.Db.Order.{insert-IsOrdered}
use davinci_node.Storage.Store.{Store}
use davinci_node.Workers.Manager.{
  Worker, Manager, BanRules, is_banned, get_worker, put_worker, fresh_worker, banned_workers,
  reset_worker, set_ban_duration, ban_or_reset, ban_or_reset_all, tick, worker_result,
}
use davinci_node.Workers.Manager.Bans.{IsKeyed, IsRegistry, tick-lookup}

IsKeyed-insert :
    (a : Key) (w : Worker) (m : Table Worker) → w.address ≡ a → IsKeyed m → IsKeyed (insert a w m)
unfolding insert
IsKeyed-insert a w [] e h = (e, tt)
IsKeyed-insert a w ((k, v) ∷ m) e h = ground (arith, e, h, IsKeyed-insert a w m e h.1)

IsKeyed-lookup :
    (a : Key) (w : Worker) (m : Table Worker) → IsKeyed m → lookup a m ≡ some w → w.address ≡ a
unfolding lookup
IsKeyed-lookup a w [] h found = cc
IsKeyed-lookup a w ((k, v) ∷ m) h found =
    ground (arith, h.0, found, IsKeyed-lookup a w m h.1, eq_of_key_eq k a)

-- Storing a worker under its address keeps the registry.
pub put_worker-IsRegistry :
    (a : Key) (w : Worker) (m : Manager)
    → w.address ≡ a
    → IsRegistry m.workers
    → IsRegistry (put_worker a w m).workers
unfolding put_worker
put_worker-IsRegistry a w m e r =
    (IsKeyed-insert a w m.workers e r.0, insert-IsOrdered a w m.workers r.1)

abbrev Keeps : Manager → Manager → Type 0
Keeps m m' = IsRegistry m'.workers × (m'.rules ≡ m.rules)

put_worker-Keeps :
    (a : Key) (w : Worker) (m : Manager)
    → w.address ≡ a
    → IsRegistry m.workers
    → Keeps m (put_worker a w m)
unfolding put_worker
put_worker-Keeps a w m e r = (put_worker-IsRegistry a w m e r, refl)

set_ban_duration-Keeps :
    (now : ℕ) (a : Key) (m : Manager) → IsRegistry m.workers → Keeps m (set_ban_duration now a m)
unfolding set_ban_duration get_worker
set_ban_duration-Keeps now a m r = elim (Option-cases (lookup a m.workers)) [
  | inl absent ↦ rw (set_ban_duration, absent) (r, refl)
  | inr (w, found) ↦
      rw (set_ban_duration, found)
        (put_worker-Keeps a (record w { banned_until_nanos = now + m.rules.ban_timeout }) m
          (IsKeyed-lookup a w m.workers r.0 found) r)
]

reset_worker-Keeps : (a : Key) (m : Manager) → IsRegistry m.workers → Keeps m (reset_worker a m)
unfolding reset_worker get_worker
reset_worker-Keeps a m r = elim (Option-cases (lookup a m.workers)) [
  | inl absent ↦ rw (reset_worker, absent) (r, refl)
  | inr (w, found) ↦ rw (reset_worker, found) (put_worker-Keeps a (fresh_worker a []) m refl r)
]

ban_or_reset-Keeps :
    (now : ℕ) (w : Worker) (m : Manager) → IsRegistry m.workers → Keeps m (ban_or_reset now w m)
unfolding ban_or_reset
ban_or_reset-Keeps now w m r = elim (Bool-cases (w.banned_until_nanos == 0)) [
  | inl open_ended ↦ rw open_ended (set_ban_duration-Keeps now w.address m r)
  | inr dated ↦ elim (Bool-cases (ltb w.banned_until_nanos now)) [
    | inl over ↦ rw (dated, over) (reset_worker-Keeps w.address m r)
    | inr running ↦ rw (dated, running) (r, refl)
  ]
]

ban_or_reset_all-Keeps :
    (now : ℕ) (ws : List Worker) (m : Manager)
    → IsRegistry m.workers
    → Keeps m (ban_or_reset_all now ws m)
unfolding ban_or_reset_all
ban_or_reset_all-Keeps now [] m r = (r, refl)
ban_or_reset_all-Keeps now (w ∷ ws) m r =
    let first = ban_or_reset-Keeps now w m r in
    let rest = ban_or_reset_all-Keeps now ws (ban_or_reset now w m) first.0 in
    (rest.0, cc (rest.1, first.1))

-- A tick keeps every worker under its address, and the rules.
pub tick-Keeps :
    (now : ℕ) (m : Manager)
    → IsRegistry m.workers
    → IsRegistry (tick now m).workers × ((tick now m).rules ≡ m.rules)
unfolding tick
tick-Keeps now m r = ban_or_reset_all-Keeps now (banned_workers now m) m r

-- The counts of failures that are a ban.
abbrev pub Exceeds : BanRules → ℕ → Type 0
Exceeds rules fails = lt_int rules.failures_to_get_banned fails ≡ true

abbrev banned_for : BanRules → ℕ → Worker → Worker
banned_for rules now w = record w { banned_until_nanos = now + rules.ban_timeout }

-- The manager ticks at two times: a worker with too many failures and no ban yet is banned from the
-- first one on, whatever the time, and a new worker with no ban, no failures and no name once the
-- timeout has passed before the second one.
pub tick-lifted :
    (t1 t2 now : ℕ) (a : Key) (w : Worker) (m : Manager)
    → IsRegistry m.workers
    → lookup a m.workers ≡ some w
    → Exceeds m.rules w.consecutive_fails
    → w.banned_until_nanos ≡ 0
    → 0 < t1
    → t1 + m.rules.ban_timeout < t2
    → m.rules.failures_to_get_banned < 2 ^ 63
    → (get_worker a (tick t1 m) ≡ some (banned_for m.rules t1 w))
      × (is_banned (some m.rules) now (banned_for m.rules t1 w) ≡ true)
      × (get_worker a (tick t2 (tick t1 m)) ≡ some (fresh_worker a []))
      × (is_banned (some m.rules) now (fresh_worker a []) ≡ false)
unfolding get_worker is_banned
tick-lifted t1 t2 now a w m r found exceeds unbanned positive later int =
    let kept = tick-Keeps t1 m r in
    let first : lookup a (tick t1 m).workers ≡ some (banned_for m.rules t1 w) =
      ground (arith, tick-lookup t1 a m r, found, exceeds, unbanned) in
    let second = tick-lookup t2 a (tick t1 m) kept.0 in
    let here = IsKeyed-lookup a w m.workers r.0 found in
    (
      first,
      ground (arith, exceeds),
      ground (arith, first, second, kept.1, exceeds, positive, later, here),
      ground (arith, int),
    )

put_worker-lookup :
    (a : Key) (w : Worker) (m : Manager) → lookup a (put_worker a w m).workers ≡ some w
unfolding put_worker
put_worker-lookup a w m = lookup-insert_self a w m.workers

exceeds_of :
    (rules : BanRules) (now : ℕ) (w : Worker)
    → rules.failures_to_get_banned < w.consecutive_fails
    → w.consecutive_fails < 2 ^ 63
    → is_banned (some rules) now w ≡ true
unfolding is_banned
exceeds_of rules now w more small = ground (arith, more, small)

unfoldable pub fail_times : ℕ → Key → Manager × Store → Manager × Store
fail_times zero a x = x
fail_times (suc n) a x = fail_times n a (worker_result a false x)

-- A result of a worker that is known.
worker_result-known :
    (a : Key) (success : Bool) (w : Worker) (m : Manager) (s : Store)
    → IsRegistry m.workers
    → lookup a m.workers ≡ some w
    → let x = worker_result a success (m, s) in
      IsRegistry x.0.workers
      × (x.0.rules ≡ m.rules)
      × (lookup a x.0.workers
          ≡ some (record w {
            consecutive_fails = if success then 0 else add_int w.consecutive_fails 1;
          }))
unfolding worker_result get_worker
worker_result-known a true w m s r found =
    let here = IsKeyed-lookup a w m.workers r.0 found in
    let next : Worker = record w { consecutive_fails = 0 } in
    let kept = put_worker-Keeps a next m here r in
    rw (worker_result, found) (kept.0, kept.1, put_worker-lookup a next m)
worker_result-known a false w m s r found =
    let here = IsKeyed-lookup a w m.workers r.0 found in
    let next : Worker = record w { consecutive_fails = add_int w.consecutive_fails 1 } in
    let kept = put_worker-Keeps a next m here r in
    rw (worker_result, found) (kept.0, kept.1, put_worker-lookup a next m)

fail_times-lookup :
    (n : ℕ) (a : Key) (w : Worker) (m : Manager) (s : Store)
    → IsRegistry m.workers
    → lookup a m.workers ≡ some w
    → w.consecutive_fails + n < 2 ^ 63
    → let x = fail_times n a (m, s) in
      IsRegistry x.0.workers
      × (x.0.rules ≡ m.rules)
      × (lookup a x.0.workers ≡ some (record w { consecutive_fails = w.consecutive_fails + n }))
unfolding fail_times
fail_times-lookup zero a w m s r found small = (r, refl, ground (arith, found))
fail_times-lookup (suc n) a w m s r found small =
    let x = worker_result a false (m, s) in
    let one = worker_result-known a false w m s r found in
    let next : Worker = record w { consecutive_fails = add_int w.consecutive_fails 1 } in
    let rest = fail_times-lookup n a next x.0 x.1 one.0 one.2 (omega (arith, small)) in
    (rest.0, cc (rest.1, one.1), ground (arith, rest.2, small))

-- A worker that is serving a ban finishes a job with success and then, once the time of that ban is
-- past, fails more often than the rules allow: it counts as banned, but the next tick of the manager
-- makes it a new worker at once, without a ban.
pub tick-cut_short :
    (n now : ℕ) (a : Key) (w : Worker) (m : Manager) (s : Store)
    → IsRegistry m.workers
    → lookup a m.workers ≡ some w
    → 0 < w.banned_until_nanos
    → w.banned_until_nanos < now
    → m.rules.failures_to_get_banned < n
    → n < 2 ^ 63
    → let m' = (fail_times n a (worker_result a true (m, s))).0 in
      (get_worker a m' ≡ some (record w { consecutive_fails = n }))
      × (is_banned (some m'.rules) now (record w { consecutive_fails = n }) ≡ true)
      × (get_worker a (tick now m') ≡ some (fresh_worker a []))
unfolding get_worker
tick-cut_short n now a w m s r found serving past many small =
    let x = worker_result a true (m, s) in
    let one = worker_result-known a true w m s r found in
    let start : Worker = record w { consecutive_fails = 0 } in
    let failed = fail_times-lookup n a start x.0 x.1 one.0 one.2 (omega (arith, small)) in
    let m' = (fail_times n a x).0 in
    let rules : m'.rules ≡ m.rules = cc (failed.1, one.1) in
    let banned : is_banned (some m'.rules) now (record w { consecutive_fails = n }) ≡ true =
      ground
        (arith, exceeds_of m'.rules now (record w { consecutive_fails = n }), rules, many, small) in
    let ends = tick-lookup now a m' failed.0 in
    let here = IsKeyed-lookup a w m.workers r.0 found in
    let count : 0 + n ≡ n = omega arith in
    (
      ground (arith, failed.2, count),
      banned,
      ground (arith, failed.2, count, ends, banned, serving, past, here),
    )
