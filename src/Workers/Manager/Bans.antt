-- ===== src/Workers/Manager/Bans.antt =====
-- How a ban begins and ends.
use davinci_node.Common.{
  ℕ, ◌+◌, ◌≡◌, refl, true, Option, none, some, [], ◌∷◌, arith, ltb, ◌==◌, if◌then◌else◌, Bool-cases,
  Option-cases, inl, inr,
}
use davinci_node.Db.{Key, Table, lookup, key_eq, key_eq_refl, eq_of_key_eq, lookup-insert}
use davinci_node.Db.Order.{IsAbove, IsOrdered, lookup_below, key_lt_irrefl}
use davinci_node.Workers.Manager.{
  Worker, Manager, BanRules, is_banned, get_worker, put_worker, fresh_worker, banned_among,
  banned_workers, reset_worker, set_ban_duration, ban_or_reset, ban_or_reset_all, tick,
}

-- Every worker is stored under its address, in the order of the addresses.
abbrev pub IsKeyed : Table Worker → Type 0
IsKeyed [] = Unit
IsKeyed ((a, w) ∷ m) = (w.address ≡ a) × IsKeyed m

abbrev pub IsRegistry : Table Worker → Type 0
IsRegistry m = IsKeyed m × IsOrdered m

-- What a tick makes of one worker: a ban begins, a ban that is over ends, and all else stays.
abbrev pub after_tick : BanRules → ℕ → Worker → Worker
after_tick rules now w =
    if is_banned (some rules) now w
    then if w.banned_until_nanos == 0
      then record w { banned_until_nanos = now + rules.ban_timeout }
      else if ltb w.banned_until_nanos now
      then fresh_worker w.address []
      else w
    else w

abbrev map_worker : (Worker → Worker) → Option Worker → Option Worker
map_worker f none = none
map_worker f (some w) = some (f w)

-- One banned worker, met under its own address.
ban_or_reset-lookup :
    (now : ℕ) (a : Key) (w : Worker) (m : Manager)
    → lookup w.address m.workers ≡ some w
    → is_banned (some m.rules) now w ≡ true
    → (lookup a (ban_or_reset now w m).workers
        ≡ (if key_eq w.address a then some (after_tick m.rules now w) else lookup a m.workers))
      × ((ban_or_reset now w m).rules ≡ m.rules)
unfolding ban_or_reset set_ban_duration reset_worker get_worker put_worker
ban_or_reset-lookup now a w m found banned = ground (
  arith,
  found,
  banned,
  lookup-insert a w.address (record w { banned_until_nanos = now + m.rules.ban_timeout }) m.workers,
  lookup-insert a w.address (fresh_worker w.address []) m.workers,
  eq_of_key_eq w.address a,
)

-- The entries of a list are those of the map.
abbrev AreStored : Table Worker → Table Worker → Type 0
AreStored [] m = Unit
AreStored ((k, w) ∷ es) m = (lookup k m ≡ some w) × AreStored es m

-- An update below all entries leaves them stored.
AreStored-below :
    (now : ℕ) (w : Worker) (es : Table Worker) (m : Manager)
    → lookup w.address m.workers ≡ some w
    → is_banned (some m.rules) now w ≡ true
    → IsAbove w.address es
    → AreStored es m.workers
    → AreStored es (ban_or_reset now w m).workers
AreStored-below now w [] m found banned a h = tt
AreStored-below now w ((k, v) ∷ es) m found banned a h = (
  ground (
    arith,
    h.0,
    a.0,
    ban_or_reset-lookup now k w m found banned,
    eq_of_key_eq w.address k,
    key_lt_irrefl k,
  ),
  AreStored-below now w es m found banned a.1 h.1,
)

AreStored-cons :
    (k : Key) (w : Worker) (es m : Table Worker)
    → IsAbove k es
    → AreStored es m
    → AreStored es ((k, w) ∷ m)
unfolding lookup
AreStored-cons k w [] m a h = tt
AreStored-cons k w ((j, v) ∷ es) m a h =
    (ground (arith, h.0, a.0, eq_of_key_eq k j, key_lt_irrefl j), AreStored-cons k w es m a.1 h.1)

AreStored-refl : (m : Table Worker) → IsOrdered m → AreStored m m
unfolding lookup
AreStored-refl [] o = tt
AreStored-refl ((k, w) ∷ m) o =
    (ground (arith, key_eq_refl k), AreStored-cons k w m m o.0 (AreStored-refl m o.1))

abbrev ticked : BanRules → ℕ → Option Worker → Option Worker → Option Worker
ticked rules now none old = old
ticked rules now (some w) old = some (after_tick rules now w)

ban_or_reset_all-lookup :
    (now : ℕ) (a : Key) (es : Table Worker) (m : Manager)
    → IsRegistry es
    → AreStored es m.workers
    → lookup a (ban_or_reset_all now (banned_among m.rules now es) m).workers
      ≡ ticked m.rules now (lookup a es) (lookup a m.workers)
unfolding ban_or_reset_all banned_among lookup
ban_or_reset_all-lookup now a [] m r h = refl
ban_or_reset_all-lookup now a ((k, w) ∷ es) m r h =
    elim (Bool-cases (is_banned (some m.rules) now w)) [
      | inr free ↦ ground (
        arith,
        free,
        h.0,
        eq_of_key_eq k a,
        lookup_below k es r.1.0,
        ban_or_reset_all-lookup now a es m (r.0.1, r.1.1) h.1,
      )
      | inl banned ↦
          let m1 = ban_or_reset now w m in
          let found : lookup w.address m.workers ≡ some w = ground (arith, h.0, r.0.0) in
          let above : IsAbove w.address es = rw r.0.0 r.1.0 in
          ground (
            arith,
            banned,
            h.0,
            r.0.0,
            eq_of_key_eq k a,
            key_eq_refl k,
            lookup_below k es r.1.0,
            ban_or_reset-lookup now a w m found banned,
            ban_or_reset_all-lookup now a es m1 (r.0.1, r.1.1)
                (AreStored-below now w es m found banned above h.1),
          )
    ]

-- One tick of the manager, on workers that are each stored under its address: every worker becomes
-- what `after_tick` makes of it.
pub tick-lookup :
    (now : ℕ) (a : Key) (m : Manager)
    → IsRegistry m.workers
    → lookup a (tick now m).workers ≡ map_worker (after_tick m.rules now) (lookup a m.workers)
unfolding tick banned_workers
tick-lookup now a m r = elim (Option-cases (lookup a m.workers)) [
  | inl absent ↦
      ground
        (arith, absent, ban_or_reset_all-lookup now a m.workers m r (AreStored-refl m.workers r.1))
  | inr (w, found) ↦
      ground
        (arith, found, ban_or_reset_all-lookup now a m.workers m r (AreStored-refl m.workers r.1))
]
