-- ===== src/Storage/Stats/Conservation.antt =====
-- The pending counts of a process and of the whole storage move together.
use davinci_node.Common.{ℕ, ◌≡◌, List, [], ◌∷◌, arith}
use davinci_node.Word.{add_int}
use davinci_node.Storage.Types.{>>=-eq-ok, ok, TypeStats, other_stats, ProcessStatsUpdate}
use davinci_node.Storage.Stats.{Counters, apply_update, apply_updates}

-- What all updates keep: the difference of the two counts, and a count that is not negative.
abbrev pub Moved : Counters → Counters → Type 0
Moved c d =
    add_int d.pending.total_pending_ballots c.process.pending_votes_count
    ≡ add_int c.pending.total_pending_ballots d.process.pending_votes_count

apply_update-Moved :
    (now : ℕ) (t : TypeStats) (delta : ℕ) (c d : Counters)
    → apply_update now t delta c ≡ ok d
    → Moved c d
unfolding apply_update
apply_update-Moved now TypeStats.pending_votes delta c d h = ground arith
apply_update-Moved now (other_stats n) delta c d h = cc
apply_update-Moved now _ delta c d h = ground arith

-- The relation is one of differences, so it composes.
Moved-trans : (c d f : Counters) → Moved c d → Moved d f → Moved c f
Moved-trans c d f h k = omega arith

pub apply_updates-Moved :
    (now : ℕ) (us : List ProcessStatsUpdate) (c d : Counters)
    → apply_updates now us c ≡ ok d
    → Moved c d
unfolding apply_updates
apply_updates-Moved now [] c d h = ground arith
apply_updates-Moved now (u ∷ us) c d h =
    let (c', first, rest) = >>=-eq-ok _ _ h in
    Moved-trans c c' d (apply_update-Moved now u.type_stats u.delta c c' first)
      (apply_updates-Moved now us c' d rest)
