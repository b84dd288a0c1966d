-- ===== src/Storage/Stats.antt =====
-- updateProcessStats and the totals (storage/process_stats.go).
pub mod Frame
pub mod Conservation
use davinci_node.Common.{
  ℕ, Bool, true, false, not, Option, none, some, List, [], ◌∷◌, if◌then◌else◌,
}
use davinci_node.Word.{add_int, sub_int, is_neg}
use davinci_node.Db.{insert}
use davinci_node.Storage.Types
use davinci_node.Storage.Types.{
  ProcessId, is_valid_process_id, Error, invalid_process_id, unknown_type_stats, Result, ok, err,
  ◌>>=◌, Encoded, encoded, garbage, ProcessStats, Process, Stats, StatsPendingBallots, TypeStats,
  other_stats, ProcessStatsUpdate,
}
use davinci_node.Storage.Store.{Env, Store, get_artifact}

-- What the loop over the updates works on.
pub record Counters : Type 0 where
  pub process : ProcessStats
  pub total : Stats
  pub pending : StatsPendingBallots

-- The case TypeStatsPendingVotes: a count that would become negative is set to 0, and the total
-- loses what the process had.
unfoldable pub add_pending_votes : ℕ → ℕ → Counters → Counters
add_pending_votes now delta c =
    let new_value = add_int c.process.pending_votes_count delta in
    if is_neg new_value
    then record c {
      process = record c.process { pending_votes_count = 0 };
      pending = record {
        total_pending_ballots =
            sub_int c.pending.total_pending_ballots c.process.pending_votes_count;
        last_update_date = now;
      };
    }
    else record c {
      process = record c.process { pending_votes_count = new_value };
      pending = record {
        total_pending_ballots = add_int c.pending.total_pending_ballots delta;
        last_update_date = now;
      };
    }

-- The `switch` of updateProcessStats.
unfoldable pub apply_update : ℕ → TypeStats → ℕ → Counters → Result Counters
unfolding add_pending_votes
apply_update now TypeStats.state_transitions delta c = ok (record c {
  process = record c.process {
    state_transition_count = add_int c.process.state_transition_count delta;
  };
  total = record c.total { state_transition_count = add_int c.total.state_transition_count delta };
})
apply_update now TypeStats.settled_state_transitions delta c = ok (record c {
  process = record c.process {
    settled_state_transition_count = add_int c.process.settled_state_transition_count delta;
  };
  total = record c.total {
    settled_state_transition_count = add_int c.total.settled_state_transition_count delta;
  };
})
apply_update now TypeStats.aggregated_votes delta c = ok (record c {
  process = record c.process {
    aggregated_votes_count = add_int c.process.aggregated_votes_count delta;
  };
  total = record c.total { aggregated_votes_count = add_int c.total.aggregated_votes_count delta };
})
apply_update now TypeStats.verified_votes delta c = ok (record c {
  process = record c.process {
    verified_votes_count = add_int c.process.verified_votes_count delta;
  };
  total = record c.total { verified_votes_count = add_int c.total.verified_votes_count delta };
})
apply_update now TypeStats.pending_votes delta c = ok (add_pending_votes now delta c)
apply_update now TypeStats.last_batch_size delta c = ok (record c {
  process = record c.process { last_batch_size = if is_neg delta then 0 else delta };
})
apply_update now TypeStats.current_batch_size delta c =
    let new_value = add_int c.process.current_batch_size delta in
    ok (record c {
      process = record c.process { current_batch_size = if is_neg new_value then 0 else new_value };
    })
apply_update now TypeStats.last_transition_date delta c = ok (record c {
  process = record c.process { last_state_transition_date = now };
  total = record c.total { last_state_transition_date = now };
})
apply_update now (other_stats n) delta c = err unknown_type_stats

unfoldable pub apply_updates : ℕ → List ProcessStatsUpdate → Counters → Result Counters
apply_updates now [] c = ok c
apply_updates now (u ∷ us) c =
    apply_update now u.type_stats u.delta c >>= λ c'. apply_updates now us c'

abbrev pub zero_stats : Stats
zero_stats = record {
  verified_votes_count = 0;
  aggregated_votes_count = 0;
  state_transition_count = 0;
  settled_state_transition_count = 0;
  last_state_transition_date = 0;
}

abbrev pub zero_pending : StatsPendingBallots
zero_pending = record { total_pending_ballots = 0; last_update_date = 0 }

-- A value that is missing or does not decode counts as zero.
unfoldable pub or_zero {ℓ} : {A : Type ℓ} → A → Option (Encoded A) → A
or_zero z none = z
or_zero z (some (encoded a)) = a
or_zero z (some garbage) = z

abbrev pub counters_of : Process → Store → Counters
counters_of p s = record {
  process = p.stats;
  total = or_zero zero_stats s.total_stats;
  pending = or_zero zero_pending s.total_pending;
}

-- The three writes at the end.
abbrev pub save_counters : ProcessId → Process → Counters → Store → Store
save_counters id p c s = record s {
  processes = insert id (encoded (record p { stats = c.process })) s.processes;
  total_stats = some (encoded c.total);
  total_pending = some (encoded c.pending);
}

unfoldable pub update_process_stats :
    Env → ProcessId → List ProcessStatsUpdate → Store → Store × Result (Unit {0})
unfolding or_zero
update_process_stats e id [] s =
    if is_valid_process_id id then (s, ok tt) else (s, err invalid_process_id)
update_process_stats e id (u ∷ us) s =
    if not (is_valid_process_id id)
    then (s, err invalid_process_id)
    else elim (get_artifact id s.processes) [
      | err x ↦ (s, err x)
      | ok p ↦ elim (apply_updates e.now (u ∷ us) (counters_of p s)) [
        | err x ↦ (s, err x)
        | ok c ↦ (save_counters id p c s, ok tt)
      ]
    ]

-- TotalPendingBallots and TotalStats.
unfoldable pub total_pending_ballots : Store → ℕ
unfolding or_zero
total_pending_ballots s = (or_zero zero_pending s.total_pending).total_pending_ballots

unfoldable pub total_stats : Store → Stats
unfolding or_zero
total_stats s = or_zero zero_stats s.total_stats
