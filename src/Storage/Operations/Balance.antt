-- ===== src/Storage/Operations/Balance.antt =====
-- The total of pending ballots and the counts of the processes, over a run.
use davinci_node.Common.{
  ℕ, ◌+◌, ◌%◌, ◌≡◌, Bool, true, ◌&&◌, Option, none, some, List, [], ◌∷◌, arith, ◌==◌, inl, inr,
}
use davinci_node.Word.{add_int, int_mod}
use davinci_node.Db.{Key, Table, lookup, insert}
use davinci_node.Db.Order.{
  IsOrdered, insert-IsOrdered, lookup_below, IsAbove-trans, is_ordered, is_ordered-IsOrdered,
  IsOrdered-is_ordered,
}
use davinci_node.Storage.Types.{
  ProcessId, Encoded, encoded, garbage, Process, ProcessStatsUpdate, StatsPendingBallots, ok,
  Result-cases, ended,
}
use davinci_node.Storage.Store.{Env, Store, get_artifact}
use davinci_node.Storage.Stats.{
  Counters, update_process_stats, apply_updates, counters_of, or_zero, zero_pending, save_counters,
}
use davinci_node.Storage.Stats.Conservation.{apply_updates-Moved}
use davinci_node.Storage.Status.{
  set_vote_id_status, mark_vote_ids_done, mark_process_vote_ids_timeout,
}
use davinci_node.Storage.Invariant.{Test, Holds, Rule}
use davinci_node.Storage.Processes.{
  Change, to_status, to_results, to_state_root, to_max_voters, to_registered, callback, set_status,
  finalization, set_state_root, set_max_voters, set_registered, process, apply_all, update_process,
}
use davinci_node.Storage.Operations.{Event, call, time_out, monitor, react, run}
use davinci_node.Storage.Operations.Preserve.{perform-Holds}
use davinci_node.Storage.Operations.Ended.{EndRule, check_and_update_ended_processes-Holds}

abbrev pub pending_count : Encoded Process → ℕ
pending_count (encoded p) = p.stats.pending_votes_count
pending_count garbage = 0

unfoldable pub pending_sum : Table (Encoded Process) → ℕ
pending_sum [] = 0
pending_sum ((k, v) ∷ m) = pending_count v + pending_sum m

-- Replacing an entry of an ordered table moves the sum by the difference of the two counts.
pending_sum-insert :
    (k : Key) (v w : Encoded Process) (m : Table (Encoded Process))
    → IsOrdered m
    → lookup k m ≡ some v
    → pending_sum (insert k w m) + pending_count v ≡ pending_sum m + pending_count w
unfolding pending_sum insert lookup
pending_sum-insert k v w [] o h = ground arith
pending_sum-insert k v w ((j, x) ∷ m) o h =
    ground (arith, pending_sum-insert k v w m o.1, lookup_below k m, IsAbove-trans k j m)

unfoldable pub balanced : Table (Encoded Process) → Option (Encoded StatsPendingBallots) → Bool
balanced m total =
    is_ordered m
    && (pending_sum m % int_mod == (or_zero zero_pending total).total_pending_ballots % int_mod)

abbrev pub is_balanced : Test
is_balanced processes total statuses = balanced processes total

save_counters-balanced :
    (id : ProcessId) (p : Process) (c : Counters) (s : Store)
    → get_artifact id s.processes ≡ ok p
    → add_int c.pending.total_pending_ballots p.stats.pending_votes_count
      ≡ add_int
          (or_zero zero_pending s.total_pending).total_pending_ballots
          c.process.pending_votes_count
    → balanced s.processes s.total_pending ≡ true
    → balanced (save_counters id p c s).processes (save_counters id p c s).total_pending ≡ true
unfolding balanced get_artifact or_zero
save_counters-balanced id p c s found moved h = ground (
  arith,
  is_ordered-IsOrdered s.processes,
  insert-IsOrdered id (encoded (record p { stats = c.process })) s.processes,
  IsOrdered-is_ordered (insert id (encoded (record p { stats = c.process })) s.processes),
  pending_sum-insert id (encoded p) (encoded (record p { stats = c.process })) s.processes,
)

update_process_stats-balanced :
    (e : Env) (id : ProcessId) (us : List ProcessStatsUpdate) (s : Store)
    → Holds is_balanced s
    → Holds is_balanced (update_process_stats e id us s).0
unfolding update_process_stats
update_process_stats-balanced e id [] s h = ground arith
update_process_stats-balanced e id (u ∷ us) s h =
    elim (Result-cases (get_artifact id s.processes)) [
      | inr (x, missing) ↦ ground arith
      | inl (p, found) ↦ elim (Result-cases (apply_updates e.now (u ∷ us) (counters_of p s))) [
        | inr (x, failed) ↦ ground arith
        | inl (c, applied) ↦
            let kept =
              save_counters-balanced id p c s found
                (apply_updates-Moved e.now (u ∷ us) (counters_of p s) c applied) h in
            ground (arith, kept)
      ]
    ]

-- None of the changes touches the statistics.
callback-stats : (c : Change) (p q : Process) → callback c p ≡ ok q → q.stats ≡ p.stats
unfolding callback set_status finalization set_state_root set_max_voters set_registered
callback-stats (to_status st) p q h = ground arith
callback-stats (to_results outcome) p q h = ground arith
callback-stats (to_state_root root voters overwritten) p q h = ground arith
callback-stats (to_max_voters none) p q h = ground arith
callback-stats (to_max_voters (some n)) p q h = ground arith
callback-stats (to_registered registered) p q h = ground arith

stored-balanced :
    (id : ProcessId) (p q : Process) (s : Store)
    → get_artifact id s.processes ≡ ok p
    → q.stats ≡ p.stats
    → balanced s.processes s.total_pending ≡ true
    → balanced (insert id (encoded q) s.processes) s.total_pending ≡ true
unfolding balanced get_artifact
stored-balanced id p q s found same h = ground (
  arith,
  is_ordered-IsOrdered s.processes,
  insert-IsOrdered id (encoded q) s.processes,
  IsOrdered-is_ordered (insert id (encoded q) s.processes),
  pending_sum-insert id (encoded p) (encoded q) s.processes,
)

update_process-balanced :
    (id : ProcessId) (c : Change) (s : Store)
    → Holds is_balanced s
    → Holds is_balanced (update_process id (callback c ∷ []) s).0
unfolding update_process apply_all process
update_process-balanced id c s h = elim (Result-cases (get_artifact id s.processes)) [
  | inr (x, missing) ↦ ground arith
  | inl (p, found) ↦ elim (Result-cases (callback c p)) [
    | inr (x, failed) ↦ ground arith
    | inl (q, changed) ↦
        let kept = stored-balanced id p q s found (callback-stats c p q changed) h in
        ground (arith, kept)
  ]
]

is_balanced-Rule : Rule is_balanced
unfolding set_vote_id_status mark_vote_ids_done
is_balanced-Rule = record {
  stats = update_process_stats-balanced;
  status = λ p v code s h. h;
  done = λ p vs s h. h;
  update = update_process-balanced;
}

is_balanced-EndRule : (e : Env) → EndRule is_balanced e
unfolding mark_process_vote_ids_timeout callback
is_balanced-EndRule e = record {
  ends = λ p s h. update_process-balanced p (to_status ended) s h;
  timeouts = λ p s sized h. h;
}

react-balanced :
    (e : Env) (v : Event) (s : Store) → Holds is_balanced s → Holds is_balanced (react e v s)
unfolding react mark_process_vote_ids_timeout
react-balanced e (call o) s h = perform-Holds is_balanced is_balanced-Rule e o s h
react-balanced e (time_out p) s h = h
react-balanced e monitor s h =
    check_and_update_ended_processes-Holds is_balanced e (is_balanced-EndRule e) s h

-- Every run of the methods in `Operation`, of time-outs and of rounds of the monitor keeps this: the
-- processes are in the order of their keys, and the stored total of pending ballots is the sum of the
-- processes' pending counts, as 64-bit ints.
pub run-balanced :
    (vs : List (Env × Event)) (s : Store)
    → balanced s.processes s.total_pending ≡ true
    → balanced (run vs s).processes (run vs s).total_pending ≡ true
unfolding run
run-balanced [] s h = h
run-balanced ((e, v) ∷ vs) s h = run-balanced vs (react e v s) (react-balanced e v s h)
