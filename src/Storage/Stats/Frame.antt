-- ===== src/Storage/Stats/Frame.antt =====
-- updateProcessStats writes processes and totals, and nothing else.
use davinci_node.Common.{◌≡◌, List, [], ◌∷◌, arith}
use davinci_node.Storage.Types.{ProcessId, ProcessStatsUpdate}
use davinci_node.Storage.Store.{Env, Store}
use davinci_node.Storage.Stats.{update_process_stats}

pub update_process_stats-frame :
    (e : Env) (id : ProcessId) (us : List ProcessStatsUpdate) (s : Store)
    → (update_process_stats e id us s).0 ≡ record s {
      processes = (update_process_stats e id us s).0.processes;
      total_stats = (update_process_stats e id us s).0.total_stats;
      total_pending = (update_process_stats e id us s).0.total_pending;
    }
unfolding update_process_stats
update_process_stats-frame e id [] s = ground arith
update_process_stats-frame e id (u ∷ us) s = ground arith
