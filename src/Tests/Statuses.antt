-- ===== src/Tests/Statuses.antt =====
-- Reading and writing statuses and processes.
use davinci_node.Common.{[], arith, false, if◌then◌else◌, refl, true, ◌==◌, ◌↔◌, ◌∷◌, ◌≡◌}
use davinci_node.Db.{key_eq, lookup}
use davinci_node.Storage.Processes.{
  process, process_exists, process_is_accepting_votes, set_status, finalization, update_process,
}
use davinci_node.Storage.Processes.Updates.{
  Accepts, process_is_accepting_votes-Accepts, update_process-Updated, Applied, all_applied,
  applied, Updated,
}
use davinci_node.Storage.Status.Code
use davinci_node.Storage.Status.{
  is_done_value, is_valid_status_transition, set_vote_id_status, settle, status_key, vote_id_status,
}
use davinci_node.Storage.Status.Reads.{vote_id_status-set_vote_id_status}
use davinci_node.Storage.Status.Steps.{Step, is_valid_status_transition-Step}
use davinci_node.Storage.Store.{get_artifact}
use davinci_node.Storage.Types.{
  Process, results, ended, is_valid_process_id, is_zero, ok, vote_id_bytes,
}
use davinci_node.Tests.Data.{busy, election, election_process, env, first_vote, second_vote}
use davinci_node.Word.Bytes.{be_bytes, bytes_to_int, le_value}

second_waits : is_done_value (lookup (status_key election second_vote) busy.statuses) ≡ false
unfolding be_bytes bytes_to_int get_artifact is_done_value key_eq le_value lookup process
    process_exists vote_id_bytes
second_waits = refl

vote_id_status-set_vote_id_status_example :
    vote_id_status env election second_vote
      (set_vote_id_status election second_vote Code.aggregated busy)
    ≡ (if Code.aggregated == Code.done
        then settle env election second_vote busy
        else ok Code.aggregated)
vote_id_status-set_vote_id_status_example =
    vote_id_status-set_vote_id_status env election second_vote Code.aggregated busy (omega arith)
      second_waits

other_vote : ¬ ((election ≡ election) × (second_vote ≡ first_vote))
other_vote = λ same. omega (arith, same.1)

is_valid_status_transition-Step_example :
    (is_valid_status_transition Code.processed Code.aggregated ≡ true)
    ↔ Step Code.processed Code.aggregated
is_valid_status_transition-Step_example =
    is_valid_status_transition-Step Code.processed Code.aggregated

process_is_accepting_votes-Accepts_example :
    (process_is_accepting_votes 5000 election_process ≡ ok true) ↔ Accepts 5000 election_process
process_is_accepting_votes-Accepts_example =
    process_is_accepting_votes-Accepts 5000 election_process

election_valid : is_valid_process_id election ≡ true
unfolding is_valid_process_id is_zero
election_valid = refl

election_there : process election busy ≡ ok election_process
unfolding process get_artifact lookup key_eq
election_there = refl

abbrev finalized_process : Process
finalized_process = record election_process { status = results; result = 3 ∷ [] }

both-Applied :
    Applied (set_status ended ∷ finalization (3 ∷ []) ∷ []) election_process (ok finalized_process)
unfolding set_status finalization
both-Applied = applied refl (applied refl all_applied)

update_process-Updated_example :
    Updated election
      (ok finalized_process)
      busy
      (update_process election (set_status ended ∷ finalization (3 ∷ []) ∷ []) busy)
update_process-Updated_example =
    update_process-Updated election (set_status ended) (finalization (3 ∷ []) ∷ []) busy
      election_process (ok finalized_process) election_valid election_there both-Applied
