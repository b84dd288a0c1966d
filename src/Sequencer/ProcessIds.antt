-- ===== src/Sequencer/ProcessIds.antt =====
-- ProcessIDMap (sequencer/processidmap.go). Each method holds the lock while it reads or writes, so that
-- it is one function; the order of List and ForEach, a Go map's, is that of the keys here.
use davinci_node.Common.{
  ℕ, ◌≡◌, Bool, true, false, Option, none, some, List, [], ◌∷◌, arith, length, if◌then◌else◌,
}
use davinci_node.Db.{Table, lookup, insert, delete, lookup-delete, key_eq_refl}
use davinci_node.Storage.Types.{ProcessId, is_valid_process_id}

-- The times are those of time.Now.
pub record ProcessIdMap : Type 0 where
  pub times : Table ℕ
  pub first_ballot_times : Table ℕ

-- NewProcessIDMap
abbrev pub new_process_id_map : ProcessIdMap
new_process_id_map = record { times = []; first_ballot_times = [] }

-- An entry is only made where there is none.
unfoldable pub insert_new : ℕ → ProcessId → Table ℕ → Table ℕ
insert_new now p m = elim (lookup p m) [ none ↦ insert p now m | some t ↦ m ]

-- Get, Exists
unfoldable pub get_process : ProcessId → ProcessIdMap → Option ℕ
unfolding is_valid_process_id
get_process p m = if is_valid_process_id p then lookup p m.times else none

unfoldable pub exists_process : ProcessId → ProcessIdMap → Bool
unfolding get_process
exists_process p m = elim (get_process p m) [ none ↦ false | some t ↦ true ]

-- Add
unfoldable pub add_process : ℕ → ProcessId → ProcessIdMap → ProcessIdMap × Bool
unfolding is_valid_process_id
add_process now p m =
    if is_valid_process_id p
    then elim (lookup p m.times) [
      | none ↦ (record m { times = insert p now m.times }, true)
      | some t ↦ (m, false)
    ]
    else (m, false)

-- Remove
unfoldable pub remove_process : ProcessId → ProcessIdMap → ProcessIdMap × Bool
unfolding is_valid_process_id
remove_process p m =
    if is_valid_process_id p then (record m { times = delete p m.times }, true) else (m, false)

-- ForEach: the entries for which the function is called.
unfoldable pub for_each : (ProcessId → ℕ → Bool) → List (ProcessId × ℕ) → List (ProcessId × ℕ)
for_each f [] = []
for_each f ((p, t) ∷ rest) =
    let others = for_each f rest in if f p t then (p, t) ∷ others else (p, t) ∷ []

-- List
unfoldable pub process_list : List (ProcessId × ℕ) → List ProcessId
process_list [] = []
process_list ((p, t) ∷ rest) = p ∷ process_list rest

-- Len
unfoldable pub process_count : ProcessIdMap → ℕ
process_count m = length m.times

-- SetFirstBallotTime
unfoldable pub set_first_ballot_time : ℕ → ProcessId → ProcessIdMap → ProcessIdMap
unfolding is_valid_process_id insert_new
set_first_ballot_time now p m =
    if is_valid_process_id p
    then record m { first_ballot_times = insert_new now p m.first_ballot_times }
    else m

-- GetFirstBallotTime
unfoldable pub get_first_ballot_time : ProcessId → ProcessIdMap → Option ℕ
unfolding is_valid_process_id
get_first_ballot_time p m = if is_valid_process_id p then lookup p m.first_ballot_times else none

-- ClearFirstBallotTime
unfoldable pub clear_first_ballot_time : ProcessId → ProcessIdMap → ProcessIdMap
unfolding is_valid_process_id
clear_first_ballot_time p m =
    if is_valid_process_id p
    then record m { first_ballot_times = delete p m.first_ballot_times }
    else m

-- Remove of a valid process ID reports a removal whether or not the ID was there.
pub remove_process-true :
    (p : ProcessId) (m : ProcessIdMap)
    → is_valid_process_id p ≡ true
    → (exists_process p (remove_process p m).0 ≡ false) × ((remove_process p m).1 ≡ true)
unfolding remove_process exists_process get_process
remove_process-true p m valid = ground (arith, valid, lookup-delete p p m.times, key_eq_refl p)
