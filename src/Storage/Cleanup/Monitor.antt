-- ===== src/Storage/Cleanup/Monitor.antt =====
-- ListProcesses, and the monitor that ends the processes that it lists.
use davinci_node.Common.{◌≡◌, refl, Bool, true, ◌&&◌, some, [], ◌∷◌, arith, ◌==◌, length}
use davinci_node.Db.{
  Key, Table, key_eq, eq_of_key_eq, has_prefix, seen_key, trim_prefix-append, iterate, lookup,
}
use davinci_node.Storage.Types.{ProcessId, process_id_len, bad_length, ok, err, Encoded, Process}
use davinci_node.Storage.Store.{Env, Store}
use davinci_node.Storage.Processes.{
  process_prefix, keys_of, bytes_to_process_id, to_process_ids, list_processes,
}
use davinci_node.Storage.Cleanup.{check_and_update_ended_processes}

-- Every process is handed out under its ID.
unfoldable pub hands_out_ids : Bool → Table (Encoded Process) → Bool
unfolding seen_key
hands_out_ids strips [] = true
hands_out_ids strips ((k, v) ∷ m) =
    (key_eq (seen_key strips process_prefix [] k) k && (length k == process_id_len))
    && hands_out_ids strips m

listed :
    (strips : Bool) (m : Table (Encoded Process))
    → hands_out_ids strips m ≡ true
    → to_process_ids (keys_of (iterate strips process_prefix [] m)) ≡ ok (keys_of m)
unfolding hands_out_ids keys_of iterate has_prefix to_process_ids bytes_to_process_id
listed strips [] w = refl
listed strips ((k, v) ∷ m) w =
    ground (arith, listed strips m, eq_of_key_eq (seen_key strips process_prefix [] k) k)

-- ListProcesses returns the IDs of all processes, in the order of their keys, when each has the length
-- of an ID and is handed out under it.
pub list_processes-all :
    (e : Env) (s : Store)
    → hands_out_ids e.strips s.processes ≡ true
    → list_processes e s ≡ ok (keys_of s.processes)
unfolding list_processes
list_processes-all e s w = listed e.strips s.processes w

-- The ID that follows the bytes of "p/".
abbrev pub behind_process_prefix : Key → ProcessId
behind_process_prefix r = b'p' ∷ b'/' ∷ r

-- Where the iteration strips its prefix, PrefixedReader trims it a second time.
trimmed_twice : (r : Key) → seen_key true process_prefix [] (behind_process_prefix r) ≡ r
unfolding seen_key
trimmed_twice r = trim_prefix-append process_prefix r

refused :
    (r : Key) (v : Encoded Process) (m : Table (Encoded Process))
    → length r ≡ 29
    → lookup (behind_process_prefix r) m ≡ some v
    → to_process_ids (keys_of (iterate true process_prefix [] m)) ≡ err bad_length
unfolding keys_of iterate has_prefix to_process_ids bytes_to_process_id lookup
refused r v [] short found = cc
refused r v ((k, w) ∷ m) short found =
    ground (arith, refused r v m short, eq_of_key_eq k (behind_process_prefix r), trimmed_twice r)

-- On a database that strips the prefix of the iteration, one process whose ID starts with the bytes of
-- "p/" is enough: ListProcesses fails, and the monitor ends no process at all.
pub list_processes-refused :
    (e : Env) (r : Key) (v : Encoded Process) (s : Store)
    → e.strips ≡ true
    → length r ≡ 29
    → lookup (behind_process_prefix r) s.processes ≡ some v
    → (list_processes e s ≡ err bad_length) × (check_and_update_ended_processes e s ≡ s)
unfolding list_processes check_and_update_ended_processes
list_processes-refused e r v s strips short found =
    let fails : list_processes e s ≡ err bad_length =
      rw strips (refused r v s.processes short found) in
    (fails, ground (arith, fails))
