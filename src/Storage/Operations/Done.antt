-- ===== src/Storage/Operations/Done.antt =====
-- The votes that are done, over a run.
use davinci_node.Common.{
  ℕ, ◌≡◌, refl, Bool, true, ◌&&◌, some, List, [], ◌∷◌, arith, length, ◌==◌, Bool-cases, inl, inr,
}
use davinci_node.Word.Bytes.{int_to_bytes, bytes_to_int}
use davinci_node.Db.{Key, Table, lookup, insert, lookup-insert, eq_of_key_eq}
use davinci_node.Db.Order.{is_ordered}
use davinci_node.Storage.Types.{ProcessId, VoteId, process_id_len, ended, Process, Result}
use davinci_node.Storage.Store.{Env, Store}
use davinci_node.Storage.Stats.Frame.{update_process_stats-frame}
use davinci_node.Storage.Processes.{callback, set_status, update_process}
use davinci_node.Storage.Status.{
  is_done_value, status_key, write_status, set_vote_id_status, write_done, mark_vote_ids_done,
}
use davinci_node.Storage.Status.Kept.{
  insert-is_ordered, comes_back, mark_process_vote_ids_timeout-done,
  mark_process_vote_ids_timeout-ordered, mark_process_vote_ids_timeout-comes_back,
}
use davinci_node.Storage.Status.Code
use davinci_node.Storage.Invariant.{Test, Holds, Rule}
use davinci_node.Storage.Operations.{Event, call, time_out, monitor, react, run}
use davinci_node.Storage.Operations.Preserve.{perform-Holds}
use davinci_node.Storage.Operations.Ended.{EndRule, check_and_update_ended_processes-Holds}

-- The statuses are in the order of their keys, and the one under the key is done.
abbrev pub is_done_at : Key → Test
is_done_at k processes total statuses = is_ordered statuses && is_done_value (lookup k statuses)

is_done_value-done : is_done_value (some (int_to_bytes Code.done)) ≡ true
unfolding is_done_value bytes_to_int int_to_bytes
is_done_value-done = refl

write_status-done :
    (k j : Key) (code : ℕ) (m : Table (List ℕ))
    → (is_ordered m && is_done_value (lookup k m)) ≡ true
    → (is_ordered (write_status j code m) && is_done_value (lookup k (write_status j code m)))
      ≡ true
unfolding write_status
write_status-done k j code m h = ground (
  arith,
  lookup-insert k j (int_to_bytes code) m,
  eq_of_key_eq j k,
  insert-is_ordered j (int_to_bytes code) m,
)

write_done-done :
    (k : Key) (p : ProcessId) (vs : List VoteId) (m : Table (List ℕ))
    → (is_ordered m && is_done_value (lookup k m)) ≡ true
    → (is_ordered (write_done p vs m) && is_done_value (lookup k (write_done p vs m))) ≡ true
unfolding write_done
write_done-done k p [] m h = h
write_done-done k p (v ∷ vs) m h =
    write_done-done k p vs (insert (status_key p v) (int_to_bytes Code.done) m) (
      ground (
        arith,
        lookup-insert k (status_key p v) (int_to_bytes Code.done) m,
        is_done_value-done,
        insert-is_ordered (status_key p v) (int_to_bytes Code.done) m,
      ))

update_process-statuses :
    (id : ProcessId) (f : Process → Result Process) (s : Store)
    → (update_process id (f ∷ []) s).0.statuses ≡ s.statuses
unfolding update_process
update_process-statuses id f s = ground arith

is_done_at-Rule : (k : Key) → Rule (is_done_at k)
unfolding set_vote_id_status mark_vote_ids_done
is_done_at-Rule k = record {
  stats = λ e id us s h. ground (arith, update_process_stats-frame e id us s);
  status = λ p v code s h. write_status-done k (status_key p v) code s.statuses h;
  done = λ p vs s h. write_done-done k p vs s.statuses h;
  update = λ id c s h. ground (arith, update_process-statuses id (callback c) s);
}

-- A vote is done, and the statuses come back.
abbrev is_kept : Bool → Key → Test
is_kept strips k processes total statuses =
    is_done_at k processes total statuses && comes_back strips statuses

is_kept-EndRule :
    (e : Env) (q : ProcessId) (v : VoteId)
    → length q ≡ process_id_len
    → EndRule (is_kept e.strips (status_key q v)) e
is_kept-EndRule e q v sq = record {
  ends = λ p s h. ground (arith, update_process-statuses p (set_status ended) s);
  timeouts = λ p s sp h. ground (
    arith,
    mark_process_vote_ids_timeout-done e p q v s sp sq,
    mark_process_vote_ids_timeout-ordered e p s,
    mark_process_vote_ids_timeout-comes_back e p s sp,
  );
}

-- A time-out names 31 bytes; and where the database strips the prefix of an iteration, no status that a
-- time-out or the monitor meets has the bytes "vs/" behind its process ID.
unfoldable pub fits : Env → Event → Store → Bool
fits e (call o) s = true
fits e (time_out p) s = (length p == process_id_len) && comes_back e.strips s.statuses
fits e monitor s = comes_back e.strips s.statuses

unfoldable pub fits_run : List (Env × Event) → Store → Bool
unfolding fits react
fits_run [] s = true
fits_run ((e, v) ∷ vs) s = fits e v s && fits_run vs (react e v s)

react-done :
    (e : Env) (x : Event) (q : ProcessId) (v : VoteId) (s : Store)
    → length q ≡ process_id_len
    → fits e x s ≡ true
    → Holds (is_done_at (status_key q v)) s
    → Holds (is_done_at (status_key q v)) (react e x s)
unfolding react fits
react-done e (call o) q v s sq f h =
    perform-Holds (is_done_at (status_key q v)) (is_done_at-Rule (status_key q v)) e o s h
react-done e (time_out p) q v s sq f h =
    let both : Holds (is_kept e.strips (status_key q v)) s = ground arith in
    let kept = (is_kept-EndRule e q v sq).timeouts p s (ground arith) both in ground (arith, kept)
react-done e monitor q v s sq f h =
    let both : Holds (is_kept e.strips (status_key q v)) s = ground arith in
    let kept =
      check_and_update_ended_processes-Holds (is_kept e.strips (status_key q v)) e
        (is_kept-EndRule e q v sq) s both in
    ground (arith, kept)

run_kept :
    (q : ProcessId) (v : VoteId) (xs : List (Env × Event)) (s : Store)
    → length q ≡ process_id_len
    → fits_run xs s ≡ true
    → Holds (is_done_at (status_key q v)) s
    → Holds (is_done_at (status_key q v)) (run xs s)
unfolding run fits_run
run_kept q v [] s sq f h = h
run_kept q v ((e, x) ∷ xs) s sq f h = elim (Bool-cases (fits e x s)) [
  | inr misfit ↦ ground (arith, misfit)
  | inl fit ↦ run_kept q v xs (react e x s) sq (ground (arith, fit)) (react-done e x q v s sq fit h)
]

-- A vote of a process with an ID of 31 bytes whose status is done keeps the status done over every run of
-- the methods in `Operation`, of time-outs of processes with such IDs and of rounds of the monitor. The
-- statuses are in the order of their keys at the start, and where the database strips the prefix of an
-- iteration, no status that a time-out or the monitor meets has the bytes "vs/" behind its process ID.
pub run-done :
    (q : ProcessId) (v : VoteId) (xs : List (Env × Event)) (s : Store)
    → length q ≡ process_id_len
    → is_ordered s.statuses ≡ true
    → fits_run xs s ≡ true
    → is_done_value (lookup (status_key q v) s.statuses) ≡ true
    → is_done_value (lookup (status_key q v) (run xs s).statuses) ≡ true
run-done q v xs s sq o f h =
    let kept = run_kept q v xs s sq f (ground (arith, o, h)) in ground (arith, kept)
