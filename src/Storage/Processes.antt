-- ===== src/Storage/Processes.antt =====
-- Reading processes and the checks whether one still takes votes (storage/process.go), and the
-- update callbacks of storage/process_updates.go.
pub mod Updates
use davinci_node.Common.{
  ℕ, ◌+◌, Bool, true, false, not, Option, none, some, List, [], ◌∷◌, ltb, ◌==◌, if◌then◌else◌,
}
use davinci_node.Db.{Key, insert, is_member, iterate}
use davinci_node.Storage.Types.{
  ProcessId, is_valid_process_id, process_id_len, Error, not_found, invalid_process_id,
  no_update_function, no_state_root, expired, wrong_status, not_registered, bad_length, Result, ok,
  err, ◌>>=◌, Encoded, encoded, garbage, Process, ProcessStatus, ready, ended, canceled, results,
  Census,
}
use davinci_node.Common.{length}
use davinci_node.Storage.Store.{Env, Store, get_artifact}

-- "p/"
abbrev pub process_prefix : Key
process_prefix = b'p' ∷ b'/' ∷ []

unfoldable pub process : ProcessId → Store → Result Process
process id s = get_artifact id s.processes

unfoldable pub process_exists : ProcessId → Store → Result Bool
unfolding process
process_exists id s = elim (process id s) [
  | ok p ↦ ok true
  | err x ↦ elim x [ not_found ↦ ok false | y ↦ err y ]
]

-- The loop over the update functions.
unfoldable pub apply_all : List (Process → Result Process) → Process → Result Process
apply_all [] p = ok p
apply_all (f ∷ fs) p = f p >>= λ p'. apply_all fs p'

unfoldable pub update_process :
    ProcessId → List (Process → Result Process) → Store → Store × Result (Unit {0})
unfolding process apply_all
update_process id [] s =
    if is_valid_process_id id then (s, err no_update_function) else (s, err invalid_process_id)
update_process id (f ∷ fs) s =
    if not (is_valid_process_id id)
    then (s, err invalid_process_id)
    else elim (process id s >>= λ p. apply_all (f ∷ fs) p) [
      | err x ↦ (s, err x)
      | ok p ↦ (record s { processes = insert id (encoded p) s.processes }, ok tt)
    ]

unfoldable pub is_ready : ProcessStatus → Bool
is_ready ready = true
is_ready _ = false

-- StartTime.Add(Duration).Before(now)
unfoldable pub has_expired : ℕ → Process → Bool
has_expired now p = ltb (p.start_time + p.duration) now

unfoldable pub process_is_on_chain_alive : ℕ → Process → Result Bool
unfolding is_ready has_expired
process_is_on_chain_alive now p = elim p.state_root [
  | none ↦ err no_state_root
  | some root ↦
      if has_expired now p
      then err expired
      else if not (is_ready p.status)
      then err wrong_status
      else ok true
]

unfoldable pub process_is_accepting_votes : ℕ → Process → Result Bool
unfolding process_is_on_chain_alive
process_is_accepting_votes now p = process_is_on_chain_alive now p >>= λ alive.
    if not p.registered_for_sequencing then err not_registered else ok true

-- types.BytesToProcessID
unfoldable pub bytes_to_process_id : Key → Result ProcessId
bytes_to_process_id k = if length k == process_id_len then ok k else err bad_length

unfoldable pub to_process_ids : List Key → Result (List ProcessId)
unfolding bytes_to_process_id
to_process_ids [] = ok []
to_process_ids (k ∷ ks) = bytes_to_process_id k >>= λ id. to_process_ids ks >>= λ ids. ok (id ∷ ids)

unfoldable pub keys_of {ℓ} : {V : Type ℓ} → List (Key × V) → List Key
keys_of [] = []
keys_of ((k, v) ∷ m) = k ∷ keys_of m

-- ListProcesses, over listArtifacts(processPrefix).
unfoldable pub list_processes : Env → Store → Result (List ProcessId)
unfolding keys_of to_process_ids
list_processes e s = to_process_ids (keys_of (iterate e.strips process_prefix [] s.processes))

-- ProcessUpdateCallbackSetStatus and the callback of checkAndUpdateEndedProcesses.
unfoldable pub set_status : ProcessStatus → Process → Result Process
set_status st p = ok (record p { status = st })

-- ProcessUpdateCallbackFinalization
unfoldable pub finalization : List ℕ → Process → Result Process
finalization outcome p = ok (record p { status = results; result = outcome })

abbrev or_keep : Option ℕ → Option ℕ → Option ℕ
or_keep none old = old
or_keep (some new) old = some new

-- ProcessUpdateCallbackSetStateRoot: the counts follow only a root that is new.
unfoldable pub set_state_root : ℕ → Option ℕ → Option ℕ → Process → Result Process
set_state_root root voters overwritten p = elim p.state_root [
  | none ↦ ok (record p { state_root = some root })
  | some old ↦
      if old == root
      then ok p
      else ok (record p {
        state_root = some root;
        voters_count = or_keep voters p.voters_count;
        overwritten_votes_count = or_keep overwritten p.overwritten_votes_count;
      })
]

-- ProcessUpdateCallbackSetMaxVoters
unfoldable pub set_max_voters : Option ℕ → Process → Result Process
set_max_voters none p = ok p
set_max_voters (some n) p = ok (record p { max_voters = some n })

-- The callbacks of AddProcessID and DelProcessID (sequencer/sequencer.go).
unfoldable pub set_registered : Bool → Process → Result Process
set_registered registered p = ok (record p { registered_for_sequencing = registered })

-- The changes that the sequencer, the process monitor and the storage make by UpdateProcess, except that of
-- the census root.
pub data Change : Type 0 where
  to_status : ProcessStatus → Change
  to_results : List ℕ → Change
  to_state_root : ℕ → Option ℕ → Option ℕ → Change
  to_max_voters : Option ℕ → Change
  to_registered : Bool → Change

unfoldable pub callback : Change → Process → Result Process
unfolding set_status finalization set_state_root set_max_voters set_registered
callback (to_status st) p = set_status st p
callback (to_results outcome) p = finalization outcome p
callback (to_state_root root voters overwritten) p = set_state_root root voters overwritten p
callback (to_max_voters n) p = set_max_voters n p
callback (to_registered registered) p = set_registered registered p
