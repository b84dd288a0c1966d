-- ===== src/Storage/Processes/Updates.antt =====
-- UpdateProcess changes one process or nothing, and the two questions that are asked of a process.
use davinci_node.Common.{
  ℕ, ◌+◌, ◌≤◌, ◌≡◌, refl, ◌≢◌, ◌↔◌, true, false, none, List, [], ◌∷◌, arith, Option-cases, inl, inr,
}
use davinci_node.Db.{key_eq, key_eq_refl, lookup-insert}
use davinci_node.Storage.Types.{
  ProcessId, is_valid_process_id, Error, Result, ok, err, ◌>>=◌, encoded, Process, ProcessStatus,
  ready,
}
use davinci_node.Storage.Store.{Store, get_artifact}
use davinci_node.Storage.Processes.{
  process, apply_all, update_process, has_expired, is_ready, process_is_on_chain_alive,
  process_is_accepting_votes,
}

-- UpdateProcess that returns an error leaves the storage as it was.
pub update_process-err :
    (id : ProcessId) (fs : List (Process → Result Process)) (s s' : Store) (x : Error)
    → update_process id fs s ≡ (s', err x)
    → s' ≡ s
unfolding update_process
update_process-err id [] s s' x h = ground arith
update_process-err id (f ∷ fs) s s' x h = ground arith

-- Update functions one after the other: the process that the last one leaves, or the error of the first
-- one that fails.
pub data Applied : List (Process → Result Process) → Process → Result Process → Type 0 where
  all_applied : {p : Process} → Applied [] p (ok p)
  applied :
      {f : Process → Result Process} {fs : List (Process → Result Process)} {p q : Process}
      {r : Result Process}
      → f p ≡ ok q
      → Applied fs q r
      → Applied (f ∷ fs) p r
  failed :
      {f : Process → Result Process} {fs : List (Process → Result Process)} {p : Process}
      {x : Error}
      → f p ≡ err x
      → Applied (f ∷ fs) p (err x)

apply_all-Applied :
    {fs : List (Process → Result Process)} {p : Process} {r : Result Process}
    → Applied fs p r
    → apply_all fs p ≡ r
unfolding apply_all
apply_all-Applied all_applied = refl
apply_all-Applied (applied step rest) = rw step (apply_all-Applied rest)
apply_all-Applied (failed step) = rw step refl

-- What UpdateProcess comes to, when the update functions come to r: a process is stored under the ID, and
-- every other one is read as before; or the error is returned and nothing has changed.
abbrev pub Updated : ProcessId → Result Process → Store → Store × Result (Unit {0}) → Type 0
Updated id (ok q) s (s', result) =
    (result ≡ ok tt)
    × (process id s' ≡ ok q)
    × ((j : ProcessId) → key_eq id j ≡ false → process j s' ≡ process j s)
Updated id (err x) s (s', result) = (s' ≡ s) × (result ≡ err x)

update_process-result :
    (id : ProcessId) (f : Process → Result Process) (fs : List (Process → Result Process))
    (s : Store) (r : Result Process)
    → is_valid_process_id id ≡ true
    → (process id s >>= λ p. apply_all (f ∷ fs) p) ≡ r
    → Updated id r s (update_process id (f ∷ fs) s)
unfolding update_process process get_artifact
update_process-result id f fs s (err x) valid h = ground arith
update_process-result id f fs s (ok q) valid h = (
  ground arith,
  ground (arith, lookup-insert id id (encoded q) s.processes, key_eq_refl id),
  λ j other. ground (arith, other, lookup-insert j id (encoded q) s.processes),
)

-- UpdateProcess of a process that is there, with at least one update function: it stores what the
-- functions leave one after the other and changes no other process, or it returns the error of the first
-- one that fails and changes nothing.
pub update_process-Updated :
    (id : ProcessId) (f : Process → Result Process) (fs : List (Process → Result Process))
    (s : Store) (p : Process) (r : Result Process)
    → is_valid_process_id id ≡ true
    → process id s ≡ ok p
    → Applied (f ∷ fs) p r
    → Updated id r s (update_process id (f ∷ fs) s)
update_process-Updated id f fs s p r valid found steps =
    update_process-result id f fs s r valid (rw found (apply_all-Applied steps))

-- A process that takes votes: it has a state root, its duration since the start is not over, its status
-- is ready, and the sequencer has registered it.
pub record Accepts (now : ℕ) (p : Process) : Type 0 where
  pub rooted : p.state_root ≢ none
  pub in_time : now ≤ p.start_time + p.duration
  pub is_open : p.status ≡ ready
  pub registered : p.registered_for_sequencing ≡ true

is_ready-ready : (status : ProcessStatus) → is_ready status ≡ true → status ≡ ready
unfolding is_ready
is_ready-ready status h = ground arith

ready_open : is_ready ready ≡ true
unfolding is_ready
ready_open = refl

accepting_sound :
    (now : ℕ) (p : Process) → process_is_accepting_votes now p ≡ ok true → Accepts now p
unfolding process_is_accepting_votes process_is_on_chain_alive has_expired
accepting_sound now p h = elim (Option-cases p.state_root) [
  | inl missing ↦ ground arith
  | inr (root, known) ↦ record {
    rooted = λ missing. cc (known, missing);
    in_time = ground arith;
    is_open = is_ready-ready p.status (ground arith);
    registered = ground arith;
  }
]

accepting_complete :
    (now : ℕ) (p : Process) → Accepts now p → process_is_accepting_votes now p ≡ ok true
unfolding process_is_accepting_votes process_is_on_chain_alive has_expired
accepting_complete now p a = elim (Option-cases p.state_root) [
  | inl missing ↦ absurd (a.rooted missing)
  | inr (root, known) ↦ ground (arith, known, a.in_time, a.is_open, a.registered, ready_open)
]

-- processIsAcceptingVotes says yes to exactly the processes that have a state root, whose start plus
-- duration is not before the time of the call, whose status is ready, and which the sequencer has
-- registered.
pub process_is_accepting_votes-Accepts :
    (now : ℕ) (p : Process) → (process_is_accepting_votes now p ≡ ok true) ↔ Accepts now p
process_is_accepting_votes-Accepts now p = (accepting_sound now p, accepting_complete now p)
