-- ===== src/Storage/Status/Steps.antt =====
-- The diagram of statuses that isValidStatusTransition decides.
use davinci_node.Common.{ℕ, ◌≡◌, ◌≢◌, ◌↔◌, true, arith}
use davinci_node.Storage.Status.{is_valid_status_transition}
use davinci_node.Storage.Status.Code

-- A vote goes from pending to verified, aggregated, processed and done, returns from processed to
-- aggregated when its transition is retried, and fails or times out as long as it is not done.
pub data Step (from to : ℕ) : Type 0 where
  verifies : from ≡ Code.pending → to ≡ Code.verified → Step from to
  aggregates : from ≡ Code.verified → to ≡ Code.aggregated → Step from to
  processes : from ≡ Code.aggregated → to ≡ Code.processed → Step from to
  finishes : from ≡ Code.processed → to ≡ Code.done → Step from to
  retries : from ≡ Code.processed → to ≡ Code.aggregated → Step from to
  fails : from ≢ Code.done → to ≡ Code.error → Step from to
  expires : from ≢ Code.done → to ≡ Code.timeout → Step from to

sound : (from to : ℕ) → is_valid_status_transition from to ≡ true → Step from to
unfolding is_valid_status_transition
sound from to h = grind (arith, verifies, aggregates, processes, finishes, retries, fails, expires)

complete : (from to : ℕ) → Step from to → is_valid_status_transition from to ≡ true
unfolding is_valid_status_transition
complete from to (verifies h k) = ground (arith, h, k)
complete from to (aggregates h k) = ground (arith, h, k)
complete from to (processes h k) = ground (arith, h, k)
complete from to (finishes h k) = ground (arith, h, k)
complete from to (retries h k) = ground (arith, h, k)
complete from to (fails h k) = ground (arith, h, k)
complete from to (expires h k) = ground (arith, h, k)

-- isValidStatusTransition accepts exactly the steps of the diagram.
pub is_valid_status_transition-Step :
    (from to : ℕ) → (is_valid_status_transition from to ≡ true) ↔ Step from to
is_valid_status_transition-Step from to = (sound from to, complete from to)
