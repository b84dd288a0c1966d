-- ===== src/Web3/Pool.antt =====
-- Calls that switch between the endpoints of one chain (web3/rpc/web3_pool.go, retrySwitchingEndpoints of
-- web3/rpc/web3_client.go). `W` is the state of the world outside; the call of one endpoint changes it.
pub mod Calls
use davinci_node.Common.{
  ℕ, zero, suc, ◌+◌, ◌-◌, ◌≡◌, Bool, true, false, Option, none, some, List, [], ◌∷◌, length, ◌==◌,
  if◌then◌else◌,
}
use davinci_node.Db.{Key, Table, lookup, insert, key_eq}
use davinci_node.Web3.Errors.{Message, is_permanent_tx_error, is_permanent_rpc_error}
use davinci_node.Web3.Iterator.{
  Web3Endpoint, Web3Iterator, NextResult, endpoint, no_endpoints, panics, new_web3_iterator,
  add_endpoints, next_endpoint, disable,
}

-- Web3Pool: the iterators by chain ID.
abbrev pub Web3Pool : Type 0
Web3Pool = Table Web3Iterator

abbrev pub chain_key : ℕ → Key
chain_key n = n ∷ []

-- The end of AddEndpoint, for a provider that answers.
unfoldable pub add_endpoint : Web3Endpoint → Web3Pool → Web3Pool
add_endpoint e pool = elim (lookup (chain_key e.chain_id) pool) [
  | none ↦ insert (chain_key e.chain_id) (new_web3_iterator (e ∷ [])) pool
  | some it ↦ insert (chain_key e.chain_id) (add_endpoints (e ∷ []) it) pool
]

-- Endpoint; none is the error for a chain without endpoints.
unfoldable pub pool_endpoint : ℕ → ℕ → Web3Pool → Web3Pool × Option NextResult
pool_endpoint now chain pool = elim (lookup (chain_key chain) pool) [
  | none ↦ (pool, none)
  | some it ↦
      let (it', result) = next_endpoint now it in (insert (chain_key chain) it' pool, some result)
]

-- DisableEndpoint
unfoldable pub disable_endpoint : ℕ → ℕ → Key → Web3Pool → Web3Pool
disable_endpoint now chain uri pool = elim (lookup (chain_key chain) pool) [
  | none ↦ pool
  | some it ↦ insert (chain_key chain) (disable now uri it) pool
]

-- NumberOfEndpoints
unfoldable pub number_of_endpoints : ℕ → Bool → Web3Pool → ℕ
number_of_endpoints chain only_available pool = elim (lookup (chain_key chain) pool) [
  | none ↦ 0
  | some it ↦
      if only_available then length it.available else length it.available + length it.disabled
]

-- The outcome of the calls of one endpoint, and of a whole call.
pub data CallResult (A : Type 0) : Type 0 where
  answered : A → CallResult A
  refused : Message → CallResult A

pub data Switched (A : Type 0) : Type 0 where
  result : A → Switched A
  permanent : Message → Switched A
  exhausted : Switched A
  no_endpoint : Switched A
  already_tried : Switched A
  broken : Switched A

-- What ends the retries on an endpoint: a result of the whole call, or the need to switch.
pub data Tried (A : Type 0) : Type 0 where
  ends : Switched A → Tried A
  switches : Tried A

-- defaultRetries
abbrev pub default_retries : ℕ
default_retries = 2

unfoldable pub was_tried : Key → List Key → Bool
was_tried u [] = false
was_tried u (v ∷ vs) = let rest = was_tried u vs in if key_eq v u then true else rest

module _ {A W : Type 0} (call : Web3Endpoint → W → W × CallResult A) (sleep : W → W)
    (now : W → ℕ) where
  -- The retries on one endpoint, `left` of them.
  unfoldable pub retry_endpoint : (left : ℕ) → Web3Endpoint → W → W × Tried A
  retry_endpoint zero e w = (w, switches)
  retry_endpoint (suc left) e w =
      let (w1, answer) = call e w in
      let again = retry_endpoint left e (if left == 0 then w1 else sleep w1) in
      elim answer [
        | answered a ↦ (w1, ends (result a))
        | refused msg ↦
            if is_permanent_tx_error (some msg)
            then (w1, ends (permanent msg))
            else if is_permanent_rpc_error (some msg)
            then (w1, switches)
            else again
      ]

  -- The loop over the endpoints, `left` attempts of them left.
  unfoldable pub try_endpoints :
      (left : ℕ) → ℕ → List Key → Web3Pool × W → (Web3Pool × W) × Switched A
  unfolding pool_endpoint was_tried retry_endpoint disable_endpoint
  try_endpoints zero chain tried x = (x, exhausted)
  try_endpoints (suc left) chain tried (pool, w) =
      let (pool1, next) = pool_endpoint (now w) chain pool in
      elim next [
        | none ↦ ((pool1, w), no_endpoint)
        | some no_endpoints ↦ ((pool1, w), no_endpoint)
        | some panics ↦ ((pool1, w), broken)
        | some (endpoint e) ↦
            let (w1, outcome) = retry_endpoint default_retries e w in
            let rest =
              try_endpoints left chain (e.uri ∷ tried)
                (disable_endpoint (now w1) chain e.uri pool1, w1) in
            if was_tried e.uri tried
            then ((pool1, w), already_tried)
            else elim outcome [ ends r ↦ ((pool1, w1), r) | switches ↦ rest ]
      ]

  -- retrySwitchingEndpoints
  unfoldable pub retry_switching_endpoints : ℕ → Web3Pool × W → (Web3Pool × W) × Switched A
  unfolding number_of_endpoints try_endpoints
  retry_switching_endpoints chain (pool, w) =
      let total = number_of_endpoints chain false pool in
      let tried = try_endpoints total chain [] (pool, w) in
      if total == 0 then ((pool, w), no_endpoint) else tried
