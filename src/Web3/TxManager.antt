-- ===== src/Web3/TxManager.antt =====
-- The state of TxManager (web3/txmanager/txmanager.go) and what it asks of a node. A transaction of
-- another type than legacy, dynamic-fee or blob has no price in the source, and is left out.
pub mod Nonces
pub mod Building
pub mod Stuck
pub mod Sending
pub mod Tracked
pub mod Gaps
pub mod Stalls
use davinci_node.Common.{
  ℕ, ◌+◌, ◌*◌, ◌≡◌, Bool, true, false, Option, none, some, List, [], ◌∷◌, ltb, if◌then◌else◌,
}
use davinci_node.Db.{Key, Table, lookup, insert, delete}
use davinci_node.Web3.Errors.{Message}
use davinci_node.Web3.Gas.{CallMsg, Node, GasCache, GasEstimateOpts, default_gas_estimate_opts}

-- An error: the text that a node's error has, or one of the manager's own.
pub data TxError : Type 0 where
  node_error : Message → TxError
  reverted not_initialized wrong_nonce no_sidecar blob_not_cancelled permanently_failed : TxError
  not_sent not_tracked not_a_blob no_limit : TxError

pub data Answer {ℓ} (A : Type ℓ) : Type ℓ where
  ok : A → Answer A
  err : TxError → Answer A

pub data Fees : Type 0 where
  legacy : (price : ℕ) → Fees
  dynamic : (fee_cap tip_cap : ℕ) → Fees
  blob : (fee_cap tip_cap blob_fee_cap : ℕ) → Fees

-- A transaction, and the sidecar that goes with it.
pub record Transaction : Type 0 where
  pub nonce : ℕ
  pub to : Key
  pub content : List ℕ
  pub value : ℕ
  pub gas : ℕ
  pub fees : Fees
  pub sidecar : Option (List ℕ)

pub record Signed : Type 0 where
  pub tx : Transaction
  pub hash : Key

-- PendingTransaction. Timestamps are nanoseconds.
pub record PendingTransaction : Type 0 where
  pub id : Key
  pub hash : Key
  pub nonce : ℕ
  pub timestamp : ℕ
  pub retry_count : ℕ
  pub is_blob : Bool
  pub original_gas_price : ℕ
  pub original_blob_fee : ℕ
  pub original_gas_limit : ℕ
  pub to : Key
  pub content : List ℕ
  pub value : ℕ
  pub blob_sidecar : Option (List ℕ)
  pub last_error : Option TxError

-- Config, without the intervals that only pace the waiting.
pub record Config : Type 0 where
  pub max_pending_time : ℕ
  pub max_retries : ℕ
  pub fee_increase_percent : ℕ
  pub max_gas_price : ℕ
  pub gas_estimate_opts : Option GasEstimateOpts

-- DefaultConfig, with the price in wei.
abbrev pub default_config : Config
default_config = record {
  max_pending_time = 5 * 60 * 1000000000;
  max_retries = 10;
  fee_increase_percent = 50;
  max_gas_price = 300 * 1000000000;
  gas_estimate_opts = some default_gas_estimate_opts;
}

-- TxManager. `pending_txs`, a map by the nonce, is a table by the one-element list of it, and a loop
-- over it meets the nonces in order.
pub record TxManager : Type 0 where
  pub address : Key
  pub next_nonce : ℕ
  pub last_confirmed_nonce : ℕ
  pub nonce_initialized : Bool
  pub gas_cache : GasCache
  pub pending_txs : Table PendingTransaction
  pub config : Config

-- What TransactionReceipt answers.
pub data Receipt : Type 0 where
  mined : (successful : Bool) → Receipt
  not_found : Receipt
  failed : Message → Receipt

-- The node and the clock. `W` is the state of the world outside; every question may find it changed.
pub record Client (W : Type 0) : Type 0 where
  pub now : W → ℕ
  pub eth_client : W → W × Option Message
  pub nonce_at : W → W × Answer ℕ
  pub pending_nonce_at : W → W × Answer ℕ
  pub receipt : Key → W → W × Receipt
  -- the answers to one estimation of gas, and the key of its cache
  pub node : W → W × Node
  pub gas_key : CallMsg → Key
  pub sign : Transaction → Answer Key
  -- SendTransaction: the text of its error
  pub send : Signed → W → W × Option Message
  pub sleep : ℕ → W → W

abbrev pub nonce_key : ℕ → Key
nonce_key n = n ∷ []

unfoldable pub pending_at : ℕ → TxManager → Option PendingTransaction
pending_at n tm = lookup (nonce_key n) tm.pending_txs

-- A change of the entry of a pending transaction, which the source makes through its pointer.
unfoldable pub put_pending : PendingTransaction → TxManager → TxManager
put_pending ptx tm = record tm { pending_txs = insert (nonce_key ptx.nonce) ptx tm.pending_txs }

unfoldable pub drop_pending : ℕ → TxManager → TxManager
drop_pending n tm = record tm { pending_txs = delete (nonce_key n) tm.pending_txs }
