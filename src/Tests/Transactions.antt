-- ===== src/Tests/Transactions.antt =====
-- The estimation of gas on a node whose estimate fails, and a transaction that is stuck at the highest
-- price on a node that refuses its replacement.
use davinci_node.Common.{
  ℕ, ◌+◌, ◌*◌, ◌^◌, ◌<◌, ◌≤◌, ◌≡◌, ◌⊎◌, refl, Bool, true, false, some, none, [], ◌∷◌, arith, leb,
}
use davinci_node.Word.{add_int}
use davinci_node.Db.{Key, lookup, key_eq}
use davinci_node.Web3.Errors.{Message, codes, is_nonce_error}
use davinci_node.Web3.Gas.{
  CallMsg, Node, GasCache, validate_opts, cached_gas_hint, with_fee_caps, search_gas, search_fuel,
  hinted_low, hinted_high, estimate_gas,
}
use davinci_node.Web3.Gas.Search.{IsMonotone, search_gas-total}
use davinci_node.Web3.Gas.Limits.{effective, call_with, estimate_gas-works, estimate_gas-stale}
use davinci_node.Web3.TxManager.{
  not_sent, ok, err, Signed, dynamic, PendingTransaction, default_config, TxManager, not_found,
  Client, nonce_key, pending_at,
}
use davinci_node.Web3.TxManager.Nonces.{last_on_chain_nonce}
use davinci_node.Web3.TxManager.Building.{pending_of}
use davinci_node.Web3.TxManager.Stuck.{speed_up_tx, is_permanent, handle_stuck_txs}
use davinci_node.Web3.TxManager.Sending.{resend, Builder, send_tx}
use davinci_node.Web3.TxManager.Tracked.{IsTracked}
use davinci_node.Web3.TxManager.Tracked.Sends.{send_tx-IsTracked}
use davinci_node.Web3.TxManager.Gaps.{resend_outcome}
use davinci_node.Web3.TxManager.Stalls.{Refuses, speed_up_tx-stalls}

-- A call that takes 200,000 of gas.
abbrev enough : ℕ → Bool
enough gas = leb 200000 gas

enough_mono : IsMonotone enough
enough_mono low high order works = ground arith

search_gas-total_example :
    (h : ℕ) × (search_gas search_fuel enough 21000 5000000 ≡ some h)
    × (enough h ≡ true)
    × (h ≤ 5000000)
    × ((g : ℕ) → enough g ≡ true → h ≤ g + 1000)
search_gas-total_example = search_gas-total 21000 5000000 enough enough_mono (omega arith) refl refl

abbrev node : Node
node = record {
  suggest_tip_cap = some 1;
  suggest_gas_price = some 10;
  estimate = λ msg. none;
  reachable = true;
  call = λ msg. enough msg.gas;
}

abbrev msg : CallMsg
msg = record {
  to = some (5 ∷ []);
  content = [];
  gas = 0;
  gas_fee_cap = some 21;
  gas_tip_cap = some 1;
}

abbrev one_key : CallMsg → Key
one_key m = []

call_mono : IsMonotone (call_with node msg)
call_mono = enough_mono

no_estimate : node.estimate (with_fee_caps node msg) ≡ none
no_estimate = refl

low_small :
    hinted_low (cached_gas_hint one_key (with_fee_caps node msg) none) (effective none).min_gas
    < 2 ^ 63
unfolding hinted_low cached_gas_hint with_fee_caps validate_opts
low_small = omega arith

max_small : (effective none).max_gas < 2 ^ 63
unfolding validate_opts
max_small = omega arith

high_works :
    call_with node msg
      (hinted_high (cached_gas_hint one_key (with_fee_caps node msg) none) (effective none).max_gas)
    ≡ true
unfolding hinted_high cached_gas_hint with_fee_caps validate_opts
high_works = refl

estimate_gas-works_example :
    (gas : ℕ) × (cache' : GasCache) × (estimate_gas node one_key none msg none 0
      ≡ some (gas, cache'))
    × (gas ≤ (effective none).max_gas)
    × (call_with node msg gas ≡ true)
estimate_gas-works_example =
    estimate_gas-works node one_key none msg none 0 call_mono no_estimate refl max_small low_small
      high_works

-- The hint 50,000, of a lighter call with the same key.
abbrev hinted : GasCache
hinted = some (([], 50000) ∷ [])

abbrev hint : ℕ
hint = cached_gas_hint one_key (with_fee_caps node msg) hinted

hint_positive : 0 < hint
unfolding cached_gas_hint with_fee_caps lookup key_eq
hint_positive = omega arith

hint_below : hint * 2 < (effective none).max_gas
unfolding cached_gas_hint with_fee_caps lookup key_eq validate_opts
hint_below = omega arith

hint_above : (effective none).min_gas ≤ hint * 2
unfolding cached_gas_hint with_fee_caps lookup key_eq validate_opts
hint_above = omega arith

hint_fails : call_with node msg (hint * 2) ≡ false
unfolding cached_gas_hint with_fee_caps lookup key_eq
hint_fails = refl

estimate_gas-stale_example :
    (estimate_gas node one_key hinted msg none 0 ≡ some ((effective none).fallback, hinted))
    × ((effective none).fallback ≤ hint * 2 → call_with node msg (effective none).fallback ≡ false)
estimate_gas-stale_example =
    estimate_gas-stale node one_key hinted msg none 0 call_mono no_estimate refl hint_positive
      hint_below max_small hint_above hint_fails

-- A node that answers the nonce 3, and refuses whatever is sent; its state counts the sends.
abbrev underpriced : Message
underpriced = codes "replacement transaction underpriced"

abbrev client : Client ℕ
client = record {
  now = λ w. w;
  eth_client = λ w. (w, none);
  nonce_at = λ w. (w, ok 3);
  pending_nonce_at = λ w. (w, ok 3);
  receipt = λ h w. (w, not_found);
  node = λ w. (w, node);
  gas_key = one_key;
  sign = λ tx. ok (1 ∷ []);
  send = λ signed w. (w + 1, some underpriced);
  sleep = λ t w. w;
}

-- A transaction with the nonce 3, at 300 gwei.
abbrev stuck : PendingTransaction
stuck = record {
  id = 8 ∷ [];
  hash = 9 ∷ [];
  nonce = 3;
  timestamp = 0;
  retry_count = 2;
  is_blob = false;
  original_gas_price = 300 * 1000000000;
  original_blob_fee = 0;
  original_gas_limit = 21000;
  to = 5 ∷ [];
  content = [];
  value = 0;
  blob_sidecar = none;
  last_error = none;
}

abbrev manager : TxManager
manager = record {
  address = 6 ∷ [];
  next_nonce = 4;
  last_confirmed_nonce = 3;
  nonce_initialized = true;
  gas_cache = none;
  pending_txs = (nonce_key 3, stuck) ∷ [];
  config = default_config;
}

abbrev signed_at : ℕ → Signed
signed_at n = record {
  tx = record {
    nonce = n;
    to = 5 ∷ [];
    content = [];
    value = 0;
    gas = 21000;
    fees = dynamic 21 1;
    sidecar = none;
  };
  hash = 2 ∷ [];
}

abbrev builder : Builder client
builder n w = (w, ok (signed_at n))

abbrev other_builder : Builder client
other_builder n w = (w, err not_sent)

manager-IsTracked : IsTracked default_config manager
manager-IsTracked = record { configured = refl; entries = (refl, omega arith, tt) }

send_tx-IsTracked_example :
    IsTracked default_config (send_tx client (4 ∷ []) builder (manager, 0)).0.0
    × IsTracked default_config (handle_stuck_txs client (manager, 0)).0
send_tx-IsTracked_example =
    send_tx-IsTracked default_config client (4 ∷ []) builder manager 0 manager-IsTracked

nonce_three : (last_on_chain_nonce client 0).1 ≡ ok 3
unfolding last_on_chain_nonce
nonce_three = refl

resend_outcome_example :
    let x = resend client 10 0 (4 ∷ []) (signed_at 3) (manager, 0) in
    ((x.1 ≡ ok (2 ∷ []))
      × (pending_at 3 x.0.0 ≡ some (pending_of x.0.1 (4 ∷ []) (signed_at 3)))
      × (x.0.0.next_nonce ≡ add_int 4 1)
      × (x.0.1 ≤ 0 + 10))
    ⊎ ((x.1 ≡ err not_sent) × (x.0.0 ≡ manager) × (x.0.1 ≡ 0 + 10))
resend_outcome_example =
    resend_outcome client (λ w. w) (λ signed w. refl) (λ t w. refl) 10 0 (4 ∷ []) (signed_at 3)
      manager 0

node-Refuses : Refuses client stuck
unfolding is_nonce_error
node-Refuses signed w same low = (underpriced, refl, refl)

still_passing : is_permanent stuck.last_error ≡ false
unfolding is_permanent
still_passing = refl

speed_up_tx-stalls_example :
    (speed_up_tx client stuck (manager, 0)).0.0.pending_txs ≡ manager.pending_txs
speed_up_tx-stalls_example =
    speed_up_tx-stalls client stuck 3 manager 0 node-Refuses refl still_passing (omega arith)
      (omega arith) nonce_three (omega arith)
