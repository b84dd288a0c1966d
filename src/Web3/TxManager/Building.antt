-- ===== src/Web3/TxManager/Building.antt =====
-- buildTx (web3/txmanager/txmanager.go) and trackTx, TrackBlobTxWithSidecar
-- (web3/txmanager/txsend.go). The signature is the client's; a fee fits in 256 bits.
use davinci_node.Common.{ℕ, ◌+◌, ◌*◌, Bool, true, false, Option, none, some, [], if◌then◌else◌}
use davinci_node.Db.{Key}
use davinci_node.Web3.Gas.{CallMsg, Node, GasCache, estimate_gas}
use davinci_node.Web3.TxManager.{
  TxError, node_error, not_tracked, not_a_blob, no_limit, no_sidecar, Answer, ok, err, Fees, legacy,
  dynamic, blob, Transaction, Signed, PendingTransaction, TxManager, Client, pending_at,
  put_pending,
}

-- The answers about fees that buildTx needs: the tip, and the price where no cap is given.
unfoldable pub fee_cap_of : Node → Option ℕ → Option (ℕ × ℕ)
fee_cap_of node given = elim node.suggest_tip_cap [
  | none ↦ none
  | some tip ↦ elim given [
    | some cap ↦ some (tip, cap)
    | none ↦ elim node.suggest_gas_price [ none ↦ none | some price ↦ some (tip, price * 2 + tip) ]
  ]
]

-- The fees of the transaction: a blob transaction's if a blob fee is given.
unfoldable pub fees_of : ℕ → ℕ → Option ℕ → Fees
fees_of tip cap none = dynamic cap tip
fees_of tip cap (some blob_fee) = blob cap tip blob_fee

-- The message for the estimation.
unfoldable pub estimate_msg : PendingTransaction → ℕ → ℕ → CallMsg
estimate_msg ptx tip cap = record {
  to = some ptx.to;
  content = ptx.content;
  gas = 0;
  gas_fee_cap = some cap;
  gas_tip_cap = some tip;
}

unfoldable pub built : PendingTransaction → ℕ → Fees → Option ℕ → Transaction
built ptx gas fees blob_fee = record {
  nonce = ptx.nonce;
  to = ptx.to;
  content = ptx.content;
  value = ptx.value;
  gas = gas;
  fees = fees;
  sidecar = elim blob_fee [ none ↦ none | some fee ↦ ptx.blob_sidecar ];
}

abbrev cached : GasCache → TxManager → TxManager
cached cache tm = record tm { gas_cache = cache }

module _ {W : Type 0} (c : Client W) where
  -- buildTx. `no_limit` is a search for gas that its fuel does not end.
  unfoldable pub build_tx :
      PendingTransaction → Option ℕ → Option ℕ → TxManager × W → (TxManager × W) × Answer Signed
  unfolding fee_cap_of fees_of estimate_msg built
  build_tx ptx gas_fee_cap blob_fee (tm, w) =
      let (w1, node) = c.node w in
      elim (fee_cap_of node gas_fee_cap) [
        | none ↦ ((tm, w1), err (node_error []))
        | some fee ↦
            let estimate =
              estimate_gas node c.gas_key tm.gas_cache (estimate_msg ptx fee.0 fee.1)
                tm.config.gas_estimate_opts ptx.original_gas_limit in
            elim estimate [
              | none ↦ ((tm, w1), err no_limit)
              | some found ↦
                  let tx = built ptx found.0 (fees_of fee.0 fee.1 blob_fee) blob_fee in
                  elim (c.sign tx) [
                    | err e ↦ ((cached found.1 tm, w1), err e)
                    | ok hash ↦ ((cached found.1 tm, w1), ok (record { tx = tx; hash = hash }))
                  ]
            ]
      ]

abbrev is_blob_fees : Fees → Bool
is_blob_fees (legacy price) = false
is_blob_fees (dynamic cap tip) = false
is_blob_fees (blob cap tip fee) = true

abbrev pub price_of : Fees → ℕ
price_of (legacy price) = price
price_of (dynamic cap tip) = cap
price_of (blob cap tip fee) = cap

abbrev blob_fee_of : Fees → ℕ
blob_fee_of (legacy price) = 0
blob_fee_of (dynamic cap tip) = 0
blob_fee_of (blob cap tip fee) = fee

-- The entry that trackTx makes.
unfoldable pub pending_of : ℕ → Key → Signed → PendingTransaction
pending_of now id signed = record {
  id = id;
  hash = signed.hash;
  nonce = signed.tx.nonce;
  timestamp = now;
  retry_count = 0;
  is_blob = is_blob_fees signed.tx.fees;
  original_gas_price = price_of signed.tx.fees;
  original_blob_fee = blob_fee_of signed.tx.fees;
  original_gas_limit = signed.tx.gas;
  to = signed.tx.to;
  content = signed.tx.content;
  value = signed.tx.value;
  blob_sidecar = none;
  last_error = none;
}

-- trackTx
unfoldable pub track_tx : ℕ → Key → Signed → TxManager → TxManager
unfolding pending_of put_pending
track_tx now id signed tm = put_pending (pending_of now id signed) tm

-- TrackBlobTxWithSidecar
unfoldable pub track_blob_tx_with_sidecar : Signed → TxManager → TxManager × Option TxError
unfolding pending_at put_pending
track_blob_tx_with_sidecar signed tm =
    if is_blob_fees signed.tx.fees
    then elim (pending_at signed.tx.nonce tm) [
      | none ↦ (tm, some not_tracked)
      | some ptx ↦ elim signed.tx.sidecar [
        | none ↦ (tm, some no_sidecar)
        | some sidecar ↦ (put_pending (record ptx { blob_sidecar = some sidecar }) tm, none)
      ]
    ]
    else (tm, some not_a_blob)
