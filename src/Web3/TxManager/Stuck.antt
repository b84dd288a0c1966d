-- ===== src/Web3/TxManager/Stuck.antt =====
-- Stuck transactions (web3/txmanager/txsend.go: cancelTx, speedUpTx, handleStuckTxs). A call returns
-- the manager, the world and the entry that its pointer shows then.
use davinci_node.Common.{
  ℕ, ◌+◌, ◌-◌, ◌*◌, ◌/◌, Bool, false, Option, none, some, List, [], ◌∷◌, ltb, leb, if◌then◌else◌,
}
use davinci_node.Db.{Key}
use davinci_node.Web3.Errors.{Message, is_permanent_tx_error, is_nonce_error}
use davinci_node.Web3.TxManager.{
  TxError, node_error, no_sidecar, blob_not_cancelled, permanently_failed, Answer, ok, err, Signed,
  PendingTransaction, TxManager, Client, put_pending, drop_pending,
}
use davinci_node.Web3.TxManager.Nonces.{
  update_nonce_tracking, last_on_chain_nonce, check_tx_status_by_hash,
}
use davinci_node.Web3.TxManager.Building.{build_tx}

-- The text of an error, for IsPermanentTxError: the manager's own texts hold no pattern.
abbrev error_text : TxError → Message
error_text (node_error msg) = msg
error_text _ = []

unfoldable pub is_permanent : Option TxError → Bool
is_permanent none = false
is_permanent (some e) = is_permanent_tx_error (some (error_text e))

abbrev pub Outcome : Type 0 → Type 0
Outcome W = (TxManager × W) × (PendingTransaction × Option TxError)

-- The fee of a replacement: the original one raised by the percentage.
unfoldable pub raised : ℕ → ℕ → ℕ
raised percent fee = fee * (100 + percent) / 100

-- What cancelTx builds on.
abbrev pub cancellation : PendingTransaction → TxManager → PendingTransaction
cancellation ptx tm = record {
  id = [];
  hash = [];
  nonce = ptx.nonce;
  timestamp = 0;
  retry_count = 0;
  is_blob = false;
  original_gas_price = 0;
  original_blob_fee = 0;
  original_gas_limit = 0;
  to = tm.address;
  content = [];
  value = 0;
  blob_sidecar = none;
  last_error = none;
}

-- The raised price, at most the configured one.
unfoldable pub capped_price : PendingTransaction → TxManager → ℕ
unfolding raised
capped_price ptx tm =
    let price = raised tm.config.fee_increase_percent ptx.original_gas_price in
    if ltb tm.config.max_gas_price price then tm.config.max_gas_price else price

-- The entry after its replacement is sent.
unfoldable pub replaced : TxManager → ℕ → Signed → PendingTransaction → PendingTransaction
unfolding capped_price raised
replaced tm now signed ptx = record ptx {
  hash = signed.hash;
  retry_count = ptx.retry_count + 1;
  timestamp = now;
  original_gas_price = capped_price ptx tm;
  original_blob_fee =
      if ptx.is_blob
      then raised tm.config.fee_increase_percent ptx.original_blob_fee
      else ptx.original_blob_fee;
}

-- The entry after its cancellation is sent.
unfoldable pub cancelled : ℕ → Signed → PendingTransaction → PendingTransaction
cancelled now signed ptx = record ptx { hash = signed.hash; timestamp = now }

module _ {W : Type 0} (c : Client W) where
  -- SendTransaction for a transaction that takes the place of a pending one: an error about the nonce
  -- means that it is not needed.
  unfoldable pub send_instead :
      (ℕ → Signed → PendingTransaction → PendingTransaction)
      → PendingTransaction
      → TxManager × W
      → Answer Signed
      → Outcome W
  send_instead change ptx (tm, w) (err e) = ((tm, w), (ptx, some e))
  send_instead change ptx (tm, w) (ok signed) =
      let (w1, failure) = c.send signed w in
      elim failure [
        | some msg ↦
            if is_nonce_error (some msg)
            then ((update_nonce_tracking ptx.nonce tm, w1), (ptx, none))
            else ((tm, w1), (ptx, some (node_error msg)))
        | none ↦
            let ptx' = change (c.now w1) signed ptx in ((put_pending ptx' tm, w1), (ptx', none))
      ]

  -- cancelTx
  unfoldable pub cancel_tx : PendingTransaction → TxManager × W → Outcome W
  unfolding send_instead cancelled
  cancel_tx ptx (tm, w) =
      if ptx.is_blob
      then ((tm, w), (ptx, some blob_not_cancelled))
      else let (x, signed) =
          build_tx c (cancellation ptx tm) (some (ptx.original_gas_price * 2)) none (tm, w) in
        send_instead cancelled ptx x signed

  -- The end of speedUpTx, once the nonce is known to be free.
  unfoldable pub replace_tx : PendingTransaction → TxManager × W → Outcome W
  unfolding send_instead replaced capped_price raised
  replace_tx ptx (tm, w) =
      let (x, signed) = build_tx c ptx (some (capped_price ptx tm)) none (tm, w) in
      let (y, signed_blob) =
        build_tx c ptx (some (capped_price ptx tm))
          (some (raised tm.config.fee_increase_percent ptx.original_blob_fee)) (tm, w) in
      if ptx.is_blob
      then elim ptx.blob_sidecar [
        | none ↦ ((tm, w), (ptx, some no_sidecar))
        | some sidecar ↦ send_instead (replaced tm) ptx y signed_blob
      ]
      else send_instead (replaced tm) ptx x signed

  -- speedUpTx
  unfoldable pub speed_up_tx : PendingTransaction → TxManager × W → Outcome W
  unfolding is_permanent cancel_tx replace_tx
  speed_up_tx ptx (tm, w) =
      let (cancelled_x, (cancelled_ptx, _)) =
        if ptx.is_blob then ((tm, w), (ptx, none)) else cancel_tx ptx (tm, w) in
      let (w1, on_chain) = last_on_chain_nonce c w in
      if is_permanent ptx.last_error
      then (
        (drop_pending ptx.nonce cancelled_x.0, cancelled_x.1),
        (cancelled_ptx, some permanently_failed),
      )
      else if leb tm.config.max_retries ptx.retry_count
      then cancel_tx ptx (tm, w)
      else elim on_chain [
        | err e ↦ ((tm, w1), (ptx, some e))
        | ok n ↦
            if ltb ptx.nonce n
            then ((update_nonce_tracking ptx.nonce tm, w1), (ptx, none))
            else replace_tx ptx (tm, w1)
      ]

  -- One round of handleStuckTxs for an entry that is old enough.
  unfoldable pub handle_stuck_tx : PendingTransaction → TxManager × W → TxManager × W
  unfolding speed_up_tx
  handle_stuck_tx ptx (tm, w) =
      let (w1, status) = check_tx_status_by_hash c ptx.hash w in
      elim status [
        | ok confirmed ↦
            if confirmed
            then (update_nonce_tracking ptx.nonce tm, w1)
            else (speed_up_tx ptx (tm, w1)).0
        | err e ↦
            let ptx' = record ptx { last_error = some e } in
            (speed_up_tx ptx' (put_pending ptx' tm, w1)).0
      ]

  -- The loop of handleStuckTxs.
  unfoldable pub handle_each : List (Key × PendingTransaction) → TxManager × W → TxManager × W
  unfolding handle_stuck_tx
  handle_each [] x = x
  handle_each ((k, ptx) ∷ rest) (tm, w) =
      let young = ltb (c.now w - ptx.timestamp) tm.config.max_pending_time in
      handle_each rest (if young then (tm, w) else handle_stuck_tx ptx (tm, w))

  -- handleStuckTxs
  unfoldable pub handle_stuck_txs : TxManager × W → TxManager × W
  unfolding handle_each
  handle_stuck_txs x = handle_each x.0.pending_txs x
