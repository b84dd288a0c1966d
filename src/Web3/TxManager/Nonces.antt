-- ===== src/Web3/TxManager/Nonces.antt =====
-- Nonces (web3/txmanager/txnonce.go), the start of the manager, and its view of a transaction
-- (web3/txmanager/txmanager.go: New, CheckTxStatusByHash, PendingTx).
use davinci_node.Common.{
  ℕ, Bool, true, false, Option, none, some, List, [], ◌∷◌, ltb, leb, if◌then◌else◌,
}
use davinci_node.Word.{add_int}
use davinci_node.Db.{Key, key_eq}
use davinci_node.Web3.TxManager.{
  node_error, reverted, not_tracked, Answer, ok, err, PendingTransaction, Config, TxManager, mined,
  not_found, failed, Client, drop_pending,
}

-- updateNonceTracking
unfoldable pub update_nonce_tracking : ℕ → TxManager → TxManager
unfolding drop_pending
update_nonce_tracking confirmed tm =
    let last =
      if leb tm.last_confirmed_nonce confirmed
      then add_int confirmed 1
      else tm.last_confirmed_nonce in
    record (drop_pending confirmed tm) {
      last_confirmed_nonce = last;
      next_nonce = if ltb tm.next_nonce last then last else tm.next_nonce;
    }

-- PendingTx: the copy of the entry with the ID.
unfoldable pub find_pending : Key → List (Key × PendingTransaction) → Option PendingTransaction
find_pending id [] = none
find_pending id ((k, ptx) ∷ rest) =
    let others = find_pending id rest in if key_eq id ptx.id then some ptx else others

unfoldable pub pending_tx : Key → TxManager → Option PendingTransaction
unfolding find_pending
pending_tx id tm = find_pending id tm.pending_txs

module _ {W : Type 0} (c : Client W) where
  -- New
  unfoldable pub new_tx_manager : Key → Config → W → W × Answer TxManager
  new_tx_manager address config w =
      let (w1, unreachable) = c.eth_client w in
      elim unreachable [
        | some msg ↦ (w1, err (node_error msg))
        | none ↦
            let (w2, nonce) = c.nonce_at w1 in
            elim nonce [
              | err e ↦ (w2, err e)
              | ok n ↦ (
                w2,
                ok (record {
                  address = address;
                  next_nonce = n;
                  last_confirmed_nonce = n;
                  nonce_initialized = true;
                  gas_cache = some [];
                  pending_txs = [];
                  config = config;
                }),
              )
            ]
      ]

  -- lastOnChainNonce
  unfoldable pub last_on_chain_nonce : W → W × Answer ℕ
  last_on_chain_nonce w =
      let (w1, unreachable) = c.eth_client w in
      elim unreachable [
        | some msg ↦ (w1, err (node_error msg))
        | none ↦
            let (w2, confirmed) = c.nonce_at w1 in
            elim confirmed [
              | err e ↦ (w2, err e)
              | ok last ↦
                  let (w3, waiting) = c.pending_nonce_at w2 in
                  (
                    w3,
                    ok (elim waiting [
                      | err e ↦ last
                      | ok pending ↦ if ltb last pending then pending else last
                    ]),
                  )
            ]
      ]

  -- CheckTxStatusByHash
  unfoldable pub check_tx_status_by_hash : Key → W → W × Answer Bool
  check_tx_status_by_hash hash w =
      let (w1, unreachable) = c.eth_client w in
      elim unreachable [
        | some msg ↦ (w1, err (node_error msg))
        | none ↦
            let (w2, receipt) = c.receipt hash w1 in
            elim receipt [
              | mined successful ↦ (w2, if successful then ok true else err reverted)
              | not_found ↦ (w2, ok false)
              | failed msg ↦ (w2, err (node_error msg))
            ]
      ]

  -- CheckTxStatusByID
  unfoldable pub check_tx_status_by_id : Key → TxManager → W → W × Answer Bool
  unfolding pending_tx check_tx_status_by_hash
  check_tx_status_by_id id tm w = elim (pending_tx id tm) [
    | none ↦ (w, err not_tracked)
    | some ptx ↦ check_tx_status_by_hash ptx.hash w
  ]
