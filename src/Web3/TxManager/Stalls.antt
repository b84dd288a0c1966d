-- ===== src/Web3/TxManager/Stalls.antt =====
-- The replacement of a transaction whose price is as high as allowed.
use davinci_node.Common.{ℕ, ◌≤◌, ◌<◌, ◌≡◌, refl, false, none, some, arith}
use davinci_node.Web3.Errors.{Message, is_nonce_error}
use davinci_node.Web3.TxManager.{Answer, ok, err, Signed, PendingTransaction, TxManager, Client}
use davinci_node.Web3.TxManager.Nonces.{last_on_chain_nonce}
use davinci_node.Web3.TxManager.Building.{build_tx, fee_cap_of, price_of, built, fees_of}
use davinci_node.Web3.TxManager.Stuck.{
  send_instead, replace_tx, speed_up_tx, is_permanent, capped_price, replaced,
}

module _ {W : Type 0} (c : Client W) where
  -- How a node answers to a transaction that would take the place of a pending one and pays no more: by
  -- an error that is not about the nonce.
  abbrev pub Refuses : PendingTransaction → Type 0
  Refuses ptx =
      (signed : Signed) (w : W)
      → signed.tx.nonce ≡ ptx.nonce
      → price_of signed.tx.fees ≤ ptx.original_gas_price
      → (msg : Message) × ((c.send signed w).1 ≡ some msg) × (is_nonce_error (some msg) ≡ false)

  build_tx-price :
      (ptx : PendingTransaction) (cap : ℕ) (tm : TxManager) (w : W)
      → let x = build_tx c ptx (some cap) none (tm, w) in
        (x.0.0.pending_txs ≡ tm.pending_txs)
        × ((signed : Signed)
            → x.1 ≡ ok signed
            → (signed.tx.nonce ≡ ptx.nonce) × (price_of signed.tx.fees ≡ cap))
  unfolding build_tx fee_cap_of fees_of built
  build_tx-price ptx cap tm w = (ground arith, λ signed made. ground arith)

  send_instead-refused :
      (change : ℕ → Signed → PendingTransaction → PendingTransaction) (ptx : PendingTransaction)
      (tm : TxManager) (w : W) (made : Answer Signed)
      → Refuses ptx
      → ((signed : Signed)
          → made ≡ ok signed
          → (signed.tx.nonce ≡ ptx.nonce) × (price_of signed.tx.fees ≤ ptx.original_gas_price))
      → (send_instead c change ptx (tm, w) made).0.0.pending_txs ≡ tm.pending_txs
  unfolding send_instead
  send_instead-refused change ptx tm w (err e) refuses low = refl
  send_instead-refused change ptx tm w (ok signed) refuses low =
      let (msg, refused, other) = refuses signed w (low signed refl).0 (low signed refl).1 in
      rw (send_instead, refused, other) refl

  capped_price-le :
      (ptx : PendingTransaction) (tm : TxManager) → capped_price ptx tm ≤ tm.config.max_gas_price
  unfolding capped_price
  capped_price-le ptx tm = ground arith

  -- A pending transaction, not a blob's, whose price is at the configured maximum or above, on a node that
  -- refuses a replacement which does not pay more, with an error that is not about the nonce: while the
  -- chain has not passed its nonce and its last error is not permanent, speedUpTx leaves all pending
  -- transactions as they are, so that its retries are never used up and it is never cancelled.
  pub speed_up_tx-stalls :
      (ptx : PendingTransaction) (n : ℕ) (tm : TxManager) (w : W)
      → Refuses ptx
      → ptx.is_blob ≡ false
      → is_permanent ptx.last_error ≡ false
      → ptx.retry_count < tm.config.max_retries
      → tm.config.max_gas_price ≤ ptx.original_gas_price
      → (last_on_chain_nonce c w).1 ≡ ok n
      → n ≤ ptx.nonce
      → (speed_up_tx c ptx (tm, w)).0.0.pending_txs ≡ tm.pending_txs
  unfolding speed_up_tx replace_tx
  speed_up_tx-stalls ptx n tm w refuses plain passing few dear answered free =
      let w1 = (last_on_chain_nonce c w).0 in
      let cap = capped_price ptx tm in
      let x = build_tx c ptx (some cap) none (tm, w1) in
      let (kept, priced) = build_tx-price ptx cap tm w1 in
      let refused = send_instead-refused (replaced tm) ptx x.0.0 x.0.1 x.1 refuses (λ signed made.
        ((priced signed made).0, omega (arith, (priced signed made).1, capped_price-le ptx tm))) in
      ground (arith, plain, passing, answered, kept, refused)
