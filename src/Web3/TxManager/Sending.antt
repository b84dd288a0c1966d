-- ===== src/Web3/TxManager/Sending.antt =====
-- SendTx and the recovery from a gap of nonces (web3/txmanager/txsend.go). The builder that the caller
-- gives may ask the world; the ID is the caller's random bytes.
use davinci_node.Common.{
  ℕ, zero, suc, ◌+◌, ◌-◌, Option, none, some, [], ◌∷◌, ltb, ◌==◌, if◌then◌else◌,
}
use davinci_node.Word.{add_int}
use davinci_node.Db.{Key, Table}
use davinci_node.Web3.Errors.{is_permanent_tx_error, is_nonce_error}
use davinci_node.Web3.TxManager.{
  node_error, not_initialized, wrong_nonce, not_sent, Answer, ok, err, Signed, PendingTransaction,
  TxManager, Client, pending_at,
}
use davinci_node.Web3.TxManager.Nonces.{last_on_chain_nonce}
use davinci_node.Web3.TxManager.Building.{track_tx}
use davinci_node.Web3.TxManager.Stuck.{speed_up_tx, handle_stuck_txs}

-- The entries that are not below a nonce.
unfoldable pub from_nonce : ℕ → Table PendingTransaction → Table PendingTransaction
from_nonce n [] = []
from_nonce n ((k, ptx) ∷ rest) =
    let others = from_nonce n rest in if ltb ptx.nonce n then others else (k, ptx) ∷ others

unfoldable pub clear_confirmed : ℕ → TxManager → TxManager
unfolding from_nonce
clear_confirmed n tm = record tm { pending_txs = from_nonce n tm.pending_txs }

-- The first nonce of a range that is pending.
unfoldable pub first_pending : (count nonce : ℕ) → TxManager → Option ℕ
unfolding pending_at
first_pending zero nonce tm = none
first_pending (suc count) nonce tm =
    let later = first_pending count (nonce + 1) tm in
    elim (pending_at nonce tm) [ none ↦ later | some ptx ↦ some nonce ]

unfoldable pub lowest_stuck_nonce : ℕ → TxManager → ℕ
unfolding first_pending
lowest_stuck_nonce on_chain tm = elim (first_pending (tm.next_nonce - on_chain) on_chain tm) [
  | none ↦ on_chain
  | some n ↦ n
]

-- `tm.trackTx(id, tx)` and `tm.nextNonce++`
unfoldable pub tracked : ℕ → Key → Signed → TxManager → TxManager
unfolding track_tx
tracked now id signed tm = record (track_tx now id signed tm) {
  next_nonce = add_int tm.next_nonce 1;
}

-- defaultMaxRetries
abbrev pub default_max_retries : ℕ
default_max_retries = 10

module _ {W : Type 0} (c : Client W) where
  abbrev pub Builder : Type 0
  Builder = ℕ → W → W × Answer Signed

  -- The loop of recoverTxFromNonceGap over the attempts. The error that is asked whether it is
  -- permanent is the one of the builder, which is nil here.
  unfoldable pub resend :
      (left attempt : ℕ) → Key → Signed → TxManager × W → (TxManager × W) × Answer Key
  unfolding tracked
  resend zero attempt id signed x = (x, err not_sent)
  resend (suc left) attempt id signed (tm, w) =
      let w1 = if attempt == 0 then w else c.sleep 1000000000 w in
      let (w2, failure) = c.send signed w1 in
      let again = resend left (attempt + 1) id signed (tm, w2) in
      elim failure [
        | none ↦ ((tracked (c.now w2) id signed tm, w2), ok signed.hash)
        | some msg ↦ if is_permanent_tx_error none then ((tm, w2), err (node_error msg)) else again
      ]

  -- What recoverTxFromNonceGap does where no transaction is pending at the lowest nonce.
  unfoldable pub send_anew : Key → Builder → ℕ → TxManager × W → (TxManager × W) × Answer Key
  unfolding resend
  send_anew id builder on_chain (tm, w) =
      let tm1 = record tm { next_nonce = on_chain; last_confirmed_nonce = on_chain } in
      let (w1, built) = builder on_chain (c.sleep 500000000 w) in
      elim built [
        | err e ↦ ((tm1, w1), err e)
        | ok signed ↦
            if signed.tx.nonce == on_chain
            then resend default_max_retries 0 id signed (tm1, w1)
            else ((tm1, w1), err wrong_nonce)
      ]

  -- recoverTxFromNonceGap
  unfoldable pub recover_tx_from_nonce_gap :
      Key → Builder → TxManager × W → (TxManager × W) × Answer Key
  unfolding clear_confirmed lowest_stuck_nonce send_anew
  recover_tx_from_nonce_gap id builder (tm, w) =
      let (w1, nonce) = last_on_chain_nonce c w in
      elim nonce [
        | err e ↦ ((tm, w1), err e)
        | ok on_chain ↦
            let tm1 = clear_confirmed on_chain tm in
            elim (pending_at (lowest_stuck_nonce on_chain tm1) tm1) [
              | some ptx ↦ let (x, (ptx', _)) = speed_up_tx c ptx (tm1, w1) in (x, ok ptx'.hash)
              | none ↦ send_anew id builder on_chain (tm1, w1)
            ]
      ]

  -- The part of SendTx behind the choice of the nonce.
  unfoldable pub send_with : Key → Builder → ℕ → TxManager × W → (TxManager × W) × Answer Key
  unfolding recover_tx_from_nonce_gap tracked
  send_with id builder nonce (tm, w) =
      let (w1, built) = builder nonce w in
      elim built [
        | err e ↦ ((tm, w1), err e)
        | ok signed ↦
            let (w2, failure) = c.send signed w1 in
            elim failure [
              | none ↦ ((tracked (c.now w2) id signed tm, w2), ok signed.hash)
              | some msg ↦
                  if is_nonce_error (some msg)
                  then recover_tx_from_nonce_gap id builder (tm, w2)
                  else ((tm, w2), err (node_error msg))
            ]
      ]

  -- SendTx: the hash that it returns with the ID.
  unfoldable pub send_tx : Key → Builder → TxManager × W → (TxManager × W) × Answer Key
  unfolding send_with
  send_tx id builder (tm, w) =
      let (tm1, w1) = handle_stuck_txs c (tm, w) in
      let (w2, pending) = c.pending_nonce_at w1 in
      if tm.nonce_initialized
      then elim pending [
        | ok nonce ↦ send_with id builder nonce (tm1, w2)
        | err e ↦ send_with id builder tm1.next_nonce (tm1, w2)
      ]
      else ((tm, w), err not_initialized)
