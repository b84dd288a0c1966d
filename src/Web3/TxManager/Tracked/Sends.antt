-- ===== src/Web3/TxManager/Tracked/Sends.antt =====
-- What SendTx and the monitor keep of the pending transactions.
use davinci_node.Common.{
  ℕ, zero, suc, ◌+◌, ◌-◌, ◌≤◌, some, [], ◌∷◌, arith, ltb, ◌==◌, if◌then◌else◌, Bool-cases,
  Option-cases, inl, inr,
}
use davinci_node.Db.{Key, Table}
use davinci_node.Web3.TxManager.{
  Signed, PendingTransaction, Config, TxManager, Client, pending_at, put_pending,
}
use davinci_node.Web3.TxManager.Nonces.{last_on_chain_nonce, check_tx_status_by_hash}
use davinci_node.Web3.TxManager.Stuck.{handle_stuck_tx, handle_each, handle_stuck_txs}
use davinci_node.Web3.TxManager.Sending.{
  clear_confirmed, resend, send_anew, recover_tx_from_nonce_gap, send_with, send_tx, Builder,
  lowest_stuck_nonce, default_max_retries,
}
use davinci_node.Web3.TxManager.Tracked.{
  AllTracked, IsTracked, Answer-cases, pending_at-tracked, put_pending-IsTracked,
  update_nonce_tracking-IsTracked, tracked-IsTracked, clear_confirmed-IsTracked,
  speed_up_tx-IsTracked,
}

module _ (config : Config) {W : Type 0} (c : Client W) where
  handle_stuck_tx-IsTracked :
      (ptx : PendingTransaction) (tm : TxManager) (w : W)
      → ptx.retry_count ≤ config.max_retries
      → IsTracked config tm
      → IsTracked config (handle_stuck_tx c ptx (tm, w)).0
  unfolding handle_stuck_tx
  handle_stuck_tx-IsTracked ptx tm w few t =
      let x = check_tx_status_by_hash c ptx.hash w in
      elim (Answer-cases x.1) [
        | inl (b, answered) ↦ ground (
          arith,
          answered,
          update_nonce_tracking-IsTracked config ptx.nonce tm t,
          speed_up_tx-IsTracked config c ptx tm x.0 few t,
        )
        | inr (e, failed) ↦
            let ptx' = record ptx { last_error = some e } in
            ground (
              arith,
              failed,
              speed_up_tx-IsTracked config c ptx' (put_pending ptx' tm) x.0 few
                  (put_pending-IsTracked config ptx' tm few t),
            )
      ]

  handle_each-IsTracked :
      (entries : Table PendingTransaction) (tm : TxManager) (w : W)
      → AllTracked config.max_retries entries
      → IsTracked config tm
      → IsTracked config (handle_each c entries (tm, w)).0
  unfolding handle_each
  handle_each-IsTracked [] tm w h t = t
  handle_each-IsTracked ((k, ptx) ∷ rest) tm w h t =
      let x = handle_stuck_tx c ptx (tm, w) in
      let handled = handle_stuck_tx-IsTracked ptx tm w h.1 t in
      elim (Bool-cases (ltb (c.now w - ptx.timestamp) tm.config.max_pending_time)) [
        | inl young ↦ rw (handle_each, young) (handle_each-IsTracked rest tm w h.2 t)
        | inr old ↦ rw (handle_each, old) (handle_each-IsTracked rest x.0 x.1 h.2 handled)
      ]

  pub handle_stuck_txs-IsTracked :
      (tm : TxManager) (w : W)
      → IsTracked config tm
      → IsTracked config (handle_stuck_txs c (tm, w)).0
  unfolding handle_stuck_txs
  handle_stuck_txs-IsTracked tm w t = handle_each-IsTracked tm.pending_txs tm w t.entries t

  resend-IsTracked :
      (left attempt : ℕ) (id : Key) (signed : Signed) (tm : TxManager) (w : W)
      → IsTracked config tm
      → IsTracked config (resend c left attempt id signed (tm, w)).0.0
  unfolding resend
  resend-IsTracked zero attempt id signed tm w t = t
  resend-IsTracked (suc left) attempt id signed tm w t =
      let x = c.send signed (if attempt == 0 then w else c.sleep 1000000000 w) in
      ground (
        arith,
        tracked-IsTracked config (c.now x.0) id signed tm t,
        resend-IsTracked left (attempt + 1) id signed tm x.0 t,
      )

  send_anew-IsTracked :
      (id : Key) (builder : Builder c) (on_chain : ℕ) (tm : TxManager) (w : W)
      → IsTracked config tm
      → IsTracked config (send_anew c id builder on_chain (tm, w)).0.0
  unfolding send_anew
  send_anew-IsTracked id builder on_chain tm w t =
      let tm1 = record tm { next_nonce = on_chain; last_confirmed_nonce = on_chain } in
      let t1 : IsTracked config tm1 = record { configured = t.configured; entries = t.entries } in
      let x = builder on_chain (c.sleep 500000000 w) in
      elim (Answer-cases x.1) [
        | inl (signed, answered) ↦
            ground (arith, answered, resend-IsTracked default_max_retries 0 id signed tm1 x.0 t1)
        | inr (e, failed) ↦ ground (arith, failed)
      ]

  recover_tx-IsTracked :
      (id : Key) (builder : Builder c) (tm : TxManager) (w : W)
      → IsTracked config tm
      → IsTracked config (recover_tx_from_nonce_gap c id builder (tm, w)).0.0
  unfolding recover_tx_from_nonce_gap
  recover_tx-IsTracked id builder tm w t =
      let x = last_on_chain_nonce c w in
      elim (Answer-cases x.1) [
        | inr (e, failed) ↦ ground (arith, failed)
        | inl (n, answered) ↦
            let tm1 = clear_confirmed n tm in
            let t1 = clear_confirmed-IsTracked config n tm t in
            let lowest = lowest_stuck_nonce n tm1 in
            elim (Option-cases (pending_at lowest tm1)) [
              | inl absent ↦
                  ground (arith, answered, absent, send_anew-IsTracked id builder n tm1 x.0 t1)
              | inr (ptx, found) ↦
                  let entry = pending_at-tracked config lowest ptx tm1 t1 found in
                  ground
                    (arith, answered, found, speed_up_tx-IsTracked config c ptx tm1 x.0 entry t1)
            ]
      ]

  send_with-IsTracked :
      (id : Key) (builder : Builder c) (nonce : ℕ) (tm : TxManager) (w : W)
      → IsTracked config tm
      → IsTracked config (send_with c id builder nonce (tm, w)).0.0
  unfolding send_with
  send_with-IsTracked id builder nonce tm w t =
      let x = builder nonce w in
      elim (Answer-cases x.1) [
        | inr (e, failed) ↦ ground (arith, failed)
        | inl (signed, answered) ↦
            let y = c.send signed x.0 in
            ground (
              arith,
              answered,
              tracked-IsTracked config (c.now y.0) id signed tm t,
              recover_tx-IsTracked id builder tm y.0 t,
            )
      ]

  -- SendTx and the monitor's handleStuckTxs keep, whatever the node answers and the builder does, that
  -- every pending transaction stands under its own nonce and has been sped up at most MaxRetries times.
  pub send_tx-IsTracked :
      (id : Key) (builder : Builder c) (tm : TxManager) (w : W)
      → IsTracked config tm
      → IsTracked config (send_tx c id builder (tm, w)).0.0
        × IsTracked config (handle_stuck_txs c (tm, w)).0
  unfolding send_tx
  send_tx-IsTracked id builder tm w t =
      let x = handle_stuck_txs c (tm, w) in
      let handled = handle_stuck_txs-IsTracked tm w t in
      let y = c.pending_nonce_at x.1 in
      (
        elim (Answer-cases y.1) [
          | inl (n, answered) ↦
              ground (arith, answered, send_with-IsTracked id builder n x.0 y.0 handled)
          | inr (e, failed) ↦
              ground (arith, failed, send_with-IsTracked id builder x.0.next_nonce x.0 y.0 handled)
        ],
        handled,
      )
