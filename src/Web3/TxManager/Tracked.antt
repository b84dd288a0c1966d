-- ===== src/Web3/TxManager/Tracked.antt =====
-- What the manager's operations keep: every pending transaction stands under its nonce, and is sped up
-- at most as often as configured.
pub mod Sends
use davinci_node.Common.{
  ℕ, zero, suc, ◌+◌, ◌-◌, ◌*◌, ◌≤◌, ◌<◌, ◌≡◌, refl, Bool, true, false, Option, none, some, List, [],
  ◌∷◌, arith, ltb, leb, ◌==◌, if◌then◌else◌, Bool-cases, Option-cases, inl, inr, ◌⊎◌,
}
use davinci_node.Db.{Key, Table, lookup, insert, delete, key_eq, eq_of_key_eq}
use davinci_node.Web3.Errors.{Message, is_nonce_error}
use davinci_node.Web3.TxManager.{
  TxError, Answer, ok, err, Signed, PendingTransaction, Config, TxManager, Client, nonce_key,
  pending_at, put_pending, drop_pending,
}
use davinci_node.Web3.TxManager.Nonces.{
  update_nonce_tracking, last_on_chain_nonce, check_tx_status_by_hash,
}
use davinci_node.Web3.TxManager.Building.{build_tx, track_tx, fee_cap_of, pending_of}
use davinci_node.Web3.TxManager.Stuck.{
  Outcome, send_instead, cancel_tx, replace_tx, speed_up_tx, handle_stuck_tx, handle_each,
  handle_stuck_txs, is_permanent, cancellation, capped_price, raised, replaced, cancelled,
}
use davinci_node.Web3.TxManager.Sending.{
  clear_confirmed, from_nonce, tracked, resend, send_anew, recover_tx_from_nonce_gap, send_with,
  send_tx, Builder, lowest_stuck_nonce, default_max_retries,
}

-- Every entry stands under its nonce, and was sped up no more often than the limit.
abbrev pub AllTracked : ℕ → Table PendingTransaction → Type 0
AllTracked limit [] = Unit {0}
AllTracked limit ((k, ptx) ∷ rest) =
    (k ≡ nonce_key ptx.nonce) × (ptx.retry_count ≤ limit) × AllTracked limit rest

-- The same of a manager, with its configuration.
pub record IsTracked (config : Config) (tm : TxManager) : Type 0 where
  pub configured : tm.config ≡ config
  pub entries : AllTracked config.max_retries tm.pending_txs

insert-AllTracked :
    (limit : ℕ) (ptx : PendingTransaction) (m : Table PendingTransaction)
    → ptx.retry_count ≤ limit
    → AllTracked limit m
    → AllTracked limit (insert (nonce_key ptx.nonce) ptx m)
unfolding insert
insert-AllTracked limit ptx [] few h = (refl, few, tt)
insert-AllTracked limit ptx ((k, p) ∷ m) few h =
    ground (arith, insert-AllTracked limit ptx m few h.2)

delete-AllTracked :
    (limit : ℕ) (k : Key) (m : Table PendingTransaction)
    → AllTracked limit m
    → AllTracked limit (delete k m)
unfolding delete
delete-AllTracked limit k [] h = tt
delete-AllTracked limit k ((j, p) ∷ m) h = ground (arith, delete-AllTracked limit k m h.2)

from_nonce-AllTracked :
    (limit n : ℕ) (m : Table PendingTransaction)
    → AllTracked limit m
    → AllTracked limit (from_nonce n m)
unfolding from_nonce
from_nonce-AllTracked limit n [] h = tt
from_nonce-AllTracked limit n ((k, p) ∷ m) h = ground (arith, from_nonce-AllTracked limit n m h.2)

lookup-AllTracked :
    (limit : ℕ) (k : Key) (ptx : PendingTransaction) (m : Table PendingTransaction)
    → AllTracked limit m
    → lookup k m ≡ some ptx
    → (k ≡ nonce_key ptx.nonce) × (ptx.retry_count ≤ limit)
unfolding lookup
lookup-AllTracked limit k ptx [] h found = cc
lookup-AllTracked limit k ptx ((j, p) ∷ m) h found = elim (Bool-cases (key_eq j k)) [
  | inl here ↦ ground (arith, here, eq_of_key_eq j k)
  | inr later ↦ lookup-AllTracked limit k ptx m h.2 (ground (arith, later))
]

pub Answer-cases {ℓ} :
    {A : Type ℓ} (r : Answer A) → ((a : A) × (r ≡ ok a)) ⊎ ((e : TxError) × (r ≡ err e))
Answer-cases (ok a) = inl (a, refl)
Answer-cases (err e) = inr (e, refl)

module _ (config : Config) where
  pub pending_at-tracked :
      (n : ℕ) (ptx : PendingTransaction) (tm : TxManager)
      → IsTracked config tm
      → pending_at n tm ≡ some ptx
      → ptx.retry_count ≤ config.max_retries
  unfolding pending_at
  pending_at-tracked n ptx tm t found =
      (lookup-AllTracked config.max_retries (nonce_key n) ptx tm.pending_txs t.entries found).1

  pub put_pending-IsTracked :
      (ptx : PendingTransaction) (tm : TxManager)
      → ptx.retry_count ≤ config.max_retries
      → IsTracked config tm
      → IsTracked config (put_pending ptx tm)
  unfolding put_pending
  put_pending-IsTracked ptx tm few t = record {
    configured = t.configured;
    entries = insert-AllTracked config.max_retries ptx tm.pending_txs few t.entries;
  }

  drop_pending-IsTracked :
      (n : ℕ) (tm : TxManager) → IsTracked config tm → IsTracked config (drop_pending n tm)
  unfolding drop_pending
  drop_pending-IsTracked n tm t = record {
    configured = t.configured;
    entries = delete-AllTracked config.max_retries (nonce_key n) tm.pending_txs t.entries;
  }

  pub update_nonce_tracking-IsTracked :
      (n : ℕ) (tm : TxManager) → IsTracked config tm → IsTracked config (update_nonce_tracking n tm)
  unfolding update_nonce_tracking
  update_nonce_tracking-IsTracked n tm t =
      let d = drop_pending-IsTracked n tm t in
      record { configured = d.configured; entries = d.entries }

  pub tracked-IsTracked :
      (now : ℕ) (id : Key) (signed : Signed) (tm : TxManager)
      → IsTracked config tm
      → IsTracked config (tracked now id signed tm)
  unfolding tracked track_tx
  tracked-IsTracked now id signed tm t =
      let d = put_pending-IsTracked (pending_of now id signed) tm (omega arith) t in
      record { configured = d.configured; entries = d.entries }

  pub clear_confirmed-IsTracked :
      (n : ℕ) (tm : TxManager) → IsTracked config tm → IsTracked config (clear_confirmed n tm)
  unfolding clear_confirmed
  clear_confirmed-IsTracked n tm t = record {
    configured = t.configured;
    entries = from_nonce-AllTracked config.max_retries n tm.pending_txs t.entries;
  }

  module _ {W : Type 0} (c : Client W) where
    build_tx-IsTracked :
        (ptx : PendingTransaction) (cap fee : Option ℕ) (tm : TxManager) (w : W)
        → IsTracked config tm
        → IsTracked config (build_tx c ptx cap fee (tm, w)).0.0
    unfolding build_tx
    build_tx-IsTracked ptx cap fee tm w t = ground arith

    send_instead-IsTracked :
        (change : ℕ → Signed → PendingTransaction → PendingTransaction) (ptx : PendingTransaction)
        (tm : TxManager) (w : W) (built : Answer Signed)
        → ((now : ℕ) (signed : Signed) → (change now signed ptx).retry_count ≤ config.max_retries)
        → IsTracked config tm
        → IsTracked config (send_instead c change ptx (tm, w) built).0.0
    unfolding send_instead
    send_instead-IsTracked change ptx tm w (err e) few t = t
    send_instead-IsTracked change ptx tm w (ok signed) few t = ground (
      arith,
      update_nonce_tracking-IsTracked ptx.nonce tm t,
      put_pending-IsTracked (change (c.now (c.send signed w).0) signed ptx) tm
          (few (c.now (c.send signed w).0) signed) t,
    )

    cancel_tx-IsTracked :
        (ptx : PendingTransaction) (tm : TxManager) (w : W)
        → ptx.retry_count ≤ config.max_retries
        → IsTracked config tm
        → IsTracked config (cancel_tx c ptx (tm, w)).0.0
    unfolding cancel_tx cancelled
    cancel_tx-IsTracked ptx tm w few t =
        let price = some (ptx.original_gas_price * 2) in
        let x = build_tx c (cancellation ptx tm) price none (tm, w) in
        let b = build_tx-IsTracked (cancellation ptx tm) price none tm w t in
        ground (arith, send_instead-IsTracked cancelled ptx x.0.0 x.0.1 x.1 (λ now signed. few) b)

    replace_tx-IsTracked :
        (ptx : PendingTransaction) (tm : TxManager) (w : W)
        → ptx.retry_count < config.max_retries
        → IsTracked config tm
        → IsTracked config (replace_tx c ptx (tm, w)).0.0
    unfolding replace_tx replaced
    replace_tx-IsTracked ptx tm w few t =
        let price = some (capped_price ptx tm) in
        let fee = some (raised tm.config.fee_increase_percent ptx.original_blob_fee) in
        let x = build_tx c ptx price none (tm, w) in
        let y = build_tx c ptx price fee (tm, w) in
        let kept : (now : ℕ) (signed : Signed)
            → (replaced tm now signed ptx).retry_count ≤ config.max_retries =
          λ now signed. omega arith in
        ground (
          arith,
          send_instead-IsTracked (replaced tm) ptx x.0.0 x.0.1 x.1 kept
              (build_tx-IsTracked ptx price none tm w t),
          send_instead-IsTracked (replaced tm) ptx y.0.0 y.0.1 y.1 kept
              (build_tx-IsTracked ptx price fee tm w t),
        )

    pub speed_up_tx-IsTracked :
        (ptx : PendingTransaction) (tm : TxManager) (w : W)
        → ptx.retry_count ≤ config.max_retries
        → IsTracked config tm
        → IsTracked config (speed_up_tx c ptx (tm, w)).0.0
    unfolding speed_up_tx
    speed_up_tx-IsTracked ptx tm w few t =
        let x = cancel_tx c ptx (tm, w) in
        let cancelling = cancel_tx-IsTracked ptx tm w few t in
        ground (
          arith,
          cancelling,
          t.configured,
          drop_pending-IsTracked ptx.nonce tm t,
          drop_pending-IsTracked ptx.nonce x.0.0 cancelling,
          update_nonce_tracking-IsTracked ptx.nonce tm t,
          λ (lt : ptx.retry_count < config.max_retries).
              replace_tx-IsTracked ptx tm (last_on_chain_nonce c w).0 lt t,
        )
