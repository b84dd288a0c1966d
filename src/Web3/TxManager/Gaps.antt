-- ===== src/Web3/TxManager/Gaps.antt =====
-- The recovery from a gap of nonces: what its attempts come to, and what it does to a new transaction
-- while an older one is stuck.
use davinci_node.Common.{
  ℕ, zero, suc, ◌+◌, ◌≤◌, ◌<◌, ◌≡◌, refl, none, some, [], ◌∷◌, arith, ◌==◌, if◌then◌else◌,
  Bool-cases, Option-cases, inl, inr, ◌⊎◌,
}
use davinci_node.Word.{add_int}
use davinci_node.Db.{Key, Table, lookup-insert_self}
use davinci_node.Web3.Errors.{is_permanent_tx_error}
use davinci_node.Web3.TxManager.{
  not_sent, ok, err, Signed, PendingTransaction, TxManager, Client, pending_at, put_pending,
  nonce_key,
}
use davinci_node.Web3.TxManager.Building.{track_tx, pending_of}
use davinci_node.Web3.TxManager.Sending.{tracked, resend}

-- Every pending transaction stands under its nonce.
abbrev pub AllAtNonce : Table PendingTransaction → Type 0
AllAtNonce [] = Unit {0}
AllAtNonce ((k, ptx) ∷ m) = (k ≡ nonce_key ptx.nonce) × AllAtNonce m

-- The lowest pending nonce from n on, where m is pending.
abbrev pub IsLowest : ℕ → ℕ → TxManager → ℕ → Type 0
IsLowest n m tm l = (n ≤ l) × (l ≤ m) × ((j : ℕ) → n ≤ j → j < l → pending_at j tm ≡ none)

module _ {W : Type 0} (c : Client W) where
  tracked-pending :
      (now : ℕ) (id : Key) (signed : Signed) (tm : TxManager)
      → pending_at signed.tx.nonce (tracked now id signed tm) ≡ some (pending_of now id signed)
  unfolding pending_at tracked track_tx put_pending
  tracked-pending now id signed tm =
      lookup-insert_self (nonce_key signed.tx.nonce) (pending_of now id signed) tm.pending_txs

  module _ (sends : W → ℕ)
      (counts : (signed : Signed) (w : W) → sends (c.send signed w).0 ≡ sends w + 1)
      (quiet : (t : ℕ) (w : W) → sends (c.sleep t w) ≡ sends w) where
    -- The attempts of the recovery, on a world that counts what is sent: either one is accepted, and the
    -- transaction is pending under its nonce with the ID, the next nonce is one higher and at most as many
    -- were sent as there are attempts; or nothing has changed in the manager, and every attempt was made,
    -- whatever errors the node gave, permanent ones included.
    pub resend_outcome :
        (left attempt : ℕ) (id : Key) (signed : Signed) (tm : TxManager) (w : W)
        → let x = resend c left attempt id signed (tm, w) in
          ((x.1 ≡ ok signed.hash)
            × (pending_at signed.tx.nonce x.0.0 ≡ some (pending_of (c.now x.0.1) id signed))
            × (x.0.0.next_nonce ≡ add_int tm.next_nonce 1)
            × (sends x.0.1 ≤ sends w + left))
          ⊎ ((x.1 ≡ err not_sent) × (x.0.0 ≡ tm) × (sends x.0.1 ≡ sends w + left))
    unfolding resend tracked is_permanent_tx_error
    resend_outcome zero attempt id signed tm w = inr (refl, refl, omega arith)
    resend_outcome (suc left) attempt id signed tm w =
        let w1 = if attempt == 0 then w else c.sleep 1000000000 w in
        let calm : sends w1 ≡ sends w = elim (Bool-cases (attempt == 0)) [
          | inl first ↦ rw first refl
          | inr later ↦ rw later (quiet 1000000000 w)
        ] in
        let x = c.send signed w1 in
        let more = resend_outcome left (attempt + 1) id signed tm x.0 in
        let count = counts signed w1 in
        elim (Option-cases x.1) [
          | inl accepted ↦
              rw (resend, accepted)
                (inl (
                  refl,
                  tracked-pending (c.now x.0) id signed tm,
                  refl,
                  omega (arith, count, calm),
                ))
          | inr (msg, refused) ↦
              rw (resend, refused)
                (elim more [
                  | inl (done, there, next, few) ↦
                      inl (done, there, next, omega (arith, count, calm))
                  | inr (failed, same, all) ↦ inr (failed, same, omega (arith, count, calm))
                ])
        ]
