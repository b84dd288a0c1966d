-- ===== src/Storage/Status/Timeouts.antt =====
-- markProcessVoteIDsTimeout, on databases whose iteration hands out keys without the process ID and on
-- those whose iteration hands them out whole.
use davinci_node.Common.{
  ℕ, ◌+◌, ◌≤◌, ◌≡◌, refl, ap, Bool, true, false, not, ◌&&◌, ◌||◌, Option, none, some, List, [], ◌∷◌,
  ◌++◌, arith, ◌==◌, if◌then◌else◌, length, length-append, Option-cases, Bool-cases, inl, inr,
}
use davinci_node.Word.Bytes.{int_to_bytes, bytes_to_int, length-be_bytes}
use davinci_node.Db.{
  Key, Table, key_eq, key_eq_refl, eq_of_key_eq, has_prefix, seen_key, trim_prefix-append, iterate,
  lookup, insert, lookup-insert,
}
use davinci_node.Db.Order.{IsOrdered, lookup_below}
use davinci_node.Storage.Types.{ProcessId, VoteId, vote_id_bytes}
use davinci_node.Storage.Store.{Env, Store}
use davinci_node.Storage.Status.{
  status_prefix, status_key, write_timeouts, mark_process_vote_ids_timeout,
}
use davinci_node.Storage.Status.Code

-- A status that times out: it can be read, and is not done.
unfoldable pub is_open_value : Option (List ℕ) → Bool
is_open_value none = false
is_open_value (some bytes) = elim (bytes_to_int bytes) [
  | none ↦ false
  | some status ↦ not (status == Code.done)
]

-- Every key under the process is handed out without the process ID.
unfoldable pub hands_out_suffixes : Bool → ProcessId → Table (List ℕ) → Bool
unfolding seen_key
hands_out_suffixes strips p [] = true
hands_out_suffixes strips p ((k, v) ∷ m) =
    (not (has_prefix p k) || key_eq (p ++ seen_key strips status_prefix p k) k)
    && hands_out_suffixes strips p m

-- One round of the loop.
pub write_timeouts-cons :
    (p : ProcessId) (k : Key) (bytes : List ℕ) (es : List (Key × List ℕ)) (m : Table (List ℕ))
    (count : ℕ)
    → write_timeouts p ((k, bytes) ∷ es) m count ≡ (
        if is_open_value (some bytes)
        then write_timeouts p es (insert (p ++ k) (int_to_bytes Code.timeout) m) (count + 1)
        else write_timeouts p es m count)
unfolding write_timeouts is_open_value
write_timeouts-cons p k bytes es m count = elim (Option-cases (bytes_to_int bytes)) [
  | inl unread ↦ ground arith
  | inr (status, known) ↦ ground arith
]

not_open : is_open_value none ≡ false
unfolding is_open_value
not_open = refl

pub write_timeouts-nil :
    (p : ProcessId) (m : Table (List ℕ)) (count : ℕ) → (write_timeouts p [] m count).0 ≡ m
unfolding write_timeouts
write_timeouts-nil p m count = refl

write_timeouts-lookup :
    (strips : Bool) (p : ProcessId) (j : Key) (es m : Table (List ℕ)) (count : ℕ)
    → IsOrdered es
    → hands_out_suffixes strips p es ≡ true
    → lookup j (write_timeouts p (iterate strips status_prefix p es) m count).0 ≡ (
        if has_prefix p j && is_open_value (lookup j es)
        then some (int_to_bytes Code.timeout)
        else lookup j m)
unfolding iterate hands_out_suffixes lookup
write_timeouts-lookup strips p j [] m count o w =
    ground (arith, not_open, write_timeouts-nil p m count)
write_timeouts-lookup strips p j ((k, bytes) ∷ es) m count o w =
    let seen = seen_key strips status_prefix p k in
    let marked = insert (p ++ seen) (int_to_bytes Code.timeout) m in
    ground (
      arith,
      write_timeouts-cons p seen bytes (iterate strips status_prefix p es) m count,
      write_timeouts-lookup strips p j es m count o.1,
      write_timeouts-lookup strips p j es marked (count + 1) o.1,
      lookup-insert j (p ++ seen) (int_to_bytes Code.timeout) m,
      eq_of_key_eq (p ++ seen) k,
      eq_of_key_eq k j,
      key_eq_refl j,
      lookup_below k es o.0,
      not_open,
    )

-- markProcessVoteIDsTimeout, on statuses in the order of their keys of which those of the process are
-- handed out without the process ID: afterwards every status under the process that can be read and
-- is not done is a timeout, and every other status is as before.
pub mark_process_vote_ids_timeout-lookup :
    (e : Env) (p : ProcessId) (j : Key) (s : Store)
    → IsOrdered s.statuses
    → hands_out_suffixes e.strips p s.statuses ≡ true
    → lookup j (mark_process_vote_ids_timeout e p s).0.statuses ≡ (
        if has_prefix p j && is_open_value (lookup j s.statuses)
        then some (int_to_bytes Code.timeout)
        else lookup j s.statuses)
unfolding mark_process_vote_ids_timeout
mark_process_vote_ids_timeout-lookup e p j s o w =
    write_timeouts-lookup e.strips p j s.statuses s.statuses 0 o w

length-has_prefix : (p k : Key) → has_prefix p k ≡ true → length p ≤ length k
unfolding has_prefix
length-has_prefix [] k h = omega arith
length-has_prefix (a ∷ p) [] h = ground arith
length-has_prefix (a ∷ p) (b ∷ k) h = ground (arith, length-has_prefix p k)

-- A key twice as long as a process ID is no key of a vote.
too_long :
    (p q k : Key) (v : VoteId)
    → length p ≡ 31
    → length q ≡ 31
    → has_prefix p k ≡ true
    → key_eq (p ++ k) (status_key q v) ≡ false
unfolding vote_id_bytes
too_long p q k v lp lq below = elim (Bool-cases (key_eq (p ++ k) (status_key q v))) [
  | inr differ ↦ differ
  | inl same ↦ absurd (
      omega (
        arith,
        ap length (eq_of_key_eq (p ++ k) (status_key q v) same),
        length-append p k,
        length-append q (vote_id_bytes v),
        length-be_bytes 8 v,
        length-has_prefix p k below,
        lp,
        lq,
      ))
]

write_timeouts-missed :
    (p q : ProcessId) (v : VoteId) (es m : Table (List ℕ)) (count : ℕ)
    → length p ≡ 31
    → length q ≡ 31
    → lookup (status_key q v) (write_timeouts p (iterate false status_prefix p es) m count).0
      ≡ lookup (status_key q v) m
unfolding iterate seen_key
write_timeouts-missed p q v [] m count lp lq = ground (arith, write_timeouts-nil p m count)
write_timeouts-missed p q v ((k, bytes) ∷ es) m count lp lq = ground (
  arith,
  trim_prefix-append status_prefix k,
  write_timeouts-cons p k bytes (iterate false status_prefix p es) m count,
  write_timeouts-missed p q v es m count lp lq,
  write_timeouts-missed p q v es (insert (p ++ k) (int_to_bytes Code.timeout) m) (count + 1) lp lq,
  lookup-insert (status_key q v) (p ++ k) (int_to_bytes Code.timeout) m,
  too_long p q k v lp lq,
)

-- markProcessVoteIDsTimeout, on a database whose iteration hands out whole keys and for IDs of 31
-- bytes: no vote of any process times out, since each status is written under a key that has the
-- process ID twice.
pub mark_process_vote_ids_timeout-missed :
    (e : Env) (p q : ProcessId) (v : VoteId) (s : Store)
    → e.strips ≡ false
    → length p ≡ 31
    → length q ≡ 31
    → lookup (status_key q v) (mark_process_vote_ids_timeout e p s).0.statuses
      ≡ lookup (status_key q v) s.statuses
unfolding mark_process_vote_ids_timeout
mark_process_vote_ids_timeout-missed e p q v s whole lp lq =
    rw whole (write_timeouts-missed p q v s.statuses s.statuses 0 lp lq)
