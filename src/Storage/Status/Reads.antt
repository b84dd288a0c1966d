-- ===== src/Storage/Status/Reads.antt =====
-- What VoteIDStatus reads after setVoteIDStatus.
use davinci_node.Common.{
  ℕ, ◌^◌, ◌<◌, ◌≡◌, refl, ap, false, some, [], ◌∷◌, ◌++◌, arith, if◌then◌else◌, length, drop,
  Bool-cases, inl, inr, ◌==◌,
}
use davinci_node.Word.Bytes.{
  int_to_bytes, bytes_to_int, bytes_to_int-int_to_bytes, be_bytes_injective,
}
use davinci_node.Db.{Key, key_eq, key_eq_refl, eq_of_key_eq, lookup, lookup-insert}
use davinci_node.Storage.Types.{ProcessId, VoteId, vote_id_bytes, ok}
use davinci_node.Storage.Store.{Env, Store}
use davinci_node.Storage.Status.{
  status_key, is_done_value, write_status, set_vote_id_status, vote_id_status, settle,
}
use davinci_node.Storage.Status.Code

-- Two keys whose first parts have one length.
pub take_prefix : (p q x y : Key) → length p ≡ length q → p ++ x ≡ q ++ y → (p ≡ q) × (x ≡ y)
take_prefix [] [] x y l h = (refl, h)
take_prefix [] (b ∷ q) x y l h = grind arith
take_prefix (a ∷ p) [] x y l h = grind arith
take_prefix (a ∷ p) (b ∷ q) x y l h =
    let rest = take_prefix p q x y (omega (arith, l)) (ap (drop 1) h) in
    (ground (arith, rest.0, h), rest.1)

-- Two votes have one key in the statuses only if they are the same vote of the same process, for
-- processes with IDs of one length and vote IDs below 2 ^ 64.
pub status_key_injective :
    (p q : ProcessId) (v w : VoteId)
    → length p ≡ length q
    → v < 2 ^ 64
    → w < 2 ^ 64
    → status_key p v ≡ status_key q w
    → (p ≡ q) × (v ≡ w)
unfolding vote_id_bytes
status_key_injective p q v w l hv hw h =
    let split = take_prefix p q (vote_id_bytes v) (vote_id_bytes w) l h in
    (split.0, be_bytes_injective 8 v w hv hw split.1)

is_done_value-code : (code : ℕ) → code < 2 ^ 64 → bytes_to_int (int_to_bytes code) ≡ some code
is_done_value-code = bytes_to_int-int_to_bytes

settle-statuses :
    (e : Env) (p q : ProcessId) (v w : VoteId) (code : ℕ) (s : Store)
    → settle e q w (set_vote_id_status p v code s) ≡ settle e q w s
unfolding settle set_vote_id_status
settle-statuses e p q v w code s = refl

-- setVoteIDStatus, on a vote that is not done: VoteIDStatus then returns the status that was set,
-- where a vote set to done reads as settled when the state of its process contains it.
pub vote_id_status-set_vote_id_status :
    (e : Env) (p : ProcessId) (v : VoteId) (code : ℕ) (s : Store)
    → code < 2 ^ 64
    → is_done_value (lookup (status_key p v) s.statuses) ≡ false
    → vote_id_status e p v (set_vote_id_status p v code s)
      ≡ (if code == Code.done then settle e p v s else ok code)
unfolding vote_id_status set_vote_id_status write_status
vote_id_status-set_vote_id_status e p v code s small waits = ground (
  arith,
  lookup-insert (status_key p v) (status_key p v) (int_to_bytes code) s.statuses,
  key_eq_refl (status_key p v),
  is_done_value-code code small,
  settle-statuses e p p v v code s,
)

other_key :
    (p q : ProcessId) (v w : VoteId)
    → length p ≡ length q
    → v < 2 ^ 64
    → w < 2 ^ 64
    → ¬ ((p ≡ q) × (v ≡ w))
    → key_eq (status_key p v) (status_key q w) ≡ false
other_key p q v w l hv hw other = elim (Bool-cases (key_eq (status_key p v) (status_key q w))) [
  | inr differ ↦ differ
  | inl same ↦ absurd (
      other (
        status_key_injective p q v w l hv hw (eq_of_key_eq (status_key p v) (status_key q w) same)))
]

-- setVoteIDStatus of one vote leaves what VoteIDStatus returns for every other vote, of the same
-- process or of another with an ID of the same length.
pub vote_id_status-set_other :
    (e : Env) (p q : ProcessId) (v w : VoteId) (code : ℕ) (s : Store)
    → length p ≡ length q
    → v < 2 ^ 64
    → w < 2 ^ 64
    → ¬ ((p ≡ q) × (v ≡ w))
    → vote_id_status e q w (set_vote_id_status p v code s) ≡ vote_id_status e q w s
unfolding vote_id_status set_vote_id_status write_status
vote_id_status-set_other e p q v w code s l hv hw other = ground (
  arith,
  lookup-insert (status_key q w) (status_key p v) (int_to_bytes code) s.statuses,
  other_key p q v w l hv hw other,
  settle-statuses e p q v w code s,
)
