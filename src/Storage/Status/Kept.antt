-- ===== src/Storage/Status/Kept.antt =====
-- What markProcessVoteIDsTimeout keeps: the order of the keys, the votes that are done, and that no key is
-- trimmed twice.
use davinci_node.Common.{
  ℕ, ◌+◌, ◌≡◌, refl, Bool, true, false, not, ◌&&◌, ◌||◌, some, List, [], ◌∷◌, ◌++◌, arith, drop,
  length, if◌then◌else◌, Bool-cases, Option-cases, none, inl, inr, Option,
}
use davinci_node.Word.Bytes.{int_to_bytes, bytes_to_int}
use davinci_node.Db.{
  Key, Table, lookup, insert, key_eq, key_lt, key_eq_refl, has_prefix, seen_key,
  append-drop_of_has_prefix, iterate, trim_prefix,
}
use davinci_node.Db.Order.{insert-IsOrdered, is_ordered, is_ordered-IsOrdered, IsOrdered-is_ordered}
use davinci_node.Storage.Types.{ProcessId, VoteId, process_id_len}
use davinci_node.Storage.Store.{Env, Store}
use davinci_node.Storage.Status.{
  status_prefix, is_done_value, status_key, write_timeouts, mark_process_vote_ids_timeout,
}
use davinci_node.Storage.Status.Timeouts.{
  is_open_value, hands_out_suffixes, write_timeouts-cons, write_timeouts-nil,
  mark_process_vote_ids_timeout-lookup, mark_process_vote_ids_timeout-missed,
}
use davinci_node.Storage.Status.Code

pub insert-is_ordered :
    (k : Key) (v : List ℕ) (m : Table (List ℕ))
    → is_ordered m ≡ true
    → is_ordered (insert k v m) ≡ true
insert-is_ordered k v m o =
    IsOrdered-is_ordered (insert k v m) (insert-IsOrdered k v m (is_ordered-IsOrdered m o))

-- The key has the bytes "vs/" behind the 31 bytes of the process ID.
unfoldable pub is_trimmed_again : Key → Bool
is_trimmed_again k = has_prefix status_prefix (drop process_id_len k)

unfoldable pub is_trimmed_once : Table (List ℕ) → Bool
unfolding is_trimmed_again
is_trimmed_once [] = true
is_trimmed_once ((k, v) ∷ m) = not (is_trimmed_again k) && is_trimmed_once m

is_trimmed_once-if :
    (b : Bool) (x y : Table (List ℕ))
    → is_trimmed_once x ≡ true
    → is_trimmed_once y ≡ true
    → is_trimmed_once (if b then x else y) ≡ true
is_trimmed_once-if true x y hx hy = hx
is_trimmed_once-if false x y hx hy = hy

is_trimmed_once-cons :
    (k : Key) (v : List ℕ) (m : Table (List ℕ))
    → is_trimmed_again k ≡ false
    → is_trimmed_once m ≡ true
    → is_trimmed_once ((k, v) ∷ m) ≡ true
unfolding is_trimmed_once
is_trimmed_once-cons k v m low h = rw (low, h) refl

is_trimmed_once-parts :
    (k : Key) (v : List ℕ) (m : Table (List ℕ))
    → is_trimmed_once ((k, v) ∷ m) ≡ true
    → (is_trimmed_again k ≡ false) × (is_trimmed_once m ≡ true)
unfolding is_trimmed_once
is_trimmed_once-parts k v m h = elim (Bool-cases (is_trimmed_again k)) [
  | inl again ↦ ground (arith, again)
  | inr low ↦ (low, ground (arith, low))
]

is_trimmed_once-insert :
    (k : Key) (v : List ℕ) (m : Table (List ℕ))
    → is_trimmed_again k ≡ false
    → is_trimmed_once m ≡ true
    → is_trimmed_once (insert k v m) ≡ true
unfolding insert
is_trimmed_once-insert k v [] low h = is_trimmed_once-cons k v [] low h
is_trimmed_once-insert k v ((j, w) ∷ m) low h =
    let (low_j, rest) = is_trimmed_once-parts j w m h in
    is_trimmed_once-if (key_eq j k) ((k, v) ∷ m)
      (if key_lt k j then (k, v) ∷ (j, w) ∷ m else (j, w) ∷ insert k v m)
      (is_trimmed_once-cons k v m low rest)
      (is_trimmed_once-if (key_lt k j) ((k, v) ∷ (j, w) ∷ m) ((j, w) ∷ insert k v m)
        (is_trimmed_once-cons k v ((j, w) ∷ m) low h)
        (is_trimmed_once-cons j w (insert k v m) low_j (is_trimmed_once-insert k v m low rest)))

seen_key-suffix :
    (p k : Key)
    → length p ≡ process_id_len
    → has_prefix p k ≡ true
    → is_trimmed_again k ≡ false
    → p ++ seen_key true status_prefix p k ≡ k
unfolding seen_key trim_prefix is_trimmed_again
seen_key-suffix p k sized under low = ground (arith, sized, append-drop_of_has_prefix p k)

is_trimmed_once-hands_out :
    (p : ProcessId) (m : Table (List ℕ))
    → length p ≡ process_id_len
    → is_trimmed_once m ≡ true
    → hands_out_suffixes true p m ≡ true
unfolding is_trimmed_once hands_out_suffixes
is_trimmed_once-hands_out p [] sized h = refl
is_trimmed_once-hands_out p ((k, v) ∷ m) sized h =
    ground (arith, is_trimmed_once-hands_out p m sized, seen_key-suffix p k sized, key_eq_refl k)

write_timeouts-ordered :
    (p : ProcessId) (es : List (Key × List ℕ)) (m : Table (List ℕ)) (count : ℕ)
    → is_ordered m ≡ true
    → is_ordered (write_timeouts p es m count).0 ≡ true
write_timeouts-ordered p [] m count o = ground (arith, write_timeouts-nil p m count)
write_timeouts-ordered p ((k, bytes) ∷ es) m count o = ground (
  arith,
  write_timeouts-cons p k bytes es m count,
  write_timeouts-ordered p es m count,
  write_timeouts-ordered p es (insert (p ++ k) (int_to_bytes Code.timeout) m) (count + 1),
  insert-is_ordered (p ++ k) (int_to_bytes Code.timeout) m,
)

write_timeouts-trimmed :
    (p : ProcessId) (es m : Table (List ℕ)) (count : ℕ)
    → length p ≡ process_id_len
    → is_trimmed_once es ≡ true
    → is_trimmed_once m ≡ true
    → is_trimmed_once (write_timeouts p (iterate true status_prefix p es) m count).0 ≡ true
unfolding iterate is_trimmed_once
write_timeouts-trimmed p [] m count sized he hm = ground (arith, write_timeouts-nil p m count)
write_timeouts-trimmed p ((k, bytes) ∷ es) m count sized he hm =
    let seen = seen_key true status_prefix p k in
    let marked = insert (p ++ seen) (int_to_bytes Code.timeout) m in
    ground (
      arith,
      write_timeouts-cons p seen bytes (iterate true status_prefix p es) m count,
      write_timeouts-trimmed p es m count sized,
      write_timeouts-trimmed p es marked (count + 1) sized,
      is_trimmed_once-insert (p ++ seen) (int_to_bytes Code.timeout) m,
      seen_key-suffix p k sized,
    )

-- Every status is handed out under a key from which its own key can be put together, where the iteration
-- strips its prefix.
abbrev pub comes_back : Bool → Table (List ℕ) → Bool
comes_back strips m = not strips || is_trimmed_once m

done_closed : (x : Option (List ℕ)) → is_done_value x ≡ true → is_open_value x ≡ false
unfolding is_done_value is_open_value
done_closed none h = ground arith
done_closed (some bytes) h = elim (Option-cases (bytes_to_int bytes)) [
  | inl unread ↦ ground (arith, unread)
  | inr (status, known) ↦ ground (arith, known)
]

-- A vote that is done does not time out.
pub mark_process_vote_ids_timeout-done :
    (e : Env) (p q : ProcessId) (v : VoteId) (s : Store)
    → length p ≡ process_id_len
    → length q ≡ process_id_len
    → is_ordered s.statuses ≡ true
    → comes_back e.strips s.statuses ≡ true
    → is_done_value (lookup (status_key q v) s.statuses) ≡ true
    → lookup (status_key q v) (mark_process_vote_ids_timeout e p s).0.statuses
      ≡ lookup (status_key q v) s.statuses
mark_process_vote_ids_timeout-done e p q v s sp sq o c h = elim (Bool-cases e.strips) [
  | inr whole ↦ mark_process_vote_ids_timeout-missed e p q v s whole sp sq
  | inl strips ↦
      let once : is_trimmed_once s.statuses ≡ true = ground (arith, strips, c) in
      let suffixes : hands_out_suffixes e.strips p s.statuses ≡ true =
        rw strips (is_trimmed_once-hands_out p s.statuses sp once) in
      let after =
        mark_process_vote_ids_timeout-lookup e p (status_key q v) s
          (is_ordered-IsOrdered s.statuses o) suffixes in
      let closed = done_closed (lookup (status_key q v) s.statuses) h in
      ground (arith, after, closed)
]

pub mark_process_vote_ids_timeout-ordered :
    (e : Env) (p : ProcessId) (s : Store)
    → is_ordered s.statuses ≡ true
    → is_ordered (mark_process_vote_ids_timeout e p s).0.statuses ≡ true
unfolding mark_process_vote_ids_timeout
mark_process_vote_ids_timeout-ordered e p s o =
    write_timeouts-ordered p (iterate e.strips status_prefix p s.statuses) s.statuses 0 o

pub mark_process_vote_ids_timeout-comes_back :
    (e : Env) (p : ProcessId) (s : Store)
    → length p ≡ process_id_len
    → comes_back e.strips s.statuses ≡ true
    → comes_back e.strips (mark_process_vote_ids_timeout e p s).0.statuses ≡ true
unfolding mark_process_vote_ids_timeout
mark_process_vote_ids_timeout-comes_back e p s sized c = elim (Bool-cases e.strips) [
  | inr whole ↦ rw whole refl
  | inl strips ↦
      let once : is_trimmed_once s.statuses ≡ true = ground (arith, strips, c) in
      let kept = write_timeouts-trimmed p s.statuses s.statuses 0 sized once once in rw strips kept
]
