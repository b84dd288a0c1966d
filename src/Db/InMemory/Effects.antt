-- ===== src/Db/InMemory/Effects.antt =====
-- What a transaction shows and what its commit leaves, key by key.
use davinci_node.Common.{
  ◌≡◌, refl, Option, none, some, [], ◌∷◌, arith, if◌then◌else◌, Bool-cases, inl, inr, ◌⊎◌, ◌≢◌,
  ◌||◌,
}
use davinci_node.Word.{add_int}
use davinci_node.Db.Keys.{Key, key_eq, eq_of_key_eq}
use davinci_node.Db.Tables.{Table, lookup, lookup-insert}
use davinci_node.Db.Order.{IsOrdered, lookup_below}
use davinci_node.Db.InMemory.{
  Value, InMemoryDb, WriteTx, get_value, written_entry, apply_write, get_tx, committed_ok,
  apply_writes, commit_tx, has_conflict,
}

-- A table of writes seen over a value.
abbrev pub written_over : Option (Option Value) → Option Value → Option Value
written_over none old = old
written_over (some w) old = w

get_value-apply_write :
    (j k : Key) (w : Option Value) (d : InMemoryDb)
    → get_value j (apply_write k w d) ≡ (if key_eq k j then w else get_value j d)
unfolding get_value apply_write
get_value-apply_write j k none d =
    ground (arith, lookup-insert j k (written_entry none (add_int d.next_version 1)) d.entries)
get_value-apply_write j k (some v) d =
    ground (arith, lookup-insert j k (written_entry (some v) (add_int d.next_version 1)) d.entries)

get_value-apply_writes :
    (j : Key) (ws : Table (Option Value)) (d : InMemoryDb)
    → IsOrdered ws
    → get_value j (apply_writes ws d) ≡ written_over (lookup j ws) (get_value j d)
unfolding apply_writes lookup
get_value-apply_writes j [] d o = refl
get_value-apply_writes j ((k, w) ∷ ws) d o = ground (
  arith,
  get_value-apply_writes j ws (apply_write k w d) o.1,
  get_value-apply_write j k w d,
  lookup_below k ws o.0,
  eq_of_key_eq k j,
)

-- A commit that succeeds leaves under every key what the transaction's own Get showed there on the
-- database of the commit, for a transaction whose writes are in the order of their keys; a commit that
-- fails, by a conflict or as a second one, leaves the database as it was.
pub commit_tx-refines :
    (tx : WriteTx) (d : InMemoryDb)
    → IsOrdered tx.writes
    → let x = commit_tx tx d in
      ((x.1 ≡ committed_ok) × ((k : Key) → get_value k x.0.1 ≡ (get_tx k tx d).1))
      ⊎ ((x.1 ≢ committed_ok) × (x.0.1 ≡ d))
unfolding commit_tx get_tx
commit_tx-refines tx d o = elim (Bool-cases (tx.committed || tx.discarded)) [
  | inl finished ↦ rw (commit_tx, finished) (inr (λ e. cc e, refl))
  | inr open_tx ↦ elim (Bool-cases (has_conflict tx.base_ver tx.reads d)) [
    | inl clash ↦ rw (commit_tx, open_tx, clash) (inr (λ e. cc e, refl))
    | inr clear ↦
        rw (commit_tx, open_tx, clear)
          (inl (refl, λ k. ground (arith, get_value-apply_writes k tx.writes d o)))
  ]
]
