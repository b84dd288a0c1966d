-- ===== src/Db/InMemory.antt =====
-- The in-memory database and its optimistic transactions (db/inmemory/inmemory.go). The versions are
-- uint64, with their wrap-around. A write of nil, which deletes, is `none`.
pub mod Effects
pub mod Serial
use davinci_node.Common.{
  ℕ, ◌+◌, ◌^◌, ◌≡◌, Bool, true, false, ◌||◌, not, Option, none, some, List, [], ◌∷◌, ltb, ◌==◌,
  if◌then◌else◌,
}
use davinci_node.Word.{add_int}
use davinci_node.Db.Keys.{Key, has_prefix}
use davinci_node.Db.Tables.{Table, lookup, insert, delete}

abbrev pub Value : Type 0
Value = List ℕ

pub record Entry : Type 0 where
  pub value : Value
  pub version : ℕ
  pub deleted : Bool

-- `entries` is the source's `data`.
pub record InMemoryDb : Type 0 where
  pub entries : Table Entry
  pub next_version : ℕ

pub record WriteTx : Type 0 where
  pub writes : Table (Option Value)
  pub reads : Table ℕ
  pub base_ver : ℕ
  pub committed : Bool
  pub discarded : Bool

-- New
abbrev pub new_db : InMemoryDb
new_db = record { entries = []; next_version = 0 }

-- InMemoryDB.WriteTx
unfoldable pub write_tx : InMemoryDb → WriteTx
write_tx d = record {
  writes = [];
  reads = [];
  base_ver = d.next_version;
  committed = false;
  discarded = false;
}

-- What an entry holds: nothing if it is missing or deleted.
abbrev pub live : Option Entry → Option Value
live none = none
live (some e) = if e.deleted then none else some e.value

-- InMemoryDB.Get; none is ErrKeyNotFound.
unfoldable pub get_value : Key → InMemoryDb → Option Value
get_value k d = live (lookup k d.entries)

-- The live entries with a prefix, and their versions.
unfoldable pub live_entries : Key → Table Entry → Table Value
live_entries prefix [] = []
live_entries prefix ((k, e) ∷ m) =
    let rest = live_entries prefix m in
    if e.deleted then rest else if has_prefix prefix k then (k, e.value) ∷ rest else rest

unfoldable pub live_versions : Key → Table Entry → Table ℕ
live_versions prefix [] = []
live_versions prefix ((k, e) ∷ m) =
    let rest = live_versions prefix m in
    if e.deleted then rest else if has_prefix prefix k then (k, e.version) ∷ rest else rest

-- iterateEntries: the entries for which the callback is called.
unfoldable pub visited : (Key → Value → Bool) → Table Value → Table Value
visited callback [] = []
visited callback ((k, v) ∷ m) =
    let rest = visited callback m in if callback k v then (k, v) ∷ rest else (k, v) ∷ []

-- InMemoryDB.Iterate
unfoldable pub iterate_db : Key → (Key → Value → Bool) → InMemoryDb → Table Value
unfolding live_entries visited
iterate_db prefix callback d = visited callback (live_entries prefix d.entries)

-- currentVersion
unfoldable pub current_version : Key → InMemoryDb → ℕ
current_version k d = elim (lookup k d.entries) [ none ↦ 0 | some e ↦ e.version ]

abbrev pub written_entry : Option Value → ℕ → Entry
written_entry none version = record { value = []; version = version; deleted = true }
written_entry (some v) version = record { value = v; version = version; deleted = false }

-- applyWrite
unfoldable pub apply_write : Key → Option Value → InMemoryDb → InMemoryDb
apply_write k w d =
    let version = add_int d.next_version 1 in
    record { entries = insert k (written_entry w version) d.entries; next_version = version }

-- recordRead
unfoldable pub record_read : Key → ℕ → WriteTx → WriteTx
record_read k version tx = elim (lookup k tx.reads) [
  | none ↦ record tx { reads = insert k version tx.reads }
  | some v ↦ tx
]

-- WriteTx.Get
unfoldable pub get_tx : Key → WriteTx → InMemoryDb → WriteTx × Option Value
unfolding record_read current_version get_value
get_tx k tx d = elim (lookup k tx.writes) [
  | some w ↦ (tx, w)
  | none ↦ (record_read k (current_version k d) tx, get_value k d)
]

-- The writes of the transaction over what the database holds.
unfoldable pub overlay : Key → Table (Option Value) → Table Value → Table Value
overlay prefix [] m = m
overlay prefix ((k, w) ∷ ws) m =
    overlay prefix ws
      (if has_prefix prefix k then elim w [ none ↦ delete k m | some v ↦ insert k v m ] else m)

unfoldable pub record_reads : Table ℕ → WriteTx → WriteTx
unfolding record_read
record_reads [] tx = tx
record_reads ((k, version) ∷ rest) tx = record_reads rest (record_read k version tx)

-- WriteTx.Iterate
unfoldable pub iterate_tx :
    Key → (Key → Value → Bool) → WriteTx → InMemoryDb → WriteTx × Table Value
unfolding overlay record_reads live_entries live_versions visited
iterate_tx prefix callback tx d = (
  record_reads (live_versions prefix d.entries) tx,
  visited callback (overlay prefix tx.writes (live_entries prefix d.entries)),
)

-- WriteTx.Set and WriteTx.Delete: a write of some value, or none.
unfoldable pub put_tx : Key → Option Value → WriteTx → InMemoryDb → WriteTx
unfolding record_read current_version
put_tx k w tx d =
    let tx' = record_read k (current_version k d) tx in record tx' { writes = insert k w tx.writes }

-- WriteTx.Apply, with what the other transaction's Iterate hands out.
unfoldable pub apply_tx : Table Value → WriteTx → InMemoryDb → WriteTx
unfolding put_tx
apply_tx [] tx d = tx
apply_tx ((k, v) ∷ rest) tx d = apply_tx rest (put_tx k (some v) tx d) d

pub data CommitResult : Type 0 where
  committed_ok already_finished conflict : CommitResult

-- Whether some key that was read has another version now, or had one from after the start.
unfoldable pub has_conflict : ℕ → Table ℕ → InMemoryDb → Bool
unfolding current_version
has_conflict base [] d = false
has_conflict base ((k, version) ∷ rest) d =
    let others = has_conflict base rest d in
    if ltb base version || not (current_version k d == version) then true else others

unfoldable pub apply_writes : Table (Option Value) → InMemoryDb → InMemoryDb
unfolding apply_write
apply_writes [] d = d
apply_writes ((k, w) ∷ rest) d = apply_writes rest (apply_write k w d)

-- Commit
unfoldable pub commit_tx : WriteTx → InMemoryDb → (WriteTx × InMemoryDb) × CommitResult
unfolding has_conflict apply_writes
commit_tx tx d =
    if tx.committed || tx.discarded
    then ((tx, d), already_finished)
    else if has_conflict tx.base_ver tx.reads d
    then ((tx, d), conflict)
    else ((record tx { committed = true }, apply_writes tx.writes d), committed_ok)

-- Discard
unfoldable pub discard_tx : WriteTx → WriteTx
discard_tx tx = record tx { writes = []; reads = []; discarded = true }
