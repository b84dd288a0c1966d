-- ===== src/Db/InMemory/Serial.antt =====
-- Optimistic concurrency: what a transaction whose commit succeeds has read is what the database held
-- when it started and what it holds at the commit.
use davinci_node.Common.{
  ℕ, ◌+◌, ◌^◌, ◌<◌, ◌≤◌, ◌≡◌, refl, ◌∙◌, false, Option, none, some, [], ◌∷◌, arith, if◌then◌else◌,
  Bool-cases, inl, inr, ◌⊎◌,
}
use davinci_node.Word.{add_int}
use davinci_node.Db.Keys.{Key, key_eq, eq_of_key_eq}
use davinci_node.Db.Tables.{Table, lookup, lookup-insert, lookup-insert_self}
use davinci_node.Db.InMemory.{
  Value, InMemoryDb, WriteTx, write_tx, get_value, written_entry, current_version, apply_write,
  record_read, get_tx, committed_ok, has_conflict, commit_tx,
}

-- The database changes only by writes of commits; the versions do not wrap around.
pub data Evolves (d : InMemoryDb) : InMemoryDb → Type 0 where
  same : Evolves d d
  wrote :
      {e : InMemoryDb} (k : Key) (w : Option Value)
      → Evolves d e
      → e.next_version + 1 < 2 ^ 64
      → Evolves d (apply_write k w e)

pub Evolves-trans : {a b c : InMemoryDb} → Evolves a b → Evolves b c → Evolves a c
Evolves-trans p same = p
Evolves-trans p (wrote k w q small) = wrote k w (Evolves-trans p q) small

current_version-apply_write :
    (j k : Key) (w : Option Value) (d : InMemoryDb)
    → current_version j (apply_write k w d)
      ≡ (if key_eq k j then add_int d.next_version 1 else current_version j d)
unfolding current_version apply_write
current_version-apply_write j k none d =
    ground (arith, lookup-insert j k (written_entry none (add_int d.next_version 1)) d.entries)
current_version-apply_write j k (some v) d =
    ground (arith, lookup-insert j k (written_entry (some v) (add_int d.next_version 1)) d.entries)

lookup-apply_write :
    (j k : Key) (w : Option Value) (d : InMemoryDb)
    → key_eq k j ≡ false
    → lookup j (apply_write k w d).entries ≡ lookup j d.entries
unfolding apply_write
lookup-apply_write j k w d other =
    ground (arith, other, lookup-insert j k (written_entry w (add_int d.next_version 1)) d.entries)

next_version-apply_write :
    (k : Key) (w : Option Value) (d : InMemoryDb)
    → (apply_write k w d).next_version ≡ add_int d.next_version 1
unfolding apply_write
next_version-apply_write k w d = refl

Evolves-le : {d e : InMemoryDb} → Evolves d e → d.next_version ≤ e.next_version
Evolves-le same = omega arith
Evolves-le (wrote {e = e} k w p small) =
    ground (arith, Evolves-le p, next_version-apply_write k w e, small)

-- An entry whose version is not from after d is the one that d had.
Evolves-unchanged :
    {d e : InMemoryDb} (j : Key)
    → Evolves d e
    → (lookup j e.entries ≡ lookup j d.entries) ⊎ (d.next_version < current_version j e)
Evolves-unchanged j same = inl refl
Evolves-unchanged j (wrote {e = e} k w p small) = elim (Bool-cases (key_eq k j)) [
  | inl written ↦
      inr (ground (arith, current_version-apply_write j k w e, written, Evolves-le p, small))
  | inr other ↦ elim (Evolves-unchanged j p) [
    | inl old ↦ inl (lookup-apply_write j k w e other ∙ old)
    | inr newer ↦ inr (ground (arith, current_version-apply_write j k w e, other, newer))
  ]
]

-- A table of reads that passed the check of a commit: each key has the version that was read, which
-- was there at the start.
has_conflict-clear :
    (j : Key) (version base : ℕ) (reads : Table ℕ) (d : InMemoryDb)
    → has_conflict base reads d ≡ false
    → lookup j reads ≡ some version
    → (current_version j d ≡ version) × (version ≤ base)
unfolding has_conflict lookup
has_conflict-clear j version base [] d clear found = cc
has_conflict-clear j version base ((k, v) ∷ reads) d clear found =
    ground (arith, has_conflict-clear j version base reads d, eq_of_key_eq k j)

commit_tx-clear :
    (tx : WriteTx) (d : InMemoryDb)
    → (commit_tx tx d).1 ≡ committed_ok
    → has_conflict tx.base_ver tx.reads d ≡ false
unfolding commit_tx
commit_tx-clear tx d ok = ground arith

-- A transaction that started on d, and commits on e with success after any other commits in between:
-- every key whose version it has recorded, by a Get, an Iterate, a Set or a Delete at whatever time, held
-- at the start what it holds at the commit.
pub commit_tx-serial :
    {d e : InMemoryDb} (k : Key) (version : ℕ) (tx : WriteTx)
    → Evolves d e
    → tx.base_ver ≡ (write_tx d).base_ver
    → lookup k tx.reads ≡ some version
    → (commit_tx tx e).1 ≡ committed_ok
    → get_value k e ≡ get_value k d
unfolding get_value write_tx
commit_tx-serial {d} {e} k version tx evolves base read ok =
    let check =
      has_conflict-clear k version tx.base_ver tx.reads e (commit_tx-clear tx e ok) read in
    elim (Evolves-unchanged k evolves) [
      | inl same_entry ↦ rw same_entry
      | inr newer ↦ absurd (omega (arith, check, newer, base))
    ]

record_read-lookup :
    (k : Key) (version : ℕ) (tx : WriteTx)
    → lookup k tx.reads ≡ none
    → lookup k (record_read k version tx).reads ≡ some version
unfolding record_read
record_read-lookup k version tx fresh = ground (arith, fresh, lookup-insert_self k version tx.reads)

-- A transaction that started on d reads a key for the first time on f, and commits on e with success,
-- whatever was committed between d, f and e: the value that it was given is the one that the database
-- holds at the commit, and the one that it held at the start.
pub get_tx-serial :
    {d f e : InMemoryDb} (k : Key) (tx tx' : WriteTx)
    → Evolves d f
    → Evolves f e
    → tx'.base_ver ≡ (write_tx d).base_ver
    → lookup k tx.writes ≡ none
    → lookup k tx.reads ≡ none
    → lookup k tx'.reads ≡ lookup k (get_tx k tx f).0.reads
    → (commit_tx tx' e).1 ≡ committed_ok
    → ((get_tx k tx f).1 ≡ get_value k e) × ((get_tx k tx f).1 ≡ get_value k d)
unfolding get_value write_tx get_tx
get_tx-serial {d} {f} {e} k tx tx' before after base unwritten fresh kept ok =
    let recorded = record_read-lookup k (current_version k f) tx fresh in
    let read : lookup k tx'.reads ≡ some (current_version k f) =
      ground (arith, kept, unwritten, recorded) in
    let check =
      has_conflict-clear k (current_version k f) tx'.base_ver tx'.reads e (commit_tx-clear tx' e ok)
        read in
    let whole =
      commit_tx-serial k (current_version k f) tx' (Evolves-trans before after) base read ok in
    elim (Evolves-unchanged k before) [
      | inl same_entry ↦
          (ground (arith, unwritten, same_entry, whole), ground (arith, unwritten, same_entry))
      | inr newer ↦ absurd (omega (arith, check, newer, base))
    ]
