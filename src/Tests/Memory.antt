-- ===== src/Tests/Memory.antt =====
-- A transaction of the in-memory database that reads one key and writes another, with a commit of
-- somebody else in between.
use davinci_node.Common.{ℕ, ◌≡◌, ◌≢◌, ◌⊎◌, refl, some, none, [], ◌∷◌, arith}
use davinci_node.Db.{Key, lookup, key_eq, key_lt, insert}
use davinci_node.Db.Order.{IsOrdered}
use davinci_node.Db.InMemory.{
  InMemoryDb, WriteTx, new_db, write_tx, get_value, apply_write, get_tx, put_tx, committed_ok,
  commit_tx,
}
use davinci_node.Db.InMemory.Effects.{commit_tx-refines}
use davinci_node.Db.InMemory.Serial.{Evolves, same, wrote, get_tx-serial}

abbrev key : ℕ → Key
key n = n ∷ []

-- The database holds 10 under 1; somebody writes 20 under 2 later.
abbrev before : InMemoryDb
before = apply_write (key 1) (some (10 ∷ [])) new_db

abbrev after : InMemoryDb
after = apply_write (key 2) (some (20 ∷ [])) before

abbrev reading : WriteTx
reading = (get_tx (key 1) (write_tx before) before).0

abbrev writing : WriteTx
writing = put_tx (key 3) (some (30 ∷ [])) reading before

writes-IsOrdered : IsOrdered writing.writes
unfolding put_tx get_tx write_tx apply_write insert lookup key_eq key_lt
writes-IsOrdered = (tt, tt)

commit_tx-refines_example :
    (((commit_tx writing after).1 ≡ committed_ok)
      × ((k : Key) → get_value k (commit_tx writing after).0.1 ≡ (get_tx k writing after).1))
    ⊎ (((commit_tx writing after).1 ≢ committed_ok) × ((commit_tx writing after).0.1 ≡ after))
commit_tx-refines_example = commit_tx-refines writing after writes-IsOrdered

evolves : Evolves before after
unfolding apply_write
evolves = wrote (key 2) (some (20 ∷ [])) same (omega arith)

kept_base : writing.base_ver ≡ (write_tx before).base_ver
unfolding put_tx get_tx write_tx apply_write insert lookup key_eq key_lt
kept_base = refl

kept_read : lookup (key 1) writing.reads ≡ lookup (key 1) reading.reads
unfolding put_tx get_tx write_tx apply_write insert lookup key_eq key_lt
kept_read = refl

unread : lookup (key 1) (write_tx before).reads ≡ none
unfolding write_tx lookup
unread = refl

unwritten : lookup (key 1) (write_tx before).writes ≡ none
unfolding write_tx lookup
unwritten = refl

commits : (commit_tx writing after).1 ≡ committed_ok
unfolding commit_tx put_tx get_tx write_tx apply_write insert lookup key_eq key_lt
commits = refl

get_tx-serial_example :
    ((get_tx (key 1) (write_tx before) before).1 ≡ get_value (key 1) after)
    × ((get_tx (key 1) (write_tx before) before).1 ≡ get_value (key 1) before)
get_tx-serial_example =
    get_tx-serial (key 1) (write_tx before) writing same evolves kept_base unwritten unread
      kept_read commits
