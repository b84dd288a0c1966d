-- ===== src/Storage/Results/Drained.antt =====
-- HasVerifiedResults after a push and after MarkVerifiedResultsDone, and the publication of the results
-- one after the other.
use davinci_node.Common.{List, true, false, [], ◌∷◌, arith, if◌then◌else◌, refl, ◌≡◌}
use davinci_node.Db.{
  Table, delete, key_eq, key_eq_refl, lookup-insert, lookup-delete, delete_absent,
}
use davinci_node.Db.Order.{IsOrdered, lookup_below}
use davinci_node.Storage.Types.{
  ProcessId, VerifiedResults, Encoded, encoded, ok, err, no_more_elements,
}
use davinci_node.Storage.Store.{Store}
use davinci_node.Storage.Results.{
  push_verified_results, next_verified_results, mark_verified_results_done, has_verified_results,
  decoded,
}

-- After a push that succeeds, HasVerifiedResults says yes for that process and answers as before for
-- the others; MarkVerifiedResultsDone takes the yes back, for that process only.
push_verified_results-has :
    (r : VerifiedResults) (s : Store) (p : ProcessId)
    → (push_verified_results r s).1 ≡ ok tt
    → (has_verified_results p (push_verified_results r s).0
        ≡ (if key_eq r.process_id p then true else has_verified_results p s))
      × (has_verified_results p (mark_verified_results_done r.process_id s)
          ≡ (if key_eq r.process_id p then false else has_verified_results p s))
unfolding push_verified_results has_verified_results mark_verified_results_done
push_verified_results-has r s p h = ground (
  arith,
  lookup-insert p r.process_id (encoded r) s.verified_results,
  lookup-delete p r.process_id s.verified_results,
)

-- The queue that holds these results, each under its own process.
abbrev pub entries_of : List VerifiedResults → Table (Encoded VerifiedResults)
entries_of [] = []
entries_of (r ∷ rs) = (r.process_id, encoded r) ∷ entries_of rs

-- Calls of NextVerifiedResults, each followed by MarkVerifiedResultsDone of what it returned, until there
-- is none: the results in their order, and the storage at the end.
pub data Publishes : Store → List VerifiedResults → Store → Type 0 where
  none_left : {s : Store} → next_verified_results s ≡ err no_more_elements → Publishes s [] s
  published :
      {s s' : Store} {r : VerifiedResults} {rs : List VerifiedResults}
      → next_verified_results s ≡ ok r
      → Publishes (mark_verified_results_done r.process_id s) rs s'
      → Publishes s (r ∷ rs) s'

next_first :
    (r : VerifiedResults) (rs : List VerifiedResults) (s : Store)
    → s.verified_results ≡ entries_of (r ∷ rs)
    → next_verified_results s ≡ ok r
unfolding next_verified_results decoded
next_first r rs s held = rw held refl

done_first :
    (r : VerifiedResults) (rs : List VerifiedResults) (s : Store)
    → s.verified_results ≡ entries_of (r ∷ rs)
    → IsOrdered (entries_of (r ∷ rs))
    → delete r.process_id s.verified_results ≡ entries_of rs
unfolding delete
done_first r rs s held ordered = ground (
  arith,
  held,
  key_eq_refl r.process_id,
  lookup_below r.process_id (entries_of rs) ordered.0,
  delete_absent r.process_id (entries_of rs),
)

ends_empty :
    (s : Store) (m : Table (Encoded VerifiedResults))
    → m ≡ []
    → Publishes (record s { verified_results = m }) [] (record s { verified_results = [] })
unfolding next_verified_results
ends_empty s m empty = rw empty (none_left refl)

-- On a queue that holds some results, each under its own process and in the order of their processes:
-- NextVerifiedResults and MarkVerifiedResultsDone in turn hand out exactly these results, each once and in
-- this order, and end with an empty queue, everything else in the storage being as before.
pub verified_results-drained :
    (rs : List VerifiedResults) (s : Store)
    → s.verified_results ≡ entries_of rs
    → IsOrdered (entries_of rs)
    → Publishes s rs (record s { verified_results = [] })
unfolding next_verified_results mark_verified_results_done
verified_results-drained [] s held ordered = ends_empty s s.verified_results held
verified_results-drained (r ∷ rs) s held ordered = published (next_first r rs s held) (
    verified_results-drained rs (mark_verified_results_done r.process_id s)
      (done_first r rs s held ordered) ordered.1)
