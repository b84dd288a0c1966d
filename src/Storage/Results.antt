-- ===== src/Storage/Results.antt =====
-- The verified results, which wait for their publication (storage/results.go). EncodeArtifact never gives
-- the empty value, so that the first entry of the iteration is the one that is chosen.
pub mod Drained
use davinci_node.Common.{Bool, true, false, none, some, [], ◌∷◌}
use davinci_node.Db.{lookup, insert, delete}
use davinci_node.Storage.Types.{
  ProcessId, VerifiedResults, Encoded, encoded, garbage, Result, ok, err, key_already_exists,
  no_more_elements, decode_failed,
}
use davinci_node.Storage.Store.{Store}

-- PushVerifiedResults
unfoldable pub push_verified_results : VerifiedResults → Store → Store × Result (Unit {0})
push_verified_results r s = elim (lookup r.process_id s.verified_results) [
  | some stored ↦ (s, err key_already_exists)
  | none ↦
      (record s { verified_results = insert r.process_id (encoded r) s.verified_results }, ok tt)
]

unfoldable pub decoded : Encoded VerifiedResults → Result VerifiedResults
decoded (encoded r) = ok r
decoded garbage = err decode_failed

-- NextVerifiedResults
unfoldable pub next_verified_results : Store → Result VerifiedResults
unfolding decoded
next_verified_results s = elim s.verified_results [
  | [] ↦ err no_more_elements
  | (entry ∷ rest) ↦ decoded entry.1
]

-- MarkVerifiedResultsDone, where a missing key is no error.
unfoldable pub mark_verified_results_done : ProcessId → Store → Store
mark_verified_results_done p s = record s { verified_results = delete p s.verified_results }

-- HasVerifiedResults
unfoldable pub has_verified_results : ProcessId → Store → Bool
has_verified_results p s = elim (lookup p s.verified_results) [ none ↦ false | some stored ↦ true ]
