-- ===== src/Storage/Status/Code.antt =====
-- The codes VoteIDStatusPending to VoteIDStatusSettled of storage/vote_id_status.go.
use davinci_node.Common.{ℕ}

abbrev pub pending : ℕ
pending = 0

abbrev pub verified : ℕ
verified = 1

abbrev pub aggregated : ℕ
aggregated = 2

abbrev pub processed : ℕ
processed = 3

abbrev pub done : ℕ
done = 4

abbrev pub error : ℕ
error = 5

abbrev pub timeout : ℕ
timeout = 6

abbrev pub settled : ℕ
settled = 7
