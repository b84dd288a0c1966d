-- ===== src/Storage/Batches/Cooldown.antt =====
-- The cooldown of a batch that failed (NextAggregatorBatch).
use davinci_node.Common.{ℕ, ◌+◌, ◌≤◌, ◌≡◌, false, some, arith}
use davinci_node.Word.{is_neg}
use davinci_node.Storage.Types.{AggregatorBallotBatch}
use davinci_node.Storage.Batches.{cooldown_seconds, in_cooldown}

cooldown_seconds-bound : (n : ℕ) → is_neg (cooldown_seconds n) ≡ false → cooldown_seconds n ≤ 300
unfolding cooldown_seconds
cooldown_seconds-bound n h = ground arith

-- However often a batch failed, NextAggregatorBatch holds it back for five minutes at most.
pub in_cooldown-ends :
    (now last : ℕ) (b : AggregatorBallotBatch)
    → b.last_attempt_time ≡ some last
    → last + 300 ≤ now
    → in_cooldown now b ≡ false
unfolding in_cooldown
in_cooldown-ends now last b known late = ground (arith, cooldown_seconds-bound b.attempts)
