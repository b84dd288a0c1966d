-- ===== src/Storage/Batches/Handout.antt =====
-- NextAggregatorBatch hands out a batch that nobody holds, and holds it for the caller.
use davinci_node.Common.{ℕ, ◌≡◌, true, false, some, List, [], ◌∷◌, arith}
use davinci_node.Db.{Key, lookup}
use davinci_node.Db.Order.{IsOrdered}
use davinci_node.Storage.Types.{ProcessId, ok, Encoded, encoded, garbage, AggregatorBallotBatch}
use davinci_node.Storage.Store.{Env, Store, get_artifact}
use davinci_node.Storage.Reservations.{batch_queue, queue_prefix, is_reserved}
use davinci_node.Storage.Ballots.Reserved.{set_reservation-ok}
use davinci_node.Storage.Verified.Pulled.{hands_out_whole, entries, IsStored, entries-IsStored}
use davinci_node.Storage.Batches.{first_batch, in_cooldown, next_aggregator_batch}

first_batch-some :
    (now : ℕ) (s : Store) (es : List (Key × Encoded AggregatorBallotBatch)) (k : Key)
    (b : AggregatorBallotBatch)
    → IsStored es s.batches
    → first_batch now s es ≡ some (k, b)
    → (lookup k s.batches ≡ some (encoded b))
      × (is_reserved batch_queue k s ≡ false)
      × (in_cooldown now b ≡ false)
unfolding first_batch
first_batch-some now s [] k b st h = cc
first_batch-some now s ((j, garbage) ∷ es) k b st h = first_batch-some now s es k b st.1 h
first_batch-some now s ((j, encoded c) ∷ es) k b st h =
    ground (arith, st.0, first_batch-some now s es k b st.1)

-- NextAggregatorBatch, on batches in the order of their keys, of which the iteration hands out whole
-- keys up to the process ID that is put back: a batch that is handed out is the one stored under its key, was reserved
-- by nobody, is not in its cooldown, and is reserved afterwards.
pub next_aggregator_batch-held :
    (e : Env) (p : ProcessId) (s s' : Store) (b : AggregatorBallotBatch) (k : Key)
    → hands_out_whole e.strips (queue_prefix batch_queue) p s.batches ≡ true
    → IsOrdered s.batches
    → next_aggregator_batch e p s ≡ (s', ok (b, k))
    → (get_artifact k s.batches ≡ ok b)
      × (is_reserved batch_queue k s ≡ false)
      × (in_cooldown e.now b ≡ false)
      × (is_reserved batch_queue k s' ≡ true)
unfolding next_aggregator_batch get_artifact
next_aggregator_batch-held e p s s' b k whole o h =
    let stored = entries-IsStored e.strips (queue_prefix batch_queue) p s.batches whole o in
    ground (
      arith,
      first_batch-some e.now s (entries e.strips (queue_prefix batch_queue) p s.batches) k b stored,
      set_reservation-ok e batch_queue k s tt,
    )
