-- ===== src/Queue/Represents.antt =====
-- When a ring buffer holds a list of messages, oldest first.
use boltq.Prelude.{ℕ, ◌+◌, ◌-◌, ◌%◌, ◌^◌, ◌≤◌, ◌<◌, ◌≡◌, none, List, length, get_or, get_elem?}
use boltq.Prelude.Words.{u64}
use boltq.Protocol.{Message}
use boltq.Queue.{Queue}

-- The ring has 2^k slots; the slot `i` places after the tail has the `i`-th message, and the slots
-- past the last message are empty.
pub record Represents (k : ℕ) (q : Queue) (xs : List Message) : Type 0 where
  pub width : k ≤ 64
  pub slots_total : length q.buf ≡ 2 ^ k
  pub mask_ones : q.mask ≡ 2 ^ k - 1
  pub sized : q.size ≡ length xs
  pub fits : length xs ≤ 2 ^ k
  pub head_follows : q.head ≡ (q.tail + q.size) % u64
  pub slots : (i : ℕ) → i < 2 ^ k → get_or q.buf ((q.tail + i) % 2 ^ k) none ≡ get_elem? xs i
