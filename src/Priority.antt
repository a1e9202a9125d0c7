-- ===== src/Priority.antt =====
-- The priority queue (internal/queue/priority_queue.go): ten ring buffers, one for each level. The
-- loops over the levels are recursions on the list of levels, whose head is the lowest level left.
pub mod Order
pub mod Insert
pub mod Whole
pub mod Examples
use boltq.Prelude.{
  ℕ, zero, suc, ◌+◌, ◌-◌, ◌<◌, Bool, true, false, Option, none, some, List, [], ◌∷◌, ◌++◌, ltb, leb,
  ◌==◌, if◌then◌else◌, GoString, length,
}
use boltq.Prelude.Int.{ℤ, pos, negsuc}
use boltq.Protocol.{Message}
use boltq.Queue
use boltq.Queue.{Queue}

abbrev pub num_priority_levels : ℕ
num_priority_levels = 10

pub record PriorityQueue : Type 0 where
  pub qname : GoString
  pub levels : List Queue
  pub size : ℕ
  pub closed : Bool

new_levels : ℕ → ℕ → (ℕ → GoString) → ℕ → List Queue
new_levels zero i level_name cap = []
new_levels (suc n) i level_name cap =
    Queue.new (level_name i) cap ∷ new_levels n (i + 1) level_name cap

-- `level_name i` is fmt.Sprintf("%s_p%d", name, i).
pub new_priority : GoString → (ℕ → GoString) → ℕ → PriorityQueue
unfolding new_levels
new_priority name level_name capacity_per_level = record {
  qname = name;
  levels = new_levels num_priority_levels 0 level_name capacity_per_level;
  size = 0;
  closed = false;
}

unfoldable pub clamp_priority : ℤ → ℕ
clamp_priority (negsuc n) = 0
clamp_priority (pos n) = if leb num_priority_levels n then num_priority_levels - 1 else n

-- `levels[i]` of an array always has an element; `none` stands for the panic past its end.
push_level : Message → ℕ → List Queue → Option (Bool × List Queue)
push_level msg i [] = none
push_level msg zero (q ∷ qs) = let (done, q') = Queue.push_internal q msg in some (done, q' ∷ qs)
push_level msg (suc i) (q ∷ qs) = elim (push_level msg i qs) [
  | none ↦ none
  | some (done, qs') ↦ some (done, q ∷ qs')
]

pub push : PriorityQueue → Message → Option (Bool × PriorityQueue)
push pq msg = elim (push_level msg (clamp_priority msg.priority) pq.levels) [
  | none ↦ none
  | some (done, levels') ↦ some (
      if done
      then (true, record pq { levels = levels'; size = pq.size + 1 })
      else (false, record pq { levels = levels' }))
]

-- The turn of the loop for one level, after the levels above it gave `above`.
pop_level : Queue → Option Message × List Queue → Option Message × List Queue
pop_level q (some msg, qs) = (some msg, q ∷ qs)
pop_level q (none, qs) =
    if ltb 0 q.size
    then (let (msg, q') = Queue.try_pop_internal q in (msg, q' ∷ qs))
    else (none, q ∷ qs)

-- for pri := NumPriorityLevels - 1; pri >= 0; pri--
unfoldable pub pop_levels : List Queue → Option Message × List Queue
unfolding pop_level
pop_levels [] = (none, [])
pop_levels (q ∷ qs) = pop_level q (pop_levels qs)

-- atomic.AddInt64(&pq.size, -1), where a message came
settle : PriorityQueue → Option Message × List Queue → Option Message × PriorityQueue
settle pq (none, levels') = (none, record pq { levels = levels' })
settle pq (some msg, levels') = (some msg, record pq { levels = levels'; size = pq.size - 1 })

pop_highest : PriorityQueue → Option Message × PriorityQueue
unfolding settle
pop_highest pq = settle pq (pop_levels pq.levels)

pub try_pop : PriorityQueue → Option Message × PriorityQueue
unfolding pop_highest
try_pop pq = if pq.size == 0 then (none, pq) else pop_highest pq

-- One turn of the loop of `Pop`.
pub data PriorityTurn : Type 0 where
  waits : PriorityTurn
  returns : Option Message → PriorityQueue → PriorityTurn

pub pop : PriorityQueue → PriorityTurn
unfolding pop_highest
pop pq =
    if pq.size == 0
    then if pq.closed then PriorityTurn.returns none pq else PriorityTurn.waits
    else let (msg, pq') = pop_highest pq in PriorityTurn.returns msg pq'

levels_capacity : List Queue → ℕ
levels_capacity [] = 0
levels_capacity (q ∷ qs) = length q.buf + levels_capacity qs

pub capacity : PriorityQueue → ℕ
unfolding levels_capacity
capacity pq = levels_capacity pq.levels

all_full : List Queue → Bool
all_full [] = true
all_full (q ∷ qs) = if ltb q.size (length q.buf) then false else all_full qs

pub is_full : PriorityQueue → Bool
unfolding all_full
is_full pq = all_full pq.levels

-- A level is reset only if it holds something.
purge_levels : List Queue → ℕ × List Queue
purge_levels [] = (0, [])
purge_levels (q ∷ qs) =
    let (total, qs') = purge_levels qs in
    if ltb 0 q.size
    then (let (count, q') = Queue.purge q in (total + count, q' ∷ qs'))
    else (total, q ∷ qs')

pub purge : PriorityQueue → ℕ × PriorityQueue
unfolding purge_levels
purge pq =
    let (total, levels') = purge_levels pq.levels in
    (total, record pq { levels = levels'; size = 0 })

-- From the highest level to the lowest.
drain_levels : List Queue → List Message
drain_levels [] = []
drain_levels (q ∷ qs) = drain_levels qs ++ Queue.drain q

pub drain : PriorityQueue → List Message
unfolding drain_levels
drain pq = drain_levels pq.levels

levels_have : List Queue → GoString → Bool
levels_have [] id = false
levels_have (q ∷ qs) id = if Queue.has_message q id then true else levels_have qs id

pub has_message : PriorityQueue → GoString → Bool
unfolding levels_have
has_message pq id = levels_have pq.levels id

pub close : PriorityQueue → PriorityQueue
close pq = record pq { closed = true }
