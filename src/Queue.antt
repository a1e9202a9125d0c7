-- ===== src/Queue.antt =====
-- The ring buffer of the queue plane (internal/queue/queue.go). Each method holds the queue's
-- mutex throughout, so it is one step on the state.
pub mod Slots
pub mod Represents
pub mod Push
pub mod Take
pub mod Scan
pub mod Examples
use Prim.Native.Nat.{bit_and, bit_or}
use boltq.Prelude.{
  ℕ, zero, suc, ◌+◌, ◌-◌, ◌/◌, ◌%◌, ◌^◌, Bool, true, false, Option, none, some, List, [], ◌∷◌, leb,
  ◌==◌, if◌then◌else◌, GoString, str_eq, length, get_or, set, replicate,
}
use boltq.Prelude.Words.{u64}
use boltq.Protocol.{Message}

-- A nil entry of `buf` is `none`; `size` is never negative; `closed` is 1 or 0.
pub record Queue : Type 0 where
  pub name : GoString
  pub buf : List (Option Message)
  pub mask : ℕ
  pub head : ℕ
  pub tail : ℕ
  pub size : ℕ
  pub closed : Bool

-- x |= x >> s
smear : ℕ → ℕ → ℕ
smear s x = bit_or x (x / 2 ^ s)

-- A capacity below one is one.
unfoldable pub next_power_of_two : ℕ → ℕ
unfolding smear
next_power_of_two zero = 1
next_power_of_two (suc m) = smear 16 (smear 8 (smear 4 (smear 2 (smear 1 m)))) + 1

pub new : GoString → ℕ → Queue
new name capacity =
    let cap = next_power_of_two capacity in
    record {
      name = name;
      buf = replicate cap none;
      mask = cap - 1;
      head = 0;
      tail = 0;
      size = 0;
      closed = false;
    }

-- h.head++ on a uint64
abbrev pub next : ℕ → ℕ
next x = (x + 1) % u64

pub capacity : Queue → ℕ
capacity q = length q.buf

pub is_full : Queue → Bool
unfolding capacity
is_full q = leb (length q.buf) q.size

unfoldable pub push_internal : Queue → Message → Bool × Queue
push_internal q msg = if leb (length q.buf) q.size then (false, q) else (
  true,
  record q {
    buf = set q.buf (bit_and q.head q.mask) (some msg);
    head = next q.head;
    size = q.size + 1;
  },
)

-- `Push` is `pushInternal` under the lock, and wakes one waiting consumer.
unfoldable pub push : Queue → Message → Bool × Queue
unfolding push_internal
push q msg = push_internal q msg

take_slot : Queue → Option Message × Queue
take_slot q =
    let pos = bit_and q.tail q.mask in
    (
      get_or q.buf pos none,
      record q { buf = set q.buf pos none; tail = next q.tail; size = q.size - 1 },
    )

unfoldable pub try_pop_internal : Queue → Option Message × Queue
unfolding take_slot
try_pop_internal q = if q.size == 0 then (none, q) else take_slot q

unfoldable pub try_pop : Queue → Option Message × Queue
unfolding try_pop_internal
try_pop q = try_pop_internal q

-- One turn of the loop of `Pop`: it returns, or it waits for a signal with the state unchanged.
pub data Turn : Type 0 where
  waits : Turn
  returns : Option Message → Queue → Turn

pub pop : Queue → Turn
unfolding take_slot
pop q =
    if q.size == 0
    then if q.closed then returns none q else waits
    else let (msg, q') = take_slot q in returns msg q'

pub close : Queue → Queue
close q = record q { closed = true }

-- for i := 0; i < count; i++ { buf[(from+i) & mask] = nil }
unfoldable pub clear_slots : ℕ → ℕ → ℕ → List (Option Message) → List (Option Message)
clear_slots zero from mask buf = buf
clear_slots (suc n) from mask buf =
    clear_slots n (next from) mask (set buf (bit_and from mask) none)

pub purge : Queue → ℕ × Queue
unfolding clear_slots
purge q =
    (q.size, record q { buf = clear_slots q.size q.tail q.mask q.buf; tail = q.head; size = 0 })

-- if buf[pos] != nil { msgs = append(msgs, buf[pos]) }, before the later slots
abbrev found : Option Message → List Message → List Message
found none rest = rest
found (some msg) rest = msg ∷ rest

-- The messages in `n` slots from `from` on, oldest first; a nil slot is passed over.
unfoldable pub read_slots : ℕ → ℕ → ℕ → List (Option Message) → List Message
read_slots zero from mask buf = []
read_slots (suc n) from mask buf =
    found (get_or buf (bit_and from mask) none) (read_slots n (next from) mask buf)

pub drain : Queue → List Message
unfolding read_slots
drain q = read_slots q.size q.tail q.mask q.buf

-- A nil slot has no ID.
has_id : GoString → Option Message → Bool
has_id id none = false
has_id id (some msg) = str_eq msg.id id

unfoldable pub find_slot : GoString → ℕ → ℕ → ℕ → List (Option Message) → Bool
unfolding has_id
find_slot id zero from mask buf = false
find_slot id (suc n) from mask buf =
    let rest = find_slot id n (next from) mask buf in
    if has_id id (get_or buf (bit_and from mask) none) then true else rest

pub has_message : Queue → GoString → Bool
unfolding find_slot
has_message q id = find_slot id q.size q.tail q.mask q.buf
