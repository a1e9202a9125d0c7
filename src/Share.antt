-- ===== src/Share.antt =====
-- The share partition (internal/queuelog/share.go): competing consumers over one stream partition.
-- Every method runs under the partition's mutex; `now` is the time its caller passes. Sequences are
-- numbers here: the source counts records in 64 bits. The errors' texts are left out.
pub mod Settling
pub mod Acquiring
pub mod Releasing
pub mod Slide
pub mod Window
pub mod Settle
pub mod Carry
pub mod Lease
pub mod Fetch
pub mod Reap
pub mod Acquire
pub mod Complete
pub mod Logs
pub mod Runs
pub mod Examples
use boltq.Prelude.{
  ℕ, zero, suc, ◌+◌, ◌-◌, Bool, true, false, not, ◌&&◌, ◌||◌, List, [], ◌∷◌, ◌++◌, Option, none,
  some, ltb, leb, ◌==◌, if◌then◌else◌, GoString, nat_eq, str_eq, length, ◌≤◌, ◌<◌, ◌≡◌,
}
use boltq.Prelude.Int.{ℤ}
use boltq.Stream.{Record}
use boltq.Prelude.Dict.{Dict, get, has, put, remove, keep, size, maybe}

pub data ReadResult : Type 0 where
  truncated : ReadResult
  failed : ReadResult
  records : List Record → ReadResult

-- Records at consecutive sequences.
abbrev pub Consecutive : ℕ → List Record → Type 0
Consecutive from [] = Unit
Consecutive from (r ∷ rs) = (r.seq ≡ from) × Consecutive (suc from) rs

-- The stream partition as one call finds it: `FirstSeq` and `ReadFrom` (internal/stream).
pub record Log : Type 0 where
  pub first_seq : ℕ
  pub numbered : 0 < first_seq
  pub read_from : ℕ → ℕ → ReadResult
  pub kept_back : (from n : ℕ) → first_seq ≤ from → read_from from n ≡ truncated → ⊥
  pub in_order :
      (from n : ℕ) (rs : List Record)
      → 0 < from
      → 0 < n
      → read_from from n ≡ records rs
      → Consecutive from rs × (length rs ≤ n)

pub data Reason : Type 0 where
  rejected : Reason
  delivered_without_ack : ℕ → Reason
  lease_expired_after : ℕ → Reason

pub record CursorKey : Type 0 where
  pub topic : GoString
  pub partition : ℤ
  pub group : GoString

-- What a share partition calls: the cursor store's `Commit` and the configured `DeadLetter`, each
-- with whether it returned nil, over the state that they act on.
pub record Outside (E : Type 0) : Type 0 where
  pub commit : E → CursorKey → ℕ → Bool × E
  pub dead_letter : E → CursorKey → Record → Reason → Bool × E

pub data DeliveryState : Type 0 where
  available : DeliveryState
  acquired : DeliveryState

abbrev pub is_acquired : DeliveryState → Bool
is_acquired available = false
is_acquired acquired = true

pub record Entry : Type 0 where
  pub rec : Record
  pub state : DeliveryState
  pub count : ℕ
  pub deadline : ℕ
  pub holder : GoString

-- `has_dead_letter`: whether `DeadLetter` is set
pub record ShareConfig : Type 0 where
  pub group : GoString
  pub ack_timeout : ℕ
  pub max_delivery : ℕ
  pub max_in_flight : ℕ
  pub has_dead_letter : Bool

abbrev or_default : ℕ → ℕ → ℕ
or_default zero d = d
or_default (suc n) d = suc n

unfoldable pub apply_defaults : ShareConfig → ShareConfig
apply_defaults c = record c {
  ack_timeout = or_default c.ack_timeout 30000000000;
  max_delivery = or_default c.max_delivery 5;
  max_in_flight = or_default c.max_in_flight 1000;
}

-- `heap`: the sequences in the min-heap `available`, in any order; `has_cursors`: whether there is a
-- cursor store.
pub record SharePartition (E : Type 0) : Type 0 where
  pub key : CursorKey
  pub has_cursors : Bool
  pub cfg : ShareConfig
  pub base : ℕ
  pub next : ℕ
  pub entries : Dict ℕ Entry
  pub retired : Dict ℕ (Unit {0})
  pub heap : List ℕ
  pub closed : Bool
  pub delivered : ℕ
  pub acked : ℕ
  pub nacked : ℕ
  pub expired : ℕ
  pub dlq_count : ℕ
  pub env : E

pub data Error : Type 0 where
  partition_closed : Error
  unknown_delivery : Error
  not_holder : Error
  commit_failed : Error
  read_failed : Error

pub record Delivery : Type 0 where
  pub seq : ℕ
  pub rec : Record
  pub count : ℕ
  pub consumer : GoString
  pub deadline : ℕ

-- The committed position, `none` where there is no cursor store or no cursor, is the store's.
unfoldable pub open_share_partition :
    {E : Type 0} → CursorKey → Log → Bool → Option ℕ → ShareConfig → E → SharePartition E
unfolding apply_defaults
open_share_partition key log has_cursors committed cfg env =
    let base =
      maybe log.first_seq (λ p. if ltb p log.first_seq then log.first_seq else p) committed in
    record {
      key = key;
      has_cursors = has_cursors;
      cfg = apply_defaults cfg;
      base = base;
      next = base;
      entries = [];
      retired = [];
      heap = [];
      closed = false;
      delivered = 0;
      acked = 0;
      nacked = 0;
      expired = 0;
      dlq_count = 0;
      env = env;
    }

abbrev pub to_error : Bool → Option Error
to_error true = none
to_error false = some commit_failed

-- The loop of advanceLocked, on fuel: the retired run at the base.
unfoldable pub slide : ℕ → ℕ → Dict ℕ (Unit {0}) → ℕ × Dict ℕ (Unit {0})
slide zero base retired = (base, retired)
slide (suc n) base retired =
    let rest = slide n (suc base) (remove retired base) in
    if has retired base then rest else (base, retired)

abbrev pub released : Entry → Entry
released e = record e { state = available; holder = []; deadline = 0 }

module _ {E : Type 0} where
  -- releaseLocked
  unfoldable pub release : SharePartition E → ℕ → Entry → SharePartition E
  release sp seq e = record sp { entries = put sp.entries seq (released e); heap = seq ∷ sp.heap }

  -- retireLocked
  unfoldable pub retire : SharePartition E → ℕ → SharePartition E
  retire sp seq = record sp { entries = remove sp.entries seq; retired = put sp.retired seq tt }

  -- leaseLocked
  unfoldable pub lease : SharePartition E → ℕ → Entry → GoString → ℕ → Delivery × SharePartition E
  lease sp seq e consumer now =
      let deadline = now + sp.cfg.ack_timeout in
      (
        record {
          seq = seq;
          rec = e.rec;
          count = suc e.count;
          consumer = consumer;
          deadline = deadline;
        },
        record sp {
          entries = put sp.entries seq (record e {
            state = acquired;
            count = suc e.count;
            holder = consumer;
            deadline = deadline;
          });
        },
      )

module _ {E : Type 0} ⦃out : Outside E⦄ where
  commit_base : SharePartition E → Bool × SharePartition E
  commit_base sp = let (ok, env) = out.commit sp.env sp.key sp.base in (ok, record sp { env = env })

  -- advanceLocked
  unfoldable pub advance : SharePartition E → Bool × SharePartition E
  unfolding commit_base
  advance sp =
      let (base, retired) = slide (size sp.retired) sp.base sp.retired in
      let moved = record sp { base = base; retired = retired } in
      if (base == sp.base) || not sp.has_cursors then (true, moved) else commit_base moved

  -- deadLetterLocked
  unfoldable pub dead_letter : SharePartition E → ℕ → Entry → Reason → SharePartition E
  unfolding retire release
  dead_letter sp seq e reason =
      let (ok, env) = out.dead_letter sp.env sp.key e.rec reason in
      let told = record sp { env = env } in
      if not sp.cfg.has_dead_letter
      then retire (record sp { dlq_count = suc sp.dlq_count }) seq
      else if ok
      then retire (record told { dlq_count = suc sp.dlq_count }) seq
      else release told seq e
