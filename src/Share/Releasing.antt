-- ===== src/Share/Releasing.antt =====
-- The release of leases, the closing of a partition and its statistics
-- (internal/queuelog/share.go).
use boltq.Prelude.{
  ℕ, suc, ◌-◌, Bool, true, not, ◌&&◌, List, [], ◌∷◌, Option, none, some, ltb, if◌then◌else◌,
  GoString, nat_eq, str_eq,
}
use boltq.Prelude.Dict.{get, keep, size}
use boltq.Share.{is_acquired, Entry, SharePartition, release}

module _ {E : Type 0} where
  unfoldable pub release_found :
      (Entry → Bool) → Option Entry → ℕ → ℕ × SharePartition E → ℕ × SharePartition E
  unfolding release
  release_found p none seq (n, sp) = (n, sp)
  release_found p (some e) seq (n, sp) =
      if is_acquired e.state && p e then (suc n, release sp seq e) else (n, sp)

  unfoldable pub release_each :
      (Entry → Bool) → List (ℕ × Entry) → ℕ × SharePartition E → ℕ × SharePartition E
  unfolding release_found
  release_each p [] (n, sp) = (n, sp)
  release_each p ((seq, e) ∷ es) (n, sp) =
      release_each p es (release_found p (get sp.entries seq) seq (n, sp))

  unfoldable pub release_all : SharePartition E → ℕ × SharePartition E
  unfolding release_each
  release_all sp = release_each (λ e. true) sp.entries (0, sp)

  unfoldable pub release_consumer : SharePartition E → GoString → ℕ × SharePartition E
  unfolding release_each
  release_consumer sp consumer = release_each (λ e. str_eq e.holder consumer) sp.entries (0, sp)

  unfoldable pub close : SharePartition E → SharePartition E
  close sp = record sp { closed = true }

-- The sequences in each state, and how far the log's end is above the base.
pub record ShareStats : Type 0 where
  pub base : ℕ
  pub next : ℕ
  pub log_end : ℕ
  pub backlog : ℕ
  pub in_flight : ℕ
  pub available_count : ℕ
  pub delivered : ℕ
  pub acked : ℕ
  pub nacked : ℕ
  pub expired : ℕ
  pub dead_lettered : ℕ

pub stats : {E : Type 0} → SharePartition E → ℕ → ShareStats
stats sp end = record {
  base = sp.base;
  next = sp.next;
  log_end = end;
  backlog = if ltb sp.base end then end - sp.base else 0;
  in_flight = size (keep (λ s e. is_acquired e.state) sp.entries);
  available_count = size (keep (λ s e. not (is_acquired e.state)) sp.entries);
  delivered = sp.delivered;
  acked = sp.acked;
  nacked = sp.nacked;
  expired = sp.expired;
  dead_lettered = sp.dlq_count;
}
