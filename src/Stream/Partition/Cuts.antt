-- ===== src/Stream/Partition/Cuts.antt =====
-- What a follower's truncation leaves of a partition (internal/stream/partition.go, TruncateTo).
use boltq.Prelude.{
  ℕ, ◌+◌, ◌-◌, ◌≤◌, ◌<◌, ◌≡◌, refl, sym, ap, ◌∙◌, Bool, List, [], ◌∷◌, ◌++◌, Option, none, some,
  length, length-append, arith, false, true, ltb, leb, ◌==◌, if◌then◌else◌, inl, inr, Bool-cases,
  take, take-beyond, take-within, take_all, length-take,
}
use boltq.Prelude.Int.{pos, ◌+ℤ◌, ◌-ℤ◌}
use boltq.Epoch.{
  EpochCache, EpochError, EpochEntry, flush_locked, truncate_from_seq, first_from, latest,
}
use boltq.Stream.{Record}
use boltq.Stream.Segment.{Segment, SegmentError, reopen_writable}
use boltq.Stream.Segment.Cutting.{truncate_to}
use boltq.Stream.Segment.Frames.{Holds}
use boltq.Stream.Segment.Truncated.{truncate_to-Holds, truncate_to-same}
use boltq.Stream.Partition.{Partition}
use boltq.Stream.Partition.Chain.{Chain, IsLog}
use boltq.Stream.Partition.Trims.{
  drop_segments, dropped, truncate_partition, reopened, active_cut, epochs_cut,
}

pub flush_locked-none : (c : EpochCache) → (flush_locked true c).0 ≡ none
unfolding flush_locked
flush_locked-none c = by_entries c.entries c
  where
    by_entries :
        (es : List EpochEntry) (c : EpochCache)
        → (flush_locked true (record c { entries = es })).0 ≡ none
    by_entries [] c = unfold flush_locked in refl
    by_entries (e ∷ es) c = unfold flush_locked in refl

truncate_from_seq-none : (c : EpochCache) (seq : ℕ) → (truncate_from_seq true c seq).0 ≡ none
unfolding truncate_from_seq
truncate_from_seq-none c seq =
    picked (first_from seq c.entries == length c.entries)
      (flush_locked true (record c { entries = take (first_from seq c.entries) c.entries }))
      (flush_locked-none (record c { entries = take (first_from seq c.entries) c.entries }))
  where
    picked :
        (b : Bool) (q : Option EpochError × EpochCache)
        → q.0 ≡ none
        → (if b then (none, c) else q).0 ≡ none
    picked true q e = refl
    picked false q e = e

module _ (s : Segment) (seq : ℕ) where
  dropped-first :
      (d : List Segment × Segment × ℕ)
      → d.0 ≡ []
      → seq ≤ d.1.base_seq
      → ((dropped s seq d).0 ≡ []) × ((dropped s seq d).1 ≡ s)
  dropped-first ([], a, f) e le =
      let q : ltb a.base_seq seq ≡ false = ground (arith, le) in rw q (refl, refl)
  dropped-first (x ∷ xs, a, f) e le = absurd (ground (arith, e))

  dropped-kept :
      (d : List Segment × Segment × ℕ)
      → d.1.base_seq < seq
      → ((dropped s seq d).0 ≡ s ∷ d.0) × ((dropped s seq d).1 ≡ d.1)
  dropped-kept ([], a, f) lt =
      let q : ltb a.base_seq seq ≡ true = ground (arith, lt) in rw q (refl, refl)
  dropped-kept (x ∷ xs, a, f) lt = (refl, refl)

-- All segments from `seq` on go, down to the first.
drop_segments-all :
    (sealed : List Segment) (active : Segment) (base seq : ℕ) (rs : List Record)
    → Chain sealed active base rs
    → seq ≤ base
    → ((drop_segments sealed active seq).0 ≡ [])
      × ((drop_segments sealed active seq).1.base_seq ≡ base)
unfolding drop_segments
drop_segments-all [] active base seq rs (h, e, w) le = (refl, e)
drop_segments-all (s ∷ sealed) active base seq rs (here, rest, split, h, e, some_here, c) le =
    let all = drop_segments-all sealed active (base + length here) seq rest c (omega (arith, le)) in
    let first =
      dropped-first s seq (drop_segments sealed active seq) all.0 (omega (arith, all.1, le)) in
    (first.0, ap (λ (t : Segment). t.base_seq) first.1 ∙ e)

-- What is left when the segments from `seq` on are gone: the last one holds the record before `seq`,
-- and once it is cut the segments hold the records before `seq`.
record Cut (sealed : List Segment) (active : Segment) (base seq : ℕ) (rs : List Record)
    : Type 0 where
  last : List Record
  holds : Holds active last
  below : active.base_seq < seq
  within : seq ≤ active.base_seq + length last
  again :
      (new : Segment)
      → Holds new (take (seq - active.base_seq) last)
      → new.base_seq ≡ active.base_seq
      → new.read_only ≡ false
      → Chain sealed new base (take (seq - base) rs)

drop_segments-Cut :
    (sealed : List Segment) (active : Segment) (base seq : ℕ) (rs : List Record)
    → Chain sealed active base rs
    → base < seq
    → seq ≤ base + length rs
    → Cut (drop_segments sealed active seq).0 (drop_segments sealed active seq).1 base seq rs
unfolding drop_segments
drop_segments-Cut [] active base seq rs (h, e, w) lt le = record {
  last = rs;
  holds = h;
  below = omega (arith, e, lt);
  within = omega (arith, e, le);
  again = λ new hn same open_seg. (rw (sym e) hn, same ∙ e, open_seg);
}
drop_segments-Cut (s ∷ sealed) active base seq rs (here, rest, split, h, e, some_here, c) lt le =
    elim (Bool-cases (leb seq (base + length here))) [
      | inl ends_here ↦
          let all =
            drop_segments-all sealed active (base + length here) seq rest c
              (ground (arith, ends_here)) in
          let d =
            dropped-first s seq (drop_segments sealed active seq) all.0
              (ground (arith, all.1, ends_here)) in
          let inside : take (seq - base) rs ≡ take (seq - base) here =
            ap (take (seq - base)) split
            ∙ take-within (seq - base) here rest (ground (arith, ends_here)) in
          rw (d.0, d.1)
            (record {
              last = here;
              holds = h;
              below = omega (arith, e, lt);
              within = ground (arith, e, ends_here);
              again = λ new hn same open_seg. (rw (inside, sym e) hn, same ∙ e, open_seg);
            })
      | inr goes_on ↦
          let past : base + length here < seq = ground (arith, goes_on) in
          let cut =
            drop_segments-Cut sealed active (base + length here) seq rest c past
              (omega (arith, le, ap length split, length-append here rest)) in
          let d = dropped-kept s seq (drop_segments sealed active seq) cut.below in
          let k : seq - base - length here ≡ seq - (base + length here) = omega arith in
          let both : take (seq - base) rs ≡ here ++ take (seq - (base + length here)) rest =
            ap (take (seq - base)) split
            ∙ take-beyond (seq - base) here rest (omega (arith, past))
            ∙ ap (λ t. here ++ take t rest) k in
          rw (d.0, d.1)
            (record {
              last = cut.last;
              holds = cut.holds;
              below = cut.below;
              within = cut.within;
              again = λ new hn same open_seg. (
                here,
                take (seq - (base + length here)) rest,
                both,
                h,
                e,
                some_here,
                cut.again new hn same open_seg,
              );
            })
    ]

-- The segment that becomes the active one again.
abbrev writable : Segment → Segment
writable s = record s { read_only = false }

writable-Holds : (s : Segment) (rs : List Record) → Holds s rs → Holds (writable s) rs
writable-Holds s rs h = record {
  stored = h.stored;
  run = h.run;
  file = h.file;
  size = h.size;
  low = h.low;
  high = h.high;
  last = h.last;
  index = h.index;
  order = h.order;
}

reopen_writable-writable : (s : Segment) → reopen_writable true s ≡ (none, writable s)
unfolding reopen_writable
reopen_writable-writable s = elim (Bool-cases s.read_only) [
  | inl ro ↦ ground (arith, ro)
  | inr w ↦ let q : s ≡ writable s = ap (λ b. record s { read_only = b }) w in ground (arith, w, q)
]

-- The cut of the last segment, whether or not it has records from `seq` on.
record CutSegment (s : Segment) (seq : ℕ) (rs : List Record)
    (step : Option SegmentError × Bool × Segment) : Type 0 where
  no_error : step.0 ≡ none
  holds : Holds step.2 (take (seq - s.base_seq) rs)
  base : step.2.base_seq ≡ s.base_seq
  open_seg : step.2.read_only ≡ false

truncate_to-CutSegment :
    (s : Segment) (seq : ℕ) (rs : List Record)
    → Holds s rs
    → s.read_only ≡ false
    → s.base_seq < seq
    → seq ≤ s.base_seq + length rs
    → CutSegment s seq rs (truncate_to true s seq)
truncate_to-CutSegment s seq rs h w lt le = elim (Bool-cases (ltb s.last_seq seq)) [
  | inl past ↦
      let all : seq - s.base_seq ≡ length rs = ground (arith, past, h.last, le, lt) in
      let unchanged : truncate_to true s seq ≡ (none, false, s) =
        unfold truncate_to in ground (arith, w, past) in
      let whole : take (seq - s.base_seq) rs ≡ rs = ap (λ k. take k rs) all ∙ take_all rs in
      rw unchanged (record { no_error = refl; holds = rw whole h; base = refl; open_seg = w })
  | inr inside ↦
      let at : seq ≤ s.last_seq = ground (arith, inside) in
      let t = truncate_to-Holds s rs seq h lt at w in
      let same = truncate_to-same s rs seq h lt at w in
      record { no_error = t.0; holds = t.2; base = same.0; open_seg = same.1 }
]

active_cut-none :
    (p : Partition) (seq removed : ℕ) (a : Option SegmentError × Bool × Segment)
    → a.0 ≡ none
    → active_cut true p seq removed a
      ≡ epochs_cut
          (record p {
            active = a.2;
            next_seq = seq;
            byte_count = p.byte_count +ℤ (pos a.2.size -ℤ pos p.active.size);
          })
          removed
          (truncate_from_seq true p.epochs seq)
active_cut-none p seq removed (none, cut, s) e = refl
active_cut-none p seq removed (some x, cut, s) e = absurd (ground (arith, e))

epochs_cut-none :
    (p : Partition) (removed : ℕ) (a : Option EpochError × EpochCache)
    → a.0 ≡ none
    → epochs_cut p removed a
      ≡ (none, removed, record p { epochs = a.1; cur_epoch = (latest a.1).0 })
epochs_cut-none p removed (none, c) e = refl
epochs_cut-none p removed (some x, c) e = absurd (ground (arith, e))

module _ (p : Partition) (seq : ℕ) where
  abbrev shorter : Partition
  shorter =
      let d = drop_segments p.sealed p.active seq in
      record p { sealed = d.0; active = d.1; byte_count = p.byte_count -ℤ pos d.2 }

  truncate_partition-reopened :
      p.closed ≡ false
      → p.first_seq < seq
      → seq < p.next_seq
      → truncate_partition true true p seq
        ≡ reopened true true shorter seq (p.next_seq - seq) (reopen_writable true shorter.active)
  unfolding truncate_partition
  truncate_partition-reopened live lt inside = ground (arith, live, lt, inside)

-- A follower that cuts its log above the first record and before the end of it is left with exactly
-- the records before the cut, the next sequence being the cut, and is told how many went, when the
-- partition is open and the disk takes the writes.
pub truncate_partition_exact :
    (p : Partition) (rs : List Record) (seq : ℕ)
    → IsLog p rs
    → p.closed ≡ false
    → p.first_seq < seq
    → seq < p.next_seq
    → ((truncate_partition true true p seq).0 ≡ none)
      × ((truncate_partition true true p seq).1 ≡ p.next_seq - seq)
      × ((truncate_partition true true p seq).2.next_seq ≡ seq)
      × IsLog (truncate_partition true true p seq).2 (take (seq - p.first_seq) rs)
truncate_partition_exact p rs seq log live lt inside =
    let q = shorter p seq in
    let cut =
      drop_segments-Cut p.sealed p.active p.first_seq seq rs log.chain lt
        (omega (arith, inside, log.next)) in
    let a = truncate_to true (writable q.active) seq in
    let step =
      truncate_to-CutSegment (writable q.active) seq cut.last
        (writable-Holds q.active cut.last cut.holds) refl cut.below cut.within in
    rw
      (
        truncate_partition-reopened p seq live lt inside,
        reopen_writable-writable q.active,
        active_cut-none (record q { active = writable q.active }) seq (p.next_seq - seq) a
            step.no_error,
        epochs_cut-none _ (p.next_seq - seq) (truncate_from_seq true p.epochs seq)
            (truncate_from_seq-none p.epochs seq),
      )
      (
        refl,
        refl,
        refl,
        record {
          chain = cut.again a.2 step.holds step.base step.open_seg;
          next =
              omega
                (arith, length-take (seq - p.first_seq) rs (omega (arith, inside, log.next)), lt);
          low = log.low;
          high = omega (arith, inside, log.high);
        },
      )
