-- ===== src/Stream/Partition/Grows.antt =====
-- What an append does to a partition (internal/stream/partition.go).
use boltq.Prelude.{
  ℕ, ◌+◌, ◌%◌, ◌≤◌, ◌<◌, ◌≡◌, refl, ap, ◌∙◌, List, [], ◌∷◌, ◌++◌, Option, none, some, length,
  length-append, arith, Bool, false, true, not, ◌&&◌, ltb, if◌then◌else◌, Cases, by_cases,
}
use boltq.Prelude.Words.{u64}
use boltq.Prelude.Int.{ℤ, pos, ◌+ℤ◌}
use boltq.Stream.{Record}
use boltq.Stream.Codec.{encode, encoded, has_flag, flag_ephemeral}
use boltq.Stream.Segment.{Segment, SegmentError, append, create_segment, is_empty}
use boltq.Stream.Segment.Frames.{Stored, frame_record}
use boltq.Stream.Segment.Appended.{append-Holds, append-same}
use boltq.Stream.Partition.{
  Partition, PartitionError, Disk, after_write, write_into, write_encoded, room_for, roll_locked,
  append_record, stamped, may_write, append_replicated, replication_gap,
}
use boltq.Stream.Partition.Chain.{IsLog, Chain-grow, Chain-roll, Chain-active, create_segment-Holds}

-- A disk that takes every write.
abbrev pub all_writes : Disk
all_writes = record { index = true; log = true; roll = true; sync = true; epoch = true }

pub encode-stored : (r : Record) → Stored r → encode r ≡ encoded (frame_record r)
unfolding encode
encode-stored r st = ground (arith, st.key, st.body)

after_write-none :
    (p : Partition) (frame : List ℕ) (seq : ℕ) (a : Option SegmentError × Segment)
    → a.0 ≡ none
    → after_write all_writes p frame seq a ≡ (
      none,
      record p {
        active = a.1;
        next_seq = (seq + 1) % u64;
        byte_count = p.byte_count +ℤ pos (length frame);
      },
    )
after_write-none p frame seq (none, s) e = ground arith
after_write-none p frame seq (some x, s) e = absurd (ground (arith, e))

module _ (p : Partition) (rs : List Record) (r : Record) (log : IsLog p rs) (st : Stored r)
    (next : r.seq ≡ p.next_seq) (room : p.next_seq + 1 < u64) where
  abbrev written : Option SegmentError × Segment
  written = append true true p.active (frame_record r) r.seq

  written-none : written.0 ≡ none
  written-none =
      let (l, h, at, w) = Chain-active p.sealed p.active p.first_seq rs log.chain in
      (append-Holds p.active l r h st (omega (arith, next, log.next, at))
        (omega (arith, log.next, at, room)) w).0

  abbrev grown : Partition
  grown = record p {
    active = written.1;
    next_seq = (r.seq + 1) % u64;
    byte_count = p.byte_count +ℤ pos (length (frame_record r));
  }

  grown-IsLog : IsLog grown (rs ++ r ∷ [])
  grown-IsLog =
      let (l, h, at, w) = Chain-active p.sealed p.active p.first_seq rs log.chain in
      let same =
        append-same p.active l r h st (omega (arith, next, log.next, at))
          (omega (arith, log.next, at, room)) w in
      record {
        chain =
            Chain-grow p.sealed p.active written.1 p.first_seq rs r log.chain
              (λ k hk at_k.
                (append-Holds p.active k r hk st (omega (arith, next, log.next, at_k))
                  (omega (arith, log.next, at_k, room)) w).1)
              same.0 (same.1 ∙ w);
        next = omega (arith, next, room, log.next, length-append rs (r ∷ []));
        low = log.low;
        high = omega (arith, next, room);
      }

abbrev rolled : Partition → ℕ → Partition
rolled p seq = record p {
  sealed = p.sealed ++ p.active ∷ [];
  active = create_segment seq p.cfg.index_interval;
}

rolled-IsLog :
    (p : Partition) (rs : List Record) (seq : ℕ)
    → IsLog p rs
    → seq ≡ p.next_seq
    → is_empty p.active ≡ false
    → IsLog (rolled p seq) rs
unfolding create_segment
rolled-IsLog p rs seq log at filled = record {
  chain =
      Chain-roll p.sealed p.active (create_segment seq p.cfg.index_interval) p.first_seq rs
        log.chain filled
        (create_segment-Holds seq p.cfg.index_interval (omega (arith, at, log.next, log.low))
          (omega (arith, at, log.high)))
        (omega (arith, at, log.next)) refl;
  next = log.next;
  low = log.low;
  high = log.high;
}

-- One more record, with the sequence that was next.
pub record Grew (p : Partition) (rs : List Record) (r : Record)
    (step : Option PartitionError × Partition) : Type 0 where
  pub no_error : step.0 ≡ none
  pub log : IsLog step.1 (rs ++ r ∷ [])
  pub next : step.1.next_seq ≡ p.next_seq + 1
  pub epoch : step.1.cur_epoch ≡ p.cur_epoch
  pub closed : step.1.closed ≡ p.closed
  pub first : step.1.first_seq ≡ p.first_seq
  pub leads : may_write step.1 ≡ may_write p

write_into-Grew :
    (p q : Partition) (rs : List Record) (r : Record)
    → IsLog q rs
    → Stored r
    → r.seq ≡ q.next_seq
    → q.next_seq ≡ p.next_seq
    → q.cur_epoch ≡ p.cur_epoch
    → q.closed ≡ p.closed
    → q.first_seq ≡ p.first_seq
    → may_write q ≡ may_write p
    → p.next_seq + 1 < u64
    → Grew p rs r (write_into all_writes p (frame_record r) r.seq (some q))
write_into-Grew p q rs r log st at same epoch closed first leads room =
    let fits : q.next_seq + 1 < u64 = omega (arith, same, room) in
    rw
      (after_write-none q (frame_record r) r.seq (written q rs r log st at fits)
        (written-none q rs r log st at fits))
      (record {
        no_error = refl;
        log = grown-IsLog q rs r log st at fits;
        next = omega (arith, at, same, room);
        epoch = epoch;
        closed = closed;
        first = first;
        leads = leads;
      })

module _ (p : Partition) (rs : List Record) (r : Record) (log : IsLog p rs) (st : Stored r)
    (at : r.seq ≡ p.next_seq) (room : p.next_seq + 1 < u64) where
  abbrev full : Bool
  full =
      ltb p.cfg.segment_bytes (p.active.size + length (frame_record r)) && not (is_empty p.active)

  room_for-some :
      room_for all_writes p (frame_record r) r.seq ≡ some (if full then rolled p r.seq else p)
  unfolding room_for roll_locked
  room_for-some = ground arith

  chosen :
      (b : Bool)
      → (b ≡ true → is_empty p.active ≡ false)
      → Grew p rs r
          (write_into all_writes p (frame_record r) r.seq (some (if b then rolled p r.seq else p)))
  chosen false filled = write_into-Grew p p rs r log st at refl refl refl refl refl room
  chosen true filled =
      write_into-Grew p (rolled p r.seq) rs r (rolled-IsLog p rs r.seq log at (filled refl)) st at
        refl refl refl refl refl room

  pub write_encoded-Grew : Grew p rs r (write_encoded all_writes p r.seq (encoded (frame_record r)))
  unfolding write_encoded
  write_encoded-Grew = rw room_for-some (chosen full (λ e. ground (arith, e)))

pub append_record-Grew :
    (now : ℤ) (p : Partition) (rs : List Record) (r : Record)
    → IsLog p rs
    → Stored (stamped p now r)
    → has_flag flag_ephemeral r.flags ≡ false
    → p.closed ≡ false
    → may_write p ≡ true
    → p.next_seq + 1 < u64
    → Grew p rs (stamped p now r) (append_record all_writes now p r)
append_record-Grew now p rs r log st kept live leads room =
    rw
      (append_record-open now p r kept live leads
        ∙ ap (write_encoded all_writes p p.next_seq) (encode-stored (stamped p now r) st))
      (write_encoded-Grew p rs (stamped p now r) log st refl room)
  where
    append_record-open :
        (now : ℤ) (p : Partition) (r : Record)
        → has_flag flag_ephemeral r.flags ≡ false
        → p.closed ≡ false
        → may_write p ≡ true
        → append_record all_writes now p r
          ≡ write_encoded all_writes p p.next_seq (encode (stamped p now r))
    append_record-open now p r kept live leads =
        unfold append_record in ground (arith, kept, live, leads)

module _ (p : Partition) (r : Record) (kept : has_flag flag_ephemeral r.flags ≡ false)
    (live : p.closed ≡ false) (numbered : 0 < r.seq) where
  replayed : ltb r.seq p.next_seq ≡ true → append_replicated all_writes p r ≡ (none, p)
  unfolding append_replicated
  replayed early = ground (arith, kept, live, numbered, early)

  past_next :
      ltb r.seq p.next_seq ≡ false
      → ltb p.next_seq r.seq ≡ true
      → append_replicated all_writes p r ≡ (some replication_gap, p)
  unfolding append_replicated
  past_next reached past = ground (arith, kept, live, numbered, reached, past)

  expected :
      r.epoch ≤ p.cur_epoch
      → r.seq ≡ p.next_seq
      → append_replicated all_writes p r ≡ write_encoded all_writes p r.seq (encode r)
  unfolding append_replicated
  expected old at = ground (arith, kept, live, numbered, old, at)

-- A follower's append of a record of its own epoch: a record that it has already changes nothing, a
-- record past the next is refused and changes nothing, and the next record is added to the log; when
-- the partition is open, the record is not ephemeral, can be encoded and has a sequence, and the disk
-- takes the writes.
pub append_replicated_exact :
    (p : Partition) (rs : List Record) (r : Record)
    → IsLog p rs
    → Stored r
    → has_flag flag_ephemeral r.flags ≡ false
    → p.closed ≡ false
    → 0 < r.seq
    → r.epoch ≤ p.cur_epoch
    → p.next_seq + 1 < u64
    → Cases (ltb r.seq p.next_seq) (append_replicated all_writes p r ≡ (none, p)) (
        Cases
          (ltb p.next_seq r.seq)
          (append_replicated all_writes p r ≡ (some replication_gap, p))
          (Grew p rs r (append_replicated all_writes p r)))
append_replicated_exact p rs r log st kept live numbered old room =
    by_cases (ltb r.seq p.next_seq) (λ early. replayed p r kept live numbered early)
      λ reached.
        by_cases (ltb p.next_seq r.seq) (λ past. past_next p r kept live numbered reached past)
          λ within.
            let at : r.seq ≡ p.next_seq = ground (arith, reached, within) in
            rw
              (expected p r kept live numbered old at
                ∙ ap (write_encoded all_writes p r.seq) (encode-stored r st))
              (write_encoded-Grew p rs r log st at room)
