-- ===== src/Stream/Examples.antt =====
-- Runs of the stream log, and its theorems at concrete records and partitions.
use boltq.Prelude.{
  ℕ, ◌+◌, ◌-◌, ◌≤◌, ◌<◌, ◌≡◌, ◌≢◌, ◌⊎◌, inl, inr, refl, sym, ◌∙◌, List, [], ◌∷◌, ◌++◌, none, some,
  GoString, lit, string_eq, length, length-append, arith, true, false, ltb, Cases, take, All,
}
use boltq.Prelude.Int.{ℤ, pos}
use boltq.Prelude.Crc.{crc32}
use boltq.Stream.{Record}
use boltq.Stream.Codec.{
  encode, encoded, ok, stuck, has_flag, decode_headers, record_body, decode_record_body,
  flag_ephemeral,
}
use boltq.Stream.Headers.{decode_headers_ends}
use boltq.Stream.Segment.{
  IndexEntry, Segment, eof, frame, read_frame, encode_index, create_segment, append,
}
use boltq.Stream.Segment.Appended.{append-Holds}
use boltq.Stream.Segment.Recovery.{open_segment}
use boltq.Stream.Segment.Reading.{read}
use boltq.Stream.Segment.Frames.{
  Stored, Holds, Points, frames, frame_record, length-frame_of, decode-encode,
}
use boltq.Stream.Segment.Selected.{selected, read_exact}
use boltq.Stream.Segment.Recovered.{open_segment-Holds}
use boltq.Stream.Partition.{
  Partition, PartitionConfig, open_partition, append_record, append_replicated, stamped, may_write,
  replication_gap, seq_truncated,
}
use boltq.Stream.Partition.Reads.{read_partition, read_failed}
use boltq.Stream.Partition.Trims.{truncate_partition, enforce_retention}
use boltq.Stream.Partition.Chain.{IsLog, create_segment-Holds}
use boltq.Stream.Partition.Grows.{
  Grew, all_writes, encode-stored, append_record-Grew, append_replicated_exact,
}
use boltq.Stream.Partition.Cuts.{truncate_partition_exact}
use boltq.Stream.Partition.Retained.{Retains, enforce_retention-Retains}
use boltq.Stream.Partition.Follows.{Reads, starts_at, read_partition_exact}

abbrev pub sent : Record
sent = record {
  seq = 9;
  timestamp = pos 5;
  key = lit "k";
  headers = (lit "h", lit "v") ∷ [];
  payload = 1 ∷ 2 ∷ [];
  flags = 1;
  epoch = 3;
}

abbrev pub cfg : PartitionConfig
cfg = record {
  segment_bytes = 64;
  index_interval = 0;
  retention_bytes = 50;
  retention_age = 0;
  sync_on_append = false;
}

abbrev pub fresh : Partition
fresh = open_partition cfg none []

pub fresh-IsLog : IsLog fresh []
unfolding open_partition create_segment
fresh-IsLog = record {
  chain = (create_segment-Holds 1 _ (omega arith) (omega arith), refl, refl);
  next = refl;
  low = omega arith;
  high = omega arith;
}

abbrev now : ℤ
now = pos 7

-- A record as a leader sends it to a follower
abbrev copy : Record
copy = record sent { seq = 5; epoch = 0 }

-- The partition after one record, and after two
abbrev first : Record
first = stamped fresh now sent

abbrev one : Partition
one = (append_record all_writes now fresh sent).1

abbrev second : Record
second = stamped one now sent

abbrev two : Partition
two = (append_record all_writes now one sent).1

pub fresh_facts :
    (fresh.closed ≡ false)
    × (may_write fresh ≡ true)
    × (fresh.next_seq ≡ 1)
    × (fresh.cur_epoch ≡ 0)
    × (fresh.first_seq ≡ 1)
unfolding open_partition boltq.Epoch.latest boltq.Epoch.open_epoch_cache
fresh_facts = (refl, refl, refl, refl, refl)

-- The record with any sequence of 64 bits and no epoch fits its frame.
pub sent-Fits :
    (seq epoch : ℕ) → seq < 1000 → epoch ≡ 0 → Stored (record sent { seq = seq; epoch = epoch })
unfolding boltq.Stream.Codec.encode_headers boltq.Prelude.Bytes.put_le
sent-Fits seq epoch small none_epoch = record {
  fits = record {
    seq = omega (arith, small);
    timestamp = omega arith;
    flags = omega arith;
    no_epoch_flag = refl;
    epoch = omega (arith, none_epoch);
    headers = ((omega arith, omega arith), tt);
    distinct = (unfold boltq.Prelude.Dict.get in refl, tt);
  };
  key = omega arith;
  body = ground (arith, none_epoch);
}

first-Stored : Stored first
first-Stored = sent-Fits fresh.next_seq fresh.cur_epoch (omega (arith, fresh_facts.2)) fresh_facts.3

one-Grew : Grew fresh [] first (append_record all_writes now fresh sent)
one-Grew =
    append_record-Grew now fresh [] sent fresh-IsLog first-Stored refl fresh_facts.0 fresh_facts.1
      (omega (arith, fresh_facts.2))

one_next : one.next_seq ≡ 2
one_next = omega (arith, one-Grew.next, fresh_facts.2)

one_epoch : one.cur_epoch ≡ 0
one_epoch = one-Grew.epoch ∙ fresh_facts.3

one_open : one.closed ≡ false
one_open = one-Grew.closed ∙ fresh_facts.0

one_leads : may_write one ≡ true
one_leads = one-Grew.leads ∙ fresh_facts.1

two-Grew : Grew one (first ∷ []) second (append_record all_writes now one sent)
two-Grew =
    append_record-Grew now one (first ∷ []) sent one-Grew.log
      (sent-Fits one.next_seq one.cur_epoch (omega (arith, one_next)) one_epoch) refl one_open
      one_leads (omega (arith, one_next))

two_next : two.next_seq ≡ 3
two_next = omega (arith, two-Grew.next, one_next)

two_first : two.first_seq ≡ 1
two_first = two-Grew.first ∙ one-Grew.first ∙ fresh_facts.4

two_open : two.closed ≡ false
two_open = two-Grew.closed ∙ one_open

append_replicated_exact_example :
    Cases (ltb 5 two.next_seq) (append_replicated all_writes two copy ≡ (none, two)) (
      Cases
        (ltb two.next_seq 5)
        (append_replicated all_writes two copy ≡ (some replication_gap, two))
        (Grew two (first ∷ (second ∷ [])) copy (append_replicated all_writes two copy)))
append_replicated_exact_example =
    append_replicated_exact two (first ∷ (second ∷ [])) copy two-Grew.log
      (sent-Fits 5 0 (omega arith) refl) refl two_open (omega arith) (omega arith)
      (omega (arith, two_next))

truncate_partition_exact_example :
    ((truncate_partition true true two 2).0 ≡ none)
    × ((truncate_partition true true two 2).1 ≡ two.next_seq - 2)
    × ((truncate_partition true true two 2).2.next_seq ≡ 2)
    × IsLog
        (truncate_partition true true two 2).2
        (take (2 - two.first_seq) (first ∷ (second ∷ [])))
truncate_partition_exact_example =
    truncate_partition_exact two (first ∷ (second ∷ [])) 2 two-Grew.log two_open
      (omega (arith, two_first)) (omega (arith, two_next))

enforce_retention-Retains_example :
    Retains two (first ∷ (second ∷ [])) (enforce_retention true true now two)
enforce_retention-Retains_example =
    enforce_retention-Retains now two (first ∷ (second ∷ [])) two-Grew.log

read_partition_exact_example :
    Cases
      (ltb (starts_at two 2) two.first_seq)
      (read_partition true two 2 10 0 ≡ read_failed seq_truncated [])
      (Reads two (first ∷ (second ∷ [])) 2 10 0)
read_partition_exact_example =
    read_partition_exact two (first ∷ (second ∷ [])) 2 10 0 two-Grew.log two_open

decode_headers_ends_example : decode_headers (3 ∷ 0 ∷ 7 ∷ []) ≢ stuck
decode_headers_ends_example = decode_headers_ends (3 ∷ 0 ∷ 7 ∷ [])

copy-encoded : encode copy ≡ encoded (frame_record copy)
copy-encoded = encode-stored copy (sent-Fits 5 0 (omega arith) refl)

decode-encode_example :
    (read_frame (frame_record copy ++ 1 ∷ [])
      ≡ frame (crc32 (record_body copy)) (record_body copy) (1 ∷ []))
    × (decode_record_body (record_body copy) ≡ ok copy)
decode-encode_example =
    decode-encode copy (frame_record copy) (1 ∷ []) (sent-Fits 5 0 (omega arith) refl).fits
      copy-encoded

-- A segment that a crash left with one record, the start of the next, and entries for both.
abbrev entries : List IndexEntry
entries = record { seq = 5; pos = 0 } ∷ (record { seq = 6; pos = length (frame_record copy) } ∷ [])

next_copy : Record
next_copy = record sent { seq = 6; epoch = 0 }

one_byte : read_frame (1 ∷ []) ≡ eof
unfolding read_frame boltq.Prelude.Bytes.read_full
one_byte = refl

at_first : Points 5 (copy ∷ (next_copy ∷ [])) (record { seq = 5; pos = 0 })
at_first = record {
  ahead = [];
  behind = copy ∷ (next_copy ∷ []);
  split = refl;
  at_seq = refl;
  at_pos = refl;
}

at_second :
    Points 5 (copy ∷ (next_copy ∷ [])) (record { seq = 6; pos = length (frame_record copy) })
at_second = record {
  ahead = copy ∷ [];
  behind = next_copy ∷ [];
  split = refl;
  at_seq = refl;
  at_pos = omega (arith, length-append (frame_record copy) []);
}

length-copy : length (frame_record copy) ≡ 44
unfolding boltq.Stream.Codec.encode_headers boltq.Prelude.Bytes.put_le
length-copy = refl

open_segment-Holds_example :
    Holds
      (open_segment (frames (copy ∷ []) ++ 1 ∷ []) (encode_index entries) 5 64 false)
      (copy ∷ [])
open_segment-Holds_example =
    open_segment-Holds 5 64 (copy ∷ []) (next_copy ∷ []) (1 ∷ []) entries
      (sent-Fits 5 0 (omega arith) refl, tt) (refl, tt) (omega arith) (omega arith) (inl one_byte)
      (omega (arith, length-frame_of (record_body next_copy))) (at_first, (at_second, tt))
      (((omega arith, omega arith), tt), (tt, tt))
      ((omega arith, omega arith), ((omega arith, omega (arith, length-copy)), tt))

abbrev stale : List ℕ
stale = encode_index (record { seq = 9; pos = 0 } ∷ (record { seq = 10; pos = 200 } ∷ []))

-- The entries that a crash left ahead of the log stay in the index file: a later open reads them
-- again, before those of the records written since.
stale_entries :
    ((open_segment [] stale 1 64 false).index ≡ [])
    × ((open_segment [] stale 1 64 false).idx_file ≡ stale)
unfolding open_segment boltq.Stream.Segment.Recovery.recover
    boltq.Stream.Segment.Recovery.trim_index boltq.Stream.Segment.load_index
    boltq.Stream.Segment.decode_index boltq.Stream.Segment.Recovery.recover_loop read_frame
    boltq.Prelude.Bytes.read_full encode_index boltq.Stream.Segment.encode_entry
    boltq.Prelude.Bytes.put_le boltq.Prelude.Bytes.of_le
stale_entries = (refl, refl)

-- A segment with one record
abbrev kept : Segment
kept = (append true true (create_segment 5 64) (frame_record copy) 5).1

kept-Holds : Holds kept (copy ∷ [])
unfolding create_segment
kept-Holds =
    (append-Holds (create_segment 5 64) [] copy
      (create_segment-Holds 5 64 (omega arith) (omega arith)) (sent-Fits 5 0 (omega arith) refl)
      refl (omega arith) refl).1

read_exact_example : read true kept 5 10 0 ≡ (selected 5 10 0 0 (copy ∷ []), none)
read_exact_example = read_exact kept (copy ∷ []) 5 10 0 kept-Holds
