-- ===== src/Epoch.antt =====
-- The leader epoch history of a partition (internal/stream/epoch.go).
pub mod History
pub mod Lookup
pub mod Truncate
pub mod Checkpoint
pub mod Examples
use Prim.Native.Nat.{pred}
use boltq.Prelude.{
  ℕ, zero, suc, ◌+◌, ◌-◌, ◌*◌, ◌/◌, Bool, true, false, List, [], ◌∷◌, ◌++◌, Option, none, some, ltb,
  leb, ◌==◌, if◌then◌else◌, length, get_or, take, drop,
}
use boltq.Prelude.Search.{search}
use boltq.Prelude.Bytes.{put_le, of_le}

pub record EpochEntry : Type 0 where
  pub epoch : ℕ
  pub start_seq : ℕ

-- `checkpoint` is the content of the checkpoint file, `none` while there is no such file.
pub record EpochCache : Type 0 where
  pub entries : List EpochEntry
  pub checkpoint : Option (List ℕ)

abbrev pub epoch_entry_size : ℕ
epoch_entry_size = 12

abbrev pub undefined_epoch : ℕ
undefined_epoch = 0

-- What reading outside of a slice would give; no operation reads there.
abbrev pub no_entry : EpochEntry
no_entry = record { epoch = 0; start_seq = 0 }

pub data EpochError : Type 0 where
  not_monotonic disk_error : EpochError

pub entry_at : List EpochEntry → ℕ → EpochEntry
entry_at entries i = get_or entries i no_entry

-- c.entries[len(c.entries)-1]
unfoldable pub last_entry : List EpochEntry → EpochEntry
unfolding entry_at
last_entry entries = entry_at entries (length entries - 1)

unfoldable pub encode_entries : List EpochEntry → List ℕ
unfolding put_le
encode_entries [] = []
encode_entries (e ∷ es) = put_le 4 e.epoch ++ put_le 8 e.start_seq ++ encode_entries es

-- One record of 12 bytes for each of `n` rounds.
unfoldable pub decode_entries : ℕ → List ℕ → List EpochEntry
unfolding of_le
decode_entries zero bytes = []
decode_entries (suc n) bytes =
    record { epoch = of_le (take 4 bytes); start_seq = of_le (take 8 (drop 4 bytes)) }
    ∷ decode_entries n (drop epoch_entry_size bytes)

-- sort.Slice by epoch
insert_entry : EpochEntry → List EpochEntry → List EpochEntry
insert_entry e [] = e ∷ []
insert_entry e (x ∷ xs) =
    let rest = insert_entry e xs in if leb e.epoch x.epoch then e ∷ x ∷ xs else x ∷ rest

unfoldable pub sort_entries : List EpochEntry → List EpochEntry
unfolding insert_entry
sort_entries [] = []
sort_entries (e ∷ es) = insert_entry e (sort_entries es)

-- The file as it is found on disk; a torn tail is dropped by the division.
unfoldable pub open_epoch_cache : Option (List ℕ) → EpochCache
unfolding decode_entries sort_entries
open_epoch_cache none = record { entries = []; checkpoint = none }
open_epoch_cache (some bytes) = record {
  entries = sort_entries (decode_entries (length bytes / epoch_entry_size) bytes);
  checkpoint = some bytes;
}

-- The rewrite and rename either takes effect whole or, when the disk fails, not at all.
unfoldable pub flush_locked : Bool → EpochCache → Option EpochError × EpochCache
unfolding encode_entries
flush_locked false c = (some disk_error, c)
flush_locked true c = elim c.entries [
  | [] ↦ (none, record c { checkpoint = none })
  | e ∷ es ↦ (none, record c { checkpoint = some (encode_entries (e ∷ es)) })
]

abbrev appended : Bool → EpochCache → EpochEntry → Option EpochError × EpochCache
appended disk c e = flush_locked disk (record c { entries = c.entries ++ e ∷ [] })

unfoldable pub assign : Bool → EpochCache → ℕ → ℕ → Option EpochError × EpochCache
unfolding flush_locked last_entry
assign disk c epoch start_seq =
    if epoch == undefined_epoch
    then (none, c)
    else if ltb 0 (length c.entries)
    then if leb epoch (last_entry c.entries).epoch
      then (none, c)
      else if ltb start_seq (last_entry c.entries).start_seq
      then (some not_monotonic, c)
      else appended disk c (record { epoch = epoch; start_seq = start_seq })
    else appended disk c (record { epoch = epoch; start_seq = start_seq })

unfoldable pub latest : EpochCache → ℕ × ℕ
unfolding last_entry
latest c =
    if length c.entries == 0
    then (undefined_epoch, 0)
    else ((last_entry c.entries).epoch, (last_entry c.entries).start_seq)

-- The first entry whose epoch is above `epoch`.
unfoldable pub first_newer : ℕ → List EpochEntry → ℕ
unfolding search
first_newer epoch entries =
    search (length entries) (λ i. ltb epoch (get_or entries i no_entry).epoch)

-- The first entry that starts above `seq`.
unfoldable pub first_after : ℕ → List EpochEntry → ℕ
unfolding search
first_after seq entries =
    search (length entries) (λ i. ltb seq (get_or entries i no_entry).start_seq)

-- The first entry that starts at `seq` or later.
unfoldable pub first_from : ℕ → List EpochEntry → ℕ
unfolding search
first_from seq entries =
    search (length entries) (λ i. leb seq (get_or entries i no_entry).start_seq)

pub end_offset_for : EpochCache → ℕ → ℕ → ℕ × ℕ
unfolding last_entry entry_at first_newer
end_offset_for c epoch log_end_seq =
    if length c.entries == 0
    then (undefined_epoch, 0)
    else if leb (last_entry c.entries).epoch epoch
    then ((last_entry c.entries).epoch, log_end_seq)
    else let i = first_newer epoch c.entries in
      if i == 0
      then (undefined_epoch, 0)
      else ((entry_at c.entries (i - 1)).epoch, (entry_at c.entries i).start_seq)

pub epoch_for_seq : EpochCache → ℕ → ℕ
unfolding entry_at first_after
epoch_for_seq c seq =
    let i = first_after seq c.entries in
    if i == 0 then undefined_epoch else (entry_at c.entries (i - 1)).epoch

unfoldable pub truncate_from_seq : Bool → EpochCache → ℕ → Option EpochError × EpochCache
unfolding flush_locked first_from
truncate_from_seq disk c seq =
    let i = first_from seq c.entries in
    if i == length c.entries
    then (none, c)
    else flush_locked disk (record c { entries = take i c.entries })

unfoldable pub truncate_before_seq : Bool → EpochCache → ℕ → Option EpochError × EpochCache
unfolding flush_locked first_after
truncate_before_seq disk c seq =
    let i = first_after seq c.entries in
    if leb i 1 then (none, c) else flush_locked disk (record c { entries = drop (i - 1) c.entries })
