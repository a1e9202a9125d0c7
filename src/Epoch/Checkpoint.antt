-- ===== src/Epoch/Checkpoint.antt =====
-- The checkpoint file: what is flushed is what is loaded.
use boltq.Prelude.{
  ℕ, ◌*◌, ◌/◌, ◌^◌, ◌<◌, ◌≡◌, refl, ap, ◌∙◌, true, List, [], ◌∷◌, ◌++◌, Option, none, some, arith,
  length, length-append, All,
}
use boltq.Prelude.Bytes.{put_le, length-put_le, of_le-put_le}
use boltq.Epoch.{
  EpochEntry, EpochCache, encode_entries, decode_entries, sort_entries, insert_entry,
  open_epoch_cache, flush_locked, epoch_entry_size,
}
use boltq.Epoch.History.{IsHistory}

-- The fields fit their widths.
abbrev pub FitsWords : List EpochEntry → Type 0
FitsWords = All (λ e. (e.epoch < 256 ^ 4) × (e.start_seq < 256 ^ 8))

length-encode : (es : List EpochEntry) → length (encode_entries es) ≡ epoch_entry_size * length es
unfolding encode_entries
length-encode [] = refl
length-encode (e ∷ es) = omega (
  arith,
  length-append (put_le 4 e.epoch) (put_le 8 e.start_seq ++ encode_entries es),
  length-append (put_le 8 e.start_seq) (encode_entries es),
  length-put_le 4 e.epoch,
  length-put_le 8 e.start_seq,
  length-encode es,
)

decode-encode :
    (es : List EpochEntry) → FitsWords es → decode_entries (length es) (encode_entries es) ≡ es
unfolding decode_entries encode_entries
decode-encode [] h = refl
decode-encode (e ∷ es) h = λ i.
    record {
      epoch = of_le-put_le 4 e.epoch h.0.0 i;
      start_seq = of_le-put_le 8 e.start_seq h.0.1 i;
    }
    ∷ decode-encode es h.1 i

insert_first :
    (e : EpochEntry) (es : List EpochEntry) → IsHistory (e ∷ es) → insert_entry e es ≡ e ∷ es
unfolding insert_entry
insert_first e [] h = refl
insert_first e (x ∷ es) h = ground (arith, h.1.0.0)

-- A well-formed history is in order already.
sort-IsHistory : (es : List EpochEntry) → IsHistory es → sort_entries es ≡ es
unfolding sort_entries
sort-IsHistory [] h = refl
sort-IsHistory (e ∷ es) h = ap (insert_entry e) (sort-IsHistory es h.2) ∙ insert_first e es h

count : (es : List EpochEntry) → length (encode_entries es) / epoch_entry_size ≡ length es
count es = omega (arith, length-encode es)

-- The file after a flush of this history.
abbrev pub file_of : List EpochEntry → Option (List ℕ)
file_of [] = none
file_of (e ∷ es) = some (encode_entries (e ∷ es))

-- After a flush that the disk took, loading the checkpoint file gives back the history, for a
-- well-formed history whose fields fit their widths.
pub open-flush :
    (c : EpochCache)
    → IsHistory c.entries
    → FitsWords c.entries
    → ((flush_locked true c).0 ≡ none)
      × ((open_epoch_cache (flush_locked true c).1.checkpoint).entries ≡ c.entries)
open-flush c h fits = go c.entries h fits (flushed c)
  where
    flushed :
        (c : EpochCache)
        → ((flush_locked true c).0 ≡ none)
          × ((flush_locked true c).1.checkpoint ≡ file_of c.entries)
    flushed c = unfold flush_locked in ground arith

    go :
        (es : List EpochEntry)
        → IsHistory es
        → FitsWords es
        → ((flush_locked true c).0 ≡ none) × ((flush_locked true c).1.checkpoint ≡ file_of es)
        → ((flush_locked true c).0 ≡ none)
          × ((open_epoch_cache (flush_locked true c).1.checkpoint).entries ≡ es)
    go [] h fits (done, file) = (done, rw file (unfold open_epoch_cache in refl))
    go (e ∷ es) h fits (done, file) = (
      done,
      rw file (
          unfold open_epoch_cache in
          (ap (λ n. sort_entries (decode_entries n (encode_entries (e ∷ es)))) (count (e ∷ es))
            ∙ ap sort_entries (decode-encode (e ∷ es) fits)
            ∙ sort-IsHistory (e ∷ es) h)),
    )
