-- ===== src/Epoch/Examples.antt =====
-- Runs of the epoch history, and its theorems at a concrete one.
use boltq.Prelude.{ℕ, ◌≡◌, refl, true, [], ◌∷◌, none, arith}
use boltq.Epoch.{
  EpochEntry, last_entry, EpochCache, end_offset_for, epoch_for_seq, flush_locked, open_epoch_cache,
}
use boltq.Epoch.History.{IsHistory}
use boltq.Epoch.Lookup.{term_end, end_offset_for_exact}
use boltq.Epoch.Checkpoint.{open-flush}

abbrev term : ℕ → ℕ → EpochEntry
term epoch start_seq = record { epoch = epoch; start_seq = start_seq }

abbrev terms : EpochCache
terms = record { entries = term 1 0 ∷ term 3 10 ∷ term 5 25 ∷ []; checkpoint = none }

terms-IsHistory : IsHistory terms.entries
terms-IsHistory = omega arith

-- The latest epoch and any newer one end at the log's end.
queries :
    (end_offset_for terms 3 40 ≡ (3, 25))
    × (end_offset_for terms 4 40 ≡ (3, 25))
    × (end_offset_for terms 5 40 ≡ (5, 40))
    × (end_offset_for terms 9 40 ≡ (5, 40))
    × (epoch_for_seq terms 24 ≡ 3)
unfolding end_offset_for epoch_for_seq
queries = (refl, refl, refl, refl, refl)

end_offset_for_exact_example : end_offset_for terms 4 40 ≡ term_end 4 40 terms.entries
end_offset_for_exact_example =
    end_offset_for_exact terms 4 40 terms-IsHistory (unfold last_entry in omega arith)

open-flush_example :
    ((flush_locked true terms).0 ≡ none)
    × ((open_epoch_cache (flush_locked true terms).1.checkpoint).entries ≡ terms.entries)
open-flush_example = open-flush terms terms-IsHistory (omega arith)
