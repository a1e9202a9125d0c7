-- ===== src/Stream/Segment/Seek.antt =====
-- Where a read or a cut starts to scan (internal/stream/segment.go, seekPos).
use boltq.Prelude.{
  ℕ, zero, suc, ◌+◌, ◌-◌, ◌≤◌, ◌<◌, ◌≡◌, ◌⊎◌, refl, sym, ap, ◌∙◌, List, [], ◌∷◌, ◌++◌, length, drop,
  drop-append, arith, All, Bool, ltb, ◌==◌, get_or, inl, inr, Bool-cases, take_all, take,
}
use boltq.Prelude.Search.{search, search_miss}
use boltq.Stream.{Record}
use boltq.Stream.Segment.{IndexEntry, Segment, seek_pos, no_index_entry}
use boltq.Stream.Segment.Frames.{frames, frames-append, Points, Holds}

All-get_or :
    (P : IndexEntry → Type 0) (es : List IndexEntry) (i : ℕ)
    → All P es
    → i < length es
    → P (get_or es i no_index_entry)
All-get_or P [] i all h = absurd (omega arith)
All-get_or P (e ∷ es) zero all h = all.0
All-get_or P (e ∷ es) (suc i) all h = All-get_or P es i all.1 (omega arith)

-- A position between two records, with none at `seq` or later before it.
pub record StartsAt (base : ℕ) (rs : List Record) (seq start : ℕ) : Type 0 where
  pub ahead : List Record
  pub behind : List Record
  pub split : rs ≡ ahead ++ behind
  pub position : start ≡ length (frames ahead)
  pub early : (length ahead ≡ 0) ⊎ (base + length ahead ≤ seq)

Points-StartsAt :
    (base seq : ℕ) (rs : List Record) (e : IndexEntry)
    → Points base rs e
    → e.seq ≤ seq
    → StartsAt base rs seq e.pos
Points-StartsAt base seq rs e p le = record {
  ahead = p.ahead;
  behind = p.behind;
  split = p.split;
  position = p.at_pos;
  early = inr (omega (arith, p.at_seq, le));
}

pub seek_pos-StartsAt :
    (s : Segment) (rs : List Record) (seq : ℕ)
    → Holds s rs
    → StartsAt s.base_seq rs seq (seek_pos s seq)
unfolding seek_pos
seek_pos-StartsAt s rs seq h =
    let f : ℕ → Bool = λ i. ltb seq (get_or s.index i no_index_entry).seq in
    let i = search (length s.index) f in
    elim (Bool-cases (i == 0)) [
      | inl none_left ↦
          rw none_left
            (record { ahead = []; behind = rs; split = refl; position = refl; early = inl refl })
      | inr found ↦
          let m = search_miss (length s.index) f (ground (arith, found)) in
          rw found (
            Points-StartsAt s.base_seq seq rs (get_or s.index (i - 1) no_index_entry)
              (All-get_or (Points s.base_seq rs) s.index (i - 1) h.index
                (ground (arith, m.0, found)))
              (ground (arith, m.1)))
    ]

-- What is left to scan from there.
pub scanned-frames :
    (s : Segment) (rs : List Record) (seq : ℕ)
    → Holds s rs
    → (st : StartsAt s.base_seq rs seq (seek_pos s seq))
    → drop (seek_pos s seq) (take s.size s.file) ≡ frames st.behind
scanned-frames s rs seq h st =
    let whole : take s.size s.file ≡ frames st.ahead ++ frames st.behind =
      rw (h.size, h.file) (take_all (frames rs))
      ∙ ap frames st.split
      ∙ frames-append st.ahead st.behind in
    rw whole (drop-append (seek_pos s seq) (frames st.ahead) (frames st.behind) (sym st.position))
