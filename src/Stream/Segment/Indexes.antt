-- ===== src/Stream/Segment/Indexes.antt =====
-- The index of a segment, read back and trimmed (internal/stream/segment.go).
use boltq.Prelude.{
  ℕ, suc, ◌*◌, ◌/◌, ◌≤◌, ◌<◌, ◌≡◌, refl, ap, ◌∙◌, List, [], ◌∷◌, ◌++◌, length, length-append, arith,
  All, All-mono, ltb, inl, inr, Bool-cases, take, drop, take-append, drop-append,
}
use boltq.Prelude.Words.{u64}
use boltq.Prelude.Bytes.{put_le, of_le-put_le, length-put_le, append_assoc}
use boltq.Stream.Segment.{IndexEntry, encode_entry, encode_index, decode_index, load_index}
use boltq.Stream.Segment.Frames.{Ascending}
use boltq.Stream.Segment.Recovery.{trim_index, trim_head, last_or}

-- An entry as its sixteen bytes hold it.
abbrev pub FitsEntry : IndexEntry → Type 0
FitsEntry e = (e.seq < u64) × (e.pos < u64)

length-encode_entry : (e : IndexEntry) → length (encode_entry e) ≡ 16
unfolding encode_entry
length-encode_entry e = omega (
  arith,
  length-append (put_le 8 e.seq) (put_le 8 e.pos),
  length-put_le 8 e.seq,
  length-put_le 8 e.pos,
)

length-encode_index : (es : List IndexEntry) → length (encode_index es) ≡ 16 * length es
unfolding encode_index
length-encode_index [] = refl
length-encode_index (e ∷ es) = omega (
  arith,
  length-append (encode_entry e) (encode_index es),
  length-encode_entry e,
  length-encode_index es,
)

decode_index-entry :
    (n : ℕ) (e : IndexEntry) (rest : List ℕ)
    → FitsEntry e
    → decode_index (suc n) (encode_entry e ++ rest) ≡ e ∷ decode_index n rest
unfolding decode_index encode_entry
decode_index-entry n e rest fits =
    let a = put_le 8 e.seq in
    let b = put_le 8 e.pos in
    let la = length-put_le 8 e.seq in
    let lb = length-put_le 8 e.pos in
    let assoc = append_assoc a b rest in
    let front : take 8 ((a ++ b) ++ rest) ≡ a = rw assoc (take-append 8 a (b ++ rest) la) in
    let next : take 8 (drop 8 ((a ++ b) ++ rest)) ≡ b =
      rw (assoc, drop-append 8 a (b ++ rest) la) (take-append 8 b rest lb) in
    let after : drop 16 ((a ++ b) ++ rest) ≡ rest =
      drop-append 16 (a ++ b) rest (omega (arith, la, lb, length-append a b)) in
    rw (front, next, after, of_le-put_le 8 e.seq fits.0, of_le-put_le 8 e.pos fits.1) refl

decode_index-encode :
    (es : List IndexEntry) → All FitsEntry es → decode_index (length es) (encode_index es) ≡ es
unfolding encode_index
decode_index-encode [] fits = unfold decode_index in refl
decode_index-encode (e ∷ es) fits =
    decode_index-entry (length es) e (encode_index es) fits.0
    ∙ ap (λ t. e ∷ t) (decode_index-encode es fits.1)

pub load_index-encode :
    (es : List IndexEntry) → All FitsEntry es → load_index (encode_index es) ≡ es
unfolding load_index
load_index-encode es fits =
    let n : length (encode_index es) / 16 ≡ length es = omega (arith, length-encode_index es) in
    rw n (decode_index-encode es fits)

-- What a trimmed index keeps it had before,
trim_head-All :
    (P : IndexEntry → Type 0) (size : ℕ) (e : IndexEntry) (r : List IndexEntry)
    → P e
    → All P r
    → All P (trim_head size e r)
trim_head-All P size e [] p all = elim (Bool-cases (ltb e.pos size)) [
  | inl q ↦ rw q (p, tt)
  | inr q ↦ rw q tt
]
trim_head-All P size e (x ∷ xs) p all = (p, all)

pub trim_index-All :
    (P : IndexEntry → Type 0) (size : ℕ) (es : List IndexEntry)
    → All P es
    → All P (trim_index size es)
unfolding trim_index
trim_index-All P size [] all = all
trim_index-All P size (e ∷ es) all =
    trim_head-All P size e (trim_index size es) all.0 (trim_index-All P size es all.1)

-- and it lies within the file.
trim_head-below :
    (size : ℕ) (e : IndexEntry) (r : List IndexEntry)
    → All (λ x. e.pos ≤ x.pos) r
    → All (λ x. x.pos < size) r
    → All (λ x. x.pos < size) (trim_head size e r)
trim_head-below size e [] le below = elim (Bool-cases (ltb e.pos size)) [
  | inl q ↦ rw q (ground (arith, q), tt)
  | inr q ↦ rw q tt
]
trim_head-below size e (x ∷ xs) le below = (omega (arith, le.0, below.0), below)

pub trim_index-below :
    (size : ℕ) (es : List IndexEntry) → Ascending es → All (λ x. x.pos < size) (trim_index size es)
unfolding trim_index
trim_index-below size [] up = tt
trim_index-below size (e ∷ es) up =
    trim_head-below size e (trim_index size es)
      (All-mono (trim_index size es) (λ x q. q.0)
        (trim_index-All (λ x. (e.pos ≤ x.pos) × (e.seq ≤ x.seq)) size es up.0))
      (trim_index-below size es up.1)

trim_head-Ascending :
    (size : ℕ) (e : IndexEntry) (r : List IndexEntry)
    → All (λ x. (e.pos ≤ x.pos) × (e.seq ≤ x.seq)) r
    → Ascending r
    → Ascending (trim_head size e r)
trim_head-Ascending size e [] le up = elim (Bool-cases (ltb e.pos size)) [
  | inl q ↦ rw q (tt, tt)
  | inr q ↦ rw q tt
]
trim_head-Ascending size e (x ∷ xs) le up = (le, up)

pub trim_index-Ascending :
    (size : ℕ) (es : List IndexEntry) → Ascending es → Ascending (trim_index size es)
unfolding trim_index
trim_index-Ascending size [] up = tt
trim_index-Ascending size (e ∷ es) up =
    trim_head-Ascending size e (trim_index size es)
      (trim_index-All (λ x. (e.pos ≤ x.pos) × (e.seq ≤ x.seq)) size es up.0)
      (trim_index-Ascending size es up.1)

pub All-last_or :
    (P : IndexEntry → Type 0) (es : List IndexEntry) (e : IndexEntry)
    → P e
    → All P es
    → P (last_or es e)
All-last_or P [] e p all = p
All-last_or P (x ∷ xs) e p all = All-last_or P xs x all.0 all.1
