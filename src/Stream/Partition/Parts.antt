-- ===== src/Stream/Partition/Parts.antt =====
-- What a read may leave out, and what one segment answers (internal/stream/partition.go).
use boltq.Prelude.{
  ℕ, zero, suc, ◌+◌, ◌-◌, ◌≤◌, ◌<◌, ◌≡◌, ◌⊎◌, refl, ap, List, [], ◌∷◌, ◌++◌, none, length, arith,
  false, true, ltb, leb, ◌&&◌, ◌||◌, ◌==◌, if◌then◌else◌, inl, inr, Bool-cases, keep_if,
}
use boltq.Stream.{Record}
use boltq.Stream.Codec.{body_len, encoded_size}
use boltq.Stream.Segment.{Segment}
use boltq.Stream.Segment.Frames.{Holds}
use boltq.Stream.Segment.Selected.{selected, read_exact}
use boltq.Stream.Partition.Reads.{sizes, read_segment}

-- The records at `from` or later.
abbrev pub later : ℕ → List Record → List Record
later from rs = keep_if (λ r. leb from r.seq) rs

abbrev bodies : List Record → ℕ
bodies [] = 0
bodies (r ∷ rs) = body_len r + bodies rs

bodies-le : (rs : List Record) → bodies rs ≤ sizes rs
unfolding encoded_size
bodies-le [] = omega arith
bodies-le (r ∷ rs) = omega (arith, bodies-le rs)

-- `out` begins what was there; `spent` bytes of it count against the budget. It stops before the end
-- only when there is no more room, or when the budget is used up.
pub record Part (room max_bytes bytes : ℕ) (spent : List Record → ℕ) (there out : List Record)
    : Type 0 where
  pub left : List Record
  pub split : there ≡ out ++ left
  pub few : length out ≤ room
  pub stop :
      (left ≡ []) ⊎ ((room ≤ length out) ⊎ ((0 < max_bytes) × (max_bytes ≤ bytes + spent out)))
  pub moves : 0 < room → 0 < length there → (max_bytes ≡ 0) ⊎ (bytes < max_bytes) → 0 < length out

selected-Part :
    (from room max_bytes bytes : ℕ) (rs : List Record)
    → Part room max_bytes bytes bodies (later from rs) (selected from room max_bytes bytes rs)
unfolding selected
selected-Part from room max_bytes bytes [] = record {
  left = [];
  split = refl;
  few = omega arith;
  stop = inl refl;
  moves = λ a b c. absurd (omega (arith, b));
}
selected-Part from zero max_bytes bytes (r ∷ rs) = record {
  left = later from (r ∷ rs);
  split = refl;
  few = omega arith;
  stop = inr (inl (omega arith));
  moves = λ a b c. absurd (omega (arith, a));
}
selected-Part from (suc room) max_bytes bytes (r ∷ rs) = elim (Bool-cases (ltb r.seq from)) [
  | inl early ↦
      let skip : leb from r.seq ≡ false = ground (arith, early) in
      rw (early, skip) (selected-Part from (suc room) max_bytes bytes rs)
  | inr late ↦
      let take_it : leb from r.seq ≡ true = ground (arith, late) in
      elim (Bool-cases (ltb 0 max_bytes && leb max_bytes (bytes + body_len r))) [
        | inl spent ↦
            rw (late, take_it, spent)
              (record {
                left = later from rs;
                split = refl;
                few = omega arith;
                stop = inr (inr (ground (arith, spent), ground (arith, spent)));
                moves = λ a b c. omega arith;
              })
        | inr more ↦
            let rest = selected-Part from room max_bytes (bytes + body_len r) rs in
            rw (late, take_it, more)
              (record {
                left = rest.left;
                split = ap (λ t. r ∷ t) rest.split;
                few = omega (arith, rest.few);
                stop = elim rest.stop [
                  | inl e ↦ inl e
                  | inr (inl e) ↦ inr (inl (omega (arith, e)))
                  | inr (inr e) ↦ inr (inr (e.0, omega (arith, e.1)))
                ];
                moves = λ a b c. omega arith;
              })
      ]
]

-- A round on one segment returns a part of what it holds from there on.
pub read_segment-Part :
    (s : Segment) (rs : List Record) (from room max_bytes bytes : ℕ)
    → Holds s rs
    → (out : List Record) × (read_segment true s from room max_bytes bytes ≡ (out, none))
      × Part room max_bytes bytes sizes (later from rs) out
read_segment-Part s rs from room max_bytes bytes h =
    elim (Bool-cases (room == 0 || ltb 0 max_bytes && leb max_bytes bytes)) [
      | inl over ↦ (
        [],
        rw over refl,
        record {
          left = later from rs;
          split = refl;
          few = omega arith;
          stop = inr (ground (arith, over));
          moves = λ a b c. absurd (ground (arith, over, a, b, c));
        },
      )
      | inr goes ↦
          let budget = if ltb 0 max_bytes then max_bytes - bytes else 0 in
          let out = selected from room budget 0 rs in
          let part = selected-Part from room budget 0 rs in
          (
            out,
            rw goes (read_exact s rs from room budget h),
            record {
              left = part.left;
              split = part.split;
              few = part.few;
              stop = elim part.stop [
                | inl e ↦ inl e
                | inr (inl e) ↦ inr (inl e)
                | inr (inr e) ↦
                    inr (inr (ground (arith, e, goes), ground (arith, e, goes, bodies-le out)))
              ];
              moves = λ a b c. part.moves a b (ground (arith, goes));
            },
          )
    ]
