-- ===== src/Priority/Insert.antt =====
-- `Push` on the priority queue, and the loops that read all its levels.
use boltq.Prelude.{
  ℕ, zero, suc, ◌+◌, ◌^◌, ◌≤◌, ◌<◌, ◌≡◌, refl, ap, ◌∙◌, ◌⊎◌, inl, inr, true, false, some, List, [],
  ◌∷◌, ◌++◌, arith, length, get_or, length-append,
}
use boltq.Prelude.Int.{ℤ, pos, negsuc}
use boltq.Protocol.{Message}
use boltq.Queue
use boltq.Queue.{Queue}
use boltq.Queue.Push.{push_internal-Represents}
use boltq.Queue.Scan.{drain-Represents}
use boltq.Priority.{
  PriorityQueue, clamp_priority, push, push_level, drain, drain_levels, num_priority_levels,
}
use boltq.Priority.Order.{Holds, contents, PriorityHolds}

-- A message at the end of one level.
abbrev pub add_at : ℕ → Message → List (List Message) → List (List Message)
add_at i m [] = []
add_at zero m (xs ∷ xss) = (xs ++ m ∷ []) ∷ xss
add_at (suc i) m (xs ∷ xss) = xs ∷ add_at i m xss

abbrev PushesLevel : ℕ → Message → ℕ → List Queue → List (List Message) → Type 0
PushesLevel k m i qs xss =
    ((2 ^ k ≤ length (get_or xss i [])) × (push_level m i qs ≡ some (false, qs)))
    ⊎ ((qs' : List Queue) × (length (get_or xss i []) < 2 ^ k)
        × (push_level m i qs ≡ some (true, qs'))
        × (length qs' ≡ length qs)
        × Holds k qs' (add_at i m xss))

push_level-Holds :
    (k i : ℕ) (m : Message) (qs : List Queue) (xss : List (List Message))
    → i < length qs
    → Holds k qs xss
    → PushesLevel k m i qs xss
unfolding push_level
push_level-Holds k i m [] xss h held = absurd (omega arith)
push_level-Holds k i m (q ∷ qs) [] h held = absurd held
push_level-Holds k zero m (q ∷ qs) (xs ∷ xss) h (rep, held) =
    elim (push_internal-Represents k q xs rep m) [
      | inl (full, e) ↦ inl (full, rw e)
      | inr (room, done, rep') ↦ inr (
        (Queue.push_internal q m).1 ∷ qs,
        room,
        ap (λ d. some (d, (Queue.push_internal q m).1 ∷ qs)) done,
        refl,
        (rep', held),
      )
    ]
push_level-Holds k (suc i) m (q ∷ qs) (xs ∷ xss) h (rep, held) =
    elim (push_level-Holds k i m qs xss (omega arith) held) [
      | inl (full, e) ↦ inl (full, rw e)
      | inr (qs', room, e, same, held') ↦ inr (q ∷ qs', room, rw e, ap suc same, (rep, held'))
    ]

pub clamp-in-range : (p : ℤ) → clamp_priority p < num_priority_levels
unfolding clamp_priority
clamp-in-range (pos n) = ground arith
clamp-in-range (negsuc n) = omega arith

pub length-Holds :
    (k : ℕ) (qs : List Queue) (xss : List (List Message)) → Holds k qs xss → length qs ≡ length xss
length-Holds k [] [] h = refl
length-Holds k [] (xs ∷ xss) h = absurd h
length-Holds k (q ∷ qs) [] h = absurd h
length-Holds k (q ∷ qs) (xs ∷ xss) h = ap suc (length-Holds k qs xss h.1)

length-contents-add_at :
    (i : ℕ) (m : Message) (xss : List (List Message))
    → i < length xss
    → length (contents (add_at i m xss)) ≡ length (contents xss) + 1
length-contents-add_at i m [] h = absurd (omega arith)
length-contents-add_at zero m (xs ∷ xss) h = omega (
  arith,
  length-append (contents xss) (xs ++ m ∷ []),
  length-append xs (m ∷ []),
  length-append (contents xss) xs,
)
length-contents-add_at (suc i) m (xs ∷ xss) h = omega (
  arith,
  length-append (contents (add_at i m xss)) xs,
  length-append (contents xss) xs,
  length-contents-add_at i m xss (omega arith),
)

drain_levels-Holds :
    (k : ℕ) (qs : List Queue) (xss : List (List Message))
    → Holds k qs xss
    → drain_levels qs ≡ contents xss
unfolding drain_levels
drain_levels-Holds k [] [] h = refl
drain_levels-Holds k [] (xs ∷ xss) h = absurd h
drain_levels-Holds k (q ∷ qs) [] h = absurd h
drain_levels-Holds k (q ∷ qs) (xs ∷ xss) (rep, held) =
    rw (drain_levels-Holds k qs xss held, drain-Represents k q xs rep)

module _ (k : ℕ) (pq : PriorityQueue) (xss : List (List Message)) (h : PriorityHolds k pq xss) where
  abbrev pub PushesPriority : Message → Type 0
  PushesPriority m =
      let level = clamp_priority m.priority in
      ((2 ^ k ≤ length (get_or xss level [])) × (push pq m ≡ some (false, pq)))
      ⊎ ((pq' : PriorityQueue) × (length (get_or xss level []) < 2 ^ k)
          × (push pq m ≡ some (true, pq'))
          × PriorityHolds k pq' (add_at level m xss))

  -- Where the ten rings represent ten lists, `Push` never indexes past them; it refuses a message
  -- whose level is full and changes nothing, and otherwise puts it behind the other messages of
  -- its clamped priority.
  pub push_at_level : (m : Message) → PushesPriority m
  unfolding push
  push_at_level m =
      let level = clamp_priority m.priority in
      let inside : level < length pq.levels = omega (arith, clamp-in-range m.priority, h.ten) in
      elim (push_level-Holds k level m pq.levels xss inside h.levels) [
        | inl (full, e) ↦ inl (full, rw (e, push))
        | inr (qs', room, e, same, held') ↦ inr (
          record pq { levels = qs'; size = pq.size + 1 },
          room,
          rw (e, push),
          record {
            ten = same ∙ h.ten;
            levels = held';
            sized = omega (
              arith,
              h.sized,
              length-Holds k pq.levels xss h.levels,
              length-contents-add_at level m xss,
            );
          },
        )
      ]

  -- Where the ten rings represent ten lists, `Drain` lists the messages in the order in which
  -- `TryPop` would return them.
  pub drain_in_order : drain pq ≡ contents xss
  unfolding drain
  drain_in_order = drain_levels-Holds k pq.levels xss h.levels
