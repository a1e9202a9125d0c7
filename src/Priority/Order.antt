-- ===== src/Priority/Order.antt =====
-- The order of the priority queue: a higher level goes first, and a level is first in first out.
use boltq.Prelude.{
  ℕ, suc, ◌-◌, ◌≡◌, refl, ap, ◌∙◌, ◌⊎◌, inl, inr, true, false, Option, none, some, List, [], ◌∷◌,
  ◌++◌, arith, length, ltb, ◌==◌,
}
use boltq.Protocol.{Message}
use boltq.Queue.{Queue}
use boltq.Queue.Represents.{Represents}
use boltq.Queue.Take.{taken_from_cons}
use boltq.Priority.{PriorityQueue, pop_levels, pop_level, try_pop, num_priority_levels, settle}

-- Each level represents a list of messages, in a ring of 2^k slots.
abbrev pub Holds : ℕ → List Queue → List (List Message) → Type 0
Holds k [] [] = Unit
Holds k (q ∷ qs) (xs ∷ xss) = Represents k q xs × Holds k qs xss
Holds k _ _ = ⊥

-- The messages of all levels in the order of their delivery.
abbrev pub contents : List (List Message) → List Message
contents [] = []
contents (xs ∷ xss) = contents xss ++ xs

abbrev pub PopsLevels : ℕ → List Queue → List (List Message) → Type 0
PopsLevels k qs xss =
    ((contents xss ≡ []) × (pop_levels qs ≡ (none, qs)))
    ⊎ ((m : Message) × (xss' : List (List Message)) × ((pop_levels qs).0 ≡ some m)
        × Holds k (pop_levels qs).1 xss'
        × (contents xss ≡ m ∷ contents xss'))

-- One level under levels that are empty.
pop_level_empty :
    (k : ℕ) (q : Queue) (qs : List Queue) (xs : List Message) (xss : List (List Message))
    → Represents k q xs
    → Holds k qs xss
    → contents xss ≡ []
    → pop_levels qs ≡ (none, qs)
    → PopsLevels k (q ∷ qs) (xs ∷ xss)
unfolding pop_levels
pop_level_empty k q qs [] xss rep held empty above =
    inl (rw empty, rw above (ground (arith, rep.sized)))
pop_level_empty k q qs (m ∷ rest) xss rep held empty above =
    let (out, rep') = taken_from_cons k q m rest rep in
    let some_held : ltb 0 q.size ≡ true = ground (arith, rep.sized) in
    inr (m, rest ∷ xss, rw (above, some_held) out, rw (above, some_held) (rep', held), rw empty)

pop_level_above :
    (q : Queue) (r : Option Message × List Queue) (m : Message)
    → r.0 ≡ some m
    → pop_level q r ≡ (some m, q ∷ r.1)
unfolding pop_level
pop_level_above q (none, qs) m e = cc
pop_level_above q (some m', qs) m e = cc

pop_levels-Holds :
    (k : ℕ) (qs : List Queue) (xss : List (List Message)) → Holds k qs xss → PopsLevels k qs xss
unfolding pop_levels
pop_levels-Holds k [] [] h = inl (refl, refl)
pop_levels-Holds k [] (xs ∷ xss) h = absurd h
pop_levels-Holds k (q ∷ qs) [] h = absurd h
pop_levels-Holds k (q ∷ qs) (xs ∷ xss) (rep, held) = elim (pop_levels-Holds k qs xss held) [
  | inl (empty, above) ↦ pop_level_empty k q qs xs xss rep held empty above
  | inr (m, xss', out, held', order) ↦
      let step : pop_level q (pop_levels qs) ≡ (some m, q ∷ (pop_levels qs).1) =
        pop_level_above q (pop_levels qs) m out in
      inr (m, xs ∷ xss', rw step, rw step (rep, held'), rw order)
]

-- Ten levels of one capacity, and the count of their messages.
pub record PriorityHolds (k : ℕ) (pq : PriorityQueue) (xss : List (List Message)) : Type 0 where
  pub ten : length pq.levels ≡ num_priority_levels
  pub levels : Holds k pq.levels xss
  pub sized : pq.size ≡ length (contents xss)

settle-some :
    (pq : PriorityQueue) (r : Option Message × List Queue) (m : Message)
    → r.0 ≡ some m
    → settle pq r ≡ (some m, record pq { levels = r.1; size = pq.size - 1 })
unfolding settle
settle-some pq (none, qs) m e = cc
settle-some pq (some m', qs) m e = cc

length-pop_levels : (qs : List Queue) → length (pop_levels qs).1 ≡ length qs
unfolding pop_levels
length-pop_levels [] = refl
length-pop_levels (q ∷ qs) = step (pop_levels qs) (length-pop_levels qs)
  where
    step :
        (r : Option Message × List Queue)
        → length r.1 ≡ length qs
        → length (pop_level q r).1 ≡ suc (length qs)
    step (none, rest) e = ground arith
    step (some m, rest) e = ground arith

abbrev pub PopsHighest :
    ℕ → PriorityQueue → List (List Message) → Option Message × PriorityQueue → Type 0
PopsHighest k pq xss r =
    ((contents xss ≡ []) × (r ≡ (none, pq)))
    ⊎ ((m : Message) × (xss' : List (List Message)) × (r.0 ≡ some m)
        × PriorityHolds k r.1 xss'
        × (contents xss ≡ m ∷ contents xss'))

module _ (k : ℕ) (pq : PriorityQueue) (xss : List (List Message)) (h : PriorityHolds k pq xss) where
  -- Where the ten rings represent ten lists, `TryPop` returns nil and changes nothing when no
  -- level holds a message; else it returns the first message in the order of delivery, highest
  -- level first, and leaves the others in order.
  pub try_pop_highest : PopsHighest k pq xss (try_pop pq)
  unfolding try_pop
  try_pop_highest = elim (pop_levels-Holds k pq.levels xss h.levels) [
    | inl (empty, _) ↦ inl (empty, ground (arith, h.sized, ap length empty))
    | inr (m, xss', out, held', order) ↦
        let some_held : (pq.size == 0) ≡ false = ground (arith, h.sized, ap length order) in
        let settled = settle-some pq (pop_levels pq.levels) m out in
        inr (
          m,
          xss',
          rw (some_held, settled),
          rw (some_held, settled)
              (record {
                ten = length-pop_levels pq.levels ∙ h.ten;
                levels = held';
                sized = omega (arith, h.sized, ap length order);
              }),
          order,
        )
  ]
