-- ===== src/Exchange/Topic.antt =====
-- Topic patterns (`topicMatch`, `matchParts`): the matcher decides the documented relation.
use boltq.Prelude.{
  ◌≡◌, refl, Bool, true, List, [], ◌∷◌, arith, GoString, str_eq, str_eq_iff, ◌↔◌, Bool-cases, inl,
  inr, ◌⊎◌,
}
use boltq.Exchange.{hash, star, any_suffix, match_word, match_parts, split, topic_match}

-- '*' matches exactly one word, '#' zero or more words, and any other word itself.
pub data Matches : List GoString → List GoString → Type 0 where
  done : Matches [] []
  same :
      {p w : GoString} {ps ws : List GoString} → p ≡ w → Matches ps ws → Matches (p ∷ ps) (w ∷ ws)
  one :
      {p w : GoString} {ps ws : List GoString}
      → p ≡ star
      → Matches ps ws
      → Matches (p ∷ ps) (w ∷ ws)
  skip : {p : GoString} {ps ws : List GoString} → p ≡ hash → Matches ps ws → Matches (p ∷ ps) ws
  more :
      {p w : GoString} {ps ws : List GoString}
      → p ≡ hash
      → Matches (p ∷ ps) ws
      → Matches (p ∷ ps) (w ∷ ws)

match_word_sound :
    (p : GoString) (f : List GoString → Bool) (ps ws : List GoString)
    → ((t : List GoString) → f t ≡ true → Matches ps t)
    → match_word p f ws ≡ true
    → Matches (p ∷ ps) ws
unfolding match_word
match_word_sound p f ps [] sound h = cc
match_word_sound p f ps (w ∷ ws) sound h = elim (Bool-cases (str_eq p star)) [
  | inl wild ↦ one ((str_eq_iff p star).0 wild) (sound ws (ground (arith, wild)))
  | inr plain ↦ elim (Bool-cases (str_eq p w)) [
    | inl equal ↦ same ((str_eq_iff p w).0 equal) (sound ws (ground (arith, plain, equal)))
    | inr differs ↦ absurd (ground (arith, plain, differs))
  ]
]

any_suffix_sound :
    (p : GoString) (f : List GoString → Bool) (ps ws : List GoString)
    → p ≡ hash
    → ((t : List GoString) → f t ≡ true → Matches ps t)
    → any_suffix f ws ≡ true
    → Matches (p ∷ ps) ws
unfolding any_suffix
any_suffix_sound p f ps [] e sound h = skip e (sound [] h)
any_suffix_sound p f ps (w ∷ ws) e sound h = elim (Bool-cases (f (w ∷ ws))) [
  | inl here ↦ skip e (sound (w ∷ ws) here)
  | inr later ↦ more e (any_suffix_sound p f ps ws e sound (ground (arith, later)))
]

-- A trailing '#' takes every list of words.
hash_all : (p : GoString) (ws : List GoString) → p ≡ hash → Matches (p ∷ []) ws
hash_all p [] e = skip e done
hash_all p (w ∷ ws) e = more e (hash_all p ws e)

match_parts_sound : (ps ws : List GoString) → match_parts ws ps ≡ true → Matches ps ws
unfolding match_parts
match_parts_sound [] [] h = done
match_parts_sound [] (w ∷ ws) h = cc
match_parts_sound (p ∷ []) ws h = elim (Bool-cases (str_eq p hash)) [
  | inl any ↦ hash_all p ws ((str_eq_iff p hash).0 any)
  | inr word ↦
      match_word_sound p (λ t. match_parts t []) [] ws (λ t. match_parts_sound [] t)
        (ground (arith, word))
]
match_parts_sound (p ∷ p' ∷ ps) ws h = elim (Bool-cases (str_eq p hash)) [
  | inl any ↦
      any_suffix_sound p (λ t. match_parts t (p' ∷ ps)) (p' ∷ ps) ws ((str_eq_iff p hash).0 any)
        (λ t. match_parts_sound (p' ∷ ps) t) (ground (arith, any))
  | inr word ↦
      match_word_sound p (λ t. match_parts t (p' ∷ ps)) (p' ∷ ps) ws
        (λ t. match_parts_sound (p' ∷ ps) t) (ground (arith, word))
]

any_suffix_here :
    (f : List GoString → Bool) (ws : List GoString) → f ws ≡ true → any_suffix f ws ≡ true
unfolding any_suffix
any_suffix_here f [] h = h
any_suffix_here f (w ∷ ws) h = rw h

-- A word of the pattern that is '*' or the word itself goes on with the rest, whether or not the
-- pattern's word is '#'.
match_parts_step :
    (p w : GoString) (ps ws : List GoString)
    → (p ≡ star) ⊎ (p ≡ w)
    → match_parts ws ps ≡ true
    → match_parts (w ∷ ws) (p ∷ ps) ≡ true
unfolding match_parts
match_parts_step p w [] ws h rest = ground (arith, str_eq_iff p star, str_eq_iff p w)
match_parts_step p w (p' ∷ ps) ws h rest = ground (
  arith,
  str_eq_iff p star,
  str_eq_iff p w,
  any_suffix_here (λ t. match_parts t (p' ∷ ps)) ws rest,
)

match_parts_skip :
    (p : GoString) (ps ws : List GoString)
    → p ≡ hash
    → match_parts ws ps ≡ true
    → match_parts ws (p ∷ ps) ≡ true
unfolding match_parts
match_parts_skip p [] ws e h = rw ((str_eq_iff p hash).1 e)
match_parts_skip p (p' ∷ ps) ws e h =
    rw ((str_eq_iff p hash).1 e) (any_suffix_here (λ t. match_parts t (p' ∷ ps)) ws h)

match_parts_more :
    (p w : GoString) (ps ws : List GoString)
    → p ≡ hash
    → match_parts ws (p ∷ ps) ≡ true
    → match_parts (w ∷ ws) (p ∷ ps) ≡ true
unfolding match_parts
match_parts_more p w [] ws e h = rw ((str_eq_iff p hash).1 e)
match_parts_more p w (p' ∷ ps) ws e h = ground (arith, str_eq_iff p hash)

match_parts_complete : {ps ws : List GoString} → Matches ps ws → match_parts ws ps ≡ true
match_parts_complete done = unfold match_parts in refl
match_parts_complete (same {p} {w} {ps} {ws} e m) =
    match_parts_step p w ps ws (inr e) (match_parts_complete m)
match_parts_complete (one {p} {w} {ps} {ws} e m) =
    match_parts_step p w ps ws (inl e) (match_parts_complete m)
match_parts_complete (skip {p} {ps} {ws} e m) = match_parts_skip p ps ws e (match_parts_complete m)
match_parts_complete (more {p} {w} {ps} {ws} e m) =
    match_parts_more p w ps ws e (match_parts_complete m)

-- A routing key matches a binding pattern exactly when the dot-separated words of the one match
-- the words of the other, where '*' stands for one word and '#' for any number of words.
pub topic_match_iff :
    (routing_key pattern : GoString)
    → (topic_match routing_key pattern ≡ true)
      ↔ Matches (split b'.' pattern) (split b'.' routing_key)
unfolding topic_match
topic_match_iff routing_key pattern =
    (match_parts_sound (split b'.' pattern) (split b'.' routing_key), λ m. match_parts_complete m)
