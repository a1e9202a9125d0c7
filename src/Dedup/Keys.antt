-- ===== src/Dedup/Keys.antt =====
-- The keys of the claim table: Key.String of internal/dedup/dedup.go.
use boltq.Prelude.{◌≡◌, ◌≢◌, refl, ap, [], ◌∷◌, ◌++◌, GoString, All}
use boltq.Prelude.Decimal.{split-at_zero}
use boltq.Dedup.{Key, key_string}

-- Two submissions whose senders hold no 0 byte share a claim only if sender and client ID agree:
-- users that choose the same client ID do not collide.
pub key_string-injective :
    (j k : Key)
    → All (λ c. c ≢ 0) j.sender
    → All (λ c. c ≢ 0) k.sender
    → key_string j ≡ key_string k
    → (j.sender ≡ k.sender) × (j.client_msg_id ≡ k.client_msg_id)
unfolding key_string
key_string-injective j k hj hk e =
    split-at_zero j.sender k.sender j.client_msg_id k.client_msg_id hj hk e

-- Senders that hold a 0 byte do collide: moving what follows the byte from the sender to the client
-- ID leaves the claim's key as it was.
pub key_string-collides :
    (a b c : GoString)
    → key_string (record { sender = a ++ 0 ∷ b; client_msg_id = c })
      ≡ key_string (record { sender = a; client_msg_id = b ++ 0 ∷ c })
unfolding key_string
key_string-collides [] b c = refl
key_string-collides (x ∷ a) b c = ap (λ s. x ∷ s) (key_string-collides a b c)
