-- ===== src/Protocol.antt =====
-- The message of the queue plane (pkg/protocol/message.go).
use boltq.Prelude.{ℕ, List, GoString}
use boltq.Prelude.Dict.{Dict}
use boltq.Prelude.Int.{ℤ}

pub record Message : Type 0 where
  pub id : GoString
  pub topic : GoString
  pub payload : List ℕ
  pub headers : Dict GoString GoString
  pub timestamp : ℤ
  pub retry : ℤ
  pub max_retry : ℤ
  pub delivery_count : ℤ
  pub delay : ℤ
  pub ttl : ℤ
  pub deliver_at : ℤ
  pub expires_at : ℤ
  pub priority : ℤ
  pub exchange : GoString
  pub routing_key : GoString
