-- ===== src/Broker/Exchanging.antt =====
-- The exchanges of a broker (internal/broker/broker.go, the methods on exchanges and bindings). The
-- metadata that the storage keeps of them is left out: its errors are not looked at.
use boltq.Prelude.{
  Bool, true, false, List, [], ◌∷◌, ◌++◌, Option, none, some, if◌then◌else◌, GoString, str_eq,
  string_eq,
}
use boltq.Prelude.Int.{ℤ}
use boltq.Prelude.Dict.{get, put, remove, maybe}
use boltq.Protocol.{Message}
use boltq.Exchange.{
  Exchange, ExchangeType, Binding, direct, fanout, topic, headers, other, unbind, route,
}
use boltq.Broker.{
  MessageQueue, Broker, BrokerError, exchange_not_found, exchange_differs, default_exchange,
  queue_of, with_queue, publish,
}

abbrev pub same_type : ExchangeType → ExchangeType → Bool
same_type direct direct = true
same_type fanout fanout = true
same_type topic topic = true
same_type headers headers = true
same_type (other s) (other t) = str_eq s t
same_type _ _ = false

abbrev with_binding : Exchange → Binding → Exchange
with_binding e b = record e { bindings = e.bindings ++ b ∷ [] }

abbrev pub addressed : Message → GoString → GoString → Message
addressed msg exchange key = record msg { exchange = exchange; routing_key = key }

module _ {Q D : Type 0} ⦃queue : MessageQueue Q⦄ ⦃dead : MessageQueue D⦄ where
  unfoldable pub exchange_declare :
      Broker Q D → GoString → ExchangeType → Bool → Option BrokerError × Broker Q D
  exchange_declare b name type durable =
      maybe
        (
          none,
          record b {
            exchanges =
                put b.exchanges name
                  (record { name = name; type = type; durable = durable; bindings = [] });
          },
        )
        (λ (e : Exchange). ((if same_type e.type type then none else some exchange_differs), b))
        (get b.exchanges name)

  unfoldable pub exchange_delete : Broker Q D → GoString → Option BrokerError × Broker Q D
  exchange_delete b [] = (some default_exchange, b)
  exchange_delete b (c ∷ name) =
      maybe (some exchange_not_found, b)
        (λ (e : Exchange). (none, record b { exchanges = remove b.exchanges (c ∷ name) }))
        (get b.exchanges (c ∷ name))

  -- The queue is made if it is not there yet.
  unfoldable pub bind_queue : Broker Q D → Binding → Option BrokerError × Broker Q D
  bind_queue b binding =
      maybe (some exchange_not_found, b)
        (λ (e : Exchange). (
          none,
          with_queue
              (record b { exchanges = put b.exchanges binding.exchange (with_binding e binding) })
              binding.queue (queue_of b binding.queue),
        ))
        (get b.exchanges binding.exchange)

  -- The removal of the first binding of the queue and key is that of `Exchange.Unbind`.
  unfoldable pub unbind_queue :
      Broker Q D → GoString → GoString → GoString → Option BrokerError × Broker Q D
  unbind_queue b exchange queue_name key =
      maybe (some exchange_not_found, b)
        (λ (e : Exchange).
          (none, record b { exchanges = put b.exchanges exchange (unbind e queue_name key) }))
        (get b.exchanges exchange)

  -- A clone for each queue, under an ID of its own; `ids` are those that GenerateID gives, `disk`
  -- whether the storage takes each.
  unfoldable pub publish_each :
      Bool
      → Bool
      → ℤ
      → Broker Q D
      → List GoString
      → List GoString
      → Message
      → Option BrokerError × Broker Q D
  unfolding publish
  publish_each disk spill now b [] ids msg = (none, b)
  publish_each disk spill now b (name ∷ names) [] msg = (none, b)
  publish_each disk spill now b (name ∷ names) (id ∷ ids) msg =
      let (e, next) = publish disk spill now b name (record msg { id = id; topic = name }) in
      let rest = publish_each disk spill now next names ids msg in
      maybe rest (λ error. (some error, next)) e

  abbrev pub routed :
      Bool
      → Bool
      → ℤ
      → Broker Q D
      → GoString
      → GoString
      → List GoString
      → Message
      → Exchange
      → Option BrokerError × Broker Q D
  routed disk spill now b [] key ids msg e = publish disk spill now b key (addressed msg [] key)
  routed disk spill now b (c ∷ name) key ids msg e =
      publish_each disk spill now b (route e key msg.headers) ids (addressed msg (c ∷ name) key)

  -- The IDs are as many as the queues that the exchange routes to.
  unfoldable pub publish_exchange :
      Bool
      → Bool
      → ℤ
      → Broker Q D
      → GoString
      → GoString
      → List GoString
      → Message
      → Option BrokerError × Broker Q D
  unfolding publish_each
  publish_exchange disk spill now b exchange key ids msg =
      maybe (some exchange_not_found, b) (routed disk spill now b exchange key ids msg)
        (get b.exchanges exchange)
