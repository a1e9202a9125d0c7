-- ===== src/Exchange/Examples.antt =====
-- Runs of the routing rules, and their theorems at concrete exchanges.
use boltq.Prelude.{◌≡◌, refl, true, false, [], ◌∷◌, GoString, lit, str_eq, ◌↔◌, elem, string_eq}
use boltq.Exchange.{Exchange, Binding, topic, topic_match, route, split}
use boltq.Exchange.Topic.{Matches, topic_match_iff}
use boltq.Exchange.Route.{AllDifferent, Bound, route_exact}
use boltq.Exchange.Bindings.{OnePerKey}

abbrev binding : GoString → GoString → Binding
binding queue key = record {
  exchange = lit "events";
  queue = queue;
  binding_key = key;
  headers = [];
  match_all = false;
}

abbrev audit : Binding
audit = binding (lit "audit") (lit "#")

abbrev events : Exchange
events = record {
  name = lit "events";
  type = topic;
  durable = true;
  bindings = binding (lit "eu") (lit "order.*.eu") ∷ audit ∷ binding (lit "eu") (lit "#.eu") ∷ [];
}

patterns :
    (topic_match (lit "order.new.eu") (lit "order.*.eu") ≡ true)
    × (topic_match (lit "order.eu") (lit "order.*.eu") ≡ false)
    × (topic_match (lit "order.eu") (lit "order.#.eu") ≡ true)
    × (topic_match (lit "a.b.c.eu") (lit "#.eu") ≡ true)
    × (topic_match (lit "a.b.c.us") (lit "#.eu") ≡ false)
unfolding topic_match str_eq
patterns = (refl, refl, refl, refl, refl)

routes : route events (lit "order.new.eu") [] ≡ lit "eu" ∷ lit "audit" ∷ []
unfolding route str_eq
routes = refl

topic_match_iff_example :
    (topic_match (lit "order.eu") (lit "order.#") ≡ true)
    ↔ Matches (split b'.' (lit "order.#")) (split b'.' (lit "order.eu"))
topic_match_iff_example = topic_match_iff (lit "order.eu") (lit "order.#")

route_exact_example :
    ((q : GoString)
      → (elem q (route events (lit "order.new.eu") []) ≡ true)
        ↔ Bound topic (lit "order.new.eu") [] q events.bindings)
    × AllDifferent (route events (lit "order.new.eu") [])
route_exact_example = route_exact events (lit "order.new.eu") [] (tt, (tt, (tt, tt)))

events_distinct : OnePerKey events.bindings
unfolding str_eq
events_distinct = (refl, (refl, (refl, tt)))
