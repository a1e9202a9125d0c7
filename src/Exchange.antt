-- ===== src/Exchange.antt =====
-- Exchanges and their routing rules (internal/broker/exchange.go).
pub mod Topic
pub mod Route
pub mod Bindings
pub mod Examples
use boltq.Prelude.{
  ℕ, Bool, true, false, ◌&&◌, not, List, [], ◌∷◌, Option, none, some, ◌==◌, if◌then◌else◌, GoString,
  lit, str_eq, elem, string_eq,
}
use boltq.Prelude.Dict.{Dict, get}

-- `ExchangeType` is a string; `other` is any but the four that the source names.
pub data ExchangeType : Type 0 where
  direct fanout topic headers : ExchangeType
  other : GoString → ExchangeType

pub record Binding : Type 0 where
  pub exchange : GoString
  pub queue : GoString
  pub binding_key : GoString
  pub headers : Dict GoString GoString
  pub match_all : Bool

pub record Exchange : Type 0 where
  pub name : GoString
  pub type : ExchangeType
  pub durable : Bool
  pub bindings : List Binding

unfoldable pub same_binding : GoString → GoString → Binding → Bool
same_binding queue key b = str_eq b.queue queue && str_eq b.binding_key key

-- The first binding of the queue and key gives way to `b`; without one, `b` goes to the end.
bind_into : Binding → List Binding → List Binding
unfolding same_binding
bind_into b [] = b ∷ []
bind_into b (existing ∷ bs) =
    let rest = bind_into b bs in
    if same_binding b.queue b.binding_key existing then b ∷ bs else existing ∷ rest

pub bind : Exchange → Binding → Exchange
unfolding bind_into
bind e b = record e { bindings = bind_into b e.bindings }

unbind_from : GoString → GoString → List Binding → List Binding
unfolding same_binding
unbind_from queue key [] = []
unbind_from queue key (b ∷ bs) =
    let rest = unbind_from queue key bs in if same_binding queue key b then bs else b ∷ rest

pub unbind : Exchange → GoString → GoString → Exchange
unfolding unbind_from
unbind e queue key = record e { bindings = unbind_from queue key e.bindings }

-- strings.Split(s, ".") at one separator byte
cons_head : ℕ → List GoString → List GoString
cons_head c [] = (c ∷ []) ∷ []
cons_head c (w ∷ ws) = (c ∷ w) ∷ ws

unfoldable pub split : ℕ → GoString → List GoString
unfolding cons_head
split sep [] = [] ∷ []
split sep (c ∷ s) = let rest = split sep s in if c == sep then [] ∷ rest else cons_head c rest

abbrev pub hash : GoString
hash = lit "#"

abbrev pub star : GoString
star = lit "*"

-- for ri <= len(rParts) { if match(ri) { return true }; ri++ }
unfoldable pub any_suffix : (List GoString → Bool) → List GoString → Bool
any_suffix f [] = f []
any_suffix f (w ∷ ws) = let rest = any_suffix f ws in if f (w ∷ ws) then true else rest

-- One pattern word that is not "#", and the rest of the pattern as a test on the words behind it.
match_word : GoString → (List GoString → Bool) → List GoString → Bool
match_word p rest [] = false
match_word p rest (w ∷ ws) = if not (str_eq p star) && not (str_eq p w) then false else rest ws

-- The arguments are rParts[ri:] and pParts[pi:].
unfoldable pub match_parts : List GoString → List GoString → Bool
unfolding any_suffix match_word
match_parts [] [] = true
match_parts (w ∷ ws) [] = false
match_parts ws (p ∷ []) = if str_eq p hash then true else match_word p (λ t. match_parts t []) ws
match_parts ws (p ∷ p' ∷ ps) =
    if str_eq p hash
    then any_suffix (λ t. match_parts t (p' ∷ ps)) ws
    else match_word p (λ t. match_parts t (p' ∷ ps)) ws

pub topic_match : GoString → GoString → Bool
unfolding split match_parts
topic_match routing_key pattern = match_parts (split b'.' routing_key) (split b'.' pattern)

-- A missing header reads as the empty string.
header : Dict GoString GoString → GoString → GoString
unfolding get
header d k = elim (get d k) [ none ↦ [] | some v ↦ v ]

all_headers : Dict GoString GoString → Dict GoString GoString → Bool
unfolding header
all_headers msg [] = true
all_headers msg ((k, v) ∷ bs) =
    let rest = all_headers msg bs in if not (str_eq (header msg k) v) then false else rest

any_header : Dict GoString GoString → Dict GoString GoString → Bool
unfolding header
any_header msg [] = false
any_header msg ((k, v) ∷ bs) =
    let rest = any_header msg bs in if str_eq (header msg k) v then true else rest

pub headers_match : Dict GoString GoString → Dict GoString GoString → Bool → Bool
unfolding all_headers any_header
headers_match msg [] match_all = true
headers_match msg (b ∷ bs) true = all_headers msg (b ∷ bs)
headers_match msg (b ∷ bs) false = any_header msg (b ∷ bs)

pub matched : ExchangeType → GoString → Dict GoString GoString → Binding → Bool
unfolding topic_match headers_match
matched direct routing_key msg b = str_eq b.binding_key routing_key
matched fanout routing_key msg b = true
matched topic routing_key msg b = topic_match routing_key b.binding_key
matched headers routing_key msg b = headers_match msg b.headers b.match_all
matched (other _) routing_key msg b = false

-- The loop of `route`; `seen` is the set of queues that are in the result already.
route_from : (Binding → Bool) → List GoString → List Binding → List GoString
unfolding elem
route_from test seen [] = []
route_from test seen (b ∷ bs) = elim (elem b.queue seen) [
  | true ↦ route_from test seen bs
  | false ↦ elim (test b) [
    | true ↦ b.queue ∷ route_from test (b.queue ∷ seen) bs
    | false ↦ route_from test seen bs
  ]
]

pub route : Exchange → GoString → Dict GoString GoString → List GoString
unfolding route_from matched
route e routing_key msg = route_from (matched e.type routing_key msg) [] e.bindings
