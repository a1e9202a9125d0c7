-- ===== src/Exchange/Route.antt =====
-- `route`: which queues a message goes to.
use boltq.Prelude.{
  ◌≡◌, refl, Bool, true, false, List, [], ◌∷◌, arith, GoString, str_eq, str_eq_iff, elem, string_eq,
  if◌then◌else◌, ◌≢◌, ◌↔◌, ◌⊎◌, inl, inr, sym, ap, All, Option-cases, Bool-cases, none, some,
  Option,
}
use boltq.Prelude.Dict.{Dict, get, maybe}
use boltq.Exchange.{
  Binding, Exchange, ExchangeType, direct, fanout, topic, headers, other, route_from, route,
  matched, header, all_headers, any_header, headers_match, split,
}
use boltq.Exchange.Topic.{Matches, topic_match_iff}

-- Some binding of this queue passes the test.
abbrev pub any_bound : (Binding → Bool) → GoString → List Binding → Bool
any_bound test q [] = false
any_bound test q (b ∷ bs) =
    if str_eq b.queue q then (if test b then true else any_bound test q bs) else any_bound test q bs

-- No name stands twice in the list.
abbrev pub AllDifferent : List GoString → Type 0
AllDifferent [] = Unit
AllDifferent (q ∷ qs) = (elem q qs ≡ false) × AllDifferent qs

elem-route_from :
    (test : Binding → Bool) (seen : List GoString) (bs : List Binding) (q : GoString)
    → elem q (route_from test seen bs) ≡ (if elem q seen then false else any_bound test q bs)
unfolding route_from
elem-route_from test seen [] q = ground arith
elem-route_from test seen (b ∷ bs) q = ground (
  arith,
  str_eq_iff b.queue q,
  elem-route_from test seen bs q,
  elem-route_from test (b.queue ∷ seen) bs q,
)

route_from-AllDifferent :
    (test : Binding → Bool) (seen : List GoString) (bs : List Binding)
    → AllDifferent (route_from test seen bs)
unfolding route_from
route_from-AllDifferent test seen [] = tt
route_from-AllDifferent test seen (b ∷ bs) = ground (
  arith,
  str_eq_iff b.queue b.queue,
  elem-route_from test (b.queue ∷ seen) bs b.queue,
  route_from-AllDifferent test seen bs,
  route_from-AllDifferent test (b.queue ∷ seen) bs,
)

abbrev pub AllPresent : Dict GoString GoString → Dict GoString GoString → Type 0
AllPresent msg [] = Unit
AllPresent msg ((k, v) ∷ bs) = (get msg k ≡ some v) × AllPresent msg bs

abbrev pub AnyPresent : Dict GoString GoString → Dict GoString GoString → Type 0
AnyPresent msg [] = ⊥
AnyPresent msg ((k, v) ∷ bs) = (get msg k ≡ some v) ⊎ AnyPresent msg bs

abbrev pub SelectsHeaders : Dict GoString GoString → Dict GoString GoString → Bool → Type 0
SelectsHeaders msg [] match_all = Unit
SelectsHeaders msg (b ∷ bs) true = AllPresent msg (b ∷ bs)
SelectsHeaders msg (b ∷ bs) false = AnyPresent msg (b ∷ bs)

-- The documented rule of each type of exchange
abbrev pub Selects : ExchangeType → GoString → Dict GoString GoString → Binding → Type 0
Selects direct key msg b = b.binding_key ≡ key
Selects fanout key msg b = Unit
Selects topic key msg b = Matches (split b'.' b.binding_key) (split b'.' key)
Selects headers key msg b = SelectsHeaders msg b.headers b.match_all
Selects (other _) key msg b = ⊥

abbrev pub SomeValue : Dict GoString GoString → Type 0
SomeValue [] = Unit
SomeValue ((k, v) ∷ bs) = (v ≢ []) × SomeValue bs

header-get :
    (msg : Dict GoString GoString) (k : GoString) → header msg k ≡ maybe [] (λ v. v) (get msg k)
unfolding header
header-get msg k = read (get msg k)
  where
    read : (o : Option GoString) → (elim o [ none ↦ [] | some v ↦ v ]) ≡ maybe [] (λ v. v) o
    read none = refl
    read (some v) = refl

header_iff :
    (msg : Dict GoString GoString) (k v : GoString)
    → v ≢ []
    → (str_eq (header msg k) v ≡ true) ↔ (get msg k ≡ some v)
header_iff msg k v some_v = elim (Option-cases (get msg k)) [
  | inl absent ↦
      rw (header-get msg k, absent)
        ((λ h. absurd (some_v (sym ((str_eq_iff [] v).0 h)))), λ h. ground (arith, h))
  | inr (w, held) ↦
      rw (header-get msg k, held)
        ((λ h. ap some ((str_eq_iff w v).0 h)), λ h. (str_eq_iff w v).1 (ground (arith, h)))
]

all_headers_iff :
    (msg bs : Dict GoString GoString)
    → SomeValue bs
    → (all_headers msg bs ≡ true) ↔ AllPresent msg bs
unfolding all_headers
all_headers_iff msg [] h = ((λ _. tt), λ _. refl)
all_headers_iff msg ((k, v) ∷ bs) h =
    let here = header_iff msg k v h.0 in
    let rest = all_headers_iff msg bs h.1 in
    elim (Bool-cases (str_eq (header msg k) v)) [
      | inl same ↦ rw same ((λ e. (here.0 same, rest.0 e)), λ e. rest.1 e.1)
      | inr differs ↦
          rw differs ((λ e. ground (arith, e)), λ e. absurd (ground (arith, differs, here.1 e.0)))
    ]

any_header_iff :
    (msg bs : Dict GoString GoString)
    → SomeValue bs
    → (any_header msg bs ≡ true) ↔ AnyPresent msg bs
unfolding any_header
any_header_iff msg [] h = ((λ e. ground (arith, e)), λ e. absurd e)
any_header_iff msg ((k, v) ∷ bs) h =
    let here = header_iff msg k v h.0 in
    let rest = any_header_iff msg bs h.1 in
    elim (Bool-cases (str_eq (header msg k) v)) [
      | inl same ↦ rw same ((λ _. inl (here.0 same)), λ _. refl)
      | inr differs ↦ rw differs (
        (λ e. inr (rest.0 e)),
        λ e. elim e [
          | inl found ↦ absurd (ground (arith, differs, here.1 found))
          | inr later ↦ rest.1 later
        ],
      )
    ]

headers_match_iff :
    (msg bs : Dict GoString GoString) (match_all : Bool)
    → SomeValue bs
    → (headers_match msg bs match_all ≡ true) ↔ SelectsHeaders msg bs match_all
unfolding headers_match
headers_match_iff msg [] match_all h = ((λ _. tt), λ _. refl)
headers_match_iff msg (b ∷ bs) true h = all_headers_iff msg (b ∷ bs) h
headers_match_iff msg (b ∷ bs) false h = any_header_iff msg (b ∷ bs) h

matched_iff :
    (type : ExchangeType) (key : GoString) (msg : Dict GoString GoString) (b : Binding)
    → SomeValue b.headers
    → (matched type key msg b ≡ true) ↔ Selects type key msg b
unfolding matched
matched_iff direct key msg b h = str_eq_iff b.binding_key key
matched_iff fanout key msg b h = ((λ _. tt), λ _. refl)
matched_iff topic key msg b h = topic_match_iff key b.binding_key
matched_iff headers key msg b h = headers_match_iff msg b.headers b.match_all h
matched_iff (other s) key msg b h = ((λ e. ground (arith, e)), λ e. absurd e)

-- A binding of the queue is selected.
abbrev pub Bound :
    ExchangeType → GoString → Dict GoString GoString → GoString → List Binding → Type 0
Bound type key msg q [] = ⊥
Bound type key msg q (b ∷ bs) = ((b.queue ≡ q) × Selects type key msg b) ⊎ Bound type key msg q bs

any_bound_iff :
    (type : ExchangeType) (key : GoString) (msg : Dict GoString GoString) (q : GoString)
    (bs : List Binding)
    → All (λ b. SomeValue b.headers) bs
    → (any_bound (matched type key msg) q bs ≡ true) ↔ Bound type key msg q bs
any_bound_iff type key msg q [] h = ((λ e. ground (arith, e)), λ e. absurd e)
any_bound_iff type key msg q (b ∷ bs) h =
    let here = matched_iff type key msg b h.0 in
    let rest = any_bound_iff type key msg q bs h.1 in
    elim (Bool-cases (str_eq b.queue q)) [
      | inr other_queue ↦ rw other_queue (
        (λ e. inr (rest.0 e)),
        λ e. elim e [
          | inl (same, _) ↦ absurd (ground (arith, other_queue, (str_eq_iff b.queue q).1 same))
          | inr later ↦ rest.1 later
        ],
      )
      | inl same ↦ elim (Bool-cases (matched type key msg b)) [
        | inl hit ↦
            rw (same, hit) ((λ _. inl ((str_eq_iff b.queue q).0 same, here.0 hit)), λ _. refl)
        | inr miss ↦
            rw (same, miss)
              (
                (λ e. inr (rest.0 e)),
                λ e. elim e [
                  | inl (_, found) ↦ absurd (ground (arith, miss, here.1 found))
                  | inr later ↦ rest.1 later
                ],
              )
      ]
    ]

-- A queue is in the result of `route` exactly when one of its bindings is selected: by an equal key
-- (direct), always (fanout), by its pattern (topic), or by headers of the message, all or any as the
-- binding says and always if it has none (headers); and no queue is in the result twice. No binding
-- has a header with an empty value.
pub route_exact :
    (e : Exchange) (routing_key : GoString) (msg : Dict GoString GoString)
    → All (λ b. SomeValue b.headers) e.bindings
    → ((q : GoString)
        → (elem q (route e routing_key msg) ≡ true) ↔ Bound e.type routing_key msg q e.bindings)
      × AllDifferent (route e routing_key msg)
unfolding route
route_exact e routing_key msg filled = (
  λ q.
      rw (elem-route_from (matched e.type routing_key msg) [] e.bindings q)
        (any_bound_iff e.type routing_key msg q e.bindings filled),
  route_from-AllDifferent (matched e.type routing_key msg) [] e.bindings,
)
