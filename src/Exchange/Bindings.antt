-- ===== src/Exchange/Bindings.antt =====
-- `Bind` and `Unbind` keep one binding for each queue and binding key.
use boltq.Prelude.{
  ◌≡◌, refl, ap, ◌&&◌, List, [], ◌∷◌, Option, none, some, arith, GoString, str_eq, str_eq_iff,
  if◌then◌else◌,
}
use boltq.Exchange.{Binding, Exchange, bind_into, bind, unbind_from, unbind}

-- The binding of a queue and key.
abbrev pub find_binding : GoString → GoString → List Binding → Option Binding
find_binding queue key [] = none
find_binding queue key (b ∷ bs) =
    if str_eq b.queue queue && str_eq b.binding_key key then some b else find_binding queue key bs

-- No two bindings share queue and key.
abbrev pub OnePerKey : List Binding → Type 0
OnePerKey [] = Unit
OnePerKey (b ∷ bs) = (find_binding b.queue b.binding_key bs ≡ none) × OnePerKey bs

find-bind_into :
    (b : Binding) (bs : List Binding) (queue key : GoString)
    → find_binding queue key (bind_into b bs) ≡ (
        if str_eq b.queue queue && str_eq b.binding_key key
        then some b
        else find_binding queue key bs)
unfolding bind_into
find-bind_into b [] queue key = refl
find-bind_into b (x ∷ bs) queue key = ground (
  arith,
  str_eq_iff x.queue queue,
  str_eq_iff x.binding_key key,
  str_eq_iff b.queue queue,
  str_eq_iff b.binding_key key,
  str_eq_iff x.queue b.queue,
  str_eq_iff x.binding_key b.binding_key,
  find-bind_into b bs queue key,
)

bind_into-OnePerKey : (b : Binding) (bs : List Binding) → OnePerKey bs → OnePerKey (bind_into b bs)
unfolding bind_into
bind_into-OnePerKey b [] h = (refl, tt)
bind_into-OnePerKey b (x ∷ bs) h = ground (
  arith,
  h.0,
  h.1,
  str_eq_iff x.queue b.queue,
  str_eq_iff x.binding_key b.binding_key,
  str_eq_iff b.queue x.queue,
  str_eq_iff b.binding_key x.binding_key,
  find-bind_into b bs x.queue x.binding_key,
  bind_into-OnePerKey b bs h.1,
)

find-unbind_from :
    (uq uk : GoString) (bs : List Binding) (queue key : GoString)
    → OnePerKey bs
    → find_binding queue key (unbind_from uq uk bs)
      ≡ (if str_eq uq queue && str_eq uk key then none else find_binding queue key bs)
unfolding unbind_from
find-unbind_from uq uk [] queue key h = ground arith
find-unbind_from uq uk (x ∷ bs) queue key h = ground (
  arith,
  h.0,
  str_eq_iff x.queue uq,
  str_eq_iff x.binding_key uk,
  str_eq_iff uq queue,
  str_eq_iff uk key,
  str_eq_iff x.queue queue,
  str_eq_iff x.binding_key key,
  find-unbind_from uq uk bs queue key h.1,
)

unbind_from-OnePerKey :
    (uq uk : GoString) (bs : List Binding) → OnePerKey bs → OnePerKey (unbind_from uq uk bs)
unfolding unbind_from
unbind_from-OnePerKey uq uk [] h = tt
unbind_from-OnePerKey uq uk (x ∷ bs) h = ground (
  arith,
  h.0,
  h.1,
  find-unbind_from uq uk bs x.queue x.binding_key h.1,
  unbind_from-OnePerKey uq uk bs h.1,
)

bind_into_twice : (b : Binding) (bs : List Binding) → bind_into b (bind_into b bs) ≡ bind_into b bs
unfolding bind_into
bind_into_twice b [] =
    ground (arith, str_eq_iff b.queue b.queue, str_eq_iff b.binding_key b.binding_key)
bind_into_twice b (x ∷ bs) = ground (
  arith,
  str_eq_iff b.queue b.queue,
  str_eq_iff b.binding_key b.binding_key,
  bind_into_twice b bs,
)

-- On an exchange with at most one binding for each queue and key, `Bind` keeps that property,
-- gives its queue and key the new binding and leaves every other as it was; binding twice is
-- binding once.
pub bind_exact :
    (e : Exchange) (b : Binding)
    → OnePerKey e.bindings
    → OnePerKey (bind e b).bindings
      × ((queue key : GoString)
          → find_binding queue key (bind e b).bindings ≡ (
              if str_eq b.queue queue && str_eq b.binding_key key
              then some b
              else find_binding queue key e.bindings))
      × (bind (bind e b) b ≡ bind e b)
unfolding bind
bind_exact e b h = (
  bind_into-OnePerKey b e.bindings h,
  find-bind_into b e.bindings,
  ap (λ bs. record e { bindings = bs }) (bind_into_twice b e.bindings),
)

-- On an exchange with at most one binding for each queue and key, `Unbind` removes the binding of
-- its queue and key, leaves every other as it was, and keeps that property.
pub unbind_exact :
    (e : Exchange) (uq uk : GoString)
    → OnePerKey e.bindings
    → OnePerKey (unbind e uq uk).bindings
      × ((queue key : GoString)
          → find_binding queue key (unbind e uq uk).bindings ≡ (
              if str_eq uq queue && str_eq uk key then none else find_binding queue key e.bindings))
unfolding unbind
unbind_exact e uq uk h = (
  unbind_from-OnePerKey uq uk e.bindings h,
  λ queue key. find-unbind_from uq uk e.bindings queue key h,
)
