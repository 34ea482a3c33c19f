-- ===== src/Payments/Store/Latest.antt =====
-- Reads of the order log of store.rs see the latest line, and an order id is inserted once.
use Prim.Native.String.{String}
use mathlib.Core.List.{reverse, reverse-append}
use origin_tools.Base.{
  ◌≡◌, ◌⊎◌, inl, inr, Option-cases, refl, ◌∙◌, Option, none, some, List, [], ◌∷◌, ◌++◌, arith,
  if◌then◌else◌,
}
use origin_tools.Base.Eq.{string_eq}
use origin_tools.Base.Sets.{lookup, put, lookup-put}
use origin_tools.Payments.Order.{PaymentOrder}
use origin_tools.Payments.Store.{
  OrderLog, inserted, replay, find_id, insert_order, update_order, get_order, latest_orders,
  insert_latest,
}

-- `a`, or else `b`
abbrev or_else : Option PaymentOrder → Option PaymentOrder → Option PaymentOrder
or_else (some o) b = some o
or_else none b = b

find_id-append :
    (id : String) (xs ys : List PaymentOrder)
    → find_id id (xs ++ ys) ≡ or_else (find_id id xs) (find_id id ys)
find_id-append id [] ys = refl
find_id-append id (x ∷ xs) ys = ground (arith, find_id-append id xs ys)

find_id-id :
    (id : String) (os : List PaymentOrder) (x : PaymentOrder)
    → find_id id os ≡ some x
    → x.payment_order_id ≡ id
find_id-id id [] x h = cc
find_id-id id (o ∷ os) x h =
    ground (arith, find_id-id id os x, string_eq.beq_iff o.payment_order_id id)

reverse_cons : (o : PaymentOrder) (os : List PaymentOrder) → reverse (o ∷ os) ≡ reverse os ++ o ∷ []
reverse_cons o os = reverse-append (o ∷ []) os

lookup-insert_latest :
    (id : String) (m : List (String × PaymentOrder)) (os : List PaymentOrder)
    → lookup id (insert_latest m os) ≡ or_else (find_id id (reverse os)) (lookup id m)
lookup-insert_latest id m [] = refl
lookup-insert_latest id m (o ∷ os) =
    lookup-insert_latest id (put o.payment_order_id o m) os
    ∙ rw (reverse_cons o os) (
        ground
          (arith, find_id-append id (reverse os) (o ∷ []), lookup-put o.payment_order_id id o m))

-- The map of `latest_orders` holds for each id exactly the order that `get_order` finds, the
-- latest line with that id, and nothing for an id without a line.
pub lookup-latest_orders :
    (log : OrderLog) (id : String) → lookup id (latest_orders log) ≡ get_order log id
unfolding latest_orders get_order
lookup-latest_orders log id = lookup-insert_latest id [] log ∙ ground arith

-- After an update, the order reads as updated, and every other id reads as before.
pub get_order-update_order :
    (log : OrderLog) (o : PaymentOrder) (id : String)
    → get_order (update_order log o) id
      ≡ (if string_eq.beq o.payment_order_id id then some o else get_order log id)
unfolding get_order update_order
get_order-update_order log o id = rw (reverse-append log (o ∷ [])) refl

-- Inserting an order whose id is in the log writes nothing and returns a line with that id; an
-- order with a new id is written, and reads back.
pub insert_order_lem :
    (log : OrderLog) (o : PaymentOrder)
    → ((find_id o.payment_order_id log ≡ none)
        × (insert_order log o ≡ (log ++ o ∷ [], inserted))
        × (get_order (insert_order log o).0 o.payment_order_id ≡ some o))
      ⊎ ((x : PaymentOrder) × (find_id o.payment_order_id log ≡ some x)
          × (x.payment_order_id ≡ o.payment_order_id)
          × (insert_order log o ≡ (log, replay x)))
unfolding insert_order get_order
insert_order_lem log o = elim (Option-cases (find_id o.payment_order_id log)) [
  | inl new ↦ inl (
    new,
    rw new,
    rw (new, reverse-append log (o ∷ []))
        (ground (arith, string_eq.beq_iff o.payment_order_id o.payment_order_id)),
  )
  | inr (x, old) ↦ inr (x, old, find_id-id o.payment_order_id log x old, rw old)
]

-- A replayed insert answers with the first line of its id: an order that was inserted and updated
-- since is answered as it was inserted, although `get_order` reads the update.
pub insert_order-update_order :
    (log : OrderLog) (o new again : PaymentOrder)
    → find_id o.payment_order_id log ≡ none
    → new.payment_order_id ≡ o.payment_order_id
    → again.payment_order_id ≡ o.payment_order_id
    → let log' = update_order (insert_order log o).0 new in
      (insert_order log' again ≡ (log', replay o)) × (get_order log' o.payment_order_id ≡ some new)
unfolding insert_order update_order
insert_order-update_order log o new again fresh e e' =
    let id = o.payment_order_id in
    let first : find_id id ((log ++ o ∷ []) ++ new ∷ []) ≡ some o =
      find_id-append id (log ++ o ∷ []) (new ∷ [])
      ∙ rw (find_id-append id log (o ∷ []), fresh, (string_eq.beq_iff id id).1 refl) refl in
    (
      ground (arith, first),
      ground (
        arith,
        get_order-update_order (log ++ o ∷ []) new id,
        string_eq.beq_iff new.payment_order_id id,
      ),
    )
