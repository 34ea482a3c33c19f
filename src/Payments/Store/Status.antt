-- ===== src/Payments/Store/Status.antt =====
-- The listing of orders by status in store.rs agrees with the reads of single orders.
use Prim.Native.String.{String}
use origin_tools.Base.{
  ◌≡◌, refl, ◌∙◌, ap, subst, Option, none, some, List, [], ◌∷◌, arith, if◌then◌else◌, Bool-cases,
  inl, inr,
}
use origin_tools.Base.Eq.{string_eq}
use origin_tools.Base.Sets.{lookup, put, lookup-put}
use origin_tools.Payments.Order.{PaymentOrder, OrderStatus}
use origin_tools.Payments.Store.{
  OrderLog, find_id, get_order, latest_orders, insert_latest, same_status, with_status,
  orders_with_status,
}
use origin_tools.Payments.Store.Latest.{lookup-latest_orders}

-- Every order stands under its own id, and no id twice.
abbrev Keyed : List (String × PaymentOrder) → Type 0
Keyed [] = Unit
Keyed ((id, o) ∷ m) = (o.payment_order_id ≡ id) × (lookup id m ≡ none) × Keyed m

put-Keyed :
    (o : PaymentOrder) (m : List (String × PaymentOrder))
    → Keyed m
    → Keyed (put o.payment_order_id o m)
put-Keyed o [] h = (refl, refl, tt)
put-Keyed o ((id, p) ∷ m) h =
    let (own, absent, rest) = h in
    elim (Bool-cases (string_eq.beq id o.payment_order_id)) [
      | inl e ↦
          let same : id ≡ o.payment_order_id = (string_eq.beq_iff id o.payment_order_id).0 e in
          rw e (refl, subst (λ k. lookup k m ≡ none) same absent, rest)
      | inr e ↦ rw e (
        own,
        lookup-put o.payment_order_id id o m
            ∙ ground (
              arith,
              absent,
              string_eq.beq_iff id o.payment_order_id,
              string_eq.beq_iff o.payment_order_id id,
            ),
        put-Keyed o m rest,
      )
    ]

insert_latest-Keyed :
    (m : List (String × PaymentOrder)) (os : List PaymentOrder)
    → Keyed m
    → Keyed (insert_latest m os)
insert_latest-Keyed m [] h = h
insert_latest-Keyed m (o ∷ os) h =
    insert_latest-Keyed (put o.payment_order_id o m) os (put-Keyed o m h)

-- The order, if it has the status.
abbrev pub having : OrderStatus → Option PaymentOrder → Option PaymentOrder
having status none = none
having status (some o) = if same_status o.status status then some o else none

find_id-with_status :
    (status : OrderStatus) (id : String) (m : List (String × PaymentOrder))
    → Keyed m
    → find_id id (with_status status m) ≡ having status (lookup id m)
find_id-with_status status id [] h = refl
find_id-with_status status id ((k, o) ∷ m) h =
    let (own, absent, rest) = h in
    let below = find_id-with_status status id m rest in
    let mine : string_eq.beq o.payment_order_id id ≡ string_eq.beq k id =
      ap (λ t. string_eq.beq t id) own in
    ground (arith, below, mine, absent, string_eq.beq_iff k id)

-- The listing by status holds an order for an id exactly when the latest line of that id, the one
-- that `get_order` reads, has the status, and then it is that line: a status that an order has
-- left since does not list it.
pub find_id-orders_with_status :
    (log : OrderLog) (status : OrderStatus) (id : String)
    → find_id id (orders_with_status log status) ≡ having status (get_order log id)
unfolding orders_with_status latest_orders
find_id-orders_with_status log status id =
    find_id-with_status status id (latest_orders log) (insert_latest-Keyed [] log tt)
    ∙ ap (having status) (lookup-latest_orders log id)
