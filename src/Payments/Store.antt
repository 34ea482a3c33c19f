-- ===== src/Payments/Store.antt =====
-- origin-payments/src/store.rs: the append-only order log. A log is the list of its lines, the
-- oldest first; a file that cannot be read or written is not modelled.
pub mod Latest
pub mod Status
mod Tests
use Prim.Native.String.{String}
use mathlib.Core.List.{reverse, filter}
use origin_tools.Base.{
  ℕ, Bool, true, false, Option, none, some, List, [], ◌∷◌, ◌++◌, if◌then◌else◌, Result, ok, err,
}
use origin_tools.Base.Eq.{string_eq}
use origin_tools.Base.Sets.{lookup, put}
use origin_tools.Payments.Order.{
  PaymentOrder, OrderStatus, not_started, executing, success, failed, requires_action,
}

abbrev pub OrderLog : Type 0
OrderLog = List PaymentOrder

pub data InsertOutcome : Type 0 where
  inserted : InsertOutcome
  replay : PaymentOrder → InsertOutcome

-- `find(|o| o.payment_order_id == id)`
abbrev pub find_id : String → List PaymentOrder → Option PaymentOrder
find_id id [] = none
find_id id (o ∷ os) = if string_eq.beq o.payment_order_id id then some o else find_id id os

unfoldable pub append_order : OrderLog → PaymentOrder → OrderLog
append_order log o = log ++ o ∷ []

abbrev insert_found : OrderLog → PaymentOrder → Option PaymentOrder → OrderLog × InsertOutcome
insert_found log o (some existing) = (log, replay existing)
insert_found log o none = (append_order log o, inserted)

pub insert_order : OrderLog → PaymentOrder → OrderLog × InsertOutcome
unfolding append_order
insert_order log o = insert_found log o (find_id o.payment_order_id log)

unfoldable pub update_order : OrderLog → PaymentOrder → OrderLog
unfolding append_order
update_order log o = append_order log o

-- `none` is `OrderNotFound`.
pub get_order : OrderLog → String → Option PaymentOrder
get_order log id = find_id id (reverse log)

abbrev insert_latest :
    List (String × PaymentOrder) → List PaymentOrder → List (String × PaymentOrder)
insert_latest m [] = m
insert_latest m (o ∷ os) = insert_latest (put o.payment_order_id o m) os

-- The hash map of `latest_orders`, and its values.
pub latest_orders : OrderLog → List (String × PaymentOrder)
latest_orders log = insert_latest [] log

abbrev pub same_status : OrderStatus → OrderStatus → Bool
same_status not_started not_started = true
same_status executing executing = true
same_status success success = true
same_status failed failed = true
same_status requires_action requires_action = true
same_status _ _ = false

abbrev pub with_status : OrderStatus → List (String × PaymentOrder) → List PaymentOrder
with_status status [] = []
with_status status ((id, o) ∷ m) =
    if same_status o.status status then o ∷ with_status status m else with_status status m

pub orders_with_status : OrderLog → OrderStatus → List PaymentOrder
unfolding latest_orders
orders_with_status log status = with_status status (latest_orders log)
