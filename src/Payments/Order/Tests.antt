-- ===== src/Payments/Order/Tests.antt =====
-- Runs of orders and events.
use Prim.Native.String.{String}
use origin_tools.Base.{◌≡◌, refl, List, [], ◌∷◌}
use origin_tools.Payments.Order.{OrderStatus, executing, success, failed, PaymentOrder, new}
use origin_tools.Payments.Order.Lifecycle.{attempts_on, attempts_on_success}

abbrev coffee : PaymentOrder
unfolding new
coffee = new "po-1" "t0" "checkout-1" "mesh-7" "3.10" "USD"

abbrev settled : PaymentOrder
unfolding coffee
settled = record coffee { status = success }

attempts_on_success_example :
    attempts_on settled ((failed, "t2") ∷ (executing, "t3") ∷ []) ≡ settled
unfolding settled
attempts_on_success_example =
    attempts_on_success settled ((failed, "t2") ∷ (executing, "t3") ∷ []) refl

abbrev payment_run : List (OrderStatus × String)
payment_run =
    (executing, "t1") ∷ (failed, "t2") ∷ (success, "t3") ∷ (executing, "t4") ∷ (success, "t5") ∷ []

abbrev orders : List PaymentOrder
orders = coffee ∷ settled ∷ []
