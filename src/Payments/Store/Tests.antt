-- ===== src/Payments/Store/Tests.antt =====
-- Runs of the order log.
use origin_tools.Base.{◌≡◌, refl, none, some, [], ◌∷◌}
use origin_tools.Base.Eq.{string_eq}
use origin_tools.Payments.Order.{PaymentOrder, new, executing}
use origin_tools.Payments.Store.{OrderLog, find_id, get_order, latest_orders}
use origin_tools.Payments.Store.{orders_with_status}
use origin_tools.Payments.Order.{not_started}

abbrev tea : PaymentOrder
unfolding new
tea = new "po-1" "t0" "checkout-1" "mesh-7" "2.00" "USD"

abbrev cake : PaymentOrder
unfolding new
cake = new "po-2" "t0" "checkout-1" "mesh-7" "4.50" "USD"

abbrev tea_running : PaymentOrder
unfolding tea
tea_running = record tea { status = executing }

abbrev log : OrderLog
log = tea ∷ cake ∷ tea_running ∷ []

get_order_latest : get_order log "po-1" ≡ some tea_running
unfolding get_order tea tea_running cake
get_order_latest = refl

listed_before : find_id "po-1" (orders_with_status log not_started) ≡ none
unfolding orders_with_status latest_orders tea tea_running cake
listed_before = refl
