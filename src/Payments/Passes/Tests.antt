-- ===== src/Payments/Passes/Tests.antt =====
-- Runs of the executor on one order.
use origin_tools.Base.{
  ◌+◌, ◌-◌, ◌≡◌, ◌≢◌, refl, true, false, none, some, [], ◌∷◌, arith, length, ok,
}
use origin_tools.Base.Decimal.{codes, trim, split, from_text}
use origin_tools.Payments.Order.{PaymentOrder, new, native, http402, transition}
use origin_tools.Payments.Store.{update_order}
use origin_tools.Payments.Retry.{default_policy}
use origin_tools.Payments.Journal.{Hashing, Stamp, append_order_batch, post_all, parse_amount}
use origin_tools.Payments.Executor.{
  PaymentStore, PaymentsConfig, World, paid, refused, retryable, admit,
}
use origin_tools.Payments.Passes.{process, passes, executed, dead, is_ready}
use origin_tools.Payments.Passes.Guards.{IsSettled, process_executed}
use origin_tools.Payments.Passes.Receipts.{process_all, process_settles_once}
use origin_tools.Payments.Passes.Retries.{IsDown, letters_for, passes_down}

abbrev toy : Hashing
toy = record { json = λ id batch order a amount cur ts prev fx. amount; sha3_256 = λ b. b }

abbrev some_stamp : Stamp
some_stamp = record { batch_id = "b1"; posting_id = λ i. "p"; ts = "now" }

abbrev up : World
up = record {
  rail = λ hint o amount. paid (1 ∷ 2 ∷ []);
  score = none;
  hashing = toy;
  signer = none;
  stamp = some_stamp;
  now = "now";
  after = λ ms. "later";
  is_due = λ d. true;
  is_expired = λ since ttl. false;
  raw = 25;
}

abbrev down : World
down = record up { rail = λ hint o amount. refused (retryable (codes "timeout")) }

abbrev config : PaymentsConfig
config = record {
  enabled_rails = native ∷ http402 ∷ [];
  retry = default_policy;
  per_tx_cap = some (codes "100");
  executing_ttl_secs = 900;
}

abbrev store : PaymentStore
store = record {
  orders = [];
  journal = [];
  receipts = [];
  retry_jobs = [];
  dlq = [];
  notifications = [];
  audits = [];
}

abbrev tea : PaymentOrder
unfolding new
tea = record (new "po-1" "t0" "c1" "https://tea" "2.00" "USD") { rail = some http402 }

settles : (process config up store tea).1 ≡ ok executed
unfolding process transition append_order_batch post_all parse_amount trim split from_text
    update_order tea
settles = refl

process_executed_example : IsSettled config up store tea (process config up store tea).0
process_executed_example = process_executed config up store tea settles

-- Another receipt in between does not make the first one new.
abbrev up_again : World
up_again = record up { rail = λ hint o amount. paid (3 ∷ []) }

process_settles_once_example :
    (process config up
      (process_all ((config, up_again, tea) ∷ []) (process config up store tea).0)
      tea).1
    ≢ ok executed
unfolding tea
process_settles_once_example =
    process_settles_once config config up up store tea tea ((config, up_again, tea) ∷ [])
      (1 ∷ 2 ∷ []) (1 ∷ 2 ∷ []) (λ e. cc) (λ e. cc) (λ a. refl) (λ a. refl) refl settles

-- The same receipt does not settle a second order.
second_refused : (process config up (process config up store tea).0 tea).1 ≡ ok dead
unfolding process transition append_order_batch post_all parse_amount trim split from_text
    update_order tea
second_refused = refl

down-IsDown : IsDown down
down-IsDown = record {
  due = λ d. refl;
  unscored = refl;
  down = λ o amount. (codes "timeout", refl);
}

-- Seven passes over an order of five attempts: three dead letters, and it is still ready.
passes_down_example :
    let (s', o') = passes config (down ∷ down ∷ down ∷ down ∷ down ∷ down ∷ down ∷ []) store tea in
    (o'.attempts ≡ 7)
    × (length s'.dlq ≡ length store.dlq + (7 + 1 - config.retry.max_attempts))
    × (letters_for tea.payment_order_id s'.dlq
        ≡ letters_for tea.payment_order_id store.dlq + (7 + 1 - config.retry.max_attempts))
    × (is_ready down o' o'.status ≡ true)
unfolding admit parse_amount trim split from_text tea
passes_down_example =
    let d = down-IsDown in
    passes_down config (down ∷ down ∷ down ∷ down ∷ down ∷ down ∷ down ∷ []) store tea 200
      (record { tries = omega arith; waits = omega arith; bounded = omega arith }) refl refl refl
      (d, (d, (d, (d, (d, (d, (d, tt))))))) (omega arith) down d
