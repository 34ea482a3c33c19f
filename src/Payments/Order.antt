-- ===== src/Payments/Order.antt =====
-- origin-payments/src/event.rs: orders, their life cycle, and the roll-up of an event. The clock is
-- an argument; texts are strings; what a rail or a signer returns is kept as its bytes.
pub mod Lifecycle
pub mod Rollup
mod Tests
use Prim.Native.String.{String}
use origin_tools.Base.{
  ℕ, Bool, true, false, ◌||◌, not, Option, none, some, List, [], ◌∷◌, if◌then◌else◌, Result, ok,
  err,
}
use origin_tools.Base.Bytes.{Bytes}

pub data EventStatus : Type 0 where
  received split all_settled partial : EventStatus

pub data OrderDirection : Type 0 where
  payment payout : OrderDirection

pub data OrderStatus : Type 0 where
  not_started executing success failed requires_action : OrderStatus

pub can_transition : OrderStatus → OrderStatus → Bool
can_transition not_started executing = true
can_transition not_started failed = true
can_transition not_started requires_action = true
can_transition executing success = true
can_transition executing failed = true
can_transition executing requires_action = true
can_transition executing not_started = true
can_transition requires_action executing = true
can_transition requires_action failed = true
can_transition requires_action not_started = true
can_transition failed executing = true
can_transition failed not_started = true
can_transition _ _ = false

pub is_terminal : OrderStatus → Bool
is_terminal success = true
is_terminal _ = false

pub record FxRate : Type 0 where
  pub from_currency : String
  pub to_currency : String
  pub rate : String
  pub markup_bps : ℕ  -- u32

pub data RailHint : Type 0 where
  native http402 card ach : RailHint

pub record PaymentOrder : Type 0 where
  pub version : ℕ  -- u8
  pub payment_order_id : String
  pub checkout_id : String
  pub payee : String  -- `to`
  pub amount : String
  pub currency : String
  pub fx : Option FxRate
  pub card_token : Option String
  pub card_network : Option String
  pub card_last4 : Option String
  pub rail : Option RailHint
  pub direction : OrderDirection
  pub status : OrderStatus
  pub ledger_updated : Bool
  pub wallet_updated : Bool
  pub attempts : ℕ  -- u32
  pub next_retry_at : Option String
  pub executing_since : Option String
  pub receipt : Option Bytes
  pub created_at : String
  pub updated_at : String
  pub signature : Option Bytes
  pub signer : Option Bytes

-- `PaymentOrder::new`, with the fresh identifier and the time as arguments.
unfoldable pub new : String → String → String → String → String → String → PaymentOrder
new id now checkout_id payee amount currency = record {
  version = 1;
  payment_order_id = id;
  checkout_id = checkout_id;
  payee = payee;
  amount = amount;
  currency = currency;
  fx = none;
  card_token = none;
  card_network = none;
  card_last4 = none;
  rail = none;
  direction = payment;
  status = not_started;
  ledger_updated = false;
  wallet_updated = false;
  attempts = 0;
  next_retry_at = none;
  executing_since = none;
  receipt = none;
  created_at = now;
  updated_at = now;
  signature = none;
  signer = none;
}

-- `InvalidTransition { from, to }`
pub data TransitionError : Type 0 where
  invalid_transition : OrderStatus → OrderStatus → TransitionError

unfoldable pub transition :
    PaymentOrder → OrderStatus → String → Result TransitionError PaymentOrder
unfolding can_transition
transition o to now =
    if can_transition o.status to
    then ok (record o { status = to; updated_at = now })
    else err (invalid_transition o.status to)

abbrev pub is_success : OrderStatus → Bool
is_success success = true
is_success _ = false

abbrev pub is_stopped : OrderStatus → Bool
is_stopped failed = true
is_stopped requires_action = true
is_stopped _ = false

abbrev pub is_not_started : OrderStatus → Bool
is_not_started not_started = true
is_not_started _ = false

-- `orders.iter().all(…)` and `.any(…)` on the statuses.
abbrev pub all_status : (OrderStatus → Bool) → List PaymentOrder → Bool
all_status p [] = true
all_status p (o ∷ os) = if p o.status then all_status p os else false

abbrev pub any_status : (OrderStatus → Bool) → List PaymentOrder → Bool
any_status p [] = false
any_status p (o ∷ os) = if p o.status then true else any_status p os

pub rollup : List PaymentOrder → EventStatus
rollup [] = received
rollup (o ∷ os) =
    if all_status is_success (o ∷ os)
    then all_settled
    else if any_status is_stopped (o ∷ os)
    then partial
    else if any_status (λ s. not (is_not_started s)) (o ∷ os)
    then split
    else received
