-- ===== src/Payments/Order/Lifecycle.antt =====
-- What the life cycle of event.rs guarantees.
use Prim.Native.String.{String}
use origin_tools.Base.{
  ◌≡◌, ◌≢◌, ◌⊎◌, refl, Bool, true, false, List, [], ◌∷◌, arith, ok, err, if◌then◌else◌,
}
use origin_tools.Payments.Order.{
  OrderStatus, executing, success, PaymentOrder, transition, invalid_transition, can_transition,
}

-- An attempt to move an order on, at a time; a refused one leaves the order as it is.
abbrev pub attempt : PaymentOrder → OrderStatus × String → PaymentOrder
attempt o (to, now) = elim (transition o to now) [ ok o' ↦ o' | err e ↦ o ]

unfoldable pub attempts_on : PaymentOrder → List (OrderStatus × String) → PaymentOrder
attempts_on o [] = o
attempts_on o (t ∷ ts) = attempts_on (attempt o t) ts

-- A transition that succeeds changes the status and the time of the update and nothing else, and
-- it is refused exactly when the table forbids it.
pub transition_lem :
    (o : PaymentOrder) (to : OrderStatus) (now : String)
    → ((can_transition o.status to ≡ true)
        × (transition o to now ≡ ok (record o { status = to; updated_at = now })))
      ⊎ ((can_transition o.status to ≡ false)
          × (transition o to now ≡ err (invalid_transition o.status to)))
unfolding transition
transition_lem o to now = ground arith

stays : (o : PaymentOrder) (t : OrderStatus × String) → o.status ≡ success → attempt o t ≡ o
unfolding transition
stays o (to, now) h = ground arith

-- A settled order is final: no sequence of attempts changes it in any field.
pub attempts_on_success :
    (o : PaymentOrder) (ts : List (OrderStatus × String))
    → o.status ≡ success
    → attempts_on o ts ≡ o
unfolding attempts_on
attempts_on_success o [] h = refl
attempts_on_success o (t ∷ ts) h = ground (arith, stays o t h, attempts_on_success o ts h)

-- The statuses that an order has had, the current one last.
pub history : PaymentOrder → List (OrderStatus × String) → List OrderStatus
history o [] = o.status ∷ []
history o (t ∷ ts) = o.status ∷ history (attempt o t) ts

abbrev pub is_executing : OrderStatus → Bool
is_executing executing = true
is_executing _ = false

abbrev pub has_status : (OrderStatus → Bool) → List OrderStatus → Bool
has_status p [] = false
has_status p (s ∷ ss) = if p s then true else has_status p ss

attempt_success :
    (o : PaymentOrder) (t : OrderStatus × String)
    → (attempt o t).status ≡ success
    → (o.status ≡ success) ⊎ (o.status ≡ executing)
unfolding transition
attempt_success o (to, now) h = ground arith

-- An order that was not settled before a run of attempts and is settled after it was executing in
-- between.
pub history-attempts_on :
    (o : PaymentOrder) (ts : List (OrderStatus × String))
    → o.status ≢ success
    → (attempts_on o ts).status ≡ success
    → has_status is_executing (history o ts) ≡ true
unfolding attempts_on history
history-attempts_on o [] ne h = absurd (ne h)
history-attempts_on o (t ∷ ts) ne h =
    ground (arith, attempt_success o t, history-attempts_on (attempt o t) ts)
