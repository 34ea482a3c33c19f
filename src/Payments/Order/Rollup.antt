-- ===== src/Payments/Order/Rollup.antt =====
-- What the roll-up of event.rs says of the orders of an event.
use origin_tools.Base.{
  ℕ, zero, suc, ◌≡◌, ◌≢◌, ◌↔◌, ◌⊎◌, inl, inr, Bool-cases, refl, true, false, not, List, [], ◌∷◌,
  arith, some, get_elem?,
}
use origin_tools.Payments.Order.{
  OrderStatus, not_started, success, failed, requires_action, received, all_settled, partial,
  PaymentOrder, rollup, is_success, is_stopped, is_not_started, all_status, any_status,
}

-- Every order has the status.
abbrev pub Every : OrderStatus → List PaymentOrder → Type 0
Every s os = (i : ℕ) (o : PaymentOrder) → get_elem? os i ≡ some o → o.status ≡ s

Every-tail :
    (s : OrderStatus) (o : PaymentOrder) (os : List PaymentOrder) → Every s (o ∷ os) → Every s os
Every-tail s o os h i o' e = h (suc i) o' e

Every-success : (os : List PaymentOrder) → all_status is_success os ≡ true → Every success os
Every-success [] e i o h = cc
Every-success (o ∷ os) e zero o' h = ground arith
Every-success (o ∷ os) e (suc i) o' h = Every-success os (ground arith) i o' h

all_success : (os : List PaymentOrder) → Every success os → all_status is_success os ≡ true
all_success [] h = refl
all_success (o ∷ os) h = ground (arith, h 0 o refl, all_success os (Every-tail success o os h))

Every-waiting :
    (os : List PaymentOrder)
    → any_status (λ s. not (is_not_started s)) os ≡ false
    → Every not_started os
Every-waiting [] e i o h = cc
Every-waiting (o ∷ os) e zero o' h = ground arith
Every-waiting (o ∷ os) e (suc i) o' h = Every-waiting os (ground arith) i o' h

none_stopped : (os : List PaymentOrder) → Every not_started os → any_status is_stopped os ≡ false
none_stopped [] h = refl
none_stopped (o ∷ os) h =
    ground (arith, h 0 o refl, none_stopped os (Every-tail not_started o os h))

none_moved :
    (os : List PaymentOrder)
    → Every not_started os
    → any_status (λ s. not (is_not_started s)) os ≡ false
none_moved [] h = refl
none_moved (o ∷ os) h = ground (arith, h 0 o refl, none_moved os (Every-tail not_started o os h))

-- Some order of the list has failed or waits for an action.
pub IsStopped : List PaymentOrder → Type 0
IsStopped os =
    (i : ℕ) × (o : PaymentOrder) × (get_elem? os i ≡ some o)
    × ((o.status ≡ failed) ⊎ (o.status ≡ requires_action))

IsStopped-at : (os : List PaymentOrder) → any_status is_stopped os ≡ true → IsStopped os
unfolding IsStopped
IsStopped-at [] e = cc
IsStopped-at (o ∷ os) e = elim (Bool-cases (is_stopped o.status)) [
  | inl here ↦ (0, o, refl, ground arith)
  | inr not_here ↦ let (i, o', at, h) = IsStopped-at os (ground arith) in (suc i, o', at, h)
]

-- An event is received exactly while every order of it still waits to be started, it is settled in
-- full exactly when it has orders and every one is settled, and it is partial only if some order
-- has failed or waits for an action.
pub rollup_lem :
    (os : List PaymentOrder)
    → ((rollup os ≡ received) ↔ Every not_started os)
      × ((rollup os ≡ all_settled) ↔ ((os ≢ []) × Every success os))
      × (rollup os ≡ partial → IsStopped os)
unfolding rollup
rollup_lem [] = (
  (λ e i o h. cc, λ h. refl),
  (λ e. absurd (ground arith), λ h. absurd (h.0 refl)),
  λ e. absurd (ground arith),
)
rollup_lem (o ∷ os) = (
  (
    λ e. Every-waiting (o ∷ os) (ground arith),
    λ h. ground (arith, h 0 o refl, none_stopped (o ∷ os) h, none_moved (o ∷ os) h),
  ),
  (λ e. (λ n. cc, Every-success (o ∷ os) (ground arith)), λ h. rw (all_success (o ∷ os) h.1)),
  λ e. IsStopped-at (o ∷ os) (ground arith),
)
