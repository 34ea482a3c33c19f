-- ===== src/Payments/Passes.antt =====
-- origin-payments/src/executor.rs: one pass over one order, and what becomes of an order that was not
-- settled. The logs of the store are lists, the oldest record first.
pub mod Admitted
pub mod Guards
pub mod Receipts
pub mod Retries
mod Tests
use Prim.Native.String.{String}
use origin_tools.Base.{
  ℕ, ◌+◌, ◌-◌, ◌%◌, Bool, true, false, not, Option, none, some, List, [], ◌∷◌, ◌++◌, ltb, leb, ◌==◌,
  if◌then◌else◌, Result, ok, err, ◌>>=◌, ◌>>◌, fail_if, u64,
}
use origin_tools.Base.Bytes.{Bytes}
use origin_tools.Base.Decimal.{Text, codes}
use origin_tools.Base.Eq.{string_eq, bytes_eq}
use origin_tools.Payments.Order.{
  PaymentOrder, OrderStatus, OrderDirection, RailHint, native, http402, card, ach, not_started,
  executing, success, failed, requires_action, transition, TransitionError,
}
use origin_tools.Payments.Store.{OrderLog, update_order}
use origin_tools.Payments.Journal.{
  Journal, JournalError, Hashing, OperatorKeys, Stamp, parse_amount, append_order_batch, i128_half,
  is_negative, i128_mod,
}
use origin_tools.Payments.Retry.{RetryPolicy, next_backoff_ms, extract_retry_after_ms}
use origin_tools.Payments.Executor.{
  PaymentStore, PaymentsConfig, World, Reason, RetryJob, DlqRecord, Notice, SettleOutcome,
  retryable, terminal, action_required, rail_says, attempts_exhausted, order_failed,
  order_requires_action, order_requeued, settle,
}

-- A pass ends where a transition is not legal; the clamp of the waiting time can panic.
pub data PassError : Type 0 where
  invalid : TransitionError → PassError
  clamp_panic : PassError

pub data Tally : Type 0 where
  executed retried awaiting dead : Tally

abbrev failed_with :
    PaymentStore
    → Reason
    → Result TransitionError PaymentOrder
    → PaymentStore × Result PassError Tally
failed_with s reason (err e) = (s, err (invalid e))
failed_with s reason (ok o) = (
  record s {
    orders = update_order s.orders o;
    dlq =
        s.dlq
        ++ record { payment_order_id = o.payment_order_id; reason = reason; attempts = o.attempts }
          ∷ [];
    notifications = s.notifications ++ (order_failed, o.payment_order_id) ∷ [];
    audits = s.audits ++ (order_failed, o.payment_order_id) ∷ [];
  },
  ok dead,
)

-- FAILED, with a record in the dead-letter queue. The order's retry time stays as it is.
unfoldable pub mark_failed :
    World → PaymentStore → PaymentOrder → Reason → PaymentStore × Result PassError Tally
mark_failed w s o reason = failed_with s reason (transition o failed w.now)

abbrev job : PaymentOrder → String → ℕ → Text → RetryJob
job o deadline ms reason = record {
  payment_order_id = o.payment_order_id;
  attempt = o.attempts;
  next_retry_at = deadline;
  backoff_ms = ms;
  last_error = reason;
}

abbrev waiting :
    PaymentStore
    → Text
    → String
    → ℕ
    → Result TransitionError PaymentOrder
    → PaymentStore × Result PassError Tally
waiting s reason deadline ms (err e) = (s, err (invalid e))
waiting s reason deadline ms (ok o) =
    let o' = record o { next_retry_at = some deadline } in
    (
      record s {
        orders = update_order s.orders o';
        retry_jobs = s.retry_jobs ++ job o' deadline ms reason ∷ [];
      },
      ok retried,
    )

abbrev wait_for :
    World → PaymentStore → PaymentOrder → Text → Option ℕ → PaymentStore × Result PassError Tally
wait_for w s o reason none = (s, err clamp_panic)
wait_for w s o reason (some ms) = waiting s reason (w.after ms) ms (transition o failed w.now)

-- `schedule_retry`, and `mark_failed` where it answers that the attempts are used up.
unfoldable pub schedule_retry :
    PaymentsConfig
    → World
    → PaymentStore
    → PaymentOrder
    → Text
    → PaymentStore × Result PassError Tally
unfolding mark_failed
schedule_retry config w s o reason =
    if leb config.retry.max_attempts o.attempts
    then mark_failed w s o (rail_says reason)
    else wait_for w s o reason
        (next_backoff_ms config.retry o.attempts (extract_retry_after_ms reason) w.raw)

abbrev awaiting_action :
    PaymentStore → Result TransitionError PaymentOrder → PaymentStore × Result PassError Tally
awaiting_action s (err e) = (s, err (invalid e))
awaiting_action s (ok o) = (
  record s {
    orders = update_order s.orders o;
    notifications = s.notifications ++ (order_requires_action, o.payment_order_id) ∷ [];
    audits = s.audits ++ (order_failed, o.payment_order_id) ∷ [];
  },
  ok awaiting,
)

-- What `run_once` makes of an order that was settled or not.
unfoldable pub after_settle :
    PaymentsConfig
    → World
    → PaymentStore × PaymentOrder × Result SettleOutcome (Unit {0})
    → PaymentStore × Result PassError Tally
unfolding schedule_retry mark_failed
after_settle config w (s, o, ok u) = (s, ok executed)
after_settle config w (s, o, err (retryable reason)) = schedule_retry config w s o reason
after_settle config w (s, o, err (action_required reason)) =
    awaiting_action s (transition o requires_action w.now)
after_settle config w (s, o, err (terminal reason)) = mark_failed w s o reason

-- The order as it goes to the rail: its store has it in EXECUTING already.
abbrev pub started : World → PaymentOrder → PaymentOrder
started w o = record o { executing_since = some w.now; attempts = (o.attempts + 1) % 4294967296 }

abbrev begun :
    PaymentsConfig
    → World
    → PaymentStore
    → Result TransitionError PaymentOrder
    → PaymentStore × Result PassError Tally
begun config w s (err e) = (s, err (invalid e))
begun config w s (ok o) =
    let o' = started w o in
    after_settle config w (settle config w (record s { orders = update_order s.orders o' }) o')

-- The loop body of `run_once` on one ready order, under the settlement preference Hold.
unfoldable pub process :
    PaymentsConfig → World → PaymentStore → PaymentOrder → PaymentStore × Result PassError Tally
unfolding settle after_settle
process config w s o = begun config w s (transition o executing w.now)

abbrev deadline_passed : World → Option String → Bool
deadline_passed w none = false
deadline_passed w (some deadline) = w.is_due deadline

-- Whether a pass takes the order up: it was not started, or it failed and its deadline has passed.
unfoldable pub is_ready : World → PaymentOrder → OrderStatus → Bool
is_ready w o not_started = true
is_ready w o failed = deadline_passed w o.next_retry_at
is_ready w o _ = false

abbrev requeued :
    PaymentStore
    → Result TransitionError PaymentOrder
    → PaymentStore × Result PassError (Option Bool)
requeued s (err e) = (s, err (invalid e))
requeued s (ok o) = (
  record s {
    orders = update_order s.orders (record o { executing_since = none; next_retry_at = none });
    audits = s.audits ++ (order_requeued, o.payment_order_id) ∷ [];
  },
  ok (some true),
)

abbrev dead_letter :
    PaymentStore × Result PassError Tally → PaymentStore × Result PassError (Option Bool)
dead_letter (s, err e) = (s, err e)
dead_letter (s, ok t) = (s, ok (some false))

abbrev requeue_since :
    PaymentsConfig
    → World
    → PaymentStore
    → PaymentOrder
    → Option String
    → PaymentStore × Result PassError (Option Bool)
requeue_since config w s o none = (s, ok none)
requeue_since config w s o (some since) =
    let o' = record o { attempts = (o.attempts + 1) % 4294967296 } in
    if not (w.is_expired since config.executing_ttl_secs)
    then (s, ok none)
    else if leb config.retry.max_attempts o'.attempts
    then dead_letter (mark_failed w s o' attempts_exhausted)
    else requeued s (transition o' not_started w.now)

-- The loop body of `requeue_stuck_executing` on one order in EXECUTING: `some true` counts it as
-- requeued, `some false` as dead, `none` leaves it alone.
pub requeue :
    PaymentsConfig
    → World
    → PaymentStore
    → PaymentOrder
    → PaymentStore × Result PassError (Option Bool)
unfolding mark_failed
requeue config w s o = requeue_since config w s o o.executing_since

-- The last line of the log, or the order itself.
abbrev pub last_line : PaymentOrder → OrderLog → PaymentOrder
last_line o [] = o
last_line o (p ∷ ps) = last_line p ps

-- An order over several passes: each pass that finds it ready works on the line that the one
-- before it wrote last.
unfoldable pub passes :
    PaymentsConfig → List World → PaymentStore → PaymentOrder → PaymentStore × PaymentOrder
unfolding process is_ready
passes config [] s o = (s, o)
passes config (w ∷ ws) s o =
    let s' = if is_ready w o o.status then (process config w s o).0 else s in
    passes config ws s' (if is_ready w o o.status then last_line o s'.orders else o)
