-- ===== src/Payments/Executor.antt =====
-- origin-payments/src/executor.rs: how an order is settled over its rail. What a rail, a compliance
-- scorer and the clock answer are parameters; the logs of the store are lists, the oldest record
-- first. A file that cannot be read or written is not modelled.
use Prim.Native.String.{String}
use origin_tools.Base.{
  ℕ, ◌+◌, ◌%◌, Bool, true, false, not, Option, none, some, List, [], ◌∷◌, ◌++◌, ltb, if◌then◌else◌,
  Result, ok, err, ◌>>=◌, ◌>>◌, fail_if, u64,
}
use origin_tools.Base.Bytes.{Bytes}
use origin_tools.Base.Decimal.{Text, codes}
use origin_tools.Base.Eq.{string_eq, bytes_eq}
use origin_tools.Payments.Order.{
  PaymentOrder, RailHint, native, http402, card, ach, success, transition, TransitionError,
}
use origin_tools.Payments.Store.{OrderLog, update_order}
use origin_tools.Payments.Journal.{
  Journal, JournalError, Hashing, OperatorKeys, Stamp, parse_amount, append_order_batch, i128_half,
  is_negative, i128_mod,
}
use origin_tools.Payments.Retry.{RetryPolicy}

pub record RetryJob : Type 0 where
  pub payment_order_id : String
  pub attempt : ℕ
  pub next_retry_at : String
  pub backoff_ms : ℕ
  pub last_error : Text

-- Why an order stops. `rail_says` is the text of a rail's own answer.
pub data Reason : Type 0 where
  rail_not_enabled negative_amount bad_cap over_cap scorer_failed duplicate_settlement
        attempts_exhausted not_legal :
      Reason
  bad_amount : Text → Reason
  rejected : String → Reason
  journal_refused : JournalError → Reason
  rail_says : Text → Reason

pub record DlqRecord : Type 0 where
  pub payment_order_id : String
  pub reason : Reason
  pub attempts : ℕ

-- The kinds of audit records and of notifications that the executor writes.
pub data Notice : Type 0 where
  order_settled order_flagged order_failed order_requires_action order_requeued : Notice

pub record PaymentStore : Type 0 where
  pub orders : OrderLog
  pub journal : Journal
  pub receipts : List (String × Bytes)  -- the dedupe cache: order and receipt hash
  pub retry_jobs : List RetryJob
  pub dlq : List DlqRecord
  pub notifications : List (Notice × String)
  pub audits : List (Notice × String)

pub record PaymentsConfig : Type 0 where
  pub enabled_rails : List RailHint
  pub retry : RetryPolicy
  pub per_tx_cap : Option Text
  pub executing_ttl_secs : ℕ

pub data SettleOutcome : Type 0 where
  retryable : Text → SettleOutcome
  terminal : Reason → SettleOutcome
  action_required : Text → SettleOutcome

-- What a rail answers: the bytes of its receipt, or why there is none.
pub data RailAnswer : Type 0 where
  paid : Bytes → RailAnswer
  refused : SettleOutcome → RailAnswer

pub data ComplianceVerdict : Type 0 where
  accept : ComplianceVerdict
  flag : String → ComplianceVerdict
  reject : String → ComplianceVerdict

-- The world around a pass: the rails (the native one is told an amount of 64 bits), the scorer
-- (`none` is its error), the keys, hashes, fresh identifiers, clock and random bytes.
pub record World : Type 0 where
  pub rail : RailHint → PaymentOrder → ℕ → RailAnswer
  pub score : Option (PaymentOrder → Option ComplianceVerdict)
  pub hashing : Hashing
  pub signer : Option OperatorKeys
  pub stamp : Stamp
  pub now : String
  pub after : ℕ → String  -- the time so many milliseconds from now
  pub is_due : String → Bool  -- the deadline is not after now
  pub is_expired : String → ℕ → Bool  -- started more than so many seconds ago
  pub raw : ℕ  -- eight random bytes

abbrev pub same_rail : RailHint → RailHint → Bool
same_rail native native = true
same_rail http402 http402 = true
same_rail card card = true
same_rail ach ach = true
same_rail _ _ = false

abbrev pub rail_enabled : List RailHint → RailHint → Bool
rail_enabled [] hint = false
rail_enabled (r ∷ rs) hint = if same_rail r hint then true else rail_enabled rs hint

abbrev pub hint_of : Option RailHint → RailHint
hint_of none = native
hint_of (some hint) = hint

-- The order of `i128` on bit patterns.
abbrev pub i128_lt : ℕ → ℕ → Bool
i128_lt a b = ltb ((a + i128_half) % i128_mod) ((b + i128_half) % i128_mod)

abbrev pub amount_or : Reason → Result JournalError ℕ → Result SettleOutcome ℕ
amount_or why (err e) = err (terminal why)
amount_or why (ok n) = ok n

-- The spend cap.
abbrev pub check_cap : Option Text → ℕ → Result SettleOutcome (Unit {0})
check_cap none amount = ok tt
check_cap (some cap_text) amount = do
  cap ← amount_or bad_cap (parse_amount cap_text)
  fail_if (i128_lt cap amount) (terminal over_cap)

-- `settle`, up to the compliance scorer: the amount that may be sent.
unfoldable pub admit : PaymentsConfig → PaymentOrder → Result SettleOutcome ℕ
admit config o = do
  fail_if (not (rail_enabled config.enabled_rails (hint_of o.rail))) (terminal rail_not_enabled)
  amount ← amount_or (bad_amount (codes o.amount)) (parse_amount (codes o.amount))
  fail_if (is_negative amount) (terminal negative_amount)
  check_cap config.per_tx_cap amount
  ok amount

-- A flag is noted in the audit log.
abbrev pub judge :
    PaymentStore
    → PaymentOrder
    → Option ComplianceVerdict
    → PaymentStore × Result SettleOutcome (Unit {0})
judge s o none = (s, err (terminal scorer_failed))
judge s o (some accept) = (s, ok tt)
judge s o (some (flag reason)) =
    (record s { audits = s.audits ++ (order_flagged, o.payment_order_id) ∷ [] }, ok tt)
judge s o (some (reject reason)) = (s, err (terminal (rejected reason)))

unfoldable pub comply :
    Option (PaymentOrder → Option ComplianceVerdict)
    → PaymentStore
    → PaymentOrder
    → PaymentStore × Result SettleOutcome (Unit {0})
comply none s o = (s, ok tt)
comply (some score) s o = judge s o (score o)

abbrev pub has_receipt : Bytes → List (String × Bytes) → Bool
has_receipt hash [] = false
has_receipt hash ((id, other) ∷ rs) = if bytes_eq.beq other hash then true else has_receipt hash rs

-- `is_receipt_settled`
unfoldable pub is_receipt_settled : PaymentStore → Bytes → Bool
is_receipt_settled s hash = has_receipt hash s.receipts

-- The native rail has no dedupe cache, and alone moves the wallet.
abbrev pub is_native : RailHint → Bool
is_native native = true
is_native _ = false

abbrev settled_log :
    PaymentStore
    → PaymentOrder
    → RailHint
    → Bytes
    → PaymentStore × PaymentOrder × Result SettleOutcome (Unit {0})
settled_log s o hint hash = (
  record s {
    orders = update_order s.orders o;
    receipts = if is_native hint then s.receipts else s.receipts ++ (o.payment_order_id, hash) ∷ [];
    notifications = s.notifications ++ (order_settled, o.payment_order_id) ∷ [];
    audits = s.audits ++ (order_settled, o.payment_order_id) ∷ [];
  },
  o,
  ok tt,
)

-- The order's move to SUCCESS after its batch was posted.
abbrev pub settled :
    World
    → PaymentStore
    → PaymentOrder
    → RailHint
    → Bytes
    → Result TransitionError PaymentOrder
    → PaymentStore × PaymentOrder × Result SettleOutcome (Unit {0})
settled w s o hint hash (err e) = (s, o, err (terminal not_legal))
settled w s o hint hash (ok o') =
    settled_log s (record o' { ledger_updated = true; wallet_updated = is_native hint }) hint hash

abbrev pub posted :
    World
    → PaymentStore
    → PaymentOrder
    → RailHint
    → Bytes
    → Journal × Result JournalError String
    → PaymentStore × PaymentOrder × Result SettleOutcome (Unit {0})
posted w s o hint receipt (journal, err e) =
    (record s { journal = journal }, o, err (terminal (journal_refused e)))
posted w s o hint receipt (journal, ok batch) =
    let o' = record o { receipt = some receipt } in
    settled w (record s { journal = journal }) o' hint (w.hashing.sha3_256 receipt)
      (transition o' success w.now)

-- `settle_http402_success`, `settle_card_success`, and the same steps of the other two rails.
unfoldable pub settle_success :
    World
    → PaymentStore
    → PaymentOrder
    → RailHint
    → Bytes
    → PaymentStore × PaymentOrder × Result SettleOutcome (Unit {0})
unfolding is_receipt_settled
settle_success w s o hint receipt =
    if (if is_native hint then false else is_receipt_settled s (w.hashing.sha3_256 receipt))
    then (s, o, err (terminal duplicate_settlement))
    else posted w s o hint receipt (
        append_order_batch w.hashing w.stamp s.journal o.payment_order_id (codes o.amount)
          o.currency o.fx w.signer)

abbrev pub answered :
    World
    → PaymentStore
    → PaymentOrder
    → RailHint
    → RailAnswer
    → PaymentStore × PaymentOrder × Result SettleOutcome (Unit {0})
answered w s o hint (refused out) = (s, o, err out)
answered w s o hint (paid receipt) = settle_success w s o hint receipt

-- The rail is called with the amount, cut to 64 bits for the native one.
abbrev pub call_rail :
    World
    → PaymentOrder
    → ℕ
    → PaymentStore × Result SettleOutcome (Unit {0})
    → PaymentStore × PaymentOrder × Result SettleOutcome (Unit {0})
call_rail w o amount (s, err out) = (s, o, err out)
call_rail w o amount (s, ok u) =
    answered w s o (hint_of o.rail) (w.rail (hint_of o.rail) o (u64 amount))

abbrev pub settle_admitted :
    World
    → PaymentStore
    → PaymentOrder
    → Result SettleOutcome ℕ
    → PaymentStore × PaymentOrder × Result SettleOutcome (Unit {0})
settle_admitted w s o (err out) = (s, o, err out)
settle_admitted w s o (ok amount) = call_rail w o amount (comply w.score s o)

unfoldable pub settle :
    PaymentsConfig
    → World
    → PaymentStore
    → PaymentOrder
    → PaymentStore × PaymentOrder × Result SettleOutcome (Unit {0})
unfolding admit comply settle_success
settle config w s o = settle_admitted w s o (admit config o)
