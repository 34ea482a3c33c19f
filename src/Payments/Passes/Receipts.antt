-- ===== src/Payments/Passes/Receipts.antt =====
-- The dedupe cache of executor.rs: no receipt settles two orders on a rail that has the cache.
use Prim.Native.String.{String}
use mathlib.Core.List.{append-nil, append_assoc}
use origin_tools.Base.{
  ◌≢◌, sym, ap, subst, ◌∙◌, ℕ, ◌≡◌, refl, false, Option, none, some, List, [], ◌∷◌, ◌++◌,
  if◌then◌else◌, Bool-cases, inl, inr, Result, ok, err, u64, leb,
}
use origin_tools.Base.Bytes.{Bytes}
use origin_tools.Base.Decimal.{Text}
use origin_tools.Payments.Store.{update_order}
use origin_tools.Base.Eq.{bytes_eq}
use origin_tools.Payments.Order.{
  native, PaymentOrder, RailHint, success, executing, failed, requires_action, transition,
  TransitionError,
}
use origin_tools.Payments.Executor.{
  PaymentStore, PaymentsConfig, World, SettleOutcome, retryable, terminal, action_required, settle,
  settle_success, has_receipt, is_native, posted, settled, settle_admitted, call_rail, answered,
  admit, comply, judge, hint_of, refused, paid, RailAnswer, ComplianceVerdict, accept, flag, reject,
  Reason, rail_says,
}
use origin_tools.Payments.Passes.{
  process, after_settle, schedule_retry, mark_failed, begun, started, failed_with, wait_for,
  waiting, awaiting_action, executed,
}
use origin_tools.Payments.Passes.Guards.{IsNew, IsRecorded, process_executed, sent}
use origin_tools.Payments.Journal.{Journal, JournalError}

-- The second cache is the first with more lines behind it.
record Extends (before after : List (String × Bytes)) : Type 0 where
  more : List (String × Bytes)
  is_more : after ≡ before ++ more

same-Extends : (rs : List (String × Bytes)) → Extends rs rs
same-Extends rs = record { more = []; is_more = sym (append-nil rs) }

Extends-trans : (xs ys zs : List (String × Bytes)) → Extends xs ys → Extends ys zs → Extends xs zs
Extends-trans xs ys zs f g = record {
  more = f.more ++ g.more;
  is_more =
      g.is_more
      ∙ ap (λ (t : List (String × Bytes)). t ++ g.more) f.is_more
      ∙ append_assoc xs f.more g.more;
}

-- A hash that is new to the longer cache is new to the shorter one, and is not the hash of a line.
IsNew-append :
    (hash : Bytes) (xs ys : List (String × Bytes)) → IsNew hash (xs ++ ys) → IsNew hash xs
IsNew-append hash [] ys n = tt
IsNew-append hash ((id, other) ∷ xs) ys n = (n.0, IsNew-append hash xs ys n.1)

last-IsNew :
    (hash : Bytes) (id : String) (xs : List (String × Bytes)) → ¬ IsNew hash (xs ++ (id, hash) ∷ [])
last-IsNew hash id [] n = n.0 refl
last-IsNew hash id ((i, other) ∷ xs) n = last-IsNew hash id xs n.1

module _ (w : World) where
  settled-Extends :
      (s : PaymentStore) (o : PaymentOrder) (hint : RailHint) (hash : Bytes)
      (r : Result TransitionError PaymentOrder)
      → Extends s.receipts (settled w s o hint hash r).0.receipts
  settled-Extends s o hint hash (err e) = same-Extends s.receipts
  settled-Extends s o hint hash (ok o') = elim (Bool-cases (is_native hint)) [
    | inl yes_native ↦ rw yes_native (same-Extends s.receipts)
    | inr cached ↦ rw cached (record { more = (o'.payment_order_id, hash) ∷ []; is_more = refl })
  ]

  posted-Extends :
      (s : PaymentStore) (o : PaymentOrder) (hint : RailHint) (receipt : Bytes)
      (r : Journal × Result JournalError String)
      → Extends s.receipts (posted w s o hint receipt r).0.receipts
  posted-Extends s o hint receipt (journal, err e) = same-Extends s.receipts
  posted-Extends s o hint receipt (journal, ok batch) =
      settled-Extends (record s { journal = journal }) (record o { receipt = some receipt }) hint
        (w.hashing.sha3_256 receipt)
        (transition (record o { receipt = some receipt }) success w.now)

  settle_success-Extends :
      (s : PaymentStore) (o : PaymentOrder) (hint : RailHint) (receipt : Bytes)
      → Extends s.receipts (settle_success w s o hint receipt).0.receipts
  unfolding settle_success
  settle_success-Extends s o hint receipt =
      elim (Bool-cases
        (if is_native hint then false else has_receipt (w.hashing.sha3_256 receipt) s.receipts)) [
          | inl dup ↦ rw dup (same-Extends s.receipts)
          | inr new ↦ rw new (posted-Extends s o hint receipt _)
        ]

  answered-Extends :
      (s : PaymentStore) (o : PaymentOrder) (hint : RailHint) (a : RailAnswer)
      → Extends s.receipts (answered w s o hint a).0.receipts
  answered-Extends s o hint (refused out) = same-Extends s.receipts
  answered-Extends s o hint (paid receipt) = settle_success-Extends s o hint receipt

  judge-receipts :
      (s : PaymentStore) (o : PaymentOrder) (v : Option ComplianceVerdict)
      → (judge s o v).0.receipts ≡ s.receipts
  judge-receipts s o none = refl
  judge-receipts s o (some accept) = refl
  judge-receipts s o (some (flag why)) = refl
  judge-receipts s o (some (reject why)) = refl

  comply-receipts :
      (s : PaymentStore) (o : PaymentOrder)
      (score : Option (PaymentOrder → Option ComplianceVerdict))
      → (comply score s o).0.receipts ≡ s.receipts
  unfolding comply
  comply-receipts s o none = refl
  comply-receipts s o (some score) = judge-receipts s o (score o)

  call_rail-Extends :
      (o : PaymentOrder) (amount : ℕ) (r : PaymentStore × Result SettleOutcome (Unit {0}))
      → Extends r.0.receipts (call_rail w o amount r).0.receipts
  call_rail-Extends o amount (s, err out) = same-Extends s.receipts
  call_rail-Extends o amount (s, ok u) =
      answered-Extends s o (hint_of o.rail) (w.rail (hint_of o.rail) o (u64 amount))

  settle_admitted-Extends :
      (s : PaymentStore) (o : PaymentOrder) (r : Result SettleOutcome ℕ)
      → Extends s.receipts (settle_admitted w s o r).0.receipts
  settle_admitted-Extends s o (err out) = same-Extends s.receipts
  settle_admitted-Extends s o (ok amount) =
      subst
        (λ (rs : List (String × Bytes)).
          Extends rs (call_rail w o amount (comply w.score s o)).0.receipts)
        (comply-receipts s o w.score) (call_rail-Extends o amount (comply w.score s o))

-- What follows on a failure leaves the cache alone.
module _ (config : PaymentsConfig) (w : World) where
  failed_with-receipts :
      (s : PaymentStore) (reason : Reason) (r : Result TransitionError PaymentOrder)
      → (failed_with s reason r).0.receipts ≡ s.receipts
  failed_with-receipts s reason (err e) = refl
  failed_with-receipts s reason (ok o) = refl

  waiting-receipts :
      (s : PaymentStore) (why : Text) (d : String) (ms : ℕ)
      (r : Result TransitionError PaymentOrder)
      → (waiting s why d ms r).0.receipts ≡ s.receipts
  waiting-receipts s why d ms (err e) = refl
  waiting-receipts s why d ms (ok o) = refl

  wait_for-receipts :
      (s : PaymentStore) (o : PaymentOrder) (why : Text) (ms : Option ℕ)
      → (wait_for w s o why ms).0.receipts ≡ s.receipts
  wait_for-receipts s o why none = refl
  wait_for-receipts s o why (some ms) =
      waiting-receipts s why (w.after ms) ms (transition o failed w.now)

  schedule_retry-receipts :
      (s : PaymentStore) (o : PaymentOrder) (why : Text)
      → (schedule_retry config w s o why).0.receipts ≡ s.receipts
  unfolding schedule_retry mark_failed
  schedule_retry-receipts s o why = elim (Bool-cases (leb config.retry.max_attempts o.attempts)) [
    | inl late ↦ rw late (failed_with-receipts s (rail_says why) (transition o failed w.now))
    | inr early ↦ rw early (wait_for-receipts s o why _)
  ]

  awaiting_action-receipts :
      (s : PaymentStore) (r : Result TransitionError PaymentOrder)
      → (awaiting_action s r).0.receipts ≡ s.receipts
  awaiting_action-receipts s (err e) = refl
  awaiting_action-receipts s (ok o) = refl

  after_settle-receipts :
      (s : PaymentStore) (o : PaymentOrder) (r : Result SettleOutcome (Unit {0}))
      → (after_settle config w (s, o, r)).0.receipts ≡ s.receipts
  unfolding after_settle mark_failed
  after_settle-receipts s o (ok u) = refl
  after_settle-receipts s o (err (retryable why)) = schedule_retry-receipts s o why
  after_settle-receipts s o (err (action_required why)) =
      awaiting_action-receipts s (transition o requires_action w.now)
  after_settle-receipts s o (err (terminal reason)) =
      failed_with-receipts s reason (transition o failed w.now)

  begun-Extends :
      (s : PaymentStore) (r : Result TransitionError PaymentOrder)
      → Extends s.receipts (begun config w s r).0.receipts
  unfolding settle
  begun-Extends s (err e) = same-Extends s.receipts
  begun-Extends s (ok o) =
      let o' = started w o in
      let t = settle config w (record s { orders = update_order s.orders o' }) o' in
      rw (after_settle-receipts t.0 t.1 t.2) (
        settle_admitted-Extends w (record s { orders = update_order s.orders o' }) o'
          (admit config o'))

-- Turns of the loop, each with its settings, its world and its order.
abbrev pub process_all : List (PaymentsConfig × World × PaymentOrder) → PaymentStore → PaymentStore
process_all [] s = s
process_all ((config, w, o) ∷ turns) s = process_all turns (process config w s o).0

process-Extends :
    (config : PaymentsConfig) (w : World) (s : PaymentStore) (o : PaymentOrder)
    → Extends s.receipts (process config w s o).0.receipts
unfolding process
process-Extends config w s o = begun-Extends config w s (transition o executing w.now)

process_all-Extends :
    (turns : List (PaymentsConfig × World × PaymentOrder)) (s : PaymentStore)
    → Extends s.receipts (process_all turns s).receipts
process_all-Extends [] s = same-Extends s.receipts
process_all-Extends ((config, w, o) ∷ turns) s =
    Extends-trans s.receipts _ _ (process-Extends config w s o)
      (process_all-Extends turns (process config w s o).0)

-- What was recorded is not new to any later cache.
recorded-IsNew :
    (id : String) (hint : RailHint) (hash : Bytes) (before after later : List (String × Bytes))
    → hint ≢ native
    → IsRecorded id hint hash before after
    → Extends after later
    → ¬ IsNew hash later
recorded-IsNew id hint hash before after later other (inl q) x n = other q.0
recorded-IsNew id hint hash before after later other (inr q) x n =
    last-IsNew hash id before
      (subst (IsNew hash) q.1 (IsNew-append hash after x.more (subst (IsNew hash) x.is_more n)))

IsNew-recorded :
    (id : String) (hint : RailHint) (hash : Bytes) (before after : List (String × Bytes))
    → hint ≢ native
    → IsRecorded id hint hash before after
    → IsNew hash before
IsNew-recorded id hint hash before after other (inl q) = absurd (other q.0)
IsNew-recorded id hint hash before after other (inr q) = q.0

same_receipt :
    (a : RailAnswer) (receipt other : Bytes) → a ≡ paid receipt → a ≡ paid other → receipt ≡ other
same_receipt a receipt other e q = cc

-- A receipt settles one order at most: if an order was settled over a rail that is not the native one,
-- which answers it with a receipt whatever the amount, then after any further turns, no order over a
-- rail that is not the native one is settled by an answer, whatever the amount, with a receipt of the
-- same hash.
pub process_settles_once :
    (config config' : PaymentsConfig) (w w' : World) (s : PaymentStore) (o o' : PaymentOrder)
    (turns : List (PaymentsConfig × World × PaymentOrder)) (receipt receipt' : Bytes)
    → hint_of o.rail ≢ native
    → hint_of o'.rail ≢ native
    → ((amount : ℕ) → w.rail (hint_of o.rail) (sent w o) amount ≡ paid receipt)
    → ((amount : ℕ) → w'.rail (hint_of o'.rail) (sent w' o') amount ≡ paid receipt')
    → w.hashing.sha3_256 receipt ≡ w'.hashing.sha3_256 receipt'
    → (process config w s o).1 ≡ ok executed
    → (process config' w' (process_all turns (process config w s o).0) o').1 ≢ ok executed
process_settles_once config config' w w' s o o' turns receipt receipt' card card' pays pays' same e
      e' =
    let after = (process config w s o).0 in
    let later = process_all turns after in
    let first = process_executed config w s o e in
    let second = process_executed config' w' later o' e' in
    let r : receipt ≡ first.receipt = same_receipt _ _ _ (pays (u64 first.amount)) first.answer in
    let r' : receipt' ≡ second.receipt =
      same_receipt _ _ _ (pays' (u64 second.amount)) second.answer in
    let hashes : w'.hashing.sha3_256 second.receipt ≡ w.hashing.sha3_256 first.receipt =
      ap w'.hashing.sha3_256 (sym r') ∙ sym same ∙ ap w.hashing.sha3_256 r in
    recorded-IsNew o.payment_order_id (hint_of o.rail) (w.hashing.sha3_256 first.receipt) s.receipts
      after.receipts later.receipts card first.recorded (process_all-Extends turns after)
      (subst (λ (b : Bytes). IsNew b later.receipts) hashes
        (IsNew-recorded o'.payment_order_id (hint_of o'.rail) (w'.hashing.sha3_256 second.receipt)
          later.receipts _ card' second.recorded))
