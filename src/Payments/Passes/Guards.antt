-- ===== src/Payments/Passes/Guards.antt =====
-- What has to hold for executor.rs to settle an order.
use Prim.Native.String.{String}
use origin_tools.Base.{
  [], ◌∷◌, ◌++◌, ℕ, ◌≡◌, ◌≢◌, refl, subst, sym, ap, ◌⊎◌, true, false, Option, none, some, List,
  arith, if◌then◌else◌, Bool-cases, inl, inr, Result, ok, err, u64, leb,
}
use origin_tools.Base.Eq.{bytes_eq}
use origin_tools.Base.Bytes.{Bytes}
use origin_tools.Base.Decimal.{Text, codes}
use origin_tools.Payments.Order.{
  OrderStatus, native, http402, card, ach, PaymentOrder, RailHint, success, executing, failed,
  requires_action, transition, TransitionError, can_transition, invalid_transition,
}
use origin_tools.Payments.Store.{update_order}
use origin_tools.Payments.Executor.{
  PaymentStore, PaymentsConfig, World, SettleOutcome, retryable, terminal, action_required, settle,
  settle_success, has_receipt, is_receipt_settled, is_native, posted, settled, settle_admitted,
  call_rail, answered, admit, comply, judge, hint_of, refused, paid, RailAnswer, Reason, rail_says,
  ComplianceVerdict, reject, accept, flag, Notice,
}
use origin_tools.Payments.Passes.{
  executed, process, after_settle, schedule_retry, mark_failed, begun, failed_with, wait_for,
  waiting, awaiting_action, started,
}
use origin_tools.Payments.Journal.{Journal, JournalError, append_order_batch}
use origin_tools.Payments.Passes.Admitted.{IsAdmitted, admit-ok}

-- The scorer, if there is one, accepts the order or flags it.
abbrev pub LetsPass : Option (PaymentOrder → Option ComplianceVerdict) → PaymentOrder → Type 0
LetsPass none o = Unit
LetsPass (some score) o = (score o ≡ some accept) ⊎ ((why : String) × (score o ≡ some (flag why)))

-- No line of the cache has the hash.
abbrev pub IsNew : Bytes → List (String × Bytes) → Type 0
IsNew hash [] = Unit
IsNew hash ((id, other) ∷ rs) = (other ≢ hash) × IsNew hash rs

-- The native rail leaves the cache alone; on every other one the hash is new, and the cache ends with
-- it and the order's id.
abbrev pub IsRecorded :
    String → RailHint → Bytes → List (String × Bytes) → List (String × Bytes) → Type 0
IsRecorded id hint hash before after =
    ((hint ≡ native) × (after ≡ before)) ⊎ (IsNew hash before × (after ≡ before ++ (id, hash) ∷ []))

has_receipt-IsNew :
    (hash : Bytes) (rs : List (String × Bytes)) → has_receipt hash rs ≡ false → IsNew hash rs
has_receipt-IsNew hash [] e = tt
has_receipt-IsNew hash ((id, other) ∷ rs) e = elim (Bool-cases (bytes_eq.beq other hash)) [
  | inl here ↦ absurd (ground (arith, rw here at e))
  | inr apart ↦ (
    λ q. ground (arith, (bytes_eq.beq_iff other hash).1 q),
    has_receipt-IsNew hash rs (rw apart at e),
  )
]

transition-ok :
    (o o' : PaymentOrder) (to : OrderStatus) (now : String)
    → transition o to now ≡ ok o'
    → o' ≡ record o { status = to; updated_at = now }
unfolding transition
transition-ok o o' to now e = elim (Bool-cases (can_transition o.status to)) [
  | inl legal ↦ moved (rw legal at e)
  | inr illegal ↦ cc (stuck (rw illegal at e))
]
  where
    moved :
        ◌≡◌ {A = Result TransitionError PaymentOrder}
          (ok (record o { status = to; updated_at = now }))
          (ok o')
        → o' ≡ record o { status = to; updated_at = now }
    moved q = cc

    stuck :
        ◌≡◌ {A = Result TransitionError PaymentOrder} (err (invalid_transition o.status to)) (ok o')
        → true ≡ false
    stuck q = cc

module _ (w : World) where
  judge-audits :
      (s : PaymentStore) (o : PaymentOrder) (v : Option ComplianceVerdict)
      → (a : List (Notice × String)) × ((judge s o v).0 ≡ record s { audits = a })
  judge-audits s o none = (s.audits, refl)
  judge-audits s o (some accept) = (s.audits, refl)
  judge-audits s o (some (flag why)) = ((judge s o (some (flag why))).0.audits, refl)
  judge-audits s o (some (reject why)) = (s.audits, refl)

  -- The scorer writes nothing but an audit record.
  comply-audits :
      (s : PaymentStore) (o : PaymentOrder)
      (score : Option (PaymentOrder → Option ComplianceVerdict))
      → (a : List (Notice × String)) × ((comply score s o).0 ≡ record s { audits = a })
  unfolding comply
  comply-audits s o none = (s.audits, refl)
  comply-audits s o (some score) = judge-audits s o (score o)

  judge-LetsPass :
      (s : PaymentStore) (o : PaymentOrder) (v : Option ComplianceVerdict)
      → (judge s o v).1 ≡ ok tt
      → (v ≡ some accept) ⊎ ((why : String) × (v ≡ some (flag why)))
  judge-LetsPass s o none e = cc
  judge-LetsPass s o (some accept) e = inl refl
  judge-LetsPass s o (some (flag why)) e = inr (why, refl)
  judge-LetsPass s o (some (reject why)) e = cc

  comply-LetsPass :
      (s : PaymentStore) (o : PaymentOrder)
      (score : Option (PaymentOrder → Option ComplianceVerdict))
      → (comply score s o).1 ≡ ok tt
      → LetsPass score o
  unfolding comply
  comply-LetsPass s o none e = tt
  comply-LetsPass s o (some score) e = judge-LetsPass s o (score o) e

  -- What a settled order leaves: a posted batch, and on a rail that is not the native one a receipt in
  -- the cache that was not in it.
  record Pays (s : PaymentStore) (o : PaymentOrder) (hint : RailHint) (receipt : Bytes)
      (after : PaymentStore) : Type 0 where
    recorded :
        IsRecorded o.payment_order_id hint (w.hashing.sha3_256 receipt) s.receipts after.receipts
    batch : String
    posts :
        append_order_batch w.hashing w.stamp s.journal o.payment_order_id
          (codes o.amount)
          o.currency
          o.fx
          w.signer
        ≡ (after.journal, ok batch)

  settled-ok :
      (s : PaymentStore) (o : PaymentOrder) (hint : RailHint) (hash : Bytes)
      (r : Result TransitionError PaymentOrder)
      → (settled w s o hint hash r).0.journal ≡ s.journal
  settled-ok s o hint hash (err e) = refl
  settled-ok s o hint hash (ok o') = refl

  settled-IsRecorded :
      (s : PaymentStore) (o : PaymentOrder) (hint : RailHint) (hash : Bytes) (id : String)
      (r : Result TransitionError PaymentOrder)
      → ((o' : PaymentOrder) → r ≡ ok o' → o'.payment_order_id ≡ id)
      → (if is_native hint then false else has_receipt hash s.receipts) ≡ false
      → (settled w s o hint hash r).2 ≡ ok tt
      → IsRecorded id hint hash s.receipts (settled w s o hint hash r).0.receipts
  settled-IsRecorded s o hint hash id (err e) same new q = cc
  settled-IsRecorded s o native hash id (ok o') same new q = inl (refl, refl)
  settled-IsRecorded s o http402 hash id (ok o') same new q =
      inr (has_receipt-IsNew hash s.receipts new, rw (same o' refl) refl)
  settled-IsRecorded s o card hash id (ok o') same new q =
      inr (has_receipt-IsNew hash s.receipts new, rw (same o' refl) refl)
  settled-IsRecorded s o ach hash id (ok o') same new q =
      inr (has_receipt-IsNew hash s.receipts new, rw (same o' refl) refl)

  posted-ok :
      (s : PaymentStore) (o : PaymentOrder) (hint : RailHint) (receipt : Bytes)
      (r : Journal × Result JournalError String)
      → (if is_native hint then false else has_receipt (w.hashing.sha3_256 receipt) s.receipts)
        ≡ false
      → (posted w s o hint receipt r).2 ≡ ok tt
      → (batch : String) × (r ≡ ((posted w s o hint receipt r).0.journal, ok batch))
        × IsRecorded o.payment_order_id hint
            (w.hashing.sha3_256 receipt)
            s.receipts
            (posted w s o hint receipt r).0.receipts
  posted-ok s o hint receipt (journal, err e) new q = cc
  posted-ok s o hint receipt (journal, ok batch) new q =
      let paid_order = record o { receipt = some receipt } in
      (
        batch,
        ap (λ (j : Journal). (j, ok batch))
            (sym (settled-ok _ _ hint _ (transition paid_order success w.now))),
        settled-IsRecorded (record s { journal = journal }) paid_order hint
            (w.hashing.sha3_256 receipt) o.payment_order_id (transition paid_order success w.now)
            (λ o' t.
              ap (λ (p : PaymentOrder). p.payment_order_id)
                (transition-ok paid_order o' success w.now t))
            new q,
      )

  settle_success-ok :
      (s : PaymentStore) (o : PaymentOrder) (hint : RailHint) (receipt : Bytes)
      → (settle_success w s o hint receipt).2 ≡ ok tt
      → Pays s o hint receipt (settle_success w s o hint receipt).0
  unfolding settle_success is_receipt_settled
  settle_success-ok s o hint receipt =
      elim (Bool-cases
        (if is_native hint then false else has_receipt (w.hashing.sha3_256 receipt) s.receipts)) [
          | inl dup ↦ rw dup (λ e. cc)
          | inr new ↦ rw new λ e.
              let (batch, q, new_receipt) = posted-ok s o hint receipt _ new e in
              record { recorded = new_receipt; batch = batch; posts = q }
        ]

  record Answers (s : PaymentStore) (o : PaymentOrder) (amount : ℕ) (after : PaymentStore)
      : Type 0 where
    receipt : Bytes
    answer : w.rail (hint_of o.rail) o (u64 amount) ≡ paid receipt
    pays : Pays s o (hint_of o.rail) receipt after

  answered-ok :
      (s : PaymentStore) (o : PaymentOrder) (hint : RailHint) (a : RailAnswer)
      → (answered w s o hint a).2 ≡ ok tt
      → (receipt : Bytes) × (a ≡ paid receipt) × Pays s o hint receipt (answered w s o hint a).0
  answered-ok s o hint (refused out) e = cc
  answered-ok s o hint (paid receipt) e = (receipt, refl, settle_success-ok s o hint receipt e)

  call_rail-ok :
      (o : PaymentOrder) (amount : ℕ) (r : PaymentStore × Result SettleOutcome (Unit {0}))
      → (call_rail w o amount r).2 ≡ ok tt
      → (r.1 ≡ ok tt) × Answers r.0 o amount (call_rail w o amount r).0
  call_rail-ok o amount (s, err out) e = cc
  call_rail-ok o amount (s, ok u) e =
      let (receipt, a, p) =
        answered-ok s o (hint_of o.rail) (w.rail (hint_of o.rail) o (u64 amount)) e in
      (refl, record { receipt = receipt; answer = a; pays = p })

  settle_admitted-ok :
      (s : PaymentStore) (o : PaymentOrder) (r : Result SettleOutcome ℕ)
      → (settle_admitted w s o r).2 ≡ ok tt
      → (amount : ℕ) × (r ≡ ok amount)
        × ((comply w.score s o).1 ≡ ok tt)
        × Answers (comply w.score s o).0 o amount (settle_admitted w s o r).0
  settle_admitted-ok s o (err out) e = cc
  settle_admitted-ok s o (ok amount) e =
      let (c, a) = call_rail-ok o amount (comply w.score s o) e in (amount, refl, c, a)

  failed_with-ne-executed :
      (s : PaymentStore) (reason : Reason) (r : Result TransitionError PaymentOrder)
      → (failed_with s reason r).1 ≢ ok executed
  failed_with-ne-executed s reason (err e) q = cc
  failed_with-ne-executed s reason (ok o) q = cc

  waiting-ne-executed :
      (s : PaymentStore) (why : Text) (d : String) (ms : ℕ)
      (r : Result TransitionError PaymentOrder)
      → (waiting s why d ms r).1 ≢ ok executed
  waiting-ne-executed s why d ms (err e) q = cc
  waiting-ne-executed s why d ms (ok o) q = cc

  wait_for-ne-executed :
      (s : PaymentStore) (o : PaymentOrder) (why : Text) (ms : Option ℕ)
      → (wait_for w s o why ms).1 ≢ ok executed
  wait_for-ne-executed s o why none q = cc
  wait_for-ne-executed s o why (some ms) q = waiting-ne-executed s why _ ms _ q

  awaiting_action-ne-executed :
      (s : PaymentStore) (r : Result TransitionError PaymentOrder)
      → (awaiting_action s r).1 ≢ ok executed
  awaiting_action-ne-executed s (err e) q = cc
  awaiting_action-ne-executed s (ok o) q = cc

  schedule_retry-ne-executed :
      (config : PaymentsConfig) (s : PaymentStore) (o : PaymentOrder) (why : Text)
      → (schedule_retry config w s o why).1 ≢ ok executed
  unfolding schedule_retry mark_failed
  schedule_retry-ne-executed config s o why =
      elim (Bool-cases (leb config.retry.max_attempts o.attempts)) [
        | inl late ↦ rw late (failed_with-ne-executed s (rail_says why) (transition o failed w.now))
        | inr early ↦ rw early (wait_for-ne-executed s o why _)
      ]

  after_settle-executed :
      (config : PaymentsConfig) (s : PaymentStore) (o : PaymentOrder)
      (r : Result SettleOutcome (Unit {0}))
      → (after_settle config w (s, o, r)).1 ≡ ok executed
      → (r ≡ ok tt) × ((after_settle config w (s, o, r)).0 ≡ s)
  unfolding after_settle mark_failed
  after_settle-executed config s o (ok u) e = (refl, refl)
  after_settle-executed config s o (err (retryable why)) e =
      absurd (schedule_retry-ne-executed config s o why e)
  after_settle-executed config s o (err (action_required why)) e =
      absurd (awaiting_action-ne-executed s (transition o requires_action w.now) e)
  after_settle-executed config s o (err (terminal reason)) e =
      absurd (failed_with-ne-executed s reason (transition o failed w.now) e)

-- The order as a pass hands it to the rail, and the store as it is then.
abbrev pub sent : World → PaymentOrder → PaymentOrder
sent w o = started w (record o { status = executing; updated_at = w.now })

abbrev pub writing : World → PaymentStore → PaymentOrder → PaymentStore
writing w s o = record s { orders = update_order s.orders (sent w o) }

-- What an order that was settled went through.
pub record IsSettled (config : PaymentsConfig) (w : World) (s : PaymentStore) (o : PaymentOrder)
    (after : PaymentStore) : Type 0 where
  pub amount : ℕ
  pub admitted : IsAdmitted config o amount
  pub complied : LetsPass w.score (sent w o)
  pub receipt : Bytes
  pub answer : w.rail (hint_of o.rail) (sent w o) (u64 amount) ≡ paid receipt
  pub recorded :
      IsRecorded o.payment_order_id
        (hint_of o.rail)
        (w.hashing.sha3_256 receipt)
        s.receipts
        after.receipts
  pub batch : String
  pub posted :
      append_order_batch w.hashing w.stamp s.journal o.payment_order_id
        (codes o.amount)
        o.currency
        o.fx
        w.signer
      ≡ (after.journal, ok batch)

rail_path :
    (config : PaymentsConfig) (w : World) (s : PaymentStore) (o : PaymentOrder)
    → (after_settle config w (settle config w (writing w s o) (sent w o))).1 ≡ ok executed
    → IsSettled config w s o (after_settle config w (settle config w (writing w s o) (sent w o))).0
unfolding settle
rail_path config w s o e =
    let t = settle config w (writing w s o) (sent w o) in
    let (done, same) = after_settle-executed w config t.0 t.1 t.2 e in
    let (amount, a, c, ans) =
      settle_admitted-ok w (writing w s o) (sent w o) (admit config (sent w o)) done in
    let (audits, q) = comply-audits w (writing w s o) (sent w o) w.score in
    let pays =
      subst (λ (r : PaymentStore). Pays w r (sent w o) (hint_of o.rail) ans.receipt t.0) q
        ans.pays in
    let adm = admit-ok config (sent w o) amount a in
    rw same (record {
      amount = amount;
      admitted = record {
        enabled = adm.enabled;
        parsed = adm.parsed;
        not_negative = adm.not_negative;
        within_cap = adm.within_cap;
      };
      complied = comply-LetsPass w (writing w s o) (sent w o) w.score c;
      receipt = ans.receipt;
      answer = ans.answer;
      recorded = pays.recorded;
      batch = pays.batch;
      posted = pays.posts;
    })

begun-executed :
    (config : PaymentsConfig) (w : World) (s : PaymentStore) (o : PaymentOrder)
    (r : Result TransitionError PaymentOrder)
    → r ≡ transition o executing w.now
    → (begun config w s r).1 ≡ ok executed
    → IsSettled config w s o (begun config w s r).0
begun-executed config w s o (err e) t = λ q. cc
begun-executed config w s o (ok o') t =
    rw (transition-ok o o' executing w.now (sym t)) (rail_path config w s o)

-- An order is settled in a pass only if its rail is one of the enabled ones, its amount parses, is
-- not negative and not above the cap, the scorer, if there is one, accepted or flagged it, the rail
-- answered with a receipt, and its batch was posted; and then the journal is the one with that
-- batch. On every rail but the native one the receipt's hash was not in the cache, and is its last
-- line after.
pub process_executed :
    (config : PaymentsConfig) (w : World) (s : PaymentStore) (o : PaymentOrder)
    → (process config w s o).1 ≡ ok executed
    → IsSettled config w s o (process config w s o).0
unfolding process
process_executed config w s o e = begun-executed config w s o (transition o executing w.now) refl e
