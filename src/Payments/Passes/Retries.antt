-- ===== src/Payments/Passes/Retries.antt =====
-- Orders that keep failing in executor.rs: how they reach the dead-letter queue, and that they are
-- taken up again after that.
use origin_tools.Base.{
  ℕ, suc, ◌+◌, ◌-◌, ◌≤◌, ◌<◌, ◌≡◌, refl, ◌∙◌, ap, subst, true, none, some, List, [], ◌∷◌, ◌++◌,
  arith, if◌then◌else◌, length, length-append, ok, u64, ge→leb, le→leb,
}
use native.Mathlib.Decide.{dec_le}
use Prim.Native.String.{String}
use origin_tools.Base.Eq.{string_eq}
use origin_tools.Base.Decimal.{Text}
use origin_tools.Payments.Order.{PaymentOrder, not_started, failed, executing, transition}
use origin_tools.Payments.Store.{OrderLog, update_order, append_order}
use origin_tools.Payments.Retry.{RetryPolicy, extract_retry_after_ms}
use origin_tools.Payments.Retry.Backoff.{next_backoff_ms_bounds}
use origin_tools.Payments.Executor.{
  PaymentStore, DlqRecord, PaymentsConfig, World, refused, retryable, admit, hint_of, comply,
  settle,
}
use origin_tools.Payments.Passes.{
  process, passes, is_ready, last_line, started, schedule_retry, mark_failed, after_settle,
}

last_line-snoc : (o p : PaymentOrder) (log : OrderLog) → last_line o (log ++ p ∷ []) ≡ p
last_line-snoc o p [] = refl
last_line-snoc o p (q ∷ qs) = last_line-snoc q p qs

-- A world in which an order is due and the rail is down.
pub record IsDown (w : World) : Type 0 where
  pub due : (deadline : String) → w.is_due deadline ≡ true
  pub unscored : w.score ≡ none
  pub down :
      (o : PaymentOrder) (amount : ℕ)
      → (why : Text) × (w.rail (hint_of o.rail) o amount ≡ refused (retryable why))

-- How many dead letters name the order.
abbrev pub letters_for : String → List DlqRecord → ℕ
letters_for id [] = 0
letters_for id (d ∷ ds) =
    if string_eq.beq d.payment_order_id id then suc (letters_for id ds) else letters_for id ds

letters_for-snoc :
    (ds : List DlqRecord) (d : DlqRecord)
    → letters_for d.payment_order_id (ds ++ d ∷ []) ≡ letters_for d.payment_order_id ds + 1
letters_for-snoc [] d = ground (arith, string_eq.beq_iff d.payment_order_id d.payment_order_id)
letters_for-snoc (c ∷ ds) d = ground (arith, letters_for-snoc ds d)

-- The order that a failed pass leaves, after so many attempts.
record Keeps (o o' : PaymentOrder) (attempts : ℕ) : Type 0 where
  same_id : o'.payment_order_id ≡ o.payment_order_id
  same_rail : o'.rail ≡ o.rail
  same_amount : o'.amount ≡ o.amount
  counted : o'.attempts ≡ attempts
  is_failed : o'.status ≡ failed

module _ (config : PaymentsConfig) (w : World) (s : PaymentStore) (before o : PaymentOrder) where
  schedule_retry_early :
      (why : Text)
      → o.status ≡ executing
      → o.attempts < config.retry.max_attempts
      → 0 < config.retry.cap_ms
      → config.retry.cap_ms < 288230376151711744
      → let s' = (schedule_retry config w s o why).0 in
        Keeps o (last_line before s'.orders) o.attempts
        × ((d : String) × ((last_line before s'.orders).next_retry_at ≡ some d))
        × (s'.dlq ≡ s.dlq)
  unfolding schedule_retry transition update_order append_order
  schedule_retry_early why e h p b =
      let (ms, q, pos, top, least) =
        next_backoff_ms_bounds config.retry o.attempts (extract_retry_after_ms why) w.raw p b in
      rw (ge→leb _ _ h, q, e, last_line-snoc)
        (
          record {
            same_id = refl;
            same_rail = refl;
            same_amount = refl;
            counted = refl;
            is_failed = refl;
          },
          (w.after ms, refl),
          refl,
        )

  schedule_retry_late :
      (why : Text)
      → o.status ≡ executing
      → config.retry.max_attempts ≤ o.attempts
      → let s' = (schedule_retry config w s o why).0 in
        Keeps o (last_line before s'.orders) o.attempts
        × ((last_line before s'.orders).next_retry_at ≡ o.next_retry_at)
        × (length s'.dlq ≡ length s.dlq + 1)
        × (letters_for o.payment_order_id s'.dlq ≡ letters_for o.payment_order_id s.dlq + 1)
  unfolding schedule_retry mark_failed transition update_order append_order
  schedule_retry_late why e h =
      rw (le→leb _ _ h, e, last_line-snoc)
        (
          record {
            same_id = refl;
            same_rail = refl;
            same_amount = refl;
            counted = refl;
            is_failed = refl;
          },
          refl,
          omega (arith, length-append s.dlq),
          letters_for-snoc s.dlq _,
        )

abbrev pub All {ℓ κ} : {A : Type ℓ} → (A → Type κ) → List A → Type κ
All P [] = Unit
All P (x ∷ xs) = P x × All P xs

-- An order that waits for its turn: not started yet, or failed with a time to retry at.
data IsWaiting (o : PaymentOrder) : Type 0 where
  fresh : o.status ≡ not_started → o.attempts ≡ 0 → IsWaiting o
  again : o.status ≡ failed → (d : String) → o.next_retry_at ≡ some d → IsWaiting o

is_ready-IsWaiting :
    (w : World) (o : PaymentOrder) → IsDown w → IsWaiting o → is_ready w o o.status ≡ true
unfolding is_ready
is_ready-IsWaiting w o d (fresh e z) = rw e
is_ready-IsWaiting w o d (again e x q) = rw (e, q) (d.due x)

admit-cong :
    (config : PaymentsConfig) (o o' : PaymentOrder)
    → o'.rail ≡ o.rail
    → o'.amount ≡ o.amount
    → admit config o' ≡ admit config o
unfolding admit
admit-cong config o o' r a = rw (r, a)

-- The order that goes to the rail.
abbrev sent : World → PaymentOrder → PaymentOrder
sent w o = started w (record o { status = executing; updated_at = w.now })

-- While the rail is down, a pass over an order that may be paid is a call of `schedule_retry`.
process_down :
    (config : PaymentsConfig) (w : World) (s : PaymentStore) (o : PaymentOrder) (amount : ℕ)
    → IsDown w
    → IsWaiting o
    → admit config o ≡ ok amount
    → (why : Text) × (process config w s o
        ≡ schedule_retry config w
            (record s { orders = update_order s.orders (sent w o) })
            (sent w o)
            why)
unfolding process transition after_settle settle comply
process_down config w s o amount d (fresh e z) a =
    let (why, r) = d.down (sent w o) (u64 amount) in
    (why, rw (e, admit-cong config o (sent w o) refl refl, a, d.unscored, r))
process_down config w s o amount d (again e x q) a =
    let (why, r) = d.down (sent w o) (u64 amount) in
    (why, rw (e, admit-cong config o (sent w o) refl refl, a, d.unscored, r))

-- The order and the store after so many attempts, from a number of dead letters on.
record Stands (config : PaymentsConfig) (id : String) (letters own amount k : ℕ) (s : PaymentStore)
    (o : PaymentOrder) : Type 0 where
  same_id : o.payment_order_id ≡ id
  waits : IsWaiting o
  counts : o.attempts ≡ k
  payable : admit config o ≡ ok amount
  dead_letters : length s.dlq ≡ letters + (k + 1 - config.retry.max_attempts)
  own_letters : letters_for id s.dlq ≡ own + (k + 1 - config.retry.max_attempts)

-- Limits within which neither a counter wraps nor a waiting time panics.
pub record IsSane (policy : RetryPolicy) : Type 0 where
  pub tries : 2 ≤ policy.max_attempts
  pub waits : 0 < policy.cap_ms
  pub bounded : policy.cap_ms < 288230376151711744

module _ (config : PaymentsConfig) (sane : IsSane config.retry) (id : String)
    (letters own amount : ℕ) where
  abbrev Next : ℕ → PaymentStore → PaymentOrder → Type 0
  Next k s o = Stands config id letters own amount k s o

  retry_time :
      (o : PaymentOrder) → IsWaiting o → 0 < o.attempts → (d : String) × (o.next_retry_at ≡ some d)
  retry_time o (fresh e z) h = absurd (omega arith)
  retry_time o (again e d q) h = (d, q)

  module _ (w : World) (s : PaymentStore) (o : PaymentOrder) (why : Text) (k : ℕ)
      (st : Stands config id letters own amount k s o) (small : k + 1 < 4294967296) where
    abbrev writing : PaymentStore
    writing = record s { orders = update_order s.orders (sent w o) }

    sent-attempts : (sent w o).attempts ≡ k + 1
    sent-attempts = let e : o.attempts ≡ k = st.counts in rw e (omega arith)

    step_early :
        k + 1 < config.retry.max_attempts
        → let s' = (schedule_retry config w writing (sent w o) why).0 in
          Stands config id letters own amount (k + 1) s' (last_line o s'.orders)
    step_early h =
        let (kept, (d, q), dlq) =
          schedule_retry_early config w writing o (sent w o) why refl (omega (arith, sent-attempts))
            sane.waits sane.bounded in
        record {
          same_id = kept.same_id ∙ st.same_id;
          waits = again kept.is_failed d q;
          counts = kept.counted ∙ sent-attempts;
          payable = admit-cong config o _ kept.same_rail kept.same_amount ∙ st.payable;
          dead_letters = omega (arith, ap (λ (l : List DlqRecord). length l) dlq, st.dead_letters);
          own_letters =
              omega (arith, ap (λ (l : List DlqRecord). letters_for id l) dlq, st.own_letters);
        }

    step_late :
        config.retry.max_attempts ≤ k + 1
        → let s' = (schedule_retry config w writing (sent w o) why).0 in
          Stands config id letters own amount (k + 1) s' (last_line o s'.orders)
    step_late h =
        let (kept, time, dlq, own_dlq) =
          schedule_retry_late config w writing o (sent w o) why refl
            (omega (arith, sent-attempts)) in
        let (d, q) = retry_time o st.waits (omega (arith, st.counts, sane.tries)) in
        record {
          same_id = kept.same_id ∙ st.same_id;
          waits = again kept.is_failed d (time ∙ q);
          counts = kept.counted ∙ sent-attempts;
          payable = admit-cong config o _ kept.same_rail kept.same_amount ∙ st.payable;
          dead_letters = omega (arith, dlq, st.dead_letters);
          own_letters = omega (
            arith,
            subst
                (λ (i : String).
                  letters_for i (schedule_retry config w writing (sent w o) why).0.dlq
                  ≡ letters_for i s.dlq + 1)
                st.same_id own_dlq,
            st.own_letters,
          );
        }

  step :
      (w : World) (s : PaymentStore) (o : PaymentOrder) (k : ℕ)
      → IsDown w
      → Stands config id letters own amount k s o
      → k + 1 < 4294967296
      → let s' = (process config w s o).0 in
        Stands config id letters own amount (k + 1) s' (last_line o s'.orders)
  step w s o k d st b =
      let (why, e) = process_down config w s o amount d st.waits st.payable in
      rw e (elim (dec_le config.retry.max_attempts (k + 1)) [
        | yes late ↦ step_late w s o why k st b late
        | no early ↦ step_early w s o why k st b (omega arith)
      ])

  passes-Stands :
      (ws : List World) (s : PaymentStore) (o : PaymentOrder) (k : ℕ)
      → All IsDown ws
      → Stands config id letters own amount k s o
      → k + length ws < 4294967296
      → Stands config id letters own amount
          (k + length ws)
          (passes config ws s o).0
          (passes config ws s o).1
  unfolding passes
  passes-Stands [] s o k down st b = let e : k + 0 ≡ k = omega arith in rw e st
  passes-Stands (w ∷ ws) s o k (d, down) st b =
      let e : k + suc (length ws) ≡ k + 1 + length ws = omega arith in
      rw (passes, is_ready-IsWaiting w o d st.waits, e)
        (passes-Stands ws (process config w s o).0 (last_line o (process config w s o).0.orders)
          (k + 1) down (step w s o k d st (omega arith)) (omega arith))

-- A new order that may be sent, without a compliance scorer, under a policy of two attempts or more
-- with a cap that is not zero and below 2^58: while the rail is down and every deadline passes, each
-- of fewer than 2^32 passes is one attempt. The pass that uses up the attempts, and every one after
-- it, adds one record to the dead-letter queue, and each names this order; and the order stays ready
-- for a next pass.
pub passes_down :
    (config : PaymentsConfig) (ws : List World) (s : PaymentStore) (o : PaymentOrder) (amount : ℕ)
    → IsSane config.retry
    → o.status ≡ not_started
    → o.attempts ≡ 0
    → admit config o ≡ ok amount
    → All IsDown ws
    → length ws < 4294967296
    → (next : World) → IsDown next
    → let (s', o') = passes config ws s o in
      (o'.attempts ≡ length ws)
      × (length s'.dlq ≡ length s.dlq + (length ws + 1 - config.retry.max_attempts))
      × (letters_for o.payment_order_id s'.dlq
          ≡ letters_for o.payment_order_id s.dlq + (length ws + 1 - config.retry.max_attempts))
      × (is_ready next o' o'.status ≡ true)
passes_down config ws s o amount sane fresh_status no_attempts payable down small next due =
    let st =
      passes-Stands config sane o.payment_order_id (length s.dlq)
        (letters_for o.payment_order_id s.dlq) amount ws s o 0 down
        (record {
          same_id = refl;
          waits = fresh fresh_status no_attempts;
          counts = no_attempts;
          payable = payable;
          dead_letters = omega (arith, sane.tries);
          own_letters = omega (arith, sane.tries);
        })
        (omega arith) in
    (
      omega (arith, st.counts),
      omega (arith, st.dead_letters),
      omega (arith, st.own_letters),
      is_ready-IsWaiting next (passes config ws s o).1 due st.waits,
    )
