-- ===== src/Payments/Journal/Convert.antt =====
-- The converted batch of journal.rs: the two legs that an order with a rate posts do balance.
use Prim.Native.String.{String}
use origin_tools.Base.{
  ℕ, ◌*◌, ◌/◌, ◌^◌, ◌<◌, ◌≡◌, refl, sym, ◌∙◌, ap, true, false, not, ◌||◌, Option, some, List, [],
  ◌∷◌, ◌++◌, arith, ltb, ◌==◌, Bool-cases, inl, inr, if◌then◌else◌, Result, ok, err,
}
use origin_tools.Base.Bytes.{Bytes}
use origin_tools.Base.Decimal.{Text, codes}
use origin_tools.Base.Eq.{string_eq}
use origin_tools.Payments.Order.{FxRate}
use origin_tools.Payments.Journal.Amount.{parse_amount-fmt_amount}
use origin_tools.Payments.Journal.Balance.{total, net_at-net_from, total-post_all}
use origin_tools.Payments.Journal.{
  Journal, LedgerPosting, Stamp, Hashing, OperatorKeys, JournalError, add, negate, mul, is_positive,
  div_by, i128_half, parse_amount, parse_rate, fx_nets, same_bool, unsigned_abs, abs_diff,
  rate_scale, check_nets, post_all, post_next, sign_posting, append_order_batch, append_converted,
  append_fx_batch, finish, net_at, net_by_currency, journal_head, to_minor, fx_legs, fx_drafts,
  check_fx_batch, posting_hash,
}

-- What an order of `a` minor units converts to.
abbrev pub converted : ℕ → ℕ → ℕ
converted a r = a * r / 1000000

-- A currency's net after `a` came in from one currency and `b` went out in the other.
abbrev pub exchanged : FxRate → ℕ → ℕ → String → ℕ → ℕ
exchanged rate a b c net =
    let net' = if string_eq.beq rate.from_currency c then add net a else net in
    if string_eq.beq rate.to_currency c then add net' (negate b) else net'

string_beq_refl : (s : String) → string_eq.beq s s ≡ true
string_beq_refl s = (string_eq.beq_iff s s).1 refl

pair_path :
    {m n a b : ℕ} → m ≡ a → n ≡ b → ◌≡◌ {A = Result JournalError (ℕ × ℕ)} (ok (m, n)) (ok (a, b))
pair_path p q = cc

diff_self : (m : ℕ) → ltb 1 (abs_diff m m) ≡ false
diff_self m = ground arith

-- With signatures that do not fail the whole batch is written.
post_next-ok :
    (log : Journal) (q : Result JournalError LedgerPosting)
    (rest : LedgerPosting → Journal × Result JournalError (Unit {0}))
    → (p : LedgerPosting) × (q ≡ ok p)
    → ((p : LedgerPosting) → (rest p).1 ≡ ok tt)
    → (post_next log q rest).1 ≡ ok tt
post_next-ok log (ok p) rest signs written = written p
post_next-ok log (err e) rest signs written = cc (signs.1)

post_all-ok :
    (h : Hashing) (signer : Option OperatorKeys)
    → ((p : LedgerPosting) → (q : LedgerPosting) × (sign_posting h p signer ≡ ok q))
    → (log : Journal) (prev : Bytes) (ds : List LedgerPosting)
    → (post_all h signer log prev ds).1 ≡ ok tt
unfolding post_all
post_all-ok h signer signs log prev [] = refl
post_all-ok h signer signs log prev (d ∷ ds) =
    post_next-ok log (sign_posting h (record d { prev_hash = prev }) signer) _
      (signs (record d { prev_hash = prev }))
      (λ p. post_all-ok h signer signs (log ++ p ∷ []) (posting_hash h p) ds)

finish-ok :
    (st : Stamp) (w : Journal × Result JournalError (Unit {0}))
    → w.1 ≡ ok tt
    → finish st w ≡ (w.0, ok st.batch_id)
finish-ok st (log, ok u) e = refl
finish-ok st (log, err x) e = cc

module _ (rate : FxRate) (amount : Text) (a r : ℕ) (amount_is : parse_amount amount ≡ ok a)
    (rate_is : parse_rate (codes rate.rate) ≡ ok r) (positive : 0 < converted a r)
    (fits : a * r < i128_half) (bounded : a < i128_half) (rate_bounded : r < i128_half)
    (other : string_eq.beq rate.to_currency rate.from_currency ≡ false) where
  to_minor_lem : to_minor amount rate ≡ ok (converted a r)
  to_minor_lem = rw (amount_is, rate_is) (ap ok (ground arith))

  a_zero : a ≡ 0 → ⊥
  a_zero e = omega (arith, ap (λ (n : ℕ). n * r) e)

  r_zero : r ≡ 0 → ⊥
  r_zero e = omega (arith, ap (λ (n : ℕ). a * n) e)

  a_pos : 0 < a
  a_pos = elim (Bool-cases (ltb 0 a)) [
    | inl y ↦ ground arith
    | inr z ↦ absurd (a_zero (ground arith))
  ]

  r_pos : 0 < r
  r_pos = elim (Bool-cases (ltb 0 r)) [
    | inl y ↦ ground arith
    | inr z ↦ absurd (r_zero (ground arith))
  ]

  nets_lem : fx_nets rate 0 0 (fx_legs amount rate (converted a r)) ≡ ok (a, negate (converted a r))
  unfolding fx_nets
  nets_lem =
      rw
        (
          amount_is,
          string_beq_refl rate.from_currency,
          parse_amount-fmt_amount (converted a r) (ground arith),
          other,
          string_beq_refl rate.to_currency,
        )
        (pair_path (ground arith) (ground arith))

  test_one : (a == 0 || negate (converted a r) == 0) ≡ false
  test_one = ground (arith, a_pos)

  test_two : same_bool (is_positive a) (is_positive (negate (converted a r))) ≡ false
  test_two = ground (arith, a_pos)

  test_three : not (is_positive r) ≡ false
  test_three = ground (arith, r_pos)

  div_lem : div_by (mul (unsigned_abs a) r) (10 ^ rate_scale) ≡ converted a r
  div_lem = let e : unsigned_abs a ≡ a = ground arith in rw e (ground arith)

  abs_lem : unsigned_abs (negate (converted a r)) ≡ converted a r
  abs_lem = ground arith

  test_four :
      ltb 1 (
        abs_diff
          (div_by (mul (unsigned_abs a) r) (10 ^ rate_scale))
          (unsigned_abs (negate (converted a r))))
      ≡ false
  test_four = rw (div_lem, abs_lem) (diff_self (converted a r))

  check_nets_lem : check_nets rate a (negate (converted a r)) ≡ ok tt
  check_nets_lem = rw (test_one, test_two, rate_is, test_three, test_four) refl

  checked : check_fx_batch (fx_legs amount rate (converted a r)) rate ≡ ok tt
  checked = rw nets_lem check_nets_lem

  drafts_total :
      (st : Stamp) (id c : String) (net : ℕ)
      → total c net (fx_drafts st id rate 0 (fx_legs amount rate (converted a r)))
        ≡ exchanged rate a (converted a r) c net
  unfolding total fx_drafts
  drafts_total st id c net =
      rw (amount_is, parse_amount-fmt_amount (converted a r) (ground arith)) refl

  -- An order with a rate between two different currencies, whose amount and rate parse to numbers
  -- with a product below 2^127 and whose amount converts to more than zero, is posted if every
  -- posting can be signed: the quoted currency moves by the amount, the settlement currency by the
  -- converted amount the other way, and no other currency moves.
  pub append_order_batch-converted :
      (h : Hashing) (st : Stamp) (log : Journal) (id currency : String)
      (signer : Option OperatorKeys)
      → ((p : LedgerPosting) → (q : LedgerPosting) × (sign_posting h p signer ≡ ok q))
      → let w = append_order_batch h st log id amount currency (some rate) signer in
        (w.1 ≡ ok st.batch_id)
        × ((c : String)
            → net_at c (net_by_currency w.0)
              ≡ exchanged rate a (converted a r) c (net_at c (net_by_currency log)))
  unfolding append_order_batch append_fx_batch net_by_currency
  append_order_batch-converted h st log id currency signer signs =
      let ds = fx_drafts st id rate 0 (fx_legs amount rate (converted a r)) in
      let written = post_all-ok h signer signs log (journal_head h log) ds in
      rw
        (
          to_minor_lem,
          append_converted,
          checked,
          finish-ok st (post_all h signer log (journal_head h log) ds) written,
        )
        (
          refl,
          λ c.
              net_at-net_from c [] _
              ∙ total-post_all h signer log (journal_head h log) ds written c
              ∙ drafts_total st id c (total c 0 log)
              ∙ ap (exchanged rate a (converted a r) c) (sym (net_at-net_from c [] log)),
        )
