-- ===== src/Payments/Journal/Tests.antt =====
-- Runs of the journal.
use Prim.Native.String.{String}
use origin_tools.Base.{
  ◌≡◌, ◌≢◌, refl, sym, ◌∙◌, Option, none, some, List, [], ◌∷◌, ◌++◌, arith, length, Result, ok, err,
}
use origin_tools.Base.Bytes.{Bytes}
use origin_tools.Base.Decimal.{Text, codes, trim, split, from_text, to_text}
use origin_tools.Payments.Order.{FxRate}
use origin_tools.Payments.Journal.{
  Account, debit, credit, Journal, Stamp, Hashing, OperatorKeys, JournalError, crypto_error,
  invalid_amount, journal_not_balanced, sum_is, parse_amount, parse_rate, fmt_amount, append_batch,
  append_order_batch, net_at, net_by_currency, genesis_hash, sign_posting, post_all, negate,
}
use origin_tools.Payments.Journal.Amount.{parse_amount-fmt_amount}
use origin_tools.Payments.Journal.Balance.{net_by_currency-append_batch}
use origin_tools.Payments.Journal.Chain.{Chained, append_order_batch-Chained}
use origin_tools.Payments.Journal.Convert.{append_order_batch-converted, converted, exchanged}

abbrev amount : Text
amount = codes "3.15"

parse_three : parse_amount amount ≡ ok 315
unfolding parse_amount trim split from_text
parse_three = refl

parse_trims : parse_amount (codes " -0.05 ") ≡ ok (negate 5)
unfolding parse_amount trim split from_text
parse_trims = refl

parse_rejects : parse_amount (codes "3.155") ≡ err (invalid_amount (codes "3.155"))
unfolding parse_amount trim split from_text
parse_rejects = refl

fmt_five : fmt_amount (negate 5) ≡ codes "-0.05"
unfolding fmt_amount to_text
fmt_five = refl

parse_amount-fmt_amount_example : parse_amount (fmt_amount (negate 315)) ≡ ok (negate 315)
parse_amount-fmt_amount_example = parse_amount-fmt_amount (negate 315) (omega arith)

-- The hash of a posting is the text of its amount.
abbrev toy : Hashing
toy = record { json = λ id batch order a amount cur ts prev fx. amount; sha3_256 = λ b. b }

abbrev some_stamp : Stamp
some_stamp = record { batch_id = "b1"; posting_id = λ i. "p"; ts = "now" }

abbrev amount_three : Text
amount_three = codes "3.00"

abbrev balanced_legs : List (Account × Text)
balanced_legs = (debit, amount) ∷ (credit, amount) ∷ []

ok-ne-err : {b : String} {e : JournalError} → ◌≢◌ {A = Result JournalError String} (ok b) (err e)
ok-ne-err e = cc

written : (append_batch toy some_stamp [] "o1" "USD" balanced_legs none).1 ≡ ok "b1"
unfolding append_batch parse_amount post_all sign_posting trim split from_text
written = refl

net_by_currency-append_batch_example :
    net_at "USD" (net_by_currency (append_batch toy some_stamp [] "o1" "USD" balanced_legs none).0)
    ≡ net_at "USD" (net_by_currency [])
unfolding append_batch parse_amount trim split from_text
net_by_currency-append_batch_example =
    net_by_currency-append_batch toy some_stamp [] "o1" "USD" balanced_legs none
      (λ e. ok-ne-err (sym written ∙ e)) "USD"

unbalanced_refused :
    append_batch toy some_stamp [] "o1" "USD" ((debit, amount) ∷ (credit, codes "3") ∷ []) none
    ≡ ([], err (journal_not_balanced (sum_is 15)))
unfolding append_batch parse_amount trim split from_text
unbalanced_refused = refl

-- Keys that sign only what is one byte long: the batch fails at its second leg, and the first one stays.
abbrev only_short : Bytes → Option Bytes
only_short [] = none
only_short (c ∷ []) = some (c ∷ [])
only_short (c ∷ d ∷ cs) = none

abbrev short_keys : OperatorKeys
short_keys = record { try_sign_hybrid = only_short; order_signer = [] }

half_batch :
    let w =
      append_batch toy some_stamp [] "o1" "USD"
        ((debit, codes "3") ∷ (credit, amount_three) ∷ [])
        (some short_keys) in
    (w.1 ≡ err crypto_error) × (length w.0 ≡ 1) × (net_at "USD" (net_by_currency w.0) ≡ 300)
unfolding append_batch parse_amount net_by_currency post_all trim split from_text
half_batch = (refl, refl, refl)

append_order_batch-Chained_example :
    (more : Journal) × ((append_order_batch toy some_stamp [] "o1" amount "USD" none none).0
      ≡ [] ++ more)
    × Chained toy genesis_hash ([] ++ more)
append_order_batch-Chained_example =
    append_order_batch-Chained toy some_stamp [] "o1" amount "USD" none none tt

abbrev rate : FxRate
rate = record { from_currency = "USD"; to_currency = "EUR"; rate = "0.9"; markup_bps = 0 }

append_order_batch-converted_example :
    let w = append_order_batch toy some_stamp [] "o1" amount "USD" (some rate) none in
    (w.1 ≡ ok "b1")
    × ((c : String)
        → net_at c (net_by_currency w.0)
          ≡ exchanged rate 315 (converted 315 900000) c (net_at c (net_by_currency [])))
unfolding parse_amount parse_rate sign_posting trim split from_text
append_order_batch-converted_example =
    append_order_batch-converted rate amount 315 900000 refl refl (omega arith) (omega arith)
      (omega arith) (omega arith) refl toy some_stamp [] "o1" "USD" none (λ p. (p, refl))
