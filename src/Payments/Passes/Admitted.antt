-- ===== src/Payments/Passes/Admitted.antt =====
-- What `admit` of the executor lets through.
use origin_tools.Base.{
  ℕ, ◌+◌, ◌%◌, ◌≤◌, ◌<◌, [], ◌∷◌, ◌≡◌, refl, subst, fail_if, ◌∙◌, ap, ◌⊎◌, Bool, true, false, not,
  Option, none, some, List, arith, Bool-cases, inl, inr, Result, ok, err, bind-ok, fail_if-ok,
}
use origin_tools.Base.Decimal.{Text, codes}
use origin_tools.Payments.Order.{native, http402, card, ach, PaymentOrder, RailHint}
use origin_tools.Payments.Executor.{
  PaymentsConfig, SettleOutcome, terminal, admit, check_cap, hint_of, Reason, rail_enabled,
  same_rail, amount_or, i128_lt, over_cap, bad_cap, bad_amount,
}
use origin_tools.Payments.Journal.{i128_half, i128_mod, JournalError, parse_amount, is_negative}

-- The rail is one of the list.
abbrev pub IsListed : RailHint → List RailHint → Type 0
IsListed hint [] = ⊥
IsListed hint (r ∷ rs) = (r ≡ hint) ⊎ IsListed hint rs

-- No cap is set, or the text of the cap parses to a number that is not negative and not below the
-- amount.
abbrev pub IsWithinCap : Option Text → ℕ → Type 0
IsWithinCap none amount = Unit
IsWithinCap (some t) amount =
    (cap : ℕ) × (parse_amount t ≡ ok cap) × (cap % i128_mod < i128_half) × (amount ≤ cap % i128_mod)

-- The amount may be sent: its rail is enabled, its text parses to it, it is not negative, and it is
-- within the cap.
pub record IsAdmitted (config : PaymentsConfig) (o : PaymentOrder) (amount : ℕ) : Type 0 where
  pub enabled : IsListed (hint_of o.rail) config.enabled_rails
  pub parsed : parse_amount (codes o.amount) ≡ ok amount
  pub not_negative : amount < i128_half
  pub within_cap : IsWithinCap config.per_tx_cap amount

amount_or-ok :
    (why : Reason) (r : Result JournalError ℕ) (n : ℕ) → amount_or why r ≡ ok n → r ≡ ok n
amount_or-ok why (ok m) n e = cc
amount_or-ok why (err x) n e = cc

fail_if-false : (t : Bool) (out : SettleOutcome) → fail_if t out ≡ ok tt → t ≡ false
fail_if-false true out e = cc
fail_if-false false out e = refl

refuted : (b : Bool) → not b ≡ false → b ≡ true
refuted b e = ground arith

same_rail_to : (r hint : RailHint) → same_rail r hint ≡ true → r ≡ hint
same_rail_to native native e = refl
same_rail_to native http402 e = cc
same_rail_to native card e = cc
same_rail_to native ach e = cc
same_rail_to http402 native e = cc
same_rail_to http402 http402 e = refl
same_rail_to http402 card e = cc
same_rail_to http402 ach e = cc
same_rail_to card native e = cc
same_rail_to card http402 e = cc
same_rail_to card card e = refl
same_rail_to card ach e = cc
same_rail_to ach native e = cc
same_rail_to ach http402 e = cc
same_rail_to ach card e = cc
same_rail_to ach ach e = refl

rail_enabled-IsListed :
    (rails : List RailHint) (hint : RailHint) → rail_enabled rails hint ≡ true → IsListed hint rails
rail_enabled-IsListed [] hint e = cc
rail_enabled-IsListed (r ∷ rs) hint e = elim (Bool-cases (same_rail r hint)) [
  | inl here ↦ inl (same_rail_to r hint here)
  | inr there ↦ inr (rail_enabled-IsListed rs hint (rw there at e))
]

not_below :
    (cap amount : ℕ)
    → amount < i128_half
    → i128_lt cap amount ≡ false
    → (cap % i128_mod < i128_half) × (amount ≤ cap % i128_mod)
not_below cap amount h e =
    let f : (amount + i128_half) % i128_mod ≤ (cap + i128_half) % i128_mod = ground arith in
    (omega arith, omega arith)

check_cap-ok :
    (cap_text : Option Text) (amount : ℕ)
    → amount < i128_half
    → check_cap cap_text amount ≡ ok tt
    → IsWithinCap cap_text amount
check_cap-ok none amount h e = tt
check_cap-ok (some t) amount h e =
    let (cap, q, rest) = bind-ok (amount_or bad_cap (parse_amount t)) _ tt e in
    let (positive, most) =
      not_below cap amount h (fail_if-false (i128_lt cap amount) (terminal over_cap) rest) in
    (cap, amount_or-ok bad_cap (parse_amount t) cap q, positive, most)

ok_same : {m n : ℕ} → ◌≡◌ {A = Result SettleOutcome ℕ} (ok m) (ok n) → m ≡ n
ok_same e = cc

pub admit-ok :
    (config : PaymentsConfig) (o : PaymentOrder) (amount : ℕ)
    → admit config o ≡ ok amount
    → IsAdmitted config o amount
unfolding admit
admit-ok config o amount e =
    let (enabled, e1) =
      fail_if-ok (not (rail_enabled config.enabled_rails (hint_of o.rail))) _ _ amount e in
    let (n, q, e2) =
      bind-ok (amount_or (bad_amount (codes o.amount)) (parse_amount (codes o.amount))) _ amount
        e1 in
    let (positive, e3) = fail_if-ok (is_negative n) _ _ amount e2 in
    let (u, capped, last) = bind-ok (check_cap config.per_tx_cap n) _ amount e3 in
    let same : n ≡ amount = ok_same last in
    let below : n < i128_half = ground arith in
    record {
      enabled = rail_enabled-IsListed config.enabled_rails (hint_of o.rail) (refuted _ enabled);
      parsed = amount_or-ok _ _ n q ∙ ap ok same;
      not_negative = subst (λ (m : ℕ). m < i128_half) same below;
      within_cap =
          subst (IsWithinCap config.per_tx_cap) same
            (check_cap-ok config.per_tx_cap n below (capped ∙ ap ok refl));
    }
