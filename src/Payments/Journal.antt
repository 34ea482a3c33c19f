-- ===== src/Payments/Journal.antt =====
-- origin-payments/src/journal.rs: the double-entry journal. An `i128` is its bit pattern, a number
-- below 2^128, and its arithmetic wraps as in a release build; texts of amounts are lists of code
-- points. The JSON encoding, SHA3 and the hybrid signature are parameters; fresh identifiers and
-- the clock are arguments. The journal is the list of its postings, the oldest first.
pub mod Amount
pub mod Balance
pub mod Chain
pub mod Convert
mod Tests
use Prim.Native.String.{String}
use origin_tools.Base.{
  ℕ, zero, suc, ◌+◌, ◌-◌, ◌*◌, ◌/◌, ◌%◌, ◌^◌, Bool, true, false, ◌&&◌, ◌||◌, not, Option, none,
  some, List, [], ◌∷◌, ◌++◌, map, ltb, leb, ◌==◌, if◌then◌else◌, length, replicate, Result, ok, err,
  ◌>>=◌, ◌>>◌, fail_if,
}
use origin_tools.Base.Bytes.{Bytes}
use origin_tools.Base.Decimal.{Text, codes, all_digits, from_text, to_text, trim, split}
use origin_tools.Base.Eq.{string_eq}
use origin_tools.Base.Sets.{lookup, put}
use origin_tools.Payments.Order.{FxRate}

-- 2^128 and 2^127.
abbrev pub i128_mod : ℕ
i128_mod = 340282366920938463463374607431768211456

abbrev pub i128_half : ℕ
i128_half = 170141183460469231731687303715884105728

-- `+`, `-`, `*`, `< 0` and `unsigned_abs` of `i128`.
abbrev pub add : ℕ → ℕ → ℕ
add a b = (a + b) % i128_mod

abbrev pub negate : ℕ → ℕ
negate a = (i128_mod - a) % i128_mod

abbrev pub mul : ℕ → ℕ → ℕ
mul a b = a * b % i128_mod

abbrev pub is_negative : ℕ → Bool
is_negative a = leb i128_half a

abbrev pub unsigned_abs : ℕ → ℕ
unsigned_abs a = if is_negative a then i128_mod - a else a

abbrev pub is_positive : ℕ → Bool
is_positive a = ltb 0 a && ltb a i128_half

-- Division by a positive number rounds towards zero.
abbrev pub div_by : ℕ → ℕ → ℕ
div_by a b = if is_negative a then negate ((i128_mod - a) / b) else a / b

abbrev pub amount_scale : ℕ
amount_scale = 2

abbrev pub rate_scale : ℕ
rate_scale = 6

pub data Account : Type 0 where
  debit credit : Account

abbrev pub same_account : Account → Account → Bool
same_account debit debit = true
same_account credit credit = true
same_account _ _ = false

pub record CurrencyLeg : Type 0 where
  pub account : Account
  pub amount : Text
  pub currency : String

pub record LedgerPosting : Type 0 where
  pub posting_id : String
  pub batch_id : String
  pub payment_order_id : String
  pub account : Account
  pub amount : Text
  pub currency : String
  pub ts : String
  pub prev_hash : Bytes
  pub signature : Option Bytes
  pub signer : Option Bytes
  pub fx_rate : Option FxRate

abbrev pub Journal : Type 0
Journal = List LedgerPosting

-- Why a batch is not balanced.
pub data Imbalance : Type 0 where
  too_few_legs : Imbalance
  sum_is : ℕ → Imbalance
  unexpected_currency : String → Imbalance
  one_currency_only same_direction rate_not_positive : Imbalance
  rate_does_not_balance : ℕ → ℕ → Imbalance

pub data JournalError : Type 0 where
  invalid_amount : Text → JournalError
  journal_not_balanced : Imbalance → JournalError
  crypto_error : JournalError

-- What the journal uses of other crates: the JSON array of a posting's fields (none of them the
-- signature or the signer), and SHA3-256.
pub record Hashing : Type 0 where
  pub json :
      String → String → String → Account → Text → String → String → Bytes → Option FxRate → Bytes
  pub sha3_256 : Bytes → Bytes

-- An operator's keys: the encoded hybrid signature, unless signing or encoding fails, and the
-- public keys with their domain.
pub record OperatorKeys : Type 0 where
  pub try_sign_hybrid : Bytes → Option Bytes
  pub order_signer : Bytes

-- The sign is stripped before this.
abbrev strip_minus : Text → Bool × Text
strip_minus [] = (false, [])
strip_minus (c ∷ cs) = if c == b'-' then (true, cs) else (false, c ∷ cs)

abbrev amount_or : Text → Option ℕ → Result JournalError ℕ
amount_or s none = err (invalid_amount s)
amount_or s (some n) = ok n

-- `parse::<i128>` on digits.
abbrev parse_i128 : Text → Text → Result JournalError ℕ
parse_i128 s ds = amount_or s (from_text i128_half ds)

abbrev minor_units : Text → ℕ → Bool → Text → Text → Result JournalError ℕ
minor_units s scale neg whole frac = do
  whole_val ← parse_i128 s whole
  frac_val ← (if length frac == 0 then ok 0 else parse_i128 s frac)
  let padded = mul frac_val (10 ^ (scale - length frac))
  let minor = add (mul whole_val (10 ^ scale)) padded
  ok (if neg then negate minor else minor)

-- The text between the sign and the end, at its dots.
abbrev parse_parts : Text → ℕ → Bool → List Text → Result JournalError ℕ
parse_parts s scale neg [] = err (invalid_amount s)
parse_parts s scale neg (whole ∷ []) =
    if length whole == 0 || not (all_digits whole)
    then err (invalid_amount s)
    else minor_units s scale neg whole []
parse_parts s scale neg (whole ∷ frac ∷ []) =
    if length whole == 0 || not (all_digits whole)
    then err (invalid_amount s)
    else if length frac == 0 || ltb scale (length frac) || not (all_digits frac)
    then err (invalid_amount s)
    else minor_units s scale neg whole frac
parse_parts s scale neg (whole ∷ frac ∷ more ∷ parts) = err (invalid_amount s)

abbrev parse_trimmed : ℕ → Text → Result JournalError ℕ
parse_trimmed scale s =
    let (neg, ds) = strip_minus s in
    if length s == 0 then err (invalid_amount s) else parse_parts s scale neg (split b'.' ds)

pub parse_decimal : Text → ℕ → Result JournalError ℕ
parse_decimal s scale = parse_trimmed scale (trim s)

unfoldable pub parse_amount : Text → Result JournalError ℕ
unfolding parse_decimal
parse_amount s = parse_decimal s amount_scale

pub parse_rate : Text → Result JournalError ℕ
unfolding parse_decimal
parse_rate s = parse_decimal s rate_scale

-- `{:02}` below a hundred.
abbrev two_digits : ℕ → Text
two_digits n = (48 + n / 10) ∷ (48 + n % 10) ∷ []

pub fmt_amount : ℕ → Text
fmt_amount minor =
    let abs = unsigned_abs minor in
    (if is_negative minor then b'-' ∷ [] else [])
    ++ (to_text (abs / 100) ++ (b'.' ∷ two_digits (abs % 100)))

-- Debit adds, credit subtracts.
abbrev pub signed : Account → ℕ → ℕ
signed debit minor = minor
signed credit minor = negate minor

pub sum_legs : ℕ → List (Account × Text) → Result JournalError ℕ
sum_legs sum [] = ok sum
sum_legs sum ((account, amount) ∷ legs) =
    parse_amount amount >>= λ minor. sum_legs (add sum (signed account minor)) legs

-- The head of the loop's posting, by the leg that it is for: all but the link and the signature.
abbrev draft :
    String → String → String → String → Option FxRate → Account → Text → String → LedgerPosting
draft posting_id batch_id order_id ts fx_rate account amount currency = record {
  posting_id = posting_id;
  batch_id = batch_id;
  payment_order_id = order_id;
  account = account;
  amount = amount;
  currency = currency;
  ts = ts;
  prev_hash = [];
  signature = none;
  signer = none;
  fx_rate = fx_rate;
}

-- The fresh identifiers of a batch (one for the batch, one for each leg) and the time.
pub record Stamp : Type 0 where
  pub batch_id : String
  pub posting_id : ℕ → String
  pub ts : String

abbrev fx_leg : FxRate → ℕ → ℕ → CurrencyLeg → ℕ → Result JournalError (ℕ × ℕ)
fx_leg rate from_net to_net leg net =
    if string_eq.beq leg.currency rate.from_currency
    then ok (add from_net net, to_net)
    else if string_eq.beq leg.currency rate.to_currency
    then ok (from_net, add to_net net)
    else err (journal_not_balanced (unexpected_currency leg.currency))

-- The nets of the two currencies of an FX batch.
pub fx_nets : FxRate → ℕ → ℕ → List CurrencyLeg → Result JournalError (ℕ × ℕ)
fx_nets rate from_net to_net [] = ok (from_net, to_net)
fx_nets rate from_net to_net (leg ∷ legs) = do
  minor ← parse_amount leg.amount
  nets ← fx_leg rate from_net to_net leg (signed leg.account minor)
  fx_nets rate nets.0 nets.1 legs

abbrev same_bool : Bool → Bool → Bool
same_bool true b = b
same_bool false b = not b

-- `abs_diff` of two `i128`: in the order of their signs.
abbrev abs_diff : ℕ → ℕ → ℕ
abs_diff a b =
    let x = (a + i128_half) % i128_mod in
    let y = (b + i128_half) % i128_mod in if ltb x y then y - x else x - y

-- The checks of `append_fx_batch` on the two nets.
abbrev pub check_nets : FxRate → ℕ → ℕ → Result JournalError (Unit {0})
check_nets rate from_net to_net = do
  fail_if (from_net == 0 || to_net == 0) (journal_not_balanced one_currency_only)
  fail_if (same_bool (is_positive from_net) (is_positive to_net))
      (journal_not_balanced same_direction)
  rate_minor ← parse_rate (codes rate.rate)
  fail_if (not (is_positive rate_minor)) (journal_not_balanced rate_not_positive)
  let converted = div_by (mul (unsigned_abs from_net) rate_minor) (10 ^ rate_scale)
  fail_if (ltb 1 (abs_diff converted (unsigned_abs to_net)))
      (journal_not_balanced (rate_does_not_balance converted (unsigned_abs to_net)))

abbrev pub genesis_hash : Bytes
genesis_hash = replicate 32 0

abbrev with_signature :
    LedgerPosting → OperatorKeys → Option Bytes → Result JournalError LedgerPosting
with_signature p keys none = err crypto_error
with_signature p keys (some sig) =
    ok (record p { signature = some sig; signer = some keys.order_signer })

abbrev post_next :
    Journal
    → Result JournalError LedgerPosting
    → (LedgerPosting → Journal × Result JournalError (Unit {0}))
    → Journal × Result JournalError (Unit {0})
post_next log (err e) rest = (log, err e)
post_next log (ok p) rest = rest p

abbrev finish :
    Stamp → Journal × Result JournalError (Unit {0}) → Journal × Result JournalError String
finish st (log, ok u) = (log, ok st.batch_id)
finish st (log, err e) = (log, err e)

pub leg_drafts : Stamp → String → String → ℕ → List (Account × Text) → List LedgerPosting
leg_drafts st order_id currency i [] = []
leg_drafts st order_id currency i ((account, amount) ∷ legs) =
    draft (st.posting_id i) st.batch_id order_id st.ts none account amount currency
    ∷ leg_drafts st order_id currency (i + 1) legs

-- The checks of `append_batch`, before anything is written.
abbrev pub check_batch : List (Account × Text) → Result JournalError (Unit {0})
check_batch legs = do
  fail_if (ltb (length legs) 2) (journal_not_balanced too_few_legs)
  sum ← sum_legs 0 legs
  fail_if (not (sum == 0)) (journal_not_balanced (sum_is sum))

pub fx_drafts : Stamp → String → FxRate → ℕ → List CurrencyLeg → List LedgerPosting
fx_drafts st order_id rate i [] = []
fx_drafts st order_id rate i (leg ∷ legs) =
    draft (st.posting_id i) st.batch_id order_id st.ts (some rate) leg.account leg.amount
      leg.currency
    ∷ fx_drafts st order_id rate (i + 1) legs

abbrev pub check_fx_batch : List CurrencyLeg → FxRate → Result JournalError (Unit {0})
check_fx_batch legs rate =
    fail_if (ltb (length legs) 2) (journal_not_balanced too_few_legs)
    >> (fx_nets rate 0 0 legs >>= λ nets. check_nets rate nets.0 nets.1)

-- The two legs of an order that is converted, the second at the declared rate.
abbrev pub fx_legs : Text → FxRate → ℕ → List CurrencyLeg
fx_legs amount rate to_minor =
    record { account = debit; amount = amount; currency = rate.from_currency }
    ∷ record { account = credit; amount = fmt_amount to_minor; currency = rate.to_currency }
    ∷ []

abbrev pub to_minor : Text → FxRate → Result JournalError ℕ
to_minor amount rate = do
  from_minor ← parse_amount amount
  rate_minor ← parse_rate (codes rate.rate)
  ok (div_by (mul from_minor rate_minor) (10 ^ rate_scale))

module _ (h : Hashing) where
  pub posting_canonical : LedgerPosting → Bytes
  posting_canonical p =
      h.json p.posting_id p.batch_id p.payment_order_id p.account p.amount p.currency p.ts
        p.prev_hash p.fx_rate

  pub posting_hash : LedgerPosting → Bytes
  unfolding posting_canonical
  posting_hash p = h.sha3_256 (posting_canonical p)

  -- `PaymentStore::journal_head`: the hash of the last posting.
  pub journal_head : Journal → Bytes
  journal_head [] = genesis_hash
  journal_head (p ∷ []) = posting_hash p
  journal_head (p ∷ q ∷ ps) = journal_head (q ∷ ps)

  pub sign_posting : LedgerPosting → Option OperatorKeys → Result JournalError LedgerPosting
  unfolding posting_canonical
  sign_posting p none = ok p
  sign_posting p (some keys) = with_signature p keys (keys.try_sign_hybrid (posting_canonical p))

  -- The loop that writes a batch. A posting that cannot be signed ends it; those before it stay.
  unfoldable pub post_all :
      Option OperatorKeys
      → Journal
      → Bytes
      → List LedgerPosting
      → Journal × Result JournalError (Unit {0})
  unfolding sign_posting posting_hash
  post_all signer log prev [] = (log, ok tt)
  post_all signer log prev (d ∷ ds) =
      post_next log (sign_posting (record d { prev_hash = prev }) signer)
        λ p. post_all signer (log ++ p ∷ []) (posting_hash p) ds

  abbrev write_checked :
      Stamp
      → Option OperatorKeys
      → Journal
      → List LedgerPosting
      → Result JournalError (Unit {0})
      → Journal × Result JournalError String
  write_checked st signer log ds (err e) = (log, err e)
  write_checked st signer log ds (ok u) = finish st (post_all signer log (journal_head log) ds)

  pub append_batch :
      Stamp
      → Journal
      → String
      → String
      → List (Account × Text)
      → Option OperatorKeys
      → Journal × Result JournalError String
  unfolding sum_legs leg_drafts
  append_batch st log order_id currency legs signer =
      write_checked st signer log (leg_drafts st order_id currency 0 legs) (check_batch legs)

  pub append_fx_batch :
      Stamp
      → Journal
      → String
      → List CurrencyLeg
      → FxRate
      → Option OperatorKeys
      → Journal × Result JournalError String
  unfolding fx_nets fx_drafts
  append_fx_batch st log order_id legs rate signer =
      write_checked st signer log (fx_drafts st order_id rate 0 legs) (check_fx_batch legs rate)

  abbrev append_converted :
      Stamp
      → Journal
      → String
      → Text
      → FxRate
      → Option OperatorKeys
      → Result JournalError ℕ
      → Journal × Result JournalError String
  append_converted st log order_id amount rate signer (err e) = (log, err e)
  append_converted st log order_id amount rate signer (ok minor) =
      append_fx_batch st log order_id (fx_legs amount rate minor) rate signer

  unfoldable pub append_order_batch :
      Stamp
      → Journal
      → String
      → Text
      → String
      → Option FxRate
      → Option OperatorKeys
      → Journal × Result JournalError String
  unfolding append_batch append_fx_batch
  append_order_batch st log order_id amount currency none signer =
      append_batch st log order_id currency ((debit, amount) ∷ (credit, amount) ∷ []) signer
  append_order_batch st log order_id amount currency (some rate) signer =
      append_converted st log order_id amount rate signer (to_minor amount rate)

-- `entry(…).or_insert(0)`
abbrev pub or_zero : Option ℕ → ℕ
or_zero none = 0
or_zero (some n) = n

abbrev pub net_at : String → List (String × ℕ) → ℕ
net_at currency nets = or_zero (lookup currency nets)

abbrev add_net : String → ℕ → List (String × ℕ) → List (String × ℕ)
add_net currency net nets = put currency (add (net_at currency nets) net) nets

-- A posting whose amount does not parse is passed over.
abbrev net_posting : LedgerPosting → List (String × ℕ) → Result JournalError ℕ → List (String × ℕ)
net_posting p nets (err e) = nets
net_posting p nets (ok minor) = add_net p.currency (signed p.account minor) nets

abbrev net_from : List (String × ℕ) → Journal → List (String × ℕ)
net_from nets [] = nets
net_from nets (p ∷ ps) = net_from (net_posting p nets (parse_amount p.amount)) ps

-- The ordered map of the source, as a list whose order no property depends on.
pub net_by_currency : Journal → List (String × ℕ)
net_by_currency ps = net_from [] ps

abbrev only_account : Account → Journal → Journal
only_account want [] = []
only_account want (p ∷ ps) =
    if same_account p.account want then p ∷ only_account want ps else only_account want ps

pub balance : Journal → Option Account → List (String × ℕ)
unfolding net_by_currency
balance ps none = net_by_currency ps
balance ps (some want) = net_by_currency (only_account want ps)
