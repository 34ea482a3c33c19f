-- ===== src/Payments/Journal/Balance.antt =====
-- The journal of journal.rs stays balanced: what a batch adds to one currency it takes from it.
use Prim.Native.String.{String}
use origin_tools.Base.{
  ℕ, ◌+◌, ◌%◌, ◌<◌, ◌≡◌, ◌≢◌, refl, sym, ◌∙◌, ap, Bool, true, false, Option, none, some, List, [],
  ◌∷◌, ◌++◌, arith, ltb, length, if◌then◌else◌, Result, ok, err, bind-ok, fail_if-ok,
}
use origin_tools.Base.Bytes.{Bytes}
use origin_tools.Base.Decimal.{Text}
use origin_tools.Base.Eq.{string_eq}
use origin_tools.Base.Sets.{lookup-put}
use origin_tools.Payments.Journal.Chain.{sign_posting-ok}
use origin_tools.Payments.Journal.{
  Account, Journal, LedgerPosting, Stamp, Hashing, OperatorKeys, JournalError, crypto_error, add,
  signed, i128_mod, parse_amount, sum_legs, check_batch, leg_drafts, post_all, post_next,
  posting_hash, posting_canonical, sign_posting, with_signature, append_batch, write_checked,
  finish, net_from, net_posting, net_at, or_zero, net_by_currency, journal_head,
}

-- One currency's net after one more posting, and after several.
abbrev pub post_net : String → ℕ → LedgerPosting → Result JournalError ℕ → ℕ
post_net c net p (err e) = net
post_net c net p (ok minor) =
    if string_eq.beq p.currency c then add net (signed p.account minor) else net

unfoldable pub total : String → ℕ → Journal → ℕ
total c net [] = net
total c net (p ∷ ps) = total c (post_net c net p (parse_amount p.amount)) ps

post_net-lt :
    (c : String) (net : ℕ) (p : LedgerPosting) (r : Result JournalError ℕ)
    → net < i128_mod
    → post_net c net p r < i128_mod
post_net-lt c net p (err e) h = h
post_net-lt c net p (ok minor) h = ground arith

total-lt : (c : String) (net : ℕ) (ps : Journal) → net < i128_mod → total c net ps < i128_mod
unfolding total
total-lt c net [] h = h
total-lt c net (p ∷ ps) h =
    total-lt c (post_net c net p (parse_amount p.amount)) ps
      (post_net-lt c net p (parse_amount p.amount) h)

total-append :
    (c : String) (net : ℕ) (ps qs : Journal) → total c net (ps ++ qs) ≡ total c (total c net ps) qs
unfolding total
total-append c net [] qs = refl
total-append c net (p ∷ ps) qs = total-append c (post_net c net p (parse_amount p.amount)) ps qs

net_at-net_posting :
    (c : String) (nets : List (String × ℕ)) (p : LedgerPosting) (r : Result JournalError ℕ)
    → net_at c (net_posting p nets r) ≡ post_net c (net_at c nets) p r
net_at-net_posting c nets p (err e) = refl
net_at-net_posting c nets p (ok minor) =
    ap or_zero
      (lookup-put p.currency c (add (net_at p.currency nets) (signed p.account minor)) nets)
    ∙ ground (arith, string_eq.beq_iff p.currency c, ap (λ (k : String). net_at k nets))

pub net_at-net_from :
    (c : String) (nets : List (String × ℕ)) (ps : Journal)
    → net_at c (net_from nets ps) ≡ total c (net_at c nets) ps
unfolding total
net_at-net_from c nets [] = refl
net_at-net_from c nets (p ∷ ps) =
    net_at-net_from c (net_posting p nets (parse_amount p.amount)) ps
    ∙ ap (λ (n : ℕ). total c n ps) (net_at-net_posting c nets p (parse_amount p.amount))

ok_injective : {m n : ℕ} → ◌≡◌ {A = Result JournalError ℕ} (ok m) (ok n) → m ≡ n
ok_injective e = cc

regroup :
    (b : Bool) (t s net x r : ℕ)
    → (t + (if b then add s x else 0)) % i128_mod
      ≡ ((if b then add net x else net) + (if b then r else 0)) % i128_mod
    → (t + (if b then s else 0)) % i128_mod ≡ (net + (if b then r else 0)) % i128_mod
regroup true t s net x r e = omega arith
regroup false t s net x r e = e

-- Legs of one currency move its net by their sum, and no other.
total-leg_drafts :
    (st : Stamp) (id cur : String) (i s net r : ℕ) (legs : List (Account × Text)) (c : String)
    → sum_legs s legs ≡ ok r
    → (total c net (leg_drafts st id cur i legs) + (if string_eq.beq cur c then s else 0))
        % i128_mod
      ≡ (net + (if string_eq.beq cur c then r else 0)) % i128_mod
unfolding total leg_drafts sum_legs
total-leg_drafts st id cur i s net r [] c e =
    ap (λ (n : ℕ). (net + (if string_eq.beq cur c then n else 0)) % i128_mod) (ok_injective e)
total-leg_drafts st id cur i s net r ((account, amount) ∷ legs) c e =
    let (minor, em, rest) =
      bind-ok (parse_amount amount) (λ m. sum_legs (add s (signed account m)) legs) r e in
    rw (total, em)
      (regroup (string_eq.beq cur c) _ s net (signed account minor) r
        (total-leg_drafts st id cur (i + 1) (add s (signed account minor)) _ r legs c rest))

-- What is written of a batch whose posting does not fail counts as its legs do.
module _ (h : Hashing) where
  total-post_next :
      (r : Result JournalError LedgerPosting) (signer : Option OperatorKeys) (log : Journal)
      (d : LedgerPosting) (ds : List LedgerPosting)
      → ((p : LedgerPosting)
          → r ≡ ok p
          → (sig who : Option Bytes) × (prev : Bytes) × (p
              ≡ record d { prev_hash = prev; signature = sig; signer = who }))
      → ((p : LedgerPosting)
          → (post_all h signer (log ++ p ∷ []) (posting_hash h p) ds).1 ≡ ok tt
          → (c : String)
          → total c 0 (post_all h signer (log ++ p ∷ []) (posting_hash h p) ds).0
            ≡ total c (total c 0 (log ++ p ∷ [])) ds)
      → (post_next log r λ p. post_all h signer (log ++ p ∷ []) (posting_hash h p) ds).1 ≡ ok tt
      → (c : String)
      → total c 0 (post_next log r λ p. post_all h signer (log ++ p ∷ []) (posting_hash h p) ds).0
        ≡ total c (total c 0 log) (d ∷ ds)
  unfolding total
  total-post_next (err x) signer log d ds same rest e c = cc
  total-post_next (ok p) signer log d ds same rest e c =
      let (sig, who, prev, q) = same p refl in
      rest p e c
      ∙ ap (λ (n : ℕ). total c n ds)
          (total-append c 0 log (p ∷ [])
            ∙ ap (λ (x : LedgerPosting). post_net c (total c 0 log) x (parse_amount x.amount)) q)

  pub total-post_all :
      (signer : Option OperatorKeys) (log : Journal) (prev : Bytes) (ds : List LedgerPosting)
      → (post_all h signer log prev ds).1 ≡ ok tt
      → (c : String) → total c 0 (post_all h signer log prev ds).0 ≡ total c (total c 0 log) ds
  unfolding post_all total
  total-post_all signer log prev [] e c = refl
  total-post_all signer log prev (d ∷ ds) e c =
      total-post_next (sign_posting h (record d { prev_hash = prev }) signer) signer log d ds
        (λ p s.
          let (sig, who, q) = sign_posting-ok h (record d { prev_hash = prev }) p signer s in
          (sig, who, prev, q))
        (λ p. total-post_all signer (log ++ p ∷ []) (posting_hash h p) ds) e c

  post_next-err :
      (log : Journal) (r : Result JournalError LedgerPosting)
      (rest : LedgerPosting → Journal × Result JournalError (Unit {0}))
      → ((e : JournalError) → r ≡ err e → e ≡ crypto_error)
      → ((p : LedgerPosting) (e : JournalError) → (rest p).1 ≡ err e → e ≡ crypto_error)
      → (e : JournalError) → (post_next log r rest).1 ≡ err e
      → e ≡ crypto_error
  post_next-err log (err x) rest signing later e q = cc (signing x refl)
  post_next-err log (ok p) rest signing later e q = later p e q

  with_signature-err :
      (d : LedgerPosting) (keys : OperatorKeys) (o : Option Bytes) (e : JournalError)
      → with_signature d keys o ≡ err e
      → e ≡ crypto_error
  with_signature-err d keys none e q = cc
  with_signature-err d keys (some sig) e q = cc

  sign_posting-err :
      (d : LedgerPosting) (signer : Option OperatorKeys) (e : JournalError)
      → sign_posting h d signer ≡ err e
      → e ≡ crypto_error
  unfolding sign_posting
  sign_posting-err d none e q = cc
  sign_posting-err d (some keys) e q =
      with_signature-err d keys (keys.try_sign_hybrid (posting_canonical h d)) e q

  -- Once a batch is checked, only a signature can fail.
  post_all-err :
      (signer : Option OperatorKeys) (log : Journal) (prev : Bytes) (ds : List LedgerPosting)
      (e : JournalError)
      → (post_all h signer log prev ds).1 ≡ err e
      → e ≡ crypto_error
  unfolding post_all
  post_all-err signer log prev [] e q = cc
  post_all-err signer log prev (d ∷ ds) e q =
      post_next-err log (sign_posting h (record d { prev_hash = prev }) signer) _
        (sign_posting-err (record d { prev_hash = prev }) signer)
        (λ p. post_all-err signer (log ++ p ∷ []) (posting_hash h p) ds) e q

  finish-total :
      (st : Stamp) (ds : List LedgerPosting) (log : Journal)
      (r : Journal × Result JournalError (Unit {0}))
      → (r.1 ≡ ok tt → (c : String) → total c 0 r.0 ≡ total c (total c 0 log) ds)
      → ((e : JournalError) → r.1 ≡ err e → e ≡ crypto_error)
      → (finish st r).1 ≢ err crypto_error
      → (c : String) → total c 0 (finish st r).0 ≡ total c (total c 0 log) ds
  finish-total st ds log (log', ok u) written failed h' c = written refl c
  finish-total st ds log (log', err e) written failed h' c = absurd (h' (ap err (failed e refl)))

  check_batch-sum :
      (legs : List (Account × Text)) → check_batch legs ≡ ok tt → sum_legs 0 legs ≡ ok 0
  check_batch-sum legs e =
      let (many, e') = fail_if-ok (ltb (length legs) 2) _ _ tt e in
      let (sum, es, zero_sum) = bind-ok (sum_legs 0 legs) _ tt e' in es ∙ ground arith

  total-batch :
      (st : Stamp) (id cur : String) (legs : List (Account × Text)) (net : ℕ) (c : String)
      → net < i128_mod
      → sum_legs 0 legs ≡ ok 0
      → total c net (leg_drafts st id cur 0 legs) ≡ net
  total-batch st id cur legs net c below e = ground (
    arith,
    total-leg_drafts st id cur 0 0 net 0 legs c e,
    total-lt c net (leg_drafts st id cur 0 legs) below,
  )

  write_checked-total :
      (st : Stamp) (signer : Option OperatorKeys) (log : Journal) (id cur : String)
      (legs : List (Account × Text)) (r : Result JournalError (Unit {0}))
      → check_batch legs ≡ r
      → (write_checked h st signer log (leg_drafts st id cur 0 legs) r).1 ≢ err crypto_error
      → (c : String)
      → total c 0 (write_checked h st signer log (leg_drafts st id cur 0 legs) r).0 ≡ total c 0 log
  write_checked-total st signer log id cur legs (err e) checked ne c = refl
  write_checked-total st signer log id cur legs (ok u) checked ne c =
      let ds = leg_drafts st id cur 0 legs in
      finish-total st ds log (post_all h signer log (journal_head h log) ds)
        (total-post_all signer log (journal_head h log) ds)
        (post_all-err signer log (journal_head h log) ds) ne c
      ∙ total-batch st id cur legs (total c 0 log) c (total-lt c 0 log (omega arith))
          (check_batch-sum legs checked)

  -- Unless the operator's keys fail to sign, `append_batch` leaves the net of every currency as it
  -- was, whether it writes the batch or refuses it.
  pub net_by_currency-append_batch :
      (st : Stamp) (log : Journal) (id cur : String) (legs : List (Account × Text))
      (signer : Option OperatorKeys)
      → (append_batch h st log id cur legs signer).1 ≢ err crypto_error
      → (c : String)
      → net_at c (net_by_currency (append_batch h st log id cur legs signer).0)
        ≡ net_at c (net_by_currency log)
  unfolding append_batch net_by_currency
  net_by_currency-append_batch st log id cur legs signer ne c =
      net_at-net_from c [] _
      ∙ write_checked-total st signer log id cur legs (check_batch legs) refl ne c
      ∙ sym (net_at-net_from c [] log)
