-- ===== src/Payments/Journal/Chain.antt =====
-- The journal of journal.rs only grows, and each posting names the hash of the one before it.
use Prim.Native.String.{String}
use origin_tools.Base.{
  ℕ, ◌≡◌, refl, subst, sym, ◌∙◌, ap, Option, none, some, List, [], ◌∷◌, ◌++◌, Result, ok, err,
}
use mathlib.Core.List.{append-nil, append_assoc}
use origin_tools.Base.Bytes.{Bytes}
use origin_tools.Base.Decimal.{Text}
use origin_tools.Payments.Order.{FxRate}
use origin_tools.Payments.Journal.{
  debit, credit, Journal, LedgerPosting, Stamp, Hashing, OperatorKeys, JournalError, post_all,
  post_next, sign_posting, with_signature, append_batch, append_fx_batch, append_order_batch,
  append_converted, write_checked, finish, journal_head, posting_hash, posting_canonical,
  genesis_hash, to_minor, check_batch, check_fx_batch, fx_drafts, fx_legs,
}

module _ (h : Hashing) where
  -- A signature touches nothing that is signed.
  with_signature-ok :
      (d p : LedgerPosting) (keys : OperatorKeys) (o : Option Bytes)
      → with_signature d keys o ≡ ok p
      → (sig who : Option Bytes) × (p ≡ record d { signature = sig; signer = who })
  with_signature-ok d p keys none e = cc
  with_signature-ok d p keys (some sig) e = (some sig, some keys.order_signer, cc)

  pub sign_posting-ok :
      (d p : LedgerPosting) (signer : Option OperatorKeys)
      → sign_posting h d signer ≡ ok p
      → (sig who : Option Bytes) × (p ≡ record d { signature = sig; signer = who })
  unfolding sign_posting
  sign_posting-ok d p none e = (d.signature, d.signer, cc)
  sign_posting-ok d p (some keys) e =
      with_signature-ok d p keys (keys.try_sign_hybrid (posting_canonical h d)) e

  abbrev pub Chained : Bytes → Journal → Type 0
  Chained prev [] = Unit
  Chained prev (p ∷ ps) = (p.prev_hash ≡ prev) × Chained (posting_hash h p) ps

  abbrev head_from : Bytes → Journal → Bytes
  head_from prev [] = prev
  head_from prev (p ∷ ps) = head_from (posting_hash h p) ps

  journal_head-head_from : (log : Journal) → journal_head h log ≡ head_from genesis_hash log
  unfolding journal_head
  journal_head-head_from [] = refl
  journal_head-head_from (p ∷ []) = refl
  journal_head-head_from (p ∷ q ∷ ps) = journal_head-head_from (q ∷ ps)

  Chained-append :
      (prev : Bytes) (ps qs : Journal)
      → Chained prev ps
      → Chained (head_from prev ps) qs
      → Chained prev (ps ++ qs)
  Chained-append prev [] qs c d = d
  Chained-append prev (p ∷ ps) qs c d = (c.0, Chained-append (posting_hash h p) ps qs c.1 d)

  -- What an operation leaves: the journal with more postings, chained to where it stood.
  record Grows (log : Journal) (prev : Bytes) (log' : Journal) : Type 0 where
    more : Journal
    is_more : log' ≡ log ++ more
    linked : Chained prev more

  no_growth : (log : Journal) (prev : Bytes) → Grows log prev log
  no_growth log prev = record { more = []; is_more = sym (append-nil log); linked = tt }

  post_all-Grows :
      (signer : Option OperatorKeys) (log : Journal) (prev : Bytes) (ds : List LedgerPosting)
      → Grows log prev (post_all h signer log prev ds).0
  unfolding post_all
  post_all-Grows signer log prev [] = no_growth log prev
  post_all-Grows signer log prev (d ∷ ds) =
      grown (sign_posting h (record d { prev_hash = prev }) signer)
        (λ p e. sign_posting-ok _ p signer e)
        (λ p. post_all-Grows signer (log ++ p ∷ []) (posting_hash h p) ds)
    where
      grown :
          (r : Result JournalError LedgerPosting)
          → ((p : LedgerPosting)
              → r ≡ ok p
              → (sig who : Option Bytes) × (p
                  ≡ record d { prev_hash = prev; signature = sig; signer = who }))
          → ((p : LedgerPosting)
              → Grows
                  (log ++ p ∷ [])
                  (posting_hash h p)
                  (post_all h signer (log ++ p ∷ []) (posting_hash h p) ds).0)
          → Grows log prev
              (post_next log r λ p. post_all h signer (log ++ p ∷ []) (posting_hash h p) ds).0
      grown (err e) same rest = no_growth log prev
      grown (ok p) same rest =
          let g = rest p in
          let (sig, who, e) = same p refl in
          record {
            more = p ∷ g.more;
            is_more = g.is_more ∙ append_assoc log (p ∷ []) g.more;
            linked = (ap (λ (q : LedgerPosting). q.prev_hash) e, g.linked);
          }

  finish-Grows :
      (st : Stamp) (log : Journal) (prev : Bytes) (r : Journal × Result JournalError (Unit {0}))
      → Grows log prev r.0
      → Grows log prev (finish st r).0
  finish-Grows st log prev (log', ok u) g = g
  finish-Grows st log prev (log', err e) g = g

  write_checked-Grows :
      (st : Stamp) (signer : Option OperatorKeys) (log : Journal) (ds : List LedgerPosting)
      (r : Result JournalError (Unit {0}))
      → Grows log (journal_head h log) (write_checked h st signer log ds r).0
  write_checked-Grows st signer log ds (err e) = no_growth log (journal_head h log)
  write_checked-Grows st signer log ds (ok u) =
      finish-Grows st log (journal_head h log) _ (post_all-Grows signer log (journal_head h log) ds)

  append_converted-Grows :
      (st : Stamp) (log : Journal) (id : String) (amount : Text) (rate : FxRate)
      (signer : Option OperatorKeys) (r : Result JournalError ℕ)
      → Grows log (journal_head h log) (append_converted h st log id amount rate signer r).0
  unfolding append_fx_batch
  append_converted-Grows st log id amount rate signer (err e) = no_growth log (journal_head h log)
  append_converted-Grows st log id amount rate signer (ok minor) =
      write_checked-Grows st signer log (fx_drafts st id rate 0 (fx_legs amount rate minor))
        (check_fx_batch (fx_legs amount rate minor) rate)

  append_order_batch-Grows :
      (st : Stamp) (log : Journal) (id : String) (amount : Text) (currency : String)
      (fx : Option FxRate) (signer : Option OperatorKeys)
      → Grows log (journal_head h log) (append_order_batch h st log id amount currency fx signer).0
  unfolding append_order_batch append_batch
  append_order_batch-Grows st log id amount currency none signer =
      write_checked-Grows st signer log _ (check_batch ((debit, amount) ∷ (credit, amount) ∷ []))
  append_order_batch-Grows st log id amount currency (some rate) signer =
      append_converted-Grows st log id amount rate signer (to_minor amount rate)

  -- Whatever comes of posting an order's batch, converted or not, signed or not: the journal only
  -- grows at its end, and if each posting named the hash of the one before it, so it does after.
  pub append_order_batch-Chained :
      (st : Stamp) (log : Journal) (id : String) (amount : Text) (currency : String)
      (fx : Option FxRate) (signer : Option OperatorKeys)
      → Chained genesis_hash log
      → (more : Journal) × ((append_order_batch h st log id amount currency fx signer).0
          ≡ log ++ more)
        × Chained genesis_hash (log ++ more)
  append_order_batch-Chained st log id amount currency fx signer c =
      let g = append_order_batch-Grows st log id amount currency fx signer in
      (
        g.more,
        g.is_more,
        Chained-append genesis_hash log g.more c
            (subst (λ b. Chained b g.more) (journal_head-head_from log) g.linked),
      )
