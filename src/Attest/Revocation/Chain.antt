-- ===== src/Attest/Revocation/Chain.antt =====
-- The hash chain of revocation.rs: appending keeps it, and a chain pins down what it was built from.
use origin_tools.Base.{ℕ, ◌+◌, ◌≡◌, refl, [], ◌∷◌, ◌++◌, arith, ok}
use origin_tools.Base.Bytes.{Bytes}
use origin_tools.Base.Eq.{bytes_eq}
use origin_tools.Attest.Revocation.{
  Signing, RevocationRecord, RevocationJournal, zero_hash, hash, tip_hash, tip_from, append,
  check_from, verify_integrity,
}

module _ (c : Signing) where
  -- Each record names the hash of the one before it.
  abbrev Chained : Bytes → RevocationJournal → Type 0
  Chained expected [] = Unit
  Chained expected (r ∷ rs) = (r.prev_hash ≡ expected) × Chained (hash c r) rs

  check_from-Chained :
      (i : ℕ) (expected : Bytes) (j : RevocationJournal)
      → check_from c i expected j ≡ ok tt
      → Chained expected j
  unfolding check_from
  check_from-Chained i expected [] e = tt
  check_from-Chained i expected (r ∷ rs) e =
      ground
        (arith, check_from-Chained (i + 1) (hash c r) rs, bytes_eq.beq_iff r.prev_hash expected)

  Chained-check_from :
      (i : ℕ) (expected : Bytes) (j : RevocationJournal)
      → Chained expected j
      → check_from c i expected j ≡ ok tt
  unfolding check_from
  Chained-check_from i expected [] h = refl
  Chained-check_from i expected (r ∷ rs) h =
      ground
        (arith, Chained-check_from (i + 1) (hash c r) rs, bytes_eq.beq_iff r.prev_hash expected)

  Chained-snoc :
      (expected : Bytes) (j : RevocationJournal) (r : RevocationRecord)
      → Chained expected j
      → r.prev_hash ≡ tip_from c expected j
      → Chained expected (j ++ r ∷ [])
  Chained-snoc expected [] r h e = (e, tt)
  Chained-snoc expected (s ∷ j) r h e = (h.0, Chained-snoc (hash c s) j r h.1 e)

  -- Appending a record keeps the chain intact: if a journal passes the integrity check, so does it
  -- with one more record.
  pub verify_integrity-append :
      (j : RevocationJournal) (r : RevocationRecord)
      → verify_integrity c j ≡ ok tt
      → verify_integrity c (append c j r) ≡ ok tt
  unfolding verify_integrity append tip_hash
  verify_integrity-append j r e = Chained-check_from 0 zero_hash _ (
      Chained-snoc zero_hash j (record r { prev_hash = tip_hash c j })
        (check_from-Chained 0 zero_hash j e) refl)
