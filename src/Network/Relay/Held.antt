-- ===== src/Network/Relay/Held.antt =====
-- The inboxes of relay.rs together: each is within its caps whatever is put, removed or purged.
use origin_tools.Base.{ℕ, List, [], ◌∷◌, ◌==◌, length, Bool-cases, inl, inr}
use origin_tools.Base.Eq.{bytes_eq}
use origin_tools.Base.Sets.{lookup, put}
use origin_tools.Network.Inbox.{Inbox, purge, inbox_or_default}
use origin_tools.Network.Relay.{Fingerprint, remove_key, keep_inbox, purge_all}
use origin_tools.Network.Inbox.Caps.{IsInbox, empty-IsInbox, purge-IsInbox}

abbrev pub AllInboxes : ℕ → ℕ → List (Fingerprint × Inbox) → Type 0
AllInboxes max_messages max_bytes [] = Unit
AllInboxes max_messages max_bytes ((fp, inbox) ∷ m) =
    IsInbox max_messages max_bytes inbox × AllInboxes max_messages max_bytes m

module _ (max_messages max_bytes : ℕ) where
  pub looked_up :
      (k : Fingerprint) (m : List (Fingerprint × Inbox))
      → AllInboxes max_messages max_bytes m
      → IsInbox max_messages max_bytes (inbox_or_default (lookup k m))
  looked_up k [] h = empty-IsInbox max_messages max_bytes
  looked_up k ((j, inbox) ∷ m) h = elim (Bool-cases (bytes_eq.beq j k)) [
    | inl e ↦ rw e h.0
    | inr e ↦ rw e (looked_up k m h.1)
  ]

  pub put_in :
      (k : Fingerprint) (inbox : Inbox) (m : List (Fingerprint × Inbox))
      → AllInboxes max_messages max_bytes m
      → IsInbox max_messages max_bytes inbox
      → AllInboxes max_messages max_bytes (put k inbox m)
  put_in k inbox [] h v = (v, tt)
  put_in k inbox ((j, other) ∷ m) h v = elim (Bool-cases (bytes_eq.beq j k)) [
    | inl e ↦ rw e (v, h.1)
    | inr e ↦ rw e (h.0, put_in k inbox m h.1 v)
  ]

  pub removed_key :
      (k : Fingerprint) (m : List (Fingerprint × Inbox))
      → AllInboxes max_messages max_bytes m
      → AllInboxes max_messages max_bytes (remove_key k m)
  removed_key k [] h = tt
  removed_key k ((j, other) ∷ m) h = elim (Bool-cases (bytes_eq.beq j k)) [
    | inl e ↦ rw e (removed_key k m h.1)
    | inr e ↦ rw e (h.0, removed_key k m h.1)
  ]

  kept :
      (fp : Fingerprint) (inbox : Inbox) (rest : List (Fingerprint × Inbox))
      → IsInbox max_messages max_bytes inbox
      → AllInboxes max_messages max_bytes rest
      → AllInboxes max_messages max_bytes (keep_inbox fp inbox rest)
  kept fp inbox rest v h = elim (Bool-cases (length inbox.frames == 0)) [
    | inl e ↦ rw e h
    | inr e ↦ rw e (v, h)
  ]

  pub purged :
      (now ttl : ℕ) (m : List (Fingerprint × Inbox))
      → AllInboxes max_messages max_bytes m
      → AllInboxes max_messages max_bytes (purge_all now ttl m).0
  unfolding purge_all
  purged now ttl [] h = tt
  purged now ttl ((fp, inbox) ∷ m) h =
      kept fp (purge now ttl inbox.frames inbox.byte_count).0 (purge_all now ttl m).0
        (purge-IsInbox max_messages max_bytes now ttl inbox h.0) (purged now ttl m h.1)
