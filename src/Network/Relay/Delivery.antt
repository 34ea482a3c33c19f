-- ===== src/Network/Relay/Delivery.antt =====
-- From `inbox_push` to `inbox_pull` of relay.rs: what is buffered is delivered, once and in order.
use mathlib.Core.List.{append-nil, append_assoc}
use origin_tools.Base.{
  ℕ, ◌+◌, ◌-◌, ◌≤◌, ◌<◌, ◌≡◌, refl, ap, sym, ◌∙◌, true, false, none, some, List, [], ◌∷◌, ◌++◌,
  arith, length, length-append, Bool-cases, inl, inr, ok, ge→ltb,
}
use origin_tools.Base.Bytes.{Bytes}
use origin_tools.Base.Eq.{bytes_eq}
use origin_tools.Base.Sets.{contains, lookup, put, lookup-put}
use origin_tools.Network.Inbox.{Inbox, TimestampedFrame, live_bytes, is_live, inbox_or_default}
use origin_tools.Network.Relay.{
  RelayState, Fingerprint, EvictionSet, inbox_push, inbox_pull, remove_key, is_evicted, buffered,
}
use origin_tools.Network.Inbox.Caps.{enqueue-fits}

-- Frames with the times at which they are pushed, and their senders.
abbrev pub Timed : Type 0
Timed = List (ℕ × (Fingerprint × Bytes))

abbrev pub push_all : EvictionSet → Fingerprint → RelayState → Timed → RelayState
push_all evictions target s [] = s
push_all evictions target s ((at, (sender, frame)) ∷ fs) =
    push_all evictions target (inbox_push evictions s at sender target frame).0 fs

abbrev pub frames_of : Timed → List Bytes
frames_of [] = []
frames_of ((at, (sender, frame)) ∷ fs) = frame ∷ frames_of fs

abbrev pub bytes_of : Timed → ℕ
bytes_of [] = 0
bytes_of ((at, (sender, frame)) ∷ fs) = length frame + bytes_of fs

-- No sender is evicted, no frame is too large, and none has expired at `now`.
abbrev pub Deliverable : EvictionSet → ℕ → ℕ → ℕ → Timed → Type 0
Deliverable evictions max_frame_size now ttl [] = Unit
Deliverable evictions max_frame_size now ttl ((at, (sender, frame)) ∷ fs) =
    (is_evicted evictions sender ≡ false)
    × (length frame ≤ max_frame_size)
    × (now - at < ttl)
    × Deliverable evictions max_frame_size now ttl fs

live_bytes-snoc :
    (now ttl at : ℕ) (frame : Bytes) (held : List TimestampedFrame)
    → now - at < ttl
    → live_bytes now ttl (held ++ record { bytes = frame; enqueued_at = at } ∷ [])
      ≡ live_bytes now ttl held ++ frame ∷ []
unfolding live_bytes
live_bytes-snoc now ttl at frame [] h = ground arith
live_bytes-snoc now ttl at frame (f ∷ held) h = elim (Bool-cases (is_live now ttl f)) [
  | inl e ↦ rw e (ap (λ fs. f.bytes ∷ fs) (live_bytes-snoc now ttl at frame held h))
  | inr e ↦ rw e (live_bytes-snoc now ttl at frame held h)
]

abbrev inbox_of : RelayState → Fingerprint → Inbox
inbox_of s fp = inbox_or_default (lookup fp s.inboxes)

lookup-put_same :
    (target : Fingerprint) (inbox : Inbox) (m : List (Fingerprint × Inbox))
    → lookup target (put target inbox m) ≡ some inbox
lookup-put_same target inbox m =
    ground (arith, lookup-put target target inbox m, bytes_eq.beq_iff target target)

abbrev with_frame : ℕ → Bytes → Inbox → Inbox
with_frame at frame inbox = record {
  frames = inbox.frames ++ record { bytes = frame; enqueued_at = at } ∷ [];
  byte_count = inbox.byte_count + length frame;
}

with_frame-length :
    {n : ℕ} (at : ℕ) (frame : Bytes) (inbox : Inbox) (fs : Timed)
    → length inbox.frames + (length fs + 1) ≤ n
    → length (with_frame at frame inbox).frames + length fs ≤ n
with_frame-length at frame inbox fs h =
    omega (arith, length-append inbox.frames (record { bytes = frame; enqueued_at = at } ∷ []))

pulled :
    (s : RelayState) (now : ℕ) (fp : Fingerprint)
    → (inbox_pull s now fp).1 ≡ live_bytes now s.inbox_ttl (inbox_of s fp).frames
unfolding inbox_pull
pulled s now fp = refl

module _ (evictions : EvictionSet) (target : Fingerprint) where
  pushed :
      (s : RelayState) (at : ℕ) (sender : Fingerprint) (frame : Bytes) (inbox : Inbox)
      → is_evicted evictions sender ≡ false
      → contains s.online target ≡ true
      → inbox_of s target ≡ inbox
      → length frame ≤ s.max_frame_size
      → length inbox.frames < s.max_inbox_messages
      → inbox.byte_count + length frame ≤ s.max_inbox_bytes
      → inbox_push evictions s at sender target frame
        ≡ (record s { inboxes = put target (with_frame at frame inbox) s.inboxes }, ok buffered)
  unfolding inbox_push
  pushed s at sender frame inbox trusted here held small few fits =
      rw
        (
          trusted,
          ge→ltb s.max_frame_size (length frame) small,
          here,
          held,
          enqueue-fits s.max_inbox_messages s.max_inbox_bytes at frame inbox few fits,
        )
        refl

  live-push_all :
      (s : RelayState) (now : ℕ) (fs : Timed) (inbox : Inbox)
      → contains s.online target ≡ true
      → inbox_of s target ≡ inbox
      → length inbox.frames + length fs ≤ s.max_inbox_messages
      → inbox.byte_count + bytes_of fs ≤ s.max_inbox_bytes
      → Deliverable evictions s.max_frame_size now s.inbox_ttl fs
      → (inbox_pull (push_all evictions target s fs) now target).1
        ≡ live_bytes now s.inbox_ttl inbox.frames ++ frames_of fs
  live-push_all s now [] inbox here held few fits d =
      pulled s now target ∙ rw held (sym (append-nil (live_bytes now s.inbox_ttl inbox.frames)))
  live-push_all s now ((at, (sender, frame)) ∷ fs) inbox here held few fits d =
      let after = with_frame at frame inbox in
      let step = pushed s at sender frame inbox d.0 here held d.1 (omega arith) (omega arith) in
      rw step (
        live-push_all (record s { inboxes = put target after s.inboxes }) now fs after here
          (ap inbox_or_default (lookup-put_same target after s.inboxes))
          (with_frame-length at frame inbox fs (omega (arith, few))) (omega arith) d.3
        ∙ rw (live_bytes-snoc now s.inbox_ttl at frame inbox.frames d.2)
            (append_assoc (live_bytes now s.inbox_ttl inbox.frames) (frame ∷ []) (frames_of fs)))

lookup-remove_key :
    (fp : Fingerprint) (m : List (Fingerprint × Inbox)) → lookup fp (remove_key fp m) ≡ none
lookup-remove_key fp [] = refl
lookup-remove_key fp ((j, inbox) ∷ m) = elim (Bool-cases (bytes_eq.beq j fp)) [
  | inl e ↦ rw e (lookup-remove_key fp m)
  | inr e ↦ rw (e, e) (lookup-remove_key fp m)
]

pull_again :
    (s : RelayState) (now later : ℕ) (fp : Fingerprint)
    → (inbox_pull (inbox_pull s now fp).0 later fp).1 ≡ []
unfolding inbox_pull live_bytes
pull_again s now later fp = rw (lookup-remove_key fp s.inboxes) refl

-- Frames pushed to a client that is online and has no inbox, from senders that are not evicted, each
-- within the frame size, all within both caps of an inbox and none expired when they are pulled, are
-- pulled all and in the order of the pushes; and a second pull finds none.
pub inbox_pull-push_all :
    (evictions : EvictionSet) (target : Fingerprint) (s : RelayState) (now later : ℕ) (fs : Timed)
    → contains s.online target ≡ true
    → lookup target s.inboxes ≡ none
    → length fs ≤ s.max_inbox_messages
    → bytes_of fs ≤ s.max_inbox_bytes
    → Deliverable evictions s.max_frame_size now s.inbox_ttl fs
    → let pulled = inbox_pull (push_all evictions target s fs) now target in
      (pulled.1 ≡ frames_of fs) × ((inbox_pull pulled.0 later target).1 ≡ [])
unfolding live_bytes
inbox_pull-push_all evictions target s now later fs here fresh few fits d = (
  live-push_all evictions target s now fs record { frames = []; byte_count = 0 } here
      (ap inbox_or_default fresh) (omega (arith, few)) (omega (arith, fits)) d,
  pull_again (push_all evictions target s fs) now later target,
)
