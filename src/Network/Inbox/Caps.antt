-- ===== src/Network/Inbox/Caps.antt =====
-- One inbox of relay.rs: its count is right, its caps hold, and what fits is kept in order.
use origin_tools.Base.{
  ℕ, ◌+◌, ◌-◌, ◌≤◌, ◌<◌, ◌≡◌, refl, true, List, [], ◌∷◌, ◌++◌, arith, ltb, leb, length,
  length-append, Bool-cases, inl, inr, ge→ltb, ge→leb,
}
use origin_tools.Base.Bytes.{Bytes}
use origin_tools.Network.Inbox.{
  Inbox, TimestampedFrame, append_within, drop_oldest, without_first, make_room, enqueue, purge,
  is_live,
}

abbrev pub total_bytes : List TimestampedFrame → ℕ
total_bytes [] = 0
total_bytes (f ∷ fs) = length f.bytes + total_bytes fs

total_bytes-snoc :
    (fs : List TimestampedFrame) (f : TimestampedFrame)
    → total_bytes (fs ++ f ∷ []) ≡ total_bytes fs + length f.bytes
total_bytes-snoc [] f = omega arith
total_bytes-snoc (g ∷ gs) f = omega (arith, total_bytes-snoc gs f)

-- The relay's count is the bytes held, and both caps hold.
pub record IsInbox (max_messages max_bytes : ℕ) (inbox : Inbox) : Type 0 where
  pub counted : inbox.byte_count ≡ total_bytes inbox.frames
  pub few : length inbox.frames ≤ max_messages
  pub bounded : inbox.byte_count ≤ max_bytes

module _ (max_messages max_bytes : ℕ) where
  pub empty-IsInbox : IsInbox max_messages max_bytes (record { frames = []; byte_count = 0 })
  empty-IsInbox = record { counted = refl; few = omega arith; bounded = omega arith }

  without_first-few :
      (fs : List TimestampedFrame) (count : ℕ)
      → count ≡ total_bytes fs
      → length fs ≤ max_messages
      → 1 ≤ max_messages
      → max_messages ≤ length fs
      → let inbox = without_first (record { frames = fs; byte_count = count }) fs in
        (inbox.byte_count ≡ total_bytes inbox.frames) × (length inbox.frames + 1 ≤ max_messages)
  without_first-few [] count c few pos full = absurd (omega arith)
  without_first-few (f ∷ fs) count c few pos full = (omega arith, omega arith)

  without_first-least :
      (inbox : Inbox) (fs : List TimestampedFrame)
      → (without_first inbox fs).byte_count ≤ inbox.byte_count
  without_first-least inbox [] = omega arith
  without_first-least inbox (f ∷ fs) = omega arith

  drop_oldest-few :
      (inbox : Inbox)
      → IsInbox max_messages max_bytes inbox
      → 1 ≤ max_messages
      → let kept = drop_oldest max_messages inbox in
        (kept.byte_count ≡ total_bytes kept.frames) × (length kept.frames + 1 ≤ max_messages)
  unfolding drop_oldest
  drop_oldest-few inbox v pos = elim (Bool-cases (leb max_messages (length inbox.frames))) [
    | inl full ↦
        rw full (without_first-few inbox.frames inbox.byte_count v.counted v.few pos (ground arith))
    | inr room ↦ rw room (v.counted, ground arith)
  ]

  make_room-counted :
      (more : ℕ) (fs : List TimestampedFrame) (count : ℕ)
      → count ≡ total_bytes fs
      → let room = make_room max_bytes more fs count in
        (room.byte_count ≡ total_bytes room.frames) × (length room.frames ≤ length fs)
  unfolding make_room
  make_room-counted more [] count c = (c, omega arith)
  make_room-counted more (f ∷ fs) count c = elim (Bool-cases (ltb max_bytes (count + more))) [
    | inl full ↦
        let ih = make_room-counted more fs (count - length f.bytes) (omega arith) in
        rw full (ih.0, omega (arith, ih.1))
    | inr fits ↦ rw fits (c, omega arith)
  ]

  -- Only an emptied inbox can still lack room.
  make_room-fits :
      (more : ℕ) (fs : List TimestampedFrame) (count : ℕ)
      → count ≡ total_bytes fs
      → more ≤ max_bytes
      → (make_room max_bytes more fs count).byte_count + more ≤ max_bytes
  unfolding make_room
  make_room-fits more [] count c h = omega arith
  make_room-fits more (f ∷ fs) count c h = elim (Bool-cases (ltb max_bytes (count + more))) [
    | inl full ↦ rw full (make_room-fits more fs (count - length f.bytes) (omega arith) h)
    | inr fits ↦ rw fits (ground arith)
  ]

  make_room-least :
      (more : ℕ) (fs : List TimestampedFrame) (count : ℕ)
      → (make_room max_bytes more fs count).byte_count ≤ count
  unfolding make_room
  make_room-least more [] count = omega arith
  make_room-least more (f ∷ fs) count = elim (Bool-cases (ltb max_bytes (count + more))) [
    | inl full ↦ rw full (omega (arith, make_room-least more fs (count - length f.bytes)))
    | inr fits ↦ rw fits (omega arith)
  ]

  make_room-none :
      (more : ℕ) (fs : List TimestampedFrame) (count : ℕ)
      → count + more ≤ max_bytes
      → make_room max_bytes more fs count ≡ record { frames = fs; byte_count = count }
  unfolding make_room
  make_room-none more [] count h = refl
  make_room-none more (f ∷ fs) count h = rw (ge→ltb max_bytes (count + more) h) refl

  drop_oldest-least :
      (inbox : Inbox) → (drop_oldest max_messages inbox).byte_count ≤ inbox.byte_count
  unfolding drop_oldest
  drop_oldest-least inbox = elim (Bool-cases (leb max_messages (length inbox.frames))) [
    | inl full ↦ rw full (without_first-least inbox inbox.frames)
    | inr room ↦ rw room (omega arith)
  ]

  append_within-IsInbox :
      (now : ℕ) (frame : Bytes) (room : Inbox)
      → IsInbox max_messages max_bytes room
      → length room.frames + 1 ≤ max_messages
      → IsInbox max_messages max_bytes (append_within max_bytes now frame room).0
  append_within-IsInbox now frame room v few =
      elim (Bool-cases (ltb max_bytes (room.byte_count + length frame))) [
        | inl full ↦ rw full v
        | inr fits ↦ rw fits record {
          counted = omega (
            arith,
            v.counted,
            total_bytes-snoc room.frames record { bytes = frame; enqueued_at = now },
          );
          few =
              rw (length-append room.frames (record { bytes = frame; enqueued_at = now } ∷ [])) few;
          bounded = ground arith;
        }
      ]

  -- An enqueued frame keeps the inbox in order, whether it went in or not.
  pub enqueue-IsInbox :
      (now : ℕ) (frame : Bytes) (inbox : Inbox)
      → 1 ≤ max_messages
      → IsInbox max_messages max_bytes inbox
      → IsInbox max_messages max_bytes (enqueue max_messages max_bytes now frame inbox).0
  unfolding enqueue
  enqueue-IsInbox now frame inbox pos v =
      let kept = drop_oldest max_messages inbox in
      let few = drop_oldest-few inbox v pos in
      let room = make_room max_bytes (length frame) kept.frames kept.byte_count in
      let counted = make_room-counted (length frame) kept.frames kept.byte_count few.0 in
      append_within-IsInbox now frame room
        record {
          counted = counted.0;
          few = omega (arith, counted.1, few.1);
          bounded = omega (
            arith,
            make_room-least (length frame) kept.frames kept.byte_count,
            drop_oldest-least inbox,
            v.bounded,
          );
        }
        (omega (arith, counted.1, few.1))

  -- Below both caps a frame is put behind the others, and none is dropped.
  pub enqueue-fits :
      (now : ℕ) (frame : Bytes) (inbox : Inbox)
      → length inbox.frames < max_messages
      → inbox.byte_count + length frame ≤ max_bytes
      → enqueue max_messages max_bytes now frame inbox ≡ (
        record {
          frames = inbox.frames ++ record { bytes = frame; enqueued_at = now } ∷ [];
          byte_count = inbox.byte_count + length frame;
        },
        true,
      )
  unfolding enqueue drop_oldest
  enqueue-fits now frame inbox few fits =
      rw
        (
          ge→leb max_messages (length inbox.frames) few,
          make_room-none (length frame) inbox.frames inbox.byte_count fits,
          ge→ltb max_bytes (inbox.byte_count + length frame) fits,
        )
        refl

  -- Apart from `others` counted with the frames, the count stays right.
  purge-counted :
      (now ttl others : ℕ) (fs : List TimestampedFrame) (count : ℕ)
      → count ≡ others + total_bytes fs
      → let inbox = (purge now ttl fs count).0 in
        (inbox.byte_count ≡ others + total_bytes inbox.frames)
        × (length inbox.frames ≤ length fs)
        × (inbox.byte_count ≤ count)
  unfolding purge
  purge-counted now ttl others [] count c = (c, omega arith, omega arith)
  purge-counted now ttl others (f ∷ fs) count c = elim (Bool-cases (is_live now ttl f)) [
    | inl live ↦
        let ih = purge-counted now ttl (others + length f.bytes) fs count (omega (arith, c)) in
        rw live (omega (arith, ih.0), omega (arith, ih.1), ih.2)
    | inr old ↦
        let ih = purge-counted now ttl others fs (count - length f.bytes) (omega (arith, c)) in
        rw old (ih.0, omega (arith, ih.1), omega (arith, ih.2))
  ]

  pub purge-IsInbox :
      (now ttl : ℕ) (inbox : Inbox)
      → IsInbox max_messages max_bytes inbox
      → IsInbox max_messages max_bytes (purge now ttl inbox.frames inbox.byte_count).0
  purge-IsInbox now ttl inbox v =
      let p = purge-counted now ttl 0 inbox.frames inbox.byte_count (omega (arith, v.counted)) in
      record {
        counted = omega (arith, p.0);
        few = omega (arith, p.1, v.few);
        bounded = omega (arith, p.2, v.bounded);
      }
