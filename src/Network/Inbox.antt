-- ===== src/Network/Inbox.antt =====
-- origin-network/src/relay.rs: one inbox of the relay, and the frames that it keeps and drops.
pub mod Caps
use origin_tools.Base.{
  ℕ, ◌+◌, ◌-◌, Bool, true, false, Option, none, some, List, [], ◌∷◌, ◌++◌, ltb, leb, ◌==◌,
  if◌then◌else◌, length,
}
use origin_tools.Base.Bytes.{Bytes}

pub record TimestampedFrame : Type 0 where
  pub bytes : Bytes
  pub enqueued_at : ℕ

-- The frames, oldest first, and the bytes that they hold by the relay's count.
pub record Inbox : Type 0 where
  pub frames : List TimestampedFrame
  pub byte_count : ℕ

abbrev pub inbox_or_default : Option Inbox → Inbox
inbox_or_default none = record { frames = []; byte_count = 0 }
inbox_or_default (some inbox) = inbox

abbrev pub without_first : Inbox → List TimestampedFrame → Inbox
without_first inbox [] = inbox
without_first inbox (f ∷ fs) = record {
  frames = fs;
  byte_count = inbox.byte_count - length f.bytes;
}

-- Frame cap: drop the oldest.
unfoldable pub drop_oldest : ℕ → Inbox → Inbox
drop_oldest max_messages inbox =
    if leb max_messages (length inbox.frames) then without_first inbox inbox.frames else inbox

-- Byte cap: drop the oldest until so many bytes more fit.
unfoldable pub make_room : ℕ → ℕ → List TimestampedFrame → ℕ → Inbox
make_room max_bytes more [] count = record { frames = []; byte_count = count }
make_room max_bytes more (f ∷ fs) count =
    let rest = make_room max_bytes more fs (count - length f.bytes) in
    if ltb max_bytes (count + more) then rest else record { frames = f ∷ fs; byte_count = count }

abbrev pub append_within : ℕ → ℕ → Bytes → Inbox → Inbox × Bool
append_within max_bytes now frame room =
    if ltb max_bytes (room.byte_count + length frame) then (room, false) else (
      record {
        frames = room.frames ++ record { bytes = frame; enqueued_at = now } ∷ [];
        byte_count = room.byte_count + length frame;
      },
      true,
    )

-- What becomes of an inbox, and whether the frame went in.
unfoldable pub enqueue : ℕ → ℕ → ℕ → Bytes → Inbox → Inbox × Bool
unfolding drop_oldest make_room
enqueue max_messages max_bytes now frame inbox =
    let kept = drop_oldest max_messages inbox in
    append_within max_bytes now frame
      (make_room max_bytes (length frame) kept.frames kept.byte_count)

-- `now.duration_since(enqueued_at) < ttl`; an instant before the other counts as the same.
abbrev pub is_live : ℕ → ℕ → TimestampedFrame → Bool
is_live now ttl f = ltb (now - f.enqueued_at) ttl

unfoldable pub live_bytes : ℕ → ℕ → List TimestampedFrame → List Bytes
live_bytes now ttl [] = []
live_bytes now ttl (f ∷ fs) =
    if is_live now ttl f then f.bytes ∷ live_bytes now ttl fs else live_bytes now ttl fs

-- One inbox without its expired frames, and how many these were.
unfoldable pub purge : ℕ → ℕ → List TimestampedFrame → ℕ → Inbox × ℕ
purge now ttl [] count = (record { frames = []; byte_count = count }, 0)
purge now ttl (f ∷ fs) count =
    let live = is_live now ttl f in
    let (rest, removed) = purge now ttl fs (if live then count else count - length f.bytes) in
    (
      record {
        frames = if live then f ∷ rest.frames else rest.frames;
        byte_count = rest.byte_count;
      },
      if live then removed else removed + 1,
    )
