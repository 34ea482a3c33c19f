-- ===== src/Network/Relay.antt =====
-- origin-network/src/relay.rs: the state of a relay. Each method locks the whole state, so a method
-- is one step. Clocks (in seconds) and random tokens are arguments; a fingerprint is its bytes.
pub mod Pairs
pub mod Held
pub mod Limits
pub mod Runs
pub mod Delivery
pub mod Departure
mod Tests
use origin_tools.Base.{
  ℕ, ◌+◌, ◌-◌, ◌%◌, Bool, true, false, ◌&&◌, not, Option, none, some, List, [], ◌∷◌, ◌++◌, ltb, leb,
  ◌==◌, if◌then◌else◌, length, Result, ok, err, u64,
}
use origin_tools.Base.Bytes.{Bytes}
use origin_tools.Base.Eq.{bytes_eq}
use origin_tools.Base.Sets.{contains, insert, remove, lookup, put}
use origin_tools.Network.Inbox.{
  Inbox, TimestampedFrame, inbox_or_default, enqueue, live_bytes, purge,
}

abbrev pub Fingerprint : Type 0
Fingerprint = Bytes

pub record ForwardPair : Type 0 where
  pub id : ℕ
  pub sender : Fingerprint  -- `from`
  pub target : Fingerprint  -- `to`

pub record Advert : Type 0 where
  pub protocol_version : ℕ  -- u16
  pub endpoints : List Bytes
  pub ttl_secs : ℕ
  pub presence : ℕ  -- u8

-- `RelayState` with its `RelayStateInner`.
pub record RelayState : Type 0 where
  pub online : List Fingerprint
  pub tokens : List (Bytes × Fingerprint)
  pub forwarding : List ForwardPair
  pub next_pair_id : ℕ  -- u64
  pub inboxes : List (Fingerprint × Inbox)
  pub adverts : List (Fingerprint × (Advert × ℕ))
  pub max_forwardings : ℕ
  pub max_inbox_messages : ℕ
  pub max_inbox_bytes : ℕ
  pub inbox_ttl : ℕ
  pub max_frame_size : ℕ

pub data ForwardOutcome : Type 0 where
  buffered target_is_offline : ForwardOutcome

-- `NetworkError`, as far as the relay raises it.
pub data RelayError : Type 0 where
  evicted target_offline : Fingerprint → RelayError
  at_capacity : ℕ → RelayError
  frame_too_large : ℕ → RelayError
  inbox_cap_exceeded : RelayError

-- `EvictionSet`
abbrev pub EvictionSet : Type 0
EvictionSet = List Fingerprint

abbrev pub default_max_frame_size : ℕ
default_max_frame_size = 1048576

abbrev pub with_caps : ℕ → ℕ → ℕ → ℕ → RelayState
with_caps max_forwardings max_inbox_messages max_inbox_bytes inbox_ttl_secs = record {
  online = [];
  tokens = [];
  forwarding = [];
  next_pair_id = 1;
  inboxes = [];
  adverts = [];
  max_forwardings = max_forwardings;
  max_inbox_messages = max_inbox_messages;
  max_inbox_bytes = max_inbox_bytes;
  inbox_ttl = inbox_ttl_secs;
  max_frame_size = default_max_frame_size;
}

abbrev pub new : ℕ → RelayState
new max_forwardings = with_caps max_forwardings 256 8388608 300

-- `true`: newly revoked.
pub revoke : EvictionSet → Fingerprint → EvictionSet × Bool
revoke evictions fp = (insert fp evictions, not (contains evictions fp))

pub is_evicted : EvictionSet → Fingerprint → Bool
is_evicted evictions fp = contains evictions fp

pub pardon : EvictionSet → Fingerprint → EvictionSet × Bool
pardon evictions fp = (remove fp evictions, contains evictions fp)

pub register : EvictionSet → RelayState → Fingerprint → RelayState × Result RelayError (Unit {0})
unfolding is_evicted
register evictions s fp =
    if is_evicted evictions fp
    then (s, err (evicted fp))
    else (record s { online = insert fp s.online }, ok tt)

-- `tokens.retain(|_, v| v != fp)`
pub retain_tokens : Fingerprint → List (Bytes × Fingerprint) → List (Bytes × Fingerprint)
retain_tokens fp [] = []
retain_tokens fp ((token, owner) ∷ ts) =
    if bytes_eq.beq owner fp then retain_tokens fp ts else (token, owner) ∷ retain_tokens fp ts

abbrev pub is_end : Fingerprint → ForwardPair → Bool
is_end fp p = if bytes_eq.beq p.sender fp then true else bytes_eq.beq p.target fp

-- `forwarding.retain(|p| p.from != *fp && p.to != *fp)`
pub retain_pairs : Fingerprint → List ForwardPair → List ForwardPair
retain_pairs fp [] = []
retain_pairs fp (p ∷ ps) = if is_end fp p then retain_pairs fp ps else p ∷ retain_pairs fp ps

pub deregister : RelayState → Fingerprint → RelayState
unfolding retain_tokens retain_pairs
deregister s fp = record s {
  online = remove fp s.online;
  tokens = retain_tokens fp s.tokens;
  forwarding = retain_pairs fp s.forwarding;
}

pub is_online : RelayState → Fingerprint → Bool
is_online s fp = contains s.online fp

-- The token that the random bytes encode to is an argument.
pub issue_token : RelayState → Bytes → Fingerprint → RelayState
issue_token s token fp = record s { tokens = put token fp s.tokens }

pub resolve_token : RelayState → Bytes → Option Fingerprint
resolve_token s token = lookup token s.tokens

-- `remove` of a map.
abbrev pub remove_key {ℓ} : {V : Type ℓ} → Bytes → List (Bytes × V) → List (Bytes × V)
remove_key k [] = []
remove_key k ((j, v) ∷ m) = if bytes_eq.beq j k then remove_key k m else (j, v) ∷ remove_key k m

pub revoke_token : RelayState → Bytes → RelayState
revoke_token s token = record s { tokens = remove_key token s.tokens }

pub open_pair :
    EvictionSet → RelayState → Fingerprint → Fingerprint → RelayState × Result RelayError ℕ
unfolding is_evicted
open_pair evictions s sender target =
    if is_evicted evictions sender
    then (s, err (evicted sender))
    else if not (contains s.online sender)
    then (s, err (target_offline sender))
    else if not (contains s.online target)
    then (s, err (target_offline target))
    else if leb s.max_forwardings (length s.forwarding)
    then (s, err (at_capacity s.max_forwardings))
    else (
      record s {
        next_pair_id = u64 (s.next_pair_id + 1);
        forwarding =
            s.forwarding ++ record { id = s.next_pair_id; sender = sender; target = target } ∷ [];
      },
      ok s.next_pair_id,
    )

abbrev pub find_pair : ℕ → List ForwardPair → Option ForwardPair
find_pair id [] = none
find_pair id (p ∷ ps) = if p.id == id then some p else find_pair id ps

pub lookup_pair : RelayState → ℕ → Option ForwardPair
lookup_pair s id = find_pair id s.forwarding

-- The first pair with the id is taken out.
pub remove_pair : ℕ → List ForwardPair → List ForwardPair
remove_pair id [] = []
remove_pair id (p ∷ ps) = if p.id == id then ps else p ∷ remove_pair id ps

pub close_pair : RelayState → ℕ → RelayState × Option ForwardPair
unfolding remove_pair
close_pair s id = (record s { forwarding = remove_pair id s.forwarding }, find_pair id s.forwarding)

pub inbox_push :
    EvictionSet
    → RelayState
    → ℕ
    → Fingerprint
    → Fingerprint
    → Bytes
    → RelayState × Result RelayError ForwardOutcome
unfolding is_evicted enqueue
inbox_push evictions s now sender target frame =
    let inbox = inbox_or_default (lookup target s.inboxes) in
    let (inbox', fits) = enqueue s.max_inbox_messages s.max_inbox_bytes now frame inbox in
    if is_evicted evictions sender
    then (s, err (evicted sender))
    else if ltb s.max_frame_size (length frame)
    then (s, err (frame_too_large (length frame)))
    else if not (contains s.online target)
    then (s, ok target_is_offline)
    else (
      record s { inboxes = put target inbox' s.inboxes },
      if fits then ok buffered else err inbox_cap_exceeded,
    )

pub inbox_pull : RelayState → ℕ → Fingerprint → RelayState × List Bytes
unfolding live_bytes
inbox_pull s now fp = (
  record s { inboxes = remove_key fp s.inboxes },
  live_bytes now s.inbox_ttl (inbox_or_default (lookup fp s.inboxes)).frames,
)

abbrev keep_inbox : Fingerprint → Inbox → List (Fingerprint × Inbox) → List (Fingerprint × Inbox)
keep_inbox fp inbox rest = if length inbox.frames == 0 then rest else (fp, inbox) ∷ rest

pub purge_all : ℕ → ℕ → List (Fingerprint × Inbox) → List (Fingerprint × Inbox) × ℕ
unfolding purge
purge_all now ttl [] = ([], 0)
purge_all now ttl ((fp, inbox) ∷ m) =
    let (inbox', removed) = purge now ttl inbox.frames inbox.byte_count in
    let (rest, more) = purge_all now ttl m in (keep_inbox fp inbox' rest, removed + more)

pub cleanup_expired : RelayState → ℕ → RelayState × ℕ
unfolding purge_all
cleanup_expired s now =
    let (inboxes, removed) = purge_all now s.inbox_ttl s.inboxes in
    (record s { inboxes = inboxes }, removed)

pub inbox_stats : RelayState → Fingerprint → ℕ × ℕ
inbox_stats s fp =
    let inbox = inbox_or_default (lookup fp s.inboxes) in (length inbox.frames, inbox.byte_count)

pub advert_publish :
    RelayState → ℕ → Fingerprint → Advert → RelayState × Result RelayError (Unit {0})
advert_publish s now fp advert =
    if not (contains s.online fp)
    then (s, err (target_offline fp))
    else (record s { adverts = put fp (advert, now) s.adverts }, ok tt)

abbrev fetched : RelayState → ℕ → Fingerprint → Option (Advert × ℕ) → RelayState × Option Advert
fetched s now fp none = (s, none)
fetched s now fp (some (advert, published)) =
    if ltb (now - published) advert.ttl_secs
    then (s, some advert)
    else (record s { adverts = remove_key fp s.adverts }, none)

pub advert_fetch : RelayState → ℕ → Fingerprint → RelayState × Option Advert
advert_fetch s now fp = fetched s now fp (lookup fp s.adverts)
