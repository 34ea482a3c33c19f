-- ===== src/Network/Tracker.antt =====
-- origin-network/src/replay.rs: the tracker that refuses replayed handshake frames.
pub mod Bounded
pub mod Window
pub mod File
mod Tests
use origin_tools.Base.{
  ℕ, zero, suc, ◌+◌, ◌-◌, ◌%◌, Bool, true, false, List, [], ◌∷◌, ◌++◌, ltb, ◌==◌, not,
  if◌then◌else◌, length, take, drop, Result, ok, err,
}
use origin_tools.Base.Bytes.{Bytes}
use origin_tools.Base.Eq.{bytes_eq}
use origin_tools.Base.Sets.{contains, insert, remove}

abbrev pub replay_nonce_len : ℕ
replay_nonce_len = 8

-- 2^20
abbrev pub replay_cap : ℕ
replay_cap = 1048576

pub record HandshakeReplayTracker : Type 0 where
  pub seen : List Bytes
  pub order : List Bytes  -- oldest first
  pub cap : ℕ

abbrev pub with_cap : ℕ → HandshakeReplayTracker
with_cap cap = record { seen = []; order = []; cap = cap }

abbrev pub new : HandshakeReplayTracker
new = with_cap replay_cap

-- The eviction loop on `order` and `seen`.
pub evict : ℕ → List Bytes → List Bytes → List Bytes × List Bytes
evict cap [] seen = ([], seen)
evict cap (old ∷ rest) seen =
    let next = evict cap rest (if contains rest old then seen else remove old seen) in
    if ltb cap (length (old ∷ rest)) then next else (old ∷ rest, seen)

pub track : HandshakeReplayTracker → Bytes → HandshakeReplayTracker
unfolding evict
track t nonce =
    let (order, seen) = evict t.cap (t.order ++ nonce ∷ []) (nonce ∷ t.seen) in
    record t { order = order; seen = seen }

-- `true`: the frame is fresh.
pub check_and_track : HandshakeReplayTracker → Bytes → HandshakeReplayTracker × Bool
unfolding track
check_and_track t frame =
    if ltb (length frame) replay_nonce_len
    then (t, true)
    else if contains t.seen (take replay_nonce_len frame)
    then (t, false)
    else (track t (take replay_nonce_len frame), true)

pub len : HandshakeReplayTracker → ℕ
len t = length t.seen

-- The file of `save` and `load`.
abbrev magic : Bytes
magic = b'O' ∷ b'N' ∷ b'R' ∷ b'P' ∷ []

abbrev format_version : ℕ
format_version = 1

abbrev concat : List Bytes → Bytes
concat [] = []
concat (x ∷ xs) = x ++ concat xs

-- The bytes that are handed to `atomic_write`.
pub save : HandshakeReplayTracker → Bytes
save t = magic ++ (format_version ∷ concat t.seen)

pub data LoadError : Type 0 where
  truncated bad_magic misaligned : LoadError
  unknown_version : ℕ → LoadError

-- `chunks_exact(8)` on a body, with as many rounds as the body has bytes at most.
chunks : ℕ → Bytes → List Bytes
chunks zero body = []
chunks (suc n) [] = []
chunks (suc n) (b ∷ bs) = take 8 (b ∷ bs) ∷ chunks n (drop 8 (b ∷ bs))

abbrev insert_all : List Bytes → List Bytes → List Bytes
insert_all [] seen = seen
insert_all (x ∷ xs) seen = insert_all xs (insert x seen)

load_body : Bytes → Result LoadError HandshakeReplayTracker
unfolding chunks
load_body body =
    if not (length body % 8 == 0)
    then err misaligned
    else let nonces = chunks (length body) body in
      ok (record { seen = insert_all nonces []; order = nonces; cap = replay_cap })

load_version : Bytes → Result LoadError HandshakeReplayTracker
unfolding load_body
load_version [] = err truncated
load_version (v ∷ body) = if v == format_version then load_body body else err (unknown_version v)

-- `load` on the bytes of a file that exists.
pub load : Bytes → Result LoadError HandshakeReplayTracker
unfolding load_version
load file =
    if ltb (length file) 5
    then err truncated
    else if bytes_eq.beq (take 4 file) magic
    then load_version (drop 4 file)
    else err bad_magic
