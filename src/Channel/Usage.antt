-- ===== src/Channel/Usage.antt =====
-- origin-channel/src/usage_limit.rs: the budget of messages and bytes of one ratchet epoch.
-- An addition of `u64` counters wraps, as in a release build.
pub mod Laws
mod Tests
use origin_tools.Base.{ℕ, ◌+◌, ◌-◌, Bool, ◌||◌, ltb, leb, if◌then◌else◌, Result, ok, err, u64}

pub record AeadLimits : Type 0 where
  pub max_messages : ℕ
  pub max_bytes : ℕ

-- 2^20 messages and 2^34 bytes.
abbrev pub default_limits : AeadLimits
default_limits = record { max_messages = 1048576; max_bytes = 17179869184 }

pub record DirectionUsage : Type 0 where
  pub messages : ℕ
  pub bytes : ℕ

abbrev pub fresh_usage : DirectionUsage
fresh_usage = record { messages = 0; bytes = 0 }

pub record AeadUsageTracker : Type 0 where
  pub limits : AeadLimits
  pub send : DirectionUsage
  pub recv : DirectionUsage

-- What `UsageLimitExceeded` says: which budget, the count so far and the limit.
pub data UsageError : Type 0 where
  message_limit : ℕ → ℕ → UsageError
  byte_limit : ℕ → ℕ → UsageError

unfoldable pub new : AeadLimits → AeadUsageTracker
new l = record { limits = l; send = fresh_usage; recv = fresh_usage }

pub check_and_record : DirectionUsage → AeadLimits → ℕ → Result UsageError DirectionUsage
check_and_record d l plaintext_len =
    let new_messages = u64 (d.messages + 1) in
    let new_bytes = u64 (d.bytes + plaintext_len) in
    if ltb l.max_messages new_messages
    then err (message_limit d.messages l.max_messages)
    else if ltb l.max_bytes new_bytes
    then err (byte_limit d.bytes l.max_bytes)
    else ok (record { messages = new_messages; bytes = new_bytes })

abbrev put_send :
    AeadUsageTracker → Result UsageError DirectionUsage → Result UsageError AeadUsageTracker
put_send t (ok d) = ok (record t { send = d })
put_send t (err e) = err e

abbrev put_recv :
    AeadUsageTracker → Result UsageError DirectionUsage → Result UsageError AeadUsageTracker
put_recv t (ok d) = ok (record t { recv = d })
put_recv t (err e) = err e

-- On an error the tracker is unchanged: the caller keeps the old one.
unfoldable pub check_send : AeadUsageTracker → ℕ → Result UsageError AeadUsageTracker
unfolding check_and_record
check_send t plaintext_len = put_send t (check_and_record t.send t.limits plaintext_len)

-- `saturating_sub(16)`: the AEAD tag is not plaintext.
unfoldable pub check_recv : AeadUsageTracker → ℕ → Result UsageError AeadUsageTracker
unfolding check_and_record
check_recv t ciphertext_len = put_recv t (check_and_record t.recv t.limits (ciphertext_len - 16))

pub direction_exhausted : AeadLimits → DirectionUsage → Bool
direction_exhausted l d = leb l.max_messages d.messages || leb l.max_bytes d.bytes

pub send_exhausted : AeadUsageTracker → Bool
unfolding direction_exhausted
send_exhausted t = direction_exhausted t.limits t.send

pub recv_exhausted : AeadUsageTracker → Bool
unfolding direction_exhausted
recv_exhausted t = direction_exhausted t.limits t.recv

pub needs_rotation : AeadUsageTracker → Bool
unfolding direction_exhausted
needs_rotation t = direction_exhausted t.limits t.send || direction_exhausted t.limits t.recv

unfoldable pub reset : AeadUsageTracker → AeadUsageTracker
reset t = record t { send = fresh_usage; recv = fresh_usage }
