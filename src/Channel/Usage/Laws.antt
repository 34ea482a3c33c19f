-- ===== src/Channel/Usage/Laws.antt =====
-- The budgets of an epoch of usage_limit.rs hold over every sequence of calls.
use origin_tools.Base.{
  ℕ, ◌+◌, ◌≤◌, ◌<◌, ◌≡◌, ◌⊎◌, true, List, [], ◌∷◌, arith, Result, ok, err, is_err, u64_mod,
}
use origin_tools.Channel.Usage.{
  AeadLimits, AeadUsageTracker, UsageError, new, check_send, check_recv, send_exhausted, reset,
  message_limit, byte_limit,
}

-- Both directions are within the limits of the epoch.
pub record IsWithin (t : AeadUsageTracker) : Type 0 where
  pub send_messages : t.send.messages ≤ t.limits.max_messages
  pub send_bytes : t.send.bytes ≤ t.limits.max_bytes
  pub recv_messages : t.recv.messages ≤ t.limits.max_messages
  pub recv_bytes : t.recv.bytes ≤ t.limits.max_bytes

-- The calls that a session makes.
pub data Call : Type 0 where
  sending receiving : ℕ → Call
  rekey : Call

-- A caller that is refused goes on with the tracker that it had.
abbrev keep : AeadUsageTracker → Result UsageError AeadUsageTracker → AeadUsageTracker
keep t (ok t') = t'
keep t (err e) = t

pub call : AeadUsageTracker → Call → AeadUsageTracker
unfolding check_send check_recv reset
call t (sending n) = keep t (check_send t n)
call t (receiving n) = keep t (check_recv t n)
call t rekey = reset t

pub run_calls : AeadUsageTracker → List Call → AeadUsageTracker
run_calls t [] = t
run_calls t (c ∷ cs) = run_calls (call t c) cs

call-IsWithin : (t : AeadUsageTracker) (c : Call) → IsWithin t → IsWithin (call t c)
unfolding call
call-IsWithin t (sending n) h = ground arith
call-IsWithin t (receiving n) h = ground arith
call-IsWithin t rekey h = ground arith

run_calls-IsWithin_from :
    (t : AeadUsageTracker) (cs : List Call) → IsWithin t → IsWithin (run_calls t cs)
unfolding run_calls
run_calls-IsWithin_from t [] h = h
run_calls-IsWithin_from t (c ∷ cs) h = run_calls-IsWithin_from (call t c) cs (call-IsWithin t c h)

-- From a new tracker, no sequence of sends, receives and resets takes the messages or the bytes
-- of either direction over the limits.
pub run_calls-IsWithin : (l : AeadLimits) (cs : List Call) → IsWithin (run_calls (new l) cs)
unfolding new
run_calls-IsWithin l cs = run_calls-IsWithin_from (new l) cs (omega arith)

-- While the counters do not overflow, a send is recorded exactly when both budgets allow it: the
-- counters of the send direction grow by one message and its length, and the limits and the
-- receive direction stay. Otherwise the error names the budget that is used up, the messages
-- first.
pub check_send_lem :
    (t : AeadUsageTracker) (n : ℕ)
    → t.send.messages + 1 < u64_mod
    → t.send.bytes + n < u64_mod
    → (t.send.messages + 1 ≤ t.limits.max_messages
        × t.send.bytes + n ≤ t.limits.max_bytes
        × check_send t n
          ≡ ok (record t {
            send = record { messages = t.send.messages + 1; bytes = t.send.bytes + n };
          }))
      ⊎ (t.limits.max_messages ≤ t.send.messages
          × check_send t n ≡ err (message_limit t.send.messages t.limits.max_messages))
      ⊎ (t.limits.max_bytes < t.send.bytes + n
          × check_send t n ≡ err (byte_limit t.send.bytes t.limits.max_bytes))
unfolding check_send
check_send_lem t n hm hb = ground arith

-- While the counters do not overflow, the send direction is reported as exhausted exactly when a
-- message of one byte is refused, and then every message that is not empty is refused.
pub send_exhausted-check_send :
    (t : AeadUsageTracker) (n : ℕ)
    → t.send.messages + 1 < u64_mod
    → t.send.bytes + n < u64_mod
    → 0 < n
    → (send_exhausted t ≡ is_err (check_send t 1))
      × (send_exhausted t ≡ true → is_err (check_send t n) ≡ true)
unfolding check_send send_exhausted
send_exhausted-check_send t n hm hb pos = (ground arith, λ ex. ground arith)

-- Where the sender's and the receiver's budgets stand alike, the receiver can count each message
-- that the sender could count, and they stand alike afterwards.
pub check_recv-check_send :
    (t r u : AeadUsageTracker) (n m : ℕ)
    → t.limits ≡ r.limits
    → t.send ≡ r.recv
    → m ≡ n + 16
    → check_send t n ≡ ok u
    → (v : AeadUsageTracker) × (check_recv r m ≡ ok v) × (u.limits ≡ v.limits) × (u.send ≡ v.recv)
unfolding check_send check_recv
check_recv-check_send t r u n m lim same len e =
    (record r { recv = u.send }, ground arith, ground arith, ground arith)
