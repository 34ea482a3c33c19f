-- ===== src/Channel/Usage/Tests.antt =====
-- Runs of the usage tracker.
use origin_tools.Base.{◌≡◌, refl, true, false, List, [], ◌∷◌, ok, is_err}
use origin_tools.Channel.Usage.{
  AeadLimits, AeadUsageTracker, check_send, check_recv, recv_exhausted, needs_rotation,
}
use origin_tools.Channel.Usage.Laws.{Call, sending, receiving, rekey}

abbrev tight : AeadLimits
tight = record { max_messages = 2; max_bytes = 10 }

abbrev calls : List Call
calls = sending 4 ∷ receiving 20 ∷ sending 6 ∷ sending 1 ∷ receiving 40 ∷ rekey ∷ sending 3 ∷ []

abbrev half_used : AeadUsageTracker
half_used = record {
  limits = tight;
  send = record { messages = 1; bytes = 10 };
  recv = record { messages = 0; bytes = 0 };
}

-- An exhausted byte budget still lets an empty message through.
empty_message_passes : is_err (check_send half_used 0) ≡ false
unfolding check_send
empty_message_passes = refl

-- A ciphertext shorter than its tag counts as no byte.
short_ciphertext :
    check_recv half_used 9 ≡ ok (record half_used { recv = record { messages = 1; bytes = 0 } })
unfolding check_recv
short_ciphertext = refl

rotation_flags : needs_rotation half_used ≡ true × recv_exhausted half_used ≡ false
unfolding needs_rotation recv_exhausted
rotation_flags = (refl, refl)
