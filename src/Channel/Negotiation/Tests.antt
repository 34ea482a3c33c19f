-- ===== src/Channel/Negotiation/Tests.antt =====
-- Runs of the negotiation.
use origin_tools.Base.{◌≡◌, refl, [], ◌∷◌, ◌++◌, arith, ok, err}
use origin_tools.Channel.Negotiation.{offer, to_bytes, from_bytes, unknown_suite}
use origin_tools.Channel.Negotiation.Laws.{from_bytes-to_bytes}

from_bytes-to_bytes-offer : from_bytes (to_bytes offer ++ 7 ∷ []) ≡ ok offer
unfolding offer
from_bytes-to_bytes-offer = from_bytes-to_bytes offer (7 ∷ []) refl (omega arith) (omega arith)

unknown_suite_refused : from_bytes (1 ∷ 1 ∷ 9 ∷ []) ≡ err (unknown_suite 9)
unfolding from_bytes
unknown_suite_refused = refl
