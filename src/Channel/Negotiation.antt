-- ===== src/Channel/Negotiation.antt =====
-- origin-channel/src/negotiation.rs, with the suites of types.rs: the offer of cipher suites.
pub mod Laws
mod Tests
use origin_tools.Base.{
  ℕ, zero, suc, ◌+◌, ◌%◌, Bool, true, false, Option, none, some, List, [], ◌∷◌, map, ltb, ◌==◌, not,
  if◌then◌else◌, length, take, drop, Result, ok, err, ◌>>=◌,
}
use origin_tools.Base.Bytes.{Bytes}

-- `CipherSuite`
pub data CipherSuite : Type 0 where
  x_cha_cha20_poly1305 : CipherSuite

pub as_u8 : CipherSuite → ℕ
as_u8 x_cha_cha20_poly1305 = 0x01

pub from_u8 : ℕ → Option CipherSuite
from_u8 v = if v == 0x01 then some x_cha_cha20_poly1305 else none

abbrev pub negotiation_version : ℕ
negotiation_version = 1

pub record Negotiation : Type 0 where
  pub version : ℕ  -- u8
  pub suites : List CipherSuite

-- `ChannelError::Negotiation`, by the check that raises it.
pub data NegotiationError : Type 0 where
  too_short truncated_list empty_list no_common_suite : NegotiationError
  unsupported_version unknown_suite : ℕ → NegotiationError

pub offer : Negotiation
offer = record { version = negotiation_version; suites = x_cha_cha20_poly1305 ∷ [] }

-- The count is `suites.len() as u8`, which wraps.
pub to_bytes : Negotiation → Bytes
unfolding as_u8
to_bytes n = n.version ∷ length n.suites % 256 ∷ map as_u8 n.suites

abbrev suite_of : Option CipherSuite → ℕ → Result NegotiationError CipherSuite
suite_of none b = err (unknown_suite b)
suite_of (some s) b = ok s

-- The loop over `data[2..2 + count]`.
parse_suites : Bytes → Result NegotiationError (List CipherSuite)
unfolding from_u8
parse_suites [] = ok []
parse_suites (b ∷ bs) = suite_of (from_u8 b) b >>= λ s. parse_suites bs >>= λ rest. ok (s ∷ rest)

abbrev non_empty : ℕ → List CipherSuite → Result NegotiationError Negotiation
non_empty version [] = err empty_list
non_empty version (s ∷ rest) = ok (record { version = version; suites = s ∷ rest })

pub from_bytes : Bytes → Result NegotiationError Negotiation
unfolding parse_suites
from_bytes [] = err too_short
from_bytes (version ∷ []) = err too_short
from_bytes (version ∷ count ∷ rest) =
    if not (version == negotiation_version)
    then err (unsupported_version version)
    else if ltb (length rest) count
    then err truncated_list
    else parse_suites (take count rest) >>= non_empty version

-- `supported.contains(&offered)`: the derived equality of the suites.
abbrev same_suite : CipherSuite → CipherSuite → Bool
same_suite x_cha_cha20_poly1305 x_cha_cha20_poly1305 = true

abbrev pub contains : List CipherSuite → CipherSuite → Bool
contains [] s = false
contains (t ∷ ts) s = if same_suite t s then true else contains ts s

abbrev select_from : List CipherSuite → List CipherSuite → Result NegotiationError CipherSuite
select_from [] supported = err no_common_suite
select_from (s ∷ rest) supported = if contains supported s then ok s else select_from rest supported

pub select : Negotiation → List CipherSuite → Result NegotiationError CipherSuite
select n supported = select_from n.suites supported
