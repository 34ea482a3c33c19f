-- ===== src/Network/Address.antt =====
-- origin-network/src/address.rs: addresses, printed and parsed. Texts are code points; a fingerprint is
-- its bytes. The crate hex is a parameter.
pub mod Reread
mod Tests
use origin_tools.Base.{
  ℕ, Bool, true, false, not, Option, none, some, List, [], ◌∷◌, ◌++◌, ◌==◌, if◌then◌else◌, length,
  Result, ok, err, ◌>>=◌, ◌>>◌, fail_if, u64_mod,
}
use origin_tools.Base.Bytes.{Bytes}
use origin_tools.Base.Decimal.{Text, codes, from_text, to_text, split}

pub record OriginAddress : Type 0 where
  pub identity : Bytes
  pub device : Option ℕ  -- u32
  pub service : Option ℕ  -- ServicePort, u32
  pub session : Option ℕ  -- u64

-- What `NetworkError::Address` says.
pub data AddressError : Type 0 where
  missing_scheme empty_body bad_hex : AddressError
  bad_length : ℕ → AddressError
  bad_device bad_service bad_session too_many : Text → AddressError

-- `hex::encode` and `hex::decode`
pub record Hex : Type 0 where
  pub encode : Bytes → Text
  pub decode : Text → Option Bytes

abbrev pub u32_mod : ℕ
u32_mod = 4294967296

abbrev pub new : Bytes → OriginAddress
new identity = record { identity = identity; device = none; service = none; session = none }

abbrev or_error : AddressError → Option ℕ → Result AddressError ℕ
or_error why none = err why
or_error why (some n) = ok n

-- The first of device, service and session that is missing takes the part.
pub add_part : OriginAddress → Text → Result AddressError OriginAddress
add_part addr part = fill addr.device addr.service addr.session
  where
    fill : Option ℕ → Option ℕ → Option ℕ → Result AddressError OriginAddress
    fill none p s = or_error (bad_device part) (from_text u32_mod part) >>= λ n.
        ok (record addr { device = some n })
    fill (some d) none s = or_error (bad_service part) (from_text u32_mod part) >>= λ n.
        ok (record addr { service = some n })
    fill (some d) (some p) none = or_error (bad_session part) (from_text u64_mod part) >>= λ n.
        ok (record addr { session = some n })
    fill (some d) (some p) (some s) = err (too_many part)

abbrev pub add_parts : OriginAddress → List Text → Result AddressError OriginAddress
add_parts addr [] = ok addr
add_parts addr (part ∷ parts) = add_part addr part >>= λ next. add_parts next parts

abbrev check_length : Option Bytes → Result AddressError Bytes
check_length none = err bad_hex
check_length (some bytes) = if length bytes == 32 then ok bytes else err (bad_length (length bytes))

-- `Fingerprint::from_hex`
abbrev pub from_hex : Hex → Text → Result AddressError Bytes
from_hex h s = check_length (h.decode s)

abbrev pub parse_parts : Hex → List Text → Result AddressError OriginAddress
parse_parts h [] = err empty_body
parse_parts h (first ∷ parts) = from_hex h first >>= λ identity. add_parts (new identity) parts

abbrev pub parse_body : Hex → Option Text → Result AddressError OriginAddress
parse_body h none = err missing_scheme
parse_body h (some []) = err empty_body
parse_body h (some (c ∷ cs)) = parse_parts h (split 47 (c ∷ cs))

-- `strip_prefix`
abbrev pub strip_prefix : Text → Text → Option Text
strip_prefix [] s = some s
strip_prefix (p ∷ ps) [] = none
strip_prefix (p ∷ ps) (c ∷ cs) = if p == c then strip_prefix ps cs else none

pub parse : Hex → Text → Result AddressError OriginAddress
parse h s = parse_body h (strip_prefix (codes "origin:") s)

-- What is written after the identity: a slash and the number, if there is one, before the rest.
abbrev pub suffix : Option ℕ → Text → Text
suffix none rest = rest
suffix (some n) rest = 47 ∷ (to_text n ++ rest)

-- `fmt`
pub fmt : Hex → OriginAddress → Text
fmt h a =
    codes "origin:"
    ++ (h.encode a.identity ++ suffix a.device (suffix a.service (suffix a.session [])))
