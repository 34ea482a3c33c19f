-- ===== src/Network/Address/Tests.antt =====
-- Runs of the addresses.
use origin_tools.Base.{
  ◌+◌, ◌-◌, ◌≡◌, ◌≢◌, refl, ap, ap₂, true, some, [], ◌∷◌, arith, length, ok, err,
}
use origin_tools.Base.Bytes.{Bytes}
use origin_tools.Base.Decimal.{Text, codes}
use origin_tools.Network.Address.{OriginAddress, Hex, new, parse, fmt, missing_scheme, empty_body}
use origin_tools.Network.Address.Reread.{IsHex, unsplit, pack, parse-fmt}

-- A toy encoding: the bytes as they are, moved past the slash.
abbrev shift : Bytes → Text
shift [] = []
shift (b ∷ bs) = (b + 48) ∷ shift bs

abbrev unshift : Text → Bytes
unshift [] = []
unshift (c ∷ cs) = (c - 48) ∷ unshift cs

abbrev toy : Hex
toy = record { encode = shift; decode = λ s. some (unshift s) }

unshift-shift : (b : Bytes) → unshift (shift b) ≡ b
unshift-shift [] = refl
unshift-shift (c ∷ cs) = ap₂ ◌∷◌ (omega arith) (unshift-shift cs)

unsplit-shift : (b : Bytes) → unsplit (shift b) ≡ true
unsplit-shift [] = refl
unsplit-shift (c ∷ cs) = ground (arith, unsplit-shift cs)

shift-visible : (b : Bytes) → length b ≡ 32 → shift b ≢ []
shift-visible [] len = λ e. absurd (omega arith)
shift-visible (c ∷ cs) len = λ e. cc

toy-IsHex : IsHex toy
toy-IsHex = record {
  decodes = λ b. ap some (unshift-shift b);
  no_slash = unsplit-shift;
  visible = shift-visible;
}

abbrev zeros : Bytes → Bytes
zeros bs = 0 ∷ 0 ∷ 0 ∷ 0 ∷ 0 ∷ 0 ∷ 0 ∷ 0 ∷ bs

abbrev identity : Bytes
identity = zeros (zeros (zeros (zeros [])))

abbrev no_device : OriginAddress
no_device = record (new identity) { service = some 256 }

parse-fmt_example : parse toy (fmt toy no_device) ≡ ok (pack no_device)
parse-fmt_example =
    parse-fmt toy no_device toy-IsHex
      (record { width = refl; device = tt; service = omega arith; session = tt })

-- The service has become a device.
service_as_device : pack no_device ≡ record (new identity) { device = some 256 }
service_as_device = refl

no_scheme : parse toy (codes "tcp:abc") ≡ err missing_scheme
unfolding parse
no_scheme = refl

no_body : parse toy (codes "origin:") ≡ err empty_body
unfolding parse
no_body = refl
