-- ===== src/Attest/Cookie.antt =====
-- origin-attest/src/cookie.rs: the cookies that a responder asks for before it does any work. The
-- MAC and the random bytes come from origin-crypto-sdk: the MAC is a parameter, and the bytes that
-- `fill_random` gives, or its failure, are an argument. So are the clocks.
pub mod Window
mod Tests
use origin_tools.Base.{
  ℕ, zero, suc, ◌+◌, ◌-◌, ◌*◌, ◌/◌, ◌%◌, Bool, true, false, ◌||◌, Option, none, some, List, [], ◌∷◌,
  ◌++◌, ltb, leb, ◌==◌, if◌then◌else◌, take, drop, length, set, get_elem?, replicate, Result, ok,
  err,
}
use origin_tools.Base.Bytes.{Bytes, be64}
use origin_tools.Base.Eq.{bytes_eq}

-- Secrets are 32 bytes, instants and durations are in nanoseconds.
pub record CookieSecret : Type 0 where
  pub current : Bytes
  pub previous : Option Bytes
  pub last_rotation : ℕ
  pub rotation_interval : ℕ

-- "OS CSPRNG unavailable"
pub data RandomError : Type 0 where
  csprng_unavailable : RandomError

abbrev default_cookie_rotation_secs : ℕ
default_cookie_rotation_secs = 120

unfoldable pub new : Option Bytes → ℕ → Result RandomError CookieSecret
new none now = err csprng_unavailable
new (some bytes) now = ok record {
  current = bytes;
  previous = none;
  last_rotation = now;
  rotation_interval = default_cookie_rotation_secs * 1000000000;
}

abbrev byte_xor_bits : ℕ → ℕ → ℕ → ℕ
byte_xor_bits zero a b = 0
byte_xor_bits (suc n) a b = (a % 2 + b % 2) % 2 + 2 * byte_xor_bits n (a / 2) (b / 2)

abbrev byte_xor : ℕ → ℕ → ℕ
byte_xor a b = byte_xor_bits 8 a b

abbrev byte_at : Option ℕ → ℕ
byte_at none = 0
byte_at (some b) = b

-- `fallback[i % 32] ^= *b`, from index `i` on.
abbrev mix : ℕ → Bytes → Bytes → Bytes
mix i [] fallback = fallback
mix i (b ∷ bs) fallback =
    mix (i + 1) bs (set fallback (i % 32) (byte_xor (byte_at (get_elem? fallback (i % 32))) b))

abbrev pub mac_input : Bytes → ℕ → Bytes
mac_input source_ip now = source_ip ++ be64 now

module _ (hmac_sha3_256 : Bytes → Bytes → Option Bytes) where
  abbrev full_mac : Bytes → Bytes → Option Bytes → Bytes
  full_mac current input none = mix 0 current (mix 0 input (replicate 32 0))
  full_mac current input (some mac) = mac

  unfoldable pub generate_at : CookieSecret → Bytes → ℕ → Bytes
  generate_at s source_ip now =
      let input = mac_input source_ip now in
      take 16 (full_mac s.current input (hmac_sha3_256 s.current input))

  abbrev matches : Option Bytes → Bytes → Bool
  matches none cookie = false
  matches (some full) cookie = bytes_eq.beq (take 16 full) cookie

  abbrev matches_previous : Option Bytes → Bytes → ℕ → Bytes → Bool
  matches_previous none source_ip now cookie = false
  matches_previous (some prev_secret) source_ip now cookie =
      matches (hmac_sha3_256 prev_secret (mac_input source_ip now)) cookie

  unfoldable pub verify_at : CookieSecret → Bytes → Bytes → ℕ → Bool
  unfolding generate_at
  verify_at s source_ip cookie now =
      if bytes_eq.beq (generate_at s source_ip now) cookie
      then true
      else matches_previous s.previous source_ip now cookie

-- The secret has moved to `previous` before the random bytes are asked for.
unfoldable pub force_rotate :
    CookieSecret → Option Bytes → ℕ → CookieSecret × Result RandomError (Unit {0})
force_rotate s none now = (record s { previous = some s.current }, err csprng_unavailable)
force_rotate s (some new_secret) now =
    (record s { previous = some s.current; current = new_secret; last_rotation = now }, ok tt)

abbrev rotated :
    CookieSecret × Result RandomError (Unit {0}) → CookieSecret × Result RandomError Bool
rotated (s, ok u) = (s, ok true)
rotated (s, err e) = (s, err e)

unfoldable pub maybe_rotate :
    CookieSecret → Option Bytes → ℕ → CookieSecret × Result RandomError Bool
unfolding force_rotate
maybe_rotate s random now =
    if leb s.rotation_interval (now - s.last_rotation)
    then rotated (force_rotate s random now)
    else (s, ok false)

abbrev cookie_challenge_tag : ℕ
cookie_challenge_tag = 204

abbrev cookie_response_tag : ℕ
cookie_response_tag = 205

unfoldable pub encode_cookie_challenge : Bytes → Bytes
encode_cookie_challenge cookie = cookie_challenge_tag ∷ cookie

unfoldable pub encode_cookie_response : Bytes → Bytes
encode_cookie_response cookie = cookie_response_tag ∷ cookie

abbrev decode_tagged : Bytes → Option Bytes
decode_tagged [] = none
decode_tagged (tag ∷ rest) =
    if tag == cookie_challenge_tag || tag == cookie_response_tag then some (take 16 rest) else none

unfoldable pub decode_cookie_frame : Bytes → Option Bytes
decode_cookie_frame frame = if ltb (length frame) 17 then none else decode_tagged frame
