-- ===== src/Attest/Cookie/Tests.antt =====
-- Runs of the cookie check, with a MAC small enough to compute.
use origin_tools.Base.{◌⊎◌, arith, ◌≡◌, refl, false, Option, none, some, [], ◌∷◌, ◌++◌, replicate}
use origin_tools.Base.Bytes.{Bytes, be64}
use origin_tools.Attest.Cookie.{CookieSecret, generate_at, verify_at}
use origin_tools.Attest.Cookie.Window.{Collision, verify_at_later}

-- The input, then the key.
abbrev toy_mac : Bytes → Bytes → Option Bytes
toy_mac key input = some (input ++ key)

-- The key, then the input: the first 16 bytes are those of the key.
abbrev key_first : Bytes → Bytes → Option Bytes
key_first key input = some (key ++ input)

abbrev secret : CookieSecret
secret = record {
  current = replicate 32 1;
  previous = none;
  last_rotation = 0;
  rotation_interval = 120000000000;
}

abbrev ip : Bytes
ip = 49 ∷ 46 ∷ 49 ∷ []

-- One second later the same cookie is refused.
next_second_refused :
    verify_at toy_mac secret ip (generate_at toy_mac secret ip 1700000000) 1700000001 ≡ false
unfolding verify_at generate_at
next_second_refused = refl

verify_at_later_example :
    Collision key_first secret.current secret.current (ip ++ be64 5) (ip ++ be64 6)
    ⊎ ((old : Bytes) × (secret.previous ≡ some old)
        × Collision key_first secret.current old (ip ++ be64 5) (ip ++ be64 6))
unfolding verify_at generate_at
verify_at_later_example =
    verify_at_later key_first secret ip 5 6 (λ key input. (key ++ input, refl)) (omega arith)
      (omega arith) (omega arith) refl
