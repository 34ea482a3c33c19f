-- ===== src/Attest/Cookie/Window.antt =====
-- How long a cookie of cookie.rs is accepted.
use origin_tools.Base.{
  ℕ, ap, ◌+◌, ◌*◌, ◌/◌, ◌%◌, ◌-◌, ◌≤◌, ◌<◌, ◌≡◌, ◌≢◌, ◌⊎◌, ◌∙◌, [], ◌∷◌, u64_mod, refl, Bool, true,
  false, Option, none, some, arith, leb, if◌then◌else◌, take, take_append_of_length, length-append,
  length, ◌++◌, subst, sym, Result, ok, err, Bool-cases, inl, inr,
}
use origin_tools.Base.Bytes.{Bytes, be64, from_be32-be32}
use origin_tools.Base.Eq.{bytes_eq}
use origin_tools.Attest.Cookie.{
  CookieSecret, mac_input, generate_at, verify_at, matches_previous, force_rotate, maybe_rotate,
  rotated, RandomError, encode_cookie_challenge, encode_cookie_response, decode_cookie_frame,
}

abbrev read_from : ℕ → Bytes → ℕ
read_from acc [] = acc
read_from acc (b ∷ bs) = read_from (acc * 256 + b) bs

read_from-be64 : (n : ℕ) → n < u64_mod → read_from 0 (be64 n) ≡ n
read_from-be64 n h = omega (
  arith,
  from_be32-be32 (n / 4294967296) (omega arith),
  from_be32-be32 (n % 4294967296) (omega arith),
)

be64_injective : (m n : ℕ) → m < u64_mod → n < u64_mod → be64 m ≡ be64 n → m ≡ n
be64_injective m n h k e = sym (read_from-be64 m h) ∙ ap (read_from 0) e ∙ read_from-be64 n k

beq_refl : (b : Bytes) → bytes_eq.beq b b ≡ true
beq_refl b = (bytes_eq.beq_iff b b).1 refl

rotated-state : (r : CookieSecret × Result RandomError (Unit {0})) → (rotated r).0 ≡ r.0
rotated-state (s, ok u) = refl
rotated-state (s, err e) = refl

else_true : (b : Bool) {c : Bool} → c ≡ true → (if b then true else c) ≡ true
else_true true e = refl
else_true false e = e

append_cancel : (xs ys zs : Bytes) → xs ++ ys ≡ xs ++ zs → ys ≡ zs
append_cancel [] ys zs e = e
append_cancel (x ∷ xs) ys zs e = append_cancel xs ys zs (cc e)

inputs_differ :
    (ip : Bytes) (issued now : ℕ)
    → issued < u64_mod
    → now < u64_mod
    → issued ≢ now
    → ip ++ be64 issued ≢ ip ++ be64 now
inputs_differ ip issued now small small' later e =
    later (be64_injective issued now small small' (append_cancel ip (be64 issued) (be64 now) e))

module _ (hmac : Bytes → Bytes → Option Bytes) where
  verify_at-generate_at :
      (s : CookieSecret) (ip : Bytes) (now : ℕ)
      → verify_at hmac s ip (generate_at hmac s ip now) now ≡ true
  unfolding verify_at
  verify_at-generate_at s ip now = rw (beq_refl (generate_at hmac s ip now)) refl

  previous_matches :
      (s : CookieSecret) (ip : Bytes) (now : ℕ) (mac : Bytes)
      → hmac s.current (mac_input ip now) ≡ some mac
      → matches_previous hmac (some s.current) ip now (generate_at hmac s ip now) ≡ true
  unfolding generate_at
  previous_matches s ip now mac e = rw e (beq_refl (take 16 mac))

  verify_at-force_rotate :
      (s : CookieSecret) (random : Option Bytes) (clock : ℕ) (ip : Bytes) (now : ℕ) (mac : Bytes)
      → hmac s.current (mac_input ip now) ≡ some mac
      → verify_at hmac (force_rotate s random clock).0 ip (generate_at hmac s ip now) now ≡ true
  unfolding verify_at force_rotate
  verify_at-force_rotate s none clock ip now mac e = else_true _ (previous_matches s ip now mac e)
  verify_at-force_rotate s (some r) clock ip now mac e =
      else_true _ (previous_matches s ip now mac e)

  -- A cookie is accepted for the same source within the second it was issued in, also when the
  -- secret may have been rotated in between, whether or not the random bytes were to be had, if
  -- the MAC of its input did not fail.
  pub verify_at-maybe_rotate :
      (s : CookieSecret) (random : Option Bytes) (clock : ℕ) (ip : Bytes) (now : ℕ) (mac : Bytes)
      → hmac s.current (mac_input ip now) ≡ some mac
      → verify_at hmac (maybe_rotate s random clock).0 ip (generate_at hmac s ip now) now ≡ true
  unfolding maybe_rotate
  verify_at-maybe_rotate s random clock ip now mac e =
      elim (Bool-cases (leb s.rotation_interval (clock - s.last_rotation))) [
        | inl due ↦ rw due (
            subst (λ t. verify_at hmac t ip (generate_at hmac s ip now) now ≡ true)
              (sym (rotated-state (force_rotate s random clock)))
              (verify_at-force_rotate s random clock ip now mac e))
        | inr early ↦ rw early (verify_at-generate_at s ip now)
      ]

  -- Two different inputs, each with the current secret or an older one, with one truncated MAC.
  pub record Collision (key key' x y : Bytes) : Type 0 where
    pub mac : Bytes
    pub mac' : Bytes
    pub of_x : hmac key x ≡ some mac
    pub of_y : hmac key' y ≡ some mac'
    pub apart : x ≢ y
    pub same : take 16 mac ≡ take 16 mac'

  current_mac :
      (s : CookieSecret) (ip : Bytes) (now : ℕ) (mac : Bytes)
      → hmac s.current (ip ++ be64 now) ≡ some mac
      → generate_at hmac s ip now ≡ take 16 mac
  unfolding generate_at
  current_mac s ip now mac e = rw e refl

  -- Where the MAC does not fail, a cookie that is accepted for its source in another second than that
  -- of its issue, both times of 64 bits, is a collision: the issuing secret's MAC of the source with
  -- the one second and the MAC of the source with the other, of that secret or of the previous one,
  -- agree in their first 16 bytes, though the two inputs differ.
  pub verify_at_later :
      (s : CookieSecret) (ip : Bytes) (issued now : ℕ)
      → ((key input : Bytes) → (mac : Bytes) × (hmac key input ≡ some mac))
      → issued < u64_mod
      → now < u64_mod
      → issued ≢ now
      → verify_at hmac s ip (generate_at hmac s ip issued) now ≡ true
      → Collision s.current s.current (ip ++ be64 issued) (ip ++ be64 now)
        ⊎ ((old : Bytes) × (s.previous ≡ some old)
            × Collision s.current old (ip ++ be64 issued) (ip ++ be64 now))
  unfolding verify_at
  verify_at_later s ip issued now total small small' later v =
      let (m, e) = total s.current (ip ++ be64 issued) in
      let (m', e') = total s.current (ip ++ be64 now) in
      let apart = inputs_differ ip issued now small small' later in
      elim (Bool-cases (bytes_eq.beq (generate_at hmac s ip now) (generate_at hmac s ip issued))) [
        | inl same ↦ inl (record {
          mac = m;
          mac' = m';
          of_x = e;
          of_y = e';
          apart = apart;
          same = sym (
              sym (current_mac s ip now m' e')
              ∙ (bytes_eq.beq_iff _ _).0 same
              ∙ current_mac s ip issued m e);
        })
        | inr other ↦ inr (older s.previous refl (rw other at v))
      ]
    where
      older :
          (o : Option Bytes)
          → s.previous ≡ o
          → matches_previous hmac o ip now (generate_at hmac s ip issued) ≡ true
          → (old : Bytes) × (s.previous ≡ some old)
            × Collision s.current old (ip ++ be64 issued) (ip ++ be64 now)
      older none p w = cc
      older (some old) p w =
          let (m, e) = total s.current (ip ++ be64 issued) in
          let (m', e') = total old (ip ++ be64 now) in
          (
            old,
            p,
            record {
              mac = m;
              mac' = m';
              of_x = e;
              of_y = e';
              apart = inputs_differ ip issued now small small' later;
              same = sym ((bytes_eq.beq_iff _ _).0 (rw e' at w) ∙ current_mac s ip issued m e);
            },
          )

-- A frame built from a cookie of 16 bytes, challenge or response, is decoded to that cookie, also
-- with further bytes behind it; a frame of fewer than 17 bytes is refused.
pub decode_cookie_frame_lem :
    (cookie rest frame : Bytes)
    → length cookie ≡ 16
    → (decode_cookie_frame (encode_cookie_challenge cookie ++ rest) ≡ some cookie)
      × (decode_cookie_frame (encode_cookie_response cookie ++ rest) ≡ some cookie)
      × (length frame ≤ 16 → decode_cookie_frame frame ≡ none)
unfolding decode_cookie_frame encode_cookie_challenge encode_cookie_response
decode_cookie_frame_lem cookie rest frame h =
    ground (arith, take_append_of_length 16 cookie rest h, length-append cookie rest)
