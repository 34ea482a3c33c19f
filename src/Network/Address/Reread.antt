-- ===== src/Network/Address/Reread.antt =====
-- An address of address.rs that is printed and parsed again.
use mathlib.Core.List.{append-nil}
use origin_tools.Base.{
  ℕ, ◌<◌, ◌≡◌, ◌≢◌, refl, ap, ◌∙◌, Bool, true, ◌&&◌, not, Option, none, some, List, [], ◌∷◌, ◌++◌,
  arith, ◌==◌, length, ok, u64_mod,
}
use origin_tools.Base.Bytes.{Bytes}
use origin_tools.Base.Decimal.{
  Text, codes, all_digits, to_text, split, from_text-to_text, to_text-digits,
}
use origin_tools.Network.Address.{
  OriginAddress, Hex, new, add_part, add_parts, parse_parts, parse_body, parse, fmt, u32_mod,
}

-- No slash in the text.
abbrev pub unsplit : Text → Bool
unsplit [] = true
unsplit (c ∷ cs) = not (c == 47) && unsplit cs

unsplit-digits : (xs : Text) → all_digits xs ≡ true → unsplit xs ≡ true
unsplit-digits [] h = refl
unsplit-digits (x ∷ xs) h = ground (arith, unsplit-digits xs)

split_whole : (t : Text) → unsplit t ≡ true → split 47 t ≡ t ∷ []
unfolding split
split_whole [] h = refl
split_whole (c ∷ cs) h = ground (arith, split_whole cs)

split_first : (t ys : Text) → unsplit t ≡ true → split 47 (t ++ 47 ∷ ys) ≡ t ∷ split 47 ys
unfolding split
split_first [] ys h = refl
split_first (c ∷ cs) ys h = ground (arith, split_first cs ys)

abbrev tail : List ℕ → Text
tail [] = []
tail (n ∷ ns) = 47 ∷ (to_text n ++ tail ns)

abbrev texts : List ℕ → List Text
texts [] = []
texts (n ∷ ns) = to_text n ∷ texts ns

split-tail : (t : Text) (ns : List ℕ) → unsplit t ≡ true → split 47 (t ++ tail ns) ≡ t ∷ texts ns
split-tail t [] h = ap (split 47) (append-nil t) ∙ split_whole t h
split-tail t (n ∷ ns) h =
    split_first t (to_text n ++ tail ns) h
    ∙ ap (λ ps. t ∷ ps) (split-tail (to_text n) ns (unsplit-digits (to_text n) (to_text-digits n)))

-- What is required of the hex encoding: it can be decoded, and has neither a slash nor, for bytes
-- that are there, an empty text.
pub record IsHex (h : Hex) : Type 0 where
  pub decodes : (b : Bytes) → h.decode (h.encode b) ≡ some b
  pub no_slash : (b : Bytes) → unsplit (h.encode b) ≡ true
  pub visible : (b : Bytes) → length b ≡ 32 → h.encode b ≢ []

parse_visible :
    (h : Hex) (t rest : Text)
    → t ≢ []
    → parse_body h (some (t ++ rest)) ≡ parse_parts h (split 47 (t ++ rest))
parse_visible h [] rest ne = absurd (ne refl)
parse_visible h (c ∷ cs) rest ne = refl

parse-tail :
    (h : Hex) (identity : Bytes) (ns : List ℕ)
    → IsHex h
    → length identity ≡ 32
    → parse h (codes "origin:" ++ (h.encode identity ++ tail ns))
      ≡ add_parts (new identity) (texts ns)
unfolding parse
parse-tail h identity ns v len =
    parse_visible h (h.encode identity) (tail ns) (v.visible identity len)
    ∙ rw (split-tail (h.encode identity) ns (v.no_slash identity), v.decodes identity, len) refl

-- The components moved to the front, past the ones that are missing.
abbrev packed : Bytes → Option ℕ → Option ℕ → Option ℕ → OriginAddress
packed identity none none none = new identity
packed identity none none (some s) = record (new identity) { device = some s }
packed identity none (some p) none = record (new identity) { device = some p }
packed identity none (some p) (some s) = record (new identity) { device = some p; service = some s }
packed identity (some d) none none = record (new identity) { device = some d }
packed identity (some d) none (some s) = record (new identity) { device = some d; service = some s }
packed identity (some d) (some p) s = record {
  identity = identity;
  device = some d;
  service = some p;
  session = s;
}

abbrev pub pack : OriginAddress → OriginAddress
pack a = packed a.identity a.device a.service a.session

abbrev pub Below : ℕ → Option ℕ → Type 0
Below bound none = Unit
Below bound (some n) = n < bound

-- A session number of 64 bits fits only behind a device and a service.
abbrev session_bound : Option ℕ → Option ℕ → ℕ
session_bound none p = u32_mod
session_bound (some d) none = u32_mod
session_bound (some d) (some p) = u64_mod

pub record IsSmall (a : OriginAddress) : Type 0 where
  pub width : length a.identity ≡ 32
  pub device : Below u32_mod a.device
  pub service : Below u32_mod a.service
  pub session : Below (session_bound a.device a.service) a.session

reread :
    (h : Hex) (identity : Bytes) (d p s : Option ℕ)
    → IsHex h
    → IsSmall (record { identity = identity; device = d; service = p; session = s })
    → parse h (fmt h (record { identity = identity; device = d; service = p; session = s }))
      ≡ ok (packed identity d p s)
unfolding fmt add_part
reread h identity none none none v a = parse-tail h identity [] v a.width
reread h identity none none (some s) v a =
    parse-tail h identity (s ∷ []) v a.width ∙ rw (from_text-to_text u32_mod s a.session) refl
reread h identity none (some p) none v a =
    parse-tail h identity (p ∷ []) v a.width ∙ rw (from_text-to_text u32_mod p a.service) refl
reread h identity none (some p) (some s) v a =
    parse-tail h identity (p ∷ s ∷ []) v a.width
    ∙ rw (from_text-to_text u32_mod p a.service, from_text-to_text u32_mod s a.session) refl
reread h identity (some d) none none v a =
    parse-tail h identity (d ∷ []) v a.width ∙ rw (from_text-to_text u32_mod d a.device) refl
reread h identity (some d) none (some s) v a =
    parse-tail h identity (d ∷ s ∷ []) v a.width
    ∙ rw (from_text-to_text u32_mod d a.device, from_text-to_text u32_mod s a.session) refl
reread h identity (some d) (some p) none v a =
    parse-tail h identity (d ∷ p ∷ []) v a.width
    ∙ rw (from_text-to_text u32_mod d a.device, from_text-to_text u32_mod p a.service) refl
reread h identity (some d) (some p) (some s) v a =
    parse-tail h identity (d ∷ p ∷ s ∷ []) v a.width
    ∙ rw
        (
          from_text-to_text u32_mod d a.device,
          from_text-to_text u32_mod p a.service,
          from_text-to_text u64_mod s a.session,
        )
        refl

-- An address with a fingerprint of 32 bytes is printed and parsed to the address with its components
-- moved to the front: itself, if no component is missing before one that is there, and otherwise
-- another one, as a service without a device is read back as a device. The session has to fit in
-- 32 bits where it moves.
pub parse-fmt :
    (h : Hex) (a : OriginAddress) → IsHex h → IsSmall a → parse h (fmt h a) ≡ ok (pack a)
parse-fmt h a v small = reread h a.identity a.device a.service a.session v small
