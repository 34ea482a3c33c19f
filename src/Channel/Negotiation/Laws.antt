-- ===== src/Channel/Negotiation/Laws.antt =====
-- Offers of negotiation.rs survive the wire.
use origin_tools.Base.{
  ℕ, ◌<◌, ◌≡◌, refl, List, [], ◌∷◌, ◌++◌, map, arith, length, take_append_of_length, length-append,
  ok, true, err, some, zero, suc, get_elem?, Bool-cases, inl, inr, false,
}
use origin_tools.Base.Bytes.{Bytes}
use origin_tools.Channel.Negotiation.{
  CipherSuite, x_cha_cha20_poly1305, Negotiation, negotiation_version, as_u8, to_bytes, from_bytes,
  parse_suites, select, select_from, contains, no_common_suite,
}

parse_suites-map : (l : List CipherSuite) → parse_suites (map as_u8 l) ≡ ok l
unfolding parse_suites as_u8
parse_suites-map [] = refl
parse_suites-map (x_cha_cha20_poly1305 ∷ l) = ground (arith, parse_suites-map l)

length-map-as_u8 : (l : List CipherSuite) → length (map as_u8 l) ≡ length l
length-map-as_u8 [] = refl
length-map-as_u8 (s ∷ l) = omega (arith, length-map-as_u8 l)

-- An offer of this version with 1 to 255 suites is parsed back from its bytes, whatever follows.
pub from_bytes-to_bytes :
    (n : Negotiation) (rest : Bytes)
    → n.version ≡ negotiation_version
    → 0 < length n.suites
    → length n.suites < 256
    → from_bytes (to_bytes n ++ rest) ≡ ok n
unfolding from_bytes to_bytes
from_bytes-to_bytes n rest v pos small = ground (
  arith,
  parse_suites-map n.suites,
  take_append_of_length (length n.suites) (map as_u8 n.suites) rest (length-map-as_u8 n.suites),
  length-append (map as_u8 n.suites) rest,
  length-map-as_u8 n.suites,
)

-- What the responder's choice must be: the first suite of the offer that it supports.
pub record IsFirst (suites supported : List CipherSuite) (s : CipherSuite) : Type 0 where
  pub place : ℕ
  pub there : get_elem? suites place ≡ some s
  pub supported_there : contains supported s ≡ true
  pub refused_before :
      (j : ℕ) (t : CipherSuite)
      → j < place
      → get_elem? suites j ≡ some t
      → contains supported t ≡ false

select_from-IsFirst :
    (suites supported : List CipherSuite) (s : CipherSuite)
    → select_from suites supported ≡ ok s
    → IsFirst suites supported s
select_from-IsFirst [] supported s e = cc
select_from-IsFirst (t ∷ ts) supported s e = elim (Bool-cases (contains supported t)) [
  | inl known ↦
      let same : t ≡ s = ground arith in
      record {
        place = 0;
        there = rw same;
        supported_there = rw (← same) known;
        refused_before = λ j u h. absurd (omega arith);
      }
  | inr unknown ↦
      let first = select_from-IsFirst ts supported s (ground arith) in
      record {
        place = suc first.place;
        there = first.there;
        supported_there = first.supported_there;
        refused_before = elim [
          | zero ↦ λ u h e'. ground arith
          | suc j ↦ λ u h e'. first.refused_before j u (omega arith) e'
        ];
      }
]

select_from-none :
    (suites supported : List CipherSuite)
    → select_from suites supported ≡ err no_common_suite
    → (j : ℕ) (t : CipherSuite) → get_elem? suites j ≡ some t
    → contains supported t ≡ false
select_from-none [] supported e j t h = cc
select_from-none (s ∷ ss) supported e zero t h = ground arith
select_from-none (s ∷ ss) supported e (suc j) t h =
    select_from-none ss supported (ground arith) j t h

-- The responder selects the first offered suite that it supports, and refuses the offer only when
-- it supports none of it.
pub select-IsFirst :
    (n : Negotiation) (supported : List CipherSuite)
    → ((s : CipherSuite) → select n supported ≡ ok s → IsFirst n.suites supported s)
      × (select n supported ≡ err no_common_suite
          → (j : ℕ) (t : CipherSuite) → get_elem? n.suites j ≡ some t
          → contains supported t ≡ false)
unfolding select
select-IsFirst n supported =
    (λ s e. select_from-IsFirst n.suites supported s e, select_from-none n.suites supported)
