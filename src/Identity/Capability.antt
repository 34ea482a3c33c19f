-- ===== src/Identity/Capability.antt =====
-- origin-identity/src/capabilities.rs: sets of capabilities in one 64-bit word. A set is the word
-- by its bits; two words are equal when their 64 bits are.
pub mod Laws
mod Tests
use Prim.Native.String.{String}
use origin_tools.Base.{
  ℕ, zero, suc, ◌+◌, Bool, true, false, ◌&&◌, ◌||◌, not, List, [], ◌∷◌, ◌==◌, ltb, if◌then◌else◌,
}
use origin_tools.Base.Word.{Word, word_bits, word_zero, word_bit, word_or, word_and, word_not}

abbrev pub CapabilitySet : Type 0
CapabilitySet = Word

abbrev same_bool : Bool → Bool → Bool
same_bool true b = b
same_bool false b = not b

-- `==` on the lowest `n` bits.
unfoldable pub same_bits : ℕ → Word → Word → Bool
same_bits zero v w = true
same_bits (suc n) v w = same_bool (v n) (w n) && same_bits n v w

abbrev pub none : CapabilitySet
none = word_zero

abbrev pub sign : CapabilitySet
sign = word_bit 0

abbrev pub delegate : CapabilitySet
delegate = word_bit 1

abbrev pub revoke : CapabilitySet
revoke = word_bit 2

abbrev pub stamp : CapabilitySet
stamp = word_bit 3

abbrev pub channel_encrypt : CapabilitySet
channel_encrypt = word_bit 4

abbrev pub handshake_initiate : CapabilitySet
handshake_initiate = word_bit 5

abbrev pub handshake_respond : CapabilitySet
handshake_respond = word_bit 6

abbrev pub agent_communication : CapabilitySet
agent_communication = word_bit 7

abbrev pub task_delegation : CapabilitySet
task_delegation = word_bit 8

abbrev pub attestation : CapabilitySet
attestation = word_bit 9

abbrev pub key_rotation : CapabilitySet
key_rotation = word_bit 10

abbrev pub admin : CapabilitySet
admin = word_bit 11

abbrev pub identity_proof : CapabilitySet
identity_proof = word_bit 12

abbrev pub act_on_behalf : CapabilitySet
act_on_behalf = word_bit 13

abbrev pub human_approval_required : CapabilitySet
human_approval_required = word_bit 14

unfoldable pub union : CapabilitySet → CapabilitySet → CapabilitySet
union s other = word_or s other

unfoldable pub intersect : CapabilitySet → CapabilitySet → CapabilitySet
intersect s other = word_and s other

unfoldable pub human : CapabilitySet
unfolding union
human = union (union (union identity_proof attestation) delegate) sign

unfoldable pub agent : CapabilitySet
unfolding union
agent = union agent_communication task_delegation

unfoldable pub service : CapabilitySet
unfolding union
service = union agent_communication channel_encrypt

-- `(1 << 15) - 1`
abbrev pub all : CapabilitySet
all i = ltb i 15

unfoldable pub has : CapabilitySet → CapabilitySet → Bool
has s cap = same_bits word_bits (word_and s cap) cap

unfoldable pub is_subset_of : CapabilitySet → CapabilitySet → Bool
is_subset_of s other = same_bits word_bits (word_and s (word_not other)) word_zero

unfoldable pub from_bits_truncate : Word → CapabilitySet
from_bits_truncate bits = word_and bits all

-- The table of `fmt`.
abbrev pub names : List (CapabilitySet × String)
names =
    (sign, "sign")
    ∷ (delegate, "delegate")
    ∷ (revoke, "revoke")
    ∷ (stamp, "stamp")
    ∷ (channel_encrypt, "channel_encrypt")
    ∷ (handshake_initiate, "handshake_initiate")
    ∷ (handshake_respond, "handshake_respond")
    ∷ (agent_communication, "agent_communication")
    ∷ (task_delegation, "task_delegation")
    ∷ (attestation, "attestation")
    ∷ (key_rotation, "key_rotation")
    ∷ (admin, "admin")
    ∷ (identity_proof, "identity_proof")
    ∷ (act_on_behalf, "act_on_behalf")
    ∷ (human_approval_required, "human_approval")
    ∷ []

abbrev pub held : CapabilitySet → List (CapabilitySet × String) → List String
unfolding has
held s [] = []
held s ((cap, name) ∷ rest) = if has s cap then name ∷ held s rest else held s rest

abbrev pub or_none : List String → List String
or_none [] = "none" ∷ []
or_none (n ∷ ns) = n ∷ ns

-- The names that `fmt` writes with commas in between.
unfoldable pub fmt : CapabilitySet → List String
fmt s = or_none (held s names)
