-- ===== src/Identity/Capability/Tests.antt =====
-- Runs of the capability sets.
use origin_tools.Base.{◌≡◌, true, refl, [], ◌∷◌}
use origin_tools.Identity.Capability.{
  same_bits, union, human, agent, sign, all, none, has, is_subset_of, fmt,
}
use origin_tools.Identity.Capability.Laws.{is_subset_of_trans}

fmt-agent : fmt agent ≡ "agent_communication" ∷ "task_delegation" ∷ []
unfolding fmt agent union has same_bits
fmt-agent = refl

fmt-none : fmt none ≡ "none" ∷ []
unfolding fmt has same_bits
fmt-none = refl

sign_within : is_subset_of sign human ≡ true
unfolding is_subset_of same_bits human union
sign_within = refl

human_within : is_subset_of human all ≡ true
unfolding is_subset_of same_bits human union
human_within = refl

is_subset_of_trans_example : is_subset_of sign all ≡ true
is_subset_of_trans_example = is_subset_of_trans sign human all sign_within human_within
