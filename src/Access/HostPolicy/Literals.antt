-- ===== src/Access/HostPolicy/Literals.antt =====
-- packages/api/src/ssh/ssh-host-policy.ts: the shortcut for a host that is an address itself.
use vps_manager_nodejs.Prelude.{
  ◌&&◌, [], ◌∷◌, some, none, ◌≡◌, refl, inl, inr, or_else, if◌then◌else◌, Bool-cases, Outcome, ok,
  ◌>>=◌, ◌>>◌,
}
use vps_manager_nodejs.Access.HostPolicy.{
  Address, Classification, localhost, metadata, private_network, public_network, invalid,
  PolicyConfig, Blocked, effective, classify, is_public, assert_classification_allowed,
  assert_literal, Candidates, validate, pick_target,
}

abbrev found_alone : Classification → Address → Candidates
found_alone found address = record {
  first_public = if is_public found then some address else none;
  first_effective = some address;
}

-- One round of the loop, and the choice after it.
abbrev one_round : Classification → PolicyConfig → Address → Address → Outcome Blocked Address
one_round found config address given =
    assert_classification_allowed found config >> ok (found_alone found address) >>= λ c.
    ok (or_else c.first_public (or_else c.first_effective given))

one_round-address :
    (found : Classification) (config : PolicyConfig) (address given : Address)
    → (assert_classification_allowed found config >> ok address)
      ≡ one_round found config address given
unfolding assert_classification_allowed
one_round-address localhost config address given = refl
one_round-address metadata config address given = refl
one_round-address private_network config address given =
    elim (Bool-cases (config.is_local && config.allow_private_network_targets)) [
      | inl e ↦ rw e refl
      | inr e ↦ rw e refl
    ]
one_round-address public_network config address given = refl
one_round-address invalid config address given = refl

-- A literal address is treated as a name that resolves to it alone.
literal-pick_target :
    (config : PolicyConfig) (address : Address)
    → assert_literal config address ≡ pick_target config (address ∷ [])
unfolding assert_literal pick_target validate
literal-pick_target config address =
    one_round-address (classify (effective address)) config (effective address) address
