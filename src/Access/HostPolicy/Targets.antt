-- ===== src/Access/HostPolicy/Targets.antt =====
-- packages/api/src/ssh/ssh-host-policy.ts: the address that is picked among resolved ones.
use vps_manager_nodejs.Prelude.{
  Bool, true, false, ◌&&◌, List, [], ◌∷◌, Option, none, some, ◌≡◌, refl, sym, ap, ◌∙◌, ◌⊎◌, inl,
  inr, ◌↔◌, find, All, or_else, if◌then◌else◌, Bool-cases, Option-cases, Outcome-cases, ok, err,
  ◌>>=◌, ◌>>◌, >>=-eq-ok, ok-eq, err-ok, &&-true,
}
use vps_manager_nodejs.Access.HostPolicy.Ranges.{
  IsPublic, IsPrivate, classify-IsPublic, classify-IsPrivate,
}
use vps_manager_nodejs.Access.HostPolicy.{
  Address, Classification, localhost, metadata, private_network, public_network, invalid,
  PolicyConfig, private_blocked, effective, classify, is_public, if_missing,
  assert_classification_allowed, Candidates, noted, validate, pick_target,
}

-- What the checks let through: the public network, and a private one where the configuration is local and
-- allows it.
abbrev IsAllowed : PolicyConfig → Classification → Type 0
IsAllowed config found =
    (found ≡ public_network)
    ⊎ ((found ≡ private_network)
        × ((config.is_local ≡ true) × (config.allow_private_network_targets ≡ true)))

assert-IsAllowed :
    (found : Classification) (config : PolicyConfig)
    → assert_classification_allowed found config ≡ ok tt
    → IsAllowed config found
unfolding assert_classification_allowed
assert-IsAllowed localhost config passed = err-ok passed
assert-IsAllowed metadata config passed = err-ok passed
assert-IsAllowed private_network config passed =
    elim (Bool-cases (config.is_local && config.allow_private_network_targets)) [
      | inl both ↦ inr (refl, &&-true config.is_local config.allow_private_network_targets both)
      | inr blocked ↦
          err-ok (sym (ap (λ b. if b then ok tt else err private_blocked) blocked) ∙ passed)
    ]
assert-IsAllowed public_network config passed = inl refl
assert-IsAllowed invalid config passed = err-ok passed

IsAllowed-assert :
    (found : Classification) (config : PolicyConfig)
    → IsAllowed config found
    → assert_classification_allowed found config ≡ ok tt
unfolding assert_classification_allowed
IsAllowed-assert found config (inl e) = rw e refl
IsAllowed-assert found config (inr (e, (is_local, allows))) = rw (e, is_local, allows) refl

-- The checks let every address through, under its effective form.
abbrev AreAllowed : PolicyConfig → List Address → Type 0
AreAllowed config = All (λ address. IsAllowed config (classify (effective address)))

abbrev effectives : List Address → List Address
effectives [] = []
effectives (address ∷ addresses) = effective address ∷ effectives addresses

abbrev on_public_network : Address → Bool
on_public_network address = is_public (classify address)

-- The first effective form on the public network, and without one the first of all.
abbrev pub IsPicked : Address → List Address → Type 0
IsPicked target [] = ⊥
IsPicked target (address ∷ addresses) =
    target ≡ or_else (find on_public_network (effectives (address ∷ addresses))) (effective address)

-- The loop without its checks.
noted_all : List Address → Candidates → Candidates
noted_all [] found = found
noted_all (address ∷ addresses) found = noted_all addresses (noted found (effective address))

validate-passes :
    (config : PolicyConfig) (addresses : List Address) (found : Candidates)
    → AreAllowed config addresses
    → validate config addresses found ≡ ok (noted_all addresses found)
unfolding validate noted_all
validate-passes config [] found allowed = refl
validate-passes config (address ∷ addresses) found (first, rest) =
    ap (λ r. r >> validate config addresses (noted found (effective address)))
      (IsAllowed-assert (classify (effective address)) config first)
    ∙ validate-passes config addresses (noted found (effective address)) rest

validate-AreAllowed :
    (config : PolicyConfig) (addresses : List Address) (found : Candidates) {answer : Candidates}
    → validate config addresses found ≡ ok answer
    → AreAllowed config addresses
unfolding validate
validate-AreAllowed config [] found returned = tt
validate-AreAllowed config (address ∷ addresses) found returned =
    elim (Outcome-cases (assert_classification_allowed (classify (effective address)) config)) [
      | inl (tt, passed) ↦ (
        assert-IsAllowed (classify (effective address)) config passed,
        validate-AreAllowed config addresses (noted found (effective address)) (
            sym (ap (λ r. r >> validate config addresses (noted found (effective address))) passed)
            ∙ returned),
      )
      | inr (thrown, failed) ↦ err-ok (
          sym (ap (λ r. r >> validate config addresses (noted found (effective address))) failed)
          ∙ returned)
    ]

abbrev first_of : Option Address → Option Address → Option Address
first_of none later = later
first_of (some first) later = some first

-- A round fills the gap with the address under test, if it passes.
first_of-round :
    (test : Bool) (so_far : Option Address) (address : Address) (later : Option Address)
    → first_of (if test then if_missing so_far address else so_far) later
      ≡ first_of so_far (if test then some address else later)
first_of-round true none address later = refl
first_of-round true (some first) address later = refl
first_of-round false so_far address later = refl

noted_all-public :
    (addresses : List Address) (found : Candidates)
    → (noted_all addresses found).first_public
      ≡ first_of found.first_public (find on_public_network (effectives addresses))
unfolding noted_all
noted_all-public [] found = elim (Option-cases found.first_public) [
  | inl e ↦ rw e refl
  | inr (first, e) ↦ rw e refl
]
noted_all-public (address ∷ addresses) found =
    noted_all-public addresses (noted found (effective address))
    ∙ first_of-round (is_public (classify (effective address))) found.first_public
        (effective address) (find on_public_network (effectives addresses))

noted_all-effective :
    (addresses : List Address) (found : Candidates) (first : Address)
    → found.first_effective ≡ some first
    → (noted_all addresses found).first_effective ≡ some first
unfolding noted_all
noted_all-effective [] found first e = e
noted_all-effective (address ∷ addresses) found first e =
    noted_all-effective addresses (noted found (effective address)) first
      (ap (λ o. if_missing o (effective address)) e)

abbrev nothing_found : Candidates
nothing_found = record { first_public = none; first_effective = none }

-- The address that is picked once every check has passed.
pick_target-answer :
    (config : PolicyConfig) (address : Address) (addresses : List Address)
    → AreAllowed config (address ∷ addresses)
    → pick_target config (address ∷ addresses)
      ≡ ok (or_else (find on_public_network (effectives (address ∷ addresses))) (effective address))
unfolding pick_target noted_all
pick_target-answer config address addresses allowed =
    ap (λ r. r >>= λ found. ok (or_else found.first_public (or_else found.first_effective address)))
      (validate-passes config (address ∷ addresses) nothing_found allowed)
    ∙ ap
        (λ o. ok (
          or_else o
            (or_else (noted_all (address ∷ addresses) nothing_found).first_effective address)))
        (noted_all-public (address ∷ addresses) nothing_found)
    ∙ ap
        (λ o.
          ok (
            or_else (find on_public_network (effectives (address ∷ addresses)))
              (or_else o address)))
        (noted_all-effective addresses (noted nothing_found (effective address)) (effective address)
          refl)

pick_target-AreAllowed :
    (config : PolicyConfig) (address : Address) (addresses : List Address) {target : Address}
    → pick_target config (address ∷ addresses) ≡ ok target
    → AreAllowed config (address ∷ addresses)
unfolding pick_target
pick_target-AreAllowed config address addresses picked =
    let (found, validated, rest) =
      >>=-eq-ok (validate config (address ∷ addresses) nothing_found) _ picked in
    validate-AreAllowed config (address ∷ addresses) nothing_found validated

-- What may be connected to: a public address, and a private one where the configuration is local and
-- allows it.
abbrev MayConnect : PolicyConfig → Address → Type 0
MayConnect config address =
    IsPublic address
    ⊎ (IsPrivate address
        × ((config.is_local ≡ true) × (config.allow_private_network_targets ≡ true)))

abbrev pub AllMayConnect : PolicyConfig → List Address → Type 0
AllMayConnect config = All (λ address. MayConnect config (effective address))

IsAllowed-MayConnect :
    (config : PolicyConfig) (address : Address)
    → IsAllowed config (classify address)
    → MayConnect config address
IsAllowed-MayConnect config address (inl e) = inl ((classify-IsPublic address).0 e)
IsAllowed-MayConnect config address (inr (e, local)) = inr ((classify-IsPrivate address).0 e, local)

MayConnect-IsAllowed :
    (config : PolicyConfig) (address : Address)
    → MayConnect config address
    → IsAllowed config (classify address)
MayConnect-IsAllowed config address (inl e) = inl ((classify-IsPublic address).1 e)
MayConnect-IsAllowed config address (inr (e, local)) = inr ((classify-IsPrivate address).1 e, local)

AreAllowed-AllMayConnect :
    (config : PolicyConfig) (addresses : List Address)
    → AreAllowed config addresses ↔ AllMayConnect config addresses
AreAllowed-AllMayConnect config [] = (λ u. u, λ u. u)
AreAllowed-AllMayConnect config (address ∷ addresses) =
    let rest = AreAllowed-AllMayConnect config addresses in
    (
      λ (first, others). (IsAllowed-MayConnect config (effective address) first, rest.0 others),
      λ (first, others). (MayConnect-IsAllowed config (effective address) first, rest.1 others),
    )

-- A target is picked exactly where every resolved address, in its effective form, is public by the
-- bounds of the ranges, or private with a local configuration that allows private targets, and the
-- target is the first effective form on the public network, or the first effective form if none is.
pub pick_target_iff :
    (config : PolicyConfig) (addresses : List Address) (target : Address)
    → (pick_target config addresses ≡ ok target)
      ↔ (AllMayConnect config addresses × IsPicked target addresses)
unfolding pick_target
pick_target_iff config [] target = (λ picked. err-ok picked, λ (_, impossible). elim impossible [ ])
pick_target_iff config (address ∷ addresses) target =
    let same = AreAllowed-AllMayConnect config (address ∷ addresses) in
    (
      λ picked.
          let allowed = pick_target-AreAllowed config address addresses picked in
          (
            same.0 allowed,
            ok-eq (sym picked ∙ pick_target-answer config address addresses allowed),
          ),
      λ (may_connect, e).
          pick_target-answer config address addresses (same.1 may_connect) ∙ ap ok (sym e),
    )
