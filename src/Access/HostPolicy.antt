-- ===== src/Access/HostPolicy.antt =====
-- packages/api/src/ssh/ssh-host-policy.ts: which addresses an SSH connection may go to, and the address
-- that assertSshHostAllowedAsync picks among those that a name resolves to. An address is given by its
-- numbers: reading its text, and asking the resolver, are left out.
pub mod Ranges
pub mod Targets
mod Literals
use vps_manager_nodejs.Prelude.{
  ℕ, ◌+◌, ◌-◌, ◌*◌, ◌/◌, ◌^◌, Bool, true, false, not, ◌&&◌, ◌||◌, List, [], ◌∷◌, Option, none, some,
  or_else, every, take, leb, ◌==◌, if◌then◌else◌, Outcome, ok, err, ◌>>=◌, ◌>>◌,
}

-- A resolved address: the 32 bits of an IPv4 address, the eight hextets of an IPv6 address, or a text
-- that is neither.
pub data Address : Type 0 where
  ipv4 : ℕ → Address
  ipv6 : ℕ → ℕ → ℕ → ℕ → ℕ → ℕ → ℕ → ℕ → Address
  unreadable : Address

pub data Classification : Type 0 where
  localhost metadata private_network public_network invalid : Classification

-- What the policy reads of the configuration.
pub record PolicyConfig : Type 0 where
  pub is_local : Bool
  pub allow_private_network_targets : Bool

pub data Blocked : Type 0 where
  localhost_blocked metadata_blocked private_blocked invalid_address no_records : Blocked

-- The 32 bits of `a.b.c.d`.
abbrev pub dotted : ℕ → ℕ → ℕ → ℕ → ℕ
dotted a b c d = ((a * 256 + b) * 256 + c) * 256 + d

-- `(value & mask) === (base & mask)` for the mask of the first `bits` bits.
abbrev in_range : ℕ → ℕ → ℕ → Bool
in_range value base bits = (value / 2 ^ (32 - bits)) == (base / 2 ^ (32 - bits))

pub classify_ipv4 : ℕ → Classification
classify_ipv4 value =
    if in_range value (dotted 127 0 0 0) 8
    then localhost
    else if in_range value (dotted 169 254 0 0) 16
    then metadata
    else if in_range value (dotted 0 0 0 0) 8
    then localhost
    else if in_range value (dotted 10 0 0 0) 8
        || in_range value (dotted 172 16 0 0) 12
        || in_range value (dotted 192 168 0 0) 16
    then private_network
    else public_network

abbrev is_zero : ℕ → Bool
is_zero h = h == 0

pub classify_ipv6 : ℕ → ℕ → ℕ → ℕ → ℕ → ℕ → ℕ → ℕ → Classification
classify_ipv6 a b c d e f g h =
    if every is_zero (a ∷ b ∷ c ∷ d ∷ e ∷ f ∷ g ∷ []) && (is_zero h || (h == 1))
    then localhost
    else if leb 65152 a && leb a 65215
    then metadata
    else if leb 64512 a && leb a 65023
    then private_network
    else public_network

-- `extractIpv4Mapped(address) ?? address`
pub effective : Address → Address
effective (ipv4 value) = ipv4 value
effective (ipv6 a b c d e f g h) =
    if every is_zero (a ∷ b ∷ c ∷ d ∷ e ∷ []) && (f == 65535)
    then ipv4 (g * 65536 + h)
    else ipv6 a b c d e f g h
effective unreadable = unreadable

pub classify : Address → Classification
unfolding classify_ipv4 classify_ipv6
classify (ipv4 value) = classify_ipv4 value
classify (ipv6 a b c d e f g h) = classify_ipv6 a b c d e f g h
classify unreadable = invalid

-- assertClassificationAllowed
pub assert_classification_allowed : Classification → PolicyConfig → Outcome Blocked (Unit {0})
assert_classification_allowed localhost config = err localhost_blocked
assert_classification_allowed metadata config = err metadata_blocked
assert_classification_allowed private_network config =
    if config.is_local && config.allow_private_network_targets then ok tt else err private_blocked
assert_classification_allowed public_network config = ok tt
assert_classification_allowed invalid config = err invalid_address

-- The literal addresses of assertSshHostAllowedAsync.
pub assert_literal : PolicyConfig → Address → Outcome Blocked Address
unfolding effective classify assert_classification_allowed
assert_literal config address =
    assert_classification_allowed (classify (effective address)) config >> ok (effective address)

-- `firstPublic` and `firstEffective`.
pub record Candidates : Type 0 where
  pub first_public : Option Address
  pub first_effective : Option Address

abbrev if_missing : Option Address → Address → Option Address
if_missing none address = some address
if_missing (some first) address = some first

abbrev is_public : Classification → Bool
is_public public_network = true
is_public _ = false

-- One round of the loop, once the address is allowed.
abbrev pub noted : Candidates → Address → Candidates
noted found address = record {
  first_public =
      if is_public (classify address)
      then if_missing found.first_public address
      else found.first_public;
  first_effective = if_missing found.first_effective address;
}

-- The loop over the resolved addresses.
pub validate : PolicyConfig → List Address → Candidates → Outcome Blocked Candidates
unfolding effective classify assert_classification_allowed
validate config [] found = ok found
validate config (address ∷ addresses) found =
    assert_classification_allowed (classify (effective address)) config
    >> validate config addresses (noted found (effective address))

-- assertSshHostAllowedAsync on the addresses that a name resolves to.
unfoldable pub pick_target : PolicyConfig → List Address → Outcome Blocked Address
unfolding validate
pick_target config [] = err no_records
pick_target config (address ∷ addresses) =
    validate config (address ∷ addresses) (record { first_public = none; first_effective = none })
    >>= λ found. ok (or_else found.first_public (or_else found.first_effective address))
