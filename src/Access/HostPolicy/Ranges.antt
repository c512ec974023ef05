-- ===== src/Access/HostPolicy/Ranges.antt =====
-- packages/api/src/ssh/ssh-host-policy.ts: the classes of addresses by the bounds of their ranges.
use vps_manager_nodejs.Prelude.{ℕ, ◌+◌, ◌≤◌, ◌<◌, ◌≡◌, ◌⊎◌, ◌↔◌, arith}
use vps_manager_nodejs.Access.HostPolicy.{
  Address, ipv4, ipv6, unreadable, classify, classify_ipv4, classify_ipv6, public_network,
  private_network, dotted,
}

abbrev Between : ℕ → ℕ → ℕ → Type 0
Between low high value = (low ≤ value) × (value ≤ high)

abbrev Outside : ℕ → ℕ → ℕ → Type 0
Outside low high value = (value < low) ⊎ (high < value)

-- 10.0.0.0/8, 172.16.0.0/12, 192.168.0.0/16 and fc00::/7.
abbrev pub IsPrivate : Address → Type 0
IsPrivate (ipv4 value) =
    Between (dotted 10 0 0 0) (dotted 10 255 255 255) value
    ⊎ (Between (dotted 172 16 0 0) (dotted 172 31 255 255) value
        ⊎ Between (dotted 192 168 0 0) (dotted 192 168 255 255) value)
IsPrivate (ipv6 a b c d e f g h) = Between 64512 65023 a
IsPrivate unreadable = ⊥

-- Outside 0.0.0.0/8, 127.0.0.0/8, 169.254.0.0/16 and the private ranges; beyond ::1, and outside
-- fe80::/10 and fc00::/7.
abbrev pub IsPublic : Address → Type 0
IsPublic (ipv4 value) =
    (Outside (dotted 0 0 0 0) (dotted 0 255 255 255) value
      × (Outside (dotted 127 0 0 0) (dotted 127 255 255 255) value
          × Outside (dotted 169 254 0 0) (dotted 169 254 255 255) value))
    × (Outside (dotted 10 0 0 0) (dotted 10 255 255 255) value
        × (Outside (dotted 172 16 0 0) (dotted 172 31 255 255) value
            × Outside (dotted 192 168 0 0) (dotted 192 168 255 255) value))
IsPublic (ipv6 a b c d e f g h) =
    ((0 < a + b + c + d + e + f + g) ⊎ (1 < h)) × (Outside 65152 65215 a × Outside 64512 65023 a)
IsPublic unreadable = ⊥

classify_ipv4-IsPublic :
    (value : ℕ) → (classify_ipv4 value ≡ public_network) ↔ IsPublic (ipv4 value)
unfolding classify_ipv4
classify_ipv4-IsPublic value = ground arith

classify_ipv4-IsPrivate :
    (value : ℕ) → (classify_ipv4 value ≡ private_network) ↔ IsPrivate (ipv4 value)
unfolding classify_ipv4
classify_ipv4-IsPrivate value = ground arith

classify_ipv6-IsPrivate :
    (a b c d e f g h : ℕ)
    → (classify_ipv6 a b c d e f g h ≡ private_network) ↔ IsPrivate (ipv6 a b c d e f g h)
unfolding classify_ipv6
classify_ipv6-IsPrivate a b c d e f g h = ground arith

classify_ipv6-IsPublic :
    (a b c d e f g h : ℕ)
    → (classify_ipv6 a b c d e f g h ≡ public_network) ↔ IsPublic (ipv6 a b c d e f g h)
unfolding classify_ipv6
classify_ipv6-IsPublic a b c d e f g h = ground arith

pub classify-IsPublic : (address : Address) → (classify address ≡ public_network) ↔ IsPublic address
unfolding classify
classify-IsPublic (ipv4 value) = classify_ipv4-IsPublic value
classify-IsPublic (ipv6 a b c d e f g h) = classify_ipv6-IsPublic a b c d e f g h
classify-IsPublic unreadable = ground arith

pub classify-IsPrivate :
    (address : Address) → (classify address ≡ private_network) ↔ IsPrivate address
unfolding classify
classify-IsPrivate (ipv4 value) = classify_ipv4-IsPrivate value
classify-IsPrivate (ipv6 a b c d e f g h) = classify_ipv6-IsPrivate a b c d e f g h
classify-IsPrivate unreadable = ground arith
