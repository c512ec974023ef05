-- ===== src/Access/RateLimit.antt =====
-- packages/api/src/common/rate-limit-store.ts, the in-memory store, and the decision of
-- packages/api/src/common/rate-limit.middleware.ts on the count that it returns.
pub mod Window
use vps_manager_nodejs.Prelude.{
  ℕ, suc, ◌+◌, String, Bool, true, false, List, [], ◌∷◌, Option, none, some, leb, if◌then◌else◌,
  str_eq,
}

-- Bucket
pub record Bucket : Type 0 where
  pub count : ℕ
  pub reset_at : ℕ

-- RateLimitResult
pub record RateLimitResult : Type 0 where
  pub count : ℕ
  pub reset_at_ms : ℕ

-- The map from a key to its bucket.
abbrev pub Buckets : Type 0
Buckets = String → Option Bucket

-- A missing or expired bucket is replaced by an empty one.
abbrev pub current_bucket : Option Bucket → ℕ → ℕ → Bucket
current_bucket none window_ms now = record { count = 0; reset_at = now + window_ms }
current_bucket (some b) window_ms now =
    if leb b.reset_at now then record { count = 0; reset_at = now + window_ms } else b

abbrev pub counted : Bucket → Bucket
counted b = record b { count = b.count + 1 }

-- consume, at the time `now`.
unfoldable pub consume : String → ℕ → ℕ → Buckets → Buckets × RateLimitResult
consume key window_ms now buckets =
    let bucket = counted (current_bucket (buckets key) window_ms now) in
    (
      λ k. if str_eq k key then some bucket else buckets k,
      record { count = bucket.count; reset_at_ms = bucket.reset_at },
    )

-- `count > effectiveMax` refuses the request with 429.
abbrev pub allows : ℕ → RateLimitResult → Bool
allows effective_max r = leb r.count effective_max
