-- ===== src/Access/RateLimit/Window.antt =====
-- packages/api/src/common/rate-limit-store.ts: how many requests one window lets through.
use vps_manager_nodejs.Prelude.{
  ℕ, suc, ◌+◌, ◌<◌, ◌≡◌, refl, sym, ap, ◌∙◌, inl, inr, String, Bool, true, false, List, [], ◌∷◌,
  some, leb, count_if, arith, min, ◌-◌, if◌then◌else◌, str_eq, eq_iff, eq_refl, Bool-cases,
}
use vps_manager_nodejs.Access.RateLimit.{Bucket, Buckets, counted, consume, allows}

-- A request: its key and its time.
pub record Request : Type 0 where
  pub key : String
  pub at : ℕ

-- The requests that are let through of a sequence of requests, in order.
abbrev pub admitted : ℕ → ℕ → List Request → Buckets → List Request
admitted window_ms max [] buckets = []
admitted window_ms max (r ∷ rs) buckets =
    let (after, result) = consume r.key window_ms r.at buckets in
    let rest = admitted window_ms max rs after in if allows max result then r ∷ rest else rest

abbrev pub of_key : String → Request → Bool
of_key key r = str_eq r.key key

-- Every request comes before the time.
abbrev pub Before : ℕ → List Request → Type 0
Before time [] = Unit
Before time (r ∷ rs) = (r.at < time) × Before time rs

consume_other :
    (key other : String) (window_ms now : ℕ) (buckets : Buckets)
    → str_eq key other ≡ false
    → (consume other window_ms now buckets).0 key ≡ buckets key
unfolding consume
consume_other key other window_ms now buckets apart = rw apart refl

consume_own :
    (key : String) (window_ms now : ℕ) (buckets : Buckets) (b : Bucket)
    → buckets key ≡ some b
    → now < b.reset_at
    → ((consume key window_ms now buckets).0 key ≡ some (counted b))
      × ((consume key window_ms now buckets).1
          ≡ record { count = b.count + 1; reset_at_ms = b.reset_at })
unfolding consume
consume_own key window_ms now buckets b held early =
    let open_window : leb b.reset_at now ≡ false = ground arith in
    (rw (eq_refl key, held, open_window) refl, rw (held, open_window) refl)

count_if-kept :
    (p : Request → Bool) (keep : Bool) (r : Request) (rs : List Request)
    → count_if p (if keep then r ∷ rs else rs)
      ≡ (if keep then (if p r then 1 else 0) else 0) + count_if p rs
count_if-kept p true r rs = ground arith
count_if-kept p false r rs = ground arith

min_step :
    (n count max : ℕ)
    → (if leb (count + 1) max then 1 else 0) + min n (max - (count + 1)) ≡ min (suc n) (max - count)
min_step n count max = elim (Bool-cases (leb (count + 1) max)) [
  | inl below ↦ rw below (ground arith)
  | inr over ↦ rw over (ground arith)
]

-- While the window of a key lasts, exactly the first of its requests are let through, as many as the
-- limit leaves after those counted before, whatever other keys are asked for in between.
pub admitted-IsBounded :
    (key : String) (window_ms max : ℕ) (requests : List Request) (buckets : Buckets) (b : Bucket)
    → buckets key ≡ some b
    → Before b.reset_at requests
    → count_if (of_key key) (admitted window_ms max requests buckets)
      ≡ min (count_if (of_key key) requests) (max - b.count)
admitted-IsBounded key window_ms max [] buckets b held before = ground arith
admitted-IsBounded key window_ms max (r ∷ rs) buckets b held before =
    elim (Bool-cases (str_eq r.key key)) [
      | inl own ↦
          let same : r.key ≡ key = (eq_iff r.key key).0 own in
          let after = (consume r.key window_ms r.at buckets).0 in
          let (next, told) =
            consume_own r.key window_ms r.at buckets b (ap buckets same ∙ held) before.0 in
          let rest =
            admitted-IsBounded key window_ms max rs after (counted b) (ap after (sym same) ∙ next)
              before.1 in
          count_if-kept (of_key key) (allows max (consume r.key window_ms r.at buckets).1) r
            (admitted window_ms max rs after)
          ∙ rw (told, own, rest) (min_step (count_if (of_key key) rs) b.count max)
      | inr other ↦
          let after = (consume r.key window_ms r.at buckets).0 in
          let apart : str_eq key r.key ≡ false =
            ground (arith, eq_iff r.key key, eq_iff key r.key) in
          let rest =
            admitted-IsBounded key window_ms max rs after b
              (consume_other key r.key window_ms r.at buckets apart ∙ held) before.1 in
          count_if-kept (of_key key) (allows max (consume r.key window_ms r.at buckets).1) r
            (admitted window_ms max rs after)
          ∙ rw (other, rest) (ground arith)
    ]
