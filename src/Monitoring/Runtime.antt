-- ===== src/Monitoring/Runtime.antt =====
-- What packages/api/src/persistence/repositories/docker-monitoring.repository.ts uses of the JavaScript
-- runtime and of Node: arithmetic on numbers, comparison and printing of text, dates and sizes.
use vps_manager_nodejs.Prelude.{ℕ, String, Bool, List}
use vps_manager_nodejs.Alerts.Evidence.{Ratios}
use vps_manager_nodejs.Monitoring.Records.{Store}

pub record Runtime (R : Type 0) : Type 0 where
  pub ratios : Ratios R
  -- `NaN`, `x / y`, `Math.min(x, y)` and `x > 0`.
  pub nan : R
  pub divide : R → R → R
  pub smaller : R → R → R
  pub is_above_zero : R → Bool
  pub of_nat : ℕ → R
  -- `!Number.isNaN(Date.parse(text))`
  pub is_valid_date : String → Bool
  -- `a < b` on text.
  pub before : String → String → Bool
  -- `${n}`
  pub show : ℕ → String
  -- Whether canonicalDockerJson of the two arrays, compared by localeCompare, gives 0.
  pub same_boundary : List String → List String → Bool
  -- jsonBytes
  pub json_bytes : Store R → ℕ
