-- ===== src/Monitoring/Examples.antt =====
-- Data for runs of the store of
-- packages/api/src/persistence/repositories/docker-monitoring.repository.ts. A JavaScript number is here
-- a natural number.
use Prim.Native.String.{compare as compare_text}
use vps_manager_nodejs.Prelude.{
  ℕ, String, Bool, true, false, ◌&&◌, List, [], ◌∷◌, none, min, ltb, leb, length, str_eq,
}
use vps_manager_nodejs.Alerts.Evidence.{Ratios}
use vps_manager_nodejs.Monitoring.Records.{Sample}
use vps_manager_nodejs.Monitoring.Runtime.{Runtime}

abbrev pub natural_ratios : Ratios ℕ
natural_ratios = record {
  at_least = λ a b. leb b a;
  below = ltb;
  is_finite = λ r. true;
  ratio_0_8 = 80;
  ratio_0_85 = 85;
  ratio_0_9 = 90;
}

abbrev pub before : String → String → Bool
before a b = elim (compare_text a b) [ Prim.Native.Nat.Ordering.lt ↦ true | _ ↦ false ]

abbrev pub same_texts : List String → List String → Bool
same_texts [] [] = true
same_texts (a ∷ xs) (b ∷ ys) = str_eq a b && same_texts xs ys
same_texts _ _ = false

abbrev pub naturals : Runtime ℕ
naturals = record {
  ratios = natural_ratios;
  nan = 0;
  divide = λ a b. a;
  smaller = min;
  is_above_zero = ltb 0;
  of_nat = λ n. n;
  is_valid_date = λ text. true;
  before = before;
  show = λ n. "n";
  same_boundary = same_texts;
  json_bytes = λ s. length s.samples;
}

abbrev pub host_sample_of : String → String → Sample ℕ
host_sample_of id at = record {
  id = id;
  vps_id = "v1";
  agent_instance_id = "a1";
  snapshot_id = id;
  collected_at = at;
  received_at = at;
  effective_at = at;
  metrics = λ name. none;
  coverage = none;
  container = none;
}
