-- ===== src/Upgrade/Catalog.antt =====
-- packages/api/src/release/release-catalog.service.ts: the two lookups of a release, over what `resolve`
-- answers. Fetching and verifying the manifest are left out: a catalog is the manifest that has been
-- verified, or the reason why there is none.
use vps_manager_nodejs.Prelude.{
  ℕ, String, Bool, true, ◌&&◌, List, [], ◌∷◌, Option, none, some, if◌then◌else◌, str_eq, Outcome,
  ok, err,
}

-- ReleaseArtifactEntry
pub record Artifact : Type 0 where
  pub os : String
  pub arch : String
  pub size : ℕ
  pub sha256 : String
  pub url : String

-- An artifact of the manifest; the fields of the entry are `entry`.
pub record ManifestArtifact : Type 0 where
  pub component : Option String
  pub entry : Artifact

-- What is read of a VerifiedSnapshot; `text` is manifestText.
pub record Manifest : Type 0 where
  pub release_id : String
  pub version : String
  pub build_id : String
  pub channel : String
  pub api_min : ℕ
  pub api_max : ℕ
  pub artifacts : List ManifestArtifact
  pub text : String

abbrev pub Catalog : Type 0
Catalog = Outcome String Manifest

-- What `createJob` and `getAgentUpdate` read of a ReleaseCatalogEntry.
pub record Release : Type 0 where
  pub release_id : String
  pub version : String
  pub build_id : String
  pub api_min : ℕ
  pub api_max : ℕ
  pub artifacts : List Artifact
  pub manifest_raw : String

-- ReleaseCatalogResult
pub data CatalogResult : Type 0 where
  found : Release → CatalogResult
  unavailable : String → CatalogResult
  not_found : CatalogResult

abbrev pub is_agent : Option String → Bool
is_agent none = true
is_agent (some component) = str_eq component "agent"

abbrev pub served : String → String → List ManifestArtifact → List Artifact
served os arch [] = []
served os arch (a ∷ artifacts) =
    if is_agent a.component && str_eq a.entry.os os && str_eq a.entry.arch arch
    then a.entry ∷ served os arch artifacts
    else served os arch artifacts

-- toEntry
abbrev pub to_entry : Manifest → String → String → Release
to_entry m os arch = record {
  release_id = m.release_id;
  version = m.version;
  build_id = m.build_id;
  api_min = m.api_min;
  api_max = m.api_max;
  artifacts = served os arch m.artifacts;
  manifest_raw = m.text;
}

unfoldable pub get_compatible_release : Catalog → String → String → String → CatalogResult
get_compatible_release (err reason) channel os arch = unavailable reason
get_compatible_release (ok m) channel os arch =
    if str_eq m.channel channel then found (to_entry m os arch) else unavailable "channel_mismatch"

unfoldable pub get_release_by_id : Catalog → String → String → String → CatalogResult
get_release_by_id (err reason) release_id os arch = unavailable reason
get_release_by_id (ok m) release_id os arch =
    if str_eq m.release_id release_id then found (to_entry m os arch) else not_found
